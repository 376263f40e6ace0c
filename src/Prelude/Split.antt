-- ===== src/Prelude/Split.antt =====
-- The searches in a text that the source makes: `contains`, `split_once`, `rsplit_once`,
-- `strip_prefix`, with a byte or a text to look for.
use mathlib.Core.Path.{◌≡◌, refl}
use mathlib.Core.Logic.{inl, inr}
use mathlib.Core.Bool.{Bool, false, ◌||◌}
use mathlib.Core.Option.{Option, none, some}
use mathlib.Core.List.{[], ◌∷◌, ◌++◌}
use Prim.Native.Nat.{ℕ}
use native.Mathlib.Omega.{arith}
use seismic.Prelude.Tests.{◌==◌, if◌then◌else◌, Bool-cases, Option-cases}
use seismic.Prelude.Text.{Text}

unfoldable pub contains : ℕ → Text → Bool
contains c [] = false
contains c (d ∷ s) = d == c || contains c s

-- The parts before and after the first `c`.
unfoldable pub split_once : ℕ → Text → Option (Text × Text)
split_once c [] = none
split_once c (d ∷ s) =
    let rest : Option (Text × Text) = elim (split_once c s) [
      | none ↦ none
      | some (a, b) ↦ some (d ∷ a, b)
    ] in
    if d == c then some ([], s) else rest

-- The parts before and after the last `c`.
unfoldable pub rsplit_once : ℕ → Text → Option (Text × Text)
rsplit_once c [] = none
rsplit_once c (d ∷ s) = elim (rsplit_once c s) [
  | none ↦ if d == c then some ([], s) else none
  | some (a, b) ↦ some (d ∷ a, b)
]

-- What follows `p` at the head of the text.
unfoldable pub strip_prefix : Text → Text → Option Text
strip_prefix [] s = some s
strip_prefix (c ∷ p) [] = none
strip_prefix (c ∷ p) (d ∷ s) = let rest = strip_prefix p s in if c == d then rest else none

pub contains-append : (c : ℕ) (s t : Text) → contains c (s ++ t) ≡ (contains c s || contains c t)
unfolding contains
contains-append c [] t = refl
contains-append c (d ∷ s) t = ground (arith, contains-append c s t)

pub split_once-append :
    (c : ℕ) (a b : Text) → contains c a ≡ false → split_once c (a ++ c ∷ b) ≡ some (a, b)
unfolding split_once contains
split_once-append c [] b h = ground arith
split_once-append c (d ∷ a) b h = ground (arith, split_once-append c a b)

pub split_once-eq-some :
    (c : ℕ) (s a b : Text)
    → split_once c s ≡ some (a, b)
    → (s ≡ a ++ c ∷ b) × (contains c a ≡ false)
unfolding split_once contains
split_once-eq-some c [] a b h = absurd (ground arith)
split_once-eq-some c (d ∷ s) a b h = elim (Bool-cases (d == c)) [
  | inl here ↦ (ground arith, ground arith)
  | inr later ↦ elim (Option-cases (split_once c s)) [
    | inl missing ↦ absurd (ground arith)
    | inr ((x, y), found) ↦
        let (parts, clear) = split_once-eq-some c s x y found in (ground arith, ground arith)
  ]
]

pub split_once-eq-none : (c : ℕ) (s : Text) → contains c s ≡ false → split_once c s ≡ none
unfolding split_once contains
split_once-eq-none c [] h = refl
split_once-eq-none c (d ∷ s) h = ground (arith, split_once-eq-none c s)

pub contains_of_none : (c : ℕ) (s : Text) → split_once c s ≡ none → contains c s ≡ false
unfolding split_once contains
contains_of_none c [] h = refl
contains_of_none c (d ∷ s) h = ground (arith, contains_of_none c s)

pub rsplit_once-eq-none : (c : ℕ) (s : Text) → contains c s ≡ false → rsplit_once c s ≡ none
unfolding rsplit_once contains
rsplit_once-eq-none c [] h = refl
rsplit_once-eq-none c (d ∷ s) h = ground (arith, rsplit_once-eq-none c s)

rcontains_of_none : (c : ℕ) (s : Text) → rsplit_once c s ≡ none → contains c s ≡ false
unfolding rsplit_once contains
rcontains_of_none c [] h = refl
rcontains_of_none c (d ∷ s) h = ground (arith, rcontains_of_none c s)

pub rsplit_once-append :
    (c : ℕ) (a b : Text) → contains c b ≡ false → rsplit_once c (a ++ c ∷ b) ≡ some (a, b)
unfolding rsplit_once
rsplit_once-append c [] b h = ground (arith, rsplit_once-eq-none c b h)
rsplit_once-append c (d ∷ a) b h = ground (arith, rsplit_once-append c a b h)

pub rsplit_once-eq-some :
    (c : ℕ) (s a b : Text)
    → rsplit_once c s ≡ some (a, b)
    → (s ≡ a ++ c ∷ b) × (contains c b ≡ false)
unfolding rsplit_once contains
rsplit_once-eq-some c [] a b h = absurd (ground arith)
rsplit_once-eq-some c (d ∷ s) a b h = elim (Option-cases (rsplit_once c s)) [
  | inl missing ↦ (ground arith, ground (arith, rcontains_of_none c s missing))
  | inr ((x, y), found) ↦
      let (parts, clear) = rsplit_once-eq-some c s x y found in (ground arith, ground arith)
]

pub strip_prefix-append : (p s : Text) → strip_prefix p (p ++ s) ≡ some s
unfolding strip_prefix
strip_prefix-append [] s = refl
strip_prefix-append (c ∷ p) s = ground (arith, strip_prefix-append p s)

pub strip_prefix-eq-some : (p s t : Text) → strip_prefix p s ≡ some t → s ≡ p ++ t
unfolding strip_prefix
strip_prefix-eq-some [] s t h = ground arith
strip_prefix-eq-some (c ∷ p) [] t h = absurd (ground arith)
strip_prefix-eq-some (c ∷ p) (d ∷ s) t h = ground (arith, strip_prefix-eq-some p s t)
