-- ===== src/Prelude/Map.antt =====
-- Rust's `BTreeMap<String, V>`: entries in the order of their keys, so a walk over the map is a
-- walk in that order. A `BTreeSet<String>` is a map to `Unit`.
use mathlib.Core.Path.{◌≡◌, refl}
use mathlib.Core.Logic.{inl, inr}
use mathlib.Core.Bool.{Bool, true}
use mathlib.Core.Option.{Option, none, some}
use mathlib.Core.List.{List, [], ◌∷◌, map}
use native.Mathlib.Omega.{arith}
use seismic.Prelude.Tests.{if◌then◌else◌, is_some, Bool-cases}
use seismic.Prelude.Lists.{All, All-imp}
use seismic.Prelude.Text.{
  Text, text_eq, text_lt, text_eq_iff, text_lt_trans, text_lt_connex, text_lt_irrefl, text_eq_refl,
}

abbrev pub Map {ℓ} : Type ℓ → Type ℓ
Map V = List (Text × V)

module _ {ℓ} {V : Type ℓ} where
  unfoldable pub lookup : Text → Map V → Option V
  lookup k [] = none
  lookup k ((j, v) ∷ m) = if text_eq j k then some v else lookup k m

  unfoldable pub insert : Text → V → Map V → Map V
  insert k v [] = (k, v) ∷ []
  insert k v ((j, w) ∷ m) =
      if text_eq j k
      then (k, v) ∷ m
      else if text_lt k j
      then (k, v) ∷ (j, w) ∷ m
      else (j, w) ∷ insert k v m

  abbrev pub contains_key : Text → Map V → Bool
  contains_key k m = is_some (lookup k m)

  abbrev pub keys : Map V → List Text
  keys m = map (λ e. e.0) m

  -- Every key of `m` is above `k`.
  abbrev pub IsAbove : Text → Map V → Type 0
  IsAbove k m = All (λ e. text_lt k e.0 ≡ true) m

  -- The keys strictly increase, as a `BTreeMap` keeps them.
  abbrev pub IsSorted : Map V → Type 0
  IsSorted [] = Unit {0}
  IsSorted ((k, v) ∷ m) = IsAbove k m × IsSorted m

module _ {ℓ} {V : Type ℓ} where
  pub lookup-insert :
      (key probe : Text) (value : V) (map : Map V)
      → lookup probe (insert key value map)
        ≡ (if text_eq key probe then some value else lookup probe map)
  unfolding lookup insert
  lookup-insert key probe value [] = refl
  lookup-insert key probe value ((head, other) ∷ more) =
      let later = lookup-insert key probe value more in
      ground (arith, text_eq_iff key probe, text_eq_iff head key, text_eq_iff head probe, later)

  IsAbove-trans : (k j : Text) (m : Map V) → text_lt k j ≡ true → IsAbove j m → IsAbove k m
  IsAbove-trans k j m h = All-imp _ _ (λ e. text_lt_trans k j e.0 h) m

  insert-IsAbove :
      (k j : Text) (v : V) (m : Map V) → text_lt j k ≡ true → IsAbove j m → IsAbove j (insert k v m)
  unfolding insert
  insert-IsAbove k j v [] h a = (h, tt)
  insert-IsAbove k j v ((i, w) ∷ m) h a = ground (arith, insert-IsAbove k j v m h a.1)

  pub insert-IsSorted : (k : Text) (v : V) (m : Map V) → IsSorted m → IsSorted (insert k v m)
  unfolding insert
  insert-IsSorted k v [] s = (tt, tt)
  insert-IsSorted k v ((j, w) ∷ m) s = elim (Bool-cases (text_eq j k)) [
    | inl same ↦ rw same (let e : j ≡ k = (text_eq_iff j k).0 same in rw (← e) s)
    | inr other ↦ rw other (elim (Bool-cases (text_lt k j)) [
      | inl before ↦ rw before ((before, IsAbove-trans k j m before s.0), s)
      | inr after ↦ rw after (
        insert-IsAbove k j v m
            (text_lt_connex k j (ground (arith, text_eq_iff j k, text_eq_iff k j)) after) s.0,
        insert-IsSorted k v m s.1,
      )
    ])
  ]

module _ {ℓ κ} {V : Type ℓ} (P : Text × V → Type κ) where
  pub insert-All : (k : Text) (v : V) (m : Map V) → P (k, v) → All P m → All P (insert k v m)
  unfolding insert
  insert-All k v [] h a = (h, tt)
  insert-All k v ((j, w) ∷ m) h a = elim (Bool-cases (text_eq j k)) [
    | inl same ↦ rw same (h, a.1)
    | inr other ↦ rw other (elim (Bool-cases (text_lt k j)) [
      | inl before ↦ rw before (h, a)
      | inr after ↦ rw after (a.0, insert-All k v m h a.1)
    ])
  ]

  pub lookup-All : (k : Text) (v : V) (m : Map V) → All P m → lookup k m ≡ some v → P (k, v)
  unfolding lookup
  lookup-All k v [] a e = absurd (ground arith)
  lookup-All k v ((j, w) ∷ m) a e = elim (Bool-cases (text_eq j k)) [
    | inl same ↦
        let p : j ≡ k = (text_eq_iff j k).0 same in
        let q : w ≡ v = ground arith in rw (← p, ← q) a.0
    | inr other ↦ lookup-All k v m a.1 (ground arith)
  ]

module _ {ℓ} {V : Type ℓ} where
  -- A key below every key of a map goes in front.
  pub insert_below : (k : Text) (v : V) (m : Map V) → IsAbove k m → insert k v m ≡ (k, v) ∷ m
  unfolding insert
  insert_below k v [] a = refl
  insert_below k v ((j, w) ∷ m) a =
      let lower : text_lt k j ≡ true = a.0 in
      ground (arith, lower, text_eq_iff j k, text_lt_irrefl k)

  pub IsAbove-lookup : (k : Text) (m : Map V) → IsAbove k m → lookup k m ≡ none
  unfolding lookup
  IsAbove-lookup k [] a = refl
  IsAbove-lookup k ((j, v) ∷ m) a =
      ground (arith, a.0, text_eq_iff j k, text_lt_irrefl k, IsAbove-lookup k m a.1)

  -- Every entry of a sorted map is found under its key.
  pub All-lookup : (m : Map V) → IsSorted m → All (λ e. lookup e.0 m ≡ some e.1) m
  unfolding lookup
  All-lookup [] s = tt
  All-lookup ((k, v) ∷ m) s = (rw text_eq_refl refl, All-imp₂ m s.0 (All-lookup m s.1))
    where
      All-imp₂ :
          (l : Map V)
          → IsAbove k l
          → All (λ e. lookup e.0 m ≡ some e.1) l
          → All (λ e. lookup e.0 ((k, v) ∷ m) ≡ some e.1) l
      All-imp₂ [] a b = tt
      All-imp₂ ((j, w) ∷ l) a b =
          (ground (arith, a.0, b.0, text_eq_iff k j, text_lt_irrefl k), All-imp₂ l a.1 b.1)
