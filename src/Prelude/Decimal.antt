-- ===== src/Prelude/Decimal.antt =====
-- Unsigned numbers in decimal: `to_string` and `str::parse::<u16>`.
use Prim.Native.Nat.{ℕ, zero, suc, ◌+◌, ◌-◌, ◌*◌, ◌/◌, ◌%◌, ◌<◌}
use mathlib.Core.Path.{◌≡◌, refl, ◌∙◌, ap}
use mathlib.Core.Bool.{true, false}
use mathlib.Core.Option.{Option, none, some}
use mathlib.Core.List.{[], ◌∷◌, ◌++◌}
use native.Mathlib.Omega.{arith}
use seismic.Prelude.Tests.{ltb, ◌==◌, if◌then◌else◌, Bool-cases}
use seismic.Prelude.Text.{Text}
use seismic.Prelude.Split.{contains, contains-append}
use mathlib.Core.Logic.{inl, inr}
use seismic.Prelude.Hex.{is_digit}

-- The digits of `n`, most significant first, on fuel above `n`.
unfoldable pub digits_on : ℕ → ℕ → Text
digits_on zero n = []
digits_on (suc f) n =
    let rest = digits_on f (n / 10) ++ (b'0' + n % 10) ∷ [] in
    if ltb n 10 then (b'0' + n) ∷ [] else rest

unfoldable pub digits : ℕ → Text
unfolding digits_on
digits n = digits_on (suc n) n

-- The value of a text of digits behind `acc`, none at any other byte.
unfoldable pub value_from : ℕ → Text → Option ℕ
unfolding is_digit
value_from acc [] = some acc
value_from acc (c ∷ s) =
    let rest = value_from (acc * 10 + (c - b'0')) s in if is_digit c then rest else none

-- A text of one digit or more, with a `+` before it or not, whose value fits the width.
unfoldable pub unsigned_below : ℕ → Text → Option ℕ
unfolding value_from
unsigned_below bound [] = none
unsigned_below bound (c ∷ []) = elim (value_from 0 (c ∷ [])) [
  | none ↦ none
  | some n ↦ if ltb n bound then some n else none
]
unsigned_below bound (c ∷ d ∷ s) = elim (value_from 0 (if c == b'+' then d ∷ s else c ∷ d ∷ s)) [
  | none ↦ none
  | some n ↦ if ltb n bound then some n else none
]

unfoldable pub parse_u16 : Text → Option ℕ
unfolding unsigned_below
parse_u16 = unsigned_below 65536

value_from-append :
    (acc n d : ℕ) (s : Text)
    → value_from acc s ≡ some n
    → d < 10
    → value_from acc (s ++ (b'0' + d) ∷ []) ≡ some (n * 10 + d)
unfolding value_from
value_from-append acc n d [] h k = ground arith
value_from-append acc n d (c ∷ s) h k =
    ground (arith, value_from-append (acc * 10 + (c - b'0')) n d s)

value_from-digits_on : (f n : ℕ) → n < f → value_from 0 (digits_on f n) ≡ some n
unfolding digits_on
value_from-digits_on zero n h = elim h [ ]
value_from-digits_on (suc f) n h = elim (Bool-cases (ltb n 10)) [
  | inl small ↦ rw small (unfold value_from in ground arith)
  | inr large ↦ rw large (
      value_from-append 0 (n / 10) (n % 10) (digits_on f (n / 10))
        (value_from-digits_on f (n / 10) (ground arith)) (omega arith)
      ∙ ap some (omega arith))
]

-- The first digit is a digit.
digits_on-head :
    (f n : ℕ) → n < f → (c : ℕ) × (s : Text) × (digits_on f n ≡ c ∷ s) × (is_digit c ≡ true)
unfolding digits_on
digits_on-head zero n h = elim h [ ]
digits_on-head (suc f) n h = elim (Bool-cases (ltb n 10)) [
  | inl small ↦ (b'0' + n, [], rw small refl, unfold is_digit in ground arith)
  | inr large ↦
      let (c, s, e, d) = digits_on-head f (n / 10) (ground arith) in
      (c, s ++ (b'0' + n % 10) ∷ [], rw (large, e) refl, d)
]

unsigned_below-digit :
    (bound n c : ℕ) (s : Text)
    → is_digit c ≡ true
    → value_from 0 (c ∷ s) ≡ some n
    → n < bound
    → unsigned_below bound (c ∷ s) ≡ some n
unfolding unsigned_below is_digit
unsigned_below-digit bound n c [] d v k = ground arith
unsigned_below-digit bound n c (e ∷ s) d v k = ground arith

-- Printing and parsing a 16-bit number is the identity.
pub parse_u16-digits : (n : ℕ) → n < 65536 → parse_u16 (digits n) ≡ some n
unfolding parse_u16 digits
parse_u16-digits n h =
    let (c, s, e, d) = digits_on-head (suc n) n (omega arith) in
    let v = value_from-digits_on (suc n) n (omega arith) in
    rw e (unsigned_below-digit 65536 n c s d (rw e at v) h)

pub parse_u16-lt : (s : Text) (n : ℕ) → parse_u16 s ≡ some n → n < 65536
unfolding parse_u16
parse_u16-lt [] n h = absurd (ground arith)
parse_u16-lt (c ∷ []) n h = ground arith
parse_u16-lt (c ∷ d ∷ s) n h = ground arith

digits_on-contains : (f n c : ℕ) → is_digit c ≡ false → contains c (digits_on f n) ≡ false
unfolding digits_on contains is_digit
digits_on-contains zero n c h = refl
digits_on-contains (suc f) n c h = ground (
  arith,
  contains-append c (digits_on f (n / 10)) ((b'0' + n % 10) ∷ []),
  digits_on-contains f (n / 10) c h,
)

-- A printed number holds digits only.
pub digits-contains : (n c : ℕ) → is_digit c ≡ false → contains c (digits n) ≡ false
unfolding digits
digits-contains n c h = digits_on-contains (suc n) n c h
