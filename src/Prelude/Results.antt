-- ===== src/Prelude/Results.antt =====
-- `Result<A, E>` and the sequencing that `?` does. `bail!` is `err` of a value that says which
-- failure it is, in place of the message.
use mathlib.Core.Path.{◌≡◌, refl, sym, ap, ◌∙◌}
use mathlib.Core.Logic.{◌⊎◌, inl, inr}
use mathlib.Core.Bool.{Bool, true, false, not}
use mathlib.Core.Option.{Option, none, some}
use native.Mathlib.Omega.{arith}

pub data Result {ℓ} (E A : Type ℓ) : Type ℓ where
  ok : A → Result E A
  err : E → Result E A

module _ {ℓ} {E A B : Type ℓ} where
  infixl 5 ◌>>=◌
  abbrev pub ◌>>=◌ : Result E A → (A → Result E B) → Result E B
  err why >>= rest = err why
  ok x >>= rest = rest x

  -- A chain that succeeds has a first result, from which the rest of it succeeds.
  pub >>=-eq-ok :
      (first : Result E A) (rest : A → Result E B) {y : B}
      → (first >>= rest) ≡ ok y
      → (x : A) × (first ≡ ok x) × (rest x ≡ ok y)
  >>=-eq-ok (ok x) rest succeeds = (x, refl, succeeds)
  >>=-eq-ok (err why) rest succeeds = absurd (ground arith)

  -- A chain is what its rest makes of its first result.
  pub >>=_of_ok :
      (first : Result E A) (rest : A → Result E B) {x : A} {r : Result E B}
      → first ≡ ok x
      → rest x ≡ r
      → (first >>= rest) ≡ r
  >>=_of_ok first rest {x = x} succeeds later = ap (λ f. f >>= rest) succeeds ∙ later

module _ {ℓ} {E B : Type ℓ} where
  infixl 5 ◌>>◌
  abbrev pub ◌>>◌ : Result E (Unit {ℓ}) → Result E B → Result E B
  first >> rest = first >>= (λ _. rest)

module _ {E A B C : Type 0} where
  -- What follows from both parts of a sequence that succeeds follows from the sequence.
  pub >>=-leads :
      (first : Result E A) (rest : A → Result E B) {r : B}
      → (first >>= rest) ≡ ok r
      → ((x : A) → first ≡ ok x → rest x ≡ ok r → C)
      → C
  >>=-leads first rest h follows = let (x, e, h') = >>=-eq-ok first rest h in follows x e h'

module _ {E A : Type 0} where
  -- A tail that succeeds is dropped.
  pub >>=-drop :
      (first : Result E A) (test : A → Result E (Unit {0})) (tail : Result E (Unit {0}))
      → tail ≡ ok tt
      → (first >>= λ a. (test a >> tail)) ≡ (first >>= test)
  >>=-drop (err why) test tail succeeds = refl
  >>=-drop (ok a) test tail succeeds = after (test a)
    where
      after : (r : Result E (Unit {0})) → (r >> tail) ≡ r
      after (ok u) = succeeds
      after (err why) = refl

module _ {ℓ} {E : Type ℓ} where
  -- `if test { bail!(e) }`
  abbrev pub bail_if : Bool → E → Result E (Unit {ℓ})
  bail_if true e = err e
  bail_if false e = ok tt

module _ {ℓ} {E A : Type ℓ} where
  -- `let Some(a) = o else { bail!(e) }`
  abbrev pub some_or : Option A → E → Result E A
  some_or none e = err e
  some_or (some a) e = ok a

  abbrev pub is_ok : Result E A → Bool
  is_ok (ok a) = true
  is_ok (err e) = false

  abbrev ok_or : A → Result E A → A
  ok_or d (ok a) = a
  ok_or d (err e) = d

  pub ok_inj : (x y : A) (r : Result E A) → r ≡ ok x → r ≡ ok y → x ≡ y
  ok_inj x y r p q = ap (ok_or x) (sym p ∙ q)

  pub Result-cases : (r : Result E A) → ((a : A) × (r ≡ ok a)) ⊎ ((e : E) × (r ≡ err e))
  Result-cases (ok a) = inl (a, refl)
  Result-cases (err e) = inr (e, refl)

module _ {ℓ} {E F A : Type ℓ} where
  -- `map_err`, `with_context`: the failure of a callee inside the caller's.
  abbrev pub map_err : (E → F) → Result E A → Result F A
  map_err f (ok a) = ok a
  map_err f (err e) = err (f e)

  pub map_err-eq-ok : (f : E → F) (r : Result E A) {a : A} → map_err f r ≡ ok a → r ≡ ok a
  map_err-eq-ok f (ok a) h = cc
  map_err-eq-ok f (err e) h = cc

module _ {ℓ} {E A : Type ℓ} where
  pub some_or-eq-ok : (o : Option A) (e : E) {a : A} → some_or o e ≡ ok a → o ≡ some a
  some_or-eq-ok none e h = cc
  some_or-eq-ok (some a) e h = cc

module _ {ℓ} {E : Type ℓ} where
  -- A test that is passed, alone and with what it guards.
  pub bail_if-eq-ok :
      (passed : Bool) (e : E) {u : Unit {ℓ}} → bail_if (not passed) e ≡ ok u → passed ≡ true
  bail_if-eq-ok true e h = refl
  bail_if-eq-ok false e h = absurd (ground arith)

  pub bail_if_then-eq-ok :
      {A : Type ℓ} (passed : Bool) (e : E) (a : A) {x : A}
      → (bail_if (not passed) e >> ok a) ≡ ok x
      → (passed ≡ true) × (a ≡ x)
  bail_if_then-eq-ok true e a h = (refl, ground arith)
  bail_if_then-eq-ok false e a h = absurd (ground arith)
