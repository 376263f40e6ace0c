-- ===== src/Harvest/Run/Verified.antt =====
-- Which archives the harvest command writes: each is of a record that was verified.
use mathlib.Core.List.{Memᴰ}
use seismic.Prelude.{
  ◌≡◌, refl, true, Option, some, List, [], ◌∷◌, arith, ok, >>=-eq-ok, some_or, some_or-eq-ok, All,
}
use seismic.Prelude.Text.{Text, text_eq_refl}
use seismic.Prelude.Map.{
  Map, lookup, insert, lookup-insert, contains_key, insert-All, insert-IsSorted, IsSorted,
}
use seismic.Json.{Json}
use seismic.Harvest.{HarvestTarget, Quote}
use seismic.Harvest.Run.{panic, verification_failed, build_record, verify_all}

module _ {Policy : Type 0} (verify : Policy → Json → Option Text) (policy : Policy)
    (quotes : Map Quote) where
  -- The archive of a target: what the verifier made of the record of the target's nonce and quote.
  abbrev pub Archived : List HarvestTarget → Text × Text → Type 0
  Archived targets e =
      (t : HarvestTarget) × (q : Quote) × Memᴰ t targets
      × (t.name ≡ e.0)
      × (lookup t.name quotes ≡ some q)
      × (verify policy (build_record t q) ≡ some e.1)

  Archived-tail :
      (t : HarvestTarget) (targets : List HarvestTarget) (e : Text × Text)
      → Archived targets e
      → Archived (t ∷ targets) e
  Archived-tail t targets e (u, q, m, n, l, v) = (u, q, Memᴰ.tail m, n, l, v)

  verify_all-Archived :
      (targets : List HarvestTarget) (P : Text × Text → Type 0) (archives r : Map Text)
      → ((e : Text × Text) → Archived targets e → P e)
      → All P archives
      → verify_all verify policy quotes targets archives ≡ ok r
      → All P r
  unfolding verify_all
  verify_all-Archived [] P archives r f a h = let e : r ≡ archives = ground arith in rw e a
  verify_all-Archived (t ∷ targets) P archives r f a h =
      let (q, l, h₁) = >>=-eq-ok (some_or (lookup t.name quotes) panic) _ h in
      let (d, v, h₂) =
        >>=-eq-ok (some_or (verify policy (build_record t q)) (verification_failed t.name)) _ h₁ in
      verify_all-Archived targets P (insert t.name d archives) r
        (λ e x. f e (Archived-tail t targets e x))
        (insert-All P t.name d archives
          (f (t.name, d) (t, q, Memᴰ.head refl, refl, some_or-eq-ok _ _ l, some_or-eq-ok _ _ v)) a)
        h₂

  verify_all_keeps :
      (targets : List HarvestTarget) (archives r : Map Text) (name : Text)
      → contains_key name archives ≡ true
      → verify_all verify policy quotes targets archives ≡ ok r
      → contains_key name r ≡ true
  unfolding verify_all
  verify_all_keeps [] archives r name k h = let e : r ≡ archives = ground arith in rw e k
  verify_all_keeps (t ∷ targets) archives r name k h =
      let (q, l, h₁) = >>=-eq-ok (some_or (lookup t.name quotes) panic) _ h in
      let (d, v, h₂) =
        >>=-eq-ok (some_or (verify policy (build_record t q)) (verification_failed t.name)) _ h₁ in
      verify_all_keeps targets (insert t.name d archives) r name
        (ground (arith, lookup-insert t.name name d archives)) h₂

  verify_all-covers :
      (targets : List HarvestTarget) (archives r : Map Text)
      → verify_all verify policy quotes targets archives ≡ ok r
      → All (λ t. contains_key t.name r ≡ true) targets
  unfolding verify_all
  verify_all-covers [] archives r h = tt
  verify_all-covers (t ∷ targets) archives r h =
      let (q, l, h₁) = >>=-eq-ok (some_or (lookup t.name quotes) panic) _ h in
      let (d, v, h₂) =
        >>=-eq-ok (some_or (verify policy (build_record t q)) (verification_failed t.name)) _ h₁ in
      (
        verify_all_keeps targets (insert t.name d archives) r t.name
            (ground (arith, lookup-insert t.name t.name d archives, text_eq_refl t.name)) h₂,
        verify_all-covers targets (insert t.name d archives) r h₂,
      )

  verify_all-IsSorted :
      (targets : List HarvestTarget) (archives r : Map Text)
      → IsSorted archives
      → verify_all verify policy quotes targets archives ≡ ok r
      → IsSorted r
  unfolding verify_all
  verify_all-IsSorted [] archives r s h = let e : r ≡ archives = ground arith in rw e s
  verify_all-IsSorted (t ∷ targets) archives r s h =
      let (q, l, h₁) = >>=-eq-ok (some_or (lookup t.name quotes) panic) _ h in
      let (d, v, h₂) =
        >>=-eq-ok (some_or (verify policy (build_record t q)) (verification_failed t.name)) _ h₁ in
      verify_all-IsSorted targets (insert t.name d archives) r (insert-IsSorted t.name d archives s)
        h₂

  -- The archives are in the order of the names; each is of a target's verified record, and every
  -- target has one.
  pub verify_all_lem :
      (targets : List HarvestTarget) (r : Map Text)
      → verify_all verify policy quotes targets [] ≡ ok r
      → All (Archived targets) r × All (λ t. contains_key t.name r ≡ true) targets × IsSorted r
  verify_all_lem targets r h = (
    verify_all-Archived targets (Archived targets) [] r (λ e x. x) tt h,
    verify_all-covers targets [] r h,
    verify_all-IsSorted targets [] r tt h,
  )
