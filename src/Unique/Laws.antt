-- ===== src/Unique/Laws.antt =====
-- What the check decides.
use seismic.Prelude.{◌≡◌, ◌↔◌, refl, false, none, [], ◌∷◌, arith, All, Option-cases, inl, inr}
use seismic.Prelude.Text.{Text, text_eq}
use seismic.Prelude.Map.{Map, lookup, insert, lookup-insert}
use seismic.Unique.{first_repeated}

module _ {V : Type 0} (key_of : V → Text) where
  -- No two entries have the same key.
  abbrev pub HasDistinctKeys : Map V → Type 0
  HasDistinctKeys [] = Unit {0}
  HasDistinctKeys ((name, v) ∷ m) =
      All (λ e. text_eq (key_of v) (key_of e.1) ≡ false) m × HasDistinctKeys m

  abbrev IsFresh : Map Text → Map V → Type 0
  IsFresh seen m = All (λ e. lookup (key_of e.1) seen ≡ none) m

  IsFresh-insert :
      (k name : Text) (seen : Map Text) (m : Map V)
      → All (λ e. text_eq k (key_of e.1) ≡ false) m
      → IsFresh seen m
      → IsFresh (insert k name seen) m
  IsFresh-insert k name seen [] d f = tt
  IsFresh-insert k name seen ((n, v) ∷ m) d f =
      (rw (lookup-insert, d.0) f.0, IsFresh-insert k name seen m d.1 f.1)

  IsFresh-of_insert :
      (k name : Text) (seen : Map Text) (m : Map V)
      → IsFresh (insert k name seen) m
      → All (λ e. text_eq k (key_of e.1) ≡ false) m × IsFresh seen m
  IsFresh-of_insert k name seen [] f = (tt, tt)
  IsFresh-of_insert k name seen ((n, v) ∷ m) f =
      let (d, f') = IsFresh-of_insert k name seen m f.1 in
      (
        (ground (arith, lookup-insert k (key_of v) name seen, f.0), d),
        (ground (arith, lookup-insert k (key_of v) name seen, f.0), f'),
      )

  first_repeated-eq-none :
      (m : Map V) (seen : Map Text)
      → IsFresh seen m
      → HasDistinctKeys m
      → first_repeated key_of m seen ≡ none
  unfolding first_repeated
  first_repeated-eq-none [] seen f d = refl
  first_repeated-eq-none ((name, v) ∷ m) seen f d =
      rw (f.0, first_repeated)
        (first_repeated-eq-none m (insert (key_of v) name seen)
          (IsFresh-insert (key_of v) name seen m d.0 f.1) d.1)

  distinct_of_none :
      (m : Map V) (seen : Map Text)
      → first_repeated key_of m seen ≡ none
      → IsFresh seen m × HasDistinctKeys m
  unfolding first_repeated
  distinct_of_none [] seen h = (tt, tt)
  distinct_of_none ((name, v) ∷ m) seen h = elim (Option-cases (lookup (key_of v) seen)) [
    | inr (first, found) ↦ absurd (ground arith)
    | inl new ↦
        let (f, d) = distinct_of_none m (insert (key_of v) name seen) (ground arith) in
        let (apart, f') = IsFresh-of_insert (key_of v) name seen m f in ((new, f'), (apart, d))
  ]

  IsFresh-nil : (m : Map V) → IsFresh [] m
  unfolding lookup
  IsFresh-nil [] = tt
  IsFresh-nil (e ∷ m) = (refl, IsFresh-nil m)

  -- No repeated key is found exactly when no two entries of the map have the same key.
  pub first_repeated_iff : (m : Map V) → (first_repeated key_of m [] ≡ none) ↔ HasDistinctKeys m
  first_repeated_iff m =
      (λ h. (distinct_of_none m [] h).1, first_repeated-eq-none m [] (IsFresh-nil m))
