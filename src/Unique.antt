-- ===== src/Unique.antt =====
-- The check that no key is served twice: the loops of `assert_unique_keys` in
-- tee/cli/network/src/harvest.rs and of `load_harvest_records` in tee/cli/network/src/founding.rs,
-- over the map of the boxes and one field of a box.
pub mod Laws
use seismic.Prelude.{Option, none, some, List, [], ◌∷◌}
use seismic.Prelude.Text.{Text}
use seismic.Prelude.Map.{Map, lookup, insert}

-- Two names and the key that both carry.
pub record Repeated : Type 0 where
  pub first : Text
  pub second : Text
  pub key : Text

module _ {V : Type 0} (key_of : V → Text) where
  -- One pass of the inner loop, with the names `seen` under each key.
  unfoldable pub first_repeated : Map V → Map Text → Option Repeated
  first_repeated [] seen = none
  first_repeated ((name, v) ∷ m) seen =
      let later = first_repeated m (insert (key_of v) name seen) in
      elim (lookup (key_of v) seen) [
        | some first ↦ some (record { first = first; second = name; key = key_of v })
        | none ↦ later
      ]
