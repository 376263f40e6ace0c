-- ===== src/Context/Selection.antt =====
-- `Selection`, its `FromStr` and its `Display`: tee/cli/context/src/lib.rs.
pub mod Laws
use seismic.Prelude.{
  ℕ, Bool, true, false, ◌||◌, Option, none, some, List, [], ◌∷◌, ◌++◌, Result, ok, err,
  if◌then◌else◌, is_empty,
}
use seismic.Prelude.Text.{Text}
use seismic.Prelude.Split.{contains, split_once}

pub record Selection : Type 0 where
  pub network : Text
  pub node : Option Text

pub data SelectionError : Type 0 where
  empty_selection : SelectionError
  malformed : Text → SelectionError

unfoldable pub from_str : Text → Result SelectionError Selection
from_str s = elim (split_once b'/' s) [
  | none ↦ if is_empty s then err empty_selection else ok (record { network = s; node = none })
  | some (network, node) ↦
      if is_empty network || is_empty node || contains b'/' node
      then err (malformed s)
      else ok (record { network = network; node = some node })
]

unfoldable pub display : Selection → Text
display s = elim s.node [ none ↦ s.network | some node ↦ s.network ++ b'/' ∷ node ]
