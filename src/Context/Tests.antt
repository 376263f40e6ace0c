-- ===== src/Context/Tests.antt =====
-- A context file with one network of two nodes.
use seismic.Prelude.{◌≡◌, ◌↔◌, ◌⊎◌, refl, none, some, [], ◌∷◌, ok}
use seismic.Prelude.Text.{codes, text_eq}
use seismic.Prelude.Map.{lookup}
use seismic.Descriptors.{NodeDescriptor}
use seismic.Context.Selection.{Selection, from_str, display}
use seismic.Context.Selection.Laws.{IsWellFormed, from_str_iff}
use seismic.Context.Config.{Network, Config, validate_all}
use seismic.Context.Select.{Selected, requested_or_current, select, node, or_else}
use seismic.Context.Select.Laws.{select_iff, node_iff}

abbrev node_a : NodeDescriptor
node_a = record { public_ip = codes "1.1.1.1"; fqdn = codes "a.org" }

abbrev devnet : Network
devnet = record {
  dir = some (codes "~/net");
  manifest = none;
  source = none;
  network_id = none;
  nodes = (codes "a", node_a) ∷ [];
}

abbrev config : Config
config = record {
  current = some (codes "devnet/a");
  previous = none;
  networks = (codes "devnet", devnet) ∷ [];
}

abbrev on_a : Selection
on_a = record { network = codes "devnet"; node = some (codes "a") }

abbrev selected : Selected
selected = record { selection = on_a; network = devnet }

networks_valid : validate_all ((codes "devnet", devnet) ∷ []) ≡ ok tt
unfolding validate_all
networks_valid = refl

found : lookup (codes "devnet") ((codes "devnet", devnet) ∷ []) ≡ some devnet
unfolding lookup text_eq
found = refl

from_str_iff_example :
    (from_str (codes "devnet/a") ≡ ok on_a)
    ↔ (IsWellFormed on_a × (display on_a ≡ codes "devnet/a"))
from_str_iff_example = from_str_iff (codes "devnet/a") on_a

select_iff_example : (select config none ≡ ok selected) ↔ (
    (requested_or_current none config.current ≡ ok (display on_a))
    × IsWellFormed on_a
    × (lookup (codes "devnet") config.networks ≡ some devnet))
select_iff_example = select_iff config none selected

node_iff_example : (node selected none ≡ ok (codes "a", node_a)) ↔ (
    ((or_else none (some (codes "a")) ≡ some (codes "a"))
      × (lookup (codes "a") devnet.nodes ≡ some node_a))
    ⊎ ((or_else none (some (codes "a")) ≡ none) × (devnet.nodes ≡ (codes "a", node_a) ∷ [])))
node_iff_example = node_iff selected none (codes "a") node_a
