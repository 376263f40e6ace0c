-- ===== src/Context/Config.antt =====
-- The context file's schema and its validation: tee/cli/context/src/config.rs. A failure is a
-- `ConfigError`, which stands for the message.
pub mod Laws
use seismic.Prelude.{
  Bool, true, false, not, ◌&&◌, Option, none, some, List, [], ◌∷◌, Result, ok, err, ◌>>=◌, ◌>>◌,
  bail_if, if◌then◌else◌, is_some, length, all, ◌==◌,
}
use seismic.Prelude.Text.{Text}
use seismic.Prelude.Map.{Map}
use seismic.Prelude.Hex.{is_hexdigit}
use seismic.Descriptors.{Descriptors}

pub record Network : Type 0 where
  pub dir : Option Text
  pub manifest : Option Text
  pub source : Option Text
  pub network_id : Option Text
  pub nodes : Descriptors

pub record Config : Type 0 where
  pub current : Option Text
  pub previous : Option Text
  pub networks : Map Network

pub data Shape : Type 0 where
  dir : Text → Shape
  loose : Option Text → Shape
  published : Text → Text → Shape

pub data ConfigError : Type 0 where
  empty_network : ConfigError
  dir_and_manifest : ConfigError
  source_without_id : ConfigError
  bad_network_id : Text → ConfigError

abbrev pub is_empty_map {ℓ} : {V : Type ℓ} → Map V → Bool
is_empty_map [] = true
is_empty_map (e ∷ m) = false

-- `Network::default()` and `Network::of_dir`.
abbrev pub default_network : Network
default_network = record {
  dir = none;
  manifest = none;
  source = none;
  network_id = none;
  nodes = [];
}

unfoldable pub of_dir : Text → Network
of_dir d = record default_network { dir = some d }

-- 32 bytes of hex.
unfoldable pub is_network_id : Text → Bool
is_network_id id = length id == 64 && all is_hexdigit id

unfoldable pub validate_id : Option Text → Result ConfigError Unit
unfolding is_network_id
validate_id none = ok tt
validate_id (some id) = bail_if (not (is_network_id id)) (bad_network_id id)

-- `Network::validate`.
unfoldable pub validate : Network → Result ConfigError Unit
unfolding validate_id
validate n = do
  bail_if
      (not (is_some n.dir)
        && not (is_some n.manifest)
        && not (is_some n.source)
        && is_empty_map n.nodes)
      empty_network
  bail_if (is_some n.dir && is_some n.manifest) dir_and_manifest
  bail_if (is_some n.source && not (is_some n.network_id)) source_without_id
  validate_id n.network_id

-- `Network::shape`; none is the panic of `expect("validated")`.
unfoldable pub shape : Network → Option Shape
shape n = elim n.dir [
  | some d ↦ some (dir d)
  | none ↦ elim n.source [
    | some source ↦ elim n.network_id [ some id ↦ some (published source id) | none ↦ none ]
    | none ↦ some (loose n.manifest)
  ]
]

-- `Config::validate`: the first network that fails, by name.
unfoldable pub validate_all : Map Network → Result (Text × ConfigError) Unit
unfolding validate
validate_all [] = ok tt
validate_all ((name, n) ∷ m) =
    let rest = validate_all m in elim (validate n) [ ok _ ↦ rest | err e ↦ err (name, e) ]
