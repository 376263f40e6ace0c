-- ===== src/Context/Select.antt =====
-- Loading the context file and resolving a selection against it: `Context` and `Selected` of
-- tee/cli/context/src/lib.rs, `resolve` and `expand` of tee/cli/context/src/path.rs. Parsing the
-- file as TOML is the toml crate's: a parameter. What is echoed is left out.
pub mod Laws
use seismic.Prelude.{
  ℕ, Bool, true, false, not, ◌&&◌, ◌||◌, Option, none, some, List, [], ◌∷◌, ◌++◌, Result, ok, err,
  ◌>>=◌, ◌>>◌, bail_if, some_or, map_err, if◌then◌else◌, is_some, ◌==◌,
}
use seismic.Prelude.Text.{Text, codes, text_eq}
use seismic.Prelude.Map.{Map, lookup, keys}
use seismic.Paths
use seismic.Paths.{NetworkDir, join}
use seismic.Descriptors.{NodeDescriptor, Descriptors, DescriptorError, select_descriptor}
use seismic.Context.Selection.{Selection, SelectionError, from_str}
use seismic.Context.Config.{
  Network, Config, Shape, dir, loose, published, ConfigError, is_empty_map, validate_all, shape,
}

pub data ContextError : Type 0 where
  no_config_directory : ContextError
  invalid_file : ContextError
  invalid_network : Text → ConfigError → ContextError
  no_context : ContextError
  selection : SelectionError → ContextError
  no_network : Text → List Text → ContextError
  no_nodes : Text → ContextError
  descriptor : DescriptorError → ContextError
  no_manifest : Text → ContextError
  no_dir : Text → ContextError
  not_fetched : Text → ContextError
  no_home : Text → ContextError
  panic : ContextError

abbrev pub nonempty : Option Text → Option Text
nonempty (some (c ∷ s)) = some (c ∷ s)
nonempty o = none

-- `resolve` of path.rs: where the context file is.
unfoldable pub resolve : Option Text → Option Text → Result ContextError Text
resolve xdg home = do
  base ← elim (nonempty xdg) [
    | some x ↦ ok x
    | none ↦ elim (nonempty home) [
      | some h ↦ ok (join h (codes ".config"))
      | none ↦ err no_config_directory
    ]
  ]
  ok (join (join base (codes "seismic")) (codes "config.toml"))

-- What is left of a path behind its first component: slashes and `.` components are skipped.
unfoldable pub trim_left : Text → Text
trim_left [] = []
trim_left (c ∷ []) = if c == b'/' || c == b'.' then [] else c ∷ []
trim_left (c ∷ d ∷ s) =
    let slash = trim_left (d ∷ s) in
    let dot = trim_left s in
    if c == b'/' then slash else if c == b'.' && d == b'/' then dot else c ∷ d ∷ s

-- `strip_prefix("~")` on the components of a path.
unfoldable pub strip_tilde : Text → Option Text
unfolding trim_left
strip_tilde [] = none
strip_tilde (c ∷ []) = if c == b'~' then some [] else none
strip_tilde (c ∷ d ∷ s) = if c == b'~' && d == b'/' then some (trim_left s) else none

-- `expand` of path.rs; `home` is the environment's HOME.
unfoldable pub expand_tilde : Option Text → Text → Result ContextError Text
unfolding strip_tilde
expand_tilde home path = elim (strip_tilde path) [
  | none ↦ ok path
  | some rest ↦ do
    h ← some_or (nonempty home) (no_home path)
    ok (elim rest [ [] ↦ h | c ∷ s ↦ join h (c ∷ s) ])
]

-- `Context::load`: `file` is the file's text, none when it does not exist.
module _ (parse : Text → Option Config) where
  unfoldable pub load : Option Text → Result ContextError Config
  load none = ok (record { current = none; previous = none; networks = [] })
  load (some text) = do
    config ← some_or (parse text) invalid_file
    map_err (λ e. invalid_network e.0 e.1) (validate_all config.networks)
    ok config

-- `Selected`.
pub record Selected : Type 0 where
  pub selection : Selection
  pub network : Network

-- The text that is parsed as a selection: what is requested, else the file's `current`.
abbrev pub requested_or_current : Option Text → Option Text → Result ContextError Text
requested_or_current (some s) current = ok s
requested_or_current none (some s) = ok s
requested_or_current none none = err no_context

-- `Context::select`.
unfoldable pub select : Config → Option Text → Result ContextError Selected
select config requested = do
  raw ← requested_or_current requested config.current
  s ← map_err ContextError.selection (from_str raw)
  n ← some_or (lookup s.network config.networks) (no_network s.network (keys config.networks))
  ok (record { selection = s; network = n })

-- `Selected::nodes`.
unfoldable pub nodes : Selected → Result ContextError Descriptors
nodes s = do
  bail_if (is_empty_map s.network.nodes) (no_nodes s.selection.network)
  ok s.network.nodes

abbrev pub or_else {ℓ} : {A : Type ℓ} → Option A → Option A → Option A
or_else (some a) o = some a
or_else none o = o

-- `Selected::node`: the named node, else the selection's, else the only one.
unfoldable pub node : Selected → Option Text → Result ContextError (Text × NodeDescriptor)
unfolding nodes
node s name = do
  table ← nodes s
  map_err descriptor (select_descriptor table (or_else name s.selection.node))

module _ (home : Option Text) where
  -- `Selected::manifest`.
  unfoldable pub manifest : Selected → Result ContextError Text
  manifest s = do
    form ← some_or (shape s.network) panic
    elim form [
      | dir d ↦ do root ← expand_tilde home d; ok (Paths.manifest (record { root = root }))
      | loose (some m) ↦ expand_tilde home m
      | loose none ↦ err (no_manifest s.selection.network)
      | published source id ↦ err (not_fetched s.selection.network)
    ]

  -- `Selected::dir`.
  unfoldable pub network_dir : Selected → Result ContextError Text
  network_dir s = do
    form ← some_or (shape s.network) panic
    elim form [
      | dir d ↦ expand_tilde home d
      | loose m ↦ err (no_dir s.selection.network)
      | published source id ↦ err (not_fetched s.selection.network)
    ]

-- `load_nodes` of lib.rs, past its flag: the selected network's node table.
unfoldable pub load_nodes : Config → Option Text → Result ContextError Descriptors
unfolding select nodes
load_nodes config requested = do
  bail_if (not (is_some requested) && not (is_some config.current)) no_context
  s ← select config requested
  nodes s
