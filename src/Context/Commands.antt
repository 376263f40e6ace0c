-- ===== src/Context/Commands.antt =====
-- The `ctx` commands that change the context file: tee/cli/context/src/cmd.rs, with `absolute` of
-- tee/cli/context/src/path.rs. A command takes the file's text, none when there is no file, and gives
-- the text it leaves with the outcome. What is printed is left out, but for the suggested next steps.
pub mod Laws
pub mod Suggest
pub mod Collapse
pub mod Run
mod Printed
mod Tests
use seismic.Prelude.{
  ℕ, Bool, true, false, not, ◌&&◌, Option, none, some, List, [], ◌∷◌, ◌++◌, Result, ok, err, ◌>>=◌,
  ◌>>◌, bail_if, some_or, map_err, if◌then◌else◌, is_some, length, ◌==◌,
}
use seismic.Prelude.Text.{Text, codes, text_eq}
use seismic.Prelude.Split.{contains}
use seismic.Prelude.Map.{Map, lookup, contains_key}
use seismic.Paths
use seismic.Json.{Json}
use seismic.Descriptors.{NodeDescriptor, Descriptors, DescriptorError, parse_descriptors}
use seismic.Context.Selection.{Selection, SelectionError, from_str, display}
use seismic.Context.Config.{Network, Config, ConfigError, default_network, is_empty_map, validate}
use seismic.Context.Select.{ContextError, Selected, load, select, node}
use seismic.Context.Document.{Doc, from_toml}
use seismic.Context.Write.{WriteError, set_current, clear_current, set_network, set_nodes, edit}

pub data CommandError : Type 0 where
  no_target : CommandError
  no_previous : CommandError
  malformed : SelectionError → CommandError
  context : ContextError → CommandError
  write : WriteError → CommandError
  invalid_network : ConfigError → CommandError
  unresolved_path : Text → CommandError
  unreadable_nodes : CommandError
  bad_nodes : DescriptorError → CommandError
  terminal : CommandError

-- `Component` of the standard library, without the prefix that only Windows has.
pub data Component : Type 0 where
  root : Component
  current : Component
  parent : Component
  normal : Text → Component

-- `PathBuf::push` and `PathBuf::pop`, the path's components listed from the last one.
unfoldable pub push : Component → List Component → List Component
push root path = root ∷ []
push current path = current ∷ path
push parent path = parent ∷ path
push (normal name) path = normal name ∷ path

unfoldable pub pop : List Component → List Component
pop [] = []
pop (root ∷ path) = root ∷ path
pop (current ∷ path) = path
pop (parent ∷ path) = path
pop (normal name ∷ path) = path

-- The loop of `absolute`.
unfoldable pub collapse : List Component → List Component → List Component
unfolding push pop
collapse [] out = out
collapse (root ∷ path) out = collapse path (push root out)
collapse (current ∷ path) out = collapse path out
collapse (parent ∷ path) out = collapse path (pop out)
collapse (normal name ∷ path) out = collapse path (push (normal name) out)

-- `absolute`: `std_absolute` is the components of `std::path::absolute`, and `spell` the path of the
-- components from the last one.
module _ (std_absolute : Text → Option (List Component)) (spell : List Component → Text) where
  unfoldable pub absolute : Text → Result CommandError Text
  unfolding collapse
  absolute path = do
    components ← some_or (std_absolute path) (unresolved_path path)
    ok (spell (collapse components []))

  -- `as_deref().map(path::absolute).transpose()?`
  unfoldable pub absolute_option : Option Text → Result CommandError (Option Text)
  unfolding absolute
  absolute_option none = ok none
  absolute_option (some path) = do resolved ← absolute path; ok (some resolved)

-- `ctx use -`: the previous selection.
unfoldable pub previous_target : Config → Result CommandError Selection
previous_target config = do
  previous ← some_or config.previous no_previous
  map_err malformed (from_str previous)

-- The network that a bare word is a node of: the only one there is, unless one has that name.
unfoldable pub only_network : Text → Map Network → Option Text
only_network raw [] = none
only_network raw ((name, n) ∷ []) = if text_eq name raw then none else some name
only_network raw ((name, n) ∷ e ∷ m) = none

unfoldable pub resolve_target : Text → Config → Result CommandError Selection
unfolding previous_target only_network
resolve_target raw config =
    if text_eq raw (codes "-")
    then previous_target config
    else elim (if contains b'/' raw then none else only_network raw config.networks) [
      | some name ↦ ok (record { network = name; node = some raw })
      | none ↦ map_err malformed (from_str raw)
    ]

-- A command line that is suggested: `ctx use` with its argument, or `network harvest`.
pub data Suggestion : Type 0 where
  use_selection : Text → Suggestion
  harvest : Suggestion

-- The current selection, when it parses and is of the network.
unfoldable pub current_in : Text → Option Text → Option Selection
current_in name none = none
current_in name (some raw) = elim (from_str raw) [
  | err e ↦ none
  | ok s ↦ if text_eq s.network name then some s else none
]

unfoldable pub first_name : Descriptors → Option Text
first_name [] = none
first_name ((name, d) ∷ m) = some name

-- Whether a selection names a node.
abbrev pub names_node : Option Selection → Bool
names_node none = false
names_node (some s) = is_some s.node

-- What is suggested for a network, from whether its founding is to be harvested, its first node and the
-- current selection of it.
unfoldable pub next_of : Text → Bool → Option Text → Option Selection → List Suggestion
next_of name true first none = use_selection name ∷ harvest ∷ []
next_of name true first (some s) = harvest ∷ []
next_of name false (some first) chosen =
    if names_node chosen then [] else use_selection (name ++ b'/' ∷ first) ∷ []
next_of name false none none = use_selection name ∷ []
next_of name false none (some s) = []

-- `exists` is the file system's.
module _ (exists : Text → Bool) where
  unfoldable pub founding_unharvested : Network → Bool
  founding_unharvested n = elim n.dir [
    | none ↦ false
    | some dir ↦ not (is_empty_map n.nodes) && not (exists (Paths.harvest (record { root = dir })))
  ]

  unfoldable pub next_after_registration : Config → Text → List Suggestion
  unfolding current_in first_name founding_unharvested next_of
  next_after_registration config name = elim (lookup name config.networks) [
    | none ↦ []
    | some n ↦
        next_of name (founding_unharvested n) (first_name n.nodes) (current_in name config.current)
  ]

-- The file that a command leaves, and its outcome.
abbrev pub Outcome : Type 0
Outcome = Option Text × Result CommandError (List Suggestion)

-- A command whose last step is one write.
abbrev pub commit : Option Text → Result CommandError Text → Outcome
commit file (ok text) = (some text, ok [])
commit file (err e) = (file, err e)

-- A node half is looked up.
unfoldable pub check_node : Selected → Result CommandError Unit
unfolding node
check_node selected = elim selected.selection.node [
  | none ↦ ok tt
  | some name ↦ elim (node selected none) [ ok found ↦ ok tt | err e ↦ err (context e) ]
]

-- What `run_use` stores, once it resolves.
unfoldable pub use_target : Config → Option Text → Result CommandError Selection
unfolding resolve_target select check_node
use_target config selection = do
  raw ← some_or selection no_target
  target ← resolve_target raw config
  selected ← map_err context (select config (some (display target)))
  check_node selected
  ok selected.selection

module _ (parse : Text → Option Doc) (render : Doc → Text) where
  abbrev pub load_file : Option Text → Result CommandError Config
  load_file file = map_err context (load (from_toml parse) file)

  abbrev pub write_file : Option Text → (Doc → Result WriteError Doc) → Result CommandError Text
  write_file file f = map_err write (edit parse render file f)

  unfoldable pub run_use : Option Text → Option Text → Outcome
  unfolding load use_target edit
  run_use file selection = commit file (do
    config ← load_file file
    stored ← use_target config selection
    write_file file (λ d. ok (set_current stored d)))

  unfoldable pub run_unset : Option Text → Outcome
  unfolding load edit
  run_unset file =
      commit file (do config ← load_file file; write_file file (λ d. ok (clear_current d)))
