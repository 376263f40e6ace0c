-- ===== src/Context/Commands/Run.antt =====
-- `ctx set-network`, `ctx set-nodes`, and all the commands that write the context file, as steps on it:
-- tee/cli/context/src/cmd.rs.
pub mod Laws
use seismic.Prelude.{
  ℕ, Bool, true, false, Option, none, some, List, [], ◌∷◌, Result, ok, err, ◌>>=◌, ◌>>◌, some_or,
  map_err,
}
use seismic.Prelude.Text.{Text}
use seismic.Json.{Json}
use seismic.Descriptors.{NodeDescriptor, Descriptors, DescriptorError, parse_descriptors}
use seismic.Context.Config.{Network, Config, ConfigError, validate}
use seismic.Context.Select.{ContextError, load}
use seismic.Context.Document.{Doc}
use seismic.Context.Write.{WriteError, set_network, set_nodes, edit}
use seismic.Context.Commands.{
  CommandError, context, write, invalid_network, unresolved_path, unreadable_nodes, bad_nodes,
  terminal, Component, absolute_option, Suggestion, next_after_registration, Outcome, commit,
  load_file, write_file, run_use, run_unset,
}

-- `SetNetworkArgs`, with the text of the nodes file: none within when it cannot be read.
pub record SetNetworkArgs : Type 0 where
  pub name : Text
  pub dir : Option Text
  pub manifest : Option Text
  pub source : Option Text
  pub network_id : Option Text
  pub nodes : Option (Option Text)

-- The commands that write the file, with what `set-nodes` reads: none at a terminal.
pub data Command : Type 0 where
  ctx_use : Option Text → Command
  ctx_unset : Command
  ctx_set_network : SetNetworkArgs → Command
  ctx_set_nodes : Text → Option Text → Command

-- What the commands ask of their surroundings.
module _ (parse : Text → Option Doc) (render : Doc → Text)
    (std_absolute : Text → Option (List Component)) (spell : List Component → Text)
    (from_slice : Text → Option Json) (exists : Text → Bool) where
  -- The entry that `run_set_network` registers.
  unfoldable pub network_from : SetNetworkArgs → Result CommandError Network
  unfolding absolute_option validate
  network_from args = do
    dir ← absolute_option std_absolute spell args.dir
    manifest ← absolute_option std_absolute spell args.manifest
    map_err invalid_network (
        validate (record {
          dir = dir;
          manifest = manifest;
          source = args.source;
          network_id = args.network_id;
          nodes = [];
        }))
    ok (record {
      dir = dir;
      manifest = manifest;
      source = args.source;
      network_id = args.network_id;
      nodes = [];
    })

  -- `load_descriptors` on the text of the nodes file, when one is given.
  unfoldable pub nodes_from : Option (Option Text) → Result CommandError (Option Descriptors)
  unfolding parse_descriptors
  nodes_from none = ok none
  nodes_from (some none) = err unreadable_nodes
  nodes_from (some (some bytes)) = do
    nodes ← map_err bad_nodes (parse_descriptors from_slice bytes)
    ok (some nodes)

  -- `run_set_network` as far as its first write: the text it writes, and the nodes that are left to write.
  unfoldable pub register :
      Option Text → SetNetworkArgs → Result CommandError (Text × Option Descriptors)
  unfolding load network_from nodes_from edit
  register file args = do
    config ← load_file parse render file
    network ← network_from args
    nodes ← nodes_from args.nodes
    text ← write_file parse render file (set_network args.name network)
    ok (text, nodes)

  -- The next step, from the file as it now stands.
  unfoldable pub suggest : Text → Option Text → Outcome
  unfolding load next_after_registration
  suggest name file = (
    file,
    do config ← load_file parse render file; ok (next_after_registration exists config name),
  )

  -- The second write of `run_set_network`, and the suggestion.
  unfoldable pub import_given : Text → Text → Option Descriptors → Outcome
  unfolding edit suggest
  import_given name text none = suggest name (some text)
  import_given name text (some nodes) =
      elim (write_file parse render (some text) (set_nodes name nodes)) [
        | err e ↦ (some text, err e)
        | ok text' ↦ suggest name (some text')
      ]

  unfoldable pub run_set_network : Option Text → SetNetworkArgs → Outcome
  unfolding register import_given
  run_set_network file args = elim (register file args) [
    | err e ↦ (file, err e)
    | ok (text, nodes) ↦ import_given args.name text nodes
  ]

  -- `import_nodes`, the reading of its input past.
  unfoldable pub import_nodes : Option Text → Text → Text → Result CommandError Text
  unfolding parse_descriptors load edit
  import_nodes file name bytes = do
    nodes ← map_err bad_nodes (parse_descriptors from_slice bytes)
    config ← load_file parse render file
    write_file parse render file (set_nodes name nodes)

  unfoldable pub run_set_nodes : Option Text → Text → Option Text → Outcome
  unfolding import_nodes suggest
  run_set_nodes file name stdin = elim (do b ← some_or stdin terminal; import_nodes file name b) [
    | err e ↦ (file, err e)
    | ok text ↦ suggest name (some text)
  ]

  -- One command, and a sequence of them.
  unfoldable pub run : Option Text → Command → Outcome
  unfolding run_use run_unset run_set_network run_set_nodes
  run file (ctx_use selection) = run_use parse render file selection
  run file ctx_unset = run_unset parse render file
  run file (ctx_set_network args) = run_set_network file args
  run file (ctx_set_nodes name stdin) = run_set_nodes file name stdin

  unfoldable pub run_all : Option Text → List Command → Option Text
  unfolding run
  run_all file [] = file
  run_all file (c ∷ cs) = run_all ((run file c).0) cs
