-- ===== src/Context/Commands/Tests.antt =====
-- The commands and the edits on a context file of two networks.
use seismic.Prelude.{
  ◌≡◌, ◌≢◌, refl, sym, ap, ◌∙◌, ℕ, zero, suc, Bool, Option, none, some, List, [], ◌∷◌, ◌++◌, arith,
  Result, ok, err, false, All,
}
use seismic.Prelude.Text.{Text, codes, text_eq}
use seismic.Prelude.Map.{Map, lookup, IsSorted}
use seismic.Prelude.Split.{contains}
use seismic.Json.{Json}
use seismic.Descriptors.{NodeDescriptor}
use seismic.Context.Selection.{Selection, display}
use seismic.Context.Selection.Laws.{IsName}
use seismic.Context.Config.{Network, Config}
use seismic.Context.Select.{load}
use seismic.Context.Document.{string, inline, table, Doc, end, entry, get, config_of, from_toml}
use seismic.Context.Write.{set_current, set_network, set_nodes, remove_network}
use seismic.Context.Write.Laws.{switched}
use seismic.Context.Write.Laws.Networks.{IsUpdated, entry_of}
use seismic.Context.Write.Laws.Register.{set_nodes-IsUpdated}
use seismic.Context.Write.Laws.Removal.{HasNoInlineNetworks, IsRemoved, remove_network-IsRemoved}
use seismic.Context.Commands.{Component, run_use, first_name, next_after_registration}
use seismic.Context.Commands.Laws.{IsSwitch, run_use-IsSwitch, run_use_back}
use seismic.Context.Commands.Suggest.{IsFollowable, next_after_registration-IsFollowable}
use seismic.Context.Commands.Run.{Command, ctx_use, ctx_unset}
use seismic.Context.Commands.Printed.{
  beta, alpha, mainnet, document, spell, parse, render, node_b, net, loose, both_networks, rereads,
}

abbrev config : Config
config = record {
  current = some (codes "mainnet");
  previous = some (codes "alpha");
  networks = both_networks;
}

-- A file with a current selection and no previous one, and one with neither.
abbrev file : Text
file = spell (some (codes "mainnet")) none

abbrev unselected : Text
unselected = spell none none

abbrev started : Config
started = record { current = some (codes "mainnet"); previous = none; networks = both_networks }

abbrev fresh : Config
fresh = record { current = none; previous = none; networks = both_networks }

loads : load (from_toml parse) (some file) ≡ ok started
unfolding load from_toml text_eq seismic.Context.Config.validate_all seismic.Prelude.Map.insert
    seismic.Prelude.Text.text_lt
loads = refl

fresh_loads : load (from_toml parse) (some unselected) ≡ ok fresh
unfolding load from_toml text_eq seismic.Context.Config.validate_all seismic.Prelude.Map.insert
    seismic.Prelude.Text.text_lt
fresh_loads = refl

used_first :
    run_use parse render (some unselected) (some (codes "alpha/b"))
    ≡ (some (spell (some (codes "alpha/b")) none), ok [])
unfolding run_use text_eq seismic.Prelude.Map.insert seismic.Prelude.Text.text_lt
    seismic.Prelude.Split.contains seismic.Context.Selection.from_str
    seismic.Prelude.Split.split_once display lookup seismic.Descriptors.select_descriptor
    set_current
used_first = refl

used :
    run_use parse render (some file) (some (codes "alpha/b"))
    ≡ (some (spell (some (codes "alpha/b")) (some (codes "mainnet"))), ok [])
unfolding run_use text_eq seismic.Prelude.Map.insert seismic.Prelude.Text.text_lt
    seismic.Prelude.Split.contains seismic.Context.Selection.from_str
    seismic.Prelude.Split.split_once display lookup seismic.Descriptors.select_descriptor
    set_current
used = refl

used_back :
    run_use parse render
      (some (spell (some (codes "alpha/b")) (some (codes "mainnet"))))
      (some (codes "-"))
    ≡ (some (spell (some (codes "mainnet")) (some (codes "alpha/b"))), ok [])
unfolding run_use text_eq seismic.Prelude.Map.insert seismic.Prelude.Text.text_lt
    seismic.Context.Selection.from_str seismic.Prelude.Split.split_once display lookup set_current
used_back = refl

reads : config_of (document (codes "mainnet") (codes "alpha")) ≡ ok config
unfolding config_of text_eq seismic.Prelude.Map.insert seismic.Prelude.Text.text_lt
reads = refl

run_use_back_example :
    (text : Text) × (stored : Selection) × (some
        (spell (some (codes "mainnet")) (some (codes "alpha/b")))
      ≡ some text)
    × (load (from_toml parse) (some (spell (some (codes "alpha/b")) (some (codes "mainnet"))))
        ≡ ok (switched stored started))
    × (load (from_toml parse) (some text)
        ≡ ok (record {
          current = some (codes "mainnet");
          previous = some (display stored);
          networks = started.networks;
        }))
run_use_back_example =
    run_use_back parse render rereads file (some (codes "alpha/b"))
      (some (spell (some (codes "alpha/b")) (some (codes "mainnet"))))
      (some (spell (some (codes "mainnet")) (some (codes "alpha/b")))) started (codes "mainnet") []
      [] loads refl used used_back

run_use-IsSwitch_example :
    (raw : Text) × (some (codes "alpha/b") ≡ some raw)
    × IsSwitch parse unselected raw fresh (some (spell (some (codes "alpha/b")) none))
run_use-IsSwitch_example =
    run_use-IsSwitch parse render rereads unselected (some (codes "alpha/b"))
      (some (spell (some (codes "alpha/b")) none)) fresh [] fresh_loads used_first

abbrev no_path : Text → Option (List Component)
no_path s = none

abbrev no_spelling : List Component → Text
no_spelling path = []

abbrev no_json : Text → Option Json
no_json s = none

abbrev nothing_exists : Text → Bool
nothing_exists path = false

abbrev commands : List Command
commands = ctx_use (some (codes "alpha/b")) ∷ ctx_use (some (codes "beta")) ∷ ctx_unset ∷ []

abbrev registered : Doc
registered = entry (codes "current") (string (codes "mainnet")) (
    entry (codes "previous") (string (codes "alpha")) (
      entry (codes "networks")
        (table (
          entry (codes "alpha")
            (table (
              entry (codes "nodes") (table (entry (codes "b") (inline beta) end))
                (entry (codes "manifest") (string (codes "/m.json")) end)))
            (entry (codes "mainnet") (table mainnet) end)))
        end))

registers :
    set_network (codes "alpha") loose (document (codes "mainnet") (codes "alpha")) ≡ ok registered
unfolding set_network text_eq
registers = refl

abbrev imported : Doc
imported = entry (codes "current") (string (codes "mainnet")) (
    entry (codes "previous") (string (codes "alpha")) (
      entry (codes "networks")
        (table (
          entry (codes "alpha") (table alpha) (
            entry (codes "mainnet")
              (table (
                entry (codes "manifest") (string (codes "/m.json"))
                  (entry (codes "nodes") (table (entry (codes "b") (inline beta) end)) end)))
              end)))
        end))

imports :
    set_nodes
      (codes "mainnet")
      ((codes "b", node_b) ∷ [])
      (document (codes "mainnet") (codes "alpha"))
    ≡ ok imported
unfolding set_nodes text_eq
imports = refl

set_nodes-IsUpdated_example :
    (c' : Config) × (config_of imported ≡ ok c')
    × IsUpdated
        (codes "mainnet")
        (record (entry_of (codes "mainnet") config) { nodes = (codes "b", node_b) ∷ [] })
        config
        c'
set_nodes-IsUpdated_example =
    set_nodes-IsUpdated (codes "mainnet") ((codes "b", node_b) ∷ [])
      (document (codes "mainnet") (codes "alpha")) imported config (tt, tt) reads imports

no_inline : (current previous : Text) → HasNoInlineNetworks (document current previous)
unfolding get
no_inline current previous t h = absurd (ground arith)

remove_network-IsRemoved_example :
    (c' : Config) × (config_of
        (remove_network (codes "alpha") (document (codes "mainnet") (codes "alpha")))
      ≡ ok c')
    × IsRemoved (codes "alpha") config c'
remove_network-IsRemoved_example =
    remove_network-IsRemoved (codes "alpha") (document (codes "mainnet") (codes "alpha")) config
      (no_inline (codes "mainnet") (codes "alpha")) reads

-- The names of the tests can be spelled in a selection.
alpha_named : IsName (codes "alpha")
unfolding contains
alpha_named = (λ h. absurd (ground arith), refl)

other_than_dash : codes "alpha" ≢ codes "-"
other_than_dash h = absurd (ground arith)

first_named :
    (n : Network) (first : Text)
    → lookup (codes "alpha") config.networks ≡ some n
    → first_name n.nodes ≡ some first
    → IsName first
unfolding lookup text_eq first_name contains
first_named n first found h =
    let is_net : net ≡ n = ground arith in
    let e : first_name net.nodes ≡ some first = ap (λ x. first_name x.nodes) is_net ∙ h in
    let is_b : codes "b" ≡ first = ground arith in rw (← is_b) (λ p. absurd (ground arith), refl)

next_after_registration-IsFollowable_example :
    All
      (IsFollowable config (codes "alpha"))
      (next_after_registration nothing_exists config (codes "alpha"))
next_after_registration-IsFollowable_example =
    next_after_registration-IsFollowable nothing_exists config (codes "alpha") alpha_named
      other_than_dash first_named

abbrev climbing : List Component
climbing =
    Component.root
    ∷ Component.normal (codes "a")
    ∷ Component.parent
    ∷ Component.current
    ∷ Component.normal (codes "b")
    ∷ []
