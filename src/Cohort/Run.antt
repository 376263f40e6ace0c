-- ===== src/Cohort/Run.antt =====
-- The run over the cohort: `run_cohort`, `bootstrap_greenfield`, `persist_founding_bootnodes` and
-- `report` of tee/cli/network/src/configure.rs. How the nodes' tasks end is a sequence of events;
-- the dashboard and what is printed are left out.
pub mod Laws
pub mod Stages
pub mod Ends
use seismic.Prelude.{
  ℕ, Bool, true, false, not, Option, none, some, List, [], ◌∷◌, Result, ok, err, ◌>>=◌, some_or,
  ◌==◌, leb, ◌-◌, if◌then◌else◌, is_empty, length, map,
}
use seismic.Prelude.Text.{Text}
use seismic.Prelude.Map.{Map, lookup, insert}
use seismic.Bootnodes
use seismic.Bootnodes.{Bootnode, EnodesError, collect_enodes}
use seismic.Cohort.{Node}

-- What the loop of `run_cohort` selects: a task that ended with its node and verdict, a task that
-- ended abnormally, or the signal to stop.
pub data Event : Type 0 where
  joined : Text → Bool → Event
  crashed : Event
  ctrl_c : Event

pub data RunError : Type 0 where
  interrupted : RunError
  no_enodes : EnodesError → RunError
  no_such_key : Text → RunError

abbrev pub ok_of : Option Bool → Bool
ok_of none = false
ok_of (some b) = b

-- `results.get(name).copied().unwrap_or(false)`
abbrev pub made_it : Map Bool → Text → Bool
made_it results name = ok_of (lookup name results)

-- The loop of `run_cohort`, with the number of nodes and of tasks that are running; none while the
-- events given do not end it.
unfoldable pub join_all : ℕ → ℕ → List Event → Map Bool → Option (Result RunError (Map Bool))
join_all want running [] results = if leb want (length results) then some (ok results) else none
join_all want running (joined name b ∷ events) results =
    let results' = insert name b results in
    let later = join_all want (running - 1) events results' in
    if leb want (length results)
    then some (ok results)
    else if running - 1 == 0
    then some (ok results')
    else later
join_all want running (crashed ∷ events) results =
    let later = join_all want (running - 1) events results in
    if leb want (length results)
    then some (ok results)
    else if running - 1 == 0
    then some (ok results)
    else later
join_all want running (ctrl_c ∷ events) results =
    if leb want (length results) then some (ok results) else some (err interrupted)

-- The closing loop: a node that did not make it is entered as failed.
unfoldable pub settle : List Node → Map Bool → Map Bool
settle [] results = results
settle (n ∷ nodes) results =
    settle nodes (if made_it results n.name then results else insert n.name false results)

abbrev pub settled :
    List Node → Option (Result RunError (Map Bool)) → Option (Result RunError (Map Bool))
settled nodes none = none
settled nodes (some (err e)) = some (err e)
settled nodes (some (ok results)) = some (ok (settle nodes results))

unfoldable pub run_cohort : List Node → List Event → Option (Result RunError (Map Bool))
unfolding join_all settle
run_cohort nodes events = settled nodes (join_all (length nodes) (length nodes) events [])

-- `results.extend(more)`
unfoldable pub extend : Map Bool → Map Bool → Map Bool
extend results [] = results
extend results ((name, b) ∷ more) = extend (insert name b results) more

-- The cohorts that were started, in order, and how the run ended.
pub record Bootstrap : Type 0 where
  pub started : List (List Node)
  pub outcome : Option (Result RunError (Map Bool))

abbrev pub with_bootnodes : List Text → List Node → List Node
with_bootnodes enodes nodes = map (λ (n : Node). record n { bootnodes = enodes }) nodes

abbrev pub extended :
    Map Bool → Option (Result RunError (Map Bool)) → Option (Result RunError (Map Bool))
extended results none = none
extended results (some (err e)) = some (err e)
extended results (some (ok more)) = some (ok (extend results more))

-- What `collect_enodes` came back with for one node.
abbrev pub enode_of : Text → Option (Result EnodesError (Map Text)) → Option (Result RunError Text)
enode_of name none = none
enode_of name (some (err e)) = some (err (no_enodes e))
enode_of name (some (ok enodes)) = some (some_or (lookup name enodes) (no_such_key name))

-- Stage 2: the joiners, pointed at the genesis node's enode.
unfoldable pub stage_two :
    Node → List Node → Map Bool → Option (Result RunError Text) → List Event → Bootstrap
unfolding run_cohort extend
stage_two genesis joiners results none events = record {
  started = (genesis ∷ []) ∷ [];
  outcome = none;
}
stage_two genesis joiners results (some (err e)) events = record {
  started = (genesis ∷ []) ∷ [];
  outcome = some (err e);
}
stage_two genesis joiners results (some (ok enode)) events =
    let pointed = with_bootnodes (enode ∷ []) joiners in
    record {
      started = (genesis ∷ []) ∷ pointed ∷ [];
      outcome = extended results (run_cohort pointed events);
    }

unfoldable pub after_genesis :
    Node
    → List Node
    → ℕ
    → List Bootnodes.Round
    → List Event
    → Option (Result RunError (Map Bool))
    → Bootstrap
unfolding stage_two
after_genesis genesis joiners deadline rounds events none = record {
  started = (genesis ∷ []) ∷ [];
  outcome = none;
}
after_genesis genesis joiners deadline rounds events (some (err e)) = record {
  started = (genesis ∷ []) ∷ [];
  outcome = some (err e);
}
after_genesis genesis joiners deadline rounds events (some (ok results)) =
    if not (made_it results genesis.name)
    then record { started = (genesis ∷ []) ∷ []; outcome = some (ok results) }
    else if is_empty joiners
    then record { started = (genesis ∷ []) ∷ []; outcome = some (ok results) }
    else stage_two genesis joiners results
        (enode_of genesis.name (collect_enodes deadline (genesis.name ∷ []) rounds [])) events

-- `bootstrap_greenfield`: the events of its two stages, and the rounds of the poll between them.
unfoldable pub bootstrap_greenfield :
    Node → List Node → ℕ → List Event → List Bootnodes.Round → List Event → Bootstrap
unfolding run_cohort after_genesis
bootstrap_greenfield node joiners deadline first rounds second =
    let genesis = record node { bootnodes = [] } in
    after_genesis genesis joiners deadline rounds second (run_cohort (genesis ∷ []) first)

-- The nodes that did not make it.
unfoldable pub failed : List Node → Map Bool → List Text
failed [] results = []
failed (n ∷ nodes) results =
    let rest = failed nodes results in if made_it results n.name then rest else n.name ∷ rest

-- The founding set: every node with its enode, none for the panic of a name without one.
unfoldable pub bootnode_set : List Node → Map Text → Option (List Bootnode)
bootnode_set [] enodes = some []
bootnode_set (n ∷ nodes) enodes = elim (lookup n.name enodes) [
  | none ↦ none
  | some enode ↦ elim (bootnode_set nodes enodes) [
    | none ↦ none
    | some rest ↦ some (record { name = n.name; enode = enode } ∷ rest)
  ]
]

abbrev pub set_of : List Node → Option (Result EnodesError (Map Text)) → Option (List Bootnode)
set_of nodes none = none
set_of nodes (some (err e)) = none
set_of nodes (some (ok enodes)) = bootnode_set nodes enodes

-- `persist_founding_bootnodes`: the set that it writes to the bootnodes file, none where it leaves
-- the file alone. The write itself is left out.
unfoldable pub persist_founding_bootnodes :
    List Node → Map Bool → ℕ → List Bootnodes.Round → Option (List Bootnode)
unfolding failed bootnode_set
persist_founding_bootnodes nodes results deadline rounds =
    if is_empty (failed nodes results)
    then set_of nodes (collect_enodes deadline (map (λ (n : Node). n.name) nodes) rounds [])
    else none

-- `report`: the failure it ends in, if any.
unfoldable pub report : List Node → Map Bool → Result (List Text) (Unit {0})
unfolding failed
report nodes results = if is_empty (failed nodes results) then ok tt else err (failed nodes results)
