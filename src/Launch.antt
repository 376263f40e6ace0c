-- ===== src/Launch.antt =====
-- The first launch assertion: `fetch_block0_hash` and `assert_cohort_genesis_hash` of
-- tee/cli/network/src/launch.rs. One `Pass` of the loop is what the nodes answer in it and its
-- instants. Texts are bytes: lowering is that of ASCII. Status lines and the dashboard are left out.
pub mod Laws
pub mod Pause
pub mod Holders
mod Tests
use seismic.Prelude.{
  ℕ, ◌+◌, ◌-◌, Bool, true, false, not, ◌&&◌, ◌||◌, Option, none, some, List, [], ◌∷◌, Result, ok,
  err, if◌then◌else◌, leb, is_empty, map, any,
}
use seismic.Prelude.Text.{Text, codes, text_eq}
use seismic.Prelude.Map.{Map, lookup, insert, contains_key}
use seismic.Json.{Json, get, as_str}
use seismic.Watch.{Status, idle, provisioning, error, unknown, other}

-- `LaunchTarget`, with the clients' addresses left out.
pub record LaunchTarget : Type 0 where
  pub name : Text
  pub node_public_key : Text
  pub consensus_public_key : Text

abbrev pub to_lower : ℕ → ℕ
to_lower c = if leb b'A' c && leb c b'Z' then c + 32 else c

-- `fetch_block0_hash`: none is a failed call or an answer without a hash.
unfoldable pub fetch_block0_hash : Option Json → Option Text
fetch_block0_hash none = none
fetch_block0_hash (some block) = elim (as_str (get (codes "hash") block)) [
  | none ↦ none
  | some hash ↦ some (map to_lower hash)
]

-- One pass: what each node's reth and status service answer, none for no answer in time, and when
-- the pass began, when its block probes were over, when its status reads were over, and how long the
-- sleep after it took.
pub record Pass : Type 0 where
  pub block : LaunchTarget → Option Json
  pub status : LaunchTarget → Option Status
  pub began : ℕ
  pub probed : ℕ
  pub now : ℕ
  pub slept : ℕ

-- The loop over the targets that no hash was read from.
unfoldable pub probe : (LaunchTarget → Option Json) → List LaunchTarget → Map Text → Map Text
unfolding fetch_block0_hash
probe block [] observed = observed
probe block (t ∷ targets) observed = probe block targets (
    if contains_key t.name observed then observed else elim (fetch_block0_hash (block t)) [
      | none ↦ observed
      | some hash ↦ insert t.name hash observed
    ])

unfoldable pub pending : List LaunchTarget → Map Text → List LaunchTarget
pending [] observed = []
pending (t ∷ targets) observed =
    let rest = pending targets observed in if contains_key t.name observed then rest else t ∷ rest

-- Some hash that was read is not the expected one.
unfoldable pub mismatch : Text → Map Text → Bool
mismatch expected observed = any (λ e. not (text_eq e.1 expected)) observed

abbrev pub is_provisioning : Option Status → Bool
is_provisioning (some (provisioning bytes total eta)) = true
is_provisioning s = false

-- What each target served, for the failure's listing.
abbrev pub GenesisError : Type 0
GenesisError = List (Text × Option Text)

unfoldable pub finish : Text → List LaunchTarget → Map Text → Result GenesisError (Unit {0})
unfolding mismatch pending
finish expected targets observed =
    if mismatch expected observed || not (is_empty (pending targets observed))
    then err (map (λ (t : LaunchTarget). (t.name, lookup t.name observed)) targets)
    else ok tt

-- The deadline after a pass: the time that a node was seen provisioning does not count.
unfoldable pub paused : Bool → Bool → ℕ → Pass → ℕ
paused active provisions deadline p =
    let probed = if active then deadline + (p.probed - p.began) else deadline in
    if provisions then probed + (p.now - (if active then p.probed else p.began)) else probed

-- `assert_cohort_genesis_hash` over its passes; none while they do not end it. `active` is whether
-- the pass before saw a node provisioning.
unfoldable pub assert_cohort_genesis_hash :
    Text
    → List LaunchTarget
    → List Pass
    → ℕ
    → Bool
    → Map Text
    → Option (Result GenesisError (Unit {0}))
unfolding probe pending mismatch finish paused
assert_cohort_genesis_hash expected targets [] deadline active observed = none
assert_cohort_genesis_hash expected targets (p ∷ passes) deadline active observed =
    let observed' = probe p.block targets observed in
    let waiting = pending targets observed' in
    let provisions = any (λ t. is_provisioning (p.status t)) waiting in
    let deadline' = paused active provisions deadline p in
    let later =
      assert_cohort_genesis_hash expected targets passes
        (if provisions then deadline' + p.slept else deadline') provisions observed' in
    if mismatch expected observed' || is_empty waiting
    then some (finish expected targets observed')
    else if leb deadline' p.now
    then some (finish expected targets observed')
    else later
