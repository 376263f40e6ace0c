-- ===== src/Watch.antt =====
-- The watch over a node's first-boot disk wipe: tee/cli/node/src/status.rs.
-- `observe` is `ProvisioningWatch::observe`; instants and durations are numbers of one unit, and
-- `duration_since` is the truncated difference, as the standard library has it.
pub mod Decode
pub mod History
pub mod Ends
mod Tests
use seismic.Prelude.{
  ℕ, ◌-◌, Bool, true, false, Option, none, some, List, [], ◌∷◌, ltb, if◌then◌else◌, get_or_else,
}
use seismic.Prelude.Text.{Text, text_eq, codes}
use seismic.Json.{Json, null, string, number, unsigned, object, get, as_str}

-- `LuksProvisioningStatus`.
pub data Status : Type 0 where
  idle : Status
  provisioning : ℕ → ℕ → Option ℕ → Status
  error : Text → Status
  unknown : Status
  other : Text → Status

-- What a poll came back with: `Observation`.
pub data Observation : Type 0 where
  unreachable : Observation
  status : Status → Observation
  refused : Text → Observation

-- `Phase`.
pub data Phase : Type 0 where
  connecting provisioning waiting done error : Phase

-- The status line of an update: which message it is, with the values it is formatted from.
pub data Line : Type 0 where
  never_reachable : ℕ → Line
  waiting_for_service : Line
  refusal : Text → Line
  progress : ℕ → ℕ → Option ℕ → Line
  stuck_in_error : ℕ → Text → Line
  auto_retrying : Text → Line
  wipe_complete : Line
  no_wipe : Line
  waiting_to_start : Line
  still_unknown : Line
  unexpected : Text → Line

-- `Update`.
pub record Update : Type 0 where
  pub phase : Phase
  pub line : Line
  pub transient : Bool
  pub done : Bool
  pub ok : Bool

unfoldable pub transient : Phase → Line → Update
transient p l = record { phase = p; line = l; transient = true; done = false; ok = false }

unfoldable pub permanent : Phase → Line → Update
unfolding transient
permanent p l = record (transient p l) { transient = false }

unfoldable pub terminal : Bool → Line → Update
unfolding permanent
terminal ok l = record (permanent (if ok then Phase.done else Phase.error) l) {
  done = true;
  ok = ok;
}

-- `ProvisioningWatch`.
pub record Watch : Type 0 where
  pub connect_timeout : ℕ
  pub idle_grace : ℕ
  pub error_grace : ℕ
  pub start : Option ℕ
  pub first_reachable : Option ℕ
  pub seen_provisioning : Bool
  pub error_since : Option ℕ

unfoldable pub with_grace : ℕ → ℕ → ℕ → Watch
with_grace c i e = record {
  connect_timeout = c;
  idle_grace = i;
  error_grace = e;
  start = none;
  first_reachable = none;
  seen_provisioning = false;
  error_since = none;
}

-- The answers of a reachable service, once `first_reachable` is set.
unfoldable pub observe_status : Watch → ℕ → ℕ → Status → Watch × Update
unfolding transient permanent terminal
observe_status w reached now (provisioning bytes total eta) = (
  record w { seen_provisioning = true; error_since = none },
  transient Phase.provisioning (progress bytes total eta),
)
observe_status w reached now (error message) =
    let since = get_or_else w.error_since now in
    let w' = record w { error_since = some since } in
    if ltb w.error_grace (now - since)
    then (w', terminal false (stuck_in_error w.error_grace message))
    else (w', transient Phase.error (auto_retrying message))
observe_status w reached now idle =
    let w' = record w { error_since = none } in
    if w.seen_provisioning
    then (w', terminal true wipe_complete)
    else if ltb w.idle_grace (now - reached)
    then (w', terminal true no_wipe)
    else (w', transient Phase.waiting waiting_to_start)
observe_status w reached now unknown =
    (record w { error_since = none }, permanent Phase.waiting still_unknown)
observe_status w reached now (other state) =
    (record w { error_since = none }, permanent Phase.waiting (unexpected state))

unfoldable pub observe : Watch → ℕ → Observation → Watch × Update
unfolding observe_status
observe w now unreachable =
    let start = get_or_else w.start now in
    let w' = record w { start = some start } in
    if ltb w.connect_timeout (now - start)
    then (w', terminal false (never_reachable w.connect_timeout))
    else (w', transient Phase.connecting waiting_for_service)
observe w now (refused message) =
    (record w { start = some (get_or_else w.start now) }, terminal false (refusal message))
observe w now (status s) =
    let reached = get_or_else w.first_reachable now in
    observe_status
      (record w { start = some (get_or_else w.start now); first_reachable = some reached }) reached
      now s

-- The loop of `poll_provisioning` over what its polls come back with, each at its instant: the `ok`
-- of the first update that is done, none while the polls go on.
unfoldable pub poll : Watch → List (ℕ × Observation) → Option Bool
unfolding observe
poll w [] = none
poll w ((now, o) ∷ rest) =
    let (w', u) = observe w now o in let later = poll w' rest in if u.done then some u.ok else later
