-- ===== src/Cohort/Delivery.antt =====
-- Delivery to one node: `configure_node` and `appraise` of tee/cli/network/src/configure.rs. What the
-- calls of other crates come back with is the input; status lines are left out.
use seismic.Prelude.{
  ℕ, suc, zero, Bool, true, false, Option, none, some, List, [], ◌∷◌, if◌then◌else◌, ◌==◌, ◌≡◌, ◌↔◌,
  ◌⊎◌, arith,
}
use seismic.Watch.{Watch, Observation, poll}

abbrev pub appraisal_attempts : ℕ
appraisal_attempts = 3

-- The loop of `appraise`, over the verdicts of its challenges; none while they do not decide it.
unfoldable pub appraise : ℕ → List Bool → Option Bool
appraise attempt [] = none
appraise attempt (verdict ∷ verdicts) =
    let later = appraise (suc attempt) verdicts in
    if verdict then some true else if attempt == appraisal_attempts then some false else later

-- What one node's steps come back with: whether each call succeeds, what its polls see, and the
-- verdicts of its challenges.
pub record Steps : Type 0 where
  pub built : Bool
  pub recorded : Bool
  pub client_made : Bool
  pub posted : Bool
  pub polls : List (ℕ × Observation)
  pub verdicts : List Bool

-- The closing step: an appraisal, unless the run has none.
abbrev pub verdict_on : Bool → Bool → List Bool → Option Bool
verdict_on verify false verdicts = some false
verdict_on false true verdicts = some true
verdict_on true true verdicts = appraise 1 verdicts

abbrev pub after_poll : Bool → List Bool → Option Bool → Option Bool
after_poll verify verdicts none = none
after_poll verify verdicts (some ready) = verdict_on verify ready verdicts

-- `configure_node`: each step runs only if the ones before it succeeded.
unfoldable pub configure_node : Watch → Bool → Steps → Option Bool
unfolding appraise poll
configure_node watch verify s =
    if s.built
    then if s.recorded
      then if s.client_made
        then if s.posted then after_poll verify s.verdicts (poll watch s.polls) else some false
        else some false
      else some false
    else some false

-- One of the first attempts that are left passes.
abbrev pub PassesWithin : ℕ → List Bool → Type 0
PassesWithin zero verdicts = ⊥
PassesWithin (suc n) [] = ⊥
PassesWithin (suc n) (verdict ∷ verdicts) = (verdict ≡ true) ⊎ PassesWithin n verdicts

appraise_iff : (verdicts : List Bool) → (appraise 1 verdicts ≡ some true) ↔ PassesWithin 3 verdicts
unfolding appraise
appraise_iff [] = ground arith
appraise_iff (a ∷ []) = ground arith
appraise_iff (a ∷ b ∷ []) = ground arith
appraise_iff (a ∷ b ∷ c ∷ verdicts) = ground arith

-- A node counts as made exactly when its config was built, recorded and accepted, its polls ended
-- ready, and, unless the run has no appraisal, one of its first three challenges passed.
pub configure_node_iff :
    (watch : Watch) (verify : Bool) (s : Steps)
    → (configure_node watch verify s ≡ some true) ↔ (
        (s.built ≡ true)
        × (s.recorded ≡ true)
        × (s.client_made ≡ true)
        × (s.posted ≡ true)
        × (poll watch s.polls ≡ some true)
        × ((verify ≡ false) ⊎ PassesWithin appraisal_attempts s.verdicts))
unfolding configure_node
configure_node_iff watch verify s = ground (arith, appraise_iff s.verdicts)
