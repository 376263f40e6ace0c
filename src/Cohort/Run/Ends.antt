-- ===== src/Cohort/Run/Ends.antt =====
-- The run over the cohort ends when its tasks have.
use seismic.Prelude.{
  ℕ, ◌-◌, ◌≤◌, ◌<◌, ◌≢◌, Bool, none, List, [], ◌∷◌, arith, ok, err, ◌==◌, length, Bool-cases,
  Option-cases, inl, inr,
}
use seismic.Prelude.Map.{Map, insert}
use seismic.Cohort.{Node}
use seismic.Cohort.Run.{Event, joined, crashed, ctrl_c, join_all, settle, run_cohort}

join_all_ends :
    (want running : ℕ) (events : List Event) (results : Map Bool)
    → 0 < running
    → running ≤ length events
    → join_all want running events results ≢ none
unfolding join_all
join_all_ends want running [] results p n e = absurd (omega arith)
join_all_ends want running (joined name b ∷ events) results p n e =
    elim (Bool-cases (running - 1 == 0)) [
      | inl last ↦ ground arith
      | inr more ↦
          let rest =
            join_all_ends want (running - 1) events (insert name b results) (ground arith)
              (ground arith) in
          ground arith
    ]
join_all_ends want running (crashed ∷ events) results p n e = elim (Bool-cases (running - 1 == 0)) [
  | inl last ↦ ground arith
  | inr more ↦
      let rest = join_all_ends want (running - 1) events results (ground arith) (ground arith) in
      ground arith
]
join_all_ends want running (ctrl_c ∷ events) results p n e = ground arith

-- A run ends once as many events have come as there are nodes: one for the end of each node's task,
-- or the signal to stop.
pub run_cohort_ends :
    (nodes : List Node) (events : List Event)
    → length nodes ≤ length events
    → run_cohort nodes events ≢ none
unfolding run_cohort
run_cohort_ends [] [] n e = (unfold join_all settle in ground arith)
run_cohort_ends [] (joined name b ∷ events) n e = (unfold join_all settle in ground arith)
run_cohort_ends [] (crashed ∷ events) n e = (unfold join_all settle in ground arith)
run_cohort_ends [] (ctrl_c ∷ events) n e = (unfold join_all settle in ground arith)
run_cohort_ends (node ∷ nodes) events n e =
    elim (Option-cases (join_all (length (node ∷ nodes)) (length (node ∷ nodes)) events [])) [
      | inl going ↦ absurd (
          join_all_ends (length (node ∷ nodes)) (length (node ∷ nodes)) events [] (omega arith) n
            going)
      | inr (ok results, ended) ↦ ground arith
      | inr (err x, ended) ↦ ground arith
    ]
