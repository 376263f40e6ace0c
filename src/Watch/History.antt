-- ===== src/Watch/History.antt =====
-- The watch against the history of its polls: what each verdict rests on, and when the loop ends.
use seismic.Prelude.{
  ℕ, ◌-◌, ◌≡◌, refl, Bool, true, false, Option, none, some, List, [], ◌∷◌, arith, ltb,
  if◌then◌else◌, get_or_else,
}
use seismic.Watch.{
  idle, provisioning, error, unknown, other, Observation, unreachable, status, refused, Watch,
  with_grace, observe, poll,
}

-- A history has the newest poll at its head.
abbrev pub History : Type 0
History = List (ℕ × Observation)

-- When the first poll was made.
abbrev pub began : History → Option ℕ
began [] = none
began ((t, o) ∷ h) = some (get_or_else (began h) t)

-- When the service first answered with a status.
abbrev pub answered : History → Option ℕ
answered [] = none
answered ((t, status s) ∷ h) = some (get_or_else (answered h) t)
answered ((t, o) ∷ h) = answered h

-- Whether a wipe has been seen.
abbrev pub provisioned : History → Bool
provisioned [] = false
provisioned ((t, status (provisioning b n e)) ∷ h) = true
provisioned ((t, o) ∷ h) = provisioned h

-- When the present run of `error` statuses began. A poll without an answer does not end the run.
abbrev pub error_began : History → Option ℕ
error_began [] = none
error_began ((t, status (error m)) ∷ h) = some (get_or_else (error_began h) t)
error_began ((t, status s) ∷ h) = none
error_began ((t, o) ∷ h) = error_began h

module _ (connect idle_grace error_grace : ℕ) where
  -- The verdict on a poll at `t`, from the polls before it: none is to poll on.
  abbrev pub verdict : History → ℕ → Observation → Option Bool
  verdict h t unreachable = if ltb connect (t - get_or_else (began h) t) then some false else none
  verdict h t (refused m) = some false
  verdict h t (status idle) =
      if provisioned h
      then some true
      else if ltb idle_grace (t - get_or_else (answered h) t)
      then some true
      else none
  verdict h t (status (error m)) =
      if ltb error_grace (t - get_or_else (error_began h) t) then some false else none
  verdict h t (status s) = none

  -- The first verdict over the polls to come.
  abbrev pub first_verdict : History → List (ℕ × Observation) → Option Bool
  first_verdict h [] = none
  first_verdict h ((t, o) ∷ rest) =
      let later = first_verdict ((t, o) ∷ h) rest in
      elim (verdict h t o) [ none ↦ later | some b ↦ some b ]

  -- The watch's fields are those of the history.
  pub record Tracks (w : Watch) (h : History) : Type 0 where
    connect_t : w.connect_timeout ≡ connect
    idle_g : w.idle_grace ≡ idle_grace
    error_g : w.error_grace ≡ error_grace
    start : w.start ≡ began h
    reached : w.first_reachable ≡ answered h
    seen : w.seen_provisioning ≡ provisioned h
    since : w.error_since ≡ error_began h

  observe-Tracks :
      (w : Watch) (h : History) (t : ℕ) (o : Observation)
      → Tracks w h
      → Tracks (observe w t o).0 ((t, o) ∷ h)
  unfolding observe
  observe-Tracks w h t unreachable k = ground arith
  observe-Tracks w h t (refused m) k = ground arith
  observe-Tracks w h t (status idle) k = ground arith
  observe-Tracks w h t (status (provisioning b n e)) k = ground arith
  observe-Tracks w h t (status (error m)) k = ground arith
  observe-Tracks w h t (status unknown) k = ground arith
  observe-Tracks w h t (status (other s)) k = ground arith

  observe-verdict :
      (w : Watch) (h : History) (t : ℕ) (o : Observation)
      → Tracks w h
      → (if (observe w t o).1.done then some (observe w t o).1.ok else none) ≡ verdict h t o
  unfolding observe
  observe-verdict w h t unreachable k = ground arith
  observe-verdict w h t (refused m) k = ground arith
  observe-verdict w h t (status idle) k = ground arith
  observe-verdict w h t (status (provisioning b n e)) k = ground arith
  observe-verdict w h t (status (error m)) k = ground arith
  observe-verdict w h t (status unknown) k = ground arith
  observe-verdict w h t (status (other s)) k = ground arith

  poll-first_verdict :
      (w : Watch) (h : History) (polls : List (ℕ × Observation))
      → Tracks w h
      → poll w polls ≡ first_verdict h polls
  unfolding poll
  poll-first_verdict w h [] k = refl
  poll-first_verdict w h ((t, o) ∷ rest) k = ground (
    arith,
    observe-verdict w h t o k,
    poll-first_verdict (observe w t o).0 ((t, o) ∷ h) rest (observe-Tracks w h t o k),
  )

-- From a new watch the polling loop returns exactly the first verdict that the history of the polls
-- gives, whatever the polls come back with and at whatever instants.
pub poll-eq-first_verdict :
    (connect idle_grace error_grace : ℕ) (polls : List (ℕ × Observation))
    → poll (with_grace connect idle_grace error_grace) polls
      ≡ first_verdict connect idle_grace error_grace [] polls
unfolding with_grace
poll-eq-first_verdict c i e polls = poll-first_verdict c i e _ [] polls (ground arith)
