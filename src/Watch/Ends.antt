-- ===== src/Watch/Ends.antt =====
-- What a verdict of the polling loop means, and when the loop ends.
use seismic.Prelude.{
  ℕ, zero, suc, ◌+◌, ◌-◌, ◌*◌, ◌<◌, ◌≡◌, refl, ◌⊎◌, inl, inr, true, false, none, some, List, [],
  ◌∷◌, arith, get_or_else, All, Option-cases, sym, ◌∙◌,
}
use native.Mathlib.Nat.{mul-suc}
use seismic.Prelude.Text.{Text}
use seismic.Watch.{
  idle, provisioning, error, unknown, other, Observation, unreachable, status, refused, with_grace,
  poll,
}
use seismic.Watch.History.{
  History, began, answered, provisioned, error_began, verdict, first_verdict, poll-eq-first_verdict,
}

-- The polls of a history, oldest first, before further ones.
abbrev pub onto : History → List (ℕ × Observation) → List (ℕ × Observation)
onto [] rest = rest
onto (p ∷ h) rest = onto h (p ∷ rest)

-- The poll that ended a watch well: an `idle` answer at `at`, after `before`.
pub record EndsWell (idle_grace : ℕ) (polls : List (ℕ × Observation)) : Type 0 where
  pub before : History
  pub at : ℕ
  pub rest : List (ℕ × Observation)
  pub split : onto before ((at, status idle) ∷ rest) ≡ polls
  pub cause : (provisioned before ≡ true) ⊎ (idle_grace < at - get_or_else (answered before) at)

-- The answers and silences that a wipe in progress gives.
abbrev pub IsOngoing : Observation → Type 0
IsOngoing (status (provisioning b n e)) = Unit {0}
IsOngoing (status unknown) = Unit {0}
IsOngoing (status (other s)) = Unit {0}
IsOngoing o = ⊥

-- `n` polls, `d` apart, that all come back with `o`.
abbrev pub steady : Observation → ℕ → ℕ → ℕ → List (ℕ × Observation)
steady o t d zero = []
steady o t d (suc n) = (t, o) ∷ steady o (t + d) d n

module _ (connect idle_grace error_grace : ℕ) where
  idle-EndsWell :
      (h : History) (t : ℕ) (o : Observation) (rest : List (ℕ × Observation))
      → verdict connect idle_grace error_grace h t o ≡ some true
      → EndsWell idle_grace (onto h ((t, o) ∷ rest))
  idle-EndsWell h t unreachable rest e = absurd (ground arith)
  idle-EndsWell h t (refused m) rest e = absurd (ground arith)
  idle-EndsWell h t (status idle) rest e = record {
    before = h;
    at = t;
    rest = rest;
    split = refl;
    cause = ground arith;
  }
  idle-EndsWell h t (status (error m)) rest e = absurd (ground arith)
  idle-EndsWell h t (status (provisioning b n x)) rest e = absurd (ground arith)
  idle-EndsWell h t (status unknown) rest e = absurd (ground arith)
  idle-EndsWell h t (status (other s)) rest e = absurd (ground arith)

  first_verdict-EndsWell :
      (h : History) (polls : List (ℕ × Observation))
      → first_verdict connect idle_grace error_grace h polls ≡ some true
      → EndsWell idle_grace (onto h polls)
  first_verdict-EndsWell h [] e = absurd (ground arith)
  first_verdict-EndsWell h ((t, o) ∷ rest) e =
      elim (Option-cases (verdict connect idle_grace error_grace h t o)) [
        | inl on ↦ first_verdict-EndsWell ((t, o) ∷ h) rest (ground arith)
        | inr (b, ended) ↦ idle-EndsWell h t o rest (ground arith)
      ]

  -- A watch that reports success has had an `idle` answer, after a wipe was seen or after the
  -- service had been answering for longer than the idle grace.
  pub poll-EndsWell :
      (polls : List (ℕ × Observation))
      → poll (with_grace connect idle_grace error_grace) polls ≡ some true
      → EndsWell idle_grace polls
  poll-EndsWell polls e =
      first_verdict-EndsWell [] polls
        (sym (poll-eq-first_verdict connect idle_grace error_grace polls) ∙ e)

  ongoing-verdict :
      (h : History) (t : ℕ) (o : Observation)
      → IsOngoing o
      → verdict connect idle_grace error_grace h t o ≡ none
  ongoing-verdict h t unreachable k = absurd k
  ongoing-verdict h t (refused m) k = absurd k
  ongoing-verdict h t (status idle) k = absurd k
  ongoing-verdict h t (status (error m)) k = absurd k
  ongoing-verdict h t (status (provisioning b n x)) k = refl
  ongoing-verdict h t (status unknown) k = refl
  ongoing-verdict h t (status (other s)) k = refl

  ongoing-first_verdict :
      (h : History) (polls : List (ℕ × Observation))
      → All (λ p. IsOngoing p.1) polls
      → first_verdict connect idle_grace error_grace h polls ≡ none
  ongoing-first_verdict h [] k = refl
  ongoing-first_verdict h ((t, o) ∷ rest) k =
      ground (arith, ongoing-verdict h t o k.0, ongoing-first_verdict ((t, o) ∷ h) rest k.1)

  -- Nothing ends the watch while every poll finds a wipe in progress, an unreadable status or an
  -- unknown one, however long that lasts.
  pub poll-ongoing :
      (polls : List (ℕ × Observation))
      → All (λ p. IsOngoing p.1) polls
      → poll (with_grace connect idle_grace error_grace) polls ≡ none
  poll-ongoing polls k =
      poll-eq-first_verdict connect idle_grace error_grace polls ∙ ongoing-first_verdict [] polls k

  steady-unreachable :
      (h : History) (t d n s : ℕ)
      → get_or_else (began h) t ≡ s
      → connect < t + d * n - s
      → first_verdict connect idle_grace error_grace h (steady unreachable t d (suc n)) ≡ some false
  steady-unreachable h t d zero s e k = ground arith
  steady-unreachable h t d (suc n) s e k =
      ground (arith, steady-unreachable ((t, unreachable) ∷ h) (t + d) d n s, mul-suc d n)

  steady-idle :
      (h : History) (t d n s : ℕ)
      → get_or_else (answered h) t ≡ s
      → idle_grace < t + d * n - s
      → first_verdict connect idle_grace error_grace h (steady (status idle) t d (suc n))
        ≡ some true
  steady-idle h t d zero s e k = ground arith
  steady-idle h t d (suc n) s e k =
      ground (arith, steady-idle ((t, status idle) ∷ h) (t + d) d n s, mul-suc d n)

  steady-error :
      (m : Text) (h : History) (t d n s : ℕ)
      → get_or_else (error_began h) t ≡ s
      → error_grace < t + d * n - s
      → first_verdict connect idle_grace error_grace h (steady (status (error m)) t d (suc n))
        ≡ some false
  steady-error m h t d zero s e k = ground arith
  steady-error m h t d (suc n) s e k =
      ground (arith, steady-error m ((t, status (error m)) ∷ h) (t + d) d n s, mul-suc d n)

  -- A watch whose polls all come back the same way ends within its patience: with a failure when the
  -- service stays unreachable or in error, with success when it stays idle. The
  -- polls are `d` apart, and `n` intervals exceed each of the three patiences.
  pub poll-steady :
      (t d n : ℕ) (m : Text)
      → connect < d * n
      → idle_grace < d * n
      → error_grace < d * n
      → (poll (with_grace connect idle_grace error_grace) (steady unreachable t d (suc n))
          ≡ some false)
        × (poll (with_grace connect idle_grace error_grace) (steady (status idle) t d (suc n))
            ≡ some true)
        × (poll (with_grace connect idle_grace error_grace) (steady (status (error m)) t d (suc n))
            ≡ some false)
  poll-steady t d n m kc ki ke = (
    poll-eq-first_verdict connect idle_grace error_grace _
        ∙ steady-unreachable [] t d n t refl (omega arith),
    poll-eq-first_verdict connect idle_grace error_grace _
        ∙ steady-idle [] t d n t refl (omega arith),
    poll-eq-first_verdict connect idle_grace error_grace _
        ∙ steady-error m [] t d n t refl (omega arith),
  )
