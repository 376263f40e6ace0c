-- ===== src/Watch/Tests.antt =====
-- The watch on concrete polls.
use seismic.Prelude.{ℕ, ◌≡◌, refl, true, false, none, some, List, [], ◌∷◌, arith}
use seismic.Prelude.Text.{codes}
use seismic.Watch.{
  idle, provisioning, error, unknown, Observation, unreachable, status, with_grace, poll,
}
use seismic.Watch.History.{first_verdict, poll-eq-first_verdict}
use seismic.Watch.Ends.{EndsWell, steady, poll-EndsWell, poll-steady}

abbrev wipe : List (ℕ × Observation)
wipe =
    (0, unreachable)
    ∷ (3, status idle)
    ∷ (6, status (provisioning 1 9 none))
    ∷ (9, status unknown)
    ∷ (12, status (error (codes "x")))
    ∷ (15, status idle)
    ∷ []

abbrev in_progress : List (ℕ × Observation)
in_progress = (0, status (provisioning 1 9 none)) ∷ (900, status unknown) ∷ []

wipe_ends_well : poll (with_grace 60 30 10) wipe ≡ some true
unfolding poll with_grace
wipe_ends_well = refl

poll-eq-first_verdict_example : poll (with_grace 60 30 10) wipe ≡ first_verdict 60 30 10 [] wipe
poll-eq-first_verdict_example = poll-eq-first_verdict 60 30 10 wipe

poll-EndsWell_example : EndsWell 30 wipe
poll-EndsWell_example = poll-EndsWell 60 30 10 wipe wipe_ends_well

poll-steady_example :
    (poll (with_grace 60 30 10) (steady unreachable 5 3 22) ≡ some false)
    × (poll (with_grace 60 30 10) (steady (status idle) 5 3 22) ≡ some true)
    × (poll (with_grace 60 30 10) (steady (status (error (codes "x"))) 5 3 22) ≡ some false)
poll-steady_example =
    poll-steady 60 30 10 5 3 21 (codes "x") (omega arith) (omega arith) (omega arith)
