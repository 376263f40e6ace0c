-- ===== src/Bootnodes/Ends.antt =====
-- The collection of the enodes ends.
use seismic.Prelude.{ℕ, ◌≤◌, ◌≢◌, ◌⊎◌, inl, inr, none, List, [], ◌∷◌, arith, Result-cases}
use seismic.Prelude.Text.{Text}
use seismic.Prelude.Map.{Map}
use seismic.Bootnodes.{Round, sweep, collect_enodes}

-- Some pass is over at the deadline or later.
abbrev pub IsLate : ℕ → List Round → Type 0
IsLate deadline [] = ⊥
IsLate deadline (r ∷ rounds) = (deadline ≤ r.now) ⊎ IsLate deadline rounds

-- The collection of the enodes ends, with one outcome or another, once a pass is over at the deadline
-- or later.
pub collect_enodes_ends :
    (deadline : ℕ) (labels : List Text) (rounds : List Round) (enodes : Map Text)
    → IsLate deadline rounds
    → collect_enodes deadline labels rounds enodes ≢ none
unfolding collect_enodes
collect_enodes_ends deadline labels [] enodes late e = absurd late
collect_enodes_ends deadline labels (r ∷ rounds) enodes (inl now) e =
    elim (Result-cases (sweep r.result labels enodes)) [
      | inl (enodes', swept) ↦ ground arith
      | inr (x, failed) ↦ ground arith
    ]
collect_enodes_ends deadline labels (r ∷ rounds) enodes (inr later) e =
    elim (Result-cases (sweep r.result labels enodes)) [
      | inl (enodes', swept) ↦
          ground (arith, collect_enodes_ends deadline labels rounds enodes' later)
      | inr (x, failed) ↦ ground arith
    ]
