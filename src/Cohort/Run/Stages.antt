-- ===== src/Cohort/Run/Stages.antt =====
-- What the run reports, writes and hands to the joiners.
use seismic.Prelude.{
  ℕ, ◌≡◌, ◌↔◌, ◌⊎◌, inl, inr, refl, Bool, true, some, List, [], ◌∷◌, arith, All, ok, err, is_empty,
  map, Bool-cases, Option-cases,
}
use seismic.Prelude.Text.{Text}
use seismic.Prelude.Map.{Map, lookup}
use seismic.Bootnodes
use seismic.Bootnodes.{Bootnode, EnodesError, collect_enodes}
use seismic.Cohort.{Node}
use seismic.Cohort.Run.{
  Event, made_it, run_cohort, failed, bootnode_set, persist_founding_bootnodes, report,
  bootstrap_greenfield, after_genesis, stage_two, with_bootnodes, enode_of, Bootstrap,
}

abbrev pub AllMadeIt : List Node → Map Bool → Type 0
AllMadeIt nodes results = All (λ (n : Node). made_it results n.name ≡ true) nodes

failed_iff :
    (nodes : List Node) (results : Map Bool)
    → (is_empty (failed nodes results) ≡ true) ↔ AllMadeIt nodes results
unfolding failed
failed_iff [] results = (λ h. tt, λ h. refl)
failed_iff (n ∷ nodes) results =
    let (to, from) = failed_iff nodes results in
    elim (Bool-cases (made_it results n.name)) [
      | inl made ↦ (λ h. (made, to (ground arith)), λ h. ground (arith, from h.1))
      | inr lost ↦ (λ h. absurd (ground arith), λ h. absurd (ground (arith, h.0)))
    ]

-- The run reports success exactly when every node of the cohort made it.
pub report_iff :
    (nodes : List Node) (results : Map Bool)
    → (report nodes results ≡ ok tt) ↔ AllMadeIt nodes results
unfolding report
report_iff nodes results =
    let (to, from) = failed_iff nodes results in
    (λ h. to (ground arith), λ h. ground (arith, from h))

bootnode_set-lookup :
    (nodes : List Node) (enodes : Map Text) (set : List Bootnode)
    → bootnode_set nodes enodes ≡ some set
    → (map (λ (b : Bootnode). b.name) set ≡ map (λ (n : Node). n.name) nodes)
      × All (λ (b : Bootnode). lookup b.name enodes ≡ some b.enode) set
unfolding bootnode_set
bootnode_set-lookup [] enodes set h = let e : set ≡ [] = ground arith in rw e (refl, tt)
bootnode_set-lookup (n ∷ nodes) enodes set h = elim (Option-cases (lookup n.name enodes)) [
  | inl gone ↦ absurd (ground arith)
  | inr (enode, found) ↦ elim (Option-cases (bootnode_set nodes enodes)) [
    | inl gone ↦ absurd (ground arith)
    | inr (rest, e) ↦
        let same : set ≡ record { name = n.name; enode = enode } ∷ rest = ground arith in
        let (named, each) = bootnode_set-lookup nodes enodes rest e in
        rw same (ground arith, (found, each))
  ]
]

-- A founding set of bootnodes is given to be written only after every node of the cohort made it and
-- every enode was collected; it then holds all the nodes in the cohort's order, each with the enode
-- collected for it.
pub persist_founding_bootnodes-AllMadeIt :
    (nodes : List Node) (results : Map Bool) (deadline : ℕ) (rounds : List Bootnodes.Round)
    (set : List Bootnode)
    → persist_founding_bootnodes nodes results deadline rounds ≡ some set
    → AllMadeIt nodes results
      × (map (λ (b : Bootnode). b.name) set ≡ map (λ (n : Node). n.name) nodes)
      × ((enodes : Map Text) × (collect_enodes deadline (map (λ (n : Node). n.name) nodes) rounds []
            ≡ some (ok enodes))
          × All (λ (b : Bootnode). lookup b.name enodes ≡ some b.enode) set)
unfolding persist_founding_bootnodes
persist_founding_bootnodes-AllMadeIt nodes results deadline rounds set h =
    let all_made : is_empty (failed nodes results) ≡ true = ground arith in
    elim (Option-cases (collect_enodes deadline (map (λ (n : Node). n.name) nodes) rounds [])) [
      | inl going ↦ absurd (ground arith)
      | inr (err e, lost) ↦ absurd (ground arith)
      | inr (ok enodes, had) ↦
          let (named, each) = bootnode_set-lookup nodes enodes set (ground arith) in
          ((failed_iff nodes results).0 all_made, named, (enodes, had, each))
    ]

abbrev pub as_genesis : Node → Node
as_genesis node = record node { bootnodes = [] }

-- The joiners were started, and what held by then.
abbrev pub IsStaged :
    Node → List Node → ℕ → List Event → List Bootnodes.Round → List (List Node) → Type 0
IsStaged node joiners deadline first rounds started =
    (results : Map Bool) × (enode : Text) × (run_cohort (as_genesis node ∷ []) first
      ≡ some (ok results))
    × (made_it results node.name ≡ true)
    × (enode_of node.name (collect_enodes deadline (node.name ∷ []) rounds []) ≡ some (ok enode))
    × (started ≡ (as_genesis node ∷ []) ∷ with_bootnodes (enode ∷ []) joiners ∷ [])

-- A founding starts the genesis node alone and without bootnodes. The joiners are started, if at
-- all, in one second run after the genesis node made it and its enode was collected, and each of
-- them is given that enode as its only bootnode.
pub bootstrap_greenfield-IsStaged :
    (node : Node) (joiners : List Node) (deadline : ℕ) (first : List Event)
    (rounds : List Bootnodes.Round) (second : List Event) (b : Bootstrap)
    → bootstrap_greenfield node joiners deadline first rounds second ≡ b
    → (b.started ≡ (as_genesis node ∷ []) ∷ [])
      ⊎ IsStaged node joiners deadline first rounds b.started
unfolding bootstrap_greenfield after_genesis stage_two
bootstrap_greenfield-IsStaged node joiners deadline first rounds second b h =
    elim (Option-cases (run_cohort (as_genesis node ∷ []) first)) [
      | inl going ↦ inl (ground arith)
      | inr (err e, stopped) ↦ inl (ground arith)
      | inr (ok results, ended) ↦ elim (Bool-cases (made_it results node.name)) [
        | inr lost ↦ inl (ground arith)
        | inl made ↦ elim (Bool-cases (is_empty joiners)) [
          | inl alone ↦ inl (ground arith)
          | inr more ↦
              elim (Option-cases
                (enode_of node.name (collect_enodes deadline (node.name ∷ []) rounds []))) [
                  | inl going ↦ inl (ground arith)
                  | inr (err e, lost) ↦ inl (ground arith)
                  | inr (ok enode, had) ↦ inr (results, enode, ended, made, had, ground arith)
                ]
        ]
      ]
    ]
