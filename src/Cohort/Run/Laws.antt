-- ===== src/Cohort/Run/Laws.antt =====
-- Where the results of a run over the cohort come from.
use seismic.Prelude.{
  ℕ, ◌≡◌, ◌≢◌, ◌⊎◌, inl, inr, refl, Bool, true, false, none, some, List, [], ◌∷◌, arith, All,
  All-imp, ok, err, ◌-◌, ◌==◌, leb, length, Bool-cases, Option-cases,
}
use seismic.Prelude.Text.{Text, text_eq, text_eq_iff, text_eq_refl}
use seismic.Prelude.Map.{Map, lookup, insert, lookup-insert}
use seismic.Cohort.{Node}
use seismic.Cohort.Run.{Event, joined, crashed, ctrl_c, made_it, join_all, settle, run_cohort}

-- The task of this name ended well.
abbrev pub JoinedWell : Text → List Event → Type 0
JoinedWell name [] = ⊥
JoinedWell name (joined other b ∷ events) =
    ((text_eq other name ≡ true) × (b ≡ true)) ⊎ JoinedWell name events
JoinedWell name (crashed ∷ events) = JoinedWell name events
JoinedWell name (ctrl_c ∷ events) = JoinedWell name events

-- A result that says the node made it comes from its task.
join_all-JoinedWell :
    (want running : ℕ) (events : List Event) (before results : Map Bool) (name : Text)
    → join_all want running events before ≡ some (ok results)
    → made_it results name ≡ true
    → (made_it before name ≡ true) ⊎ JoinedWell name events
unfolding join_all
join_all-JoinedWell want running [] before results name h m = inl (ground arith)
join_all-JoinedWell want running (joined other b ∷ events) before results name h m =
    elim (Bool-cases (leb want (length before))) [
      | inl full ↦ inl (ground arith)
      | inr going ↦ elim (Bool-cases (running - 1 == 0)) [
        | inl last ↦ new (let e : results ≡ insert other b before = ground arith in rw (← e) m)
        | inr more ↦
            elim (join_all-JoinedWell want (running - 1) events (insert other b before) results name
              (ground arith) m) [ inl old ↦ new old | inr well ↦ inr (inr well) ]
      ]
    ]
  where
    new :
        made_it (insert other b before) name ≡ true
        → (made_it before name ≡ true) ⊎ JoinedWell name (joined other b ∷ events)
    new k = elim (Bool-cases (text_eq other name)) [
      | inl same ↦ inr (inl (same, ground (arith, lookup-insert other name b before)))
      | inr apart ↦ inl (ground (arith, lookup-insert other name b before))
    ]
join_all-JoinedWell want running (crashed ∷ events) before results name h m =
    elim (Bool-cases (leb want (length before))) [
      | inl full ↦ inl (ground arith)
      | inr going ↦ elim (Bool-cases (running - 1 == 0)) [
        | inl last ↦ inl (ground arith)
        | inr more ↦
            join_all-JoinedWell want (running - 1) events before results name (ground arith) m
      ]
    ]
join_all-JoinedWell want running (ctrl_c ∷ events) before results name h m = inl (ground arith)

settle-made_it :
    (nodes : List Node) (results : Map Bool) (name : Text)
    → made_it (settle nodes results) name ≡ made_it results name
unfolding settle
settle-made_it [] results name = refl
settle-made_it (n ∷ nodes) results name = elim (Bool-cases (made_it results n.name)) [
  | inl made ↦ rw made (settle-made_it nodes results name)
  | inr lost ↦ rw lost (
      ground (
        arith,
        settle-made_it nodes (insert n.name false results) name,
        lookup-insert n.name name false results,
        text_eq_iff n.name name,
      ))
]

settle_keeps :
    (nodes : List Node) (results : Map Bool) (name : Text)
    → lookup name results ≢ none
    → lookup name (settle nodes results) ≢ none
unfolding settle
settle_keeps [] results name h = h
settle_keeps (n ∷ nodes) results name h = elim (Bool-cases (made_it results n.name)) [
  | inl made ↦ rw made (settle_keeps nodes results name h)
  | inr lost ↦ rw lost (
      settle_keeps nodes (insert n.name false results) name
        (λ e. ground (arith, lookup-insert n.name name false results)))
]

settle_covers :
    (nodes : List Node) (before after : Map Bool)
    → settle nodes before ≡ after
    → All (λ (n : Node). lookup n.name after ≢ none) nodes
unfolding settle
settle_covers [] before after h = tt
settle_covers (n ∷ nodes) before after h = elim (Bool-cases (made_it before n.name)) [
  | inl made ↦
      let rest : settle nodes before ≡ after = ground arith in
      (
        rw (← rest) (settle_keeps nodes before n.name (λ e. ground arith)),
        settle_covers nodes before after rest,
      )
  | inr lost ↦
      let rest : settle nodes (insert n.name false before) ≡ after = ground arith in
      (
        rw (← rest) (
            settle_keeps nodes (insert n.name false before) n.name
              (λ e. ground (arith, lookup-insert n.name n.name false before, text_eq_refl n.name))),
        settle_covers nodes (insert n.name false before) after rest,
      )
]

-- A run that ends without the signal to stop has a result for every node of the cohort: failed, or
-- made it, and the latter only for a node whose task ended well.
pub run_cohort-JoinedWell :
    (nodes : List Node) (events : List Event) (results : Map Bool)
    → run_cohort nodes events ≡ some (ok results)
    → All
        (λ (n : Node).
          (lookup n.name results ≡ some false)
          ⊎ ((lookup n.name results ≡ some true) × JoinedWell n.name events))
        nodes
unfolding run_cohort
run_cohort-JoinedWell nodes events results h =
    elim (Option-cases (join_all (length nodes) (length nodes) events [])) [
      | inl going ↦ absurd (ground arith)
      | inr (err e, stopped) ↦ absurd (ground arith)
      | inr (ok raw, ended) ↦
          let same : results ≡ settle nodes raw = ground arith in
          rw same
            (All-imp _ _ (told raw ended) nodes (settle_covers nodes raw (settle nodes raw) refl))
    ]
  where
    told :
        (raw : Map Bool)
        → join_all (length nodes) (length nodes) events [] ≡ some (ok raw)
        → (n : Node) → lookup n.name (settle nodes raw) ≢ none
        → (lookup n.name (settle nodes raw) ≡ some false)
          ⊎ ((lookup n.name (settle nodes raw) ≡ some true) × JoinedWell n.name events)
    told raw ended n there = elim (Option-cases (lookup n.name (settle nodes raw))) [
      | inl gone ↦ absurd (there gone)
      | inr (false, lost) ↦ inl lost
      | inr (true, made) ↦
          let kept : made_it raw n.name ≡ true = ground (arith, settle-made_it nodes raw n.name) in
          elim (join_all-JoinedWell (length nodes) (length nodes) events [] raw n.name ended kept) [
            | inl never ↦ absurd (unfold lookup in ground arith)
            | inr well ↦ inr (made, well)
          ]
    ]
