-- ===== src/Launch/Laws.antt =====
-- What a passed launch assertion rests on.
use seismic.Prelude.{
  ℕ, ◌+◌, ◌≡◌, ◌⊎◌, inl, inr, Bool, true, false, ◌||◌, Option, some, List, [], ◌∷◌, arith, ok, All,
  All-imp, any, is_empty, if◌then◌else◌, leb, Bool-cases, Option-cases,
}
use seismic.Prelude.Text.{Text, text_eq, text_eq_iff}
use seismic.Prelude.Map.{Map, lookup, insert, contains_key, lookup-insert, lookup-All}
use seismic.Json.{Json}
use seismic.Launch.{
  LaunchTarget, fetch_block0_hash, Pass, probe, pending, mismatch, is_provisioning, finish, paused,
  assert_cohort_genesis_hash,
}

-- A target of that name answered with this hash of block 0.
abbrev pub ServedBy : (LaunchTarget → Option Json) → List LaunchTarget → Text → Text → Type 0
ServedBy block [] name hash = ⊥
ServedBy block (t ∷ targets) name hash =
    ((text_eq t.name name ≡ true) × (fetch_block0_hash (block t) ≡ some hash))
    ⊎ ServedBy block targets name hash

-- It did so in some pass.
abbrev pub Served : List Pass → List LaunchTarget → Text → Text → Type 0
Served [] targets name hash = ⊥
Served (p ∷ passes) targets name hash =
    ServedBy p.block targets name hash ⊎ Served passes targets name hash

probe-ServedBy :
    (block : LaunchTarget → Option Json) (targets : List LaunchTarget) (observed : Map Text)
    (name hash : Text)
    → lookup name (probe block targets observed) ≡ some hash
    → (lookup name observed ≡ some hash) ⊎ ServedBy block targets name hash
unfolding probe
probe-ServedBy block [] observed name hash h = inl h
probe-ServedBy block (t ∷ targets) observed name hash h =
    elim (Bool-cases (contains_key t.name observed)) [
      | inl known ↦ elim (probe-ServedBy block targets observed name hash (ground arith)) [
        | inl old ↦ inl old
        | inr new ↦ inr (inr new)
      ]
      | inr open_name ↦ elim (Option-cases (fetch_block0_hash (block t))) [
        | inl silent ↦ elim (probe-ServedBy block targets observed name hash (ground arith)) [
          | inl old ↦ inl old
          | inr new ↦ inr (inr new)
        ]
        | inr (served, e) ↦
            elim (probe-ServedBy block targets (insert t.name served observed) name hash
              (ground arith)) [
                | inr new ↦ inr (inr new)
                | inl now ↦ elim (Bool-cases (text_eq t.name name)) [
                  | inl same ↦
                      inr (inl (same, ground (arith, lookup-insert t.name name served observed)))
                  | inr other ↦ inl (ground (arith, lookup-insert t.name name served observed))
                ]
              ]
      ]
    ]

pending-nil :
    (targets : List LaunchTarget) (observed : Map Text)
    → is_empty (pending targets observed) ≡ true
    → All (λ (t : LaunchTarget). contains_key t.name observed ≡ true) targets
unfolding pending
pending-nil [] observed h = tt
pending-nil (t ∷ targets) observed h = (ground arith, pending-nil targets observed (ground arith))

mismatch-eq-false :
    (expected : Text) (observed : Map Text)
    → mismatch expected observed ≡ false
    → All (λ e. e.1 ≡ expected) observed
unfolding mismatch
mismatch-eq-false expected [] h = tt
mismatch-eq-false expected ((name, hash) ∷ observed) h = (
  (text_eq_iff hash expected).0 (ground arith),
  mismatch-eq-false expected observed (ground arith),
)

finish-eq-ok :
    (expected : Text) (targets : List LaunchTarget) (observed : Map Text)
    → finish expected targets observed ≡ ok tt
    → All (λ (t : LaunchTarget). lookup t.name observed ≡ some expected) targets
unfolding finish
finish-eq-ok expected targets observed h =
    let right = mismatch-eq-false expected observed (ground arith) in
    All-imp _ _ (λ t k. known t.name right k) targets (pending-nil targets observed (ground arith))
  where
    known :
        (name : Text)
        → All (λ e. e.1 ≡ expected) observed
        → contains_key name observed ≡ true
        → lookup name observed ≡ some expected
    known name right k = elim (Option-cases (lookup name observed)) [
      | inl missing ↦ absurd (ground arith)
      | inr (hash, e) ↦
          let same : hash ≡ expected =
            lookup-All (λ e. e.1 ≡ expected) name hash observed right e in
          ground arith
    ]

genesis-Served :
    (expected : Text) (targets : List LaunchTarget) (passes : List Pass) (deadline : ℕ)
    (active : Bool) (observed : Map Text)
    → assert_cohort_genesis_hash expected targets passes deadline active observed ≡ some (ok tt)
    → All
        (λ (t : LaunchTarget).
          (lookup t.name observed ≡ some expected) ⊎ Served passes targets t.name expected)
        targets
unfolding assert_cohort_genesis_hash
genesis-Served expected targets [] deadline active observed h = absurd (ground arith)
genesis-Served expected targets (p ∷ passes) deadline active observed h =
    let observed' = probe p.block targets observed in
    let provisions = any (λ t. is_provisioning (p.status t)) (pending targets observed') in
    let deadline' = paused active provisions deadline p in
    elim (Bool-cases (mismatch expected observed' || is_empty (pending targets observed'))) [
      | inl over ↦
          All-imp _ _ (λ t k. here t.name k) targets
            (finish-eq-ok expected targets observed' (ground arith))
      | inr going ↦ elim (Bool-cases (leb deadline' p.now)) [
        | inl late ↦
            All-imp _ _ (λ t k. here t.name k) targets
              (finish-eq-ok expected targets observed' (ground arith))
        | inr more ↦
            All-imp _ _ (λ t k. later t.name k) targets
              (genesis-Served expected targets passes
                (if provisions then deadline' + p.slept else deadline') provisions observed'
                (ground arith))
      ]
    ]
  where
    here :
        (name : Text)
        → lookup name (probe p.block targets observed) ≡ some expected
        → (lookup name observed ≡ some expected) ⊎ Served (p ∷ passes) targets name expected
    here name k = elim (probe-ServedBy p.block targets observed name expected k) [
      | inl old ↦ inl old
      | inr new ↦ inr (inl new)
    ]

    later :
        (name : Text)
        → (lookup name (probe p.block targets observed) ≡ some expected)
          ⊎ Served passes targets name expected
        → (lookup name observed ≡ some expected) ⊎ Served (p ∷ passes) targets name expected
    later name (inl k) = here name k
    later name (inr s) = inr (inr s)

-- The assertion passes only if every node of the cohort was seen serving the expected hash as block 0,
-- each in some pass.
pub assert_cohort_genesis_hash-Served :
    (expected : Text) (targets : List LaunchTarget) (passes : List Pass) (deadline : ℕ)
    → assert_cohort_genesis_hash expected targets passes deadline false [] ≡ some (ok tt)
    → All (λ (t : LaunchTarget). Served passes targets t.name expected) targets
assert_cohort_genesis_hash-Served expected targets passes deadline h =
    All-imp _ _ (λ t k. new t.name k) targets
      (genesis-Served expected targets passes deadline false [] h)
  where
    new :
        (name : Text)
        → (lookup name [] ≡ some expected) ⊎ Served passes targets name expected
        → Served passes targets name expected
    new name (inl k) = absurd (unfold lookup in ground arith)
    new name (inr s) = s
