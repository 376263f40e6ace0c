-- ===== src/Launch/Pause.antt =====
-- A node that is provisioning its disk pauses the timeout of the launch assertion.
use mathlib.Core.List.{Memᴰ}
use seismic.Prelude.{
  ℕ, ◌+◌, ◌-◌, ◌≤◌, ◌<◌, ◌≡◌, refl, ◌⊎◌, inl, inr, Bool, true, false, none, some, List, [], ◌∷◌,
  arith, All, any, is_empty, leb, Bool-cases,
}
use seismic.Prelude.Text.{Text, text_eq, text_eq_iff}
use seismic.Prelude.Map.{Map, lookup, insert, contains_key, lookup-insert, insert-All}
use seismic.Launch.{
  LaunchTarget, fetch_block0_hash, Pass, probe, pending, mismatch, is_provisioning, paused,
  assert_cohort_genesis_hash,
}

-- A target answers with the expected hash, under another name than `name`, or not at all.
abbrev pub IsQuiet : Text → Text → Pass → LaunchTarget → Type 0
IsQuiet expected name p u =
    (fetch_block0_hash (p.block u) ≡ none)
    ⊎ ((fetch_block0_hash (p.block u) ≡ some expected) × (text_eq u.name name ≡ false))

-- In the pass, `t` is provisioning, nobody answers for it, and no answer is wrong.
abbrev pub IsWiping : Text → List LaunchTarget → LaunchTarget → Pass → Type 0
IsWiping expected targets t p =
    (is_provisioning (p.status t) ≡ true) × All (IsQuiet expected t.name p) targets

-- The instants of the passes follow each other, and the time between passes, from the end of the one
-- before (`end` for the first) to the beginning of the next, is at most `slack` in all.
abbrev pub IsClocked : ℕ → ℕ → List Pass → Type 0
IsClocked end slack [] = Unit {0}
IsClocked end slack (p ∷ passes) =
    (end ≤ p.began)
    × (p.began ≤ end + slack)
    × (p.began ≤ p.probed)
    × (p.probed ≤ p.now)
    × IsClocked (p.now + p.slept) (slack - (p.began - end)) passes

IsRight : Text → Map Text → Type 0
IsRight expected observed = All (λ e. e.1 ≡ expected) observed

probe-IsQuiet :
    (expected name : Text) (p : Pass) (targets : List LaunchTarget) (observed : Map Text)
    → All (IsQuiet expected name p) targets
    → lookup name observed ≡ none
    → IsRight expected observed
    → (lookup name (probe p.block targets observed) ≡ none)
      × IsRight expected (probe p.block targets observed)
unfolding probe IsRight
probe-IsQuiet expected name p [] observed q n r = (n, r)
probe-IsQuiet expected name p (u ∷ targets) observed q n r =
    elim (Bool-cases (contains_key u.name observed)) [
      | inl known ↦ rw known (probe-IsQuiet expected name p targets observed q.1 n r)
      | inr fresh ↦ elim q.0 [
        | inl silent ↦ rw (fresh, silent) (probe-IsQuiet expected name p targets observed q.1 n r)
        | inr (served, apart) ↦
            rw (fresh, served)
              (probe-IsQuiet expected name p targets (insert u.name expected observed) q.1
                (ground (arith, lookup-insert u.name name expected observed))
                (insert-All (λ e. e.1 ≡ expected) u.name expected observed refl r))
      ]
    ]

IsRight-mismatch :
    (expected : Text) (observed : Map Text)
    → IsRight expected observed
    → mismatch expected observed ≡ false
unfolding mismatch IsRight
IsRight-mismatch expected [] r = refl
IsRight-mismatch expected ((name, hash) ∷ observed) r =
    ground (arith, (text_eq_iff hash expected).1 r.0, IsRight-mismatch expected observed r.1)

pending-provisions :
    (p : Pass) (t : LaunchTarget) (targets : List LaunchTarget) (observed : Map Text)
    → Memᴰ t targets
    → lookup t.name observed ≡ none
    → is_provisioning (p.status t) ≡ true
    → (any (λ u. is_provisioning (p.status u)) (pending targets observed) ≡ true)
      × (is_empty (pending targets observed) ≡ false)
unfolding pending
pending-provisions p t [] observed m n w = elim m [ ]
pending-provisions p t (u ∷ targets) observed (Memᴰ.head e) n w =
    let w' : is_provisioning (p.status u) ≡ true = rw (← e) w in
    let n' : lookup u.name observed ≡ none = rw (← e) n in rw (n', w') (refl, refl)
pending-provisions p t (u ∷ targets) observed (Memᴰ.tail m) n w =
    let (some_one, open_list) = pending-provisions p t targets observed m n w in
    elim (Bool-cases (contains_key u.name observed)) [
      | inl known ↦ rw known (some_one, open_list)
      | inr fresh ↦ rw fresh (ground arith, refl)
    ]

module _ (expected : Text) (targets : List LaunchTarget) (t : LaunchTarget) where
  wiping-none :
      (passes : List Pass) (deadline end slack : ℕ) (active : Bool) (observed : Map Text)
      → Memᴰ t targets
      → All (IsWiping expected targets t) passes
      → IsClocked end slack passes
      → end + slack < deadline
      → lookup t.name observed ≡ none
      → IsRight expected observed
      → assert_cohort_genesis_hash expected targets passes deadline active observed ≡ none
  unfolding assert_cohort_genesis_hash
  wiping-none [] deadline end slack active observed m w c d n r = refl
  wiping-none (p ∷ passes) deadline end slack active observed m w c d n r =
      let (n', r') = probe-IsQuiet expected t.name p targets observed w.0.1 n r in
      let (provisions, waiting) =
        pending-provisions p t targets (probe p.block targets observed) m n' w.0.0 in
      let right = IsRight-mismatch expected (probe p.block targets observed) r' in
      let ahead : p.now + (slack - (p.began - end)) < paused active true deadline p =
        (unfold paused in ground (arith, c.0, c.1, c.2, c.3)) in
      let on_time : leb (paused active true deadline p) p.now ≡ false = ground arith in
      rw (right, waiting, provisions, on_time)
        (wiping-none passes (paused active true deadline p + p.slept) (p.now + p.slept)
          (slack - (p.began - end)) true (probe p.block targets observed) m w.1 c.4
          (omega (arith, ahead)) n' r')

  -- The assertion does not time out while a node is provisioning its disk, however long that takes:
  -- with one target that is seen provisioning and for which nobody answers in any pass, no wrong
  -- answer, and the time between the passes in all less than what was left until the deadline, the
  -- loop goes on.
  pub assert_cohort_genesis_hash-IsWiping :
      (passes : List Pass) (deadline start slack : ℕ)
      → Memᴰ t targets
      → All (IsWiping expected targets t) passes
      → IsClocked start slack passes
      → start + slack < deadline
      → assert_cohort_genesis_hash expected targets passes deadline false [] ≡ none
  unfolding IsRight lookup
  assert_cohort_genesis_hash-IsWiping passes deadline start slack m w c d =
      wiping-none passes deadline start slack false [] m w c d refl tt
