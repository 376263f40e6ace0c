-- ===== src/Harvest/Run/Outcome.antt =====
-- What the harvest command leaves on the disk, failure or success.
use mathlib.Core.List.{Memᴰ}
use seismic.Prelude.{
  ℕ, ◌≡◌, ◌↔◌, ◌∙◌, ap, ◌⊎◌, inl, inr, Bool, true, false, Option, none, some, List, [], ◌∷◌, arith,
  Result, ok, err, >>=-eq-ok, some_or, some_or-eq-ok, map_err, map_err-eq-ok, All, All-imp,
  is_empty, Result-cases, Option-cases,
}
use seismic.Prelude.Text.{Text, text_eq, text_eq_iff, text_lt_irrefl}
use seismic.Prelude.Map.{Map, lookup, contains_key, IsAbove, IsSorted}
use seismic.Paths.{NetworkDir, is_absolute, input_measurements, founders, harvest_record}
use seismic.Paths.Laws.{harvest_record_inj}
use seismic.Json.{Json}
use seismic.Unique.Laws.{HasDistinctKeys, first_repeated_iff}
use seismic.Harvest.{
  HarvestTarget, Quote, Round, CollectError, collect_quotes, nothing_collected, assert_unique_keys,
}
use seismic.Harvest.Run.{
  Disk, HarvestError, cannot_write, no_measurements, no_founders, collection, repeated_key, names,
  existing, check_overwrite, check_founders, save_harvest, verify_all, prepare, judge, run,
}
use seismic.Harvest.Run.Laws.{save_harvest-eq-err, HasDistinctPaths, save_harvest_written}
use seismic.Harvest.Run.Verified.{Archived, verify_all_lem}

abbrev pub IsRelative : HarvestTarget → Type 0
IsRelative t = is_absolute t.name ≡ false

All-Memᴰ : {A : Type 0} (P : A → Type 0) (a : A) (l : List A) → All P l → Memᴰ a l → P a
All-Memᴰ P a [] h m = elim m [ ]
All-Memᴰ P a (x ∷ l) h (Memᴰ.head e) = rw e h.0
All-Memᴰ P a (x ∷ l) h (Memᴰ.tail m) = All-Memᴰ P a l h.1 m

-- Sorted archives with relative names have different paths.
distinct_paths :
    (dir : NetworkDir) (archives : Map Text)
    → IsSorted archives
    → All (λ e. is_absolute e.0 ≡ false) archives
    → HasDistinctPaths dir archives
distinct_paths dir [] s a = tt
distinct_paths dir ((name, d) ∷ m) s a = (apart m s.0 a.1, distinct_paths dir m s.1 a.1)
  where
    apart :
        (l : Map Text)
        → IsAbove name l
        → All (λ e. is_absolute e.0 ≡ false) l
        → All (λ e. text_eq (harvest_record dir e.0) (harvest_record dir name) ≡ false) l
    apart [] b c = tt
    apart ((k, v) ∷ l) b c = (
      ground (
        arith,
        b.0,
        text_eq_iff (harvest_record dir k) (harvest_record dir name),
        harvest_record_inj dir k name c.0 a.0,
        text_lt_irrefl name,
      ),
      apart l b.1 c.1,
    )

assert_unique_keys_iff :
    (quotes : Map Quote)
    → (assert_unique_keys quotes ≡ ok tt) ↔ (
        HasDistinctKeys (λ q. q.node_public_key) quotes
        × HasDistinctKeys (λ q. q.consensus_public_key) quotes)
unfolding assert_unique_keys
assert_unique_keys_iff quotes =
    let (to, from) = first_repeated_iff (λ (q : Quote). q.node_public_key) quotes in
    let (to', from') = first_repeated_iff (λ (q : Quote). q.consensus_public_key) quotes in
    (λ h. (to (ground arith), to' (ground arith)), λ h. ground (arith, from h.0, from' h.1))

existing-nil :
    (dir : NetworkDir) (targets : List HarvestTarget) (disk : Disk)
    → is_empty (existing dir (names targets) disk) ≡ true
    → All (λ t. lookup (harvest_record dir t.name) disk ≡ none) targets
unfolding existing
existing-nil dir [] disk h = tt
existing-nil dir (t ∷ targets) disk h = (ground arith, existing-nil dir targets disk (ground arith))

module _ (from_slice : Text → Option Json) (can_write : Text → Bool) {Policy : Type 0}
    (promote : Text → Option Policy) (verify : Policy → Json → Option Text) (dir : NetworkDir)
    (targets : List HarvestTarget) (force : Bool) (deadline : ℕ) (rounds : List Round)
    (disk : Disk) where
  prepare-eq-ok :
      (policy : Policy)
      → prepare from_slice can_write promote verify dir targets force disk ≡ ok policy
      → ((raw : Text) × (lookup (input_measurements dir) disk ≡ some raw)
          × (promote raw ≡ some policy))
        × ((force ≡ true) ⊎ (is_empty (existing dir (names targets) disk) ≡ true))
  unfolding prepare check_overwrite
  prepare-eq-ok policy h =
      let (raw, a, h₁) =
        >>=-eq-ok (some_or (lookup (input_measurements dir) disk) no_measurements) _ h in
      let (_, b, h₂) = >>=-eq-ok (some_or (lookup (founders dir) disk) no_founders) _ h₁ in
      let (_, c, h₃) = >>=-eq-ok (check_founders from_slice dir (names targets) disk) _ h₂ in
      let (_, d, h₄) = >>=-eq-ok (check_overwrite dir (names targets) force disk) _ h₃ in
      ((raw, some_or-eq-ok _ _ a, some_or-eq-ok (promote raw) _ h₄), ground arith)

  -- What the command did when it succeeds.
  pub record IsHarvested (disk' : Disk) : Type 0 where
    pub policy : Policy
    pub quotes : Map Quote
    pub archives : Map Text
    pub measurements : Text
    pub measured : lookup (input_measurements dir) disk ≡ some measurements
    pub promoted : promote measurements ≡ some policy
    pub collected : collect_quotes deadline targets rounds nothing_collected ≡ some (ok quotes)
    pub node_keys : HasDistinctKeys (λ (q : Quote). q.node_public_key) quotes
    pub consensus_keys : HasDistinctKeys (λ (q : Quote). q.consensus_public_key) quotes
    pub verified : All (Archived verify policy quotes targets) archives
    pub covered : All (λ t. contains_key t.name archives ≡ true) targets
    pub written : All (λ e. lookup (harvest_record dir e.0) disk' ≡ some e.1) archives
    pub unforced :
        (force ≡ true) ⊎ All (λ t. lookup (harvest_record dir t.name) disk ≡ none) targets

  judge-eq-ok :
      (policy : Policy) (collected : Result CollectError (Map Quote)) (archives : Map Text)
      → judge from_slice can_write promote verify policy targets collected ≡ ok archives
      → (quotes : Map Quote) × (collected ≡ ok quotes)
        × (assert_unique_keys quotes ≡ ok tt)
        × (verify_all verify policy quotes targets [] ≡ ok archives)
  unfolding judge
  judge-eq-ok policy collected archives h =
      let (quotes, a, h₁) = >>=-eq-ok (map_err collection collected) _ h in
      let (_, b, h₂) = >>=-eq-ok (map_err repeated_key (assert_unique_keys quotes)) _ h₁ in
      (quotes, map_err-eq-ok collection collected a, map_err-eq-ok repeated_key _ b, h₂)

  archives_relative :
      (policy : Policy) (quotes : Map Quote) (archives : Map Text)
      → All IsRelative targets
      → All (Archived verify policy quotes targets) archives
      → All (λ e. is_absolute e.0 ≡ false) archives
  archives_relative policy quotes archives r a =
      All-imp (Archived verify policy quotes targets) _
        (λ e x. rw (← x.3) (All-Memᴰ IsRelative x.0 targets r x.2)) archives a

  run_cases :
      (outcome : Result HarvestError Unit) (disk' : Disk)
      → run from_slice can_write promote verify dir targets force deadline rounds disk
        ≡ some (outcome, disk')
      → ((e : HarvestError) × (outcome ≡ err e) × (disk' ≡ disk))
        ⊎ ((policy : Policy) × (quotes : Map Quote) × (archives : Map Text) × (prepare from_slice
                can_write promote verify dir targets force disk
              ≡ ok policy)
            × (collect_quotes deadline targets rounds nothing_collected ≡ some (ok quotes))
            × (assert_unique_keys quotes ≡ ok tt)
            × (verify_all verify policy quotes targets [] ≡ ok archives)
            × (save_harvest can_write dir archives disk ≡ (outcome, disk')))
  unfolding run
  run_cases outcome disk' h =
      elim (Result-cases (prepare from_slice can_write promote verify dir targets force disk)) [
        | inr (e, refused) ↦ inl (e, ground arith, ground arith)
        | inl (policy, prepared) ↦
            elim (Option-cases (collect_quotes deadline targets rounds nothing_collected)) [
              | inl going ↦ absurd (ground arith)
              | inr (collected, ended) ↦
                  elim (Result-cases
                    (judge from_slice can_write promote verify policy targets collected)) [
                      | inr (e, refused) ↦ inl (e, ground arith, ground arith)
                      | inl (archives, judged) ↦
                          let (quotes, got, unique, verified) =
                            judge-eq-ok policy collected archives judged in
                          inr (
                            policy,
                            quotes,
                            archives,
                            prepared,
                            ended ∙ ap some got,
                            unique,
                            verified,
                            ground arith,
                          )
                    ]
            ]
      ]

  -- A harvest that fails leaves the disk as it was, unless what failed is the writing of an archive.
  pub run_failed :
      (e : HarvestError) (disk' : Disk)
      → run from_slice can_write promote verify dir targets force deadline rounds disk
        ≡ some (err e, disk')
      → (disk' ≡ disk) ⊎ ((path : Text) × (e ≡ cannot_write path))
  run_failed e disk' h = elim (run_cases (err e) disk' h) [
    | inl (x, p, same) ↦ inl same
    | inr (policy, quotes, archives, a, b, c, d, saved) ↦
        inr (save_harvest-eq-err can_write dir archives disk disk' e saved)
  ]

  -- A harvest that succeeds, of targets whose names do not start with a slash, has collected a quote
  -- from every target with no key served twice, has verified the record of each target's nonce and
  -- quote against the policy promoted from the measurements, and has left the verifier's archives as
  -- the records on the disk, one for each target; without `force` no record of a target was there before.
  pub run-IsHarvested :
      (disk' : Disk)
      → All IsRelative targets
      → run from_slice can_write promote verify dir targets force deadline rounds disk
        ≡ some (ok tt, disk')
      → IsHarvested disk'
  run-IsHarvested disk' relative h = elim (run_cases (ok tt) disk' h) [
    | inl (x, p, same) ↦ absurd (ground arith)
    | inr (policy, quotes, archives, prepared, ended, unique, verified, saved) ↦
        let ((raw, at, promoted), unforced) = prepare-eq-ok policy prepared in
        let (archived, covered, sorted) =
          verify_all_lem verify policy quotes targets archives verified in
        let (nodes, consensus) = (assert_unique_keys_iff quotes).0 unique in
        record {
          policy = policy;
          quotes = quotes;
          archives = archives;
          measurements = raw;
          measured = at;
          promoted = promoted;
          collected = ended;
          node_keys = nodes;
          consensus_keys = consensus;
          verified = archived;
          covered = covered;
          written =
              save_harvest_written can_write dir archives disk disk'
                (distinct_paths dir archives sorted
                  (archives_relative policy quotes archives relative archived))
                saved;
          unforced = elim unforced [
            | inl forced ↦ inl forced
            | inr clear ↦ inr (existing-nil dir targets disk clear)
          ];
        }
  ]
