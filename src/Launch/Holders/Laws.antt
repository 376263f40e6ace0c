-- ===== src/Launch/Holders/Laws.antt =====
-- What the assertion on the holders' keys rests on, and that it ends.
use seismic.Prelude.{
  ℕ, ◌≤◌, ◌≡◌, ◌≢◌, sym, ap, ap₂, ◌∙◌, ◌⊎◌, inl, inr, true, ◌&&◌, none, some, List, [], ◌∷◌, arith,
  ok, >>=-eq-ok, All, All-imp, is_empty, leb, Bool-cases, Result-cases,
}
use seismic.Prelude.Text.{Text, text_eq, text_eq_iff}
use seismic.Prelude.Map.{Map, lookup, contains_key, lookup-insert}
use seismic.Launch.{LaunchTarget}
use seismic.Launch.Holders.{
  Reply, fetch_holder_keys, retry, malformed, Seen, note_keys, poll_holder, poll_all, unmatched,
  Round, assert_cohort_holder_keys, nothing_seen,
}

-- The holder of a target of that name served exactly the target's pinned keys.
abbrev pub ServesPinned : (LaunchTarget → Reply) → List LaunchTarget → Text → Type 0
ServesPinned reply [] name = ⊥
ServesPinned reply (t ∷ targets) name =
    ((text_eq t.name name ≡ true)
      × (fetch_holder_keys (reply t) ≡ ok (t.node_public_key, t.consensus_public_key)))
    ⊎ ServesPinned reply targets name

-- It did so in some pass.
abbrev pub ServedPinned : List Round → List LaunchTarget → Text → Type 0
ServedPinned [] targets name = ⊥
ServedPinned (r ∷ rounds) targets name =
    ServesPinned r.reply targets name ⊎ ServedPinned rounds targets name

-- Some pass is over at the deadline or later.
abbrev pub IsLate : ℕ → List Round → Type 0
IsLate deadline [] = ⊥
IsLate deadline (r ∷ rounds) = (deadline ≤ r.now) ⊎ IsLate deadline rounds

note_keys-matched :
    (t : LaunchTarget) (node consensus : Text) (s : Seen) (name : Text)
    → contains_key name (note_keys t (node, consensus) s).matched ≡ true
    → (contains_key name s.matched ≡ true)
      ⊎ ((text_eq t.name name ≡ true)
          × (node ≡ t.node_public_key)
          × (consensus ≡ t.consensus_public_key))
unfolding note_keys
note_keys-matched t node consensus s name h =
    elim (Bool-cases (text_eq node t.node_public_key && text_eq consensus t.consensus_public_key)) [
      | inr differ ↦ inl (ground arith)
      | inl agree ↦ elim (Bool-cases (text_eq t.name name)) [
        | inl same ↦ inr (
          same,
          (text_eq_iff node t.node_public_key).0 (ground arith),
          (text_eq_iff consensus t.consensus_public_key).0 (ground arith),
        )
        | inr other ↦ inl (ground (arith, lookup-insert t.name name tt s.matched))
      ]
    ]

poll_holder-matched :
    (reply : LaunchTarget → Reply) (t : LaunchTarget) (s s' : Seen) (name : Text)
    → poll_holder reply t s ≡ ok s'
    → contains_key name s'.matched ≡ true
    → (contains_key name s.matched ≡ true) ⊎ ServesPinned reply (t ∷ []) name
unfolding poll_holder
poll_holder-matched reply t s s' name h k = elim (Bool-cases (contains_key t.name s.matched)) [
  | inl known ↦ inl (ground arith)
  | inr fresh ↦ elim (Result-cases (fetch_holder_keys (reply t))) [
    | inr (retry, e) ↦ inl (ground arith)
    | inr (malformed, e) ↦ absurd (ground arith)
    | inl ((node, consensus), e) ↦
        let same : s' ≡ note_keys t (node, consensus) s = ground arith in
        elim (note_keys-matched t node consensus s name
          (ap (λ (x : Seen). contains_key name x.matched) (sym same) ∙ k)) [
            | inl old ↦ inl old
            | inr (at, a, b) ↦ inr (inl (at, e ∙ ap₂ (λ x y. ok (x, y)) a b))
          ]
  ]
]

poll_all-matched :
    (reply : LaunchTarget → Reply) (targets : List LaunchTarget) (s s' : Seen) (name : Text)
    → poll_all reply targets s ≡ ok s'
    → contains_key name s'.matched ≡ true
    → (contains_key name s.matched ≡ true) ⊎ ServesPinned reply targets name
unfolding poll_all
poll_all-matched reply [] s s' name h k = inl (ground arith)
poll_all-matched reply (t ∷ targets) s s' name h k =
    let (s₁, e, h₁) = >>=-eq-ok (poll_holder reply t s) _ h in
    elim (poll_all-matched reply targets s₁ s' name h₁ k) [
      | inr later ↦ inr (inr later)
      | inl now ↦ elim (poll_holder-matched reply t s s₁ name e now) [
        | inl old ↦ inl old
        | inr (inl here) ↦ inr (inl here)
        | inr (inr n) ↦ absurd n
      ]
    ]

unmatched-nil :
    (targets : List LaunchTarget) (matched : Map (Unit {0}))
    → is_empty (unmatched targets matched) ≡ true
    → All (λ (t : LaunchTarget). contains_key t.name matched ≡ true) targets
unfolding unmatched
unmatched-nil [] matched h = tt
unmatched-nil (t ∷ targets) matched h = (ground arith, unmatched-nil targets matched (ground arith))

holders-ServedPinned :
    (deadline : ℕ) (targets : List LaunchTarget) (rounds : List Round) (s : Seen)
    → assert_cohort_holder_keys deadline targets rounds s ≡ some (ok tt)
    → All
        (λ (t : LaunchTarget).
          (contains_key t.name s.matched ≡ true) ⊎ ServedPinned rounds targets t.name)
        targets
unfolding assert_cohort_holder_keys
holders-ServedPinned deadline targets [] s h = absurd (ground arith)
holders-ServedPinned deadline targets (r ∷ rounds) s h =
    elim (Result-cases (poll_all r.reply targets s)) [
      | inr (e, failed) ↦ absurd (ground arith)
      | inl (s', polled) ↦ elim (Bool-cases (is_empty (unmatched targets s'.matched))) [
        | inl done ↦
            All-imp _ _ (λ t k. now s' polled t.name k) targets
              (unmatched-nil targets s'.matched done)
        | inr waiting ↦ elim (Bool-cases (leb deadline r.now)) [
          | inl late ↦ absurd (ground arith)
          | inr early ↦
              All-imp _ _ (λ t k. later s' polled t.name k) targets
                (holders-ServedPinned deadline targets rounds s' (ground arith))
        ]
      ]
    ]
  where
    now :
        (s' : Seen)
        → poll_all r.reply targets s ≡ ok s'
        → (name : Text) → contains_key name s'.matched ≡ true
        → (contains_key name s.matched ≡ true) ⊎ ServedPinned (r ∷ rounds) targets name
    now s' polled name k = elim (poll_all-matched r.reply targets s s' name polled k) [
      | inl old ↦ inl old
      | inr new ↦ inr (inl new)
    ]

    later :
        (s' : Seen)
        → poll_all r.reply targets s ≡ ok s'
        → (name : Text) → (contains_key name s'.matched ≡ true) ⊎ ServedPinned rounds targets name
        → (contains_key name s.matched ≡ true) ⊎ ServedPinned (r ∷ rounds) targets name
    later s' polled name (inl k) = now s' polled name k
    later s' polled name (inr k) = inr (inr k)

-- The assertion passes only if the holder of every node of the cohort was seen serving exactly the keys
-- pinned for the node, each in some pass.
pub assert_cohort_holder_keys-ServedPinned :
    (deadline : ℕ) (targets : List LaunchTarget) (rounds : List Round)
    → assert_cohort_holder_keys deadline targets rounds nothing_seen ≡ some (ok tt)
    → All (λ (t : LaunchTarget). ServedPinned rounds targets t.name) targets
assert_cohort_holder_keys-ServedPinned deadline targets rounds h =
    All-imp _ _ (λ t k. new t.name k) targets
      (holders-ServedPinned deadline targets rounds nothing_seen h)
  where
    new :
        (name : Text)
        → (contains_key name nothing_seen.matched ≡ true) ⊎ ServedPinned rounds targets name
        → ServedPinned rounds targets name
    new name (inl k) = absurd (unfold lookup in ground arith)
    new name (inr k) = k

-- The assertion ends, passed or failed, once a pass is over at the deadline or later.
pub assert_cohort_holder_keys_ends :
    (deadline : ℕ) (targets : List LaunchTarget) (rounds : List Round) (s : Seen)
    → IsLate deadline rounds
    → assert_cohort_holder_keys deadline targets rounds s ≢ none
unfolding assert_cohort_holder_keys
assert_cohort_holder_keys_ends deadline targets [] s late e = absurd late
assert_cohort_holder_keys_ends deadline targets (r ∷ rounds) s (inl now) e =
    elim (Result-cases (poll_all r.reply targets s)) [
      | inl (s', polled) ↦ ground arith
      | inr (x, failed) ↦ ground arith
    ]
assert_cohort_holder_keys_ends deadline targets (r ∷ rounds) s (inr later) e =
    elim (Result-cases (poll_all r.reply targets s)) [
      | inl (s', polled) ↦
          ground (arith, assert_cohort_holder_keys_ends deadline targets rounds s' later)
      | inr (x, failed) ↦ ground arith
    ]
