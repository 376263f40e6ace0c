-- ===== src/Harvest/Collect/Outcome.antt =====
-- What the collection of the quotes returns, and that it ends.
use mathlib.Core.List.{Memᴰ}
use seismic.Prelude.{
  ℕ, ◌≡◌, ◌≢◌, refl, ◌⊎◌, inl, inr, ◌≤◌, true, false, Option, none, some, List, [], ◌∷◌, map, arith,
  Result, ok, err, All, All-imp, is_empty, leb, Result-cases, Bool-cases,
}
use seismic.Prelude.Text.{Text}
use seismic.Prelude.Map.{Map, lookup}
use seismic.Harvest.{
  HarvestTarget, Quote, FetchError, fetch_quote, Round, RetryCause, CollectError, burned, timed_out,
  Collected, sweep, pending, collect_quotes, nothing_collected,
}
use seismic.Harvest.Collect.{
  Fetched, IsLate, IsFatal, Met, HasQuote, Justified, sweep-All, sweep-eq-err, pending-All,
}

-- How one pass of the loop ends in an outcome `x`.
data Ends (deadline : ℕ) (targets : List HarvestTarget) (r : Round) (rounds : List Round)
    (c : Collected) (x : Result CollectError (Map Quote)) : Type 0 where
  burns :
      (e : CollectError)
      → sweep r.reply targets c ≡ err e
      → x ≡ err e
      → Ends deadline targets r rounds c x
  completes :
      (c' : Collected)
      → sweep r.reply targets c ≡ ok c'
      → is_empty (pending targets c'.quotes) ≡ true
      → x ≡ ok c'.quotes
      → Ends deadline targets r rounds c x
  expires :
      (waiting : List (Text × Option RetryCause))
      → deadline ≤ r.now
      → waiting ≢ []
      → x ≡ err (timed_out waiting)
      → Ends deadline targets r rounds c x
  goes_on :
      (c' : Collected)
      → sweep r.reply targets c ≡ ok c'
      → collect_quotes deadline targets rounds c' ≡ some x
      → Ends deadline targets r rounds c x

map-ne-nil : {A B : Type 0} (f : A → B) (l : List A) → is_empty l ≡ false → map f l ≢ []
map-ne-nil f [] h e = cc
map-ne-nil f (a ∷ l) h e = cc

collect-Ends :
    (deadline : ℕ) (targets : List HarvestTarget) (r : Round) (rounds : List Round) (c : Collected)
    (x : Result CollectError (Map Quote))
    → collect_quotes deadline targets (r ∷ rounds) c ≡ some x
    → Ends deadline targets r rounds c x
unfolding collect_quotes
collect-Ends deadline targets r rounds c x h = elim (Result-cases (sweep r.reply targets c)) [
  | inr (e, failed) ↦ burns e failed (ground arith)
  | inl (c', swept) ↦ elim (Bool-cases (is_empty (pending targets c'.quotes))) [
    | inl done ↦ completes c' swept done (ground arith)
    | inr waiting ↦ elim (Bool-cases (leb deadline r.now)) [
      | inl late ↦
          expires (map (λ name. (name, lookup name c'.last_error)) (pending targets c'.quotes))
            (ground arith) (map-ne-nil _ (pending targets c'.quotes) waiting) (ground arith)
      | inr early ↦ goes_on c' swept (ground arith)
    ]
  ]
]

collect-Fetched :
    (deadline : ℕ) (targets : List HarvestTarget) (rounds : List Round) (P : Text × Quote → Type 0)
    (c : Collected) (quotes : Map Quote)
    → All P c.quotes
    → collect_quotes deadline targets rounds c ≡ some (ok quotes)
    → All (HasQuote quotes) targets × All (λ e. P e ⊎ Fetched targets rounds e) quotes
unfolding collect_quotes
collect-Fetched deadline targets [] P c quotes a h = absurd (ground arith)
collect-Fetched deadline targets (r ∷ rounds) P c quotes a h =
    go (collect-Ends deadline targets r rounds c (ok quotes) h)
      (λ c' b. collect-Fetched deadline targets rounds Q c' quotes b)
  where
    Now : Text × Quote → Type 0
    Now e =
        (t : HarvestTarget) × Memᴰ t targets × (t.name ≡ e.0) × (fetch_quote (r.reply t) ≡ ok e.1)

    Q : Text × Quote → Type 0
    Q e = P e ⊎ Now e

    swept : (c' : Collected) → sweep r.reply targets c ≡ ok c' → All Q c'.quotes
    swept c' =
        sweep-All Q r.reply targets c c' (λ t q m e. inr (t, m, refl, e))
          (All-imp P Q (λ e p. inl p) c.quotes a)

    shift :
        (e : Text × Quote) → Q e ⊎ Fetched targets rounds e → P e ⊎ Fetched targets (r ∷ rounds) e
    shift e (inl (inl p)) = inl p
    shift e (inl (inr n)) = inr (inl n)
    shift e (inr f) = inr (inr f)

    go :
        Ends deadline targets r rounds c (ok quotes)
        → ((c' : Collected)
            → All Q c'.quotes
            → collect_quotes deadline targets rounds c' ≡ some (ok quotes)
            → All (HasQuote quotes) targets × All (λ e. Q e ⊎ Fetched targets rounds e) quotes)
        → All (HasQuote quotes) targets × All (λ e. P e ⊎ Fetched targets (r ∷ rounds) e) quotes
    go (burns e s x) ih = absurd (ground arith)
    go (expires w late n x) ih = absurd (ground arith)
    go (completes c' s d x) ih =
        let same : quotes ≡ c'.quotes = ground arith in
        rw same (
          pending-All targets c'.quotes d,
          All-imp Q _ (λ e q. shift e (inl q)) c'.quotes (swept c' s),
        )
    go (goes_on c' s x) ih =
        let (have, from) = ih c' (swept c' s) x in (have, All-imp _ _ shift quotes from)

collect-Met :
    (deadline : ℕ) (targets : List HarvestTarget) (rounds : List Round) (c : Collected)
    (name : Text) (e : FetchError)
    → collect_quotes deadline targets rounds c ≡ some (err (burned name e))
    → IsFatal e × Met targets rounds name e
unfolding collect_quotes
collect-Met deadline targets [] c name e h = absurd (ground arith)
collect-Met deadline targets (r ∷ rounds) c name e h =
    elim (collect-Ends deadline targets r rounds c (err (burned name e)) h) [
      | burns x s p ↦
          let (t, e', m, same, fatal, met) = sweep-eq-err r.reply targets c x s in
          let q : e ≡ e' = ground arith in rw q (fatal, inl (t, m, ground arith, met))
      | completes c' s d p ↦ absurd (ground arith)
      | expires w late n p ↦ absurd (ground arith)
      | goes_on c' s p ↦
          let (fatal, met) = collect-Met deadline targets rounds c' name e p in (fatal, inr met)
    ]

collect-IsLate :
    (deadline : ℕ) (targets : List HarvestTarget) (rounds : List Round) (c : Collected)
    (waiting : List (Text × Option RetryCause))
    → collect_quotes deadline targets rounds c ≡ some (err (timed_out waiting))
    → IsLate deadline rounds × (waiting ≢ [])
unfolding collect_quotes
collect-IsLate deadline targets [] c waiting h = absurd (ground arith)
collect-IsLate deadline targets (r ∷ rounds) c waiting h =
    elim (collect-Ends deadline targets r rounds c (err (timed_out waiting)) h) [
      | burns x s p ↦
          let (t, e', m, same, fatal, met) = sweep-eq-err r.reply targets c x s in
          absurd (ground arith)
      | completes c' s d p ↦ absurd (ground arith)
      | expires w late n p ↦ let q : waiting ≡ w = ground arith in rw q (inl late, n)
      | goes_on c' s p ↦
          let (late, n) = collect-IsLate deadline targets rounds c' waiting p in (inr late, n)
    ]

-- An outcome of the collection is justified by the rounds. Quotes are returned only when every
-- target has one, and each was fetched in some round for a target of its name; the harvest is burned
-- only by a fatal failure that a target of that name met; it times out only when a round ended at the
-- deadline or later with some box still waited for.
pub collect_quotes-Justified :
    (deadline : ℕ) (targets : List HarvestTarget) (rounds : List Round)
    (x : Result CollectError (Map Quote))
    → collect_quotes deadline targets rounds nothing_collected ≡ some x
    → Justified deadline targets rounds x
collect_quotes-Justified deadline targets rounds (ok quotes) h =
    let (have, from) =
      collect-Fetched deadline targets rounds (λ e. ⊥) nothing_collected quotes tt h in
    (have, All-imp _ _ only quotes from)
  where
    only : (e : Text × Quote) → ⊥ ⊎ Fetched targets rounds e → Fetched targets rounds e
    only e (inl n) = absurd n
    only e (inr f) = f
collect_quotes-Justified deadline targets rounds (err (burned name e)) h =
    collect-Met deadline targets rounds nothing_collected name e h
collect_quotes-Justified deadline targets rounds (err (timed_out waiting)) h =
    collect-IsLate deadline targets rounds nothing_collected waiting h

-- The collection ends, with one outcome or another, once a round is over at the deadline or later.
pub collect_quotes-ends :
    (deadline : ℕ) (targets : List HarvestTarget) (rounds : List Round) (c : Collected)
    → IsLate deadline rounds
    → collect_quotes deadline targets rounds c ≢ none
unfolding collect_quotes
collect_quotes-ends deadline targets [] c late e = absurd late
collect_quotes-ends deadline targets (r ∷ rounds) c (inl now) e =
    elim (Result-cases (sweep r.reply targets c)) [
      | inl (c', swept) ↦ ground arith
      | inr (x, failed) ↦ ground arith
    ]
collect_quotes-ends deadline targets (r ∷ rounds) c (inr later) e =
    elim (Result-cases (sweep r.reply targets c)) [
      | inl (c', swept) ↦ ground (arith, collect_quotes-ends deadline targets rounds c' later)
      | inr (x, failed) ↦ ground arith
    ]
