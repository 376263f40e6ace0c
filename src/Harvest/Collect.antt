-- ===== src/Harvest/Collect.antt =====
-- What one pass over the targets does, and what an outcome of the collection rests on.
pub mod Outcome
use mathlib.Core.List.{Memᴰ}
use seismic.Prelude.{
  ℕ, ◌≡◌, ◌≢◌, refl, ◌⊎◌, inl, inr, ◌≤◌, Bool, true, false, Option, none, some, List, [], ◌∷◌,
  arith, Result, ok, err, ◌>>=◌, >>=-eq-ok, All, All-imp, is_some, is_empty, leb, Result-cases,
  Bool-cases, if◌then◌else◌, length,
}
use seismic.Prelude.Text.{Text, text_eq, text_eq_refl}
use seismic.Prelude.Map.{Map, lookup, insert, lookup-insert, contains_key, insert-All, lookup-All}
use seismic.Harvest.{
  HarvestTarget, Quote, Reply, FetchError, window_closed, rejected, malformed, retry, fetch_quote,
  Round, CollectError, burned, timed_out, Collected, poll_one, sweep, pending, collect_quotes,
  nothing_collected,
}

-- A quote that some round fetched for a target of that name.
abbrev pub Fetched : List HarvestTarget → List Round → Text × Quote → Type 0
Fetched targets [] e = ⊥
Fetched targets (r ∷ rounds) e =
    ((t : HarvestTarget) × Memᴰ t targets × (t.name ≡ e.0) × (fetch_quote (r.reply t) ≡ ok e.1))
    ⊎ Fetched targets rounds e

-- Some round is over after the deadline.
abbrev pub IsLate : ℕ → List Round → Type 0
IsLate deadline [] = ⊥
IsLate deadline (r ∷ rounds) = (deadline ≤ r.now) ⊎ IsLate deadline rounds

-- A failure that ends the collection at once.
abbrev pub IsFatal : FetchError → Type 0
IsFatal (retry cause) = ⊥
IsFatal window_closed = Unit {0}
IsFatal (rejected status) = Unit {0}
IsFatal (malformed why) = Unit {0}

-- A failure that some round met at a target of that name.
abbrev pub Met : List HarvestTarget → List Round → Text → FetchError → Type 0
Met targets [] name e = ⊥
Met targets (r ∷ rounds) name e =
    ((t : HarvestTarget) × Memᴰ t targets × (t.name ≡ name) × (fetch_quote (r.reply t) ≡ err e))
    ⊎ Met targets rounds name e

abbrev pub HasQuote : Map Quote → HarvestTarget → Type 0
HasQuote quotes t = contains_key t.name quotes ≡ true

-- What an outcome of the collection says about the rounds.
abbrev pub Justified :
    ℕ → List HarvestTarget → List Round → Result CollectError (Map Quote) → Type 0
Justified deadline targets rounds (ok quotes) =
    All (HasQuote quotes) targets × All (Fetched targets rounds) quotes
Justified deadline targets rounds (err (burned name e)) = IsFatal e × Met targets rounds name e
Justified deadline targets rounds (err (timed_out waiting)) =
    IsLate deadline rounds × (waiting ≢ [])

pub poll_one-eq-ok :
    (reply : HarvestTarget → Reply) (t : HarvestTarget) (c c' : Collected)
    → poll_one reply t c ≡ ok c'
    → (c'.quotes ≡ c.quotes)
      ⊎ ((q : Quote) × (fetch_quote (reply t) ≡ ok q) × (c'.quotes ≡ insert t.name q c.quotes))
unfolding poll_one
poll_one-eq-ok reply t c c' h = elim (Bool-cases (contains_key t.name c.quotes)) [
  | inl known ↦ inl (ground arith)
  | inr new ↦ elim (Result-cases (fetch_quote (reply t))) [
    | inl (q, e) ↦ inr (q, e, ground arith)
    | inr (retry cause, e) ↦ inl (ground arith)
    | inr (window_closed, e) ↦ absurd (ground arith)
    | inr (rejected status, e) ↦ absurd (ground arith)
    | inr (malformed why, e) ↦ absurd (ground arith)
  ]
]

poll_one-eq-err :
    (reply : HarvestTarget → Reply) (t : HarvestTarget) (c : Collected) (x : CollectError)
    → poll_one reply t c ≡ err x
    → (e : FetchError) × (x ≡ burned t.name e) × IsFatal e × (fetch_quote (reply t) ≡ err e)
unfolding poll_one
poll_one-eq-err reply t c x h = elim (Bool-cases (contains_key t.name c.quotes)) [
  | inl known ↦ absurd (ground arith)
  | inr new ↦ elim (Result-cases (fetch_quote (reply t))) [
    | inl (q, e) ↦ absurd (ground arith)
    | inr (retry cause, e) ↦ absurd (ground arith)
    | inr (window_closed, e) ↦ (window_closed, ground arith, tt, e)
    | inr (rejected status, e) ↦ (rejected status, ground arith, tt, e)
    | inr (malformed why, e) ↦ (malformed why, ground arith, tt, e)
  ]
]

pub sweep-All :
    (P : Text × Quote → Type 0) (reply : HarvestTarget → Reply) (targets : List HarvestTarget)
    (c c' : Collected)
    → ((t : HarvestTarget) (q : Quote)
        → Memᴰ t targets
        → fetch_quote (reply t) ≡ ok q
        → P (t.name, q))
    → All P c.quotes
    → sweep reply targets c ≡ ok c'
    → All P c'.quotes
unfolding sweep
sweep-All P reply [] c c' f a h = let e : c' ≡ c = ground arith in rw e a
sweep-All P reply (t ∷ targets) c c' f a h =
    let (d, e, h') = >>=-eq-ok (poll_one reply t c) _ h in
    let polled : All P d.quotes = elim (poll_one-eq-ok reply t c d e) [
      | inl same ↦ rw same a
      | inr (q, fetched, added) ↦
          rw added (insert-All P t.name q c.quotes (f t q (Memᴰ.head refl) fetched) a)
    ] in
    sweep-All P reply targets d c' (λ u q m. f u q (Memᴰ.tail m)) polled h'

pub sweep-eq-err :
    (reply : HarvestTarget → Reply) (targets : List HarvestTarget) (c : Collected)
    (x : CollectError)
    → sweep reply targets c ≡ err x
    → (t : HarvestTarget) × (e : FetchError) × Memᴰ t targets
      × (x ≡ burned t.name e)
      × IsFatal e
      × (fetch_quote (reply t) ≡ err e)
unfolding sweep
sweep-eq-err reply [] c x h = absurd (ground arith)
sweep-eq-err reply (t ∷ targets) c x h = elim (Result-cases (poll_one reply t c)) [
  | inl (d, polled) ↦
      let (u, e, m, same, fatal, met) = sweep-eq-err reply targets d x (ground arith) in
      (u, e, Memᴰ.tail m, same, fatal, met)
  | inr (y, failed) ↦
      let (e, same, fatal, met) = poll_one-eq-err reply t c x (ground arith) in
      (t, e, Memᴰ.head refl, same, fatal, met)
]

pub pending-All :
    (targets : List HarvestTarget) (quotes : Map Quote)
    → is_empty (pending targets quotes) ≡ true
    → All (HasQuote quotes) targets
unfolding pending
pending-All [] quotes h = tt
pending-All (t ∷ targets) quotes h = (ground arith, pending-All targets quotes (ground arith))
