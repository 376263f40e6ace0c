-- ===== src/Harvest.antt =====
-- Collecting the founding quotes: `fetch_quote`, `collect_quotes` and `assert_unique_keys` of
-- tee/cli/network/src/harvest.rs. What a holder replies and when a round of polls ends are inputs:
-- one `Round` for each pass of the polling loop. What is printed is left out.
pub mod Run
pub mod Fetch
pub mod Collect
mod Tests
use seismic.Prelude.{
  ℕ, Bool, true, false, not, ◌&&◌, Option, none, some, List, [], ◌∷◌, Result, ok, err, ◌>>=◌, ◌>>◌,
  bail_if, some_or, map_err, if◌then◌else◌, leb, ltb, ◌==◌, is_empty, map,
}
use seismic.Prelude.Text.{Text, codes}
use seismic.Prelude.Map.{Map, lookup, insert, contains_key}
use seismic.Json
use seismic.Json.{Json, Fields, get_field, as_object, as_str, is_object}
use seismic.Founding.{is_bare_hex}
use seismic.Unique.{Repeated, first_repeated}

-- `HarvestTarget`; the nonce is held as its hex.
pub record HarvestTarget : Type 0 where
  pub name : Text
  pub holder_url : Text
  pub nonce_hex : Text

pub record Quote : Type 0 where
  pub node_public_key : Text
  pub consensus_public_key : Text
  pub evidence : Json

-- What a request comes back with: no response, or a status and a body, none if it is not JSON.
pub data Reply : Type 0 where
  no_response : Text → Reply
  response : ℕ → Option Json → Reply

pub data Malformation : Type 0 where
  not_json : Malformation
  not_an_object : Malformation
  bad_key : Text → Malformation
  no_evidence : Malformation

pub data RetryCause : Type 0 where
  transport : Text → RetryCause
  http : ℕ → RetryCause

pub data FetchError : Type 0 where
  window_closed : FetchError
  rejected : ℕ → FetchError
  malformed : Malformation → FetchError
  retry : RetryCause → FetchError

-- The closure `key` of `fetch_quote`.
unfoldable pub quote_key : Fields → Text → ℕ → Result FetchError Text
unfolding is_bare_hex
quote_key fs name nbytes = elim (as_str (get_field name fs)) [
  | none ↦ err (malformed (bad_key name))
  | some value ↦ if is_bare_hex value nbytes then ok value else err (malformed (bad_key name))
]

abbrev pub object_or_none : Option Json → Option Json
object_or_none none = none
object_or_none (some v) = if is_object v then some v else none

unfoldable pub read_quote : Option Json → Result FetchError Quote
unfolding quote_key
read_quote body = do
  v ← some_or body (malformed not_json)
  fs ← some_or (as_object v) (malformed not_an_object)
  node_key ← quote_key fs (codes "node_public_key") 32
  consensus_key ← quote_key fs (codes "consensus_public_key") 48
  evidence ← some_or (object_or_none (get_field (codes "evidence") fs)) (malformed no_evidence)
  ok (record {
    node_public_key = node_key;
    consensus_public_key = consensus_key;
    evidence = evidence;
  })

unfoldable pub fetch_quote : Reply → Result FetchError Quote
unfolding read_quote
fetch_quote (no_response cause) = err (retry (transport cause))
fetch_quote (response status body) =
    if status == 410
    then err window_closed
    else if leb 400 status && ltb status 500
    then err (rejected status)
    else if not (leb 200 status && ltb status 300)
    then err (retry (http status))
    else read_quote body

-- One pass of the loop: what each holder replies, and the instant at which the pass is over.
pub record Round : Type 0 where
  pub reply : HarvestTarget → Reply
  pub now : ℕ

pub data CollectError : Type 0 where
  burned : Text → FetchError → CollectError
  timed_out : List (Text × Option RetryCause) → CollectError

pub record Collected : Type 0 where
  pub quotes : Map Quote
  pub last_error : Map RetryCause

-- The body of the `for target in targets` loop.
unfoldable pub poll_one :
    (HarvestTarget → Reply) → HarvestTarget → Collected → Result CollectError Collected
unfolding fetch_quote
poll_one reply t c = if contains_key t.name c.quotes then ok c else elim (fetch_quote (reply t)) [
  | ok q ↦ ok (record c { quotes = insert t.name q c.quotes })
  | err (retry cause) ↦ ok (record c { last_error = insert t.name cause c.last_error })
  | err window_closed ↦ err (burned t.name window_closed)
  | err (rejected status) ↦ err (burned t.name (rejected status))
  | err (malformed why) ↦ err (burned t.name (malformed why))
]

unfoldable pub sweep :
    (HarvestTarget → Reply) → List HarvestTarget → Collected → Result CollectError Collected
unfolding poll_one
sweep reply [] c = ok c
sweep reply (t ∷ targets) c = do c' ← poll_one reply t c; sweep reply targets c'

-- The names without a quote.
unfoldable pub pending : List HarvestTarget → Map Quote → List Text
pending [] quotes = []
pending (t ∷ targets) quotes =
    let rest = pending targets quotes in if contains_key t.name quotes then rest else t.name ∷ rest

-- `collect_quotes` over its rounds; none while the rounds given are not enough to end it.
unfoldable pub collect_quotes :
    ℕ → List HarvestTarget → List Round → Collected → Option (Result CollectError (Map Quote))
unfolding sweep pending
collect_quotes deadline targets [] c = none
collect_quotes deadline targets (r ∷ rounds) c = elim (sweep r.reply targets c) [
  | err e ↦ some (err e)
  | ok c' ↦
      let later = collect_quotes deadline targets rounds c' in
      let waiting = pending targets c'.quotes in
      if is_empty waiting
      then some (ok c'.quotes)
      else if leb deadline r.now
      then some (err (timed_out (map (λ name. (name, lookup name c'.last_error)) waiting)))
      else later
]

abbrev pub nothing_collected : Collected
nothing_collected = record { quotes = []; last_error = [] }

pub data UniqueError : Type 0 where
  same_node_key : Repeated → UniqueError
  same_consensus_key : Repeated → UniqueError

unfoldable pub assert_unique_keys : Map Quote → Result UniqueError Unit
assert_unique_keys quotes = elim (first_repeated (λ q. q.node_public_key) quotes []) [
  | some r ↦ err (same_node_key r)
  | none ↦ elim (first_repeated (λ q. q.consensus_public_key) quotes []) [
    | some r ↦ err (same_consensus_key r)
    | none ↦ ok tt
  ]
]
