-- ===== src/Harvest/Fetch.antt =====
-- How one reply of a holder is classified.
use seismic.Prelude.{
  ℕ, ◌≡◌, ◌≢◌, ◌↔◌, refl, ◌⊎◌, inl, inr, ◌≤◌, ◌<◌, Bool, true, false, Option, none, some, arith,
  Result, ok, err, ◌>>=◌, >>=-eq-ok, some_or, some_or-eq-ok, Option-cases,
}
use seismic.Prelude.Text.{Text, codes}
use seismic.Json.{Json, string, object, Fields, get, get_field, as_str, is_object, as_str-eq-some}
use seismic.Founding.{is_bare_hex}
use seismic.Founding.Laws.{HoldsHex}
use seismic.Harvest.{
  Quote, Reply, no_response, response, FetchError, window_closed, rejected, malformed, retry, http,
  object_or_none, no_evidence, quote_key, read_quote, fetch_quote,
}

-- A status outside the boot tail's answers and the answers that are final.
abbrev pub IsRetried : ℕ → Type 0
IsRetried status = (status < 200) ⊎ ((300 ≤ status) × (status < 400)) ⊎ (500 ≤ status)

-- The body carries the quote: both keys in bare lowercase hex, and the evidence, an object.
abbrev pub Carries : Json → Quote → Type 0
Carries body q =
    HoldsHex body (codes "node_public_key") 32 q.node_public_key
    × HoldsHex body (codes "consensus_public_key") 48 q.consensus_public_key
    × (get (codes "evidence") body ≡ some q.evidence)
    × (is_object q.evidence ≡ true)

quote_key-eq-ok :
    (fs : Fields) (name : Text) (nbytes : ℕ) (key : Text)
    → quote_key fs name nbytes ≡ ok key
    → (get_field name fs ≡ some (string key)) × (is_bare_hex key nbytes ≡ true)
unfolding quote_key
quote_key-eq-ok fs name nbytes key h = elim (Option-cases (as_str (get_field name fs))) [
  | inl missing ↦ absurd (ground arith)
  | inr (value, found) ↦
      (ground (arith, as_str-eq-some (get_field name fs) value found), ground arith)
]

object_or_none-eq-some :
    (v : Option Json) (e : Json) → object_or_none v ≡ some e → (v ≡ some e) × (is_object e ≡ true)
object_or_none-eq-some none e h = absurd (ground arith)
object_or_none-eq-some (some v) e h = ground arith

read_quote-Carries : (body : Json) (q : Quote) → read_quote (some body) ≡ ok q → Carries body q
unfolding read_quote
read_quote-Carries (object fs) q h =
    let (node, n, h₁) = >>=-eq-ok (quote_key fs (codes "node_public_key") 32) _ h in
    let (consensus, c, h₂) = >>=-eq-ok (quote_key fs (codes "consensus_public_key") 48) _ h₁ in
    let (e, f, h₃) =
      >>=-eq-ok (some_or (object_or_none (get_field (codes "evidence") fs)) (malformed no_evidence))
        _ h₂ in
    let same : q
        ≡ record { node_public_key = node; consensus_public_key = consensus; evidence = e } =
      ground arith in
    let (found, shaped) =
      object_or_none-eq-some (get_field (codes "evidence") fs) e (some_or-eq-ok _ _ f) in
    rw same (quote_key-eq-ok fs _ 32 node n, quote_key-eq-ok fs _ 48 consensus c, found, shaped)
read_quote-Carries _ q h = absurd (ground arith)

-- A reply gives a quote only with a success status and a body that carries that quote.
pub fetch_quote-Carries :
    (reply : Reply) (q : Quote)
    → fetch_quote reply ≡ ok q
    → (status : ℕ) × (body : Json) × (reply ≡ response status (some body))
      × (200 ≤ status)
      × (status < 300)
      × Carries body q
unfolding fetch_quote
fetch_quote-Carries (no_response cause) q h = absurd (ground arith)
fetch_quote-Carries (response status none) q h = absurd (unfold read_quote in ground arith)
fetch_quote-Carries (response status (some body)) q h =
    (status, body, refl, ground arith, ground arith, read_quote-Carries body q (ground arith))

-- A body is read to a quote or is malformed; no other failure comes from it.
abbrev is_body_outcome : Result FetchError Quote → Bool
is_body_outcome (ok q) = true
is_body_outcome (err (malformed why)) = true
is_body_outcome (err window_closed) = false
is_body_outcome (err (rejected status)) = false
is_body_outcome (err (retry cause)) = false

quote_key_outcome :
    (fs : Fields) (name : Text) (n : ℕ) (f : Text → Result FetchError Quote)
    → ((key : Text) → is_body_outcome (f key) ≡ true)
    → is_body_outcome (quote_key fs name n >>= f) ≡ true
unfolding quote_key
quote_key_outcome fs name n f h = elim (Option-cases (as_str (get_field name fs))) [
  | inl missing ↦ ground arith
  | inr (value, found) ↦ ground (arith, h value)
]

evidence_outcome :
    (v : Option Json) (f : Json → Quote)
    → is_body_outcome (some_or (object_or_none v) (malformed no_evidence) >>= λ e. ok (f e)) ≡ true
evidence_outcome none f = refl
evidence_outcome (some v) f = ground arith

read_quote_outcome : (body : Option Json) → is_body_outcome (read_quote body) ≡ true
unfolding read_quote
read_quote_outcome none = refl
read_quote_outcome (some (object fs)) =
    quote_key_outcome fs _ 32 _
      λ node. quote_key_outcome fs _ 48 _ λ consensus. evidence_outcome _ _
read_quote_outcome (some _) = refl

-- A response closes the harvest's window exactly if its status is 410, is retried exactly if its
-- status is neither a success nor a client error, and is rejected exactly if it is another client
-- error.
pub fetch_quote_classes :
    (status : ℕ) (body : Option Json)
    → ((fetch_quote (response status body) ≡ err window_closed) ↔ (status ≡ 410))
      × ((fetch_quote (response status body) ≡ err (retry (http status))) ↔ IsRetried status)
      × ((fetch_quote (response status body) ≡ err (rejected status))
          ↔ ((400 ≤ status) × (status < 500) × (status ≢ 410)))
unfolding fetch_quote
fetch_quote_classes status body =
    let tame = read_quote_outcome body in
    (
      (λ h. ground arith, λ h. ground arith),
      (λ h. ground arith, λ h. ground arith),
      (λ h. (ground arith, ground arith, ground arith), λ h. ground arith),
    )
