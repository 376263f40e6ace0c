-- ===== src/Launch/Holders.antt =====
-- The second launch assertion: `fetch_holder_keys` and `assert_cohort_holder_keys` of
-- tee/cli/network/src/launch.rs. What the holders reply and when a pass is over are inputs. The log
-- lines are left out.
pub mod Laws
mod Tests
use seismic.Prelude.{
  ℕ, Bool, true, false, not, ◌&&◌, Option, none, some, List, [], ◌∷◌, Result, ok, err, ◌>>=◌,
  if◌then◌else◌, leb, is_empty, map, any, is_some,
}
use seismic.Prelude.Text.{Text, codes, text_eq}
use seismic.Prelude.Map.{Map, lookup, insert, contains_key}
use seismic.Json.{Json, get, as_str, is_object}
use seismic.Launch.{LaunchTarget}

pub data HolderError : Type 0 where
  retry : HolderError
  malformed : HolderError

-- A reply: none is a transport or HTTP failure, else the body, none if it is not JSON.
abbrev pub Reply : Type 0
Reply = Option (Option Json)

abbrev pub both : Option Text → Option Text → Result HolderError (Text × Text)
both (some node) (some consensus) = ok (node, consensus)
both (some node) none = err malformed
both none consensus = err malformed

unfoldable pub fetch_holder_keys : Reply → Result HolderError (Text × Text)
fetch_holder_keys none = err retry
fetch_holder_keys (some none) = err malformed
fetch_holder_keys (some (some body)) =
    if is_object body
    then both (as_str (get (codes "node_public_key") body))
        (as_str (get (codes "consensus_public_key") body))
    else err malformed

-- The names whose holders match, and the keys last served.
pub record Seen : Type 0 where
  pub matched : Map (Unit {0})
  pub served : Map (Text × Text)

pub data HoldersError : Type 0 where
  bad_body : Text → HoldersError
  not_serving : List Text → Bool → HoldersError

unfoldable pub note_keys : LaunchTarget → Text × Text → Seen → Seen
note_keys t ks s = record {
  matched =
      if text_eq ks.0 t.node_public_key && text_eq ks.1 t.consensus_public_key
      then insert t.name tt s.matched
      else s.matched;
  served = insert t.name ks s.served;
}

-- The body of the loop over the targets.
unfoldable pub poll_holder : (LaunchTarget → Reply) → LaunchTarget → Seen → Result HoldersError Seen
unfolding fetch_holder_keys note_keys
poll_holder reply t s =
    if contains_key t.name s.matched then ok s else elim (fetch_holder_keys (reply t)) [
      | ok ks ↦ ok (note_keys t ks s)
      | err malformed ↦ err (bad_body t.name)
      | err retry ↦ ok s
    ]

unfoldable pub poll_all :
    (LaunchTarget → Reply) → List LaunchTarget → Seen → Result HoldersError Seen
unfolding poll_holder
poll_all reply [] s = ok s
poll_all reply (t ∷ targets) s = do s' ← poll_holder reply t s; poll_all reply targets s'

unfoldable pub unmatched : List LaunchTarget → Map (Unit {0}) → List Text
unmatched [] matched = []
unmatched (t ∷ targets) matched =
    let rest = unmatched targets matched in
    if contains_key t.name matched then rest else t.name ∷ rest

pub record Round : Type 0 where
  pub reply : LaunchTarget → Reply
  pub now : ℕ

-- `assert_cohort_holder_keys` over its passes; none while they do not end it.
unfoldable pub assert_cohort_holder_keys :
    ℕ → List LaunchTarget → List Round → Seen → Option (Result HoldersError (Unit {0}))
unfolding poll_all unmatched
assert_cohort_holder_keys deadline targets [] s = none
assert_cohort_holder_keys deadline targets (r ∷ rounds) s = elim (poll_all r.reply targets s) [
  | err e ↦ some (err e)
  | ok s' ↦
      let later = assert_cohort_holder_keys deadline targets rounds s' in
      let waiting = unmatched targets s'.matched in
      if is_empty waiting
      then some (ok tt)
      else if leb deadline r.now
      then some (err (not_serving waiting (any (λ name. contains_key name s'.served) waiting)))
      else later
]

abbrev pub nothing_seen : Seen
nothing_seen = record { matched = []; served = [] }
