-- ===== src/Launch/Holders/Tests.antt =====
-- The assertion on one holder.
use seismic.Prelude.{◌≡◌, ◌≢◌, refl, inl, inr, none, some, List, [], ◌∷◌, arith, ok, All}
use seismic.Prelude.Text.{codes, text_eq}
use seismic.Prelude.Map.{lookup, insert}
use seismic.Json.{Json, string, object, end, field, get_field}
use seismic.Launch.{LaunchTarget}
use seismic.Launch.Holders.{Round, assert_cohort_holder_keys, nothing_seen}
use seismic.Launch.Holders.Laws.{
  ServedPinned, assert_cohort_holder_keys-ServedPinned, assert_cohort_holder_keys_ends,
}

abbrev targets : List LaunchTarget
targets =
    record { name = codes "a"; node_public_key = codes "n"; consensus_public_key = codes "c" } ∷ []

abbrev keys : Json
keys = object (
    field (codes "node_public_key") (string (codes "n"))
      (field (codes "consensus_public_key") (string (codes "c")) end))

abbrev rounds : List Round
rounds =
    record { reply = λ t. none; now = 1 } ∷ record { reply = λ t. some (some keys); now = 6 } ∷ []

holder_serves : assert_cohort_holder_keys 30 targets rounds nothing_seen ≡ some (ok tt)
unfolding assert_cohort_holder_keys get_field text_eq lookup insert
holder_serves = refl

assert_cohort_holder_keys-ServedPinned_example :
    All (λ (t : LaunchTarget). ServedPinned rounds targets t.name) targets
assert_cohort_holder_keys-ServedPinned_example =
    assert_cohort_holder_keys-ServedPinned 30 targets rounds holder_serves

assert_cohort_holder_keys_ends_example :
    assert_cohort_holder_keys 5 targets rounds nothing_seen ≢ none
assert_cohort_holder_keys_ends_example =
    assert_cohort_holder_keys_ends 5 targets rounds nothing_seen (inr (inl (omega arith)))
