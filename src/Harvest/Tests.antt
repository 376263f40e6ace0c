-- ===== src/Harvest/Tests.antt =====
-- A harvest of one box.
use seismic.Prelude.{
  ◌≡◌, ◌≢◌, ◌⊎◌, inl, inr, refl, Bool, true, false, Option, none, some, List, [], ◌∷◌, ◌++◌, ok,
  err, arith, All,
}
use seismic.Prelude.Text.{Text, codes, text_eq, text_lt}
use seismic.Prelude.Map.{Map, lookup, insert}
use seismic.Prelude.Hex.{is_hexdigit, is_lower_hex}
use seismic.Prelude.Split.{strip_prefix}
use seismic.Json.{Json, string, array, object, nil, cons, end, field, get_field}
use seismic.Unique.{first_repeated}
use seismic.Paths.{join, NetworkDir, is_absolute, founders, input_measurements, harvest_record}
use seismic.Founding.{load_founder_credentials}
use seismic.Harvest.{
  HarvestTarget, Quote, no_response, response, fetch_quote, Round, collect_quotes,
  nothing_collected, assert_unique_keys,
}
use seismic.Harvest.Collect.{HasQuote, Fetched}
use seismic.Harvest.Collect.Outcome.{collect_quotes-Justified, collect_quotes-ends}
use seismic.Harvest.Run.{Disk, would_overwrite, cannot_write, existing, run}
use seismic.Harvest.Run.Outcome.{IsHarvested, IsRelative, run_failed, run-IsHarvested}

abbrev pub key_32 : Text
key_32 = codes "0123456789abcdef0123456789abcdef0123456789abcdef0123456789abcdef"

abbrev pub key_48 : Text
key_48 = key_32 ++ codes "0123456789abcdef0123456789abcdef"

abbrev quote : Quote
quote = record { node_public_key = key_32; consensus_public_key = key_48; evidence = object end }

abbrev body : Json
body = object (
    field (codes "node_public_key") (string key_32) (
      field (codes "consensus_public_key") (string key_48)
        (field (codes "evidence") (object end) end)))

abbrev target : HarvestTarget
target = record { name = codes "a"; holder_url = codes "http://1.1.1.1"; nonce_hex = key_32 }

abbrev targets : List HarvestTarget
targets = target ∷ []

abbrev rounds : List Round
rounds =
    record { reply = λ t. no_response (codes "refused"); now = 1 }
    ∷ record { reply = λ t. response 200 (some body); now = 2 }
    ∷ []

abbrev quotes : Map Quote
quotes = (codes "a", quote) ∷ []

body_fetched : fetch_quote (response 200 (some body)) ≡ ok quote
unfolding fetch_quote get_field text_eq is_lower_hex
body_fetched = refl

rounds_collected : collect_quotes 9 targets rounds nothing_collected ≡ some (ok quotes)
unfolding collect_quotes fetch_quote get_field text_eq is_lower_hex lookup insert
rounds_collected = refl

collect_quotes-Justified_example :
    All (HasQuote quotes) targets × All (Fetched targets rounds) quotes
collect_quotes-Justified_example =
    collect_quotes-Justified 9 targets rounds (ok quotes) rounds_collected

collect_quotes-ends_example : collect_quotes 2 targets rounds nothing_collected ≢ none
collect_quotes-ends_example =
    collect_quotes-ends 2 targets rounds nothing_collected (inr (inl (omega arith)))

abbrev dir : NetworkDir
dir = record { root = codes "net" }

abbrev from_slice : Text → Option Json
from_slice bytes =
    some (array (cons (string (codes "0x0123456789012345678901234567890123456789")) nil))

abbrev can_write : Text → Bool
can_write path = true

abbrev promote : Text → Option Text
promote raw = some raw

abbrev verify : Text → Json → Option Text
verify policy document = some policy

abbrev disk : Disk
disk =
    (codes "net/inputs/founder-withdrawal-credentials.json", codes "[]")
    ∷ (codes "net/inputs/measurements.json", codes "{}")
    ∷ []

abbrev harvested : Disk
harvested =
    (codes "net/inputs/founder-withdrawal-credentials.json", codes "[]")
    ∷ (codes "net/inputs/harvest/a.json", codes "{}")
    ∷ (codes "net/inputs/measurements.json", codes "{}")
    ∷ []

first_run_succeeds :
    run from_slice can_write promote verify dir targets false 9 rounds disk
    ≡ some (ok tt, harvested)
unfolding run collect_quotes fetch_quote get_field text_eq text_lt is_lower_hex lookup insert
    founders harvest_record load_founder_credentials assert_unique_keys input_measurements join
    strip_prefix is_hexdigit first_repeated
first_run_succeeds = refl

targets-IsRelative : All IsRelative targets
unfolding is_absolute
targets-IsRelative = (refl, tt)

run-IsHarvested_example :
    IsHarvested from_slice can_write promote verify dir targets false 9 rounds disk harvested
run-IsHarvested_example =
    run-IsHarvested from_slice can_write promote verify dir targets false 9 rounds disk harvested
      targets-IsRelative first_run_succeeds

again_refused :
    run from_slice can_write promote verify dir targets false 9 rounds harvested
    ≡ some (err (would_overwrite (codes "a" ∷ [])), harvested)
unfolding run collect_quotes fetch_quote get_field text_eq text_lt is_lower_hex lookup insert
    founders harvest_record load_founder_credentials existing input_measurements join strip_prefix
    is_hexdigit
again_refused = refl

run_failed_example :
    (harvested ≡ harvested)
    ⊎ ((path : Text) × (would_overwrite (codes "a" ∷ []) ≡ cannot_write path))
run_failed_example =
    run_failed from_slice can_write promote verify dir targets false 9 rounds harvested
      (would_overwrite (codes "a" ∷ [])) harvested again_refused
