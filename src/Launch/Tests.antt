-- ===== src/Launch/Tests.antt =====
-- The launch assertion over two nodes.
use mathlib.Core.List.{Memᴰ}
use seismic.Prelude.{◌≡◌, refl, inl, false, Option, none, some, List, [], ◌∷◌, arith, ok, All}
use seismic.Prelude.Text.{Text, codes, text_eq, text_lt}
use seismic.Prelude.Map.{lookup, insert}
use seismic.Json.{Json, string, object, end, field, get_field}
use seismic.Watch.{Status, provisioning}
use seismic.Launch.{LaunchTarget, Pass, fetch_block0_hash, assert_cohort_genesis_hash}
use seismic.Launch.Laws.{Served, assert_cohort_genesis_hash-Served}
use seismic.Launch.Pause.{IsWiping, assert_cohort_genesis_hash-IsWiping}

abbrev target : Text → LaunchTarget
target name = record { name = name; node_public_key = []; consensus_public_key = [] }

abbrev targets : List LaunchTarget
targets = target (codes "a") ∷ target (codes "b") ∷ []

abbrev block : Json
block = object (field (codes "hash") (string (codes "0xAB")) end)

-- Both nodes answer in the second pass.
abbrev passes : List Pass
passes =
    record { block = λ t. none; status = λ t. none; began = 0; probed = 1; now = 2; slept = 5 }
    ∷ record {
      block = λ t. some block;
      status = λ t. none;
      began = 7;
      probed = 8;
      now = 9;
      slept = 5;
    }
    ∷ []

both_serve : assert_cohort_genesis_hash (codes "0xab") targets passes 30 false [] ≡ some (ok tt)
unfolding assert_cohort_genesis_hash fetch_block0_hash get_field text_eq text_lt lookup insert
both_serve = refl

assert_cohort_genesis_hash-Served_example :
    All (λ (t : LaunchTarget). Served passes targets t.name (codes "0xab")) targets
assert_cohort_genesis_hash-Served_example =
    assert_cohort_genesis_hash-Served (codes "0xab") targets passes 30 both_serve

abbrev wiping : Text → Option Status
wiping name = some (provisioning 1 9 none)

-- Only one node is there, and its wipe outlasts the deadline.
abbrev wipe : List Pass
wipe =
    record {
      block = λ t. none;
      status = λ t. wiping t.name;
      began = 1;
      probed = 2;
      now = 90;
      slept = 5;
    }
    ∷ record {
      block = λ t. none;
      status = λ t. wiping t.name;
      began = 96;
      probed = 97;
      now = 200;
      slept = 5;
    }
    ∷ []

wipe_is_quiet : All (IsWiping (codes "0xab") (target (codes "a") ∷ []) (target (codes "a"))) wipe
unfolding fetch_block0_hash
wipe_is_quiet = ((refl, (inl refl, tt)), ((refl, (inl refl, tt)), tt))

assert_cohort_genesis_hash-IsWiping_example :
    assert_cohort_genesis_hash (codes "0xab") (target (codes "a") ∷ []) wipe 30 false [] ≡ none
assert_cohort_genesis_hash-IsWiping_example =
    assert_cohort_genesis_hash-IsWiping (codes "0xab") (target (codes "a") ∷ [])
      (target (codes "a")) wipe 30 0 2 (Memᴰ.head refl) wipe_is_quiet
      (
        omega arith,
        omega arith,
        omega arith,
        omega arith,
        (omega arith, omega arith, omega arith, omega arith, tt),
      )
      (omega arith)
