-- ===== src/Harvest/Run.antt =====
-- The harvest command: `build_record`, `verify_record`, `check_overwrite`, `check_founders`,
-- `save_harvest` and `run` of tee/cli/network/src/harvest.rs. The disk is a map from paths to the
-- texts of files. Parsing JSON, compiling the policy, verifying a quote and whether a path can be
-- written are parameters.
pub mod Laws
pub mod Verified
pub mod Outcome
use seismic.Prelude.{
  ℕ, Bool, true, false, not, ◌&&◌, Option, none, some, List, [], ◌∷◌, Result, ok, err, ◌>>=◌, ◌>>◌,
  bail_if, some_or, map_err, if◌then◌else◌, ◌==◌, length, is_empty, map,
}
use seismic.Prelude.Text.{Text, codes}
use seismic.Prelude.Map.{Map, lookup, insert, contains_key, keys}
use seismic.Paths.{NetworkDir, input_measurements, founders, harvest_record}
use seismic.Json.{Json, string, object, field, end}
use seismic.Founding.{FoundingError, load_founder_credentials}
use seismic.Harvest.{
  HarvestTarget, Quote, Round, CollectError, UniqueError, collect_quotes, nothing_collected,
  assert_unique_keys,
}

abbrev pub Disk : Type 0
Disk = Map Text

pub data HarvestError : Type 0 where
  no_measurements : HarvestError
  no_founders : HarvestError
  founders_refused : FoundingError → HarvestError
  wrong_count : ℕ → ℕ → HarvestError
  would_overwrite : List Text → HarvestError
  bad_measurements : HarvestError
  collection : CollectError → HarvestError
  repeated_key : UniqueError → HarvestError
  verification_failed : Text → HarvestError
  cannot_write : Text → HarvestError
  panic : HarvestError

unfoldable pub build_record : HarvestTarget → Quote → Json
build_record t q = object (
    field (codes "harvest_nonce") (string t.nonce_hex) (
      field (codes "node_public_key") (string q.node_public_key) (
        field (codes "consensus_public_key") (string q.consensus_public_key)
          (field (codes "evidence") q.evidence end))))

abbrev pub names : List HarvestTarget → List Text
names targets = map (λ t. t.name) targets

-- The names whose records are on the disk.
unfoldable pub existing : NetworkDir → List Text → Disk → List Text
existing dir [] disk = []
existing dir (name ∷ more) disk =
    let rest = existing dir more disk in
    if contains_key (harvest_record dir name) disk then name ∷ rest else rest

unfoldable pub check_overwrite : NetworkDir → List Text → Bool → Disk → Result HarvestError Unit
unfolding existing
check_overwrite dir cohort force disk =
    bail_if (not (is_empty (existing dir cohort disk)) && not force)
      (would_overwrite (existing dir cohort disk))

module _ (from_slice : Text → Option Json) where
  unfoldable pub check_founders : NetworkDir → List Text → Disk → Result HarvestError Unit
  check_founders dir cohort disk = do
    founders ←
        map_err founders_refused (load_founder_credentials from_slice (lookup (founders dir) disk))
    bail_if (not (length founders == length cohort)) (wrong_count (length founders) (length cohort))

module _ (can_write : Text → Bool) where
  -- `save_harvest`: a write that fails ends it, and what was written before stays.
  unfoldable pub save_harvest : NetworkDir → Map Text → Disk → Result HarvestError Unit × Disk
  save_harvest dir [] disk = (ok tt, disk)
  save_harvest dir ((name, document) ∷ archives) disk =
      let path = harvest_record dir name in
      let rest = save_harvest dir archives (insert path document disk) in
      if can_write path then rest else (err (cannot_write path), disk)

module _ {Policy : Type 0} (verify : Policy → Json → Option Text) where
  -- The loop of `run` over the targets: each record is verified, and its archive kept.
  unfoldable pub verify_all :
      Policy → Map Quote → List HarvestTarget → Map Text → Result HarvestError (Map Text)
  unfolding build_record
  verify_all policy quotes [] archives = ok archives
  verify_all policy quotes (t ∷ targets) archives = do
    q ← some_or (lookup t.name quotes) panic
    document ← some_or (verify policy (build_record t q)) (verification_failed t.name)
    verify_all policy quotes targets (insert t.name document archives)

module _ (from_slice : Text → Option Json) (can_write : Text → Bool) {Policy : Type 0}
    (promote : Text → Option Policy) (verify : Policy → Json → Option Text) where
  -- What `run` checks before it touches the cohort: the policy that the quotes are held to.
  unfoldable pub prepare :
      NetworkDir → List HarvestTarget → Bool → Disk → Result HarvestError Policy
  unfolding check_founders check_overwrite
  prepare dir targets force disk = do
    raw ← some_or (lookup (input_measurements dir) disk) no_measurements
    _ ← some_or (lookup (founders dir) disk) no_founders
    check_founders from_slice dir (names targets) disk
    check_overwrite dir (names targets) force disk
    some_or (promote raw) bad_measurements

  -- What `run` does with the quotes: the archives to write.
  unfoldable pub judge :
      Policy → List HarvestTarget → Result CollectError (Map Quote) → Result HarvestError (Map Text)
  unfolding verify_all
  judge policy targets collected = do
    quotes ← map_err collection collected
    map_err repeated_key (assert_unique_keys quotes)
    verify_all verify policy quotes targets []

  -- `run`, from the loaded targets on: the outcome with the disk that it leaves; none while the
  -- rounds given do not end the collection.
  unfoldable pub run :
      NetworkDir
      → List HarvestTarget
      → Bool
      → ℕ
      → List Round
      → Disk
      → Option (Result HarvestError Unit × Disk)
  unfolding prepare judge save_harvest
  run dir targets force deadline rounds disk = elim (prepare dir targets force disk) [
    | err e ↦ some (err e, disk)
    | ok policy ↦ elim (collect_quotes deadline targets rounds nothing_collected) [
      | none ↦ none
      | some collected ↦ elim (judge policy targets collected) [
        | err e ↦ some (err e, disk)
        | ok archives ↦ some (save_harvest can_write dir archives disk)
      ]
    ]
  ]
