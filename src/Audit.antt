-- ===== src/Audit.antt =====
-- `verify-founding`: tee/cli/network/src/verify_founding.rs, with `verify_harvest_records` of
-- tee/cli/network/src/assemble.rs. The replay of an archived quote is the quote library's: a parameter,
-- as are the schemas, the digests and the parsers. What is printed is left out.
pub mod Laws
pub mod Vouched
mod Tests
use seismic.Prelude.{
  ℕ, suc, Bool, true, false, not, ◌&&◌, Option, none, some, List, [], ◌∷◌, Result, ok, err, ◌>>=◌,
  ◌>>◌, bail_if, some_or, map_err, if◌then◌else◌, is_some, is_empty, any, get_or_else,
}
use seismic.Prelude.Text.{Text, codes, text_eq}
use seismic.Prelude.Split.{strip_prefix}
use seismic.Prelude.Map.{Map, lookup, keys}
use seismic.Json.{Json}
use seismic.Toml
use seismic.Toml.{Toml, Table}
use seismic.Founding.{
  FoundingError, FoundingRecord, FoundingRecords, is_bare_hex, load_harvest_records,
}
use seismic.Manifest.{
  Manifest, ManifestFields, GateError, from_json_bytes, check_policy, check_summit_genesis,
}
use seismic.Context.Config.{Config}
use seismic.Context.Select.{ContextError, load, select}

-- `ValidatorKeys`: a node key and a consensus key.
abbrev pub ValidatorKeys : Type 0
ValidatorKeys = Text × Text

pub data AuditError : Type 0 where
  no_manifest : AuditError
  bad_manifest : AuditError
  no_policy : AuditError
  wrong_policy : GateError → AuditError
  no_summit_genesis : AuditError
  wrong_summit_genesis : GateError → AuditError
  summit_not_toml : AuditError
  no_validators : AuditError
  bad_key : ℕ → Text → AuditError
  bad_records : FoundingError → AuditError
  no_record : Text → List Text → AuditError
  unpinned_records : List Text → AuditError
  unvouched_seats : List ValidatorKeys → AuditError
  bad_policy : AuditError
  unverified : Text → AuditError
  context : ContextError → AuditError
  network_id_mismatch : Text → Text → AuditError

-- The closure `field` of `pinned_validator_keys`.
unfoldable pub key_field : ℕ → Toml → Text → ℕ → Result AuditError Text
unfolding is_bare_hex
key_field index validator name nbytes = elim (Toml.as_str (Toml.get_in name validator)) [
  | none ↦ err (bad_key index name)
  | some value ↦ if is_bare_hex value nbytes then ok value else err (bad_key index name)
]

unfoldable pub keys_from : ℕ → List Toml → Result AuditError (List ValidatorKeys)
unfolding key_field
keys_from index [] = ok []
keys_from index (v ∷ vs) = do
  node ← key_field index v (codes "node_public_key") 32
  consensus ← key_field index v (codes "consensus_public_key") 48
  rest ← keys_from (suc index) vs
  ok ((node, consensus) ∷ rest)

module _ (from_toml : Text → Option Table) where
  unfoldable pub pinned_validator_keys : Text → Result AuditError (List ValidatorKeys)
  unfolding keys_from
  pinned_validator_keys summit_genesis = do
    genesis ← some_or (from_toml summit_genesis) summit_not_toml
    validators ← some_or (Toml.as_array (Toml.get (codes "validators") genesis)) no_validators
    keys_from 0 validators

abbrev pub keys_of : FoundingRecord → ValidatorKeys
keys_of r = (r.node_public_key, r.consensus_public_key)

abbrev pub keys_eq : ValidatorKeys → ValidatorKeys → Bool
keys_eq a b = text_eq a.0 b.0 && text_eq a.1 b.1

-- Membership in a `BTreeSet<&ValidatorKeys>`.
abbrev pub has_keys : ValidatorKeys → List ValidatorKeys → Bool
has_keys k pinned = any (keys_eq k) pinned

-- The records that are not seated, and the keys of those that are.
unfoldable pub unpinned : FoundingRecords → List ValidatorKeys → List Text
unpinned [] pinned = []
unpinned ((name, r) ∷ m) pinned =
    let rest = unpinned m pinned in if has_keys (keys_of r) pinned then rest else name ∷ rest

unfoldable pub vouched : FoundingRecords → List ValidatorKeys → List ValidatorKeys
vouched [] pinned = []
vouched ((name, r) ∷ m) pinned =
    let rest = vouched m pinned in if has_keys (keys_of r) pinned then keys_of r ∷ rest else rest

unfoldable pub unvouched : List ValidatorKeys → List ValidatorKeys → List ValidatorKeys
unvouched [] by = []
unvouched (k ∷ pinned) by =
    let rest = unvouched pinned by in if has_keys k by then rest else k ∷ rest

unfoldable pub check_records_are_the_pinned_set :
    FoundingRecords → List ValidatorKeys → Bool → Result AuditError Unit
unfolding unpinned vouched unvouched
check_records_are_the_pinned_set records pinned partial = do
  bail_if (not (is_empty (unpinned records pinned))) (unpinned_records (unpinned records pinned))
  bail_if (not partial && not (is_empty (unvouched pinned (vouched records pinned))))
      (unvouched_seats (unvouched pinned (vouched records pinned)))

-- The loop of `verify_harvest_records`: `replay` parses an archive and verifies it against the policy.
module _ {Policy : Type 0} (replay : Policy → Json → Bool) where
  unfoldable pub verify_records : Policy → FoundingRecords → Result AuditError Unit
  verify_records policy [] = ok tt
  verify_records policy ((name, r) ∷ m) = do
    bail_if (not (replay policy r.document)) (unverified name)
    verify_records policy m

  module _ (policy_of : Text → Option Policy) where
    unfoldable pub verify_harvest_records : FoundingRecords → Text → Result AuditError Unit
    unfolding verify_records
    verify_harvest_records records bytes = do
      policy ← some_or (policy_of bytes) bad_policy
      verify_records policy records

-- The files of a network directory that the audit reads: none for a file that is not there.
pub record NetworkFiles : Type 0 where
  pub manifest : Option Text
  pub policy : Option Text
  pub summit_genesis : Option Text
  pub harvest : Map Text

-- `--record`: the archive narrowed to one node.
unfoldable pub narrow : FoundingRecords → Option Text → Result AuditError FoundingRecords
narrow records none = ok records
narrow records (some name) = elim (lookup name records) [
  | none ↦ err (no_record name (keys records))
  | some one ↦ ok ((name, one) ∷ [])
]

-- `FoundingAudit`.
pub record FoundingAudit : Type 0 where
  pub manifest : Manifest
  pub verified : List Text

module _ (schema : Text → Option ManifestFields) (id_of : Text → Text) (sha256 : Text → Text)
    (from_slice : Text → Option Json) (from_toml : Text → Option Table) {Policy : Type 0}
    (policy_of : Text → Option Policy) (replay : Policy → Json → Bool) where
  unfoldable pub audit_founding : NetworkFiles → Option Text → Result AuditError FoundingAudit
  unfolding from_json_bytes check_policy check_summit_genesis pinned_validator_keys
      load_harvest_records narrow check_records_are_the_pinned_set verify_harvest_records
  audit_founding dir name = do
    manifest_bytes ← some_or dir.manifest no_manifest
    manifest ← some_or (from_json_bytes schema id_of manifest_bytes) bad_manifest
    policy ← some_or dir.policy no_policy
    map_err wrong_policy (check_policy sha256 manifest.parsed policy)
    summit_genesis ← some_or dir.summit_genesis no_summit_genesis
    map_err wrong_summit_genesis (check_summit_genesis from_toml manifest.parsed summit_genesis)
    pinned ← pinned_validator_keys from_toml summit_genesis
    all_records ← map_err bad_records (load_harvest_records from_slice dir.harvest)
    archived ← narrow all_records name
    check_records_are_the_pinned_set archived pinned (is_some name)
    verify_harvest_records replay policy_of archived policy
    ok (record { manifest = manifest; verified = keys archived })

  -- `pinned_network_id`: the pin of the network the context selects, when it selects one.
  unfoldable pub pinned_network_id : Config → Option Text → Option Text
  unfolding select
  pinned_network_id config requested = elim (select config requested) [
    | err e ↦ none
    | ok selected ↦ selected.network.network_id
  ]

  -- The comparison with the pin in `run`.
  unfoldable pub check_network_id : NetworkFiles → Option Text → Result AuditError Unit
  unfolding from_json_bytes
  check_network_id dir none = ok tt
  check_network_id dir (some pinned) = do
    bytes ← some_or dir.manifest bad_manifest
    manifest ← some_or (from_json_bytes schema id_of bytes) bad_manifest
    bail_if
        (not (
          text_eq (get_or_else (strip_prefix (codes "0x") manifest.network_id) manifest.network_id)
            pinned))
        (network_id_mismatch manifest.network_id pinned)

  -- `run` on a directory: `file` is the context file's text, and `parse` reads it.
  module _ (parse : Text → Option Config) where
    unfoldable pub run :
        NetworkFiles → Option Text → Option Text → Option Text → Result AuditError FoundingAudit
    unfolding load pinned_network_id check_network_id audit_founding
    run dir file requested name = do
      config ← map_err context (load parse file)
      check_network_id dir (pinned_network_id config requested)
      audit_founding dir name
