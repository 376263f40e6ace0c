-- ===== src/Gates/Run.antt =====
-- The gates over an artifact set: tee/cli/network/src/gates.rs. The sibling binaries that derive the two
-- hashes are parameters.
pub mod Laws
use seismic.Prelude.{
  ℕ, Bool, true, false, not, ◌&&◌, ◌||◌, Option, none, some, List, [], ◌∷◌, ◌++◌, Result, ok, err,
  ◌>>=◌, ◌>>◌, bail_if, some_or, map_err, if◌then◌else◌, is_empty,
}
use seismic.Prelude.Text.{Text, codes, text_eq}
use seismic.Prelude.Map.{Map, insert, lookup}
use seismic.Json
use seismic.Json.{Json, Fields, end, field}
use seismic.Toml
use seismic.Toml.{Table}
use seismic.Manifest.{
  Manifest, ManifestFields, GateError, check_reth_genesis, check_summit_genesis, check_policy,
}
use seismic.Gates.{
  GateFailure, genesis_not_json, not_in_alloc, manifest_gate, underived, genesis_hash_mismatch,
  config_digest_mismatch, summit_not_toml, embedded_hash_mismatch, no_code, uncompiled, panic,
  CompileReport, validate_registry_account,
}

-- `ArtifactSet`: the manifest and the files that it pins.
pub record ArtifactSet : Type 0 where
  pub manifest : Manifest
  pub reth_genesis : Text
  pub summit_genesis : Text
  pub policy : Text

pub data Warning : Type 0 where
  default_namespace : Warning

-- `hex_0x`, on `hex::encode`.
unfoldable pub hex_0x : (Text → Text) → Text → Text
hex_0x encode bytes = codes "0x" ++ encode bytes

-- The parts of the program outside the tool that the gates call: the parsers, hexadecimal, the digests, the
-- lowercase of a text, the two derivations, and the compiler of policies.
pub record Libraries : Type 0 where
  pub from_slice : Text → Option Json
  pub from_toml : Text → Option Table
  pub encode : Text → Text
  pub decode : Text → Option Text
  pub word_of : Text → Option Text
  pub sha256 : Text → Text
  pub keccak256 : Text → Text
  pub to_lowercase : Text → Text
  pub reth_genesis_hash : Text → Option Text
  pub summit_config_digest : Text → Option Text
  pub compile : Text → Option CompileReport

-- The accounts under their addresses in lowercase: of two spellings the later one counts.
unfoldable pub lower_keys : (Text → Text) → Fields → Map Json → Map Json
lower_keys to_lowercase end m = m
lower_keys to_lowercase (field address account fs) m =
    lower_keys to_lowercase fs (insert (to_lowercase address) account m)

-- `genesis.get("alloc")` as an object, an empty one when it is none.
unfoldable pub alloc_of : Option Json → Fields
alloc_of (some (Json.object fs)) = fs
alloc_of v = end

-- The account has code that is no empty text.
unfoldable pub has_code : Json → Bool
has_code account = elim (Json.as_str (Json.get (codes "code") account)) [
  | none ↦ false
  | some code ↦ not (is_empty code)
]

-- The body of the loop over the contracts.
unfoldable pub check_contract : Map Json → Text → Result GateFailure Json
unfolding has_code
check_contract alloc address = do
  account ← some_or (lookup address alloc) (not_in_alloc address)
  bail_if (not (has_code account)) (no_code address)
  ok account

module _ (lib : Libraries) where
  -- The hash that the summit genesis embeds, against the manifest's.
  unfoldable pub check_embedded_hash : ManifestFields → Text → Result GateFailure Unit
  unfolding hex_0x
  check_embedded_hash m genesis = do
    table ← some_or (lib.from_toml genesis) summit_not_toml
    hash ← some_or (Toml.as_str (Toml.get (codes "eth_genesis_hash") table)) embedded_hash_mismatch
    bail_if (not (text_eq (lib.to_lowercase hash) (hex_0x lib.encode m.genesis_hash)))
        embedded_hash_mismatch

  -- `run_validation_gates`; `alloc[&registry_address]` is the account that the loop found.
  unfoldable pub run_validation_gates : ArtifactSet → Result GateFailure (List Warning)
  unfolding check_reth_genesis check_summit_genesis check_policy check_embedded_hash lower_keys
      alloc_of check_contract validate_registry_account hex_0x
  run_validation_gates set = do
    let m = set.manifest.parsed
    map_err manifest_gate (check_reth_genesis lib.from_slice m set.reth_genesis)
    genesis ← some_or (lib.from_slice set.reth_genesis) genesis_not_json
    computed ← some_or (lib.reth_genesis_hash set.reth_genesis) underived
    bail_if (not (text_eq computed m.genesis_hash)) (genesis_hash_mismatch computed)
    digest ← some_or (lib.summit_config_digest set.summit_genesis) underived
    bail_if (not (text_eq digest m.genesis_config_digest)) (config_digest_mismatch digest)
    check_embedded_hash m set.summit_genesis
    map_err manifest_gate (check_summit_genesis lib.from_toml m set.summit_genesis)
    map_err manifest_gate (check_policy lib.sha256 m set.policy)
    let alloc = lower_keys lib.to_lowercase (alloc_of (Json.get (codes "alloc") genesis)) []
    registry ← check_contract alloc (hex_0x lib.encode m.registry)
    authority ← check_contract alloc (hex_0x lib.encode m.authority)
    report ← some_or (lib.compile set.policy) uncompiled
    validate_registry_account lib.word_of lib.decode lib.keccak256 registry report
    ok (if text_eq m.namespace (codes "_SUMMIT") then default_namespace ∷ [] else [])
