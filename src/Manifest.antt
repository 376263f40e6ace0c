-- ===== src/Manifest.antt =====
-- The network manifest and the checks of the artifacts that it pins: tee/cli/common/src/manifest.rs. The
-- schema and the network id are the enclave crate's, the digest is sha2's: parameters. A failure is a
-- `GateError`, one for each message, in place of its text.
pub mod Laws
use seismic.Prelude.{
  ℕ, Bool, true, false, not, Option, none, some, Result, ok, err, ◌>>=◌, ◌>>◌, bail_if, some_or,
  ◌==◌,
}
use seismic.Prelude.Text.{Text, codes, text_eq}
use seismic.Json
use seismic.Json.{Json, Number, unsigned}
use seismic.Toml
use seismic.Toml.{Table}

-- The fields of `NetworkManifestV1` that the tool reads; hashes and addresses are their bytes.
pub record ManifestFields : Type 0 where
  pub chain_id : ℕ
  pub genesis_hash : Text
  pub genesis_config_digest : Text
  pub namespace : Text
  pub bootstrap_policy_hash : Text
  pub registry : Text
  pub authority : Text

-- `Manifest`: the bytes, the id they derive and what they parse as.
pub record Manifest : Type 0 where
  pub bytes : Text
  pub network_id : Text
  pub parsed : ManifestFields

pub data GateError : Type 0 where
  genesis_not_json : GateError
  chain_id_not_int : GateError
  chain_id_mismatch : ℕ → ℕ → GateError
  summit_not_toml : GateError
  namespace_not_string : GateError
  namespace_mismatch : Text → Text → GateError
  policy_hash_mismatch : Text → Text → GateError

-- `as_u64`
abbrev pub as_u64 : Option Json → Option ℕ
as_u64 (some (Json.number (unsigned n))) = some n
as_u64 v = none

-- `value.get(key)` on a value that may be missing.
abbrev pub get_from : Text → Option Json → Option Json
get_from k none = none
get_from k (some v) = Json.get k v

-- `from_json_bytes`; none is a `ManifestError` of the schema.
module _ (schema : Text → Option ManifestFields) (id_of : Text → Text) where
  unfoldable pub from_json_bytes : Text → Option Manifest
  from_json_bytes bytes = elim (schema bytes) [
    | none ↦ none
    | some fields ↦ some (record { bytes = bytes; network_id = id_of bytes; parsed = fields })
  ]

module _ (from_slice : Text → Option Json) where
  unfoldable pub check_reth_genesis : ManifestFields → Text → Result GateError Unit
  check_reth_genesis m genesis = do
    value ← some_or (from_slice genesis) genesis_not_json
    chain_id ←
        some_or (as_u64 (get_from (codes "chainId") (Json.get (codes "config") value)))
          chain_id_not_int
    bail_if (not (chain_id == m.chain_id)) (chain_id_mismatch chain_id m.chain_id)

-- The genesis as TOML: none for text that is not UTF-8 too.
module _ (from_toml : Text → Option Table) where
  unfoldable pub check_summit_genesis : ManifestFields → Text → Result GateError Unit
  check_summit_genesis m genesis = do
    table ← some_or (from_toml genesis) summit_not_toml
    namespace ← some_or (Toml.as_str (Toml.get (codes "namespace") table)) namespace_not_string
    bail_if (not (text_eq namespace m.namespace)) (namespace_mismatch namespace m.namespace)

module _ (sha256 : Text → Text) where
  unfoldable pub check_policy : ManifestFields → Text → Result GateError Unit
  check_policy m policy =
      bail_if (not (text_eq (sha256 policy) m.bootstrap_policy_hash))
        (policy_hash_mismatch m.bootstrap_policy_hash (sha256 policy))
