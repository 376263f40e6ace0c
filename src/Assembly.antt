-- ===== src/Assembly.antt =====
-- The artifact set that `network assemble` derives, writes and checks: tee/cli/network/src/assemble.rs.
-- The sibling binaries, the renderer of the manifest and the parsers are parameters, and so is
-- `str::trim_start`. The disk is a map from paths to texts, in which a file that is there can be read.
pub mod Refill
pub mod Parts
pub mod Laws
pub mod Fill
pub mod Files
mod Tests
use seismic.Prelude.{
  ℕ, Bool, true, false, not, ◌&&◌, ◌||◌, Option, none, some, List, [], ◌∷◌, ◌++◌, Result, ok, err,
  ◌>>=◌, ◌>>◌, bail_if, some_or, map_err, if◌then◌else◌, is_some, is_empty, ◌==◌,
}
use seismic.Prelude.Text.{Text, codes, text_eq}
use seismic.Prelude.Split.{strip_prefix}
use seismic.Prelude.Map.{Map, insert, lookup, contains_key}
use seismic.Json
use seismic.Json.{Json}
use seismic.Toml
use seismic.Toml.{Table}
use seismic.Paths
use seismic.Paths.{NetworkDir}
use seismic.Founding.{Validator}
use seismic.Cohort.Splice.{split_inclusive}
use seismic.Manifest.{Manifest, ManifestFields, as_u64, get_from, from_json_bytes}
use seismic.Gates.{GateFailure, CompileReport}
use seismic.Gates.Run.{ArtifactSet, Warning, Libraries, hex_0x, run_validation_gates}
use seismic.Gates.Inject.{inject_registry_genesis_storage}

pub data AssembleError : Type 0 where
  genesis_not_json : AssembleError
  chain_id_not_int : AssembleError
  summit_not_toml : AssembleError
  no_namespace : AssembleError
  uncompiled : AssembleError
  gate : GateFailure → AssembleError
  underived : AssembleError
  no_validators : AssembleError
  unusual_layout : AssembleError
  bad_manifest : AssembleError
  manifest_exists : Text → AssembleError
  not_written : Text → AssembleError
  wrong_files : List (Text × Bool) → AssembleError

-- `Assembled`
pub record Assembled : Type 0 where
  pub manifest : Manifest
  pub policy : Text
  pub reth_genesis : Text
  pub summit_genesis : Text
  pub warnings : List Warning

-- `AssembleInputs`
pub record AssembleInputs : Type 0 where
  pub name : Text
  pub reth_genesis : Text
  pub summit_genesis : Text
  pub policy : Text
  pub validators : List Validator
  pub registry : Text
  pub authority : Text

abbrev pub starts_with : ℕ → Text → Bool
starts_with c [] = false
starts_with c (d ∷ s) = d == c

module _ (trim_start : Text → Text) where
  -- A line that sets the hash.
  unfoldable pub sets_hash : Text → Bool
  unfolding strip_prefix
  sets_hash line = elim (strip_prefix (codes "eth_genesis_hash") (trim_start line)) [
    | none ↦ false
    | some rest ↦ starts_with b'=' (trim_start rest)
  ]

  -- The loop of `fill_eth_genesis_hash`: the lines kept, none of them a top-level one that sets the hash.
  unfoldable pub kept_lines : Bool → List Text → Text
  unfolding sets_hash
  kept_lines in_table [] = []
  kept_lines in_table (line ∷ lines) =
      let inside = in_table || starts_with b'[' (trim_start line) in
      let rest = kept_lines inside lines in
      if not inside && sets_hash line then rest else line ++ rest

  module _ (from_toml : Text → Option Table) (encode : Text → Text) where
    unfoldable pub fill_eth_genesis_hash : Text → Text → Result AssembleError Text
    unfolding kept_lines split_inclusive hex_0x
    fill_eth_genesis_hash authored hash = do
      let kept = kept_lines false (split_inclusive authored)
      parsed ← some_or (from_toml kept) summit_not_toml
      bail_if (is_some (Toml.get (codes "eth_genesis_hash") parsed)) unusual_layout
      ok (codes "eth_genesis_hash = " ++ b'"' ∷ (hex_0x encode hash ++ b'"' ∷ 10 ∷ kept))

-- What `assemble` calls besides the libraries of the gates.
pub record Derivations : Type 0 where
  pub lib : Libraries
  pub trim_start : Text → Text
  pub to_vec_pretty : Json → Text
  pub summit_set_validators : Text → List Validator → Option Text
  pub render : Text → ManifestFields → Text
  pub schema : Text → Option ManifestFields
  pub id_of : Text → Text

-- The authored summit genesis, with an empty set of validators when it has none.
unfoldable pub with_placeholder : Table → Text → Text
with_placeholder authored bytes =
    if is_some (Toml.get (codes "validators") authored)
    then bytes
    else codes "validators = []" ++ 10 ∷ bytes

module _ (d : Derivations) where
  unfoldable pub assemble : AssembleInputs → Result AssembleError Assembled
  unfolding inject_registry_genesis_storage with_placeholder fill_eth_genesis_hash from_json_bytes
      run_validation_gates
  assemble inputs = do
    genesis ← some_or (d.lib.from_slice inputs.reth_genesis) genesis_not_json
    chain_id ←
        some_or (as_u64 (get_from (codes "chainId") (Json.get (codes "config") genesis)))
          chain_id_not_int
    authored ← some_or (d.lib.from_toml inputs.summit_genesis) summit_not_toml
    namespace ← some_or (Toml.as_str (Toml.get (codes "namespace") authored)) no_namespace
    report ← some_or (d.lib.compile inputs.policy) uncompiled
    reth_genesis ← map_err gate (
        inject_registry_genesis_storage d.lib.encode d.lib.to_lowercase d.lib.from_slice
          d.to_vec_pretty inputs.reth_genesis inputs.registry report)
    eth_hash ← some_or (d.lib.reth_genesis_hash reth_genesis) underived
    bail_if (is_empty inputs.validators) no_validators
    template ←
        fill_eth_genesis_hash d.trim_start d.lib.from_toml d.lib.encode
          (with_placeholder authored inputs.summit_genesis) eth_hash
    summit_genesis ← some_or (d.summit_set_validators template inputs.validators) underived
    config_digest ← some_or (d.lib.summit_config_digest summit_genesis) underived
    manifest ←
        some_or
          (from_json_bytes d.schema d.id_of (
            d.render inputs.name (record {
              chain_id = chain_id;
              genesis_hash = eth_hash;
              genesis_config_digest = config_digest;
              namespace = namespace;
              bootstrap_policy_hash = d.lib.sha256 inputs.policy;
              registry = inputs.registry;
              authority = inputs.authority;
            })))
          bad_manifest
    warnings ← map_err gate (
        run_validation_gates d.lib (record {
          manifest = manifest;
          reth_genesis = reth_genesis;
          summit_genesis = summit_genesis;
          policy = inputs.policy;
        }))
    ok (record {
      manifest = manifest;
      policy = inputs.policy;
      reth_genesis = reth_genesis;
      summit_genesis = summit_genesis;
      warnings = warnings;
    })

unfoldable pub artifact_files : NetworkDir → Assembled → List (Text × Text)
artifact_files dir a =
    (Paths.manifest dir, a.manifest.bytes)
    ∷ (Paths.policy dir, a.policy)
    ∷ (Paths.reth_genesis dir, a.reth_genesis)
    ∷ (Paths.summit_genesis dir, a.summit_genesis)
    ∷ []

-- The disk that is left, and the result. `can_write` says of a path whether its write succeeds.
module _ (can_write : Text → Bool) where
  unfoldable pub write_all : Map Text → List (Text × Text) → Map Text × Result AssembleError Unit
  write_all disk [] = (disk, ok tt)
  write_all disk ((path, bytes) ∷ files) =
      let rest = write_all (insert path bytes disk) files in
      if can_write path then rest else (disk, err (not_written path))

  unfoldable pub write_artifact_set :
      Map Text → NetworkDir → Assembled → Bool → Map Text × Result AssembleError Unit
  unfolding artifact_files write_all
  write_artifact_set disk dir a force =
      if contains_key (Paths.manifest dir) disk && not force
      then (disk, err (manifest_exists (Paths.manifest dir)))
      else write_all disk (artifact_files dir a)

-- The files that are not as derived, each with whether it is there.
unfoldable pub wrong_of : Map Text → List (Text × Text) → List (Text × Bool)
wrong_of disk [] = []
wrong_of disk ((path, derived) ∷ files) =
    let rest = wrong_of disk files in
    elim (lookup path disk) [
      | none ↦ (path, false) ∷ rest
      | some on_disk ↦ if text_eq on_disk derived then rest else (path, true) ∷ rest
    ]

unfoldable pub check_artifact_set : Map Text → NetworkDir → Assembled → Result AssembleError Unit
unfolding artifact_files wrong_of
check_artifact_set disk dir a =
    bail_if (not (is_empty (wrong_of disk (artifact_files dir a))))
      (wrong_files (wrong_of disk (artifact_files dir a)))
