-- ===== src/Gates/Run/Laws.antt =====
-- What an artifact set that passes the gates is.
use seismic.Prelude.{
  ◌≡◌, sym, ap, ◌∙◌, true, not, some, List, [], ◌∷◌, arith, ok, >>=-eq-ok, some_or, some_or-eq-ok,
  map_err, map_err-eq-ok, bail_if, bail_if-eq-ok, bail_if_then-eq-ok, if◌then◌else◌,
}
use seismic.Prelude.Text.{Text, codes, text_eq, text_eq_iff}
use seismic.Prelude.Map.{Map, lookup}
use seismic.Json
use seismic.Json.{Json}
use seismic.Toml
use seismic.Toml.{Table}
use seismic.Manifest.{ManifestFields, check_reth_genesis, check_summit_genesis, check_policy}
use seismic.Manifest.Laws.{
  HasChain, HasNamespace, check_reth_genesis-HasChain, check_summit_genesis-HasNamespace,
  check_policy-eq-ok,
}
use seismic.Gates.{
  genesis_not_json, not_in_alloc, manifest_gate, underived, genesis_hash_mismatch,
  config_digest_mismatch, summit_not_toml, embedded_hash_mismatch, no_code, uncompiled,
  CompileReport, validate_registry_account,
}
use seismic.Gates.Laws.{IsSeeded, validate_registry_account-IsSeeded}
use seismic.Gates.Run.{
  ArtifactSet, Warning, default_namespace, Libraries, hex_0x, lower_keys, alloc_of, has_code,
  check_contract, check_embedded_hash, run_validation_gates,
}

-- The address has an account with code.
abbrev pub HasContract : Map Json → Text → Json → Type 0
HasContract alloc address account =
    (lookup address alloc ≡ some account) × (has_code account ≡ true)

check_contract-HasContract :
    (alloc : Map Json) (address : Text) (account : Json)
    → check_contract alloc address ≡ ok account
    → HasContract alloc address account
unfolding check_contract
check_contract-HasContract alloc address account h =
    let (found, e, h₁) = >>=-eq-ok (some_or (lookup address alloc) (not_in_alloc address)) _ h in
    let (coded, same) = bail_if_then-eq-ok (has_code found) (no_code address) found h₁ in
    (
      some_or-eq-ok (lookup address alloc) (not_in_alloc address) e ∙ ap some same,
      ap has_code (sym same) ∙ coded,
    )

module _ (lib : Libraries) where
  -- The summit genesis embeds the manifest's genesis hash.
  abbrev pub EmbedsHash : ManifestFields → Text → Type 0
  EmbedsHash m genesis =
      (table : Table) × (hash : Text) × (lib.from_toml genesis ≡ some table)
      × (Toml.as_str (Toml.get (codes "eth_genesis_hash") table) ≡ some hash)
      × (lib.to_lowercase hash ≡ hex_0x lib.encode m.genesis_hash)

  check_embedded_hash-EmbedsHash :
      (m : ManifestFields) (genesis : Text)
      → check_embedded_hash lib m genesis ≡ ok tt
      → EmbedsHash m genesis
  unfolding check_embedded_hash
  check_embedded_hash-EmbedsHash m genesis h =
      let (table, e₁, h₁) = >>=-eq-ok (some_or (lib.from_toml genesis) summit_not_toml) _ h in
      let embedded = Toml.as_str (Toml.get (codes "eth_genesis_hash") table) in
      let (hash, e₂, h₂) = >>=-eq-ok (some_or embedded embedded_hash_mismatch) _ h₁ in
      let wanted = hex_0x lib.encode m.genesis_hash in
      (
        table,
        hash,
        some_or-eq-ok (lib.from_toml genesis) summit_not_toml e₁,
        some_or-eq-ok embedded embedded_hash_mismatch e₂,
        (text_eq_iff (lib.to_lowercase hash) wanted).0
            (bail_if-eq-ok (text_eq (lib.to_lowercase hash) wanted) _ h₂),
      )

  -- Every pin of the manifest is that of the files, the two contracts have code, and the registry's account
  -- is seeded from the policy that the manifest commits to.
  pub record IsConsistent (set : ArtifactSet) (warnings : List Warning) : Type 0 where
    pub genesis : Json
    pub registry : Json
    pub authority : Json
    pub report : CompileReport
    pub parsed : lib.from_slice set.reth_genesis ≡ some genesis
    pub chain : HasChain lib.from_slice set.manifest.parsed set.reth_genesis
    pub genesis_hash :
        lib.reth_genesis_hash set.reth_genesis ≡ some set.manifest.parsed.genesis_hash
    pub config_digest :
        lib.summit_config_digest set.summit_genesis ≡ some set.manifest.parsed.genesis_config_digest
    pub embedded : EmbedsHash set.manifest.parsed set.summit_genesis
    pub namespace : HasNamespace lib.from_toml set.manifest.parsed set.summit_genesis
    pub policy_hash : lib.sha256 set.policy ≡ set.manifest.parsed.bootstrap_policy_hash
    pub registry_held :
        HasContract
          (lower_keys lib.to_lowercase (alloc_of (Json.get (codes "alloc") genesis)) [])
          (hex_0x lib.encode set.manifest.parsed.registry)
          registry
    pub authority_held :
        HasContract
          (lower_keys lib.to_lowercase (alloc_of (Json.get (codes "alloc") genesis)) [])
          (hex_0x lib.encode set.manifest.parsed.authority)
          authority
    pub compiled : lib.compile set.policy ≡ some report
    pub seeded : IsSeeded lib.word_of lib.decode lib.keccak256 registry report
    pub warned : warnings ≡ (
        if text_eq set.manifest.parsed.namespace (codes "_SUMMIT")
        then default_namespace ∷ []
        else [])

  -- An artifact set that passes the gates is consistent: the reth genesis has the manifest's chain id and
  -- the derived genesis hash, the summit genesis has the derived digest, embeds that hash and has the
  -- manifest's namespace, and the policy has the manifest's hash; registry and authority are accounts of
  -- the genesis with code; and the registry's account holds the canonical runtime with exactly the storage
  -- that the policy compiles to, which is not empty. The one warning is for the default namespace.
  pub run_validation_gates-IsConsistent :
      (set : ArtifactSet) (warnings : List Warning)
      → run_validation_gates lib set ≡ ok warnings
      → IsConsistent set warnings
  unfolding run_validation_gates
  run_validation_gates-IsConsistent set warnings h =
      let m = set.manifest.parsed in
      let (u₁, e₁, h₁) =
        >>=-eq-ok (map_err manifest_gate (check_reth_genesis lib.from_slice m set.reth_genesis)) _
          h in
      let (genesis, e₂, h₂) =
        >>=-eq-ok (some_or (lib.from_slice set.reth_genesis) genesis_not_json) _ h₁ in
      let (computed, e₃, h₃) =
        >>=-eq-ok (some_or (lib.reth_genesis_hash set.reth_genesis) underived) _ h₂ in
      let (u₄, e₄, h₄) =
        >>=-eq-ok (bail_if (not (text_eq computed m.genesis_hash)) (genesis_hash_mismatch computed))
          _ h₃ in
      let (digest, e₅, h₅) =
        >>=-eq-ok (some_or (lib.summit_config_digest set.summit_genesis) underived) _ h₄ in
      let (u₆, e₆, h₆) =
        >>=-eq-ok
          (bail_if (not (text_eq digest m.genesis_config_digest)) (config_digest_mismatch digest)) _
          h₅ in
      let (u₇, e₇, h₇) = >>=-eq-ok (check_embedded_hash lib m set.summit_genesis) _ h₆ in
      let (u₈, e₈, h₈) =
        >>=-eq-ok (map_err manifest_gate (check_summit_genesis lib.from_toml m set.summit_genesis))
          _ h₇ in
      let (u₉, e₉, h₉) =
        >>=-eq-ok (map_err manifest_gate (check_policy lib.sha256 m set.policy)) _ h₈ in
      let alloc = lower_keys lib.to_lowercase (alloc_of (Json.get (codes "alloc") genesis)) [] in
      let (registry, e₁₀, h₁₀) =
        >>=-eq-ok (check_contract alloc (hex_0x lib.encode m.registry)) _ h₉ in
      let (authority, e₁₁, h₁₁) =
        >>=-eq-ok (check_contract alloc (hex_0x lib.encode m.authority)) _ h₁₀ in
      let (report, e₁₂, h₁₂) = >>=-eq-ok (some_or (lib.compile set.policy) uncompiled) _ h₁₁ in
      let (u₁₃, e₁₃, h₁₃) =
        >>=-eq-ok (validate_registry_account lib.word_of lib.decode lib.keccak256 registry report) _
          h₁₂ in
      let hash =
        (text_eq_iff computed m.genesis_hash).0
          (bail_if-eq-ok (text_eq computed m.genesis_hash) _ e₄) in
      let config =
        (text_eq_iff digest m.genesis_config_digest).0
          (bail_if-eq-ok (text_eq digest m.genesis_config_digest) _ e₆) in
      record {
        genesis = genesis;
        registry = registry;
        authority = authority;
        report = report;
        parsed = some_or-eq-ok (lib.from_slice set.reth_genesis) genesis_not_json e₂;
        chain =
            check_reth_genesis-HasChain lib.from_slice m set.reth_genesis
              (map_err-eq-ok manifest_gate _ e₁);
        genesis_hash =
            some_or-eq-ok (lib.reth_genesis_hash set.reth_genesis) underived e₃ ∙ ap some hash;
        config_digest =
            some_or-eq-ok (lib.summit_config_digest set.summit_genesis) underived e₅
            ∙ ap some config;
        embedded = check_embedded_hash-EmbedsHash m set.summit_genesis e₇;
        namespace =
            check_summit_genesis-HasNamespace lib.from_toml m set.summit_genesis
              (map_err-eq-ok manifest_gate _ e₈);
        policy_hash = check_policy-eq-ok lib.sha256 m set.policy (map_err-eq-ok manifest_gate _ e₉);
        registry_held =
            check_contract-HasContract alloc (hex_0x lib.encode m.registry) registry e₁₀;
        authority_held =
            check_contract-HasContract alloc (hex_0x lib.encode m.authority) authority e₁₁;
        compiled = some_or-eq-ok (lib.compile set.policy) uncompiled e₁₂;
        seeded =
            validate_registry_account-IsSeeded lib.word_of lib.decode lib.keccak256 registry report
              e₁₃;
        warned = (let w : ok _ ≡ ok warnings = h₁₃ in ground arith);
      }
