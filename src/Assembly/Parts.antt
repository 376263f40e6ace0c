-- ===== src/Assembly/Parts.antt =====
-- What an assembled artifact set is, from the steps that make it.
use seismic.Prelude.{
  ℕ, ◌⊎◌, inl, inr, ◌++◌, Option-cases, >>=-eq-ok, ap, sym, ◌∙◌, Option, none, ◌≡◌, ◌≢◌, refl, some,
  List, [], ◌∷◌, arith, ok, ok_inj, some_or, some_or-eq-ok, bail_if, is_empty,
}
use seismic.Prelude.Text.{Text, codes}
use seismic.Json
use seismic.Json.{Json, Fields, as_object}
use seismic.Toml
use seismic.Toml.{Table}
use seismic.Manifest.{Manifest, ManifestFields, as_u64, get_from, from_json_bytes}
use seismic.Gates.{CompileReport}
use seismic.Gates.Run.{ArtifactSet, run_validation_gates}
use seismic.Gates.Run.Laws.{IsConsistent, run_validation_gates-IsConsistent}
use seismic.Gates
use seismic.Gates.{no_compiled_storage, no_alloc}
use seismic.Gates.Inject.{inject, inject_registry_genesis_storage}
use seismic.Gates.Inject.Laws.{IsInjected, inject-sets}
use seismic.Assembly.Fill.{IsFilled, fill_eth_genesis_hash-IsFilled}
use seismic.Assembly.{
  Assembled, AssembleInputs, fill_eth_genesis_hash, Derivations, with_placeholder,
}

-- The artifact set that is written and checked.
abbrev pub set_of : Assembled → ArtifactSet
set_of a = record {
  manifest = a.manifest;
  reth_genesis = a.reth_genesis;
  summit_genesis = a.summit_genesis;
  policy = a.policy;
}

pub filled_list :
    {A : Type 0} {E : Type 0} (xs : List A) (e : E) {u : Unit {0}}
    → bail_if (is_empty xs) e ≡ ok u
    → xs ≢ []
filled_list [] e h empty = absurd (ground arith)
filled_list (x ∷ xs) e h empty = absurd (ground arith)

as_u64-eq-some :
    (v : Option Json) (n : ℕ) → as_u64 v ≡ some n → v ≡ some (Json.number (Json.Number.unsigned n))
as_u64-eq-some none n h = absurd (ground arith)
as_u64-eq-some (some (Json.number (Json.Number.unsigned m))) n h = ground arith
as_u64-eq-some (some _) n h = absurd (ground arith)

module _ (d : Derivations) where
  -- The authored summit genesis as the template is made of it: with an empty set of validators when it has
  -- none.
  abbrev IsLoadable : Table → Text → Text → Type 0
  IsLoadable authored bytes base =
      ((Toml.get (codes "validators") authored ≢ none) × (base ≡ bytes))
      ⊎ ((Toml.get (codes "validators") authored ≡ none)
          × (base ≡ codes "validators = []" ++ 10 ∷ bytes))

  with_placeholder-IsLoadable :
      (authored : Table) (bytes : Text)
      → IsLoadable authored bytes (with_placeholder authored bytes)
  unfolding with_placeholder
  with_placeholder-IsLoadable authored bytes =
      elim (Option-cases (Toml.get (codes "validators") authored)) [
        | inl missing ↦ inr (missing, rw (with_placeholder, missing) refl)
        | inr (v, there) ↦
            inl ((λ missing. absurd (ground arith)), rw (with_placeholder, there) refl)
      ]

  -- The authored reth genesis with the compiled storage injected, as it is printed.
  pub record IsSeeded (bytes registry : Text) (report : CompileReport) (out : Text) : Type 0 where
    pub genesis : Fields
    pub genesis' : Fields
    pub parsed : d.lib.from_slice bytes ≡ some (Json.object genesis)
    pub injected : IsInjected d.lib.encode d.lib.to_lowercase genesis registry report genesis'
    pub printed : out ≡ d.to_vec_pretty (Json.object genesis') ++ 10 ∷ []

  as_object-eq-some : (v : Json) (fs : Fields) → as_object v ≡ some fs → v ≡ Json.object fs
  as_object-eq-some (Json.object gs) fs h = ap Json.object (ground arith)
  as_object-eq-some _ fs h = absurd (ground arith)

  inject_registry_genesis_storage-IsSeeded :
      (bytes registry : Text) (report : CompileReport) (out : Text)
      → inject_registry_genesis_storage d.lib.encode d.lib.to_lowercase d.lib.from_slice
          d.to_vec_pretty bytes registry report
        ≡ ok out
      → IsSeeded bytes registry report out
  unfolding inject_registry_genesis_storage
  inject_registry_genesis_storage-IsSeeded bytes registry report out h =
      let (u, e₁, h₁) =
        >>=-eq-ok (bail_if (is_empty report.registry_genesis_storage) no_compiled_storage) _ h in
      let (genesis, e₂, h₂) =
        >>=-eq-ok (some_or (d.lib.from_slice bytes) Gates.genesis_not_json) _ h₁ in
      let (fs, e₃, h₃) = >>=-eq-ok (some_or (as_object genesis) no_alloc) _ h₂ in
      let (fs', e₄, h₄) =
        >>=-eq-ok (inject d.lib.encode d.lib.to_lowercase fs registry report) _ h₃ in
      record {
        genesis = fs;
        genesis' = fs';
        parsed =
            some_or-eq-ok (d.lib.from_slice bytes) Gates.genesis_not_json e₂
            ∙ ap some
                (as_object-eq-some genesis fs (some_or-eq-ok (as_object genesis) no_alloc e₃));
        injected = (inject-sets d.lib.encode d.lib.to_lowercase fs registry report fs' e₄).0;
        printed = sym (ok_inj _ _ _ (sym h₄) refl);
      }

  -- The manifest is what the schema reads of the bytes, which are kept, under the identity of the bytes.
  abbrev IsParsedFrom : Text → Manifest → Type 0
  IsParsedFrom bytes m =
      (m.bytes ≡ bytes) × (d.schema bytes ≡ some m.parsed) × (m.network_id ≡ d.id_of bytes)

  from_json_bytes-IsParsedFrom :
      (bytes : Text) (m : Manifest)
      → from_json_bytes d.schema d.id_of bytes ≡ some m
      → IsParsedFrom bytes m
  unfolding from_json_bytes
  from_json_bytes-IsParsedFrom bytes m h = elim (Option-cases (d.schema bytes)) [
    | inl refused ↦ absurd (ground arith)
    | inr (fields, read) ↦
        let same : record { bytes = bytes; network_id = d.id_of bytes; parsed = fields } ≡ m =
          ground arith in
        rw (← same) (refl, read, refl)
  ]

  -- How the set's parts derive from the inputs, and the set as the gates accept it.
  pub record IsAssembled (inputs : AssembleInputs) (a : Assembled) : Type 0 where
    pub genesis : Json
    pub config : Json
    pub authored : Table
    pub report : CompileReport
    pub eth_hash : Text
    pub base : Text
    pub template : Text
    pub fields : ManifestFields
    pub seats : inputs.validators ≢ []
    pub same_policy : a.policy ≡ inputs.policy
    pub compiled : d.lib.compile inputs.policy ≡ some report
    pub seeded : IsSeeded inputs.reth_genesis inputs.registry report a.reth_genesis
    pub hashed : d.lib.reth_genesis_hash a.reth_genesis ≡ some eth_hash
    pub parsed : d.lib.from_toml inputs.summit_genesis ≡ some authored
    pub loadable : IsLoadable authored inputs.summit_genesis base
    pub filled : IsFilled d.trim_start d.lib.from_toml d.lib.encode base eth_hash template
    pub completed : d.summit_set_validators template inputs.validators ≡ some a.summit_genesis
    pub digested : d.lib.summit_config_digest a.summit_genesis ≡ some fields.genesis_config_digest
    pub rendered : IsParsedFrom (d.render inputs.name fields) a.manifest
    pub rendered_chain :
        (d.lib.from_slice inputs.reth_genesis ≡ some genesis)
        × (Json.get (codes "config") genesis ≡ some config)
        × (Json.get (codes "chainId") config
            ≡ some (Json.number (Json.Number.unsigned fields.chain_id)))
    pub rendered_namespace :
        Toml.as_str (Toml.get (codes "namespace") authored) ≡ some fields.namespace
    pub rendered_hash : fields.genesis_hash ≡ eth_hash
    pub rendered_policy : fields.bootstrap_policy_hash ≡ d.lib.sha256 inputs.policy
    pub rendered_contracts :
        (fields.registry ≡ inputs.registry) × (fields.authority ≡ inputs.authority)
    pub consistent : IsConsistent d.lib (set_of a) a.warnings

  chain_of :
      (genesis : Json) (n : ℕ)
      → as_u64 (get_from (codes "chainId") (Json.get (codes "config") genesis)) ≡ some n
      → (config : Json) × (Json.get (codes "config") genesis ≡ some config)
        × (Json.get (codes "chainId") config ≡ some (Json.number (Json.Number.unsigned n)))
  chain_of genesis n h = elim (Option-cases (Json.get (codes "config") genesis)) [
    | inl missing ↦ absurd (ground arith)
    | inr (config, there) ↦ (
      config,
      there,
      as_u64-eq-some (Json.get (codes "chainId") config) n
          (ap (λ x. as_u64 (get_from (codes "chainId") x)) (sym there) ∙ h),
    )
  ]

  -- The rendered fields.
  abbrev pub rendered_fields : AssembleInputs → ℕ → Text → Text → Text → ManifestFields
  rendered_fields inputs chain_id hash digest name = record {
    chain_id = chain_id;
    genesis_hash = hash;
    genesis_config_digest = digest;
    namespace = name;
    bootstrap_policy_hash = d.lib.sha256 inputs.policy;
    registry = inputs.registry;
    authority = inputs.authority;
  }

  -- The steps of an assembly, each of which gives its value, make an assembled set.
  pub assembled_of :
      (inputs : AssembleInputs) (genesis : Json) (chain_id : ℕ) (authored : Table) (name : Text)
      (report : CompileReport) (hash template digest : Text) (a : Assembled)
      → d.lib.from_slice inputs.reth_genesis ≡ some genesis
      → as_u64 (get_from (codes "chainId") (Json.get (codes "config") genesis)) ≡ some chain_id
      → d.lib.from_toml inputs.summit_genesis ≡ some authored
      → Toml.as_str (Toml.get (codes "namespace") authored) ≡ some name
      → d.lib.compile inputs.policy ≡ some report
      → inject_registry_genesis_storage d.lib.encode d.lib.to_lowercase d.lib.from_slice
          d.to_vec_pretty inputs.reth_genesis inputs.registry report
        ≡ ok a.reth_genesis
      → d.lib.reth_genesis_hash a.reth_genesis ≡ some hash
      → inputs.validators ≢ []
      → fill_eth_genesis_hash d.trim_start d.lib.from_toml d.lib.encode
          (with_placeholder authored inputs.summit_genesis)
          hash
        ≡ ok template
      → d.summit_set_validators template inputs.validators ≡ some a.summit_genesis
      → d.lib.summit_config_digest a.summit_genesis ≡ some digest
      → from_json_bytes d.schema d.id_of
          (d.render inputs.name (rendered_fields inputs chain_id hash digest name))
        ≡ some a.manifest
      → run_validation_gates d.lib (set_of a) ≡ ok a.warnings
      → a.policy ≡ inputs.policy
      → IsAssembled inputs a
  assembled_of inputs genesis chain_id authored name report hash template digest a e₁ e₂ e₃ e₄ e₅ e₆
        e₇ e₈ e₉ e₁₀ e₁₁ e₁₂ e₁₃ same_policy =
      let fields = rendered_fields inputs chain_id hash digest name in
      let base = with_placeholder authored inputs.summit_genesis in
      let (config, configured, numbered) = chain_of genesis chain_id e₂ in
      record {
        genesis = genesis;
        config = config;
        authored = authored;
        report = report;
        eth_hash = hash;
        base = base;
        template = template;
        fields = fields;
        seats = e₈;
        same_policy = same_policy;
        compiled = e₅;
        seeded =
            inject_registry_genesis_storage-IsSeeded inputs.reth_genesis inputs.registry report
              a.reth_genesis e₆;
        hashed = e₇;
        parsed = e₃;
        loadable = with_placeholder-IsLoadable authored inputs.summit_genesis;
        filled =
            fill_eth_genesis_hash-IsFilled d.trim_start d.lib.from_toml d.lib.encode base hash
              template e₉;
        completed = e₁₀;
        digested = e₁₁;
        rendered = from_json_bytes-IsParsedFrom (d.render inputs.name fields) a.manifest e₁₂;
        rendered_chain = (e₁, configured, numbered);
        rendered_namespace = e₄;
        rendered_hash = refl;
        rendered_policy = refl;
        rendered_contracts = (refl, refl);
        consistent = run_validation_gates-IsConsistent d.lib (set_of a) a.warnings e₁₃;
      }
