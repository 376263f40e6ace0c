-- ===== src/Audit/Vouched.antt =====
-- What an audit that passes has established of the founding.
use seismic.Prelude.{
  ◌≡◌, refl, sym, ap, ◌∙◌, ◌⊎◌, Bool, true, Option, none, some, List, arith, ok, some_or, map_err,
  >>=-eq-ok, some_or-eq-ok, map_err-eq-ok, bail_if-eq-ok, All, is_some, get_or_else,
}
use seismic.Prelude.Text.{Text, codes, text_eq, text_eq_iff}
use seismic.Prelude.Split.{strip_prefix}
use seismic.Prelude.Map.{keys}
use seismic.Json.{Json}
use seismic.Toml.{Table}
use seismic.Founding.{FoundingRecords, load_harvest_records}
use seismic.Manifest.{Manifest, ManifestFields, from_json_bytes, check_policy, check_summit_genesis}
use seismic.Manifest.Laws.{HasNamespace, check_summit_genesis-HasNamespace, check_policy-eq-ok}
use seismic.Context.Config.{Config}
use seismic.Context.Select.{load}
use seismic.Audit.{
  ValidatorKeys, no_manifest, bad_manifest, no_policy, no_summit_genesis, wrong_policy,
  wrong_summit_genesis, bad_records, bad_policy, pinned_validator_keys,
  check_records_are_the_pinned_set, verify_harvest_records, NetworkFiles, narrow, FoundingAudit,
  audit_founding, pinned_network_id, check_network_id, run, context,
}
use seismic.Audit.Laws.{
  AllSeated, AllVouched, IsNarrowed, check_records-Seated, verify_records-All, narrow-IsNarrowed,
}

module _ (schema : Text → Option ManifestFields) (id_of : Text → Text) (sha256 : Text → Text)
    (from_slice : Text → Option Json) (from_toml : Text → Option Table) {Policy : Type 0}
    (policy_of : Text → Option Policy) (replay : Policy → Json → Bool) where
  -- A founding that is vouched for: the manifest pins the policy by its hash and the genesis by its
  -- namespace; the archive is that of the directory, narrowed to the record asked for; each of its records
  -- is seated in the genesis and replays under the policy; and each seat is of one of the records, unless
  -- one was asked for.
  pub record IsVouched (dir : NetworkFiles) (name : Option Text) (a : FoundingAudit) : Type 0 where
    pub manifest_bytes : Text
    pub policy_bytes : Text
    pub genesis : Text
    pub policy : Policy
    pub pinned : List ValidatorKeys
    pub loaded : FoundingRecords
    pub archived : FoundingRecords
    pub manifest_read : dir.manifest ≡ some manifest_bytes
    pub policy_read : dir.policy ≡ some policy_bytes
    pub genesis_read : dir.summit_genesis ≡ some genesis
    pub manifest_parsed : from_json_bytes schema id_of manifest_bytes ≡ some a.manifest
    pub policy_committed : sha256 policy_bytes ≡ a.manifest.parsed.bootstrap_policy_hash
    pub policy_parsed : policy_of policy_bytes ≡ some policy
    pub namespaced : HasNamespace from_toml a.manifest.parsed genesis
    pub seats : pinned_validator_keys from_toml genesis ≡ ok pinned
    pub records_loaded : load_harvest_records from_slice dir.harvest ≡ ok loaded
    pub narrowed : IsNarrowed loaded name archived
    pub seated : AllSeated archived pinned
    pub vouched_for : (is_some name ≡ true) ⊎ AllVouched archived pinned
    pub replayed : All (λ e. replay policy e.1.document ≡ true) archived
    pub reported : a.verified ≡ keys archived

  pub audit_founding-IsVouched :
      (dir : NetworkFiles) (name : Option Text) (a : FoundingAudit)
      → audit_founding schema id_of sha256 from_slice from_toml policy_of replay dir name ≡ ok a
      → IsVouched dir name a
  unfolding audit_founding verify_harvest_records
  audit_founding-IsVouched dir name a h =
      let (mb, e₁, h₁) = >>=-eq-ok (some_or dir.manifest no_manifest) _ h in
      let (m, e₂, h₂) = >>=-eq-ok (some_or (from_json_bytes schema id_of mb) bad_manifest) _ h₁ in
      let (pb, e₃, h₃) = >>=-eq-ok (some_or dir.policy no_policy) _ h₂ in
      let (u₄, e₄, h₄) = >>=-eq-ok (map_err wrong_policy (check_policy sha256 m.parsed pb)) _ h₃ in
      let (g, e₅, h₅) = >>=-eq-ok (some_or dir.summit_genesis no_summit_genesis) _ h₄ in
      let (u₆, e₆, h₆) =
        >>=-eq-ok (map_err wrong_summit_genesis (check_summit_genesis from_toml m.parsed g)) _ h₅ in
      let (pinned, e₇, h₇) = >>=-eq-ok (pinned_validator_keys from_toml g) _ h₆ in
      let (loaded, e₈, h₈) =
        >>=-eq-ok (map_err bad_records (load_harvest_records from_slice dir.harvest)) _ h₇ in
      let (archived, e₉, h₉) = >>=-eq-ok (narrow loaded name) _ h₈ in
      let (u₁₀, e₁₀, h₁₀) =
        >>=-eq-ok (check_records_are_the_pinned_set archived pinned (is_some name)) _ h₉ in
      let (u₁₁, e₁₁, h₁₁) = >>=-eq-ok (verify_harvest_records replay policy_of archived pb) _ h₁₀ in
      let (policy, e₁₂, h₁₂) = >>=-eq-ok (some_or (policy_of pb) bad_policy) _ e₁₁ in
      let same : a ≡ record { manifest = m; verified = keys archived } = ground arith in
      let (seated, vouched_for) = check_records-Seated archived pinned (is_some name) e₁₀ in
      rw same (record {
        manifest_bytes = mb;
        policy_bytes = pb;
        genesis = g;
        policy = policy;
        pinned = pinned;
        loaded = loaded;
        archived = archived;
        manifest_read = some_or-eq-ok dir.manifest no_manifest e₁;
        policy_read = some_or-eq-ok dir.policy no_policy e₃;
        genesis_read = some_or-eq-ok dir.summit_genesis no_summit_genesis e₅;
        manifest_parsed = some_or-eq-ok (from_json_bytes schema id_of mb) bad_manifest e₂;
        policy_committed = check_policy-eq-ok sha256 m.parsed pb (map_err-eq-ok wrong_policy _ e₄);
        policy_parsed = some_or-eq-ok (policy_of pb) bad_policy e₁₂;
        namespaced =
            check_summit_genesis-HasNamespace from_toml m.parsed g
              (map_err-eq-ok wrong_summit_genesis _ e₆);
        seats = e₇;
        records_loaded = map_err-eq-ok bad_records _ e₈;
        narrowed = narrow-IsNarrowed loaded name archived e₉;
        seated = seated;
        vouched_for = vouched_for;
        replayed = verify_records-All replay policy archived h₁₂;
        reported = refl;
      })

  -- The pin of the context, when it has one, is the manifest's network id without its `0x`.
  abbrev pub IsPinned : Option Text → Manifest → Type 0
  IsPinned none m = Unit {0}
  IsPinned (some pin) m = get_or_else (strip_prefix (codes "0x") m.network_id) m.network_id ≡ pin

  check_network_id-IsPinned :
      (dir : NetworkFiles) (pin : Option Text) (bytes : Text) (m : Manifest)
      → dir.manifest ≡ some bytes
      → from_json_bytes schema id_of bytes ≡ some m
      → check_network_id schema id_of sha256 from_slice from_toml policy_of replay dir pin ≡ ok tt
      → IsPinned pin m
  unfolding check_network_id
  check_network_id-IsPinned dir none bytes m read parsed h = tt
  check_network_id-IsPinned dir (some pin) bytes m read parsed h =
      let (b, e₁, h₁) = >>=-eq-ok (some_or dir.manifest bad_manifest) _ h in
      let (m', e₂, h₂) = >>=-eq-ok (some_or (from_json_bytes schema id_of b) bad_manifest) _ h₁ in
      let same : b ≡ bytes =
        (let p : some b ≡ some bytes = sym (some_or-eq-ok dir.manifest bad_manifest e₁) ∙ read in
          ground arith) in
      let same' : m' ≡ m =
        (let p : some m' ≡ some m =
            sym (some_or-eq-ok (from_json_bytes schema id_of b) bad_manifest e₂)
            ∙ ap (from_json_bytes schema id_of) same
            ∙ parsed in
          ground arith) in
      let bare = get_or_else (strip_prefix (codes "0x") m'.network_id) m'.network_id in
      let pinned : bare ≡ pin = (text_eq_iff bare pin).0 (bail_if-eq-ok (text_eq bare pin) _ h₂) in
      ap (λ x. get_or_else (strip_prefix (codes "0x") x.network_id) x.network_id) (sym same')
      ∙ pinned

  -- `verify-founding` that passes has loaded the context; the manifest's network id is the one that the
  -- selected network of the context is pinned to, if one is selected and pinned; and the founding is
  -- vouched for: the manifest pins the policy by its hash and the genesis by its namespace, every archived
  -- record is seated in the genesis and replays under that policy, and every seat is of an archived record,
  -- unless a single record was asked for.
  pub run-IsVouched :
      (parse : Text → Option Config) (dir : NetworkFiles) (file requested name : Option Text)
      (a : FoundingAudit)
      → run schema id_of sha256 from_slice from_toml policy_of replay parse dir file requested name
        ≡ ok a
      → (c : Config) × (load parse file ≡ ok c)
        × IsPinned
            (pinned_network_id schema id_of sha256 from_slice from_toml policy_of replay c
              requested)
            a.manifest
        × IsVouched dir name a
  unfolding run
  run-IsVouched parse dir file requested name a h =
      let (c, e₁, h₁) = >>=-eq-ok (map_err context (load parse file)) _ h in
      let pin =
        pinned_network_id schema id_of sha256 from_slice from_toml policy_of replay c requested in
      let (u, e₂, h₂) =
        >>=-eq-ok
          (check_network_id schema id_of sha256 from_slice from_toml policy_of replay dir pin) _
          h₁ in
      let v = audit_founding-IsVouched dir name a h₂ in
      (
        c,
        map_err-eq-ok context _ e₁,
        check_network_id-IsPinned dir pin v.manifest_bytes a.manifest v.manifest_read
            v.manifest_parsed e₂,
        v,
      )
