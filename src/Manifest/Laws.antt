-- ===== src/Manifest/Laws.antt =====
-- What the checks of the pinned artifacts accept.
use seismic.Prelude.{
  ◌≡◌, ap, ◌∙◌, Option, some, ok, >>=-eq-ok, some_or, some_or-eq-ok, bail_if-eq-ok, ==_iff, ◌==◌,
}
use seismic.Prelude.Text.{Text, codes, text_eq, text_eq_iff}
use seismic.Json
use seismic.Json.{Json}
use seismic.Toml
use seismic.Toml.{Table}
use seismic.Manifest.{
  ManifestFields, genesis_not_json, chain_id_not_int, summit_not_toml, namespace_not_string, as_u64,
  get_from, check_reth_genesis, check_summit_genesis, check_policy,
}

-- The reth genesis is JSON with the manifest's chain id.
abbrev pub HasChain : (Text → Option Json) → ManifestFields → Text → Type 0
HasChain from_slice m genesis =
    (value : Json) × (from_slice genesis ≡ some value)
    × (as_u64 (get_from (codes "chainId") (Json.get (codes "config") value)) ≡ some m.chain_id)

-- The summit genesis is TOML with the manifest's namespace.
abbrev pub HasNamespace : (Text → Option Table) → ManifestFields → Text → Type 0
HasNamespace from_toml m genesis =
    (table : Table) × (from_toml genesis ≡ some table)
    × (Toml.as_str (Toml.get (codes "namespace") table) ≡ some m.namespace)

pub check_reth_genesis-HasChain :
    (from_slice : Text → Option Json) (m : ManifestFields) (genesis : Text)
    → check_reth_genesis from_slice m genesis ≡ ok tt
    → HasChain from_slice m genesis
unfolding check_reth_genesis
check_reth_genesis-HasChain from_slice m genesis h =
    let (value, e₁, h₁) = >>=-eq-ok (some_or (from_slice genesis) genesis_not_json) _ h in
    let id = as_u64 (get_from (codes "chainId") (Json.get (codes "config") value)) in
    let (n, e₂, h₂) = >>=-eq-ok (some_or id chain_id_not_int) _ h₁ in
    let same = (==_iff n m.chain_id).0 (bail_if-eq-ok (n == m.chain_id) _ h₂) in
    (
      value,
      some_or-eq-ok (from_slice genesis) genesis_not_json e₁,
      some_or-eq-ok id chain_id_not_int e₂ ∙ ap some same,
    )

pub check_summit_genesis-HasNamespace :
    (from_toml : Text → Option Table) (m : ManifestFields) (genesis : Text)
    → check_summit_genesis from_toml m genesis ≡ ok tt
    → HasNamespace from_toml m genesis
unfolding check_summit_genesis
check_summit_genesis-HasNamespace from_toml m genesis h =
    let (table, e₁, h₁) = >>=-eq-ok (some_or (from_toml genesis) summit_not_toml) _ h in
    let name = Toml.as_str (Toml.get (codes "namespace") table) in
    let (n, e₂, h₂) = >>=-eq-ok (some_or name namespace_not_string) _ h₁ in
    let same = (text_eq_iff n m.namespace).0 (bail_if-eq-ok (text_eq n m.namespace) _ h₂) in
    (
      table,
      some_or-eq-ok (from_toml genesis) summit_not_toml e₁,
      some_or-eq-ok name namespace_not_string e₂ ∙ ap some same,
    )

pub check_policy-eq-ok :
    (sha256 : Text → Text) (m : ManifestFields) (policy : Text)
    → check_policy sha256 m policy ≡ ok tt
    → sha256 policy ≡ m.bootstrap_policy_hash
unfolding check_policy
check_policy-eq-ok sha256 m policy h =
    (text_eq_iff (sha256 policy) m.bootstrap_policy_hash).0
      (bail_if-eq-ok (text_eq (sha256 policy) m.bootstrap_policy_hash) _ h)
