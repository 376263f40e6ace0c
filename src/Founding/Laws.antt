-- ===== src/Founding/Laws.antt =====
-- What accepted founding records and an accepted founding set are.
use seismic.Prelude.{
  ℕ, ◌≡◌, ◌↔◌, refl, true, Option, some, List, [], ◌∷◌, arith, ok, >>=-eq-ok, some_or, bail_if, All,
  inl, inr, Option-cases,
}
use seismic.Prelude.Text.{Text, codes}
use seismic.Prelude.Map.{Map, insert, insert-All, insert-IsSorted, IsSorted}
use seismic.Json.{Json, string, object, Fields, get, get_field, as_str, is_object?, as_str-eq-some}
use seismic.Unique.Laws.{HasDistinctKeys, first_repeated_iff}
use seismic.Founding.{
  record_not_json, no_records, is_bare_hex, FoundingRecord, FoundingRecords, hex_field, record_of,
  json_files, no_files, check_unique, read_records, load_harvest_records,
}

-- The document's field `name` is the key, `nbytes` of bare lowercase hex.
abbrev pub HoldsHex : Json → Text → ℕ → Text → Type 0
HoldsHex document name nbytes key =
    (get name document ≡ some (string key)) × (is_bare_hex key nbytes ≡ true)

-- A record as `load_harvest_records` checks one.
pub record IsRecord (r : FoundingRecord) : Type 0 where
  pub nonce : Text
  pub nonced : HoldsHex r.document (codes "harvest_nonce") 32 nonce
  pub node_key : HoldsHex r.document (codes "node_public_key") 32 r.node_public_key
  pub consensus_key : HoldsHex r.document (codes "consensus_public_key") 48 r.consensus_public_key
  pub evidence : is_object? (get (codes "evidence") r.document) ≡ true

hex_field-eq-ok :
    (path : Text) (fs : Fields) (name : Text) (nbytes : ℕ) (key : Text)
    → hex_field path fs name nbytes ≡ ok key
    → (get_field name fs ≡ some (string key)) × (is_bare_hex key nbytes ≡ true)
unfolding hex_field
hex_field-eq-ok path fs name nbytes key h = elim (Option-cases (as_str (get_field name fs))) [
  | inl missing ↦ absurd (ground arith)
  | inr (value, found) ↦
      (ground (arith, as_str-eq-some (get_field name fs) value found), ground arith)
]

pub record_of-IsRecord :
    (path : Text) (document : Json) (r : FoundingRecord)
    → record_of path document ≡ ok r
    → IsRecord r × (r.document ≡ document)
unfolding record_of
record_of-IsRecord path (object fs) r h =
    let (nonce, n, h₁) = >>=-eq-ok (hex_field path fs (codes "harvest_nonce") 32) _ h in
    let (node, k, h₂) = >>=-eq-ok (hex_field path fs (codes "node_public_key") 32) _ h₁ in
    let (consensus, c, h₃) = >>=-eq-ok (hex_field path fs (codes "consensus_public_key") 48) _ h₂ in
    let same : r ≡ record {
      node_public_key = node;
      consensus_public_key = consensus;
      document = object fs;
    } =
      ground arith in
    rw same (
      record {
        nonce = nonce;
        nonced = hex_field-eq-ok path fs (codes "harvest_nonce") 32 nonce n;
        node_key = hex_field-eq-ok path fs (codes "node_public_key") 32 node k;
        consensus_key = hex_field-eq-ok path fs (codes "consensus_public_key") 48 consensus c;
        evidence = ground arith;
      },
      refl,
    )
record_of-IsRecord path _ r h = absurd (ground arith)

read_records-IsRecord :
    (from_slice : Text → Option Json) (files : List (Text × Text)) (m r : FoundingRecords)
    → All (λ e. IsRecord e.1) m
    → IsSorted m
    → read_records from_slice files m ≡ ok r
    → All (λ e. IsRecord e.1) r × IsSorted r
unfolding read_records
read_records-IsRecord from_slice [] m r a s h = let e : r ≡ m = ground arith in rw e (a, s)
read_records-IsRecord from_slice ((stem, bytes) ∷ files) m r a s h =
    let (document, e, h₁) = >>=-eq-ok (some_or (from_slice bytes) (record_not_json stem)) _ h in
    let (fr, f, h₂) = >>=-eq-ok (record_of stem document) _ h₁ in
    read_records-IsRecord from_slice files (insert stem fr m) r
      (insert-All (λ e. IsRecord e.1) stem fr m (record_of-IsRecord stem document fr f).0 a)
      (insert-IsSorted stem fr m s) h₂

check_unique_iff :
    (records : FoundingRecords)
    → (check_unique records ≡ ok tt) ↔ (
        HasDistinctKeys (λ r. r.node_public_key) records
        × HasDistinctKeys (λ r. r.consensus_public_key) records)
unfolding check_unique
check_unique_iff records =
    let (to, from) = first_repeated_iff (λ (r : FoundingRecord). r.node_public_key) records in
    let (to', from') =
      first_repeated_iff (λ (r : FoundingRecord). r.consensus_public_key) records in
    (λ h. (to (ground arith), to' (ground arith)), λ h. ground (arith, from h.0, from' h.1))

-- Harvest records that load are in the order of the node names, each has the nonce, both keys as
-- bare lowercase hex and an evidence object, as its document holds them, and no two boxes share a
-- node key or a consensus key.
pub load_harvest_records-IsRecord :
    (from_slice : Text → Option Json) (files : Map Text) (records : FoundingRecords)
    → load_harvest_records from_slice files ≡ ok records
    → All (λ e. IsRecord e.1) records
      × IsSorted records
      × HasDistinctKeys (λ r. r.node_public_key) records
      × HasDistinctKeys (λ r. r.consensus_public_key) records
unfolding load_harvest_records
load_harvest_records-IsRecord from_slice files records h =
    let (_, _, h₁) = >>=-eq-ok (bail_if (no_files (json_files files)) no_records) _ h in
    let (rs, e, h₂) = >>=-eq-ok (read_records from_slice (json_files files) []) _ h₁ in
    let (_, u, h₃) = >>=-eq-ok (check_unique rs) _ h₂ in
    let same : records ≡ rs = ground arith in
    let (valid, sorted) = read_records-IsRecord from_slice (json_files files) [] rs tt tt e in
    let (nodes, consensus) = (check_unique_iff rs).0 u in rw same (valid, sorted, nodes, consensus)
