-- ===== src/Founding/Seats.antt =====
-- What an accepted founding set seats: `load_founding_set` of tee/cli/network/src/founding.rs.
use seismic.Prelude.{
  ◌≡◌, refl, sym, ap, ◌∙◌, not, Option, some, List, [], ◌∷◌, ◌++◌, arith, ok, true, >>=-eq-ok,
  some_or, some_or-eq-ok, bail_if, All, map, length, ◌==◌, Option-cases, inl, inr,
}
use seismic.Prelude.Text.{Text, codes}
use seismic.Prelude.Map.{Map, lookup, IsSorted}
use seismic.Json.{Json, Items, array}
use seismic.Unique.Laws.{HasDistinctKeys}
use seismic.Descriptors.{NodeDescriptor}
use seismic.Founding.{
  no_credentials_file, credentials_not_json, credentials_not_a_list, count_mismatch, not_seated,
  items_of, is_address, strings, FoundingRecord, FoundingRecords, load_founder_credentials,
  load_harvest_records, Validator, FoundingSet, ValidatorIps, cohort, seated, ip_of,
  pair_validators, load_founding_set,
}
use seismic.Founding.Credentials.{load_founder_credentials_iff}
use seismic.Founding.Files.{document_of, harvested, load_harvest_records-harvested}
use seismic.Founding.Laws.{IsRecord, load_harvest_records-IsRecord}

-- The address of a box: its node's public address with the consensus port, or the seat of its node key.
abbrev IsAddressed : ValidatorIps → Text → FoundingRecord → Text → Type 0
IsAddressed (cohort descriptors) name r ip =
    (d : NodeDescriptor) × (lookup name descriptors ≡ some d) × (ip ≡ d.public_ip ++ codes ":18551")
IsAddressed (seated ips) name r ip = lookup r.node_public_key ips ≡ some ip

-- Each validator has its record's keys and its source's address.
abbrev Seats : ValidatorIps → FoundingRecords → List Validator → Type 0
Seats ips [] vs = vs ≡ []
Seats ips ((name, r) ∷ records) [] = ⊥
Seats ips ((name, r) ∷ records) (v ∷ vs) =
    (v.node_public_key ≡ r.node_public_key)
    × (v.consensus_public_key ≡ r.consensus_public_key)
    × IsAddressed ips name r v.ip_address
    × Seats ips records vs

ip_of-IsAddressed :
    (ips : ValidatorIps) (name : Text) (r : FoundingRecord) (ip : Text)
    → ip_of ips name r ≡ ok ip
    → IsAddressed ips name r ip
unfolding ip_of
ip_of-IsAddressed (cohort descriptors) name r ip h = elim (Option-cases (lookup name descriptors)) [
  | inl missing ↦ absurd (ground arith)
  | inr (d, found) ↦ (d, found, ground arith)
]
ip_of-IsAddressed (seated ips) name r ip h =
    some_or-eq-ok (lookup r.node_public_key ips) (not_seated name) h

pair_validators-Seats :
    (ips : ValidatorIps) (records : FoundingRecords) (founders : List Text) (vs : List Validator)
    → length founders ≡ length records
    → pair_validators ips records founders ≡ ok vs
    → Seats ips records vs × (map (λ v. v.withdrawal_credentials) vs ≡ founders)
unfolding pair_validators
pair_validators-Seats ips [] [] vs n h = (ground arith, ground arith)
pair_validators-Seats ips [] (f ∷ fs) vs n h = absurd (omega arith)
pair_validators-Seats ips (e ∷ records) [] vs n h = absurd (omega arith)
pair_validators-Seats ips ((name, r) ∷ records) (c ∷ founders) vs n h =
    let (ip, e, h₁) = >>=-eq-ok (ip_of ips name r) _ h in
    let (rest, e', h₂) = >>=-eq-ok (pair_validators ips records founders) _ h₁ in
    let same : vs
        ≡ record {
          node_public_key = r.node_public_key;
          consensus_public_key = r.consensus_public_key;
          ip_address = ip;
          withdrawal_credentials = c;
        }
          ∷ rest =
      ground arith in
    let (seats, credited) = pair_validators-Seats ips records founders rest (omega arith) e' in
    rw same ((refl, refl, ip_of-IsAddressed ips name r ip e, seats), ap (λ l. c ∷ l) credited)

items_of-eq-some : (v : Json) (vs : Items) → items_of v ≡ some vs → v ≡ array vs
items_of-eq-some (array ws) vs h = ground arith
items_of-eq-some _ vs h = absurd (ground arith)

module _ (from_slice : Text → Option Json) where
  -- The credentials file is a JSON array of addresses.
  abbrev IsAuthored : Option Text → List Text → Type 0
  IsAuthored credentials addresses =
      (bytes : Text) × (entries : Items) × (credentials ≡ some bytes)
      × (from_slice bytes ≡ some (array entries))
      × (strings entries ≡ some addresses)
      × All (λ a. is_address a ≡ true) addresses

  load_founder_credentials-IsAuthored :
      (credentials : Option Text) (addresses : List Text)
      → load_founder_credentials from_slice credentials ≡ ok addresses
      → IsAuthored credentials addresses
  unfolding load_founder_credentials
  load_founder_credentials-IsAuthored credentials addresses h =
      let (bytes, e₁, h₁) = >>=-eq-ok (some_or credentials no_credentials_file) _ h in
      let (value, e₂, h₂) = >>=-eq-ok (some_or (from_slice bytes) credentials_not_json) _ h₁ in
      let (entries, e₃, h₃) = >>=-eq-ok (some_or (items_of value) credentials_not_a_list) _ h₂ in
      let there = some_or-eq-ok credentials no_credentials_file e₁ in
      let is_array =
        items_of-eq-some value entries (some_or-eq-ok (items_of value) credentials_not_a_list e₃) in
      let parsed = some_or-eq-ok (from_slice bytes) credentials_not_json e₂ ∙ ap some is_array in
      let (spelled, valid) =
        (load_founder_credentials_iff from_slice bytes entries addresses parsed).0
          (ap (load_founder_credentials from_slice) (sym there) ∙ h) in
      (bytes, entries, there, parsed, spelled, valid)

  -- A founding set as it derives from the credentials, the harvest's files and the addresses.
  pub record IsFounded (credentials : Option Text) (files : Map Text) (ips : ValidatorIps)
      (set : FoundingSet) : Type 0 where
    pub authored :
        IsAuthored credentials (map (λ (v : Validator). v.withdrawal_credentials) set.validators)
    pub harvest :
        (name : Text) → document_of (lookup name set.records) ≡ harvested from_slice files name
    pub valid : All (λ e. IsRecord e.1) set.records
    pub ordered : IsSorted set.records
    pub seats : Seats ips set.records set.validators
    pub distinct_nodes : HasDistinctKeys (λ (r : FoundingRecord). r.node_public_key) set.records
    pub distinct_consensus :
        HasDistinctKeys (λ (r : FoundingRecord). r.consensus_public_key) set.records

  -- A founding set that loads from a directory, whose file names differ, has under a node's name the
  -- record that the file of that name with `.json` holds, and no record under a name without such a file.
  -- It seats one validator for each record in the order of the names: with the record's two keys, as the
  -- document spells them, the address that the given source has for the box, and the credential at that
  -- position of the credentials file, which is an array of that many addresses. No two boxes share a key.
  pub load_founding_set-IsFounded :
      (credentials : Option Text) (files : Map Text) (ips : ValidatorIps) (set : FoundingSet)
      → IsSorted files
      → load_founding_set from_slice credentials files ips ≡ ok set
      → IsFounded credentials files ips set
  unfolding load_founding_set
  load_founding_set-IsFounded credentials files ips set sorted_files h =
      let (founders, a, h₁) = >>=-eq-ok (load_founder_credentials from_slice credentials) _ h in
      let (records, b, h₂) = >>=-eq-ok (load_harvest_records from_slice files) _ h₁ in
      let (_, c, h₃) =
        >>=-eq-ok
          (bail_if (not (length founders == length records))
            (count_mismatch (length founders) (length records)))
          _ h₂ in
      let (validators, d, h₄) = >>=-eq-ok (pair_validators ips records founders) _ h₃ in
      let same : set ≡ record { validators = validators; records = records } = ground arith in
      let (seats, credited) =
        pair_validators-Seats ips records founders validators (ground arith) d in
      let (valid, sorted, nodes, consensus) =
        load_harvest_records-IsRecord from_slice files records b in
      rw same (record {
        authored =
            load_founder_credentials-IsAuthored credentials
              (map (λ (v : Validator). v.withdrawal_credentials) validators)
              (a ∙ ap ok (sym credited));
        harvest =
            λ name. load_harvest_records-harvested from_slice files records name sorted_files b;
        valid = valid;
        ordered = sorted;
        seats = seats;
        distinct_nodes = nodes;
        distinct_consensus = consensus;
      })
