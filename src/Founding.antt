-- ===== src/Founding.antt =====
-- The founding inputs: tee/cli/network/src/founding.rs. Files come as their texts; parsing JSON and
-- TOML is a parameter. A failure is a `FoundingError`, one for each message.
pub mod Files
pub mod Laws
pub mod Credentials
pub mod Seats
mod Tests
use seismic.Prelude.{
  ℕ, suc, Bool, true, false, not, ◌&&◌, Option, none, some, List, [], ◌∷◌, ◌++◌, ◌*◌, Result, ok,
  err, ◌>>=◌, ◌>>◌, bail_if, some_or, if◌then◌else◌, length, all, ◌==◌, is_some, is_empty,
}
use seismic.Prelude.Text.{Text, codes, text_eq}
use seismic.Prelude.Map.{Map, lookup, insert, keys}
use seismic.Prelude.Split.{strip_prefix, rsplit_once}
use seismic.Prelude.Hex.{is_lower_hex, is_hexdigit}
use seismic.Json
use seismic.Json.{Json, Fields, Items, nil, cons, object, get_field, as_object, is_object?}
use seismic.Toml
use seismic.Toml.{Toml, Table}
use seismic.Descriptors.{NodeDescriptor, Descriptors}
use seismic.Unique.{Repeated, first_repeated}

pub data FoundingError : Type 0 where
  no_credentials_file : FoundingError
  credentials_not_json : FoundingError
  credentials_not_a_list : FoundingError
  bad_credentials : List Text → FoundingError
  no_records : FoundingError
  record_not_json : Text → FoundingError
  record_not_an_object : Text → FoundingError
  bad_field : Text → Text → FoundingError
  no_evidence : Text → FoundingError
  repeated_node_key : Repeated → FoundingError
  repeated_consensus_key : Repeated → FoundingError
  genesis_not_toml : FoundingError
  no_validators : FoundingError
  bad_validator : ℕ → Text → FoundingError
  count_mismatch : ℕ → ℕ → FoundingError
  no_cohort_node : Text → FoundingError
  not_seated : Text → FoundingError

unfoldable pub is_bare_hex : Text → ℕ → Bool
is_bare_hex s nbytes = length s == 2 * nbytes && all is_lower_hex s

unfoldable pub is_address : Text → Bool
is_address s = elim (strip_prefix (codes "0x") s) [
  | none ↦ false
  | some digits ↦ length digits == 40 && all is_hexdigit digits
]

-- The strings of the array, none when an entry is no string.
unfoldable pub strings : Items → Option (List Text)
strings nil = some []
strings (cons (Json.string s) vs) = elim (strings vs) [ none ↦ none | some ss ↦ some (s ∷ ss) ]
strings (cons v vs) = none

-- The entries that are no addresses, sorted and without repetition.
unfoldable pub bad_addresses : List Text → Map (Unit {0})
unfolding is_address
bad_addresses [] = []
bad_addresses (a ∷ more) =
    let rest = bad_addresses more in if is_address a then rest else insert a tt rest

abbrev pub items_of : Json → Option Items
items_of (Json.array vs) = some vs
items_of v = none

pub record FoundingRecord : Type 0 where
  pub node_public_key : Text
  pub consensus_public_key : Text
  pub document : Json

abbrev pub FoundingRecords : Type 0
FoundingRecords = Map FoundingRecord

-- The closure `field` of `load_harvest_records`.
unfoldable pub hex_field : Text → Fields → Text → ℕ → Result FoundingError Text
unfolding is_bare_hex
hex_field path fs name nbytes = elim (Json.as_str (get_field name fs)) [
  | none ↦ err (bad_field path name)
  | some value ↦ if is_bare_hex value nbytes then ok value else err (bad_field path name)
]

unfoldable pub record_of : Text → Json → Result FoundingError FoundingRecord
unfolding hex_field
record_of path document = do
  fs ← some_or (as_object document) (record_not_an_object path)
  _ ← hex_field path fs (codes "harvest_nonce") 32
  node_key ← hex_field path fs (codes "node_public_key") 32
  consensus_key ← hex_field path fs (codes "consensus_public_key") 48
  bail_if (not (is_object? (get_field (codes "evidence") fs))) (no_evidence path)
  ok (record {
    node_public_key = node_key;
    consensus_public_key = consensus_key;
    document = document;
  })

-- The stem of a file whose extension is `json`, as `Path::extension` and `Path::file_stem` read it.
unfoldable pub json_stem : Text → Option Text
json_stem file = elim (rsplit_once b'.' file) [
  | none ↦ none
  | some (stem, extension) ↦
      if not (is_empty stem) && text_eq extension (codes "json") then some stem else none
]

-- The files of the directory that are records, each under its node's name.
unfoldable pub json_files : Map Text → List (Text × Text)
unfolding json_stem
json_files [] = []
json_files ((file, bytes) ∷ m) =
    let rest = json_files m in
    elim (json_stem file) [ none ↦ rest | some stem ↦ (stem, bytes) ∷ rest ]

-- The two uniqueness loops at the end of `load_harvest_records`.
unfoldable pub check_unique : FoundingRecords → Result FoundingError Unit
check_unique records = elim (first_repeated (λ r. r.node_public_key) records []) [
  | some r ↦ err (repeated_node_key r)
  | none ↦ elim (first_repeated (λ r. r.consensus_public_key) records []) [
    | some r ↦ err (repeated_consensus_key r)
    | none ↦ ok tt
  ]
]

abbrev pub no_files : List (Text × Text) → Bool
no_files [] = true
no_files (f ∷ fs) = false

module _ (from_slice : Text → Option Json) where
  -- `load_founder_credentials`: `file` is none when there is no such file.
  unfoldable pub load_founder_credentials : Option Text → Result FoundingError (List Text)
  unfolding strings bad_addresses
  load_founder_credentials file = do
    bytes ← some_or file no_credentials_file
    value ← some_or (from_slice bytes) credentials_not_json
    entries ← some_or (items_of value) credentials_not_a_list
    addresses ← some_or (strings entries) credentials_not_a_list
    bail_if (not (is_empty (bad_addresses addresses)))
        (bad_credentials (keys (bad_addresses addresses)))
    ok addresses

  unfoldable pub read_records :
      List (Text × Text) → FoundingRecords → Result FoundingError FoundingRecords
  unfolding record_of
  read_records [] records = ok records
  read_records ((stem, bytes) ∷ files) records = do
    document ← some_or (from_slice bytes) (record_not_json stem)
    r ← record_of stem document
    read_records files (insert stem r records)

  -- `load_harvest_records`: `files` is the directory, each file's text under its name.
  unfoldable pub load_harvest_records : Map Text → Result FoundingError FoundingRecords
  unfolding json_files read_records check_unique
  load_harvest_records files = do
    bail_if (no_files (json_files files)) no_records
    records ← read_records (json_files files) []
    check_unique records
    ok records

-- `SUMMIT_CONSENSUS_PORT`, as `<ip>:<port>` spells it.
unfoldable pub with_consensus_port : Text → Text
with_consensus_port ip = ip ++ codes ":18551"

pub record Validator : Type 0 where
  pub node_public_key : Text
  pub consensus_public_key : Text
  pub ip_address : Text
  pub withdrawal_credentials : Text

pub record FoundingSet : Type 0 where
  pub validators : List Validator
  pub records : FoundingRecords

pub data ValidatorIps : Type 0 where
  cohort : Descriptors → ValidatorIps
  seated : Map Text → ValidatorIps

abbrev pub toml_string : ℕ → Text → Toml → Result FoundingError Text
toml_string i name v = some_or (Toml.as_str (Toml.get_in name v)) (bad_validator i name)

unfoldable pub seat_all : ℕ → List Toml → Map Text → Result FoundingError (Map Text)
seat_all i [] m = ok m
seat_all i (v ∷ vs) m = do
  key ← toml_string i (codes "node_public_key") v
  ip ← toml_string i (codes "ip_address") v
  seat_all (suc i) vs (insert key ip m)

-- `seated_validator_ips`.
module _ (from_toml : Text → Option Table) where
  unfoldable pub seated_validator_ips : Text → Result FoundingError (Map Text)
  unfolding seat_all
  seated_validator_ips genesis = do
    t ← some_or (from_toml genesis) genesis_not_toml
    vs ← some_or (Toml.as_array (Toml.get (codes "validators") t)) no_validators
    seat_all 0 vs []

-- The `ip_address` of one founding validator.
unfoldable pub ip_of : ValidatorIps → Text → FoundingRecord → Result FoundingError Text
unfolding with_consensus_port
ip_of (cohort descriptors) name r = elim (lookup name descriptors) [
  | none ↦ err (no_cohort_node name)
  | some d ↦ ok (with_consensus_port d.public_ip)
]
ip_of (seated ips) name r = some_or (lookup r.node_public_key ips) (not_seated name)

-- The loop of `load_founding_set` over the records zipped with the credentials.
unfoldable pub pair_validators :
    ValidatorIps → FoundingRecords → List Text → Result FoundingError (List Validator)
unfolding ip_of
pair_validators ips [] founders = ok []
pair_validators ips (e ∷ records) [] = ok []
pair_validators ips ((name, r) ∷ records) (credentials ∷ founders) = do
  ip ← ip_of ips name r
  rest ← pair_validators ips records founders
  ok (
      record {
        node_public_key = r.node_public_key;
        consensus_public_key = r.consensus_public_key;
        ip_address = ip;
        withdrawal_credentials = credentials;
      }
      ∷ rest)

module _ (from_slice : Text → Option Json) where
  unfoldable pub load_founding_set :
      Option Text → Map Text → ValidatorIps → Result FoundingError FoundingSet
  unfolding load_founder_credentials load_harvest_records pair_validators
  load_founding_set credentials files ips = do
    founders ← load_founder_credentials from_slice credentials
    records ← load_harvest_records from_slice files
    bail_if (not (length founders == length records))
        (count_mismatch (length founders) (length records))
    validators ← pair_validators ips records founders
    ok (record { validators = validators; records = records })
