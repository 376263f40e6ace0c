-- ===== src/Founding/Tests.antt =====
-- A founding set of one box.
use seismic.Prelude.{◌≡◌, refl, Option, some, [], ◌∷◌, ◌++◌, ok, All}
use seismic.Prelude.Text.{Text, codes, text_eq}
use seismic.Prelude.Map.{Map, lookup, insert, IsSorted}
use seismic.Prelude.Hex.{is_lower_hex, is_hexdigit}
use seismic.Prelude.Split.{strip_prefix, rsplit_once}
use seismic.Json.{Json, string, array, object, Items, nil, cons, end, field, get_field}
use seismic.Unique.{first_repeated}
use seismic.Unique.Laws.{HasDistinctKeys}
use seismic.Founding.{
  FoundingRecord, FoundingRecords, load_founder_credentials, load_harvest_records, FoundingSet,
  ValidatorIps, cohort, load_founding_set,
}
use seismic.Founding.Laws.{IsRecord, load_harvest_records-IsRecord}
use seismic.Founding.Seats.{IsFounded, load_founding_set-IsFounded}

abbrev key_32 : Text
key_32 = codes "0123456789abcdef0123456789abcdef0123456789abcdef0123456789abcdef"

abbrev key_48 : Text
key_48 = key_32 ++ codes "0123456789abcdef0123456789abcdef"

abbrev address : Text
address = codes "0x0123456789012345678901234567890123456789"

abbrev document : Json
document = object (
    field (codes "harvest_nonce") (string key_32) (
      field (codes "node_public_key") (string key_32) (
        field (codes "consensus_public_key") (string key_48)
          (field (codes "evidence") (object end) end))))

abbrev entries : Items
entries = cons (string address) nil

-- The credentials are the empty text, a record any other.
abbrev from_slice : Text → Option Json
from_slice [] = some (array entries)
from_slice (c ∷ s) = some document

abbrev files : Map Text
files = (codes "a.json", codes "{}") ∷ (codes "notes.txt", codes "x") ∷ []

abbrev founder : FoundingRecord
founder = record { node_public_key = key_32; consensus_public_key = key_48; document = document }

abbrev records : FoundingRecords
records = (codes "a", founder) ∷ []

abbrev ips : ValidatorIps
ips = cohort ((codes "a", record { public_ip = codes "1.1.1.1"; fqdn = codes "a.org" }) ∷ [])

abbrev set : FoundingSet
set = record {
  validators =
      record {
        node_public_key = key_32;
        consensus_public_key = key_48;
        ip_address = codes "1.1.1.1:18551";
        withdrawal_credentials = address;
      }
      ∷ [];
  records = records;
}

records_load : load_harvest_records from_slice files ≡ ok records
unfolding load_harvest_records get_field text_eq is_lower_hex rsplit_once insert first_repeated
    lookup
records_load = refl

set_loads : load_founding_set from_slice (some []) files ips ≡ ok set
unfolding load_founding_set load_harvest_records get_field text_eq is_lower_hex rsplit_once insert
    load_founder_credentials strip_prefix is_hexdigit lookup first_repeated
set_loads = refl

load_harvest_records-IsRecord_example :
    All (λ e. IsRecord e.1) records
    × IsSorted records
    × HasDistinctKeys (λ r. r.node_public_key) records
    × HasDistinctKeys (λ r. r.consensus_public_key) records
load_harvest_records-IsRecord_example =
    load_harvest_records-IsRecord from_slice files records records_load

files-IsSorted : IsSorted files
unfolding seismic.Prelude.Text.text_lt
files-IsSorted = ((refl, tt), (tt, tt))

load_founding_set-IsFounded_example : IsFounded from_slice (some []) files ips set
load_founding_set-IsFounded_example =
    load_founding_set-IsFounded from_slice (some []) files ips set files-IsSorted set_loads
