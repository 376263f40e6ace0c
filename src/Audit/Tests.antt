-- ===== src/Audit/Tests.antt =====
-- An audit of a founding of one box.
use seismic.Prelude.{◌≡◌, refl, Bool, true, Option, none, some, [], ◌∷◌, ◌++◌, ok, Result}
use seismic.Prelude.Text.{Text, codes}
use seismic.Prelude.Map.{Map}
use seismic.Json
use seismic.Json.{Json}
use seismic.Toml
use seismic.Toml.{Toml, Table}
use seismic.Manifest.{ManifestFields}
use seismic.Context.Config.{Network, Config}
use seismic.Context.Select.{load}
use seismic.Audit.{NetworkFiles, FoundingAudit, pinned_network_id, run}
use seismic.Audit.Vouched.{IsVouched, IsPinned, run-IsVouched}

abbrev key_32 : Text
key_32 = codes "fedcba9876543210fedcba9876543210fedcba9876543210fedcba9876543210"

abbrev key_48 : Text
key_48 = key_32 ++ codes "fedcba9876543210fedcba9876543210"

abbrev document : Json
document = Json.object (
    Json.field (codes "harvest_nonce") (Json.string key_32) (
      Json.field (codes "node_public_key") (Json.string key_32) (
        Json.field (codes "consensus_public_key") (Json.string key_48)
          (Json.field (codes "evidence") (Json.object Json.end) Json.end))))

abbrev validator : Toml
validator = Toml.table (
    Toml.entry (codes "node_public_key") (Toml.string key_32)
      (Toml.entry (codes "consensus_public_key") (Toml.string key_48) Toml.end))

abbrev genesis : Table
genesis =
    Toml.entry (codes "namespace") (Toml.string (codes "_NET"))
      (Toml.entry (codes "validators") (Toml.array (Toml.cons validator Toml.nil)) Toml.end)

abbrev fields : ManifestFields
fields = record {
  chain_id = 5124;
  genesis_hash = 1 ∷ [];
  genesis_config_digest = 2 ∷ [];
  namespace = codes "_NET";
  bootstrap_policy_hash = codes "policy";
  registry = 3 ∷ [];
  authority = 4 ∷ [];
}

abbrev schema : Text → Option ManifestFields
schema bytes = some fields

abbrev id_of : Text → Text
id_of bytes = codes "0x" ++ bytes

abbrev sha256 : Text → Text
sha256 bytes = bytes

abbrev from_slice : Text → Option Json
from_slice bytes = some document

abbrev from_toml : Text → Option Table
from_toml bytes = some genesis

abbrev policy_of : Text → Option Text
policy_of bytes = some bytes

abbrev replay : Text → Json → Bool
replay policy archive = true

abbrev network_id : Text
network_id = codes "aaaaaaaaaaaaaaaaaaaaaaaaaaaaaaaaaaaaaaaaaaaaaaaaaaaaaaaaaaaaaaaa"

abbrev dir : NetworkFiles
dir = record {
  manifest = some network_id;
  policy = some (codes "policy");
  summit_genesis = some [];
  harvest = (codes "a.json", []) ∷ [];
}

abbrev network : Network
network = record {
  dir = some (codes "/net");
  manifest = none;
  source = none;
  network_id = some network_id;
  nodes = [];
}

abbrev config : Config
config = record {
  current = some (codes "net");
  previous = none;
  networks = (codes "net", network) ∷ [];
}

abbrev parse : Text → Option Config
parse text = some config

abbrev audit : FoundingAudit
audit = record {
  manifest = record { bytes = network_id; network_id = codes "0x" ++ network_id; parsed = fields };
  verified = codes "a" ∷ [];
}

passes :
    run schema id_of sha256 from_slice from_toml policy_of replay parse dir (some []) none none
    ≡ ok audit
unfolding run seismic.Context.Config.validate_all seismic.Prelude.Hex.is_hexdigit
    seismic.Context.Selection.from_str seismic.Prelude.Split.split_once seismic.Prelude.Map.lookup
    seismic.Prelude.Text.text_eq seismic.Prelude.Split.strip_prefix Toml.get
    seismic.Prelude.Split.rsplit_once Json.get_field seismic.Unique.first_repeated
    seismic.Prelude.Map.insert
passes = refl

run-IsVouched_example :
    (c : Config) × (load parse (some []) ≡ ok c)
    × IsPinned schema id_of sha256 from_slice from_toml policy_of replay
        (pinned_network_id schema id_of sha256 from_slice from_toml policy_of replay c none)
        audit.manifest
    × IsVouched schema id_of sha256 from_slice from_toml policy_of replay dir none audit
run-IsVouched_example =
    run-IsVouched schema id_of sha256 from_slice from_toml policy_of replay parse dir (some []) none
      none audit passes
