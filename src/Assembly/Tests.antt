-- ===== src/Assembly/Tests.antt =====
-- An artifact set of one validator, under toy derivations.
use seismic.Prelude.{
  ◌≡◌, refl, Bool, true, false, ◌⊎◌, Option, none, some, List, [], ◌∷◌, ok, err, if◌then◌else◌,
  ◌==◌, ◌++◌,
}
use seismic.Prelude.Text.{Text, codes}
use seismic.Prelude.Map.{Map, contains_key}
use seismic.Json
use seismic.Json.{Json, Fields}
use seismic.Toml
use seismic.Toml.{Table}
use seismic.Paths
use seismic.Paths.{NetworkDir}
use seismic.Manifest.{ManifestFields}
use seismic.Assembly.{
  Assembled, AssembleInputs, Derivations, fill_eth_genesis_hash, write_artifact_set,
  check_artifact_set,
}
use seismic.Assembly.Refill.{fill_eth_genesis_hash_again}
use seismic.Prelude.Split.{contains}
use seismic.Assembly.Files.{write_artifact_set-check}

abbrev account : Fields
account = Json.field (codes "code") (Json.string (codes "0xcode")) Json.end

abbrev seeded : Fields
seeded = Json.field (codes "code") (Json.string (codes "0xcode")) (
    Json.field (codes "storage")
      (Json.object (Json.field (codes "0xa1") (Json.string (codes "0xa2")) Json.end)) Json.end)

abbrev genesis : Fields → Json
genesis registry = Json.object (
    Json.field (codes "config")
      (Json.object
        (Json.field (codes "chainId") (Json.number (Json.Number.unsigned 31337)) Json.end))
      (Json.field (codes "alloc")
        (Json.object (
          Json.field (codes "0xar") (Json.object registry)
            (Json.field (codes "0xaz") (Json.object account) Json.end)))
        Json.end))

-- The authored genesis is the empty text, the injected one any other.
abbrev from_slice : Text → Option Json
from_slice [] = some (genesis account)
from_slice (c ∷ s) = some (genesis seeded)

abbrev authored : Table
authored = Toml.entry (codes "namespace") (Toml.string (codes "_TEST")) Toml.end

abbrev completed : Table
completed =
    Toml.entry (codes "namespace") (Toml.string (codes "_TEST"))
      (Toml.entry (codes "eth_genesis_hash") (Toml.string (codes "0xah")) Toml.end)

abbrev from_toml : Text → Option Table
from_toml [] = some authored
from_toml (c ∷ s) = if c == b'!' then some completed else some authored

abbrev word_of : Text → Option Text
word_of [] = none
word_of (c ∷ word) = some word

abbrev fields : ManifestFields
fields = record {
  chain_id = 31337;
  genesis_hash = codes "h";
  genesis_config_digest = codes "c";
  namespace = codes "_TEST";
  bootstrap_policy_hash = codes "p";
  registry = codes "r";
  authority = codes "z";
}

abbrev derivations : Derivations
derivations = record {
  lib = record {
    from_slice = from_slice;
    from_toml = from_toml;
    encode = λ bytes. b'a' ∷ bytes;
    decode = λ text. some text;
    word_of = word_of;
    sha256 = λ text. text;
    keccak256 = λ text. text;
    to_lowercase = λ text. text;
    reth_genesis_hash = λ bytes. some (codes "h");
    summit_config_digest = λ bytes. some (codes "c");
    compile = λ bytes. some (record {
      registry_runtime_code_hash = codes "code";
      registry_genesis_storage = (codes "1", codes "2") ∷ [];
    });
  };
  trim_start = λ line. line;
  to_vec_pretty = λ v. codes "{}";
  summit_set_validators = λ template validators. some (codes "!");
  render = λ name m. codes "m";
  schema = λ bytes. some fields;
  id_of = λ bytes. codes "0xid";
}

abbrev inputs : AssembleInputs
inputs = record {
  name = codes "test";
  reth_genesis = [];
  summit_genesis = [];
  policy = codes "p";
  validators =
      record {
        node_public_key = codes "n";
        consensus_public_key = codes "k";
        ip_address = codes "1.1.1.1:18551";
        withdrawal_credentials = codes "w";
      }
      ∷ [];
  registry = codes "r";
  authority = codes "z";
}

abbrev assembled : Assembled
assembled = record {
  manifest = record { bytes = codes "m"; network_id = codes "0xid"; parsed = fields };
  policy = codes "p";
  reth_genesis = b'{' ∷ b'}' ∷ 10 ∷ [];
  summit_genesis = codes "!";
  warnings = [];
}

abbrev root : NetworkDir
root = record { root = codes "/net" }

abbrev writable : Text → Bool
writable path = true

abbrev no_files : Map Text
no_files = []

writes : (write_artifact_set writable no_files root assembled false).1 ≡ ok tt
unfolding write_artifact_set seismic.Prelude.Map.lookup
writes = refl

write_artifact_set-check_example :
    (check_artifact_set
        ((write_artifact_set writable no_files root assembled false).0)
        root
        assembled
      ≡ ok tt)
    × ((contains_key (Paths.manifest root) no_files ≡ false) ⊎ (false ≡ true))
write_artifact_set-check_example =
    write_artifact_set-check writable no_files root assembled false writes

abbrev trim_blanks : Text → Text
trim_blanks [] = []
trim_blanks (c ∷ s) = if c == 32 then trim_blanks s else c ∷ s

abbrev tables : Text → Option Table
tables text = some authored

abbrev tail_lines : Text
tail_lines = codes "namespace = 1" ++ 10 ∷ (codes "[t]" ++ 10 ∷ codes "eth_genesis_hash = 2")

-- A stale hash, which is dropped, and one of a table, which is kept.
abbrev stale : Text
stale = codes " eth_genesis_hash = 0" ++ 10 ∷ tail_lines

abbrev filled : Text
filled = codes "eth_genesis_hash = " ++ b'"' ∷ (codes "0xh" ++ b'"' ∷ 10 ∷ tail_lines)

fills : fill_eth_genesis_hash trim_blanks tables (λ bytes. bytes) stale (codes "h") ≡ ok filled
unfolding fill_eth_genesis_hash Toml.get seismic.Prelude.Text.text_eq
    seismic.Prelude.Split.strip_prefix
fills = refl

fill_eth_genesis_hash_again_example :
    fill_eth_genesis_hash trim_blanks tables (λ bytes. bytes) filled (codes "k")
    ≡ fill_eth_genesis_hash trim_blanks tables (λ bytes. bytes) stale (codes "k")
unfolding contains
fill_eth_genesis_hash_again_example =
    fill_eth_genesis_hash_again trim_blanks tables (λ bytes. bytes) (λ s. refl) (λ s. refl) stale
      (codes "h") (codes "k") filled refl fills
