-- ===== src/Gates/Tests.antt =====
-- An artifact set of one registry and one authority, under toy digests and a toy hexadecimal.
use seismic.Prelude.{
  ◌≡◌, ◌≢◌, refl, Option, none, some, List, [], ◌∷◌, ◌++◌, ok, true, false, arith,
}
use seismic.Prelude.Text.{Text, codes}
use seismic.Prelude.Map.{Map, IsSorted}
use seismic.Json
use seismic.Json.{Json, Fields}
use seismic.Toml
use seismic.Toml.{Table}
use seismic.Gates.{CompileReport, validate_registry_account}
use seismic.Gates.Run.{ArtifactSet, default_namespace, Libraries, run_validation_gates}
use seismic.Gates.Run.Laws.{IsConsistent, run_validation_gates-IsConsistent}
use seismic.Gates.Inject.{inject}
use seismic.Gates.Inject.Laws.{IsInjected}
use seismic.Gates.Inject.Judged.{check_code, inject-IsInjected}

abbrev encode : Text → Text
encode bytes = b'a' ∷ bytes

abbrev word_of : Text → Option Text
word_of [] = none
word_of (c ∷ word) = some word

abbrev decode : Text → Option Text
decode text = some text

abbrev same : Text → Text
same text = text

abbrev report : CompileReport
report = record {
  registry_runtime_code_hash = codes "runtime";
  registry_genesis_storage = (codes "s", codes "v") ∷ [];
}

abbrev bare_account : Fields
bare_account = Json.field (codes "code") (Json.string (codes "0xruntime")) Json.end

abbrev seeded_account : Fields
seeded_account = Json.field (codes "code") (Json.string (codes "0xruntime")) (
    Json.field (codes "storage")
      (Json.object (Json.field (codes "0xas") (Json.string (codes "0xav")) Json.end)) Json.end)

abbrev genesis : Fields → Fields
genesis account =
    Json.field (codes "config")
      (Json.object
        (Json.field (codes "chainId") (Json.number (Json.Number.unsigned 5124)) Json.end))
      (Json.field (codes "alloc")
        (Json.object (
          Json.field (codes "0xar") (Json.object account)
            (Json.field (codes "0xaq") (Json.object bare_account) Json.end)))
        Json.end)

abbrev summit : Table
summit =
    Toml.entry (codes "eth_genesis_hash") (Toml.string (codes "0xag"))
      (Toml.entry (codes "namespace") (Toml.string (codes "_SUMMIT")) Toml.end)

abbrev lib : Libraries
lib = record {
  from_slice = λ bytes. some (Json.object (genesis seeded_account));
  from_toml = λ text. some summit;
  encode = encode;
  decode = decode;
  word_of = word_of;
  sha256 = same;
  keccak256 = same;
  to_lowercase = same;
  reth_genesis_hash = λ bytes. some (codes "g");
  summit_config_digest = λ bytes. some (codes "d");
  compile = λ bytes. some report;
}

abbrev set : ArtifactSet
set = record {
  manifest = record {
    bytes = [];
    network_id = [];
    parsed = record {
      chain_id = 5124;
      genesis_hash = codes "g";
      genesis_config_digest = codes "d";
      namespace = codes "_SUMMIT";
      bootstrap_policy_hash = codes "policy";
      registry = codes "r";
      authority = codes "q";
    };
  };
  reth_genesis = [];
  summit_genesis = [];
  policy = codes "policy";
}

passes : run_validation_gates lib set ≡ ok (default_namespace ∷ [])
unfolding run_validation_gates Json.get_field seismic.Prelude.Text.text_eq Toml.get
    seismic.Prelude.Map.lookup seismic.Prelude.Map.insert seismic.Prelude.Text.text_lt
passes = refl

run_validation_gates-IsConsistent_example : IsConsistent lib set (default_namespace ∷ [])
run_validation_gates-IsConsistent_example =
    run_validation_gates-IsConsistent lib set (default_namespace ∷ []) passes

injects : inject encode same (genesis bare_account) (codes "r") report ≡ ok (genesis seeded_account)
unfolding inject seismic.Prelude.Text.text_eq
injects = refl

inject-IsInjected_example :
    (i : IsInjected encode same (genesis bare_account) (codes "r") report (genesis seeded_account))
    × (validate_registry_account word_of decode same (Json.object i.account') report
        ≡ check_code encode same word_of decode same (Json.object i.account) report)
inject-IsInjected_example =
    inject-IsInjected encode same word_of decode same (genesis bare_account) (codes "r") report
      (genesis seeded_account)
      (((λ h. absurd (ground arith), refl), (λ h. absurd (ground arith), refl)), tt) (tt, tt)
      injects
