-- ===== src/Gates.antt =====
-- The registry account and its gate: tee/cli/network/src/gates.rs. A word is its 32 bytes. Hexadecimal
-- and 256-bit numbers, keccak256 and the compiler of policies are other crates': parameters. A failure
-- is a `GateFailure`, one for each message, in place of its text.
pub mod Laws
pub mod Inject
pub mod Run
mod Tests
use seismic.Prelude.{
  ℕ, Bool, true, false, not, ◌&&◌, Option, none, some, List, [], ◌∷◌, ◌++◌, Result, ok, err, ◌>>=◌,
  ◌>>◌, bail_if, some_or, map_err, if◌then◌else◌, is_some, is_empty, get_or_else,
}
use seismic.Prelude.Text.{Text, codes, text_eq}
use seismic.Prelude.Split.{strip_prefix}
use seismic.Prelude.Map.{Map, insert, contains_key}
use seismic.Json
use seismic.Json.{Json, Fields, end, field, get_field}
use seismic.Manifest.{GateError}

pub data GateFailure : Type 0 where
  no_compiled_storage : GateFailure
  genesis_not_json : GateFailure
  no_alloc : GateFailure
  not_in_alloc : Text → GateFailure
  twice_in_alloc : Text → GateFailure
  not_an_object : Text → GateFailure
  not_a_word : Text → GateFailure
  code_not_hex : GateFailure
  wrong_code : Text → GateFailure
  storage_not_object : GateFailure
  slot_twice : GateFailure
  empty_storage : GateFailure
  wrong_storage : GateFailure
  manifest_gate : GateError → GateFailure
  underived : GateFailure
  genesis_hash_mismatch : Text → GateFailure
  config_digest_mismatch : Text → GateFailure
  summit_not_toml : GateFailure
  embedded_hash_mismatch : GateFailure
  no_code : Text → GateFailure
  uncompiled : GateFailure
  panic : GateFailure

-- `CompileReport`: the canonical runtime's hash, and the storage that seeds the registry.
pub record CompileReport : Type 0 where
  pub registry_runtime_code_hash : Text
  pub registry_genesis_storage : Map Text

-- `BTreeMap` equality of maps of words.
unfoldable pub words_eq : Map Text → Map Text → Bool
words_eq [] [] = true
words_eq [] (e ∷ n) = false
words_eq (e ∷ m) [] = false
words_eq ((k, v) ∷ m) ((j, w) ∷ n) = text_eq k j && text_eq v w && words_eq m n

-- The digits of a word: what follows `0x` or `0X`, or all of it.
unfoldable pub digits_of : Text → Text
unfolding strip_prefix
digits_of text =
    get_or_else (strip_prefix (codes "0x") text) (get_or_else (strip_prefix (codes "0X") text) text)

-- `U256::from_str_radix` in base 16, as its 32 bytes, and `hex::encode`.
module _ (word_of : Text → Option Text) where
  -- `normalize_word`
  unfoldable pub normalize_word : Json → Result GateFailure Text
  unfolding digits_of
  normalize_word (Json.string text) = do
    bail_if (is_empty (digits_of text)) (not_a_word text)
    some_or (word_of (digits_of text)) (not_a_word text)
  normalize_word v = err (not_a_word [])

  -- The loop over the storage of an account.
  unfoldable pub read_storage : Fields → Map Text → Result GateFailure (Map Text)
  unfolding normalize_word
  read_storage end actual = ok actual
  read_storage (field name v fs) actual = do
    slot ← normalize_word (Json.string name)
    word ← normalize_word v
    bail_if (contains_key slot actual) slot_twice
    read_storage fs (insert slot word actual)

  unfoldable pub storage_of : Option Json → Result GateFailure Fields
  storage_of none = ok end
  storage_of (some (Json.object fs)) = ok fs
  storage_of (some v) = err storage_not_object

  -- `hex::decode` and keccak256.
  module _ (decode : Text → Option Text) (keccak256 : Text → Text) where
    unfoldable pub code_of : Json → Result GateFailure Text
    unfolding strip_prefix
    code_of account = do
      text ← some_or (Json.as_str (Json.get (codes "code") account)) code_not_hex
      some_or (decode (get_or_else (strip_prefix (codes "0x") text) text)) code_not_hex

    unfoldable pub validate_registry_account : Json → CompileReport → Result GateFailure Unit
    unfolding code_of storage_of read_storage words_eq
    validate_registry_account account report = do
      code ← code_of account
      bail_if (not (text_eq (keccak256 code) report.registry_runtime_code_hash))
          (wrong_code (keccak256 code))
      raw_storage ← storage_of (Json.get (codes "storage") account)
      actual ← read_storage raw_storage []
      bail_if (is_empty actual) empty_storage
      bail_if (not (words_eq actual report.registry_genesis_storage)) wrong_storage
