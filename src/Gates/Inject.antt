-- ===== src/Gates/Inject.antt =====
-- The injection of the compiled storage into the registry's account:
-- `inject_registry_genesis_storage` of tee/cli/network/src/gates.rs. Rendering the document is
-- serde_json's: a parameter.
pub mod Readback
pub mod Laws
pub mod Judged
use seismic.Prelude.{
  Bool, true, false, not, Option, none, some, List, [], ◌∷◌, ◌++◌, Result, ok, err, ◌>>=◌, ◌>>◌,
  bail_if, some_or, if◌then◌else◌, is_empty,
}
use seismic.Prelude.Text.{Text, codes, text_eq}
use seismic.Prelude.Map.{Map}
use seismic.Json
use seismic.Json.{Json, Fields, end, field, get_field, as_object}
use seismic.Gates.{
  GateFailure, no_compiled_storage, genesis_not_json, no_alloc, not_in_alloc, twice_in_alloc,
  not_an_object, CompileReport,
}
use seismic.Gates.Run.{hex_0x}

-- `map.insert(key, value)`: in the place of the key's entry, or at the end.
unfoldable pub set_field : Text → Json → Fields → Fields
set_field k v end = field k v end
set_field k v (field j w fs) =
    let rest = set_field k v fs in if text_eq j k then field j v fs else field j w rest

unfoldable pub object_at : Text → Fields → Option Fields
unfolding get_field
object_at k fs = elim (get_field k fs) [ none ↦ none | some v ↦ as_object v ]

module _ (encode to_lowercase : Text → Text) where
  -- The keys of the registry, in any spelling.
  unfoldable pub spellings : Text → Fields → List Text
  spellings wanted end = []
  spellings wanted (field address v fs) =
      let rest = spellings wanted fs in
      if text_eq (to_lowercase address) wanted then address ∷ rest else rest

  unfoldable pub only_spelling : Text → List Text → Result GateFailure Text
  only_spelling wanted [] = err (not_in_alloc wanted)
  only_spelling wanted (key ∷ []) = ok key
  only_spelling wanted (key ∷ other ∷ more) = err (twice_in_alloc wanted)

  unfoldable pub storage_fields : Map Text → Fields
  unfolding hex_0x
  storage_fields [] = end
  storage_fields ((slot, word) ∷ m) =
      field (hex_0x encode slot) (Json.string (hex_0x encode word)) (storage_fields m)

  -- The document with the storage in place.
  unfoldable pub inject : Fields → Text → CompileReport → Result GateFailure Fields
  unfolding object_at spellings only_spelling storage_fields set_field hex_0x
  inject genesis registry report = do
    bail_if (is_empty report.registry_genesis_storage) no_compiled_storage
    alloc ← some_or (object_at (codes "alloc") genesis) no_alloc
    key ← only_spelling (hex_0x encode registry) (spellings (hex_0x encode registry) alloc)
    account ← some_or (object_at key alloc) (not_an_object key)
    let storage = Json.object (storage_fields report.registry_genesis_storage)
    ok (
        set_field (codes "alloc")
          (Json.object
            (set_field key (Json.object (set_field (codes "storage") storage account)) alloc))
          genesis)

  module _ (from_slice : Text → Option Json) (to_vec_pretty : Json → Text) where
    unfoldable pub inject_registry_genesis_storage :
        Text → Text → CompileReport → Result GateFailure Text
    unfolding inject
    inject_registry_genesis_storage bytes registry report = do
      bail_if (is_empty report.registry_genesis_storage) no_compiled_storage
      genesis ← some_or (from_slice bytes) genesis_not_json
      fields ← some_or (as_object genesis) no_alloc
      injected ← inject fields registry report
      ok (to_vec_pretty (Json.object injected) ++ 10 ∷ [])
