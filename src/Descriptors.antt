-- ===== src/Descriptors.antt =====
-- Node descriptors: tee/cli/common/src/descriptor.rs. A failure is a `DescriptorError`, one for each
-- message, in place of its text. Parsing the bytes as JSON is serde_json's: a parameter.
pub mod Laws
mod Tests
use seismic.Prelude.{
  ℕ, Bool, true, false, not, ◌&&◌, Option, none, some, List, [], ◌∷◌, ◌++◌, map, Result, ok, err,
  ◌>>=◌, ◌>>◌, bail_if, some_or, if◌then◌else◌, length, all, is_some,
}
use seismic.Prelude.Text.{Text, codes}
use seismic.Prelude.Map.{Map, lookup, insert, keys}
use seismic.Json.{
  Json, null, bool, number, string, array, object, Fields, end, field, fields, get_field, as_object,
  is_object,
}

-- `NodeDescriptor`.
pub record NodeDescriptor : Type 0 where
  pub public_ip : Text
  pub fqdn : Text

abbrev pub Descriptors : Type 0
Descriptors = Map NodeDescriptor

-- The JSON type names of `json_kind`.
pub data Kind : Type 0 where
  null_kind boolean_kind number_kind string_kind array_kind object_kind : Kind

abbrev pub json_kind : Json → Kind
json_kind null = null_kind
json_kind (bool b) = boolean_kind
json_kind (number n) = number_kind
json_kind (string s) = string_kind
json_kind (array vs) = array_kind
json_kind (object fs) = object_kind

pub data DescriptorError : Type 0 where
  not_json : DescriptorError
  not_a_map : DescriptorError
  no_nodes : DescriptorError
  single_node : DescriptorError
  not_an_object : Text → Kind → DescriptorError
  bad_entry : Text → DescriptorError
  empty_key : Text → Text → DescriptorError
  null_key : Text → Text → DescriptorError
  missing_key : Text → Text → DescriptorError
  ambiguous : ℕ → List Text → DescriptorError
  no_such_node : Text → List Text → DescriptorError

-- `RequiredKey`: absent, null, or a value.
abbrev pub RequiredKey : Type 0
RequiredKey = Option (Option Text)

-- `present_key`: the key as serde reads it, none for a value that is no string.
unfoldable pub present_key : Option Json → Option RequiredKey
present_key none = some none
present_key (some null) = some (some none)
present_key (some (string s)) = some (some (some s))
present_key (some v) = none

-- The closure `require` of `into_descriptor`.
unfoldable pub require : Text → Text → RequiredKey → Result DescriptorError Text
require name key (some (some [])) = err (empty_key name key)
require name key (some (some (c ∷ s))) = ok (c ∷ s)
require name key (some none) = err (null_key name key)
require name key none = err (missing_key name key)

unfoldable pub into_descriptor :
    Text → RequiredKey → RequiredKey → Result DescriptorError NodeDescriptor
unfolding require
into_descriptor name public_ip fqdn = do
  ip ← require name (codes "public_ip") public_ip
  domain ← require name (codes "fqdn") fqdn
  ok (record { public_ip = ip; fqdn = domain })

-- One entry of the map: the body of the loop of `parse_descriptors`.
unfoldable pub parse_entry : Text → Json → Result DescriptorError NodeDescriptor
unfolding present_key into_descriptor
parse_entry name (object fs) = do
  ip ← some_or (present_key (get_field (codes "public_ip") fs)) (bad_entry name)
  domain ← some_or (present_key (get_field (codes "fqdn") fs)) (bad_entry name)
  into_descriptor name ip domain
parse_entry name v = err (not_an_object name (json_kind v))

unfoldable pub parse_entries : Fields → Descriptors → Result DescriptorError Descriptors
unfolding parse_entry
parse_entries end m = ok m
parse_entries (field name v fs) m = do d ← parse_entry name v; parse_entries fs (insert name d m)

-- One node's fields at the top level, in place of the map.
unfoldable pub is_single_node : Fields → Bool
is_single_node fs =
    is_some (get_field (codes "public_ip") fs)
    && is_some (get_field (codes "fqdn") fs)
    && all (λ e. not (is_object e.1)) (fields fs)

unfoldable pub parse_map : Fields → Result DescriptorError Descriptors
unfolding is_single_node parse_entries
parse_map end = err no_nodes
parse_map fs = do bail_if (is_single_node fs) single_node; parse_entries fs []

module _ (from_slice : Text → Option Json) where
  unfoldable pub parse_descriptors : Text → Result DescriptorError Descriptors
  unfolding parse_map
  parse_descriptors bytes = do
    v ← some_or (from_slice bytes) not_json
    fs ← some_or (as_object v) not_a_map
    parse_map fs

-- `select_descriptor`: the node that a single-node command acts on, with its name.
unfoldable pub select_descriptor :
    Descriptors → Option Text → Result DescriptorError (Text × NodeDescriptor)
select_descriptor m (some name) = elim (lookup name m) [
  | none ↦ err (no_such_node name (keys m))
  | some d ↦ ok (name, d)
]
select_descriptor ((name, d) ∷ []) none = ok (name, d)
select_descriptor m none = err (ambiguous (length m) (keys m))
