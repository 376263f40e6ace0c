-- ===== src/Json.antt =====
-- The JSON values that the tool reads (`serde_json::Value`), as far as its source looks into them:
-- the kinds that `json_kind` of tee/cli/common/src/descriptor.rs names, and the readers `get`,
-- `as_str` and `is_object`. Parsing the bytes is serde_json's.
use seismic.Prelude.{
  ℕ, Bool, true, false, Option, none, some, List, [], ◌∷◌, if◌then◌else◌, ◌≡◌, arith,
}
use seismic.Prelude.Text.{Text, text_eq}

-- A number: an unsigned one, or one that `as_u64` does not read, with its text.
pub data Number : Type 0 where
  unsigned : ℕ → Number
  other_number : Text → Number

mutual
  pub data Json : Type 0 where
    null : Json
    bool : Bool → Json
    number : Number → Json
    string : Text → Json
    array : Items → Json
    object : Fields → Json

  pub data Items : Type 0 where
    nil : Items
    cons : Json → Items → Items

  pub data Fields : Type 0 where
    end : Fields
    field : Text → Json → Fields → Fields

abbrev pub items : Items → List Json
items nil = []
items (cons v vs) = v ∷ items vs

abbrev pub fields : Fields → List (Text × Json)
fields end = []
fields (field k v fs) = (k, v) ∷ fields fs

unfoldable pub get_field : Text → Fields → Option Json
get_field k end = none
get_field k (field j v fs) = if text_eq j k then some v else get_field k fs

-- `value.get(key)`: none on anything that is no object.
abbrev pub get : Text → Json → Option Json
get k (object fs) = get_field k fs
get k v = none

abbrev pub as_str : Option Json → Option Text
as_str (some (string s)) = some s
as_str v = none

abbrev pub as_object : Json → Option Fields
as_object (object fs) = some fs
as_object v = none

abbrev pub is_object : Json → Bool
is_object (object fs) = true
is_object v = false

abbrev pub is_object? : Option Json → Bool
is_object? none = false
is_object? (some v) = is_object v

pub as_str-eq-some : (v : Option Json) (s : Text) → as_str v ≡ some s → v ≡ some (string s)
as_str-eq-some none s h = absurd (ground arith)
as_str-eq-some (some null) s h = absurd (ground arith)
as_str-eq-some (some (bool b)) s h = absurd (ground arith)
as_str-eq-some (some (number n)) s h = absurd (ground arith)
as_str-eq-some (some (string t)) s h = ground arith
as_str-eq-some (some (array vs)) s h = absurd (ground arith)
as_str-eq-some (some (object fs)) s h = absurd (ground arith)
