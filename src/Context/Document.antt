-- ===== src/Context/Document.antt =====
-- A TOML document as the edits of tee/cli/context/src/write.rs see it (`toml_edit::DocumentMut`), and
-- the context file's schema read from one: the `Deserialize` that config.rs and common's descriptor.rs
-- derive, with `deny_unknown_fields`. Comments and layout are toml_edit's and are not looked into.
pub mod Laws
pub mod Edits
use seismic.Prelude.{
  Bool, true, false, not, ◌&&◌, ◌||◌, Option, none, some, List, [], ◌∷◌, Result, ok, err, ◌>>=◌,
  ◌>>◌, bail_if, some_or, if◌then◌else◌, any,
}
use seismic.Prelude.Text.{Text, codes, text_eq}
use seismic.Prelude.Map.{Map, insert}
use seismic.Descriptors.{NodeDescriptor, Descriptors}
use seismic.Context.Config.{Network, Config}

-- `Item`: a string, any other value, an inline table (a value too), or a table.
mutual
  pub data Item : Type 0 where
    string : Text → Item
    other : Text → Item
    inline : Doc → Item
    table : Doc → Item

  pub data Doc : Type 0 where
    end : Doc
    entry : Text → Item → Doc → Doc

-- `doc.get(key)`
unfoldable pub get : Text → Doc → Option Item
get k end = none
get k (entry j v d) = if text_eq j k then some v else get k d

-- `doc[key] = item`, `doc.insert(key, item)`: in the place of the key's entry, or at the end. The order
-- is not that of the printed text, where a table's values stand before its tables.
unfoldable pub put : Text → Item → Doc → Doc
put k v end = entry k v end
put k v (entry j w d) = let rest = put k v d in if text_eq j k then entry k v d else entry j w rest

-- `doc.remove(key)`
unfoldable pub remove : Text → Doc → Doc
remove k end = end
remove k (entry j v d) = let rest = remove k d in if text_eq j k then rest else entry j v rest

-- `Item::as_str`
abbrev pub as_str : Option Item → Option Text
as_str (some (string s)) = some s
as_str v = none

-- Why a document is not of the schema.
pub data SchemaError : Type 0 where
  mistyped : SchemaError
  missing_field : Text → SchemaError
  unknown_field : SchemaError

-- A required string.
unfoldable pub required : Text → Doc → Result SchemaError Text
unfolding get
required k d = elim (get k d) [
  | none ↦ err (missing_field k)
  | some v ↦ some_or (as_str (some v)) mistyped
]

-- The keys that a struct denies are those it has no field for.
unfoldable pub known_only : List Text → Doc → Bool
known_only known end = true
known_only known (entry j v d) = any (text_eq j) known && known_only known d

-- A field of type `Option<String>` or `Option<PathBuf>`.
unfoldable pub optional : Option Item → Result SchemaError (Option Text)
optional none = ok none
optional (some (string s)) = ok (some s)
optional (some v) = err mistyped

-- A value that serde can read a map or a struct from, an array for a struct left out.
unfoldable pub entries : Item → Result SchemaError Doc
entries (inline d) = ok d
entries (table d) = ok d
entries v = err mistyped

-- The derived `Deserialize` of `NodeDescriptor`.
unfoldable pub node_of : Item → Result SchemaError NodeDescriptor
unfolding known_only entries required
node_of v = do
  d ← entries v
  ip ← required (codes "public_ip") d
  fqdn ← required (codes "fqdn") d
  bail_if (not (known_only (codes "public_ip" ∷ codes "fqdn" ∷ []) d)) unknown_field
  ok (record { public_ip = ip; fqdn = fqdn })

-- A map of the schema, each entry read by `read`.
module _ {V : Type 0} (read : Item → Result SchemaError V) where
  unfoldable pub map_of : Doc → Result SchemaError (Map V)
  map_of end = ok []
  map_of (entry k v d) = do a ← read v; m ← map_of d; ok (insert k a m)

  -- A map under a key that may be missing: `#[serde(default)]`.
  unfoldable pub map_or_default : Option Item → Result SchemaError (Map V)
  unfolding map_of entries
  map_or_default none = ok []
  map_or_default (some v) = do d ← entries v; map_of d

abbrev pub network_keys : List Text
network_keys =
    codes "dir" ∷ codes "manifest" ∷ codes "source" ∷ codes "network_id" ∷ codes "nodes" ∷ []

-- The derived `Deserialize` of `Network`.
unfoldable pub network_of : Item → Result SchemaError Network
unfolding known_only optional map_or_default node_of get entries
network_of v = do
  d ← entries v
  dir ← optional (get (codes "dir") d)
  manifest ← optional (get (codes "manifest") d)
  source ← optional (get (codes "source") d)
  id ← optional (get (codes "network_id") d)
  nodes ← map_or_default node_of (get (codes "nodes") d)
  bail_if (not (known_only network_keys d)) unknown_field
  ok (record { dir = dir; manifest = manifest; source = source; network_id = id; nodes = nodes })

abbrev pub config_keys : List Text
config_keys = codes "current" ∷ codes "previous" ∷ codes "networks" ∷ []

-- The derived `Deserialize` of `Config`.
unfoldable pub config_of : Doc → Result SchemaError Config
unfolding known_only optional map_or_default network_of get
config_of d = do
  current ← optional (get (codes "current") d)
  previous ← optional (get (codes "previous") d)
  networks ← map_or_default network_of (get (codes "networks") d)
  bail_if (not (known_only config_keys d)) unknown_field
  ok (record { current = current; previous = previous; networks = networks })

-- `toml::from_str::<Config>`: the crate's parser is a parameter.
module _ (parse : Text → Option Doc) where
  unfoldable pub from_toml : Text → Option Config
  unfolding config_of
  from_toml text = elim (parse text) [
    | none ↦ none
    | some d ↦ elim (config_of d) [ ok c ↦ some c | err e ↦ none ]
  ]
