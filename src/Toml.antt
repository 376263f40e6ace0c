-- ===== src/Toml.antt =====
-- The TOML values that the tool reads (`toml::Value`), as far as its source looks into them: strings,
-- arrays and tables; any other value is held as its text. Parsing and rendering are the toml crate's.
use seismic.Prelude.{Option, none, some, List, [], ◌∷◌, if◌then◌else◌}
use seismic.Prelude.Text.{Text, text_eq}

mutual
  pub data Toml : Type 0 where
    string : Text → Toml
    scalar : Text → Toml
    array : Elems → Toml
    table : Table → Toml

  pub data Elems : Type 0 where
    nil : Elems
    cons : Toml → Elems → Elems

  pub data Table : Type 0 where
    end : Table
    entry : Text → Toml → Table → Table

abbrev pub elems : Elems → List Toml
elems nil = []
elems (cons v vs) = v ∷ elems vs

-- `table.get(key)`.
unfoldable pub get : Text → Table → Option Toml
get k end = none
get k (entry j v t) = if text_eq j k then some v else get k t

-- `table.insert(key, value)`: in the place of the key's entry, or at the end.
unfoldable pub set : Text → Toml → Table → Table
set k v end = entry k v end
set k v (entry j w t) = let rest = set k v t in if text_eq j k then entry k v t else entry j w rest

-- `value.get(key)`: none on anything that is no table.
abbrev pub get_in : Text → Toml → Option Toml
get_in k (table t) = get k t
get_in k v = none

abbrev pub as_str : Option Toml → Option Text
as_str (some (string s)) = some s
as_str v = none

abbrev pub as_array : Option Toml → Option (List Toml)
as_array (some (array vs)) = some (elems vs)
as_array v = none
