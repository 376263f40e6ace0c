-- ===== src/Context/Write.antt =====
-- The edits of the context file: tee/cli/context/src/write.rs. A document is edited by its keys; what
-- is written is what the toml crates render, once it reads back as a valid file.
pub mod Laws
use seismic.Prelude.{
  Bool, true, false, Option, none, some, List, [], ◌∷◌, Result, ok, err, ◌>>=◌, ◌>>◌, some_or,
  map_err, if◌then◌else◌, get_or_else,
}
use seismic.Prelude.Text.{Text, codes, text_eq}
use seismic.Descriptors.{NodeDescriptor, Descriptors}
use seismic.Context.Selection.{Selection, from_str, display}
use seismic.Context.Config.{Network, Config, ConfigError, validate_all}
use seismic.Context.Document.{
  Item, string, other, inline, table, Doc, end, entry, get, put, remove, as_str, from_toml,
}

pub data WriteError : Type 0 where
  not_toml : WriteError
  networks_not_table : WriteError
  network_not_table : Text → WriteError
  unreadable_write : WriteError
  invalid_write : Text → ConfigError → WriteError

-- `set_current`, past the reading and writing.
unfoldable pub set_current : Selection → Doc → Doc
unfolding put get display
set_current s d =
    put (codes "current") (string (display s)) (elim (as_str (get (codes "current") d)) [
      | none ↦ d
      | some old ↦ put (codes "previous") (string old) d
    ])

-- `clear_current`
unfoldable pub clear_current : Doc → Doc
unfolding remove
clear_current d = remove (codes "current") d

-- `networks_table`, `network_table`: the table under a key, an empty one when the key is missing.
unfoldable pub table_at : {E : Type 0} → Text → E → Doc → Result E Doc
unfolding get
table_at k e d = elim (get k d) [
  | none ↦ ok end
  | some v ↦ elim v [ table t ↦ ok t | string s ↦ err e | other s ↦ err e | inline t ↦ err e ]
]

-- An edit of `[networks.<name>]`.
unfoldable pub edit_network : Text → (Doc → Doc) → Doc → Result WriteError Doc
unfolding table_at put
edit_network name f d = do
  networks ← table_at (codes "networks") networks_not_table d
  network ← table_at name (network_not_table name) networks
  ok (put (codes "networks") (table (put name (table (f network)) networks)) d)

abbrev pub pointer_keys : List Text
pointer_keys = codes "dir" ∷ codes "manifest" ∷ codes "source" ∷ codes "network_id" ∷ []

unfoldable pub remove_all : List Text → Doc → Doc
unfolding remove
remove_all [] d = d
remove_all (k ∷ ks) d = remove_all ks (remove k d)

-- One of the `pointer_values`, when it is set.
unfoldable pub put_value : Text → Option Text → Doc → Doc
unfolding put
put_value k none d = d
put_value k (some s) d = put k (string s) d

-- The body of `set_network`.
unfoldable pub put_pointers : Network → Doc → Doc
unfolding remove_all put_value
put_pointers n d = put_value (codes "network_id") n.network_id (
    put_value (codes "source") n.source (
      put_value (codes "manifest") n.manifest
        (put_value (codes "dir") n.dir (remove_all pointer_keys d))))

unfoldable pub set_network : Text → Network → Doc → Result WriteError Doc
unfolding edit_network put_pointers
set_network name n d = edit_network name (put_pointers n) d

unfoldable pub descriptor_inline_table : NodeDescriptor → Doc
descriptor_inline_table n =
    entry (codes "public_ip") (string n.public_ip) (entry (codes "fqdn") (string n.fqdn) end)

-- The descriptors' names are those of a map, so that each `insert` is of a new key.
unfoldable pub nodes_table : Descriptors → Doc
unfolding descriptor_inline_table
nodes_table [] = end
nodes_table ((name, n) ∷ m) = entry name (inline (descriptor_inline_table n)) (nodes_table m)

unfoldable pub set_nodes : Text → Descriptors → Doc → Result WriteError Doc
unfolding edit_network nodes_table put
set_nodes name nodes d = edit_network name (put (codes "nodes") (table (nodes_table nodes))) d

-- `selects` of `remove_network`: the key holds a selection of the network.
unfoldable pub selects : Text → Option Item → Bool
unfolding from_str
selects name v = elim (as_str v) [
  | none ↦ false
  | some raw ↦ elim (from_str raw) [ err e ↦ false | ok s ↦ text_eq s.network name ]
]

unfoldable pub forget : Text → Text → Doc → Doc
unfolding selects get remove
forget name k d = if selects name (get k d) then remove k d else d

-- `networks.remove(name)`, when `networks` is a table.
unfoldable pub drop_network : Text → Doc → Doc
unfolding get put remove
drop_network name d = elim (get (codes "networks") d) [
  | none ↦ d
  | some v ↦ elim v [
    | table t ↦ put (codes "networks") (table (remove name t)) d
    | string s ↦ d
    | other s ↦ d
    | inline t ↦ d
  ]
]

unfoldable pub remove_network : Text → Doc → Doc
unfolding drop_network forget
remove_network name d =
    forget name (codes "previous") (forget name (codes "current") (drop_network name d))

-- `edit`: `file` is the file's text, none when it does not exist; the result is the text written.
-- The crates' parser and printer are parameters.
module _ (parse : Text → Option Doc) (render : Doc → Text) where
  unfoldable pub edit : Option Text → (Doc → Result WriteError Doc) → Result WriteError Text
  unfolding from_toml validate_all
  edit file f = do
    d ← some_or (parse (get_or_else file [])) not_toml
    d' ← f d
    config ← some_or (from_toml parse (render d')) unreadable_write
    map_err (λ e. invalid_write e.0 e.1) (validate_all config.networks)
    ok (render d')
