-- ===== src/Context/Write/Laws/Register.antt =====
-- `set_network` and `set_nodes`: the entry that the file reads as.
use seismic.Prelude.{
  ◌≡◌, refl, true, Option, none, some, List, [], ◌∷◌, arith, ok, if◌then◌else◌, any,
}
use seismic.Prelude.Text.{Text, codes, text_eq}
use seismic.Prelude.Map.{IsSorted, insert_below}
use seismic.Descriptors.{Descriptors}
use seismic.Context.Config.{Network, Config}
use seismic.Context.Document.{
  Item, string, table, Doc, get, put, remove, optional, map_of, entries, config_of, node_of,
  required, known_only, network_keys,
}
use seismic.Context.Document.Laws.{
  get-put, get-remove, known_only-put, known_only-remove, IsNetwork,
}
use seismic.Context.Document.Edits.{put_nodes-IsNetwork}
use seismic.Context.Write.{
  pointer_keys, remove_all, put_value, put_pointers, set_network, nodes_table,
  descriptor_inline_table, set_nodes,
}
use seismic.Context.Write.Laws.Networks.{IsUpdated, entry_of, edit_network-IsUpdated}

-- An optional string over what the key held.
abbrev over : Option Text → Option Item → Option Item
over none o = o
over (some s) o = some (string s)

get-put_value :
    (k probe : Text) (v : Option Text) (d : Doc)
    → get probe (put_value k v d) ≡ (if text_eq k probe then over v (get probe d) else get probe d)
unfolding put_value
get-put_value k probe none d = ground arith
get-put_value k probe (some s) d = get-put k probe (string s) d

known_only-put_value :
    (known : List Text) (k : Text) (v : Option Text) (d : Doc)
    → any (text_eq k) known ≡ true
    → known_only known d ≡ true
    → known_only known (put_value k v d) ≡ true
unfolding put_value
known_only-put_value known k none d key h = h
known_only-put_value known k (some s) d key h = known_only-put known k (string s) d key h

known_only-remove_all :
    (known ks : List Text) (d : Doc)
    → known_only known d ≡ true
    → known_only known (remove_all ks d) ≡ true
unfolding remove_all
known_only-remove_all known [] d h = h
known_only-remove_all known (k ∷ ks) d h =
    known_only-remove_all known ks (remove k d) (known_only-remove known k d h)

optional-over : (v : Option Text) → optional (over v none) ≡ ok v
unfolding optional
optional-over none = refl
optional-over (some s) = refl

-- The pointers become those of `n`; the nodes stay.
put_pointers-IsNetwork :
    (n old : Network) (d : Doc)
    → IsNetwork d old
    → IsNetwork (put_pointers n d) (record n { nodes = old.nodes })
unfolding put_pointers remove_all text_eq
put_pointers-IsNetwork n old d r = record {
  reads_dir =
      rw
        (
          get-put_value, get-put_value, get-put_value, get-put_value, get-remove, get-remove,
          get-remove, get-remove,
        )
        (optional-over n.dir);
  reads_manifest =
      rw
        (
          get-put_value, get-put_value, get-put_value, get-put_value, get-remove, get-remove,
          get-remove,
        )
        (optional-over n.manifest);
  reads_source =
      rw (get-put_value, get-put_value, get-put_value, get-put_value, get-remove, get-remove)
        (optional-over n.source);
  reads_network_id =
      rw (get-put_value, get-put_value, get-put_value, get-put_value, get-remove)
        (optional-over n.network_id);
  reads_nodes =
      rw
        (
          get-put_value, get-put_value, get-put_value, get-put_value, get-remove, get-remove,
          get-remove, get-remove,
        )
        r.reads_nodes;
  keys_known = known_only-put_value network_keys _ n.network_id _ refl (
      known_only-put_value network_keys _ n.source _ refl (
        known_only-put_value network_keys _ n.manifest _ refl (
          known_only-put_value network_keys _ n.dir _ refl
            (known_only-remove_all network_keys pointer_keys d r.keys_known))));
}

-- Registering a network under a name, in a file that reads as a configuration, gives a file that reads
-- as that configuration with the network's pointers under the name, the nodes it had there before, and
-- the selections and every other network as they were.
pub set_network-IsUpdated :
    (name : Text) (n : Network) (d d' : Doc) (c : Config)
    → config_of d ≡ ok c
    → set_network name n d ≡ ok d'
    → (c' : Config) × (config_of d' ≡ ok c')
      × IsUpdated name (record n { nodes = (entry_of name c).nodes }) c c'
unfolding set_network
set_network-IsUpdated name n d d' c reads h =
    edit_network-IsUpdated name (put_pointers n) d d' c _ reads h
      (λ u r. put_pointers-IsNetwork n (entry_of name c) u r)

-- A node table reads back as the nodes it was made from.
map_of-nodes_table : (m : Descriptors) → IsSorted m → map_of node_of (nodes_table m) ≡ ok m
unfolding map_of node_of entries required get known_only text_eq nodes_table descriptor_inline_table
map_of-nodes_table [] s = refl
map_of-nodes_table ((name, n) ∷ m) s = rw (map_of-nodes_table m s.1, insert_below name n m s.0) refl

-- Importing a map of nodes under a network's name, in a file that reads as a configuration, gives a file
-- that reads as that configuration with exactly those nodes in the network, which keeps its pointers, and
-- the selections and every other network as they were.
pub set_nodes-IsUpdated :
    (name : Text) (nodes : Descriptors) (d d' : Doc) (c : Config)
    → IsSorted nodes
    → config_of d ≡ ok c
    → set_nodes name nodes d ≡ ok d'
    → (c' : Config) × (config_of d' ≡ ok c')
      × IsUpdated name (record (entry_of name c) { nodes = nodes }) c c'
unfolding set_nodes
set_nodes-IsUpdated name nodes d d' c sorted reads h =
    edit_network-IsUpdated name (put (codes "nodes") (table (nodes_table nodes))) d d' c _ reads h
      (λ u r.
        put_nodes-IsNetwork u (entry_of name c) (nodes_table nodes) nodes r
          (map_of-nodes_table nodes sorted))
