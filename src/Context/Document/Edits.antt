-- ===== src/Context/Document/Edits.antt =====
-- What an edit of one key changes of what the schema reads.
use seismic.Prelude.{◌≡◌, refl, Option, none, some, arith, ok}
use seismic.Prelude.Text.{Text, codes, text_eq}
use seismic.Prelude.Map.{Map}
use seismic.Context.Config.{Network, Config, default_network}
use seismic.Descriptors.{Descriptors}
use seismic.Context.Document.{
  Item, string, other, inline, table, Doc, end, get, put, remove, as_str, known_only, optional,
  entries, map_of, map_or_default, node_of, network_of, network_keys, config_keys,
}
use seismic.Context.Document.Laws.{
  get-put, get-remove, known_only-put, known_only-remove, IsConfig, IsNetwork,
}

pub optional-as_str : (o : Option Item) (t : Option Text) → optional o ≡ ok t → as_str o ≡ t
unfolding optional
optional-as_str none t h = ground arith
optional-as_str (some (string s)) t h = ground arith
optional-as_str (some (other s)) t h = absurd (ground arith)
optional-as_str (some (inline d)) t h = absurd (ground arith)
optional-as_str (some (table d)) t h = absurd (ground arith)

module _ (d : Doc) (c : Config) (r : IsConfig d c) where
  pub put_current-IsConfig :
      (t : Text) → IsConfig (put (codes "current") (string t) d) (record c { current = some t })
  unfolding text_eq optional
  put_current-IsConfig t = record {
    reads_current = rw get-put refl;
    reads_previous = rw get-put r.reads_previous;
    reads_networks = rw get-put r.reads_networks;
    keys_known = known_only-put config_keys (codes "current") (string t) d refl r.keys_known;
  }

  pub put_previous-IsConfig :
      (t : Text) → IsConfig (put (codes "previous") (string t) d) (record c { previous = some t })
  unfolding text_eq optional
  put_previous-IsConfig t = record {
    reads_current = rw get-put r.reads_current;
    reads_previous = rw get-put refl;
    reads_networks = rw get-put r.reads_networks;
    keys_known = known_only-put config_keys (codes "previous") (string t) d refl r.keys_known;
  }

  pub put_networks-IsConfig :
      (t : Doc) (m : Map Network)
      → map_of network_of t ≡ ok m
      → IsConfig (put (codes "networks") (table t) d) (record c { networks = m })
  unfolding text_eq map_or_default entries
  put_networks-IsConfig t m h = record {
    reads_current = rw get-put r.reads_current;
    reads_previous = rw get-put r.reads_previous;
    reads_networks = rw get-put h;
    keys_known = known_only-put config_keys (codes "networks") (table t) d refl r.keys_known;
  }

  pub remove_current-IsConfig : IsConfig (remove (codes "current") d) (record c { current = none })
  unfolding text_eq optional
  remove_current-IsConfig = record {
    reads_current = rw get-remove refl;
    reads_previous = rw get-remove r.reads_previous;
    reads_networks = rw get-remove r.reads_networks;
    keys_known = known_only-remove config_keys (codes "current") d r.keys_known;
  }

  pub remove_previous-IsConfig :
      IsConfig (remove (codes "previous") d) (record c { previous = none })
  unfolding text_eq optional
  remove_previous-IsConfig = record {
    reads_current = rw get-remove r.reads_current;
    reads_previous = rw get-remove refl;
    reads_networks = rw get-remove r.reads_networks;
    keys_known = known_only-remove config_keys (codes "previous") d r.keys_known;
  }

pub end-IsNetwork : IsNetwork end default_network
unfolding get optional map_or_default known_only
end-IsNetwork = record {
  reads_dir = refl;
  reads_manifest = refl;
  reads_source = refl;
  reads_network_id = refl;
  reads_nodes = refl;
  keys_known = refl;
}

pub put_nodes-IsNetwork :
    (d : Doc) (n : Network) (t : Doc) (m : Descriptors)
    → IsNetwork d n
    → map_of node_of t ≡ ok m
    → IsNetwork (put (codes "nodes") (table t) d) (record n { nodes = m })
unfolding text_eq map_or_default entries
put_nodes-IsNetwork d n t m r h = record {
  reads_dir = rw get-put r.reads_dir;
  reads_manifest = rw get-put r.reads_manifest;
  reads_source = rw get-put r.reads_source;
  reads_network_id = rw get-put r.reads_network_id;
  reads_nodes = rw get-put h;
  keys_known = known_only-put network_keys (codes "nodes") (table t) d refl r.keys_known;
}
