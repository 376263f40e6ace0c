-- ===== src/Context/Document/Laws.antt =====
-- The keys of a document after an edit, and what the schema reads from them.
use seismic.Prelude.{
  ◌≡◌, refl, inl, inr, true, Option, none, some, List, [], arith, Result, ok, ◌>>=◌, >>=-eq-ok,
  bail_if_then-eq-ok, Bool-cases, if◌then◌else◌, any,
}
use seismic.Prelude.Text.{Text, codes, text_eq, text_eq_iff}
use seismic.Prelude.Map.{Map, lookup, insert, lookup-insert}
use seismic.Context.Config.{Network, Config}
use seismic.Context.Document.{
  Item, table, Doc, end, entry, get, put, remove, SchemaError, unknown_field, known_only, optional,
  entries, node_of, map_of, map_or_default, network_keys, network_of, config_keys, config_of,
}

pub get-put :
    (k probe : Text) (v : Item) (d : Doc)
    → get probe (put k v d) ≡ (if text_eq k probe then some v else get probe d)
unfolding get put
get-put k probe v end = refl
get-put k probe v (entry j w d) =
    ground (arith, text_eq_iff k probe, text_eq_iff j k, text_eq_iff j probe, get-put k probe v d)

pub get-remove :
    (k probe : Text) (d : Doc)
    → get probe (remove k d) ≡ (if text_eq k probe then none else get probe d)
unfolding get remove
get-remove k probe end = ground arith
get-remove k probe (entry j w d) =
    ground (arith, text_eq_iff k probe, text_eq_iff j k, text_eq_iff j probe, get-remove k probe d)

pub known_only-put :
    (known : List Text) (k : Text) (v : Item) (d : Doc)
    → any (text_eq k) known ≡ true
    → known_only known d ≡ true
    → known_only known (put k v d) ≡ true
unfolding known_only put
known_only-put known k v end known_key h = ground arith
known_only-put known k v (entry j w d) known_key h =
    ground (arith, known_only-put known k v d known_key)

pub known_only-remove :
    (known : List Text) (k : Text) (d : Doc)
    → known_only known d ≡ true
    → known_only known (remove k d) ≡ true
unfolding known_only remove
known_only-remove known k end h = refl
known_only-remove known k (entry j w d) h = ground (arith, known_only-remove known k d)

module _ {V : Type 0} (read : Item → Result SchemaError V) where
  -- What is read from the item under a key that may be missing.
  abbrev pub read_at : Option Item → Result SchemaError (Option V)
  read_at none = ok none
  read_at (some v) = do a ← read v; ok (some a)

  pub lookup-map_of :
      (k : Text) (d : Doc) (m : Map V) → map_of read d ≡ ok m → read_at (get k d) ≡ ok (lookup k m)
  unfolding map_of get lookup
  lookup-map_of k end m h = ground arith
  lookup-map_of k (entry j v d) m h =
      let (a, read_v, h₁) = >>=-eq-ok (read v) _ h in
      let (more, read_d, h₂) = >>=-eq-ok (map_of read d) _ h₁ in
      let later = lookup-map_of k d more read_d in
      let same : m ≡ insert j a more = ground arith in
      elim (Bool-cases (text_eq j k)) [
        | inl here ↦ rw (same, lookup-insert j k a more, here, read_v) refl
        | inr there ↦ rw (same, lookup-insert j k a more, there) later
      ]

  pub map_of-put :
      (k : Text) (v : Item) (a : V) (d : Doc) (m : Map V)
      → read v ≡ ok a
      → map_of read d ≡ ok m
      → (m' : Map V) × (map_of read (put k v d) ≡ ok m')
  unfolding map_of put
  map_of-put k v a end m read_v h = (insert k a [], rw read_v refl)
  map_of-put k v a (entry j w d) m read_v h =
      let (b, read_w, h₁) = >>=-eq-ok (read w) _ h in
      let (more, read_d, h₂) = >>=-eq-ok (map_of read d) _ h₁ in
      let (m', later) = map_of-put k v a d more read_v read_d in
      elim (Bool-cases (text_eq j k)) [
        | inl here ↦ (insert k a more, rw (here, read_v, read_d) refl)
        | inr there ↦ (insert j b m', rw (there, read_w, later) refl)
      ]

  pub map_of-remove :
      (k : Text) (d : Doc) (m : Map V)
      → map_of read d ≡ ok m
      → (m' : Map V) × (map_of read (remove k d) ≡ ok m')
  unfolding map_of remove
  map_of-remove k end m h = ([], refl)
  map_of-remove k (entry j w d) m h =
      let (b, read_w, h₁) = >>=-eq-ok (read w) _ h in
      let (more, read_d, h₂) = >>=-eq-ok (map_of read d) _ h₁ in
      let (m', later) = map_of-remove k d more read_d in
      elim (Bool-cases (text_eq j k)) [
        | inl here ↦ (m', rw here later)
        | inr there ↦ (insert j b m', rw (there, read_w, later) refl)
      ]

-- What `config_of` reads, field by field.
pub record IsConfig (d : Doc) (c : Config) : Type 0 where
  pub reads_current : optional (get (codes "current") d) ≡ ok c.current
  pub reads_previous : optional (get (codes "previous") d) ≡ ok c.previous
  pub reads_networks : map_or_default network_of (get (codes "networks") d) ≡ ok c.networks
  pub keys_known : known_only config_keys d ≡ true

pub config_of-IsConfig : (d : Doc) (c : Config) → config_of d ≡ ok c → IsConfig d c
unfolding config_of
config_of-IsConfig d c h =
    let (current, e₁, h₁) = >>=-eq-ok (optional (get (codes "current") d)) _ h in
    let (previous, e₂, h₂) = >>=-eq-ok (optional (get (codes "previous") d)) _ h₁ in
    let (networks, e₃, h₃) =
      >>=-eq-ok (map_or_default network_of (get (codes "networks") d)) _ h₂ in
    let (known, same) =
      bail_if_then-eq-ok (known_only config_keys d) unknown_field
        (record { current = current; previous = previous; networks = networks }) h₃ in
    rw (← same)
      (record { reads_current = e₁; reads_previous = e₂; reads_networks = e₃; keys_known = known })

pub IsConfig-config_of : (d : Doc) (c : Config) → IsConfig d c → config_of d ≡ ok c
unfolding config_of
IsConfig-config_of d c r =
    rw (r.reads_current, r.reads_previous, r.reads_networks, r.keys_known) refl

-- What `network_of` reads from a table, field by field.
pub record IsNetwork (d : Doc) (n : Network) : Type 0 where
  pub reads_dir : optional (get (codes "dir") d) ≡ ok n.dir
  pub reads_manifest : optional (get (codes "manifest") d) ≡ ok n.manifest
  pub reads_source : optional (get (codes "source") d) ≡ ok n.source
  pub reads_network_id : optional (get (codes "network_id") d) ≡ ok n.network_id
  pub reads_nodes : map_or_default node_of (get (codes "nodes") d) ≡ ok n.nodes
  pub keys_known : known_only network_keys d ≡ true

pub network_of-IsNetwork : (d : Doc) (n : Network) → network_of (table d) ≡ ok n → IsNetwork d n
unfolding network_of entries
network_of-IsNetwork d n h =
    let (dir, e₁, h₁) = >>=-eq-ok (optional (get (codes "dir") d)) _ h in
    let (manifest, e₂, h₂) = >>=-eq-ok (optional (get (codes "manifest") d)) _ h₁ in
    let (source, e₃, h₃) = >>=-eq-ok (optional (get (codes "source") d)) _ h₂ in
    let (id, e₄, h₄) = >>=-eq-ok (optional (get (codes "network_id") d)) _ h₃ in
    let (nodes, e₅, h₅) = >>=-eq-ok (map_or_default node_of (get (codes "nodes") d)) _ h₄ in
    let (known, same) =
      bail_if_then-eq-ok (known_only network_keys d) unknown_field
        (record { dir = dir; manifest = manifest; source = source; network_id = id; nodes = nodes })
        h₅ in
    rw (← same) (record {
      reads_dir = e₁;
      reads_manifest = e₂;
      reads_source = e₃;
      reads_network_id = e₄;
      reads_nodes = e₅;
      keys_known = known;
    })

pub IsNetwork-network_of : (d : Doc) (n : Network) → IsNetwork d n → network_of (table d) ≡ ok n
unfolding network_of entries
IsNetwork-network_of d n r =
    rw
      (
        r.reads_dir, r.reads_manifest, r.reads_source, r.reads_network_id, r.reads_nodes,
        r.keys_known,
      )
      refl
