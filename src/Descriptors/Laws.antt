-- ===== src/Descriptors/Laws.antt =====
-- What the descriptor reader accepts and what it returns.
use seismic.Prelude.{
  ◌≡◌, ◌⊎◌, ◌↔◌, ◌≢◌, Option, none, some, [], ◌∷◌, arith, ok, >>=-eq-ok, All, some_or,
  some_or-eq-ok, ap, ap₂, ◌∙◌,
}
use seismic.Prelude.Text.{Text, codes, text_eq_iff}
use seismic.Prelude.Map.{lookup, insert, lookup-insert, insert-IsSorted, insert-All, IsSorted}
use seismic.Json.{
  Json, null, bool, number, string, array, object, Fields, end, field, get_field, get, as_str,
}
use seismic.Descriptors.{
  NodeDescriptor, Descriptors, RequiredKey, bad_entry, present_key, require, into_descriptor,
  parse_entry, parse_entries, parse_map, parse_descriptors, select_descriptor,
}

-- No key stands twice in the object.
abbrev pub HasUniqueKeys : Fields → Type 0
HasUniqueKeys end = Unit {0}
HasUniqueKeys (field k v fs) = (get_field k fs ≡ none) × HasUniqueKeys fs

-- A descriptor of two texts.
abbrev of_texts : Option Text → Option Text → Option NodeDescriptor
of_texts (some ip) (some domain) = some (record { public_ip = ip; fqdn = domain })
of_texts ip domain = none

-- The descriptor that an entry of the file spells: its `public_ip` and its `fqdn`, both texts.
abbrev pub described : Option Json → Option NodeDescriptor
described none = none
described (some v) = of_texts (as_str (get (codes "public_ip") v)) (as_str (get (codes "fqdn") v))

require-eq-ok :
    (name key s : Text) (v : Option Json) (r : RequiredKey)
    → present_key v ≡ some r
    → require name key r ≡ ok s
    → as_str v ≡ some s
unfolding present_key require
require-eq-ok name key s none r p h = absurd (ground arith)
require-eq-ok name key s (some null) r p h = absurd (ground arith)
require-eq-ok name key s (some (string [])) r p h = absurd (ground arith)
require-eq-ok name key s (some (string (c ∷ t))) r p h = ground arith
require-eq-ok name key s (some (bool b)) r p h = absurd (ground arith)
require-eq-ok name key s (some (number n)) r p h = absurd (ground arith)
require-eq-ok name key s (some (array vs)) r p h = absurd (ground arith)
require-eq-ok name key s (some (object fs)) r p h = absurd (ground arith)

parse_entry-described :
    (name : Text) (v : Json) (d : NodeDescriptor)
    → parse_entry name v ≡ ok d
    → described (some v) ≡ some d
unfolding parse_entry into_descriptor
parse_entry-described name (object fs) d h =
    let ip_entry = get_field (codes "public_ip") fs in
    let domain_entry = get_field (codes "fqdn") fs in
    let (r, e₁, h₁) = >>=-eq-ok (some_or (present_key ip_entry) (bad_entry name)) _ h in
    let (q, e₂, h₂) = >>=-eq-ok (some_or (present_key domain_entry) (bad_entry name)) _ h₁ in
    let (ip, e₃, h₃) = >>=-eq-ok (require name (codes "public_ip") r) _ h₂ in
    let (domain, e₄, h₄) = >>=-eq-ok (require name (codes "fqdn") q) _ h₃ in
    let first =
      require-eq-ok name (codes "public_ip") ip ip_entry r
        (some_or-eq-ok (present_key ip_entry) (bad_entry name) e₁) e₃ in
    let second =
      require-eq-ok name (codes "fqdn") domain domain_entry q
        (some_or-eq-ok (present_key domain_entry) (bad_entry name) e₂) e₄ in
    let same : record { public_ip = ip; fqdn = domain } ≡ d = ground arith in
    ap₂ of_texts first second ∙ ap some same
parse_entry-described name _ d h = absurd (ground arith)

parse_entries-lookup :
    (fs : Fields) (m r : Descriptors) (name : Text)
    → HasUniqueKeys fs
    → parse_entries fs m ≡ ok r
    → lookup name r
      ≡ elim (get_field name fs) [ none ↦ lookup name m | some v ↦ described (some v) ]
unfolding parse_entries get_field
parse_entries-lookup end m r name u h = ground arith
parse_entries-lookup (field k v fs) m r name u h =
    let (d, parsed, h') = >>=-eq-ok (parse_entry k v) _ h in
    ground (
      arith,
      parse_entries-lookup fs (insert k d m) r name u.1 h',
      lookup-insert k name d m,
      text_eq_iff k name,
      parse_entry-described k v d parsed,
    )

parse_entries-IsSorted :
    (fs : Fields) (m r : Descriptors) → IsSorted m → parse_entries fs m ≡ ok r → IsSorted r
unfolding parse_entries
parse_entries-IsSorted end m r s h = let e : m ≡ r = ground arith in rw e at s
parse_entries-IsSorted (field k v fs) m r s h =
    let (d, parsed, h') = >>=-eq-ok (parse_entry k v) _ h in
    parse_entries-IsSorted fs (insert k d m) r (insert-IsSorted k d m s) h'

parse_map-entries :
    (fs : Fields) (r : Descriptors) → parse_map fs ≡ ok r → parse_entries fs [] ≡ ok r
unfolding parse_map
parse_map-entries end r h = absurd (ground arith)
parse_map-entries (field k v fs) r h = ground arith

parse_entry-IsUsable :
    (name : Text) (v : Json) (d : NodeDescriptor)
    → parse_entry name v ≡ ok d
    → (d.public_ip ≢ []) × (d.fqdn ≢ [])
unfolding parse_entry
parse_entry-IsUsable name (object fs) d h = (ground arith, ground arith)
parse_entry-IsUsable name _ d h = absurd (ground arith)

-- Choosing a node succeeds exactly when the named node is in the map, or when none is named and the
-- map holds one node; the result is that node.
pub select_descriptor_iff :
    (m : Descriptors) (name : Option Text) (n : Text) (d : NodeDescriptor)
    → (select_descriptor m name ≡ ok (n, d))
      ↔ (((name ≡ some n) × (lookup n m ≡ some d)) ⊎ ((name ≡ none) × (m ≡ (n, d) ∷ [])))
unfolding select_descriptor
select_descriptor_iff m (some name) n d = ground arith
select_descriptor_iff [] none n d = ground arith
select_descriptor_iff ((k, e) ∷ []) none n d = ground arith
select_descriptor_iff (p ∷ q ∷ m) none n d = ground arith

abbrev pub IsUsable : Text × NodeDescriptor → Type 0
IsUsable e = (e.1.public_ip ≢ []) × (e.1.fqdn ≢ [])

parse_entries-IsUsable :
    (fs : Fields) (m r : Descriptors) → All IsUsable m → parse_entries fs m ≡ ok r → All IsUsable r
unfolding parse_entries
parse_entries-IsUsable end m r a h = let e : m ≡ r = ground arith in rw e at a
parse_entries-IsUsable (field k v fs) m r a h =
    let (d, parsed, h') = >>=-eq-ok (parse_entry k v) _ h in
    parse_entries-IsUsable fs (insert k d m) r
      (insert-All IsUsable k d m (parse_entry-IsUsable k v d parsed) a) h'

-- A map that was read, in the order of the names, holds under a name the node whose address is the
-- `public_ip` and whose domain is the `fqdn` of the file's entry of that name, both texts, and nothing
-- under a name without an entry; no address and no domain in it is empty. The file is an object without
-- repeated keys.
pub parse_descriptors-described :
    (from_slice : Text → Option Json) (bytes : Text) (fs : Fields) (r : Descriptors) (name : Text)
    → from_slice bytes ≡ some (object fs)
    → HasUniqueKeys fs
    → parse_descriptors from_slice bytes ≡ ok r
    → IsSorted r × (lookup name r ≡ described (get_field name fs)) × All IsUsable r
unfolding parse_descriptors lookup
parse_descriptors-described from_slice bytes fs r name e u h =
    let entries = parse_map-entries fs r (ground arith) in
    (
      parse_entries-IsSorted fs [] r tt entries,
      ground (arith, parse_entries-lookup fs [] r name u entries),
      parse_entries-IsUsable fs [] r tt entries,
    )
