-- ===== src/Context/Write/Laws/Networks.antt =====
-- What the file reads as after a network is registered, its nodes are imported, or it is removed.
use seismic.Prelude.{
  ◌≡◌, refl, sym, ap, ◌∙◌, inl, inr, ◌⊎◌, none, some, arith, ok, >>=-eq-ok, Option-cases,
  Bool-cases, if◌then◌else◌, get_or_else,
}
use seismic.Prelude.Text.{Text, codes, text_eq}
use seismic.Prelude.Map.{Map, lookup}
use seismic.Context.Config.{Network, Config, default_network}
use seismic.Context.Document.{
  string, other, inline, table, Doc, end, get, put, map_of, map_or_default, entries, network_of,
  config_of,
}
use seismic.Context.Document.Laws.{
  get-put, read_at, lookup-map_of, map_of-put, IsConfig, config_of-IsConfig, IsConfig-config_of,
  IsNetwork, network_of-IsNetwork, IsNetwork-network_of,
}
use seismic.Context.Document.Edits.{put_networks-IsConfig, end-IsNetwork}
use seismic.Context.Write.{networks_not_table, network_not_table, table_at, edit_network}

-- The network `name` becomes `n`; the selections and the other networks stay.
pub record IsUpdated (name : Text) (n : Network) (c c' : Config) : Type 0 where
  pub same_current : c'.current ≡ c.current
  pub same_previous : c'.previous ≡ c.previous
  pub updated :
      (probe : Text)
      → lookup probe c'.networks ≡ (if text_eq name probe then some n else lookup probe c.networks)

-- The network that an edit starts from: the registered one, or an empty entry.
abbrev pub entry_of : Text → Config → Network
entry_of name c = get_or_else (lookup name c.networks) default_network

-- A table that is found is the key's, or empty for a missing key.
abbrev pub IsTableAt : Text → Doc → Doc → Type 0
IsTableAt k d t = ((get k d ≡ none) × (t ≡ end)) ⊎ (get k d ≡ some (table t))

table_at-IsTableAt :
    {E : Type 0} (k : Text) (e : E) (d t : Doc) → table_at k e d ≡ ok t → IsTableAt k d t
unfolding table_at
table_at-IsTableAt k e d t h = elim (Option-cases (get k d)) [
  | inl missing ↦ inl (missing, ground arith)
  | inr (table u, found) ↦
      inr (found ∙ ap (λ x. some (table x)) (let p : u ≡ t = ground arith in p))
  | inr (string s, found) ↦ absurd (ground arith)
  | inr (other s, found) ↦ absurd (ground arith)
  | inr (inline u, found) ↦ absurd (ground arith)
]

networks_at :
    (d : Doc) (c : Config) (t : Doc)
    → IsConfig d c
    → IsTableAt (codes "networks") d t
    → map_of network_of t ≡ ok c.networks
unfolding map_or_default entries map_of
networks_at d c t r (inl (missing, empty)) =
    rw empty (let h = r.reads_networks in ap (map_or_default network_of) (sym missing) ∙ h)
networks_at d c t r (inr found) = ap (map_or_default network_of) (sym found) ∙ r.reads_networks

network_at :
    (name : Text) (t : Doc) (m : Map Network) (u : Doc)
    → map_of network_of t ≡ ok m
    → IsTableAt name t u
    → IsNetwork u (get_or_else (lookup name m) default_network)
network_at name t m u h (inl (missing, empty)) =
    let e : read_at network_of none ≡ ok (lookup name m) =
      ap (read_at network_of) (sym missing) ∙ lookup-map_of network_of name t m h in
    let gone : lookup name m ≡ none = ground arith in rw (gone, empty) end-IsNetwork
network_at name t m u h (inr found) =
    let e : read_at network_of (some (table u)) ≡ ok (lookup name m) =
      ap (read_at network_of) (sym found) ∙ lookup-map_of network_of name t m h in
    let (n, reads, h₁) = >>=-eq-ok (network_of (table u)) _ e in
    let there : lookup name m ≡ some n = ground arith in rw there (network_of-IsNetwork u n reads)

-- An edit that turns a table that reads as a network into one that reads as another.
pub edit_network-IsUpdated :
    (name : Text) (f : Doc → Doc) (d d' : Doc) (c : Config) (n : Network)
    → config_of d ≡ ok c
    → edit_network name f d ≡ ok d'
    → ((u : Doc) → IsNetwork u (entry_of name c) → IsNetwork (f u) n)
    → (c' : Config) × (config_of d' ≡ ok c') × IsUpdated name n c c'
unfolding edit_network
edit_network-IsUpdated name f d d' c n reads h turns =
    let r = config_of-IsConfig d c reads in
    let (t, e₁, h₁) = >>=-eq-ok (table_at (codes "networks") networks_not_table d) _ h in
    let (u, e₂, h₂) = >>=-eq-ok (table_at name (network_not_table name) t) _ h₁ in
    let written : d' ≡ put (codes "networks") (table (put name (table (f u)) t)) d = ground arith in
    let m_reads =
      networks_at d c t r (table_at-IsTableAt (codes "networks") networks_not_table d t e₁) in
    let u_reads =
      network_at name t c.networks u m_reads
        (table_at-IsTableAt name (network_not_table name) t u e₂) in
    let n_reads = IsNetwork-network_of (f u) n (turns u u_reads) in
    let (m', m'_reads) = map_of-put network_of name (table (f u)) n t c.networks n_reads m_reads in
    (
      record c { networks = m' },
      ap config_of written
          ∙ IsConfig-config_of _ _
              (put_networks-IsConfig d c r (put name (table (f u)) t) m' m'_reads),
      record {
        same_current = refl;
        same_previous = refl;
        updated = λ probe. updated_at t u m' c.networks m_reads n_reads m'_reads probe;
      },
    )
  where
    updated_at :
        (t u : Doc) (m' m : Map Network)
        → map_of network_of t ≡ ok m
        → network_of (table (f u)) ≡ ok n
        → map_of network_of (put name (table (f u)) t) ≡ ok m'
        → (probe : Text) → lookup probe m' ≡ (if text_eq name probe then some n else lookup probe m)
    updated_at t u m' m m_reads n_reads m'_reads probe =
        let before = lookup-map_of network_of probe t m m_reads in
        let after = lookup-map_of network_of probe (put name (table (f u)) t) m' m'_reads in
        let after' : read_at network_of
              (if text_eq name probe then some (table (f u)) else get probe t)
            ≡ ok (lookup probe m') =
          ap (read_at network_of) (sym (get-put name probe (table (f u)) t)) ∙ after in
        elim (Bool-cases (text_eq name probe)) [
          | inl here ↦ ground arith
          | inr there ↦ ground arith
        ]
