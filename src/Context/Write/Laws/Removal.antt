-- ===== src/Context/Write/Laws/Removal.antt =====
-- `remove_network`: the network is gone, and no selection points at it.
use seismic.Prelude.{
  ◌≡◌, ◌≢◌, refl, sym, ap, ◌∙◌, inl, inr, ◌⊎◌, true, Option, none, some, [], arith, ok,
  Option-cases, Bool-cases, Result-cases, if◌then◌else◌,
}
use seismic.Prelude.Text.{Text, codes, text_eq, text_eq_iff}
use seismic.Prelude.Map.{Map, lookup}
use seismic.Context.Selection.{Selection, from_str}
use seismic.Context.Config.{Network, Config}
use seismic.Context.Document.{
  Item, string, other, inline, table, Doc, get, remove, as_str, map_of, map_or_default, entries,
  network_of, config_of, optional,
}
use seismic.Context.Document.Laws.{
  get-remove, read_at, lookup-map_of, map_of-remove, IsConfig, config_of-IsConfig,
  IsConfig-config_of,
}
use seismic.Context.Document.Edits.{
  optional-as_str, put_networks-IsConfig, remove_current-IsConfig, remove_previous-IsConfig,
}
use seismic.Context.Write.{selects, forget, drop_network, remove_network}

-- What is selected is the network or one of its nodes.
abbrev pub Selects : Text → Option Text → Type 0
Selects name chosen =
    (raw : Text) × (s : Selection) × (chosen ≡ some raw)
    × (from_str raw ≡ ok s)
    × (s.network ≡ name)

-- A selection is forgotten when it selects the network, and stays otherwise.
abbrev pub IsForgotten : Text → Option Text → Option Text → Type 0
IsForgotten name before after =
    (Selects name before × (after ≡ none)) ⊎ ((¬ Selects name before) × (after ≡ before))

-- The network is gone with every selection of it, and nothing else.
pub record IsRemoved (name : Text) (c c' : Config) : Type 0 where
  pub current_forgotten : IsForgotten name c.current c'.current
  pub previous_forgotten : IsForgotten name c.previous c'.previous
  pub removed :
      (probe : Text)
      → lookup probe c'.networks ≡ (if text_eq name probe then none else lookup probe c.networks)

selects-Selects : (name : Text) (v : Option Item) → selects name v ≡ true → Selects name (as_str v)
unfolding selects
selects-Selects name v h = elim (Option-cases (as_str v)) [
  | inl nothing ↦ absurd (ground arith)
  | inr (raw, e) ↦ elim (Result-cases (from_str raw)) [
    | inl (s, parsed) ↦
        let same : text_eq s.network name ≡ true = ground arith in
        (raw, s, e, parsed, (text_eq_iff s.network name).0 same)
    | inr (why, failed) ↦ absurd (ground arith)
  ]
]

Selects-selects : (name : Text) (v : Option Item) → Selects name (as_str v) → selects name v ≡ true
unfolding selects
Selects-selects name v (raw, s, e, parsed, same) =
    rw (selects, e, parsed) ((text_eq_iff s.network name).1 same)

-- What `forget` decides on, against the configuration.
forgotten :
    (name : Text) (v : Option Item) (chosen : Option Text)
    → optional v ≡ ok chosen
    → IsForgotten name chosen (if selects name v then none else chosen)
forgotten name v chosen reads =
    let e = optional-as_str v chosen reads in
    elim (Bool-cases (selects name v)) [
      | inl chosen_so ↦ rw chosen_so (inl (rw (← e) (selects-Selects name v chosen_so), refl))
      | inr not_so ↦ rw not_so (
          inr (
            λ chosen_is.
                let chosen_so : selects name v ≡ true = Selects-selects name v (rw e chosen_is) in
                absurd (ground arith),
            refl,
          ))
    ]

forget_current-IsConfig :
    (name : Text) (d : Doc) (c : Config)
    → IsConfig d c
    → IsConfig
        (forget name (codes "current") d)
        (record c { current = if selects name (get (codes "current") d) then none else c.current })
unfolding forget
forget_current-IsConfig name d c r = elim (Bool-cases (selects name (get (codes "current") d))) [
  | inl chosen_so ↦ rw chosen_so (remove_current-IsConfig d c r)
  | inr not_so ↦ rw not_so r
]

forget_previous-IsConfig :
    (name : Text) (d : Doc) (c : Config)
    → IsConfig d c
    → IsConfig (forget name (codes "previous") d) (record c {
      previous = if selects name (get (codes "previous") d) then none else c.previous;
    })
unfolding forget
forget_previous-IsConfig name d c r = elim (Bool-cases (selects name (get (codes "previous") d))) [
  | inl chosen_so ↦ rw chosen_so (remove_previous-IsConfig d c r)
  | inr not_so ↦ rw not_so r
]

-- The networks without one.
abbrev Without : Text → Map Network → Map Network → Type 0
Without name m m' =
    (probe : Text) → lookup probe m' ≡ (if text_eq name probe then none else lookup probe m)

remove-Without :
    (name : Text) (t : Doc) (m m' : Map Network)
    → map_of network_of t ≡ ok m
    → map_of network_of (remove name t) ≡ ok m'
    → Without name m m'
remove-Without name t m m' reads reads' probe =
    let before = lookup-map_of network_of probe t m reads in
    let after : read_at network_of (if text_eq name probe then none else get probe t)
        ≡ ok (lookup probe m') =
      ap (read_at network_of) (sym (get-remove name probe t))
      ∙ lookup-map_of network_of probe (remove name t) m' reads' in
    elim (Bool-cases (text_eq name probe)) [ inl here ↦ ground arith | inr there ↦ ground arith ]

-- `networks` is no inline table.
abbrev pub HasNoInlineNetworks : Doc → Type 0
HasNoInlineNetworks d = (t : Doc) → get (codes "networks") d ≢ some (inline t)

drop_network-IsConfig :
    (name : Text) (d : Doc) (c : Config)
    → HasNoInlineNetworks d
    → IsConfig d c
    → (m : Map Network) × IsConfig (drop_network name d) (record c { networks = m })
      × Without name c.networks m
unfolding drop_network map_or_default entries lookup
drop_network-IsConfig name d c no_inline r = elim (Option-cases (get (codes "networks") d)) [
  | inl missing ↦
      let empty : c.networks ≡ [] =
        let e = ap (map_or_default network_of) (sym missing) ∙ r.reads_networks in ground arith in
      (c.networks, rw (drop_network, missing) r, rw empty (λ probe. ground arith))
  | inr (table t, found) ↦
      let reads : map_of network_of t ≡ ok c.networks =
        ap (map_or_default network_of) (sym found) ∙ r.reads_networks in
      let (m, reads') = map_of-remove network_of name t c.networks reads in
      (
        m,
        rw (drop_network, found) (put_networks-IsConfig d c r (remove name t) m reads'),
        remove-Without name t c.networks m reads reads',
      )
  | inr (inline t, found) ↦ absurd (no_inline t found)
  | inr (string s, found) ↦
      let e = ap (map_or_default network_of) (sym found) ∙ r.reads_networks in absurd (ground arith)
  | inr (other s, found) ↦
      let e = ap (map_or_default network_of) (sym found) ∙ r.reads_networks in absurd (ground arith)
]

-- Removing a network from a file that reads as a configuration, and whose `networks` is no inline table,
-- gives a file that reads as one without the network and with every other as it was, in which the current
-- selection is dropped exactly when it selected the network or a node of it, and so is the previous one.
pub remove_network-IsRemoved :
    (name : Text) (d : Doc) (c : Config)
    → HasNoInlineNetworks d
    → config_of d ≡ ok c
    → (c' : Config) × (config_of (remove_network name d) ≡ ok c') × IsRemoved name c c'
unfolding remove_network
remove_network-IsRemoved name d c no_inline reads =
    let (m, r₁, without) =
      drop_network-IsConfig name d c no_inline (config_of-IsConfig d c reads) in
    let d₁ = drop_network name d in
    let r₂ = forget_current-IsConfig name d₁ _ r₁ in
    let d₂ = forget name (codes "current") d₁ in
    let r₃ = forget_previous-IsConfig name d₂ _ r₂ in
    (
      _,
      IsConfig-config_of _ _ r₃,
      record {
        current_forgotten = forgotten name (get (codes "current") d₁) c.current r₁.reads_current;
        previous_forgotten =
            forgotten name (get (codes "previous") d₂) c.previous r₂.reads_previous;
        removed = without;
      },
    )
