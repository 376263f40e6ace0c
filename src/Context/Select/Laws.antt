-- ===== src/Context/Select/Laws.antt =====
-- What a resolved selection is.
use seismic.Prelude.{
  ◌≡◌, refl, ◌⊎◌, ◌↔◌, false, Option, none, some, [], ◌∷◌, arith, ok, >>=-eq-ok, map_err, some_or,
  map_err-eq-ok, some_or-eq-ok,
}
use seismic.Prelude.Text.{Text}
use seismic.Prelude.Map.{lookup, keys}
use seismic.Descriptors.{NodeDescriptor, Descriptors, select_descriptor}
use seismic.Descriptors.Laws.{select_descriptor_iff}
use seismic.Context.Selection.{display, from_str}
use seismic.Context.Selection.Laws.{IsWellFormed, from_str_iff}
use seismic.Context.Config.{Config, is_empty_map}
use seismic.Context.Select.{
  ContextError, no_network, descriptor, Selected, requested_or_current, select, nodes, node,
  or_else,
}

select-parts :
    (config : Config) (requested : Option Text) (s : Selected)
    → select config requested ≡ ok s
    → (requested_or_current requested config.current ≡ ok (display s.selection))
      × IsWellFormed s.selection
      × (lookup s.selection.network config.networks ≡ some s.network)
unfolding select
select-parts config requested s h =
    let (raw, e, h₁) = >>=-eq-ok (requested_or_current requested config.current) _ h in
    let (sel, e', h₂) = >>=-eq-ok (map_err ContextError.selection (from_str raw)) _ h₁ in
    let parsed : from_str raw ≡ ok sel = map_err-eq-ok ContextError.selection (from_str raw) e' in
    let (n, found, h₃) =
      >>=-eq-ok
        (some_or (lookup sel.network config.networks)
          (no_network sel.network (keys config.networks)))
        _ h₂ in
    let same : s ≡ record { selection = sel; network = n } = ground arith in
    let (formed, shown) = (from_str_iff raw sel).0 parsed in
    rw same (rw shown e, formed, some_or-eq-ok (lookup sel.network config.networks) _ found)

select_of_parts :
    (config : Config) (requested : Option Text) (s : Selected)
    → requested_or_current requested config.current ≡ ok (display s.selection)
    → IsWellFormed s.selection
    → lookup s.selection.network config.networks ≡ some s.network
    → select config requested ≡ ok s
unfolding select
select_of_parts config requested s e formed found =
    rw (e, (from_str_iff (display s.selection) s.selection).1 (formed, refl), found) refl

-- A selection resolves exactly when what is requested, or else the file's current selection, is a
-- well-formed selection's text and the file has its network; the result is that selection with that
-- network.
pub select_iff :
    (config : Config) (requested : Option Text) (s : Selected)
    → (select config requested ≡ ok s) ↔ (
        (requested_or_current requested config.current ≡ ok (display s.selection))
        × IsWellFormed s.selection
        × (lookup s.selection.network config.networks ≡ some s.network))
select_iff config requested s =
    (select-parts config requested s, λ h. select_of_parts config requested s h.0 h.1 h.2)

nodes-eq-ok :
    (s : Selected) (m : Descriptors)
    → nodes s ≡ ok m
    → (m ≡ s.network.nodes) × (is_empty_map m ≡ false)
unfolding nodes
nodes-eq-ok s m h = ground arith

nodes_of_some : (s : Selected) → is_empty_map s.network.nodes ≡ false → nodes s ≡ ok s.network.nodes
unfolding nodes
nodes_of_some s h = rw h refl

is_empty_map-eq-false :
    (m : Descriptors) (name : Option Text) (n : Text) (d : NodeDescriptor)
    → select_descriptor m name ≡ ok (n, d)
    → is_empty_map m ≡ false
unfolding select_descriptor lookup
is_empty_map-eq-false [] none n d h = absurd (ground arith)
is_empty_map-eq-false [] (some k) n d h = absurd (ground arith)
is_empty_map-eq-false (e ∷ m) name n d h = refl

node-eq-ok :
    (s : Selected) (name : Option Text) (n : Text) (d : NodeDescriptor)
    → node s name ≡ ok (n, d)
    → select_descriptor s.network.nodes (or_else name s.selection.node) ≡ ok (n, d)
unfolding node
node-eq-ok s name n d h =
    let (m, e, h') = >>=-eq-ok (nodes s) _ h in
    let (same, _) = nodes-eq-ok s m e in
    rw (← same) (map_err-eq-ok descriptor (select_descriptor m (or_else name s.selection.node)) h')

node_of_select :
    (s : Selected) (name : Option Text) (n : Text) (d : NodeDescriptor)
    → select_descriptor s.network.nodes (or_else name s.selection.node) ≡ ok (n, d)
    → node s name ≡ ok (n, d)
unfolding node
node_of_select s name n d h =
    rw (nodes_of_some s (is_empty_map-eq-false s.network.nodes _ n d h), h) refl

-- A selected network gives a node exactly in two cases: the node that is named, by the argument or
-- else by the selection, is in its table; or none is named and the table has one node.
pub node_iff :
    (s : Selected) (name : Option Text) (n : Text) (d : NodeDescriptor)
    → (node s name ≡ ok (n, d)) ↔ (
        ((or_else name s.selection.node ≡ some n) × (lookup n s.network.nodes ≡ some d))
        ⊎ ((or_else name s.selection.node ≡ none) × (s.network.nodes ≡ (n, d) ∷ [])))
node_iff s name n d =
    let (to, from) = select_descriptor_iff s.network.nodes (or_else name s.selection.node) n d in
    (λ h. to (node-eq-ok s name n d h), λ h. node_of_select s name n d (from h))
