-- ===== src/Context/Commands/Suggest.antt =====
-- The next step that registering a network, or importing its nodes, suggests.
use seismic.Prelude.{
  ◌≡◌, ◌≢◌, refl, sym, ap, ◌∙◌, inl, inr, ◌⊎◌, Bool, true, false, Option, none, some, [], ◌∷◌, ◌++◌,
  arith, ok, map_err, Option-cases, Bool-cases, All,
}
use seismic.Prelude.Text.{Text, codes, text_eq, text_eq_iff, text_eq_refl}
use seismic.Prelude.Split.{contains, contains-append}
use seismic.Prelude.Map.{Map, lookup}
use seismic.Descriptors.{NodeDescriptor, Descriptors}
use seismic.Context.Selection.{Selection, from_str, display}
use seismic.Context.Selection.Laws.{IsName, IsWellFormed, from_str_iff}
use seismic.Context.Config.{Network, Config}
use seismic.Context.Select.{node}
use seismic.Context.Select.Laws.{select_iff, node_iff}
use seismic.Context.Commands.{
  malformed, only_network, resolve_target, check_node, use_target, Suggestion, use_selection,
  harvest, current_in, first_name, names_node, founding_unharvested, next_of,
  next_after_registration,
}

-- A text with a slash, and a name that is registered, are targets as they stand.
plain_target :
    (raw : Text) (c : Config)
    → raw ≢ codes "-"
    → (contains b'/' raw ≡ true) ⊎ (only_network raw c.networks ≡ none)
    → resolve_target raw c ≡ map_err malformed (from_str raw)
unfolding resolve_target
plain_target raw c other plain =
    let no_dash : text_eq raw (codes "-") ≡ false =
      ground (arith, text_eq_iff raw (codes "-"), other) in
    elim plain [
      | inl slashed ↦ rw (resolve_target, no_dash, slashed) refl
      | inr unique ↦ elim (Bool-cases (contains b'/' raw)) [
        | inl slashed ↦ rw (resolve_target, no_dash, slashed) refl
        | inr bare ↦ rw (resolve_target, no_dash, bare, unique) refl
      ]
    ]

registered-plain :
    (name : Text) (m : Map Network) (n : Network)
    → lookup name m ≡ some n
    → only_network name m ≡ none
unfolding lookup only_network
registered-plain name [] n found = refl
registered-plain name ((k, v) ∷ []) n found = ground arith
registered-plain name ((k, v) ∷ e ∷ m) n found = refl

contains-slash : (a b : Text) → contains b'/' (a ++ b'/' ∷ b) ≡ true
unfolding contains
contains-slash a b = ground (arith, contains-append b'/' a (b'/' ∷ b))

slashed-other : (a b : Text) → a ++ b'/' ∷ b ≢ codes "-"
unfolding contains
slashed-other a b same =
    let h : contains b'/' (codes "-") ≡ true = ap (contains b'/') (sym same) ∙ contains-slash a b in
    absurd (ground arith)

-- A selection of what the file holds is stored as it is spelled.
use_target_of :
    (c : Config) (s : Selection) (n : Network)
    → display s ≢ codes "-"
    → (contains b'/' (display s) ≡ true) ⊎ (only_network (display s) c.networks ≡ none)
    → IsWellFormed s
    → lookup s.network c.networks ≡ some n
    → check_node (record { selection = s; network = n }) ≡ ok tt
    → use_target c (some (display s)) ≡ ok s
unfolding use_target
use_target_of c s n other plain formed found checked =
    let parsed = (from_str_iff (display s) s).1 (formed, refl) in
    let target : resolve_target (display s) c ≡ ok s =
      plain_target (display s) c other plain ∙ ap (map_err malformed) parsed in
    let chosen =
      (select_iff c (some (display s)) (record { selection = s; network = n })).1
        (refl, formed, found) in
    rw (use_target, target, chosen, checked) refl

-- The suggestion of a selection is one that `ctx use` stores.
abbrev pub IsFollowable : Config → Text → Suggestion → Type 0
IsFollowable c name harvest = Unit {0}
IsFollowable c name (use_selection raw) =
    (s : Selection) × (use_target c (some raw) ≡ ok s) × (s.network ≡ name)

network-IsFollowable :
    (c : Config) (name : Text) (n : Network)
    → IsName name
    → name ≢ codes "-"
    → lookup name c.networks ≡ some n
    → IsFollowable c name (use_selection name)
unfolding check_node display
network-IsFollowable c name n named other found = (
  record { network = name; node = none },
  use_target_of c (record { network = name; node = none }) n other
      (inr (registered-plain name c.networks n found)) (named, tt) found refl,
  refl,
)

node-IsFollowable :
    (c : Config) (name first : Text) (n : Network) (d : NodeDescriptor)
    → IsName name
    → IsName first
    → lookup name c.networks ≡ some n
    → lookup first n.nodes ≡ some d
    → IsFollowable c name (use_selection (name ++ b'/' ∷ first))
unfolding check_node display
node-IsFollowable c name first n d named first_named found listed =
    let s : Selection = record { network = name; node = some first } in
    let picked : node (record { selection = s; network = n }) none ≡ ok (first, d) =
      (node_iff (record { selection = s; network = n }) none first d).1 (inl (refl, listed)) in
    (
      s,
      use_target_of c s n (slashed-other name first) (inl (contains-slash name first))
          (named, first_named) found (rw (check_node, picked) refl),
      refl,
    )

-- The names of the first node are its key.
first_name-lookup :
    (m : Descriptors) (first : Text)
    → first_name m ≡ some first
    → (d : NodeDescriptor) × (lookup first m ≡ some d)
unfolding first_name lookup
first_name-lookup [] first h = absurd (ground arith)
first_name-lookup ((k, d) ∷ m) first h =
    let same : k ≡ first = ground arith in (d, rw (← same) (rw (text_eq_refl k) refl))

next_of-All :
    (P : Suggestion → Type 0) (name : Text) (founding : Bool) (first : Option Text)
    (chosen : Option Selection)
    → P harvest
    → P (use_selection name)
    → ((node : Text) → first ≡ some node → P (use_selection (name ++ b'/' ∷ node)))
    → All P (next_of name founding first chosen)
unfolding next_of
next_of-All P name true first none h u f = (u, (h, tt))
next_of-All P name true first (some s) h u f = (h, tt)
next_of-All P name false (some node) chosen h u f = elim (Bool-cases (names_node chosen)) [
  | inl names ↦ rw (next_of, names) tt
  | inr bare ↦ rw (next_of, bare) (f node refl, tt)
]
next_of-All P name false none none h u f = (u, tt)
next_of-All P name false none (some s) h u f = tt

-- After a network is registered, or its nodes are imported, each selection that is suggested can be
-- followed: `ctx use` resolves it to a selection of that network. The names must be such that a selection
-- can spell them, the network's not `-`.
pub next_after_registration-IsFollowable :
    (exists : Text → Bool) (c : Config) (name : Text)
    → IsName name
    → name ≢ codes "-"
    → ((n : Network) (first : Text)
        → lookup name c.networks ≡ some n
        → first_name n.nodes ≡ some first
        → IsName first)
    → All (IsFollowable c name) (next_after_registration exists c name)
unfolding next_after_registration
next_after_registration-IsFollowable exists c name named other nodes_named =
    elim (Option-cases (lookup name c.networks)) [
      | inl missing ↦ rw (next_after_registration, missing) tt
      | inr (n, found) ↦
          rw (next_after_registration, found)
            (next_of-All (IsFollowable c name) name (founding_unharvested exists n)
              (first_name n.nodes) (current_in name c.current) tt
              (network-IsFollowable c name n named other found)
              (λ first h.
                let (d, listed) = first_name-lookup n.nodes first h in
                node-IsFollowable c name first n d named (nodes_named n first found h) found
                  listed))
    ]
