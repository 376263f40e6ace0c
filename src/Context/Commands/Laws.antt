-- ===== src/Context/Commands/Laws.antt =====
-- Which selections `ctx use` stores, and what the file reads as when it has.
use seismic.Prelude.{
  ◌≡◌, refl, sym, ap, ◌∙◌, inl, inr, ◌⊎◌, Option, none, some, List, arith, Result, ok, err, ◌>>=◌,
  >>=-eq-ok, some_or, some_or-eq-ok, map_err, map_err-eq-ok, Option-cases, Result-cases,
}
use seismic.Prelude.Text.{Text, codes, text_eq}
use seismic.Prelude.Map.{lookup}
use seismic.Descriptors.{NodeDescriptor}
use seismic.Context.Selection.{Selection, from_str, display}
use seismic.Context.Selection.Laws.{IsWellFormed, from_str_iff}
use seismic.Context.Config.{Network, Config, validate_all}
use seismic.Context.Select.{Selected, load, select, node, or_else}
use seismic.Context.Select.Laws.{select_iff, node_iff}
use seismic.Context.Document.{Doc, config_of, from_toml}
use seismic.Context.Write.{set_current, edit}
use seismic.Context.Write.Laws.Edit.{from_toml-eq-some, load-eq-ok, load_of, edit-IsEdit}
use seismic.Context.Write.Laws.{switched, set_current-switched}
use seismic.Context.Commands.{
  CommandError, no_target, no_previous, malformed, previous_target, resolve_target, check_node,
  use_target, commit, load_file, run_use, context, write, Suggestion,
}

-- What may be stored: a well-formed selection of a network of the file, and of a node of it when it
-- names one, which prints as the target.
pub record IsStorable (c : Config) (target s : Selection) : Type 0 where
  pub spelled : display target ≡ display s
  pub well_formed : IsWellFormed s
  pub network : Network
  pub registered : lookup s.network c.networks ≡ some network
  pub node_found :
      (s.node ≡ none)
      ⊎ ((name : Text) × (d : NodeDescriptor) × (s.node ≡ some name)
          × (lookup name network.nodes ≡ some d))

check_node-found :
    (s : Selected)
    → check_node s ≡ ok tt
    → (s.selection.node ≡ none)
      ⊎ ((name : Text) × (d : NodeDescriptor) × (s.selection.node ≡ some name)
          × (lookup name s.network.nodes ≡ some d))
unfolding check_node
check_node-found s h = elim (Option-cases s.selection.node) [
  | inl nothing ↦ inl nothing
  | inr (name, named) ↦ elim (Result-cases (node s none)) [
    | inl ((n, d), found) ↦ elim ((node_iff s none n d).0 found) [
      | inl (spelled, listed) ↦ inr (n, d, spelled, listed)
      | inr (unnamed, only) ↦ inl unnamed
    ]
    | inr (e, fails) ↦ absurd (ground arith)
  ]
]

use_target-IsStorable :
    (c : Config) (requested : Option Text) (s : Selection)
    → use_target c requested ≡ ok s
    → (raw : Text) × (target : Selection) × (requested ≡ some raw)
      × (resolve_target raw c ≡ ok target)
      × IsStorable c target s
unfolding use_target
use_target-IsStorable c requested s h =
    let (raw, e₁, h₁) = >>=-eq-ok (some_or requested no_target) _ h in
    let (target, e₂, h₂) = >>=-eq-ok (resolve_target raw c) _ h₁ in
    let (sel, e₃, h₃) = >>=-eq-ok (map_err context (select c (some (display target)))) _ h₂ in
    let (u, e₄, h₄) = >>=-eq-ok (check_node sel) _ h₃ in
    let same : sel.selection ≡ s = ground arith in
    let (shown, formed, found) =
      (select_iff c (some (display target)) sel).0 (map_err-eq-ok context _ e₃) in
    (
      raw,
      target,
      some_or-eq-ok requested no_target e₁,
      e₂,
      rw (← same) (record {
        spelled = ground arith;
        well_formed = formed;
        network = sel.network;
        registered = found;
        node_found = check_node-found sel e₄;
      }),
    )

-- The target of `ctx use -`.
resolve_dash :
    (c : Config) (old : Text) (target : Selection)
    → c.previous ≡ some old
    → resolve_target (codes "-") c ≡ ok target
    → from_str old ≡ ok target
unfolding resolve_target previous_target text_eq
resolve_dash c old target chosen h =
    map_err-eq-ok malformed (from_str old)
      (ap (λ o. some_or o no_previous >>= λ raw. map_err malformed (from_str raw)) (sym chosen) ∙ h)

pub commit-eq-ok :
    (file : Option Text) (r : Result CommandError Text) (after : Option Text)
    (next : List Suggestion)
    → commit file r ≡ (after, ok next)
    → (text : Text) × (r ≡ ok text) × (after ≡ some text)
commit-eq-ok file (ok text) after next h = (text, refl, ground arith)
commit-eq-ok file (err e) after next h = absurd (ground arith)

-- A switch of the selection: the target resolves to a storable selection, and the file that is left loads
-- as the configuration with that selection switched to.
pub record IsSwitch (parse : Text → Option Doc) (file : Text) (raw : Text) (c : Config)
    (after : Option Text) : Type 0 where
  pub text : Text
  pub target : Selection
  pub stored : Selection
  pub resolved : resolve_target raw c ≡ ok target
  pub storable : IsStorable c target stored
  pub left : after ≡ some text
  pub loads : load (from_toml parse) (some text) ≡ ok (switched stored c)

module _ (parse : Text → Option Doc) (render : Doc → Text)
    (rereads : (text : Text) (d : Doc) (s : Selection) (c c' : Config)
      → parse text ≡ some d
      → config_of (set_current s d) ≡ ok c
      → from_toml parse (render (set_current s d)) ≡ some c'
      → c' ≡ c) where
  written-switched :
      (file text : Text) (c : Config) (s : Selection)
      → from_toml parse file ≡ some c
      → edit parse render (some file) (λ d. ok (set_current s d)) ≡ ok text
      → load (from_toml parse) (some text) ≡ ok (switched s c)
  written-switched file text c s reads h =
      let e = edit-IsEdit parse render (some file) (λ d. ok (set_current s d)) text h in
      let (d, parsed, is_c) = from_toml-eq-some parse file c reads in
      let same : e.before ≡ d =
        (let p : some e.before ≡ some d = sym e.parsed ∙ parsed in ground arith) in
      let made : set_current s d ≡ e.after =
        (let p : ok (set_current s e.before) ≡ ok e.after = e.edited in
          ap (set_current s) (sym same)
          ∙ (let q : set_current s e.before ≡ e.after = ground arith in q)) in
      let printed : render (set_current s d) ≡ text = ap render made ∙ e.rendered in
      let agrees : e.config ≡ switched s c =
        rereads file d s (switched s c) e.config parsed (set_current-switched s d c is_c)
          (ap (from_toml parse) printed ∙ e.reread) in
      let reread : from_toml parse text ≡ some (switched s c) = e.reread ∙ ap some agrees in
      load_of parse text (switched s c) reread
        (ap (λ x. validate_all x.networks) (sym agrees) ∙ e.valid)

  -- When an edited document that the crates print reads back as no other configuration than its own, a
  -- `ctx use` that succeeds on a file that loads was given a target that resolves to a storable selection, and leaves a file that loads as the configuration with
  -- that selection switched to.
  pub run_use-IsSwitch :
      (file : Text) (requested after : Option Text) (c : Config) (next : List Suggestion)
      → load (from_toml parse) (some file) ≡ ok c
      → run_use parse render (some file) requested ≡ (after, ok next)
      → (raw : Text) × (requested ≡ some raw) × IsSwitch parse file raw c after
  unfolding run_use
  run_use-IsSwitch file requested after c next loads h =
      let (text, h₁, left) = commit-eq-ok (some file) _ after next h in
      let (c', e₁, h₂) = >>=-eq-ok (load_file parse render (some file)) _ h₁ in
      let same : c' ≡ c =
        (let p : ok c' ≡ ok c = sym (map_err-eq-ok context _ e₁) ∙ loads in ground arith) in
      let (s, e₂, h₃) = >>=-eq-ok (use_target c' requested) _ h₂ in
      let (raw, target, asked, resolved, storable) =
        use_target-IsStorable c requested s (ap (λ x. use_target x requested) (sym same) ∙ e₂) in
      (
        raw,
        asked,
        record {
          text = text;
          target = target;
          stored = s;
          resolved = resolved;
          storable = storable;
          left = left;
          loads =
              written-switched file text c s (load-eq-ok parse file c loads)
                (map_err-eq-ok write _ h₃);
        },
      )

  -- When an edited document that the crates print reads back as no other configuration than its own:
  -- `ctx use` followed by `ctx use -`, both succeeding, on a
  -- file that loads and has a current selection, leaves a file that loads as the same configuration with
  -- that selection current again, and as previous the one that the first command stored.
  pub run_use_back :
      (file : Text) (requested after after' : Option Text) (c : Config) (old : Text)
      (next next' : List Suggestion)
      → load (from_toml parse) (some file) ≡ ok c
      → c.current ≡ some old
      → run_use parse render (some file) requested ≡ (after, ok next)
      → run_use parse render after (some (codes "-")) ≡ (after', ok next')
      → (text : Text) × (stored : Selection) × (after' ≡ some text)
        × (load (from_toml parse) after ≡ ok (switched stored c))
        × (load (from_toml parse) (some text)
            ≡ ok (record {
              current = some old;
              previous = some (display stored);
              networks = c.networks;
            }))
  run_use_back file requested after after' c old next next' loads chosen h h' =
      let (raw, asked, first) = run_use-IsSwitch file requested after c next loads h in
      let (raw', asked', second) =
        run_use-IsSwitch first.text (some (codes "-")) after' (switched first.stored c) next'
          first.loads (ap (λ x. run_use parse render x (some (codes "-"))) (sym first.left) ∙ h') in
      let dash : raw' ≡ codes "-" = ground arith in
      let target : resolve_target (codes "-") (switched first.stored c) ≡ ok second.target =
        ap (λ x. resolve_target x (switched first.stored c)) (sym dash) ∙ second.resolved in
      let parsed : from_str old ≡ ok second.target =
        resolve_dash (switched first.stored c) old second.target
          (ap (λ o. or_else o c.previous) chosen) target in
      let shown : display second.stored ≡ old =
        sym second.storable.spelled ∙ ((from_str_iff old second.target).0 parsed).1 in
      (
        second.text,
        first.stored,
        second.left,
        ap (load (from_toml parse)) first.left ∙ first.loads,
        second.loads
            ∙ ap
                (λ x. ok (record {
                  current = some x;
                  previous = some (display first.stored);
                  networks = c.networks;
                }))
                shown,
      )
