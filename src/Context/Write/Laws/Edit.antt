-- ===== src/Context/Write/Laws/Edit.antt =====
-- What is written loads: `edit` checks it before it writes.
use seismic.Prelude.{
  ◌≡◌, refl, sym, ap, ◌∙◌, inl, inr, Option, some, [], arith, Result, ok, >>=-eq-ok, some_or,
  some_or-eq-ok, map_err, map_err-eq-ok, Option-cases, Result-cases, get_or_else,
}
use seismic.Prelude.Text.{Text}
use seismic.Context.Config.{Config, validate_all}
use seismic.Context.Select.{invalid_file, invalid_network, load}
use seismic.Context.Document.{Doc, config_of, from_toml}
use seismic.Context.Write.{WriteError, not_toml, unreadable_write, invalid_write, edit}

module _ (parse : Text → Option Doc) where
  pub from_toml-eq-some :
      (text : Text) (c : Config)
      → from_toml parse text ≡ some c
      → (d : Doc) × (parse text ≡ some d) × (config_of d ≡ ok c)
  unfolding from_toml
  from_toml-eq-some text c h = elim (Option-cases (parse text)) [
    | inl unparsed ↦ absurd (ground arith)
    | inr (d, parsed) ↦ elim (Result-cases (config_of d)) [
      | inl (c', reads) ↦ (d, parsed, reads ∙ (let same : c' ≡ c = ground arith in ap ok same))
      | inr (e, fails) ↦ absurd (ground arith)
    ]
  ]

  pub from_toml_of :
      (text : Text) (d : Doc) (c : Config)
      → parse text ≡ some d
      → config_of d ≡ ok c
      → from_toml parse text ≡ some c
  unfolding from_toml
  from_toml_of text d c parsed reads = rw (from_toml, parsed, reads) refl

  pub load-eq-ok :
      (text : Text) (c : Config)
      → load (from_toml parse) (some text) ≡ ok c
      → from_toml parse text ≡ some c
  unfolding load
  load-eq-ok text c h =
      let (c', e₁, h₁) = >>=-eq-ok (some_or (from_toml parse text) invalid_file) _ h in
      let (u, e₂, h₂) =
        >>=-eq-ok (map_err (λ e. invalid_network e.0 e.1) (validate_all c'.networks)) _ h₁ in
      let same : c' ≡ c = ground arith in
      some_or-eq-ok (from_toml parse text) invalid_file e₁ ∙ ap some same

  pub load_of :
      (text : Text) (c : Config)
      → from_toml parse text ≡ some c
      → validate_all c.networks ≡ ok tt
      → load (from_toml parse) (some text) ≡ ok c
  unfolding load
  load_of text c reads valid = rw (reads, valid) refl

  module _ (render : Doc → Text) where
    -- An edit that succeeds: the document it reads, the one it makes and its text, and what that
    -- text reads back as.
    pub record IsEdit (file : Option Text) (f : Doc → Result WriteError Doc) (text : Text)
        : Type 0 where
      pub before : Doc
      pub after : Doc
      pub config : Config
      pub parsed : parse (get_or_else file []) ≡ some before
      pub edited : f before ≡ ok after
      pub rendered : render after ≡ text
      pub reread : from_toml parse text ≡ some config
      pub valid : validate_all config.networks ≡ ok tt

    pub edit-IsEdit :
        (file : Option Text) (f : Doc → Result WriteError Doc) (text : Text)
        → edit parse render file f ≡ ok text
        → IsEdit file f text
    unfolding edit
    edit-IsEdit file f text h =
        let (d, e₁, h₁) = >>=-eq-ok (some_or (parse (get_or_else file [])) not_toml) _ h in
        let (d', e₂, h₂) = >>=-eq-ok (f d) _ h₁ in
        let (c, e₃, h₃) = >>=-eq-ok (some_or (from_toml parse (render d')) unreadable_write) _ h₂ in
        let (u, e₄, h₄) =
          >>=-eq-ok (map_err (λ e. invalid_write e.0 e.1) (validate_all c.networks)) _ h₃ in
        let same : render d' ≡ text = ground arith in
        record {
          before = d;
          after = d';
          config = c;
          parsed = some_or-eq-ok (parse (get_or_else file [])) not_toml e₁;
          edited = e₂;
          rendered = same;
          reread =
              ap (from_toml parse) (sym same)
              ∙ some_or-eq-ok (from_toml parse (render d')) unreadable_write e₃;
          valid = map_err-eq-ok (λ e. invalid_write e.0 e.1) (validate_all c.networks) e₄;
        }

    -- What an edit writes loads.
    pub edit-load :
        (file : Option Text) (f : Doc → Result WriteError Doc) (text : Text)
        → edit parse render file f ≡ ok text
        → (c : Config) × (load (from_toml parse) (some text) ≡ ok c)
    edit-load file f text h =
        let e = edit-IsEdit file f text h in (e.config, load_of text e.config e.reread e.valid)
