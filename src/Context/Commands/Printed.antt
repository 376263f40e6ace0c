-- ===== src/Context/Commands/Printed.antt =====
-- A context file of two networks, under a toy spelling of documents that keeps the two selections and
-- prints them before the networks, wherever an edit has put them.
use seismic.Prelude.{
  ◌≡◌, ◌≢◌, refl, sym, ap, ◌∙◌, ℕ, zero, suc, Bool, Option, none, some, List, [], ◌∷◌, ◌++◌, arith,
  Result, ok, err, false, All,
}
use seismic.Prelude.Text.{Text, codes, text_eq}
use seismic.Prelude.Map.{Map, lookup, IsSorted}
use seismic.Descriptors.{NodeDescriptor}
use seismic.Context.Selection.{Selection, display}
use seismic.Context.Config.{Network, Config}
use seismic.Context.Select.{or_else}
use seismic.Context.Document.{
  string, inline, table, Doc, end, entry, get, put, as_str, config_of, from_toml,
}
use seismic.Context.Write.{set_current}
use seismic.Context.Write.Laws.Edit.{from_toml_of}

abbrev pub beta : Doc
beta =
    entry (codes "public_ip") (string (codes "1.1.1.1"))
      (entry (codes "fqdn") (string (codes "b.org")) end)

abbrev pub alpha : Doc
alpha =
    entry (codes "dir") (string (codes "/net"))
      (entry (codes "nodes") (table (entry (codes "b") (inline beta) end)) end)

abbrev pub mainnet : Doc
mainnet = entry (codes "manifest") (string (codes "/m.json")) end

abbrev pub networks : Doc
networks = entry (codes "alpha") (table alpha) (entry (codes "mainnet") (table mainnet) end)

abbrev pub document : Text → Text → Doc
document current previous =
    entry (codes "current") (string current)
      (entry (codes "previous") (string previous) (entry (codes "networks") (table networks) end))

-- A document as TOML prints it: the two selections that are set, then the networks.
abbrev with_previous : Option Text → Doc
with_previous none = entry (codes "networks") (table networks) end
with_previous (some previous) =
    entry (codes "previous") (string previous) (entry (codes "networks") (table networks) end)

abbrev printed : Option Text → Option Text → Doc
printed none previous = with_previous previous
printed (some current) previous = entry (codes "current") (string current) (with_previous previous)

-- The spelling: whether there is a current selection, its bytes, each marked, and then the previous one.
abbrev spell_tail : Option Text → Text
spell_tail none = []
spell_tail (some previous) = 1 ∷ previous

abbrev marked : Text → Text → Text
marked [] rest = 0 ∷ rest
marked (c ∷ s) rest = 1 ∷ c ∷ marked s rest

abbrev pub spell : Option Text → Option Text → Text
spell none previous = 0 ∷ spell_tail previous
spell (some current) previous = 1 ∷ marked current (spell_tail previous)

abbrev unspell_tail : Text → Option Text
unspell_tail [] = none
unspell_tail (mark ∷ previous) = some previous

abbrev unmarked : Text → Text × Text
unmarked [] = ([], [])
unmarked (zero ∷ rest) = ([], rest)
unmarked (suc m ∷ []) = ([], [])
unmarked (suc m ∷ c ∷ s) = let (t, rest) = unmarked s in (c ∷ t, rest)

abbrev unspell : Text → Option Text × Option Text
unspell [] = (none, none)
unspell (zero ∷ rest) = (none, unspell_tail rest)
unspell (suc m ∷ rest) = let (current, more) = unmarked rest in (some current, unspell_tail more)

unmarked-marked : (s rest : Text) → unmarked (marked s rest) ≡ (s, rest)
unmarked-marked [] rest = refl
unmarked-marked (c ∷ s) rest = ap (λ p. (c ∷ p.0, p.1)) (unmarked-marked s rest)

unspell_tail-spell_tail : (previous : Option Text) → unspell_tail (spell_tail previous) ≡ previous
unspell_tail-spell_tail none = refl
unspell_tail-spell_tail (some previous) = refl

unspell-spell :
    (current previous : Option Text) → unspell (spell current previous) ≡ (current, previous)
unspell-spell none previous = ap (λ p. (none, p)) (unspell_tail-spell_tail previous)
unspell-spell (some current) previous =
    ap (λ p. (some (p.0), unspell_tail p.1)) (unmarked-marked current (spell_tail previous))
    ∙ ap (λ p. (some current, p)) (unspell_tail-spell_tail previous)

abbrev pub parse : Text → Option Doc
parse text = some (printed ((unspell text).0) ((unspell text).1))

abbrev pub render : Doc → Text
render d = spell (as_str (get (codes "current") d)) (as_str (get (codes "previous") d))

abbrev pub node_b : NodeDescriptor
node_b = record { public_ip = codes "1.1.1.1"; fqdn = codes "b.org" }

abbrev pub net : Network
net = record {
  dir = some (codes "/net");
  manifest = none;
  source = none;
  network_id = none;
  nodes = (codes "b", node_b) ∷ [];
}

abbrev pub loose : Network
loose = record {
  dir = none;
  manifest = some (codes "/m.json");
  source = none;
  network_id = none;
  nodes = [];
}

abbrev pub both_networks : Map Network
both_networks = (codes "alpha", net) ∷ (codes "mainnet", loose) ∷ []

-- What a printed document reads as.
printed_reads :
    (current previous : Option Text)
    → config_of (printed current previous)
      ≡ ok (record { current = current; previous = previous; networks = both_networks })
unfolding config_of text_eq seismic.Prelude.Map.insert seismic.Prelude.Text.text_lt
printed_reads none none = refl
printed_reads none (some previous) = refl
printed_reads (some current) none = refl
printed_reads (some current) (some previous) = refl

spelled_reads :
    (current previous : Option Text)
    → from_toml parse (spell current previous)
      ≡ some (record { current = current; previous = previous; networks = both_networks })
spelled_reads current previous =
    from_toml_of parse (spell current previous) (printed current previous)
      (record { current = current; previous = previous; networks = both_networks })
      (ap (λ p. some (printed p.0 p.1)) (unspell-spell current previous))
      (printed_reads current previous)

-- The edited document, whose new entries are last, reads as the printed one.
edited_reads :
    (current previous : Option Text) (s : Selection)
    → (config_of (set_current s (printed current previous))
        ≡ ok (record {
          current = some (display s);
          previous = or_else current previous;
          networks = both_networks;
        }))
      × (render (set_current s (printed current previous))
          ≡ spell (some (display s)) (or_else current previous))
unfolding set_current get put config_of text_eq seismic.Prelude.Map.insert
    seismic.Prelude.Text.text_lt
edited_reads none none s = (refl, refl)
edited_reads none (some previous) s = (refl, refl)
edited_reads (some current) none s = (refl, refl)
edited_reads (some current) (some previous) s = (refl, refl)

-- Both documents read as `k`.
both :
    (d : Doc) (k c c' : Config)
    → config_of d ≡ ok k
    → from_toml parse (render d) ≡ some k
    → config_of d ≡ ok c
    → from_toml parse (render d) ≡ some c'
    → c' ≡ c
both d k c c' is_k reads_k is_c reads_c = ground arith

pub rereads :
    (text : Text) (d : Doc) (s : Selection) (c c' : Config)
    → parse text ≡ some d
    → config_of (set_current s d) ≡ ok c
    → from_toml parse (render (set_current s d)) ≡ some c'
    → c' ≡ c
rereads text d s c c' h is_c reads_c =
    let current = (unspell text).0 in
    let previous = (unspell text).1 in
    let same : d ≡ printed current previous = ground arith in
    let (edited, rendered) = edited_reads current previous s in
    let k : Config = record {
      current = some (display s);
      previous = or_else current previous;
      networks = both_networks;
    } in
    both (set_current s (printed current previous)) k c c' edited
      (ap (from_toml parse) rendered ∙ spelled_reads (some (display s)) (or_else current previous))
      (ap (λ x. config_of (set_current s x)) (sym same) ∙ is_c)
      (ap (λ x. from_toml parse (render (set_current s x))) (sym same) ∙ reads_c)
