-- ===== src/Removal/Tests.antt =====
-- A network whose directory is outside every work tree, under a toy spelling of two documents.
use seismic.Prelude.{
  ◌≡◌, ◌≢◌, refl, sym, ap, ◌∙◌, inl, inr, ℕ, Bool, true, false, Option, none, some, List, [], ◌∷◌,
  arith, ok, Bool-cases, All, if◌then◌else◌,
}
use seismic.Prelude.Text.{Text, codes, text_eq, text_eq_iff}
use seismic.Context.Config.{Config}
use seismic.Context.Document.{string, table, Doc, end, entry, get, config_of, from_toml}
use seismic.Context.Write.{remove_network}
use seismic.Context.Write.Laws.Removal.{HasNoInlineNetworks}
use seismic.Removal.{missing, is_dir, Disk, remove}
use seismic.Removal.Laws.{IsRemovable, remove-Removable}
use seismic.Removal.Forget.{IsDone, remove-IsDone}

abbrev disk : Disk
disk = record {
  metadata = λ path. if text_eq path (codes "/net") then is_dir else missing;
  canonicalize = λ path. some path;
  ancestors = λ path. path ∷ codes "/" ∷ [];
  has_git = λ path. false;
  check_ignore = λ path. none;
  read_dir = λ path. some (codes "inputs" ∷ codes "nodes" ∷ []);
  remove_dir_all = λ path. true;
}

abbrev networks : Doc
networks = entry (codes "alpha") (table (entry (codes "dir") (string (codes "/net")) end)) end

abbrev selected : Doc
selected =
    entry (codes "current") (string (codes "alpha")) (entry (codes "networks") (table networks) end)

-- A table without entries is not printed.
abbrev emptied : Doc
emptied = end

abbrev parse : Text → Option Doc
parse [] = some selected
parse (c ∷ s) = some emptied

abbrev render : Doc → Text
render (entry j (string s) d) = []
render d = 1 ∷ []

-- Both documents read as `k`.
both :
    (d : Doc) (k c c' : Config)
    → config_of d ≡ ok k
    → from_toml parse (render d) ≡ some k
    → config_of d ≡ ok c
    → from_toml parse (render d) ≡ some c'
    → c' ≡ c
both d k c c' is_k reads_k is_c reads_c = ground arith

abbrev nothing : Config
nothing = record { current = none; previous = none; networks = [] }

abbrev chosen : Config
chosen = record {
  current = some (codes "alpha");
  previous = none;
  networks =
      (
        codes "alpha",
        record {
          dir = some (codes "/net");
          manifest = none;
          source = none;
          network_id = none;
          nodes = [];
        },
      )
      ∷ [];
}

rereads_selected :
    (name : Text)
    → (k : Config) × (config_of (remove_network name selected) ≡ ok k)
      × (from_toml parse (render (remove_network name selected)) ≡ some k)
unfolding remove_network from_toml text_eq seismic.Prelude.Split.split_once
    seismic.Prelude.Map.insert config_of
rereads_selected name = elim (Bool-cases (text_eq (codes "alpha") name)) [
  | inl same ↦ let e = (text_eq_iff (codes "alpha") name).0 same in rw (← e) (nothing, refl, refl)
  | inr other ↦ rw other (chosen, refl, refl)
]

rereads :
    (text name : Text) (d : Doc) (c c' : Config)
    → parse text ≡ some d
    → config_of (remove_network name d) ≡ ok c
    → from_toml parse (render (remove_network name d)) ≡ some c'
    → c' ≡ c
unfolding remove_network from_toml config_of
rereads [] name d c c' h is_c reads_c =
    let same : d ≡ selected = ground arith in
    let (k, is_k, reads_k) = rereads_selected name in
    both (remove_network name selected) k c c' is_k reads_k
      (ap (λ x. config_of (remove_network name x)) (sym same) ∙ is_c)
      (ap (λ x. from_toml parse (render (remove_network name x))) (sym same) ∙ reads_c)
rereads (j ∷ s) name d c c' h is_c reads_c =
    let same : d ≡ end = ground arith in
    both end nothing c c' refl refl (ap (λ x. config_of (remove_network name x)) (sym same) ∙ is_c)
      (ap (λ x. from_toml parse (render (remove_network name x))) (sym same) ∙ reads_c)

no_inline : (d : Doc) → parse [] ≡ some d → HasNoInlineNetworks d
unfolding get
no_inline d h t inlined = let same : selected ≡ d = ground arith in absurd (ground arith)

removes : (remove disk parse render none (some []) (codes "alpha") false).result ≡ ok false
unfolding remove text_eq seismic.Prelude.Map.insert seismic.Prelude.Map.lookup
    seismic.Prelude.Split.split_once
removes = refl

deletes :
    (remove disk parse render none (some []) (codes "alpha") false).deleted ≡ codes "/net" ∷ []
unfolding remove text_eq seismic.Prelude.Map.insert seismic.Prelude.Map.lookup
    seismic.Prelude.Split.split_once
deletes = refl

remove-Removable_example :
    All
      (IsRemovable disk parse none (some []) (codes "alpha") false)
      ((remove disk parse render none (some []) (codes "alpha") false).deleted)
remove-Removable_example = remove-Removable disk parse render none (some []) (codes "alpha") false

remove-IsDone_example :
    IsDone disk parse none []
      (codes "alpha")
      ((remove disk parse render none (some []) (codes "alpha") false).file)
      false
remove-IsDone_example =
    remove-IsDone disk parse render rereads none [] (codes "alpha") false false no_inline removes
