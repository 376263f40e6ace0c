-- ===== src/Founding/Files.antt =====
-- Which files of the directory the harvest records are: `load_harvest_records` of
-- tee/cli/network/src/founding.rs.
use seismic.Prelude.{
  ◌≡◌, ◌≢◌, refl, sym, ap, ◌∙◌, inl, inr, true, false, Option, none, some, [], ◌∷◌, ◌++◌, arith, ok,
  not, ◌&&◌, >>=-eq-ok, some_or, some_or-eq-ok, bail_if, Bool-cases, Option-cases, is_empty,
  if◌then◌else◌,
}
use seismic.Prelude.Text.{Text, codes, text_eq, text_eq_iff}
use seismic.Prelude.Split.{rsplit_once, contains, rsplit_once-append, rsplit_once-eq-some}
use seismic.Prelude.Map.{Map, lookup, insert, lookup-insert, IsSorted, IsAbove-lookup}
use seismic.Json.{Json}
use seismic.Founding.{
  record_not_json, no_records, FoundingRecord, FoundingRecords, record_of, json_stem, json_files,
  no_files, check_unique, read_records, load_harvest_records,
}
use seismic.Founding.Laws.{record_of-IsRecord}

-- The name of a node's record.
abbrev pub record_file : Text → Text
record_file name = name ++ codes ".json"

abbrev pub document_of : Option FoundingRecord → Option Json
document_of none = none
document_of (some r) = some r.document

json_stem-record_file : (name : Text) → name ≢ [] → json_stem (record_file name) ≡ some name
unfolding json_stem contains text_eq
json_stem-record_file [] h = absurd (h refl)
json_stem-record_file (c ∷ name) h =
    let split : rsplit_once b'.' (record_file (c ∷ name)) ≡ some (c ∷ name, codes "json") =
      rsplit_once-append b'.' (c ∷ name) (codes "json") refl in
    rw (json_stem, split) refl

json_stem-eq-some :
    (file stem : Text) → json_stem file ≡ some stem → (file ≡ record_file stem) × (stem ≢ [])
unfolding json_stem
json_stem-eq-some file stem h = elim (Option-cases (rsplit_once b'.' file)) [
  | inl whole ↦ absurd (ground arith)
  | inr ((a, b), split) ↦
      let (parts, last) = rsplit_once-eq-some b'.' file a b split in
      let kept : (if not (is_empty a) && text_eq b (codes "json") then some a else none)
          ≡ some stem =
        ground arith in
      let extension : b ≡ codes "json" = ground (arith, text_eq_iff b (codes "json")) in
      let same : a ≡ stem = ground arith in
      (parts ∙ ap (λ x. x ++ b'.' ∷ b) same ∙ ap (λ x. stem ++ b'.' ∷ x) extension, ground arith)
]

json_files_skip :
    (file bytes : Text) (files : Map Text)
    → json_stem file ≡ none
    → json_files ((file, bytes) ∷ files) ≡ json_files files
unfolding json_files
json_files_skip file bytes files skipped = rw (json_files, skipped) refl

json_files_take :
    (file bytes : Text) (files : Map Text) (stem : Text)
    → json_stem file ≡ some stem
    → json_files ((file, bytes) ∷ files) ≡ (stem, bytes) ∷ json_files files
unfolding json_files
json_files_take file bytes files stem read = rw (json_files, read) refl

module _ (from_slice : Text → Option Json) where
  abbrev parsed : Option Text → Option Json
  parsed none = none
  parsed (some bytes) = from_slice bytes

  -- The document that the directory holds for a node.
  abbrev pub harvested : Map Text → Text → Option Json
  harvested files [] = none
  harvested files (c ∷ name) = parsed (lookup (record_file (c ∷ name)) files)

  -- A later file of the name stands before what was read.
  abbrev newest : Text → FoundingRecords → Option Text → Option Json
  newest name m none = document_of (lookup name m)
  newest name m (some bytes) = from_slice bytes

  read_records-newest :
      (files : Map Text) (m r : FoundingRecords) (name : Text)
      → IsSorted files
      → name ≢ []
      → read_records from_slice (json_files files) m ≡ ok r
      → document_of (lookup name r) ≡ newest name m (lookup (record_file name) files)
  unfolding json_files read_records lookup
  read_records-newest [] m r name s named h =
      let same : r ≡ m = ground arith in ap (λ x. document_of (lookup name x)) same
  read_records-newest ((file, bytes) ∷ files) m r name s named h =
      elim (Option-cases (json_stem file)) [
        | inl skipped ↦
            let other : text_eq file (record_file name) ≡ false =
              elim (Bool-cases (text_eq file (record_file name))) [
                | inl same ↦
                    let is_file = (text_eq_iff file (record_file name)).0 same in
                    let clash : none ≡ some name =
                      sym skipped ∙ (ap json_stem is_file ∙ json_stem-record_file name named) in
                    absurd (ground arith)
                | inr other ↦ other
              ] in
            let later = read_records-newest files m r name s.1 named (
              ap (λ l. read_records from_slice l m) (sym (json_files_skip file bytes files skipped))
              ∙ h) in
            rw other later
        | inr (stem, read) ↦
            let (spelled, filled) = json_stem-eq-some file stem read in
            let (document, e, h₁) =
              >>=-eq-ok (some_or (from_slice bytes) (record_not_json stem)) _ (
                ap (λ l. read_records from_slice l m)
                  (sym (json_files_take file bytes files stem read))
                ∙ h) in
            let (fr, f, h₂) = >>=-eq-ok (record_of stem document) _ h₁ in
            let parsed_here = some_or-eq-ok (from_slice bytes) (record_not_json stem) e in
            let later = read_records-newest files (insert stem fr m) r name s.1 named h₂ in
            let (valid, holds) = record_of-IsRecord stem document fr f in
            let placed = lookup-insert stem name fr m in
            elim (Bool-cases (text_eq stem name)) [
              | inl same ↦
                  let is_name : stem ≡ name = (text_eq_iff stem name).0 same in
                  let is_file : file ≡ record_file name = spelled ∙ ap record_file is_name in
                  let none_later : lookup (record_file name) files ≡ none =
                    ap (λ x. lookup x files) (sym is_file) ∙ IsAbove-lookup file files s.0 in
                  let found : text_eq file (record_file name) ≡ true =
                    (text_eq_iff file (record_file name)).1 is_file in
                  let here : document_of (lookup name (insert stem fr m)) ≡ some document =
                    ap document_of (placed ∙ ap (λ b. if b then some fr else lookup name m) same)
                    ∙ ap some holds in
                  rw found (
                    later
                    ∙ (ap (newest name (insert stem fr m)) none_later ∙ (here ∙ sym parsed_here)))
              | inr other ↦
                  let not_file : text_eq file (record_file name) ≡ false =
                    elim (Bool-cases (text_eq file (record_file name))) [
                      | inl same ↦
                          let is_file = (text_eq_iff file (record_file name)).0 same in
                          let clash : some stem ≡ some name =
                            sym read ∙ (ap json_stem is_file ∙ json_stem-record_file name named) in
                          absurd (ground (arith, text_eq_iff stem name))
                      | inr other ↦ other
                    ] in
                  let before : lookup name (insert stem fr m) ≡ lookup name m =
                    placed ∙ ap (λ b. if b then some fr else lookup name m) other in
                  rw not_file
                    (later ∙ unchanged (lookup (record_file name) files) (insert stem fr m) before)
            ]
      ]
    where
      unchanged :
          (found : Option Text) (m' : FoundingRecords)
          → lookup name m' ≡ lookup name m
          → newest name m' found ≡ newest name m found
      unchanged none m' same = ap document_of same
      unchanged (some b) m' same = refl

  -- No file is the record of a node without a name.
  read_records-nameless :
      (files : Map Text) (m r : FoundingRecords)
      → read_records from_slice (json_files files) m ≡ ok r
      → lookup [] r ≡ lookup [] m
  unfolding json_files read_records lookup
  read_records-nameless [] m r h = ap (lookup []) (let same : r ≡ m = ground arith in same)
  read_records-nameless ((file, bytes) ∷ files) m r h = elim (Option-cases (json_stem file)) [
    | inl skipped ↦
        read_records-nameless files m r (
          ap (λ l. read_records from_slice l m) (sym (json_files_skip file bytes files skipped))
          ∙ h)
    | inr (stem, read) ↦
        let (document, e, h₁) = >>=-eq-ok (some_or (from_slice bytes) (record_not_json stem)) _ (
          ap (λ l. read_records from_slice l m) (sym (json_files_take file bytes files stem read))
          ∙ h) in
        let (fr, f, h₂) = >>=-eq-ok (record_of stem document) _ h₁ in
        let filled = (json_stem-eq-some file stem read).1 in
        let other : text_eq stem [] ≡ false = elim (Bool-cases (text_eq stem [])) [
          | inl same ↦ absurd (filled ((text_eq_iff stem []).0 same))
          | inr other ↦ other
        ] in
        read_records-nameless files (insert stem fr m) r h₂
        ∙ (lookup-insert stem [] fr m ∙ ap (λ b. if b then some fr else lookup [] m) other)
  ]

  -- Records that are read of a directory are the files that are named for a node, each with its document.
  pub read_records-harvested :
      (files : Map Text) (r : FoundingRecords) (name : Text)
      → IsSorted files
      → read_records from_slice (json_files files) [] ≡ ok r
      → document_of (lookup name r) ≡ harvested files name
  unfolding lookup
  read_records-harvested files r [] s h = ap document_of (read_records-nameless files [] r h)
  read_records-harvested files r (c ∷ name) s h =
      read_records-newest files [] r (c ∷ name) s (λ p. absurd (ground arith)) h
      ∙ parsed_newest (lookup (record_file (c ∷ name)) files)
    where
      parsed_newest : (found : Option Text) → newest (c ∷ name) [] found ≡ parsed found
      parsed_newest none = refl
      parsed_newest (some bytes) = refl

  pub load_harvest_records-harvested :
      (files : Map Text) (records : FoundingRecords) (name : Text)
      → IsSorted files
      → load_harvest_records from_slice files ≡ ok records
      → document_of (lookup name records) ≡ harvested files name
  unfolding load_harvest_records
  load_harvest_records-harvested files records name s h =
      let (_, _, h₁) = >>=-eq-ok (bail_if (no_files (json_files files)) no_records) _ h in
      let (rs, e, h₂) = >>=-eq-ok (read_records from_slice (json_files files) []) _ h₁ in
      let (_, u, h₃) = >>=-eq-ok (check_unique rs) _ h₂ in
      let same : records ≡ rs = ground arith in
      ap (λ x. document_of (lookup name x)) same ∙ read_records-harvested files rs name s e
