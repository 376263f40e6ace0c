-- ===== src/Assembly/Fill.antt =====
-- The template with the computed hash: `fill_eth_genesis_hash` of tee/cli/network/src/assemble.rs.
use seismic.Prelude.{
  ℕ, ◌≡◌, refl, sym, ap, ◌∙◌, inl, inr, Bool, true, false, Option, none, some, List, [], ◌∷◌, ◌++◌,
  arith, ok, >>=-eq-ok, ok_inj, some_or, some_or-eq-ok, bail_if, Bool-cases, Option-cases, is_some,
}
use seismic.Prelude.Text.{Text, codes}
use seismic.Prelude.Split.{strip_prefix, strip_prefix-append, strip_prefix-eq-some}
use seismic.Toml
use seismic.Toml.{Table}
use seismic.Gates.Run.{hex_0x}
use seismic.Cohort.Splice.{split_inclusive, concat}
use seismic.Cohort.Splice.Laws.{concat-split_inclusive}
use seismic.Assembly.{
  summit_not_toml, unusual_layout, starts_with, sets_hash, kept_lines, fill_eth_genesis_hash,
}

module _ (trim_start : Text → Text) where
  -- The line sets the top-level key: the key's name, then blanks, then an equals sign.
  abbrev pub SetsHash : Text → Type 0
  SetsHash line =
      (rest : Text) × (value : Text) × (trim_start line ≡ codes "eth_genesis_hash" ++ rest)
      × (trim_start rest ≡ b'=' ∷ value)

  -- The line opens a table.
  abbrev pub OpensTable : Text → Type 0
  OpensTable line = (header : Text) × (trim_start line ≡ b'[' ∷ header)

  -- What is kept of the lines, from outside a table or from inside one: before the first table the lines
  -- that do not set the hash, and from there on every line.
  pub data Kept : Bool → List Text → Text → Type 0 where
    done : {inside : Bool} → Kept inside [] []
    opens :
        {line : Text} {lines : List Text} {kept : Text}
        → OpensTable line
        → Kept true lines kept
        → Kept false (line ∷ lines) (line ++ kept)
    inner :
        {line : Text} {lines : List Text} {kept : Text}
        → Kept true lines kept
        → Kept true (line ∷ lines) (line ++ kept)
    other :
        {line : Text} {lines : List Text} {kept : Text}
        → ¬ SetsHash line
        → Kept false lines kept
        → Kept false (line ∷ lines) (line ++ kept)
    dropped :
        {line : Text} {lines : List Text} {kept : Text}
        → SetsHash line
        → Kept false lines kept
        → Kept false (line ∷ lines) kept

  starts_with-eq-true : (c : ℕ) (s : Text) → starts_with c s ≡ true → (t : Text) × (s ≡ c ∷ t)
  starts_with-eq-true c [] h = absurd (ground arith)
  starts_with-eq-true c (d ∷ s) h = (s, ground arith)

  sets_hash-SetsHash : (line : Text) → sets_hash trim_start line ≡ true → SetsHash line
  unfolding sets_hash
  sets_hash-SetsHash line h =
      elim (Option-cases (strip_prefix (codes "eth_genesis_hash") (trim_start line))) [
        | inl missing ↦ absurd (ground arith)
        | inr (rest, found) ↦
            let (value, equals) = starts_with-eq-true b'=' (trim_start rest) (ground arith) in
            (
              rest,
              value,
              strip_prefix-eq-some (codes "eth_genesis_hash") (trim_start line) rest found,
              equals,
            )
      ]

  sets_hash_of : (line : Text) → SetsHash line → sets_hash trim_start line ≡ true
  unfolding sets_hash
  sets_hash_of line (rest, value, named, equals) =
      let found : strip_prefix (codes "eth_genesis_hash") (trim_start line) ≡ some rest =
        ap (strip_prefix (codes "eth_genesis_hash")) named
        ∙ strip_prefix-append (codes "eth_genesis_hash") rest in
      rw (sets_hash, found, equals) refl

  pub kept_lines-Kept :
      (inside : Bool) (lines : List Text) → Kept inside lines (kept_lines trim_start inside lines)
  unfolding kept_lines
  kept_lines-Kept inside [] = done
  kept_lines-Kept true (line ∷ lines) = inner (kept_lines-Kept true lines)
  kept_lines-Kept false (line ∷ lines) = elim (Bool-cases (starts_with b'[' (trim_start line))) [
    | inl opened ↦
        rw opened
          (opens (starts_with-eq-true b'[' (trim_start line) opened) (kept_lines-Kept true lines))
    | inr plain ↦ rw plain (elim (Bool-cases (sets_hash trim_start line)) [
      | inl sets ↦ rw sets (dropped (sets_hash-SetsHash line sets) (kept_lines-Kept false lines))
      | inr free ↦
          rw free (
            other (λ h. absurd (ground (arith, sets_hash_of line h))) (kept_lines-Kept false lines))
    ])
  ]

  module _ (from_toml : Text → Option Table) (encode : Text → Text) where
    -- The template is one line that sets the hash, and then what is kept of the text, which sets none.
    pub record IsFilled (authored hash template : Text) : Type 0 where
      pub lines : List Text
      pub kept : Text
      pub parsed : Table
      pub all_lines : concat lines ≡ authored
      pub keeps : Kept false lines kept
      pub reads : from_toml kept ≡ some parsed
      pub unset : Toml.get (codes "eth_genesis_hash") parsed ≡ none
      pub headed :
          template
          ≡ codes "eth_genesis_hash = " ++ b'"' ∷ (codes "0x" ++ encode hash ++ b'"' ∷ 10 ∷ kept)

    pub fill_eth_genesis_hash-IsFilled :
        (authored hash template : Text)
        → fill_eth_genesis_hash trim_start from_toml encode authored hash ≡ ok template
        → IsFilled authored hash template
    unfolding fill_eth_genesis_hash hex_0x
    fill_eth_genesis_hash-IsFilled authored hash template h =
        let lines = split_inclusive authored in
        let kept = kept_lines trim_start false lines in
        let (parsed, e₁, h₁) = >>=-eq-ok (some_or (from_toml kept) summit_not_toml) _ h in
        let (u, e₂, h₂) =
          >>=-eq-ok (bail_if (is_some (Toml.get (codes "eth_genesis_hash") parsed)) unusual_layout)
            _ h₁ in
        record {
          lines = lines;
          kept = kept;
          parsed = parsed;
          all_lines = concat-split_inclusive authored;
          keeps = kept_lines-Kept false lines;
          reads = some_or-eq-ok (from_toml kept) summit_not_toml e₁;
          unset = ground arith;
          headed = sym (ok_inj _ _ _ (sym h₂) refl);
        }
