-- ===== src/Assembly/Refill.antt =====
-- The computed hash replaces any other: `fill_eth_genesis_hash` of tee/cli/network/src/assemble.rs on a
-- text that it has filled.
use seismic.Prelude.{
  ℕ, ◌≡◌, ◌≢◌, refl, sym, ap, ◌∙◌, inl, inr, Bool, false, not, ◌&&◌, ◌||◌, List, [], ◌∷◌, ◌++◌,
  arith, ok, ◌>>=◌, ◌>>◌, >>=-eq-ok, ok_inj, some_or, bail_if, is_some, Option, Bool-cases, ◌==◌,
  if◌then◌else◌, ◌⊎◌,
}
use mathlib.Core.List.{append_assoc, append-nil}
use seismic.Prelude.Text.{Text, codes}
use seismic.Prelude.Split.{contains, contains-append, strip_prefix}
use seismic.Toml
use seismic.Toml.{Table}
use seismic.Gates.Run.{hex_0x}
use seismic.Cohort.Splice.{split_inclusive, concat}
use seismic.Assembly.{
  summit_not_toml, unusual_layout, starts_with, sets_hash, kept_lines, fill_eth_genesis_hash,
}

-- A line with the newline that ends it.
abbrev IsEnded : Text → Type 0
IsEnded line = (body : Text) × (line ≡ body ++ 10 ∷ []) × (contains 10 body ≡ false)

-- Lines as a text splits into them: only the last one may lack its newline, and then is not empty.
abbrev AreLines : List Text → Type 0
AreLines [] = Unit {0}
AreLines (line ∷ []) = IsEnded line ⊎ ((line ≢ []) × (contains 10 line ≡ false))
AreLines (line ∷ next ∷ lines) = IsEnded line × AreLines (next ∷ lines)

AreLines-cons :
    (line : Text) (lines : List Text) → IsEnded line → AreLines lines → AreLines (line ∷ lines)
AreLines-cons line [] e a = inl e
AreLines-cons line (next ∷ lines) e a = (e, a)

split_inclusive-ended :
    (body s : Text)
    → contains 10 body ≡ false
    → split_inclusive (body ++ 10 ∷ s) ≡ (body ++ 10 ∷ []) ∷ split_inclusive s
unfolding split_inclusive contains
split_inclusive-ended [] s h = refl
split_inclusive-ended (c ∷ body) s h = ground (arith, split_inclusive-ended body s)

split_inclusive-open :
    (c : ℕ) (line : Text)
    → contains 10 (c ∷ line) ≡ false
    → split_inclusive (c ∷ line) ≡ (c ∷ line) ∷ []
unfolding split_inclusive contains
split_inclusive-open c [] h = ground arith
split_inclusive-open c (d ∷ line) h = ground (arith, split_inclusive-open d line)

-- Lines are what their text splits into.
split_inclusive-concat :
    (lines : List Text) → AreLines lines → split_inclusive (concat lines) ≡ lines
unfolding split_inclusive
split_inclusive-concat [] a = refl
split_inclusive-concat (line ∷ []) (inl (body, is_line, clear)) =
    ap split_inclusive (append-nil line ∙ is_line)
    ∙ (split_inclusive-ended body [] clear ∙ ap (λ l. l ∷ []) (sym is_line))
split_inclusive-concat ([] ∷ []) (inr (filled, clear)) = absurd (filled refl)
split_inclusive-concat ((c ∷ line) ∷ []) (inr (filled, clear)) =
    ap split_inclusive (append-nil (c ∷ line)) ∙ split_inclusive-open c line clear
split_inclusive-concat (line ∷ next ∷ lines) ((body, is_line, clear), a) =
    ap (λ l. split_inclusive (l ++ concat (next ∷ lines))) is_line
    ∙ (ap split_inclusive (append_assoc body (10 ∷ []) (concat (next ∷ lines)))
        ∙ (split_inclusive-ended body (concat (next ∷ lines)) clear
            ∙ (ap (λ l. l ∷ split_inclusive (concat (next ∷ lines))) (sym is_line)
                ∙ ap (λ ls. line ∷ ls) (split_inclusive-concat (next ∷ lines) a))))

split_inclusive-AreLines : (s : Text) → AreLines (split_inclusive s)
unfolding split_inclusive contains
split_inclusive-AreLines [] = tt
split_inclusive-AreLines (c ∷ s) = elim (Bool-cases (c == 10)) [
  | inl newline ↦
      let is_newline : c ≡ 10 = ground arith in
      rw newline (
        AreLines-cons (c ∷ []) (split_inclusive s) ([], ap (λ x. x ∷ []) is_newline, refl)
          (split_inclusive-AreLines s))
  | inr other ↦ rw other (grown (split_inclusive s) other (split_inclusive-AreLines s))
]
  where
    grown_end : (line : Text) → c == 10 ≡ false → IsEnded line → IsEnded (c ∷ line)
    grown_end line other (body, is_line, clear) = (c ∷ body, ap (λ l. c ∷ l) is_line, ground arith)

    grown :
        (lines : List Text)
        → c == 10 ≡ false
        → AreLines lines
        → AreLines (elim lines as (λ _. List Text) [
          | [] ↦ (c ∷ []) ∷ []
          | line ∷ more ↦ (c ∷ line) ∷ more
        ])
    grown [] other a = inr ((λ h. absurd (ground arith)), ground arith)
    grown (line ∷ []) other (inl e) = inl (grown_end line other e)
    grown (line ∷ []) other (inr (filled, clear)) = inr ((λ h. absurd (ground arith)), ground arith)
    grown (line ∷ next ∷ lines) other (e, a) = (grown_end line other e, a)

module _ (trim_start : Text → Text) where
  -- The lines that are kept, one by one.
  abbrev keep : Bool → List Text → List Text
  keep inside [] = []
  keep inside (line ∷ lines) =
      let within = inside || starts_with b'[' (trim_start line) in
      let rest = keep within lines in
      if not within && sets_hash trim_start line then rest else line ∷ rest

  concat-keep :
      (inside : Bool) (lines : List Text)
      → concat (keep inside lines) ≡ kept_lines trim_start inside lines
  unfolding kept_lines
  concat-keep inside [] = refl
  concat-keep inside (line ∷ lines) =
      let within = inside || starts_with b'[' (trim_start line) in
      elim (Bool-cases (not within && sets_hash trim_start line)) [
        | inl dropped ↦ rw dropped (concat-keep within lines)
        | inr kept ↦ rw kept (ap (λ s. line ++ s) (concat-keep within lines))
      ]

  -- Nothing that is kept would be dropped.
  keep_twice :
      (inside : Bool) (lines : List Text) → keep inside (keep inside lines) ≡ keep inside lines
  keep_twice inside [] = refl
  keep_twice inside (line ∷ lines) =
      let within = inside || starts_with b'[' (trim_start line) in
      elim (Bool-cases (not within && sets_hash trim_start line)) [
        | inl dropped ↦
            let outside : within ≡ inside = ground arith in
            rw dropped (
              ap (λ b. keep inside (keep b lines)) outside
              ∙ (keep_twice inside lines ∙ ap (λ b. keep b lines) (sym outside)))
        | inr kept ↦ rw kept (rw kept (ap (λ ls. line ∷ ls) (keep_twice within lines)))
      ]

  keep-AreLines :
      (inside : Bool) (lines : List Text) → AreLines lines → AreLines (keep inside lines)
  keep-AreLines inside [] a = tt
  keep-AreLines inside (line ∷ []) a =
      let within = inside || starts_with b'[' (trim_start line) in
      elim (Bool-cases (not within && sets_hash trim_start line)) [
        | inl dropped ↦ rw dropped tt
        | inr kept ↦ rw kept a
      ]
  keep-AreLines inside (line ∷ next ∷ lines) a =
      let within = inside || starts_with b'[' (trim_start line) in
      let rest = keep-AreLines within (next ∷ lines) a.1 in
      elim (Bool-cases (not within && sets_hash trim_start line)) [
        | inl dropped ↦ rw dropped rest
        | inr kept ↦ rw kept (AreLines-cons line (keep within (next ∷ lines)) a.0 rest)
      ]

  -- The kept lines of what is kept of a text are all of them.
  kept_lines_twice :
      (s : Text)
      → kept_lines trim_start false
          (split_inclusive (kept_lines trim_start false (split_inclusive s)))
        ≡ kept_lines trim_start false (split_inclusive s)
  kept_lines_twice s =
      let lines = split_inclusive s in
      let same = concat-keep false lines in
      let split : split_inclusive (kept_lines trim_start false lines) ≡ keep false lines =
        ap split_inclusive (sym same)
        ∙ split_inclusive-concat (keep false lines)
            (keep-AreLines false lines (split_inclusive-AreLines s)) in
      ap (kept_lines trim_start false) split
      ∙ (sym (concat-keep false (keep false lines)) ∙ (ap concat (keep_twice false lines) ∙ same))

  module _ (from_toml : Text → Option Table) (encode : Text → Text)
      (trim_word : (s : Text) → trim_start (b'e' ∷ s) ≡ b'e' ∷ s)
      (trim_blank : (s : Text) → trim_start (32 ∷ b'=' ∷ s) ≡ b'=' ∷ s) where
    -- The line that is put first, without its newline.
    abbrev header : Text → Text
    header hash = codes "eth_genesis_hash = " ++ b'"' ∷ (codes "0x" ++ encode hash ++ b'"' ∷ [])

    abbrev kept_of : Text → Text
    kept_of authored = kept_lines trim_start false (split_inclusive authored)

    fill_eth_genesis_hash-headed :
        (authored hash template : Text)
        → fill_eth_genesis_hash trim_start from_toml encode authored hash ≡ ok template
        → template ≡ header hash ++ 10 ∷ kept_of authored
    unfolding fill_eth_genesis_hash hex_0x
    fill_eth_genesis_hash-headed authored hash template h =
        let kept = kept_of authored in
        let (parsed, e₁, h₁) = >>=-eq-ok (some_or (from_toml kept) summit_not_toml) _ h in
        let (u, e₂, h₂) =
          >>=-eq-ok (bail_if (is_some (Toml.get (codes "eth_genesis_hash") parsed)) unusual_layout)
            _ h₁ in
        sym (ok_inj _ _ _ (sym h₂) refl)
        ∙ ap (λ s. codes "eth_genesis_hash = " ++ b'"' ∷ (codes "0x" ++ s))
            (sym (append_assoc (encode hash) (b'"' ∷ []) (10 ∷ kept)))

    header_dropped :
        (hash : Text) (lines : List Text)
        → kept_lines trim_start false ((header hash ++ 10 ∷ []) ∷ lines)
          ≡ kept_lines trim_start false lines
    unfolding kept_lines sets_hash strip_prefix
    header_dropped hash lines =
        let rest = (encode hash ++ b'"' ∷ []) ++ 10 ∷ [] in
        let value = 32 ∷ b'"' ∷ (codes "0x" ++ rest) in
        let trimmed = trim_word (codes "th_genesis_hash =" ++ value) in
        rw (kept_lines, sets_hash, trimmed, trim_blank value) refl

    -- When hexadecimal has no newline, and trimming leaves a text that begins with the key's first letter
    -- and cuts the blank before an equals sign: filling a text that was filled with another hash is filling
    -- the text itself.
    pub fill_eth_genesis_hash_again :
        (authored hash hash' template : Text)
        → contains 10 (encode hash) ≡ false
        → fill_eth_genesis_hash trim_start from_toml encode authored hash ≡ ok template
        → fill_eth_genesis_hash trim_start from_toml encode template hash'
          ≡ fill_eth_genesis_hash trim_start from_toml encode authored hash'
    unfolding fill_eth_genesis_hash contains
    fill_eth_genesis_hash_again authored hash hash' template one_line h =
        let clear : contains 10 (header hash) ≡ false =
          contains-append 10 (encode hash) (b'"' ∷ [])
          ∙ ap (λ b. b || contains 10 (b'"' ∷ [])) one_line in
        let split : split_inclusive template
            ≡ (header hash ++ 10 ∷ []) ∷ split_inclusive (kept_of authored) =
          ap split_inclusive (fill_eth_genesis_hash-headed authored hash template h)
          ∙ split_inclusive-ended (header hash) (kept_of authored) clear in
        let same : kept_of template ≡ kept_of authored =
          ap (kept_lines trim_start false) split
          ∙ (header_dropped hash (split_inclusive (kept_of authored))
              ∙ kept_lines_twice authored) in
        ap
          (λ kept. some_or (from_toml kept) summit_not_toml >>= λ parsed.
            bail_if (is_some (Toml.get (codes "eth_genesis_hash") parsed)) unusual_layout
            >> ok (codes "eth_genesis_hash = " ++ b'"' ∷ (hex_0x encode hash' ++ b'"' ∷ 10 ∷ kept)))
          same
