-- ===== src/Cohort/Splice/Laws.antt =====
-- What the splice changes.
use seismic.Prelude.{
  ℕ, suc, ◌≡◌, refl, sym, ◌∙◌, ap, ==_iff, bail_if-eq-ok, bail_if_then-eq-ok, Bool, true, false,
  not, Option, none, some, List, [], ◌∷◌, arith, ok, >>=-eq-ok, some_or, some_or-eq-ok, bail_if,
  ◌==◌, length, is_empty, Bool-cases, Option-cases, inl, inr,
}
use seismic.Prelude.Text.{Text, codes, text_eq_iff}
use seismic.Prelude.Map.{Map, lookup, keys}
use seismic.Toml
use seismic.Toml.{Toml, Elems, Table}
use seismic.Cohort.Splice.{
  not_toml, no_validators, no_key, cohort_changed, wrong_layout, spliced_not_toml, changed_beyond,
  panic, split_inclusive, body, is_ip_address_line, pinned_keys, set_of, texts_eq, concat, with_ips,
  address_line, splice_lines, splice_validator_ips, push, seen,
}

pub concat-split_inclusive : (s : Text) → concat (split_inclusive s) ≡ s
unfolding split_inclusive
concat-split_inclusive [] = refl
concat-split_inclusive (c ∷ s) = ground (arith, concat-split_inclusive s)

texts_eq-eq-true : (ss ts : List Text) → texts_eq ss ts ≡ true → ss ≡ ts
unfolding texts_eq
texts_eq-eq-true [] [] h = refl
texts_eq-eq-true [] (t ∷ ts) h = absurd (ground arith)
texts_eq-eq-true (s ∷ ss) [] h = absurd (ground arith)
texts_eq-eq-true (s ∷ ss) (t ∷ ts) h =
    let same = (text_eq_iff s t).0 (ground arith) in
    let rest = texts_eq-eq-true ss ts (ground arith) in ground arith

length-pinned_keys :
    (i : ℕ) (vs : List Toml) (pinned : List Text)
    → pinned_keys i vs ≡ ok pinned
    → length pinned ≡ length vs
unfolding pinned_keys
length-pinned_keys i [] pinned h = ground arith
length-pinned_keys i (v ∷ vs) pinned h =
    let (key, a, h₁) =
      >>=-eq-ok (some_or (Toml.as_str (Toml.get_in (codes "node_public_key") v)) (no_key (suc i))) _
        h in
    let (rest, b, h₂) = >>=-eq-ok (pinned_keys (suc i) vs) _ h₁ in
    let same : pinned ≡ key ∷ rest = ground arith in
    let n = length-pinned_keys (suc i) vs rest b in rw same (ap suc n)

module _ (to_json : Text → Text) (ips : Map Text) where
  -- The pieces that take the lines' place: the address lines, in order, get the addresses of the
  -- keys, in order, and every other line stays.
  pub data Respliced : List Text → List Text → List Text → Type 0 where
    finished : Respliced [] [] []
    kept :
        (ks ls ps : List Text) (line : Text)
        → is_ip_address_line (body line) ≡ false
        → Respliced ks ls ps
        → Respliced ks (line ∷ ls) (line ∷ ps)
    replaced :
        (ks ls ps : List Text) (line key ip : Text)
        → is_ip_address_line (body line) ≡ true
        → lookup key ips ≡ some ip
        → Respliced ks ls ps
        → Respliced (key ∷ ks) (line ∷ ls) (address_line to_json line ip ∷ ps)

  push-eq-some :
      (piece : Text) (o : Option (List Text × ℕ)) (ps : List Text) (n : ℕ)
      → push piece o ≡ some (ps, n)
      → (rest : List Text) × (o ≡ some (rest, n)) × (ps ≡ piece ∷ rest)
  push-eq-some piece none ps n h = absurd (ground arith)
  push-eq-some piece (some (rest, m)) ps n h = (rest, ground arith, ground arith)

  seen-eq-some :
      (o : Option (List Text × ℕ)) (ps : List Text) (n : ℕ)
      → seen o ≡ some (ps, n)
      → (m : ℕ) × (o ≡ some (ps, m)) × (n ≡ suc m)
  seen-eq-some none ps n h = absurd (ground arith)
  seen-eq-some (some (rest, m)) ps n h = (m, ground arith, ground arith)

  splice_lines-Respliced :
      (pinned lines ps : List Text) (n : ℕ)
      → splice_lines to_json ips pinned lines ≡ some (ps, n)
      → n ≡ length pinned
      → Respliced pinned lines ps
  unfolding splice_lines
  splice_lines-Respliced [] [] ps n h e = let same : ps ≡ [] = ground arith in rw same finished
  splice_lines-Respliced (key ∷ ks) [] ps n h e = absurd (ground arith)
  splice_lines-Respliced [] (line ∷ ls) ps n h e =
      elim (Bool-cases (is_ip_address_line (body line))) [
        | inl address ↦
            let (m, a, b) = seen-eq-some (splice_lines to_json ips [] ls) ps n (ground arith) in
            absurd (omega arith)
        | inr other ↦
            let (rest, a, b) =
              push-eq-some line (splice_lines to_json ips [] ls) ps n (ground arith) in
            rw b (kept [] ls rest line other (splice_lines-Respliced [] ls rest n a e))
      ]
  splice_lines-Respliced (key ∷ ks) (line ∷ ls) ps n h e =
      elim (Bool-cases (is_ip_address_line (body line))) [
        | inr other ↦
            let (rest, a, b) =
              push-eq-some line (splice_lines to_json ips (key ∷ ks) ls) ps n (ground arith) in
            rw b
              (kept (key ∷ ks) ls rest line other (splice_lines-Respliced (key ∷ ks) ls rest n a e))
        | inl address ↦ elim (Option-cases (lookup key ips)) [
          | inl missing ↦ absurd (ground arith)
          | inr (ip, found) ↦
              let (m, a, b) =
                seen-eq-some (push (address_line to_json line ip) (splice_lines to_json ips ks ls))
                  ps n (ground arith) in
              let (rest, c, d) =
                push-eq-some (address_line to_json line ip) (splice_lines to_json ips ks ls) ps m
                  a in
              rw d (
                replaced ks ls rest line key ip address found
                  (splice_lines-Respliced ks ls rest m c (omega arith)))
        ]
      ]

module _ (from_toml : Text → Option Table) (same : Table → Table → Bool) (to_json : Text → Text)
    (genesis : Text) (ips : Map Text) where
  -- What the spliced genesis is.
  pub record IsSpliced (out : Text) : Type 0 where
    pub parsed : Table
    pub reparsed : Table
    pub validators : List Toml
    pub pinned : List Text
    pub pieces : List Text
    pub expected : Elems
    pub input : from_toml genesis ≡ some parsed
    pub seated : Toml.as_array (Toml.get (codes "validators") parsed) ≡ some validators
    pub keyed : pinned_keys 0 validators ≡ ok pinned
    pub covered : keys (set_of pinned) ≡ keys ips
    pub lines : concat (split_inclusive genesis) ≡ genesis
    pub respliced : Respliced to_json ips pinned (split_inclusive genesis) pieces
    pub output : concat pieces ≡ out
    pub output_parsed : from_toml out ≡ some reparsed
    pub addressed : with_ips ips validators pinned ≡ some expected
    pub held : same reparsed (Toml.set (codes "validators") (Toml.array expected) parsed) ≡ true

  -- A splice that succeeds is given the addresses of exactly the pinned node keys. Of the genesis
  -- text, it replaces the address lines, in order, by the current addresses of the validators, in
  -- order, one for each; every other line stays. The result parses to a document that compares equal
  -- to the original with its validators' addresses replaced.
  pub splice_validator_ips-IsSpliced :
      (out : Text)
      → splice_validator_ips from_toml same to_json genesis ips ≡ ok out
      → IsSpliced out
  unfolding splice_validator_ips
  splice_validator_ips-IsSpliced out h =
      let (parsed, a, h₁) = >>=-eq-ok (some_or (from_toml genesis) not_toml) _ h in
      let (vs, b, h₂) =
        >>=-eq-ok (some_or (Toml.as_array (Toml.get (codes "validators") parsed)) no_validators) _
          h₁ in
      let (_, _, h₃) = >>=-eq-ok (bail_if (is_empty vs) no_validators) _ h₂ in
      let (pinned, c, h₄) = >>=-eq-ok (pinned_keys 0 vs) _ h₃ in
      let (_, d, h₅) =
        >>=-eq-ok
          (bail_if (not (texts_eq (keys (set_of pinned)) (keys ips)))
            (cohort_changed (keys (set_of pinned)) (keys ips)))
          _ h₄ in
      let (r, e, h₆) =
        >>=-eq-ok (some_or (splice_lines to_json ips pinned (split_inclusive genesis)) panic) _
          h₅ in
      let (_, f, h₇) =
        >>=-eq-ok (bail_if (not (r.1 == length vs)) (wrong_layout (length vs) r.1)) _ h₆ in
      let (expected, g, h₈) = >>=-eq-ok (some_or (with_ips ips vs pinned) panic) _ h₇ in
      let (reparsed, i, h₉) = >>=-eq-ok (some_or (from_toml (concat r.0)) spliced_not_toml) _ h₈ in
      let (held, same_text) = bail_if_then-eq-ok _ changed_beyond (concat r.0) h₉ in
      let count : r.1 ≡ length pinned =
        (==_iff r.1 (length vs)).0 (bail_if-eq-ok _ _ f) ∙ sym (length-pinned_keys 0 vs pinned c) in
      record {
        parsed = parsed;
        reparsed = reparsed;
        validators = vs;
        pinned = pinned;
        pieces = r.0;
        expected = expected;
        input = some_or-eq-ok (from_toml genesis) _ a;
        seated = some_or-eq-ok (Toml.as_array (Toml.get (codes "validators") parsed)) _ b;
        keyed = c;
        covered = texts_eq-eq-true (keys (set_of pinned)) (keys ips) (bail_if-eq-ok _ _ d);
        lines = concat-split_inclusive genesis;
        respliced =
            splice_lines-Respliced to_json ips pinned (split_inclusive genesis) r.0 r.1
              (some_or-eq-ok _ _ e) count;
        output = same_text;
        output_parsed = ap from_toml (sym same_text) ∙ some_or-eq-ok (from_toml (concat r.0)) _ i;
        addressed = some_or-eq-ok (with_ips ips vs pinned) _ g;
        held = held;
      }
