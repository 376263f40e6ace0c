-- ===== src/Cohort/Splice.antt =====
-- The current addresses in the delivered summit genesis: `splice_validator_ips` and
-- `is_ip_address_line` of tee/cli/network/src/configure.rs. The text is a list of bytes. Parsing and
-- comparing TOML and rendering a JSON string are other crates': parameters.
pub mod Laws
mod Tests
use seismic.Prelude.{
  ℕ, suc, Bool, true, false, not, ◌&&◌, Option, none, some, List, [], ◌∷◌, ◌++◌, Result, ok, err,
  ◌>>=◌, ◌>>◌, bail_if, some_or, if◌then◌else◌, ◌==◌, length, is_empty,
}
use seismic.Prelude.Text.{Text, codes, text_eq}
use seismic.Prelude.Map.{Map, lookup, insert, keys}
use seismic.Prelude.Split.{contains, strip_prefix}
use seismic.Toml
use seismic.Toml.{Toml, Elems, Table}

pub data SpliceError : Type 0 where
  not_toml : SpliceError
  no_validators : SpliceError
  no_key : ℕ → SpliceError
  cohort_changed : List Text → List Text → SpliceError
  wrong_layout : ℕ → ℕ → SpliceError
  spliced_not_toml : SpliceError
  changed_beyond : SpliceError
  panic : SpliceError

-- `text.split_inclusive('\n')`: every line with the newline that ends it.
unfoldable pub split_inclusive : Text → List Text
split_inclusive [] = []
split_inclusive (c ∷ s) =
    let rest = split_inclusive s in
    if c == 10
    then (c ∷ []) ∷ rest
    else elim rest [ [] ↦ (c ∷ []) ∷ [] | line ∷ lines ↦ (c ∷ line) ∷ lines ]

-- `strip_suffix` of one byte.
unfoldable pub strip_last : ℕ → Text → Option Text
strip_last c [] = none
strip_last c (d ∷ []) = if d == c then some [] else none
strip_last c (d ∷ e ∷ s) = elim (strip_last c (e ∷ s)) [ none ↦ none | some t ↦ some (d ∷ t) ]

-- `line.strip_suffix('\n').unwrap_or(line)`
unfoldable pub body : Text → Text
unfolding strip_last
body line = elim (strip_last 10 line) [ none ↦ line | some t ↦ t ]

unfoldable pub is_ip_address_line : Text → Bool
unfolding strip_last
is_ip_address_line line = elim (strip_prefix (codes "ip_address = " ++ b'"' ∷ []) line) [
  | none ↦ false
  | some rest ↦ elim (strip_last b'"' rest) [
    | none ↦ false
    | some inner ↦ not (contains b'"' inner)
  ]
]

-- The node keys of the validators, in order.
unfoldable pub pinned_keys : ℕ → List Toml → Result SpliceError (List Text)
pinned_keys i [] = ok []
pinned_keys i (v ∷ vs) = do
  key ← some_or (Toml.as_str (Toml.get_in (codes "node_public_key") v)) (no_key (suc i))
  rest ← pinned_keys (suc i) vs
  ok (key ∷ rest)

-- `BTreeSet` of the texts.
unfoldable pub set_of : List Text → Map (Unit {0})
set_of [] = []
set_of (k ∷ ks) = insert k tt (set_of ks)

unfoldable pub texts_eq : List Text → List Text → Bool
texts_eq [] [] = true
texts_eq [] (t ∷ ts) = false
texts_eq (s ∷ ss) [] = false
texts_eq (s ∷ ss) (t ∷ ts) = text_eq s t && texts_eq ss ts

abbrev pub concat : List Text → Text
concat [] = []
concat (s ∷ ss) = s ++ concat ss

-- The pieces pushed, with the number of address lines seen; none for the panic of a missing key.
abbrev pub push : Text → Option (List Text × ℕ) → Option (List Text × ℕ)
push piece none = none
push piece (some (pieces, n)) = some (piece ∷ pieces, n)

abbrev pub seen : Option (List Text × ℕ) → Option (List Text × ℕ)
seen none = none
seen (some (pieces, n)) = some (pieces, suc n)

-- An entry with its key's current address, if it is a table; none for the panic of a missing key.
unfoldable pub with_ip : Map Text → Text → Toml → Option Toml
with_ip ips key (Toml.table t) = elim (lookup key ips) [
  | none ↦ none
  | some ip ↦ some (Toml.table (Toml.set (codes "ip_address") (Toml.string ip) t))
]
with_ip ips key v = some v

-- The document's validators, zipped with their keys, with their current addresses.
unfoldable pub with_ips : Map Text → List Toml → List Text → Option Elems
unfolding with_ip
with_ips ips [] pinned = some Elems.nil
with_ips ips (v ∷ vs) [] = some Elems.nil
with_ips ips (v ∷ vs) (key ∷ pinned) = elim (with_ip ips key v) [
  | none ↦ none
  | some entry ↦ elim (with_ips ips vs pinned) [
    | none ↦ none
    | some rest ↦ some (Elems.cons entry rest)
  ]
]

module _ (to_json : Text → Text) where
  -- The line that takes an address line's place; its newline is kept.
  unfoldable pub address_line : Text → Text → Text
  address_line line ip =
      codes "ip_address = "
      ++ (to_json ip ++ (elim (strip_last 10 line) [ none ↦ [] | some t ↦ 10 ∷ [] ]))

  -- The loop over the lines, with the keys that are left for address lines to come.
  unfoldable pub splice_lines : Map Text → List Text → List Text → Option (List Text × ℕ)
  unfolding is_ip_address_line body address_line
  splice_lines ips pinned [] = some ([], 0)
  splice_lines ips pinned (line ∷ lines) = elim (is_ip_address_line (body line)) [
    | false ↦ push line (splice_lines ips pinned lines)
    | true ↦ elim pinned [
      | [] ↦ seen (splice_lines ips [] lines)
      | key ∷ more ↦ elim (lookup key ips) [
        | none ↦ none
        | some ip ↦ seen (push (address_line line ip) (splice_lines ips more lines))
      ]
    ]
  ]

module _ (from_toml : Text → Option Table) (same : Table → Table → Bool)
    (to_json : Text → Text) where
  unfoldable pub splice_validator_ips : Text → Map Text → Result SpliceError Text
  unfolding split_inclusive pinned_keys set_of texts_eq with_ips splice_lines
  splice_validator_ips genesis ips = do
    parsed ← some_or (from_toml genesis) not_toml
    validators ← some_or (Toml.as_array (Toml.get (codes "validators") parsed)) no_validators
    bail_if (is_empty validators) no_validators
    pinned ← pinned_keys 0 validators
    bail_if (not (texts_eq (keys (set_of pinned)) (keys ips)))
        (cohort_changed (keys (set_of pinned)) (keys ips))
    spliced ← some_or (splice_lines to_json ips pinned (split_inclusive genesis)) panic
    bail_if (not (spliced.1 == length validators)) (wrong_layout (length validators) spliced.1)
    expected ← some_or (with_ips ips validators pinned) panic
    reparsed ← some_or (from_toml (concat spliced.0)) spliced_not_toml
    bail_if (not (same reparsed (Toml.set (codes "validators") (Toml.array expected) parsed)))
        changed_beyond
    ok (concat spliced.0)
