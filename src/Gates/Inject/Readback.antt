-- ===== src/Gates/Inject/Readback.antt =====
-- The gate reads back the storage that the injection wrote.
use mathlib.Core.List.{append_assoc, append-nil}
use seismic.Prelude.{
  ◌≡◌, ◌≢◌, refl, sym, ap, ◌∙◌, inl, inr, true, false, Option, some, [], ◌∷◌, ◌++◌, arith, ok,
  bail_if, >>=_of_ok, Bool-cases, All, All-append, is_empty,
}
use seismic.Prelude.Text.{Text, text_eq, text_lt, text_eq_iff, text_lt_irrefl, text_lt_trans}
use seismic.Prelude.Split.{strip_prefix}
use seismic.Prelude.Map.{Map, insert, lookup, contains_key, IsSorted}
use seismic.Json.{Json}
use seismic.Gates.{slot_twice, digits_of, normalize_word, read_storage}
use seismic.Gates.Run.{hex_0x}
use seismic.Gates.Inject.{storage_fields}

-- Every key of the map is below `k`.
abbrev AllBelow : Text → Map Text → Type 0
AllBelow k m = All (λ e. text_lt e.0 k ≡ true) m

insert_last :
    (k v : Text) (m : Map Text)
    → AllBelow k m
    → (insert k v m ≡ m ++ (k, v) ∷ []) × (contains_key k m ≡ false)
unfolding insert lookup
insert_last k v [] a = (refl, refl)
insert_last k v ((j, w) ∷ m) a =
    let lower : text_lt j k ≡ true = a.0 in
    let other : text_eq j k ≡ false = ground (arith, text_eq_iff j k, text_lt_irrefl j) in
    let not_lower : text_lt k j ≡ false = elim (Bool-cases (text_lt k j)) [
      | inl upper ↦
          let around : text_lt j j ≡ true = text_lt_trans j k j lower upper in
          absurd (ground (arith, text_lt_irrefl j))
      | inr not_upper ↦ not_upper
    ] in
    let (later, fresh) = insert_last k v m a.1 in
    (rw (other, not_lower) (ap (λ l. (j, w) ∷ l) later), rw other fresh)

below_last :
    (slot word : Text) (acc m : Map Text)
    → All (λ e. text_lt slot e.0 ≡ true) m
    → All (λ e. AllBelow e.0 acc) m
    → All (λ e. AllBelow e.0 (acc ++ (slot, word) ∷ [])) m
below_last slot word acc [] above a = tt
below_last slot word acc (e ∷ m) above a = (
  All-append (λ f. text_lt f.0 e.0 ≡ true) acc ((slot, word) ∷ []) a.0 (above.0, tt),
  below_last slot word acc m above.1 a.1,
)

pub above_none : (m : Map Text) → All (λ e. AllBelow e.0 []) m
above_none [] = tt
above_none (e ∷ m) = (tt, above_none m)

filled_text : (t : Text) → t ≢ [] → is_empty t ≡ false
filled_text [] h = absurd (h refl)
filled_text (c ∷ t) h = refl

module _ (encode to_lowercase : Text → Text) (word_of : Text → Option Text) where
  -- The hexadecimal of a word reads back as the word.
  abbrev pub IsSpelled : Text → Type 0
  IsSpelled w = (encode w ≢ []) × (word_of (encode w) ≡ some w)

  normalize-hex_0x :
      (w : Text) → IsSpelled w → normalize_word word_of (Json.string (hex_0x encode w)) ≡ ok w
  unfolding normalize_word digits_of hex_0x strip_prefix
  normalize-hex_0x w spelled =
      let filled : is_empty (encode w) ≡ false = filled_text (encode w) spelled.0 in
      rw (filled, spelled.1) refl

  pub read-storage_fields :
      (m acc : Map Text)
      → All (λ e. IsSpelled e.0 × IsSpelled e.1) m
      → IsSorted m
      → All (λ e. AllBelow e.0 acc) m
      → read_storage word_of (storage_fields encode to_lowercase m) acc ≡ ok (acc ++ m)
  unfolding read_storage storage_fields
  read-storage_fields [] acc w s a = ap ok (sym (append-nil acc))
  read-storage_fields ((slot, word) ∷ m) acc w s a =
      let (placed, fresh) = insert_last slot word acc a.0 in
      let below : All (λ e. AllBelow e.0 (acc ++ (slot, word) ∷ [])) m =
        below_last slot word acc m s.0 a.1 in
      let (slot_spelled, word_spelled) = w.0 in
      >>=_of_ok _ _ (normalize-hex_0x slot slot_spelled) (
        >>=_of_ok _ _ (normalize-hex_0x word word_spelled) (
          >>=_of_ok (bail_if (contains_key slot acc) slot_twice) _
            (ap (λ b. bail_if b slot_twice) fresh)
            (ap (read_storage word_of (storage_fields encode to_lowercase m)) placed
              ∙ (read-storage_fields m (acc ++ (slot, word) ∷ []) w.1 s.1 below
                  ∙ ap ok (append_assoc acc ((slot, word) ∷ []) m)))))
