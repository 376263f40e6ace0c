-- ===== src/Paths/Laws.antt =====
-- Different node names give different records.
use mathlib.Core.List.{append_assoc, append_cancel_left, append_cancel_right}
use seismic.Prelude.{◌≡◌, refl, false, [], ◌∷◌, ◌++◌, if◌then◌else◌, Bool-cases, inl, inr, sym, ◌∙◌}
use seismic.Prelude.Text.{Text, codes}
use seismic.Paths.{NetworkDir, is_absolute, ends_with_slash, join, harvest, harvest_record}

-- Joining a relative path puts it behind some prefix that depends on the base alone.
prefix_of : Text → Text
prefix_of [] = []
prefix_of (c ∷ s) = if ends_with_slash (c ∷ s) then c ∷ s else (c ∷ s) ++ b'/' ∷ []

join-eq-append : (base p : Text) → is_absolute p ≡ false → join base p ≡ prefix_of base ++ p
unfolding join prefix_of
join-eq-append [] p h = refl
join-eq-append (c ∷ s) p h = elim (Bool-cases (ends_with_slash (c ∷ s))) [
  | inl slash ↦ rw (h, slash) refl
  | inr bare ↦ rw (h, bare) (sym (append_assoc (c ∷ s) (b'/' ∷ []) p))
]

is_absolute-append :
    (p q : Text) → is_absolute p ≡ false → is_absolute q ≡ false → is_absolute (p ++ q) ≡ false
unfolding is_absolute
is_absolute-append [] q h k = k
is_absolute-append (c ∷ p) q h k = h

-- Relative paths joined to one base are as different as they were.
pub join_inj :
    (base p q : Text)
    → is_absolute p ≡ false
    → is_absolute q ≡ false
    → join base p ≡ join base q
    → p ≡ q
join_inj base p q hp hq h =
    append_cancel_left (prefix_of base) p q
      (sym (join-eq-append base p hp) ∙ h ∙ join-eq-append base q hq)

json_relative : is_absolute (codes ".json") ≡ false
unfolding is_absolute
json_relative = refl

pub harvest_record_inj :
    (dir : NetworkDir) (a b : Text)
    → is_absolute a ≡ false
    → is_absolute b ≡ false
    → harvest_record dir a ≡ harvest_record dir b
    → a ≡ b
unfolding harvest_record
harvest_record_inj dir a b ha hb h =
    let ja =
      join-eq-append (harvest dir) (a ++ codes ".json")
        (is_absolute-append a (codes ".json") ha json_relative) in
    let jb =
      join-eq-append (harvest dir) (b ++ codes ".json")
        (is_absolute-append b (codes ".json") hb json_relative) in
    append_cancel_right a b (codes ".json") (
      append_cancel_left (prefix_of (harvest dir)) (a ++ codes ".json") (b ++ codes ".json")
        (sym ja ∙ h ∙ jb))
