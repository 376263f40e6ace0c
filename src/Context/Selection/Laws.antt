-- ===== src/Context/Selection/Laws.antt =====
-- Parsing a selection and printing it are inverse.
use seismic.Prelude.{
  ◌≡◌, refl, inl, inr, ◌↔◌, ◌≢◌, false, Option, none, some, [], arith, ok, Option-cases,
}
use seismic.Prelude.Text.{Text}
use seismic.Prelude.Split.{
  contains, split_once, split_once-append, split_once-eq-some, split_once-eq-none, contains_of_none,
}
use seismic.Context.Selection.{Selection, from_str, display}

-- A name that can stand on either side of the slash.
abbrev pub IsName : Text → Type 0
IsName s = (s ≢ []) × (contains b'/' s ≡ false)

abbrev pub IsNodeName : Option Text → Type 0
IsNodeName none = Unit {0}
IsNodeName (some node) = IsName node

abbrev pub IsWellFormed : Selection → Type 0
IsWellFormed s = IsName s.network × IsNodeName s.node

from_str-display_of :
    (network : Text) (node : Option Text)
    → IsWellFormed (record { network = network; node = node })
    → from_str (display (record { network = network; node = node }))
      ≡ ok (record { network = network; node = node })
unfolding from_str display
from_str-display_of network none w = ground (arith, split_once-eq-none b'/' network w.0.1)
from_str-display_of network (some node) w =
    ground (arith, split_once-append b'/' network node w.0.1, w.1)

from_str-parts :
    (s : Text) (sel : Selection) → from_str s ≡ ok sel → IsWellFormed sel × (display sel ≡ s)
unfolding from_str display
from_str-parts s sel h = elim (Option-cases (split_once b'/' s)) [
  | inl missing ↦
      let clear = contains_of_none b'/' s missing in
      let e : sel ≡ record { network = s; node = none } = ground arith in
      rw e ((ground arith, tt), refl)
  | inr ((network, node), found) ↦
      let (parts, clear) = split_once-eq-some b'/' s network node found in
      let e : sel ≡ record { network = network; node = some node } = ground arith in
      rw e ((ground arith, ground arith), ground arith)
]

-- A text parses to a selection exactly when the selection is well formed, its names not empty and
-- free of slashes, and prints as that text.
pub from_str_iff :
    (s : Text) (sel : Selection) → (from_str s ≡ ok sel) ↔ (IsWellFormed sel × (display sel ≡ s))
from_str_iff s sel =
    (from_str-parts s sel, λ h. rw (← h.1) (from_str-display_of sel.network sel.node h.0))
