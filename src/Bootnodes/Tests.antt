-- ===== src/Bootnodes/Tests.antt =====
-- Normalisation on a concrete enode.
use seismic.Prelude.{◌≡◌, ◌≢◌, inl, arith, List, [], ◌∷◌, refl, none, some, ◌++◌, ok}
use seismic.Prelude.Text.{Text, codes}
use seismic.Prelude.Split.{contains, split_once, strip_prefix}
use seismic.Prelude.Hex.{is_hexdigit}
use seismic.Prelude.Decimal.{parse_u16}
use seismic.Bootnodes.{Round, collect_enodes, Enode, parse_enode, render_enode, normalize_enode}
use seismic.Bootnodes.Ends.{collect_enodes_ends}
use seismic.Bootnodes.Laws.{IsPlainHost, normalize_enode_stable}

abbrev id : Text
id =
    codes
      "0123456789abcdef0123456789abcdef0123456789abcdef0123456789abcdef0123456789abcdef0123456789abcdef0123456789abcdef0123456789abcdef"

abbrev raw : Text
raw = codes "enode://" ++ (id ++ codes "@[2001:db8::1]:30303?discport=0")

abbrev parts : Enode
parts = record {
  id = id;
  host = codes "2001:db8::1";
  port = 30303;
  query = some (codes "discport=0");
}

raw_parses : parse_enode raw ≡ ok parts
unfolding parse_enode strip_prefix split_once is_hexdigit parse_u16
raw_parses = refl

host_plain : IsPlainHost (codes "2001:db8::1")
unfolding contains
host_plain = (refl, refl, refl)

normalize_enode_stable_example :
    (normalize_enode raw ≡ ok (render_enode id (codes "2001:db8::1") 30303))
    × (parse_enode (render_enode id (codes "2001:db8::1") 30303)
        ≡ ok (record parts { query = none }))
    × (normalize_enode (render_enode id (codes "2001:db8::1") 30303)
        ≡ ok (render_enode id (codes "2001:db8::1") 30303))
normalize_enode_stable_example = normalize_enode_stable raw parts raw_parses host_plain

abbrev silent : List Round
silent = record { result = λ label. none; now = 9 } ∷ []

collect_enodes_ends_example : collect_enodes 9 (codes "a" ∷ []) silent [] ≢ none
collect_enodes_ends_example = collect_enodes_ends 9 (codes "a" ∷ []) silent [] (inl (omega arith))
