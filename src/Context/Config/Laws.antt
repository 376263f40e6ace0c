-- ===== src/Context/Config/Laws.antt =====
-- What a validated network entry is.
use seismic.Prelude.{
  ◌≡◌, ◌≢◌, refl, ◌⊎◌, ◌↔◌, true, false, Option, none, some, [], ◌∷◌, arith, ok, is_some, All,
}
use seismic.Prelude.Text.{Text}
use seismic.Prelude.Map.{Map, lookup, lookup-All}
use seismic.Context.Config.{
  Network, is_network_id, validate_id, validate, shape, validate_all, is_empty_map,
}

-- The pin is absent or 32 bytes of hex.
abbrev pub IsPin : Option Text → Type 0
IsPin none = Unit {0}
IsPin (some id) = is_network_id id ≡ true

-- What `validate` promises of an entry.
pub record IsValid (n : Network) : Type 0 where
  pub holds_something :
      (is_some n.dir ≡ true)
      ⊎ (is_some n.manifest ≡ true)
      ⊎ (is_some n.source ≡ true)
      ⊎ (is_empty_map n.nodes ≡ false)
  pub one_manifest : (n.dir ≡ none) ⊎ (n.manifest ≡ none)
  pub pinned : (n.source ≡ none) ⊎ (is_some n.network_id ≡ true)
  pub pin : IsPin n.network_id

validate_id_iff : (id : Option Text) → (validate_id id ≡ ok tt) ↔ IsPin id
unfolding validate_id
validate_id_iff none = ground arith
validate_id_iff (some id) = ground arith

validate-IsValid : (n : Network) → validate n ≡ ok tt → IsValid n
unfolding validate
validate-IsValid n h = record {
  holds_something = ground arith;
  one_manifest = ground arith;
  pinned = ground arith;
  pin = (validate_id_iff n.network_id).0 (ground arith);
}

IsValid-validate : (n : Network) → IsValid n → validate n ≡ ok tt
unfolding validate
IsValid-validate n v = ground (arith, (validate_id_iff n.network_id).1 v.pin)

-- A network entry validates exactly when it holds something, does not name a manifest twice, pins
-- its source, and its pin, if it has one, is 32 bytes of hex.
pub validate_iff : (n : Network) → (validate n ≡ ok tt) ↔ IsValid n
validate_iff n = (validate-IsValid n, IsValid-validate n)

pub validate_all_iff : (m : Map Network) → (validate_all m ≡ ok tt) ↔ All (λ e. IsValid e.1) m
unfolding validate_all
validate_all_iff [] = (λ _. tt, λ _. refl)
validate_all_iff ((name, n) ∷ m) = (
  λ h. (validate-IsValid n (ground arith), (validate_all_iff m).0 (ground arith)),
  λ h. ground (arith, IsValid-validate n h.0, (validate_all_iff m).1 h.1),
)

pub IsValid-shape : (n : Network) → IsValid n → shape n ≢ none
unfolding shape
IsValid-shape n v = ground arith

-- In a file that validates, every network that is found has a shape, so that reading it never panics.
pub validated-shape :
    (m : Map Network) (name : Text) (n : Network)
    → validate_all m ≡ ok tt
    → lookup name m ≡ some n
    → shape n ≢ none
validated-shape m name n h found =
    IsValid-shape n (lookup-All (λ e. IsValid e.1) name n m ((validate_all_iff m).0 h) found)
