-- ===== src/Founding/Credentials.antt =====
-- Which credentials files are accepted.
use seismic.Prelude.{
  ◌≡◌, ◌↔◌, refl, true, false, Option, some, List, [], ◌∷◌, arith, ok, All, is_empty, Bool-cases,
  inl, inr,
}
use seismic.Prelude.Text.{Text}
use seismic.Prelude.Map.{Map, insert}
use seismic.Json.{Json, array, Items}
use seismic.Founding.{is_address, strings, bad_addresses, load_founder_credentials}

insert_not_empty : (a : Text) (m : Map (Unit {0})) → is_empty (insert a tt m) ≡ false
unfolding insert
insert_not_empty a [] = refl
insert_not_empty a (e ∷ m) = ground arith

bad_addresses_iff :
    (l : List Text) → (is_empty (bad_addresses l) ≡ true) ↔ All (λ a. is_address a ≡ true) l
unfolding bad_addresses
bad_addresses_iff [] = (λ _. tt, λ _. refl)
bad_addresses_iff (a ∷ l) = (
  λ h. elim (Bool-cases (is_address a)) [
    | inl good ↦ (good, (bad_addresses_iff l).0 (ground arith))
    | inr bad ↦ absurd (ground (arith, insert_not_empty a (bad_addresses l)))
  ],
  λ h. ground (arith, h.0, (bad_addresses_iff l).1 h.1),
)

-- A credentials file that is a JSON array is accepted exactly when every entry is a string and an
-- address, 0x and 40 hex digits; the result is those strings in their order.
pub load_founder_credentials_iff :
    (from_slice : Text → Option Json) (bytes : Text) (vs : Items) (addresses : List Text)
    → from_slice bytes ≡ some (array vs)
    → (load_founder_credentials from_slice (some bytes) ≡ ok addresses)
      ↔ ((strings vs ≡ some addresses) × All (λ a. is_address a ≡ true) addresses)
unfolding load_founder_credentials
load_founder_credentials_iff from_slice bytes vs addresses e = (
  λ h. (ground arith, (bad_addresses_iff addresses).0 (ground arith)),
  λ h. ground (arith, (bad_addresses_iff addresses).1 h.1),
)
