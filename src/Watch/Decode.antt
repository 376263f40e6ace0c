-- ===== src/Watch/Decode.antt =====
-- Reading a status out of the RPC result: `LuksProvisioningStatus::from_result` of
-- tee/cli/node/src/status.rs. The rendering of a JSON value to text is serde_json's: a parameter.
use seismic.Prelude.{
  ℕ, Bool, true, false, Option, none, some, if◌then◌else◌, leb, length, get_elem?, get_or_else,
}
use seismic.Prelude.Text.{Text, text_eq, codes}
use seismic.Json.{Json, null, string, number, unsigned, array, object, get_field, items}
use seismic.Watch.{Status, idle, provisioning, error, unknown, other}

-- The struct `Raw`.
pub record Raw : Type 0 where
  pub state : Text
  pub bytes_done : ℕ
  pub bytes_total : ℕ
  pub eta_seconds : Option ℕ
  pub error : Option Text

-- A struct is read from an object by its names or from an array of its fields in order.
unfoldable pub is_struct : Json → Bool
is_struct (object fs) = true
is_struct (array vs) = leb (length (items vs)) 5
is_struct v = false

unfoldable pub member : Json → ℕ → Text → Option Json
member (object fs) i name = get_field name fs
member (array vs) i name = get_elem? (items vs) i
member v i name = none

-- `#[serde(default)] u64`: 0 if absent, refused unless an unsigned number.
unfoldable pub u64_or_default : Option Json → Option ℕ
u64_or_default none = some 0
u64_or_default (some (number (unsigned n))) = some n
u64_or_default (some v) = none

-- `#[serde(default)] Option<u64>` and `Option<String>`: a null is none.
unfoldable pub optional_u64 : Option Json → Option (Option ℕ)
optional_u64 none = some none
optional_u64 (some null) = some none
optional_u64 (some (number (unsigned n))) = some (some n)
optional_u64 (some v) = none

unfoldable pub optional_string : Option Json → Option (Option Text)
optional_string none = some none
optional_string (some null) = some none
optional_string (some (string s)) = some (some s)
optional_string (some v) = none

unfoldable pub required_string : Option Json → Option Text
required_string (some (string s)) = some s
required_string v = none

infixl 5 ◌>>=◌
abbrev ◌>>=◌ : {A B : Type 0} → Option A → (A → Option B) → Option B
some member >>= rest = rest member
none >>= rest = none

unfoldable pub members : Json → Option Raw
unfolding member u64_or_default optional_u64 optional_string required_string
members v = do
  state ← required_string (member v 0 (codes "state"))
  done ← u64_or_default (member v 1 (codes "bytes_done"))
  total ← u64_or_default (member v 2 (codes "bytes_total"))
  eta ← optional_u64 (member v 3 (codes "eta_seconds"))
  message ← optional_string (member v 4 (codes "error"))
  some (record {
    state = state;
    bytes_done = done;
    bytes_total = total;
    eta_seconds = eta;
    error = message;
  })

unfoldable pub raw : Json → Option Raw
unfolding is_struct members
raw v = if is_struct v then members v else none

unfoldable pub by_state : Raw → Status
unfolding text_eq
by_state r =
    if text_eq r.state (codes "idle")
    then idle
    else if text_eq r.state (codes "provisioning")
    then provisioning r.bytes_done r.bytes_total r.eta_seconds
    else if text_eq r.state (codes "error")
    then error (get_or_else r.error (codes "?"))
    else if text_eq r.state (codes "unknown")
    then unknown
    else other r.state

module _ (render : Json → Text) where
  unfoldable pub from_result : Json → Status
  unfolding raw by_state
  from_result v = elim (raw v) [ none ↦ other (render v) | some r ↦ by_state r ]
