-- ===== src/Prelude/Hex.antt =====
-- The classes of bytes that the source tests: `is_ascii_digit`, `is_ascii_hexdigit`, lowercase hex.
use seismic.Prelude.Tests.{leb}
use Prim.Native.Nat.{ℕ}
use mathlib.Core.Bool.{Bool, ◌&&◌, ◌||◌}

unfoldable pub is_digit : ℕ → Bool
is_digit b = leb b'0' b && leb b b'9'

-- `b.is_ascii_digit() || (b'a'..=b'f').contains(&b)`
unfoldable pub is_lower_hex : ℕ → Bool
unfolding is_digit
is_lower_hex b = is_digit b || leb b'a' b && leb b b'f'

unfoldable pub is_hexdigit : ℕ → Bool
unfolding is_lower_hex
is_hexdigit b = is_lower_hex b || leb b'A' b && leb b b'F'
