-- ===== src/Delivery/Websocket/Bytes.antt =====
-- `u32::to_be_bytes` and `u32::from_be_bytes` of the standard library.
use tom_notifier.Base.{
  ℕ, ◌+◌, ◌*◌, ◌/◌, ◌%◌, ◌^◌, ◌<◌, ◌≡◌, List, [], ◌∷◌, Option, none, some, arith, ap,
}

unfoldable pub to_be_bytes : ℕ → List ℕ
to_be_bytes n = (n / 2 ^ 24 % 256) ∷ (n / 2 ^ 16 % 256) ∷ (n / 2 ^ 8 % 256) ∷ (n % 256) ∷ []

-- The conversion of a payload into an array of four bytes, and the number that they are; `none`: the
-- payload has another length.
unfoldable pub from_be_bytes : List ℕ → Option ℕ
from_be_bytes (a ∷ b ∷ c ∷ d ∷ []) = some (a * 2 ^ 24 + b * 2 ^ 16 + c * 2 ^ 8 + d)
from_be_bytes _ = none

-- A 32-bit number survives the way through its bytes.
pub from_be_bytes-to_be_bytes : (n : ℕ) → n < 2 ^ 32 → from_be_bytes (to_be_bytes n) ≡ some n
unfolding from_be_bytes to_be_bytes
from_be_bytes-to_be_bytes n h = ap some (omega arith)
