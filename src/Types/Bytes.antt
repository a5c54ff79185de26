-- ===== src/Types/Bytes.antt =====
-- Little-endian bytes: the encoder that `u64::from_le_bytes` inverts, and keys as 32 such bytes.
use native.Mathlib.Nat.{pow-suc}
use magic_router.Prelude.{
  ℕ, zero, suc, ◌/◌, ◌%◌, ◌^◌, ◌<◌, ◌≡◌, ◌≢◌, refl, ap, List, [], ◌∷◌, Option, none, some, ◌==◌,
  if◌then◌else◌, length, arith,
}
use magic_router.Types.{from_le_bytes, PubkeyBytes}

-- The `w` lowest bytes of a number, the lowest first.
unfoldable pub to_le_bytes : ℕ → ℕ → List ℕ
to_le_bytes zero n = []
to_le_bytes (suc w) n = n % 256 ∷ to_le_bytes w (n / 256)

pub length-to_le_bytes : (w n : ℕ) → length (to_le_bytes w n) ≡ w
unfolding to_le_bytes
length-to_le_bytes zero n = refl
length-to_le_bytes (suc w) n = ap suc (length-to_le_bytes w (n / 256))

pub from_le_bytes-to_le_bytes : (w n : ℕ) → n < 256 ^ w → from_le_bytes (to_le_bytes w n) ≡ n
unfolding from_le_bytes to_le_bytes
from_le_bytes-to_le_bytes zero n h = omega arith
from_le_bytes-to_le_bytes (suc w) n h =
    omega (arith, from_le_bytes-to_le_bytes w (n / 256) (omega (arith, pow-suc 256 w)))

abbrev pub try_le : List ℕ → Option ℕ
try_le bs = if length bs == 32 then some (from_le_bytes bs) else none

pub try_le-from_le_bytes : (bs : List ℕ) → length bs ≡ 32 → try_le bs ≡ some (from_le_bytes bs)
try_le-from_le_bytes bs h = ground arith

pub try_le_of_ne : (bs : List ℕ) → length bs ≢ 32 → try_le bs ≡ none
try_le_of_ne bs h = ground arith

pub try_le-to_le_bytes : (k : ℕ) → k < 256 ^ 32 → try_le (to_le_bytes 32 k) ≡ some k
try_le-to_le_bytes k h = ground (arith, length-to_le_bytes 32 k, from_le_bytes-to_le_bytes 32 k h)

-- Keys as their little-endian bytes: the interface can be met.
unfoldable pub le_keys : PubkeyBytes
le_keys = record {
  try_from = try_le;
  new_from_array = from_le_bytes;
  to_bytes = to_le_bytes 32;
  try_from_of_ne = try_le_of_ne;
  try_from-new_from_array = try_le-from_le_bytes;
  length-to_bytes = length-to_le_bytes 32;
  try_from-to_bytes = try_le-to_le_bytes;
}
