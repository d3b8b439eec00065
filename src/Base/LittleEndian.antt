-- ===== src/Base/LittleEndian.antt =====
-- Little-endian digits, as `to_le_bytes` and `from_le_bytes` have them.
use Prim.Native.Nat.{ℕ, zero, suc, ◌+◌, ◌*◌, ◌/◌, ◌%◌, ◌^◌, ◌<◌}
use mathlib.Core.Path.{◌≡◌, refl}
use mathlib.Core.List.{[], ◌∷◌}
use native.Mathlib.Omega.{arith}
use native.Mathlib.Nat.{pow-suc}
use barebone_kernel.Base.Lists.{length, All}
use barebone_kernel.Base.Words.{Bytes, IsByte, from_le_bytes}

-- The `n` low bytes of a value, the lowest first.
abbrev pub to_le : ℕ → ℕ → Bytes
to_le zero v = []
to_le (suc n) v = v % 256 ∷ to_le n (v / 256)

pub from_le_bytes-to_le : (n v : ℕ) → v < 256 ^ n → from_le_bytes (to_le n v) ≡ v
from_le_bytes-to_le zero v h = omega arith
from_le_bytes-to_le (suc n) v h =
    omega (arith, from_le_bytes-to_le n (v / 256) (omega (arith, h, pow-suc 256 n)))

pub to_le-from_le_bytes : (bs : Bytes) → All IsByte bs → to_le (length bs) (from_le_bytes bs) ≡ bs
to_le-from_le_bytes [] h = refl
to_le-from_le_bytes (b ∷ bs) h =
    let low : (b + 256 * from_le_bytes bs) % 256 ≡ b = omega (arith, h.0) in
    let high : (b + 256 * from_le_bytes bs) / 256 ≡ from_le_bytes bs = omega (arith, h.0) in
    rw (low, high, to_le-from_le_bytes bs h.1) refl

pub from_le_bytes-lt : (bs : Bytes) → All IsByte bs → from_le_bytes bs < 256 ^ length bs
from_le_bytes-lt [] h = omega arith
from_le_bytes-lt (b ∷ bs) h = omega (arith, h.0, from_le_bytes-lt bs h.1, pow-suc 256 (length bs))
