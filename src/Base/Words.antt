-- ===== src/Base/Words.antt =====
-- Machine words as native numbers: `u8`, `u32`, `u64`, and `usize` of 64 bits.
use Prim.Native.Nat.{ℕ, ◌+◌, ◌*◌, ◌/◌, ◌%◌, ◌^◌, ◌<◌}
use mathlib.Core.Path.{◌≡◌, ap}
use mathlib.Core.List.{List, [], ◌∷◌, ◌++◌}
use mathlib.Core.Option.{Option, none, some}
use native.Mathlib.Omega.{arith}
use native.Mathlib.Nat.{pow-suc}
use barebone_kernel.Base.Tests.{ltb, if◌then◌else◌}
use barebone_kernel.Base.Lists.{length, All}

abbrev pub Bytes : Type 0
Bytes = List ℕ

abbrev pub IsByte : ℕ → Type 0
IsByte b = b < 256

abbrev pub IsU32 : ℕ → Type 0
IsU32 v = v < 2 ^ 32

abbrev pub IsU64 : ℕ → Type 0
IsU64 v = v < 2 ^ 64

-- `a.checked_add(b)` and `a.checked_mul(b)` on 64 bits
abbrev pub checked_add : ℕ → ℕ → Option ℕ
checked_add a b = if ltb (a + b) (2 ^ 64) then some (a + b) else none

abbrev pub checked_mul : ℕ → ℕ → Option ℕ
checked_mul a b = if ltb (a * b) (2 ^ 64) then some (a * b) else none

-- Big-endian decoding, after the digits that `acc` holds.
abbrev pub be_digits : ℕ → Bytes → ℕ
be_digits acc [] = acc
be_digits acc (b ∷ bs) = be_digits (acc * 256 + b) bs

-- `u32::from_be_bytes` on four bytes, `u64::from_be_bytes` on eight
abbrev pub from_be_bytes : Bytes → ℕ
from_be_bytes bs = be_digits 0 bs

-- Little-endian decoding: `u64::from_le_bytes` on eight bytes
abbrev pub from_le_bytes : Bytes → ℕ
from_le_bytes [] = 0
from_le_bytes (b ∷ bs) = b + 256 * from_le_bytes bs

abbrev pub to_be_32 : ℕ → Bytes
to_be_32 v = v / 2 ^ 24 % 256 ∷ v / 2 ^ 16 % 256 ∷ v / 2 ^ 8 % 256 ∷ v % 256 ∷ []

-- `v.to_be_bytes()` on 64 bits, as two halves.
abbrev pub to_be_64 : ℕ → Bytes
to_be_64 v = to_be_32 (v / 2 ^ 32) ++ to_be_32 (v % 2 ^ 32)

pub be_digits-lt :
    (acc n : ℕ) (bs : Bytes) → All IsByte bs → acc < n → be_digits acc bs < n * 256 ^ length bs
be_digits-lt acc n [] h lt = omega arith
be_digits-lt acc n (b ∷ bs) h lt = omega (
  arith,
  be_digits-lt (acc * 256 + b) (n * 256) bs h.1 (omega arith),
  ap (λ (t : ℕ). n * t) (pow-suc 256 (length bs)),
)

pub from_be_bytes-to_be_32 : (v : ℕ) → IsU32 v → from_be_bytes (to_be_32 v) ≡ v
from_be_bytes-to_be_32 v h = omega arith

pub from_be_bytes-to_be_64 : (v : ℕ) → IsU64 v → from_be_bytes (to_be_64 v) ≡ v
from_be_bytes-to_be_64 v h = omega arith
