-- ===== src/Kernel/Memory/Align.antt =====
-- The alignment helpers against their descriptions, and the ranges of frames.
use barebone_kernel.Base.{
  ℕ, ◌+◌, ◌-◌, ◌%◌, ◌≤◌, ◌<◌, ◌^◌, ◌≡◌, ◌⊎◌, inl, inr, arith, none, some, ok, IsU64, Bool-cases,
  ◌==◌, ltb,
}
use barebone_kernel.Kernel.Memory.{from_start_size, from_start, frame_range, align_up, align_down}

-- `up` is the least frame boundary that is not below `address`.
pub record IsAlignedUp (address up : ℕ) : Type 0 where
  pub not_below : address ≤ up
  pub aligned : up % 4096 ≡ 0
  pub least : up < address + 4096

-- On a 64-bit address `align_up` gives the least frame boundary not below it, and nothing exactly
-- where that boundary is no 64-bit address.
pub align_up-cases :
    (address : ℕ)
    → IsU64 address
    → ((up : ℕ) × (align_up address ≡ some up) × IsAlignedUp address up × IsU64 up)
      ⊎ (align_up address ≡ none) × (2 ^ 64 < address + 4096) × (0 < address % 4096)
unfolding align_up
align_up-cases address h = elim (Bool-cases (address % 4096 == 0)) [
  | inl here ↦ inl (address, ground arith, ground arith, h)
  | inr off ↦ elim (Bool-cases (ltb (address + (4096 - address % 4096)) (2 ^ 64))) [
    | inl fits ↦ inl (address + (4096 - address % 4096), ground arith, ground arith, ground arith)
    | inr big ↦ inr (ground arith, ground arith, ground arith)
  ]
]

pub align_down_lem :
    (address : ℕ)
    → (align_down address ≤ address)
      × (align_down address % 4096 ≡ 0)
      × (address < align_down address + 4096)
unfolding align_down
align_down_lem address = omega arith

pub from_start_size-some :
    (start size : ℕ)
    → 0 < size
    → start + size < 2 ^ 64
    → from_start_size start size ≡ some (record { start = start; end = start + size })
unfolding from_start_size
from_start_size-some start size h k = ground arith

pub from_start-some :
    (start : ℕ)
    → start % 4096 ≡ 0
    → start + 4096 < 2 ^ 64
    → from_start start ≡ some (record { start = start })
unfolding from_start
from_start-some start h k = ground arith

pub frame_range-ok :
    {E : Type 0} (start : ℕ)
    → start + 4096 < 2 ^ 64
    → frame_range {E = E} (record { start = start })
      ≡ ok (record { start = start; end = start + 4096 })
unfolding frame_range
frame_range-ok start k = ground arith
