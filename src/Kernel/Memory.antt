-- ===== src/Kernel/Memory.antt =====
-- kernel/src/memory.rs, memory/address.rs and memory/frame.rs: addresses, ranges and frames.
pub mod Align
mod Examples
use barebone_kernel.Base.{
  ℕ, ◌+◌, ◌-◌, ◌%◌, Bool, ◌&&◌, not, Option, none, some, if◌then◌else◌, ◌==◌, leb, ltb, checked_add,
  Result, expect,
}
use mathlib.Core.Option

-- `PhysAddr` and `VirtAddr` wrap a `usize`.
abbrev pub PhysAddr : Type 0
PhysAddr = ℕ

abbrev pub VirtAddr : Type 0
VirtAddr = ℕ

pub record PhysRange : Type 0 where
  pub start : PhysAddr
  pub end : PhysAddr

abbrev pub range_new : PhysAddr → PhysAddr → Option PhysRange
range_new start end = if leb end start then none else some (record { start = start; end = end })

range_to : PhysAddr → Option PhysAddr → Option PhysRange
range_to start none = none
range_to start (some end) = range_new start end

-- `PhysRange::from_start_size`
unfoldable pub from_start_size : PhysAddr → ℕ → Option PhysRange
unfolding range_to
from_start_size start size = if size == 0 then none else range_to start (checked_add start size)

abbrev pub overlaps : PhysRange → PhysRange → Bool
overlaps a b = ltb a.start b.end && ltb b.start a.end

pub record VirtRange : Type 0 where
  pub start : VirtAddr
  pub end : VirtAddr

abbrev pub frame_size : ℕ
frame_size = 4096

pub record PhysFrame : Type 0 where
  pub start : PhysAddr

-- `PhysFrame::from_start`
unfoldable pub from_start : PhysAddr → Option PhysFrame
from_start start =
    if not (start % frame_size == 0)
    then none
    else Option.map (λ end. record { start = start }) (checked_add start frame_size)

-- `PhysFrame::range`, with its `expect`
unfoldable pub frame_range : {E : Type 0} → PhysFrame → Result PhysRange E
unfolding from_start_size
frame_range f = expect (from_start_size f.start frame_size)

unfoldable pub checked_sub : ℕ → ℕ → Option ℕ
checked_sub a b = if leb b a then some (a - b) else none

add_adjustment : PhysAddr → Option ℕ → Option PhysAddr
add_adjustment address none = none
add_adjustment address (some adjustment) = checked_add address adjustment

unfoldable pub align_up : PhysAddr → Option PhysAddr
unfolding checked_sub add_adjustment
align_up address =
    let remainder = address % frame_size in
    if remainder == 0
    then some address
    else add_adjustment address (checked_sub frame_size remainder)

unfoldable pub align_down : PhysAddr → PhysAddr
align_down address = address - address % frame_size
