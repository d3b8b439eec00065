-- ===== src/Kernel/BootFrames.antt =====
-- kernel/src/memory/frame/boot_allocator.rs: the monotonic allocator of frames.
pub mod Ranges
pub mod Spec
pub mod Advance
pub mod Reserved
pub mod Step
pub mod Sound
mod Examples
use barebone_kernel.Base.{
  ℕ, zero, suc, ◌+◌, ◌-◌, Bool, true, false, Option, none, some, List, [], ◌∷◌, if◌then◌else◌, ◌==◌,
  leb, length, Result, ok, err, fault, out_of_fuel, expect, ◌>>=◌,
}
use barebone_kernel.Kernel.Memory.{
  PhysAddr, PhysRange, PhysFrame, from_start_size, overlaps, from_start, frame_range, align_up,
  align_down,
}

-- A range as the iterators of fdt/ yield it: `MemoryRange`, `MemoryReservation` and
-- `ReservedMemoryRange` have these two fields.
pub record Region : Type 0 where
  pub address : ℕ
  pub size : ℕ

-- `CurrentMemoryRange`
pub record CurrentMemoryRange : Type 0 where
  pub cursor : PhysAddr
  pub end : PhysAddr

-- `BootFrameAllocator`. `memory_ranges` is what that iterator has not yielded yet; `reservations` and
-- `reserved_memory` are all that the two iterators over the devicetree yield.
pub record BootFrameAllocator : Type 0 where
  pub reservations : List Region
  pub reserved_memory : List Region
  pub memory_ranges : List Region
  pub current : Option CurrentMemoryRange
  pub kernel : PhysRange
  pub dtb : PhysRange

pub data BootFrameAllocatorError : Type 0 where
  overlapping_memory_ranges : (first second : PhysRange) → BootFrameAllocatorError
  already_claimed : BootFrameAllocatorError

-- `fdt_range`; its conversions to `usize` cannot fail on 64 bits.
unfoldable pub fdt_range : {E : Type 0} → Region → Result PhysRange E
fdt_range r = expect (from_start_size r.address r.size)

-- The inner loop of `validate_memory_ranges`.
unfoldable pub check_against : PhysRange → List Region → Result (Unit {0}) BootFrameAllocatorError
check_against first [] = ok tt
check_against first (r ∷ rest) = fdt_range r >>= λ second.
    if overlaps first second
    then err (overlapping_memory_ranges first second)
    else check_against first rest

-- `validate_memory_ranges`; `index` stays below the number of ranges and cannot overflow.
unfoldable pub validate_memory_ranges : List Region → Result (Unit {0}) BootFrameAllocatorError
validate_memory_ranges [] = ok tt
validate_memory_ranges (r ∷ rest) =
    fdt_range r >>= λ first. check_against first rest >>= λ _. validate_memory_ranges rest

-- `BootFrameAllocator::claim`, with the static flag as its argument and as the first result.
unfoldable pub claim :
    Bool
    → (memory reservations reserved : List Region) → PhysRange
    → PhysRange
    → Bool × Result BootFrameAllocator BootFrameAllocatorError
claim claimed memory reservations reserved kernel dtb = elim (validate_memory_ranges memory) [
  | err e ↦ (claimed, err e)
  | fault x ↦ (claimed, fault x)
  | ok _ ↦ if claimed then (true, err already_claimed) else (
    true,
    ok (record {
      reservations = reservations;
      reserved_memory = reserved;
      memory_ranges = memory;
      current = none;
      kernel = kernel;
      dtb = dtb;
    }),
  )
]

-- A range of memory cut to whole frames, if it has one.
whole_frames : PhysRange → Option PhysAddr → Option CurrentMemoryRange
whole_frames range none = none
whole_frames range (some start) =
    let end = align_down range.end in
    if leb end start then none else some (record { cursor = start; end = end })

-- `advance_memory_range`: the new current range, `none` where the code returns false, and what is
-- left of the iterator.
unfoldable pub advance_memory_range :
    {E : Type 0} → List Region → Result (Option CurrentMemoryRange × List Region) E
unfolding whole_frames
advance_memory_range [] = ok (none, [])
advance_memory_range (r ∷ rest) = fdt_range r >>= λ range.
    elim (whole_frames range (align_up range.start)) [
      | none ↦ advance_memory_range rest
      | some c ↦ ok (some c, rest)
    ]

-- The loop over `fdt.memory_reservations()`, with what is tried behind it.
unfoldable pub first_reservation :
    {E : Type 0}
    → PhysRange
    → List Region
    → Result (Option PhysRange) E
    → Result (Option PhysRange) E
first_reservation candidate [] otherwise = otherwise
first_reservation candidate (r ∷ rest) otherwise =
    let later = first_reservation candidate rest otherwise in
    if r.size == 0
    then later
    else fdt_range r >>= λ range. if overlaps candidate range then ok (some range) else later

-- The loop over `fdt.reserved_memory_ranges()`.
unfoldable pub first_reserved : {E : Type 0} → PhysRange → List Region → Result (Option PhysRange) E
first_reserved candidate [] = ok none
first_reserved candidate (r ∷ rest) = fdt_range r >>= λ range.
    if overlaps candidate range then ok (some range) else first_reserved candidate rest

-- `overlapping_reservation`
unfoldable pub overlapping_reservation :
    {E : Type 0} → BootFrameAllocator → PhysRange → Result (Option PhysRange) E
overlapping_reservation a candidate =
    if overlaps candidate a.kernel
    then ok (some a.kernel)
    else if overlaps candidate a.dtb
    then ok (some a.dtb)
    else first_reservation candidate a.reservations (first_reserved candidate a.reserved_memory)

-- `self.current` after the cursor has moved to `next`.
abbrev pub moved : CurrentMemoryRange → PhysAddr → Option CurrentMemoryRange
moved c next = if leb c.end next then none else some (record { cursor = next; end = c.end })

-- How a round of the loop of `allocate` ends: another round, or a return.
pub data Round : Type 0 where
  again : BootFrameAllocator → Round
  returns : Option PhysFrame → BootFrameAllocator → Round

unfoldable pub skip : BootFrameAllocator → CurrentMemoryRange → Option PhysAddr → Round
skip a c none = again (record a { current = none })
skip a c (some next) = again (record a { current = moved c next })

unfoldable pub after_search :
    BootFrameAllocator → CurrentMemoryRange → PhysFrame → PhysRange → Option PhysRange → Round
unfolding skip
after_search a c frame range none = returns (some frame) (record a { current = moved c range.end })
after_search a c frame range (some reserved) = skip a c (align_up reserved.end)

-- A round from `let current = self.current?` on.
unfoldable pub try_candidate :
    {E : Type 0} → BootFrameAllocator → CurrentMemoryRange → Result Round E
unfolding after_search
try_candidate a c = expect (from_start c.cursor) >>= λ frame. frame_range frame >>= λ range.
    overlapping_reservation a range >>= λ found. ok (after_search a c frame range found)

-- A round where `self.current` was `none`, behind `advance_memory_range`.
unfoldable pub advanced :
    {E : Type 0} → BootFrameAllocator → Option CurrentMemoryRange × List Region → Result Round E
advanced a (none, rest) = ok (returns none (record a { memory_ranges = rest }))
advanced a (some c, rest) = try_candidate (record a { current = some c; memory_ranges = rest }) c

unfoldable pub from_current :
    {E : Type 0} → BootFrameAllocator → Option CurrentMemoryRange → Result Round E
unfolding advanced
from_current a (some c) = try_candidate a c
from_current a none = advance_memory_range a.memory_ranges >>= advanced a

-- One round of the loop of `allocate`.
unfoldable pub round : {E : Type 0} → BootFrameAllocator → Result Round E
unfolding from_current
round a = from_current a a.current

-- The loop of `allocate`.
unfoldable pub allocate_loop :
    {E : Type 0} → ℕ → BootFrameAllocator → Result (Option PhysFrame × BootFrameAllocator) E
allocate_loop zero a = fault out_of_fuel
allocate_loop (suc fuel) a =
    round a >>= λ r. elim r [ again a' ↦ allocate_loop fuel a' | returns f a' ↦ ok (f, a') ]

-- The bytes that the loop has still before it bound its rounds.
abbrev pub bytes_left : List Region → ℕ
bytes_left [] = 0
bytes_left (r ∷ rest) = suc (r.size + bytes_left rest)

abbrev pub current_left : Option CurrentMemoryRange → ℕ
current_left none = 0
current_left (some c) = suc (c.end - c.cursor)

abbrev pub left : BootFrameAllocator → ℕ
left a = current_left a.current + bytes_left a.memory_ranges

-- `BootFrameAllocator::allocate`
unfoldable pub allocate :
    {E : Type 0} → BootFrameAllocator → Result (Option PhysFrame × BootFrameAllocator) E
unfolding allocate_loop
allocate a = allocate_loop (suc (left a)) a
