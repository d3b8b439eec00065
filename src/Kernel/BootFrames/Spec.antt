-- ===== src/Kernel/BootFrames/Spec.antt =====
-- What the allocator promises, independently of its loops: the set of frames that are still free.
use barebone_kernel.Base.{
  ℕ, ◌+◌, ◌%◌, ◌≤◌, ◌<◌, ◌^◌, ◌≡◌, ◌⊎◌, List, [], ◌∷◌, Option, none, some, All,
}
use barebone_kernel.Kernel.Memory.{PhysRange}
use barebone_kernel.Kernel.BootFrames.{Region, CurrentMemoryRange, BootFrameAllocator}

-- The frame at `x` lies in whole between `start` and `end`.
abbrev pub FrameIn : ℕ → ℕ → ℕ → Type 0
FrameIn start end x = (x % 4096 ≡ 0) × (start ≤ x) × (x + 4096 ≤ end)

abbrev pub InRegions : List Region → ℕ → Type 0
InRegions [] x = ⊥
InRegions (r ∷ rest) x = FrameIn r.address (r.address + r.size) x ⊎ InRegions rest x

abbrev pub InCurrent : Option CurrentMemoryRange → ℕ → Type 0
InCurrent none x = ⊥
InCurrent (some c) x = FrameIn c.cursor c.end x

-- The frame at `x` and a range share an address.
abbrev pub Meets : ℕ → PhysRange → Type 0
Meets x range = (x < range.end) × (range.start < x + 4096)

abbrev pub MeetsRegion : ℕ → Region → Type 0
MeetsRegion x r = (0 < r.size) × (x < r.address + r.size) × (r.address < x + 4096)

abbrev pub MeetsSome : ℕ → List Region → Type 0
MeetsSome x [] = ⊥
MeetsSome x (r ∷ rest) = MeetsRegion x r ⊎ MeetsSome x rest

-- The frame at `x` holds memory of the kernel, of the devicetree or of a reservation.
abbrev pub Reserved : BootFrameAllocator → ℕ → Type 0
Reserved a x =
    Meets x a.kernel ⊎ Meets x a.dtb ⊎ MeetsSome x a.reservations ⊎ MeetsSome x a.reserved_memory

-- The frame at `x` is memory that the allocator has not passed yet.
abbrev pub Ahead : BootFrameAllocator → ℕ → Type 0
Ahead a x = InCurrent a.current x ⊎ InRegions a.memory_ranges x

abbrev pub Free : BootFrameAllocator → ℕ → Type 0
Free a x = Ahead a x × ¬ (Reserved a x)

-- A range that fdt/ accepts: not empty, with an end of 64 bits.
abbrev pub IsRegion : Region → Type 0
IsRegion r = (0 < r.size) × (r.address + r.size < 2 ^ 64)

-- A memory reservation may be empty.
abbrev pub IsReservation : Region → Type 0
IsReservation r = r.address + r.size < 2 ^ 64

abbrev pub IsPhysRange : PhysRange → Type 0
IsPhysRange r = (r.start < r.end) × (r.end < 2 ^ 64)

-- The cursor and the end are frame boundaries, with a frame between them.
abbrev pub IsCurrent : Option CurrentMemoryRange → Type 0
IsCurrent none = Unit
IsCurrent (some c) =
    (c.cursor % 4096 ≡ 0) × (c.end % 4096 ≡ 0) × (c.cursor < c.end) × (c.end < 2 ^ 64)

-- Each region lies before `start` or behind `end`.
abbrev pub ApartFrom : ℕ → ℕ → List Region → Type 0
ApartFrom start end [] = Unit
ApartFrom start end (r ∷ rest) =
    ((r.address + r.size ≤ start) ⊎ (end ≤ r.address)) × ApartFrom start end rest

abbrev pub PairwiseApart : List Region → Type 0
PairwiseApart [] = Unit
PairwiseApart (r ∷ rest) = ApartFrom r.address (r.address + r.size) rest × PairwiseApart rest

abbrev pub CurrentApart : Option CurrentMemoryRange → List Region → Type 0
CurrentApart none rest = Unit
CurrentApart (some c) rest = ApartFrom c.cursor c.end rest

pub record IsValid (a : BootFrameAllocator) : Type 0 where
  pub memory_are : All IsRegion a.memory_ranges
  pub reservations_are : All IsReservation a.reservations
  pub reserved_are : All IsRegion a.reserved_memory
  pub kernel_is : IsPhysRange a.kernel
  pub dtb_is : IsPhysRange a.dtb
  pub current_is : IsCurrent a.current
  pub memory_apart : PairwiseApart a.memory_ranges
  pub current_apart : CurrentApart a.current a.memory_ranges
