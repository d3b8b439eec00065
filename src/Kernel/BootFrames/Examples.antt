-- ===== src/Kernel/BootFrames/Examples.antt =====
-- A machine with two ranges of memory, and the theorems there.
use barebone_kernel.Base.{ℕ, ◌≡◌, ◌++◌, inr, refl, arith, List, [], ◌∷◌, none, some, ok, err, false}
use barebone_kernel.Kernel.Memory.{
  PhysRange, from_start_size, from_start, frame_range, align_up, align_down,
}
use barebone_kernel.Kernel.BootFrames.{
  Region, BootFrameAllocator, overlapping_memory_ranges, validate_memory_ranges, check_against,
  claim, fdt_range, allocate, allocate_loop, round, from_current, advanced, advance_memory_range,
  try_candidate, after_search, skip, overlapping_reservation, first_reservation, first_reserved,
}
use barebone_kernel.Kernel.BootFrames.Spec.{IsValid, PairwiseApart}
use barebone_kernel.Kernel.BootFrames.Sound.{
  Allocated, allocate-Allocated, start, step, Ran, Run-Ran,
}
use barebone_kernel.Kernel.BootFrames.Ranges.{
  Checked, Claimed, Usable, validate_memory_ranges-Checked, claim-Claimed,
}

abbrev region : ℕ → ℕ → Region
region a s = record { address = a; size = s }

abbrev range : ℕ → ℕ → PhysRange
range a b = record { start = a; end = b }

-- The first range holds the kernel and the devicetree; the second has one frame, which is free, and
-- one that a reservation meets.
abbrev memory : List Region
memory = region 0x8000_0800 0x2800 ∷ region 0x9000_0000 0x2000 ∷ []

abbrev machine : BootFrameAllocator
machine = record {
  reservations = region 0x9000_0f00 0x80 ∷ region 0 0 ∷ [];
  reserved_memory = region 0xA000_0000 0x1000 ∷ [];
  memory_ranges = memory;
  current = none;
  kernel = range 0x8000_1000 0x8000_1800;
  dtb = range 0x8000_2010 0x8000_2020;
}

abbrev behind : BootFrameAllocator
behind = record {
  reservations = region 0x9000_0f00 0x80 ∷ region 0 0 ∷ [];
  reserved_memory = region 0xA000_0000 0x1000 ∷ [];
  memory_ranges = [];
  current = none;
  kernel = range 0x8000_1000 0x8000_1800;
  dtb = range 0x8000_2010 0x8000_2020;
}

pub machine-IsValid : IsValid machine
machine-IsValid = record {
  memory_are = omega arith;
  reservations_are = omega arith;
  reserved_are = omega arith;
  kernel_is = omega arith;
  dtb_is = omega arith;
  current_is = tt;
  memory_apart = ((inr (omega arith), tt), (tt, tt));
  current_apart = tt;
}

allocates : allocate {E = Unit} machine ≡ ok (some (record { start = 0x9000_1000 }), behind)
unfolding allocate allocate_loop round from_current advanced advance_memory_range fdt_range
    try_candidate after_search skip overlapping_reservation first_reservation first_reserved
    from_start_size from_start frame_range align_up align_down
allocates = refl

allocate-Allocated_example : Allocated {E = Unit} machine (allocate machine)
allocate-Allocated_example = allocate-Allocated Unit machine machine-IsValid

Run-Ran_example : Ran machine (0x9000_1000 ∷ []) behind
Run-Ran_example =
    Run-Ran machine behind (0x9000_1000 ∷ []) machine-IsValid
      (step start (record { start = 0x9000_1000 }) behind allocates)

overlapping :
    validate_memory_ranges (region 0 0x1000 ∷ memory ++ region 0x9000_1fff 1 ∷ [])
    ≡ err
        (overlapping_memory_ranges (range 0x9000_0000 0x9000_2000) (range 0x9000_1fff 0x9000_2000))
unfolding validate_memory_ranges check_against fdt_range from_start_size
overlapping = refl

validate_memory_ranges-Checked_example :
    Checked (PairwiseApart memory) memory (validate_memory_ranges memory)
validate_memory_ranges-Checked_example = validate_memory_ranges-Checked memory (omega arith)

claim-Claimed_example :
    Claimed false memory
      (Usable memory [] [] (range 0x8000_1000 0x8000_1800) (range 0x8000_2010 0x8000_2020))
      (claim false memory [] [] (range 0x8000_1000 0x8000_1800) (range 0x8000_2010 0x8000_2020))
claim-Claimed_example =
    claim-Claimed false memory [] [] (range 0x8000_1000 0x8000_1800) (range 0x8000_2010 0x8000_2020)
      (omega arith) tt tt (omega arith) (omega arith)
