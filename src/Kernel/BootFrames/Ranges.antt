-- ===== src/Kernel/BootFrames/Ranges.antt =====
-- `validate_memory_ranges` and `claim`: what they accept, and the allocator that they make.
use barebone_kernel.Base.{
  ℕ, ◌+◌, ◌↔◌, ◌>>=◌, ◌<◌, ◌≡◌, ◌⊎◌, inl, inr, refl, arith, List, [], ◌∷◌, none, All, Result, ok,
  err, fault, Bool, true, false, if◌then◌else◌,
}
use barebone_kernel.Kernel.Memory.{PhysRange, overlaps}
use barebone_kernel.Kernel.BootFrames.{
  Region, BootFrameAllocator, BootFrameAllocatorError, overlapping_memory_ranges, already_claimed,
  check_against, validate_memory_ranges, claim,
}
use barebone_kernel.Kernel.BootFrames.Spec.{
  ApartFrom, PairwiseApart, IsRegion, IsReservation, IsPhysRange, IsValid, Free, InRegions, Meets,
  MeetsSome,
}
use barebone_kernel.Kernel.BootFrames.Advance.{fdt_range-ok}

-- Two ranges share an address, and both are ranges that a list of regions names.
abbrev pub Names : PhysRange → List Region → Type 0
Names p [] = ⊥
Names p (r ∷ rest) = ((p.start ≡ r.address) × (p.end ≡ r.address + r.size)) ⊎ Names p rest

abbrev pub Clash : List Region → BootFrameAllocatorError → Type 0
Clash rs (overlapping_memory_ranges a b) =
    Names a rs × Names b rs × (a.start < b.end) × (b.start < a.end)
Clash rs already_claimed = ⊥

-- A check accepts `P`, and its error names two of the ranges that clash.
abbrev pub Checked : Type 0 → List Region → Result (Unit {0}) BootFrameAllocatorError → Type 0
Checked P rs (ok x) = P
Checked P rs (err e) = ¬ P × Clash rs e
Checked P rs (fault f) = ⊥

Names-skip :
    (r s : Region) (rest : List Region) (p : PhysRange)
    → Names p (r ∷ rest)
    → Names p (r ∷ s ∷ rest)
Names-skip r s rest p (inl here) = inl here
Names-skip r s rest p (inr later) = inr (inr later)

check_against-Checked :
    (r : Region) (rs : List Region)
    → IsRegion r
    → All IsRegion rs
    → Checked
        (ApartFrom r.address (r.address + r.size) rs)
        (r ∷ rs)
        (check_against (record { start = r.address; end = r.address + r.size }) rs)
unfolding check_against
check_against-Checked r [] h hs = tt
check_against-Checked r (s ∷ rest) h hs =
    let first : PhysRange = record { start = r.address; end = r.address + r.size } in
    let second : PhysRange = record { start = s.address; end = s.address + s.size } in
    rw (fdt_range-ok {E = BootFrameAllocatorError} s hs.0) (
      by_test (overlaps first second) refl (check_against first rest)
        (check_against-Checked r rest h hs.1))
  where
    by_test :
        (b : Bool)
        → overlaps
            (record { start = r.address; end = r.address + r.size })
            (record { start = s.address; end = s.address + s.size })
          ≡ b
        → (later : Result Unit BootFrameAllocatorError)
        → Checked (ApartFrom r.address (r.address + r.size) rest) (r ∷ rest) later
        → Checked (ApartFrom r.address (r.address + r.size) (s ∷ rest)) (r ∷ s ∷ rest) (
            if b
            then err (
                overlapping_memory_ranges
                  (record { start = r.address; end = r.address + r.size })
                  (record { start = s.address; end = s.address + s.size }))
            else later)
    by_test true hit later c = (
      (λ p. ground arith),
      (inl (refl, refl), inr (inl (refl, refl)), ground arith, ground arith),
    )
    by_test false miss (ok x) c = (ground arith, c)
    by_test false miss (err (overlapping_memory_ranges a b)) c =
        ((λ p. c.0 p.1), (Names-skip r s rest a c.1.0, Names-skip r s rest b c.1.1, c.1.2, c.1.3))
    by_test false miss (err already_claimed) c = absurd c.1
    by_test false miss (fault f) c = c

Checked-and :
    (P Q : Type 0) (r : Region) (rs : List Region) (x y : Result (Unit {0}) BootFrameAllocatorError)
    → Checked P (r ∷ rs) x
    → Checked Q rs y
    → Checked (P × Q) (r ∷ rs) (x >>= λ u. y)
Checked-and P Q r rs (ok u) (ok w) c d = (c, d)
Checked-and P Q r rs (ok u) (err (overlapping_memory_ranges a b)) c d =
    ((λ p. d.0 p.1), (inr d.1.0, inr d.1.1, d.1.2, d.1.3))
Checked-and P Q r rs (ok u) (err already_claimed) c d = absurd d.1
Checked-and P Q r rs (ok u) (fault f) c d = d
Checked-and P Q r rs (err e) y c d = ((λ p. c.0 p.0), c.1)
Checked-and P Q r rs (fault f) y c d = c

-- For ranges that fdt/ accepts, `validate_memory_ranges` accepts exactly those that do not overlap,
-- and its error names two of the ranges, which share an address; it never panics.
pub validate_memory_ranges-Checked :
    (rs : List Region) → All IsRegion rs → Checked (PairwiseApart rs) rs (validate_memory_ranges rs)
unfolding validate_memory_ranges
validate_memory_ranges-Checked [] h = tt
validate_memory_ranges-Checked (r ∷ rs) h = rw (fdt_range-ok {E = BootFrameAllocatorError} r h.0) (
    Checked-and (ApartFrom r.address (r.address + r.size) rs) (PairwiseApart rs) r rs
      (check_against (record { start = r.address; end = r.address + r.size }) rs)
      (validate_memory_ranges rs) (check_against-Checked r rs h.0 h.1)
      (validate_memory_ranges-Checked rs h.1))

-- The frame at `x` lies in whole in the memory, and meets neither the kernel, nor the devicetree, nor a
-- region that is reserved.
abbrev pub Usable :
    (memory reservations reserved : List Region) (kernel dtb : PhysRange) → ℕ → Type 0
Usable memory reservations reserved kernel dtb x =
    InRegions memory x
    × ¬ (Meets x kernel)
    × ¬ (Meets x dtb)
    × ¬ (MeetsSome x reservations)
    × ¬ (MeetsSome x reserved)

abbrev fresh :
    (memory reservations reserved : List Region) (kernel dtb : PhysRange) → BootFrameAllocator
fresh memory reservations reserved kernel dtb = record {
  reservations = reservations;
  reserved_memory = reserved;
  memory_ranges = memory;
  current = none;
  kernel = kernel;
  dtb = dtb;
}

fresh-Usable :
    (memory reservations reserved : List Region) (kernel dtb : PhysRange) (x : ℕ)
    → Free (fresh memory reservations reserved kernel dtb) x
      ↔ Usable memory reservations reserved kernel dtb x
fresh-Usable memory reservations reserved kernel dtb x = (free_usable, usable_free)
  where
    free_usable :
        Free (fresh memory reservations reserved kernel dtb) x
        → Usable memory reservations reserved kernel dtb x
    free_usable (inl here, apart) = absurd here
    free_usable (inr ahead, apart) = (
      ahead,
      (λ m. apart (inl m)),
      (λ m. apart (inr (inl m))),
      (λ m. apart (inr (inr (inl m)))),
      λ m. apart (inr (inr (inr m))),
    )

    usable_free :
        Usable memory reservations reserved kernel dtb x
        → Free (fresh memory reservations reserved kernel dtb) x
    usable_free (ahead, k, d, v, r) = (
      inr ahead,
      λ m. elim m [
        | inl a ↦ k a
        | inr (inl a) ↦ d a
        | inr (inr (inl a)) ↦ v a
        | inr (inr (inr a)) ↦ r a
      ],
    )

-- What `claim` guarantees, by its outcome and the flag before it; `Good` says which frames are usable.
abbrev pub Claimed :
    Bool
    → (memory : List Region) (Good : ℕ → Type 0)
    → Bool × Result BootFrameAllocator BootFrameAllocatorError
    → Type 0
Claimed before memory Good (after, ok a) =
    (before ≡ false)
    × (after ≡ true)
    × PairwiseApart memory
    × IsValid a
    × ((x : ℕ) → Free a x ↔ Good x)
Claimed before memory Good (after, err (overlapping_memory_ranges p q)) =
    (after ≡ before) × ¬ (PairwiseApart memory) × Clash memory (overlapping_memory_ranges p q)
Claimed before memory Good (after, err already_claimed) =
    (before ≡ true) × (after ≡ true) × PairwiseApart memory
Claimed before memory Good (after, fault f) = ⊥

-- For regions that fdt/ accepts, `claim` never panics. Where the flag was clear it sets the flag and makes
-- a valid allocator, whose free frames are just the frames of the memory that meet neither the kernel,
-- nor the devicetree, nor a reservation, nor a reserved range. It reports overlapping memory by two
-- ranges that overlap and leaves the flag as it was, and refuses a second claim only where the flag was
-- set.
pub claim-Claimed :
    (claimed : Bool) (memory reservations reserved : List Region) (kernel dtb : PhysRange)
    → All IsRegion memory
    → All IsReservation reservations
    → All IsRegion reserved
    → IsPhysRange kernel
    → IsPhysRange dtb
    → Claimed claimed memory
        (Usable memory reservations reserved kernel dtb)
        (claim claimed memory reservations reserved kernel dtb)
unfolding claim
claim-Claimed claimed memory reservations reserved kernel dtb hm hv hr hk hd =
    by_check claimed (validate_memory_ranges memory) (validate_memory_ranges-Checked memory hm)
  where
    by_check :
        (b : Bool) (x : Result (Unit {0}) BootFrameAllocatorError)
        → Checked (PairwiseApart memory) memory x
        → Claimed b memory (Usable memory reservations reserved kernel dtb) (elim x [
          | err e ↦ (b, err e)
          | fault f ↦ (b, fault f)
          | ok _ ↦
              if b
              then (true, err already_claimed)
              else (true, ok (fresh memory reservations reserved kernel dtb))
        ])
    by_check false (ok u) apart = (
      refl,
      refl,
      apart,
      record {
        memory_are = hm;
        reservations_are = hv;
        reserved_are = hr;
        kernel_is = hk;
        dtb_is = hd;
        current_is = tt;
        memory_apart = apart;
        current_apart = tt;
      },
      fresh-Usable memory reservations reserved kernel dtb,
    )
    by_check true (ok u) apart = (refl, refl, apart)
    by_check b (err (overlapping_memory_ranges p q)) c = (refl, c.0, c.1)
    by_check b (err already_claimed) c = absurd c.1
    by_check b (fault f) c = c
