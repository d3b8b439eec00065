-- ===== src/Kernel/Paging/Frames.antt =====
-- kernel/src/memory/frame.rs: `FrameAllocator` for `BootFrameAllocator`, as page tables use it.
use barebone_kernel.Base.{
  ℕ, ◌%◌, ◌≡◌, inl, inr, subst, List, [], ◌∷◌, Option, none, some, Result, ok, err, fault,
}
use barebone_kernel.Kernel.Memory.{PhysAddr, PhysFrame}
use barebone_kernel.Kernel.BootFrames.{Region, CurrentMemoryRange, BootFrameAllocator, allocate}
use barebone_kernel.Kernel.BootFrames.Spec.{IsValid, Free, InCurrent, InRegions}
use barebone_kernel.Kernel.BootFrames.Sound.{Allocated, allocate-Allocated}
use barebone_kernel.Kernel.Paging.{FrameAllocator}
use barebone_kernel.Kernel.Paging.Access.{IsAllocator}

-- A boot allocator that is valid, as `claim` makes it and as its operations leave it.
pub record ValidAllocator : Type 0 where
  pub allocator : BootFrameAllocator
  pub valid : IsValid allocator

abbrev pub FreeFrame : ValidAllocator → PhysAddr → Type 0
FreeFrame v x = Free v.allocator x

abbrev pub returned :
    (a : BootFrameAllocator) (r : Result (Option PhysFrame × BootFrameAllocator) (Unit {0}))
    → Allocated a r
    → Option PhysFrame × ValidAllocator
returned a (ok (some f, b)) h = (some f, record { allocator = b; valid = h.0 })
returned a (ok (none, b)) h = (none, record { allocator = b; valid = h.0 })
returned a (err e) h = absurd h
returned a (fault x) h = absurd h

-- The `allocate` of the trait, on an allocator that is valid.
abbrev pub boot_frames : FrameAllocator ValidAllocator
boot_frames = record {
  allocate = λ v.
      returned v.allocator (allocate v.allocator)
        (allocate-Allocated (Unit {0}) v.allocator v.valid);
}

InRegions-aligned : (rs : List Region) (x : ℕ) → InRegions rs x → x % 4096 ≡ 0
InRegions-aligned [] x h = absurd h
InRegions-aligned (r ∷ rs) x (inl here) = here.0
InRegions-aligned (r ∷ rs) x (inr behind) = InRegions-aligned rs x behind

InCurrent-aligned : (o : Option CurrentMemoryRange) (x : ℕ) → InCurrent o x → x % 4096 ≡ 0
InCurrent-aligned none x h = absurd h
InCurrent-aligned (some c) x h = h.0

Free-aligned : (a : BootFrameAllocator) (x : ℕ) → Free a x → x % 4096 ≡ 0
Free-aligned a x h = elim h.0 [
  | inl here ↦ InCurrent-aligned a.current x here
  | inr ahead ↦ InRegions-aligned a.memory_ranges x ahead
]

returned-fewer :
    (a : BootFrameAllocator) (r : Result (Option PhysFrame × BootFrameAllocator) (Unit {0}))
    (h : Allocated a r) (x : ℕ)
    → FreeFrame (returned a r h).1 x
    → Free a x
returned-fewer a (ok (some f, b)) h x free = (h.3 x).1 (inl free)
returned-fewer a (ok (none, b)) h x free = absurd (h.2 x free)
returned-fewer a (err e) h x free = absurd h
returned-fewer a (fault y) h x free = absurd h

returned-was_free :
    (a : BootFrameAllocator) (r : Result (Option PhysFrame × BootFrameAllocator) (Unit {0}))
    (h : Allocated a r) (frame : PhysFrame)
    → (returned a r h).0 ≡ some frame
    → Free a frame.start × (frame.start % 4096 ≡ 0) × ¬ (FreeFrame (returned a r h).1 frame.start)
returned-was_free a (ok (some f, b)) h frame e =
    subst (λ g. Free a g.start × (g.start % 4096 ≡ 0) × ¬ (Free b g.start)) (same_frame e)
      (h.1, Free-aligned a f.start h.1, h.2)
  where
    same_frame : (some f ≡ some frame) → f ≡ frame
    same_frame e = cc
returned-was_free a (ok (none, b)) h frame e = absurd (no_frame e)
  where
    no_frame : ¬ (none ≡ some frame)
    no_frame e = cc
returned-was_free a (err x) h frame e = absurd h
returned-was_free a (fault x) h frame e = absurd h

-- The boot allocator keeps the contract on which the page tables rely: a frame that it returns was free
-- and is aligned, is not free from then on, and no other frame becomes free.
pub boot_frames-IsAllocator : IsAllocator FreeFrame boot_frames
boot_frames-IsAllocator = record {
  fewer = λ v x free.
      returned-fewer v.allocator (allocate v.allocator)
        (allocate-Allocated (Unit {0}) v.allocator v.valid) x free;
  was_free = λ v frame e.
      returned-was_free v.allocator (allocate v.allocator)
        (allocate-Allocated (Unit {0}) v.allocator v.valid) frame e;
}
