-- ===== src/Kernel/Allocator/Gate.antt =====
-- The gate of the global allocator: it opens again behind an allocation.
use barebone_kernel.Base.{
  ◌≡◌, ◌⊎◌, inl, inr, refl, ap, false, Option, none, some, Result, ok, err, fault,
}
use barebone_kernel.Kernel.Memory.{VirtAddr}
use barebone_kernel.Kernel.Heap.{
  HeapBacking, HeapM, invalid_range, zero_sized_allocation, exhausted, backing, KernelHeap, Layout,
  allocate,
}
use barebone_kernel.Kernel.Heap.Spec.{IsBacking, IsHeap, AllocatedBlock, Fits, BlockMapped}
use barebone_kernel.Kernel.Heap.Blocks.{allocate-AllocatedBlock}
use barebone_kernel.Kernel.Allocator.{
  MemoryState, KernelAllocator, held, pointer, alloc_held, alloc,
}

module _ {B E : Type 0} (source : HeapBacking B E) (Mapped : B → VirtAddr → Type 0) where
  abbrev pub HoldsHeap : Option (MemoryState B) → Type 0
  HoldsHeap none = Unit
  HoldsHeap (some s) = IsHeap Mapped s.heap s.backing

  -- Nothing holds the gate, and an installed heap is valid.
  abbrev pub IsReady : KernelAllocator B → Type 0
  IsReady k = (k.busy ≡ false) × HoldsHeap k.state

  -- Why null is returned: nothing was asked for, nothing fits, or the backing failed.
  abbrev pub Refused : MemoryState B → Layout → Type 0
  Refused s l =
      (l.size ≡ 0)
      ⊎ ((address : VirtAddr) → ¬ (Fits s.heap l address))
      ⊎ ((e : E) × (left : KernelHeap × B) × (allocate source l s.heap s.backing
            ≡ (err (backing e), left)))

  -- A block of the heap that was installed; null leaves its cursor and has a reason.
  abbrev pub Given : Option (MemoryState B) → Option (MemoryState B) → Layout → VirtAddr → Type 0
  Given none s' l address = (address ≡ 0) × (s' ≡ none)
  Given (some s) none l address = ⊥
  Given (some s) (some s') l address =
      (s'.heap.range ≡ s.heap.range)
      × ((address ≡ 0) × (s'.heap.cursor ≡ s.heap.cursor) × Refused s l
          ⊎ Fits s.heap l address
            × (s'.heap.cursor ≡ address)
            × BlockMapped Mapped address l.size s'.backing)

  abbrev pub AllocatedOrNull :
      KernelAllocator B → Layout → Result VirtAddr (Unit {0}) × KernelAllocator B → Type 0
  AllocatedOrNull k l (ok address, k') =
      IsReady k' × (k'.interrupts ≡ k.interrupts) × Given k.state k'.state l address
  AllocatedOrNull k l (err e, k') = ⊥
  AllocatedOrNull k l (fault x, k') = ⊥

  -- Over a backing that keeps its contract `alloc` does not panic, and opens the gate again with interrupts
  -- as they were. It returns a block of the heap that is mapped in whole; or null, and no block is taken,
  -- where no heap is installed, the size is zero, no block fits, or the heap's allocation fails with an
  -- error of the backing.
  pub alloc-AllocatedOrNull :
      IsBacking source Mapped
      → (l : Layout) (k : KernelAllocator B) → IsReady k
      → AllocatedOrNull k l (alloc source l k)
  unfolding alloc
  alloc-AllocatedOrNull contract l k (free, holds) = rw free (by_state k.state holds)
    where
      by_heap :
          (s : MemoryState B) (x : HeapM B E VirtAddr)
          → allocate source l s.heap s.backing ≡ x
          → AllocatedBlock Mapped s.heap l x
          → (let y = pointer source (held (record k { state = some s })) x in
              AllocatedOrNull
                (record k { state = some s })
                l
                (y.0, record { interrupts = k.interrupts; busy = false; state = y.1.state }))
      by_heap s (ok address, (h, b)) same_run (valid, same, cursor, fits, mapped) =
          ((refl, valid), refl, (same, inr (fits, cursor, mapped)))
      by_heap s (err zero_sized_allocation, (h, b)) same_run (valid, same, empty) = (
        (refl, valid),
        refl,
        (ap (λ x. x.range) same, inl (refl, ap (λ x. x.cursor) same, inl empty)),
      )
      by_heap s (err exhausted, (h, b)) same_run (valid, same, full) = (
        (refl, valid),
        refl,
        (ap (λ x. x.range) same, inl (refl, ap (λ x. x.cursor) same, inr (inl full))),
      )
      by_heap s (err (backing e), (h, b)) same_run (valid, range, cursor) =
          ((refl, valid), refl, (range, inl (refl, cursor, inr (inr (e, (h, b), same_run)))))
      by_heap s (err (invalid_range r), (h, b)) same_run x = absurd x
      by_heap s (fault f, (h, b)) same_run x = x

      by_state :
          (o : Option (MemoryState B))
          → HoldsHeap o
          → (let x = alloc_held source l o (held (record k { state = o })) in
              AllocatedOrNull
                (record k { state = o })
                l
                (x.0, record { interrupts = k.interrupts; busy = false; state = x.1.state }))
      by_state none holds = ((refl, tt), refl, (refl, refl))
      by_state (some s) holds =
          by_heap s (allocate source l s.heap s.backing) refl
            (allocate-AllocatedBlock source Mapped contract l s.heap s.backing holds)
