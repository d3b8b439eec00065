-- ===== src/Kernel/Allocator/Runs.antt =====
-- Runs of the global allocator: allocations, and accesses to the backing between them.
use barebone_kernel.Base.{
  ℕ, ◌+◌, ◌%◌, ◌≤◌, ◌<◌, ◌≡◌, ◌⊎◌, ◌↔◌, inl, inr, refl, ap, ◌∙◌, subst, arith, List, [], ◌∷◌, All,
  false, Option, none, some, Result, ok,
}
use barebone_kernel.Kernel.Memory.{VirtAddr}
use barebone_kernel.Kernel.Heap.{HeapBacking, KernelHeap, Layout}
use barebone_kernel.Kernel.Heap.Spec.{IsBacking, IsHeap, BlockMapped}
use barebone_kernel.Kernel.Allocator.{
  MemoryAccessError, MemoryState, KernelAllocator, held, on_paging, with_paging, alloc,
}
use barebone_kernel.Kernel.Allocator.Gate.{
  HoldsHeap, IsReady, Given, AllocatedOrNull, alloc-AllocatedOrNull,
}

-- A block that was given out.
pub record Block : Type 0 where
  pub address : VirtAddr
  pub layout : Layout

-- Two blocks that share no address.
abbrev pub BlocksApart : Block → Block → Type 0
BlocksApart x y = (x.address + x.layout.size ≤ y.address) ⊎ (y.address + y.layout.size ≤ x.address)

abbrev pub AllApart : List Block → Type 0
AllApart [] = Unit
AllApart (x ∷ xs) = All (BlocksApart x) xs × AllApart xs

module _ {B E : Type 0} (source : HeapBacking B E) (Mapped : B → VirtAddr → Type 0) where
  -- An operation on the backing that keeps the pages of the heap.
  abbrev pub KeepsPages : {R : Type 0} → (B → R × B) → Type 0
  KeepsPages operation = (b : B) (p : VirtAddr) → Mapped (operation b).1 p ↔ Mapped b p

  -- A run of the allocator, with the blocks that it gave out, the last first.
  pub data Run (R : Type 0) (k : KernelAllocator B) : List Block → KernelAllocator B → Type 0 where
    start : Run R k [] k
    gave :
        {blocks : List Block} {k1 k2 : KernelAllocator B}
        → Run R k blocks k1
        → (l : Layout) (address : VirtAddr) → 0 < address
        → alloc source l k1 ≡ (ok address, k2)
        → Run R k (record { address = address; layout = l } ∷ blocks) k2
    refused :
        {blocks : List Block} {k1 k2 : KernelAllocator B}
        → Run R k blocks k1
        → (l : Layout) → alloc source l k1 ≡ (ok 0, k2)
        → Run R k blocks k2
    accessed :
        {blocks : List Block} {k1 k2 : KernelAllocator B} {r : Result R MemoryAccessError}
        → Run R k blocks k1
        → (operation : B → R × B) → KeepsPages operation
        → with_paging operation k1 ≡ (r, k2)
        → Run R k blocks k2

  -- A block between the two cursors, aligned, with all its pages mapped.
  abbrev pub Placed : MemoryState B → MemoryState B → Block → Type 0
  Placed s s' x =
      (x.address % x.layout.align ≡ 0)
      × (s'.heap.cursor ≤ x.address)
      × (x.address + x.layout.size ≤ s.heap.cursor)
      × BlockMapped Mapped x.address x.layout.size s'.backing

  -- What the blocks are of the heap that was installed; without a heap there are none.
  abbrev pub ServedBy : List Block → Option (MemoryState B) → Option (MemoryState B) → Type 0
  ServedBy blocks none none = blocks ≡ []
  ServedBy blocks none (some s') = ⊥
  ServedBy blocks (some s) none = ⊥
  ServedBy blocks (some s) (some s') =
      (s'.heap.range ≡ s.heap.range)
      × (s'.heap.cursor ≤ s.heap.cursor)
      × AllApart blocks
      × All (Placed s s') blocks

  -- Above the cursor of a valid heap everything is mapped.
  above_cursor :
      {h : KernelHeap} {b : B}
      → IsHeap Mapped h b
      → (address size : ℕ) → h.cursor ≤ address
      → address + size ≤ h.range.end
      → BlockMapped Mapped address size b
  above_cursor {h} {b} v address size low high p aligned below behind =
      let at_least : h.mapped_start ≤ p =
        omega (arith, v.covered, v.mapped_aligned, aligned, behind, low) in
      (v.mapped p aligned (omega (arith, at_least, v.inside)) (omega (arith, below, high))).1
        at_least

  still-Placed :
      (s s1 s2 : MemoryState B) (blocks : List Block)
      → IsHeap Mapped s2.heap s2.backing
      → s2.heap.cursor ≤ s1.heap.cursor
      → s.heap.cursor ≤ s2.heap.range.end
      → All (Placed s s1) blocks
      → All (Placed s s2) blocks
  still-Placed s s1 s2 [] v lower bounded h = tt
  still-Placed s s1 s2 (x ∷ xs) v lower bounded ((aligned, low, high, mapped), h) =
      let low2 : s2.heap.cursor ≤ x.address = omega (arith, lower, low) in
      (
        (
          aligned,
          low2,
          high,
          above_cursor v x.address x.layout.size low2 (omega (arith, high, bounded)),
        ),
        still-Placed s s1 s2 xs v lower bounded h,
      )

  -- A block below the cursor meets no block above it.
  below-All :
      (s s1 : MemoryState B) (x : Block) (blocks : List Block)
      → x.address + x.layout.size ≤ s1.heap.cursor
      → All (Placed s s1) blocks
      → All (BlocksApart x) blocks
  below-All s s1 x [] below h = tt
  below-All s s1 x (y ∷ ys) below (placed, h) =
      (inl (omega (arith, below, placed.1)), below-All s s1 x ys below h)

  end_kept :
      (s s1 s2 : MemoryState B)
      → IsHeap Mapped s.heap s.backing
      → s1.heap.range ≡ s.heap.range
      → s2.heap.range ≡ s1.heap.range
      → s.heap.cursor ≤ s2.heap.range.end
  end_kept s s1 s2 v same1 same2 =
      omega (arith, v.bounded, ap (λ r. r.end) same1, ap (λ r. r.end) same2)

  gave-ServedBy :
      (blocks : List Block) (l : Layout) (address : VirtAddr)
      → 0 < address
      → (o o1 o2 : Option (MemoryState B)) → HoldsHeap source Mapped o
      → HoldsHeap source Mapped o2
      → ServedBy blocks o o1
      → Given source Mapped o1 o2 l address
      → ServedBy (record { address = address; layout = l } ∷ blocks) o o2
  gave-ServedBy blocks l address some_address none none o2 v v2 h (null, _) =
      absurd (omega (arith, some_address, null))
  gave-ServedBy blocks l address some_address none (some s1) o2 v v2 h g = absurd h
  gave-ServedBy blocks l address some_address (some s) none o2 v v2 h g = absurd h
  gave-ServedBy blocks l address some_address (some s) (some s1) none v v2 h g = absurd g
  gave-ServedBy blocks l address some_address (some s) (some s1) (some s2) v v2 h
        (same, inl (null, cursor, why)) =
      absurd (omega (arith, some_address, null))
  gave-ServedBy blocks l address some_address (some s) (some s1) (some s2) v v2
        (range, lower, apart, placed) (same, inr ((aligned, inside, below), cursor, mapped)) =
      let x : Block = record { address = address; layout = l } in
      (
        same ∙ range,
        omega (arith, lower, below, cursor),
        (below-All s s1 x blocks below placed, apart),
        (
          (aligned, omega (arith, cursor), omega (arith, below, lower), mapped),
          still-Placed s s1 s2 blocks v2 (omega (arith, below, cursor))
              (end_kept s s1 s2 v range same) placed,
        ),
      )

  -- The range and the cursor of the heap are what they were.
  abbrev SameHeap : Option (MemoryState B) → Option (MemoryState B) → Type 0
  SameHeap none none = Unit
  SameHeap none (some t) = ⊥
  SameHeap (some s) none = ⊥
  SameHeap (some s) (some t) = (t.heap.range ≡ s.heap.range) × (t.heap.cursor ≡ s.heap.cursor)

  same-ServedBy :
      (blocks : List Block) (o o1 o2 : Option (MemoryState B))
      → HoldsHeap source Mapped o
      → HoldsHeap source Mapped o2
      → ServedBy blocks o o1
      → SameHeap o1 o2
      → ServedBy blocks o o2
  same-ServedBy blocks none none none v v2 h g = h
  same-ServedBy blocks none none (some s2) v v2 h g = absurd g
  same-ServedBy blocks none (some s1) o2 v v2 h g = absurd h
  same-ServedBy blocks (some s) none o2 v v2 h g = absurd h
  same-ServedBy blocks (some s) (some s1) none v v2 h g = absurd g
  same-ServedBy blocks (some s) (some s1) (some s2) v v2 (range, lower, apart, placed)
        (same, cursor) =
      (
        same ∙ range,
        omega (arith, lower, cursor),
        apart,
        still-Placed s s1 s2 blocks v2 (omega (arith, cursor)) (end_kept s s1 s2 v range same)
            placed,
      )

  refused-SameHeap :
      (l : Layout) (o1 o2 : Option (MemoryState B))
      → HoldsHeap source Mapped o2
      → Given source Mapped o1 o2 l 0
      → SameHeap o1 o2
  refused-SameHeap l none none v2 g = tt
  refused-SameHeap l none (some s2) v2 (null, gone) = absurd (ground (arith, gone))
  refused-SameHeap l (some s1) none v2 g = absurd g
  refused-SameHeap l (some s1) (some s2) v2 (same, inl (null, cursor, why)) = (same, cursor)
  refused-SameHeap l (some s1) (some s2) v2 (same, inr ((aligned, inside, below), cursor, mapped)) =
      absurd (omega (arith, cursor, v2.covered, v2.inside, v2.not_null))

  IsHeap-kept :
      {h : KernelHeap} {b b' : B}
      → IsHeap Mapped h b
      → ((p : VirtAddr) → Mapped b' p ↔ Mapped b p)
      → IsHeap Mapped h b'
  IsHeap-kept v kept = record {
    not_null = v.not_null;
    start_aligned = v.start_aligned;
    end_aligned = v.end_aligned;
    mapped_aligned = v.mapped_aligned;
    inside = v.inside;
    covered = v.covered;
    bounded = v.bounded;
    mapped = λ p aligned low high.
        let m = v.mapped p aligned low high in ((λ x. m.0 ((kept p).0 x)), λ x. (kept p).1 (m.1 x));
  }

  -- `with_paging` opens the gate again and keeps the heap.
  with_paging-SameHeap :
      {R : Type 0} (operation : B → R × B)
      → KeepsPages operation
      → (k : KernelAllocator B) → IsReady source Mapped k
      → IsReady source Mapped (with_paging operation k).1
        × SameHeap k.state (with_paging operation k).1.state
  unfolding with_paging
  with_paging-SameHeap operation keeps k (free, holds) = rw free (by_state k.state holds)
    where
      by_state :
          (o : Option (MemoryState B))
          → HoldsHeap source Mapped o
          → (let x = on_paging operation o (held (record k { state = o })) in
              IsReady source Mapped
                (record { interrupts = k.interrupts; busy = false; state = x.1.state })
              × SameHeap o x.1.state)
      by_state none holds = ((refl, tt), tt)
      by_state (some s) holds = ((refl, IsHeap-kept holds (keeps s.backing)), (refl, refl))

  -- From a gate that is open, over a backing that keeps its contract, however often the allocator is asked
  -- and its backing is accessed by operations that keep the heap's pages: the gate is open and the heap
  -- valid at the end, in the same reservation. The blocks that were given out are aligned, share no
  -- address with each other, lie between the last cursor and the first, and are all mapped still. Where
  -- no heap was installed none was given out.
  pub Run-ServedBy :
      IsBacking source Mapped
      → (R : Type 0) (k k' : KernelAllocator B) (blocks : List Block) → IsReady source Mapped k
      → Run R k blocks k'
      → IsReady source Mapped k' × ServedBy blocks k.state k'.state
  Run-ServedBy contract R k k' [] ready start = (ready, unmoved k.state ready.1)
    where
      unmoved : (o : Option (MemoryState B)) → HoldsHeap source Mapped o → ServedBy [] o o
      unmoved none v = refl
      unmoved (some s) v = (refl, omega arith, tt, tt)
  Run-ServedBy contract R k k2 _ ready
        (gave {blocks = blocks} {k1 = k1} run l address some_address e) =
      let (ready1, served) = Run-ServedBy contract R k k1 blocks ready run in
      let after : AllocatedOrNull source Mapped k1 l (ok address, k2) =
        subst (AllocatedOrNull source Mapped k1 l) e
          (alloc-AllocatedOrNull source Mapped contract l k1 ready1) in
      (
        after.0,
        gave-ServedBy blocks l address some_address k.state k1.state k2.state ready.1 after.0.1
            served after.2,
      )
  Run-ServedBy contract R k k2 blocks ready (refused {k1 = k1} run l e) =
      let (ready1, served) = Run-ServedBy contract R k k1 blocks ready run in
      let after : AllocatedOrNull source Mapped k1 l (ok 0, k2) =
        subst (AllocatedOrNull source Mapped k1 l) e
          (alloc-AllocatedOrNull source Mapped contract l k1 ready1) in
      (
        after.0,
        same-ServedBy blocks k.state k1.state k2.state ready.1 after.0.1 served
            (refused-SameHeap l k1.state k2.state after.0.1 after.2),
      )
  Run-ServedBy contract R k k2 blocks ready (accessed {k1 = k1} run operation keeps e) =
      let (ready1, served) = Run-ServedBy contract R k k1 blocks ready run in
      let after : IsReady source Mapped k2 × SameHeap k1.state k2.state =
        subst (λ x. IsReady source Mapped x.1 × SameHeap k1.state x.1.state) e
          (with_paging-SameHeap operation keeps k1 ready1) in
      (after.0, same-ServedBy blocks k.state k1.state k2.state ready.1 after.0.1 served after.1)
