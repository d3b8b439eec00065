-- ===== src/Kernel/Heap/Spec.antt =====
-- What the heap relies on from a backing, and what it promises.
use barebone_kernel.Base.{ℕ, ◌+◌, ◌%◌, ◌≤◌, ◌<◌, ◌≡◌, ◌⊎◌, ◌↔◌, inl, inr, Result, ok, err, fault}
use barebone_kernel.Kernel.Memory.{VirtAddr, VirtRange}
use barebone_kernel.Kernel.Heap.{
  HeapBacking, HeapError, invalid_range, zero_sized_allocation, exhausted, backing, KernelHeap,
  Layout, HeapM,
}

-- A request for the page at `p`: on success that page is mapped and no other changes, on failure
-- no page changes.
abbrev pub Backs :
    {B E : Type 0} → (B → VirtAddr → Type 0) → B → VirtAddr → (Unit {0} ⊎ E) × B → Type 0
Backs Mapped b p (inl _, b') = Mapped b' p × ((q : VirtAddr) → ¬ (q ≡ p) → Mapped b' q ↔ Mapped b q)
Backs Mapped b p (inr e, b') = (q : VirtAddr) → Mapped b' q ↔ Mapped b q

-- The contract of the trait `HeapBacking`, for a page that is aligned and not mapped.
pub record IsBacking {B E : Type 0} (source : HeapBacking B E) (Mapped : B → VirtAddr → Type 0)
    : Type 0 where
  pub map_page-Backs :
      (b : B) (p : VirtAddr)
      → p % 4096 ≡ 0
      → ¬ (Mapped b p)
      → Backs Mapped b p (source.map_page b p)

-- The pages of the reservation that are mapped are those from `mapped_start` on, and they cover all
-- blocks that were given out.
pub record IsHeap {B : Type 0} (Mapped : B → VirtAddr → Type 0) (h : KernelHeap) (b : B)
    : Type 0 where
  pub not_null : 0 < h.range.start
  pub start_aligned : h.range.start % 4096 ≡ 0
  pub end_aligned : h.range.end % 4096 ≡ 0
  pub mapped_aligned : h.mapped_start % 4096 ≡ 0
  pub inside : h.range.start ≤ h.mapped_start
  pub covered : h.mapped_start ≤ h.cursor
  pub bounded : h.cursor ≤ h.range.end
  pub mapped :
      (p : VirtAddr)
      → p % 4096 ≡ 0
      → h.range.start ≤ p
      → p < h.range.end
      → Mapped b p ↔ (h.mapped_start ≤ p)

-- A range that `new` accepts.
abbrev pub IsHeapRange : VirtRange → Type 0
IsHeapRange r = (0 < r.start) × (r.start % 4096 ≡ 0) × (r.end % 4096 ≡ 0)

-- No page of the reservation is mapped.
abbrev pub Unmapped : {B : Type 0} → (B → VirtAddr → Type 0) → VirtRange → B → Type 0
Unmapped Mapped r b = (p : VirtAddr) → p % 4096 ≡ 0 → r.start ≤ p → p < r.end → ¬ (Mapped b p)

-- What `new` may return.
abbrev pub NewHeap :
    {B E : Type 0}
    → (B → VirtAddr → Type 0)
    → VirtRange
    → Result KernelHeap (HeapError E) × B
    → Type 0
NewHeap Mapped r (ok h, b) =
    IsHeapRange r
    × IsHeap Mapped h b
    × (h.range ≡ r)
    × (h.cursor ≡ r.end)
    × (h.mapped_start + 4096 ≡ r.end)
NewHeap Mapped r (err (invalid_range s), b) = (s ≡ r) × ¬ (IsHeapRange r)
NewHeap Mapped r (err (backing e), b) = IsHeapRange r × Unmapped Mapped r b
NewHeap Mapped r (err zero_sized_allocation, b) = ⊥
NewHeap Mapped r (err exhausted, b) = ⊥
NewHeap Mapped r (fault x, b) = ⊥

-- Every page that shares an address with the block is mapped.
abbrev pub BlockMapped : {B : Type 0} → (B → VirtAddr → Type 0) → VirtAddr → ℕ → B → Type 0
BlockMapped Mapped address size b =
    (p : VirtAddr) → p % 4096 ≡ 0 → p < address + size → address < p + 4096 → Mapped b p

-- An aligned block of this layout fits between the start of the reservation and the cursor.
abbrev pub Fits : KernelHeap → Layout → VirtAddr → Type 0
Fits h l address =
    (address % l.align ≡ 0) × (h.range.start ≤ address) × (address + l.size ≤ h.cursor)

-- What `allocate` may return. A block lies below the cursor, and the cursor moves to its start, so it
-- meets no other block.
abbrev pub AllocatedBlock :
    {B E : Type 0} → (B → VirtAddr → Type 0) → KernelHeap → Layout → HeapM B E VirtAddr → Type 0
AllocatedBlock Mapped h l (ok address, (h', b')) =
    IsHeap Mapped h' b'
    × (h'.range ≡ h.range)
    × (h'.cursor ≡ address)
    × Fits h l address
    × BlockMapped Mapped address l.size b'
AllocatedBlock Mapped h l (err zero_sized_allocation, (h', b')) =
    IsHeap Mapped h' b' × (h' ≡ h) × (l.size ≡ 0)
AllocatedBlock Mapped h l (err exhausted, (h', b')) =
    IsHeap Mapped h' b' × (h' ≡ h) × ((address : VirtAddr) → ¬ (Fits h l address))
AllocatedBlock Mapped h l (err (backing e), (h', b')) =
    IsHeap Mapped h' b' × (h'.range ≡ h.range) × (h'.cursor ≡ h.cursor)
AllocatedBlock Mapped h l (err (invalid_range r), (h', b')) = ⊥
AllocatedBlock Mapped h l (fault x, (h', b')) = ⊥
