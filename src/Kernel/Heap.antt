-- ===== src/Kernel/Heap.antt =====
-- kernel/src/memory/heap.rs: the heap that grows downward and backs its pages before it gives them out.
pub mod Spec
pub mod Sound
pub mod Blocks
mod Examples
use barebone_kernel.Base.{
  ℕ, zero, suc, ◌-◌, ◌%◌, Bool, true, false, not, ◌||◌, Option, none, some, ◌==◌, leb, ltb,
  if◌then◌else◌, ◌⊎◌, inl, inr, Result, ok, err, fault, out_of_fuel,
}
use barebone_kernel.Kernel.Memory.{VirtAddr, VirtRange, frame_size, checked_sub}

-- `HeapBacking`: whether one page is backed, and the backing behind that.
pub record HeapBacking (B E : Type 0) : Type 0 where
  pub map_page : B → VirtAddr → (Unit {0} ⊎ E) × B

pub data HeapError (E : Type 0) : Type 0 where
  invalid_range : VirtRange → HeapError E
  zero_sized_allocation : HeapError E
  exhausted : HeapError E
  backing : E → HeapError E

pub record KernelHeap : Type 0 where
  pub range : VirtRange
  pub cursor : VirtAddr
  pub mapped_start : VirtAddr

-- `core::alloc::Layout`
pub record Layout : Type 0 where
  pub size : ℕ
  pub align : ℕ

-- `address & !(align - 1)` for a power of two, as the alignment of a layout is one.
abbrev pub mask_down : VirtAddr → ℕ → VirtAddr
mask_down address align = address - address % align

-- An operation on `&mut self` and `&mut B` returns what it leaves of both.
abbrev pub HeapM : (B E A : Type 0) → Type 0
HeapM B E A = Result A (HeapError E) × (KernelHeap × B)

-- A round of `back_to` behind `checked_sub`; `next` is what the rounds behind it do.
backed :
    {B E : Type 0}
    → KernelHeap
    → VirtAddr
    → (Unit {0} ⊎ E) × B
    → (KernelHeap → B → HeapM B E (Unit {0}))
    → HeapM B E (Unit {0})
backed h page (inr e, b) next = (err (backing e), (h, b))
backed h page (inl _, b) next = next (record h { mapped_start = page }) b

module _ {B E : Type 0} (source : HeapBacking B E) where
  back_page :
      KernelHeap
      → B
      → Option VirtAddr
      → (KernelHeap → B → HeapM B E (Unit {0}))
      → HeapM B E (Unit {0})
  unfolding backed
  back_page h b none next = (err exhausted, (h, b))
  back_page h b (some page) next = backed h page (source.map_page b page) next

  -- The loop of `back_to`.
  unfoldable pub back_loop : ℕ → VirtAddr → KernelHeap → B → HeapM B E (Unit {0})
  unfolding back_page
  back_loop zero start h b = (fault out_of_fuel, (h, b))
  back_loop (suc fuel) start h b = elim (ltb start h.mapped_start) [
    | false ↦ (ok tt, (h, b))
    | true ↦
        back_page h b (checked_sub h.mapped_start frame_size) (λ h' b'. back_loop fuel start h' b')
  ]

  -- `KernelHeap::back_to`. A round lowers `mapped_start`, so the fuel is more than enough.
  unfoldable pub back_to : VirtAddr → KernelHeap → B → HeapM B E (Unit {0})
  back_to start h b = back_loop (suc h.mapped_start) start h b

  -- `new` behind `back_to`: the heap is dropped when that fails.
  unfoldable pub made : HeapM B E (Unit {0}) → Result KernelHeap (HeapError E) × B
  made (ok _, (h, b)) = (ok h, b)
  made (err e, (h, b)) = (err e, b)
  made (fault x, (h, b)) = (fault x, b)

  unfoldable pub first_page : VirtRange → B → Option VirtAddr → Result KernelHeap (HeapError E) × B
  unfolding made
  first_page range b none = (err (invalid_range range), b)
  first_page range b (some page) =
      made (back_to page (record { range = range; cursor = range.end; mapped_start = range.end }) b)

  -- `KernelHeap::new`
  unfoldable pub new : VirtRange → B → Result KernelHeap (HeapError E) × B
  unfolding first_page
  new range b =
      if range.start == 0
        || not (range.start % frame_size == 0)
        || not (range.end % frame_size == 0)
      then (err (invalid_range range), b)
      else first_page range b (checked_sub range.end frame_size)

  -- `allocate` behind `back_to`: the cursor moves on success only.
  unfoldable pub placed : VirtAddr → HeapM B E (Unit {0}) → HeapM B E VirtAddr
  placed address (ok _, (h, b)) = (ok address, (record h { cursor = address }, b))
  placed address (err e, (h, b)) = (err e, (h, b))
  placed address (fault x, (h, b)) = (fault x, (h, b))

  -- The candidate address, by `checked_sub`, the mask, the `filter` and `NonNull::new`.
  unfoldable pub candidate : KernelHeap → Layout → Option VirtAddr → Option VirtAddr
  candidate h layout none = none
  candidate h layout (some unaligned) =
      let address = mask_down unaligned layout.align in
      if ltb address h.range.start || address == 0 then none else some address

  unfoldable pub place : KernelHeap → B → Option VirtAddr → HeapM B E VirtAddr
  unfolding placed
  place h b none = (err exhausted, (h, b))
  place h b (some address) = placed address (back_to (mask_down address frame_size) h b)

  -- `KernelHeap::allocate`
  unfoldable pub allocate : Layout → KernelHeap → B → HeapM B E VirtAddr
  unfolding candidate place
  allocate layout h b =
      if layout.size == 0
      then (err zero_sized_allocation, (h, b))
      else place h b (candidate h layout (checked_sub h.cursor layout.size))
