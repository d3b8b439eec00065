-- ===== src/Kernel/Allocator.antt =====
-- kernel/src/memory/allocator.rs: the gate in front of the heap, with the interrupt guard of
-- arch/riscv64/interrupt.rs. A null pointer is the address zero.
pub mod Gate
pub mod Runs
mod Examples
use barebone_kernel.Base.{
  ℕ, Bool, true, false, if◌then◌else◌, Option, none, some, Result, ok, err, fault,
}
use barebone_kernel.Kernel.Memory.{VirtAddr}
use barebone_kernel.Kernel.Heap.{HeapBacking, HeapError, HeapM, KernelHeap, Layout, allocate}

pub data AllocatorInitError : Type 0 where
  busy already_initialized : AllocatorInitError

pub data MemoryAccessError : Type 0 where
  busy not_initialized : MemoryAccessError

-- `MemoryState`: paging and frames are the backing that the heap borrows.
pub record MemoryState (B : Type 0) : Type 0 where
  pub heap : KernelHeap
  pub backing : B

-- `KernelAllocator`, and whether the hart takes interrupts.
pub record KernelAllocator (B : Type 0) : Type 0 where
  pub interrupts : Bool
  pub busy : Bool
  pub state : Option (MemoryState B)

-- What `unwrap_or` makes of a gate that is held.
abbrev access_result :
    {R : Type 0} → Option (Result R MemoryAccessError) → Result R MemoryAccessError
access_result none = err MemoryAccessError.busy
access_result (some r) = r

abbrev init_result :
    Option (Result (Unit {0}) AllocatorInitError) → Result (Unit {0}) AllocatorInitError
init_result none = err AllocatorInitError.busy
init_result (some r) = r

abbrev alloc_result : Option (Result VirtAddr (Unit {0})) → Result VirtAddr (Unit {0})
alloc_result none = ok 0
alloc_result (some r) = r

module _ {B : Type 0} where
  -- What an operation meets, which holds the gate with interrupts disabled.
  abbrev pub held : KernelAllocator B → KernelAllocator B
  held k = record { interrupts = false; busy = true; state = k.state }

  -- Both guards are dropped: the gate opens, and interrupts are as they were.
  abbrev pub released : {R : Type 0} → Bool → R × KernelAllocator B → Option R × KernelAllocator B
  released was (r, k) = (some r, record { interrupts = was; busy = false; state = k.state })

  -- `with_state`
  abbrev pub with_state :
      {R : Type 0}
      → (KernelAllocator B → R × KernelAllocator B)
      → KernelAllocator B
      → Option R × KernelAllocator B
  with_state operation k = if k.busy then (none, k) else released k.interrupts (operation (held k))

  -- `with_paging` behind the gate.
  abbrev pub on_paging :
      {R : Type 0}
      → (B → R × B)
      → Option (MemoryState B)
      → KernelAllocator B
      → Result R MemoryAccessError × KernelAllocator B
  on_paging operation none k = (err not_initialized, k)
  on_paging operation (some s) k =
      let (r, b) = operation s.backing in
      (ok r, record k { state = some (record s { backing = b }) })

  unfoldable pub with_paging :
      {R : Type 0}
      → (B → R × B)
      → KernelAllocator B
      → Result R MemoryAccessError × KernelAllocator B
  with_paging operation k =
      let (o, k') = with_state (λ h. on_paging operation h.state h) k in (access_result o, k')

  -- `initialize` behind the gate.
  abbrev pub install :
      MemoryState B
      → Option (MemoryState B)
      → KernelAllocator B
      → Result (Unit {0}) AllocatorInitError × KernelAllocator B
  install s none k = (ok tt, record k { state = some s })
  install s (some old) k = (err already_initialized, k)

  unfoldable pub initialize :
      KernelHeap → B → KernelAllocator B → Result (Unit {0}) AllocatorInitError × KernelAllocator B
  initialize heap backing k =
      let (o, k') =
        with_state (λ h. install (record { heap = heap; backing = backing }) h.state h) k in
      (init_result o, k')

module _ {B E : Type 0} (source : HeapBacking B E) where
  -- `.map_or(null_mut(), ..)` on what the heap returned, and the state that it left.
  abbrev pub pointer :
      KernelAllocator B → HeapM B E VirtAddr → Result VirtAddr (Unit {0}) × KernelAllocator B
  pointer k (ok address, (h, b)) =
      (ok address, record k { state = some (record { heap = h; backing = b }) })
  pointer k (err e, (h, b)) = (ok 0, record k { state = some (record { heap = h; backing = b }) })
  pointer k (fault x, (h, b)) =
      (fault x, record k { state = some (record { heap = h; backing = b }) })

  abbrev pub alloc_held :
      Layout
      → Option (MemoryState B)
      → KernelAllocator B
      → Result VirtAddr (Unit {0}) × KernelAllocator B
  alloc_held layout none k = (ok 0, k)
  alloc_held layout (some s) k = pointer k (allocate source layout s.heap s.backing)

  -- `GlobalAlloc::alloc`
  unfoldable pub alloc : Layout → KernelAllocator B → Result VirtAddr (Unit {0}) × KernelAllocator B
  alloc layout k =
      let (o, k') = with_state (λ h. alloc_held layout h.state h) k in (alloc_result o, k')
