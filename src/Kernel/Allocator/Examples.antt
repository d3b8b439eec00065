-- ===== src/Kernel/Allocator/Examples.antt =====
-- A machine with a small heap behind the gate, and the theorems there.
use barebone_kernel.Base.{◌≡◌, inr, refl, arith, List, [], ◌∷◌, true, false, some}
use barebone_kernel.Kernel.Memory.{VirtAddr, checked_sub}
use barebone_kernel.Kernel.Heap.{
  HeapBacking, KernelHeap, allocate, candidate, place, placed, back_to, back_loop,
}
use barebone_kernel.Kernel.Heap.Spec.{IsBacking, IsHeap}
use barebone_kernel.Kernel.Allocator.{KernelAllocator, with_paging, alloc}
use barebone_kernel.Kernel.Allocator.Gate.{IsReady, AllocatedOrNull, alloc-AllocatedOrNull}
use barebone_kernel.Kernel.Allocator.Runs.{
  Block, Run, start, gave, refused, accessed, ServedBy, Run-ServedBy,
}

-- A backing that refuses every page.
abbrev no_pages : HeapBacking (Unit {0}) (Unit {0})
no_pages = record { map_page = λ b p. (inr tt, b) }

-- The last page of the reservation is mapped from the start.
abbrev Last : Unit {0} → VirtAddr → Type 0
Last b p = p ≡ 0x4000

no_pages-IsBacking : IsBacking no_pages Last
no_pages-IsBacking = record { map_page-Backs = λ b p aligned fresh q. ((λ m. m), λ m. m) }

abbrev one_page : KernelHeap
one_page = record {
  range = record { start = 0x1000; end = 0x5000 };
  cursor = 0x5000;
  mapped_start = 0x4000;
}

one_page-IsHeap : IsHeap Last one_page tt
one_page-IsHeap = record {
  not_null = omega arith;
  start_aligned = omega arith;
  end_aligned = omega arith;
  mapped_aligned = omega arith;
  inside = omega arith;
  covered = omega arith;
  bounded = omega arith;
  mapped = λ p aligned low high. ((λ m. omega (arith, m)), λ m. omega (arith, m, aligned, high));
}

abbrev ready : KernelAllocator (Unit {0})
ready = record {
  interrupts = true;
  busy = false;
  state = some (record { heap = one_page; backing = tt });
}

alloc-AllocatedOrNull_example :
    AllocatedOrNull no_pages Last ready
      (record { size = 16; align = 8 })
      (alloc no_pages (record { size = 16; align = 8 }) ready)
alloc-AllocatedOrNull_example =
    alloc-AllocatedOrNull no_pages Last no_pages-IsBacking (record { size = 16; align = 8 }) ready
      (refl, one_page-IsHeap)

-- The allocator with the cursor of its heap moved.
abbrev with_cursor : VirtAddr → KernelAllocator (Unit {0})
with_cursor c = record {
  interrupts = true;
  busy = false;
  state = some (record { heap = record one_page { cursor = c }; backing = tt });
}

-- Two blocks, an access to the backing between them, and at last a request that does not fit.
abbrev two_blocks : List Block
two_blocks =
    record { address = 0x4fe0; layout = record { size = 5; align = 16 } }
    ∷ record { address = 0x4ff0; layout = record { size = 16; align = 8 } }
    ∷ []

two_blocks-Run : Run no_pages Last (Unit {0}) ready two_blocks (with_cursor 0x4fe0)
unfolding alloc with_paging allocate candidate place placed back_to back_loop checked_sub
two_blocks-Run =
    refused
      (gave
        (accessed (gave start (record { size = 16; align = 8 }) 0x4ff0 (omega arith) refl)
          (λ b. (tt, b)) (λ b p. ((λ m. m), λ m. m)) refl)
        (record { size = 5; align = 16 }) 0x4fe0 (omega arith) refl)
      (record { size = 0x5000; align = 8 }) refl

Run-ServedBy_example :
    IsReady no_pages Last (with_cursor 0x4fe0)
    × ServedBy no_pages Last two_blocks ready.state (with_cursor 0x4fe0).state
Run-ServedBy_example =
    Run-ServedBy no_pages Last no_pages-IsBacking (Unit {0}) ready (with_cursor 0x4fe0) two_blocks
      (refl, one_page-IsHeap) two_blocks-Run
