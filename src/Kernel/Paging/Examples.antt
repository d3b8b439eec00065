-- ===== src/Kernel/Paging/Examples.antt =====
-- An address space over an allocator that counts, and the theorems there.
use barebone_kernel.Base.{
  true, ℕ, suc, ◌*◌, ◌%◌, ◌≤◌, ◌≡◌, inl, refl, subst, arith, [], some, Result, err,
}
use barebone_kernel.Kernel.Memory.{PhysFrame, PhysAddr, VirtAddr, VirtRange, from_start}
use barebone_kernel.Kernel.Paging.{
  FrameAccess, FrameAllocator, Machine, PagingError, page_already_mapped, new, read_write, user,
  zero_frame, read_page_table_entry, write_page_table_entry, allocate_page_table, link_table,
  next_table, page_table_entry, intermediate_frame, map_entry, map_page, map_range, read_execute,
}
use barebone_kernel.Kernel.Paging.Access.{IsAllocator, IsSpace, Followed, next_table-Followed}
use barebone_kernel.Kernel.Paging.Pages.{Mapped, map_page-Mapped}
use barebone_kernel.Kernel.Paging.Range.{RangeMapped, map_range-RangeMapped}
use barebone_kernel.Kernel.Paging.Runtime.{KernelPaging, map_user_page, map_heap_page}
use barebone_kernel.Kernel.Paging.Backing.{MappedIn, IsUserPage, map_user_page-MappedIn}
use barebone_kernel.Kernel.Paging.HeapPages.{
  KernelSpace, Backed, IsMapped, heap_backing, heap_backing-IsBacking,
}
use barebone_kernel.Kernel.Heap.Spec.{IsBacking}
use barebone_kernel.Kernel.Paging.Fresh.{IsNew, new-IsNew, blank-IsTree}

-- Each frame can be reached.
abbrev open_access : FrameAccess (Unit {0})
open_access = record { with_frame = λ a frame. (inl tt, a) }

-- The frames from a number on.
abbrev counter : FrameAllocator ℕ
counter = record { allocate = λ n. (some (record { start = n * 4096 }), suc n) }

abbrev From : ℕ → PhysAddr → Type 0
From n x = n * 4096 ≤ x

counter-IsAllocator : IsAllocator From counter
counter-IsAllocator = record {
  fewer = λ s x h. omega (arith, h);
  was_free = λ s frame e.
      subst (λ f. From s f.start × (f.start % 4096 ≡ 0) × ¬ (From (suc s) f.start)) (some_frame e)
        (omega arith, omega arith, λ h. omega (arith, h));
}
  where
    some_frame : {f g : PhysFrame} → some f ≡ some g → f ≡ g
    some_frame e = cc

abbrev space_root : PhysFrame
space_root = record { start = 0 }

-- The root is the frame 0, and no word of memory is set.
abbrev empty_space : Machine (Unit {0}) ℕ
empty_space = record { access = tt; frames = 1; memory = λ f i. 0 }

empty-IsSpace : IsSpace open_access counter From counter-IsAllocator 0 empty_space
empty-IsSpace = blank-IsTree 0 (λ f i. 0) (λ i. refl) (λ h. omega (arith, h))

abbrev page : ℕ
page = 0x4000_3000

-- The first mapping of a page takes two tables, the second is refused.
abbrev twice : Result (Unit {0}) PagingError × Machine (Unit {0}) ℕ
twice =
    map_page open_access counter space_root page (record { start = 0x8000_1000 }) read_write user
      (map_page open_access counter space_root page (record { start = 0x8000_0000 }) read_write user
        empty_space).1

twice_runs : (twice.0 ≡ err (page_already_mapped page 0x200000d7)) × (twice.1.frames ≡ 3)
unfolding zero_frame read_page_table_entry write_page_table_entry allocate_page_table link_table
    next_table page_table_entry intermediate_frame map_entry map_page from_start
twice_runs = (refl, refl)

map_page-Mapped_example :
    Mapped open_access counter From counter-IsAllocator space_root empty_space page
      (record { start = 0x8000_0000 })
      read_write
      user
      (map_page open_access counter space_root page
        (record { start = 0x8000_0000 })
        read_write
        user
        empty_space)
map_page-Mapped_example =
    map_page-Mapped open_access counter From counter-IsAllocator space_root empty_space
      empty-IsSpace page (record { start = 0x8000_0000 }) read_write user refl

next_table-Followed_example :
    Followed open_access counter From counter-IsAllocator 0 empty_space [] 1
      (next_table open_access counter space_root 1 empty_space)
next_table-Followed_example =
    next_table-Followed open_access counter From counter-IsAllocator 0 empty_space empty-IsSpace []
      1 space_root (omega arith) (omega arith) refl

new-IsNew_example :
    IsNew open_access counter From counter-IsAllocator empty_space
      (new open_access counter empty_space)
new-IsNew_example = new-IsNew open_access counter From counter-IsAllocator empty_space

-- Two pages and a part of a third.
abbrev text_range : VirtRange
text_range = record { start = 0xffff_ffff_8000_0000; end = 0xffff_ffff_8000_2010 }

map_range-RangeMapped_example :
    RangeMapped open_access counter From counter-IsAllocator space_root empty_space text_range
      (record { start = 0x8020_0000 })
      read_execute
      (map_range open_access counter space_root text_range
        (record { start = 0x8020_0000 })
        read_execute
        empty_space)
map_range-RangeMapped_example =
    map_range-RangeMapped open_access counter From counter-IsAllocator space_root text_range
      (omega arith) empty_space empty-IsSpace (record { start = 0x8020_0000 }) read_execute

abbrev kernel : KernelPaging
kernel = record { root = record { start = 0 }; heap_claimed = true }

map_user_page-MappedIn_example :
    MappedIn open_access counter From counter-IsAllocator kernel
      (IsUserPage open_access counter From counter-IsAllocator kernel)
      empty_space
      page
      (record { start = 0x8000_0000 })
      read_write
      user
      (map_user_page open_access counter kernel page
        (record { start = 0x8000_0000 })
        read_write
        empty_space)
map_user_page-MappedIn_example =
    map_user_page-MappedIn open_access counter From counter-IsAllocator kernel empty_space
      empty-IsSpace page (record { start = 0x8000_0000 }) read_write refl

heap_backing-IsBacking_example :
    IsBacking
      (heap_backing open_access counter From counter-IsAllocator kernel)
      (IsMapped open_access counter From counter-IsAllocator kernel)
    × ((k : KernelSpace open_access counter From counter-IsAllocator kernel) (p : VirtAddr)
        → Backed open_access counter From counter-IsAllocator kernel k.state p
            (map_heap_page open_access counter kernel p k.state))
heap_backing-IsBacking_example =
    heap_backing-IsBacking open_access counter From counter-IsAllocator kernel
