-- ===== src/Kernel/Paging/Runtime.antt =====
-- kernel/src/arch/riscv64/paging/kernel.rs: the mappers of the active address space, and the pages of the
-- heap. Flushing translations does not change the tables.
use barebone_kernel.Base.{◌+◌, ◌-◌, ◌*◌, ◌%◌, ◌^◌, Bool, ◌&&◌, not, ◌==◌, leb, ltb, check}
use barebone_kernel.Kernel.Memory.{VirtAddr, PhysFrame}
use barebone_kernel.Kernel.Paging.{
  FrameAccess, FrameAllocator, PagingM, ◌>>=◌, ◌>>◌, lift, PagePermissions, read_write, supervisor,
  user, virtual_address_not_user, virtual_address_not_kernel, reserved_virtual_page,
  virtual_address_not_page_aligned, page_size, gigapage_size, sv39_low_half_end,
  sv39_high_half_base, allocated, zero_frame, map_page,
}

-- `SV39_HIGH_HALF_BASE + (VPN_MASK - SV39_HIGH_HALF_VPN2) * GIGAPAGE_SIZE`
abbrev pub boot_frame_window_base : VirtAddr
boot_frame_window_base = sv39_high_half_base + (511 - 256) * gigapage_size

abbrev pub fixmap_table_base : VirtAddr
fixmap_table_base = boot_frame_window_base - gigapage_size - 2 ^ 21

abbrev pub fixmap_frame_base : VirtAddr
fixmap_frame_base = fixmap_table_base + page_size

abbrev pub heap_start : VirtAddr
heap_start = 0xffff_ffe0_0000_0000

abbrev pub heap_end : VirtAddr
heap_end = heap_start + gigapage_size

abbrev pub in_heap : VirtAddr → Bool
in_heap address = leb heap_start address && ltb address heap_end

-- `KernelPaging`, without what its frame window needs.
pub record KernelPaging : Type 0 where
  pub root : PhysFrame
  pub heap_claimed : Bool

module _ {A F : Type 0} (source : FrameAccess A) (allocator : FrameAllocator F)
    (paging : KernelPaging) where
  unfoldable pub map_user_page : VirtAddr → PhysFrame → PagePermissions → PagingM A F (Unit {0})
  map_user_page address frame permissions = do
    lift (
        check (leb page_size address && ltb address sv39_low_half_end)
          (virtual_address_not_user address))
    map_page source allocator paging.root address frame permissions user

  unfoldable pub install_page : VirtAddr → PhysFrame → PagePermissions → PagingM A F (Unit {0})
  install_page address frame permissions = do
    lift (check (not (ltb address sv39_high_half_base)) (virtual_address_not_kernel address))
    lift (check (not (address == fixmap_frame_base)) (reserved_virtual_page address))
    map_page source allocator paging.root address frame permissions supervisor

  -- `KernelPaging::map_page`
  unfoldable pub map_kernel_page : VirtAddr → PhysFrame → PagePermissions → PagingM A F (Unit {0})
  map_kernel_page address frame permissions = do
    lift (check (not (paging.heap_claimed && in_heap address)) (reserved_virtual_page address))
    install_page address frame permissions

  -- `KernelHeapBacking::map_page`
  unfoldable pub map_heap_page : VirtAddr → PagingM A F (Unit {0})
  map_heap_page address = do
    lift (check (paging.heap_claimed && in_heap address) (reserved_virtual_page address))
    lift (check (address % page_size == 0) (virtual_address_not_page_aligned address))
    frame ← (λ s. allocated source allocator (allocator.allocate s.frames) s)
    zero_frame source frame
    install_page address frame read_write
