-- ===== src/Kernel/Paging/Backing.antt =====
-- The mappers of the active address space, for pages of user mode and of the kernel.
use barebone_kernel.Base.{
  ◌%◌, ◌≤◌, ◌<◌, ◌≡◌, ◌≢◌, inl, inr, arith, Bool-cases, ◌&&◌, ◌==◌, leb, ltb, Result, ok, err,
  fault,
}
use barebone_kernel.Kernel.Memory.{PhysAddr, VirtAddr, PhysFrame}
use barebone_kernel.Kernel.Paging.{
  FrameAccess, FrameAllocator, Machine, PagingError, PagePermissions, PagePrivilege, supervisor,
  user, map_page, page_size, sv39_low_half_end, sv39_high_half_base,
}
use barebone_kernel.Kernel.Paging.Tables.{Grows, Grows-refl}
use barebone_kernel.Kernel.Paging.Access.{IsAllocator, IsSpace}
use barebone_kernel.Kernel.Paging.Pages.{Mapped, map_page-Mapped}
use barebone_kernel.Kernel.Paging.Runtime.{
  KernelPaging, fixmap_frame_base, map_user_page, install_page,
}

module _ {A F : Type 0} (source : FrameAccess A) (allocator : FrameAllocator F)
    (Free : F → PhysAddr → Type 0) (contract : IsAllocator Free allocator)
    (paging : KernelPaging) where
  -- A success maps a page on which `Allowed` holds; an error maps none.
  abbrev pub MappedIn :
      (Allowed : VirtAddr → Type 0)
      → Machine A F
      → VirtAddr
      → PhysFrame
      → PagePermissions
      → PagePrivilege
      → Result (Unit {0}) PagingError × Machine A F
      → Type 0
  MappedIn Allowed s address frame permissions privilege (ok u, s') =
      Allowed address
      × Mapped source allocator Free contract paging.root s address frame permissions privilege
          (ok u, s')
  MappedIn Allowed s address frame permissions privilege (err x, s') =
      Grows (Free s.frames) (Free s'.frames) paging.root.start s.memory s'.memory
  MappedIn Allowed s address frame permissions privilege (fault x, s') = ⊥

  Mapped-MappedIn :
      (Allowed : VirtAddr → Type 0) (s : Machine A F) (address : VirtAddr) (frame : PhysFrame)
      (permissions : PagePermissions) (privilege : PagePrivilege)
      → Allowed address
      → (x : Result (Unit {0}) PagingError × Machine A F)
      → Mapped source allocator Free contract paging.root s address frame permissions privilege x
      → MappedIn Allowed s address frame permissions privilege x
  Mapped-MappedIn Allowed s address frame permissions privilege allowed (ok u, s') h = (allowed, h)
  Mapped-MappedIn Allowed s address frame permissions privilege allowed (err x, s') h = h
  Mapped-MappedIn Allowed s address frame permissions privilege allowed (fault x, s') h = h

  -- Pages of user mode lie in the lower half, behind the null page.
  abbrev pub IsUserPage : VirtAddr → Type 0
  IsUserPage address = (page_size ≤ address) × (address < sv39_low_half_end)

  -- Pages of the kernel lie in the upper half, and one is kept for the window.
  abbrev pub IsKernelPage : VirtAddr → Type 0
  IsKernelPage address = (sv39_high_half_base ≤ address) × (address ≢ fixmap_frame_base)

  -- On a space of tables `map_user_page` does not panic. A success is a page of the lower half behind the
  -- null page that had no entry, and is now mapped for user mode; each other page keeps its entry. On
  -- an error every page does. A frame in use that is no table stays so and keeps its words.
  pub map_user_page-MappedIn :
      (s : Machine A F)
      → IsSpace source allocator Free contract paging.root.start s
      → (address : VirtAddr) (frame : PhysFrame) (permissions : PagePermissions)
      → frame.start % 4096 ≡ 0
      → MappedIn IsUserPage s address frame permissions user
          (map_user_page source allocator paging address frame permissions s)
  unfolding map_user_page
  map_user_page-MappedIn s t address frame permissions aligned =
      elim (Bool-cases (leb page_size address && ltb address sv39_low_half_end)) [
        | inr out ↦ rw out (Grows-refl t)
        | inl allowed ↦ rw allowed (
            Mapped-MappedIn IsUserPage s address frame permissions user (ground arith)
              (map_page source allocator paging.root address frame permissions user s)
              (map_page-Mapped source allocator Free contract paging.root s t address frame
                permissions user aligned))
      ]

  pub install_page-MappedIn :
      (s : Machine A F)
      → IsSpace source allocator Free contract paging.root.start s
      → (address : VirtAddr) (frame : PhysFrame) (permissions : PagePermissions)
      → frame.start % 4096 ≡ 0
      → MappedIn IsKernelPage s address frame permissions supervisor
          (install_page source allocator paging address frame permissions s)
  unfolding install_page
  install_page-MappedIn s t address frame permissions aligned =
      elim (Bool-cases (ltb address sv39_high_half_base)) [
        | inl low ↦ rw low (Grows-refl t)
        | inr high ↦ elim (Bool-cases (address == fixmap_frame_base)) [
          | inl fixed ↦ rw (high, fixed) (Grows-refl t)
          | inr other ↦
              rw (high, other)
                (Mapped-MappedIn IsKernelPage s address frame permissions supervisor
                  (ground arith, λ e. ground arith)
                  (map_page source allocator paging.root address frame permissions supervisor s)
                  (map_page-Mapped source allocator Free contract paging.root s t address frame
                    permissions supervisor aligned))
        ]
      ]
