-- ===== src/Kernel/Paging.antt =====
-- kernel/src/arch/riscv64/paging.rs and paging/access.rs: Sv39 page tables in frames of memory.
-- A mask of low ones is a remainder, a shift is a product or a quotient with a power of two, and an `|`
-- of numbers that share no bit is a sum.
pub mod Links
pub mod Tree
pub mod Tables
pub mod Access
pub mod Pages
pub mod Fresh
pub mod Keeps
pub mod Range
pub mod Runtime
pub mod Frames
pub mod Backing
pub mod HeapPages
mod Examples
use barebone_kernel.Base.{
  ℕ, zero, suc, ◌+◌, ◌-◌, ◌*◌, ◌/◌, ◌%◌, ◌^◌, Bool, ◌&&◌, ◌||◌, not, Option, none, some,
  if◌then◌else◌, ◌==◌, leb, ltb, checked_add, ◌⊎◌, inl, inr, Result, ok, err, fault, ok_or, check,
}
use barebone_kernel.Kernel.Memory.{PhysAddr, VirtAddr, PhysRange, VirtRange, PhysFrame, from_start}

abbrev pub page_size : ℕ
page_size = 4096

abbrev pub gigapage_size : ℕ
gigapage_size = 2 ^ 30

abbrev pub page_table_entries : ℕ
page_table_entries = 512

abbrev pub sv39_low_half_end : VirtAddr
sv39_low_half_end = 2 ^ 38

-- `usize::MAX << 38`
abbrev pub sv39_high_half_base : VirtAddr
sv39_high_half_base = 2 ^ 64 - 2 ^ 38

abbrev pub max_physical_address : PhysAddr
max_physical_address = 2 ^ 56 - 1

abbrev pub pte_valid : ℕ
pte_valid = 1

abbrev pub pte_read : ℕ
pte_read = 2

abbrev pub pte_write : ℕ
pte_write = 4

abbrev pub pte_execute : ℕ
pte_execute = 8

abbrev pub pte_user : ℕ
pte_user = 16

abbrev pub pte_accessed : ℕ
pte_accessed = 64

abbrev pub pte_dirty : ℕ
pte_dirty = 128

pub data PagePermissions : Type 0 where
  read_only read_write read_execute : PagePermissions

pub data PagePrivilege : Type 0 where
  supervisor user : PagePrivilege

pub data PagingError : Type 0 where
  virtual_address_not_user : (address : ℕ) → PagingError
  root_entry_in_use : (index entry : ℕ) → PagingError
  unexpected_address_translation_mode : (mode : ℕ) → PagingError
  physical_address_not_representable : (address : PhysAddr) → PagingError
  physical_range_not_representable : (start : PhysAddr) (size : ℕ) → PagingError
  invalid_kernel_section : (range : VirtRange) → PagingError
  invalid_dtb_mapping : (virtual_address : VirtAddr) (physical_range : PhysRange) → PagingError
  out_of_physical_frames : PagingError
  virtual_address_not_page_aligned : (address : ℕ) → PagingError
  virtual_address_not_canonical : (address : ℕ) → PagingError
  invalid_intermediate_entry : (index entry : ℕ) → PagingError
  page_already_mapped : (address entry : ℕ) → PagingError
  page_table_index_out_of_range : (index : ℕ) → PagingError
  virtual_address_not_kernel : (address : ℕ) → PagingError
  reserved_virtual_page : (address : ℕ) → PagingError
  bootstrap_paging_already_claimed : PagingError
  kernel_heap_already_claimed : PagingError

-- The word at an index of the frame at an address.
abbrev pub Memory : Type 0
Memory = PhysAddr → ℕ → ℕ

abbrev pub write : Memory → PhysAddr → ℕ → ℕ → Memory
write m f i value g j = if (g == f) && (j == i) then value else m g j

abbrev pub zeroed : Memory → PhysAddr → Memory
zeroed m f g j = if g == f then 0 else m g j

-- The trait `FrameAccess`: whether the frame can be reached for one operation, and the window behind
-- that. An operation on a frame that is reached works on the frame itself.
pub record FrameAccess (A : Type 0) : Type 0 where
  pub with_frame : A → PhysFrame → (Unit {0} ⊎ PagingError) × A

-- The trait `FrameAllocator`. `AllocatedFrame` is the ownership of a `PhysFrame`.
pub record FrameAllocator (F : Type 0) : Type 0 where
  pub allocate : F → Option PhysFrame × F

-- What the operations share by `&mut`: the access, the allocator and the memory.
pub record Machine (A F : Type 0) : Type 0 where
  pub access : A
  pub frames : F
  pub memory : Memory

-- An operation's result, and what it leaves, on errors too.
abbrev pub PagingM : (A F X : Type 0) → Type 0
PagingM A F X = Machine A F → Result X PagingError × Machine A F

abbrev pub and_then :
    {A F X Y : Type 0}
    → Result X PagingError × Machine A F
    → (X → PagingM A F Y)
    → Result Y PagingError × Machine A F
and_then (ok x, s) next = next x s
and_then (err e, s) next = (err e, s)
and_then (fault x, s) next = (fault x, s)

infixl 5 ◌>>=◌ ◌>>◌
abbrev pub ◌>>=◌ : {A F X Y : Type 0} → PagingM A F X → (X → PagingM A F Y) → PagingM A F Y
◌>>=◌ m next s = and_then (m s) next

abbrev pub ◌>>◌ : {A F Y : Type 0} → PagingM A F (Unit {0}) → PagingM A F Y → PagingM A F Y
m >> next = m >>= λ _. next

abbrev pub lift : {A F X : Type 0} → Result X PagingError → PagingM A F X
lift x s = (x, s)

unfoldable pub page_table_entry : PhysAddr → (flags : ℕ) → Result ℕ PagingError
page_table_entry address flags =
    if ltb max_physical_address address
    then err (physical_address_not_representable address)
    else ok (address / 2 ^ 12 * 2 ^ 10 + flags)

unfoldable pub intermediate_frame : (index entry : ℕ) → Result PhysFrame PagingError
intermediate_frame index entry =
    if (entry % 2 == 0) || not (entry / 2 % 8 == 0)
    then err (invalid_intermediate_entry index entry)
    else ok_or (from_start (entry / 2 ^ 10 % 2 ^ 44 * 2 ^ 12))
        (invalid_intermediate_entry index entry)

abbrev pub permission_bits : PagePermissions → ℕ
permission_bits read_only = pte_read
permission_bits read_write = pte_read + pte_write
permission_bits read_execute = pte_read + pte_execute

abbrev pub read_mapped_page_table_entry : Memory → PhysAddr → (index : ℕ) → Result ℕ PagingError
read_mapped_page_table_entry m table index =
    if leb page_table_entries index
    then err (page_table_index_out_of_range index)
    else ok (m table index)

abbrev pub write_mapped_page_table_entry :
    Memory → PhysAddr → (index value : ℕ) → Result (Unit {0}) PagingError × Memory
write_mapped_page_table_entry m table index value =
    if leb page_table_entries index
    then (err (page_table_index_out_of_range index), m)
    else (ok tt, write m table index value)

abbrev pub is_representable : Option PhysAddr → Bool
is_representable none = Bool.false
is_representable (some address) = leb address max_physical_address

-- The canonical addresses of Sv39.
abbrev pub is_canonical : VirtAddr → Bool
is_canonical address = not (leb sv39_low_half_end address && ltb address sv39_high_half_base)

abbrev pub leaf_flags : PagePermissions → PagePrivilege → ℕ
leaf_flags permissions privilege =
    let bits = permission_bits permissions in
    pte_valid
    + pte_accessed
    + bits
    + (elim privilege [ supervisor ↦ 0 | user ↦ pte_user ])
    + (if bits / pte_write % 2 == 0 then 0 else pte_dirty)

module _ {A F : Type 0} (source : FrameAccess A) where
  -- An operation on a frame behind the answer of the access.
  abbrev pub reached :
      {X : Type 0} → (Unit {0} ⊎ PagingError) × A → (Memory → X × Memory) → PagingM A F X
  reached (inr e, a) operation s = (err e, record s { access = a })
  reached (inl _, a) operation s =
      let (x, m) = operation s.memory in (ok x, record s { access = a; memory = m })

  abbrev pub on_frame : {X : Type 0} → PhysFrame → (Memory → X × Memory) → PagingM A F X
  on_frame frame operation s = reached (source.with_frame s.access frame) operation s

  unfoldable pub zero_frame : PhysFrame → PagingM A F (Unit {0})
  zero_frame frame = on_frame frame λ m. (tt, zeroed m frame.start)

  unfoldable pub read_page_table_entry : PhysFrame → (index : ℕ) → PagingM A F ℕ
  read_page_table_entry frame index = do
    x ← on_frame frame (λ m. (read_mapped_page_table_entry m frame.start index, m))
    lift x

  unfoldable pub write_page_table_entry : PhysFrame → (index entry : ℕ) → PagingM A F (Unit {0})
  write_page_table_entry frame index entry = do
    x ← on_frame frame (λ m. write_mapped_page_table_entry m frame.start index entry)
    lift x

module _ {A F : Type 0} (source : FrameAccess A) (allocator : FrameAllocator F) where
  abbrev pub allocated : Option PhysFrame × F → PagingM A F PhysFrame
  allocated (o, f) s = (ok_or o out_of_physical_frames, record s { frames = f })

  unfoldable pub allocate_page_table : PagingM A F PhysFrame
  allocate_page_table = do
    frame ← (λ s. allocated (allocator.allocate s.frames) s)
    zero_frame source frame
    lift (ok frame)

  -- `next_table` on an empty entry, and on the entry that is there.
  unfoldable pub link_table : PhysFrame → (index : ℕ) → PagingM A F PhysFrame
  link_table parent index = do
    child ← allocate_page_table
    entry ← lift (page_table_entry child.start pte_valid)
    write_page_table_entry source parent index entry
    lift (ok child)

  unfoldable pub next_table : PhysFrame → (index : ℕ) → PagingM A F PhysFrame
  next_table parent index = do
    entry ← read_page_table_entry source parent index
    if not (entry == 0) then lift (intermediate_frame index entry) else link_table parent index

  -- `map_page` behind its checks.
  unfoldable pub map_entry : PhysFrame → (address entry : ℕ) → PagingM A F (Unit {0})
  map_entry root address entry = do
    level_1 ← next_table root (address / 2 ^ 30 % 512)
    level_0 ← next_table level_1 (address / 2 ^ 21 % 512)
    existing ← read_page_table_entry source level_0 (address / 2 ^ 12 % 512)
    lift (check (existing == 0) (page_already_mapped address existing))
    write_page_table_entry source level_0 (address / 2 ^ 12 % 512) entry

  unfoldable pub map_page :
      PhysFrame → VirtAddr → PhysFrame → PagePermissions → PagePrivilege → PagingM A F (Unit {0})
  map_page root address frame permissions privilege = do
    lift (check (address % page_size == 0) (virtual_address_not_page_aligned address))
    lift (check (is_canonical address) (virtual_address_not_canonical address))
    entry ← lift (page_table_entry frame.start (leaf_flags permissions privilege))
    map_entry root address entry

  -- The loop of `map_range`: the pages from `page_index` on.
  unfoldable pub map_pages :
      PhysFrame
      → (start : VirtAddr) (physical_base : PhysAddr) (size : ℕ) → PagePermissions
      → (pages page_index : ℕ) → PagingM A F (Unit {0})
  map_pages root start physical_base size permissions zero page_index = lift (ok tt)
  map_pages root start physical_base size permissions (suc pages) page_index = do
    frame ← lift (
        ok_or (from_start (physical_base + page_index * page_size))
          (physical_range_not_representable physical_base size))
    map_page root (start + page_index * page_size) frame permissions supervisor
    map_pages root start physical_base size permissions pages (suc page_index)

  -- `Sv39PageTable::map_range`
  unfoldable pub map_range :
      PhysFrame → VirtRange → PhysFrame → PagePermissions → PagingM A F (Unit {0})
  map_range root range frame permissions =
      let size = range.end - range.start in
      let page_count = (size + (page_size - 1)) / page_size in
      do
        lift (check (range.start % page_size == 0) (virtual_address_not_page_aligned range.start))
        lift (check (is_canonical range.start) (virtual_address_not_canonical range.start))
        lift (
            check (not (ltb range.start sv39_low_half_end && ltb sv39_low_half_end range.end))
              (virtual_address_not_canonical sv39_low_half_end))
        lift (
            check (is_representable (checked_add frame.start ((page_count - 1) * page_size)))
              (physical_range_not_representable frame.start size))
        map_pages root range.start frame.start size permissions page_count 0

-- `Sv39PageTable::new`: the frame of the root.
abbrev pub new : {A F : Type 0} → FrameAccess A → FrameAllocator F → PagingM A F PhysFrame
new source allocator = allocate_page_table source allocator
