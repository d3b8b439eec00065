-- ===== src/Fdt/Header.antt =====
-- fdt/src/header.rs: decoding and validation of the fixed-size header.
pub mod Spec
pub mod Sound
pub mod Errors
mod Examples
use barebone_kernel.Base.{
  ℕ, ◌+◌, ◌-◌, ◌%◌, ◌≤◌, ◌<◌, ◌^◌, Bool, not, ◌&&◌, Option, none, some, List, [], ◌∷◌, Bytes,
  length, get_elem?, checked_add, from_be_bytes, if◌then◌else◌, ◌==◌, leb, ltb, Result, ok, err,
  expect, check, ◌>>=◌, ◌>>◌,
}

abbrev pub header_size : ℕ
header_size = 40

abbrev pub fdt_magic : ℕ
fdt_magic = 0xd00d_feed

abbrev pub supported_version : ℕ
supported_version = 17

abbrev pub expected_last_compatible_version : ℕ
expected_last_compatible_version = 16

pub data HeaderField : Type 0 where
  magic total_size structure_offset strings_offset reservation_offset version : HeaderField
  last_compatible_version boot_cpu_id_phys strings_size structure_size : HeaderField

abbrev pub field_offset : HeaderField → ℕ
field_offset magic = 0
field_offset total_size = 4
field_offset structure_offset = 8
field_offset strings_offset = 12
field_offset reservation_offset = 16
field_offset version = 20
field_offset last_compatible_version = 24
field_offset boot_cpu_id_phys = 28
field_offset strings_size = 32
field_offset structure_size = 36

pub data BlockKind : Type 0 where
  memory_reservation structure strings : BlockKind

pub data HeaderError : Type 0 where
  invalid_magic : (found : ℕ) → HeaderError
  total_size_too_small : (total minimum : ℕ) → HeaderError
  unsupported_version : (declared last_compatible : ℕ) → HeaderError
  misaligned_block : BlockKind → (offset required_alignment : ℕ) → HeaderError
  block_offset_inside_header : BlockKind → (offset size : ℕ) → HeaderError
  block_offset_out_of_bounds : BlockKind → (offset total : ℕ) → HeaderError
  block_out_of_bounds : BlockKind → (offset size total : ℕ) → HeaderError
  blocks_overlap : (first second : BlockKind) → HeaderError
  block_offset_inside_block : (block containing : BlockKind) → (offset : ℕ) → HeaderError

-- `Range<usize>`
pub record Range : Type 0 where
  pub start : ℕ
  pub end : ℕ

pub record Header : Type 0 where
  pub total : ℕ
  pub structure_range : Range
  pub strings_range : Range
  pub off_mem_rsvmap : ℕ
  pub declared_version : ℕ
  pub last_comp_version : ℕ
  pub boot_cpuid_phys : ℕ

-- `bytes[i]`
abbrev index : Bytes → ℕ → Result ℕ HeaderError
index bytes i = expect (get_elem? bytes i)

unfoldable pub read_be_u32 : Bytes → HeaderField → Result ℕ HeaderError
read_be_u32 bytes field = do
  let offset = field_offset field
  a ← index bytes offset
  b ← index bytes (offset + 1)
  c ← index bytes (offset + 2)
  d ← index bytes (offset + 3)
  ok (from_be_bytes (a ∷ b ∷ c ∷ d ∷ []))

out_of_range : BlockKind → ℕ → ℕ → ℕ → Option ℕ → Result Range HeaderError
out_of_range block offset size total none = err (block_out_of_bounds block offset size total)
out_of_range block offset size total (some end) =
    if ltb total end
    then err (block_out_of_bounds block offset size total)
    else ok (record { start = offset; end = end })

unfoldable pub block_range : BlockKind → ℕ → ℕ → ℕ → Result Range HeaderError
unfolding out_of_range
block_range block offset size total = out_of_range block offset size total (checked_add offset size)

-- The loop over the three block offsets.
unfoldable pub check_outside_header : List (BlockKind × ℕ) → Result (Unit {0}) HeaderError
check_outside_header [] = ok tt
check_outside_header ((block, offset) ∷ blocks) = do
  check (leb header_size offset) (block_offset_inside_header block offset header_size)
  check_outside_header blocks

abbrev pub contains : Range → ℕ → Bool
contains range i = leb range.start i && ltb i range.end

-- The loop over the two known ranges.
unfoldable pub check_outside_blocks : ℕ → List (BlockKind × Range) → Result (Unit {0}) HeaderError
check_outside_blocks offset [] = ok tt
check_outside_blocks offset ((containing, range) ∷ blocks) = do
  check (not (contains range offset))
      (block_offset_inside_block memory_reservation containing offset)
  check_outside_blocks offset blocks

-- The ten fields, as `Header::new` decodes them into its locals.
pub record Fields : Type 0 where
  pub total : ℕ
  pub off_dt_struct : ℕ
  pub off_dt_strings : ℕ
  pub off_mem_rsvmap : ℕ
  pub declared_version : ℕ
  pub last_comp_version : ℕ
  pub boot_cpuid_phys : ℕ
  pub size_dt_strings : ℕ
  pub size_dt_struct : ℕ

-- `Header::new` from the check of the total size on.
unfoldable pub validate : Fields → Result Header HeaderError
unfolding block_range check_outside_header check_outside_blocks
validate f = do
  check (leb header_size f.total) (total_size_too_small f.total header_size)
  check
      (f.declared_version == supported_version
        && f.last_comp_version == expected_last_compatible_version)
      (unsupported_version f.declared_version f.last_comp_version)
  check (f.off_mem_rsvmap % 8 == 0) (misaligned_block memory_reservation f.off_mem_rsvmap 8)
  check (f.off_dt_struct % 4 == 0) (misaligned_block structure f.off_dt_struct 4)
  check_outside_header (
      (memory_reservation, f.off_mem_rsvmap)
      ∷ (structure, f.off_dt_struct)
      ∷ (strings, f.off_dt_strings)
      ∷ [])
  check (leb f.off_mem_rsvmap f.total)
      (block_offset_out_of_bounds memory_reservation f.off_mem_rsvmap f.total)
  structure_range ← block_range structure f.off_dt_struct f.size_dt_struct f.total
  strings_range ← block_range strings f.off_dt_strings f.size_dt_strings f.total
  check
      (not (
        ltb structure_range.start strings_range.end && ltb strings_range.start structure_range.end))
      (blocks_overlap structure strings)
  check_outside_blocks f.off_mem_rsvmap
      ((structure, structure_range) ∷ (strings, strings_range) ∷ [])
  ok (record {
    total = f.total;
    structure_range = structure_range;
    strings_range = strings_range;
    off_mem_rsvmap = f.off_mem_rsvmap;
    declared_version = f.declared_version;
    last_comp_version = f.last_comp_version;
    boot_cpuid_phys = f.boot_cpuid_phys;
  })

unfoldable pub decode : Bytes → Result Fields HeaderError
decode bytes = do
  total ← read_be_u32 bytes total_size
  off_dt_struct ← read_be_u32 bytes structure_offset
  off_dt_strings ← read_be_u32 bytes strings_offset
  off_mem_rsvmap ← read_be_u32 bytes reservation_offset
  declared_version ← read_be_u32 bytes version
  last_comp_version ← read_be_u32 bytes last_compatible_version
  boot_cpuid_phys ← read_be_u32 bytes boot_cpu_id_phys
  size_dt_strings ← read_be_u32 bytes strings_size
  size_dt_struct ← read_be_u32 bytes structure_size
  ok (record {
    total = total;
    off_dt_struct = off_dt_struct;
    off_dt_strings = off_dt_strings;
    off_mem_rsvmap = off_mem_rsvmap;
    declared_version = declared_version;
    last_comp_version = last_comp_version;
    boot_cpuid_phys = boot_cpuid_phys;
    size_dt_strings = size_dt_strings;
    size_dt_struct = size_dt_struct;
  })

-- `Header::new`
unfoldable pub new : Bytes → Result Header HeaderError
new bytes = do
  found ← read_be_u32 bytes magic
  check (found == fdt_magic) (invalid_magic found)
  fields ← decode bytes
  validate fields
