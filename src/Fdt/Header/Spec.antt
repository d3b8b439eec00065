-- ===== src/Fdt/Header/Spec.antt =====
-- What the header must say, independently of how `Header::new` tests it, and its encoding in the
-- order of the Devicetree Specification.
use barebone_kernel.Base.{ℕ, ◌+◌, ◌%◌, ◌≤◌, ◌<◌, ◌≡◌, ◌⊎◌, ◌++◌, Bytes, IsU32, to_be_32}
use barebone_kernel.Fdt.Header.{Fields, Header}

abbrev pub end_of_struct : Fields → ℕ
end_of_struct f = f.off_dt_struct + f.size_dt_struct

abbrev pub end_of_strings : Fields → ℕ
end_of_strings f = f.off_dt_strings + f.size_dt_strings

-- Offset `i` lies outside the block from `start` to `end`.
abbrev pub Outside : ℕ → ℕ → ℕ → Type 0
Outside i start end = (i < start) ⊎ (end ≤ i)

pub record WellFormed (f : Fields) : Type 0 where
  pub holds_header : 40 ≤ f.total
  pub version_17 : f.declared_version ≡ 17
  pub compatible_16 : f.last_comp_version ≡ 16
  pub reservation_aligned : f.off_mem_rsvmap % 8 ≡ 0
  pub struct_aligned : f.off_dt_struct % 4 ≡ 0
  pub reservation_after_header : 40 ≤ f.off_mem_rsvmap
  pub struct_after_header : 40 ≤ f.off_dt_struct
  pub strings_after_header : 40 ≤ f.off_dt_strings
  pub reservation_in_blob : f.off_mem_rsvmap ≤ f.total
  pub struct_in_blob : end_of_struct f ≤ f.total
  pub strings_in_blob : end_of_strings f ≤ f.total
  pub blocks_apart : (end_of_strings f ≤ f.off_dt_struct) ⊎ (end_of_struct f ≤ f.off_dt_strings)
  pub reservation_outside_struct : Outside f.off_mem_rsvmap f.off_dt_struct (end_of_struct f)
  pub reservation_outside_strings : Outside f.off_mem_rsvmap f.off_dt_strings (end_of_strings f)

-- Every field is a `u32`.
pub record AreU32 (f : Fields) : Type 0 where
  pub total_u32 : IsU32 f.total
  pub off_dt_struct_u32 : IsU32 f.off_dt_struct
  pub off_dt_strings_u32 : IsU32 f.off_dt_strings
  pub off_mem_rsvmap_u32 : IsU32 f.off_mem_rsvmap
  pub declared_version_u32 : IsU32 f.declared_version
  pub last_comp_version_u32 : IsU32 f.last_comp_version
  pub boot_cpuid_phys_u32 : IsU32 f.boot_cpuid_phys
  pub size_dt_strings_u32 : IsU32 f.size_dt_strings
  pub size_dt_struct_u32 : IsU32 f.size_dt_struct

abbrev pub header_of : Fields → Header
header_of f = record {
  total = f.total;
  structure_range = record { start = f.off_dt_struct; end = end_of_struct f };
  strings_range = record { start = f.off_dt_strings; end = end_of_strings f };
  off_mem_rsvmap = f.off_mem_rsvmap;
  declared_version = f.declared_version;
  last_comp_version = f.last_comp_version;
  boot_cpuid_phys = f.boot_cpuid_phys;
}

unfoldable pub encode : ℕ → Fields → Bytes
encode magic f =
    to_be_32 magic
    ++ to_be_32 f.total
    ++ to_be_32 f.off_dt_struct
    ++ to_be_32 f.off_dt_strings
    ++ to_be_32 f.off_mem_rsvmap
    ++ to_be_32 f.declared_version
    ++ to_be_32 f.last_comp_version
    ++ to_be_32 f.boot_cpuid_phys
    ++ to_be_32 f.size_dt_strings
    ++ to_be_32 f.size_dt_struct
