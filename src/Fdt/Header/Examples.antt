-- ===== src/Fdt/Header/Examples.antt =====
-- A header of 40 bytes, one with a block inside the header, and the theorems there.
use barebone_kernel.Base.{ℕ, ◌≡◌, ◌≢◌, ◌↔◌, ◌⊎◌, refl, arith, [], ◌∷◌, ok, err, Ends, Bytes}
use barebone_kernel.Fdt.Header.{
  Fields, Header, new, validate, decode, read_be_u32, fdt_magic, strings,
  block_offset_inside_header, invalid_magic,
}
use barebone_kernel.Fdt.Header.Spec.{WellFormed, AreU32, encode, header_of}
use barebone_kernel.Fdt.Header.Sound.{new_accepts_iff}
use barebone_kernel.Fdt.Header.Errors.{Blames, new-Blames}

abbrev demo : Bytes
demo =
    0xd0 ∷ 0x0d ∷ 0xfe ∷ 0xed ∷ 0 ∷ 0 ∷ 0 ∷ 120 ∷ 0 ∷ 0 ∷ 0 ∷ 56 ∷ 0 ∷ 0 ∷ 0 ∷ 100 ∷ 0 ∷ 0 ∷ 0 ∷ 40
    ∷ 0 ∷ 0 ∷ 0 ∷ 17 ∷ 0 ∷ 0 ∷ 0 ∷ 16 ∷ 0 ∷ 0 ∷ 0 ∷ 3 ∷ 0 ∷ 0 ∷ 0 ∷ 9 ∷ 0 ∷ 0 ∷ 0 ∷ 44 ∷ []

abbrev demo_header : Header
demo_header = record {
  total = 120;
  structure_range = record { start = 56; end = 100 };
  strings_range = record { start = 100; end = 109 };
  off_mem_rsvmap = 40;
  declared_version = 17;
  last_comp_version = 16;
  boot_cpuid_phys = 3;
}

-- The strings block starts at byte 39, inside the header.
abbrev clash : Bytes
clash =
    0xd0 ∷ 0x0d ∷ 0xfe ∷ 0xed ∷ 0 ∷ 0 ∷ 0 ∷ 120 ∷ 0 ∷ 0 ∷ 0 ∷ 56 ∷ 0 ∷ 0 ∷ 0 ∷ 39 ∷ 0 ∷ 0 ∷ 0 ∷ 40
    ∷ 0 ∷ 0 ∷ 0 ∷ 17 ∷ 0 ∷ 0 ∷ 0 ∷ 16 ∷ 0 ∷ 0 ∷ 0 ∷ 3 ∷ 0 ∷ 0 ∷ 0 ∷ 9 ∷ 0 ∷ 0 ∷ 0 ∷ 44 ∷ []

demo_runs : new demo ≡ ok demo_header
unfolding new validate decode read_be_u32
demo_runs = refl

clash_runs : new clash ≡ err (block_offset_inside_header strings 39 40)
unfolding new validate decode read_be_u32
clash_runs = refl

new_accepts_iff_example :
    Ends (new demo)
    × ((new demo ≡ ok demo_header) ↔ (
        (f : Fields) × AreU32 f
        × WellFormed f
        × (demo ≡ encode fdt_magic f)
        × (demo_header ≡ header_of f)))
new_accepts_iff_example = new_accepts_iff demo demo_header (omega arith) refl

new-Blames_example :
    (m : ℕ) × (f : Fields) × (clash ≡ encode m f)
    × ((block_offset_inside_header strings 39 40 ≡ invalid_magic m) × (m ≢ fdt_magic)
        ⊎ (m ≡ fdt_magic) × Blames f (block_offset_inside_header strings 39 40))
new-Blames_example =
    new-Blames clash (block_offset_inside_header strings 39 40) (omega arith) refl clash_runs
