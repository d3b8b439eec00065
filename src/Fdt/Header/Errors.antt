-- ===== src/Fdt/Header/Errors.antt =====
-- Each error of `Header::new` names a requirement that the fields fail, with the values at fault.
use barebone_kernel.Base.{
  ℕ, ◌+◌, ◌%◌, ◌≤◌, ◌<◌, ◌≡◌, ◌≢◌, arith, Result, ok, err, fault, ◌⊎◌, inl, inr, sym, ap, ◌∙◌,
  subst, Bytes, IsByte, All, length, Bool-cases, ==_iff, ◌==◌, if◌then◌else◌,
}
use barebone_kernel.Fdt.Header.{
  Fields, Header, HeaderError, BlockKind, memory_reservation, structure, strings, invalid_magic,
  total_size_too_small, unsupported_version, misaligned_block, block_offset_inside_header,
  block_offset_out_of_bounds, block_out_of_bounds, blocks_overlap, block_offset_inside_block,
  validate, new, fdt_magic,
}
use barebone_kernel.Fdt.Header.Sound.{encode_surjective, decode_rest}
use barebone_kernel.Fdt.Header.Spec.{AreU32, encode}

-- Where a block starts and, for a block of known size, where it ends.
abbrev pub start_of : BlockKind → Fields → ℕ
start_of memory_reservation f = f.off_mem_rsvmap
start_of structure f = f.off_dt_struct
start_of strings f = f.off_dt_strings

abbrev pub size_of : BlockKind → Fields → ℕ
size_of memory_reservation f = 0
size_of structure f = f.size_dt_struct
size_of strings f = f.size_dt_strings

-- What the format asks of the offset of a block; any offset does for the strings.
abbrev pub alignment_of : BlockKind → ℕ
alignment_of memory_reservation = 8
alignment_of structure = 4
alignment_of strings = 1

abbrev pub Blames : Fields → HeaderError → Type 0
Blames f (invalid_magic m) = ⊥
Blames f (total_size_too_small total minimum) =
    (total ≡ f.total) × (total < minimum) × (minimum ≡ 40)
Blames f (unsupported_version v l) =
    (v ≡ f.declared_version) × (l ≡ f.last_comp_version) × ((v ≢ 17) ⊎ (l ≢ 16))
Blames f (misaligned_block block offset alignment) =
    (offset ≡ start_of block f) × (alignment ≡ alignment_of block) × (offset % alignment ≢ 0)
Blames f (block_offset_inside_header block offset size) =
    (offset ≡ start_of block f) × (offset < size) × (size ≡ 40)
Blames f (block_offset_out_of_bounds block offset total) =
    (offset ≡ start_of block f) × (total ≡ f.total) × (total < offset)
Blames f (block_out_of_bounds block offset size total) =
    (offset ≡ start_of block f)
    × (size ≡ size_of block f)
    × (total ≡ f.total)
    × (total < offset + size)
Blames f (blocks_overlap a b) =
    (start_of a f < start_of b f + size_of b f) × (start_of b f < start_of a f + size_of a f)
Blames f (block_offset_inside_block block containing offset) =
    (offset ≡ start_of block f)
    × (start_of containing f ≤ offset)
    × (offset < start_of containing f + size_of containing f)

abbrev Explained : Fields → Result Header HeaderError → Type 0
Explained f (ok h) = Unit
Explained f (err e) = Blames f e
Explained f (fault x) = Unit

validate-Explained : (f : Fields) → AreU32 f → Explained f (validate f)
unfolding validate
validate-Explained f u = ground arith

-- On forty bytes an error of `Header::new` is true of them: they encode a magic value and nine
-- fields, and either the error is the wrong magic value, or the magic value is right and the error
-- names a requirement that the fields fail, with the offset, size and total that it reports taken
-- from them and the alignment that the format asks of the block.
pub new-Blames :
    (bytes : Bytes) (e : HeaderError)
    → All IsByte bytes
    → length bytes ≡ 40
    → new bytes ≡ err e
    → (m : ℕ) × (f : Fields) × (bytes ≡ encode m f)
      × ((e ≡ invalid_magic m) × (m ≢ fdt_magic) ⊎ (m ≡ fdt_magic) × Blames f e)
new-Blames bytes e are len failed =
    let (m, f, um, uf, eb) = encode_surjective bytes are len in
    (m, f, eb, blame m f uf (sym (decode_rest m f um uf) ∙ sym (ap new eb) ∙ failed))
  where
    blame :
        (m : ℕ) (f : Fields)
        → AreU32 f
        → (if m == fdt_magic then validate f else err (invalid_magic m)) ≡ err e
        → (e ≡ invalid_magic m) × (m ≢ fdt_magic) ⊎ (m ≡ fdt_magic) × Blames f e
    blame m f uf h = elim (Bool-cases (m == fdt_magic)) [
      | inl same ↦ inr (
        (==_iff m fdt_magic).0 same,
        subst (Explained f) (rw same at h) (validate-Explained f uf),
      )
      | inr other ↦ inl (cc (rw other at h), λ same. cc (other, (==_iff m fdt_magic).1 same))
    ]
