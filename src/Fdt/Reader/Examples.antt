-- ===== src/Fdt/Reader/Examples.antt =====
-- Runs of the reader on a small slice, and its theorems there.
use barebone_kernel.Base.{ℕ, ◌≡◌, refl, arith, [], ◌∷◌, ok, err, Bytes}
use barebone_kernel.Fdt.Reader.{
  Reader, IsValid, advance, unread, truncated, read_bytes, read_u8, read_u32, read_u64, align_to_4,
  read_nul_terminated, missing_nul_terminator,
}
use barebone_kernel.Fdt.Reader.Cursor.{read_nul_terminated-ok, read_nul_terminated-err}
use barebone_kernel.Fdt.Reader.Sound.{Atomic, reads-Atomic}
use barebone_kernel.Fdt.Reader.RoundTrip.{read_u32-to_be_32, read_u64-to_be_64}

abbrev slice : Bytes
slice = 0xd0 ∷ 0x0d ∷ 0xfe ∷ 0xed ∷ b'r' ∷ b'e' ∷ b'g' ∷ 0 ∷ 7 ∷ []

abbrev at : ℕ → Reader
at n = record { bytes = slice; offset = n }

at_start : IsValid (at 0)
at_start = omega arith

at_name : IsValid (at 4)
at_name = omega arith

at_last : IsValid (at 8)
at_last = omega arith

magic_runs : read_u32 (at 0) ≡ (ok 0xd00dfeed, at 4)
unfolding read_u32 read_bytes
magic_runs = refl

long_read_runs : read_u64 (at 8) ≡ (err (truncated 8 8 1), at 8)
unfolding read_u64 read_bytes
long_read_runs = refl

reads-Atomic_example :
    Atomic (at 0) (read_bytes 3 (at 0))
    × Atomic (at 0) (read_u8 (at 0))
    × Atomic (at 0) (read_u32 (at 0))
    × Atomic (at 0) (read_u64 (at 0))
    × Atomic (at 0) (align_to_4 (at 0))
    × Atomic (at 0) (read_nul_terminated (at 0))
reads-Atomic_example = reads-Atomic (at 0) 3 at_start

read_u32-to_be_32_example :
    (read_u32 (at 0) ≡ (ok 0xd00dfeed, advance (at 0) 4))
    × (unread (advance (at 0) 4) ≡ b'r' ∷ b'e' ∷ b'g' ∷ 0 ∷ 7 ∷ [])
read_u32-to_be_32_example =
    read_u32-to_be_32 0xd00dfeed (b'r' ∷ b'e' ∷ b'g' ∷ 0 ∷ 7 ∷ []) at_start (omega arith) refl

read_u64-to_be_64_example :
    (read_u64 (at 0) ≡ (ok 0xd00dfeed72656700, advance (at 0) 8))
    × (unread (advance (at 0) 8) ≡ 7 ∷ [])
read_u64-to_be_64_example =
    read_u64-to_be_64 0xd00dfeed72656700 (7 ∷ []) at_start (omega arith) refl

read_nul_terminated-ok_example :
    read_nul_terminated (at 4) ≡ (ok (b'r' ∷ b'e' ∷ b'g' ∷ []), advance (at 4) 4)
read_nul_terminated-ok_example =
    read_nul_terminated-ok (b'r' ∷ b'e' ∷ b'g' ∷ []) (7 ∷ []) at_name (omega arith) refl

read_nul_terminated-err_example :
    read_nul_terminated (at 8) ≡ (err (missing_nul_terminator 8), at 8)
read_nul_terminated-err_example = read_nul_terminated-err at_last (omega arith)
