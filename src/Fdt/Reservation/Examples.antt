-- ===== src/Fdt/Reservation/Examples.antt =====
-- A block of two entries, and the theorems there.
use barebone_kernel.Base.{ℕ, ◌≡◌, refl, arith, List, [], ◌∷◌, ◌++◌, ok, err, All, IsByte}
use barebone_kernel.Fdt.Reader
use barebone_kernel.Fdt.Reservation.{
  MemoryReservation, new, overlap, scan, round, validate_no_overlaps, drain, next, check_all,
  check_first, check_against, check_pair, reservation_end,
}
use barebone_kernel.Fdt.Reservation.Spec.{encode, PairwiseApart}
use barebone_kernel.Fdt.Reservation.Sound.{Kept, new-Kept, new-encode}

abbrev region : ℕ → ℕ → MemoryReservation
region a s = record { address = a; size = s }

abbrev two : List MemoryReservation
two = region 0x8000_0000 0x1000 ∷ region 0x8000_1000 0x200 ∷ []

abbrev clash : List MemoryReservation
clash = region 0x8000_0000 0x1000 ∷ region 0x8000_0fff 0x200 ∷ []

two_runs : new (encode two ++ 1 ∷ 2 ∷ []) ≡ ok (encode two)
unfolding new scan round validate_no_overlaps drain next check_all check_first check_against
    check_pair reservation_end Reader.read_u64 Reader.read_bytes
two_runs = refl

clash_runs : new (encode clash) ≡ err (overlap 0x8000_0000 0x1000 0x8000_0fff 0x200)
unfolding new scan round validate_no_overlaps drain next check_all check_first check_against
    check_pair reservation_end Reader.read_u64 Reader.read_bytes
clash_runs = refl

are_bytes : All IsByte (encode two ++ 1 ∷ 2 ∷ [])
are_bytes = omega arith

new-Kept_example : Kept (encode two ++ 1 ∷ 2 ∷ []) (new (encode two ++ 1 ∷ 2 ∷ []))
new-Kept_example = new-Kept (encode two ++ 1 ∷ 2 ∷ []) are_bytes (omega arith)

apart : PairwiseApart two
apart = ((λ x p q. omega arith, tt), (tt, tt))

new-encode_example : new (encode two ++ 1 ∷ 2 ∷ []) ≡ ok (encode two)
new-encode_example = new-encode two (1 ∷ 2 ∷ []) are_bytes (omega arith) (omega arith) apart
