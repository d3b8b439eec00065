-- ===== src/Fdt/Reservation.antt =====
-- fdt/src/reservation.rs: the memory reservation block, a list of (address, size) entries that ends
-- with the entry (0, 0).
pub mod Spec
pub mod Scan
pub mod Disjoint
pub mod Sound
mod Examples
use barebone_kernel.Base.{
  ℕ, zero, suc, ◌+◌, Bool, true, false, not, ◌&&◌, Option, none, some, List, [], ◌∷◌, Bytes, length,
  take, drop, slice?, checked_add, from_be_bytes, if◌then◌else◌, ◌==◌, leb, ltb, Result, ok, err,
  fault, out_of_fuel, expect, ok_or, check, ◌>>=◌, ◌>>◌,
}
use barebone_kernel.Fdt.Reader
use barebone_kernel.Fdt.Reader.{Reader, ReadError, ReadM, read_u64, and_then, convert}

pub data ReservationError : Type 0 where
  read : ReadError → ReservationError
  range_end_overflow : (address size : ℕ) → ReservationError
  overlap : (first_address first_size second_address second_size : ℕ) → ReservationError

pub record MemoryReservation : Type 0 where
  pub address : ℕ
  pub size : ℕ

unfoldable pub reservation_end : ℕ → ℕ → Result ℕ ReservationError
reservation_end address size = ok_or (checked_add address size) (range_end_overflow address size)

-- One round of the loop of `Reservations::new` on an entry, with what goes on behind it.
unfoldable pub round : ℕ → ℕ → ReadM ℕ ReservationError → ReadM ℕ ReservationError
unfolding reservation_end
round address size again r =
    if address == 0 && size == 0
    then Reader.position r
    else and_then (reservation_end address size, r) λ _. again

-- The loop that looks for the terminating entry; the offset behind it.
unfoldable pub scan : ℕ → ReadM ℕ ReservationError
scan zero r = (fault out_of_fuel, r)
scan (suc fuel) r =
    and_then (convert read read_u64 r)
      λ address. Reader.◌>>=◌ (convert read read_u64) λ size. round address size (scan fuel)

-- `split_first_chunk::<8>`
abbrev pub split_first_chunk : Bytes → Option (Bytes × Bytes)
split_first_chunk bytes = if leb 8 (length bytes) then some (take 8 bytes, drop 8 bytes) else none

yielded : ℕ → ℕ → Bytes → Option MemoryReservation × Bytes
yielded address size rest =
    if address == 0 && size == 0
    then (none, [])
    else (some (record { address = address; size = size }), rest)

-- `MemoryReservations::next`: what it yields, and the bytes that it leaves.
unfoldable pub next : Bytes → Option MemoryReservation × Bytes
unfolding yielded
next bytes = elim (split_first_chunk bytes) [
  | none ↦ (none, bytes)
  | some (address, remaining) ↦ elim (split_first_chunk remaining) [
    | none ↦ (none, bytes)
    | some (size, rest) ↦ yielded (from_be_bytes address) (from_be_bytes size) rest
  ]
]

-- All that the iterator yields, in at most `fuel` steps. Each takes sixteen bytes.
unfoldable pub drain : ℕ → Bytes → List MemoryReservation
drain zero bytes = []
drain (suc fuel) bytes =
    let (item, rest) = next bytes in elim item [ none ↦ [] | some r ↦ r ∷ drain fuel rest ]

abbrev pub iter : Bytes → List MemoryReservation
iter bytes = drain (length bytes) bytes

abbrev pub overlaps : ℕ → ℕ → ℕ → ℕ → Bool
overlaps first_address first_end second_address second_end =
    ltb first_address second_end && ltb second_address first_end

-- The body of the inner loop of `validate_no_overlaps`.
unfoldable pub check_pair :
    MemoryReservation → ℕ → MemoryReservation → Result (Unit {0}) ReservationError
unfolding reservation_end
check_pair first first_end second =
    if second.size == 0
    then ok tt
    else reservation_end second.address second.size >>= λ second_end.
        check (not (overlaps first.address first_end second.address second_end))
          (overlap first.address first.size second.address second.size)

-- The inner loop, over the entries that follow `first`.
unfoldable pub check_against :
    MemoryReservation → ℕ → List MemoryReservation → Result (Unit {0}) ReservationError
check_against first first_end [] = ok tt
check_against first first_end (second ∷ rest) = do
  check_pair first first_end second
  check_against first first_end rest

-- The body of the outer loop.
unfoldable pub check_first :
    MemoryReservation → List MemoryReservation → Result (Unit {0}) ReservationError
check_first first rest =
    if first.size == 0
    then ok tt
    else reservation_end first.address first.size >>= λ first_end.
        check_against first first_end rest

unfoldable pub check_all : List MemoryReservation → Result (Unit {0}) ReservationError
check_all [] = ok tt
check_all (first ∷ rest) = do check_first first rest; check_all rest

unfoldable pub validate_no_overlaps : Bytes → Result (Unit {0}) ReservationError
validate_no_overlaps bytes = check_all (iter bytes)

-- `Reservations::new`: the bytes that the view keeps. A round takes sixteen bytes, so the fuel is
-- more than enough.
unfoldable pub new : Bytes → Result Bytes ReservationError
new bytes = do
  end ← (scan (suc (length bytes)) (Reader.new bytes)).0
  kept ← expect (slice? bytes 0 end)
  validate_no_overlaps kept
  ok kept
