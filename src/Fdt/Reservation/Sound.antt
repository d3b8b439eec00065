-- ===== src/Fdt/Reservation/Sound.antt =====
-- `Reservations::new` accepts exactly the blocks whose entries reserve no address twice.
use barebone_kernel.Base.{
  ℕ, suc, ◌+◌, ◌≤◌, ◌<◌, ◌^◌, ◌≡◌, refl, ap, ◌∙◌, arith, List, [], ◌∷◌, ◌++◌, All, Result, ok, err,
  fault, Bytes, IsByte, length, length-append, slice?, some, subst, ◌>>=◌, ◌>>◌, expect,
}
use barebone_kernel.Fdt.Reader
use barebone_kernel.Fdt.Reader.{Reader}
use barebone_kernel.Fdt.Reader.Cursor.{slice_front}
use barebone_kernel.Fdt.Reservation.{
  MemoryReservation, ReservationError, range_end_overflow, overlap, scan, iter, check_all,
  validate_no_overlaps, new, read,
}
use barebone_kernel.Fdt.Reservation.Spec.{
  IsEntry, encode_entry, encode_rest, encode, Apart, PairwiseApart,
}
use barebone_kernel.Fdt.Reservation.Scan.{
  Scanned, scan-Scanned, scan-encode, iter-encode, length-encode_rest,
}
use barebone_kernel.Fdt.Reservation.Disjoint.{SharedIn, Verdict, check_all-Verdict}

All-middle {ℓ κ} :
    {A : Type ℓ} (P : A → Type κ) (xs ys : List A) (y : A) → All P (xs ++ y ∷ ys) → P y
All-middle P [] ys y h = h.0
All-middle P (x ∷ xs) ys y h = All-middle P xs ys y h.1

Apart-middle :
    (before after : List MemoryReservation) (f : MemoryReservation)
    → PairwiseApart (before ++ f ∷ after)
    → All (Apart f) after
Apart-middle [] after f h = h.0
Apart-middle (x ∷ xs) after f h = Apart-middle xs after f h.1

not_shared :
    (rs : List MemoryReservation) (f s : MemoryReservation) → PairwiseApart rs → SharedIn rs f s → ⊥
not_shared rs f s h v =
    let later =
      Apart-middle v.before (v.between ++ s ∷ v.after) f (subst PairwiseApart v.splits h) in
    All-middle (Apart f) v.between v.after s later v.shared v.in_first v.in_second

PairwiseApart-check_all :
    (rs : List MemoryReservation) → All IsEntry rs → PairwiseApart rs → check_all rs ≡ ok tt
PairwiseApart-check_all rs h apart = by_verdict (check_all rs) (check_all-Verdict rs h)
  where
    by_verdict : (r : Result (Unit {0}) ReservationError) → Verdict rs r → r ≡ ok tt
    by_verdict (ok tt) v = refl
    by_verdict (err e) (f, s, same, v) = absurd (not_shared rs f s apart v)
    by_verdict (fault x) v = absurd v

-- The reader at the start of a slice.
new-IsValid :
    (bytes : Bytes) → All IsByte bytes → length bytes < 2 ^ 63 → Reader.IsValid (Reader.new bytes)
new-IsValid bytes h k = record { in_bounds = omega arith; small = k; are_bytes = h }

scanned :
    (bytes : Bytes)
    → All IsByte bytes
    → length bytes < 2 ^ 63
    → Scanned bytes 0 (scan (suc (length bytes)) (Reader.new bytes)).0
scanned bytes h k =
    scan-Scanned (suc (length bytes)) (Reader.new bytes) (new-IsValid bytes h k) (omega arith)

slice_encode :
    (rs : List MemoryReservation) (trailing : Bytes) (end : ℕ)
    → end ≡ 0 + length (encode rs)
    → slice? (encode rs ++ trailing) 0 end ≡ some (encode rs)
slice_encode rs trailing end e =
    ap (slice? (encode rs ++ trailing) 0) (end_is end (length (encode rs)) e)
    ∙ slice_front (encode rs) trailing
  where
    end_is : (a b : ℕ) → a ≡ 0 + b → a ≡ b
    end_is a b h = omega arith

-- What is kept of a block, once the loop has found its end.
abbrev pub Kept : Bytes → Result Bytes ReservationError → Type 0
Kept bytes (ok kept) =
    (rs : List MemoryReservation) × (trailing : Bytes) × (bytes ≡ encode rs ++ trailing)
    × (kept ≡ encode rs)
    × All IsEntry rs
    × PairwiseApart rs
    × (iter kept ≡ rs)
Kept bytes (err (read e)) = Unit
Kept bytes (err (range_end_overflow address size)) =
    (rs : List MemoryReservation) × (trailing : Bytes) × (bytes
      ≡ encode_rest rs (encode_entry address size ++ trailing))
    × All IsEntry rs
    × (2 ^ 64 ≤ address + size)
Kept bytes (err (overlap a m b n)) =
    (rs : List MemoryReservation) × (trailing : Bytes) × (f : MemoryReservation)
    × (s : MemoryReservation) × (bytes ≡ encode rs ++ trailing)
    × (overlap a m b n ≡ overlap f.address f.size s.address s.size)
    × SharedIn rs f s
Kept bytes (fault x) = ⊥

-- The last two steps, on the bytes up to the end that was found.
finish : Bytes → ℕ → Result Bytes ReservationError
finish bytes end = do kept ← expect (slice? bytes 0 end); validate_no_overlaps kept; ok kept

finish-encode :
    (rs : List MemoryReservation) (trailing : Bytes) (end : ℕ)
    → All IsEntry rs
    → end ≡ 0 + length (encode rs)
    → finish (encode rs ++ trailing) end ≡ (check_all rs >>= λ _. ok (encode rs))
unfolding finish validate_no_overlaps
finish-encode rs trailing end h e = rw (slice_encode rs trailing end e, iter-encode rs h)

finish-Kept :
    (bytes trailing : Bytes) (rs : List MemoryReservation) (r : Result (Unit {0}) ReservationError)
    → bytes ≡ encode rs ++ trailing
    → All IsEntry rs
    → Verdict rs r
    → Kept bytes (r >>= λ _. ok (encode rs))
finish-Kept bytes trailing rs (ok _) e h v = (rs, trailing, e, refl, h, v, iter-encode rs h)
finish-Kept bytes trailing rs (err (read x)) e h (f, s, same, v) = tt
finish-Kept bytes trailing rs (err (range_end_overflow a n)) e h (f, s, same, v) = absurd (cc)
finish-Kept bytes trailing rs (err (overlap a m b n)) e h (f, s, same, v) =
    (rs, trailing, f, s, e, same, v)
finish-Kept bytes trailing rs (fault x) e h v = v

Scanned-Kept :
    (bytes : Bytes) (r : Result ℕ ReservationError)
    → Scanned bytes 0 r
    → Kept bytes (r >>= finish bytes)
Scanned-Kept bytes (ok end) (rs, trailing, e, h, at) =
    rw (ap (λ (b : Bytes). finish b end) e ∙ finish-encode rs trailing end h at)
      (finish-Kept bytes trailing rs (check_all rs) e h (check_all-Verdict rs h))
Scanned-Kept bytes (err (read x)) v = tt
Scanned-Kept bytes (err (range_end_overflow a n)) v = v
Scanned-Kept bytes (err (overlap a m b n)) v = absurd v
Scanned-Kept bytes (fault x) v = v

-- On a slice of bytes `Reservations::new` ends without a panic, and within its fuel. What it keeps
-- are the entries up to the terminating one, each with an end that is a 64-bit value, and no address
-- is reserved by two of them; the iterator over what is kept yields just these entries, in order. An
-- overflow error names the first entry whose end is no 64-bit value, and an overlap error names two
-- entries that reserve a common address.
pub new-Kept : (bytes : Bytes) → All IsByte bytes → length bytes < 2 ^ 63 → Kept bytes (new bytes)
unfolding new finish
new-Kept bytes h k =
    Scanned-Kept bytes (scan (suc (length bytes)) (Reader.new bytes)).0 (scanned bytes h k)

-- Conversely, entries of 64-bit values that reserve no address twice are accepted in front of any
-- bytes, and just their encoding is kept.
pub new-encode :
    (rs : List MemoryReservation) (trailing : Bytes)
    → All IsByte (encode rs ++ trailing)
    → length (encode rs ++ trailing) < 2 ^ 63
    → All IsEntry rs
    → PairwiseApart rs
    → new (encode rs ++ trailing) ≡ ok (encode rs)
unfolding new finish
new-encode rs trailing are small h apart =
    let bytes = encode rs ++ trailing in
    let found =
      scan-encode rs trailing (suc (length bytes)) (Reader.new bytes) (new-IsValid bytes are small)
        h
        (omega
          (arith, length-encode_rest rs (encode_entry 0 0), length-append (encode rs) trailing))
        refl in
    ap (λ (r : Result ℕ ReservationError). r >>= finish bytes) found
    ∙ finish-encode rs trailing (0 + length (encode rs)) h refl
    ∙ ap (λ (r : Result (Unit {0}) ReservationError). r >>= λ _. ok (encode rs))
        (PairwiseApart-check_all rs h apart)
