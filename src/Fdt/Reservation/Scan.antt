-- ===== src/Fdt/Reservation/Scan.antt =====
-- The loop that looks for the terminating entry, and the iterator over the entries.
use barebone_kernel.Base.{
  ℕ, zero, suc, ◌+◌, ◌*◌, ◌≤◌, ◌<◌, ◌^◌, ◌≡◌, ◌⊎◌, inl, inr, refl, sym, ap, ◌∙◌, arith, List, [],
  ◌∷◌, ◌++◌, All, Bool-cases, ◌==◌, ◌&&◌, Result, ok, err, fault, Bytes, IsU64, length, to_be_64,
  append_assoc, append-nil, Option, none, some, from_be_bytes-to_be_64, ltb,
}
use mathlib.Core.Path.{ap₂}
use barebone_kernel.Fdt.Reader.{
  Reader, ReadM, ReadError, IsValid, unread, advance, remaining, read_u64,
}
use barebone_kernel.Fdt.Reader.Cursor.{length-unread, advance-IsValid}
use barebone_kernel.Fdt.Reader.RoundTrip.{read_u64-cases, read_u64-to_be_64}
use barebone_kernel.Fdt.Reservation.{
  MemoryReservation, ReservationError, read, range_end_overflow, overlap, round, scan, next, drain,
  iter,
}
use barebone_kernel.Fdt.Reservation.Spec.{IsEntry, encode_entry, encode_rest, encode}

-- What the loop finds in the bytes `bs`, which begin at offset `start`.
abbrev pub Scanned : Bytes → ℕ → Result ℕ ReservationError → Type 0
Scanned bs start (ok end) =
    (rs : List MemoryReservation) × (trailing : Bytes) × (bs ≡ encode rs ++ trailing)
    × All IsEntry rs
    × (end ≡ start + length (encode rs))
Scanned bs start (err (read e)) = Unit
Scanned bs start (err (range_end_overflow address size)) =
    (rs : List MemoryReservation) × (trailing : Bytes) × (bs
      ≡ encode_rest rs (encode_entry address size ++ trailing))
    × All IsEntry rs
    × (2 ^ 64 ≤ address + size)
Scanned bs start (err (overlap _ _ _ _)) = ⊥
Scanned bs start (fault x) = ⊥

pub length-encode_rest :
    (rs : List MemoryReservation) (xs : Bytes)
    → length (encode_rest rs xs) ≡ 16 * length rs + length xs
length-encode_rest [] xs = omega arith
length-encode_rest (r ∷ rs) xs = omega (arith, length-encode_rest rs xs)

Scanned-cons :
    (a s start next_start : ℕ) (bs rest : Bytes) (r : Result ℕ ReservationError)
    → IsEntry (record { address = a; size = s })
    → bs ≡ encode_entry a s ++ rest
    → next_start ≡ start + 16
    → Scanned rest next_start r
    → Scanned bs start r
Scanned-cons a s start after bs rest (ok end) h e k (rs, trailing, split, are, at) = (
  record { address = a; size = s } ∷ rs,
  trailing,
  e ∙ ap (λ (xs : Bytes). encode_entry a s ++ xs) split,
  (h, are),
  omega arith,
)
Scanned-cons a s start after bs rest (err (read x)) h e k v = tt
Scanned-cons a s start after bs rest (err (range_end_overflow x y)) h e k
      (rs, trailing, split, are, big) =
    (
      record { address = a; size = s } ∷ rs,
      trailing,
      e ∙ ap (λ (xs : Bytes). encode_entry a s ++ xs) split,
      (h, are),
      big,
    )
Scanned-cons a s start after bs rest (err (overlap _ _ _ _)) h e k v = v
Scanned-cons a s start after bs rest (fault x) h e k v = v

-- One round, on an entry that stands at the cursor.
round-cases :
    (a s : ℕ) (again : ReadM ℕ ReservationError) (r : Reader)
    → IsU64 a
    → IsU64 s
    → (a ≡ 0) × (s ≡ 0) × ((round a s again r).0 ≡ ok r.offset)
      ⊎ (2 ^ 64 ≤ a + s) × ((round a s again r).0 ≡ err (range_end_overflow a s))
      ⊎ IsEntry (record { address = a; size = s }) × ((round a s again r).0 ≡ (again r).0)
unfolding round
round-cases a s again r ua us = elim (Bool-cases (a == 0 && s == 0)) [
  | inl end ↦ inl (ground arith, ground arith, rw end)
  | inr more ↦ elim (Bool-cases (ltb (a + s) (2 ^ 64))) [
    | inl fits ↦ inr (
        inr (
          record {
            address_u64 = ua;
            size_u64 = us;
            not_terminator = ground arith;
            end_u64 = ground arith;
          },
          rw (more, fits),
        ))
    | inr big ↦ inr (inl (ground arith, rw (more, big)))
  ]
]

scan-round :
    (fuel a s : ℕ) (r : Reader)
    → read_u64 r ≡ (ok a, advance r 8)
    → read_u64 (advance r 8) ≡ (ok s, advance (advance r 8) 8)
    → scan (suc fuel) r ≡ round a s (scan fuel) (advance (advance r 8) 8)
unfolding scan
scan-round fuel a s r ea es = rw (ea, es)

scan_short :
    (fuel : ℕ) (r : Reader) (e : ReadError)
    → read_u64 r ≡ (err e, r)
    → (scan (suc fuel) r).0 ≡ err (read e)
unfolding scan
scan_short fuel r e h = rw h

scan_short_size :
    (fuel a : ℕ) (r : Reader) (e : ReadError)
    → read_u64 r ≡ (ok a, advance r 8)
    → read_u64 (advance r 8) ≡ (err e, advance r 8)
    → (scan (suc fuel) r).0 ≡ err (read e)
unfolding scan
scan_short_size fuel a r e ea es = rw (ea, es)

-- With a round for every sixteen bytes the loop ends, and finds what stands in the bytes.
pub scan-Scanned :
    (fuel : ℕ) (r : Reader)
    → IsValid r
    → remaining r < 16 * fuel
    → Scanned (unread r) r.offset (scan fuel r).0
scan-Scanned zero r v h = absurd (omega arith)
scan-Scanned (suc fuel) r v h = elim (read_u64-cases v) [
  | inr (short, e) ↦ rw (scan_short fuel r _ e) tt
  | inl (a, mid, ua, ea, ra, na, va, la) ↦ elim (read_u64-cases va) [
    | inr (short, e) ↦ rw (scan_short_size fuel a r _ ra e) tt
    | inl (s, rest, us, es, rs, ns, vs, ls) ↦
        let split : unread r ≡ encode_entry a s ++ rest =
          ea
          ∙ ap (λ (xs : Bytes). to_be_64 a ++ xs) (sym na ∙ es)
          ∙ sym (append_assoc (to_be_64 a) (to_be_64 s) rest) in
        let later : Scanned rest (r.offset + 8 + 8) (scan fuel (advance (advance r 8) 8)).0 =
          rw ns at (scan-Scanned fuel (advance (advance r 8) 8) vs (omega arith)) in
        rw (scan-round fuel a s r ra rs)
          (elim (round-cases a s (scan fuel) (advance (advance r 8) 8) ua us) [
            | inl (za, zs, e) ↦ rw e (
              [],
              rest,
              split ∙ ap₂ (λ (x y : ℕ). encode_entry x y ++ rest) za zs,
              tt,
              omega arith,
            )
            | inr (inl (big, e)) ↦ rw e ([], rest, split, tt, big)
            | inr (inr (entry, e)) ↦ rw e (
                Scanned-cons a s r.offset (r.offset + 8 + 8) (unread r) rest _ entry split
                  (omega arith) later)
          ])
  ]
]

-- An entry in front of `tail` is read by two reads, which leave `tail`.
read_entry :
    (a s : ℕ) (tail : Bytes) (r : Reader)
    → IsValid r
    → IsU64 a
    → IsU64 s
    → unread r ≡ encode_entry a s ++ tail
    → (read_u64 r ≡ (ok a, advance r 8))
      × (read_u64 (advance r 8) ≡ (ok s, advance (advance r 8) 8))
      × (unread (advance (advance r 8) 8) ≡ tail)
      × IsValid (advance (advance r 8) 8)
read_entry a s tail r v ua us e =
    let split = e ∙ append_assoc (to_be_64 a) (to_be_64 s) tail in
    let room : 16 ≤ remaining r = omega (arith, length-unread r, ap length e) in
    let va = advance-IsValid 8 v (omega arith) in
    let (ra, na) = read_u64-to_be_64 a (to_be_64 s ++ tail) v ua split in
    let (rs, ns) = read_u64-to_be_64 s tail va us na in
    (ra, rs, ns, advance-IsValid 8 va (omega arith))

round-entry :
    (a s : ℕ) (again : ReadM ℕ ReservationError) (r : Reader)
    → IsEntry (record { address = a; size = s })
    → round a s again r ≡ again r
unfolding round
round-entry a s again r h = ground arith

-- The loop runs through the entries up to the terminating one.
pub scan-encode :
    (rs : List MemoryReservation) (trailing : Bytes) (fuel : ℕ) (r : Reader)
    → IsValid r
    → All IsEntry rs
    → length rs < fuel
    → unread r ≡ encode rs ++ trailing
    → (scan fuel r).0 ≡ ok (r.offset + length (encode rs))
scan-encode rs trailing zero r v h f e = absurd (omega arith)
scan-encode [] trailing (suc fuel) r v h f e =
    let (ra, rs, ns, vs) = read_entry 0 0 trailing r v (omega arith) (omega arith) e in
    rw (scan-round fuel 0 0 r ra rs) (unfold round in ap ok (omega arith))
scan-encode (x ∷ xs) trailing (suc fuel) r v h f e =
    let tail = encode xs ++ trailing in
    let (ra, rs, ns, vs) =
      read_entry x.address x.size tail r v h.0.address_u64 h.0.size_u64
        (e ∙ append_assoc (encode_entry x.address x.size) (encode xs) trailing) in
    rw
      (
        scan-round fuel x.address x.size r ra rs,
        round-entry x.address x.size (scan fuel) (advance (advance r 8) 8) h.0,
      )
      (scan-encode xs trailing fuel (advance (advance r 8) 8) vs h.1 (omega arith) ns
        ∙ ap ok (omega arith))

next-entry :
    (x : MemoryReservation) (rest : Bytes)
    → IsEntry x
    → next (encode_entry x.address x.size ++ rest) ≡ (some x, rest)
unfolding next
next-entry x rest h = ground (
  arith,
  from_be_bytes-to_be_64 x.address h.address_u64,
  from_be_bytes-to_be_64 x.size h.size_u64,
)

next_end : (rest : Bytes) → next (encode_entry 0 0 ++ rest) ≡ (none, [])
unfolding next
next_end rest = ground arith

drain-none : (fuel : ℕ) (bs rest : Bytes) → next bs ≡ (none, rest) → drain (suc fuel) bs ≡ []
unfolding drain
drain-none fuel bs rest h = rw (h, drain)

drain-some :
    (fuel : ℕ) (bs rest : Bytes) (x : MemoryReservation)
    → next bs ≡ (some x, rest)
    → drain (suc fuel) bs ≡ x ∷ drain fuel rest
unfolding drain
drain-some fuel bs rest x h =
    rw (h, drain) (ap (λ (p : Option MemoryReservation × Bytes). x ∷ drain fuel p.1) h)

-- The iterator yields the entries of an encoding in their order, and not the terminating one.
pub drain-encode :
    (rs : List MemoryReservation) (trailing : Bytes) (fuel : ℕ)
    → All IsEntry rs
    → length rs ≤ fuel
    → drain fuel (encode rs ++ trailing) ≡ rs
drain-encode [] trailing zero h f = unfold drain in refl
drain-encode [] trailing (suc fuel) h f = drain-none fuel _ [] (next_end trailing)
drain-encode (x ∷ xs) trailing zero h f = absurd (omega arith)
drain-encode (x ∷ xs) trailing (suc fuel) h f =
    drain-some fuel _ (encode xs ++ trailing) x (next-entry x (encode xs ++ trailing) h.0)
    ∙ ap (◌∷◌ x) (drain-encode xs trailing fuel h.1 (omega arith))

pub iter-encode : (rs : List MemoryReservation) → All IsEntry rs → iter (encode rs) ≡ rs
iter-encode rs h =
    ap (drain (length (encode rs))) (sym (append-nil (encode rs)))
    ∙ drain-encode rs [] (length (encode rs)) h
        (omega (arith, length-encode_rest rs (encode_entry 0 0)))
