-- ===== src/Fdt/Reader/Cursor.antt =====
-- The operations of the reader as functions of what is still unread.
use barebone_kernel.Base.{
  ℕ, zero, suc, ◌+◌, ◌-◌, ◌%◌, ◌≤◌, ◌<◌, ◌≡◌, ◌≢◌, refl, sym, ap, arith, List, [], ◌∷◌, ◌++◌, none,
  some, Bytes, All, length, take, drop, length-take, length-drop, length-append, take-append,
  drop-drop, ok, err, from_be_bytes, slice?, ◌⊎◌, inl, inr, take-length,
}
use barebone_kernel.Fdt.Reader.{
  Reader, truncated, missing_nul_terminator, IsValid, unread, advance, remaining, padding,
  read_bytes, read_u8, read_u32, read_u64, align_to_4, position_of_nul, remaining_bytes,
  read_nul_terminated,
}

pub length-unread : (r : Reader) → length (unread r) ≡ remaining r
length-unread r = length-drop r.offset r.bytes

pub unread-advance : (r : Reader) (n : ℕ) → unread (advance r n) ≡ drop n (unread r)
unread-advance r n = sym (drop-drop r.offset n r.bytes)

pub advance-IsValid : {r : Reader} (n : ℕ) → IsValid r → n ≤ remaining r → IsValid (advance r n)
advance-IsValid n v h = record {
  in_bounds = omega (arith, v.in_bounds);
  small = v.small;
  are_bytes = v.are_bytes;
}

sub_add_cancel : (a b : ℕ) → a + b - a ≡ b
sub_add_cancel a b = omega arith

-- A read of `n` bytes takes the next `n` bytes and moves past them.
pub read_bytes-ok :
    {r : Reader} (n : ℕ)
    → IsValid r
    → n ≤ remaining r
    → read_bytes n r ≡ (ok (take n (unread r)), advance r n)
unfolding read_bytes
read_bytes-ok {r} n v h = ground (arith, v.in_bounds, v.small, sub_add_cancel r.offset n)

-- A read of more bytes than remain fails, and the cursor stays.
pub read_bytes-err :
    {r : Reader} (n : ℕ)
    → IsValid r
    → remaining r < n
    → read_bytes n r ≡ (err (truncated r.offset n (remaining r)), r)
unfolding read_bytes
read_bytes-err {r} n v h = ground (arith, v.in_bounds)

length-take_le {ℓ} : {A : Type ℓ} (n : ℕ) (xs : List A) → n ≤ length xs → length (take n xs) ≡ n
length-take_le n xs h = omega (arith, length-take n xs)

length-take-unread : (r : Reader) (n : ℕ) → n ≤ remaining r → length (take n (unread r)) ≡ n
length-take-unread r n h = length-take_le n (unread r) (omega (arith, length-unread r))

pub read_u32-ok :
    {r : Reader}
    → IsValid r
    → 4 ≤ remaining r
    → read_u32 r ≡ (ok (from_be_bytes (take 4 (unread r))), advance r 4)
unfolding read_u32
read_u32-ok {r} v h = rw (read_bytes-ok 4 v h) (rw (length-take-unread r 4 h))

pub read_u64-ok :
    {r : Reader}
    → IsValid r
    → 8 ≤ remaining r
    → read_u64 r ≡ (ok (from_be_bytes (take 8 (unread r))), advance r 8)
unfolding read_u64
read_u64-ok {r} v h = rw (read_bytes-ok 8 v h) (rw (length-take-unread r 8 h))

pub read_u32-err :
    {r : Reader}
    → IsValid r
    → remaining r < 4
    → read_u32 r ≡ (err (truncated r.offset 4 (remaining r)), r)
unfolding read_u32
read_u32-err v h = rw (read_bytes-err 4 v h)

pub read_u64-err :
    {r : Reader}
    → IsValid r
    → remaining r < 8
    → read_u64 r ≡ (err (truncated r.offset 8 (remaining r)), r)
unfolding read_u64
read_u64-err v h = rw (read_bytes-err 8 v h)

pub read_u8-ok :
    {r : Reader} (b : ℕ) (rest : Bytes)
    → IsValid r
    → unread r ≡ b ∷ rest
    → read_u8 r ≡ (ok b, advance r 1)
unfolding read_u8
read_u8-ok {r} b rest v e = rw (read_bytes-ok 1 v (omega (arith, length-unread r, ap length e)), e)

-- Padding moves the cursor by at most three bytes, to a multiple of four.
pub padding_lem : (offset : ℕ) → (padding offset < 4) × ((offset + padding offset) % 4 ≡ 0)
padding_lem offset = omega arith

pub align_to_4-ok :
    {r : Reader}
    → IsValid r
    → padding r.offset ≤ remaining r
    → align_to_4 r ≡ (ok (take (padding r.offset) (unread r)), advance r (padding r.offset))
unfolding align_to_4
align_to_4-ok {r} v h = read_bytes-ok (padding r.offset) v h

pub align_to_4-err :
    {r : Reader}
    → IsValid r
    → remaining r < padding r.offset
    → align_to_4 r ≡ (err (truncated r.offset (padding r.offset) (remaining r)), r)
unfolding align_to_4
align_to_4-err {r} v h = read_bytes-err (padding r.offset) v h

-- No byte of a name is NUL.
abbrev pub NoNul : Bytes → Type 0
NoNul = All (λ b. b ≢ 0)

pub position_of_nul-some :
    (name rest : Bytes) → NoNul name → position_of_nul (name ++ 0 ∷ rest) ≡ some (length name)
unfolding position_of_nul
position_of_nul-some [] rest h = refl
position_of_nul-some (b ∷ bs) rest h = ground (arith, position_of_nul-some bs rest h.1)

pub position_of_nul-none : (bs : Bytes) → NoNul bs → position_of_nul bs ≡ none
unfolding position_of_nul
position_of_nul-none [] h = refl
position_of_nul-none (b ∷ bs) h = ground (arith, position_of_nul-none bs h.1)

-- A list of bytes either has no NUL, or splits at its first one.
pub position_of_nul-cases :
    (bs : Bytes)
    → (NoNul bs × (position_of_nul bs ≡ none))
      ⊎ ((name : Bytes) × (rest : Bytes) × (bs ≡ name ++ 0 ∷ rest)
          × NoNul name
          × (position_of_nul bs ≡ some (length name)))
unfolding position_of_nul
position_of_nul-cases [] = inl (tt, refl)
position_of_nul-cases (zero ∷ bs) = inr ([], bs, refl, tt, refl)
position_of_nul-cases (suc b ∷ bs) = elim (position_of_nul-cases bs) [
  | inl (h, e) ↦ inl ((omega arith, h), ground arith)
  | inr (name, rest, e, h, p) ↦
      inr (suc b ∷ name, rest, ap (◌∷◌ (suc b)) e, (omega arith, h), ground arith)
]

slice_all : (xs : Bytes) (n : ℕ) → n ≤ length xs → slice? xs n (length xs) ≡ some (drop n xs)
slice_all xs n h = ground (
  arith,
  length-drop n xs,
  take-length (drop n xs),
  ap (λ (k : ℕ). take k (drop n xs)) (length-drop n xs),
)

pub remaining_bytes-ok :
    {E : Type 0} {r : Reader} → IsValid r → remaining_bytes {E = E} r ≡ ok (unread r)
unfolding remaining_bytes
remaining_bytes-ok {r = r} v = rw (slice_all r.bytes r.offset v.in_bounds)

take_suc-append : (name rest : Bytes) → take (length name + 1) (name ++ 0 ∷ rest) ≡ name ++ 0 ∷ []
take_suc-append [] rest = refl
take_suc-append (b ∷ bs) rest = ground (arith, take_suc-append bs rest)

pub slice_front : (name rest : Bytes) → slice? (name ++ rest) 0 (length name) ≡ some name
slice_front name rest = ground (arith, length-append name rest, take-append name rest)

-- A terminated name is returned with no NUL, and the cursor stands behind its NUL.
pub read_nul_terminated-ok :
    {r : Reader} (name rest : Bytes)
    → IsValid r
    → NoNul name
    → unread r ≡ name ++ 0 ∷ rest
    → read_nul_terminated r ≡ (ok name, advance r (length name + 1))
unfolding read_nul_terminated
read_nul_terminated-ok {r} name rest v h e =
    rw (remaining_bytes-ok v, e, position_of_nul-some name rest h)
      (rw
        (read_bytes-ok (length name + 1) v
          (omega (arith, length-unread r, ap length e, length-append name (0 ∷ rest))))
        (rw (e, take_suc-append name rest, slice_front name (0 ∷ []))))

-- Without a NUL in what is unread the read fails, and the cursor stays.
pub read_nul_terminated-err :
    {r : Reader}
    → IsValid r
    → NoNul (unread r)
    → read_nul_terminated r ≡ (err (missing_nul_terminator r.offset), r)
unfolding read_nul_terminated
read_nul_terminated-err {r} v h = rw (remaining_bytes-ok v, position_of_nul-none (unread r) h)
