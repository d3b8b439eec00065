-- ===== src/Fdt/Reader/RoundTrip.antt =====
-- Big-endian integers that were written are read back.
use barebone_kernel.Base.{
  ◌+◌, ◌*◌, ◌/◌, ◌%◌, ◌^◌, ◌≤◌, ◌<◌, ◌≡◌, ◌⊎◌, inl, inr, [], ◌∷◌, All, All-drop, IsByte,
  append_assoc, err, sym, ap, ◌∙◌, arith, ◌++◌, Bytes, length, ok, IsU32, IsU64, to_be_32, to_be_64,
  from_be_bytes-to_be_32, from_be_bytes-to_be_64, ℕ, take, drop, from_be_bytes,
}
use mathlib.Core.Path.{ap₂}
use native.Mathlib.Decide.{dec_le}
use barebone_kernel.Fdt.Reader.{
  Reader, truncated, IsValid, unread, advance, remaining, read_u32, read_u64,
}
use barebone_kernel.Fdt.Reader.Cursor.{
  length-unread, unread-advance, read_u32-ok, read_u64-ok, read_u32-err, read_u64-err,
  advance-IsValid,
}

-- Where the unread bytes begin with the big-endian encoding of a 32-bit value, `read_u32` returns
-- that value and leaves the cursor in front of the bytes that follow it.
pub read_u32-to_be_32 :
    {r : Reader} (v : ℕ) (rest : Bytes)
    → IsValid r
    → IsU32 v
    → unread r ≡ to_be_32 v ++ rest
    → (read_u32 r ≡ (ok v, advance r 4)) × (unread (advance r 4) ≡ rest)
read_u32-to_be_32 {r} v rest valid h e = (
  read_u32-ok valid (omega (arith, length-unread r, ap length e))
      ∙ ap (λ (n : ℕ). (ok n, advance r 4))
          (ap (λ (xs : Bytes). from_be_bytes (take 4 xs)) e ∙ from_be_bytes-to_be_32 v h),
  unread-advance r 4 ∙ ap (drop 4) e,
)

-- Where the unread bytes begin with the big-endian encoding of a 64-bit value, `read_u64` returns
-- that value and leaves the cursor in front of the bytes that follow it.
pub read_u64-to_be_64 :
    {r : Reader} (v : ℕ) (rest : Bytes)
    → IsValid r
    → IsU64 v
    → unread r ≡ to_be_64 v ++ rest
    → (read_u64 r ≡ (ok v, advance r 8)) × (unread (advance r 8) ≡ rest)
read_u64-to_be_64 {r} v rest valid h e = (
  read_u64-ok valid (omega (arith, length-unread r, ap length e))
      ∙ ap (λ (n : ℕ). (ok n, advance r 8))
          (ap (λ (xs : Bytes). from_be_bytes (take 8 xs)) e ∙ from_be_bytes-to_be_64 v h),
  unread-advance r 8 ∙ ap (drop 8) e,
)

to_be_32-from_be_bytes :
    (a b c d : ℕ) (xs : Bytes)
    → All IsByte (a ∷ b ∷ c ∷ d ∷ xs)
    → a ∷ b ∷ c ∷ d ∷ xs ≡ to_be_32 (from_be_bytes (a ∷ b ∷ c ∷ d ∷ [])) ++ xs
to_be_32-from_be_bytes a b c d xs h = ground arith

pub split_be_32 :
    (xs : Bytes)
    → All IsByte xs
    → 4 ≤ length xs
    → (v : ℕ) × (rest : Bytes) × IsU32 v × (xs ≡ to_be_32 v ++ rest) × All IsByte rest
split_be_32 (a ∷ b ∷ c ∷ d ∷ xs) h e = (
  from_be_bytes (a ∷ b ∷ c ∷ d ∷ []),
  xs,
  omega arith,
  to_be_32-from_be_bytes a b c d xs h,
  h.1.1.1.1,
)
split_be_32 (a ∷ b ∷ c ∷ []) h e = absurd (omega arith)
split_be_32 (a ∷ b ∷ []) h e = absurd (omega arith)
split_be_32 (a ∷ []) h e = absurd (omega arith)
split_be_32 [] h e = absurd (omega arith)

halves : (u v : ℕ) → IsU32 u → IsU32 v → to_be_64 (u * 2 ^ 32 + v) ≡ to_be_32 u ++ to_be_32 v
halves u v hu hv = ap₂ ◌++◌ (ap to_be_32 (quotient u v hu hv)) (ap to_be_32 (remainder u v hu hv))
  where
    quotient : (u v : ℕ) → IsU32 u → IsU32 v → (u * 2 ^ 32 + v) / 2 ^ 32 ≡ u
    quotient u v hu hv = omega arith

    remainder : (u v : ℕ) → IsU32 u → IsU32 v → (u * 2 ^ 32 + v) % 2 ^ 32 ≡ v
    remainder u v hu hv = omega arith

pub split_be_64 :
    (xs : Bytes)
    → All IsByte xs
    → 8 ≤ length xs
    → (v : ℕ) × (rest : Bytes) × IsU64 v × (xs ≡ to_be_64 v ++ rest) × All IsByte rest
split_be_64 xs h e =
    let (u, mid, hu, eu, hm) = split_be_32 xs h (omega arith) in
    let (v, rest, hv, ev, hr) = split_be_32 mid hm (omega (arith, ap length eu)) in
    (
      u * 2 ^ 32 + v,
      rest,
      omega arith,
      eu
          ∙ ap (λ (ys : Bytes). to_be_32 u ++ ys) ev
          ∙ sym (append_assoc (to_be_32 u) (to_be_32 v) rest)
          ∙ ap (λ (ys : Bytes). ys ++ rest) (sym (halves u v hu hv)),
      hr,
    )

-- A read either finds the encoding of a value, or fails with the cursor where it was.
pub read_u64-cases :
    {r : Reader}
    → IsValid r
    → ((v : ℕ) × (rest : Bytes) × IsU64 v
        × (unread r ≡ to_be_64 v ++ rest)
        × (read_u64 r ≡ (ok v, advance r 8))
        × (unread (advance r 8) ≡ rest)
        × IsValid (advance r 8)
        × (8 ≤ remaining r))
      ⊎ (remaining r < 8) × (read_u64 r ≡ (err (truncated r.offset 8 (remaining r)), r))
read_u64-cases {r} valid = elim (dec_le 8 (remaining r)) [
  | yes h ↦
      let (v, rest, hv, e, _) =
        split_be_64 (unread r) (All-drop IsByte r.offset r.bytes valid.are_bytes)
          (omega (arith, length-unread r)) in
      let (done, after) = read_u64-to_be_64 v rest valid hv e in
      inl (v, rest, hv, e, done, after, advance-IsValid 8 valid h, h)
  | no h ↦ inr (omega arith, read_u64-err valid (omega arith))
]

pub read_u32-cases :
    {r : Reader}
    → IsValid r
    → ((v : ℕ) × (rest : Bytes) × IsU32 v
        × (unread r ≡ to_be_32 v ++ rest)
        × (read_u32 r ≡ (ok v, advance r 4))
        × (unread (advance r 4) ≡ rest)
        × IsValid (advance r 4)
        × (4 ≤ remaining r))
      ⊎ (remaining r < 4) × (read_u32 r ≡ (err (truncated r.offset 4 (remaining r)), r))
read_u32-cases {r} valid = elim (dec_le 4 (remaining r)) [
  | yes h ↦
      let (v, rest, hv, e, _) =
        split_be_32 (unread r) (All-drop IsByte r.offset r.bytes valid.are_bytes)
          (omega (arith, length-unread r)) in
      let (done, after) = read_u32-to_be_32 v rest valid hv e in
      inl (v, rest, hv, e, done, after, advance-IsValid 4 valid h, h)
  | no h ↦ inr (omega arith, read_u32-err valid (omega arith))
]
