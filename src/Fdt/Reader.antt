-- ===== src/Fdt/Reader.antt =====
-- fdt/src/reader.rs: a cursor into an immutable byte slice.
pub mod Cursor
pub mod Sound
pub mod RoundTrip
mod Examples
use barebone_kernel.Base.{
  ℕ, zero, suc, ◌+◌, ◌-◌, ◌%◌, ◌≤◌, ◌<◌, ◌^◌, Bool, Option, none, some, List, [], ◌∷◌, Bytes,
  IsByte, All, length, take, drop, slice?, checked_add, from_be_bytes, if◌then◌else◌, ◌==◌,
  Option-cases, Result, ok, err, fault, panicked, expect, map_err,
}
use mathlib.Core.Option

pub data ReadError : Type 0 where
  truncated : (offset requested remaining : ℕ) → ReadError
  missing_nul_terminator : (offset : ℕ) → ReadError

pub record Reader : Type 0 where
  pub bytes : Bytes
  pub offset : ℕ

-- An operation on `&mut Reader`: its result, and the reader that it leaves, on errors too.
abbrev pub ReadM : Type 0 → Type 0 → Type 0
ReadM A E = Reader → Result A E × Reader

abbrev pub and_then : {A B E : Type 0} → Result A E × Reader → (A → ReadM B E) → Result B E × Reader
and_then (ok a, r) f = f a r
and_then (err e, r) f = (err e, r)
and_then (fault x, r) f = (fault x, r)

infixl 5 ◌>>=◌ ◌>>◌
abbrev pub ◌>>=◌ : {A B E : Type 0} → ReadM A E → (A → ReadM B E) → ReadM B E
◌>>=◌ m f r = and_then (m r) f

abbrev pub ◌>>◌ : {A B E : Type 0} → ReadM A E → ReadM B E → ReadM B E
m >> k = m >>= λ _. k

abbrev pub lift : {A E : Type 0} → Result A E → ReadM A E
lift x r = (x, r)

-- `.map_err(f)` behind an operation, and the conversion that `?` makes
abbrev pub convert : {A E F : Type 0} → (E → F) → ReadM A E → ReadM A F
convert f m r = let (x, r') = m r in (map_err f x, r')

abbrev pub position : {E : Type 0} → ReadM ℕ E
position r = (ok r.offset, r)

abbrev pub new : Bytes → Reader
new bytes = record { bytes = bytes; offset = 0 }

abbrev pub remaining : Reader → ℕ
remaining r = length r.bytes - r.offset

abbrev pub advance : Reader → ℕ → Reader
advance r n = record r { offset = r.offset + n }

-- the reader after `self.bytes.get(start..end)`
take_slice : Reader → ℕ → ℕ → Option Bytes → Result Bytes ReadError × Reader
take_slice r n end none = (err (truncated r.offset n (remaining r)), r)
take_slice r n end (some bs) = (ok bs, record r { offset = end })

take_checked : Reader → ℕ → Option ℕ → Result Bytes ReadError × Reader
unfolding take_slice
take_checked r n none = (err (truncated r.offset n (remaining r)), r)
take_checked r n (some end) = take_slice r n end (slice? r.bytes r.offset end)

unfoldable pub read_bytes : ℕ → ReadM Bytes ReadError
unfolding take_checked
read_bytes n r = take_checked r n (checked_add r.offset n)

-- `bytes[0]`
abbrev first : {E : Type 0} → Bytes → Result ℕ E
first [] = fault panicked
first (b ∷ bs) = ok b

-- `bytes.try_into().expect(..)` into an array of `n` bytes
abbrev array : {E : Type 0} → ℕ → Bytes → Result Bytes E
array n bs = if length bs == n then ok bs else fault panicked

unfoldable pub read_u8 : ReadM ℕ ReadError
read_u8 = do bs ← read_bytes 1; lift (first bs)

unfoldable pub read_u32 : ReadM ℕ ReadError
read_u32 = do bs ← read_bytes 4; four ← lift (array 4 bs); lift (ok (from_be_bytes four))

unfoldable pub read_u64 : ReadM ℕ ReadError
read_u64 = do bs ← read_bytes 8; eight ← lift (array 8 bs); lift (ok (from_be_bytes eight))

abbrev pub padding : ℕ → ℕ
padding offset = (4 - offset % 4) % 4

unfoldable pub align_to_4 : ReadM Bytes ReadError
align_to_4 r = read_bytes (padding r.offset) r

-- `remaining.iter().position(|&byte| byte == 0)`
unfoldable pub position_of_nul : Bytes → Option ℕ
position_of_nul [] = none
position_of_nul (b ∷ bs) = if b == 0 then some 0 else Option.map suc (position_of_nul bs)

-- `&self.bytes[self.offset..]`
unfoldable pub remaining_bytes : {E : Type 0} → Reader → Result Bytes E
remaining_bytes r = expect (slice? r.bytes r.offset (length r.bytes))

found_nul : Option ℕ → ReadM Bytes ReadError
found_nul none r = (err (missing_nul_terminator r.offset), r)
found_nul (some n) r = and_then (read_bytes (n + 1) r) λ bs. lift (expect (slice? bs 0 n))

unfoldable pub read_nul_terminated : ReadM Bytes ReadError
unfolding found_nul
read_nul_terminated r = and_then (remaining_bytes r, r) λ rest. found_nul (position_of_nul rest)

-- What every operation keeps. A slice holds fewer than 2 ^ 63 bytes.
pub record IsValid (r : Reader) : Type 0 where
  pub in_bounds : r.offset ≤ length r.bytes
  pub small : length r.bytes < 2 ^ 63
  pub are_bytes : All IsByte r.bytes

-- The abstract view: what is still to be read.
abbrev pub unread : Reader → Bytes
unread r = drop r.offset r.bytes
