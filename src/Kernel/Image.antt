-- ===== src/Kernel/Image.antt =====
-- kernel/src/process/image.rs: the image of a user program, as `Image::parse` reads it.
pub mod Format
pub mod Sound
mod Examples
use barebone_kernel.Base.{
  ℕ, ◌+◌, ◌-◌, ◌%◌, Bytes, Bool, true, ◌||◌, ◌&&◌, not, Option, none, some, [], ◌∷◌, if◌then◌else◌,
  ◌==◌, leb, ltb, length, take, drop, slice?, bytes_eq, from_le_bytes, checked_add, Result, ok, err,
  ok_or, check, ◌>>=◌,
}
use mathlib.Core.Option
use barebone_kernel.Kernel.Memory.{VirtAddr, frame_size}
use barebone_kernel.Kernel.Heap.{mask_down}

abbrev pub header_size : ℕ
header_size = 32

pub record Image : Type 0 where
  pub base : VirtAddr
  pub entry : VirtAddr
  pub bytes : Bytes

-- `LoadError`, over the errors of memory access and of paging.
pub data LoadError (M P : Type 0) : Type 0 where
  missing_image : LoadError M P
  invalid_image : LoadError M P
  already_claimed : LoadError M P
  kernel_stack_allocation : LoadError M P
  memory : M → LoadError M P
  paging : P → LoadError M P

-- `b"BBUSER01"`
abbrev pub magic : Bytes
magic = 66 ∷ 66 ∷ 85 ∷ 83 ∷ 69 ∷ 82 ∷ 48 ∷ 49 ∷ []

-- `field`, the closure of `parse`
abbrev pub field : Bytes → ℕ → Option ℕ
field header start = Option.map from_le_bytes (slice? header start (start + 8))

-- `end.checked_add(FRAME_SIZE - 1)?  & !(FRAME_SIZE - 1)`
abbrev pub mapped_end : ℕ → Option ℕ
mapped_end end = Option.map (λ e. mask_down e frame_size) (checked_add end (frame_size - 1))

-- The condition under which `parse` refuses the fields.
abbrev pub is_inconsistent : (base entry size payload end mapped limit : ℕ) → Bool
is_inconsistent base entry size payload end mapped limit =
    size == 0
    || not (size == payload)
    || ltb base frame_size
    || not (base % frame_size == 0)
    || not (leb base entry && ltb entry end)
    || not (entry % 2 == 0)
    || ltb limit mapped

module _ {M P : Type 0} where
  -- `parse` behind the header's fields.
  unfoldable pub checked : (limit base entry size : ℕ) → Bytes → Result Image (LoadError M P)
  checked limit base entry size payload = ok_or (checked_add base size) invalid_image >>= λ end.
      ok_or (mapped_end end) invalid_image >>= λ mapped.
      if is_inconsistent base entry size (length payload) end mapped limit
      then err invalid_image
      else ok (record { base = base; entry = entry; bytes = payload })

  -- `Image::parse`
  unfoldable pub parse : Bytes → ℕ → Result Image (LoadError M P)
  unfolding checked
  parse bytes limit =
      if length bytes == 0
      then err missing_image
      else ok_or (slice? bytes 0 header_size) invalid_image >>= λ header.
          if not (bytes_eq (take 8 header) magic)
          then err invalid_image
          else ok_or (field header 8) invalid_image >>= λ base.
              ok_or (field header 16) invalid_image >>= λ entry.
              ok_or (field header 24) invalid_image >>= λ size.
              ok_or (slice? bytes header_size (length bytes)) invalid_image >>= λ payload.
              checked limit base entry size payload
