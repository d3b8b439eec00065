-- ===== src/Fdt/Strings.antt =====
-- fdt/src/strings.rs: property names in the strings block, which is a slice of bytes.
pub mod Names
mod Examples
use barebone_kernel.Base.{
  ℕ, ◌≤◌, Bool, not, ◌&&◌, ◌||◌, Option, none, some, Bytes, length, drop, if◌then◌else◌, ◌==◌, leb,
  ltb, Result, ok, err, fault, map_err, check, ◌>>=◌, ◌>>◌, is_ascii_alphanumeric, find, [], ◌∷◌,
}
use barebone_kernel.Fdt.Reader
use barebone_kernel.Fdt.Reader.{ReadError, read_nul_terminated}

pub data PropertyNameError : Type 0 where
  offset_out_of_bounds : (offset strings_size : ℕ) → PropertyNameError
  unterminated : (offset : ℕ) → PropertyNameError
  invalid_length : (offset length : ℕ) → PropertyNameError
  invalid_character : (offset index byte : ℕ) → PropertyNameError

-- `!byte.is_ascii_alphanumeric() && !matches!(byte, b',' | ..)`
abbrev pub is_invalid : ℕ → Bool
is_invalid b =
    not (is_ascii_alphanumeric b)
    && not (b == b',' || b == b'.' || b == b'_' || b == b'+' || b == b'?' || b == b'#' || b == b'-')

unfoldable pub nonempty : Bytes → Option Bytes
nonempty [] = none
nonempty (b ∷ bs) = some (b ∷ bs)

-- `bytes.get(offset..).filter(|bytes| !bytes.is_empty())`
unfoldable pub tail_from : Bytes → ℕ → Option Bytes
unfolding nonempty
tail_from bytes offset = if leb offset (length bytes) then nonempty (drop offset bytes) else none

unfoldable pub check_characters : ℕ → Option (ℕ × ℕ) → Bytes → Result Bytes PropertyNameError
check_characters offset none name = ok name
check_characters offset (some (index, byte)) name = err (invalid_character offset index byte)

unfoldable pub validate_name : ℕ → Bytes → Result Bytes PropertyNameError
unfolding check_characters
validate_name offset name = do
  check (leb 1 (length name) && leb (length name) 31) (invalid_length offset (length name))
  check_characters offset (find is_invalid name) name

unfoldable pub validate_tail : Bytes → ℕ → Option Bytes → Result Bytes PropertyNameError
validate_tail strings offset none = err (offset_out_of_bounds offset (length strings))
validate_tail strings offset (some bytes) = do
  name ← map_err (λ _. unterminated offset) (read_nul_terminated (Reader.new bytes)).0
  validate_name offset name

-- `Strings::validate_property_name`
unfoldable pub validate_property_name : Bytes → ℕ → Result Bytes PropertyNameError
validate_property_name strings offset = validate_tail strings offset (tail_from strings offset)
