-- ===== src/Fdt/NodeName.antt =====
-- fdt/src/structure/name.rs: names of nodes, `component` or `component@unit-address`.
pub mod Grammar
mod Examples
use barebone_kernel.Base.{
  ℕ, suc, Bool, not, ◌&&◌, ◌||◌, Option, none, some, Bytes, length, if◌then◌else◌, ◌==◌, leb,
  Result, ok, err, check, ◌>>=◌, ◌>>◌, is_ascii_alphanumeric, is_ascii_alphabetic, find, [], ◌∷◌,
}

pub data NodeNameError : Type 0 where
  invalid_length : (length : ℕ) → NodeNameError
  invalid_first_character : (byte : ℕ) → NodeNameError
  invalid_character : (index byte : ℕ) → NodeNameError
  empty_unit_address : NodeNameError
  invalid_unit_address_character : (index byte : ℕ) → NodeNameError

abbrev pub is_valid_character : ℕ → Bool
is_valid_character b =
    is_ascii_alphanumeric b || b == b',' || b == b'.' || b == b'_' || b == b'+' || b == b'-'

abbrev pub is_invalid : ℕ → Bool
is_invalid b = not (is_valid_character b)

-- `name.split(|&byte| byte == b'@').next()`, which always yields
unfoldable pub component : Bytes → Bytes
component [] = []
component (b ∷ bs) = if b == b'@' then [] else b ∷ component bs

-- `name.splitn(2, |&byte| byte == b'@').nth(1)`
unfoldable pub unit_address : Bytes → Option Bytes
unit_address [] = none
unit_address (b ∷ bs) = if b == b'@' then some bs else unit_address bs

unfoldable pub check_component_characters : Option (ℕ × ℕ) → Result (Unit {0}) NodeNameError
check_component_characters none = ok tt
check_component_characters (some (index, byte)) = err (invalid_character index byte)

unfoldable pub check_component : Bytes → Result (Unit {0}) NodeNameError
unfolding check_component_characters
check_component [] = err (invalid_length 0)
check_component (first ∷ rest) = do
  check (leb (length (first ∷ rest)) 31) (invalid_length (length (first ∷ rest)))
  check (is_ascii_alphabetic first) (invalid_first_character first)
  check_component_characters (find is_invalid (first ∷ rest))

unfoldable pub check_unit_characters : Option (ℕ × ℕ) → Result (Unit {0}) NodeNameError
check_unit_characters none = ok tt
check_unit_characters (some (index, byte)) = err (invalid_unit_address_character index byte)

unfoldable pub check_unit_address : Option Bytes → Result (Unit {0}) NodeNameError
unfolding check_unit_characters
check_unit_address none = ok tt
check_unit_address (some []) = err empty_unit_address
check_unit_address (some (b ∷ bs)) = check_unit_characters (find is_invalid (b ∷ bs))

-- `validate`
unfoldable pub validate : Bytes → Result (Unit {0}) NodeNameError
validate name = do check_component (component name); check_unit_address (unit_address name)
