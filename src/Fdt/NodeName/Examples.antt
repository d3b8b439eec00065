-- ===== src/Fdt/NodeName/Examples.antt =====
-- Names of nodes, and the theorems there.
use barebone_kernel.Base.{◌≡◌, ◌↔◌, refl, [], ◌∷◌, ok, err, Bytes, find_from}
use barebone_kernel.Fdt.NodeName.{
  validate, component, unit_address, check_component, check_unit_address,
  invalid_unit_address_character,
}
use barebone_kernel.Fdt.NodeName.Grammar.{IsNodeName, Blames, validate_iff, validate-Blames}

-- "uart@10"
abbrev uart : Bytes
uart = b'u' ∷ b'a' ∷ b'r' ∷ b't' ∷ b'@' ∷ b'1' ∷ b'0' ∷ []

-- "cpu@a@b"
abbrev two_units : Bytes
two_units = b'c' ∷ b'p' ∷ b'u' ∷ b'@' ∷ b'a' ∷ b'@' ∷ b'b' ∷ []

uart_runs : validate uart ≡ ok tt
unfolding validate component unit_address check_component check_unit_address find_from
uart_runs = refl

two_units_runs : validate two_units ≡ err (invalid_unit_address_character 1 b'@')
unfolding validate component unit_address check_component check_unit_address find_from
two_units_runs = refl

validate_iff_example : (validate uart ≡ ok tt) ↔ IsNodeName uart
validate_iff_example = validate_iff uart

validate-Blames_example : Blames two_units (validate two_units)
validate-Blames_example = validate-Blames two_units
