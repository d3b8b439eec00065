-- ===== src/Fdt/Strings/Examples.antt =====
-- A strings block of two names, and the theorems there.
use barebone_kernel.Base.{◌≡◌, refl, arith, [], ◌∷◌, ok, err, Bytes, find_from}
use barebone_kernel.Fdt.Reader
use barebone_kernel.Fdt.Strings.{
  validate_property_name, validate_tail, tail_from, validate_name, invalid_character,
  offset_out_of_bounds,
}
use barebone_kernel.Fdt.Strings.Names.{
  Named, NameAt, IsPropertyName, validate_property_name-Named, validate_property_name-ok,
}

-- "reg", NUL, "a b", NUL
abbrev block : Bytes
block = b'r' ∷ b'e' ∷ b'g' ∷ 0 ∷ b'a' ∷ b' ' ∷ b'b' ∷ 0 ∷ []

abbrev eg : Bytes
eg = b'e' ∷ b'g' ∷ []

eg_runs : validate_property_name block 1 ≡ ok eg
unfolding validate_property_name validate_tail tail_from validate_name find_from
    Reader.read_nul_terminated Reader.read_bytes Reader.remaining_bytes Reader.position_of_nul
eg_runs = refl

space_runs : validate_property_name block 4 ≡ err (invalid_character 4 1 b' ')
unfolding validate_property_name validate_tail tail_from validate_name find_from
    Reader.read_nul_terminated Reader.read_bytes Reader.remaining_bytes Reader.position_of_nul
space_runs = refl

outside_runs : validate_property_name block 8 ≡ err (offset_out_of_bounds 8 8)
unfolding validate_property_name validate_tail tail_from
outside_runs = refl

validate_property_name-Named_example : Named block 4 (validate_property_name block 4)
validate_property_name-Named_example =
    validate_property_name-Named block 4 (omega arith) (omega arith)

eg-IsPropertyName : IsPropertyName eg
eg-IsPropertyName = record {
  not_empty = omega arith;
  at_most_31 = omega arith;
  characters = ground arith;
}

eg-NameAt : NameAt block 1 eg
eg-NameAt = (omega arith, (b'a' ∷ b' ' ∷ b'b' ∷ 0 ∷ [], refl))

validate_property_name-ok_example : validate_property_name block 1 ≡ ok eg
validate_property_name-ok_example =
    validate_property_name-ok block 1 eg (omega arith) (omega arith) eg-IsPropertyName eg-NameAt
