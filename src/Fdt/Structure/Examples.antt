-- ===== src/Fdt/Structure/Examples.antt =====
-- A small structure block and its runs, and the theorems there.
use barebone_kernel.Base.{
  ◌≡◌, refl, arith, [], ◌∷◌, ◌++◌, drop, to_be_32, ok, err, some, Bytes, find_from, bytes_eq,
}
use barebone_kernel.Fdt.Reader
use barebone_kernel.Fdt.NodeName.{
  validate, component, unit_address, check_component, check_unit_address,
}
use barebone_kernel.Fdt.NodeName.Grammar.{IsNodeName, validate_iff}
use barebone_kernel.Fdt.Strings.{validate_property_name, validate_tail, tail_from, validate_name}
use barebone_kernel.Fdt.Structure.{
  parse, read_token, unless_nop, read_non_nop_token, sibling_token, sibling_loop,
  find_prior_sibling_node, compare_property, search_property, property_token, property_loop,
  find_property, validate_property, enter_node, structure_token, structure_loop, root_name,
  open_root, check_trailing, finish, new,
}
use barebone_kernel.Fdt.Structure.Errors.{duplicate_node_name}
use barebone_kernel.Fdt.Structure.Items.{IsBlock, opens, sets, Item}
use barebone_kernel.Fdt.Structure.Machine.{Reached, root, enter, leave, define, skip}
use barebone_kernel.Fdt.Structure.Siblings.{find_prior_sibling_node-Reached}
use barebone_kernel.Fdt.Structure.Properties.{find_property-Reached}
use barebone_kernel.Fdt.Structure.Judge.{Validated, done, IsStructure}
use barebone_kernel.Fdt.Structure.Whole.{new-Validated}
use barebone_kernel.Fdt.Structure.Complete.{new-IsStructure}

-- "a", NUL
abbrev names : Bytes
names = b'a' ∷ 0 ∷ []

-- The root, with the property "a" of one byte and the child "c".
abbrev tree : Bytes
tree =
    to_be_32 1
    ++ (0
        ∷ 0
        ∷ 0
        ∷ 0
        ∷ (to_be_32 3
            ++ (to_be_32 1
                ++ (to_be_32 0
                    ++ (7
                        ∷ 0
                        ∷ 0
                        ∷ 0
                        ∷ (to_be_32 4
                            ++ (to_be_32 1
                                ++ (b'c'
                                    ∷ 0
                                    ∷ 0
                                    ∷ 0
                                    ∷ (to_be_32 2 ++ (to_be_32 2 ++ to_be_32 9))))))))))

-- The root with two children "c".
abbrev twins : Bytes
twins =
    to_be_32 1
    ++ (0
        ∷ 0
        ∷ 0
        ∷ 0
        ∷ (to_be_32 1
            ++ (b'c'
                ∷ 0
                ∷ 0
                ∷ 0
                ∷ (to_be_32 2
                    ++ (to_be_32 1
                        ++ (b'c' ∷ 0 ∷ 0 ∷ 0 ∷ (to_be_32 2 ++ (to_be_32 2 ++ to_be_32 9))))))))

runs : (new tree names ≡ ok tree) × (new twins names ≡ err (duplicate_node_name 8 20 1))
unfolding parse read_token unless_nop read_non_nop_token sibling_token sibling_loop
    find_prior_sibling_node compare_property search_property property_token property_loop
    find_property validate_property enter_node structure_token structure_loop root_name open_root
    check_trailing finish new validate component unit_address check_component check_unit_address
    find_from validate_property_name validate_tail tail_from validate_name
    Reader.read_nul_terminated Reader.read_bytes Reader.remaining_bytes Reader.position_of_nul
    Reader.read_u32 Reader.read_u8 Reader.align_to_4 bytes_eq
runs = (refl, refl)

tree-IsBlock : IsBlock tree
tree-IsBlock = record { small = omega arith; are_bytes = ground arith }

twins-IsBlock : IsBlock twins
twins-IsBlock = record { small = omega arith; are_bytes = ground arith }

names-IsBlock : IsBlock names
names-IsBlock = record { small = omega arith; are_bytes = ground arith }

child-IsNodeName : IsNodeName (b'c' ∷ [])
unfolding validate component unit_address check_component check_unit_address find_from
child-IsNodeName = (validate_iff (b'c' ∷ [])).0 refl

property-Item : Item tree names 8 (sets (b'a' ∷ [])) 24
property-Item = (
  7 ∷ [],
  0 ∷ 0 ∷ 0 ∷ [],
  drop 24 tree,
  0,
  omega arith,
  omega arith,
  record { not_empty = omega arith; at_most_31 = omega arith; characters = ground arith },
  (omega arith, ([], refl)),
  refl,
  refl,
  refl,
)

child-Item : Item tree names 28 (opens (b'c' ∷ [])) 36
child-Item = (0 ∷ 0 ∷ [], drop 36 tree, ground arith, refl, refl, refl)

-- The open nodes behind the property, and behind the child.
defined :
    Reached tree names 8
      (record {
        start = 8;
        properties = record { name = b'a' ∷ []; offset = 8 } ∷ [];
        children = [];
      })
      []
      28
defined = skip (define (b'a' ∷ []) root property-Item refl tt) (drop 28 tree, refl, refl)

closed :
    Reached tree names 8
      (record {
        start = 8;
        properties = record { name = b'a' ∷ []; offset = 8 } ∷ [];
        children = record { name = b'c' ∷ []; offset = 28 } ∷ [];
      })
      []
      40
closed = leave (enter (b'c' ∷ []) defined child-Item child-IsNodeName tt) (drop 40 tree, refl, refl)

tree-IsStructure : IsStructure tree names
tree-IsStructure = (
  0,
  8,
  (done, (0 ∷ 0 ∷ 0 ∷ [], drop 8 tree, tt, refl, refl, refl)),
  (_, 40, 44, closed, (drop 44 tree, refl, refl), (44, done, refl)),
)

find_prior_sibling_node-Reached_example :
    find_prior_sibling_node tree 8 40 1 (b'c' ∷ []) ≡ ok (some 28)
unfolding bytes_eq
find_prior_sibling_node-Reached_example =
    find_prior_sibling_node-Reached tree-IsBlock (omega arith) closed (b'c' ∷ [])

find_property-Reached_example : find_property tree 8 28 (b'a' ∷ []) names ≡ ok (some 8)
unfolding bytes_eq
find_property-Reached_example =
    find_property-Reached tree-IsBlock names-IsBlock (omega arith) defined refl (b'a' ∷ [])

new-Validated_example : Validated twins names (new twins names)
new-Validated_example = new-Validated twins names twins-IsBlock names-IsBlock

new-IsStructure_example : new tree names ≡ ok tree
new-IsStructure_example = new-IsStructure tree names tree-IsBlock names-IsBlock tree-IsStructure
