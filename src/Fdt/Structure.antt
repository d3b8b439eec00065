-- ===== src/Fdt/Structure.antt =====
-- fdt/src/structure.rs: the validation of the structure block. Depths grow by one for an item that is
-- read, so they are below the block's length and do not overflow.
pub mod Errors
pub mod Items
pub mod Cases
pub mod Machine
pub mod Siblings
pub mod Properties
pub mod Walk
pub mod Complete
pub mod Judge
pub mod Handlers
pub mod Sound
pub mod Tokens
pub mod Whole
mod Examples
use barebone_kernel.Base.{
  ℕ, zero, suc, ◌+◌, Bool, true, false, ◌&&◌, Option, none, some, Bytes, length, if◌then◌else◌,
  ◌==◌, ltb, bytes_eq, Result, ok, err, fault, panicked, out_of_fuel, map_err, check,
}
use barebone_kernel.Fdt.Reader
use barebone_kernel.Fdt.Reader.{
  Reader, ReadM, ReadError, position, remaining, read_bytes, read_u8, read_u32, align_to_4,
  read_nul_terminated, and_then, ◌>>=◌, ◌>>◌, lift, convert,
}
use barebone_kernel.Fdt.NodeName.{validate}
use barebone_kernel.Fdt.Strings.{validate_property_name}
use barebone_kernel.Fdt.Structure.Errors.{
  StructureError, read, invalid_token, expected_root_node, root_name_not_empty,
  unterminated_node_name, invalid_node_name, duplicate_node_name, property_after_child,
  invalid_property_name, duplicate_property_name, premature_end, expected_end, trailing_data,
}

pub data Token : Type 0 where
  begin_node end_node property nop end : Token

-- `Token::value`
abbrev pub value : Token → ℕ
value begin_node = 1
value end_node = 2
value property = 3
value nop = 4
value end = 9

-- `Token::parse`
unfoldable pub parse : ℕ → ℕ → Result Token StructureError
parse v offset =
    if v == value begin_node
    then ok begin_node
    else if v == value end_node
    then ok end_node
    else if v == value property
    then ok property
    else if v == value nop
    then ok nop
    else if v == value end
    then ok end
    else err (invalid_token offset v)

pub data NodePhase : Type 0 where
  properties children : NodePhase

-- The reader's operations under `?`.
abbrev pub u32 : ReadM ℕ StructureError
u32 = convert read read_u32

abbrev pub skip_bytes : ℕ → ReadM Bytes StructureError
skip_bytes n = convert read (read_bytes n)

abbrev pub align : ReadM Bytes StructureError
align = convert read align_to_4

unfoldable pub read_token : ReadM (ℕ × Token) StructureError
read_token = do offset ← position; v ← u32; token ← lift (parse v offset); lift (ok (offset, token))

-- `read_non_nop_token`: the loop, and the branch of a round
unfoldable pub unless_nop :
    ℕ → Token → ReadM (ℕ × Token) StructureError → ReadM (ℕ × Token) StructureError
unless_nop offset nop again = again
unless_nop offset begin_node again = lift (ok (offset, begin_node))
unless_nop offset end_node again = lift (ok (offset, end_node))
unless_nop offset property again = lift (ok (offset, property))
unless_nop offset end again = lift (ok (offset, end))

unfoldable pub read_non_nop_token : ℕ → ReadM (ℕ × Token) StructureError
read_non_nop_token zero r = (fault out_of_fuel, r)
read_non_nop_token (suc fuel) r =
    and_then (read_token r) λ p. unless_nop p.0 p.1 (read_non_nop_token fuel)

-- `matching_sibling` behind a node `found` at `offset` and depth `depth`, now entered.
abbrev pub entered : (target : ℕ) (name : Bytes) (depth offset : ℕ) → Bytes → Option ℕ → Option ℕ
entered target name depth offset found matching =
    if suc depth == target
    then none
    else if depth == target && bytes_eq found name
    then some offset
    else matching

-- The `match` of `find_prior_sibling_node`; `again` is what the loop does next.
unfoldable pub sibling_token :
    (target : ℕ) (name : Bytes) (depth : ℕ) (matching : Option ℕ) (offset : ℕ)
    → Token
    → (ℕ → Option ℕ → ReadM (Option ℕ) StructureError)
    → ReadM (Option ℕ) StructureError
sibling_token target name depth matching offset begin_node again = do
  found ← convert read read_nul_terminated
  align
  again (suc depth) (entered target name depth offset found matching)
sibling_token target name zero matching offset end_node again = lift (fault panicked)
sibling_token target name (suc depth) matching offset end_node again = again depth matching
sibling_token target name depth matching offset property again = do
  length ← u32
  u32
  skip_bytes length
  align
  again depth matching
sibling_token target name depth matching offset nop again = again depth matching
sibling_token target name depth matching offset end again = lift (fault panicked)

-- The loop of `find_prior_sibling_node`.
unfoldable pub sibling_loop :
    ℕ → (stop target : ℕ) (name : Bytes) → ℕ → Option ℕ → ReadM (Option ℕ) StructureError
sibling_loop zero stop target name depth matching r = (fault out_of_fuel, r)
sibling_loop (suc fuel) stop target name depth matching r = elim (ltb r.offset stop) [
  | false ↦ (ok matching, r)
  | true ↦
      and_then (read_token r)
        λ p. sibling_token target name depth matching p.0 p.1 (sibling_loop fuel stop target name)
]

-- `find_prior_sibling_node`
unfoldable pub find_prior_sibling_node :
    Bytes
    → (structure_start node_offset parent_depth : ℕ) → Bytes
    → Result (Option ℕ) StructureError
find_prior_sibling_node bytes structure_start node_offset parent_depth name =
    ((do
      skip_bytes structure_start
      sibling_loop (suc (length bytes)) node_offset parent_depth name 1 none)
      (Reader.new bytes)).0

-- A property in `find_property` whose name has been looked up.
unfoldable pub compare_property :
    (name : Bytes) (offset length : ℕ)
    → {E : Type 0} → Result Bytes E
    → ReadM (Option ℕ) StructureError
    → ReadM (Option ℕ) StructureError
compare_property name offset length (ok found) again =
    if bytes_eq found name then lift (ok (some offset)) else do skip_bytes length; align; again
compare_property name offset length (err e) again = lift (fault panicked)
compare_property name offset length (fault x) again = lift (fault x)

unfoldable pub search_property :
    (strings name : Bytes) (offset : ℕ)
    → ReadM (Option ℕ) StructureError
    → ReadM (Option ℕ) StructureError
search_property strings name offset again = do
  length ← u32
  name_offset ← u32
  compare_property name offset length (validate_property_name strings name_offset) again

-- A round of `find_property`.
unfoldable pub property_token :
    (strings name : Bytes) (offset : ℕ)
    → Token
    → ReadM (Option ℕ) StructureError
    → ReadM (Option ℕ) StructureError
property_token strings name offset nop again = again
property_token strings name offset begin_node again = search_property strings name offset again
property_token strings name offset end_node again = search_property strings name offset again
property_token strings name offset property again = search_property strings name offset again
property_token strings name offset end again = search_property strings name offset again

-- The loop of `find_property`.
unfoldable pub property_loop :
    ℕ → (strings : Bytes) (stop : ℕ) (name : Bytes) → ReadM (Option ℕ) StructureError
property_loop zero strings stop name r = (fault out_of_fuel, r)
property_loop (suc fuel) strings stop name r = elim (ltb r.offset stop) [
  | false ↦ (ok none, r)
  | true ↦
      and_then (read_token r)
        λ p. property_token strings name p.0 p.1 (property_loop fuel strings stop name)
]

-- `find_property`
unfoldable pub find_property :
    Bytes
    → (properties_start properties_end : ℕ) → (name strings : Bytes)
    → Result (Option ℕ) StructureError
find_property bytes properties_start properties_end name strings =
    ((do
      skip_bytes properties_start
      property_loop (suc (length bytes)) strings properties_end name)
      (Reader.new bytes)).0

abbrev pub unless_found : Option ℕ → (ℕ → StructureError) → Result (Unit {0}) StructureError
unless_found none e = ok tt
unless_found (some first) e = err (e first)

-- `validate_property`
unfoldable pub validate_property :
    (bytes strings : Bytes) (properties_start token_offset depth : ℕ)
    → ReadM (Unit {0}) StructureError
validate_property bytes strings properties_start token_offset depth = do
  length ← u32
  name_offset ← u32
  name ← lift (
      map_err (invalid_property_name token_offset name_offset)
        (validate_property_name strings name_offset))
  skip_bytes length
  align
  found ← lift (find_property bytes properties_start token_offset name strings)
  lift (unless_found found (λ first. duplicate_property_name first token_offset name_offset depth))

-- What the loop of `Structure::new` does next, on a depth, a phase and the start of the properties.
abbrev pub Next : Type 0
Next = ℕ → NodePhase → ℕ → ReadM (Unit {0}) StructureError

unfoldable pub enter_node :
    (bytes : Bytes) (content_start depth offset : ℕ) → Next → ReadM (Unit {0}) StructureError
enter_node bytes content_start depth offset again = do
  name_offset ← position
  name ← convert (λ e. unterminated_node_name name_offset) read_nul_terminated
  lift (map_err (invalid_node_name offset name_offset depth) (validate name))
  align
  found ← lift (find_prior_sibling_node bytes content_start offset depth name)
  lift (unless_found found (λ first. duplicate_node_name first offset depth))
  properties_start ← position
  again (suc depth) properties properties_start

-- The `match` in the loop of `Structure::new`.
unfoldable pub structure_token :
    (bytes strings : Bytes) (content_start depth : ℕ)
    → NodePhase
    → (properties_start offset : ℕ) → Token
    → Next
    → ReadM (Unit {0}) StructureError
structure_token bytes strings content_start depth phase start offset begin_node again =
    enter_node bytes content_start depth offset again
structure_token bytes strings content_start zero phase start offset end_node again =
    lift (fault panicked)
structure_token bytes strings content_start (suc depth) phase start offset end_node again =
    again depth (if ltb 0 depth then children else phase) start
structure_token bytes strings content_start depth children start offset property again =
    lift (err (property_after_child offset depth))
structure_token bytes strings content_start depth properties start offset property again = do
  validate_property bytes strings start offset depth
  again depth properties start
structure_token bytes strings content_start depth phase start offset nop again =
    again depth phase start
structure_token bytes strings content_start depth phase start offset end again =
    lift (err (premature_end offset depth))

-- The loop of `Structure::new`.
unfoldable pub structure_loop : ℕ → (bytes strings : Bytes) (content_start : ℕ) → Next
structure_loop zero bytes strings content_start depth phase start r = (fault out_of_fuel, r)
structure_loop (suc fuel) bytes strings content_start depth phase start r = elim (ltb 0 depth) [
  | false ↦ (ok tt, r)
  | true ↦ and_then (read_token r) λ p.
      structure_token bytes strings content_start depth phase start p.0 p.1
        (structure_loop fuel bytes strings content_start)
]

abbrev pub expect_token :
    Token → ℕ × Token → (ℕ → ℕ → StructureError) → Result (Unit {0}) StructureError
expect_token token p e = if value p.1 == value token then ok tt else err (e p.0 (value p.1))

-- The empty name of the root; the offset of the root's content.
unfoldable pub root_name : ReadM ℕ StructureError
root_name = do
  root_name_offset ← position
  first_byte ← convert read read_u8
  lift (check (first_byte == 0) (root_name_not_empty root_name_offset first_byte))
  align
  position

-- `Structure::new` up to the content of the root.
unfoldable pub open_root : (bytes : Bytes) → ReadM ℕ StructureError
open_root bytes = do
  p ← read_non_nop_token (suc (length bytes))
  lift (expect_token begin_node p expected_root_node)
  root_name

unfoldable pub check_trailing : ReadM (Unit {0}) StructureError
check_trailing r = (check (remaining r == 0) (trailing_data r.offset (remaining r)), r)

-- `Structure::new` behind the loop.
unfoldable pub finish : (bytes : Bytes) → ReadM (Unit {0}) StructureError
finish bytes = do
  p ← read_non_nop_token (suc (length bytes))
  lift (expect_token end p expected_end)
  check_trailing

-- `Structure::new`: the bytes that the view keeps.
unfoldable pub new : (bytes strings : Bytes) → Result Bytes StructureError
new bytes strings =
    ((do
      content_start ← open_root bytes
      structure_loop (suc (length bytes)) bytes strings content_start 1 properties content_start
      finish bytes
      lift (ok bytes))
      (Reader.new bytes)).0
