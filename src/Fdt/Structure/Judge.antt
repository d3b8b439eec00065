-- ===== src/Fdt/Structure/Judge.antt =====
-- What `Structure::new` promises: which blocks it accepts, and what each of its errors says.
use barebone_kernel.Base.{
  ℕ, ◌+◌, ◌<◌, ◌≡◌, ◌⊎◌, List, [], ◌∷◌, ◌++◌, Bytes, length, drop, to_be_32, Result, ok, err, fault,
}
use barebone_kernel.Fdt.Reader.{Reader}
use barebone_kernel.Fdt.Reader.Cursor.{NoNul}
use barebone_kernel.Fdt.NodeName.{validate}
use barebone_kernel.Fdt.Strings.{validate_property_name}
use barebone_kernel.Fdt.Structure.Errors.{
  StructureError, read, invalid_token, expected_root_node, root_name_not_empty,
  unterminated_node_name, invalid_node_name, duplicate_node_name, property_after_child,
  invalid_property_name, duplicate_property_name, premature_end, expected_end, trailing_data,
  semantic,
}
use barebone_kernel.Fdt.Structure.Items.{at, opens, closes, sets, nothing, Item}
use barebone_kernel.Fdt.Structure.Cases.{Short, IsUnknown}
use barebone_kernel.Fdt.Structure.Machine.{Frame, Listed, Reached, depth_of}

-- The walk over the content comes to the offset `o`, at depth `d`, and `P` holds of the open node there.
abbrev pub Comes : (bytes strings : Bytes) (content o d : ℕ) → (Frame → Type 0) → Type 0
Comes bytes strings content o d P =
    (top : Frame) × (under : List Frame) × Reached bytes strings content top under o
    × (d ≡ depth_of under)
    × P top

-- What an error of the loop says of the block.
abbrev pub Blame : (bytes strings : Bytes) (content : ℕ) → StructureError → Type 0
Blame bytes strings content (read e) = Short bytes e
Blame bytes strings content (invalid_token o v) =
    (d : ℕ) × Comes bytes strings content o d (λ top. Unit)
    × ((rest : Bytes) × (drop o bytes ≡ to_be_32 v ++ rest))
    × IsUnknown v
Blame bytes strings content (unterminated_node_name o) =
    (p : ℕ) × (d : ℕ) × (rest : Bytes) × Comes bytes strings content p d (λ top. Unit)
    × (o ≡ p + 4)
    × (drop p bytes ≡ to_be_32 1 ++ rest)
    × NoNul rest
Blame bytes strings content (invalid_node_name t o d source) =
    (name : Bytes) × (rest : Bytes) × Comes bytes strings content t d (λ top. Unit)
    × (o ≡ t + 4)
    × NoNul name
    × (drop t bytes ≡ to_be_32 1 ++ (name ++ 0 ∷ rest))
    × (validate name ≡ err source)
Blame bytes strings content (duplicate_node_name first o d) =
    (name : Bytes) × (q : ℕ) × Item bytes strings o (opens name) q
    × Comes bytes strings content o d (λ top. Listed name first top.children)
Blame bytes strings content (property_after_child o d) =
    ((rest : Bytes) × (drop o bytes ≡ to_be_32 3 ++ rest))
    × Comes bytes strings content o d (λ top. ¬ (top.children ≡ []))
Blame bytes strings content (invalid_property_name o name_offset source) =
    (d : ℕ) × (size : ℕ) × (rest : Bytes) × Comes bytes strings content o d
      (λ top. top.children ≡ [])
    × (drop o bytes ≡ to_be_32 3 ++ (to_be_32 size ++ (to_be_32 name_offset ++ rest)))
    × (validate_property_name strings name_offset ≡ err source)
Blame bytes strings content (duplicate_property_name first o name_offset d) =
    (name : Bytes) × (q : ℕ) × Item bytes strings o (sets name) q
    × (validate_property_name strings name_offset ≡ ok name)
    × Comes bytes strings content o d (λ top. Listed name first top.properties)
Blame bytes strings content (premature_end o d) =
    ((rest : Bytes) × (drop o bytes ≡ to_be_32 9 ++ rest))
    × Comes bytes strings content o d (λ top. Unit)
Blame bytes strings content (expected_root_node o found) = ⊥
Blame bytes strings content (root_name_not_empty o first) = ⊥
Blame bytes strings content (expected_end o found) = ⊥
Blame bytes strings content (trailing_data o n) = ⊥
Blame bytes strings content (semantic e) = ⊥

-- The loop ends behind the item that closes the root, or its error is true of the block.
abbrev pub Judged :
    (bytes strings : Bytes) (content : ℕ) → Result (Unit {0}) StructureError × Reader → Type 0
Judged bytes strings content (ok _, r) =
    (top : Frame) × (p : ℕ) × (q : ℕ) × Reached bytes strings content top [] p
    × Item bytes strings p closes q
    × (r ≡ at bytes q)
Judged bytes strings content (err e, r) = Blame bytes strings content e
Judged bytes strings content (fault x, r) = ⊥

-- From `p` on there are tokens to ignore, up to `q`.
pub data Nops (bytes strings : Bytes) : ℕ → ℕ → Type 0 where
  done : {p : ℕ} → Nops bytes strings p p
  more :
      {p q r : ℕ} → Item bytes strings p nothing q → Nops bytes strings q r → Nops bytes strings p r

-- The root's token stands at `o` and its content begins at `content`; the root's name is empty.
abbrev pub RootAt : (bytes strings : Bytes) (o content : ℕ) → Type 0
RootAt bytes strings o content = Nops bytes strings 0 o × Item bytes strings o (opens []) content

-- Behind `p` there is the end of the block, and no byte behind that.
abbrev pub EndsAt : (bytes strings : Bytes) (p : ℕ) → Type 0
EndsAt bytes strings p = (o : ℕ) × Nops bytes strings p o × (drop o bytes ≡ to_be_32 9)

-- A structure block: a root, a walk over its content that closes all nodes, and the end.
abbrev pub IsStructure : (bytes strings : Bytes) → Type 0
IsStructure bytes strings =
    (o : ℕ) × (content : ℕ) × RootAt bytes strings o content
    × ((top : Frame) × (p : ℕ) × (q : ℕ) × Reached bytes strings content top [] p
        × Item bytes strings p closes q
        × EndsAt bytes strings q)

-- The root of the block, a walk that closes it, and tokens to ignore up to `o`.
abbrev pub ClosedBefore : (bytes strings : Bytes) (o : ℕ) → Type 0
ClosedBefore bytes strings o =
    (r : ℕ) × (content : ℕ) × RootAt bytes strings r content
    × ((top : Frame) × (p : ℕ) × (q : ℕ) × Reached bytes strings content top [] p
        × Item bytes strings p closes q
        × Nops bytes strings q o)

-- An error of the loop, behind a root.
abbrev pub InContent : (bytes strings : Bytes) → StructureError → Type 0
InContent bytes strings e =
    (o : ℕ) × (content : ℕ) × RootAt bytes strings o content × Blame bytes strings content e

-- What an error of `Structure::new` says of the block.
abbrev pub NewBlame : (bytes strings : Bytes) → StructureError → Type 0
NewBlame bytes strings (expected_root_node o found) =
    Nops bytes strings 0 o
    × ((rest : Bytes) × (drop o bytes ≡ to_be_32 found ++ rest))
    × ¬ (found ≡ 1)
    × ¬ (found ≡ 4)
NewBlame bytes strings (root_name_not_empty o first) =
    (p : ℕ) × (rest : Bytes) × Nops bytes strings 0 p
    × (o ≡ p + 4)
    × (drop p bytes ≡ to_be_32 1 ++ (first ∷ rest))
    × ¬ (first ≡ 0)
NewBlame bytes strings (expected_end o found) =
    ClosedBefore bytes strings o
    × ((rest : Bytes) × (drop o bytes ≡ to_be_32 found ++ rest))
    × ¬ (found ≡ 9)
    × ¬ (found ≡ 4)
NewBlame bytes strings (trailing_data o n) =
    (p : ℕ) × (rest : Bytes) × ClosedBefore bytes strings p
    × (o ≡ p + 4)
    × (drop p bytes ≡ to_be_32 9 ++ rest)
    × (n ≡ length rest)
    × (0 < n)
NewBlame bytes strings (invalid_token o v) =
    (Nops bytes strings 0 o
      ⊎ InContent bytes strings (invalid_token o v)
      ⊎ ClosedBefore bytes strings o)
    × ((rest : Bytes) × (drop o bytes ≡ to_be_32 v ++ rest))
    × IsUnknown v
NewBlame bytes strings (read e) = Short bytes e
NewBlame bytes strings (semantic e) = ⊥
NewBlame bytes strings (unterminated_node_name o) =
    InContent bytes strings (unterminated_node_name o)
NewBlame bytes strings (invalid_node_name t o d source) =
    InContent bytes strings (invalid_node_name t o d source)
NewBlame bytes strings (duplicate_node_name first o d) =
    InContent bytes strings (duplicate_node_name first o d)
NewBlame bytes strings (property_after_child o d) =
    InContent bytes strings (property_after_child o d)
NewBlame bytes strings (invalid_property_name o n source) =
    InContent bytes strings (invalid_property_name o n source)
NewBlame bytes strings (duplicate_property_name first o n d) =
    InContent bytes strings (duplicate_property_name first o n d)
NewBlame bytes strings (premature_end o d) = InContent bytes strings (premature_end o d)

-- What `Structure::new` may return.
abbrev pub Validated : (bytes strings : Bytes) → Result Bytes StructureError → Type 0
Validated bytes strings (ok kept) = (kept ≡ bytes) × IsStructure bytes strings
Validated bytes strings (err e) = NewBlame bytes strings e
Validated bytes strings (fault f) = ⊥
