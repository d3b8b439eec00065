-- ===== src/Fdt/Structure/Machine.antt =====
-- The nodes that are open at a place in the block: a step relation over the items before it.
use barebone_kernel.Base.{
  ℕ, suc, ◌+◌, ◌≤◌, ◌≡◌, ◌⊎◌, inl, inr, refl, ap, arith, List, [], ◌∷◌, ◌++◌, Bytes, Bool-cases,
  bytes_eq, bytes_eq-eq, bytes_eq_refl, if◌then◌else◌, Option, none, some, length, length-drop,
  length-append,
}
use barebone_kernel.Fdt.NodeName.Grammar.{IsNodeName}
use barebone_kernel.Fdt.Structure.Items.{Event, opens, closes, sets, nothing, Item}

-- A name and the offset of the token in front of it.
pub record Entry : Type 0 where
  pub name : Bytes
  pub offset : ℕ

-- An open node: where its content begins, and the entries in it so far, the last first.
pub record Frame : Type 0 where
  pub start : ℕ
  pub properties : List Entry
  pub children : List Entry

abbrev pub fresh_frame : ℕ → Frame
fresh_frame start = record { start = start; properties = []; children = [] }

abbrev pub Fresh : Bytes → List Entry → Type 0
Fresh name [] = Unit
Fresh name (e ∷ es) = ¬ (e.name ≡ name) × Fresh name es

abbrev pub Listed : Bytes → ℕ → List Entry → Type 0
Listed name offset [] = ⊥
Listed name offset (e ∷ es) = ((e.name ≡ name) × (e.offset ≡ offset)) ⊎ Listed name offset es

-- The last entry of a name.
abbrev pub find_entry : Bytes → List Entry → Option ℕ
find_entry name [] = none
find_entry name (e ∷ es) = if bytes_eq e.name name then some e.offset else find_entry name es

pub find_entry-cases :
    (name : Bytes) (es : List Entry)
    → (find_entry name es ≡ none) × Fresh name es
      ⊎ ((offset : ℕ) × (find_entry name es ≡ some offset) × Listed name offset es)
find_entry-cases name [] = inl (refl, tt)
find_entry-cases name (e ∷ es) = elim (Bool-cases (bytes_eq e.name name)) [
  | inl same ↦ inr (e.offset, rw same refl, inl (bytes_eq-eq e.name name same, refl))
  | inr other ↦ elim (find_entry-cases name es) [
    | inl (f, fresh) ↦ inl (
      rw other f,
      (λ same. cc (other, bytes_eq_refl name, ap (λ n. bytes_eq n name) same), fresh),
    )
    | inr (offset, f, listed) ↦ inr (offset, rw other f, inr listed)
  ]
]

pub Fresh-none : (name : Bytes) (es : List Entry) → Fresh name es → find_entry name es ≡ none
Fresh-none name [] fresh = refl
Fresh-none name (e ∷ es) fresh = elim (Bool-cases (bytes_eq e.name name)) [
  | inl same ↦ absurd (fresh.0 (bytes_eq-eq e.name name same))
  | inr other ↦ rw other (Fresh-none name es fresh.1)
]

-- The root's content begins at `content`; the item at the cursor moves from one stack of open nodes to
-- the next. A node opens under a new name; a property stands before all children of its node, under
-- a new name.
pub data Reached (bytes strings : Bytes) (content : ℕ) : Frame → List Frame → ℕ → Type 0 where
  root : Reached bytes strings content (fresh_frame content) [] content
  enter :
      {top : Frame} {under : List Frame} {p q : ℕ} (name : Bytes)
      → Reached bytes strings content top under p
      → Item bytes strings p (opens name) q
      → IsNodeName name
      → Fresh name top.children
      → Reached bytes strings content
          (fresh_frame q)
          (record top { children = record { name = name; offset = p } ∷ top.children } ∷ under)
          q
  leave :
      {top up : Frame} {under : List Frame} {p q : ℕ}
      → Reached bytes strings content top (up ∷ under) p
      → Item bytes strings p closes q
      → Reached bytes strings content up under q
  define :
      {top : Frame} {under : List Frame} {p q : ℕ} (name : Bytes)
      → Reached bytes strings content top under p
      → Item bytes strings p (sets name) q
      → top.children ≡ []
      → Fresh name top.properties
      → Reached bytes strings content
          (record top { properties = record { name = name; offset = p } ∷ top.properties })
          under
          q
  skip :
      {top : Frame} {under : List Frame} {p q : ℕ}
      → Reached bytes strings content top under p
      → Item bytes strings p nothing q
      → Reached bytes strings content top under q

abbrev pub depth_of : List Frame → ℕ
depth_of under = suc (length under)

-- Every open node but the last has a child.
abbrev pub AllHaveChild : List Frame → Type 0
AllHaveChild [] = Unit
AllHaveChild (f ∷ fs) = ¬ (f.children ≡ []) × AllHaveChild fs

pub Item-forward :
    (bytes strings : Bytes) (p q : ℕ) (e : Event)
    → Item bytes strings p e q
    → (p + 4 ≤ q) × (q ≤ length bytes)
Item-forward bytes strings p q (opens name) (pad, rest, nn, e, l, k) = omega (
  arith,
  k,
  length-drop p bytes,
  ap length e,
  length-append name (0 ∷ (pad ++ rest)),
  length-append pad rest,
)
Item-forward bytes strings p q closes (rest, e, k) =
    omega (arith, k, length-drop p bytes, ap length e)
Item-forward bytes strings p q (sets name) (v, pad, rest, noff, sv, sn, pn, at, e, l, k) = omega (
  arith,
  k,
  length-drop p bytes,
  ap length e,
  length-append v (pad ++ rest),
  length-append pad rest,
)
Item-forward bytes strings p q nothing (rest, e, k) =
    omega (arith, k, length-drop p bytes, ap length e)

module _ {bytes strings : Bytes} {content : ℕ} where
  pub Reached-AllHaveChild :
      {top : Frame} {under : List Frame} {p : ℕ}
      → Reached bytes strings content top under p
      → AllHaveChild under
  Reached-AllHaveChild root = tt
  Reached-AllHaveChild (enter name r i n f) = ((λ e. cc), Reached-AllHaveChild r)
  Reached-AllHaveChild (leave r i) = (Reached-AllHaveChild r).1
  Reached-AllHaveChild (define name r i c f) = Reached-AllHaveChild r
  Reached-AllHaveChild (skip r i) = Reached-AllHaveChild r

  -- The cursor lies in the block, behind the start of the content and of every open node.
  pub Reached-inside :
      {top : Frame} {under : List Frame} {p : ℕ}
      → content ≤ length bytes
      → Reached bytes strings content top under p
      → (content ≤ p) × (p ≤ length bytes)
  Reached-inside h root = (omega arith, h)
  Reached-inside h (enter {p = p} {q = q} name r i n f) =
      omega (arith, Reached-inside h r, Item-forward bytes strings p q (opens name) i)
  Reached-inside h (leave {p = p} {q = q} r i) =
      omega (arith, Reached-inside h r, Item-forward bytes strings p q closes i)
  Reached-inside h (define {p = p} {q = q} name r i c f) =
      omega (arith, Reached-inside h r, Item-forward bytes strings p q (sets name) i)
  Reached-inside h (skip {p = p} {q = q} r i) =
      omega (arith, Reached-inside h r, Item-forward bytes strings p q nothing i)

  -- The items that the derivation passes.
  abbrev pub items_of :
      {top : Frame} {under : List Frame} {p : ℕ} → Reached bytes strings content top under p → ℕ
  items_of root = 0
  items_of (enter name r i n f) = suc (items_of r)
  items_of (leave r i) = suc (items_of r)
  items_of (define name r i c f) = suc (items_of r)
  items_of (skip r i) = suc (items_of r)

  pub items_of-le :
      {top : Frame} {under : List Frame} {p : ℕ} (r : Reached bytes strings content top under p)
      → content + items_of r ≤ p
  items_of-le root = omega arith
  items_of-le (enter {p = p} {q = q} name r i n f) =
      omega (arith, items_of-le r, Item-forward bytes strings p q (opens name) i)
  items_of-le (leave {p = p} {q = q} r i) =
      omega (arith, items_of-le r, Item-forward bytes strings p q closes i)
  items_of-le (define {p = p} {q = q} name r i c f) =
      omega (arith, items_of-le r, Item-forward bytes strings p q (sets name) i)
  items_of-le (skip {p = p} {q = q} r i) =
      omega (arith, items_of-le r, Item-forward bytes strings p q nothing i)
