-- ===== src/Fdt/Structure/Items.antt =====
-- The items of a structure block, as the Devicetree Specification encodes them, and the reads of
-- their parts.
use barebone_kernel.Base.{
  ℕ, ◌+◌, ◌≤◌, ◌<◌, ◌^◌, ◌≡◌, refl, sym, ap, ◌∙◌, arith, [], ◌∷◌, ◌++◌, All, Bytes, IsByte, IsU32,
  length, length-drop, length-append, drop, take, take-append, drop-append, drop-drop, to_be_32, ok,
  subst, ltb, false,
}
use barebone_kernel.Fdt.Reader.{
  Reader, ReadError, ReadM, IsValid, padding, align_to_4, read_nul_terminated, convert, and_then,
  ◌>>◌,
}
use barebone_kernel.Fdt.Reader.Cursor.{NoNul, read_bytes-ok, read_nul_terminated-ok}
use barebone_kernel.Fdt.Reader.RoundTrip.{read_u32-to_be_32}
use barebone_kernel.Fdt.Strings.Names.{IsPropertyName, NameAt}
use barebone_kernel.Fdt.Structure.{
  Token, begin_node, end_node, property, nop, end, value, parse, u32, skip_bytes, align, read_token,
}
use barebone_kernel.Fdt.Structure.Errors.{StructureError}

-- A slice of bytes, as Rust has them.
pub record IsBlock (bytes : Bytes) : Type 0 where
  pub small : length bytes < 2 ^ 63
  pub are_bytes : All IsByte bytes

abbrev pub at : Bytes → ℕ → Reader
at bytes p = record { bytes = bytes; offset = p }

-- What one item of the block says.
pub data Event : Type 0 where
  opens : (name : Bytes) → Event
  closes : Event
  sets : (name : Bytes) → Event
  nothing : Event

-- The bytes from `p` up to `q` encode the event. The contents of padding are free.
abbrev pub Item : (bytes strings : Bytes) → ℕ → Event → ℕ → Type 0
Item bytes strings p (opens name) q =
    (pad : Bytes) × (rest : Bytes) × NoNul name
    × (drop p bytes ≡ to_be_32 1 ++ (name ++ 0 ∷ (pad ++ rest)))
    × (length pad ≡ padding (p + 4 + (length name + 1)))
    × (q ≡ p + 4 + (length name + 1) + length pad)
Item bytes strings p closes q = (rest : Bytes) × (drop p bytes ≡ to_be_32 2 ++ rest) × (q ≡ p + 4)
Item bytes strings p (sets name) q =
    (v : Bytes) × (pad : Bytes) × (rest : Bytes) × (name_offset : ℕ) × IsU32 (length v)
    × IsU32 name_offset
    × IsPropertyName name
    × NameAt strings name_offset name
    × (drop p bytes
        ≡ to_be_32 3 ++ (to_be_32 (length v) ++ (to_be_32 name_offset ++ (v ++ (pad ++ rest)))))
    × (length pad ≡ padding (p + 4 + 4 + 4 + length v))
    × (q ≡ p + 4 + 4 + 4 + length v + length pad)
Item bytes strings p nothing q = (rest : Bytes) × (drop p bytes ≡ to_be_32 4 ++ rest) × (q ≡ p + 4)

drop_suc-append : (name rest : Bytes) → drop (length name + 1) (name ++ 0 ∷ rest) ≡ rest
drop_suc-append [] rest = refl
drop_suc-append (b ∷ bs) rest = ground (arith, drop_suc-append bs rest)

module _ (bytes : Bytes) (b : IsBlock bytes) where
  pub at-IsValid : (p : ℕ) → p ≤ length bytes → IsValid (at bytes p)
  at-IsValid p h = record { in_bounds = h; small = b.small; are_bytes = b.are_bytes }

  -- What stands at `p` lies in the block.
  pub drop_within :
      (p : ℕ) (front rest : Bytes)
      → 0 < length front
      → drop p bytes ≡ front ++ rest
      → p + length front + length rest ≡ length bytes
  drop_within p front rest some_bytes e =
      omega (arith, length-drop p bytes, ap length e, length-append front rest)

  pub drop_behind :
      (p : ℕ) (front rest : Bytes)
      → drop p bytes ≡ front ++ rest
      → drop (p + length front) bytes ≡ rest
  drop_behind p front rest e =
      sym (drop-drop p (length front) bytes) ∙ ap (drop (length front)) e ∙ drop-append front rest

  pub u32-at :
      (p v : ℕ) (rest : Bytes)
      → IsU32 v
      → drop p bytes ≡ to_be_32 v ++ rest
      → (u32 (at bytes p) ≡ (ok v, at bytes (p + 4))) × (drop (p + 4) bytes ≡ rest)
  u32-at p v rest h e =
      let valid = at-IsValid p (omega (arith, drop_within p (to_be_32 v) rest (omega arith) e)) in
      let (r, n) = read_u32-to_be_32 {r = at bytes p} v rest valid h e in (rw r refl, n)

  pub token-at :
      (p : ℕ) (t : Token) (rest : Bytes)
      → drop p bytes ≡ to_be_32 (value t) ++ rest
      → (read_token (at bytes p) ≡ (ok (p, t), at bytes (p + 4))) × (drop (p + 4) bytes ≡ rest)
  unfolding read_token
  token-at p t rest e =
      let (r, n) = u32-at p (value t) rest (small t) e in (rw (r, parsed t) refl, n)
    where
      small : (t : Token) → IsU32 (value t)
      small begin_node = omega arith
      small end_node = omega arith
      small property = omega arith
      small nop = omega arith
      small end = omega arith

      parsed : (t : Token) → parse (value t) p ≡ ok t
      parsed begin_node = unfold parse in refl
      parsed end_node = unfold parse in refl
      parsed property = unfold parse in refl
      parsed nop = unfold parse in refl
      parsed end = unfold parse in refl

  pub skip-at :
      (p : ℕ) (v rest : Bytes)
      → p ≤ length bytes
      → drop p bytes ≡ v ++ rest
      → (skip_bytes (length v) (at bytes p) ≡ (ok v, at bytes (p + length v)))
        × (drop (p + length v) bytes ≡ rest)
  skip-at p v rest inside e =
      let r =
        read_bytes-ok {r = at bytes p} (length v) (at-IsValid p inside)
          (omega (arith, length-drop p bytes, ap length e, length-append v rest)) in
      (rw (r, e, take-append v rest) refl, drop_behind p v rest e)

  pub align-at :
      (p : ℕ) (pad rest : Bytes)
      → p ≤ length bytes
      → length pad ≡ padding p
      → drop p bytes ≡ pad ++ rest
      → (align (at bytes p) ≡ (ok pad, at bytes (p + length pad)))
        × (drop (p + length pad) bytes ≡ rest)
  unfolding align_to_4
  align-at p pad rest inside l e =
      let (r, n) = skip-at p pad rest inside e in
      (subst (λ k. skip_bytes k (at bytes p) ≡ (ok pad, at bytes (p + length pad))) l r, n)

  pub name-at :
      (f : ReadError → StructureError) (p : ℕ) (name rest : Bytes)
      → NoNul name
      → drop p bytes ≡ name ++ 0 ∷ rest
      → (convert f read_nul_terminated (at bytes p) ≡ (ok name, at bytes (p + (length name + 1))))
        × (drop (p + (length name + 1)) bytes ≡ rest)
  name-at f p name rest h e =
      let inside : p ≤ length bytes =
        omega (arith, length-drop p bytes, ap length e, length-append name (0 ∷ rest)) in
      let r = read_nul_terminated-ok {r = at bytes p} name rest (at-IsValid p inside) h e in
      (rw r refl, behind)
    where
      behind : drop (p + (length name + 1)) bytes ≡ rest
      behind =
          sym (drop-drop p (length name + 1) bytes)
          ∙ ap (drop (length name + 1)) e
          ∙ drop_suc-append name rest

  -- The reads that pass an item.
  pub opens-reads :
      (strings name : Bytes) (p q : ℕ) (f : ReadError → StructureError)
      → Item bytes strings p (opens name) q
      → (pad : Bytes) × (read_token (at bytes p) ≡ (ok (p, begin_node), at bytes (p + 4)))
        × (convert f read_nul_terminated (at bytes (p + 4))
            ≡ (ok name, at bytes (p + 4 + (length name + 1))))
        × (align (at bytes (p + 4 + (length name + 1))) ≡ (ok pad, at bytes q))
  opens-reads strings name p q f (pad, rest, clear, e, l, k) =
      let (r1, n1) = token-at p begin_node (name ++ 0 ∷ (pad ++ rest)) e in
      let (r2, n2) = name-at f (p + 4) name (pad ++ rest) clear n1 in
      let inside = drop_within p (to_be_32 1) (name ++ 0 ∷ (pad ++ rest)) (omega arith) e in
      let (r3, n3) =
        align-at (p + 4 + (length name + 1)) pad rest
          (omega (arith, inside, length-append name (0 ∷ (pad ++ rest)))) l n2 in
      (pad, r1, r2, rw k r3)

  pub sets-reads :
      (strings name : Bytes) (p q : ℕ)
      → Item bytes strings p (sets name) q
      → (v : Bytes) × (pad : Bytes) × (name_offset : ℕ) × (read_token (at bytes p)
          ≡ (ok (p, property), at bytes (p + 4)))
        × (u32 (at bytes (p + 4)) ≡ (ok (length v), at bytes (p + 4 + 4)))
        × (u32 (at bytes (p + 4 + 4)) ≡ (ok name_offset, at bytes (p + 4 + 4 + 4)))
        × (skip_bytes (length v) (at bytes (p + 4 + 4 + 4))
            ≡ (ok v, at bytes (p + 4 + 4 + 4 + length v)))
        × (align (at bytes (p + 4 + 4 + 4 + length v)) ≡ (ok pad, at bytes q))
        × IsPropertyName name
        × NameAt strings name_offset name
  sets-reads strings name p q (v, pad, rest, name_offset, sv, sn, is, stands, e, l, k) =
      let inside =
        drop_within p (to_be_32 3)
          (to_be_32 (length v) ++ (to_be_32 name_offset ++ (v ++ (pad ++ rest)))) (omega arith) e in
      let (r1, n1) =
        token-at p property (to_be_32 (length v) ++ (to_be_32 name_offset ++ (v ++ (pad ++ rest))))
          e in
      let (r2, n2) =
        u32-at (p + 4) (length v) (to_be_32 name_offset ++ (v ++ (pad ++ rest))) sv n1 in
      let (r3, n3) = u32-at (p + 4 + 4) name_offset (v ++ (pad ++ rest)) sn n2 in
      let (r4, n4) = skip-at (p + 4 + 4 + 4) v (pad ++ rest) (omega (arith, inside)) n3 in
      let (r5, n5) =
        align-at (p + 4 + 4 + 4 + length v) pad rest
          (omega (arith, inside, length-append v (pad ++ rest))) l n4 in
      (v, pad, name_offset, r1, r2, r3, r4, rw k r5, is, stands)

  -- The start of a walk: a fresh reader moves to a place in the block.
  pub start_at :
      (p : ℕ) → p ≤ length bytes → skip_bytes p (at bytes 0) ≡ (ok (take p bytes), at bytes p)
  start_at p inside =
      let begins : 0 + p ≡ p = omega arith in
      rw
        (
          read_bytes-ok {r = at bytes 0} p (at-IsValid 0 (omega arith)) (omega (arith, inside)),
          begins,
        )
        refl

  pub search-at :
      {A : Type 0} (p : ℕ) (m : ReadM A StructureError)
      → p ≤ length bytes
      → (skip_bytes p >> m) (at bytes 0) ≡ m (at bytes p)
  search-at p m inside = ap (λ x. and_then x (λ _. m)) (start_at p inside)

pub not_before : (p : ℕ) → ltb p p ≡ false
not_before p = ground arith
