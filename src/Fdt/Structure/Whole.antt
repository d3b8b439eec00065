-- ===== src/Fdt/Structure/Whole.antt =====
-- `Structure::new` as a whole: the root, the loop and the end.
use barebone_kernel.Base.{
  ℕ, suc, ◌+◌, ◌-◌, ◌≤◌, ◌<◌, ◌≡◌, inl, inr, refl, sym, ap, ◌∙◌, arith, [], ◌∷◌, ◌++◌, Bytes, true,
  false, Bool-cases, ◌==◌, drop, drop-drop, length, length-drop, to_be_32, Result, ok, err, fault,
}
use barebone_kernel.Fdt.Reader.{Reader, read_u8, and_then, lift, ◌>>◌}
use barebone_kernel.Fdt.Reader.Cursor.{read_u8-ok, read_bytes-err}
use barebone_kernel.Fdt.Structure.{
  Token, begin_node, end_node, property, nop, end, properties, read_non_nop_token, structure_loop,
  root_name, open_root, check_trailing, finish, new, expect_token,
}
use barebone_kernel.Fdt.Structure.Errors.{
  StructureError, read, invalid_token, expected_root_node, root_name_not_empty,
  unterminated_node_name, invalid_node_name, duplicate_node_name, property_after_child,
  invalid_property_name, duplicate_property_name, premature_end, expected_end, trailing_data,
  semantic,
}
use barebone_kernel.Fdt.Structure.Items.{IsBlock, at, closes, at-IsValid}
use barebone_kernel.Fdt.Structure.Cases.{align-cases}
use barebone_kernel.Fdt.Structure.Machine.{root, Item-forward}
use barebone_kernel.Fdt.Structure.Judge.{
  Blame, Judged, Nops, RootAt, EndsAt, IsStructure, ClosedBefore, NewBlame, Validated,
}
use barebone_kernel.Fdt.Structure.Tokens.{
  FoundToken, FoundError-NewBlame, read_non_nop_token-FoundToken,
}
use barebone_kernel.Fdt.Structure.Sound.{structure_loop-Judged}

none_left : (bytes : Bytes) (p : ℕ) → drop p bytes ≡ [] → (length bytes - p == 0) ≡ true
none_left bytes p n = ground (arith, length-drop p bytes, ap length n)

some_left :
    (bytes : Bytes) (p : ℕ) (rest : Bytes)
    → drop p bytes ≡ rest
    → 0 < length rest
    → (length bytes - p == 0) ≡ false
some_left bytes p rest n h = ground (arith, length-drop p bytes, ap length n)

module _ (bytes strings : Bytes) (b : IsBlock bytes) where
  -- What is read up to the root's content.
  abbrev Opened : Result ℕ StructureError × Reader → Type 0
  Opened (ok content, r) =
      (o : ℕ) × RootAt bytes strings o content × (r ≡ at bytes content) × (content ≤ length bytes)
  Opened (err e, r) = NewBlame bytes strings e
  Opened (fault x, r) = ⊥

  root_name-Opened :
      (o : ℕ) (rest : Bytes)
      → Nops bytes strings 0 o
      → drop o bytes ≡ to_be_32 1 ++ rest
      → drop (o + 4) bytes ≡ rest
      → o + 4 ≤ length bytes
      → Opened (root_name (at bytes (o + 4)))
  unfolding root_name
  root_name-Opened o [] nops e n in1 =
      unfold read_u8 in
      rw
        (read_bytes-err {r = at bytes (o + 4)} 1 (at-IsValid bytes b (o + 4) in1)
          (omega (arith, length-drop (o + 4) bytes, ap length n)))
        (in1, refl, omega (arith, length-drop (o + 4) bytes, ap length n))
  root_name-Opened o (first ∷ rest) nops e n in1 =
      let r1 = read_u8-ok {r = at bytes (o + 4)} first rest (at-IsValid bytes b (o + 4) in1) n in
      let in2 : o + 4 + 1 ≤ length bytes = omega (arith, length-drop (o + 4) bytes, ap length n) in
      elim (Bool-cases (first == 0)) [
        | inr named ↦ rw (r1, named) (o, rest, nops, refl, e, ground arith)
        | inl zero_byte ↦ elim (align-cases bytes b (o + 4 + 1) in2) [
          | inr (x, h, f) ↦ rw (r1, zero_byte, f) h
          | inl (pad, rest2, l, e2, r2, n2, in3) ↦
              rw (r1, zero_byte, r2)
                (
                  o,
                  (
                    nops,
                    (
                      pad,
                      rest2,
                      tt,
                      e
                          ∙ ap (λ f. to_be_32 1 ++ (f ∷ rest)) (ground arith)
                          ∙ ap (λ x. to_be_32 1 ++ (0 ∷ x))
                              (sym (sym (drop-drop (o + 4) 1 bytes) ∙ ap (drop 1) n) ∙ e2),
                      l,
                      refl,
                    ),
                  ),
                  refl,
                  in3,
                )
        ]
      ]

  open_root-Opened : Opened (open_root bytes (at bytes 0))
  unfolding open_root
  open_root-Opened = by_token (read_non_nop_token (suc (length bytes)) (at bytes 0)) (
      read_non_nop_token-FoundToken bytes strings b (suc (length bytes)) 0 (omega arith)
        (omega arith))
    where
      by_token :
          (x : Result (ℕ × Token) StructureError × Reader)
          → FoundToken bytes strings b 0 x
          → Opened
              (and_then x (λ p. lift (expect_token begin_node p expected_root_node) >> root_name))
      by_token (ok (o, begin_node), r) (nops, some_token, at_o, in1, (rest, e, n)) =
          rw at_o (root_name-Opened o rest nops e n in1)
      by_token (ok (o, end_node), r) (nops, some_token, at_o, in1, (rest, e, n)) =
          (nops, (rest, e), (λ c. omega (arith, c)), λ c. omega (arith, c))
      by_token (ok (o, property), r) (nops, some_token, at_o, in1, (rest, e, n)) =
          (nops, (rest, e), (λ c. omega (arith, c)), λ c. omega (arith, c))
      by_token (ok (o, nop), r) (nops, some_token, at_o, in1, (rest, e, n)) =
          absurd (some_token refl)
      by_token (ok (o, end), r) (nops, some_token, at_o, in1, (rest, e, n)) =
          (nops, (rest, e), (λ c. omega (arith, c)), λ c. omega (arith, c))
      by_token (err x, r) h = FoundError-NewBlame bytes strings b 0 x (λ o v nops. inl nops) h
      by_token (fault x, r) h = h

  -- What is read behind the root, which is closed up to `q`.
  abbrev Finished : ℕ → Result (Unit {0}) StructureError × Reader → Type 0
  Finished q (ok _, r) = EndsAt bytes strings q
  Finished q (err e, r) = NewBlame bytes strings e
  Finished q (fault x, r) = ⊥

  trailing-Finished :
      (q o : ℕ) (rest : Bytes)
      → ClosedBefore bytes strings o
      → Nops bytes strings q o
      → drop o bytes ≡ to_be_32 9 ++ rest
      → drop (o + 4) bytes ≡ rest
      → Finished q (check_trailing (at bytes (o + 4)))
  unfolding check_trailing
  trailing-Finished q o [] closed nops e n = rw (none_left bytes (o + 4) n) (o, nops, e)
  trailing-Finished q o (x ∷ rest) closed nops e n =
      rw (some_left bytes (o + 4) (x ∷ rest) n (omega arith)) (
        o,
        x ∷ rest,
        closed,
        refl,
        e,
        omega (arith, length-drop (o + 4) bytes, ap length n),
        omega (arith, length-drop (o + 4) bytes, ap length n),
      )

  finish-Finished :
      (q : ℕ)
      → q ≤ length bytes
      → ((o : ℕ) → Nops bytes strings q o → ClosedBefore bytes strings o)
      → Finished q (finish bytes (at bytes q))
  unfolding finish
  finish-Finished q inside closed =
      by_token (read_non_nop_token (suc (length bytes)) (at bytes q))
        (read_non_nop_token-FoundToken bytes strings b (suc (length bytes)) q inside (omega arith))
    where
      by_token :
          (x : Result (ℕ × Token) StructureError × Reader)
          → FoundToken bytes strings b q x
          → Finished q (and_then x (λ p. lift (expect_token end p expected_end) >> check_trailing))
      by_token (ok (o, end), r) (nops, some_token, at_o, in1, (rest, e, n)) =
          rw at_o (trailing-Finished q o rest (closed o nops) nops e n)
      by_token (ok (o, begin_node), r) (nops, some_token, at_o, in1, (rest, e, n)) =
          (closed o nops, (rest, e), (λ c. omega (arith, c)), λ c. omega (arith, c))
      by_token (ok (o, end_node), r) (nops, some_token, at_o, in1, (rest, e, n)) =
          (closed o nops, (rest, e), (λ c. omega (arith, c)), λ c. omega (arith, c))
      by_token (ok (o, property), r) (nops, some_token, at_o, in1, (rest, e, n)) =
          (closed o nops, (rest, e), (λ c. omega (arith, c)), λ c. omega (arith, c))
      by_token (ok (o, nop), r) (nops, some_token, at_o, in1, (rest, e, n)) =
          absurd (some_token refl)
      by_token (err x, r) h =
          FoundError-NewBlame bytes strings b q x (λ o v nops. inr (inr (closed o nops))) h
      by_token (fault x, r) h = h

  Blame-NewBlame :
      (o content : ℕ) (e : StructureError)
      → RootAt bytes strings o content
      → Blame bytes strings content e
      → NewBlame bytes strings e
  Blame-NewBlame o content (read e) opened h = h
  Blame-NewBlame o content (invalid_token a v) opened h =
      (inr (inl (o, content, opened, h)), h.2, h.3)
  Blame-NewBlame o content (unterminated_node_name a) opened h = (o, content, opened, h)
  Blame-NewBlame o content (invalid_node_name t a d source) opened h = (o, content, opened, h)
  Blame-NewBlame o content (duplicate_node_name first a d) opened h = (o, content, opened, h)
  Blame-NewBlame o content (property_after_child a d) opened h = (o, content, opened, h)
  Blame-NewBlame o content (invalid_property_name a n source) opened h = (o, content, opened, h)
  Blame-NewBlame o content (duplicate_property_name first a n d) opened h = (o, content, opened, h)
  Blame-NewBlame o content (premature_end a d) opened h = (o, content, opened, h)
  Blame-NewBlame o content (expected_root_node a f) opened h = absurd h
  Blame-NewBlame o content (root_name_not_empty a f) opened h = absurd h
  Blame-NewBlame o content (expected_end a f) opened h = absurd h
  Blame-NewBlame o content (trailing_data a n) opened h = absurd h
  Blame-NewBlame o content (semantic e) opened h = h

-- On a structure block and a strings block `Structure::new` ends within its fuel and without a panic,
-- though it searches what it has validated again for each name. It accepts only a structure: ignored
-- tokens, the root with the empty name, a walk over its content that closes every node, in which node
-- names and property names are permitted and new among their siblings and no property follows a
-- child, ignored tokens, and the end with no byte behind it. Each error of its content names a place
-- the walk comes to and says what is wrong there, with the open node's own entries and the depth where
-- it reports them; a failed read names an offset in the block with fewer bytes behind it than it asked
-- for.
pub new-Validated :
    (bytes strings : Bytes)
    → IsBlock bytes
    → IsBlock strings
    → Validated bytes strings (new bytes strings)
unfolding new
new-Validated bytes strings b s =
    by_root (open_root bytes (at bytes 0)) (open_root-Opened bytes strings b)
  where
    by_end :
        (q : ℕ) (x : Result (Unit {0}) StructureError × Reader)
        → (EndsAt bytes strings q → IsStructure bytes strings)
        → Finished bytes strings b q x
        → Validated bytes strings (and_then x (λ u. lift (ok bytes))).0
    by_end q (ok u, r) structure h = (refl, structure h)
    by_end q (err e, r) structure h = h
    by_end q (fault x, r) structure h = h

    by_loop :
        (o content : ℕ) (x : Result (Unit {0}) StructureError × Reader)
        → RootAt bytes strings o content
        → Judged bytes strings content x
        → Validated bytes strings (and_then x (λ u. finish bytes >> lift (ok bytes))).0
    by_loop o content (ok u, r) opened (top, p, q, reached, closing, e) = rw e (
        by_end q (finish bytes (at bytes q))
          (λ ends. (o, content, opened, (top, p, q, reached, closing, ends)))
          (finish-Finished bytes strings b q (Item-forward bytes strings p q closes closing).1
            λ c nops. (o, content, opened, (top, p, q, reached, closing, nops))))
    by_loop o content (err e, r) opened h = Blame-NewBlame bytes strings b o content e opened h
    by_loop o content (fault x, r) opened h = h

    by_root :
        (x : Result ℕ StructureError × Reader)
        → Opened bytes strings b x
        → Validated bytes strings
            (and_then x (λ content.
              structure_loop (suc (length bytes)) bytes strings content 1 properties content
              >> (finish bytes >> lift (ok bytes)))).0
    by_root (ok content, r) (o, opened, at_content, inside) = rw at_content (
        by_loop o content
          (structure_loop (suc (length bytes)) bytes strings content 1 properties content
            (at bytes content))
          opened
          (structure_loop-Judged b s inside (suc (length bytes)) content root (λ c. refl)
            (omega arith)))
    by_root (err e, r) h = h
    by_root (fault x, r) h = h
