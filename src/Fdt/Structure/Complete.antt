-- ===== src/Fdt/Structure/Complete.antt =====
-- `Structure::new` on a structure: nothing is refused.
use barebone_kernel.Base.{
  ℕ, zero, suc, ◌+◌, ◌-◌, ◌≤◌, ◌<◌, ◌≡◌, refl, sym, ◌∙◌, arith, [], ◌∷◌, ◌++◌, append-nil, Bytes,
  true, ◌==◌, drop, length, to_be_32, ok,
}
use barebone_kernel.Fdt.Reader.Cursor.{read_u8-ok}
use barebone_kernel.Fdt.Structure.{
  Token, begin_node, end_node, property, nop, end, read_token, unless_nop, read_non_nop_token,
  root_name, open_root, check_trailing, finish, new,
}
use barebone_kernel.Fdt.Structure.Items.{
  IsBlock, at, opens, Item, at-IsValid, drop_behind, token-at, align-at, drop_within,
}
use barebone_kernel.Fdt.Structure.Machine.{Item-forward}
use barebone_kernel.Fdt.Structure.Judge.{Nops, done, more, RootAt, EndsAt, IsStructure}
use barebone_kernel.Fdt.Structure.Walk.{structure_loop-closes}

module _ (bytes strings : Bytes) (b : IsBlock bytes) where
  Nops-forward : {p q : ℕ} → Nops bytes strings p q → p ≤ q
  Nops-forward done = omega arith
  Nops-forward (more i nops) = omega (arith, i.2, Nops-forward nops)

  -- Ignored tokens are passed, and the next token is returned.
  passes :
      (t : Token) {p o : ℕ} (fuel : ℕ)
      → ¬ (t ≡ nop)
      → Nops bytes strings p o
      → read_token (at bytes o) ≡ (ok (o, t), at bytes (o + 4))
      → length bytes < p + fuel
      → o ≤ length bytes
      → read_non_nop_token fuel (at bytes p) ≡ (ok (o, t), at bytes (o + 4))
  unfolding read_non_nop_token unless_nop
  passes t zero other nops e enough inside = absurd (omega (arith, Nops-forward nops))
  passes t {p} (suc fuel) other done e enough inside = rw e (returned t other)
    where
      returned :
          (t : Token)
          → ¬ (t ≡ nop)
          → unless_nop p t (read_non_nop_token fuel) (at bytes (p + 4))
            ≡ (ok (p, t), at bytes (p + 4))
      returned begin_node other = refl
      returned end_node other = refl
      returned property other = refl
      returned nop other = absurd (other refl)
      returned end other = refl
  passes t {p} (suc fuel) other (more (rest, e1, k) nops) e enough inside =
      rw ((token-at bytes b p nop rest e1).0, sym k)
        (passes t fuel other nops e (omega (arith, k)) inside)

  root_name-opens :
      (o content : ℕ)
      → Item bytes strings o (opens []) content
      → root_name (at bytes (o + 4)) ≡ (ok content, at bytes content)
  unfolding root_name
  root_name-opens o content (pad, rest, clear, e, l, k) =
      let within = drop_within bytes b o (to_be_32 1) (0 ∷ (pad ++ rest)) (omega arith) e in
      let (r1, n1) = token-at bytes b o begin_node (0 ∷ (pad ++ rest)) e in
      let r2 =
        read_u8-ok {r = at bytes (o + 4)} 0 (pad ++ rest)
          (at-IsValid bytes b (o + 4) (omega (arith, within))) n1 in
      let n2 : drop (o + 4 + 1) bytes ≡ pad ++ rest =
        drop_behind bytes b (o + 4) (0 ∷ []) (pad ++ rest) n1 in
      let (r3, n3) = align-at bytes b (o + 4 + 1) pad rest (omega (arith, within)) l n2 in
      rw (r2, r3, k) refl

  open_root-RootAt :
      (o content : ℕ)
      → RootAt bytes strings o content
      → open_root bytes (at bytes 0) ≡ (ok content, at bytes content)
  unfolding open_root
  open_root-RootAt o content (nops, i) =
      let ahead = Item-forward bytes strings o content (opens []) i in
      let r1 =
        passes begin_node (suc (length bytes)) (λ c. cc) nops
          (token-at bytes b o begin_node (0 ∷ (i.0 ++ i.1)) i.3).0 (omega arith)
          (omega (arith, ahead)) in
      rw r1 (root_name-opens o content i)

  finish-EndsAt :
      (q : ℕ)
      → (ends : EndsAt bytes strings q) → finish bytes (at bytes q) ≡ (ok tt, at bytes (ends.0 + 4))
  unfolding finish check_trailing
  finish-EndsAt q (o, nops, e) =
      let whole : drop o bytes ≡ to_be_32 9 ++ [] = e ∙ sym (append-nil (to_be_32 9)) in
      let within = drop_within bytes b o (to_be_32 9) [] (omega arith) whole in
      let r1 =
        passes end (suc (length bytes)) (λ c. cc) nops (token-at bytes b o end [] whole).0
          (omega arith) (omega (arith, within)) in
      let none_left : (length bytes - (o + 4) == 0) ≡ true = ground (arith, within) in
      rw (r1, none_left) refl

-- `Structure::new` accepts every structure: a block of ignored tokens, the root with the empty name, a
-- walk over its content that closes every node and in which names are permitted and new among their
-- siblings and no property follows a child, ignored tokens, and the end with no byte behind it.
pub new-IsStructure :
    (bytes strings : Bytes)
    → IsBlock bytes
    → IsBlock strings
    → IsStructure bytes strings
    → new bytes strings ≡ ok bytes
unfolding new
new-IsStructure bytes strings b s (o, content, opened, (top, p, q, reached, closing, ends)) =
    let r1 = open_root-RootAt bytes strings b o content opened in
    let ahead = Item-forward bytes strings o content (opens []) opened.1 in
    let r2 = structure_loop-closes b s ahead.1 reached closing in
    let r3 = finish-EndsAt bytes strings b q ends in rw (new, r1, r2, r3) refl
