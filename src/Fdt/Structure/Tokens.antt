-- ===== src/Fdt/Structure/Tokens.antt =====
-- `read_non_nop_token` finds a token that is not to be ignored, or its error is true of the block.
use barebone_kernel.Base.{
  ℕ, zero, suc, ◌+◌, ◌≤◌, ◌<◌, ◌≡◌, ◌⊎◌, inl, inr, refl, arith, ◌++◌, Bytes, drop, length, to_be_32,
  Result, ok, err, fault,
}
use barebone_kernel.Fdt.Reader.{Reader}
use barebone_kernel.Fdt.Structure.{
  Token, begin_node, end_node, property, nop, end, value, unless_nop, read_non_nop_token,
}
use barebone_kernel.Fdt.Structure.Errors.{
  StructureError, read, invalid_token, expected_root_node, root_name_not_empty,
  unterminated_node_name, invalid_node_name, duplicate_node_name, property_after_child,
  invalid_property_name, duplicate_property_name, premature_end, expected_end, trailing_data,
  semantic,
}
use barebone_kernel.Fdt.Structure.Items.{IsBlock, at, nothing, Item}
use barebone_kernel.Fdt.Structure.Cases.{Short, IsUnknown, token-cases}
use barebone_kernel.Fdt.Structure.Judge.{Nops, done, more, ClosedBefore, InContent, NewBlame}

module _ (bytes strings : Bytes) (b : IsBlock bytes) where
  -- What an error of a token's read from `p` on says of the block.
  abbrev pub FoundError : ℕ → StructureError → Type 0
  FoundError p (read e) = Short bytes e
  FoundError p (invalid_token o v) =
      Nops bytes strings p o × ((rest : Bytes) × (drop o bytes ≡ to_be_32 v ++ rest)) × IsUnknown v
  FoundError p (unterminated_node_name a) = ⊥
  FoundError p (invalid_node_name t a d source) = ⊥
  FoundError p (duplicate_node_name first a d) = ⊥
  FoundError p (property_after_child a d) = ⊥
  FoundError p (invalid_property_name a n source) = ⊥
  FoundError p (duplicate_property_name first a n d) = ⊥
  FoundError p (premature_end a d) = ⊥
  FoundError p (expected_root_node a f) = ⊥
  FoundError p (root_name_not_empty a f) = ⊥
  FoundError p (expected_end a f) = ⊥
  FoundError p (trailing_data a n) = ⊥
  FoundError p (semantic e) = ⊥

  FoundError-more :
      (p q : ℕ) (e : StructureError)
      → Item bytes strings p nothing q
      → FoundError q e
      → FoundError p e
  FoundError-more p q (read e) i h = h
  FoundError-more p q (invalid_token o v) i h = (more i h.0, h.1, h.2)
  FoundError-more p q (unterminated_node_name a) i h = h
  FoundError-more p q (invalid_node_name t a d source) i h = h
  FoundError-more p q (duplicate_node_name first a d) i h = h
  FoundError-more p q (property_after_child a d) i h = h
  FoundError-more p q (invalid_property_name a n source) i h = h
  FoundError-more p q (duplicate_property_name first a n d) i h = h
  FoundError-more p q (premature_end a d) i h = h
  FoundError-more p q (expected_root_node a f) i h = h
  FoundError-more p q (root_name_not_empty a f) i h = h
  FoundError-more p q (expected_end a f) i h = h
  FoundError-more p q (trailing_data a n) i h = h
  FoundError-more p q (semantic e) i h = h

  -- Where the tokens to ignore begin is known, so the error is true of the block.
  pub FoundError-NewBlame :
      (p : ℕ) (e : StructureError)
      → ((o v : ℕ)
          → Nops bytes strings p o
          → Nops bytes strings 0 o
            ⊎ InContent bytes strings (invalid_token o v)
            ⊎ ClosedBefore bytes strings o)
      → FoundError p e
      → NewBlame bytes strings e
  FoundError-NewBlame p (read e) place h = h
  FoundError-NewBlame p (invalid_token o v) place h = (place o v h.0, h.1, h.2)
  FoundError-NewBlame p (unterminated_node_name a) place h = absurd h
  FoundError-NewBlame p (invalid_node_name t a d source) place h = absurd h
  FoundError-NewBlame p (duplicate_node_name first a d) place h = absurd h
  FoundError-NewBlame p (property_after_child a d) place h = absurd h
  FoundError-NewBlame p (invalid_property_name a n source) place h = absurd h
  FoundError-NewBlame p (duplicate_property_name first a n d) place h = absurd h
  FoundError-NewBlame p (premature_end a d) place h = absurd h
  FoundError-NewBlame p (expected_root_node a f) place h = absurd h
  FoundError-NewBlame p (root_name_not_empty a f) place h = absurd h
  FoundError-NewBlame p (expected_end a f) place h = absurd h
  FoundError-NewBlame p (trailing_data a n) place h = absurd h
  FoundError-NewBlame p (semantic e) place h = h

  -- A token that is not to be ignored, or a true error.
  abbrev pub FoundToken : ℕ → Result (ℕ × Token) StructureError × Reader → Type 0
  FoundToken p (ok (o, t), r) =
      Nops bytes strings p o
      × ¬ (t ≡ nop)
      × (r ≡ at bytes (o + 4))
      × (o + 4 ≤ length bytes)
      × ((rest : Bytes) × (drop o bytes ≡ to_be_32 (value t) ++ rest) × (drop (o + 4) bytes ≡ rest))
  FoundToken p (err e, r) = FoundError p e
  FoundToken p (fault x, r) = ⊥

  FoundToken-more :
      (p q : ℕ) (x : Result (ℕ × Token) StructureError × Reader)
      → Item bytes strings p nothing q
      → FoundToken q x
      → FoundToken p x
  FoundToken-more p q (ok (o, t), r) i h = (more i h.0, h.1, h.2, h.3, h.4)
  FoundToken-more p q (err e, r) i h = FoundError-more p q e i h
  FoundToken-more p q (fault x, r) i h = h

  pub read_non_nop_token-FoundToken :
      (fuel p : ℕ)
      → p ≤ length bytes
      → length bytes < p + fuel
      → FoundToken p (read_non_nop_token fuel (at bytes p))
  unfolding read_non_nop_token unless_nop
  read_non_nop_token-FoundToken zero p inside enough = absurd (omega arith)
  read_non_nop_token-FoundToken (suc fuel) p inside enough = elim (token-cases bytes b p inside) [
    | inr (inr (x, h, e)) ↦ rw e h
    | inr (inl (v, rest, e, unknown, f)) ↦ rw f (done, (rest, e), unknown)
    | inl (t, rest, e, f, n, in1) ↦
        rw f
          (by_token t rest e n in1 (read_non_nop_token-FoundToken fuel (p + 4) in1 (omega arith)))
  ]
    where
      by_token :
          (t : Token) (rest : Bytes)
          → drop p bytes ≡ to_be_32 (value t) ++ rest
          → drop (p + 4) bytes ≡ rest
          → p + 4 ≤ length bytes
          → FoundToken (p + 4) (read_non_nop_token fuel (at bytes (p + 4)))
          → FoundToken p (unless_nop p t (read_non_nop_token fuel) (at bytes (p + 4)))
      by_token nop rest e n in1 later =
          FoundToken-more p (p + 4) (read_non_nop_token fuel (at bytes (p + 4))) (rest, e, refl)
            later
      by_token begin_node rest e n in1 later = (done, (λ c. cc), refl, in1, (rest, e, n))
      by_token end_node rest e n in1 later = (done, (λ c. cc), refl, in1, (rest, e, n))
      by_token property rest e n in1 later = (done, (λ c. cc), refl, in1, (rest, e, n))
      by_token end rest e n in1 later = (done, (λ c. cc), refl, in1, (rest, e, n))
