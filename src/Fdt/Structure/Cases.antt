-- ===== src/Fdt/Structure/Cases.antt =====
-- What the reads of an item's parts may find at a place in the block.
use barebone_kernel.Base.{
  ℕ, ◌+◌, ◌-◌, ◌≤◌, ◌<◌, ◌≡◌, ◌⊎◌, inl, inr, refl, sym, ap, arith, ◌∷◌, ◌++◌, Bytes, IsByte, IsU32,
  length, length-drop, length-take, length-append, drop, take, take-append-drop, All-drop, to_be_32,
  ok, err, subst, false, Bool-cases, ◌==◌,
}
use barebone_kernel.Fdt.Reader.{
  ReadError, truncated, missing_nul_terminator, padding, align_to_4, read_nul_terminated, convert,
}
use barebone_kernel.Fdt.Reader.Cursor.{
  NoNul, read_bytes-err, read_u32-err, read_nul_terminated-err, position_of_nul-cases,
}
use barebone_kernel.Fdt.Reader.RoundTrip.{split_be_32}
use barebone_kernel.Fdt.Structure.{
  Token, begin_node, end_node, property, nop, end, value, parse, u32, skip_bytes, align, read_token,
}
use barebone_kernel.Fdt.Structure.Errors.{StructureError, read, invalid_token}
use barebone_kernel.Fdt.Structure.Items.{
  IsBlock, at, at-IsValid, u32-at, token-at, skip-at, name-at,
}
use native.Mathlib.Decide.{dec_le}

-- A failed read was short: at its offset in the block fewer bytes are left than it asked for.
abbrev pub Short : Bytes → ReadError → Type 0
Short bytes (truncated o n left) = (o ≤ length bytes) × (left ≡ length bytes - o) × (left < n)
Short bytes (missing_nul_terminator o) = ⊥

-- No token has this value.
abbrev pub IsUnknown : ℕ → Type 0
IsUnknown v = (t : Token) → ¬ (v ≡ value t)

parse-cases :
    (v p : ℕ)
    → ((t : Token) × (v ≡ value t)) ⊎ (IsUnknown v × (parse v p ≡ err (invalid_token p v)))
unfolding parse
parse-cases v p = elim (Bool-cases (v == 1)) [
  | inl e ↦ inl (begin_node, ground arith)
  | inr a ↦ elim (Bool-cases (v == 2)) [
    | inl e ↦ inl (end_node, ground arith)
    | inr b ↦ elim (Bool-cases (v == 3)) [
      | inl e ↦ inl (property, ground arith)
      | inr c ↦ elim (Bool-cases (v == 4)) [
        | inl e ↦ inl (nop, ground arith)
        | inr d ↦ elim (Bool-cases (v == 9)) [
          | inl e ↦ inl (end, ground arith)
          | inr f ↦ inr (unknown a b c d f, rw (a, b, c, d, f))
        ]
      ]
    ]
  ]
]
  where
    unknown :
        v == 1 ≡ false
        → v == 2 ≡ false
        → v == 3 ≡ false
        → v == 4 ≡ false
        → v == 9 ≡ false
        → IsUnknown v
    unknown a b c d f begin_node = λ e. ground arith
    unknown a b c d f end_node = λ e. ground arith
    unknown a b c d f property = λ e. ground arith
    unknown a b c d f nop = λ e. ground arith
    unknown a b c d f end = λ e. ground arith

module _ (bytes : Bytes) (b : IsBlock bytes) where
  pub u32-cases :
      (p : ℕ)
      → p ≤ length bytes
      → ((v : ℕ) × (rest : Bytes) × IsU32 v
          × (drop p bytes ≡ to_be_32 v ++ rest)
          × (u32 (at bytes p) ≡ (ok v, at bytes (p + 4)))
          × (drop (p + 4) bytes ≡ rest)
          × (p + 4 ≤ length bytes))
        ⊎ ((e : ReadError) × Short bytes e × (u32 (at bytes p) ≡ (err (read e), at bytes p)))
  u32-cases p inside = elim (dec_le (p + 4) (length bytes)) [
    | yes h ↦
        let (v, rest, small, e, _) =
          split_be_32 (drop p bytes) (All-drop IsByte p bytes b.are_bytes)
            (omega (arith, length-drop p bytes)) in
        let (r, n) = u32-at bytes b p v rest small e in inl (v, rest, small, e, r, n, h)
    | no h ↦ inr (
      truncated p 4 (length bytes - p),
      (inside, refl, omega (arith, h)),
      rw (read_u32-err {r = at bytes p} (at-IsValid bytes b p inside) (omega arith)) refl,
    )
  ]

  pub token-cases :
      (p : ℕ)
      → p ≤ length bytes
      → ((t : Token) × (rest : Bytes) × (drop p bytes ≡ to_be_32 (value t) ++ rest)
          × (read_token (at bytes p) ≡ (ok (p, t), at bytes (p + 4)))
          × (drop (p + 4) bytes ≡ rest)
          × (p + 4 ≤ length bytes))
        ⊎ ((v : ℕ) × (rest : Bytes) × (drop p bytes ≡ to_be_32 v ++ rest)
            × IsUnknown v
            × (read_token (at bytes p) ≡ (err (invalid_token p v), at bytes (p + 4))))
        ⊎ ((e : ReadError) × Short bytes e × (read_token (at bytes p) ≡ (err (read e), at bytes p)))
  unfolding read_token
  token-cases p inside = elim (u32-cases p inside) [
    | inr (e, short, r) ↦ inr (inr (e, short, rw r refl))
    | inl (v, rest, small, e, r, n, h) ↦ elim (parse-cases v p) [
      | inr (unknown, f) ↦ inr (inl (v, rest, e, unknown, rw (r, f) refl))
      | inl (t, same) ↦
          let split : drop p bytes ≡ to_be_32 (value t) ++ rest =
            subst (λ k. drop p bytes ≡ to_be_32 k ++ rest) same e in
          let (r2, n2) = token-at bytes b p t rest split in inl (t, rest, split, r2, n2, h)
    ]
  ]

  pub skip-cases :
      (p n : ℕ)
      → p ≤ length bytes
      → ((v : Bytes) × (rest : Bytes) × (length v ≡ n)
          × (drop p bytes ≡ v ++ rest)
          × (skip_bytes n (at bytes p) ≡ (ok v, at bytes (p + n)))
          × (drop (p + n) bytes ≡ rest)
          × (p + n ≤ length bytes))
        ⊎ ((e : ReadError) × Short bytes e
            × (skip_bytes n (at bytes p) ≡ (err (read e), at bytes p)))
  skip-cases p n inside = elim (dec_le (p + n) (length bytes)) [
    | no h ↦ inr (
      truncated p n (length bytes - p),
      (inside, refl, omega (arith, h)),
      rw (read_bytes-err {r = at bytes p} n (at-IsValid bytes b p inside) (omega arith)) refl,
    )
    | yes h ↦
        let v = take n (drop p bytes) in
        let l : length v ≡ n = omega (arith, length-take n (drop p bytes), length-drop p bytes) in
        let e : drop p bytes ≡ v ++ drop n (drop p bytes) =
          sym (take-append-drop n (drop p bytes)) in
        let (r, m) = skip-at bytes b p v (drop n (drop p bytes)) inside e in
        inl (
          v,
          drop n (drop p bytes),
          l,
          e,
          subst (λ k. skip_bytes k (at bytes p) ≡ (ok v, at bytes (p + k))) l r,
          subst (λ k. drop (p + k) bytes ≡ drop n (drop p bytes)) l m,
          h,
        )
  ]

  pub align-cases :
      (p : ℕ)
      → p ≤ length bytes
      → ((pad : Bytes) × (rest : Bytes) × (length pad ≡ padding p)
          × (drop p bytes ≡ pad ++ rest)
          × (align (at bytes p) ≡ (ok pad, at bytes (p + length pad)))
          × (drop (p + length pad) bytes ≡ rest)
          × (p + length pad ≤ length bytes))
        ⊎ ((e : ReadError) × Short bytes e × (align (at bytes p) ≡ (err (read e), at bytes p)))
  unfolding align_to_4
  align-cases p inside = elim (skip-cases p (padding p) inside) [
    | inr h ↦ inr h
    | inl (pad, rest, l, e, r, n, h) ↦ inl (
      pad,
      rest,
      l,
      e,
      subst (λ k. skip_bytes (padding p) (at bytes p) ≡ (ok pad, at bytes (p + k))) (sym l) r,
      subst (λ k. drop (p + k) bytes ≡ rest) (sym l) n,
      omega (arith, l, h),
    )
  ]

  pub name-cases :
      (f : ReadError → StructureError) (p : ℕ)
      → p ≤ length bytes
      → ((name : Bytes) × (rest : Bytes) × NoNul name
          × (drop p bytes ≡ name ++ 0 ∷ rest)
          × (convert f read_nul_terminated (at bytes p)
              ≡ (ok name, at bytes (p + (length name + 1))))
          × (drop (p + (length name + 1)) bytes ≡ rest)
          × (p + (length name + 1) ≤ length bytes))
        ⊎ NoNul (drop p bytes)
          × (convert f read_nul_terminated (at bytes p)
              ≡ (err (f (missing_nul_terminator p)), at bytes p))
  name-cases f p inside = elim (position_of_nul-cases (drop p bytes)) [
    | inl (clear, _) ↦ inr (
      clear,
      rw (read_nul_terminated-err {r = at bytes p} (at-IsValid bytes b p inside) clear) refl,
    )
    | inr (name, rest, e, clear, _) ↦
        let (r, n) = name-at bytes b f p name rest clear e in
        inl (
          name,
          rest,
          clear,
          e,
          r,
          n,
          omega (arith, length-drop p bytes, ap length e, length-append name (0 ∷ rest)),
        )
  ]
