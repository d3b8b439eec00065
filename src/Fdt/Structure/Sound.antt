-- ===== src/Fdt/Structure/Sound.antt =====
-- The loop of `Structure::new`: each round follows the step relation, or its error is true.
use barebone_kernel.Base.{
  ℕ, zero, suc, ◌+◌, ◌≤◌, ◌<◌, ◌≡◌, inl, inr, refl, arith, List, [], ◌∷◌, ◌++◌, Bytes, true, ltb,
  drop, length, to_be_32, ok, err, subst,
}
use barebone_kernel.Fdt.Reader.{Reader}
use barebone_kernel.Fdt.Structure.{
  Token, begin_node, end_node, property, nop, end, value, NodePhase, properties, children,
  read_token, structure_token, structure_loop,
}
use barebone_kernel.Fdt.Structure.Errors.{StructureError}
use barebone_kernel.Fdt.Structure.Items.{IsBlock, at, opens, sets}
use barebone_kernel.Fdt.Structure.Cases.{token-cases}
use barebone_kernel.Fdt.Structure.Machine.{
  Entry, Frame, Reached, enter, leave, define, skip, depth_of, Item-forward, Reached-inside,
  Reached-AllHaveChild,
}
use barebone_kernel.Fdt.Structure.Judge.{Judged}
use barebone_kernel.Fdt.Structure.Handlers.{enter_node-Judged, property-Judged}

abbrev phase_from : List Entry → NodePhase
phase_from [] = properties
phase_from (e ∷ es) = children

-- The phase of the open node: a child ends the properties.
abbrev pub phase_of : Frame → NodePhase
phase_of top = phase_from top.children

pub phase_of-children : (top : Frame) → ¬ (top.children ≡ []) → phase_of top ≡ children
phase_of-children top h = by_children top.children refl
  where
    by_children : (es : List Entry) → top.children ≡ es → phase_from es ≡ children
    by_children [] e = absurd (h e)
    by_children (x ∷ es) e = refl

pub positive : (n : ℕ) → ltb 0 (suc n) ≡ true
positive n = ground arith

module _ (bytes strings : Bytes) (content : ℕ) where
  pub round_on :
      (fuel depth p start : ℕ) (phase : NodePhase) (t : Token)
      → read_token (at bytes p) ≡ (ok (p, t), at bytes (p + 4))
      → structure_loop (suc fuel) bytes strings content (suc depth) phase start (at bytes p)
        ≡ structure_token bytes strings content
            (suc depth)
            phase
            start
            p
            t
            (structure_loop fuel bytes strings content)
            (at bytes (p + 4))
  unfolding structure_loop
  round_on fuel depth p start phase t e = rw (structure_loop, positive depth, e) refl

  round_err :
      (fuel depth p start : ℕ) (phase : NodePhase) (x : StructureError) (r : Reader)
      → read_token (at bytes p) ≡ (err x, r)
      → structure_loop (suc fuel) bytes strings content (suc depth) phase start (at bytes p)
        ≡ (err x, r)
  unfolding structure_loop
  round_err fuel depth p start phase x r e = rw (structure_loop, positive depth, e) refl

  -- Behind the root the loop ends.
  pub loop_end :
      (fuel start : ℕ) (phase : NodePhase) (r : Reader)
      → 0 < fuel
      → structure_loop fuel bytes strings content 0 phase start r ≡ (ok tt, r)
  unfolding structure_loop
  loop_end zero start phase r h = absurd (omega arith)
  loop_end (suc fuel) start phase r h = refl

module _ {bytes strings : Bytes} (b : IsBlock bytes) (s : IsBlock strings) {content : ℕ}
    (inside : content ≤ length bytes) where
  -- What the loop does behind an item.
  abbrev Later : ℕ → ℕ → Type 0
  Later fuel p =
      (top : Frame) (under : List Frame) (q start : ℕ)
      → Reached bytes strings content top under q
      → (top.children ≡ [] → start ≡ top.start)
      → p + 4 ≤ q
      → Judged bytes strings content (
          structure_loop fuel bytes strings content (depth_of under) (phase_of top) start
            (at bytes q))

  property_token-Judged :
      {top : Frame} {under : List Frame} {p : ℕ} (fuel start : ℕ) (rest : Bytes)
      → Reached bytes strings content top under p
      → (top.children ≡ [] → start ≡ top.start)
      → drop p bytes ≡ to_be_32 3 ++ rest
      → drop (p + 4) bytes ≡ rest
      → p + 4 ≤ length bytes
      → Later fuel p
      → Judged bytes strings content (
          structure_token bytes strings content
            (depth_of under)
            (phase_of top)
            start
            p
            property
            (structure_loop fuel bytes strings content)
            (at bytes (p + 4)))
  unfolding structure_token
  property_token-Judged {top} {under} {p} fuel start rest r same e n in1 later =
      by_children top.children refl
    where
      by_children :
          (es : List Entry)
          → top.children ≡ es
          → Judged bytes strings content (
              structure_token bytes strings content
                (depth_of under)
                (phase_from es)
                start
                p
                property
                (structure_loop fuel bytes strings content)
                (at bytes (p + 4)))
      by_children [] c = rw (same c) (
          property-Judged b s inside
            (structure_loop fuel bytes strings content (depth_of under) properties top.start) rest r
            c e n in1
            λ name q item fresh.
              subst
                (λ es. Judged bytes strings content (
                  structure_loop fuel bytes strings content (depth_of under) (phase_from es)
                    top.start (at bytes q)))
                c
                (later
                  (record top { properties = record { name = name; offset = p } ∷ top.properties })
                  under q top.start (define name r item c fresh) (λ d. refl)
                  (omega (arith, Item-forward bytes strings p q (sets name) item))))
      by_children (x ∷ es) c = ((rest, e), (top, under, r, refl, λ d. cc))

  structure_token-Judged :
      {top : Frame} {under : List Frame} {p : ℕ} (fuel start : ℕ) (t : Token) (rest : Bytes)
      → Reached bytes strings content top under p
      → (top.children ≡ [] → start ≡ top.start)
      → 0 < fuel
      → drop p bytes ≡ to_be_32 (value t) ++ rest
      → drop (p + 4) bytes ≡ rest
      → p + 4 ≤ length bytes
      → Later fuel p
      → Judged bytes strings content (
          structure_token bytes strings content
            (depth_of under)
            (phase_of top)
            start
            p
            t
            (structure_loop fuel bytes strings content)
            (at bytes (p + 4)))
  unfolding structure_token
  structure_token-Judged {top} {under} {p} fuel start begin_node rest r same some_fuel e n in1
        later =
      enter_node-Judged b s inside (structure_loop fuel bytes strings content) rest r e n in1
        λ name q item is fresh.
          later (record { start = q; properties = []; children = [] })
            (record top { children = record { name = name; offset = p } ∷ top.children } ∷ under) q
            q (enter name r item is fresh) (λ c. refl)
            (omega (arith, Item-forward bytes strings p q (opens name) item))
  structure_token-Judged {top = top} {under = []} {p = p} fuel start end_node rest r same some_fuel
        e n in1 later =
      rw (loop_end bytes strings content fuel start (phase_of top) (at bytes (p + 4)) some_fuel)
        (top, p, p + 4, r, (rest, e, refl), refl)
  structure_token-Judged {top = top} {under = up ∷ under} {p = p} fuel start end_node rest r same
        some_fuel e n in1 later =
      let has = (Reached-AllHaveChild r).0 in
      rw (positive (length under)) (
        rw (phase_of-children up has) at (
          later up under (p + 4) start (leave r (rest, e, refl)) (λ c. absurd (has c))
            (omega arith)))
  structure_token-Judged fuel start property rest r same some_fuel e n in1 later =
      property_token-Judged fuel start rest r same e n in1 later
  structure_token-Judged {top} {under} {p} fuel start nop rest r same some_fuel e n in1 later =
      later top under (p + 4) start (skip r (rest, e, refl)) same (omega arith)
  structure_token-Judged {top} {under} {p} fuel start end rest r same some_fuel e n in1 later =
      ((rest, e), (top, under, r, refl, tt))

  -- With a round for every byte left, the loop ends as `Judged` says.
  pub structure_loop-Judged :
      {top : Frame} {under : List Frame} {p : ℕ} (fuel start : ℕ)
      → Reached bytes strings content top under p
      → (top.children ≡ [] → start ≡ top.start)
      → length bytes < p + fuel
      → Judged bytes strings content (
          structure_loop fuel bytes strings content
            (depth_of under)
            (phase_of top)
            start
            (at bytes p))
  structure_loop-Judged zero start r same enough =
      absurd (omega (arith, Reached-inside inside r, enough))
  structure_loop-Judged {top} {under} {p} (suc fuel) start r same enough =
      elim (token-cases bytes b p (Reached-inside inside r).1) [
        | inr (inr (x, h, e)) ↦
            rw (round_err bytes strings content fuel (length under) p start (phase_of top) _ _ e) h
        | inr (inl (v, rest, e, unknown, f)) ↦
            rw (round_err bytes strings content fuel (length under) p start (phase_of top) _ _ f)
              (depth_of under, (top, under, r, refl, tt), (rest, e), unknown)
        | inl (t, rest, e, f, n, in1) ↦
            rw (round_on bytes strings content fuel (length under) p start (phase_of top) t f) (
              structure_token-Judged fuel start t rest r same (omega (arith, enough, in1)) e n in1
                λ top2 under2 q st r2 same2 k.
                  structure_loop-Judged fuel st r2 same2 (omega (arith, enough, k)))
      ]
