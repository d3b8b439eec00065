-- ===== src/Fdt/Structure/Walk.antt =====
-- The loop of `Structure::new` follows a walk over the content, and refuses nothing on it.
use barebone_kernel.Base.{
  ℕ, suc, ◌+◌, ◌-◌, ◌≤◌, ◌<◌, ◌≡◌, refl, ap, ◌∙◌, arith, List, [], ◌∷◌, Bytes, length, ok,
}
use barebone_kernel.Fdt.NodeName.Grammar.{IsNodeName, validate_iff}
use barebone_kernel.Fdt.Strings.Names.{validate_property_name-ok}
use barebone_kernel.Fdt.Structure.{
  begin_node, end_node, property, nop, properties, validate_property, enter_node, structure_token,
  structure_loop,
}
use barebone_kernel.Fdt.Structure.Errors.{unterminated_node_name}
use barebone_kernel.Fdt.Structure.Items.{
  IsBlock, at, opens, closes, sets, nothing, Item, token-at, opens-reads, sets-reads,
}
use barebone_kernel.Fdt.Structure.Machine.{
  Frame, Fresh, Fresh-none, Reached, root, enter, leave, define, skip, depth_of, Item-forward,
  Reached-AllHaveChild, items_of, items_of-le,
}
use barebone_kernel.Fdt.Structure.Siblings.{find_prior_sibling_node-Reached}
use barebone_kernel.Fdt.Structure.Properties.{find_property-Reached}
use barebone_kernel.Fdt.Structure.Sound.{phase_of, phase_of-children, positive, round_on, loop_end}

module _ {bytes strings : Bytes} (b : IsBlock bytes) (s : IsBlock strings) {content : ℕ}
    (inside : content ≤ length bytes) where
  opens_on :
      {top : Frame} {under : List Frame} {p q : ℕ} (name : Bytes) (fuel start : ℕ)
      → Reached bytes strings content top under p
      → Item bytes strings p (opens name) q
      → IsNodeName name
      → Fresh name top.children
      → structure_loop
          (suc fuel)
          bytes
          strings
          content
          (depth_of under)
          (phase_of top)
          start
          (at bytes p)
        ≡ structure_loop fuel bytes strings content (suc (depth_of under)) properties q (at bytes q)
  unfolding structure_token enter_node
  opens_on {top} {under} {p} {q} name fuel start r i is fresh =
      let (pad, r1, r2, r3) =
        opens-reads bytes b strings name p q (λ x. unterminated_node_name (p + 4)) i in
      let named = (validate_iff name).1 is in
      let searched = find_prior_sibling_node-Reached b inside r name in
      let none_there = Fresh-none name top.children fresh in
      round_on bytes strings content fuel (length under) p start (phase_of top) begin_node r1
      ∙ rw (r2, named, r3, searched, none_there) refl

  closes_on :
      {top up : Frame} {under : List Frame} {p q : ℕ} (fuel start : ℕ)
      → Reached bytes strings content top (up ∷ under) p
      → Item bytes strings p closes q
      → structure_loop
          (suc fuel)
          bytes
          strings
          content
          (suc (depth_of under))
          (phase_of top)
          start
          (at bytes p)
        ≡ structure_loop fuel bytes strings content
            (depth_of under)
            (phase_of up)
            start
            (at bytes q)
  unfolding structure_token
  closes_on {top} {up} {under} {p} {q} fuel start r (rest, e, k) =
      round_on bytes strings content fuel (depth_of under) p start (phase_of top) end_node
        (token-at bytes b p end_node rest e).0
      ∙ rw (k, positive (length under), phase_of-children up (Reached-AllHaveChild r).0) refl

  sets_on :
      {top : Frame} {under : List Frame} {p q : ℕ} (name : Bytes) (fuel start : ℕ)
      → Reached bytes strings content top under p
      → Item bytes strings p (sets name) q
      → top.children ≡ []
      → Fresh name top.properties
      → start ≡ top.start
      → structure_loop
          (suc fuel)
          bytes
          strings
          content
          (depth_of under)
          (phase_of top)
          start
          (at bytes p)
        ≡ structure_loop fuel bytes strings content
            (depth_of under)
            (phase_of top)
            start
            (at bytes q)
  unfolding structure_token validate_property
  sets_on {top} {under} {p} {q} name fuel start r i c fresh same =
      let (v, pad, name_offset, r1, r2, r3, r4, r5, is, stands) =
        sets-reads bytes b strings name p q i in
      let named =
        validate_property_name-ok strings name_offset name s.are_bytes s.small is stands in
      let searched = find_property-Reached b s inside r c name in
      let none_there = Fresh-none name top.properties fresh in
      round_on bytes strings content fuel (length under) p start (phase_of top) property r1
      ∙ rw (c, same, r2, r3, named, r4, r5, searched, none_there) refl

  nothing_on :
      (p q fuel depth start : ℕ) (top : Frame)
      → Item bytes strings p nothing q
      → structure_loop
          (suc fuel)
          bytes
          strings
          content
          (suc depth)
          (phase_of top)
          start
          (at bytes p)
        ≡ structure_loop fuel bytes strings content (suc depth) (phase_of top) start (at bytes q)
  unfolding structure_token
  nothing_on p q fuel depth start top (rest, e, k) =
      round_on bytes strings content fuel depth p start (phase_of top) nop
        (token-at bytes b p nop rest e).0
      ∙ rw k refl

  -- The loop comes to each place that the walk reaches.
  abbrev WalkedTo : (total fuel : ℕ) → Frame → List Frame → ℕ → Type 0
  WalkedTo total fuel top under p =
      (start : ℕ) × (top.children ≡ [] → start ≡ top.start)
      × (structure_loop total bytes strings content 1 properties content (at bytes content)
          ≡ structure_loop fuel bytes strings content (depth_of under) (phase_of top) start
              (at bytes p))

  walk-Reached :
      {top : Frame} {under : List Frame} {p : ℕ} (total fuel : ℕ)
      (r : Reached bytes strings content top under p)
      → total ≡ items_of r + fuel
      → WalkedTo total fuel top under p
  walk-Reached total fuel root t = (
    content,
    (λ c. refl),
    ap (λ n. structure_loop n bytes strings content 1 properties content (at bytes content))
        (omega (arith, t)),
  )
  walk-Reached total fuel (enter {q = q} name r i is fresh) t =
      let (start, same, e) = walk-Reached total (suc fuel) r (omega (arith, t)) in
      (q, (λ c. refl), e ∙ opens_on name fuel start r i is fresh)
  walk-Reached total fuel (leave r i) t =
      let (start, same, e) = walk-Reached total (suc fuel) r (omega (arith, t)) in
      (start, (λ c. absurd ((Reached-AllHaveChild r).0 c)), e ∙ closes_on fuel start r i)
  walk-Reached total fuel (define name r i c fresh) t =
      let (start, same, e) = walk-Reached total (suc fuel) r (omega (arith, t)) in
      (start, (λ d. same c), e ∙ sets_on name fuel start r i c fresh (same c))
  walk-Reached total fuel (skip {top = top} {under = under} {p = p} {q = q} r i) t =
      let (start, same, e) = walk-Reached total (suc fuel) r (omega (arith, t)) in
      (start, same, e ∙ nothing_on p q fuel (length under) start top i)

  closes_root :
      (p q fuel start : ℕ) (top : Frame)
      → 0 < fuel
      → Item bytes strings p closes q
      → structure_loop (suc fuel) bytes strings content 1 (phase_of top) start (at bytes p)
        ≡ (ok tt, at bytes q)
  unfolding structure_token
  closes_root p q fuel start top some_fuel (rest, e, k) =
      round_on bytes strings content fuel 0 p start (phase_of top) end_node
        (token-at bytes b p end_node rest e).0
      ∙ rw k (loop_end bytes strings content fuel start _ (at bytes (p + 4)) some_fuel)

  pub structure_loop-closes :
      {top : Frame} {p q : ℕ}
      → Reached bytes strings content top [] p
      → Item bytes strings p closes q
      → structure_loop
          (suc (length bytes))
          bytes
          strings
          content
          1
          properties
          content
          (at bytes content)
        ≡ (ok tt, at bytes q)
  structure_loop-closes {top} {p} {q} r i =
      let passed = items_of-le r in
      let ahead = Item-forward bytes strings p q closes i in
      let (start, same, e) =
        walk-Reached (suc (length bytes)) (suc (length bytes - items_of r)) r
          (omega (arith, passed, ahead)) in
      e ∙ closes_root p q (length bytes - items_of r) start top (omega (arith, passed, ahead)) i
