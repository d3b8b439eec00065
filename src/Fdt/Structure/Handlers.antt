-- ===== src/Fdt/Structure/Handlers.antt =====
-- The branches of the loop of `Structure::new` on a node and on a property.
use barebone_kernel.Base.{
  ℕ, suc, ◌+◌, ◌≤◌, ◌≡◌, inl, inr, refl, sym, ap, ◌∙◌, List, [], ◌∷◌, ◌++◌, Bytes, drop, length,
  to_be_32, IsU32, fault, Fault, Result-cases, subst,
}
use barebone_kernel.Fdt.Reader.{ReadM, and_then, padding}
use barebone_kernel.Fdt.Reader.Cursor.{NoNul}
use barebone_kernel.Fdt.NodeName.{validate}
use barebone_kernel.Fdt.NodeName.Grammar.{IsNodeName, validate_iff, Blames, validate-Blames}
use barebone_kernel.Fdt.Strings.{validate_property_name}
use barebone_kernel.Fdt.Strings.Names.{Named, validate_property_name-Named, IsPropertyName, NameAt}
use barebone_kernel.Fdt.Structure.{properties, validate_property, Next, enter_node}
use barebone_kernel.Fdt.Structure.Errors.{StructureError, unterminated_node_name}
use barebone_kernel.Fdt.Structure.Items.{IsBlock, at, opens, sets, Item}
use barebone_kernel.Fdt.Structure.Cases.{u32-cases, skip-cases, align-cases, name-cases}
use barebone_kernel.Fdt.Structure.Machine.{Frame, find_entry-cases, Fresh, Reached, depth_of}
use barebone_kernel.Fdt.Structure.Siblings.{find_prior_sibling_node-Reached}
use barebone_kernel.Fdt.Structure.Properties.{find_property-Reached}
use barebone_kernel.Fdt.Structure.Judge.{Judged}

validate-faultless : (name : Bytes) (f : Fault) → ¬ (validate name ≡ fault f)
validate-faultless name f e = subst (Blames name) e (validate-Blames name)

module _ {bytes strings : Bytes} (b : IsBlock bytes) (s : IsBlock strings) {content : ℕ}
    (inside : content ≤ length bytes) where
  -- The token of a node has been read at `p`.
  pub enter_node-Judged :
      {top : Frame} {under : List Frame} {p : ℕ} (again : Next) (rest : Bytes)
      → Reached bytes strings content top under p
      → drop p bytes ≡ to_be_32 1 ++ rest
      → drop (p + 4) bytes ≡ rest
      → p + 4 ≤ length bytes
      → ((name : Bytes) (q : ℕ)
          → Item bytes strings p (opens name) q
          → IsNodeName name
          → Fresh name top.children
          → Judged bytes strings content (again (suc (depth_of under)) properties q (at bytes q)))
      → Judged bytes strings content
          (enter_node bytes content (depth_of under) p again (at bytes (p + 4)))
  unfolding enter_node
  enter_node-Judged {top} {under} {p} again rest r e n1 in1 go_on =
      elim (name-cases bytes b (λ x. unterminated_node_name (p + 4)) (p + 4) in1) [
        | inr (clear, f) ↦
            rw f (p, depth_of under, rest, (top, under, r, refl, tt), refl, e, subst NoNul n1 clear)
        | inl (name, rest2, clear, e2, r2, n2, in2) ↦ elim (Result-cases (validate name)) [
          | inr (inr (x, f)) ↦ absurd (validate-faultless name x f)
          | inr (inl (x, f)) ↦
              rw (r2, f)
                (name, rest2, (top, under, r, refl, tt), refl, clear, whole name rest2 e2, f)
          | inl (u, f) ↦ elim (align-cases bytes b (p + 4 + (length name + 1)) in2) [
            | inr (x, h, f3) ↦ rw (r2, f, f3) h
            | inl (pad, rest3, l, e3, r3, n3, in3) ↦
                let q = p + 4 + (length name + 1) + length pad in
                let item : Item bytes strings p (opens name) q = (
                  pad,
                  rest3,
                  clear,
                  whole name (pad ++ rest3) (e2 ∙ ap (λ x. name ++ 0 ∷ x) (sym n2 ∙ e3)),
                  l,
                  refl,
                ) in
                let is = (validate_iff name).0 f in
                let searched = find_prior_sibling_node-Reached b inside r name in
                elim (find_entry-cases name top.children) [
                  | inl (none_there, fresh) ↦
                      rw (r2, f, r3, searched, none_there) (go_on name q item is fresh)
                  | inr (first, there, listed) ↦
                      rw (r2, f, r3, searched, there) (name, q, item, (top, under, r, refl, listed))
                ]
          ]
        ]
      ]
    where
      whole :
          (name tail : Bytes)
          → drop (p + 4) bytes ≡ name ++ 0 ∷ tail
          → drop p bytes ≡ to_be_32 1 ++ (name ++ 0 ∷ tail)
      whole name tail h = e ∙ ap (λ x. to_be_32 1 ++ x) (sym n1 ∙ h)

  -- The token of a property has been read at `p`, before all children of the node.
  pub property-Judged :
      {top : Frame} {under : List Frame} {p : ℕ} (again : ReadM (Unit {0}) StructureError)
      (rest : Bytes)
      → Reached bytes strings content top under p
      → top.children ≡ []
      → drop p bytes ≡ to_be_32 3 ++ rest
      → drop (p + 4) bytes ≡ rest
      → p + 4 ≤ length bytes
      → ((name : Bytes) (q : ℕ)
          → Item bytes strings p (sets name) q
          → Fresh name top.properties
          → Judged bytes strings content (again (at bytes q)))
      → Judged bytes strings content (
          and_then
            (validate_property bytes strings top.start p (depth_of under) (at bytes (p + 4)))
            (λ _. again))
  unfolding validate_property
  property-Judged {top} {under} {p} again rest r c e n1 in1 go_on =
      elim (u32-cases bytes b (p + 4) in1) [
        | inr (x, h, f) ↦ rw f h
        | inl (size, rest2, size_small, e2, r2, n2, in2) ↦
            elim (u32-cases bytes b (p + 4 + 4) in2) [
              | inr (x, h, f) ↦ rw (r2, f) h
              | inl (name_offset, rest3, small, e3, r3, n3, in3) ↦
                  let head : drop p bytes
                      ≡ to_be_32 3 ++ (to_be_32 size ++ (to_be_32 name_offset ++ rest3)) =
                    e
                    ∙ ap (λ x. to_be_32 3 ++ x) (sym n1 ∙ e2)
                    ∙ ap (λ x. to_be_32 3 ++ (to_be_32 size ++ x)) (sym n2 ∙ e3) in
                  let named =
                    validate_property_name-Named strings name_offset s.are_bytes s.small in
                  elim (Result-cases (validate_property_name strings name_offset)) [
                    | inr (inr (x, f)) ↦ absurd (subst (Named strings name_offset) f named)
                    | inr (inl (x, f)) ↦
                        rw (r2, r3, f)
                          (depth_of under, size, rest3, (top, under, r, refl, c), head, f)
                    | inl (name, f) ↦
                        let stands : IsPropertyName name × NameAt strings name_offset name =
                          subst (Named strings name_offset) f named in
                        elim (skip-cases bytes b (p + 4 + 4 + 4) size in3) [
                          | inr (x, h, g) ↦ rw (r2, r3, f, g) h
                          | inl (v, rest4, lv, e4, r4, n4, in4) ↦
                              elim (align-cases bytes b (p + 4 + 4 + 4 + size) in4) [
                                | inr (x, h, g) ↦ rw (r2, r3, f, r4, g) h
                                | inl (pad, rest5, lp, e5, r5, n5, in5) ↦
                                    let q = p + 4 + 4 + 4 + size + length pad in
                                    let item : Item bytes strings p (sets name) q =
                                      subst
                                        (λ k.
                                          Item bytes strings p (sets name)
                                            (p + 4 + 4 + 4 + k + length pad))
                                        lv
                                        (
                                          v,
                                          pad,
                                          rest5,
                                          name_offset,
                                          subst IsU32 (sym lv) size_small,
                                          small,
                                          stands.0,
                                          stands.1,
                                          head
                                              ∙ ap
                                                  (λ x.
                                                    to_be_32 3
                                                    ++ (to_be_32 size
                                                        ++ (to_be_32 name_offset ++ x)))
                                                  (sym n3 ∙ e4)
                                              ∙ ap
                                                  (λ x.
                                                    to_be_32 3
                                                    ++ (to_be_32 size
                                                        ++ (to_be_32 name_offset ++ (v ++ x))))
                                                  (sym n4 ∙ e5)
                                              ∙ ap
                                                  (λ k.
                                                    to_be_32 3
                                                    ++ (to_be_32 k
                                                        ++ (to_be_32 name_offset
                                                            ++ (v ++ (pad ++ rest5)))))
                                                  (sym lv),
                                          subst (λ k. length pad ≡ padding (p + 4 + 4 + 4 + k))
                                              (sym lv) lp,
                                          refl,
                                        ) in
                                    let searched = find_property-Reached b s inside r c name in
                                    elim (find_entry-cases name top.properties) [
                                      | inl (none_there, fresh) ↦
                                          rw (r2, r3, f, r4, r5, searched, none_there)
                                            (go_on name q item fresh)
                                      | inr (first, there, listed) ↦
                                          rw (r2, r3, f, r4, r5, searched, there)
                                            (name, q, item, f, (top, under, r, refl, listed))
                                    ]
                              ]
                        ]
                  ]
            ]
      ]
