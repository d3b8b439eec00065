-- ===== src/Fdt/Structure/Properties.antt =====
-- `find_property` walks the properties of the open node again, and finds the entry of a name.
use barebone_kernel.Base.{
  ℕ, suc, ◌+◌, ◌-◌, ◌≤◌, ◌<◌, ◌≡◌, ◌⊎◌, inl, inr, refl, sym, ap, ◌∙◌, arith, List, [], ◌∷◌, Bytes,
  true, false, Bool-cases, lt→ltb, bytes_eq, bytes_eq-eq, Option, none, some, length, ok, subst,
}
use barebone_kernel.Fdt.Strings.Names.{validate_property_name-ok}
use barebone_kernel.Fdt.Structure.{
  Token, property, nop, read_token, compare_property, search_property, property_token,
  property_loop, find_property,
}
use barebone_kernel.Fdt.Structure.Items.{
  IsBlock, at, sets, nothing, Item, token-at, sets-reads, search-at, not_before,
}
use barebone_kernel.Fdt.Structure.Machine.{
  Frame, find_entry, Fresh-none, Reached, root, enter, leave, define, skip, Item-forward,
  Reached-inside, Reached-AllHaveChild,
}

module _ {bytes strings : Bytes} {content : ℕ} where
  -- The items since the start of the open node, where it has no child.
  abbrev items_in :
      {top : Frame} {under : List Frame} {p : ℕ} → Reached bytes strings content top under p → ℕ
  items_in root = 0
  items_in (enter name r i n f) = 0
  items_in (leave r i) = 0
  items_in (define name r i c f) = suc (items_in r)
  items_in (skip r i) = suc (items_in r)

  items_in-le :
      {top : Frame} {under : List Frame} {p : ℕ} (r : Reached bytes strings content top under p)
      → top.children ≡ []
      → top.start + items_in r ≤ p
  items_in-le root c = omega arith
  items_in-le (enter name r i n f) c = omega arith
  items_in-le (leave r i) c = absurd ((Reached-AllHaveChild r).0 c)
  items_in-le (define {p = p} {q = q} name r i c f) d =
      omega (arith, items_in-le r c, Item-forward bytes strings p q (sets name) i)
  items_in-le (skip {p = p} {q = q} r i) c =
      omega (arith, items_in-le r c, Item-forward bytes strings p q nothing i)

module _ (bytes strings : Bytes) (b : IsBlock bytes) (s : IsBlock strings) (stop : ℕ)
    (name : Bytes) where
  round_on :
      (fuel p : ℕ) (t : Token)
      → p < stop
      → read_token (at bytes p) ≡ (ok (p, t), at bytes (p + 4))
      → property_loop (suc fuel) strings stop name (at bytes p)
        ≡ property_token strings name p t (property_loop fuel strings stop name) (at bytes (p + 4))
  unfolding property_loop
  round_on fuel p t before e = rw (property_loop, lt→ltb p stop before, e) refl

  nothing_on :
      (fuel p q : ℕ)
      → p < stop
      → Item bytes strings p nothing q
      → property_loop (suc fuel) strings stop name (at bytes p)
        ≡ property_loop fuel strings stop name (at bytes q)
  unfolding property_token
  nothing_on fuel p q before (rest, e, k) =
      round_on fuel p nop before (token-at bytes b p nop rest e).0 ∙ rw k refl

  sets_on :
      (fuel p q : ℕ) (found : Bytes)
      → p < stop
      → Item bytes strings p (sets found) q
      → ((bytes_eq found name ≡ true)
          × ((property_loop (suc fuel) strings stop name (at bytes p)).0 ≡ ok (some p)))
        ⊎ ((bytes_eq found name ≡ false)
            × (property_loop (suc fuel) strings stop name (at bytes p)
                ≡ property_loop fuel strings stop name (at bytes q)))
  unfolding property_token search_property compare_property
  sets_on fuel p q found before i =
      let (v, pad, name_offset, r1, r2, r3, r4, r5, is, stands) =
        sets-reads bytes b strings found p q i in
      let named =
        validate_property_name-ok strings name_offset found s.are_bytes s.small is stands in
      let step = round_on fuel p property before r1 in
      elim (Bool-cases (bytes_eq found name)) [
        | inl hit ↦ inl (hit, ap (λ x. x.0) step ∙ rw (r2, r3, named, hit) refl)
        | inr miss ↦ inr (miss, step ∙ rw (r2, r3, named, miss, r4, r5) refl)
      ]

none-some : (o : Option ℕ) (offset : ℕ) → o ≡ none → o ≡ some offset → ⊥
none-some o offset a z = cc

stops :
    (strings : Bytes) (fuel p : ℕ) (name bytes : Bytes)
    → property_loop (suc fuel) strings p name (at bytes p) ≡ (ok none, at bytes p)
unfolding property_loop
stops strings fuel p name bytes = rw (property_loop, not_before p) refl

-- Where the walk from the start of the open node is at a place before `stop`.
abbrev WalkedTo :
    (bytes strings : Bytes) (stop : ℕ) (name : Bytes) → (total fuel : ℕ) → Frame → ℕ → Type 0
WalkedTo bytes strings stop name total fuel top p =
    ((find_entry name top.properties ≡ none)
      × (property_loop total strings stop name (at bytes top.start)
          ≡ property_loop fuel strings stop name (at bytes p)))
    ⊎ ((offset : ℕ) × (find_entry name top.properties ≡ some offset)
        × ((property_loop total strings stop name (at bytes top.start)).0 ≡ ok (some offset)))

module _ {bytes strings : Bytes} (b : IsBlock bytes) (s : IsBlock strings) (stop : ℕ) (name : Bytes)
    {content : ℕ} where
  walk-Reached :
      {top : Frame} {under : List Frame} {p : ℕ} (total fuel : ℕ)
      (r : Reached bytes strings content top under p)
      → top.children ≡ []
      → p ≤ stop
      → total ≡ items_in r + fuel
      → WalkedTo bytes strings stop name total fuel top p
  walk-Reached total fuel root c before t =
      inl (refl, ap (λ n. property_loop n strings stop name (at bytes content)) (omega (arith, t)))
  walk-Reached total fuel (enter {q = q} found r i n f) c before t =
      inl (refl, ap (λ n. property_loop n strings stop name (at bytes q)) (omega (arith, t)))
  walk-Reached total fuel (leave r i) c before t = absurd ((Reached-AllHaveChild r).0 c)
  walk-Reached total fuel (skip {p = p} {q = q} r i) c before t =
      let earlier : p < stop = omega (arith, before, Item-forward bytes strings p q nothing i) in
      elim (walk-Reached total (suc fuel) r c (omega (arith, earlier)) (omega (arith, t))) [
        | inl (f, e) ↦ inl (f, e ∙ nothing_on bytes strings b s stop name fuel p q earlier i)
        | inr found ↦ inr found
      ]
  walk-Reached total fuel (define {top = top} {p = p} {q = q} found r i c fresh) c' before t =
      let earlier : p < stop =
        omega (arith, before, Item-forward bytes strings p q (sets found) i) in
      by_walk earlier
        (walk-Reached total (suc fuel) r c (omega (arith, earlier)) (omega (arith, t)))
    where
      by_walk :
          p < stop
          → WalkedTo bytes strings stop name total (suc fuel) top p
          → WalkedTo bytes strings stop name total fuel
              (record top { properties = record { name = found; offset = p } ∷ top.properties })
              q
      by_walk earlier (inl (f, e)) =
          elim (sets_on bytes strings b s stop name fuel p q found earlier i) [
            | inl (hit, out) ↦ inr (p, rw hit refl, ap (λ x. x.0) e ∙ out)
            | inr (miss, on) ↦ inl (rw miss f, e ∙ on)
          ]
      by_walk earlier (inr (offset, f, e)) = elim (Bool-cases (bytes_eq found name)) [
        | inl hit ↦ absurd (
            none-some (find_entry name top.properties) offset
              (subst (λ n. find_entry n top.properties ≡ none) (bytes_eq-eq found name hit)
                (Fresh-none found top.properties fresh))
              f)
        | inr miss ↦ inr (offset, rw miss f, e)
      ]

-- At the token of a property, before all children of the open node, `find_property` neither fails nor
-- panics nor runs out of fuel, and returns the entry of the name in that node, if there is one.
pub find_property-Reached :
    {bytes strings : Bytes} {content : ℕ} {top : Frame} {under : List Frame} {p : ℕ}
    → IsBlock bytes
    → IsBlock strings
    → content ≤ length bytes
    → Reached bytes strings content top under p
    → top.children ≡ []
    → (name : Bytes)
    → find_property bytes top.start p name strings ≡ ok (find_entry name top.properties)
unfolding find_property
find_property-Reached {bytes} {strings} {content} {top} {under} {p} b s inside r c name =
    let n = length bytes - items_in r in
    let started =
      search-at bytes b top.start (property_loop (suc (length bytes)) strings p name)
        (omega (arith, items_in-le r c, Reached-inside inside r)) in
    elim (walk-Reached b s p name (suc (length bytes)) (suc n) r c (omega arith)
      (omega (arith, items_in-le r c, Reached-inside inside r))) [
        | inl (f, e) ↦ ap (λ x. x.0) (started ∙ e ∙ stops strings n p name bytes) ∙ ap ok (sym f)
        | inr (offset, f, e) ↦ ap (λ x. x.0) started ∙ e ∙ ap ok (sym f)
      ]
