-- ===== src/Fdt/Structure/Siblings.antt =====
-- `find_prior_sibling_node` walks the items again, and finds the entry among the node's siblings.
use barebone_kernel.Base.{
  ℕ, suc, ◌+◌, ◌-◌, ◌≤◌, ◌<◌, ◌≡◌, ◌⊎◌, inl, inr, refl, sym, ap, ◌∙◌, arith, List, [], ◌∷◌, Bytes,
  Bool-cases, ◌==◌, lt→ltb, bytes_eq, if◌then◌else◌, Option, none, some, length, ok, subst,
}
use barebone_kernel.Fdt.Structure.{
  Token, begin_node, end_node, property, nop, read_token, entered, sibling_token, sibling_loop,
  find_prior_sibling_node,
}
use barebone_kernel.Fdt.Structure.Errors.{read}
use barebone_kernel.Fdt.Structure.Items.{
  IsBlock, at, opens, closes, sets, nothing, Item, token-at, opens-reads, sets-reads, search-at,
  not_before,
}
use barebone_kernel.Fdt.Structure.Machine.{
  Frame, fresh_frame, find_entry, Reached, root, enter, leave, define, skip, depth_of, Item-forward,
  Reached-inside, items_of, items_of-le,
}

-- `m` is the entry of `name` in the open node at depth `target`, if that node is among these.
abbrev pub MatchesBelow : (target : ℕ) (name : Bytes) → Option ℕ → List Frame → Type 0
MatchesBelow target name m [] = Unit
MatchesBelow target name m (up ∷ under) =
    (depth_of under ≡ target → m ≡ find_entry name up.children) × MatchesBelow target name m under

abbrev pub Matches : (target : ℕ) (name : Bytes) → Option ℕ → Frame → List Frame → Type 0
Matches target name m top under =
    (depth_of under ≡ target → m ≡ find_entry name top.children) × MatchesBelow target name m under

module _ (bytes strings : Bytes) (b : IsBlock bytes) (stop target : ℕ) (name : Bytes) where
  -- A round reads the token, and goes on with what the token asks for.
  round_on :
      (fuel depth p : ℕ) (m : Option ℕ) (t : Token)
      → p < stop
      → read_token (at bytes p) ≡ (ok (p, t), at bytes (p + 4))
      → sibling_loop (suc fuel) stop target name depth m (at bytes p)
        ≡ sibling_token target name depth m p t
            (sibling_loop fuel stop target name)
            (at bytes (p + 4))
  unfolding sibling_loop
  round_on fuel depth p m t before e = rw (sibling_loop, lt→ltb p stop before, e) refl

  opens_on :
      (fuel depth p q : ℕ) (m : Option ℕ) (found : Bytes)
      → p < stop
      → Item bytes strings p (opens found) q
      → sibling_loop (suc fuel) stop target name depth m (at bytes p)
        ≡ sibling_loop fuel stop target name
            (suc depth)
            (entered target name depth p found m)
            (at bytes q)
  unfolding sibling_token
  opens_on fuel depth p q m found before i =
      let (pad, r1, r2, r3) = opens-reads bytes b strings found p q read i in
      round_on fuel depth p m begin_node before r1 ∙ rw (r2, r3) refl

  closes_on :
      (fuel depth p q : ℕ) (m : Option ℕ)
      → p < stop
      → Item bytes strings p closes q
      → sibling_loop (suc fuel) stop target name (suc depth) m (at bytes p)
        ≡ sibling_loop fuel stop target name depth m (at bytes q)
  unfolding sibling_token
  closes_on fuel depth p q m before (rest, e, k) =
      round_on fuel (suc depth) p m end_node before (token-at bytes b p end_node rest e).0
      ∙ rw k refl

  nothing_on :
      (fuel depth p q : ℕ) (m : Option ℕ)
      → p < stop
      → Item bytes strings p nothing q
      → sibling_loop (suc fuel) stop target name depth m (at bytes p)
        ≡ sibling_loop fuel stop target name depth m (at bytes q)
  unfolding sibling_token
  nothing_on fuel depth p q m before (rest, e, k) =
      round_on fuel depth p m nop before (token-at bytes b p nop rest e).0 ∙ rw k refl

  sets_on :
      (fuel depth p q : ℕ) (m : Option ℕ) (found : Bytes)
      → p < stop
      → Item bytes strings p (sets found) q
      → sibling_loop (suc fuel) stop target name depth m (at bytes p)
        ≡ sibling_loop fuel stop target name depth m (at bytes q)
  unfolding sibling_token
  sets_on fuel depth p q m found before i =
      let (v, pad, name_offset, r1, r2, r3, r4, r5, is, stands) =
        sets-reads bytes b strings found p q i in
      round_on fuel depth p m property before r1 ∙ rw (r2, r3, r4, r5) refl

MatchesBelow-keep :
    (target : ℕ) (name : Bytes) (m m' : Option ℕ) (under : List Frame)
    → (m' ≡ m) ⊎ (length under < target)
    → MatchesBelow target name m under
    → MatchesBelow target name m' under
MatchesBelow-keep target name m m' [] same h = tt
MatchesBelow-keep target name m m' (up ∷ under) (inl same) h =
    ((λ e. same ∙ h.0 e), MatchesBelow-keep target name m m' under (inl same) h.1)
MatchesBelow-keep target name m m' (up ∷ under) (inr deep) h = (
  (λ e. absurd (omega (arith, deep, e))),
  MatchesBelow-keep target name m m' under (inr (omega (arith, deep))) h.1,
)

-- The match behind a new node is right again.
entered-Matches :
    (target : ℕ) (name found : Bytes) (m : Option ℕ) (p q : ℕ) (top : Frame) (under : List Frame)
    → Matches target name m top under
    → Matches target name
        (entered target name (depth_of under) p found m)
        (fresh_frame q)
        (record top { children = record { name = found; offset = p } ∷ top.children } ∷ under)
entered-Matches target name found m p q top under h =
    elim (Bool-cases (suc (depth_of under) == target)) [
      | inl deeper ↦
          on_value none (rw deeper refl) (λ e. refl) (λ e. absurd (ground arith))
            (inr (ground arith))
      | inr other ↦ elim (Bool-cases (depth_of under == target)) [
        | inl here ↦
            on_value (if bytes_eq found name then some p else m) (rw (other, here) refl)
              (λ e. absurd (ground arith))
              (λ e. ap (λ x. if bytes_eq found name then some p else x) (h.0 e))
              (inr (ground arith))
        | inr away ↦
            on_value m (rw (other, away) refl) (λ e. absurd (ground arith))
              (λ e. absurd (ground arith)) (inl refl)
      ]
    ]
  where
    on_value :
        (m' : Option ℕ)
        → entered target name (depth_of under) p found m ≡ m'
        → (suc (depth_of under) ≡ target → m' ≡ none)
        → (depth_of under ≡ target
            → m' ≡ (if bytes_eq found name then some p else find_entry name top.children))
        → (m' ≡ m) ⊎ (length under < target)
        → Matches target name
            (entered target name (depth_of under) p found m)
            (fresh_frame q)
            (record top { children = record { name = found; offset = p } ∷ top.children } ∷ under)
    on_value m' e fresh parent keep =
        subst
          (λ x.
            Matches target name x (fresh_frame q) (
              record top { children = record { name = found; offset = p } ∷ top.children } ∷ under))
          (sym e) (fresh, (parent, MatchesBelow-keep target name m m' under keep h.1))

-- Where the walk from the start of the content is at a place before `stop`.
abbrev WalkedTo :
    (bytes : Bytes) (content stop target : ℕ) (name : Bytes)
    → (total fuel : ℕ) → Frame
    → List Frame
    → ℕ
    → Type 0
WalkedTo bytes content stop target name total fuel top under p =
    (m : Option ℕ) × Matches target name m top under
    × (sibling_loop total stop target name 1 none (at bytes content)
        ≡ sibling_loop fuel stop target name (depth_of under) m (at bytes p))

module _ {bytes strings : Bytes} (b : IsBlock bytes) (stop target : ℕ) (name : Bytes)
    {content : ℕ} where
  walk-Reached :
      {top : Frame} {under : List Frame} {p : ℕ} (total fuel : ℕ)
      (r : Reached bytes strings content top under p)
      → p ≤ stop
      → total ≡ items_of r + fuel
      → WalkedTo bytes content stop target name total fuel top under p
  walk-Reached total fuel root before t = (
    none,
    ((λ e. refl), tt),
    ap (λ n. sibling_loop n stop target name 1 none (at bytes content)) (omega (arith, t)),
  )
  walk-Reached total fuel (enter {top = top} {under = under} {p = p} {q = q} found r i n f) before
        t =
      let earlier : p < stop =
        omega (arith, before, Item-forward bytes strings p q (opens found) i) in
      let (m, right, e) =
        walk-Reached total (suc fuel) r (omega (arith, earlier)) (omega (arith, t)) in
      (
        entered target name (depth_of under) p found m,
        entered-Matches target name found m p q top under right,
        e ∙ opens_on bytes strings b stop target name fuel (depth_of under) p q m found earlier i,
      )
  walk-Reached total fuel (leave {top = top} {up = up} {under = under} {p = p} {q = q} r i) before
        t =
      let earlier : p < stop = omega (arith, before, Item-forward bytes strings p q closes i) in
      let (m, right, e) =
        walk-Reached total (suc fuel) r (omega (arith, earlier)) (omega (arith, t)) in
      (
        m,
        right.1,
        e ∙ closes_on bytes strings b stop target name fuel (depth_of under) p q m earlier i,
      )
  walk-Reached total fuel (define {top = top} {under = under} {p = p} {q = q} found r i c f) before
        t =
      let earlier : p < stop =
        omega (arith, before, Item-forward bytes strings p q (sets found) i) in
      let (m, right, e) =
        walk-Reached total (suc fuel) r (omega (arith, earlier)) (omega (arith, t)) in
      (
        m,
        right,
        e ∙ sets_on bytes strings b stop target name fuel (depth_of under) p q m found earlier i,
      )
  walk-Reached total fuel (skip {top = top} {under = under} {p = p} {q = q} r i) before t =
      let earlier : p < stop = omega (arith, before, Item-forward bytes strings p q nothing i) in
      let (m, right, e) =
        walk-Reached total (suc fuel) r (omega (arith, earlier)) (omega (arith, t)) in
      (
        m,
        right,
        e ∙ nothing_on bytes strings b stop target name fuel (depth_of under) p q m earlier i,
      )

stops :
    (fuel p target depth : ℕ) (name : Bytes) (m : Option ℕ) (bytes : Bytes)
    → sibling_loop (suc fuel) p target name depth m (at bytes p) ≡ (ok m, at bytes p)
unfolding sibling_loop
stops fuel p target depth name m bytes = rw (sibling_loop, not_before p) refl

-- At the token of a node, `find_prior_sibling_node` neither fails nor panics nor runs out of fuel, and
-- returns the entry of the name among the children of the open node, if there is one.
pub find_prior_sibling_node-Reached :
    {bytes strings : Bytes} {content : ℕ} {top : Frame} {under : List Frame} {p : ℕ}
    → IsBlock bytes
    → content ≤ length bytes
    → Reached bytes strings content top under p
    → (name : Bytes)
    → find_prior_sibling_node bytes content p (depth_of under) name
      ≡ ok (find_entry name top.children)
unfolding find_prior_sibling_node
find_prior_sibling_node-Reached {bytes} {strings} {content} {top} {under} {p} b inside r name =
    let n = length bytes - items_of r in
    let (m, right, e) =
      walk-Reached b p (depth_of under) name (suc (length bytes)) (suc n) r (omega arith)
        (omega (arith, items_of-le r, Reached-inside inside r)) in
    ap (λ x. x.0)
      (search-at bytes b content (sibling_loop (suc (length bytes)) p (depth_of under) name 1 none)
          inside
        ∙ e
        ∙ stops n p (depth_of under) (depth_of under) name m bytes)
    ∙ ap ok (right.0 refl)
