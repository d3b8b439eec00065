-- ===== src/Kernel/Paging/Range.antt =====
-- `map_range` maps each page of a range to the frame at the same offset.
use barebone_kernel.Base.{
  ℕ, zero, suc, ◌+◌, ◌-◌, ◌%◌, ◌/◌, ◌*◌, ◌^◌, ◌≤◌, ◌<◌, ◌≡◌, ◌≢◌, ◌⊎◌, inl, inr, refl, sym, subst,
  arith, List, Bool-cases, ◌&&◌, not, ◌==◌, ==_iff, ltb, checked_add, none, some, Result, ok, err,
  fault,
}
use barebone_kernel.Kernel.Memory.{PhysAddr, VirtRange, PhysFrame, from_start}
use barebone_kernel.Kernel.Paging.{
  Memory, FrameAccess, FrameAllocator, Machine, PagingError, PagePermissions, supervisor, and_then,
  page_size, is_canonical, is_representable, sv39_low_half_end, map_page, map_pages, map_range,
}
use barebone_kernel.Kernel.Paging.Links.{IsLeaf}
use barebone_kernel.Kernel.Paging.Tree.{entry_at, page_path}
use barebone_kernel.Kernel.Paging.Access.{IsAllocator, IsSpace}
use barebone_kernel.Kernel.Paging.Pages.{Mapped, map_page-Mapped}
use native.Mathlib.Decide.{dec_le}
use barebone_kernel.Kernel.Paging.Keeps.{
  Keeps, Keeps-refl, Keeps-trans, Keeps-less, Grows-Keeps, Sets-Keeps,
}

from_start-cases :
    (x : PhysAddr)
    → (from_start x ≡ none) ⊎ (x % 4096 ≡ 0) × (from_start x ≡ some (record { start = x }))
unfolding from_start
from_start-cases x = elim (Bool-cases (x % 4096 == 0)) [
  | inr other ↦ inl (rw other refl)
  | inl aligned ↦ elim (Bool-cases (ltb (x + 4096) (2 ^ 64))) [
    | inr over ↦ inl (rw (aligned, over) refl)
    | inl fits ↦ inr ((==_iff _ 0).0 aligned, rw (aligned, fits) refl)
  ]
]

-- The pages of the range from `from` up to `to`, counted from its start.
abbrev pub PageIn : (start from to : ℕ) → List ℕ → Type 0
PageIn start from to q = (k : ℕ) × (from ≤ k) × (k < to) × (q ≡ page_path (start + k * page_size))

module _ {A F : Type 0} (source : FrameAccess A) (allocator : FrameAllocator F)
    (Free : F → PhysAddr → Type 0) (contract : IsAllocator Free allocator) (root : PhysFrame)
    (start base : ℕ) (permissions : PagePermissions) where
  abbrev AllMapped : (from to : ℕ) → Memory → Type 0
  AllMapped from to m =
      (k : ℕ)
      → from ≤ k
      → k < to
      → IsLeaf (entry_at root.start m (page_path (start + k * page_size))) (base + k * page_size)
          permissions supervisor

  -- What the loop leaves behind.
  abbrev pub Ranged :
      Machine A F → (from to : ℕ) → Result (Unit {0}) PagingError × Machine A F → Type 0
  Ranged s from to (ok _, s') =
      Keeps (Free s'.frames) root.start (PageIn start from to) s.memory s'.memory
      × AllMapped from to s'.memory
  Ranged s from to (err x, s') =
      Keeps (Free s'.frames) root.start (PageIn start from to) s.memory s'.memory
  Ranged s from to (fault x, s') = ⊥

  map_pages-Ranged :
      (size pages from : ℕ) (s : Machine A F)
      → IsSpace source allocator Free contract root.start s
      → Ranged s from
          (from + pages)
          (map_pages source allocator root start base size permissions pages from s)
  unfolding map_pages
  map_pages-Ranged size zero from s t =
      (Keeps-refl t, λ k low high. absurd (omega (arith, low, high)))
  map_pages-Ranged size (suc pages) from s t = elim (from_start-cases (base + from * page_size)) [
    | inl e ↦ rw e (Keeps-refl t)
    | inr (aligned, e) ↦ rw e (
        by_page
          (map_page source allocator root (start + from * page_size)
            (record { start = base + from * page_size }) permissions supervisor s)
          (map_page-Mapped source allocator Free contract root s t (start + from * page_size)
            (record { start = base + from * page_size }) permissions supervisor aligned)
          λ s' t'. map_pages-Ranged size pages (suc from) s' t')
  ]
    where
      here : PageIn start from (from + suc pages) (page_path (start + from * page_size))
      here = (from, omega arith, omega arith, refl)

      wider :
          (q : List ℕ)
          → PageIn start (suc from) (suc from + pages) q
          → PageIn start from (from + suc pages) q
      wider q (k, low, high, e) = (k, omega (arith, low), omega (arith, high), e)

      by_rest :
          (s s1 : Machine A F) (x : Result (Unit {0}) PagingError × Machine A F)
          → Keeps
              (Free s1.frames)
              root.start
              (PageIn start from (from + suc pages))
              s.memory
              s1.memory
          → IsLeaf
              (entry_at root.start s1.memory (page_path (start + from * page_size)))
              (base + from * page_size)
              permissions
              supervisor
          → Ranged s1 (suc from) (suc from + pages) x
          → Ranged s from (from + suc pages) x
      by_rest s s1 (ok _, s2) keeps leaf (more, mapped) = (Keeps-trans wider keeps more, all)
        where
          set : entry_at root.start s1.memory (page_path (start + from * page_size)) ≢ 0
          set empty = omega (arith, leaf.1, empty)

          all : AllMapped from (from + suc pages) s2.memory
          all k low high = elim (dec_le (suc from) k) [
            | yes later ↦ mapped k later (omega (arith, high))
            | no now ↦
                subst
                  (λ j.
                    IsLeaf (entry_at root.start s2.memory (page_path (start + j * page_size)))
                      (base + j * page_size) permissions supervisor)
                  (omega (arith, low, now))
                  (subst (λ x. IsLeaf x (base + from * page_size) permissions supervisor)
                    (sym (more.kept (page_path (start + from * page_size)) (omega arith) set)) leaf)
          ]
      by_rest s s1 (err x, s2) keeps leaf more = Keeps-trans wider keeps more
      by_rest s s1 (fault x, s2) keeps leaf more = more

      by_page :
          (x : Result (Unit {0}) PagingError × Machine A F)
          → Mapped source allocator Free contract root s
              (start + from * page_size)
              (record { start = base + from * page_size })
              permissions
              supervisor
              x
          → ((s' : Machine A F)
              → IsSpace source allocator Free contract root.start s'
              → Ranged s'
                  (suc from)
                  (suc from + pages)
                  (map_pages source allocator root start base size permissions pages (suc from) s'))
          → Ranged s from (from + suc pages) (
              and_then x
                (λ _. map_pages source allocator root start base size permissions pages (suc from)))
      by_page (ok _, s1) (page, canonical, (e, leaf, sets)) later =
          by_rest s s1
            (map_pages source allocator root start base size permissions pages (suc from) s1)
            (Sets-Keeps here sets)
            (subst (λ x. IsLeaf x (base + from * page_size) permissions supervisor)
              (sym sets.is_set) leaf)
            (later s1 sets.tree)
      by_page (err x, s1) grows later = Grows-Keeps grows
      by_page (fault x, s1) h later = h

-- A page of the range: it begins `offset` bytes behind the start.
abbrev pub PageOf : VirtRange → ℕ → Type 0
PageOf range offset = (offset % page_size ≡ 0) × (range.start + offset < range.end)

-- The path of a page of the range.
abbrev pub InRange : VirtRange → List ℕ → Type 0
InRange range q = (offset : ℕ) × PageOf range offset × (q ≡ page_path (range.start + offset))

module _ {A F : Type 0} (source : FrameAccess A) (allocator : FrameAllocator F)
    (Free : F → PhysAddr → Type 0) (contract : IsAllocator Free allocator) (root : PhysFrame) where
  -- What `map_range` leaves behind.
  abbrev pub RangeMapped :
      Machine A F
      → VirtRange
      → PhysFrame
      → PagePermissions
      → Result (Unit {0}) PagingError × Machine A F
      → Type 0
  RangeMapped s range frame permissions (ok _, s') =
      Keeps (Free s'.frames) root.start (InRange range) s.memory s'.memory
      × ((offset : ℕ)
          → PageOf range offset
          → IsLeaf (entry_at root.start s'.memory (page_path (range.start + offset)))
              (frame.start + offset) permissions supervisor)
  RangeMapped s range frame permissions (err x, s') =
      Keeps (Free s'.frames) root.start (InRange range) s.memory s'.memory
  RangeMapped s range frame permissions (fault x, s') = ⊥

  module _ (range : VirtRange) (ordered : range.start < range.end) where
    abbrev count : ℕ
    count = (range.end - range.start + (page_size - 1)) / page_size

    in_pages :
        (offset : ℕ)
        → PageOf range offset
        → (offset / page_size < 0 + count) × (offset / page_size * page_size ≡ offset)
    in_pages offset h = omega (arith, h, ordered)

    in_range : (q : List ℕ) → PageIn range.start 0 (0 + count) q → InRange range q
    in_range q (k, low, high, e) = (k * page_size, omega (arith, high, ordered), e)

    Ranged-RangeMapped :
        (s : Machine A F) (frame : PhysFrame) (permissions : PagePermissions)
        (x : Result (Unit {0}) PagingError × Machine A F)
        → Ranged source allocator Free contract root range.start frame.start permissions s 0
            (0 + count)
            x
        → RangeMapped s range frame permissions x
    Ranged-RangeMapped s frame permissions (ok _, s') (keeps, mapped) = (
      Keeps-less in_range keeps,
      λ offset h.
          let p = in_pages offset h in
          subst
            (λ o.
              IsLeaf (entry_at root.start s'.memory (page_path (range.start + o))) (frame.start + o)
                permissions supervisor)
            p.1 (mapped (offset / page_size) (omega arith) p.0),
    )
    Ranged-RangeMapped s frame permissions (err x, s') keeps = Keeps-less in_range keeps
    Ranged-RangeMapped s frame permissions (fault x, s') h = h

    -- On a space of tables, with an allocator that keeps its contract, `map_range` does not panic, and its
    -- loop ends. A success maps each page of the range, the last partial one too, to the frame at the same
    -- offset, for the supervisor. Entries that were set, and those of all other pages, stay; on an error
    -- too, when pages in front of the failing one may be mapped.
    pub map_range-RangeMapped :
        (s : Machine A F)
        → IsSpace source allocator Free contract root.start s
        → (frame : PhysFrame) (permissions : PagePermissions)
        → RangeMapped s range frame permissions
            (map_range source allocator root range frame permissions s)
    unfolding map_range
    map_range-RangeMapped s t frame permissions = elim (Bool-cases (range.start % page_size == 0)) [
      | inr a ↦ rw a (Keeps-refl t)
      | inl a ↦ elim (Bool-cases (is_canonical range.start)) [
        | inr b ↦ rw (a, b) (Keeps-refl t)
        | inl b ↦
            elim (Bool-cases
              (not (ltb range.start sv39_low_half_end && ltb sv39_low_half_end range.end))) [
                | inr c ↦ rw (a, b, c) (Keeps-refl t)
                | inl c ↦
                    elim (Bool-cases
                      (is_representable (checked_add frame.start ((count - 1) * page_size)))) [
                        | inr d ↦ rw (a, b, c, d) (Keeps-refl t)
                        | inl d ↦
                            rw (a, b, c, d)
                              (Ranged-RangeMapped s frame permissions
                                (map_pages source allocator root range.start frame.start
                                  (range.end - range.start) permissions count 0 s)
                                (map_pages-Ranged source allocator Free contract root range.start
                                  frame.start permissions (range.end - range.start) count 0 s t))
                      ]
              ]
      ]
    ]
