-- ===== src/Kernel/Paging/Pages.antt =====
-- `map_page` sets the entry of one page, or no entry at all.
use barebone_kernel.Base.{
  ℕ, ◌+◌, ◌%◌, ◌/◌, ◌*◌, ◌^◌, ◌<◌, ◌≡◌, inl, inr, refl, arith, List, [], ◌∷◌, true, Bool-cases,
  ◌==◌, ==_iff, check, none, some, length, Result, ok, err, fault,
}
use barebone_kernel.Kernel.Memory.{PhysAddr, VirtAddr, PhysFrame}
use barebone_kernel.Kernel.Paging.{
  FrameAccess, FrameAllocator, Machine, PagingM, PagingError, page_already_mapped, PagePermissions,
  PagePrivilege, and_then, read_page_table_entry, write_page_table_entry, next_table, leaf_flags,
  is_canonical, page_size, map_entry, map_page, ◌>>=◌, ◌>>◌, lift,
}
use barebone_kernel.Kernel.Paging.Links.{
  link, page_table_entry-cases, IsLeaf, leaf_flags-IsLeaf, readable-link,
}
use barebone_kernel.Kernel.Paging.Tree.{table_at, page_path}
use barebone_kernel.Kernel.Paging.Tables.{
  Grows, Grows-trans, Grows-refl, Sets, leaf-Sets, Grows-Sets,
}
use barebone_kernel.Kernel.Paging.Access.{
  IsAllocator, IsSpace, Followed, next_table-Followed, asked, read_page_table_entry-cases,
  write_page_table_entry-cases,
}

module _ {A F : Type 0} (source : FrameAccess A) (allocator : FrameAllocator F)
    (Free : F → PhysAddr → Type 0) (contract : IsAllocator Free allocator) (root : PhysFrame) where
  -- One entry is set on success, and none otherwise.
  abbrev pub SetOne :
      Machine A F → List ℕ → ℕ → Result (Unit {0}) PagingError × Machine A F → Type 0
  SetOne s path e (ok _, s') =
      Sets (Free s.frames) (Free s'.frames) root.start path e s.memory s'.memory
  SetOne s path e (err x, s') = Grows (Free s.frames) (Free s'.frames) root.start s.memory s'.memory
  SetOne s path e (fault x, s') = ⊥

  Grows-SetOne :
      (s s' : Machine A F) (path : List ℕ) (e : ℕ) (x : Result (Unit {0}) PagingError × Machine A F)
      → 2 < length path
      → Grows (Free s.frames) (Free s'.frames) root.start s.memory s'.memory
      → SetOne s' path e x
      → SetOne s path e x
  Grows-SetOne s s' path e (ok _, s2) long g h = Grows-Sets long g h
  Grows-SetOne s s' path e (err x, s2) long g h = Grows-trans g h
  Grows-SetOne s s' path e (fault x, s2) long g h = h

  abbrev set_entry : PhysFrame → (address entry : ℕ) → PagingM A F (Unit {0})
  set_entry level_0 address e = do
    existing ← read_page_table_entry source level_0 (address / 2 ^ 12 % 512)
    lift (check (existing == 0) (page_already_mapped address existing))
    write_page_table_entry source level_0 (address / 2 ^ 12 % 512) e

  module _ (address e : ℕ) (no_link : link e ≡ none) where
    set_entry-SetOne :
        (s : Machine A F) (level_0 : PhysFrame)
        → IsSpace source allocator Free contract root.start s
        → table_at root.start s.memory (address / 2 ^ 21 % 512 ∷ address / 2 ^ 30 % 512 ∷ [])
          ≡ some level_0.start
        → SetOne s (page_path address) e (set_entry level_0 address e s)
    set_entry-SetOne s level_0 t stands =
        let index = address / 2 ^ 12 % 512 in
        elim (read_page_table_entry-cases source level_0 index s (omega arith)) [
          | inr (x, f) ↦ rw f (Grows-refl t)
          | inl f ↦ elim (Bool-cases (s.memory level_0.start index == 0)) [
            | inr full ↦ rw (f, full) (Grows-refl t)
            | inl empty ↦
                elim (write_page_table_entry-cases source level_0 index e (asked source level_0 s)
                  (omega arith)) [
                    | inr (x, g) ↦ rw (f, empty, g) (Grows-refl t)
                    | inl g ↦
                        rw (f, empty, g)
                          (leaf-Sets t (address / 2 ^ 21 % 512 ∷ address / 2 ^ 30 % 512 ∷ [])
                            level_0.start index e stands ((==_iff _ 0).0 empty) no_link)
                  ]
          ]
        ]

    pub map_entry-SetOne :
        (s : Machine A F)
        → IsSpace source allocator Free contract root.start s
        → SetOne s (page_path address) e (map_entry source allocator root address e s)
    unfolding map_entry
    map_entry-SetOne s t =
        by_level_1 (next_table source allocator root (address / 2 ^ 30 % 512) s) (
          next_table-Followed source allocator Free contract root.start s t []
            (address / 2 ^ 30 % 512) root (omega arith) (omega arith) refl)
      where
        by_level_0 :
            (s1 : Machine A F) (x : Result PhysFrame PagingError × Machine A F)
            → Followed source allocator Free contract root.start s1
                (address / 2 ^ 30 % 512 ∷ [])
                (address / 2 ^ 21 % 512)
                x
            → SetOne s1 (page_path address) e (and_then x (λ level_0. set_entry level_0 address e))
        by_level_0 s1 (ok level_0, s2) (g, stands) =
            Grows-SetOne s1 s2 (page_path address) e (set_entry level_0 address e s2) (omega arith)
              g (set_entry-SetOne s2 level_0 g.tree stands)
        by_level_0 s1 (err x, s2) h = h
        by_level_0 s1 (fault x, s2) h = h

        by_level_1 :
            (x : Result PhysFrame PagingError × Machine A F)
            → Followed source allocator Free contract root.start s [] (address / 2 ^ 30 % 512) x
            → SetOne s (page_path address) e (
                and_then x (λ level_1.
                  next_table source allocator level_1 (address / 2 ^ 21 % 512) >>= λ level_0.
                  set_entry level_0 address e))
        by_level_1 (ok level_1, s1) (g, stands) =
            Grows-SetOne s s1 (page_path address) e _ (omega arith) g (
              by_level_0 s1 (next_table source allocator level_1 (address / 2 ^ 21 % 512) s1) (
                next_table-Followed source allocator Free contract root.start s1 g.tree
                  (address / 2 ^ 30 % 512 ∷ []) (address / 2 ^ 21 % 512) level_1 (omega arith)
                  (omega arith) stands))
        by_level_1 (err x, s1) h = h
        by_level_1 (fault x, s1) h = h

  -- What `map_page` leaves behind.
  abbrev pub Mapped :
      Machine A F
      → VirtAddr
      → PhysFrame
      → PagePermissions
      → PagePrivilege
      → Result (Unit {0}) PagingError × Machine A F
      → Type 0
  Mapped s address frame permissions privilege (ok _, s') =
      (address % page_size ≡ 0)
      × (is_canonical address ≡ true)
      × ((e : ℕ) × IsLeaf e frame.start permissions privilege
          × Sets (Free s.frames) (Free s'.frames) root.start (page_path address) e s.memory
              s'.memory)
  Mapped s address frame permissions privilege (err x, s') =
      Grows (Free s.frames) (Free s'.frames) root.start s.memory s'.memory
  Mapped s address frame permissions privilege (fault x, s') = ⊥

  -- On a space of tables, with an allocator that keeps its contract, `map_page` does not panic. A success
  -- means a canonical address of a page that had no entry: the page now has a leaf to the frame with
  -- the permissions and the privilege, and each other page keeps its entry. On an error every page
  -- keeps its entry. The tables are a space again, on errors too, and a frame in use that is no table
  -- stays so and keeps its words.
  pub map_page-Mapped :
      (s : Machine A F)
      → IsSpace source allocator Free contract root.start s
      → (address : VirtAddr) (frame : PhysFrame) (permissions : PagePermissions)
        (privilege : PagePrivilege)
      → frame.start % 4096 ≡ 0
      → Mapped s address frame permissions privilege
          (map_page source allocator root address frame permissions privilege s)
  unfolding map_page
  map_page-Mapped s t address frame permissions privilege aligned =
      elim (Bool-cases (address % page_size == 0)) [
        | inr other ↦ rw other (Grows-refl t)
        | inl page ↦ elim (Bool-cases (is_canonical address)) [
          | inr other ↦ rw (page, other) (Grows-refl t)
          | inl canonical ↦
              elim (page_table_entry-cases frame.start (leaf_flags permissions privilege)) [
                | inr f ↦ rw (page, canonical, f) (Grows-refl t)
                | inl (fits, f) ↦
                    let e = frame.start / 2 ^ 12 * 2 ^ 10 + leaf_flags permissions privilege in
                    let leaf = leaf_flags-IsLeaf frame.start permissions privilege aligned in
                    rw (page, canonical, f)
                      (by_entry ((==_iff _ 0).0 page) canonical e leaf
                        (map_entry source allocator root address e s)
                        (map_entry-SetOne address e (readable-link e leaf.2) s t))
              ]
        ]
      ]
    where
      by_entry :
          address % page_size ≡ 0
          → is_canonical address ≡ true
          → (e : ℕ) → IsLeaf e frame.start permissions privilege
          → (x : Result (Unit {0}) PagingError × Machine A F) → SetOne s (page_path address) e x
          → Mapped s address frame permissions privilege x
      by_entry page canonical e leaf (ok _, s') h = (page, canonical, (e, leaf, h))
      by_entry page canonical e leaf (err x, s') h = h
      by_entry page canonical e leaf (fault x, s') h = h
