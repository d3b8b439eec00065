-- ===== src/Kernel/Paging/HeapPages.antt =====
-- The heap's pages, as the heap wants them from the active address space.
use barebone_kernel.Base.{
  ℕ, ◌%◌, ◌≤◌, ◌<◌, ◌≡◌, ◌⊎◌, inl, inr, sym, subst, ap, ◌∙◌, arith, [], ◌∷◌, Bool, true, false,
  Bool-cases, ◌&&◌, ◌==◌, ==_iff, Result, ok, err, fault,
}
use barebone_kernel.Kernel.Memory.{PhysAddr, VirtAddr, PhysFrame}
use barebone_kernel.Kernel.Paging.{
  FrameAccess, FrameAllocator, Machine, PagingError, read_write, supervisor, zeroed, page_size,
}
use barebone_kernel.Kernel.Paging.Links.{IsLeaf}
use barebone_kernel.Kernel.Paging.Tree.{Outside, zeroed_here, entry_at, page_path}
use barebone_kernel.Kernel.Paging.Tables.{
  Grows, Grows-trans, Grows-refl, fewer-Grows, zeroed-Grows, zeroed-Outside, Sets, Grows-Sets,
}
use barebone_kernel.Kernel.Paging.Access.{
  IsAllocator, IsSpace, asked, frame_cases, zero_frame-cases,
}
use barebone_kernel.Kernel.Paging.Runtime.{
  KernelPaging, heap_start, heap_end, in_heap, install_page, map_heap_page,
}
use barebone_kernel.Kernel.Heap.{HeapBacking}
use barebone_kernel.Kernel.Heap.Spec.{Backs, IsBacking}
use barebone_kernel.Kernel.Paging.Backing.{MappedIn, IsKernelPage, install_page-MappedIn}

and-right : (a b : Bool) → (a && b) ≡ true → b ≡ true
and-right true b h = h
and-right false b h = absurd (ground (arith, h))

low_indices : (a b c a' b' c' : ℕ) → (a ∷ b ∷ c ∷ []) ≡ (a' ∷ b' ∷ c' ∷ []) → (a ≡ a') × (b ≡ b')
low_indices a b c a' b' c' e = (cc, cc)

-- Two pages of the heap have two paths.
different_pages :
    (p q : VirtAddr)
    → in_heap p ≡ true
    → in_heap q ≡ true
    → p % page_size ≡ 0
    → q % page_size ≡ 0
    → page_path q ≡ page_path p
    → q ≡ p
different_pages p q p_inside q_inside p_page q_page e =
    let same = low_indices _ _ _ _ _ _ e in
    let p_bounds = heap_bounds p p_inside in
    let q_bounds = heap_bounds q q_inside in omega (arith, same, p_bounds, q_bounds, p_page, q_page)
  where
    heap_bounds : (x : VirtAddr) → in_heap x ≡ true → (heap_start ≤ x) × (x < heap_end)
    heap_bounds x h = ground arith

-- An entry that stays what it was is still a leaf.
kept-IsLeaf :
    {x y : ℕ} {frame : PhysAddr}
    → y ≡ x
    → IsLeaf y frame read_write supervisor
    → IsLeaf x frame read_write supervisor
kept-IsLeaf {frame = frame} e leaf = subst (λ z. IsLeaf z frame read_write supervisor) e leaf

module _ {A F : Type 0} (source : FrameAccess A) (allocator : FrameAllocator F)
    (Free : F → PhysAddr → Type 0) (contract : IsAllocator Free allocator)
    (paging : KernelPaging) where
  -- The frame was free and is in use; it is no table, and all its words are zero.
  abbrev pub IsBlank : Machine A F → PhysAddr → Machine A F → Type 0
  IsBlank s frame s' =
      Free s.frames frame
      × ¬ (Free s'.frames frame)
      × Outside paging.root.start s'.memory frame
      × ((j : ℕ) → s'.memory frame j ≡ 0)

  -- What a request for a page of the heap leaves behind: the page, and no other, is mapped to a blank
  -- frame, to read and to write and for the supervisor.
  abbrev pub Backed : Machine A F → VirtAddr → Result (Unit {0}) PagingError × Machine A F → Type 0
  Backed s p (ok _, s') =
      (in_heap p ≡ true)
      × (p % page_size ≡ 0)
      × ((frame : PhysAddr) × (e : ℕ) × IsBlank s frame s'
          × IsLeaf e frame read_write supervisor
          × Sets (Free s.frames) (Free s'.frames) paging.root.start (page_path p) e s.memory
              s'.memory)
  Backed s p (err x, s') =
      Grows (Free s.frames) (Free s'.frames) paging.root.start s.memory s'.memory
  Backed s p (fault x, s') = ⊥

  pub map_heap_page-Backed :
      (s : Machine A F)
      → IsSpace source allocator Free contract paging.root.start s
      → (p : VirtAddr) → Backed s p (map_heap_page source allocator paging p s)
  unfolding map_heap_page
  map_heap_page-Backed s t p = elim (Bool-cases (paging.heap_claimed && in_heap p)) [
    | inr out ↦ rw out (Grows-refl t)
    | inl claimed ↦ elim (Bool-cases (p % page_size == 0)) [
      | inr other ↦ rw (claimed, other) (Grows-refl t)
      | inl page ↦ elim (frame_cases (allocator.allocate s.frames)) [
        | inl e ↦ rw (claimed, page, e) (fewer-Grows t (contract.fewer s.frames))
        | inr (frame, e) ↦
            let (free, aligned, taken) = contract.was_free s.frames frame (ap (λ x. x.0) e) in
            let blank = zeroed-Grows t (contract.fewer s.frames) frame.start free in
            elim (zero_frame-cases source frame
              (record s { frames = (allocator.allocate s.frames).1 })) [
                | inr (x, f) ↦ rw (claimed, page, e, f) (fewer-Grows t (contract.fewer s.frames))
                | inl f ↦
                    let s1 : Machine A F =
                      record (asked source frame
                        (record s { frames = (allocator.allocate s.frames).1 })) {
                          memory = zeroed s.memory frame.start;
                        } in
                    rw (claimed, page, e, f)
                      (by_page (in_claimed claimed) ((==_iff _ 0).0 page) frame free s1 taken
                        (zeroed-Outside t (contract.fewer s.frames) frame.start free)
                        (zeroed_here s.memory frame.start) blank
                        (install_page source allocator paging p frame read_write s1)
                        (install_page-MappedIn source allocator Free contract paging s1 blank.tree p
                          frame read_write aligned))
              ]
      ]
    ]
  ]
    where
      in_claimed : (paging.heap_claimed && in_heap p) ≡ true → in_heap p ≡ true
      in_claimed h = and-right paging.heap_claimed (in_heap p) h

      by_page :
          in_heap p ≡ true
          → p % page_size ≡ 0
          → (frame : PhysFrame) → Free s.frames frame.start
          → (s1 : Machine A F) → ¬ (Free s1.frames frame.start)
          → Outside paging.root.start s1.memory frame.start
          → ((j : ℕ) → s1.memory frame.start j ≡ 0)
          → Grows (Free s.frames) (Free s1.frames) paging.root.start s.memory s1.memory
          → (x : Result (Unit {0}) PagingError × Machine A F)
          → MappedIn source allocator Free contract paging
              (IsKernelPage source allocator Free contract paging)
              s1
              p
              frame
              read_write
              supervisor
              x
          → Backed s p x
      by_page inside page frame free s1 taken out blank grown (ok _, s2)
            (allowed, (canonical, aligned, (e, leaf, sets))) =
          let (used, outside, same) = sets.words frame.start taken out in
          (
            inside,
            page,
            (
              frame.start,
              e,
              (free, used, outside, λ j. same j ∙ blank j),
              leaf,
              Grows-Sets (omega arith) grown sets,
            ),
          )
      by_page inside page frame free s1 taken out blank grown (err x, s2) h = Grows-trans grown h
      by_page inside page frame free s1 taken out blank grown (fault x, s2) h = h

  -- A state whose tables are a space.
  pub record KernelSpace : Type 0 where
    pub state : Machine A F
    pub space : IsSpace source allocator Free contract paging.root.start state

  abbrev keep :
      (s : Machine A F) (p : VirtAddr) (x : Result (Unit {0}) PagingError × Machine A F)
      → Backed s p x
      → (Unit {0} ⊎ PagingError) × KernelSpace
  keep s p (ok _, s') h = (inl tt, record { state = s'; space = h.2.4.tree })
  keep s p (err e, s') h = (inr e, record { state = s'; space = h.tree })
  keep s p (fault x, s') h = absurd h

  -- `KernelHeapBacking` as a backing of the heap: its runs never fault.
  abbrev pub heap_backing : HeapBacking KernelSpace PagingError
  heap_backing = record {
    map_page = λ k p.
        keep k.state p (map_heap_page source allocator paging p k.state)
          (map_heap_page-Backed k.state k.space p);
  }

  -- A page of the heap with a leaf to read and to write, not to execute, for the supervisor.
  abbrev pub IsMapped : KernelSpace → VirtAddr → Type 0
  IsMapped k p =
      (in_heap p ≡ true)
      × (p % page_size ≡ 0)
      × ((frame : PhysAddr) × IsLeaf (entry_at paging.root.start k.state.memory (page_path p)) frame
            read_write supervisor)

  backing-IsBacking : IsBacking heap_backing IsMapped
  backing-IsBacking = record {
    map_page-Backs = λ k p aligned fresh.
        by_result k p (map_heap_page source allocator paging p k.state)
          (map_heap_page-Backed k.state k.space p);
  }
    where
      by_result :
          (k : KernelSpace) (p : VirtAddr) (x : Result (Unit {0}) PagingError × Machine A F)
          (h : Backed k.state p x)
          → Backs IsMapped k p (keep k.state p x h)
      by_result k p (ok _, s') (inside, page, (frame, e, blank, leaf, sets)) = (
        (inside, page, (frame, kept-IsLeaf (sym sets.is_set) leaf)),
        λ q differ. (
          (λ m. (m.0, m.1, (m.2.0, kept-IsLeaf (same q differ m.0 m.1) m.2.1))),
          λ m. (m.0, m.1, (m.2.0, kept-IsLeaf (sym (same q differ m.0 m.1)) m.2.1)),
        ),
      )
        where
          same :
              (q : VirtAddr)
              → ¬ (q ≡ p)
              → in_heap q ≡ true
              → q % page_size ≡ 0
              → entry_at paging.root.start s'.memory (page_path q)
                ≡ entry_at paging.root.start k.state.memory (page_path q)
          same q differ q_inside q_page =
              sets.others (page_path q) (omega arith)
                λ e. differ (different_pages p q inside q_inside page q_page e)
      by_result k p (err x, s') grown = λ q. (
        (λ m. (m.0, m.1, (m.2.0, kept-IsLeaf (grown.entries (page_path q) (omega arith)) m.2.1))),
        λ m. (
          m.0,
          m.1,
          (m.2.0, kept-IsLeaf (sym (grown.entries (page_path q) (omega arith))) m.2.1),
        ),
      )
      by_result k p (fault x, s') h = absurd h

  -- On each space of tables the backing of the active address space keeps the contract of the heap's
  -- backing. A request that succeeds maps the page of the heap to a frame that was free: to read and to
  -- write, not to execute, for the supervisor; the frame is free no more, is no table, and its words
  -- are all zero; no other page changes. A request that fails changes no page. Neither panics.
  pub heap_backing-IsBacking :
      IsBacking heap_backing IsMapped
      × ((k : KernelSpace) (p : VirtAddr)
          → Backed k.state p (map_heap_page source allocator paging p k.state))
  heap_backing-IsBacking = (backing-IsBacking, λ k p. map_heap_page-Backed k.state k.space p)
