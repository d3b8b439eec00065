-- ===== src/Kernel/Paging/Access.antt =====
-- What `next_table` leaves behind, on each of its ways out.
use barebone_kernel.Base.{
  ℕ, ◌+◌, ◌%◌, ◌/◌, ◌*◌, ◌^◌, ◌≤◌, ◌<◌, ◌≡◌, ◌⊎◌, inl, inr, refl, ap, arith, List, ◌∷◌, false,
  Bool-cases, ◌==◌, ==_iff, leb, Option, none, some, length, Result, ok, err, fault,
}
use barebone_kernel.Kernel.Memory.{PhysAddr, PhysFrame}
use barebone_kernel.Kernel.Paging.{
  write, zeroed, FrameAccess, FrameAllocator, Machine, PagingError, zero_frame,
  read_page_table_entry, write_page_table_entry, allocate_page_table, link_table, next_table,
  max_physical_address, pte_valid,
}
use barebone_kernel.Kernel.Paging.Links.{
  intermediate_frame-link, page_table_entry-cases, valid-link,
}
use barebone_kernel.Kernel.Paging.Tree.{table_at, IsTree, zeroed_here}
use barebone_kernel.Kernel.Paging.Tables.{
  Grows, Grows-trans, Grows-refl, fewer-Grows, zeroed-Grows, zeroed-Outside, still_empty,
  link-Grows,
}

-- What the trait `FrameAllocator` promises of the frames that it has left: a frame that it returns is
-- one of these, and from then on none of these; frames begin at a multiple of their size.
pub record IsAllocator {F : Type 0} (Free : F → PhysAddr → Type 0) (allocator : FrameAllocator F)
    : Type 0 where
  pub fewer : (s : F) (x : PhysAddr) → Free (allocator.allocate s).1 x → Free s x
  pub was_free :
      (s : F) (frame : PhysFrame)
      → (allocator.allocate s).0 ≡ some frame
      → Free s frame.start
        × (frame.start % 4096 ≡ 0)
        × ¬ (Free (allocator.allocate s).1 frame.start)

answer :
    {A : Type 0} (x : (Unit {0} ⊎ PagingError) × A)
    → (x ≡ (inl tt, x.1)) ⊎ ((e : PagingError) × (x ≡ (inr e, x.1)))
answer (inl _, a) = inl refl
answer (inr e, a) = inr (e, refl)

in_table : (index : ℕ) → index < 512 → leb 512 index ≡ false
in_table index h = ground arith

module _ {A F : Type 0} (source : FrameAccess A) where
  -- The state behind the answer of the access.
  abbrev pub asked : PhysFrame → Machine A F → Machine A F
  asked frame s = record s { access = (source.with_frame s.access frame).1 }

  pub zero_frame-cases :
      (frame : PhysFrame) (s : Machine A F)
      → (zero_frame source frame s
          ≡ (ok tt, record (asked frame s) { memory = zeroed s.memory frame.start }))
        ⊎ ((e : PagingError) × (zero_frame source frame s ≡ (err e, asked frame s)))
  unfolding zero_frame
  zero_frame-cases frame s = elim (answer (source.with_frame s.access frame)) [
    | inl e ↦ inl (rw (zero_frame, e) refl)
    | inr (x, e) ↦ inr (x, rw (zero_frame, e) refl)
  ]

  pub read_page_table_entry-cases :
      (frame : PhysFrame) (index : ℕ) (s : Machine A F)
      → index < 512
      → (read_page_table_entry source frame index s
          ≡ (ok (s.memory frame.start index), asked frame s))
        ⊎ ((e : PagingError) × (read_page_table_entry source frame index s
              ≡ (err e, asked frame s)))
  unfolding read_page_table_entry
  read_page_table_entry-cases frame index s h = elim (answer (source.with_frame s.access frame)) [
    | inl e ↦ inl (rw (read_page_table_entry, e, in_table index h) refl)
    | inr (x, e) ↦ inr (x, rw (read_page_table_entry, e) refl)
  ]

  pub write_page_table_entry-cases :
      (frame : PhysFrame) (index entry : ℕ) (s : Machine A F)
      → index < 512
      → (write_page_table_entry source frame index entry s
          ≡ (ok tt, record (asked frame s) { memory = write s.memory frame.start index entry }))
        ⊎ ((e : PagingError) × (write_page_table_entry source frame index entry s
              ≡ (err e, asked frame s)))
  unfolding write_page_table_entry
  write_page_table_entry-cases frame index entry s h =
      elim (answer (source.with_frame s.access frame)) [
        | inl e ↦ inl (rw (write_page_table_entry, e, in_table index h) refl)
        | inr (x, e) ↦ inr (x, rw (write_page_table_entry, e) refl)
      ]

pub frame_cases :
    {F : Type 0} (x : Option PhysFrame × F)
    → (x ≡ (none, x.1)) ⊎ ((frame : PhysFrame) × (x ≡ (some frame, x.1)))
frame_cases (none, f) = inl refl
frame_cases (some frame, f) = inr (frame, refl)

module _ {A F : Type 0} (source : FrameAccess A) (allocator : FrameAllocator F)
    (Free : F → PhysAddr → Type 0) (contract : IsAllocator Free allocator) (root : PhysAddr) where
  -- The tables of a state, none of which the allocator has left.
  abbrev pub IsSpace : Machine A F → Type 0
  IsSpace s = IsTree (Free s.frames) root s.memory

  abbrev pub GrowsTo : Machine A F → Machine A F → Type 0
  GrowsTo s s' = Grows (Free s.frames) (Free s'.frames) root s.memory s'.memory

  -- The table at the entry `i` of the table at `p`.
  abbrev pub Followed :
      Machine A F → List ℕ → ℕ → Result PhysFrame PagingError × Machine A F → Type 0
  Followed s p i (ok c, s') = GrowsTo s s' × (table_at root s'.memory (i ∷ p) ≡ some c.start)
  Followed s p i (err e, s') = GrowsTo s s'
  Followed s p i (fault x, s') = ⊥

  module _ (s : Machine A F) (t : IsSpace s) (p : List ℕ) (i : ℕ) (parent : PhysFrame)
      (small : i < 512) (short : length p < 2)
      (stands : table_at root s.memory p ≡ some parent.start) where
    -- The state behind an allocation, and behind clearing what it returned.
    abbrev left : Machine A F
    left = record s { frames = (allocator.allocate s.frames).1 }

    abbrev cleared : PhysFrame → Machine A F
    cleared c = record (asked source c left) { memory = zeroed s.memory c.start }

    new_table-Followed :
        (c : PhysFrame)
        → s.memory parent.start i ≡ 0
        → (allocator.allocate s.frames).0 ≡ some c
        → c.start ≤ max_physical_address
        → Followed s p i (
          ok c,
          record (asked source parent (cleared c)) {
            memory =
                write
                  (zeroed s.memory c.start)
                  parent.start
                  i
                  (c.start / 2 ^ 12 * 2 ^ 10 + pte_valid);
          },
        )
    new_table-Followed c empty returned fits =
        let (free, aligned, taken) = contract.was_free s.frames c returned in
        let first = zeroed-Grows t (λ x h. h) c.start free in
        let blank = zeroed-Grows t (contract.fewer s.frames) c.start free in
        let (second, linked) =
          link-Grows blank.tree p parent.start i (c.start / 2 ^ 12 * 2 ^ 10 + pte_valid) c.start
            (first.tables p parent.start stands) (still_empty s.memory c.start parent.start i empty)
            (zeroed-Outside t (contract.fewer s.frames) c.start free) (zeroed_here s.memory c.start)
            (valid-link c.start aligned fits) (contract.fewer s.frames) free short taken in
        (Grows-trans first second, linked)

    link_table-Followed :
        s.memory parent.start i ≡ 0 → Followed s p i (link_table source allocator parent i s)
    unfolding link_table allocate_page_table
    link_table-Followed empty = elim (frame_cases (allocator.allocate s.frames)) [
      | inl e ↦ rw e (fewer-Grows t (contract.fewer s.frames))
      | inr (c, e) ↦
          let returned = ap (λ x. x.0) e in
          let blank =
            zeroed-Grows t (contract.fewer s.frames) c.start
              (contract.was_free s.frames c returned).0 in
          elim (zero_frame-cases source c left) [
            | inr (x, f) ↦ rw (e, f) (fewer-Grows t (contract.fewer s.frames))
            | inl f ↦ elim (page_table_entry-cases c.start pte_valid) [
              | inr g ↦ rw (e, f, g) blank
              | inl (fits, g) ↦
                  elim (write_page_table_entry-cases source parent i
                    (c.start / 2 ^ 12 * 2 ^ 10 + pte_valid) (cleared c) small) [
                      | inr (x, h) ↦ rw (e, f, g, h) blank
                      | inl h ↦ rw (e, f, g, h) (new_table-Followed c empty returned fits)
                    ]
            ]
          ]
    ]

  -- `next_table` leaves a space in which each page's entry is what it was, on errors too; its success is
  -- the table at the entry. A frame in use that is no table stays so and keeps its words.
  pub next_table-Followed :
      (s : Machine A F)
      → IsSpace s
      → (p : List ℕ) (i : ℕ) (parent : PhysFrame) → i < 512
      → length p < 2
      → table_at root s.memory p ≡ some parent.start
      → Followed s p i (next_table source allocator parent i s)
  unfolding next_table
  next_table-Followed s t p i parent small short stands =
      elim (read_page_table_entry-cases source parent i s small) [
        | inr (x, e) ↦ rw e (Grows-refl t)
        | inl e ↦ elim (Bool-cases (s.memory parent.start i == 0)) [
          | inl empty ↦
              rw (e, empty)
                (link_table-Followed (asked source parent s) t p i parent small short stands
                  ((==_iff _ 0).0 empty))
          | inr full ↦ elim (intermediate_frame-link i (s.memory parent.start i)) [
            | inl (f, is, links) ↦ rw (e, full, is) (Grows-refl t, rw stands links)
            | inr (is, no_link) ↦ rw (e, full, is) (Grows-refl t)
          ]
        ]
      ]
