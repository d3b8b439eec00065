-- ===== src/Kernel/Paging/Fresh.antt =====
-- A new address space is empty.
use barebone_kernel.Base.{
  ℕ, ◌%◌, ◌≡◌, inl, inr, refl, ap, subst, List, [], ◌∷◌, none, some, Result, ok, err, fault,
}
use barebone_kernel.Kernel.Memory.{PhysAddr, PhysFrame}
use barebone_kernel.Kernel.Paging.{
  Memory, zeroed, FrameAccess, FrameAllocator, Machine, PagingError, allocate_page_table, new,
}
use barebone_kernel.Kernel.Paging.Tree.{table_at, entry_at, IsTree, zeroed_away, zeroed_here}
use barebone_kernel.Kernel.Paging.Access.{IsAllocator, IsSpace, zero_frame-cases, frame_cases}

module _ (root : PhysAddr) (m : Memory) (blank : (j : ℕ) → m root j ≡ 0) where
  no_child : (i : ℕ) (q : List ℕ) → table_at root m (i ∷ q) ≡ none
  no_child i [] = rw (blank i) refl
  no_child i (j ∷ q) = rw (no_child j q) refl

  pub blank-IsTree : {Free : PhysAddr → Type 0} → ¬ (Free root) → IsTree Free root m
  blank-IsTree {Free} taken = record { distinct = apart; reserved = held }
    where
      clash : (i : ℕ) (q : List ℕ) (f : PhysAddr) → ¬ (table_at root m (i ∷ q) ≡ some f)
      clash i q f e = cc (no_child i q)

      apart :
          (p q : List ℕ) (f : PhysAddr)
          → table_at root m p ≡ some f
          → table_at root m q ≡ some f
          → p ≡ q
      apart [] [] f a z = refl
      apart [] (i ∷ q) f a z = absurd (clash i q f z)
      apart (i ∷ p) q f a z = absurd (clash i p f a)

      held : (p : List ℕ) (f : PhysAddr) → table_at root m p ≡ some f → ¬ Free f
      held [] f e = λ free. taken (subst Free (cc e) free)
      held (i ∷ p) f e = absurd (clash i p f e)

  pub blank-entry_at : (q : List ℕ) → entry_at root m q ≡ 0
  blank-entry_at [] = refl
  blank-entry_at (i ∷ []) = blank i
  blank-entry_at (i ∷ j ∷ q) = rw (no_child j q) refl

module _ {A F : Type 0} (source : FrameAccess A) (allocator : FrameAllocator F)
    (Free : F → PhysAddr → Type 0) (contract : IsAllocator Free allocator) where
  -- What `Sv39PageTable::new` leaves behind.
  abbrev pub IsNew : Machine A F → Result PhysFrame PagingError × Machine A F → Type 0
  IsNew s (ok root, s') =
      Free s.frames root.start
      × (root.start % 4096 ≡ 0)
      × IsSpace source allocator Free contract root.start s'
      × ((q : List ℕ) → entry_at root.start s'.memory q ≡ 0)
      × ((f : PhysAddr) (j : ℕ) → ¬ (f ≡ root.start) → s'.memory f j ≡ s.memory f j)
  IsNew s (err e, s') =
      (s'.memory ≡ s.memory) × ((x : PhysAddr) → Free s'.frames x → Free s.frames x)
  IsNew s (fault x, s') = ⊥

  -- `Sv39PageTable::new` does not panic. Its root is a frame that was free, and a space of tables
  -- without an entry; the words of other frames stay. On an error the memory stays.
  pub new-IsNew : (s : Machine A F) → IsNew s (new source allocator s)
  unfolding allocate_page_table
  new-IsNew s = elim (frame_cases (allocator.allocate s.frames)) [
    | inl e ↦ rw e (refl, contract.fewer s.frames)
    | inr (root, e) ↦
        elim (zero_frame-cases source root
          (record s { frames = (allocator.allocate s.frames).1 })) [
            | inr (x, f) ↦ rw (e, f) (refl, contract.fewer s.frames)
            | inl f ↦
                let (free, aligned, taken) = contract.was_free s.frames root (ap (λ x. x.0) e) in
                rw (e, f)
                  (
                    free,
                    aligned,
                    blank-IsTree root.start (zeroed s.memory root.start)
                        (zeroed_here s.memory root.start) taken,
                    blank-entry_at root.start (zeroed s.memory root.start)
                        (zeroed_here s.memory root.start),
                    zeroed_away s.memory root.start,
                  )
          ]
  ]
