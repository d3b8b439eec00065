-- ===== src/Kernel/Heap/Sound.antt =====
-- `new`, `back_to` and `allocate` keep the heap's promises over any backing that keeps its contract.
use barebone_kernel.Base.{
  ℕ, zero, suc, ◌+◌, ◌-◌, ◌*◌, ◌/◌, ◌%◌, ◌≤◌, ◌<◌, ◌≡◌, ◌⊎◌, ◌↔◌, inl, inr, refl, sym, ap, ◌∙◌,
  subst, arith, false, Bool-cases, ltb, ◌==◌, some, ok, err, fault,
}
use barebone_kernel.Kernel.Memory.{VirtAddr, checked_sub}
use barebone_kernel.Kernel.Heap.{
  HeapBacking, invalid_range, zero_sized_allocation, exhausted, backing, KernelHeap, mask_down,
  HeapM, backed, back_page, back_loop, back_to,
}
use barebone_kernel.Kernel.Heap.Spec.{Backs, IsBacking, IsHeap}
use native.Mathlib.Nat as N

pub mask_down-aligned : (a n : ℕ) → mask_down a n % n ≡ 0
mask_down-aligned a n =
    let e : a - a % n ≡ n * (a / n) = omega (arith, N.div-add-mod a n) in
    rw e (N.mul-mod_right n (a / n))

pub mask_down-greatest : (a n x : ℕ) → x % n ≡ 0 → x ≤ a → x ≤ mask_down a n
mask_down-greatest a n x aligned below =
    let split : x + (a - x) ≡ a = omega (arith, below) in
    let same : a % n ≡ (a - x) % n =
      ap (λ i. i % n) (sym split)
      ∙ N.add-mod x (a - x) n
      ∙ ap (λ i. (i + (a - x) % n) % n) aligned
      ∙ ap (λ i. i % n) (omega arith)
      ∙ N.mod-mod (a - x) n in
    omega (arith, same, N.mod-le (a - x) n, below)

-- What `back_to` may return.
abbrev pub BackedTo :
    {B E : Type 0} → (B → VirtAddr → Type 0) → KernelHeap → VirtAddr → HeapM B E (Unit {0}) → Type 0
BackedTo Mapped h start (ok _, (h', b')) =
    IsHeap Mapped h' b'
    × (h'.range ≡ h.range)
    × (h'.cursor ≡ h.cursor)
    × (h'.mapped_start ≤ start)
    × ((h'.mapped_start ≡ h.mapped_start) ⊎ (h'.mapped_start ≡ start))
BackedTo Mapped h start (err (backing e), (h', b')) =
    IsHeap Mapped h' b' × (h'.range ≡ h.range) × (h'.cursor ≡ h.cursor) × (start < h'.mapped_start)
BackedTo Mapped h start (err (invalid_range r), (h', b')) = ⊥
BackedTo Mapped h start (err zero_sized_allocation, (h', b')) = ⊥
BackedTo Mapped h start (err exhausted, (h', b')) = ⊥
BackedTo Mapped h start (fault x, (h', b')) = ⊥

pub page_below : (a : ℕ) → 4096 ≤ a → checked_sub a 4096 ≡ some (a - 4096)
unfolding checked_sub
page_below a h = ground arith

module _ {B E : Type 0} (source : HeapBacking B E) (Mapped : B → VirtAddr → Type 0)
    (law : IsBacking source Mapped) where
  -- One page below the mapped ones becomes mapped.
  grown :
      (h : KernelHeap) (b b' : B) (page : VirtAddr)
      → IsHeap Mapped h b
      → page + 4096 ≡ h.mapped_start
      → h.range.start ≤ page
      → Backs {E = E} Mapped b page (inl tt, b')
      → IsHeap Mapped (record h { mapped_start = page }) b'
  grown h b b' page v next inside s = record {
    not_null = v.not_null;
    start_aligned = v.start_aligned;
    end_aligned = v.end_aligned;
    mapped_aligned = omega (arith, next, v.mapped_aligned);
    inside = inside;
    covered = omega (arith, next, v.covered);
    bounded = v.bounded;
    mapped = λ p aligned low high. elim (Bool-cases (p == page)) [
      | inl same ↦ (λ m. ground arith, λ m. subst (Mapped b') (ground arith) s.0)
      | inr other ↦ (
        λ m. omega (arith, next, (v.mapped p aligned low high).0 ((s.1 p (differ p other)).0 m)),
        λ m. (s.1 p (differ p other)).1 (
            (v.mapped p aligned low high).1
              (omega (arith, m, next, aligned, v.mapped_aligned, differ p other))),
      )
    ];
  }
    where
      differ : (p : VirtAddr) → p == page ≡ false → ¬ (p ≡ page)
      differ p other same = ground arith

  refused :
      (h : KernelHeap) (b b' : B)
      → IsHeap Mapped h b
      → ((q : VirtAddr) → Mapped b' q ↔ Mapped b q)
      → IsHeap Mapped h b'
  refused h b b' v same = record {
    not_null = v.not_null;
    start_aligned = v.start_aligned;
    end_aligned = v.end_aligned;
    mapped_aligned = v.mapped_aligned;
    inside = v.inside;
    covered = v.covered;
    bounded = v.bounded;
    mapped = λ p aligned low high. (
      λ m. (v.mapped p aligned low high).0 ((same p).0 m),
      λ m. (same p).1 ((v.mapped p aligned low high).1 m),
    );
  }

  BackedTo-lower :
      (h : KernelHeap) (page start : VirtAddr) (r : HeapM B E (Unit {0}))
      → start ≤ page
      → BackedTo Mapped (record h { mapped_start = page }) start r
      → BackedTo Mapped h start r
  BackedTo-lower h page start (ok _, (h', b')) below s =
      (s.0, s.1, s.2, s.3, inr (omega (arith, s.3, s.4, below)))
  BackedTo-lower h page start (err (backing e), (h', b')) below s = s
  BackedTo-lower h page start (err (invalid_range x), (h', b')) below s = s
  BackedTo-lower h page start (err zero_sized_allocation, (h', b')) below s = s
  BackedTo-lower h page start (err exhausted, (h', b')) below s = s
  BackedTo-lower h page start (fault x, (h', b')) below s = s

  back_loop-BackedTo :
      (fuel : ℕ) (start : VirtAddr) (h : KernelHeap) (b : B)
      → IsHeap Mapped h b
      → start % 4096 ≡ 0
      → h.range.start ≤ start
      → h.mapped_start < fuel
      → BackedTo Mapped h start (back_loop source fuel start h b)
  unfolding back_loop back_page backed
  back_loop-BackedTo zero start h b v aligned low enough = omega (arith, enough)
  back_loop-BackedTo (suc fuel) start h b v aligned low enough =
      elim (Bool-cases (ltb start h.mapped_start)) [
        | inr done ↦ rw (done, back_loop) (v, refl, refl, ground arith, inl refl)
        | inl more ↦
            let room : start + 4096 ≤ h.mapped_start = ground (arith, v.mapped_aligned) in
            let page = h.mapped_start - 4096 in
            rw (more, back_loop, page_below h.mapped_start (omega (arith, room)))
              (by_page page (omega (arith, room)) (omega (arith, room)) (source.map_page b page)
                (law.map_page-Backs b page (omega (arith, v.mapped_aligned, room)) λ m. omega (
                  arith,
                  room,
                  (v.mapped page (omega (arith, v.mapped_aligned, room)) (omega (arith, low, room))
                        (omega (arith, room, v.covered, v.bounded))).0
                      m,
                ))
                λ h' b' w e c. back_loop-BackedTo fuel start h' b' w aligned e c)
      ]
    where
      by_page :
          (page : VirtAddr)
          → page + 4096 ≡ h.mapped_start
          → start ≤ page
          → (r : (Unit {0} ⊎ E) × B) → Backs Mapped b page r
          → ((h' : KernelHeap) (b' : B)
              → IsHeap Mapped h' b'
              → h'.range.start ≤ start
              → h'.mapped_start < fuel
              → BackedTo Mapped h' start (back_loop source fuel start h' b'))
          → BackedTo Mapped h start (backed h page r (λ h' b'. back_loop source fuel start h' b'))
      by_page page next below (inr e, b') s go_on =
          (refused h b b' v s, refl, refl, omega (arith, next, below))
      by_page page next below (inl u, b') s go_on = BackedTo-lower h page start _ below (
          go_on (record h { mapped_start = page }) b'
            (grown h b b' page v next (omega (arith, low, below)) s) low
            (omega (arith, next, enough)))

  pub back_to-BackedTo :
      (start : VirtAddr) (h : KernelHeap) (b : B)
      → IsHeap Mapped h b
      → start % 4096 ≡ 0
      → h.range.start ≤ start
      → BackedTo Mapped h start (back_to source start h b)
  unfolding back_to
  back_to-BackedTo start h b v aligned low =
      back_loop-BackedTo (suc h.mapped_start) start h b v aligned low (omega arith)
