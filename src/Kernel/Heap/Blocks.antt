-- ===== src/Kernel/Heap/Blocks.antt =====
-- `new` and `allocate` on every outcome.
use barebone_kernel.Base.{
  ◌-◌, ◌%◌, ◌≤◌, ◌<◌, ◌≡◌, inl, inr, refl, ap, arith, Bool-cases, ltb, leb, ◌==◌, ◌||◌, not, Option,
  none, some, ok, err, fault,
}
use barebone_kernel.Kernel.Memory.{VirtAddr, VirtRange, checked_sub}
use barebone_kernel.Kernel.Heap.{
  HeapBacking, invalid_range, zero_sized_allocation, exhausted, backing, KernelHeap, Layout,
  mask_down, HeapM, back_to, made, first_page, new, placed, candidate, place, allocate,
}
use barebone_kernel.Kernel.Heap.Spec.{
  IsBacking, IsHeap, IsHeapRange, Unmapped, NewHeap, Fits, AllocatedBlock,
}
use barebone_kernel.Kernel.Heap.Sound.{
  mask_down-aligned, mask_down-greatest, BackedTo, back_to-BackedTo, page_below,
}

-- What the choice of an address may return.
abbrev Candidate : KernelHeap → Layout → Option VirtAddr → Type 0
Candidate h l (some address) = Fits h l address
Candidate h l none = (address : VirtAddr) → ¬ (Fits h l address)

module _ {B E : Type 0} (source : HeapBacking B E) (Mapped : B → VirtAddr → Type 0)
    (law : IsBacking source Mapped) where
  candidate-Candidate :
      (h : KernelHeap) (l : Layout)
      → 0 < h.range.start
      → 0 < l.size
      → Candidate h l (candidate source h l (checked_sub h.cursor l.size))
  unfolding candidate checked_sub
  candidate-Candidate h l not_null sized = elim (Bool-cases (leb l.size h.cursor)) [
    | inr small ↦ rw small (λ address f. ground (arith, f.2))
    | inl room ↦
        let address = mask_down (h.cursor - l.size) l.align in
        elim (Bool-cases (ltb address h.range.start || address == 0)) [
          | inl out ↦
              rw (room, out)
                (λ x f. ground (
                  arith,
                  mask_down-greatest (h.cursor - l.size) l.align x f.0 (omega (arith, f.2)),
                ))
          | inr good ↦
              rw (room, good)
                (mask_down-aligned (h.cursor - l.size) l.align, ground arith, ground arith)
        ]
  ]

  placed-AllocatedBlock :
      (h : KernelHeap) (l : Layout) (address : VirtAddr) (r : HeapM B E (Unit {0}))
      → Fits h l address
      → BackedTo Mapped h (mask_down address 4096) r
      → AllocatedBlock Mapped h l (placed source address r)
  unfolding placed
  placed-AllocatedBlock h l address (ok u, (h', b')) fits s =
      let v = s.0 in
      let same_start : h'.range.start ≡ h.range.start = ap (λ r. r.start) s.1 in
      (
        record {
          not_null = v.not_null;
          start_aligned = v.start_aligned;
          end_aligned = v.end_aligned;
          mapped_aligned = v.mapped_aligned;
          inside = v.inside;
          covered = omega (arith, s.3);
          bounded = omega (arith, fits, s.2, v.bounded);
          mapped = v.mapped;
        },
        s.1,
        refl,
        fits,
        λ p aligned below above.
            (v.mapped p aligned (omega (arith, aligned, above, fits, same_start, v.start_aligned))
                (omega (arith, below, fits, s.2, v.bounded))).1
              (omega (arith, s.3, aligned, above)),
      )
  placed-AllocatedBlock h l address (err (backing e), (h', b')) fits s = (s.0, s.1, s.2)
  placed-AllocatedBlock h l address (err (invalid_range x), (h', b')) fits s = s
  placed-AllocatedBlock h l address (err zero_sized_allocation, (h', b')) fits s = absurd s
  placed-AllocatedBlock h l address (err exhausted, (h', b')) fits s = absurd s
  placed-AllocatedBlock h l address (fault x, (h', b')) fits s = s

  place-AllocatedBlock :
      (h : KernelHeap) (b : B) (l : Layout) (o : Option VirtAddr)
      → IsHeap Mapped h b
      → Candidate h l o
      → AllocatedBlock Mapped h l (place source h b o)
  unfolding place
  place-AllocatedBlock h b l none v c = (v, refl, c)
  place-AllocatedBlock h b l (some address) v c =
      placed-AllocatedBlock h l address (back_to source (mask_down address 4096) h b) c (
        back_to-BackedTo source Mapped law (mask_down address 4096) h b v (omega arith)
          (omega (arith, c, v.start_aligned)))

  -- Over a backing that keeps its contract, `allocate` on a valid heap neither panics nor runs out of
  -- fuel, and leaves a valid heap. A block that it gives out has the layout's alignment, lies in the
  -- reservation and below the old cursor, becomes the new cursor, and has all its pages mapped. It
  -- reports exhaustion only where no such block exists, and an error leaves the cursor as it was.
  pub allocate-AllocatedBlock :
      (l : Layout) (h : KernelHeap) (b : B)
      → IsHeap Mapped h b
      → AllocatedBlock Mapped h l (allocate source l h b)
  unfolding allocate
  allocate-AllocatedBlock l h b v = elim (Bool-cases (l.size == 0)) [
    | inl empty ↦ rw empty (v, refl, ground arith)
    | inr sized ↦ rw sized (
        place-AllocatedBlock h b l (candidate source h l (checked_sub h.cursor l.size)) v
          (candidate-Candidate h l v.not_null (ground arith)))
  ]

  made-NewHeap :
      (r : VirtRange) (o : HeapM B E (Unit {0}))
      → IsHeapRange r
      → 4096 ≤ r.end
      → BackedTo Mapped
          (record { range = r; cursor = r.end; mapped_start = r.end })
          (r.end - 4096)
          o
      → NewHeap Mapped r (made source o)
  unfolding made
  made-NewHeap r (ok u, (h, b)) is room s = (is, s.0, s.1, s.2, omega (arith, s.3, s.4, room))
  made-NewHeap r (err (backing e), (h, b)) is room s =
      let same_start : h.range.start ≡ r.start = ap (λ x. x.start) s.1 in
      let same_end : h.range.end ≡ r.end = ap (λ x. x.end) s.1 in
      let v = s.0 in
      (
        is,
        λ p aligned low high m. omega (
          arith,
          room,
          s.3,
          high,
          aligned,
          v.mapped_aligned,
          v.end_aligned,
          same_end,
          (v.mapped p aligned (omega (arith, low, same_start)) (omega (arith, high, same_end))).0 m,
        ),
      )
  made-NewHeap r (err (invalid_range x), (h, b)) is room s = absurd s
  made-NewHeap r (err zero_sized_allocation, (h, b)) is room s = s
  made-NewHeap r (err exhausted, (h, b)) is room s = s
  made-NewHeap r (fault x, (h, b)) is room s = s

  -- Over a backing that keeps its contract, and with the reservation unmapped, `new` gives a valid
  -- empty heap with its highest page mapped exactly for the ranges that it should accept, unless the
  -- backing fails, and then no page of the reservation is mapped.
  pub new-NewHeap :
      (r : VirtRange) (b : B)
      → r.start < r.end
      → (IsHeapRange r → Unmapped Mapped r b)
      → NewHeap Mapped r (new source r b)
  unfolding new first_page
  new-NewHeap r b proper unmapped =
      elim (Bool-cases (r.start == 0 || not (r.start % 4096 == 0) || not (r.end % 4096 == 0))) [
        | inl bad ↦ rw bad (refl, λ is. ground arith)
        | inr good ↦
            let is : IsHeapRange r = (ground arith, ground arith, ground arith) in
            let room : 4096 ≤ r.end = omega (arith, is, proper) in
            let heap : KernelHeap = record { range = r; cursor = r.end; mapped_start = r.end } in
            rw (good, page_below r.end room)
              (made-NewHeap r (back_to source (r.end - 4096) heap b) is room (
                back_to-BackedTo source Mapped law (r.end - 4096) heap b
                  (record {
                    not_null = is.0;
                    start_aligned = is.1;
                    end_aligned = is.2;
                    mapped_aligned = is.2;
                    inside = omega (arith, proper);
                    covered = omega arith;
                    bounded = omega arith;
                    mapped = λ p aligned low high. (
                      (λ m. absurd (unmapped is p aligned low high m)),
                      λ m. absurd (omega (arith, m, high)),
                    );
                  })
                  (omega (arith, is, room)) (omega (arith, is, proper))))
      ]
