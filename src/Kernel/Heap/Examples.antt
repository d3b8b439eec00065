-- ===== src/Kernel/Heap/Examples.antt =====
-- A backing that keeps a list of pages and refuses those below a limit, and the theorems there.
use barebone_kernel.Base.{
  ℕ, ◌≡◌, ◌⊎◌, inl, inr, refl, arith, List, [], ◌∷◌, Bool, true, false, ltb, ok,
}
use barebone_kernel.Kernel.Memory.{VirtAddr, VirtRange, checked_sub}
use barebone_kernel.Kernel.Heap.{
  HeapBacking, KernelHeap, new, allocate, back_to, back_loop, first_page, made, place, placed,
  candidate,
}
use barebone_kernel.Kernel.Heap.Spec.{IsBacking, Backs, IsHeap, NewHeap, AllocatedBlock}
use barebone_kernel.Kernel.Heap.Blocks.{allocate-AllocatedBlock, new-NewHeap}

abbrev Listed : List ℕ → VirtAddr → Type 0
Listed [] p = ⊥
Listed (q ∷ qs) p = (p ≡ q) ⊎ Listed qs p

abbrev request : Bool → List ℕ → VirtAddr → (Unit {0} ⊎ Bool) × List ℕ
request true pages p = (inr true, pages)
request false pages p = (inl tt, p ∷ pages)

abbrev pages_above : HeapBacking (List ℕ) Bool
pages_above = record { map_page = λ pages p. request (ltb p 0x2000) pages p }

pages_above-IsBacking : IsBacking pages_above Listed
pages_above-IsBacking = record {
  map_page-Backs = λ pages p aligned fresh. by_test pages p (ltb p 0x2000);
}
  where
    by_test : (pages : List ℕ) (p : VirtAddr) (b : Bool) → Backs Listed pages p (request b pages p)
    by_test pages p true = λ q. ((λ m. m), λ m. m)
    by_test pages p false = (
      inl refl,
      λ q differ. ((λ m. elim m [ inl e ↦ absurd (differ e) | inr l ↦ l ]), λ m. inr m),
    )

abbrev reservation : VirtRange
reservation = record { start = 0x1000; end = 0x5000 }

abbrev heap : KernelHeap
heap = record { range = reservation; cursor = 0x5000; mapped_start = 0x4000 }

new_runs : new pages_above reservation [] ≡ (ok heap, 0x4000 ∷ [])
unfolding new first_page made back_to back_loop checked_sub
new_runs = refl

allocate_runs : allocate pages_above (record { size = 0x1801; align = 16 }) heap (0x4000 ∷ []) ≡ (
  ok 0x37f0,
  (record { range = reservation; cursor = 0x37f0; mapped_start = 0x3000 }, 0x3000 ∷ 0x4000 ∷ []),
)
unfolding allocate place placed candidate back_to back_loop checked_sub
allocate_runs = refl

heap-IsHeap : IsHeap Listed heap (0x4000 ∷ [])
heap-IsHeap = record {
  not_null = omega arith;
  start_aligned = omega arith;
  end_aligned = omega arith;
  mapped_aligned = omega arith;
  inside = omega arith;
  covered = omega arith;
  bounded = omega arith;
  mapped = λ p aligned low high. (
    (λ m. elim m [ inl e ↦ omega (arith, e) | inr l ↦ absurd l ]),
    λ m. inl (omega (arith, m, aligned, high)),
  );
}

new-NewHeap_example : NewHeap Listed reservation (new pages_above reservation [])
new-NewHeap_example =
    new-NewHeap pages_above Listed pages_above-IsBacking reservation [] (omega arith)
      (λ is p aligned low high m. m)

allocate-AllocatedBlock_example :
    AllocatedBlock Listed heap
      (record { size = 0x1801; align = 16 })
      (allocate pages_above (record { size = 0x1801; align = 16 }) heap (0x4000 ∷ []))
allocate-AllocatedBlock_example =
    allocate-AllocatedBlock pages_above Listed pages_above-IsBacking
      (record { size = 0x1801; align = 16 }) heap (0x4000 ∷ []) heap-IsHeap
