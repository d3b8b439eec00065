-- ===== src/Kernel/BootFrames/Reserved.antt =====
-- `overlapping_reservation` decides whether a frame is reserved, and by which range.
use barebone_kernel.Base.{
  ℕ, ◌+◌, ◌<◌, ◌^◌, ◌≡◌, ◌⊎◌, ◌↔◌, inl, inr, refl, arith, List, [], ◌∷◌, Option, none, some, All,
  Result, ok, err, fault, Bool-cases, ◌==◌, Bool, true, false, if◌then◌else◌,
}
use barebone_kernel.Kernel.Memory.{PhysRange, overlaps}
use barebone_kernel.Kernel.BootFrames.{
  Region, BootFrameAllocator, first_reservation, first_reserved, overlapping_reservation,
}
use barebone_kernel.Kernel.BootFrames.Spec.{
  Meets, MeetsRegion, MeetsSome, Reserved, IsRegion, IsReservation, IsValid,
}
use barebone_kernel.Kernel.BootFrames.Advance.{fdt_range-ok}

abbrev pub frame_at : ℕ → PhysRange
frame_at x = record { start = x; end = x + 4096 }

-- The search at the frame `x` finds nothing, and then `P x` fails; or it finds a range that meets the
-- frame, all of whose frames satisfy `P`.
abbrev pub SearchSpec : {E : Type 0} → (ℕ → Type 0) → ℕ → Result (Option PhysRange) E → Type 0
SearchSpec P x (ok none) = ¬ (P x)
SearchSpec P x (ok (some r)) = Meets x r × (r.end < 2 ^ 64) × ((y : ℕ) → Meets y r → P y)
SearchSpec P x (err e) = ⊥
SearchSpec P x (fault f) = ⊥

-- A search for one of two kinds that goes on from the first to the second.
SearchSpec-later :
    {E : Type 0} (P Q : ℕ → Type 0) (x : ℕ) (r : Result (Option PhysRange) E)
    → ¬ (P x)
    → SearchSpec Q x r
    → SearchSpec (λ y. P y ⊎ Q y) x r
SearchSpec-later P Q x (ok none) clear s = λ h. elim h [ inl p ↦ clear p | inr q ↦ s q ]
SearchSpec-later P Q x (ok (some r)) clear s = (s.0, s.1, λ y m. inr (s.2 y m))
SearchSpec-later P Q x (err e) clear s = s
SearchSpec-later P Q x (fault f) clear s = s

overlaps-Meets : (x : ℕ) (r : PhysRange) → (overlaps (frame_at x) r ≡ true) ↔ Meets x r
overlaps-Meets x r = (λ h. ground arith, λ h. ground arith)

region_range : Region → PhysRange
region_range r = record { start = r.address; end = r.address + r.size }

-- A range whose meeting with the frame decides, before a later search.
search_range :
    {E : Type 0} (P Q : ℕ → Type 0) (x : ℕ) (range : PhysRange)
    (later : Result (Option PhysRange) E)
    → range.end < 2 ^ 64
    → ((y : ℕ) → P y ↔ Meets y range)
    → SearchSpec Q x later
    → SearchSpec (λ y. P y ⊎ Q y) x (if overlaps (frame_at x) range then ok (some range) else later)
search_range P Q x range later small same s = by_test (overlaps (frame_at x) range) refl
  where
    by_test :
        (b : Bool)
        → overlaps (frame_at x) range ≡ b
        → SearchSpec (λ y. P y ⊎ Q y) x (if b then ok (some range) else later)
    by_test true hit = ((overlaps-Meets x range).0 hit, small, λ y m. inl ((same y).1 m))
    by_test false miss =
        SearchSpec-later P Q x later (λ p. cc (miss, (overlaps-Meets x range).1 ((same x).0 p))) s

region_Meets :
    (r : Region)
    → 0 < r.size
    → (y : ℕ) → MeetsRegion y r ↔ Meets y (record { start = r.address; end = r.address + r.size })
region_Meets r size y = (λ m. (m.1, m.2), λ m. (size, m.0, m.1))

first_reserved-SearchSpec :
    (E : Type 0) (x : ℕ) (rs : List Region)
    → All IsRegion rs
    → SearchSpec {E = E} (λ y. MeetsSome y rs) x (first_reserved (frame_at x) rs)
unfolding first_reserved
first_reserved-SearchSpec E x [] h = λ m. m
first_reserved-SearchSpec E x (r ∷ rs) h =
    let range : PhysRange = record { start = r.address; end = r.address + r.size } in
    rw (fdt_range-ok {E = E} r h.0) (
      search_range (λ y. MeetsRegion y r) (λ y. MeetsSome y rs) x range
        (first_reserved (frame_at x) rs) h.0.1 (region_Meets r h.0.0)
        (first_reserved-SearchSpec E x rs h.1))

SearchSpec-regroup :
    {E : Type 0} (P Q R : ℕ → Type 0) (x : ℕ) (r : Result (Option PhysRange) E)
    → SearchSpec (λ y. P y ⊎ (Q y ⊎ R y)) x r
    → SearchSpec (λ y. (P y ⊎ Q y) ⊎ R y) x r
SearchSpec-regroup P Q R x (ok none) s = λ h. elim h [
  | inl (inl p) ↦ s (inl p)
  | inl (inr q) ↦ s (inr (inl q))
  | inr r ↦ s (inr (inr r))
]
SearchSpec-regroup P Q R x (ok (some r)) s = (
  s.0,
  s.1,
  λ y m. elim (s.2 y m) [ inl p ↦ inl (inl p) | inr (inl q) ↦ inl (inr q) | inr (inr r) ↦ inr r ],
)
SearchSpec-regroup P Q R x (err e) s = s
SearchSpec-regroup P Q R x (fault f) s = s

first_reservation-SearchSpec :
    {E : Type 0} (Q : ℕ → Type 0) (x : ℕ) (rs : List Region)
    (otherwise : Result (Option PhysRange) E)
    → All IsReservation rs
    → SearchSpec Q x otherwise
    → SearchSpec (λ y. MeetsSome y rs ⊎ Q y) x (first_reservation (frame_at x) rs otherwise)
unfolding first_reservation
first_reservation-SearchSpec Q x [] otherwise h s =
    SearchSpec-later (λ y. ⊥) Q x otherwise (λ m. m) s
first_reservation-SearchSpec {E} Q x (r ∷ rs) otherwise h s =
    let range : PhysRange = record { start = r.address; end = r.address + r.size } in
    let later = first_reservation (frame_at x) rs otherwise in
    let hyp = first_reservation-SearchSpec Q x rs otherwise h.1 s in
    elim (Bool-cases (r.size == 0)) [
      | inl empty ↦ rw empty (
          SearchSpec-regroup (λ y. MeetsRegion y r) (λ y. MeetsSome y rs) Q x later
            (SearchSpec-later (λ y. MeetsRegion y r) (λ y. MeetsSome y rs ⊎ Q y) x later
              (λ m. ground arith) hyp))
      | inr full ↦
          rw (full, fdt_range-ok {E = E} r (ground arith, h.0))
            (SearchSpec-regroup (λ y. MeetsRegion y r) (λ y. MeetsSome y rs) Q x _
              (search_range (λ y. MeetsRegion y r) (λ y. MeetsSome y rs ⊎ Q y) x range later h.0
                (region_Meets r (ground arith)) hyp))
    ]

-- The search over all reservations at the frame `x`.
pub overlapping_reservation-SearchSpec :
    (E : Type 0) (a : BootFrameAllocator) (x : ℕ)
    → IsValid a
    → SearchSpec {E = E} (Reserved a) x (overlapping_reservation a (frame_at x))
unfolding overlapping_reservation
overlapping_reservation-SearchSpec E a x v =
    let regions =
      first_reservation-SearchSpec (λ y. MeetsSome y a.reserved_memory) x a.reservations
        (first_reserved {E = E} (frame_at x) a.reserved_memory) v.reservations_are
        (first_reserved-SearchSpec E x a.reserved_memory v.reserved_are) in
    let dtb =
      search_range (λ y. Meets y a.dtb)
        (λ y. MeetsSome y a.reservations ⊎ MeetsSome y a.reserved_memory) x a.dtb _ v.dtb_is.1
        (λ y. ((λ m. m), λ m. m)) regions in
    search_range (λ y. Meets y a.kernel)
      (λ y. Meets y a.dtb ⊎ MeetsSome y a.reservations ⊎ MeetsSome y a.reserved_memory) x a.kernel _
      v.kernel_is.1 (λ y. ((λ m. m), λ m. m)) dtb
