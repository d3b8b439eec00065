-- ===== src/Kernel/BootFrames/Advance.antt =====
-- `advance_memory_range` moves to the next range that has a whole frame, and loses no frame.
use barebone_kernel.Base.{
  ℕ, ◌+◌, ◌≤◌, ◌≡◌, ◌⊎◌, ◌↔◌, inl, inr, refl, arith, List, [], ◌∷◌, Option, none, some, All, Result,
  ok, err, fault, Bool-cases, leb, leb→le,
}
use barebone_kernel.Kernel.Memory.{align_up, align_down}
use barebone_kernel.Kernel.Memory.Align.{align_up-cases, align_down_lem, from_start_size-some}
use barebone_kernel.Kernel.BootFrames.{
  Region, CurrentMemoryRange, fdt_range, whole_frames, advance_memory_range, bytes_left,
  current_left,
}
use barebone_kernel.Kernel.BootFrames.Spec.{
  FrameIn, InRegions, InCurrent, IsRegion, IsCurrent, ApartFrom, PairwiseApart, CurrentApart,
}

pub fdt_range-ok :
    {E : Type 0} (r : Region)
    → IsRegion r
    → fdt_range {E = E} r ≡ ok (record { start = r.address; end = r.address + r.size })
unfolding fdt_range
fdt_range-ok r h = rw (from_start_size-some r.address r.size h.0 h.1)

-- What the cut of a range to whole frames keeps.
record Cut (r : Region) (c : CurrentMemoryRange) : Type 0 where
  is_current : IsCurrent (some c)
  not_below : r.address ≤ c.cursor
  not_above : c.end ≤ r.address + r.size
  same : (x : ℕ) → FrameIn r.address (r.address + r.size) x ↔ FrameIn c.cursor c.end x

abbrev CutSpec : Region → Option CurrentMemoryRange → Type 0
CutSpec r none = (x : ℕ) → ¬ (FrameIn r.address (r.address + r.size) x)
CutSpec r (some c) = Cut r c

whole_frames-CutSpec :
    (r : Region)
    → IsRegion r
    → CutSpec r
        (whole_frames (record { start = r.address; end = r.address + r.size }) (align_up r.address))
unfolding whole_frames
whole_frames-CutSpec r h = elim (align_up-cases r.address (omega arith)) [
  | inr (e, big, off) ↦ rw e (λ x f. omega arith)
  | inl (up, e, u, k) ↦
      let down = align_down (r.address + r.size) in
      let low = align_down_lem (r.address + r.size) in
      elim (Bool-cases (leb down up)) [
        | inl empty ↦ rw (e, empty) (λ x f. omega (arith, u.aligned, u.least, leb→le down up empty))
        | inr full ↦
            rw (e, full)
              (record {
                is_current = (u.aligned, low.1, ground arith, omega arith);
                not_below = u.not_below;
                not_above = low.0;
                same =
                    λ x. (λ f. omega (arith, u.aligned, u.least), λ f. omega (arith, u.not_below));
              })
      ]
]

-- What the loop leaves of the ranges `rs`.
pub record Advanced (rs : List Region) (current : Option CurrentMemoryRange) (rest : List Region)
    : Type 0 where
  pub current_is : IsCurrent current
  pub rest_are : All IsRegion rest
  pub rest_apart : PairwiseApart rest
  pub current_apart : CurrentApart current rest
  pub same_frames : (x : ℕ) → InRegions rs x ↔ InCurrent current x ⊎ InRegions rest x
  pub shrinks : current_left current + bytes_left rest ≤ bytes_left rs
  pub ends_empty : current ≡ none → rest ≡ []

abbrev pub AdvanceSpec :
    {E : Type 0} → List Region → Result (Option CurrentMemoryRange × List Region) E → Type 0
AdvanceSpec rs (ok (current, rest)) = Advanced rs current rest
AdvanceSpec rs (err e) = ⊥
AdvanceSpec rs (fault f) = ⊥

AdvanceSpec-skip :
    {E : Type 0} (r : Region) (rs : List Region)
    (x : Result (Option CurrentMemoryRange × List Region) E)
    → ((i : ℕ) → ¬ (FrameIn r.address (r.address + r.size) i))
    → AdvanceSpec rs x
    → AdvanceSpec (r ∷ rs) x
AdvanceSpec-skip r rs (ok (current, rest)) no_frame s = record {
  current_is = s.current_is;
  rest_are = s.rest_are;
  rest_apart = s.rest_apart;
  current_apart = s.current_apart;
  same_frames = λ x. (
    (λ h. elim h [ inl f ↦ absurd (no_frame x f) | inr later ↦ (s.same_frames x).0 later ]),
    λ h. inr ((s.same_frames x).1 h),
  );
  shrinks = omega (arith, s.shrinks);
  ends_empty = s.ends_empty;
}
AdvanceSpec-skip r rs (err e) no_frame s = s
AdvanceSpec-skip r rs (fault f) no_frame s = s

pub ApartFrom-narrow :
    (start end lo hi : ℕ) (rs : List Region)
    → start ≤ lo
    → hi ≤ end
    → ApartFrom start end rs
    → ApartFrom lo hi rs
ApartFrom-narrow start end lo hi [] p q h = tt
ApartFrom-narrow start end lo hi (r ∷ rs) p q h =
    (omega (arith, h.0), ApartFrom-narrow start end lo hi rs p q h.1)

Cut-Advanced :
    (r : Region) (rs : List Region) (c : CurrentMemoryRange)
    → IsRegion r
    → All IsRegion rs
    → PairwiseApart (r ∷ rs)
    → Cut r c
    → Advanced (r ∷ rs) (some c) rs
Cut-Advanced r rs c hr hs apart cut = record {
  current_is = cut.is_current;
  rest_are = hs;
  rest_apart = apart.1;
  current_apart =
      ApartFrom-narrow r.address (r.address + r.size) c.cursor c.end rs cut.not_below cut.not_above
        apart.0;
  same_frames = λ x. (
    (λ h. elim h [ inl f ↦ inl ((cut.same x).0 f) | inr later ↦ inr later ]),
    λ h. elim h [ inl f ↦ inl ((cut.same x).1 f) | inr later ↦ inr later ],
  );
  shrinks = omega (arith, cut.not_below, cut.not_above);
  ends_empty = λ e. absurd (cc);
}

pub advance-AdvanceSpec :
    (E : Type 0) (rs : List Region)
    → All IsRegion rs
    → PairwiseApart rs
    → AdvanceSpec {E = E} rs (advance_memory_range rs)
unfolding advance_memory_range
advance-AdvanceSpec E [] h apart = record {
  current_is = tt;
  rest_are = tt;
  rest_apart = tt;
  current_apart = tt;
  same_frames = λ x. ((λ f. absurd f), λ f. elim f [ inl g ↦ g | inr g ↦ g ]);
  shrinks = omega arith;
  ends_empty = λ e. refl;
}
advance-AdvanceSpec E (r ∷ rs) h apart = rw (fdt_range-ok {E = E} r h.0) (
    by_cut
      (whole_frames (record { start = r.address; end = r.address + r.size }) (align_up r.address))
      (whole_frames-CutSpec r h.0) (advance-AdvanceSpec E rs h.1 apart.1))
  where
    by_cut :
        (o : Option CurrentMemoryRange)
        → CutSpec r o
        → AdvanceSpec {E = E} rs (advance_memory_range rs)
        → AdvanceSpec {E = E}
            (r ∷ rs)
            (elim o [ none ↦ advance_memory_range rs | some c ↦ ok (some c, rs) ])
    by_cut none cut later = AdvanceSpec-skip r rs (advance_memory_range rs) cut later
    by_cut (some c) cut later = Cut-Advanced r rs c h.0 h.1 apart cut
