-- ===== src/Kernel/BootFrames/Step.antt =====
-- One round of the loop of `allocate`: it keeps the set of free frames, or takes one frame from it.
use barebone_kernel.Base.{
  ℕ, ◌+◌, ◌>>=◌, ◌%◌, ◌≤◌, ◌<◌, ◌^◌, ◌≡◌, ◌⊎◌, ◌↔◌, inl, inr, refl, arith, List, [], ◌∷◌, Option,
  none, some, Result, ok, err, fault, Bool-cases, leb, leb→le, subst,
}
use barebone_kernel.Kernel.Memory.{PhysRange, align_up}
use barebone_kernel.Kernel.Memory.Align.{align_up-cases, from_start-some, frame_range-ok}
use barebone_kernel.Kernel.BootFrames.{
  Region, CurrentMemoryRange, BootFrameAllocator, Round, again, returns, moved, skip, after_search,
  try_candidate, left, current_left, overlapping_reservation,
}
use barebone_kernel.Kernel.BootFrames.Spec.{
  InRegions, InCurrent, Meets, Reserved, Ahead, Free, IsCurrent, ApartFrom, CurrentApart, IsValid,
}
use barebone_kernel.Kernel.BootFrames.Advance.{ApartFrom-narrow}
use barebone_kernel.Kernel.BootFrames.Reserved.{
  frame_at, SearchSpec, overlapping_reservation-SearchSpec,
}

-- The cursor moves from `c.cursor` to `next`.
module _ (c : CurrentMemoryRange) (next : ℕ) (h : IsCurrent (some c)) (boundary : next % 4096 ≡ 0)
    (later : c.cursor < next) where
  pub moved-IsCurrent : IsCurrent (moved c next)
  moved-IsCurrent = ground (arith, h)

  pub moved-CurrentApart :
      (rs : List Region) → ApartFrom c.cursor c.end rs → CurrentApart (moved c next) rs
  moved-CurrentApart rs apart = elim (Bool-cases (leb c.end next)) [
    | inl done ↦ rw done tt
    | inr more ↦
        rw more (ApartFrom-narrow c.cursor c.end next c.end rs (omega arith) (omega arith) apart)
  ]

  pub moved_left : current_left (moved c next) < current_left (some c)
  moved_left = ground (arith, h)

  -- A frame is behind the new cursor or passed.
  pub moved_frames : (x : ℕ) → InCurrent (some c) x → InCurrent (moved c next) x ⊎ (x < next)
  moved_frames x f = elim (Bool-cases (leb c.end next)) [
    | inl done ↦ inr (ground arith)
    | inr more ↦ rw more (elim (Bool-cases (leb next x)) [
      | inl behind ↦ inl (f.0, leb→le next x behind, f.2)
      | inr passed ↦ inr (ground arith)
    ])
  ]

  pub moved_sub : (x : ℕ) → InCurrent (moved c next) x → InCurrent (some c) x × (next ≤ x)
  moved_sub x = elim (Bool-cases (leb c.end next)) [
    | inl done ↦ rw done (λ f. absurd f)
    | inr more ↦ rw more (λ f. ((f.0, omega (arith, f.1), f.2), f.1))
  ]

-- What a round may return, seen from the allocator before it.
abbrev pub StepSpec : {E : Type 0} → BootFrameAllocator → Result Round E → Type 0
StepSpec a (ok (again b)) = IsValid b × ((x : ℕ) → Free a x ↔ Free b x) × (left b < left a)
StepSpec a (ok (returns (some f) b)) =
    IsValid b
    × Free a f.start
    × ¬ (Free b f.start)
    × ((x : ℕ) → Free a x ↔ (Free b x ⊎ (x ≡ f.start)))
StepSpec a (ok (returns none b)) = IsValid b × ((x : ℕ) → ¬ (Free a x)) × ((x : ℕ) → ¬ (Free b x))
StepSpec a (err e) = ⊥
StepSpec a (fault f) = ⊥

-- No frame of the current range lies in the ranges behind it.
pub apart_frames :
    (c : CurrentMemoryRange) (x : ℕ) (rs : List Region)
    → ApartFrom c.cursor c.end rs
    → InCurrent (some c) x
    → ¬ (InRegions rs x)
apart_frames c x [] apart f = λ g. g
apart_frames c x (r ∷ rs) apart f = λ g. elim g [
  | inl here ↦ omega (arith, apart.0, f, here)
  | inr later ↦ apart_frames c x rs apart.1 f later
]

-- The allocator with another current range.
pub replace_current-IsValid :
    (a : BootFrameAllocator) (o : Option CurrentMemoryRange)
    → IsValid a
    → IsCurrent o
    → CurrentApart o a.memory_ranges
    → IsValid (record a { current = o })
replace_current-IsValid a o v is apart = record {
  memory_are = v.memory_are;
  reservations_are = v.reservations_are;
  reserved_are = v.reserved_are;
  kernel_is = v.kernel_is;
  dtb_is = v.dtb_is;
  current_is = is;
  memory_apart = v.memory_apart;
  current_apart = apart;
}

-- The cursor of `a` moves from `c.cursor` to `next`.
module _ (a : BootFrameAllocator) (c : CurrentMemoryRange) (next : ℕ) (v : IsValid a)
    (e : a.current ≡ some c) (boundary : next % 4096 ≡ 0) (later : c.cursor < next) where
  IsValid-IsCurrent : IsCurrent (some c)
  IsValid-IsCurrent = subst IsCurrent e v.current_is

  pub moved-IsValid : IsValid (record a { current = moved c next })
  moved-IsValid =
      replace_current-IsValid a (moved c next) v
        (moved-IsCurrent c next IsValid-IsCurrent boundary later)
        (moved-CurrentApart c next IsValid-IsCurrent boundary later a.memory_ranges
          (subst (λ o. CurrentApart o a.memory_ranges) e v.current_apart))

  pub moved-left : left (record a { current = moved c next }) < left a
  moved-left = rw e (omega (arith, moved_left c next IsValid-IsCurrent boundary later))

  pub passed_or_Ahead :
      (x : ℕ)
      → Ahead a x
      → Ahead (record a { current = moved c next }) x ⊎ (InCurrent (some c) x × (x < next))
  passed_or_Ahead x h = elim h [
    | inr behind ↦ inl (inr behind)
    | inl here ↦ by_cursor (subst (λ o. InCurrent o x) e here)
  ]
    where
      by_cursor :
          InCurrent (some c) x
          → Ahead (record a { current = moved c next }) x ⊎ (InCurrent (some c) x × (x < next))
      by_cursor here = elim (moved_frames c next IsValid-IsCurrent boundary later x here) [
        | inl kept ↦ inl (inl kept)
        | inr passed ↦ inr (here, passed)
      ]

  pub still-Ahead : (x : ℕ) → Ahead (record a { current = moved c next }) x → Ahead a x
  still-Ahead x h = elim h [
    | inr behind ↦ inr behind
    | inl here ↦ inl (rw e ((moved_sub c next IsValid-IsCurrent boundary later x here).0))
  ]

  -- A frame of the current range that is passed is not ahead any more.
  pub passed-gone :
      (x : ℕ) → InCurrent (some c) x → x < next → ¬ (Ahead (record a { current = moved c next }) x)
  passed-gone x f passed h = elim h [
    | inl here ↦ omega (arith, passed, (moved_sub c next IsValid-IsCurrent boundary later x here).1)
    | inr behind ↦
        apart_frames c x a.memory_ranges
          (subst (λ o. CurrentApart o a.memory_ranges) e v.current_apart) f behind
  ]

module _ (E : Type 0) (a : BootFrameAllocator) (c : CurrentMemoryRange) (v : IsValid a)
    (e : a.current ≡ some c) where
  is : IsCurrent (some c)
  is = subst IsCurrent e v.current_is

  -- The cursor is on a frame that no range reserves: that frame is taken.
  pub take-StepSpec :
      ¬ (Reserved a c.cursor)
      → StepSpec {E = E} a (
          ok (
            returns
              (some (record { start = c.cursor }))
              (record a { current = moved c (c.cursor + 4096) })))
  take-StepSpec clear =
      let next = c.cursor + 4096 in
      let first : InCurrent (some c) c.cursor = (is.0, omega arith, omega (arith, is)) in
      let boundary : (c.cursor + 4096) % 4096 ≡ 0 = omega (arith, is.0) in
      let later : c.cursor < c.cursor + 4096 = omega arith in
      (
        moved-IsValid a c next v e boundary later,
        (inl (rw e first), clear),
        (λ free. passed-gone a c next v e boundary later c.cursor first later free.0),
        λ x. (
          (λ free. elim (passed_or_Ahead a c next v e boundary later x free.0) [
            | inl ahead ↦ inl (ahead, free.1)
            | inr gone ↦ inr (omega (arith, is, gone))
          ]),
          λ h. elim h [
            | inl free ↦ (still-Ahead a c next v e boundary later x free.0, free.1)
            | inr same ↦ (rw same (inl (rw e first)), rw same clear)
          ],
        ),
      )

  -- The frame at the cursor meets a reserved range: the cursor moves behind it.
  pub skip-StepSpec :
      (r : PhysRange)
      → Meets c.cursor r
      → r.end < 2 ^ 64
      → ((x : ℕ) → Meets x r → Reserved a x)
      → StepSpec {E = E} a (ok (skip a c (align_up r.end)))
  unfolding skip
  skip-StepSpec r meets small reserved = elim (align_up-cases r.end small) [
    | inl (next, aligned, u, k) ↦
        let later : c.cursor < next = omega (arith, meets, u.not_below) in
        rw aligned (
          moved-IsValid a c next v e u.aligned later,
          (λ x. (
            (λ free. elim (passed_or_Ahead a c next v e u.aligned later x free.0) [
              | inl ahead ↦ (ahead, free.1)
              | inr gone ↦ absurd (
                  free.1 (
                    reserved x
                      (omega (arith, is, gone, u.least, u.aligned), omega (arith, meets, gone))))
            ]),
            λ free. (still-Ahead a c next v e u.aligned later x free.0, free.1),
          )),
          moved-left a c next v e u.aligned later,
        )
    | inr (none_above, big, off) ↦ rw none_above (
      replace_current-IsValid a none v tt tt,
      (λ x. (
        (λ free. elim free.0 [
          | inr behind ↦ (inr behind, free.1)
          | inl here ↦
              absurd (free.1 (reserved x (above big x (subst (λ o. InCurrent o x) e here))))
        ]),
        λ free. (elim free.0 [ inl f ↦ absurd f | inr behind ↦ inr behind ], free.1),
      )),
      rw e (omega arith),
    )
  ]
    where
      above : 2 ^ 64 < r.end + 4096 → (x : ℕ) → InCurrent (some c) x → Meets x r
      above big x f = (omega (arith, big, f, is), omega (arith, meets, f))

  pub after_search-StepSpec :
      (range : PhysRange)
      → range.end ≡ c.cursor + 4096
      → (o : Result (Option PhysRange) E) → SearchSpec (Reserved a) c.cursor o
      → StepSpec {E = E} a
          (o >>= λ found. ok (after_search a c (record { start = c.cursor }) range found))
  unfolding after_search
  after_search-StepSpec range ends (ok none) s = rw ends (take-StepSpec s)
  after_search-StepSpec range ends (ok (some r)) s = skip-StepSpec r s.0 s.1 s.2
  after_search-StepSpec range ends (err x) s = absurd s
  after_search-StepSpec range ends (fault x) s = absurd s

  pub try_candidate-StepSpec : StepSpec {E = E} a (try_candidate a c)
  unfolding try_candidate
  try_candidate-StepSpec =
      rw
        (
          from_start-some c.cursor is.0 (omega (arith, is)),
          frame_range-ok {E = E} c.cursor (omega (arith, is)),
        )
        (after_search-StepSpec (frame_at c.cursor) refl
          (overlapping_reservation a (frame_at c.cursor))
          (overlapping_reservation-SearchSpec E a c.cursor v))
