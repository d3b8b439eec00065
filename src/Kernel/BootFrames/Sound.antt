-- ===== src/Kernel/BootFrames/Sound.antt =====
-- `allocate` against the set of free frames: it ends, and takes one free frame or finds that none is left.
use barebone_kernel.Base.{
  ℕ, zero, suc, ◌>>=◌, ◌≤◌, ◌<◌, ◌≡◌, ◌⊎◌, ◌↔◌, inl, inr, refl, sym, arith, List, [], ◌∷◌, Option,
  none, some, Result, ok, err, fault, subst,
}
use barebone_kernel.Kernel.Memory.{PhysFrame}
use barebone_kernel.Kernel.BootFrames.{
  Region, CurrentMemoryRange, BootFrameAllocator, Round, again, returns, advanced, from_current,
  round, allocate_loop, allocate, left, advance_memory_range,
}
use barebone_kernel.Kernel.BootFrames.Spec.{Ahead, Free, InRegions, InCurrent, IsValid}
use barebone_kernel.Kernel.BootFrames.Advance.{Advanced, AdvanceSpec, advance-AdvanceSpec}
use barebone_kernel.Kernel.BootFrames.Step.{StepSpec, try_candidate-StepSpec}

-- `b` has the free frames of `a`, and no more bytes before it.
abbrev SameFree : BootFrameAllocator → BootFrameAllocator → Type 0
SameFree a b = ((x : ℕ) → Free a x ↔ Free b x) × (left b ≤ left a)

StepSpec-same :
    {E : Type 0} (a b : BootFrameAllocator) (r : Result Round E)
    → SameFree a b
    → StepSpec b r
    → StepSpec a r
StepSpec-same a b (ok (again d)) same s = (
  s.0,
  (λ x. ((λ f. (s.1 x).0 ((same.0 x).0 f)), λ f. (same.0 x).1 ((s.1 x).1 f))),
  omega (arith, s.2, same.1),
)
StepSpec-same a b (ok (returns (some f) d)) same s = (
  s.0,
  (same.0 f.start).1 s.1,
  s.2,
  λ x. ((λ p. (s.3 x).0 ((same.0 x).0 p)), λ p. (same.0 x).1 ((s.3 x).1 p)),
)
StepSpec-same a b (ok (returns none d)) same s = (s.0, λ x f. s.1 x ((same.0 x).0 f), s.2)
StepSpec-same a b (err e) same s = s
StepSpec-same a b (fault f) same s = s

-- The allocator behind `advance_memory_range`.
module _ (a : BootFrameAllocator) (v : IsValid a) (e : a.current ≡ none) where
  Advanced-IsValid :
      (current : Option CurrentMemoryRange) (rest : List Region)
      → Advanced a.memory_ranges current rest
      → IsValid (record a { current = current; memory_ranges = rest })
  Advanced-IsValid current rest s = record {
    memory_are = s.rest_are;
    reservations_are = v.reservations_are;
    reserved_are = v.reserved_are;
    kernel_is = v.kernel_is;
    dtb_is = v.dtb_is;
    current_is = s.current_is;
    memory_apart = s.rest_apart;
    current_apart = s.current_apart;
  }

  Advanced-SameFree :
      (current : Option CurrentMemoryRange) (rest : List Region)
      → Advanced a.memory_ranges current rest
      → SameFree a (record a { current = current; memory_ranges = rest })
  Advanced-SameFree current rest s = (
    (λ x. (
      (λ f. elim f.0 [
        | inl here ↦ absurd (subst (λ o. InCurrent o x) e here)
        | inr behind ↦ ((s.same_frames x).0 behind, f.1)
      ]),
      λ f. (inr ((s.same_frames x).1 f.0), f.1),
    )),
    rw e (omega (arith, s.shrinks)),
  )

  advanced-StepSpec :
      (E : Type 0) (o : Result (Option CurrentMemoryRange × List Region) E)
      → AdvanceSpec {E = E} a.memory_ranges o
      → StepSpec {E = E} a (o >>= advanced a)
  unfolding advanced
  advanced-StepSpec E (ok (some c, rest)) s =
      StepSpec-same a (record a { current = some c; memory_ranges = rest }) _
        (Advanced-SameFree (some c) rest s)
        (try_candidate-StepSpec E (record a { current = some c; memory_ranges = rest }) c
          (Advanced-IsValid (some c) rest s) refl)
  advanced-StepSpec E (ok (none, rest)) s = (
    subst (λ o. IsValid (record a { current = o; memory_ranges = rest })) (sym e)
        (Advanced-IsValid none rest s),
    λ x f. nothing_ahead x (((Advanced-SameFree none rest s).0 x).0 f).0,
    λ x f.
        nothing_ahead x
          (subst (λ o. Ahead (record a { current = o; memory_ranges = rest }) x) e f.0),
  )
    where
      nothing_ahead : (x : ℕ) → Ahead (record a { current = none; memory_ranges = rest }) x → ⊥
      nothing_ahead x (inl here) = here
      nothing_ahead x (inr behind) = subst (λ rs. InRegions rs x) (s.ends_empty refl) behind
  advanced-StepSpec E (err x) s = s
  advanced-StepSpec E (fault x) s = s

pub round-StepSpec :
    (E : Type 0) (a : BootFrameAllocator) → IsValid a → StepSpec {E = E} a (round a)
unfolding round from_current
round-StepSpec E a v = by_current a.current refl
  where
    by_current :
        (o : Option CurrentMemoryRange) → a.current ≡ o → StepSpec {E = E} a (from_current a o)
    by_current none e =
        advanced-StepSpec a v e E (advance_memory_range a.memory_ranges)
          (advance-AdvanceSpec E a.memory_ranges v.memory_are v.memory_apart)
    by_current (some c) e = try_candidate-StepSpec E a c v e

-- A whole call: it takes exactly one frame from the free ones, or there is none.
abbrev pub Allocated :
    {E : Type 0} → BootFrameAllocator → Result (Option PhysFrame × BootFrameAllocator) E → Type 0
Allocated a (ok (some f, b)) =
    IsValid b
    × Free a f.start
    × ¬ (Free b f.start)
    × ((x : ℕ) → Free a x ↔ (Free b x ⊎ (x ≡ f.start)))
Allocated a (ok (none, b)) = IsValid b × ((x : ℕ) → ¬ (Free a x)) × ((x : ℕ) → ¬ (Free b x))
Allocated a (err e) = ⊥
Allocated a (fault f) = ⊥

Allocated-same :
    {E : Type 0} (a b : BootFrameAllocator) (r : Result (Option PhysFrame × BootFrameAllocator) E)
    → ((x : ℕ) → Free a x ↔ Free b x)
    → Allocated b r
    → Allocated a r
Allocated-same a b (ok (some f, d)) same s = (
  s.0,
  (same f.start).1 s.1,
  s.2,
  λ x. ((λ p. (s.3 x).0 ((same x).0 p)), λ p. (same x).1 ((s.3 x).1 p)),
)
Allocated-same a b (ok (none, d)) same s = (s.0, λ x f. s.1 x ((same x).0 f), s.2)
Allocated-same a b (err e) same s = s
Allocated-same a b (fault f) same s = s

allocate_loop-Allocated :
    (E : Type 0) (fuel : ℕ) (a : BootFrameAllocator)
    → IsValid a
    → left a < fuel
    → Allocated {E = E} a (allocate_loop fuel a)
unfolding allocate_loop
allocate_loop-Allocated E zero a v enough = omega (arith, enough)
allocate_loop-Allocated E (suc fuel) a v enough =
    by_round (round a) (round-StepSpec E a v)
      λ b w less. allocate_loop-Allocated E fuel b w (omega (arith, less, enough))
  where
    by_round :
        (r : Result Round E)
        → StepSpec {E = E} a r
        → ((b : BootFrameAllocator)
            → IsValid b
            → left b < left a
            → Allocated {E = E} b (allocate_loop fuel b))
        → Allocated {E = E} a
            (r >>= λ r. elim r [ again a' ↦ allocate_loop fuel a' | returns f a' ↦ ok (f, a') ])
    by_round (ok (again b)) s go_on =
        Allocated-same a b (allocate_loop fuel b) s.1 (go_on b s.0 s.2)
    by_round (ok (returns (some f) b)) s go_on = s
    by_round (ok (returns none b)) s go_on = s
    by_round (err e) s go_on = s
    by_round (fault f) s go_on = s

-- `allocate` on a valid allocator ends within its fuel, without a panic. It returns the start of a free
-- frame, leaves a valid allocator, and the free frames are then those before without this one; or it
-- returns none, and there was no free frame, nor is one left. A frame is free where it lies whole in
-- memory not passed yet, and meets neither the kernel, nor the devicetree, nor a reservation.
pub allocate-Allocated :
    (E : Type 0) (a : BootFrameAllocator) → IsValid a → Allocated {E = E} a (allocate a)
unfolding allocate
allocate-Allocated E a v = allocate_loop-Allocated E (suc (left a)) a v (omega arith)

-- A run of allocations from `a` to `b`, with the starts of the frames that it took, the last first.
pub data Run : BootFrameAllocator → List ℕ → BootFrameAllocator → Type 0 where
  start : {a : BootFrameAllocator} → Run a [] a
  step :
      {a b : BootFrameAllocator} {taken : List ℕ}
      → Run a taken b
      → (f : PhysFrame) (d : BootFrameAllocator) → allocate {E = Unit} b ≡ ok (some f, d)
      → Run a (f.start ∷ taken) d

abbrev pub AllFree : BootFrameAllocator → List ℕ → Type 0
AllFree a [] = Unit
AllFree a (x ∷ xs) = Free a x × AllFree a xs

abbrev pub NoneFree : BootFrameAllocator → List ℕ → Type 0
NoneFree a [] = Unit
NoneFree a (x ∷ xs) = ¬ (Free a x) × NoneFree a xs

-- No start stands twice.
abbrev pub NotIn : ℕ → List ℕ → Type 0
NotIn x [] = Unit
NotIn x (y ∷ ys) = ¬ (x ≡ y) × NotIn x ys

abbrev pub Distinct : List ℕ → Type 0
Distinct [] = Unit
Distinct (x ∷ xs) = NotIn x xs × Distinct xs

NoneFree-NotIn :
    (a : BootFrameAllocator) (x : ℕ) (xs : List ℕ) → Free a x → NoneFree a xs → NotIn x xs
NoneFree-NotIn a x [] free h = tt
NoneFree-NotIn a x (y ∷ ys) free h =
    ((λ e. h.0 (subst (Free a) e free)), NoneFree-NotIn a x ys free h.1)

NoneFree-sub :
    (a b : BootFrameAllocator) (xs : List ℕ)
    → ((x : ℕ) → Free b x → Free a x)
    → NoneFree a xs
    → NoneFree b xs
NoneFree-sub a b [] sub h = tt
NoneFree-sub a b (x ∷ xs) sub h = ((λ f. h.0 (sub x f)), NoneFree-sub a b xs sub h.1)

-- What a run of allocations guarantees.
pub record Ran (a : BootFrameAllocator) (taken : List ℕ) (b : BootFrameAllocator) : Type 0 where
  pub valid : IsValid b
  pub were_free : AllFree a taken
  pub are_taken : NoneFree b taken
  pub distinct : Distinct taken
  pub sub : (x : ℕ) → Free b x → Free a x

-- However often a valid allocator allocates, the frames taken were all free at the start, no two are
-- the same, none of them is free at the end, and the allocator stays valid.
pub Run-Ran :
    (a b : BootFrameAllocator) (taken : List ℕ) → IsValid a → Run a taken b → Ran a taken b
Run-Ran a b taken v start = record {
  valid = v;
  were_free = tt;
  are_taken = tt;
  distinct = tt;
  sub = λ x f. f;
}
Run-Ran a d taken v (step {b = b} {taken = earlier} run f d2 e) =
    let r = Run-Ran a b earlier v run in
    let s : Allocated {E = Unit} b (ok (some f, d)) =
      subst (Allocated b) e (allocate-Allocated Unit b r.valid) in
    let sub : (x : ℕ) → Free d x → Free b x = λ x p. (s.3 x).1 (inl p) in
    record {
      valid = s.0;
      were_free = (r.sub f.start s.1, r.were_free);
      are_taken = (s.2, NoneFree-sub b d earlier sub r.are_taken);
      distinct = (NoneFree-NotIn b f.start earlier s.1 r.are_taken, r.distinct);
      sub = λ x p. r.sub x (sub x p);
    }
