-- ===== src/Fdt/Reservation/Disjoint.antt =====
-- The two nested loops of `validate_no_overlaps` decide that no address is reserved twice.
use barebone_kernel.Base.{
  ℕ, ◌+◌, ◌<◌, ◌^◌, ◌≡◌, ◌⊎◌, inl, inr, refl, ap, arith, lt→ltb, ◌>>=◌, List, [], ◌∷◌, ◌++◌, All,
  Bool-cases, ◌==◌, Result, ok, err, fault,
}
use barebone_kernel.Fdt.Reservation.{
  MemoryReservation, ReservationError, overlap, overlaps, reservation_end, check_pair, check_first,
  check_against, check_all,
}
use native.Mathlib.Decide.{dec_le}
use barebone_kernel.Fdt.Reservation.Spec.{IsEntry, Covers, Apart, PairwiseApart}

-- Two entries of the block share address `x`, in this order.
pub record SharedIn (rs : List MemoryReservation) (first second : MemoryReservation) : Type 0 where
  pub before : List MemoryReservation
  pub between : List MemoryReservation
  pub after : List MemoryReservation
  pub splits : rs ≡ before ++ first ∷ (between ++ second ∷ after)
  pub shared : ℕ
  pub in_first : Covers first shared
  pub in_second : Covers second shared

-- Two non-empty ranges, each of which starts before the other ends, share an address.
meet :
    (f s : MemoryReservation)
    → 0 < f.size
    → 0 < s.size
    → f.address < s.address + s.size
    → s.address < f.address + f.size
    → (x : ℕ) × Covers f x × Covers s x
meet f s hf hs p q = elim (dec_le f.address s.address) [
  | yes le ↦ (s.address, omega arith, omega arith)
  | no gt ↦ (f.address, omega arith, omega arith)
]

check_pair-cases :
    (f s : MemoryReservation)
    → 0 < f.size
    → IsEntry s
    → (check_pair f (f.address + f.size) s ≡ ok tt) × Apart f s
      ⊎ (check_pair f (f.address + f.size) s ≡ err (overlap f.address f.size s.address s.size))
        × ((x : ℕ) × Covers f x × Covers s x)
unfolding check_pair
check_pair-cases f s hf h = elim (Bool-cases (s.size == 0)) [
  | inl empty ↦ inl (rw empty, λ x p q. ground arith)
  | inr full ↦
      elim (Bool-cases (overlaps f.address (f.address + f.size) s.address (s.address + s.size))) [
        | inl clash ↦ inr (ground arith, meet f s hf (ground arith) (ground arith) (ground arith))
        | inr clear ↦ inl (ground arith, λ x p q. ground arith)
      ]
]

-- What a run of the inner loop says of `first` and the entries behind it.
abbrev AgainstVerdict :
    MemoryReservation → List MemoryReservation → Result (Unit {0}) ReservationError → Type 0
AgainstVerdict f rs (ok _) = All (Apart f) rs
AgainstVerdict f rs (err e) =
    (s : MemoryReservation) × (before : List MemoryReservation) × (after : List MemoryReservation)
    × (rs ≡ before ++ s ∷ after)
    × (e ≡ overlap f.address f.size s.address s.size)
    × ((x : ℕ) × Covers f x × Covers s x)
AgainstVerdict f rs (fault x) = ⊥

AgainstVerdict-cons :
    (f s : MemoryReservation) (rs : List MemoryReservation) (r : Result (Unit {0}) ReservationError)
    → Apart f s
    → AgainstVerdict f rs r
    → AgainstVerdict f (s ∷ rs) r
AgainstVerdict-cons f s rs (ok _) h v = (h, v)
AgainstVerdict-cons f s rs (err e) h (t, before, after, split, same, shared) =
    (t, s ∷ before, after, ap (◌∷◌ s) split, same, shared)
AgainstVerdict-cons f s rs (fault x) h v = v

check_against-AgainstVerdict :
    (f : MemoryReservation) (rs : List MemoryReservation)
    → 0 < f.size
    → All IsEntry rs
    → AgainstVerdict f rs (check_against f (f.address + f.size) rs)
unfolding check_against
check_against-AgainstVerdict f [] hf h = tt
check_against-AgainstVerdict f (s ∷ rs) hf h = elim (check_pair-cases f s hf h.0) [
  | inl (e, clear) ↦
      rw e (AgainstVerdict-cons f s rs _ clear (check_against-AgainstVerdict f rs hf h.1))
  | inr (e, shared) ↦ rw e (s, [], rs, refl, refl, shared)
]

-- What a run of the outer loop says of the entries.
abbrev pub Verdict : List MemoryReservation → Result (Unit {0}) ReservationError → Type 0
Verdict rs (ok _) = PairwiseApart rs
Verdict rs (err e) =
    (f : MemoryReservation) × (s : MemoryReservation) × (e
      ≡ overlap f.address f.size s.address s.size)
    × SharedIn rs f s
Verdict rs (fault x) = ⊥

empty-Apart : (f : MemoryReservation) (rs : List MemoryReservation) → f.size ≡ 0 → All (Apart f) rs
empty-Apart f [] e = tt
empty-Apart f (s ∷ rs) e = (λ x p q. omega arith, empty-Apart f rs e)

check_first-AgainstVerdict :
    (f : MemoryReservation) (rs : List MemoryReservation)
    → IsEntry f
    → All IsEntry rs
    → AgainstVerdict f rs (check_first f rs)
unfolding check_first reservation_end
check_first-AgainstVerdict f rs hf h = elim (Bool-cases (f.size == 0)) [
  | inl empty ↦ rw empty (empty-Apart f rs (ground arith))
  | inr full ↦
      rw (full, lt→ltb (f.address + f.size) (2 ^ 64) hf.end_u64)
        (check_against-AgainstVerdict f rs (ground arith) h)
]

Verdict-cons :
    (f : MemoryReservation) (rs : List MemoryReservation) (r : Result (Unit {0}) ReservationError)
    → All (Apart f) rs
    → Verdict rs r
    → Verdict (f ∷ rs) r
Verdict-cons f rs (ok _) h v = (h, v)
Verdict-cons f rs (err e) h (g, s, same, v) = (
  g,
  s,
  same,
  record {
    before = f ∷ v.before;
    between = v.between;
    after = v.after;
    splits = ap (◌∷◌ f) v.splits;
    shared = v.shared;
    in_first = v.in_first;
    in_second = v.in_second;
  },
)
Verdict-cons f rs (fault x) h v = v

-- The first entry's verdict, then that of the others.
Verdict-bind :
    (f : MemoryReservation) (rs : List MemoryReservation) (a b : Result (Unit {0}) ReservationError)
    → AgainstVerdict f rs a
    → Verdict rs b
    → Verdict (f ∷ rs) (a >>= λ _. b)
Verdict-bind f rs (ok _) b h v = Verdict-cons f rs b h v
Verdict-bind f rs (err e) b (s, before, after, split, same, (x, p, q)) v = (
  f,
  s,
  same,
  record {
    before = [];
    between = before;
    after = after;
    splits = ap (◌∷◌ f) split;
    shared = x;
    in_first = p;
    in_second = q;
  },
)
Verdict-bind f rs (fault x) b h v = h

-- Over entries whose ends are 64-bit values, the overlap check ends without a panic. It accepts them
-- only if no address is reserved by two of them, and its error names two of them, in their order,
-- that do share an address.
pub check_all-Verdict : (rs : List MemoryReservation) → All IsEntry rs → Verdict rs (check_all rs)
unfolding check_all
check_all-Verdict [] h = tt
check_all-Verdict (f ∷ rs) h =
    Verdict-bind f rs (check_first f rs) (check_all rs) (check_first-AgainstVerdict f rs h.0 h.1)
      (check_all-Verdict rs h.1)
