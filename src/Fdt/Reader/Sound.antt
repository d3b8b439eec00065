-- ===== src/Fdt/Reader/Sound.antt =====
-- What every operation of the reader keeps, and a rule for each way to compose operations.
use barebone_kernel.Base.{
  ℕ, ◌+◌, ◌≤◌, ◌<◌, ◌≡◌, refl, ap, ◌∙◌, arith, [], ◌∷◌, Bytes, length, length-append, Result, ok,
  err, fault, Ends, ◌⊎◌, inl, inr, map_err,
}
use barebone_kernel.Fdt.Reader.{
  Reader, ReadM, IsValid, unread, advance, remaining, padding, read_bytes, read_u8, read_u32,
  read_u64, align_to_4, read_nul_terminated, and_then, ◌>>=◌, lift, convert,
}
use barebone_kernel.Fdt.Reader.Cursor.{
  length-unread, advance-IsValid, read_bytes-ok, read_bytes-err, read_u32-ok, read_u32-err,
  read_u64-ok, read_u64-err, read_u8-ok, read_nul_terminated-ok, read_nul_terminated-err,
  position_of_nul-cases,
}
use native.Mathlib.Decide.{dec_le}

-- The run ends, keeps the slice and the invariant, and never moves the cursor back.
pub record After {A E : Type 0} (r : Reader) (x : Result A E × Reader) : Type 0 where
  pub ends : Ends x.0
  pub valid : IsValid x.1
  pub same : x.1.bytes ≡ r.bytes
  pub forward : r.offset ≤ x.1.offset

abbrev pub Safe : {A E : Type 0} → ReadM A E → Type 0
Safe m = (r : Reader) → IsValid r → After r (m r)

-- An error leaves the reader as it was; a success keeps the slice and the invariant, and never
-- moves the cursor back; there is no panic.
abbrev pub Atomic : {A E : Type 0} → Reader → Result A E × Reader → Type 0
Atomic r (ok a, r') = IsValid r' × (r'.bytes ≡ r.bytes) × (r.offset ≤ r'.offset)
Atomic r (err e, r') = r' ≡ r
Atomic r (fault f, r') = ⊥

advance_moved :
    {r : Reader} (n : ℕ)
    → IsValid r
    → n ≤ remaining r
    → IsValid (advance r n) × ((advance r n).bytes ≡ r.bytes) × (r.offset ≤ (advance r n).offset)
advance_moved n v h = (advance-IsValid n v h, refl, omega arith)

le-or-lt : (a b : ℕ) → (a ≤ b) ⊎ (b < a)
le-or-lt a b = elim (dec_le a b) [ yes p ↦ inl p | no p ↦ inr (omega arith) ]

read_bytes-Atomic : {r : Reader} (n : ℕ) → IsValid r → Atomic r (read_bytes n r)
read_bytes-Atomic {r} n v = elim (le-or-lt n (remaining r)) [
  | inl h ↦ rw (read_bytes-ok n v h) (advance_moved n v h)
  | inr h ↦ rw (read_bytes-err n v h)
]

read_u32-Atomic : {r : Reader} → IsValid r → Atomic r (read_u32 r)
read_u32-Atomic {r} v = elim (le-or-lt 4 (remaining r)) [
  | inl h ↦ rw (read_u32-ok v h) (advance_moved 4 v h)
  | inr h ↦ rw (read_u32-err v h)
]

read_u64-Atomic : {r : Reader} → IsValid r → Atomic r (read_u64 r)
read_u64-Atomic {r} v = elim (le-or-lt 8 (remaining r)) [
  | inl h ↦ rw (read_u64-ok v h) (advance_moved 8 v h)
  | inr h ↦ rw (read_u64-err v h)
]

align_to_4-Atomic : {r : Reader} → IsValid r → Atomic r (align_to_4 r)
unfolding align_to_4
align_to_4-Atomic {r} v = read_bytes-Atomic (padding r.offset) v

read_u8-Atomic : {r : Reader} → IsValid r → Atomic r (read_u8 r)
unfolding read_u8
read_u8-Atomic {r} v = elim (le-or-lt 1 (remaining r)) [
  | inl h ↦ some_byte (unread r) refl h
  | inr h ↦ rw (read_bytes-err 1 v h)
]
  where
    some_byte : (bs : Bytes) → unread r ≡ bs → 1 ≤ remaining r → Atomic r (read_u8 r)
    some_byte [] e h = absurd (omega (arith, length-unread r, ap length e))
    some_byte (b ∷ bs) e h = rw (read_u8-ok b bs v e) (advance_moved 1 v h)

read_nul_terminated-Atomic : {r : Reader} → IsValid r → Atomic r (read_nul_terminated r)
read_nul_terminated-Atomic {r} v = elim (position_of_nul-cases (unread r)) [
  | inl (h, e) ↦ rw (read_nul_terminated-err v h)
  | inr (name, rest, e, h, p) ↦ rw (read_nul_terminated-ok name rest v h e) (
      advance_moved (length name + 1) v
        (omega (arith, length-unread r, ap length e, length-append name (0 ∷ rest))))
]

-- Every read of a reader whose cursor lies in its slice ends without a panic; where it succeeds the
-- cursor has not moved back and still lies in the same slice, and where it fails the reader is
-- unchanged.
pub reads-Atomic :
    (r : Reader) (n : ℕ)
    → IsValid r
    → Atomic r (read_bytes n r)
      × Atomic r (read_u8 r)
      × Atomic r (read_u32 r)
      × Atomic r (read_u64 r)
      × Atomic r (align_to_4 r)
      × Atomic r (read_nul_terminated r)
reads-Atomic r n v = (
  read_bytes-Atomic n v,
  read_u8-Atomic v,
  read_u32-Atomic v,
  read_u64-Atomic v,
  align_to_4-Atomic v,
  read_nul_terminated-Atomic v,
)

Atomic-After :
    {A E : Type 0} {r : Reader} (x : Result A E × Reader) → IsValid r → Atomic r x → After r x
Atomic-After (ok a, r') v h = record { ends = tt; valid = h.0; same = h.1; forward = h.2 }
Atomic-After {r = r} (err e, r') v h = record {
  ends = tt;
  valid = rw h v;
  same = ap (λ (s : Reader). s.bytes) h;
  forward = omega (arith, ap (λ (s : Reader). s.offset) h);
}
Atomic-After (fault f, r') v h = absurd h

pub read_bytes-Safe : (n : ℕ) → Safe (read_bytes n)
read_bytes-Safe n r v = Atomic-After _ v (read_bytes-Atomic n v)

pub read_u8-Safe : Safe read_u8
read_u8-Safe r v = Atomic-After _ v (read_u8-Atomic v)

pub read_u32-Safe : Safe read_u32
read_u32-Safe r v = Atomic-After _ v (read_u32-Atomic v)

pub read_u64-Safe : Safe read_u64
read_u64-Safe r v = Atomic-After _ v (read_u64-Atomic v)

pub align_to_4-Safe : Safe align_to_4
align_to_4-Safe r v = Atomic-After _ v (align_to_4-Atomic v)

pub read_nul_terminated-Safe : Safe read_nul_terminated
read_nul_terminated-Safe r v = Atomic-After _ v (read_nul_terminated-Atomic v)

module _ {A B E : Type 0} where
  After-and_then :
      {r : Reader} (x : Result A E × Reader) (f : A → ReadM B E)
      → After r x
      → ((a : A) → Safe (f a))
      → After r (and_then x f)
  After-and_then (ok a, r') f h k =
      let k' = k a r' h.valid in
      record {
        ends = k'.ends;
        valid = k'.valid;
        same = k'.same ∙ h.same;
        forward = omega (arith, h.forward, k'.forward);
      }
  After-and_then (err e, r') f h k = record {
    ends = tt;
    valid = h.valid;
    same = h.same;
    forward = h.forward;
  }
  After-and_then (fault x, r') f h k = absurd h.ends

  pub >>=-Safe :
      {m : ReadM A E} {f : A → ReadM B E} → Safe m → ((a : A) → Safe (f a)) → Safe (m >>= f)
  >>=-Safe {m} {f} h k r v = After-and_then (m r) f (h r v) k

pub lift-Safe : {A E : Type 0} (x : Result A E) → Ends x → Safe (lift x)
lift-Safe x h r v = record { ends = h; valid = v; same = refl; forward = omega arith }

Ends-map_err : {A E F : Type 0} (f : E → F) (x : Result A E) → Ends x → Ends (map_err f x)
Ends-map_err f (ok a) h = tt
Ends-map_err f (err e) h = tt
Ends-map_err f (fault x) h = h

pub convert-Safe : {A E F : Type 0} (f : E → F) {m : ReadM A E} → Safe m → Safe (convert f m)
convert-Safe f {m} h r v =
    let a = h r v in
    record {
      ends = Ends-map_err f (m r).0 a.ends;
      valid = a.valid;
      same = a.same;
      forward = a.forward;
    }
