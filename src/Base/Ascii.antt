-- ===== src/Base/Ascii.antt =====
-- The tests of `u8` on ASCII classes, searches in byte slices, and what they find.
use Prim.Native.Nat.{ℕ, ◌+◌, ◌≤◌}
use mathlib.Core.Path.{◌≡◌, refl, ap, ◌∙◌}
use mathlib.Core.Logic.{◌⊎◌, inl, inr}
use mathlib.Core.Bool.{Bool, true, false, ◌&&◌, ◌||◌}
use mathlib.Core.Option.{Option, none, some}
use mathlib.Core.List.{[], ◌∷◌, ◌++◌}
use native.Mathlib.Omega.{arith}
use barebone_kernel.Base.Tests.{leb, ◌==◌, if◌then◌else◌, Bool-cases}
use barebone_kernel.Base.Lists.{length, All}
use barebone_kernel.Base.Words.{Bytes}

abbrev pub within : ℕ → ℕ → ℕ → Bool
within lo hi b = leb lo b && leb b hi

-- `byte.is_ascii_alphabetic()`
abbrev pub is_ascii_alphabetic : ℕ → Bool
is_ascii_alphabetic b = within b'a' b'z' b || within b'A' b'Z' b

-- `byte.is_ascii_alphanumeric()`
abbrev pub is_ascii_alphanumeric : ℕ → Bool
is_ascii_alphanumeric b = within b'0' b'9' b || is_ascii_alphabetic b

-- Letters, in the order of ASCII.
abbrev pub IsLetter : ℕ → Type 0
IsLetter b = (b'A' ≤ b) × (b ≤ b'Z') ⊎ (b'a' ≤ b) × (b ≤ b'z')

abbrev pub IsDigit : ℕ → Type 0
IsDigit b = (b'0' ≤ b) × (b ≤ b'9')

-- `bytes.iter().copied().enumerate().find(|&(_, byte)| test(byte))`, from index `i` on
unfoldable pub find_from : (ℕ → Bool) → ℕ → Bytes → Option (ℕ × ℕ)
find_from test i [] = none
find_from test i (b ∷ bs) = if test b then some (i, b) else find_from test (i + 1) bs

abbrev pub find : (ℕ → Bool) → Bytes → Option (ℕ × ℕ)
find test bs = find_from test 0 bs

-- Bytes that are equal, as Rust's `==` on slices.
unfoldable pub bytes_eq : Bytes → Bytes → Bool
bytes_eq [] [] = true
bytes_eq (a ∷ as') (b ∷ bs) = a == b && bytes_eq as' bs
bytes_eq _ _ = false

-- `test` fails on all bytes of `bs`.
abbrev pub NoneOf : (ℕ → Bool) → Bytes → Type 0
NoneOf test = All (λ b. test b ≡ false)

-- The search finds nothing, or the first byte on which the test holds, with its index.
pub find_from-cases :
    (test : ℕ → Bool) (i : ℕ) (bs : Bytes)
    → (find_from test i bs ≡ none) × NoneOf test bs
      ⊎ ((before : Bytes) × (b : ℕ) × (after : Bytes) × (bs ≡ before ++ b ∷ after)
          × NoneOf test before
          × (test b ≡ true)
          × (find_from test i bs ≡ some (i + length before, b)))
unfolding find_from
find_from-cases test i [] = inl (refl, tt)
find_from-cases test i (b ∷ bs) = elim (Bool-cases (test b)) [
  | inl hit ↦ inr ([], b, bs, refl, tt, hit, rw hit (ap (λ (n : ℕ). some (n, b)) (omega arith)))
  | inr miss ↦ elim (find_from-cases test (i + 1) bs) [
    | inl (e, h) ↦ inl (rw miss e, (miss, h))
    | inr (before, c, after, split, h, hit, e) ↦ inr (
      b ∷ before,
      c,
      after,
      ap (◌∷◌ b) split,
      (miss, h),
      hit,
      rw miss (e ∙ ap (λ (n : ℕ). some (n, c)) (omega arith)),
    )
  ]
]

pub find_from-none :
    (test : ℕ → Bool) (i : ℕ) (bs : Bytes) → NoneOf test bs → find_from test i bs ≡ none
unfolding find_from
find_from-none test i [] h = refl
find_from-none test i (b ∷ bs) h = rw h.0 (find_from-none test (i + 1) bs h.1)

pub bytes_eq_refl : (bs : Bytes) → bytes_eq bs bs ≡ true
unfolding bytes_eq
bytes_eq_refl [] = refl
bytes_eq_refl (b ∷ bs) = ground (arith, bytes_eq_refl bs)

pub bytes_eq-eq : (as' bs : Bytes) → bytes_eq as' bs ≡ true → as' ≡ bs
unfolding bytes_eq
bytes_eq-eq [] [] h = refl
bytes_eq-eq (a ∷ as') (b ∷ bs) h = ground (arith, bytes_eq-eq as' bs)
bytes_eq-eq [] (b ∷ bs) h = cc
bytes_eq-eq (a ∷ as') [] h = cc
