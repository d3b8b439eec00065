-- ===== src/Base/Lists.antt =====
-- Slices as lists, measured and indexed by native numbers, under the library's names.
use Prim.Native.Nat.{ℕ, zero, suc, ◌+◌, ◌-◌, ◌≤◌, min}
use mathlib.Core.Path.{◌≡◌, refl, sym, ap, ◌∙◌}
use mathlib.Core.Bool.{◌&&◌}
use mathlib.Core.List.{List, [], ◌∷◌, ◌++◌}
use mathlib.Core.Option.{Option, none, some}
use native.Mathlib.Omega.{arith}
use barebone_kernel.Base.Tests.{leb, if◌then◌else◌}

module _ {ℓ} {A : Type ℓ} where
  abbrev pub length : List A → ℕ
  length [] = 0
  length (x ∷ xs) = suc (length xs)

  abbrev pub take : ℕ → List A → List A
  take zero xs = []
  take (suc n) [] = []
  take (suc n) (x ∷ xs) = x ∷ take n xs

  abbrev pub drop : ℕ → List A → List A
  drop zero xs = xs
  drop (suc n) [] = []
  drop (suc n) (x ∷ xs) = drop n xs

  abbrev pub get_elem? : List A → ℕ → Option A
  get_elem? [] i = none
  get_elem? (x ∷ xs) zero = some x
  get_elem? (x ∷ xs) (suc i) = get_elem? xs i

  -- Every element satisfies `P`.
  abbrev pub All {κ} : (A → Type κ) → List A → Type κ
  All P [] = Unit {κ}
  All P (x ∷ xs) = P x × All P xs

module _ {ℓ} {A : Type ℓ} where
  -- `xs.get(start..end)`
  abbrev pub slice? : List A → ℕ → ℕ → Option (List A)
  slice? xs start end =
      if leb start end && leb end (length xs)
      then some (take (end - start) (drop start xs))
      else none

  pub length-append : (xs ys : List A) → length (xs ++ ys) ≡ length xs + length ys
  length-append [] ys = omega arith
  length-append (x ∷ xs) ys = omega (arith, length-append xs ys)

  pub length-take : (n : ℕ) (xs : List A) → length (take n xs) ≡ min n (length xs)
  length-take zero xs = omega arith
  length-take (suc n) [] = omega arith
  length-take (suc n) (x ∷ xs) = omega (arith, length-take n xs)

  pub length-drop : (n : ℕ) (xs : List A) → length (drop n xs) ≡ length xs - n
  length-drop zero xs = omega arith
  length-drop (suc n) [] = omega arith
  length-drop (suc n) (x ∷ xs) = omega (arith, length-drop n xs)

  pub take-append-drop : (n : ℕ) (xs : List A) → take n xs ++ drop n xs ≡ xs
  take-append-drop zero xs = refl
  take-append-drop (suc n) [] = refl
  take-append-drop (suc n) (x ∷ xs) = ap (◌∷◌ x) (take-append-drop n xs)

  pub drop-nil : (n : ℕ) → drop {A = A} n [] ≡ []
  drop-nil zero = refl
  drop-nil (suc n) = refl

suc_add_swap : (a b : ℕ) → suc (a + b) ≡ suc a + b
suc_add_swap a b = omega arith

zero_add_swap : (b : ℕ) → b ≡ 0 + b
zero_add_swap b = omega arith

module _ {ℓ} {A : Type ℓ} where
  pub drop-drop : (m n : ℕ) (xs : List A) → drop n (drop m xs) ≡ drop (m + n) xs
  drop-drop zero n xs = ap (λ (k : ℕ). drop k xs) (zero_add_swap n)
  drop-drop (suc m) n [] = drop-nil n ∙ sym (drop-nil (suc m + n))
  drop-drop (suc m) n (x ∷ xs) =
      drop-drop m n xs ∙ ap (λ (k : ℕ). drop k (x ∷ xs)) (suc_add_swap m n)

module _ {ℓ} {A : Type ℓ} where
  pub take-length : (xs : List A) → take (length xs) xs ≡ xs
  take-length [] = refl
  take-length (x ∷ xs) = ap (◌∷◌ x) (take-length xs)

  pub take-append : (xs ys : List A) → take (length xs) (xs ++ ys) ≡ xs
  take-append [] ys = refl
  take-append (x ∷ xs) ys = ap (◌∷◌ x) (take-append xs ys)

  pub drop-append : (xs ys : List A) → drop (length xs) (xs ++ ys) ≡ ys
  drop-append [] ys = refl
  drop-append (x ∷ xs) ys = drop-append xs ys

  pub All-take {κ} : (P : A → Type κ) (n : ℕ) (xs : List A) → All P xs → All P (take n xs)
  All-take P zero xs h = tt
  All-take P (suc n) [] h = tt
  All-take P (suc n) (x ∷ xs) h = (h.0, All-take P n xs h.1)

  pub All-drop {κ} : (P : A → Type κ) (n : ℕ) (xs : List A) → All P xs → All P (drop n xs)
  All-drop P zero xs h = h
  All-drop P (suc n) [] h = tt
  All-drop P (suc n) (x ∷ xs) h = All-drop P n xs h.1

  pub All-append {κ} : (P : A → Type κ) (xs ys : List A) → All P xs → All P ys → All P (xs ++ ys)
  All-append P [] ys h k = k
  All-append P (x ∷ xs) ys h k = (h.0, All-append P xs ys h.1 k)

  take-nil : (n : ℕ) → take {A = A} n [] ≡ []
  take-nil zero = refl
  take-nil (suc n) = refl

  pub take-take : (m n : ℕ) (xs : List A) → m ≤ n → take m (take n xs) ≡ take m xs
  take-take zero n xs h = refl
  take-take (suc m) zero xs h = absurd (omega arith)
  take-take (suc m) (suc n) [] h = refl
  take-take (suc m) (suc n) (x ∷ xs) h = ap (◌∷◌ x) (take-take m n xs (omega arith))

  pub drop-take : (m n : ℕ) (xs : List A) → drop m (take (m + n) xs) ≡ take n (drop m xs)
  drop-take zero n xs = ap (λ (k : ℕ). take k xs) (sym (zero_add_swap n))
  drop-take (suc m) n [] =
      ap (λ (k : ℕ). drop (suc m) (take k [])) (sym (suc_add_swap m n)) ∙ sym (take-nil n)
  drop-take (suc m) n (x ∷ xs) =
      ap (λ (k : ℕ). drop (suc m) (take k (x ∷ xs))) (sym (suc_add_swap m n)) ∙ drop-take m n xs
