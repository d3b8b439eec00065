-- ===== src/Base/Outcome.antt =====
-- Rust's `Result`, with the two ways in which a run has no value: a panic (a failed `expect`, an
-- index out of range, `unreachable!`), and the end of the fuel of a modelled loop.
use mathlib.Core.Path.{◌≡◌, refl}
use mathlib.Core.Logic.{◌⊎◌, inl, inr}
use mathlib.Core.Bool.{Bool, true, false}
use mathlib.Core.Option.{Option, none, some}

pub data Fault : Type 0 where
  panicked out_of_fuel : Fault

pub data Result {ℓ κ} (A : Type ℓ) (E : Type κ) : Type (ℓ ⊔ κ) where
  ok : A → Result A E
  err : E → Result A E
  fault : Fault → Result A E

module _ {ℓ κ} {A : Type ℓ} {E : Type κ} where
  -- The run ends with a value of `Result`: it neither panics nor runs out of fuel.
  abbrev pub Ends : Result A E → Type 0
  Ends (ok a) = Unit
  Ends (err e) = Unit
  Ends (fault f) = ⊥

  -- Partial and total correctness: an accepted run satisfies `P`.
  abbrev pub Accepts {μ} : (A → Type μ) → Result A E → Type μ
  Accepts P (ok a) = P a
  Accepts P (err e) = Unit
  Accepts P (fault f) = Unit

  pub Result-cases :
      (r : Result A E)
      → ((a : A) × (r ≡ ok a)) ⊎ ((e : E) × (r ≡ err e)) ⊎ ((f : Fault) × (r ≡ fault f))
  Result-cases (ok a) = inl (a, refl)
  Result-cases (err e) = inr (inl (e, refl))
  Result-cases (fault f) = inr (inr (f, refl))

  abbrev pub ok_or : Option A → E → Result A E
  ok_or none e = err e
  ok_or (some a) e = ok a

  abbrev pub expect : Option A → Result A E
  expect none = fault Fault.panicked
  expect (some a) = ok a

abbrev pub map_err {ℓ κ μ} :
    {A : Type ℓ} {E : Type κ} {F : Type μ} → (E → F) → Result A E → Result A F
map_err f (ok a) = ok a
map_err f (err e) = err (f e)
map_err f (fault x) = fault x

-- The `?` behind a call: what follows runs on the value of an `Ok` alone.
module _ {μ} {E : Type μ} where
  infixl 5 ◌>>=◌ ◌>>◌
  abbrev pub ◌>>=◌ {ℓ κ} : {A : Type ℓ} {B : Type κ} → Result A E → (A → Result B E) → Result B E
  fault x >>= next = fault x
  err e >>= next = err e
  ok a >>= next = next a

  abbrev pub ◌>>◌ {κ} : {B : Type κ} → Result (Unit {0}) E → Result B E → Result B E
  first >> then_do = first >>= λ done. then_do

-- `if !b { return Err(e) }`
abbrev pub check {κ} : {E : Type κ} → Bool → E → Result (Unit {0}) E
check true e = ok tt
check false e = err e
