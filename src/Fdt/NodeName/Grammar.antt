-- ===== src/Fdt/NodeName/Grammar.antt =====
-- `validate` accepts exactly the node names of the Devicetree Specification.
use barebone_kernel.Base.{
  ℕ, suc, ◌≤◌, ◌<◌, ◌≡◌, ◌⊎◌, ◌↔◌, inl, inr, refl, sym, ap, ◌∙◌, arith, [], ◌∷◌, ◌++◌, All, true,
  false, Bool-cases, Bytes, length, Result, ok, err, fault, IsLetter, IsDigit, find_from-cases,
  find_from-none, NoneOf, none, some, Option, ◌>>=◌, leb, is_ascii_alphabetic, ◌==◌, subst,
}
use barebone_kernel.Fdt.NodeName.{
  NodeNameError, invalid_length, invalid_first_character, invalid_character, empty_unit_address,
  invalid_unit_address_character, is_invalid, component, unit_address, check_component,
  check_unit_address, validate,
}

-- The characters that the specification permits in node names.
abbrev pub IsNodeChar : ℕ → Type 0
IsNodeChar b =
    IsDigit b ⊎ IsLetter b ⊎ (b ≡ b',') ⊎ (b ≡ b'.') ⊎ (b ≡ b'_') ⊎ (b ≡ b'+') ⊎ (b ≡ b'-')

abbrev pub StartsWithLetter : Bytes → Type 0
StartsWithLetter [] = ⊥
StartsWithLetter (b ∷ bs) = IsLetter b

pub record IsComponent (name : Bytes) : Type 0 where
  pub at_most_31 : length name ≤ 31
  pub starts_with_letter : StartsWithLetter name
  pub characters : All IsNodeChar name

-- A node name: a component alone, or with `@` and a unit address behind it.
pub data IsNodeName : Bytes → Type 0 where
  plain : {name : Bytes} → IsComponent name → IsNodeName name
  with_unit :
      {name full : Bytes} (unit : Bytes)
      → IsComponent name
      → 1 ≤ length unit
      → All IsNodeChar unit
      → full ≡ name ++ b'@' ∷ unit
      → IsNodeName full

is_invalid-false : (b : ℕ) → is_invalid b ≡ false → IsNodeChar b
is_invalid-false b h = ground arith

IsNodeChar-is_invalid : (b : ℕ) → IsNodeChar b → is_invalid b ≡ false
IsNodeChar-is_invalid b h = ground arith

All-valid : (bs : Bytes) → NoneOf is_invalid bs → All IsNodeChar bs
All-valid [] h = tt
All-valid (b ∷ bs) h = (is_invalid-false b h.0, All-valid bs h.1)

none_invalid : (bs : Bytes) → All IsNodeChar bs → NoneOf is_invalid bs
none_invalid [] h = tt
none_invalid (b ∷ bs) h = (IsNodeChar-is_invalid b h.0, none_invalid bs h.1)

-- `component` and `unit_address` cut the name at its first `@`.
pub split-cases :
    (name : Bytes)
    → (component name ≡ name) × (unit_address name ≡ none)
      ⊎ ((unit : Bytes) × (unit_address name ≡ some unit) × (name ≡ component name ++ b'@' ∷ unit))
unfolding component unit_address
split-cases [] = inl (refl, refl)
split-cases (b ∷ bs) = elim (Bool-cases (b == b'@')) [
  | inl hit ↦ inr (bs, rw hit, rw hit (ground arith))
  | inr miss ↦ elim (split-cases bs) [
    | inl (e, u) ↦ inl (rw miss (ap (◌∷◌ b) e), rw miss u)
    | inr (unit, u, e) ↦ inr (unit, rw miss u, rw miss (ap (◌∷◌ b) e))
  ]
]

pub component_plain :
    (name : Bytes) → All IsNodeChar name → (component name ≡ name) × (unit_address name ≡ none)
unfolding component unit_address
component_plain [] h = (refl, refl)
component_plain (b ∷ bs) h =
    (ground (arith, component_plain bs h.1), ground (arith, component_plain bs h.1))

pub component_with_unit :
    (name unit : Bytes)
    → All IsNodeChar name
    → (component (name ++ b'@' ∷ unit) ≡ name) × (unit_address (name ++ b'@' ∷ unit) ≡ some unit)
unfolding component unit_address
component_with_unit [] unit h = (refl, refl)
component_with_unit (b ∷ bs) unit h = (
  ground (arith, component_with_unit bs unit h.1),
  ground (arith, component_with_unit bs unit h.1),
)

IsLetter-is_ascii_alphabetic : (b : ℕ) → (is_ascii_alphabetic b ≡ true) ↔ IsLetter b
IsLetter-is_ascii_alphabetic b = (λ h. ground arith, λ h. ground arith)

check_component_iff : (name : Bytes) → (check_component name ≡ ok tt) ↔ IsComponent name
unfolding check_component
check_component_iff [] = (λ h. absurd (cc), λ c. absurd c.starts_with_letter)
check_component_iff (b ∷ bs) = elim (find_from-cases is_invalid 0 (b ∷ bs)) [
  | inl (e, valid) ↦ rw e (
    (λ h. record {
      at_most_31 = ground arith;
      starts_with_letter = ground (arith, IsLetter-is_ascii_alphabetic b);
      characters = All-valid (b ∷ bs) valid;
    }),
    λ c. ground (arith, c.at_most_31, (IsLetter-is_ascii_alphabetic b).1 c.starts_with_letter),
  )
  | inr (before, x, after, split, valid, hit, e) ↦ (
    (λ h. absurd (ground (arith, e))),
    λ c. ground (arith, find_from-none is_invalid 0 (b ∷ bs) (none_invalid (b ∷ bs) c.characters)),
  )
]

-- A unit address has at least one character, and only permitted ones.
abbrev IsUnit : Option Bytes → Type 0
IsUnit none = Unit
IsUnit (some unit) = (1 ≤ length unit) × All IsNodeChar unit

check_unit_address_iff : (unit : Option Bytes) → (check_unit_address unit ≡ ok tt) ↔ IsUnit unit
unfolding check_unit_address
check_unit_address_iff none = (λ h. tt, λ u. refl)
check_unit_address_iff (some []) = (λ h. absurd (cc), λ u. absurd (omega arith))
check_unit_address_iff (some (b ∷ bs)) = elim (find_from-cases is_invalid 0 (b ∷ bs)) [
  | inl (e, valid) ↦ rw e (λ h. (omega arith, All-valid (b ∷ bs) valid), λ u. refl)
  | inr (before, x, after, split, valid, hit, e) ↦ (
    (λ h. absurd (ground (arith, e))),
    λ u. rw (find_from-none is_invalid 0 (b ∷ bs) (none_invalid (b ∷ bs) u.1)),
  )
]

then_iff :
    (a b : Result (Unit {0}) NodeNameError) → ((a >>= λ _. b) ≡ ok tt) ↔ (a ≡ ok tt) × (b ≡ ok tt)
then_iff (ok tt) b = (λ h. (refl, h), λ h. h.1)
then_iff (err e) b = (λ h. absurd (cc), λ h. absurd (cc h.0))
then_iff (fault f) b = (λ h. absurd (cc), λ h. absurd (cc h.0))

parts-IsNodeName :
    (name : Bytes) → IsComponent (component name) → IsUnit (unit_address name) → IsNodeName name
parts-IsNodeName name c u = elim (split-cases name) [
  | inl (e, _) ↦ plain (subst IsComponent e c)
  | inr (unit, eu, e) ↦ let parts = subst IsUnit eu u in with_unit unit c parts.0 parts.1 e
]

IsNodeName-parts :
    {name : Bytes} → IsNodeName name → IsComponent (component name) × IsUnit (unit_address name)
IsNodeName-parts (plain {name} c) =
    let (ec, eu) = component_plain name c.characters in
    (subst IsComponent (sym ec) c, subst IsUnit (sym eu) tt)
IsNodeName-parts (with_unit {name} {full} unit c long chars e) =
    let (ec, eu) = component_with_unit name unit c.characters in
    (
      subst IsComponent (sym (ap component e ∙ ec)) c,
      subst IsUnit (sym (ap unit_address e ∙ eu)) (long, chars),
    )

-- `validate` accepts a name exactly when it is a node name of the specification: 1 to 31 permitted
-- characters that begin with a letter, alone, or with `@` and a non-empty run of permitted
-- characters behind them.
pub validate_iff : (name : Bytes) → (validate name ≡ ok tt) ↔ IsNodeName name
unfolding validate
validate_iff name = (
  (λ h.
      let (c, u) =
        (then_iff (check_component (component name)) (check_unit_address (unit_address name))).0
          h in
      parts-IsNodeName name ((check_component_iff (component name)).0 c)
        ((check_unit_address_iff (unit_address name)).0 u)),
  λ n.
      let (c, u) = IsNodeName-parts n in
      (then_iff (check_component (component name)) (check_unit_address (unit_address name))).1 (
        (check_component_iff (component name)).1 c,
        (check_unit_address_iff (unit_address name)).1 u,
      ),
)

-- What an error says of the name.
abbrev pub Blames : Bytes → Result (Unit {0}) NodeNameError → Type 0
Blames name (ok _) = Unit
Blames name (err (invalid_length n)) = (n ≡ length (component name)) × ((n ≡ 0) ⊎ (31 < n))
Blames name (err (invalid_first_character b)) =
    (rest : Bytes) × (component name ≡ b ∷ rest) × ¬ (IsLetter b)
Blames name (err (invalid_character index b)) =
    (before : Bytes) × (after : Bytes) × (component name ≡ before ++ b ∷ after)
    × (index ≡ length before)
    × All IsNodeChar before
    × ¬ (IsNodeChar b)
Blames name (err empty_unit_address) = unit_address name ≡ some []
Blames name (err (invalid_unit_address_character index b)) =
    (before : Bytes) × (after : Bytes) × (unit_address name ≡ some (before ++ b ∷ after))
    × (index ≡ length before)
    × All IsNodeChar before
    × ¬ (IsNodeChar b)
Blames name (fault f) = ⊥

component-Blames :
    (name part : Bytes) (rest : Result (Unit {0}) NodeNameError)
    → component name ≡ part
    → Blames name rest
    → Blames name (check_component part >>= λ _. rest)
unfolding check_component
component-Blames name [] rest e h = (ap length (sym e), inl refl)
component-Blames name (b ∷ bs) rest e h = elim (Bool-cases (leb (suc (length bs)) 31)) [
  | inr long ↦ rw long (ap length (sym e), inr (ground arith))
  | inl short ↦ elim (Bool-cases (is_ascii_alphabetic b)) [
    | inr other ↦ rw (short, other) (bs, e, λ l. cc (other, (IsLetter-is_ascii_alphabetic b).1 l))
    | inl letter ↦ elim (find_from-cases is_invalid 0 (b ∷ bs)) [
      | inl (found, valid) ↦ rw (short, letter, found) h
      | inr (before, x, after, split, valid, hit, found) ↦
          rw (short, letter, found)
            (
              before,
              after,
              e ∙ split,
              omega arith,
              All-valid before valid,
              λ c. cc (hit, IsNodeChar-is_invalid x c),
            )
    ]
  ]
]

unit-Blames :
    (name : Bytes) (unit : Option Bytes)
    → unit_address name ≡ unit
    → Blames name (check_unit_address unit)
unfolding check_unit_address
unit-Blames name none e = tt
unit-Blames name (some []) e = e
unit-Blames name (some (b ∷ bs)) e = elim (find_from-cases is_invalid 0 (b ∷ bs)) [
  | inl (found, valid) ↦ rw found tt
  | inr (before, x, after, split, valid, hit, found) ↦ rw found (
    before,
    after,
    e ∙ ap some split,
    omega arith,
    All-valid before valid,
    λ c. cc (hit, IsNodeChar-is_invalid x c),
  )
]

-- `validate` never panics, and its error is true of the name: its component is empty or longer than
-- 31 bytes, or does not begin with a letter, or has its first character that is not permitted at the
-- reported index; or its unit address is empty, or has such a character there.
pub validate-Blames : (name : Bytes) → Blames name (validate name)
unfolding validate
validate-Blames name =
    component-Blames name (component name) (check_unit_address (unit_address name)) refl
      (unit-Blames name (unit_address name) refl)
