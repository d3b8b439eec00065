-- ===== src/Fdt/Strings/Names.antt =====
-- `validate_property_name` accepts exactly the names that the Devicetree Specification permits.
use barebone_kernel.Base.{
  ℕ, ◌≤◌, ◌<◌, ◌^◌, ◌≡◌, ◌⊎◌, inl, inr, refl, ap, arith, [], ◌∷◌, ◌++◌, All, All-drop, true, false,
  Bool-cases, Bytes, IsByte, length, length-drop, drop, Result, ok, err, fault, IsLetter, IsDigit,
  find_from-cases, find_from-none, NoneOf, none, some, leb, ◌&&◌,
}
use barebone_kernel.Fdt.Reader
use barebone_kernel.Fdt.Reader.{Reader, IsValid, read_nul_terminated, missing_nul_terminator}
use barebone_kernel.Fdt.Reader.Cursor.{
  NoNul, position_of_nul-cases, read_nul_terminated-ok, read_nul_terminated-err,
}
use barebone_kernel.Fdt.Strings.{
  PropertyNameError, offset_out_of_bounds, unterminated, invalid_length, invalid_character,
  is_invalid, tail_from, validate_name, validate_tail, validate_property_name,
}

-- The characters that the specification permits in property names.
abbrev pub IsNameChar : ℕ → Type 0
IsNameChar b =
    IsDigit b
    ⊎ IsLetter b
    ⊎ (b ≡ b',')
    ⊎ (b ≡ b'.')
    ⊎ (b ≡ b'_')
    ⊎ (b ≡ b'+')
    ⊎ (b ≡ b'?')
    ⊎ (b ≡ b'#')
    ⊎ (b ≡ b'-')

is_invalid-false : (b : ℕ) → is_invalid b ≡ false → IsNameChar b
is_invalid-false b h = ground arith

IsNameChar-is_invalid : (b : ℕ) → IsNameChar b → is_invalid b ≡ false
IsNameChar-is_invalid b h = ground arith

All-valid : (bs : Bytes) → NoneOf is_invalid bs → All IsNameChar bs
All-valid [] h = tt
All-valid (b ∷ bs) h = (is_invalid-false b h.0, All-valid bs h.1)

none_invalid : (bs : Bytes) → All IsNameChar bs → NoneOf is_invalid bs
none_invalid [] h = tt
none_invalid (b ∷ bs) h = (IsNameChar-is_invalid b h.0, none_invalid bs h.1)

no_nul : (bs : Bytes) → All IsNameChar bs → NoNul bs
no_nul [] h = tt
no_nul (b ∷ bs) h = (ground arith, no_nul bs h.1)

pub record IsPropertyName (name : Bytes) : Type 0 where
  pub not_empty : 1 ≤ length name
  pub at_most_31 : length name ≤ 31
  pub characters : All IsNameChar name

-- The terminated bytes at `offset` in the strings block are `name`.
abbrev pub NameAt : Bytes → ℕ → Bytes → Type 0
NameAt strings offset name =
    (offset < length strings) × ((rest : Bytes) × (drop offset strings ≡ name ++ 0 ∷ rest))

abbrev pub Named : Bytes → ℕ → Result Bytes PropertyNameError → Type 0
Named strings offset (ok name) = IsPropertyName name × NameAt strings offset name
Named strings offset (err (offset_out_of_bounds at size)) =
    (at ≡ offset) × (size ≡ length strings) × (length strings ≤ offset)
Named strings offset (err (unterminated at)) =
    (at ≡ offset) × (offset < length strings) × NoNul (drop offset strings)
Named strings offset (err (invalid_length at n)) =
    (at ≡ offset)
    × ((name : Bytes) × NoNul name
        × NameAt strings offset name
        × (n ≡ length name)
        × ((n ≡ 0) ⊎ (31 < n)))
Named strings offset (err (invalid_character at index byte)) =
    (at ≡ offset)
    × ((before : Bytes) × (after : Bytes) × NameAt strings offset (before ++ byte ∷ after)
        × All IsNameChar before
        × (index ≡ length before)
        × ¬ (IsNameChar byte))
Named strings offset (fault f) = ⊥

tail_from-cases :
    (strings : Bytes) (offset : ℕ)
    → (length strings ≤ offset) × (tail_from strings offset ≡ none)
      ⊎ (offset < length strings) × (tail_from strings offset ≡ some (drop offset strings))
unfolding tail_from
tail_from-cases strings offset = by_tail (drop offset strings) refl
  where
    by_tail :
        (bs : Bytes)
        → drop offset strings ≡ bs
        → (length strings ≤ offset) × (tail_from strings offset ≡ none)
          ⊎ (offset < length strings) × (tail_from strings offset ≡ some (drop offset strings))
    by_tail [] e = inl (omega (arith, length-drop offset strings, ap length e), ground (arith, e))
    by_tail (b ∷ bs) e = inr (
      omega (arith, length-drop offset strings, ap length e),
      ground (arith, e, length-drop offset strings, ap length e),
    )

validate_name-Named :
    (strings : Bytes) (offset : ℕ) (name : Bytes)
    → NoNul name
    → NameAt strings offset name
    → Named strings offset (validate_name offset name)
unfolding validate_name
validate_name-Named strings offset name nn at =
    elim (Bool-cases (leb 1 (length name) && leb (length name) 31)) [
      | inr out ↦ rw out (refl, (name, nn, at, refl, ground arith))
      | inl in_range ↦ elim (find_from-cases is_invalid 0 name) [
        | inl (e, valid) ↦
            rw (in_range, e)
              (
                record {
                  not_empty = ground arith;
                  at_most_31 = ground arith;
                  characters = All-valid name valid;
                },
                at,
              )
        | inr (before, b, after, split, valid, hit, e) ↦
            rw (in_range, e)
              (
                refl,
                (
                  before,
                  after,
                  rw split at at,
                  All-valid before valid,
                  omega arith,
                  λ h. cc (hit, IsNameChar-is_invalid b h),
                ),
              )
      ]
    ]

tail-IsValid :
    (strings : Bytes) (offset : ℕ)
    → All IsByte strings
    → length strings < 2 ^ 63
    → IsValid (Reader.new (drop offset strings))
tail-IsValid strings offset h k = record {
  in_bounds = omega arith;
  small = omega (arith, length-drop offset strings);
  are_bytes = All-drop IsByte offset strings h;
}

validate_tail-Named :
    (strings : Bytes) (offset : ℕ)
    → All IsByte strings
    → length strings < 2 ^ 63
    → offset < length strings
    → Named strings offset (validate_tail strings offset (some (drop offset strings)))
unfolding validate_tail
validate_tail-Named strings offset h k within =
    let v = tail-IsValid strings offset h k in
    elim (position_of_nul-cases (drop offset strings)) [
      | inl (none_at_all, e) ↦
          rw (read_nul_terminated-err v none_at_all) (refl, within, none_at_all)
      | inr (name, rest, split, nn, e) ↦
          rw (read_nul_terminated-ok name rest v nn split)
            (validate_name-Named strings offset name nn (within, (rest, split)))
    ]

-- On a strings block, `validate_property_name` ends without a panic. A name that it returns stands
-- at the offset, up to the first NUL, has 1 to 31 bytes and only permitted characters. An error is
-- true of the block: the offset lies outside it; no NUL follows the offset; the name there is empty
-- or longer than 31 bytes; or the byte at the reported index is the first that is not permitted.
pub validate_property_name-Named :
    (strings : Bytes) (offset : ℕ)
    → All IsByte strings
    → length strings < 2 ^ 63
    → Named strings offset (validate_property_name strings offset)
unfolding validate_property_name
validate_property_name-Named strings offset h k = elim (tail_from-cases strings offset) [
  | inl (out, e) ↦ rw e (unfold validate_tail in (refl, refl, out))
  | inr (within, e) ↦ rw e (validate_tail-Named strings offset h k within)
]

validate_name-ok :
    (offset : ℕ) (name : Bytes) → IsPropertyName name → validate_name offset name ≡ ok name
unfolding validate_name
validate_name-ok offset name p = rw (
  ground_range name p.not_empty p.at_most_31,
  find_from-none is_invalid 0 name (none_invalid name p.characters),
)
  where
    ground_range :
        (bs : Bytes)
        → 1 ≤ length bs
        → length bs ≤ 31
        → (leb 1 (length bs) && leb (length bs) 31) ≡ true
    ground_range bs lo hi = ground arith

-- Conversely, a permitted name that stands at the offset with a NUL behind it is returned.
pub validate_property_name-ok :
    (strings : Bytes) (offset : ℕ) (name : Bytes)
    → All IsByte strings
    → length strings < 2 ^ 63
    → IsPropertyName name
    → NameAt strings offset name
    → validate_property_name strings offset ≡ ok name
unfolding validate_property_name validate_tail
validate_property_name-ok strings offset name h k p (within, (rest, split)) =
    elim (tail_from-cases strings offset) [
      | inl (out, e) ↦ absurd (omega arith)
      | inr (_, e) ↦
          let v = tail-IsValid strings offset h k in
          rw e (
            rw (read_nul_terminated-ok name rest v (no_nul name p.characters) split)
              (validate_name-ok offset name p))
    ]
