-- ===== src/Kernel/Image/Sound.antt =====
-- `parse` against the format of the image: it accepts just the encodings of images that fit.
use barebone_kernel.Base.{
  ℕ, ◌≤◌, ◌<◌, ◌≡◌, inl, inr, refl, sym, ap, ◌∙◌, subst, arith, Bytes, Bool, true, false,
  Bool-cases, [], ◌∷◌, leb, leb→le, length, take, drop, All, IsByte, IsU64, bytes_eq, bytes_eq-eq,
  bytes_eq_refl, from_le_bytes-to_le, Result, ok, err, fault,
}
use barebone_kernel.Kernel.Image.{
  Image, LoadError, missing_image, invalid_image, already_claimed, kernel_stack_allocation, memory,
  paging, magic, parse,
}
use barebone_kernel.Kernel.Image.Format.{
  encode, IsImage, checked-cases, base_of, entry_of, size_of, parse-fields, parse-short,
  parse-empty, encode-image_of,
}

-- What `parse` may return.
abbrev pub Parsed : {M P : Type 0} → Bytes → ℕ → Result Image (LoadError M P) → Type 0
Parsed bytes limit (ok i) = (bytes ≡ encode i) × IsImage limit i
Parsed bytes limit (err missing_image) = bytes ≡ []
Parsed bytes limit (err invalid_image) =
    ¬ (bytes ≡ []) × ((i : Image) → IsImage limit i → ¬ (bytes ≡ encode i))
Parsed bytes limit (err already_claimed) = ⊥
Parsed bytes limit (err kernel_stack_allocation) = ⊥
Parsed bytes limit (err (memory m)) = ⊥
Parsed bytes limit (err (paging p)) = ⊥
Parsed bytes limit (fault f) = ⊥

-- The fields of an encoded image.
fields-encode :
    (limit : ℕ) (i : Image)
    → IsU64 limit
    → IsImage limit i
    → (base_of (encode i) ≡ i.base)
      × (entry_of (encode i) ≡ i.entry)
      × (size_of (encode i) ≡ length i.bytes)
fields-encode limit i small is =
    let (up, u, k) = is.pages_fit in
    (
      from_le_bytes-to_le 8 i.base (omega (arith, small, u.not_below, k)),
      from_le_bytes-to_le 8 i.entry (omega (arith, small, u.not_below, k, is.entry_inside)),
      from_le_bytes-to_le 8 (length i.bytes) (omega (arith, small, u.not_below, k)),
    )

module _ (M P : Type 0) where
  -- The encoding of an image that can be mapped below a 64-bit limit is parsed to that image.
  pub parse-encode :
      (limit : ℕ) (i : Image)
      → IsU64 limit
      → IsImage limit i
      → parse {M = M} {P = P} (encode i) limit ≡ ok i
  parse-encode limit i small is =
      let f = fields-encode limit i small is in
      let accepted : bytes_eq (take 8 (encode i)) magic ≡ true = bytes_eq_refl magic in
      elim (checked-cases {M = M} {P = P} limit i.base i.entry (length i.bytes) i.bytes small) [
        | inr (e, no_image) ↦ absurd (no_image (refl, is))
        | inl (e, sized, is2) ↦
            parse-fields (encode i) limit (omega arith) ∙ rw (accepted, f.0, f.1, f.2) e
      ]

  refused-Parsed :
      (bytes : Bytes) (limit : ℕ)
      → IsU64 limit
      → 0 < length bytes
      → parse {M = M} {P = P} bytes limit ≡ err invalid_image
      → Parsed bytes limit (parse {M = M} {P = P} bytes limit)
  refused-Parsed bytes limit small some_bytes e = rw e (
    (λ none. omega (arith, some_bytes, ap length none)),
    λ i is same.
        differ i (parse {M = M} {P = P} bytes limit)
          (subst (λ b. parse {M = M} {P = P} b limit ≡ ok i) (sym same)
            (parse-encode limit i small is))
          e,
  )
    where
      differ : (i : Image) (r : Result Image (LoadError M P)) → r ≡ ok i → r ≡ err invalid_image → ⊥
      differ i r h k = cc

  -- On any bytes `parse` ends without a panic. It returns just the image whose encoding the bytes are
  -- and that can be mapped below the limit; it reports a missing image for no bytes, and an invalid
  -- image where the bytes encode no such image.
  pub parse-Parsed :
      (bytes : Bytes) (limit : ℕ)
      → All IsByte bytes
      → IsU64 limit
      → Parsed bytes limit (parse {M = M} {P = P} bytes limit)
  parse-Parsed bytes limit are small = elim (Bool-cases (leb 32 (length bytes))) [
    | inr short ↦ by_length bytes (ground arith)
    | inl enough ↦ by_magic (leb→le 32 (length bytes) enough) (bytes_eq (take 8 bytes) magic) refl
  ]
    where
      by_length : (bs : Bytes) → length bs < 32 → Parsed bs limit (parse {M = M} {P = P} bs limit)
      by_length [] short = rw (parse-empty {M = M} {P = P} limit) refl
      by_length (b ∷ bs) short =
          refused-Parsed (b ∷ bs) limit small (omega arith)
            (parse-short (b ∷ bs) limit short (omega arith))

      by_magic :
          32 ≤ length bytes
          → (accepted : Bool) → bytes_eq (take 8 bytes) magic ≡ accepted
          → Parsed bytes limit (parse {M = M} {P = P} bytes limit)
      by_magic enough false e =
          refused-Parsed bytes limit small (omega (arith, enough))
            (parse-fields bytes limit enough ∙ rw e refl)
      by_magic enough true e =
          elim (checked-cases {M = M} {P = P} limit (base_of bytes) (entry_of bytes) (size_of bytes)
            (drop 32 bytes) small) [
              | inr (f, no_image) ↦
                  refused-Parsed bytes limit small (omega (arith, enough))
                    (parse-fields bytes limit enough ∙ rw e f)
              | inl (f, sized, is) ↦
                  rw (parse-fields {M = M} {P = P} bytes limit enough, e, f)
                    (
                      encode-image_of bytes are enough (bytes_eq-eq (take 8 bytes) magic e) sized,
                      is,
                    )
            ]
