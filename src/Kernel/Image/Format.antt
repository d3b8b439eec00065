-- ===== src/Kernel/Image/Format.antt =====
-- The format of an image, and the fields that `parse` reads from the bytes.
use barebone_kernel.Base.{
  ℕ, ◌+◌, ◌-◌, ◌%◌, ◌^◌, ◌≤◌, ◌<◌, ◌≡◌, ◌⊎◌, inl, inr, refl, sym, ap, ◌∙◌, subst, arith, Bytes,
  true, false, Bool-cases, ◌&&◌, not, [], ◌++◌, some, if◌then◌else◌, ◌==◌, leb, ltb, length,
  length-take, length-drop, take, drop, drop-drop, take-append-drop, take-take, drop-take,
  take-length, All, All-take, All-drop, IsByte, IsU64, bytes_eq, from_le_bytes, to_le,
  to_le-from_le_bytes, ok, err,
}
use barebone_kernel.Kernel.Memory.Align.{IsAlignedUp}
use barebone_kernel.Kernel.Heap.{mask_down}
use barebone_kernel.Kernel.Image.{
  Image, missing_image, invalid_image, magic, field, is_inconsistent, checked, parse,
}

-- The format: the magic bytes, the load address, the entry and the length, then the payload.
abbrev pub encode : Image → Bytes
encode i = magic ++ (to_le 8 i.base ++ (to_le 8 i.entry ++ (to_le 8 (length i.bytes) ++ i.bytes)))

-- An image that can be mapped below `limit`.
pub record IsImage (limit : ℕ) (i : Image) : Type 0 where
  pub has_payload : 0 < length i.bytes
  pub not_null_page : 4096 ≤ i.base
  pub page_aligned : i.base % 4096 ≡ 0
  pub entry_not_below : i.base ≤ i.entry
  pub entry_inside : i.entry < i.base + length i.bytes
  pub entry_aligned : i.entry % 2 ≡ 0
  pub pages_fit : (up : ℕ) × IsAlignedUp (i.base + length i.bytes) up × (up ≤ limit)

module _ {M P : Type 0} where
  pub checked-cases :
      (limit base entry size : ℕ) (payload : Bytes)
      → IsU64 limit
      → (checked {M = M} {P = P} limit base entry size payload
            ≡ ok (record { base = base; entry = entry; bytes = payload }))
          × (size ≡ length payload)
          × IsImage limit (record { base = base; entry = entry; bytes = payload })
        ⊎ (checked {M = M} {P = P} limit base entry size payload ≡ err invalid_image)
          × ¬ (
              (size ≡ length payload)
              × IsImage limit (record { base = base; entry = entry; bytes = payload }))
  unfolding checked
  checked-cases limit base entry size payload small =
      elim (Bool-cases (ltb (base + size) (2 ^ 64))) [
        | inr big ↦ inr (rw big refl, λ h. by_fit h.0 h.1 λ up u k. ground arith)
        | inl e ↦ elim (Bool-cases (ltb (base + size + 4095) (2 ^ 64))) [
          | inr big ↦ inr (rw (e, big) refl, λ h. by_fit h.0 h.1 λ up u k. ground arith)
          | inl f ↦
              elim (Bool-cases (
                is_inconsistent base entry size (length payload) (base + size)
                  (mask_down (base + size + 4095) 4096) limit)) [
                    | inl bad ↦
                        inr (rw (e, f, bad) refl, λ h. by_fit h.0 h.1 λ up u k. ground (arith, h.1))
                    | inr good ↦ inl (
                      rw (e, f, good) refl,
                      ground arith,
                      record {
                        has_payload = ground arith;
                        not_null_page = ground arith;
                        page_aligned = ground arith;
                        entry_not_below = ground arith;
                        entry_inside = ground arith;
                        entry_aligned = ground arith;
                        pages_fit = (
                          mask_down (base + size + 4095) 4096,
                          record {
                            not_below = ground arith;
                            aligned = omega arith;
                            least = ground arith;
                          },
                          ground arith,
                        );
                      },
                    )
                  ]
        ]
      ]
    where
      by_fit :
          size ≡ length payload
          → IsImage limit (record { base = base; entry = entry; bytes = payload })
          → ((up : ℕ) → IsAlignedUp (base + size) up → up ≤ limit → ⊥)
          → ⊥
      by_fit same is go_on =
          let (up, u, k) = is.pages_fit in
          go_on up
            (record {
              not_below = omega (arith, same, u.not_below);
              aligned = u.aligned;
              least = omega (arith, same, u.least);
            })
            k

field-take :
    (bytes : Bytes) (start : ℕ)
    → start + 8 ≤ 32
    → 32 ≤ length bytes
    → field (take 32 bytes) start ≡ some (from_le_bytes (take 8 (drop start bytes)))
field-take bytes start inside enough =
    let fits : leb start (start + 8) && leb (start + 8) (length (take 32 bytes)) ≡ true =
      ground (arith, length-take 32 bytes) in
    let width : start + 8 - start ≡ 8 = omega arith in
    let whole : start + (32 - start) ≡ 32 = omega (arith, inside) in
    let within : drop start (take 32 bytes) ≡ take (32 - start) (drop start bytes) =
      subst (λ n. drop start (take n bytes) ≡ take (32 - start) (drop start bytes)) whole
        (drop-take start (32 - start) bytes) in
    rw (fits, width, within, take-take 8 (32 - start) (drop start bytes) (omega (arith, inside)))
      refl

-- The fields of the header, as they stand in the bytes.
abbrev pub base_of : Bytes → ℕ
base_of bytes = from_le_bytes (take 8 (drop 8 bytes))

abbrev pub entry_of : Bytes → ℕ
entry_of bytes = from_le_bytes (take 8 (drop 16 bytes))

abbrev pub size_of : Bytes → ℕ
size_of bytes = from_le_bytes (take 8 (drop 24 bytes))

module _ {M P : Type 0} where
  pub parse-fields :
      (bytes : Bytes) (limit : ℕ)
      → 32 ≤ length bytes
      → parse {M = M} {P = P} bytes limit ≡ (
          if not (bytes_eq (take 8 bytes) magic)
          then err invalid_image
          else checked limit (base_of bytes) (entry_of bytes) (size_of bytes) (drop 32 bytes))
  unfolding parse
  parse-fields bytes limit enough =
      let some_bytes : length bytes == 0 ≡ false = ground arith in
      let has_header : leb 32 (length bytes) ≡ true = ground arith in
      let no_more : leb (length bytes) (length bytes) ≡ true = ground arith in
      let rest_is : take (length bytes - 32) (drop 32 bytes) ≡ drop 32 bytes =
        ap (λ n. take n (drop 32 bytes)) (sym (length-drop 32 bytes))
        ∙ take-length (drop 32 bytes) in
      rw
        (
          some_bytes,
          has_header,
          take-take 8 32 bytes (omega arith),
          field-take bytes 8 (omega arith) enough,
          field-take bytes 16 (omega arith) enough,
          field-take bytes 24 (omega arith) enough,
          no_more,
          rest_is,
        )
        refl

  pub parse-short :
      (bytes : Bytes) (limit : ℕ)
      → length bytes < 32
      → 0 < length bytes
      → parse {M = M} {P = P} bytes limit ≡ err invalid_image
  unfolding parse
  parse-short bytes limit short some_bytes = ground arith

digits :
    (bytes : Bytes) (start : ℕ)
    → All IsByte bytes
    → start + 8 ≤ length bytes
    → to_le 8 (from_le_bytes (take 8 (drop start bytes))) ≡ take 8 (drop start bytes)
digits bytes start are enough =
    let eight : length (take 8 (drop start bytes)) ≡ 8 =
      omega (arith, length-take 8 (drop start bytes), length-drop start bytes) in
    subst (λ n. to_le n (from_le_bytes (take 8 (drop start bytes))) ≡ take 8 (drop start bytes))
      eight
      (to_le-from_le_bytes (take 8 (drop start bytes))
        (All-take IsByte 8 (drop start bytes) (All-drop IsByte start bytes are)))

chunk :
    (bytes : Bytes) (start : ℕ)
    → drop start bytes ≡ take 8 (drop start bytes) ++ drop (start + 8) bytes
chunk bytes start =
    sym (take-append-drop 8 (drop start bytes))
    ∙ ap (λ r. take 8 (drop start bytes) ++ r) (drop-drop start 8 bytes)

abbrev image_of : Bytes → Image
image_of bytes = record { base = base_of bytes; entry = entry_of bytes; bytes = drop 32 bytes }

-- The five parts of an image.
abbrev join : Bytes → Bytes → Bytes → Bytes → Bytes → Bytes
join m b e s rest = m ++ (b ++ (e ++ (s ++ rest)))

pub encode-image_of :
    (bytes : Bytes)
    → All IsByte bytes
    → 32 ≤ length bytes
    → take 8 bytes ≡ magic
    → size_of bytes ≡ length (drop 32 bytes)
    → bytes ≡ encode (image_of bytes)
encode-image_of bytes are enough is_magic sized =
    let parts : bytes
        ≡ join (take 8 bytes) (take 8 (drop 8 bytes)) (take 8 (drop 16 bytes))
            (take 8 (drop 24 bytes)) (drop 32 bytes) =
      chunk bytes 0
      ∙ ap (λ r. take 8 bytes ++ r)
          (chunk bytes 8
            ∙ ap (λ r. take 8 (drop 8 bytes) ++ r)
                (chunk bytes 16 ∙ ap (λ r. take 8 (drop 16 bytes) ++ r) (chunk bytes 24))) in
    parts
    ∙ ap
        (λ m.
          join m (take 8 (drop 8 bytes)) (take 8 (drop 16 bytes)) (take 8 (drop 24 bytes))
            (drop 32 bytes))
        is_magic
    ∙ ap (λ b. join magic b (take 8 (drop 16 bytes)) (take 8 (drop 24 bytes)) (drop 32 bytes))
        (sym (digits bytes 8 are (omega (arith, enough))))
    ∙ ap (λ e. join magic (to_le 8 (base_of bytes)) e (take 8 (drop 24 bytes)) (drop 32 bytes))
        (sym (digits bytes 16 are (omega (arith, enough))))
    ∙ ap (λ s. join magic (to_le 8 (base_of bytes)) (to_le 8 (entry_of bytes)) s (drop 32 bytes))
        (sym (digits bytes 24 are (omega (arith, enough))) ∙ ap (to_le 8) sized)

pub parse-empty : {M P : Type 0} (limit : ℕ) → parse {M = M} {P = P} [] limit ≡ err missing_image
unfolding parse
parse-empty limit = refl
