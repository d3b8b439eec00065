-- ===== src/Fdt/Header/Sound.antt =====
-- `Header::new` accepts exactly the encodings of well-formed fields.
use barebone_kernel.Base.{
  ℕ, zero, suc, ◌*◌, ◌≡◌, refl, sym, ap, ◌∙◌, arith, List, [], ◌∷◌, ◌++◌, Bytes, IsByte, IsU32, All,
  length, to_be_32, from_be_bytes, from_be_bytes-to_be_32, ok, err, Ends, ◌↔◌, inl, inr, Bool-cases,
  ==_iff, check, ◌>>=◌, true, false, Bool, ◌==◌, if◌then◌else◌,
}
use barebone_kernel.Fdt.Header.{
  Fields, Header, invalid_magic, fdt_magic, HeaderField, new, validate, decode, read_be_u32,
}
use barebone_kernel.Fdt.Header.Spec.{WellFormed, AreU32, header_of, encode}

validate-WellFormed :
    (f : Fields) {h : Header} → AreU32 f → validate f ≡ ok h → WellFormed f × (h ≡ header_of f)
unfolding validate
validate-WellFormed f u e = ground arith

WellFormed-validate : (f : Fields) → AreU32 f → WellFormed f → validate f ≡ ok (header_of f)
unfolding validate
WellFormed-validate f u w = ground arith

validate-Ends : (f : Fields) → AreU32 f → Ends (validate f)
unfolding validate
validate-Ends f u = ground arith

decode-encode : (f : Fields) (m : ℕ) → AreU32 f → decode (encode m f) ≡ ok f
unfolding decode read_be_u32 encode
decode-encode f m u = ground arith

-- Four bytes are the encoding of a 32-bit value.
split-IsU32 :
    (n : ℕ) (xs : Bytes)
    → All IsByte xs
    → length xs ≡ suc (suc (suc (suc n)))
    → (v : ℕ) × (rest : Bytes) × IsU32 v
      × (xs ≡ to_be_32 v ++ rest)
      × All IsByte rest
      × (length rest ≡ n)
split-IsU32 n (a ∷ b ∷ c ∷ d ∷ xs) h e =
    let v : ℕ = from_be_bytes (a ∷ b ∷ c ∷ d ∷ []) in
    (v, xs, omega arith, ground arith, h.1.1.1.1, omega arith)
split-IsU32 n (a ∷ b ∷ c ∷ []) h e = absurd (omega arith)
split-IsU32 n (a ∷ b ∷ []) h e = absurd (omega arith)
split-IsU32 n (a ∷ []) h e = absurd (omega arith)
split-IsU32 n [] h e = absurd (omega arith)

length-eq-zero {ℓ} : {A : Type ℓ} (xs : List A) → length xs ≡ 0 → xs ≡ []
length-eq-zero [] h = refl
length-eq-zero (x ∷ xs) h = absurd (omega arith)

abbrev encode_words : List ℕ → Bytes
encode_words [] = []
encode_words (v ∷ vs) = to_be_32 v ++ encode_words vs

to_words :
    (k : ℕ) (xs : Bytes)
    → All IsByte xs
    → length xs ≡ 4 * k
    → (vs : List ℕ) × (length vs ≡ k) × All IsU32 vs × (xs ≡ encode_words vs)
to_words zero xs h e = ([], refl, tt, length-eq-zero xs (omega arith))
to_words (suc k) xs h e =
    let (v, rest, u, ev, hr, lr) = split-IsU32 (4 * k) xs h (omega arith) in
    let (vs, lvs, us, evs) = to_words k rest hr lr in
    (v ∷ vs, ap suc lvs, (u, us), ev ∙ ap (λ (ys : Bytes). to_be_32 v ++ ys) evs)

-- Ten words are a magic value and nine fields.
ten_words :
    (vs : List ℕ)
    → length vs ≡ 10
    → All IsU32 vs
    → (m : ℕ) × (f : Fields) × IsU32 m × AreU32 f × (encode_words vs ≡ encode m f)
unfolding encode
ten_words (m ∷ t ∷ s ∷ n ∷ r ∷ d ∷ l ∷ b ∷ p ∷ q ∷ []) e
      (hm, (ht, (hs, (hn, (hr, (hd, (hl, (hb, (hp, (hq, _)))))))))) =
    (
      m,
      record {
        total = t;
        off_dt_struct = s;
        off_dt_strings = n;
        off_mem_rsvmap = r;
        declared_version = d;
        last_comp_version = l;
        boot_cpuid_phys = b;
        size_dt_strings = p;
        size_dt_struct = q;
      },
      hm,
      record {
        total_u32 = ht;
        off_dt_struct_u32 = hs;
        off_dt_strings_u32 = hn;
        off_mem_rsvmap_u32 = hr;
        declared_version_u32 = hd;
        last_comp_version_u32 = hl;
        boot_cpuid_phys_u32 = hb;
        size_dt_strings_u32 = hp;
        size_dt_struct_u32 = hq;
      },
      refl,
    )
ten_words _ e h = absurd (omega arith)

-- Any forty bytes are the encoding of a magic value and nine fields.
pub encode_surjective :
    (bytes : Bytes)
    → All IsByte bytes
    → length bytes ≡ 40
    → (m : ℕ) × (f : Fields) × IsU32 m × AreU32 f × (bytes ≡ encode m f)
encode_surjective bytes h e =
    let (vs, lvs, us, evs) = to_words 10 bytes h e in
    let (m, f, um, uf, ef) = ten_words vs lvs us in (m, f, um, uf, evs ∙ ef)

magic_read : (m : ℕ) (f : Fields) → IsU32 m → read_be_u32 (encode m f) HeaderField.magic ≡ ok m
unfolding read_be_u32 encode
magic_read m f h = rw (from_be_bytes-to_be_32 m h)

pub decode_rest :
    (m : ℕ) (f : Fields)
    → IsU32 m
    → AreU32 f
    → new (encode m f) ≡ (if m == fdt_magic then validate f else err (invalid_magic m))
unfolding new
decode_rest m f um uf = rw (magic_read m f um, decode-encode f m uf) (by_magic (m == fdt_magic))
  where
    by_magic :
        (b : Bool)
        → (check b (invalid_magic m) >>= λ _. validate f)
          ≡ (if b then validate f else err (invalid_magic m))
    by_magic true = refl
    by_magic false = refl

-- On forty bytes `Header::new` ends with a header or an error and never panics; and it accepts
-- them, with header `h`, exactly when they encode the FDT magic value and well-formed fields, whose
-- layout `h` holds.
pub new_accepts_iff :
    (bytes : Bytes) (h : Header)
    → All IsByte bytes
    → length bytes ≡ 40
    → Ends (new bytes)
      × ((new bytes ≡ ok h) ↔ (
          (f : Fields) × AreU32 f
          × WellFormed f
          × (bytes ≡ encode fdt_magic f)
          × (h ≡ header_of f)))
new_accepts_iff bytes h are len = (
  let (m, f, um, uf, e) = encode_surjective bytes are len in
      rw (e, decode_rest m f um uf) (ends_by (m == fdt_magic) m f uf),
  (
    λ accepted.
        let (m, f, um, uf, e) = encode_surjective bytes are len in
        accepted_by m f uf e (sym (decode_rest m f um uf) ∙ sym (ap new e) ∙ accepted),
    λ (f, uf, w, e, eh).
        ap new e
        ∙ decode_rest fdt_magic f (omega arith) uf
        ∙ WellFormed-validate f uf w
        ∙ ap ok (sym eh),
  ),
)
  where
    ends_by :
        (b : Bool) (m : ℕ) (f : Fields)
        → AreU32 f
        → Ends (if b then validate f else err (invalid_magic m))
    ends_by true m f uf = validate-Ends f uf
    ends_by false m f uf = tt

    accepted_by :
        (m : ℕ) (f : Fields)
        → AreU32 f
        → bytes ≡ encode m f
        → (if m == fdt_magic then validate f else err (invalid_magic m)) ≡ ok h
        → (f : Fields) × AreU32 f × WellFormed f × (bytes ≡ encode fdt_magic f) × (h ≡ header_of f)
    accepted_by m f uf e acc = elim (Bool-cases (m == fdt_magic)) [
      | inl same ↦
          let (w, eh) = validate-WellFormed f uf (rw same at acc) in
          (f, uf, w, e ∙ ap (λ (k : ℕ). encode k f) ((==_iff m fdt_magic).0 same), eh)
      | inr other ↦ absurd (cc (rw other at acc))
    ]
