-- ===== src/Kernel/Image/Examples.antt =====
-- A small image, and the theorems there.
use barebone_kernel.Base.{◌≡◌, refl, arith, [], ◌∷◌, ◌++◌, bytes_eq, ok, err}
use barebone_kernel.Kernel.Image.{Image, invalid_image, parse, checked}
use barebone_kernel.Kernel.Image.Format.{encode, IsImage}
use barebone_kernel.Kernel.Image.Sound.{Parsed, parse-Parsed, parse-encode}

abbrev small_image : Image
small_image = record { base = 0x10000; entry = 0x10002; bytes = 1 ∷ 2 ∷ 3 ∷ 4 ∷ [] }

parses : parse {M = Unit} {P = Unit} (encode small_image) 0x11000 ≡ ok small_image
unfolding parse checked bytes_eq
parses = refl

too_long : parse {M = Unit} {P = Unit} (encode small_image ++ 5 ∷ []) 0x11000 ≡ err invalid_image
unfolding parse checked bytes_eq
too_long = refl

does_not_fit : parse {M = Unit} {P = Unit} (encode small_image) 0x10fff ≡ err invalid_image
unfolding parse checked bytes_eq
does_not_fit = refl

small_image-IsImage : IsImage 0x11000 small_image
small_image-IsImage = record {
  has_payload = omega arith;
  not_null_page = omega arith;
  page_aligned = omega arith;
  entry_not_below = omega arith;
  entry_inside = omega arith;
  entry_aligned = omega arith;
  pages_fit = (
    0x11000,
    record { not_below = omega arith; aligned = omega arith; least = omega arith },
    omega arith,
  );
}

parse-encode_example : parse {M = Unit} {P = Unit} (encode small_image) 0x11000 ≡ ok small_image
parse-encode_example = parse-encode Unit Unit 0x11000 small_image (omega arith) small_image-IsImage

parse-Parsed_example :
    Parsed
      (encode small_image ++ 5 ∷ [])
      0x11000
      (parse {M = Unit} {P = Unit} (encode small_image ++ 5 ∷ []) 0x11000)
parse-Parsed_example =
    parse-Parsed Unit Unit (encode small_image ++ 5 ∷ []) 0x11000 (omega arith) (omega arith)
