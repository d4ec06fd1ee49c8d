-- ===== src/Crypto/Packing/RoundTrip.antt =====
-- Packed polynomials read back as they were, and packed bytes too: solomon-core/src/crypto/packing.rs.
use project_solomon.Prelude.{ℕ, ◌^◌, ◌<◌, List, [], ◌∷◌, length, map, All, length-map}
use project_solomon.Prelude.{◌≡◌, refl, sym, ap, ap₂, ◌∙◌}
use mathlib.Core.Path.{subst}
use project_solomon.Prelude.Radix.{
  radix, digits_of, size, Fits, All-map, radix_below, radix-digits_of, digits_of-radix,
  digits_of-Fits, length-digits_of,
}
use project_solomon.Crypto.Packing.{t1_field, small_field, t0_field, z_field}
use project_solomon.Crypto.Packing.{pack_t1_poly, pack_small_poly, pack_t0_poly, pack_z_poly}
use project_solomon.Crypto.Packing.{
  unpack_t1_poly, unpack_small_poly, unpack_t0_poly, unpack_z_poly,
}
use project_solomon.Crypto.Packing.Signed.{
  Centered, t1_decode_code, t1_code_decode, small_decode_code, small_code_decode, t0_decode_code,
  t0_code_decode, z_decode_code, z_code_decode,
}
use project_solomon.Crypto.Packing.Pack.{
  anything, t1_below, small_below, t0_below, z_below, pack_t1_poly-digits, pack_small_poly-digits,
  pack_t0_poly-digits, pack_z_poly-digits,
}
use project_solomon.Crypto.Packing.Unpack.{
  t1_value, small_value, t0_value, z_value, unpack_t1_poly-digits, unpack_small_poly-digits,
  unpack_t0_poly-digits, unpack_z_poly-digits,
}

map_inverse :
    (P : ℕ → Type 0) (f g : ℕ → ℕ) (xs : List ℕ)
    → ((x : ℕ) → P x → g (f x) ≡ x)
    → All P xs
    → map g (map f xs) ≡ xs
map_inverse P f g [] h ps = refl
map_inverse P f g (x ∷ xs) h (p, ps) = ap₂ ◌∷◌ (h x p) (map_inverse P f g xs h ps)

-- A packing whose bytes are the number of its fields, and an unpacking whose fields are the digits of
-- the bytes, undo each other when a field and its value do.
module _ (w bytes : ℕ) (same : size w 256 ≡ size 8 bytes) (pack unpack : List ℕ → List ℕ)
    (field value : ℕ → ℕ) (field_below : (c : ℕ) → field c < 2 ^ w)
    (pack_digits : (poly : List ℕ)
      → length poly ≡ 256
      → pack poly ≡ digits_of 8 bytes (radix w (map field poly)))
    (unpack_digits : (buf : List ℕ)
      → length buf ≡ bytes
      → All (Fits 8) buf
      → unpack buf ≡ map value (digits_of w 256 (radix 8 buf))) where
  length-pack : (poly : List ℕ) → length poly ≡ 256 → length (pack poly) ≡ bytes
  length-pack poly h = ap length (pack_digits poly h) ∙ length-digits_of 8 bytes _

  pack-Fits : (poly : List ℕ) → length poly ≡ 256 → All (Fits 8) (pack poly)
  pack-Fits poly h = subst (All (Fits 8)) (sym (pack_digits poly h)) (digits_of-Fits 8 bytes _)

  length-unpack : (buf : List ℕ) → length buf ≡ bytes → All (Fits 8) buf → length (unpack buf) ≡ 256
  length-unpack buf h hs =
      ap length (unpack_digits buf h hs) ∙ length-map value _ ∙ length-digits_of w 256 _

  -- The number of the fields fits the bytes.
  fields_below : (poly : List ℕ) → length poly ≡ 256 → radix w (map field poly) < size 8 bytes
  fields_below poly h =
      subst (λ (t : ℕ). radix w (map field poly) < t)
        (ap (size w) (length-map field poly ∙ h) ∙ same)
        (radix_below w (map field poly)
          (All-map (λ c. Unit {0}) (Fits w) field poly (λ c p. field_below c) (anything poly)))

  unpack-pack_fields :
      (poly : List ℕ) → length poly ≡ 256 → unpack (pack poly) ≡ map value (map field poly)
  unpack-pack_fields poly h =
      unpack_digits (pack poly) (length-pack poly h) (pack-Fits poly h)
      ∙ ap (λ buf. map value (digits_of w 256 (radix 8 buf))) (pack_digits poly h)
      ∙ ap (λ (v : ℕ). map value (digits_of w 256 v))
          (radix-digits_of 8 bytes _ (fields_below poly h))
      ∙ ap (λ (n : ℕ). map value (digits_of w n (radix w (map field poly))))
          (sym (length-map field poly ∙ h))
      ∙ ap (map value) (
          digits_of-radix w (map field poly)
            (All-map (λ c. Unit {0}) (Fits w) field poly (λ c p. field_below c) (anything poly)))

  unpack-pack :
      (P : ℕ → Type 0) (back : (c : ℕ) → P c → value (field c) ≡ c) (poly : List ℕ)
      → length poly ≡ 256
      → All P poly
      → unpack (pack poly) ≡ poly
  unpack-pack P back poly h ps = unpack-pack_fields poly h ∙ map_inverse P field value poly back ps

  pack-unpack :
      (back : (y : ℕ) → y < 2 ^ w → field (value y) ≡ y) (buf : List ℕ)
      → length buf ≡ bytes
      → All (Fits 8) buf
      → pack (unpack buf) ≡ buf
  pack-unpack back buf h hs =
      pack_digits (unpack buf) (length-unpack buf h hs)
      ∙ ap (λ poly. digits_of 8 bytes (radix w (map field poly))) (unpack_digits buf h hs)
      ∙ ap (λ ys. digits_of 8 bytes (radix w ys))
          (map_inverse (Fits w) value field _ back (digits_of-Fits w 256 (radix 8 buf)))
      ∙ ap (digits_of 8 bytes) (
          radix-digits_of w 256 (radix 8 buf)
            (subst (λ (t : ℕ). radix 8 buf < t) (ap (size 8) h ∙ sym same) (radix_below 8 buf hs)))
      ∙ ap (λ (n : ℕ). digits_of 8 n (radix 8 buf)) (sym h)
      ∙ digits_of-radix 8 buf hs

pub length-pack_t1_poly : (poly : List ℕ) → length poly ≡ 256 → length (pack_t1_poly poly) ≡ 320
unfolding size
length-pack_t1_poly =
    length-pack 10 320 refl pack_t1_poly unpack_t1_poly t1_field t1_value t1_below
      pack_t1_poly-digits unpack_t1_poly-digits

pub pack_t1_poly-Fits : (poly : List ℕ) → length poly ≡ 256 → All (Fits 8) (pack_t1_poly poly)
unfolding size
pack_t1_poly-Fits =
    pack-Fits 10 320 refl pack_t1_poly unpack_t1_poly t1_field t1_value t1_below pack_t1_poly-digits
      unpack_t1_poly-digits

pub length-unpack_t1_poly :
    (buf : List ℕ) → length buf ≡ 320 → All (Fits 8) buf → length (unpack_t1_poly buf) ≡ 256
unfolding size
length-unpack_t1_poly =
    length-unpack 10 320 refl pack_t1_poly unpack_t1_poly t1_field t1_value t1_below
      pack_t1_poly-digits unpack_t1_poly-digits

-- A polynomial with 256 coefficients, each below 1024, reads back from its bytes.
pub unpack_t1_poly-pack_t1_poly :
    (poly : List ℕ)
    → length poly ≡ 256
    → All (λ c. c < 1024) poly
    → unpack_t1_poly (pack_t1_poly poly) ≡ poly
unfolding size t1_value
unpack_t1_poly-pack_t1_poly =
    unpack-pack 10 320 refl pack_t1_poly unpack_t1_poly t1_field t1_value t1_below
      pack_t1_poly-digits unpack_t1_poly-digits (λ c. c < 1024) t1_decode_code

-- Any 320 bytes are the packing of what they read as.
pub pack_t1_poly-unpack_t1_poly :
    (buf : List ℕ) → length buf ≡ 320 → All (Fits 8) buf → pack_t1_poly (unpack_t1_poly buf) ≡ buf
unfolding size t1_value
pack_t1_poly-unpack_t1_poly =
    pack-unpack 10 320 refl pack_t1_poly unpack_t1_poly t1_field t1_value t1_below
      pack_t1_poly-digits unpack_t1_poly-digits t1_code_decode

pub length-pack_small_poly :
    (poly : List ℕ) → length poly ≡ 256 → length (pack_small_poly poly) ≡ 128
unfolding size
length-pack_small_poly =
    length-pack 4 128 refl pack_small_poly unpack_small_poly small_field small_value small_below
      pack_small_poly-digits unpack_small_poly-digits

pub pack_small_poly-Fits : (poly : List ℕ) → length poly ≡ 256 → All (Fits 8) (pack_small_poly poly)
unfolding size
pack_small_poly-Fits =
    pack-Fits 4 128 refl pack_small_poly unpack_small_poly small_field small_value small_below
      pack_small_poly-digits unpack_small_poly-digits

pub length-unpack_small_poly :
    (buf : List ℕ) → length buf ≡ 128 → All (Fits 8) buf → length (unpack_small_poly buf) ≡ 256
unfolding size
length-unpack_small_poly =
    length-unpack 4 128 refl pack_small_poly unpack_small_poly small_field small_value small_below
      pack_small_poly-digits unpack_small_poly-digits

-- A polynomial with 256 coefficients, each between - 11 and 4, reads back from its bytes.
pub unpack_small_poly-pack_small_poly :
    (poly : List ℕ)
    → length poly ≡ 256
    → All (λ c. Centered 11 4 c) poly
    → unpack_small_poly (pack_small_poly poly) ≡ poly
unfolding size small_value
unpack_small_poly-pack_small_poly =
    unpack-pack 4 128 refl pack_small_poly unpack_small_poly small_field small_value small_below
      pack_small_poly-digits unpack_small_poly-digits (λ c. Centered 11 4 c) small_decode_code

-- Any 128 bytes are the packing of what they read as.
pub pack_small_poly-unpack_small_poly :
    (buf : List ℕ)
    → length buf ≡ 128
    → All (Fits 8) buf
    → pack_small_poly (unpack_small_poly buf) ≡ buf
unfolding size small_value
pack_small_poly-unpack_small_poly =
    pack-unpack 4 128 refl pack_small_poly unpack_small_poly small_field small_value small_below
      pack_small_poly-digits unpack_small_poly-digits small_code_decode

pub length-pack_t0_poly : (poly : List ℕ) → length poly ≡ 256 → length (pack_t0_poly poly) ≡ 416
unfolding size
length-pack_t0_poly =
    length-pack 13 416 refl pack_t0_poly unpack_t0_poly t0_field t0_value t0_below
      pack_t0_poly-digits unpack_t0_poly-digits

pub pack_t0_poly-Fits : (poly : List ℕ) → length poly ≡ 256 → All (Fits 8) (pack_t0_poly poly)
unfolding size
pack_t0_poly-Fits =
    pack-Fits 13 416 refl pack_t0_poly unpack_t0_poly t0_field t0_value t0_below pack_t0_poly-digits
      unpack_t0_poly-digits

pub length-unpack_t0_poly :
    (buf : List ℕ) → length buf ≡ 416 → All (Fits 8) buf → length (unpack_t0_poly buf) ≡ 256
unfolding size
length-unpack_t0_poly =
    length-unpack 13 416 refl pack_t0_poly unpack_t0_poly t0_field t0_value t0_below
      pack_t0_poly-digits unpack_t0_poly-digits

-- A polynomial with 256 coefficients, each between - 4095 and 4096, reads back from its bytes.
pub unpack_t0_poly-pack_t0_poly :
    (poly : List ℕ)
    → length poly ≡ 256
    → All (λ c. Centered 4095 4096 c) poly
    → unpack_t0_poly (pack_t0_poly poly) ≡ poly
unfolding size t0_value
unpack_t0_poly-pack_t0_poly =
    unpack-pack 13 416 refl pack_t0_poly unpack_t0_poly t0_field t0_value t0_below
      pack_t0_poly-digits unpack_t0_poly-digits (λ c. Centered 4095 4096 c) t0_decode_code

-- Any 416 bytes are the packing of what they read as.
pub pack_t0_poly-unpack_t0_poly :
    (buf : List ℕ) → length buf ≡ 416 → All (Fits 8) buf → pack_t0_poly (unpack_t0_poly buf) ≡ buf
unfolding size t0_value
pack_t0_poly-unpack_t0_poly =
    pack-unpack 13 416 refl pack_t0_poly unpack_t0_poly t0_field t0_value t0_below
      pack_t0_poly-digits unpack_t0_poly-digits t0_code_decode

pub length-pack_z_poly : (poly : List ℕ) → length poly ≡ 256 → length (pack_z_poly poly) ≡ 640
unfolding size
length-pack_z_poly =
    length-pack 20 640 refl pack_z_poly unpack_z_poly z_field z_value z_below pack_z_poly-digits
      unpack_z_poly-digits

pub pack_z_poly-Fits : (poly : List ℕ) → length poly ≡ 256 → All (Fits 8) (pack_z_poly poly)
unfolding size
pack_z_poly-Fits =
    pack-Fits 20 640 refl pack_z_poly unpack_z_poly z_field z_value z_below pack_z_poly-digits
      unpack_z_poly-digits

pub length-unpack_z_poly :
    (buf : List ℕ) → length buf ≡ 640 → All (Fits 8) buf → length (unpack_z_poly buf) ≡ 256
unfolding size
length-unpack_z_poly =
    length-unpack 20 640 refl pack_z_poly unpack_z_poly z_field z_value z_below pack_z_poly-digits
      unpack_z_poly-digits

-- A polynomial with 256 coefficients, each between 1 - 2^19 and 2^19, reads back from its bytes.
pub unpack_z_poly-pack_z_poly :
    (poly : List ℕ)
    → length poly ≡ 256
    → All (λ c. Centered 524287 524288 c) poly
    → unpack_z_poly (pack_z_poly poly) ≡ poly
unfolding size z_value
unpack_z_poly-pack_z_poly =
    unpack-pack 20 640 refl pack_z_poly unpack_z_poly z_field z_value z_below pack_z_poly-digits
      unpack_z_poly-digits (λ c. Centered 524287 524288 c) z_decode_code

-- Any 640 bytes are the packing of what they read as.
pub pack_z_poly-unpack_z_poly :
    (buf : List ℕ) → length buf ≡ 640 → All (Fits 8) buf → pack_z_poly (unpack_z_poly buf) ≡ buf
unfolding size z_value
pack_z_poly-unpack_z_poly =
    pack-unpack 20 640 refl pack_z_poly unpack_z_poly z_field z_value z_below pack_z_poly-digits
      unpack_z_poly-digits z_code_decode
