-- ===== src/Crypto/Rounding.antt =====
-- Rounding and hints of solomon-core/src/crypto/poly.rs, coefficient by coefficient: a coefficient is
-- a word, a polynomial the list of its 256 coefficients. `alpha` is twice the rounding range.
pub mod Power2Round
pub mod Stored
pub mod Decompose
pub mod UseHint
use project_solomon.Prelude.{ℕ, ◌+◌, ◌-◌, ◌*◌, ◌/◌, ◌%◌, ◌^◌, Bool, List, [], ◌∷◌, map}
use project_solomon.Prelude.{leb, ◌==◌, if◌then◌else◌, bit_and, bit_or}
use project_solomon.Crypto.Word.{
  word, word_add, word_sub, sign_mask, word_not, word_shift, word_rem, word_div,
}
use project_solomon.Crypto.Scalar.{q, add, nonzero_mask}

-- The body of a loop over the coefficients of two polynomials.
unfoldable pub zip_with : (ℕ → ℕ → ℕ) → List ℕ → List ℕ → List ℕ
zip_with f [] ys = []
zip_with f (x ∷ xs) [] = []
zip_with f (x ∷ xs) (y ∷ ys) = f x y ∷ zip_with f xs ys

-- `r` of `r_raw`.
unfoldable pub to_range : ℕ → ℕ
unfolding word_rem word_add
to_range r_raw =
    let rem : ℕ = word_rem r_raw q in
    if leb 2147483648 r_raw
    then (if rem == 0 then 0 else word_add rem q)
    else (if leb q r_raw then rem else r_raw)

-- The body of the loop in `power2round`: a coefficient of `r1` and of `r0`.
unfoldable pub power2round_coeff : ℕ → ℕ × ℕ
unfolding to_range word_add word_sub word_shift sign_mask
power2round_coeff r_raw =
    let r : ℕ = to_range r_raw in
    let r0_val : ℕ = bit_and r 8191 in
    let diff : ℕ = word_sub 4096 r0_val in
    let mask : ℕ = sign_mask diff in
    let r0_signed : ℕ = word_sub r0_val (bit_and 8192 mask) in
    let r1_val : ℕ = word_shift (word_sub r r0_signed) 13 in
    let mask_neg : ℕ = sign_mask r0_signed in
    let r0_canonical : ℕ = word_add r0_signed (bit_and q mask_neg) in (r1_val, r0_canonical)

unfoldable pub power2round : List ℕ → List ℕ × List ℕ
unfolding power2round_coeff
power2round coeffs = (
  map (λ r. let (r1, r0) = power2round_coeff r in r1) coeffs,
  map (λ r. let (r1, r0) = power2round_coeff r in r0) coeffs,
)

-- The remainder, centred: `r0_val` after its first correction.
unfoldable pub centred_rem : ℕ → ℕ → ℕ
unfolding word_rem word_sub sign_mask
centred_rem r alpha =
    let r0_val : ℕ = word_rem r alpha in
    let diff_limit : ℕ = word_sub (alpha / 2) r0_val in
    word_sub r0_val (bit_and alpha (sign_mask diff_limit))

-- `mask2`: all ones when the rest is `q - 1`.
unfoldable pub wrap_mask : ℕ → ℕ → ℕ
unfolding word_sub word_not nonzero_mask
wrap_mask r r0_val =
    let diff_q : ℕ = word_sub (word_sub r r0_val) (q - 1) in word_not (nonzero_mask diff_q)

-- `r1_val`
unfoldable pub quotient : ℕ → ℕ → ℕ → ℕ
unfolding word_sub word_div word_not wrap_mask
quotient r r0_val alpha =
    bit_and (word_div (word_sub r r0_val) alpha) (word_not (wrap_mask r r0_val))

-- The body of the loop in `decompose`.
unfoldable pub decompose_coeff : ℕ → ℕ → ℕ × ℕ
unfolding centred_rem wrap_mask quotient word_add sign_mask
decompose_coeff r alpha =
    let r0_val : ℕ = centred_rem r alpha in
    let r1_val : ℕ = quotient r r0_val alpha in
    let r0_val : ℕ = word_add r0_val (wrap_mask r r0_val) in
    (r1_val, word_add r0_val (bit_and q (sign_mask r0_val)))

unfoldable pub high_bits : ℕ → List ℕ → List ℕ
unfolding decompose_coeff
high_bits alpha coeffs = map (λ r. let (r1, r0) = decompose_coeff r alpha in r1) coeffs

unfoldable pub low_bits : ℕ → List ℕ → List ℕ
unfolding decompose_coeff
low_bits alpha coeffs = map (λ r. let (r1, r0) = decompose_coeff r alpha in r0) coeffs

unfoldable pub high_bits_coeff : ℕ → ℕ → ℕ
unfolding centred_rem quotient
high_bits_coeff r alpha = quotient r (centred_rem r alpha) alpha

-- The body of the loop in `make_hint`.
unfoldable pub make_hint_coeff : ℕ → ℕ → ℕ → ℕ
unfolding add high_bits_coeff word_sub nonzero_mask
make_hint_coeff alpha r z =
    let r_plus_z : ℕ = add r z in
    let v1 : ℕ = high_bits_coeff r alpha in
    let v2 : ℕ = high_bits_coeff r_plus_z alpha in bit_and (nonzero_mask (word_sub v1 v2)) 1

unfoldable pub make_hint : ℕ → List ℕ → List ℕ → List ℕ
unfolding make_hint_coeff zip_with
make_hint alpha r z = zip_with (make_hint_coeff alpha) r z

-- The body of the loop in `use_hint`.
unfoldable pub use_hint_coeff : ℕ → ℕ → ℕ → ℕ
unfolding centred_rem wrap_mask quotient word_add word_not word_rem sign_mask nonzero_mask
use_hint_coeff alpha r h_val =
    let m : ℕ = (q - 1) / alpha in
    let r0_val : ℕ = centred_rem r alpha in
    let r1_val : ℕ = quotient r r0_val alpha in
    let r0_val : ℕ = word_add r0_val (wrap_mask r r0_val) in
    let is_neg_mask : ℕ = sign_mask r0_val in
    let is_zero_mask : ℕ = word_not (nonzero_mask r0_val) in
    let is_pos_mask : ℕ = word_not (bit_or is_neg_mask is_zero_mask) in
    let step : ℕ = bit_or (bit_and 1 is_pos_mask) (bit_and (m - 1) (word_not is_pos_mask)) in
    let r1_adjusted : ℕ = word_rem (word_add r1_val step) m in
    let h_mask : ℕ = nonzero_mask h_val in
    bit_or (bit_and r1_val (word_not h_mask)) (bit_and r1_adjusted h_mask)

unfoldable pub use_hint : ℕ → List ℕ → List ℕ → List ℕ
unfolding use_hint_coeff zip_with
use_hint alpha r h = zip_with (use_hint_coeff alpha) r h
