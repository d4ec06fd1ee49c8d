-- ===== src/Crypto/Poly.antt =====
-- The operations on polynomials of solomon-core/src/crypto/poly.rs, coefficient by coefficient, and on
-- the vectors and matrices of solomon-core/src/crypto/matrix.rs.
pub mod Norm
pub mod Products
use project_solomon.Prelude.{
  ℕ, zero, suc, ◌+◌, ◌-◌, ◌*◌, ◌/◌, ◌%◌, ◌^◌, Bool, List, [], ◌∷◌, ◌++◌, map, get_or, set,
  replicate, take, drop,
}
use project_solomon.Prelude.{ltb, ◌==◌, if◌then◌else◌, bit_and, bit_or}
use project_solomon.Crypto.Word.{word_sub, sign_mask, word_not}
use project_solomon.Crypto.Scalar.{q, add, sub, mul, neg, to_bytes, from_bytes, reduce_coeff}
use project_solomon.Crypto.Rounding.{
  zip_with, power2round, high_bits, low_bits, make_hint, use_hint,
}
use project_solomon.Crypto.Ntt.{ntt, intt}

unfoldable pub add_poly : List ℕ → List ℕ → List ℕ
unfolding zip_with add
add_poly a b = zip_with add a b

unfoldable pub sub_poly : List ℕ → List ℕ → List ℕ
unfolding zip_with sub
sub_poly a b = zip_with sub a b

unfoldable pub neg_poly : List ℕ → List ℕ
unfolding neg
neg_poly a = map neg a

unfoldable pub reduce : List ℕ → List ℕ
unfolding reduce_coeff
reduce coeffs = map reduce_coeff coeffs

-- 2^64 modulo q, as the source computes it.
abbrev pub f_2_64 : ℕ
f_2_64 = 4193792 * 4193792 % q

unfoldable pub pointwise_coeff : ℕ → ℕ → ℕ
unfolding mul
pointwise_coeff a b = mul (mul a b) f_2_64

unfoldable pub mul_pointwise_ntt : List ℕ → List ℕ → List ℕ
unfolding zip_with pointwise_coeff
mul_pointwise_ntt a b = zip_with pointwise_coeff a b

unfoldable pub mul_ntt : List ℕ → List ℕ → List ℕ
unfolding ntt intt zip_with pointwise_coeff
mul_ntt a b = intt (zip_with pointwise_coeff (ntt a) (ntt b))

-- `mask |= ..` over the coefficients.
unfoldable pub or_all : ℕ → List ℕ → ℕ
or_all mask [] = mask
or_all mask (c ∷ cs) = or_all (bit_or mask c) cs

unfoldable pub is_zero_poly : List ℕ → Bool
unfolding or_all
is_zero_poly coeffs = or_all 0 coeffs == 0

-- There are 256 coefficients, so that the first clause is for no polynomial.
unfoldable pub is_one_poly : List ℕ → Bool
unfolding or_all word_sub
is_one_poly [] = or_all 0 [] == 0
is_one_poly (c ∷ cs) = or_all (bit_or 0 (word_sub c 1)) cs == 0

unfoldable pub poly_to_bytes : List ℕ → List ℕ
unfolding to_bytes
poly_to_bytes [] = []
poly_to_bytes (c ∷ cs) = to_bytes c ++ poly_to_bytes cs

-- For the `n` coefficients left.
unfoldable pub poly_from_bytes : ℕ → List ℕ → List ℕ
unfolding from_bytes reduce_coeff
poly_from_bytes zero bytes = []
poly_from_bytes (suc n) bytes =
    reduce_coeff (from_bytes (take 4 bytes)) ∷ poly_from_bytes n (drop 4 bytes)

unfoldable pub get_coeff : List ℕ → ℕ → ℕ
get_coeff coeffs index = if ltb index 256 then get_or coeffs index 0 else 0

unfoldable pub set_coeff : List ℕ → ℕ → ℕ → List ℕ
unfolding reduce_coeff
set_coeff coeffs index value =
    if ltb index 256 then set coeffs index (reduce_coeff value) else coeffs

-- The absolute value of the signed representative.
unfoldable pub abs_val : ℕ → ℕ
unfolding word_sub sign_mask word_not
abs_val canonical =
    let limit : ℕ = (q - 1) / 2 in
    let mask : ℕ = sign_mask (word_sub limit canonical) in
    bit_or (bit_and canonical (word_not mask)) (bit_and (word_sub q canonical) mask)

-- The larger of two values, by a mask.
unfoldable pub mask_max : ℕ → ℕ → ℕ
unfolding word_sub sign_mask word_not
mask_max max abs =
    let mask : ℕ = sign_mask (word_sub max abs) in
    bit_or (bit_and max (word_not mask)) (bit_and abs mask)

unfoldable pub norm_loop : ℕ → List ℕ → ℕ
unfolding abs_val mask_max
norm_loop max [] = max
norm_loop max (c ∷ cs) = norm_loop (mask_max max (abs_val c)) cs

unfoldable pub inf_norm : List ℕ → ℕ
unfolding norm_loop
inf_norm coeffs = norm_loop 0 coeffs

-- The largest norm of the polynomials, from `max` on.
unfoldable pub inf_norm_vector : ℕ → List (List ℕ) → ℕ
unfolding mask_max inf_norm
inf_norm_vector max [] = max
inf_norm_vector max (p ∷ polys) = inf_norm_vector (mask_max max (inf_norm p)) polys

unfoldable pub add_vector : List (List ℕ) → List (List ℕ) → List (List ℕ)
unfolding add_poly
add_vector [] b = []
add_vector (p ∷ a) [] = []
add_vector (p ∷ a) (r ∷ b) = add_poly p r ∷ add_vector a b

unfoldable pub sub_vector : List (List ℕ) → List (List ℕ) → List (List ℕ)
unfolding sub_poly
sub_vector [] b = []
sub_vector (p ∷ a) [] = []
sub_vector (p ∷ a) (r ∷ b) = sub_poly p r ∷ sub_vector a b

unfoldable pub ntt_vector : List (List ℕ) → List (List ℕ)
unfolding ntt
ntt_vector polys = map ntt polys

unfoldable pub intt_vector : List (List ℕ) → List (List ℕ)
unfolding intt
intt_vector polys = map intt polys

unfoldable pub power2round_vector : List (List ℕ) → List (List ℕ) × List (List ℕ)
unfolding power2round
power2round_vector polys = (
  map (λ p. let (p1, p0) = power2round p in p1) polys,
  map (λ p. let (p1, p0) = power2round p in p0) polys,
)

unfoldable pub high_bits_vector : ℕ → List (List ℕ) → List (List ℕ)
unfolding high_bits
high_bits_vector alpha polys = map (high_bits alpha) polys

unfoldable pub low_bits_vector : ℕ → List (List ℕ) → List (List ℕ)
unfolding low_bits
low_bits_vector alpha polys = map (low_bits alpha) polys

unfoldable pub make_hint_vector : ℕ → List (List ℕ) → List (List ℕ) → List (List ℕ)
unfolding make_hint
make_hint_vector alpha [] z = []
make_hint_vector alpha (p ∷ polys) [] = []
make_hint_vector alpha (p ∷ polys) (r ∷ z) = make_hint alpha p r ∷ make_hint_vector alpha polys z

unfoldable pub use_hint_vector : ℕ → List (List ℕ) → List (List ℕ) → List (List ℕ)
unfolding use_hint
use_hint_vector alpha [] h = []
use_hint_vector alpha (p ∷ polys) [] = []
use_hint_vector alpha (p ∷ polys) (r ∷ h) = use_hint alpha p r ∷ use_hint_vector alpha polys h

-- One row of the matrix: the sum from `sum` on.
unfoldable pub mul_row : List (List ℕ) → List (List ℕ) → List ℕ → List ℕ
unfolding add_poly mul_pointwise_ntt
mul_row [] vec sum = sum
mul_row (a ∷ row) [] sum = sum
mul_row (a ∷ row) (v ∷ vec) sum = mul_row row vec (add_poly sum (mul_pointwise_ntt a v))

unfoldable pub mul_vector_ntt : List (List (List ℕ)) → List (List ℕ) → List (List ℕ)
unfolding mul_row
mul_vector_ntt rows vec = map (λ row. mul_row row vec (replicate 256 0)) rows
