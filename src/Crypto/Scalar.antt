-- ===== src/Crypto/Scalar.antt =====
-- The field Z_q of solomon-core/src/crypto/scalar.rs. A `Scalar` is its `value`, a word.
pub mod Laws
pub mod Negative
pub mod Range
pub mod Field
use project_solomon.Prelude.{ℕ, ◌+◌, ◌-◌, ◌*◌, ◌/◌, ◌%◌, ◌^◌, Bool, List, [], ◌∷◌, get_or}
use project_solomon.Prelude.{leb, ◌==◌, if◌then◌else◌, bit_and, bit_or}
use project_solomon.Crypto.Word.{word, word_add, word_sub, word_mul, sign_mask, word_not}

abbrev pub q : ℕ
q = 8380417

abbrev pub q_inv : ℕ
q_inv = 58728449

-- An `i32` as an `i64`, a word of 64 bits.
unfoldable pub widen : ℕ → ℕ
widen a = if leb 2147483648 a then a + (2 ^ 64 - word) else a

-- `a - b` of `i64`.
unfoldable pub long_sub : ℕ → ℕ → ℕ
long_sub a b = (a + (2 ^ 64 - b)) % 2 ^ 64

-- `t as i32` of the shifted `i64` is its upper half, whatever its sign.
unfoldable pub montgomery_reduce : ℕ → ℕ
unfolding word_mul widen long_sub word_add word_sub sign_mask
montgomery_reduce prod =
    let u : ℕ = word_mul (prod % word) q_inv in
    let t : ℕ = long_sub prod (widen u * q % 2 ^ 64) / word in
    let t : ℕ = word_add t (bit_and q (sign_mask t)) in
    let diff : ℕ = word_sub t q in word_add diff (bit_and q (sign_mask diff))

unfoldable pub add : ℕ → ℕ → ℕ
unfolding word_add word_sub sign_mask
add a b = let diff : ℕ = word_sub (word_add a b) q in word_add diff (bit_and q (sign_mask diff))

unfoldable pub sub : ℕ → ℕ → ℕ
unfolding word_add word_sub sign_mask
sub a b = let diff : ℕ = word_sub a b in word_add diff (bit_and q (sign_mask diff))

-- The product of two `i64`.
unfoldable pub mul : ℕ → ℕ → ℕ
unfolding montgomery_reduce widen
mul a b = montgomery_reduce (widen a * widen b % 2 ^ 64)

-- All ones for a value other than zero.
unfoldable pub nonzero_mask : ℕ → ℕ
unfolding word_sub sign_mask
nonzero_mask a = sign_mask (bit_or a (word_sub 0 a))

unfoldable pub neg : ℕ → ℕ
unfolding word_sub nonzero_mask
neg a = bit_and (word_sub q a) (nonzero_mask a)

unfoldable pub is_zero_ct : ℕ → ℕ
unfolding word_not nonzero_mask
is_zero_ct a = word_not (nonzero_mask a)

unfoldable pub is_zero : ℕ → Bool
is_zero a = a == 0

unfoldable pub to_bytes : ℕ → List ℕ
to_bytes value =
    bit_and value 0xff
    ∷ bit_and (value / 2 ^ 8) 0xff
    ∷ bit_and (value / 2 ^ 16) 0xff
    ∷ bit_and (value / 2 ^ 24) 0xff
    ∷ []

-- `bytes` is an array of four.
unfoldable pub from_bytes : List ℕ → ℕ
from_bytes bytes =
    bit_or
      (bit_or (bit_or (get_or bytes 0 0) (get_or bytes 1 0 * 2 ^ 8)) (get_or bytes 2 0 * 2 ^ 16))
      (get_or bytes 3 0 * 2 ^ 24)

-- `Scalar::montgomery_reduce(v as i64 * 4193792)`, as the polynomials of poly.rs reduce a coefficient.
unfoldable pub reduce_coeff : ℕ → ℕ
unfolding montgomery_reduce widen
reduce_coeff v = montgomery_reduce (widen v * 4193792 % 2 ^ 64)
