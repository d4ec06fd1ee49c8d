-- ===== src/Crypto/Scalar/Laws.antt =====
-- What the constant-time arithmetic of solomon-core/src/crypto/scalar.rs computes.
use project_solomon.Prelude.{ℕ, ◌+◌, ◌-◌, ◌*◌, ◌/◌, ◌%◌, ◌^◌, ◌<◌, ◌≤◌, leb, if◌then◌else◌, bit_and}
use project_solomon.Prelude.{
  ◌≡◌, refl, ap, sym, leb→le, ◌==◌, ◌∙◌, arith, Bool-cases, inl, inr, ◌⊎◌,
}
use mathlib.Core.Path.{subst}
use project_solomon.Prelude.Bits.{bit_and-mask, bit_or-high, le_bit_or_left, le_bit_or_right}
use project_solomon.Crypto.Word.{
  word, word_add, word_sub, word_mul, sign_mask, word_not, sign_mask_negative,
}
use project_solomon.Crypto.Word.{and_all}
use project_solomon.Crypto.Scalar.{q, q_inv, widen, long_sub, montgomery_reduce, add, sub, mul, neg}
use project_solomon.Crypto.Scalar.{nonzero_mask, is_zero_ct, to_bytes, from_bytes}

-- `q & mask` of a sign.
pub masked_q : (a : ℕ) → bit_and q (sign_mask a) ≡ (if leb 2147483648 a then q else 0)
unfolding sign_mask
masked_q a = elim (Bool-cases (leb 2147483648 a)) [ inl e ↦ rw e refl | inr e ↦ rw e refl ]

-- A difference below zero gets the modulus back.
pub correct_lem :
    (diff : ℕ)
    → word_add diff (bit_and q (sign_mask diff))
      ≡ (diff + (if leb 2147483648 diff then q else 0)) % 4294967296
unfolding word_add
correct_lem diff = ap (λ (t : ℕ). word_add diff t) (masked_q diff)

-- On canonical values the masked addition is the addition of the field.
pub add-mod_q : (a b : ℕ) → a < q → b < q → add a b ≡ (a + b) % q
unfolding add word_sub word_add
add-mod_q a b h k = ground (arith, correct_lem (word_sub (word_add a b) q))

-- On canonical values the masked subtraction is the subtraction of the field.
pub sub-mod_q : (a b : ℕ) → a < q → b < q → sub a b ≡ (a + q - b) % q
unfolding sub word_sub
sub-mod_q a b h k = ground (arith, correct_lem (word_sub a b))

-- The multiple of q that the reduction takes away agrees with the product below 2^32.
pub reduce_low :
    (prod u : ℕ)
    → u ≡ prod % 4294967296 * 58728449 % 4294967296
    → u * 8380417 % 4294967296 ≡ prod % 4294967296
reduce_low prod u e = omega arith

-- The two corrections bring a quotient of either sign into the canonical range.
unfoldable pub canonical : ℕ → ℕ
unfolding word_add word_sub sign_mask
canonical t =
    let t1 : ℕ = word_add t (bit_and q (sign_mask t)) in
    let diff : ℕ = word_sub t1 q in word_add diff (bit_and q (sign_mask diff))

pub canonical_positive : (t : ℕ) → t < 8380417 → canonical t ≡ t
unfolding canonical word_sub
canonical_positive t h =
    ground (arith, correct_lem t, correct_lem (word_sub (word_add t (bit_and q (sign_mask t))) q))

pub canonical_negative :
    (t : ℕ) → 4286586879 < t → t < 4294967296 → canonical t + 4294967296 ≡ t + 8380417
unfolding canonical word_sub
canonical_negative t h k =
    ground (arith, correct_lem t, correct_lem (word_sub (word_add t (bit_and q (sign_mask t))) q))

canonical_twice :
    (t : ℕ) → t < 16760834 → (canonical t < 8380417) × (canonical t % 8380417 ≡ t % 8380417)
unfolding canonical word_sub
canonical_twice t h =
    ground (arith, correct_lem t, correct_lem (word_sub (word_add t (bit_and q (sign_mask t))) q))

-- The shifted difference, for a factor that is positive as an `i32`.
quotient_positive :
    (prod u t : ℕ)
    → prod < 6442450944 * 8380417
    → u < 2147483648
    → u * 8380417 % 4294967296 ≡ prod % 4294967296
    → t ≡ long_sub prod (u * 8380417 % 2 ^ 64) / 4294967296
    → ((t < 16760834) × (t * 4294967296 + u * 8380417 ≡ prod))
      ⊎ ((4286586879 < t) × (t < 4294967296) × (t * 4294967296 + u * 8380417 ≡ prod + 2 ^ 64))
unfolding long_sub
quotient_positive prod u t h k e f = ground arith

-- For a factor that is negative as an `i32`.
quotient_negative :
    (prod u t : ℕ)
    → prod < 6442450944 * 8380417
    → 2147483648 ≤ u
    → u < 4294967296
    → u * 8380417 % 4294967296 ≡ prod % 4294967296
    → t ≡ long_sub prod ((u + (2 ^ 64 - 4294967296)) * 8380417 % 2 ^ 64) / 4294967296
    → (t < 16760834) × (t * 4294967296 + u * 8380417 ≡ prod + 4294967296 * 8380417)
unfolding long_sub
quotient_negative prod u t h k l e f = ground arith

canonical-mod_q :
    (prod u t : ℕ)
    → prod < 6442450944 * 8380417
    → u < 4294967296
    → u * 8380417 % 4294967296 ≡ prod % 4294967296
    → t ≡ long_sub prod (widen u * 8380417 % 2 ^ 64) / 4294967296
    → (canonical t < 8380417) × (canonical t * 4294967296 % 8380417 ≡ prod % 8380417)
unfolding widen
canonical-mod_q prod u t h k low e = elim (Bool-cases (leb 2147483648 u)) [
  | inl f ↦
      let (p, r) = quotient_negative prod u t h (leb→le _ u f) k low (e ∙ rw (f) refl) in
      let (c, d) = canonical_twice t p in (c, omega arith)
  | inr f ↦ elim (quotient_positive prod u t h (ground arith) low (e ∙ rw (f) refl)) [
    | inl (p, r) ↦ let (c, d) = canonical_twice t p in (c, omega arith)
    | inr (p, p2, r) ↦
        let c : canonical t + 4294967296 ≡ t + 8380417 = canonical_negative t p p2 in
        (omega arith, omega arith)
  ]
]

-- The reduction of a product below 3/2 of 2^32 q.
pub reduce_positive :
    (prod : ℕ)
    → prod < 3 * 2 ^ 31 * q
    → (montgomery_reduce prod < q) × (montgomery_reduce prod * 2 ^ 32 % q ≡ prod % q)
unfolding montgomery_reduce canonical word_mul widen
reduce_positive prod h =
    canonical-mod_q prod (word_mul (prod % word) q_inv) _ h (omega arith) (reduce_low prod _ refl)
      refl

widen_small : (a : ℕ) → a < q → widen a ≡ a
unfolding widen
widen_small a h = ground arith

-- On canonical values the masked product is canonical, and times 2^32 it is the product of the field.
pub mul-mod_q : (a b : ℕ) → a < q → b < q → (mul a b < q) × (mul a b * 2 ^ 32 % q ≡ a * b % q)
unfolding mul widen
mul-mod_q a b h k =
    let below : a * b < 3 * 2 ^ 31 * q = grind (arith) in
    let product : widen a * widen b % 2 ^ 64 ≡ a * b =
      rw (widen_small a h, widen_small b k) (omega arith) in
    subst (λ p. (montgomery_reduce p < q) × (montgomery_reduce p * 2 ^ 32 % q ≡ a * b % q))
      (sym product) (reduce_positive (a * b) below)

-- On canonical values the masked negation is the negation of the field.
pub nonzero_mask_zero : nonzero_mask 0 ≡ 0
unfolding nonzero_mask word_sub
nonzero_mask_zero = refl

pub nonzero_mask_positive : (a : ℕ) → 0 < a → a < 4294967296 → nonzero_mask a ≡ 4294967295
unfolding nonzero_mask word_sub
nonzero_mask_positive a h k = sign_mask_negative _ (
    omega (
      arith,
      le_bit_or_left a a (word_sub 0 a) (omega arith),
      le_bit_or_right (word_sub 0 a) a (word_sub 0 a) (omega arith),
    ))

pub neg-mod_q : (a : ℕ) → a < q → neg a ≡ (q - a) % q
unfolding neg word_sub
neg-mod_q ℕ.zero h = refl
neg-mod_q (ℕ.suc a) h =
    rw (nonzero_mask_positive (ℕ.suc a) (omega arith) (omega arith))
      (and_all _ (omega arith) ∙ omega arith)

-- Of every word the constant-time test gives all ones for zero, and zero for every other.
pub is_zero_ct_lem : (a : ℕ) → a < word → is_zero_ct a ≡ (if a == 0 then 4294967295 else 0)
unfolding is_zero_ct word_not
is_zero_ct_lem ℕ.zero h = refl
is_zero_ct_lem (ℕ.suc a) h =
    ground (arith, nonzero_mask_positive (ℕ.suc a) (omega arith) (omega arith))

-- The four bytes of a scalar read back as the scalar, for every word.
pub from_bytes-to_bytes : (a : ℕ) → a < word → from_bytes (to_bytes a) ≡ a
unfolding from_bytes to_bytes
from_bytes-to_bytes a h =
    rw
      (
        bit_and-mask 8 a,
        bit_and-mask 8 (a / 2 ^ 8),
        bit_and-mask 8 (a / 2 ^ 16),
        bit_and-mask 8 (a / 2 ^ 24),
        bit_or-high 8 (a % 2 ^ 8) _ (omega arith),
        bit_or-high 16 (a % 2 ^ 8 + a / 2 ^ 8 % 2 ^ 8 * 2 ^ 8) _ (omega arith),
        bit_or-high 24 (a % 2 ^ 8 + a / 2 ^ 8 % 2 ^ 8 * 2 ^ 8 + a / 2 ^ 16 % 2 ^ 8 * 2 ^ 16) _
            (omega arith),
      )
      (omega arith)
