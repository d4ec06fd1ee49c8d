-- ===== src/Crypto/Rounding/Power2Round.antt =====
-- `power2round` of solomon-core/src/crypto/poly.rs.
use project_solomon.Prelude.{
  ℕ, ◌+◌, ◌-◌, ◌*◌, ◌/◌, ◌%◌, ◌^◌, ◌<◌, ◌≤◌, inl, inr, bit_and, leb, leb→le, Bool-cases, List, All,
  length, length-map,
}
use project_solomon.Prelude.{◌≡◌, ap, ap₂, ◌∙◌, arith}
use project_solomon.Prelude.Bits.{bit_and-mask}
use project_solomon.Prelude.Radix.{All-map}
use project_solomon.Crypto.Word.{word_add, word_sub, word_shift, sign_mask, masked}
use project_solomon.Crypto.Scalar.{q}
use project_solomon.Crypto.Packing.Signed.{Centered}
use project_solomon.Crypto.Rounding.{to_range, power2round_coeff, power2round}

to_range_canonical : (r : ℕ) → r < 8380417 → to_range r ≡ r
unfolding to_range
to_range_canonical r h = ground arith

-- The low bits, centred: `r0_signed` of the low bits.
centre : ℕ → ℕ
unfolding word_sub sign_mask
centre low = word_sub low (bit_and 8192 (sign_mask (word_sub 4096 low)))

centre_positive : (low : ℕ) → low ≤ 4096 → centre low ≡ low
unfolding centre word_sub
centre_positive low h = ground (arith, masked 8192 (word_sub 4096 low) (omega arith))

centre_negative : (low : ℕ) → 4096 < low → low < 8192 → centre low ≡ low + 4294959104
unfolding centre word_sub
centre_negative low h k = ground (arith, masked 8192 (word_sub 4096 low) (omega arith))

-- The two results from the centred low bits.
results : ℕ → ℕ → ℕ × ℕ
unfolding word_sub word_add word_shift sign_mask
results r s = (word_shift (word_sub r s) 13, word_add s (bit_and q (sign_mask s)))

results_positive : (r s : ℕ) → r < 8380417 → s ≤ r → results r s ≡ ((r - s) / 8192, s)
unfolding results word_sub word_shift word_add
results_positive r s h k =
    ap₂ (λ (x y : ℕ). (x, y)) (ground arith) (ground (arith, masked q s (omega arith)))

results_negative :
    (r t : ℕ)
    → r < 8380417
    → 0 < t
    → t ≤ 8192
    → results r (4294967296 - t) ≡ ((r + t) / 8192, 8380417 - t)
unfolding results word_sub word_shift word_add
results_negative r t h k l =
    ap₂ (λ (x y : ℕ). (x, y)) (ground arith)
      (ground (arith, masked q (4294967296 - t) (omega arith)))

power2round_eq : (r : ℕ) → r < 8380417 → power2round_coeff r ≡ results r (centre (r % 8192))
unfolding power2round_coeff results centre
power2round_eq r h =
    rw (to_range_canonical r h) (ap (λ (t : ℕ). results r (centre t)) (bit_and-mask 13 r))

-- Of a canonical coefficient the rounding gives a high part below 1024 and a low part between - 4095
-- and 4096, and 2^13 times the high part plus the low part is the coefficient modulo q.
pub power2round_coeff_lem :
    (r : ℕ)
    → r < q
    → let (r1, r0) = power2round_coeff r in
      (r1 < 1024) × Centered 4095 4096 r0 × ((r1 * 2 ^ 13 + r0) % q ≡ r)
power2round_coeff_lem r h = elim (Bool-cases (leb (r % 8192) 4096)) [
  | inl e ↦
      rw
        (
          power2round_eq r h,
          centre_positive (r % 8192) (leb→le _ _ e),
          results_positive r (r % 8192) h (omega arith),
        )
        (omega arith, inl (leb→le _ _ e), omega arith)
  | inr e ↦
      let high : 4096 < r % 8192 = ground arith in
      let shifted : centre (r % 8192) ≡ 4294967296 - (8192 - r % 8192) =
        centre_negative (r % 8192) high (omega arith) ∙ omega arith in
      rw
        (
          power2round_eq r h,
          shifted,
          results_negative r (8192 - r % 8192) h (omega arith) (omega arith),
        )
        (omega arith, inr (omega arith, omega arith), omega arith)
]

-- Of a polynomial with canonical coefficients: the high part packs into ten bits, the low part into
-- thirteen.
pub power2round_packs :
    (coeffs : List ℕ)
    → length coeffs ≡ 256
    → All (λ r. r < q) coeffs
    → let (r1, r0) = power2round coeffs in
      ((length r1 ≡ 256) × All (λ c. c < 1024) r1)
      × ((length r0 ≡ 256) × All (Centered 4095 4096) r0)
unfolding power2round
power2round_packs coeffs l h = (
  (
    length-map _ coeffs ∙ l,
    All-map (λ r. r < q) (λ c. c < 1024) _ coeffs
        (λ r k. let (p, s, t) = power2round_coeff_lem r k in p) h,
  ),
  (
    length-map _ coeffs ∙ l,
    All-map (λ r. r < q) (Centered 4095 4096) _ coeffs
        (λ r k. let (p, s, t) = power2round_coeff_lem r k in s) h,
  ),
)
