-- ===== src/Crypto/Scalar/Negative.antt =====
-- Montgomery reduction of negative products, and the reduction of any `i32` to the canonical range, in
-- solomon-core/src/crypto/scalar.rs and poly.rs.
use project_solomon.Prelude.{ℕ, ◌+◌, ◌-◌, ◌*◌, ◌/◌, ◌%◌, ◌^◌, ◌<◌, ◌≤◌, leb, leb→le, if◌then◌else◌}
use project_solomon.Prelude.{◌≡◌, refl, ap, ◌∙◌, arith, Bool-cases, inl, inr, ◌⊎◌}
use project_solomon.Crypto.Word.{word, word_mul}
use project_solomon.Crypto.Scalar.{q, q_inv, widen, long_sub, montgomery_reduce, reduce_coeff}
use project_solomon.Crypto.Scalar.Laws.{
  canonical, canonical_positive, canonical_negative, reduce_low, reduce_positive,
}

negative_positive :
    (prod m u t : ℕ)
    → prod + m ≡ 18446744073709551616
    → 0 < m
    → m < 2147483648 * 8380417
    → u < 2147483648
    → u * 8380417 % 4294967296 ≡ prod % 4294967296
    → t ≡ long_sub prod (u * 8380417 % 2 ^ 64) / 4294967296
    → (4286586879 < t) × (t < 4294967296) × (t * 4294967296 + u * 8380417 ≡ prod)
unfolding long_sub
negative_positive prod m u t s h0 h k e f = ground arith

negative_negative :
    (prod m u t : ℕ)
    → prod + m ≡ 18446744073709551616
    → 0 < m
    → m < 2147483648 * 8380417
    → 2147483648 ≤ u
    → u < 4294967296
    → u * 8380417 % 4294967296 ≡ prod % 4294967296
    → t ≡ long_sub prod ((u + (2 ^ 64 - 4294967296)) * 8380417 % 2 ^ 64) / 4294967296
    → ((t < 8380417) × (t * 4294967296 + u * 8380417 + m ≡ 4294967296 * 8380417))
      ⊎ ((4286586879 < t)
          × (t < 4294967296)
          × (t * 4294967296 + u * 8380417 ≡ prod + 4294967296 * 8380417))
unfolding long_sub
negative_negative prod m u t s h0 h k l e f = ground arith

canonical_lem :
    (prod m u t : ℕ)
    → prod + m ≡ 18446744073709551616
    → 0 < m
    → m < 2147483648 * 8380417
    → u < 4294967296
    → u * 8380417 % 4294967296 ≡ prod % 4294967296
    → t ≡ long_sub prod (widen u * 8380417 % 2 ^ 64) / 4294967296
    → (canonical t < 8380417) × ((canonical t * 4294967296 + m) % 8380417 ≡ 0)
unfolding widen
canonical_lem prod m u t s h0 h k low e = elim (Bool-cases (leb 2147483648 u)) [
  | inr f ↦
      let (p, p2, r) = negative_positive prod m u t s h0 h (ground arith) low (e ∙ rw (f) refl) in
      let c : canonical t + 4294967296 ≡ t + 8380417 = canonical_negative t p p2 in
      (omega arith, omega arith)
  | inl f ↦ elim (negative_negative prod m u t s h0 h (leb→le _ u f) k low (e ∙ rw (f) refl)) [
    | inl (p, r) ↦ let c : canonical t ≡ t = canonical_positive t p in (omega arith, omega arith)
    | inr (p, p2, r) ↦
        let c : canonical t + 4294967296 ≡ t + 8380417 = canonical_negative t p p2 in
        (omega arith, omega arith)
  ]
]

-- The reduction of a negative product.
pub montgomery_reduce_negative :
    (prod m : ℕ)
    → prod + m ≡ 2 ^ 64
    → 0 < m
    → m < 2 ^ 31 * q
    → (montgomery_reduce prod < q) × ((montgomery_reduce prod * 2 ^ 32 + m) % q ≡ 0)
unfolding montgomery_reduce canonical word_mul widen
montgomery_reduce_negative prod m s h0 h =
    canonical_lem prod m (word_mul (prod % word) q_inv) _ s h0 h (omega arith)
      (reduce_low prod _ refl) refl

-- Every `i32`, of either sign, is reduced to the canonical value that it is modulo q.
pub reduce_coeff_lem :
    (v : ℕ)
    → v < word
    → reduce_coeff v ≡ (if leb 2147483648 v then (2 ^ 32 * q + v - 2 ^ 32) % q else v % q)
unfolding reduce_coeff widen
reduce_coeff_lem v h = elim (Bool-cases (leb 2147483648 v)) [
  | inl f ↦
      let prod : ℕ = (v + (2 ^ 64 - 4294967296)) * 4193792 % 2 ^ 64 in
      let (p, r) =
        montgomery_reduce_negative prod ((4294967296 - v) * 4193792) (ground arith) (omega arith)
          (ground arith) in
      rw (f) (omega arith)
  | inr f ↦
      let small : v * 4193792 % 2 ^ 64 ≡ v * 4193792 = ground arith in
      let (p, r) = reduce_positive (v * 4193792) (ground arith) in
      rw (f) (ap montgomery_reduce small ∙ omega arith)
]
