-- ===== src/Crypto/Poly/Norm.antt =====
-- The norm of solomon-core/src/crypto/poly.rs, which a signature is checked with.
use project_solomon.Prelude.{
  ℕ, ◌-◌, ◌/◌, ◌<◌, ◌≤◌, inl, inr, ◌↔◌, Bool-cases, leb, leb→le, List, [], ◌∷◌, All,
}
use project_solomon.Prelude.{◌≡◌, ◌∙◌, arith}
use project_solomon.Crypto.Word.{
  word_sub, sign_mask, word_not, sign_mask_negative, sign_mask_positive, and_all, and_none, or_none,
  none_or,
}
use project_solomon.Crypto.Scalar.{q}
use project_solomon.Crypto.Packing.Signed.{Centered}
use project_solomon.Crypto.Poly.{abs_val, mask_max, norm_loop, inf_norm}

abs_low : (c : ℕ) → c ≤ 4190208 → abs_val c ≡ c
unfolding abs_val word_sub word_not
abs_low c h =
    let positive : sign_mask (word_sub ((q - 1) / 2) c) ≡ 0 = sign_mask_positive _ (omega arith) in
    rw (positive, and_all c (omega arith), and_none (word_sub q c)) (or_none c)

abs_high : (c : ℕ) → 4190208 < c → c < 8380417 → abs_val c ≡ 8380417 - c
unfolding abs_val word_sub word_not
abs_high c h k =
    let negative : sign_mask (word_sub ((q - 1) / 2) c) ≡ 4294967295 =
      sign_mask_negative _ (omega arith) in
    rw (negative, and_none c, and_all (word_sub q c) (omega arith)) (none_or _ ∙ omega arith)

max_left : (m a : ℕ) → m < 8380417 → a ≤ m → mask_max m a ≡ m
unfolding mask_max word_sub word_not
max_left m a h k =
    let positive : sign_mask (word_sub m a) ≡ 0 = sign_mask_positive _ (omega arith) in
    rw (positive, and_all m (omega arith), and_none a) (or_none m)

max_right : (m a : ℕ) → a < 8380417 → m < a → mask_max m a ≡ a
unfolding mask_max word_sub word_not
max_right m a h k =
    let negative : sign_mask (word_sub m a) ≡ 4294967295 = sign_mask_negative _ (omega arith) in
    rw (negative, and_none m, and_all a (omega arith)) (none_or a)

abs_below : (c : ℕ) → c < q → abs_val c < 8380417
abs_below c h = elim (Bool-cases (leb c 4190208)) [
  | inl e ↦ omega (arith, abs_low c (leb→le _ _ e))
  | inr e ↦ let high : abs_val c ≡ 8380417 - c = abs_high c (ground arith) h in ground arith
]

-- A value is within a bound exactly when its signed representative is.
within :
    (b c : ℕ)
    → b ≤ 4190208
    → c < q
    → (abs_val c ≤ b → Centered b b c) × (Centered b b c → abs_val c ≤ b)
within b c h k = elim (Bool-cases (leb c 4190208)) [
  | inl e ↦
      let low : abs_val c ≡ c = abs_low c (leb→le _ _ e) in
      (λ l. inl (omega arith), λ d. ground arith)
  | inr e ↦
      let high : abs_val c ≡ 8380417 - c = abs_high c (ground arith) k in
      (λ l. inr (omega arith, k), λ d. ground arith)
]

norm_within :
    (b m : ℕ) (coeffs : List ℕ)
    → b ≤ 4190208
    → m < 8380417
    → All (λ c. c < q) coeffs
    → (norm_loop m coeffs ≤ b → (m ≤ b) × All (Centered b b) coeffs)
      × (m ≤ b → All (Centered b b) coeffs → norm_loop m coeffs ≤ b)
unfolding norm_loop
norm_within b m [] h k hs = (λ l. (l, tt), λ l cs. l)
norm_within b m (c ∷ coeffs) h k (l, hs) =
    let (to, from) = within b c h l in
    let bound : abs_val c < 8380417 = abs_below c l in
    elim (Bool-cases (leb (abs_val c) m)) [
      | inl e ↦
          let kept : mask_max m (abs_val c) ≡ m = max_left m (abs_val c) k (leb→le _ _ e) in
          let (there, back) = norm_within b (mask_max m (abs_val c)) coeffs h (omega arith) hs in
          (
            λ n. let (p, cs) = there n in (omega arith, (to (ground arith), cs)),
            λ n cs. let (d, ds) = cs in back (omega arith) ds,
          )
      | inr e ↦
          let kept : mask_max m (abs_val c) ≡ abs_val c =
            max_right m (abs_val c) bound (ground arith) in
          let (there, back) = norm_within b (mask_max m (abs_val c)) coeffs h (omega arith) hs in
          (
            λ n. let (p, cs) = there n in (ground arith, (to (omega arith), cs)),
            λ n cs. let (d, ds) = cs in back (rw kept (from d)) ds,
          )
    ]

-- The norm of a polynomial with canonical coefficients is at most a bound exactly when every
-- coefficient's signed representative is between the bound and its negative.
pub inf_norm_iff :
    (b : ℕ) (coeffs : List ℕ)
    → b ≤ 4190208
    → All (λ c. c < q) coeffs
    → (inf_norm coeffs ≤ b) ↔ All (Centered b b) coeffs
unfolding inf_norm
inf_norm_iff b coeffs h hs =
    let (there, back) = norm_within b 0 coeffs h (omega arith) hs in
    (λ n. let (p, cs) = there n in cs, λ cs. back (omega arith) cs)
