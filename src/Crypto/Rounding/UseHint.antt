-- ===== src/Crypto/Rounding/UseHint.antt =====
-- The hints of solomon-core/src/crypto/poly.rs do what they are for.
use project_solomon.Prelude.{
  ℕ, zero, suc, ◌+◌, ◌-◌, ◌*◌, ◌/◌, ◌%◌, ◌<◌, ◌≤◌, ◌≢◌, inl, inr, bit_and, bit_or,
}
use project_solomon.Prelude.{◌≡◌, refl, sym, ap, ap₂, ◌∙◌, arith}
use native.Mathlib.Decide.{ℕ_discrete}
use project_solomon.Crypto.Word.{
  word_add, word_sub, word_not, word_rem, sign_mask, sign_mask_negative, sign_mask_positive,
  and_all, and_none, or_none, none_or,
}
use project_solomon.Crypto.Scalar.{q, add, nonzero_mask}
use project_solomon.Crypto.Scalar.Laws.{nonzero_mask_positive, add-mod_q}
use project_solomon.Crypto.Packing.Signed.{Centered}
use project_solomon.Crypto.Rounding.{high_bits_coeff, make_hint_coeff, use_hint_coeff}
use project_solomon.Crypto.Rounding.Decompose.{
  alpha, Shape, shape, Parts, Parts-low, Parts-high, Parts-top, centred_rem_below,
  high_bits_coeff_lem,
}

-- The step of `use_hint`: one up for a positive low part, and one down for another.
step : ℕ → ℕ
unfolding sign_mask word_not nonzero_mask
step r0 =
    let is_pos_mask : ℕ = word_not (bit_or (sign_mask r0) (word_not (nonzero_mask r0))) in
    bit_or (bit_and 1 is_pos_mask) (bit_and 15 (word_not is_pos_mask))

step_zero : step 0 ≡ 15
unfolding step
step_zero = refl

step_positive : (r0 : ℕ) → 0 < r0 → r0 < 2147483648 → step r0 ≡ 1
unfolding step word_not
step_positive r0 h k = rw (sign_mask_positive r0 k, nonzero_mask_positive r0 h (omega arith)) refl

step_negative : (r0 : ℕ) → 2147483648 ≤ r0 → r0 < 4294967296 → step r0 ≡ 15
unfolding step word_not
step_negative r0 h k = rw (sign_mask_negative r0 h, nonzero_mask_positive r0 (omega arith) k) refl

-- The choice that the hint makes, from the two parts of the coefficient.
choose : ℕ → ℕ → ℕ → ℕ
unfolding step word_rem word_add word_not nonzero_mask
choose r1 r0 h =
    let r1_adjusted : ℕ = word_rem (word_add r1 (step r0)) 16 in
    bit_or (bit_and r1 (word_not (nonzero_mask h))) (bit_and r1_adjusted (nonzero_mask h))

use_hint_choose : (r r0 r1 h : ℕ) → Parts r r0 r1 → use_hint_coeff alpha r h ≡ choose r1 r0 h
unfolding use_hint_coeff choose step
use_hint_choose r r0 r1 h p = ap₂ (λ (x y : ℕ). choose x y h) p.high_part p.low_part

choose_off : (r1 r0 : ℕ) → r1 < 16 → choose r1 r0 0 ≡ r1
unfolding choose
choose_off r1 r0 h = ap₂ bit_or (and_all r1 (omega arith)) (and_none _) ∙ or_none r1

choose_on : (r1 r0 : ℕ) → r1 < 16 → step r0 ≤ 15 → choose r1 r0 1 ≡ (r1 + step r0) % 16
unfolding choose word_rem word_add
choose_on r1 r0 h k =
    let sum : word_rem (word_add r1 (step r0)) 16 ≡ (r1 + step r0) % 16 = ground arith in
    ap₂ bit_or (and_none r1) (and_all _ (omega (arith, sum))) ∙ none_or _ ∙ sum

-- The hint is one exactly when the high parts differ.
hint_same :
    (r z : ℕ)
    → high_bits_coeff r alpha ≡ high_bits_coeff (add r z) alpha
    → high_bits_coeff r alpha < 16
    → make_hint_coeff alpha r z ≡ 0
unfolding make_hint_coeff word_sub
hint_same r z e h =
    let none_left : word_sub (high_bits_coeff r alpha) (high_bits_coeff (add r z) alpha) ≡ 0 =
      omega arith in
    rw none_left refl

hint_differs :
    (r z : ℕ)
    → high_bits_coeff r alpha ≢ high_bits_coeff (add r z) alpha
    → high_bits_coeff r alpha < 16
    → high_bits_coeff (add r z) alpha < 16
    → make_hint_coeff alpha r z ≡ 1
unfolding make_hint_coeff word_sub
hint_differs r z ne h k =
    rw
      (nonzero_mask_positive (word_sub (high_bits_coeff r alpha) (high_bits_coeff (add r z) alpha))
        (ground arith) (omega arith))
      refl

-- The high part after the step, for the two kinds of low part, is the high part of the sum.
step_up :
    (r z s k : ℕ)
    → Centered 261888 261888 z
    → k < 16
    → 0 < s
    → s ≤ 261888
    → r ≡ k * 523776 + s
    → ((r + z) % q + 261887) / 523776 % 16 ≢ k
    → ((r + z) % q + 261887) / 523776 % 16 ≡ (k + 1) % 16
step_up r z s k (inl c) h l0 l e ne = ground arith
step_up r z s k (inr (c, d)) h l0 l e ne = ground arith

step_down :
    (r z t k : ℕ)
    → Centered 261888 261888 z
    → k < 16
    → t < 261888
    → r + t ≡ k * 523776
    → ((r + z) % q + 261887) / 523776 % 16 ≢ k
    → ((r + z) % q + 261887) / 523776 % 16 ≡ (k + 15) % 16
step_down r z t k (inl c) h l e ne = ground arith
step_down r z t k (inr (c, d)) h l e ne = ground arith

step_top :
    (r z t : ℕ)
    → Centered 261888 261888 z
    → t < 261888
    → r + t ≡ 8380416
    → ((r + z) % q + 261887) / 523776 % 16 ≢ 0
    → ((r + z) % q + 261887) / 523776 % 16 ≡ 15
step_top r z t (inl c) l e ne = ground arith
step_top r z t (inr (c, d)) l e ne = ground arith

-- When the high part of the sum differs, the step takes the high part of the coefficient to it.
stepped :
    (r z : ℕ)
    → r < q
    → Centered 261888 261888 z
    → ((r + z) % q + 261887) / 523776 % 16 ≢ high_bits_coeff r alpha
    → use_hint_coeff alpha r 1 ≡ ((r + z) % q + 261887) / 523776 % 16
unfolding high_bits_coeff
stepped r z h c ne = elim (shape r h) [
  | Shape.low k zero b l e m ↦
      let p : Parts r 0 k = Parts-low r k 0 b l e m in
      use_hint_choose r 0 k 1 p
      ∙ choose_on k 0 b (omega (arith, step_zero))
      ∙ rw step_zero
          (sym (step_down r z 0 k c b (omega arith) (omega arith) (λ d. ne (d ∙ sym p.high_part))))
  | Shape.low k (suc s) b l e m ↦
      let p : Parts r (suc s) k = Parts-low r k (suc s) b l e m in
      let up : step (suc s) ≡ 1 = step_positive (suc s) (omega arith) (omega arith) in
      use_hint_choose r (suc s) k 1 p
      ∙ choose_on k (suc s) b (omega arith)
      ∙ rw up (sym (step_up r z (suc s) k c b (omega arith) l e (λ d. ne (d ∙ sym p.high_part))))
  | Shape.high k t b0 b l0 l e m ↦
      let p : Parts r (4294967296 - t) k = Parts-high r k t b0 b l0 l e m in
      let down : step (4294967296 - t) ≡ 15 = step_negative _ (omega arith) (omega arith) in
      use_hint_choose r _ k 1 p
      ∙ choose_on k _ b (omega arith)
      ∙ rw down (sym (step_down r z t k c b l e (λ d. ne (d ∙ sym p.high_part))))
  | Shape.top t l e m ↦
      let p : Parts r (4294967295 - t) 0 = Parts-top r t l e m (centred_rem_below r) in
      let down : step (4294967295 - t) ≡ 15 = step_negative _ (omega arith) (omega arith) in
      use_hint_choose r _ 0 1 p
      ∙ choose_on 0 _ (omega arith) (omega arith)
      ∙ rw down (sym (step_top r z t c l e (λ d. ne (d ∙ sym p.high_part))))
]

kept : (r : ℕ) → r < q → use_hint_coeff alpha r 0 ≡ high_bits_coeff r alpha
unfolding high_bits_coeff
kept r h = elim (shape r h) [
  | Shape.low k s b l e m ↦
      let p : Parts r s k = Parts-low r k s b l e m in
      use_hint_choose r s k 0 p ∙ choose_off k s b ∙ sym p.high_part
  | Shape.high k t b0 b l0 l e m ↦
      let p : Parts r (4294967296 - t) k = Parts-high r k t b0 b l0 l e m in
      use_hint_choose r _ k 0 p ∙ choose_off k _ b ∙ sym p.high_part
  | Shape.top t l e m ↦
      let p : Parts r (4294967295 - t) 0 = Parts-top r t l e m (centred_rem_below r) in
      use_hint_choose r _ 0 0 p ∙ choose_off 0 _ (omega arith) ∙ sym p.high_part
]

-- From a canonical coefficient and the hint alone, `use_hint` gives the high part of the sum with any
-- canonical value between - 261888 and 261888.
pub use_hint-make_hint :
    (r z : ℕ)
    → r < q
    → z < q
    → Centered 261888 261888 z
    → use_hint_coeff alpha r (make_hint_coeff alpha r z) ≡ high_bits_coeff (add r z) alpha
use_hint-make_hint r z h k c =
    let sum : high_bits_coeff (add r z) alpha ≡ ((r + z) % q + 261887) / 523776 % 16 =
      high_bits_coeff_lem (add r z) (omega (arith, add-mod_q r z h k))
      ∙ ap (λ (t : ℕ). (t + 261887) / 523776 % 16) (add-mod_q r z h k) in
    let own : high_bits_coeff r alpha ≡ (r + 261887) / 523776 % 16 = high_bits_coeff_lem r h in
    elim (ℕ_discrete (high_bits_coeff r alpha) (high_bits_coeff (add r z) alpha)) [
      | yes e ↦ ap (use_hint_coeff alpha r) (hint_same r z e (omega arith)) ∙ kept r h ∙ e
      | no ne ↦
          ap (use_hint_coeff alpha r) (hint_differs r z ne (omega arith) (omega arith))
          ∙ stepped r z h c (λ d. ne (sym (sum ∙ d)))
          ∙ sym sum
    ]
