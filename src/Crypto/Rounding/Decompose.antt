-- ===== src/Crypto/Rounding/Decompose.antt =====
-- `decompose` of solomon-core/src/crypto/poly.rs, with the `alpha` of ML-DSA-65.
use project_solomon.Prelude.{
  ℕ, ◌+◌, ◌-◌, ◌*◌, ◌/◌, ◌%◌, ◌<◌, ◌≤◌, inl, inr, bit_and, leb, leb→le, if◌then◌else◌, Bool-cases,
}
use project_solomon.Prelude.{◌≡◌, refl, ap, ap₂, ◌∙◌, arith}
use project_solomon.Crypto.Word.{
  word_add, word_sub, word_not, word_div, word_rem, sign_mask, masked, and_all, and_none,
}
use project_solomon.Crypto.Scalar.{q}
use project_solomon.Crypto.Scalar.Laws.{nonzero_mask_positive}
use project_solomon.Crypto.Packing.Signed.{Centered}
use project_solomon.Crypto.Rounding.{
  centred_rem, wrap_mask, quotient, decompose_coeff, high_bits_coeff,
}

-- `2 * GAMMA2`
abbrev pub alpha : ℕ
alpha = 523776

pub rem_low : (r : ℕ) → r < 8380417 → r % 523776 ≤ 261888 → centred_rem r alpha ≡ r % 523776
unfolding centred_rem word_rem word_sub
rem_low r h k =
    let plain : word_rem r alpha ≡ r % 523776 = ground arith in
    rw plain (ground (arith, masked 523776 (word_sub 261888 (r % 523776)) (omega arith)))

pub rem_high :
    (r : ℕ) → r < 8380417 → 261888 < r % 523776 → centred_rem r alpha ≡ r % 523776 + 4294443520
unfolding centred_rem word_rem word_sub
rem_high r h k =
    let plain : word_rem r alpha ≡ r % 523776 = ground arith in
    rw plain (ground (arith, masked 523776 (word_sub 261888 (r % 523776)) (omega arith)))

wrap_zero : (r s : ℕ) → word_sub (word_sub r s) (q - 1) ≡ 0 → wrap_mask r s ≡ 4294967295
unfolding wrap_mask word_not
wrap_zero r s e = rw e refl

wrap_positive : (r s : ℕ) → 0 < word_sub (word_sub r s) (q - 1) → wrap_mask r s ≡ 0
unfolding wrap_mask word_not word_sub
wrap_positive r s h =
    rw (nonzero_mask_positive (word_sub (word_sub r s) (q - 1)) h (omega arith)) refl

below_one : (k : ℕ) → k < 16 → 0 < word_sub (k * 523776) (q - 1)
unfolding word_sub
below_one k h = omega arith

difference : word_sub 8380416 (q - 1) ≡ 0
unfolding word_sub
difference = refl

-- The rest is a multiple of alpha below q - 1.
pub quotient_below :
    (r s k : ℕ)
    → word_sub r s ≡ k * 523776
    → k < 16
    → (quotient r s alpha ≡ k) × (wrap_mask r s ≡ 0)
unfolding quotient word_not word_div
quotient_below r s k e h =
    let wrap : wrap_mask r s ≡ 0 = wrap_positive r s (rw e (below_one k h)) in
    (rw (wrap, e) (and_all _ (ground arith) ∙ ground arith), wrap)

-- The rest is q - 1.
pub quotient_wrap :
    (r s : ℕ) → word_sub r s ≡ 8380416 → (quotient r s alpha ≡ 0) × (wrap_mask r s ≡ 4294967295)
unfolding quotient word_not
quotient_wrap r s e =
    let wrap : wrap_mask r s ≡ 4294967295 = wrap_zero r s (rw e difference) in
    (rw wrap (and_none _), wrap)

-- The three shapes that a canonical coefficient has: a remainder up to the rounding range, a
-- remainder above it, and the coefficients that round to q - 1.
pub data Shape (r : ℕ) : Type 0 where
  low : (k s : ℕ) → k < 16 → s ≤ 261888 → r ≡ k * 523776 + s → centred_rem r alpha ≡ s → Shape r
  high :
      (k t : ℕ)
      → 0 < k
      → k < 16
      → 0 < t
      → t < 261888
      → r + t ≡ k * 523776
      → centred_rem r alpha + t ≡ 4294967296
      → Shape r
  top : (t : ℕ) → t < 261888 → r + t ≡ 8380416 → word_add (centred_rem r alpha) t ≡ 0 → Shape r

pub shape : (r : ℕ) → r < q → Shape r
unfolding word_add
shape r h = elim (Bool-cases (leb (r % 523776) 261888)) [
  | inl e ↦ elim (Bool-cases (leb 8380416 r)) [
    | inl f ↦
        let top_value : r ≡ 8380416 = ground arith in
        Shape.top 0 (omega arith) (omega arith) (omega (arith, rem_low r h (leb→le _ _ e)))
    | inr f ↦
        Shape.low (r / 523776) (r % 523776) (ground arith) (leb→le _ _ e) (omega arith)
          (rem_low r h (leb→le _ _ e))
  ]
  | inr e ↦
      let above : 261888 < r % 523776 = ground arith in
      elim (Bool-cases (leb 15 (r / 523776))) [
        | inl f ↦
            Shape.top (523776 - r % 523776) (omega arith) (ground arith)
              (omega (arith, rem_high r h above))
        | inr f ↦
            Shape.high (r / 523776 + 1) (523776 - r % 523776) (omega arith) (ground arith)
              (omega arith) (omega arith) (omega arith) (omega (arith, rem_high r h above))
      ]
]

rest_low :
    (r k s c : ℕ) → k < 16 → s ≤ 261888 → r ≡ k * 523776 + s → c ≡ s → word_sub r c ≡ k * 523776
unfolding word_sub
rest_low r k s c h l e f = omega arith

rest_high :
    (r k t c : ℕ)
    → k < 16
    → 0 < t
    → t < 261888
    → r + t ≡ k * 523776
    → c + t ≡ 4294967296
    → word_sub r c ≡ k * 523776
unfolding word_sub
rest_high r k t c h l0 l e f = omega arith

rest_top :
    (r t c : ℕ)
    → t < 261888
    → r + t ≡ 8380416
    → word_add c t ≡ 0
    → c < 4294967296
    → word_sub r c ≡ 8380416
unfolding word_sub word_add
rest_top r t c l e f b = omega arith

pub centred_rem_below : (r : ℕ) → centred_rem r alpha < 4294967296
unfolding centred_rem word_sub
centred_rem_below r = omega arith

-- What the loops of `decompose` and `use_hint` hold for a coefficient of each shape: the low part
-- before it is made canonical, and the high part.
pub record Parts (r r0 r1 : ℕ) : Type 0 where
  pub low_part : word_add (centred_rem r alpha) (wrap_mask r (centred_rem r alpha)) ≡ r0
  pub high_part : quotient r (centred_rem r alpha) alpha ≡ r1

pub Parts-low :
    (r k s : ℕ) → k < 16 → s ≤ 261888 → r ≡ k * 523776 + s → centred_rem r alpha ≡ s → Parts r s k
unfolding word_add
Parts-low r k s h l e c =
    let rest : word_sub r (centred_rem r alpha) ≡ k * 523776 = rest_low r k s _ h l e c in
    let (quot, wrap) = quotient_below r (centred_rem r alpha) k rest h in
    record { low_part = omega arith; high_part = quot }

pub Parts-high :
    (r k t : ℕ)
    → 0 < k
    → k < 16
    → 0 < t
    → t < 261888
    → r + t ≡ k * 523776
    → centred_rem r alpha + t ≡ 4294967296
    → Parts r (4294967296 - t) k
unfolding word_add
Parts-high r k t h0 h l0 l e c =
    let rest : word_sub r (centred_rem r alpha) ≡ k * 523776 = rest_high r k t _ h l0 l e c in
    let (quot, wrap) = quotient_below r (centred_rem r alpha) k rest h in
    record { low_part = omega arith; high_part = quot }

pub Parts-top :
    (r t : ℕ)
    → t < 261888
    → r + t ≡ 8380416
    → word_add (centred_rem r alpha) t ≡ 0
    → centred_rem r alpha < 4294967296
    → Parts r (4294967295 - t) 0
unfolding word_add
Parts-top r t l e c b =
    let rest : word_sub r (centred_rem r alpha) ≡ 8380416 = rest_top r t _ l e c b in
    let (quot, wrap) = quotient_wrap r (centred_rem r alpha) rest in
    record { low_part = omega arith; high_part = quot }

decompose-Parts :
    (r r0 r1 : ℕ)
    → Parts r r0 r1
    → decompose_coeff r alpha ≡ (r1, word_add r0 (if leb 2147483648 r0 then q else 0))
unfolding decompose_coeff
decompose-Parts r r0 r1 p =
    ap₂ (λ (x y : ℕ). (x, word_add y (bit_and q (sign_mask y)))) p.high_part p.low_part
    ∙ ap (λ (t : ℕ). (r1, word_add r0 t)) (masked q r0 (omega arith))

canonical_low : (s : ℕ) → s ≤ 261888 → word_add s (if leb 2147483648 s then q else 0) ≡ s
unfolding word_add
canonical_low s l = ground arith

canonical_high :
    (t : ℕ)
    → 0 < t
    → t ≤ 261888
    → word_add (4294967296 - t) (if leb 2147483648 (4294967296 - t) then q else 0) ≡ 8380417 - t
unfolding word_add
canonical_high t l0 l = ground arith

canonical_top :
    (t : ℕ)
    → t < 261888
    → word_add (4294967295 - t) (if leb 2147483648 (4294967295 - t) then q else 0) ≡ 8380416 - t
unfolding word_add
canonical_top t l = ground arith

-- Of a canonical coefficient the decomposition gives a high part below 16 and a low part between
-- - 261888 and 261888, and alpha times the high part plus the low part is the coefficient modulo q.
pub decompose_coeff_lem :
    (r : ℕ)
    → r < q
    → let (r1, r0) = decompose_coeff r alpha in
      (r1 < 16) × Centered 261888 261888 r0 × ((r1 * alpha + r0) % q ≡ r)
decompose_coeff_lem r h = elim (shape r h) [
  | Shape.low k s b l e c ↦
      rw (decompose-Parts r s k (Parts-low r k s b l e c), canonical_low s l)
        (b, inl l, omega arith)
  | Shape.high k t b0 b l0 l e c ↦
      rw (decompose-Parts r _ k (Parts-high r k t b0 b l0 l e c), canonical_high t l0 (omega arith))
        (b, inr (omega arith, omega arith), omega arith)
  | Shape.top t l e c ↦
      rw (decompose-Parts r _ 0 (Parts-top r t l e c (centred_rem_below r)), canonical_top t l)
        (omega arith, inr (omega arith, omega arith), omega arith)
]

-- The high part that the hints compare is the one of the decomposition, and rounds the coefficient to
-- the nearest multiple of alpha, a tie downwards, with sixteen taken as zero.
pub high_bits_coeff_lem : (r : ℕ) → r < q → high_bits_coeff r alpha ≡ (r + 261887) / 523776 % 16
unfolding high_bits_coeff
high_bits_coeff_lem r h = elim (shape r h) [
  | Shape.low k s b l e c ↦ (Parts-low r k s b l e c).high_part ∙ omega arith
  | Shape.high k t b0 b l0 l e c ↦ (Parts-high r k t b0 b l0 l e c).high_part ∙ omega arith
  | Shape.top t l e c ↦ (Parts-top r t l e c (centred_rem_below r)).high_part ∙ omega arith
]
