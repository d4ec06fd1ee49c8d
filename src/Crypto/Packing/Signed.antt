-- ===== src/Crypto/Packing/Signed.antt =====
-- Canonical and signed representatives, and the fields that pack them, in
-- solomon-core/src/crypto/packing.rs.
use project_solomon.Prelude.{ℕ, ◌+◌, ◌-◌, ◌/◌, ◌%◌, ◌<◌, ◌≤◌, ◌⊎◌, inl, inr}
use project_solomon.Prelude.{◌≡◌, ap, leb→le, ◌∙◌, arith, leb, Bool-cases}
use native.Mathlib.Nat.{mod-eq_of_lt}
use project_solomon.Prelude.Bits.{bit_and-mask}
use project_solomon.Crypto.Word.{
  word_add, word_sub, sign_mask, word_not, and_all, and_none, or_none, none_or,
}
use project_solomon.Crypto.Word.{sign_mask_negative, sign_mask_positive}
use project_solomon.Crypto.Scalar.{q}
use project_solomon.Crypto.Packing.{
  to_signed, to_canonical, gamma1, as_u8, t1_field, small_field, t0_field, z_field,
}

-- A canonical value whose signed representative lies between `- low` and `high`.
abbrev pub Centered : ℕ → ℕ → ℕ → Type 0
Centered low high c = (c ≤ high) ⊎ ((8380417 ≤ c + low) × (c < 8380417))

pub to_signed_low : (c : ℕ) → c ≤ 4190208 → to_signed c ≡ c
unfolding to_signed word_sub word_not
to_signed_low c h =
    let positive : sign_mask (word_sub ((q - 1) / 2) c) ≡ 0 = sign_mask_positive _ (omega arith) in
    rw (positive, and_all c (omega arith), and_none (word_sub c q)) (or_none c)

pub to_signed_high : (c : ℕ) → 4190208 < c → c < 8380417 → to_signed c ≡ c + 4286586879
unfolding to_signed word_sub word_not
to_signed_high c h k =
    let negative : sign_mask (word_sub ((q - 1) / 2) c) ≡ 4294967295 =
      sign_mask_negative _ (omega arith) in
    rw (negative, and_none c, and_all (word_sub c q) (omega arith)) (none_or _ ∙ omega arith)

pub to_canonical_low : (v : ℕ) → v < 2147483648 → to_canonical v ≡ v
unfolding to_canonical word_add
to_canonical_low v h = rw (sign_mask_positive v h) (omega arith)

pub to_canonical_high :
    (v : ℕ) → 2147483648 ≤ v → v < 4294967296 → to_canonical v ≡ (v + 8380417) % 4294967296
unfolding to_canonical word_add
to_canonical_high v h k = rw (sign_mask_negative v h) (omega arith)

pub t1_field_lem : (c : ℕ) → t1_field c ≡ to_signed c % 1024
unfolding t1_field
t1_field_lem c = bit_and-mask 10 (to_signed c)

pub small_field_lem : (c : ℕ) → small_field c ≡ word_sub 4 (to_signed c) % 16
unfolding small_field as_u8
small_field_lem c = bit_and-mask 4 (as_u8 (word_sub 4 (to_signed c))) ∙ omega arith

pub t0_field_lem : (c : ℕ) → t0_field c ≡ word_sub 4096 (to_signed c) % 8192
unfolding t0_field
t0_field_lem c = bit_and-mask 13 (word_sub 4096 (to_signed c))

pub z_field_lem : (c : ℕ) → z_field c ≡ word_sub 524288 (to_signed c) % 1048576
unfolding z_field
z_field_lem c = bit_and-mask 20 (word_sub gamma1 (to_signed c))

-- A field read back is the coefficient.
pub t1_decode_code : (c : ℕ) → c < 1024 → to_canonical (t1_field c) ≡ c
t1_decode_code c h =
    to_canonical_low _ (omega (arith, t1_field_lem c))
    ∙ omega (arith, t1_field_lem c, to_signed_low c (omega arith))

pub t1_code_decode : (y : ℕ) → y < 1024 → t1_field (to_canonical y) ≡ y
t1_code_decode y h =
    rw (to_canonical_low y (omega arith))
      (omega (arith, t1_field_lem y, to_signed_low y (omega arith)))

-- The other three fields are a bias less the coefficient.
biased_code_low : (b c : ℕ) → b ≤ 524288 → c ≤ b → word_sub b (to_signed c) + c ≡ b
unfolding word_sub
biased_code_low b c k h = omega (arith, to_signed_low c (omega arith))

biased_code_high :
    (b c : ℕ)
    → b ≤ 524288
    → 8380417 ≤ c + 1048576
    → c < 8380417
    → word_sub b (to_signed c) + c ≡ b + 8380417
unfolding word_sub
biased_code_high b c k h l = omega (arith, to_signed_high c (omega arith) l)

biased_low : (b y : ℕ) → b ≤ 524288 → y ≤ b → to_canonical (word_sub b y) + y ≡ b
unfolding word_sub
biased_low b y k h = omega (arith, to_canonical_low (word_sub b y) (omega arith))

biased_high :
    (b y : ℕ) → b ≤ 524288 → b < y → y ≤ 1048576 → to_canonical (word_sub b y) + y ≡ b + 8380417
unfolding word_sub
biased_high b y k h l = omega (arith, to_canonical_high (word_sub b y) (omega arith) (omega arith))

pub biased_decode_code :
    (b m c : ℕ)
    → b ≤ 524288
    → b < m
    → m ≤ 1048576
    → Centered (m - b - 1) b c
    → to_canonical (word_sub b (word_sub b (to_signed c) % m)) ≡ c
biased_decode_code b m c k s l (inl p) =
    let code : word_sub b (to_signed c) + c ≡ b = biased_code_low b c k p in
    let kept : word_sub b (to_signed c) % m ≡ word_sub b (to_signed c) =
      mod-eq_of_lt (omega arith) in
    rw kept (omega (arith, biased_low b (word_sub b (to_signed c)) k (omega arith)))
biased_decode_code b m c k s l (inr (p, r)) =
    let code : word_sub b (to_signed c) + c ≡ b + 8380417 =
      biased_code_high b c k (omega arith) r in
    let kept : word_sub b (to_signed c) % m ≡ word_sub b (to_signed c) =
      mod-eq_of_lt (omega arith) in
    rw kept (omega (arith, biased_high b (word_sub b (to_signed c)) k (omega arith) (omega arith)))

pub biased_code_decode :
    (b m y : ℕ)
    → b ≤ 524288
    → m ≤ 1048576
    → y < m
    → word_sub b (to_signed (to_canonical (word_sub b y))) % m ≡ y
biased_code_decode b m y k l h = elim (Bool-cases (leb y b)) [
  | inl e ↦
      let low : to_canonical (word_sub b y) + y ≡ b = biased_low b y k (leb→le y b e) in
      let code : word_sub b (to_signed (to_canonical (word_sub b y))) + to_canonical (word_sub b y)
          ≡ b =
        biased_code_low b _ k (omega arith) in
      ap (λ (t : ℕ). t % m) (omega arith) ∙ mod-eq_of_lt h
  | inr e ↦
      let high : to_canonical (word_sub b y) + y ≡ b + 8380417 =
        biased_high b y k (ground arith) (omega arith) in
      let code : word_sub b (to_signed (to_canonical (word_sub b y))) + to_canonical (word_sub b y)
          ≡ b + 8380417 =
        biased_code_high b _ k (omega arith) (ground arith) in
      ap (λ (t : ℕ). t % m) (omega arith) ∙ mod-eq_of_lt h
]

pub small_decode_code : (c : ℕ) → Centered 11 4 c → to_canonical (word_sub 4 (small_field c)) ≡ c
small_decode_code c h =
    rw (small_field_lem c) (biased_decode_code 4 16 c (omega arith) (omega arith) (omega arith) h)

pub small_code_decode : (y : ℕ) → y < 16 → small_field (to_canonical (word_sub 4 y)) ≡ y
small_code_decode y h = small_field_lem _ ∙ biased_code_decode 4 16 y (omega arith) (omega arith) h

pub t0_decode_code : (c : ℕ) → Centered 4095 4096 c → to_canonical (word_sub 4096 (t0_field c)) ≡ c
t0_decode_code c h =
    rw (t0_field_lem c) (biased_decode_code 4096 8192 c (omega arith) (omega arith) (omega arith) h)

pub t0_code_decode : (y : ℕ) → y < 8192 → t0_field (to_canonical (word_sub 4096 y)) ≡ y
t0_code_decode y h = t0_field_lem _ ∙ biased_code_decode 4096 8192 y (omega arith) (omega arith) h

pub z_decode_code :
    (c : ℕ) → Centered 524287 524288 c → to_canonical (word_sub gamma1 (z_field c)) ≡ c
z_decode_code c h =
    rw (z_field_lem c)
      (biased_decode_code 524288 1048576 c (omega arith) (omega arith) (omega arith) h)

pub z_code_decode : (y : ℕ) → y < 1048576 → z_field (to_canonical (word_sub gamma1 y)) ≡ y
z_code_decode y h =
    z_field_lem _ ∙ biased_code_decode 524288 1048576 y (omega arith) (omega arith) h
