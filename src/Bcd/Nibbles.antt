-- ===== src/Bcd/Nibbles.antt =====
-- Two decimal digits in one byte of solomon-core/src/bcd.rs, as arithmetic.
use project_solomon.Prelude.{ℕ, ◌+◌, ◌*◌, ◌/◌, ◌%◌, ◌^◌, ◌<◌, bit_or, ◌≡◌, arith, ap, ◌∙◌}
use project_solomon.Prelude.Bits.{bit_and-mask, bit_or-fields}
use project_solomon.Bcd.{shl4, high_nibble, low_nibble}

pub packed_byte : (h l : ℕ) → h < 16 → l < 16 → bit_or (shl4 h) l ≡ h * 16 + l
packed_byte h l p q =
    let e : h * 2 ^ 4 % 2 ^ 8 ≡ h * 2 ^ 4 = omega arith in
    ap (λ (t : ℕ). bit_or t l) e ∙ bit_or-fields 4 l h q

pub high_nibble-eq : (b : ℕ) → high_nibble b ≡ b / 16 % 16
high_nibble-eq b = bit_and-mask 4 (b / 2 ^ 4)

pub low_nibble-eq : (b : ℕ) → low_nibble b ≡ b % 16
low_nibble-eq b = bit_and-mask 4 b

-- The nibbles of a packed byte are the two digits.
pub high-packed : (h l : ℕ) → h < 16 → l < 16 → high_nibble (bit_or (shl4 h) l) ≡ h
high-packed h l p q =
    ap (λ (t : ℕ). high_nibble t) (packed_byte h l p q) ∙ high_nibble-eq (h * 16 + l) ∙ omega arith

pub low-packed : (h l : ℕ) → h < 16 → l < 16 → low_nibble (bit_or (shl4 h) l) ≡ l
low-packed h l p q =
    ap (λ (t : ℕ). low_nibble t) (packed_byte h l p q) ∙ low_nibble-eq (h * 16 + l) ∙ omega arith
