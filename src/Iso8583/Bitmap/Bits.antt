-- ===== src/Iso8583/Bitmap/Bits.antt =====
-- One bit of a byte under `|=` and `&`, over all bytes.
use project_solomon.Prelude.{
  ℕ, ◌+◌, ◌*◌, ◌/◌, ◌%◌, ◌^◌, ◌<◌, ◌≡◌, refl, arith, ◌&&◌, ◌||◌, Bool, true, not,
}
use project_solomon.Prelude.{
  bit_and, bit_or, ltb, ◌==◌, all_below, all_below_sound, bool_eq, eq_of_bool_eq, true_of_and,
  ltb→lt,
}

abbrev pub has_bit : ℕ → ℕ → Bool
has_bit x j = not (bit_and x (2 ^ j) == 0)

-- The byte, the bit that is set and the bit that is read, in one number.
abbrev or_test : ℕ → Bool
or_test n =
    let x = n / 64 in
    let i = n / 8 % 8 in
    let j = n % 8 in
    ltb (bit_or x (2 ^ i)) 256 && bool_eq (has_bit (bit_or x (2 ^ i)) j) (i == j || has_bit x j)

or_table : all_below 16384 or_test ≡ true
unfolding all_below
or_table = refl

or_entry : (x i j : ℕ) → x < 256 → i < 8 → j < 8 → or_test (x * 64 + i * 8 + j) ≡ true
or_entry x i j hx hi hj = all_below_sound 16384 or_test (x * 64 + i * 8 + j) or_table (omega arith)

or_entry' :
    (x i j : ℕ)
    → x < 256
    → i < 8
    → j < 8
    → (ltb (bit_or x (2 ^ i)) 256 && bool_eq (has_bit (bit_or x (2 ^ i)) j) (i == j || has_bit x j))
      ≡ true
or_entry' x i j hx hi hj =
    let n : ℕ = x * 64 + i * 8 + j in
    let ex : n / 64 ≡ x = omega arith in
    let ei : n / 8 % 8 ≡ i = omega arith in
    let ej : n % 8 ≡ j = omega arith in rw (ex, ei, ej) at (or_entry x i j hx hi hj)

pub bit_or-lt : (x i : ℕ) → x < 256 → i < 8 → bit_or x (2 ^ i) < 256
bit_or-lt x i hx hi = ltb→lt _ _ (true_of_and _ _ (or_entry' x i 0 hx hi (omega arith))).0

-- After `x |= 1 << i` the bit `j` is set if it was or if it is `i`.
pub has_bit-or :
    (x i j : ℕ) → x < 256 → i < 8 → j < 8 → has_bit (bit_or x (2 ^ i)) j ≡ (i == j || has_bit x j)
has_bit-or x i j hx hi hj = eq_of_bool_eq _ _ (true_of_and _ _ (or_entry' x i j hx hi hj)).1
