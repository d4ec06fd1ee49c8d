-- ===== src/Crypto/Word.antt =====
-- The `i32` of solomon-core/src/crypto as a word of 32 bits in two's complement: a number below
-- 2^32 that stands for itself below 2^31, and for itself less 2^32 from there on. Arithmetic wraps
-- around, as it does in a build without overflow checks.
use Prim.Native.Nat.{ℕ, ◌+◌, ◌-◌, ◌*◌, ◌/◌, ◌%◌, ◌^◌, ◌<◌, ◌≤◌, bit_and, bit_or, bit_or-bitwise}
use mathlib.Core.Path.{◌≡◌}
use mathlib.Core.Logic.{inl, inr}
use native.Mathlib.Omega.{arith}
use project_solomon.Prelude.Tests.{leb, leb→le, if◌then◌else◌, Bool-cases}
use project_solomon.Prelude.Bits.{bit_and-mask, bit_or_none}

abbrev pub word : ℕ
word = 4294967296

-- `a + b`
unfoldable pub word_add : ℕ → ℕ → ℕ
word_add a b = (a + b) % word

-- `a - b`
unfoldable pub word_sub : ℕ → ℕ → ℕ
word_sub a b = (a + (word - b)) % word

-- `a.wrapping_mul(b)`
unfoldable pub word_mul : ℕ → ℕ → ℕ
word_mul a b = a * b % word

-- `a >> 31`: all ones for a negative number, and zero for another.
unfoldable pub sign_mask : ℕ → ℕ
sign_mask a = if leb 2147483648 a then 4294967295 else 0

-- `!a`
unfoldable pub word_not : ℕ → ℕ
word_not a = 4294967295 - a

-- `(a & !mask) | (b & mask)`, with the mask of a sign, chooses.
pub sign_mask_negative : (a : ℕ) → 2147483648 ≤ a → sign_mask a ≡ 4294967295
unfolding sign_mask
sign_mask_negative a h = ground arith

pub sign_mask_positive : (a : ℕ) → a < 2147483648 → sign_mask a ≡ 0
unfolding sign_mask
sign_mask_positive a h = ground arith

pub and_all : (a : ℕ) → a < word → bit_and a 4294967295 ≡ a
and_all a h = omega (arith, bit_and-mask 32 a)

pub and_none : (a : ℕ) → bit_and a 0 ≡ 0
and_none a = omega (arith, bit_and-mask 0 a)

pub or_none : (a : ℕ) → bit_or a 0 ≡ a
or_none a = omega (arith, bit_or_none a a (omega arith))

pub none_or : (a : ℕ) → bit_or 0 a ≡ a
none_or a = omega (arith, bit_or-bitwise 0 a)

-- `a >> k`, which keeps the sign.
unfoldable pub word_shift : ℕ → ℕ → ℕ
word_shift a k = if leb 2147483648 a then 4294967295 - (4294967295 - a) / 2 ^ k else a / 2 ^ k

-- `a % b` for a positive `b`: the remainder has the sign of `a`.
unfoldable pub word_rem : ℕ → ℕ → ℕ
unfolding word_sub
word_rem a b = if leb 2147483648 a then word_sub 0 ((word - a) % b) else a % b

-- `a / b` for a positive `b`: the quotient is cut towards zero.
unfoldable pub word_div : ℕ → ℕ → ℕ
unfolding word_sub
word_div a b = if leb 2147483648 a then word_sub 0 ((word - a) / b) else a / b

pub masked : (c a : ℕ) → c < word → bit_and c (sign_mask a) ≡ (if leb 2147483648 a then c else 0)
masked c a h = elim (Bool-cases (leb 2147483648 a)) [
  | inl e ↦ rw (e, sign_mask_negative a (leb→le _ a e)) (and_all c h)
  | inr e ↦ rw (e, sign_mask_positive a (ground arith)) (and_none c)
]
