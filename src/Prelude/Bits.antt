-- ===== src/Prelude/Bits.antt =====
-- `&` with a low mask, and `|` of disjoint fields, as arithmetic at every width.
use Prim.Native.Nat.{ℕ, zero, suc, ◌+◌, ◌-◌, ◌*◌, ◌/◌, ◌%◌, ◌^◌, ◌≤◌, ◌<◌, min, max}
use Prim.Native.Nat.{bit_and, bit_or, digits, bit_and-bitwise, bit_or-bitwise}
use mathlib.Core.Path.{◌≡◌, refl, ap, ◌∙◌}
use native.Mathlib.Nat.{pow-suc, one-le-pow, le_refl}
use native.Mathlib.Omega.{arith}

-- The count of digits to go matters only until the first number has run out.
pub digits_enough :
    (z : ℕ → ℕ) (f : ℕ → ℕ → ℕ) (n m a b : ℕ) → a ≤ n → a ≤ m → digits z f n a b ≡ digits z f m a b
digits_enough z f zero zero a b p q = refl
digits_enough z f zero (suc m) zero b p q = refl
digits_enough z f zero (suc m) (suc a) b p q = absurd (omega arith)
digits_enough z f (suc n) zero zero b p q = refl
digits_enough z f (suc n) zero (suc a) b p q = absurd (omega arith)
digits_enough z f (suc n) (suc m) zero b p q = refl
digits_enough z f (suc n) (suc m) (suc a) b p q =
    ap (λ (t : ℕ). t * 2 + f (suc a % 2) (b % 2))
      (digits_enough z f n m (suc a / 2) (b / 2) (omega arith) (omega arith))

pub bit_or_low : (a b : ℕ) → bit_or a b ≡ bit_or (a / 2) (b / 2) * 2 + max (a % 2) (b % 2)
bit_or_low zero b = omega (arith, bit_or-bitwise 0 b, bit_or-bitwise (0 / 2) (b / 2))
bit_or_low (suc a) b = omega (
  arith,
  bit_or-bitwise (suc a) b,
  bit_or-bitwise (suc a / 2) (b / 2),
  digits_enough (λ y. y) max a (suc a / 2) (suc a / 2) (b / 2) (omega arith) (le_refl _),
)

pub bit_and_low : (a b : ℕ) → bit_and a b ≡ bit_and (a / 2) (b / 2) * 2 + min (a % 2) (b % 2)
bit_and_low zero b = omega (arith, bit_and-bitwise 0 b, bit_and-bitwise (0 / 2) (b / 2))
bit_and_low (suc a) b = omega (
  arith,
  bit_and-bitwise (suc a) b,
  bit_and-bitwise (suc a / 2) (b / 2),
  digits_enough (λ y. 0) min a (suc a / 2) (suc a / 2) (b / 2) (omega arith) (le_refl _),
)

pub bit_or_none : (k a : ℕ) → a ≤ k → bit_or a 0 ≡ a
bit_or_none zero zero h = refl
bit_or_none zero (suc a) h = absurd (omega arith)
bit_or_none (suc k) zero h = refl
bit_or_none (suc k) (suc a) h =
    omega (arith, bit_or_low (suc a) 0, bit_or_none k (suc a / 2) (omega arith))

pub bit_and_none : (k a : ℕ) → a ≤ k → bit_and a 0 ≡ 0
bit_and_none zero zero h = refl
bit_and_none zero (suc a) h = absurd (omega arith)
bit_and_none (suc k) zero h = refl
bit_and_none (suc k) (suc a) h =
    omega (arith, bit_and_low (suc a) 0, bit_and_none k (suc a / 2) (omega arith))

double_field : (b k : ℕ) → b * 2 ^ suc k ≡ b * 2 ^ k * 2
double_field b k = omega (arith, ap (λ (t : ℕ). b * t) (pow-suc 2 k))

-- A mask of ones cuts off whatever stands above it.
bit_and-mask_fields : (k q r : ℕ) → r < 2 ^ k → bit_and (q * 2 ^ k + r) (2 ^ k - 1) ≡ r
bit_and-mask_fields zero q r h =
    bit_and_none (q * 2 ^ zero + r) (q * 2 ^ zero + r) (le_refl _) ∙ omega arith
bit_and-mask_fields (suc k) q r h = ground (
  arith,
  bit_and_low (q * 2 ^ suc k + r) (2 ^ suc k - 1),
  double_field q k,
  pow-suc 2 k,
  one-le-pow k 2,
  bit_and-mask_fields k q (r / 2) (omega (arith, pow-suc 2 k)),
)

-- `a & (2^k - 1)` keeps the low k bits.
pub bit_and-mask : (k a : ℕ) → bit_and a (2 ^ k - 1) ≡ a % 2 ^ k
bit_and-mask k a = ground (arith, one-le-pow k 2, bit_and-mask_fields k (a / 2 ^ k) (a % 2 ^ k))

-- `a | (b << k)` adds the fields when `a` fits k bits.
pub bit_or-high : (k a b : ℕ) → a < 2 ^ k → bit_or a (b * 2 ^ k) ≡ a + b * 2 ^ k
bit_or-high zero a b h = ground (arith, bit_or-bitwise 0 b)
bit_or-high (suc k) a b h = ground (
  arith,
  bit_or_low a (b * 2 ^ suc k),
  double_field b k,
  pow-suc 2 k,
  bit_or-high k (a / 2) b (omega (arith, pow-suc 2 k)),
)

-- `(b << k) | a` does too.
pub bit_or-fields : (k a b : ℕ) → a < 2 ^ k → bit_or (b * 2 ^ k) a ≡ b * 2 ^ k + a
bit_or-fields zero a b h = ground (arith, bit_or_none b b (le_refl b))
bit_or-fields (suc k) a b h = ground (
  arith,
  bit_or_low (b * 2 ^ suc k) a,
  double_field b k,
  pow-suc 2 k,
  bit_or-fields k (a / 2) b (omega (arith, pow-suc 2 k)),
)

pub le_bit_or_left : (k a b : ℕ) → a ≤ k → a ≤ bit_or a b
le_bit_or_left k zero b h = omega arith
le_bit_or_left zero (suc a) b h = absurd (omega arith)
le_bit_or_left (suc k) (suc a) b h =
    omega (arith, bit_or_low (suc a) b, le_bit_or_left k (suc a / 2) (b / 2) (omega arith))

pub le_bit_or_right : (k a b : ℕ) → b ≤ k → b ≤ bit_or a b
le_bit_or_right k a zero h = omega arith
le_bit_or_right zero a (suc b) h = absurd (omega arith)
le_bit_or_right (suc k) a (suc b) h =
    omega (arith, bit_or_low a (suc b), le_bit_or_right k (a / 2) (suc b / 2) (omega arith))

-- Two masked fields in one byte.
pub two_fields :
    (k m a b : ℕ)
    → bit_or (bit_and a (2 ^ k - 1)) (bit_and b (2 ^ m - 1) * 2 ^ k) ≡ a % 2 ^ k + b % 2 ^ m * 2 ^ k
two_fields k m a b =
    rw (bit_and-mask k a, bit_and-mask m b)
      (bit_or-high k (a % 2 ^ k) (b % 2 ^ m) (ground (arith, one-le-pow k 2)))
