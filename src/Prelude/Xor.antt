-- ===== src/Prelude/Xor.antt =====
-- `|` and `^` that give zero, as constant-time comparisons test it.
use Prim.Native.Nat.{ℕ, zero, suc, ◌+◌, ◌*◌, ◌/◌, ◌%◌, ◌≤◌, max, bit_or, bit_xor, differ}
use Prim.Native.Nat.{bit_xor-bitwise, bit_or-bitwise}
use mathlib.Core.Path.{◌≡◌, refl, ap, ◌∙◌}
use mathlib.Core.List.{List, [], ◌∷◌}
use native.Mathlib.Nat.{le_refl}
use native.Mathlib.Omega.{arith}
use project_solomon.Prelude.Bits.{bit_or_low, digits_enough}
use project_solomon.Prelude.Lists.{length}

bit_or_zero : (k a b : ℕ) → a ≤ k → bit_or a b ≡ 0 → (a ≡ 0) × (b ≡ 0)
bit_or_zero zero zero b h e = (refl, omega (arith, bit_or-bitwise 0 b))
bit_or_zero zero (suc a) b h e = absurd (omega arith)
bit_or_zero (suc k) zero b h e = (refl, omega (arith, bit_or-bitwise 0 b))
bit_or_zero (suc k) (suc a) b h e =
    let low : bit_or (suc a) b ≡ bit_or (suc a / 2) (b / 2) * 2 + max (suc a % 2) (b % 2) =
      bit_or_low (suc a) b in
    let (p, q) = bit_or_zero k (suc a / 2) (b / 2) (omega arith) (omega arith) in
    (omega arith, omega arith)

differ_zero : (x y : ℕ) → differ x y ≡ 0 → x ≡ y
differ_zero zero y e = omega arith
differ_zero (suc x) zero e = absurd (omega arith)
differ_zero (suc x) (suc y) e = ap suc (differ_zero x y e)

differ_self : (x : ℕ) → differ x x ≡ 0
differ_self zero = refl
differ_self (suc x) = differ_self x

bit_xor_low : (a b : ℕ) → bit_xor a b ≡ bit_xor (a / 2) (b / 2) * 2 + differ (a % 2) (b % 2)
bit_xor_low zero b = omega (arith, bit_xor-bitwise 0 b, bit_xor-bitwise (0 / 2) (b / 2))
bit_xor_low (suc a) b = omega (
  arith,
  bit_xor-bitwise (suc a) b,
  bit_xor-bitwise (suc a / 2) (b / 2),
  digits_enough (λ y. y) differ a (suc a / 2) (suc a / 2) (b / 2) (omega arith) (le_refl _),
)

bit_xor_zero : (k a b : ℕ) → a ≤ k → bit_xor a b ≡ 0 → a ≡ b
bit_xor_zero zero zero b h e = omega (arith, bit_xor-bitwise 0 b)
bit_xor_zero zero (suc a) b h e = absurd (omega arith)
bit_xor_zero (suc k) zero b h e = omega (arith, bit_xor-bitwise 0 b)
bit_xor_zero (suc k) (suc a) b h e =
    let low : bit_xor (suc a) b ≡ bit_xor (suc a / 2) (b / 2) * 2 + differ (suc a % 2) (b % 2) =
      bit_xor_low (suc a) b in
    let p : suc a / 2 ≡ b / 2 = bit_xor_zero k (suc a / 2) (b / 2) (omega arith) (omega arith) in
    let q : suc a % 2 ≡ b % 2 = differ_zero (suc a % 2) (b % 2) (omega arith) in omega arith

bit_xor_self : (k a : ℕ) → a ≤ k → bit_xor a a ≡ 0
bit_xor_self zero zero h = refl
bit_xor_self zero (suc a) h = absurd (omega arith)
bit_xor_self (suc k) zero h = refl
bit_xor_self (suc k) (suc a) h = omega (
  arith,
  bit_xor_low (suc a) (suc a),
  bit_xor_self k (suc a / 2) (omega arith),
  differ_self (suc a % 2),
)

-- `for i in 0..n { diff |= a[i] ^ b[i]; }`, which reads both to the end whatever they hold.
unfoldable pub fold_diff : ℕ → List ℕ → List ℕ → ℕ
fold_diff diff [] ys = diff
fold_diff diff (x ∷ xs) [] = diff
fold_diff diff (x ∷ xs) (y ∷ ys) = fold_diff (bit_or diff (bit_xor x y)) xs ys

pub fold_diff_self : (xs : List ℕ) → fold_diff 0 xs xs ≡ 0
unfolding fold_diff
fold_diff_self [] = refl
fold_diff_self (x ∷ xs) =
    ap (λ d. fold_diff (bit_or 0 d) xs xs) (bit_xor_self x x (le_refl x)) ∙ fold_diff_self xs

fold_diff_zero :
    (diff : ℕ) (xs ys : List ℕ)
    → length xs ≡ length ys
    → fold_diff diff xs ys ≡ 0
    → (diff ≡ 0) × (xs ≡ ys)
unfolding fold_diff
fold_diff_zero diff [] [] l e = (e, refl)
fold_diff_zero diff [] (y ∷ ys) l e = absurd (omega arith)
fold_diff_zero diff (x ∷ xs) [] l e = absurd (omega arith)
fold_diff_zero diff (x ∷ xs) (y ∷ ys) l e =
    let (p, q) = fold_diff_zero (bit_or diff (bit_xor x y)) xs ys (omega arith) e in
    let (d, z) = bit_or_zero diff diff (bit_xor x y) (le_refl diff) p in
    (d, ap (λ t. t ∷ xs) (bit_xor_zero x x y (le_refl x) z) ∙ ap (λ t. y ∷ t) q)

pub eq_of_fold_diff : (xs ys : List ℕ) → length xs ≡ length ys → fold_diff 0 xs ys ≡ 0 → xs ≡ ys
eq_of_fold_diff xs ys l e = (fold_diff_zero 0 xs ys l e).1
