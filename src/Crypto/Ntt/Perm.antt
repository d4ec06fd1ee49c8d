-- ===== src/Crypto/Ntt/Perm.antt =====
-- The shuffle of solomon-core/src/crypto/poly.rs permutes, and steps that commute may be permuted.
use project_solomon.Prelude.{
  ℕ, zero, suc, ◌+◌, ◌*◌, ◌/◌, ◌%◌, ◌<◌, List, [], ◌∷◌, get_or, set, length, length-set, All,
}
use project_solomon.Prelude.{◌≡◌, refl, ap, ◌∙◌, arith}
use native.Mathlib.Nat.{mul-lt-mul_of_pos_right}
use project_solomon.Prelude.Radix.{upper_digits}
use project_solomon.Crypto.Ntt.{next_u32, swap, shuffle, run}

-- One list is a rearrangement of the other.
pub data Perm : List ℕ → List ℕ → Type 0 where
  same : (xs : List ℕ) → Perm xs xs
  keep : (x : ℕ) (xs ys : List ℕ) → Perm xs ys → Perm (x ∷ xs) (x ∷ ys)
  flip : (x y : ℕ) (xs : List ℕ) → Perm (x ∷ y ∷ xs) (y ∷ x ∷ xs)
  chain : (xs ys zs : List ℕ) → Perm xs ys → Perm ys zs → Perm xs zs

-- An element exchanged with the one in front.
front : (x : ℕ) (xs : List ℕ) (i : ℕ) → i < length xs → Perm (x ∷ xs) (get_or xs i 0 ∷ set xs i x)
front x [] i h = absurd (omega arith)
front x (y ∷ ys) zero h = Perm.flip x y ys
front x (y ∷ ys) (suc i) h =
    Perm.chain (x ∷ y ∷ ys) (y ∷ x ∷ ys) (get_or ys i 0 ∷ y ∷ set ys i x) (Perm.flip x y ys) (
      Perm.chain (y ∷ x ∷ ys) (y ∷ get_or ys i 0 ∷ set ys i x) (get_or ys i 0 ∷ y ∷ set ys i x)
        (Perm.keep y (x ∷ ys) (get_or ys i 0 ∷ set ys i x) (front x ys i (omega arith)))
        (Perm.flip y (get_or ys i 0) (set ys i x)))

pub swap-Perm : (xs : List ℕ) (i j : ℕ) → i < length xs → j < length xs → Perm xs (swap xs i j)
unfolding swap
swap-Perm [] i j h k = absurd (omega arith)
swap-Perm (x ∷ xs) zero zero h k = Perm.same (x ∷ xs)
swap-Perm (x ∷ xs) zero (suc j) h k = front x xs j (omega arith)
swap-Perm (x ∷ xs) (suc i) zero h k = front x xs i (omega arith)
swap-Perm (x ∷ xs) (suc i) (suc j) h k =
    Perm.keep x xs (swap xs i j) (swap-Perm xs i j (omega arith) (omega arith))

length-swap : (xs : List ℕ) (i j : ℕ) → length (swap xs i j) ≡ length xs
unfolding swap
length-swap xs i j =
    length-set (set xs i (get_or xs j 0)) j (get_or xs i 0) ∙ length-set xs i (get_or xs j 0)

-- The index that is drawn does not pass the bound.
draw_below :
    (state k : ℕ) → 0 < k → (let (number, state') = next_u32 state in number * k / 4294967296) < k
unfolding next_u32
draw_below state k h =
    let number : ℕ =
      (state * 6364136223846793005 + 1442695040888963407) % 18446744073709551616 / 4294967296 in
    let small : number < 4294967296 = omega arith in
    upper_digits 4294967296 (number * k) k (omega arith) (mul-lt-mul_of_pos_right small h)

-- Whatever the state of the generator, the shuffle rearranges.
pub shuffle-Perm :
    (i state : ℕ) (order : List ℕ)
    → i < length order
    → let (shuffled, state') = shuffle i state order in Perm order shuffled
unfolding shuffle next_u32
shuffle-Perm zero state order h = Perm.same order
shuffle-Perm (suc i) state order h =
    let (number, state') = next_u32 state in
    let j : ℕ = number * (suc i + 1) / 4294967296 in
    let (shuffled, final) = shuffle i state' (swap order (suc i) j) in
    Perm.chain order (swap order (suc i) j) shuffled
      (swap-Perm order (suc i) j h (omega (arith, draw_below state (suc i + 1) (omega arith))))
      (shuffle-Perm i state' (swap order (suc i) j) (omega (arith, length-swap order (suc i) j)))

Perm-All : (P : ℕ → Type 0) {xs ys : List ℕ} → Perm xs ys → All P xs → All P ys
Perm-All P (Perm.same xs) h = h
Perm-All P (Perm.keep x xs ys p) (h, hs) = (h, Perm-All P p hs)
Perm-All P (Perm.flip x y xs) (h, (k, hs)) = (k, (h, hs))
Perm-All P (Perm.chain xs ys zs p r) h = Perm-All P r (Perm-All P p h)

-- Steps that commute on the indices that a list holds give the same result in any order.
module _ (P : ℕ → Type 0) (step : List ℕ → ℕ → List ℕ)
    (commute : (a b : ℕ) (coeffs : List ℕ)
      → P a
      → P b
      → step (step coeffs a) b ≡ step (step coeffs b) a) where
  pub run-Perm :
      {xs ys : List ℕ} (coeffs : List ℕ)
      → Perm xs ys
      → All P xs
      → run step xs coeffs ≡ run step ys coeffs
  unfolding run
  run-Perm coeffs (Perm.same xs) h = refl
  run-Perm coeffs (Perm.keep x xs ys p) (h, hs) = run-Perm (step coeffs x) p hs
  run-Perm coeffs (Perm.flip x y xs) (h, (k, hs)) = ap (run step xs) (commute x y coeffs h k)
  run-Perm coeffs (Perm.chain xs ys zs p r) h =
      run-Perm coeffs p h ∙ run-Perm coeffs r (Perm-All P p h)
