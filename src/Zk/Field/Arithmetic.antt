-- ===== src/Zk/Field/Arithmetic.antt =====
-- The operations of solomon-zk/src/field.rs are the arithmetic modulo the Goldilocks prime.
use project_solomon.Prelude.{ℕ, ◌+◌, ◌%◌, ◌^◌, ◌<◌, ◌≡◌, arith}
use project_solomon.Zk.Field.{goldilocks_prime, signed_rem, reduce_u128, add, sub}

-- The fast reduction of every 128-bit number is its remainder.
pub reduce_u128-mod : (x : ℕ) → x < 2 ^ 128 → reduce_u128 x ≡ x % goldilocks_prime
unfolding reduce_u128 signed_rem
reduce_u128-mod x h = ground arith

-- The sum of two elements, with its carry out of 64 bits, is their sum modulo the prime.
pub add-mod :
    (a b : ℕ) → a < goldilocks_prime → b < goldilocks_prime → add a b ≡ (a + b) % goldilocks_prime
unfolding add
add-mod a b ha hb = ground arith

-- The difference of two elements is an element, and adding the second one gives back the first.
pub add-sub :
    (a b : ℕ)
    → a < goldilocks_prime
    → b < goldilocks_prime
    → (sub a b < goldilocks_prime) × (add (sub a b) b ≡ a)
unfolding add sub
add-sub a b ha hb = ground arith
