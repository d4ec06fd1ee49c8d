-- ===== src/Zk/Field.antt =====
-- The Goldilocks field of solomon-zk/src/field.rs. A field element is its u64.
pub mod Arithmetic
pub mod Power
pub mod Units
use project_solomon.Prelude.{ℕ, zero, suc, ◌+◌, ◌-◌, ◌*◌, ◌/◌, ◌%◌, ◌^◌, Bool, ◌||◌, true, false}
use project_solomon.Prelude.{Option, none, some}
use project_solomon.Prelude.{ltb, leb, ◌==◌, if◌then◌else◌}

abbrev pub goldilocks_prime : ℕ
goldilocks_prime = 0xFFFFFFFF00000001

abbrev pub dilithium_q : ℕ
dilithium_q = 8380417

unfoldable pub from_u64 : ℕ → ℕ
from_u64 val = if leb goldilocks_prime val then val - goldilocks_prime else val

unfoldable pub from_dilithium : ℕ → ℕ
from_dilithium val = val % dilithium_q

-- The remainder of `plus - minus` as `i128` has it, with the modulus added when it is negative.
unfoldable pub signed_rem : ℕ → ℕ → ℕ → ℕ
signed_rem plus minus p =
    let below = (minus - plus) % p in
    if leb minus plus then (plus - minus) % p else if below == 0 then 0 else p - below

-- No step leaves the range of `i128`: the summands are below 2^96.
unfoldable pub reduce_u128 : ℕ → ℕ
unfolding signed_rem
reduce_u128 x =
    let x_lo = x % 2 ^ 64 in
    let x_hi = x / 2 ^ 64 in
    let x_hi_hi = x_hi / 2 ^ 32 in
    let x_hi_lo = x_hi % 2 ^ 32 in
    signed_rem (x_lo + x_hi_lo * 2 ^ 32 + x_hi_hi * 0xFFFFFFFF) x_hi goldilocks_prime

-- `overflowing_add`, and `wrapping_sub` of the modulus.
unfoldable pub add : ℕ → ℕ → ℕ
add a b =
    let res = (a + b) % 2 ^ 64 in
    let carry = leb (2 ^ 64) (a + b) in
    if carry || leb goldilocks_prime res then (res + 2 ^ 64 - goldilocks_prime) % 2 ^ 64 else res

-- A difference that leaves u64, of an operand above the modulus, wraps.
unfoldable pub sub : ℕ → ℕ → ℕ
sub a b = if leb b a then a - b else (goldilocks_prime + (2 ^ 64 - (b - a))) % 2 ^ 64

unfoldable pub mul : ℕ → ℕ → ℕ
unfolding reduce_u128
mul a b = reduce_u128 (a * b)

-- The loop of `exp`, for at most `fuel` rounds.
unfoldable pub exp_loop : ℕ → ℕ → ℕ → ℕ → ℕ
exp_loop zero base res power = res
exp_loop (suc fuel) base res power =
    let res' = if power % 2 == 1 then mul res base else res in
    let go_on = exp_loop fuel (mul base base) res' (power / 2) in if power == 0 then res else go_on

-- A u64 is zero after it has been halved 64 times.
unfoldable pub exp : ℕ → ℕ → ℕ
unfolding exp_loop
exp a power = exp_loop 64 a 1 power

-- `none` is the panic on zero.
unfoldable pub invert : ℕ → Option ℕ
unfolding exp
invert a = if a == 0 then none else some (exp a (goldilocks_prime - 2))
