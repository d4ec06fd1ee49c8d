-- ===== src/Prelude/Residues.antt =====
-- Products, powers of two and remainders.
use Prim.Native.Nat.{ℕ, zero, suc, ◌+◌, ◌*◌, ◌/◌, ◌%◌, ◌^◌, ◌<◌}
use mathlib.Core.Path.{◌≡◌, sym, ap, ◌∙◌}
use native.Mathlib.Nat.{pow-suc, add-mul-mod_self_right, mod-add-div'}
use native.Mathlib.Omega.{arith}

pub mul-mod_left : (a b m : ℕ) → (a % m * b) % m ≡ (a * b) % m
mul-mod_left a b m =
    let e : a * b ≡ a % m * b + a / m * b * m = grind (arith, mod-add-div' a m) in
    sym (ap (λ t. t % m) e ∙ add-mul-mod_self_right (a % m * b) (a / m * b) m)

pub mul-mod_right : (a b m : ℕ) → (a * (b % m)) % m ≡ (a * b) % m
mul-mod_right a b m =
    ap (λ t. t % m) (grind arith) ∙ mul-mod_left b a m ∙ ap (λ t. t % m) (grind arith)

pub lt-two_pow : (k : ℕ) → k < 2 ^ k
lt-two_pow zero = omega arith
lt-two_pow (suc k) = omega (arith, lt-two_pow k, pow-suc 2 k)
