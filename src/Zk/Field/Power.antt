-- ===== src/Zk/Field/Power.antt =====
-- Products and powers in solomon-zk/src/field.rs.
use native.Mathlib.Nat.{pow-suc, pow-zero}
use native.Mathlib.Nat.{mul-le-mul}
use project_solomon.Prelude.{ℕ, zero, suc, ◌+◌, ◌*◌, ◌/◌, ◌%◌, ◌^◌, ◌<◌, ◌≡◌, sym, ap, ◌∙◌, arith}
use project_solomon.Prelude.{◌==◌, Bool-cases, inl, inr, ==_iff}
use project_solomon.Zk.Field.{goldilocks_prime, mul, exp_loop, exp}
use project_solomon.Zk.Field.Arithmetic.{reduce_u128-mod}
use project_solomon.Prelude.Residues.{mul-mod_left}

-- A remainder in the place of a factor.
rotate_factors : (a c x : ℕ) → a * (c * x) ≡ c * (x * a)
rotate_factors a c x = grind arith

pow-mod : (a n c m : ℕ) → (c * (a % m) ^ n) % m ≡ (c * a ^ n) % m
pow-mod a zero c m = ap (λ t. (c * t) % m) (pow-zero (a % m) ∙ sym (pow-zero a))
pow-mod a (suc n) c m =
    ap (λ t. t % m) (grind (arith, pow-suc (a % m) n))
    ∙ pow-mod a n (c * (a % m)) m
    ∙ ap (λ t. t % m) (grind arith)
    ∙ mul-mod_left a (c * a ^ n) m
    ∙ ap (λ t. t % m) (rotate_factors a c (a ^ n) ∙ ap (λ t. c * t) (sym (pow-suc a n)))

-- The product of two elements is their product modulo the prime.
pub mul-mod :
    (a b : ℕ) → a < goldilocks_prime → b < goldilocks_prime → mul a b ≡ (a * b) % goldilocks_prime
unfolding mul
mul-mod a b ha hb = reduce_u128-mod (a * b) (
    omega (
      arith,
      mul-le-mul {n₁ = a} {m₁ = b} {n₂ = 0xFFFFFFFF00000000} {m₂ = 0xFFFFFFFF00000000} (omega arith)
          (omega arith),
    ))

mul-lt : (a b : ℕ) → a < goldilocks_prime → b < goldilocks_prime → mul a b < goldilocks_prime
mul-lt a b ha hb = omega (arith, mul-mod a b ha hb)

regroup : (a b x : ℕ) → a * b * x ≡ a * (b * x)
regroup a b x = grind arith

-- Squaring: a power by its half and its parity.
pow-double : (b h : ℕ) → b ^ (h + h) ≡ (b * b) ^ h
pow-double b zero = pow-zero b ∙ sym (pow-zero (b * b))
pow-double b (suc h) =
    let e : suc h + suc h ≡ suc (suc (h + h)) = omega arith in
    ap (λ t. b ^ t) e
    ∙ grind (arith, pow-suc b (suc (h + h)), pow-suc b (h + h), pow-suc (b * b) h, pow-double b h)

pow-odd : (b h : ℕ) → b ^ suc (h + h) ≡ b * (b * b) ^ h
pow-odd b h = grind (arith, pow-suc b (h + h), pow-double b h)

no_rounds :
    (base res power : ℕ)
    → res < goldilocks_prime
    → power ≡ 0
    → res ≡ (res * base ^ power) % goldilocks_prime
no_rounds base res power h z =
    sym
      (ap (λ t. (res * t) % goldilocks_prime) (ap (λ t. base ^ t) z ∙ pow-zero base) ∙ omega arith)

-- What one round leaves to compute is the power that it was to compute.
even_round :
    (base res power : ℕ)
    → base < goldilocks_prime
    → power % 2 ≡ 0
    → (res * mul base base ^ (power / 2)) % goldilocks_prime
      ≡ (res * base ^ power) % goldilocks_prime
even_round base res power hb e =
    let h : ℕ = power / 2 in
    let two_h : h + h ≡ power = omega arith in
    ap (λ t. (res * t ^ h) % goldilocks_prime) (mul-mod base base hb hb)
    ∙ pow-mod (base * base) h res goldilocks_prime
    ∙ ap (λ t. (res * t) % goldilocks_prime) (sym (pow-double base h) ∙ ap (λ t. base ^ t) two_h)

odd_round :
    (base res power : ℕ)
    → base < goldilocks_prime
    → res < goldilocks_prime
    → power % 2 ≡ 1
    → (mul res base * mul base base ^ (power / 2)) % goldilocks_prime
      ≡ (res * base ^ power) % goldilocks_prime
odd_round base res power hb hr e =
    let h : ℕ = power / 2 in
    let two_h : suc (h + h) ≡ power = omega arith in
    ap (λ t. (mul res base * t ^ h) % goldilocks_prime) (mul-mod base base hb hb)
    ∙ pow-mod (base * base) h (mul res base) goldilocks_prime
    ∙ ap (λ t. (t * (base * base) ^ h) % goldilocks_prime) (mul-mod res base hr hb)
    ∙ mul-mod_left (res * base) ((base * base) ^ h) goldilocks_prime
    ∙ ap (λ t. t % goldilocks_prime) (regroup res base ((base * base) ^ h))
    ∙ ap (λ t. (res * t) % goldilocks_prime) (sym (pow-odd base h) ∙ ap (λ t. base ^ t) two_h)

exp_loop-mod :
    (fuel base res power : ℕ)
    → base < goldilocks_prime
    → res < goldilocks_prime
    → power < 2 ^ fuel
    → exp_loop fuel base res power ≡ (res * base ^ power) % goldilocks_prime
unfolding exp_loop
exp_loop-mod zero base res power hb hr h = no_rounds base res power hr (omega arith)
exp_loop-mod (suc fuel) base res power hb hr h = elim (Bool-cases (power == 0)) [
  | inl z ↦ rw z (no_rounds base res power hr ((==_iff power 0).0 z))
  | inr some ↦ elim (Bool-cases (power % 2 == 1)) [
    | inl odd ↦
        rw (some, odd)
          (exp_loop-mod fuel (mul base base) (mul res base) (power / 2) (mul-lt base base hb hb)
              (mul-lt res base hr hb) (omega (arith, pow-suc 2 fuel))
            ∙ odd_round base res power hb hr ((==_iff (power % 2) 1).0 odd))
    | inr even ↦
        rw (some, even)
          (exp_loop-mod fuel (mul base base) res (power / 2) (mul-lt base base hb hb) hr
              (omega (arith, pow-suc 2 fuel))
            ∙ even_round base res power hb (ground arith))
  ]
]

-- Square and multiply gives the power modulo the prime, for an element and a u64.
pub exp-mod :
    (a power : ℕ)
    → a < goldilocks_prime
    → power < 2 ^ 64
    → exp a power ≡ a ^ power % goldilocks_prime
unfolding exp
exp-mod a power ha h =
    exp_loop-mod 64 a 1 power ha (omega arith) h ∙ ap (λ t. t % goldilocks_prime) (omega arith)
