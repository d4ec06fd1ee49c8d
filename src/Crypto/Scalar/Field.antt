-- ===== src/Crypto/Scalar/Field.antt =====
-- The masked arithmetic of solomon-core/src/crypto/scalar.rs is that of a commutative ring, with the
-- product in Montgomery form.
use project_solomon.Prelude.{ℕ, ◌+◌, ◌*◌, ◌%◌, ◌^◌, ◌<◌}
use project_solomon.Prelude.{◌≡◌, sym, ap, ◌∙◌, arith}
use project_solomon.Prelude.Residues.{mul-mod_left}
use project_solomon.Crypto.Scalar.{q, add, sub, mul}
use project_solomon.Crypto.Scalar.Laws.{add-mod_q, sub-mod_q, mul-mod_q}

pub add_below : (a b : ℕ) → a < q → b < q → add a b < q
add_below a b h k = omega (arith, add-mod_q a b h k)

pub sub_below : (a b : ℕ) → a < q → b < q → sub a b < q
sub_below a b h k = omega (arith, sub-mod_q a b h k)

pub mul_below : (a b : ℕ) → a < q → b < q → mul a b < q
mul_below a b h k = let (p, r) = mul-mod_q a b h k in p

-- The factor 2^32 cancels.
pub cancel : (r s : ℕ) → r < q → s < q → r * 2 ^ 32 % q ≡ s * 2 ^ 32 % q → r ≡ s
cancel r s h k e = omega arith

-- A canonical product is known by its residue.
pub mul_unique : (a b r : ℕ) → a < q → b < q → r < q → r * 2 ^ 32 % q ≡ a * b % q → mul a b ≡ r
mul_unique a b r h k l e = let (p, m) = mul-mod_q a b h k in cancel (mul a b) r p l (m ∙ sym e)

pub mul_comm : (a b : ℕ) → a < q → b < q → mul a b ≡ mul b a
mul_comm a b h k =
    let (p, m) = mul-mod_q b a k h in
    mul_unique a b (mul b a) h k p (m ∙ ap (λ (t : ℕ). t % q) (grind arith))

-- 2^32 modulo q is one in Montgomery form.
pub mul_one : (a : ℕ) → a < q → mul a 4193792 ≡ a
mul_one a h = mul_unique a 4193792 a h (omega arith) h (omega arith)

regroup : (r c : ℕ) → r * c * 2 ^ 32 ≡ r * 2 ^ 32 * c
regroup r c = grind arith

cancel_residue : (r s : ℕ) → r * 2 ^ 32 % q ≡ s * 2 ^ 32 % q → r % q ≡ s % q
cancel_residue r s e = omega arith

rotate_product : (a b c : ℕ) → b * c * a ≡ a * b * c
rotate_product a b c = grind arith

swap_factors : (a b : ℕ) → a * b ≡ b * a
swap_factors a b = grind arith

scale : (r x c : ℕ) → r * 2 ^ 32 % q ≡ x % q → r * c * 2 ^ 32 % q ≡ x * c % q
scale r x c e =
    ap (λ (t : ℕ). t % q) (regroup r c)
    ∙ sym (mul-mod_left (r * 2 ^ 32) c q)
    ∙ ap (λ (t : ℕ). t * c % q) e
    ∙ mul-mod_left x c q

-- On canonical values the product in Montgomery form is associative.
pub mul_assoc : (a b c : ℕ) → a < q → b < q → c < q → mul (mul a b) c ≡ mul a (mul b c)
mul_assoc a b c h k l =
    let (p, m) = mul-mod_q a b h k in
    let (p', m') = mul-mod_q b c k l in
    let (r', n') = mul-mod_q a (mul b c) h p' in
    let same : mul b c * a % q ≡ mul a b * c % q = cancel_residue (mul b c * a) (mul a b * c) (
      scale (mul b c) (b * c) a m'
      ∙ ap (λ (t : ℕ). t % q) (rotate_product a b c)
      ∙ sym (scale (mul a b) (a * b) c m)) in
    mul_unique (mul a b) c (mul a (mul b c)) p l r'
      (n' ∙ ap (λ (t : ℕ). t % q) (swap_factors a (mul b c)) ∙ same)

sum_residue :
    (x y u v : ℕ)
    → x * 2 ^ 32 % q ≡ u % q
    → y * 2 ^ 32 % q ≡ v % q
    → (x + y) % q * 2 ^ 32 % q ≡ (u + v) % q
sum_residue x y u v e f = omega arith

distribute : (a b c : ℕ) → a * c + b * c ≡ (a + b) * c
distribute a b c = grind arith

pub mul-add : (a b c : ℕ) → a < q → b < q → c < q → mul (add a b) c ≡ add (mul a c) (mul b c)
mul-add a b c h k l =
    let (p, m) = mul-mod_q a c h l in
    let (r, n) = mul-mod_q b c k l in
    mul_unique (add a b) c (add (mul a c) (mul b c)) (add_below a b h k) l (add_below _ _ p r) (
      ap (λ (t : ℕ). t * 2 ^ 32 % q) (add-mod_q (mul a c) (mul b c) p r)
      ∙ sum_residue (mul a c) (mul b c) (a * c) (b * c) m n
      ∙ ap (λ (t : ℕ). t % q) (distribute a b c)
      ∙ sym (mul-mod_left (a + b) c q)
      ∙ ap (λ (t : ℕ). t * c % q) (sym (add-mod_q a b h k)))

difference : (a b c : ℕ) → a < q → b < q → c < q → add a b ≡ c → a ≡ sub c b
difference a b c h k l e = omega (arith, add-mod_q a b h k, sub-mod_q c b l k)

pub add-sub : (a b : ℕ) → a < q → b < q → add (sub a b) b ≡ a
add-sub a b h k = omega (arith, sub-mod_q a b h k, add-mod_q (sub a b) b (sub_below a b h k) k)

pub mul-sub : (a b c : ℕ) → a < q → b < q → c < q → mul (sub a b) c ≡ sub (mul a c) (mul b c)
mul-sub a b c h k l =
    difference (mul (sub a b) c) (mul b c) (mul a c) (mul_below _ c (sub_below a b h k) l)
      (mul_below b c k l) (mul_below a c h l)
      (sym (mul-add (sub a b) b c (sub_below a b h k) k l)
        ∙ ap (λ (t : ℕ). mul t c) (add-sub a b h k))
