-- ===== src/Zk/Field/Units.antt =====
-- Numbers with an inverse modulo m, and the generator that solomon-zk/src/intt.rs takes.
use project_solomon.Prelude.{ℕ, zero, suc, ◌*◌, ◌%◌, ◌^◌, ◌<◌}
use project_solomon.Prelude.{◌≡◌, ◌≢◌, refl, sym, ap, ◌∙◌, arith}
use mathlib.Core.Path.{subst}
use project_solomon.Prelude.Residues.{mul-mod_left}
use native.Mathlib.Nat.{pow-suc, zero-mod}
use project_solomon.Zk.Field.{goldilocks_prime}

abbrev pub Invertible : ℕ → ℕ → Type 0
Invertible m a = (b : ℕ) × (a * b % m ≡ 1)

Invertible-mul : (m a c : ℕ) → Invertible m a → Invertible m c → Invertible m (a * c)
Invertible-mul m a c (b, h) (d, k) = (
  b * d,
  ap (λ t. t % m) (grind arith)
      ∙ sym (mul-mod_left (a * b) (c * d) m)
      ∙ rw h (ap (λ t. t % m) (omega arith) ∙ k),
)

pub Invertible-pow : (m a k : ℕ) → 1 < m → Invertible m a → Invertible m (a ^ k)
Invertible-pow m a zero l h =
    (1, rw (native.Mathlib.Nat.pow-zero a) (native.Mathlib.Nat.mod-eq_of_lt l))
Invertible-pow m a (suc k) l h =
    rw (pow-suc a k) (Invertible-mul m (a ^ k) a (Invertible-pow m a k l h) h)

pub Invertible-mod : (m a : ℕ) → Invertible m a → Invertible m (a % m)
Invertible-mod m a (b, h) = (b, mul-mod_left a b m ∙ h)

pub Invertible-ne : (m a : ℕ) → Invertible m a → a ≢ 0
Invertible-ne m a (b, h) z =
    let none_left : 0 * b % m ≡ 0 = ap (λ t. t % m) (omega arith) ∙ zero-mod m in
    absurd (omega (arith, subst (λ t. t * b % m ≡ 1) z h, none_left))

pub seven-Invertible : Invertible goldilocks_prime 7
seven-Invertible = (2635249152773512046, refl)
