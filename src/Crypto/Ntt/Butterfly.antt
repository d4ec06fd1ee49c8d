-- ===== src/Crypto/Ntt/Butterfly.antt =====
-- Butterflies of one stage touch different coefficients: solomon-core/src/crypto/poly.rs.
use project_solomon.Prelude.{
  ℕ, zero, suc, ◌+◌, ◌-◌, ◌*◌, ◌/◌, ◌%◌, ◌^◌, ◌<◌, ◌≢◌, List, [], ◌∷◌, get_or, set, get_or-set_ne,
}
use project_solomon.Prelude.{◌≡◌, refl, sym, ap, ap₂, ◌∙◌, arith}
use native.Mathlib.Decide.{ℕ_discrete}
use project_solomon.Prelude.Bits.{bit_and-mask}
use project_solomon.Crypto.Scalar.{q, add, sub, mul}
use project_solomon.Crypto.Ntt.Zetas.{zetas}
use project_solomon.Crypto.Ntt.{position, butterfly, inverse_butterfly}

set-set_ne : (xs : List ℕ) (i j a b : ℕ) → i ≢ j → set (set xs i a) j b ≡ set (set xs j b) i a
set-set_ne [] i j a b h = refl
set-set_ne (x ∷ xs) zero zero a b h = absurd (h refl)
set-set_ne (x ∷ xs) zero (suc j) a b h = refl
set-set_ne (x ∷ xs) (suc i) zero a b h = refl
set-set_ne (x ∷ xs) (suc i) (suc j) a b h =
    ap (λ ys. x ∷ ys) (set-set_ne xs i j a b (λ e. h (ap suc e)))

-- Two coefficients replaced by values computed from them.
unfoldable pub update : (ℕ → ℕ → ℕ) → (ℕ → ℕ → ℕ) → ℕ → ℕ → List ℕ → List ℕ
update f g i j xs =
    set (set xs i (f (get_or xs i 0) (get_or xs j 0))) j (g (get_or xs i 0) (get_or xs j 0))

pub get_or-update :
    (f g : ℕ → ℕ → ℕ) (i j k : ℕ) (xs : List ℕ)
    → i ≢ k
    → j ≢ k
    → get_or (update f g i j xs) k 0 ≡ get_or xs k 0
unfolding update
get_or-update f g i j k xs h l =
    get_or-set_ne (set xs i (f (get_or xs i 0) (get_or xs j 0))) j k _ 0 l
    ∙ get_or-set_ne xs i k _ 0 h

four_sets :
    (xs : List ℕ) (i j k l a b c d : ℕ)
    → i ≢ k
    → i ≢ l
    → j ≢ k
    → j ≢ l
    → set (set (set (set xs i a) j b) k c) l d ≡ set (set (set (set xs k c) l d) i a) j b
four_sets xs i j k l a b c d ik il jk jl =
    ap (λ ys. set ys l d)
      (set-set_ne (set xs i a) j k b c jk ∙ ap (λ ys. set ys j b) (set-set_ne xs i k a c ik))
    ∙ set-set_ne (set (set xs k c) i a) j l b d jl
    ∙ ap (λ ys. set ys j b) (set-set_ne (set xs k c) i l a d il)

update-update :
    (f g f' g' : ℕ → ℕ → ℕ) (i j k l : ℕ) (xs : List ℕ)
    → i ≢ k
    → i ≢ l
    → j ≢ k
    → j ≢ l
    → update f' g' k l (update f g i j xs) ≡ update f g i j (update f' g' k l xs)
unfolding update
update-update f g f' g' i j k l xs ik il jk jl =
    let after : List ℕ = update f g i j xs in
    let other : List ℕ = update f' g' k l xs in
    let e1 : get_or after k 0 ≡ get_or xs k 0 = get_or-update f g i j k xs ik jk in
    let e2 : get_or after l 0 ≡ get_or xs l 0 = get_or-update f g i j l xs il jl in
    let e3 : get_or other i 0 ≡ get_or xs i 0 =
      get_or-update f' g' k l i xs (λ e. ik (sym e)) (λ e. il (sym e)) in
    let e4 : get_or other j 0 ≡ get_or xs j 0 =
      get_or-update f' g' k l j xs (λ e. jk (sym e)) (λ e. jl (sym e)) in
    ap₂ (λ (x y : ℕ). set (set after k (f' x y)) l (g' x y)) e1 e2
    ∙ four_sets xs i j k l _ _ _ _ ik il jk jl
    ∙ sym (ap₂ (λ (x y : ℕ). set (set other i (f x y)) j (g x y)) e3 e4)

pub position_eq :
    (shift idx : ℕ) → position shift idx ≡ idx / 2 ^ shift * 2 ^ shift * 2 + idx % 2 ^ shift
unfolding position
position_eq shift idx = ap (λ (t : ℕ). idx / 2 ^ shift * 2 ^ shift * 2 + t) (bit_and-mask shift idx)

-- The coefficients of two butterflies of a stage.
unfoldable pub Apart : ℕ → ℕ → ℕ → Type 0
Apart shift a b =
    (position shift a ≢ position shift b)
    × (position shift a ≢ position shift b + 2 ^ shift)
    × (position shift a + 2 ^ shift ≢ position shift b)
    × (position shift a + 2 ^ shift ≢ position shift b + 2 ^ shift)

apart0 : (a b : ℕ) → a ≢ b → Apart 0 a b
unfolding Apart
apart0 a b ne = (
  λ e. ne (omega (arith, position_eq 0 a, position_eq 0 b)),
  λ e. absurd (omega (arith, position_eq 0 a, position_eq 0 b)),
  λ e. absurd (omega (arith, position_eq 0 a, position_eq 0 b)),
  λ e. ne (omega (arith, position_eq 0 a, position_eq 0 b)),
)

apart1 : (a b : ℕ) → a ≢ b → Apart 1 a b
unfolding Apart
apart1 a b ne = (
  λ e. ne (omega (arith, position_eq 1 a, position_eq 1 b)),
  λ e. absurd (omega (arith, position_eq 1 a, position_eq 1 b)),
  λ e. absurd (omega (arith, position_eq 1 a, position_eq 1 b)),
  λ e. ne (omega (arith, position_eq 1 a, position_eq 1 b)),
)

apart2 : (a b : ℕ) → a ≢ b → Apart 2 a b
unfolding Apart
apart2 a b ne = (
  λ e. ne (omega (arith, position_eq 2 a, position_eq 2 b)),
  λ e. absurd (omega (arith, position_eq 2 a, position_eq 2 b)),
  λ e. absurd (omega (arith, position_eq 2 a, position_eq 2 b)),
  λ e. ne (omega (arith, position_eq 2 a, position_eq 2 b)),
)

apart3 : (a b : ℕ) → a ≢ b → Apart 3 a b
unfolding Apart
apart3 a b ne = (
  λ e. ne (omega (arith, position_eq 3 a, position_eq 3 b)),
  λ e. absurd (omega (arith, position_eq 3 a, position_eq 3 b)),
  λ e. absurd (omega (arith, position_eq 3 a, position_eq 3 b)),
  λ e. ne (omega (arith, position_eq 3 a, position_eq 3 b)),
)

apart4 : (a b : ℕ) → a ≢ b → Apart 4 a b
unfolding Apart
apart4 a b ne = (
  λ e. ne (omega (arith, position_eq 4 a, position_eq 4 b)),
  λ e. absurd (omega (arith, position_eq 4 a, position_eq 4 b)),
  λ e. absurd (omega (arith, position_eq 4 a, position_eq 4 b)),
  λ e. ne (omega (arith, position_eq 4 a, position_eq 4 b)),
)

apart5 : (a b : ℕ) → a ≢ b → Apart 5 a b
unfolding Apart
apart5 a b ne = (
  λ e. ne (omega (arith, position_eq 5 a, position_eq 5 b)),
  λ e. absurd (omega (arith, position_eq 5 a, position_eq 5 b)),
  λ e. absurd (omega (arith, position_eq 5 a, position_eq 5 b)),
  λ e. ne (omega (arith, position_eq 5 a, position_eq 5 b)),
)

apart6 : (a b : ℕ) → a ≢ b → Apart 6 a b
unfolding Apart
apart6 a b ne = (
  λ e. ne (omega (arith, position_eq 6 a, position_eq 6 b)),
  λ e. absurd (omega (arith, position_eq 6 a, position_eq 6 b)),
  λ e. absurd (omega (arith, position_eq 6 a, position_eq 6 b)),
  λ e. ne (omega (arith, position_eq 6 a, position_eq 6 b)),
)

apart7 : (a b : ℕ) → a ≢ b → Apart 7 a b
unfolding Apart
apart7 a b ne = (
  λ e. ne (omega (arith, position_eq 7 a, position_eq 7 b)),
  λ e. absurd (omega (arith, position_eq 7 a, position_eq 7 b)),
  λ e. absurd (omega (arith, position_eq 7 a, position_eq 7 b)),
  λ e. ne (omega (arith, position_eq 7 a, position_eq 7 b)),
)

pub apart : (shift a b : ℕ) → shift < 8 → a ≢ b → Apart shift a b
apart zero a b h ne = apart0 a b ne
apart (suc zero) a b h ne = apart1 a b ne
apart (suc (suc zero)) a b h ne = apart2 a b ne
apart (suc (suc (suc zero))) a b h ne = apart3 a b ne
apart (suc (suc (suc (suc zero)))) a b h ne = apart4 a b ne
apart (suc (suc (suc (suc (suc zero))))) a b h ne = apart5 a b ne
apart (suc (suc (suc (suc (suc (suc zero)))))) a b h ne = apart6 a b ne
apart (suc (suc (suc (suc (suc (suc (suc zero))))))) a b h ne = apart7 a b ne
apart (suc (suc (suc (suc (suc (suc (suc (suc shift)))))))) a b h ne = absurd (omega arith)

-- What a butterfly stores in its two coefficients.
unfoldable pub upper : ℕ → ℕ → ℕ → ℕ → ℕ
upper shift idx x y = add x (mul y (get_or zetas (128 / 2 ^ shift + idx / 2 ^ shift) 0))

unfoldable pub lower : ℕ → ℕ → ℕ → ℕ → ℕ
lower shift idx x y = sub x (mul y (get_or zetas (128 / 2 ^ shift + idx / 2 ^ shift) 0))

unfoldable pub inverse_lower : ℕ → ℕ → ℕ → ℕ → ℕ
inverse_lower shift idx x y =
    mul (sub x y) (q - get_or zetas (256 / 2 ^ shift - 1 - idx / 2 ^ shift) 0)

-- Butterflies of one stage may be exchanged.
pub butterfly_comm :
    (shift a b : ℕ) (coeffs : List ℕ)
    → shift < 8
    → butterfly shift (butterfly shift coeffs a) b ≡ butterfly shift (butterfly shift coeffs b) a
unfolding butterfly update Apart upper lower
butterfly_comm shift a b coeffs h = elim (ℕ_discrete a b) [
  | yes e ↦ ap₂ (λ (x y : ℕ). butterfly shift (butterfly shift coeffs x) y) e (sym e)
  | no ne ↦
      let (p1, p2, p3, p4) = apart shift a b h ne in
      update-update (upper shift a) (lower shift a) (upper shift b) (lower shift b)
        (position shift a) (position shift a + 2 ^ shift) (position shift b)
        (position shift b + 2 ^ shift) coeffs p1 p2 p3 p4
]

pub inverse_butterfly_comm :
    (shift a b : ℕ) (coeffs : List ℕ)
    → shift < 8
    → inverse_butterfly shift (inverse_butterfly shift coeffs a) b
      ≡ inverse_butterfly shift (inverse_butterfly shift coeffs b) a
unfolding inverse_butterfly update Apart inverse_lower
inverse_butterfly_comm shift a b coeffs h = elim (ℕ_discrete a b) [
  | yes e ↦
      ap₂ (λ (x y : ℕ). inverse_butterfly shift (inverse_butterfly shift coeffs x) y) e (sym e)
  | no ne ↦
      let (p1, p2, p3, p4) = apart shift a b h ne in
      update-update add (inverse_lower shift a) add (inverse_lower shift b) (position shift a)
        (position shift a + 2 ^ shift) (position shift b) (position shift b + 2 ^ shift) coeffs p1
        p2 p3 p4
]
