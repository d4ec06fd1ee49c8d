-- ===== src/Crypto/Ntt/Inverse.antt =====
-- The inverse transform undoes the transform: solomon-core/src/crypto/poly.rs.
use project_solomon.Prelude.{
  ℕ, zero, suc, ◌+◌, ◌-◌, ◌/◌, ◌^◌, ◌<◌, inl, inr, List, [], ◌∷◌, map, get_or, length, length-map,
  All, All-get_or, Bool, true, ◌&&◌, true_of_and, ltb→lt, ltb, ◌==◌, ==_iff, all_below,
  all_below_sound,
}
use project_solomon.Prelude.{◌≡◌, refl, sym, ap, ap₂, ◌∙◌, arith}
use project_solomon.Crypto.Scalar.{q, add, sub, mul, montgomery_reduce}
use project_solomon.Crypto.Scalar.Laws.{add-mod_q, sub-mod_q}
use project_solomon.Crypto.Scalar.Field.{
  add_below, sub_below, mul_below, mul_one, mul_assoc, mul-add,
}
use project_solomon.Crypto.Ntt.Zetas.{zetas}
use project_solomon.Crypto.Ntt.{position, butterfly, inverse_butterfly, run, count_from}
use project_solomon.Crypto.Ntt.Stage.{stage_step, length-run, values, covered, inside_256}
use project_solomon.Crypto.Packing.Hints.Canonical.{ext_get_or}
use project_solomon.Crypto.Ntt.Butterfly.{update, upper, lower, inverse_lower}

unfoldable pub double : ℕ → ℕ
double x = add x x

pub double_below : (x : ℕ) → x < q → double x < q
unfolding double
double_below x h = add_below x x h h

-- The twiddle factor of the transform, and the one of its inverse.
unfoldable pub zeta : ℕ → ℕ → ℕ
unfolding zetas
zeta shift a = get_or zetas (128 / 2 ^ shift + a / 2 ^ shift) 0

unfoldable pub inverse_zeta : ℕ → ℕ → ℕ
unfolding zetas
inverse_zeta shift a = q - get_or zetas (256 / 2 ^ shift - 1 - a / 2 ^ shift) 0

-- Every pair of factors is canonical, and multiplies to one.
pair_inverts : ℕ → ℕ → Bool
unfolding zeta inverse_zeta mul
pair_inverts shift a =
    ltb (zeta shift a) q
    && (ltb (inverse_zeta shift a) q && (mul (zeta shift a) (inverse_zeta shift a) == 4193792))

pairs_invert : all_below 8 (λ shift. all_below 128 (pair_inverts shift)) ≡ true
unfolding all_below pair_inverts zeta inverse_zeta zetas mul montgomery_reduce
pairs_invert = refl

pub factors :
    (shift a : ℕ)
    → shift < 8
    → a < 128
    → (zeta shift a < q)
      × (inverse_zeta shift a < q)
      × (mul (zeta shift a) (inverse_zeta shift a) ≡ 4193792)
unfolding pair_inverts
factors shift a h k =
    let test : pair_inverts shift a ≡ true =
      all_below_sound 128 (pair_inverts shift) a
        (all_below_sound 8 (λ s. all_below 128 (pair_inverts s)) shift pairs_invert h) k in
    let (p, rest) = true_of_and (ltb (zeta shift a) q) _ test in
    let (r, s) = true_of_and (ltb (inverse_zeta shift a) q) _ rest in
    (ltb→lt _ _ p, ltb→lt _ _ r, (==_iff _ _).0 s)

sum_of_both : (x t : ℕ) → x < q → t < q → add (add x t) (sub x t) ≡ add x x
sum_of_both x t h k = omega (
  arith,
  add-mod_q x t h k,
  sub-mod_q x t h k,
  add-mod_q x x h h,
  add-mod_q (add x t) (sub x t) (add_below x t h k) (sub_below x t h k),
)

difference_of_both : (x t : ℕ) → x < q → t < q → sub (add x t) (sub x t) ≡ add t t
difference_of_both x t h k = omega (
  arith,
  add-mod_q x t h k,
  sub-mod_q x t h k,
  add-mod_q t t k k,
  sub-mod_q (add x t) (sub x t) (add_below x t h k) (sub_below x t h k),
)

-- A butterfly and its inverse double both coefficients.
lower_inverts :
    (shift a x y : ℕ)
    → shift < 8
    → a < 128
    → x < q
    → y < q
    → inverse_lower shift a (upper shift a x y) (lower shift a x y) ≡ double y
unfolding inverse_lower upper lower double zeta inverse_zeta
lower_inverts shift a x y h k l m =
    let (p, r, s) = factors shift a h k in
    let z : ℕ = zeta shift a in
    let z' : ℕ = inverse_zeta shift a in
    let t : ℕ = mul y z in
    let t_below : t < q = mul_below y z m p in
    let back : mul t z' ≡ y = mul_assoc y z z' m p r ∙ ap (mul y) s ∙ mul_one y m in
    ap (λ (d : ℕ). mul d z') (difference_of_both x t l t_below)
    ∙ mul-add t t z' t_below t_below r
    ∙ ap₂ add back back

upper_inverts :
    (shift a x y : ℕ)
    → shift < 8
    → a < 128
    → x < q
    → y < q
    → add (upper shift a x y) (lower shift a x y) ≡ double x
unfolding upper lower double zeta
upper_inverts shift a x y h k l m =
    let (p, r, s) = factors shift a h k in
    sum_of_both x (mul y (zeta shift a)) l (mul_below y (zeta shift a) m p)

pub get_or-map :
    (xs : List ℕ) (i : ℕ) → i < length xs → get_or (map double xs) i 0 ≡ double (get_or xs i 0)
get_or-map [] i h = absurd (omega arith)
get_or-map (x ∷ xs) zero h = refl
get_or-map (x ∷ xs) (suc i) h = get_or-map xs i (omega arith)

-- A stage, and the same stage of the inverse, double every coefficient.
pub stage_inverts :
    (shift : ℕ) (coeffs : List ℕ)
    → shift < 8
    → length coeffs ≡ 256
    → All (λ c. c < q) coeffs
    → run
        (inverse_butterfly shift)
        (count_from 0 128)
        (run (butterfly shift) (count_from 0 128) coeffs)
      ≡ map double coeffs
unfolding inverse_butterfly butterfly update stage_step upper lower inverse_lower
stage_inverts shift coeffs h l hs =
    let middle : List ℕ = run (butterfly shift) (count_from 0 128) coeffs in
    let final : List ℕ = run (inverse_butterfly shift) (count_from 0 128) middle in
    let middle_length : length middle ≡ 256 =
      length-run (upper shift) (lower shift) shift h (count_from 0 128) coeffs ∙ l in
    let final_length : length final ≡ 256 =
      length-run (λ a. add) (inverse_lower shift) shift h (count_from 0 128) middle
      ∙ middle_length in
    ext_get_or final (map double coeffs) (final_length ∙ sym (length-map double coeffs ∙ l)) (λ x k.
      let (a, b, at) = covered (upper shift) (lower shift) shift h x (omega arith) in
      let inside : position shift a + 2 ^ shift < 256 = inside_256 shift a h b in
      let (u, v) =
        values (upper shift) (lower shift) shift h 128 0 a coeffs (omega arith) b (omega arith) in
      let (r, s) =
        values (λ a. add) (inverse_lower shift) shift h 128 0 a middle (omega arith) b
          (omega arith) in
      let i_below : get_or coeffs (position shift a) 0 < q =
        All-get_or (λ c. c < q) coeffs _ 0 (omega arith) hs in
      let j_below : get_or coeffs (position shift a + 2 ^ shift) 0 < q =
        All-get_or (λ c. c < q) coeffs _ 0 (omega arith) hs in
      elim at [
        | inl e ↦
            ap (λ (t : ℕ). get_or final t 0) e
            ∙ r
            ∙ ap₂ add u v
            ∙ upper_inverts shift a _ _ h b i_below j_below
            ∙ sym (get_or-map coeffs _ (omega arith))
            ∙ ap (λ (t : ℕ). get_or (map double coeffs) t 0) (sym e)
        | inr e ↦
            ap (λ (t : ℕ). get_or final t 0) e
            ∙ s
            ∙ ap₂ (inverse_lower shift a) u v
            ∙ lower_inverts shift a _ _ h b i_below j_below
            ∙ sym (get_or-map coeffs _ (omega arith))
            ∙ ap (λ (t : ℕ). get_or (map double coeffs) t 0) (sym e)
      ])
