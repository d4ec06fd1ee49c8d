-- ===== src/Crypto/Ntt/RoundTrip.antt =====
-- A polynomial comes back from its transform: solomon-core/src/crypto/poly.rs.
use project_solomon.Prelude.{
  ℕ, zero, suc, ◌+◌, ◌*◌, ◌%◌, ◌^◌, ◌<◌, ◌≤◌, List, [], ◌∷◌, map, get_or, set, length, All, All-set,
  All-get_or, length-map,
}
use mathlib.Core.Path.{subst}
use project_solomon.Prelude.Radix.{All-map}
use project_solomon.Prelude.{◌≡◌, refl, sym, ap, ap₂, ◌∙◌, arith}
use project_solomon.Crypto.Scalar.{q, add, sub, mul}
use project_solomon.Crypto.Scalar.Laws.{add-mod_q, sub-mod_q}
use project_solomon.Crypto.Scalar.Field.{add_below, sub_below, mul_below, mul_unique, mul-add}
use project_solomon.Crypto.Ntt.{position, butterfly, inverse_butterfly, run, count_from, ntt, intt}
use project_solomon.Crypto.Ntt.Stage.{stage_step, length-run, inside_256}
use project_solomon.Crypto.Ntt.Butterfly.{update, upper, lower, inverse_lower}
use project_solomon.Crypto.Ntt.Inverse.{
  double, double_below, zeta, inverse_zeta, factors, stage_inverts, get_or-map,
}
use project_solomon.Crypto.Ntt.Order.{
  ordered_stages, ordered_inverse_stages, ntt-ordered, intt-ordered,
}

-- 256 canonical coefficients.
abbrev pub IsCanonical : List ℕ → Type 0
IsCanonical coeffs = (length coeffs ≡ 256) × All (λ c. c < q) coeffs

set-map : (xs : List ℕ) (i v : ℕ) → set (map double xs) i (double v) ≡ map double (set xs i v)
set-map [] i v = refl
set-map (x ∷ xs) zero v = refl
set-map (x ∷ xs) (suc i) v = ap (λ ys. double x ∷ ys) (set-map xs i v)

double-add : (x y : ℕ) → x < q → y < q → add (double x) (double y) ≡ double (add x y)
unfolding double
double-add x y h k = omega (
  arith,
  add-mod_q x x h h,
  add-mod_q y y k k,
  add-mod_q x y h k,
  add-mod_q (add x x) (add y y) (add_below x x h h) (add_below y y k k),
  add-mod_q (add x y) (add x y) (add_below x y h k) (add_below x y h k),
)

double-sub : (x y : ℕ) → x < q → y < q → sub (double x) (double y) ≡ double (sub x y)
unfolding double
double-sub x y h k = omega (
  arith,
  add-mod_q x x h h,
  add-mod_q y y k k,
  sub-mod_q x y h k,
  sub-mod_q (add x x) (add y y) (add_below x x h h) (add_below y y k k),
  add-mod_q (sub x y) (sub x y) (sub_below x y h k) (sub_below x y h k),
)

double-inverse_lower :
    (shift a x y : ℕ)
    → shift < 8
    → a < 128
    → x < q
    → y < q
    → inverse_lower shift a (double x) (double y) ≡ double (inverse_lower shift a x y)
unfolding inverse_lower inverse_zeta double
double-inverse_lower shift a x y h k l m =
    let (p, r, s) = factors shift a h k in
    ap (λ (d : ℕ). mul d (inverse_zeta shift a)) (double-sub x y l m)
    ∙ mul-add (sub x y) (sub x y) (inverse_zeta shift a) (sub_below x y l m) (sub_below x y l m) r

module _ (shift : ℕ) (below : shift < 8) where
  butterfly-IsCanonical :
      (coeffs : List ℕ) (a : ℕ)
      → a < 128
      → IsCanonical coeffs
      → IsCanonical (butterfly shift coeffs a)
  unfolding butterfly zeta run stage_step upper lower
  butterfly-IsCanonical coeffs a k (l, hs) =
      let x : ℕ = get_or coeffs (position shift a) 0 in
      let y : ℕ = get_or coeffs (position shift a + 2 ^ shift) 0 in
      let x_below : x < q = All-get_or (λ c. c < q) coeffs _ 0 (omega arith) hs in
      let y_below : y < q = All-get_or (λ c. c < q) coeffs _ 0 (omega arith) hs in
      let (p, r, s) = factors shift a below k in
      let t_below : mul y (zeta shift a) < q = mul_below y (zeta shift a) y_below p in
      (
        length-run (upper shift) (lower shift) shift below (a ∷ []) coeffs ∙ l,
        All-set (λ c. c < q) _ _ _ (sub_below x _ x_below t_below)
            (All-set (λ c. c < q) coeffs _ _ (add_below x _ x_below t_below) hs),
      )

  run-IsCanonical :
      (order coeffs : List ℕ)
      → All (λ a. a < 128) order
      → IsCanonical coeffs
      → IsCanonical (run (butterfly shift) order coeffs)
  unfolding run
  run-IsCanonical [] coeffs ks h = h
  run-IsCanonical (a ∷ order) coeffs (k, ks) h =
      run-IsCanonical order (butterfly shift coeffs a) ks (butterfly-IsCanonical coeffs a k h)

  inverse_butterfly-IsCanonical :
      (coeffs : List ℕ) (a : ℕ)
      → a < 128
      → IsCanonical coeffs
      → IsCanonical (inverse_butterfly shift coeffs a)
  unfolding inverse_butterfly inverse_zeta run stage_step inverse_lower
  inverse_butterfly-IsCanonical coeffs a k (l, hs) =
      let x : ℕ = get_or coeffs (position shift a) 0 in
      let y : ℕ = get_or coeffs (position shift a + 2 ^ shift) 0 in
      let x_below : x < q = All-get_or (λ c. c < q) coeffs _ 0 (omega arith) hs in
      let y_below : y < q = All-get_or (λ c. c < q) coeffs _ 0 (omega arith) hs in
      let (p, r, s) = factors shift a below k in
      (
        length-run (λ b. add) (inverse_lower shift) shift below (a ∷ []) coeffs ∙ l,
        All-set (λ c. c < q) _ _ _ (mul_below _ _ (sub_below x y x_below y_below) r)
            (All-set (λ c. c < q) coeffs _ _ (add_below x y x_below y_below) hs),
      )

  inverse_butterfly-double :
      (coeffs : List ℕ) (a : ℕ)
      → a < 128
      → IsCanonical coeffs
      → inverse_butterfly shift (map double coeffs) a
        ≡ map double (inverse_butterfly shift coeffs a)
  unfolding inverse_butterfly update inverse_lower
  inverse_butterfly-double coeffs a k (l, hs) =
      let i : ℕ = position shift a in
      let j : ℕ = position shift a + 2 ^ shift in
      let x : ℕ = get_or coeffs i 0 in
      let y : ℕ = get_or coeffs j 0 in
      let inside : j < 256 = inside_256 shift a below k in
      let x_below : x < q = All-get_or (λ c. c < q) coeffs _ 0 (omega arith) hs in
      let y_below : y < q = All-get_or (λ c. c < q) coeffs _ 0 (omega arith) hs in
      ap₂ (λ (u v : ℕ). set (set (map double coeffs) i (add u v)) j (inverse_lower shift a u v))
        (get_or-map coeffs i (omega arith)) (get_or-map coeffs j (omega arith))
      ∙ ap₂ (λ (u v : ℕ). set (set (map double coeffs) i u) j v) (double-add x y x_below y_below)
          (double-inverse_lower shift a x y below k x_below y_below)
      ∙ ap (λ cs. set cs j (double (inverse_lower shift a x y))) (set-map coeffs i (add x y))
      ∙ set-map (set coeffs i (add x y)) j (inverse_lower shift a x y)

  run_inverse-double :
      (order coeffs : List ℕ)
      → All (λ a. a < 128) order
      → IsCanonical coeffs
      → run (inverse_butterfly shift) order (map double coeffs)
        ≡ map double (run (inverse_butterfly shift) order coeffs)
  unfolding run
  run_inverse-double [] coeffs ks h = refl
  run_inverse-double (a ∷ order) coeffs (k, ks) h =
      ap (run (inverse_butterfly shift) order) (inverse_butterfly-double coeffs a k h)
      ∙ run_inverse-double order (inverse_butterfly shift coeffs a) ks
          (inverse_butterfly-IsCanonical coeffs a k h)

-- Every coefficient doubled `n` times.
doubles : ℕ → List ℕ → List ℕ
doubles zero coeffs = coeffs
doubles (suc n) coeffs = map double (doubles n coeffs)

double-IsCanonical : (coeffs : List ℕ) → IsCanonical coeffs → IsCanonical (map double coeffs)
double-IsCanonical coeffs (l, hs) =
    (length-map double coeffs ∙ l, All-map (λ c. c < q) (λ c. c < q) double coeffs double_below hs)

doubles-IsCanonical :
    (n : ℕ) (coeffs : List ℕ) → IsCanonical coeffs → IsCanonical (doubles n coeffs)
unfolding doubles
doubles-IsCanonical zero coeffs h = h
doubles-IsCanonical (suc n) coeffs h =
    double-IsCanonical (doubles n coeffs) (doubles-IsCanonical n coeffs h)

doubles-double :
    (n : ℕ) (coeffs : List ℕ) → doubles n (map double coeffs) ≡ map double (doubles n coeffs)
unfolding doubles
doubles-double zero coeffs = refl
doubles-double (suc n) coeffs = ap (map double) (doubles-double n coeffs)

indices_below : (n i : ℕ) → i + n ≤ 128 → All (λ a. a < 128) (count_from i n)
unfolding count_from
indices_below zero i h = tt
indices_below (suc n) i h = (omega arith, indices_below n (suc i) (omega arith))

run_inverse-doubles :
    (n shift : ℕ) (coeffs : List ℕ)
    → shift < 8
    → IsCanonical coeffs
    → IsCanonical (run (inverse_butterfly shift) (count_from 0 128) coeffs)
    → run (inverse_butterfly shift) (count_from 0 128) (doubles n coeffs)
      ≡ doubles n (run (inverse_butterfly shift) (count_from 0 128) coeffs)
unfolding doubles
run_inverse-doubles zero shift coeffs h c d = refl
run_inverse-doubles (suc n) shift coeffs h c d =
    run_inverse-double shift h (count_from 0 128) (doubles n coeffs)
      (indices_below 128 0 (omega arith)) (doubles-IsCanonical n coeffs c)
    ∙ ap (map double) (run_inverse-doubles n shift coeffs h c d)

-- The last stage of the inverse, taken apart.
last_stage :
    (n shift : ℕ) (coeffs : List ℕ)
    → ordered_inverse_stages (suc n) shift coeffs
      ≡ run
          (inverse_butterfly (shift + n))
          (count_from 0 128)
          (ordered_inverse_stages n shift coeffs)
unfolding ordered_inverse_stages
last_stage zero shift coeffs =
    let same : shift ≡ shift + zero = omega arith in
    ap (λ (t : ℕ). run (inverse_butterfly t) (count_from 0 128) coeffs) same
last_stage (suc n) shift coeffs =
    let same : suc shift + n ≡ shift + suc n = omega arith in
    last_stage n (suc shift) (run (inverse_butterfly shift) (count_from 0 128) coeffs)
    ∙ ap
        (λ (t : ℕ).
          run (inverse_butterfly t) (count_from 0 128)
            (ordered_inverse_stages (suc n) shift coeffs))
        same

stages_double :
    (n : ℕ) (coeffs : List ℕ)
    → n ≤ 8
    → IsCanonical coeffs
    → ordered_inverse_stages n 0 (ordered_stages n coeffs) ≡ doubles n coeffs
unfolding ordered_inverse_stages ordered_stages doubles
stages_double zero coeffs h c = refl
stages_double (suc n) coeffs h c =
    let (l, hs) = c in
    let stage : List ℕ = run (butterfly n) (count_from 0 128) coeffs in
    let stage_canonical : IsCanonical stage =
      run-IsCanonical n (omega arith) (count_from 0 128) coeffs (indices_below 128 0 (omega arith))
        c in
    let inverted : run (inverse_butterfly n) (count_from 0 128) stage ≡ map double coeffs =
      stage_inverts n coeffs (omega arith) l hs in
    let index : 0 + n ≡ n = omega arith in
    last_stage n 0 (ordered_stages n stage)
    ∙ ap
        (λ (t : ℕ).
          run (inverse_butterfly t) (count_from 0 128)
            (ordered_inverse_stages n 0 (ordered_stages n stage)))
        index
    ∙ ap (run (inverse_butterfly n) (count_from 0 128))
        (stages_double n stage (omega arith) stage_canonical)
    ∙ run_inverse-doubles n n stage (omega arith) stage_canonical
        (subst IsCanonical (sym inverted) (double-IsCanonical coeffs c))
    ∙ ap (doubles n) inverted
    ∙ doubles-double n coeffs

double_eq : (x : ℕ) → x < q → double x ≡ (2 * x) % q
unfolding double
double_eq x h = add-mod_q x x h h ∙ omega arith

double_twice : (x : ℕ) → x < q → (double (double x) < q) × (double (double x) ≡ (4 * x) % q)
double_twice x h = (
  double_below _ (double_below x h),
  omega (arith, double_eq x h, double_eq (double x) (double_below x h)),
)

-- Eight doublings and the factor at the end give the coefficient back.
scaled_back :
    (x : ℕ)
    → x < q
    → mul (double (double (double (double (double (double (double (double x)))))))) 16382 ≡ x
scaled_back x h =
    let (b2, e2) = double_twice x h in
    let (b4, e4) = double_twice _ b2 in
    let (b6, e6) = double_twice _ b4 in
    let (b8, e8) = double_twice _ b6 in mul_unique _ 16382 x b8 (omega arith) h (omega arith)

scaled :
    (coeffs : List ℕ) → All (λ c. c < q) coeffs → map (λ s. mul s 16382) (doubles 8 coeffs) ≡ coeffs
unfolding doubles
scaled [] h = refl
scaled (x ∷ xs) (h, hs) = ap₂ ◌∷◌ (scaled_back x h) (scaled xs hs)

-- A polynomial with 256 canonical coefficients comes back from its transform by the inverse
-- transform, in whatever orders the two are shuffled.
pub intt-ntt :
    (coeffs : List ℕ) → length coeffs ≡ 256 → All (λ c. c < q) coeffs → intt (ntt coeffs) ≡ coeffs
intt-ntt coeffs l h =
    intt-ordered (ntt coeffs)
    ∙ ap (λ cs. map (λ s. mul s 16382) (ordered_inverse_stages 8 0 cs)) (ntt-ordered coeffs)
    ∙ ap (map (λ s. mul s 16382)) (stages_double 8 coeffs (omega arith) (l, h))
    ∙ scaled coeffs h
