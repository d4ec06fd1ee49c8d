-- ===== src/Crypto/Ntt/Stage.antt =====
-- What a whole stage of butterflies stores: solomon-core/src/crypto/poly.rs.
use project_solomon.Prelude.{
  ℕ, zero, suc, ◌+◌, ◌*◌, ◌/◌, ◌%◌, ◌^◌, ◌<◌, ◌≤◌, ◌≢◌, ◌⊎◌, inl, inr, List, [], ◌∷◌, get_or, set,
  get_or-set_self, get_or-set_ne, length, length-set,
}
use project_solomon.Prelude.{Bool-cases, ltb, ◌≡◌, refl, sym, ap, ap₂, ◌∙◌, arith}
use native.Mathlib.Decide.{ℕ_discrete}
use project_solomon.Prelude.Radix.{positive}
use project_solomon.Crypto.Ntt.{position, run, count_from}
use project_solomon.Crypto.Ntt.Butterfly.{update, get_or-update, position_eq, Apart, apart}

cover0 : (x : ℕ) → x < 256 → (a : ℕ) × (a < 128) × ((x ≡ position 0 a) ⊎ (x ≡ position 0 a + 1))
cover0 x h =
    let a : ℕ = x / 2 * 1 + x % 1 in
    (
      a,
      omega arith,
      elim (Bool-cases (ltb (x / 1 % 2) 1)) [
        | inl e ↦ inl (ground (arith, position_eq 0 a))
        | inr e ↦ inr (ground (arith, position_eq 0 a))
      ],
    )

cover1 : (x : ℕ) → x < 256 → (a : ℕ) × (a < 128) × ((x ≡ position 1 a) ⊎ (x ≡ position 1 a + 2))
cover1 x h =
    let a : ℕ = x / 4 * 2 + x % 2 in
    (
      a,
      omega arith,
      elim (Bool-cases (ltb (x / 2 % 2) 1)) [
        | inl e ↦ inl (ground (arith, position_eq 1 a))
        | inr e ↦ inr (ground (arith, position_eq 1 a))
      ],
    )

cover2 : (x : ℕ) → x < 256 → (a : ℕ) × (a < 128) × ((x ≡ position 2 a) ⊎ (x ≡ position 2 a + 4))
cover2 x h =
    let a : ℕ = x / 8 * 4 + x % 4 in
    (
      a,
      omega arith,
      elim (Bool-cases (ltb (x / 4 % 2) 1)) [
        | inl e ↦ inl (ground (arith, position_eq 2 a))
        | inr e ↦ inr (ground (arith, position_eq 2 a))
      ],
    )

cover3 : (x : ℕ) → x < 256 → (a : ℕ) × (a < 128) × ((x ≡ position 3 a) ⊎ (x ≡ position 3 a + 8))
cover3 x h =
    let a : ℕ = x / 16 * 8 + x % 8 in
    (
      a,
      omega arith,
      elim (Bool-cases (ltb (x / 8 % 2) 1)) [
        | inl e ↦ inl (ground (arith, position_eq 3 a))
        | inr e ↦ inr (ground (arith, position_eq 3 a))
      ],
    )

cover4 : (x : ℕ) → x < 256 → (a : ℕ) × (a < 128) × ((x ≡ position 4 a) ⊎ (x ≡ position 4 a + 16))
cover4 x h =
    let a : ℕ = x / 32 * 16 + x % 16 in
    (
      a,
      omega arith,
      elim (Bool-cases (ltb (x / 16 % 2) 1)) [
        | inl e ↦ inl (ground (arith, position_eq 4 a))
        | inr e ↦ inr (ground (arith, position_eq 4 a))
      ],
    )

cover5 : (x : ℕ) → x < 256 → (a : ℕ) × (a < 128) × ((x ≡ position 5 a) ⊎ (x ≡ position 5 a + 32))
cover5 x h =
    let a : ℕ = x / 64 * 32 + x % 32 in
    (
      a,
      omega arith,
      elim (Bool-cases (ltb (x / 32 % 2) 1)) [
        | inl e ↦ inl (ground (arith, position_eq 5 a))
        | inr e ↦ inr (ground (arith, position_eq 5 a))
      ],
    )

cover6 : (x : ℕ) → x < 256 → (a : ℕ) × (a < 128) × ((x ≡ position 6 a) ⊎ (x ≡ position 6 a + 64))
cover6 x h =
    let a : ℕ = x / 128 * 64 + x % 64 in
    (
      a,
      omega arith,
      elim (Bool-cases (ltb (x / 64 % 2) 1)) [
        | inl e ↦ inl (ground (arith, position_eq 6 a))
        | inr e ↦ inr (ground (arith, position_eq 6 a))
      ],
    )

cover7 : (x : ℕ) → x < 256 → (a : ℕ) × (a < 128) × ((x ≡ position 7 a) ⊎ (x ≡ position 7 a + 128))
cover7 x h =
    let a : ℕ = x / 256 * 128 + x % 128 in
    (
      a,
      omega arith,
      elim (Bool-cases (ltb (x / 128 % 2) 1)) [
        | inl e ↦ inl (ground (arith, position_eq 7 a))
        | inr e ↦ inr (ground (arith, position_eq 7 a))
      ],
    )

covering :
    (shift x : ℕ)
    → shift < 8
    → x < 256
    → (a : ℕ) × (a < 128) × ((x ≡ position shift a) ⊎ (x ≡ position shift a + 2 ^ shift))
covering zero x h k = cover0 x k
covering (suc zero) x h k = cover1 x k
covering (suc (suc zero)) x h k = cover2 x k
covering (suc (suc (suc zero))) x h k = cover3 x k
covering (suc (suc (suc (suc zero)))) x h k = cover4 x k
covering (suc (suc (suc (suc (suc zero))))) x h k = cover5 x k
covering (suc (suc (suc (suc (suc (suc zero)))))) x h k = cover6 x k
covering (suc (suc (suc (suc (suc (suc (suc zero))))))) x h k = cover7 x k
covering (suc (suc (suc (suc (suc (suc (suc (suc shift)))))))) x h k = absurd (omega arith)

pub inside_256 : (shift a : ℕ) → shift < 8 → a < 128 → position shift a + 2 ^ shift < 256
inside_256 zero a h k = omega (arith, position_eq 0 a)
inside_256 (suc zero) a h k = omega (arith, position_eq 1 a)
inside_256 (suc (suc zero)) a h k = omega (arith, position_eq 2 a)
inside_256 (suc (suc (suc zero))) a h k = omega (arith, position_eq 3 a)
inside_256 (suc (suc (suc (suc zero)))) a h k = omega (arith, position_eq 4 a)
inside_256 (suc (suc (suc (suc (suc zero))))) a h k = omega (arith, position_eq 5 a)
inside_256 (suc (suc (suc (suc (suc (suc zero)))))) a h k = omega (arith, position_eq 6 a)
inside_256 (suc (suc (suc (suc (suc (suc (suc zero))))))) a h k = omega (arith, position_eq 7 a)
inside_256 (suc (suc (suc (suc (suc (suc (suc (suc shift)))))))) a h k = absurd (omega arith)

-- A stage whose butterflies store `f` and `g` of what they read.
module _ (f g : ℕ → ℕ → ℕ → ℕ) (shift : ℕ) (below : shift < 8) where
  unfoldable pub stage_step : List ℕ → ℕ → List ℕ
  unfolding update position
  stage_step coeffs idx =
      update (f idx) (g idx) (position shift idx) (position shift idx + 2 ^ shift) coeffs

  pub length-run : (order coeffs : List ℕ) → length (run stage_step order coeffs) ≡ length coeffs
  unfolding run stage_step update
  length-run [] coeffs = refl
  length-run (a ∷ order) coeffs =
      length-run order (stage_step coeffs a)
      ∙ length-set (set coeffs _ _) _ _
      ∙ length-set coeffs _ _

  other :
      (i a : ℕ) (coeffs : List ℕ)
      → a ≢ i
      → (get_or (stage_step coeffs i) (position shift a) 0 ≡ get_or coeffs (position shift a) 0)
        × (get_or (stage_step coeffs i) (position shift a + 2 ^ shift) 0
            ≡ get_or coeffs (position shift a + 2 ^ shift) 0)
  unfolding stage_step Apart
  other i a coeffs ne =
      let (p1, p2, p3, p4) = apart shift a i below ne in
      (
        get_or-update (f i) (g i) (position shift i) (position shift i + 2 ^ shift)
            (position shift a) coeffs (λ e. p1 (sym e)) (λ e. p2 (sym e)),
        get_or-update (f i) (g i) (position shift i) (position shift i + 2 ^ shift)
            (position shift a + 2 ^ shift) coeffs (λ e. p3 (sym e)) (λ e. p4 (sym e)),
      )

  -- The coefficients of a butterfly that is not run stay as they are.
  untouched :
      (n i a : ℕ) (coeffs : List ℕ)
      → ((b : ℕ) → i ≤ b → a ≢ b)
      → (get_or (run stage_step (count_from i n) coeffs) (position shift a) 0
          ≡ get_or coeffs (position shift a) 0)
        × (get_or (run stage_step (count_from i n) coeffs) (position shift a + 2 ^ shift) 0
            ≡ get_or coeffs (position shift a + 2 ^ shift) 0)
  unfolding run count_from
  untouched zero i a coeffs h = (refl, refl)
  untouched (suc n) i a coeffs h =
      let (r, s) = untouched n (suc i) a (stage_step coeffs i) (λ b k. h b (omega arith)) in
      let (u, v) = other i a coeffs (h i (omega arith)) in (r ∙ u, s ∙ v)

  distinct : (a : ℕ) → position shift a ≢ position shift a + 2 ^ shift
  distinct a e = absurd (omega (arith, positive shift))

  -- What one butterfly stores.
  stored :
      (a : ℕ) (coeffs : List ℕ)
      → position shift a + 2 ^ shift < length coeffs
      → (get_or (stage_step coeffs a) (position shift a) 0
          ≡ f a
              (get_or coeffs (position shift a) 0)
              (get_or coeffs (position shift a + 2 ^ shift) 0))
        × (get_or (stage_step coeffs a) (position shift a + 2 ^ shift) 0
            ≡ g a
                (get_or coeffs (position shift a) 0)
                (get_or coeffs (position shift a + 2 ^ shift) 0))
  unfolding stage_step update
  stored a coeffs h =
      let i : ℕ = position shift a in
      let j : ℕ = position shift a + 2 ^ shift in
      let first : List ℕ = set coeffs i (f a (get_or coeffs i 0) (get_or coeffs j 0)) in
      (
        get_or-set_ne first j i _ 0 (λ e. distinct a (sym e))
            ∙ get_or-set_self coeffs i _ 0 (omega arith),
        get_or-set_self first j _ 0
            (omega (arith, length-set coeffs i (f a (get_or coeffs i 0) (get_or coeffs j 0)))),
      )

  -- What a run stores in the coefficients of a butterfly that it runs.
  pub values :
      (n i a : ℕ) (coeffs : List ℕ)
      → i ≤ a
      → a < i + n
      → position shift a + 2 ^ shift < length coeffs
      → (get_or (run stage_step (count_from i n) coeffs) (position shift a) 0
          ≡ f a
              (get_or coeffs (position shift a) 0)
              (get_or coeffs (position shift a + 2 ^ shift) 0))
        × (get_or (run stage_step (count_from i n) coeffs) (position shift a + 2 ^ shift) 0
            ≡ g a
                (get_or coeffs (position shift a) 0)
                (get_or coeffs (position shift a + 2 ^ shift) 0))
  unfolding run count_from
  values zero i a coeffs h k l = absurd (omega arith)
  values (suc n) i a coeffs h k l = elim (ℕ_discrete i a) [
    | yes e ↦
        let (r, s) = untouched n (suc i) a (stage_step coeffs i) (λ b m d. absurd (omega arith)) in
        let same : stage_step coeffs i ≡ stage_step coeffs a = ap (stage_step coeffs) e in
        let (u, v) = stored a coeffs l in
        (
          r ∙ ap (λ cs. get_or cs (position shift a) 0) same ∙ u,
          s ∙ ap (λ cs. get_or cs (position shift a + 2 ^ shift) 0) same ∙ v,
        )
    | no ne ↦
        let (r, s) =
          values n (suc i) a (stage_step coeffs i) (ground arith) (omega arith)
            (omega (arith, length-run (i ∷ []) coeffs)) in
        let (u, v) = other i a coeffs (λ e. ne (sym e)) in (r ∙ ap₂ (f a) u v, s ∙ ap₂ (g a) u v)
  ]

  -- Every coefficient belongs to a butterfly.
  pub covered :
      (x : ℕ)
      → x < 256
      → (a : ℕ) × (a < 128) × ((x ≡ position shift a) ⊎ (x ≡ position shift a + 2 ^ shift))
  covered x h = covering shift x below h
