-- ===== src/Crypto/Ntt/Order.antt =====
-- The shuffled order of the butterflies changes nothing: solomon-core/src/crypto/poly.rs.
use project_solomon.Prelude.{ℕ, zero, suc, ◌+◌, ◌≤◌, List, [], ◌∷◌, map, length, All}
use project_solomon.Prelude.{◌≡◌, refl, sym, ap, ◌∙◌, arith}
use project_solomon.Crypto.Scalar.{mul}
use project_solomon.Crypto.Ntt.{
  hash_coefficients, count_from, stage_order, butterfly, inverse_butterfly, run, ntt_stages, ntt,
  intt_stages, intt,
}
use project_solomon.Crypto.Ntt.Perm.{shuffle-Perm, run-Perm}
use project_solomon.Crypto.Ntt.Butterfly.{butterfly_comm, inverse_butterfly_comm}

-- The transforms with the butterflies of every stage in the order of their index.
unfoldable pub ordered_stages : ℕ → List ℕ → List ℕ
unfolding run butterfly count_from
ordered_stages zero coeffs = coeffs
ordered_stages (suc shift) coeffs =
    ordered_stages shift (run (butterfly shift) (count_from 0 128) coeffs)

unfoldable pub ordered_inverse_stages : ℕ → ℕ → List ℕ → List ℕ
unfolding run inverse_butterfly count_from
ordered_inverse_stages zero shift coeffs = coeffs
ordered_inverse_stages (suc n) shift coeffs =
    ordered_inverse_stages n (suc shift) (run (inverse_butterfly shift) (count_from 0 128) coeffs)

length-count_from : (i n : ℕ) → length (count_from i n) ≡ n
unfolding count_from
length-count_from i zero = refl
length-count_from i (suc n) = ap suc (length-count_from (suc i) n)

anything : (xs : List ℕ) → All (λ x. Unit {0}) xs
anything [] = tt
anything (x ∷ xs) = (tt, anything xs)

stage_run :
    (state : ℕ) (coeffs : List ℕ) (step : List ℕ → ℕ → List ℕ)
    → ((a b : ℕ) (cs : List ℕ) → step (step cs a) b ≡ step (step cs b) a)
    → (let (order, state') = stage_order state in run step order coeffs)
      ≡ run step (count_from 0 128) coeffs
unfolding stage_order
stage_run state coeffs step commute = sym (
    run-Perm (λ x. Unit {0}) step (λ a b cs h k. commute a b cs) coeffs
      (shuffle-Perm 127 state (count_from 0 128) (omega (arith, length-count_from 0 128)))
      (anything (count_from 0 128)))

stages_eq :
    (n state : ℕ) (coeffs : List ℕ) → n ≤ 8 → ntt_stages n state coeffs ≡ ordered_stages n coeffs
unfolding ntt_stages ordered_stages
stages_eq zero state coeffs h = refl
stages_eq (suc shift) state coeffs h =
    let (order, state') = stage_order state in
    stages_eq shift state' (run (butterfly shift) order coeffs) (omega arith)
    ∙ ap (ordered_stages shift) (
        stage_run state coeffs (butterfly shift)
          (λ a b cs. butterfly_comm shift a b cs (omega arith)))

inverse_stages_eq :
    (n shift state : ℕ) (coeffs : List ℕ)
    → n + shift ≤ 8
    → intt_stages n shift state coeffs ≡ ordered_inverse_stages n shift coeffs
unfolding intt_stages ordered_inverse_stages
inverse_stages_eq zero shift state coeffs h = refl
inverse_stages_eq (suc n) shift state coeffs h =
    let (order, state') = stage_order state in
    inverse_stages_eq n (suc shift) state' (run (inverse_butterfly shift) order coeffs)
      (omega arith)
    ∙ ap (ordered_inverse_stages n (suc shift)) (
        stage_run state coeffs (inverse_butterfly shift)
          (λ a b cs. inverse_butterfly_comm shift a b cs (omega arith)))

-- Whatever the coefficients seed the shuffle with, the transform of a polynomial is the one that runs
-- the butterflies of every stage in the order of their index.
pub ntt-ordered : (coeffs : List ℕ) → ntt coeffs ≡ ordered_stages 8 coeffs
unfolding ntt
ntt-ordered coeffs = stages_eq 8 (hash_coefficients coeffs) coeffs (omega arith)

-- So is the inverse transform, with its scaling at the end.
pub intt-ordered :
    (coeffs : List ℕ) → intt coeffs ≡ map (λ s. mul s 16382) (ordered_inverse_stages 8 0 coeffs)
unfolding intt
intt-ordered coeffs =
    ap (map (λ s. mul s 16382))
      (inverse_stages_eq 8 0 (hash_coefficients coeffs) coeffs (omega arith))
