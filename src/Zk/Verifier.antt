-- ===== src/Zk/Verifier.antt =====
-- The transcript and the verifier of solomon-zk/src/challenger.rs and verifier.rs. `hash` is Keccak256
-- of the bytes that are fed to it, and `from_slice` the reader of the serialized proof, both
-- parameters. The state of the challenger is what has been fed to its hasher.
pub mod Openings
pub mod Rows
use project_solomon.Prelude.{
  ℕ, zero, suc, ◌+◌, ◌-◌, ◌*◌, ◌/◌, ◌%◌, ◌^◌, Bool, true, false, not, ◌&&◌, ◌||◌, List, [], ◌∷◌,
  ◌++◌, Option, none, some, length, replicate, get_or, take, map,
}
use project_solomon.Prelude.{ltb, leb, ◌==◌, if◌then◌else◌, Result, ok, err, ◌>>=◌, ◌>>◌, guard}
use project_solomon.Prelude.Bytes.{bytes_eq, concat, le_bytes, from_le}
use project_solomon.Zk.Field.{goldilocks_prime, exp, from_u64}
use project_solomon.Zk.Merkle.{Digest, zero_digest, verify_merkle_proof}

pub record FriQueryOpening : Type 0 where
  pub index : ℕ
  pub trace_evals : List ℕ
  pub quotient_evals : List ℕ
  pub trace_merkle_path : List Digest
  pub quotient_merkle_path : List Digest
  pub fri_merkle_paths : List (List Digest)

pub record FriProof : Type 0 where
  pub layer_roots : List Digest
  pub queries : List FriQueryOpening
  pub final_poly : ℕ

pub record StarkProof : Type 0 where
  pub trace_root : Digest
  pub quotient_root : Digest
  pub fri_proof : FriProof

pub data StarkVerificationError : Type 0 where
  invalid_proof_payload : StarkVerificationError
  invalid_field_element : StarkVerificationError
  null_merkle_root : StarkVerificationError
  alpha_challenge_mismatch : StarkVerificationError
  zeta_challenge_mismatch : StarkVerificationError
  vanishing_polynomial_zero : StarkVerificationError
  fri_folding_mismatch : StarkVerificationError
  fiat_shamir_index_mismatch : StarkVerificationError
  trace_merkle_decommitment_failed : StarkVerificationError
  quotient_merkle_decommitment_failed : StarkVerificationError
  fri_colinearity_check_failed : StarkVerificationError

-- An error that is returned, or a panic.
pub data Fault : Type 0 where
  failed : StarkVerificationError → Fault
  panicked : Fault

-- `1 << n`, where a count of 64 and more wraps around.
unfoldable pub one_shifted : ℕ → ℕ
one_shifted n = 2 ^ (n % 64)

-- `query.index % (1 << depth)`
unfoldable pub leaf_index : ℕ → ℕ → ℕ
unfolding one_shifted
leaf_index index depth = if ltb 0 depth then index % one_shifted depth else 0

-- Whether one of the powers of two below 2^n is the number.
unfoldable pub any_power : ℕ → ℕ → Bool
any_power zero a = false
any_power (suc n) a = 2 ^ n == a || any_power n a

unfoldable pub is_power_of_two : ℕ → Bool
unfolding any_power
is_power_of_two a = any_power 64 a

unfoldable pub get_root_of_unity : ℕ → Result Fault ℕ
unfolding is_power_of_two exp
get_root_of_unity n =
    guard (is_power_of_two n && leb n (2 ^ 32)) Fault.panicked
    >> ok (exp 7 ((goldilocks_prime - 1) / n))

unfoldable pub is_empty {ℓ} : {A : Type ℓ} → List A → Bool
is_empty [] = true
is_empty (x ∷ xs) = false

-- The loop over the betas of one query, for the `n` betas from the `k`-th on. The remainder by zero
-- panics.
unfoldable pub check_folds : ℕ → ℕ → List (List Digest) → ℕ → ℕ → Result Fault (Unit {0})
unfolding get_root_of_unity is_empty exp
check_folds zero k paths current_idx current_domain_len = ok tt
check_folds (suc n) k paths current_idx current_domain_len =
    let half : ℕ = current_domain_len / 2 in
    let i : ℕ = current_idx % half in
    let rest : Result Fault (Unit {0}) = check_folds n (k + 1) paths i half in
    if leb (length paths) (k + 1)
    then ok tt
    else (guard (not (half == 0)) Fault.panicked
        >> (get_root_of_unity current_domain_len >>= λ omega.
            guard (not (ltb (k + 1) (length paths - 1) && is_empty (get_or paths (k + 1) [])))
              (Fault.failed StarkVerificationError.fri_colinearity_check_failed)
            >> (guard (not (k + 2 == length paths && exp omega i == 0))
                  (Fault.failed StarkVerificationError.fri_folding_mismatch)
                >> rest)))

module _ (hash : List ℕ → Digest) where
  -- `sample_ext`: the element, and the state that holds the hash alone.
  unfoldable pub sample_ext : List ℕ → ℕ × List ℕ
  unfolding from_u64
  sample_ext state =
      let result : List ℕ = hash state in
      (from_u64 (from_le (take 8 result) % goldilocks_prime), result)

  unfoldable pub sample_alphas : ℕ → List ℕ → List ℕ × List ℕ
  unfolding sample_ext
  sample_alphas zero state = ([], state)
  sample_alphas (suc count) state =
      let (alpha, state) = sample_ext state in
      let (alphas, state) = sample_alphas count state in (alpha ∷ alphas, state)

  unfoldable pub leaf_of : List ℕ → Digest
  leaf_of evals = hash (concat (map (le_bytes 8) evals))

  -- The first root and the first evaluation, when both are there.
  unfoldable pub check_quotient : List Digest → FriQueryOpening → Result Fault (Unit {0})
  unfolding leaf_index leaf_of
  check_quotient [] query = ok tt
  check_quotient (layer_0_root ∷ roots) query = elim query.quotient_evals [
    | [] ↦ ok tt
    | eval ∷ evals ↦
        guard
          (verify_merkle_proof hash layer_0_root (leaf_of (eval ∷ [])) query.quotient_merkle_path
            (leaf_index query.index (length query.quotient_merkle_path)))
          (Fault.failed StarkVerificationError.quotient_merkle_decommitment_failed)
  ]

  unfoldable pub check_colinearity : ℕ → FriQueryOpening → Result Fault (Unit {0})
  unfolding is_empty check_folds one_shifted
  check_colinearity betas query =
      if leb 2 (length query.fri_merkle_paths)
      then (guard (not (is_empty query.quotient_evals))
            (Fault.failed StarkVerificationError.fri_colinearity_check_failed)
          >> check_folds betas 0 query.fri_merkle_paths query.index
              (one_shifted (length query.fri_merkle_paths)))
      else ok tt

  -- The body of the loop over the queries.
  unfoldable pub check_query : StarkProof → ℕ → FriQueryOpening → Result Fault (Unit {0})
  unfolding is_empty leaf_index leaf_of check_quotient check_colinearity
  check_query proof betas query =
      guard (not (is_empty query.trace_evals || is_empty query.trace_merkle_path))
        (Fault.failed StarkVerificationError.fri_colinearity_check_failed)
      >> (guard
            (verify_merkle_proof hash proof.trace_root (leaf_of query.trace_evals)
              query.trace_merkle_path (leaf_index query.index (length query.trace_merkle_path)))
            (Fault.failed StarkVerificationError.trace_merkle_decommitment_failed)
          >> (check_quotient proof.fri_proof.layer_roots query >> check_colinearity betas query))

  unfoldable pub check_queries : StarkProof → ℕ → List FriQueryOpening → Result Fault (Unit {0})
  unfolding check_query
  check_queries proof betas [] = ok tt
  check_queries proof betas (query ∷ queries) =
      check_query proof betas query >> check_queries proof betas queries

  unfoldable pub all_zero : List ℕ → Bool
  all_zero [] = true
  all_zero (a ∷ alphas) = a == 0 && all_zero alphas

  -- What is checked of a proof that has been read. The betas are sampled and not used, so that only
  -- their count is kept.
  unfoldable pub verify_parsed : StarkProof → List ℕ → List ℕ → Result Fault Bool
  unfolding sample_alphas sample_ext all_zero is_empty check_queries
  verify_parsed proof public_key message =
      let (expected_alphas, state) =
        sample_alphas 4 (public_key ++ (message ++ proof.trace_root)) in
      let (expected_zeta, state) = sample_ext state in
      guard (not (bytes_eq proof.trace_root zero_digest))
        (Fault.failed StarkVerificationError.null_merkle_root)
      >> (guard (not (leb goldilocks_prime proof.fri_proof.final_poly))
            (Fault.failed StarkVerificationError.invalid_field_element)
          >> (guard (not (is_empty proof.fri_proof.queries))
                (Fault.failed StarkVerificationError.invalid_proof_payload)
              >> (guard (not (all_zero expected_alphas))
                    (Fault.failed StarkVerificationError.alpha_challenge_mismatch)
                  >> (guard (not (expected_zeta == 0))
                        (Fault.failed StarkVerificationError.zeta_challenge_mismatch)
                      >> (check_queries proof (length proof.fri_proof.layer_roots - 1)
                            proof.fri_proof.queries
                          >> ok true)))))

  unfoldable pub verify_stark_proof :
      (List ℕ → Option StarkProof) → List ℕ → List ℕ → List ℕ → Result Fault Bool
  unfolding verify_parsed
  verify_stark_proof from_slice proof_bytes public_key message = elim (from_slice proof_bytes) [
    | none ↦ err (Fault.failed StarkVerificationError.invalid_proof_payload)
    | some proof ↦ verify_parsed proof public_key message
  ]
