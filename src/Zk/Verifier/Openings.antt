-- ===== src/Zk/Verifier/Openings.antt =====
-- What an accepted proof of solomon-zk/src/verifier.rs has shown, and what it has not.
use project_solomon.Prelude.{
  ◌-◌, ◌<◌, Bool, true, false, not, ◌||◌, List, [], ◌∷◌, length, All, leb,
}
use project_solomon.Prelude.{◌≡◌, refl, ap, arith, Result, ok, err, ◌>>◌, guard}
use project_solomon.Prelude.{ℕ}
use project_solomon.Prelude.Bytes.{bytes_eq}
use project_solomon.Zk.Field.{goldilocks_prime}
use project_solomon.Zk.Merkle.{Digest, zero_digest, verify_merkle_proof}
use project_solomon.Zk.Verifier.{
  FriQueryOpening, StarkProof, Fault, leaf_index, is_empty, leaf_of, check_query, check_queries,
  verify_parsed,
}

then_ok :
    {A : Type 0} (m : Result Fault (Unit {0})) (k : Result Fault A) (a : A)
    → (m >> k) ≡ ok a
    → (m ≡ ok tt) × (k ≡ ok a)
then_ok (ok tt) k a h = (refl, h)
then_ok (err e) k a h = cc

guard-true : (t : Bool) (e : Fault) → guard t e ≡ ok tt → t ≡ true
guard-true true e h = refl
guard-true false e h = cc

module _ (hash : List ℕ → Digest) where
  -- The opening of a query's row hashes up to the root of the trace.
  abbrev pub Opens : Digest → FriQueryOpening → Type 0
  Opens root query =
      verify_merkle_proof hash root (leaf_of hash query.trace_evals) query.trace_merkle_path
        (leaf_index query.index (length query.trace_merkle_path))
      ≡ true

  queries_open :
      (proof : StarkProof) (betas : ℕ) (queries : List FriQueryOpening)
      → check_queries hash proof betas queries ≡ ok tt
      → All (Opens proof.trace_root) queries
  unfolding check_queries check_query
  queries_open proof betas [] h = tt
  queries_open proof betas (query ∷ queries) h =
      let (first, rest) =
        then_ok (check_query hash proof betas query) (check_queries hash proof betas queries) tt
          h in
      let (shape, behind) =
        then_ok (guard (not (is_empty query.trace_evals || is_empty query.trace_merkle_path)) _) _
          tt first in
      let (opened, others) =
        then_ok
          (guard
            (verify_merkle_proof hash proof.trace_root (leaf_of hash query.trace_evals)
              query.trace_merkle_path (leaf_index query.index (length query.trace_merkle_path)))
            _)
          _ tt behind in
      (guard-true _ _ opened, queries_open proof betas queries rest)

  -- The guards that an accepted proof has passed on its rows.
  pub verify_parsed-openings :
      (proof : StarkProof) (public_key message : List ℕ)
      → verify_parsed hash proof public_key message ≡ ok true
      → All (Opens proof.trace_root) proof.fri_proof.queries
  unfolding verify_parsed
  verify_parsed-openings proof public_key message h =
      let (a, h1) = then_ok (guard (not (bytes_eq proof.trace_root zero_digest)) _) _ true h in
      let (b, h2) =
        then_ok (guard (not (leb goldilocks_prime proof.fri_proof.final_poly)) _) _ true h1 in
      let (c, h3) = then_ok (guard (not (is_empty proof.fri_proof.queries)) _) _ true h2 in
      let (d, h4) = then_ok _ _ true h3 in
      let (e, h5) = then_ok _ _ true h4 in
      let (f, h6) =
        then_ok
          (check_queries hash proof (length proof.fri_proof.layer_roots - 1)
            proof.fri_proof.queries)
          (ok true) true h5 in
      queries_open proof _ proof.fri_proof.queries f

  -- The proof with another final constant.
  abbrev pub with_final_poly : ℕ → StarkProof → StarkProof
  with_final_poly v proof = record {
    trace_root = proof.trace_root;
    quotient_root = proof.quotient_root;
    fri_proof = record {
      layer_roots = proof.fri_proof.layer_roots;
      queries = proof.fri_proof.queries;
      final_poly = v;
    };
  }

  same_queries :
      (proof : StarkProof) (v betas : ℕ) (queries : List FriQueryOpening)
      → check_queries hash (with_final_poly v proof) betas queries
        ≡ check_queries hash proof betas queries
  unfolding check_queries check_query
  same_queries proof v betas [] = refl
  same_queries proof v betas (query ∷ queries) =
      ap (λ r. check_query hash proof betas query >> r) (same_queries proof v betas queries)

  -- The final constant of the folding is not bound to anything: a proof that is accepted stays
  -- accepted with any other constant in the field.
  pub verify_parsed-final_poly_unbound :
      (proof : StarkProof) (v : ℕ) (public_key message : List ℕ)
      → v < goldilocks_prime
      → verify_parsed hash proof public_key message ≡ ok true
      → verify_parsed hash (with_final_poly v proof) public_key message ≡ ok true
  unfolding verify_parsed
  verify_parsed-final_poly_unbound proof v public_key message l h =
      let (a, h1) = then_ok (guard (not (bytes_eq proof.trace_root zero_digest)) _) _ true h in
      let (b, h2) =
        then_ok (guard (not (leb goldilocks_prime proof.fri_proof.final_poly)) _) _ true h1 in
      let in_field : not (leb goldilocks_prime v) ≡ true = ground arith in
      rw
        (
          guard-true _ _ a,
          in_field,
          same_queries proof v (length proof.fri_proof.layer_roots - 1) proof.fri_proof.queries,
        )
        h2
