-- ===== src/Zk/Tests.antt =====
-- The theorems on solomon-zk at concrete elements and leaves.
use project_solomon.Prelude.{ℕ, ◌%◌, ◌^◌, ◌≡◌, arith, List, [], ◌∷◌, some}
use project_solomon.Prelude.{take, true}
use project_solomon.Zk.Field.{goldilocks_prime, exp}
use project_solomon.Zk.Field.Power.{exp-mod}
use project_solomon.Zk.Merkle.{Digest, build_merkle_tree_from_leaves, generate_merkle_proof}
use project_solomon.Zk.Merkle.{verify_merkle_proof}
use project_solomon.Zk.Merkle.{climb}
use project_solomon.Zk.Merkle.Binding.{HashCollision, verify_merkle_proof-binds}
use project_solomon.Prelude.{◌⊎◌, replicate, refl}
use project_solomon.Prelude.Bytes.{bytes_eq, from_le, concat, le_bytes}
use project_solomon.Zk.Merkle.Complete.{verify-generate_merkle_proof}
use project_solomon.Prelude.{All, ok}
use project_solomon.Zk.Verifier.{FriQueryOpening, StarkProof, verify_parsed}
use project_solomon.Zk.Verifier.Openings.{with_final_poly, verify_parsed-final_poly_unbound}
use project_solomon.Zk.Verifier.Rows.{Reaches, OpensRow, verify_parsed-opens_rows}
use project_solomon.Zk.Merkle.{pad, hash_row, build_merkle_tree_from_matrix}
use project_solomon.Zk.Fri.{fold_to_constant}
use project_solomon.Zk.Fri.Folding.{fold_to_constant-finishes}
use project_solomon.Prelude.{length}

abbrev minus_one : ℕ
minus_one = 0xFFFFFFFF00000000

exp-mod_example : exp 7 13 ≡ 7 ^ 13 % goldilocks_prime
exp-mod_example = exp-mod 7 13 (omega arith) (omega arith)

-- A stand-in for the hash: the first bytes of the text.
abbrev first_bytes : List ℕ → Digest
first_bytes text = take 4 text

abbrev three_leaves : List Digest
three_leaves = (1 ∷ []) ∷ (2 ∷ []) ∷ (3 ∷ []) ∷ []

verify-generate_merkle_proof_example :
    (proof : List Digest) × (generate_merkle_proof
        (build_merkle_tree_from_leaves first_bytes three_leaves).1
        2
      ≡ some proof)
    × (verify_merkle_proof first_bytes
          (build_merkle_tree_from_leaves first_bytes three_leaves).0
          (3 ∷ [])
          proof
          2
        ≡ true)
verify-generate_merkle_proof_example =
    verify-generate_merkle_proof first_bytes three_leaves 2 (omega arith)

-- A stand-in for a hash of 32 bytes.
abbrev constant : List ℕ → Digest
constant text = replicate 32 0

abbrev leaf : Digest
leaf = replicate 32 1

verify_merkle_proof-binds_example : (leaf ≡ leaf) ⊎ HashCollision constant
unfolding verify_merkle_proof climb bytes_eq
verify_merkle_proof-binds_example =
    verify_merkle_proof-binds constant (λ text. refl) (replicate 32 0) leaf leaf
      (replicate 32 2 ∷ []) (replicate 32 3 ∷ []) 1 refl (refl, tt) (refl, tt) refl refl refl refl

abbrev opening : FriQueryOpening
opening = record {
  index = 1;
  trace_evals = 5 ∷ [];
  quotient_evals = [];
  trace_merkle_path = (2 ∷ []) ∷ [];
  quotient_merkle_path = [];
  fri_merkle_paths = [];
}

-- A root that the row of the opening hashes up to.
abbrev opening_proof : StarkProof
opening_proof = record {
  trace_root = 2 ∷ 5 ∷ 0 ∷ 0 ∷ [];
  quotient_root = [];
  fri_proof = record { layer_roots = []; queries = opening ∷ []; final_poly = 0 };
}

opening_accepted : verify_parsed first_bytes opening_proof (1 ∷ 2 ∷ []) (3 ∷ []) ≡ ok true
unfolding verify_parsed bytes_eq from_le verify_merkle_proof concat le_bytes
opening_accepted = refl

-- A stand-in for a hash of 32 bytes: the length of the text, and ones.
abbrev counted : List ℕ → Digest
counted text = length text % 256 ∷ replicate 31 1

abbrev two_rows : List (List ℕ)
two_rows = (5 ∷ []) ∷ (6 ∷ []) ∷ []

abbrev row_opening : FriQueryOpening
row_opening = record {
  index = 3;
  trace_evals = 6 ∷ [];
  quotient_evals = [];
  trace_merkle_path = counted (replicate 8 0) ∷ [];
  quotient_merkle_path = [];
  fri_merkle_paths = [];
}

abbrev row_proof : StarkProof
row_proof = record {
  trace_root = counted (replicate 64 0);
  quotient_root = [];
  fri_proof = record { layer_roots = []; queries = row_opening ∷ []; final_poly = 0 };
}

row_accepted : verify_parsed counted row_proof (1 ∷ 2 ∷ []) (3 ∷ []) ≡ ok true
unfolding verify_parsed bytes_eq from_le verify_merkle_proof concat le_bytes
row_accepted = refl

row_reached : Reaches counted (λ text. refl) two_rows row_opening
unfolding pad hash_row
row_reached = record {
  height = refl;
  short = omega arith;
  inside = omega arith;
  digests = (refl, tt);
}

verify_parsed-opens_rows_example :
    All (OpensRow counted (λ text. refl) two_rows) (row_opening ∷ []) ⊎ HashCollision counted
unfolding build_merkle_tree_from_matrix hash_row concat le_bytes
verify_parsed-opens_rows_example =
    verify_parsed-opens_rows counted (λ text. refl) two_rows row_proof (1 ∷ 2 ∷ []) (3 ∷ []) refl
      (row_reached, tt) row_accepted

verify_parsed-final_poly_unbound_example :
    verify_parsed first_bytes (with_final_poly first_bytes 99 opening_proof) (1 ∷ 2 ∷ []) (3 ∷ [])
    ≡ ok true
verify_parsed-final_poly_unbound_example =
    verify_parsed-final_poly_unbound first_bytes opening_proof 99 (1 ∷ 2 ∷ []) (3 ∷ [])
      (omega arith) opening_accepted

abbrev four_evaluations : List ℕ
four_evaluations = 3 ∷ 1 ∷ 4 ∷ 15 ∷ []

fold_to_constant-finishes_example :
    (last : List ℕ) × (layers : List (Digest × List (List Digest))) × (after : List ℕ)
    × (fold_to_constant first_bytes four_evaluations (7 ∷ []) ≡ ok (last, layers, after))
    × (length last ≡ 1)
    × (length layers ≡ 3)
fold_to_constant-finishes_example =
    fold_to_constant-finishes first_bytes 2 four_evaluations (7 ∷ []) (omega arith) refl
