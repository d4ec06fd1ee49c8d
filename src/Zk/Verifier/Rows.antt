-- ===== src/Zk/Verifier/Rows.antt =====
-- What an accepted proof of solomon-zk/src/verifier.rs says of the rows of a committed trace.
use project_solomon.Prelude.{
  ℕ, zero, suc, ◌%◌, ◌^◌, ◌<◌, List, [], ◌∷◌, length, map, length-map, All, get_or, ltb,
}
use project_solomon.Prelude.{◌≡◌, refl, ◌∙◌, arith, ok, ◌⊎◌, inl, inr, true}
use mathlib.Core.Path.{subst}
use native.Mathlib.Nat.{mod-eq_of_lt, mod-lt, one-le-pow}
use project_solomon.Prelude.Bytes.{concat, le_bytes}
use project_solomon.Zk.Merkle.{
  Digest, pad, hash_row, build_merkle_tree_from_matrix, verify_merkle_proof,
}
use project_solomon.Zk.Merkle.Binding.{Is32, HashCollision, same_or_HashCollision}
use project_solomon.Zk.Merkle.Complete.{get_or-pad}
use project_solomon.Zk.Merkle.Committed.{verify_merkle_proof-committed}
use project_solomon.Zk.Verifier.{
  FriQueryOpening, StarkProof, leaf_of, leaf_index, one_shifted, verify_parsed,
}
use project_solomon.Zk.Verifier.Openings.{Opens, verify_parsed-openings}

-- The bytes of a row that are hashed.
abbrev pub row_bytes : List ℕ → List ℕ
row_bytes row = concat (map (le_bytes 8) row)

-- The place in the trace that a query asks for.
abbrev pub row_index : FriQueryOpening → ℕ
row_index query = query.index % 2 ^ length query.trace_merkle_path

leaf_index-mod : (index depth : ℕ) → depth < 64 → leaf_index index depth ≡ index % 2 ^ depth
unfolding leaf_index one_shifted
leaf_index-mod index zero h = omega arith
leaf_index-mod index (suc depth) h =
    let shift : suc depth % 64 ≡ suc depth = mod-eq_of_lt h in
    let positive : ltb 0 (suc depth) ≡ true = ground arith in rw (positive, shift) refl

get_or-map :
    (f : List ℕ → Digest) (rows : List (List ℕ)) (i : ℕ)
    → i < length rows
    → get_or (map f rows) i [] ≡ f (get_or rows i [])
get_or-map f [] i h = absurd (omega arith)
get_or-map f (row ∷ rows) zero h = refl
get_or-map f (row ∷ rows) (suc i) h = get_or-map f rows i (omega arith)

module _ (hash : List ℕ → Digest) (fixed : (text : List ℕ) → length (hash text) ≡ 32)
    (matrix : List (List ℕ)) where
  -- A path of digests of the height of the tree, to a row of the trace.
  pub record Reaches (query : FriQueryOpening) : Type 0 where
    pub height : length (pad (map (hash_row hash) matrix)) ≡ 2 ^ length query.trace_merkle_path
    pub short : length query.trace_merkle_path < 64
    pub inside : row_index query < length matrix
    pub digests : All Is32 query.trace_merkle_path

  -- The bytes of the row that a query opens are those of the row of the trace at its index.
  abbrev pub OpensRow : FriQueryOpening → Type 0
  OpensRow query = row_bytes query.trace_evals ≡ row_bytes (get_or matrix (row_index query) [])

  Is32-rows : (rows : List (List ℕ)) → All Is32 (map (hash_row hash) rows)
  unfolding hash_row
  Is32-rows [] = tt
  Is32-rows (row ∷ rows) = (fixed _, Is32-rows rows)

  row_opened :
      (query : FriQueryOpening)
      → Reaches query
      → Opens hash (build_merkle_tree_from_matrix hash matrix).0 query
      → OpensRow query ⊎ HashCollision hash
  unfolding hash_row leaf_of build_merkle_tree_from_matrix
  row_opened query r v =
      let leaves : List Digest = map (hash_row hash) matrix in
      let many : length leaves ≡ length matrix = length-map (hash_row hash) matrix in
      let i : ℕ = row_index query in
      let low : i < 2 ^ length query.trace_merkle_path =
        mod-lt query.index (one-le-pow (length query.trace_merkle_path) 2 (omega arith)) in
      let at : leaf_index query.index (length query.trace_merkle_path) ≡ i =
        leaf_index-mod query.index (length query.trace_merkle_path) r.short in
      elim (verify_merkle_proof-committed hash fixed leaves query.trace_merkle_path i
        (leaf_of hash query.trace_evals) (omega (arith, many, r.inside)) r.height
        (omega (arith, r.height, low)) (Is32-rows matrix) r.digests (fixed _)
        (subst
          (λ t.
            verify_merkle_proof hash (build_merkle_tree_from_matrix hash matrix).0
              (leaf_of hash query.trace_evals) query.trace_merkle_path t
            ≡ true)
          at v)) [
            | inl same ↦
                same_or_HashCollision hash fixed (row_bytes query.trace_evals)
                  (row_bytes (get_or matrix i []))
                  (same
                    ∙ get_or-pad leaves i (omega (arith, many, r.inside))
                    ∙ get_or-map (hash_row hash) matrix i r.inside)
            | inr found ↦ inr found
          ]

  rows_opened :
      (root : Digest) (queries : List FriQueryOpening)
      → root ≡ (build_merkle_tree_from_matrix hash matrix).0
      → All Reaches queries
      → All (Opens hash root) queries
      → All OpensRow queries ⊎ HashCollision hash
  rows_opened root [] e r o = inl tt
  rows_opened root (query ∷ queries) e (r, rs) (o, os) =
      elim (row_opened query r (subst (λ t. Opens hash t query) e o)) [
        | inr found ↦ inr found
        | inl first ↦ elim (rows_opened root queries e rs os) [
          | inl others ↦ inl (first, others)
          | inr found ↦ inr found
        ]
      ]

  -- When the root of an accepted proof is the one that was built from a trace, and every path has the
  -- height of that tree and leads to a row of it, then every query opens the bytes of the row of the
  -- trace at its index, or two texts with one digest are at hand; every digest has 32 bytes. The verifier
  -- itself does not compare the length of a path with anything.
  pub verify_parsed-opens_rows :
      (proof : StarkProof) (public_key message : List ℕ)
      → proof.trace_root ≡ (build_merkle_tree_from_matrix hash matrix).0
      → All Reaches proof.fri_proof.queries
      → verify_parsed hash proof public_key message ≡ ok true
      → All OpensRow proof.fri_proof.queries ⊎ HashCollision hash
  verify_parsed-opens_rows proof public_key message e r h =
      rows_opened proof.trace_root proof.fri_proof.queries e r
        (verify_parsed-openings hash proof public_key message h)
