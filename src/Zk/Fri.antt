-- ===== src/Zk/Fri.antt =====
-- The folding of solomon-zk/src/fri.rs: the commitments to the layers, down to the constant.
pub mod Folding
use project_solomon.Prelude.{
  ℕ, zero, suc, ◌+◌, ◌/◌, List, [], ◌∷◌, ◌++◌, Option, none, some, length, get_elem?, map,
}
use project_solomon.Prelude.{ltb, if◌then◌else◌, Result, ok, err, ◌>>=◌}
use project_solomon.Prelude.Bytes.{le_bytes}
use project_solomon.Zk.Field.{add, sub, mul, exp, invert, from_u64}
use project_solomon.Zk.Merkle.{Digest, build_merkle_tree_from_leaves}
use project_solomon.Zk.Verifier.{Fault, get_root_of_unity, sample_ext}

-- The value, or the panic on none.
unfoldable pub expect {ℓ} : {A : Type ℓ} → Option A → Result Fault A
expect none = err Fault.panicked
expect (some a) = ok a

-- The body of the loop over the points: the even part plus beta times the odd part. An index out of
-- bounds panics.
unfoldable pub fold_point : ℕ → ℕ → ℕ → List ℕ → ℕ → ℕ → Result Fault ℕ
unfolding expect add sub mul exp invert
fold_point inv2 beta omega evals next_len i = expect (get_elem? evals i) >>= λ f_x.
    expect (get_elem? evals (i + next_len)) >>= λ f_neg_x.
    expect (invert (exp omega i)) >>= λ x_inverse.
    let half_sum : ℕ = mul (add f_x f_neg_x) inv2 in
    ok (add half_sum (mul beta (mul (mul (sub f_x f_neg_x) inv2) x_inverse)))

-- The loop over the points, for the `n` points from the `i`-th on.
unfoldable pub fold_points : ℕ → ℕ → ℕ → List ℕ → ℕ → ℕ → ℕ → Result Fault (List ℕ)
unfolding fold_point
fold_points inv2 beta omega evals next_len zero i = ok []
fold_points inv2 beta omega evals next_len (suc n) i =
    fold_point inv2 beta omega evals next_len i >>= λ folded.
    fold_points inv2 beta omega evals next_len n (i + 1) >>= λ rest. ok (folded ∷ rest)

module _ (hash : List ℕ → Digest) where
  unfoldable pub merkleize_evals : List ℕ → Digest × List (List Digest)
  unfolding build_merkle_tree_from_leaves
  merkleize_evals evals = build_merkle_tree_from_leaves hash (map (λ e. hash (le_bytes 8 e)) evals)

  -- The folding loop, for at most `fuel` rounds: the last evaluations, the root and the tree of each
  -- layer, and the state of the challenger.
  unfoldable pub fold_layers :
      ℕ → ℕ → List ℕ → List ℕ → Result Fault (List ℕ × List (Digest × List (List Digest)) × List ℕ)
  unfolding sample_ext get_root_of_unity fold_points merkleize_evals
  fold_layers inv2 zero current_evals state = ok (current_evals, [], state)
  fold_layers inv2 (suc fuel) current_evals state =
      let (beta, sampled) = sample_ext hash state in
      let next_len : ℕ = length current_evals / 2 in
      if ltb 1 (length current_evals)
      then (get_root_of_unity (length current_evals) >>= λ omega.
          fold_points inv2 beta omega current_evals next_len next_len 0 >>= λ next_evals.
          fold_layers inv2 fuel next_evals (sampled ++ (merkleize_evals next_evals).0)
          >>= λ (last, layers, after). ok (last, merkleize_evals next_evals ∷ layers, after))
      else ok (current_evals, [], state)

  -- `generate_proof` up to the final constant. Each round halves the layer, so that there are fewer
  -- rounds than evaluations.
  unfoldable pub fold_to_constant :
      List ℕ → List ℕ → Result Fault (List ℕ × List (Digest × List (List Digest)) × List ℕ)
  unfolding expect invert from_u64 merkleize_evals fold_layers
  fold_to_constant evals state = expect (invert (from_u64 2)) >>= λ inv2.
      fold_layers inv2 (length evals) evals (state ++ (merkleize_evals evals).0)
      >>= λ (last, layers, after). ok (last, merkleize_evals evals ∷ layers, after)
