-- ===== src/Zk/Merkle.antt =====
-- The Merkle tree of solomon-zk/src/merkle.rs. `hash` is Keccak256 of the bytes that are fed to it, a
-- parameter. A digest is its list of bytes.
pub mod Complete
pub mod Binding
pub mod Committed
use project_solomon.Prelude.{ℕ, zero, suc, ◌+◌, ◌-◌, ◌*◌, ◌/◌, ◌%◌, Bool, true, false}
use project_solomon.Prelude.{
  List, [], ◌∷◌, ◌++◌, Option, none, some, length, replicate, get_or, map,
}
use project_solomon.Prelude.{ltb, leb, ◌==◌, if◌then◌else◌}
use project_solomon.Prelude.Bytes.{bytes_eq, concat, le_bytes}

abbrev pub Digest : Type 0
Digest = List ℕ

abbrev pub zero_digest : Digest
zero_digest = replicate 32 0

-- `while next_pow2 < leaves.len() { next_pow2 *= 2; }`, for at most `fuel` rounds.
unfoldable pub next_pow2 : ℕ → ℕ → ℕ → ℕ
next_pow2 zero len next = next
next_pow2 (suc fuel) len next =
    let go_on = next_pow2 fuel len (next * 2) in if ltb next len then go_on else next

-- The leaves, and zero digests up to the next power of two. The fuel is the count of leaves.
unfoldable pub pad : List Digest → List Digest
unfolding next_pow2
pad leaves =
    leaves ++ replicate (next_pow2 (length leaves) (length leaves) 1 - length leaves) zero_digest

-- Every layer but the last.
unfoldable pub below_last : List (List Digest) → List (List Digest)
below_last [] = []
below_last (layer ∷ []) = []
below_last (layer ∷ next ∷ rest) = layer ∷ below_last (next ∷ rest)

-- The siblings on the way up.
unfoldable pub siblings : List (List Digest) → ℕ → List Digest
siblings [] idx = []
siblings (layer ∷ layers) idx =
    let sibling_idx = if idx % 2 == 0 then idx + 1 else idx - 1 in
    let rest = siblings layers (idx / 2) in
    if ltb sibling_idx (length layer) then get_or layer sibling_idx [] ∷ rest else rest

-- `none` is the panic on no layers.
unfoldable pub generate_merkle_proof : List (List Digest) → ℕ → Option (List Digest)
unfolding below_last siblings
generate_merkle_proof [] index = none
generate_merkle_proof (layer ∷ layers) index = some (siblings (below_last (layer ∷ layers)) index)

module _ (hash : List ℕ → Digest) where
  -- One layer from the one below it.
  unfoldable pub hash_pairs : List Digest → List Digest
  hash_pairs [] = []
  hash_pairs (a ∷ []) = hash (a ++ zero_digest) ∷ []
  hash_pairs (a ∷ b ∷ rest) = hash (a ++ b) ∷ hash_pairs rest

  -- `while current.len() > 1 { .. }`: the root and the layers, for at most `fuel` rounds. A round
  -- halves the layer, so that its length is enough fuel.
  unfoldable pub grow : ℕ → List Digest → Digest × List (List Digest)
  unfolding hash_pairs
  grow zero current = (get_or current 0 [], current ∷ [])
  grow (suc fuel) current =
      let (root, above) = grow fuel (hash_pairs current) in
      if ltb 1 (length current)
      then (root, current ∷ above)
      else (get_or current 0 [], current ∷ [])

  unfoldable pub build_merkle_tree_from_leaves : List Digest → Digest × List (List Digest)
  unfolding pad grow
  build_merkle_tree_from_leaves [] = (zero_digest, [])
  build_merkle_tree_from_leaves (leaf ∷ leaves) =
      let padded = pad (leaf ∷ leaves) in grow (length padded) padded

  unfoldable pub hash_row : List ℕ → Digest
  hash_row row = hash (concat (map (le_bytes 8) row))

  unfoldable pub build_merkle_tree_from_matrix : List (List ℕ) → Digest × List (List Digest)
  unfolding hash_row build_merkle_tree_from_leaves
  build_merkle_tree_from_matrix matrix = build_merkle_tree_from_leaves (map hash_row matrix)

  unfoldable pub compute_trace_merkle_root : List (List ℕ) → Digest
  unfolding build_merkle_tree_from_matrix
  compute_trace_merkle_root matrix = (build_merkle_tree_from_matrix matrix).0

  unfoldable pub climb : Digest → List Digest → ℕ → Digest
  climb current [] idx = current
  climb current (sibling ∷ proof) idx =
      let parent = if idx % 2 == 0 then hash (current ++ sibling) else hash (sibling ++ current) in
      climb parent proof (idx / 2)

  unfoldable pub verify_merkle_proof : Digest → Digest → List Digest → ℕ → Bool
  unfolding climb
  verify_merkle_proof root leaf proof index = bytes_eq (climb leaf proof index) root
