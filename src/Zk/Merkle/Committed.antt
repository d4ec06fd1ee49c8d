-- ===== src/Zk/Merkle/Committed.antt =====
-- Which leaf a root that solomon-zk/src/merkle.rs built admits at an index.
use native.Mathlib.Nat.{pow-suc, one-le-pow}
use project_solomon.Prelude.{
  ℕ, zero, suc, ◌+◌, ◌/◌, ◌%◌, ◌^◌, ◌≤◌, ◌<◌, ◌==◌, ◌≡◌, refl, sym, ap, ◌∙◌, arith,
}
use project_solomon.Prelude.{
  List, [], ◌∷◌, ◌++◌, length, replicate, All, All-append, get_or, Bool-cases, ◌⊎◌, inl, inr,
  if◌then◌else◌, true,
}
use project_solomon.Prelude.Residues.{lt-two_pow}
use project_solomon.Prelude.Bytes.{eq_of_bytes_eq}
use project_solomon.Zk.Merkle.{
  Digest, zero_digest, pad, hash_pairs, grow, build_merkle_tree_from_leaves, climb,
  verify_merkle_proof,
}
use project_solomon.Zk.Merkle.Binding.{
  Is32, HashCollision, same_or_HashCollision, left_half, right_half,
}
use project_solomon.Zk.Merkle.Complete.{
  length-hash_pairs, get_or-hash_pairs, grow-one, grow-more, build-pad,
}

Is32-get_or : (xs : List Digest) (i : ℕ) → i < length xs → All Is32 xs → Is32 (get_or xs i [])
Is32-get_or [] i h a = absurd (omega arith)
Is32-get_or (x ∷ xs) zero h (a, rest) = a
Is32-get_or (x ∷ xs) (suc i) h (a, rest) = Is32-get_or xs i (omega arith) rest

Is32-zeros : (n : ℕ) → All Is32 (replicate n zero_digest)
Is32-zeros zero = tt
Is32-zeros (suc n) = (refl, Is32-zeros n)

Is32-pad : (leaves : List Digest) → All Is32 leaves → All Is32 (pad leaves)
unfolding pad
Is32-pad leaves h = All-append Is32 leaves _ h (Is32-zeros _)

module _ (hash : List ℕ → Digest) (fixed : (text : List ℕ) → length (hash text) ≡ 32) where
  Is32-hash_pairs : (xs : List Digest) → All Is32 (hash_pairs hash xs)
  unfolding hash_pairs
  Is32-hash_pairs [] = tt
  Is32-hash_pairs (a ∷ []) = (fixed _, tt)
  Is32-hash_pairs (a ∷ b ∷ rest) = (fixed _, Is32-hash_pairs rest)

  -- A leaf and its sibling with the hash of two neighbours.
  neighbour :
      (cur : List Digest) (n i : ℕ) (leaf s : Digest)
      → length cur ≡ n + n
      → i < n + n
      → All Is32 cur
      → Is32 leaf
      → Is32 s
      → (if i % 2 == 0 then hash (leaf ++ s) else hash (s ++ leaf))
        ≡ get_or (hash_pairs hash cur) (i / 2) []
      → (leaf ≡ get_or cur i []) ⊎ HashCollision hash
  neighbour cur n i leaf s l h a hl hs e =
      let j : ℕ = i / 2 in
      let both : get_or (hash_pairs hash cur) j []
          ≡ hash (get_or cur (j + j) [] ++ get_or cur (j + j + 1) []) =
        get_or-hash_pairs hash j n cur l (omega arith) in
      let left : Is32 (get_or cur (j + j) []) = Is32-get_or cur (j + j) (omega arith) a in
      elim (Bool-cases (i % 2 == 0)) [
        | inl even ↦
            let at : j + j ≡ i = ground arith in
            elim (same_or_HashCollision hash fixed _ _ (rw even at (e ∙ both))) [
              | inl same ↦
                  inl (left_half hash fixed _ _ _ _ hl left same ∙ ap (λ t. get_or cur t []) at)
              | inr found ↦ inr found
            ]
        | inr odd ↦
            let at : j + j + 1 ≡ i = ground arith in
            elim (same_or_HashCollision hash fixed _ _ (rw odd at (e ∙ both))) [
              | inl same ↦
                  inl (right_half hash fixed _ _ _ _ hs left same ∙ ap (λ t. get_or cur t []) at)
              | inr found ↦ inr found
            ]
      ]

  climb-committed :
      (path cur : List Digest) (fuel i : ℕ) (leaf : Digest)
      → length cur ≡ 2 ^ length path
      → length path ≤ fuel
      → i < length cur
      → All Is32 cur
      → All Is32 path
      → Is32 leaf
      → climb hash leaf path i ≡ (grow hash fuel cur).0
      → (leaf ≡ get_or cur i []) ⊎ HashCollision hash
  unfolding climb
  climb-committed [] cur fuel i leaf l f h a p hl e =
      let first : i ≡ 0 = omega arith in
      inl (e ∙ ap (λ t. t.0) (grow-one hash fuel cur l) ∙ ap (λ t. get_or cur t []) (sym first))
  climb-committed (s ∷ path) cur zero i leaf l f h a p hl e = absurd (omega arith)
  climb-committed (s ∷ path) cur (suc fuel) i leaf l f h a (hs, p) hl e =
      let n : ℕ = 2 ^ length path in
      let twice : length cur ≡ n + n = omega (arith, l, pow-suc 2 (length path)) in
      let half : length (hash_pairs hash cur) ≡ n = length-hash_pairs hash n cur twice in
      let up : Digest = if i % 2 == 0 then hash (leaf ++ s) else hash (s ++ leaf) in
      let up32 : Is32 up = elim (Bool-cases (i % 2 == 0)) [
        | inl even ↦ rw even (fixed (leaf ++ s))
        | inr odd ↦ rw odd (fixed (s ++ leaf))
      ] in
      elim (climb-committed path (hash_pairs hash cur) fuel (i / 2) up half (omega arith)
        (omega (arith, half)) (Is32-hash_pairs cur) p up32
        (e ∙ ap (λ t. t.0) (grow-more hash fuel cur (omega (arith, one-le-pow (length path) 2))))) [
          | inl same ↦ neighbour cur n i leaf s twice (omega arith) a hl hs same
          | inr found ↦ inr found
        ]

  -- A leaf that is accepted at an index by a path of the height of the tree is the leaf that the tree was
  -- built from, a zero digest behind the leaves, or two texts with one digest are at hand.
  pub verify_merkle_proof-committed :
      (leaves path : List Digest) (i : ℕ) (leaf : Digest)
      → 0 < length leaves
      → length (pad leaves) ≡ 2 ^ length path
      → i < length (pad leaves)
      → All Is32 leaves
      → All Is32 path
      → Is32 leaf
      → verify_merkle_proof hash (build_merkle_tree_from_leaves hash leaves).0 leaf path i ≡ true
      → (leaf ≡ get_or (pad leaves) i []) ⊎ HashCollision hash
  unfolding verify_merkle_proof
  verify_merkle_proof-committed [] path i leaf o l h a p hl v = absurd (omega arith)
  verify_merkle_proof-committed (x ∷ leaves) path i leaf o l h a p hl v =
      climb-committed path (pad (x ∷ leaves)) (length (pad (x ∷ leaves))) i leaf l
        (omega (arith, l, lt-two_pow (length path))) h (Is32-pad (x ∷ leaves) a) p hl
        (eq_of_bytes_eq (climb hash leaf path i) (build_merkle_tree_from_leaves hash (x ∷ leaves)).0
            v
          ∙ ap (λ t. t.0) (build-pad hash x leaves))
