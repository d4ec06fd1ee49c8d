-- ===== src/Zk/Merkle/Complete.antt =====
-- Every proof that solomon-zk/src/merkle.rs generates for a leaf is accepted.
use native.Mathlib.Nat.{pow-suc, one-le-pow}
use project_solomon.Prelude.{
  ℕ, zero, suc, ◌+◌, ◌-◌, ◌*◌, ◌/◌, ◌%◌, ◌^◌, ◌≤◌, ◌<◌, ◌≡◌, refl, sym, ap, ap₂, ◌∙◌, arith,
}
use project_solomon.Prelude.{List, [], ◌∷◌, ◌++◌, some, length, replicate, get_or}
use project_solomon.Prelude.{length-append, length-replicate, Bool-cases, inl, inr}
use project_solomon.Prelude.{ltb, ◌==◌, if◌then◌else◌, true, false}
use project_solomon.Prelude.Residues.{lt-two_pow}
use project_solomon.Prelude.Bytes.{bytes_eq_of_eq}
use project_solomon.Zk.Merkle.{
  Digest, zero_digest, next_pow2, pad, below_last, siblings, generate_merkle_proof,
}
use project_solomon.Zk.Merkle.{
  hash_pairs, grow, build_merkle_tree_from_leaves, climb, verify_merkle_proof,
}

abbrev IsPow2 : ℕ → Type 0
IsPow2 n = (k : ℕ) × (n ≡ 2 ^ k)

-- Doubling as often as there are leaves reaches a power of two that is at least their count.
next_pow2-enough :
    (fuel len next : ℕ)
    → IsPow2 next
    → len ≤ next + fuel
    → 1 ≤ next
    → IsPow2 (next_pow2 fuel len next) × (len ≤ next_pow2 fuel len next)
unfolding next_pow2
next_pow2-enough zero len next p h one = (p, omega arith)
next_pow2-enough (suc fuel) len next (k, e) h one = elim (Bool-cases (ltb next len)) [
  | inl small ↦ rw small (
      next_pow2-enough fuel len (next * 2) (suc k, omega (arith, pow-suc 2 k)) (omega arith)
        (omega arith))
  | inr enough ↦ rw enough ((k, e), ground arith)
]

length-pad : (leaves : List Digest) → IsPow2 (length (pad leaves))
unfolding pad
length-pad leaves =
    let n : ℕ = length leaves in
    let ((k, e), le) = next_pow2-enough n n 1 (0, refl) (omega arith) (omega arith) in
    (
      k,
      omega (
        arith,
        length-append leaves (replicate (next_pow2 n n 1 - n) zero_digest),
        length-replicate (next_pow2 n n 1 - n) zero_digest,
      ),
    )

get_or-append :
    (xs ys : List Digest) (i : ℕ) → i < length xs → get_or (xs ++ ys) i [] ≡ get_or xs i []
get_or-append [] ys i h = absurd (omega arith)
get_or-append (x ∷ xs) ys zero h = refl
get_or-append (x ∷ xs) ys (suc i) h = get_or-append xs ys i (omega arith)

pub get_or-pad :
    (leaves : List Digest) (i : ℕ)
    → i < length leaves
    → get_or (pad leaves) i [] ≡ get_or leaves i []
unfolding pad
get_or-pad leaves i h = get_or-append leaves _ i h

below_pad : (leaves : List Digest) (i : ℕ) → i < length leaves → i < length (pad leaves)
unfolding pad
below_pad leaves i h = omega (
  arith,
  length-append leaves
      (replicate (next_pow2 (length leaves) (length leaves) 1 - length leaves) zero_digest),
)

module _ (hash : List ℕ → Digest) where
  pub length-hash_pairs :
      (n : ℕ) (xs : List Digest) → length xs ≡ n + n → length (hash_pairs hash xs) ≡ n
  unfolding hash_pairs
  length-hash_pairs zero [] h = refl
  length-hash_pairs zero (x ∷ xs) h = absurd (omega arith)
  length-hash_pairs (suc n) [] h = absurd (omega arith)
  length-hash_pairs (suc n) (x ∷ []) h = absurd (omega arith)
  length-hash_pairs (suc n) (x ∷ y ∷ xs) h = ap suc (length-hash_pairs n xs (omega arith))

  -- The parent of two neighbours.
  pub get_or-hash_pairs :
      (i n : ℕ) (xs : List Digest)
      → length xs ≡ n + n
      → i < n
      → get_or (hash_pairs hash xs) i [] ≡ hash (get_or xs (i + i) [] ++ get_or xs (i + i + 1) [])
  unfolding hash_pairs
  get_or-hash_pairs i zero xs h lt = absurd (omega arith)
  get_or-hash_pairs i (suc n) [] h lt = absurd (omega arith)
  get_or-hash_pairs i (suc n) (x ∷ []) h lt = absurd (omega arith)
  get_or-hash_pairs zero (suc n) (x ∷ y ∷ xs) h lt = refl
  get_or-hash_pairs (suc i) (suc n) (x ∷ y ∷ xs) h lt =
      let e : suc (suc (i + i)) ≡ suc i + suc i = omega arith in
      let e' : suc (suc (i + i + 1)) ≡ suc i + suc i + 1 = omega arith in
      get_or-hash_pairs i n xs (omega arith) (omega arith)
      ∙ ap₂ (λ s t. hash (get_or (x ∷ y ∷ xs) s [] ++ get_or (x ∷ y ∷ xs) t [])) e e'

  -- The layers above a layer are there.
  below_last-grow :
      (fuel : ℕ) (layer current : List Digest)
      → below_last (layer ∷ (grow hash fuel current).1)
        ≡ layer ∷ below_last (grow hash fuel current).1
  unfolding below_last grow
  below_last-grow zero layer current = refl
  below_last-grow (suc fuel) layer current = elim (Bool-cases (ltb 1 (length current))) [
    | inl e ↦ rw e refl
    | inr e ↦ rw e refl
  ]

  pub grow-one :
      (fuel : ℕ) (cur : List Digest)
      → length cur ≡ 1
      → grow hash fuel cur ≡ (get_or cur 0 [], cur ∷ [])
  unfolding grow
  grow-one zero cur h = refl
  grow-one (suc fuel) cur h = let e : ltb 1 (length cur) ≡ false = ground arith in rw e refl

  pub grow-more :
      (fuel : ℕ) (cur : List Digest)
      → 1 < length cur
      → grow hash (suc fuel) cur
        ≡ ((grow hash fuel (hash_pairs hash cur)).0, cur ∷ (grow hash fuel (hash_pairs hash cur)).1)
  unfolding grow
  grow-more fuel cur h = let e : ltb 1 (length cur) ≡ true = ground arith in rw e refl

  siblings_at :
      (cur : List Digest) (layers : List (List Digest)) (i sibling : ℕ)
      → (if i % 2 == 0 then i + 1 else i - 1) ≡ sibling
      → ltb sibling (length cur) ≡ true
      → siblings (cur ∷ layers) i ≡ get_or cur sibling [] ∷ siblings layers (i / 2)
  unfolding siblings
  siblings_at cur layers i sibling e there = rw (e, there) refl

  climb_left :
      (c s : Digest) (proof : List Digest) (i : ℕ)
      → (i % 2 == 0) ≡ true
      → climb hash c (s ∷ proof) i ≡ climb hash (hash (c ++ s)) proof (i / 2)
  unfolding climb
  climb_left c s proof i e = rw e refl

  climb_right :
      (c s : Digest) (proof : List Digest) (i : ℕ)
      → (i % 2 == 0) ≡ false
      → climb hash c (s ∷ proof) i ≡ climb hash (hash (s ++ c)) proof (i / 2)
  unfolding climb
  climb_right c s proof i e = rw e refl

  -- One step of the climb reaches the parent.
  climb-step :
      (n i : ℕ) (cur : List Digest) (layers : List (List Digest))
      → length cur ≡ n + n
      → i < n + n
      → climb hash (get_or cur i []) (siblings (cur ∷ layers) i) i
        ≡ climb hash (get_or (hash_pairs hash cur) (i / 2) []) (siblings layers (i / 2)) (i / 2)
  climb-step n i cur layers l h = elim (Bool-cases (i % 2 == 0)) [
    | inl e ↦
        let there : ltb (i + 1) (length cur) ≡ true = ground arith in
        let left : i / 2 + i / 2 ≡ i = ground arith in
        ap (λ t. climb hash (get_or cur i []) t i)
          (siblings_at cur layers i (i + 1) (rw e refl) there)
        ∙ climb_left (get_or cur i []) (get_or cur (i + 1) []) (siblings layers (i / 2)) i e
        ∙ (ap (λ t. climb hash t (siblings layers (i / 2)) (i / 2))
            (ap (λ t. hash (get_or cur t [] ++ get_or cur (t + 1) [])) (sym left)
              ∙ sym (get_or-hash_pairs (i / 2) n cur l (omega arith))))
    | inr e ↦
        let there : ltb (i - 1) (length cur) ≡ true = ground arith in
        let left : i - 1 ≡ i / 2 + i / 2 = ground arith in
        let right : i ≡ i / 2 + i / 2 + 1 = ground arith in
        ap (λ t. climb hash (get_or cur i []) t i)
          (siblings_at cur layers i (i - 1) (rw e refl) there)
        ∙ climb_right (get_or cur i []) (get_or cur (i - 1) []) (siblings layers (i / 2)) i e
        ∙ (ap (λ t. climb hash t (siblings layers (i / 2)) (i / 2))
            (ap₂ (λ s t. hash (get_or cur s [] ++ get_or cur t [])) left right
              ∙ sym (get_or-hash_pairs (i / 2) n cur l (omega arith))))
  ]

  climb-grow :
      (k fuel i : ℕ) (cur : List Digest)
      → length cur ≡ 2 ^ k
      → k ≤ fuel
      → i < length cur
      → climb hash (get_or cur i []) (siblings (below_last (grow hash fuel cur).1) i) i
        ≡ (grow hash fuel cur).0
  unfolding below_last climb siblings
  climb-grow zero fuel i cur l f h = let z : i ≡ 0 = omega arith in rw (z, grow-one fuel cur l) refl
  climb-grow (suc k) zero i cur l f h = absurd (omega arith)
  climb-grow (suc k) (suc fuel) i cur l f h =
      let n : ℕ = 2 ^ k in
      let twice : length cur ≡ n + n = omega (arith, pow-suc 2 k) in
      let nx : List Digest = hash_pairs hash cur in
      rw (grow-more fuel cur (omega (arith, one-le-pow k 2)), below_last-grow fuel cur nx)
        (climb-step n i cur (below_last (grow hash fuel nx).1) twice (omega arith)
          ∙ climb-grow k fuel (i / 2) nx (length-hash_pairs n cur twice) (omega arith)
              (omega (arith, length-hash_pairs n cur twice)))

  generate-grow :
      (fuel i : ℕ) (cur : List Digest)
      → generate_merkle_proof (grow hash fuel cur).1 i
        ≡ some (siblings (below_last (grow hash fuel cur).1) i)
  unfolding generate_merkle_proof grow
  generate-grow zero i cur = refl
  generate-grow (suc fuel) i cur = elim (Bool-cases (ltb 1 (length cur))) [
    | inl e ↦ rw e refl
    | inr e ↦ rw e refl
  ]

  pub build-pad :
      (leaf : Digest) (leaves : List Digest)
      → build_merkle_tree_from_leaves hash (leaf ∷ leaves)
        ≡ grow hash (length (pad (leaf ∷ leaves))) (pad (leaf ∷ leaves))
  unfolding build_merkle_tree_from_leaves
  build-pad leaf leaves = refl

  accepted :
      (root leaf : Digest) (proof : List Digest) (i : ℕ)
      → climb hash leaf proof i ≡ root
      → verify_merkle_proof hash root leaf proof i ≡ true
  unfolding verify_merkle_proof
  accepted root leaf proof i e = bytes_eq_of_eq (climb hash leaf proof i) root e

  -- For every leaf of a tree of leaf digests, `generate_merkle_proof` on the layers that were built gives
  -- a proof, and `verify_merkle_proof` accepts it for that leaf, its index and the root.
  pub verify-generate_merkle_proof :
      (leaves : List Digest) (index : ℕ)
      → index < length leaves
      → (proof : List Digest) × (generate_merkle_proof
            (build_merkle_tree_from_leaves hash leaves).1
            index
          ≡ some proof)
        × (verify_merkle_proof hash
              (build_merkle_tree_from_leaves hash leaves).0
              (get_or leaves index [])
              proof
              index
            ≡ true)
  verify-generate_merkle_proof [] index h = absurd (omega arith)
  verify-generate_merkle_proof (leaf ∷ leaves) index h =
      let padded : List Digest = pad (leaf ∷ leaves) in
      let fuel : ℕ = length padded in
      let (k, pow) = length-pad (leaf ∷ leaves) in
      let at : get_or padded index [] ≡ get_or (leaf ∷ leaves) index [] =
        get_or-pad (leaf ∷ leaves) index h in
      rw (build-pad leaf leaves, sym at)
        (
          siblings (below_last (grow hash fuel padded).1) index,
          generate-grow fuel index padded,
          accepted _ _ _ index (
              climb-grow k fuel index padded pow (omega (arith, lt-two_pow k))
                (below_pad (leaf ∷ leaves) index h)),
        )
