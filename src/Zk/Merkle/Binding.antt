-- ===== src/Zk/Merkle/Binding.antt =====
-- A root of solomon-zk/src/merkle.rs binds its leaves.
use project_solomon.Prelude.{ℕ, ◌/◌, ◌%◌, ◌==◌, ◌≡◌, ◌≢◌, ◌⊎◌, inl, inr, sym, ap, ◌∙◌, arith}
use project_solomon.Prelude.{
  List, [], ◌∷◌, ◌++◌, length, take, drop, All, take-append, drop-append, Bool-cases, true,
}
use project_solomon.Prelude.{if◌then◌else◌}
use project_solomon.Prelude.Bytes.{eq_of_bytes_eq, bytes_discrete}
use project_solomon.Zk.Merkle.{Digest, climb, verify_merkle_proof}

-- A digest of the size of Keccak256.
abbrev pub Is32 : Digest → Type 0
Is32 d = length d ≡ 32

-- Two texts with one digest.
abbrev pub HashCollision : (List ℕ → Digest) → Type 0
HashCollision hash = (x : List ℕ) × (y : List ℕ) × (x ≢ y) × (hash x ≡ hash y)

module _ (hash : List ℕ → Digest) (fixed : (text : List ℕ) → length (hash text) ≡ 32) where
  pub same_or_HashCollision : (x y : List ℕ) → hash x ≡ hash y → (x ≡ y) ⊎ HashCollision hash
  same_or_HashCollision x y e = elim (bytes_discrete x y) [
    | yes same ↦ inl same
    | no differ ↦ inr (x, y, differ, e)
  ]

  -- The parent of a digest and its sibling, on the side that the index tells.
  abbrev parent : ℕ → Digest → Digest → Digest
  parent i c s = if i % 2 == 0 then hash (c ++ s) else hash (s ++ c)

  Is32-parent : (i : ℕ) (c s : Digest) → Is32 (parent i c s)
  Is32-parent i c s = elim (Bool-cases (i % 2 == 0)) [
    | inl e ↦ rw e (fixed (c ++ s))
    | inr e ↦ rw e (fixed (s ++ c))
  ]

  pub left_half : (a b c d : Digest) → Is32 a → Is32 c → a ++ b ≡ c ++ d → a ≡ c
  left_half a b c d ha hc e =
      sym (take-append 32 a b ha) ∙ ap (λ t. take 32 t) e ∙ take-append 32 c d hc

  pub right_half : (a b c d : Digest) → Is32 a → Is32 c → a ++ b ≡ c ++ d → b ≡ d
  right_half a b c d ha hc e =
      sym (drop-append 32 a b ha) ∙ ap (λ t. drop 32 t) e ∙ drop-append 32 c d hc

  parent_eq :
      (i : ℕ) (c c' s s' : Digest)
      → Is32 c
      → Is32 c'
      → Is32 s
      → Is32 s'
      → parent i c s ≡ parent i c' s'
      → (c ≡ c') ⊎ HashCollision hash
  parent_eq i c c' s s' hc hc' hs hs' e = elim (Bool-cases (i % 2 == 0)) [
    | inl even ↦ elim (same_or_HashCollision (c ++ s) (c' ++ s') (rw even at e)) [
      | inl same ↦ inl (left_half c s c' s' hc hc' same)
      | inr found ↦ inr found
    ]
    | inr odd ↦ elim (same_or_HashCollision (s ++ c) (s' ++ c') (rw odd at e)) [
      | inl same ↦ inl (right_half s c s' c' hs hs' same)
      | inr found ↦ inr found
    ]
  ]

  climb_eq :
      (p q : List Digest) (c c' : Digest) (i : ℕ)
      → length p ≡ length q
      → All Is32 p
      → All Is32 q
      → Is32 c
      → Is32 c'
      → climb hash c p i ≡ climb hash c' q i
      → (c ≡ c') ⊎ HashCollision hash
  unfolding climb
  climb_eq [] [] c c' i l hp hq hc hc' e = inl e
  climb_eq [] (t ∷ q) c c' i l hp hq hc hc' e = absurd (omega arith)
  climb_eq (s ∷ p) [] c c' i l hp hq hc hc' e = absurd (omega arith)
  climb_eq (s ∷ p) (t ∷ q) c c' i l (hs, hp) (ht, hq) hc hc' e =
      elim (climb_eq p q (parent i c s) (parent i c' t) (i / 2) (omega arith) hp hq
        (Is32-parent i c s) (Is32-parent i c' t) e) [
          | inl same ↦ parent_eq i c c' s t hc hc' hs ht same
          | inr found ↦ inr found
        ]

  -- Two leaves that are accepted at one index under one root, by proofs of the same length, are the same
  -- leaf, or two different texts with one digest are at hand; every digest has 32 bytes.
  pub verify_merkle_proof-binds :
      (root leaf leaf' : Digest) (proof proof' : List Digest) (index : ℕ)
      → length proof ≡ length proof'
      → All Is32 proof
      → All Is32 proof'
      → Is32 leaf
      → Is32 leaf'
      → verify_merkle_proof hash root leaf proof index ≡ true
      → verify_merkle_proof hash root leaf' proof' index ≡ true
      → (leaf ≡ leaf') ⊎ HashCollision hash
  unfolding verify_merkle_proof
  verify_merkle_proof-binds root leaf leaf' proof proof' index l hp hq h h' v v' =
      climb_eq proof proof' leaf leaf' index l hp hq h h' (
        eq_of_bytes_eq (climb hash leaf proof index) root v
        ∙ sym (eq_of_bytes_eq (climb hash leaf' proof' index) root v'))
