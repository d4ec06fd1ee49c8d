-- ===== src/Crypto/Packing/Keys/Vectors.antt =====
-- Vectors of packed polynomials one after the other, in solomon-core/src/crypto/packing.rs.
use project_solomon.Prelude.{
  ℕ, zero, suc, ◌+◌, ◌*◌, ◌≤◌, List, [], ◌∷◌, ◌++◌, map, take, drop, length, All,
}
use project_solomon.Prelude.{
  ◌≡◌, refl, sym, ap, ap₂, ◌∙◌, arith, append_assoc, length-append, length-take, length-drop,
  take-append, drop-append, take-append-drop,
}
use project_solomon.Prelude.Bytes.{concat}
use project_solomon.Prelude.Radix.{Fits, All-take, All-drop}
use project_solomon.Crypto.Packing.Keys.{unpack_vector}

-- `k` polynomials of 256 coefficients, each with a property.
abbrev pub IsVector : ℕ → (ℕ → Type 0) → List (List ℕ) → Type 0
IsVector k P ps = (length ps ≡ k) × All (λ p. (length p ≡ 256) × All P p) ps

-- A buffer of `n` bytes.
abbrev pub IsBuffer : ℕ → List ℕ → Type 0
IsBuffer n buf = (length buf ≡ n) × All (Fits 8) buf

pub drop_past : (m n : ℕ) (xs ys : List ℕ) → length xs ≡ m → drop (m + n) (xs ++ ys) ≡ drop n ys
drop_past zero n [] ys h = ap (λ (t : ℕ). drop t ys) (omega arith)
drop_past zero n (x ∷ xs) ys h = absurd (omega arith)
drop_past (suc m) n [] ys h = absurd (omega arith)
drop_past (suc m) n (x ∷ xs) ys h =
    let shifted : suc m + n ≡ suc (m + n) = omega arith in
    ap (λ (t : ℕ). drop t (x ∷ xs ++ ys)) shifted ∙ drop_past m n xs ys (omega arith)

drop_nil : (n : ℕ) → drop {A = ℕ} n [] ≡ []
drop_nil zero = refl
drop_nil (suc n) = refl

pub drop-drop : (m n : ℕ) (xs : List ℕ) → drop n (drop m xs) ≡ drop (m + n) xs
drop-drop zero n xs = ap (λ (t : ℕ). drop t xs) (omega arith)
drop-drop (suc m) n [] = drop_nil n ∙ sym (drop_nil (suc m + n))
drop-drop (suc m) n (x ∷ xs) =
    let shifted : suc (m + n) ≡ suc m + n = omega arith in
    drop-drop m n xs ∙ ap (λ (t : ℕ). drop t (x ∷ xs)) shifted

pub drop_all : (n : ℕ) (xs : List ℕ) → length xs ≤ n → drop n xs ≡ []
drop_all zero [] h = refl
drop_all zero (x ∷ xs) h = absurd (omega arith)
drop_all (suc n) [] h = refl
drop_all (suc n) (x ∷ xs) h = drop_all n xs (omega arith)

module _ (n : ℕ) (pack unpack : List ℕ → List ℕ) (P : ℕ → Type 0)
    (length_lem : (p : List ℕ) → length p ≡ 256 → length (pack p) ≡ n) where
  pub length-pack_vector :
      (k : ℕ) (ps : List (List ℕ)) → IsVector k P ps → length (concat (map pack ps)) ≡ k * n
  unfolding concat
  length-pack_vector k [] (e, h) = grind arith
  length-pack_vector zero (p ∷ ps) (e, h) = absurd (omega arith)
  length-pack_vector (suc k) (p ∷ ps) (e, ((l, h), hs)) = grind (
    arith,
    length-append (pack p) (concat (map pack ps)),
    length_lem p l,
    length-pack_vector k ps (omega arith, hs),
  )

  pub unpack_vector-pack :
      (back : (p : List ℕ) → length p ≡ 256 → All P p → unpack (pack p) ≡ p) (k : ℕ)
      (ps : List (List ℕ)) (rest : List ℕ)
      → IsVector k P ps
      → unpack_vector k n unpack (concat (map pack ps) ++ rest) ≡ ps
  unfolding concat unpack_vector
  unpack_vector-pack back zero [] rest (e, h) = refl
  unpack_vector-pack back zero (p ∷ ps) rest (e, h) = absurd (omega arith)
  unpack_vector-pack back (suc k) [] rest (e, h) = absurd (omega arith)
  unpack_vector-pack back (suc k) (p ∷ ps) rest (e, ((l, h), hs)) =
      let assoc : (pack p ++ concat (map pack ps)) ++ rest
          ≡ pack p ++ (concat (map pack ps) ++ rest) =
        append_assoc (pack p) _ rest in
      rw
        (
          assoc,
          take-append n (pack p) (concat (map pack ps) ++ rest) (length_lem p l),
          drop-append n (pack p) (concat (map pack ps) ++ rest) (length_lem p l),
        )
        (ap₂ ◌∷◌ (back p l h) (unpack_vector-pack back k ps rest (omega arith, hs)))

module _ (n : ℕ) (pack unpack : List ℕ → List ℕ)
    (forth : (buf : List ℕ) → length buf ≡ n → All (Fits 8) buf → pack (unpack buf) ≡ buf) where
  pub pack-unpack_vector :
      (k : ℕ) (buf : List ℕ)
      → k * n ≤ length buf
      → All (Fits 8) buf
      → concat (map pack (unpack_vector k n unpack buf)) ++ drop (k * n) buf ≡ buf
  unfolding concat unpack_vector
  pack-unpack_vector zero buf h hs =
      let none_left : 0 * n ≡ 0 = omega arith in ap (λ (t : ℕ). drop t buf) none_left
  pack-unpack_vector (suc k) buf h hs =
      let first : length (take n buf) ≡ n = length-take n buf ∙ grind arith in
      let rest : k * n ≤ length (drop n buf) = grind (arith, length-drop n buf) in
      let count : suc k * n ≡ n + k * n = grind arith in
      rw (forth (take n buf) first (All-take (Fits 8) n buf hs)) (
        append_assoc (take n buf) _ _
        ∙ ap (λ ys. take n buf ++ ys)
            (ap (λ ys. concat (map pack (unpack_vector k n unpack (drop n buf))) ++ ys)
                (ap (λ (t : ℕ). drop t buf) count ∙ sym (drop-drop n (k * n) buf))
              ∙ pack-unpack_vector k (drop n buf) rest (All-drop (Fits 8) n buf hs))
        ∙ take-append-drop n buf)
