-- ===== src/Crypto/Packing/Keys/RoundTrip.antt =====
-- Keys read back as they were packed, and packed keys as they were read, in
-- solomon-core/src/crypto/packing.rs.
use project_solomon.Prelude.{ℕ, ◌+◌, ◌*◌, ◌≤◌, ◌<◌, List, [], ◌++◌, map, take, drop, length, All}
use project_solomon.Prelude.{
  ◌≡◌, sym, ap, ap₂, ◌∙◌, arith, append-nil, length-drop, take-append, drop-append,
  take-append-drop,
}
use project_solomon.Prelude.Bytes.{concat}
use project_solomon.Prelude.Radix.{Fits, All-drop}
use project_solomon.Crypto.Packing.{pack_t1_poly, pack_small_poly, pack_t0_poly}
use project_solomon.Crypto.Packing.{unpack_t1_poly, unpack_small_poly, unpack_t0_poly}
use project_solomon.Crypto.Packing.Signed.{Centered}
use project_solomon.Crypto.Packing.RoundTrip.{
  length-pack_t1_poly, length-pack_small_poly, length-pack_t0_poly, unpack_t1_poly-pack_t1_poly,
  unpack_small_poly-pack_small_poly, unpack_t0_poly-pack_t0_poly, pack_t1_poly-unpack_t1_poly,
  pack_small_poly-unpack_small_poly, pack_t0_poly-unpack_t0_poly,
}
use project_solomon.Crypto.Packing.Keys.{
  unpack_vector, pack_pk, unpack_pk, PrivateKey, pack_sk, unpack_sk,
}
use project_solomon.Crypto.Packing.Keys.Vectors.{
  IsVector, IsBuffer, drop_past, drop-drop, drop_all, length-pack_vector, unpack_vector-pack,
  pack-unpack_vector,
}

-- A seed of 32 bytes and six polynomials with coefficients below 1024 read back from the public key
-- that they pack to.
pub unpack_pk-pack_pk :
    (rho : List ℕ) (t1 : List (List ℕ))
    → length rho ≡ 32
    → IsVector 6 (λ c. c < 1024) t1
    → unpack_pk (pack_pk rho t1) ≡ (rho, t1)
unfolding unpack_pk pack_pk
unpack_pk-pack_pk rho t1 h v =
    let polys : unpack_vector 6 320 unpack_t1_poly (concat (map pack_t1_poly t1)) ≡ t1 =
      ap (unpack_vector 6 320 unpack_t1_poly) (sym (append-nil _))
      ∙ unpack_vector-pack 320 pack_t1_poly unpack_t1_poly (λ c. c < 1024) length-pack_t1_poly
          unpack_t1_poly-pack_t1_poly 6 t1 [] v in
    ap₂ (λ x y. (x, y)) (take-append 32 rho _ h)
      (ap (unpack_vector 6 320 unpack_t1_poly) (drop-append 32 rho _ h) ∙ polys)

-- The vector that ends a buffer.
last_vector :
    (n : ℕ) (pack unpack : List ℕ → List ℕ) (k : ℕ) (buf : List ℕ)
    → ((b : List ℕ) → length b ≡ n → All (Fits 8) b → pack (unpack b) ≡ b)
    → length buf ≡ k * n
    → All (Fits 8) buf
    → concat (map pack (unpack_vector k n unpack buf)) ≡ buf
last_vector n pack unpack k buf forth h hs =
    sym (append-nil _)
    ∙ ap (λ ys. concat (map pack (unpack_vector k n unpack buf)) ++ ys)
        (sym (drop_all (k * n) buf (omega arith)))
    ∙ pack-unpack_vector n pack unpack forth k buf (omega arith) hs

-- Any 1952 bytes are the packing of the public key that they read as.
pub pack_pk-unpack_pk :
    (pk : List ℕ) → IsBuffer 1952 pk → (let (rho, t1) = unpack_pk pk in pack_pk rho t1) ≡ pk
unfolding unpack_pk pack_pk
pack_pk-unpack_pk pk (h, hs) =
    ap (λ ys. take 32 pk ++ ys)
      (last_vector 320 pack_t1_poly unpack_t1_poly 6 (drop 32 pk) pack_t1_poly-unpack_t1_poly
        (length-drop 32 pk ∙ omega arith) (All-drop (Fits 8) 32 pk hs))
    ∙ take-append-drop 32 pk

-- The parts of a private key have their sizes, and their coefficients the ranges of the packing.
pub record IsPrivateKey (key : PrivateKey) : Type 0 where
  pub rho_length : length key.rho ≡ 32
  pub k_length : length key.k ≡ 32
  pub tr_length : length key.tr ≡ 64
  pub s1_small : IsVector 5 (Centered 11 4) key.s1
  pub s2_small : IsVector 6 (Centered 11 4) key.s2
  pub t0_low : IsVector 6 (Centered 4095 4096) key.t0

key_eq :
    (x y : PrivateKey)
    → x.rho ≡ y.rho
    → x.k ≡ y.k
    → x.tr ≡ y.tr
    → x.s1 ≡ y.s1
    → x.s2 ≡ y.s2
    → x.t0 ≡ y.t0
    → x ≡ y
key_eq x y a b c d e f = λ i. record { rho = a i; k = b i; tr = c i; s1 = d i; s2 = e i; t0 = f i }

small_vector :
    (k : ℕ) (ps : List (List ℕ)) (rest : List ℕ)
    → IsVector k (Centered 11 4) ps
    → unpack_vector k 128 unpack_small_poly (concat (map pack_small_poly ps) ++ rest) ≡ ps
small_vector =
    unpack_vector-pack 128 pack_small_poly unpack_small_poly (Centered 11 4) length-pack_small_poly
      unpack_small_poly-pack_small_poly

t0_vector :
    (ps : List (List ℕ))
    → IsVector 6 (Centered 4095 4096) ps
    → unpack_vector 6 416 unpack_t0_poly (concat (map pack_t0_poly ps)) ≡ ps
t0_vector ps v =
    ap (unpack_vector 6 416 unpack_t0_poly) (sym (append-nil _))
    ∙ unpack_vector-pack 416 pack_t0_poly unpack_t0_poly (Centered 4095 4096) length-pack_t0_poly
        unpack_t0_poly-pack_t0_poly 6 ps [] v

length-small_vector :
    (k : ℕ) (ps : List (List ℕ))
    → IsVector k (Centered 11 4) ps
    → length (concat (map pack_small_poly ps)) ≡ k * 128
length-small_vector =
    length-pack_vector 128 pack_small_poly unpack_small_poly (Centered 11 4) length-pack_small_poly

two_seeds : (n : ℕ) → 64 + n ≡ 32 + (32 + n)
two_seeds n = omega arith

seeds_and_trace : (n : ℕ) → 128 + n ≡ 64 + (64 + n)
seeds_and_trace n = omega arith

-- A private key reads back from the bytes that it packs to.
pub unpack_sk-pack_sk : (key : PrivateKey) → IsPrivateKey key → unpack_sk (pack_sk key) ≡ key
unfolding unpack_sk pack_sk
unpack_sk-pack_sk key v =
    let S1 : List ℕ = concat (map pack_small_poly key.s1) in
    let S2 : List ℕ = concat (map pack_small_poly key.s2) in
    let T0 : List ℕ = concat (map pack_t0_poly key.t0) in
    let l1 : length S1 ≡ 640 = length-small_vector 5 key.s1 v.s1_small in
    let l2 : length S2 ≡ 768 = length-small_vector 6 key.s2 v.s2_small in
    let past_k : (n : ℕ) → drop (64 + n) (pack_sk key) ≡ drop n (key.tr ++ (S1 ++ (S2 ++ T0))) =
      λ n.
        ap (λ (t : ℕ). drop t (pack_sk key)) (two_seeds n)
        ∙ drop_past 32 (32 + n) key.rho _ v.rho_length
        ∙ drop_past 32 n key.k _ v.k_length in
    let past_tr : (n : ℕ) → drop (128 + n) (pack_sk key) ≡ drop n (S1 ++ (S2 ++ T0)) = λ n.
      ap (λ (t : ℕ). drop t (pack_sk key)) (seeds_and_trace n)
      ∙ past_k (64 + n)
      ∙ drop_past 64 n key.tr _ v.tr_length in
    key_eq _ key (take-append 32 key.rho _ v.rho_length)
      (ap (take 32) (drop-append 32 key.rho _ v.rho_length) ∙ take-append 32 key.k _ v.k_length)
      (ap (take 64) (past_k 0) ∙ take-append 64 key.tr _ v.tr_length)
      (ap (unpack_vector 5 128 unpack_small_poly) (past_tr 0)
        ∙ small_vector 5 key.s1 (S2 ++ T0) v.s1_small)
      (ap (unpack_vector 6 128 unpack_small_poly) (past_tr 640 ∙ drop_past 640 0 S1 _ l1)
        ∙ small_vector 6 key.s2 T0 v.s2_small)
      (ap (unpack_vector 6 416 unpack_t0_poly)
          (past_tr 1408 ∙ drop_past 640 768 S1 _ l1 ∙ drop-append 768 S2 _ l2)
        ∙ t0_vector key.t0 v.t0_low)

small_segment :
    (k from : ℕ) (sk : List ℕ)
    → k * 128 + from ≤ length sk
    → All (Fits 8) sk
    → concat (map pack_small_poly (unpack_vector k 128 unpack_small_poly (drop from sk)))
        ++ drop (from + k * 128) sk
      ≡ drop from sk
small_segment k from sk h hs =
    ap
      (λ ys.
        concat (map pack_small_poly (unpack_vector k 128 unpack_small_poly (drop from sk))) ++ ys)
      (sym (drop-drop from (k * 128) sk))
    ∙ pack-unpack_vector 128 pack_small_poly unpack_small_poly pack_small_poly-unpack_small_poly k
        (drop from sk) (omega (arith, length-drop from sk)) (All-drop (Fits 8) from sk hs)

segment : (n from : ℕ) (sk : List ℕ) → take n (drop from sk) ++ drop (from + n) sk ≡ drop from sk
segment n from sk =
    ap (λ ys. take n (drop from sk) ++ ys) (sym (drop-drop from n sk))
    ∙ take-append-drop n (drop from sk)

-- Any 4032 bytes are the packing of the private key that they read as.
pack_sk-unpack_sk : (sk : List ℕ) → IsBuffer 4032 sk → pack_sk (unpack_sk sk) ≡ sk
unfolding unpack_sk pack_sk
pack_sk-unpack_sk sk (h, hs) =
    let S1 : List ℕ =
      concat (map pack_small_poly (unpack_vector 5 128 unpack_small_poly (drop 128 sk))) in
    let S2 : List ℕ =
      concat (map pack_small_poly (unpack_vector 6 128 unpack_small_poly (drop 768 sk))) in
    let T0 : List ℕ =
      concat (map pack_t0_poly (unpack_vector 6 416 unpack_t0_poly (drop 1536 sk))) in
    let e5 : T0 ≡ drop 1536 sk =
      last_vector 416 pack_t0_poly unpack_t0_poly 6 (drop 1536 sk) pack_t0_poly-unpack_t0_poly
        (length-drop 1536 sk ∙ omega arith) (All-drop (Fits 8) 1536 sk hs) in
    let e4 : S2 ++ T0 ≡ drop 768 sk =
      ap (λ ys. S2 ++ ys) e5 ∙ small_segment 6 768 sk (omega arith) hs in
    let e3 : S1 ++ (S2 ++ T0) ≡ drop 128 sk =
      ap (λ ys. S1 ++ ys) e4 ∙ small_segment 5 128 sk (omega arith) hs in
    let e2 : take 64 (drop 64 sk) ++ (S1 ++ (S2 ++ T0)) ≡ drop 64 sk =
      ap (λ ys. take 64 (drop 64 sk) ++ ys) e3 ∙ segment 64 64 sk in
    let e1 : take 32 (drop 32 sk) ++ (take 64 (drop 64 sk) ++ (S1 ++ (S2 ++ T0))) ≡ drop 32 sk =
      ap (λ ys. take 32 (drop 32 sk) ++ ys) e2 ∙ segment 32 32 sk in
    ap (λ ys. take 32 sk ++ ys) e1 ∙ take-append-drop 32 sk
