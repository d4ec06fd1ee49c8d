-- ===== src/Crypto/Tests.antt =====
-- The theorems on solomon-core/src/crypto at concrete inputs.
use project_solomon.Prelude.{
  ℕ, zero, suc, ◌+◌, ◌*◌, ◌^◌, ◌%◌, ◌<◌, List, [], ◌∷◌, ◌++◌, replicate, length-replicate,
  All-append, ◌-◌, set, take, drop, length, All,
}
use project_solomon.Prelude.{◌≡◌, refl, arith, inl, inr, ok, leb, if◌then◌else◌}
use project_solomon.Prelude.Radix.{Fits}
use project_solomon.Crypto.Scalar.{q, add, mul, montgomery_reduce, reduce_coeff}
use project_solomon.Crypto.Scalar.Range.{montgomery_reduce-mod_q, signed_residue}
use project_solomon.Crypto.Scalar.Negative.{reduce_coeff_lem}
use project_solomon.Crypto.Scalar.Field.{mul_assoc}
use project_solomon.Crypto.Packing.{
  unpack_z_poly, pack_t0_poly, unpack_t0_poly, pack_t1_poly, unpack_t1_poly,
}
use project_solomon.Crypto.Packing.Signed.{Centered}
use project_solomon.Crypto.Packing.Hints.{pack_hint, unpack_hint}
use project_solomon.Crypto.Packing.Hints.Canonical.{pack_hint-unpack_hint}
use project_solomon.Crypto.Packing.Keys.{
  PrivateKey, pack_pk, unpack_pk, pack_sk, unpack_sk, pack_sig, unpack_sig, unpack_vector,
}
use project_solomon.Crypto.Packing.Keys.Vectors.{IsVector, IsBuffer}
use project_solomon.Crypto.Packing.Keys.RoundTrip.{
  IsPrivateKey, unpack_pk-pack_pk, unpack_sk-pack_sk,
}
use project_solomon.Crypto.Packing.Keys.Signature.{pack_sig-unpack_sig}
use project_solomon.Crypto.Rounding.{
  power2round_coeff, power2round, decompose_coeff, high_bits_coeff, make_hint_coeff, use_hint_coeff,
}
use project_solomon.Crypto.Rounding.Power2Round.{power2round_coeff_lem}
use project_solomon.Crypto.Rounding.Stored.{recombined, power2round-stored}
use project_solomon.Crypto.Rounding.Decompose.{alpha, decompose_coeff_lem}
use project_solomon.Crypto.Rounding.UseHint.{use_hint-make_hint}
use project_solomon.Prelude.{◌≤◌, ◌↔◌}
use project_solomon.Crypto.Ntt.{ntt, intt}
use project_solomon.Crypto.Ntt.RoundTrip.{intt-ntt}
use project_solomon.Crypto.Poly.{inf_norm, pointwise_coeff}
use project_solomon.Crypto.Poly.Norm.{inf_norm_iff}
use project_solomon.Crypto.Poly.Products.{pointwise_coeff_lem}
use project_solomon.Crypto.Ntt.Order.{ordered_stages, ntt-ordered}

All-replicate {ℓ} : {A : Type ℓ} (P : A → Type 0) (n : ℕ) (a : A) → P a → All P (replicate n a)
All-replicate P zero a p = tt
All-replicate P (suc n) a p = (p, All-replicate P n a p)

All-set : (P : ℕ → Type 0) (xs : List ℕ) (i a : ℕ) → P a → All P xs → All P (set xs i a)
All-set P [] i a p h = tt
All-set P (x ∷ xs) zero a p (h, hs) = (p, hs)
All-set P (x ∷ xs) (suc i) a p (h, hs) = (h, All-set P xs i a p hs)

abbrev IsPolynomial : (ℕ → Type 0) → List ℕ → Type 0
IsPolynomial P p = (length p ≡ 256) × All P p

abbrev wave : List ℕ
wave = set (set (replicate 256 3) 5 8380414) 200 0

abbrev small_wave : List ℕ
small_wave = set (replicate 256 8380413) 7 4

abbrev low_wave : List ℕ
low_wave = set (replicate 256 4096) 7 8376322

abbrev high_wave : List ℕ
high_wave = set (replicate 256 1023) 9 512

small_wave-IsVector : (k : ℕ) → IsVector k (Centered 11 4) (replicate k small_wave)
small_wave-IsVector k = (
  length-replicate k small_wave,
  All-replicate (IsPolynomial (Centered 11 4)) k small_wave (
    refl,
    All-set (Centered 11 4) (replicate 256 8380413) 7 4 (inl (omega arith))
        (All-replicate (Centered 11 4) 256 8380413 (inr (omega arith, omega arith))),
  ),
)

low_wave-IsVector : IsVector 6 (Centered 4095 4096) (replicate 6 low_wave)
low_wave-IsVector = (
  refl,
  All-replicate (IsPolynomial (Centered 4095 4096)) 6 low_wave (
    refl,
    All-set (Centered 4095 4096) (replicate 256 4096) 7 8376322 (inr (omega arith, omega arith))
        (All-replicate (Centered 4095 4096) 256 4096 (inl (omega arith))),
  ),
)

high_wave-IsVector : IsVector 6 (λ c. c < 1024) (replicate 6 high_wave)
high_wave-IsVector = (
  refl,
  All-replicate (IsPolynomial (λ c. c < 1024)) 6 high_wave (
    refl,
    All-set (λ c. c < 1024) (replicate 256 1023) 9 512 (omega arith)
        (All-replicate (λ c. c < 1024) 256 1023 (omega arith)),
  ),
)

abbrev key : PrivateKey
key = record {
  rho = replicate 32 1;
  k = replicate 32 2;
  tr = replicate 64 3;
  s1 = replicate 5 small_wave;
  s2 = replicate 6 small_wave;
  t0 = replicate 6 low_wave;
}

key-IsPrivateKey : IsPrivateKey key
key-IsPrivateKey = record {
  rho_length = refl;
  k_length = refl;
  tr_length = refl;
  s1_small = small_wave-IsVector 5;
  s2_small = small_wave-IsVector 6;
  t0_low = low_wave-IsVector;
}

unpack_sk-pack_sk_example : unpack_sk (pack_sk key) ≡ key
unpack_sk-pack_sk_example = unpack_sk-pack_sk key key-IsPrivateKey

unpack_pk-pack_pk_example :
    unpack_pk (pack_pk (replicate 32 9) (replicate 6 high_wave))
    ≡ (replicate 32 9, replicate 6 high_wave)
unpack_pk-pack_pk_example =
    unpack_pk-pack_pk (replicate 32 9) (replicate 6 high_wave) refl high_wave-IsVector

-- Two positions of the first polynomial.
abbrev hint_bytes : List ℕ
hint_bytes = 5 ∷ 9 ∷ (replicate 53 0 ++ replicate 6 2)

abbrev hint_rows : List (List ℕ)
hint_rows = set (set (replicate 256 0) 5 1) 9 1 ∷ replicate 5 (replicate 256 0)

hint_bytes-IsBuffer : IsBuffer 61 hint_bytes
hint_bytes-IsBuffer = (
  refl,
  (
    omega arith,
    (
      omega arith,
      All-append (Fits 8) (replicate 53 0) (replicate 6 2)
          (All-replicate (Fits 8) 53 0 (omega arith)) (All-replicate (Fits 8) 6 2 (omega arith)),
    ),
  ),
)

hint_unpacks : unpack_hint hint_bytes ≡ ok hint_rows
unfolding unpack_hint
hint_unpacks = refl

pack_hint-unpack_hint_example : pack_hint hint_rows ≡ hint_bytes
pack_hint-unpack_hint_example =
    pack_hint-unpack_hint hint_bytes hint_rows hint_bytes-IsBuffer hint_unpacks

abbrev sig : List ℕ
sig = replicate 3248 7 ++ hint_bytes

sig-IsBuffer : IsBuffer 3309 sig
sig-IsBuffer = (
  refl,
  All-append (Fits 8) (replicate 3248 7) hint_bytes (All-replicate (Fits 8) 3248 7 (omega arith))
      (let (l, h) = hint_bytes-IsBuffer in h),
)

sig_unpacks :
    unpack_sig sig ≡ ok (take 48 sig, unpack_vector 5 640 unpack_z_poly (drop 48 sig), hint_rows)
unfolding unpack_sig unpack_hint
sig_unpacks = refl

pack_sig-unpack_sig_example :
    pack_sig (take 48 sig) (unpack_vector 5 640 unpack_z_poly (drop 48 sig)) hint_rows ≡ sig
pack_sig-unpack_sig_example =
    pack_sig-unpack_sig sig (take 48 sig) (unpack_vector 5 640 unpack_z_poly (drop 48 sig))
      hint_rows sig-IsBuffer sig_unpacks

use_hint-make_hint_example :
    use_hint_coeff alpha 261888 (make_hint_coeff alpha 261888 7)
    ≡ high_bits_coeff (add 261888 7) alpha
use_hint-make_hint_example =
    use_hint-make_hint 261888 7 (omega arith) (omega arith) (inl (omega arith))

ntt-ordered_example : ntt wave ≡ ordered_stages 8 wave
ntt-ordered_example = ntt-ordered wave

montgomery_reduce-mod_q_example :
    (montgomery_reduce (2 ^ 64 - (q - 1) * 2 ^ 32) < q)
    × (montgomery_reduce (2 ^ 64 - (q - 1) * 2 ^ 32) * 2 ^ 32 % q
        ≡ signed_residue (2 ^ 64 - (q - 1) * 2 ^ 32))
montgomery_reduce-mod_q_example =
    montgomery_reduce-mod_q (2 ^ 64 - (q - 1) * 2 ^ 32) (omega arith)
      (inr (inr (omega arith, omega arith)))

decompose_coeff_lem_example :
    let (r1, r0) = decompose_coeff 8380000 alpha in
    (r1 < 16) × Centered 261888 261888 r0 × ((r1 * alpha + r0) % q ≡ 8380000)
decompose_coeff_lem_example = decompose_coeff_lem 8380000 (omega arith)

power2round_coeff_lem_example :
    let (r1, r0) = power2round_coeff 5000 in
    (r1 < 1024) × Centered 4095 4096 r0 × ((r1 * 2 ^ 13 + r0) % q ≡ 5000)
power2round_coeff_lem_example = power2round_coeff_lem 5000 (omega arith)

power2round-stored_example :
    recombined
      (unpack_t1_poly (pack_t1_poly (power2round small_wave).0))
      (unpack_t0_poly (pack_t0_poly (power2round small_wave).1))
    ≡ small_wave
power2round-stored_example = power2round-stored small_wave refl (
    All-set (λ r. r < q) (replicate 256 8380413) 7 4 (omega arith)
      (All-replicate (λ r. r < q) 256 8380413 (omega arith)))

reduce_coeff_lem_example :
    reduce_coeff 4294967290
    ≡ (if leb 2147483648 4294967290 then (2 ^ 32 * q + 4294967290 - 2 ^ 32) % q else 4294967290 % q)
reduce_coeff_lem_example = reduce_coeff_lem 4294967290 (omega arith)

mul_assoc_example : mul (mul 5 8380416) 77 ≡ mul 5 (mul 8380416 77)
mul_assoc_example = mul_assoc 5 8380416 77 (omega arith) (omega arith) (omega arith)

small_wave_below : All (λ c. c < q) small_wave
small_wave_below =
    All-set (λ r. r < q) (replicate 256 8380413) 7 4 (omega arith)
      (All-replicate (λ r. r < q) 256 8380413 (omega arith))

intt-ntt_example : intt (ntt small_wave) ≡ small_wave
intt-ntt_example = intt-ntt small_wave refl small_wave_below

inf_norm_iff_example : (inf_norm small_wave ≤ 4) ↔ All (Centered 4 4) small_wave
inf_norm_iff_example = inf_norm_iff 4 small_wave (omega arith) small_wave_below

pointwise_coeff_lem_example : pointwise_coeff 8380416 12345 ≡ 8380416 * 12345 % q
pointwise_coeff_lem_example = pointwise_coeff_lem 8380416 12345 (omega arith) (omega arith)
