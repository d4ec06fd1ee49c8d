-- ===== src/Crypto/Scalar/Range.antt =====
-- The products, of either sign, on which the Montgomery reduction of
-- solomon-core/src/crypto/scalar.rs is canonical.
use project_solomon.Prelude.{ℕ, ◌+◌, ◌-◌, ◌*◌, ◌/◌, ◌%◌, ◌^◌, ◌<◌, leb, if◌then◌else◌}
use project_solomon.Prelude.{◌≡◌, refl, arith, inl, inr, ◌⊎◌}
use project_solomon.Crypto.Word.{word, word_mul, word_sub}
use project_solomon.Prelude.{true, false}
use project_solomon.Crypto.Scalar.{q, q_inv, widen, long_sub, montgomery_reduce}
use project_solomon.Crypto.Scalar.Laws.{canonical, canonical_negative, reduce_positive}
use project_solomon.Crypto.Scalar.Negative.{montgomery_reduce_negative}

-- The quotient of a negative multiple of 2^32, for which the factor is zero.
canonical_multiple :
    (prod u t : ℕ)
    → 2 ^ 64 < prod + 4294967296 * 8380417
    → prod < 2 ^ 64
    → prod % 4294967296 ≡ 0
    → u ≡ 0
    → t ≡ long_sub prod (widen u * 8380417 % 2 ^ 64) / 4294967296
    → (canonical t < 8380417)
      × (canonical t * 4294967296 % 8380417 ≡ (prod + 2 ^ 64 * 8380416) % 8380417)
unfolding widen long_sub canonical word_sub
canonical_multiple prod u t h k z zero e =
    let quotient : t * 4294967296 ≡ prod = ground arith in
    let c : canonical t + 4294967296 ≡ t + 8380417 =
      canonical_negative t (omega arith) (omega arith) in
    (omega arith, omega arith)

reduce_multiple :
    (prod : ℕ)
    → 2 ^ 64 < prod + 2 ^ 32 * q
    → prod < 2 ^ 64
    → prod % 2 ^ 32 ≡ 0
    → (montgomery_reduce prod < q)
      × (montgomery_reduce prod * 2 ^ 32 % q ≡ (prod + 2 ^ 64 * (q - 1)) % q)
unfolding montgomery_reduce canonical word_mul widen
reduce_multiple prod h top z =
    canonical_multiple prod (word_mul (prod % word) q_inv) _ h top z (omega (arith, z)) refl

-- The residue modulo q of a word of 64 bits read with its sign.
abbrev pub signed_residue : ℕ → ℕ
signed_residue prod = if leb (2 ^ 63) prod then (prod + 2 ^ 64 * (q - 1)) % q else prod % q

-- The reduction is canonical, and times 2^32 it is the product modulo q, for every non-negative product
-- below 3/2 of 2^32 q, every negative one above -2^31 q, and every multiple of 2^32 above -2^32 q.
pub montgomery_reduce-mod_q :
    (prod : ℕ)
    → prod < 2 ^ 64
    → (prod < 3 * 2 ^ 31 * q)
      ⊎ ((2 ^ 64 < prod + 2 ^ 31 * q) ⊎ ((2 ^ 64 < prod + 2 ^ 32 * q) × (prod % 2 ^ 32 ≡ 0)))
    → (montgomery_reduce prod < q) × (montgomery_reduce prod * 2 ^ 32 % q ≡ signed_residue prod)
montgomery_reduce-mod_q prod top (inl h) =
    let small : leb (2 ^ 63) prod ≡ false = ground arith in rw small (reduce_positive prod h)
montgomery_reduce-mod_q prod top (inr (inl h)) =
    let large : leb (2 ^ 63) prod ≡ true = ground arith in
    let (c, d) =
      montgomery_reduce_negative prod (2 ^ 64 - prod) (omega arith) (omega arith) (omega arith) in
    rw large (c, omega arith)
montgomery_reduce-mod_q prod top (inr (inr (h, z))) =
    let large : leb (2 ^ 63) prod ≡ true = ground arith in rw large (reduce_multiple prod h top z)
