-- ===== src/Crypto/Poly/Products.antt =====
-- Products and vectors of solomon-core/src/crypto/poly.rs and matrix.rs.
use project_solomon.Prelude.{ℕ, ◌*◌, ◌%◌, ◌^◌, ◌<◌, List, [], ◌∷◌, All}
use project_solomon.Prelude.{◌≡◌, refl, ap₂, arith}
use project_solomon.Crypto.Scalar.{q, mul}
use project_solomon.Crypto.Scalar.Laws.{mul-mod_q}
use project_solomon.Crypto.Scalar.Field.{mul_unique}
use project_solomon.Crypto.Ntt.RoundTrip.{IsCanonical, intt-ntt}
use project_solomon.Crypto.Poly.{pointwise_coeff, f_2_64, ntt_vector, intt_vector}

cancel_factors : (r x : ℕ) → r * 2 ^ 32 % q ≡ x % q → x % q * 2 ^ 32 % q ≡ r * f_2_64 % q
cancel_factors r x e = omega arith

-- The pointwise product of canonical values is their product modulo q: the two Montgomery factors
-- cancel.
pub pointwise_coeff_lem : (a b : ℕ) → a < q → b < q → pointwise_coeff a b ≡ a * b % q
unfolding pointwise_coeff
pointwise_coeff_lem a b h k =
    let (p, m) = mul-mod_q a b h k in
    mul_unique (mul a b) f_2_64 (a * b % q) p (omega arith) (omega arith)
      (cancel_factors (mul a b) (a * b) m)

-- A vector of polynomials with 256 canonical coefficients comes back from its transform.
pub intt_vector-ntt_vector :
    (polys : List (List ℕ)) → All IsCanonical polys → intt_vector (ntt_vector polys) ≡ polys
unfolding intt_vector ntt_vector
intt_vector-ntt_vector [] h = refl
intt_vector-ntt_vector (p ∷ polys) ((l, c), hs) =
    ap₂ ◌∷◌ (intt-ntt p l c) (intt_vector-ntt_vector polys hs)
