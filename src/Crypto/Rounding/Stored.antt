-- ===== src/Crypto/Rounding/Stored.antt =====
-- A polynomial of t is given back by its parts in the public key and in the private key: `power2round`
-- of solomon-core/src/crypto/poly.rs with the packings of packing.rs.
use project_solomon.Prelude.{ℕ, ◌+◌, ◌*◌, ◌%◌, ◌^◌, ◌<◌, List, [], ◌∷◌, All, length}
use project_solomon.Prelude.{◌≡◌, refl, ap₂, ◌∙◌}
use project_solomon.Crypto.Scalar.{q}
use project_solomon.Crypto.Packing.{pack_t0_poly, unpack_t0_poly, pack_t1_poly, unpack_t1_poly}
use project_solomon.Crypto.Packing.RoundTrip.{
  unpack_t0_poly-pack_t0_poly, unpack_t1_poly-pack_t1_poly,
}
use project_solomon.Crypto.Rounding.{power2round}
use project_solomon.Crypto.Rounding.Power2Round.{power2round_coeff_lem, power2round_packs}

-- Coefficients from their high and low parts.
unfoldable pub recombined : List ℕ → List ℕ → List ℕ
recombined [] r0s = []
recombined (r1 ∷ r1s) [] = []
recombined (r1 ∷ r1s) (r0 ∷ r0s) = (r1 * 2 ^ 13 + r0) % q ∷ recombined r1s r0s

recombined-power2round :
    (coeffs : List ℕ)
    → All (λ r. r < q) coeffs
    → recombined (power2round coeffs).0 (power2round coeffs).1 ≡ coeffs
unfolding recombined power2round
recombined-power2round [] h = refl
recombined-power2round (r ∷ coeffs) (h, hs) =
    let (p, s, t) = power2round_coeff_lem r h in
    ap₂ (λ x xs. x ∷ xs) t (recombined-power2round coeffs hs)

-- Of a polynomial with canonical coefficients, the high part packed as in the public key and the low
-- part packed as in the private key unpack to parts whose sum is the polynomial.
pub power2round-stored :
    (coeffs : List ℕ)
    → length coeffs ≡ 256
    → All (λ r. r < q) coeffs
    → recombined
        (unpack_t1_poly (pack_t1_poly (power2round coeffs).0))
        (unpack_t0_poly (pack_t0_poly (power2round coeffs).1))
      ≡ coeffs
power2round-stored coeffs l h =
    let ((l1, h1), (l0, h0)) = power2round_packs coeffs l h in
    ap₂ recombined (unpack_t1_poly-pack_t1_poly (power2round coeffs).0 l1 h1)
      (unpack_t0_poly-pack_t0_poly (power2round coeffs).1 l0 h0)
    ∙ recombined-power2round coeffs h
