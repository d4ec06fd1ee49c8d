-- ===== src/Crypto/Packing/Keys.antt =====
-- Public keys, private keys and signatures as byte strings: solomon-core/src/crypto/packing.rs.
-- The arrays of the source have fixed lengths, so that the slices it writes stand one after the
-- other.
pub mod Vectors
pub mod RoundTrip
pub mod Signature
use project_solomon.Prelude.{ℕ, zero, suc, List, [], ◌∷◌, ◌++◌, map, take, drop}
use project_solomon.Prelude.{Result, ok, err, ◌>>=◌}
use project_solomon.Prelude.Bytes.{concat}
use project_solomon.Crypto.Packing.{pack_t1_poly, pack_small_poly, pack_t0_poly, pack_z_poly}
use project_solomon.Crypto.Packing.{
  unpack_t1_poly, unpack_small_poly, unpack_t0_poly, unpack_z_poly,
}
use project_solomon.Crypto.Packing.Hints.{MlDsaError, pack_hint, unpack_hint}

-- The loop over a vector of `k` polynomials of `n` packed bytes each.
unfoldable pub unpack_vector : ℕ → ℕ → (List ℕ → List ℕ) → List ℕ → List (List ℕ)
unpack_vector zero n unpack buf = []
unpack_vector (suc k) n unpack buf = unpack (take n buf) ∷ unpack_vector k n unpack (drop n buf)

unfoldable pub pack_pk : List ℕ → List (List ℕ) → List ℕ
pack_pk rho t1 = rho ++ concat (map pack_t1_poly t1)

unfoldable pub unpack_pk : List ℕ → List ℕ × List (List ℕ)
unfolding unpack_vector
unpack_pk pk = (take 32 pk, unpack_vector 6 320 unpack_t1_poly (drop 32 pk))

-- What a private key holds.
pub record PrivateKey : Type 0 where
  pub rho : List ℕ
  pub k : List ℕ
  pub tr : List ℕ
  pub s1 : List (List ℕ)
  pub s2 : List (List ℕ)
  pub t0 : List (List ℕ)

unfoldable pub pack_sk : PrivateKey → List ℕ
pack_sk key =
    key.rho
    ++ (key.k
        ++ (key.tr
            ++ (concat (map pack_small_poly key.s1)
                ++ (concat (map pack_small_poly key.s2) ++ concat (map pack_t0_poly key.t0)))))

unfoldable pub unpack_sk : List ℕ → PrivateKey
unfolding unpack_vector
unpack_sk sk = record {
  rho = take 32 sk;
  k = take 32 (drop 32 sk);
  tr = take 64 (drop 64 sk);
  s1 = unpack_vector 5 128 unpack_small_poly (drop 128 sk);
  s2 = unpack_vector 6 128 unpack_small_poly (drop 768 sk);
  t0 = unpack_vector 6 416 unpack_t0_poly (drop 1536 sk);
}

unfoldable pub pack_sig : List ℕ → List (List ℕ) → List (List ℕ) → List ℕ
pack_sig c_tilde z h = c_tilde ++ (concat (map pack_z_poly z) ++ pack_hint h)

unfoldable pub unpack_sig : List ℕ → Result MlDsaError (List ℕ × List (List ℕ) × List (List ℕ))
unfolding unpack_vector
unpack_sig sig = unpack_hint (drop 3248 sig) >>= λ h.
    ok (take 48 sig, unpack_vector 5 640 unpack_z_poly (drop 48 sig), h)
