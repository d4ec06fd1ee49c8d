-- ===== src/Crypto/Packing/Keys/Signature.antt =====
-- A signature has one encoding only, in solomon-core/src/crypto/packing.rs.
use project_solomon.Prelude.{ℕ, List, ◌++◌, map, take, drop}
use project_solomon.Prelude.{◌≡◌, sym, ap, ◌∙◌, arith, length-drop, take-append-drop}
use project_solomon.Prelude.{ok}
use project_solomon.Prelude.Bytes.{concat}
use project_solomon.Prelude.Radix.{Fits, All-drop}
use project_solomon.Crypto.Packing.{pack_z_poly, unpack_z_poly}
use project_solomon.Crypto.Packing.RoundTrip.{pack_z_poly-unpack_z_poly}
use project_solomon.Crypto.Packing.Hints.{pack_hint, unpack_hint}
use project_solomon.Crypto.Packing.Hints.Rows.{bind_ok}
use project_solomon.Crypto.Packing.Hints.Canonical.{pack_hint-unpack_hint, ok_injective}
use project_solomon.Crypto.Packing.Keys.{unpack_vector, pack_sig, unpack_sig}
use project_solomon.Crypto.Packing.Keys.Vectors.{IsBuffer, drop-drop, pack-unpack_vector}

-- Whatever 3309 bytes are accepted as a signature are the bytes that its parts pack to: no second
-- encoding of the same parts is accepted.
pub pack_sig-unpack_sig :
    (sig c_tilde : List ℕ) (z h : List (List ℕ))
    → IsBuffer 3309 sig
    → unpack_sig sig ≡ ok (c_tilde, z, h)
    → pack_sig c_tilde z h ≡ sig
unfolding unpack_sig pack_sig
pack_sig-unpack_sig sig c_tilde z h (l, hs) q =
    let (h', hint, rest) = bind_ok (unpack_hint (drop 3248 sig)) _ (c_tilde, z, h) q in
    let hint_bytes : pack_hint h' ≡ drop 3248 sig =
      pack_hint-unpack_hint (drop 3248 sig) h'
        (length-drop 3248 sig ∙ omega arith, All-drop (Fits 8) 3248 sig hs) hint in
    let parts : take 48 sig
          ++ (concat (map pack_z_poly (unpack_vector 5 640 unpack_z_poly (drop 48 sig)))
              ++ pack_hint h')
        ≡ sig =
      ap (λ ys. take 48 sig ++ ys)
        (ap (λ ys. concat (map pack_z_poly (unpack_vector 5 640 unpack_z_poly (drop 48 sig))) ++ ys)
            (hint_bytes ∙ sym (drop-drop 48 3200 sig))
          ∙ pack-unpack_vector 640 pack_z_poly unpack_z_poly pack_z_poly-unpack_z_poly 5
              (drop 48 sig) (omega (arith, length-drop 48 sig)) (All-drop (Fits 8) 48 sig hs))
      ∙ take-append-drop 48 sig in
    ap
      (λ (p : List ℕ × List (List ℕ) × List (List ℕ)).
        let (a, b, c) = p in a ++ (concat (map pack_z_poly b) ++ pack_hint c))
      (sym (ok_injective _ _ rest))
    ∙ parts
