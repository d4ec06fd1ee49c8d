-- ===== src/Crypto/Packing/Pack.antt =====
-- The packed bytes of a polynomial are one number, written with the fields as its digits: the four
-- `pack_*_poly` of solomon-core/src/crypto/packing.rs.
use project_solomon.Prelude.{
  ℕ, ◌+◌, ◌*◌, ◌/◌, ◌^◌, ◌<◌, bit_or, List, [], ◌∷◌, length, map, get_or, All,
}
use project_solomon.Prelude.{◌≡◌, refl, sym, ap, ap₂, ◌∙◌, arith}
use project_solomon.Prelude.Bits.{bit_and-mask, bit_or-high, two_fields}
use native.Mathlib.Nat.{mod-eq_of_lt}
use project_solomon.Prelude.Radix.{
  radix, digits_of, size, groups_regroup, entries, entries_eq, map_id,
}
use project_solomon.Crypto.Packing.{as_u8, t1_field, small_field, t0_field, z_field}
use project_solomon.Crypto.Packing.{pack_t1_group, pack_small_group, pack_t0_group, pack_z_group}
use project_solomon.Crypto.Packing.{pack_t1_poly, pack_small_poly, pack_t0_poly, pack_z_poly}
use project_solomon.Crypto.Packing.Signed.{t1_field_lem, small_field_lem, t0_field_lem, z_field_lem}

pub t1_below : (c : ℕ) → t1_field c < 1024
t1_below c = omega (arith, t1_field_lem c)

pub small_below : (c : ℕ) → small_field c < 16
small_below c = omega (arith, small_field_lem c)

pub t0_below : (c : ℕ) → t0_field c < 8192
t0_below c = omega (arith, t0_field_lem c)

pub z_below : (c : ℕ) → z_field c < 1048576
z_below c = omega (arith, z_field_lem c)

pub anything : (cs : List ℕ) → All (λ c. Unit {0}) cs
anything [] = tt
anything (c ∷ cs) = (tt, anything cs)

t1_entries :
    (cs : List ℕ) → pack_t1_group cs ≡ digits_of 8 5 (radix 10 (map t1_field (entries 0 4 cs)))
unfolding pack_t1_group as_u8 radix digits_of entries
t1_entries cs =
    let c0 : ℕ = t1_field (get_or cs 0 0) in
    let c1 : ℕ = t1_field (get_or cs 1 0) in
    let c2 : ℕ = t1_field (get_or cs 2 0) in
    let c3 : ℕ = t1_field (get_or cs 3 0) in
    let h0 : c0 < 1024 = t1_below _ in
    let h1 : c1 < 1024 = t1_below _ in
    let h2 : c2 < 1024 = t1_below _ in
    let h3 : c3 < 1024 = t1_below _ in
    ap₂ ◌∷◌ (omega (arith, bit_and-mask 8 (c0))) (
      ap₂ ◌∷◌ (omega (arith, two_fields 2 6 (c0 / 2 ^ 8) c1)) (
        ap₂ ◌∷◌ (omega (arith, two_fields 4 4 (c1 / 2 ^ 6) c2)) (
          ap₂ ◌∷◌ (omega (arith, two_fields 6 2 (c2 / 2 ^ 4) c3))
            (ap₂ ◌∷◌ (omega (arith, bit_and-mask 8 (c3 / 2 ^ 2))) (refl)))))

t1_pack_group :
    (cs : List ℕ)
    → length cs ≡ 4
    → All (λ c. Unit {0}) cs
    → pack_t1_group cs ≡ map (λ x. x) (digits_of 8 5 (radix 10 (map t1_field cs)))
t1_pack_group cs h hs =
    t1_entries cs
    ∙ ap (λ ys. digits_of 8 5 (radix 10 (map t1_field ys))) (entries_eq 4 cs h)
    ∙ sym (map_id _)

-- The 320 bytes hold the ten low bits of the coefficients, one after the other from the lowest bit.
pub pack_t1_poly-digits :
    (poly : List ℕ)
    → length poly ≡ 256
    → pack_t1_poly poly ≡ digits_of 8 320 (radix 10 (map t1_field poly))
unfolding pack_t1_poly size
pack_t1_poly-digits poly h =
    groups_regroup 10 4 8 5 refl pack_t1_group t1_field (λ x. x) (λ c. Unit {0}) (λ c p. t1_below c)
      t1_pack_group 64 320 poly h (anything poly) refl
    ∙ map_id _

small_entries :
    (cs : List ℕ) → pack_small_group cs ≡ digits_of 8 1 (radix 4 (map small_field (entries 0 2 cs)))
unfolding pack_small_group as_u8 radix digits_of entries
small_entries cs =
    let c0 : ℕ = small_field (get_or cs 0 0) in
    let c1 : ℕ = small_field (get_or cs 1 0) in
    let h0 : c0 < 16 = small_below _ in
    let h1 : c1 < 16 = small_below _ in
    let joined : bit_or c0 (as_u8 (c1 * 2 ^ 4)) ≡ c0 + c1 * 2 ^ 4 =
      ap (bit_or c0) (mod-eq_of_lt (omega arith)) ∙ bit_or-high 4 c0 c1 h0 in
    ap₂ ◌∷◌ (omega arith) refl

small_pack_group :
    (cs : List ℕ)
    → length cs ≡ 2
    → All (λ c. Unit {0}) cs
    → pack_small_group cs ≡ map (λ x. x) (digits_of 8 1 (radix 4 (map small_field cs)))
small_pack_group cs h hs =
    small_entries cs
    ∙ ap (λ ys. digits_of 8 1 (radix 4 (map small_field ys))) (entries_eq 2 cs h)
    ∙ sym (map_id _)

-- The 128 bytes hold four less the coefficients, of four bits, one after the other from the lowest bit.
pub pack_small_poly-digits :
    (poly : List ℕ)
    → length poly ≡ 256
    → pack_small_poly poly ≡ digits_of 8 128 (radix 4 (map small_field poly))
unfolding pack_small_poly size
pack_small_poly-digits poly h =
    groups_regroup 4 2 8 1 refl pack_small_group small_field (λ x. x) (λ c. Unit {0})
      (λ c p. small_below c) small_pack_group 128 128 poly h (anything poly) refl
    ∙ map_id _

t0_entries :
    (cs : List ℕ) → pack_t0_group cs ≡ digits_of 8 13 (radix 13 (map t0_field (entries 0 8 cs)))
unfolding pack_t0_group as_u8 radix digits_of entries
t0_entries cs =
    let c0 : ℕ = t0_field (get_or cs 0 0) in
    let c1 : ℕ = t0_field (get_or cs 1 0) in
    let c2 : ℕ = t0_field (get_or cs 2 0) in
    let c3 : ℕ = t0_field (get_or cs 3 0) in
    let c4 : ℕ = t0_field (get_or cs 4 0) in
    let c5 : ℕ = t0_field (get_or cs 5 0) in
    let c6 : ℕ = t0_field (get_or cs 6 0) in
    let c7 : ℕ = t0_field (get_or cs 7 0) in
    let h0 : c0 < 8192 = t0_below _ in
    let h1 : c1 < 8192 = t0_below _ in
    let h2 : c2 < 8192 = t0_below _ in
    let h3 : c3 < 8192 = t0_below _ in
    let h4 : c4 < 8192 = t0_below _ in
    let h5 : c5 < 8192 = t0_below _ in
    let h6 : c6 < 8192 = t0_below _ in
    let h7 : c7 < 8192 = t0_below _ in
    ap₂ ◌∷◌ (omega (arith, bit_and-mask 8 (c0))) (
      ap₂ ◌∷◌ (omega (arith, two_fields 5 3 (c0 / 2 ^ 8) c1)) (
        ap₂ ◌∷◌ (omega (arith, bit_and-mask 8 (c1 / 2 ^ 3))) (
          ap₂ ◌∷◌ (omega (arith, two_fields 2 6 (c1 / 2 ^ 11) c2)) (
            ap₂ ◌∷◌ (omega (arith, two_fields 7 1 (c2 / 2 ^ 6) c3)) (
              ap₂ ◌∷◌ (omega (arith, bit_and-mask 8 (c3 / 2 ^ 1))) (
                ap₂ ◌∷◌ (omega (arith, two_fields 4 4 (c3 / 2 ^ 9) c4)) (
                  ap₂ ◌∷◌ (omega (arith, bit_and-mask 8 (c4 / 2 ^ 4))) (
                    ap₂ ◌∷◌ (omega (arith, two_fields 1 7 (c4 / 2 ^ 12) c5)) (
                      ap₂ ◌∷◌ (omega (arith, two_fields 6 2 (c5 / 2 ^ 7) c6)) (
                        ap₂ ◌∷◌ (omega (arith, bit_and-mask 8 (c6 / 2 ^ 2))) (
                          ap₂ ◌∷◌ (omega (arith, two_fields 3 5 (c6 / 2 ^ 10) c7))
                            (ap₂ ◌∷◌ (omega (arith, bit_and-mask 8 (c7 / 2 ^ 5))) (refl)))))))))))))

t0_pack_group :
    (cs : List ℕ)
    → length cs ≡ 8
    → All (λ c. Unit {0}) cs
    → pack_t0_group cs ≡ map (λ x. x) (digits_of 8 13 (radix 13 (map t0_field cs)))
t0_pack_group cs h hs =
    t0_entries cs
    ∙ ap (λ ys. digits_of 8 13 (radix 13 (map t0_field ys))) (entries_eq 8 cs h)
    ∙ sym (map_id _)

-- The 416 bytes hold 4096 less the coefficients, of thirteen bits, one after the other from the lowest bit.
pub pack_t0_poly-digits :
    (poly : List ℕ)
    → length poly ≡ 256
    → pack_t0_poly poly ≡ digits_of 8 416 (radix 13 (map t0_field poly))
unfolding pack_t0_poly size
pack_t0_poly-digits poly h =
    groups_regroup 13 8 8 13 refl pack_t0_group t0_field (λ x. x) (λ c. Unit {0})
      (λ c p. t0_below c) t0_pack_group 32 416 poly h (anything poly) refl
    ∙ map_id _

z_entries :
    (cs : List ℕ) → pack_z_group cs ≡ digits_of 8 5 (radix 20 (map z_field (entries 0 2 cs)))
unfolding pack_z_group as_u8 radix digits_of entries
z_entries cs =
    let c0 : ℕ = z_field (get_or cs 0 0) in
    let c1 : ℕ = z_field (get_or cs 1 0) in
    let h0 : c0 < 1048576 = z_below _ in
    let h1 : c1 < 1048576 = z_below _ in
    ap₂ ◌∷◌ (omega (arith, bit_and-mask 8 (c0))) (
      ap₂ ◌∷◌ (omega (arith, bit_and-mask 8 (c0 / 2 ^ 8))) (
        ap₂ ◌∷◌ (omega (arith, two_fields 4 4 (c0 / 2 ^ 16) c1)) (
          ap₂ ◌∷◌ (omega (arith, bit_and-mask 8 (c1 / 2 ^ 4)))
            (ap₂ ◌∷◌ (omega (arith, bit_and-mask 8 (c1 / 2 ^ 12))) (refl)))))

z_pack_group :
    (cs : List ℕ)
    → length cs ≡ 2
    → All (λ c. Unit {0}) cs
    → pack_z_group cs ≡ map (λ x. x) (digits_of 8 5 (radix 20 (map z_field cs)))
z_pack_group cs h hs =
    z_entries cs
    ∙ ap (λ ys. digits_of 8 5 (radix 20 (map z_field ys))) (entries_eq 2 cs h)
    ∙ sym (map_id _)

-- The 640 bytes hold 2^19 less the coefficients, of twenty bits, one after the other from the lowest bit.
pub pack_z_poly-digits :
    (poly : List ℕ)
    → length poly ≡ 256
    → pack_z_poly poly ≡ digits_of 8 640 (radix 20 (map z_field poly))
unfolding pack_z_poly size
pack_z_poly-digits poly h =
    groups_regroup 20 2 8 5 refl pack_z_group z_field (λ x. x) (λ c. Unit {0}) (λ c p. z_below c)
      z_pack_group 128 640 poly h (anything poly) refl
    ∙ map_id _
