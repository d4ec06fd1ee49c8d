-- ===== src/Crypto/Packing/Unpack.antt =====
-- The fields of a packed polynomial are the digits of the number that its bytes make: the four
-- `unpack_*_poly` of solomon-core/src/crypto/packing.rs.
use project_solomon.Prelude.{
  ℕ, ◌+◌, ◌*◌, ◌/◌, ◌%◌, ◌^◌, ◌<◌, List, ◌∷◌, length, map, get_or, All, All-get_or,
}
use project_solomon.Prelude.{◌≡◌, refl, sym, ap, ap₂, ◌∙◌, arith}
use project_solomon.Prelude.Bits.{bit_and-mask, bit_or-high}
use project_solomon.Prelude.Radix.{
  radix, digits_of, size, groups_regroup, entries, entries_eq, map_id, Fits,
}
use project_solomon.Crypto.Word.{word_sub}
use project_solomon.Crypto.Packing.{to_canonical, gamma1}
use project_solomon.Crypto.Packing.{
  unpack_t1_group, unpack_small_group, unpack_t0_group, unpack_z_group,
}
use project_solomon.Crypto.Packing.{
  unpack_t1_poly, unpack_small_poly, unpack_t0_poly, unpack_z_poly,
}

-- The value of a field.
unfoldable pub t1_value : ℕ → ℕ
t1_value y = to_canonical y

unfoldable pub small_value : ℕ → ℕ
small_value y = to_canonical (word_sub 4 y)

unfoldable pub t0_value : ℕ → ℕ
t0_value y = to_canonical (word_sub 4096 y)

unfoldable pub z_value : ℕ → ℕ
z_value y = to_canonical (word_sub gamma1 y)

-- Every entry of a buffer is a byte.
get_or-byte : (bs : List ℕ) (i : ℕ) → All (Fits 8) bs → get_or bs i 0 < 256
get_or-byte bs i h = All-get_or (Fits 8) bs i 0 (omega arith) h

t1_entries :
    (bs : List ℕ)
    → All (Fits 8) bs
    → unpack_t1_group bs ≡ map t1_value (digits_of 10 4 (radix 8 (entries 0 5 bs)))
unfolding unpack_t1_group t1_value radix digits_of entries
t1_entries bs h =
    let b0 : ℕ = get_or bs 0 0 in
    let b1 : ℕ = get_or bs 1 0 in
    let b2 : ℕ = get_or bs 2 0 in
    let b3 : ℕ = get_or bs 3 0 in
    let b4 : ℕ = get_or bs 4 0 in
    let h0 : b0 < 256 = get_or-byte bs 0 h in
    let h1 : b1 < 256 = get_or-byte bs 1 h in
    let h2 : b2 < 256 = get_or-byte bs 2 h in
    let h3 : b3 < 256 = get_or-byte bs 3 h in
    let h4 : b4 < 256 = get_or-byte bs 4 h in
    ap₂ (λ (y : ℕ) ys. t1_value y ∷ ys)
      (rw (bit_and-mask 2 b1, bit_or-high 8 (b0) (b1 % 2 ^ 2) (omega arith)) (omega arith))
      (ap₂ (λ (y : ℕ) ys. t1_value y ∷ ys)
        (rw (bit_and-mask 4 b2, bit_or-high 6 (b1 / 2 ^ 2) (b2 % 2 ^ 4) (omega arith))
          (omega arith))
        (ap₂ (λ (y : ℕ) ys. t1_value y ∷ ys)
          (rw (bit_and-mask 6 b3, bit_or-high 4 (b2 / 2 ^ 4) (b3 % 2 ^ 6) (omega arith))
            (omega arith))
          (ap₂ (λ (y : ℕ) ys. t1_value y ∷ ys)
            (rw (bit_or-high 2 (b3 / 2 ^ 6) (b4) (omega arith)) (omega arith)) (refl))))

t1_unpack_group :
    (bs : List ℕ)
    → length bs ≡ 5
    → All (Fits 8) bs
    → unpack_t1_group bs ≡ map t1_value (digits_of 10 4 (radix 8 (map (λ x. x) bs)))
t1_unpack_group bs h hs =
    t1_entries bs hs
    ∙ ap (λ ys. map t1_value (digits_of 10 4 (radix 8 ys))) (entries_eq 5 bs h ∙ sym (map_id bs))

pub unpack_t1_poly-digits :
    (buf : List ℕ)
    → length buf ≡ 320
    → All (Fits 8) buf
    → unpack_t1_poly buf ≡ map t1_value (digits_of 10 256 (radix 8 buf))
unfolding unpack_t1_poly size
unpack_t1_poly-digits buf h hs =
    groups_regroup 8 5 10 4 refl unpack_t1_group (λ x. x) t1_value (Fits 8) (λ c p. p)
      t1_unpack_group 64 256 buf h hs refl
    ∙ ap (λ ys. map t1_value (digits_of 10 256 (radix 8 ys))) (map_id buf)

small_entries :
    (bs : List ℕ)
    → All (Fits 8) bs
    → unpack_small_group bs ≡ map small_value (digits_of 4 2 (radix 8 (entries 0 1 bs)))
unfolding unpack_small_group small_value radix digits_of entries
small_entries bs h =
    let b0 : ℕ = get_or bs 0 0 in
    let h0 : b0 < 256 = get_or-byte bs 0 h in
    ap₂ (λ (y : ℕ) ys. small_value y ∷ ys) (rw (bit_and-mask 4 b0) (omega arith))
      (ap₂ (λ (y : ℕ) ys. small_value y ∷ ys) (omega arith) (refl))

small_unpack_group :
    (bs : List ℕ)
    → length bs ≡ 1
    → All (Fits 8) bs
    → unpack_small_group bs ≡ map small_value (digits_of 4 2 (radix 8 (map (λ x. x) bs)))
small_unpack_group bs h hs =
    small_entries bs hs
    ∙ ap (λ ys. map small_value (digits_of 4 2 (radix 8 ys))) (entries_eq 1 bs h ∙ sym (map_id bs))

pub unpack_small_poly-digits :
    (buf : List ℕ)
    → length buf ≡ 128
    → All (Fits 8) buf
    → unpack_small_poly buf ≡ map small_value (digits_of 4 256 (radix 8 buf))
unfolding unpack_small_poly size
unpack_small_poly-digits buf h hs =
    groups_regroup 8 1 4 2 refl unpack_small_group (λ x. x) small_value (Fits 8) (λ c p. p)
      small_unpack_group 128 256 buf h hs refl
    ∙ ap (λ ys. map small_value (digits_of 4 256 (radix 8 ys))) (map_id buf)

t0_entries :
    (bs : List ℕ)
    → All (Fits 8) bs
    → unpack_t0_group bs ≡ map t0_value (digits_of 13 8 (radix 8 (entries 0 13 bs)))
unfolding unpack_t0_group t0_value radix digits_of entries
t0_entries bs h =
    let b0 : ℕ = get_or bs 0 0 in
    let b1 : ℕ = get_or bs 1 0 in
    let b2 : ℕ = get_or bs 2 0 in
    let b3 : ℕ = get_or bs 3 0 in
    let b4 : ℕ = get_or bs 4 0 in
    let b5 : ℕ = get_or bs 5 0 in
    let b6 : ℕ = get_or bs 6 0 in
    let b7 : ℕ = get_or bs 7 0 in
    let b8 : ℕ = get_or bs 8 0 in
    let b9 : ℕ = get_or bs 9 0 in
    let b10 : ℕ = get_or bs 10 0 in
    let b11 : ℕ = get_or bs 11 0 in
    let b12 : ℕ = get_or bs 12 0 in
    let h0 : b0 < 256 = get_or-byte bs 0 h in
    let h1 : b1 < 256 = get_or-byte bs 1 h in
    let h2 : b2 < 256 = get_or-byte bs 2 h in
    let h3 : b3 < 256 = get_or-byte bs 3 h in
    let h4 : b4 < 256 = get_or-byte bs 4 h in
    let h5 : b5 < 256 = get_or-byte bs 5 h in
    let h6 : b6 < 256 = get_or-byte bs 6 h in
    let h7 : b7 < 256 = get_or-byte bs 7 h in
    let h8 : b8 < 256 = get_or-byte bs 8 h in
    let h9 : b9 < 256 = get_or-byte bs 9 h in
    let h10 : b10 < 256 = get_or-byte bs 10 h in
    let h11 : b11 < 256 = get_or-byte bs 11 h in
    let h12 : b12 < 256 = get_or-byte bs 12 h in
    ap₂ (λ (y : ℕ) ys. t0_value y ∷ ys)
      (rw (bit_and-mask 5 b1, bit_or-high 8 (b0) (b1 % 2 ^ 5) (omega arith)) (omega arith))
      (ap₂ (λ (y : ℕ) ys. t0_value y ∷ ys)
        (rw
          (
            bit_or-high 3 (b1 / 2 ^ 5) (b2) (omega arith),
            bit_and-mask 2 b3,
            bit_or-high 11 (b1 / 2 ^ 5 + b2 * 2 ^ 3) (b3 % 2 ^ 2) (omega arith),
          )
          (omega arith))
        (ap₂ (λ (y : ℕ) ys. t0_value y ∷ ys)
          (rw (bit_and-mask 7 b4, bit_or-high 6 (b3 / 2 ^ 2) (b4 % 2 ^ 7) (omega arith))
            (omega arith))
          (ap₂ (λ (y : ℕ) ys. t0_value y ∷ ys)
            (rw
              (
                bit_or-high 1 (b4 / 2 ^ 7) (b5) (omega arith),
                bit_and-mask 4 b6,
                bit_or-high 9 (b4 / 2 ^ 7 + b5 * 2 ^ 1) (b6 % 2 ^ 4) (omega arith),
              )
              (omega arith))
            (ap₂ (λ (y : ℕ) ys. t0_value y ∷ ys)
              (rw
                (
                  bit_or-high 4 (b6 / 2 ^ 4) (b7) (omega arith),
                  bit_and-mask 1 b8,
                  bit_or-high 12 (b6 / 2 ^ 4 + b7 * 2 ^ 4) (b8 % 2 ^ 1) (omega arith),
                )
                (omega arith))
              (ap₂ (λ (y : ℕ) ys. t0_value y ∷ ys)
                (rw (bit_and-mask 6 b9, bit_or-high 7 (b8 / 2 ^ 1) (b9 % 2 ^ 6) (omega arith))
                  (omega arith))
                (ap₂ (λ (y : ℕ) ys. t0_value y ∷ ys)
                  (rw
                    (
                      bit_or-high 2 (b9 / 2 ^ 6) (b10) (omega arith),
                      bit_and-mask 3 b11,
                      bit_or-high 10 (b9 / 2 ^ 6 + b10 * 2 ^ 2) (b11 % 2 ^ 3) (omega arith),
                    )
                    (omega arith))
                  (ap₂ (λ (y : ℕ) ys. t0_value y ∷ ys)
                    (rw (bit_or-high 5 (b11 / 2 ^ 3) (b12) (omega arith)) (omega arith))
                    (refl))))))))

t0_unpack_group :
    (bs : List ℕ)
    → length bs ≡ 13
    → All (Fits 8) bs
    → unpack_t0_group bs ≡ map t0_value (digits_of 13 8 (radix 8 (map (λ x. x) bs)))
t0_unpack_group bs h hs =
    t0_entries bs hs
    ∙ ap (λ ys. map t0_value (digits_of 13 8 (radix 8 ys))) (entries_eq 13 bs h ∙ sym (map_id bs))

pub unpack_t0_poly-digits :
    (buf : List ℕ)
    → length buf ≡ 416
    → All (Fits 8) buf
    → unpack_t0_poly buf ≡ map t0_value (digits_of 13 256 (radix 8 buf))
unfolding unpack_t0_poly size
unpack_t0_poly-digits buf h hs =
    groups_regroup 8 13 13 8 refl unpack_t0_group (λ x. x) t0_value (Fits 8) (λ c p. p)
      t0_unpack_group 32 256 buf h hs refl
    ∙ ap (λ ys. map t0_value (digits_of 13 256 (radix 8 ys))) (map_id buf)

z_entries :
    (bs : List ℕ)
    → All (Fits 8) bs
    → unpack_z_group bs ≡ map z_value (digits_of 20 2 (radix 8 (entries 0 5 bs)))
unfolding unpack_z_group z_value radix digits_of entries
z_entries bs h =
    let b0 : ℕ = get_or bs 0 0 in
    let b1 : ℕ = get_or bs 1 0 in
    let b2 : ℕ = get_or bs 2 0 in
    let b3 : ℕ = get_or bs 3 0 in
    let b4 : ℕ = get_or bs 4 0 in
    let h0 : b0 < 256 = get_or-byte bs 0 h in
    let h1 : b1 < 256 = get_or-byte bs 1 h in
    let h2 : b2 < 256 = get_or-byte bs 2 h in
    let h3 : b3 < 256 = get_or-byte bs 3 h in
    let h4 : b4 < 256 = get_or-byte bs 4 h in
    ap₂ (λ (y : ℕ) ys. z_value y ∷ ys)
      (rw
        (
          bit_or-high 8 (b0) (b1) (omega arith),
          bit_and-mask 4 b2,
          bit_or-high 16 (b0 + b1 * 2 ^ 8) (b2 % 2 ^ 4) (omega arith),
        )
        (omega arith))
      (ap₂ (λ (y : ℕ) ys. z_value y ∷ ys)
        (rw
          (
            bit_or-high 4 (b2 / 2 ^ 4) (b3) (omega arith),
            bit_or-high 12 (b2 / 2 ^ 4 + b3 * 2 ^ 4) (b4) (omega arith),
          )
          (omega arith))
        (refl))

z_unpack_group :
    (bs : List ℕ)
    → length bs ≡ 5
    → All (Fits 8) bs
    → unpack_z_group bs ≡ map z_value (digits_of 20 2 (radix 8 (map (λ x. x) bs)))
z_unpack_group bs h hs =
    z_entries bs hs
    ∙ ap (λ ys. map z_value (digits_of 20 2 (radix 8 ys))) (entries_eq 5 bs h ∙ sym (map_id bs))

pub unpack_z_poly-digits :
    (buf : List ℕ)
    → length buf ≡ 640
    → All (Fits 8) buf
    → unpack_z_poly buf ≡ map z_value (digits_of 20 256 (radix 8 buf))
unfolding unpack_z_poly size
unpack_z_poly-digits buf h hs =
    groups_regroup 8 5 20 2 refl unpack_z_group (λ x. x) z_value (Fits 8) (λ c p. p) z_unpack_group
      128 256 buf h hs refl
    ∙ ap (λ ys. map z_value (digits_of 20 256 (radix 8 ys))) (map_id buf)
