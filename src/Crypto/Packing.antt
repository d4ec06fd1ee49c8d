-- ===== src/Crypto/Packing.antt =====
-- The bit packing of solomon-core/src/crypto/packing.rs. A polynomial is the list of its 256
-- coefficients, each a word; a buffer is a list of bytes. A loop over the groups of a polynomial is
-- `groups`, which hands the body the coefficients, or the bytes, of one group and joins what it
-- writes.
pub mod Signed
pub mod Pack
pub mod Unpack
pub mod RoundTrip
pub mod Hints
pub mod Keys
use project_solomon.Prelude.{
  ℕ, zero, suc, ◌+◌, ◌-◌, ◌*◌, ◌/◌, ◌%◌, ◌^◌, List, [], ◌∷◌, ◌++◌, get_or,
}
use project_solomon.Prelude.{bit_and, bit_or}
use project_solomon.Prelude.Radix.{groups}
use project_solomon.Crypto.Word.{word_add, word_sub, sign_mask, word_not}
use project_solomon.Crypto.Scalar.{q}

abbrev pub gamma1 : ℕ
gamma1 = 524288

unfoldable pub to_signed : ℕ → ℕ
unfolding word_sub sign_mask word_not
to_signed coeff =
    let limit : ℕ = (q - 1) / 2 in
    let diff : ℕ = word_sub limit coeff in
    let mask : ℕ = sign_mask diff in
    bit_or (bit_and coeff (word_not mask)) (bit_and (word_sub coeff q) mask)

unfoldable pub to_canonical : ℕ → ℕ
unfolding word_add sign_mask
to_canonical val = let mask : ℕ = sign_mask val in word_add val (bit_and q mask)

-- `x as u8`
unfoldable pub as_u8 : ℕ → ℕ
as_u8 x = x % 256

-- `c0` to `c3`
unfoldable pub t1_field : ℕ → ℕ
unfolding to_signed
t1_field coeff = bit_and (to_signed coeff) 0x3FF

unfoldable pub pack_t1_group : List ℕ → List ℕ
unfolding t1_field as_u8
pack_t1_group cs =
    let c0 : ℕ = t1_field (get_or cs 0 0) in
    let c1 : ℕ = t1_field (get_or cs 1 0) in
    let c2 : ℕ = t1_field (get_or cs 2 0) in
    let c3 : ℕ = t1_field (get_or cs 3 0) in
    as_u8 (bit_and c0 0xFF)
    ∷ as_u8 (bit_or (bit_and (c0 / 2 ^ 8) 0x03) (bit_and c1 0x3F * 2 ^ 2))
    ∷ as_u8 (bit_or (bit_and (c1 / 2 ^ 6) 0x0F) (bit_and c2 0x0F * 2 ^ 4))
    ∷ as_u8 (bit_or (bit_and (c2 / 2 ^ 4) 0x3F) (bit_and c3 0x03 * 2 ^ 6))
    ∷ as_u8 (bit_and (c3 / 2 ^ 2) 0xFF)
    ∷ []

unfoldable pub pack_t1_poly : List ℕ → List ℕ
unfolding pack_t1_group
pack_t1_poly poly = groups 64 4 pack_t1_group poly

unfoldable pub unpack_t1_group : List ℕ → List ℕ
unfolding to_canonical
unpack_t1_group bs =
    let b0 : ℕ = get_or bs 0 0 in
    let b1 : ℕ = get_or bs 1 0 in
    let b2 : ℕ = get_or bs 2 0 in
    let b3 : ℕ = get_or bs 3 0 in
    let b4 : ℕ = get_or bs 4 0 in
    to_canonical (bit_or b0 (bit_and b1 0x03 * 2 ^ 8))
    ∷ to_canonical (bit_or (b1 / 2 ^ 2) (bit_and b2 0x0F * 2 ^ 6))
    ∷ to_canonical (bit_or (b2 / 2 ^ 4) (bit_and b3 0x3F * 2 ^ 4))
    ∷ to_canonical (bit_or (b3 / 2 ^ 6) (b4 * 2 ^ 2))
    ∷ []

unfoldable pub unpack_t1_poly : List ℕ → List ℕ
unfolding unpack_t1_group
unpack_t1_poly buf = groups 64 5 unpack_t1_group buf

-- `y0` and `y1`
unfoldable pub small_field : ℕ → ℕ
unfolding word_sub to_signed as_u8
small_field coeff = bit_and (as_u8 (word_sub 4 (to_signed coeff))) 0x0F

unfoldable pub pack_small_group : List ℕ → List ℕ
unfolding small_field as_u8
pack_small_group cs =
    let y0 : ℕ = small_field (get_or cs 0 0) in
    let y1 : ℕ = small_field (get_or cs 1 0) in bit_or y0 (as_u8 (y1 * 2 ^ 4)) ∷ []

unfoldable pub pack_small_poly : List ℕ → List ℕ
unfolding pack_small_group
pack_small_poly poly = groups 128 2 pack_small_group poly

unfoldable pub unpack_small_group : List ℕ → List ℕ
unfolding word_sub to_canonical
unpack_small_group bs =
    let b : ℕ = get_or bs 0 0 in
    let y0 : ℕ = bit_and b 0x0F in
    let y1 : ℕ = b / 2 ^ 4 in to_canonical (word_sub 4 y0) ∷ to_canonical (word_sub 4 y1) ∷ []

unfoldable pub unpack_small_poly : List ℕ → List ℕ
unfolding unpack_small_group
unpack_small_poly buf = groups 128 1 unpack_small_group buf

-- `c0` to `c7`
unfoldable pub t0_field : ℕ → ℕ
unfolding word_sub to_signed
t0_field coeff = bit_and (word_sub 4096 (to_signed coeff)) 0x1FFF

unfoldable pub pack_t0_group : List ℕ → List ℕ
unfolding t0_field as_u8
pack_t0_group cs =
    let c0 : ℕ = t0_field (get_or cs 0 0) in
    let c1 : ℕ = t0_field (get_or cs 1 0) in
    let c2 : ℕ = t0_field (get_or cs 2 0) in
    let c3 : ℕ = t0_field (get_or cs 3 0) in
    let c4 : ℕ = t0_field (get_or cs 4 0) in
    let c5 : ℕ = t0_field (get_or cs 5 0) in
    let c6 : ℕ = t0_field (get_or cs 6 0) in
    let c7 : ℕ = t0_field (get_or cs 7 0) in
    as_u8 (bit_and c0 0xFF)
    ∷ as_u8 (bit_or (bit_and (c0 / 2 ^ 8) 0x1F) (bit_and c1 0x07 * 2 ^ 5))
    ∷ as_u8 (bit_and (c1 / 2 ^ 3) 0xFF)
    ∷ as_u8 (bit_or (bit_and (c1 / 2 ^ 11) 0x03) (bit_and c2 0x3F * 2 ^ 2))
    ∷ as_u8 (bit_or (bit_and (c2 / 2 ^ 6) 0x7F) (bit_and c3 0x01 * 2 ^ 7))
    ∷ as_u8 (bit_and (c3 / 2 ^ 1) 0xFF)
    ∷ as_u8 (bit_or (bit_and (c3 / 2 ^ 9) 0x0F) (bit_and c4 0x0F * 2 ^ 4))
    ∷ as_u8 (bit_and (c4 / 2 ^ 4) 0xFF)
    ∷ as_u8 (bit_or (bit_and (c4 / 2 ^ 12) 0x01) (bit_and c5 0x7F * 2 ^ 1))
    ∷ as_u8 (bit_or (bit_and (c5 / 2 ^ 7) 0x3F) (bit_and c6 0x03 * 2 ^ 6))
    ∷ as_u8 (bit_and (c6 / 2 ^ 2) 0xFF)
    ∷ as_u8 (bit_or (bit_and (c6 / 2 ^ 10) 0x07) (bit_and c7 0x1F * 2 ^ 3))
    ∷ as_u8 (bit_and (c7 / 2 ^ 5) 0xFF)
    ∷ []

unfoldable pub pack_t0_poly : List ℕ → List ℕ
unfolding pack_t0_group
pack_t0_poly poly = groups 32 8 pack_t0_group poly

unfoldable pub unpack_t0_group : List ℕ → List ℕ
unfolding word_sub to_canonical
unpack_t0_group bs =
    let b0 : ℕ = get_or bs 0 0 in
    let b1 : ℕ = get_or bs 1 0 in
    let b2 : ℕ = get_or bs 2 0 in
    let b3 : ℕ = get_or bs 3 0 in
    let b4 : ℕ = get_or bs 4 0 in
    let b5 : ℕ = get_or bs 5 0 in
    let b6 : ℕ = get_or bs 6 0 in
    let b7 : ℕ = get_or bs 7 0 in
    let b8 : ℕ = get_or bs 8 0 in
    let b9 : ℕ = get_or bs 9 0 in
    let b10 : ℕ = get_or bs 10 0 in
    let b11 : ℕ = get_or bs 11 0 in
    let b12 : ℕ = get_or bs 12 0 in
    let c0 : ℕ = bit_or b0 (bit_and b1 0x1F * 2 ^ 8) in
    let c1 : ℕ = bit_or (bit_or (b1 / 2 ^ 5) (b2 * 2 ^ 3)) (bit_and b3 0x03 * 2 ^ 11) in
    let c2 : ℕ = bit_or (b3 / 2 ^ 2) (bit_and b4 0x7F * 2 ^ 6) in
    let c3 : ℕ = bit_or (bit_or (b4 / 2 ^ 7) (b5 * 2 ^ 1)) (bit_and b6 0x0F * 2 ^ 9) in
    let c4 : ℕ = bit_or (bit_or (b6 / 2 ^ 4) (b7 * 2 ^ 4)) (bit_and b8 0x01 * 2 ^ 12) in
    let c5 : ℕ = bit_or (b8 / 2 ^ 1) (bit_and b9 0x3F * 2 ^ 7) in
    let c6 : ℕ = bit_or (bit_or (b9 / 2 ^ 6) (b10 * 2 ^ 2)) (bit_and b11 0x07 * 2 ^ 10) in
    let c7 : ℕ = bit_or (b11 / 2 ^ 3) (b12 * 2 ^ 5) in
    to_canonical (word_sub 4096 c0)
    ∷ to_canonical (word_sub 4096 c1)
    ∷ to_canonical (word_sub 4096 c2)
    ∷ to_canonical (word_sub 4096 c3)
    ∷ to_canonical (word_sub 4096 c4)
    ∷ to_canonical (word_sub 4096 c5)
    ∷ to_canonical (word_sub 4096 c6)
    ∷ to_canonical (word_sub 4096 c7)
    ∷ []

unfoldable pub unpack_t0_poly : List ℕ → List ℕ
unfolding unpack_t0_group
unpack_t0_poly buf = groups 32 13 unpack_t0_group buf

-- `c0` and `c1`
unfoldable pub z_field : ℕ → ℕ
unfolding word_sub to_signed
z_field coeff = bit_and (word_sub gamma1 (to_signed coeff)) 0xFFFFF

unfoldable pub pack_z_group : List ℕ → List ℕ
unfolding z_field as_u8
pack_z_group cs =
    let c0 : ℕ = z_field (get_or cs 0 0) in
    let c1 : ℕ = z_field (get_or cs 1 0) in
    as_u8 (bit_and c0 0xFF)
    ∷ as_u8 (bit_and (c0 / 2 ^ 8) 0xFF)
    ∷ as_u8 (bit_or (bit_and (c0 / 2 ^ 16) 0x0F) (bit_and c1 0x0F * 2 ^ 4))
    ∷ as_u8 (bit_and (c1 / 2 ^ 4) 0xFF)
    ∷ as_u8 (bit_and (c1 / 2 ^ 12) 0xFF)
    ∷ []

unfoldable pub pack_z_poly : List ℕ → List ℕ
unfolding pack_z_group
pack_z_poly poly = groups 128 2 pack_z_group poly

unfoldable pub unpack_z_group : List ℕ → List ℕ
unfolding word_sub to_canonical
unpack_z_group bs =
    let b0 : ℕ = get_or bs 0 0 in
    let b1 : ℕ = get_or bs 1 0 in
    let b2 : ℕ = get_or bs 2 0 in
    let b3 : ℕ = get_or bs 3 0 in
    let b4 : ℕ = get_or bs 4 0 in
    let c0 : ℕ = bit_or (bit_or b0 (b1 * 2 ^ 8)) (bit_and b2 0x0F * 2 ^ 16) in
    let c1 : ℕ = bit_or (bit_or (b2 / 2 ^ 4) (b3 * 2 ^ 4)) (b4 * 2 ^ 12) in
    to_canonical (word_sub gamma1 c0) ∷ to_canonical (word_sub gamma1 c1) ∷ []

unfoldable pub unpack_z_poly : List ℕ → List ℕ
unfolding unpack_z_group
unpack_z_poly buf = groups 128 5 unpack_z_group buf
