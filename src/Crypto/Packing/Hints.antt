-- ===== src/Crypto/Packing/Hints.antt =====
-- The hint vector in a signature: `pack_hint` and `unpack_hint` of
-- solomon-core/src/crypto/packing.rs. The vector is the list of its six polynomials.
pub mod Rows
pub mod Canonical
use project_solomon.Prelude.{ℕ, zero, suc, ◌+◌, ◌-◌, ◌<◌, List, [], ◌∷◌, get_or, set, replicate}
use project_solomon.Prelude.{Bool, not, ◌&&◌, ◌||◌, ltb, leb, ◌==◌, if◌then◌else◌}
use project_solomon.Prelude.{Result, ok, err, ◌>>=◌, ◌>>◌, guard}
use project_solomon.Crypto.Packing.{to_signed, as_u8}

pub data MlDsaError : Type 0 where
  invalid_parameter : MlDsaError
  invalid_signature : MlDsaError
  invalid_public_key : MlDsaError
  invalid_private_key : MlDsaError
  hash_failure : MlDsaError
  memory_allocation_failure : MlDsaError
  internal_error : MlDsaError

-- `for j in 0..256 { .. }`: the index and the buffer.
unfoldable pub pack_hint_row : ℕ → List ℕ → ℕ → List ℕ → ℕ × List ℕ
unfolding to_signed as_u8
pack_hint_row j [] index buf = (index, buf)
pack_hint_row j (coeff ∷ coeffs) index buf =
    let write : Bool = not (to_signed coeff == 0) && ltb index 55 in
    pack_hint_row (suc j) coeffs (if write then suc index else index)
      (if write then set buf index (as_u8 j) else buf)

-- `for i in 0..6 { .. }`
unfoldable pub pack_hint_rows : ℕ → List (List ℕ) → ℕ → List ℕ → List ℕ
unfolding pack_hint_row as_u8
pack_hint_rows i [] index buf = buf
pack_hint_rows i (row ∷ rows) index buf =
    let (index, buf) = pack_hint_row 0 row index buf in
    pack_hint_rows (suc i) rows index (set buf (55 + i) (as_u8 index))

unfoldable pub pack_hint : List (List ℕ) → List ℕ
unfolding pack_hint_rows
pack_hint h = pack_hint_rows 0 h 0 (replicate 61 0)

-- `for idx in last_count..count { .. }` for the `n` entries from `idx` on. `last_idx` is what the
-- `i32` is as a `usize`.
unfoldable pub unpack_hint_row : ℕ → List ℕ → ℕ → ℕ → ℕ → List ℕ → Result MlDsaError (List ℕ)
unpack_hint_row zero buf last_count idx last_idx row = ok row
unpack_hint_row (suc n) buf last_count idx last_idx row =
    let val : ℕ = get_or buf idx 0 in
    guard (not (leb val last_idx && ltb last_count idx)) invalid_signature
    >> unpack_hint_row n buf last_count (suc idx) val (set row val 1)

-- `-1 as usize`
abbrev pub no_index : ℕ
no_index = 18446744073709551615

-- `for i in 0..6 { .. }` for the last `k` rows: the rows, and the last count.
unfoldable pub unpack_hint_rows : ℕ → ℕ → List ℕ → ℕ → Result MlDsaError (List (List ℕ) × ℕ)
unfolding unpack_hint_row
unpack_hint_rows zero i buf last_count = ok ([], last_count)
unpack_hint_rows (suc k) i buf last_count =
    let count : ℕ = get_or buf (55 + i) 0 in
    guard (not (ltb count last_count || ltb 55 count)) invalid_signature
    >> (unpack_hint_row (count - last_count) buf last_count last_count no_index (replicate 256 0)
        >>= λ row. unpack_hint_rows k (suc i) buf count >>= λ (rows, last). ok (row ∷ rows, last))

-- `for idx in last_count..55 { .. }` for the `n` entries from `idx` on.
unfoldable pub check_padding : ℕ → List ℕ → ℕ → Result MlDsaError (Unit {0})
check_padding zero buf idx = ok tt
check_padding (suc n) buf idx =
    guard (get_or buf idx 0 == 0) invalid_signature >> check_padding n buf (suc idx)

unfoldable pub unpack_hint : List ℕ → Result MlDsaError (List (List ℕ))
unfolding unpack_hint_rows check_padding
unpack_hint buf = unpack_hint_rows 6 0 buf 0 >>= λ (h, last_count).
    check_padding (55 - last_count) buf last_count >> ok h
