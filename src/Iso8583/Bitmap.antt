-- ===== src/Iso8583/Bitmap.antt =====
-- The 128-bit bitmap of solomon-core/src/iso8583.rs: sixteen bytes, the first field in the top bit.
pub mod Bits
pub mod Members
use project_solomon.Prelude.{ℕ, ◌+◌, ◌-◌, ◌*◌, ◌/◌, ◌%◌, ◌^◌, ◌&&◌, ◌||◌, Bool, true, false, not}
use project_solomon.Prelude.{List, [], ◌∷◌, bit_and, bit_or, get_or, set, replicate}
use project_solomon.Prelude.{ltb, leb, ◌==◌, if◌then◌else◌}
use project_solomon.Iso8583.Message.{Fields}

abbrev pub byte_idx : ℕ → ℕ
byte_idx field_num = (field_num - 1) / 8

abbrev pub bit_idx : ℕ → ℕ
bit_idx field_num = 7 - (field_num - 1) % 8

-- `(bitmap[byte_idx] & (1 << bit_idx)) != 0`
unfoldable pub is_set : List ℕ → ℕ → Bool
is_set bitmap field_num =
    not (bit_and (get_or bitmap (byte_idx field_num) 0) (2 ^ bit_idx field_num) == 0)

-- `bitmap[byte_idx] |= 1 << bit_idx`
unfoldable pub set_bit : ℕ → List ℕ → List ℕ
set_bit field_num bitmap =
    set bitmap (byte_idx field_num)
      (bit_or (get_or bitmap (byte_idx field_num) 0) (2 ^ bit_idx field_num))

-- `self.fields.keys().any(|&k| k > 64)`
unfoldable pub has_secondary : Fields → Bool
has_secondary [] = false
has_secondary ((k, v) ∷ m) = ltb 64 k || has_secondary m

-- The loop over the keys.
unfoldable pub set_keys : Fields → List ℕ → List ℕ
set_keys [] bitmap = bitmap
set_keys ((k, v) ∷ m) bitmap =
    set_keys m (if leb 2 k && leb k 128 then set_bit k bitmap else bitmap)

-- The start of the bitmap: only the indicator of the secondary half.
unfoldable pub initial_bitmap : Bool → List ℕ
initial_bitmap secondary =
    let zeros : List ℕ = replicate 16 0 in
    if secondary then set zeros 0 (bit_or (get_or zeros 0 0) 0x80) else zeros

unfoldable pub compute_bitmap : Fields → List ℕ
unfolding has_secondary set_keys set_bit initial_bitmap
compute_bitmap fields = set_keys fields (initial_bitmap (has_secondary fields))
