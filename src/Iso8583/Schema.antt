-- ===== src/Iso8583/Schema.antt =====
-- The data elements of solomon-core/src/iso8583.rs and the errors of its codec.
use project_solomon.Prelude.{ℕ, List, [], ◌∷◌, ◌==◌, if◌then◌else◌}
use project_solomon.Bcd.{BcdError}

pub data FieldType : Type 0 where
  fixed llvar lllvar llllvar : ℕ → FieldType

pub data Iso8583Error : Type 0 where
  buffer_too_short : ℕ → ℕ → Iso8583Error
  invalid_mti_length : ℕ → Iso8583Error
  invalid_mti_format : Iso8583Error
  invalid_bitmap : Iso8583Error
  field_out_of_bounds : ℕ → Iso8583Error
  field_length_exceeded : ℕ → ℕ → ℕ → Iso8583Error
  invalid_var_length_header : ℕ → List ℕ → Iso8583Error
  tcp_framing_error : Iso8583Error
  serialization_error : Iso8583Error
  bcd_error : BcdError → Iso8583Error

pub data EncodingFormat : Type 0 where
  ascii_hex_bitmap ascii_binary_bitmap binary_bcd : EncodingFormat

-- The arms of the match in `get_field_type`, in order.
abbrev pub schema : List (ℕ × FieldType)
schema =
    (1, fixed 8)
    ∷ (2, llvar 19)
    ∷ (3, fixed 6)
    ∷ (4, fixed 12)
    ∷ (5, fixed 12)
    ∷ (6, fixed 12)
    ∷ (7, fixed 10)
    ∷ (8, fixed 8)
    ∷ (9, fixed 8)
    ∷ (10, fixed 8)
    ∷ (11, fixed 6)
    ∷ (12, fixed 6)
    ∷ (13, fixed 4)
    ∷ (14, fixed 4)
    ∷ (15, fixed 4)
    ∷ (16, fixed 4)
    ∷ (17, fixed 4)
    ∷ (18, fixed 4)
    ∷ (19, fixed 3)
    ∷ (22, fixed 3)
    ∷ (23, fixed 3)
    ∷ (24, fixed 3)
    ∷ (25, fixed 2)
    ∷ (26, fixed 2)
    ∷ (28, fixed 9)
    ∷ (32, llvar 11)
    ∷ (33, llvar 11)
    ∷ (35, llvar 37)
    ∷ (37, fixed 12)
    ∷ (38, fixed 6)
    ∷ (39, fixed 2)
    ∷ (41, fixed 8)
    ∷ (42, fixed 15)
    ∷ (43, fixed 40)
    ∷ (44, llvar 25)
    ∷ (45, llvar 76)
    ∷ (48, lllvar 999)
    ∷ (49, fixed 3)
    ∷ (50, fixed 3)
    ∷ (51, fixed 3)
    ∷ (52, fixed 8)
    ∷ (53, fixed 16)
    ∷ (54, lllvar 120)
    ∷ (55, lllvar 255)
    ∷ (60, lllvar 999)
    ∷ (61, lllvar 999)
    ∷ (62, lllvar 999)
    ∷ (63, lllvar 999)
    ∷ (64, fixed 8)
    ∷ (70, fixed 3)
    ∷ (90, fixed 42)
    ∷ (100, llvar 11)
    ∷ (102, llvar 28)
    ∷ (103, llvar 28)
    ∷ (112, llllvar 9999)
    ∷ (123, llllvar 9999)
    ∷ (127, llllvar 9999)
    ∷ (128, fixed 8)
    ∷ []

unfoldable pub type_in : List (ℕ × FieldType) → ℕ → FieldType
type_in [] field = lllvar 999
type_in ((n, t) ∷ rest) field = if field == n then t else type_in rest field

unfoldable pub get_field_type : ℕ → FieldType
unfolding type_in
get_field_type field = type_in schema field
