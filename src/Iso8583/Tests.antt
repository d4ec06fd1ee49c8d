-- ===== src/Iso8583/Tests.antt =====
-- The theorems on solomon-core/src/iso8583.rs at concrete messages.
use project_solomon.Prelude.{◌≡◌, refl, arith, [], ◌∷◌, some}
use project_solomon.Prelude.{replicate, false, ok, err}
use project_solomon.Iso8583.Schema.{get_field_type, type_in}
use project_solomon.Iso8583.Message.{Iso8583Message}
use project_solomon.Iso8583.Bitmap.{
  is_set, compute_bitmap, has_secondary, set_keys, set_bit, initial_bitmap,
}
use project_solomon.Iso8583.Text.{all_hex, is_hex_char, format_dec}
use project_solomon.Iso8583.Serialize.{ascii_element}
use project_solomon.Iso8583.Bitmap.Members.{is_set-compute_bitmap}
use project_solomon.Iso8583.Serialize.{Std, serialize_hex_bitmap, serialize_binary_bitmap}
use project_solomon.Iso8583.Serialize.{serialize_internal, written_bitmap, ascii_elements}
use project_solomon.Iso8583.Parse.{parse, panicked, parse_as2805_bcd, is_hex_ascii_bitmap, slice}
use project_solomon.Iso8583.WellFormed.{IsWellFormed}
use project_solomon.Iso8583.RoundTrip.Hex.{parse-serialize_hex_bitmap}
use project_solomon.Iso8583.RoundTrip.Binary.{parse-serialize_binary_bitmap}
use project_solomon.Iso8583.RoundTrip.Reparse.{parse-IsWellFormed}
use project_solomon.Iso8583.Limits.{parse_as2805_bcd_panics}

-- Stand-ins for the standard library on ASCII text without white space.
abbrev ascii : Std
ascii = record { from_utf8 = λ text. some text; lossy = λ text. text; trim = λ text. text }

-- A network management request with an account number of four digits, and field 70 in the second half.
abbrev echo : Iso8583Message
echo = record {
  mti = b'0' ∷ b'8' ∷ b'0' ∷ b'0' ∷ [];
  fields =
      (2, b'4' ∷ b'1' ∷ b'1' ∷ b'1' ∷ [])
      ∷ (3, b'9' ∷ b'9' ∷ b'0' ∷ b'0' ∷ b'0' ∷ b'0' ∷ [])
      ∷ (70, b'3' ∷ b'0' ∷ b'1' ∷ [])
      ∷ [];
}

echo-IsWellFormed : IsWellFormed echo
unfolding get_field_type type_in
echo-IsWellFormed = record {
  four = refl;
  digits = omega arith;
  sorted = omega arith;
  below = omega arith;
  fits = omega arith;
}

parse-serialize_hex_bitmap_example : parse ascii (serialize_hex_bitmap echo) ≡ ok echo
parse-serialize_hex_bitmap_example = parse-serialize_hex_bitmap ascii echo echo-IsWellFormed

not_hex : is_hex_ascii_bitmap (serialize_binary_bitmap echo) ≡ false
unfolding is_hex_ascii_bitmap serialize_binary_bitmap serialize_internal written_bitmap
    ascii_elements slice has_secondary compute_bitmap set_keys set_bit initial_bitmap all_hex
    is_hex_char ascii_element format_dec
not_hex = refl

parse-serialize_binary_bitmap_example : parse ascii (serialize_binary_bitmap echo) ≡ ok echo
parse-serialize_binary_bitmap_example =
    parse-serialize_binary_bitmap ascii echo echo-IsWellFormed not_hex

parse-IsWellFormed_example : IsWellFormed echo
parse-IsWellFormed_example =
    parse-IsWellFormed ascii (serialize_binary_bitmap echo) echo
      parse-serialize_binary_bitmap_example

parse_as2805_bcd_panics_example : parse_as2805_bcd ascii (0x2f ∷ replicate 9 0) ≡ err panicked
parse_as2805_bcd_panics_example =
    parse_as2805_bcd_panics ascii 0x2f (replicate 9 0) (omega arith) (omega arith) (omega arith)

is_set-compute_bitmap_example :
    is_set (compute_bitmap ((1, []) ∷ (70, b'0' ∷ []) ∷ [])) 1
    ≡ has_secondary ((1, []) ∷ (70, b'0' ∷ []) ∷ [])
is_set-compute_bitmap_example =
    is_set-compute_bitmap 1 ((1, []) ∷ (70, b'0' ∷ []) ∷ []) (omega arith) (omega arith)
