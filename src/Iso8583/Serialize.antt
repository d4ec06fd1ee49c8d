-- ===== src/Iso8583/Serialize.antt =====
-- The serializers of solomon-core/src/iso8583.rs.
use project_solomon.Prelude.{ℕ, ◌-◌, ◌/◌, ◌^◌, min, Bool, true, false}
use project_solomon.Prelude.{List, [], ◌∷◌, ◌++◌, Option, none, some, length, take, replicate}
use project_solomon.Prelude.{ltb, ◌==◌, if◌then◌else◌, Result, ok, err, ◌>>=◌, map_err, bit_and}
use project_solomon.Bcd.{pack_bcd_left_padded, pack_llvar_len_bcd, pack_lllvar_len_bcd}
use project_solomon.Bcd.{pack_llllvar_len_bcd}
use project_solomon.Iso8583.Schema.{FieldType, fixed, llvar, lllvar, llllvar, get_field_type}
use project_solomon.Iso8583.Schema.{
  Iso8583Error, invalid_mti_format, serialization_error, bcd_error,
}
use project_solomon.Iso8583.Schema.{
  EncodingFormat, ascii_hex_bitmap, ascii_binary_bitmap, binary_bcd,
}
use project_solomon.Iso8583.Message.{Fields, Iso8583Message}
use project_solomon.Iso8583.Text.{format_dec, format_hex}
use project_solomon.Iso8583.Bitmap.{has_secondary, compute_bitmap}

-- Space padding and truncation of a fixed element.
unfoldable pub fit_fixed : ℕ → List ℕ → List ℕ
fit_fixed len payload =
    if length payload == len
    then payload
    else if ltb (length payload) len
    then payload ++ replicate (len - length payload) b' '
    else take len payload

-- An element under a decimal length of `w` digits.
unfoldable pub ascii_var : ℕ → ℕ → ℕ → List ℕ → List ℕ
ascii_var w most max_len payload =
    let write_len = min (min (length payload) max_len) most in
    format_dec w write_len ++ take write_len payload

unfoldable pub ascii_element : FieldType → List ℕ → List ℕ
unfolding fit_fixed ascii_var
ascii_element (fixed len) payload = fit_fixed len payload
ascii_element (llvar max_len) payload = ascii_var 2 99 max_len payload
ascii_element (lllvar max_len) payload = ascii_var 3 999 max_len payload
ascii_element (llllvar max_len) payload = ascii_var 4 9999 max_len payload

unfoldable pub ascii_elements : Fields → List ℕ
unfolding get_field_type
ascii_elements [] = []
ascii_elements ((k, v) ∷ m) =
    if k == 1 then ascii_elements m else ascii_element (get_field_type k) v ++ ascii_elements m

unfoldable pub hex_text : List ℕ → List ℕ
hex_text [] = []
hex_text (b ∷ bs) = format_hex b ++ hex_text bs

unfoldable pub written_bitmap : Fields → List ℕ
written_bitmap fields = take (if has_secondary fields then 16 else 8) (compute_bitmap fields)

unfoldable pub serialize_internal : Bool → Iso8583Message → List ℕ
unfolding hex_text written_bitmap ascii_elements
serialize_internal hex_bitmap msg =
    let bitmap = written_bitmap msg.fields in
    msg.mti ++ ((if hex_bitmap then hex_text bitmap else bitmap) ++ ascii_elements msg.fields)

unfoldable pub serialize_binary_bitmap : Iso8583Message → List ℕ
serialize_binary_bitmap msg = serialize_internal false msg

unfoldable pub serialize_hex_bitmap : Iso8583Message → List ℕ
serialize_hex_bitmap msg = serialize_internal true msg

-- The standard serializer.
pub serialize : Iso8583Message → List ℕ
unfolding serialize_hex_bitmap
serialize msg = serialize_hex_bitmap msg

abbrev two : ℕ × ℕ → List ℕ
two (a, b) = a ∷ b ∷ []

-- An element under a packed length.
unfoldable pub bcd_element : FieldType → List ℕ → Result Iso8583Error (List ℕ)
unfolding fit_fixed
bcd_element (fixed len) payload = ok (fit_fixed len payload)
bcd_element (llvar max_len) payload = do
  let write_len = min (length payload) max_len
  len_byte ← map_err bcd_error (pack_llvar_len_bcd write_len)
  ok (len_byte ∷ take write_len payload)
bcd_element (lllvar max_len) payload = do
  let write_len = min (length payload) max_len
  len_bytes ← map_err bcd_error (pack_lllvar_len_bcd write_len)
  ok (two len_bytes ++ take write_len payload)
bcd_element (llllvar max_len) payload = do
  let write_len = min (length payload) max_len
  len_bytes ← map_err bcd_error (pack_llllvar_len_bcd write_len)
  ok (two len_bytes ++ take write_len payload)

unfoldable pub bcd_elements : Fields → Result Iso8583Error (List ℕ)
unfolding bcd_element
bcd_elements [] = ok []
bcd_elements ((k, v) ∷ m) =
    let go_on = bcd_elements m in
    if k == 1
    then go_on
    else do element ← bcd_element (get_field_type k) v; rest ← go_on; ok (element ++ rest)

-- What the codec takes from the standard library: `from_utf8`, its lossy form, and `trim`.
pub record Std : Type 0 where
  pub from_utf8 : List ℕ → Option (List ℕ)
  pub lossy : List ℕ → List ℕ
  pub trim : List ℕ → List ℕ

module _ (std : Std) where
  mti_text : List ℕ → Result Iso8583Error (List ℕ)
  mti_text mti = elim (std.from_utf8 mti) [ none ↦ err invalid_mti_format | some text ↦ ok text ]

  unfoldable pub serialize_as2805_bcd : Iso8583Message → Result Iso8583Error (List ℕ)
  unfolding mti_text written_bitmap bcd_elements
  serialize_as2805_bcd msg = do
    text ← mti_text msg.mti
    mti_bcd ← map_err bcd_error (pack_bcd_left_padded std.trim text)
    elements ← bcd_elements msg.fields
    ok (mti_bcd ++ (written_bitmap msg.fields ++ elements))

  unfoldable pub serialize_with_encoding :
      Iso8583Message → EncodingFormat → Result Iso8583Error (List ℕ)
  unfolding serialize_hex_bitmap serialize_binary_bitmap serialize_as2805_bcd
  serialize_with_encoding msg ascii_hex_bitmap = ok (serialize_hex_bitmap msg)
  serialize_with_encoding msg ascii_binary_bitmap = ok (serialize_binary_bitmap msg)
  serialize_with_encoding msg binary_bcd = serialize_as2805_bcd msg

  unfoldable pub frame : List ℕ → Result Iso8583Error (List ℕ)
  frame payload =
      if ltb 65535 (length payload)
      then err serialization_error
      else ok ((length payload / 2 ^ 8) ∷ bit_and (length payload) 0xff ∷ payload)

  -- The length of the payload in two bytes, high byte first, and the payload.
  unfoldable pub serialize_tcp_framed_with_encoding :
      Iso8583Message → EncodingFormat → Result Iso8583Error (List ℕ)
  unfolding serialize_with_encoding frame
  serialize_tcp_framed_with_encoding msg encoding = do
    payload ← serialize_with_encoding msg encoding
    frame payload

  pub serialize_tcp_framed : Iso8583Message → Result Iso8583Error (List ℕ)
  unfolding serialize_tcp_framed_with_encoding
  serialize_tcp_framed msg = serialize_tcp_framed_with_encoding msg ascii_hex_bitmap
