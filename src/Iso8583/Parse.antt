-- ===== src/Iso8583/Parse.antt =====
-- The parsers of solomon-core/src/iso8583.rs. `offset` counts from the start of the buffer.
pub mod Elements
pub mod Reads
pub mod Ascii
pub mod Sound
use project_solomon.Prelude.{
  ℕ, zero, suc, ◌+◌, ◌-◌, ◌*◌, ◌/◌, ◌%◌, ◌^◌, ◌&&◌, ◌||◌, Bool, true, false, not,
}
use project_solomon.Prelude.{
  List, [], ◌∷◌, ◌++◌, Option, none, some, length, take, drop, replicate, get_or, bit_and,
}
use project_solomon.Prelude.{
  ltb, leb, ◌==◌, if◌then◌else◌, Result, ok, err, ◌>>=◌, ◌>>◌, guard, map_err,
}
use project_solomon.Bcd.{BcdError, unpack_bcd, unpack_llvar_len_bcd, unpack_lllvar_len_bcd}
use project_solomon.Bcd.{unpack_llllvar_len_bcd}
use project_solomon.Iso8583.Schema.{FieldType, fixed, llvar, lllvar, llllvar, get_field_type}
use project_solomon.Iso8583.Schema.{
  Iso8583Error, buffer_too_short, invalid_mti_format, invalid_bitmap,
}
use project_solomon.Iso8583.Schema.{field_length_exceeded, invalid_var_length_header, bcd_error}
use project_solomon.Iso8583.Schema.{
  EncodingFormat, ascii_hex_bitmap, ascii_binary_bitmap, binary_bcd,
}
use project_solomon.Iso8583.Message.{Fields, Iso8583Message, insert}
use project_solomon.Iso8583.Text.{parse_usize, from_str_radix16, all_hex}
use project_solomon.Iso8583.Bitmap.{is_set}
use project_solomon.Iso8583.Serialize.{Std}

-- `buf[offset..offset + len]`
unfoldable pub slice : List ℕ → ℕ → ℕ → List ℕ
slice buf offset len = take len (drop offset buf)

-- `if buf.len() < offset + len { return Err(BufferTooShort { .. }) }`
unfoldable pub need : List ℕ → ℕ → Result Iso8583Error (Unit {0})
need buf end = if ltb (length buf) end then err (buffer_too_short end (length buf)) else ok tt

unfoldable pub read_fixed : List ℕ → ℕ → ℕ → Result Iso8583Error (List ℕ × ℕ)
unfolding need slice
read_fixed buf len offset = do need buf (offset + len); ok (slice buf offset len, offset + len)

-- The data of a variable element whose header has been read.
unfoldable pub read_var : List ℕ → ℕ → ℕ → ℕ × ℕ → Result Iso8583Error (List ℕ × ℕ)
unfolding read_fixed
read_var buf field max_len (len, offset) =
    if ltb max_len len
    then err (field_length_exceeded field max_len len)
    else read_fixed buf len offset

-- What an element reader gives: the data and the offset behind them.
abbrev pub Reader : Type 0
Reader = ℕ → ℕ → Result Iso8583Error (List ℕ × ℕ)

module _ (std : Std) (buf : List ℕ) where
  header_value : ℕ → List ℕ → Option ℕ → ℕ → Result Iso8583Error (ℕ × ℕ)
  header_value field header none offset = err (invalid_var_length_header field (std.lossy header))
  header_value field header (some len) offset = ok (len, offset)

  -- A decimal length of `w` bytes.
  unfoldable pub ascii_header : ℕ → ℕ → ℕ → Result Iso8583Error (ℕ × ℕ)
  unfolding need slice header_value
  ascii_header w field offset = do
    need buf (offset + w)
    header_value field (slice buf offset w) (parse_usize (slice buf offset w)) (offset + w)

  ascii_typed : FieldType → Reader
  unfolding read_fixed read_var ascii_header
  ascii_typed (fixed len) field offset = read_fixed buf len offset
  ascii_typed (llvar max_len) field offset = do
    header ← ascii_header 2 field offset
    read_var buf field max_len header
  ascii_typed (lllvar max_len) field offset = do
    header ← ascii_header 3 field offset
    read_var buf field max_len header
  ascii_typed (llllvar max_len) field offset = do
    header ← ascii_header 4 field offset
    read_var buf field max_len header

  unfoldable pub ascii_reader : Reader
  unfolding ascii_typed
  ascii_reader field offset = ascii_typed (get_field_type field) field offset

module _ (buf : List ℕ) where
  -- A packed length of one byte or two.
  bcd_header1 : ℕ → Result Iso8583Error (ℕ × ℕ)
  unfolding need
  bcd_header1 offset = do
    need buf (offset + 1)
    len ← map_err bcd_error (unpack_llvar_len_bcd (get_or (drop offset buf) 0 0))
    ok (len, offset + 1)

  bcd_header2 : (ℕ × ℕ → Result BcdError ℕ) → ℕ → Result Iso8583Error (ℕ × ℕ)
  unfolding need
  bcd_header2 unpack offset = do
    need buf (offset + 2)
    len ← map_err bcd_error (unpack (get_or (drop offset buf) 0 0, get_or (drop offset buf) 1 0))
    ok (len, offset + 2)

  bcd_typed : FieldType → Reader
  unfolding read_fixed read_var bcd_header1 bcd_header2
  bcd_typed (fixed len) field offset = read_fixed buf len offset
  bcd_typed (llvar max_len) field offset = do
    header ← bcd_header1 offset
    read_var buf field max_len header
  bcd_typed (lllvar max_len) field offset = do
    header ← bcd_header2 unpack_lllvar_len_bcd offset
    read_var buf field max_len header
  bcd_typed (llllvar max_len) field offset = do
    header ← bcd_header2 unpack_llllvar_len_bcd offset
    read_var buf field max_len header

  unfoldable pub bcd_reader : Reader
  unfolding bcd_typed
  bcd_reader field offset = bcd_typed (get_field_type field) field offset

-- The loop over `2..=max_fields`: `rounds` fields are left, from `field` on.
unfoldable pub parse_elements : Reader → List ℕ → ℕ → ℕ → ℕ → Fields → Result Iso8583Error Fields
parse_elements reader bitmap zero field offset fields = ok fields
parse_elements reader bitmap (suc rounds) field offset fields = elim (is_set bitmap field) [
  | false ↦ parse_elements reader bitmap rounds (field + 1) offset fields
  | true ↦ do
    (payload, next) ← reader field offset
    parse_elements reader bitmap rounds (field + 1) next (insert field payload fields)
]

-- A bitmap that was read: its sixteen bytes, whether the secondary half is there, the offset behind.
pub record ReadBitmap : Type 0 where
  pub bitmap : List ℕ
  pub is_secondary_present : Bool
  pub offset : ℕ

unfoldable pub secondary_flag : List ℕ → Bool
secondary_flag bitmap = not (bit_and (get_or bitmap 0 0) 0x80 == 0)

unfoldable pub push_byte : Option ℕ → Result Iso8583Error (List ℕ) → Result Iso8583Error (List ℕ)
push_byte none rest = err invalid_bitmap
push_byte (some b) rest = do bytes ← rest; ok (b ∷ bytes)

-- `n` bytes, each from two characters.
unfoldable pub hex_bytes : ℕ → List ℕ → Result Iso8583Error (List ℕ)
unfolding push_byte
hex_bytes zero text = ok []
hex_bytes (suc n) [] = err invalid_bitmap
hex_bytes (suc n) (a ∷ []) = err invalid_bitmap
hex_bytes (suc n) (a ∷ b ∷ rest) = push_byte (from_str_radix16 a b) (hex_bytes n rest)

abbrev pub no_bytes : List ℕ
no_bytes = replicate 8 0

abbrev pub primary_only : List ℕ → ℕ → ReadBitmap
primary_only primary offset = record {
  bitmap = primary ++ no_bytes;
  is_secondary_present = false;
  offset = offset;
}

abbrev pub both_halves : List ℕ → List ℕ → ℕ → ReadBitmap
both_halves primary secondary offset = record {
  bitmap = primary ++ secondary;
  is_secondary_present = true;
  offset = offset;
}

-- `offset` is behind the primary half.
unfoldable pub read_hex_secondary : List ℕ → List ℕ → ℕ → Result Iso8583Error ReadBitmap
unfolding need slice
read_hex_secondary buf primary offset = do
  need buf (offset + 16)
  secondary ← hex_bytes 8 (slice buf offset 16)
  ok (both_halves primary secondary (offset + 16))

unfoldable pub read_hex_bitmap : List ℕ → ℕ → Result Iso8583Error ReadBitmap
unfolding need slice secondary_flag read_hex_secondary
read_hex_bitmap buf offset = do
  need buf (offset + 16)
  primary ← hex_bytes 8 (slice buf offset 16)
  if secondary_flag primary
      then read_hex_secondary buf primary (offset + 16)
      else ok (primary_only primary (offset + 16))

unfoldable pub read_binary_secondary : List ℕ → List ℕ → ℕ → Result Iso8583Error ReadBitmap
unfolding need slice
read_binary_secondary buf primary offset = do
  need buf (offset + 8)
  ok (both_halves primary (slice buf offset 8) (offset + 8))

unfoldable pub read_binary_bitmap : List ℕ → ℕ → Result Iso8583Error ReadBitmap
unfolding need slice secondary_flag read_binary_secondary
read_binary_bitmap buf offset = do
  need buf (offset + 8)
  let primary = slice buf offset 8
  if secondary_flag primary
      then read_binary_secondary buf primary (offset + 8)
      else ok (primary_only primary (offset + 8))

-- The elements behind a bitmap.
unfoldable pub parse_behind : Reader → List ℕ → ReadBitmap → Result Iso8583Error Iso8583Message
unfolding parse_elements
parse_behind reader mti read = do
  let rounds = if read.is_secondary_present then 127 else 63
  fields ← parse_elements reader read.bitmap rounds 2 read.offset []
  ok (record { mti = mti; fields = fields })

unfoldable pub all_digits : List ℕ → Bool
all_digits [] = true
all_digits (b ∷ bs) = not (ltb b b'0' || ltb b'9' b) && all_digits bs

unfoldable pub is_hex_ascii_bitmap : List ℕ → Bool
unfolding slice
is_hex_ascii_bitmap buf = leb 20 (length buf) && all_hex (slice buf 4 16)

-- An error that is returned, or a panic.
pub data Failure : Type 0 where
  error : Iso8583Error → Failure
  panicked : Failure

module _ (std : Std) where
  unfoldable pub parse : List ℕ → Result Iso8583Error Iso8583Message
  unfolding need all_digits slice is_hex_ascii_bitmap parse_behind
  parse buf = do
    need buf 12
    let mti = slice buf 0 4
    guard (all_digits mti) invalid_mti_format
    read ← if is_hex_ascii_bitmap buf then read_hex_bitmap buf 4 else read_binary_bitmap buf 4
    parse_behind (ascii_reader std buf) mti read

  -- `mti.copy_from_slice(..)` panics unless the text has four bytes.
  unfoldable pub copy_mti : List ℕ → Result Failure (List ℕ)
  copy_mti mti = if length mti == 4 then ok mti else err panicked

  unfoldable pub parse_as2805_bcd : List ℕ → Result Failure Iso8583Message
  unfolding need slice parse_behind copy_mti
  parse_as2805_bcd buf = do
    map_err error (need buf 10)
    mti_str ← map_err error (map_err bcd_error (unpack_bcd (slice buf 0 2) 4 false))
    mti ← copy_mti mti_str
    read ← map_err error (read_binary_bitmap buf 2)
    map_err error (parse_behind (bcd_reader buf) mti read)

  unfoldable pub parse_with_encoding : List ℕ → EncodingFormat → Result Failure Iso8583Message
  unfolding parse parse_as2805_bcd
  parse_with_encoding buf ascii_hex_bitmap = map_err error (parse buf)
  parse_with_encoding buf ascii_binary_bitmap = map_err error (parse buf)
  parse_with_encoding buf binary_bcd = parse_as2805_bcd buf
