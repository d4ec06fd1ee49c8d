-- ===== src/Bcd.antt =====
-- solomon-core/src/bcd.rs: packed decimal digits, and the length headers of variable fields.
-- A `&str` is the list of its characters' code points, and its `len` counts the bytes of their UTF-8
-- form; a byte slice is a list of numbers.
-- `trim` is the standard library's: it is a parameter of the packing functions.
pub mod Nibbles
pub mod Headers
pub mod Digits
pub mod LeftPadded
mod Tests
use project_solomon.Prelude.{ℕ, zero, suc, ◌+◌, ◌-◌, ◌*◌, ◌/◌, ◌%◌, ◌^◌, bit_and, bit_or}
use project_solomon.Prelude.{Bool, true, false, not, ◌&&◌, ◌||◌, List, [], ◌∷◌, ◌++◌}
use project_solomon.Prelude.{length, get_or, drop, take, leb, ltb, ◌==◌, if◌then◌else◌}
use project_solomon.Prelude.{Result, ok, err, ◌>>=◌, ◌>>◌, guard}

pub data BcdError : Type 0 where
  invalid_digit : ℕ → BcdError
  invalid_nibble : ℕ → BcdError
  length_overflow : ℕ → BcdError
  buffer_too_short : ℕ → ℕ → BcdError
  invalid_bcd_length_header : ℕ → BcdError

-- `str::len`
pub str_len : List ℕ → ℕ
str_len [] = 0
str_len (c ∷ cs) =
    (if ltb c 0x80 then 1 else if ltb c 0x800 then 2 else if ltb c 0x1_0000 then 3 else 4)
    + str_len cs

-- `b << 4` on a u8, and `(b >> 4) & 0x0F`, `b & 0x0F`.
abbrev pub shl4 : ℕ → ℕ
shl4 n = n * 2 ^ 4 % 2 ^ 8

abbrev pub high_nibble : ℕ → ℕ
high_nibble b = bit_and (b / 2 ^ 4) 0x0f

abbrev pub low_nibble : ℕ → ℕ
low_nibble b = bit_and b 0x0f

pub digit_to_val : ℕ → Result BcdError ℕ
digit_to_val c = if leb b'0' c && leb c b'9' then ok (c - b'0') else err (invalid_digit c)

-- The loop of `pack_bcd_left_padded`: it ends when fewer than two characters are left.
pub pack_pairs : List ℕ → List ℕ → Result BcdError (List ℕ)
pack_pairs out [] = ok out
pack_pairs out (c1 ∷ []) = ok out
pack_pairs out (c1 ∷ c2 ∷ rest) = do
  n1 ← digit_to_val c1
  n2 ← digit_to_val c2
  pack_pairs (out ++ (bit_or (shl4 n1) n2 ∷ [])) rest

-- `chars.next().unwrap()` is on a text of odd length, so it is not empty.
pack_odd : List ℕ → Result BcdError (List ℕ)
pack_odd [] = ok []
pack_odd (first ∷ chars) = do val ← digit_to_val first; pack_pairs (val ∷ []) chars

pub pack_bcd_left_padded : (List ℕ → List ℕ) → List ℕ → Result BcdError (List ℕ)
unfolding pack_pairs pack_odd str_len
pack_bcd_left_padded trim digits =
    let digits' = trim digits in
    if not (str_len digits' % 2 == 0) then pack_odd digits' else pack_pairs [] digits'

pub pack_right : ℕ → List ℕ → List ℕ → Result BcdError (List ℕ)
pack_right pad out [] = ok out
pack_right pad out (c1 ∷ []) = do
  n1 ← digit_to_val c1
  ok (out ++ (bit_or (shl4 n1) (low_nibble pad) ∷ []))
pack_right pad out (c1 ∷ c2 ∷ rest) = do
  n1 ← digit_to_val c1
  n2 ← digit_to_val c2
  pack_right pad (out ++ (bit_or (shl4 n1) n2 ∷ [])) rest

pub pack_bcd_right_padded : (List ℕ → List ℕ) → List ℕ → ℕ → Result BcdError (List ℕ)
unfolding pack_right
pack_bcd_right_padded trim digits pad_nibble = pack_right pad_nibble [] (trim digits)

-- The loop of `unpack_bcd` over the bytes that are left. The two `break`s return `out`.
unfoldable pub unpack_loop : ℕ → Bool → List ℕ → List ℕ → Result BcdError (List ℕ)
unpack_loop num_digits left out [] = ok out
unpack_loop num_digits left out (b ∷ bs) =
    let high = high_nibble b in
    let low = low_nibble b in
    let out' = out ++ ((b'0' + high) ∷ []) in
    let go_on = unpack_loop num_digits left (out' ++ ((b'0' + low) ∷ [])) bs in
    let go_short = unpack_loop num_digits left out' bs in
    if length out == num_digits
    then ok out
    else if ltb 9 high
    then err (invalid_nibble high)
    else if ltb (length out') num_digits
    then (if ltb 9 low
        then (if low == 0x0f && not left then ok out' else err (invalid_nibble low))
        else go_on)
    else go_short

unfoldable pub unpack_bcd : List ℕ → ℕ → Bool → Result BcdError (List ℕ)
unfolding unpack_loop
unpack_bcd bytes num_digits left =
    let expected = (num_digits + 1) / 2 in
    let low = low_nibble (get_or bytes 0 0) in
    if ltb (length bytes) expected
    then err (buffer_too_short expected (length bytes))
    else if not (num_digits % 2 == 0) && left
    then (if ltb 9 low
        then err (invalid_nibble low)
        else unpack_loop num_digits left ((b'0' + low) ∷ []) (drop 1 (take expected bytes)))
    else unpack_loop num_digits left [] (take expected bytes)

pub pack_llvar_len_bcd : ℕ → Result BcdError ℕ
pack_llvar_len_bcd len =
    if ltb 99 len then err (length_overflow len) else ok (bit_or (shl4 (len / 10 % 256)) (len % 10))

pub unpack_llvar_len_bcd : ℕ → Result BcdError ℕ
unpack_llvar_len_bcd byte =
    let tens = high_nibble byte in
    let units = low_nibble byte in
    if ltb 9 tens || ltb 9 units
    then err (invalid_bcd_length_header byte)
    else ok (tens * 10 + units)

pub pack_lllvar_len_bcd : ℕ → Result BcdError (ℕ × ℕ)
pack_lllvar_len_bcd len =
    let hundreds = len / 100 % 256 in
    let remainder = len % 100 in
    let tens = remainder / 10 % 256 in
    let units = remainder % 10 in
    if ltb 999 len then err (length_overflow len) else ok (hundreds, bit_or (shl4 tens) units)

pub unpack_lllvar_len_bcd : ℕ × ℕ → Result BcdError ℕ
unpack_lllvar_len_bcd (b0, b1) =
    let hundreds = low_nibble b0 in
    let tens = high_nibble b1 in
    let units = low_nibble b1 in
    if ltb 9 hundreds || ltb 9 tens || ltb 9 units
    then err (invalid_bcd_length_header b1)
    else ok (hundreds * 100 + tens * 10 + units)

pub pack_llllvar_len_bcd : ℕ → Result BcdError (ℕ × ℕ)
pack_llllvar_len_bcd len =
    let high = len / 100 % 256 in
    let low = len % 100 in
    if ltb 9999 len
    then err (length_overflow len)
    else ok (bit_or (shl4 (high / 10)) (high % 10), bit_or (shl4 (low / 10)) (low % 10))

pub unpack_llllvar_len_bcd : ℕ × ℕ → Result BcdError ℕ
unpack_llllvar_len_bcd (b0, b1) =
    let thousands = high_nibble b0 in
    let hundreds = low_nibble b0 in
    let tens = high_nibble b1 in
    let units = low_nibble b1 in
    if ltb 9 thousands || ltb 9 hundreds || ltb 9 tens || ltb 9 units
    then err (invalid_bcd_length_header b0)
    else ok (thousands * 1000 + hundreds * 100 + tens * 10 + units)
