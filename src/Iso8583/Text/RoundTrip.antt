-- ===== src/Iso8583/Text/RoundTrip.antt =====
-- Texts that were written are read back.
use project_solomon.Prelude.{ℕ, ◌/◌, ◌%◌, ◌<◌, ◌≡◌, arith, true}
use project_solomon.Prelude.{some}
use project_solomon.Iso8583.Text.{format_dec, parse_usize, hex_digit}
use project_solomon.Iso8583.Text.{from_str_radix16, is_hex_char}

pub parse_usize-format2 : (n : ℕ) → n < 100 → parse_usize (format_dec 2 n) ≡ some n
unfolding parse_usize format_dec
parse_usize-format2 n h = ground arith

pub parse_usize-format3 : (n : ℕ) → n < 1000 → parse_usize (format_dec 3 n) ≡ some n
unfolding parse_usize format_dec
parse_usize-format3 n h = ground arith

pub parse_usize-format4 : (n : ℕ) → n < 10000 → parse_usize (format_dec 4 n) ≡ some n
unfolding parse_usize format_dec
parse_usize-format4 n h = ground arith

-- A byte in two hexadecimal digits, read as a byte and tested as text, over all bytes.
pub from_str_radix16-format :
    (b : ℕ) → b < 256 → from_str_radix16 (hex_digit (b / 16)) (hex_digit (b % 16)) ≡ some b
unfolding from_str_radix16 hex_digit
from_str_radix16-format b h = ground arith

pub hex_digit-is_hex_char : (n : ℕ) → n < 16 → is_hex_char (hex_digit n) ≡ true
unfolding is_hex_char hex_digit
hex_digit-is_hex_char n h = ground arith
