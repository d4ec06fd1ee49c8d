-- ===== src/Iso8583/Text.antt =====
-- Decimal and hexadecimal texts as the standard library reads and writes them for
-- solomon-core/src/iso8583.rs.
pub mod RoundTrip
use project_solomon.Prelude.{ℕ, zero, suc, ◌+◌, ◌-◌, ◌*◌, ◌/◌, ◌%◌, ◌^◌, ◌&&◌, ◌||◌, Bool}
use project_solomon.Prelude.{List, [], ◌∷◌, ◌++◌, Option, none, some, ltb, leb, ◌==◌, if◌then◌else◌}

-- `format!("{:0w}", n)` for an `n` of at most `w` digits.
unfoldable pub format_dec : ℕ → ℕ → List ℕ
format_dec zero n = []
format_dec (suc w) n = (b'0' + n / 10 ^ w % 10) ∷ format_dec w n

-- `str::parse::<usize>`: a sign `+` may stand first, and one digit must stand.
unfoldable pub parse_digits : ℕ → List ℕ → Option ℕ
parse_digits acc [] = some acc
parse_digits acc (c ∷ cs) =
    let rest = parse_digits (acc * 10 + (c - b'0')) cs in
    if leb b'0' c && leb c b'9' then rest else none

parse_unsigned : List ℕ → Option ℕ
parse_unsigned [] = none
parse_unsigned (c ∷ cs) = parse_digits 0 (c ∷ cs)

unfoldable pub parse_usize : List ℕ → Option ℕ
unfolding parse_digits parse_unsigned
parse_usize [] = none
parse_usize (c ∷ cs) = if c == b'+' then parse_unsigned cs else parse_unsigned (c ∷ cs)

-- `format!("{:02X}", b)`
unfoldable pub hex_digit : ℕ → ℕ
hex_digit n = if ltb n 10 then b'0' + n else b'A' + (n - 10)

unfoldable pub format_hex : ℕ → List ℕ
unfolding hex_digit
format_hex b = hex_digit (b / 16) ∷ hex_digit (b % 16) ∷ []

-- A digit of base sixteen in either case.
unfoldable pub hex_val : ℕ → Option ℕ
hex_val c =
    if leb b'0' c && leb c b'9'
    then some (c - b'0')
    else if leb b'A' c && leb c b'F'
    then some (c - b'A' + 10)
    else if leb b'a' c && leb c b'f'
    then some (c - b'a' + 10)
    else none

combine : Option ℕ → Option ℕ → Option ℕ
combine (some x) (some y) = some (x * 16 + y)
combine (some x) none = none
combine none o = none

-- `u8::from_str_radix(s, 16)` of two bytes: a sign `+` may stand first.
unfoldable pub from_str_radix16 : ℕ → ℕ → Option ℕ
unfolding hex_val combine
from_str_radix16 a b = if a == b'+' then hex_val b else combine (hex_val a) (hex_val b)

-- The test for a bitmap in hexadecimal text.
unfoldable pub is_hex_char : ℕ → Bool
is_hex_char b =
    (leb b'0' b && leb b b'9') || ((leb b'A' b && leb b b'F') || (leb b'a' b && leb b b'f'))

unfoldable pub all_hex : List ℕ → Bool
unfolding is_hex_char
all_hex [] = Bool.true
all_hex (b ∷ bs) = is_hex_char b && all_hex bs
