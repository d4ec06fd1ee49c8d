-- ===== src/Iso8583/Limits.antt =====
-- Where solomon-core/src/iso8583.rs gives up: frames that are too long, and a packed type that panics.
use project_solomon.Prelude.{ℕ, ◌+◌, ◌/◌, ◌%◌, ◌^◌, ◌≤◌, ◌≡◌, refl, arith}
use project_solomon.Prelude.{List, [], ◌∷◌, length, take, drop, true, false, Bool-cases, inl, inr}
use project_solomon.Prelude.{Result, ok, err, ◌>>=◌, ltb}
use project_solomon.Prelude.{Returns, Returns-ok, ◌↔◌, is_ok}
use project_solomon.Prelude.Bits.{bit_and-mask}
use project_solomon.Prelude.Bytes.{from_be}
use project_solomon.Bcd.{unpack_bcd, unpack_loop}
use project_solomon.Iso8583.Schema.{Iso8583Error, EncodingFormat}
use project_solomon.Iso8583.Message.{Iso8583Message}
use project_solomon.Iso8583.Serialize.{
  Std, serialize_with_encoding, frame, serialize_tcp_framed_with_encoding,
}
use project_solomon.Iso8583.Parse.{panicked, parse_as2805_bcd, slice, copy_mti}
use project_solomon.Iso8583.Parse.Reads.{need-le}

IsFrame : Result Iso8583Error (List ℕ) → List ℕ → Type 0
IsFrame payload framed =
    (payload ≡ ok (drop 2 framed)) × (from_be (take 2 framed) ≡ length (drop 2 framed))

frame-Returns : (std : Std) (payload : List ℕ) → Returns (IsFrame (ok payload)) (frame std payload)
unfolding frame IsFrame from_be
frame-Returns std payload = elim (Bool-cases (ltb 65535 (length payload))) [
  | inl long ↦ rw long tt
  | inr short ↦ rw short (refl, ground (arith, bit_and-mask 8 (length payload)))
]

framed-Returns :
    (std : Std) (r : Result Iso8583Error (List ℕ)) → Returns (IsFrame r) (r >>= frame std)
framed-Returns std (ok payload) = frame-Returns std payload
framed-Returns std (err e) = tt

-- A frame is the length of the serialized message in two bytes, high byte first, and that message.
pub serialize_tcp_framed_lem :
    (std : Std) (msg : Iso8583Message) (encoding : EncodingFormat) (framed : List ℕ)
    → serialize_tcp_framed_with_encoding std msg encoding ≡ ok framed
    → (serialize_with_encoding std msg encoding ≡ ok (drop 2 framed))
      × (from_be (take 2 framed) ≡ length (drop 2 framed))
unfolding serialize_tcp_framed_with_encoding IsFrame
serialize_tcp_framed_lem std msg encoding framed e =
    Returns-ok (IsFrame (serialize_with_encoding std msg encoding)) _ framed
      (framed-Returns std (serialize_with_encoding std msg encoding)) e

-- No message of more than 65,535 bytes is framed, and every shorter one is.
serialize_tcp_framed_limit :
    (std : Std) (msg : Iso8583Message) (encoding : EncodingFormat) (payload : List ℕ)
    → serialize_with_encoding std msg encoding ≡ ok payload
    → (is_ok (serialize_tcp_framed_with_encoding std msg encoding) ≡ true)
      ↔ (length payload ≤ 65535)
unfolding serialize_tcp_framed_with_encoding frame
serialize_tcp_framed_limit std msg encoding payload e = rw e (ground arith)

unpack-one_digit :
    (b c : ℕ)
    → b / 16 ≤ 9
    → b % 16 ≡ 15
    → unpack_bcd (b ∷ c ∷ []) 4 false ≡ ok ((b'0' + b / 16) ∷ [])
unfolding unpack_bcd unpack_loop
unpack-one_digit b c high low = ground (arith, bit_and-mask 4 b, bit_and-mask 4 (b / 2 ^ 4))

-- A buffer of ten bytes or more that begins with a byte of a decimal high half and a low half of 15
-- makes `parse_as2805_bcd` panic.
pub parse_as2805_bcd_panics :
    (std : Std) (b : ℕ) (rest : List ℕ)
    → 9 ≤ length rest
    → b / 16 ≤ 9
    → b % 16 ≡ 15
    → parse_as2805_bcd std (b ∷ rest) ≡ err panicked
unfolding parse_as2805_bcd copy_mti slice
parse_as2805_bcd_panics std b [] long high low = absurd (omega arith)
parse_as2805_bcd_panics std b (c ∷ rest) long high low =
    rw (need-le (b ∷ c ∷ rest) 10 (omega arith), unpack-one_digit b c high low) refl
