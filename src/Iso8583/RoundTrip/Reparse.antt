-- ===== src/Iso8583/RoundTrip/Reparse.antt =====
-- What solomon-core/src/iso8583.rs parses is well formed.

use project_solomon.Prelude.{ℕ, ◌+◌, ◌≤◌, ◌≡◌, refl, arith}
use project_solomon.Prelude.{List, [], ◌∷◌, length, All, Bool, true, false}
use project_solomon.Prelude.{Result, ok, err, guard, if◌then◌else◌, Bool-cases, inl, inr}
use project_solomon.Prelude.{Returns, Returns-bind, Returns-ok}
use project_solomon.Bcd.Digits.{IsDigit}
use project_solomon.Iso8583.Schema.{Iso8583Error}
use project_solomon.Iso8583.Message.{Iso8583Message}
use project_solomon.Iso8583.Serialize.{Std, serialize_hex_bitmap}
use project_solomon.Iso8583.Parse.{
  ReadBitmap, slice, need, parse_elements, parse_behind, ascii_reader,
}
use project_solomon.Iso8583.Parse.{
  all_digits, is_hex_ascii_bitmap, read_hex_bitmap, read_binary_bitmap, parse,
}
use project_solomon.Iso8583.Parse.Sound.{
  need-Returns, length-slice, ascii_reader-Returns, IsRead, IsRead-nil,
}
use project_solomon.Iso8583.Parse.Sound.{parse_elements-Returns, IsRead-mono}
use project_solomon.Iso8583.WellFormed.{IsWellFormed}
use project_solomon.Iso8583.RoundTrip.Hex.{parse-serialize_hex_bitmap}

digits-all_digits : (cs : List ℕ) → all_digits cs ≡ true → All IsDigit cs
unfolding all_digits
digits-all_digits [] h = tt
digits-all_digits (c ∷ cs) h = (ground arith, digits-all_digits cs (ground arith))

-- Any result is read, whatever its value.
anything : (r : Result Iso8583Error ReadBitmap) → Returns (λ b. Unit {0}) r
anything (ok b) = tt
anything (err e) = tt

guard-Returns : (b : Bool) (e : Iso8583Error) → Returns (λ u. b ≡ true) (guard b e)
guard-Returns true e = refl
guard-Returns false e = tt

module _ (std : Std) (buf : List ℕ) where
  parse_behind-Returns :
      (mti : List ℕ) (read : ReadBitmap)
      → length mti ≡ 4
      → All IsDigit mti
      → Returns IsWellFormed (parse_behind (ascii_reader std buf) mti read)
  unfolding parse_behind
  parse_behind-Returns mti read four digits =
      let rounds : ℕ = if read.is_secondary_present then 127 else 63 in
      Returns-bind (IsRead (2 + rounds)) _
        (parse_elements (ascii_reader std buf) read.bitmap rounds 2 read.offset []) _
        (parse_elements-Returns (ascii_reader std buf) read.bitmap (ascii_reader-Returns std buf)
          rounds 2 read.offset [] (omega arith) IsRead-nil)
        (λ fields h. record {
          four = four;
          digits = digits;
          sorted = h.sorted;
          below =
              IsRead-mono (2 + rounds) 129 fields
                (elim (Bool-cases read.is_secondary_present) [
                  | inl e ↦ rw e (omega arith)
                  | inr e ↦ rw e (omega arith)
                ])
                h;
          fits = h.fits;
        })

  parse-Returns : Returns IsWellFormed (parse std buf)
  unfolding parse
  parse-Returns =
      Returns-bind (λ u. 12 ≤ length buf) _ (need buf 12) _ (need-Returns buf 12)
        (λ u long.
          Returns-bind (λ u'. all_digits (slice buf 0 4) ≡ true) _ (guard _ _) _
            (guard-Returns (all_digits (slice buf 0 4)) _)
            (λ u' digits.
              Returns-bind (λ b. Unit {0}) _
                (if is_hex_ascii_bitmap buf
                  then read_hex_bitmap buf 4
                  else read_binary_bitmap buf 4)
                _ (anything _)
                (λ read t.
                  parse_behind-Returns (slice buf 0 4) read (length-slice buf 0 4 (omega arith))
                    (digits-all_digits (slice buf 0 4) digits))))

  -- Whatever `parse` returns has a type of four digits and fields from 2 to 128 in ascending order,
  -- each with a payload of the length that its type has or allows.
  pub parse-IsWellFormed : (msg : Iso8583Message) → parse std buf ≡ ok msg → IsWellFormed msg
  parse-IsWellFormed msg e = Returns-ok IsWellFormed (parse std buf) msg parse-Returns e

  -- A message that was parsed, from either kind of bitmap, and is serialized again with its bitmap in
  -- hexadecimal text, is parsed to itself.
  pub parse-serialize-parse :
      (msg : Iso8583Message)
      → parse std buf ≡ ok msg
      → parse std (serialize_hex_bitmap msg) ≡ ok msg
  parse-serialize-parse msg e = parse-serialize_hex_bitmap std msg (parse-IsWellFormed msg e)
