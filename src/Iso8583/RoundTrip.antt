-- ===== src/Iso8583/RoundTrip.antt =====
-- Messages of solomon-core/src/iso8583.rs that were serialized with an ASCII type are parsed back.
pub mod Hex
pub mod Binary
pub mod Reparse
use mathlib.Core.Path.{subst}
use project_solomon.Prelude.{
  ℕ, zero, suc, ◌+◌, ◌*◌, ◌/◌, ◌%◌, ◌≤◌, ◌<◌, ◌≡◌, refl, sym, ap, ap₂, ◌∙◌, arith,
}
use project_solomon.Prelude.{List, [], ◌∷◌, ◌++◌, length, take, drop, All, Bool, true, false, ◌&&◌}
use project_solomon.Prelude.{length-append, length-take, length-drop, take-append-drop, take_all}
use project_solomon.Prelude.{append_assoc, Bool-cases, inl, inr, leb, ltb, if◌then◌else◌, not, min}
use project_solomon.Prelude.{Result, ok, err, ◌>>=◌, ◌>>◌, guard}
use project_solomon.Iso8583.Schema.{Iso8583Error}
use project_solomon.Iso8583.Message.{Fields, Iso8583Message}
use project_solomon.Iso8583.Text.{format_hex, hex_digit, is_hex_char, all_hex, from_str_radix16}
use project_solomon.Iso8583.Text.RoundTrip.{from_str_radix16-format, hex_digit-is_hex_char}
use project_solomon.Iso8583.Bitmap.{is_set, has_secondary, compute_bitmap}
use project_solomon.Iso8583.Bitmap.Members.{
  IsByte, IsBitmap, InRange, has_key, compute_bitmap-IsBitmap,
}
use project_solomon.Iso8583.Bitmap.Members.{is_set-field, is_set-first}
use project_solomon.Iso8583.Serialize.{
  Std, hex_text, written_bitmap, serialize_internal, ascii_elements,
}
use project_solomon.Iso8583.Parse.{
  Reader, ReadBitmap, slice, need, hex_bytes, push_byte, secondary_flag,
}
use project_solomon.Iso8583.Parse.{read_hex_bitmap, read_hex_secondary, read_binary_bitmap}
use project_solomon.Iso8583.Parse.{
  read_binary_secondary, parse_elements, parse_behind, ascii_reader,
}
use project_solomon.Iso8583.Parse.{both_halves, primary_only, no_bytes}
use project_solomon.Iso8583.Parse.Elements.{IsBelow, joined, parse_elements-joined}
use project_solomon.Iso8583.Parse.Reads.{need-le, Behind, Behind-length, slice-Behind}
use project_solomon.Iso8583.WellFormed.{IsWellFormed, IsWellFormed-InRange, IsBelow-primary, Fits}
use project_solomon.Iso8583.WellFormed.{is_set-take, secondary_flag-take}

-- What the parser reads as the bitmap of a message, and where the elements begin.
abbrev pub read_of : Fields → ℕ → ℕ → ReadBitmap
read_of fields one two =
    if has_secondary fields
    then both_halves (take 8 (compute_bitmap fields)) (drop 8 (compute_bitmap fields)) two
    else primary_only (take 8 (compute_bitmap fields)) one

-- The bitmap that is written, in its halves.
module _ (m : Fields) where
  pub written-secondary :
      has_secondary m ≡ true
      → written_bitmap m ≡ take 8 (compute_bitmap m) ++ drop 8 (compute_bitmap m)
  unfolding written_bitmap
  written-secondary s = rw s (
      take_all 16 (compute_bitmap m) (omega (arith, (compute_bitmap-IsBitmap m).sixteen))
      ∙ sym (take-append-drop 8 (compute_bitmap m)))

  pub written-primary : has_secondary m ≡ false → written_bitmap m ≡ take 8 (compute_bitmap m)
  unfolding written_bitmap
  written-primary s = rw s refl

  pub read_of-secondary :
      (one two : ℕ)
      → has_secondary m ≡ true
      → read_of m one two ≡ both_halves (take 8 (compute_bitmap m)) (drop 8 (compute_bitmap m)) two
  read_of-secondary one two s = rw s refl

  pub read_of-primary :
      (one two : ℕ)
      → has_secondary m ≡ false
      → read_of m one two ≡ primary_only (take 8 (compute_bitmap m)) one
  read_of-primary one two s = rw s refl

  pub length-primary_half : length (take 8 (compute_bitmap m)) ≡ 8
  length-primary_half =
      omega (arith, (compute_bitmap-IsBitmap m).sixteen, length-take 8 (compute_bitmap m))

  pub length-secondary_half : length (drop 8 (compute_bitmap m)) ≡ 8
  length-secondary_half =
      omega (arith, (compute_bitmap-IsBitmap m).sixteen, length-drop 8 (compute_bitmap m))

  pub length-written : length (written_bitmap m) ≡ (if has_secondary m then 16 else 8)
  length-written = elim (Bool-cases (has_secondary m)) [
    | inl s ↦
        rw (s, written-secondary s)
          (omega (
            arith,
            length-append (take 8 (compute_bitmap m)) (drop 8 (compute_bitmap m)),
            length-primary_half,
            length-secondary_half,
          ))
    | inr s ↦ rw (s, written-primary s) length-primary_half
  ]

  pub secondary_flag-written : secondary_flag (take 8 (compute_bitmap m)) ≡ has_secondary m
  secondary_flag-written = secondary_flag-take 7 (compute_bitmap m) ∙ is_set-first m

-- The elements behind a bitmap, for a reader that reads back what `write` wrote.
module _ (reader : Reader) (buf : List ℕ) (write : ℕ → List ℕ → List ℕ) (msg : Iso8583Message)
    (reads_back : (k : ℕ) (v pre rest : List ℕ)
      → Fits (k, v)
      → buf ≡ pre ++ (write k v ++ rest)
      → reader k (length pre) ≡ ok (v, length (pre ++ write k v))) where
  behind_bitmap :
      (read : ReadBitmap) (rounds : ℕ) (pre : List ℕ)
      → IsWellFormed msg
      → buf ≡ pre ++ joined write msg.fields
      → (if read.is_secondary_present then 127 else 63) ≡ rounds
      → read.offset ≡ length pre
      → IsBelow (2 + rounds) msg.fields
      → ((n : ℕ) → 2 ≤ n → n < 2 + rounds → is_set read.bitmap n ≡ has_key n msg.fields)
      → parse_behind reader msg.mti read ≡ ok msg
  unfolding parse_behind
  behind_bitmap read rounds pre h e r o below bits = rw (
    r,
    o,
    parse_elements-joined reader buf read.bitmap write Fits reads_back rounds 2 pre msg.fields []
        h.sorted below h.fits bits e tt,
  )

  pub parse_behind-read :
      (pre : List ℕ) (one two : ℕ)
      → IsWellFormed msg
      → buf ≡ pre ++ joined write msg.fields
      → length pre ≡ (if has_secondary msg.fields then two else one)
      → parse_behind reader msg.mti (read_of msg.fields one two) ≡ ok msg
  parse_behind-read pre one two h e l =
      let bitmap : List ℕ = compute_bitmap msg.fields in
      let r : InRange msg.fields = IsWellFormed-InRange msg h in
      elim (Bool-cases (has_secondary msg.fields)) [
        | inl s ↦ rw s (
            behind_bitmap (both_halves (take 8 bitmap) (drop 8 bitmap) two) 127 pre h e refl
              (sym (rw s at l)) h.below
              (λ n lo hi.
                ap (λ t. is_set t n) (take-append-drop 8 bitmap)
                ∙ is_set-field n msg.fields lo (omega arith)))
        | inr s ↦ rw s (
            behind_bitmap (primary_only (take 8 bitmap) one) 63 pre h e refl (sym (rw s at l))
              (IsBelow-primary msg.fields s)
              (λ n lo hi.
                is_set-take n bitmap no_bytes (omega arith)
                  (compute_bitmap-IsBitmap msg.fields).sixteen
                ∙ is_set-field n msg.fields lo (omega arith)))
      ]
