-- ===== src/Iso8583/RoundTrip/Binary.antt =====
-- A message with its bitmap in bytes, of solomon-core/src/iso8583.rs.
use project_solomon.Prelude.{ℕ, ◌≤◌, ◌≡◌, refl, sym, ap, ◌∙◌, arith}
use project_solomon.Prelude.{List, [], ◌++◌, length, take, drop, true, false}
use project_solomon.Prelude.{length-append}
use project_solomon.Prelude.{append_assoc, Bool-cases, inl, inr, if◌then◌else◌}
use project_solomon.Prelude.{ok}
use project_solomon.Iso8583.Message.{Iso8583Message}
use project_solomon.Iso8583.Bitmap.{has_secondary, compute_bitmap}
use project_solomon.Iso8583.Serialize.{Std, written_bitmap, serialize_internal, ascii_elements}
use project_solomon.Iso8583.Serialize.{serialize_binary_bitmap}
use project_solomon.Iso8583.Parse.{slice, need, secondary_flag}
use project_solomon.Iso8583.Parse.{read_binary_bitmap, read_binary_secondary, ascii_reader}
use project_solomon.Iso8583.Parse.{is_hex_ascii_bitmap, parse, both_halves, primary_only}
use project_solomon.Iso8583.Parse.Reads.{need-le, Behind, Behind-length, slice-Behind}
use project_solomon.Iso8583.Parse.Ascii.{ascii_reads_back}
use project_solomon.Iso8583.WellFormed.{
  IsWellFormed, IsWellFormed-InRange, ascii_write, ascii_elements-joined,
}
use project_solomon.Iso8583.WellFormed.{all_digits-digits}
use project_solomon.Iso8583.RoundTrip.{
  read_of, parse_behind-read, written-secondary, written-primary,
}
use project_solomon.Iso8583.RoundTrip.{read_of-secondary, read_of-primary, length-primary_half}
use project_solomon.Iso8583.RoundTrip.{
  length-secondary_half, length-written, secondary_flag-written,
}

module _ (buf mti p rest : List ℕ) (four : length mti ≡ 4) (eight : length p ≡ 8) where
  primary_inside : Behind buf mti p rest → need buf 12 ≡ ok tt
  primary_inside e = need-le buf 12 (omega (arith, Behind-length buf mti p rest e, four, eight))

  read_binary_primary :
      Behind buf mti p rest
      → secondary_flag p ≡ false
      → read_binary_bitmap buf 4 ≡ ok (primary_only p 12)
  unfolding read_binary_bitmap
  read_binary_primary e flag =
      rw (primary_inside e, slice-Behind buf mti p rest 4 8 e (sym four) (sym eight), flag)

module _ (buf mti p s rest : List ℕ) (four : length mti ≡ 4) (eight : length p ≡ 8)
    (eight_more : length s ≡ 8) (e : Behind buf mti p (s ++ rest)) where
  Behind-primary : Behind buf (mti ++ p) s rest
  Behind-primary = e ∙ sym (append_assoc mti p (s ++ rest))

  length-primary : length (mti ++ p) ≡ 12
  length-primary = omega (arith, length-append mti p)

  read_binary_both : secondary_flag p ≡ true → read_binary_bitmap buf 4 ≡ ok (both_halves p s 20)
  unfolding read_binary_bitmap read_binary_secondary
  read_binary_both flag = rw (
    primary_inside buf mti p (s ++ rest) four eight e,
    slice-Behind buf mti p (s ++ rest) 4 8 e (sym four) (sym eight),
    flag,
    need-le buf 20
        (omega (arith, Behind-length buf (mti ++ p) s rest Behind-primary, length-primary)),
    slice-Behind buf (mti ++ p) s rest 12 8 Behind-primary (sym length-primary) (sym eight_more),
  )

-- The bitmap of a serialized message is read.
bitmap_read :
    (buf elements : List ℕ) (msg : Iso8583Message)
    → IsWellFormed msg
    → buf ≡ msg.mti ++ (written_bitmap msg.fields ++ elements)
    → read_binary_bitmap buf 4 ≡ ok (read_of msg.fields 12 20)
bitmap_read buf elements msg h e =
    let bm : List ℕ = compute_bitmap msg.fields in
    let flag : secondary_flag (take 8 bm) ≡ has_secondary msg.fields =
      secondary_flag-written msg.fields in
    elim (Bool-cases (has_secondary msg.fields)) [
      | inl s ↦
          read_binary_both buf msg.mti (take 8 bm) (drop 8 bm) elements h.four
            (length-primary_half msg.fields) (length-secondary_half msg.fields)
            (e
              ∙ ap (λ t. msg.mti ++ (t ++ elements)) (written-secondary msg.fields s)
              ∙ ap (λ t. msg.mti ++ t) (append_assoc (take 8 bm) (drop 8 bm) elements))
            (flag ∙ s)
          ∙ ap ok (sym (read_of-secondary msg.fields 12 20 s))
      | inr s ↦
          read_binary_primary buf msg.mti (take 8 bm) elements h.four
            (length-primary_half msg.fields)
            (e ∙ ap (λ t. msg.mti ++ (t ++ elements)) (written-primary msg.fields s)) (flag ∙ s)
          ∙ ap ok (sym (read_of-primary msg.fields 12 20 s))
    ]

module _ (std : Std) (msg : Iso8583Message) (h : IsWellFormed msg) where
  -- A well-formed message serialized with a binary bitmap is parsed back unchanged, provided that
  -- the sixteen bytes behind the type do not all look like hexadecimal digits.
  pub parse-serialize_binary_bitmap :
      is_hex_ascii_bitmap (serialize_binary_bitmap msg) ≡ false
      → parse std (serialize_binary_bitmap msg) ≡ ok msg
  unfolding parse serialize_binary_bitmap serialize_internal
  parse-serialize_binary_bitmap not_hex =
      let bitmap : List ℕ = written_bitmap msg.fields in
      let elements : List ℕ = ascii_elements msg.fields in
      let buf : List ℕ = msg.mti ++ (bitmap ++ elements) in
      let l : length bitmap ≡ (if has_secondary msg.fields then 16 else 8) =
        length-written msg.fields in
      let some_bitmap : 8 ≤ length bitmap = ground arith in
      let at_type : slice buf 0 4 ≡ msg.mti =
        slice-Behind buf [] msg.mti (bitmap ++ elements) 0 4 refl refl (sym h.four) in
      let before : length (msg.mti ++ bitmap) ≡ (if has_secondary msg.fields then 20 else 12) =
        ground (arith, length-append msg.mti bitmap, h.four) in
      rw
        (
          need-le buf 12 (
              omega (
                arith,
                length-append msg.mti (bitmap ++ elements),
                length-append bitmap elements,
                h.four,
              )),
          at_type,
          all_digits-digits msg.mti h.digits,
          not_hex,
          bitmap_read buf elements msg h refl,
        )
        (parse_behind-read (ascii_reader std buf) buf ascii_write msg (ascii_reads_back std buf)
          (msg.mti ++ bitmap) 12 20 h
          (ap (λ t. msg.mti ++ (bitmap ++ t))
              (ascii_elements-joined msg.fields (IsWellFormed-InRange msg h))
            ∙ sym (append_assoc msg.mti bitmap _))
          before)
