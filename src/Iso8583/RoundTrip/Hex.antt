-- ===== src/Iso8583/RoundTrip/Hex.antt =====
-- A message with its bitmap in hexadecimal text, of solomon-core/src/iso8583.rs.
use project_solomon.Prelude.{ℕ, zero, suc, ◌*◌, ◌/◌, ◌%◌, ◌≤◌, ◌≡◌, refl, sym, ap, ◌∙◌, arith}
use project_solomon.Prelude.{List, [], ◌∷◌, ◌++◌, length, take, drop, All, true, false}
use project_solomon.Prelude.{length-append}
use project_solomon.Prelude.{append_assoc, Bool-cases, inl, inr, leb, if◌then◌else◌}
use project_solomon.Prelude.{ok}
use project_solomon.Iso8583.Message.{Iso8583Message}
use project_solomon.Iso8583.Text.{format_hex, all_hex}
use project_solomon.Iso8583.Text.RoundTrip.{from_str_radix16-format, hex_digit-is_hex_char}
use project_solomon.Iso8583.Bitmap.{has_secondary, compute_bitmap}
use project_solomon.Iso8583.Bitmap.Members.{IsByte, compute_bitmap-IsBitmap}
use project_solomon.Iso8583.Serialize.{
  Std, hex_text, written_bitmap, serialize_internal, ascii_elements,
}
use project_solomon.Iso8583.Serialize.{serialize_hex_bitmap}
use project_solomon.Iso8583.Parse.{slice, need, hex_bytes, push_byte, secondary_flag}
use project_solomon.Iso8583.Parse.{read_hex_bitmap, read_hex_secondary, ascii_reader}
use project_solomon.Iso8583.Parse.{is_hex_ascii_bitmap, parse, both_halves, primary_only}
use project_solomon.Iso8583.Parse.Reads.{need-le, Behind, Behind-length, slice-Behind}
use project_solomon.Iso8583.Parse.Ascii.{ascii_reads_back}
use project_solomon.Iso8583.WellFormed.{
  IsWellFormed, IsWellFormed-InRange, ascii_write, ascii_elements-joined,
}
use project_solomon.Iso8583.WellFormed.{all_digits-digits}
use project_solomon.Iso8583.RoundTrip.{
  read_of, parse_behind-read, written-secondary, written-primary,
}
use project_solomon.Iso8583.RoundTrip.{read_of-secondary, read_of-primary, length-primary_half}
use project_solomon.Iso8583.RoundTrip.{
  length-secondary_half, length-written, secondary_flag-written,
}

length-hex_text : (p : List ℕ) → length (hex_text p) ≡ 2 * length p
unfolding hex_text format_hex
length-hex_text [] = refl
length-hex_text (b ∷ bs) = omega (arith, length-hex_text bs)

hex_text-append : (p q : List ℕ) → hex_text (p ++ q) ≡ hex_text p ++ hex_text q
unfolding hex_text
hex_text-append [] q = refl
hex_text-append (b ∷ bs) q =
    ap (λ t. format_hex b ++ t) (hex_text-append bs q)
    ∙ sym (append_assoc (format_hex b) (hex_text bs) (hex_text q))

hex_bytes-hex_text :
    (n : ℕ) (p : List ℕ) → All IsByte p → length p ≡ n → hex_bytes n (hex_text p) ≡ ok p
unfolding hex_bytes hex_text format_hex push_byte
hex_bytes-hex_text zero [] h l = refl
hex_bytes-hex_text zero (b ∷ bs) h l = absurd (omega arith)
hex_bytes-hex_text (suc n) [] h l = absurd (omega arith)
hex_bytes-hex_text (suc n) (b ∷ bs) (h, hs) l =
    rw (from_str_radix16-format b h, hex_bytes-hex_text n bs hs (omega arith))

all_hex-hex_text : (p : List ℕ) → All IsByte p → all_hex (hex_text p) ≡ true
unfolding all_hex hex_text format_hex
all_hex-hex_text [] h = refl
all_hex-hex_text (b ∷ bs) (h, hs) = rw (
  hex_digit-is_hex_char (b / 16) (omega arith),
  hex_digit-is_hex_char (b % 16) (omega arith),
  all_hex-hex_text bs hs,
)

-- The two halves of a bitmap of sixteen bytes.
All-take : (n : ℕ) (p : List ℕ) → All IsByte p → All IsByte (take n p)
All-take zero p h = tt
All-take (suc n) [] h = tt
All-take (suc n) (b ∷ bs) (h, hs) = (h, All-take n bs hs)

All-drop : (n : ℕ) (p : List ℕ) → All IsByte p → All IsByte (drop n p)
All-drop zero p h = h
All-drop (suc n) [] h = tt
All-drop (suc n) (b ∷ bs) (h, hs) = All-drop n bs hs

module _ (buf mti p rest : List ℕ) (four : length mti ≡ 4) (eight : length p ≡ 8)
    (bytes : All IsByte p) where
  primary_bytes : Behind buf mti (hex_text p) rest → hex_bytes 8 (slice buf 4 16) ≡ ok p
  primary_bytes e =
      ap (λ t. hex_bytes 8 t)
        (slice-Behind buf mti (hex_text p) rest 4 16 e (sym four)
          (omega (arith, length-hex_text p, eight)))
      ∙ hex_bytes-hex_text 8 p bytes eight

  looks_hex : Behind buf mti (hex_text p) rest → all_hex (slice buf 4 16) ≡ true
  looks_hex e =
      ap (λ t. all_hex t)
        (slice-Behind buf mti (hex_text p) rest 4 16 e (sym four)
          (omega (arith, length-hex_text p, eight)))
      ∙ all_hex-hex_text p bytes

  primary_inside : Behind buf mti (hex_text p) rest → need buf 20 ≡ ok tt
  primary_inside e =
      need-le buf 20
        (omega (arith, Behind-length buf mti (hex_text p) rest e, length-hex_text p, four, eight))

  read_hex_primary :
      Behind buf mti (hex_text p) rest
      → secondary_flag p ≡ false
      → read_hex_bitmap buf 4 ≡ ok (primary_only p 20)
  unfolding read_hex_bitmap
  read_hex_primary e flag = rw (primary_inside e, primary_bytes e, flag)

module _ (buf mti p s rest : List ℕ) (four : length mti ≡ 4) (eight : length p ≡ 8)
    (eight_more : length s ≡ 8) (bytes : All IsByte p) (more_bytes : All IsByte s)
    (e : Behind buf mti (hex_text p) (hex_text s ++ rest)) where
  Behind-primary : Behind buf (mti ++ hex_text p) (hex_text s) rest
  Behind-primary = e ∙ sym (append_assoc mti (hex_text p) (hex_text s ++ rest))

  length-primary : length (mti ++ hex_text p) ≡ 20
  length-primary = omega (arith, length-append mti (hex_text p), length-hex_text p)

  secondary_bytes : hex_bytes 8 (slice buf 20 16) ≡ ok s
  secondary_bytes =
      ap (λ t. hex_bytes 8 t)
        (slice-Behind buf (mti ++ hex_text p) (hex_text s) rest 20 16 Behind-primary
          (sym length-primary) (omega (arith, length-hex_text s)))
      ∙ hex_bytes-hex_text 8 s more_bytes eight_more

  secondary_inside : need buf 36 ≡ ok tt
  secondary_inside = need-le buf 36 (
      omega (
        arith,
        Behind-length buf (mti ++ hex_text p) (hex_text s) rest Behind-primary,
        length-hex_text s,
        length-primary,
      ))

  read_hex_both : secondary_flag p ≡ true → read_hex_bitmap buf 4 ≡ ok (both_halves p s 36)
  unfolding read_hex_bitmap read_hex_secondary
  read_hex_both flag = rw (
    primary_inside buf mti p (hex_text s ++ rest) four eight bytes e,
    primary_bytes buf mti p (hex_text s ++ rest) four eight bytes e,
    flag,
    secondary_inside,
    secondary_bytes,
  )

-- The bitmap of a serialized message is read.
bitmap_read :
    (buf elements : List ℕ) (msg : Iso8583Message)
    → IsWellFormed msg
    → buf ≡ msg.mti ++ (hex_text (written_bitmap msg.fields) ++ elements)
    → (read_hex_bitmap buf 4 ≡ ok (read_of msg.fields 20 36)) × (all_hex (slice buf 4 16) ≡ true)
bitmap_read buf elements msg h e =
    let bm : List ℕ = compute_bitmap msg.fields in
    let eight : length (take 8 bm) ≡ 8 = length-primary_half msg.fields in
    let bytes : All IsByte bm = (compute_bitmap-IsBitmap msg.fields).bytes in
    let flag : secondary_flag (take 8 bm) ≡ has_secondary msg.fields =
      secondary_flag-written msg.fields in
    elim (Bool-cases (has_secondary msg.fields)) [
      | inl s ↦
          let at : Behind buf msg.mti (hex_text (take 8 bm)) (hex_text (drop 8 bm) ++ elements) =
            e
            ∙ ap (λ t. msg.mti ++ (hex_text t ++ elements)) (written-secondary msg.fields s)
            ∙ ap (λ t. msg.mti ++ (t ++ elements)) (hex_text-append (take 8 bm) (drop 8 bm))
            ∙ ap (λ t. msg.mti ++ t)
                (append_assoc (hex_text (take 8 bm)) (hex_text (drop 8 bm)) elements) in
          (
            read_hex_both buf msg.mti (take 8 bm) (drop 8 bm) elements h.four eight
                  (length-secondary_half msg.fields) (All-take 8 bm bytes) (All-drop 8 bm bytes) at
                  (flag ∙ s)
                ∙ ap ok (sym (read_of-secondary msg.fields 20 36 s)),
            looks_hex buf msg.mti (take 8 bm) (hex_text (drop 8 bm) ++ elements) h.four eight
                (All-take 8 bm bytes) at,
          )
      | inr s ↦
          let at : Behind buf msg.mti (hex_text (take 8 bm)) elements =
            e ∙ ap (λ t. msg.mti ++ (hex_text t ++ elements)) (written-primary msg.fields s) in
          (
            read_hex_primary buf msg.mti (take 8 bm) elements h.four eight (All-take 8 bm bytes) at
                  (flag ∙ s)
                ∙ ap ok (sym (read_of-primary msg.fields 20 36 s)),
            looks_hex buf msg.mti (take 8 bm) elements h.four eight (All-take 8 bm bytes) at,
          )
    ]

module _ (std : Std) (msg : Iso8583Message) (h : IsWellFormed msg) where
  -- A well-formed message serialized with its bitmap in hexadecimal text is parsed back unchanged.
  pub parse-serialize_hex_bitmap : parse std (serialize_hex_bitmap msg) ≡ ok msg
  unfolding parse serialize_hex_bitmap serialize_internal is_hex_ascii_bitmap
  parse-serialize_hex_bitmap =
      let text : List ℕ = hex_text (written_bitmap msg.fields) in
      let elements : List ℕ = ascii_elements msg.fields in
      let buf : List ℕ = msg.mti ++ (text ++ elements) in
      let l : length (written_bitmap msg.fields) ≡ (if has_secondary msg.fields then 16 else 8) =
        length-written msg.fields in
      let lt : length text ≡ 2 * length (written_bitmap msg.fields) =
        length-hex_text (written_bitmap msg.fields) in
      let some_bitmap : 8 ≤ length (written_bitmap msg.fields) = ground arith in
      let long : 20 ≤ length buf =
        omega
          (arith, length-append msg.mti (text ++ elements), length-append text elements, h.four) in
      let before : length (msg.mti ++ text) ≡ (if has_secondary msg.fields then 36 else 20) =
        ground (arith, length-append msg.mti text, h.four) in
      let long_enough : leb 20 (length buf) ≡ true = ground arith in
      rw
        (
          need-le buf 12 (omega arith),
          slice-Behind buf [] msg.mti (text ++ elements) 0 4 refl refl (sym h.four),
          all_digits-digits msg.mti h.digits,
          long_enough,
          (bitmap_read buf elements msg h refl).1,
          (bitmap_read buf elements msg h refl).0,
        )
        (parse_behind-read (ascii_reader std buf) buf ascii_write msg (ascii_reads_back std buf)
          (msg.mti ++ text) 20 36 h
          (ap (λ t. msg.mti ++ (text ++ t))
              (ascii_elements-joined msg.fields (IsWellFormed-InRange msg h))
            ∙ sym (append_assoc msg.mti text _))
          before)
