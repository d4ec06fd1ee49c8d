-- ===== src/Iso8583/Parse/Ascii.antt =====
-- An element that the ASCII serializer of solomon-core/src/iso8583.rs wrote is read back.
use project_solomon.Prelude.{ℕ, zero, suc, ◌+◌, ◌≤◌, ◌≡◌, refl, sym, ap, ◌∙◌, arith, min}
use project_solomon.Prelude.{List, ◌++◌, length, length-append, take_all}
use project_solomon.Prelude.{ok, ◌>>=◌, some}
use project_solomon.Iso8583.Schema.{FieldType, fixed, llvar, lllvar, llllvar, get_field_type}
use project_solomon.Iso8583.Text.{format_dec, parse_usize}
use project_solomon.Iso8583.Text.RoundTrip.{
  parse_usize-format2, parse_usize-format3, parse_usize-format4,
}
use project_solomon.Iso8583.Serialize.{Std, fit_fixed, ascii_var, ascii_element}
use project_solomon.Iso8583.Parse.{read_var, ascii_header, ascii_typed}
use project_solomon.Iso8583.Parse.{ascii_reader}
use project_solomon.Iso8583.Parse.Reads.{
  FitsType, IsBounded, get_field_type-IsBounded, need-le, Behind,
}
use project_solomon.Iso8583.Parse.Reads.{
  Behind-length, slice-Behind, read_fixed-Behind, read_var-Behind,
}
use project_solomon.Iso8583.Parse.Reads.{fit_fixed-eq, Behind-header, Behind-first}

pub length-format_dec : (w n : ℕ) → length (format_dec w n) ≡ w
unfolding format_dec
length-format_dec zero n = refl
length-format_dec (suc w) n = ap suc (length-format_dec w n)

ascii_var-eq :
    (w most max_len : ℕ) (v : List ℕ)
    → length v ≤ max_len
    → max_len ≤ most
    → ascii_var w most max_len v ≡ format_dec w (length v) ++ v
unfolding ascii_var
ascii_var-eq w most max_len v h b =
    let e : min (min (length v) max_len) most ≡ length v = omega arith in
    rw (e, take_all (length v) v (omega arith))

module _ (std : Std) (buf : List ℕ) where
  ascii_header-Behind :
      (w field n : ℕ) (pre header rest : List ℕ)
      → Behind buf pre header rest
      → length header ≡ w
      → parse_usize header ≡ some n
      → ascii_header std buf w field (length pre) ≡ ok (n, length pre + w)
  unfolding ascii_header
  ascii_header-Behind w field n pre header rest e l p = rw (
    need-le buf (length pre + w) (omega (arith, Behind-length buf pre header rest e)),
    slice-Behind buf pre header rest (length pre) w e refl (sym l),
    p,
  )

  -- A length of `w` digits and the data behind it.
  var_reads_back :
      (w field max_len : ℕ) (v pre rest : List ℕ)
      → Behind buf pre (format_dec w (length v) ++ v) rest
      → length v ≤ max_len
      → parse_usize (format_dec w (length v)) ≡ some (length v)
      → (ascii_header std buf w field (length pre) >>= read_var buf field max_len)
        ≡ ok (v, length (pre ++ (format_dec w (length v) ++ v)))
  var_reads_back w field max_len v pre rest e h p =
      let header : List ℕ = format_dec w (length v) in
      let l : length header ≡ w = length-format_dec w (length v) in
      let o : length pre + w ≡ length (pre ++ header) =
        omega (arith, l, length-append pre header) in
      rw
        (
          ascii_header-Behind w field (length v) pre header (v ++ rest)
              (Behind-first buf pre header v rest e) l p,
          read_var-Behind buf (pre ++ header) v rest field max_len (length pre + w)
              (Behind-header buf pre header v rest e) o h,
        )
        (ap (λ (t : ℕ). ok (v, t))
          (omega (arith, l, length-append pre (header ++ v), length-append header v)))

  ascii_typed-reads_back :
      (t : FieldType) (field : ℕ) (v pre rest : List ℕ)
      → FitsType t v
      → IsBounded t
      → Behind buf pre (ascii_element t v) rest
      → ascii_typed std buf t field (length pre) ≡ ok (v, length (pre ++ ascii_element t v))
  unfolding ascii_typed ascii_element
  ascii_typed-reads_back (fixed len) field v pre rest f b e =
      let same : fit_fixed len v ≡ v = fit_fixed-eq len v f in
      rw same (
        read_fixed-Behind buf pre v rest (length pre) len (rw same at e) refl (sym f)
        ∙ ap (λ (t : ℕ). ok (v, t)) (omega (arith, length-append pre v)))
  ascii_typed-reads_back (llvar max_len) field v pre rest f b e =
      let same : ascii_var 2 99 max_len v ≡ format_dec 2 (length v) ++ v =
        ascii_var-eq 2 99 max_len v f b in
      rw same (
        var_reads_back 2 field max_len v pre rest (rw same at e) f
          (parse_usize-format2 (length v) (omega arith)))
  ascii_typed-reads_back (lllvar max_len) field v pre rest f b e =
      let same : ascii_var 3 999 max_len v ≡ format_dec 3 (length v) ++ v =
        ascii_var-eq 3 999 max_len v f b in
      rw same (
        var_reads_back 3 field max_len v pre rest (rw same at e) f
          (parse_usize-format3 (length v) (omega arith)))
  ascii_typed-reads_back (llllvar max_len) field v pre rest f b e =
      let same : ascii_var 4 9999 max_len v ≡ format_dec 4 (length v) ++ v =
        ascii_var-eq 4 9999 max_len v f b in
      rw same (
        var_reads_back 4 field max_len v pre rest (rw same at e) f
          (parse_usize-format4 (length v) (omega arith)))

  pub ascii_reads_back :
      (k : ℕ) (v pre rest : List ℕ)
      → FitsType (get_field_type k) v
      → Behind buf pre (ascii_element (get_field_type k) v) rest
      → ascii_reader std buf k (length pre)
        ≡ ok (v, length (pre ++ ascii_element (get_field_type k) v))
  unfolding ascii_reader
  ascii_reads_back k v pre rest f e =
      ascii_typed-reads_back (get_field_type k) k v pre rest f (get_field_type-IsBounded k) e
