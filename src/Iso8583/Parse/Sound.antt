-- ===== src/Iso8583/Parse/Sound.antt =====
-- What the parser of solomon-core/src/iso8583.rs returns for ASCII input.
use project_solomon.Prelude.{ℕ, zero, suc, ◌+◌, ◌≤◌, ◌<◌, ◌≡◌, sym, arith}
use project_solomon.Prelude.{List, [], ◌∷◌, length, drop, All}
use project_solomon.Prelude.{length-take, length-drop, Bool-cases, inl, inr, ltb}
use project_solomon.Prelude.{Result, ok, err, ◌>>=◌}
use project_solomon.Prelude.{Returns, Returns-bind}
use project_solomon.Iso8583.Schema.{
  FieldType, fixed, llvar, lllvar, llllvar, get_field_type, Iso8583Error,
}
use mathlib.Core.Path.{subst}
use project_solomon.Prelude.{All-append}
use project_solomon.Iso8583.Message.{Fields, insert}
use project_solomon.Iso8583.Message.Laws.{IsSortedFrom, insert-IsSortedFrom}
use project_solomon.Iso8583.Parse.Elements.{insert_last, IsBelow-mono}
use project_solomon.Iso8583.Bitmap.{is_set}
use project_solomon.Iso8583.Serialize.{Std}
use project_solomon.Iso8583.Parse.{
  slice, need, read_fixed, read_var, ascii_header, ascii_typed, ascii_reader,
}
use project_solomon.Iso8583.Parse.{Reader, parse_elements}
use project_solomon.Iso8583.Parse.Elements.{IsBelow}
use project_solomon.Iso8583.Parse.Reads.{FitsType}

pub need-Returns : (buf : List ℕ) (end : ℕ) → Returns (λ u. end ≤ length buf) (need buf end)
unfolding need
need-Returns buf end = ground arith

pub length-slice :
    (buf : List ℕ) (offset len : ℕ)
    → offset + len ≤ length buf
    → length (slice buf offset len) ≡ len
unfolding slice
length-slice buf offset len h =
    omega (arith, length-take len (drop offset buf), length-drop offset buf)

-- The data that is read has the length that was asked for.
read_fixed-Returns :
    (buf : List ℕ) (len offset : ℕ)
    → Returns (λ (r : List ℕ × ℕ). length r.0 ≡ len) (read_fixed buf len offset)
unfolding read_fixed
read_fixed-Returns buf len offset =
    Returns-bind (λ u. offset + len ≤ length buf) _ (need buf (offset + len)) _
      (need-Returns buf (offset + len)) (λ u h. length-slice buf offset len h)

read_var-Returns :
    (buf : List ℕ) (field max_len : ℕ) (header : ℕ × ℕ)
    → Returns (λ (r : List ℕ × ℕ). length r.0 ≤ max_len) (read_var buf field max_len header)
unfolding read_var
read_var-Returns buf field max_len (len, offset) = elim (Bool-cases (ltb max_len len)) [
  | inl e ↦ rw e tt
  | inr e ↦ rw e (
      Returns-bind (λ u. offset + len ≤ length buf) _ (need buf (offset + len)) _
        (need-Returns buf (offset + len)) (λ u h. ground (arith, length-slice buf offset len h)))
]

module _ (std : Std) (buf : List ℕ) where
  var-Returns :
      (field max_len : ℕ) (header : Result Iso8583Error (ℕ × ℕ))
      → Returns (λ (r : List ℕ × ℕ). length r.0 ≤ max_len) (header >>= read_var buf field max_len)
  var-Returns field max_len (ok header) = read_var-Returns buf field max_len header
  var-Returns field max_len (err e) = tt

  ascii_typed-Returns :
      (t : FieldType) (field offset : ℕ)
      → Returns (λ (r : List ℕ × ℕ). FitsType t r.0) (ascii_typed std buf t field offset)
  unfolding ascii_typed
  ascii_typed-Returns (fixed len) field offset = read_fixed-Returns buf len offset
  ascii_typed-Returns (llvar max_len) field offset =
      var-Returns field max_len (ascii_header std buf 2 field offset)
  ascii_typed-Returns (lllvar max_len) field offset =
      var-Returns field max_len (ascii_header std buf 3 field offset)
  ascii_typed-Returns (llllvar max_len) field offset =
      var-Returns field max_len (ascii_header std buf 4 field offset)

  pub ascii_reader-Returns :
      (field offset : ℕ)
      → Returns
          (λ (r : List ℕ × ℕ). FitsType (get_field_type field) r.0)
          (ascii_reader std buf field offset)
  unfolding ascii_reader
  ascii_reader-Returns field offset = ascii_typed-Returns (get_field_type field) field offset

-- Fields in ascending order, from 2 to below a number, whose payloads have the lengths of their types.
pub record IsRead (n : ℕ) (m : Fields) : Type 0 where
  pub sorted : IsSortedFrom 2 m
  pub below : IsBelow n m
  pub fits : All (λ (f : ℕ × List ℕ). FitsType (get_field_type f.0) f.1) m

pub IsRead-nil : IsRead 2 []
IsRead-nil = record { sorted = tt; below = tt; fits = tt }

IsRead-next : (n : ℕ) (m : Fields) → IsRead n m → IsRead (n + 1) m
IsRead-next n m h = record {
  sorted = h.sorted;
  below = IsBelow-mono n (n + 1) m (omega arith) h.below;
  fits = h.fits;
}

pub IsRead-mono : (n n' : ℕ) (m : Fields) → n ≤ n' → IsRead n m → IsBelow n' m
IsRead-mono n n' m le h = IsBelow-mono n n' m le h.below

insert-IsRead :
    (n : ℕ) (v : List ℕ) (m : Fields)
    → 2 ≤ n
    → FitsType (get_field_type n) v
    → IsRead n m
    → IsRead (n + 1) (insert n v m)
insert-IsRead n v m lo f h = record {
  sorted = insert-IsSortedFrom 2 n v m lo h.sorted;
  below = subst (IsBelow (n + 1)) (sym (insert_last n v m h.below)) (
      All-append (λ (f : ℕ × List ℕ). f.0 < n + 1) m ((n, v) ∷ [])
        (IsBelow-mono n (n + 1) m (omega arith) h.below) (omega arith, tt));
  fits =
      subst (λ t. All (λ (f : ℕ × List ℕ). FitsType (get_field_type f.0) f.1) t)
        (sym (insert_last n v m h.below))
        (All-append (λ (f : ℕ × List ℕ). FitsType (get_field_type f.0) f.1) m ((n, v) ∷ []) h.fits
          (f, tt));
}

module _ (reader : Reader) (bitmap : List ℕ)
    (reads : (field offset : ℕ)
      → Returns
          (λ (r : List ℕ × ℕ). FitsType (get_field_type field) r.0)
          (reader field offset)) where
  pub parse_elements-Returns :
      (rounds field offset : ℕ) (acc : Fields)
      → 2 ≤ field
      → IsRead field acc
      → Returns (IsRead (field + rounds)) (parse_elements reader bitmap rounds field offset acc)
  unfolding parse_elements
  parse_elements-Returns zero field offset acc lo h = subst (λ t. IsRead t acc) (omega arith) h
  parse_elements-Returns (suc rounds) field offset acc lo h =
      let e : field + 1 + rounds ≡ field + suc rounds = omega arith in
      elim (Bool-cases (is_set bitmap field)) [
        | inr s ↦
            rw (s, parse_elements)
              (subst
                (λ t.
                  Returns (IsRead t) (parse_elements reader bitmap rounds (field + 1) offset acc))
                e
                (parse_elements-Returns rounds (field + 1) offset acc (omega arith)
                  (IsRead-next field acc h)))
        | inl s ↦
            rw (s, parse_elements)
              (Returns-bind (λ (r : List ℕ × ℕ). FitsType (get_field_type field) r.0) _
                (reader field offset) _ (reads field offset)
                (λ r f.
                  subst
                    (λ t.
                      Returns (IsRead t) (
                        parse_elements reader bitmap rounds (field + 1) r.1 (insert field r.0 acc)))
                    e
                    (parse_elements-Returns rounds (field + 1) r.1 (insert field r.0 acc)
                      (omega arith) (insert-IsRead field r.0 acc lo f h))))
      ]
