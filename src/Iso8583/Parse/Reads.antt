-- ===== src/Iso8583/Parse/Reads.antt =====
-- Reading what stands behind a known part of the buffer, in solomon-core/src/iso8583.rs.

use project_solomon.Prelude.{ℕ, ◌+◌, ◌≤◌, ◌≡◌, refl, sym, ap, ◌∙◌, arith}
use project_solomon.Prelude.{List, [], ◌∷◌, ◌++◌, append_assoc, length}
use project_solomon.Prelude.{length-append, take, drop, take-append, drop-append, All}
use project_solomon.Prelude.{◌==◌, ok, Bool-cases, inl, inr}
use project_solomon.Iso8583.Schema.{
  FieldType, fixed, llvar, lllvar, llllvar, schema, type_in, get_field_type,
}
use project_solomon.Iso8583.Parse.{slice, need, read_fixed, read_var}
use project_solomon.Iso8583.Serialize.{fit_fixed}

-- A payload that its element can carry without padding or truncation.
abbrev pub FitsType : FieldType → List ℕ → Type 0
FitsType (fixed len) v = length v ≡ len
FitsType (llvar max_len) v = length v ≤ max_len
FitsType (lllvar max_len) v = length v ≤ max_len
FitsType (llllvar max_len) v = length v ≤ max_len

-- The bound of an element fits the digits of its length.
abbrev pub IsBounded : FieldType → Type 0
IsBounded (fixed len) = Unit {0}
IsBounded (llvar max_len) = max_len ≤ 99
IsBounded (lllvar max_len) = max_len ≤ 999
IsBounded (llllvar max_len) = max_len ≤ 9999

type_in-IsBounded :
    (table : List (ℕ × FieldType)) (k : ℕ)
    → All (λ (e : ℕ × FieldType). IsBounded e.1) table
    → IsBounded (type_in table k)
unfolding type_in
type_in-IsBounded [] k h = omega arith
type_in-IsBounded ((n, t) ∷ rest) k (h, hs) = elim (Bool-cases (k == n)) [
  | inl e ↦ rw e h
  | inr e ↦ rw e (type_in-IsBounded rest k hs)
]

pub get_field_type-IsBounded : (k : ℕ) → IsBounded (get_field_type k)
unfolding get_field_type
get_field_type-IsBounded k = type_in-IsBounded schema k (omega arith)

pub need-le : (buf : List ℕ) (end : ℕ) → end ≤ length buf → need buf end ≡ ok tt
unfolding need
need-le buf end h = ground arith

-- `x` stands in the buffer behind `pre`.
abbrev pub Behind : List ℕ → List ℕ → List ℕ → List ℕ → Type 0
Behind buf pre x rest = buf ≡ pre ++ (x ++ rest)

pub Behind-length :
    (buf pre x rest : List ℕ) → Behind buf pre x rest → length pre + length x ≤ length buf
Behind-length buf pre x rest e =
    omega (arith, ap (λ t. length t) e, length-append pre (x ++ rest), length-append x rest)

pub slice-Behind :
    (buf pre x rest : List ℕ) (offset len : ℕ)
    → Behind buf pre x rest
    → offset ≡ length pre
    → len ≡ length x
    → slice buf offset len ≡ x
unfolding slice
slice-Behind buf pre x rest offset len e o l =
    ap (λ t. take len (drop offset t)) e
    ∙ ap (λ t. take len t) (drop-append offset pre (x ++ rest) (sym o))
    ∙ take-append len x rest (sym l)

pub read_fixed-Behind :
    (buf pre x rest : List ℕ) (offset len : ℕ)
    → Behind buf pre x rest
    → offset ≡ length pre
    → len ≡ length x
    → read_fixed buf len offset ≡ ok (x, offset + len)
unfolding read_fixed
read_fixed-Behind buf pre x rest offset len e o l = rw (
  need-le buf (offset + len) (omega (arith, Behind-length buf pre x rest e, o, l)),
  slice-Behind buf pre x rest offset len e o l,
)

pub read_var-Behind :
    (buf pre x rest : List ℕ) (field max_len offset : ℕ)
    → Behind buf pre x rest
    → offset ≡ length pre
    → length x ≤ max_len
    → read_var buf field max_len (length x, offset) ≡ ok (x, offset + length x)
unfolding read_var
read_var-Behind buf pre x rest field max_len offset e o l =
    ground (arith, read_fixed-Behind buf pre x rest offset (length x) e o refl)

pub fit_fixed-eq : (len : ℕ) (v : List ℕ) → length v ≡ len → fit_fixed len v ≡ v
unfolding fit_fixed
fit_fixed-eq len v h = ground arith

-- Moving the header over to the part that has been read.
pub Behind-header :
    (buf pre header x rest : List ℕ)
    → Behind buf pre (header ++ x) rest
    → Behind buf (pre ++ header) x rest
Behind-header buf pre header x rest e =
    e ∙ ap (λ t. pre ++ t) (append_assoc header x rest) ∙ sym (append_assoc pre header (x ++ rest))

pub Behind-first :
    (buf pre header x rest : List ℕ)
    → Behind buf pre (header ++ x) rest
    → Behind buf pre header (x ++ rest)
Behind-first buf pre header x rest e = e ∙ ap (λ t. pre ++ t) (append_assoc header x rest)
