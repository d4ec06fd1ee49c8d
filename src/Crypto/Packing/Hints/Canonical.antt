-- ===== src/Crypto/Packing/Hints/Canonical.antt =====
-- A hint has one encoding only: what `unpack_hint` of solomon-core/src/crypto/packing.rs accepts is
-- what `pack_hint` writes.
use project_solomon.Prelude.{
  ℕ, zero, suc, ◌+◌, ◌-◌, ◌<◌, ◌≤◌, ◌≢◌, List, [], ◌∷◌, get_or, set, length, All, get_or-set_self,
  get_or-set_ne, length-set,
}
use project_solomon.Prelude.{
  ◌≡◌, refl, sym, ap, ap₂, ◌∙◌, arith, not, ◌||◌, ltb, ◌==◌, Bool-cases, inl, inr, ltb→lt,
}
use project_solomon.Prelude.{Result, ok}
use mathlib.Core.Path.{subst}
use native.Mathlib.Decide.{ℕ_discrete}
use native.Mathlib.Nat.{mod-eq_of_lt}
use project_solomon.Prelude.Radix.{entries, Fits, length-entries}
use project_solomon.Crypto.Packing.{as_u8}
use project_solomon.Crypto.Packing.Hints.{
  MlDsaError, pack_hint_row, pack_hint_rows, pack_hint, unpack_hint_row, unpack_hint_rows,
  check_padding, unpack_hint, no_index,
}
use project_solomon.Crypto.Packing.Hints.Rows.{
  writes, row_read, pack_mark, guard_ok, bind_ok, zeros,
}
use project_solomon.Crypto.Packing.Keys.Vectors.{IsBuffer}

-- Buffers that agree at every index are equal.
pub ext_get_or :
    (xs ys : List ℕ)
    → length xs ≡ length ys
    → ((x : ℕ) → x < length xs → get_or xs x 0 ≡ get_or ys x 0)
    → xs ≡ ys
ext_get_or [] [] e h = refl
ext_get_or [] (y ∷ ys) e h = absurd (omega arith)
ext_get_or (x ∷ xs) [] e h = absurd (omega arith)
ext_get_or (x ∷ xs) (y ∷ ys) e h =
    ap₂ ◌∷◌ (h 0 (omega arith)) (ext_get_or xs ys (omega arith) (λ i k. h (suc i) (omega arith)))

get_or-zeros : (n x : ℕ) → get_or (zeros n) x 0 ≡ 0
get_or-zeros zero x = refl
get_or-zeros (suc n) zero = refl
get_or-zeros (suc n) (suc x) = get_or-zeros n x

-- The written buffer agrees with the one that was read below the index, and on the first `i` counts,
-- and has zeros from the index up to the counts.
record Written (buf : List ℕ) (index i : ℕ) (out : List ℕ) : Type 0 where
  size_61 : length out ≡ 61
  below : (x : ℕ) → x < index → get_or out x 0 ≡ get_or buf x 0
  clear : (x : ℕ) → index ≤ x → x < 55 → get_or out x 0 ≡ 0
  counts : (x : ℕ) → 55 ≤ x → x < 55 + i → get_or out x 0 ≡ get_or buf x 0

write_one :
    (buf : List ℕ) (index i : ℕ) (out : List ℕ)
    → index < 55
    → Written buf index i out
    → Written buf (suc index) i (set out index (get_or buf index 0))
write_one buf index i out h w =
    let same : (v x : ℕ) → index ≢ x → get_or (set out index v) x 0 ≡ get_or out x 0 =
      λ v x ne. get_or-set_ne out index x v 0 ne in
    record {
      size_61 = length-set out index (get_or buf index 0) ∙ w.size_61;
      below = λ x k. elim (ℕ_discrete index x) [
        | yes e ↦
            ap (λ (t : ℕ). get_or (set out index (get_or buf index 0)) t 0) (sym e)
            ∙ get_or-set_self out index (get_or buf index 0) 0 (omega (arith, w.size_61))
            ∙ ap (λ (t : ℕ). get_or buf t 0) e
        | no ne ↦ same _ x ne ∙ w.below x (ground arith)
      ];
      clear = λ x k l. same _ x (λ e. absurd (omega arith)) ∙ w.clear x (omega arith) l;
      counts = λ x k l. same _ x (λ e. absurd (omega arith)) ∙ w.counts x k l;
    }

written :
    (n : ℕ) (buf : List ℕ) (index i : ℕ) (out : List ℕ)
    → index + n ≤ 55
    → Written buf index i out
    → Written buf (index + n) i (writes out index (entries index n buf))
unfolding writes entries
written zero buf index i out h w =
    let none_left : index ≡ index + zero = omega arith in
    subst (λ (t : ℕ). Written buf t i out) none_left w
written (suc n) buf index i out h w =
    let count : suc index + n ≡ index + suc n = omega arith in
    subst
      (λ (t : ℕ).
        Written buf t i
          (writes (set out index (get_or buf index 0)) (suc index) (entries (suc index) n buf)))
      count
      (written n buf (suc index) i (set out index (get_or buf index 0)) (omega arith)
        (write_one buf index i out (omega arith) w))

write_count :
    (buf : List ℕ) (index i : ℕ) (out : List ℕ)
    → i < 6
    → index ≤ 55
    → index ≡ get_or buf (55 + i) 0
    → Written buf index i out
    → Written buf index (suc i) (set out (55 + i) (as_u8 index))
unfolding as_u8
write_count buf index i out h k e w =
    let same : (v x : ℕ) → 55 + i ≢ x → get_or (set out (55 + i) v) x 0 ≡ get_or out x 0 =
      λ v x ne. get_or-set_ne out (55 + i) x v 0 ne in
    record {
      size_61 = length-set out (55 + i) (as_u8 index) ∙ w.size_61;
      below = λ x l. same _ x (λ d. absurd (omega arith)) ∙ w.below x l;
      clear = λ x l m. same _ x (λ d. absurd (omega arith)) ∙ w.clear x l m;
      counts = λ x l m. elim (ℕ_discrete (55 + i) x) [
        | yes d ↦
            ap (λ (t : ℕ). get_or (set out (55 + i) (as_u8 index)) t 0) (sym d)
            ∙ get_or-set_self out (55 + i) (as_u8 index) 0 (omega (arith, w.size_61))
            ∙ mod-eq_of_lt (omega arith)
            ∙ e
            ∙ ap (λ (t : ℕ). get_or buf t 0) d
        | no ne ↦ same _ x ne ∙ w.counts x l (ground arith)
      ];
    }

up_to_count : (lc count : ℕ) → lc ≤ count → lc + (count - lc) ≡ count
up_to_count lc count h = omega arith

pub ok_injective : {A : Type 0} (a b : A) → ◌≡◌ {A = Result MlDsaError A} (ok a) (ok b) → a ≡ b
ok_injective a b h = cc

-- One row of the packing, once it is known what it writes.
rows_equal :
    (rows : List (List ℕ)) (row : List ℕ) (rows' : List (List ℕ)) (last last' i lc count : ℕ)
    (buf out out' : List ℕ)
    → pack_hint_row 0 row lc out ≡ (count, out')
    → ◌≡◌ {A = List (List ℕ) × ℕ} (rows, last) (row ∷ rows', last')
    → (last' ≤ 55)
      × Written buf last' 6 (pack_hint_rows (suc i) rows' count (set out' (55 + i) (as_u8 count)))
    → (last ≤ 55) × Written buf last 6 (pack_hint_rows i rows lc out)
unfolding pack_hint_rows
rows_equal rows row rows' last last' i lc count buf out out' e f (h, w) =
    let step : pack_hint_rows i (row ∷ rows') lc out
        ≡ pack_hint_rows (suc i) rows' count (set out' (55 + i) (as_u8 count)) =
      ap
        (λ p.
          let (index, buf) = p in
          pack_hint_rows (suc i) rows' index (set buf (55 + i) (as_u8 index)))
        e in
    subst (λ p. let (rs, l) = p in (l ≤ 55) × Written buf l 6 (pack_hint_rows i rs lc out)) (sym f)
      (h, subst (Written buf last' 6) (sym step) w)

rows_written :
    (k i : ℕ) (buf out : List ℕ) (last_count last : ℕ) (rows : List (List ℕ))
    → k + i ≡ 6
    → All (Fits 8) buf
    → last_count ≤ 55
    → unpack_hint_rows k i buf last_count ≡ ok (rows, last)
    → Written buf last_count i out
    → (last ≤ 55) × Written buf last 6 (pack_hint_rows i rows last_count out)
unfolding unpack_hint_rows pack_hint_rows
rows_written zero i buf out lc last [] e hs h q w =
    let lasts : lc ≡ last = cc in
    let all : i ≡ 6 = omega arith in
    (
      omega arith,
      subst (λ (t : ℕ). Written buf t 6 out) lasts (subst (λ (t : ℕ). Written buf lc t out) all w),
    )
rows_written zero i buf out lc last (row ∷ rows) e hs h q w = cc
rows_written (suc k) i buf out lc last rows e hs h q w =
    let count : ℕ = get_or buf (55 + i) 0 in
    let (test, rest) = guard_ok (not (ltb count lc || ltb 55 count)) _ (rows, last) q in
    let (row, reads, rest) =
      bind_ok (unpack_hint_row (count - lc) buf lc lc no_index (zeros 256)) _ (rows, last) rest in
    let ((rows', last'), reads_rows, rest) =
      bind_ok (unpack_hint_rows k (suc i) buf count) _ (rows, last) rest in
    let (marked, increases) = row_read (count - lc) buf lc row hs reads in
    let bounded : (lc ≤ count) × (count ≤ 55) = ground arith in
    let total : lc + length (entries lc (count - lc) buf) ≡ count =
      ap (λ (t : ℕ). lc + t) (length-entries lc (count - lc) buf) ∙ omega arith in
    let packed : pack_hint_row 0 row lc out ≡ (count, writes out lc (entries lc (count - lc) buf)) =
      ap (λ r. pack_hint_row 0 r lc out) marked
      ∙ pack_mark (entries lc (count - lc) buf) 0 256 lc out refl increases (omega arith)
      ∙ ap (λ (t : ℕ). (t, writes out lc (entries lc (count - lc) buf))) total in
    let w' : Written buf count i (writes out lc (entries lc (count - lc) buf)) =
      subst (λ (t : ℕ). Written buf t i (writes out lc (entries lc (count - lc) buf)))
        (up_to_count lc count (ground arith)) (written (count - lc) buf lc i out (omega arith) w) in
    rows_equal rows row rows' last last' i lc count buf out _ packed (sym (ok_injective _ _ rest)) (
      rows_written k (suc i) buf
        (set (writes out lc (entries lc (count - lc) buf)) (55 + i) (as_u8 count)) count last' rows'
        (omega arith) hs (omega arith) reads_rows
        (write_count buf count i _ (omega arith) (omega arith) refl w'))

padding_zero :
    (n : ℕ) (buf : List ℕ) (idx : ℕ)
    → check_padding n buf idx ≡ ok tt
    → (x : ℕ) → idx ≤ x
    → x < idx + n
    → get_or buf x 0 ≡ 0
unfolding check_padding
padding_zero zero buf idx q x h k = absurd (omega arith)
padding_zero (suc n) buf idx q x h k =
    let (test, rest) = guard_ok (get_or buf idx 0 == 0) _ tt q in
    elim (ℕ_discrete idx x) [
      | yes e ↦ ap (λ (t : ℕ). get_or buf t 0) (sym e) ∙ ground arith
      | no ne ↦ padding_zero n buf (suc idx) rest x (ground arith) (omega arith)
    ]

nothing_written : (buf : List ℕ) → Written buf 0 0 (zeros 61)
nothing_written buf = record {
  size_61 = refl;
  below = λ x h. absurd (omega arith);
  clear = λ x h k. get_or-zeros 61 x;
  counts = λ x h k. absurd (omega arith);
}

-- Whatever 61 bytes are accepted as a hint are the bytes that the hint packs to: no other encoding
-- of it is accepted.
pub pack_hint-unpack_hint :
    (buf : List ℕ) (h : List (List ℕ))
    → IsBuffer 61 buf
    → unpack_hint buf ≡ ok h
    → pack_hint h ≡ buf
unfolding unpack_hint pack_hint
pack_hint-unpack_hint buf h (l, hs) q =
    let ((rows, last), reads, rest) = bind_ok (unpack_hint_rows 6 0 buf 0) _ h q in
    let (u, padded, rest) = bind_ok (check_padding (55 - last) buf last) _ h rest in
    let (bounded, w) =
      rows_written 6 0 buf (zeros 61) 0 last rows refl hs (omega arith) reads
        (nothing_written buf) in
    ap (λ rs. pack_hint_rows 0 rs 0 (zeros 61)) (sym (ok_injective _ _ rest))
    ∙ ext_get_or _ buf (w.size_61 ∙ sym l) (λ x k. elim (Bool-cases (ltb x last)) [
      | inl e ↦ w.below x (ltb→lt x last e)
      | inr e ↦ elim (Bool-cases (ltb x 55)) [
        | inl f ↦
            w.clear x (ground arith) (ltb→lt x 55 f)
            ∙ sym (padding_zero (55 - last) buf last padded x (ground arith) (ground arith))
        | inr f ↦ w.counts x (ground arith) (omega (arith, w.size_61))
      ]
    ])
