-- ===== src/Crypto/Packing/Hints/Rows.antt =====
-- One polynomial of a hint: the row that increasing positions mark, read and written by
-- solomon-core/src/crypto/packing.rs.
use project_solomon.Prelude.{
  ℕ, zero, suc, ◌+◌, ◌-◌, ◌<◌, ◌≤◌, List, [], ◌∷◌, ◌++◌, get_or, set, replicate, length, All,
  All-get_or,
}
use project_solomon.Prelude.{
  ◌≡◌, refl, sym, ap, ◌∙◌, arith, true, false, not, ◌&&◌, leb, ltb, append_assoc, length-append,
  length-replicate,
}
use project_solomon.Prelude.{Result, ok, err, ◌>>=◌, ◌>>◌, guard, Bool, append-nil, lt→ltb}
use native.Mathlib.Nat.{mod-eq_of_lt}
use project_solomon.Prelude.Radix.{entries, Fits}
use project_solomon.Crypto.Packing.{to_signed, as_u8}
use project_solomon.Crypto.Packing.Hints.{
  MlDsaError, invalid_signature, pack_hint_row, unpack_hint_row, no_index,
}

abbrev pub zeros : ℕ → List ℕ
zeros k = replicate k 0

pub guard_ok :
    {A : Type 0} (t : Bool) (m : Result MlDsaError A) (a : A)
    → (guard t invalid_signature >> m) ≡ ok a
    → (t ≡ true) × (m ≡ ok a)
guard_ok true m a h = (refl, h)
guard_ok false m a h = cc

pub bind_ok :
    {A B : Type 0} (m : Result MlDsaError A) (f : A → Result MlDsaError B) (b : B)
    → (m >>= f) ≡ ok b
    → (a : A) × (m ≡ ok a) × (f a ≡ ok b)
bind_ok (ok a) f b h = (a, refl, h)
bind_ok (err e) f b h = cc

-- The `m` coefficients from position `lo` on, with a one at each of the positions.
pub mark : ℕ → ℕ → List ℕ → List ℕ
mark lo m [] = zeros m
mark lo m (v ∷ vs) = zeros (v - lo) ++ (1 ∷ mark (suc v) (m - suc (v - lo)) vs)

-- Positions that increase strictly between two bounds.
pub Increasing : ℕ → ℕ → List ℕ → Type 0
Increasing lo hi [] = Unit
Increasing lo hi (v ∷ vs) = (lo ≤ v) × (v < hi) × Increasing (suc v) hi vs

-- The buffer after the positions have been written from an index on.
unfoldable pub writes : List ℕ → ℕ → List ℕ → List ℕ
writes buf i [] = buf
writes buf i (v ∷ vs) = writes (set buf i v) (suc i) vs

set-zeros : (k m : ℕ) → k < m → set (zeros m) k 1 ≡ zeros k ++ (1 ∷ zeros (m - suc k))
set-zeros k zero h = absurd (omega arith)
set-zeros zero (suc m) h =
    let left : m ≡ suc m - 1 = omega arith in ap (λ (t : ℕ). 1 ∷ zeros t) left
set-zeros (suc k) (suc m) h =
    let left : m - suc k ≡ suc m - suc (suc k) = omega arith in
    ap (λ ys. 0 ∷ ys) (set-zeros k m (omega arith) ∙ ap (λ (t : ℕ). zeros k ++ (1 ∷ zeros t)) left)

set-append :
    (front ys : List ℕ) (k v : ℕ) → set (front ++ ys) (length front + k) v ≡ front ++ set ys k v
set-append [] ys k v = ap (λ (t : ℕ). set ys t v) (omega arith)
set-append (x ∷ xs) ys k v =
    let shifted : suc (length xs) + k ≡ suc (length xs + k) = omega arith in
    ap (λ (t : ℕ). set (x ∷ xs ++ ys) t v) shifted ∙ ap (λ zs. x ∷ zs) (set-append xs ys k v)

-- A one at position `v` behind a front of `lo` coefficients.
set_mark :
    (front : List ℕ) (lo m v : ℕ)
    → length front ≡ lo
    → lo ≤ v
    → v < lo + m
    → set (front ++ zeros m) v 1
      ≡ (front ++ (zeros (v - lo) ++ (1 ∷ []))) ++ zeros (m - suc (v - lo))
set_mark front lo m v e h k =
    let at : v ≡ length front + (v - lo) = omega arith in
    ap (λ (t : ℕ). set (front ++ zeros m) t 1) at
    ∙ set-append front (zeros m) (v - lo) 1
    ∙ ap (λ ys. front ++ ys)
        (set-zeros (v - lo) m (omega arith)
          ∙ sym (append_assoc (zeros (v - lo)) (1 ∷ []) (zeros (m - suc (v - lo)))))
    ∙ sym (append_assoc front (zeros (v - lo) ++ (1 ∷ [])) _)

length_front :
    (front : List ℕ) (lo v : ℕ)
    → length front ≡ lo
    → lo ≤ v
    → length (front ++ (zeros (v - lo) ++ (1 ∷ []))) ≡ suc v
length_front front lo v e h = omega (
  arith,
  length-append front (zeros (v - lo) ++ (1 ∷ [])),
  length-append (zeros (v - lo)) (1 ∷ []),
  length-replicate {A = ℕ} (v - lo) 0,
)

front_assoc :
    (front middle rest : List ℕ)
    → (front ++ (middle ++ (1 ∷ []))) ++ rest ≡ front ++ (middle ++ (1 ∷ rest))
front_assoc front middle rest =
    append_assoc front (middle ++ (1 ∷ [])) rest
    ∙ ap (λ ys. front ++ ys) (append_assoc middle (1 ∷ []) rest)

-- What the loop reads from `idx` on, once it has read a position.
row_after :
    (n : ℕ) (buf : List ℕ) (last_count idx last m : ℕ) (front r : List ℕ)
    → All (Fits 8) buf
    → last_count < idx
    → length front ≡ suc last
    → suc last + m ≡ 256
    → unpack_hint_row n buf last_count idx last (front ++ zeros m) ≡ ok r
    → (r ≡ front ++ mark (suc last) m (entries idx n buf))
      × Increasing (suc last) 256 (entries idx n buf)
unfolding unpack_hint_row mark Increasing entries
row_after zero buf lc idx last m front r hs h e k q = (cc, tt)
row_after (suc n) buf lc idx last m front r hs h e k q =
    let v : ℕ = get_or buf idx 0 in
    let byte : v < 256 = All-get_or (Fits 8) buf idx 0 (omega arith) hs in
    let (test, rest) = guard_ok (not (leb v last && ltb lc idx)) _ r q in
    let above : last < v = ground arith in
    let marked : set (front ++ zeros m) v 1
        ≡ (front ++ (zeros (v - suc last) ++ (1 ∷ []))) ++ zeros (m - suc (v - suc last)) =
      set_mark front (suc last) m v e above (omega arith) in
    let (reads, increases) =
      row_after n buf lc (suc idx) v (m - suc (v - suc last))
        (front ++ (zeros (v - suc last) ++ (1 ∷ []))) r hs (omega arith)
        (length_front front (suc last) v e above) (omega arith)
        (ap (unpack_hint_row n buf lc (suc idx) v) (sym marked) ∙ rest) in
    (reads ∙ front_assoc front _ _, (above, byte, increases))

-- What the loop reads of a row.
pub row_read :
    (n : ℕ) (buf : List ℕ) (idx : ℕ) (r : List ℕ)
    → All (Fits 8) buf
    → unpack_hint_row n buf idx idx no_index (zeros 256) ≡ ok r
    → (r ≡ mark 0 256 (entries idx n buf)) × Increasing 0 256 (entries idx n buf)
unfolding unpack_hint_row mark Increasing entries
row_read zero buf idx r hs q = (cc, tt)
row_read (suc n) buf idx r hs q =
    let v : ℕ = get_or buf idx 0 in
    let byte : v < 256 = All-get_or (Fits 8) buf idx 0 (omega arith) hs in
    let (test, rest) = guard_ok (not (leb v no_index && ltb idx idx)) _ r q in
    let marked : set (zeros 256) v 1 ≡ (zeros (v - 0) ++ (1 ∷ [])) ++ zeros (256 - suc (v - 0)) =
      set_mark [] 0 256 v refl (omega arith) (omega arith) in
    let (reads, increases) =
      row_after n buf idx (suc idx) v (256 - suc (v - 0)) (zeros (v - 0) ++ (1 ∷ [])) r hs
        (omega arith) (length_front [] 0 v refl (omega arith)) (omega arith)
        (ap (unpack_hint_row n buf idx (suc idx) v) (sym marked) ∙ rest) in
    (reads ∙ front_assoc [] _ _, (omega arith, byte, increases))

pack_zeros :
    (k j index : ℕ) (cs buf : List ℕ)
    → pack_hint_row j (zeros k ++ cs) index buf ≡ pack_hint_row (j + k) cs index buf
unfolding pack_hint_row to_signed
pack_zeros zero j index cs buf = ap (λ (t : ℕ). pack_hint_row t cs index buf) (omega arith)
pack_zeros (suc k) j index cs buf =
    let shifted : suc j + k ≡ j + suc k = omega arith in
    pack_zeros k (suc j) index cs buf ∙ ap (λ (t : ℕ). pack_hint_row t cs index buf) shifted

pack_one :
    (v index : ℕ) (cs buf : List ℕ)
    → v < 256
    → index < 55
    → pack_hint_row v (1 ∷ cs) index buf ≡ pack_hint_row (suc v) cs (suc index) (set buf index v)
unfolding pack_hint_row to_signed as_u8
pack_one v index cs buf h k = rw (lt→ltb index 55 k, mod-eq_of_lt h) refl

-- The positions that a row marks are what the packing writes.
pub pack_mark :
    (vs : List ℕ) (lo m index : ℕ) (buf : List ℕ)
    → lo + m ≡ 256
    → Increasing lo 256 vs
    → index + length vs ≤ 55
    → pack_hint_row lo (mark lo m vs) index buf ≡ (index + length vs, writes buf index vs)
unfolding pack_hint_row mark Increasing writes as_u8
pack_mark [] lo m index buf e h k =
    ap (λ ys. pack_hint_row lo ys index buf) (sym (append-nil (zeros m)))
    ∙ pack_zeros m lo index [] buf
    ∙ ap (λ (t : ℕ). (t, buf)) (omega arith)
pack_mark (v ∷ vs) lo m index buf e (h1, h2, hs) k =
    let at : lo + (v - lo) ≡ v = omega arith in
    let count : suc index + length vs ≡ index + length (v ∷ vs) = omega arith in
    pack_zeros (v - lo) lo index (1 ∷ mark (suc v) (m - suc (v - lo)) vs) buf
    ∙ ap (λ (t : ℕ). pack_hint_row t (1 ∷ mark (suc v) (m - suc (v - lo)) vs) index buf) at
    ∙ pack_one v index (mark (suc v) (m - suc (v - lo)) vs) buf h2 (omega arith)
    ∙ pack_mark vs (suc v) (m - suc (v - lo)) (suc index) (set buf index v) (omega arith) hs
        (omega arith)
    ∙ ap (λ (t : ℕ). (t, writes (set buf index v) (suc index) vs)) count
