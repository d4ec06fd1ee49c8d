-- ===== src/Iso8583/Parse/Elements.antt =====
-- The element loop of the parsers of solomon-core/src/iso8583.rs, for any reader of elements.
use project_solomon.Prelude.{ℕ, zero, suc, ◌+◌, ◌≤◌, ◌<◌, ◌≡◌, refl, sym, ap, ◌∙◌, arith}
use project_solomon.Prelude.{true, false, List, [], ◌∷◌, ◌++◌, append_assoc, append-nil, length}
use project_solomon.Prelude.{All, ◌==◌, ok}
use project_solomon.Prelude.{Bool-cases, inl, inr, All-append, ==_iff}
use mathlib.Core.Path.{subst}
use project_solomon.Iso8583.Message.{Fields, insert}
use project_solomon.Iso8583.Message.Laws.{IsSortedFrom}
use project_solomon.Iso8583.Bitmap.{is_set}
use project_solomon.Iso8583.Bitmap.Members.{has_key}
use project_solomon.Iso8583.Parse.{Reader, parse_elements}

-- Every number in the map is below `n`.
abbrev pub IsBelow : ℕ → Fields → Type 0
IsBelow n m = All (λ (f : ℕ × List ℕ). f.0 < n) m

pub IsBelow-mono : (n n' : ℕ) (m : Fields) → n ≤ n' → IsBelow n m → IsBelow n' m
IsBelow-mono n n' [] h b = tt
IsBelow-mono n n' ((k, v) ∷ m) h (hk, b) = (omega arith, IsBelow-mono n n' m h b)

pub insert_last :
    (k : ℕ) (v : List ℕ) (m : Fields) → IsBelow k m → insert k v m ≡ m ++ ((k, v) ∷ [])
unfolding insert
insert_last k v [] b = refl
insert_last k v ((j, w) ∷ m) (hj, b) = ground (arith, insert_last k v m b)

has_key_below : (n lo : ℕ) (m : Fields) → n < lo → IsSortedFrom lo m → has_key n m ≡ false
unfolding has_key
has_key_below n lo [] h s = refl
has_key_below n lo ((k, v) ∷ m) h (hk, s) = ground (arith, has_key_below n (k + 1) m)

has_key_cons : (n k : ℕ) (v : List ℕ) (m : Fields) → k < n → has_key n ((k, v) ∷ m) ≡ has_key n m
unfolding has_key
has_key_cons n k v m h = ground arith

has_key_nil : (n : ℕ) → has_key n [] ≡ false
unfolding has_key
has_key_nil n = refl

has_key_at : (n k : ℕ) (v : List ℕ) (m : Fields) → n ≡ k → has_key n ((k, v) ∷ m) ≡ true
unfolding has_key
has_key_at n k v m e = ground arith

parse_elements_skip :
    (reader : Reader) (bitmap : List ℕ) (rounds field offset : ℕ) (acc : Fields)
    → is_set bitmap field ≡ false
    → parse_elements reader bitmap (suc rounds) field offset acc
      ≡ parse_elements reader bitmap rounds (field + 1) offset acc
unfolding parse_elements
parse_elements_skip reader bitmap rounds field offset acc e = rw (e, parse_elements)

parse_elements_take :
    (reader : Reader) (bitmap : List ℕ) (rounds field offset next : ℕ) (v : List ℕ) (acc : Fields)
    → is_set bitmap field ≡ true
    → reader field offset ≡ ok (v, next)
    → parse_elements reader bitmap (suc rounds) field offset acc
      ≡ parse_elements reader bitmap rounds (field + 1) next (insert field v acc)
unfolding parse_elements
parse_elements_take reader bitmap rounds field offset next v acc e r = rw (e, parse_elements) (rw r)

-- The elements one after the other, each written by `write`.
unfoldable pub joined : (ℕ → List ℕ → List ℕ) → Fields → List ℕ
joined write [] = []
joined write ((k, v) ∷ m) = write k v ++ joined write m

module _ (reader : Reader) (buf bitmap : List ℕ) (write : ℕ → List ℕ → List ℕ)
    (Fits : ℕ × List ℕ → Type 0)
    (reads_back : (k : ℕ) (v pre rest : List ℕ)
      → Fits (k, v)
      → buf ≡ pre ++ (write k v ++ rest)
      → reader k (length pre) ≡ ok (v, length (pre ++ write k v))) where
  -- Where the bitmap has the bits of the fields that are left, and the buffer their texts behind
  -- `pre`, the loop adds just these fields to those that it has.
  pub parse_elements-joined :
      (rounds field : ℕ) (pre : List ℕ) (m acc : Fields)
      → IsSortedFrom field m
      → IsBelow (field + rounds) m
      → All Fits m
      → ((n : ℕ) → field ≤ n → n < field + rounds → is_set bitmap n ≡ has_key n m)
      → buf ≡ pre ++ joined write m
      → IsBelow field acc
      → parse_elements reader bitmap rounds field (length pre) acc ≡ ok (acc ++ m)
  unfolding parse_elements joined
  parse_elements-joined zero field pre [] acc s b f bits e below = ap ok (sym (append-nil acc))
  parse_elements-joined zero field pre ((k, v) ∷ m) acc (hk, s) (hb, b) f bits e below =
      absurd (omega arith)
  parse_elements-joined (suc rounds) field pre [] acc s b f bits e below =
      parse_elements_skip reader bitmap rounds field (length pre) acc
        (bits field (omega arith) (omega arith) ∙ has_key_nil field)
      ∙ (parse_elements-joined rounds (field + 1) pre [] acc tt tt tt
          (λ n lo hi. bits n (omega arith) (omega arith)) e
          (IsBelow-mono field (field + 1) acc (omega arith) below))
  parse_elements-joined (suc rounds) field pre ((k, v) ∷ m) acc (hk, s) (hb, b) (fk, fs) bits e
        below =
      elim (Bool-cases (field == k)) [
        | inl same ↦
            let here : k ≡ field = sym ((==_iff field k).0 same) in
            let acc' : Fields = acc ++ ((k, v) ∷ []) in
            parse_elements_take reader bitmap rounds field (length pre) (length (pre ++ write k v))
              v acc (bits field (omega arith) (omega arith) ∙ has_key_at field k v m (sym here))
              (subst (λ t. reader t (length pre) ≡ ok (v, length (pre ++ write k v))) here
                (reads_back k v pre (joined write m) fk e))
            ∙ ap
                (λ t. parse_elements reader bitmap rounds (field + 1) (length (pre ++ write k v)) t)
                (insert_last field v acc below ∙ ap (λ t. acc ++ ((t, v) ∷ [])) (sym here))
            ∙ (parse_elements-joined rounds (field + 1) (pre ++ write k v) m acc'
                  (subst (λ t. IsSortedFrom (t + 1) m) here s)
                  (subst (λ t. IsBelow t m) (omega arith) b) fs
                  (λ n lo hi.
                    bits n (omega arith) (omega arith) ∙ has_key_cons n k v m (omega arith))
                  (e ∙ sym (append_assoc pre (write k v) (joined write m)))
                  (All-append (λ (f : ℕ × List ℕ). f.0 < field + 1) acc ((k, v) ∷ [])
                    (IsBelow-mono field (field + 1) acc (omega arith) below) (omega arith, tt))
                ∙ ap ok (append_assoc acc ((k, v) ∷ []) m))
        | inr differ ↦
            let above : field < k = ground arith in
            parse_elements_skip reader bitmap rounds field (length pre) acc (
              bits field (omega arith) (omega arith)
              ∙ has_key_below field k ((k, v) ∷ m) above (omega arith, s))
            ∙ (parse_elements-joined rounds (field + 1) pre ((k, v) ∷ m) acc
                (omega (arith, above), s) (omega arith, subst (λ t. IsBelow t m) (omega arith) b)
                (fk, fs) (λ n lo hi. bits n (omega arith) (omega arith)) e
                (IsBelow-mono field (field + 1) acc (omega arith) below))
      ]
