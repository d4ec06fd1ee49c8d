-- ===== src/Bcd/Digits.antt =====
-- Packing digits and unpacking them again, in solomon-core/src/bcd.rs.
use project_solomon.Prelude.{ℕ, ◌+◌, ◌-◌, ◌/◌, ◌%◌, ◌≤◌, ◌<◌, ◌≡◌, refl, sym, ap, ◌∙◌}
use project_solomon.Prelude.{arith, ◌>>=◌, ok, List, [], ◌∷◌, ◌++◌}
use project_solomon.Prelude.{bit_or, length, length-append, All, false}
use project_solomon.Prelude.{append-nil, append_assoc}
use project_solomon.Bcd.{shl4, digit_to_val, pack_pairs}
use project_solomon.Bcd.{pack_right, pack_bcd_right_padded, unpack_loop, unpack_bcd}
use project_solomon.Bcd.{low_nibble, str_len}
use project_solomon.Bcd.Nibbles.{high-packed, low-packed, low_nibble-eq}
use project_solomon.Prelude.{Bool, take_all, ◌⊎◌, inl}

-- '0'..='9'
abbrev pub IsDigit : ℕ → Type 0
IsDigit c = (b'0' ≤ c) × (c ≤ b'9')

-- What the digits pack to, two to a byte, with `pad` behind a last one.
unfoldable pub packed : ℕ → List ℕ → List ℕ
packed pad [] = []
packed pad (c1 ∷ []) = bit_or (shl4 (c1 - b'0')) (low_nibble pad) ∷ []
packed pad (c1 ∷ c2 ∷ rest) = bit_or (shl4 (c1 - b'0')) (c2 - b'0') ∷ packed pad rest

pub digit_to_val-digit : (c : ℕ) → IsDigit c → digit_to_val c ≡ ok (c - b'0')
unfolding digit_to_val
digit_to_val-digit c h = ground arith

pub pack_pairs-packed :
    (pad : ℕ) (out cs : List ℕ)
    → All IsDigit cs
    → length cs % 2 ≡ 0
    → pack_pairs out cs ≡ ok (out ++ packed pad cs)
unfolding pack_pairs packed
pack_pairs-packed pad out [] h e = ap ok (sym (append-nil out))
pack_pairs-packed pad out (c1 ∷ []) h e = absurd (omega arith)
pack_pairs-packed pad out (c1 ∷ c2 ∷ rest) (h1, (h2, hs)) e =
    let byte : ℕ = bit_or (shl4 (c1 - b'0')) (c2 - b'0') in
    rw (digit_to_val-digit c1 h1, digit_to_val-digit c2 h2)
      (pack_pairs-packed pad (out ++ (byte ∷ [])) rest hs (omega arith)
        ∙ ap ok (append_assoc out (byte ∷ []) (packed pad rest)))

pub pack_right-packed :
    (pad : ℕ) (out cs : List ℕ) → All IsDigit cs → pack_right pad out cs ≡ ok (out ++ packed pad cs)
unfolding pack_right packed
pack_right-packed pad out [] h = ap ok (sym (append-nil out))
pack_right-packed pad out (c1 ∷ []) (h1, _) = rw (digit_to_val-digit c1 h1)
pack_right-packed pad out (c1 ∷ c2 ∷ rest) (h1, (h2, hs)) =
    let byte : ℕ = bit_or (shl4 (c1 - b'0')) (c2 - b'0') in
    rw (digit_to_val-digit c1 h1, digit_to_val-digit c2 h2)
      (pack_right-packed pad (out ++ (byte ∷ [])) rest hs
        ∙ ap ok (append_assoc out (byte ∷ []) (packed pad rest)))

pub length-packed : (pad : ℕ) (cs : List ℕ) → length (packed pad cs) ≡ (length cs + 1) / 2
unfolding packed
length-packed pad [] = omega arith
length-packed pad (c1 ∷ []) = omega arith
length-packed pad (c1 ∷ c2 ∷ rest) = omega (arith, length-packed pad rest)

low_nibble-le : (b : ℕ) → low_nibble b < 16
low_nibble-le b = omega (arith, low_nibble-eq b)

pub str_len-digits : (cs : List ℕ) → All IsDigit cs → str_len cs ≡ length cs
unfolding str_len
str_len-digits [] h = refl
str_len-digits (c ∷ cs) (h, hs) = ground (arith, str_len-digits cs hs)

pub digit_back : (c : ℕ) → IsDigit c → b'0' + (c - b'0') ≡ c
digit_back c h = omega arith

-- One full byte gives its two digits.
unpack_loop_pair :
    (n : ℕ) (left : Bool) (out : List ℕ) (c1 c2 : ℕ) (bs : List ℕ)
    → IsDigit c1
    → IsDigit c2
    → length out + 2 ≤ n
    → unpack_loop n left out (bit_or (shl4 (c1 - b'0')) (c2 - b'0') ∷ bs)
      ≡ unpack_loop n left ((out ++ (c1 ∷ [])) ++ (c2 ∷ [])) bs
unfolding unpack_loop
unpack_loop_pair n left out c1 c2 bs h1 h2 room =
    rw
      (
        high-packed (c1 - b'0') (c2 - b'0') (omega arith) (omega arith),
        low-packed (c1 - b'0') (c2 - b'0') (omega arith) (omega arith),
        digit_back c1 h1,
        digit_back c2 h2,
      )
      (ground (arith, length-append out (c1 ∷ [])))

-- A last byte gives its high digit alone when only that one is wanted.
unpack_loop_last :
    (n : ℕ) (left : Bool) (out : List ℕ) (c1 l : ℕ)
    → IsDigit c1
    → l < 16
    → length out + 1 ≡ n
    → unpack_loop n left out (bit_or (shl4 (c1 - b'0')) l ∷ []) ≡ ok (out ++ (c1 ∷ []))
unfolding unpack_loop
unpack_loop_last n left out c1 l h1 hl room =
    rw
      (
        high-packed (c1 - b'0') l (omega arith) hl,
        low-packed (c1 - b'0') l (omega arith) hl,
        digit_back c1 h1,
      )
      (ground (arith, length-append out (c1 ∷ [])))

two_more :
    (out : List ℕ) (c1 c2 : ℕ) (rest : List ℕ)
    → ((out ++ (c1 ∷ [])) ++ (c2 ∷ [])) ++ rest ≡ out ++ (c1 ∷ c2 ∷ rest)
two_more out c1 c2 rest =
    append_assoc (out ++ (c1 ∷ [])) (c2 ∷ []) rest ∙ append_assoc out (c1 ∷ []) (c2 ∷ rest)

length_two_more :
    (out : List ℕ) (c1 c2 : ℕ) → length ((out ++ (c1 ∷ [])) ++ (c2 ∷ [])) ≡ length out + 2
length_two_more out c1 c2 =
    omega (arith, length-append (out ++ (c1 ∷ [])) (c2 ∷ []), length-append out (c1 ∷ []))

pub unpack_loop-packed :
    (n pad : ℕ) (left : Bool) (out cs : List ℕ)
    → All IsDigit cs
    → length out + length cs ≡ n
    → unpack_loop n left out (packed pad cs) ≡ ok (out ++ cs)
unfolding packed
unpack_loop-packed n pad left out [] h e = unfold unpack_loop in ap ok (sym (append-nil out))
unpack_loop-packed n pad left out (c1 ∷ []) (h1, _) e =
    unpack_loop_last n left out c1 (low_nibble pad) h1 (low_nibble-le pad) (omega arith)
unpack_loop-packed n pad left out (c1 ∷ c2 ∷ rest) (h1, (h2, hs)) e =
    unpack_loop_pair n left out c1 c2 (packed pad rest) h1 h2 (omega arith)
    ∙ unpack_loop-packed n pad left ((out ++ (c1 ∷ [])) ++ (c2 ∷ [])) rest hs
        (omega (arith, length_two_more out c1 c2))
    ∙ ap ok (two_more out c1 c2 rest)

-- Unpacking the bytes of right-padded digits, and of an even number of digits under either flag.
pub unpack_bcd-packed :
    (pad : ℕ) (left : Bool) (cs : List ℕ)
    → All IsDigit cs
    → (left ≡ false) ⊎ (length cs % 2 ≡ 0)
    → unpack_bcd (packed pad cs) (length cs) left ≡ ok cs
unfolding unpack_bcd
unpack_bcd-packed pad left cs h e = ground (
  arith,
  length-packed pad cs,
  take_all ((length cs + 1) / 2) (packed pad cs),
  unpack_loop-packed (length cs) pad left [] cs h (omega arith),
)

-- Digits that are packed with a padded right end unpack to themselves, whatever the padding nibble.
pub unpack-pack_right_padded :
    (trim : List ℕ → List ℕ) (cs : List ℕ) (pad : ℕ)
    → All IsDigit cs
    → trim cs ≡ cs
    → (pack_bcd_right_padded trim cs pad >>= λ bytes. unpack_bcd bytes (length cs) false) ≡ ok cs
unfolding pack_bcd_right_padded
unpack-pack_right_padded trim cs pad h t =
    rw (t, pack_right-packed pad [] cs h) (unpack_bcd-packed pad false cs h (inl refl))
