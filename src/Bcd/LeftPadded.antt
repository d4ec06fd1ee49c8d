-- ===== src/Bcd/LeftPadded.antt =====
-- `pack_bcd_left_padded` and `unpack_bcd` of solomon-core/src/bcd.rs, and what packing refuses.
use project_solomon.Prelude.{ℕ, suc, ◌+◌, ◌-◌, ◌/◌, ◌%◌, ◌≡◌, refl, sym, ap}
use project_solomon.Prelude.{arith, ◌>>=◌, Result, ok, err, List, [], ◌∷◌, ◌++◌}
use project_solomon.Prelude.{bit_or, leb, ◌==◌, if◌then◌else◌, length, All, true}
use project_solomon.Prelude.{
  append-nil, append_assoc, Bool-cases, inl, inr, Option, none, some, ◌&&◌,
}
use project_solomon.Prelude.{take_all}
use project_solomon.Bcd.{BcdError, invalid_digit, shl4, digit_to_val, pack_odd, str_len}
use project_solomon.Bcd.{pack_bcd_left_padded, pack_right, pack_bcd_right_padded, unpack_bcd}
use project_solomon.Bcd.Nibbles.{low_nibble-eq}
use project_solomon.Bcd.Digits.{IsDigit, packed, digit_to_val-digit, pack_pairs-packed}
use project_solomon.Bcd.Digits.{
  unpack_bcd-packed, unpack_loop-packed, length-packed, digit_back, str_len-digits,
}

pack_odd-packed :
    (c : ℕ) (cs : List ℕ)
    → IsDigit c
    → All IsDigit cs
    → length cs % 2 ≡ 0
    → pack_odd (c ∷ cs) ≡ ok ((c - b'0') ∷ packed 0 cs)
unfolding pack_odd
pack_odd-packed c cs h hs e =
    rw (digit_to_val-digit c h) (pack_pairs-packed 0 ((c - b'0') ∷ []) cs hs e)

unpack_bcd-odd :
    (c : ℕ) (cs : List ℕ)
    → IsDigit c
    → All IsDigit cs
    → length cs % 2 ≡ 0
    → unpack_bcd ((c - b'0') ∷ packed 0 cs) (length (c ∷ cs)) true ≡ ok (c ∷ cs)
unfolding unpack_bcd
unpack_bcd-odd c cs h hs e = ground (
  arith,
  low_nibble-eq (c - b'0'),
  digit_back c h,
  length-packed 0 cs,
  take_all ((suc (length cs) + 1) / 2) ((c - b'0') ∷ packed 0 cs),
  unpack_loop-packed (suc (length cs)) 0 true (c ∷ []) cs hs (omega arith),
)

-- Digits that are packed with a padded left end unpack to themselves, an odd number of them included.
unpack-pack_left_padded :
    (trim : List ℕ → List ℕ) (cs : List ℕ)
    → All IsDigit cs
    → trim cs ≡ cs
    → (pack_bcd_left_padded trim cs >>= λ bytes. unpack_bcd bytes (length cs) true) ≡ ok cs
unfolding pack_bcd_left_padded packed
unpack-pack_left_padded trim [] h t = rw t (unpack_bcd-packed 0 true [] h (inr refl))
unpack-pack_left_padded trim (c ∷ cs) h t = elim (Bool-cases (str_len (c ∷ cs) % 2 == 0)) [
  | inl even ↦
      rw (t, even, pack_pairs-packed 0 [] (c ∷ cs) h (ground (arith, str_len-digits (c ∷ cs) h)))
        (unpack_bcd-packed 0 true (c ∷ cs) h (inr (ground (arith, str_len-digits (c ∷ cs) h))))
  | inr odd ↦
      rw (t, odd, pack_odd-packed c cs h.0 h.1 (ground (arith, str_len-digits (c ∷ cs) h)))
        (unpack_bcd-odd c cs h.0 h.1 (ground (arith, str_len-digits (c ∷ cs) h)))
]

-- The first character that is no digit.
pub first_bad : List ℕ → Option ℕ
first_bad [] = none
first_bad (c ∷ cs) = if leb b'0' c && leb c b'9' then first_bad cs else some c

-- What packing gives where the first character that is no digit is `o`.
pub packed_or : Option ℕ → List ℕ → Result BcdError (List ℕ)
packed_or none bytes = ok bytes
packed_or (some c) bytes = err (invalid_digit c)

pack_right_cases :
    (pad : ℕ) (out cs : List ℕ)
    → pack_right pad out cs ≡ packed_or (first_bad cs) (out ++ packed pad cs)
unfolding pack_right first_bad packed_or packed digit_to_val
pack_right_cases pad out [] = ap ok (sym (append-nil out))
pack_right_cases pad out (c1 ∷ []) = ground arith
pack_right_cases pad out (c1 ∷ c2 ∷ rest) =
    let byte : ℕ = bit_or (shl4 (c1 - b'0')) (c2 - b'0') in
    ground (
      arith,
      pack_right_cases pad (out ++ (byte ∷ [])) rest,
      append_assoc out (byte ∷ []) (packed pad rest),
    )

-- `pack_bcd_right_padded` reports the first character of the trimmed text that is no digit; without
-- one it gives two digits to a byte.
pub pack_bcd_right_padded_cases :
    (trim : List ℕ → List ℕ) (cs : List ℕ) (pad : ℕ)
    → pack_bcd_right_padded trim cs pad ≡ packed_or (first_bad (trim cs)) (packed pad (trim cs))
unfolding pack_bcd_right_padded
pack_bcd_right_padded_cases trim cs pad = pack_right_cases pad [] (trim cs)
