-- ===== src/Bcd/Tests.antt =====
-- The theorems on solomon-core/src/bcd.rs at concrete digits.
use project_solomon.Prelude.{ℕ, List, [], ◌∷◌, ◌≡◌}
use project_solomon.Bcd.{pack_bcd_right_padded}
use project_solomon.Bcd.Digits.{packed}
use project_solomon.Bcd.LeftPadded.{pack_bcd_right_padded_cases, first_bad, packed_or}

-- Text without white space is its own trim.
abbrev untrimmed : List ℕ → List ℕ
untrimmed text = text

pack_bcd_right_padded_cases_example :
    pack_bcd_right_padded untrimmed (b'1' ∷ b'A' ∷ []) 0x0f
    ≡ packed_or (first_bad (b'1' ∷ b'A' ∷ [])) (packed 0x0f (b'1' ∷ b'A' ∷ []))
pack_bcd_right_padded_cases_example = pack_bcd_right_padded_cases untrimmed (b'1' ∷ b'A' ∷ []) 0x0f
