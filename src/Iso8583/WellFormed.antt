-- ===== src/Iso8583/WellFormed.antt =====
-- The messages of solomon-core/src/iso8583.rs that the wire formats carry unchanged.
use project_solomon.Prelude.{ℕ, zero, suc, ◌+◌, ◌≤◌, ◌<◌, ◌≡◌, refl, arith, ◌-◌, ◌/◌}
use project_solomon.Prelude.{List, [], ◌∷◌, ◌++◌, length, take, get_or, All, true, false}
use project_solomon.Bcd.Digits.{IsDigit}
use project_solomon.Iso8583.Schema.{get_field_type}
use project_solomon.Iso8583.Message.{Fields, Iso8583Message}
use project_solomon.Iso8583.Message.Laws.{IsSortedFrom}
use project_solomon.Iso8583.Bitmap.{has_secondary, is_set}
use project_solomon.Iso8583.Bitmap.Members.{InRange}
use project_solomon.Iso8583.Serialize.{ascii_element, ascii_elements}
use project_solomon.Iso8583.Parse.{all_digits, secondary_flag}
use project_solomon.Iso8583.Parse.Elements.{IsBelow, joined}
use project_solomon.Iso8583.Parse.Reads.{FitsType}

-- A payload that the element with its number can carry.
abbrev pub Fits : ℕ × List ℕ → Type 0
Fits f = FitsType (get_field_type f.0) f.1

-- Four digits of type, and fields from 2 to 128 in ascending order whose payloads fit.
pub record IsWellFormed (msg : Iso8583Message) : Type 0 where
  pub four : length msg.mti ≡ 4
  pub digits : All IsDigit msg.mti
  pub sorted : IsSortedFrom 2 msg.fields
  pub below : IsBelow 129 msg.fields
  pub fits : All Fits msg.fields

InRange-sorted : (lo : ℕ) (m : Fields) → 2 ≤ lo → IsSortedFrom lo m → IsBelow 129 m → InRange m
InRange-sorted lo [] h s b = tt
InRange-sorted lo ((k, v) ∷ m) h (hk, s) (hb, b) =
    ((omega arith, omega arith), InRange-sorted (k + 1) m (omega arith) s b)

pub IsWellFormed-InRange : (msg : Iso8583Message) → IsWellFormed msg → InRange msg.fields
IsWellFormed-InRange msg h = InRange-sorted 2 msg.fields (omega arith) h.sorted h.below

-- Without a secondary bitmap no field is above 64.
pub IsBelow-primary : (m : Fields) → has_secondary m ≡ false → IsBelow 65 m
unfolding has_secondary
IsBelow-primary [] h = tt
IsBelow-primary ((k, v) ∷ m) h = (ground arith, IsBelow-primary m (ground arith))

abbrev pub ascii_write : ℕ → List ℕ → List ℕ
ascii_write k v = ascii_element (get_field_type k) v

pub ascii_elements-joined : (m : Fields) → InRange m → ascii_elements m ≡ joined ascii_write m
unfolding ascii_elements joined
ascii_elements-joined [] r = refl
ascii_elements-joined ((k, v) ∷ m) ((lo, hi), r) = ground (arith, ascii_elements-joined m r)

pub all_digits-digits : (cs : List ℕ) → All IsDigit cs → all_digits cs ≡ true
unfolding all_digits
all_digits-digits [] h = refl
all_digits-digits (c ∷ cs) (h, hs) = ground (arith, all_digits-digits cs hs)

-- The first byte of the primary half holds the flag of the secondary one.
pub secondary_flag-take :
    (n : ℕ) (bitmap : List ℕ) → secondary_flag (take (suc n) bitmap) ≡ is_set bitmap 1
unfolding secondary_flag is_set
secondary_flag-take n [] = refl
secondary_flag-take n (b ∷ bs) = refl

-- The bits of the first 64 fields are in the primary half, whatever stands behind it.
get_or-take :
    (n i : ℕ) (xs ys : List ℕ)
    → i < n
    → n ≤ length xs
    → get_or (take n xs ++ ys) i 0 ≡ get_or xs i 0
get_or-take zero i xs ys h l = absurd (omega arith)
get_or-take (suc n) i [] ys h l = absurd (omega arith)
get_or-take (suc n) zero (x ∷ xs) ys h l = refl
get_or-take (suc n) (suc i) (x ∷ xs) ys h l = get_or-take n i xs ys (omega arith) (omega arith)

pub is_set-take :
    (n : ℕ) (bitmap rest : List ℕ)
    → n ≤ 64
    → length bitmap ≡ 16
    → is_set (take 8 bitmap ++ rest) n ≡ is_set bitmap n
unfolding is_set
is_set-take n bitmap rest h l =
    rw (get_or-take 8 ((n - 1) / 8) bitmap rest (omega arith) (omega arith))
