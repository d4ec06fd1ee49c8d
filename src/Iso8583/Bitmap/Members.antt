-- ===== src/Iso8583/Bitmap/Members.antt =====
-- The bitmap that solomon-core/src/iso8583.rs computes has exactly the bits of the message's fields.
use project_solomon.Prelude.{ℕ, ◌+◌, ◌-◌, ◌^◌, ◌≤◌, ◌<◌, ◌≡◌, refl, ap, ◌∙◌, arith}
use project_solomon.Prelude.{◌&&◌, ◌||◌, Bool, true, false, not, List, [], ◌∷◌, bit_or}
use project_solomon.Prelude.{get_or, length, length-set, leb, ◌==◌, if◌then◌else◌}
use project_solomon.Prelude.{All, All-set, All-get_or, get_or-set_self, get_or-set_ne, ==_iff}
use project_solomon.Prelude.{Bool-cases, inl, inr, all_below, all_below_sound}
use project_solomon.Iso8583.Message.{Fields}
use project_solomon.Iso8583.Bitmap.{byte_idx, bit_idx, is_set, set_bit, has_secondary, set_keys}
use project_solomon.Iso8583.Bitmap.{initial_bitmap, compute_bitmap}
use project_solomon.Iso8583.Bitmap.Bits.{has_bit, has_bit-or, bit_or-lt}

abbrev pub IsByte : ℕ → Type 0
IsByte b = b < 256

pub record IsBitmap (bitmap : List ℕ) : Type 0 where
  pub sixteen : length bitmap ≡ 16
  pub bytes : All IsByte bitmap

byte_below : (bitmap : List ℕ) (i : ℕ) → All IsByte bitmap → get_or bitmap i 0 < 256
byte_below bitmap i h = All-get_or IsByte bitmap i 0 (omega arith) h

set_bit-IsBitmap : (k : ℕ) (bitmap : List ℕ) → IsBitmap bitmap → IsBitmap (set_bit k bitmap)
unfolding set_bit
set_bit-IsBitmap k bitmap h = record {
  sixteen = length-set bitmap (byte_idx k) _ ∙ h.sixteen;
  bytes =
      All-set IsByte bitmap (byte_idx k) _
        (bit_or-lt (get_or bitmap (byte_idx k) 0) (bit_idx k)
          (byte_below bitmap (byte_idx k) h.bytes) (omega arith))
        h.bytes;
}

same_bit : (k n : ℕ) → 1 ≤ k → 1 ≤ n → byte_idx k ≡ byte_idx n → (bit_idx k == bit_idx n) ≡ (k == n)
same_bit k n hk hn e = ground arith

other_byte : (k n : ℕ) → (byte_idx k == byte_idx n) ≡ false → (k == n) ≡ false
other_byte k n h = ground arith

is_set-set_bit :
    (k n : ℕ) (bitmap : List ℕ)
    → IsBitmap bitmap
    → 1 ≤ k
    → k ≤ 128
    → 1 ≤ n
    → is_set (set_bit k bitmap) n ≡ (k == n || is_set bitmap n)
unfolding is_set set_bit
is_set-set_bit k n bitmap h lo hi hn = elim (Bool-cases (byte_idx k == byte_idx n)) [
  | inl same ↦
      let e : byte_idx k ≡ byte_idx n = (==_iff _ _).0 same in
      rw
        (
          ← e,
          get_or-set_self bitmap (byte_idx k)
              (bit_or (get_or bitmap (byte_idx k) 0) (2 ^ bit_idx k)) 0 (omega (arith, h.sixteen)),
        )
        (has_bit-or (get_or bitmap (byte_idx k) 0) (bit_idx k) (bit_idx n)
            (byte_below bitmap (byte_idx k) h.bytes) (omega arith) (omega arith)
          ∙ ap (λ (b : Bool). b || has_bit (get_or bitmap (byte_idx k) 0) (bit_idx n))
              (same_bit k n lo hn e))
  | inr differ ↦ rw (
    other_byte k n differ,
    get_or-set_ne bitmap (byte_idx k) (byte_idx n)
        (bit_or (get_or bitmap (byte_idx k) 0) (2 ^ bit_idx k)) 0 (ground arith),
  )
]

-- Whether the message has a field.
unfoldable pub has_key : ℕ → Fields → Bool
has_key n [] = false
has_key n ((k, v) ∷ m) = k == n || has_key n m

abbrev pub InRange : Fields → Type 0
InRange fields = All (λ (f : ℕ × List ℕ). (2 ≤ f.0) × (f.0 ≤ 128)) fields

set_keys-IsBitmap : (m : Fields) (bitmap : List ℕ) → IsBitmap bitmap → IsBitmap (set_keys m bitmap)
unfolding set_keys
set_keys-IsBitmap [] bitmap h = h
set_keys-IsBitmap ((k, v) ∷ m) bitmap h = elim (Bool-cases (leb 2 k && leb k 128)) [
  | inl e ↦ rw e (set_keys-IsBitmap m (set_bit k bitmap) (set_bit-IsBitmap k bitmap h))
  | inr e ↦ rw e (set_keys-IsBitmap m bitmap h)
]

or_swap : (a b c : Bool) → (a || (b || c)) ≡ ((b || a) || c)
or_swap true true c = refl
or_swap true false c = refl
or_swap false true c = refl
or_swap false false c = refl

initial-IsBitmap : (secondary : Bool) → IsBitmap (initial_bitmap secondary)
unfolding initial_bitmap
initial-IsBitmap true = record { sixteen = refl; bytes = omega arith }
initial-IsBitmap false = record { sixteen = refl; bytes = omega arith }

-- Before any key is set, only the indicator of the secondary bitmap can be.
initial_table :
    (secondary : Bool) → all_below 127 (λ i. not (is_set (initial_bitmap secondary) (i + 2))) ≡ true
unfolding all_below is_set initial_bitmap
initial_table true = refl
initial_table false = refl

is_set-initial :
    (secondary : Bool) (n : ℕ) → 2 ≤ n → n ≤ 128 → is_set (initial_bitmap secondary) n ≡ false
is_set-initial secondary n lo hi =
    let back : n - 2 + 2 ≡ n = omega arith in
    ground (
      arith,
      rw back at (
          all_below_sound 127 (λ i. not (is_set (initial_bitmap secondary) (i + 2))) (n - 2)
            (initial_table secondary) (omega arith)),
    )

pub compute_bitmap-IsBitmap : (m : Fields) → IsBitmap (compute_bitmap m)
unfolding compute_bitmap
compute_bitmap-IsBitmap m =
    set_keys-IsBitmap m (initial_bitmap (has_secondary m)) (initial-IsBitmap (has_secondary m))

or_false : (b : Bool) → (b || false) ≡ b
or_false true = refl
or_false false = refl

is_set-set_keys_field :
    (n : ℕ) (m : Fields) (bitmap : List ℕ)
    → IsBitmap bitmap
    → 2 ≤ n
    → n ≤ 128
    → is_set (set_keys m bitmap) n ≡ (has_key n m || is_set bitmap n)
unfolding set_keys has_key
is_set-set_keys_field n [] bitmap h lo hi = refl
is_set-set_keys_field n ((k, v) ∷ m) bitmap h lo hi = elim (Bool-cases (leb 2 k && leb k 128)) [
  | inl e ↦ rw e (
      is_set-set_keys_field n m (set_bit k bitmap) (set_bit-IsBitmap k bitmap h) lo hi
      ∙ ap (λ (b : Bool). has_key n m || b)
          (is_set-set_bit k n bitmap h (ground arith) (ground arith) (omega arith))
      ∙ or_swap (has_key n m) (k == n) (is_set bitmap n))
  | inr e ↦
      let other : (k == n) ≡ false = ground arith in
      rw (e, other) (is_set-set_keys_field n m bitmap h lo hi)
]

pub is_set-field :
    (n : ℕ) (m : Fields) → 2 ≤ n → n ≤ 128 → is_set (compute_bitmap m) n ≡ has_key n m
unfolding compute_bitmap
is_set-field n m lo hi =
    is_set-set_keys_field n m (initial_bitmap (has_secondary m))
      (initial-IsBitmap (has_secondary m)) lo hi
    ∙ ap (λ (b : Bool). has_key n m || b) (is_set-initial (has_secondary m) n lo hi)
    ∙ or_false (has_key n m)

initial_first : (secondary : Bool) → is_set (initial_bitmap secondary) 1 ≡ secondary
unfolding is_set initial_bitmap
initial_first true = refl
initial_first false = refl

-- No key sets the first bit, not even a key 1.
is_set-set_keys_first :
    (m : Fields) (bitmap : List ℕ)
    → IsBitmap bitmap
    → is_set (set_keys m bitmap) 1 ≡ is_set bitmap 1
unfolding set_keys
is_set-set_keys_first [] bitmap h = refl
is_set-set_keys_first ((k, v) ∷ m) bitmap h = elim (Bool-cases (leb 2 k && leb k 128)) [
  | inl e ↦
      let other : (k == 1) ≡ false = ground arith in
      rw e (
        is_set-set_keys_first m (set_bit k bitmap) (set_bit-IsBitmap k bitmap h)
        ∙ is_set-set_bit k 1 bitmap h (ground arith) (ground arith) (omega arith)
        ∙ ap (λ (b : Bool). b || is_set bitmap 1) other)
  | inr e ↦ rw e (is_set-set_keys_first m bitmap h)
]

pub is_set-first : (m : Fields) → is_set (compute_bitmap m) 1 ≡ has_secondary m
unfolding compute_bitmap
is_set-first m =
    is_set-set_keys_first m (initial_bitmap (has_secondary m)) (initial-IsBitmap (has_secondary m))
    ∙ initial_first (has_secondary m)

-- The computed bitmap has the bit of a field from 2 to 128 exactly if the message has that field, and
-- the first bit exactly if some key is above 64, whatever keys the map has.
pub is_set-compute_bitmap :
    (n : ℕ) (m : Fields)
    → 1 ≤ n
    → n ≤ 128
    → is_set (compute_bitmap m) n ≡ (if n == 1 then has_secondary m else has_key n m)
is_set-compute_bitmap n m lo hi = elim (Bool-cases (n == 1)) [
  | inl e ↦ let one : n ≡ 1 = (==_iff n 1).0 e in rw (one) (is_set-first m)
  | inr e ↦ rw e (is_set-field n m (ground arith) hi)
]
