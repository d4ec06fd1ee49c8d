-- ===== src/Iso8583/Message/Laws.antt =====
-- The map of fields of solomon-core/src/iso8583.rs, and the injection and stripping of one field.
use project_solomon.Prelude.{ℕ, ◌+◌, ◌≤◌, ◌<◌, List, [], ◌∷◌, none, some}
use project_solomon.Prelude.{◌==◌, if◌then◌else◌, ◌≡◌, refl, arith}
use project_solomon.Iso8583.Message.{
  Fields, insert, get, remove, Iso8583Message, set_field, get_field,
}
use project_solomon.Iso8583.Message.{inject_pqc_field, strip_pqc_field}

-- Ascending numbers, all at least `lo`.
abbrev pub IsSortedFrom : ℕ → Fields → Type 0
IsSortedFrom lo [] = Unit {0}
IsSortedFrom lo ((k, v) ∷ m) = (lo ≤ k) × IsSortedFrom (k + 1) m

IsSortedFrom-mono : (lo lo' : ℕ) (m : Fields) → lo' ≤ lo → IsSortedFrom lo m → IsSortedFrom lo' m
IsSortedFrom-mono lo lo' [] h s = tt
IsSortedFrom-mono lo lo' ((k, v) ∷ m) h (hk, s) = (omega arith, s)

pub insert-IsSortedFrom :
    (lo k : ℕ) (v : List ℕ) (m : Fields)
    → lo ≤ k
    → IsSortedFrom lo m
    → IsSortedFrom lo (insert k v m)
unfolding insert
insert-IsSortedFrom lo k v [] h s = (h, tt)
insert-IsSortedFrom lo k v ((j, w) ∷ m) h (hj, s) =
    ground (arith, insert-IsSortedFrom (j + 1) k v m)

remove-IsSortedFrom : (lo k : ℕ) (m : Fields) → IsSortedFrom lo m → IsSortedFrom lo (remove k m)
unfolding remove
remove-IsSortedFrom lo k [] s = tt
remove-IsSortedFrom lo k ((j, w) ∷ m) (hj, s) =
    ground (arith, IsSortedFrom-mono (j + 1) lo m, remove-IsSortedFrom (j + 1) k m s)

get_below : (k lo : ℕ) (m : Fields) → k < lo → IsSortedFrom lo m → get k m ≡ none
unfolding get
get_below k lo [] h s = refl
get_below k lo ((j, w) ∷ m) h (hj, s) = ground (arith, get_below k (j + 1) m)

get-insert :
    (k j : ℕ) (v : List ℕ) (m : Fields)
    → get j (insert k v m) ≡ (if j == k then some v else get j m)
unfolding get insert
get-insert k j v [] = refl
get-insert k j v ((i, w) ∷ m) = ground (arith, get-insert k j v m)

get-remove :
    (lo k j : ℕ) (m : Fields)
    → IsSortedFrom lo m
    → get j (remove k m) ≡ (if j == k then none else get j m)
unfolding get remove
get-remove lo k j [] s = ground arith
get-remove lo k j ((i, w) ∷ m) (hi, s) =
    ground (arith, get-remove (i + 1) k j m s, get_below j (i + 1) m)

remove-insert_new : (k : ℕ) (v : List ℕ) (m : Fields) → get k m ≡ none → remove k (insert k v m) ≡ m
unfolding get insert remove
remove-insert_new k v [] h = ground arith
remove-insert_new k v ((i, w) ∷ m) h = ground (arith, remove-insert_new k v m)

-- Setting a field with a number in 1..=128 shows in that field and in no other.
pub get_field-set_field :
    (k j : ℕ) (v : List ℕ) (msg : Iso8583Message)
    → 1 ≤ k
    → k ≤ 128
    → get_field (set_field k v msg) j ≡ (if j == k then some v else get_field msg j)
unfolding get_field set_field
get_field-set_field k j v msg lo hi = ground (arith, get-insert k j v msg.fields)

-- The fields of a message are in ascending order.
abbrev pub IsOrdered : Iso8583Message → Type 0
IsOrdered msg = IsSortedFrom 1 msg.fields

pub set_field-IsOrdered :
    (k : ℕ) (v : List ℕ) (msg : Iso8583Message) → IsOrdered msg → IsOrdered (set_field k v msg)
unfolding set_field
set_field-IsOrdered k v msg h = ground (arith, insert-IsSortedFrom 1 k v msg.fields)

-- Stripping the field that was injected into a message without it gives back the payload and the
-- very message; the number is in 1..=128.
pub strip-inject :
    (k : ℕ) (v : List ℕ) (msg : Iso8583Message)
    → 1 ≤ k
    → k ≤ 128
    → get_field msg k ≡ none
    → strip_pqc_field k (inject_pqc_field k v msg) ≡ (msg, some v)
unfolding strip_pqc_field inject_pqc_field get_field
strip-inject k v msg lo hi fresh =
    ground (arith, remove-insert_new k v msg.fields fresh, get-insert k k v msg.fields)

-- After a strip of a message with its fields in order, the field is gone and its payload returned, every
-- other field is what it was, and the order is kept.
pub strip_pqc_field_lem :
    (k j : ℕ) (msg : Iso8583Message)
    → IsOrdered msg
    → (get_field (strip_pqc_field k msg).0 j ≡ (if j == k then none else get_field msg j))
      × ((strip_pqc_field k msg).1 ≡ get_field msg k)
      × IsOrdered (strip_pqc_field k msg).0
unfolding strip_pqc_field get_field
strip_pqc_field_lem k j msg h =
    (get-remove 1 k j msg.fields h, refl, remove-IsSortedFrom 1 k msg.fields h)
