-- ===== src/Iso8583/Message.antt =====
-- `Iso8583Message` of solomon-core/src/iso8583.rs. The map of fields is the list of its entries in
-- ascending order of their numbers.
pub mod Laws
use project_solomon.Prelude.{ℕ, ◌&&◌, Bool, true, false, List, [], ◌∷◌, Option, none, some}
use project_solomon.Prelude.{ltb, leb, ◌==◌, if◌then◌else◌}

abbrev pub Fields : Type 0
Fields = List (ℕ × List ℕ)

-- `BTreeMap::insert`, `get` and `remove`.
unfoldable pub insert : ℕ → List ℕ → Fields → Fields
insert k v [] = (k, v) ∷ []
insert k v ((j, w) ∷ m) =
    if ltb k j then (k, v) ∷ (j, w) ∷ m else if k == j then (k, v) ∷ m else (j, w) ∷ insert k v m

unfoldable pub get : ℕ → Fields → Option (List ℕ)
get k [] = none
get k ((j, w) ∷ m) = if k == j then some w else get k m

unfoldable pub remove : ℕ → Fields → Fields
remove k [] = []
remove k ((j, w) ∷ m) = if k == j then m else (j, w) ∷ remove k m

pub record Iso8583Message : Type 0 where
  pub mti : List ℕ
  pub fields : Fields

pub new : List ℕ → Iso8583Message
new mti = record { mti = mti; fields = [] }

pub set_field : ℕ → List ℕ → Iso8583Message → Iso8583Message
set_field field_num payload msg =
    if leb 1 field_num && leb field_num 128
    then record msg { fields = insert field_num payload msg.fields }
    else msg

unfoldable pub get_field : Iso8583Message → ℕ → Option (List ℕ)
get_field msg field_num = get field_num msg.fields

pub has_field : Iso8583Message → ℕ → Bool
has_field msg field_num = elim (get field_num msg.fields) [ none ↦ false | some v ↦ true ]

pub remove_field : ℕ → Iso8583Message → Iso8583Message × Option (List ℕ)
remove_field field_num msg =
    (record msg { fields = remove field_num msg.fields }, get field_num msg.fields)

pub inject_pqc_field : ℕ → List ℕ → Iso8583Message → Iso8583Message
unfolding set_field
inject_pqc_field field_num payload msg = set_field field_num payload msg

pub strip_pqc_field : ℕ → Iso8583Message → Iso8583Message × Option (List ℕ)
unfolding remove_field
strip_pqc_field field_num msg = remove_field field_num msg
