-- ===== src/Millennium/Cardholders.antt =====
-- What an export says of a cardholder (src/agsync/lib/pacs/millennium_ultra/export.py), and the
-- recorded cards (pacs_cards.py). Instants are counted in microseconds.
use integration_hub.Prelude.{
  ℕ, String, Bool, true, false, not, ◌&&◌, ◌||◌, Option, none, some, List, [], ◌∷◌, any, pair_same,
  nonempty, if◌then◌else◌,
}

-- `AccessLevel`
pub record AccessLevel : Type 0 where
  pub position : ℕ
  pub name : String
  pub activation : String
  pub expiration : String

-- `Slot`
pub record Slot : Type 0 where
  pub index : ℕ
  pub card_number : String
  pub facility_code : String
  pub card_format : String
  pub active : Bool
  pub activation : Option ℕ
  pub expiration : Option ℕ
  pub access_levels : List AccessLevel

-- `Slot.empty`
abbrev pub is_empty : Slot → Bool
is_empty slot = not (nonempty slot.card_number)

-- `Cardholder`
pub record Cardholder : Type 0 where
  pub employee_id : String
  pub first_name : String
  pub last_name : String
  pub email : String
  pub phone : String
  pub slots : List Slot

-- A facility code and a card number.
abbrev pub CardKey : Type 0
CardKey = String × String

abbrev pub slot_card : Slot → CardKey
slot_card slot = (slot.facility_code, slot.card_number)

-- What a recorded card waits for.
pub data Pending : Type 0 where
  write insert activate deactivate delete : Pending

-- An entry of `pacs_cards`, as it is read back.
pub record Entry : Type 0 where
  pub slot : ℕ
  pub facility_code : String
  pub card_number : String
  pub active : Option Bool
  pub pending : Option Pending
  pub dormant : Bool

abbrev pub entry_card : Entry → CardKey
entry_card e = (e.facility_code, e.card_number)

abbrev pub awaits_write : Entry → Bool
awaits_write e = elim e.pending [ some write ↦ true | _ ↦ false ]

abbrev pub awaits_insert : Entry → Bool
awaits_insert e = elim e.pending [ some insert ↦ true | _ ↦ false ]

abbrev pub awaits_delete : Entry → Bool
awaits_delete e = elim e.pending [ some delete ↦ true | _ ↦ false ]

-- `e.get("pending") in UNWRITTEN`
abbrev pub is_unwritten : Entry → Bool
is_unwritten e = awaits_write e || awaits_insert e

-- The slot that holds a card: `live.get(card)`, of a dict in which a later slot replaces an earlier.
unfoldable pub slot_with : CardKey → List Slot → Option Slot
slot_with card [] = none
slot_with card (slot ∷ slots) =
    let later = slot_with card slots in
    elim later [
      | some found ↦ some found
      | none ↦ if not (is_empty slot) && pair_same (slot_card slot) card then some slot else none
    ]

-- `card in {(s.facility_code, s.card_number) for … if not s.empty}`
unfoldable pub holds_card : CardKey → List Slot → Bool
holds_card card slots = any (λ slot. not (is_empty slot) && pair_same (slot_card slot) card) slots

abbrev pub has_card : CardKey → List Entry → Bool
has_card card entries = any (λ e. pair_same (entry_card e) card) entries
