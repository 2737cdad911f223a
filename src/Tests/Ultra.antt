-- ===== src/Tests/Ultra.antt =====
-- The theorems about the Millennium Ultra adapter, at one cardholder.
use integration_hub.Prelude.{
  ℕ, ◌≡◌, refl, String, Bool, true, false, not, ◌&&◌, ◌==◌, string_eq, none, some, List, [], ◌∷◌,
  keep, count_if, any, find, lookup, if◌then◌else◌, All,
}
use integration_hub.Pacs.{CredentialIdentity, suspended, is_active}
use integration_hub.Millennium.Cardholders.{
  awaits_insert, entry_card, Slot, Cardholder, Entry, CardKey, insert, write, delete, holds_card,
}
use integration_hub.Millennium.Ledger.{Row, all}
use integration_hub.Millennium.WriteBack.{
  Holders, write_back, on_any, fit, writable, free_slots, slots_taken,
}
use integration_hub.Millennium.Placed.{IsNew, MayHold, write_back-IsPlaced}
use integration_hub.Millennium.States.{seos_credential}
use integration_hub.Millennium.Closed
use integration_hub.Millennium.Closed.{seos_credential-by_all, state_by_all}
use integration_hub.Millennium.Cycle.{Deleted, deleted, delete_cards}
use integration_hub.Millennium.ImportFile as Import
use integration_hub.Millennium.Files.{IsUniform, total, build-IsUniform}
use integration_hub.Millennium.Imports.{settle}
use integration_hub.Millennium.Settled.{is_due, is_writing, has_gone_in, settle-IsSettled}
use integration_hub.Millennium.Deletes.{IsLicensed, delete_cards-IsLicensed}

abbrev slot_of : ℕ → String → String → Bool → Slot
slot_of index facility number on = record {
  index = index;
  card_number = number;
  facility_code = facility;
  card_format = "HID 37";
  active = on;
  activation = none;
  expiration = none;
  access_levels = [];
}

abbrev holder : Cardholder
holder = record {
  employee_id = "990001";
  first_name = "Ada";
  last_name = "Byron";
  email = "ada@example.org";
  phone = "";
  slots = slot_of 1 "12" "3456" true ∷ slot_of 2 "" "" false ∷ [];
}

abbrev holders : Holders
holders = ("990001", holder) ∷ []

abbrev pid : String
pid = "990001"

abbrev pass : String
pass = "card"

abbrev trigger_card : Entry
trigger_card = record {
  slot = 1;
  facility_code = "12";
  card_number = "3456";
  active = none;
  pending = some write;
  dormant = false;
}

abbrev doomed_card : Entry
doomed_card = record {
  slot = 1;
  facility_code = "12";
  card_number = "3456";
  active = some true;
  pending = some delete;
  dormant = false;
}

abbrev minted_card : CredentialIdentity
minted_card = record {
  site_code = "77";
  card_number = "1001";
  activate_date = none;
  deactivate_date = none;
  device_type = "iphone";
}

abbrev row_of : Entry → Row
row_of e = record {
  person = "990001";
  credential = "card";
  slot = e.slot;
  facility_code = e.facility_code;
  card_number = e.card_number;
  active = e.active;
  pending = e.pending;
  dormant = e.dormant;
}

abbrev plain : String → String
plain text = text

abbrev agrees : List (String × CardKey) → String → CardKey → Deleted
agrees calls person card = deleted

abbrev written : List Entry
written =
    record {
      slot = 1;
      facility_code = "77";
      card_number = "1001";
      active = none;
      pending = some insert;
      dormant = false;
    }
    ∷ []

abbrev recorded_cards : List ((String × String) × List Entry)
recorded_cards = (("990001", "card"), trigger_card ∷ []) ∷ []

write_back-IsPlaced_example :
    All
      (λ e.
        IsNew holders (trigger_card ∷ []) (entry_card e)
        × MayHold (trigger_card ∷ []) recorded_cards holder.slots e.slot
        × (awaits_insert e ≡ true))
      written
unfolding write_back on_any find keep any holds_card fit writable free_slots slots_taken
write_back-IsPlaced_example =
    write_back-IsPlaced true holders (trigger_card ∷ []) written recorded_cards holder
      (minted_card ∷ []) refl

seos_credential-by_all_example :
    (seos_credential 0 "990001" "card" (doomed_card ∷ []) holder.slots).status ≡ (
      if is_active (state_by_all holder.slots (Closed.written (doomed_card ∷ [])))
        && any (Closed.starts_later 0 holder.slots) (Closed.written (doomed_card ∷ []))
      then suspended
      else state_by_all holder.slots (Closed.written (doomed_card ∷ [])))
seos_credential-by_all_example =
    seos_credential-by_all 0 "990001" "card" (doomed_card ∷ []) holder.slots

delete_cards-IsLicensed_example :
    All
      (IsLicensed false holders (all plain (row_of doomed_card ∷ [])))
      ((delete_cards false agrees plain plain holders (row_of doomed_card ∷ [])).0)
delete_cards-IsLicensed_example =
    delete_cards-IsLicensed false agrees plain plain holders (row_of doomed_card ∷ [])

settle-IsSettled_example :
    All (λ e. is_due [] e ≡ false) (settle [] (trigger_card ∷ written))
    × (any (λ e. is_writing e.pending) (settle [] (trigger_card ∷ written)) ≡ (
        any (λ e. is_writing e.pending) (trigger_card ∷ written)
        && not (any (has_gone_in []) (trigger_card ∷ written))))
settle-IsSettled_example = settle-IsSettled [] (trigger_card ∷ written)

abbrev import_row : String → Import.Row
import_row person = record {
  employee_id = person;
  first_name = "Ada";
  last_name = "Byron";
  cells =
      ((1, "Encoded Card No."), "1001")
      ∷ ((1, "Facility Code"), "77")
      ∷ ((1, "Active"), "False")
      ∷ [];
}

build-IsUniform_example :
    (files : Import.Groups) × (Import.build (import_row "990001" ∷ import_row "990002" ∷ [])
      ≡ some files)
    × All IsUniform files
    × (total (λ row. row.employee_id == "990002") files
        ≡ count_if
            (λ row. row.employee_id == "990002")
            (import_row "990001" ∷ import_row "990002" ∷ []))
unfolding Import.lacks_identity any lookup
build-IsUniform_example =
    build-IsUniform (import_row "990001" ∷ import_row "990002" ∷ [])
      (λ row. row.employee_id == "990002") refl
