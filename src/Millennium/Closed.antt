-- ===== src/Millennium/Closed.antt =====
-- About the status of a Seos pass (src/agsync/lib/pacs/millennium_ultra/adapter.py).
use integration_hub.Prelude.{
  ℕ, ◌≡◌, ap, String, Bool, true, false, not, ◌&&◌, ◌||◌, none, some, List, [], ◌∷◌, if◌then◌else◌,
  any, arith, keep, ltb, Option, refl, ◌∙◌,
}
use integration_hub.Pacs.{CredentialStatus, active, suspended, awaiting_install, is_active}
use integration_hub.Millennium.Cardholders.{Slot, Entry, write, insert, entry_card, slot_with}
use integration_hub.Millennium.States.{
  is_off, dates_of, latest, state_of_cards, ledger_of, is_later, seos_status, seos_credential,
  activate_date,
}

-- A card that is on the cardholder, and whose Active box is on.
abbrev pub is_on : List Slot → Entry → Bool
is_on slots e = elim (slot_with (entry_card e) slots) [ none ↦ false | some slot ↦ slot.active ]

-- A card that is on the cardholder, off, and recorded as switched off by us.
abbrev pub is_held : List Slot → Entry → Bool
is_held slots e = elim (slot_with (entry_card e) slots) [
  | none ↦ false
  | some slot ↦ not slot.active && is_off e
]

-- The state of a pass in terms of all its cards: suspended if any card is neither on nor held by us,
-- else waiting for the install if any is held, else on.
abbrev pub state_by_all : List Slot → List Entry → CredentialStatus
state_by_all slots ledger =
    if any (λ e. not (is_on slots e || is_held slots e)) ledger
    then suspended
    else if any (is_held slots) ledger
    then awaiting_install
    else active

state_of_cards-by_all :
    (slots : List Slot) (held : Bool) (ledger : List Entry)
    → state_of_cards slots held ledger ≡ (
        if any (λ e. not (is_on slots e || is_held slots e)) ledger
        then suspended
        else if held || any (is_held slots) ledger
        then awaiting_install
        else active)
unfolding state_of_cards any
state_of_cards-by_all slots held [] = ground arith
state_of_cards-by_all slots held (e ∷ ledger) =
    ground (arith, state_of_cards-by_all slots held ledger, state_of_cards-by_all slots true ledger)

-- The cards that have been written: none that still waits to be written or inserted.
abbrev pub written : List Entry → List Entry
written entries =
    keep (λ e. not (elim e.pending [ some write ↦ true | some insert ↦ true | _ ↦ false ])) entries

abbrev after : ℕ → Option ℕ → Bool
after now d = elim d [ none ↦ false | some date ↦ ltb now date ]

-- A card that is on the cardholder with a date of activation that lies ahead.
abbrev pub starts_later : ℕ → List Slot → Entry → Bool
starts_later now slots e = elim (slot_with (entry_card e) slots) [
  | none ↦ false
  | some slot ↦ elim slot.activation [ none ↦ false | some date ↦ ltb now date ]
]

is_later-latest :
    (now : ℕ) (dates : List (Option ℕ)) → is_later now (latest dates) ≡ any (after now) dates
unfolding latest any
is_later-latest now [] = refl
is_later-latest now (none ∷ dates) = is_later-latest now dates
is_later-latest now (some date ∷ dates) = ground (arith, is_later-latest now dates)

any-dates_of :
    (now : ℕ) (slots : List Slot) (ledger : List Entry)
    → any (after now) (dates_of (λ s. s.activation) slots ledger)
      ≡ any (starts_later now slots) ledger
unfolding dates_of any
any-dates_of now slots [] = refl
any-dates_of now slots (e ∷ ledger) = ground (arith, any-dates_of now slots ledger)

ledger_of-written : (entries : List Entry) → ledger_of entries ≡ written entries
unfolding ledger_of keep
ledger_of-written [] = refl
ledger_of-written (e ∷ entries) = ground (arith, ledger_of-written entries)

activate_date-later :
    (now : ℕ) (slots : List Slot) (entries : List Entry)
    → is_later now (activate_date slots entries) ≡ any (starts_later now slots) (ledger_of entries)
unfolding activate_date
activate_date-later now slots entries =
    is_later-latest now (dates_of (λ s. s.activation) slots (ledger_of entries))
    ∙ any-dates_of now slots (ledger_of entries)

-- A Seos pass is suspended if any card written for it is gone from the cardholder, or is off
-- without our having switched it off, and if all are on but one becomes valid later. If all are on
-- or switched off by us, and at least one is off, it waits for its install. In the remaining case,
-- in which all cards are on and valid by now, it is active.
pub seos_credential-by_all :
    (now : ℕ) (pid credential : String) (entries : List Entry) (slots : List Slot)
    → (seos_credential now pid credential entries slots).status ≡ (
        if is_active (state_by_all slots (written entries))
          && any (starts_later now slots) (written entries)
        then suspended
        else state_by_all slots (written entries))
unfolding seos_credential seos_status
seos_credential-by_all now pid credential entries slots =
    ap
      (λ (status : CredentialStatus).
        if is_active status && is_later now (activate_date slots entries)
        then suspended
        else status)
      (state_of_cards-by_all slots false (ledger_of entries))
    ∙ ap
        (λ (b : Bool).
          if is_active (state_by_all slots (ledger_of entries)) && b
          then suspended
          else state_by_all slots (ledger_of entries))
        (activate_date-later now slots entries)
    ∙ ap
        (λ (ledger : List Entry).
          if is_active (state_by_all slots ledger) && any (starts_later now slots) ledger
          then suspended
          else state_by_all slots ledger)
        (ledger_of-written entries)
