-- ===== src/Millennium/States.antt =====
-- The credential that the adapter reports for a pass: `_seos_credential` and `_desfire_credential`
-- (src/agsync/lib/pacs/millennium_ultra/adapter.py).
use integration_hub.Prelude.{
  ℕ, String, Bool, true, false, not, ◌&&◌, Option, none, some, List, [], ◌∷◌, if◌then◌else◌, ltb,
  min, max, keep, find,
}
use integration_hub.Pacs.{
  Credential, CredentialStatus, active, suspended, awaiting_install, is_active,
}
use integration_hub.Millennium.Cardholders.{
  Slot, Entry, entry_card, slot_card, is_unwritten, slot_with, has_card,
}

-- `min(expires) if expires else None`, of the dates there are.
unfoldable pub earliest : List (Option ℕ) → Option ℕ
earliest [] = none
earliest (none ∷ dates) = earliest dates
earliest (some date ∷ dates) = elim (earliest dates) [
  | none ↦ some date
  | some other ↦ some (min date other)
]

-- `max(starts) if starts else None`
unfoldable pub latest : List (Option ℕ) → Option ℕ
latest [] = none
latest (none ∷ dates) = latest dates
latest (some date ∷ dates) = elim (latest dates) [
  | none ↦ some date
  | some other ↦ some (max date other)
]

-- A date of each recorded card that is on the cardholder.
unfoldable pub dates_of : (Slot → Option ℕ) → List Slot → List Entry → List (Option ℕ)
dates_of date slots [] = []
dates_of date slots (e ∷ ledger) =
    elim (slot_with (entry_card e) slots) [ none ↦ none | some slot ↦ date slot ]
    ∷ dates_of date slots ledger

-- Switched off by us, to wait for the install.
abbrev pub is_off : Entry → Bool
is_off e = elim e.active [ some false ↦ true | _ ↦ false ]

-- The loop over the written cards, which stops at the first that suspends the pass.
unfoldable pub state_of_cards : List Slot → Bool → List Entry → CredentialStatus
state_of_cards slots held [] = if held then awaiting_install else active
state_of_cards slots held (e ∷ ledger) =
    let later = state_of_cards slots held ledger in
    let later_held = state_of_cards slots true ledger in
    elim (slot_with (entry_card e) slots) [
      | none ↦ suspended
      | some slot ↦ if slot.active then later else if is_off e then later_held else suspended
    ]

-- The cards that are written, and when the last of them becomes valid.
unfoldable pub ledger_of : List Entry → List Entry
ledger_of entries = keep (λ e. not (is_unwritten e)) entries

unfoldable pub activate_date : List Slot → List Entry → Option ℕ
unfolding dates_of latest ledger_of
activate_date slots entries = latest (dates_of (λ s. s.activation) slots (ledger_of entries))

unfoldable pub deactivate_date : List Slot → List Entry → Option ℕ
unfolding dates_of earliest ledger_of
deactivate_date slots entries = earliest (dates_of (λ s. s.expiration) slots (ledger_of entries))

-- `activate_date and activate_date > now`
abbrev pub is_later : ℕ → Option ℕ → Bool
is_later now none = false
is_later now (some date) = ltb now date

unfoldable pub seos_status : ℕ → List Slot → List Entry → CredentialStatus
seos_status now slots entries =
    let status = state_of_cards slots false (ledger_of entries) in
    if is_active status && is_later now (activate_date slots entries) then suspended else status

-- `_seos_credential`
unfoldable pub seos_credential : ℕ → String → String → List Entry → List Slot → Credential
unfolding seos_status activate_date deactivate_date
seos_credential now pid credential entries slots = record {
  id = credential;
  person_id = pid;
  card_number = "";
  site_code = "";
  allocate_identity = true;
  hold = false;
  file_data = "";
  status = seos_status now slots entries;
  activate_date = activate_date slots entries;
  deactivate_date = deactivate_date slots entries;
  trigger_active = true;
}

-- `_desfire_credential`
unfoldable pub desfire_credential : String → String → List Entry → List Slot → Option Credential
desfire_credential pid credential entries slots =
    elim (find (λ slot. has_card (slot_card slot) entries) slots) [
      | none ↦ none
      | some slot ↦ some (record {
        id = credential;
        person_id = pid;
        card_number = slot.card_number;
        site_code = slot.facility_code;
        allocate_identity = false;
        hold = false;
        file_data = "";
        status = if slot.active then active else suspended;
        activate_date = slot.activation;
        deactivate_date = slot.expiration;
        trigger_active = true;
      })
    ]
