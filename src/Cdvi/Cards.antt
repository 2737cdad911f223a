-- ===== src/Cdvi/Cards.antt =====
-- What the CDVI adapter makes of the card table (src/agsync/lib/pacs/cdvi/adapter.py), and the edit
-- that `set_card_enabled` sends (src/agsync/lib/pacs/cdvi/client.py).
use Prim.Native.String.{char_at, ◌++◌ as str_append, len}
use integration_hub.Prelude.{
  ℕ, zero, suc, ◌-◌, ◌/◌, ◌%◌, String, Bool, false, not, ◌&&◌, ◌||◌, Option, none, some, List, [],
  ◌∷◌, if◌then◌else◌, ltb, ◌==◌, string_eq, nonempty, either, contains, lower, strip, lookup,
  insert, append_at, lookup_list,
}
use integration_hub.Pacs.{Credential, CredentialStatus, active, suspended, is_active}
use integration_hub.Cdvi.Hex.{int16}
use integration_hub.Cdvi.Cipher.{codes}

-- A parsed `<CARD>`: its attributes, and of its `<USER>`, if it has one, the id.
pub record Card : Type 0 where
  pub attributes : List (String × String)
  pub user : Option (Option String)

-- `card.get(key, default)`
abbrev pub get : Card → String → String → String
get card key default = elim (lookup key card.attributes) [ none ↦ default | some v ↦ v ]

-- `str(card.get("id"))`
abbrev pub slot_id : Card → String
slot_id card = get card "id" "None"

abbrev pub number_of : Card → String
number_of card = get card "number" ""

first_name_of : Card → List String → String
first_name_of card [] = ""
first_name_of card (key ∷ keys) = elim (lookup key card.attributes) [
  | none ↦ first_name_of card keys
  | some name ↦ name
]

-- `_card_display_name`
unfoldable pub card_display_name : Card → String
unfolding first_name_of lookup
card_display_name card = first_name_of card ("name" ∷ "_name" ∷ "label" ∷ [])

-- `TRIGGER_PATTERN.search(name) is not None`, on ASCII text.
unfoldable pub has_trigger : String → Bool
unfolding contains lower
has_trigger name =
    contains "[accessgrid]" (lower name)
    || contains "[accessgrid-apple]" (lower name)
    || contains "[accessgrid-android]" (lower name)

-- `str(n)` of a number below 100000, whose digits are five at most.
unfoldable pub decimal_digits : ℕ → ℕ → String
decimal_digits zero n = ""
decimal_digits (suc places) n =
    let before = decimal_digits places (n / 10) in
    str_append (if ltb n 10 then "" else before) (String.◌∷◌ (char_at "0123456789" (n % 10)) "")

unfoldable pub decimal : ℕ → String
unfolding decimal_digits
decimal n = decimal_digits 5 n

-- `_decode_card_number`
unfoldable pub decode_card_number : String → String × String
unfolding int16 decimal
decode_card_number encoded = elim (int16 (codes encoded)) [
  | none ↦ ("", "")
  | some value ↦ (decimal (value / 65536 % 256), decimal (value % 65536))
]

-- `_credential_identity`
unfoldable pub credential_identity : String → String → String → String → String
credential_identity site_code card_number number slot =
    if nonempty site_code && nonempty card_number
    then str_append site_code (str_append ":" card_number)
    else either number slot

unfoldable pub identity_of : Card → String
identity_of card =
    let parts = decode_card_number (number_of card) in
    credential_identity (parts.0) (parts.1) (number_of card) (slot_id card)

zeros : ℕ → String → String
zeros zero s = s
zeros (suc n) s = String.◌∷◌ (char_at "0" 0) (zeros n s)

-- `_pad_file_data`
unfoldable pub pad_file_data : String → String
unfolding strip zeros
pad_file_data encoded =
    let text = strip encoded in if nonempty text then zeros (16 - len text) text else ""

-- `by_identity`: of two cards with one identity the later is kept.
unfoldable pub add_by_identity : List (String × Card) → List Card → List (String × Card)
unfolding identity_of
add_by_identity table [] = table
add_by_identity table (card ∷ cards) = add_by_identity (insert (identity_of card) card table) cards

-- The user a card is assigned to: `-1` stands for none.
unfoldable pub assigned_to : Card → Option String
assigned_to card = elim card.user [
  | none ↦ none
  | some id ↦
      let uid : String = elim id [ none ↦ "None" | some u ↦ u ] in
      if nonempty uid && not (uid == "-1") then some uid else none
]

-- `grouped`
unfoldable pub add_by_person : List (String × List Card) → List Card → List (String × List Card)
unfolding assigned_to
add_by_person table [] = table
add_by_person table (card ∷ cards) =
    add_by_person (elim (assigned_to card) [ none ↦ table | some uid ↦ append_at uid card table ])
      cards

-- Enabled, and flagged neither lost nor stolen.
unfoldable pub status_of : Card → CredentialStatus
status_of card =
    if get card "en" "1" == "1" && not (get card "lost" "0" == "1" || get card "stolen" "0" == "1")
    then active
    else suspended

unfoldable pub credential_of : String → Card → Credential
unfolding decode_card_number identity_of pad_file_data status_of has_trigger card_display_name
credential_of pid card = record {
  id = identity_of card;
  person_id = pid;
  card_number = (decode_card_number (number_of card)).1;
  site_code = (decode_card_number (number_of card)).0;
  allocate_identity = false;
  hold = false;
  file_data = pad_file_data (number_of card);
  status = status_of card;
  activate_date = none;
  deactivate_date = none;
  trigger_active = has_trigger (card_display_name card);
}

credentials_of : String → List Card → List Credential
credentials_of pid [] = []
credentials_of pid (card ∷ cards) = credential_of pid card ∷ credentials_of pid cards

-- `list_credentials`, on the answer of `list_cards`.
unfoldable pub list_credentials : List Card → String → List Credential
unfolding credentials_of add_by_person
list_credentials table pid = credentials_of pid (lookup_list pid (add_by_person [] table))

-- `_CARD_ECHO_FIELDS`
abbrev pub card_echo_fields : List String
card_echo_fields =
    "name" ∷ "format" ∷ "number" ∷ "program" ∷ "stolen" ∷ "lost" ∷ "dswipe" ∷ "act_utc" ∷ "exp_utc"
    ∷ "ld_act" ∷ "ld_deact" ∷ "ld_over" ∷ "ld_ack" ∷ []

unfoldable pub echo : Card → List String → List (String × String) → List (String × String)
echo card [] post = post
echo card (key ∷ keys) post = echo card keys (elim (lookup key card.attributes) [
  | none ↦ post
  | some value ↦ insert (str_append "T_card_" key) value post
])

-- What `set_card_enabled` posts.
unfoldable pub card_edit : Card → Bool → List (String × String)
unfolding echo
card_edit card enabled =
    insert "T_card_en" (if enabled then "1" else "0")
      (echo card card_echo_fields (("T_card_cmd", "add") ∷ ("T_card_id", slot_id card) ∷ []))

-- The edit that `update_credential_status` asks the client for; without one it answers False.
unfoldable pub status_edit : List Card → String → CredentialStatus → Option (List (String × String))
unfolding add_by_identity
status_edit table credential_id status =
    let edit : Option (List (String × String)) =
      elim (lookup credential_id (add_by_identity [] table)) [
        | none ↦ none
        | some card ↦ some (card_edit card (is_active status))
      ] in
    elim status [ active ↦ edit | suspended ↦ edit | _ ↦ none ]
