-- ===== src/Millennium/WriteBack.antt =====
-- What the adapter is told of AccessGrid's cards: `write_back_credentials`, `retire_credentials` and
-- `update_credential_status` (src/agsync/lib/pacs/millennium_ultra/adapter.py). All three change the
-- record of the cards alone; `finish_cycle` sends the changes.
use integration_hub.Prelude.{
  ℕ, String, Bool, true, false, not, ◌&&◌, ◌||◌, Option, none, some, List, [], ◌∷◌, ◌++◌, map,
  if◌then◌else◌, string_eq, pair_eq, pair_same, nat_eqb, ltb, length, any, keep, find, count_if,
  is_some, is_nil, contains, lower, lookup,
}
use integration_hub.Pacs.{CredentialIdentity, CredentialStatus, is_active}
use integration_hub.Millennium.Cardholders.{
  Slot, Cardholder, Entry, CardKey, insert, activate, deactivate, delete, entry_card, is_empty,
  awaits_write, awaits_insert, awaits_delete, is_unwritten, has_card, holds_card, slot_with,
}
use integration_hub.Millennium.Ledger.{Table, get, entries_for_person, record_cards}

abbrev pub identity_card : CredentialIdentity → CardKey
identity_card i = (i.site_code, i.card_number)

abbrev pub Holders : Type 0
Holders = List (String × Cardholder)

-- `card in on_cardholders`
unfoldable pub on_any : Holders → CardKey → Bool
on_any [] card = false
on_any ((pid, holder) ∷ holders) card = holds_card card holder.slots || on_any holders card

-- The slot numbers of all cards recorded for a person.
unfoldable pub slots_taken : List ((String × String) × List Entry) → ℕ → Bool
slots_taken [] index = false
slots_taken ((key, entries) ∷ cards) index =
    any (λ e. nat_eqb e.slot index) entries || slots_taken cards index

-- `empty`
unfoldable pub free_slots : (ℕ → Bool) → List Slot → List ℕ
free_slots taken [] = []
free_slots taken (slot ∷ slots) =
    let rest = free_slots taken slots in
    if is_empty slot && not (taken slot.index) then slot.index ∷ rest else rest

is_watch : CredentialIdentity → Bool
is_watch i = contains "watch" (lower i.device_type)

-- The first card goes in whatever its device; without a trigger card of a pair, the others only if
-- they are a watch's.
unfoldable pub writable : Bool → Option Entry → List CredentialIdentity → List CredentialIdentity
unfolding is_watch
writable pair none new = keep is_watch new
writable pair (some trigger) [] = []
writable pair (some trigger) (i ∷ new) = i ∷ (if pair then new else keep is_watch new)

abbrev pub new_entry : ℕ → CredentialIdentity → Entry
new_entry slot i = record {
  slot = slot;
  facility_code = i.site_code;
  card_number = i.card_number;
  active = none;
  pending = some insert;
  dormant = false;
}

-- `zip(new, slots)`
unfoldable pub place : List CredentialIdentity → List ℕ → List Entry
place (i ∷ new) (slot ∷ slots) = new_entry slot i ∷ place new slots
place _ _ = []

-- What the write comes to: it is refused, there is nothing to write, or these entries are added.
pub data Outcome : Type 0 where
  refused : Outcome
  nothing_new : Outcome
  adds : List Entry → Outcome

-- The slots to write to: the trigger card's, then the free ones.
abbrev pub open_slots : Option Entry → List ℕ → List ℕ
open_slots none free = free
open_slots (some trigger) free = trigger.slot ∷ free

-- After the cards that are recorded already, and those on a cardholder, have been looked for.
unfoldable pub fit : List Entry → Option Entry → List CredentialIdentity → List ℕ → Outcome
unfolding place
fit entries trigger new free =
    if is_nil new
    then nothing_new
    else if any awaits_insert entries || ltb (length (open_slots trigger free)) (length new)
    then refused
    else adds (place new (open_slots trigger free))

unfoldable pub write_back :
    Bool → Holders → List Entry → (ℕ → Bool) → Cardholder → List CredentialIdentity → Outcome
write_back pair holders entries taken holder identities =
    let trigger = find awaits_write entries in
    let new = keep (λ i. not (has_card (identity_card i) entries)) identities in
    if is_nil entries
    then refused
    else if not (is_some trigger) && not (any (λ i. has_card (identity_card i) entries) identities)
    then refused
    else if is_nil new
    then nothing_new
    else if any (λ i. on_any holders (identity_card i)) new
    then refused
    else fit entries trigger (writable pair trigger new) (free_slots taken holder.slots)

-- Marked for deletion: a card AccessGrid deleted, written and not dormant.
unfoldable pub is_marked : List CardKey → Entry → Bool
is_marked gone e =
    any (λ card. pair_same card (entry_card e)) gone
    && not (is_unwritten e || awaits_delete e)
    && not e.dormant

unfoldable pub mark : List CardKey → Entry → Entry
unfolding is_marked
mark gone e = if is_marked gone e then record e { pending = some delete } else e

-- The boxes of the cards on a cardholder, and the entries that a status is for.
unfoldable pub is_switched : List Slot → Entry → Bool
is_switched slots e = holds_card (entry_card e) slots && not (is_unwritten e || awaits_delete e)

unfoldable pub box_of : List Slot → Entry → Bool
unfolding slot_with
box_of slots e = elim (slot_with (entry_card e) slots) [ none ↦ false | some slot ↦ slot.active ]

-- Switched on by us, and off by now.
unfoldable pub switched_off : List Slot → Entry → Bool
unfolding is_switched box_of
switched_off slots e =
    is_switched slots e && elim e.active [ some true ↦ true | _ ↦ false ] && not (box_of slots e)

unfoldable pub switch : Bool → List Slot → Entry → Entry
unfolding is_switched box_of
switch want slots e =
    if not (is_switched slots e)
    then e
    else if (if want then box_of slots e else not (box_of slots e))
    then record e { active = some want; pending = none }
    else record e { pending = some (if want then activate else deactivate) }

module _ (encrypt decrypt : String → String) (holders : Holders) where
  finish_write : String → String → List Entry → Table → Outcome → Bool × Table
  finish_write pid credential entries table refused = (false, table)
  finish_write pid credential entries table nothing_new = (true, table)
  finish_write pid credential entries table (adds new) =
      (true, record_cards encrypt decrypt pid credential (entries ++ new) table)

  -- `write_back_credentials`
  unfoldable pub write_back_credentials :
      Bool → String → String → List CredentialIdentity → Table → Bool × Table
  unfolding finish_write
  write_back_credentials pair pid credential identities table =
      let entries = get decrypt pid credential table in
      elim (lookup pid holders) [
        | none ↦ (false, table)
        | some holder ↦ finish_write pid credential entries table (
            write_back pair holders entries (slots_taken (entries_for_person decrypt pid table))
              holder identities)
      ]

  -- `retire_credentials`
  unfoldable pub retire_credentials : String → String → List CredentialIdentity → Table → ℕ × Table
  retire_credentials pid credential identities table =
      let entries = get decrypt pid credential table in
      let gone = map identity_card identities in
      let marked = count_if (is_marked gone) entries in
      (
        marked,
        if nat_eqb marked 0
            then table
            else record_cards encrypt decrypt pid credential (map (mark gone) entries) table,
      )

  -- `update_credential_status`
  unfoldable pub update_credential_status :
      String → String → CredentialStatus → Table → Bool × Table
  update_credential_status pid credential status table =
      let entries = get decrypt pid credential table in
      elim (lookup pid holders) [
        | none ↦ (false, table)
        | some holder ↦
            if not (any (is_switched holder.slots) entries)
            then (false, table)
            else if is_active status && any (switched_off holder.slots) entries
            then (false, table)
            else (
              true,
              record_cards encrypt decrypt pid credential
                  (map (switch (is_active status) holder.slots) entries) table,
            )
      ]
