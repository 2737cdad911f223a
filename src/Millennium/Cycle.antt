-- ===== src/Millennium/Cycle.antt =====
-- The deletions at the end of a cycle: `_delete_cards`
-- (src/agsync/lib/pacs/millennium_ultra/adapter.py).
use integration_hub.Prelude.{
  String, Bool, true, false, not, none, some, List, [], ◌∷◌, if◌then◌else◌, string_eq, any, lookup,
  is_nil,
}
use integration_hub.Millennium.Cardholders.{
  Slot, Entry, CardKey, entry_card, awaits_delete, holds_card,
}
use integration_hub.Millennium.WriteBack.{Holders}
use integration_hub.Millennium.Ledger.{Table, all, record_cards, forget}

-- What `delete_card_by_number` answers: it raises, or says whether the card is deleted.
pub data Deleted : Type 0 where
  raised : Deleted
  refused : Deleted
  deleted : Deleted

-- The cards that Millennium was asked to delete, and what is left of a pass's entries.
pub record Deletions : Type 0 where
  pub calls : List (String × CardKey)
  pub left : List Entry

abbrev keep_entry : Entry → Deletions → Deletions
keep_entry e d = record d { left = e ∷ d.left }

-- The loop over the entries of one pass. A call's answer may depend on the calls before it.
module _ (dry : Bool) (answer : List (String × CardKey) → String → CardKey → Deleted) where
  -- One entry: whether it is dropped, and the calls with its own.
  unfoldable pub delete_one :
      String → List Slot → List (String × CardKey) → Entry → Bool × List (String × CardKey)
  delete_one pid slots calls e =
      if not (awaits_delete e)
      then (false, calls)
      else if not (holds_card (entry_card e) slots)
      then (true, calls)
      else if dry
      then (false, calls)
      else (
        elim (answer calls pid (entry_card e)) [ deleted ↦ true | _ ↦ false ],
        (pid, entry_card e) ∷ calls,
      )

  unfoldable pub delete_entries :
      String → List Slot → List (String × CardKey) → List Entry → Deletions
  unfolding delete_one
  delete_entries pid slots calls [] = record { calls = calls; left = [] }
  delete_entries pid slots calls (e ∷ entries) =
      let one = delete_one pid slots calls e in
      let rest = delete_entries pid slots one.1 entries in if one.0 then rest else keep_entry e rest

  module _ (encrypt decrypt : String → String) (holders : Holders) where
    unfoldable pub delete_passes :
        List ((String × String) × List Entry)
        → List (String × CardKey)
        → Table
        → List (String × CardKey) × Table
    unfolding delete_entries
    delete_passes [] calls table = (calls, table)
    delete_passes (((pid, credential), entries) ∷ passes) calls table = elim (lookup pid holders) [
      | none ↦ delete_passes passes calls table
      | some holder ↦
          if not (any awaits_delete entries)
          then delete_passes passes calls table
          else let d = delete_entries pid holder.slots calls entries in
            delete_passes passes d.calls (
              if is_nil d.left
              then forget pid credential table
              else record_cards encrypt decrypt pid credential d.left table)
    ]

    -- `_delete_cards`
    unfoldable pub delete_cards : Table → List (String × CardKey) × Table
    unfolding delete_passes
    delete_cards table = delete_passes (all decrypt table) [] table
