-- ===== src/Millennium/Imports.antt =====
-- The import at the end of a cycle: `finish_cycle` after its deletions, and `_new_card_cells`
-- (src/agsync/lib/pacs/millennium_ultra/adapter.py).
use integration_hub.Prelude.{
  ℕ, String, Bool, true, false, not, ◌&&◌, none, some, List, [], ◌∷◌, ◌++◌, map, if◌then◌else◌,
  string_eq, pair_same, any, keep, lookup, insert as put, is_nil, one_of, is_some,
}
use integration_hub.Millennium.Cardholders.{
  Slot, AccessLevel, Cardholder, Entry, CardKey, insert, activate, deactivate, entry_card,
  awaits_write, awaits_insert, slot_with,
}
use integration_hub.Millennium.WriteBack.{Holders}
use integration_hub.Millennium.Ledger.{Table, all, record_cards}
use integration_hub.Millennium.ImportFile.{Row, Column, column_eq, access_level_cells}

-- `e.get("pending") in ("activate", "deactivate", "insert")`
abbrev pub is_change : Entry → Bool
is_change e = elim e.pending [
  | some activate ↦ true
  | some deactivate ↦ true
  | some insert ↦ true
  | _ ↦ false
]

abbrev pub awaits_activate : Entry → Bool
awaits_activate e = elim e.pending [ some activate ↦ true | _ ↦ false ]

-- The access levels of the first of these cards that has any on the cardholder.
levels_of : List Slot → List Entry → List AccessLevel
levels_of slots [] = []
levels_of slots (e ∷ entries) =
    let others = levels_of slots entries in
    elim (slot_with (entry_card e) slots) [
      | none ↦ others
      | some slot ↦ if is_nil slot.access_levels then others else slot.access_levels
    ]

-- The trigger card's levels, and where it has been replaced those of a card of the pass.
unfoldable pub trigger_levels : List Slot → List Entry → List AccessLevel
unfolding levels_of
trigger_levels slots entries =
    levels_of slots (
      keep awaits_write entries
      ++ keep (λ e. not (awaits_write e) && not (awaits_insert e)) entries)

-- `_new_card_cells`; `now` is the text of the instant, local to the install.
unfoldable pub new_card_cells :
    (ℕ → String) → String → String → ℕ → List Slot → List Entry → List (Column × String)
unfolding trigger_levels
new_card_cells decimal label now slot slots entries =
    ((slot, "Card Format"), label)
    ∷ ((slot, "Activation Date"), now)
    ∷ ((slot, "Active"), "False")
    ∷ access_level_cells decimal slot (trigger_levels slots entries) []

put_all : List (Column × String) → List (Column × String) → List (Column × String)
put_all [] cells = cells
put_all ((c, value) ∷ more) cells = put_all more (put c value cells)

-- The cells of the changes of one pass, put on those of the row so far.
module _ (decimal : ℕ → String) (label now : String) (slots : List Slot)
    (entries : List Entry) where
  unfoldable pub change_cells : List Entry → List (Column × String) → List (Column × String)
  unfolding put_all new_card_cells
  change_cells [] cells = cells
  change_cells (e ∷ changes) cells =
      let named : List (Column × String) =
        put (e.slot, "Facility Code") e.facility_code
          (put (e.slot, "Encoded Card No.") e.card_number cells) in
      change_cells changes (
        if awaits_insert e
        then put_all (new_card_cells decimal label now e.slot slots entries) named
        else put (e.slot, "Active") (if awaits_activate e then "True" else "False") named)

-- An entry after an import that did not skip its row.
unfoldable pub settle_entry : List CardKey → Entry → Entry
settle_entry skipped e =
    if is_change e && not (any (λ card. pair_same card (entry_card e)) skipped)
    then record e { active = some (awaits_activate e); pending = none }
    else e

-- Whether a card is newly in.
unfoldable pub is_taken : List CardKey → Entry → Bool
is_taken skipped e = awaits_insert e && not (any (λ card. pair_same card (entry_card e)) skipped)

-- The trigger card is dropped once a card has replaced it.
unfoldable pub settle : List CardKey → List Entry → List Entry
settle skipped entries =
    if any (is_taken skipped) entries
    then keep (λ e. not (awaits_write e)) (map (settle_entry skipped) entries)
    else map (settle_entry skipped) entries

-- What the logs of the imports of some rows say: the ids whose rows, and the cards, were skipped.
pub record Skips : Type 0 where
  pub ids : List String
  pub cards : List CardKey

abbrev pub Passes : Type 0
Passes = List ((String × String) × List Entry)

-- The passes with a change, of cardholders in the export.
unfoldable pub changed_passes : Holders → Passes → Passes
changed_passes holders [] = []
changed_passes holders ((key, entries) ∷ passes) =
    let rest = changed_passes holders passes in
    if any is_change entries && is_some (lookup key.0 holders) then (key, entries) ∷ rest else rest

-- `rows.setdefault(pid, Row(…))`
abbrev row_for : String → Cardholder → List (String × Row) → Row
row_for pid holder rows = elim (lookup pid rows) [
  | some row ↦ row
  | none ↦ record {
    employee_id = pid;
    first_name = holder.first_name;
    last_name = holder.last_name;
    cells = [];
  }
]

module _ (decimal : ℕ → String) (label now : String) (holders : Holders) where
  unfoldable pub rows_of : List (String × Row) → Passes → List (String × Row)
  unfolding change_cells
  rows_of rows [] = rows
  rows_of rows (((pid, credential), entries) ∷ passes) =
      rows_of
        (elim (lookup pid holders) [
          | none ↦ rows
          | some holder ↦
              let row = row_for pid holder rows in
              put pid
                (record row {
                  cells =
                      change_cells decimal label now holder.slots entries (keep is_change entries)
                        row.cells;
                })
                rows
        ])
        passes

  module _ (encrypt decrypt : String → String) where
    settle_passes : Skips → Passes → Table → Table
    settle_passes skips [] table = table
    settle_passes skips (((pid, credential), entries) ∷ passes) table = settle_passes skips passes (
        if one_of pid skips.ids
        then table
        else record_cards encrypt decrypt pid credential (settle skips.cards entries) table)

    -- The rows that are sent, none in a dry run, and the recorded cards afterwards. `imports` stands
    -- for the imports of the rows' files and their logs.
    unfoldable pub import_changes : Bool → (List Row → Skips) → Table → List Row × Table
    unfolding settle_passes settle
    import_changes dry imports table =
        let passes = changed_passes holders (all decrypt table) in
        let rows = map (λ (entry : String × Row). entry.1) (rows_of [] passes) in
        if is_nil rows
        then ([], table)
        else if dry
        then ([], table)
        else (rows, settle_passes (imports rows) passes table)
