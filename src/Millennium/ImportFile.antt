-- ===== src/Millennium/ImportFile.antt =====
-- The files of an import (src/agsync/lib/pacs/millennium_ultra/import_file.py): which rows go into
-- which file, and their columns. Writing a file as CSV is left out.
use Prim.Native.String.{compare, ◌++◌ as str_append}
use Prim.Native.Nat.{Ordering}
use integration_hub.Prelude.{
  ℕ, String, Bool, true, false, not, ◌&&◌, ◌||◌, ◌≡◌, ◌↔◌, Option, none, some, List, [], ◌∷◌, ◌++◌,
  if◌then◌else◌, ◌==◌, string_eq, Eq, eq_iff, nat_eqb, ltb, any, nonempty, text_of, lookup, insert,
  append_at, arith,
}
use integration_hub.Millennium.Cardholders.{AccessLevel}

-- A card (0 for the cardholder) and a label.
abbrev pub Column : Type 0
Column = ℕ × String

abbrev pub column_same : Column → Column → Bool
column_same (a, s) (b, t) = nat_eqb a b && s == t

pub column_same_iff : (c d : Column) → (column_same c d ≡ true) ↔ (c ≡ d)
column_same_iff (a, s) (b, t) = ground (arith, eq_iff s t)

instance abbrev pub column_eq : Eq Column
column_eq = record { same = column_same; same_iff = column_same_iff }

abbrev pub columns_same : List Column → List Column → Bool
columns_same [] [] = true
columns_same (c ∷ cs) (d ∷ ds) = column_same c d && columns_same cs ds
columns_same _ _ = false

pub columns_same_iff : (cs ds : List Column) → (columns_same cs ds ≡ true) ↔ (cs ≡ ds)
columns_same_iff [] [] = ground arith
columns_same_iff [] (d ∷ ds) = ground arith
columns_same_iff (c ∷ cs) [] = ground arith
columns_same_iff (c ∷ cs) (d ∷ ds) = ground (arith, column_same_iff c d, columns_same_iff cs ds)

instance abbrev pub columns_eq : Eq (List Column)
columns_eq = record { same = columns_same; same_iff = columns_same_iff }

-- `Row`
pub record Row : Type 0 where
  pub employee_id : String
  pub first_name : String
  pub last_name : String
  pub cells : List (Column × String)

-- `_KEY_COLUMNS`
abbrev pub key_columns : List Column
key_columns = (0, "Employee ID") ∷ (0, "First Name") ∷ (0, "Last Name") ∷ []

comes_before : Column → Column → Bool
comes_before (a, s) (b, t) =
    ltb a b || (nat_eqb a b && elim (compare s t) [ Ordering.gt ↦ false | _ ↦ true ])

put_column : Column → List Column → List Column
put_column c [] = c ∷ []
put_column c (d ∷ ds) = if comes_before c d then c ∷ d ∷ ds else d ∷ put_column c ds

sorted_columns : List (Column × String) → List Column
sorted_columns [] = []
sorted_columns ((c, value) ∷ cells) = put_column c (sorted_columns cells)

-- `Row.columns`
unfoldable pub columns : Row → List Column
unfolding comes_before put_column sorted_columns
columns row = key_columns ++ sorted_columns row.cells

-- `Row.values`, at a column: a cell replaces a key column.
unfoldable pub value_at : Row → Column → String
value_at row c = text_of (
    lookup c (
      row.cells
      ++ ((0, "Employee ID"), row.employee_id)
        ∷ ((0, "First Name"), row.first_name)
        ∷ ((0, "Last Name"), row.last_name)
        ∷ []))

level_label : String → String → String
level_label position rest = str_append "Access Level " (str_append position rest)

-- `access_level_cells`, from the cells so far, none at first; `decimal` prints a position.
unfoldable pub access_level_cells :
    (ℕ → String) → ℕ → List AccessLevel → List (Column × String) → List (Column × String)
unfolding level_label
access_level_cells decimal card [] cells = cells
access_level_cells decimal card (level ∷ levels) cells =
    let name = decimal level.position in
    let named = insert (card, level_label name "") level.name cells in
    let started : List (Column × String) =
      if nonempty level.activation
      then insert (card, level_label name " Activation Date") level.activation named
      else named in
    access_level_cells decimal card levels (
      if nonempty level.expiration
      then insert (card, level_label name " Expiration Date") level.expiration started
      else started)

-- A card named in the cells lacks its number or its facility code.
unfoldable pub lacks_identity : Row → Bool
lacks_identity row =
    any
      (λ cell.
        not (nat_eqb cell.0.0 0)
        && not (
            nonempty (text_of (lookup (cell.0.0, "Encoded Card No.") row.cells))
            && nonempty (text_of (lookup (cell.0.0, "Facility Code") row.cells))))
      row.cells

abbrev pub Groups : Type 0
Groups = List (List Column × List Row)

unfoldable pub group_rows : Groups → List Row → Groups
group_rows groups [] = groups
group_rows groups (row ∷ rows) = group_rows (append_at (columns row) row groups) rows

-- `build`, up to the text of the files; `none` is a ValueError.
unfoldable pub build : List Row → Option Groups
unfolding lacks_identity group_rows
build rows = if any lacks_identity rows then none else some (group_rows [] rows)
