-- ===== src/Millennium/Files.antt =====
-- About the files that an import is split into (src/agsync/lib/pacs/millennium_ultra/import_file.py).
use mathlib.Core.Path.{subst, sym, ◌∙◌}
use integration_hub.Prelude.{
  ℕ, ◌+◌, ◌≡◌, refl, Bool, false, some, List, [], ◌∷◌, ◌++◌, if◌then◌else◌, any, count_if, lookup,
  insert, append_at, or_empty, All, Bool-cases, inl, inr, arith,
}
use integration_hub.Millennium.ImportFile.{
  Row, Column, Groups, columns, columns_eq, columns_same, columns_same_iff, group_rows, build,
  lacks_identity,
}

-- How many rows of all the files pass a test.
pub total : (Row → Bool) → Groups → ℕ
total p [] = 0
total p ((key, rows) ∷ groups) = count_if p rows + total p groups

-- A file's rows have its columns.
abbrev pub IsUniform : List Column × List Row → Type 0
IsUniform (key, rows) = All (λ row. columns row ≡ key) rows

total-nil : (p : Row → Bool) (rows : List Row) → total p [] + count_if p rows ≡ count_if p rows
unfolding total
total-nil p rows = omega arith

count-append :
    (p : Row → Bool) (rows : List Row) (row : Row)
    → count_if p (rows ++ row ∷ []) ≡ count_if p rows + (if p row then 1 else 0)
unfolding count_if
count-append p [] row = ground arith
count-append p (r ∷ rows) row = ground (arith, count-append p rows row)

total-insert :
    (p : Row → Bool) (key : List Column) (rows : List Row) (groups : Groups)
    → total p (insert key rows groups) + count_if p (or_empty (lookup key groups))
      ≡ total p groups + count_if p rows
unfolding total insert lookup count_if
total-insert p key rows [] = omega arith
total-insert p key rows ((own, old) ∷ groups) = ground (arith, total-insert p key rows groups)

All-append :
    (key : List Column) (rows : List Row) (row : Row)
    → IsUniform (key, rows)
    → columns row ≡ key
    → IsUniform (key, rows ++ row ∷ [])
All-append key [] row h e = (e, tt)
All-append key (r ∷ rows) row h e = (h.0, All-append key rows row h.1 e)

lookup-IsUniform :
    (key : List Column) (groups : Groups)
    → All IsUniform groups
    → IsUniform (key, or_empty (lookup key groups))
unfolding lookup
lookup-IsUniform key [] h = tt
lookup-IsUniform key ((own, rows) ∷ groups) h = elim (Bool-cases (columns_same own key)) [
  | inl e ↦ rw e (subst (λ k. IsUniform (k, rows)) ((columns_same_iff own key).0 e) h.0)
  | inr e ↦ rw e (lookup-IsUniform key groups h.1)
]

insert-IsUniform :
    (key : List Column) (rows : List Row) (groups : Groups)
    → All IsUniform groups
    → IsUniform (key, rows)
    → All IsUniform (insert key rows groups)
unfolding insert
insert-IsUniform key rows [] h k = (k, tt)
insert-IsUniform key rows ((own, old) ∷ groups) h k = elim (Bool-cases (columns_same own key)) [
  | inl e ↦ rw e (subst (λ c. IsUniform (c, rows)) (sym ((columns_same_iff own key).0 e)) k, h.1)
  | inr e ↦ rw e (h.0, insert-IsUniform key rows groups h.1 k)
]

group_rows-IsUniform :
    (groups : Groups) (rows : List Row)
    → All IsUniform groups
    → All IsUniform (group_rows groups rows)
unfolding group_rows append_at
group_rows-IsUniform groups [] h = h
group_rows-IsUniform groups (row ∷ rows) h =
    group_rows-IsUniform (append_at (columns row) row groups) rows (
      insert-IsUniform (columns row) _ groups h
        (All-append (columns row) _ row (lookup-IsUniform (columns row) groups h) refl))

total-append_at :
    (p : Row → Bool) (row : Row) (groups : Groups)
    → total p (append_at (columns row) row groups) ≡ total p groups + (if p row then 1 else 0)
unfolding append_at
total-append_at p row groups = omega (
  arith,
  total-insert p (columns row) (or_empty (lookup (columns row) groups) ++ row ∷ []) groups,
  count-append p (or_empty (lookup (columns row) groups)) row,
)

total-group_rows :
    (p : Row → Bool) (groups : Groups) (rows : List Row)
    → total p (group_rows groups rows) ≡ total p groups + count_if p rows
unfolding group_rows count_if
total-group_rows p groups [] = omega arith
total-group_rows p groups (row ∷ rows) = ground (
  arith,
  total-append_at p row groups,
  total-group_rows p (append_at (columns row) row groups) rows,
)

-- An import whose rows name for every card its number and its facility code is split into files in
-- which all rows have the file's columns, and which hold each row as often as it is given.
pub build-IsUniform :
    (rows : List Row) (p : Row → Bool)
    → any lacks_identity rows ≡ false
    → (files : Groups) × (build rows ≡ some files)
      × All IsUniform files
      × (total p files ≡ count_if p rows)
unfolding build
build-IsUniform rows p complete = (
  group_rows [] rows,
  rw complete refl,
  group_rows-IsUniform [] rows tt,
  total-group_rows p [] rows ∙ total-nil p rows,
)
