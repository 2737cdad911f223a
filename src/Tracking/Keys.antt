-- ===== src/Tracking/Keys.antt =====
-- The primary key of the table (src/agsync/sync/tracking.py): person and credential.
use text.Mathlib.TextPositions.{eq_refl}
use integration_hub.Prelude.{
  ℕ, ◌≤◌, ◌≡◌, refl, sym, arith, ◌⊎◌, inl, inr, String, Bool, true, false, string_eq, Option, [],
  ◌∷◌, count_if, keep, eq_iff, Bool-cases,
}
use integration_hub.Tracking.{
  Row, Table, has_key, update_where, insert_or_update, Upsert, upsert, update_status, mark_deleted,
  record_error, remove, FieldTracking, update_field_tracking, update_last_known_ag_state,
  mark_deduped,
}

-- The primary key.
abbrev pub IsKeyed : Table → Type 0
IsKeyed rows = (p c : String) → count_if (has_key p c) rows ≤ 1

-- `f` leaves the key columns alone.
abbrev pub KeepsKey : (Row → Row) → Type 0
KeepsKey f = (r : Row) (p c : String) → has_key p c (f r) ≡ has_key p c r

count-update_where :
    (p c : String) (f : Row → Row)
    → KeepsKey f
    → (rows : Table) (q d : String)
    → count_if (has_key q d) (update_where p c f rows) ≡ count_if (has_key q d) rows
unfolding count_if update_where
count-update_where p c f k [] q d = refl
count-update_where p c f k (r ∷ rows) q d =
    ground (arith, k r q d, count-update_where p c f k rows q d)

update_where-IsKeyed :
    (p c : String) (f : Row → Row)
    → KeepsKey f
    → (rows : Table) → IsKeyed rows
    → IsKeyed (update_where p c f rows)
update_where-IsKeyed p c f k rows h q d = rw (count-update_where p c f k rows q d) (h q d)

pub has_key_self : (r : Row) → has_key r.pacs_person_id r.pacs_credential_id r ≡ true
unfolding has_key
has_key_self r = ground (arith, eq_refl r.pacs_person_id, eq_refl r.pacs_credential_id)

pub has_key-true :
    (p c : String) (r : Row)
    → has_key p c r ≡ true
    → (r.pacs_person_id ≡ p) × (r.pacs_credential_id ≡ c)
unfolding has_key
has_key-true p c r h = ground (arith, eq_iff r.pacs_person_id p, eq_iff r.pacs_credential_id c)

module _ (new : Row) (f : Row → Row) (k : KeepsKey f) where
  -- The new row's own key: one row more at most, and none where there was one.
  count-insert_own :
      (rows : Table)
      → let own = has_key new.pacs_person_id new.pacs_credential_id in
        (count_if own (insert_or_update new f rows) ≡ count_if own rows)
        ⊎ ((count_if own (insert_or_update new f rows) ≡ 1) × (count_if own rows ≡ 0))
  unfolding count_if insert_or_update
  count-insert_own [] = ground (arith, has_key_self new)
  count-insert_own (r ∷ rows) =
      ground (arith, k r new.pacs_person_id new.pacs_credential_id, count-insert_own rows)

  count-insert_other :
      (q d : String)
      → has_key q d new ≡ false
      → (rows : Table)
      → count_if (has_key q d) (insert_or_update new f rows) ≡ count_if (has_key q d) rows
  unfolding count_if insert_or_update
  count-insert_other q d h [] = ground arith
  count-insert_other q d h (r ∷ rows) = ground (arith, k r q d, count-insert_other q d h rows)

  insert_or_update-IsKeyed : (rows : Table) → IsKeyed rows → IsKeyed (insert_or_update new f rows)
  insert_or_update-IsKeyed rows h q d = elim (Bool-cases (has_key q d new)) [
    | inl e ↦
        rw (sym (has_key-true q d new e).0, sym (has_key-true q d new e).1)
          (ground (arith, count-insert_own rows, h new.pacs_person_id new.pacs_credential_id))
    | inr e ↦ rw (count-insert_other q d e rows) (h q d)
  ]

count-keep-le :
    (p : Row → Bool) (rows : Table) (q d : String)
    → count_if (has_key q d) (keep p rows) ≤ count_if (has_key q d) rows
unfolding count_if keep
count-keep-le p [] q d = omega arith
count-keep-le p (r ∷ rows) q d = ground (arith, count-keep-le p rows q d)

keep-IsKeyed : (p : Row → Bool) (rows : Table) → IsKeyed rows → IsKeyed (keep p rows)
keep-IsKeyed p rows h q d = omega (arith, count-keep-le p rows q d, h q d)

-- Each statement that writes the table keeps the primary key: no pair of person and credential
-- gets a second row, by an insert, an update or a removal.
pub statements-IsKeyed :
    (now : ℕ) (p c : String) (u : Upsert) (id : Option String) (name status state error : String)
    (fields : FieldTracking) (rows : Table)
    → IsKeyed rows
    → IsKeyed (upsert now u rows)
      × IsKeyed (mark_deduped now p c id name rows)
      × IsKeyed (update_status now p c status state rows)
      × IsKeyed (mark_deleted now p c rows)
      × IsKeyed (record_error now p c error rows)
      × IsKeyed (update_field_tracking now p c fields rows)
      × IsKeyed (update_last_known_ag_state now p c state rows)
      × IsKeyed (remove p c rows)
unfolding upsert mark_deduped update_status mark_deleted record_error update_field_tracking
    update_last_known_ag_state remove has_key
statements-IsKeyed now p c u id name status state error fields rows h = (
  insert_or_update-IsKeyed _ _ (λ r q d. refl) rows h,
  insert_or_update-IsKeyed _ _ (λ r q d. refl) rows h,
  update_where-IsKeyed p c _ (λ r q d. refl) rows h,
  update_where-IsKeyed p c _ (λ r q d. refl) rows h,
  update_where-IsKeyed p c _ (λ r q d. refl) rows h,
  update_where-IsKeyed p c _ (λ r q d. refl) rows h,
  update_where-IsKeyed p c _ (λ r q d. refl) rows h,
  keep-IsKeyed _ rows h,
)
