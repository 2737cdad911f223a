-- ===== src/Phases/FieldChanges/Settled.antt =====
-- The fields that phase 6 compares and records (src/agsync/sync/phases/phase6_field_changes.py).
use mathlib.Core.Option
use integration_hub.Prelude.{
  ℕ, ◌≡◌, refl, ap, ◌∙◌, arith, String, true, false, ◌==◌, string_eq, eq_iff, some, [],
}
use integration_hub.Pacs.{Person}
use integration_hub.Tracking
use integration_hub.Tracking.{Row, Table, FieldTracking}
use integration_hub.Tracking.Lifecycle.{get-update_where_own}
use integration_hub.Phases.FieldChanges.{changes_of, email_changed, first_expiry, synced_fields}

-- The row that `update_field_tracking` writes.
abbrev pub recorded : ℕ → FieldTracking → Row → Row
recorded now f r = record r {
  last_synced_full_name = f.full_name;
  last_synced_email = f.email;
  last_synced_phone = f.phone;
  last_synced_title = f.title;
  last_synced_expiration = some f.expiration;
  updated_at = now;
}

beq_refl : (s : String) → (s == s) ≡ true
beq_refl s = ground (arith, eq_iff s s)

-- The fields of a person who has just been recorded on the row.
pub record IsSettled (after : Row) (person : Person) (expiration : String) : Type 0 where
  pub changes : changes_of after person expiration ≡ []
  pub email : email_changed after person ≡ false
  pub expiry : first_expiry after expiration ≡ false

recorded-IsSettled :
    (now : ℕ) (r : Row) (person : Person) (expiration : String)
    → IsSettled (recorded now (synced_fields r person expiration) r) person expiration
unfolding synced_fields changes_of email_changed first_expiry
recorded-IsSettled now r person expiration = record {
  changes = ground (
    arith,
    beq_refl person.full_name,
    beq_refl person.phone,
    beq_refl person.title,
    beq_refl expiration,
  );
  email = ground (arith, beq_refl person.email);
  expiry = refl;
}

-- Once phase 6 has recorded a person's fields on the row of a key, the row is still found under the
-- key, and for the same person and date there is nothing to send: no field has changed, the email
-- has not, and the date is not seen for the first time.
pub update_field_tracking-IsSettled :
    (now : ℕ) (p c : String) (rows : Table) (r : Row) (person : Person) (expiration : String)
    → Tracking.get p c rows ≡ some r
    → (after : Row) × (Tracking.get p c
          (Tracking.update_field_tracking now p c (synced_fields r person expiration) rows)
        ≡ some after)
      × IsSettled after person expiration
unfolding Tracking.update_field_tracking Tracking.has_key
update_field_tracking-IsSettled now p c rows r person expiration h = (
  _,
  get-update_where_own p c (recorded now (synced_fields r person expiration)) (λ s x y. refl) rows
      ∙ ap (Option.map _) h,
  recorded-IsSettled now r person expiration,
)
