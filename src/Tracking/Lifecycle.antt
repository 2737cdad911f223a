-- ===== src/Tracking/Lifecycle.antt =====
-- What a lookup of a row gives after each statement (src/agsync/sync/tracking.py).
use integration_hub.Prelude.{
  ℕ, ◌≡◌, refl, arith, String, Bool, true, ◌&&◌, ◌==◌, string_eq, eq_iff, Option, none, some, [],
  nonempty, ◌∷◌, find, keep, if◌then◌else◌,
}
use mathlib.Core.Option
use integration_hub.Tracking.{
  Row, Table, has_key, get, update_where, insert_or_update, Upsert, upserted_new, upserted_old,
  upsert, mark_deleted, remove,
}
use integration_hub.Tracking.Keys.{KeepsKey, has_key-true}

-- Two keys.
abbrev pub same_key : String → String → String → String → Bool
same_key p c q d = p == q && c == d

has_key-same :
    (p c q d : String) (r : Row) → has_key p c r ≡ true → has_key q d r ≡ same_key p c q d
unfolding has_key
has_key-same p c q d r h = rw ((has_key-true p c r h).0, (has_key-true p c r h).1) refl

beq-sym : (a b : String) → (a == b) ≡ (b == a)
beq-sym a b = ground (arith, eq_iff a b, eq_iff b a)

same_key-sym : (p c q d : String) → same_key p c q d ≡ same_key q d p c
same_key-sym p c q d = ground (arith, beq-sym p q, beq-sym c d)

module _ (p c : String) (f : Row → Row) (k : KeepsKey f) where
  get-update_where :
      (q d : String) (rows : Table)
      → get q d (update_where p c f rows)
        ≡ (if same_key p c q d then Option.map f (get q d rows) else get q d rows)
  unfolding get find update_where
  get-update_where q d [] = ground arith
  get-update_where q d (r ∷ rows) = ground (
    arith,
    k r q d,
    has_key-same p c q d r,
    has_key-same q d p c r,
    same_key-sym p c q d,
    get-update_where q d rows,
  )

  pub get-update_where_own :
      (rows : Table) → get p c (update_where p c f rows) ≡ Option.map f (get p c rows)
  get-update_where_own rows = ground (arith, get-update_where p c rows, eq_iff p p, eq_iff c c)

-- The row that an upsert leaves: the new one, or the old one with the new columns.
abbrev pub merged : Row → (Row → Row) → Option Row → Row
merged new f none = new
merged new f (some r) = f r

module _ (new : Row) (f : Row → Row) (k : KeepsKey f) where
  has_key_own :
      (q d : String) → has_key q d new ≡ same_key new.pacs_person_id new.pacs_credential_id q d
  unfolding has_key
  has_key_own q d = refl

  get-insert :
      (q d : String) (rows : Table)
      → get q d (insert_or_update new f rows)
        ≡ (if has_key q d new then some (merged new f (get q d rows)) else get q d rows)
  unfolding get find insert_or_update
  get-insert q d [] = ground arith
  get-insert q d (r ∷ rows) = ground (
    arith,
    k r q d,
    has_key-same new.pacs_person_id new.pacs_credential_id q d r,
    has_key-same q d new.pacs_person_id new.pacs_credential_id r,
    same_key-sym new.pacs_person_id new.pacs_credential_id q d,
    has_key_own q d,
    get-insert q d rows,
  )

-- The row that stands under a key after an upsert of it, column by column.
abbrev pub written : ℕ → Upsert → Option Row → Row
written now u old = record {
  pacs_person_id = elim old [ none ↦ u.pacs_person_id | some r ↦ r.pacs_person_id ];
  pacs_credential_id = elim old [ none ↦ u.pacs_credential_id | some r ↦ r.pacs_credential_id ];
  ag_card_id = u.ag_card_id;
  full_name = u.full_name;
  employee_id = u.employee_id;
  status = u.status;
  last_synced_email = u.last_synced_email;
  last_synced_phone = u.last_synced_phone;
  last_synced_full_name = u.last_synced_full_name;
  last_synced_title = u.last_synced_title;
  last_known_ag_state = u.last_known_ag_state;
  sync_error = none;
  retry_count = elim old [ none ↦ 0 | some r ↦ r.retry_count ];
  sync_ref =
      if nonempty u.sync_ref then u.sync_ref else elim old [ none ↦ "" | some r ↦ r.sync_ref ];
  last_synced_expiration = elim old [ none ↦ none | some r ↦ r.last_synced_expiration ];
  created_at = elim old [ none ↦ now | some r ↦ r.created_at ];
  updated_at = now;
}

merged-written :
    (now : ℕ) (u : Upsert) (old : Option Row)
    → merged (upserted_new now u) (upserted_old now u) old ≡ written now u old
merged-written now u none = ground arith
merged-written now u (some r) = ground arith

-- After an upsert, for every key: under its own key stands a row with the columns given, no error
-- and the time of the statement, which keeps the count of retries, the creation time, the expiration
-- that was synced and, where none is given, the sync reference of the row that stood there (of
-- which there are none, the time of the statement, none and none without such a row); under any
-- other key stands what stood there before.
pub get-upsert :
    (now : ℕ) (u : Upsert) (rows : Table) (q d : String)
    → get q d (upsert now u rows) ≡ (
        if same_key u.pacs_person_id u.pacs_credential_id q d
        then some (written now u (get q d rows))
        else get q d rows)
unfolding upsert has_key
get-upsert now u rows q d = ground (
  arith,
  get-insert (upserted_new now u) (upserted_old now u) (λ r x y. refl) q d rows,
  merged-written now u (get q d rows),
)

-- What is left of a row that has given up its pass: no card id and no error, the status and the
-- state `deleted`, no retries; the names, the sync reference and the expiry that were synced stay.
abbrev pub released : ℕ → Row → Row
released now r = record r {
  status = "deleted";
  last_known_ag_state = "deleted";
  ag_card_id = none;
  sync_error = none;
  retry_count = 0;
  updated_at = now;
}

-- After `mark_deleted`, for every key: the row under the given key, if there is one, has given up
-- its pass, and what stands under any other key is as before. No row disappears.
pub get-mark_deleted :
    (now : ℕ) (p c : String) (rows : Table) (q d : String)
    → get q d (mark_deleted now p c rows)
      ≡ (if same_key p c q d then Option.map (released now) (get q d rows) else get q d rows)
unfolding mark_deleted has_key
get-mark_deleted now p c rows q d = get-update_where p c (released now) (λ r x y. refl) q d rows

-- After `remove`, for every key: nothing stands under the given key, and what stands under any
-- other key is as before.
pub get-remove :
    (p c : String) (rows : Table) (q d : String)
    → get q d (remove p c rows) ≡ (if same_key p c q d then none else get q d rows)
unfolding get find remove keep
get-remove p c [] q d = ground arith
get-remove p c (r ∷ rows) q d = ground (
  arith,
  has_key-same p c q d r,
  has_key-same q d p c r,
  same_key-sym p c q d,
  get-remove p c rows q d,
)
