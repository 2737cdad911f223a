-- ===== src/Tracking.antt =====
-- The tracking table `ag_credentials` (src/agsync/sync/tracking.py). A table is the list of its
-- rows; each statement is a function of it, with the clock's reading `now` where it stores one.
pub mod Keys
pub mod Lifecycle
pub mod Order
use integration_hub.Prelude.{
  ℕ, ◌+◌, ◌≡◌, String, Bool, true, false, ◌&&◌, not, ◌==◌, string_eq, Option, none, some, List, [],
  ◌∷◌, ◌++◌, map, leb, ltb, find, keep, is_some, either, nonempty, if◌then◌else◌,
}

-- `TrackedCredential`, with the two time stamps of the row.
pub record Row : Type 0 where
  pub pacs_person_id : String
  pub pacs_credential_id : String
  pub ag_card_id : Option String
  pub full_name : String
  pub employee_id : String
  pub status : String
  pub last_synced_email : String
  pub last_synced_phone : String
  pub last_synced_full_name : String
  pub last_synced_title : String
  pub last_known_ag_state : String
  pub sync_error : Option String
  pub retry_count : ℕ
  pub sync_ref : String
  pub last_synced_expiration : Option String
  pub created_at : ℕ
  pub updated_at : ℕ

abbrev pub Table : Type 0
Table = List Row

-- `WHERE pacs_person_id = ? AND pacs_credential_id = ?`
unfoldable pub has_key : String → String → Row → Bool
has_key person credential r = r.pacs_person_id == person && r.pacs_credential_id == credential

-- A stable sort, for `ORDER BY … ASC`.
unfoldable pub insert_by : (Row → ℕ) → Row → Table → Table
insert_by key r [] = r ∷ []
insert_by key r (s ∷ rows) = if leb (key r) (key s) then r ∷ s ∷ rows else s ∷ insert_by key r rows

unfoldable pub order_by : (Row → ℕ) → Table → Table
order_by key [] = []
order_by key (r ∷ rows) = insert_by key r (order_by key rows)

unfoldable pub all_tracked : Table → List Row
all_tracked = order_by (λ r. r.created_at)

unfoldable pub get : String → String → Table → Option Row
get person credential = find (has_key person credential)

-- `WHERE ag_card_id = ?`: a NULL equals nothing.
has_card_id : String → Row → Bool
has_card_id id r = elim r.ag_card_id [ none ↦ false | some own ↦ own == id ]

unfoldable pub get_by_ag_card_id : String → Table → Option Row
unfolding has_card_id
get_by_ag_card_id id = find (has_card_id id)

-- `UPDATE … WHERE` the key
unfoldable pub update_where : String → String → (Row → Row) → Table → Table
update_where person credential f = map (λ r. if has_key person credential r then f r else r)

-- `INSERT … ON CONFLICT(pacs_person_id, pacs_credential_id) DO UPDATE`
unfoldable pub insert_or_update : Row → (Row → Row) → Table → Table
insert_or_update new f [] = new ∷ []
insert_or_update new f (r ∷ rows) =
    if has_key new.pacs_person_id new.pacs_credential_id r
    then f r ∷ rows
    else r ∷ insert_or_update new f rows

-- The arguments of `upsert`.
pub record Upsert : Type 0 where
  pub pacs_person_id : String
  pub pacs_credential_id : String
  pub ag_card_id : Option String
  pub full_name : String
  pub employee_id : String
  pub status : String
  pub last_synced_email : String
  pub last_synced_phone : String
  pub last_synced_full_name : String
  pub last_synced_title : String
  pub last_known_ag_state : String
  pub sync_ref : String

abbrev pub upserted_new : ℕ → Upsert → Row
upserted_new now u = record {
  pacs_person_id = u.pacs_person_id;
  pacs_credential_id = u.pacs_credential_id;
  ag_card_id = u.ag_card_id;
  full_name = u.full_name;
  employee_id = u.employee_id;
  status = u.status;
  last_synced_email = u.last_synced_email;
  last_synced_phone = u.last_synced_phone;
  last_synced_full_name = u.last_synced_full_name;
  last_synced_title = u.last_synced_title;
  last_known_ag_state = u.last_known_ag_state;
  sync_error = none;
  retry_count = 0;
  sync_ref = u.sync_ref;
  last_synced_expiration = none;
  created_at = now;
  updated_at = now;
}

abbrev pub upserted_old : ℕ → Upsert → Row → Row
upserted_old now u r = record r {
  ag_card_id = u.ag_card_id;
  full_name = u.full_name;
  employee_id = u.employee_id;
  status = u.status;
  last_synced_email = u.last_synced_email;
  last_synced_phone = u.last_synced_phone;
  last_synced_full_name = u.last_synced_full_name;
  last_synced_title = u.last_synced_title;
  last_known_ag_state = u.last_known_ag_state;
  sync_ref = either u.sync_ref r.sync_ref;
  sync_error = none;
  updated_at = now;
}

unfoldable pub upsert : ℕ → Upsert → Table → Table
upsert now u = insert_or_update (upserted_new now u) (upserted_old now u)

unfoldable pub update_status : ℕ → String → String → String → String → Table → Table
update_status now person credential status last_known_ag_state = update_where person credential λ r.
    record r {
      status = status;
      last_known_ag_state = either last_known_ag_state r.last_known_ag_state;
      sync_error = none;
      retry_count = 0;
      updated_at = now;
    }

unfoldable pub mark_deleted : ℕ → String → String → Table → Table
mark_deleted now person credential = update_where person credential λ r. record r {
  status = "deleted";
  last_known_ag_state = "deleted";
  ag_card_id = none;
  sync_error = none;
  retry_count = 0;
  updated_at = now;
}

unfoldable pub record_error : ℕ → String → String → String → Table → Table
record_error now person credential error =
    update_where person credential
      λ r. record r { sync_error = some error; retry_count = r.retry_count + 1; updated_at = now }

-- `DELETE`
unfoldable pub remove : String → String → Table → Table
remove person credential = keep (λ r. not (has_key person credential r))

unfoldable pub retryable : ℕ → Row → Bool
retryable max_retries r =
    is_some r.sync_error && ltb r.retry_count max_retries && not (is_some r.ag_card_id)

unfoldable pub failed_records : ℕ → Table → List Row
failed_records max_retries rows = order_by (λ r. r.updated_at) (keep (retryable max_retries) rows)

-- The arguments of `update_field_tracking`.
pub record FieldTracking : Type 0 where
  pub full_name : String
  pub email : String
  pub phone : String
  pub title : String
  pub expiration : String

unfoldable pub update_field_tracking : ℕ → String → String → FieldTracking → Table → Table
update_field_tracking now person credential f = update_where person credential λ r. record r {
  last_synced_full_name = f.full_name;
  last_synced_email = f.email;
  last_synced_phone = f.phone;
  last_synced_title = f.title;
  last_synced_expiration = some f.expiration;
  updated_at = now;
}

unfoldable pub update_last_known_ag_state : ℕ → String → String → String → Table → Table
update_last_known_ag_state now person credential ag_state =
    update_where person credential
      λ r. record r { last_known_ag_state = ag_state; updated_at = now }

-- `mark_deduped`
unfoldable pub mark_deduped : ℕ → String → String → Option String → String → Table → Table
mark_deduped now person credential existing_ag_card_id full_name =
    insert_or_update
      (upserted_new now (record {
        pacs_person_id = person;
        pacs_credential_id = credential;
        ag_card_id = existing_ag_card_id;
        full_name = full_name;
        employee_id = person;
        status = "deduped";
        last_synced_email = "";
        last_synced_phone = "";
        last_synced_full_name = full_name;
        last_synced_title = "";
        last_known_ag_state = "";
        sync_ref = "";
      }))
      λ r. record r {
        ag_card_id = existing_ag_card_id;
        status = "deduped";
        sync_error = none;
        updated_at = now;
      }
