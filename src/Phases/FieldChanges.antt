-- ===== src/Phases/FieldChanges.antt =====
-- Phase 6: a person's changed fields go to AccessGrid
-- (src/agsync/sync/phases/phase6_field_changes.py).
pub mod Licence
pub mod Settled
use integration_hub.Prelude.{
  ℕ, ◌+◌, String, Bool, false, not, ◌&&◌, ◌||◌, ◌==◌, string_eq, Option, none, some, [], ◌∷◌, ◌++◌,
  is_nil, is_some, either, text_of, one_of, nonempty, if◌then◌else◌,
}
use integration_hub.Pacs.{Person, Credential}
use integration_hub.AccessGrid.{Attrs}
use integration_hub.Tracking
use integration_hub.Tracking.{Row, FieldTracking}
use integration_hub.World.{
  Services, Exec, ag_update, pure, gets, perform, try_ag, on_rows, for_each, ◌>>=◌, ◌>>◌,
}
use integration_hub.Snapshot.{Snapshot, person_of, credential_of}

abbrev isoformat_or_empty : (ℕ → String) → Option ℕ → String
isoformat_or_empty isoformat none = ""
isoformat_or_empty isoformat (some at) = isoformat at

module _ (env : Services) where
  unfoldable pub expiration_of : Option Credential → String
  expiration_of none = ""
  expiration_of (some cred) = isoformat_or_empty env.isoformat cred.deactivate_date

abbrev pub change_if : Bool → String → String → Attrs
change_if b key value = if b then (key, value) ∷ [] else []

abbrev differs_from : String → Option String → Bool
differs_from expiration none = false
differs_from expiration (some last) = nonempty expiration && not (expiration == last)

-- `changes`, in the order in which the keys are set.
unfoldable pub changes_of : Row → Person → String → Attrs
changes_of tracked person expiration =
    change_if (nonempty person.full_name && not (person.full_name == tracked.last_synced_full_name))
      "full_name" person.full_name
    ++ (change_if (not (person.phone == tracked.last_synced_phone) && nonempty person.phone)
          "phone_number" person.phone
        ++ (change_if (not (person.title == tracked.last_synced_title)) "title" person.title
            ++ change_if (differs_from expiration tracked.last_synced_expiration) "expiration_date"
                expiration))

unfoldable pub email_changed : Row → Person → Bool
email_changed tracked person =
    nonempty person.email && not (person.email == tracked.last_synced_email)

unfoldable pub first_expiry : Row → String → Bool
first_expiry tracked expiration =
    not (is_some tracked.last_synced_expiration) && nonempty expiration

-- What is recorded as synced.
unfoldable pub synced_fields : Row → Person → String → FieldTracking
synced_fields tracked person expiration = record {
  full_name = person.full_name;
  email = person.email;
  phone = person.phone;
  title = person.title;
  expiration = either expiration (text_of tracked.last_synced_expiration);
}

module _ (env : Services) (snapshot : Snapshot) where
  unfoldable pub record_fields : ℕ → Row → Person → String → Exec ℕ
  record_fields n tracked person expiration = do
    on_rows (λ w.
        Tracking.update_field_tracking (env.now w) tracked.pacs_person_id tracked.pacs_credential_id
          (synced_fields tracked person expiration))
    pure n

  -- The update; `none` stands for the `continue` of a dry run or a refusal.
  unfoldable pub send_changes : Row → Attrs → Exec (Option (Unit {0}))
  send_changes tracked changes =
      let id = text_of tracked.ag_card_id in
      try_ag
        (do
          dry ← gets env.dry_run
          if dry then pure none else (do
            perform (ag_update id changes) (λ w. env.update w id changes)
            pure (some tt)))
        (λ _. pure none)

  unfoldable pub after_send : ℕ → Row → Person → String → Option (Unit {0}) → Exec ℕ
  after_send n tracked person expiration none = pure n
  after_send n tracked person expiration (some _) = record_fields (n + 1) tracked person expiration

  unfoldable pub sync_fields : ℕ → Row → Person → String → Exec ℕ
  sync_fields n tracked person expiration =
      let changes = changes_of tracked person expiration in
      if is_nil changes
        && not (email_changed tracked person)
        && not (first_expiry tracked expiration)
      then pure n
      else if is_nil changes
      then record_fields n tracked person expiration
      else (do sent ← send_changes tracked changes; after_send n tracked person expiration sent)

  abbrev pub held : Option Credential → Bool
  held none = false
  held (some cred) = cred.hold

  unfoldable pub sync_person : ℕ → Row → Option Person → Option Credential → Exec ℕ
  sync_person n tracked none cred = pure n
  sync_person n tracked (some person) cred =
      if held cred then pure n else sync_fields n tracked person (expiration_of env cred)

  -- The body of the loop.
  unfoldable pub sync_row : ℕ → Row → Exec ℕ
  sync_row n tracked =
      if one_of tracked.status ("deleted" ∷ "deduped" ∷ [])
        || not (nonempty (text_of tracked.ag_card_id))
      then pure n
      else sync_person n tracked (person_of snapshot tracked) (credential_of snapshot tracked)

  unfoldable pub run : Exec ℕ
  run = do rows ← gets (λ w. Tracking.all_tracked w.rows); for_each sync_row rows 0
