-- ===== src/Phases/Retries.antt =====
-- Phase 5: failed provisions are tried again (src/agsync/sync/phases/phase5_retries.py).
pub mod Licence
use integration_hub.Prelude.{
  ℕ, ◌+◌, String, not, ◌&&◌, Option, none, some, [], ◌∷◌, nonempty, if◌then◌else◌,
}
use integration_hub.Pacs.{Person, Credential}
use integration_hub.AccessGrid.{Card, card_id}
use integration_hub.Tracking
use integration_hub.Tracking.{Row}
use integration_hub.World.{
  Services, Exec, ag_provision, pure, gets, perform, try_any, on_rows, for_each, ◌>>=◌, ◌>>◌,
}
use integration_hub.Snapshot.{Snapshot, person_of, credential_of}
use integration_hub.Writeback.{push_allocated_identities}
use integration_hub.Phases.Params.{Config, dedupe_hit, provision_params, issued_row, error_text}

abbrev pub max_retries : ℕ
max_retries = 3

module _ (env : Services) (cfg : Config) (snapshot : Snapshot) where
  -- The body of the `try`, past the check of the switch.
  unfoldable pub provision : ℕ → String → ℕ → Row → Person → Credential → Exec ℕ
  provision now sync_ref n tracked person cred = do
    let params = provision_params env cfg now sync_ref tracked.pacs_person_id person cred
    card ← perform (ag_provision params) (λ w. env.provision w params)
    on_rows (λ w.
        Tracking.upsert (env.now w) (issued_row tracked.pacs_person_id person cred sync_ref card))
    if cred.allocate_identity
        then (do
          push_allocated_identities env tracked.pacs_person_id tracked.pacs_credential_id
              (card ∷ [])
          pure (n + 1))
        else pure (n + 1)

  unfoldable pub retry : ℕ → Row → Person → Credential → Exec ℕ
  retry n tracked person cred = do
    now ← gets env.now
    sync_ref ← gets env.new_sync_ref
    dry ← gets env.dry_run
    if dry
        then pure n
        else (try_any (provision now sync_ref n tracked person cred) λ e. do
          on_rows (λ w.
              Tracking.record_error (env.now w) tracked.pacs_person_id tracked.pacs_credential_id
                (error_text e))
          pure n)

  unfoldable pub dedupe_or_retry : ℕ → Row → Person → Credential → Option Card → Exec ℕ
  dedupe_or_retry n tracked person cred none = retry n tracked person cred
  dedupe_or_retry n tracked person cred (some hit) = do
    on_rows (λ w.
        Tracking.mark_deduped (env.now w) tracked.pacs_person_id tracked.pacs_credential_id
          (card_id hit) person.full_name)
    pure n

  -- The record is gone, or no longer eligible.
  unfoldable pub forget : ℕ → Row → Exec ℕ
  forget n tracked = do
    on_rows (λ _. Tracking.remove tracked.pacs_person_id tracked.pacs_credential_id)
    pure n

  unfoldable pub retry_eligible : ℕ → Row → Person → Credential → Exec ℕ
  retry_eligible n tracked person cred =
      if not (nonempty person.email) && not (nonempty person.phone)
      then (do
        on_rows (λ w.
            Tracking.record_error (env.now w) tracked.pacs_person_id tracked.pacs_credential_id
              "still missing email and phone")
        pure n)
      else dedupe_or_retry n tracked person cred (dedupe_hit cfg snapshot cred)

  unfoldable pub retry_known : ℕ → Row → Option Person → Option Credential → Exec ℕ
  retry_known n tracked person none = forget n tracked
  retry_known n tracked none (some cred) = if cred.hold then pure n else forget n tracked
  retry_known n tracked (some person) (some cred) =
      if cred.hold
      then pure n
      else if not cred.trigger_active
      then forget n tracked
      else retry_eligible n tracked person cred

  -- The body of the loop.
  unfoldable pub retry_row : ℕ → Row → Exec ℕ
  retry_row n tracked =
      retry_known n tracked (person_of snapshot tracked) (credential_of snapshot tracked)

  unfoldable pub run : Exec ℕ
  run = do rows ← gets (λ w. Tracking.failed_records max_retries w.rows); for_each retry_row rows 0
