-- ===== src/Phases/Provision.antt =====
-- Phase 1: new credentials are provisioned (src/agsync/sync/phases/phase1_provision.py).
pub mod Licence
pub mod Cap
use integration_hub.Prelude.{
  ℕ, ◌+◌, String, Bool, true, false, not, ◌&&◌, ◌==◌, string_eq, Option, none, some, List, [], ◌∷◌,
  lookup, text_of, nonempty, leb, if◌then◌else◌,
}
use integration_hub.Pacs.{Person, Credential}
use integration_hub.AccessGrid.{Card, card_id, state_or_none}
use integration_hub.Tracking
use integration_hub.Tracking.{Row, Upsert}
use integration_hub.World.{
  Services, Exec, ag_provision, pure, gets, perform, try_any, on_rows, for_each, for_until, ◌>>=◌,
  ◌>>◌,
}
use integration_hub.Snapshot.{Snapshot, resolve_ag_card}
use integration_hub.Writeback.{push_allocated_identities}
use integration_hub.Phases.Params.{
  Config, expired, dedupe_hit, provision_params, issued_row, error_text,
}

abbrev pub max_provisions_per_cycle : ℕ
max_provisions_per_cycle = 25

-- The row in state `pending`, written before the call.
unfoldable pub pending_row : String → Person → Credential → Upsert
pending_row pid person cred = record {
  pacs_person_id = pid;
  pacs_credential_id = cred.id;
  ag_card_id = none;
  full_name = person.full_name;
  employee_id = pid;
  status = "pending";
  last_synced_email = person.email;
  last_synced_phone = person.phone;
  last_synced_full_name = person.full_name;
  last_synced_title = person.title;
  last_known_ag_state = "";
  sync_ref = "";
}

module _ (env : Services) (cfg : Config) (max_per_cycle : ℕ) (snapshot : Snapshot) where
  -- The body of the `try`.
  unfoldable pub provision : ℕ → String → ℕ → String → Person → Credential → Exec ℕ
  provision now sync_ref n pid person cred = do
    let params = provision_params env cfg now sync_ref pid person cred
    card ← perform (ag_provision params) (λ w. env.provision w params)
    on_rows (λ w. Tracking.upsert (env.now w) (issued_row pid person cred sync_ref card))
    if cred.allocate_identity
        then (do push_allocated_identities env pid cred.id (card ∷ []); pure (n + 1))
        else pure (n + 1)

  -- From the check of the cap on.
  unfoldable pub issue : ℕ → String → Person → Credential → Exec ℕ
  issue n pid person cred = if leb max_per_cycle n then pure n else (do
    now ← gets env.now
    sync_ref ← gets env.new_sync_ref
    dry ← gets env.dry_run
    if dry then pure n else (do
      on_rows (λ w. Tracking.upsert (env.now w) (pending_row pid person cred))
      try_any (provision now sync_ref n pid person cred) λ e. do
        on_rows (λ w. Tracking.record_error (env.now w) pid cred.id (error_text e))
        pure n))

  unfoldable pub dedupe_or_issue : ℕ → String → Person → Credential → Option Card → Exec ℕ
  dedupe_or_issue n pid person cred none = issue n pid person cred
  dedupe_or_issue n pid person cred (some hit) = do
    on_rows (λ w. Tracking.mark_deduped (env.now w) pid cred.id (card_id hit) person.full_name)
    pure n

  -- A credential with no pass yet: the skip rules, in their order.
  unfoldable pub consider : ℕ → String → Person → Credential → Exec ℕ
  consider n pid person cred = do
    now ← gets env.now
    if expired now cred
        then pure n
        else if not (nonempty person.full_name)
        then pure n
        else if not (nonempty person.email) && not (nonempty person.phone)
        then pure n
        else dedupe_or_issue n pid person cred (dedupe_hit cfg snapshot cred)

  -- A credential that has its pass: the row is kept fresh.
  unfoldable pub refresh : ℕ → String → Credential → Row → Exec ℕ
  refresh n pid cred existing =
      let ag_state = state_or_none (resolve_ag_card snapshot existing.ag_card_id pid cred.id "") in
      if existing.status == "deduped"
      then pure n
      else if nonempty ag_state && not (ag_state == existing.last_known_ag_state)
      then (do
        on_rows (λ w. Tracking.update_last_known_ag_state (env.now w) pid cred.id ag_state)
        pure n)
      else pure n

  unfoldable pub on_existing : ℕ → String → Person → Credential → Option Row → Exec ℕ
  on_existing n pid person cred none = consider n pid person cred
  on_existing n pid person cred (some existing) =
      if nonempty (text_of existing.ag_card_id)
      then refresh n pid cred existing
      else consider n pid person cred

  -- The body of `for cred in creds`.
  unfoldable pub provision_credential : String → Person → ℕ → Credential → Exec ℕ
  provision_credential pid person n cred =
      if cred.hold then pure n else if not cred.trigger_active then pure n else (do
        existing ← gets (λ w. Tracking.get pid cred.id w.rows)
        on_existing n pid person cred existing)

  -- The body of `for pid, creds in …`, with `break`.
  unfoldable pub provision_known : ℕ → String → List Credential → Option Person → Exec (ℕ × Bool)
  provision_known n pid creds none = pure (n, false)
  provision_known n pid creds (some person) = if not person.active then pure (n, false) else (do
    stop ← gets env.superseded
    if stop
        then pure (n, true)
        else (do n' ← for_each (provision_credential pid person) creds n; pure (n', false)))

  unfoldable pub provision_person : ℕ → String × List Credential → Exec (ℕ × Bool)
  provision_person n (pid, creds) = provision_known n pid creds (lookup pid snapshot.people)

  unfoldable pub run : Exec ℕ
  run = for_until provision_person snapshot.credentials_by_person 0
