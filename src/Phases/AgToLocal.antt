-- ===== src/Phases/AgToLocal.antt =====
-- Phase 4: what happened in AccessGrid goes to the PACS
-- (src/agsync/sync/phases/phase4_ag_to_local.py).
pub mod Licence
pub mod Desired
use integration_hub.Prelude.{
  ℕ, ◌+◌, String, Bool, not, ◌||◌, ◌==◌, string_eq, Option, none, some, List, [], ◌∷◌, any, keep,
  is_nil, text_of, one_of, nonempty, if◌then◌else◌,
}
use integration_hub.Pacs.{
  CredentialStatus, active, suspended, awaiting_install, Credential, is_active, same_status,
}
use integration_hub.AccessGrid.{Card}
use integration_hub.Tracking
use integration_hub.Tracking.{Row}
use integration_hub.World.{
  Services, Exec, pacs_update_status, pure, gets, perform, try_any, on_rows, for_each, ◌>>=◌, ◌>>◌,
}
use integration_hub.Snapshot.{Snapshot, credential_of, detailed_cards}
use integration_hub.Writeback.{state_of, is_dead, is_installed, push_allocated_identities}
use integration_hub.Phases.LocalToAg.{listed_state}

-- `_AG_TO_CRED_STATUS.get(ag_state)`
unfoldable pub ag_to_cred_status : String → Option CredentialStatus
ag_to_cred_status ag_state =
    if one_of ag_state ("active" ∷ "created" ∷ [])
    then some active
    else if ag_state == "suspended"
    then some suspended
    else none

-- What a PACS card should be, given the passes behind it.
unfoldable pub desired_card_status : List Card → CredentialStatus
desired_card_status cards =
    let live = keep (λ c. not (is_dead c.attrs)) cards in
    if is_nil live
    then suspended
    else if any (λ c. state_of c.attrs == "suspended") live
    then suspended
    else if is_installed live
    then active
    else awaiting_install

-- The adapter reads `off` with no reason attached, so any state but `active` is off.
unfoldable pub already : CredentialStatus → CredentialStatus → Bool
already desired status = if is_active desired then is_active status else not (is_active status)

-- `if t.status in ("deleted", "deduped", "pending") or not t.ag_card_id: continue`
unfoldable pub is_idle : Row → Bool
is_idle tracked =
    one_of tracked.status ("deleted" ∷ "deduped" ∷ "pending" ∷ [])
    || not (nonempty (text_of tracked.ag_card_id))

module _ (env : Services) (snapshot : Snapshot) where
  -- A status written to the PACS: counted if it was taken, and logged if it was not.
  unfoldable pub write_status : ℕ → Row → CredentialStatus → Exec ℕ
  write_status n tracked desired =
      try_any
        (do
          done ←
              perform (pacs_update_status tracked.pacs_person_id tracked.pacs_credential_id desired)
                (λ w.
                  env.update_credential_status w tracked.pacs_person_id tracked.pacs_credential_id
                    desired)
          pure (if done then n + 1 else n))
        (λ _. pure n)

  unfoldable pub hold_cards : ℕ → Row → Credential → List Card → Exec ℕ
  hold_cards n tracked cred cards =
      let desired = desired_card_status cards in
      if is_nil cards
      then pure n
      else if already desired cred.status
      then pure n
      else write_status n tracked desired

  unfoldable pub hold_credential : ℕ → Row → Option Credential → Exec ℕ
  hold_credential n tracked none = pure n
  hold_credential n tracked (some cred) =
      if cred.hold || not cred.allocate_identity
      then pure n
      else (do cards ← detailed_cards env snapshot tracked; hold_cards n tracked cred cards)

  -- The body of `_hold_uninstalled_inactive`.
  unfoldable pub hold_row : ℕ → Row → Exec ℕ
  hold_row n tracked =
      if is_idle tracked then pure n else hold_credential n tracked (credential_of snapshot tracked)

  unfoldable pub hold_uninstalled_inactive : Exec ℕ
  hold_uninstalled_inactive =
      if not env.supports_credential_writeback
      then pure 0
      else (do rows ← gets (λ w. Tracking.all_tracked w.rows); for_each hold_row rows 0)

  unfoldable pub push_cards : ℕ → Row → List Card → Exec ℕ
  push_cards n tracked cards = if is_nil cards then pure n else (do
    done ← push_allocated_identities env tracked.pacs_person_id tracked.pacs_credential_id cards
    pure (if done then n + 1 else n))

  unfoldable pub push_credential : ℕ → Row → Option Credential → Exec ℕ
  push_credential n tracked none = pure n
  push_credential n tracked (some cred) =
      if cred.hold
      then pure n
      else if not cred.allocate_identity
      then pure n
      else (do cards ← detailed_cards env snapshot tracked; push_cards n tracked cards)

  -- The body of `_push_new_credentials`.
  unfoldable pub push_row : ℕ → Row → Exec ℕ
  push_row n tracked =
      if is_idle tracked then pure n else push_credential n tracked (credential_of snapshot tracked)

  unfoldable pub push_new_credentials : Exec ℕ
  push_new_credentials =
      if not env.supports_credential_writeback
      then pure 0
      else (do rows ← gets (λ w. Tracking.all_tracked w.rows); for_each push_row rows 0)

  -- The state of the pass is recorded, and nothing else is done.
  unfoldable pub note_state : ℕ → Row → String → Exec ℕ
  note_state n tracked ag_state = do
    on_rows (λ w.
        Tracking.update_last_known_ag_state (env.now w) tracked.pacs_person_id
          tracked.pacs_credential_id ag_state)
    pure n

  unfoldable pub push_status : ℕ → Row → String → CredentialStatus → Exec ℕ
  push_status n tracked ag_state desired =
      try_any
        (do
          done ←
              perform (pacs_update_status tracked.pacs_person_id tracked.pacs_credential_id desired)
                (λ w.
                  env.update_credential_status w tracked.pacs_person_id tracked.pacs_credential_id
                    desired)
          if done then note_state (n + 1) tracked ag_state else pure n)
        (λ _. pure n)

  unfoldable pub apply_status : ℕ → Row → String → CredentialStatus → Option Credential → Exec ℕ
  apply_status n tracked ag_state desired none = note_state n tracked ag_state
  apply_status n tracked ag_state desired (some cred) =
      if cred.hold
      then pure n
      else if cred.allocate_identity
      then note_state n tracked ag_state
      else if same_status cred.status desired
      then note_state n tracked ag_state
      else push_status n tracked ag_state desired

  unfoldable pub on_ag_state : ℕ → Row → String → Option CredentialStatus → Exec ℕ
  on_ag_state n tracked ag_state none = note_state n tracked ag_state
  on_ag_state n tracked ag_state (some desired) =
      apply_status n tracked ag_state desired (credential_of snapshot tracked)

  -- The body of the status loop.
  unfoldable pub sync_row : ℕ → Row → Exec ℕ
  sync_row n tracked =
      let ag_state = listed_state snapshot tracked in
      if one_of tracked.status ("deleted" ∷ "deduped" ∷ [])
        || not (nonempty (text_of tracked.ag_card_id))
      then pure n
      else if not (nonempty ag_state) || ag_state == tracked.last_known_ag_state
      then pure n
      else on_ag_state n tracked ag_state (ag_to_cred_status ag_state)

  unfoldable pub run : Exec ℕ
  run = do
    pushed ← push_new_credentials
    held ← hold_uninstalled_inactive
    if not env.supports_status_writeback then pure (pushed + held) else (do
      rows ← gets (λ w. Tracking.all_tracked w.rows)
      for_each sync_row rows (pushed + held))
