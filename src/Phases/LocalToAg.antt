-- ===== src/Phases/LocalToAg.antt =====
-- Phase 2: status changes of the PACS go to AccessGrid
-- (src/agsync/sync/phases/phase2_local_to_ag.py).
pub mod Licence
use integration_hub.Prelude.{
  ℕ, ◌+◌, String, Bool, not, ◌&&◌, ◌==◌, string_eq, Option, none, some, [], ◌∷◌, text_of, one_of,
  nonempty, if◌then◌else◌,
}
use integration_hub.Pacs.{Credential, is_active, is_awaiting_install}
use integration_hub.AccessGrid.{card_id, state_or_none}
use integration_hub.Tracking
use integration_hub.Tracking.{Row}
use integration_hub.World.{
  Services, Exec, ag_delete, ag_suspend, ag_resume, ag_get, pure, gets, perform, try_ag, try_any,
  on_rows, for_each, ◌>>=◌, ◌>>◌,
}
use integration_hub.Snapshot.{Snapshot, credential_of, resolve_ag_cards, resolve_ag_card}

-- The state of the pass, as the listing has it.
unfoldable pub listed_state : Snapshot → Row → String
listed_state snapshot tracked = state_or_none (
    resolve_ag_card snapshot tracked.ag_card_id tracked.pacs_person_id tracked.pacs_credential_id
      tracked.sync_ref)

module _ (env : Services) (snapshot : Snapshot) where
  -- A read whose answer is only logged.
  abbrev pub reread : String → Exec (Unit {0})
  reread id = try_any (do perform (ag_get id) (λ w. env.get_card w id); pure tt) (λ _. pure tt)

  abbrev reread_card : Option String → Exec (Unit {0})
  reread_card none = pure tt
  reread_card (some id) = if nonempty id then reread id else pure tt

  -- `_suspend_debug_after`: each half is read again, then the tracked id.
  unfoldable pub suspend_debug_after : Row → Exec (Unit {0})
  suspend_debug_after tracked = do
    for_each (λ _ card. reread_card (card_id card))
        (resolve_ag_cards snapshot tracked.ag_card_id tracked.pacs_person_id
          tracked.pacs_credential_id tracked.sync_ref)
        tt
    reread (text_of tracked.ag_card_id)

  -- The trigger is gone: the pass is deleted.
  unfoldable pub terminate : ℕ → Row → Exec ℕ
  terminate n tracked =
      let id = text_of tracked.ag_card_id in
      try_ag
        (do
          dry ← gets env.dry_run
          if dry then pure n else (do
            perform (ag_delete id) (λ w. env.delete w id)
            on_rows (λ w.
                Tracking.mark_deleted (env.now w) tracked.pacs_person_id tracked.pacs_credential_id)
            pure (n + 1)))
        (λ _. pure n)

  unfoldable pub suspend : ℕ → Row → Exec ℕ
  suspend n tracked = do
    let id = text_of tracked.ag_card_id
    dry ← gets env.dry_run
    if dry then pure n else (do
      perform (ag_suspend id) (λ w. env.suspend w id)
      suspend_debug_after tracked
      on_rows (λ w.
          Tracking.update_status (env.now w) tracked.pacs_person_id tracked.pacs_credential_id
            "suspended" "suspended")
      pure (n + 1))

  unfoldable pub resume : ℕ → Row → Exec ℕ
  resume n tracked = do
    let id = text_of tracked.ag_card_id
    dry ← gets env.dry_run
    if dry then pure n else (do
      perform (ag_resume id) (λ w. env.resume w id)
      on_rows (λ w.
          Tracking.update_status (env.now w) tracked.pacs_person_id tracked.pacs_credential_id
            "active" "active")
      pure (n + 1))

  -- The two pushes, by the state that the PACS asks for.
  unfoldable pub push_state : ℕ → Row → Bool → String → Exec ℕ
  push_state n tracked wants_active ag_state =
      try_ag
        (if not wants_active && one_of ag_state ("active" ∷ "created" ∷ "" ∷ [])
          then suspend n tracked
          else if wants_active && ag_state == "suspended"
          then resume n tracked
          else pure n)
        (λ _. pure n)

  unfoldable pub reconcile : ℕ → Row → Credential → Exec ℕ
  reconcile n tracked cred =
      let ag_state = listed_state snapshot tracked in
      let desired = if is_active cred.status then "active" else "suspended" in
      if nonempty ag_state
        && not (ag_state == tracked.last_known_ag_state)
        && nonempty tracked.last_known_ag_state
      then pure n
      else if is_awaiting_install cred.status
      then pure n
      else if ag_state == desired
      then pure n
      else if not (is_active cred.status) && ag_state == "created" && cred.allocate_identity
      then pure n
      else push_state n tracked (is_active cred.status) ag_state

  unfoldable pub on_credential : ℕ → Row → Option Credential → Exec ℕ
  on_credential n tracked none = pure n
  on_credential n tracked (some cred) =
      if cred.hold
      then pure n
      else if not cred.trigger_active
      then terminate n tracked
      else reconcile n tracked cred

  -- The body of the loop.
  unfoldable pub sync_row : ℕ → Row → Exec ℕ
  sync_row n tracked =
      if one_of tracked.status ("deleted" ∷ "pending" ∷ "deduped" ∷ [])
      then pure n
      else if not (nonempty (text_of tracked.ag_card_id))
      then pure n
      else on_credential n tracked (credential_of snapshot tracked)

  unfoldable pub run : Exec ℕ
  run = do rows ← gets (λ w. Tracking.all_tracked w.rows); for_each sync_row rows 0
