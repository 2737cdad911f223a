-- ===== src/Phases/Deletions.antt =====
-- Phase 3: what the PACS no longer holds is removed from AccessGrid, and what AccessGrid has
-- deleted is released from the PACS (src/agsync/sync/phases/phase3_deletions.py).
pub mod Licence
mod Calls
use integration_hub.Prelude.{
  ℕ, ◌+◌, ◌*◌, String, Bool, true, false, not, ◌&&◌, ◌||◌, ◌==◌, string_eq, pair_eq, Option, none,
  some, List, [], ◌∷◌, length, lookup, any, is_nil, is_some, lower, contains, text_of, one_of,
  nonempty, leb, if◌then◌else◌,
}
use integration_hub.Pacs.{Person, Credential}
use integration_hub.AccessGrid.{Card}
use integration_hub.Tracking
use integration_hub.Tracking.{Row}
use integration_hub.World.{
  Services, Exec, ok, ag_delete, pacs_written, pacs_retire, pure, gets, perform, try_ag, try_any,
  on_rows, for_each, for_until, ◌>>=◌, ◌>>◌,
}
use integration_hub.Snapshot.{Snapshot, person_of, credential_of, detailed_cards}
use integration_hub.Writeback.{identities_from_cards, deleted_identities_from_cards}
use integration_hub.Phases.Params.{expired}

abbrev pub max_retirements_per_cycle : ℕ
max_retirements_per_cycle = 25

abbrev pub max_expiries_per_cycle : ℕ
max_expiries_per_cycle = 25

-- Why a pass is to be deleted.
pub data Reason : Type 0 where
  person_gone credential_gone card_expired : Reason

abbrev expired_or_kept : Bool → Option Reason
expired_or_kept true = some card_expired
expired_or_kept false = none

unfoldable pub reason_for : ℕ → Option Person → Option Credential → Option Reason
reason_for now none cred = some person_gone
reason_for now (some person) none = some credential_gone
reason_for now (some person) (some cred) = expired_or_kept (expired now cred)

abbrev pub is_held : Option Credential → Bool
is_held none = false
is_held (some cred) = cred.hold

abbrev pub is_expired : ℕ → Option Credential → Bool
is_expired now none = false
is_expired now (some cred) = expired now cred

-- `deleted` and `expired_this_cycle`
pub record Tally : Type 0 where
  pub deleted : ℕ
  pub expired : ℕ

abbrev pub count_deleted : Tally → Tally
count_deleted tally = record tally { deleted = tally.deleted + 1 }

-- The share of 0.3, in tenths: `len(people) >= previous * MIN_COMPLETE_FRACTION`.
unfoldable pub is_complete : ℕ → ℕ → Bool
is_complete people previous = leb (previous * 3) (people * 10)

abbrev pub previous_or_0 : Option ℕ → ℕ
previous_or_0 none = 0
previous_or_0 (some n) = n

abbrev pub set_last_complete : ℕ → Exec (Unit {0})
set_last_complete n w = (ok tt, record w { last_complete = some n })

module _ (env : Services) (snapshot : Snapshot) where
  -- A pass that AccessGrid says is gone already loses its row; any other refusal leaves it.
  unfoldable pub delete_failed : Tally → Row → String → Exec Tally
  delete_failed tally tracked text =
      if contains "not found" (lower text) || contains "404" (lower text)
      then (do
        on_rows (λ _. Tracking.remove tracked.pacs_person_id tracked.pacs_credential_id)
        pure tally)
      else pure tally

  unfoldable pub retire_expired : Row → List Card → Exec (Unit {0})
  retire_expired tracked cards =
      let identities = identities_from_cards env cards in
      if is_nil cards then pure tt else (do
        perform (pacs_retire tracked.pacs_person_id tracked.pacs_credential_id identities) (λ w.
            env.retire_credentials w tracked.pacs_person_id tracked.pacs_credential_id identities)
        pure tt)

  unfoldable pub delete_pass : Tally → Row → List Card → Exec Tally
  delete_pass tally tracked expired_cards =
      let id = text_of tracked.ag_card_id in
      try_ag
        (do
          dry ← gets env.dry_run
          if dry then pure tally else (do
            perform (ag_delete id) (λ w. env.delete w id)
            on_rows (λ w.
                Tracking.mark_deleted (env.now w) tracked.pacs_person_id tracked.pacs_credential_id)
            try_ag (do retire_expired tracked expired_cards; pure (count_deleted tally))
                (delete_failed (count_deleted tally) tracked)))
        (delete_failed tally tracked)

  -- The cards written for an expired credential are read before its pass is deleted.
  unfoldable pub expired_cards_of : Row → Option Credential → Exec (List Card)
  expired_cards_of tracked cred = do
    now ← gets env.now
    if env.supports_credential_retirement && is_expired now cred
        then detailed_cards env snapshot tracked
        else pure []

  unfoldable pub delete_for : Tally → Row → Option Credential → Exec Tally
  delete_for tally tracked cred = do
    cards ← expired_cards_of tracked cred
    delete_pass tally tracked cards

  -- The cap on expiries.
  unfoldable pub act_on : Tally → Row → Option Credential → Option Reason → Exec Tally
  act_on tally tracked cred none = pure tally
  act_on tally tracked cred (some person_gone) = delete_for tally tracked cred
  act_on tally tracked cred (some credential_gone) = delete_for tally tracked cred
  act_on tally tracked cred (some card_expired) =
      if leb max_expiries_per_cycle tally.expired
      then pure tally
      else delete_for (record tally { expired = tally.expired + 1 }) tracked cred

  unfoldable pub is_unread : Row → Option Person → Bool
  is_unread tracked person =
      is_some person && not (is_some (lookup tracked.pacs_person_id snapshot.credentials_by_person))

  unfoldable pub check_known : Bool → Tally → Row → Option Person → Option Credential → Exec Tally
  check_known complete tally tracked person cred =
      if is_held cred
      then pure tally
      else if is_unread tracked person
      then pure tally
      else if not complete && (not (is_some person) || not (is_some cred))
      then pure tally
      else (do now ← gets env.now; act_on tally tracked cred (reason_for now person cred))

  -- The body of the first loop.
  unfoldable pub check_row : Bool → Tally → Row → Exec Tally
  check_row complete tally tracked =
      if one_of tracked.status ("deleted" ∷ "deduped" ∷ [])
        || not (nonempty (text_of tracked.ag_card_id))
      then pure tally
      else check_known complete tally tracked (person_of snapshot tracked)
          (credential_of snapshot tracked)

  -- The body of the loop of `_retire_deleted_credentials`, with `break`.
  unfoldable pub retire_gone : ℕ → Row → List Card → Exec (ℕ × Bool)
  retire_gone retired tracked cards =
      let gone = deleted_identities_from_cards cards in
      if is_nil cards || is_nil gone
      then pure (retired, false)
      else try_any
          (do
            count ←
                perform (pacs_retire tracked.pacs_person_id tracked.pacs_credential_id gone) (λ w.
                  env.retire_credentials w tracked.pacs_person_id tracked.pacs_credential_id gone)
            pure (retired + count, false))
          (λ _. pure (retired, false))

  unfoldable pub retire_row : List (String × String) → ℕ → Row → Exec (ℕ × Bool)
  retire_row written retired tracked =
      let own = any (λ key. key == (tracked.pacs_person_id, tracked.pacs_credential_id)) written in
      if leb max_retirements_per_cycle retired
      then pure (retired, true)
      else if tracked.status == "deduped" || not (nonempty (text_of tracked.ag_card_id)) || not own
      then pure (retired, false)
      else (do cards ← detailed_cards env snapshot tracked; retire_gone retired tracked cards)

  unfoldable pub retire_deleted_credentials : Exec ℕ
  retire_deleted_credentials = if not env.supports_credential_retirement then pure 0 else (do
    written ← try_any (perform pacs_written env.written_credentials) (λ _. pure [])
    if is_nil written then pure 0 else (do
      rows ← gets (λ w. Tracking.all_tracked w.rows)
      for_until (retire_row written) rows 0))

  -- The first loop, then the second.
  unfoldable pub run_loops : Bool → Exec ℕ
  run_loops complete = do
    rows ← gets (λ w. Tracking.all_tracked w.rows)
    tally ← for_each (check_row complete) rows (record { deleted = 0; expired = 0 })
    retire_deleted_credentials
    pure tally.deleted

  unfoldable pub run : Exec ℕ
  run =
      let people = length snapshot.people in
      if is_nil snapshot.people then pure 0 else (do
        previous ← gets (λ w. previous_or_0 w.last_complete)
        if is_complete people previous
            then (do set_last_complete people; run_loops true)
            else run_loops false)
