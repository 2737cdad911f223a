-- ===== src/Tests/Tables.antt =====
-- The theorems on the table, the snapshot and the cards at concrete inputs.
use mathlib.Core.Option
use mathlib.Core.List.{Perm, Memᴰ}
use integration_hub.Prelude.{
  ◌≡◌, refl, false, none, some, [], ◌∷◌, All, keep, count_if, arith, if◌then◌else◌, find, is_nil,
  lower, strip, lookup,
}
use integration_hub.Tracking
use integration_hub.Tracking.{Row, Table, Upsert, FieldTracking, has_key}
use integration_hub.Tracking.Keys.{IsKeyed, statements-IsKeyed}
use integration_hub.Tracking.Lifecycle.{
  written, released, same_key, get-upsert, get-mark_deleted, get-remove,
}
use integration_hub.Tracking.Order.{
  IsSorted, IsRetryable, all_tracked-IsSorted, failed_records-IsSorted,
}
use integration_hub.Snapshot.{resolve_ag_cards}
use integration_hub.Snapshot.Build.{empty_snapshot, add_cards}
use integration_hub.Snapshot.Resolve.{IsOwn, with_id, carries, one_or_none, resolve_ag_cards-IsOwn}
use integration_hub.Writeback.{attr, state_of, is_dead, identities_from_cards}
use integration_hub.Writeback.Identities.{IsClean, identities_from_cards-IsClean}
use integration_hub.Phases.FieldChanges.{synced_fields}
use integration_hub.Phases.FieldChanges.Settled.{IsSettled, update_field_tracking-IsSettled}
use integration_hub.Pacs.{CredentialStatus}
use integration_hub.Phases.AgToLocal.{desired_card_status}
use integration_hub.Phases.AgToLocal.Desired.{desired_card_status-suspended}
use integration_hub.Tests.Data.{
  parked, alice, pass, watch, issued, orphan, refused, site, renewal, fields,
}

abbrev one_row : Table
one_row = issued ∷ []

one_row-IsKeyed : IsKeyed one_row
one_row-IsKeyed p c = unfold count_if in ground arith

statements-IsKeyed_example :
    IsKeyed (Tracking.upsert 9 renewal one_row)
    × IsKeyed (Tracking.mark_deduped 9 "p1" "k1" (some "c9") "Alice Ito" one_row)
    × IsKeyed (Tracking.update_status 9 "p1" "k1" "suspended" "suspended" one_row)
    × IsKeyed (Tracking.mark_deleted 9 "p1" "k1" one_row)
    × IsKeyed (Tracking.record_error 9 "p1" "k1" "timeout" one_row)
    × IsKeyed (Tracking.update_field_tracking 9 "p1" "k1" fields one_row)
    × IsKeyed (Tracking.update_last_known_ag_state 9 "p1" "k1" "suspended" one_row)
    × IsKeyed (Tracking.remove "p1" "k1" one_row)
statements-IsKeyed_example =
    statements-IsKeyed 9 "p1" "k1" renewal (some "c9") "Alice Ito" "suspended" "suspended" "timeout"
      fields one_row one_row-IsKeyed

get-upsert_example : Tracking.get "p1" "k1" (Tracking.upsert 9 renewal (orphan ∷ issued ∷ [])) ≡ (
    if same_key "p1" "k1" "p1" "k1"
    then some (written 9 renewal (Tracking.get "p1" "k1" (orphan ∷ issued ∷ [])))
    else Tracking.get "p1" "k1" (orphan ∷ issued ∷ []))
get-upsert_example = get-upsert 9 renewal (orphan ∷ issued ∷ []) "p1" "k1"

get-mark_deleted_example :
    Tracking.get "p2" "k2" (Tracking.mark_deleted 9 "p2" "k2" (issued ∷ orphan ∷ [])) ≡ (
      if same_key "p2" "k2" "p2" "k2"
      then Option.map (released 9) (Tracking.get "p2" "k2" (issued ∷ orphan ∷ []))
      else Tracking.get "p2" "k2" (issued ∷ orphan ∷ []))
get-mark_deleted_example = get-mark_deleted 9 "p2" "k2" (issued ∷ orphan ∷ []) "p2" "k2"

get-remove_example :
    Tracking.get "p1" "k1" (Tracking.remove "p2" "k2" (issued ∷ orphan ∷ []))
    ≡ (if same_key "p2" "k2" "p1" "k1" then none else Tracking.get "p1" "k1" (issued ∷ orphan ∷ []))
get-remove_example = get-remove "p2" "k2" (issued ∷ orphan ∷ []) "p1" "k1"

all_tracked-IsSorted_example :
    Perm (Tracking.all_tracked (issued ∷ orphan ∷ [])) (issued ∷ orphan ∷ [])
    × IsSorted (λ r. r.created_at) (Tracking.all_tracked (issued ∷ orphan ∷ []))
all_tracked-IsSorted_example = all_tracked-IsSorted (issued ∷ orphan ∷ [])

failed_records-IsSorted_example :
    Perm
      (Tracking.failed_records 3 (refused ∷ orphan ∷ []))
      (keep (Tracking.retryable 3) (refused ∷ orphan ∷ []))
    × All (IsRetryable 3) (Tracking.failed_records 3 (refused ∷ orphan ∷ []))
    × IsSorted (λ r. r.updated_at) (Tracking.failed_records 3 (refused ∷ orphan ∷ []))
failed_records-IsSorted_example = failed_records-IsSorted 3 (refused ∷ orphan ∷ [])

resolve_ag_cards-IsOwn_example :
    All
      (IsOwn (watch ∷ pass ∷ []) "r1" (some "c7"))
      (resolve_ag_cards (add_cards (watch ∷ pass ∷ []) empty_snapshot) (some "c7") "p1" "k1" "r1")
    × (resolve_ag_cards (add_cards (watch ∷ pass ∷ []) empty_snapshot) (some "c7") "p1" "k1" "r1"
        ≡ (if is_nil (keep (carries "r1") (watch ∷ pass ∷ []))
            then one_or_none (with_id (some "c7") (watch ∷ pass ∷ []))
            else keep (carries "r1") (watch ∷ pass ∷ [])))
resolve_ag_cards-IsOwn_example =
    resolve_ag_cards-IsOwn (watch ∷ pass ∷ []) empty_snapshot (some "c7") "p1" "k1" "r1"
      (unfold empty_snapshot in refl) (unfold empty_snapshot in refl) refl

identities_from_cards-IsClean_example : IsClean (identities_from_cards site (watch ∷ watch ∷ []))
identities_from_cards-IsClean_example = identities_from_cards-IsClean site (watch ∷ watch ∷ [])

update_field_tracking-IsSettled_example :
    (after : Row) × (Tracking.get "p1" "k1" (
        Tracking.update_field_tracking 9 "p1" "k1"
          (synced_fields issued alice "2031-01-01")
          one_row)
      ≡ some after)
    × IsSettled after alice "2031-01-01"
update_field_tracking-IsSettled_example =
    update_field_tracking-IsSettled 9 "p1" "k1" one_row issued alice "2031-01-01"
      (unfold Tracking.get in unfold Tracking.has_key in unfold find in refl)

parked_is_live : is_dead parked.attrs ≡ false
unfolding is_dead state_of attr lower strip lookup
parked_is_live = refl

parked_is_suspended : state_of parked.attrs ≡ "suspended"
unfolding state_of attr lower strip lookup
parked_is_suspended = refl

desired_card_status-suspended_example :
    desired_card_status (watch ∷ parked ∷ []) ≡ CredentialStatus.suspended
desired_card_status-suspended_example =
    desired_card_status-suspended (watch ∷ parked ∷ []) parked (Memᴰ.tail (Memᴰ.head refl))
      parked_is_live parked_is_suspended
