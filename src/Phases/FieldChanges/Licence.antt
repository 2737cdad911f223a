-- ===== src/Phases/FieldChanges/Licence.antt =====
-- The calls of phase 6, and the conditions on each (src/agsync/sync/phases/phase6_field_changes.py).
use mathlib.Core.List.{Memᴰ}
use integration_hub.Prelude.{
  ℕ, ◌≡◌, refl, String, false, not, ◌&&◌, Option, none, some, List, All-mem, is_nil, text_of,
}
use integration_hub.Pacs.{Person}
use integration_hub.Tracking
use integration_hub.Tracking.{Row}
use integration_hub.World.{Services, World, Call, ag_update, ◌>>=◌}
use integration_hub.World.Calls.{
  Adds, Only, Only-pure, Only-if, Only-try_ag, Only-bind, Only-switched, Only-for_each, only_rules,
}
use integration_hub.Snapshot.{Snapshot, person_of, credential_of}
use integration_hub.Phases.FieldChanges.{
  expiration_of, changes_of, email_changed, first_expiry, record_fields, send_changes, after_send,
  held, sync_fields, sync_person, sync_row, run,
}

-- What phase 6 may call in the state `u`, by the call.
abbrev pub Licence : Services → Snapshot → List Row → World → Call → Type 0
Licence env snapshot rows u (ag_update id changes) =
    (env.dry_run u ≡ false)
    × ((t : Row) × (person : Person) × Memᴰ t rows
        × (text_of t.ag_card_id ≡ id)
        × (person_of snapshot t ≡ some person)
        × (held env snapshot (credential_of snapshot t) ≡ false)
        × (changes ≡ changes_of t person (expiration_of env (credential_of snapshot t)))
        × (is_nil changes ≡ false))
Licence env snapshot rows u _ = ⊥

module _ (env : Services) (snapshot : Snapshot) {rows : List Row} (t : Row) (m : Memᴰ t rows) where
  record_fields-Licence :
      (n : ℕ) (person : Person) (expiration : String)
      → Only (Licence env snapshot rows) (record_fields env snapshot n t person expiration)
  unfolding record_fields
  record_fields-Licence n person expiration = search only_rules

  after_send-Licence :
      (n : ℕ) (person : Person) (expiration : String) (o : Option (Unit {0}))
      → Only (Licence env snapshot rows) (after_send env snapshot n t person expiration o)
  unfolding after_send
  after_send-Licence n person expiration none = Only-pure n
  after_send-Licence n person expiration (some _) = record_fields-Licence _ person expiration

  sync_fields-Licence :
      (person : Person)
      → person_of snapshot t ≡ some person
      → held env snapshot (credential_of snapshot t) ≡ false
      → (n : ℕ)
      → Only
          (Licence env snapshot rows)
          (sync_fields env snapshot n t person (expiration_of env (credential_of snapshot t)))
  unfolding sync_fields send_changes
  sync_fields-Licence person p free n =
      Only-if
        (is_nil (changes_of t person (expiration_of env (credential_of snapshot t)))
          && not (email_changed t person)
          && not (first_expiry t (expiration_of env (credential_of snapshot t))))
        _ _ (λ _. Only-pure n)
        λ _.
          Only-if (is_nil (changes_of t person (expiration_of env (credential_of snapshot t)))) _ _
            (λ _. record_fields-Licence n person _)
            λ e.
              Only-bind _ _
                (Only-try_ag _ _
                  (Only-switched _ _ _ _ _ (Only-pure none)
                    (λ w live. (live, (t, person, m, refl, p, free, refl, e)))
                    (λ _. Only-pure (some tt)))
                  (λ _. Only-pure none))
                (after_send-Licence n person _)

  sync_person-Licence :
      (person : Option Person)
      → person_of snapshot t ≡ person
      → (n : ℕ)
      → Only
          (Licence env snapshot rows)
          (sync_person env snapshot n t person (credential_of snapshot t))
  unfolding sync_person
  sync_person-Licence none p n = Only-pure n
  sync_person-Licence (some person) p n =
      Only-if (held env snapshot (credential_of snapshot t)) _ _ (λ _. Only-pure n)
        (λ free. sync_fields-Licence person p free n)

  sync_row-Licence : (n : ℕ) → Only (Licence env snapshot rows) (sync_row env snapshot n t)
  unfolding sync_row
  sync_row-Licence n = search (only_rules, sync_person-Licence (person_of snapshot t) refl)

-- Whatever the two systems answer, the only call of phase 6 is an update of a pass in AccessGrid,
-- made in a state in which the dry-run switch reads as off, for a tracked row with that card id whose person
-- stands in the snapshot and whose credential is not held; it sends the person's changed fields,
-- of which there is at least one.
pub field_changes_run-Licence :
    (env : Services) (snapshot : Snapshot) (w : World)
    → Adds
        (Licence env snapshot (Tracking.all_tracked w.rows))
        w.history
        (run env snapshot w).1.history
unfolding run ◌>>=◌
field_changes_run-Licence env snapshot w =
    (Only-for_each _ (Tracking.all_tracked w.rows)
        (All-mem _ (λ t m n. sync_row-Licence env snapshot t m n)) 0).at
      w
