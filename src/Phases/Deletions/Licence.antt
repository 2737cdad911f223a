-- ===== src/Phases/Deletions/Licence.antt =====
-- The calls of phase 3, and the conditions on each (src/agsync/sync/phases/phase3_deletions.py).
use mathlib.Core.List.{Memᴰ}
use mathlib.Core.Path.{subst}
use integration_hub.Prelude.{
  ℕ, ◌+◌, ◌*◌, ◌≤◌, ◌≡◌, refl, sym, ap, ◌∙◌, arith, ◌⊎◌, inl, inr, String, Bool, true, false, not,
  ◌&&◌, ◌||◌, ◌==◌, any, nonempty, or-false, Option, none, some, List, [], All-mem, length,
  not-false, lookup, leb, is_nil, is_some, text_of, if◌then◌else◌, string_eq, pair_eq, Bool-cases,
}
use integration_hub.Pacs.{Person, Credential, CredentialIdentity}
use integration_hub.AccessGrid.{Card}
use integration_hub.Tracking
use integration_hub.Tracking.{Row}
use integration_hub.World.{
  Services, World, Call, ok, ag_get, ag_delete, pacs_retire, pacs_written, ◌>>=◌,
}
use integration_hub.World.Calls.{
  Adds, Only, OnlyAt, Only-at, Only-pure, Only-perform, Only-if, Only-try_any, Only-bind,
  Only-read_at, Only-for_each, pure-at, if-at, bind-at, perform-at, try_any-at, only_rules,
}
use integration_hub.World.Keeps.{Keeps, for_until-at, keeps_rules}
use integration_hub.Snapshot.{Snapshot, person_of, credential_of, detailed_cards}
use integration_hub.Snapshot.Reads.{detailed_cards-Only, detailed_cards-Keeps}
use integration_hub.Writeback.{identities_from_cards, deleted_identities_from_cards}
use integration_hub.Phases.Params.{expired}
use integration_hub.Phases.Dates.{Overdue, expired-Overdue}
use integration_hub.Phases.Deletions.Calls.{Deleted, delete_for-at}
use integration_hub.Phases.Deletions.{
  Tally, is_held, reason_for, delete_for, act_on, is_unread, check_known, check_row, retire_gone,
  retire_row, retire_deleted_credentials, max_expiries_per_cycle, max_retirements_per_cycle,
  is_complete, previous_or_0, set_last_complete, run_loops, run,
}

-- At least three tenths of the people of the last complete read were read.
abbrev pub Complete : Snapshot → ℕ → Type 0
Complete snapshot previous = previous * 3 ≤ length snapshot.people * 10

-- Why the pass of a row may be deleted in the state `u`: nothing that is only missing counts unless
-- the read of the PACS was complete. A date is compared in `u`, or in the state from which reading
-- the row's cards led to `u`.
pub data Gone (env : Services) (snapshot : Snapshot) (previous : ℕ) (t : Row) (u : World)
    : Type 0 where
  no_person :
      Complete snapshot previous → person_of snapshot t ≡ none → Gone env snapshot previous t u
  no_credential :
      Complete snapshot previous
      → is_some (lookup t.pacs_person_id snapshot.credentials_by_person) ≡ true
      → credential_of snapshot t ≡ none
      → Gone env snapshot previous t u
  out_of_date :
      (cred : Credential)
      → credential_of snapshot t ≡ some cred
      → (v : World) → Overdue (env.now v) cred.deactivate_date
      → (u ≡ v) ⊎ (u ≡ (detailed_cards env snapshot t v).1)
      → Gone env snapshot previous t u

-- The cards of an expired credential are released right after its pass is deleted: they were read
-- in the state `v`, in which its date had passed, and the pass was deleted in the state that this
-- led to.
abbrev pub ReleasesExpired :
    Services → Snapshot → List Row → World → String → String → List CredentialIdentity → Type 0
ReleasesExpired env snapshot rows u person credential identities =
    (t : Row) × (cred : Credential) × (v : World) × (d : World) × (cards : List Card) × Memᴰ t rows
    × (t.pacs_person_id ≡ person)
    × (t.pacs_credential_id ≡ credential)
    × (credential_of snapshot t ≡ some cred)
    × (cred.hold ≡ false)
    × Overdue (env.now v) cred.deactivate_date
    × (detailed_cards env snapshot t v ≡ (ok cards, d))
    × Deleted t d u
    × (identities ≡ identities_from_cards env cards)

-- What AccessGrid reports as deleted is released right after the row's cards are read.
abbrev pub ReleasesGone :
    Services → Snapshot → World → String → String → List CredentialIdentity → Type 0
ReleasesGone env snapshot u person credential identities =
    (t : Row) × (v : World) × (cards : List Card) × Memᴰ t (Tracking.all_tracked u.rows)
    × (t.pacs_person_id ≡ person)
    × (t.pacs_credential_id ≡ credential)
    × (detailed_cards env snapshot t v ≡ (ok cards, u))
    × (identities ≡ deleted_identities_from_cards cards)
    × (is_nil identities ≡ false)

-- What phase 3 may call in the state `u`, by the call.
abbrev pub Licence : Services → Snapshot → ℕ → List Row → World → Call → Type 0
Licence env snapshot previous rows u (ag_get id) = Unit
Licence env snapshot previous rows u (ag_delete id) =
    (env.dry_run u ≡ false)
    × ((t : Row) × Memᴰ t rows
        × (text_of t.ag_card_id ≡ id)
        × (is_held (credential_of snapshot t) ≡ false)
        × Gone env snapshot previous t u)
Licence env snapshot previous rows u pacs_written = env.supports_credential_retirement ≡ true
Licence env snapshot previous rows u (pacs_retire person credential identities) =
    (env.supports_credential_retirement ≡ true)
    × (ReleasesExpired env snapshot rows u person credential identities
        ⊎ ReleasesGone env snapshot u person credential identities)
Licence env snapshot previous rows u _ = ⊥

module _ (env : Services) (snapshot : Snapshot) (previous : ℕ) {rows : List Row} (t : Row)
    (m : Memᴰ t rows) (free : is_held (credential_of snapshot t) ≡ false) where
  abbrev License : World → Call → Type 0
  License = Licence env snapshot previous rows

  delete_for-Licence :
      (cred : Option Credential)
      → credential_of snapshot t ≡ cred
      → (v : World)
      → ((d : World)
          → (d ≡ v) ⊎ (d ≡ (detailed_cards env snapshot t v).1)
          → Gone env snapshot previous t d)
      → (tally : Tally) → OnlyAt License (delete_for env snapshot tally t cred) v
  delete_for-Licence none c v gone tally =
      delete_for-at env snapshot (λ id w. tt) t none v
        (λ d from live. (live, (t, m, refl, free, gone d from))) (λ retires e. cc) tally
  delete_for-Licence (some cred) c v gone tally =
      delete_for-at env snapshot (λ id w. tt) t (some cred) v
        (λ d from live. (live, (t, m, refl, free, gone d from)))
        (λ retires e cards d got u deleted. (
          retires,
          inl (
            t,
            cred,
            v,
            d,
            cards,
            m,
            refl,
            refl,
            c,
            rw c at free,
            expired-Overdue _ cred e,
            got,
            deleted,
            refl,
          ),
        ))
        tally

  module _ (complete : Bool) (whole : complete ≡ true → Complete snapshot previous) where
    act_on-Licence :
        (person : Option Person)
        → person_of snapshot t ≡ person
        → (cred : Option Credential) → credential_of snapshot t ≡ cred
        → is_unread env snapshot t person ≡ false
        → (not complete && (not (is_some person) || not (is_some cred))) ≡ false
        → (tally : Tally) (w : World)
        → OnlyAt License (act_on env snapshot tally t cred (reason_for (env.now w) person cred)) w
    unfolding act_on reason_for is_unread
    act_on-Licence none p cred c read enough tally w =
        delete_for-Licence cred c w (λ d _. Gone.no_person (whole (ground arith)) p) tally
    act_on-Licence (some person) p none c read enough tally w =
        delete_for-Licence none c w
          (λ d _. Gone.no_credential (whole (ground arith)) (ground arith) c) tally
    act_on-Licence (some person) p (some cred) c read enough tally w =
        elim (Bool-cases (expired (env.now w) cred)) [
          | inl e ↦ rw e (
              if-at (leb max_expiries_per_cycle tally.expired) _ _ w (λ _. pure-at tally w)
                (λ _.
                  delete_for-Licence (some cred) c w
                    (λ d from. Gone.out_of_date cred c w (expired-Overdue _ cred e) from) _))
          | inr e ↦ rw e (pure-at tally w)
        ]

module _ (env : Services) (snapshot : Snapshot) (previous : ℕ) (complete : Bool)
    (whole : complete ≡ true → Complete snapshot previous) {rows : List Row} (t : Row)
    (m : Memᴰ t rows) where
  check_known-Licence :
      (person : Option Person)
      → person_of snapshot t ≡ person
      → (cred : Option Credential) → credential_of snapshot t ≡ cred
      → (tally : Tally)
      → Only
          (Licence env snapshot previous rows)
          (check_known env snapshot complete tally t person cred)
  unfolding check_known
  check_known-Licence person p cred c tally =
      Only-if (is_held cred) _ _ (λ _. Only-pure tally)
        λ free.
          Only-if (is_unread env snapshot t person) _ _ (λ _. Only-pure tally)
            λ read.
              Only-if (not complete && (not (is_some person) || not (is_some cred))) _ _
                (λ _. Only-pure tally)
                λ enough. Only-read_at _ _ λ w.
                  act_on-Licence env snapshot previous t m (rw c free) complete whole person p cred
                    c read enough tally w

  check_row-Licence :
      (tally : Tally)
      → Only (Licence env snapshot previous rows) (check_row env snapshot complete tally t)
  unfolding check_row
  check_row-Licence tally =
      search (
        only_rules,
        check_known-Licence (person_of snapshot t) refl (credential_of snapshot t) refl,
      )

module _ (env : Services) (snapshot : Snapshot) (previous : ℕ) (rows : List Row)
    (retires : env.supports_credential_retirement ≡ true) where
  retire_gone-at :
      (n : ℕ) (t : Row) (cards : List Card) (v u : World)
      → detailed_cards env snapshot t v ≡ (ok cards, u)
      → Memᴰ t (Tracking.all_tracked u.rows)
      → OnlyAt (Licence env snapshot previous rows) (retire_gone env snapshot n t cards) u
  unfolding retire_gone
  retire_gone-at n t cards v u got m =
      if-at (is_nil cards || is_nil (deleted_identities_from_cards cards)) _ _ u
        (λ _. pure-at (n, false) u)
        λ e.
          try_any-at _ _ (λ _. Only-pure (n, false)) u
            (perform-at _ _ _ u
              (retires, inr (t, v, cards, m, refl, refl, got, refl, (or-false _ _ e).1))
              (λ count _. pure-at (n + count, false) _))

  retire_row-at :
      (written : List (String × String)) (t : Row) (table : Tracking.Table)
      → Memᴰ t (Tracking.all_tracked table)
      → (n : ℕ) (w : World) → w.rows ≡ table
      → OnlyAt (Licence env snapshot previous rows) (retire_row env snapshot written n t) w
  unfolding retire_row
  retire_row-at written t table m n w e =
      if-at (leb max_retirements_per_cycle n) _ _ w (λ _. pure-at (n, true) w)
        λ _.
          if-at
            (t.status == "deduped"
              || not (nonempty (text_of t.ag_card_id))
              || not (any (λ key. key == (t.pacs_person_id, t.pacs_credential_id)) written))
            _ _ w (λ _. pure-at (n, false) w)
            λ _.
              bind-at (detailed_cards env snapshot t) (retire_gone env snapshot n t) w
                (Only-at (detailed_cards-Only env (λ id u. tt) snapshot t) w)
                λ cards got.
                  retire_gone-at n t cards w _
                    (ap (λ r. (r, (detailed_cards env snapshot t w).1)) got)
                    (subst (λ r. Memᴰ t (Tracking.all_tracked r))
                      (sym ((detailed_cards-Keeps env snapshot t).at w ∙ e)) m)

module _ (env : Services) (snapshot : Snapshot) where
  retire_gone-Keeps :
      (n : ℕ) (t : Row) (cards : List Card) → Keeps (retire_gone env snapshot n t cards)
  unfolding retire_gone
  retire_gone-Keeps n t cards = search keeps_rules depth 8

  retire_row-Keeps :
      (written : List (String × String)) (n : ℕ) (t : Row)
      → Keeps (retire_row env snapshot written n t)
  unfolding retire_row
  retire_row-Keeps written n t =
      search (keeps_rules, retire_gone-Keeps, detailed_cards-Keeps env snapshot) depth 8

module _ (env : Services) (snapshot : Snapshot) (previous : ℕ) (rows : List Row) where
  retire_deleted_credentials-Licence :
      Only (Licence env snapshot previous rows) (retire_deleted_credentials env snapshot)
  unfolding retire_deleted_credentials
  retire_deleted_credentials-Licence =
      Only-if (not env.supports_credential_retirement) _ _ (λ _. Only-pure 0)
        λ off.
          Only-bind _ _
            (Only-try_any _ _ (Only-perform _ _ (λ w. not-false _ off)) (λ _. Only-pure []))
            λ written.
              Only-if (is_nil written) _ _ (λ _. Only-pure 0)
                λ _. Only-read_at _ _ λ w.
                  for_until-at w.rows _ (retire_row-Keeps env snapshot written)
                    (Tracking.all_tracked w.rows)
                    (All-mem _ (λ t m n u e.
                      retire_row-at env snapshot previous rows (not-false _ off) written t w.rows m
                        n u e))
                    0 w refl

  run_loops-Licence :
      (complete : Bool)
      → (complete ≡ true → Complete snapshot previous)
      → (w : World) → Tracking.all_tracked w.rows ≡ rows
      → Adds
          (Licence env snapshot previous rows)
          w.history
          (run_loops env snapshot complete w).1.history
  unfolding run_loops ◌>>=◌
  run_loops-Licence complete whole w e =
      (Only-bind _ _
          (Only-for_each (check_row env snapshot complete) (Tracking.all_tracked w.rows)
            (All-mem _ (λ t m tally.
              check_row-Licence env snapshot previous complete whole t (rw e at m) tally))
            _)
          (λ tally.
            Only-bind _ _ retire_deleted_credentials-Licence (λ _. Only-pure tally.deleted))).at
        w

is_complete-Complete :
    (snapshot : Snapshot) (previous : ℕ)
    → is_complete (length snapshot.people) previous ≡ true
    → Complete snapshot previous
unfolding is_complete
is_complete-Complete snapshot previous h = ground arith

run_checked-Licence :
    (env : Services) (snapshot : Snapshot) (previous : ℕ) (complete : Bool)
    → (complete ≡ true → Complete snapshot previous)
    → (w : World)
    → let rows = Tracking.all_tracked w.rows in
      Adds
        (Licence env snapshot previous rows)
        w.history
        ((if complete
            then (set_last_complete (length snapshot.people) >>= λ _. run_loops env snapshot true)
            else run_loops env snapshot false)
          w).1.history
unfolding ◌>>=◌
run_checked-Licence env snapshot previous true whole w =
    run_loops-Licence env snapshot previous _ true whole _ refl
run_checked-Licence env snapshot previous false whole w =
    run_loops-Licence env snapshot previous _ false whole w refl

-- Whatever the two systems answer, phase 3 deletes a pass only in a state in which the dry-run
-- switch reads as off, and only for a tracked row whose credential is not held and that has a
-- reason: its person is gone, or its person was read and the credential is gone, both only if at
-- least three tenths of the people of the last complete read were read; or the credential's date
-- had passed, in that state or in the one from which reading the row's cards led to it. It asks the
-- PACS to release, right after such a deletion, what `identities_from_cards` makes of the cards that
-- were read for the row, whose credential had passed its date and is not held; or, for a row of the
-- table, right after reading the row's cards, what `deleted_identities_from_cards` makes of these,
-- where that is anything. Both only if the adapter releases cards. Every other call is a read.
pub deletions_run-Licence :
    (env : Services) (snapshot : Snapshot) (w : World)
    → Adds
        (Licence env snapshot (previous_or_0 w.last_complete) (Tracking.all_tracked w.rows))
        w.history
        (run env snapshot w).1.history
unfolding run ◌>>=◌
deletions_run-Licence env snapshot w = elim (Bool-cases (is_nil snapshot.people)) [
  | inl e ↦ rw e Adds.none_added
  | inr e ↦ rw e (
      run_checked-Licence env snapshot (previous_or_0 w.last_complete) _
        (is_complete-Complete snapshot _) w)
]
