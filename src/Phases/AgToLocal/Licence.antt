-- ===== src/Phases/AgToLocal/Licence.antt =====
-- The calls of phase 4, and the conditions on each (src/agsync/sync/phases/phase4_ag_to_local.py).
use mathlib.Core.List.{Memᴰ}
use integration_hub.Prelude.{
  ℕ, ◌+◌, Bool-cases, ◌≡◌, refl, ap, ◌∙◌, arith, ◌⊎◌, inl, inr, String, true, false, not, not-false,
  or-false, ◌||◌, ◌==◌, string_eq, Option, none, some, List, [], ◌∷◌, All-mem, is_nil, nonempty,
  text_of, one_of,
}
use integration_hub.Pacs.{CredentialStatus, active, suspended, Credential, is_active, same_status}
use integration_hub.AccessGrid.{Card}
use integration_hub.Tracking
use integration_hub.Tracking.{Row}
use integration_hub.World.{
  Services, World, Call, Exec, ok, ag_get, pacs_write_back, pacs_update_status, for_each, ◌>>=◌,
}
use integration_hub.World.Calls.{
  Adds, Only, OnlyAt, Only-at, Only-pure, Only-perform, Only-if, Only-try_any, Only-bind,
  Only-for_each, pure-at, if-at, gets-at, bind-at, perform-at, try_any-at, only_rules,
}
use integration_hub.World.Keeps.{Keeps, Keeps-pure, Keeps-if, keeps_rules}
use integration_hub.Snapshot.{Snapshot, credential_of, detailed_cards}
use integration_hub.Snapshot.Reads.{detailed_cards-Only, detailed_cards-Keeps}
use integration_hub.Writeback.{identities_from_cards, push_allocated_identities}
use integration_hub.Writeback.Pushes.{push_allocated_identities-at}
use integration_hub.Phases.LocalToAg.{listed_state}
use integration_hub.Phases.AgToLocal.{
  ag_to_cred_status, desired_card_status, already, is_idle, write_status, hold_cards,
  hold_credential, hold_row, hold_uninstalled_inactive, push_cards, push_credential, push_row,
  push_new_credentials, note_state, push_status, apply_status, on_ag_state, sync_row, run,
}

-- A row of the tracking table, with the credential of the snapshot, which is not held.
pub record Tracked (snapshot : Snapshot) (rows : List Row) (person credential : String) (t : Row)
    (cred : Credential) : Type 0 where
  pub row : Memᴰ t rows
  pub owner : t.pacs_person_id ≡ person
  pub key : t.pacs_credential_id ≡ credential
  pub found : credential_of snapshot t ≡ some cred
  pub free : cred.hold ≡ false

-- Reading the cards behind the row has just led to the state `u`, and gave these.
abbrev pub JustRead : Services → Snapshot → Row → List Card → World → Type 0
JustRead env snapshot t cards u = (v : World) × (detailed_cards env snapshot t v ≡ (ok cards, u))

-- A card that AccessGrid minted is set to what the passes behind it say, where it is on and should
-- be off, or is off and should be on.
abbrev pub FromGate : Services → Snapshot → World → Row → Credential → CredentialStatus → Type 0
FromGate env snapshot u t cred status =
    (cred.allocate_identity ≡ true)
    × ((cards : List Card) × JustRead env snapshot t cards u
        × (is_nil cards ≡ false)
        × (status ≡ desired_card_status cards)
        × (is_active status ≡ not (is_active cred.status)))

-- The status that a state of a pass asks for: on while it is active or created, off while suspended.
abbrev pub AsksFor : String → CredentialStatus → Type 0
AsksFor ag_state status =
    ((one_of ag_state ("active" ∷ "created" ∷ []) ≡ true) × (status ≡ active))
    ⊎ (((ag_state == "suspended") ≡ true) × (status ≡ suspended))

-- A card of the customer's own follows a change of the pass's state.
abbrev pub FromChange : Services → Snapshot → Row → Credential → CredentialStatus → Type 0
FromChange env snapshot t cred status =
    (cred.allocate_identity ≡ false)
    × (env.supports_status_writeback ≡ true)
    × AsksFor (listed_state snapshot t) status
    × ((listed_state snapshot t == t.last_known_ag_state) ≡ false)
    × (same_status cred.status status ≡ false)

-- What phase 4 may call in the state `u`, by the call.
abbrev pub Licence : Services → Snapshot → List Row → World → Call → Type 0
Licence env snapshot rows u (ag_get id) = Unit
Licence env snapshot rows u (pacs_write_back person credential identities) =
    (env.supports_credential_writeback ≡ true)
    × ((t : Row) × (cred : Credential) × Tracked snapshot rows person credential t cred
        × (is_idle t ≡ false)
        × (cred.allocate_identity ≡ true)
        × ((cards : List Card) × JustRead env snapshot t cards u
            × (identities ≡ identities_from_cards env cards)))
Licence env snapshot rows u (pacs_update_status person credential status) =
    (t : Row) × (cred : Credential) × Tracked snapshot rows person credential t cred
    × (FromGate env snapshot u t cred status ⊎ FromChange env snapshot t cred status)
Licence env snapshot rows u _ = ⊥

ag_to_cred_status-AsksFor :
    (ag_state : String) (status : CredentialStatus)
    → ag_to_cred_status ag_state ≡ some status
    → AsksFor ag_state status
unfolding ag_to_cred_status
ag_to_cred_status-AsksFor ag_state status h =
    elim (Bool-cases (one_of ag_state ("active" ∷ "created" ∷ []))) [
      | inl e ↦ inl (e, ground (arith, h, e))
      | inr n ↦ elim (Bool-cases (ag_state == "suspended")) [
        | inl e ↦ inr (e, ground (arith, h, n, e))
        | inr m ↦ ground (arith, h, n, m)
      ]
    ]

already-opposite :
    (desired status : CredentialStatus)
    → already desired status ≡ false
    → is_active desired ≡ not (is_active status)
unfolding already
already-opposite desired status h = ground arith

module _ (env : Services) (snapshot : Snapshot) (rows : List Row) where
  -- What follows the read of a row's cards may use that they were just read.
  on_cards-Licence :
      (t : Row) (k : List Card → Exec ℕ)
      → ((cards : List Card) (u : World)
          → JustRead env snapshot t cards u
          → OnlyAt (Licence env snapshot rows) (k cards) u)
      → Only (Licence env snapshot rows) (detailed_cards env snapshot t >>= k)
  on_cards-Licence t k h = record {
    at = λ w.
        (bind-at (detailed_cards env snapshot t) k w
          (Only-at (detailed_cards-Only env (λ id u. tt) snapshot t) w)
          (λ cards got.
            h cards _ (w, ap (λ r. (r, (detailed_cards env snapshot t w).1)) got))).adds;
  }

  module _ (t : Row) (m : Memᴰ t rows) where
    tracked :
        (cred : Credential)
        → credential_of snapshot t ≡ some cred
        → cred.hold ≡ false
        → Tracked snapshot rows t.pacs_person_id t.pacs_credential_id t cred
    tracked cred c free = record { row = m; owner = refl; key = refl; found = c; free = free }

    write_status-at :
        (cred : Credential)
        → credential_of snapshot t ≡ some cred
        → cred.hold ≡ false
        → (status : CredentialStatus) (u : World) → FromGate env snapshot u t cred status
        → (n : ℕ) → OnlyAt (Licence env snapshot rows) (write_status env snapshot n t status) u
    unfolding write_status
    write_status-at cred c free status u gate n =
        try_any-at _ _ (λ _. Only-pure n) u
          (perform-at _ _ _ u (t, cred, tracked cred c free, inl gate) (λ done _. pure-at _ _))

    hold_cards-at :
        (cred : Credential)
        → credential_of snapshot t ≡ some cred
        → cred.hold ≡ false
        → cred.allocate_identity ≡ true
        → (n : ℕ) (cards : List Card) (u : World) → JustRead env snapshot t cards u
        → OnlyAt (Licence env snapshot rows) (hold_cards env snapshot n t cred cards) u
    unfolding hold_cards
    hold_cards-at cred c free minted n cards u just =
        if-at (is_nil cards) _ _ u (λ _. pure-at n u)
          λ some_card.
            if-at (already (desired_card_status cards) cred.status) _ _ u (λ _. pure-at n u)
              λ differs.
                write_status-at cred c free _ u
                  (minted, (cards, just, some_card, refl, already-opposite _ _ differs)) n

    hold_credential-Licence :
        (o : Option Credential)
        → credential_of snapshot t ≡ o
        → (n : ℕ) → Only (Licence env snapshot rows) (hold_credential env snapshot n t o)
    unfolding hold_credential
    hold_credential-Licence none c n = Only-pure n
    hold_credential-Licence (some cred) c n =
        Only-if (cred.hold || not cred.allocate_identity) _ _ (λ _. Only-pure n)
          λ e.
            on_cards-Licence t _
              (hold_cards-at cred c (or-false _ _ e).0 (not-false _ (or-false _ _ e).1) n)

    hold_row-Licence : (n : ℕ) → Only (Licence env snapshot rows) (hold_row env snapshot n t)
    unfolding hold_row
    hold_row-Licence n =
        search (only_rules, hold_credential-Licence (credential_of snapshot t) refl)

    push_credential-Licence :
        env.supports_credential_writeback ≡ true
        → is_idle t ≡ false
        → (o : Option Credential) → credential_of snapshot t ≡ o
        → (n : ℕ) → Only (Licence env snapshot rows) (push_credential env snapshot n t o)
    unfolding push_credential push_cards
    push_credential-Licence takes busy none c n = Only-pure n
    push_credential-Licence takes busy (some cred) c n =
        Only-if cred.hold _ _ (λ _. Only-pure n)
          λ free.
            Only-if (not cred.allocate_identity) _ _ (λ _. Only-pure n)
              λ minted. on_cards-Licence t _ λ cards u just.
                if-at (is_nil cards) _ _ u (λ _. pure-at n u)
                  λ _.
                    bind-at _ _ u
                      (push_allocated_identities-at env t.pacs_person_id t.pacs_credential_id cards
                        u
                        (
                          takes,
                          (
                            t,
                            cred,
                            tracked cred c free,
                            busy,
                            not-false _ minted,
                            (cards, just, refl),
                          ),
                        ))
                      (λ done _. pure-at _ _)

    push_row-Licence :
        env.supports_credential_writeback ≡ true
        → (n : ℕ) → Only (Licence env snapshot rows) (push_row env snapshot n t)
    unfolding push_row
    push_row-Licence takes n =
        Only-if (is_idle t) _ _ (λ _. Only-pure n)
          (λ busy. push_credential-Licence takes busy (credential_of snapshot t) refl n)

    note_state-Licence :
        (n : ℕ) (s : String) → Only (Licence env snapshot rows) (note_state env snapshot n t s)
    unfolding note_state
    note_state-Licence n s = search only_rules

    module _ (takes : env.supports_status_writeback ≡ true)
        (moved : (listed_state snapshot t == t.last_known_ag_state) ≡ false) where
      push_status-Licence :
          (cred : Credential) (status : CredentialStatus)
          → Tracked snapshot rows t.pacs_person_id t.pacs_credential_id t cred
          → FromChange env snapshot t cred status
          → (n : ℕ)
          → Only
              (Licence env snapshot rows)
              (push_status env snapshot n t (listed_state snapshot t) status)
      unfolding push_status
      push_status-Licence cred status own change n =
          Only-try_any _ _
            (Only-bind _ _ (Only-perform _ _ (λ u. (t, cred, own, inr change)))
              (λ done. Only-if done _ _ (λ _. note_state-Licence (n + 1) _) (λ _. Only-pure n)))
            (λ _. Only-pure n)

      apply_status-Licence :
          (status : CredentialStatus)
          → ag_to_cred_status (listed_state snapshot t) ≡ some status
          → (o : Option Credential) → credential_of snapshot t ≡ o
          → (n : ℕ)
          → Only
              (Licence env snapshot rows)
              (apply_status env snapshot n t (listed_state snapshot t) status o)
      unfolding apply_status
      apply_status-Licence status asked none c n = note_state-Licence n _
      apply_status-Licence status asked (some cred) c n =
          Only-if cred.hold _ _ (λ _. Only-pure n)
            λ free.
              Only-if cred.allocate_identity _ _ (λ _. note_state-Licence n _)
                λ own.
                  Only-if (same_status cred.status status) _ _ (λ _. note_state-Licence n _)
                    λ differs.
                      push_status-Licence cred status (tracked cred c free)
                        (own, takes, ag_to_cred_status-AsksFor _ _ asked, moved, differs) n

      on_ag_state-Licence :
          (o : Option CredentialStatus)
          → ag_to_cred_status (listed_state snapshot t) ≡ o
          → (n : ℕ)
          → Only
              (Licence env snapshot rows)
              (on_ag_state env snapshot n t (listed_state snapshot t) o)
      unfolding on_ag_state
      on_ag_state-Licence none asked n = note_state-Licence n _
      on_ag_state-Licence (some status) asked n =
          apply_status-Licence status asked (credential_of snapshot t) refl n

    sync_row-Licence :
        env.supports_status_writeback ≡ true
        → (n : ℕ) → Only (Licence env snapshot rows) (sync_row env snapshot n t)
    unfolding sync_row
    sync_row-Licence takes n =
        Only-if
          (one_of t.status ("deleted" ∷ "deduped" ∷ []) || not (nonempty (text_of t.ag_card_id))) _
          _ (λ _. Only-pure n)
          λ _.
            Only-if
              (not (nonempty (listed_state snapshot t))
                || listed_state snapshot t == t.last_known_ag_state)
              _ _ (λ _. Only-pure n)
              λ e.
                on_ag_state-Licence takes (or-false _ _ e).1
                  (ag_to_cred_status (listed_state snapshot t)) refl n

module _ (env : Services) (snapshot : Snapshot) where
  push_cards-Keeps :
      (n : ℕ) (t : Row) (cards : List Card) → Keeps (push_cards env snapshot n t cards)
  unfolding push_cards push_allocated_identities
  push_cards-Keeps n t cards = search keeps_rules depth 8

  push_row-Keeps : (n : ℕ) (t : Row) → Keeps (push_row env snapshot n t)
  unfolding push_row
  push_row-Keeps n t = Keeps-if _ _ _ (Keeps-pure n) (by_credential (credential_of snapshot t))
    where
      by_credential : (o : Option Credential) → Keeps (push_credential env snapshot n t o)
      by_credential none = unfold push_credential in Keeps-pure n
      by_credential (some cred) =
          unfold push_credential in
          search (keeps_rules, push_cards-Keeps, detailed_cards-Keeps env snapshot) depth 8

  push_new_credentials-Keeps : Keeps (push_new_credentials env snapshot)
  unfolding push_new_credentials
  push_new_credentials-Keeps = search (keeps_rules, push_row-Keeps)

  hold_cards-Keeps :
      (n : ℕ) (t : Row) (cred : Credential) (cards : List Card)
      → Keeps (hold_cards env snapshot n t cred cards)
  unfolding hold_cards write_status
  hold_cards-Keeps n t cred cards = search keeps_rules depth 8

  hold_row-Keeps : (n : ℕ) (t : Row) → Keeps (hold_row env snapshot n t)
  unfolding hold_row
  hold_row-Keeps n t = Keeps-if _ _ _ (Keeps-pure n) (by_credential (credential_of snapshot t))
    where
      by_credential : (o : Option Credential) → Keeps (hold_credential env snapshot n t o)
      by_credential none = unfold hold_credential in Keeps-pure n
      by_credential (some cred) =
          unfold hold_credential in
          search (keeps_rules, hold_cards-Keeps, detailed_cards-Keeps env snapshot) depth 8

  hold_uninstalled_inactive-Keeps : Keeps (hold_uninstalled_inactive env snapshot)
  unfolding hold_uninstalled_inactive
  hold_uninstalled_inactive-Keeps = search (keeps_rules, hold_row-Keeps)

  module _ (rows : List Row) (w : World) (e : Tracking.all_tracked w.rows ≡ rows) where
    push_new_credentials-at :
        OnlyAt (Licence env snapshot rows) (push_new_credentials env snapshot) w
    unfolding push_new_credentials
    push_new_credentials-at =
        if-at (not env.supports_credential_writeback) _ _ w (λ _. pure-at 0 w)
          λ takes. gets-at _ _ w (
            Only-at
              (Only-for_each _ (Tracking.all_tracked w.rows)
                (All-mem _
                  (λ t m. push_row-Licence env snapshot rows t (rw e at m) (not-false _ takes)))
                0)
              w)

    hold_uninstalled_inactive-at :
        OnlyAt (Licence env snapshot rows) (hold_uninstalled_inactive env snapshot) w
    unfolding hold_uninstalled_inactive
    hold_uninstalled_inactive-at =
        if-at (not env.supports_credential_writeback) _ _ w (λ _. pure-at 0 w)
          λ _. gets-at _ _ w (
            Only-at
              (Only-for_each _ (Tracking.all_tracked w.rows)
                (All-mem _ (λ t m. hold_row-Licence env snapshot rows t (rw e at m))) 0)
              w)

    status_loop-at :
        (n : ℕ)
        → env.supports_status_writeback ≡ true
        → OnlyAt
            (Licence env snapshot rows)
            (for_each (sync_row env snapshot) (Tracking.all_tracked w.rows) n)
            w
    status_loop-at n takes =
        Only-at
          (Only-for_each _ (Tracking.all_tracked w.rows)
            (All-mem _ (λ t m. sync_row-Licence env snapshot rows t (rw e at m) takes)) n)
          w

-- Whatever the two systems answer, phase 4 writes to the PACS only for a row that the tracking
-- table holds when the phase starts, whose credential stands in the snapshot and is not held.
-- Identities are written only where the adapter receives them, for a credential whose identity
-- AccessGrid mints, right after the row's cards are read, and are those of these cards. A status is
-- written for such a credential only right after the row's cards are read, if it is what these ask
-- for and would turn the card on or off; for any other, only if the adapter takes statuses, the
-- listed state of the pass has changed since it was last known and asks for that status, and the
-- credential has another. Every other call is a read.
pub ag_to_local_run-Licence :
    (env : Services) (snapshot : Snapshot) (w : World)
    → Adds
        (Licence env snapshot (Tracking.all_tracked w.rows))
        w.history
        (run env snapshot w).1.history
unfolding run
ag_to_local_run-Licence env snapshot w =
    let rows = Tracking.all_tracked w.rows in
    let same = ap Tracking.all_tracked ((push_new_credentials-Keeps env snapshot).at w) in
    (bind-at _ _ w (push_new_credentials-at env snapshot rows w refl) λ pushed _.
      bind-at _ _ _ (hold_uninstalled_inactive-at env snapshot rows _ same) λ held _.
        if-at (not env.supports_status_writeback) _ _ _ (λ _. pure-at _ _)
          λ takes. gets-at _ _ _ (
            status_loop-at env snapshot rows _
              (ap Tracking.all_tracked ((hold_uninstalled_inactive-Keeps env snapshot).at _) ∙ same)
              _ (not-false _ takes))).adds
