-- ===== src/Phases/LocalToAg/Licence.antt =====
-- The calls of phase 2, and the conditions on each (src/agsync/sync/phases/phase2_local_to_ag.py).
use mathlib.Core.List.{Memᴰ}
use integration_hub.Prelude.{
  ℕ, ◌+◌, ◌≡◌, refl, arith, String, not, ◌&&◌, ◌==◌, string_eq, one_of, nonempty, Bool, true, false,
  Option, none, some, List, [], ◌∷◌, All-mem, text_of,
}
use integration_hub.Pacs.{Credential, is_active, is_awaiting_install}
use integration_hub.Tracking
use integration_hub.Tracking.{Row}
use integration_hub.World.{Services, World, Call, ag_delete, ag_suspend, ag_resume, ag_get, ◌>>=◌}
use integration_hub.World.Calls.{
  Adds, Only, Only-pure, Only-if, Only-try_ag, Only-bind, Only-on_rows, Only-switched,
  Only-for_each, Only-for_all, only_rules,
}
use integration_hub.Snapshot.{Snapshot, credential_of}
use integration_hub.Phases.LocalToAg.{
  listed_state, reread, reread_card, suspend_debug_after, terminate, suspend, resume, push_state,
  reconcile, on_credential, sync_row, run,
}

module _ (env : Services) (snapshot : Snapshot) {J : World → Call → Type 0}
    (reads : (id : String) (w : World) → J w (ag_get id)) where
  reread-Only : (id : String) → Only J (reread env snapshot id)
  reread-Only id = search (only_rules, reads)

  reread_card-Only : (id : Option String) → Only J (reread_card env snapshot id)
  reread_card-Only none = search only_rules
  reread_card-Only (some id) = search (only_rules, reread-Only)

  module _ (t : Row) where
    suspend_debug_after-Only : Only J (suspend_debug_after env snapshot t)
    unfolding suspend_debug_after
    suspend_debug_after-Only = search (only_rules, reread-Only, reread_card-Only, Only-for_all)

    terminate-Only :
        ((w : World) → env.dry_run w ≡ false → J w (ag_delete (text_of t.ag_card_id)))
        → (n : ℕ) → Only J (terminate env snapshot n t)
    unfolding terminate
    terminate-Only lic n =
        Only-try_ag _ _
          (Only-switched _ _ _ _ _ (Only-pure n) lic
            (λ _. Only-bind _ _ (Only-on_rows _) (λ _. Only-pure (n + 1))))
          (λ _. Only-pure n)

    suspend-Only :
        ((w : World) → env.dry_run w ≡ false → J w (ag_suspend (text_of t.ag_card_id)))
        → (n : ℕ) → Only J (suspend env snapshot n t)
    unfolding suspend
    suspend-Only lic n = Only-switched _ _ _ _ _ (Only-pure n) lic λ _.
        Only-bind _ _ suspend_debug_after-Only
          λ _. Only-bind _ _ (Only-on_rows _) (λ _. Only-pure (n + 1))

    resume-Only :
        ((w : World) → env.dry_run w ≡ false → J w (ag_resume (text_of t.ag_card_id)))
        → (n : ℕ) → Only J (resume env snapshot n t)
    unfolding resume
    resume-Only lic n =
        Only-switched _ _ _ _ _ (Only-pure n) lic
          (λ _. Only-bind _ _ (Only-on_rows _) (λ _. Only-pure (n + 1)))

-- The pass has changed in AccessGrid since it was last seen.
abbrev pub has_diverged : Snapshot → Row → Bool
has_diverged snapshot t =
    nonempty (listed_state snapshot t)
    && not (listed_state snapshot t == t.last_known_ag_state)
    && nonempty t.last_known_ag_state

-- A row with the card id `id`, and its credential in the snapshot, which is not held.
abbrev pub Behind : Snapshot → List Row → (Row → Credential → Type 0) → String → Type 0
Behind snapshot rows P id =
    (t : Row) × (cred : Credential) × Memᴰ t rows
    × (text_of t.ag_card_id ≡ id)
    × (credential_of snapshot t ≡ some cred)
    × (cred.hold ≡ false)
    × P t cred

abbrev pub MayDelete : Row → Credential → Type 0
MayDelete t cred = cred.trigger_active ≡ false

abbrev pub MaySuspend : Snapshot → Row → Credential → Type 0
MaySuspend snapshot t cred =
    (cred.trigger_active ≡ true)
    × (has_diverged snapshot t ≡ false)
    × (is_active cred.status ≡ false)
    × (is_awaiting_install cred.status ≡ false)
    × ((listed_state snapshot t == "created" && cred.allocate_identity) ≡ false)
    × (one_of (listed_state snapshot t) ("active" ∷ "created" ∷ "" ∷ []) ≡ true)

abbrev pub MayResume : Snapshot → Row → Credential → Type 0
MayResume snapshot t cred =
    (cred.trigger_active ≡ true)
    × (has_diverged snapshot t ≡ false)
    × (is_active cred.status ≡ true)
    × ((listed_state snapshot t == "suspended") ≡ true)

-- What phase 2 may call in the state `u`, by the call.
abbrev pub Licence : Services → Snapshot → List Row → World → Call → Type 0
Licence env snapshot rows u (ag_get id) = Unit
Licence env snapshot rows u (ag_delete id) =
    (env.dry_run u ≡ false) × Behind snapshot rows MayDelete id
Licence env snapshot rows u (ag_suspend id) =
    (env.dry_run u ≡ false) × Behind snapshot rows (MaySuspend snapshot) id
Licence env snapshot rows u (ag_resume id) =
    (env.dry_run u ≡ false) × Behind snapshot rows (MayResume snapshot) id
Licence env snapshot rows u _ = ⊥

module _ (env : Services) (snapshot : Snapshot) {rows : List Row} (t : Row) (m : Memᴰ t rows) where
  reads_licensed : (id : String) (w : World) → Licence env snapshot rows w (ag_get id)
  reads_licensed id w = tt

  module _ (cred : Credential) (found : credential_of snapshot t ≡ some cred)
      (free : cred.hold ≡ false) where
    terminate-Licence :
        cred.trigger_active ≡ false
        → (n : ℕ) → Only (Licence env snapshot rows) (terminate env snapshot n t)
    terminate-Licence off n =
        terminate-Only env snapshot reads_licensed t
          (λ w live. (live, (t, cred, m, refl, found, free, off))) n

    module _ (on : cred.trigger_active ≡ true) (still : has_diverged snapshot t ≡ false)
        (waits : is_awaiting_install cred.status ≡ false)
        (minted : (not (is_active cred.status)
            && listed_state snapshot t == "created"
            && cred.allocate_identity)
          ≡ false) where
      may_suspend :
          (not (is_active cred.status)
              && one_of (listed_state snapshot t) ("active" ∷ "created" ∷ "" ∷ []))
            ≡ true
          → Behind snapshot rows (MaySuspend snapshot) (text_of t.ag_card_id)
      may_suspend s = (
        t,
        cred,
        m,
        refl,
        found,
        free,
        (on, still, ground arith, waits, ground arith, ground arith),
      )

      may_resume :
          (is_active cred.status && listed_state snapshot t == "suspended") ≡ true
          → Behind snapshot rows (MayResume snapshot) (text_of t.ag_card_id)
      may_resume s = (t, cred, m, refl, found, free, (on, still, ground arith, ground arith))

      push_state-Licence :
          (n : ℕ)
          → Only
              (Licence env snapshot rows)
              (push_state env snapshot n t (is_active cred.status) (listed_state snapshot t))
      unfolding push_state
      push_state-Licence n =
          Only-try_ag _ _
            (Only-if _ _ _
              (λ s. suspend-Only env snapshot reads_licensed t (λ w live. (live, may_suspend s)) n)
              (λ _.
                Only-if _ _ _
                  (λ r.
                    resume-Only env snapshot reads_licensed t (λ w live. (live, may_resume r)) n)
                  (λ _. Only-pure n)))
            (λ _. Only-pure n)

    reconcile-Licence :
        cred.trigger_active ≡ true
        → (n : ℕ) → Only (Licence env snapshot rows) (reconcile env snapshot n t cred)
    unfolding reconcile
    reconcile-Licence on n =
        Only-if _ _ _ (λ _. Only-pure n)
          (λ still.
            Only-if _ _ _ (λ _. Only-pure n)
              (λ waits.
                Only-if _ _ _ (λ _. Only-pure n)
                  (λ _.
                    Only-if _ _ _ (λ _. Only-pure n)
                      (λ minted. push_state-Licence on still waits minted n))))

  on_credential-Licence :
      (o : Option Credential)
      → credential_of snapshot t ≡ o
      → (n : ℕ) → Only (Licence env snapshot rows) (on_credential env snapshot n t o)
  unfolding on_credential
  on_credential-Licence none e n = Only-pure n
  on_credential-Licence (some cred) e n =
      Only-if _ _ _ (λ _. Only-pure n)
        (λ free.
          Only-if _ _ _ (λ off. terminate-Licence cred e free (ground (arith, off)) n)
            (λ on. reconcile-Licence cred e free (ground (arith, on)) n))

  sync_row-Licence : (n : ℕ) → Only (Licence env snapshot rows) (sync_row env snapshot n t)
  unfolding sync_row
  sync_row-Licence n = search (only_rules, on_credential-Licence (credential_of snapshot t) refl)

pub local_to_ag_run-Licence :
    (env : Services) (snapshot : Snapshot) (w : World)
    → Adds
        (Licence env snapshot (Tracking.all_tracked w.rows))
        w.history
        (run env snapshot w).1.history
unfolding run ◌>>=◌
local_to_ag_run-Licence env snapshot w =
    (Only-for_each (sync_row env snapshot) (Tracking.all_tracked w.rows)
        (All-mem _ (λ t m n. sync_row-Licence env snapshot t m n)) 0).at
      w
