-- ===== src/Phases/Retries/Licence.antt =====
-- The calls of phase 5, and the conditions on each (src/agsync/sync/phases/phase5_retries.py).
use mathlib.Core.List.{Memᴰ}
use integration_hub.Prelude.{
  ℕ, ◌≡◌, refl, true, false, not, not-false, nor-false, ◌&&◌, ◌||◌, Option, none, some, List, [],
  ◌∷◌, All-mem, nonempty,
}
use integration_hub.Pacs.{Person, Credential}
use integration_hub.AccessGrid.{Card, ProvisionParams}
use integration_hub.Tracking
use integration_hub.Tracking.{Row}
use integration_hub.World.{
  Services, World, Call, ok, ag_provision, pacs_write_back, event_at, ◌>>=◌,
}
use integration_hub.World.Calls.{
  Adds, Only, OnlyAt, Only-pure, Only-if, Only-bind, Only-on_rows, Only-for_each, pure-at, if-at,
  gets-at, rows-at, bind-at, perform-at, try_any-at, only_rules,
}
use integration_hub.Snapshot.{Snapshot, person_of, credential_of}
use integration_hub.Writeback.{identities_from_cards}
use integration_hub.Writeback.Pushes.{push_allocated_identities-at}
use integration_hub.Phases.Params.{Config, dedupe_hit, provision_params}
use integration_hub.Phases.Dates.{has_twin, dedupe_hit-none}
use integration_hub.Phases.Retries.{
  max_retries, provision, retry, dedupe_or_retry, forget, retry_eligible, retry_known, retry_row,
  run,
}

-- In the state `u`, a pass may be asked for with these parameters for the failed record `t`.
pub record Due (env : Services) (cfg : Config) (snapshot : Snapshot) (rows : List Row) (u : World)
    (params : ProvisionParams) (t : Row) (person : Person) (cred : Credential) : Type 0 where
  pub failed : Memᴰ t rows
  pub known : person_of snapshot t ≡ some person
  pub found : credential_of snapshot t ≡ some cred
  pub free : cred.hold ≡ false
  pub triggered : cred.trigger_active ≡ true
  pub reachable : (nonempty person.email || nonempty person.phone) ≡ true
  pub unique : has_twin cfg snapshot cred ≡ false
  pub live : env.dry_run u ≡ false
  pub sends :
      params
      ≡ provision_params env cfg (env.now u) (env.new_sync_ref u) t.pacs_person_id person cred

-- What phase 5 may call in the state `u`, by the call. Identities are written in answer to the
-- call before, which has issued the pass.
abbrev pub Licence : Services → Config → Snapshot → List Row → World → Call → Type 0
Licence env cfg snapshot rows u (ag_provision params) =
    (t : Row) × (person : Person) × (cred : Credential) × Due env cfg snapshot rows u params t
      person cred
Licence env cfg snapshot rows u (pacs_write_back pid id identities) =
    (v : World) × (params : ProvisionParams) × (t : Row) × (person : Person) × (cred : Credential)
    × (card : Card) × Due env cfg snapshot rows v params t person cred
    × (env.provision v params ≡ ok card)
    × (u.history ≡ event_at v (ag_provision params) true ∷ v.history)
    × (t.pacs_person_id ≡ pid)
    × (t.pacs_credential_id ≡ id)
    × (cred.allocate_identity ≡ true)
    × (identities ≡ identities_from_cards env (card ∷ []))
Licence env cfg snapshot rows u _ = ⊥

abbrev Conditions :
    Services → Config → Snapshot → List Row → Row → World → Person → Credential → Type 0
Conditions env cfg snapshot rows t w person cred =
    Due env cfg snapshot rows w
      (provision_params env cfg (env.now w) (env.new_sync_ref w) t.pacs_person_id person cred) t
      person cred

module _ (env : Services) (cfg : Config) (snapshot : Snapshot) {rows : List Row} (t : Row) where
  provision-at :
      (person : Person) (cred : Credential) (w : World)
      → Conditions env cfg snapshot rows t w person cred
      → (n : ℕ)
      → OnlyAt
          (Licence env cfg snapshot rows)
          (provision env cfg snapshot (env.now w) (env.new_sync_ref w) n t person cred)
          w
  unfolding provision
  provision-at person cred w due n =
      perform-at _ _ _ w (t, person, cred, due)
        λ card issued. rows-at _ _ _ (
          if-at cred.allocate_identity _ _ _
            (λ minted.
              bind-at _ _ _
                (push_allocated_identities-at env t.pacs_person_id t.pacs_credential_id (card ∷ [])
                  _ (_, _, t, person, cred, card, due, issued, refl, refl, refl, minted, refl))
                (λ _ _. pure-at _ _))
            (λ _. pure-at _ _))

  retry-at :
      (person : Person) (cred : Credential) (w : World)
      → (env.dry_run w ≡ false → Conditions env cfg snapshot rows t w person cred)
      → (n : ℕ) → OnlyAt (Licence env cfg snapshot rows) (retry env cfg snapshot n t person cred) w
  unfolding retry
  retry-at person cred w due n = gets-at _ _ w (
      gets-at _ _ w (
        gets-at _ _ w (
          if-at (env.dry_run w) _ _ w (λ _. pure-at n w)
            λ live.
              try_any-at _ _ (λ e. Only-bind _ _ (Only-on_rows _) (λ _. Only-pure n)) w
                (provision-at person cred w (due live) n))))

  dedupe_or_retry-Licence :
      (person : Person) (cred : Credential) (o : Option Card)
      → (o ≡ none
          → (w : World) → env.dry_run w ≡ false
          → Conditions env cfg snapshot rows t w person cred)
      → (n : ℕ)
      → Only (Licence env cfg snapshot rows) (dedupe_or_retry env cfg snapshot n t person cred o)
  unfolding dedupe_or_retry
  dedupe_or_retry-Licence person cred none due n = record {
    at = λ w. (retry-at person cred w (due refl w) n).adds;
  }
  dedupe_or_retry-Licence person cred (some hit) due n = search only_rules

  forget-Licence : (n : ℕ) → Only (Licence env cfg snapshot rows) (forget env cfg snapshot n t)
  unfolding forget
  forget-Licence n = search only_rules

  module _ (m : Memᴰ t rows) where
    retry_known-Licence :
        (person : Option Person)
        → person_of snapshot t ≡ person
        → (cred : Option Credential) → credential_of snapshot t ≡ cred
        → (n : ℕ)
        → Only (Licence env cfg snapshot rows) (retry_known env cfg snapshot n t person cred)
    unfolding retry_known retry_eligible
    retry_known-Licence person p none c n = forget-Licence n
    retry_known-Licence none p (some cred) c n =
        Only-if cred.hold _ _ (λ _. Only-pure n) (λ _. forget-Licence n)
    retry_known-Licence (some person) p (some cred) c n =
        Only-if cred.hold _ _ (λ _. Only-pure n)
          λ free.
            Only-if (not cred.trigger_active) _ _ (λ _. forget-Licence n)
              λ on.
                Only-if (not (nonempty person.email) && not (nonempty person.phone)) _ _
                  (λ _. Only-bind _ _ (Only-on_rows _) (λ _. Only-pure n))
                  λ contact.
                    dedupe_or_retry-Licence person cred (dedupe_hit cfg snapshot cred)
                      (λ unique w live. record {
                        failed = m;
                        known = p;
                        found = c;
                        free = free;
                        triggered = not-false _ on;
                        reachable = nor-false _ _ contact;
                        unique = dedupe_hit-none cfg snapshot cred unique;
                        live = live;
                        sends = refl;
                      })
                      n

-- Whatever the two systems answer, phase 5 makes no call but these two. It asks AccessGrid for a
-- pass only for one of the failed records below the limit of retries, whose person and credential
-- stand in the snapshot; the credential is triggered and not held, the person has an email or a
-- phone, and where identities are compared the snapshot has no card under its site and number. The
-- call is made in a state in which the dry-run switch reads as off, and sends what
-- `provision_params` makes of the credential. Right after such a call, and only if AccessGrid mints
-- the identity, phase 5 writes the identities of the card that was issued to the PACS.
pub retries_run-Licence :
    (env : Services) (cfg : Config) (snapshot : Snapshot) (w : World)
    → let rows = Tracking.failed_records max_retries w.rows in
      Adds (Licence env cfg snapshot rows) w.history (run env cfg snapshot w).1.history
unfolding run retry_row ◌>>=◌
retries_run-Licence env cfg snapshot w =
    (Only-for_each _ (Tracking.failed_records max_retries w.rows)
        (All-mem _ (λ t m n. retry_known-Licence env cfg snapshot t m _ refl _ refl n)) 0).at
      w
