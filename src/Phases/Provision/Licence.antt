-- ===== src/Phases/Provision/Licence.antt =====
-- The calls of phase 1, and the conditions on each (src/agsync/sync/phases/phase1_provision.py).
use mathlib.Core.List.{Memᴰ}
use integration_hub.Prelude.{
  ℕ, ◌≡◌, refl, String, Bool, true, false, ◌||◌, Option, none, some, List, [], ◌∷◌, All-mem,
  not-false, nor-false, lookup, leb, text_of, nonempty, string_eq,
}
use integration_hub.Pacs.{Person, Credential}
use integration_hub.AccessGrid.{Card, ProvisionParams}
use integration_hub.Tracking
use integration_hub.Tracking.{Row}
use integration_hub.World.{Services, World, Call, ok, ag_provision, pacs_write_back, event_at}
use integration_hub.World.Calls.{
  Adds, Adds-map, Adds-since, Extends, Only, OnlyAt, Only-at, Only-pure, Only-if, Only-bind,
  Only-on_rows, Only-read_at, Only-gate, Only-for_each, Only-for_until, pure-at, if-at, gets-at,
  rows-at, bind-at, perform-at, try_any-at, only_rules,
}
use integration_hub.Snapshot.{Snapshot}
use integration_hub.Writeback.{identities_from_cards}
use integration_hub.Writeback.Pushes.{push_allocated_identities-at}
use integration_hub.Phases.Params.{Config, expired, dedupe_hit, provision_params}
use integration_hub.Phases.Dates.{InTime, has_twin, expired-InTime, dedupe_hit-none}
use integration_hub.Phases.Provision.{
  pending_row, provision, issue, dedupe_or_issue, consider, refresh, on_existing,
  provision_credential, provision_known, provision_person, run,
}

-- The row has a pass.
abbrev pub has_pass : Option Row → Bool
has_pass none = false
has_pass (some row) = nonempty (text_of row.ag_card_id)

-- The conditions, in the state `w`, under which a credential of a person is issued a pass.
pub record Due (env : Services) (cfg : Config) (snapshot : Snapshot) (w : World) (pid : String)
    (person : Person) (cred : Credential) : Type 0 where
  pub known : lookup pid snapshot.people ≡ some person
  pub employed : person.active ≡ true
  pub free : cred.hold ≡ false
  pub triggered : cred.trigger_active ≡ true
  pub unissued : has_pass (Tracking.get pid cred.id w.rows) ≡ false
  pub in_date : InTime (env.now w) cred.deactivate_date
  pub named : nonempty person.full_name ≡ true
  pub reachable : (nonempty person.email || nonempty person.phone) ≡ true
  pub unique : has_twin cfg snapshot cred ≡ false
  pub live : env.dry_run w ≡ false

-- The state in which a pass is asked for: that of the checks, with the pending row written.
abbrev pub pending : Services → String → Person → Credential → World → World
pending env pid person cred w = record w {
  rows = Tracking.upsert (env.now w) (pending_row pid person cred) w.rows;
}

-- In the state `u`, AccessGrid may be asked for the pass of this credential with these parameters.
pub record Asks (env : Services) (cfg : Config) (snapshot : Snapshot) (u : World)
    (params : ProvisionParams) (pid : String) (cred : Credential) : Type 0 where
  pub checked : World
  pub creds : List Credential
  pub person : Person
  pub here : Memᴰ (pid, creds) snapshot.credentials_by_person
  pub own : Memᴰ cred creds
  pub due : Due env cfg snapshot checked pid person cred
  pub left : u ≡ pending env pid person cred checked
  pub sends :
      params ≡ provision_params env cfg (env.now checked) (env.new_sync_ref checked) pid person cred

-- What phase 1 may call in the state `u`, by the call. Identities are written in answer to the
-- call before, which has issued the pass.
abbrev pub LicenceFor : Services → Config → Snapshot → World → Call → Type 0
LicenceFor env cfg snapshot u (ag_provision params) =
    (pid : String) × (cred : Credential) × Asks env cfg snapshot u params pid cred
LicenceFor env cfg snapshot u (pacs_write_back pid id identities) =
    (v : World) × (params : ProvisionParams) × (cred : Credential) × (card : Card) × Asks env cfg
      snapshot v params pid cred
    × (env.provision v params ≡ ok card)
    × (u.history ≡ event_at v (ag_provision params) true ∷ v.history)
    × (cred.id ≡ id)
    × (cred.allocate_identity ≡ true)
    × (identities ≡ identities_from_cards env (card ∷ []))
LicenceFor env cfg snapshot u _ = ⊥

-- Settings that were read as unchanged, at a point that the history of `u` goes back to.
pub record Current (env : Services) (u : World) : Type 0 where
  pub state : World
  pub before : Extends state.history u.history
  pub said : env.superseded state ≡ false

abbrev pub Licence : Services → Config → Snapshot → World → Call → Type 0
Licence env cfg snapshot u c = LicenceFor env cfg snapshot u c × Current env u

module _ (env : Services) (cfg : Config) (cap : ℕ) (snapshot : Snapshot) where
  refresh-Only :
      (pid : String) (cred : Credential) (row : Row) (n : ℕ)
      → Only (LicenceFor env cfg snapshot) (refresh env cfg cap snapshot n pid cred row)
  unfolding refresh
  refresh-Only pid cred row n = search only_rules

  module _ {pid : String} {creds : List Credential} {person : Person} {cred : Credential}
      (here : Memᴰ (pid, creds) snapshot.credentials_by_person) (own : Memᴰ cred creds) where
    provision-at :
        (w : World)
        → Due env cfg snapshot w pid person cred
        → (n : ℕ)
        → OnlyAt
            (LicenceFor env cfg snapshot)
            (provision env cfg cap snapshot (env.now w) (env.new_sync_ref w) n pid person cred)
            (pending env pid person cred w)
    unfolding provision
    provision-at w due n =
        perform-at _ _ _ _ (pid, cred, asks)
          λ card issued. rows-at _ _ _ (
            if-at cred.allocate_identity _ _ _
              (λ minted.
                bind-at _ _ _
                  (push_allocated_identities-at env pid cred.id (card ∷ []) _
                    (_, _, cred, card, asks, issued, refl, refl, minted, refl))
                  (λ _ _. pure-at _ _))
              (λ _. pure-at _ _))
      where
        asks :
            Asks env cfg snapshot
              (pending env pid person cred w)
              (provision_params env cfg (env.now w) (env.new_sync_ref w) pid person cred)
              pid
              cred
        asks = record {
          checked = w;
          creds = creds;
          person = person;
          here = here;
          own = own;
          due = due;
          left = refl;
          sends = refl;
        }

    -- From the cap on: what is still open is the switch.
    issue-at :
        (w : World)
        → (env.dry_run w ≡ false → Due env cfg snapshot w pid person cred)
        → (n : ℕ)
        → OnlyAt (LicenceFor env cfg snapshot) (issue env cfg cap snapshot n pid person cred) w
    unfolding issue
    issue-at w due n =
        if-at (leb cap n) _ _ w (λ _. pure-at n w)
          λ _. gets-at _ _ w (
            gets-at _ _ w (
              gets-at _ _ w (
                if-at (env.dry_run w) _ _ w (λ _. pure-at n w)
                  λ live. rows-at _ _ w (
                    try_any-at _ _ (λ e. Only-bind _ _ (Only-on_rows _) (λ _. Only-pure n)) _
                      (provision-at w (due live) n)))))

    dedupe_or_issue-at :
        (o : Option Card) (w : World)
        → (o ≡ none → env.dry_run w ≡ false → Due env cfg snapshot w pid person cred)
        → (n : ℕ)
        → OnlyAt
            (LicenceFor env cfg snapshot)
            (dedupe_or_issue env cfg cap snapshot n pid person cred o)
            w
    unfolding dedupe_or_issue
    dedupe_or_issue-at none w due n = issue-at w (due refl) n
    dedupe_or_issue-at (some hit) w due n = rows-at _ _ w (pure-at n _)

    module _ (known : lookup pid snapshot.people ≡ some person) (employed : person.active ≡ true)
        (free : cred.hold ≡ false) (triggered : cred.trigger_active ≡ true) (w : World) where
      consider-at :
          has_pass (Tracking.get pid cred.id w.rows) ≡ false
          → (n : ℕ)
          → OnlyAt (LicenceFor env cfg snapshot) (consider env cfg cap snapshot n pid person cred) w
      unfolding consider
      consider-at unissued n = gets-at _ _ w (
          if-at (expired (env.now w) cred) _ _ w (λ _. pure-at n w)
            λ in_date.
              if-at _ _ _ w (λ _. pure-at n w)
                λ named.
                  if-at _ _ _ w (λ _. pure-at n w)
                    λ reachable.
                      dedupe_or_issue-at (dedupe_hit cfg snapshot cred) w
                        (λ unique live. record {
                          known = known;
                          employed = employed;
                          free = free;
                          triggered = triggered;
                          unissued = unissued;
                          in_date = expired-InTime _ cred in_date;
                          named = not-false _ named;
                          reachable = nor-false _ _ reachable;
                          unique = dedupe_hit-none cfg snapshot cred unique;
                          live = live;
                        })
                        n)

      on_existing-at :
          (o : Option Row)
          → Tracking.get pid cred.id w.rows ≡ o
          → (n : ℕ)
          → OnlyAt
              (LicenceFor env cfg snapshot)
              (on_existing env cfg cap snapshot n pid person cred o)
              w
      unfolding on_existing
      on_existing-at none e n = consider-at (rw e) n
      on_existing-at (some row) e n =
          if-at (nonempty (text_of row.ag_card_id)) _ _ w
            (λ _. Only-at (refresh-Only pid cred row n) w) (λ fresh. consider-at (rw e fresh) n)

  provision_credential-Only :
      {pid : String} {creds : List Credential} {person : Person}
      → Memᴰ (pid, creds) snapshot.credentials_by_person
      → lookup pid snapshot.people ≡ some person
      → person.active ≡ true
      → (cred : Credential) → Memᴰ cred creds
      → (n : ℕ)
      → Only
          (LicenceFor env cfg snapshot)
          (provision_credential env cfg cap snapshot pid person n cred)
  unfolding provision_credential
  provision_credential-Only here known employed cred own n =
      Only-if _ _ _ (λ _. Only-pure n)
        λ free.
          Only-if _ _ _ (λ _. Only-pure n)
            λ off.
              Only-read_at _ _
                λ w. on_existing-at here own known employed free (not-false _ off) w _ refl n

  provision_known-Licence :
      {pid : String} {creds : List Credential}
      → Memᴰ (pid, creds) snapshot.credentials_by_person
      → (o : Option Person) → lookup pid snapshot.people ≡ o
      → (n : ℕ)
      → Only (Licence env cfg snapshot) (provision_known env cfg cap snapshot n pid creds o)
  unfolding provision_known
  provision_known-Licence here none known n = Only-pure (n, false)
  provision_known-Licence {pid} {creds} here (some person) known n =
      Only-if _ _ _ (λ _. Only-pure (n, false))
        λ employed.
          Only-gate _ _ _ (λ w _. pure-at (n, true) w)
            λ w current. record {
              adds =
                  Adds-map (λ u c l. (l.0, record { state = w; before = l.1; said = current }))
                    (Adds-since (
                      (Only-bind _ _
                          (Only-for_each (provision_credential env cfg cap snapshot pid person)
                            creds
                            (All-mem creds
                              (provision_credential-Only here known (not-false _ employed)))
                            n)
                          (λ n'. Only-pure (n', false))).at
                        w));
            }

pub provision_run-Licence :
    (env : Services) (cfg : Config) (cap : ℕ) (snapshot : Snapshot) (w : World)
    → Adds (Licence env cfg snapshot) w.history (run env cfg cap snapshot w).1.history
unfolding run provision_person
provision_run-Licence env cfg cap snapshot w =
    (Only-for_until _ snapshot.credentials_by_person
        (All-mem _ (λ p here n. provision_known-Licence env cfg cap snapshot here _ refl n)) 0).at
      w
