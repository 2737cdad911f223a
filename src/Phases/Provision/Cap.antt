-- ===== src/Phases/Provision/Cap.antt =====
-- The cap on the passes of one cycle (src/agsync/sync/phases/phase1_provision.py).
use integration_hub.Prelude.{
  ℕ, ◌+◌, ◌≤◌, ◌≡◌, refl, ap, arith, String, Bool, true, false, not, ◌&&◌, ◌==◌, string_eq, Option,
  none, some, List, [], ◌∷◌, max, leb, count_if, is_nil, text_of, nonempty,
}
use integration_hub.Pacs.{Person, Credential, CredentialIdentity}
use integration_hub.AccessGrid.{Card, ProvisionParams, state_or_none}
use integration_hub.Tracking.{Row}
use integration_hub.World.{
  Services, World, Exn, Result, ok, raised, is_ok, Exec, Event, Call, ag_provision, pacs_write_back,
  perform, try_any, handle_any, continue, pure, ◌>>=◌, called,
}
use integration_hub.World.Counts.{
  Counts, Counts-pure, Counts-if, Counts-gets, Counts-rows, Counts-bind, Counts-for_each,
  Counts-for_until,
}
use integration_hub.Snapshot.{Snapshot, resolve_ag_card}
use integration_hub.Writeback.{push_allocated_identities, identities_from_cards}
use integration_hub.Phases.Params.{Config, dedupe_hit, expired}
use integration_hub.Phases.Provision.{
  provision, issue, dedupe_or_issue, consider, refresh, on_existing, provision_credential,
  provision_known, provision_person, run,
}

abbrev is_provision : Call → Bool
is_provision (ag_provision params) = true
is_provision _ = false

-- AccessGrid has issued a pass.
abbrev pub issued : Event → Bool
issued e = is_provision e.call && e.accepted

module _ {cap n : ℕ} where
  -- A write to the PACS issues nothing, and what it raises is caught.
  write_back-Counts :
      (pid id : String) (identities : List CredentialIdentity) (answer : World → Result Bool)
      → Counts issued cap
          (λ b. n)
          n
          (try_any (perform (pacs_write_back pid id identities) answer) (λ _. pure false))
  unfolding ◌>>=◌ count_if
  write_back-Counts pid id identities answer = record { at = λ w. go w (answer w) }
    where
      go :
          (w : World) (r : Result Bool)
          → let w' = called w (pacs_write_back pid id identities) (is_ok r) in
            (b : Bool) × ((handle_any (λ _. pure false) r w').0 ≡ ok b)
            × (n ≤ max cap n)
            × (n + count_if issued w.history
                ≡ n + count_if issued (handle_any (λ _. pure false) r w').1.history)
      go w (ok b) = (b, refl, omega arith, refl)
      go w (raised e) = (false, refl, omega arith, refl)

  push-Counts :
      (env : Services) (pid id : String) (cards : List Card)
      → Counts issued cap (λ b. n) n (push_allocated_identities env pid id cards)
  unfolding push_allocated_identities
  push-Counts env pid id cards =
      Counts-if
        (env.supports_credential_writeback && not (is_nil (identities_from_cards env cards))) _ _
        (λ _. write_back-Counts pid id _ _) (λ _. Counts-pure {val = λ (b : Bool). n} false)

  -- The call that issues a pass, with what follows it in the `try`.
  try_provision-Counts :
      (params : ProvisionParams) (answer : World → Result Card) (after : Card → Exec ℕ)
      (handler : Exn → Exec ℕ)
      → n + 1 ≤ cap
      → ((card : Card) → Counts issued cap (λ k. k) (n + 1) (after card))
      → ((e : Exn) → Counts issued cap (λ k. k) n (handler e))
      → Counts issued cap
          (λ k. k)
          n
          (try_any (perform (ag_provision params) answer >>= after) handler)
  unfolding ◌>>=◌ count_if
  try_provision-Counts params answer after handler room h k = record { at = λ w. go w (answer w) }
    where
      go :
          (w : World) (r : Result Card)
          → let w' = called w (ag_provision params) (is_ok r) in
            let ended = continue after r w' in
            let m = handle_any handler ended.0 ended.1 in
            (s : ℕ) × (m.0 ≡ ok s)
            × (s ≤ max cap n)
            × (s + count_if issued w.history ≡ n + count_if issued m.1.history)
      go w (ok card) =
          let w' = called w (ag_provision params) true in
          let (s, e, le, eq) = (h card).at w' in
          (
            s,
            ap (λ r. (handle_any handler r (after card w').1).0) e,
            omega (arith, le, room),
            omega (
              arith,
              eq,
              ap (λ r. count_if issued (handle_any handler r (after card w').1).1.history) e,
            ),
          )
      go w (raised e) = (k e).at _

module _ (env : Services) (cfg : Config) (cap : ℕ) (snapshot : Snapshot) where
  abbrev Bounded : ℕ → Exec ℕ → Type 0
  Bounded n m = Counts issued cap (λ k. k) n m

  issue-Bounded :
      (n : ℕ) (pid : String) (person : Person) (cred : Credential)
      → Bounded n (issue env cfg cap snapshot n pid person cred)
  unfolding issue provision
  issue-Bounded n pid person cred =
      Counts-if (leb cap n) _ _ (λ _. Counts-pure n)
        λ room. Counts-gets env.now _ λ w. Counts-gets env.new_sync_ref _ λ w'.
          Counts-gets env.dry_run _ λ v.
            Counts-if (env.dry_run v) _ _ (λ _. Counts-pure n)
              λ live. Counts-rows _ _ (
                try_provision-Counts _ _ _ _ (ground arith)
                  (λ card. Counts-rows _ _ (
                    Counts-if cred.allocate_identity _ _
                      (λ _.
                        Counts-bind _ _ (push-Counts env pid cred.id (card ∷ []))
                          (λ b. Counts-pure (n + 1)))
                      (λ _. Counts-pure (n + 1))))
                  (λ e. Counts-rows _ _ (Counts-pure n)))

  dedupe_or_issue-Bounded :
      (n : ℕ) (pid : String) (person : Person) (cred : Credential) (hit : Option Card)
      → Bounded n (dedupe_or_issue env cfg cap snapshot n pid person cred hit)
  unfolding dedupe_or_issue
  dedupe_or_issue-Bounded n pid person cred none = issue-Bounded n pid person cred
  dedupe_or_issue-Bounded n pid person cred (some hit) = Counts-rows _ _ (Counts-pure n)

  consider-Bounded :
      (n : ℕ) (pid : String) (person : Person) (cred : Credential)
      → Bounded n (consider env cfg cap snapshot n pid person cred)
  unfolding consider
  consider-Bounded n pid person cred = Counts-gets env.now _ λ w.
      Counts-if (expired (env.now w) cred) _ _ (λ _. Counts-pure n)
        λ _.
          Counts-if (not (nonempty person.full_name)) _ _ (λ _. Counts-pure n)
            λ _.
              Counts-if (not (nonempty person.email) && not (nonempty person.phone)) _ _
                (λ _. Counts-pure n)
                λ _. dedupe_or_issue-Bounded n pid person cred (dedupe_hit cfg snapshot cred)

  refresh-Bounded :
      (n : ℕ) (pid : String) (cred : Credential) (row : Row)
      → Bounded n (refresh env cfg cap snapshot n pid cred row)
  unfolding refresh
  refresh-Bounded n pid cred row =
      Counts-if (row.status == "deduped") _ _ (λ _. Counts-pure n)
        λ _.
          Counts-if
            (nonempty (listed_state row) && not (listed_state row == row.last_known_ag_state)) _ _
            (λ _. Counts-rows _ _ (Counts-pure n)) (λ _. Counts-pure n)
    where
      listed_state : Row → String
      listed_state r = state_or_none (resolve_ag_card snapshot r.ag_card_id pid cred.id "")

  on_existing-Bounded :
      (n : ℕ) (pid : String) (person : Person) (cred : Credential) (o : Option Row)
      → Bounded n (on_existing env cfg cap snapshot n pid person cred o)
  unfolding on_existing
  on_existing-Bounded n pid person cred none = consider-Bounded n pid person cred
  on_existing-Bounded n pid person cred (some row) =
      Counts-if (nonempty (text_of row.ag_card_id)) _ _ (λ _. refresh-Bounded n pid cred row)
        (λ _. consider-Bounded n pid person cred)

  provision_credential-Bounded :
      (pid : String) (person : Person) (n : ℕ) (cred : Credential)
      → Bounded n (provision_credential env cfg cap snapshot pid person n cred)
  unfolding provision_credential
  provision_credential-Bounded pid person n cred =
      Counts-if cred.hold _ _ (λ _. Counts-pure n)
        λ _.
          Counts-if (not cred.trigger_active) _ _ (λ _. Counts-pure n)
            λ _. Counts-gets _ _ (λ w. on_existing-Bounded n pid person cred _)

  provision_known-Bounded :
      (n : ℕ) (pid : String) (creds : List Credential) (o : Option Person)
      → Counts issued cap (λ s. s.0) n (provision_known env cfg cap snapshot n pid creds o)
  unfolding provision_known
  provision_known-Bounded n pid creds none = Counts-pure (n, false)
  provision_known-Bounded n pid creds (some person) =
      Counts-if (not person.active) _ _ (λ _. Counts-pure (n, false))
        λ _. Counts-gets env.superseded _ λ w.
          Counts-if (env.superseded w) _ _ (λ _. Counts-pure (n, true))
            λ _.
              Counts-bind _ _ (Counts-for_each _ (provision_credential-Bounded pid person) creds n)
                (λ n'. Counts-pure (n', false))

  run-Bounded : Bounded 0 (run env cfg cap snapshot)
  unfolding run provision_person
  run-Bounded =
      Counts-for_until _ (λ n a. provision_known-Bounded n a.0 a.1 _) snapshot.credentials_by_person
        0

-- Whatever the services answer, phase 1 returns without raising; the number that it returns is at
-- most the cap, and is the number of passes that AccessGrid has issued in answer to its calls.
pub provision_run-IsCapped :
    (env : Services) (cfg : Config) (cap : ℕ) (snapshot : Snapshot) (w : World)
    → (n : ℕ) × ((run env cfg cap snapshot w).0 ≡ ok n)
      × (n ≤ cap)
      × (n + count_if issued w.history ≡ count_if issued (run env cfg cap snapshot w).1.history)
provision_run-IsCapped env cfg cap snapshot w =
    let (n, e, le, eq) = (run-Bounded env cfg cap snapshot).at w in
    (n, e, omega (arith, le), omega (arith, eq))
