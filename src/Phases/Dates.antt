-- ===== src/Phases/Dates.antt =====
-- Dates that a PACS gives a credential, against the clock (src/agsync/sync/phases).
use integration_hub.Prelude.{
  ℕ, ◌<◌, ◌≤◌, ◌≡◌, arith, Bool, true, false, ◌&&◌, not, Option, none, some, lookup, is_some,
  either, nonempty, string_eq, pair_eq,
}
use integration_hub.Pacs.{Credential}
use integration_hub.Snapshot.{Snapshot}
use integration_hub.Phases.Params.{Config, past, expired, eff_site_code, dedupe_hit}

-- A date that is stated and lies before `now`.
abbrev pub Overdue : ℕ → Option ℕ → Type 0
Overdue now none = ⊥
Overdue now (some at) = at < now

-- No date is stated, or it has not passed.
abbrev pub InTime : ℕ → Option ℕ → Type 0
InTime now none = Unit
InTime now (some at) = now ≤ at

past-Overdue : (now : ℕ) (d : Option ℕ) → past now d ≡ true → Overdue now d
past-Overdue now none h = cc
past-Overdue now (some at) h = ground arith

past-InTime : (now : ℕ) (d : Option ℕ) → past now d ≡ false → InTime now d
past-InTime now none h = tt
past-InTime now (some at) h = ground arith

pub expired-Overdue :
    (now : ℕ) (cred : Credential) → expired now cred ≡ true → Overdue now cred.deactivate_date
unfolding expired
expired-Overdue now cred h = past-Overdue now _ h

pub expired-InTime :
    (now : ℕ) (cred : Credential) → expired now cred ≡ false → InTime now cred.deactivate_date
unfolding expired
expired-InTime now cred h = past-InTime now _ h

-- A card stands in the snapshot under the credential's site and number, where these are compared:
-- the option is on, the identity is not AccessGrid's to mint, and both are given.
abbrev pub has_twin : Config → Snapshot → Credential → Bool
has_twin cfg snapshot cred =
    cfg.dedupe_by_site_card
    && not cred.allocate_identity
    && nonempty (either cred.site_code cfg.site_code)
    && nonempty cred.card_number
    && is_some (
        lookup (either cred.site_code cfg.site_code, cred.card_number)
          snapshot.ag_cards_by_site_card)

pub dedupe_hit-none :
    (cfg : Config) (snapshot : Snapshot) (cred : Credential)
    → dedupe_hit cfg snapshot cred ≡ none
    → has_twin cfg snapshot cred ≡ false
unfolding dedupe_hit eff_site_code
dedupe_hit-none cfg snapshot cred h = ground arith
