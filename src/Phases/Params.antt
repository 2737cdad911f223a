-- ===== src/Phases/Params.antt =====
-- What phases 1 and 5 send to AccessGrid, and what they make of the answer
-- (src/agsync/sync/phases/phase1_provision.py; phase5_retries.py has the same text).
use Prim.Native.String.{◌++◌ as str_append}
use integration_hub.Prelude.{
  ℕ, ◌+◌, ◌*◌, String, Bool, false, not, ◌&&◌, string_eq, pair_eq, Option, none, some, [], ◌∷◌,
  lookup, insert, either, is_digits, int_of, one_of, nonempty, ltb, if◌then◌else◌,
}
use integration_hub.Pacs.{Person, Credential}
use integration_hub.AccessGrid.{Attrs, Card, ProvisionParams, card_id, state_or_active}
use integration_hub.Tracking.{Upsert}
use integration_hub.World.{Services, Exn, ag_error, auth_expired, record_unavailable, other}
use integration_hub.Snapshot.{Snapshot}

-- The settings that both phases are called with.
pub record Config : Type 0 where
  pub template_id : String
  pub site_code : String
  pub dedupe_by_site_card : Bool
  pub extra_metadata : Attrs
  pub use_file_data : Bool
  pub card_title : String
  pub card_classification : String

-- `x or None` of a text that is sent only if it is not empty.
abbrev pub if_set : String → Option String
if_set s = if nonempty s then some s else none

abbrev pub instant_or : Option ℕ → ℕ → ℕ
instant_or none now = now
instant_or (some at) now = at

-- 365 days
abbrev pub year_us : ℕ
year_us = 365 * 86400 * 1000000

-- `expired` of phase3_deletions.py
abbrev pub past : ℕ → Option ℕ → Bool
past now none = false
past now (some date) = ltb date now

unfoldable pub expired : ℕ → Credential → Bool
expired now cred = past now cred.deactivate_date

unfoldable pub eff_site_code : Config → Credential → String
eff_site_code cfg cred = either cred.site_code cfg.site_code

-- The card that another issue already gave this physical credential.
unfoldable pub dedupe_hit : Config → Snapshot → Credential → Option Card
dedupe_hit cfg snapshot cred =
    let site = eff_site_code cfg cred in
    if cfg.dedupe_by_site_card
      && not cred.allocate_identity
      && nonempty site
      && nonempty cred.card_number
    then lookup (site, cred.card_number) snapshot.ag_cards_by_site_card
    else none

unfoldable pub put_if_set : String → String → Attrs → Attrs
put_if_set key value m = if nonempty value then insert key value m else m

unfoldable pub provision_metadata : Config → String → Credential → Attrs
provision_metadata cfg sync_ref cred =
    let m = insert "pacs_credential_id" cred.id (insert "sync_ref" sync_ref cfg.extra_metadata) in
    if cred.allocate_identity
    then m
    else put_if_set "card_number" cred.card_number
        (put_if_set "site_code" (eff_site_code cfg cred) m)

module _ (env : Services) where
  unfoldable pub provision_params :
      Config → ℕ → String → String → Person → Credential → ProvisionParams
  provision_params cfg now sync_ref pid person cred =
      let blob = cfg.use_file_data && nonempty cred.file_data in
      let site = eff_site_code cfg cred in
      record {
        card_template_id = cfg.template_id;
        employee_id = pid;
        full_name = person.full_name;
        start_date = env.isoformat (instant_or cred.activate_date now);
        expiration_date = env.isoformat (instant_or cred.deactivate_date (now + year_us));
        metadata = provision_metadata cfg sync_ref cred;
        file_data = if not cred.allocate_identity && blob then some cred.file_data else none;
        site_code =
            if not cred.allocate_identity && not blob && is_digits site
            then some (int_of site)
            else none;
        card_number =
            if not cred.allocate_identity && not blob then if_set cred.card_number else none;
        email = if_set person.email;
        phone_number = if_set person.phone;
        title = if_set (either person.title cfg.card_title);
        classification = if_set cfg.card_classification;
      }

-- The row written once AccessGrid has answered with a card.
unfoldable pub issued_row : String → Person → Credential → String → Card → Upsert
issued_row pid person cred sync_ref card =
    let ag_state = state_or_active card in
    record {
      pacs_person_id = pid;
      pacs_credential_id = cred.id;
      ag_card_id = card_id card;
      full_name = person.full_name;
      employee_id = pid;
      status = if one_of ag_state ("active" ∷ "created" ∷ []) then "active" else ag_state;
      last_synced_email = person.email;
      last_synced_phone = person.phone;
      last_synced_full_name = person.full_name;
      last_synced_title = person.title;
      last_known_ag_state = ag_state;
      sync_ref = sync_ref;
    }

-- `str(e)` of an `AccessGridError`, and the type's name before it for any other.
unfoldable pub error_text : Exn → String
error_text (ag_error text) = text
error_text (auth_expired text) = str_append "PacsAuthExpired: " text
error_text (record_unavailable text) = str_append "PacsRecordUnavailable: " text
error_text (other name text) = str_append name (str_append ": " text)
