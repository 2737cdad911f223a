-- ===== src/Tests/Data.antt =====
-- A small site: one person with one credential, and services that answer the same at each call.
use integration_hub.Prelude.{true, false, none, some, [], ◌∷◌}
use integration_hub.Pacs.{CredentialStatus, Person, Credential}
use integration_hub.AccessGrid.{Card}
use integration_hub.Tracking.{Row, Upsert, FieldTracking, Table}
use integration_hub.World.{Services, World, Exn, auth_expired, other, ok, raised}
use integration_hub.Snapshot.{Snapshot}
use integration_hub.Phases.Params.{Config}
use integration_hub.Engine.Cycle.{Setup}

abbrev pub alice : Person
alice = record {
  id = "p1";
  full_name = "Alice Ito";
  first_name = "Alice";
  last_name = "Ito";
  email = "alice@example.com";
  phone = "";
  title = "Engineer";
  department = "";
  active = true;
}

abbrev pub badge : Credential
badge = record {
  id = "k1";
  person_id = "p1";
  card_number = "1001";
  site_code = "12";
  allocate_identity = false;
  hold = false;
  file_data = "";
  status = CredentialStatus.suspended;
  activate_date = none;
  deactivate_date = none;
  trigger_active = true;
}

abbrev pub pass : Card
pass = record {
  attrs = ("id", "c1") ∷ ("state", "active") ∷ ("full_name", "Alice Ito") ∷ [];
  metadata = ("pacs_credential_id", "k1") ∷ ("sync_ref", "r1") ∷ [];
  collections = [];
}

-- The other half of the pass, with a device, and deleted.
abbrev pub watch : Card
watch = record {
  attrs = ("id", "c3") ∷ ("state", "deleted") ∷ ("card_number", "2002") ∷ ("site_code", "12") ∷ [];
  metadata = ("sync_ref", "r1") ∷ [];
  collections =
      (
        "devices",
        (("card_number", "3003") ∷ ("site_code", "12") ∷ ("status", "installed") ∷ []) ∷ [],
      )
      ∷ [];
}

-- A pass that is installed and suspended.
abbrev pub parked : Card
parked = record pass {
  attrs = ("id", "c1") ∷ ("state", "suspended") ∷ [];
  collections = ("devices", (("status", "installed") ∷ []) ∷ []) ∷ [];
}

-- The row of a credential with a pass.
abbrev pub issued : Row
issued = record {
  pacs_person_id = "p1";
  pacs_credential_id = "k1";
  ag_card_id = some "c1";
  full_name = "Alice Ito";
  employee_id = "p1";
  status = "active";
  last_synced_email = "alice@example.com";
  last_synced_phone = "";
  last_synced_full_name = "Alice I";
  last_synced_title = "";
  last_known_ag_state = "active";
  sync_error = none;
  retry_count = 0;
  sync_ref = "r1";
  last_synced_expiration = none;
  created_at = 5;
  updated_at = 6;
}

-- The row of a person who has left.
abbrev pub orphan : Row
orphan = record issued {
  pacs_person_id = "p2";
  pacs_credential_id = "k2";
  ag_card_id = some "c2";
  sync_ref = "r2";
  created_at = 3;
}

-- The row of a credential whose pass could not be issued.
abbrev pub refused : Row
refused = record issued {
  ag_card_id = none;
  status = "pending";
  sync_error = some "timeout";
  retry_count = 2;
}

abbrev pub at_work : Snapshot
at_work = record {
  people = ("p1", alice) ∷ [];
  credentials_by_person = ("p1", badge ∷ []) ∷ [];
  ag_cards_by_employee = ("p1", pass ∷ []) ∷ [];
  ag_cards_by_token = (("p1", "k1"), pass ∷ []) ∷ [];
  ag_card_by_id = ("c1", pass) ∷ [];
  ag_cards_by_sync_ref = ("r1", pass ∷ []) ∷ [];
  ag_cards_by_site_card = [];
}

-- The same before the pass is issued.
abbrev pub before_issue : Snapshot
before_issue = record at_work {
  ag_cards_by_employee = [];
  ag_cards_by_token = [];
  ag_card_by_id = [];
  ag_cards_by_sync_ref = [];
}

-- The same, with a second person.
abbrev pub two_people : Snapshot
two_people = record before_issue {
  people = ("p1", alice) ∷ ("p2", record alice { id = "p2" }) ∷ [];
  credentials_by_person = ("p1", badge ∷ []) ∷ ("p2", badge ∷ []) ∷ [];
}

abbrev pub site : Services
site = record {
  provision = λ w params. ok pass;
  delete = λ w id. ok tt;
  suspend = λ w id. ok tt;
  resume = λ w id. ok tt;
  update = λ w id changes. ok tt;
  get_card = λ w id. ok pass;
  list_cards = λ w template. ok (pass ∷ []);
  read_template = λ w template. ok ("SEOS" ∷ "SEOS" ∷ []);
  supports_status_writeback = true;
  supports_credential_writeback = true;
  supports_credential_retirement = true;
  list_people = λ w. ok (alice ∷ []);
  list_credentials = λ w pid. ok (badge ∷ []);
  update_credential_status = λ w pid id status. ok true;
  write_back_credentials = λ w pid id identities. ok true;
  written_credentials = λ w. ok (("p1", "k1") ∷ []);
  retire_credentials = λ w pid id identities. ok 1;
  finish_cycle = λ w. ok tt;
  dry_run = λ w. false;
  superseded = λ w. false;
  now = λ w. 1000;
  new_sync_ref = λ w. "r1";
  isoformat = λ t. "1970-01-01T00:00:00+00:00";
  fromisoformat = λ text. none;
}

abbrev pub dry_site : Services
dry_site = record site { dry_run = λ w. true }

abbrev pub stale_site : Services
stale_site = record site { superseded = λ w. true }

abbrev pub expired_session : Exn
expired_session = auth_expired "token"

abbrev pub signed_out_site : Services
signed_out_site = record site { list_people = λ w. raised expired_session }

abbrev pub refused_connection : Exn
refused_connection = other "ConnectionError" "refused"

abbrev pub down_site : Services
down_site = record site { list_people = λ w. raised refused_connection }

abbrev pub config : Config
config = record {
  template_id = "t1";
  site_code = "12";
  dedupe_by_site_card = false;
  extra_metadata = [];
  use_file_data = false;
  card_title = "";
  card_classification = "";
}

abbrev pub setup : Setup
setup = record { config = config; derives_mode = true; ag_init = ok tt; pacs_init = λ shape. ok tt }

abbrev pub holding : Table → World
holding rows = record { rows = rows; last_complete = some 2; ag_card_detail = []; history = [] }

abbrev pub renewal : Upsert
renewal = record {
  pacs_person_id = "p1";
  pacs_credential_id = "k1";
  ag_card_id = some "c9";
  full_name = "Alice Ito";
  employee_id = "p1";
  status = "active";
  last_synced_email = "";
  last_synced_phone = "";
  last_synced_full_name = "Alice Ito";
  last_synced_title = "";
  last_known_ag_state = "active";
  sync_ref = "";
}

abbrev pub fields : FieldTracking
fields = record {
  full_name = "Alice Ito";
  email = "alice@example.com";
  phone = "";
  title = "Engineer";
  expiration = "";
}
