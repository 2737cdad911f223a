-- ===== src/Pacs.antt =====
-- The PACS contract (src/agsync/lib/pacs/base.py): what an adapter reports, and what it is told.
-- Instants are counted in microseconds; `raw`, which the engine never reads, is left out.
use integration_hub.Prelude.{ℕ, String, Bool, true, false, Option}

-- `CredentialStatus`
pub data CredentialStatus : Type 0 where
  active suspended awaiting_install unknown : CredentialStatus

-- `is`, on the members of the enumeration.
abbrev pub is_active : CredentialStatus → Bool
is_active active = true
is_active _ = false

abbrev pub is_awaiting_install : CredentialStatus → Bool
is_awaiting_install awaiting_install = true
is_awaiting_install _ = false

abbrev pub same_status : CredentialStatus → CredentialStatus → Bool
same_status active active = true
same_status suspended suspended = true
same_status awaiting_install awaiting_install = true
same_status unknown unknown = true
same_status _ _ = false

-- `Person`
pub record Person : Type 0 where
  pub id : String
  pub full_name : String
  pub first_name : String
  pub last_name : String
  pub email : String
  pub phone : String
  pub title : String
  pub department : String
  pub active : Bool

-- `Credential`
pub record Credential : Type 0 where
  pub id : String
  pub person_id : String
  pub card_number : String
  pub site_code : String
  pub allocate_identity : Bool
  pub hold : Bool
  pub file_data : String
  pub status : CredentialStatus
  pub activate_date : Option ℕ
  pub deactivate_date : Option ℕ
  pub trigger_active : Bool

-- `CredentialIdentity`
pub record CredentialIdentity : Type 0 where
  pub site_code : String
  pub card_number : String
  pub activate_date : Option ℕ
  pub deactivate_date : Option ℕ
  pub device_type : String
