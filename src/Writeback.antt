-- ===== src/Writeback.antt =====
-- The credentials that AccessGrid allocated, on their way into the PACS
-- (src/agsync/sync/phases/writeback.py).
pub mod Identities
pub mod Pushes
use integration_hub.Prelude.{
  ℕ, String, Bool, true, false, not, ◌&&◌, ◌||◌, ◌==◌, string_eq, pair_eq, Option, none, some, List,
  [], ◌∷◌, ◌++◌, lookup, lookup_list, any, is_nil, lower, strip, replace_z, one_of, nonempty,
  text_of, if◌then◌else◌,
}
use integration_hub.Pacs.{CredentialIdentity}
use integration_hub.AccessGrid.{Attrs, Card, collection}
use integration_hub.World.{Services, World, Exec, pacs_write_back, pure, perform, try_any}

module _ (env : Services) where
  -- `_as_datetime`, on a text or nothing.
  unfoldable pub as_datetime : Option String → Option ℕ
  as_datetime none = none
  as_datetime (some value) =
      if nonempty (strip value) then env.fromisoformat (replace_z value) else none

-- `_attr`: the first of the keys with a value.
unfoldable pub attr : Attrs → List String → String
attr obj [] = ""
attr obj (key ∷ keys) =
    let value = text_of (lookup key obj) in
    let rest = attr obj keys in if nonempty value then value else rest

unfoldable pub state_of : Attrs → String
state_of entry = lower (strip (attr entry ("state" ∷ "status" ∷ [])))

unfoldable pub is_dead : Attrs → Bool
is_dead entry = one_of (state_of entry) ("deleted" ∷ "unlink" ∷ "unlinked" ∷ [])

unfoldable pub device_installed : Attrs → Bool
device_installed device = one_of (state_of device) ("installed" ∷ "active" ∷ [])

unfoldable pub is_installed : List Card → Bool
is_installed = any (λ card. any device_installed (collection "devices" card))

-- The site code and the card number of an entry.
unfoldable pub identity_key : Attrs → String × String
identity_key entry = (
  attr entry ("site_code" ∷ "facility_code" ∷ "siteCode" ∷ []),
  attr entry ("card_number" ∷ "cardNumber" ∷ "number" ∷ []),
)

-- The entries of `_DEVICE_COLLECTIONS`, in its order.
unfoldable pub device_entries : Card → List Attrs
device_entries card =
    collection "details" card
    ++ (collection "device_credentials" card
        ++ (collection "devices" card ++ collection "credentials" card))

abbrev pub key_of : CredentialIdentity → String × String
key_of identity = (identity.site_code, identity.card_number)

unfoldable pub is_seen : String × String → List CredentialIdentity → Bool
is_seen key = any (λ identity. key_of identity == key)

-- `if not number or (site, number) in seen: continue`. What was seen is what is in `out`.
unfoldable pub is_new : Attrs → List CredentialIdentity → Bool
is_new entry out = nonempty (identity_key entry).1 && not (is_seen (identity_key entry) out)

abbrev pub or_else : Option ℕ → Option ℕ → Option ℕ
or_else none b = b
or_else (some a) b = some a

module _ (env : Services) where
  unfoldable pub entry_identity : Option ℕ → Option ℕ → Attrs → CredentialIdentity
  entry_identity activate expire entry = record {
    site_code = (identity_key entry).0;
    card_number = (identity_key entry).1;
    activate_date = activate;
    deactivate_date = or_else (as_datetime env (some (attr entry ("expiration_date" ∷ [])))) expire;
    device_type = attr entry ("device_type" ∷ []);
  }

  unfoldable pub add_entries :
      Option ℕ → Option ℕ → List Attrs → List CredentialIdentity → List CredentialIdentity
  add_entries activate expire [] out = out
  add_entries activate expire (entry ∷ entries) out = add_entries activate expire entries (
      if is_new entry out && not (is_dead entry)
      then out ++ entry_identity activate expire entry ∷ []
      else out)

  unfoldable pub card_identity : Option ℕ → Option ℕ → Card → CredentialIdentity
  card_identity activate expire card = record {
    site_code = (identity_key card.attrs).0;
    card_number = (identity_key card.attrs).1;
    activate_date = activate;
    deactivate_date = expire;
    device_type = "";
  }

  unfoldable pub identities_from_card : Card → List CredentialIdentity
  identities_from_card card =
      let activate = as_datetime env (lookup "start_date" card.attrs) in
      let expire = as_datetime env (lookup "expiration_date" card.attrs) in
      let out = add_entries activate expire (device_entries card) [] in
      if is_new card.attrs out && not (is_dead card.attrs)
      then out ++ card_identity activate expire card ∷ []
      else out

  -- The inner loop of `identities_from_cards`.
  unfoldable pub merge_identities :
      List CredentialIdentity → List CredentialIdentity → List CredentialIdentity
  merge_identities [] out = out
  merge_identities (identity ∷ rest) out =
      merge_identities rest (if is_seen (key_of identity) out then out else out ++ identity ∷ [])

  unfoldable pub merge_cards : List Card → List CredentialIdentity → List CredentialIdentity
  merge_cards [] out = out
  merge_cards (card ∷ cards) out =
      merge_cards cards (merge_identities (identities_from_card card) out)

  unfoldable pub identities_from_cards : List Card → List CredentialIdentity
  identities_from_cards cards = merge_cards cards []

abbrev pub bare_identity : Attrs → CredentialIdentity
bare_identity entry = record {
  site_code = (identity_key entry).0;
  card_number = (identity_key entry).1;
  activate_date = none;
  deactivate_date = none;
  device_type = "";
}

-- `for entry in [*entries, card]`
unfoldable pub add_deleted : Bool → List Attrs → List CredentialIdentity → List CredentialIdentity
add_deleted parent_dead [] out = out
add_deleted parent_dead (entry ∷ entries) out = add_deleted parent_dead entries (
    if is_new entry out && (parent_dead || is_dead entry)
    then out ++ bare_identity entry ∷ []
    else out)

unfoldable pub add_deleted_cards : List Card → List CredentialIdentity → List CredentialIdentity
add_deleted_cards [] out = out
add_deleted_cards (card ∷ cards) out =
    add_deleted_cards cards
      (add_deleted (is_dead card.attrs) (device_entries card ++ card.attrs ∷ []) out)

unfoldable pub deleted_identities_from_cards : List Card → List CredentialIdentity
deleted_identities_from_cards cards = add_deleted_cards cards []

module _ (env : Services) where
  unfoldable pub push_allocated_identities : String → String → List Card → Exec Bool
  push_allocated_identities person_id credential_id cards =
      let identities = identities_from_cards env cards in
      if env.supports_credential_writeback && not (is_nil identities)
      then try_any
          (perform (pacs_write_back person_id credential_id identities)
            (λ w. env.write_back_credentials w person_id credential_id identities))
          (λ _. pure false)
      else pure false
