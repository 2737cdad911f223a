-- ===== src/AccessGrid.antt =====
-- What passes between the hub and the AccessGrid SDK. The SDK's objects are read by `getattr`
-- and `dict.get` alone, so an object is its attributes: a name with a text, where a value that
-- is no text stands as its `str`, and `None` as an absent name.
pub mod Pages
pub mod Ends
use integration_hub.Prelude.{
  ℕ, String, Option, none, some, List, lookup, lookup_list, text_of, lower, nonempty, string_eq,
  if◌then◌else◌,
}

abbrev pub Attrs : Type 0
Attrs = List (String × String)

-- A pass: its plain attributes, its `metadata`, and its attributes that are lists of objects.
pub record Card : Type 0 where
  pub attrs : Attrs
  pub metadata : Attrs
  pub collections : List (String × List Attrs)

-- `getattr(card, "id", None)`
abbrev pub card_id : Card → Option String
card_id card = lookup "id" card.attrs

-- `(getattr(card, "state", "") or "").lower()`, and `""` for no card.
unfoldable pub state_or_none : Option Card → String
state_or_none none = ""
state_or_none (some card) = lower (text_of (lookup "state" card.attrs))

-- `(getattr(card, "state", "active") or "active").lower()`
unfoldable pub state_or_active : Card → String
state_or_active card =
    let state = text_of (lookup "state" card.attrs) in
    lower (if nonempty state then state else "active")

-- The objects of one of the card's lists; none where the attribute is absent.
abbrev pub collection : String → Card → List Attrs
collection name card = lookup_list name card.collections

-- The arguments of `access_cards.provision`; an option that is `none` is left out of the call.
pub record ProvisionParams : Type 0 where
  pub card_template_id : String
  pub employee_id : String
  pub full_name : String
  pub start_date : String
  pub expiration_date : String
  pub metadata : Attrs
  pub file_data : Option String
  pub site_code : Option ℕ
  pub card_number : Option String
  pub email : Option String
  pub phone_number : Option String
  pub title : Option String
  pub classification : Option String
