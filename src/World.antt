-- ===== src/World.antt =====
-- The state that one sync cycle works on, the services it calls, and code that may raise.
-- The services (the AccessGrid SDK, a PACS adapter, the clock, the dry-run switch) answer by
-- functions of the whole state, which holds the history of all calls: any behaviour over time is
-- such a function. A method is a function of the state into a result beside the new state, so
-- that what was written before an exception stays written.
pub mod Calls
pub mod Counts
pub mod Keeps
use integration_hub.Prelude.{
  ℕ, ◌+◌, String, Bool, true, false, Option, List, [], ◌∷◌, if◌then◌else◌,
}
use integration_hub.Pacs.{CredentialStatus, CredentialIdentity, Person, Credential}
use integration_hub.AccessGrid.{Attrs, Card, ProvisionParams}
use integration_hub.Tracking.{Table}

-- The exceptions that the engine tells apart. `other` has the type's name and the text.
pub data Exn : Type 0 where
  ag_error auth_expired record_unavailable : String → Exn
  other : String → String → Exn

-- `str(e)`
abbrev pub message : Exn → String
message (ag_error text) = text
message (auth_expired text) = text
message (record_unavailable text) = text
message (other name text) = text

pub data Result {ℓ} (A : Type ℓ) : Type ℓ where
  ok : A → Result A
  raised : Exn → Result A

abbrev pub is_ok {ℓ} : {A : Type ℓ} → Result A → Bool
is_ok (ok a) = true
is_ok (raised e) = false

-- A call of a service. The reads that build a snapshot are among them.
pub data Call : Type 0 where
  ag_provision : ProvisionParams → Call
  ag_delete ag_suspend ag_resume ag_get : String → Call
  ag_update : String → Attrs → Call
  ag_list ag_read_template : String → Call
  pacs_list_people : Call
  pacs_list_credentials : String → Call
  pacs_update_status : String → String → CredentialStatus → Call
  pacs_write_back : String → String → List CredentialIdentity → Call
  pacs_written : Call
  pacs_retire : String → String → List CredentialIdentity → Call
  pacs_finish_cycle : Call

-- A call, whether it returned, and the state in which it was made: that state's own history is
-- what stands before the event.
pub record Event : Type 0 where
  pub call : Call
  pub accepted : Bool
  pub rows : Table
  pub last_complete : Option ℕ
  pub ag_card_detail : List (String × Card)

-- `rows` is the tracking table, `last_complete` the setting of phase 3, `ag_card_detail` the
-- snapshot's cache, `history` every call so far, the newest first.
pub record World : Type 0 where
  pub rows : Table
  pub last_complete : Option ℕ
  pub ag_card_detail : List (String × Card)
  pub history : List Event

abbrev pub event_at : World → Call → Bool → Event
event_at w c accepted = record {
  call = c;
  accepted = accepted;
  rows = w.rows;
  last_complete = w.last_complete;
  ag_card_detail = w.ag_card_detail;
}

-- The state after a call.
abbrev pub called : World → Call → Bool → World
called w c accepted = record w { history = event_at w c accepted ∷ w.history }

-- The state in which an event's call was made, from the events before it.
abbrev pub world_of : Event → List Event → World
world_of e before = record {
  rows = e.rows;
  last_complete = e.last_complete;
  ag_card_detail = e.ag_card_detail;
  history = before;
}

pub record Services : Type 0 where
  -- the AccessGrid SDK
  pub provision : World → ProvisionParams → Result Card
  pub delete : World → String → Result (Unit {0})
  pub suspend : World → String → Result (Unit {0})
  pub resume : World → String → Result (Unit {0})
  pub update : World → String → Attrs → Result (Unit {0})
  pub get_card : World → String → Result Card
  pub list_cards : World → String → Result (List Card)
  -- the protocol of each template that an id names
  pub read_template : World → String → Result (List String)
  -- the PACS adapter
  pub supports_status_writeback : Bool
  pub supports_credential_writeback : Bool
  pub supports_credential_retirement : Bool
  pub list_people : World → Result (List Person)
  pub list_credentials : World → String → Result (List Credential)
  pub update_credential_status : World → String → String → CredentialStatus → Result Bool
  pub write_back_credentials : World → String → String → List CredentialIdentity → Result Bool
  pub written_credentials : World → Result (List (String × String))
  pub retire_credentials : World → String → String → List CredentialIdentity → Result ℕ
  pub finish_cycle : World → Result (Unit {0})
  -- the switch of dryrun.py, the clock, the random reference, and Python's datetime texts
  pub dry_run : World → Bool
  pub superseded : World → Bool
  pub now : World → ℕ
  pub new_sync_ref : World → String
  pub isoformat : ℕ → String
  pub fromisoformat : String → Option ℕ

abbrev pub Exec {ℓ} : Type ℓ → Type ℓ
Exec A = World → Result A × World

module _ {ℓ} {A : Type ℓ} where
  unfoldable pub pure : A → Exec A
  pure a w = (ok a, w)

  unfoldable pub raise : Exn → Exec A
  raise e w = (raised e, w)

  unfoldable pub gets : (World → A) → Exec A
  gets f w = (ok (f w), w)

  -- A call of a service: its answer, and its entry in the history.
  unfoldable pub perform : Call → (World → Result A) → Exec A
  perform c answer w = let r = answer w in (r, called w c (is_ok r))

  -- `try: m except AccessGridError as e: handler(e)`
  abbrev pub handle_ag : (String → Exec A) → Result A → Exec A
  handle_ag handler (ok a) w = (ok a, w)
  handle_ag handler (raised (ag_error text)) w = handler text w
  handle_ag handler (raised e) w = (raised e, w)

  unfoldable pub try_ag : Exec A → (String → Exec A) → Exec A
  try_ag m handler w = let (r, w') = m w in handle_ag handler r w'

  -- `try: m except Exception as e: handler(e)`
  abbrev pub handle_any : (Exn → Exec A) → Result A → Exec A
  handle_any handler (ok a) w = (ok a, w)
  handle_any handler (raised e) w = handler e w

  unfoldable pub try_any : Exec A → (Exn → Exec A) → Exec A
  try_any m handler w = let (r, w') = m w in handle_any handler r w'

-- A statement on the tracking table.
unfoldable pub on_rows : (World → Table → Table) → Exec (Unit {0})
on_rows f w = (ok tt, record w { rows = f w w.rows })

module _ {ℓ κ} {A : Type ℓ} {B : Type κ} where
  abbrev pub continue : (A → Exec B) → Result A → Exec B
  continue f (ok a) w = f a w
  continue f (raised e) w = (raised e, w)

  infixl 5 ◌>>=◌ ◌>>◌
  -- To open this is to open the actions too.
  unfoldable pub ◌>>=◌ : Exec A → (A → Exec B) → Exec B
  unfolding pure raise gets perform try_ag try_any on_rows
  ◌>>=◌ m f w = let (r, w') = m w in continue f r w'

  abbrev pub ◌>>◌ : Exec A → Exec B → Exec B
  m >> n = m >>= λ _. n

module _ {ℓ κ} {S : Type ℓ} {A : Type κ} where
  -- `for x in xs: body`, on the loop's own variables `s`; an exception ends the loop.
  unfoldable pub for_each : (S → A → Exec S) → List A → S → Exec S
  for_each body [] s = pure s
  for_each body (x ∷ xs) s = do s' ← body s x; for_each body xs s'

  -- The same with `break`, which the body answers beside the variables.
  unfoldable pub for_until : (S → A → Exec (S × Bool)) → List A → S → Exec S
  for_until body [] s = pure s
  for_until body (x ∷ xs) s = do
    (s', stop) ← body s x
    if stop then pure s' else for_until body xs s'
