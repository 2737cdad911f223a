-- ===== src/Connect.antt =====
-- The hand-off of a browser's session (src/agsync/routes/connect.py): the launches that are open, and
-- one function for each endpoint. Instants are in milliseconds. The end of a callback also tells the
-- notifier and the engine (`reset_throttle`, `session_restored`), which is left out here.
pub mod Weights
pub mod Sums
pub mod Callbacks
pub mod Once
use Prim.Native.String.{◌++◌ as str_append}
use integration_hub.Prelude.{
  ℕ, ◌+◌, String, Bool, true, false, not, ◌||◌, Option, none, some, List, [], ◌∷◌, if◌then◌else◌,
  ltb, ◌==◌, string_eq, nonempty, lookup, insert, text_of,
}

-- `Launch.state`
pub data LaunchState : Type 0 where
  waiting connected cancelled failed : LaunchState

-- `Launch`
pub record Launch : Type 0 where
  pub key : String
  pub login_url : String
  pub created_at : ℕ
  pub claimed : Bool
  pub state : LaunchState
  pub message : String

-- `_LaunchRegistry._launches`
abbrev pub Launches : Type 0
Launches = List (String × Launch)

-- `LAUNCH_TTL_S`
abbrev pub launch_ttl_ms : ℕ
launch_ttl_ms = 900000

-- `Launch.expired`
unfoldable pub expired : ℕ → Launch → Bool
expired now launch = ltb (launch.created_at + launch_ttl_ms) now

-- `_launches.pop(launch_id, None)`
unfoldable pub pop : String → Launches → Launches
pop launch_id [] = []
pop launch_id ((id, launch) ∷ launches) =
    let rest = pop launch_id launches in if id == launch_id then rest else (id, launch) ∷ rest

-- `_prune`
unfoldable pub prune : ℕ → Launches → Launches
unfolding expired
prune now [] = []
prune now ((id, launch) ∷ launches) =
    let rest = prune now launches in if expired now launch then rest else (id, launch) ∷ rest

abbrev pub new_launch : ℕ → String → String → Launch
new_launch now key login_url = record {
  key = key;
  login_url = login_url;
  created_at = now;
  claimed = false;
  state = waiting;
  message = "";
}

-- `create`, with the id and the key that are drawn.
unfoldable pub create : ℕ → String → String → String → Launches → Launches
create now launch_id key login_url launches =
    insert launch_id (new_launch now key login_url) (prune now launches)

-- `get`: the launch, and the registry without it if it has expired.
unfoldable pub get : ℕ → String → Launches → Option Launch × Launches
unfolding expired pop
get now launch_id launches = elim (lookup launch_id launches) [
  | none ↦ (none, launches)
  | some launch ↦
      if expired now launch then (none, pop launch_id launches) else (some launch, launches)
]

-- `claim`
unfoldable pub claim : ℕ → String → Launches → Option Launch × Launches
unfolding expired
claim now launch_id launches = elim (lookup launch_id launches) [
  | none ↦ (none, launches)
  | some launch ↦ if expired now launch || launch.claimed then (none, launches) else (
    some (record launch { claimed = true }),
    insert launch_id (record launch { claimed = true }) launches,
  )
]

abbrev pub Cookies : Type 0
Cookies = List (String × String)

-- What comes of `build_adapter`, `session_from_cookies` and `validate_session`.
pub data Verdict : Type 0 where
  raised : Verdict
  unusable : String → Verdict
  works : String → Verdict

-- What the endpoints use of the other parts: the page to sign in at (empty without one), the cookie
-- that a sign-in must leave (`none` without a browser login), the sealed payload's cipher and the
-- adapter.
pub record Site : Type 0 where
  pub login_url : String
  pub required_cookie : Option String
  pub unseal : String → String → Option Cookies
  pub validate : Cookies → Verdict

pub record State : Type 0 where
  pub launches : Launches
  -- `PacsSession.save`, the last one first.
  pub sessions : List String

-- The answers of the endpoints; `granted` carries the key and the page.
pub data Answer : Type 0 where
  minted : String → Answer
  granted : String → String → Answer
  accepted : Answer
  not_found : Answer
  refused : Answer
  server_error : Answer
  shown : Option LaunchState → Answer

-- The requests, with what `secrets` and AESGCM draw for a new launch.
pub data Request : Type 0 where
  begin : String → String → Request
  claim_launch : String → Request
  callback : String → String → Request
  cancel : String → Request
  status : String → Request

unfoldable pub fail : String → Launch → String → Launches → Launches
fail launch_id launch message launches =
    insert launch_id (record launch { state = failed; message = message }) launches

-- `connect_begin` and `connect_page`
pub connect_begin : Site → ℕ → String → String → State → Answer × State
unfolding create
connect_begin site now launch_id key st =
    if nonempty site.login_url
    then (
      minted launch_id,
      record st { launches = create now launch_id key site.login_url st.launches },
    )
    else (refused, st)

-- `connect_claim`
pub connect_claim : ℕ → String → State → Answer × State
connect_claim now launch_id st =
    let found = claim now launch_id st.launches in
    (
      elim found.0 [ none ↦ not_found | some launch ↦ granted launch.key launch.login_url ],
      record st { launches = found.1 },
    )

-- The end of `connect_callback`: a session that works is kept, and the key is dropped.
store_session : String → Launch → Verdict → State → Answer × State
unfolding fail
store_session launch_id launch raised st = (server_error, st)
store_session launch_id launch (unusable detail) st = (
  refused,
  record st {
    launches =
        fail launch_id launch
          (str_append
            "That sign-in did not produce a working session. Please try again and complete the login fully. ("
            (str_append detail ")"))
          st.launches;
  },
)
store_session launch_id launch (works session) st = (
  accepted,
  record st {
    launches = insert launch_id (record launch { key = ""; state = connected }) st.launches;
    sessions = session ∷ st.sessions;
  },
)

check_cookies : Site → String → Launch → Cookies → State → Answer × State
unfolding fail store_session
check_cookies site launch_id launch cookies st = elim site.required_cookie [
  | none ↦ (
    refused,
    record st {
      launches = fail launch_id launch "This PACS does not sign in through a browser." st.launches;
    },
  )
  | some cookie ↦
      if nonempty (text_of (lookup cookie cookies))
      then store_session launch_id launch (site.validate cookies) st
      else (
        refused,
        record st {
          launches = fail launch_id launch "Sign-in did not produce a session cookie." st.launches;
        },
      )
]

receive : Site → String → String → Launch → State → Answer × State
unfolding fail check_cookies
receive site launch_id payload launch st = elim (site.unseal launch.key payload) [
  | none ↦ (
    refused,
    record st {
      launches =
          fail launch_id launch "The session could not be decrypted. Please try again." st.launches;
    },
  )
  | some cookies ↦ check_cookies site launch_id launch cookies st
]

-- `connect_callback`
pub connect_callback : Site → ℕ → String → String → State → Answer × State
unfolding receive
connect_callback site now launch_id payload st =
    let found = get now launch_id st.launches in
    let kept : State = record st { launches = found.1 } in
    elim found.0 [
      | none ↦ (not_found, kept)
      | some launch ↦
          if launch.claimed then receive site launch_id payload launch kept else (not_found, kept)
    ]

-- `connect_cancel`
pub connect_cancel : ℕ → String → State → Answer × State
connect_cancel now launch_id st =
    let found = get now launch_id st.launches in
    (
      accepted,
      record st {
        launches = elim found.0 [
          | none ↦ found.1
          | some launch ↦
              insert launch_id
                (record launch {
                  state = cancelled;
                  message = "The sign-in window was closed before finishing.";
                })
                found.1
        ];
      },
    )

-- What `connect_status` looks up, and the state it reports.
pub connect_status : ℕ → String → State → Answer × State
connect_status now launch_id st =
    let found : Option Launch × Launches =
      if nonempty launch_id then get now launch_id st.launches else (none, st.launches) in
    (
      shown (elim found.0 [ none ↦ none | some launch ↦ some launch.state ]),
      record st { launches = found.1 },
    )

-- One request, at an instant.
pub step : Site → ℕ → Request → State → Answer × State
step site now (begin launch_id key) st = connect_begin site now launch_id key st
step site now (claim_launch launch_id) st = connect_claim now launch_id st
step site now (callback launch_id payload) st = connect_callback site now launch_id payload st
step site now (cancel launch_id) st = connect_cancel now launch_id st
step site now (status launch_id) st = connect_status now launch_id st
