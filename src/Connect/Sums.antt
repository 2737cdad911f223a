-- ===== src/Connect/Sums.antt =====
-- The sums of Weights after each endpoint of src/agsync/routes/connect.py, against those before.
use integration_hub.Prelude.{
  ℕ, ◌+◌, ◌≤◌, ◌≡◌, String, Bool, true, false, not, ◌&&◌, Option, none, some, ◌==◌, string_eq,
  nonempty, lookup, insert, arith,
}
use integration_hub.Connect.{
  Launch, failed, cancelled, LaunchState, new_launch, Launches, Site, State, Answer, Request, begin,
  claim_launch, callback, granted, accepted, create, get, claim, prune, fail, connect_begin,
  connect_claim, connect_cancel, connect_status,
}
use integration_hub.Connect.Weights.{tick, weight, weight-pop, weight-prune, weight-insert}

-- A launch whose key is not given out yet, and one whose key is and still serves.
abbrev pub is_unclaimed : Launch → Bool
is_unclaimed launch = not launch.claimed

abbrev pub is_open : Launch → Bool
is_open launch = launch.claimed && nonempty launch.key

-- What happens to the launch `id` at a request with an answer.
abbrev pub begins : String → Request → Bool
begins id (begin launch_id key) = launch_id == id
begins id _ = false

abbrev pub gives : String → Request → Answer → Bool
gives id (claim_launch launch_id) (granted key login_url) = launch_id == id
gives id _ _ = false

abbrev pub keeps : String → Request → Answer → Bool
keeps id (callback launch_id payload) accepted = launch_id == id
keeps id _ _ = false

module _ (id : String) where
  pub weight-get :
      (in_state : Launch → Bool) (now : ℕ) (asked : String) (m : Launches)
      → weight in_state id ((get now asked m).1) ≤ weight in_state id m
  unfolding get
  weight-get in_state now asked m = ground (arith, weight-pop in_state id asked m)

  -- A launch that `get` hands out is in the registry, which is then as before.
  pub get-found :
      (now : ℕ) (asked : String) (m : Launches) (launch : Launch)
      → (get now asked m).0 ≡ some launch
      → (lookup asked m ≡ some launch) × ((get now asked m).1 ≡ m)
  unfolding get
  get-found now asked m launch e = ground arith

  -- The registry after each request, against the one before: the launches whose key waits.
  pub begin_waits :
      (site : Site) (now : ℕ) (launch_id key : String) (st : State)
      → weight is_unclaimed id ((connect_begin site now launch_id key st).1.launches)
        ≤ tick (launch_id == id) + weight is_unclaimed id st.launches
  unfolding connect_begin create
  begin_waits site now launch_id key st = ground (
    arith,
    weight-insert is_unclaimed id launch_id (new_launch now key site.login_url)
        (prune now st.launches),
    weight-prune is_unclaimed id now st.launches,
  )

  pub claim_waits :
      (now : ℕ) (launch_id : String) (st : State) (o : Option Launch)
      → lookup launch_id st.launches ≡ o
      → tick (gives id (claim_launch launch_id) ((connect_claim now launch_id st).0))
          + weight is_unclaimed id ((connect_claim now launch_id st).1.launches)
        ≤ weight is_unclaimed id st.launches
  unfolding connect_claim claim
  claim_waits now launch_id st none e = ground arith
  claim_waits now launch_id st (some launch) e = ground (
    arith,
    weight-insert is_unclaimed id launch_id (record launch { claimed = true }) st.launches,
  )

  -- The launches whose key is out and serves.
  pub begin_opens :
      (site : Site) (now : ℕ) (launch_id key : String) (st : State)
      → weight is_open id ((connect_begin site now launch_id key st).1.launches)
        ≤ weight is_open id st.launches
  unfolding connect_begin create
  begin_opens site now launch_id key st = ground (
    arith,
    weight-insert is_open id launch_id (new_launch now key site.login_url) (prune now st.launches),
    weight-prune is_open id now st.launches,
  )

  pub claim_opens :
      (now : ℕ) (launch_id : String) (st : State) (o : Option Launch)
      → lookup launch_id st.launches ≡ o
      → weight is_open id ((connect_claim now launch_id st).1.launches)
        ≤ tick (gives id (claim_launch launch_id) ((connect_claim now launch_id st).0))
          + weight is_open id st.launches
  unfolding connect_claim claim
  claim_opens now launch_id st none e = ground arith
  claim_opens now launch_id st (some launch) e =
      ground
        (arith, weight-insert is_open id launch_id (record launch { claimed = true }) st.launches)

module _ (id : String) (in_state : Launch → Bool) where
  -- A store of a launch that is found and that stays in its state changes no sum.
  pub store_same :
      (asked : String) (old new : Launch) (m : Launches)
      → lookup asked m ≡ some old
      → in_state new ≡ in_state old
      → weight in_state id (insert asked new m) ≡ weight in_state id m
  store_same asked old new m e same = ground (arith, weight-insert in_state id asked new m)

  -- A new state and text leave a launch among the ones counted, or not among them.
  module _
      (same : (launch : Launch) (s : LaunchState) (text : String)
        → in_state (record launch { state = s; message = text }) ≡ in_state launch) where
    pub weight-fail :
        (asked text : String) (launch : Launch) (m : Launches)
        → lookup asked m ≡ some launch
        → weight in_state id (fail asked launch text m) ≡ weight in_state id m
    unfolding fail
    weight-fail asked text launch m e = store_same asked launch _ m e (same launch failed text)

    pub weight-cancel :
        (now : ℕ) (launch_id : String) (st : State) (o : Option Launch)
        → (get now launch_id st.launches).0 ≡ o
        → weight in_state id ((connect_cancel now launch_id st).1.launches)
          ≤ weight in_state id st.launches
    unfolding connect_cancel
    weight-cancel now launch_id st none e =
        ground (arith, weight-get id in_state now launch_id st.launches)
    weight-cancel now launch_id st (some launch) e =
        let at = get-found id now launch_id st.launches launch e in
        ground (
          arith,
          at,
          store_same launch_id launch
              (record launch {
                state = cancelled;
                message = "The sign-in window was closed before finishing.";
              })
              st.launches at.0
              (same launch cancelled "The sign-in window was closed before finishing."),
        )

module _ (id : String) (in_state : Launch → Bool) where
  pub weight-status :
      (now : ℕ) (launch_id : String) (st : State)
      → weight in_state id ((connect_status now launch_id st).1.launches)
        ≤ weight in_state id st.launches
  unfolding connect_status
  weight-status now launch_id st = ground (arith, weight-get id in_state now launch_id st.launches)
