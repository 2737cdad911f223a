-- ===== src/Connect/Once.antt =====
-- About how often the endpoints of a launch give out its key and keep its session
-- (src/agsync/routes/connect.py), over any sequence of requests.
use integration_hub.Prelude.{ℕ, ◌+◌, ◌≤◌, ◌≡◌, refl, String, none, List, [], ◌∷◌, lookup, arith}
use integration_hub.Connect.{
  Site, State, Request, begin, claim_launch, callback, cancel, status, step,
}
use integration_hub.Connect.Weights.{tick, weight, weight-nil}
use integration_hub.Connect.Sums.{
  is_unclaimed, is_open, begins, gives, keeps, begin_waits, claim_waits, begin_opens, claim_opens,
  weight-cancel, weight-status,
}
use integration_hub.Connect.Callbacks.{callback_once, callback_waits}

module _ (site : Site) (id : String) where
  -- How often, over requests one after another, each at its instant.
  pub begun : List (ℕ × Request) → ℕ
  begun [] = 0
  begun ((now, request) ∷ rest) = tick (begins id request) + begun rest

  pub given : List (ℕ × Request) → State → ℕ
  given [] st = 0
  given ((now, request) ∷ rest) st =
      tick (gives id request ((step site now request st).0))
      + given rest ((step site now request st).1)

  pub kept : List (ℕ × Request) → State → ℕ
  kept [] st = 0
  kept ((now, request) ∷ rest) st =
      tick (keeps id request ((step site now request st).0))
      + kept rest ((step site now request st).1)

  step_waits :
      (now : ℕ) (request : Request) (st : State)
      → tick (gives id request ((step site now request st).0))
          + weight is_unclaimed id ((step site now request st).1.launches)
        ≤ tick (begins id request) + weight is_unclaimed id st.launches
  unfolding step
  step_waits now (begin launch_id key) st = omega (arith, begin_waits id site now launch_id key st)
  step_waits now (claim_launch launch_id) st =
      omega (arith, claim_waits id now launch_id st (lookup launch_id st.launches) refl)
  step_waits now (callback launch_id payload) st =
      omega (arith, callback_waits id site now launch_id payload st _ refl)
  step_waits now (cancel launch_id) st =
      omega (arith, weight-cancel id is_unclaimed (λ l s t. refl) now launch_id st _ refl)
  step_waits now (status launch_id) st =
      omega (arith, weight-status id is_unclaimed now launch_id st)

  module _ (dead : (sealed : String) → site.unseal "" sealed ≡ none) where
    step_opens :
        (now : ℕ) (request : Request) (st : State)
        → tick (keeps id request ((step site now request st).0))
            + weight is_open id ((step site now request st).1.launches)
          ≤ tick (gives id request ((step site now request st).0)) + weight is_open id st.launches
    unfolding step
    step_opens now (begin launch_id key) st =
        omega (arith, begin_opens id site now launch_id key st)
    step_opens now (claim_launch launch_id) st =
        omega (arith, claim_opens id now launch_id st (lookup launch_id st.launches) refl)
    step_opens now (callback launch_id payload) st =
        omega (arith, callback_once id site now launch_id payload st _ refl dead)
    step_opens now (cancel launch_id) st =
        omega (arith, weight-cancel id is_open (λ l s t. refl) now launch_id st _ refl)
    step_opens now (status launch_id) st = omega (arith, weight-status id is_open now launch_id st)

    kept_bound :
        (requests : List (ℕ × Request)) (st : State)
        → kept requests st ≤ given requests st + weight is_open id st.launches
    unfolding kept given
    kept_bound [] st = omega arith
    kept_bound ((now, request) ∷ rest) st =
        omega (arith, step_opens now request st, kept_bound rest ((step site now request st).1))

  given_bound :
      (requests : List (ℕ × Request)) (st : State)
      → given requests st ≤ begun requests + weight is_unclaimed id st.launches
  unfolding begun given
  given_bound [] st = omega arith
  given_bound ((now, request) ∷ rest) st =
      omega (arith, step_waits now request st, given_bound rest ((step site now request st).1))

abbrev pub closed : State
closed = record { launches = []; sessions = [] }

-- From a service that has just started, over any requests at any instants, the key of a launch id is
-- given out at most as often as a launch with this id is begun, so once where ids do not repeat, and
-- a session is kept for the id at most as often as its key is given out. This rests on AES-GCM
-- refusing the empty key.
pub launches_once :
    (site : Site) (id : String) (requests : List (ℕ × Request))
    → ((sealed : String) → site.unseal "" sealed ≡ none)
    → (given site id requests closed ≤ begun site id requests)
      × (kept site id requests closed ≤ given site id requests closed)
launches_once site id requests dead = (
  omega (arith, weight-nil is_unclaimed id, given_bound site id requests closed),
  omega (arith, weight-nil is_open id, kept_bound site id dead requests closed),
)
