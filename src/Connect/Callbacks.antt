-- ===== src/Connect/Callbacks.antt =====
-- The sums of Weights after a callback of src/agsync/routes/connect.py, against those before.
use integration_hub.Prelude.{
  ℕ, ◌+◌, ◌≤◌, ◌≡◌, refl, ap, String, true, Option, none, some, string_eq, nonempty, lookup, ◌⊎◌,
  inl, inr, Bool-cases, Option-cases, arith,
}
use integration_hub.Connect.{
  Launch, connected, Cookies, Site, State, Answer, Verdict, callback, raised, unusable, works, get,
  store_session, check_cookies, receive, connect_callback,
}
use integration_hub.Connect.Weights.{tick, weight, weight-insert}
use integration_hub.Connect.Sums.{
  is_unclaimed, is_open, keeps, weight-get, get-found, weight-fail, store_same,
}

nonempty_or : (text : String) → (nonempty text ≡ true) ⊎ (text ≡ "")
nonempty_or String.[] = inr refl
nonempty_or (String.◌∷◌ c s) = inl refl

module _ (id : String) (site : Site) (launch_id payload : String) (launch : Launch) where
  abbrev keeps_at : Answer → ℕ
  keeps_at answer = tick (keeps id (callback launch_id payload) answer)

  -- The end of a callback for a launch whose key is out: a session that is kept ends the key.
  store_session_once :
      (verdict : Verdict) (st : State)
      → lookup launch_id st.launches ≡ some launch
      → is_open launch ≡ true
      → keeps_at ((store_session launch_id launch verdict st).0)
          + weight is_open id ((store_session launch_id launch verdict st).1.launches)
        ≤ weight is_open id st.launches
  unfolding store_session
  store_session_once raised st e o = omega arith
  store_session_once (unusable detail) st e o =
      omega (arith, weight-fail id is_open (λ l s t. refl) launch_id _ launch st.launches e)
  store_session_once (works session) st e o = ground (
    arith,
    weight-insert is_open id launch_id (record launch { key = ""; state = connected }) st.launches,
  )

  check_cookies_once :
      (cookies : Cookies) (st : State)
      → lookup launch_id st.launches ≡ some launch
      → is_open launch ≡ true
      → keeps_at ((check_cookies site launch_id launch cookies st).0)
          + weight is_open id ((check_cookies site launch_id launch cookies st).1.launches)
        ≤ weight is_open id st.launches
  unfolding check_cookies
  check_cookies_once cookies st e o = ground (
    arith,
    weight-fail id is_open (λ l s t. refl) launch_id "This PACS does not sign in through a browser."
        launch st.launches e,
    weight-fail id is_open (λ l s t. refl) launch_id "Sign-in did not produce a session cookie."
        launch st.launches e,
    store_session_once (site.validate cookies) st e o,
  )

  unsealed-nonempty :
      (cookies : Cookies)
      → ((sealed : String) → site.unseal "" sealed ≡ none)
      → site.unseal launch.key payload ≡ some cookies
      → nonempty launch.key ≡ true
  unsealed-nonempty cookies dead opened = elim (nonempty_or launch.key) [
    | inl serves ↦ serves
    | inr empty ↦ cc (dead payload)
  ]

  receive_once :
      (st : State)
      → ((sealed : String) → site.unseal "" sealed ≡ none)
      → lookup launch_id st.launches ≡ some launch
      → launch.claimed ≡ true
      → keeps_at ((receive site launch_id payload launch st).0)
          + weight is_open id ((receive site launch_id payload launch st).1.launches)
        ≤ weight is_open id st.launches
  unfolding receive
  receive_once st dead e c = elim (Option-cases (site.unseal launch.key payload)) [
    | inl sealed ↦ ground (
      arith,
      weight-fail id is_open (λ l s t. refl) launch_id
          "The session could not be decrypted. Please try again." launch st.launches e,
    )
    | inr (cookies, opened) ↦
        let serves = unsealed-nonempty cookies dead opened in
        ground (arith, check_cookies_once cookies st e (cc))
  ]

  -- The same steps leave the launches whose key waits.
  store_session_waits :
      (verdict : Verdict) (st : State)
      → lookup launch_id st.launches ≡ some launch
      → weight is_unclaimed id ((store_session launch_id launch verdict st).1.launches)
        ≡ weight is_unclaimed id st.launches
  unfolding store_session
  store_session_waits raised st e = refl
  store_session_waits (unusable detail) st e =
      weight-fail id is_unclaimed (λ l s t. refl) launch_id _ launch st.launches e
  store_session_waits (works session) st e =
      store_same id is_unclaimed launch_id launch (record launch { key = ""; state = connected })
        st.launches e refl

  check_cookies_waits :
      (cookies : Cookies) (st : State)
      → lookup launch_id st.launches ≡ some launch
      → weight is_unclaimed id ((check_cookies site launch_id launch cookies st).1.launches)
        ≡ weight is_unclaimed id st.launches
  unfolding check_cookies
  check_cookies_waits cookies st e = ground (
    arith,
    weight-fail id is_unclaimed (λ l s t. refl) launch_id
        "This PACS does not sign in through a browser." launch st.launches e,
    weight-fail id is_unclaimed (λ l s t. refl) launch_id
        "Sign-in did not produce a session cookie." launch st.launches e,
    store_session_waits (site.validate cookies) st e,
  )

  receive_waits :
      (st : State)
      → lookup launch_id st.launches ≡ some launch
      → weight is_unclaimed id ((receive site launch_id payload launch st).1.launches)
        ≡ weight is_unclaimed id st.launches
  unfolding receive
  receive_waits st e = elim (Option-cases (site.unseal launch.key payload)) [
    | inl sealed ↦ ground (
      arith,
      weight-fail id is_unclaimed (λ l s t. refl) launch_id
          "The session could not be decrypted. Please try again." launch st.launches e,
    )
    | inr (cookies, opened) ↦ ground (arith, check_cookies_waits cookies st e)
  ]

module _ (id : String) (site : Site) (now : ℕ) (launch_id payload : String) (st : State) where
  pub callback_once :
      (o : Option Launch)
      → (get now launch_id st.launches).0 ≡ o
      → ((sealed : String) → site.unseal "" sealed ≡ none)
      → tick (
            keeps id
              (callback launch_id payload)
              ((connect_callback site now launch_id payload st).0))
          + weight is_open id ((connect_callback site now launch_id payload st).1.launches)
        ≤ weight is_open id st.launches
  unfolding connect_callback
  callback_once none e dead = ground (arith, weight-get id is_open now launch_id st.launches)
  callback_once (some launch) e dead =
      let at = get-found id now launch_id st.launches launch e in
      let read : State = record st { launches = (get now launch_id st.launches).1 } in
      let there : lookup launch_id read.launches ≡ some launch = cc in
      elim (Bool-cases launch.claimed) [
        | inl claimed ↦ ground (
          arith,
          ap (weight is_open id) at.1,
          receive_once id site launch_id payload launch read dead there claimed,
        )
        | inr waits ↦ ground (arith, ap (weight is_open id) at.1)
      ]

  pub callback_waits :
      (o : Option Launch)
      → (get now launch_id st.launches).0 ≡ o
      → weight is_unclaimed id ((connect_callback site now launch_id payload st).1.launches)
        ≤ weight is_unclaimed id st.launches
  unfolding connect_callback
  callback_waits none e = ground (arith, weight-get id is_unclaimed now launch_id st.launches)
  callback_waits (some launch) e =
      let at = get-found id now launch_id st.launches launch e in
      let read : State = record st { launches = (get now launch_id st.launches).1 } in
      let there : lookup launch_id read.launches ≡ some launch = cc in
      elim (Bool-cases launch.claimed) [
        | inl claimed ↦ ground (
          arith,
          ap (weight is_unclaimed id) at.1,
          receive_waits id site launch_id payload launch read there,
        )
        | inr waits ↦ ground (arith, ap (weight is_unclaimed id) at.1)
      ]
