-- ===== src/World/Keeps.antt =====
-- Methods that leave the tracking table alone, and loops over such methods.
use integration_hub.Prelude.{◌≡◌, refl, ◌∙◌, Bool, true, false, List, [], ◌∷◌, All, if◌then◌else◌}
use integration_hub.Tracking.{Table}
use integration_hub.World.{
  Exn, Result, ok, raised, Call, World, Exec, pure, gets, perform, handle_any, try_any, continue,
  ◌>>=◌, for_each, for_until,
}
use integration_hub.World.Calls.{OnlyAt, pure-at, if-at, bind-at}

-- `m` does not change the table.
pub record Keeps {ℓ} {A : Type ℓ} (m : Exec A) : Type ℓ where
  pub at : (w : World) → (m w).1.rows ≡ w.rows

module _ {ℓ} {A : Type ℓ} where
  pub Keeps-pure : (a : A) → Keeps (pure a)
  unfolding pure
  Keeps-pure a = record { at = λ w. refl }

  pub Keeps-gets : (f : World → A) → Keeps (gets f)
  unfolding gets
  Keeps-gets f = record { at = λ w. refl }

  pub Keeps-perform : (c : Call) (answer : World → Result A) → Keeps (perform c answer)
  unfolding perform
  Keeps-perform c answer = record { at = λ w. refl }

  pub Keeps-if : (b : Bool) (m n : Exec A) → Keeps m → Keeps n → Keeps (if b then m else n)
  Keeps-if true m n km kn = km
  Keeps-if false m n km kn = kn

  handle_any-rows :
      (handler : Exn → Exec A)
      → ((e : Exn) → Keeps (handler e))
      → (r : Result A) (w : World) → (handle_any handler r w).1.rows ≡ w.rows
  handle_any-rows handler k (ok a) w = refl
  handle_any-rows handler k (raised e) w = (k e).at w

  pub Keeps-try_any :
      (m : Exec A) (handler : Exn → Exec A)
      → Keeps m
      → ((e : Exn) → Keeps (handler e))
      → Keeps (try_any m handler)
  unfolding try_any
  Keeps-try_any m handler km kh = record {
    at = λ w. handle_any-rows handler kh (m w).0 (m w).1 ∙ km.at w;
  }

module _ {ℓ κ} {A : Type ℓ} {B : Type κ} where
  continue-rows :
      (f : A → Exec B)
      → ((a : A) → Keeps (f a))
      → (r : Result A) (w : World) → (continue f r w).1.rows ≡ w.rows
  continue-rows f k (ok a) w = (k a).at w
  continue-rows f k (raised e) w = refl

  pub Keeps-bind :
      (m : Exec A) (f : A → Exec B) → Keeps m → ((a : A) → Keeps (f a)) → Keeps (m >>= f)
  unfolding ◌>>=◌
  Keeps-bind m f km kf = record { at = λ w. continue-rows f kf (m w).0 (m w).1 ∙ km.at w }

module _ {ℓ κ} {S : Type ℓ} {A : Type κ} where
  pub Keeps-for_each :
      (body : S → A → Exec S)
      → ((s : S) (x : A) → Keeps (body s x))
      → (xs : List A) (s : S) → Keeps (for_each body xs s)
  unfolding for_each
  Keeps-for_each body k [] s = Keeps-pure s
  Keeps-for_each body k (x ∷ xs) s =
      Keeps-bind (body s x) (λ s'. for_each body xs s') (k s x) (Keeps-for_each body k xs)

  -- While the body keeps the table, each round may use what the table is.
  pub for_until-at :
      {J : World → Call → Type 0} (table : Table) (body : S → A → Exec (S × Bool))
      → ((s : S) (x : A) → Keeps (body s x))
      → (xs : List A) → All (λ x. (s : S) (w : World) → w.rows ≡ table → OnlyAt J (body s x) w) xs
      → (s : S) (w : World) → w.rows ≡ table
      → OnlyAt J (for_until body xs s) w
  unfolding for_until
  for_until-at table body k [] h s w e = pure-at s w
  for_until-at table body k (x ∷ xs) h s w e =
      bind-at (body s x) (λ r. if r.1 then pure r.0 else for_until body xs r.0) w (h.0 s w e)
        λ r _.
          if-at r.1 (pure r.0) (for_until body xs r.0) _ (λ _. pure-at r.0 _)
            (λ _. for_until-at table body k xs h.1 r.0 _ ((k s x).at w ∙ e))

pub ruleset keeps_rules =
    (Keeps-pure, Keeps-gets, Keeps-perform, Keeps-if, Keeps-try_any, Keeps-bind, Keeps-for_each)
