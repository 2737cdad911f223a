-- ===== src/World/Calls.antt =====
-- What a piece of code may call: a rule for each way in which code is put together.
use integration_hub.Prelude.{
  ◌≡◌, refl, String, Bool, true, false, List, [], ◌∷◌, All, if◌then◌else◌,
}
use integration_hub.Tracking.{Table}
use integration_hub.World.{
  Exn, ag_error, auth_expired, record_unavailable, other, Result, ok, raised, is_ok, Call, Event,
  World, called, world_of, Exec, pure, raise, gets, perform, handle_ag, try_ag, handle_any, try_any,
  continue, ◌>>=◌, on_rows, for_each, for_until,
}

-- The history `after` is `before` with events added; `J` holds of the call of each, in the state
-- in which it was made.
pub data Adds (J : World → Call → Type 0) (before : List Event) : List Event → Type 0 where
  none_added : Adds J before before
  added :
      {e : Event} {after : List Event}
      → J (world_of e after) e.call
      → Adds J before after
      → Adds J before (e ∷ after)

pub Adds-trans :
    {J : World → Call → Type 0} {a b c : List Event} → Adds J a b → Adds J b c → Adds J a c
Adds-trans p none_added = p
Adds-trans p (added j q) = added j (Adds-trans p q)

pub Adds-map :
    {J K : World → Call → Type 0} {a b : List Event}
    → ((u : World) (c : Call) → J u c → K u c)
    → Adds J a b
    → Adds K a b
Adds-map f none_added = none_added
Adds-map f (added {e} {after} j q) = added (f (world_of e after) e.call j) (Adds-map f q)

-- `after` is `before` with events added.
abbrev pub Extends : List Event → List Event → Type 0
Extends = Adds (λ u c. Unit)

-- An event is made in a state whose history goes back to the one that the events are added to.
pub Adds-since :
    {J : World → Call → Type 0} {a b : List Event}
    → Adds J a b
    → Adds (λ u c. J u c × Extends a u.history) a b
Adds-since none_added = none_added
Adds-since (added j q) = added (j, Adds-map (λ u c _. tt) q) (Adds-since q)

-- Run in the state `w`, `m` adds only calls that satisfy `J`.
pub record OnlyAt {ℓ} {A : Type ℓ} (J : World → Call → Type 0) (m : Exec A) (w : World)
    : Type ℓ where
  pub adds : Adds J w.history (m w).1.history

-- `m` adds to the history only events that satisfy `J`.
pub record Only {ℓ} {A : Type ℓ} (J : World → Call → Type 0) (m : Exec A) : Type ℓ where
  pub at : (w : World) → Adds J w.history (m w).1.history

module _ {ℓ} {A : Type ℓ} {J : World → Call → Type 0} where
  pub Only-at : {m : Exec A} → Only J m → (w : World) → OnlyAt J m w
  Only-at k w = record { adds = k.at w }

  pub Only-pure : (a : A) → Only J (pure a)
  unfolding pure
  Only-pure a = record { at = λ w. none_added }

  pub Only-raise : (e : Exn) → Only J (raise {A = A} e)
  unfolding raise
  Only-raise e = record { at = λ w. none_added }

  pub Only-gets : (f : World → A) → Only J (gets f)
  unfolding gets
  Only-gets f = record { at = λ w. none_added }

  pub Only-perform :
      (c : Call) (answer : World → Result A) → ((w : World) → J w c) → Only J (perform c answer)
  unfolding perform
  Only-perform c answer j = record { at = λ w. added (j w) none_added }

  pub Only-if :
      (b : Bool) (m n : Exec A)
      → (b ≡ true → Only J m)
      → (b ≡ false → Only J n)
      → Only J (if b then m else n)
  Only-if true m n km kn = km refl
  Only-if false m n km kn = kn refl

  handle_ag-at :
      (handler : String → Exec A)
      → ((text : String) → Only J (handler text))
      → (r : Result A) (w : World) → Adds J w.history (handle_ag handler r w).1.history
  handle_ag-at handler k (ok a) w = none_added
  handle_ag-at handler k (raised (ag_error text)) w = (k text).at w
  handle_ag-at handler k (raised (auth_expired text)) w = none_added
  handle_ag-at handler k (raised (record_unavailable text)) w = none_added
  handle_ag-at handler k (raised (other name text)) w = none_added

  pub try_ag-at :
      (m : Exec A) (handler : String → Exec A)
      → ((text : String) → Only J (handler text))
      → (w : World) → OnlyAt J m w
      → OnlyAt J (try_ag m handler) w
  unfolding try_ag
  try_ag-at m handler kh w km = record {
    adds = Adds-trans km.adds (handle_ag-at handler kh (m w).0 (m w).1);
  }

  pub Only-try_ag :
      (m : Exec A) (handler : String → Exec A)
      → Only J m
      → ((text : String) → Only J (handler text))
      → Only J (try_ag m handler)
  Only-try_ag m handler km kh = record { at = λ w. (try_ag-at m handler kh w (Only-at km w)).adds }

  handle_any-at :
      (handler : Exn → Exec A)
      → ((e : Exn) → Only J (handler e))
      → (r : Result A) (w : World) → Adds J w.history (handle_any handler r w).1.history
  handle_any-at handler k (ok a) w = none_added
  handle_any-at handler k (raised e) w = (k e).at w

  pub try_any-at :
      (m : Exec A) (handler : Exn → Exec A)
      → ((e : Exn) → Only J (handler e))
      → (w : World) → OnlyAt J m w
      → OnlyAt J (try_any m handler) w
  unfolding try_any
  try_any-at m handler kh w km = record {
    adds = Adds-trans km.adds (handle_any-at handler kh (m w).0 (m w).1);
  }

  pub pure-at : (a : A) (w : World) → OnlyAt J (pure a) w
  pure-at a w = Only-at (Only-pure a) w

  pub call-at :
      (c : Call) (answer : World → Result A) (w : World) → J w c → OnlyAt J (perform c answer) w
  unfolding perform
  call-at c answer w j = record { adds = added j none_added }

  pub if-at :
      (b : Bool) (m n : Exec A) (w : World)
      → (b ≡ true → OnlyAt J m w)
      → (b ≡ false → OnlyAt J n w)
      → OnlyAt J (if b then m else n) w
  if-at true m n w km kn = km refl
  if-at false m n w km kn = kn refl

  pub Only-try_any :
      (m : Exec A) (handler : Exn → Exec A)
      → Only J m
      → ((e : Exn) → Only J (handler e))
      → Only J (try_any m handler)
  Only-try_any m handler km kh = record {
    at = λ w. (try_any-at m handler kh w (Only-at km w)).adds;
  }

module _ {ℓ κ} {A : Type ℓ} {B : Type κ} {J : World → Call → Type 0} where
  continue-at :
      (f : A → Exec B)
      → ((a : A) → Only J (f a))
      → (r : Result A) (w : World) → Adds J w.history (continue f r w).1.history
  continue-at f k (ok a) w = (k a).at w
  continue-at f k (raised e) w = none_added

  bind_result-at :
      (f : A → Exec B) (r : Result A) (w : World)
      → ((a : A) → r ≡ ok a → OnlyAt J (f a) w)
      → Adds J w.history (continue f r w).1.history
  bind_result-at f (ok a) w k = (k a refl).adds
  bind_result-at f (raised e) w k = none_added

  -- What follows may use what the first part answered, and in which state it left off.
  pub bind-at :
      (m : Exec A) (f : A → Exec B) (w : World)
      → OnlyAt J m w
      → ((a : A) → (m w).0 ≡ ok a → OnlyAt J (f a) (m w).1)
      → OnlyAt J (m >>= f) w
  unfolding ◌>>=◌
  bind-at m f w km kf = record { adds = Adds-trans km.adds (bind_result-at f (m w).0 (m w).1 kf) }

  pub gets-at :
      (f : World → A) (k : A → Exec B) (w : World)
      → OnlyAt J (k (f w)) w
      → OnlyAt J (gets f >>= k) w
  unfolding ◌>>=◌
  gets-at f k w h = record { adds = h.adds }

  -- A call, and what follows it where it returns.
  pub perform-at :
      (c : Call) (answer : World → Result A) (f : A → Exec B) (w : World)
      → J w c
      → ((a : A) → answer w ≡ ok a → OnlyAt J (f a) (called w c true))
      → OnlyAt J (perform c answer >>= f) w
  unfolding ◌>>=◌ perform
  perform-at c answer f w j k = record { adds = by_answer (answer w) refl }
    where
      by_answer :
          (r : Result A)
          → answer w ≡ r
          → Adds J w.history (continue f r (called w c (is_ok r))).1.history
      by_answer (ok a) e = Adds-trans (added j none_added) (k a e).adds
      by_answer (raised e) _ = added j none_added

  pub Only-bind :
      (m : Exec A) (f : A → Exec B) → Only J m → ((a : A) → Only J (f a)) → Only J (m >>= f)
  unfolding ◌>>=◌
  Only-bind m f km kf = record { at = λ w. Adds-trans (km.at w) (continue-at f kf (m w).0 (m w).1) }

pub Only-on_rows : {J : World → Call → Type 0} (f : World → Table → Table) → Only J (on_rows f)
unfolding on_rows
Only-on_rows f = record { at = λ w. none_added }

pub rows-at {ℓ} :
    {A : Type ℓ} {J : World → Call → Type 0} (f : World → Table → Table) (k : Unit {0} → Exec A)
    (w : World)
    → OnlyAt J (k tt) (record w { rows = f w w.rows })
    → OnlyAt J (on_rows f >>= k) w
unfolding ◌>>=◌
rows-at f k w h = record { adds = h.adds }

module _ {ℓ κ} {S : Type ℓ} {A : Type κ} {J : World → Call → Type 0} where
  -- A loop calls what its body calls.
  pub Only-for_each :
      (body : S → A → Exec S) (xs : List A)
      → All (λ x. (s : S) → Only J (body s x)) xs
      → (s : S) → Only J (for_each body xs s)
  unfolding for_each
  Only-for_each body [] h s = Only-pure s
  Only-for_each body (x ∷ xs) h s =
      Only-bind (body s x) (λ s'. for_each body xs s') (h.0 s) (Only-for_each body xs h.1)

  pub Only-for_until :
      (body : S → A → Exec (S × Bool)) (xs : List A)
      → All (λ x. (s : S) → Only J (body s x)) xs
      → (s : S) → Only J (for_until body xs s)
  unfolding for_until
  Only-for_until body [] h s = Only-pure s
  Only-for_until body (x ∷ xs) h s =
      Only-bind (body s x) (λ r. if r.1 then pure r.0 else for_until body xs r.0) (h.0 s)
        λ r.
          Only-if r.1 (pure r.0) (for_until body xs r.0) (λ _. Only-pure r.0)
            (λ _. Only-for_until body xs h.1 r.0)

-- A branch on what is read from the state, each side in the state that was read.
pub Only-gate {ℓ} :
    {A : Type ℓ} {J : World → Call → Type 0} (f : World → Bool) (m n : Exec A)
    → ((w : World) → f w ≡ true → OnlyAt J m w)
    → ((w : World) → f w ≡ false → OnlyAt J n w)
    → Only J (gets f >>= λ b. if b then m else n)
unfolding ◌>>=◌
Only-gate f m n km kn = record { at = λ w. (if-at (f w) m n w (km w) (kn w)).adds }

-- A call behind a switch: it is made in the very state in which the switch is read as off.
pub Only-switched {ℓ κ} :
    {A : Type ℓ} {B : Type κ} {J : World → Call → Type 0} (f : World → Bool) (m : Exec A) (c : Call)
    (answer : World → Result B) (k : B → Exec A)
    → Only J m
    → ((w : World) → f w ≡ false → J w c)
    → ((b : B) → Only J (k b))
    → Only J (gets f >>= λ b. if b then m else (perform c answer >>= k))
Only-switched f m c answer k km j kk =
    Only-gate f m _ (λ w _. Only-at km w)
      λ w live. perform-at c answer k w (j w live) (λ b _. Only-at (kk b) _)

-- What follows a read may use that the value was read.
pub Only-read {ℓ κ} :
    {A : Type ℓ} {B : Type κ} {J : World → Call → Type 0} (f : World → A) (k : A → Exec B)
    → ((w : World) → Only J (k (f w)))
    → Only J (gets f >>= k)
unfolding ◌>>=◌
Only-read f k h = record { at = λ w. (h w).at w }

-- The same, in the state that was read.
pub Only-read_at {ℓ κ} :
    {A : Type ℓ} {B : Type κ} {J : World → Call → Type 0} (f : World → A) (k : A → Exec B)
    → ((w : World) → OnlyAt J (k (f w)) w)
    → Only J (gets f >>= k)
unfolding ◌>>=◌
Only-read_at f k h = record { at = λ w. (h w).adds }

-- A loop whose body calls the same for every element.
pub Only-for_all {ℓ κ} :
    {S : Type ℓ} {A : Type κ} {J : World → Call → Type 0} (body : S → A → Exec S)
    → ((s : S) (x : A) → Only J (body s x))
    → (xs : List A) (s : S) → Only J (for_each body xs s)
unfolding for_each
Only-for_all body h [] s = Only-pure s
Only-for_all body h (x ∷ xs) s =
    Only-bind (body s x) (λ s'. for_each body xs s') (h s x) (Only-for_all body h xs)

pub ruleset only_rules = (
  Only-pure, Only-raise, Only-gets, Only-perform, Only-if, Only-try_ag, Only-try_any, Only-bind,
  Only-on_rows,
)
