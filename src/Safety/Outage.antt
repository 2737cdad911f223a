-- ===== src/Safety/Outage.antt =====
-- The loop over many turns while the PACS does not answer (`_run_loop` of src/agsync/sync/engine.py).
use integration_hub.Prelude.{
  ℕ, zero, suc, ◌+◌, ◌*◌, ◌≡◌, refl, ap, ◌∙◌, arith, inl, inr, Bool-cases, true, false, Bool,
  String, Option, some, ◌∷◌, min, length, count_if, if◌then◌else◌,
}
use integration_hub.World.{Services, World, Exn, Event, ok, raised, pacs_list_people, event_at}
use integration_hub.Engine.{EngineStatus, initial_status, after_cycle, is_tripped, wait_paused}
use integration_hub.Engine.Cycle.{Setup, timed, turn}
use integration_hub.Engine.Breaker.{run_one_cycle-Frame}
use integration_hub.Safety.Roster.{start, shape_read, is_auth_expired, run_one_cycle-IsUnread}

-- That many turns with no trigger.
unfoldable pub turns : Services → Option Setup → ℕ → EngineStatus → World → EngineStatus × World
turns env setup zero s w = (s, w)
turns env setup (suc n) s w = let (s', w') = turns env setup n s w in turn env setup false s' w'

-- The call that lists the people of the PACS.
abbrev pub lists_people : Event → Bool
lists_people e = elim e.call [ pacs_list_people ↦ true | _ ↦ false ]

-- The calls of a turn that cannot list the people: the listing, and the read of the card template
-- where the vendor's mode comes from that.
abbrev pub calls_per_turn : Setup → ℕ
calls_per_turn setup = if setup.derives_mode then 2 else 1

turns_idle :
    (env : Services) (setup : Option Setup) (n : ℕ) (s : EngineStatus) (w : World)
    → is_tripped s ≡ true
    → ((turns env setup n s w).1 ≡ w)
      × ((turns env setup n s w).0.consecutive_errors ≡ s.consecutive_errors)
      × (is_tripped (turns env setup n s w).0 ≡ true)
unfolding turns turn wait_paused is_tripped
turns_idle env setup zero s w h = (refl, refl, h)
turns_idle env setup (suc n) s w h = let ih = turns_idle env setup n s w h in ground (arith, ih)

module _ (env : Services) (setup : Setup) (e : Exn) (ag : setup.ag_init ≡ ok tt)
    (pacs : (shape : Option (String × Bool)) → setup.pacs_init shape ≡ ok tt)
    (down : (w : World) → env.list_people w ≡ raised e) where
  -- One turn that cannot list the people.
  record IsStep (s : EngineStatus) (w : World) : Type 0 where
    errors :
        (turn env (some setup) false s w).0.consecutive_errors
        ≡ (if is_auth_expired e then s.consecutive_errors else suc s.consecutive_errors)
    asked :
        count_if lists_people (turn env (some setup) false s w).1.history
        ≡ suc (count_if lists_people w.history)
    calls :
        length (turn env (some setup) false s w).1.history ≡ calls_per_turn setup + length w.history
    rows : (turn env (some setup) false s w).1.rows ≡ w.rows

  shape_read-asked :
      (w : World) → count_if lists_people (shape_read env setup w) ≡ count_if lists_people w.history
  unfolding count_if
  shape_read-asked w = ground arith

  shape_read-length :
      (w : World) → suc (length (shape_read env setup w)) ≡ calls_per_turn setup + length w.history
  shape_read-length w = ground arith

  turn_history :
      (s : EngineStatus) (w : World)
      → is_tripped s ≡ false
      → (turn env (some setup) false s w).1.history
        ≡ event_at (start env setup w) pacs_list_people false ∷ shape_read env setup w
  unfolding turn timed
  turn_history s w calm =
      let u = run_one_cycle-IsUnread env setup s w e ag pacs (down (start env setup w)) in
      ground (arith, calm, u.calls)

  turn-IsStep : (s : EngineStatus) (w : World) → is_tripped s ≡ false → IsStep s w
  unfolding turn timed after_cycle
  turn-IsStep s w calm =
      let u = run_one_cycle-IsUnread env setup s w e ag pacs (down (start env setup w)) in
      let f = run_one_cycle-Frame env (some setup) s w in
      record {
        errors = ground (arith, calm, u.counted, u.reconnect, u.failed, f.errors);
        asked =
            ap (count_if lists_people) (turn_history s w calm)
            ∙ unfold count_if in ap suc (shape_read-asked w);
        calls = ap length (turn_history s w calm) ∙ shape_read-length w;
        rows = ground (arith, calm, u.same_rows);
      }

-- Where `n` turns have come to: the errors counted, the calls made and the table.
pub record HasRun (env : Services) (setup : Setup) (w : World) (n failures asked : ℕ) : Type 0 where
  pub errors : (turns env (some setup) n initial_status w).0.consecutive_errors ≡ failures
  pub asks :
      count_if lists_people (turns env (some setup) n initial_status w).1.history
      ≡ asked + count_if lists_people w.history
  pub calls :
      length (turns env (some setup) n initial_status w).1.history
      ≡ asked * calls_per_turn setup + length w.history
  pub rows : (turns env (some setup) n initial_status w).1.rows ≡ w.rows

full-min :
    (n : ℕ) (s : EngineStatus)
    → is_tripped s ≡ true
    → s.consecutive_errors ≡ min n 10
    → min n 10 ≡ min (suc n) 10
unfolding is_tripped
full-min n s full h = ground (arith, full, h)

calm-min :
    (n : ℕ) (s : EngineStatus)
    → is_tripped s ≡ false
    → s.consecutive_errors ≡ min n 10
    → suc (min n 10) ≡ min (suc n) 10
unfolding is_tripped
calm-min n s calm h = ground (arith, calm, h)

one_more : {h : ℕ} (k p m : ℕ) → h ≡ k * p + m → p + h ≡ suc k * p + m
one_more k p m e = grind arith

-- If both clients are built and listing the people always raises the same exception, which is no
-- expired session, then after any number of turns with no trigger the errors counted are the
-- turns, up to ten; the PACS has been asked once in each of these turns and never again, and the only
-- other call of such a turn is the read of the card template where the vendor's mode comes from
-- that; and the tracking table is as it was.
pub turns-HasRun_outage :
    (env : Services) (setup : Setup) (e : Exn)
    → setup.ag_init ≡ ok tt
    → ((shape : Option (String × Bool)) → setup.pacs_init shape ≡ ok tt)
    → ((w : World) → env.list_people w ≡ raised e)
    → is_auth_expired e ≡ false
    → (w : World) (n : ℕ) → HasRun env setup w n (min n 10) (min n 10)
unfolding turns
turns-HasRun_outage env setup e ag pacs down counted w zero = record {
  errors = omega arith;
  asks = omega arith;
  calls = omega arith;
  rows = refl;
}
turns-HasRun_outage env setup e ag pacs down counted w (suc n) =
    let ih = turns-HasRun_outage env setup e ag pacs down counted w n in
    let s = turns env (some setup) n initial_status w in
    elim (Bool-cases (is_tripped s.0)) [
      | inl full ↦
          let idle = turns_idle env (some setup) 1 s.0 s.1 full in
          record {
            errors = idle.1 ∙ ih.errors ∙ full-min n s.0 full ih.errors;
            asks = ground (
              arith,
              ap (λ v. count_if lists_people v.history) idle.0,
              ih.asks,
              full-min n s.0 full ih.errors,
            );
            calls =
                ap (λ v. length v.history) idle.0
                ∙ ih.calls
                ∙ ap (λ k. k * calls_per_turn setup + length w.history)
                    (full-min n s.0 full ih.errors);
            rows = ap (λ v. v.rows) idle.0 ∙ ih.rows;
          }
      | inr calm ↦
          let step = turn-IsStep env setup e ag pacs down s.0 s.1 calm in
          record {
            errors = step.errors ∙ rw counted (ap suc ih.errors ∙ calm-min n s.0 calm ih.errors);
            asks = omega (arith, step.asked, ih.asks, calm-min n s.0 calm ih.errors);
            calls =
                step.calls
                ∙ one_more (min n 10) (calls_per_turn setup) (length w.history) ih.calls
                ∙ ap (λ k. k * calls_per_turn setup + length w.history)
                    (calm-min n s.0 calm ih.errors);
            rows = step.rows ∙ ih.rows;
          }
    ]

-- If both clients are built and listing the people always finds the session expired, then after
-- any number of turns no error is counted, so that the breaker never trips; the PACS has been asked
-- once in each turn, and the only other call of a turn is the read of the card template where the
-- vendor's mode comes from that; and the tracking table is as it was.
pub turns-HasRun_signed_out :
    (env : Services) (setup : Setup) (e : Exn)
    → setup.ag_init ≡ ok tt
    → ((shape : Option (String × Bool)) → setup.pacs_init shape ≡ ok tt)
    → ((w : World) → env.list_people w ≡ raised e)
    → is_auth_expired e ≡ true
    → (w : World) (n : ℕ) → HasRun env setup w n 0 n
unfolding turns
turns-HasRun_signed_out env setup e ag pacs down expired w zero = record {
  errors = omega arith;
  asks = omega arith;
  calls = omega arith;
  rows = refl;
}
turns-HasRun_signed_out env setup e ag pacs down expired w (suc n) =
    let ih = turns-HasRun_signed_out env setup e ag pacs down expired w n in
    let s = turns env (some setup) n initial_status w in
    let step = turn-IsStep env setup e ag pacs down s.0 s.1 (calm s.0 ih.errors) in
    record {
      errors = ground (arith, step.errors, ih.errors, expired);
      asks = omega (arith, step.asked, ih.asks);
      calls = step.calls ∙ one_more n (calls_per_turn setup) (length w.history) ih.calls;
      rows = step.rows ∙ ih.rows;
    }
  where
    calm : (s : EngineStatus) → s.consecutive_errors ≡ 0 → is_tripped s ≡ false
    calm s h = unfold is_tripped in ground (arith, h)
