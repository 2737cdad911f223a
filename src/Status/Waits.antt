-- ===== src/Status/Waits.antt =====
-- About the waits between reports (src/agsync/status/reporter.py).
use integration_hub.Prelude.{
  ℕ, zero, suc, ◌-◌, min, ◌≤◌, ◌≡◌, refl, Option, none, some, List, [], ◌∷◌, arith, All,
}
use integration_hub.Status.Reporter.{
  Number, Config, Reporter, Ending, answered, rejected, unreachable, broken, absent, malformed,
  advised, below_zero, at_least_zero, clamp, min_interval, max_interval, max_wait, new_reporter,
  backoff, read_config, after_report, beat, round, sane_wait,
}

-- The longest wait that an ending allows: only a Retry-After goes beyond the backoff.
abbrev pub longest : Ending → ℕ
longest (rejected code (some seconds)) = max_wait
longest _ = max_interval

abbrev pub InBounds : Ending × ℕ → Type 0
InBounds (ending, wait) = (min_interval ≤ wait) × (wait ≤ longest ending)

-- A report: when it is due, what the settings hold then, and how it ends.
abbrev pub Due : Type 0
Due = ℕ × Option (Option Config) × Ending

-- The endings of the reports, each with the wait after it.
pub waits : List Due → Reporter → List (Ending × ℕ)
waits [] r = []
waits ((now, stored, ending) ∷ rest) r =
    (ending, (round now stored ending r).0) ∷ waits rest ((round now stored ending r).1)

abbrev HasInterval : Reporter → Type 0
HasInterval r = (min_interval ≤ r.interval) × (r.interval ≤ max_interval)

five : (n : ℕ) → min (suc (suc (suc (suc (suc n))))) 5 - 1 ≡ 4
five n = omega arith

backoff_bounds :
    (failures : ℕ) → (min_interval ≤ backoff failures) × (backoff failures ≤ max_interval)
unfolding backoff
backoff_bounds zero = (omega arith, omega arith)
backoff_bounds (suc zero) = (omega arith, omega arith)
backoff_bounds (suc (suc zero)) = (omega arith, omega arith)
backoff_bounds (suc (suc (suc zero))) = (omega arith, omega arith)
backoff_bounds (suc (suc (suc (suc zero)))) = (omega arith, omega arith)
backoff_bounds (suc (suc (suc (suc (suc n))))) = rw (five n) (omega arith, omega arith)

clamp_bounds :
    (low high : ℕ) (wait : Number)
    → low ≤ high
    → (low ≤ clamp low high wait) × (clamp low high wait ≤ high)
clamp_bounds low high below_zero h = (omega arith, h)
clamp_bounds low high (at_least_zero n) h = (omega arith, omega arith)

after_report_bounds :
    (ending : Ending) (r : Reporter)
    → HasInterval r
    → InBounds (ending, (after_report ending r).0) × HasInterval ((after_report ending r).1)
unfolding after_report
after_report_bounds (answered absent) r h = (h, h)
after_report_bounds (answered malformed) r h = (h, h)
after_report_bounds (answered (advised wanted)) r h =
    (clamp_bounds min_interval max_interval wanted (omega arith), h)
after_report_bounds (rejected code (some seconds)) r h =
    (clamp_bounds min_interval max_wait seconds (omega arith), h)
after_report_bounds (rejected code none) r h = (ground (arith, backoff_bounds (suc r.failures)), h)
after_report_bounds unreachable r h = (backoff_bounds (suc r.failures), h)
after_report_bounds broken r h = (backoff_bounds (suc r.failures), h)

longest-ge : (ending : Ending) → max_interval ≤ longest ending
longest-ge (answered advice) = omega arith
longest-ge (rejected code (some seconds)) = omega arith
longest-ge (rejected code none) = omega arith
longest-ge unreachable = omega arith
longest-ge broken = omega arith

read_config-HasInterval :
    (now : ℕ) (stored : Option (Option Config)) (cfg : Option Config) (r read : Reporter)
    → read_config now stored r ≡ some (cfg, read)
    → HasInterval r
    → HasInterval read
unfolding read_config
read_config-HasInterval now none cfg r read e h = ground arith
read_config-HasInterval now (some loaded) cfg r read e h = ground arith

beat_bounds :
    (now : ℕ) (stored : Option (Option Config)) (ending : Ending) (r : Reporter)
    → (o : Option (Option Config × Reporter)) → read_config now stored r ≡ o
    → HasInterval r
    → InBounds (ending, (beat now stored ending r).0) × HasInterval ((beat now stored ending r).1)
unfolding beat
beat_bounds now stored ending r none e h =
    let b = after_report_bounds broken r h in
    rw (e, beat) ((b.0.0, omega (arith, longest-ge ending)), b.1)
beat_bounds now stored ending r (some (none, read)) e h =
    let k = read_config-HasInterval now stored none r read e h in
    rw (e, beat) ((k.0, omega (arith, longest-ge ending)), k)
beat_bounds now stored ending r (some (some cfg, read)) e h =
    rw (e, beat)
      (after_report_bounds ending read (read_config-HasInterval now stored (some cfg) r read e h))

longest-le : (ending : Ending) → longest ending ≤ max_wait
longest-le (answered advice) = omega arith
longest-le (rejected code (some seconds)) = omega arith
longest-le (rejected code none) = omega arith
longest-le unreachable = omega arith
longest-le broken = omega arith

waits_bounds : (due : List Due) (r : Reporter) → HasInterval r → All InBounds (waits due r)
unfolding waits round sane_wait
waits_bounds [] r h = tt
waits_bounds ((now, stored, ending) ∷ rest) r h =
    let b = beat_bounds now stored ending r _ refl h in
    (
      (omega (arith, b.0), omega (arith, b.0, longest-le ending)),
      waits_bounds rest ((beat now stored ending r).1) b.1,
    )

-- Whatever cadence a reporter is made with, whatever the settings hold and however its reports end,
-- it waits 15 seconds at least after each, and at most 15 minutes after a rejection with a
-- Retry-After, at most 5 minutes after any other.
pub reporter_waits :
    (cadence : Number) (due : List Due) → All InBounds (waits due (new_reporter cadence))
unfolding new_reporter
reporter_waits cadence due =
    waits_bounds due (new_reporter cadence)
      (clamp_bounds min_interval max_interval cadence (omega arith))
