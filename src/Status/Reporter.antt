-- ===== src/Status/Reporter.antt =====
-- One report after another (src/agsync/status/reporter.py). Waits and instants are in milliseconds;
-- a number that a server sends may be negative, which is its own constructor, and is no NaN.
use integration_hub.Prelude.{
  ℕ, zero, suc, ◌+◌, ◌-◌, min, max, String, Bool, false, ◌&&◌, ◌||◌, Option, none, some, List, [],
  ◌∷◌, if◌then◌else◌, ltb, nat_eqb, nonempty,
}

abbrev pub default_interval : ℕ
default_interval = 15000

abbrev pub min_interval : ℕ
min_interval = 15000

abbrev pub max_interval : ℕ
max_interval = 300000

-- `BACKOFF_S`
abbrev pub backoff_waits : List ℕ
backoff_waits = 15000 ∷ 30000 ∷ 60000 ∷ 120000 ∷ 300000 ∷ []

abbrev pub hard_backoff : ℕ
hard_backoff = 300000

abbrev pub max_wait : ℕ
max_wait = 900000

abbrev pub config_ttl : ℕ
config_ttl = 60000

-- What `float` makes of a value: a number, below 0 or not, or `none`.
pub data Number : Type 0 where
  below_zero : Number
  at_least_zero : ℕ → Number

-- `max(low, min(high, x))`
abbrev pub clamp : ℕ → ℕ → Number → ℕ
clamp low high below_zero = low
clamp low high (at_least_zero n) = max low (min high n)

-- `_sane_wait`
unfoldable pub sane_wait : Option Number → ℕ
sane_wait none = default_interval
sane_wait (some wait) = clamp min_interval max_wait wait

-- What the server advises: nothing, something that is no number, or a number.
pub data Advice : Type 0 where
  absent : Advice
  malformed : Advice
  advised : Number → Advice

-- How a report ends: an answer, a rejection with its status and its Retry-After, or another error.
pub data Ending : Type 0 where
  answered : Advice → Ending
  rejected : ℕ → Option Number → Ending
  unreachable : Ending
  broken : Ending

-- `AccessGridConfig.load()`, of which the account and the secret are read.
pub record Config : Type 0 where
  pub account_id : String
  pub api_secret : String

pub record Reporter : Type 0 where
  pub interval : ℕ
  pub failures : ℕ
  pub cfg : Option Config
  -- `none` for 0.0, which has not been read.
  pub cfg_read_at : Option ℕ

-- `__init__`
unfoldable pub new_reporter : Number → Reporter
new_reporter interval = record {
  interval = clamp min_interval max_interval interval;
  failures = 0;
  cfg = none;
  cfg_read_at = none;
}

nth : List ℕ → ℕ → ℕ
nth [] i = 0
nth (x ∷ xs) zero = x
nth (x ∷ xs) (suc i) = nth xs i

-- `_backoff`
unfoldable pub backoff : ℕ → ℕ
unfolding nth
backoff failures = nth backoff_waits (min failures 5 - 1)

-- `_interval_from`
unfoldable pub interval_from : ℕ → Advice → ℕ
interval_from interval absent = interval
interval_from interval malformed = interval
interval_from interval (advised wanted) = clamp min_interval max_interval wanted

is_complete : Config → Bool
is_complete cfg = nonempty cfg.account_id && nonempty cfg.api_secret

usable : Option Config → Option Config
usable none = none
usable (some cfg) = if is_complete cfg then some cfg else none

is_fresh : ℕ → Option ℕ → Bool
is_fresh now none = false
is_fresh now (some read_at) = ltb now (read_at + config_ttl)

-- `_config`, where `stored` is what `AccessGridConfig.load` would return now, or none if it raises.
unfoldable pub read_config :
    ℕ → Option (Option Config) → Reporter → Option (Option Config × Reporter)
unfolding is_complete usable is_fresh
read_config now stored r = if is_fresh now r.cfg_read_at then some (r.cfg, r) else elim stored [
  | none ↦ none
  | some found ↦ some (usable found, record r { cfg = usable found; cfg_read_at = some now })
]

-- `HARD_FAILURES`
unfoldable pub is_hard : ℕ → Bool
is_hard code = nat_eqb code 401 || nat_eqb code 403 || nat_eqb code 404

failed : Reporter → Reporter
failed r = record r { failures = suc r.failures }

-- The wait after a report that ended so.
unfoldable pub after_report : Ending → Reporter → ℕ × Reporter
unfolding interval_from failed is_hard backoff
after_report (answered advice) r = (interval_from r.interval advice, record r { failures = 0 })
after_report (rejected code (some seconds)) r = (clamp min_interval max_wait seconds, failed r)
after_report (rejected code none) r =
    (if is_hard code then hard_backoff else backoff (suc r.failures), failed r)
after_report unreachable r = (backoff (suc r.failures), failed r)
after_report broken r = (backoff (suc r.failures), failed r)

-- `_beat`: the wait, and what the reporter keeps. No ending reaches an unconfigured hub.
unfoldable pub beat : ℕ → Option (Option Config) → Ending → Reporter → ℕ × Reporter
beat now stored ending r = elim (read_config now stored r) [
  | none ↦ after_report broken r
  | some (none, read) ↦ (read.interval, read)
  | some (some cfg, read) ↦ after_report ending read
]

-- A round of `_run_loop`, in which `_beat` does not raise.
unfoldable pub round : ℕ → Option (Option Config) → Ending → Reporter → ℕ × Reporter
round now stored ending r =
    let next = beat now stored ending r in (sane_wait (some (at_least_zero next.0)), next.1)
