-- ===== src/DryRunSwitch.antt =====
-- The switch that stops every change (src/agsync/dryrun.py). Instants are in milliseconds.
use integration_hub.Prelude.{
  ℕ, ◌+◌, String, Bool, true, false, not, ◌&&◌, ◌≡◌, refl, Option, none, some, if◌then◌else◌, ltb,
  ◌==◌, string_eq, strip, lower, arith,
}

-- `_CACHE_TTL_S`
abbrev pub cache_ttl_ms : ℕ
cache_ttl_ms = 5000

-- `_cached`, and the row of the setting.
pub record Switch : Type 0 where
  pub cached : Option (ℕ × Bool)
  pub stored : Option String

-- What a stored text means: anything but "false" is a dry run, and so is no text.
unfoldable pub is_dry : Option String → Bool
is_dry none = true
is_dry (some raw) = not (lower (strip raw) == "false")

is_fresh : ℕ → Option (ℕ × Bool) → Option Bool
is_fresh now none = none
is_fresh now (some (read_at, value)) = if ltb now (read_at + cache_ttl_ms) then some value else none

-- `active()`, where `readable` tells whether the settings can be read.
unfoldable pub active : ℕ → Bool → Switch → Bool × Switch
unfolding is_fresh
active now readable s = elim (is_fresh now s.cached) [
  | some value ↦ (value, s)
  | none ↦
      if readable
      then (is_dry s.stored, record s { cached = some (now, is_dry s.stored) })
      else (true, s)
]

-- `set_active()`
unfoldable pub set_active : Bool → Switch → Switch
set_active value s = record { cached = none; stored = some (if value then "true" else "false") }

-- `invalidate()`
unfoldable pub invalidate : Switch → Switch
invalidate s = record s { cached = none }

-- What the application does with the switch, one call after another.
pub data Reachable : Switch → Type 0 where
  fresh : (stored : Option String) → Reachable (record { cached = none; stored = stored })
  asks :
      {s : Switch} (now : ℕ) (readable : Bool) → Reachable s → Reachable ((active now readable s).1)
  chooses : {s : Switch} (value : Bool) → Reachable s → Reachable (set_active value s)
  forgets : {s : Switch} → Reachable s → Reachable (invalidate s)

abbrev IsTrue : Switch → Type 0
IsTrue s = (now : ℕ) (value : Bool) → is_fresh now s.cached ≡ some value → value ≡ is_dry s.stored

Reachable-IsTrue : {s : Switch} → Reachable s → IsTrue s
unfolding active set_active invalidate is_fresh
Reachable-IsTrue (fresh stored) now value e = cc
Reachable-IsTrue (asks {s} at readable r) now value e =
    ground (arith, Reachable-IsTrue r at value, Reachable-IsTrue r now value)
Reachable-IsTrue (chooses choice r) now value e = cc
Reachable-IsTrue (forgets r) now value e = cc

choice-is_dry : (choice : Bool) → is_dry (some (if choice then "true" else "false")) ≡ choice
unfolding is_dry strip lower
choice-is_dry true = refl
choice-is_dry false = refl

-- However the switch has been asked and set, and whenever it is asked again: while the settings can
-- be read it answers what the stored text means (so a choice counts at once), and it never answers
-- that changes are allowed where the stored text, or its absence, means a dry run.
pub active-is_dry :
    {s : Switch} (reached : Reachable s) (now : ℕ) (readable choice : Bool)
    → ((active now true s).0 ≡ is_dry s.stored)
      × ((active now true (set_active choice s)).0 ≡ choice)
      × ((is_dry s.stored && not ((active now readable s).0)) ≡ false)
unfolding active set_active
active-is_dry {s} reached now readable choice =
    let kept = Reachable-IsTrue reached now in
    (
      ground (arith, kept true, kept false),
      choice-is_dry choice,
      ground (arith, kept true, kept false),
    )
