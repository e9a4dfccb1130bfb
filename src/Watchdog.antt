-- ===== src/Watchdog.antt =====
-- src/watchdog.rs: the recovery table and the tick of the unit watchdog. systemd, behind
-- `SystemctlBackend`, is a parameter that acts on a world of its own. Instants and durations are
-- nanoseconds.
mod Policy
mod Giveup
mod Fleet
pub mod Systemctl
mod DryRun
pub mod Listing
pub mod Daemon
mod Examples
use wintermute_platform.Prelude.{
  ℕ, ◌+◌, ◌-◌, ◌*◌, ◌%◌, ◌^◌, min, Bool, true, false, not, ◌&&◌, ◌||◌, List, [], ◌∷◌, ◌++◌, Option,
  none, some, Text, text, text_eq, show, leb, if◌then◌else◌, TextMap, get, insert, get_or, Result,
  ok, err, starts_with, strip_prefix,
}
use wintermute_platform.Platform.{from_secs}

abbrev pub initial_backoff_secs : ℕ
initial_backoff_secs = 2

abbrev pub max_backoff_secs : ℕ
max_backoff_secs = 300

abbrev pub give_up_after : ℕ
give_up_after = 8

abbrev pub watchdog_unit_name : Text
watchdog_unit_name = text "wintermute-watchdog.service"

pub record RecoveryState : Type 0 where
  pub consecutive_failures : ℕ
  pub current_backoff : ℕ
  pub retry_after : Option ℕ
  pub gave_up : Bool

abbrev pub default_state : RecoveryState
default_state = record {
  consecutive_failures = 0;
  current_backoff = from_secs initial_backoff_secs;
  retry_after = none;
  gave_up = false;
}

abbrev pub is_due : Option ℕ → ℕ → Bool
is_due none now = true
is_due (some t) now = leb t now

unfoldable pub may_attempt : RecoveryState → ℕ → Bool
may_attempt s now = if s.gave_up then false else is_due s.retry_after now

unfoldable pub record_success : RecoveryState → RecoveryState
record_success s = record s {
  consecutive_failures = 0;
  current_backoff = from_secs initial_backoff_secs;
  retry_after = none;
}

-- `saturating_mul(2)` on a `Duration`, whose seconds are a `u64`, and the ceiling.
abbrev pub doubled : ℕ → ℕ
doubled d = min (min (d * 2) (2 ^ 64 * 10 ^ 9 - 1)) (from_secs max_backoff_secs)

-- The counter is a `u32`. The result is `true` when the unit is given up on.
unfoldable pub record_failure : RecoveryState → ℕ → RecoveryState × Bool
record_failure s now =
    let failures = (s.consecutive_failures + 1) % 2 ^ 32 in
    if leb give_up_after failures
    then (record s { consecutive_failures = failures; gave_up = true }, true)
    else (
      record s {
        consecutive_failures = failures;
        retry_after = some (now + s.current_backoff);
        current_backoff = doubled s.current_backoff;
      },
      false,
    )

-- `unit.strip_suffix(".service").unwrap_or(unit)`
unfoldable pub without_service : Text → Text
unfolding text_eq
without_service [] = []
without_service (c ∷ s) =
    let rest = without_service s in if text_eq (c ∷ s) (text ".service") then [] else c ∷ rest

unfoldable pub is_wintermute_unit : Text → Bool
unfolding text_eq strip_prefix without_service
is_wintermute_unit unit =
    let u = without_service unit in
    if text_eq unit watchdog_unit_name
    then false
    else (starts_with (text "wm-") u
        || starts_with (text "wm.") u
        || text_eq u (text "wmd")
        || starts_with (text "wmd-") u
        || starts_with (text "wintermute-") u
        || starts_with (text "wintermute.") u)

pub record HealthEvent : Type 0 where
  pub unit : Text
  pub attempts : ℕ

unfoldable pub format_event : HealthEvent → Text
unfolding show
format_event e =
    text "wm.health.unit-failed unit=" ++ e.unit ++ text " attempts=" ++ show e.attempts

pub data WatchdogError : Type 0 where
  systemctl_failed : (op unit detail : Text) → WatchdogError
  io : (message : Text) → WatchdogError

unfoldable pub display_error : WatchdogError → Text
display_error (systemctl_failed op unit detail) =
    text "systemctl " ++ op ++ text " " ++ unit ++ text ": " ++ detail
display_error (io message) = text "I/O error: " ++ message

pub data Outcome (A : Type 0) : Type 0 where
  done : A → Outcome A
  broke : WatchdogError → Outcome A

-- `.is_ok()` and `.unwrap_or(d)`
abbrev pub is_ok : {A : Type 0} → Outcome A → Bool
is_ok (done _) = true
is_ok (broke _) = false

abbrev pub done_or : {A : Type 0} → A → Outcome A → A
done_or d (done a) = a
done_or d (broke _) = d

pub record SystemctlBackend (W : Type 0) : Type 0 where
  pub list_failed_units : W → Outcome (List Text) × W
  pub reset_failed : Text → W → Outcome (Unit {0}) × W
  pub start_unit : Text → W → Outcome (Unit {0}) × W
  pub unit_is_failed : Text → W → Outcome Bool × W

pub record WatchdogEngine (W : Type 0) : Type 0 where
  pub world : W
  pub table : TextMap RecoveryState

abbrev pub entry_of : Text → TextMap RecoveryState → RecoveryState
entry_of unit table = get_or default_state (get unit table)

-- `record_failure` on the entry, and the event if the unit is given up on.
unfoldable pub fail_entry :
    Text → ℕ → TextMap RecoveryState → List HealthEvent × TextMap RecoveryState
fail_entry unit now table =
    let (s, gave_up) = record_failure (entry_of unit table) now in
    (
      if gave_up then record { unit = unit; attempts = s.consecutive_failures } ∷ [] else [],
      insert unit s table,
    )

module _ {W : Type 0} (backend : SystemctlBackend W) where
  -- `reset_failed`, `start_unit` if that worked, and then the check: whether the unit came up.
  pub attempt : Text → W → Bool × W
  attempt unit w =
      let (reset, w1) = backend.reset_failed unit w in
      let (started, w2) = backend.start_unit unit w1 in
      let (failed, w3) = backend.unit_is_failed unit w2 in
      if is_ok reset
      then if is_ok started then (not (done_or true failed), w3) else (false, w2)
      else (false, w1)

  -- One round of the loop of `tick`.
  pub visit : ℕ → Text → WatchdogEngine W → List HealthEvent × WatchdogEngine W
  visit now unit e =
      let s = entry_of unit e.table in
      let touched = insert unit s e.table in
      let (came_up, w) = attempt unit e.world in
      let (events, failed_table) = fail_entry unit now touched in
      if not (is_wintermute_unit unit)
      then ([], e)
      else if not (may_attempt s now)
      then ([], record { world = e.world; table = touched })
      else if came_up
      then ([], record { world = w; table = insert unit (record_success s) touched })
      else (events, record { world = w; table = failed_table })

  pub visits : ℕ → List Text → WatchdogEngine W → List HealthEvent × WatchdogEngine W
  visits now [] e = ([], e)
  visits now (unit ∷ units) e =
      let (events, e1) = visit now unit e in
      let (more, e2) = visits now units e1 in (events ++ more, e2)

  pub tick : ℕ → WatchdogEngine W → Outcome (List HealthEvent) × WatchdogEngine W
  tick now e =
      let (failed, w) = backend.list_failed_units e.world in
      let listed = record e { world = w } in
      elim failed [
        | broke error ↦ (broke error, listed)
        | done units ↦ let (events, after) = visits now units listed in (done events, after)
      ]

  -- The polls of the daemon's loop at the given times: a failed tick is logged, and the next follows.
  pub run_ticks : List ℕ → WatchdogEngine W → List HealthEvent × WatchdogEngine W
  run_ticks [] e = ([], e)
  run_ticks (now ∷ later) e =
      let (r, e1) = tick now e in let (more, e2) = run_ticks later e1 in (done_or [] r ++ more, e2)
