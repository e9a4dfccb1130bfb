-- ===== src/Watchdog/Examples.antt =====
-- Runs of the watchdog against a systemd that notes the units it is asked about.
use wintermute_platform.Watchdog.Listing.Escapes.{escape, escaped}
use wintermute_platform.Watchdog.Daemon.{run, run-dry_run, Cli}
use wintermute_platform.Prelude.{
  arith, ok, ℕ, true, false, List, [], ◌∷◌, Text, text, text_eq, All, some, ◌≡◌, refl, ◌==◌, ◌+◌,
  ◌^◌, leb, if◌then◌else◌, get, show, insert, strip_prefix,
}
use wintermute_platform.Platform.{from_secs}
use wintermute_platform.Prelude.{lines, split_once, contains_char, ◌++◌}
use wintermute_platform.Watchdog.{done_or}
use wintermute_platform.Watchdog.DryRun.{tick-dry_run}
use wintermute_platform.Watchdog.Systemctl.{
  Launcher, finished, dry_run, list_args, names_in, names_from, name_after, skip_separators,
  list_failed_units_real,
}
use wintermute_platform.Watchdog.Listing.{more_json, entry_json, FailedUnit, units_json}
use wintermute_platform.Watchdog.Listing.Reading.{list_failed_units_real-units_json}
use wintermute_platform.Watchdog.{
  RecoveryState, default_state, SystemctlBackend, WatchdogEngine, done, entry_of,
  is_wintermute_unit, may_attempt, record_failure, run_ticks, format_event, tick, visits, visit,
  attempt, without_service, fail_entry,
}
use wintermute_platform.Watchdog.Policy.{AllRungs, empty-AllRungs, default-IsRung}
use wintermute_platform.Watchdog.Giveup.{
  AtEight, count_for, given_up, run_ticks-count, run_ticks-AllRungs,
}
use wintermute_platform.Watchdog.Fleet.{
  run_ticks-fleet, run_ticks-Rests, may_attempt-record_failure,
}

-- Three failed units, of which one is the fleet's and not the watchdog; nothing ever comes up.
abbrev noting : SystemctlBackend (List Text)
noting = record {
  list_failed_units = λ w. (
    done (text "wm-tts.service" ∷ text "ssh.service" ∷ text "wintermute-watchdog.service" ∷ []),
    w,
  );
  reset_failed = λ u w. (done tt, u ∷ w);
  start_unit = λ u w. (done tt, u ∷ w);
  unit_is_failed = λ u w. (done true, w);
}

abbrev fresh : WatchdogEngine (List Text)
fresh = record { world = []; table = [] }

abbrev three_polls : List ℕ
three_polls = from_secs 0 ∷ from_secs 1 ∷ from_secs 5 ∷ []

-- The second poll comes before the backoff of two seconds has passed.
world_run :
    (run_ticks noting three_polls fresh).1.world
    ≡ text "wm-tts.service"
      ∷ text "wm-tts.service"
      ∷ text "wm-tts.service"
      ∷ text "wm-tts.service"
      ∷ []
unfolding run_ticks tick visits visit attempt is_wintermute_unit without_service strip_prefix
    text_eq get insert may_attempt record_failure fail_entry
world_run = refl

format_event_run :
    format_event (record { unit = text "wmd"; attempts = 8 })
    ≡ text "wm.health.unit-failed unit=wmd attempts=8"
unfolding format_event show
format_event_run = refl

run_ticks-AllRungs_example :
    AllRungs (run_ticks noting three_polls fresh).1.table
    × All AtEight (run_ticks noting three_polls fresh).0
run_ticks-AllRungs_example = run_ticks-AllRungs noting three_polls fresh empty-AllRungs

run_ticks-count_example :
    count_for (text "wm-tts.service") (run_ticks noting three_polls fresh).0
      + given_up (entry_of (text "wm-tts.service") fresh.table)
    ≡ given_up (entry_of (text "wm-tts.service") (run_ticks noting three_polls fresh).1.table)
run_ticks-count_example = run_ticks-count noting (text "wm-tts.service") three_polls fresh

abbrev OfFleet : List Text → Type 0
OfFleet w = All (λ u. is_wintermute_unit u ≡ true) w

run_ticks-fleet_example : OfFleet (run_ticks noting three_polls fresh).1.world
run_ticks-fleet_example =
    run_ticks-fleet noting OfFleet three_polls fresh (λ w p. p)
      (λ v f. record { on_reset = λ w p. (f, p); on_start = λ w p. (f, p); on_check = λ w p. p }) tt

abbrev worn : RecoveryState
worn = record {
  consecutive_failures = 8;
  current_backoff = from_secs 256;
  retry_after = some (from_secs 300);
  gave_up = true;
}

abbrev worn_engine : WatchdogEngine (List Text)
worn_engine = record { world = []; table = (text "wm-tts.service", worn) ∷ [] }

abbrev Spared : List Text → Type 0
Spared w = All (λ u. text_eq u (text "wm-tts.service") ≡ false) w

run_ticks-Rests_example :
    (entry_of (text "wm-tts.service") (run_ticks noting three_polls worn_engine).1.table ≡ worn)
    × Spared (run_ticks noting three_polls worn_engine).1.world
unfolding may_attempt get text_eq
run_ticks-Rests_example =
    run_ticks-Rests noting Spared (text "wm-tts.service") worn three_polls worn_engine (λ w p. p)
      (λ v f. record { on_reset = λ w p. (f, p); on_start = λ w p. (f, p); on_check = λ w p. p })
      (refl, (refl, (refl, tt))) refl tt

retry_times_run :
    may_attempt (record_failure default_state (from_secs 1)).0 (from_secs 2)
    ≡ (if 0 == 7 then false else leb (from_secs 1 + from_secs (2 ^ (0 + 1))) (from_secs 2))
unfolding may_attempt
retry_times_run =
    may_attempt-record_failure default_state (from_secs 1) (from_secs 2) default-IsRung refl

names_run :
    names_in
      (lines (text "[{\"unit\":\"wmd.service\"},{\"load\" : 1, \"unit\" : \"wm-tts.service\"}]"))
    ≡ text "wmd.service" ∷ text "wm-tts.service" ∷ []
unfolding names_in names_from name_after skip_separators lines strip_prefix split_once
names_run = refl

-- systemctl lists one failed unit, and the world counts its calls.
abbrev counting : Launcher ℕ
counting = λ args calls. (
  finished (record {
    success = true;
    code = text "Some(0)";
    stdout = text "wmd.service loaded failed failed\n";
  }),
  calls + 1,
)

dry_poll_run :
    ((tick (dry_run counting) 0 (record { world = 0; table = [] })).1.world
      ≡ (counting list_args 0).1)
    × (done_or [] (tick (dry_run counting) 0 (record { world = 0; table = [] })).0 ≡ [])
dry_poll_run = tick-dry_run counting 0 0

abbrev dry_cli : Cli
dry_cli = record { poll_interval = 5; dry_run = true }

run-dry_run_example :
    run counting (ok tt) (ok tt) dry_cli (from_secs 5 ∷ from_secs 10 ∷ []) 0 ≡ (ok [], 2)
run-dry_run_example = run-dry_run counting dry_cli (from_secs 5 ∷ from_secs 10 ∷ []) 0 refl

abbrev tts_failed : FailedUnit
tts_failed = record {
  unit = text "wm-tts.service";
  description = text "speech \"unit\" of C:\\wm\n";
}

-- A unit by the name of the key.
abbrev odd_failed : FailedUnit
odd_failed = record { unit = text "unit"; description = text "unit" }

-- systemctl lists two failed units in JSON, and the world counts its calls.
abbrev listing : Launcher ℕ
listing = λ args calls. (
  finished (record {
    success = true;
    code = text "Some(0)";
    stdout = units_json tts_failed (odd_failed ∷ []) ++ 10 ∷ [];
  }),
  calls + 1,
)

list_failed_units_real-units_json_example :
    list_failed_units_real listing 0 ≡ (done (text "wm-tts.service" ∷ text "unit" ∷ []), 1)
unfolding contains_char
list_failed_units_real-units_json_example =
    list_failed_units_real-units_json listing 0 1 (text "Some(0)") tts_failed (odd_failed ∷ [])
      (
        record { quote = refl; backslash = refl; printable = ground arith },
        (record { quote = refl; backslash = refl; printable = ground arith }, tt),
      )
      refl

-- A name with a backslash is read with the backslash doubled.
backslash_run :
    names_in (lines (units_json (record { unit = text "wm-a\\x2db.service"; description = [] }) []))
    ≡ text "wm-a\\\\x2db.service" ∷ []
unfolding names_in names_from name_after skip_separators lines strip_prefix split_once units_json
    entry_json more_json escaped escape
backslash_run = refl
