-- ===== src/Watchdog/Daemon.antt =====
-- src/bin/wintermute_watchdog.rs: the daemon around the engine. clap parses its options; the polls are
-- given by the times of the clock, and the signals that end it by where their list ends.
use wintermute_platform.Prelude.{
  ℕ, zero, suc, Bool, true, List, [], ◌∷◌, ◌++◌, Result, ok, err, if◌then◌else◌, length, ◌≡◌, refl,
  ap,
}
use wintermute_platform.Watchdog.{WatchdogEngine, HealthEvent, done_or, tick, run_ticks}
use wintermute_platform.Watchdog.Systemctl.{Launcher, systemctl_real, dry_run, list_args}
use wintermute_platform.Watchdog.DryRun.{tick-dry_run}

abbrev pub poll_interval_secs : ℕ
poll_interval_secs = 5

pub record Cli : Type 0 where
  pub poll_interval : ℕ
  pub dry_run : Bool

-- `WatchdogEngine::new`
abbrev pub new_engine : {W : Type 0} → W → WatchdogEngine W
new_engine w = record { world = w; table = [] }

module _ {W : Type 0} (systemctl : Launcher W) where
  -- Every poll of the dry-run mode has an engine of its own.
  pub dry_polls : List ℕ → W → List HealthEvent × W
  unfolding tick
  dry_polls [] w = ([], w)
  dry_polls (now ∷ later) w =
      let (r, e) = tick (dry_run systemctl) now (new_engine w) in
      let (more, w') = dry_polls later e.world in (done_or [] r ++ more, w')

  pub polls : Cli → List ℕ → W → List HealthEvent × W
  unfolding run_ticks dry_polls
  polls cli times w =
      let (events, e) = run_ticks (systemctl_real systemctl) times (new_engine w) in
      if cli.dry_run then dry_polls times w else (events, e.world)

  -- `run`: the events that it reports, or the error of a signal's registration.
  pub run : Result (Unit {0}) → Result (Unit {0}) → Cli → List ℕ → W → Result (List HealthEvent) × W
  unfolding polls
  run (err e) sigint cli times w = (err e, w)
  run (ok _) (err e) cli times w = (err e, w)
  run (ok _) (ok _) cli times w = let (events, w') = polls cli times w in (ok events, w')

-- `main`
abbrev pub exit_code : {A : Type 0} → Result A → ℕ
exit_code (ok _) = 0
exit_code (err e) = 1

-- The world after this many listings.
abbrev pub listed : {W : Type 0} → Launcher W → ℕ → W → W
listed systemctl zero w = w
listed systemctl (suc n) w = listed systemctl n (systemctl list_args w).1

module _ {W : Type 0} (systemctl : Launcher W) where
  dry_polls-listed :
      (times : List ℕ) (w : W)
      → dry_polls systemctl times w ≡ ([], listed systemctl (length times) w)
  unfolding dry_polls
  dry_polls-listed [] w = refl
  dry_polls-listed (now ∷ later) w =
      let (world, quiet) = tick-dry_run systemctl now w in
      rw (world, quiet, dry_polls) (dry_polls-listed later (systemctl list_args w).1)

  -- The daemon in the dry-run mode calls systemctl once for each poll, to list the failed units, and
  -- for nothing else, and reports no event, however long it runs.
  pub run-dry_run :
      (cli : Cli) (times : List ℕ) (w : W)
      → cli.dry_run ≡ true
      → run systemctl (ok tt) (ok tt) cli times w ≡ (ok [], listed systemctl (length times) w)
  unfolding run polls
  run-dry_run cli times w dry =
      rw (dry, run, polls)
        (ap (λ (x : List HealthEvent × W). (ok x.0, x.1)) (dry_polls-listed times w))
