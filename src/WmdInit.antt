-- ===== src/WmdInit.antt =====
-- src/bin/wmd_init.rs: the daemon. The control server and the observer are tasks; what they do until
-- a signal ends the daemon are turns of the task and of clients. The environment, the files and the
-- signals are arguments; the log and the tokio runtime's start are not modelled.
mod Exits
mod Launched
mod Children
mod Pids
mod Examples
use wintermute_platform.Prelude.{
  ℕ, ◌*◌, Bool, true, false, List, [], ◌∷◌, ◌++◌, Option, none, some, Text, text, text_eq, ◌||◌,
  if◌then◌else◌, Result, ok, err, Error, FileRead,
}
use wintermute_platform.Platform.{bootstrap_env_path, canonical_children}
use wintermute_platform.Platform.Logs.{socket_path_with}
use wintermute_platform.Platform.Env.{EnvConfig, load_optional}
use wintermute_platform.Ready.{or_path}
use wintermute_platform.Spawn.{Spawner}
use wintermute_platform.Supervisor.{Machine, new_supervisor}
use wintermute_platform.Supervisor.Tasks.{
  Pc, launching, resting, is_launching, Turn, task, client, take_turns,
}
use wintermute_platform.Supervisor.Tasks.Passes.{finish}

-- `Duration::from_millis(1_000)`, in nanoseconds.
abbrev pub observe_interval : ℕ
observe_interval = 1_000 * 1_000_000

pub record CliArgs : Type 0 where
  pub spawn : Bool

abbrev pub default_cli : CliArgs
default_cli = record { spawn = false }

abbrev pub usage : Text
usage =
    text "usage: wmd-init [--spawn]\n"
    ++ text "  --spawn   start the canonical children and run the exit-observer"

-- The loop of `parse_cli`, whose errors are strings.
unfoldable pub parse_args : List Text → CliArgs → Result CliArgs
unfolding text_eq
parse_args [] cli = ok cli
parse_args (a ∷ later) cli =
    let rest = parse_args later (record cli { spawn = true }) in
    if text_eq a (text "--spawn")
    then rest
    else if text_eq a (text "-h") || text_eq a (text "--help")
    then err (usage ∷ [])
    else err ((text "unknown argument: " ++ a) ∷ [])

-- `skip(1)`
abbrev pub skip_program : List Text → List Text
skip_program [] = []
skip_program (program ∷ args) = args

unfoldable pub parse_cli : List Text → Result CliArgs
parse_cli args = parse_args (skip_program args) default_cli

-- What the process finds around it, its launcher apart. `term_signal` is the result of the
-- registration of SIGTERM, and `remove_file` ignores failures.
pub record InitHost (W : Type 0) : Type 0 where
  pub bootstrap_override : Option Text
  pub runtime_dir : Option Text
  pub read : Text → FileRead
  pub term_signal : Result (Unit {0})
  pub remove_file : Text → W → W

-- Without `--spawn` there is no task, and only clients take turns.
abbrev pub clients_of : List Turn → List Turn
clients_of [] = []
clients_of (task clock ∷ later) = clients_of later
clients_of (client logs req ∷ later) = client logs req ∷ clients_of later

-- How `run` ends: with an error before there is a supervisor, without a bootstrap config, or with
-- the machine of its supervisor.
pub data Ended (W : Type 0) : Type 0 where
  refused : Error → Ended W
  no_bootstrap : Ended W
  stopped : Result (Unit {0}) → Machine W → Ended W

-- Where the supervising task begins. The server, whose requests are turns, runs from here on.
pub booted : {W : Type 0} → CliArgs → W → Pc × Machine W
booted cli w = (if cli.spawn then launching canonical_children else resting, new_supervisor w)

module _ {W : Type 0} (spawner : Spawner W) where
  -- `start_all` is awaited before a signal is: where the turns end within the launches, the rest of
  -- them follows.
  pub launched : Pc × Machine W → Machine W
  unfolding finish
  launched (pc, m) = if is_launching pc then finish spawner pc m else m

  pub lived : CliArgs → List Turn → W → Machine W
  unfolding booted launched take_turns
  lived cli turns w =
      launched (take_turns spawner (if cli.spawn then turns else clients_of turns) (booted cli w))

module _ {W : Type 0} (spawner : Spawner W) (host : InitHost W) where
  -- From the signals' registration on: the socket is removed if it succeeds.
  pub shut_down : Result (Unit {0}) → Machine W → Ended W
  unfolding socket_path_with
  shut_down (err e) m = stopped (err e) m
  shut_down (ok _) m =
      stopped (ok tt)
        (record m { world = host.remove_file (socket_path_with host.runtime_dir) m.world })

  pub run_loaded : Result (Option EnvConfig) → CliArgs → List Turn → W → Ended W
  unfolding lived shut_down
  run_loaded (err e) cli turns w = refused e
  run_loaded (ok none) cli turns w = no_bootstrap
  run_loaded (ok (some cfg)) cli turns w = shut_down host.term_signal (lived spawner cli turns w)

  -- `run`, where `turns` are those that are taken before the daemon ends.
  pub run : CliArgs → List Turn → W → Ended W
  unfolding run_loaded load_optional
  run cli turns w =
      run_loaded (load_optional (host.read (or_path bootstrap_env_path host.bootstrap_override)))
        cli turns w

abbrev pub exit_of : {W : Type 0} → Ended W → ℕ
exit_of (refused e) = 1
exit_of no_bootstrap = 0
exit_of (stopped (ok _) m) = 0
exit_of (stopped (err e) m) = 1

module _ {W : Type 0} (spawner : Spawner W) (host : InitHost W) where
  -- `main`: the exit code.
  pub main : List Text → List Turn → W → ℕ
  unfolding parse_cli run
  main args turns w = elim (parse_cli args) [
    | err e ↦ 1
    | ok cli ↦ exit_of (run spawner host cli turns w)
  ]
