-- ===== src/Lib.antt =====
-- wintermute-platform: the supervisor of a voice assistant's processes, the watchdog of its systemd
-- units, and the command line around them.
--
-- The program is a Rust crate. `wmd-init` starts five children through a launcher, watches them,
-- restarts those that exit under a rolling window, and answers requests on a control socket.
-- `wintermute-watchdog` polls systemd for failed units of the fleet and recovers them with a capped
-- exponential backoff. The files and the source that they model (paths from the repository's root):
--   Prelude           the names that the others share: list updates, texts, maps, results
--   Platform          src/lib.rs: constants and child specifications; Platform/Logs: socket and log
--                     paths and the tail of a log; Platform/Tracker: `RestartTracker`
--   Protocol          src/protocol.rs: requests, responses and the view of the supervisor
--   Spawn             src/spawn.rs: the launcher interface and `PeventSpawner`
--   Supervisor        src/supervisor.rs: `start_specs`, `observe_exits`, `restart_exited`,
--                     `clear_expired_backoffs`, `observer_pass` and `run_observer_loop`
--   Supervisor/Automaton  the states of a child and the moves between them, which the passes refine
--   Supervisor/Pids   where the PIDs in the slots come from
--   Supervisor/Tasks  the launches and the observer loop step by step, with clients in between:
--                     a step is a section under the lock or a call of the launcher
--   Supervisor/Apart  one child by itself, and what the passes make of it
--   Supervisor/Boot   the canonical children from `start_all` on
--   Supervisor/Control  src/supervisor.rs: `dispatch` and `handle_conn`, as lines in and
--                     out; Control/Connection: `handle_conn` on streams; Control/Server: `serve`;
--                     Control/Client: `client_roundtrip`, and its composition with `handle_conn`
--   Watchdog          src/watchdog.rs: `RecoveryState`, `is_wintermute_unit` and
--                     `WatchdogEngine::tick`; Watchdog/Systemctl: its backends; Watchdog/Listing:
--                     the JSON that systemctl prints, with its escapes in Listing/Escapes; the polls of src/bin/wintermute_watchdog.rs
--                     (Watchdog/Daemon: its options and `run`)
--   Platform/Env      src/lib.rs: `EnvConfig`, the bootstrap env file
--   Install           src/install_convention.rs: the rewrite of unit files, the check, the plan;
--                     Install/Rewriting: single lines, Install/Files: whole files
--   Ready             src/ready.rs: the readiness checks and the verdict; Ready/Clock: its timestamp,
--                     with a reader of it in Ready/Clock/Reading
--                     and the Gregorian calendar, apart from the code, in Ready/Clock/Gregorian
--   Wm                src/bin/wm.rs: what the commands print; Wm/Commands: the commands, `run` and
--                     `main`; Wm/Commands/Session: a command against the supervisor's own handler
--   WmdInit           src/bin/wmd_init.rs: the command line, the boot, the tasks, the end and the code;
--                     WmdInit/Pids: with the launcher of src/spawn.rs
--   Kiosk             src/kiosk.rs: the plan of the kiosk install and its files; Kiosk/Flags: the
--                     installer's flags
--   Doctor            src/doctor.rs: the probe of the units, the report and its table;
--                     Doctor/Discovery: the names of the installed units; Doctor/Installed:
--                     the doctor on the unit files that src/install_convention.rs rewrites
--
-- State. A supervisor is a `Machine`: the `SupervisorView` behind its mutex, the trackers and wake-up
-- times that its observer loop owns, and the world on which the launcher acts. A function of the
-- source that changes state takes the machine and returns it changed, with its result; a loop with
-- `?` is a structural recursion whose rounds are named (`start_one`, `observe_one`, `restart_one`,
-- `visit`). Instants and durations are nanoseconds in ℕ. A `BTreeMap` or `HashMap` is an association
-- list. Tasks interleave as a list of turns: a step of the supervising task, or a client's request.
--
-- Bounds. Restart counters saturate at `2 ^ 32 - 1`, failure counters wrap there, and a `Duration`
-- saturates at its largest value; instants are not bounded. `show` recurs on a fuel of one more than
-- the number, which has fewer digits than that; the loop over the years of a date recurs on the
-- number of days, of which every round takes one year's (Ready/Clock/Years).
--
-- Parameters. The launcher, systemd, `/proc`, files, environment variables and the JSON codec are
-- arguments of the definitions that use them.
--
-- Not modelled: the asynchronous runtime, mutexes, the delivery of signals, logging, tests and
-- scripts. Nor are the parser of the
-- command line `wm`, which clap generates, and the start of the tokio runtime.
pub mod Prelude
pub mod Platform
pub mod Protocol
pub mod Spawn
pub mod Supervisor
pub mod Watchdog
pub mod Install
pub mod Ready
pub mod Wm
pub mod WmdInit
pub mod Kiosk
pub mod Doctor
