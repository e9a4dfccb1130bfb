-- ===== src/WmdInit/Examples.antt =====
-- Runs of the daemon.
use wintermute_platform.WmdInit.Pids.{run-IsAttested, IsConfirmed}
use wintermute_platform.Supervisor.Pids.{IsAttested}
use wintermute_platform.Prelude.{
  some, is_whitespace, trim_end, trim_start, trim, Text, ℕ, true, false, List, [], ◌∷◌, none, text,
  text_eq, ◌+◌, ok, err, contents, not_found, All, map, ◌≡◌, ◌↔◌, refl,
}
use wintermute_platform.Platform.{child_startup_order, canonical_children}
use wintermute_platform.Platform.Env.{load_optional}
use wintermute_platform.Protocol.{pending_for, Request, pending_from}
use wintermute_platform.Spawn.{
  run_args, read_reply, absent, pevent_start, pevent_spawner, PeventHost, Spawner,
}
use wintermute_platform.Supervisor.{Machine, new_supervisor, start_all, start_specs, start_one}
use wintermute_platform.Supervisor.Slots.{names}
use wintermute_platform.Supervisor.Boot.{IsTended}
use wintermute_platform.Supervisor.Control.{LogHost}
use wintermute_platform.Supervisor.Tasks.{Turn, task, client}
use wintermute_platform.WmdInit.{
  CliArgs, InitHost, stopped, lived, run, run_loaded, shut_down, main, parse_cli, parse_args,
}
use wintermute_platform.WmdInit.Children.{run-IsTended, run-pending}
use wintermute_platform.WmdInit.Exits.{CanRun, main-CanRun}

-- Every start succeeds, and no process lives.
abbrev launcher : Spawner ℕ
launcher = record {
  start = λ spec w. (ok (record { id = spec.name; child_pid = w; supervisor_pid = 1 }), w + 1);
  still_running = λ pid w. (ok false, w);
}

abbrev keyed_host : InitHost ℕ
keyed_host = record {
  bootstrap_override = none;
  runtime_dir = none;
  read = λ path. contents (text "WM_ANTHROPIC_API_KEY=k");
  term_signal = ok tt;
  remove_file = λ path w. w;
}

abbrev spawning : CliArgs
spawning = record { spawn = true }

abbrev quiet : CliArgs
quiet = record { spawn = false }

abbrev no_logs : LogHost
no_logs = record { read = λ path. not_found; home = none }

-- A client mutes between the call of the first start and its answer.
abbrev busy : List Turn
busy = task 1 ∷ task 2 ∷ client no_logs Request.mute ∷ task 3 ∷ []

launched : (start_all launcher (new_supervisor 0)).0 ≡ ok tt
unfolding start_all start_specs start_one new_supervisor canonical_children
launched = refl

ends :
    (cli : CliArgs)
    → run launcher keyed_host cli busy 0 ≡ stopped (ok tt) (lived launcher cli busy 0)
unfolding run run_loaded load_optional shut_down
ends cli = refl

run-IsTended_example :
    (names (lived launcher spawning busy 0).view.children ≡ child_startup_order)
    × All (IsTended (lived launcher spawning busy 0).view.children) child_startup_order
run-IsTended_example =
    run-IsTended launcher keyed_host spawning busy 0 (ok tt) (lived launcher spawning busy 0) refl
      launched (ends spawning)

quiet_daemon_run : (lived launcher quiet busy 0).view.children ≡ map pending_from canonical_children
quiet_daemon_run =
    run-pending launcher keyed_host quiet busy 0 (ok tt) (lived launcher quiet busy 0) refl
      (ends quiet)

main-CanRun_example :
    (main launcher keyed_host (text "wmd-init" ∷ text "--spawn" ∷ []) busy 0 ≡ 0)
    ↔ (All (λ a. a ≡ text "--spawn") (text "--spawn" ∷ []) × CanRun keyed_host)
main-CanRun_example = main-CanRun launcher keyed_host (text "wmd-init" ∷ text "--spawn" ∷ []) busy 0

parse_cli_run :
    parse_cli (text "wmd-init" ∷ text "--whatever" ∷ [])
    ≡ err (text "unknown argument: --whatever" ∷ [])
unfolding parse_cli parse_args text_eq
parse_cli_run = refl

-- The words of `pevent run --id <name>`.
abbrev id_of : List Text → Text
id_of (verb ∷ flag ∷ name ∷ rest) = name
id_of _ = []

-- `pevent` prints the name alone, and every process has PID 7 and is gone at once.
abbrev pevent : PeventHost ℕ
pevent = record {
  output = λ binary args w. (
    ok (record { success = true; status = text "0"; stdout = ok (id_of args); stderr = [] }),
    w + 1,
  );
  metadata = λ path w. absent;
  parse_reply = λ s. ok (record { id = s; child_pid = 7; supervisor_pid = 6 });
  debug = λ s. s;
}

abbrev ending : Machine ℕ
ending = lived (pevent_spawner pevent none) spawning busy 0

pevent_ends : run (pevent_spawner pevent none) keyed_host spawning busy 0 ≡ stopped (ok tt) ending
unfolding run run_loaded load_optional shut_down
pevent_ends = refl

run-IsAttested_example : All (IsAttested (IsConfirmed pevent none)) ending.view.children
run-IsAttested_example =
    run-IsAttested pevent none keyed_host spawning busy 0 (ok tt) ending pevent_ends

-- The first child is running after the starts, with the PID of its reply.
pevent_started :
    map
      (λ c. c.child_pid)
      (start_all (pevent_spawner pevent none) (new_supervisor 0)).1.view.children
    ≡ some 7 ∷ some 7 ∷ some 7 ∷ some 7 ∷ some 7 ∷ []
unfolding start_all start_specs start_one new_supervisor canonical_children pevent_start read_reply
    run_args trim trim_start trim_end is_whitespace text_eq pending_for pending_from
pevent_started = refl
