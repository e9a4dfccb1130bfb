-- ===== src/Supervisor/Tasks/Examples.antt =====
-- Runs of the task with clients in between.
use wintermute_platform.Prelude.{
  ℕ, zero, suc, ◌+◌, true, false, List, [], ◌∷◌, ◌++◌, map, none, text, text_eq, get, insert,
  not_found, ◌≡◌, refl,
}
use wintermute_platform.Platform.Tracker.{record_at, pop_expired, checked_sub}
use wintermute_platform.Protocol.{Request, running, exited}
use wintermute_platform.Supervisor.{
  RestartOutcome, observer_run, clear_phase, clear_expired_backoffs, remove_all, live_pids,
  exited_names,
}
use wintermute_platform.Supervisor.Control.{LogHost, dispatch}
use wintermute_platform.Supervisor.Control.Interleaving.{muting}
use wintermute_platform.Supervisor.Fixtures.{launcher, machine_of, two}
use wintermute_platform.Supervisor.Tasks.{
  resting, reviving, Turn, task, client, task_step, take_turn, take_turns,
}
use wintermute_platform.Supervisor.Tasks.Passes.{finish}
use wintermute_platform.Supervisor.Tasks.Requests.{passes, muted_by_turns, take_turns-observer_run}

abbrev no_logs : LogHost
no_logs = record { read = λ path. not_found; home = none }

abbrev ticking : ℕ → List Turn
ticking zero = []
ticking (suc n) = task (1 + n) ∷ ticking n

-- A client mutes when the slot of the exited child has been read and its start has been called.
abbrev crossing : List Turn
crossing = ticking 6 ++ client no_logs Request.mute ∷ ticking 3

-- The pass has begun at 6 and restarted `a`; `c` has been started, and its slot not yet been set.
crossing_run :
    let c = take_turns launcher crossing (resting, machine_of two) in
    (c.0 ≡ reviving 6 (text "c") 101 [] (RestartOutcome.restarted (text "a") 100 1 ∷ []))
    × (map (λ c. c.status) c.1.view.children ≡ running ∷ exited ∷ [])
    × (c.1.view.muted ≡ true)
unfolding take_turns take_turn task_step clear_phase clear_expired_backoffs live_pids exited_names
    record_at pop_expired checked_sub get text_eq insert remove_all dispatch
crossing_run = (refl, refl, refl)

take_turns-observer_run_example :
    finish launcher
      (take_turns launcher crossing (resting, machine_of two)).0
      (take_turns launcher crossing (resting, machine_of two)).1
    ≡ muting (muted_by_turns crossing false) (
        observer_run launcher
          (passes launcher crossing (resting, machine_of two))
          (finish launcher resting (machine_of two)))
take_turns-observer_run_example = take_turns-observer_run launcher crossing resting (machine_of two)
