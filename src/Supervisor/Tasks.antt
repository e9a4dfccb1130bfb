-- ===== src/Supervisor/Tasks.antt =====
-- src/supervisor.rs as the tasks run it: `start_specs` and `run_observer_loop` step by step, with the
-- requests of clients in between. A step is one section in which the lock of the view is held, or
-- one call of the launcher; what is done between them touches only what the task owns.
pub mod Passes
pub mod Requests
pub mod Course
pub mod Due
pub mod Moments
pub mod Pids
mod Examples
use wintermute_platform.Prelude.{
  ℕ, Bool, true, false, List, [], ◌∷◌, ◌++◌, Text, ◌==◌, if◌then◌else◌, Result, ok, err,
}
use wintermute_platform.Platform.{ChildSpec, canonical_spec}
use wintermute_platform.Platform.Tracker.{restarts_in_window}
use wintermute_platform.Protocol.{Request}
use wintermute_platform.Spawn.{StartedChild, Spawner}
use wintermute_platform.Supervisor.{
  RestartOutcome, Machine, named, with_slot, to_starting, to_running, to_exited, to_restarted,
  to_backoff, live_pids, running_named, exited_names, updated_count, recorded, noted, schedule,
  clear_phase,
}
use wintermute_platform.Supervisor.Control.{LogHost, dispatch}

-- Where the supervising task stands: before the launches, before a call of `start` and after it,
-- between two passes, and in a pass at the time `now`.
pub data Pc : Type 0 where
  launching : List ChildSpec → Pc
  starting : ChildSpec → List ChildSpec → Pc
  started : ChildSpec → (pid : ℕ) → List ChildSpec → Pc
  resting : Pc
  watching : (now : ℕ) → Pc
  probing : (now : ℕ) → List (Text × ℕ) → Pc
  losing : (now : ℕ) → Text → (pid : ℕ) → List (Text × ℕ) → Pc
  visiting : (now : ℕ) → Pc
  restarting : (now : ℕ) → List Text → List RestartOutcome → Pc
  reviving : (now : ℕ) → Text → (pid : ℕ) → List Text → List RestartOutcome → Pc
  holding : (now : ℕ) → Text → (restarts : ℕ) → List Text → List RestartOutcome → Pc

-- Within `start_all`.
abbrev pub is_launching : Pc → Bool
is_launching (launching specs) = true
is_launching (starting spec specs) = true
is_launching (started spec pid specs) = true
is_launching _ = false

abbrev pub in_world : {W : Type 0} → W → Machine W → Machine W
in_world w m = record m { world = w }

module _ {W : Type 0} (spawner : Spawner W) where
  -- A failure of `start_all` is logged, and the observer loop begins.
  abbrev pub launch_answer :
      ChildSpec → List ChildSpec → Result StartedChild → Machine W → Pc × Machine W
  launch_answer spec specs (err e) m = (resting, m)
  launch_answer spec specs (ok child) m = (started spec child.child_pid specs, m)

  -- A failed probe ends `observe_exits`.
  abbrev pub probe_answer :
      ℕ → Text → ℕ → List (Text × ℕ) → Result Bool → Machine W → Pc × Machine W
  probe_answer now name pid probes (err e) m = (visiting now, m)
  probe_answer now name pid probes (ok true) m = (probing now probes, m)
  probe_answer now name pid probes (ok false) m = (losing now name pid probes, m)

  -- A failed start ends `restart_exited`, and the pass: what it collected is dropped.
  abbrev pub restart_answer :
      ℕ → Text → List Text → List RestartOutcome → Result StartedChild → Machine W → Pc × Machine W
  restart_answer now name names outcomes (err e) m = (resting, m)
  restart_answer now name names outcomes (ok child) m =
      (reviving now name child.child_pid names outcomes, m)

  -- The next step of the task. `clock` is the time at which a pass begins, if one does.
  unfoldable pub task_step : ℕ → Pc → Machine W → Pc × Machine W
  task_step clock (launching []) m = (resting, m)
  task_step clock (launching (spec ∷ specs)) m =
      (starting spec specs, with_slot (named spec.name) to_starting m)
  task_step clock (starting spec specs) m =
      let (r, w) = spawner.start spec m.world in launch_answer spec specs r (in_world w m)
  task_step clock (started spec pid specs) m =
      (launching specs, with_slot (named spec.name) (to_running pid) m)
  task_step clock resting m = (watching clock, clear_phase clock m)
  task_step clock (watching now) m = (probing now (live_pids m.view.children), m)
  task_step clock (probing now []) m = (visiting now, m)
  task_step clock (probing now ((name, pid) ∷ probes)) m =
      let (r, w) = spawner.still_running pid m.world in
      probe_answer now name pid probes r (in_world w m)
  task_step clock (losing now name pid probes) m =
      (probing now probes, with_slot (running_named name) (to_exited pid) m)
  task_step clock (visiting now) m = (restarting now (exited_names m.view.children) [], m)
  task_step clock (restarting now [] outcomes) m =
      (resting, record m { backoff_until = schedule now outcomes m.backoff_until })
  task_step clock (restarting now (name ∷ names) outcomes) m =
      let (tracker, delay) = recorded name now m in
      let (r, w) = spawner.start (canonical_spec name) m.world in
      if delay == 0
      then restart_answer now name names outcomes r (in_world w (noted name now m))
      else (holding now name (restarts_in_window tracker) names outcomes, noted name now m)
  task_step clock (reviving now name pid names outcomes) m = (
    restarting now names
        (outcomes ++ RestartOutcome.restarted name pid (updated_count name m.view.children) ∷ []),
    with_slot (named name) (to_restarted pid) m,
  )
  task_step clock (holding now name restarts names outcomes) m = (
    restarting now names (outcomes ++ RestartOutcome.entered_backoff name restarts ∷ []),
    with_slot (named name) (to_backoff restarts) m,
  )

-- Whose turn it is: the task's, or that of a client's request, which finds the log files as they are
-- then.
pub data Turn : Type 0 where
  task : (clock : ℕ) → Turn
  client : LogHost → Request → Turn

module _ {W : Type 0} (spawner : Spawner W) where
  unfoldable pub take_turn : Turn → Pc × Machine W → Pc × Machine W
  unfolding task_step dispatch
  take_turn (task clock) (pc, m) = task_step spawner clock pc m
  take_turn (client host req) (pc, m) = (pc, record m { view = (dispatch host req m.view).1 })

  unfoldable pub take_turns : List Turn → Pc × Machine W → Pc × Machine W
  unfolding take_turn
  take_turns [] c = c
  take_turns (t ∷ later) c = take_turns later (take_turn t c)
