-- ===== src/Supervisor.antt =====
-- src/supervisor.rs: the supervisor's state and its passes. The mutex is not modelled: a lock is
-- held for single updates of `children`, and the connection handlers, which run between them,
-- change `muted` alone.
pub mod Slots
pub mod Moves
pub mod Observing
pub mod Restarting
pub mod Lifecycle
pub mod Automaton
pub mod Wakeups
pub mod Rounds
pub mod Stranding
pub mod Recovery
pub mod Scheduling
pub mod Pids
pub mod Apart
pub mod Launching
pub mod Starting
pub mod Control
pub mod Tasks
pub mod Boot
mod Fixtures
mod Examples
use wintermute_platform.Prelude.{
  ℕ, ◌+◌, ◌-◌, ◌^◌, min, Bool, true, false, ◌&&◌, List, [], ◌∷◌, ◌++◌, none, some, Text, text,
  text_eq, show, leb, ◌==◌, if◌then◌else◌, find, update_first, TextMap, get, insert, remove, get_or,
  Result, ok, err, with_context,
}
use wintermute_platform.Platform.{
  ChildSpec, from_secs, backoff_secs, canonical_spec, canonical_children,
}
use wintermute_platform.Platform.Tracker.{
  RestartTracker, default_tracker, record_at, restarts_in_window,
}
use wintermute_platform.Protocol.{
  ChildStatus, ChildState, SupervisorView, pending_for, is_running, is_exited, is_backoff,
}
use wintermute_platform.Spawn.{Spawner}

pub data RestartOutcome : Type 0 where
  restarted : (name : Text) (child_pid restart_count : ℕ) → RestartOutcome
  entered_backoff : (name : Text) (restarts_in_window : ℕ) → RestartOutcome

-- The supervisor's view, what the observer loop owns beside it, and the world of the launcher.
pub record Machine (W : Type 0) : Type 0 where
  pub view : SupervisorView
  pub trackers : TextMap RestartTracker
  pub backoff_until : TextMap ℕ
  pub world : W

abbrev pub named : Text → ChildState → Bool
named name c = text_eq c.name name

abbrev pub with_slot :
    {W : Type 0} → (ChildState → Bool) → (ChildState → ChildState) → Machine W → Machine W
with_slot p f m = record m { view = record m.view { children = update_first p f m.view.children } }

abbrev pub to_starting : ChildState → ChildState
to_starting c = record c { status = ChildStatus.starting; last_event = some (text "starting") }

abbrev pub to_running : ℕ → ChildState → ChildState
to_running pid c = record c {
  status = ChildStatus.running;
  last_event = some (text "running pid=" ++ show pid);
  child_pid = some pid;
}

abbrev pub to_exited : ℕ → ChildState → ChildState
to_exited pid c = record c {
  status = ChildStatus.exited;
  last_event = some (text "exited (lost pid " ++ show pid ++ text ")");
}

-- `saturating_add(1)` on a `u32`
abbrev pub bump : ℕ → ℕ
bump n = min (n + 1) (2 ^ 32 - 1)

abbrev pub to_restarted : ℕ → ChildState → ChildState
to_restarted pid c = record c {
  status = ChildStatus.running;
  restart_count = bump c.restart_count;
  last_event =
      some (
        text "restarted pid=" ++ show pid ++ text " (#" ++ show (bump c.restart_count) ++ text ")");
  child_pid = some pid;
}

abbrev pub to_backoff : ℕ → ChildState → ChildState
to_backoff restarts c = record c {
  status = ChildStatus.backoff;
  last_event = some (text "backoff (" ++ show restarts ++ text " restarts in window)");
}

abbrev pub to_retry : ChildState → ChildState
to_retry c = record c {
  status = ChildStatus.exited;
  last_event = some (text "backoff expired; retrying");
}

-- The running children with a known PID.
unfoldable pub live_pids : List ChildState → List (Text × ℕ)
live_pids [] = []
live_pids (c ∷ cs) =
    let rest = live_pids cs in
    if is_running c.status
    then (elim c.child_pid [ none ↦ rest | some pid ↦ (c.name, pid) ∷ rest ])
    else rest

abbrev pub running_named : Text → ChildState → Bool
running_named name c = named name c && is_running c.status

-- `transitions.push(name)`, if a running slot of that name is found.
abbrev pub lost_name : Text → List ChildState → List Text
lost_name name children = elim (find (running_named name) children) [
  | none ↦ []
  | some _ ↦ name ∷ []
]

unfoldable pub exited_names : List ChildState → List Text
exited_names [] = []
exited_names (c ∷ cs) =
    let rest = exited_names cs in if is_exited c.status then c.name ∷ rest else rest

-- `map_or(0, …)` over the slot that was updated.
abbrev pub updated_count : Text → List ChildState → ℕ
updated_count name children = elim (find (named name) children) [
  | none ↦ 0
  | some slot ↦ bump slot.restart_count
]

-- The tracker of a child after the record of a restart at `now`, and the delay.
abbrev pub recorded : {W : Type 0} → Text → ℕ → Machine W → RestartTracker × ℕ
recorded name now m = record_at (get_or default_tracker (get name m.trackers)) now

abbrev pub noted : {W : Type 0} → Text → ℕ → Machine W → Machine W
noted name now m = record m { trackers = insert name (recorded name now m).0 m.trackers }

module _ {W : Type 0} (spawner : Spawner W) where
  -- One round of the loop of `start_specs`.
  unfoldable pub start_one : ChildSpec → Machine W → Result (Unit {0}) × Machine W
  start_one spec m =
      let waiting = with_slot (named spec.name) to_starting m in
      let (r, w) = spawner.start spec m.world in
      let begun = record waiting { world = w } in
      elim (with_context (text "start child " ++ spec.name) r) [
        | err e ↦ (err e, begun)
        | ok started ↦ (ok tt, with_slot (named spec.name) (to_running started.child_pid) begun)
      ]

  unfoldable pub start_specs : List ChildSpec → Machine W → Result (Unit {0}) × Machine W
  start_specs [] m = (ok tt, m)
  start_specs (spec ∷ specs) m =
      let (r, m') = start_one spec m in elim r [ err e ↦ (err e, m') | ok _ ↦ start_specs specs m' ]

  -- One round of the loop of `observe_exits`: the names that it adds to `transitions`.
  pub observe_one : Text × ℕ → Machine W → Result (List Text) × Machine W
  observe_one (name, pid) m =
      let (r, w) = spawner.still_running pid m.world in
      let probed = record m { world = w } in
      elim (with_context (text "probe still_running for " ++ name ++ text " pid=" ++ show pid) r) [
        | err e ↦ (err e, probed)
        | ok true ↦ (ok [], probed)
        | ok false ↦ (
          ok (lost_name name m.view.children),
          with_slot (running_named name) (to_exited pid) probed,
        )
      ]

  pub observe_loop : List (Text × ℕ) → List Text → Machine W → Result (List Text) × Machine W
  observe_loop [] transitions m = (ok transitions, m)
  observe_loop (probe ∷ probes) transitions m =
      let (r, m') = observe_one probe m in
      elim r [ err e ↦ (err e, m') | ok lost ↦ observe_loop probes (transitions ++ lost) m' ]

  pub observe_exits : Machine W → Result (List Text) × Machine W
  observe_exits m = observe_loop (live_pids m.view.children) [] m

  -- A start with no delay: the executable is taken to be the name.
  pub restart_now : Text → Machine W → Result RestartOutcome × Machine W
  restart_now name m =
      let (r, w) = spawner.start (canonical_spec name) m.world in
      let tried = record m { world = w } in
      elim (with_context (text "restart child " ++ name) r) [
        | err e ↦ (err e, tried)
        | ok started ↦ (
          ok (RestartOutcome.restarted name started.child_pid (updated_count name m.view.children)),
          with_slot (named name) (to_restarted started.child_pid) tried,
        )
      ]

  -- One round of the loop of `restart_exited`.
  pub restart_one : Text → ℕ → Machine W → Result RestartOutcome × Machine W
  restart_one name now m =
      let (tracker, delay) = recorded name now m in
      let restarts = restarts_in_window tracker in
      if delay == 0 then restart_now name (noted name now m) else (
        ok (RestartOutcome.entered_backoff name restarts),
        with_slot (named name) (to_backoff restarts) (noted name now m),
      )

  pub restart_loop :
      List Text → List RestartOutcome → ℕ → Machine W → Result (List RestartOutcome) × Machine W
  restart_loop [] outcomes now m = (ok outcomes, m)
  restart_loop (name ∷ names) outcomes now m =
      let (r, m') = restart_one name now m in
      elim r [
        | err e ↦ (err e, m')
        | ok outcome ↦ restart_loop names (outcomes ++ outcome ∷ []) now m'
      ]

  pub restart_exited : ℕ → Machine W → Result (List RestartOutcome) × Machine W
  restart_exited now m = restart_loop (exited_names m.view.children) [] now m

abbrev pub has_elapsed : TextMap ℕ → ℕ → ChildState → Bool
has_elapsed due now c =
    is_backoff c.status && elim (get c.name due) [ none ↦ false | some until ↦ leb until now ]

-- The loop over the slots of `clear_expired_backoffs`: the slots, and the names that changed.
unfoldable pub clear_expired_backoffs :
    TextMap ℕ → ℕ → List ChildState → List ChildState × List Text
clear_expired_backoffs due now [] = ([], [])
clear_expired_backoffs due now (c ∷ cs) =
    let (cs', names) = clear_expired_backoffs due now cs in
    if has_elapsed due now c then (to_retry c ∷ cs', c.name ∷ names) else (c ∷ cs', names)

unfoldable pub remove_all : List Text → TextMap ℕ → TextMap ℕ
remove_all [] due = due
remove_all (name ∷ names) due = remove_all names (remove name due)

-- What the pass does with the outcomes: a child in backoff gets a wake-up time.
unfoldable pub schedule : ℕ → List RestartOutcome → TextMap ℕ → TextMap ℕ
schedule now [] due = due
schedule now (RestartOutcome.restarted _ _ _ ∷ outcomes) due = schedule now outcomes due
schedule now (RestartOutcome.entered_backoff name _ ∷ outcomes) due =
    schedule now outcomes (insert name (now + from_secs backoff_secs) due)

unfoldable pub clear_phase : {W : Type 0} → ℕ → Machine W → Machine W
clear_phase now m =
    let (children, cleared) = clear_expired_backoffs m.backoff_until now m.view.children in
    record m {
      view = record m.view { children = children };
      backoff_until = remove_all cleared m.backoff_until;
    }

module _ {W : Type 0} (spawner : Spawner W) where
  -- Failures are logged, and the machine keeps what was done before them.
  pub observe_phase : Machine W → Machine W
  observe_phase m = (observe_exits spawner m).1

  pub restart_phase : ℕ → Machine W → Machine W
  restart_phase now m =
      let (r, m') = restart_exited spawner now m in
      elim r [
        | err e ↦ m'
        | ok outcomes ↦ record m' { backoff_until = schedule now outcomes m'.backoff_until }
      ]

  pub observer_pass : ℕ → Machine W → Machine W
  observer_pass now m = restart_phase now (observe_phase (clear_phase now m))

  -- The rounds of `run_observer_loop` at the given times.
  pub observer_run : List ℕ → Machine W → Machine W
  observer_run [] m = m
  observer_run (now ∷ later) m = observer_run later (observer_pass now m)

-- `Supervisor::new`, before the observer loop runs.
unfoldable pub new_supervisor : {W : Type 0} → W → Machine W
unfolding pending_for canonical_children
new_supervisor w = record {
  view = pending_for canonical_children;
  trackers = [];
  backoff_until = [];
  world = w;
}

module _ {W : Type 0} (spawner : Spawner W) where
  unfoldable pub start_all : Machine W → Result (Unit {0}) × Machine W
  start_all m = start_specs spawner canonical_children m
