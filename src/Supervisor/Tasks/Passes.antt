-- ===== src/Supervisor/Tasks/Passes.antt =====
-- The steps of the task against its passes: what is left of a pass, or of the launches, from any
-- point on.
use wintermute_platform.Prelude.{
  ℕ, List, [], ◌∷◌, ◌++◌, Text, ◌==◌, Bool-cases, Result, ok, err, Result-cases, ◌≡◌, refl, ap, inl,
  inr,
}
use wintermute_platform.Platform.{ChildSpec, canonical_spec}
use wintermute_platform.Spawn.{StartedChild, Spawner}
use wintermute_platform.Supervisor.{
  RestartOutcome, Machine, named, with_slot, to_starting, to_running, to_exited, to_restarted,
  to_backoff, running_named, updated_count, recorded, observe_phase, restart_phase, observer_pass,
  start_one, start_specs, observe_one, observe_loop, observe_exits, restart_now, restart_one,
  restart_loop, restart_exited,
}
use wintermute_platform.Supervisor.Control.Interleaving.{scheduled}
use wintermute_platform.Supervisor.Tasks.{
  Pc, in_world, task_step, launching, starting, started, resting, watching, probing, losing,
  visiting, restarting, reviving, holding,
}

module _ {W : Type 0} (spawner : Spawner W) where
  -- The machine at the end of what the task is about, by the operations as whole functions.
  abbrev pub launch_rest : ChildSpec → List ChildSpec → Result StartedChild → Machine W → Machine W
  launch_rest spec specs (err e) m = m
  launch_rest spec specs (ok child) m =
      (start_specs spawner specs (with_slot (named spec.name) (to_running child.child_pid) m)).1

  abbrev pub observe_rest : ℕ → List (Text × ℕ) → Machine W → Machine W
  observe_rest now probes m = restart_phase spawner now (observe_loop spawner probes [] m).1

  abbrev pub restart_rest : ℕ → List Text → List RestartOutcome → Machine W → Machine W
  restart_rest now names outcomes m = scheduled now (restart_loop spawner names outcomes now m)

  unfoldable pub finish : Pc → Machine W → Machine W
  finish (launching specs) m = (start_specs spawner specs m).1
  finish (starting spec specs) m =
      launch_rest spec specs (spawner.start spec m.world).0
        (in_world (spawner.start spec m.world).1 m)
  finish (started spec pid specs) m =
      (start_specs spawner specs (with_slot (named spec.name) (to_running pid) m)).1
  finish resting m = m
  finish (watching now) m = restart_phase spawner now (observe_phase spawner m)
  finish (probing now probes) m = observe_rest now probes m
  finish (losing now name pid probes) m =
      observe_rest now probes (with_slot (running_named name) (to_exited pid) m)
  finish (visiting now) m = restart_phase spawner now m
  finish (restarting now names outcomes) m = restart_rest now names outcomes m
  finish (reviving now name pid names outcomes) m =
      restart_rest now names
        (outcomes ++ RestartOutcome.restarted name pid (updated_count name m.view.children) ∷ [])
        (with_slot (named name) (to_restarted pid) m)
  finish (holding now name restarts names outcomes) m =
      restart_rest now names (outcomes ++ RestartOutcome.entered_backoff name restarts ∷ [])
        (with_slot (named name) (to_backoff restarts) m)

  -- The same, with the pass that begins if the task is at rest.
  abbrev pub from_next : ℕ → Pc → Machine W → Machine W
  from_next clock resting m = observer_pass spawner clock m
  from_next clock pc m = finish pc m

  -- The names that are collected for the log do not matter.
  observe_loop-log :
      (probes : List (Text × ℕ)) (lost other : List Text) (m : Machine W)
      → (observe_loop spawner probes lost m).1 ≡ (observe_loop spawner probes other m).1
  unfolding observe_loop
  observe_loop-log [] lost other m = refl
  observe_loop-log (probe ∷ probes) lost other m =
      elim (Result-cases (observe_one spawner probe m).0) [
        | inr (e, q) ↦ rw (q, observe_loop) refl
        | inl (more, q) ↦
            rw (q, observe_loop)
              (observe_loop-log probes (lost ++ more) (other ++ more)
                (observe_one spawner probe m).1)
      ]

  launching-step :
      (clock : ℕ) (spec : ChildSpec) (specs : List ChildSpec) (m : Machine W)
      → finish (starting spec specs) (with_slot (named spec.name) to_starting m)
        ≡ finish (launching (spec ∷ specs)) m
  unfolding finish start_specs start_one
  launching-step clock spec specs m = elim (Result-cases (spawner.start spec m.world).0) [
    | inr (e, q) ↦
        rw (q, finish, start_specs, start_one) (rw (q, finish, start_specs, start_one) refl)
    | inl (s, q) ↦
        rw (q, finish, start_specs, start_one) (rw (q, finish, start_specs, start_one) refl)
  ]

  probing-step :
      (clock now : ℕ) (name : Text) (pid : ℕ) (probes : List (Text × ℕ)) (m : Machine W)
      → finish
          (task_step spawner clock (probing now ((name, pid) ∷ probes)) m).0
          (task_step spawner clock (probing now ((name, pid) ∷ probes)) m).1
        ≡ finish (probing now ((name, pid) ∷ probes)) m
  unfolding finish task_step observe_loop observe_one
  probing-step clock now name pid probes m =
      elim (Result-cases (spawner.still_running pid m.world).0) [
        | inr (e, q) ↦ rw (q, task_step, observe_loop, observe_one) (rw (q, observe_one) refl)
        | inl (live, q) ↦ elim (Bool-cases live) [
          | inl l ↦ rw (q, l, task_step, observe_loop, observe_one) (rw (q, l, observe_one) refl)
          | inr l ↦
              rw (q, l, task_step, observe_loop, observe_one)
                (rw (q, l, observe_one)
                  (ap (restart_phase spawner now) (observe_loop-log probes _ _ _)))
        ]
      ]

  restarting-step :
      (clock now : ℕ) (name : Text) (names : List Text) (outcomes : List RestartOutcome)
      (m : Machine W)
      → finish
          (task_step spawner clock (restarting now (name ∷ names) outcomes) m).0
          (task_step spawner clock (restarting now (name ∷ names) outcomes) m).1
        ≡ finish (restarting now (name ∷ names) outcomes) m
  unfolding finish task_step restart_loop restart_one restart_now
  restarting-step clock now name names outcomes m =
      elim (Bool-cases ((recorded name now m).1 == 0)) [
        | inr e ↦ rw (e, task_step, restart_loop, restart_one) (rw (e, restart_one) refl)
        | inl e ↦ elim (Result-cases (spawner.start (canonical_spec name) m.world).0) [
          | inr (x, q) ↦
              rw (e, q, task_step, restart_loop, restart_one, restart_now)
                (rw (e, q, restart_one, restart_now) refl)
          | inl (s, q) ↦
              rw (e, q, task_step, restart_loop, restart_one, restart_now)
                (rw (e, q, restart_one, restart_now) refl)
        ]
      ]

  starting-step :
      (clock : ℕ) (spec : ChildSpec) (specs : List ChildSpec) (m : Machine W)
      → finish
          (task_step spawner clock (starting spec specs) m).0
          (task_step spawner clock (starting spec specs) m).1
        ≡ finish (starting spec specs) m
  unfolding finish task_step
  starting-step clock spec specs m = elim (Result-cases (spawner.start spec m.world).0) [
    | inr (e, q) ↦ rw (q, task_step) refl
    | inl (s, q) ↦ rw (q, task_step) refl
  ]

  -- A step goes towards the end that the whole operations reach.
  pub finish-task_step :
      (clock : ℕ) (pc : Pc) (m : Machine W)
      → finish (task_step spawner clock pc m).0 (task_step spawner clock pc m).1
        ≡ from_next clock pc m
  unfolding finish task_step observer_pass observe_phase observe_exits restart_exited start_specs
      observe_loop restart_loop restart_phase
  finish-task_step clock (launching []) m = refl
  finish-task_step clock (launching (spec ∷ specs)) m = launching-step clock spec specs m
  finish-task_step clock (starting spec specs) m = starting-step clock spec specs m
  finish-task_step clock (started spec pid specs) m = refl
  finish-task_step clock resting m = refl
  finish-task_step clock (watching now) m = refl
  finish-task_step clock (probing now []) m = refl
  finish-task_step clock (probing now ((name, pid) ∷ probes)) m =
      probing-step clock now name pid probes m
  finish-task_step clock (losing now name pid probes) m = refl
  finish-task_step clock (visiting now) m = refl
  finish-task_step clock (restarting now [] outcomes) m = refl
  finish-task_step clock (restarting now (name ∷ names) outcomes) m =
      restarting-step clock now name names outcomes m
  finish-task_step clock (reviving now name pid names outcomes) m = refl
  finish-task_step clock (holding now name restarts names outcomes) m = refl
