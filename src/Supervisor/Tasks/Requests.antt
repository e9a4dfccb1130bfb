-- ===== src/Supervisor/Tasks/Requests.antt =====
-- Requests between the steps of the task: the task goes on as if there were none.
use wintermute_platform.Prelude.{
  ℕ, Bool, List, [], ◌∷◌, ◌++◌, Text, Result, ok, err, Result-cases, ◌≡◌, refl, sym, ◌∙◌, ap, inl,
  inr, arith,
}
use wintermute_platform.Platform.{ChildSpec}
use wintermute_platform.Spawn.{StartedChild, Spawner}
use wintermute_platform.Supervisor.{
  RestartOutcome, Machine, named, with_slot, to_running, to_exited, live_pids, running_named,
  clear_phase, observe_phase, restart_phase, start_one, start_specs, observe_loop, observe_exits,
  restart_loop, observer_run,
}
use wintermute_platform.Supervisor.Control.{dispatch}
use wintermute_platform.Supervisor.Control.Requests.{muted_by, dispatch-muted_by}
use wintermute_platform.Supervisor.Control.Interleaving.{
  muting, both, scheduled, observe_loop-muting, restart_loop-muting, scheduled-both,
  restart_phase-muting, observer_run-muting,
}
use wintermute_platform.Supervisor.Tasks.{
  Pc, launching, starting, started, resting, watching, probing, losing, visiting, restarting,
  reviving, holding, task_step, Turn, in_world, task, client, take_turn, take_turns,
}
use wintermute_platform.Supervisor.Tasks.Passes.{
  finish, launch_rest, observe_rest, restart_rest, from_next, finish-task_step,
}

module _ {W : Type 0} (spawner : Spawner W) (b : Bool) where
  abbrev launch_next :
      List ChildSpec → Result (Unit {0}) × Machine W → Result (Unit {0}) × Machine W
  launch_next specs x = elim x.0 [ err e ↦ (err e, x.1) | ok u ↦ start_specs spawner specs x.1 ]

  start_one-muting :
      (spec : ChildSpec) (m : Machine W)
      → start_one spawner spec (muting b m) ≡ both b (start_one spawner spec m)
  unfolding start_one
  start_one-muting spec m = elim (Result-cases (spawner.start spec m.world).0) [
    | inr (e, q) ↦ rw (q, start_one) refl
    | inl (s, q) ↦ rw (q, start_one) refl
  ]

  launch_next-both :
      (specs : List ChildSpec)
      → ((m : Machine W)
          → start_specs spawner specs (muting b m) ≡ both b (start_specs spawner specs m))
      → (x : Result (Unit {0}) × Machine W)
      → launch_next specs (both b x) ≡ both b (launch_next specs x)
  launch_next-both specs same (err e, m) = refl
  launch_next-both specs same (ok u, m) = same m

  start_specs-muting :
      (specs : List ChildSpec) (m : Machine W)
      → start_specs spawner specs (muting b m) ≡ both b (start_specs spawner specs m)
  unfolding start_specs
  start_specs-muting [] m = refl
  start_specs-muting (spec ∷ specs) m =
      ap (launch_next specs) (start_one-muting spec m)
      ∙ launch_next-both specs (start_specs-muting specs) (start_one spawner spec m)

  launch_rest-muting :
      (spec : ChildSpec) (specs : List ChildSpec) (r : Result StartedChild) (m : Machine W)
      → launch_rest spawner spec specs r (muting b m)
        ≡ muting b (launch_rest spawner spec specs r m)
  launch_rest-muting spec specs (err e) m = refl
  launch_rest-muting spec specs (ok child) m =
      ap (λ (x : Result (Unit {0}) × Machine W). x.1)
        (start_specs-muting specs (with_slot (named spec.name) (to_running child.child_pid) m))

  observe_rest-muting :
      (now : ℕ) (probes : List (Text × ℕ)) (m : Machine W)
      → observe_rest spawner now probes (muting b m) ≡ muting b (observe_rest spawner now probes m)
  observe_rest-muting now probes m =
      ap (λ (x : Result (List Text) × Machine W). restart_phase spawner now x.1)
        (observe_loop-muting spawner b probes [] m)
      ∙ restart_phase-muting spawner b now (observe_loop spawner probes [] m).1

  restart_rest-muting :
      (now : ℕ) (names : List Text) (outcomes : List RestartOutcome) (m : Machine W)
      → restart_rest spawner now names outcomes (muting b m)
        ≡ muting b (restart_rest spawner now names outcomes m)
  restart_rest-muting now names outcomes m =
      ap (scheduled now) (restart_loop-muting spawner b names now outcomes m)
      ∙ scheduled-both spawner b now (restart_loop spawner names outcomes now m)

  pub finish-muting :
      (pc : Pc) (m : Machine W) → finish spawner pc (muting b m) ≡ muting b (finish spawner pc m)
  unfolding finish observe_phase observe_exits
  finish-muting (launching specs) m =
      ap (λ (x : Result (Unit {0}) × Machine W). x.1) (start_specs-muting specs m)
  finish-muting (starting spec specs) m =
      launch_rest-muting spec specs (spawner.start spec m.world).0
        (in_world (spawner.start spec m.world).1 m)
  finish-muting (started spec pid specs) m =
      ap (λ (x : Result (Unit {0}) × Machine W). x.1)
        (start_specs-muting specs (with_slot (named spec.name) (to_running pid) m))
  finish-muting resting m = refl
  finish-muting (watching now) m = observe_rest-muting now (live_pids m.view.children) m
  finish-muting (probing now probes) m = observe_rest-muting now probes m
  finish-muting (losing now name pid probes) m =
      observe_rest-muting now probes (with_slot (running_named name) (to_exited pid) m)
  finish-muting (visiting now) m = restart_phase-muting spawner b now m
  finish-muting (restarting now names outcomes) m = restart_rest-muting now names outcomes m
  finish-muting (reviving now name pid names outcomes) m = restart_rest-muting now names _ _
  finish-muting (holding now name restarts names outcomes) m = restart_rest-muting now names _ _

-- How the clients' turns leave `muted`.
abbrev pub muted_by_turns : List Turn → Bool → Bool
muted_by_turns [] b = b
muted_by_turns (task clock ∷ later) b = muted_by_turns later b
muted_by_turns (client host req ∷ later) b = muted_by_turns later (muted_by req b)

-- The task begins a pass if it is at rest.
abbrev pub pass_of : Turn → Pc → List ℕ
pass_of (task clock) resting = clock ∷ []
pass_of _ _ = []

module _ {W : Type 0} (spawner : Spawner W) where
  -- The times of the passes that begin.
  pub passes : List Turn → Pc × Machine W → List ℕ
  passes [] c = []
  passes (t ∷ later) c = pass_of t c.0 ++ passes later (take_turn spawner t c)

  task_step-muted :
      (clock : ℕ) (pc : Pc) (m : Machine W)
      → (task_step spawner clock pc m).1.view.muted ≡ m.view.muted
  unfolding task_step clear_phase
  task_step-muted clock (launching []) m = refl
  task_step-muted clock (restarting now (name ∷ names) outcomes) m = ground arith
  task_step-muted clock (probing now ((name, pid) ∷ probes)) m = ground arith
  task_step-muted clock pc m = ground arith

  observer_run-pass_of :
      (clock : ℕ) (pc : Pc) (times : List ℕ) (m : Machine W)
      → observer_run spawner (pass_of (task clock) pc ++ times) (finish spawner pc m)
        ≡ observer_run spawner times (from_next spawner clock pc m)
  unfolding observer_run finish
  observer_run-pass_of clock resting times m = refl
  observer_run-pass_of clock pc times m = refl

  -- However the steps of the task and the requests of the clients interleave, from wherever the
  -- task stands: when what it has begun is finished, the machine is that of the whole launches and
  -- passes, one after another and with no client, with `muted` as the requests alone leave it.
  pub take_turns-observer_run :
      (turns : List Turn) (pc : Pc) (m : Machine W)
      → finish spawner (take_turns spawner turns (pc, m)).0 (take_turns spawner turns (pc, m)).1
        ≡ muting
            (muted_by_turns turns m.view.muted)
            (observer_run spawner (passes turns (pc, m)) (finish spawner pc m))
  unfolding take_turns take_turn passes observer_run
  take_turns-observer_run [] pc m = finish-muting spawner m.view.muted pc m
  take_turns-observer_run (task clock ∷ later) pc m =
      let (pc', m') = task_step spawner clock pc m in
      let times = passes later (pc', m') in
      take_turns-observer_run later pc' m'
      ∙ ap
          (λ b.
            muting (muted_by_turns later b) (observer_run spawner times (finish spawner pc' m')))
          (task_step-muted clock pc m)
      ∙ ap (λ x. muting (muted_by_turns later m.view.muted) (observer_run spawner times x))
          (finish-task_step spawner clock pc m)
      ∙ ap (muting (muted_by_turns later m.view.muted))
          (sym (observer_run-pass_of clock pc times m))
  take_turns-observer_run (client host req ∷ later) pc m =
      let b = muted_by req m.view.muted in
      let asked = record m { view = (dispatch host req m.view).1 } in
      let times = passes later (pc, asked) in
      let after = λ (x : Machine W).
        muting (muted_by_turns later x.view.muted)
          (observer_run spawner times (finish spawner pc x)) in
      take_turns-observer_run later pc asked
      ∙ ap (λ v. after (record m { view = v })) (dispatch-muted_by host req m.view)
      ∙ ap (λ x. muting (muted_by_turns later b) (observer_run spawner times x))
          (finish-muting spawner b pc m)
      ∙ ap (muting (muted_by_turns later b))
          (observer_run-muting spawner b times (finish spawner pc m))
