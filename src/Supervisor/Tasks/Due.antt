-- ===== src/Supervisor/Tasks/Due.antt =====
-- What a step of the task does to the children, and what the task relies on at each step.
use wintermute_platform.Prelude.{
  ℕ, true, List, [], ◌∷◌, map, Text, ◌==◌, Bool-cases, Result-cases, All, Pairs, Pairs-refl, ◌≡◌,
  refl, inl, inr, arith,
}
use wintermute_platform.Platform.{ChildSpec, canonical_spec}
use wintermute_platform.Protocol.{ChildStatus, pending, running, ChildState}
use wintermute_platform.Spawn.{Spawner}
use wintermute_platform.Supervisor.{
  RestartOutcome, Machine, to_starting, to_running, to_exited, to_restarted, to_backoff,
  running_named, recorded,
}
use wintermute_platform.Supervisor.Slots.{
  names, IsDistinct, IsAt, is_exited_slot, IsExitedAt, IsDistinct-exited_names,
  exited_names-IsExitedAt, Pairs-update_found,
}
use wintermute_platform.Supervisor.Moves.{is_exited→≡}
use wintermute_platform.Supervisor.Observing.{found_satisfies, running_named-status}
use wintermute_platform.Supervisor.Lifecycle.{IsLifecycle, clear_phase-Pairs}
use wintermute_platform.Supervisor.Automaton.{exits, restarts, waits, LifeMove-IsLifecycle}
use wintermute_platform.Supervisor.Tasks.{
  Pc, launching, starting, started, resting, watching, probing, losing, visiting, restarting,
  reviving, holding, task_step,
}
use wintermute_platform.Supervisor.Tasks.Course.{
  CourseMove, CourseMove-refl, CourseMove-trans, LifeMove-CourseMove, here, goes, begins, runs,
  tends, is_pending_slot, is_starting_slot, slot_moves, others_stay, slot_becomes,
}

abbrev pub spec_names : List ChildSpec → List Text
spec_names = map (λ s. s.name)

-- What the task relies on: the slots that it is about to change are as it found them.
abbrev pub IsDue : Pc → List ChildState → Type 0
IsDue (launching specs) cs =
    IsDistinct (spec_names specs) × All (IsAt is_pending_slot cs) (spec_names specs)
IsDue (starting spec specs) cs =
    IsDistinct (spec.name ∷ spec_names specs)
    × IsAt is_starting_slot cs spec.name
    × All (IsAt is_pending_slot cs) (spec_names specs)
IsDue (started spec pid specs) cs =
    IsDistinct (spec.name ∷ spec_names specs)
    × IsAt is_starting_slot cs spec.name
    × All (IsAt is_pending_slot cs) (spec_names specs)
IsDue (restarting now ns outcomes) cs = IsDistinct ns × All (IsExitedAt cs) ns
IsDue (reviving now n pid ns outcomes) cs = IsDistinct (n ∷ ns) × All (IsExitedAt cs) (n ∷ ns)
IsDue (holding now n k ns outcomes) cs = IsDistinct (n ∷ ns) × All (IsExitedAt cs) (n ∷ ns)
IsDue _ cs = Unit

CourseMove-IsLifecycle : IsLifecycle CourseMove
CourseMove-IsLifecycle = record {
  same = CourseMove-refl;
  then_too = CourseMove-trans;
  keeps_name = λ c d h. h.0;
  on_clear = λ due now c d h. LifeMove-CourseMove c d (LifeMove-IsLifecycle.on_clear due now c d h);
  on_observe = λ c d h. LifeMove-CourseMove c d (LifeMove-IsLifecycle.on_observe c d h);
  on_restart = λ c d h. LifeMove-CourseMove c d (LifeMove-IsLifecycle.on_restart c d h);
}

to_starting-CourseMove : (c : ChildState) → is_pending_slot c ≡ true → CourseMove c (to_starting c)
to_starting-CourseMove c h =
    let s : c.status ≡ pending = ground arith in rw s (refl, goes here (begins _))

to_running-CourseMove :
    (pid : ℕ) (c : ChildState) → is_starting_slot c ≡ true → CourseMove c (to_running pid c)
to_running-CourseMove pid c h =
    let s : c.status ≡ ChildStatus.starting = ground arith in rw s (refl, goes here (runs _))

to_restarted-CourseMove :
    (pid : ℕ) (c : ChildState) → is_exited_slot c ≡ true → CourseMove c (to_restarted pid c)
to_restarted-CourseMove pid c h =
    let s = is_exited→≡ c.status h in rw s (refl, goes here (tends (restarts _)))

to_backoff-CourseMove :
    (k : ℕ) (c : ChildState) → is_exited_slot c ≡ true → CourseMove c (to_backoff k c)
to_backoff-CourseMove k c h =
    let s = is_exited→≡ c.status h in rw s (refl, goes here (tends (waits _)))

to_exited-CourseMove :
    (pid : ℕ) (c : ChildState) → c.status ≡ running → CourseMove c (to_exited pid c)
to_exited-CourseMove pid c s = rw s (refl, goes here (tends (exits _)))

pub still : (cs : List ChildState) → Pairs CourseMove cs cs
still = Pairs-refl CourseMove CourseMove-refl

module _ {W : Type 0} (spawner : Spawner W) where
  -- One step, and what is due after it.
  abbrev pub Goes : ℕ → Pc → Machine W → Type 0
  Goes clock pc m =
      Pairs CourseMove m.view.children (task_step spawner clock pc m).1.view.children
      × IsDue (task_step spawner clock pc m).0 (task_step spawner clock pc m).1.view.children

  starting-Goes :
      (clock : ℕ) (spec : ChildSpec) (specs : List ChildSpec) (m : Machine W)
      → IsDue (starting spec specs) m.view.children
      → Goes clock (starting spec specs) m
  unfolding task_step
  starting-Goes clock spec specs m due = elim (Result-cases (spawner.start spec m.world).0) [
    | inr (e, q) ↦ rw (q, task_step) (still m.view.children, tt)
    | inl (s, q) ↦ rw (q, task_step) (still m.view.children, due)
  ]

  probing-Goes :
      (clock now : ℕ) (name : Text) (pid : ℕ) (probes : List (Text × ℕ)) (m : Machine W)
      → Goes clock (probing now ((name, pid) ∷ probes)) m
  unfolding task_step
  probing-Goes clock now name pid probes m =
      elim (Result-cases (spawner.still_running pid m.world).0) [
        | inr (e, q) ↦ rw (q, task_step) (still m.view.children, tt)
        | inl (live, q) ↦ elim (Bool-cases live) [
          | inl l ↦ rw (q, l, task_step) (still m.view.children, tt)
          | inr l ↦ rw (q, l, task_step) (still m.view.children, tt)
        ]
      ]

  restarting-Goes :
      (clock now : ℕ) (n : Text) (ns : List Text) (outcomes : List RestartOutcome) (m : Machine W)
      → IsDue (restarting now (n ∷ ns) outcomes) m.view.children
      → Goes clock (restarting now (n ∷ ns) outcomes) m
  unfolding task_step
  restarting-Goes clock now n ns outcomes m due = elim (Bool-cases ((recorded n now m).1 == 0)) [
    | inr e ↦ rw (e, task_step) (still m.view.children, due)
    | inl e ↦ elim (Result-cases (spawner.start (canonical_spec n) m.world).0) [
      | inr (x, q) ↦ rw (e, q, task_step) (still m.view.children, tt)
      | inl (s, q) ↦ rw (e, q, task_step) (still m.view.children, due)
    ]
  ]

  pub task_step-Goes :
      (clock : ℕ) (pc : Pc) (m : Machine W)
      → IsDistinct (names m.view.children)
      → IsDue pc m.view.children
      → Goes clock pc m
  unfolding task_step
  task_step-Goes clock (launching []) m d due = (still m.view.children, tt)
  task_step-Goes clock (launching (spec ∷ specs)) m d due = (
    slot_moves is_pending_slot to_starting (λ c. refl) spec.name m.view.children
        to_starting-CourseMove due.1.0,
    (
      due.0,
      slot_becomes is_pending_slot to_starting (λ c. refl) is_starting_slot spec.name
          m.view.children (λ c. refl) due.1.0,
      others_stay is_pending_slot to_starting (λ c. refl) is_pending_slot spec.name m.view.children
          (spec_names specs) due.0.0 due.1.1,
    ),
  )
  task_step-Goes clock (starting spec specs) m d due = starting-Goes clock spec specs m due
  task_step-Goes clock (started spec pid specs) m d due = (
    slot_moves is_starting_slot (to_running pid) (λ c. refl) spec.name m.view.children
        (to_running-CourseMove pid) due.1,
    (
      due.0.1,
      others_stay is_starting_slot (to_running pid) (λ c. refl) is_pending_slot spec.name
          m.view.children (spec_names specs) due.0.0 due.2,
    ),
  )
  task_step-Goes clock resting m d due =
      (clear_phase-Pairs spawner CourseMove CourseMove-IsLifecycle clock m, tt)
  task_step-Goes clock (watching now) m d due = (still m.view.children, tt)
  task_step-Goes clock (probing now []) m d due = (still m.view.children, tt)
  task_step-Goes clock (probing now ((name, pid) ∷ probes)) m d due =
      probing-Goes clock now name pid probes m
  task_step-Goes clock (losing now name pid probes) m d due = (
    Pairs-update_found CourseMove (running_named name) (to_exited pid) CourseMove-refl
        m.view.children
        λ c at.
          to_exited-CourseMove pid c
            (running_named-status name c (found_satisfies _ m.view.children c at)),
    tt,
  )
  task_step-Goes clock (visiting now) m d due = (
    still m.view.children,
    (IsDistinct-exited_names m.view.children d, exited_names-IsExitedAt m.view.children d),
  )
  task_step-Goes clock (restarting now [] outcomes) m d due = (still m.view.children, tt)
  task_step-Goes clock (restarting now (n ∷ ns) outcomes) m d due =
      restarting-Goes clock now n ns outcomes m due
  task_step-Goes clock (reviving now n pid ns outcomes) m d due = (
    slot_moves is_exited_slot (to_restarted pid) (λ c. refl) n m.view.children
        (to_restarted-CourseMove pid) due.1.0,
    (
      due.0.1,
      others_stay is_exited_slot (to_restarted pid) (λ c. refl) is_exited_slot n m.view.children ns
          due.0.0 due.1.1,
    ),
  )
  task_step-Goes clock (holding now n k ns outcomes) m d due = (
    slot_moves is_exited_slot (to_backoff k) (λ c. refl) n m.view.children (to_backoff-CourseMove k)
        due.1.0,
    (
      due.0.1,
      others_stay is_exited_slot (to_backoff k) (λ c. refl) is_exited_slot n m.view.children ns
          due.0.0 due.1.1,
    ),
  )
