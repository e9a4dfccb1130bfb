-- ===== src/Supervisor/Apart/Isolation.antt =====
-- A whole pass, seen from one child.
use wintermute_platform.Supervisor.Observing.{clear-ClearMove}
use wintermute_platform.Supervisor.Wakeups.{observe_phase-backoff_until}
use wintermute_platform.Supervisor.Moves.{woken, ClearMove-name, ClearMove}
use wintermute_platform.Prelude.{
  Option-cases, sym, get, some, get_or, [], ℕ, Bool, List, Text, Bool-cases, ok, refl, inl, inr,
  ◌≡◌, ap, ◌∙◌, subst, arith,
}
use wintermute_platform.Protocol.{is_running, ChildState, is_exited}
use wintermute_platform.Spawn.{Spawner}
use wintermute_platform.Supervisor.{
  default_tracker, RestartOutcome, Machine, schedule, clear_phase, observe_phase, restart_exited,
  restart_phase, observer_pass, exited_names,
}
use wintermute_platform.Supervisor.Slots.{
  Pairs-slot_forward, names, IsDistinct, IsDistinct-exited_names, exited_names-IsExitedAt,
  is_exited_slot, Pairs-names,
}
use wintermute_platform.Supervisor.Scheduling.{apart_of_IsAt, restart_phase-ok}
use wintermute_platform.Supervisor.Lifecycle.{
  restart_phase-children, PassMove, PassMove-name, PassMove-IsLifecycle, clear_phase-Pairs,
  observe_phase-Pairs,
}
use wintermute_platform.Supervisor.Apart.{
  slot, Local, IsLocal, local_clear, local_observe, local_restart, local_pass,
}
use wintermute_platform.Supervisor.Apart.Probes.{
  Answers, alive_of, observed, observe_phase-observed,
}
use wintermute_platform.Supervisor.Apart.Restarts.{restart_loop-own, restart_loop-other}
use wintermute_platform.Supervisor.Apart.Passes.{
  observe_phase-trackers, exited-IsElem, clear_phase-IsLocal, observe_phase-IsLocal,
}

module _ {W : Type 0} (spawner : Spawner W) (n : Text) (now : ℕ) where
  restart_exited-IsLocal :
      (m : Machine W) (l : Local) (outcomes : List RestartOutcome)
      → IsDistinct (names m.view.children)
      → (restart_exited spawner now m).0 ≡ ok outcomes
      → IsLocal n m.view.children m.trackers m.backoff_until l
      → IsLocal n
          (restart_exited spawner now m).1.view.children
          (restart_exited spawner now m).1.trackers
          (schedule now outcomes m.backoff_until)
          (local_restart now l)
  unfolding restart_exited
  restart_exited-IsLocal m l outcomes d q s = elim (Bool-cases (is_exited l.status)) [
    | inl e ↦ rw e (
        restart_loop-own spawner n now (exited_names m.view.children) m [] outcomes m.backoff_until
          l (IsDistinct-exited_names m.view.children d)
          (exited-IsElem n m.view.children s.child s.at (ap is_exited s.status ∙ e)) q
          (unfold schedule in s))
    | inr e ↦ rw e (
        restart_loop-other spawner n now (exited_names m.view.children) m [] outcomes
          m.backoff_until l
          (apart_of_IsAt is_exited_slot n s.child m.view.children _ s.at (ap is_exited s.status ∙ e)
            (exited_names-IsExitedAt m.view.children d))
          q (unfold schedule in s))
  ]

  pub restart_phase-trackers :
      (m : Machine W)
      → (restart_phase spawner now m).trackers ≡ (restart_exited spawner now m).1.trackers
  unfolding restart_phase
  restart_phase-trackers m = ground arith

  restart_phase-IsLocal :
      (m : Machine W) (l : Local) (outcomes : List RestartOutcome)
      → IsDistinct (names m.view.children)
      → (restart_exited spawner now m).0 ≡ ok outcomes
      → IsLocal n m.view.children m.trackers m.backoff_until l
      → IsLocal n
          (restart_phase spawner now m).view.children
          (restart_phase spawner now m).trackers
          (restart_phase spawner now m).backoff_until
          (local_restart now l)
  restart_phase-IsLocal m l outcomes d q s =
      rw
        (
          restart_phase-children spawner now m,
          restart_phase-trackers m,
          restart_phase-ok spawner now m outcomes q,
        )
        (restart_exited-IsLocal m l outcomes d q s)

  cleared-IsDistinct :
      (m : Machine W)
      → IsDistinct (names m.view.children)
      → IsDistinct (names (clear_phase now m).view.children)
  cleared-IsDistinct m d =
      subst IsDistinct
        (Pairs-names PassMove PassMove-name _ _
          (clear_phase-Pairs spawner PassMove PassMove-IsLifecycle now m))
        d

  pub observed-IsDistinct :
      (m : Machine W)
      → IsDistinct (names m.view.children)
      → IsDistinct (names (observe_phase spawner (clear_phase now m)).view.children)
  observed-IsDistinct m d =
      let cleared = clear_phase-Pairs spawner PassMove PassMove-IsLifecycle now m in
      let seen = observe_phase-Pairs spawner PassMove PassMove-IsLifecycle (clear_phase now m) in
      subst IsDistinct
        (Pairs-names PassMove PassMove-name _ _ cleared
          ∙ Pairs-names PassMove PassMove-name _ _ seen)
        d

  pub observer_pass-IsLocal :
      (m : Machine W) (l : Local) (outcomes : List RestartOutcome)
      → IsDistinct (names m.view.children)
      → (restart_exited spawner now (observe_phase spawner (clear_phase now m))).0 ≡ ok outcomes
      → IsLocal n m.view.children m.trackers m.backoff_until l
      → (alive : Bool) × IsLocal n
          (observer_pass spawner now m).view.children
          (observer_pass spawner now m).trackers
          (observer_pass spawner now m).backoff_until
          (local_pass now alive l)
  unfolding observer_pass
  observer_pass-IsLocal m l outcomes d q s =
      let (alive, seen) =
        observe_phase-IsLocal spawner n (clear_phase now m) (local_clear now l)
          (clear_phase-IsLocal n now m l d s) in
      (
        alive,
        restart_phase-IsLocal (observe_phase spawner (clear_phase now m))
            (local_observe alive (local_clear now l)) outcomes (observed-IsDistinct m d) q seen,
      )

-- The same, of the status that the child's own probe leaves.
observed-local_observe :
    (lives : ℕ → Bool) (c : ChildState) (l : Local)
    → c.status ≡ l.status
    → (observed lives c).status ≡ (local_observe (alive_of lives c) l).status
observed-local_observe lives c l s = elim (Bool-cases (is_running c.status)) [
  | inr r ↦ rw r (s ∙ ground (arith, r, s))
  | inl r ↦ elim (Option-cases c.child_pid) [
    | inl q ↦ rw (r, q) (s ∙ ground arith)
    | inr (pid, q) ↦ elim (Bool-cases (lives pid)) [
      | inl a ↦ rw (r, q, a) (s ∙ ground arith)
      | inr a ↦ rw (r, q, a, ← s) (rw r refl)
    ]
  ]
]

module _ {W : Type 0} (spawner : Spawner W) (n : Text) (now : ℕ) (lives : ℕ → Bool)
    (answers : Answers spawner lives) where
  -- The child of a slot keeps its PID while waits end.
  cleared-child :
      (m : Machine W) (c c' : ChildState)
      → slot n m.view.children ≡ some c
      → slot n (clear_phase now m).view.children ≡ some c'
      → alive_of lives c' ≡ alive_of lives c
  unfolding clear_phase
  cleared-child m c c' at at' =
      let (e, found, move) =
        Pairs-slot_forward (ClearMove m.backoff_until now) (ClearMove-name m.backoff_until now) n _
          _ (clear-ClearMove m.backoff_until now m.view.children) c at in
      let same : e ≡ c' = ground (arith, found, at') in
      elim move [
        | ClearMove.kept q x ↦ ap (alive_of lives) (sym same ∙ sym x)
        | woken until b g le x ↦ ap (alive_of lives) (sym same ∙ x)
      ]

  observe_phase-own_probe :
      (m : Machine W) (l : Local)
      → IsDistinct (names m.view.children)
      → (s : IsLocal n m.view.children m.trackers m.backoff_until l)
      → IsLocal n
          (observe_phase spawner m).view.children
          (observe_phase spawner m).trackers
          (observe_phase spawner m).backoff_until
          (local_observe (alive_of lives s.child) l)
  observe_phase-own_probe m l d s = record {
    child = observed lives s.child;
    at = observe_phase-observed spawner lives answers n m s.child d s.at;
    status = observed-local_observe lives s.child l s.status;
    tracker =
        ap (λ t. get_or default_tracker (get n t)) (observe_phase-trackers spawner m)
        ∙ s.tracker
        ∙ ground arith;
    wakes = ap (get n) (observe_phase-backoff_until spawner m) ∙ s.wakes ∙ ground arith;
  }

  -- A pass in which no start and no probe fails makes of a child's status, tracker and wake-up time
  -- what a pass over that child alone makes of them, with the answer to the probe of its own PID, and
  -- whatever the other children are and the probes of their PIDs answer. The launcher answers a probe
  -- by its PID alone. The names are distinct.
  pub observer_pass-local_pass :
      (m : Machine W) (l : Local) (outcomes : List RestartOutcome)
      → IsDistinct (names m.view.children)
      → (restart_exited spawner now (observe_phase spawner (clear_phase now m))).0 ≡ ok outcomes
      → (s : IsLocal n m.view.children m.trackers m.backoff_until l)
      → IsLocal n
          (observer_pass spawner now m).view.children
          (observer_pass spawner now m).trackers
          (observer_pass spawner now m).backoff_until
          (local_pass now (alive_of lives s.child) l)
  unfolding observer_pass
  observer_pass-local_pass m l outcomes d q s =
      let cleared = clear_phase-IsLocal n now m l d s in
      let seen =
        observe_phase-own_probe (clear_phase now m) (local_clear now l)
          (cleared-IsDistinct spawner n now m d) cleared in
      let own = cleared-child m s.child cleared.child s.at cleared.at in
      restart_phase-IsLocal spawner n now (observe_phase spawner (clear_phase now m))
        (local_observe (alive_of lives s.child) (local_clear now l)) outcomes
        (observed-IsDistinct spawner n now m d) q
        (subst
          (λ alive.
            IsLocal n (observe_phase spawner (clear_phase now m)).view.children
              (observe_phase spawner (clear_phase now m)).trackers
              (observe_phase spawner (clear_phase now m)).backoff_until
              (local_observe alive (local_clear now l)))
          own seen)
