-- ===== src/WmdInit/Children.antt =====
-- src/bin/wmd_init.rs: the children of the daemon, from its start to its end.
use wintermute_platform.Prelude.{
  Option, map, true, false, List, [], ◌∷◌, Text, All, All-map, Pairs, some, none, ok, err, ◌≡◌,
  refl, sym, ap, ◌∙◌, subst, Result,
}
use wintermute_platform.Platform.{child_startup_order, canonical_children}
use wintermute_platform.Protocol.{ChildState, SupervisorView, pending_from}
use wintermute_platform.Spawn.{Spawner}
use wintermute_platform.Supervisor.{Machine, new_supervisor, start_all}
use wintermute_platform.Supervisor.Slots.{names, IsDistinct, Pairs-names, Pairs-slot_forward}
use wintermute_platform.Supervisor.Launching.{IsLaunched}
use wintermute_platform.Supervisor.Boot.{
  IsTended, start_all-IsLaunched, start_all-names, startup_order-IsDistinct,
  new_supervisor-children,
}
use wintermute_platform.Supervisor.Control.Requests.{dispatch-muted_by}
use wintermute_platform.Supervisor.Tasks.{
  launching, resting, Turn, task, client, take_turn, take_turns,
}
use wintermute_platform.Supervisor.Tasks.Course.{CourseMove, Course-observed}
use wintermute_platform.WmdInit.Launched.{launched-CourseMove}
use wintermute_platform.WmdInit.{
  EnvConfig, Ended, refused, no_bootstrap, stopped, shut_down, run_loaded, run, CliArgs, InitHost,
  booted, launched, lived, clients_of,
}

abbrev children_of : {W : Type 0} → Ended W → List ChildState
children_of (refused e) = []
children_of no_bootstrap = []
children_of (stopped r m) = m.view.children

-- What was launched is tended after any moves.
tended :
    (cs ds : List ChildState)
    → Pairs CourseMove cs ds
    → (n : Text) → IsLaunched cs n
    → IsTended ds n
tended cs ds moves n h =
    let (d, at, move) = Pairs-slot_forward CourseMove (λ c d k. k.0) n cs ds moves h.child h.at in
    record { child = d; at = at; status = Course-observed move.1 (rw h.status refl) }

module _ {W : Type 0} (spawner : Spawner W) (host : InitHost W) where
  shut_down-children :
      (signal : Result (Unit {0})) (m : Machine W)
      → children_of (shut_down spawner host signal m) ≡ m.view.children
  unfolding shut_down
  shut_down-children (err e) m = refl
  shut_down-children (ok _) m = refl

  run_loaded-lived :
      (loaded : Result (Option EnvConfig)) (cli : CliArgs) (turns : List Turn) (w : W)
      (r : Result (Unit {0})) (m : Machine W)
      → run_loaded spawner host loaded cli turns w ≡ stopped r m
      → (lived spawner cli turns w).view.children ≡ m.view.children
  unfolding run_loaded
  run_loaded-lived (err e) cli turns w r m h = cc
  run_loaded-lived (ok none) cli turns w r m h = cc
  run_loaded-lived (ok (some cfg)) cli turns w r m h =
      sym (shut_down-children host.term_signal (lived spawner cli turns w)) ∙ ap children_of h

  pub run-lived :
      (cli : CliArgs) (turns : List Turn) (w : W) (r : Result (Unit {0})) (m : Machine W)
      → run spawner host cli turns w ≡ stopped r m
      → (lived spawner cli turns w).view.children ≡ m.view.children
  unfolding run
  run-lived cli turns w r m h = run_loaded-lived _ cli turns w r m h

  -- After a start with `--spawn` in which all five children start, whatever the launcher answers
  -- later, whatever the clients ask for and however their requests come between the steps of the
  -- launches and of the passes, the daemon ends with the five canonical children in their startup
  -- order, and each of them is running, exited or in backoff.
  pub run-IsTended :
      (cli : CliArgs) (turns : List Turn) (w : W) (r : Result (Unit {0})) (m : Machine W)
      → cli.spawn ≡ true
      → (start_all spawner (new_supervisor w)).0 ≡ ok tt
      → run spawner host cli turns w ≡ stopped r m
      → (names m.view.children ≡ child_startup_order)
        × All (IsTended m.view.children) child_startup_order
  unfolding lived booted start_all
  run-IsTended cli turns w r m spawn started h =
      let begun = (start_all spawner (new_supervisor w)).1 in
      let distinct = subst IsDistinct (sym (start_all-names spawner w)) startup_order-IsDistinct in
      let moves : Pairs CourseMove begun.view.children (lived spawner cli turns w).view.children =
        rw (spawn, lived, booted)
          (launched-CourseMove spawner turns (launching canonical_children) (new_supervisor w) refl
            distinct) in
      rw (← run-lived cli turns w r m h) (
        sym (Pairs-names CourseMove (λ c d k. k.0) _ _ moves) ∙ start_all-names spawner w,
        All-map _ _ (tended _ _ moves) child_startup_order (start_all-IsLaunched spawner w started),
      )

  -- Clients alone move neither the task nor a child.
  clients_only :
      (turns : List Turn) (m : Machine W)
      → (launched spawner (take_turns spawner (clients_of turns) (resting, m))).view.children
        ≡ m.view.children
  unfolding launched take_turns take_turn
  clients_only [] m = refl
  clients_only (task clock ∷ later) m = clients_only later m
  clients_only (client logs req ∷ later) m =
      clients_only later _
      ∙ ap (λ (v : SupervisorView). v.children) (dispatch-muted_by logs req m.view)

  -- Without `--spawn`, the daemon ends with the five canonical children pending, as it made them,
  -- whatever the clients ask for.
  pub run-pending :
      (cli : CliArgs) (turns : List Turn) (w : W) (r : Result (Unit {0})) (m : Machine W)
      → cli.spawn ≡ false
      → run spawner host cli turns w ≡ stopped r m
      → m.view.children ≡ map pending_from canonical_children
  unfolding lived booted
  run-pending cli turns w r m spawn h =
      sym (run-lived cli turns w r m h)
      ∙ rw (spawn, lived, booted) (clients_only turns (new_supervisor w))
      ∙ new_supervisor-children spawner w
