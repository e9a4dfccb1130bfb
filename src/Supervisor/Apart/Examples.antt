-- ===== src/Supervisor/Apart/Examples.antt =====
-- Children that die at once, and a child whose neighbour does.
use wintermute_platform.Prelude.{
  leb, ◌<◌, ℕ, ◌+◌, false, List, [], ◌∷◌, none, text, text_eq, get, insert, map, ok, ◌≡◌, refl, inl,
  inr, arith,
}
use wintermute_platform.Platform.{restart_storm_threshold, from_secs, canonical_children}
use wintermute_platform.Platform.Tracker.{default_tracker, record_at, pop_expired, checked_sub}
use wintermute_platform.Protocol.{running, pending_for, pending_from, backoff}
use wintermute_platform.Spawn.{Spawner}
use wintermute_platform.Supervisor.{
  clear_phase, clear_expired_backoffs, exited_names, live_pids, remove_all, schedule, start_specs,
  start_one, observe_one, observe_loop, observe_exits, observe_phase, restart_now, restart_one,
  restart_loop, restart_exited, restart_phase, RestartOutcome, observer_pass, observer_run,
  start_all, new_supervisor,
}
use wintermute_platform.Supervisor.Fixtures.{launcher, machine_of, two, two-IsDistinct, child_in}
use wintermute_platform.Supervisor.Apart.{IsLocal, local_pass}
use wintermute_platform.Supervisor.Apart.Recovers.{RunsAgain}
use wintermute_platform.Supervisor.Apart.Probes.{alive_of}
use wintermute_platform.Supervisor.Apart.Isolation.{observer_pass-local_pass}
use wintermute_platform.Supervisor.Apart.Tally.{restarts_of}
use wintermute_platform.Supervisor.Apart.Storms.{launched-lt-threshold}
use wintermute_platform.Supervisor.Apart.Served.{launched-RunsAgain}

-- Every start is answered with a PID, and no child lives until it is probed.
abbrev short_lived : Spawner ℕ
short_lived = record {
  start =
      λ spec w. (ok (record { id = spec.name; child_pid = 100 + w; supervisor_pid = 1 }), w + 1);
  still_running = λ pid w. (ok false, w);
}

abbrev hectic : List ℕ
hectic = from_secs 1 ∷ from_secs 2 ∷ from_secs 3 ∷ from_secs 4 ∷ from_secs 5 ∷ []

-- Five passes a second apart: the fifth restart of each child is delayed.
storm_run :
    map
      (λ c. c.status)
      (observer_run short_lived hectic (start_all short_lived (new_supervisor 0)).1).view.children
    ≡ backoff ∷ backoff ∷ backoff ∷ backoff ∷ backoff ∷ []
unfolding observer_run observer_pass restart_phase restart_exited restart_loop restart_one
    restart_now observe_phase observe_exits observe_loop observe_one clear_phase
    clear_expired_backoffs exited_names live_pids record_at pop_expired checked_sub get text_eq
    insert remove_all schedule new_supervisor start_all start_specs start_one canonical_children
    pending_for pending_from
storm_run = refl

abbrev before : List ℕ
before = from_secs 4 ∷ from_secs 5 ∷ []

abbrev later : List ℕ
later = from_secs 36 ∷ from_secs 66 ∷ []

launched-RunsAgain_example :
    RunsAgain short_lived
      (text "wm-audio")
      (from_secs 6 ∷ later)
      (observer_run short_lived before (start_all short_lived (new_supervisor 0)).1)
launched-RunsAgain_example =
    launched-RunsAgain short_lived (λ spec w. (_, refl)) 0 (text "wm-audio") before (from_secs 6)
      (from_secs 36) (from_secs 66) later (inl refl)
      (
        (omega arith, (omega arith, (omega arith, (omega arith, tt)))),
        (
          (omega arith, (omega arith, (omega arith, tt))),
          ((omega arith, (omega arith, tt)), ((omega arith, tt), (tt, tt))),
        ),
      )
      (inl refl) (inr (inl refl)) (omega arith) (omega arith)

-- `a`, whose PID is gone, beside `c`, which has exited.
observer_pass-local_pass_example :
    IsLocal
      (text "a")
      (observer_pass launcher 6 (machine_of two)).view.children
      (observer_pass launcher 6 (machine_of two)).trackers
      (observer_pass launcher 6 (machine_of two)).backoff_until
      (local_pass 6
        (alive_of (leb 50) (child_in (text "a") running))
        (record { status = running; tracker = default_tracker; due = none }))
unfolding restart_exited restart_loop restart_one restart_now observe_phase observe_exits
    observe_loop observe_one clear_phase clear_expired_backoffs exited_names live_pids record_at
    pop_expired checked_sub get text_eq insert remove_all
observer_pass-local_pass_example =
    observer_pass-local_pass launcher (text "a") 6 (leb 50) (λ pid w. refl) (machine_of two)
      (record { status = running; tracker = default_tracker; due = none })
      (RestartOutcome.restarted (text "a") 100 1 ∷ RestartOutcome.restarted (text "c") 101 1 ∷ [])
      two-IsDistinct refl
      (record {
        child = child_in (text "a") running;
        at = refl;
        status = refl;
        tracker = refl;
        wakes = refl;
      })

launched-lt-threshold_example :
    restarts_of
      (text "wm-audio")
      (observer_run short_lived hectic
        (observer_run short_lived [] (start_all short_lived (new_supervisor 0)).1)).view.children
    < restarts_of
        (text "wm-audio")
        (observer_run short_lived [] (start_all short_lived (new_supervisor 0)).1).view.children
      + restart_storm_threshold
launched-lt-threshold_example =
    launched-lt-threshold short_lived (text "wm-audio") 0 [] hectic (from_secs 1)
      (
        (omega arith, (omega arith, (omega arith, (omega arith, tt)))),
        (
          (omega arith, (omega arith, (omega arith, tt))),
          ((omega arith, (omega arith, tt)), ((omega arith, tt), (tt, tt))),
        ),
      )
      (refl, (refl, (refl, (refl, (refl, tt)))))
