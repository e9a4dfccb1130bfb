-- ===== src/Supervisor/Examples.antt =====
-- Runs of the supervisor against a launcher that counts its calls.
use wintermute_platform.Supervisor.Launching.{IsLaunched}
use wintermute_platform.Prelude.{
  text_eq→≢, ℕ, false, List, [], ◌∷◌, some, text, text_eq, All, Pairs, get, insert, ◌≡◌, refl,
  arith,
}
use wintermute_platform.Platform.{ChildSpec, canonical_spec, from_secs}
use wintermute_platform.Platform.Tracker.{
  default_tracker, record_at, checked_sub, pop_expired, restarts_in_window,
}
use wintermute_platform.Protocol.{ChildState, pending, exited, backoff, is_exited}
use wintermute_platform.Supervisor.{
  Machine, RestartOutcome, start_specs, start_one, observer_run, observer_pass, restart_exited,
  restart_loop, restart_one, restart_now, observe_phase, observe_exits, observe_loop, observe_one,
  clear_phase, clear_expired_backoffs, remove_all, exited_names, live_pids, to_backoff, to_starting,
}
use wintermute_platform.Supervisor.Slots.{slot}
use wintermute_platform.Supervisor.Lifecycle.{PassMove, observer_run-PassMove}
use wintermute_platform.Supervisor.Scheduling.{IsScheduled, observer_pass-IsScheduled}
use wintermute_platform.Supervisor.Recovery.{restart_exited-not_exited}
use wintermute_platform.Supervisor.Stranding.{
  IsStranded, observer_run-IsStranded, failed_start_strands,
}
use wintermute_platform.Supervisor.Starting.{start_specs-IsLaunched, failed_start-stays_starting}
use wintermute_platform.Supervisor.Automaton.{
  LifeMove, CountMove, observer_run-LifeMove, observer_run-CountMove,
}
use wintermute_platform.Supervisor.Fixtures.{
  launcher, child_in, machine_of, one, two, two-IsDistinct,
}

passes_run : Pairs PassMove two (observer_run launcher (1 ∷ 2 ∷ []) (machine_of two)).view.children
passes_run = observer_run-PassMove launcher (1 ∷ 2 ∷ []) (machine_of two) two-IsDistinct

one-IsScheduled : IsScheduled one []
one-IsScheduled = record { wakes = λ n c at s. absurd (ground (arith, at, s)) }

observer_pass-IsScheduled_example :
    IsScheduled
      (observer_pass launcher 5 (machine_of one)).view.children
      (observer_pass launcher 5 (machine_of one)).backoff_until
unfolding restart_exited restart_loop restart_one restart_now exited_names clear_phase
    clear_expired_backoffs remove_all observe_phase observe_exits observe_loop observe_one live_pids
    record_at checked_sub pop_expired get insert text_eq restarts_in_window
observer_pass-IsScheduled_example =
    observer_pass-IsScheduled launcher 5 (machine_of one)
      (RestartOutcome.restarted (text "a") 100 1 ∷ []) (tt, tt) one-IsScheduled refl

restarts_run :
    All
      (λ c. is_exited c.status ≡ false)
      (restart_exited launcher 5 (machine_of two)).1.view.children
unfolding restart_exited restart_loop restart_one restart_now exited_names record_at checked_sub
    pop_expired get insert text_eq restarts_in_window
restarts_run =
    restart_exited-not_exited launcher 5 (machine_of two)
      (RestartOutcome.restarted (text "c") 100 1 ∷ []) two-IsDistinct refl

-- `a` has exited for the fifth time in a minute; `c` before it, and `b` after it, for the first.
abbrev stormy : Machine ℕ
stormy =
    record (machine_of
      (child_in (text "c") exited ∷ child_in (text "a") exited ∷ child_in (text "b") exited ∷ [])) {
        trackers = (text "a", record default_tracker { history = 1 ∷ 2 ∷ 3 ∷ 4 ∷ [] }) ∷ [];
      }

-- `c` is restarted, `a` is held back, and `b` cannot be started.
failed_start_strands_example :
    IsStranded
      (text "a")
      (to_backoff 5 (child_in (text "a") exited))
      (observer_pass launcher 5 stormy)
unfolding restart_exited restart_loop restart_one restart_now exited_names clear_phase
    clear_expired_backoffs remove_all observe_phase observe_exits observe_loop live_pids record_at
    checked_sub pop_expired get insert text_eq restarts_in_window
failed_start_strands_example =
    failed_start_strands launcher (text "a") (text "c" ∷ []) (text "b" ∷ [])
      (RestartOutcome.restarted (text "c") 100 1 ∷ []) 5 5 stormy (child_in (text "a") exited)
      (text "restart child b" ∷ text "no such binary" ∷ [])
      (
        (text_eq→≢ (text "a") (text "c") refl, (text_eq→≢ (text "b") (text "c") refl, tt)),
        ((text_eq→≢ (text "b") (text "a") refl, tt), (tt, tt)),
      )
      refl refl refl refl refl refl

abbrev waiting : ChildState
waiting = child_in (text "a") backoff

observer_run-IsStranded_example :
    IsStranded
      (text "a")
      waiting
      (observer_run launcher (from_secs 60 ∷ from_secs 600 ∷ []) (machine_of (waiting ∷ [])))
unfolding get text_eq
observer_run-IsStranded_example =
    observer_run-IsStranded launcher (text "a") waiting (from_secs 60 ∷ from_secs 600 ∷ [])
      (machine_of (waiting ∷ [])) (tt, tt) (record { at = refl; waiting = refl; no_wakeup = refl })

abbrev specs_a_c : List ChildSpec
specs_a_c = canonical_spec (text "a") ∷ canonical_spec (text "c") ∷ []

abbrev waiting_a_b_c : List ChildState
waiting_a_b_c =
    child_in (text "a") pending ∷ child_in (text "b") pending ∷ child_in (text "c") pending ∷ []

start_specs-IsLaunched_example :
    All
      (λ s.
        IsLaunched
          (start_specs launcher specs_a_c (machine_of waiting_a_b_c)).1.view.children
          s.name)
      specs_a_c
unfolding start_specs start_one text_eq
start_specs-IsLaunched_example =
    start_specs-IsLaunched launcher specs_a_c (machine_of waiting_a_b_c) refl
      ((child_in (text "a") pending, refl), ((child_in (text "c") pending, refl), tt))

failed_start-stays_starting_example :
    slot
      (text "b")
      (observer_run launcher
        (from_secs 60 ∷ from_secs 600 ∷ [])
        (start_specs launcher
          (canonical_spec (text "a") ∷ canonical_spec (text "b") ∷ canonical_spec (text "c") ∷ [])
          (machine_of waiting_a_b_c)).1).view.children
    ≡ some (to_starting (child_in (text "b") pending))
unfolding start_specs start_one text_eq
failed_start-stays_starting_example =
    failed_start-stays_starting launcher (canonical_spec (text "a") ∷ [])
      (canonical_spec (text "b")) (canonical_spec (text "c") ∷ []) (machine_of waiting_a_b_c)
      (text "start child b" ∷ text "no such binary" ∷ []) (child_in (text "b") pending)
      (from_secs 60 ∷ from_secs 600 ∷ []) refl refl refl
      (
        (text_eq→≢ (text "b") (text "a") refl, (text_eq→≢ (text "c") (text "a") refl, tt)),
        ((text_eq→≢ (text "c") (text "b") refl, tt), (tt, tt)),
      )

life_run : Pairs LifeMove two (observer_run launcher (1 ∷ 2 ∷ []) (machine_of two)).view.children
life_run = observer_run-LifeMove launcher (1 ∷ 2 ∷ []) (machine_of two) two-IsDistinct

observer_run-CountMove_example :
    Pairs CountMove two (observer_run launcher (1 ∷ 2 ∷ []) (machine_of two)).view.children
observer_run-CountMove_example =
    observer_run-CountMove launcher (1 ∷ 2 ∷ []) (machine_of two) two-IsDistinct
      (omega arith, (omega arith, tt))
