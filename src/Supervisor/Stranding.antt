-- ===== src/Supervisor/Stranding.antt =====
-- A child in backoff without a wake-up time, and how a failed start leaves one behind.
use wintermute_platform.Supervisor.Lifecycle.{
  PassMove-name, PassMove-IsLifecycle, observe_phase-Pairs, clear_phase-Pairs, PassMove-trans,
  PassMove, observer_pass-IsDistinct, restart_phase-children,
}
use wintermute_platform.Supervisor.Wakeups.{
  restart_exited-outcomes, get-remove_all, get-schedule, observe_phase-backoff_until,
  restart_exited-backoff_until,
}
use wintermute_platform.Supervisor.Observing.{observe_exits-ObserveMove, clear-ClearMove}
use wintermute_platform.Prelude.{
  ◌++◌, refl, subst, ◌∙◌, err, ok, Pairs-trans, Error, ℕ, ◌≡◌, ap, ◌≢◌, inl, inr, List, [], ◌∷◌,
  some, none, Text, TextMap, get, All, Result-cases, arith,
}
use wintermute_platform.Protocol.{backoff, ChildState}
use wintermute_platform.Spawn.{Spawner}
use wintermute_platform.Supervisor.{
  RestartOutcome, to_backoff, entered_backoff, restart_one, restart_loop, observer_run,
  observer_pass, clear_expired_backoffs, exited_names, restart_phase, clear_phase, Machine,
  observe_phase, restart_exited,
}
use wintermute_platform.Supervisor.Slots.{
  Pairs-names, IsDistinct-exited_names, slot-name, exited_names-IsExitedAt, names, IsDistinct,
  Pairs-slot_forward, IsExitedAt, slot,
}
use wintermute_platform.Supervisor.Moves.{
  RestartMove-name, ObserveMove-name, ClearMove-name, ClearMove, woken, ObserveMove, lost,
  RestartMove, restarted, held,
}
use wintermute_platform.Supervisor.Rounds.{held_slot}
use wintermute_platform.Supervisor.Restarting.{restart_exited-RestartMove}

pub record IsStranded {W : Type 0} (n : Text) (c : ChildState) (m : Machine W) : Type 0 where
  pub at : slot n m.view.children ≡ some c
  pub waiting : c.status ≡ backoff
  pub no_wakeup : get n m.backoff_until ≡ none

clear-keeps :
    (due : TextMap ℕ) (now : ℕ) (n : Text) (c d : ChildState)
    → c.name ≡ n
    → c.status ≡ backoff
    → get n due ≡ none
    → ClearMove due now c d
    → c ≡ d
clear-keeps due now n c d e s g (ClearMove.kept q p) = p
clear-keeps due now n c d e s g (woken until s' g' l p) =
    absurd (ground (arith, ap (λ k. get k due) e))

observe-keeps : (c d : ChildState) → c.status ≡ backoff → ObserveMove c d → c ≡ d
observe-keeps c d s (ObserveMove.kept p) = p
observe-keeps c d s (lost pid s' p) = absurd (ground arith)

restart-keeps : (c d : ChildState) → c.status ≡ backoff → RestartMove c d → c ≡ d
restart-keeps c d s (RestartMove.kept p) = p
restart-keeps c d s (restarted pid s' p) = absurd (ground arith)
restart-keeps c d s (held k s' p) = absurd (ground arith)

-- Names apart from that of a slot in backoff.
exited_apart :
    (n : Text) (c : ChildState) (cs : List ChildState) (ns : List Text)
    → slot n cs ≡ some c
    → c.status ≡ backoff
    → All (IsExitedAt cs) ns
    → All (λ k. k ≢ n) ns
exited_apart n c cs [] at s h = tt
exited_apart n c cs (k ∷ ns) at s h = (
  (λ e. absurd (ground (arith, ap (λ (j : Text). slot j cs) e, h.0.at, h.0.holds))),
  exited_apart n c cs ns at s h.1,
)

module _ {W : Type 0} (spawner : Spawner W) where
  clear_phase-IsStranded :
      (n : Text) (c : ChildState) (now : ℕ) (m : Machine W)
      → IsStranded n c m
      → IsStranded n c (clear_phase now m)
  unfolding clear_phase
  clear_phase-IsStranded n c now m h =
      let (d, at, move) =
        Pairs-slot_forward (ClearMove m.backoff_until now) (ClearMove-name m.backoff_until now) n _
          _ (clear-ClearMove m.backoff_until now m.view.children) c h.at in
      let name = slot-name n m.view.children c h.at in
      record {
        at = rw (clear-keeps m.backoff_until now n c d name h.waiting h.no_wakeup move) at;
        waiting = h.waiting;
        no_wakeup =
            get-remove_all n (clear_expired_backoffs m.backoff_until now m.view.children).1
              m.backoff_until h.no_wakeup;
      }

  observe_phase-IsStranded :
      (n : Text) (c : ChildState) (m : Machine W)
      → IsStranded n c m
      → IsStranded n c (observe_phase spawner m)
  unfolding observe_phase
  observe_phase-IsStranded n c m h =
      let (d, at, move) =
        Pairs-slot_forward ObserveMove ObserveMove-name n _ _ (observe_exits-ObserveMove spawner m)
          c h.at in
      record {
        at = rw (observe-keeps c d h.waiting move) at;
        waiting = h.waiting;
        no_wakeup = rw (observe_phase-backoff_until spawner m) h.no_wakeup;
      }

  restart_phase-no_wakeup :
      (n : Text) (now : ℕ) (m : Machine W)
      → All (λ k. k ≢ n) (exited_names m.view.children)
      → get n m.backoff_until ≡ none
      → get n (restart_phase spawner now m).backoff_until ≡ none
  unfolding restart_phase
  restart_phase-no_wakeup n now m a h =
      let same = restart_exited-backoff_until spawner now m in
      elim (Result-cases (restart_exited spawner now m).0) [
        | inr (e, q) ↦ rw (q, restart_phase, same) h
        | inl (outcomes, q) ↦
            rw (q, restart_phase)
              (get-schedule n now outcomes _
                (restart_exited-outcomes spawner (λ k. k ≢ n) outcomes now m a q) (rw same h))
      ]

  restart_phase-IsStranded :
      (n : Text) (c : ChildState) (now : ℕ) (m : Machine W)
      → IsDistinct (names m.view.children)
      → IsStranded n c m
      → IsStranded n c (restart_phase spawner now m)
  restart_phase-IsStranded n c now m d h =
      let (e, at, move) =
        Pairs-slot_forward RestartMove RestartMove-name n _ _
          (restart_exited-RestartMove spawner now m d) c h.at in
      let apart =
        exited_apart n c m.view.children (exited_names m.view.children) h.at h.waiting
          (exited_names-IsExitedAt m.view.children d) in
      record {
        at = rw (restart_phase-children spawner now m, restart-keeps c e h.waiting move) at;
        waiting = h.waiting;
        no_wakeup = restart_phase-no_wakeup n now m apart h.no_wakeup;
      }

  observer_pass-IsStranded :
      (n : Text) (c : ChildState) (now : ℕ) (m : Machine W)
      → IsDistinct (names m.view.children)
      → IsStranded n c m
      → IsStranded n c (observer_pass spawner now m)
  unfolding observer_pass
  observer_pass-IsStranded n c now m d h =
      let cleared = clear_phase now m in
      let first =
        Pairs-trans PassMove PassMove-trans _ _ _
          (clear_phase-Pairs spawner PassMove PassMove-IsLifecycle now m)
          (observe_phase-Pairs spawner PassMove PassMove-IsLifecycle cleared) in
      restart_phase-IsStranded n c now (observe_phase spawner cleared)
        (subst IsDistinct (Pairs-names PassMove PassMove-name _ _ first) d)
        (observe_phase-IsStranded n c cleared (clear_phase-IsStranded n c now m h))

  -- A child in backoff with no wake-up time stays as it is over any number of passes, at any times
  -- and whatever the launcher answers; the children have distinct names.
  pub observer_run-IsStranded :
      (n : Text) (c : ChildState) (times : List ℕ) (m : Machine W)
      → IsDistinct (names m.view.children)
      → IsStranded n c m
      → IsStranded n c (observer_run spawner times m)
  unfolding observer_run
  observer_run-IsStranded n c [] m d h = h
  observer_run-IsStranded n c (now ∷ later) m d h =
      observer_run-IsStranded n c later (observer_pass spawner now m)
        (observer_pass-IsDistinct spawner PassMove PassMove-IsLifecycle now m d)
        (observer_pass-IsStranded n c now m d h)

  restart_phase-err :
      (now : ℕ) (m m' : Machine W) (e : Error)
      → restart_exited spawner now m ≡ (err e, m')
      → restart_phase spawner now m ≡ m'
  unfolding restart_phase
  restart_phase-err now m m' e q =
      let answered : (restart_exited spawner now m).0 ≡ err e = ap (λ r. r.0) q in
      rw (answered, restart_phase) (ap (λ r. r.1) q)

  -- If, in a pass, a child enters backoff after the restarts before its own succeeded, and the
  -- restarts of the pass end with a failed start, the pass leaves the child in backoff with no
  -- wake-up time. The names are distinct, and the child has no wake-up time once the elapsed waits
  -- are cleared.
  pub failed_start_strands :
      (a : Text) (before rest : List Text) (os : List RestartOutcome) (k now : ℕ) (m : Machine W)
      (c : ChildState) (e : Error)
      → IsDistinct (names m.view.children)
      → get a (clear_phase now m).backoff_until ≡ none
      → slot a (observe_phase spawner (clear_phase now m)).view.children ≡ some c
      → exited_names (observe_phase spawner (clear_phase now m)).view.children ≡ before ++ a ∷ rest
      → (restart_loop spawner before [] now (observe_phase spawner (clear_phase now m))).0 ≡ ok os
      → (restart_one spawner a now
          (restart_loop spawner before [] now (observe_phase spawner (clear_phase now m))).1).0
        ≡ ok (entered_backoff a k)
      → (restart_exited spawner now (observe_phase spawner (clear_phase now m))).0 ≡ err e
      → IsStranded a (to_backoff k c) (observer_pass spawner now m)
  unfolding observer_pass restart_exited
  failed_start_strands a before rest os k now m c e d none_due at exited done held_a failed =
      let p = observe_phase spawner (clear_phase now m) in
      let distinct =
        subst IsDistinct
          (Pairs-names PassMove PassMove-name _ _ (
            Pairs-trans PassMove PassMove-trans _ _ _
              (clear_phase-Pairs spawner PassMove PassMove-IsLifecycle now m)
              (observe_phase-Pairs spawner PassMove PassMove-IsLifecycle (clear_phase now m))))
          d in
      let apart = subst IsDistinct exited (IsDistinct-exited_names p.view.children distinct) in
      let end =
        restart_phase-err now p (restart_exited spawner now p).1 e (ground (arith, failed)) in
      record {
        at = rw end (
            ap (λ ns. slot a (restart_loop spawner ns [] now p).1.view.children) exited
            ∙ held_slot spawner a before rest os k now p c apart at done held_a);
        waiting = refl;
        no_wakeup = rw end (
            ap (get a) (
              restart_exited-backoff_until spawner now p
              ∙ observe_phase-backoff_until spawner (clear_phase now m))
            ∙ none_due);
      }
