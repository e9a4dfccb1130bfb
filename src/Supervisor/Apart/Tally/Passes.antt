-- ===== src/Supervisor/Apart/Tally/Passes.antt =====
-- The tally of a whole pass.
use wintermute_platform.Prelude.{
  get, get_or, ℕ, List, [], ◌∷◌, ◌++◌, Text, text_eq, text_eq_iff, Result-cases, Bool-cases, All,
  ◌≡◌, ◌≢◌, refl, sym, ap, ◌∙◌, inl, inr, arith,
}
use wintermute_platform.Platform.Tracker.{default_tracker}
use wintermute_platform.Spawn.{Spawner}
use wintermute_platform.Supervisor.{
  SupervisorView, RestartOutcome, Machine, clear_phase, observe_phase, restart_one, restart_loop,
  restart_exited, restart_phase, observer_pass, exited_names,
}
use wintermute_platform.Supervisor.Slots.{names, IsDistinct, IsDistinct-exited_names}
use wintermute_platform.Supervisor.Moves.{ClearMove, ClearMove-name, ObserveMove, ObserveMove-name}
use wintermute_platform.Supervisor.Observing.{clear-ClearMove, observe_exits-ObserveMove}
use wintermute_platform.Supervisor.Lifecycle.{restart_phase-children}
use wintermute_platform.Supervisor.Apart.Passes.{observe_phase-trackers}
use wintermute_platform.Supervisor.Apart.Isolation.{restart_phase-trackers, observed-IsDistinct}
use wintermute_platform.Supervisor.Apart.Tally.{
  restarts_of, tracker_of, IsTallied, untried, tried, Pairs-restarts_of, ClearMove-restart_count,
  ObserveMove-restart_count, other-untried, own-IsTallied,
}

-- The tracker and the restarts of the child are the same in both machines.
record IsSame {W : Type 0} (n : Text) (m m' : Machine W) : Type 0 where
  tracker : tracker_of n m' ≡ tracker_of n m
  restarts : restarts_of n m'.view.children ≡ restarts_of n m.view.children

module _ {W : Type 0} (n : Text) where
  IsSame-trans : (m₀ m₁ m₂ : Machine W) → IsSame n m₀ m₁ → IsSame n m₁ m₂ → IsSame n m₀ m₂
  IsSame-trans m₀ m₁ m₂ s r = record {
    tracker = r.tracker ∙ s.tracker;
    restarts = r.restarts ∙ s.restarts;
  }

  IsSame-IsTallied :
      (now : ℕ) (m₀ m₁ m₂ : Machine W)
      → IsSame n m₀ m₁
      → IsTallied n now m₁ m₂
      → IsTallied n now m₀ m₂
  IsSame-IsTallied now m₀ m₁ m₂ s (untried t c) = untried (t ∙ s.tracker) (c ∙ s.restarts)
  IsSame-IsTallied now m₀ m₁ m₂ s (tried t c) =
      tried (rw (← s.tracker) t) (rw (← s.tracker, ← s.restarts) c)

  IsTallied-IsSame :
      (now : ℕ) (m₀ m₁ m₂ : Machine W)
      → IsTallied n now m₀ m₁
      → IsSame n m₁ m₂
      → IsTallied n now m₀ m₂
  IsTallied-IsSame now m₀ m₁ m₂ (untried t c) s = untried (s.tracker ∙ t) (s.restarts ∙ c)
  IsTallied-IsSame now m₀ m₁ m₂ (tried t c) s = tried (s.tracker ∙ t) (rw s.restarts c)

module _ {W : Type 0} (spawner : Spawner W) (n : Text) (now : ℕ) where
  other-IsSame :
      (name : Text) (m : Machine W) → n ≢ name → IsSame n m (restart_one spawner name now m).1
  other-IsSame name m apart =
      let (t, c) = other-untried spawner n now name m apart in record { tracker = t; restarts = c }

  restart_loop-IsSame :
      (ns : List Text) (os : List RestartOutcome) (m : Machine W)
      → All (λ k. k ≢ n) ns
      → IsSame n m (restart_loop spawner ns os now m).1
  unfolding restart_loop
  restart_loop-IsSame [] os m apart = record { tracker = refl; restarts = refl }
  restart_loop-IsSame (k ∷ ns) os m apart =
      let round = other-IsSame k m (λ e. apart.0 (sym e)) in
      elim (Result-cases (restart_one spawner k now m).0) [
        | inr (e, q) ↦ rw (q, restart_loop) round
        | inl (o, q) ↦
            rw (q, restart_loop)
              (IsSame-trans n _ _ _ round
                (restart_loop-IsSame ns (os ++ o ∷ []) (restart_one spawner k now m).1 apart.1))
      ]

  restart_loop-IsTallied :
      (ns : List Text) (os : List RestartOutcome) (m : Machine W)
      → IsDistinct ns
      → IsTallied n now m (restart_loop spawner ns os now m).1
  unfolding restart_loop
  restart_loop-IsTallied [] os m d = untried refl refl
  restart_loop-IsTallied (k ∷ ns) os m d = elim (Bool-cases (text_eq k n)) [
    | inl own ↦
        let same : k ≡ n = (text_eq_iff k n).0 own in
        let round = own-IsTallied spawner n now m in
        rw same (elim (Result-cases (restart_one spawner n now m).0) [
          | inr (e, q) ↦ rw (q, restart_loop) round
          | inl (o, q) ↦
              rw (q, restart_loop)
                (IsTallied-IsSame n now _ _ _ round (
                  restart_loop-IsSame ns (os ++ o ∷ []) (restart_one spawner n now m).1
                    (rw (← same) d.0)))
        ])
    | inr other ↦
        let round = other-IsSame k m (λ e. absurd (ground (arith, e, other, text_eq_iff k n))) in
        elim (Result-cases (restart_one spawner k now m).0) [
          | inr (e, q) ↦ rw (q, restart_loop) (untried round.tracker round.restarts)
          | inl (o, q) ↦
              rw (q, restart_loop)
                (IsSame-IsTallied n now _ _ _ round
                  (restart_loop-IsTallied ns (os ++ o ∷ []) (restart_one spawner k now m).1 d.1))
        ]
  ]

  clear_phase-IsSame : (m : Machine W) → IsSame n m (clear_phase now m)
  unfolding clear_phase
  clear_phase-IsSame m = record {
    tracker = refl;
    restarts =
        Pairs-restarts_of (ClearMove m.backoff_until now) (ClearMove-name m.backoff_until now)
          (ClearMove-restart_count m.backoff_until now) n _ _
          (clear-ClearMove m.backoff_until now m.view.children);
  }

  observe_phase-IsSame : (m : Machine W) → IsSame n m (observe_phase spawner m)
  unfolding observe_phase
  observe_phase-IsSame m = record {
    tracker = ap (λ t. get_or default_tracker (get n t)) (observe_phase-trackers spawner m);
    restarts =
        Pairs-restarts_of ObserveMove ObserveMove-name ObserveMove-restart_count n _ _
          (observe_exits-ObserveMove spawner m);
  }

  restart_phase-IsTallied :
      (m : Machine W)
      → IsDistinct (names m.view.children)
      → IsTallied n now m (restart_phase spawner now m)
  unfolding restart_exited
  restart_phase-IsTallied m d =
      IsTallied-IsSame n now m (restart_exited spawner now m).1 (restart_phase spawner now m)
        (restart_loop-IsTallied (exited_names m.view.children) [] m
          (IsDistinct-exited_names m.view.children d))
        (record {
          tracker =
              ap (λ t. get_or default_tracker (get n t)) (restart_phase-trackers spawner n now m);
          restarts =
              ap (λ (v : SupervisorView). restarts_of n v.children)
                (restart_phase-children spawner now m);
        })

  pub observer_pass-IsTallied :
      (m : Machine W)
      → IsDistinct (names m.view.children)
      → IsTallied n now m (observer_pass spawner now m)
  unfolding observer_pass
  observer_pass-IsTallied m d =
      IsSame-IsTallied n now m _ _
        (IsSame-trans n m _ _ (clear_phase-IsSame m) (observe_phase-IsSame (clear_phase now m)))
        (restart_phase-IsTallied (observe_phase spawner (clear_phase now m))
          (observed-IsDistinct spawner n now m d))
