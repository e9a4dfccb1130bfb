-- ===== src/WmdInit/Launched.antt =====
-- src/bin/wmd_init.rs: the launches of the daemon, with the requests that come during them.
use wintermute_platform.Prelude.{
  true, false, List, [], ◌∷◌, ℕ, Result-cases, Bool-cases, Pairs, Pairs-refl, ◌==◌, ◌≡◌, refl, sym,
  ap, ◌∙◌, ◌⊎◌, inl, inr, subst,
}
use wintermute_platform.Platform.{canonical_spec}
use wintermute_platform.Spawn.{Spawner}
use wintermute_platform.Supervisor.{Machine, recorded}
use wintermute_platform.Supervisor.Slots.{names, IsDistinct}
use wintermute_platform.Supervisor.Control.Interleaving.{muting}
use wintermute_platform.Supervisor.Tasks.{
  Pc, launching, starting, started, resting, watching, probing, losing, visiting, restarting,
  reviving, holding, is_launching, task_step, Turn, task, client, take_turn, take_turns,
}
use wintermute_platform.Supervisor.Tasks.Passes.{finish, from_next, finish-task_step}
use wintermute_platform.Supervisor.Tasks.Requests.{finish-muting}
use wintermute_platform.Supervisor.Tasks.Course.{CourseMove, CourseMove-refl}
use wintermute_platform.Supervisor.Tasks.Moments.{take_turns-CourseMove}
use wintermute_platform.Supervisor.Control.Requests.{muted_by, dispatch-muted_by}
use wintermute_platform.WmdInit.{launched}

module _ {W : Type 0} (spawner : Spawner W) where
  -- A task that has gone beyond the launches does not come back to them.
  task_step-observing :
      (clock : ℕ) (pc : Pc) (m : Machine W)
      → is_launching pc ≡ false
      → is_launching (task_step spawner clock pc m).0 ≡ false
  unfolding task_step
  task_step-observing clock (launching specs) m h = cc
  task_step-observing clock (starting spec specs) m h = cc
  task_step-observing clock (started spec pid specs) m h = cc
  task_step-observing clock resting m h = refl
  task_step-observing clock (probing now []) m h = refl
  task_step-observing clock (probing now ((name, pid) ∷ probes)) m h =
      elim (Result-cases (spawner.still_running pid m.world).0) [
        | inr (e, q) ↦ rw (q, task_step) refl
        | inl (live, q) ↦ elim (Bool-cases live) [
          | inl l ↦ rw (q, l, task_step) refl
          | inr l ↦ rw (q, l, task_step) refl
        ]
      ]
  task_step-observing clock (restarting now [] outcomes) m h = refl
  task_step-observing clock (restarting now (n ∷ ns) outcomes) m h =
      elim (Bool-cases ((recorded n now m).1 == 0)) [
        | inr e ↦ rw (e, task_step) refl
        | inl e ↦ elim (Result-cases (spawner.start (canonical_spec n) m.world).0) [
          | inr (x, q) ↦ rw (e, q, task_step) refl
          | inl (s, q) ↦ rw (e, q, task_step) refl
        ]
      ]
  task_step-observing clock (watching now) m h = refl
  task_step-observing clock (losing now name pid probes) m h = refl
  task_step-observing clock (visiting now) m h = refl
  task_step-observing clock (reviving now n pid ns outcomes) m h = refl
  task_step-observing clock (holding now n k ns outcomes) m h = refl

  -- A step of the launches ends them at rest.
  task_step-launching :
      (clock : ℕ) (pc : Pc) (m : Machine W)
      → is_launching pc ≡ true
      → (is_launching (task_step spawner clock pc m).0 ≡ true)
        ⊎ ((task_step spawner clock pc m).0 ≡ resting)
  unfolding task_step
  task_step-launching clock (launching []) m h = inr refl
  task_step-launching clock (launching (spec ∷ specs)) m h = inl refl
  task_step-launching clock (starting spec specs) m h =
      elim (Result-cases (spawner.start spec m.world).0) [
        | inr (e, q) ↦ inr (rw (q, task_step) refl)
        | inl (s, q) ↦ inl (rw (q, task_step) refl)
      ]
  task_step-launching clock (started spec pid specs) m h = inl refl
  task_step-launching clock pc m h = cc

  take_turns-observing :
      (turns : List Turn) (pc : Pc) (m : Machine W)
      → is_launching pc ≡ false
      → is_launching (take_turns spawner turns (pc, m)).0 ≡ false
  unfolding take_turns take_turn
  take_turns-observing [] pc m h = h
  take_turns-observing (task clock ∷ later) pc m h =
      take_turns-observing later _ _ (task_step-observing clock pc m h)
  take_turns-observing (client host req ∷ later) pc m h = take_turns-observing later pc _ h

  from_next-launching :
      (clock : ℕ) (pc : Pc) (m : Machine W)
      → is_launching pc ≡ true
      → from_next spawner clock pc m ≡ finish spawner pc m
  from_next-launching clock resting m h = cc
  from_next-launching clock pc m h = refl

  rested :
      (turns : List Turn) (pc : Pc) (m : Machine W)
      → pc ≡ resting
      → IsDistinct (names (finish spawner pc m).view.children)
      → Pairs CourseMove
          (finish spawner pc m).view.children
          (launched spawner (take_turns spawner turns (pc, m))).view.children
  unfolding launched finish
  rested turns pc m over d =
      let begun = sym over in
      subst
        (λ p.
          IsDistinct (names (finish spawner p m).view.children)
          → Pairs CourseMove (finish spawner p m).view.children
              (launched spawner (take_turns spawner turns (p, m))).view.children)
        begun
        (λ d'.
          rw (take_turns-observing turns resting m refl, launched)
            (take_turns-CourseMove spawner turns resting m d' tt))
        d

  -- When the launches are over, the children are those that `start_all` leaves, and go on from
  -- there as the observer moves them.
  pub launched-CourseMove :
      (turns : List Turn) (pc : Pc) (m : Machine W)
      → is_launching pc ≡ true
      → IsDistinct (names (finish spawner pc m).view.children)
      → Pairs CourseMove
          (finish spawner pc m).view.children
          (launched spawner (take_turns spawner turns (pc, m))).view.children
  unfolding launched take_turns take_turn finish
  launched-CourseMove [] pc m h d = rw h (Pairs-refl CourseMove CourseMove-refl _)
  launched-CourseMove (task clock ∷ later) pc m h d =
      let (pc', m') = task_step spawner clock pc m in
      let same = finish-task_step spawner clock pc m ∙ from_next-launching clock pc m h in
      let d' = subst (λ (x : Machine W). IsDistinct (names x.view.children)) (sym same) d in
      subst
        (λ (x : Machine W).
          Pairs CourseMove x.view.children
            (launched spawner (take_turns spawner later (pc', m'))).view.children)
        same
        (elim (task_step-launching clock pc m h) [
          | inl on ↦ launched-CourseMove later pc' m' on d'
          | inr over ↦ rested later pc' m' over d'
        ])
  launched-CourseMove (client host req ∷ later) pc m h d =
      let b = muted_by req m.view.muted in
      let same = ap (λ (x : Machine W). x.view.children) (finish-muting spawner b pc m) in
      subst
        (λ v.
          Pairs CourseMove (finish spawner pc m).view.children
            (launched spawner (take_turns spawner later (pc, record m { view = v }))).view.children)
        (sym (dispatch-muted_by host req m.view))
        (subst
          (λ cs.
            Pairs CourseMove cs
              (launched spawner (take_turns spawner later (pc, muting b m))).view.children)
          same
          (launched-CourseMove later pc (muting b m) h
            (subst (λ cs. IsDistinct (names cs)) (sym same) d)))
