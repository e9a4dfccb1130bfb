-- ===== src/Supervisor/Tasks/Pids.antt =====
-- The PIDs in the slots, at every moment.
use wintermute_platform.Prelude.{
  true, ◌≡◌, ℕ, List, [], ◌∷◌, Text, ◌==◌, Bool-cases, Result-cases, All, refl, sym, subst, inl,
  inr,
}
use wintermute_platform.Platform.{canonical_spec}
use wintermute_platform.Spawn.{Spawner}
use wintermute_platform.Supervisor.{
  Machine, named, to_starting, to_running, to_exited, to_restarted, to_backoff, running_named,
  recorded, clear_phase,
}
use wintermute_platform.Supervisor.Lifecycle.{Pairs-map}
use wintermute_platform.Supervisor.Observing.{clear-ClearMove}
use wintermute_platform.Supervisor.Pids.{
  start_specs-IsAttested, IsAttested, GivesOnly, All-Pairs, demoted, given, updated,
  ClearMove-IsAttested,
}
use wintermute_platform.Supervisor.Control.Requests.{muted_by, with_muted, dispatch-muted_by}
use wintermute_platform.Supervisor.Tasks.Passes.{finish}
use wintermute_platform.Supervisor.Tasks.{
  Pc, launching, starting, started, resting, watching, probing, losing, visiting, restarting,
  reviving, holding, task_step, Turn, task, client, take_turn, take_turns, is_launching,
}

-- The PID that the task is about to write is one that `P` allows the child.
abbrev pub IsGiven : (Text → ℕ → Type 0) → Pc → Type 0
IsGiven P (started spec pid specs) = P spec.name pid
IsGiven P (reviving now n pid ns outcomes) = P n pid
IsGiven P _ = Unit

module _ {W : Type 0} (spawner : Spawner W) (P : Text → ℕ → Type 0)
    (gives : GivesOnly P spawner) where
  abbrev Attests : ℕ → Pc → Machine W → Type 0
  Attests clock pc m =
      All (IsAttested P) (task_step spawner clock pc m).1.view.children
      × IsGiven P (task_step spawner clock pc m).0

  task_step-Attests :
      (clock : ℕ) (pc : Pc) (m : Machine W)
      → All (IsAttested P) m.view.children
      → IsGiven P pc
      → Attests clock pc m
  unfolding task_step clear_phase
  task_step-Attests clock (launching []) m h g = (h, tt)
  task_step-Attests clock (launching (spec ∷ specs)) m h g = (
    updated P (named spec.name) to_starting (λ c at k. demoted P c (to_starting c) refl refl refl k)
        m.view.children h,
    tt,
  )
  task_step-Attests clock (starting spec specs) m h g =
      elim (Result-cases (spawner.start spec m.world).0) [
        | inr (e, q) ↦ rw (q, task_step) (h, tt)
        | inl (s, q) ↦ rw (q, task_step) (h, gives spec m.world s q)
      ]
  task_step-Attests clock (started spec pid specs) m h g = (
    updated P (named spec.name) (to_running pid)
        (λ c at k. given P c spec.name pid (to_running pid c) at g refl refl) m.view.children h,
    tt,
  )
  task_step-Attests clock resting m h g = (
    All-Pairs (IsAttested P) _ _
        (Pairs-map _ _ (ClearMove-IsAttested P m.backoff_until clock) _ _
          (clear-ClearMove m.backoff_until clock m.view.children))
        h,
    tt,
  )
  task_step-Attests clock (watching now) m h g = (h, tt)
  task_step-Attests clock (probing now []) m h g = (h, tt)
  task_step-Attests clock (probing now ((name, pid) ∷ probes)) m h g =
      elim (Result-cases (spawner.still_running pid m.world).0) [
        | inr (e, q) ↦ rw (q, task_step) (h, tt)
        | inl (live, q) ↦ elim (Bool-cases live) [
          | inl l ↦ rw (q, l, task_step) (h, tt)
          | inr l ↦ rw (q, l, task_step) (h, tt)
        ]
      ]
  task_step-Attests clock (losing now name pid probes) m h g = (
    updated P (running_named name) (to_exited pid)
        (λ c at k. demoted P c (to_exited pid c) refl refl refl k) m.view.children h,
    tt,
  )
  task_step-Attests clock (visiting now) m h g = (h, tt)
  task_step-Attests clock (restarting now [] outcomes) m h g = (h, tt)
  task_step-Attests clock (restarting now (n ∷ ns) outcomes) m h g =
      elim (Bool-cases ((recorded n now m).1 == 0)) [
        | inr e ↦ rw (e, task_step) (h, tt)
        | inl e ↦ elim (Result-cases (spawner.start (canonical_spec n) m.world).0) [
          | inr (x, q) ↦ rw (e, q, task_step) (h, tt)
          | inl (s, q) ↦ rw (e, q, task_step) (h, gives (canonical_spec n) m.world s q)
        ]
      ]
  task_step-Attests clock (reviving now n pid ns outcomes) m h g = (
    updated P (named n) (to_restarted pid)
        (λ c at k. given P c n pid (to_restarted pid c) at g refl refl) m.view.children h,
    tt,
  )
  task_step-Attests clock (holding now n k ns outcomes) m h g = (
    updated P (named n) (to_backoff k) (λ c at a. demoted P c (to_backoff k c) refl refl refl a)
        m.view.children h,
    tt,
  )

  pub take_turns-IsAttested :
      (turns : List Turn) (pc : Pc) (m : Machine W)
      → All (IsAttested P) m.view.children
      → IsGiven P pc
      → All (IsAttested P) (take_turns spawner turns (pc, m)).1.view.children
        × IsGiven P (take_turns spawner turns (pc, m)).0
  unfolding take_turns take_turn
  take_turns-IsAttested [] pc m h g = (h, g)
  take_turns-IsAttested (task clock ∷ later) pc m h g =
      let (pc', m') = task_step spawner clock pc m in
      let after = task_step-Attests clock pc m h g in
      take_turns-IsAttested later pc' m' after.0 after.1
  take_turns-IsAttested (client host req ∷ later) pc m h g =
      subst
        (λ v.
          All (IsAttested P) (take_turns spawner later (pc, record m { view = v })).1.view.children
          × IsGiven P (take_turns spawner later (pc, record m { view = v })).0)
        (sym (dispatch-muted_by host req m.view))
        (take_turns-IsAttested later pc
          (record m { view = with_muted (muted_by req m.view.muted) m.view }) h g)

  -- The rest of the launches.
  pub finish-IsAttested :
      (pc : Pc) (m : Machine W)
      → is_launching pc ≡ true
      → All (IsAttested P) m.view.children
      → IsGiven P pc
      → All (IsAttested P) (finish spawner pc m).view.children
  unfolding finish
  finish-IsAttested (launching specs) m l h g = start_specs-IsAttested spawner P gives specs m h
  finish-IsAttested (starting spec specs) m l h g =
      elim (Result-cases (spawner.start spec m.world).0) [
        | inr (e, q) ↦ rw (q, finish) h
        | inl (s, q) ↦
            rw (q, finish)
              (start_specs-IsAttested spawner P gives specs _ (
                updated P (named spec.name) (to_running s.child_pid)
                  (λ c at k.
                    given P c spec.name s.child_pid (to_running s.child_pid c) at
                      (gives spec m.world s q) refl refl)
                  m.view.children h))
      ]
  finish-IsAttested (started spec pid specs) m l h g =
      start_specs-IsAttested spawner P gives specs _ (
        updated P (named spec.name) (to_running pid)
          (λ c at k. given P c spec.name pid (to_running pid c) at g refl refl) m.view.children h)
  finish-IsAttested pc m l h g = cc
