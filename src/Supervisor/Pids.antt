-- ===== src/Supervisor/Pids.antt =====
-- Where the PIDs in the slots come from.
use wintermute_platform.Supervisor.Observing.{observe_exits-ObserveMove, clear-ClearMove}
use wintermute_platform.Supervisor.Lifecycle.{Pairs-map, restart_phase-children}
use wintermute_platform.Supervisor.Moves.{ObserveMove, lost, ClearMove, woken}
use wintermute_platform.Supervisor.{
  to_exited, to_retry, to_backoff, exited_names, noted, to_restarted, to_running, observe_phase,
  restart_phase, recorded, to_starting, clear_phase, RestartOutcome, Machine, start_all,
  new_supervisor, observer_run, observer_pass, restart_exited, restart_loop, restart_one,
  restart_now, start_specs, start_one, named,
}
use wintermute_platform.Platform.{canonical_spec, canonical_children, ChildSpec}
use wintermute_platform.Platform.Tracker.{restarts_in_window}
use wintermute_platform.Spawn.{StartedChild, Spawner}
use wintermute_platform.Protocol.{pending_from, pending_for, is_running, ChildState}
use wintermute_platform.Prelude.{
  ◌==◌, none, ◌∙◌, false, Bool, ℕ, List, [], ◌∷◌, ◌++◌, Text, text_eq→≡, some, ok, All, Pairs,
  Pairs-update_first, Result-cases, Bool-cases, update_first, TextMap, true, ◌≡◌, refl, subst, sym,
  arith, inl, inr,
}

-- Every PID in the slot is one that `P` allows the child, and a running child has one.
pub record IsAttested (P : Text → ℕ → Type 0) (c : ChildState) : Type 0 where
  pub allowed : (pid : ℕ) → c.child_pid ≡ some pid → P c.name pid
  pub known : is_running c.status ≡ true → (pid : ℕ) × (c.child_pid ≡ some pid)

-- A launcher that gives a child only PIDs that `P` allows it.
abbrev pub GivesOnly : {W : Type 0} → (Text → ℕ → Type 0) → Spawner W → Type 0
GivesOnly {W} P spawner =
    (spec : ChildSpec) (w : W) (started : StartedChild)
    → (spawner.start spec w).0 ≡ ok started
    → P spec.name started.child_pid

pub All-Pairs :
    (P : ChildState → Type 0) (cs ds : List ChildState)
    → Pairs (λ c d. P c → P d) cs ds
    → All P cs
    → All P ds
All-Pairs P [] [] r h = tt
All-Pairs P [] (d ∷ ds) r h = absurd r
All-Pairs P (c ∷ cs) [] r h = absurd r
All-Pairs P (c ∷ cs) (d ∷ ds) r h = (r.0 h.0, All-Pairs P cs ds r.1 h.1)

module _ (P : Text → ℕ → Type 0) where
  -- A slot that gets no new PID, and is not running after, or was left alone.
  pub demoted :
      (c d : ChildState)
      → c.name ≡ d.name
      → c.child_pid ≡ d.child_pid
      → is_running d.status ≡ false
      → IsAttested P c
      → IsAttested P d
  demoted c d n p s h = record {
    allowed = λ pid e. subst (λ x. P x pid) n (h.allowed pid (p ∙ e));
    known = λ r. absurd (ground (arith, r, s));
  }

  fresh : (c : ChildState) → c.child_pid ≡ none → is_running c.status ≡ false → IsAttested P c
  fresh c p s = record {
    allowed = λ pid e. absurd (ground (arith, p, e));
    known = λ r. absurd (ground (arith, r, s));
  }

  pub given :
      (c : ChildState) (name : Text) (pid : ℕ) (d : ChildState)
      → named name c ≡ true
      → P name pid
      → d.name ≡ c.name
      → d.child_pid ≡ some pid
      → IsAttested P d
  given c name pid d at ok_pid n p = record {
    allowed = λ pid' e.
        let same : pid ≡ pid' = ground (arith, p, e) in
        subst (P d.name) same (subst (λ x. P x pid) (sym (n ∙ text_eq→≡ c.name name at)) ok_pid);
    known = λ r. (pid, p);
  }

  pub ClearMove-IsAttested :
      (due : TextMap ℕ) (now : ℕ) (c d : ChildState)
      → ClearMove due now c d
      → IsAttested P c
      → IsAttested P d
  ClearMove-IsAttested due now c d (ClearMove.kept q e) h = subst (IsAttested P) e h
  ClearMove-IsAttested due now c d (woken until s g l e) h =
      subst (IsAttested P) (sym e) (demoted c (to_retry c) refl refl refl h)

  ObserveMove-IsAttested : (c d : ChildState) → ObserveMove c d → IsAttested P c → IsAttested P d
  ObserveMove-IsAttested c d (ObserveMove.kept e) h = subst (IsAttested P) e h
  ObserveMove-IsAttested c d (lost pid s e) h =
      subst (IsAttested P) (sym e) (demoted c (to_exited pid c) refl refl refl h)

  -- An update of the first slot that passes a test.
  pub updated :
      (p : ChildState → Bool) (f : ChildState → ChildState)
      → ((c : ChildState) → p c ≡ true → IsAttested P c → IsAttested P (f c))
      → (cs : List ChildState) → All (IsAttested P) cs
      → All (IsAttested P) (update_first p f cs)
  updated p f u cs =
      All-Pairs (IsAttested P) cs (update_first p f cs)
        (Pairs-update_first (λ c d. IsAttested P c → IsAttested P d) p f (λ c h. h) u cs)

module _ {W : Type 0} (spawner : Spawner W) (P : Text → ℕ → Type 0)
    (gives : GivesOnly P spawner) where
  start_one-IsAttested :
      (spec : ChildSpec) (m : Machine W)
      → All (IsAttested P) m.view.children
      → All (IsAttested P) (start_one spawner spec m).1.view.children
  unfolding start_one
  start_one-IsAttested spec m h =
      let waiting =
        updated P (named spec.name) to_starting
          (λ c at k. demoted P c (to_starting c) refl refl refl k) m.view.children h in
      elim (Result-cases (spawner.start spec m.world).0) [
        | inr (e, q) ↦ rw (q, start_one) waiting
        | inl (s, q) ↦
            rw (q, start_one)
              (updated P (named spec.name) (to_running s.child_pid)
                (λ c at k.
                  given P c spec.name s.child_pid (to_running s.child_pid c) at
                    (gives spec m.world s q) refl refl)
                _ waiting)
      ]

  pub start_specs-IsAttested :
      (specs : List ChildSpec) (m : Machine W)
      → All (IsAttested P) m.view.children
      → All (IsAttested P) (start_specs spawner specs m).1.view.children
  unfolding start_specs
  start_specs-IsAttested [] m h = h
  start_specs-IsAttested (spec ∷ specs) m h =
      let one = start_one-IsAttested spec m h in
      elim (Result-cases (start_one spawner spec m).0) [
        | inr (e, q) ↦ rw (q, start_specs) one
        | inl (u, q) ↦
            rw (q, start_specs) (start_specs-IsAttested specs (start_one spawner spec m).1 one)
      ]

  restart_now-IsAttested :
      (name : Text) (m : Machine W)
      → All (IsAttested P) m.view.children
      → All (IsAttested P) (restart_now spawner name m).1.view.children
  unfolding restart_now
  restart_now-IsAttested name m h =
      elim (Result-cases (spawner.start (canonical_spec name) m.world).0) [
        | inr (e, q) ↦ rw (q, restart_now) h
        | inl (s, q) ↦
            rw (q, restart_now)
              (updated P (named name) (to_restarted s.child_pid)
                (λ c at k.
                  given P c name s.child_pid (to_restarted s.child_pid c) at
                    (gives (canonical_spec name) m.world s q) refl refl)
                m.view.children h)
      ]

  restart_one-IsAttested :
      (name : Text) (now : ℕ) (m : Machine W)
      → All (IsAttested P) m.view.children
      → All (IsAttested P) (restart_one spawner name now m).1.view.children
  unfolding restart_one
  restart_one-IsAttested name now m h = elim (Bool-cases ((recorded name now m).1 == 0)) [
    | inl calm ↦ rw (calm, restart_one) (restart_now-IsAttested name (noted name now m) h)
    | inr storm ↦
        let k = restarts_in_window (recorded name now m).0 in
        rw (storm, restart_one)
          (updated P (named name) (to_backoff k)
            (λ c at a. demoted P c (to_backoff k c) refl refl refl a) m.view.children h)
  ]

  restart_loop-IsAttested :
      (ns : List Text) (outcomes : List RestartOutcome) (now : ℕ) (m : Machine W)
      → All (IsAttested P) m.view.children
      → All (IsAttested P) (restart_loop spawner ns outcomes now m).1.view.children
  unfolding restart_loop
  restart_loop-IsAttested [] outcomes now m h = h
  restart_loop-IsAttested (n ∷ ns) outcomes now m h =
      let one = restart_one-IsAttested n now m h in
      elim (Result-cases (restart_one spawner n now m).0) [
        | inr (e, q) ↦ rw (q, restart_loop) one
        | inl (o, q) ↦
            rw (q, restart_loop)
              (restart_loop-IsAttested ns (outcomes ++ o ∷ []) now (restart_one spawner n now m).1
                one)
      ]

  restart_phase-IsAttested :
      (now : ℕ) (m : Machine W)
      → All (IsAttested P) m.view.children
      → All (IsAttested P) (restart_phase spawner now m).view.children
  unfolding restart_exited
  restart_phase-IsAttested now m h =
      rw (restart_phase-children spawner now m)
        (restart_loop-IsAttested (exited_names m.view.children) [] now m h)

  pub observer_pass-IsAttested :
      (now : ℕ) (m : Machine W)
      → All (IsAttested P) m.view.children
      → All (IsAttested P) (observer_pass spawner now m).view.children
  unfolding observer_pass clear_phase observe_phase
  observer_pass-IsAttested now m h =
      let cleared =
        All-Pairs (IsAttested P) _ _
          (Pairs-map _ _ (ClearMove-IsAttested P m.backoff_until now) _ _
            (clear-ClearMove m.backoff_until now m.view.children))
          h in
      restart_phase-IsAttested now (observe_phase spawner (clear_phase now m)) (
        All-Pairs (IsAttested P) _ _
          (Pairs-map _ _ (ObserveMove-IsAttested P) _ _
            (observe_exits-ObserveMove spawner (clear_phase now m)))
          cleared)

  pub observer_run-IsAttested :
      (times : List ℕ) (m : Machine W)
      → All (IsAttested P) m.view.children
      → All (IsAttested P) (observer_run spawner times m).view.children
  unfolding observer_run
  observer_run-IsAttested [] m h = h
  observer_run-IsAttested (now ∷ later) m h =
      observer_run-IsAttested later (observer_pass spawner now m) (observer_pass-IsAttested now m h)

  pub new_supervisor-IsAttested : (w : W) → All (IsAttested P) (new_supervisor w).view.children
  unfolding new_supervisor pending_for pending_from canonical_children
  new_supervisor-IsAttested w = (
    fresh P _ refl refl,
    (fresh P _ refl refl, (fresh P _ refl refl, (fresh P _ refl refl, (fresh P _ refl refl, tt)))),
  )

  pub start_all-IsAttested :
      (w : W) → All (IsAttested P) (start_all spawner (new_supervisor w)).1.view.children
  unfolding start_all
  start_all-IsAttested w =
      start_specs-IsAttested canonical_children (new_supervisor w) (new_supervisor-IsAttested w)
