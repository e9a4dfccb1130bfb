-- ===== src/Supervisor/Lifecycle.antt =====
-- The observer loop as a whole: which children a run may change.
use wintermute_platform.Prelude.{
  ℕ, ◌≡◌, refl, ap, ◌∙◌, ◌⊎◌, inl, inr, Bool, true, false, List, [], ◌∷◌, TextMap, Pairs,
  Pairs-refl, Pairs-trans, subst, arith,
}
use wintermute_platform.Protocol.{ChildStatus, running, exited, backoff, ChildState}
use wintermute_platform.Spawn.{Spawner}
use wintermute_platform.Supervisor.{
  Machine, clear_phase, observe_phase, restart_exited, restart_phase, observer_pass, observer_run,
}
use wintermute_platform.Supervisor.Slots.{names, IsDistinct, Pairs-names}
use wintermute_platform.Supervisor.Moves.{
  ClearMove, woken, ObserveMove, lost, RestartMove, restarted, held,
}
use wintermute_platform.Supervisor.Observing.{clear-ClearMove, observe_exits-ObserveMove}
use wintermute_platform.Supervisor.Restarting.{restart_exited-RestartMove}

-- The states between which the observer moves a child.
abbrev pub is_observed : ChildStatus → Bool
is_observed running = true
is_observed exited = true
is_observed backoff = true
is_observed _ = false

-- A child is as it was, or it was and is in one of these states, under its name.
abbrev pub PassMove : ChildState → ChildState → Type 0
PassMove c d =
    (c ≡ d) ⊎ ((c.name ≡ d.name) × (is_observed c.status ≡ true) × (is_observed d.status ≡ true))

pub PassMove-name : (c d : ChildState) → PassMove c d → c.name ≡ d.name
PassMove-name c d (inl e) = ap (λ (x : ChildState). x.name) e
PassMove-name c d (inr h) = h.0

pub PassMove-trans : (c d e : ChildState) → PassMove c d → PassMove d e → PassMove c e
PassMove-trans c d e (inl p) m = rw p m
PassMove-trans c d e (inr h) (inl q) = rw (← q) (inr h)
PassMove-trans c d e (inr h) (inr k) = inr (h.0 ∙ k.0, h.1, k.2)

ClearMove-PassMove :
    (due : TextMap ℕ) (now : ℕ) (c d : ChildState) → ClearMove due now c d → PassMove c d
ClearMove-PassMove due now c d (ClearMove.kept q e) = inl e
ClearMove-PassMove due now c d (woken until s g l e) = rw e (inr (refl, rw s refl, refl))

ObserveMove-PassMove : (c d : ChildState) → ObserveMove c d → PassMove c d
ObserveMove-PassMove c d (ObserveMove.kept e) = inl e
ObserveMove-PassMove c d (lost pid s e) = rw e (inr (refl, rw s refl, refl))

RestartMove-PassMove : (c d : ChildState) → RestartMove c d → PassMove c d
RestartMove-PassMove c d (RestartMove.kept e) = inl e
RestartMove-PassMove c d (restarted pid s e) = rw e (inr (refl, rw s refl, refl))
RestartMove-PassMove c d (held k s e) = rw e (inr (refl, rw s refl, refl))

pub Pairs-map :
    (R S : ChildState → ChildState → Type 0)
    → ((c d : ChildState) → R c d → S c d)
    → (cs ds : List ChildState) → Pairs R cs ds
    → Pairs S cs ds
Pairs-map R S f [] [] h = tt
Pairs-map R S f [] (d ∷ ds) h = h
Pairs-map R S f (c ∷ cs) [] h = h
Pairs-map R S f (c ∷ cs) (d ∷ ds) h = (f c d h.0, Pairs-map R S f cs ds h.1)

-- A relation that holds of every move of a phase, is closed under composition, and keeps the name.
pub record IsLifecycle (R : ChildState → ChildState → Type 0) : Type 0 where
  pub same : (c : ChildState) → R c c
  pub then_too : (c d e : ChildState) → R c d → R d e → R c e
  pub keeps_name : (c d : ChildState) → R c d → c.name ≡ d.name
  pub on_clear : (due : TextMap ℕ) (now : ℕ) (c d : ChildState) → ClearMove due now c d → R c d
  pub on_observe : (c d : ChildState) → ObserveMove c d → R c d
  pub on_restart : (c d : ChildState) → RestartMove c d → R c d

module _ {W : Type 0} (spawner : Spawner W) where
  -- Scheduling the wake-ups changes no child.
  pub restart_phase-children :
      (now : ℕ) (m : Machine W)
      → (restart_phase spawner now m).view ≡ (restart_exited spawner now m).1.view
  unfolding restart_phase
  restart_phase-children now m = ground arith

-- What holds of the moves holds of the passes.
module _ {W : Type 0} (spawner : Spawner W) (R : ChildState → ChildState → Type 0)
    (life : IsLifecycle R) where
  pub clear_phase-Pairs :
      (now : ℕ) (m : Machine W) → Pairs R m.view.children (clear_phase now m).view.children
  unfolding clear_phase
  clear_phase-Pairs now m =
      Pairs-map (ClearMove m.backoff_until now) R (life.on_clear m.backoff_until now) _ _
        (clear-ClearMove m.backoff_until now m.view.children)

  pub observe_phase-Pairs :
      (m : Machine W) → Pairs R m.view.children (observe_phase spawner m).view.children
  unfolding observe_phase
  observe_phase-Pairs m =
      Pairs-map ObserveMove R life.on_observe _ _ (observe_exits-ObserveMove spawner m)

  pub restart_phase-Pairs :
      (now : ℕ) (m : Machine W)
      → IsDistinct (names m.view.children)
      → Pairs R m.view.children (restart_phase spawner now m).view.children
  restart_phase-Pairs now m d =
      rw (restart_phase-children spawner now m)
        (Pairs-map RestartMove R life.on_restart _ _ (restart_exited-RestartMove spawner now m d))

  pub observer_pass-Pairs :
      (now : ℕ) (m : Machine W)
      → IsDistinct (names m.view.children)
      → Pairs R m.view.children (observer_pass spawner now m).view.children
  unfolding observer_pass
  observer_pass-Pairs now m d =
      let first =
        Pairs-trans R life.then_too _ _ _ (clear_phase-Pairs now m)
          (observe_phase-Pairs (clear_phase now m)) in
      let same = Pairs-names R life.keeps_name _ _ first in
      Pairs-trans R life.then_too _ _ _ first (
        restart_phase-Pairs now (observe_phase spawner (clear_phase now m))
          (subst IsDistinct same d))

  pub observer_pass-IsDistinct :
      (now : ℕ) (m : Machine W)
      → IsDistinct (names m.view.children)
      → IsDistinct (names (observer_pass spawner now m).view.children)
  observer_pass-IsDistinct now m d =
      subst IsDistinct (Pairs-names R life.keeps_name _ _ (observer_pass-Pairs now m d)) d

  pub observer_run-Pairs :
      (times : List ℕ) (m : Machine W)
      → IsDistinct (names m.view.children)
      → Pairs R m.view.children (observer_run spawner times m).view.children
  unfolding observer_run
  observer_run-Pairs [] m d = Pairs-refl R life.same m.view.children
  observer_run-Pairs (now ∷ later) m d =
      Pairs-trans R life.then_too _ _ _ (observer_pass-Pairs now m d)
        (observer_run-Pairs later (observer_pass spawner now m) (observer_pass-IsDistinct now m d))

pub PassMove-IsLifecycle : IsLifecycle PassMove
PassMove-IsLifecycle = record {
  same = λ c. inl refl;
  then_too = PassMove-trans;
  keeps_name = PassMove-name;
  on_clear = ClearMove-PassMove;
  on_observe = ObserveMove-PassMove;
  on_restart = RestartMove-PassMove;
}

module _ {W : Type 0} (spawner : Spawner W) where
  -- Over any number of passes, whatever the launcher answers, the supervisor keeps its children in
  -- their order under their names, which are distinct, and each child either is unchanged or was
  -- and is running, exited or in backoff. So the observer starts no child that is pending, starting
  -- or halted.
  pub observer_run-PassMove :
      (times : List ℕ) (m : Machine W)
      → IsDistinct (names m.view.children)
      → Pairs PassMove m.view.children (observer_run spawner times m).view.children
  observer_run-PassMove = observer_run-Pairs spawner PassMove PassMove-IsLifecycle
