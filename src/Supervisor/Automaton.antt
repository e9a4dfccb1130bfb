-- ===== src/Supervisor/Automaton.antt =====
-- The automaton that a child goes through under the observer, and the passes as its refinement.
use wintermute_platform.Prelude.{
  ℕ, ◌≤◌, ◌-◌, ◌^◌, ◌≡◌, refl, ◌∙◌, List, [], ◌∷◌, TextMap, All, Pairs, arith,
}
use wintermute_platform.Protocol.{ChildStatus, running, exited, backoff, ChildState}
use wintermute_platform.Spawn.{Spawner}
use wintermute_platform.Supervisor.{Machine, bump, observer_run}
use wintermute_platform.Supervisor.Slots.{names, IsDistinct}
use wintermute_platform.Supervisor.Moves.{
  ClearMove, woken, ObserveMove, lost, RestartMove, restarted, held,
}
use wintermute_platform.Supervisor.Lifecycle.{IsLifecycle, observer_run-Pairs}

-- What the automaton knows of a child.
pub record Life : Type 0 where
  pub status : ChildStatus
  pub restart_count : ℕ

abbrev pub life : ChildState → Life
life c = record { status = c.status; restart_count = c.restart_count }

abbrev pub living : ChildStatus → ℕ → Life
living s k = record { status = s; restart_count = k }

-- A running child exits; an exited child is restarted, which counts, or waits; a waiting child is
-- taken to have exited, so that it is tried again. Nothing else happens.
pub data Step : Life → Life → Type 0 where
  exits : (k : ℕ) → Step (living running k) (living exited k)
  restarts : (k : ℕ) → Step (living exited k) (living running (bump k))
  waits : (k : ℕ) → Step (living exited k) (living backoff k)
  wakes : (k : ℕ) → Step (living backoff k) (living exited k)

pub data Reach (a : Life) : Life → Type 0 where
  here : Reach a a
  next : {b c : Life} → Reach a b → Step b c → Reach a c

Reach-trans : {a b c : Life} → Reach a b → Reach b c → Reach a c
Reach-trans r here = r
Reach-trans r (next s t) = next (Reach-trans r s) t

-- A child keeps its name and goes where the automaton can go.
abbrev pub LifeMove : ChildState → ChildState → Type 0
LifeMove c d = (c.name ≡ d.name) × Reach (life c) (life d)

LifeMove-refl : (c d : ChildState) → c ≡ d → LifeMove c d
LifeMove-refl c d e = rw e (refl, here)

LifeMove-trans : (c d e : ChildState) → LifeMove c d → LifeMove d e → LifeMove c e
LifeMove-trans c d e h k = (h.0 ∙ k.0, Reach-trans h.1 k.1)

ClearMove-LifeMove :
    (due : TextMap ℕ) (now : ℕ) (c d : ChildState) → ClearMove due now c d → LifeMove c d
ClearMove-LifeMove due now c d (ClearMove.kept q e) = LifeMove-refl c d e
ClearMove-LifeMove due now c d (woken until s g l e) = rw (e, s) (refl, next here (wakes _))

ObserveMove-LifeMove : (c d : ChildState) → ObserveMove c d → LifeMove c d
ObserveMove-LifeMove c d (ObserveMove.kept e) = LifeMove-refl c d e
ObserveMove-LifeMove c d (lost pid s e) = rw (e, s) (refl, next here (exits _))

RestartMove-LifeMove : (c d : ChildState) → RestartMove c d → LifeMove c d
RestartMove-LifeMove c d (RestartMove.kept e) = LifeMove-refl c d e
RestartMove-LifeMove c d (restarted pid s e) = rw (e, s) (refl, next here (restarts _))
RestartMove-LifeMove c d (held k s e) = rw (e, s) (refl, next here (waits _))

pub LifeMove-IsLifecycle : IsLifecycle LifeMove
LifeMove-IsLifecycle = record {
  same = λ c. LifeMove-refl c c refl;
  then_too = LifeMove-trans;
  keeps_name = λ c d h. h.0;
  on_clear = ClearMove-LifeMove;
  on_observe = ObserveMove-LifeMove;
  on_restart = RestartMove-LifeMove;
}

-- The counter is a `u32`.
abbrev pub IsCounted : ChildState → Type 0
IsCounted c = c.restart_count ≤ 2 ^ 32 - 1

Step-restart_count :
    {a b : Life}
    → Step a b
    → a.restart_count ≤ 2 ^ 32 - 1
    → (a.restart_count ≤ b.restart_count) × (b.restart_count ≤ 2 ^ 32 - 1)
Step-restart_count (exits k) h = ground arith
Step-restart_count (restarts k) h = ground arith
Step-restart_count (waits k) h = ground arith
Step-restart_count (wakes k) h = ground arith

Reach-restart_count :
    {a b : Life}
    → Reach a b
    → a.restart_count ≤ 2 ^ 32 - 1
    → (a.restart_count ≤ b.restart_count) × (b.restart_count ≤ 2 ^ 32 - 1)
Reach-restart_count here h = ground arith
Reach-restart_count (next r s) h =
    let before = Reach-restart_count r h in
    let after = Step-restart_count s before.1 in ground arith

-- No fewer restarts than before, and still a `u32`.
abbrev pub CountMove : ChildState → ChildState → Type 0
CountMove c d = (c.restart_count ≤ d.restart_count) × IsCounted d

Pairs-CountMove :
    (cs ds : List ChildState) → All IsCounted cs → Pairs LifeMove cs ds → Pairs CountMove cs ds
Pairs-CountMove [] [] h p = tt
Pairs-CountMove [] (d ∷ ds) h p = p
Pairs-CountMove (c ∷ cs) [] h p = p
Pairs-CountMove (c ∷ cs) (d ∷ ds) h p =
    (Reach-restart_count p.0.1 h.0, Pairs-CountMove cs ds h.1 p.1)

module _ {W : Type 0} (spawner : Spawner W) where
  -- The observer refines the automaton: over any number of passes, at any times and whatever the
  -- launcher answers, the supervisor keeps its children in their order under their names, which are
  -- distinct, and the status and the restart count of each go where steps of the automaton lead.
  pub observer_run-LifeMove :
      (times : List ℕ) (m : Machine W)
      → IsDistinct (names m.view.children)
      → Pairs LifeMove m.view.children (observer_run spawner times m).view.children
  observer_run-LifeMove = observer_run-Pairs spawner LifeMove LifeMove-IsLifecycle

  -- If the names are distinct and every restart count is a `u32`, then over any number of passes
  -- no restart count falls, and all of them stay within a `u32`.
  pub observer_run-CountMove :
      (times : List ℕ) (m : Machine W)
      → IsDistinct (names m.view.children)
      → All IsCounted m.view.children
      → Pairs CountMove m.view.children (observer_run spawner times m).view.children
  observer_run-CountMove times m d h = Pairs-CountMove _ _ h (observer_run-LifeMove times m d)
