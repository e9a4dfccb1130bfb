-- ===== src/Supervisor/Tasks/Course.antt =====
-- The whole life of a child, from its launch on, and what the task owes to the slots at each step.
use wintermute_platform.Prelude.{
  ℕ, Bool, true, false, List, [], ◌∷◌, Text, text_eq_iff, text_eq_refl, update_first, All, Pairs,
  ◌≡◌, ◌≢◌, refl, ◌∙◌, arith,
}
use wintermute_platform.Protocol.{ChildStatus, pending, running, ChildState}
use wintermute_platform.Supervisor.{named}
use wintermute_platform.Supervisor.Slots.{IsAt, slot-update_first, Pairs-update_found}
use wintermute_platform.Supervisor.Lifecycle.{is_observed}
use wintermute_platform.Supervisor.Automaton.{
  Life, life, living, Step, exits, restarts, waits, wakes, Reach, next, LifeMove,
}

-- A launch begins with a pending child; then the observer's automaton goes on.
pub data Change : Life → Life → Type 0 where
  begins : (k : ℕ) → Change (living pending k) (living ChildStatus.starting k)
  runs : (k : ℕ) → Change (living ChildStatus.starting k) (living running k)
  tends : {a b : Life} → Step a b → Change a b

pub data Course (a : Life) : Life → Type 0 where
  here : Course a a
  goes : {b c : Life} → Course a b → Change b c → Course a c

pub Course-trans : {a b c : Life} → Course a b → Course b c → Course a c
Course-trans r here = r
Course-trans r (goes s t) = goes (Course-trans r s) t

-- A child keeps its name and goes where the automaton can go.
abbrev pub CourseMove : ChildState → ChildState → Type 0
CourseMove c d = (c.name ≡ d.name) × Course (life c) (life d)

pub CourseMove-refl : (c : ChildState) → CourseMove c c
CourseMove-refl c = (refl, here)

pub CourseMove-trans : (c d e : ChildState) → CourseMove c d → CourseMove d e → CourseMove c e
CourseMove-trans c d e h k = (h.0 ∙ k.0, Course-trans h.1 k.1)

Reach-Course : {a b : Life} → Reach a b → Course a b
Reach-Course Reach.here = here
Reach-Course (next r s) = goes (Reach-Course r) (tends s)

pub LifeMove-CourseMove : (c d : ChildState) → LifeMove c d → CourseMove c d
LifeMove-CourseMove c d h = (h.0, Reach-Course h.1)

Step-observed : {a b : Life} → Step a b → is_observed b.status ≡ true
Step-observed (exits k) = refl
Step-observed (restarts k) = refl
Step-observed (waits k) = refl
Step-observed (wakes k) = refl

Change-observed :
    {a b : Life} → Change a b → is_observed a.status ≡ true → is_observed b.status ≡ true
Change-observed (begins k) h = cc
Change-observed (runs k) h = cc
Change-observed (tends s) h = Step-observed s

-- A child that has been running is never again launched.
pub Course-observed :
    {a b : Life} → Course a b → is_observed a.status ≡ true → is_observed b.status ≡ true
Course-observed here h = h
Course-observed (goes r s) h = Change-observed s (Course-observed r h)

abbrev pub is_pending_slot : ChildState → Bool
is_pending_slot c = elim c.status [ pending ↦ true | _ ↦ false ]

abbrev pub is_starting_slot : ChildState → Bool
is_starting_slot c = elim c.status [ ChildStatus.starting ↦ true | _ ↦ false ]

-- An update of one name's slot, when its state before is known.
module _ (p : ChildState → Bool) (f : ChildState → ChildState)
    (keeps : (c : ChildState) → (f c).name ≡ c.name) where
  pub slot_moves :
      (n : Text) (cs : List ChildState)
      → ((c : ChildState) → p c ≡ true → CourseMove c (f c))
      → IsAt p cs n
      → Pairs CourseMove cs (update_first (named n) f cs)
  slot_moves n cs move at =
      Pairs-update_found CourseMove (named n) f CourseMove-refl cs
        λ c found. move c (ground (arith, at.at, at.holds))

  pub others_stay :
      (q : ChildState → Bool) (n : Text) (cs : List ChildState) (ns : List Text)
      → All (λ k. k ≢ n) ns
      → All (IsAt q cs) ns
      → All (IsAt q (update_first (named n) f cs)) ns
  others_stay q n cs [] d h = tt
  others_stay q n cs (k ∷ ns) d h = (
    record {
      child = h.0.child;
      at = slot-update_first f keeps n k cs ∙ ground (arith, text_eq_iff n k, d.0, h.0.at);
      holds = h.0.holds;
    },
    others_stay q n cs ns d.1 h.1,
  )

  pub slot_becomes :
      (q : ChildState → Bool) (n : Text) (cs : List ChildState)
      → ((c : ChildState) → q (f c) ≡ true)
      → IsAt p cs n
      → IsAt q (update_first (named n) f cs) n
  slot_becomes q n cs after at = record {
    child = f at.child;
    at = slot-update_first f keeps n n cs ∙ rw (text_eq_refl n, at.at) refl;
    holds = after at.child;
  }
