-- ===== src/Supervisor/Scheduling.antt =====
-- The wake-up times: every child in backoff has one as long as no start fails.
use wintermute_platform.Supervisor.Lifecycle.{restart_phase-children}
use wintermute_platform.Supervisor.Wakeups.{
  restart_exited-backoff_until, observe_phase-backoff_until,
}
use wintermute_platform.Supervisor.Recovery.{cleared-selected}
use wintermute_platform.Supervisor.Observing.{clear-ClearMove, observe_exits-ObserveMove}
use wintermute_platform.Supervisor.Restarting.{restart_one-cases}
use wintermute_platform.Supervisor.Moves.{
  ClearMove-name, ObserveMove-name, ObserveMove, status_of, ClearMove,
}
use wintermute_platform.Supervisor.Slots.{
  slot-update_first, selected-IsAt, Pairs-slot, map_slot, IsAt, names, IsDistinct, slot,
}
use wintermute_platform.Spawn.{Spawner}
use wintermute_platform.Protocol.{SupervisorView, backoff, ChildState}
use wintermute_platform.Supervisor.{
  exited_names, to_backoff, to_restarted, named, backoff_secs, restart_exited, updated_count,
  has_elapsed, from_secs, observer_pass, restart_phase, restart_loop, clear_expired_backoffs,
  entered_backoff, restart_one, observe_phase, Machine, RestartOutcome, clear_phase, remove_all,
  schedule,
}
use wintermute_platform.Supervisor.Moves.{woken, lost}
use wintermute_platform.Prelude.{
  none, some, Bool-cases, text_eq_refl, sym, get-insert, Result-cases, subst, update_first, Option,
  text_eq, if◌then◌else◌, ap, text_eq_iff, get-remove, false, arith, ok, remove, some, ◌++◌, All,
  get, Bool, Text, TextMap, List, [], ◌∷◌, refl, inl, inr, ◌≡◌, ◌≢◌, ◌+◌, ◌∙◌, ℕ,
}

-- Every child in backoff has a wake-up time.
pub record IsScheduled (cs : List ChildState) (due : TextMap ℕ) : Type 0 where
  pub wakes :
      (n : Text) (c : ChildState)
      → slot n cs ≡ some c
      → c.status ≡ backoff
      → (u : ℕ) × (get n due ≡ some u)

pub schedule-append :
    (now : ℕ) (os : List RestartOutcome) (o : RestartOutcome) (due : TextMap ℕ)
    → schedule now (os ++ o ∷ []) due ≡ schedule now (o ∷ []) (schedule now os due)
unfolding schedule
schedule-append now [] o due = refl
schedule-append now (RestartOutcome.restarted _ _ _ ∷ os) o due = schedule-append now os o due
schedule-append now (entered_backoff name _ ∷ os) o due = schedule-append now os o _

pub schedule-held :
    (now : ℕ) (name n : Text) (k : ℕ) (due : TextMap ℕ)
    → get n (schedule now (entered_backoff name k ∷ []) due)
      ≡ (if text_eq name n then some (now + from_secs backoff_secs) else get n due)
unfolding schedule
schedule-held now name n k due = get-insert name n (now + from_secs backoff_secs) due

pub get-remove_all_apart :
    (n : Text) (ns : List Text) (due : TextMap ℕ)
    → All (λ k. k ≢ n) ns
    → get n (remove_all ns due) ≡ get n due
unfolding remove_all
get-remove_all_apart n [] due a = refl
get-remove_all_apart n (k ∷ ns) due a =
    get-remove_all_apart n ns (remove k due) a.1
    ∙ ground (arith, get-remove k n due, text_eq_iff k n, a.0)

-- A slot that does not satisfy `p` is apart from those that do.
pub apart_of_IsAt :
    (p : ChildState → Bool) (n : Text) (c : ChildState) (cs : List ChildState) (ns : List Text)
    → slot n cs ≡ some c
    → p c ≡ false
    → All (IsAt p cs) ns
    → All (λ k. k ≢ n) ns
apart_of_IsAt p n c cs [] at s h = tt
apart_of_IsAt p n c cs (k ∷ ns) at s h = (
  (λ e.
      let same : h.0.child ≡ c = ground (arith, ap (λ (j : Text). slot j cs) e, h.0.at) in
      absurd (ground (arith, ap p same, h.0.holds))),
  apart_of_IsAt p n c cs ns at s h.1,
)

clear_phase-IsScheduled :
    {W : Type 0} (now : ℕ) (m : Machine W)
    → IsDistinct (names m.view.children)
    → IsScheduled m.view.children m.backoff_until
    → IsScheduled (clear_phase now m).view.children (clear_phase now m).backoff_until
unfolding clear_phase
clear_phase-IsScheduled now m d s = record {
  wakes = λ n e at waiting.
      let (c, before, move) =
        Pairs-slot (ClearMove m.backoff_until now) (ClearMove-name m.backoff_until now) n _ _
          (clear-ClearMove m.backoff_until now m.view.children) e at in
      kept_scheduled n c e before move waiting;
}
  where
    kept_scheduled :
        (n : Text) (c e : ChildState)
        → slot n m.view.children ≡ some c
        → ClearMove m.backoff_until now c e
        → e.status ≡ backoff
        → (u : ℕ) × (get n (
              remove_all
                (clear_expired_backoffs m.backoff_until now m.view.children).1
                m.backoff_until)
            ≡ some u)
    kept_scheduled n c e before (woken until b g l p) waiting =
        absurd (ground (arith, ap (λ (x : ChildState). x.status) p))
    kept_scheduled n c e before (ClearMove.kept q p) waiting =
        let (u, due) = s.wakes n c before (status_of c p ∙ waiting) in
        let apart =
          apart_of_IsAt (has_elapsed m.backoff_until now) n c m.view.children _ before q
            (selected-IsAt (has_elapsed m.backoff_until now) m.view.children d) in
        (
          u,
          get-remove_all_apart n _ m.backoff_until (
                subst (All (λ k. k ≢ n))
                  (sym (cleared-selected m.backoff_until now m.view.children)) apart)
              ∙ due,
        )

map_slot-some :
    (f : ChildState → ChildState) (o : Option ChildState) (e : ChildState)
    → map_slot f o ≡ some e
    → (c : ChildState) × (f c ≡ e)
map_slot-some f none e h = absurd (ground arith)
map_slot-some f (some c) e h = (c, ground arith)

-- An update of one slot keeps the schedule if the times of the other names stay, and the slot, where
-- it is in backoff, has a time.
update-IsScheduled :
    (f : ChildState → ChildState)
    → ((c : ChildState) → (f c).name ≡ c.name)
    → (name : Text) (cs : List ChildState) (due due' : TextMap ℕ) → IsScheduled cs due
    → ((n : Text) → text_eq name n ≡ false → get n due' ≡ get n due)
    → ((c : ChildState) → (f c).status ≡ backoff → (u : ℕ) × (get name due' ≡ some u))
    → IsScheduled (update_first (named name) f cs) due'
update-IsScheduled f keeps name cs due due' s others own = record {
  wakes = λ n e at waiting.
      let found = sym (slot-update_first f keeps name n cs) ∙ at in
      elim (Bool-cases (text_eq name n)) [
        | inl hit ↦
            let same = (text_eq_iff name n).0 hit in
            let (c, is_c) = map_slot-some f (slot n cs) e (rw hit at found) in
            let (u, has) = own c (ap (λ (x : ChildState). x.status) is_c ∙ waiting) in
            (u, ap (λ (j : Text). get j due') (sym same) ∙ has)
        | inr miss ↦
            let (u, has) = s.wakes n e (rw miss at found) waiting in (u, others n miss ∙ has)
      ];
}

module _ {W : Type 0} (spawner : Spawner W) where
  observe_phase-IsScheduled :
      (m : Machine W)
      → IsScheduled m.view.children m.backoff_until
      → IsScheduled (observe_phase spawner m).view.children (observe_phase spawner m).backoff_until
  observe_phase-IsScheduled m s = record {
    wakes = λ n e at waiting.
        let (c, before, move) =
          Pairs-slot ObserveMove ObserveMove-name n _ _ (observe_exits-ObserveMove spawner m) e
            (unfold observe_phase in at) in
        let (u, due) = s.wakes n c before (was_waiting c e move waiting) in
        (u, ap (get n) (observe_phase-backoff_until spawner m) ∙ due);
  }
    where
      was_waiting : (c e : ChildState) → ObserveMove c e → e.status ≡ backoff → c.status ≡ backoff
      was_waiting c e (ObserveMove.kept p) w = status_of c p ∙ w
      was_waiting c e (lost pid r p) w =
          absurd (ground (arith, ap (λ (x : ChildState). x.status) p))

  restart_one-IsScheduled :
      (name : Text) (now : ℕ) (m : Machine W) (os : List RestartOutcome) (o : RestartOutcome)
      (due : TextMap ℕ)
      → (restart_one spawner name now m).0 ≡ ok o
      → IsScheduled m.view.children (schedule now os due)
      → IsScheduled
          (restart_one spawner name now m).1.view.children
          (schedule now (os ++ o ∷ []) due)
  restart_one-IsScheduled name now m os o due q s = elim (restart_one-cases spawner name now m) [
    | inl (e, w, r) ↦ absurd (ground (arith, r))
    | inr (inl (pid, w, r)) ↦
        let is_o : RestartOutcome.restarted name pid (updated_count name m.view.children) ≡ o =
          ground (arith, r) in
        rw (r, ← is_o, schedule-append)
          (update-IsScheduled (to_restarted pid) (λ c. refl) name m.view.children
            (schedule now os due) _ s (λ n miss. unfold schedule in refl)
            (λ c w. absurd (ground arith)))
    | inr (inr (k, r)) ↦
        let is_o : entered_backoff name k ≡ o = ground (arith, r) in
        rw (r, ← is_o, schedule-append)
          (update-IsScheduled (to_backoff k) (λ c. refl) name m.view.children (schedule now os due)
            _ s (λ n miss. schedule-held now name n k (schedule now os due) ∙ rw miss)
            (λ c w. (
              now + from_secs backoff_secs,
              schedule-held now name name k (schedule now os due) ∙ rw (text_eq_refl name),
            )))
  ]

  restart_loop-IsScheduled :
      (ns : List Text) (os all : List RestartOutcome) (now : ℕ) (m : Machine W) (due : TextMap ℕ)
      → (restart_loop spawner ns os now m).0 ≡ ok all
      → IsScheduled m.view.children (schedule now os due)
      → IsScheduled (restart_loop spawner ns os now m).1.view.children (schedule now all due)
  unfolding restart_loop
  restart_loop-IsScheduled [] os all now m due q s =
      let same : os ≡ all = ground arith in
      subst (λ xs. IsScheduled m.view.children (schedule now xs due)) same s
  restart_loop-IsScheduled (n ∷ ns) os all now m due q s =
      elim (Result-cases (restart_one spawner n now m).0) [
        | inr (e, r) ↦ absurd (ground (arith, r))
        | inl (o, r) ↦
            rw (r, restart_loop)
              (restart_loop-IsScheduled ns (os ++ o ∷ []) all now (restart_one spawner n now m).1
                due (ground (arith, r)) (restart_one-IsScheduled n now m os o due r s))
      ]

  pub restart_phase-ok :
      (now : ℕ) (m : Machine W) (outcomes : List RestartOutcome)
      → (restart_exited spawner now m).0 ≡ ok outcomes
      → (restart_phase spawner now m).backoff_until ≡ schedule now outcomes m.backoff_until
  unfolding restart_phase
  restart_phase-ok now m outcomes q =
      rw (q, restart_phase)
        (ap (schedule now outcomes) (restart_exited-backoff_until spawner now m))

  restart_phase-IsScheduled :
      (now : ℕ) (m : Machine W) (outcomes : List RestartOutcome)
      → (restart_exited spawner now m).0 ≡ ok outcomes
      → IsScheduled m.view.children m.backoff_until
      → IsScheduled
          (restart_phase spawner now m).view.children
          (restart_phase spawner now m).backoff_until
  unfolding restart_exited
  restart_phase-IsScheduled now m outcomes q s =
      let loop : IsScheduled (restart_exited spawner now m).1.view.children
          (schedule now outcomes m.backoff_until) =
        restart_loop-IsScheduled (exited_names m.view.children) [] outcomes now m m.backoff_until q
          (unfold schedule in s) in
      subst (IsScheduled (restart_phase spawner now m).view.children)
        (sym (restart_phase-ok now m outcomes q))
        (subst
          (λ (v : SupervisorView). IsScheduled v.children (schedule now outcomes m.backoff_until))
          (sym (restart_phase-children spawner now m)) loop)

  -- If no start fails in it, a pass keeps a wake-up time for every child in backoff; the names are
  -- distinct.
  pub observer_pass-IsScheduled :
      (now : ℕ) (m : Machine W) (outcomes : List RestartOutcome)
      → IsDistinct (names m.view.children)
      → IsScheduled m.view.children m.backoff_until
      → (restart_exited spawner now (observe_phase spawner (clear_phase now m))).0 ≡ ok outcomes
      → IsScheduled
          (observer_pass spawner now m).view.children
          (observer_pass spawner now m).backoff_until
  unfolding observer_pass
  observer_pass-IsScheduled now m outcomes d s q =
      restart_phase-IsScheduled now (observe_phase spawner (clear_phase now m)) outcomes q
        (observe_phase-IsScheduled (clear_phase now m) (clear_phase-IsScheduled now m d s))
