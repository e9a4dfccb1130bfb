-- ===== src/Supervisor/Apart/Passes.antt =====
-- The first two phases of a pass, seen from one child.
use wintermute_platform.Prelude.{
  ℕ, Bool, true, false, ◌&&◌, List, [], ◌∷◌, ◌++◌, Text, TextMap, some, none, text_eq, text_eq_iff,
  get, get_or, remove, get-remove, Bool-cases, Result-cases, ◌≡◌, refl, sym, ap, ◌∙◌, inl, inr,
  arith,
}
use wintermute_platform.Platform.Tracker.{default_tracker}
use wintermute_platform.Protocol.{ChildState, is_exited, is_backoff}
use wintermute_platform.Spawn.{Spawner}
use wintermute_platform.Supervisor.{
  Machine, has_elapsed, remove_all, clear_phase, observe_one, observe_loop, observe_exits,
  observe_phase, exited_names,
}
use wintermute_platform.Supervisor.Slots.{
  slot, names, IsDistinct, slot-name, selected, selected-IsAt, Pairs-slot_forward,
}
use wintermute_platform.Supervisor.Moves.{
  ClearMove, ClearMove-name, woken, ObserveMove, ObserveMove-name, lost,
}
use wintermute_platform.Supervisor.Observing.{clear-ClearMove, observe_exits-ObserveMove}
use wintermute_platform.Supervisor.Recovery.{IsElem, cleared-selected}
use wintermute_platform.Supervisor.Wakeups.{observe_phase-backoff_until, get-remove_all}
use wintermute_platform.Supervisor.Scheduling.{apart_of_IsAt, get-remove_all_apart}
use wintermute_platform.Supervisor.Apart.{Local, IsLocal, is_over, local_clear, local_observe}

-- The wake-up time of a selected slot is removed.
get-remove_all-selected :
    (p : ChildState → Bool) (n : Text) (cs : List ChildState) (c : ChildState) (due : TextMap ℕ)
    → slot n cs ≡ some c
    → p c ≡ true
    → get n (remove_all (selected p cs) due) ≡ none
unfolding remove_all
get-remove_all-selected p n [] c due at h = cc
get-remove_all-selected p n (d ∷ cs) c due at h = elim (Bool-cases (text_eq d.name n)) [
  | inl e ↦
      let same : d ≡ c = ground (arith, at, e) in
      rw (ap p same ∙ h)
        (get-remove_all n (selected p cs) (remove d.name due) (get-remove d.name n due ∙ rw e refl))
  | inr e ↦ elim (Bool-cases (p d)) [
    | inl s ↦ rw s (get-remove_all-selected p n cs c (remove d.name due) (ground (arith, at, e)) h)
    | inr s ↦ rw s (get-remove_all-selected p n cs c due (ground (arith, at, e)) h)
  ]
]

-- An exited slot is visited, and any other is not.
pub exited-IsElem :
    (n : Text) (cs : List ChildState) (c : ChildState)
    → slot n cs ≡ some c
    → is_exited c.status ≡ true
    → IsElem n (exited_names cs)
unfolding exited_names
exited-IsElem n [] c at h = cc
exited-IsElem n (d ∷ cs) c at h = elim (Bool-cases (text_eq d.name n)) [
  | inl e ↦
      let same : d ≡ c = ground (arith, at, e) in
      rw (ap (λ (x : ChildState). is_exited x.status) same ∙ h, exited_names)
        (inl (sym ((text_eq_iff d.name n).0 e)))
  | inr e ↦
      let rest = exited-IsElem n cs c (ground (arith, at, e)) h in
      elim (Bool-cases (is_exited d.status)) [
        | inl s ↦ rw (s, exited_names) (inr rest)
        | inr s ↦ rw (s, exited_names) rest
      ]
]

module _ {W : Type 0} (n : Text) (now : ℕ) (m : Machine W) (l : Local)
    (d : IsDistinct (names m.view.children))
    (s : IsLocal n m.view.children m.trackers m.backoff_until l) where
  has_elapsed-local :
      has_elapsed m.backoff_until now s.child ≡ (is_backoff l.status && is_over l.due now)
  has_elapsed-local =
      let wakes =
        ap (λ k. get k m.backoff_until) (slot-name n m.view.children s.child s.at) ∙ s.wakes in
      ap (λ o. is_backoff s.child.status && is_over o now) wakes
      ∙ ap (λ x. is_backoff x && is_over l.due now) s.status

  cleared-IsLocal :
      (c : ChildState)
      → slot n (clear_phase now m).view.children ≡ some c
      → ClearMove m.backoff_until now s.child c
      → IsLocal n
          (clear_phase now m).view.children
          m.trackers
          (clear_phase now m).backoff_until
          (local_clear now l)
  unfolding clear_phase
  cleared-IsLocal c at (ClearMove.kept q e) =
      let apart =
        apart_of_IsAt (has_elapsed m.backoff_until now) n s.child m.view.children _ s.at q
          (selected-IsAt (has_elapsed m.backoff_until now) m.view.children d) in
      rw (sym has_elapsed-local ∙ q) (record {
        child = c;
        at = at;
        status = sym (ap (λ (x : ChildState). x.status) e) ∙ s.status;
        tracker = s.tracker;
        wakes =
            ap (λ ns. get n (remove_all ns m.backoff_until))
              (cleared-selected m.backoff_until now m.view.children)
            ∙ get-remove_all_apart n _ m.backoff_until apart
            ∙ s.wakes;
      })
  cleared-IsLocal c at (woken until b g le e) =
      let elapsed : has_elapsed m.backoff_until now s.child ≡ true =
        rw (b, g) (ground (arith, le)) in
      rw (sym has_elapsed-local ∙ elapsed) (record {
        child = c;
        at = at;
        status = ap (λ (x : ChildState). x.status) e;
        tracker = s.tracker;
        wakes =
            ap (λ ns. get n (remove_all ns m.backoff_until))
              (cleared-selected m.backoff_until now m.view.children)
            ∙ get-remove_all-selected (has_elapsed m.backoff_until now) n m.view.children s.child
                m.backoff_until s.at elapsed;
      })

  pub clear_phase-IsLocal :
      IsLocal n
        (clear_phase now m).view.children
        (clear_phase now m).trackers
        (clear_phase now m).backoff_until
        (local_clear now l)
  unfolding clear_phase
  clear_phase-IsLocal =
      let (c, at, move) =
        Pairs-slot_forward (ClearMove m.backoff_until now) (ClearMove-name m.backoff_until now) n _
          _ (clear-ClearMove m.backoff_until now m.view.children) s.child s.at in
      cleared-IsLocal c at move

module _ {W : Type 0} (spawner : Spawner W) where
  observe_one-trackers :
      (probe : Text × ℕ) (m : Machine W) → (observe_one spawner probe m).1.trackers ≡ m.trackers
  unfolding observe_one
  observe_one-trackers (name, pid) m = ground arith

  observe_loop-trackers :
      (probes : List (Text × ℕ)) (seen : List Text) (m : Machine W)
      → (observe_loop spawner probes seen m).1.trackers ≡ m.trackers
  unfolding observe_loop
  observe_loop-trackers [] seen m = refl
  observe_loop-trackers (probe ∷ probes) seen m =
      elim (Result-cases (observe_one spawner probe m).0) [
        | inr (e, q) ↦ rw (q, observe_loop) (observe_one-trackers probe m)
        | inl (found, q) ↦
            rw (q, observe_loop)
              (observe_loop-trackers probes (seen ++ found) (observe_one spawner probe m).1
                ∙ observe_one-trackers probe m)
      ]

  pub observe_phase-trackers : (m : Machine W) → (observe_phase spawner m).trackers ≡ m.trackers
  unfolding observe_phase observe_exits
  observe_phase-trackers m = observe_loop-trackers _ [] m

  observed-status :
      (l : Local) (c e : ChildState)
      → c.status ≡ l.status
      → ObserveMove c e
      → (alive : Bool) × (e.status ≡ (local_observe alive l).status)
  observed-status l c e s (ObserveMove.kept q) =
      (true, sym (ap (λ (x : ChildState). x.status) q) ∙ s ∙ ground arith)
  observed-status l c e s (lost pid r q) =
      (false, ap (λ (x : ChildState). x.status) q ∙ rw (sym s ∙ r) refl)

  pub observe_phase-IsLocal :
      (n : Text) (m : Machine W) (l : Local)
      → IsLocal n m.view.children m.trackers m.backoff_until l
      → (alive : Bool) × IsLocal n
          (observe_phase spawner m).view.children
          (observe_phase spawner m).trackers
          (observe_phase spawner m).backoff_until
          (local_observe alive l)
  observe_phase-IsLocal n m l s =
      let (c, at, move) =
        Pairs-slot_forward ObserveMove ObserveMove-name n _ _ (observe_exits-ObserveMove spawner m)
          s.child s.at in
      let (alive, status) = observed-status l s.child c s.status move in
      (
        alive,
        record {
          child = c;
          at = unfold observe_phase in at;
          status = status;
          tracker =
              ap (λ t. get_or default_tracker (get n t)) (observe_phase-trackers m)
              ∙ s.tracker
              ∙ ground arith;
          wakes = ap (get n) (observe_phase-backoff_until spawner m) ∙ s.wakes ∙ ground arith;
        },
      )
