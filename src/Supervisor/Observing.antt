-- ===== src/Supervisor/Observing.antt =====
-- Clearing elapsed backoffs and observing exits: what these phases change.
use wintermute_platform.Prelude.{
  Option-cases, get, ◌≤◌, ℕ, ◌≡◌, refl, inl, inr, Bool, true, List, [], ◌∷◌, ◌++◌, some, Text,
  TextMap, find, Pairs, Pairs-refl, Pairs-trans, Bool-cases, Result-cases, arith,
}
use wintermute_platform.Protocol.{backoff, running, ChildState}
use wintermute_platform.Spawn.{Spawner}
use wintermute_platform.Supervisor.{
  has_elapsed, Machine, to_exited, running_named, clear_expired_backoffs, observe_one, observe_loop,
  observe_exits,
}
use wintermute_platform.Supervisor.Slots.{Pairs-update_found}
use wintermute_platform.Supervisor.Moves.{
  ClearMove, woken, ObserveMove, lost, ObserveMove-trans, is_running→≡,
}

elapsed-backoff :
    (due : TextMap ℕ) (now : ℕ) (c : ChildState)
    → has_elapsed due now c ≡ true
    → (c.status ≡ backoff) × (until : ℕ) × (get c.name due ≡ some until) × (until ≤ now)
elapsed-backoff due now c h = elim (Option-cases (get c.name due)) [
  | inl e ↦ absurd (ground (arith, e))
  | inr (until, e) ↦ (ground arith, until, e, ground (arith, e))
]

-- Clearing wakes exactly the slots whose backoff has elapsed.
pub clear-ClearMove :
    (due : TextMap ℕ) (now : ℕ) (cs : List ChildState)
    → Pairs (ClearMove due now) cs (clear_expired_backoffs due now cs).0
unfolding clear_expired_backoffs
clear-ClearMove due now [] = tt
clear-ClearMove due now (c ∷ cs) = elim (Bool-cases (has_elapsed due now c)) [
  | inl e ↦
      let (s, until, g, l) = elapsed-backoff due now c e in
      rw e (woken until s g l refl, clear-ClearMove due now cs)
  | inr e ↦ rw e (ClearMove.kept e refl, clear-ClearMove due now cs)
]

pub found_satisfies :
    (p : ChildState → Bool) (cs : List ChildState) (c : ChildState)
    → find p cs ≡ some c
    → p c ≡ true
found_satisfies p [] c h = cc
found_satisfies p (d ∷ cs) c h = elim (Bool-cases (p d)) [
  | inl e ↦ let same : d ≡ c = ground arith in rw (← same) e
  | inr e ↦ found_satisfies p cs c (ground arith)
]

pub running_named-status :
    (n : Text) (c : ChildState) → running_named n c ≡ true → c.status ≡ running
running_named-status n c h = is_running→≡ c.status (ground arith)

module _ {W : Type 0} (spawner : Spawner W) where
  observe_one-ObserveMove :
      (probe : Text × ℕ) (m : Machine W)
      → Pairs ObserveMove m.view.children (observe_one spawner probe m).1.view.children
  unfolding observe_one
  observe_one-ObserveMove (name, pid) m =
      let same = Pairs-refl ObserveMove (λ c. ObserveMove.kept refl) m.view.children in
      elim (Result-cases (spawner.still_running pid m.world).0) [
        | inr (e, q) ↦ rw (q, observe_one) same
        | inl (alive, q) ↦ elim (Bool-cases alive) [
          | inl a ↦ rw (q, observe_one, a) same
          | inr a ↦
              rw (q, observe_one, a)
                (Pairs-update_found ObserveMove (running_named name) (to_exited pid)
                  (λ c. ObserveMove.kept refl) m.view.children
                  λ c at.
                    lost pid (running_named-status name c (found_satisfies _ m.view.children c at))
                      refl)
        ]
      ]

  observe_loop-ObserveMove :
      (probes : List (Text × ℕ)) (seen : List Text) (m : Machine W)
      → Pairs ObserveMove m.view.children (observe_loop spawner probes seen m).1.view.children
  unfolding observe_loop
  observe_loop-ObserveMove [] seen m =
      Pairs-refl ObserveMove (λ c. ObserveMove.kept refl) m.view.children
  observe_loop-ObserveMove (probe ∷ probes) seen m =
      let one = observe_one-ObserveMove probe m in
      elim (Result-cases (observe_one spawner probe m).0) [
        | inr (e, q) ↦ rw (q, observe_loop) one
        | inl (found, q) ↦
            rw (q, observe_loop)
              (Pairs-trans ObserveMove ObserveMove-trans _ _ _ one
                (observe_loop-ObserveMove probes (seen ++ found) (observe_one spawner probe m).1))
      ]

  -- Observation: running children may be found gone, and nothing else changes.
  pub observe_exits-ObserveMove :
      (m : Machine W) → Pairs ObserveMove m.view.children (observe_exits spawner m).1.view.children
  unfolding observe_exits
  observe_exits-ObserveMove m = observe_loop-ObserveMove _ [] m
