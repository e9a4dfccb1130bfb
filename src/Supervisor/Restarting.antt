-- ===== src/Supervisor/Restarting.antt =====
-- Restarting exited children: what the phase changes.
use wintermute_platform.Prelude.{
  ℕ, ◌≡◌, refl, ◌∙◌, ◌≢◌, ◌⊎◌, inl, inr, false, List, [], ◌∷◌, ◌++◌, some, Text, text, text_eq,
  text_eq_iff, All, Pairs, Pairs-refl, Pairs-trans, Bool-cases, ok, err, Result-cases, ◌==◌, arith,
  Error,
}
use wintermute_platform.Platform.{canonical_spec}
use wintermute_platform.Protocol.{ChildState}
use wintermute_platform.Spawn.{Spawner}
use wintermute_platform.Platform.Tracker.{restarts_in_window}
use wintermute_platform.Supervisor.{
  Machine, RestartOutcome, named, to_restarted, to_backoff, recorded, noted, with_slot,
  updated_count, restart_now, restart_one, restart_loop, restart_exited, exited_names,
}
use wintermute_platform.Supervisor.Slots.{
  names, IsDistinct, slot, slot-update_first, Pairs-update_found, IsDistinct-exited_names,
  IsExitedAt, exited_names-IsExitedAt,
}
use wintermute_platform.Supervisor.Moves.{
  RestartMove, restarted, held, RestartMove-trans, is_exited→≡,
}

module _ {W : Type 0} (spawner : Spawner W) where
  -- The three ways in which a round of the restart loop can go.
  pub restart_one-cases :
      (name : Text) (now : ℕ) (m : Machine W)
      → ((e : Error) × (w : W) × (restart_one spawner name now m
            ≡ (err e, record (noted name now m) { world = w })))
        ⊎ ((pid : ℕ) × (w : W) × (restart_one spawner name now m ≡ (
          ok (RestartOutcome.restarted name pid (updated_count name m.view.children)),
          with_slot (named name) (to_restarted pid) (record (noted name now m) { world = w }),
        )))
        ⊎ ((k : ℕ) × (restart_one spawner name now m ≡ (
          ok (RestartOutcome.entered_backoff name k),
          with_slot (named name) (to_backoff k) (noted name now m),
        )))
  unfolding restart_one restart_now
  restart_one-cases name now m = elim (Bool-cases ((recorded name now m).1 == 0)) [
    | inr storm ↦ inr (inr (restarts_in_window (recorded name now m).0, ground arith))
    | inl calm ↦ elim (Result-cases (spawner.start (canonical_spec name) m.world).0) [
      | inr (e, q) ↦ inl (
        (text "restart child " ++ name) ∷ e,
        (spawner.start (canonical_spec name) m.world).1,
        rw calm (rw (q, restart_now) refl),
      )
      | inl (s, q) ↦ inr (
          inl (
            s.child_pid,
            (spawner.start (canonical_spec name) m.world).1,
            rw calm (rw (q, restart_now) refl),
          ))
    ]
  ]

  pub restart_loop-ok :
      (n : Text) (ns : List Text) (outcomes : List RestartOutcome) (now : ℕ) (m : Machine W)
      (o : RestartOutcome)
      → (restart_one spawner n now m).0 ≡ ok o
      → restart_loop spawner (n ∷ ns) outcomes now m
        ≡ restart_loop spawner ns (outcomes ++ o ∷ []) now (restart_one spawner n now m).1
  unfolding restart_loop
  restart_loop-ok n ns outcomes now m o q = rw (q, restart_loop) refl

  pub restart_loop-err :
      (n : Text) (ns : List Text) (outcomes : List RestartOutcome) (now : ℕ) (m : Machine W)
      (e : Error)
      → (restart_one spawner n now m).0 ≡ err e
      → restart_loop spawner (n ∷ ns) outcomes now m ≡ (err e, (restart_one spawner n now m).1)
  unfolding restart_loop
  restart_loop-err n ns outcomes now m e q = rw (q, restart_loop) refl

  restart_one-RestartMove :
      (name : Text) (now : ℕ) (m : Machine W)
      → IsExitedAt m.view.children name
      → Pairs RestartMove m.view.children (restart_one spawner name now m).1.view.children
  restart_one-RestartMove name now m at =
      let exited_at = λ (c : ChildState) (q : slot name m.view.children ≡ some c).
        is_exited→≡ c.status (ground (arith, at.at, at.holds)) in
      elim (restart_one-cases name now m) [
        | inl (e, w, q) ↦ rw q (Pairs-refl RestartMove (λ c. RestartMove.kept refl) m.view.children)
        | inr (inl (pid, w, q)) ↦ rw q (
            Pairs-update_found RestartMove (named name) (to_restarted pid)
              (λ c. RestartMove.kept refl) m.view.children
              λ c at. restarted pid (exited_at c at) refl)
        | inr (inr (k, q)) ↦ rw q (
            Pairs-update_found RestartMove (named name) (to_backoff k) (λ c. RestartMove.kept refl)
              m.view.children λ c at. held k (exited_at c at) refl)
      ]

  -- A round leaves the slots of the other names alone.
  pub slot-restart_one :
      (name : Text) (now : ℕ) (m : Machine W) (j : Text)
      → j ≢ name
      → slot j (restart_one spawner name now m).1.view.children ≡ slot j m.view.children
  slot-restart_one name now m j h =
      let other : text_eq name j ≡ false = ground (arith, text_eq_iff name j) in
      elim (restart_one-cases name now m) [
        | inl (e, w, q) ↦ rw q refl
        | inr (inl (pid, w, q)) ↦
            rw q
              (slot-update_first (to_restarted pid) (λ c. refl) name j m.view.children ∙ rw other)
        | inr (inr (k, q)) ↦
            rw q (slot-update_first (to_backoff k) (λ c. refl) name j m.view.children ∙ rw other)
      ]

  still_exited :
      (name : Text) (now : ℕ) (m : Machine W) (ns : List Text)
      → All (λ k. k ≢ name) ns
      → All (IsExitedAt m.view.children) ns
      → All (IsExitedAt (restart_one spawner name now m).1.view.children) ns
  still_exited name now m [] d h = tt
  still_exited name now m (n ∷ ns) d h = (
    record {
      child = h.0.child;
      at = slot-restart_one name now m n d.0 ∙ h.0.at;
      holds = h.0.holds;
    },
    still_exited name now m ns d.1 h.1,
  )

  restart_loop-RestartMove :
      (ns : List Text) (outcomes : List RestartOutcome) (now : ℕ) (m : Machine W)
      → IsDistinct ns
      → All (IsExitedAt m.view.children) ns
      → Pairs RestartMove m.view.children (restart_loop spawner ns outcomes now m).1.view.children
  unfolding restart_loop
  restart_loop-RestartMove [] outcomes now m d h =
      Pairs-refl RestartMove (λ c. RestartMove.kept refl) m.view.children
  restart_loop-RestartMove (n ∷ ns) outcomes now m d h =
      let one = restart_one-RestartMove n now m h.0 in
      elim (Result-cases (restart_one spawner n now m).0) [
        | inr (e, q) ↦ rw (q, restart_loop) one
        | inl (o, q) ↦
            rw (q, restart_loop)
              (Pairs-trans RestartMove RestartMove-trans _ _ _ one (
                restart_loop-RestartMove ns (outcomes ++ o ∷ []) now (restart_one spawner n now m).1
                  d.1 (still_exited n now m ns d.0 h.1)))
      ]

  -- Restarts: exited children are started again or held in backoff, and nothing else changes,
  -- whatever the launcher answers.
  pub restart_exited-RestartMove :
      (now : ℕ) (m : Machine W)
      → IsDistinct (names m.view.children)
      → Pairs RestartMove m.view.children (restart_exited spawner now m).1.view.children
  unfolding restart_exited
  restart_exited-RestartMove now m d =
      restart_loop-RestartMove (exited_names m.view.children) [] now m
        (IsDistinct-exited_names m.view.children d) (exited_names-IsExitedAt m.view.children d)
