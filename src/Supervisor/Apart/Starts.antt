-- ===== src/Supervisor/Apart/Starts.antt =====
-- A launcher that never fails: no start and no restart is refused.
use wintermute_platform.Prelude.{
  Result-cases, ℕ, List, [], ◌∷◌, ◌++◌, Text, Bool-cases, ok, ◌==◌, ◌≡◌, refl, ◌∙◌, inl, inr, arith,
}
use wintermute_platform.Platform.{canonical_children, ChildSpec, canonical_spec}
use wintermute_platform.Platform.Tracker.{restarts_in_window}
use wintermute_platform.Spawn.{Spawner, StartedChild}
use wintermute_platform.Supervisor.{
  start_all, start_specs, start_one, RestartOutcome, Machine, restart_exited, recorded,
  updated_count, restart_one, restart_now, restart_loop, exited_names,
}

-- No start fails.
abbrev pub AlwaysStarts : {W : Type 0} → Spawner W → Type 0
AlwaysStarts {W} spawner =
    (spec : ChildSpec) (w : W) → (child : StartedChild) × ((spawner.start spec w).0 ≡ ok child)

module _ {W : Type 0} (spawner : Spawner W) (starts : AlwaysStarts spawner) where
  restart_one-total :
      (name : Text) (now : ℕ) (m : Machine W)
      → (o : RestartOutcome) × ((restart_one spawner name now m).0 ≡ ok o)
  unfolding restart_one restart_now
  restart_one-total name now m = elim (Bool-cases ((recorded name now m).1 == 0)) [
    | inr storm ↦ (
      RestartOutcome.entered_backoff name (restarts_in_window (recorded name now m).0),
      rw storm refl,
    )
    | inl calm ↦
        let (child, q) = starts (canonical_spec name) m.world in
        (
          RestartOutcome.restarted name child.child_pid (updated_count name m.view.children),
          ground (arith, calm, q),
        )
  ]

  restart_loop-total :
      (ns : List Text) (os : List RestartOutcome) (now : ℕ) (m : Machine W)
      → (all : List RestartOutcome) × ((restart_loop spawner ns os now m).0 ≡ ok all)
  unfolding restart_loop
  restart_loop-total [] os now m = (os, refl)
  restart_loop-total (n ∷ ns) os now m =
      let (o, q) = restart_one-total n now m in
      let (all, rest) = restart_loop-total ns (os ++ o ∷ []) now (restart_one spawner n now m).1 in
      (all, rw (q, restart_loop) rest)

  pub restart_exited-total :
      (now : ℕ) (m : Machine W)
      → (all : List RestartOutcome) × ((restart_exited spawner now m).0 ≡ ok all)
  unfolding restart_exited
  restart_exited-total now m = restart_loop-total (exited_names m.view.children) [] now m

  start_one-total : (spec : ChildSpec) (m : Machine W) → (start_one spawner spec m).0 ≡ ok tt
  unfolding start_one
  start_one-total spec m = let (child, q) = starts spec m.world in ground (arith, q)

  start_specs-total :
      (specs : List ChildSpec) (m : Machine W) → (start_specs spawner specs m).0 ≡ ok tt
  unfolding start_specs
  start_specs-total [] m = refl
  start_specs-total (spec ∷ specs) m =
      rw (start_one-total spec m, start_specs)
        (start_specs-total specs (start_one spawner spec m).1)

  pub start_all-total : (m : Machine W) → (start_all spawner m).0 ≡ ok tt
  unfolding start_all
  start_all-total m = start_specs-total canonical_children m

-- No start is recorded as a restart.
module _ {W : Type 0} (spawner : Spawner W) where
  start_one-trackers :
      (spec : ChildSpec) (m : Machine W) → (start_one spawner spec m).1.trackers ≡ m.trackers
  unfolding start_one
  start_one-trackers spec m = ground arith

  start_specs-trackers :
      (specs : List ChildSpec) (m : Machine W)
      → (start_specs spawner specs m).1.trackers ≡ m.trackers
  unfolding start_specs
  start_specs-trackers [] m = refl
  start_specs-trackers (spec ∷ specs) m = elim (Result-cases (start_one spawner spec m).0) [
    | inr (e, q) ↦ rw (q, start_specs) (start_one-trackers spec m)
    | inl (u, q) ↦
        rw (q, start_specs)
          (start_specs-trackers specs (start_one spawner spec m).1 ∙ start_one-trackers spec m)
  ]

  pub start_all-trackers : (m : Machine W) → (start_all spawner m).1.trackers ≡ m.trackers
  unfolding start_all
  start_all-trackers m = start_specs-trackers canonical_children m
