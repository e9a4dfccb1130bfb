-- ===== src/Supervisor/Control/Interleaving.antt =====
-- Requests between the passes of the observer: neither disturbs the other.
use wintermute_platform.Prelude.{
  ◌==◌, ◌++◌, Bool-cases, ℕ, Bool, List, [], ◌∷◌, Result, Result-cases, ok, err, ◌≡◌, refl, sym,
  ◌∙◌, ap, inl, inr, Text,
}
use wintermute_platform.Protocol.{Request}
use wintermute_platform.Spawn.{Spawner}
use wintermute_platform.Supervisor.{
  canonical_spec, recorded, RestartOutcome, Machine, observer_pass, observer_run, clear_phase,
  observe_phase, restart_phase, schedule, observe_one, observe_loop, observe_exits, restart_now,
  restart_one, restart_loop, restart_exited, live_pids, exited_names,
}
use wintermute_platform.Supervisor.Control.{LogHost, dispatch}
use wintermute_platform.Supervisor.Control.Requests.{muted_by, with_muted, dispatch-muted_by}

-- One thing that happens to the supervisor's state.
pub data Happening : Type 0 where
  tick : (now : ℕ) → Happening
  request : Request → Happening

-- The machine with another `muted`.
abbrev pub muting : {W : Type 0} → Bool → Machine W → Machine W
muting b m = record m { view = with_muted b m.view }

abbrev pub both : {W A : Type 0} → Bool → Result A × Machine W → Result A × Machine W
both b x = (x.0, muting b x.1)

module _ {W : Type 0} (spawner : Spawner W) where
  -- What the loops do with the result of a round.
  abbrev observe_next :
      List (Text × ℕ) → List Text → Result (List Text) × Machine W → Result (List Text) × Machine W
  observe_next probes lost x = elim x.0 [
    | err e ↦ (err e, x.1)
    | ok more ↦ observe_loop spawner probes (lost ++ more) x.1
  ]

  abbrev restart_next :
      List Text
      → List RestartOutcome
      → ℕ
      → Result RestartOutcome × Machine W
      → Result (List RestartOutcome) × Machine W
  restart_next names outcomes now x = elim x.0 [
    | err e ↦ (err e, x.1)
    | ok outcome ↦ restart_loop spawner names (outcomes ++ outcome ∷ []) now x.1
  ]

abbrev pub scheduled : {W : Type 0} → ℕ → Result (List RestartOutcome) × Machine W → Machine W
scheduled now x = elim x.0 [
  | err e ↦ x.1
  | ok outcomes ↦ record x.1 { backoff_until = schedule now outcomes x.1.backoff_until }
]

module _ {W : Type 0} (spawner : Spawner W) (b : Bool) where
  observe_one-muting :
      (probe : Text × ℕ) (m : Machine W)
      → observe_one spawner probe (muting b m) ≡ both b (observe_one spawner probe m)
  unfolding observe_one
  observe_one-muting (name, pid) m = elim (Result-cases (spawner.still_running pid m.world).0) [
    | inr (x, e) ↦ rw (e, observe_one) refl
    | inl (live, e) ↦ elim (Bool-cases live) [
      | inl l ↦ rw (e, l, observe_one) refl
      | inr l ↦ rw (e, l, observe_one) refl
    ]
  ]

  observe_next-both :
      (probes : List (Text × ℕ)) (lost : List Text)
      → ((lost : List Text) (m : Machine W)
          → observe_loop spawner probes lost (muting b m)
            ≡ both b (observe_loop spawner probes lost m))
      → (x : Result (List Text) × Machine W)
      → observe_next spawner probes lost (both b x) ≡ both b (observe_next spawner probes lost x)
  observe_next-both probes lost same (err e, m) = refl
  observe_next-both probes lost same (ok more, m) = same (lost ++ more) m

  pub observe_loop-muting :
      (probes : List (Text × ℕ)) (lost : List Text) (m : Machine W)
      → observe_loop spawner probes lost (muting b m) ≡ both b (observe_loop spawner probes lost m)
  unfolding observe_loop
  observe_loop-muting [] lost m = refl
  observe_loop-muting (probe ∷ probes) lost m =
      ap (observe_next spawner probes lost) (observe_one-muting probe m)
      ∙ observe_next-both probes lost (observe_loop-muting probes) (observe_one spawner probe m)

  restart_one-muting :
      (name : Text) (now : ℕ) (m : Machine W)
      → restart_one spawner name now (muting b m) ≡ both b (restart_one spawner name now m)
  unfolding restart_one restart_now
  restart_one-muting name now m = elim (Bool-cases ((recorded name now m).1 == 0)) [
    | inr e ↦ rw (e, restart_one) refl
    | inl e ↦ elim (Result-cases (spawner.start (canonical_spec name) m.world).0) [
      | inr (x, r) ↦ rw (e, r, restart_one, restart_now) refl
      | inl (started, r) ↦ rw (e, r, restart_one, restart_now) refl
    ]
  ]

  restart_next-both :
      (names : List Text) (outcomes : List RestartOutcome) (now : ℕ)
      → ((outcomes : List RestartOutcome) (m : Machine W)
          → restart_loop spawner names outcomes now (muting b m)
            ≡ both b (restart_loop spawner names outcomes now m))
      → (x : Result RestartOutcome × Machine W)
      → restart_next spawner names outcomes now (both b x)
        ≡ both b (restart_next spawner names outcomes now x)
  restart_next-both names outcomes now same (err e, m) = refl
  restart_next-both names outcomes now same (ok outcome, m) = same (outcomes ++ outcome ∷ []) m

  pub restart_loop-muting :
      (names : List Text) (now : ℕ) (outcomes : List RestartOutcome) (m : Machine W)
      → restart_loop spawner names outcomes now (muting b m)
        ≡ both b (restart_loop spawner names outcomes now m)
  unfolding restart_loop
  restart_loop-muting [] now outcomes m = refl
  restart_loop-muting (name ∷ names) now outcomes m =
      ap (restart_next spawner names outcomes now) (restart_one-muting name now m)
      ∙ restart_next-both names outcomes now (restart_loop-muting names now)
          (restart_one spawner name now m)

  pub scheduled-both :
      (now : ℕ) (x : Result (List RestartOutcome) × Machine W)
      → scheduled now (both b x) ≡ muting b (scheduled now x)
  scheduled-both now (err e, m) = refl
  scheduled-both now (ok outcomes, m) = refl

  restart_exited-muting :
      (now : ℕ) (m : Machine W)
      → restart_exited spawner now (muting b m) ≡ both b (restart_exited spawner now m)
  unfolding restart_exited
  restart_exited-muting now m = restart_loop-muting (exited_names m.view.children) now [] m

  restart_phase-scheduled :
      (now : ℕ) (m : Machine W)
      → restart_phase spawner now m ≡ scheduled now (restart_exited spawner now m)
  unfolding restart_phase
  restart_phase-scheduled now m = refl

  pub restart_phase-muting :
      (now : ℕ) (m : Machine W)
      → restart_phase spawner now (muting b m) ≡ muting b (restart_phase spawner now m)
  restart_phase-muting now m =
      restart_phase-scheduled now (muting b m)
      ∙ ap (scheduled now) (restart_exited-muting now m)
      ∙ scheduled-both now (restart_exited spawner now m)
      ∙ ap (muting b) (sym (restart_phase-scheduled now m))

  observer_pass-muting :
      (now : ℕ) (m : Machine W)
      → observer_pass spawner now (muting b m) ≡ muting b (observer_pass spawner now m)
  unfolding observer_pass observe_phase observe_exits clear_phase
  observer_pass-muting now m =
      let cleared = clear_phase now m in
      ap (λ (x : Result (List Text) × Machine W). restart_phase spawner now x.1)
        (observe_loop-muting (live_pids cleared.view.children) [] cleared)
      ∙ restart_phase-muting now (observe_phase spawner cleared)

  observer_pass-muted :
      (now : ℕ) (m : Machine W) → m.view.muted ≡ b → (observer_pass spawner now m).view.muted ≡ b
  observer_pass-muted now m e =
      ap (λ c. (observer_pass spawner now (muting c m)).view.muted) e
      ∙ ap (λ (x : Machine W). x.view.muted) (observer_pass-muting now m)

  pub observer_run-muting :
      (times : List ℕ) (m : Machine W)
      → observer_run spawner times (muting b m) ≡ muting b (observer_run spawner times m)
  unfolding observer_run
  observer_run-muting [] m = refl
  observer_run-muting (now ∷ later) m =
      ap (observer_run spawner later) (observer_pass-muting now m)
      ∙ observer_run-muting later (observer_pass spawner now m)

-- The times of the passes, and the requests, of a history.
abbrev pub ticks : List Happening → List ℕ
ticks [] = []
ticks (tick now ∷ later) = now ∷ ticks later
ticks (request req ∷ later) = ticks later

abbrev pub muted_by_all : List Happening → Bool → Bool
muted_by_all [] b = b
muted_by_all (tick now ∷ later) b = muted_by_all later b
muted_by_all (request req ∷ later) b = muted_by_all later (muted_by req b)

module _ {W : Type 0} (spawner : Spawner W) (host : LogHost) where
  pub happens : Happening → Machine W → Machine W
  unfolding observer_pass dispatch
  happens (tick now) m = observer_pass spawner now m
  happens (request req) m = record m { view = (dispatch host req m.view).1 }

  pub history : List Happening → Machine W → Machine W
  unfolding happens
  history [] m = m
  history (h ∷ later) m = history later (happens h m)

  -- However the passes of the observer and the requests of the clients interleave, the result is
  -- that of the passes alone, with `muted` as the requests alone leave it.
  pub history-observer_run :
      (hs : List Happening) (m : Machine W)
      → history hs m ≡ muting (muted_by_all hs m.view.muted) (observer_run spawner (ticks hs) m)
  unfolding history happens observer_run
  history-observer_run [] m = refl
  history-observer_run (tick now ∷ later) m =
      history-observer_run later (observer_pass spawner now m)
      ∙ ap
          (λ c.
            muting (muted_by_all later c)
              (observer_run spawner (ticks later) (observer_pass spawner now m)))
          (observer_pass-muted spawner m.view.muted now m refl)
  history-observer_run (request req ∷ later) m =
      let b = muted_by req m.view.muted in
      ap (λ v. history later (record m { view = v })) (dispatch-muted_by host req m.view)
      ∙ history-observer_run later (muting b m)
      ∙ ap (muting (muted_by_all later b)) (observer_run-muting spawner b (ticks later) m)
