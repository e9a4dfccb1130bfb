-- ===== src/Supervisor/Wakeups.antt =====
-- Which phases touch the wake-up times, and whose outcomes a restart pass reports.
use wintermute_platform.Prelude.{
  ◌+◌, ℕ, ◌≡◌, refl, sym, ◌∙◌, ◌≢◌, inl, inr, List, [], ◌∷◌, ◌++◌, none, Text, TextMap, text_eq_iff,
  get, remove, get-insert, get-remove, All, All-append, Result-cases, ok, arith, subst,
}
use wintermute_platform.Spawn.{Spawner}
use wintermute_platform.Supervisor.{
  backoff_secs, from_secs, exited_names, Machine, RestartOutcome, entered_backoff, observe_loop,
  observe_one, observe_exits, observe_phase, restart_one, restart_loop, restart_exited, remove_all,
  schedule,
}
use wintermute_platform.Supervisor.Restarting.{restart_one-cases}

pub get-remove_all :
    (n : Text) (ns : List Text) (due : TextMap ℕ)
    → get n due ≡ none
    → get n (remove_all ns due) ≡ none
unfolding remove_all
get-remove_all n [] due h = h
get-remove_all n (k ∷ ns) due h =
    get-remove_all n ns (remove k due) (ground (arith, get-remove k n due))

abbrev pub outcome_name : RestartOutcome → Text
outcome_name (RestartOutcome.restarted name _ _) = name
outcome_name (entered_backoff name _) = name

pub get-schedule :
    (n : Text) (now : ℕ) (outcomes : List RestartOutcome) (due : TextMap ℕ)
    → All (λ o. outcome_name o ≢ n) outcomes
    → get n due ≡ none
    → get n (schedule now outcomes due) ≡ none
unfolding schedule
get-schedule n now [] due a h = h
get-schedule n now (RestartOutcome.restarted _ _ _ ∷ os) due a h = get-schedule n now os due a.1 h
get-schedule n now (entered_backoff k _ ∷ os) due a h =
    get-schedule n now os _ a.1
      (ground (arith, get-insert k n (now + from_secs backoff_secs) due, text_eq_iff k n, a.0))

module _ {W : Type 0} (spawner : Spawner W) where
  observe_one-backoff_until :
      (probe : Text × ℕ) (m : Machine W)
      → (observe_one spawner probe m).1.backoff_until ≡ m.backoff_until
  unfolding observe_one
  observe_one-backoff_until (name, pid) m = ground arith

  observe_loop-backoff_until :
      (probes : List (Text × ℕ)) (seen : List Text) (m : Machine W)
      → (observe_loop spawner probes seen m).1.backoff_until ≡ m.backoff_until
  unfolding observe_loop
  observe_loop-backoff_until [] seen m = refl
  observe_loop-backoff_until (probe ∷ probes) seen m =
      elim (Result-cases (observe_one spawner probe m).0) [
        | inr (e, q) ↦ rw (q, observe_loop) (observe_one-backoff_until probe m)
        | inl (found, q) ↦
            rw (q, observe_loop)
              (observe_loop-backoff_until probes (seen ++ found) (observe_one spawner probe m).1
                ∙ observe_one-backoff_until probe m)
      ]

  pub observe_phase-backoff_until :
      (m : Machine W) → (observe_phase spawner m).backoff_until ≡ m.backoff_until
  unfolding observe_phase observe_exits
  observe_phase-backoff_until m = observe_loop-backoff_until _ [] m

  pub restart_one-backoff_until :
      (name : Text) (now : ℕ) (m : Machine W)
      → (restart_one spawner name now m).1.backoff_until ≡ m.backoff_until
  restart_one-backoff_until name now m = elim (restart_one-cases spawner name now m) [
    | inl (e, w, q) ↦ rw q refl
    | inr (inl (pid, w, q)) ↦ rw q refl
    | inr (inr (k, q)) ↦ rw q refl
  ]

  restart_loop-backoff_until :
      (ns : List Text) (outcomes : List RestartOutcome) (now : ℕ) (m : Machine W)
      → (restart_loop spawner ns outcomes now m).1.backoff_until ≡ m.backoff_until
  unfolding restart_loop
  restart_loop-backoff_until [] outcomes now m = refl
  restart_loop-backoff_until (n ∷ ns) outcomes now m =
      elim (Result-cases (restart_one spawner n now m).0) [
        | inr (e, q) ↦ rw (q, restart_loop) (restart_one-backoff_until n now m)
        | inl (o, q) ↦
            rw (q, restart_loop)
              (restart_loop-backoff_until ns (outcomes ++ o ∷ []) now
                  (restart_one spawner n now m).1
                ∙ restart_one-backoff_until n now m)
      ]

  pub restart_exited-backoff_until :
      (now : ℕ) (m : Machine W) → (restart_exited spawner now m).1.backoff_until ≡ m.backoff_until
  unfolding restart_exited
  restart_exited-backoff_until now m = restart_loop-backoff_until _ [] now m

  pub outcome_name-restart_one :
      (name : Text) (now : ℕ) (m : Machine W) (o : RestartOutcome)
      → (restart_one spawner name now m).0 ≡ ok o
      → outcome_name o ≡ name
  outcome_name-restart_one name now m o h = elim (restart_one-cases spawner name now m) [
    | inl (e, w, q) ↦ absurd (ground (arith, q))
    | inr (inl (pid, w, q)) ↦ ground (arith, q)
    | inr (inr (k, q)) ↦ ground (arith, q)
  ]

  pub restart_loop-outcomes :
      (P : Text → Type 0) (ns : List Text) (outcomes all : List RestartOutcome) (now : ℕ)
      (m : Machine W)
      → All P ns
      → All (λ o. P (outcome_name o)) outcomes
      → (restart_loop spawner ns outcomes now m).0 ≡ ok all
      → All (λ o. P (outcome_name o)) all
  unfolding restart_loop
  restart_loop-outcomes P [] outcomes all now m a b h =
      let same : outcomes ≡ all = ground arith in subst (All (λ o. P (outcome_name o))) same b
  restart_loop-outcomes P (n ∷ ns) outcomes all now m a b h =
      elim (Result-cases (restart_one spawner n now m).0) [
        | inr (e, q) ↦ absurd (ground (arith, q))
        | inl (o, q) ↦
            restart_loop-outcomes P ns (outcomes ++ o ∷ []) all now (restart_one spawner n now m).1
              a.1
              (All-append (λ x. P (outcome_name x)) outcomes (o ∷ []) b
                (subst P (sym (outcome_name-restart_one n now m o q)) a.0, tt))
              (ground (arith, q))
      ]

  pub restart_exited-outcomes :
      (P : Text → Type 0) (all : List RestartOutcome) (now : ℕ) (m : Machine W)
      → All P (exited_names m.view.children)
      → (restart_exited spawner now m).0 ≡ ok all
      → All (λ o. P (outcome_name o)) all
  unfolding restart_exited
  restart_exited-outcomes P all now m a q =
      restart_loop-outcomes P (exited_names m.view.children) [] all now m a tt q
