-- ===== src/Supervisor/Apart/Storms.antt =====
-- The restart-storm limit of the whole supervisor: how many restarts a run of passes can add to a
-- child.
use wintermute_platform.Supervisor.Boot.{startup_order-IsDistinct, start_all-names}
use wintermute_platform.Prelude.{
  get, ℕ, ◌+◌, ◌≤◌, ◌<◌, true, List, [], ◌∷◌, Text, All, length, ◌≡◌, refl, ap, ◌∙◌, subst, arith,
}
use wintermute_platform.Platform.{
  from_secs, restart_window_secs, restart_storm_threshold, backoff_secs,
}
use wintermute_platform.Platform.Tracker.{RestartTracker, record_at}
use wintermute_platform.Platform.Tracker.Window.{IsSorted}
use wintermute_platform.Platform.Tracker.RateLimit.{
  granted, within, count, same_settings, granted-lt-threshold,
}
use wintermute_platform.Spawn.{Spawner}
use wintermute_platform.Supervisor.{Machine, observer_pass, observer_run, start_all, new_supervisor}
use wintermute_platform.Supervisor.Slots.{Pairs-names, names, IsDistinct}
use wintermute_platform.Supervisor.Lifecycle.{
  observer_run-PassMove, PassMove-name, observer_pass-IsDistinct, PassMove, PassMove-IsLifecycle,
}
use wintermute_platform.Supervisor.Apart.Starts.{start_all-trackers}
use wintermute_platform.Supervisor.Apart.Tally.{restarts_of, tracker_of, untried, tried}
use wintermute_platform.Supervisor.Apart.Tally.Passes.{observer_pass-IsTallied}

-- Some of the times, in their order.
data IsPart : List ℕ → List ℕ → Type 0 where
  done : IsPart [] []
  skip : {xs ys : List ℕ} (y : ℕ) → IsPart xs ys → IsPart xs (y ∷ ys)
  keep : {xs ys : List ℕ} (y : ℕ) → IsPart xs ys → IsPart (y ∷ xs) (y ∷ ys)

All-IsPart : (P : ℕ → Type 0) {xs ys : List ℕ} → IsPart xs ys → All P ys → All P xs
All-IsPart P done a = tt
All-IsPart P (skip y p) a = All-IsPart P p a.1
All-IsPart P (keep y p) a = (a.0, All-IsPart P p a.1)

IsSorted-IsPart : {xs ys : List ℕ} → IsPart xs ys → IsSorted ys → IsSorted xs
IsSorted-IsPart done s = tt
IsSorted-IsPart (skip y p) s = IsSorted-IsPart p s.1
IsSorted-IsPart (keep y p) s = (All-IsPart (λ u. y ≤ u) p s.0, IsSorted-IsPart p s.1)

-- What is asked for within the interval is granted within it.
length-granted :
    (a w : ℕ) (t : RestartTracker) (times : List ℕ)
    → All (λ u. within a w u ≡ true) times
    → length (granted t times) ≡ count (within a w) (granted t times)
unfolding granted
length-granted a w t [] h = refl
length-granted a w t (now ∷ later) h =
    ground (arith, length-granted a w (record_at t now).0 later h.1)

module _ {W : Type 0} (spawner : Spawner W) (n : Text) where
  -- The passes at some of the times record a restart of the child.
  restarts-le-granted :
      (times : List ℕ) (m : Machine W)
      → IsDistinct (names m.view.children)
      → (recorded : List ℕ) × IsPart recorded times
        × (restarts_of n (observer_run spawner times m).view.children
            ≤ restarts_of n m.view.children + length (granted (tracker_of n m) recorded))
  unfolding observer_run granted
  restarts-le-granted [] m d = ([], done, omega arith)
  restarts-le-granted (now ∷ later) m d =
      let m' = observer_pass spawner now m in
      let d' = observer_pass-IsDistinct spawner PassMove PassMove-IsLifecycle now m d in
      let (rest, part, few) = restarts-le-granted later m' d' in
      elim (observer_pass-IsTallied spawner n now m d) [
        | untried t c ↦ (rest, skip now part, rw (← t, ← c) few)
        | tried t c ↦ (
          now ∷ rest,
          keep now part,
          (ground (arith, few, c, ap (λ x. length (granted x rest)) t)),
        )
      ]

-- The tracker has the settings of the supervisor.
record HasSettings (t : RestartTracker) : Type 0 where
  window : t.window ≡ from_secs restart_window_secs
  backoff : t.backoff ≡ from_secs backoff_secs
  threshold : t.threshold ≡ restart_storm_threshold

record_at-HasSettings :
    (t : RestartTracker) (now : ℕ) → HasSettings t → HasSettings (record_at t now).0
record_at-HasSettings t now s =
    let (w, b, k) = same_settings t now in
    record { window = w ∙ s.window; backoff = b ∙ s.backoff; threshold = k ∙ s.threshold }

module _ {W : Type 0} (spawner : Spawner W) (n : Text) where
  observer_pass-HasSettings :
      (now : ℕ) (m : Machine W)
      → IsDistinct (names m.view.children)
      → HasSettings (tracker_of n m)
      → HasSettings (tracker_of n (observer_pass spawner now m))
  observer_pass-HasSettings now m d s = elim (observer_pass-IsTallied spawner n now m d) [
    | untried t c ↦ rw t s
    | tried t c ↦ rw t (record_at-HasSettings (tracker_of n m) now s)
  ]

  observer_run-HasSettings :
      (times : List ℕ) (m : Machine W)
      → IsDistinct (names m.view.children)
      → HasSettings (tracker_of n m)
      → HasSettings (tracker_of n (observer_run spawner times m))
  unfolding observer_run
  observer_run-HasSettings [] m d s = s
  observer_run-HasSettings (now ∷ later) m d s =
      observer_run-HasSettings later (observer_pass spawner now m)
        (observer_pass-IsDistinct spawner PassMove PassMove-IsLifecycle now m d)
        (observer_pass-HasSettings now m d s)

  run-lt-threshold :
      (times : List ℕ) (a : ℕ) (m : Machine W)
      → IsDistinct (names m.view.children)
      → HasSettings (tracker_of n m)
      → IsSorted times
      → All (λ u. within a (from_secs restart_window_secs) u ≡ true) times
      → restarts_of n (observer_run spawner times m).view.children
        < restarts_of n m.view.children + restart_storm_threshold
  run-lt-threshold times a m d s sorted inside =
      let t = tracker_of n m in
      let w = from_secs restart_window_secs in
      let (recorded, part, few) = restarts-le-granted spawner n times m d in
      let granted_few =
        granted-lt-threshold t recorded a (omega (arith, s.threshold)) (omega (arith, s.backoff))
          (IsSorted-IsPart part sorted) in
      omega (
        arith,
        few,
        length-granted a w t recorded (All-IsPart (λ u. within a w u ≡ true) part inside),
        subst (λ x. count (within a x) (granted t recorded) < t.threshold) s.window granted_few,
        s.threshold,
      )

  run-IsDistinct :
      (times : List ℕ) (m : Machine W)
      → IsDistinct (names m.view.children)
      → IsDistinct (names (observer_run spawner times m).view.children)
  run-IsDistinct times m d =
      subst IsDistinct
        (Pairs-names PassMove PassMove-name _ _ (observer_run-PassMove spawner times m d)) d

  fresh-HasSettings : (w : W) → HasSettings (tracker_of n (start_all spawner (new_supervisor w)).1)
  unfolding new_supervisor get
  fresh-HasSettings w =
      rw (start_all-trackers spawner (new_supervisor w))
        (record { window = refl; backoff = refl; threshold = refl })

  -- However the launcher answers, passes that all fall within some 60 seconds, in order, add fewer
  -- than five restarts to the count of any child. Before them come `start_all` and any passes.
  pub launched-lt-threshold :
      (w : W) (before times : List ℕ) (a : ℕ)
      → IsSorted times
      → All (λ u. within a (from_secs restart_window_secs) u ≡ true) times
      → restarts_of n
          (observer_run spawner times
            (observer_run spawner before (start_all spawner (new_supervisor w)).1)).view.children
        < restarts_of n
            (observer_run spawner before (start_all spawner (new_supervisor w)).1).view.children
          + restart_storm_threshold
  launched-lt-threshold w before times a sorted inside =
      let launched = (start_all spawner (new_supervisor w)).1 in
      let d : IsDistinct (names launched.view.children) =
        rw (start_all-names spawner w) startup_order-IsDistinct in
      run-lt-threshold times a (observer_run spawner before launched)
        (run-IsDistinct before launched d)
        (observer_run-HasSettings before launched d (fresh-HasSettings w)) sorted inside
