-- ===== src/Supervisor/Apart/Served.antt =====
-- A child under a launcher that never fails, from its launch on.
use wintermute_platform.Prelude.{
  ℕ, ◌+◌, ◌≤◌, ◌<◌, Bool, true, false, List, [], ◌∷◌, ◌++◌, Text, Option, none, Bool-cases, All,
  All-map, leb, get, ◌≡◌, refl, ap, ◌∙◌, subst, inl, inr, arith,
}
use wintermute_platform.Platform.{
  from_secs, backoff_secs, restart_window_secs, restart_storm_threshold, child_startup_order,
}
use wintermute_platform.Platform.Tracker.{RestartTracker, default_tracker, record_at}
use wintermute_platform.Platform.Tracker.Window.{IsSorted, record_at-IsOrdered}
use wintermute_platform.Platform.Tracker.RateLimit.{same_settings}
use wintermute_platform.Platform.Tracker.Retry.{second_retry-granted}
use wintermute_platform.Spawn.{Spawner}
use wintermute_platform.Supervisor.{Machine, observer_pass, observer_run, start_all, new_supervisor}
use wintermute_platform.Supervisor.Slots.{names, IsDistinct}
use wintermute_platform.Supervisor.Recovery.{All-elem, IsElem}
use wintermute_platform.Supervisor.Launching.{IsLaunched}
use wintermute_platform.Supervisor.Boot.{
  startup_order-IsDistinct, start_all-IsLaunched, start_all-names,
}
use wintermute_platform.Supervisor.Apart.{Local, local_retry, local_pass}
use wintermute_platform.Supervisor.Apart.Starts.{AlwaysStarts, start_all-total, start_all-trackers}
use wintermute_platform.Supervisor.Apart.Recovers.{
  gone, waiting, alive_with, Stands, RunsAgain, waiting-local_pass, local_retry-cases,
  observer_pass-Stands, running-Runs, now-RunsAgain, pass-IsDistinct, second-RunsAgain,
}

-- A tracker with the settings of the supervisor, and restarts before `now` only.
record IsSettled (now : ℕ) (t : RestartTracker) : Type 0 where
  window : t.window ≡ from_secs restart_window_secs
  backoff : t.backoff ≡ from_secs backoff_secs
  threshold : t.threshold ≡ restart_storm_threshold
  sorted : IsSorted t.history
  past : All (λ u. u < now) t.history

-- The child runs, or it waits after a restart that was delayed.
data IsCared (now : ℕ) (l : Local) : Type 0 where
  up :
      (t : RestartTracker) (due : Option ℕ) → IsSettled now t → l ≡ alive_with t due → IsCared now l
  held :
      (t : RestartTracker) (at : ℕ)
      → IsSettled at t
      → at < now
      → l ≡ waiting (record_at t at).0 (at + from_secs backoff_secs)
      → IsCared now l

IsSettled-later : (a b : ℕ) (t : RestartTracker) → a ≤ b → IsSettled a t → IsSettled b t
IsSettled-later a b t h s = record {
  window = s.window;
  backoff = s.backoff;
  threshold = s.threshold;
  sorted = s.sorted;
  past = All-map (λ u. u < a) (λ u. u < b) (λ u g. omega arith) t.history s.past;
}

record_at-IsSettled :
    (now next : ℕ) (t : RestartTracker)
    → now < next
    → IsSettled now t
    → IsSettled next (record_at t now).0
record_at-IsSettled now next t h s =
    let o = record_at-IsOrdered t now (record {
      sorted = s.sorted;
      past = All-map (λ u. u < now) (λ u. u ≤ now) (λ u g. omega arith) t.history s.past;
    }) in
    let (w, b, k) = same_settings t now in
    record {
      window = w ∙ s.window;
      backoff = b ∙ s.backoff;
      threshold = k ∙ s.threshold;
      sorted = o.sorted;
      past = All-map (λ u. u ≤ now) (λ u. u < next) (λ u g. omega arith) _ o.past;
    }

retried-IsCared :
    (now next : ℕ) (t : RestartTracker) (due : Option ℕ)
    → now < next
    → IsSettled now t
    → IsCared next (local_retry now (gone t due))
retried-IsCared now next t due h s = elim (local_retry-cases now t due) [
  | inl r ↦ up _ due (record_at-IsSettled now next t h s) r
  | inr w ↦ held t now s h w
]

observed-IsCared :
    (now next : ℕ) (alive : Bool) (t : RestartTracker) (due : Option ℕ)
    → now < next
    → IsSettled now t
    → IsCared next (local_pass now alive (alive_with t due))
observed-IsCared now next true t due h s =
    up t due (IsSettled-later now next t (omega arith) s) refl
observed-IsCared now next false t due h s = retried-IsCared now next t due h s

local_pass-IsCared :
    (now next : ℕ) (alive : Bool) (l : Local)
    → now < next
    → IsCared now l
    → IsCared next (local_pass now alive l)
local_pass-IsCared now next alive l h (up t due s q) =
    rw q (observed-IsCared now next alive t due h s)
local_pass-IsCared now next alive l h (held t at s g q) =
    rw (q, waiting-local_pass now (at + from_secs backoff_secs) alive (record_at t at).0)
      (elim (Bool-cases (leb (at + from_secs backoff_secs) now)) [
        | inl e ↦
            rw e (
              retried-IsCared now next (record_at t at).0 none h (record_at-IsSettled at now t g s))
        | inr e ↦ rw e (held t at s (omega arith) refl)
      ])

-- A child that has never been restarted.
fresh-IsCared :
    (due : Option ℕ) (times : List ℕ) → All (λ u. IsCared u (alive_with default_tracker due)) times
fresh-IsCared due [] = tt
fresh-IsCared due (now ∷ times) = (
  up default_tracker due
      (record { window = refl; backoff = refl; threshold = refl; sorted = tt; past = tt }) refl,
  fresh-IsCared due times,
)

-- Times that rise along the list.
abbrev pub IsRising : List ℕ → Type 0
IsRising [] = Unit
IsRising (t ∷ ts) = All (λ u. t < u) ts × IsRising ts

IsSorted-IsRising : (ts : List ℕ) → IsRising ts → IsSorted ts
IsSorted-IsRising [] r = tt
IsSorted-IsRising (t ∷ ts) r =
    (All-map (λ u. t < u) (λ u. t ≤ u) (λ u g. omega arith) ts r.0, IsSorted-IsRising ts r.1)

module _ {W : Type 0} (spawner : Spawner W) (starts : AlwaysStarts spawner) where
  -- From a moment at which the child is cared for.
  cared-RunsAgain :
      (n : Text) (next middle late : ℕ) (later : List ℕ) (m : Machine W) (l : Local)
      → IsDistinct (names m.view.children)
      → Stands n m l
      → IsCared next l
      → IsSorted (next ∷ later)
      → IsElem middle later
      → IsElem late later
      → next + from_secs backoff_secs ≤ middle
      → middle + from_secs backoff_secs ≤ late
      → RunsAgain spawner n (next ∷ later) m
  cared-RunsAgain n next middle late later m l d s (up t due p q) sorted in_middle in_late h g =
      now-RunsAgain spawner starts n (next ∷ later) m
        (running-Runs spawner starts n m l (ap (λ (x : Local). x.status) q) s)
  cared-RunsAgain n next middle late later m l d s (held t at p before q) sorted in_middle in_late h
        g =
      second-RunsAgain spawner starts n (at + from_secs backoff_secs) middle late (record_at t at).0
        (next ∷ later) m
        (λ b c first second.
          second_retry-granted t at b c p.sorted p.past (omega (arith, p.window, p.backoff))
            (omega (arith, p.threshold)) (omega (arith, p.backoff, first))
            (omega (arith, p.backoff, second)))
        sorted (inr in_middle) (inr in_late) (omega (arith, before)) g d (subst (Stands n m) q s)

  run-RunsAgain :
      (n : Text) (before : List ℕ) (next middle late : ℕ) (later : List ℕ) (m : Machine W)
      (l : Local)
      → IsDistinct (names m.view.children)
      → Stands n m l
      → All (λ u. IsCared u l) (before ++ next ∷ later)
      → IsRising (before ++ next ∷ later)
      → IsElem middle later
      → IsElem late later
      → next + from_secs backoff_secs ≤ middle
      → middle + from_secs backoff_secs ≤ late
      → RunsAgain spawner n (next ∷ later) (observer_run spawner before m)
  unfolding observer_run
  run-RunsAgain n [] next middle late later m l d s cared rising in_middle in_late h g =
      cared-RunsAgain n next middle late later m l d s cared.0
        (IsSorted-IsRising (next ∷ later) rising) in_middle in_late h g
  run-RunsAgain n (now ∷ before) next middle late later m l d s cared rising in_middle in_late h g =
      let (alive, stands) = observer_pass-Stands spawner starts n now m l d s in
      run-RunsAgain n before next middle late later (observer_pass spawner now m)
        (local_pass now alive l) (pass-IsDistinct spawner starts now m d) stands
        (All-map (λ u. now < u) (λ u. IsCared u (local_pass now alive l))
          (λ u lt. local_pass-IsCared now u alive l lt cared.0) _ rising.0)
        rising.1 in_middle in_late h g

  launched-Stands :
      (w : W) (n : Text)
      → IsElem n child_startup_order
      → (due : Option ℕ) × Stands n
          (start_all spawner (new_supervisor w)).1
          (alive_with default_tracker due)
  unfolding new_supervisor get
  launched-Stands w n known =
      let all = start_all-total spawner starts (new_supervisor w) in
      let same = start_all-trackers spawner (new_supervisor w) in
      let m = (start_all spawner (new_supervisor w)).1 in
      let launched =
        All-elem (IsLaunched m.view.children) n child_startup_order
          (start_all-IsLaunched spawner w all) known in
      (
        get n m.backoff_until,
        record {
          child = launched.child;
          at = launched.at;
          status = launched.status;
          tracker = rw same refl;
          wakes = refl;
        },
      )

  -- Where the launcher refuses no start, every child that `start` launches is running at some moment
  -- of every stretch of the observer's passes that has a pass a backoff or more after its first
  -- one, and a pass a backoff or more after that: before the stretch, or after one of its passes.
  -- The times of all passes rise; before the stretch there are any number of passes, and the probes
  -- answer anything.
  pub launched-RunsAgain :
      (w : W) (n : Text) (before : List ℕ) (next middle late : ℕ) (later : List ℕ)
      → IsElem n child_startup_order
      → IsRising (before ++ next ∷ later)
      → IsElem middle later
      → IsElem late later
      → next + from_secs backoff_secs ≤ middle
      → middle + from_secs backoff_secs ≤ late
      → RunsAgain spawner n
          (next ∷ later)
          (observer_run spawner before (start_all spawner (new_supervisor w)).1)
  launched-RunsAgain w n before next middle late later known rising in_middle in_late h g =
      let m = (start_all spawner (new_supervisor w)).1 in
      let (due, s) = launched-Stands w n known in
      run-RunsAgain n before next middle late later m (alive_with default_tracker due)
        (rw (start_all-names spawner w) startup_order-IsDistinct) s (fresh-IsCared due _) rising
        in_middle in_late h g
