-- ===== src/Supervisor/Apart/Tally.antt =====
-- What a pass adds to the restarts of one child, whatever the launcher answers.
pub mod Passes
use wintermute_platform.Prelude.{
  Option-cases, TextMap, Option, ℕ, ◌+◌, ◌≤◌, List, [], ◌∷◌, Text, some, none, text_eq,
  text_eq_refl, if◌then◌else◌, ◌==◌, get, get_or, update_first, Pairs, Bool-cases, Result-cases,
  ◌≡◌, ◌≢◌, refl, sym, ap, inl, inr, arith,
}
use wintermute_platform.Platform.{canonical_spec}
use wintermute_platform.Platform.Tracker.{
  restarts_in_window, RestartTracker, default_tracker, record_at,
}
use wintermute_platform.Protocol.{ChildState}
use wintermute_platform.Spawn.{Spawner}
use wintermute_platform.Supervisor.{
  Machine, named, to_restarted, to_backoff, recorded, restart_one, restart_now,
}
use wintermute_platform.Supervisor.Slots.{slot, slot-update_first}
use wintermute_platform.Supervisor.Moves.{ClearMove, woken, ObserveMove, lost}
use wintermute_platform.Supervisor.Restarting.{slot-restart_one}
use wintermute_platform.Supervisor.Apart.Restarts.{other-tracker, own-tracker}

abbrev count_in : Option ChildState → ℕ
count_in none = 0
count_in (some c) = c.restart_count

abbrev pub restarts_of : Text → List ChildState → ℕ
restarts_of n cs = count_in (slot n cs)

abbrev pub tracker_of : {W : Type 0} → Text → Machine W → RestartTracker
tracker_of n m = get_or default_tracker (get n m.trackers)

-- From the first machine to the second, the child is tried once at most, at `now`, and counted as
-- restarted only if the tracker asks for no delay.
pub data IsTallied {W : Type 0} (n : Text) (now : ℕ) (m m' : Machine W) : Type 0 where
  untried :
      tracker_of n m' ≡ tracker_of n m
      → restarts_of n m'.view.children ≡ restarts_of n m.view.children
      → IsTallied n now m m'
  tried :
      tracker_of n m' ≡ (record_at (tracker_of n m) now).0
      → restarts_of n m'.view.children
        ≤ restarts_of n m.view.children + (if (record_at (tracker_of n m) now).1 == 0 then 1 else 0)
      → IsTallied n now m m'

pub Pairs-restarts_of :
    (R : ChildState → ChildState → Type 0)
    → ((c d : ChildState) → R c d → c.name ≡ d.name)
    → ((c d : ChildState) → R c d → c.restart_count ≡ d.restart_count)
    → (n : Text) (cs ds : List ChildState) → Pairs R cs ds
    → restarts_of n ds ≡ restarts_of n cs
Pairs-restarts_of R k r n [] [] h = refl
Pairs-restarts_of R k r n [] (d ∷ ds) h = absurd h
Pairs-restarts_of R k r n (c ∷ cs) [] h = absurd h
Pairs-restarts_of R k r n (c ∷ cs) (d ∷ ds) h = elim (Bool-cases (text_eq d.name n)) [
  | inl e ↦ rw (k c d h.0, e) (sym (r c d h.0))
  | inr e ↦ rw (k c d h.0, e) (Pairs-restarts_of R k r n cs ds h.1)
]

pub ClearMove-restart_count :
    (due : TextMap ℕ) (now : ℕ) (c d : ChildState)
    → ClearMove due now c d
    → c.restart_count ≡ d.restart_count
ClearMove-restart_count due now c d (ClearMove.kept q e) =
    ap (λ (x : ChildState). x.restart_count) e
ClearMove-restart_count due now c d (woken until b g le e) =
    sym (ap (λ (x : ChildState). x.restart_count) e)

pub ObserveMove-restart_count :
    (c d : ChildState) → ObserveMove c d → c.restart_count ≡ d.restart_count
ObserveMove-restart_count c d (ObserveMove.kept e) = ap (λ (x : ChildState). x.restart_count) e
ObserveMove-restart_count c d (lost pid r e) = sym (ap (λ (x : ChildState). x.restart_count) e)

module _ {W : Type 0} (spawner : Spawner W) (n : Text) (now : ℕ) where
  pub other-untried :
      (name : Text) (m : Machine W)
      → n ≢ name
      → (tracker_of n (restart_one spawner name now m).1 ≡ tracker_of n m)
        × (restarts_of n (restart_one spawner name now m).1.view.children
            ≡ restarts_of n m.view.children)
  other-untried name m apart = (
    ap (get_or default_tracker) (other-tracker spawner n now name m apart),
    ap count_in (slot-restart_one spawner name now m n apart),
  )

  updated_count-le :
      (f : ChildState → ChildState) (k : ℕ) (cs : List ChildState)
      → ((c : ChildState) → (f c).name ≡ c.name)
      → ((c : ChildState) → (f c).restart_count ≤ c.restart_count + k)
      → restarts_of n (update_first (named n) f cs) ≤ restarts_of n cs + k
  updated_count-le f k cs keeps few =
      rw (slot-update_first f keeps n n cs, text_eq_refl n)
        (elim (Option-cases (slot n cs)) [
          | inl none_at ↦ rw none_at (omega arith)
          | inr (c, at) ↦ rw at (few c)
        ])

  -- The child's own round.
  pub own-IsTallied : (m : Machine W) → IsTallied n now m (restart_one spawner n now m).1
  unfolding restart_one restart_now
  own-IsTallied m = elim (Bool-cases ((recorded n now m).1 == 0)) [
    | inr storm ↦
        let few =
          updated_count-le (to_backoff (restarts_in_window (recorded n now m).0)) 0 m.view.children
            (λ c. refl) (λ c. omega arith) in
        tried (rw (storm, restart_one) (own-tracker spawner n now (recorded n now m).0 m.trackers))
          (rw (storm, restart_one) (omega (arith, few)))
    | inl calm ↦ elim (Result-cases (spawner.start (canonical_spec n) m.world).0) [
      | inr (e, q) ↦
          tried
            (rw (calm, q, restart_one, restart_now)
              (own-tracker spawner n now (recorded n now m).0 m.trackers))
            (rw (calm, q, restart_one, restart_now) (omega arith))
      | inl (child, q) ↦
          let few =
            updated_count-le (to_restarted child.child_pid) 1 m.view.children (λ c. refl)
              (λ c. ground arith) in
          tried
            (rw (calm, q, restart_one, restart_now)
              (own-tracker spawner n now (recorded n now m).0 m.trackers))
            (rw (calm, q, restart_one, restart_now) few)
    ]
  ]
