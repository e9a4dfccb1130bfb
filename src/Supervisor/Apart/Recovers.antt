-- ===== src/Supervisor/Apart/Recovers.antt =====
-- A child that is retried and waits, under a launcher that never fails.
use wintermute_platform.Prelude.{
  ap, subst, ◌⊎◌, ℕ, ◌+◌, ◌≤◌, Bool, List, [], ◌∷◌, Text, Option, some, none, Bool-cases, leb,
  if◌then◌else◌, ◌==◌, ◌≡◌, ◌≢◌, refl, ◌∙◌, inl, inr, arith,
}
use wintermute_platform.Platform.{from_secs, backoff_secs}
use wintermute_platform.Platform.Tracker.{RestartTracker, record_at}
use wintermute_platform.Platform.Tracker.Window.{IsSorted}
use wintermute_platform.Protocol.{ChildState, running, exited, backoff}
use wintermute_platform.Spawn.{Spawner}
use wintermute_platform.Supervisor.{Machine, clear_phase, observe_phase, observer_pass}
use wintermute_platform.Supervisor.Slots.{slot, names, IsDistinct}
use wintermute_platform.Supervisor.Recovery.{All-elem, IsElem}
use wintermute_platform.Supervisor.Lifecycle.{
  observer_pass-IsDistinct, PassMove, PassMove-IsLifecycle,
}
use wintermute_platform.Supervisor.Apart.{Local, IsLocal, local_retry, local_pass}
use wintermute_platform.Supervisor.Apart.Starts.{AlwaysStarts, restart_exited-total}
use wintermute_platform.Supervisor.Apart.Isolation.{observer_pass-IsLocal}

-- The child with the name runs.
abbrev pub Runs : {W : Type 0} → Text → Machine W → Type 0
Runs n m = (c : ChildState) × (slot n m.view.children ≡ some c) × (c.status ≡ running)

-- The child runs before the passes at the times, or after one of them.
abbrev pub RunsAgain : {W : Type 0} → Spawner W → Text → List ℕ → Machine W → Type 0
RunsAgain spawner n [] m = Runs n m
RunsAgain spawner n (now ∷ later) m =
    Runs n m ⊎ RunsAgain spawner n later (observer_pass spawner now m)

abbrev pub Stands : {W : Type 0} → Text → Machine W → Local → Type 0
Stands n m l = IsLocal n m.view.children m.trackers m.backoff_until l

abbrev pub gone : RestartTracker → Option ℕ → Local
gone t due = record { status = exited; tracker = t; due = due }

abbrev pub alive_with : RestartTracker → Option ℕ → Local
alive_with t due = record { status = running; tracker = t; due = due }

abbrev pub waiting : RestartTracker → ℕ → Local
waiting t until = record { status = backoff; tracker = t; due = some until }

pub gone-local_pass :
    (now : ℕ) (alive : Bool) (t : RestartTracker) (due : Option ℕ)
    → local_pass now alive (gone t due) ≡ local_retry now (gone t due)
gone-local_pass now alive t due = refl

pub waiting-local_pass :
    (now until : ℕ) (alive : Bool) (t : RestartTracker)
    → local_pass now alive (waiting t until)
      ≡ (if leb until now then local_retry now (gone t none) else waiting t until)
waiting-local_pass now until alive t = elim (Bool-cases (leb until now)) [
  | inl e ↦ rw e refl
  | inr e ↦ rw e refl
]

-- A retry ends in a run or in a wait of the backoff.
pub local_retry-cases :
    (now : ℕ) (t : RestartTracker) (due : Option ℕ)
    → (local_retry now (gone t due) ≡ alive_with (record_at t now).0 due)
      ⊎ (local_retry now (gone t due) ≡ waiting (record_at t now).0 (now + from_secs backoff_secs))
local_retry-cases now t due = elim (Bool-cases ((record_at t now).1 == 0)) [
  | inl e ↦ inl (rw e refl)
  | inr e ↦ inr (rw e refl)
]

local_retry-granted :
    (now : ℕ) (t : RestartTracker) (due : Option ℕ)
    → (record_at t now).1 ≡ 0
    → (local_retry now (gone t due)).status ≡ running
local_retry-granted now t due h = rw h refl

IsElem-after : {x y : ℕ} (xs : List ℕ) → x ≢ y → IsElem x (y ∷ xs) → IsElem x xs
IsElem-after xs apart (inl e) = absurd (apart e)
IsElem-after xs apart (inr later) = later

elem-IsSorted : (x y : ℕ) (ys : List ℕ) → IsSorted (y ∷ ys) → IsElem x (y ∷ ys) → y ≤ x
elem-IsSorted x y ys s (inl e) = omega (arith, e)
elem-IsSorted x y ys s (inr later) = All-elem (λ u. y ≤ u) x ys s.0 later

module _ {W : Type 0} (spawner : Spawner W) (starts : AlwaysStarts spawner) where
  pub observer_pass-Stands :
      (n : Text) (now : ℕ) (m : Machine W) (l : Local)
      → IsDistinct (names m.view.children)
      → Stands n m l
      → (alive : Bool) × Stands n (observer_pass spawner now m) (local_pass now alive l)
  observer_pass-Stands n now m l d s =
      let (all, q) =
        restart_exited-total spawner starts now (observe_phase spawner (clear_phase now m)) in
      observer_pass-IsLocal spawner n now m l all d q s

  observer_pass-retried :
      (n : Text) (now : ℕ) (m : Machine W) (t : RestartTracker) (due : Option ℕ)
      → IsDistinct (names m.view.children)
      → Stands n m (gone t due)
      → Stands n (observer_pass spawner now m) (local_retry now (gone t due))
  observer_pass-retried n now m t due d s =
      let (alive, next) = observer_pass-Stands n now m (gone t due) d s in next

  observer_pass-waited :
      (n : Text) (now until : ℕ) (m : Machine W) (t : RestartTracker)
      → IsDistinct (names m.view.children)
      → Stands n m (waiting t until)
      → Stands n
          (observer_pass spawner now m)
          (if leb until now then local_retry now (gone t none) else waiting t until)
  observer_pass-waited n now until m t d s =
      let (alive, next) = observer_pass-Stands n now m (waiting t until) d s in
      rw (← waiting-local_pass now until alive t) next

  pub running-Runs :
      (n : Text) (m : Machine W) (l : Local) → l.status ≡ running → Stands n m l → Runs n m
  running-Runs n m l r s = (s.child, s.at, s.status ∙ r)

  pub now-RunsAgain :
      (n : Text) (times : List ℕ) (m : Machine W) → Runs n m → RunsAgain spawner n times m
  now-RunsAgain n [] m r = r
  now-RunsAgain n (now ∷ later) m r = inl r

  pub pass-IsDistinct :
      (now : ℕ) (m : Machine W)
      → IsDistinct (names m.view.children)
      → IsDistinct (names (observer_pass spawner now m).view.children)
  pass-IsDistinct = observer_pass-IsDistinct spawner PassMove PassMove-IsLifecycle

  -- A wait whose retry is granted.
  granted-RunsAgain :
      (n : Text) (until late : ℕ) (t : RestartTracker) (times : List ℕ) (m : Machine W)
      → ((now : ℕ) → until ≤ now → (record_at t now).1 ≡ 0)
      → IsElem late times
      → until ≤ late
      → IsDistinct (names m.view.children)
      → Stands n m (waiting t until)
      → RunsAgain spawner n times m
  granted-RunsAgain n until late t [] m grants in_times h d s = absurd in_times
  granted-RunsAgain n until late t (now ∷ times) m grants in_times h d s =
      let m' = observer_pass spawner now m in
      let next = observer_pass-waited n now until m t d s in
      elim (Bool-cases (leb until now)) [
        | inl e ↦ inr (
            now-RunsAgain n times m' (
              running-Runs n m' _ (local_retry-granted now t none (grants now (ground arith))) (
                subst
                  (λ b. Stands n m' (if b then local_retry now (gone t none) else waiting t until))
                  e next)))
        | inr e ↦ inr (
            granted-RunsAgain n until late t times m' grants
              (IsElem-after times (λ e'. absurd (ground (arith, e', h, e))) in_times) h
              (pass-IsDistinct now m d)
              (subst
                (λ b. Stands n m' (if b then local_retry now (gone t none) else waiting t until)) e
                next))
      ]

  -- A wait whose retry, or the retry after it, is granted.
  pub second-RunsAgain :
      (n : Text) (until middle late : ℕ) (t : RestartTracker) (times : List ℕ) (m : Machine W)
      → ((now next : ℕ)
          → until ≤ now
          → now + from_secs backoff_secs ≤ next
          → (record_at (record_at t now).0 next).1 ≡ 0)
      → IsSorted times
      → IsElem middle times
      → IsElem late times
      → until ≤ middle
      → middle + from_secs backoff_secs ≤ late
      → IsDistinct (names m.view.children)
      → Stands n m (waiting t until)
      → RunsAgain spawner n times m
  second-RunsAgain n until middle late t [] m grants sorted in_middle in_late h g d s =
      absurd in_late
  second-RunsAgain n until middle late t (now ∷ times) m grants sorted in_middle in_late h g d s =
      let m' = observer_pass spawner now m in
      let next = observer_pass-waited n now until m t d s in
      let d' = pass-IsDistinct now m d in
      let before = elem-IsSorted middle now times sorted in_middle in
      let in_rest =
        IsElem-after times (λ (e : late ≡ now). absurd (omega (arith, e, before))) in_late in
      elim (Bool-cases (leb until now)) [
        | inl e ↦
            let tried =
              subst
                (λ b. Stands n m' (if b then local_retry now (gone t none) else waiting t until)) e
                next in
            elim (local_retry-cases now t none) [
              | inl r ↦ inr (
                  now-RunsAgain n times m'
                    (running-Runs n m' _ (ap (λ (x : Local). x.status) r) tried))
              | inr w ↦ inr (
                  granted-RunsAgain n (now + from_secs backoff_secs) late (record_at t now).0 times
                    m' (λ later due. grants now later (ground arith) due) in_rest (omega arith) d'
                    (subst (Stands n m') w tried))
            ]
        | inr e ↦
            let apart = (λ (e' : middle ≡ now). absurd (ground (arith, e', h, e))) in
            inr (
              second-RunsAgain n until middle late t times m' grants sorted.1
                (IsElem-after times apart in_middle) in_rest h g d'
                (subst
                  (λ b. Stands n m' (if b then local_retry now (gone t none) else waiting t until))
                  e next))
      ]
