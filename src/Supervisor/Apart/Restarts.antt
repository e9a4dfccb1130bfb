-- ===== src/Supervisor/Apart/Restarts.antt =====
-- The restart pass, seen from one child.
use wintermute_platform.Prelude.{
  ℕ, ◌+◌, false, List, [], ◌∷◌, ◌++◌, Text, TextMap, some, text_eq, text_eq_iff, text_eq_refl, ◌==◌,
  get, get_or, insert, get-insert, update_first, All, Bool-cases, Result-cases, ok, ◌≡◌, ◌≢◌, refl,
  sym, ap, ◌∙◌, subst, inl, inr, arith,
}
use wintermute_platform.Platform.{canonical_spec, from_secs, backoff_secs}
use wintermute_platform.Platform.Tracker.{
  RestartTracker, default_tracker, record_at, restarts_in_window,
}
use wintermute_platform.Protocol.{running, backoff, ChildState}
use wintermute_platform.Spawn.{Spawner}
use wintermute_platform.Supervisor.{
  RestartOutcome, Machine, named, to_restarted, to_backoff, recorded, schedule, updated_count,
  restart_now, restart_one, restart_loop,
}
use wintermute_platform.Supervisor.Slots.{slot, slot-update_first, IsDistinct}
use wintermute_platform.Supervisor.Recovery.{IsElem}
use wintermute_platform.Supervisor.Restarting.{restart_one-cases, slot-restart_one}
use wintermute_platform.Supervisor.Scheduling.{schedule-append, schedule-held}
use wintermute_platform.Supervisor.Apart.{Local, IsLocal, local_retry}

apart_elem : {n : Text} (k : Text) (ns : List Text) → All (λ j. j ≢ k) ns → IsElem n ns → n ≢ k
apart_elem k [] a elem e = elem
apart_elem k (j ∷ ns) a (inl q) e = a.0 (sym q ∙ e)
apart_elem k (j ∷ ns) a (inr later) e = apart_elem k ns a.1 later e

module _ {W : Type 0} (spawner : Spawner W) (n : Text) (now : ℕ) where
  pub other-tracker :
      (name : Text) (m : Machine W)
      → n ≢ name
      → get n (restart_one spawner name now m).1.trackers ≡ get n m.trackers
  other-tracker name m apart =
      let miss : text_eq name n ≡ false = ground (arith, text_eq_iff name n, apart) in
      let same = get-insert name n (recorded name now m).0 m.trackers ∙ rw miss refl in
      elim (restart_one-cases spawner name now m) [
        | inl (e, w, q) ↦ rw q same
        | inr (inl (pid, w, q)) ↦ rw q same
        | inr (inr (k, q)) ↦ rw q same
      ]

  other-wakes :
      (name : Text) (m : Machine W) (os : List RestartOutcome) (o : RestartOutcome)
      (due : TextMap ℕ)
      → n ≢ name
      → (restart_one spawner name now m).0 ≡ ok o
      → get n (schedule now (os ++ o ∷ []) due) ≡ get n (schedule now os due)
  unfolding schedule
  other-wakes name m os o due apart h =
      let miss : text_eq name n ≡ false = ground (arith, text_eq_iff name n, apart) in
      ap (get n) (schedule-append now os o due) ∙ elim (restart_one-cases spawner name now m) [
        | inl (e, w, q) ↦ absurd (ground (arith, q))
        | inr (inl (pid, w, q)) ↦
            let is_o : RestartOutcome.restarted name pid (updated_count name m.view.children) ≡ o =
              ground (arith, q) in
            rw (← is_o) refl
        | inr (inr (k, q)) ↦
            let is_o : RestartOutcome.entered_backoff name k ≡ o = ground (arith, q) in
            rw (← is_o) (schedule-held now name n k (schedule now os due) ∙ rw miss refl)
      ]

  -- A round for another child.
  other-IsLocal :
      (name : Text) (m : Machine W) (os : List RestartOutcome) (o : RestartOutcome)
      (due : TextMap ℕ) (l : Local)
      → n ≢ name
      → (restart_one spawner name now m).0 ≡ ok o
      → IsLocal n m.view.children m.trackers (schedule now os due) l
      → IsLocal n
          (restart_one spawner name now m).1.view.children
          (restart_one spawner name now m).1.trackers
          (schedule now (os ++ o ∷ []) due)
          l
  other-IsLocal name m os o due l apart h s = record {
    child = s.child;
    at = slot-restart_one spawner name now m n apart ∙ s.at;
    status = s.status;
    tracker = ap (get_or default_tracker) (other-tracker name m apart) ∙ s.tracker;
    wakes = other-wakes name m os o due apart h ∙ s.wakes;
  }

  pub own-slot :
      (f : ChildState → ChildState) (cs : List ChildState) (c : ChildState)
      → ((d : ChildState) → (f d).name ≡ d.name)
      → slot n cs ≡ some c
      → slot n (update_first (named n) f cs) ≡ some (f c)
  own-slot f cs c keeps at = slot-update_first f keeps n n cs ∙ rw (text_eq_refl n, at) refl

  pub own-tracker :
      (t : RestartTracker) (trackers : TextMap RestartTracker)
      → get_or default_tracker (get n (insert n t trackers)) ≡ t
  own-tracker t trackers = rw (get-insert n n t trackers) (rw (text_eq_refl n) refl)

  held-IsLocal :
      (m : Machine W) (os : List RestartOutcome) (k : ℕ) (t : RestartTracker) (due : TextMap ℕ)
      (l : Local)
      → IsLocal n m.view.children m.trackers (schedule now os due) l
      → IsLocal n
          (update_first (named n) (to_backoff k) m.view.children)
          (insert n t m.trackers)
          (schedule now (os ++ RestartOutcome.entered_backoff n k ∷ []) due)
          (record { status = backoff; tracker = t; due = some (now + from_secs backoff_secs) })
  held-IsLocal m os k t due l s = record {
    child = to_backoff k s.child;
    at = own-slot (to_backoff k) m.view.children s.child (λ d. refl) s.at;
    status = refl;
    tracker = own-tracker t m.trackers;
    wakes =
        ap (get n) (schedule-append now os (RestartOutcome.entered_backoff n k) due)
        ∙ schedule-held now n n k (schedule now os due)
        ∙ rw (text_eq_refl n) refl;
  }

  revived-IsLocal :
      (m : Machine W) (os : List RestartOutcome) (pid count : ℕ) (t : RestartTracker)
      (due : TextMap ℕ) (l : Local)
      → IsLocal n m.view.children m.trackers (schedule now os due) l
      → IsLocal n
          (update_first (named n) (to_restarted pid) m.view.children)
          (insert n t m.trackers)
          (schedule now (os ++ RestartOutcome.restarted n pid count ∷ []) due)
          (record l { status = running; tracker = t })
  unfolding schedule
  revived-IsLocal m os pid count t due l s = record {
    child = to_restarted pid s.child;
    at = own-slot (to_restarted pid) m.view.children s.child (λ d. refl) s.at;
    status = refl;
    tracker = own-tracker t m.trackers;
    wakes =
        ap (get n) (schedule-append now os (RestartOutcome.restarted n pid count) due) ∙ s.wakes;
  }

  -- The child's own round.
  own-IsLocal :
      (m : Machine W) (os : List RestartOutcome) (o : RestartOutcome) (due : TextMap ℕ) (l : Local)
      → (restart_one spawner n now m).0 ≡ ok o
      → IsLocal n m.view.children m.trackers (schedule now os due) l
      → IsLocal n
          (restart_one spawner n now m).1.view.children
          (restart_one spawner n now m).1.trackers
          (schedule now (os ++ o ∷ []) due)
          (local_retry now l)
  unfolding restart_one restart_now
  own-IsLocal m os o due l h s =
      let same = ap (λ t. record_at t now) s.tracker in
      elim (Bool-cases ((recorded n now m).1 == 0)) [
        | inr storm ↦
            let k = restarts_in_window (recorded n now m).0 in
            let is_o : RestartOutcome.entered_backoff n k ≡ o = ground (arith, h, storm) in
            rw (← same, ← is_o)
              (rw (storm, restart_one) (held-IsLocal m os k (recorded n now m).0 due l s))
        | inl calm ↦ elim (Result-cases (spawner.start (canonical_spec n) m.world).0) [
          | inr (e, q) ↦ absurd (ground (arith, h, calm, q))
          | inl (child, q) ↦
              let count = updated_count n m.view.children in
              let is_o : RestartOutcome.restarted n child.child_pid count ≡ o =
                ground (arith, h, calm, q) in
              rw (← same, ← is_o)
                (rw (calm, q, restart_one, restart_now)
                  (revived-IsLocal m os child.child_pid count (recorded n now m).0 due l s))
        ]
      ]

  pub restart_loop-other :
      (ns : List Text) (m : Machine W) (os all : List RestartOutcome) (due : TextMap ℕ) (l : Local)
      → All (λ k. k ≢ n) ns
      → (restart_loop spawner ns os now m).0 ≡ ok all
      → IsLocal n m.view.children m.trackers (schedule now os due) l
      → IsLocal n
          (restart_loop spawner ns os now m).1.view.children
          (restart_loop spawner ns os now m).1.trackers
          (schedule now all due)
          l
  unfolding restart_loop
  restart_loop-other [] m os all due l apart h s =
      let same : os ≡ all = ground arith in
      subst (λ xs. IsLocal n m.view.children m.trackers (schedule now xs due) l) same s
  restart_loop-other (k ∷ ns) m os all due l apart h s =
      elim (Result-cases (restart_one spawner k now m).0) [
        | inr (e, q) ↦ absurd (ground (arith, h, q))
        | inl (o, q) ↦
            rw (q, restart_loop)
              (restart_loop-other ns (restart_one spawner k now m).1 (os ++ o ∷ []) all due l
                apart.1 (ground (arith, h, q))
                (other-IsLocal k m os o due l (λ e. apart.0 (sym e)) q s))
      ]

  -- All rounds, of which one is the child's.
  pub restart_loop-own :
      (ns : List Text) (m : Machine W) (os all : List RestartOutcome) (due : TextMap ℕ) (l : Local)
      → IsDistinct ns
      → IsElem n ns
      → (restart_loop spawner ns os now m).0 ≡ ok all
      → IsLocal n m.view.children m.trackers (schedule now os due) l
      → IsLocal n
          (restart_loop spawner ns os now m).1.view.children
          (restart_loop spawner ns os now m).1.trackers
          (schedule now all due)
          (local_retry now l)
  unfolding restart_loop
  restart_loop-own [] m os all due l d elem h s = absurd elem
  restart_loop-own (k ∷ ns) m os all due l d (inl e) h s =
      elim (Result-cases (restart_one spawner n now m).0) [
        | inr (x, q) ↦ absurd (ground (arith, h, q, e))
        | inl (o, q) ↦ rw (← e) (
            rw (q, restart_loop)
              (restart_loop-other ns (restart_one spawner n now m).1 (os ++ o ∷ []) all due
                (local_retry now l) (rw e d.0) (ground (arith, h, q, e))
                (own-IsLocal m os o due l q s)))
      ]
  restart_loop-own (k ∷ ns) m os all due l d (inr later) h s =
      elim (Result-cases (restart_one spawner k now m).0) [
        | inr (x, q) ↦ absurd (ground (arith, h, q))
        | inl (o, q) ↦
            rw (q, restart_loop)
              (restart_loop-own ns (restart_one spawner k now m).1 (os ++ o ∷ []) all due l d.1
                later (ground (arith, h, q))
                (other-IsLocal k m os o due l (λ e. apart_elem k ns d.0 later e) q s))
      ]
