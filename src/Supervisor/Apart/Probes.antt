-- ===== src/Supervisor/Apart/Probes.antt =====
-- The probes of a pass, seen from one child: its own decides, where no probe fails.
use wintermute_platform.Prelude.{
  subst, ℕ, Bool, true, List, [], ◌∷◌, ◌++◌, Text, some, none, text_eq, text_eq_iff, if◌then◌else◌,
  update_first, All, Bool-cases, Option-cases, ok, ◌≡◌, ◌≢◌, refl, sym, ap, ◌∙◌, inl, inr, arith,
}
use wintermute_platform.Protocol.{ChildState, is_running}
use wintermute_platform.Spawn.{Spawner}
use wintermute_platform.Supervisor.{
  Machine, running_named, lost_name, to_exited, live_pids, observe_one, observe_loop, observe_exits,
  observe_phase,
}
use wintermute_platform.Supervisor.Slots.{slot, names, IsDistinct}

-- Each probe answers whether the process of its PID lives.
abbrev pub Answers : {W : Type 0} → Spawner W → (ℕ → Bool) → Type 0
Answers {W} spawner lives = (pid : ℕ) (w : W) → (spawner.still_running pid w).0 ≡ ok (lives pid)

-- What is known of a child: it lives if its PID does, or if none is known.
abbrev pub alive_of : (ℕ → Bool) → ChildState → Bool
alive_of lives c = elim c.child_pid [ none ↦ true | some pid ↦ lives pid ]

abbrev pub observed : (ℕ → Bool) → ChildState → ChildState
observed lives c =
    if is_running c.status
    then (elim c.child_pid [ none ↦ c | some pid ↦ if lives pid then c else to_exited pid c ])
    else c

update_running-other :
    (f : ChildState → ChildState) (k n : Text) (cs : List ChildState)
    → ((c : ChildState) → (f c).name ≡ c.name)
    → k ≢ n
    → slot n (update_first (running_named k) f cs) ≡ slot n cs
update_running-other f k n [] keeps apart = refl
update_running-other f k n (c ∷ cs) keeps apart = ground (
  arith,
  keeps c,
  apart,
  text_eq_iff c.name k,
  text_eq_iff c.name n,
  update_running-other f k n cs keeps apart,
)

update_running-own :
    (pid : ℕ) (n : Text) (cs : List ChildState) (c : ChildState)
    → slot n cs ≡ some c
    → is_running c.status ≡ true
    → slot n (update_first (running_named n) (to_exited pid) cs) ≡ some (to_exited pid c)
update_running-own pid n [] c at r = cc
update_running-own pid n (d ∷ cs) c at r = elim (Bool-cases (text_eq d.name n)) [
  | inl e ↦
      let same : d ≡ c = ground (arith, at, e) in
      let runs : is_running d.status ≡ true =
        ap (λ (x : ChildState). is_running x.status) same ∙ r in
      rw (e, runs) (rw e (ap (λ x. some (to_exited pid x)) same))
  | inr e ↦ rw e (rw e (update_running-own pid n cs c (ground (arith, at, e)) r))
]

live_pids-apart :
    (n : Text) (cs : List ChildState)
    → All (λ k. k ≢ n) (names cs)
    → All (λ (p : Text × ℕ). p.0 ≢ n) (live_pids cs)
unfolding live_pids
live_pids-apart n [] a = tt
live_pids-apart n (c ∷ cs) a = elim (Bool-cases (is_running c.status)) [
  | inr r ↦ rw (r, live_pids) (live_pids-apart n cs a.1)
  | inl r ↦ elim (Option-cases c.child_pid) [
    | inl q ↦ rw (r, q, live_pids) (live_pids-apart n cs a.1)
    | inr (pid, q) ↦ rw (r, q, live_pids) (a.0, live_pids-apart n cs a.1)
  ]
]

module _ {W : Type 0} (spawner : Spawner W) (lives : ℕ → Bool) (answers : Answers spawner lives)
    (n : Text) where
  observe_one-ok :
      (p : Text × ℕ) (m : Machine W)
      → (found : List Text) × ((observe_one spawner p m).0 ≡ ok found)
  unfolding observe_one
  observe_one-ok (name, pid) m = elim (Bool-cases (lives pid)) [
    | inl a ↦ ([], rw (answers pid m.world ∙ ap ok a, observe_one) refl)
    | inr a ↦ (lost_name name m.view.children, rw (answers pid m.world ∙ ap ok a, observe_one) refl)
  ]

  observe_one-other :
      (p : Text × ℕ) (m : Machine W)
      → p.0 ≢ n
      → slot n (observe_one spawner p m).1.view.children ≡ slot n m.view.children
  unfolding observe_one
  observe_one-other (name, pid) m apart = elim (Bool-cases (lives pid)) [
    | inl a ↦ rw (answers pid m.world ∙ ap ok a, observe_one) refl
    | inr a ↦
        rw (answers pid m.world ∙ ap ok a, observe_one)
          (update_running-other (to_exited pid) name n m.view.children (λ c. refl) apart)
  ]

  observe_one-own :
      (pid : ℕ) (m : Machine W) (c : ChildState)
      → slot n m.view.children ≡ some c
      → is_running c.status ≡ true
      → slot n (observe_one spawner (n, pid) m).1.view.children
        ≡ some (if lives pid then c else to_exited pid c)
  unfolding observe_one
  observe_one-own pid m c at r = elim (Bool-cases (lives pid)) [
    | inl a ↦ rw (answers pid m.world ∙ ap ok a, observe_one, a) at
    | inr a ↦
        rw (answers pid m.world ∙ ap ok a, observe_one, a)
          (update_running-own pid n m.view.children c at r)
  ]

  observe_loop-other :
      (probes : List (Text × ℕ)) (seen : List Text) (m : Machine W)
      → All (λ (p : Text × ℕ). p.0 ≢ n) probes
      → slot n (observe_loop spawner probes seen m).1.view.children ≡ slot n m.view.children
  unfolding observe_loop
  observe_loop-other [] seen m apart = refl
  observe_loop-other (p ∷ probes) seen m apart =
      let (found, q) = observe_one-ok p m in
      rw (q, observe_loop)
        (observe_loop-other probes (seen ++ found) (observe_one spawner p m).1 apart.1
          ∙ observe_one-other p m apart.0)

  own-observed :
      (b : ChildState) (cs : List ChildState) (seen : List Text) (m : Machine W)
      → All (λ (p : Text × ℕ). p.0 ≢ n) (live_pids cs)
      → b.name ≡ n
      → slot n m.view.children ≡ some b
      → slot n (observe_loop spawner (live_pids (b ∷ cs)) seen m).1.view.children
        ≡ some (observed lives b)
  unfolding observe_loop live_pids
  own-observed b cs seen m apart e now_at = elim (Bool-cases (is_running b.status)) [
    | inr r ↦ rw (r, live_pids) (observe_loop-other (live_pids cs) seen m apart ∙ now_at)
    | inl r ↦ elim (Option-cases b.child_pid) [
      | inl q ↦ rw (r, q, live_pids) (observe_loop-other (live_pids cs) seen m apart ∙ now_at)
      | inr (pid, q) ↦
          let (found, o) = observe_one-ok (b.name, pid) m in
          let probed =
            subst
              (λ k.
                slot n (observe_one spawner (k, pid) m).1.view.children
                ≡ some (if lives pid then b else to_exited pid b))
              (sym e) (observe_one-own pid m b now_at r) in
          rw (r, q, live_pids)
            (rw (o, observe_loop)
              (observe_loop-other (live_pids cs) (seen ++ found)
                  (observe_one spawner (b.name, pid) m).1 apart
                ∙ probed))
    ]
  ]

  observe_loop-observed :
      (cs : List ChildState) (c : ChildState) (seen : List Text) (m : Machine W)
      → IsDistinct (names cs)
      → slot n cs ≡ some c
      → slot n m.view.children ≡ some c
      → slot n (observe_loop spawner (live_pids cs) seen m).1.view.children
        ≡ some (observed lives c)
  unfolding observe_loop live_pids
  observe_loop-observed [] c seen m d at now_at = cc
  observe_loop-observed (b ∷ cs) c seen m d at now_at = elim (Bool-cases (text_eq b.name n)) [
    | inl e ↦
        let named_n : b.name ≡ n = (text_eq_iff b.name n).0 e in
        let same : b ≡ c = ground (arith, at, e) in
        let apart = live_pids-apart n cs (subst (λ k. All (λ j. j ≢ k) (names cs)) named_n d.0) in
        own-observed b cs seen m apart named_n (now_at ∙ ap some (sym same))
        ∙ ap (λ x. some (observed lives x)) same
    | inr e ↦
        let rest = observe_loop-observed cs c in
        let at' : slot n cs ≡ some c = ground (arith, at, e) in
        elim (Bool-cases (is_running b.status)) [
          | inr r ↦ rw (r, live_pids) (rest seen m d.1 at' now_at)
          | inl r ↦ elim (Option-cases b.child_pid) [
            | inl q ↦ rw (r, q, live_pids) (rest seen m d.1 at' now_at)
            | inr (pid, q) ↦
                let (found, o) = observe_one-ok (b.name, pid) m in
                let apart : b.name ≢ n = λ x. absurd (ground (arith, x, e, text_eq_iff b.name n)) in
                rw (r, q, live_pids)
                  (rw (o, observe_loop)
                    (rest (seen ++ found) (observe_one spawner (b.name, pid) m).1 d.1 at'
                      (observe_one-other (b.name, pid) m apart ∙ now_at)))
          ]
        ]
  ]

  -- The observe phase makes of a child what its own probe says.
  pub observe_phase-observed :
      (m : Machine W) (c : ChildState)
      → IsDistinct (names m.view.children)
      → slot n m.view.children ≡ some c
      → slot n (observe_phase spawner m).view.children ≡ some (observed lives c)
  unfolding observe_phase observe_exits
  observe_phase-observed m c d at = observe_loop-observed m.view.children c [] m d at at
