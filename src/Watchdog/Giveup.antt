-- ===== src/Watchdog/Giveup.antt =====
-- Giving up: the health events of a run of ticks, and units that are left alone.
use wintermute_platform.Prelude.{
  ℕ, suc, ◌+◌, Bool, true, false, not, ◌&&◌, List, [], ◌∷◌, ◌++◌, Text, text_eq, text_eq→≡,
  text_eq_refl, if◌then◌else◌, Bool-cases, All, All-append, ◌⊎◌, ◌≡◌, refl, ap, inl, inr, arith,
  subst,
}
use wintermute_platform.Watchdog.{
  RecoveryState, HealthEvent, may_attempt, record_success, record_failure, is_wintermute_unit,
  SystemctlBackend, WatchdogEngine, Outcome, done, broke, entry_of, attempt, visit, visits, tick,
  run_ticks, done_or, WatchdogError, give_up_after,
}
use wintermute_platform.Watchdog.Policy.{
  IsRung, AllRungs, visit-AllRungs, visits-AllRungs, entry_of-visit, visit-other, visit-events,
}

-- The events for a unit.
abbrev pub count_for : Text → List HealthEvent → ℕ
count_for u [] = 0
count_for u (e ∷ es) = let rest = count_for u es in if text_eq e.unit u then suc rest else rest

count_for-append :
    (u : Text) (es fs : List HealthEvent) → count_for u (es ++ fs) ≡ count_for u es + count_for u fs
count_for-append u [] fs = omega arith
count_for-append u (e ∷ es) fs = elim (Bool-cases (text_eq e.unit u)) [
  | inl q ↦ rw q (omega (arith, count_for-append u es fs))
  | inr q ↦ rw q (count_for-append u es fs)
]

-- 1 for a unit that is given up on.
abbrev pub given_up : RecoveryState → ℕ
given_up s = if s.gave_up then 1 else 0

record_failure-gave_up :
    (s : RecoveryState) (now : ℕ)
    → s.gave_up ≡ false
    → (record_failure s now).0.gave_up ≡ (record_failure s now).1
unfolding record_failure
record_failure-gave_up s now e = ground (arith, e)

record_success-gave_up : (s : RecoveryState) → (record_success s).gave_up ≡ s.gave_up
unfolding record_success
record_success-gave_up s = refl

attempts_at_last :
    (s : RecoveryState) (now : ℕ)
    → IsRung s
    → may_attempt s now ≡ true
    → (record_failure s now).1 ≡ true
    → (record_failure s now).0.consecutive_failures ≡ give_up_after
unfolding record_failure may_attempt
attempts_at_last s now h m e = ground (arith, h.failures, h.gave_up)

pub may_attempt-gave_up :
    (s : RecoveryState) (now : ℕ) → may_attempt s now ≡ true → s.gave_up ≡ false
unfolding may_attempt
may_attempt-gave_up s now e = ground (arith, e)

pub Outcome-cases :
    {A : Type 0} (r : Outcome A) → ((a : A) × (r ≡ done a)) ⊎ ((e : WatchdogError) × (r ≡ broke e))
Outcome-cases (done a) = inl (a, refl)
Outcome-cases (broke e) = inr (e, refl)

module _ {W : Type 0} (backend : SystemctlBackend W) where
  visit-count-own :
      (v : Text) (now : ℕ) (e : WatchdogEngine W)
      → count_for v (visit backend now v e).0 + given_up (entry_of v e.table)
        ≡ given_up (entry_of v (visit backend now v e).1.table)
  visit-count-own v now e =
      let s = entry_of v e.table in
      rw (visit-events backend v now e, entry_of-visit backend v now e)
        (elim (Bool-cases (is_wintermute_unit v)) [
          | inr f ↦ rw f (omega arith)
          | inl f ↦ elim (Bool-cases (may_attempt s now)) [
            | inr m ↦ rw (f, m) (omega arith)
            | inl m ↦ elim (Bool-cases (attempt backend v e.world).0) [
              | inl c ↦ rw (f, m, c, record_success-gave_up s) (omega arith)
              | inr c ↦ elim (Bool-cases (record_failure s now).1) [
                | inl l ↦
                    rw
                      (
                        f,
                        m,
                        c,
                        may_attempt-gave_up s now m,
                        record_failure-gave_up s now (may_attempt-gave_up s now m),
                        l,
                        text_eq_refl v,
                      )
                      (omega arith)
                | inr l ↦
                    rw
                      (
                        f,
                        m,
                        c,
                        may_attempt-gave_up s now m,
                        record_failure-gave_up s now (may_attempt-gave_up s now m),
                        l,
                      )
                      (omega arith)
              ]
            ]
          ]
        ])

  visit-count-other :
      (u v : Text) (now : ℕ) (e : WatchdogEngine W)
      → text_eq v u ≡ false
      → count_for u (visit backend now v e).0 ≡ 0
  visit-count-other u v now e d =
      rw (visit-events backend v now e)
        (elim (Bool-cases (
          is_wintermute_unit v
          && may_attempt (entry_of v e.table) now
          && not (attempt backend v e.world).0
          && (record_failure (entry_of v e.table) now).1)) [
            | inl q ↦ rw (q, d) refl
            | inr q ↦ rw q refl
          ])

  visit-count :
      (u v : Text) (now : ℕ) (e : WatchdogEngine W)
      → count_for u (visit backend now v e).0 + given_up (entry_of u e.table)
        ≡ given_up (entry_of u (visit backend now v e).1.table)
  visit-count u v now e = elim (Bool-cases (text_eq v u)) [
    | inl d ↦
        subst
          (λ x.
            count_for x (visit backend now v e).0 + given_up (entry_of x e.table)
            ≡ given_up (entry_of x (visit backend now v e).1.table))
          (text_eq→≡ v u d) (visit-count-own v now e)
    | inr d ↦
        omega (arith, visit-count-other u v now e d, ap given_up (visit-other backend u v now e d))
  ]

  visits-count :
      (u : Text) (now : ℕ) (units : List Text) (e : WatchdogEngine W)
      → count_for u (visits backend now units e).0 + given_up (entry_of u e.table)
        ≡ given_up (entry_of u (visits backend now units e).1.table)
  unfolding visits
  visits-count u now [] e = omega arith
  visits-count u now (v ∷ units) e =
      let next = (visit backend now v e).1 in
      omega (
        arith,
        count_for-append u (visit backend now v e).0 (visits backend now units next).0,
        visit-count u v now e,
        visits-count u now units next,
      )

  tick-count :
      (u : Text) (now : ℕ) (e : WatchdogEngine W)
      → count_for u (done_or [] (tick backend now e).0) + given_up (entry_of u e.table)
        ≡ given_up (entry_of u (tick backend now e).1.table)
  unfolding tick
  tick-count u now e = elim (Outcome-cases (backend.list_failed_units e.world).0) [
    | inl (units, q) ↦
        rw (q, tick)
          (visits-count u now units (record e { world = (backend.list_failed_units e.world).1 }))
    | inr (error, q) ↦ rw (q, tick) (omega arith)
  ]

  -- In any run of ticks, the number of health events for a unit is one if the run gives the unit up,
  -- and zero otherwise: an event is sent when a unit is given up on, and never again.
  pub run_ticks-count :
      (u : Text) (times : List ℕ) (e : WatchdogEngine W)
      → count_for u (run_ticks backend times e).0 + given_up (entry_of u e.table)
        ≡ given_up (entry_of u (run_ticks backend times e).1.table)
  unfolding run_ticks
  run_ticks-count u [] e = omega arith
  run_ticks-count u (now ∷ later) e =
      let next = (tick backend now e).1 in
      omega (
        arith,
        count_for-append u (done_or [] (tick backend now e).0) (run_ticks backend later next).0,
        tick-count u now e,
        run_ticks-count u later next,
      )

abbrev pub AtEight : HealthEvent → Type 0
AtEight e = e.attempts ≡ give_up_after

one_or_none :
    (b : Bool) (e : HealthEvent) → (b ≡ true → AtEight e) → All AtEight (if b then e ∷ [] else [])
one_or_none true e h = (h refl, tt)
one_or_none false e h = tt

second_and_fourth : (a b c d : Bool) → (a && b && c && d) ≡ true → (b ≡ true) × (d ≡ true)
second_and_fourth a b c d q = ground (arith, q)

module _ {W : Type 0} (backend : SystemctlBackend W) where
  visit-AtEight :
      (v : Text) (now : ℕ) (e : WatchdogEngine W)
      → AllRungs e.table
      → All AtEight (visit backend now v e).0
  visit-AtEight v now e h =
      let s = entry_of v e.table in
      rw (visit-events backend v now e) (
        one_or_none _ _
          (λ q. let (m, l) = second_and_fourth _ _ _ _ q in attempts_at_last s now (h v) m l))

  visits-AtEight :
      (now : ℕ) (units : List Text) (e : WatchdogEngine W)
      → AllRungs e.table
      → All AtEight (visits backend now units e).0
  unfolding visits
  visits-AtEight now [] e h = tt
  visits-AtEight now (v ∷ units) e h =
      let next = (visit backend now v e).1 in
      All-append AtEight (visit backend now v e).0 (visits backend now units next).0
        (visit-AtEight v now e h) (visits-AtEight now units next (visit-AllRungs backend v now e h))

  tick-AllRungs :
      (now : ℕ) (e : WatchdogEngine W)
      → AllRungs e.table
      → AllRungs (tick backend now e).1.table × All AtEight (done_or [] (tick backend now e).0)
  unfolding tick
  tick-AllRungs now e h =
      let (r, w) = backend.list_failed_units e.world in
      let listed = record e { world = w } in
      elim (Outcome-cases (backend.list_failed_units e.world).0) [
        | inl (units, q) ↦
            rw (q, tick)
              (visits-AllRungs backend now units listed h, visits-AtEight now units listed h)
        | inr (error, q) ↦ rw (q, tick) (h, tt)
      ]

  -- The recovery table, and what the events carry, through any run of ticks, from a table whose
  -- states stand on a rung, as the empty one's do: every unit stays on a rung, so that it is given
  -- up on exactly at the eighth failure in a row and its backoff before that is `2 ^ (failures +
  -- 1)` seconds; every event says eight attempts.
  pub run_ticks-AllRungs :
      (times : List ℕ) (e : WatchdogEngine W)
      → AllRungs e.table
      → AllRungs (run_ticks backend times e).1.table × All AtEight (run_ticks backend times e).0
  unfolding run_ticks
  run_ticks-AllRungs [] e h = (h, tt)
  run_ticks-AllRungs (now ∷ later) e h =
      let next = (tick backend now e).1 in
      let (rungs, events) = tick-AllRungs now e h in
      let (rungs', events') = run_ticks-AllRungs later next rungs in
      (
        rungs',
        All-append AtEight (done_or [] (tick backend now e).0) (run_ticks backend later next).0
            events events',
      )
