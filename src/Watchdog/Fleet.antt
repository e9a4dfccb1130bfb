-- ===== src/Watchdog/Fleet.antt =====
-- What the watchdog touches: the units of the fleet that are due, and no others.
use wintermute_platform.Prelude.{
  ℕ, true, false, List, [], ◌∷◌, Text, text_eq, text_eq→≡, if◌then◌else◌, Bool-cases, All, ◌≡◌,
  refl, sym, ◌∙◌, inl, inr, arith, subst, ◌==◌, leb, ◌+◌, ◌^◌, ◌<◌,
}
use wintermute_platform.Watchdog.{
  RecoveryState, give_up_after, record_failure, may_attempt, is_wintermute_unit, SystemctlBackend,
  WatchdogEngine, entry_of, attempt, visit, visits, tick, run_ticks, is_ok,
}
use wintermute_platform.Platform.{from_secs}
use wintermute_platform.Watchdog.Giveup.{Outcome-cases, may_attempt-gave_up}
use wintermute_platform.Watchdog.Policy.{IsRung, below, no_wrap, entry_of-visit, visit-other}

module _ {W : Type 0} (backend : SystemctlBackend W) (P : W → Type 0) where
  -- The three operations on a unit keep a property of the world.
  pub record KeepsUnit (unit : Text) : Type 0 where
    pub on_reset : (w : W) → P w → P (backend.reset_failed unit w).1
    pub on_start : (w : W) → P w → P (backend.start_unit unit w).1
    pub on_check : (w : W) → P w → P (backend.unit_is_failed unit w).1

  attempt-keeps : (unit : Text) (w : W) → KeepsUnit unit → P w → P (attempt backend unit w).1
  unfolding attempt
  attempt-keeps unit w k p =
      let w1 = (backend.reset_failed unit w).1 in
      let w2 = (backend.start_unit unit w1).1 in
      elim (Bool-cases (is_ok (backend.reset_failed unit w).0)) [
        | inr r ↦ rw (r, attempt) (k.on_reset w p)
        | inl r ↦ elim (Bool-cases (is_ok (backend.start_unit unit w1).0)) [
          | inr s ↦ rw (r, s, attempt) (k.on_start w1 (k.on_reset w p))
          | inl s ↦ rw (r, s, attempt) (k.on_check w2 (k.on_start w1 (k.on_reset w p)))
        ]
      ]

  -- A visit calls the backend only for a unit of the fleet that may be attempted.
  visit-keeps :
      (v : Text) (now : ℕ) (e : WatchdogEngine W)
      → (is_wintermute_unit v ≡ true → may_attempt (entry_of v e.table) now ≡ true → KeepsUnit v)
      → P e.world
      → P (visit backend now v e).1.world
  unfolding visit
  visit-keeps v now e k p = elim (Bool-cases (is_wintermute_unit v)) [
    | inr f ↦ rw (f, visit) p
    | inl f ↦ elim (Bool-cases (may_attempt (entry_of v e.table) now)) [
      | inr m ↦ rw (f, m, visit) p
      | inl m ↦
          let after = attempt-keeps v e.world (k f m) p in
          elim (Bool-cases (attempt backend v e.world).0) [
            | inl c ↦ rw (f, m, c, visit) after
            | inr c ↦ rw (f, m, c, visit) after
          ]
    ]
  ]

  -- Listing the failed units keeps the property.
  abbrev pub KeepsList : Type 0
  KeepsList = (w : W) → P w → P (backend.list_failed_units w).1

  pub visits-fleet :
      (now : ℕ) (units : List Text) (e : WatchdogEngine W)
      → ((v : Text) → is_wintermute_unit v ≡ true → KeepsUnit v)
      → P e.world
      → P (visits backend now units e).1.world
  unfolding visits
  visits-fleet now [] e k p = p
  visits-fleet now (v ∷ units) e k p =
      visits-fleet now units (visit backend now v e).1 k (visit-keeps v now e (λ f m. k v f) p)

  tick-fleet :
      (now : ℕ) (e : WatchdogEngine W)
      → KeepsList
      → ((v : Text) → is_wintermute_unit v ≡ true → KeepsUnit v)
      → P e.world
      → P (tick backend now e).1.world
  unfolding tick
  tick-fleet now e l k p =
      let w = (backend.list_failed_units e.world).1 in
      elim (Outcome-cases (backend.list_failed_units e.world).0) [
        | inl (units, q) ↦
            rw (q, tick) (visits-fleet now units (record e { world = w }) k (l e.world p))
        | inr (error, q) ↦ rw (q, tick) (l e.world p)
      ]

  -- The watchdog touches units of the fleet alone: a property of the world that listing keeps, and
  -- that resetting, starting and checking a unit of the fleet keep, is kept by any run of ticks,
  -- whatever units systemd lists.
  pub run_ticks-fleet :
      (times : List ℕ) (e : WatchdogEngine W)
      → KeepsList
      → ((v : Text) → is_wintermute_unit v ≡ true → KeepsUnit v)
      → P e.world
      → P (run_ticks backend times e).1.world
  unfolding run_ticks
  run_ticks-fleet [] e l k p = p
  run_ticks-fleet (now ∷ later) e l k p =
      run_ticks-fleet later (tick backend now e).1 l k (tick-fleet now e l k p)

  -- The entry of the unit is `s`, and the world has the property.
  abbrev Rests : Text → RecoveryState → WatchdogEngine W → Type 0
  Rests u s e = (entry_of u e.table ≡ s) × P e.world

  abbrev Others : Text → Type 0
  Others u = (v : Text) → text_eq v u ≡ false → KeepsUnit v

  visit-Rests :
      (u : Text) (s : RecoveryState) (v : Text) (now : ℕ) (e : WatchdogEngine W)
      → Others u
      → may_attempt s now ≡ false
      → Rests u s e
      → Rests u s (visit backend now v e).1
  visit-Rests u s v now e k m h = elim (Bool-cases (text_eq v u)) [
    | inr d ↦ (visit-other backend u v now e d ∙ h.0, visit-keeps v now e (λ f a. k v d) h.1)
    | inl d ↦
        let entry = subst (λ x. entry_of x e.table ≡ s) (sym (text_eq→≡ v u d)) h.0 in
        let still = subst (λ x. may_attempt x now ≡ false) (sym entry) m in
        (
          subst (λ x. entry_of x (visit backend now v e).1.table ≡ s) (text_eq→≡ v u d)
              (entry_of-visit backend v now e ∙ elim (Bool-cases (is_wintermute_unit v)) [
                | inl f ↦ rw (f, still) entry
                | inr f ↦ rw f entry
              ]),
          visit-keeps v now e (λ f a. absurd (ground (arith, a, still))) h.1,
        )
  ]

  visits-Rests :
      (u : Text) (s : RecoveryState) (now : ℕ) (units : List Text) (e : WatchdogEngine W)
      → Others u
      → may_attempt s now ≡ false
      → Rests u s e
      → Rests u s (visits backend now units e).1
  unfolding visits
  visits-Rests u s now [] e k m h = h
  visits-Rests u s now (v ∷ units) e k m h =
      visits-Rests u s now units (visit backend now v e).1 k m (visit-Rests u s v now e k m h)

  tick-Rests :
      (u : Text) (s : RecoveryState) (now : ℕ) (e : WatchdogEngine W)
      → KeepsList
      → Others u
      → may_attempt s now ≡ false
      → Rests u s e
      → Rests u s (tick backend now e).1
  unfolding tick
  tick-Rests u s now e l k m h =
      let w = (backend.list_failed_units e.world).1 in
      elim (Outcome-cases (backend.list_failed_units e.world).0) [
        | inl (units, q) ↦
            rw (q, tick)
              (visits-Rests u s now units (record e { world = w }) k m (h.0, l e.world h.1))
        | inr (error, q) ↦ rw (q, tick) (h.0, l e.world h.1)
      ]

  -- While a unit may not be attempted, for it is given up on or waits out its backoff, it is left
  -- alone: over ticks at such times its entry stays, and a property of the world that listing keeps,
  -- and that the operations on every other unit keep, is kept.
  pub run_ticks-Rests :
      (u : Text) (s : RecoveryState) (times : List ℕ) (e : WatchdogEngine W)
      → KeepsList
      → ((v : Text) → text_eq v u ≡ false → KeepsUnit v)
      → All (λ now. may_attempt s now ≡ false) times
      → entry_of u e.table ≡ s
      → P e.world
      → (entry_of u (run_ticks backend times e).1.table ≡ s) × P (run_ticks backend times e).1.world
  unfolding run_ticks
  run_ticks-Rests u s [] e l k m q p = (q, p)
  run_ticks-Rests u s (now ∷ later) e l k m q p =
      let h = tick-Rests u s now e l k m.0 (q, p) in
      run_ticks-Rests u s later (tick backend now e).1 l k m.1 h.0 h.1

seventh : (k : ℕ) → (k == 7) ≡ true → leb give_up_after (k + 1) ≡ true
seventh k e = ground (arith, e)

earlier : (k : ℕ) → k < 8 → (k == 7) ≡ false → leb give_up_after (k + 1) ≡ false
earlier k h e = ground (arith, e)

-- For a state on a rung that may be attempted, a failed attempt that is not the last puts the next
-- one off by `2 ^ (failures + 1)` seconds, with the failures before it; the last, the eighth in a
-- row, puts it off for ever.
pub may_attempt-record_failure :
    (s : RecoveryState) (now t : ℕ)
    → IsRung s
    → may_attempt s now ≡ true
    → may_attempt (record_failure s now).0 t ≡ (
        if s.consecutive_failures == 7
        then false
        else leb (now + from_secs (2 ^ (s.consecutive_failures + 1))) t)
unfolding may_attempt record_failure
may_attempt-record_failure s now t h m =
    let k = s.consecutive_failures in
    let live = may_attempt-gave_up s now m in
    let small = below k h.failures (sym h.gave_up ∙ live) in
    elim (Bool-cases (k == 7)) [
      | inl e ↦ rw (no_wrap k small, seventh k e, e, may_attempt, record_failure) refl
      | inr e ↦
          rw
            (
              no_wrap k small,
              earlier k small e,
              e,
              live,
              h.backoff live,
              may_attempt,
              record_failure,
            )
            refl
    ]
