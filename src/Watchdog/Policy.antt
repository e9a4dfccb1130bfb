-- ===== src/Watchdog/Policy.antt =====
-- The recovery policy of one unit: the rungs of the backoff, and what a visit does to the entries.
use wintermute_platform.Prelude.{
  ℕ, zero, suc, ◌+◌, ◌%◌, ◌^◌, ◌≤◌, ◌<◌, Bool, true, false, ◌&&◌, List, [], ◌∷◌, Text, text_eq,
  text_eq→≡, not, text_eq_refl, leb, if◌then◌else◌, Bool-cases, TextMap, get, insert, get-insert,
  get_or, ◌≡◌, refl, sym, ap, ◌∙◌, inl, inr, arith, subst,
}
use wintermute_platform.Platform.{from_secs}
use wintermute_platform.Watchdog.{
  RecoveryState, default_state, may_attempt, record_success, record_failure, is_wintermute_unit,
  SystemctlBackend, WatchdogEngine, entry_of, fail_entry, attempt, visit, visits, give_up_after,
  doubled,
}

-- A state that stands on a rung of the policy: up to eight failures, given up on exactly at the
-- eighth, and before that a backoff of `2 ^ (failures + 1)` seconds.
pub record IsRung (s : RecoveryState) : Type 0 where
  pub failures : s.consecutive_failures ≤ give_up_after
  pub gave_up : s.gave_up ≡ leb give_up_after s.consecutive_failures
  pub backoff : s.gave_up ≡ false → s.current_backoff ≡ from_secs (2 ^ (s.consecutive_failures + 1))

doubled-rung : (k : ℕ) → k < 7 → doubled (from_secs (2 ^ (k + 1))) ≡ from_secs (2 ^ (k + 1 + 1))
doubled-rung zero h = refl
doubled-rung (suc zero) h = refl
doubled-rung (suc (suc zero)) h = refl
doubled-rung (suc (suc (suc zero))) h = refl
doubled-rung (suc (suc (suc (suc zero)))) h = refl
doubled-rung (suc (suc (suc (suc (suc zero))))) h = refl
doubled-rung (suc (suc (suc (suc (suc (suc zero)))))) h = refl
doubled-rung (suc (suc (suc (suc (suc (suc (suc k))))))) h = absurd (omega arith)

-- The counter does not wrap below the eighth failure.
pub no_wrap : (k : ℕ) → k < 8 → (k + 1) % 2 ^ 32 ≡ k + 1
no_wrap k h = omega arith

pub below : (k : ℕ) → k ≤ 8 → leb 8 k ≡ false → k < 8
below k h e = ground arith

pub default-IsRung : IsRung default_state
default-IsRung = record { failures = omega arith; gave_up = refl; backoff = λ _. refl }

pub record_success-IsRung :
    (s : RecoveryState) → IsRung s → s.gave_up ≡ false → IsRung (record_success s)
unfolding record_success
record_success-IsRung s h e = record { failures = omega arith; gave_up = e; backoff = λ _. refl }

pub record_failure-IsRung :
    (s : RecoveryState) (now : ℕ) → IsRung s → s.gave_up ≡ false → IsRung (record_failure s now).0
unfolding record_failure
record_failure-IsRung s now h e =
    let k = s.consecutive_failures in
    let small = below k h.failures (sym h.gave_up ∙ e) in
    elim (Bool-cases (leb 8 (k + 1))) [
      | inl last ↦
          rw (no_wrap k small, last, record_failure)
            (record {
              failures = omega arith;
              gave_up = sym last;
              backoff = λ q. absurd (ground arith);
            })
      | inr more ↦
          rw (no_wrap k small, more, record_failure)
            (record {
              failures = omega arith;
              gave_up = e ∙ sym more;
              backoff = λ q. ap doubled (h.backoff e) ∙ doubled-rung k (ground arith);
            })
    ]

-- What one visit makes of the entry of its unit.
abbrev pub stepped : Bool → ℕ → RecoveryState → RecoveryState
stepped came_up now s =
    if may_attempt s now
    then (if came_up then record_success s else (record_failure s now).0)
    else s

not_given_up : (s : RecoveryState) (now : ℕ) → may_attempt s now ≡ true → s.gave_up ≡ false
unfolding may_attempt
not_given_up s now e = ground (arith, e)

pub stepped-IsRung :
    (came_up : Bool) (now : ℕ) (s : RecoveryState) → IsRung s → IsRung (stepped came_up now s)
stepped-IsRung came_up now s h = elim (Bool-cases (may_attempt s now)) [
  | inr e ↦ rw e h
  | inl e ↦ rw e (elim (Bool-cases came_up) [
    | inl c ↦ rw c (record_success-IsRung s h (not_given_up s now e))
    | inr c ↦ rw c (record_failure-IsRung s now h (not_given_up s now e))
  ])
]

entry_of-own :
    (u : Text) (s : RecoveryState) (table : TextMap RecoveryState)
    → entry_of u (insert u s table) ≡ s
entry_of-own u s table =
    ap (get_or default_state) (get-insert u u s table) ∙ rw (text_eq_refl u) refl

entry_of-other :
    (u v : Text) (s : RecoveryState) (table : TextMap RecoveryState)
    → text_eq v u ≡ false
    → entry_of u (insert v s table) ≡ entry_of u table
entry_of-other u v s table e = ap (get_or default_state) (get-insert v u s table) ∙ rw e refl

module _ {W : Type 0} (backend : SystemctlBackend W) where
  -- A visit steps the entry of its own unit, if that is one of the fleet's.
  pub entry_of-visit :
      (v : Text) (now : ℕ) (e : WatchdogEngine W)
      → entry_of v (visit backend now v e).1.table ≡ (
          if is_wintermute_unit v
          then stepped (attempt backend v e.world).0 now (entry_of v e.table)
          else entry_of v e.table)
  unfolding visit fail_entry
  entry_of-visit v now e =
      let s = entry_of v e.table in
      let touched = insert v s e.table in
      elim (Bool-cases (is_wintermute_unit v)) [
        | inr f ↦ rw (f, visit) refl
        | inl f ↦ elim (Bool-cases (may_attempt s now)) [
          | inr m ↦ rw (f, m, visit, stepped) (entry_of-own v s e.table)
          | inl m ↦ elim (Bool-cases (attempt backend v e.world).0) [
            | inl c ↦ rw (f, m, c, visit, stepped) (entry_of-own v (record_success s) touched)
            | inr c ↦
                rw (f, m, c, visit, stepped)
                  (entry_of-own v (record_failure (entry_of v touched) now).0 touched
                    ∙ ap (λ x. (record_failure x now).0) (entry_of-own v s e.table))
          ]
        ]
      ]

  -- It leaves the other entries as they are.
  pub visit-other :
      (u v : Text) (now : ℕ) (e : WatchdogEngine W)
      → text_eq v u ≡ false
      → entry_of u (visit backend now v e).1.table ≡ entry_of u e.table
  unfolding visit fail_entry
  visit-other u v now e d =
      let s = entry_of v e.table in
      let touched = insert v s e.table in
      let same = entry_of-other u v s e.table d in
      elim (Bool-cases (is_wintermute_unit v)) [
        | inr f ↦ rw (f, visit) refl
        | inl f ↦ elim (Bool-cases (may_attempt s now)) [
          | inr m ↦ rw (f, m, visit) same
          | inl m ↦ elim (Bool-cases (attempt backend v e.world).0) [
            | inl c ↦ rw (f, m, c, visit) (entry_of-other u v _ touched d ∙ same)
            | inr c ↦ rw (f, m, c, visit) (entry_of-other u v _ touched d ∙ same)
          ]
        ]
      ]

  -- A visit yields the event of its unit, with the number of failures, if its attempt is the one at
  -- which the unit is given up on.
  pub visit-events :
      (v : Text) (now : ℕ) (e : WatchdogEngine W)
      → (visit backend now v e).0 ≡ (
          if is_wintermute_unit v
            && may_attempt (entry_of v e.table) now
            && not (attempt backend v e.world).0
            && (record_failure (entry_of v e.table) now).1
          then record {
            unit = v;
            attempts = (record_failure (entry_of v e.table) now).0.consecutive_failures;
          }
            ∷ []
          else [])
  unfolding visit fail_entry
  visit-events v now e =
      let s = entry_of v e.table in
      elim (Bool-cases (is_wintermute_unit v)) [
        | inr f ↦ rw (f, visit) refl
        | inl f ↦ elim (Bool-cases (may_attempt s now)) [
          | inr m ↦ rw (f, m, visit) refl
          | inl m ↦ elim (Bool-cases (attempt backend v e.world).0) [
            | inl c ↦ rw (f, m, c, visit) refl
            | inr c ↦
                rw (f, m, c, visit)
                  (ap
                    (λ (x : RecoveryState).
                      if (record_failure x now).1
                      then record {
                        unit = v;
                        attempts = (record_failure x now).0.consecutive_failures;
                      }
                        ∷ []
                      else [])
                    (entry_of-own v s e.table))
          ]
        ]
      ]

-- Every entry of the table stands on a rung.
abbrev pub AllRungs : TextMap RecoveryState → Type 0
AllRungs table = (u : Text) → IsRung (entry_of u table)

pub empty-AllRungs : AllRungs []
unfolding get
empty-AllRungs u = default-IsRung

module _ {W : Type 0} (backend : SystemctlBackend W) where
  pub visit-AllRungs :
      (v : Text) (now : ℕ) (e : WatchdogEngine W)
      → AllRungs e.table
      → AllRungs (visit backend now v e).1.table
  visit-AllRungs v now e h u = elim (Bool-cases (text_eq v u)) [
    | inr d ↦ rw (visit-other backend u v now e d) (h u)
    | inl d ↦
        subst (λ x. IsRung (entry_of x (visit backend now v e).1.table)) (text_eq→≡ v u d)
          (rw (entry_of-visit backend v now e) (elim (Bool-cases (is_wintermute_unit v)) [
            | inl f ↦ rw f (stepped-IsRung (attempt backend v e.world).0 now _ (h v))
            | inr f ↦ rw f (h v)
          ]))
  ]

  pub visits-AllRungs :
      (now : ℕ) (units : List Text) (e : WatchdogEngine W)
      → AllRungs e.table
      → AllRungs (visits backend now units e).1.table
  unfolding visits
  visits-AllRungs now [] e h = h
  visits-AllRungs now (v ∷ units) e h =
      visits-AllRungs now units (visit backend now v e).1 (visit-AllRungs v now e h)
