-- ===== src/Wm/Exits.antt =====
-- The exit codes of `wm ready` and `wm doctor`.
use wintermute_platform.Doctor.Report.{run_doctor-IsHealthy, IsHealthy}
use wintermute_platform.Prelude.{
  ◌⊎◌, Bool, ℕ, true, List, [], ◌∷◌, all, All, Text, Result, ◌≡◌, ◌↔◌, refl, ◌∙◌, inl, inr, arith,
  if◌then◌else◌, Bool-cases,
}
use wintermute_platform.Ready.{ReadyHost, CheckResult, aggregate}
use wintermute_platform.Ready.Verdict.{aggregate-IsWorst}
use wintermute_platform.Wm.{
  no_overrides, doctor_scope, run_doctor, DoctorScopeArg, DoctorFormat, DoctorHost, DoctorReport,
  run_doctor_cmd, HealthReadyEnvelope, ReadyFormat, plain, json, ready_report, run_ready,
  run_checks, success, failure,
}

aggregate-All :
    (checks : List CheckResult) → All (λ c. c.is_ok ≡ true) checks → (aggregate checks).0 ≡ true
unfolding aggregate
aggregate-All checks h = rw (every checks h) refl
  where
    every :
        (checks : List CheckResult)
        → All (λ c. c.is_ok ≡ true) checks
        → all (λ c. c.is_ok) checks ≡ true
    every [] h = refl
    every (c ∷ cs) h = ground (arith, h.0, every cs h.1)

ready-All :
    (checks : List CheckResult) → (aggregate checks).0 ≡ true → All (λ c. c.is_ok ≡ true) checks
ready-All checks h = elim (aggregate-IsWorst checks) [
  | inl (q, passed) ↦ passed
  | inr (w, q, worst) ↦ absurd (ground (arith, h, q))
]

ready_report-exit :
    (to_json : HealthReadyEnvelope → Result Text) (checks : List CheckResult) (secs : ℕ)
    (format : ReadyFormat)
    → (ready_report to_json checks secs format).1
      ≡ (if (aggregate checks).0 then success else failure)
unfolding ready_report
ready_report-exit to_json checks secs plain = refl
ready_report-exit to_json checks secs json = refl

-- `wm ready` exits with 0 exactly when all five checks pass, in either format.
pub run_ready-exit :
    (to_json : HealthReadyEnvelope → Result Text) (host : ReadyHost) (secs : ℕ)
    (format : ReadyFormat)
    → ((run_ready to_json host secs format).1 ≡ success)
      ↔ All (λ c. c.is_ok ≡ true) (run_checks host)
unfolding run_ready
run_ready-exit to_json host secs format =
    let checks = run_checks host in
    let exit = ready_report-exit to_json checks secs format in
    (
      λ h. elim (Bool-cases (aggregate checks).0) [
        | inl e ↦ ready-All checks e
        | inr e ↦ absurd (ground (arith, h, exit, e))
      ],
      λ h. exit ∙ rw (aggregate-All checks h) refl,
    )

-- `wm doctor` exits with 0 when every unit that it finds is healthy, and with 2 otherwise, in
-- either format, quiet or not.
pub run_doctor_cmd-exit :
    (to_json : DoctorReport → Result Text) (host : DoctorHost) (format : DoctorFormat)
    (scope : DoctorScopeArg) (quiet : Bool)
    → (((run_doctor_cmd to_json host format scope quiet).1 ≡ success)
        ↔ All IsHealthy (run_doctor host (doctor_scope scope) no_overrides).units)
      × (((run_doctor_cmd to_json host format scope quiet).1 ≡ success)
          ⊎ ((run_doctor_cmd to_json host format scope quiet).1 ≡ 2))
unfolding run_doctor_cmd
run_doctor_cmd-exit to_json host format scope quiet =
    let healthy = (run_doctor-IsHealthy host (doctor_scope scope) no_overrides).0 in
    elim (Bool-cases (run_doctor host (doctor_scope scope) no_overrides).all_ok) [
      | inl e ↦
          ((λ h. healthy.0 e, λ h. rw (e, run_doctor_cmd) refl), inl (rw (e, run_doctor_cmd) refl))
      | inr e ↦ (
        (λ h. absurd (ground (arith, h, e)), λ h. absurd (ground (arith, e, healthy.1 h))),
        inr (rw (e, run_doctor_cmd) refl),
      )
    ]
