-- ===== src/Doctor/Report.antt =====
-- The verdict of the doctor, and what its quiet table shows.
use wintermute_platform.Prelude.{
  true, false, List, [], ◌∷◌, ◌++◌, All, is_empty, Bool-cases, ◌≡◌, ◌↔◌, ◌⊎◌, refl, ◌∙◌, inl, inr,
  arith,
}
use wintermute_platform.Doctor.{
  UnitReport, DoctorReport, DoctorScope, DoctorHost, Overrides, binary_ok, has_failed, report_of,
  run_doctor, probe_scopes, scope_flags, unit_rows, render_table,
}

-- The unit's binary is there and executable, or the unit has no ExecStart.
abbrev pub IsHealthy : UnitReport → Type 0
IsHealthy r = (binary_ok r ≡ true) ⊎ (is_empty r.exec_start ≡ true)

healthy : (r : UnitReport) → has_failed r ≡ false → IsHealthy r
healthy r h = elim (Bool-cases (binary_ok r)) [ inl e ↦ inl e | inr e ↦ inr (ground (arith, h, e)) ]

not_failed : (r : UnitReport) → IsHealthy r → has_failed r ≡ false
not_failed r (inl e) = ground (arith, e)
not_failed r (inr e) = ground (arith, e)

all_ok-IsHealthy : (units : List UnitReport) → (report_of units).all_ok ≡ true → All IsHealthy units
unfolding report_of
all_ok-IsHealthy [] h = tt
all_ok-IsHealthy (r ∷ rs) h = elim (Bool-cases (has_failed r)) [
  | inl e ↦ absurd (ground (arith, h, e))
  | inr e ↦ (healthy r e, all_ok-IsHealthy rs (rw e at h))
]

IsHealthy-all_ok :
    (units : List UnitReport)
    → All IsHealthy units
    → ((report_of units).all_ok ≡ true) × (unit_rows true units ≡ [])
unfolding report_of unit_rows
IsHealthy-all_ok [] h = (refl, refl)
IsHealthy-all_ok (r ∷ rs) h = let e = not_failed r h.0 in rw e (IsHealthy-all_ok rs h.1)

report_of-units : (units : List UnitReport) → (report_of units).units ≡ units
unfolding report_of
report_of-units units = refl

quiet_table : (report : DoctorReport) → render_table report true ≡ unit_rows true report.units ++ []
unfolding render_table
quiet_table report = refl

-- The doctor's verdict is good exactly when every unit that it reports has an executable binary or no
-- ExecStart; the quiet table is empty then.
pub run_doctor-IsHealthy :
    (host : DoctorHost) (scope : DoctorScope) (o : Overrides)
    → (((run_doctor host scope o).all_ok ≡ true) ↔ All IsHealthy (run_doctor host scope o).units)
      × ((run_doctor host scope o).all_ok ≡ true → render_table (run_doctor host scope o) true ≡ [])
unfolding run_doctor
run_doctor-IsHealthy host scope o =
    let units = probe_scopes host (scope_flags scope) o in
    (
      (
        λ h. rw (report_of-units units) (all_ok-IsHealthy units h),
        λ h. (IsHealthy-all_ok units (rw (report_of-units units) at h)).0,
      ),
      λ h.
          let quiet = (IsHealthy-all_ok units (all_ok-IsHealthy units h)).1 in
          quiet_table (report_of units) ∙ rw (report_of-units units) (rw quiet refl),
    )
