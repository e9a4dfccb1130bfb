-- ===== src/Ready/Clock/Years.antt =====
-- The loop over the years ends, and the fuel of its model does not matter.
use wintermute_platform.Prelude.{
  sym, ℕ, zero, suc, ◌+◌, ◌-◌, ◌≤◌, ◌<◌, ltb, Bool-cases, ◌≡◌, refl, inl, inr, arith,
}
use wintermute_platform.Ready.Clock.{year_days, find_year}
use wintermute_platform.Ready.Clock.Calendar.{year_days_pos}

-- A year that has the days left in it stops the loop, with any fuel.
find_year-stops : (fuel y days : ℕ) → days < year_days y → find_year fuel y days ≡ (y, days)
unfolding find_year
find_year-stops zero y days h = refl
find_year-stops (suc fuel) y days h = ground (arith, h)

-- The loop over the years ends by its own test after no more rounds than there are days: with any
-- fuel from the number of days on it finds the same year, and fewer days left than that year has.
pub find_year-ends :
    (fuel fuel' y days : ℕ)
    → days ≤ fuel
    → days ≤ fuel'
    → (find_year fuel y days ≡ find_year fuel' y days)
      × ((find_year fuel y days).1 < year_days (find_year fuel y days).0)
unfolding find_year
find_year-ends zero fuel' y days h h' =
    let less : days < year_days y = omega (arith, year_days_pos y) in
    (sym (find_year-stops fuel' y days less), less)
find_year-ends (suc fuel) zero y days h h' =
    let less : days < year_days y = omega (arith, year_days_pos y) in
    let stops = find_year-stops (suc fuel) y days less in (stops, rw stops less)
find_year-ends (suc fuel) (suc fuel') y days h h' = elim (Bool-cases (ltb days (year_days y))) [
  | inl e ↦ rw (e, find_year) (refl, ground (arith, e))
  | inr e ↦
      let more : year_days y ≤ days = ground (arith, e) in
      rw (e, find_year)
        (find_year-ends fuel fuel' (y + 1) (days - year_days y)
          (omega (arith, year_days_pos y, more)) (omega (arith, year_days_pos y, more)))
]
