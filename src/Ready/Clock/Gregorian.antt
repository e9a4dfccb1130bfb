-- ===== src/Ready/Clock/Gregorian.antt =====
-- The Gregorian calendar by its rule and its tables, with nothing taken from the program: what the
-- timestamp of src/ready.rs is measured against.
use wintermute_platform.Prelude.{
  ℕ, zero, suc, ◌+◌, ◌-◌, ◌*◌, ◌/◌, ◌%◌, List, [], ◌∷◌, ◌==◌, if◌then◌else◌,
}

-- The leap years from the year 1 to a year.
abbrev pub leap_years : ℕ → ℕ
leap_years y = y / 4 - y / 100 + y / 400

-- 1 for a leap year.
abbrev pub leap_day : ℕ → ℕ
leap_day y = if y % 400 == 0 then 1 else if y % 100 == 0 then 0 else if y % 4 == 0 then 1 else 0

abbrev pub nth : ℕ → List ℕ → ℕ
nth k [] = 0
nth zero (n ∷ ns) = n
nth (suc k) (n ∷ ns) = nth k ns

-- January to December.
abbrev pub month_lengths : ℕ → List ℕ
month_lengths l = 31 ∷ (28 + l) ∷ 31 ∷ 30 ∷ 31 ∷ 30 ∷ 31 ∷ 31 ∷ 30 ∷ 31 ∷ 30 ∷ 31 ∷ []

-- The days of the year before each month.
abbrev pub month_starts : ℕ → List ℕ
month_starts l =
    0
    ∷ 31
    ∷ (59 + l)
    ∷ (90 + l)
    ∷ (120 + l)
    ∷ (151 + l)
    ∷ (181 + l)
    ∷ (212 + l)
    ∷ (243 + l)
    ∷ (273 + l)
    ∷ (304 + l)
    ∷ (334 + l)
    ∷ []

-- The days from the first of January 1970 to the first of January of a year from 1970 on.
abbrev pub year_start : ℕ → ℕ
year_start y = 365 * (y - 1970) + (leap_years (y - 1) - leap_years 1969)

-- The days from the first of January 1970 to a date.
abbrev pub day_number : ℕ → ℕ → ℕ → ℕ
day_number y mo d = year_start y + nth (mo - 1) (month_starts (leap_day y)) + (d - 1)
