-- ===== src/Ready/Clock.antt =====
-- src/ready.rs: the UTC timestamp and its calendar. The seconds since the epoch are an argument.
pub mod Calendar
pub mod Digits
pub mod Gregorian
pub mod Reading
pub mod Years
use wintermute_platform.Prelude.{
  ℕ, zero, suc, ◌+◌, ◌-◌, ◌/◌, ◌%◌, Bool, not, ◌&&◌, ◌||◌, List, [], ◌∷◌, ◌++◌, Text, text, show,
  length, ltb, ◌==◌, if◌then◌else◌,
}

unfoldable pub is_leap : ℕ → Bool
is_leap y = (y % 4 == 0 && not (y % 100 == 0)) || y % 400 == 0

unfoldable pub year_days : ℕ → ℕ
year_days y = if is_leap y then 366 else 365

unfoldable pub month_days : ℕ → List ℕ
month_days y =
    let february = if is_leap y then 29 else 28 in
    31 ∷ february ∷ 31 ∷ 30 ∷ 31 ∷ 30 ∷ 31 ∷ 31 ∷ 30 ∷ 31 ∷ 30 ∷ 31 ∷ []

-- The loop over the years, on fuel: the year and the days that are left in it.
unfoldable pub find_year : ℕ → ℕ → ℕ → ℕ × ℕ
find_year zero y days = (y, days)
find_year (suc fuel) y days =
    let rest = find_year fuel (y + 1) (days - year_days y) in
    if ltb days (year_days y) then (y, days) else rest

-- The loop over the months: the month and the days that are left in it.
unfoldable pub find_month : List ℕ → ℕ → ℕ → ℕ × ℕ
find_month [] mo days = (mo, days)
find_month (md ∷ later) mo days =
    let rest = find_month later (mo + 1) (days - md) in if ltb days md then (mo, days) else rest

-- A year and a month take no more rounds than there are days.
unfoldable pub days_to_ymd : ℕ → ℕ × ℕ × ℕ
days_to_ymd days =
    let (y, in_year) = find_year days 1970 days in
    let (mo, in_month) = find_month (month_days y) 1 in_year in (y, mo, in_month + 1)

unfoldable pub zeros : ℕ → Text
zeros zero = []
zeros (suc n) = b'0' ∷ zeros n

-- `{n:0width}`
unfoldable pub padded : ℕ → ℕ → Text
padded width n = zeros (width - length (show n)) ++ show n

unfoldable pub utc_timestamp : ℕ → Text
utc_timestamp secs =
    let days = secs / 86_400 in
    let rem = secs % 86_400 in
    let rem2 = rem % 3600 in
    let (year, month, day) = days_to_ymd days in
    padded 4 year
    ++ text "-"
    ++ padded 2 month
    ++ text "-"
    ++ padded 2 day
    ++ text "T"
    ++ padded 2 (rem / 3600)
    ++ text ":"
    ++ padded 2 (rem2 / 60)
    ++ text ":"
    ++ padded 2 (rem2 % 60)
    ++ text "Z"
