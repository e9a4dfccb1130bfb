-- ===== src/Ready/Clock/Calendar.antt =====
-- The calendar of the timestamp: the date that it prints is the one whose days since 1970 are given.
use wintermute_platform.Prelude.{
  ◌*◌, ℕ, zero, suc, ◌+◌, ◌-◌, ◌≤◌, ◌<◌, List, [], ◌∷◌, ltb, if◌then◌else◌, ap, ◌∙◌, Bool-cases,
  ◌≡◌, refl, inl, inr, arith, length,
}
use wintermute_platform.Ready.Clock.Gregorian.{
  leap_years, leap_day, nth, month_lengths, month_starts, day_number,
}
use wintermute_platform.Ready.Clock.{
  is_leap, year_days, month_days, find_year, find_month, days_to_ymd,
}

-- The days of `k` years from the year `y` on.
abbrev pub span : ℕ → ℕ → ℕ
span y zero = 0
span y (suc k) = year_days y + span (y + 1) k

-- The sum of the first `k` numbers of a list, and the number that follows them.
abbrev pub sum_first : ℕ → List ℕ → ℕ
sum_first zero ns = 0
sum_first (suc k) [] = 0
sum_first (suc k) (n ∷ ns) = n + sum_first k ns

abbrev pub sum : List ℕ → ℕ
sum [] = 0
sum (n ∷ ns) = n + sum ns

-- A date of the Gregorian calendar from 1970 on, `days` days after the first of January 1970.
pub record IsDateOf (days y mo d : ℕ) : Type 0 where
  pub year : 1970 ≤ y
  pub month : 1 ≤ mo
  pub in_year : mo ≤ 12
  pub day : 1 ≤ d
  pub in_month : d ≤ nth (mo - 1) (month_lengths (leap_day y))
  pub elapsed : days ≡ day_number y mo d

record YearOf (y days y' r : ℕ) : Type 0 where
  k : ℕ
  at : y' ≡ y + k
  rest : days ≡ span y k + r
  less : r < year_days y'

pub year_days_pos : (y : ℕ) → 0 < year_days y
unfolding year_days
year_days_pos y = ground arith

find_year-YearOf :
    (fuel y days : ℕ)
    → days ≤ fuel
    → YearOf y days (find_year fuel y days).0 (find_year fuel y days).1
unfolding find_year
find_year-YearOf zero y days h = record {
  k = 0;
  at = omega arith;
  rest = omega arith;
  less = omega (arith, year_days_pos y);
}
find_year-YearOf (suc fuel) y days h = elim (Bool-cases (ltb days (year_days y))) [
  | inl e ↦
      rw (e, find_year)
        (record { k = 0; at = omega arith; rest = omega arith; less = ground (arith, e) })
  | inr e ↦
      let more : year_days y ≤ days = ground (arith, e) in
      let next =
        find_year-YearOf fuel (y + 1) (days - year_days y) (omega (arith, year_days_pos y, more)) in
      rw (e, find_year)
        (record {
          k = suc next.k;
          at = omega (arith, next.at);
          rest = omega (arith, next.rest, more);
          less = next.less;
        })
]

record MonthOf (ms : List ℕ) (mo days mo' r : ℕ) : Type 0 where
  k : ℕ
  at : mo' ≡ mo + k
  within : k < length ms
  rest : days ≡ sum_first k ms + r
  less : r < nth k ms

find_month-MonthOf :
    (ms : List ℕ) (mo days : ℕ)
    → days < sum ms
    → MonthOf ms mo days (find_month ms mo days).0 (find_month ms mo days).1
unfolding find_month
find_month-MonthOf [] mo days h = absurd (omega (arith, h))
find_month-MonthOf (m ∷ ms) mo days h = elim (Bool-cases (ltb days m)) [
  | inl e ↦
      rw (e, find_month)
        (record {
          k = 0;
          at = omega arith;
          within = omega arith;
          rest = omega arith;
          less = ground (arith, e);
        })
  | inr e ↦
      let more : m ≤ days = ground (arith, e) in
      let next = find_month-MonthOf ms (mo + 1) (days - m) (omega (arith, h, more)) in
      rw (e, find_month)
        (record {
          k = suc next.k;
          at = omega (arith, next.at);
          within = omega (arith, next.within);
          rest = omega (arith, next.rest, more);
          less = next.less;
        })
]

sum-month_days : (y : ℕ) → sum (month_days y) ≡ year_days y
unfolding month_days year_days
sum-month_days y = elim (Bool-cases (is_leap y)) [ inl e ↦ rw e refl | inr e ↦ rw e refl ]

length-month_days : (y : ℕ) → length (month_days y) ≡ 12
unfolding month_days
length-month_days y = refl

-- The loops' years and months against the rule and the tables.
leap_day-is_leap : (y : ℕ) → leap_day y ≡ (if is_leap y then 1 else 0)
unfolding is_leap
leap_day-is_leap y = ground arith

year_days-leap_years : (y : ℕ) → year_days (y + 1) + leap_years y ≡ 365 + leap_years (y + 1)
unfolding year_days is_leap
year_days-leap_years y = ground arith

span-leap_years : (k y : ℕ) → span (y + 1) k + leap_years y ≡ 365 * k + leap_years (y + k)
span-leap_years zero y = omega arith
span-leap_years (suc k) y = omega (arith, year_days-leap_years y, span-leap_years k (y + 1))

month_days-eq : (y : ℕ) → month_days y ≡ month_lengths (leap_day y)
unfolding month_days
month_days-eq y =
    rw (leap_day-is_leap y)
      (elim (Bool-cases (is_leap y)) [ inl e ↦ rw e refl | inr e ↦ rw e refl ])

-- The table of the starts is the table of the lengths, summed.
sum_first-month_lengths :
    (k l : ℕ) → k < 12 → sum_first k (month_lengths l) ≡ nth k (month_starts l)
sum_first-month_lengths zero l h = omega arith
sum_first-month_lengths (suc zero) l h = omega arith
sum_first-month_lengths (suc (suc zero)) l h = omega arith
sum_first-month_lengths (suc (suc (suc zero))) l h = omega arith
sum_first-month_lengths (suc (suc (suc (suc zero)))) l h = omega arith
sum_first-month_lengths (suc (suc (suc (suc (suc zero))))) l h = omega arith
sum_first-month_lengths (suc (suc (suc (suc (suc (suc zero)))))) l h = omega arith
sum_first-month_lengths (suc (suc (suc (suc (suc (suc (suc zero))))))) l h = omega arith
sum_first-month_lengths (suc (suc (suc (suc (suc (suc (suc (suc zero)))))))) l h = omega arith
sum_first-month_lengths (suc (suc (suc (suc (suc (suc (suc (suc (suc zero))))))))) l h = omega arith
sum_first-month_lengths (suc (suc (suc (suc (suc (suc (suc (suc (suc (suc zero)))))))))) l h =
    omega arith
sum_first-month_lengths (suc (suc (suc (suc (suc (suc (suc (suc (suc (suc (suc zero))))))))))) l h =
    omega arith
sum_first-month_lengths (suc (suc (suc (suc (suc (suc (suc (suc (suc (suc (suc (suc k)))))))))))) l
      h =
    absurd (omega arith)

-- `days_to_ymd` gives, for every number of days, the date of the Gregorian calendar that many days
-- after the first of January 1970: its month is one of the twelve, its day is one of that month, and
-- the number of the date, by the count of leap years and the table of the months, is the number of
-- days.
pub days_to_ymd-IsDateOf :
    (days : ℕ) → IsDateOf days (days_to_ymd days).0 (days_to_ymd days).1 (days_to_ymd days).2
unfolding days_to_ymd
days_to_ymd-IsDateOf days =
    let year = find_year-YearOf days 1970 days (omega arith) in
    let (y, left) = find_year days 1970 days in
    let month =
      find_month-MonthOf (month_days y) 1 left (omega (arith, year.less, sum-month_days y)) in
    let within : month.k < 12 = omega (arith, month.within, length-month_days y) in
    let months : (find_month (month_days y) 1 left).0 - 1 ≡ month.k = omega (arith, month.at) in
    let lengths = ap (nth month.k) (month_days-eq y) in
    let starts =
      ap (sum_first month.k) (month_days-eq y)
      ∙ sum_first-month_lengths month.k (leap_day y) within in
    let years : y - 1970 ≡ year.k = omega (arith, year.at) in
    let before : y - 1 ≡ 1969 + year.k = omega (arith, year.at) in
    record {
      year = omega (arith, year.at);
      month = omega (arith, month.at);
      in_year = omega (arith, month.at, within);
      day = omega arith;
      in_month = rw months (omega (arith, month.less, lengths));
      elapsed =
          rw (months, years, before)
            (omega (arith, year.rest, month.rest, starts, span-leap_years year.k 1969));
    }
