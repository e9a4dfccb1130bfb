-- ===== src/Ready/Examples.antt =====
-- Runs of the timestamp and of the verdict.
use wintermute_platform.Ready.Clock.Years.{find_year-ends}
use wintermute_platform.Ready.Clock.Reading.{read_timestamp-utc_timestamp, read_timestamp}
use wintermute_platform.Prelude.{
  arith, ◌<◌, true, false, List, [], ◌∷◌, none, some, Text, text, text_eq, show, All, ◌≡◌, ◌⊎◌,
  refl,
}
use wintermute_platform.Ready.{CheckResult, passed, failing, aggregate, check_priority, worst_of}
use wintermute_platform.Ready.Verdict.{IsWorst, aggregate-IsWorst}
use wintermute_platform.Ready.Clock.{
  utc_timestamp, days_to_ymd, find_year, find_month, year_days, month_days, is_leap, padded, zeros,
}
use wintermute_platform.Ready.Clock.Calendar.{IsDateOf, days_to_ymd-IsDateOf}

-- A second before the end of a leap day.
utc_timestamp_run : utc_timestamp 951_868_799 ≡ text "2000-02-29T23:59:59Z"
unfolding utc_timestamp days_to_ymd find_year find_month year_days month_days is_leap padded zeros
    show
utc_timestamp_run = refl

days_to_ymd-IsDateOf_example :
    IsDateOf 11_016 (days_to_ymd 11_016).0 (days_to_ymd 11_016).1 (days_to_ymd 11_016).2
days_to_ymd-IsDateOf_example = days_to_ymd-IsDateOf 11_016

abbrev no_bus_no_audio : List CheckResult
no_bus_no_audio = passed (text "brain") ∷ failing (text "audio") [] ∷ failing (text "bus") [] ∷ []

aggregate_run : aggregate no_bus_no_audio ≡ (false, some (text "bus"))
unfolding aggregate worst_of text_eq
aggregate_run = refl

aggregate-IsWorst_example :
    ((aggregate no_bus_no_audio ≡ (true, none)) × All (λ c. c.is_ok ≡ true) no_bus_no_audio)
    ⊎ ((w : Text) × (aggregate no_bus_no_audio ≡ (false, some w))
        × IsWorst w check_priority no_bus_no_audio)
aggregate-IsWorst_example = aggregate-IsWorst no_bus_no_audio

read_timestamp-utc_timestamp_example :
    read_timestamp (utc_timestamp 951_868_799) ≡ some (951_868_799, [])
unfolding days_to_ymd find_year find_month year_days month_days is_leap
read_timestamp-utc_timestamp_example = read_timestamp-utc_timestamp 951_868_799 (omega arith)

find_year-ends_example :
    (find_year 800 1970 800 ≡ find_year 900 1970 800)
    × ((find_year 800 1970 800).1 < year_days (find_year 800 1970 800).0)
find_year-ends_example = find_year-ends 800 900 1970 800 (omega arith) (omega arith)
