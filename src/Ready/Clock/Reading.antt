-- ===== src/Ready/Clock/Reading.antt =====
-- A reader of the timestamp, and the time that it finds in it.
use mathlib.Core.List.{append_assoc}
use wintermute_platform.Prelude.{
  text, zero, All, ℕ, suc, ◌+◌, ◌-◌, ◌*◌, ◌/◌, ◌%◌, ◌^◌, ◌≤◌, ◌<◌, List, [], ◌∷◌, ◌++◌, Option,
  none, some, Text, ◌==◌, if◌then◌else◌, ◌≡◌, refl, sym, ap, ◌∙◌, arith,
}
use wintermute_platform.Ready.Clock.{padded, days_to_ymd, utc_timestamp}
use wintermute_platform.Ready.Clock.Gregorian.{day_number, leap_day, nth, month_lengths}
use wintermute_platform.Ready.Clock.Calendar.{days_to_ymd-IsDateOf}
use wintermute_platform.Ready.Clock.Digits.{number, number-padded}

-- A reader takes something off the front of a text.
abbrev Reader : Type 0 → Type 0
Reader A = Text → Option (A × Text)

infixl 5 ◌>>=◌
abbrev ◌>>=◌ : {A B : Type 0} → Reader A → (A → Reader B) → Reader B
(p >>= f) s = elim (p s) [ none ↦ none | some r ↦ f r.0 r.1 ]

field : ℕ → Reader ℕ
unfolding number
field w s = number w 0 s

abbrev literal : ℕ → Reader (Unit {0})
literal c [] = none
literal c (d ∷ s) = if d == c then some (tt, s) else none

abbrev done : {A : Type 0} → A → Reader A
done a s = some (a, s)

-- The seconds since the epoch that an ISO 8601 timestamp in UTC gives.
unfoldable pub read_timestamp : Text → Option (ℕ × Text)
unfolding field
read_timestamp = do
  y ← field 4
  _ ← literal b'-'
  mo ← field 2
  _ ← literal b'-'
  d ← field 2
  _ ← literal b'T'
  h ← field 2
  _ ← literal b':'
  m ← field 2
  _ ← literal b':'
  s ← field 2
  _ ← literal b'Z'
  done (day_number y mo d * 86_400 + h * 3600 + m * 60 + s)

field-padded :
    (w n : ℕ) (rest : Text)
    → n < 10 ^ suc w
    → field (suc w) (padded (suc w) n ++ rest) ≡ some (n, rest)
unfolding field
field-padded = number-padded

nth-le : (b k : ℕ) (ns : List ℕ) → All (λ n. n ≤ b) ns → nth k ns ≤ b
nth-le b k [] h = omega arith
nth-le b zero (n ∷ ns) h = h.0
nth-le b (suc k) (n ∷ ns) h = nth-le b k ns h.1

leap_day-le : (y : ℕ) → leap_day y ≤ 1
leap_day-le y = ground arith

nth-month_lengths-le : (k y : ℕ) → nth k (month_lengths (leap_day y)) ≤ 31
nth-month_lengths-le k y = nth-le 31 k (month_lengths (leap_day y)) (ground (arith, leap_day-le y))

-- The date of `days_to_ymd` has a month and a day of two digits, and gives the days back.
day_number-days_to_ymd :
    (days : ℕ)
    → (day_number (days_to_ymd days).0 (days_to_ymd days).1 (days_to_ymd days).2 ≡ days)
      × ((days_to_ymd days).1 < 100)
      × ((days_to_ymd days).2 < 100)
day_number-days_to_ymd days =
    let date = days_to_ymd-IsDateOf days in
    (
      sym date.elapsed,
      omega (arith, date.in_year),
      omega (
        arith,
        date.in_month,
        nth-month_lengths-le ((days_to_ymd days).1 - 1) (days_to_ymd days).0,
      ),
    )

-- The six fields of a timestamp and what stands between them.
abbrev fields : Text → Text → Text → Text → Text → Text → Text
fields y mo d h m s =
    y ++ (b'-' ∷ (mo ++ (b'-' ∷ (d ++ (b'T' ∷ (h ++ (b':' ∷ (m ++ (b':' ∷ (s ++ b'Z' ∷ []))))))))))

regrouped :
    (y mo d h m s : Text)
    → y
        ++ text "-"
        ++ mo
        ++ text "-"
        ++ d
        ++ text "T"
        ++ h
        ++ text ":"
        ++ m
        ++ text ":"
        ++ s
        ++ text "Z"
      ≡ fields y mo d h m s
regrouped y mo d h m s = simp append_assoc

read_timestamp-fields :
    (y mo d h m s : ℕ)
    → y < 10_000
    → mo < 100
    → d < 100
    → h < 100
    → m < 100
    → s < 100
    → read_timestamp
        (fields (padded 4 y) (padded 2 mo) (padded 2 d) (padded 2 h) (padded 2 m) (padded 2 s))
      ≡ some (day_number y mo d * 86_400 + h * 3600 + m * 60 + s, [])
unfolding read_timestamp
read_timestamp-fields y mo d h m s y4 mo2 d2 h2 m2 s2 =
    let rest_s = padded 2 s ++ b'Z' ∷ [] in
    let rest_m = padded 2 m ++ b':' ∷ rest_s in
    let rest_h = padded 2 h ++ b':' ∷ rest_m in
    let rest_d = padded 2 d ++ b'T' ∷ rest_h in
    let rest_mo = padded 2 mo ++ b'-' ∷ rest_d in
    rw
      (
        read_timestamp,
        ◌>>=◌,
        field-padded 3 y (b'-' ∷ rest_mo) y4,
        field-padded 1 mo (b'-' ∷ rest_d) mo2,
        field-padded 1 d (b'T' ∷ rest_h) d2,
        field-padded 1 h (b':' ∷ rest_m) h2,
        field-padded 1 m (b':' ∷ rest_s) m2,
        field-padded 1 s (b'Z' ∷ []) s2,
      )
      refl

-- The timestamp, read back by the Gregorian calendar, is the time that it was made from, as long as
-- its year has at most four digits.
pub read_timestamp-utc_timestamp :
    (secs : ℕ)
    → (days_to_ymd (secs / 86_400)).0 < 10_000
    → read_timestamp (utc_timestamp secs) ≡ some (secs, [])
unfolding utc_timestamp
read_timestamp-utc_timestamp secs h =
    let (back, month, day) = day_number-days_to_ymd (secs / 86_400) in
    let (y, mo, d) = days_to_ymd (secs / 86_400) in
    let rem = secs % 86_400 in
    let sum : day_number y mo d * 86_400
          + rem / 3600 * 3600
          + rem % 3600 / 60 * 60
          + rem % 3600 % 60
        ≡ secs =
      omega (arith, back) in
    ap read_timestamp (
      regrouped (padded 4 y) (padded 2 mo) (padded 2 d) (padded 2 (rem / 3600))
        (padded 2 (rem % 3600 / 60)) (padded 2 (rem % 3600 % 60)))
    ∙ read_timestamp-fields y mo d (rem / 3600) (rem % 3600 / 60) (rem % 3600 % 60) h month day
        (omega arith) (omega arith) (omega arith)
    ∙ ap (λ k. some (k, [])) sum
