-- ===== src/Platform/Examples.antt =====
-- Runs of the restart tracker.
use wintermute_platform.Platform.Logs.Tail.{tail_child_log_with-IsTailOf, IsTailOf}
use wintermute_platform.Platform.Logs.{tail_child_log_with}
use wintermute_platform.Platform.Tracker.Retry.{second_retry-granted}
use wintermute_platform.Prelude.{
  ok, contents, FileRead, some, text, get, lines, trim, trim_start, trim_end, is_whitespace,
  split_once, strip_prefix, text_eq, insert, ℕ, List, [], ◌∷◌, filter, leb, ◌≡◌, ◌<◌, refl, arith,
  ◌-◌,
}
use wintermute_platform.Platform.{none, Text, from_secs}
use wintermute_platform.Platform.Env.{parse_env, parse_lines, parse_line}
use wintermute_platform.Platform.Env.Lookup.{last_assigned, get-parse_env}
use wintermute_platform.Platform.Tracker.{default_tracker, record_at, checked_sub, pop_expired}
use wintermute_platform.Platform.Tracker.Window.{record_all, last_of, history-record_all}
use wintermute_platform.Platform.Tracker.RateLimit.{within, count, granted, granted-lt-threshold}

abbrev six_times : List ℕ
six_times = from_secs 1 ∷ from_secs 2 ∷ from_secs 3 ∷ from_secs 4 ∷ from_secs 5 ∷ from_secs 70 ∷ []

-- The fifth record of a minute is answered with the backoff, and a later one is not.
granted_run :
    granted default_tracker six_times
    ≡ from_secs 1 ∷ from_secs 2 ∷ from_secs 3 ∷ from_secs 4 ∷ from_secs 70 ∷ []
unfolding granted record_at checked_sub pop_expired
granted_run = refl

history-record_all_example :
    (record_all default_tracker (from_secs 1 ∷ from_secs 30 ∷ from_secs 80 ∷ [])).history
    ≡ filter
        (leb (last_of (from_secs 1) (from_secs 30 ∷ from_secs 80 ∷ []) - from_secs 60))
        (from_secs 1 ∷ from_secs 30 ∷ from_secs 80 ∷ [])
history-record_all_example =
    history-record_all default_tracker (from_secs 1) (from_secs 30 ∷ from_secs 80 ∷ []) refl
      ((omega arith, (omega arith, tt)), ((omega arith, tt), (tt, tt)))

grants_run :
    count
      (within (from_secs 2) (from_secs 60))
      (granted default_tracker (from_secs 2 ∷ from_secs 2 ∷ from_secs 9 ∷ []))
    < 5
grants_run =
    granted-lt-threshold default_tracker (from_secs 2 ∷ from_secs 2 ∷ from_secs 9 ∷ [])
      (from_secs 2) (omega arith) (omega arith)
      ((omega arith, (omega arith, tt)), ((omega arith, tt), (tt, tt)))

get-parse_env_example :
    get (text "KEY") (parse_env (text "# c\nKEY = a\n\nKEY=b=c\n"))
    ≡ last_assigned (text "KEY") (lines (text "# c\nKEY = a\n\nKEY=b=c\n"))
get-parse_env_example = get-parse_env (text "KEY") (text "# c\nKEY = a\n\nKEY=b=c\n")

parse_env_run : get (text "KEY") (parse_env (text "# c\nKEY = a\n\nKEY=b=c\n")) ≡ some (text "b=c")
unfolding parse_env parse_lines parse_line get insert lines trim trim_start trim_end is_whitespace
    split_once strip_prefix text_eq
parse_env_run = refl

second_retry_run :
    (record_at
      (record_at (record_at default_tracker (from_secs 1)).0 (from_secs 31)).0
      (from_secs 61)).1
    ≡ 0
second_retry_run =
    second_retry-granted default_tracker (from_secs 1) (from_secs 31) (from_secs 61) tt tt
      (omega arith) (omega arith) (omega arith) (omega arith)

abbrev two_lines : Text → FileRead
two_lines path = contents (text "one\ntwo\n")

tail_child_log_with-IsTailOf_example :
    (ls : List Text) × (tail_child_log_with two_lines none (text "wmd") 1 ≡ ok ls)
    × IsTailOf 1 (lines (text "one\ntwo\n")) ls
tail_child_log_with-IsTailOf_example =
    tail_child_log_with-IsTailOf two_lines none (text "wmd") 1 (text "one\ntwo\n") refl
