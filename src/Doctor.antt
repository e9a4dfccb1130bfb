-- ===== src/Doctor.antt =====
-- src/doctor.rs: the health check of the installed units. Commands, environment variables and files
-- are the fields of a host; `/proc/self/status` is one of its files.
pub mod Discovery
pub mod Report
mod Words
mod Installed
mod Examples
use wintermute_platform.Prelude.{
  ℕ, zero, suc, ◌+◌, ◌-◌, ◌*◌, ◌/◌, ◌%◌, ◌^◌, Bool, true, false, not, ◌&&◌, ◌||◌, List, [], ◌∷◌,
  ◌++◌, map, filter, any, Option, none, some, Text, text, text_eq, show, join, path_join,
  strip_prefix, starts_with, split_whitespace, lines, trim, is_empty, length, ltb, leb, ◌==◌,
  if◌then◌else◌, FileRead, contents, not_found, failed,
}
use wintermute_platform.Doctor.Discovery.{Run, first_word, discover_units}

pub data DoctorScope : Type 0 where
  user system both : DoctorScope

pub record UnitReport : Type 0 where
  pub unit : Text
  pub exec_start : Text
  pub resolved : Text
  pub exists : Bool
  pub executable : Bool
  pub enabled : Text
  pub active : Text
  pub in_target : Bool
  pub scope : Text

abbrev pub binary_ok : UnitReport → Bool
binary_ok r = r.exists && r.executable

pub record DoctorReport : Type 0 where
  pub units : List UnitReport
  pub failures : List Text
  pub all_ok : Bool

-- The variables HOME, USER and UID, the files, and the commands. `mode` is what `metadata` reads.
pub record DoctorHost : Type 0 where
  pub run : Run
  pub home : Option Text
  pub user : Option Text
  pub uid : Option Text
  pub read : Text → FileRead
  pub exists : Text → Bool
  pub mode : Text → Option ℕ

pub record Overrides : Type 0 where
  pub home_override : Option Text
  pub user_override : Option Text
  pub uid_override : Option ℕ

abbrev pub or_text : Text → Option Text → Text
or_text d none = d
or_text d (some a) = a

abbrev pub or_number : ℕ → Option ℕ → ℕ
or_number d none = d
or_number d (some a) = a

-- `str::parse::<u32>`: digits after an optional plus sign, and a value that fits.
unfoldable pub digits_value : ℕ → Text → Option ℕ
digits_value acc [] = some acc
digits_value acc (c ∷ s) =
    let rest = digits_value (acc * 10 + (c - 48)) s in if leb 48 c && leb c 57 then rest else none

abbrev pub fits_u32 : Option ℕ → Option ℕ
fits_u32 none = none
fits_u32 (some n) = if ltb n (2 ^ 32) then some n else none

unfoldable pub parse_u32 : Text → Option ℕ
parse_u32 s =
    let digits = or_text s (strip_prefix (text "+") s) in
    if is_empty digits then none else fits_u32 (digits_value 0 digits)

abbrev pub uid_line : Option Text → Option ℕ
uid_line none = none
uid_line (some rest) = parse_u32 (first_word rest)

unfoldable pub first_uid : List Text → ℕ
first_uid [] = 0
first_uid (line ∷ later) = or_number (first_uid later) (uid_line (strip_prefix (text "Uid:") line))

abbrev pub uid_of_status : FileRead → ℕ
uid_of_status (contents file) = first_uid (lines file)
uid_of_status not_found = 0
uid_of_status (failed e) = 0

abbrev pub parsed : Option Text → Option ℕ
parsed none = none
parsed (some s) = parse_u32 s

-- `str::replace`: `skip` characters of an occurrence are passed over.
unfoldable pub replace : ℕ → Text → Text → Text → Text
replace skip from to [] = []
replace (suc skip) from to (c ∷ s) = replace skip from to s
replace zero from to (c ∷ s) =
    let found = starts_with from (c ∷ s) in
    let rest = replace (if found then length from - 1 else 0) from to s in
    if found then to ++ rest else c ∷ rest

abbrev pub any_execute_bit : ℕ → Bool
any_execute_bit mode = mode % 2 == 1 || mode / 8 % 2 == 1 || mode / 64 % 2 == 1

abbrev pub is_executable : Option ℕ → Bool
is_executable none = false
is_executable (some mode) = any_execute_bit mode

-- `trim_start_matches(['-', '@', '+', '!'])`
unfoldable pub without_modifiers : Text → Text
without_modifiers [] = []
without_modifiers (c ∷ s) =
    let rest = without_modifiers s in
    if c == b'-' || c == b'@' || c == b'+' || c == b'!' then rest else c ∷ s

abbrev pub exec_token : Option Text → Text
exec_token none = []
exec_token (some rest) = first_word (without_modifiers rest)

unfoldable pub exec_of_lines : List Text → Option Text
exec_of_lines [] = none
exec_of_lines (line ∷ later) =
    let token = exec_token (strip_prefix (text "ExecStart=") (trim line)) in
    let rest = exec_of_lines later in if is_empty token then rest else some token

unfoldable pub parse_exec_start : Text → Option Text
parse_exec_start systemctl_cat_output = exec_of_lines (lines systemctl_cat_output)

abbrev pub or_else_text : Option Text → Option Text → Option Text
or_else_text none other = other
or_else_text (some a) other = some a

abbrev pub names_unit : Text → Option Text → Bool
names_unit unit none = false
names_unit unit (some rest) = any (λ tok. text_eq tok unit) (split_whitespace rest)

unfoldable pub unit_in_target_from_cat : Text → Text → Bool
unit_in_target_from_cat systemctl_cat_output unit =
    any
      (λ line. names_unit unit (
        or_else_text (strip_prefix (text "Wants=") (trim line))
          (strip_prefix (text "Requires=") (trim line))))
      (lines systemctl_cat_output)

abbrev pub user_flag : Text
user_flag = text "--user"

abbrev pub wants_dirs : Bool → List Text
wants_dirs true =
    text "/etc/systemd/user/wintermute.target.wants"
    ∷ text "/usr/lib/systemd/user/wintermute.target.wants"
    ∷ text "/usr/local/lib/systemd/user/wintermute.target.wants"
    ∷ []
wants_dirs false =
    text "/etc/systemd/system/wintermute.target.wants"
    ∷ text "/usr/lib/systemd/system/wintermute.target.wants"
    ∷ []

abbrev pub scope_flags : DoctorScope → List Text
scope_flags user = user_flag ∷ []
scope_flags system = text "--system" ∷ []
scope_flags both = user_flag ∷ text "--system" ∷ []

abbrev pub has_failed : UnitReport → Bool
has_failed r = not (binary_ok r) && not (is_empty r.exec_start)

abbrev pub no_names : List Text → Bool
no_names [] = true
no_names (x ∷ xs) = false

-- What `run_doctor` makes of the reports of the units.
unfoldable pub report_of : List UnitReport → DoctorReport
report_of units =
    let failures = map (λ r. r.unit) (filter has_failed units) in
    record { units = units; failures = failures; all_ok = no_names failures }

module _ (host : DoctorHost) where
  pub read_uid_from_proc : ℕ
  read_uid_from_proc = uid_of_status (host.read (text "/proc/self/status"))

  pub expand_specifiers : Text → Overrides → Text
  expand_specifiers raw o =
      let home = or_text (or_text (text "/root") host.home) o.home_override in
      let user = or_text (or_text (text "root") host.user) o.user_override in
      let uid = or_number (or_number read_uid_from_proc (parsed host.uid)) o.uid_override in
      replace 0 (text "%U") (show uid) (replace 0 (text "%u") user (replace 0 (text "%h") home raw))

  pub check_binary : Text → Bool × Bool
  check_binary path =
      if host.exists path then (true, is_executable (host.mode path)) else (false, false)

  pub in_target_wants_dir : Text → Text → Bool
  in_target_wants_dir unit scope_flag =
      let is_user = text_eq scope_flag user_flag in
      let user_config_dir =
        or_text [] host.home ++ text "/.config/systemd/user/wintermute.target.wants" in
      any (λ dir. host.exists (path_join dir unit)) (wants_dirs is_user)
      || (is_user && host.exists (path_join user_config_dir unit))

  -- The unit, the scope's flag, and the text of `wintermute.target`.
  pub probe_unit : Text → Text → Text → Overrides → UnitReport
  probe_unit unit scope_flag target_cat o =
      let exec_start =
        or_text [] (
          parse_exec_start (host.run (text "systemctl") (scope_flag ∷ text "cat" ∷ unit ∷ [])).0) in
      let resolved = if is_empty exec_start then [] else expand_specifiers exec_start o in
      let (exists, executable) =
        if is_empty resolved then (false, false) else check_binary resolved in
      record {
        unit = unit;
        exec_start = exec_start;
        resolved = resolved;
        exists = exists;
        executable = executable;
        enabled = trim (host.run (text "systemctl") (scope_flag ∷ text "is-enabled" ∷ unit ∷ [])).0;
        active = trim (host.run (text "systemctl") (scope_flag ∷ text "is-active" ∷ unit ∷ [])).0;
        in_target = unit_in_target_from_cat target_cat unit || in_target_wants_dir unit scope_flag;
        scope = if text_eq scope_flag user_flag then text "user" else text "system";
      }

  pub probe_scope : Text → Overrides → List UnitReport
  probe_scope scope_flag o =
      let target_cat =
        (host.run (text "systemctl") (scope_flag ∷ text "cat" ∷ text "wintermute.target" ∷ [])).0 in
      map (λ unit. probe_unit unit scope_flag target_cat o) (discover_units host.run scope_flag)

  pub probe_scopes : List Text → Overrides → List UnitReport
  probe_scopes [] o = []
  probe_scopes (scope_flag ∷ later) o = probe_scope scope_flag o ++ probe_scopes later o

  pub run_doctor : DoctorScope → Overrides → DoctorReport
  run_doctor scope o = report_of (probe_scopes (scope_flags scope) o)

-- `{:<width}`
unfoldable pub fill : ℕ → Text → Text
fill zero s = s
fill (suc width) [] = b' ' ∷ fill width []
fill (suc width) (c ∷ s) = c ∷ fill width s

unfoldable pub dashes : ℕ → Text
dashes zero = []
dashes (suc n) = b'-' ∷ dashes n

abbrev pub table_row : Text → Text → Text → Text → Text → Text → Text
table_row unit exists executable enabled active resolved =
    fill 30 unit
    ++ text "  "
    ++ fill 8 exists
    ++ text "  "
    ++ fill 8 executable
    ++ text "  "
    ++ fill 9 enabled
    ++ text "  "
    ++ fill 9 active
    ++ text "  "
    ++ resolved
    ++ text "\n"

unfoldable pub unit_row : UnitReport → Text
unit_row r =
    table_row r.unit (if r.exists then text "YES" else text "MISSING")
      (if r.exists then (if r.executable then text "YES" else text "NO-EXEC") else text "-")
      r.enabled r.active r.resolved

-- The loop over the units: with `quiet`, the failing ones alone.
unfoldable pub unit_rows : Bool → List UnitReport → Text
unit_rows quiet [] = []
unit_rows quiet (r ∷ rs) =
    let rest = unit_rows quiet rs in
    if quiet && not (has_failed r) then rest else unit_row r ++ rest

abbrev pub summary : DoctorReport → Text
summary report =
    text "\n"
    ++ (if report.all_ok
        then text "all " ++ show (length report.units) ++ text " units OK\n"
        else show (length report.failures)
          ++ text " of "
          ++ show (length report.units)
          ++ text " unit(s) have missing/non-executable binaries: "
          ++ join (text ", ") report.failures
          ++ text "\n")

abbrev pub table_header : Text
table_header =
    table_row (text "UNIT") (text "EXISTS") (text "EXEC") (text "ENABLED") (text "ACTIVE")
      (text "RESOLVED")
    ++ dashes 100
    ++ text "\n"

unfoldable pub render_table : DoctorReport → Bool → Text
render_table report quiet =
    (if quiet then [] else table_header)
    ++ unit_rows quiet report.units
    ++ (if quiet then [] else summary report)
