-- ===== src/Wm.antt =====
-- src/bin/wm.rs: what the command line prints and the exit codes of its commands. A command's output
-- is its list of lines, each on stdout or stderr, and of texts that are written as they are; the round trip to the supervisor, the JSON printer
-- and the host of the checks are arguments.
use wintermute_platform.Install.{fleet_install_dir}
use wintermute_platform.Doctor.{
  run_doctor, render_table, DoctorHost, DoctorReport, Overrides, DoctorScope,
}
pub mod Commands
mod Exits
mod Examples
use wintermute_platform.Prelude.{
  ℕ, zero, suc, ◌-◌, ◌/◌, ◌%◌, Bool, true, false, not, List, [], ◌∷◌, ◌++◌, map, filter, Option,
  none, some, Text, text, show, ltb, ◌==◌, if◌then◌else◌, length, Result, ok, err, Error,
}
use wintermute_platform.Protocol.{ChildStatus, ChildState, SupervisorView, Request, Response}
use wintermute_platform.Ready.{
  ReadyHost, CheckResult, check_brain, check_target, check_audio, check_bus, check_units, aggregate,
  verdict_line, not_ready_phrase, boot_phrase_ready, displayed,
}
use wintermute_platform.Ready.Clock.{padded, utc_timestamp}

pub data Line : Type 0 where
  out : Text → Line
  warn : Text → Line
  written : Text → Line

-- `ExitCode::SUCCESS` and `ExitCode::FAILURE`
abbrev pub success : ℕ
success = 0

abbrev pub failure : ℕ
failure = 1

unfoldable pub spaces : ℕ → Text
spaces zero = []
spaces (suc n) = b' ' ∷ spaces n

-- `{:<width}` and `{:>width}`
unfoldable pub left : ℕ → Text → Text
left width s = s ++ spaces (width - length s)

unfoldable pub right : ℕ → Text → Text
right width s = spaces (width - length s) ++ s

unfoldable pub status_label : ChildStatus → Text
status_label ChildStatus.pending = text "pending"
status_label ChildStatus.starting = text "starting"
status_label ChildStatus.running = text "running"
status_label ChildStatus.exited = text "exited"
status_label ChildStatus.backoff = text "backoff"
status_label ChildStatus.halted = text "halted"

unfoldable pub format_uptime : ℕ → Text
format_uptime secs =
    let mins = secs / 60 in
    let rem = secs % 60 in
    if secs == 0
    then text "-"
    else if ltb secs 60
    then show secs ++ text "s"
    else if ltb mins 60
    then show mins ++ text "m" ++ padded 2 rem ++ text "s"
    else show (mins / 60) ++ text "h" ++ padded 2 (mins % 60) ++ text "m"

abbrev pub or_dash : Option Text → Text
or_dash none = text "-"
or_dash (some event) = event

abbrev pub columns : Text → Text → Text → Text → Text → Text
columns child status uptime restarts last =
    left 10 child
    ++ text "  "
    ++ left 8 status
    ++ text "  "
    ++ right 8 uptime
    ++ text "  "
    ++ right 9 restarts
    ++ text "  "
    ++ last

unfoldable pub status_row : ChildState → Text
status_row c =
    columns c.name (status_label c.status) (format_uptime c.uptime_secs) (show c.restart_count)
      (or_dash c.last_event)

-- The JSON printer, or its error as it displays.
abbrev pub json_lines : Text → Result Text → List Line
json_lines what (ok s) = out s ∷ []
json_lines what (err e) = warn (what ++ displayed e) ∷ []

unfoldable pub render_status : (SupervisorView → Result Text) → SupervisorView → Bool → List Line
render_status to_json view json =
    if json
    then json_lines (text "wm: serialize status: ") (to_json view)
    else out (
        columns (text "CHILD") (text "STATUS") (text "UPTIME") (text "RESTARTS")
          (text "last_event"))
      ∷ map (λ c. out (status_row c)) view.children

unfoldable pub render_status_response : (SupervisorView → Result Text) → Response → Bool → List Line
render_status_response to_json (Response.status view) json = render_status to_json view json
render_status_response to_json (Response.error message) json =
    warn (text "wm: server error: " ++ message) ∷ []
render_status_response to_json _ json =
    warn (text "wm: unexpected response for status request") ∷ []

unfoldable pub render_logs : List Text → List Line
render_logs = map out

-- What `one_shot_command` prints for a response.
unfoldable pub one_shot_lines : Response → List Line
one_shot_lines Response.ack = out (text "ok") ∷ []
one_shot_lines (Response.not_implemented op) =
    warn (text "wm: " ++ op ++ text ": server has no handler yet (iter-4)") ∷ []
one_shot_lines (Response.error message) = warn (text "wm: server error: " ++ message) ∷ []
one_shot_lines (Response.status view) = warn (text "wm: unexpected status payload for command") ∷ []
one_shot_lines (Response.logs child lines) = render_logs lines

pub record HealthReadyEnvelope : Type 0 where
  pub topic : Text
  pub ts : Text
  pub ready : Bool
  pub checks : List CheckResult
  pub worst_reason : Option Text
  pub ready_phrase : Option Text

pub data ReadyFormat : Type 0 where
  plain json : ReadyFormat

unfoldable pub run_checks : ReadyHost → List CheckResult
run_checks host =
    check_brain host none
    ∷ check_target host
    ∷ check_audio host
    ∷ check_bus host none
    ∷ check_units host
    ∷ []

abbrev pub phrase_lines : Option Text → List Line
phrase_lines none = []
phrase_lines (some w) = out (not_ready_phrase w) ∷ []

abbrev pub failing_names : List CheckResult → List Text
failing_names checks = map (λ c. c.name) (filter (λ c. not c.is_ok) checks)

unfoldable pub ready_envelope : List CheckResult → ℕ → HealthReadyEnvelope
ready_envelope checks secs =
    let (ready, worst) = aggregate checks in
    record {
      topic = text "wm.health.ready";
      ts = utc_timestamp secs;
      ready = ready;
      checks = checks;
      worst_reason = worst;
      ready_phrase = if ready then some boot_phrase_ready else none;
    }

-- The lines that the checks' results give, and the exit code. `secs` is the time since the epoch.
unfoldable pub ready_report :
    (HealthReadyEnvelope → Result Text) → List CheckResult → ℕ → ReadyFormat → List Line × ℕ
ready_report to_json checks secs plain =
    let (ready, worst) = aggregate checks in
    (
      out (verdict_line ready (failing_names checks)) ∷ (if ready then [] else phrase_lines worst),
      if ready then success else failure,
    )
ready_report to_json checks secs json =
    let (ready, worst) = aggregate checks in
    (
      json_lines (text "wm ready: serialize: ") (to_json (ready_envelope checks secs)),
      if ready then success else failure,
    )

unfoldable pub run_ready :
    (HealthReadyEnvelope → Result Text) → ReadyHost → ℕ → ReadyFormat → List Line × ℕ
run_ready to_json host secs format = ready_report to_json (run_checks host) secs format

pub data DoctorFormat : Type 0 where
  table json : DoctorFormat

-- `DoctorScopeArg`, which clap parses.
pub data DoctorScopeArg : Type 0 where
  user system both : DoctorScopeArg

abbrev pub doctor_scope : DoctorScopeArg → DoctorScope
doctor_scope DoctorScopeArg.user = DoctorScope.user
doctor_scope DoctorScopeArg.system = DoctorScope.system
doctor_scope DoctorScopeArg.both = DoctorScope.both

abbrev pub no_overrides : Overrides
no_overrides = record { home_override = none; user_override = none; uid_override = none }

unfoldable pub render_report :
    (DoctorReport → Result Text) → DoctorReport → DoctorFormat → Bool → List Line
render_report to_json report DoctorFormat.table quiet =
    out (text "fleet install-path convention: " ++ fleet_install_dir)
    ∷ written (render_table report quiet)
    ∷ []
render_report to_json report DoctorFormat.json quiet =
    json_lines (text "wm doctor: serialize: ") (to_json report)

unfoldable pub run_doctor_cmd :
    (DoctorReport → Result Text) → DoctorHost → DoctorFormat → DoctorScopeArg → Bool → List Line × ℕ
unfolding render_report
run_doctor_cmd to_json host format scope quiet =
    let report = run_doctor host (doctor_scope scope) no_overrides in
    (render_report to_json report format quiet, if report.all_ok then success else 2)
