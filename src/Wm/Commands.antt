-- ===== src/Wm/Commands.antt =====
-- src/bin/wm.rs: the commands, as clap parses them, and what the process prints and returns for
-- each. The connection, the JSON codec and printers and the hosts of the checks are arguments.
pub mod Session
mod Verdicts
mod Examples
use wintermute_platform.Prelude.{
  ℕ, Bool, List, [], ◌∷◌, ◌++◌, Option, Text, text, join, Result, ok, err,
}
use wintermute_platform.Platform.Logs.{socket_path_with}
use wintermute_platform.Protocol.{SupervisorView, Request, Response}
use wintermute_platform.Ready.{ReadyHost, displayed}
use wintermute_platform.Doctor.{DoctorHost, DoctorReport}
use wintermute_platform.Supervisor.Control.Client.{Wire, ClientCodec, client_roundtrip}
use wintermute_platform.Wm.{
  Line, out, warn, success, failure, HealthReadyEnvelope, ReadyFormat, run_ready, DoctorFormat,
  DoctorScopeArg, run_doctor_cmd, render_status_response, one_shot_lines,
}

pub data Cmd : Type 0 where
  status : (json : Bool) → Cmd
  mute unmute : Cmd
  restart : (child : Option Text) → Cmd
  logs : (child : Text) (tail : ℕ) → Cmd
  version : Cmd
  say : (words : List Text) → Cmd
  ready : (format : ReadyFormat) → Cmd
  doctor : (format : DoctorFormat) (scope : DoctorScopeArg) (quiet : Bool) → Cmd

-- `--tail` without a value.
abbrev pub default_tail : ℕ
default_tail = 20

-- `env!("CARGO_PKG_VERSION")`
abbrev pub crate_version : Text
crate_version = text "0.6.0"

pub record WmHost (W : Type 0) : Type 0 where
  pub wire : Wire W
  pub codec : ClientCodec
  pub runtime_dir : Option Text
  pub checks : ReadyHost
  pub units : DoctorHost
  pub secs : ℕ
  pub print_view : SupervisorView → Result Text
  pub print_envelope : HealthReadyEnvelope → Result Text
  pub print_report : DoctorReport → Result Text

-- The lines of a response, or the error that `?` passes on, and the exit code.
abbrev pub answer : (Response → List Line) → Result Response → Result (List Line × ℕ)
answer lines (ok resp) = ok (lines resp, success)
answer lines (err e) = err e

-- `main` prints the outermost message of an error.
abbrev pub reported : Result (List Line × ℕ) → List Line × ℕ
reported (ok done) = done
reported (err e) = (warn (text "wm: " ++ displayed e) ∷ [], failure)

module _ {W : Type 0} (host : WmHost W) where
  -- A request to the supervisor, and what is printed for its response.
  pub asked : Request → (Response → List Line) → W → Result (List Line × ℕ) × W
  unfolding client_roundtrip socket_path_with
  asked req lines w =
      let (r, w') =
        client_roundtrip host.wire host.codec (socket_path_with host.runtime_dir) req w in
      (answer lines r, w')

  pub one_shot_command : Request → W → Result (List Line × ℕ) × W
  unfolding asked one_shot_lines
  one_shot_command req w = asked req one_shot_lines w

  pub run : Cmd → W → Result (List Line × ℕ) × W
  unfolding one_shot_command asked render_status_response run_ready run_doctor_cmd join
  run version w = (ok (out (text "wm " ++ crate_version) ∷ [], success), w)
  run (status json) w =
      asked Request.status (λ resp. render_status_response host.print_view resp json) w
  run mute w = one_shot_command Request.mute w
  run unmute w = one_shot_command Request.unmute w
  run (restart child) w = one_shot_command (Request.restart child) w
  run (logs child tail) w = one_shot_command (Request.logs child tail) w
  run (say words) w = one_shot_command (Request.say (join (text " ") words)) w
  run (ready format) w = (ok (run_ready host.print_envelope host.checks host.secs format), w)
  run (doctor format scope quiet) w =
      (ok (run_doctor_cmd host.print_report host.units format scope quiet), w)

  -- The lines that `wm` prints, and its exit code.
  pub main : Cmd → W → (List Line × ℕ) × W
  unfolding run
  main cmd w = let (r, w') = run cmd w in (reported r, w')
