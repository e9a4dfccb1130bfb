-- ===== src/Wm/Commands/Session.antt =====
-- A command of `wm` that asks a supervisor: what it prints and what it does there.
use wintermute_platform.Prelude.{
  subst, ℕ, List, Option, none, some, Text, text, join, Result, ok, ◌≡◌, refl, ap, ◌∙◌,
}
use wintermute_platform.Platform.Logs.{socket_path_with}
use wintermute_platform.Protocol.{Request, Response}
use wintermute_platform.Supervisor.Control.{LogHost, Codec, dispatch}
use wintermute_platform.Supervisor.Control.Client.{client_roundtrip}
use wintermute_platform.Supervisor.Control.Client.Loopback.{
  Loop, loop_wire, IsOneLine, client_roundtrip-dispatch,
}
use wintermute_platform.Wm.{Line, success, render_status_response, one_shot_lines}
use wintermute_platform.Wm.Commands.{
  Cmd, status, mute, unmute, restart, logs, version, say, ready, doctor, WmHost, asked,
  one_shot_command, run, main, answer, reported,
}

-- The request that a command sends, if it sends one.
abbrev pub request_of : Cmd → Option Request
request_of (status json) = some Request.status
request_of mute = some Request.mute
request_of unmute = some Request.unmute
request_of (restart child) = some (Request.restart child)
request_of (logs child tail) = some (Request.logs child tail)
request_of (say words) = some (Request.say (join (text " ") words))
request_of _ = none

module _ {W : Type 0} (host : WmHost W) where
  -- What a command prints for a response.
  abbrev pub response_lines : Cmd → Response → List Line
  response_lines (status json) resp = render_status_response host.print_view resp json
  response_lines _ resp = one_shot_lines resp

  -- The command does no more than to ask.
  abbrev Asks : Cmd → W → Option Request → Type 0
  Asks cmd w none = Unit
  Asks cmd w (some req) = run host cmd w ≡ asked host req (response_lines cmd) w

  run-asked : (cmd : Cmd) (w : W) → Asks cmd w (request_of cmd)
  unfolding run one_shot_command
  run-asked (status json) w = refl
  run-asked mute w = refl
  run-asked unmute w = refl
  run-asked (restart child) w = refl
  run-asked (logs child tail) w = refl
  run-asked (say words) w = refl
  run-asked version w = tt
  run-asked (ready format) w = tt
  run-asked (doctor format scope quiet) w = tt

  main-asked :
      (cmd : Cmd) (req : Request) (w : W)
      → request_of cmd ≡ some req
      → main host cmd w ≡ (
        reported (
            answer
              (response_lines cmd)
              (client_roundtrip host.wire host.codec (socket_path_with host.runtime_dir) req w).0),
        (client_roundtrip host.wire host.codec (socket_path_with host.runtime_dir) req w).1,
      )
  unfolding main asked
  main-asked cmd req w e =
      ap (λ (x : Result (List Line × ℕ) × W). (reported x.0, x.1))
        (subst (Asks cmd w) e (run-asked cmd w))

module _ (logs_host : LogHost) (codec : Codec) (host : WmHost Loop) where
  -- The codecs print each on one line, and what `wm` prints of the request, and the supervisor of
  -- its response, is read back. Then a command that sends a request, run against the supervisor's
  -- handler, prints the lines for the response of `dispatch`, exits with 0, and leaves the view
  -- that `dispatch` leaves.
  pub main-dispatch :
      (cmd : Cmd) (req : Request) (s : Text) (l : Loop)
      → host.wire ≡ loop_wire logs_host codec
      → request_of cmd ≡ some req
      → host.codec.to_json req ≡ ok s
      → IsOneLine s
      → codec.from_json s ≡ ok req
      → IsOneLine (codec.to_json (dispatch logs_host req l.view).0)
      → host.codec.from_json (codec.to_json (dispatch logs_host req l.view).0)
        ≡ ok (dispatch logs_host req l.view).0
      → ((main host cmd l).0 ≡ (response_lines host cmd (dispatch logs_host req l.view).0, success))
        × ((main host cmd l).1.view ≡ (dispatch logs_host req l.view).1)
  main-dispatch cmd req s l wired asks prints h parses h' reads =
      let path = socket_path_with host.runtime_dir in
      let (answers, view) =
        client_roundtrip-dispatch logs_host codec host.codec path s req l prints h parses h'
          reads in
      let same =
        main-asked host cmd req l asks
        ∙ ap
            (λ wire. (
              reported (
                  answer (response_lines host cmd) (client_roundtrip wire host.codec path req l).0),
              (client_roundtrip wire host.codec path req l).1,
            ))
            wired in
      rw same (ap (λ r. reported (answer (response_lines host cmd) r)) answers, view)
