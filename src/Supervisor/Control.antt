-- ===== src/Supervisor/Control.antt =====
-- src/supervisor.rs: `dispatch` and `handle_conn`, the requests on the control socket. The JSON
-- codec, the log files and HOME are arguments. A connection is the sequence of lines read from it.
pub mod Requests
pub mod Interleaving
mod Io
pub mod Server
pub mod Connection
pub mod Client
mod Examples
use wintermute_platform.Prelude.{
  ℕ, Bool, true, false, List, [], ◌∷◌, ◌++◌, Option, Text, text, ◌||◌, ◌==◌, is_empty,
  if◌then◌else◌, Result, ok, err, FileRead,
}
use wintermute_platform.Platform.Logs.{tail_child_log_with}
use wintermute_platform.Protocol.{Request, Response, SupervisorView}

-- `anyhow::Error` as `{e}` prints it: the outermost message.
abbrev pub shown : List Text → Text
shown [] = []
shown (m ∷ ms) = m

-- `trim_end_matches(['\n', '\r'])`
unfoldable pub trim_newlines : Text → Text
trim_newlines [] = []
trim_newlines (c ∷ s) =
    let rest = trim_newlines s in
    if is_empty rest then (if c == 10 || c == 13 then [] else c ∷ []) else c ∷ rest

abbrev pub logs_response : Text → Result (List Text) → Response
logs_response child (ok lines) = Response.logs child lines
logs_response child (err e) = Response.error (text "tail " ++ child ++ text ": " ++ shown e)

-- The files that the supervisor's process can read, and its HOME.
pub record LogHost : Type 0 where
  pub read : Text → FileRead
  pub home : Option Text

module _ (host : LogHost) where
  unfoldable pub dispatch : Request → SupervisorView → Response × SupervisorView
  unfolding tail_child_log_with
  dispatch Request.status view = (Response.status view, view)
  dispatch Request.mute view = (Response.ack, record view { muted = true })
  dispatch Request.unmute view = (Response.ack, record view { muted = false })
  dispatch (Request.restart _) view = (Response.not_implemented (text "restart"), view)
  dispatch (Request.logs child tail) view =
      (logs_response child (tail_child_log_with host.read host.home child tail), view)
  dispatch (Request.say _) view = (Response.not_implemented (text "say"), view)

-- `serde_json::from_str::<Request>`, whose errors are the message they display, and `to_vec`.
pub record Codec : Type 0 where
  pub from_json : Text → Result Request
  pub to_json : Response → Text

module _ (host : LogHost) (codec : Codec) where
  -- The answer to one line.
  pub handle_line : Text → SupervisorView → Response × SupervisorView
  unfolding trim_newlines dispatch
  handle_line line view = elim (codec.from_json (trim_newlines line)) [
    | ok req ↦ dispatch host req view
    | err e ↦ (Response.error (text "bad request: " ++ shown e), view)
  ]

  -- The lines written for the lines read, until the client closes the connection.
  pub handle_conn : List Text → SupervisorView → List Text × SupervisorView
  unfolding handle_line
  handle_conn [] view = ([], view)
  handle_conn (line ∷ later) view =
      let (resp, after) = handle_line line view in
      let (written, end) = handle_conn later after in
      ((codec.to_json resp ++ 10 ∷ []) ∷ written, end)
