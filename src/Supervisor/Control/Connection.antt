-- ===== src/Supervisor/Control/Connection.antt =====
-- src/supervisor.rs: `handle_conn` over a stream that may fail at any point. The stream is an
-- argument; `serde_json::to_vec` of a response, which has no case in which it fails, is the codec's.
pub mod Streams
use wintermute_platform.Prelude.{
  ℕ, zero, suc, List, [], ◌∷◌, ◌++◌, Option, none, some, Text, text, is_empty, if◌then◌else◌,
  Result, ok, err, with_context,
}
use wintermute_platform.Protocol.{SupervisorView}
use wintermute_platform.Supervisor.Control.{LogHost, Codec, handle_line}
use wintermute_platform.Supervisor.Control.Io.{Io, ◌>>=◌, in_context}

-- `read_line` gives a line with its line end, and nothing at the end of the stream.
pub record Stream (S : Type 0) : Type 0 where
  pub read_line : S → Result Text × S
  pub write_all : Text → S → Result (Unit {0}) × S
  pub flush : S → Result (Unit {0}) × S

-- One round of the loop: it ends the connection before there is a request, or it answers a line,
-- with the result of the answer's way to the client.
pub data Round : Type 0 where
  closed : Result (Unit {0}) → Round
  answered : Text → Result (Unit {0}) → Round

module _ {S : Type 0} (host : LogHost) (codec : Codec) (stream : Stream S) where
  unfoldable pub send : Text → Io S (Unit {0})
  send bytes = do
    _ ← in_context (text "write response") (stream.write_all bytes)
    in_context (text "flush response") stream.flush

  unfoldable pub handle_round : S → SupervisorView → Round × S × SupervisorView
  unfolding send handle_line
  handle_round s view =
      let (r, s1) = stream.read_line s in
      elim (with_context (text "read_line") r) [
        | err e ↦ (closed (err e), s1, view)
        | ok line ↦
            let (resp, after) = handle_line host codec line view in
            let (sent, s2) = send (codec.to_json resp ++ 10 ∷ []) s1 in
            if is_empty line then (closed (ok tt), s1, view) else (answered line sent, s2, after)
      ]

  -- `handle_conn`, for this many rounds at most: its result if it has returned.
  unfoldable pub handle_stream :
      ℕ → S → SupervisorView → Option (Result (Unit {0})) × S × SupervisorView
  unfolding handle_round
  handle_stream zero s view = (none, s, view)
  handle_stream (suc rounds) s view =
      let (r, s', after) = handle_round s view in
      let rest = handle_stream rounds s' after in
      elim r [
        | closed q ↦ (some q, s', after)
        | answered line q ↦ elim q [ err e ↦ (some (err e), s', after) | ok _ ↦ rest ]
      ]

  -- The lines that those rounds answer.
  pub lines_answered : ℕ → S → SupervisorView → List Text
  unfolding handle_round
  lines_answered zero s view = []
  lines_answered (suc rounds) s view =
      let (r, s', after) = handle_round s view in
      let rest = lines_answered rounds s' after in
      elim r [ closed q ↦ [] | answered line q ↦ elim q [ err e ↦ line ∷ [] | ok _ ↦ line ∷ rest ] ]
