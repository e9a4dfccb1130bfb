-- ===== src/Supervisor/Control/Client.antt =====
-- src/supervisor.rs: `client_roundtrip`, one request over a connection to the supervisor. The
-- connection and the JSON codec are arguments; `Loop` is a connection to the supervisor's own handler.
pub mod Loopback
use wintermute_platform.Prelude.{
  List, [], ◌∷◌, ◌++◌, Text, text, is_empty, if◌then◌else◌, Result, ok, err, with_context,
}
use wintermute_platform.Protocol.{Request, Response}
use wintermute_platform.Supervisor.Control.{trim_newlines}
use wintermute_platform.Supervisor.Control.Io.{Io, ◌>>=◌, in_context, pure_result, ignoring}

-- A connected stream: `read_line` gives what is read with its line end, and nothing at the end.
pub record Wire (W : Type 0) : Type 0 where
  pub connect : Text → W → Result (Unit {0}) × W
  pub write_all : Text → W → Result (Unit {0}) × W
  pub flush : W → Result (Unit {0}) × W
  pub shutdown : W → Result (Unit {0}) × W
  pub read_line : W → Result Text × W

-- `serde_json::to_vec` and `serde_json::from_str::<Response>`
pub record ClientCodec : Type 0 where
  pub to_json : Request → Result Text
  pub from_json : Text → Result Response

-- What the client makes of the line that it read.
unfoldable pub read_response : ClientCodec → Text → Result Response
unfolding trim_newlines
read_response codec line =
    if is_empty line
    then err (text "supervisor closed connection without responding" ∷ [])
    else with_context (text "parse response") (codec.from_json (trim_newlines line))

module _ {W : Type 0} (wire : Wire W) (codec : ClientCodec) where
  unfoldable pub client_roundtrip : Text → Request → Io W Response
  unfolding read_response
  client_roundtrip socket_path req = do
    _ ← in_context (text "connect " ++ socket_path) (wire.connect socket_path)
    bytes ← in_context (text "serialize request") (pure_result (codec.to_json req))
    _ ← in_context (text "send request") (wire.write_all (bytes ++ 10 ∷ []))
    _ ← in_context (text "flush request") wire.flush
    _ ← ignoring wire.shutdown
    line ← in_context (text "read response") wire.read_line
    pure_result (read_response codec line)
