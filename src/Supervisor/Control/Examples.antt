-- ===== src/Supervisor/Control/Examples.antt =====
-- Runs of connections, of the client and of the server's setup.
use wintermute_platform.Supervisor.Control.Connection.Streams.{
  handle_stream-ends, handle_stream-handle_conn, line_stream,
}
use wintermute_platform.Supervisor.Control.Connection.{
  send, lines_answered, handle_round, handle_stream, Stream,
}
use wintermute_platform.Supervisor.Control.Server.{
  accept_all, bind_socket, removed, parent, serve, SocketHost,
}
use wintermute_platform.Supervisor.Control.Client.Loopback.{
  client_roundtrip-dispatch, loop_wire, Loop,
}
use wintermute_platform.Supervisor.Control.Client.{client_roundtrip, ClientCodec}
use wintermute_platform.Prelude.{
  true, ℕ, false, List, [], ◌∷◌, none, some, text, text_eq, if◌then◌else◌, ok, err, not_found, ◌≡◌,
  refl, arith, ◌+◌,
}
use wintermute_platform.Protocol.{Response, Request}
use wintermute_platform.Supervisor.{observer_run}
use wintermute_platform.Supervisor.Control.{
  trim_newlines, handle_line, dispatch, LogHost, Codec, handle_conn,
}
use wintermute_platform.Supervisor.Control.Requests.{
  muted_after, with_muted, handle_conn-muted_after,
}
use wintermute_platform.Supervisor.Control.Interleaving.{
  Happening, history, muting, muted_by_all, ticks, history-observer_run,
}
use wintermute_platform.Supervisor.Fixtures.{launcher, machine_of, two}

-- No log can be read, and a line is the request that it names.
abbrev no_logs : LogHost
no_logs = record { read = λ path. not_found; home = none }

abbrev by_word : Codec
by_word = record {
  from_json = λ line.
      if text_eq line (text "mute") then ok Request.mute else err (text "expected value" ∷ []);
  to_json = λ resp. text "{}";
}

handle_conn-muted_after_example :
    (handle_conn no_logs by_word (text "mute" ∷ text "?" ∷ []) (machine_of two).view).1
    ≡ with_muted
        (muted_after no_logs by_word (text "mute" ∷ text "?" ∷ []) false)
        (machine_of two).view
handle_conn-muted_after_example =
    handle_conn-muted_after no_logs by_word (text "mute" ∷ text "?" ∷ []) (machine_of two).view

abbrev mixed : List Happening
mixed =
    Happening.tick 5
    ∷ Happening.request Request.mute
    ∷ Happening.tick 9
    ∷ Happening.request Request.status
    ∷ []

mixed_run :
    history launcher no_logs mixed (machine_of two)
    ≡ muting (muted_by_all mixed false) (observer_run launcher (ticks mixed) (machine_of two))
mixed_run = history-observer_run launcher no_logs mixed (machine_of two)

-- The line `mute` is the request, and any line is an acknowledgement.
abbrev word_client : ClientCodec
word_client = record { to_json = λ req. ok (text "mute"); from_json = λ line. ok Response.ack }

abbrev fresh_loop : Loop
fresh_loop = record { view = (machine_of two).view; sent = []; replies = [] }

client_roundtrip_run :
    ((client_roundtrip
        (loop_wire no_logs by_word)
        word_client
        (text "/s")
        Request.mute
        fresh_loop).0
      ≡ ok Response.ack)
    × ((client_roundtrip
          (loop_wire no_logs by_word)
          word_client
          (text "/s")
          Request.mute
          fresh_loop).1.view
        ≡ with_muted true (machine_of two).view)
unfolding dispatch text_eq
client_roundtrip_run =
    client_roundtrip-dispatch no_logs by_word word_client (text "/s") (text "mute") Request.mute
      fresh_loop refl (ground arith) refl (ground arith) refl

-- A stale socket is there, and nothing fails.
abbrev stale : SocketHost ℕ
stale = record {
  create_dir_all = λ dir w. (ok tt, w + 1);
  remove_file = λ path w. (removed, w + 1);
  bind = λ path w. (ok tt, w + 1);
}

serve_run :
    serve stale {C = ℕ} (text "/run/user/1000/wintermute/init.sock") (ok 7 ∷ err [] ∷ ok 8 ∷ []) 0
    ≡ (record { connections = 7 ∷ []; ended = some (text "accept on init.sock" ∷ []) }, 3)
unfolding serve bind_socket accept_all
serve_run = refl

parent_run : parent (text "/tmp/init.sock") ≡ some (text "/tmp")
unfolding parent
parent_run = refl

-- Each line is `mute`, and the answers cannot be written.
abbrev deaf : Stream ℕ
deaf = record {
  read_line = λ s. (ok (text "mute\n"), s + 1);
  write_all = λ bytes s. (err (text "broken pipe" ∷ []), s);
  flush = λ s. (ok tt, s);
}

deaf_run : handle_stream no_logs by_word deaf 5 0 (machine_of two).view ≡ (
  some (err (text "write response" ∷ text "broken pipe" ∷ [])),
  1,
  with_muted true (machine_of two).view,
)
unfolding handle_stream handle_round send handle_line dispatch trim_newlines text_eq
deaf_run = refl

handle_stream-handle_conn_example :
    (handle_stream no_logs by_word deaf 5 0 (machine_of two).view).2
    ≡ (handle_conn no_logs by_word
        (lines_answered no_logs by_word deaf 5 0 (machine_of two).view)
        (machine_of two).view).1
handle_stream-handle_conn_example =
    handle_stream-handle_conn no_logs by_word deaf 5 0 (machine_of two).view

handle_stream-ends_example :
    handle_stream no_logs by_word line_stream 3
      (record { later = text "mute\n" ∷ text "?\n" ∷ []; written = [] })
      (machine_of two).view
    ≡ (
      some (ok tt),
      record {
        later = [];
        written =
            (handle_conn no_logs by_word (text "mute\n" ∷ text "?\n" ∷ []) (machine_of two).view).0;
      },
      (handle_conn no_logs by_word (text "mute\n" ∷ text "?\n" ∷ []) (machine_of two).view).1,
    )
handle_stream-ends_example =
    handle_stream-ends no_logs by_word (text "mute\n" ∷ text "?\n" ∷ []) [] (machine_of two).view
      (refl, (refl, tt))
