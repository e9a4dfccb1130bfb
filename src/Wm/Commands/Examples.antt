-- ===== src/Wm/Commands/Examples.antt =====
-- A run of `wm mute` against the supervisor's handler.
use wintermute_platform.Prelude.{
  true, false, [], ◌∷◌, none, text, ok, err, not_found, ◌≡◌, refl, arith,
}
use wintermute_platform.Protocol.{Request, Response}
use wintermute_platform.Supervisor.Control.{LogHost, Codec, dispatch}
use wintermute_platform.Supervisor.Control.Client.Loopback.{Loop, loop_wire}
use wintermute_platform.Wm.{out, success, one_shot_lines}
use wintermute_platform.Wm.Commands.{Cmd, WmHost, main}
use wintermute_platform.Wm.Commands.Session.{main-dispatch}

abbrev no_logs : LogHost
no_logs = record { read = λ path. not_found; home = none }

-- The only request is `mute`, and the only response its acknowledgement.
abbrev server_codec : Codec
server_codec = record { from_json = λ line. ok Request.mute; to_json = λ resp. text "ack" }

abbrev muting_host : WmHost Loop
muting_host = record {
  wire = loop_wire no_logs server_codec;
  codec = record { to_json = λ req. ok (text "mute"); from_json = λ line. ok Response.ack };
  runtime_dir = none;
  checks = record {
    bootstrap_override = none;
    runtime_dir = none;
    path_dirs = none;
    read = λ path. not_found;
    exists = λ path. false;
    is_file = λ path. false;
    connect = λ path. err (text "refused" ∷ []);
    run = λ cmd args. ([], false);
  };
  units = record {
    run = λ cmd args. ([], true);
    home = none;
    user = none;
    uid = none;
    read = λ path. not_found;
    exists = λ path. false;
    mode = λ path. none;
  };
  secs = 0;
  print_view = λ view. ok (text "{}");
  print_envelope = λ envelope. ok (text "{}");
  print_report = λ report. ok (text "{}");
}

abbrev unmuted : Loop
unmuted = record {
  view = record { protocol_version = 1; children = []; muted = false };
  sent = [];
  replies = [];
}

main-dispatch_example :
    ((main muting_host Cmd.mute unmuted).0 ≡ (out (text "ok") ∷ [], success))
    × ((main muting_host Cmd.mute unmuted).1.view
        ≡ record { protocol_version = 1; children = []; muted = true })
unfolding dispatch one_shot_lines
main-dispatch_example =
    main-dispatch no_logs server_codec muting_host Cmd.mute Request.mute (text "mute") unmuted refl
      refl refl (ground arith) refl (ground arith) refl
