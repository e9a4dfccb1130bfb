-- ===== src/Wm/Examples.antt =====
-- Runs of the command line.
use wintermute_platform.Prelude.{
  true, false, [], ◌∷◌, All, none, some, text, show, ok, err, not_found, ◌≡◌, ◌↔◌, refl,
}
use wintermute_platform.Protocol.{ChildStatus}
use wintermute_platform.Ready.{ReadyHost}
use wintermute_platform.Ready.Clock.{padded, zeros}
use wintermute_platform.Wm.{
  plain, run_ready, run_checks, success, status_row, status_label, format_uptime, left, right,
  spaces,
}
use wintermute_platform.Wm.Exits.{run_ready-exit}

-- Nothing is there: no file, no socket, no command.
abbrev bare_host : ReadyHost
bare_host = record {
  bootstrap_override = none;
  runtime_dir = none;
  path_dirs = none;
  read = λ path. not_found;
  exists = λ path. false;
  is_file = λ path. false;
  connect = λ path. err (text "refused" ∷ []);
  run = λ cmd args. ([], false);
}

bare_host_run :
    ((run_ready (λ e. ok (text "{}")) bare_host 0 plain).1 ≡ success)
    ↔ All (λ c. c.is_ok ≡ true) (run_checks bare_host)
bare_host_run = run_ready-exit (λ e. ok (text "{}")) bare_host 0 plain

status_row_run :
    status_row (record {
      name = text "wm-audio";
      status = ChildStatus.running;
      uptime_secs = 125;
      restart_count = 2;
      last_event = none;
      child_pid = some 7;
    })
    ≡ text "wm-audio    running      2m05s          2  -"
unfolding status_row status_label format_uptime left right spaces padded zeros show
status_row_run = refl
