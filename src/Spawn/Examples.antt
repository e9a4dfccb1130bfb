-- ===== src/Spawn/Examples.antt =====
-- Runs of the launcher.
use wintermute_platform.Prelude.{
  ◌↔◌, ℕ, true, [], none, text, text_eq, trim, trim_start, trim_end, is_whitespace, ok, ◌≡◌, refl,
}
use wintermute_platform.Platform.{canonical_spec}
use wintermute_platform.Spawn.{
  StartedChild, Output, PeventHost, absent, binary_name, run_args, read_reply, pevent_start,
}
use wintermute_platform.Spawn.Pevent.{IsReplyTo, pevent_start-IsReplyTo}

-- What it prints is the name, and the reply names it.
abbrev printed : Output
printed = record { success = true; status = text "0"; stdout = ok (text "wmd\n"); stderr = [] }

abbrev echoing : PeventHost ℕ
echoing = record {
  output = λ binary args w. (ok printed, w);
  metadata = λ path w. absent;
  parse_reply = λ s. ok (record { id = s; child_pid = 7; supervisor_pid = 6 });
  debug = λ s. s;
}

abbrev seventh : StartedChild
seventh = record { id = text "wmd"; child_pid = 7; supervisor_pid = 6 }

pevent_start-IsReplyTo_example :
    ((pevent_start echoing none (canonical_spec (text "wmd")) 0).0 ≡ ok seventh) ↔ (
      (out : Output) × ((echoing.output
          (binary_name none)
          (run_args echoing none (canonical_spec (text "wmd")))
          0).0
        ≡ ok out)
      × IsReplyTo echoing (canonical_spec (text "wmd")) out seventh)
pevent_start-IsReplyTo_example =
    pevent_start-IsReplyTo echoing none (canonical_spec (text "wmd")) 0 seventh

pevent_start_run : (pevent_start echoing none (canonical_spec (text "wmd")) 0).0 ≡ ok seventh
unfolding pevent_start read_reply run_args trim trim_start trim_end is_whitespace text_eq
pevent_start_run = refl
