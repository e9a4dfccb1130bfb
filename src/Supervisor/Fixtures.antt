-- ===== src/Supervisor/Fixtures.antt =====
-- A launcher that counts its calls, and children for the runs of the supervisor.
use wintermute_platform.Prelude.{
  text_eq→≢, ℕ, false, List, [], ◌∷◌, none, some, Text, text, text_eq, leb, if◌then◌else◌, ok, err,
  refl, ◌+◌,
}
use wintermute_platform.Protocol.{ChildStatus, ChildState, running, exited}
use wintermute_platform.Spawn.{Spawner}
use wintermute_platform.Supervisor.{Machine}
use wintermute_platform.Supervisor.Slots.{IsDistinct, names}

-- The world counts the starts, of which those of `b` fail; the PIDs from 50 on are alive.
abbrev pub launcher : Spawner ℕ
launcher = record {
  start = λ spec w. (
    if text_eq spec.name (text "b")
        then err (text "no such binary" ∷ [])
        else ok (record { id = spec.name; child_pid = 100 + w; supervisor_pid = 1 }),
    w + 1,
  );
  still_running = λ pid w. (ok (leb 50 pid), w);
}

abbrev pub child_in : Text → ChildStatus → ChildState
child_in name status = record {
  name = name;
  status = status;
  uptime_secs = 0;
  restart_count = 0;
  last_event = none;
  child_pid = some 7;
}

abbrev pub machine_of : List ChildState → Machine ℕ
machine_of children = record {
  view = record { protocol_version = 1; children = children; muted = false };
  trackers = [];
  backoff_until = [];
  world = 0;
}

abbrev pub one : List ChildState
one = child_in (text "a") running ∷ []

abbrev pub two : List ChildState
two = child_in (text "a") running ∷ child_in (text "c") exited ∷ []

pub two-IsDistinct : IsDistinct (names two)
unfolding text_eq
two-IsDistinct = ((text_eq→≢ (text "c") (text "a") refl, tt), (tt, tt))
