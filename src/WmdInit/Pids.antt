-- ===== src/WmdInit/Pids.antt =====
-- src/bin/wmd_init.rs with the launcher of src/spawn.rs: the PIDs that the daemon holds.
use wintermute_platform.Prelude.{
  ℕ, if◌then◌else◌, inl, inr, refl, Result, Bool-cases, ok, List, All, ◌≡◌, Option, Text, subst,
}
use wintermute_platform.Platform.{ChildSpec}
use wintermute_platform.Spawn.{
  Output, StartedChild, PeventHost, binary_name, run_args, pevent_spawner,
}
use wintermute_platform.Spawn.Pevent.{IsReplyTo, pevent_start-IsReplyTo}
use wintermute_platform.Supervisor.{Machine}
use wintermute_platform.Supervisor.Pids.{IsAttested, GivesOnly, new_supervisor-IsAttested}
use wintermute_platform.Supervisor.Tasks.{Pc, is_launching, Turn}
use wintermute_platform.Supervisor.Tasks.Pids.{IsGiven, take_turns-IsAttested, finish-IsAttested}
use wintermute_platform.WmdInit.{
  stopped, run, InitHost, CliArgs, booted, launched, lived, clients_of,
}
use wintermute_platform.WmdInit.Children.{run-lived}

-- A run of `pevent run` for a child of this name, which it confirmed with this PID.
pub record IsConfirmed {W : Type 0} (host : PeventHost W) (binary : Option Text) (name : Text)
    (pid : ℕ) : Type 0 where
  pub spec : ChildSpec
  pub world : W
  pub out : Output
  pub started : StartedChild
  pub ran : (host.output (binary_name binary) (run_args host binary spec) world).0 ≡ ok out
  pub reply : IsReplyTo host spec out started
  pub named : spec.name ≡ name
  pub child_pid : started.child_pid ≡ pid

module _ {W : Type 0} (pevent : PeventHost W) (binary : Option Text) where
  pevent_spawner-GivesOnly : GivesOnly (IsConfirmed pevent binary) (pevent_spawner pevent binary)
  pevent_spawner-GivesOnly spec w started h =
      let (out, ran, reply) = (pevent_start-IsReplyTo pevent binary spec w started).0 h in
      record {
        spec = spec;
        world = w;
        out = out;
        started = started;
        ran = ran;
        reply = reply;
        named = refl;
        child_pid = refl;
      }

  booted-IsAttested :
      (cli : CliArgs) (w : W)
      → All (IsAttested (IsConfirmed pevent binary)) (booted cli w).1.view.children
        × IsGiven (IsConfirmed pevent binary) (booted cli w).0
  unfolding booted
  booted-IsAttested cli w =
      let fresh =
        new_supervisor-IsAttested (pevent_spawner pevent binary) (IsConfirmed pevent binary)
          pevent_spawner-GivesOnly w in
      elim (Bool-cases cli.spawn) [
        | inl e ↦ rw (e, booted) (fresh, tt)
        | inr e ↦ rw (e, booted) (fresh, tt)
      ]

  launched-IsAttested :
      (c : Pc × Machine W)
      → All (IsAttested (IsConfirmed pevent binary)) c.1.view.children
        × IsGiven (IsConfirmed pevent binary) c.0
      → All
          (IsAttested (IsConfirmed pevent binary))
          (launched (pevent_spawner pevent binary) c).view.children
  unfolding launched
  launched-IsAttested (pc, m) (h, g) = elim (Bool-cases (is_launching pc)) [
    | inr e ↦ rw (e, launched) h
    | inl e ↦
        rw (e, launched)
          (finish-IsAttested (pevent_spawner pevent binary) (IsConfirmed pevent binary)
            pevent_spawner-GivesOnly pc m e h g)
  ]

  -- Whatever the launcher, `/proc` and the clients do, whether or not the starts succeed, and
  -- wherever in a pass the end comes: when the daemon ends, every child that is running has a PID,
  -- and every PID that it holds for a child comes from a run of `pevent run` for that child, whose
  -- reply carries the child's name and the PID.
  pub run-IsAttested :
      (host : InitHost W) (cli : CliArgs) (turns : List Turn) (w : W) (r : Result (Unit {0}))
      (m : Machine W)
      → run (pevent_spawner pevent binary) host cli turns w ≡ stopped r m
      → All (IsAttested (IsConfirmed pevent binary)) m.view.children
  unfolding lived
  run-IsAttested host cli turns w r m h =
      let (begun, given) = booted-IsAttested cli w in
      subst (All (IsAttested (IsConfirmed pevent binary)))
        (run-lived (pevent_spawner pevent binary) host cli turns w r m h)
        (launched-IsAttested _ (
          take_turns-IsAttested (pevent_spawner pevent binary) (IsConfirmed pevent binary)
            pevent_spawner-GivesOnly (if cli.spawn then turns else clients_of turns)
            (booted cli w).0 (booted cli w).1 begun given))
