-- ===== src/Protocol.antt =====
-- src/protocol.rs: requests, responses and the state that the supervisor shows. The JSON codec is
-- derived by serde and is a parameter where it is used.
use wintermute_platform.Prelude.{ℕ, Bool, true, false, List, map, Option, none, Text}
use wintermute_platform.Platform.{ChildSpec}

abbrev pub protocol_version : ℕ
protocol_version = 1

pub data Request : Type 0 where
  status mute unmute : Request
  restart : (child : Option Text) → Request
  logs : (child : Text) (tail : ℕ) → Request
  say : (words : Text) → Request

pub data ChildStatus : Type 0 where
  pending starting running exited backoff halted : ChildStatus

-- `status == ChildStatus::Running` and its likes.
abbrev pub is_running : ChildStatus → Bool
is_running running = true
is_running _ = false

abbrev pub is_exited : ChildStatus → Bool
is_exited exited = true
is_exited _ = false

abbrev pub is_backoff : ChildStatus → Bool
is_backoff backoff = true
is_backoff _ = false

pub record ChildState : Type 0 where
  pub name : Text
  pub status : ChildStatus
  pub uptime_secs : ℕ
  pub restart_count : ℕ
  pub last_event : Option Text
  pub child_pid : Option ℕ

pub record SupervisorView : Type 0 where
  pub protocol_version : ℕ
  pub children : List ChildState
  pub muted : Bool

pub data Response : Type 0 where
  status : (view : SupervisorView) → Response
  ack : Response
  logs : (child : Text) (lines : List Text) → Response
  not_implemented : (op : Text) → Response
  error : (message : Text) → Response

unfoldable pub pending_from : ChildSpec → ChildState
pending_from spec = record {
  name = spec.name;
  status = ChildStatus.pending;
  uptime_secs = 0;
  restart_count = 0;
  last_event = none;
  child_pid = none;
}

unfoldable pub pending_for : List ChildSpec → SupervisorView
unfolding pending_from
pending_for specs = record {
  protocol_version = protocol_version;
  children = map pending_from specs;
  muted = false;
}
