-- ===== src/Supervisor/Apart.antt =====
-- src/supervisor.rs, one child of the supervisor by itself: its status, its restart tracker and its
-- wake-up time, and what `observer_pass` makes of them.
pub mod Restarts
pub mod Passes
pub mod Probes
pub mod Isolation
pub mod Starts
pub mod Recovers
pub mod Served
pub mod Tally
pub mod Storms
mod Examples
use wintermute_platform.Prelude.{
  ℕ, ◌+◌, Bool, true, false, not, ◌&&◌, List, Option, none, some, Text, TextMap, leb, ◌==◌,
  if◌then◌else◌, get, get_or, ◌≡◌,
}
use wintermute_platform.Platform.{from_secs, backoff_secs}
use wintermute_platform.Platform.Tracker.{RestartTracker, default_tracker, record_at}
use wintermute_platform.Protocol.{
  ChildStatus, running, exited, backoff, ChildState, is_running, is_exited, is_backoff,
}
use wintermute_platform.Supervisor.Slots.{slot}

pub record Local : Type 0 where
  pub status : ChildStatus
  pub tracker : RestartTracker
  pub due : Option ℕ

abbrev pub is_over : Option ℕ → ℕ → Bool
is_over due now = elim due [ none ↦ false | some until ↦ leb until now ]

-- The wait of a child is over.
abbrev pub local_clear : ℕ → Local → Local
local_clear now l =
    if is_backoff l.status && is_over l.due now then record l { status = exited; due = none } else l

-- `alive` is whether the child is not found gone.
abbrev pub local_observe : Bool → Local → Local
local_observe alive l = if is_running l.status && not alive then record l { status = exited } else l

-- A restart that the launcher does not fail, or a wait.
abbrev pub local_retry : ℕ → Local → Local
local_retry now l =
    let (tracker, delay) = record_at l.tracker now in
    if delay == 0
    then record l { status = running; tracker = tracker }
    else record { status = backoff; tracker = tracker; due = some (now + from_secs backoff_secs) }

abbrev pub local_restart : ℕ → Local → Local
local_restart now l = if is_exited l.status then local_retry now l else l

abbrev pub local_pass : ℕ → Bool → Local → Local
local_pass now alive l = local_restart now (local_observe alive (local_clear now l))

-- The supervisor holds this of the child with the name.
pub record IsLocal (n : Text) (cs : List ChildState) (trackers : TextMap RestartTracker)
    (due : TextMap ℕ) (l : Local) : Type 0 where
  pub child : ChildState
  pub at : slot n cs ≡ some child
  pub status : child.status ≡ l.status
  pub tracker : get_or default_tracker (get n trackers) ≡ l.tracker
  pub wakes : get n due ≡ l.due
