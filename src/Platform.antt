-- ===== src/Platform.antt =====
-- src/lib.rs: the constants of the crate, the child specifications and the paths.
pub mod Tracker
pub mod Logs
pub mod Env
mod Examples
use wintermute_platform.Prelude.{ℕ, ◌*◌, List, [], ◌∷◌, ◌++◌, map, Option, none, some, Text, text}

-- Instants and durations are counted in nanoseconds, instants from the origin of the clock.
abbrev pub from_secs : ℕ → ℕ
from_secs s = s * 1_000_000_000

abbrev pub child_startup_order : List Text
child_startup_order =
    text "wm-audio" ∷ text "wm-tts" ∷ text "wm-stt" ∷ text "wm-dialog" ∷ text "wmd" ∷ []

abbrev pub restart_window_secs : ℕ
restart_window_secs = 60

abbrev pub restart_storm_threshold : ℕ
restart_storm_threshold = 5

abbrev pub backoff_secs : ℕ
backoff_secs = 30

abbrev pub bootstrap_env_path : Text
bootstrap_env_path = text "/etc/wintermute/conf.d/00-bootstrap.env"

abbrev pub no_bootstrap_message : Text
no_bootstrap_message = text "no bootstrap config; halting"

pub record ChildSpec : Type 0 where
  pub name : Text
  pub exec : Text
  pub args : List Text

abbrev pub canonical_spec : Text → ChildSpec
canonical_spec n = record { name = n; exec = n; args = [] }

unfoldable pub canonical_children : List ChildSpec
canonical_children = map canonical_spec child_startup_order
