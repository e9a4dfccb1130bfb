-- ===== src/Ready.antt =====
-- src/ready.rs: the readiness checks and their verdict. Commands, files, sockets and environment
-- variables are the fields of a host.
pub mod Clock
pub mod Verdict
mod Examples
use wintermute_platform.Prelude.{
  ℕ, Bool, true, false, not, ◌&&◌, List, [], ◌∷◌, ◌++◌, all, any, filter, find, map, Option, none,
  some, Text, text, text_eq, join, path_join, trim, is_empty, if◌then◌else◌, get, FileRead, Result,
  ok, err, length, Error,
}
use wintermute_platform.Platform.{bootstrap_env_path, child_startup_order}
use wintermute_platform.Platform.Env.{EnvConfig, load_optional}
use wintermute_platform.Platform.Logs.{or_tmp}

pub record CheckResult : Type 0 where
  pub name : Text
  pub is_ok : Bool
  pub detail : Text

abbrev pub check_brain_name : Text
check_brain_name = text "brain"

abbrev pub check_target_name : Text
check_target_name = text "target"

abbrev pub check_audio_name : Text
check_audio_name = text "audio"

abbrev pub check_bus_name : Text
check_bus_name = text "bus"

abbrev pub check_units_name : Text
check_units_name = text "units"

abbrev pub boot_phrase_ready : Text
boot_phrase_ready = text "Wintermute is ready."

unfoldable pub not_ready_phrase : Text → Text
not_ready_phrase check_name =
    if text_eq check_name check_brain_name
    then text "Wintermute is up, but it can't reach its brain."
    else if text_eq check_name check_target_name
    then text "Wintermute has not fully started yet."
    else if text_eq check_name check_audio_name
    then text "Wintermute can't hear — its microphone or speaker is missing."
    else if text_eq check_name check_bus_name
    then text "Wintermute can't reach its message bus."
    else if text_eq check_name check_units_name
    then text "One or more of Wintermute's programs are missing."
    else text "Wintermute is not ready."

-- What the checks see: the variables `WM_BOOTSTRAP_ENV`, `XDG_RUNTIME_DIR` and `PATH` (split into
-- its directories), files and sockets by path, and the standard output and success of a command.
pub record ReadyHost : Type 0 where
  pub bootstrap_override : Option Text
  pub runtime_dir : Option Text
  pub path_dirs : Option (List Text)
  pub read : Text → FileRead
  pub exists : Text → Bool
  pub is_file : Text → Bool
  pub connect : Text → Result (Unit {0})
  pub run : Text → List Text → Text × Bool

abbrev pub passed : Text → CheckResult
passed name = record { name = name; is_ok = true; detail = [] }

abbrev pub failing : Text → Text → CheckResult
failing name detail = record { name = name; is_ok = false; detail = detail }

abbrev pub or_path : Text → Option Text → Text
or_path default none = default
or_path default (some path) = path

-- An I/O error as it displays.
abbrev pub displayed : Error → Text
displayed [] = []
displayed (m ∷ ms) = m

abbrev pub brain_result : Text → Result (Option EnvConfig) → CheckResult
brain_result path (ok none) = failing check_brain_name (text "bootstrap env not found: " ++ path)
brain_result path (err e) =
    failing check_brain_name (text "could not read bootstrap env: " ++ displayed e)
brain_result path (ok (some keys)) =
    if is_empty (or_path [] (get (text "WM_ANTHROPIC_API_KEY") keys))
    then failing check_brain_name (text "WM_ANTHROPIC_API_KEY is empty in " ++ path)
    else passed check_brain_name

unfoldable pub default_bus_socket_path : Option Text → Text
default_bus_socket_path runtime_dir =
    path_join (path_join (or_tmp runtime_dir) (text "agorabus")) (text "bus.sock")

abbrev pub bus_result : Result (Unit {0}) → CheckResult
bus_result (ok _) = passed check_bus_name
bus_result (err e) =
    failing check_bus_name (text "agorabus socket not connectable: " ++ displayed e)

abbrev pub or_no_dirs : Option (List Text) → List Text
or_no_dirs none = []
or_no_dirs (some dirs) = dirs

abbrev pub is_empty_list : List Text → Bool
is_empty_list [] = true
is_empty_list (x ∷ xs) = false

module _ (host : ReadyHost) where
  pub resolve_bootstrap_env_path : Text
  resolve_bootstrap_env_path = or_path bootstrap_env_path host.bootstrap_override

  -- The argument overrides the path.
  pub check_brain : Option Text → CheckResult
  check_brain env_path_override =
      let path = or_path resolve_bootstrap_env_path env_path_override in
      brain_result path (load_optional (host.read path))

  pub check_target : CheckResult
  check_target =
      let (stdout, is_active) =
        host.run (text "systemctl")
          (text "is-active" ∷ text "--quiet" ∷ text "wintermute.target" ∷ []) in
      let detail = trim stdout in
      if is_active
      then passed check_target_name
      else failing check_target_name (
          if is_empty detail
          then text "wintermute.target is not active"
          else text "wintermute.target: " ++ detail)

  pub check_audio : CheckResult
  check_audio =
      let (src_out, src_ok) =
        host.run (text "pactl") (text "list" ∷ text "short" ∷ text "sources" ∷ []) in
      let (sink_out, sink_ok) =
        host.run (text "pactl") (text "list" ∷ text "short" ∷ text "sinks" ∷ []) in
      let has_source = src_ok && not (is_empty (trim src_out)) in
      let has_sink = sink_ok && not (is_empty (trim sink_out)) in
      if has_source && has_sink
      then passed check_audio_name
      else if not src_ok && not sink_ok
      then failing check_audio_name (text "pactl not available or PulseAudio/PipeWire not running")
      else failing check_audio_name (
          join (text "; ") (
            (if has_source then [] else text "no audio source (microphone)" ∷ [])
            ++ (if has_sink then [] else text "no audio sink (speaker)" ∷ [])))

  pub check_bus : Option Text → CheckResult
  check_bus bus_socket_path_override =
      let path = or_path (default_bus_socket_path host.runtime_dir) bus_socket_path_override in
      if host.exists path
      then bus_result (host.connect path)
      else failing check_bus_name (text "agorabus socket not found: " ++ path)

  -- `which_on_path(name).is_some()`
  pub is_on_path : Text → Bool
  is_on_path name = any (λ dir. host.is_file (path_join dir name)) (or_no_dirs host.path_dirs)

  pub check_units : CheckResult
  check_units =
      let missing = filter (λ unit. not (is_on_path unit)) child_startup_order in
      if is_empty_list missing
      then passed check_units_name
      else failing check_units_name (text "missing binaries: " ++ join (text ", ") missing)

abbrev pub check_priority : List Text
check_priority =
    check_brain_name ∷ check_target_name ∷ check_bus_name ∷ check_audio_name ∷ check_units_name ∷ []

abbrev pub has_failed : Text → List CheckResult → Bool
has_failed name = any (λ c. text_eq c.name name && not c.is_ok)

-- `iter().find(|c| !c.ok).map(|c| c.name.clone())`
unfoldable pub first_failing : List CheckResult → Option Text
first_failing [] = none
first_failing (c ∷ cs) = if c.is_ok then first_failing cs else some c.name

-- The loop over the priorities, and the fallback.
unfoldable pub worst_of : List Text → List CheckResult → Option Text
worst_of [] checks = first_failing checks
worst_of (name ∷ names) checks =
    let rest = worst_of names checks in if has_failed name checks then some name else rest

unfoldable pub aggregate : List CheckResult → Bool × Option Text
aggregate checks =
    if all (λ c. c.is_ok) checks then (true, none) else (false, worst_of check_priority checks)

unfoldable pub verdict_line : Bool → List Text → Text
verdict_line ready names =
    if ready then text "READY" else text "NOT READY: " ++ join (text ", ") names
