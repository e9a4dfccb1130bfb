-- ===== src/Platform/Logs.antt =====
-- src/lib.rs: the paths of the control socket and of the child logs, and the tail of a log.
-- The environment variables and the file system are arguments.
pub mod Tail
use wintermute_platform.Prelude.{
  ℕ, ◌-◌, List, [], ◌++◌, Option, none, some, Text, text, path_join, lines, length, drop, ltb, ◌==◌,
  if◌then◌else◌, Result, ok, err, FileRead, contents, not_found, failed,
}
use wintermute_platform.Prelude.{◌∷◌}

abbrev pub or_tmp : Option Text → Text
or_tmp none = text "/tmp"
or_tmp (some dir) = dir

unfoldable pub socket_path_with : Option Text → Text
unfolding path_join
socket_path_with runtime_dir =
    path_join (path_join (or_tmp runtime_dir) (text "wintermute")) (text "init.sock")

unfoldable pub child_log_path_with : Option Text → Text → Text
unfolding path_join
child_log_path_with home child =
    path_join (path_join (or_tmp home) (text ".local/state/wintermute/logs")) (child ++ text ".log")

-- `all.drain(..all.len() - tail)` if there are more than `tail` lines.
unfoldable pub last_lines : ℕ → List Text → List Text
last_lines tail all = if ltb tail (length all) then drop (length all - tail) all else all

unfoldable pub tail_of : ℕ → FileRead → Result (List Text)
unfolding lines last_lines
tail_of tail (contents file) = if tail == 0 then ok [] else ok (last_lines tail (lines file))
tail_of tail not_found = ok []
tail_of tail (failed e) = err (e ∷ [])

unfoldable pub tail_child_log_with : (Text → FileRead) → Option Text → Text → ℕ → Result (List Text)
unfolding child_log_path_with tail_of
tail_child_log_with read home child tail = tail_of tail (read (child_log_path_with home child))
