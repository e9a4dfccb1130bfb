-- ===== src/Platform/Env.antt =====
-- src/lib.rs, `EnvConfig`: the bootstrap env file. The file system is an argument.
pub mod Lookup
use wintermute_platform.Prelude.{
  List, [], ◌∷◌, Option, none, some, ◌||◌, Text, text, lines, trim, split_once, is_empty,
  starts_with, strip_prefix, if◌then◌else◌, TextMap, insert, FileRead, contents, not_found, failed,
  Result, ok, err,
}

-- `keys`
abbrev pub EnvConfig : Type 0
EnvConfig = TextMap Text

abbrev pub insert_pair : Option (Text × Text) → EnvConfig → EnvConfig
insert_pair none keys = keys
insert_pair (some (k, v)) keys = insert (trim k) (trim v) keys

-- One round of the loop of `parse`.
unfoldable pub parse_line : Text → EnvConfig → EnvConfig
parse_line line keys =
    let trimmed = trim line in
    if is_empty trimmed || starts_with (text "#") trimmed
    then keys
    else insert_pair (split_once b'=' trimmed) keys

unfoldable pub parse_lines : List Text → EnvConfig → EnvConfig
parse_lines [] keys = keys
parse_lines (line ∷ later) keys = parse_lines later (parse_line line keys)

unfoldable pub parse_env : Text → EnvConfig
parse_env file = parse_lines (lines file) []

unfoldable pub load_optional : FileRead → Result (Option EnvConfig)
load_optional (contents file) = ok (some (parse_env file))
load_optional not_found = ok none
load_optional (failed e) = err (e ∷ [])
