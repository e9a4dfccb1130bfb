-- ===== src/Install.antt =====
-- src/install_convention.rs: the install directory of the fleet, the rewrite of the unit files, the
-- check of the convention and the plan of an install. The file system is an argument.
pub mod Rewriting
mod Joining
mod Files
mod Examples
use wintermute_platform.Prelude.{
  Bool, true, false, not, ◌&&◌, ◌||◌, List, [], ◌∷◌, ◌++◌, map, Option, none, some, Text, text,
  strip_prefix, starts_with, split_once, is_empty, contains_char, lines, join, path_join,
  if◌then◌else◌, ◌==◌,
}

abbrev pub fleet_install_dir : Text
fleet_install_dir = text "~/.local/bin"

abbrev pub fleet_install_subdir : Text
fleet_install_subdir = text ".local/bin"

abbrev pub platform_binaries : List Text
platform_binaries = text "wmd-init" ∷ text "wm" ∷ []

abbrev pub fleet_binaries : List Text
fleet_binaries =
    text "wmd-init"
    ∷ text "wm"
    ∷ text "wm-audio"
    ∷ text "wm-tts"
    ∷ text "wm-stt"
    ∷ text "wm-dialog"
    ∷ text "wmd"
    ∷ text "wm-bootstrap"
    ∷ []

unfoldable pub fleet_install_dir_with : Text → Text
fleet_install_dir_with home = path_join home fleet_install_subdir

unfoldable pub binary_install_path : Text → Text → Text
binary_install_path home binary = path_join (fleet_install_dir_with home) binary

abbrev pub known_prefixes : List Text
known_prefixes =
    text "/usr/local/bin/"
    ∷ text "%h/.local/bin/"
    ∷ text "%h/.cargo/bin/"
    ∷ text "~/.local/bin/"
    ∷ text "~/.cargo/bin/"
    ∷ []

-- A name with no slash, of at least one character.
abbrev pub is_binary_name : Text → Bool
is_binary_name rest = not (is_empty rest) && not (contains_char b'/' rest)

abbrev pub binary_after : Option Text → Option Text
binary_after none = none
binary_after (some rest) = if is_binary_name rest then some rest else none

abbrev pub or_else : Option Text → Option Text → Option Text
or_else none other = other
or_else (some a) other = some a

-- `?` on an `Option`
abbrev pub and_then {ℓ} : {A : Type ℓ} → Option A → (A → Option Text) → Option Text
and_then none f = none
and_then (some a) f = f a

-- The loop over `PREFIXES`.
unfoldable pub extract_known : List Text → Text → Option Text
extract_known [] path = none
extract_known (prefix ∷ prefixes) path =
    or_else (binary_after (strip_prefix prefix path)) (extract_known prefixes path)

-- `/home/<user>/.local/bin/<binary>` or `/home/<user>/.cargo/bin/<binary>`
unfoldable pub extract_from_home_prefix : Text → Option Text
extract_from_home_prefix path = and_then (strip_prefix (text "/home/") path) (λ after_home.
    and_then (split_once b'/' after_home) (λ p.
      binary_after
        (or_else (strip_prefix (text ".local/bin/") p.1) (strip_prefix (text ".cargo/bin/") p.1))))

unfoldable pub extract_binary_name : Text → Option Text
extract_binary_name path =
    or_else (extract_known known_prefixes path) (extract_from_home_prefix path)

-- `rest.split_once(' ').map_or((rest, ""), …)`
abbrev pub split_exec : Text → Option (Text × Text) → Text × Text
split_exec rest none = (rest, [])
split_exec rest (some p) = p

abbrev pub exec_start : Text
exec_start = text "ExecStart="

abbrev pub canonical_prefix : Text
canonical_prefix = text "%h/.local/bin/"

abbrev pub rewritten : Text → Text → Option Text → Text
rewritten line args_tail none = line
rewritten line args_tail (some bin) =
    if is_empty args_tail
    then exec_start ++ canonical_prefix ++ bin
    else exec_start ++ (canonical_prefix ++ bin) ++ b' ' ∷ args_tail

abbrev pub rewrite_rest : Text → Option Text → Text
rewrite_rest line none = line
rewrite_rest line (some rest) =
    let (exec_path, args_tail) = split_exec rest (split_once b' ' rest) in
    rewritten line args_tail (extract_binary_name exec_path)

unfoldable pub rewrite_exec_start : Text → Text
rewrite_exec_start line = rewrite_rest line (strip_prefix exec_start line)

-- `ends_with('\n')`
abbrev pub ends_in_newline : Text → Bool
ends_in_newline [] = false
ends_in_newline (c ∷ []) = c == 10
ends_in_newline (c ∷ d ∷ s) = ends_in_newline (d ∷ s)

unfoldable pub rewrite_unit_exec_starts : Text → Text
rewrite_unit_exec_starts unit_body =
    join (text "\n") (map rewrite_exec_start (lines unit_body))
    ++ (if ends_in_newline unit_body then text "\n" else [])

pub record UnitConventionCheck : Type 0 where
  pub unit_name : Text
  pub compliant : Bool
  pub offending_exec_start : Option Text

-- The offence of one line.
unfoldable pub offence : Text → Option Text
offence line = and_then (strip_prefix exec_start line) (λ rest.
    if starts_with (text "/bin/") rest || starts_with (text "/usr/bin/") rest
    then none
    else if starts_with canonical_prefix rest
    then none
    else some rest)

unfoldable pub find_offence : List Text → Option Text
find_offence [] = none
find_offence (line ∷ later) = or_else (offence line) (find_offence later)

abbrev pub is_none : Option Text → Bool
is_none none = true
is_none (some _) = false

unfoldable pub check_unit_convention : Text → Text → UnitConventionCheck
check_unit_convention unit_name unit_body =
    let offending = find_offence (lines unit_body) in
    record {
      unit_name = unit_name;
      compliant = is_none offending;
      offending_exec_start = offending;
    }

pub record InstallOp : Type 0 where
  pub src : Text
  pub dst : Text
  pub already_correct : Bool

unfoldable pub plan_install : (Text → Bool) → Text → Text → List Text → List InstallOp
plan_install exists release_dir install_dir = map (λ bin. record {
  src = path_join release_dir bin;
  dst = path_join install_dir bin;
  already_correct = exists (path_join install_dir bin);
})
