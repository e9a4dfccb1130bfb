-- ===== src/Platform/Env/Lookup.antt =====
-- What a lookup in a parsed env file finds.
use wintermute_platform.Prelude.{
  List, [], ◌∷◌, Option, none, some, ◌||◌, Text, text, text_eq, lines, trim, split_once, is_empty,
  starts_with, if◌then◌else◌, get, get-insert, Bool-cases, Option-cases, ◌≡◌, refl, ap, ◌∙◌, inl,
  inr,
}
use wintermute_platform.Platform.Env.{EnvConfig, parse_line, parse_lines, parse_env}

abbrev pub value_if : Text → Option (Text × Text) → Option Text
value_if key none = none
value_if key (some (k, v)) = if text_eq (trim k) key then some (trim v) else none

-- The value that a line gives to a key: of a line that is no comment, what follows its first `=`,
-- if what stands before it is the key, both trimmed.
unfoldable pub assigned : Text → Text → Option Text
assigned key line =
    let trimmed = trim line in
    if is_empty trimmed || starts_with (text "#") trimmed
    then none
    else value_if key (split_once b'=' trimmed)

abbrev pub or_earlier : Option Text → Option Text → Option Text
or_earlier none earlier = earlier
or_earlier (some v) earlier = some v

-- The value that the last line with one gives to a key.
abbrev pub last_assigned : Text → List Text → Option Text
last_assigned key [] = none
last_assigned key (line ∷ later) = or_earlier (last_assigned key later) (assigned key line)

get-parse_line :
    (key line : Text) (keys : EnvConfig)
    → get key (parse_line line keys) ≡ or_earlier (assigned key line) (get key keys)
unfolding parse_line assigned
get-parse_line key line keys =
    elim (Bool-cases (is_empty (trim line) || starts_with (text "#") (trim line))) [
      | inl e ↦ rw e refl
      | inr e ↦ elim (Option-cases (split_once b'=' (trim line))) [
        | inl o ↦ rw (e, o) refl
        | inr ((k, v), o) ↦ elim (Bool-cases (text_eq (trim k) key)) [
          | inl d ↦ rw (e, o, d) (get-insert (trim k) key (trim v) keys ∙ rw d refl)
          | inr d ↦ rw (e, o, d) (get-insert (trim k) key (trim v) keys ∙ rw d refl)
        ]
      ]
    ]

or_earlier_assoc :
    (a b c : Option Text) → or_earlier a (or_earlier b c) ≡ or_earlier (or_earlier a b) c
or_earlier_assoc none b c = refl
or_earlier_assoc (some a) b c = refl

get-parse_lines :
    (key : Text) (ls : List Text) (keys : EnvConfig)
    → get key (parse_lines ls keys) ≡ or_earlier (last_assigned key ls) (get key keys)
unfolding parse_lines
get-parse_lines key [] keys = refl
get-parse_lines key (line ∷ later) keys =
    get-parse_lines key later (parse_line line keys)
    ∙ ap (or_earlier (last_assigned key later)) (get-parse_line key line keys)
    ∙ or_earlier_assoc (last_assigned key later) (assigned key line) (get key keys)

or_earlier-none : (a : Option Text) → or_earlier a none ≡ a
or_earlier-none none = refl
or_earlier-none (some a) = refl

-- A lookup in a parsed env file finds the value that the file's last assignment to the key gives it;
-- comments, blank lines and lines with no `=` assign nothing.
pub get-parse_env : (key file : Text) → get key (parse_env file) ≡ last_assigned key (lines file)
unfolding parse_env get
get-parse_env key file =
    get-parse_lines key (lines file) [] ∙ or_earlier-none (last_assigned key (lines file))
