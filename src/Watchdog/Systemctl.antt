-- ===== src/Watchdog/Systemctl.antt =====
-- src/watchdog.rs, `SystemctlReal`: the production backend. The process launcher is a parameter, and
-- standard output is a text, as the lossy conversion gives it. Also the dry-run backend of
-- src/bin/wintermute_watchdog.rs.
use wintermute_platform.Prelude.{
  ℕ, zero, suc, Bool, false, ◌||◌, List, [], ◌∷◌, ◌++◌, Option, none, some, Text, text, text_eq,
  strip_prefix, starts_with, split_once, split_whitespace, lines, trim, drop, if◌then◌else◌, ◌==◌,
}
use wintermute_platform.Watchdog.{systemctl_failed, io, Outcome, done, broke, SystemctlBackend}

-- What the code reads of a finished process; `code` is its exit code as `{:?}` prints it.
pub record Finished : Type 0 where
  pub success : Bool
  pub code : Text
  pub stdout : Text

pub data Launched : Type 0 where
  finished : Finished → Launched
  not_launched : (message : Text) → Launched

abbrev pub Launcher : Type 0 → Type 0
Launcher W = List Text → W → Launched × W

abbrev pub first_or_empty : List Text → Text
first_or_empty [] = []
first_or_empty (a ∷ args) = a

abbrev pub last_or_empty : List Text → Text
last_or_empty [] = []
last_or_empty (a ∷ []) = a
last_or_empty (a ∷ b ∷ args) = last_or_empty (b ∷ args)

abbrev pub status_outcome : List Text → Launched → Outcome (Unit {0})
status_outcome args (not_launched e) = broke (io e)
status_outcome args (finished p) =
    if p.success
    then done tt
    else broke
        (systemctl_failed (first_or_empty args) (last_or_empty args) (text "exit code " ++ p.code))

-- `trim_start_matches([' ', '\t', ':'])`
unfoldable pub skip_separators : Text → Text
skip_separators [] = []
skip_separators (c ∷ s) =
    let rest = skip_separators s in if c == 32 || c == 9 || c == b':' then rest else c ∷ s

abbrev pub one_name : Option (Text × Text) → List Text
one_name none = []
one_name (some (name, after)) = name ∷ []

abbrev pub quoted : Option Text → List Text
quoted none = []
quoted (some inner) = one_name (split_once b'"' inner)

-- The name that follows a `"unit"`, if one does.
unfoldable pub name_after : Text → List Text
name_after rest = quoted (strip_prefix (text "\"") (skip_separators rest))

-- The `while let` over the occurrences of `"unit"` in a line: `skip` characters are passed over, then
-- the next occurrence is looked for.
unfoldable pub names_from : ℕ → Text → List Text
names_from skip [] = []
names_from (suc skip) (c ∷ s) = names_from skip s
names_from zero (c ∷ s) =
    let found = starts_with (text "\"unit\"") (c ∷ s) in
    let rest = names_from (if found then 5 else 0) s in
    if found then name_after (drop 5 s) ++ rest else rest

unfoldable pub names_in : List Text → List Text
names_in [] = []
names_in (line ∷ later) = names_from 0 line ++ names_in later

abbrev pub first_words : List Text → List Text
first_words [] = []
first_words (w ∷ ws) = w ∷ []

unfoldable pub units_of_lines : List Text → List Text
units_of_lines [] = []
units_of_lines (line ∷ later) = first_words (split_whitespace line) ++ units_of_lines later

abbrev pub text_outcome : Launched → Outcome (List Text)
text_outcome (not_launched e) = broke (io e)
text_outcome (finished p) =
    if p.success
    then done (units_of_lines (lines p.stdout))
    else broke (systemctl_failed (text "list-units") [] (text "exit code " ++ p.code))

abbrev pub failed_outcome : Launched → Outcome Bool
failed_outcome (not_launched e) = broke (io e)
failed_outcome (finished p) = done (text_eq (trim p.stdout) (text "failed"))

module _ {W : Type 0} (systemctl : Launcher W) where
  pub run_systemctl : List Text → W → Outcome (Unit {0}) × W
  run_systemctl args w =
      let (launched, after) = systemctl args w in (status_outcome args launched, after)

  pub list_failed_units_text : W → Outcome (List Text) × W
  list_failed_units_text w =
      let (launched, after) =
        systemctl (text "--user" ∷ text "--state=failed" ∷ text "--no-legend" ∷ text "--plain" ∷ [])
          w in
      (text_outcome launched, after)

  -- Nothing found falls back to the text listing.
  unfoldable pub parse_failed_json : Text → W → Outcome (List Text) × W
  parse_failed_json stdout w = elim (names_in (lines stdout)) [
    | [] ↦ list_failed_units_text w
    | unit ∷ units ↦ (done (unit ∷ units), w)
  ]

  unfoldable pub list_failed_units_real : W → Outcome (List Text) × W
  list_failed_units_real w =
      let (launched, after) =
        systemctl
          (text "--user"
            ∷ text "--state=failed"
            ∷ text "--no-legend"
            ∷ text "--plain"
            ∷ text "-o"
            ∷ text "json"
            ∷ [])
          w in
      elim launched [
        | not_launched e ↦ (broke (io e), after)
        | finished p ↦
            if p.success then parse_failed_json p.stdout after else list_failed_units_text after
      ]

  pub systemctl_real : SystemctlBackend W
  systemctl_real = record {
    list_failed_units = list_failed_units_real;
    reset_failed = λ unit. run_systemctl (text "--user" ∷ text "reset-failed" ∷ unit ∷ []);
    start_unit = λ unit. run_systemctl (text "--user" ∷ text "start" ∷ unit ∷ []);
    unit_is_failed = λ unit w.
        let (launched, after) = systemctl (text "--user" ∷ text "is-failed" ∷ unit ∷ []) w in
        (failed_outcome launched, after);
  }

-- `DryRunBackend` lists as the text listing does, whatever the exit status, and does nothing else.
abbrev pub dry_outcome : Launched → Outcome (List Text)
dry_outcome (not_launched e) = broke (io e)
dry_outcome (finished p) = done (units_of_lines (lines p.stdout))

abbrev pub list_args : List Text
list_args = text "--user" ∷ text "--state=failed" ∷ text "--no-legend" ∷ text "--plain" ∷ []

abbrev pub dry_run : {W : Type 0} → Launcher W → SystemctlBackend W
dry_run systemctl = record {
  list_failed_units =
      λ w. let (launched, after) = systemctl list_args w in (dry_outcome launched, after);
  reset_failed = λ unit w. (done tt, w);
  start_unit = λ unit w. (done tt, w);
  unit_is_failed = λ unit w. (done false, w);
}
