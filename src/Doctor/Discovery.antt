-- ===== src/Doctor/Discovery.antt =====
-- src/doctor.rs, `discover_units`: the names of the installed units.
pub mod Names
use wintermute_platform.Prelude.{
  Bool, true, false, not, ◌&&◌, ◌||◌, List, [], ◌∷◌, ◌++◌, any, Text, text, text_eq,
  split_whitespace, lines, is_empty, ltb, ◌==◌, if◌then◌else◌,
}

-- A command and its arguments: the standard output, and whether it succeeded.
abbrev pub Run : Type 0
Run = Text → List Text → Text × Bool

abbrev pub head_or_empty : List Text → Text
head_or_empty [] = []
head_or_empty (w ∷ ws) = w

-- `split_whitespace().next().unwrap_or("")`
unfoldable pub first_word : Text → Text
first_word line = head_or_empty (split_whitespace line)

unfoldable pub ends_with : Text → Text → Bool
ends_with suffix [] = text_eq [] suffix
ends_with suffix (c ∷ s) = text_eq (c ∷ s) suffix || ends_with suffix s

abbrev pub is_service : Text → Bool
is_service name = not (is_empty name) && ends_with (text ".service") name

-- The loop over the lines of a listing.
unfoldable pub add_names : List Text → List Text → List Text
add_names [] units = units
add_names (line ∷ later) units =
    let name = first_word line in
    add_names later (
      if is_service name && not (any (λ u. text_eq u name) units)
      then units ++ name ∷ []
      else units)

abbrev pub patterns : List Text
patterns = text "wm-*.service" ∷ text "wmd.service" ∷ text "wmd-init.service" ∷ []

unfoldable pub add_patterns : Run → Text → List Text → List Text → List Text
add_patterns run scope_flag [] units = units
add_patterns run scope_flag (pattern ∷ later) units =
    let files =
      (run (text "systemctl") (
        scope_flag
        ∷ text "list-unit-files"
        ∷ text "--plain"
        ∷ text "--no-legend"
        ∷ pattern
        ∷ [])).0 in
    let loaded =
      (run (text "systemctl") (
        scope_flag
        ∷ text "list-units"
        ∷ text "--plain"
        ∷ text "--no-legend"
        ∷ text "--all"
        ∷ pattern
        ∷ [])).0 in
    add_patterns run scope_flag later (add_names (lines loaded) (add_names (lines files) units))

-- The order of strings: code points order as their UTF-8 bytes do.
unfoldable pub text_leb : Text → Text → Bool
text_leb [] t = true
text_leb (a ∷ s) [] = false
text_leb (a ∷ s) (b ∷ t) = ltb a b || (a == b && text_leb s t)

unfoldable pub insert_name : Text → List Text → List Text
insert_name name [] = name ∷ []
insert_name name (n ∷ ns) =
    let rest = insert_name name ns in if text_leb name n then name ∷ n ∷ ns else n ∷ rest

-- `units.sort()`
unfoldable pub sort_names : List Text → List Text
sort_names [] = []
sort_names (n ∷ ns) = insert_name n (sort_names ns)

unfoldable pub discover_units : Run → Text → List Text
discover_units run scope_flag = sort_names (add_patterns run scope_flag patterns [])
