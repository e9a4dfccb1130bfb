-- ===== src/Prelude/Checks.antt =====
-- Runs of the text functions.
use wintermute_platform.Prelude.Str.{text, show, join}
use wintermute_platform.Prelude.Scan.{lines, trim, split_once, split_whitespace}
use mathlib.Core.Path.{◌≡◌, refl}
use mathlib.Core.Option.{some}
use mathlib.Core.List.{[], ◌∷◌}

show_run : show 4096 ≡ text "4096"
unfolding show
show_run = refl

lines_run : lines (text "a\r\n\nb\r") ≡ text "a" ∷ [] ∷ text "b\r" ∷ []
unfolding lines
lines_run = refl

trim_run : trim (text "  a b\n") ≡ text "a b"
unfolding trim
trim_run = refl

split_once_run : split_once b'=' (text "k=v=w") ≡ some (text "k", text "v=w")
unfolding split_once
split_once_run = refl

split_whitespace_run : join (text ",") (split_whitespace (text " ab  c ")) ≡ text "ab,c"
unfolding join split_whitespace
split_whitespace_run = refl
