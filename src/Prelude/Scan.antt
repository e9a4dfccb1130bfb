-- ===== src/Prelude/Scan.antt =====
-- The scanning methods of `str`: `lines`, `trim`, `split_once`, `split_whitespace`, `contains`.
use Prim.Native.Nat.{ℕ}
use mathlib.Core.Bool.{Bool, true, false, ◌&&◌, ◌||◌}
use mathlib.Core.Option
use mathlib.Core.Option.{Option, none, some}
use mathlib.Core.List.{List, [], ◌∷◌, ◌++◌}
use wintermute_platform.Prelude.Tests.{leb, ◌==◌, if◌then◌else◌}
use wintermute_platform.Prelude.Str.{Text}

-- The Unicode property White_Space, by which `trim` and `split_whitespace` go.
unfoldable pub is_whitespace : ℕ → Bool
is_whitespace c =
    (leb 9 c && leb c 13)
    || c == 32
    || c == 0x85
    || c == 0xa0
    || c == 0x1680
    || (leb 0x2000 c && leb c 0x200a)
    || c == 0x2028
    || c == 0x2029
    || c == 0x202f
    || c == 0x205f
    || c == 0x3000

abbrev pub is_empty : Text → Bool
is_empty [] = true
is_empty (c ∷ s) = false

unfoldable pub contains_char : ℕ → Text → Bool
contains_char c [] = false
contains_char c (d ∷ s) = d == c || contains_char c s

unfoldable pub trim_start : Text → Text
unfolding is_whitespace
trim_start [] = []
trim_start (c ∷ s) = let rest = trim_start s in if is_whitespace c then rest else c ∷ s

unfoldable pub trim_end : Text → Text
unfolding is_whitespace
trim_end [] = []
trim_end (c ∷ s) =
    let rest = trim_end s in if is_empty rest && is_whitespace c then [] else c ∷ rest

unfoldable pub trim : Text → Text
unfolding trim_start trim_end
trim s = trim_end (trim_start s)

-- A character that stands before the first line of a text.
abbrev pub onto_first : ℕ → List Text → List Text
onto_first c [] = (c ∷ []) ∷ []
onto_first c (l ∷ ls) = (c ∷ l) ∷ ls

abbrev pub begins_newline : Text → Bool
begins_newline [] = false
begins_newline (c ∷ s) = c == 10

-- Lines end in "\n" or "\r\n"; the last may end with the text.
unfoldable pub lines : Text → List Text
lines [] = []
lines (c ∷ s) =
    let rest = lines s in
    if c == 10 then [] ∷ rest else if c == 13 && begins_newline s then rest else onto_first c rest

unfoldable pub split_once : ℕ → Text → Option (Text × Text)
split_once c [] = none
split_once c (d ∷ s) =
    let rest = Option.map (λ p. (d ∷ p.0, p.1)) (split_once c s) in
    if d == c then some ([], s) else rest

abbrev flush : Text → List Text → List Text
flush [] ws = ws
flush (c ∷ s) ws = (c ∷ s) ∷ ws

unfoldable pub words_from : Text → Text → List Text
unfolding is_whitespace
words_from word [] = flush word []
words_from word (c ∷ s) =
    let ended = flush word (words_from [] s) in
    let longer = words_from (word ++ c ∷ []) s in if is_whitespace c then ended else longer

unfoldable pub split_whitespace : Text → List Text
unfolding words_from
split_whitespace s = words_from [] s
