-- ===== src/Doctor/Installed.antt =====
-- src/doctor.rs on a unit file as src/install_convention.rs writes it.
use wintermute_platform.Install.Rewriting.{
  split_once-some, split_once-none, contains_char-append, extract_binary_name-IsBare,
}
use mathlib.Core.List.{append_assoc, append-nil}
use wintermute_platform.Doctor.{
  check_binary, or_text, Overrides, probe_unit, parse_exec_start, expand_specifiers, DoctorHost,
  exec_token, replace, exec_of_lines, without_modifiers,
}
use wintermute_platform.Install.{
  split_exec, rewrite_exec_start, extract_binary_name, canonical_prefix, fleet_install_dir_with,
  exec_start, binary_install_path, is_binary_name, rewritten,
}
use wintermute_platform.Doctor.Words.{
  trim_end-IsBreak, first_word-append, trim_end-append, is_word, IsBreak,
}
use wintermute_platform.Prelude.{
  trim_end, ℕ, true, false, List, [], ◌∷◌, ◌++◌, All, some, none, Text, text, text_eq,
  is_whitespace, is_empty, trim, trim_start, strip_prefix, starts_with, path_join, ends_with_slash,
  contains_char, split_once, lines, if◌then◌else◌, Option-cases, ◌≡◌, refl, inl, inr, ap, ◌∙◌, sym,
  arith,
}

-- What follows the binary in a line that the rewrite writes.
abbrev pub tail_of_args : Text → Text
tail_of_args args = if is_empty args then [] else b' ' ∷ args

tail-IsBreak : (args : Text) → IsBreak (tail_of_args args)
unfolding is_whitespace
tail-IsBreak [] = inl refl
tail-IsBreak (c ∷ args) = inr (b' ', c ∷ args, refl, refl)

rewritten-tail :
    (line bin args : Text)
    → rewritten line args (some bin) ≡ exec_start ++ (canonical_prefix ++ bin) ++ tail_of_args args
rewritten-tail line bin [] = sym (append-nil (exec_start ++ (canonical_prefix ++ bin)))
rewritten-tail line bin (c ∷ args) = refl

-- The doctor's word of such a line is the binary's path.
exec_token-rewritten :
    (bin t : Text)
    → is_word bin ≡ true
    → IsBreak t
    → exec_token (strip_prefix exec_start (trim (exec_start ++ (canonical_prefix ++ bin) ++ t)))
      ≡ canonical_prefix ++ bin
unfolding trim trim_start without_modifiers is_whitespace strip_prefix
exec_token-rewritten bin t w b =
    let trimmed : trim (exec_start ++ (canonical_prefix ++ bin) ++ t)
        ≡ exec_start ++ (canonical_prefix ++ bin) ++ trim_end t =
      trim_end-append (exec_start ++ (canonical_prefix ++ bin)) t w in
    rw trimmed
      (first_word-append b'%' (text "h/.local/bin/" ++ bin) (trim_end t) w (trim_end-IsBreak t b))

exec_of_lines-skip :
    (earlier later : List Text)
    → All (λ l. strip_prefix exec_start (trim l) ≡ none) earlier
    → exec_of_lines (earlier ++ later) ≡ exec_of_lines later
unfolding exec_of_lines
exec_of_lines-skip [] later h = refl
exec_of_lines-skip (l ∷ earlier) later h = rw h.0 (exec_of_lines-skip earlier later h.1)

exec_of_lines-found :
    (line : Text) (later : List Text) (c : ℕ) (token : Text)
    → exec_token (strip_prefix exec_start (trim line)) ≡ c ∷ token
    → exec_of_lines (line ∷ later) ≡ some (c ∷ token)
unfolding exec_of_lines
exec_of_lines-found line later c token h = rw h refl

-- A text without a percent sign holds no specifier.
replace-free :
    (letter : ℕ) (to s : Text)
    → contains_char b'%' s ≡ false
    → replace 0 (b'%' ∷ letter ∷ []) to s ≡ s
unfolding replace strip_prefix contains_char
replace-free letter to [] h = refl
replace-free letter to (c ∷ s) h = ground (arith, h, replace-free letter to s)

replace-home :
    (home s : Text)
    → contains_char b'%' s ≡ false
    → replace 0 (text "%h") home (text "%h" ++ s) ≡ home ++ s
unfolding replace strip_prefix
replace-home home s h = ap (λ x. home ++ x) (replace-free b'h' home s h)

ends_with_slash-append :
    (home : Text) (c d : ℕ) (s : Text)
    → ends_with_slash (home ++ c ∷ d ∷ s) ≡ ends_with_slash (d ∷ s)
ends_with_slash-append [] c d s = refl
ends_with_slash-append (a ∷ []) c d s = refl
ends_with_slash-append (a ∷ b ∷ home) c d s = ends_with_slash-append (b ∷ home) c d s

-- A home directory that is written with no slash at its end, and no percent sign.
pub record IsHome (home : Text) : Type 0 where
  pub given : is_empty home ≡ false
  pub no_slash : ends_with_slash home ≡ false
  pub no_percent : contains_char b'%' home ≡ false

extracted_named :
    (rest bin : Text)
    → extract_binary_name (split_exec rest (split_once b' ' rest)).0 ≡ some bin
    → is_binary_name bin ≡ true
extracted_named rest bin e = elim (Option-cases (split_once b' ' rest)) [
  | inl q ↦
      (extract_binary_name-IsBare b' ' rest bin (split_once-none b' ' rest q) (rw q at e)).named
  | inr (p, q) ↦
      (extract_binary_name-IsBare b' ' p.0 bin (split_once-some b' ' rest p q) (rw q at e)).named
]

no_leading_slash : (bin : Text) → is_binary_name bin ≡ true → starts_with (text "/") bin ≡ false
unfolding strip_prefix contains_char
no_leading_slash [] h = refl
no_leading_slash (c ∷ bin) h = ground (arith, h)

binary_install_path-home :
    (home bin : Text)
    → IsHome home
    → is_binary_name bin ≡ true
    → binary_install_path home bin ≡ home ++ (text "/.local/bin/" ++ bin)
unfolding binary_install_path fleet_install_dir_with path_join strip_prefix text_eq
binary_install_path-home [] bin h n = absurd (ground (arith, h.given))
binary_install_path-home (c ∷ home) bin h n = rw h.no_slash (
    rw (no_leading_slash bin n) (
      rw (ends_with_slash-append (c ∷ home) b'/' b'.' (text "local/bin"))
        (append_assoc (c ∷ home) (text "/.local/bin") (b'/' ∷ bin))))

is_empty-append : (a b : Text) → is_empty a ≡ false → is_empty (a ++ b) ≡ false
is_empty-append [] b h = absurd (ground (arith, h))
is_empty-append (c ∷ a) b h = refl

abbrev home_of : DoctorHost → Overrides → Text
home_of host o = or_text (or_text (text "/root") host.home) o.home_override

expand_specifiers-canonical :
    (host : DoctorHost) (o : Overrides) (bin : Text)
    → contains_char b'%' (home_of host o) ≡ false
    → contains_char b'%' bin ≡ false
    → expand_specifiers host (canonical_prefix ++ bin) o
      ≡ home_of host o ++ (text "/.local/bin/" ++ bin)
unfolding expand_specifiers contains_char
expand_specifiers-canonical host o bin h n =
    let path = home_of host o ++ (text "/.local/bin/" ++ bin) in
    let free : contains_char b'%' path ≡ false =
      contains_char-append b'%' (home_of host o) (text "/.local/bin/" ++ bin) h n in
    rw (replace-home (home_of host o) (text "/.local/bin/" ++ bin) n) (
      rw (replace-free b'u' (or_text (or_text (text "root") host.user) o.user_override) path free)
        (replace-free b'U' _ path free))

rewrite_exec_start-some :
    (line rest bin : Text)
    → strip_prefix exec_start line ≡ some rest
    → extract_binary_name (split_exec rest (split_once b' ' rest)).0 ≡ some bin
    → rewrite_exec_start line
      ≡ exec_start
        ++ (canonical_prefix ++ bin)
        ++ tail_of_args (split_exec rest (split_once b' ' rest)).1
unfolding rewrite_exec_start
rewrite_exec_start-some line rest bin s e =
    rw s (rw e (rewritten-tail line bin (split_exec rest (split_once b' ' rest)).1))

-- The doctor reads the rewritten line as the canonical path.
parse_exec_start-rewritten :
    (cat line rest bin : Text) (earlier later : List Text)
    → lines cat ≡ earlier ++ rewrite_exec_start line ∷ later
    → All (λ l. strip_prefix exec_start (trim l) ≡ none) earlier
    → strip_prefix exec_start line ≡ some rest
    → extract_binary_name (split_exec rest (split_once b' ' rest)).0 ≡ some bin
    → is_word bin ≡ true
    → parse_exec_start cat ≡ some (canonical_prefix ++ bin)
unfolding parse_exec_start
parse_exec_start-rewritten cat line rest bin earlier later c none_before s e w =
    let args = (split_exec rest (split_once b' ' rest)).1 in
    ap exec_of_lines c
    ∙ exec_of_lines-skip earlier (rewrite_exec_start line ∷ later) none_before
    ∙ ap (λ l. exec_of_lines (l ∷ later)) (rewrite_exec_start-some line rest bin s e)
    ∙ exec_of_lines-found _ later b'%' (text "h/.local/bin/" ++ bin)
        (exec_token-rewritten bin (tail_of_args args) w (tail-IsBreak args))

-- If the first ExecStart line that systemctl prints of a unit is one that the rewrite of the install
-- convention has written for a binary, whose name has no white space and no percent sign, then the
-- doctor resolves the unit to the path at which the convention installs that binary, and checks the
-- file there. The home directory is not empty, has no percent sign and ends in no slash.
pub probe_unit-binary_install_path :
    (host : DoctorHost) (unit scope_flag target_cat : Text) (o : Overrides)
    (home line rest bin : Text) (earlier later : List Text)
    → or_text (or_text (text "/root") host.home) o.home_override ≡ home
    → IsHome home
    → lines (host.run (text "systemctl") (scope_flag ∷ text "cat" ∷ unit ∷ [])).0
      ≡ earlier ++ rewrite_exec_start line ∷ later
    → All (λ l. strip_prefix exec_start (trim l) ≡ none) earlier
    → strip_prefix exec_start line ≡ some rest
    → extract_binary_name (split_exec rest (split_once b' ' rest)).0 ≡ some bin
    → is_word bin ≡ true
    → contains_char b'%' bin ≡ false
    → ((probe_unit host unit scope_flag target_cat o).resolved ≡ binary_install_path home bin)
      × ((
        (probe_unit host unit scope_flag target_cat o).exists,
        (probe_unit host unit scope_flag target_cat o).executable,
      )
          ≡ check_binary host (binary_install_path home bin))
unfolding probe_unit
probe_unit-binary_install_path host unit scope_flag target_cat o home line rest bin earlier later at
      h c none_before s e w n =
    let parsed = parse_exec_start-rewritten _ line rest bin earlier later c none_before s e w in
    let expanded = expand_specifiers-canonical host o bin (rw at h.no_percent) n in
    let placed = binary_install_path-home home bin h (extracted_named rest bin e) in
    let resolved = expanded ∙ ap (λ x. x ++ (text "/.local/bin/" ++ bin)) at ∙ sym placed in
    let given = ap is_empty placed ∙ is_empty-append home (text "/.local/bin/" ++ bin) h.given in
    rw (parsed, probe_unit) (rw (resolved, probe_unit) (rw given (refl, refl)))
