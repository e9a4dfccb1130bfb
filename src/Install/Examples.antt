-- ===== src/Install/Examples.antt =====
-- Runs of the rewrite.
use wintermute_platform.Install.Files.{
  check_unit_convention-rewritten, rewrite_unit_exec_starts_idem,
}
use wintermute_platform.Prelude.{
  lines, text, [], ◌∷◌, List, Text, map, none, ◌≡◌, ◌≢◌, refl, inl, inr, text_eq, strip_prefix,
  split_once, contains_char, text_eq_refl, sym, ap, ◌∙◌, arith, false,
}
use wintermute_platform.Install.{
  true, check_unit_convention, rewrite_unit_exec_starts, rewrite_exec_start, offence, find_offence,
  extract_binary_name, extract_known, extract_from_home_prefix,
}
use wintermute_platform.Install.Rewriting.{
  rewrite_exec_start_idem, offence-rewrite_exec_start, check-rewritten,
}

rewrite_run :
    rewrite_exec_start (text "ExecStart=/home/ana/.cargo/bin/wm-audio start")
    ≡ text "ExecStart=%h/.local/bin/wm-audio start"
unfolding rewrite_exec_start extract_binary_name extract_known extract_from_home_prefix strip_prefix
    split_once contains_char
rewrite_run = refl

rewrite_twice_run :
    rewrite_exec_start (rewrite_exec_start (text "ExecStart=/usr/local/bin/wm x"))
    ≡ rewrite_exec_start (text "ExecStart=/usr/local/bin/wm x")
rewrite_twice_run = rewrite_exec_start_idem (text "ExecStart=/usr/local/bin/wm x")

changed : rewrite_exec_start (text "ExecStart=~/.cargo/bin/wm") ≢ text "ExecStart=~/.cargo/bin/wm"
unfolding rewrite_exec_start extract_binary_name extract_known extract_from_home_prefix strip_prefix
    split_once contains_char text_eq
changed q =
    let different : text_eq (rewrite_exec_start (text "ExecStart=~/.cargo/bin/wm"))
          (text "ExecStart=~/.cargo/bin/wm")
        ≡ false =
      refl in
    absurd (
      ground (
        arith,
        different,
        ap (text_eq (rewrite_exec_start (text "ExecStart=~/.cargo/bin/wm"))) (sym q)
            ∙ text_eq_refl (rewrite_exec_start (text "ExecStart=~/.cargo/bin/wm")),
      ))

offence-rewrite_exec_start_example :
    offence (rewrite_exec_start (text "ExecStart=~/.cargo/bin/wm")) ≡ none
offence-rewrite_exec_start_example =
    offence-rewrite_exec_start (text "ExecStart=~/.cargo/bin/wm") changed

abbrev unit_lines : List Text
unit_lines = text "[Service]" ∷ text "ExecStart=~/.cargo/bin/wm" ∷ []

rewritten_lines_run : find_offence (map rewrite_exec_start unit_lines) ≡ none
unfolding offence strip_prefix
rewritten_lines_run = check-rewritten unit_lines (inl refl, (inr changed, tt))

abbrev unit_body : Text
unit_body = text "[Service]\nExecStart=~/.cargo/bin/wm\n"

rewrite_unit_exec_starts_idem_example :
    rewrite_unit_exec_starts (rewrite_unit_exec_starts unit_body)
    ≡ rewrite_unit_exec_starts unit_body
unfolding contains_char
rewrite_unit_exec_starts_idem_example = rewrite_unit_exec_starts_idem unit_body refl

check_unit_convention-rewritten_example :
    check_unit_convention (text "wm.service") (rewrite_unit_exec_starts unit_body)
    ≡ record { unit_name = text "wm.service"; compliant = true; offending_exec_start = none }
unfolding contains_char lines offence strip_prefix
check_unit_convention-rewritten_example =
    check_unit_convention-rewritten (text "wm.service") unit_body refl (inl refl, (inr changed, tt))
