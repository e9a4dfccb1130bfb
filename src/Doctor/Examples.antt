-- ===== src/Doctor/Examples.antt =====
-- Runs of the doctor against a systemctl with one unit file.
use wintermute_platform.Doctor.Installed.{probe_unit-binary_install_path, IsHome}
use wintermute_platform.Doctor.Words.{is_word}
use wintermute_platform.Install.{
  split_exec, binary_install_path, extract_known, extract_binary_name, exec_start,
  rewrite_exec_start,
}
use wintermute_platform.Prelude.{
  ◌++◌, split_once, contains_char, true, false, List, [], ◌∷◌, All, none, some, Text, text, text_eq,
  strip_prefix, split_whitespace, lines, trim, trim_start, trim_end, is_whitespace, show,
  if◌then◌else◌, not_found, ◌≡◌, ◌↔◌, refl,
}
use wintermute_platform.Doctor.Discovery.{
  Run, first_word, ends_with, is_service, add_names, add_patterns, insert_name, sort_names,
  text_leb, discover_units,
}
use wintermute_platform.Doctor.Discovery.Names.{IsAscending, discover_units-IsAscending}
use wintermute_platform.Doctor.{
  check_binary, probe_unit, DoctorHost, DoctorScope, Overrides, run_doctor, render_table,
  expand_specifiers, replace, parse_exec_start, exec_of_lines, without_modifiers,
  read_uid_from_proc,
}
use wintermute_platform.Doctor.Report.{IsHealthy, run_doctor-IsHealthy}

abbrev answers : List Text → Text
answers (flag ∷ verb ∷ rest) =
    if text_eq verb (text "list-unit-files")
    then text "wmd.service enabled\nwm-stt.service enabled\n"
    else if text_eq verb (text "cat")
    then text "[Service]\nExecStart=-%h/.local/bin/wmd --fast\n"
    else text "active\n"
answers _ = []

abbrev one_file : Run
one_file = λ cmd args. (answers args, true)

-- Nothing exists on this host.
abbrev empty_host : DoctorHost
empty_host = record {
  run = one_file;
  home = some (text "/home/ana");
  user = none;
  uid = none;
  read = λ path. not_found;
  exists = λ path. false;
  mode = λ path. none;
}

abbrev no_overrides : Overrides
no_overrides = record { home_override = none; user_override = none; uid_override = none }

discover_units_run :
    discover_units one_file (text "--user") ≡ text "wm-stt.service" ∷ text "wmd.service" ∷ []
unfolding discover_units add_patterns add_names first_word ends_with insert_name sort_names text_leb
    text_eq lines split_whitespace
discover_units_run = refl

parse_exec_start_run :
    parse_exec_start (text "[Service]\n ExecStart=-@/bin/x a\n") ≡ some (text "/bin/x")
unfolding parse_exec_start exec_of_lines without_modifiers first_word lines split_whitespace trim
    trim_start trim_end is_whitespace strip_prefix
parse_exec_start_run = refl

expand_specifiers_run :
    expand_specifiers empty_host (text "%h/%u/%U/%x") no_overrides ≡ text "/home/ana/root/0/%x"
unfolding expand_specifiers replace read_uid_from_proc strip_prefix show
expand_specifiers_run = refl

discover_units-IsAscending_example :
    IsAscending (discover_units one_file (text "--user"))
    × All (λ n. is_service n ≡ true) (discover_units one_file (text "--user"))
discover_units-IsAscending_example = discover_units-IsAscending one_file (text "--user")

run_doctor-IsHealthy_example :
    (((run_doctor empty_host DoctorScope.both no_overrides).all_ok ≡ true)
      ↔ All IsHealthy (run_doctor empty_host DoctorScope.both no_overrides).units)
    × ((run_doctor empty_host DoctorScope.both no_overrides).all_ok ≡ true
        → render_table (run_doctor empty_host DoctorScope.both no_overrides) true ≡ [])
run_doctor-IsHealthy_example = run_doctor-IsHealthy empty_host DoctorScope.both no_overrides

abbrev old_line : Text
old_line = text "ExecStart=/usr/local/bin/wmd --fast"

-- The unit file of this host has been rewritten.
abbrev rewritten_host : DoctorHost
rewritten_host = record empty_host {
  run = λ cmd args. (text "[Service]\nExecStart=%h/.local/bin/wmd --fast\n", true);
}

rewritten_lines :
    lines (text "[Service]\nExecStart=%h/.local/bin/wmd --fast\n")
    ≡ (text "[Service]" ∷ []) ++ rewrite_exec_start old_line ∷ []
unfolding lines rewrite_exec_start extract_binary_name extract_known split_once strip_prefix
    contains_char
rewritten_lines = refl

service_line : strip_prefix exec_start (trim (text "[Service]")) ≡ none
unfolding trim trim_start trim_end is_whitespace strip_prefix
service_line = refl

abbrev ana : Text
ana = text "/home/ana"

ana-IsHome : IsHome ana
unfolding contains_char
ana-IsHome = record { given = refl; no_slash = refl; no_percent = refl }

old_rest : strip_prefix exec_start old_line ≡ some (text "/usr/local/bin/wmd --fast")
unfolding strip_prefix
old_rest = refl

old_bin :
    extract_binary_name
      (split_exec
        (text "/usr/local/bin/wmd --fast")
        (split_once b' ' (text "/usr/local/bin/wmd --fast"))).0
    ≡ some (text "wmd")
unfolding extract_binary_name extract_known split_once strip_prefix contains_char
old_bin = refl

wmd_word : is_word (text "wmd") ≡ true
unfolding is_whitespace
wmd_word = refl

wmd_plain : contains_char b'%' (text "wmd") ≡ false
unfolding contains_char
wmd_plain = refl

probe_unit-binary_install_path_example :
    ((probe_unit rewritten_host (text "wmd.service") (text "--user") [] no_overrides).resolved
      ≡ binary_install_path ana (text "wmd"))
    × ((
      (probe_unit rewritten_host (text "wmd.service") (text "--user") [] no_overrides).exists,
      (probe_unit rewritten_host (text "wmd.service") (text "--user") [] no_overrides).executable,
    )
        ≡ check_binary rewritten_host (binary_install_path ana (text "wmd")))
probe_unit-binary_install_path_example =
    probe_unit-binary_install_path rewritten_host (text "wmd.service") (text "--user") []
      no_overrides ana old_line (text "/usr/local/bin/wmd --fast") (text "wmd")
      (text "[Service]" ∷ []) [] refl ana-IsHome rewritten_lines (service_line, tt) old_rest old_bin
      wmd_word wmd_plain
