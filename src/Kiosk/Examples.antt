-- ===== src/Kiosk/Examples.antt =====
-- Runs of the kiosk plan and of the installer's flags.
use wintermute_platform.Prelude.{
  true, false, ◌&&◌, [], ◌∷◌, All, text, text_eq, strip_prefix, ok, err, ◌≡◌, refl,
}
use wintermute_platform.Kiosk.{plan_steps, uninstall_steps, installed_marker_path}
use wintermute_platform.Kiosk.Flags.{
  InstallArgs, parse_install_args, take_flags, take_flag, without_program,
}
use wintermute_platform.Kiosk.Flags.Parsing.{
  print_args, parse_install_args-print_args, parse_install_args-apart,
}
use wintermute_platform.Kiosk.Uninstall.{written, touches, uninstall_steps-plan_steps}

abbrev dry_kiosk : InstallArgs
dry_kiosk = record { kiosk = true; uninstall_kiosk = false; dry_run = true; user = text "ana" }

unknown_run :
    parse_install_args (text "--dry-run" ∷ text "--fast" ∷ [])
    ≡ err (text "unknown argument: --fast" ∷ [])
unfolding parse_install_args without_program take_flags take_flag text_eq strip_prefix
unknown_run = refl

missing_user_run :
    parse_install_args (text "install.sh" ∷ text "--user" ∷ [])
    ≡ err (text "--user requires a value" ∷ [])
unfolding parse_install_args without_program take_flags take_flag text_eq strip_prefix
missing_user_run = refl

parse_install_args-print_args_example : parse_install_args (print_args dry_kiosk) ≡ ok dry_kiosk
parse_install_args-print_args_example = parse_install_args-print_args dry_kiosk refl

dry_kiosk-apart : (dry_kiosk.kiosk && dry_kiosk.uninstall_kiosk) ≡ false
unfolding parse_install_args without_program take_flags take_flag text_eq strip_prefix
dry_kiosk-apart =
    parse_install_args-apart (text "--kiosk" ∷ text "--user" ∷ text "ana" ∷ text "--dry-run" ∷ [])
      dry_kiosk refl

uninstall_steps-plan_steps_example :
    All
      (λ path. touches (plan_steps (text "ana")) path ≡ true)
      (written (uninstall_steps (text "ana")))
    × (touches (plan_steps (text "ana")) installed_marker_path ≡ true)
    × (touches (uninstall_steps (text "ana")) installed_marker_path ≡ false)
uninstall_steps-plan_steps_example = uninstall_steps-plan_steps (text "ana")
