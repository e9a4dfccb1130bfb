-- ===== src/Kiosk/Flags.antt =====
-- src/kiosk.rs, `parse_install_args`: the installer's flags.
pub mod Parsing
use wintermute_platform.Prelude.{
  Bool, true, false, ◌&&◌, ◌||◌, List, [], ◌∷◌, ◌++◌, Text, text, text_eq, starts_with,
  strip_prefix, if◌then◌else◌, Result, ok, err,
}
use wintermute_platform.Kiosk.{default_kiosk_user}

pub record InstallArgs : Type 0 where
  pub kiosk : Bool
  pub uninstall_kiosk : Bool
  pub dry_run : Bool
  pub user : Text

abbrev pub default_args : InstallArgs
default_args = record {
  kiosk = false;
  uninstall_kiosk = false;
  dry_run = false;
  user = default_kiosk_user;
}

-- What one argument does: it ends the parse with a message, or the parse goes on, perhaps with the
-- value of `--user` next.
pub data Effect : Type 0 where
  stop : (message : Text) → Effect
  next : (wants_user : Bool) → InstallArgs → Effect

-- The `match` on one argument.
unfoldable pub take_flag : Text → InstallArgs → Effect
take_flag a args =
    if text_eq a (text "--kiosk")
    then next false (record args { kiosk = true })
    else if text_eq a (text "--uninstall-kiosk")
    then next false (record args { uninstall_kiosk = true })
    else if text_eq a (text "--dry-run")
    then next false (record args { dry_run = true })
    else if text_eq a (text "--user")
    then next true args
    else if text_eq a (text "-h") || text_eq a (text "--help")
    then stop (text "usage: install.sh [--kiosk|--uninstall-kiosk] [--dry-run] [--user NAME]")
    else stop (text "unknown argument: " ++ a)

-- The loop; the flag tells whether the value of `--user` is next.
unfoldable pub take_flags : Bool → List Text → InstallArgs → Result InstallArgs
take_flags false [] args = ok args
take_flags true [] args = err (text "--user requires a value" ∷ [])
take_flags true (v ∷ later) args = take_flags false later (record args { user = v })
take_flags false (a ∷ later) args = elim (take_flag a args) [
  | stop message ↦ err (message ∷ [])
  | next wants_user args' ↦ take_flags wants_user later args'
]

-- The first argument is dropped, unless it is a flag.
unfoldable pub without_program : List Text → List Text
without_program [] = []
without_program (s ∷ later) =
    if starts_with (text "--") s || starts_with (text "-") s then s ∷ later else later

abbrev pub reject_both : Result InstallArgs → Result InstallArgs
reject_both (err e) = err e
reject_both (ok args) =
    if args.kiosk && args.uninstall_kiosk
    then err (text "--kiosk and --uninstall-kiosk are mutually exclusive" ∷ [])
    else ok args

unfoldable pub parse_install_args : List Text → Result InstallArgs
parse_install_args argv = reject_both (take_flags false (without_program argv) default_args)
