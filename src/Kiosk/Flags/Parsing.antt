-- ===== src/Kiosk/Flags/Parsing.antt =====
-- Laws of the installer's flags.
use wintermute_platform.Prelude.{
  Bool, true, false, ◌&&◌, List, [], ◌∷◌, ◌++◌, Text, text, text_eq, strip_prefix, if◌then◌else◌,
  Result, ok, err, ◌≡◌, refl, arith, inl, inr, Bool-cases,
}
use wintermute_platform.Kiosk.Flags.{
  InstallArgs, default_args, take_flag, take_flags, without_program, parse_install_args,
  reject_both,
}

abbrev flag : Bool → Text → List Text
flag b name = if b then name ∷ [] else []

-- A command line for the arguments.
abbrev pub print_args : InstallArgs → List Text
print_args args =
    text "install.sh" ∷ flag args.kiosk (text "--kiosk")
    ++ flag args.uninstall_kiosk (text "--uninstall-kiosk")
    ++ flag args.dry_run (text "--dry-run")
    ++ text "--user" ∷ args.user ∷ []

parse_each :
    (k u d : Bool) (user : Text)
    → (k && u) ≡ false
    → parse_install_args
        (print_args (record { kiosk = k; uninstall_kiosk = u; dry_run = d; user = user }))
      ≡ ok (record { kiosk = k; uninstall_kiosk = u; dry_run = d; user = user })
unfolding parse_install_args without_program take_flags take_flag text_eq strip_prefix
parse_each true true d user h = absurd (ground (arith, h))
parse_each true false true user h = refl
parse_each true false false user h = refl
parse_each false true true user h = refl
parse_each false true false user h = refl
parse_each false false true user h = refl
parse_each false false false user h = refl

-- The command line that is written for arguments parses back to them, whatever the user's name is,
-- if they do not ask for both an install and an uninstall.
pub parse_install_args-print_args :
    (args : InstallArgs)
    → (args.kiosk && args.uninstall_kiosk) ≡ false
    → parse_install_args (print_args args) ≡ ok args
parse_install_args-print_args args h =
    parse_each args.kiosk args.uninstall_kiosk args.dry_run args.user h

reject_both-ok :
    (r : Result InstallArgs) (args : InstallArgs)
    → reject_both r ≡ ok args
    → (args.kiosk && args.uninstall_kiosk) ≡ false
reject_both-ok (err e) args h = absurd (ground (arith, h))
reject_both-ok (ok a) args h = elim (Bool-cases (a.kiosk && a.uninstall_kiosk)) [
  | inl e ↦ absurd (ground (arith, h, e))
  | inr e ↦ let same : a ≡ args = ground (arith, h, e) in rw (← same) e
]

-- No command line parses to an install and an uninstall at once.
pub parse_install_args-apart :
    (argv : List Text) (args : InstallArgs)
    → parse_install_args argv ≡ ok args
    → (args.kiosk && args.uninstall_kiosk) ≡ false
unfolding parse_install_args
parse_install_args-apart argv args h =
    reject_both-ok (take_flags false (without_program argv) default_args) args h
