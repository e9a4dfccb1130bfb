-- ===== src/Kiosk.antt =====
-- src/kiosk.rs: the plan of a kiosk install, the files that it renders, the boot marker and the flags
-- of the installer.
pub mod Flags
mod Uninstall
mod Examples
use wintermute_platform.Prelude.{
  ℕ, suc, ◌+◌, Bool, true, false, ◌&&◌, List, [], ◌∷◌, ◌++◌, map, all, any, length, Text, text,
  text_eq, show, if◌then◌else◌,
}

abbrev pub kiosk_bin_prefix : Text
kiosk_bin_prefix = text "/usr/local/bin"

abbrev pub kiosk_binaries : List Text
kiosk_binaries =
    text "wm-tts"
    ∷ text "wm-stt"
    ∷ text "wm-audio"
    ∷ text "wm-dialog"
    ∷ text "wmd"
    ∷ text "wmd-init"
    ∷ text "wm-bootstrap"
    ∷ []

abbrev pub installed_marker_path : Text
installed_marker_path = text "/var/lib/wintermute/installed"

abbrev pub recovery_service_path : Text
recovery_service_path = text "/usr/lib/systemd/system/wintermute-boot-recovery.service"

abbrev pub tmpfiles_rule_path : Text
tmpfiles_rule_path = text "/usr/lib/tmpfiles.d/wintermute.conf"

abbrev pub greetd_config_path : Text
greetd_config_path = text "/etc/greetd/config.toml"

abbrev pub default_kiosk_user : Text
default_kiosk_user = text "wintermute"

pub record KioskStep : Type 0 where
  pub id : Text
  pub description : Text
  pub writes : List Text
  pub requires_root : Bool

pub record KioskPlan : Type 0 where
  pub user : Text
  pub bin_prefix : Text
  pub steps : List KioskStep

unfoldable pub kiosk_install_path : Text → Text
kiosk_install_path binary = kiosk_bin_prefix ++ text "/" ++ binary

abbrev pub root_step : Text → Text → List Text → KioskStep
root_step id description writes = record {
  id = id;
  description = description;
  writes = writes;
  requires_root = true;
}

abbrev pub linger_path : Text → Text
linger_path user = text "/var/lib/systemd/linger/" ++ user

unfoldable pub plan_steps : Text → List KioskStep
plan_steps user =
    root_step (text "install-binaries")
      (text "install wm-* binaries to "
        ++ kiosk_bin_prefix
        ++ text "/ (kiosk-mode path convention)")
      (map kiosk_install_path kiosk_binaries)
    ∷ root_step (text "greetd-config") (text "write greetd autologin config for user=" ++ user)
        (greetd_config_path ∷ [])
    ∷ root_step (text "enable-linger") (text "loginctl enable-linger " ++ user)
        (linger_path user ∷ [])
    ∷ root_step (text "tmpfiles-rule") (text "install tmpfiles.d rule for /run/wintermute/")
        (tmpfiles_rule_path ∷ [])
    ∷ root_step (text "recovery-service")
        (text "install (do not enable) wintermute-boot-recovery.service")
        (recovery_service_path ∷ [])
    ∷ root_step (text "installed-marker")
        (text "create installed marker at "
          ++ installed_marker_path
          ++ text " (drives first-vs-recovered boot)")
        (installed_marker_path ∷ [])
    ∷ root_step (text "enable-user-target")
        (text "enable wintermute.target on user " ++ user ++ text " via --machine= or PAM session")
        ((linger_path user ++ text " (target-default-symlink)") ∷ [])
    ∷ []

unfoldable pub for_user : Text → KioskPlan
for_user user = record { user = user; bin_prefix = kiosk_bin_prefix; steps = plan_steps user }

abbrev pub show_bool : Bool → Text
show_bool true = text "true"
show_bool false = text "false"

abbrev pub newline : Text
newline = text "\n"

abbrev pub write_lines : List Text → Text
write_lines [] = []
write_lines (w ∷ ws) = text "         writes: " ++ w ++ newline ++ write_lines ws

-- The steps from the `i`-th of `n` on.
unfoldable pub step_lines : ℕ → ℕ → List KioskStep → Text
step_lines n i [] = []
step_lines n i (s ∷ steps) =
    text "  ["
    ++ show (i + 1)
    ++ text "/"
    ++ show n
    ++ text "] "
    ++ s.id
    ++ text " (root="
    ++ show_bool s.requires_root
    ++ text "): "
    ++ s.description
    ++ newline
    ++ write_lines s.writes
    ++ step_lines n (i + 1) steps

unfoldable pub dry_run_report : KioskPlan → Text
dry_run_report plan =
    text "kiosk-install plan for user="
    ++ plan.user
    ++ text " bin_prefix="
    ++ plan.bin_prefix
    ++ newline
    ++ text "steps: "
    ++ show (length plan.steps)
    ++ newline
    ++ step_lines (length plan.steps) 0 plan.steps

abbrev pub non_interactive_ids : List Text
non_interactive_ids =
    text "install-binaries"
    ∷ text "greetd-config"
    ∷ text "enable-linger"
    ∷ text "tmpfiles-rule"
    ∷ text "recovery-service"
    ∷ text "installed-marker"
    ∷ text "enable-user-target"
    ∷ []

unfoldable pub is_non_interactive : KioskPlan → Bool
is_non_interactive plan = all (λ s. any (λ id. text_eq id s.id) non_interactive_ids) plan.steps

unfoldable pub recovery_service_unit : Text → Text
recovery_service_unit user =
    text
      "[Unit]\nDescription=wintermute boot-recovery (start wintermute.target if it failed at login)\n"
    ++ text
        "Documentation=https://github.com/j0yen/wintermute-platform\nAfter=multi-user.target\n\n"
    ++ text "[Service]\nType=oneshot\n# Wait 30s for the autologin chain to settle, then verify\n"
    ++ text "# wintermute.target is active for the kiosk user. If not,\n"
    ++ text "# poke it into life via the user's systemd manager.\n"
    ++ text "ExecStart=/bin/sh -c 'sleep 30; runuser -u "
    ++ user
    ++ text " -- systemctl --user is-active --quiet wintermute.target || runuser -u "
    ++ user
    ++ text " -- systemctl --user start wintermute.target'\nRemainAfterExit=no\n"
    ++ text "# Do not block boot; recovery is opportunistic.\nTimeoutStartSec=120\n\n"
    ++ text "[Install]\nWantedBy=multi-user.target\n"

unfoldable pub tmpfiles_rule : Text → Text
tmpfiles_rule user = text "d /run/wintermute 0755 " ++ user ++ text " " ++ user ++ text " - -\n"

unfoldable pub greetd_config : Text → Text
greetd_config user =
    text "# greetd config — wintermute kiosk autologin\n# Installed by install.sh --kiosk for user="
    ++ user
    ++ text ".\n# Reverted by install.sh --uninstall-kiosk.\n\n[terminal]\nvt = 1\n\n"
    ++ text "[default_session]\ncommand = \"agreety --cmd wintermute-session\"\nuser = \""
    ++ user
    ++ text "\"\n\n[initial_session]\ncommand = \"wintermute-session\"\nuser = \""
    ++ user
    ++ text "\"\n"

pub data BootMarkerState : Type 0 where
  first recovered : BootMarkerState

unfoldable pub from_marker_present : Bool → BootMarkerState
from_marker_present present = if present then recovered else first

unfoldable pub topic : BootMarkerState → Text
topic first = text "wm.boot.first"
topic recovered = text "wm.boot.recovered"

unfoldable pub should_speak : BootMarkerState → Bool
should_speak first = true
should_speak recovered = false

unfoldable pub uninstall_steps : Text → List KioskStep
uninstall_steps user =
    root_step (text "remove-recovery-service") (text "remove wintermute-boot-recovery.service")
      (recovery_service_path ∷ [])
    ∷ root_step (text "remove-greetd-config")
        (text "restore greetd config to upstream default (was: kiosk for user=" ++ user ++ text ")")
        (greetd_config_path ∷ [])
    ∷ root_step (text "remove-tmpfiles-rule") (text "remove tmpfiles.d rule for /run/wintermute/")
        (tmpfiles_rule_path ∷ [])
    ∷ root_step (text "disable-linger") (text "loginctl disable-linger " ++ user)
        (linger_path user ∷ [])
    ∷ []
