-- ===== src/Kiosk/Uninstall.antt =====
-- What the uninstall of the kiosk touches, against what the install wrote.
use wintermute_platform.Prelude.{
  Bool, true, false, List, [], ◌∷◌, ◌++◌, any, All, Text, text_eq, text_eq_refl, ◌≡◌, refl,
}
use wintermute_platform.Kiosk.{
  KioskStep, plan_steps, uninstall_steps, kiosk_install_path, installed_marker_path, for_user,
  is_non_interactive,
}

abbrev pub written : List KioskStep → List Text
written [] = []
written (s ∷ steps) = s.writes ++ written steps

abbrev pub touches : List KioskStep → Text → Bool
touches steps path = any (text_eq path) (written steps)

-- Every path that the uninstall touches is one that the install writes; the installed marker is
-- one that the install writes and the uninstall does not touch.
pub uninstall_steps-plan_steps :
    (user : Text)
    → All (λ path. touches (plan_steps user) path ≡ true) (written (uninstall_steps user))
      × (touches (plan_steps user) installed_marker_path ≡ true)
      × (touches (uninstall_steps user) installed_marker_path ≡ false)
unfolding plan_steps uninstall_steps kiosk_install_path text_eq
uninstall_steps-plan_steps user =
    ((refl, (refl, (refl, (rw (text_eq_refl user) refl, tt)))), refl, refl)

-- The plan for any user asks for no input at any step.
pub for_user-is_non_interactive : (user : Text) → is_non_interactive (for_user user) ≡ true
unfolding is_non_interactive for_user plan_steps text_eq
for_user-is_non_interactive user = refl
