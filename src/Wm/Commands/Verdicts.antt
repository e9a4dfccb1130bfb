-- ===== src/Wm/Commands/Verdicts.antt =====
-- The exit codes of the commands that check the host.
use wintermute_platform.Prelude.{true, none, ◌≡◌}
use wintermute_platform.Ready.{
  ReadyHost, check_brain, check_target, check_audio, check_bus, check_units,
}

-- The five checks: the brain, the target, the audio device, the bus and the units.
pub record AllPass (host : ReadyHost) : Type 0 where
  pub brain : (check_brain host none).is_ok ≡ true
  pub target : (check_target host).is_ok ≡ true
  pub audio : (check_audio host).is_ok ≡ true
  pub bus : (check_bus host none).is_ok ≡ true
  pub units : (check_units host).is_ok ≡ true
