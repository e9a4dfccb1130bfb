-- ===== src/Watchdog/DryRun.antt =====
-- src/bin/wintermute_watchdog.rs: what a poll does in the dry-run mode.
use wintermute_platform.Prelude.{
  ℕ, Bool, true, false, ◌&&◌, List, [], ◌∷◌, Text, ◌≡◌, refl, ◌∙◌, inl, inr, arith,
}
use wintermute_platform.Watchdog.{
  WatchdogEngine, done_or, attempt, visit, visits, tick, is_wintermute_unit, may_attempt, entry_of,
  record_failure,
}
use wintermute_platform.Watchdog.Policy.{visit-events}
use wintermute_platform.Watchdog.Giveup.{Outcome-cases}
use wintermute_platform.Watchdog.Fleet.{visits-fleet}
use wintermute_platform.Watchdog.Systemctl.{Launcher, dry_run, list_args}

third_false : (a b c : Bool) → (a && b && false && c) ≡ false
third_false a b c = ground arith

module _ {W : Type 0} (systemctl : Launcher W) where
  attempt-dry_run : (unit : Text) (w : W) → (attempt (dry_run systemctl) unit w).0 ≡ true
  unfolding attempt
  attempt-dry_run unit w = refl

  visit-quiet :
      (now : ℕ) (v : Text) (e : WatchdogEngine W) → (visit (dry_run systemctl) now v e).0 ≡ []
  visit-quiet now v e =
      visit-events (dry_run systemctl) v now e
      ∙ rw (attempt-dry_run v e.world) (
          rw
            (third_false (is_wintermute_unit v) (may_attempt (entry_of v e.table) now)
              (record_failure (entry_of v e.table) now).1)
            refl)

  visits-quiet :
      (now : ℕ) (units : List Text) (e : WatchdogEngine W)
      → (visits (dry_run systemctl) now units e).0 ≡ []
  unfolding visits
  visits-quiet now [] e = refl
  visits-quiet now (v ∷ units) e =
      rw (visit-quiet now v e) (visits-quiet now units (visit (dry_run systemctl) now v e).1)

  -- A poll in the dry-run mode makes one call of systemctl, which lists the failed units, and no
  -- other; it sends no event.
  pub tick-dry_run :
      (now : ℕ) (w : W)
      → ((tick (dry_run systemctl) now (record { world = w; table = [] })).1.world
          ≡ (systemctl list_args w).1)
        × (done_or [] (tick (dry_run systemctl) now (record { world = w; table = [] })).0 ≡ [])
  unfolding tick
  tick-dry_run now w =
      let after = (systemctl list_args w).1 in
      elim (Outcome-cases ((dry_run systemctl).list_failed_units w).0) [
        | inl (units, q) ↦
            rw (q, tick)
              (
                visits-fleet (dry_run systemctl) (λ x. x ≡ after) now units
                    (record { world = after; table = [] })
                    (λ v f. record {
                      on_reset = λ x p. p;
                      on_start = λ x p. p;
                      on_check = λ x p. p;
                    })
                    refl,
                visits-quiet now units (record { world = after; table = [] }),
              )
        | inr (error, q) ↦ rw (q, tick) (refl, refl)
      ]
