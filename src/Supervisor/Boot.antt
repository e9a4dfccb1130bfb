-- ===== src/Supervisor/Boot.antt =====
-- The canonical children: started all at once, and then under the observer.
use wintermute_platform.Prelude.{
  text_eq→≢, ℕ, true, List, [], Text, text_eq, All, some, ok, map, ◌≡◌, refl, ap, ◌∙◌, inl, inr,
}
use wintermute_platform.Platform.{child_startup_order, canonical_children}
use wintermute_platform.Protocol.{ChildState, pending_for, pending_from}
use wintermute_platform.Spawn.{Spawner}
use wintermute_platform.Supervisor.{Machine, new_supervisor, start_all, observer_run}
use wintermute_platform.Supervisor.Slots.{names, slot, IsDistinct, Pairs-slot_forward}
use wintermute_platform.Supervisor.Lifecycle.{
  PassMove, PassMove-name, observer_run-PassMove, is_observed,
}
use wintermute_platform.Supervisor.Starting.{start_specs-IsLaunched}
use wintermute_platform.Supervisor.Launching.{IsLaunched, HasSlot, start_specs-names}
use wintermute_platform.Supervisor.Control.{LogHost}
use wintermute_platform.Supervisor.Control.Interleaving.{
  Happening, history, history-observer_run, ticks,
}

-- The slot of the name is running, exited or in backoff.
pub record IsTended (cs : List ChildState) (n : Text) : Type 0 where
  pub child : ChildState
  pub at : slot n cs ≡ some child
  pub status : is_observed child.status ≡ true

pub startup_order-IsDistinct : IsDistinct child_startup_order
unfolding text_eq
startup_order-IsDistinct = (
  (text_eq→≢ _ _ refl, (text_eq→≢ _ _ refl, (text_eq→≢ _ _ refl, (text_eq→≢ _ _ refl, tt)))),
  (
    (text_eq→≢ _ _ refl, (text_eq→≢ _ _ refl, (text_eq→≢ _ _ refl, tt))),
    ((text_eq→≢ _ _ refl, (text_eq→≢ _ _ refl, tt)), ((text_eq→≢ _ _ refl, tt), (tt, tt))),
  ),
)

module _ {W : Type 0} (spawner : Spawner W) where
  pub new_supervisor-names : (w : W) → names (new_supervisor w).view.children ≡ child_startup_order
  unfolding new_supervisor pending_for canonical_children pending_from
  new_supervisor-names w = refl

  new_supervisor-HasSlot :
      (w : W) → All (λ s. HasSlot (new_supervisor w).view.children s.name) canonical_children
  unfolding new_supervisor pending_for canonical_children pending_from text_eq
  new_supervisor-HasSlot w = ((_, refl), ((_, refl), ((_, refl), ((_, refl), ((_, refl), tt)))))

  pub start_all-IsLaunched :
      (w : W)
      → (start_all spawner (new_supervisor w)).0 ≡ ok tt
      → All (IsLaunched (start_all spawner (new_supervisor w)).1.view.children) child_startup_order
  unfolding start_all canonical_children
  start_all-IsLaunched w h =
      start_specs-IsLaunched spawner canonical_children (new_supervisor w) h
        (new_supervisor-HasSlot w)

  pub start_all-names :
      (w : W) → names (start_all spawner (new_supervisor w)).1.view.children ≡ child_startup_order
  unfolding start_all
  start_all-names w =
      start_specs-names spawner canonical_children (new_supervisor w) ∙ new_supervisor-names w

  -- The observer tends what was launched.
  pub launched_stays :
      (times : List ℕ) (m : Machine W)
      → IsDistinct (names m.view.children)
      → (n : Text) → IsLaunched m.view.children n
      → IsTended (observer_run spawner times m).view.children n
  launched_stays times m d n h =
      let (c, at, move) =
        Pairs-slot_forward PassMove PassMove-name n _ _ (observer_run-PassMove spawner times m d)
          h.child h.at in
      record {
        child = c;
        at = at;
        status = elim move [ inl e ↦ rw (← e) (rw h.status refl) | inr k ↦ k.2 ];
      }

  -- Requests change no child.
  pub history-children :
      (logs : LogHost) (hs : List Happening) (m : Machine W)
      → (history spawner logs hs m).view.children
        ≡ (observer_run spawner (ticks hs) m).view.children
  history-children logs hs m =
      ap (λ (x : Machine W). x.view.children) (history-observer_run spawner logs hs m)

module _ {W : Type 0} (spawner : Spawner W) where
  -- Requests alone change no child.
  pub requests-children :
      (logs : LogHost) (hs : List Happening) (m : Machine W)
      → ticks hs ≡ []
      → (history spawner logs hs m).view.children ≡ m.view.children
  unfolding observer_run
  requests-children logs hs m e =
      history-children spawner logs hs m
      ∙ ap (λ times. (observer_run spawner times m).view.children) e

  pub new_supervisor-children :
      (w : W) → (new_supervisor w).view.children ≡ map pending_from canonical_children
  unfolding new_supervisor pending_for
  new_supervisor-children w = refl
