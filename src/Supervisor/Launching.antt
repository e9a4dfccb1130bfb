-- ===== src/Supervisor/Launching.antt =====
-- One start, and what it leaves in the slots.
use wintermute_platform.Platform.{ChildSpec}
use wintermute_platform.Supervisor.{
  start_specs, named, to_starting, with_slot, to_running, Machine, start_one,
}
use wintermute_platform.Protocol.{running, ChildState}
use wintermute_platform.Spawn.{Spawner}
use wintermute_platform.Prelude.{
  update_first, All-map, arith, All, Bool-cases, text_eq, if◌then◌else◌, text, Result-cases, ◌⊎◌,
  text_eq_refl, Error, Text, List, [], ◌∷◌, ◌++◌, refl, inl, inr, ◌≡◌, ◌∙◌, some, ok, err, ℕ,
}
use wintermute_platform.Supervisor.Slots.{
  names-update_first, slot-update_first, map_slot, slot, names,
}

-- The slot of the name is running with a known PID.
pub record IsLaunched (cs : List ChildState) (n : Text) : Type 0 where
  pub child : ChildState
  pub pid : ℕ
  pub at : slot n cs ≡ some child
  pub status : child.status ≡ running
  pub child_pid : child.child_pid ≡ some pid

abbrev pub HasSlot : List ChildState → Text → Type 0
HasSlot cs n = (c : ChildState) × (slot n cs ≡ some c)

module _ {W : Type 0} (spawner : Spawner W) where
  -- The two ways in which one start can go.
  pub start_one-cases :
      (spec : ChildSpec) (m : Machine W)
      → ((e : Error) × (w : W) × (start_one spawner spec m
            ≡ (err e, record (with_slot (named spec.name) to_starting m) { world = w })))
        ⊎ ((pid : ℕ) × (w : W) × (start_one spawner spec m ≡ (
          ok tt,
          with_slot
              (named spec.name)
              (to_running pid)
              (record (with_slot (named spec.name) to_starting m) { world = w }),
        )))
  unfolding start_one
  start_one-cases spec m = elim (Result-cases (spawner.start spec m.world).0) [
    | inr (e, q) ↦ inl (
      (text "start child " ++ spec.name) ∷ e,
      (spawner.start spec m.world).1,
      rw (q, start_one) refl,
    )
    | inl (s, q) ↦ inr (s.child_pid, (spawner.start spec m.world).1, rw (q, start_one) refl)
  ]

  pub slot-start_one-ok :
      (spec : ChildSpec) (m : Machine W) (n : Text)
      → (start_one spawner spec m).0 ≡ ok tt
      → (pid : ℕ) × (slot n (start_one spawner spec m).1.view.children ≡ (
          if text_eq spec.name n
          then map_slot (to_running pid) (map_slot to_starting (slot n m.view.children))
          else slot n m.view.children))
  slot-start_one-ok spec m n q = elim (start_one-cases spec m) [
    | inl (e, w, r) ↦ absurd (ground (arith, r))
    | inr (pid, w, r) ↦ (
      pid,
      rw r (
          ground (
            arith,
            slot-update_first (to_running pid) (λ c. refl) spec.name n
                (update_first (named spec.name) to_starting m.view.children),
            slot-update_first to_starting (λ c. refl) spec.name n m.view.children,
          )),
    )
  ]

  pub keeps_slot :
      (spec : ChildSpec) (m : Machine W) (n : Text)
      → (start_one spawner spec m).0 ≡ ok tt
      → HasSlot m.view.children n
      → HasSlot (start_one spawner spec m).1.view.children n
  keeps_slot spec m n q (c, at) =
      let (pid, after) = slot-start_one-ok spec m n q in
      elim (Bool-cases (text_eq spec.name n)) [
        | inl e ↦ (to_running pid (to_starting c), after ∙ rw (e, at) refl)
        | inr e ↦ (c, after ∙ rw e at)
      ]

  pub launches :
      (spec : ChildSpec) (m : Machine W)
      → (start_one spawner spec m).0 ≡ ok tt
      → HasSlot m.view.children spec.name
      → IsLaunched (start_one spawner spec m).1.view.children spec.name
  launches spec m q (c, at) =
      let (pid, after) = slot-start_one-ok spec m spec.name q in
      record {
        child = to_running pid (to_starting c);
        pid = pid;
        at = after ∙ rw (text_eq_refl spec.name, at) refl;
        status = refl;
        child_pid = refl;
      }

  pub keeps_IsLaunched :
      (spec : ChildSpec) (m : Machine W) (n : Text)
      → (start_one spawner spec m).0 ≡ ok tt
      → IsLaunched m.view.children n
      → IsLaunched (start_one spawner spec m).1.view.children n
  keeps_IsLaunched spec m n q h =
      let (pid, after) = slot-start_one-ok spec m n q in
      elim (Bool-cases (text_eq spec.name n)) [
        | inl e ↦ record {
          child = to_running pid (to_starting h.child);
          pid = pid;
          at = after ∙ rw (e, h.at) refl;
          status = refl;
          child_pid = refl;
        }
        | inr e ↦ record {
          child = h.child;
          pid = h.pid;
          at = after ∙ rw e h.at;
          status = h.status;
          child_pid = h.child_pid;
        }
      ]

  pub keeps_slots :
      (spec : ChildSpec) (m : Machine W) (specs : List ChildSpec)
      → (start_one spawner spec m).0 ≡ ok tt
      → All (λ s. HasSlot m.view.children s.name) specs
      → All (λ s. HasSlot (start_one spawner spec m).1.view.children s.name) specs
  keeps_slots spec m specs q = All-map _ _ (λ s. keeps_slot spec m s.name q) specs

  pub start_one-names :
      (spec : ChildSpec) (m : Machine W)
      → names (start_one spawner spec m).1.view.children ≡ names m.view.children
  start_one-names spec m =
      let same = names-update_first to_starting (λ c. refl) (named spec.name) m.view.children in
      elim (start_one-cases spec m) [
        | inl (e, w, r) ↦ rw r same
        | inr (pid, w, r) ↦
            rw r (names-update_first (to_running pid) (λ c. refl) (named spec.name) _ ∙ same)
      ]

  -- Starts keep the names, those that fail included.
  pub start_specs-names :
      (specs : List ChildSpec) (m : Machine W)
      → names (start_specs spawner specs m).1.view.children ≡ names m.view.children
  unfolding start_specs
  start_specs-names [] m = refl
  start_specs-names (spec ∷ specs) m = elim (Result-cases (start_one spawner spec m).0) [
    | inr (e, r) ↦ rw (r, start_specs) (start_one-names spec m)
    | inl (u, r) ↦
        rw (r, start_specs)
          (start_specs-names specs (start_one spawner spec m).1 ∙ start_one-names spec m)
  ]
