-- ===== src/Supervisor/Starting.antt =====
-- `start_specs`: what a successful start leaves, and what a failed one leaves for good.
use wintermute_platform.Supervisor.Lifecycle.{
  observer_run-PassMove, PassMove-name, PassMove, is_observed,
}
use wintermute_platform.Platform.{ChildSpec}
use wintermute_platform.Supervisor.{observer_run, start_specs, to_starting, Machine, start_one}
use wintermute_platform.Protocol.{ChildState}
use wintermute_platform.Spawn.{Spawner}
use wintermute_platform.Prelude.{
  Result, false, arith, All, Result-cases, text_eq_refl, Error, Text, List, [], ◌∷◌, ◌++◌, refl,
  sym, ap, inl, inr, ◌≡◌, ◌∙◌, some, ok, err, ℕ, subst,
}
use wintermute_platform.Supervisor.Launching.{
  keeps_slots, start_one-cases, launches, keeps_IsLaunched, IsLaunched, HasSlot,
}
use wintermute_platform.Supervisor.Slots.{
  Pairs-slot_forward, slot-update_first, IsDistinct, map_slot, slot, names,
}

module _ {W : Type 0} (spawner : Spawner W) where
  -- What was launched stays launched while the remaining starts succeed.
  start_specs-keeps :
      (specs : List ChildSpec) (m : Machine W) (n : Text)
      → (start_specs spawner specs m).0 ≡ ok tt
      → IsLaunched m.view.children n
      → IsLaunched (start_specs spawner specs m).1.view.children n
  unfolding start_specs
  start_specs-keeps [] m n q h = h
  start_specs-keeps (spec ∷ specs) m n q h = elim (Result-cases (start_one spawner spec m).0) [
    | inr (e, r) ↦ absurd (ground (arith, r))
    | inl (u, r) ↦
        rw (r, start_specs)
          (start_specs-keeps specs (start_one spawner spec m).1 n (ground (arith, r))
            (keeps_IsLaunched spawner spec m n r h))
  ]

  start_specs-ok :
      (spec : ChildSpec) (specs : List ChildSpec) (m : Machine W) {u : Unit {0}}
      → (start_one spawner spec m).0 ≡ ok u
      → start_specs spawner (spec ∷ specs) m
        ≡ start_specs spawner specs (start_one spawner spec m).1
  unfolding start_specs
  start_specs-ok spec specs m r = rw (r, start_specs) refl

  -- If `start_specs` succeeds, and every child that it was given has a slot, each of them is
  -- running with a known PID.
  pub start_specs-IsLaunched :
      (specs : List ChildSpec) (m : Machine W)
      → (start_specs spawner specs m).0 ≡ ok tt
      → All (λ s. HasSlot m.view.children s.name) specs
      → All (λ s. IsLaunched (start_specs spawner specs m).1.view.children s.name) specs
  unfolding start_specs
  start_specs-IsLaunched [] m q h = tt
  start_specs-IsLaunched (spec ∷ specs) m q h = elim (Result-cases (start_one spawner spec m).0) [
    | inr (e, r) ↦ absurd (ground (arith, r))
    | inl (u, r) ↦
        let next = (start_one spawner spec m).1 in
        let end = start_specs-ok spec specs m r in
        let rest = ap (λ (x : Result (Unit {0}) × Machine W). x.0) (sym end) ∙ q in
        subst
          (λ (x : Result (Unit {0}) × Machine W).
            All (λ s. IsLaunched x.1.view.children s.name) (spec ∷ specs))
          (sym end)
          (
            start_specs-keeps specs next spec.name rest (launches spawner spec m r h.0),
            start_specs-IsLaunched specs next rest (keeps_slots spawner spec m specs r h.1),
          )
  ]

  -- The first error ends the run: what came before it is done, and nothing after it.
  start_specs-first_error :
      (before : List ChildSpec) (spec : ChildSpec) (after : List ChildSpec) (m : Machine W)
      (e : Error)
      → (start_specs spawner before m).0 ≡ ok tt
      → (start_one spawner spec (start_specs spawner before m).1).0 ≡ err e
      → start_specs spawner (before ++ spec ∷ after) m
        ≡ (err e, (start_one spawner spec (start_specs spawner before m).1).1)
  unfolding start_specs
  start_specs-first_error [] spec after m e q r = rw (r, start_specs) refl
  start_specs-first_error (first ∷ before) spec after m e q r =
      elim (Result-cases (start_one spawner first m).0) [
        | inr (e', p) ↦ absurd (ground (arith, p))
        | inl (u, p) ↦
            rw (p, start_specs)
              (start_specs-first_error before spec after (start_one spawner first m).1 e
                (ground (arith, p)) (rw (p, start_specs) at r))
      ]

  slot-start_one-err :
      (spec : ChildSpec) (m : Machine W) (e : Error)
      → (start_one spawner spec m).0 ≡ err e
      → slot spec.name (start_one spawner spec m).1.view.children
        ≡ map_slot to_starting (slot spec.name m.view.children)
  slot-start_one-err spec m e q = elim (start_one-cases spawner spec m) [
    | inr (pid, w, r) ↦ absurd (ground (arith, r))
    | inl (e', w, r) ↦ rw r (
        slot-update_first to_starting (λ c. refl) spec.name spec.name m.view.children
        ∙ rw (text_eq_refl spec.name) refl)
  ]

  stays_unobserved :
      (times : List ℕ) (m : Machine W) (n : Text) (c : ChildState)
      → IsDistinct (names m.view.children)
      → slot n m.view.children ≡ some c
      → is_observed c.status ≡ false
      → slot n (observer_run spawner times m).view.children ≡ some c
  stays_unobserved times m n c d at s =
      let (e, after, move) =
        Pairs-slot_forward PassMove PassMove-name n _ _ (observer_run-PassMove spawner times m d) c
          at in
      elim move [ inl p ↦ rw p after | inr p ↦ absurd (ground arith) ]

  -- A child whose start fails in `start_specs` is `Starting` then, and still is after any number of
  -- passes of the observer: it is not started again. The names of the slots are distinct.
  pub failed_start-stays_starting :
      (before : List ChildSpec) (spec : ChildSpec) (after : List ChildSpec) (m : Machine W)
      (e : Error) (c : ChildState) (times : List ℕ)
      → (start_specs spawner before m).0 ≡ ok tt
      → (start_one spawner spec (start_specs spawner before m).1).0 ≡ err e
      → slot spec.name (start_specs spawner before m).1.view.children ≡ some c
      → IsDistinct (names (start_specs spawner (before ++ spec ∷ after) m).1.view.children)
      → slot spec.name
          (observer_run spawner times
            (start_specs spawner (before ++ spec ∷ after) m).1).view.children
        ≡ some (to_starting c)
  failed_start-stays_starting before spec after m e c times q r at d =
      let end = start_specs-first_error before spec after m e q r in
      let begun = (start_specs spawner before m).1 in
      stays_unobserved times _ spec.name (to_starting c) d
        (ap (λ (x : Result (Unit {0}) × Machine W). slot spec.name x.1.view.children) end
          ∙ slot-start_one-err spec begun e r
          ∙ ap (map_slot to_starting) at)
        refl
