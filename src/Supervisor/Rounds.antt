-- ===== src/Supervisor/Rounds.antt =====
-- The rounds of the restart loop of src/supervisor.rs one after another, and the slot of one name.
use wintermute_platform.Prelude.{
  ◌++◌, refl, sym, text_eq_refl, ◌∙◌, ok, ℕ, ◌≡◌, ap, ◌≢◌, inl, inr, List, [], ◌∷◌, some, Text, All,
  Result-cases, arith,
}
use wintermute_platform.Protocol.{ChildState}
use wintermute_platform.Spawn.{Spawner}
use wintermute_platform.Supervisor.{
  RestartOutcome, noted, to_backoff, named, with_slot, entered_backoff, restart_one, restart_loop,
  Machine,
}
use wintermute_platform.Supervisor.Slots.{slot-update_first, IsDistinct, slot}
use wintermute_platform.Supervisor.Restarting.{slot-restart_one, restart_loop-ok, restart_one-cases}

-- The names beside one of distinct names.
IsDistinct-apart :
    (xs : List Text) (a : Text) (ys : List Text)
    → IsDistinct (xs ++ a ∷ ys)
    → All (λ k. k ≢ a) xs × All (λ k. k ≢ a) ys
IsDistinct-apart [] a ys d = (tt, d.0)
IsDistinct-apart (x ∷ xs) a ys d =
    let (before, after) = IsDistinct-apart xs a ys d.1 in
    let other = All-middle (λ k. k ≢ x) xs a ys d.0 in (((λ q. other (sym q)), before), after)
  where
    All-middle :
        (P : Text → Type 0) (xs : List Text) (a : Text) (ys : List Text)
        → All P (xs ++ a ∷ ys)
        → P a
    All-middle P [] a ys h = h.0
    All-middle P (x ∷ xs) a ys h = All-middle P xs a ys h.1

module _ {W : Type 0} (spawner : Spawner W) where
  -- Rounds that succeed, and the rounds after them.
  restart_loop-append :
      (before after : List Text) (seen os : List RestartOutcome) (now : ℕ) (m : Machine W)
      → (restart_loop spawner before seen now m).0 ≡ ok os
      → restart_loop spawner (before ++ after) seen now m
        ≡ restart_loop spawner after os now (restart_loop spawner before seen now m).1
  unfolding restart_loop
  restart_loop-append [] after seen os now m h =
      let same : seen ≡ os = ground (arith, h) in
      ap (λ xs. restart_loop spawner after xs now m) same
  restart_loop-append (b ∷ before) after seen os now m h =
      elim (Result-cases (restart_one spawner b now m).0) [
        | inr (e, q) ↦ absurd (ground (arith, h, q))
        | inl (o, q) ↦
            rw (q, restart_loop)
              (restart_loop-append before after (seen ++ o ∷ []) os now
                (restart_one spawner b now m).1 (ground (arith, h, q)))
      ]

  -- Rounds for other names leave a slot alone, whether or not they succeed.
  slot-restart_loop :
      (ns : List Text) (seen : List RestartOutcome) (now : ℕ) (m : Machine W) (n : Text)
      → All (λ k. k ≢ n) ns
      → slot n (restart_loop spawner ns seen now m).1.view.children ≡ slot n m.view.children
  unfolding restart_loop
  slot-restart_loop [] seen now m n apart = refl
  slot-restart_loop (b ∷ ns) seen now m n apart =
      let round = slot-restart_one spawner b now m n (λ q. apart.0 (sym q)) in
      elim (Result-cases (restart_one spawner b now m).0) [
        | inr (e, q) ↦ rw (q, restart_loop) round
        | inl (o, q) ↦
            rw (q, restart_loop)
              (slot-restart_loop ns (seen ++ o ∷ []) now (restart_one spawner b now m).1 n apart.1
                ∙ round)
      ]

  held_view :
      (a : Text) (k now : ℕ) (m : Machine W)
      → (restart_one spawner a now m).0 ≡ ok (entered_backoff a k)
      → (restart_one spawner a now m).1 ≡ with_slot (named a) (to_backoff k) (noted a now m)
  held_view a k now m h = elim (restart_one-cases spawner a now m) [
    | inl (e, w, q) ↦ absurd (ground (arith, q))
    | inr (inl (pid, w, q)) ↦ absurd (ground (arith, q))
    | inr (inr (k', q)) ↦ let same : k' ≡ k = ground (arith, q) in rw q (rw same refl)
  ]

  -- The pass restarts `before`, holds back `a`, and goes on to `rest`.
  pub held_slot :
      (a : Text) (before rest : List Text) (os : List RestartOutcome) (k now : ℕ) (m : Machine W)
      (c : ChildState)
      → IsDistinct (before ++ a ∷ rest)
      → slot a m.view.children ≡ some c
      → (restart_loop spawner before [] now m).0 ≡ ok os
      → (restart_one spawner a now (restart_loop spawner before [] now m).1).0
        ≡ ok (entered_backoff a k)
      → slot a (restart_loop spawner (before ++ a ∷ rest) [] now m).1.view.children
        ≡ some (to_backoff k c)
  held_slot a before rest os k now m c d at done held_a =
      let m₁ = (restart_loop spawner before [] now m).1 in
      let (others, later) = IsDistinct-apart before a rest d in
      let reached = slot-restart_loop before [] now m a others ∙ at in
      let held_at : slot a (restart_one spawner a now m₁).1.view.children ≡ some (to_backoff k c) =
        rw (held_view a k now m₁ held_a) (
          slot-update_first (to_backoff k) (λ x. refl) a a m₁.view.children
          ∙ rw (text_eq_refl a, reached) refl) in
      rw
        (
          restart_loop-append before (a ∷ rest) [] os now m done,
          restart_loop-ok spawner a rest os now m₁ (entered_backoff a k) held_a,
        )
        (slot-restart_loop rest _ now (restart_one spawner a now m₁).1 a later ∙ held_at)
