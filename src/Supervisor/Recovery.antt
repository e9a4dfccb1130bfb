-- ===== src/Supervisor/Recovery.antt =====
-- What a pass achieves when no start fails: no child is left exited, every child in backoff has a
-- wake-up time, and an elapsed backoff is retried at once.
use wintermute_platform.Supervisor.Restarting.{restart_one-cases}
use wintermute_platform.Supervisor.Slots.{
  names-update_first, All-update_slot, names, IsDistinct, selected,
}
use wintermute_platform.Spawn.{Spawner}
use wintermute_platform.Supervisor.{
  named, to_backoff, to_restarted, restart_exited, restart_loop, restart_one, exited_names,
  has_elapsed, is_exited, RestartOutcome, Machine, ChildState, clear_expired_backoffs,
}
use wintermute_platform.Prelude.{
  sym, subst, ◌++◌, Result-cases, Bool-cases, All-map, [], ◌∷◌, refl, ◌⊎◌, inl, inr, ◌≡◌, ◌≢◌, ok,
  arith, false, ◌⊎◌, All, ◌≡◌, ◌∷◌, TextMap, List, Text, ℕ,
}

-- The cleared names are those of the elapsed slots.
pub cleared-selected :
    (due : TextMap ℕ) (now : ℕ) (cs : List ChildState)
    → (clear_expired_backoffs due now cs).1 ≡ selected (has_elapsed due now) cs
unfolding clear_expired_backoffs
cleared-selected due now [] = refl
cleared-selected due now (c ∷ cs) = ground (arith, cleared-selected due now cs)

abbrev pub IsElem : {A : Type 0} → A → List A → Type 0
IsElem n [] = ⊥
IsElem n (k ∷ ks) = (n ≡ k) ⊎ IsElem n ks

pub All-elem : {A : Type 0} (P : A → Type 0) (x : A) (ys : List A) → All P ys → IsElem x ys → P x
All-elem P x [] a elem = absurd elem
All-elem P x (y ∷ ys) a (inl e) = subst P (sym e) a.0
All-elem P x (y ∷ ys) a (inr later) = All-elem P x ys a.1 later

-- Each slot is not exited, or its name is still to be restarted.
abbrev NoneExited : List Text → List ChildState → Type 0
NoneExited ns cs = All (λ c. (is_exited c.status ≡ false) ⊎ IsElem c.name ns) cs

weaken_head :
    (k : Text) (ns : List Text) (cs : List ChildState) → NoneExited ns cs → NoneExited (k ∷ ns) cs
weaken_head k ns cs = All-map _ _ (λ c h. elim h [ inl e ↦ inl e | inr e ↦ inr (inr e) ]) cs

exited_elem : (cs : List ChildState) → NoneExited (exited_names cs) cs
unfolding exited_names
exited_elem [] = tt
exited_elem (c ∷ cs) = elim (Bool-cases (is_exited c.status)) [
  | inl e ↦
      let listed : exited_names (c ∷ cs) ≡ c.name ∷ exited_names cs = rw e refl in
      subst (λ ns. NoneExited ns (c ∷ cs)) (sym listed)
        (inr (inl refl), weaken_head c.name (exited_names cs) cs (exited_elem cs))
  | inr e ↦
      let skipped : exited_names (c ∷ cs) ≡ exited_names cs = rw e refl in
      subst (λ ns. NoneExited ns (c ∷ cs)) (sym skipped) (inl e, exited_elem cs)
]

drop_head :
    (c : ChildState) (n : Text) (ns : List Text)
    → c.name ≢ n
    → (is_exited c.status ≡ false) ⊎ IsElem c.name (n ∷ ns)
    → (is_exited c.status ≡ false) ⊎ IsElem c.name ns
drop_head c n ns apart (inl e) = inl e
drop_head c n ns apart (inr (inl e)) = absurd (apart e)
drop_head c n ns apart (inr (inr e)) = inr e

module _ {W : Type 0} (spawner : Spawner W) where
  restart_one-NoneExited :
      (n : Text) (ns : List Text) (now : ℕ) (m : Machine W) (o : RestartOutcome)
      → IsDistinct (names m.view.children)
      → (restart_one spawner n now m).0 ≡ ok o
      → NoneExited (n ∷ ns) m.view.children
      → NoneExited ns (restart_one spawner n now m).1.view.children
  restart_one-NoneExited n ns now m o d q h =
      let miss =
        λ (c : ChildState) (apart : c.name ≢ n)
            (left : (is_exited c.status ≡ false) ⊎ IsElem c.name (n ∷ ns)).
          drop_head c n ns apart left in
      elim (restart_one-cases spawner n now m) [
        | inl (e, w, r) ↦ absurd (ground (arith, r))
        | inr (inl (pid, w, r)) ↦ rw r (
            All-update_slot _ _ n (to_restarted pid) m.view.children d (λ c e k. inl refl)
              (λ c apart left. drop_head c n ns apart left) h)
        | inr (inr (k, r)) ↦ rw r (
            All-update_slot _ _ n (to_backoff k) m.view.children d (λ c e k. inl refl)
              (λ c apart left. drop_head c n ns apart left) h)
      ]

  names-restart_one :
      (n : Text) (now : ℕ) (m : Machine W)
      → names (restart_one spawner n now m).1.view.children ≡ names m.view.children
  names-restart_one n now m = elim (restart_one-cases spawner n now m) [
    | inl (e, w, r) ↦ rw r refl
    | inr (inl (pid, w, r)) ↦
        rw r (names-update_first (to_restarted pid) (λ c. refl) (named n) m.view.children)
    | inr (inr (k, r)) ↦
        rw r (names-update_first (to_backoff k) (λ c. refl) (named n) m.view.children)
  ]

  restart_loop-NoneExited :
      (ns : List Text) (outcomes all : List RestartOutcome) (now : ℕ) (m : Machine W)
      → IsDistinct (names m.view.children)
      → (restart_loop spawner ns outcomes now m).0 ≡ ok all
      → NoneExited ns m.view.children
      → NoneExited [] (restart_loop spawner ns outcomes now m).1.view.children
  unfolding restart_loop
  restart_loop-NoneExited [] outcomes all now m d q h = h
  restart_loop-NoneExited (n ∷ ns) outcomes all now m d q h =
      elim (Result-cases (restart_one spawner n now m).0) [
        | inr (e, r) ↦ absurd (ground (arith, r))
        | inl (o, r) ↦
            rw (r, restart_loop)
              (restart_loop-NoneExited ns (outcomes ++ o ∷ []) all now
                (restart_one spawner n now m).1
                (subst IsDistinct (sym (names-restart_one n now m)) d) (ground (arith, r))
                (restart_one-NoneExited n ns now m o d r h))
      ]

  -- If no start fails, a restart pass leaves no child exited; the names are distinct.
  pub restart_exited-not_exited :
      (now : ℕ) (m : Machine W) (outcomes : List RestartOutcome)
      → IsDistinct (names m.view.children)
      → (restart_exited spawner now m).0 ≡ ok outcomes
      → All (λ c. is_exited c.status ≡ false) (restart_exited spawner now m).1.view.children
  unfolding restart_exited
  restart_exited-not_exited now m outcomes d q =
      All-map _ _ (λ c h. elim h [ inl e ↦ e | inr e ↦ absurd e ]) _
        (restart_loop-NoneExited (exited_names m.view.children) [] outcomes now m d q
          (exited_elem m.view.children))
