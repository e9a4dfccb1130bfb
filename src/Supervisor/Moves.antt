-- ===== src/Supervisor/Moves.antt =====
-- The lifecycle of a child: the moves that a phase of a pass may make in its slot.
use wintermute_platform.Prelude.{◌≤◌, some, get, false, ℕ, ◌≡◌, sym, ap, ◌∙◌, true, TextMap, arith}
use wintermute_platform.Protocol.{
  backoff, ChildStatus, running, exited, ChildState, is_running, is_exited,
}
use wintermute_platform.Supervisor.{to_exited, to_restarted, to_backoff, to_retry, has_elapsed}

-- `clear_expired_backoffs`: a child whose wake-up time has come leaves backoff.
pub data ClearMove (due : TextMap ℕ) (now : ℕ) (c d : ChildState) : Type 0 where
  kept : has_elapsed due now c ≡ false → c ≡ d → ClearMove due now c d
  woken :
      (until : ℕ)
      → c.status ≡ backoff
      → get c.name due ≡ some until
      → until ≤ now
      → d ≡ to_retry c
      → ClearMove due now c d

-- `observe_exits`: a running child may be found gone.
pub data ObserveMove (c d : ChildState) : Type 0 where
  kept : c ≡ d → ObserveMove c d
  lost : (pid : ℕ) → c.status ≡ running → d ≡ to_exited pid c → ObserveMove c d

-- `restart_exited`: an exited child is started again, or enters backoff.
pub data RestartMove (c d : ChildState) : Type 0 where
  kept : c ≡ d → RestartMove c d
  restarted : (pid : ℕ) → c.status ≡ exited → d ≡ to_restarted pid c → RestartMove c d
  held : (restarts : ℕ) → c.status ≡ exited → d ≡ to_backoff restarts c → RestartMove c d

pub ClearMove-name :
    (due : TextMap ℕ) (now : ℕ) (c d : ChildState) → ClearMove due now c d → c.name ≡ d.name
ClearMove-name due now c d (ClearMove.kept q e) = ap (λ (x : ChildState). x.name) e
ClearMove-name due now c d (woken until s g l e) = sym (ap (λ (x : ChildState). x.name) e)

pub ObserveMove-name : (c d : ChildState) → ObserveMove c d → c.name ≡ d.name
ObserveMove-name c d (ObserveMove.kept e) = ap (λ (x : ChildState). x.name) e
ObserveMove-name c d (lost pid s e) = sym (ap (λ (x : ChildState). x.name) e)

pub RestartMove-name : (c d : ChildState) → RestartMove c d → c.name ≡ d.name
RestartMove-name c d (RestartMove.kept e) = ap (λ (x : ChildState). x.name) e
RestartMove-name c d (restarted pid s e) = sym (ap (λ (x : ChildState). x.name) e)
RestartMove-name c d (held k s e) = sym (ap (λ (x : ChildState). x.name) e)

pub status_of : (c : ChildState) {d : ChildState} → c ≡ d → c.status ≡ d.status
status_of c e = ap (λ (x : ChildState). x.status) e

pub ObserveMove-trans : (c d e : ChildState) → ObserveMove c d → ObserveMove d e → ObserveMove c e
ObserveMove-trans c d e (ObserveMove.kept p) m = rw p m
ObserveMove-trans c d e (lost pid s p) (ObserveMove.kept q) = lost pid s (sym q ∙ p)
ObserveMove-trans c d e (lost pid s p) (lost pid' s' q) = cc (status_of d p)

pub RestartMove-trans : (c d e : ChildState) → RestartMove c d → RestartMove d e → RestartMove c e
RestartMove-trans c d e (RestartMove.kept p) m = rw p m
RestartMove-trans c d e (restarted pid s p) (RestartMove.kept q) = restarted pid s (sym q ∙ p)
RestartMove-trans c d e (held k s p) (RestartMove.kept q) = held k s (sym q ∙ p)
RestartMove-trans c d e (restarted pid s p) (restarted _ s' q) = cc (status_of d p)
RestartMove-trans c d e (restarted pid s p) (held _ s' q) = cc (status_of d p)
RestartMove-trans c d e (held k s p) (restarted _ s' q) = cc (status_of d p)
RestartMove-trans c d e (held k s p) (held _ s' q) = cc (status_of d p)

pub is_running→≡ : (s : ChildStatus) → is_running s ≡ true → s ≡ running
is_running→≡ s h = ground arith

pub is_exited→≡ : (s : ChildStatus) → is_exited s ≡ true → s ≡ exited
is_exited→≡ s h = ground arith
