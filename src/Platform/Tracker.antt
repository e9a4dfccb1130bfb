-- ===== src/Platform/Tracker.antt =====
-- src/lib.rs, `RestartTracker`: the rolling window of restarts.
pub mod Window
pub mod RateLimit
pub mod Retry
use wintermute_platform.Prelude.{
  ℕ, ◌-◌, Bool, List, [], ◌∷◌, ◌++◌, Option, none, some, ltb, leb, if◌then◌else◌, length,
}
use wintermute_platform.Platform.{
  from_secs, restart_window_secs, restart_storm_threshold, backoff_secs,
}

-- `history` is the deque, its front first.
pub record RestartTracker : Type 0 where
  pub window : ℕ
  pub threshold : ℕ
  pub backoff : ℕ
  pub history : List ℕ

abbrev pub default_tracker : RestartTracker
default_tracker = record {
  window = from_secs restart_window_secs;
  threshold = restart_storm_threshold;
  backoff = from_secs backoff_secs;
  history = [];
}

-- `Instant::checked_sub`
unfoldable pub checked_sub : ℕ → ℕ → Option ℕ
checked_sub now d = if leb d now then some (now - d) else none

-- `while history.front().is_some_and(|&t| t < cutoff) { history.pop_front(); }`
unfoldable pub pop_expired : ℕ → List ℕ → List ℕ
pop_expired cutoff [] = []
pop_expired cutoff (t ∷ ts) =
    let rest = pop_expired cutoff ts in if ltb t cutoff then rest else t ∷ ts

abbrev pub prune : Option ℕ → List ℕ → List ℕ
prune none history = history
prune (some cutoff) history = pop_expired cutoff history

unfoldable pub in_storm : RestartTracker → Bool
in_storm t = leb t.threshold (length t.history)

unfoldable pub restarts_in_window : RestartTracker → ℕ
restarts_in_window t = length t.history

-- `record(now)`: the tracker that it leaves, and the delay before the next start.
unfoldable pub record_at : RestartTracker → ℕ → RestartTracker × ℕ
unfolding checked_sub
record_at t now =
    let history = prune (checked_sub now t.window) t.history ++ now ∷ [] in
    (record t { history = history }, if leb t.threshold (length history) then t.backoff else 0)
