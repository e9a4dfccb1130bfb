-- ===== src/Platform/Tracker/Retry.antt =====
-- How long a storm can hold a child back: the second retry after it is granted.
use wintermute_platform.Prelude.{
  ◌*◌, All-map, length-append, ℕ, ◌+◌, ◌-◌, ◌≤◌, ◌<◌, ◌≡◌, refl, List, [], ◌∷◌, arith, leb, length,
  filter, All,
}
use wintermute_platform.Platform.Tracker.{RestartTracker, record_at}
use wintermute_platform.Platform.Tracker.Window.{
  All-le_mono, IsOrdered, record_at-IsOrdered, IsSorted, history-record_at,
}
use wintermute_platform.Platform.Tracker.RateLimit.{same_settings, count, count-append}

count_none : (a : ℕ) (ts : List ℕ) → All (λ u. u < a) ts → count (leb a) ts ≡ 0
count_none a [] h = refl
count_none a (t ∷ ts) h = ground (arith, h.0, count_none a ts h.1)

-- Of what a filter keeps, no more is at or after `a`.
count-filter-le : (a c : ℕ) (ts : List ℕ) → count (leb a) (filter (leb c) ts) ≤ count (leb a) ts
count-filter-le a c [] = omega arith
count-filter-le a c (t ∷ ts) = ground (arith, count-filter-le a c ts)

filter_later : (a c : ℕ) (ts : List ℕ) → a ≤ c → length (filter (leb c) ts) ≤ count (leb a) ts
filter_later a c [] h = omega arith
filter_later a c (t ∷ ts) h = ground (arith, filter_later a c ts h)

-- A record adds one time at most.
count-record_at-le :
    (a : ℕ) (t : RestartTracker) (now : ℕ)
    → IsSorted t.history
    → count (leb a) (record_at t now).0.history ≤ count (leb a) t.history + 1
count-record_at-le a t now s = rw (history-record_at t now s) (
    ground (
      arith,
      count-append (leb a) (filter (leb (now - t.window)) t.history) (now ∷ []),
      count-filter-le a (now - t.window) t.history,
    ))

no_delay :
    (t : RestartTracker) (now : ℕ)
    → length (record_at t now).0.history < t.threshold
    → (record_at t now).1 ≡ 0
unfolding record_at
no_delay t now h = ground arith

-- A record when at most two of the times before it are in the window.
third-granted :
    (t : RestartTracker) (a now : ℕ)
    → IsSorted t.history
    → count (leb a) t.history ≤ 2
    → a + t.window ≤ now
    → 3 < t.threshold
    → (record_at t now).1 ≡ 0
third-granted t a now s few far h = no_delay t now (
    rw (history-record_at t now s) (
      omega (
        arith,
        length-append (filter (leb (now - t.window)) t.history) (now ∷ []),
        filter_later a (now - t.window) t.history,
      )))

All-lt-le : (a : ℕ) (ts : List ℕ) → All (λ u. u < a) ts → All (λ u. u ≤ a) ts
All-lt-le a ts = All-map (λ u. u < a) (λ u. u ≤ a) (λ u h. omega arith) ts

-- A child whose exit at `a` is recorded after all those before, and whose retries come no sooner
-- than the backoff after each other, is restarted with no delay at the second retry at the latest,
-- if the window is at most twice the backoff and the threshold is more than three.
pub second_retry-granted :
    (t : RestartTracker) (a b c : ℕ)
    → IsSorted t.history
    → All (λ u. u < a) t.history
    → t.window ≤ 2 * t.backoff
    → 3 < t.threshold
    → a + t.backoff ≤ b
    → b + t.backoff ≤ c
    → (record_at (record_at (record_at t a).0 b).0 c).1 ≡ 0
second_retry-granted t a b c s past w h first second =
    let o = record_at-IsOrdered t a (record { sorted = s; past = All-lt-le a t.history past }) in
    let t₁ = (record_at t a).0 in
    let o₁ : IsOrdered t₁ b = record {
      sorted = o.sorted;
      past = All-le_mono a b t₁.history (omega arith) o.past;
    } in
    let o₂ = record_at-IsOrdered t₁ b o₁ in
    let few : count (leb a) (record_at t₁ b).0.history ≤ 2 = omega (
      arith,
      count-record_at-le a t a s,
      count-record_at-le a t₁ b o.sorted,
      count_none a t.history past,
    ) in
    let (w₁, b₁, h₁) = same_settings t a in
    let (w₂, b₂, h₂) = same_settings t₁ b in
    third-granted (record_at t₁ b).0 a c o₂.sorted few (omega (arith, w₁, w₂))
      (omega (arith, h₁, h₂))
