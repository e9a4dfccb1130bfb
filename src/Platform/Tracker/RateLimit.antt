-- ===== src/Platform/Tracker/RateLimit.antt =====
-- The promise behind the storm threshold: how many immediate restarts a tracker can grant.
use wintermute_platform.Prelude.{
  ℕ, ◌+◌, ◌-◌, ◌≤◌, ◌<◌, ◌≡◌, refl, ◌⊎◌, inl, inr, Bool, ◌&&◌, List, [], ◌∷◌, ◌++◌, arith, leb,
  ◌==◌, if◌then◌else◌, length, filter, All, length-filter-le, Bool-cases, leb→le, ◌∙◌,
}
use wintermute_platform.Platform.Tracker.{RestartTracker, pop_expired, record_at}
use wintermute_platform.Platform.Tracker.Window.{IsSorted}

-- `[a, a + w]`
abbrev pub within : ℕ → ℕ → ℕ → Bool
within a w t = leb a t && leb t (a + w)

abbrev pub count : (ℕ → Bool) → List ℕ → ℕ
count p ts = length (filter p ts)

-- The times of a run at which `record` answered with no delay.
unfoldable pub granted : RestartTracker → List ℕ → List ℕ
granted t [] = []
granted t (now ∷ later) =
    let rest = granted (record_at t now).0 later in
    if (record_at t now).1 == 0 then now ∷ rest else rest

pub count-append : (p : ℕ → Bool) (xs ys : List ℕ) → count p (xs ++ ys) ≡ count p xs + count p ys
count-append p [] ys = omega arith
count-append p (x ∷ xs) ys = ground (arith, count-append p xs ys)

count-pop_expired :
    (a c : ℕ) (ts : List ℕ) → c ≤ a → count (leb a) (pop_expired c ts) ≡ count (leb a) ts
unfolding pop_expired
count-pop_expired a c [] h = refl
count-pop_expired a c (t ∷ ts) h = ground (arith, count-pop_expired a c ts h)

-- Nothing at or after `a` is dropped while the run is within `w` of it.
count-record_at :
    (a : ℕ) (t : RestartTracker) (now : ℕ)
    → now ≤ a + t.window
    → count (leb a) (record_at t now).0.history
      ≡ count (leb a) t.history + (if leb a now then 1 else 0)
unfolding record_at
count-record_at a t now h = elim (Bool-cases (leb t.window now)) [
  | inl e ↦ rw e (
      ground (
        arith,
        count-append (leb a) (pop_expired (now - t.window) t.history) (now ∷ []),
        count-pop_expired a (now - t.window) t.history,
      ))
  | inr e ↦ rw e (ground (arith, count-append (leb a) t.history (now ∷ [])))
]

-- A grant leaves fewer than `threshold` times in the window.
pub granted-lt :
    (t : RestartTracker) (now : ℕ)
    → 0 < t.backoff
    → (record_at t now).1 ≡ 0
    → length (record_at t now).0.history < t.threshold
unfolding record_at
granted-lt t now b g = ground arith

pub same_settings :
    (t : RestartTracker) (now : ℕ)
    → ((record_at t now).0.window ≡ t.window)
      × ((record_at t now).0.backoff ≡ t.backoff)
      × ((record_at t now).0.threshold ≡ t.threshold)
unfolding record_at
same_settings t now = (refl, refl, refl)

-- Past the interval nothing is counted.
count_after :
    (a w : ℕ) (t : RestartTracker) (times : List ℕ)
    → All (λ u. a + w < u) times
    → count (within a w) (granted t times) ≡ 0
unfolding granted
count_after a w t [] h = refl
count_after a w t (now ∷ later) h = ground (arith, count_after a w (record_at t now).0 later h.1)

All-lt_mono : (a b : ℕ) (ts : List ℕ) → a < b → All (λ u. b ≤ u) ts → All (λ u. a < u) ts
All-lt_mono a b [] h p = tt
All-lt_mono a b (t ∷ ts) h p = (omega arith, All-lt_mono a b ts h p.1)

count-le-length : (p : ℕ → Bool) (ts : List ℕ) → count p ts ≤ length ts
count-le-length p ts = length-filter-le p ts

module _ (a w : ℕ) where
  grants : RestartTracker → List ℕ → ℕ
  grants t times = count (within a w) (granted t times)

  grants-cons :
      (t : RestartTracker) (now : ℕ) (later : List ℕ)
      → grants t (now ∷ later)
        ≡ (if (record_at t now).1 == 0 && within a w now then 1 else 0)
          + grants (record_at t now).0 later
  unfolding grants granted
  grants-cons t now later = ground arith

  grants-nil : (t : RestartTracker) → grants t [] ≡ 0
  unfolding grants granted
  grants-nil t = refl

  grants_after :
      (t : RestartTracker) (times : List ℕ) → All (λ u. a + w < u) times → grants t times ≡ 0
  unfolding grants
  grants_after t times h = count_after a w t times h

  -- One record inside the interval.
  fit_step :
      (t : RestartTracker) (now : ℕ) (later : List ℕ)
      → t.window ≡ w
      → 0 < t.backoff
      → now ≤ a + w
      → (grants (record_at t now).0 later ≡ 0)
        ⊎ (count (leb a) (record_at t now).0.history + grants (record_at t now).0 later
            < (record_at t now).0.threshold)
      → (grants t (now ∷ later) ≡ 0)
        ⊎ (count (leb a) t.history + grants t (now ∷ later) < t.threshold)
  fit_step t now later e b inside ih = ground (
    arith,
    ih,
    grants-cons t now later,
    count-record_at a t now,
    granted-lt t now b,
    same_settings t now,
    count-le-length (leb a) (record_at t now).0.history,
  )

  -- Either nothing more is granted in the interval, or the grants fit beside what the window holds.
  grants_fit :
      (t : RestartTracker) (times : List ℕ)
      → t.window ≡ w
      → 0 < t.backoff
      → IsSorted times
      → (grants t times ≡ 0) ⊎ (count (leb a) t.history + grants t times < t.threshold)
  grants_fit t [] e b s = inl (grants-nil t)
  grants_fit t (now ∷ later) e b s = elim (Bool-cases (leb now (a + w))) [
    | inl inside ↦
        let (same_window, same_backoff, _) = same_settings t now in
        fit_step t now later e b (leb→le _ _ inside)
          (grants_fit (record_at t now).0 later (same_window ∙ e) (rw same_backoff b) s.1)
    | inr after ↦
        let out : a + w < now = ground arith in
        inl (grants_after t (now ∷ later) (out, All-lt_mono (a + w) now later out s.0))
  ]

-- In every interval as long as the window, a tracker that is asked at times in order grants fewer
-- immediate restarts than its threshold, whatever its history was; its threshold and its backoff
-- are not zero.
pub granted-lt-threshold :
    (t : RestartTracker) (times : List ℕ) (a : ℕ)
    → 0 < t.threshold
    → 0 < t.backoff
    → IsSorted times
    → count (within a t.window) (granted t times) < t.threshold
unfolding grants
granted-lt-threshold t times a h b s = ground (arith, grants_fit a t.window t times refl b s)
