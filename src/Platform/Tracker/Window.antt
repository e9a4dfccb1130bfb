-- ===== src/Platform/Tracker/Window.antt =====
-- What the window holds: the loop over the deque against a filter of all the times.
use wintermute_platform.Prelude.{
  ℕ, ◌-◌, ◌≤◌, ◌≡◌, refl, sym, ap, ◌∙◌, List, [], ◌∷◌, ◌++◌, arith, leb, filter, All, All-append,
  inl, inr, Bool-cases,
}
use mathlib.Core.List.{append-nil, append_assoc}
use wintermute_platform.Platform.Tracker.{RestartTracker, pop_expired, record_at}

-- Times that do not fall along the list.
abbrev pub IsSorted : List ℕ → Type 0
IsSorted [] = Unit
IsSorted (t ∷ ts) = All (λ u. t ≤ u) ts × IsSorted ts

filter_above : (c t : ℕ) (ts : List ℕ) → c ≤ t → All (λ u. t ≤ u) ts → filter (leb c) ts ≡ ts
filter_above c t [] h a = refl
filter_above c t (u ∷ ts) h a = ground (arith, filter_above c t ts h a.1)

pub pop_expired-eq-filter :
    (cutoff : ℕ) (ts : List ℕ) → IsSorted ts → pop_expired cutoff ts ≡ filter (leb cutoff) ts
unfolding pop_expired
pop_expired-eq-filter cutoff [] s = refl
pop_expired-eq-filter cutoff (t ∷ ts) s =
    ground (arith, pop_expired-eq-filter cutoff ts s.1, filter_above cutoff t ts)

filter_zero : (ts : List ℕ) → filter (leb 0) ts ≡ ts
filter_zero [] = refl
filter_zero (t ∷ ts) = ground (arith, filter_zero ts)

-- Of a history in order, a record at `now` keeps the times of the last `window`, and adds `now`.
pub history-record_at :
    (t : RestartTracker) (now : ℕ)
    → IsSorted t.history
    → (record_at t now).0.history ≡ filter (leb (now - t.window)) t.history ++ now ∷ []
unfolding record_at
history-record_at t now s = elim (Bool-cases (leb t.window now)) [
  | inl e ↦ rw e (rw (pop_expired-eq-filter (now - t.window) t.history s))
  | inr e ↦
      rw e (let gone : now - t.window ≡ 0 = ground arith in rw gone (rw (filter_zero t.history)))
]

All-le-append :
    (t now : ℕ) (ts : List ℕ) → All (λ u. t ≤ u) ts → t ≤ now → All (λ u. t ≤ u) (ts ++ now ∷ [])
All-le-append t now ts a h = All-append (λ u. t ≤ u) ts (now ∷ []) a (h, tt)

pub IsSorted-snoc :
    (ts : List ℕ) (now : ℕ) → IsSorted ts → All (λ u. u ≤ now) ts → IsSorted (ts ++ now ∷ [])
IsSorted-snoc [] now s a = (tt, tt)
IsSorted-snoc (t ∷ ts) now s a = (All-le-append t now ts s.0 a.0, IsSorted-snoc ts now s.1 a.1)

All-filter : (P : ℕ → Type 0) (c : ℕ) (ts : List ℕ) → All P ts → All P (filter (leb c) ts)
All-filter P c [] a = tt
All-filter P c (t ∷ ts) a = elim (Bool-cases (leb c t)) [
  | inl e ↦ rw e (a.0, All-filter P c ts a.1)
  | inr e ↦ rw e (All-filter P c ts a.1)
]

IsSorted-filter : (c : ℕ) (ts : List ℕ) → IsSorted ts → IsSorted (filter (leb c) ts)
IsSorted-filter c [] s = tt
IsSorted-filter c (t ∷ ts) s = elim (Bool-cases (leb c t)) [
  | inl e ↦ rw e (All-filter (λ u. t ≤ u) c ts s.0, IsSorted-filter c ts s.1)
  | inr e ↦ rw e (IsSorted-filter c ts s.1)
]

-- Every time recorded so far is at or before `now`, in the order of the records.
pub record IsOrdered (t : RestartTracker) (now : ℕ) : Type 0 where
  pub sorted : IsSorted t.history
  pub past : All (λ u. u ≤ now) t.history

pub record_at-IsOrdered :
    (t : RestartTracker) (now : ℕ) → IsOrdered t now → IsOrdered (record_at t now).0 now
record_at-IsOrdered t now o =
    let kept = filter (leb (now - t.window)) t.history in
    let past : All (λ u. u ≤ now) kept = All-filter (λ u. u ≤ now) _ t.history o.past in
    record {
      sorted =
          rw (history-record_at t now o.sorted)
            (IsSorted-snoc kept now (IsSorted-filter _ t.history o.sorted) past);
      past =
          rw (history-record_at t now o.sorted)
            (All-append (λ u. u ≤ now) kept (now ∷ []) past (omega arith, tt));
    }

-- The records of a whole run.
pub record_all : RestartTracker → List ℕ → RestartTracker
record_all t [] = t
record_all t (now ∷ later) = record_all (record_at t now).0 later

window-record_all : (t : RestartTracker) (times : List ℕ) → (record_all t times).window ≡ t.window
unfolding record_all record_at
window-record_all t [] = refl
window-record_all t (now ∷ later) = window-record_all (record_at t now).0 later

filter-append :
    (c : ℕ) (xs ys : List ℕ) → filter (leb c) (xs ++ ys) ≡ filter (leb c) xs ++ filter (leb c) ys
filter-append c [] ys = refl
filter-append c (x ∷ xs) ys = ground (arith, filter-append c xs ys)

filter-filter :
    (b c : ℕ) (xs : List ℕ) → b ≤ c → filter (leb c) (filter (leb b) xs) ≡ filter (leb c) xs
filter-filter b c [] h = refl
filter-filter b c (x ∷ xs) h = ground (arith, filter-filter b c xs h)

filter_self : (w now : ℕ) → filter (leb (now - w)) (now ∷ []) ≡ now ∷ []
filter_self w now = ground arith

pub last_of : ℕ → List ℕ → ℕ
last_of now [] = now
last_of now (t ∷ ts) = last_of t ts

pub All-le_mono : (a b : ℕ) (ts : List ℕ) → a ≤ b → All (λ u. u ≤ a) ts → All (λ u. u ≤ b) ts
All-le_mono a b [] h p = tt
All-le_mono a b (t ∷ ts) h p = (omega arith, All-le_mono a b ts h p.1)

-- One record on a history that is the window of a longer list of times.
history-record_at_from :
    (t : RestartTracker) (base : List ℕ) (now next : ℕ)
    → t.history ≡ filter (leb (now - t.window)) base
    → IsSorted t.history
    → now ≤ next
    → (record_at t next).0.history ≡ filter (leb (next - t.window)) (base ++ next ∷ [])
history-record_at_from t base now next e s h =
    rw (filter-append (next - t.window) base (next ∷ []), filter_self t.window next)
      (history-record_at t next s
        ∙ ap (λ ts. ts ++ next ∷ [])
            (ap (filter (leb (next - t.window))) e
              ∙ filter-filter (now - t.window) (next - t.window) base (omega arith)))

-- The window after a run from any ordered history: its times and the run's, as far back as `window`
-- from the last one.
history-record_all_from :
    (t : RestartTracker) (base : List ℕ) (now : ℕ) (times : List ℕ)
    → t.history ≡ filter (leb (now - t.window)) base
    → IsSorted t.history
    → All (λ u. u ≤ now) t.history
    → IsSorted (now ∷ times)
    → (record_all t times).history ≡ filter (leb (last_of now times - t.window)) (base ++ times)
unfolding record_all last_of record_at
history-record_all_from t base now [] e s p h = rw append-nil e
history-record_all_from t base now (next ∷ later) e s p h =
    let o : IsOrdered t next = record {
      sorted = s;
      past = All-le_mono now next t.history h.0.0 p;
    } in
    let o' = record_at-IsOrdered t next o in
    history-record_all_from (record_at t next).0 (base ++ next ∷ []) next later
      (history-record_at_from t base now next e s h.0.0) o'.sorted o'.past h.1
    ∙ ap (λ ts. filter (leb (last_of next later - t.window)) ts) (append_assoc base _ later)

-- From an empty history, after records at times in order, the window holds exactly the recorded
-- times of the last `window`, counted back from the last of them.
pub history-record_all :
    (t : RestartTracker) (now : ℕ) (times : List ℕ)
    → t.history ≡ []
    → IsSorted (now ∷ times)
    → (record_all t (now ∷ times)).history
      ≡ filter (leb (last_of now times - t.window)) (now ∷ times)
unfolding record_all record_at
history-record_all t now times e h =
    let o : IsOrdered t now = record { sorted = rw e tt; past = rw e tt } in
    let o' = record_at-IsOrdered t now o in
    history-record_all_from (record_at t now).0 (now ∷ []) now times
      (history-record_at t now o.sorted ∙ rw e (sym (filter_self t.window now))) o'.sorted o'.past h
