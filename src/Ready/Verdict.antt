-- ===== src/Ready/Verdict.antt =====
-- The verdict of the readiness checks: ready, or the first failing check by priority.
use wintermute_platform.Prelude.{
  true, false, List, [], ◌∷◌, all, All, none, some, Text, text_eq, text_eq_refl, if◌then◌else◌,
  Bool-cases, ◌≡◌, refl, ◌⊎◌, inl, inr, arith,
}
use wintermute_platform.Ready.{
  CheckResult, aggregate, worst_of, first_failing, has_failed, check_priority,
}

-- The names that stand before a name in a list.
abbrev pub before : Text → List Text → List Text
before w [] = []
before w (n ∷ ns) = let rest = before w ns in if text_eq n w then [] else n ∷ rest

-- `w` is the name of a failing check, and no check with a name before it in `names` fails.
pub record IsWorst (w : Text) (names : List Text) (checks : List CheckResult) : Type 0 where
  pub fails : has_failed w checks ≡ true
  pub first : All (λ n. has_failed n checks ≡ false) (before w names)

first_failing-IsWorst :
    (checks : List CheckResult)
    → all (λ c. c.is_ok) checks ≡ false
    → (w : Text) × (first_failing checks ≡ some w) × IsWorst w [] checks
unfolding first_failing
first_failing-IsWorst [] h = absurd (ground (arith, h))
first_failing-IsWorst (c ∷ cs) h = elim (Bool-cases c.is_ok) [
  | inr e ↦ (c.name, rw e refl, record { fails = rw (text_eq_refl c.name, e) refl; first = tt })
  | inl e ↦
      let (w, q, worst) = first_failing-IsWorst cs (ground (arith, h, e)) in
      (w, rw e q, record { fails = ground (arith, worst.fails); first = tt })
]

worst_of-IsWorst :
    (names : List Text) (checks : List CheckResult)
    → all (λ c. c.is_ok) checks ≡ false
    → (w : Text) × (worst_of names checks ≡ some w) × IsWorst w names checks
unfolding worst_of
worst_of-IsWorst [] checks h = first_failing-IsWorst checks h
worst_of-IsWorst (n ∷ ns) checks h = elim (Bool-cases (has_failed n checks)) [
  | inl e ↦ (n, rw e refl, record { fails = e; first = rw (text_eq_refl n) tt })
  | inr e ↦
      let (w, q, worst) = worst_of-IsWorst ns checks h in
      (
        w,
        rw e q,
        record {
          fails = worst.fails;
          first = elim (Bool-cases (text_eq n w)) [
            | inl d ↦ rw d tt
            | inr d ↦ rw d (e, worst.first)
          ];
        },
      )
]

all-All :
    (checks : List CheckResult)
    → all (λ c. c.is_ok) checks ≡ true
    → All (λ c. c.is_ok ≡ true) checks
all-All [] h = tt
all-All (c ∷ cs) h = (ground (arith, h), all-All cs (ground (arith, h)))

-- The verdict is ready, with no reason, when all checks pass. Otherwise it is not ready, and its
-- reason is the name of a failing check such that no check of higher priority fails.
pub aggregate-IsWorst :
    (checks : List CheckResult)
    → ((aggregate checks ≡ (true, none)) × All (λ c. c.is_ok ≡ true) checks)
      ⊎ ((w : Text) × (aggregate checks ≡ (false, some w)) × IsWorst w check_priority checks)
unfolding aggregate
aggregate-IsWorst checks = elim (Bool-cases (all (λ c. c.is_ok) checks)) [
  | inl e ↦ inl (rw e refl, all-All checks e)
  | inr e ↦
      let (w, q, worst) = worst_of-IsWorst check_priority checks e in inr (w, rw (e, q) refl, worst)
]
