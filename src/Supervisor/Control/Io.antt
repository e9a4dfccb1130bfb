-- ===== src/Supervisor/Control/Io.antt =====
-- Fallible calls that act on the world: `?` and `with_context` on them.
use wintermute_platform.Prelude.{Text, Result, ok, err, with_context}

abbrev pub Io : Type 0 → Type 0 → Type 0
Io W A = W → Result A × W

infixl 5 ◌>>=◌
abbrev pub ◌>>=◌ : {W A B : Type 0} → Io W A → (A → Io W B) → Io W B
(m >>= f) w = let (r, w') = m w in elim r [ ok a ↦ f a w' | err e ↦ (err e, w') ]

abbrev pub in_context : {W A : Type 0} → Text → Io W A → Io W A
in_context message m w = let (r, w') = m w in (with_context message r, w')

abbrev pub pure_result : {W A : Type 0} → Result A → Io W A
pure_result r w = (r, w)

-- `.ok()`: the result is dropped.
abbrev pub ignoring : {W : Type 0} → Io W (Unit {0}) → Io W (Unit {0})
ignoring m w = (ok tt, (m w).1)
