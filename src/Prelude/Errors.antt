-- ===== src/Prelude/Errors.antt =====
-- Fallible calls that act on the world: `anyhow::Result` and its contexts.
use mathlib.Core.Path.{◌≡◌, refl}
use mathlib.Core.Logic.{◌⊎◌, inl, inr}
use mathlib.Core.List.{List, ◌∷◌}
use wintermute_platform.Prelude.Str.{Text}

-- The chain of messages of an error, the outermost context first.
abbrev pub Error : Type 0
Error = List Text

pub data Result {ℓ} (A : Type ℓ) : Type ℓ where
  ok : A → Result A
  err : Error → Result A

-- `.with_context(|| message)?`
abbrev pub with_context {ℓ} : {A : Type ℓ} → Text → Result A → Result A
with_context m (ok a) = ok a
with_context m (err e) = err (m ∷ e)

-- `std::fs::read_to_string`: the contents, `ErrorKind::NotFound`, or another error as it displays.
pub data FileRead : Type 0 where
  contents : Text → FileRead
  not_found : FileRead
  failed : Text → FileRead

pub Result-cases {ℓ} :
    {A : Type ℓ} (r : Result A) → ((a : A) × (r ≡ ok a)) ⊎ ((e : Error) × (r ≡ err e))
Result-cases (ok a) = inl (a, refl)
Result-cases (err e) = inr (e, refl)
