-- ===== src/Ready/Clock/Digits.antt =====
-- The zero-padded numbers of the timestamp, and how they are read back.
use wintermute_platform.Prelude.{
  ℕ, zero, suc, ◌+◌, ◌-◌, ◌*◌, ◌/◌, ◌%◌, ◌^◌, ◌≤◌, ◌<◌, true, ◌&&◌, [], ◌∷◌, ◌++◌, Option, none,
  some, Text, show, digits_from, length, ltb, leb, Bool-cases, if◌then◌else◌, ◌≡◌, refl, sym, ap,
  ◌⊎◌, ◌∙◌, inl, inr, arith,
}
use mathlib.Core.List.{append-nil, append_assoc}
use wintermute_platform.Ready.Clock.{zeros, padded}

-- The last `w` decimal digits of a number.
unfoldable pub fixed : ℕ → ℕ → Text
fixed zero n = []
fixed (suc w) n = fixed w (n / 10) ++ (48 + n % 10) ∷ []

-- A number of `w` digits, after the number `acc`, and the text that follows.
unfoldable pub number : ℕ → ℕ → Text → Option (ℕ × Text)
number zero acc s = some (acc, s)
number (suc w) acc [] = none
number (suc w) acc (c ∷ s) =
    let rest = number w (acc * 10 + (c - 48)) s in if leb 48 c && leb c 57 then rest else none

Nat-cases : (n : ℕ) → (n ≡ 0) ⊎ ((k : ℕ) × (n ≡ suc k))
Nat-cases zero = inl refl
Nat-cases (suc k) = inr (k, refl)

number-fixed :
    (w k n : ℕ) (rest : Text) → n < 10 ^ w → number (w + k) 0 (fixed w n ++ rest) ≡ number k n rest
unfolding number fixed
number-fixed zero k n rest h =
    let none_left : n ≡ 0 = omega arith in rw none_left (ap (λ j. number j 0 rest) (omega arith))
number-fixed (suc w) k n rest h =
    let more : suc w + k ≡ w + suc k = omega arith in
    let value : (n / 10) * 10 + n % 10 ≡ n = omega arith in
    let digit : (leb 48 (48 + n % 10) && leb (48 + n % 10) 57) ≡ true = ground arith in
    let shown : 48 + n % 10 - 48 ≡ n % 10 = omega arith in
    ap (λ j. number j 0 (fixed (suc w) n ++ rest)) more
    ∙ ap (number (w + suc k) 0) (append_assoc (fixed w (n / 10)) ((48 + n % 10) ∷ []) rest)
    ∙ number-fixed w (suc k) (n / 10) ((48 + n % 10) ∷ rest) (omega arith)
    ∙ rw (digit, shown, value) refl

zeros-snoc : (w : ℕ) (s : Text) → zeros w ++ 48 ∷ s ≡ zeros (suc w) ++ s
unfolding zeros
zeros-snoc zero s = refl
zeros-snoc (suc w) s = ap (λ r. 48 ∷ r) (zeros-snoc w s)

fixed-zero : (w : ℕ) → fixed w 0 ≡ zeros w
unfolding fixed zeros
fixed-zero zero = refl
fixed-zero (suc w) =
    ap (λ s. s ++ 48 ∷ []) (fixed-zero w) ∙ zeros-snoc w [] ∙ append-nil (zeros (suc w))

one_digit : (w n : ℕ) (acc : Text) → n < 10 → zeros w ++ (48 + n) ∷ acc ≡ fixed (suc w) n ++ acc
unfolding fixed
one_digit w n acc h =
    let none_left : n / 10 ≡ 0 = omega (arith, h) in
    let last : n % 10 ≡ n = omega (arith, h) in
    rw (none_left, last, fixed-zero w) (sym (append_assoc (zeros w) ((48 + n) ∷ []) acc))

digits_from-fixed :
    (fuel w n : ℕ) (acc : Text)
    → n < fuel
    → n < 10 ^ suc w
    → zeros (suc w + length acc - length (digits_from fuel n acc)) ++ digits_from fuel n acc
      ≡ fixed (suc w) n ++ acc
unfolding digits_from fixed
digits_from-fixed zero w n acc f h = absurd (omega (arith, f))
digits_from-fixed (suc fuel) w n acc f h = elim (Bool-cases (ltb n 10)) [
  | inl e ↦
      let width : suc w + length acc - suc (length acc) ≡ w = omega arith in
      rw (e, digits_from, width) (one_digit w n acc (ground (arith, e)))
  | inr e ↦ elim (Nat-cases w) [
    | inl z ↦ absurd (ground (arith, e, h, z))
    | inr (v, z) ↦
        let d = 48 + n % 10 in
        let rest = digits_from fuel (n / 10) (d ∷ acc) in
        let big : 10 ≤ n = ground (arith, e) in
        let less : n < 10 ^ suc (suc v) = ground (arith, h, z) in
        rw (e, digits_from, z)
          (ap (λ k. zeros (k - length rest) ++ rest) (omega arith)
            ∙ digits_from-fixed fuel v (n / 10) (d ∷ acc) (omega (arith, f, big))
                (omega (arith, less))
            ∙ sym (append_assoc (fixed (suc v) (n / 10)) (d ∷ []) acc))
  ]
]

-- `{:0w}` of a number that fits is its last `w` digits.
pub padded-fixed : (w n : ℕ) → n < 10 ^ suc w → padded (suc w) n ≡ fixed (suc w) n
unfolding padded show
padded-fixed w n h =
    ap (λ k. zeros (k - length (show n)) ++ show n) (omega arith)
    ∙ digits_from-fixed (suc n) w n [] (omega arith) h
    ∙ append-nil (fixed (suc w) n)

-- A padded number is read back from the front of a text.
pub number-padded :
    (w n : ℕ) (rest : Text)
    → n < 10 ^ suc w
    → number (suc w) 0 (padded (suc w) n ++ rest) ≡ some (n, rest)
unfolding number
number-padded w n rest h =
    ap (λ s. number (suc w) 0 (s ++ rest)) (padded-fixed w n h)
    ∙ ap (λ j. number j 0 (fixed (suc w) n ++ rest)) (let e : suc w ≡ suc w + 0 = omega arith in e)
    ∙ number-fixed (suc w) 0 n rest h
