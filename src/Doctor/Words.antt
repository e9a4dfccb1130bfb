-- ===== src/Doctor/Words.antt =====
-- Words in a line, and what follows them: `trim` and `split_whitespace`.
use wintermute_platform.Doctor.Discovery.{head_or_empty, first_word}
use mathlib.Core.List.{append_assoc, append-nil}
use mathlib.Core.Bool.{true≢false}
use wintermute_platform.Prelude.{
  sym, ℕ, Bool, true, false, not, [], ◌∷◌, ◌++◌, all, Text, is_whitespace, is_empty, trim_end,
  words_from, split_whitespace, Bool-cases, ◌≡◌, refl, ◌⊎◌, inl, inr, sym, ap, ◌∙◌, arith,
}

-- No character is white space.
abbrev pub is_word : Text → Bool
is_word w = all (λ c. not (is_whitespace c)) w

-- Nothing, or a text that begins with white space.
abbrev pub IsBreak : Text → Type 0
IsBreak t = (t ≡ []) ⊎ ((c : ℕ) × (s : Text) × (t ≡ c ∷ s) × (is_whitespace c ≡ true))

plain_head : (c : ℕ) (w : Text) → is_word (c ∷ w) ≡ true → is_whitespace c ≡ false
plain_head c w h = elim (Bool-cases (is_whitespace c)) [
  | inl e ↦ absurd (true≢false (sym h ∙ rw e refl))
  | inr e ↦ e
]

word_tail : (c : ℕ) (w : Text) → is_word (c ∷ w) ≡ true → is_word w ≡ true
word_tail c w h = sym (rw (plain_head c w h) refl) ∙ h

trim_end-plain : (c : ℕ) (s : Text) → is_whitespace c ≡ false → trim_end (c ∷ s) ≡ c ∷ trim_end s
unfolding trim_end
trim_end-plain c s h = elim (Bool-cases (is_empty (trim_end s))) [
  | inl e ↦ rw (e, h) refl
  | inr e ↦ rw e refl
]

pub trim_end-append : (w t : Text) → is_word w ≡ true → trim_end (w ++ t) ≡ w ++ trim_end t
trim_end-append [] t h = refl
trim_end-append (c ∷ w) t h =
    trim_end-plain c (w ++ t) (plain_head c w h)
    ∙ ap (λ s. c ∷ s) (trim_end-append w t (word_tail c w h))

pub trim_end-IsBreak : (t : Text) → IsBreak t → IsBreak (trim_end t)
unfolding trim_end
trim_end-IsBreak t (inl e) = rw e (inl refl)
trim_end-IsBreak t (inr (c, s, e, h)) = rw e (elim (Bool-cases (is_empty (trim_end s))) [
  | inl k ↦ rw (k, h) (inl refl)
  | inr k ↦ rw k (inr (c, trim_end s, refl, h))
])

words_from-append :
    (acc w t : Text) → is_word w ≡ true → words_from acc (w ++ t) ≡ words_from (acc ++ w) t
unfolding words_from
words_from-append acc [] t h = ap (λ a. words_from a t) (sym (append-nil acc))
words_from-append acc (c ∷ w) t h =
    let plain : is_whitespace c ≡ false = ground (arith, h) in
    rw plain (
      words_from-append (acc ++ c ∷ []) w t (ground (arith, h))
      ∙ ap (λ a. words_from a t) (append_assoc acc (c ∷ []) w))

-- The first word of a line that begins with one.
pub first_word-append :
    (c : ℕ) (w t : Text) → is_word (c ∷ w) ≡ true → IsBreak t → first_word (c ∷ w ++ t) ≡ c ∷ w
unfolding first_word split_whitespace words_from
first_word-append c w t h (inl e) = rw e (ap head_or_empty (words_from-append [] (c ∷ w) [] h))
first_word-append c w t h (inr (d, s, e, k)) =
    rw e (ap head_or_empty (words_from-append [] (c ∷ w) (d ∷ s) h) ∙ rw k refl)
