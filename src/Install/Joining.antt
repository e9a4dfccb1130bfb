-- ===== src/Install/Joining.antt =====
-- The lines of a text, and the text that they are joined to again.
use wintermute_platform.Ready.{is_empty_list}
use mathlib.Core.List.{append_assoc, append-nil}
use wintermute_platform.Prelude.{
  ==_iff, ℕ, ◌==◌, false, List, [], ◌∷◌, ◌++◌, Text, text, lines, join, onto_first, contains_char,
  is_empty, Bool-cases, All, ◌≡◌, refl, sym, ap, ◌∙◌, inl, inr, arith,
}
use wintermute_platform.Install.{true, ends_in_newline}

-- A line without a line feed and a carriage return.
abbrev pub IsClean : Text → Type 0
IsClean l = (contains_char 10 l ≡ false) × (contains_char 13 l ≡ false)

abbrev pub LastNonempty : List Text → Type 0
LastNonempty [] = Unit
LastNonempty (l ∷ []) = is_empty l ≡ false
LastNonempty (l ∷ m ∷ ls) = LastNonempty (m ∷ ls)

pub IsClean-parts :
    (c : ℕ) (l : Text) → IsClean (c ∷ l) → ((c == 10) ≡ false) × ((c == 13) ≡ false) × IsClean l
unfolding contains_char
IsClean-parts c l h = ground (arith, h.0, h.1)

IsClean-cons :
    (c : ℕ) (l : Text) → (c == 10) ≡ false → (c == 13) ≡ false → IsClean l → IsClean (c ∷ l)
unfolding contains_char
IsClean-cons c l e f h = ground (arith, e, f, h.0, h.1)

lines-feed : (s : Text) → lines (10 ∷ s) ≡ [] ∷ lines s
unfolding lines
lines-feed s = refl

lines-other :
    (c : ℕ) (s : Text)
    → (c == 10) ≡ false
    → (c == 13) ≡ false
    → lines (c ∷ s) ≡ onto_first c (lines s)
unfolding lines
lines-other c s e f = rw (e, f, lines) refl

onto_first-IsClean :
    (c : ℕ) (ls : List Text)
    → (c == 10) ≡ false
    → (c == 13) ≡ false
    → All IsClean ls
    → All IsClean (onto_first c ls)
unfolding contains_char
onto_first-IsClean c [] e f h = (IsClean-cons c [] e f (refl, refl), tt)
onto_first-IsClean c (l ∷ ls) e f h = (IsClean-cons c l e f h.0, h.1)

-- The lines of a text without a carriage return.
pub lines-IsClean : (s : Text) → contains_char 13 s ≡ false → All IsClean (lines s)
unfolding contains_char lines
lines-IsClean [] h = tt
lines-IsClean (c ∷ s) h =
    let no_return : (c == 13) ≡ false = ground (arith, h) in
    let rest = lines-IsClean s (ground (arith, h)) in
    elim (Bool-cases (c == 10)) [
      | inl e ↦ rw (e, lines) ((refl, refl), rest)
      | inr e ↦ rw (lines-other c s e no_return) (onto_first-IsClean c (lines s) e no_return rest)
    ]

onto_first-LastNonempty :
    (c : ℕ) (ls : List Text) → LastNonempty ls → LastNonempty (onto_first c ls)
onto_first-LastNonempty c [] h = refl
onto_first-LastNonempty c (l ∷ []) h = refl
onto_first-LastNonempty c (l ∷ m ∷ ls) h = h

feed-LastNonempty :
    (ls : List Text) → is_empty_list ls ≡ false → LastNonempty ls → LastNonempty ([] ∷ ls)
feed-LastNonempty [] e h = cc
feed-LastNonempty (l ∷ ls) e h = h

onto_first-nonempty : (c : ℕ) (ls : List Text) → is_empty_list (onto_first c ls) ≡ false
onto_first-nonempty c [] = refl
onto_first-nonempty c (l ∷ ls) = refl

pub lines-nonempty : (c : ℕ) (s : Text) → (c == 13) ≡ false → is_empty_list (lines (c ∷ s)) ≡ false
lines-nonempty c s f = elim (Bool-cases (c == 10)) [
  | inl e ↦ let feed : c ≡ 10 = (==_iff c 10).0 e in rw (feed, lines-feed s) refl
  | inr e ↦ rw (lines-other c s e f) (onto_first-nonempty c (lines s))
]

list_parts :
    (ls : List Text) → is_empty_list ls ≡ false → (l : Text) × (rest : List Text) × (ls ≡ l ∷ rest)
list_parts [] h = cc
list_parts (l ∷ rest) h = (l, rest, refl)

-- A text that ends in a line feed has a line.
pub lines-cons :
    (s : Text)
    → contains_char 13 s ≡ false
    → ends_in_newline s ≡ true
    → (l : Text) × (rest : List Text) × (lines s ≡ l ∷ rest)
unfolding contains_char
lines-cons [] h e = cc
lines-cons (c ∷ s) h e = list_parts (lines (c ∷ s)) (lines-nonempty c s (ground (arith, h)))

pub lines-LastNonempty :
    (s : Text) → contains_char 13 s ≡ false → ends_in_newline s ≡ false → LastNonempty (lines s)
unfolding contains_char lines
lines-LastNonempty [] h e = tt
lines-LastNonempty (c ∷ []) h e = rw (lines-other c [] e (ground (arith, h))) refl
lines-LastNonempty (c ∷ d ∷ s) h e =
    let rest = lines-LastNonempty (d ∷ s) (ground (arith, h)) e in
    elim (Bool-cases (c == 10)) [
      | inl q ↦
          let feed : c ≡ 10 = (==_iff c 10).0 q in
          rw (feed, lines-feed (d ∷ s))
            (feed-LastNonempty (lines (d ∷ s)) (lines-nonempty d s (ground (arith, h))) rest)
      | inr q ↦
          rw (lines-other c (d ∷ s) q (ground (arith, h)))
            (onto_first-LastNonempty c (lines (d ∷ s)) rest)
    ]

-- Lines, joined again.
lines-append : (l s : Text) → IsClean l → lines (l ++ 10 ∷ s) ≡ l ∷ lines s
lines-append [] s h = lines-feed s
lines-append (c ∷ l) s h =
    let (no_feed, no_return, rest) = IsClean-parts c l h in
    lines-other c (l ++ 10 ∷ s) no_feed no_return ∙ ap (onto_first c) (lines-append l s rest)

lines-single : (l : Text) → IsClean l → is_empty l ≡ false → lines l ≡ l ∷ []
unfolding lines
lines-single [] h n = cc
lines-single (c ∷ []) h n =
    let (no_feed, no_return, rest) = IsClean-parts c [] h in lines-other c [] no_feed no_return
lines-single (c ∷ d ∷ l) h n =
    let (no_feed, no_return, rest) = IsClean-parts c (d ∷ l) h in
    lines-other c (d ∷ l) no_feed no_return ∙ ap (onto_first c) (lines-single (d ∷ l) rest refl)

join-cons :
    (l m : Text) (ls : List Text) (s : Text)
    → join (text "\n") (l ∷ m ∷ ls) ++ s ≡ l ++ 10 ∷ (join (text "\n") (m ∷ ls) ++ s)
unfolding join
join-cons l m ls s = simp append_assoc

pub lines-terminated :
    (l : Text) (ls : List Text)
    → All IsClean (l ∷ ls)
    → lines (join (text "\n") (l ∷ ls) ++ text "\n") ≡ l ∷ ls
unfolding join lines
lines-terminated l [] h = lines-append l [] h.0
lines-terminated l (m ∷ ls) h =
    ap lines (join-cons l m ls (text "\n"))
    ∙ lines-append l (join (text "\n") (m ∷ ls) ++ text "\n") h.0
    ∙ ap (λ r. l ∷ r) (lines-terminated m ls h.1)

pub lines-open :
    (ls : List Text) → All IsClean ls → LastNonempty ls → lines (join (text "\n") ls) ≡ ls
unfolding lines join
lines-open [] h n = refl
lines-open (l ∷ []) h n = lines-single l h.0 n
lines-open (l ∷ m ∷ ls) h n =
    ap lines (sym (append-nil (join (text "\n") (l ∷ m ∷ ls))))
    ∙ ap lines (join-cons l m ls [])
    ∙ lines-append l (join (text "\n") (m ∷ ls) ++ []) h.0
    ∙ ap (λ r. l ∷ lines r) (append-nil (join (text "\n") (m ∷ ls)))
    ∙ ap (λ r. l ∷ r) (lines-open (m ∷ ls) h.1 n)

-- How the joined text ends.
pub ends_in_newline-feed : (s : Text) → ends_in_newline (s ++ text "\n") ≡ true
ends_in_newline-feed [] = refl
ends_in_newline-feed (c ∷ []) = refl
ends_in_newline-feed (c ∷ d ∷ s) = ends_in_newline-feed (d ∷ s)

ends_in_newline-append :
    (s t : Text) → is_empty t ≡ false → ends_in_newline (s ++ t) ≡ ends_in_newline t
ends_in_newline-append [] t n = refl
ends_in_newline-append (c ∷ []) [] n = cc
ends_in_newline-append (c ∷ []) (d ∷ t) n = refl
ends_in_newline-append (c ∷ d ∷ s) t n = ends_in_newline-append (d ∷ s) t n

ends_in_newline-clean : (l : Text) → IsClean l → ends_in_newline l ≡ false
ends_in_newline-clean [] h = refl
ends_in_newline-clean (c ∷ []) h = (IsClean-parts c [] h).0
ends_in_newline-clean (c ∷ d ∷ l) h = ends_in_newline-clean (d ∷ l) (IsClean-parts c (d ∷ l) h).2

is_empty-append : (s t : Text) → is_empty t ≡ false → is_empty (s ++ t) ≡ false
is_empty-append [] t n = n
is_empty-append (c ∷ s) t n = refl

join-nonempty :
    (l : Text) (ls : List Text)
    → LastNonempty (l ∷ ls)
    → is_empty (join (text "\n") (l ∷ ls)) ≡ false
unfolding join
join-nonempty l [] n = n
join-nonempty l (m ∷ ls) n =
    is_empty-append (l ++ text "\n") (join (text "\n") (m ∷ ls)) (join-nonempty m ls n)

pub ends_in_newline-join :
    (ls : List Text)
    → All IsClean ls
    → LastNonempty ls
    → ends_in_newline (join (text "\n") ls) ≡ false
unfolding join
ends_in_newline-join [] h n = refl
ends_in_newline-join (l ∷ []) h n = ends_in_newline-clean l h.0
ends_in_newline-join (l ∷ m ∷ ls) h n =
    ends_in_newline-append (l ++ text "\n") (join (text "\n") (m ∷ ls)) (join-nonempty m ls n)
    ∙ ends_in_newline-join (m ∷ ls) h.1 n
