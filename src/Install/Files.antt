-- ===== src/Install/Files.antt =====
-- The rewrite of a whole unit file.
use mathlib.Core.List.{append-nil}
use wintermute_platform.Prelude.{
  ◌≢◌, ◌⊎◌, subst, ℕ, false, List, [], ◌∷◌, ◌++◌, some, Text, text, lines, join, contains_char,
  is_empty, strip_prefix, split_once, Bool-cases, Option-cases, All, map, ◌≡◌, refl, sym, ap, ◌∙◌,
  inl, inr, arith,
}
use wintermute_platform.Install.{
  find_offence, true, none, offence, check_unit_convention, exec_start, canonical_prefix,
  split_exec, rewritten, rewrite_exec_start, extract_binary_name, rewrite_unit_exec_starts,
  ends_in_newline,
}
use wintermute_platform.Install.Rewriting.{
  check-rewritten, contains_char-append, strip_prefix-contains_char, split_once-second,
  extract_binary_name-IsBare, rewrite_exec_start_idem,
}
use wintermute_platform.Install.Joining.{
  lines-cons, ends_in_newline-join, ends_in_newline-feed, IsClean, LastNonempty, lines-IsClean,
  lines-LastNonempty, lines-terminated, lines-open,
}

split_once-first :
    (c e : ℕ) (s : Text) (p : Text × Text)
    → split_once c s ≡ some p
    → contains_char e s ≡ false
    → contains_char e p.0 ≡ false
unfolding split_once contains_char
split_once-first c e [] p h n = absurd (ground (arith, h))
split_once-first c e (d ∷ s) p h n = elim (Option-cases (split_once c s)) [
  | inl o ↦ ground (arith, h, n, o)
  | inr (r, o) ↦ ground (arith, h, n, o, split_once-first c e s r o)
]

-- The parts of a command line have no more characters than it has.
split_exec-free :
    (e : ℕ) (rest : Text)
    → contains_char e rest ≡ false
    → (contains_char e (split_exec rest (split_once b' ' rest)).0 ≡ false)
      × (contains_char e (split_exec rest (split_once b' ' rest)).1 ≡ false)
unfolding contains_char
split_exec-free e rest n = elim (Option-cases (split_once b' ' rest)) [
  | inl o ↦ rw o (n, refl)
  | inr (p, o) ↦ rw o (split_once-first b' ' e rest p o n, split_once-second b' ' e rest p o n)
]

-- A character that the canonical prefix does not have.
record IsForeign (e : ℕ) : Type 0 where
  in_start : contains_char e exec_start ≡ false
  in_prefix : contains_char e canonical_prefix ≡ false
  no_space : contains_char e (b' ' ∷ []) ≡ false

rewritten-free :
    (e : ℕ) (line tail bin : Text)
    → IsForeign e
    → contains_char e tail ≡ false
    → contains_char e bin ≡ false
    → contains_char e (rewritten line tail (some bin)) ≡ false
rewritten-free e line tail bin f t b = elim (Bool-cases (is_empty tail)) [
  | inl z ↦ rw z (
      contains_char-append e (exec_start ++ canonical_prefix) bin
        (contains_char-append e exec_start canonical_prefix f.in_start f.in_prefix) b)
  | inr z ↦ rw z (
      contains_char-append e (exec_start ++ (canonical_prefix ++ bin)) (b' ' ∷ tail)
        (contains_char-append e exec_start (canonical_prefix ++ bin) f.in_start
          (contains_char-append e canonical_prefix bin f.in_prefix b))
        (contains_char-append e (b' ' ∷ []) tail f.no_space t))
]

rewrite_exec_start-free :
    (e : ℕ) (line : Text)
    → IsForeign e
    → contains_char e line ≡ false
    → contains_char e (rewrite_exec_start line) ≡ false
unfolding rewrite_exec_start
rewrite_exec_start-free e line f n = elim (Option-cases (strip_prefix exec_start line)) [
  | inl o ↦ rw o n
  | inr (rest, o) ↦
      let parts = split_exec rest (split_once b' ' rest) in
      let free = split_exec-free e rest (strip_prefix-contains_char e exec_start line rest o n) in
      elim (Option-cases (extract_binary_name parts.0)) [
        | inl x ↦ rw (o, x) n
        | inr (bin, x) ↦
            rw (o, x)
              (rewritten-free e line parts.1 bin f free.1
                (extract_binary_name-IsBare e parts.0 bin free.0 x).free)
      ]
]

rewrite_exec_start-nonempty :
    (line : Text) → is_empty line ≡ false → is_empty (rewrite_exec_start line) ≡ false
unfolding rewrite_exec_start
rewrite_exec_start-nonempty line n = elim (Option-cases (strip_prefix exec_start line)) [
  | inl o ↦ rw o n
  | inr (rest, o) ↦
      let parts = split_exec rest (split_once b' ' rest) in
      elim (Option-cases (extract_binary_name parts.0)) [
        | inl x ↦ rw (o, x) n
        | inr (bin, x) ↦ elim (Bool-cases (is_empty parts.1)) [
          | inl z ↦ rw (o, x, z) refl
          | inr z ↦ rw (o, x, z) refl
        ]
      ]
]

feed_IsForeign : IsForeign 10
unfolding contains_char
feed_IsForeign = record { in_start = refl; in_prefix = refl; no_space = refl }

return_IsForeign : IsForeign 13
unfolding contains_char
return_IsForeign = record { in_start = refl; in_prefix = refl; no_space = refl }

map-IsClean : (ls : List Text) → All IsClean ls → All IsClean (map rewrite_exec_start ls)
map-IsClean [] h = tt
map-IsClean (l ∷ ls) h = (
  (
    rewrite_exec_start-free 10 l feed_IsForeign h.0.0,
    rewrite_exec_start-free 13 l return_IsForeign h.0.1,
  ),
  map-IsClean ls h.1,
)

map-LastNonempty : (ls : List Text) → LastNonempty ls → LastNonempty (map rewrite_exec_start ls)
map-LastNonempty [] h = tt
map-LastNonempty (l ∷ []) h = rewrite_exec_start-nonempty l h
map-LastNonempty (l ∷ m ∷ ls) h = map-LastNonempty (m ∷ ls) h

map_idem :
    (ls : List Text)
    → map rewrite_exec_start (map rewrite_exec_start ls) ≡ map rewrite_exec_start ls
map_idem [] = refl
map_idem (l ∷ ls) = cc (rewrite_exec_start_idem l, map_idem ls)

-- A file whose lines the rewrite leaves as they are is left as it is.
settled_terminated :
    (l : Text) (ls : List Text)
    → All IsClean (l ∷ ls)
    → map rewrite_exec_start (l ∷ ls) ≡ l ∷ ls
    → rewrite_unit_exec_starts (join (text "\n") (l ∷ ls) ++ text "\n")
      ≡ join (text "\n") (l ∷ ls) ++ text "\n"
unfolding rewrite_unit_exec_starts
settled_terminated l ls h e =
    rw
      (
        rewrite_unit_exec_starts,
        lines-terminated l ls h,
        e,
        ends_in_newline-feed (join (text "\n") (l ∷ ls)),
      )
      refl

settled_open :
    (ls : List Text)
    → All IsClean ls
    → LastNonempty ls
    → map rewrite_exec_start ls ≡ ls
    → rewrite_unit_exec_starts (join (text "\n") ls) ≡ join (text "\n") ls
unfolding rewrite_unit_exec_starts
settled_open ls h n e =
    rw (rewrite_unit_exec_starts, lines-open ls h n, e, ends_in_newline-join ls h n)
      (append-nil (join (text "\n") ls))

-- Rewriting a unit file with no carriage return twice is rewriting it once.
pub rewrite_unit_exec_starts_idem :
    (body : Text)
    → contains_char 13 body ≡ false
    → rewrite_unit_exec_starts (rewrite_unit_exec_starts body) ≡ rewrite_unit_exec_starts body
unfolding rewrite_unit_exec_starts
rewrite_unit_exec_starts_idem body h = elim (Bool-cases (ends_in_newline body)) [
  | inl e ↦
      let (l, ls, q) = lines-cons body h e in
      let clean = map-IsClean (l ∷ ls) (subst (All IsClean) q (lines-IsClean body h)) in
      let shape : rewrite_unit_exec_starts body
          ≡ join (text "\n") (map rewrite_exec_start (l ∷ ls)) ++ text "\n" =
        rw (e, q, rewrite_unit_exec_starts) refl in
      ap rewrite_unit_exec_starts shape
      ∙ settled_terminated (rewrite_exec_start l) (map rewrite_exec_start ls) clean
          (map_idem (l ∷ ls))
      ∙ sym shape
  | inr e ↦
      let ls = map rewrite_exec_start (lines body) in
      let shape : rewrite_unit_exec_starts body ≡ join (text "\n") ls =
        rw (e, rewrite_unit_exec_starts) (append-nil (join (text "\n") ls)) in
      ap rewrite_unit_exec_starts shape
      ∙ settled_open ls (map-IsClean (lines body) (lines-IsClean body h))
          (map-LastNonempty (lines body) (lines-LastNonempty body h e)) (map_idem (lines body))
      ∙ sym shape
]

lines-rewrite_unit_exec_starts :
    (body : Text)
    → contains_char 13 body ≡ false
    → lines (rewrite_unit_exec_starts body) ≡ map rewrite_exec_start (lines body)
unfolding rewrite_unit_exec_starts
lines-rewrite_unit_exec_starts body h = elim (Bool-cases (ends_in_newline body)) [
  | inl e ↦
      let (l, ls, q) = lines-cons body h e in
      let clean = map-IsClean (l ∷ ls) (subst (All IsClean) q (lines-IsClean body h)) in
      rw (e, q, rewrite_unit_exec_starts)
        (lines-terminated (rewrite_exec_start l) (map rewrite_exec_start ls) clean)
  | inr e ↦
      let ls = map rewrite_exec_start (lines body) in
      rw (e, rewrite_unit_exec_starts)
        (ap lines (append-nil (join (text "\n") ls))
          ∙ lines-open ls (map-IsClean (lines body) (lines-IsClean body h))
              (map-LastNonempty (lines body) (lines-LastNonempty body h e)))
]

-- If a unit file has no carriage return, and every line of it that offends is one that the rewrite
-- changes, the rewritten file passes the check of the convention.
pub check_unit_convention-rewritten :
    (unit_name body : Text)
    → contains_char 13 body ≡ false
    → All (λ l. (offence l ≡ none) ⊎ (rewrite_exec_start l ≢ l)) (lines body)
    → check_unit_convention unit_name (rewrite_unit_exec_starts body)
      ≡ record { unit_name = unit_name; compliant = true; offending_exec_start = none }
unfolding check_unit_convention
check_unit_convention-rewritten unit_name body h known =
    let found =
      ap find_offence (lines-rewrite_unit_exec_starts body h)
      ∙ check-rewritten (lines body) known in
    rw (found, check_unit_convention) refl
