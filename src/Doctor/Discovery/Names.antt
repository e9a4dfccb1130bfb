-- ===== src/Doctor/Discovery/Names.antt =====
-- The units that the doctor discovers: services, in order, each once.
use wintermute_platform.Prelude.{
  true, false, List, [], ◌∷◌, ◌++◌, any, All, All-append, All-map, Text, text_eq, text_eq_iff,
  Bool-cases, ◌≡◌, refl, sym, inl, inr, arith,
}
use wintermute_platform.Doctor.Discovery.{
  Run, first_word, is_service, add_names, add_patterns, patterns, text_leb, insert_name, sort_names,
  discover_units,
}

abbrev pub IsApart : Text → Text → Type 0
IsApart a b = text_eq b a ≡ false

-- No two names of the list are equal.
abbrev pub IsUnique : List Text → Type 0
IsUnique [] = Unit
IsUnique (n ∷ ns) = All (IsApart n) ns × IsUnique ns

-- Each name comes before all the later ones in the order of strings, and none is equal to a later one.
abbrev pub IsAscending : List Text → Type 0
IsAscending [] = Unit
IsAscending (n ∷ ns) = All (λ m. text_leb m n ≡ false) ns × IsAscending ns

text_leb_antisym : (a b : Text) → text_leb a b ≡ true → text_leb b a ≡ true → text_eq a b ≡ true
unfolding text_leb text_eq
text_leb_antisym [] [] h k = refl
text_leb_antisym [] (b ∷ t) h k = absurd (ground (arith, k))
text_leb_antisym (a ∷ s) [] h k = absurd (ground (arith, h))
text_leb_antisym (a ∷ s) (b ∷ t) h k = ground (arith, h, k, text_leb_antisym s t)

text_leb_trans : (a b c : Text) → text_leb a b ≡ true → text_leb b c ≡ true → text_leb a c ≡ true
unfolding text_leb
text_leb_trans [] b c h k = refl
text_leb_trans (a ∷ s) [] c h k = absurd (ground (arith, h))
text_leb_trans (a ∷ s) (b ∷ t) [] h k = absurd (ground (arith, k))
text_leb_trans (a ∷ s) (b ∷ t) (c ∷ u) h k = ground (arith, h, k, text_leb_trans s t u)

All-insert_name :
    (P : Text → Type 0) (n : Text) (ns : List Text) → P n → All P ns → All P (insert_name n ns)
unfolding insert_name
All-insert_name P n [] p h = (p, tt)
All-insert_name P n (m ∷ ns) p h = elim (Bool-cases (text_leb n m)) [
  | inl e ↦ rw e (p, h)
  | inr e ↦ rw e (h.0, All-insert_name P n ns p h.1)
]

All-sort_names : (P : Text → Type 0) (ns : List Text) → All P ns → All P (sort_names ns)
unfolding sort_names
All-sort_names P [] h = tt
All-sort_names P (n ∷ ns) h = All-insert_name P n (sort_names ns) h.0 (All-sort_names P ns h.1)

after_insert :
    (n m : Text) (ns : List Text)
    → text_leb n m ≡ true
    → text_eq m n ≡ false
    → All (λ k. text_leb k m ≡ false) ns
    → All (λ k. text_leb k n ≡ false) (m ∷ ns)
after_insert n m ns e d h = (
  elim (Bool-cases (text_leb m n)) [
    | inl l ↦ absurd (ground (arith, d, text_leb_antisym m n l e))
    | inr l ↦ l
  ],
  All-map _ _
      (λ k q. elim (Bool-cases (text_leb k n)) [
        | inl l ↦ absurd (ground (arith, q, text_leb_trans k n m l e))
        | inr l ↦ l
      ])
      ns h,
)

insert_name-IsAscending :
    (n : Text) (ns : List Text)
    → All (IsApart n) ns
    → IsAscending ns
    → IsAscending (insert_name n ns)
unfolding insert_name
insert_name-IsAscending n [] d h = (tt, tt)
insert_name-IsAscending n (m ∷ ns) d h = elim (Bool-cases (text_leb n m)) [
  | inl e ↦ rw e (after_insert n m ns e d.0 h.0, h)
  | inr e ↦
      rw e (
        All-insert_name (λ k. text_leb k m ≡ false) n ns e h.0,
        insert_name-IsAscending n ns d.1 h.1,
      )
]

sort_names-IsAscending : (ns : List Text) → IsUnique ns → IsAscending (sort_names ns)
unfolding sort_names
sort_names-IsAscending [] u = tt
sort_names-IsAscending (n ∷ ns) u =
    insert_name-IsAscending n (sort_names ns) (All-sort_names (IsApart n) ns u.0)
      (sort_names-IsAscending ns u.1)

text_eq_sym : (a b : Text) → text_eq a b ≡ false → text_eq b a ≡ false
text_eq_sym a b e = elim (Bool-cases (text_eq b a)) [
  | inr d ↦ d
  | inl d ↦
      let same : a ≡ b = sym ((text_eq_iff b a).0 d) in
      absurd (ground (arith, e, (text_eq_iff a b).1 same))
]

IsUnique-snoc :
    (units : List Text) (name : Text)
    → any (λ u. text_eq u name) units ≡ false
    → IsUnique units
    → IsUnique (units ++ name ∷ [])
IsUnique-snoc [] name e u = (tt, tt)
IsUnique-snoc (n ∷ ns) name e u = elim (Bool-cases (text_eq n name)) [
  | inl d ↦ absurd (ground (arith, e, d))
  | inr d ↦ (
    All-append (IsApart n) ns (name ∷ []) u.0 (text_eq_sym n name d, tt),
    IsUnique-snoc ns name (ground (arith, e, d)) u.1,
  )
]

-- Names of services, each once.
abbrev AreNames : List Text → Type 0
AreNames units = IsUnique units × All (λ n. is_service n ≡ true) units

add_names-AreNames : (ls units : List Text) → AreNames units → AreNames (add_names ls units)
unfolding add_names
add_names-AreNames [] units h = h
add_names-AreNames (line ∷ later) units h =
    let name = first_word line in
    add_names-AreNames later _ (elim (Bool-cases (is_service name)) [
      | inr s ↦ rw s h
      | inl s ↦ elim (Bool-cases (any (λ u. text_eq u name) units)) [
        | inl d ↦ rw (s, d) h
        | inr d ↦
            rw (s, d)
              (
                IsUnique-snoc units name d h.0,
                All-append (λ n. is_service n ≡ true) units (name ∷ []) h.1 (s, tt),
              )
      ]
    ])

add_patterns-AreNames :
    (run : Run) (flag : Text) (ps units : List Text)
    → AreNames units
    → AreNames (add_patterns run flag ps units)
unfolding add_patterns
add_patterns-AreNames run flag [] units h = h
add_patterns-AreNames run flag (p ∷ ps) units h =
    add_patterns-AreNames run flag ps _ (add_names-AreNames _ _ (add_names-AreNames _ units h))

-- Whatever systemctl prints, the discovered names are names of services, in ascending order, and
-- none comes twice.
pub discover_units-IsAscending :
    (run : Run) (flag : Text)
    → IsAscending (discover_units run flag)
      × All (λ n. is_service n ≡ true) (discover_units run flag)
unfolding discover_units
discover_units-IsAscending run flag =
    let names = add_patterns-AreNames run flag patterns [] (tt, tt) in
    (sort_names-IsAscending _ names.0, All-sort_names (λ n. is_service n ≡ true) _ names.1)
