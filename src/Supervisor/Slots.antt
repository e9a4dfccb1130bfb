-- ===== src/Supervisor/Slots.antt =====
-- The slots of the supervisor's view: names, the slot of a name, and updates of a slot.
use wintermute_platform.Prelude.{
  sym, ◌≡◌, refl, ◌≢◌, inl, inr, Bool, true, List, [], ◌∷◌, map, Option, none, some, Text, text_eq,
  text_eq_iff, text_eq_refl, if◌then◌else◌, find, update_first, All, Pairs, Pairs-refl, Bool-cases,
  arith, subst,
}
use wintermute_platform.Protocol.{ChildState, is_exited}
use wintermute_platform.Supervisor.{named, exited_names}

abbrev pub names : List ChildState → List Text
names = map (λ c. c.name)

abbrev pub IsDistinct : List Text → Type 0
IsDistinct [] = Unit
IsDistinct (n ∷ ns) = All (λ k. k ≢ n) ns × IsDistinct ns

-- The slot that `find(|c| c.name == name)` finds.
abbrev pub slot : Text → List ChildState → Option ChildState
slot name cs = find (named name) cs

abbrev pub map_slot : (ChildState → ChildState) → Option ChildState → Option ChildState
map_slot f none = none
map_slot f (some c) = some (f c)

module _ (f : ChildState → ChildState) (keeps : (c : ChildState) → (f c).name ≡ c.name) where
  pub names-update_first :
      (p : ChildState → Bool) (cs : List ChildState) → names (update_first p f cs) ≡ names cs
  names-update_first p [] = refl
  names-update_first p (c ∷ cs) = ground (arith, keeps c, names-update_first p cs)

  -- An update of one name's slot, seen from every name.
  pub slot-update_first :
      (n j : Text) (cs : List ChildState)
      → slot j (update_first (named n) f cs)
        ≡ (if text_eq n j then map_slot f (slot j cs) else slot j cs)
  slot-update_first n j [] = ground arith
  slot-update_first n j (c ∷ cs) = ground (
    arith,
    keeps c,
    text_eq_iff c.name n,
    text_eq_iff c.name j,
    text_eq_iff (f c).name j,
    text_eq_iff n j,
    slot-update_first n j cs,
  )

-- Where a slot is found, the list is related to its update if that slot is.
pub Pairs-update_found :
    (R : ChildState → ChildState → Type 0) (p : ChildState → Bool) (f : ChildState → ChildState)
    → ((c : ChildState) → R c c)
    → (cs : List ChildState) → ((c : ChildState) → find p cs ≡ some c → R c (f c))
    → Pairs R cs (update_first p f cs)
Pairs-update_found R p f r [] h = tt
Pairs-update_found R p f r (c ∷ cs) h = elim (Bool-cases (p c)) [
  | inl e ↦ rw e (h c (rw e refl), Pairs-refl R r cs)
  | inr e ↦ rw e (r c, Pairs-update_found R p f r cs (λ d q. h d (rw e q)))
]

pub absent_slot : (n : Text) (cs : List ChildState) → All (λ k. k ≢ n) (names cs) → slot n cs ≡ none
absent_slot n [] h = refl
absent_slot n (c ∷ cs) h = ground (arith, text_eq_iff c.name n, absent_slot n cs h.1)

-- Related lists, seen from a name.
pub Pairs-slot :
    (R : ChildState → ChildState → Type 0)
    → ((c d : ChildState) → R c d → c.name ≡ d.name)
    → (n : Text) (cs ds : List ChildState) → Pairs R cs ds
    → (d : ChildState) → slot n ds ≡ some d
    → (c : ChildState) × (slot n cs ≡ some c) × R c d
Pairs-slot R k n [] [] h d e = absurd (cc)
Pairs-slot R k n [] (d' ∷ ds) h d e = absurd h
Pairs-slot R k n (c ∷ cs) [] h d e = absurd h
Pairs-slot R k n (c ∷ cs) (d' ∷ ds) h d e = elim (Bool-cases (text_eq d'.name n)) [
  | inl q ↦ let same : d' ≡ d = ground arith in (c, rw (k c d' h.0, q) refl, subst (R c) same h.0)
  | inr q ↦
      let (found, at, r) = Pairs-slot R k n cs ds h.1 d (ground arith) in
      (found, rw (k c d' h.0, q) at, r)
]

pub Pairs-names :
    (R : ChildState → ChildState → Type 0)
    → ((c d : ChildState) → R c d → c.name ≡ d.name)
    → (cs ds : List ChildState) → Pairs R cs ds
    → names cs ≡ names ds
Pairs-names R k [] [] h = refl
Pairs-names R k [] (d ∷ ds) h = absurd h
Pairs-names R k (c ∷ cs) [] h = absurd h
Pairs-names R k (c ∷ cs) (d ∷ ds) h = cc (k c d h.0, Pairs-names R k cs ds h.1)

All-others :
    (P Q : ChildState → Type 0) (n : Text) (cs : List ChildState)
    → All (λ k. k ≢ n) (names cs)
    → ((c : ChildState) → c.name ≢ n → P c → Q c)
    → All P cs
    → All Q cs
All-others P Q n [] d miss h = tt
All-others P Q n (c ∷ cs) d miss h = (miss c d.0 h.0, All-others P Q n cs d.1 miss h.1)

-- Each slot once: an update of a name's slot splits the list into that slot and the others.
pub All-update_slot :
    (P Q : ChildState → Type 0) (n : Text) (f : ChildState → ChildState) (cs : List ChildState)
    → IsDistinct (names cs)
    → ((c : ChildState) → c.name ≡ n → P c → Q (f c))
    → ((c : ChildState) → c.name ≢ n → P c → Q c)
    → All P cs
    → All Q (update_first (named n) f cs)
All-update_slot P Q n f [] d hit miss h = tt
All-update_slot P Q n f (c ∷ cs) d hit miss h = elim (Bool-cases (text_eq c.name n)) [
  | inl e ↦
      let same : c.name ≡ n = (text_eq_iff c.name n).0 e in
      rw e (hit c same h.0, All-others P Q n cs (rw same at d.0) miss h.1)
  | inr e ↦ rw e (
    miss c (λ q. cc (e, (text_eq_iff c.name n).1 q)) h.0,
    All-update_slot P Q n f cs d.1 hit miss h.1,
  )
]

-- The names of the slots that satisfy `p`: names of the list, each once, and each slot does.
abbrev pub selected : (ChildState → Bool) → List ChildState → List Text
selected p [] = []
selected p (c ∷ cs) = let rest = selected p cs in if p c then c.name ∷ rest else rest

pub record IsAt (p : ChildState → Bool) (cs : List ChildState) (n : Text) : Type 0 where
  pub child : ChildState
  pub at : slot n cs ≡ some child
  pub holds : p child ≡ true

module _ (p : ChildState → Bool) where
  All-selected :
      (P : Text → Type 0) (cs : List ChildState) → All P (names cs) → All P (selected p cs)
  All-selected P [] h = tt
  All-selected P (c ∷ cs) h = elim (Bool-cases (p c)) [
    | inl e ↦ rw e (h.0, All-selected P cs h.1)
    | inr e ↦ rw e (All-selected P cs h.1)
  ]

  IsDistinct-selected : (cs : List ChildState) → IsDistinct (names cs) → IsDistinct (selected p cs)
  IsDistinct-selected [] h = tt
  IsDistinct-selected (c ∷ cs) h = elim (Bool-cases (p c)) [
    | inl e ↦ rw e (All-selected (λ k. k ≢ c.name) cs h.0, IsDistinct-selected cs h.1)
    | inr e ↦ rw e (IsDistinct-selected cs h.1)
  ]

  All-IsAt-cons :
      (c : ChildState) (cs : List ChildState) (ns : List Text)
      → All (λ k. k ≢ c.name) ns
      → All (IsAt p cs) ns
      → All (IsAt p (c ∷ cs)) ns
  All-IsAt-cons c cs [] h k = tt
  All-IsAt-cons c cs (n ∷ ns) h k = (
    record {
      child = k.0.child;
      at = ground (arith, text_eq_iff c.name n, k.0.at, h.0);
      holds = k.0.holds;
    },
    All-IsAt-cons c cs ns h.1 k.1,
  )

  pub selected-IsAt :
      (cs : List ChildState) → IsDistinct (names cs) → All (IsAt p cs) (selected p cs)
  selected-IsAt [] h = tt
  selected-IsAt (c ∷ cs) h =
      let later =
        All-IsAt-cons c cs (selected p cs) (All-selected (λ k. k ≢ c.name) cs h.0)
          (selected-IsAt cs h.1) in
      elim (Bool-cases (p c)) [
        | inl e ↦ rw e (record { child = c; at = rw (text_eq_refl c.name) refl; holds = e }, later)
        | inr e ↦ rw e later
      ]

abbrev pub is_exited_slot : ChildState → Bool
is_exited_slot c = is_exited c.status

exited_names-selected : (cs : List ChildState) → exited_names cs ≡ selected is_exited_slot cs
unfolding exited_names
exited_names-selected [] = refl
exited_names-selected (c ∷ cs) = ground (arith, exited_names-selected cs)

pub IsDistinct-exited_names :
    (cs : List ChildState) → IsDistinct (names cs) → IsDistinct (exited_names cs)
IsDistinct-exited_names cs h =
    subst IsDistinct (sym (exited_names-selected cs)) (IsDistinct-selected is_exited_slot cs h)

abbrev pub IsExitedAt : List ChildState → Text → Type 0
IsExitedAt = IsAt is_exited_slot

pub exited_names-IsExitedAt :
    (cs : List ChildState) → IsDistinct (names cs) → All (IsExitedAt cs) (exited_names cs)
exited_names-IsExitedAt cs h =
    subst (All (IsExitedAt cs)) (sym (exited_names-selected cs)) (selected-IsAt is_exited_slot cs h)

pub slot-name : (n : Text) (cs : List ChildState) (c : ChildState) → slot n cs ≡ some c → c.name ≡ n
slot-name n [] c h = cc
slot-name n (d ∷ cs) c h = elim (Bool-cases (text_eq d.name n)) [
  | inl e ↦ let same : d ≡ c = ground arith in rw (← same) ((text_eq_iff d.name n).0 e)
  | inr e ↦ slot-name n cs c (ground arith)
]

-- The same, forwards.
pub Pairs-slot_forward :
    (R : ChildState → ChildState → Type 0)
    → ((c d : ChildState) → R c d → c.name ≡ d.name)
    → (n : Text) (cs ds : List ChildState) → Pairs R cs ds
    → (c : ChildState) → slot n cs ≡ some c
    → (d : ChildState) × (slot n ds ≡ some d) × R c d
Pairs-slot_forward R k n [] [] h c e = absurd (cc)
Pairs-slot_forward R k n [] (d ∷ ds) h c e = absurd h
Pairs-slot_forward R k n (c' ∷ cs) [] h c e = absurd h
Pairs-slot_forward R k n (c' ∷ cs) (d ∷ ds) h c e = elim (Bool-cases (text_eq c'.name n)) [
  | inl q ↦
      let same : c' ≡ c = ground arith in
      (d, rw (← k c' d h.0, q) refl, subst (λ x. R x d) same h.0)
  | inr q ↦
      let (found, at, r) = Pairs-slot_forward R k n cs ds h.1 c (ground arith) in
      (found, rw (← k c' d h.0, q) at, r)
]
