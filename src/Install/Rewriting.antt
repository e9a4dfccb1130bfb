-- ===== src/Install/Rewriting.antt =====
-- The rewrite of a unit file's lines: it is idempotent, and what it rewrites is compliant.
use wintermute_platform.Prelude.{
  ℕ, true, false, List, [], ◌∷◌, ◌++◌, Option, none, some, Text, text, strip_prefix,
  strip_prefix-append, split_once, contains_char, is_empty, Bool-cases, Option-cases, All, map, ◌≢◌,
  ◌≡◌, refl, ap, ◌⊎◌, inl, inr, arith, subst,
}
use wintermute_platform.Install.{
  is_binary_name, binary_after, or_else, and_then, known_prefixes, extract_known,
  extract_from_home_prefix, extract_binary_name, exec_start, canonical_prefix, rewritten,
  rewrite_rest, split_exec, rewrite_exec_start, offence, find_offence,
}

-- A name that the rewrite can set in: no slash, not a given character, and not empty.
pub record IsBare (c : ℕ) (bin : Text) : Type 0 where
  pub named : is_binary_name bin ≡ true
  pub free : contains_char c bin ≡ false

pub strip_prefix-contains_char :
    (c : ℕ) (p s r : Text)
    → strip_prefix p s ≡ some r
    → contains_char c s ≡ false
    → contains_char c r ≡ false
unfolding strip_prefix contains_char
strip_prefix-contains_char c [] s r h n = ground (arith, h, n)
strip_prefix-contains_char c (q ∷ p) [] r h n = cc
strip_prefix-contains_char c (q ∷ p) (d ∷ s) r h n =
    ground (arith, strip_prefix-contains_char c p s r)

pub split_once-none : (c : ℕ) (s : Text) → split_once c s ≡ none → contains_char c s ≡ false
unfolding split_once contains_char
split_once-none c [] h = refl
split_once-none c (d ∷ s) h = ground (arith, h, split_once-none c s)

pub split_once-some :
    (c : ℕ) (s : Text) (p : Text × Text) → split_once c s ≡ some p → contains_char c p.0 ≡ false
unfolding split_once contains_char
split_once-some c [] p h = absurd (ground (arith, h))
split_once-some c (d ∷ s) p h = elim (Option-cases (split_once c s)) [
  | inl o ↦ ground (arith, h, o)
  | inr (r, o) ↦ ground (arith, h, o, split_once-some c s r o)
]

split_once-append :
    (c : ℕ) (a b : Text) → contains_char c a ≡ false → split_once c (a ++ c ∷ b) ≡ some (a, b)
unfolding split_once contains_char
split_once-append c [] b n = ground arith
split_once-append c (d ∷ a) b n = ground (arith, n, split_once-append c a b)

split_once-apart : (c : ℕ) (s : Text) → contains_char c s ≡ false → split_once c s ≡ none
unfolding split_once contains_char
split_once-apart c [] n = refl
split_once-apart c (d ∷ s) n = ground (arith, n, split_once-apart c s)

binary_after-IsBare :
    (c : ℕ) (o : Option Text) (bin : Text)
    → ((r : Text) → o ≡ some r → contains_char c r ≡ false)
    → binary_after o ≡ some bin
    → IsBare c bin
binary_after-IsBare c none bin n h = absurd (ground (arith, h))
binary_after-IsBare c (some r) bin n h = elim (Bool-cases (is_binary_name r)) [
  | inr e ↦ absurd (ground (arith, h, e))
  | inl e ↦
      let same : r ≡ bin = ground (arith, h, e) in
      record {
        named = subst (λ x. is_binary_name x ≡ true) same e;
        free = subst (λ x. contains_char c x ≡ false) same (n r refl);
      }
]

or_else-cases :
    (o other : Option Text) (bin : Text)
    → or_else o other ≡ some bin
    → (o ≡ some bin) ⊎ (other ≡ some bin)
or_else-cases none other bin h = inr h
or_else-cases (some a) other bin h = inl h

extract_known-IsBare :
    (c : ℕ) (prefixes : List Text) (path bin : Text)
    → contains_char c path ≡ false
    → extract_known prefixes path ≡ some bin
    → IsBare c bin
unfolding extract_known
extract_known-IsBare c [] path bin n h = absurd (ground (arith, h))
extract_known-IsBare c (p ∷ ps) path bin n h =
    elim (or_else-cases (binary_after (strip_prefix p path)) (extract_known ps path) bin h) [
      | inl e ↦
          binary_after-IsBare c (strip_prefix p path) bin
            (λ r q. strip_prefix-contains_char c p path r q n) e
      | inr e ↦ extract_known-IsBare c ps path bin n e
    ]

pub split_once-second :
    (c e : ℕ) (s : Text) (p : Text × Text)
    → split_once c s ≡ some p
    → contains_char e s ≡ false
    → contains_char e p.1 ≡ false
unfolding split_once contains_char
split_once-second c e [] p h n = absurd (ground (arith, h))
split_once-second c e (d ∷ s) p h n = elim (Option-cases (split_once c s)) [
  | inl o ↦ ground (arith, h, n, o)
  | inr (r, o) ↦ ground (arith, h, n, o, split_once-second c e s r o)
]

and_then-cases {ℓ} :
    {A : Type ℓ} (o : Option A) (f : A → Option Text) (bin : Text)
    → and_then o f ≡ some bin
    → (a : A) × (o ≡ some a) × (f a ≡ some bin)
and_then-cases none f bin h = absurd (ground (arith, h))
and_then-cases (some a) f bin h = (a, refl, h)

extract_from_home_prefix-IsBare :
    (c : ℕ) (path bin : Text)
    → contains_char c path ≡ false
    → extract_from_home_prefix path ≡ some bin
    → IsBare c bin
unfolding extract_from_home_prefix
extract_from_home_prefix-IsBare c path bin n h =
    let (after_home, e, h1) = and_then-cases (strip_prefix (text "/home/") path) _ bin h in
    let (p, o, h2) = and_then-cases (split_once b'/' after_home) _ bin h1 in
    let n1 = strip_prefix-contains_char c (text "/home/") path after_home e n in
    let n2 = split_once-second b'/' c after_home p o n1 in
    binary_after-IsBare c
      (or_else (strip_prefix (text ".local/bin/") p.1) (strip_prefix (text ".cargo/bin/") p.1)) bin
      (λ r q.
        elim (or_else-cases (strip_prefix (text ".local/bin/") p.1)
          (strip_prefix (text ".cargo/bin/") p.1) r q) [
            | inl s ↦ strip_prefix-contains_char c (text ".local/bin/") p.1 r s n2
            | inr s ↦ strip_prefix-contains_char c (text ".cargo/bin/") p.1 r s n2
          ])
      h2

pub extract_binary_name-IsBare :
    (c : ℕ) (path bin : Text)
    → contains_char c path ≡ false
    → extract_binary_name path ≡ some bin
    → IsBare c bin
unfolding extract_binary_name
extract_binary_name-IsBare c path bin n h =
    elim (or_else-cases (extract_known known_prefixes path) (extract_from_home_prefix path) bin h) [
      | inl e ↦ extract_known-IsBare c known_prefixes path bin n e
      | inr e ↦ extract_from_home_prefix-IsBare c path bin n e
    ]

-- A canonical path gives its own binary back.
extract_binary_name-canonical :
    (bin : Text)
    → is_binary_name bin ≡ true
    → extract_binary_name (canonical_prefix ++ bin) ≡ some bin
unfolding extract_binary_name extract_known strip_prefix
extract_binary_name-canonical bin e = rw e refl

pub contains_char-append :
    (c : ℕ) (s t : Text)
    → contains_char c s ≡ false
    → contains_char c t ≡ false
    → contains_char c (s ++ t) ≡ false
unfolding contains_char
contains_char-append c [] t h k = k
contains_char-append c (d ∷ s) t h k = ground (arith, h, k, contains_char-append c s t)

canonical_no_space :
    (bin : Text) → IsBare b' ' bin → contains_char b' ' (canonical_prefix ++ bin) ≡ false
unfolding contains_char
canonical_no_space bin b = contains_char-append b' ' canonical_prefix bin refl b.free

-- The line that the rewrite writes is written again as it is.
rewrite_canonical :
    (bin : Text)
    → IsBare b' ' bin
    → rewrite_rest
        (exec_start ++ canonical_prefix ++ bin)
        (strip_prefix exec_start (exec_start ++ canonical_prefix ++ bin))
      ≡ exec_start ++ canonical_prefix ++ bin
rewrite_canonical bin b =
    rw
      (
        strip_prefix-append exec_start (canonical_prefix ++ bin),
        split_once-apart b' ' (canonical_prefix ++ bin) (canonical_no_space bin b),
        extract_binary_name-canonical bin b.named,
      )
      refl

rewrite_canonical_with :
    (bin tail : Text)
    → IsBare b' ' bin
    → is_empty tail ≡ false
    → rewrite_rest
        (exec_start ++ (canonical_prefix ++ bin) ++ b' ' ∷ tail)
        (strip_prefix exec_start (exec_start ++ (canonical_prefix ++ bin) ++ b' ' ∷ tail))
      ≡ exec_start ++ (canonical_prefix ++ bin) ++ b' ' ∷ tail
rewrite_canonical_with bin tail b e =
    rw
      (
        strip_prefix-append exec_start ((canonical_prefix ++ bin) ++ b' ' ∷ tail),
        split_once-append b' ' (canonical_prefix ++ bin) tail (canonical_no_space bin b),
        extract_binary_name-canonical bin b.named,
        e,
      )
      refl

-- What the rewrite writes for a bare binary is its own rewrite, and keeps the convention.
record IsSettled (line : Text) : Type 0 where
  fixed : rewrite_exec_start line ≡ line
  compliant : offence line ≡ none

rewritten-IsSettled :
    (line tail bin : Text) → IsBare b' ' bin → IsSettled (rewritten line tail (some bin))
unfolding rewrite_exec_start offence strip_prefix
rewritten-IsSettled line tail bin b = elim (Bool-cases (is_empty tail)) [
  | inl e ↦ rw e (record { fixed = rewrite_canonical bin b; compliant = refl })
  | inr e ↦ rw e (record { fixed = rewrite_canonical_with bin tail b e; compliant = refl })
]

exec_no_space :
    (rest : Text) → contains_char b' ' (split_exec rest (split_once b' ' rest)).0 ≡ false
exec_no_space rest = elim (Option-cases (split_once b' ' rest)) [
  | inl o ↦ rw o (split_once-none b' ' rest o)
  | inr (p, o) ↦ rw o (split_once-some b' ' rest p o)
]

-- A line is left as it is, or its rewrite is settled.
rewrite_exec_start-cases :
    (line : Text) → (rewrite_exec_start line ≡ line) ⊎ IsSettled (rewrite_exec_start line)
unfolding rewrite_exec_start
rewrite_exec_start-cases line = elim (Option-cases (strip_prefix exec_start line)) [
  | inl o ↦ inl (rw o refl)
  | inr (rest, o) ↦
      let parts = split_exec rest (split_once b' ' rest) in
      elim (Option-cases (extract_binary_name parts.0)) [
        | inl x ↦ inl (rw (o, x) refl)
        | inr (bin, x) ↦ inr (
            rw (o, x)
              (rewritten-IsSettled line parts.1 bin
                (extract_binary_name-IsBare b' ' parts.0 bin (exec_no_space rest) x)))
      ]
]

-- Rewriting a line twice is rewriting it once.
pub rewrite_exec_start_idem :
    (line : Text) → rewrite_exec_start (rewrite_exec_start line) ≡ rewrite_exec_start line
rewrite_exec_start_idem line = elim (rewrite_exec_start-cases line) [
  | inl e ↦ ap rewrite_exec_start e
  | inr s ↦ s.fixed
]

-- A line that the rewrite changes is compliant after it: the check of the convention finds no
-- offence in it.
pub offence-rewrite_exec_start :
    (line : Text) → rewrite_exec_start line ≢ line → offence (rewrite_exec_start line) ≡ none
offence-rewrite_exec_start line d = elim (rewrite_exec_start-cases line) [
  | inl e ↦ absurd (d e)
  | inr s ↦ s.compliant
]

-- If every line that offends is one that the rewrite knows, the file passes the check after its
-- lines are rewritten.
pub check-rewritten :
    (ls : List Text)
    → All (λ l. (offence l ≡ none) ⊎ (rewrite_exec_start l ≢ l)) ls
    → find_offence (map rewrite_exec_start ls) ≡ none
unfolding find_offence
check-rewritten [] h = refl
check-rewritten (l ∷ ls) h = rw (settled l h.0) (check-rewritten ls h.1)
  where
    settled :
        (l : Text)
        → (offence l ≡ none) ⊎ (rewrite_exec_start l ≢ l)
        → offence (rewrite_exec_start l) ≡ none
    settled l (inr d) = offence-rewrite_exec_start l d
    settled l (inl q) = elim (rewrite_exec_start-cases l) [ inl e ↦ rw e q | inr s ↦ s.compliant ]
