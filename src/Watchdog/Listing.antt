-- ===== src/Watchdog/Listing.antt =====
-- A form in which failed units are listed as JSON, with the escapes of Escapes in every name and
-- description, and what the scan of src/watchdog.rs, in `parse_failed_json`, reads of such a text.
pub mod Escapes
pub mod Reading
use mathlib.Core.List.{append_assoc}
use wintermute_platform.Watchdog.Listing.Escapes.{
  EscapeForm, itself, mark, other, escape-EscapeForm, escaped, escaped-quote,
}
use wintermute_platform.Prelude.{
  subst, ℕ, false, ◌||◌, List, [], ◌∷◌, ◌++◌, map, some, Text, text, text_eq, text_eq→≡,
  strip_prefix, starts_with, split_once, lines, contains_char, onto_first, ◌==◌, All, Bool-cases,
  ◌≡◌, refl, ap, ◌∙◌, inl, inr, arith,
}
use wintermute_platform.Watchdog.Systemctl.{one_name, skip_separators, name_after, names_from}

-- A failed unit, as the listing shows it.
pub record FailedUnit : Type 0 where
  pub unit : Text
  pub description : Text

-- The object of a unit, before the rest of the listing.
unfoldable pub entry_json : FailedUnit → Text → Text
entry_json u rest =
    text "{\"unit\":\""
    ++ (escaped u.unit
        ++ (text
              "\",\"load\":\"loaded\",\"active\":\"failed\",\"sub\":\"failed\",\"description\":\""
            ++ (escaped u.description ++ (text "\"}" ++ rest))))

unfoldable pub more_json : List FailedUnit → Text
more_json [] = text "]"
more_json (u ∷ us) = text "," ++ entry_json u (more_json us)

-- The listing of units, at least one.
unfoldable pub units_json : FailedUnit → List FailedUnit → Text
units_json u us = text "[" ++ entry_json u (more_json us)

-- A word with no backslash does not begin where one stands.
escape_begins :
    (p rest t : Text)
    → contains_char 92 p ≡ false
    → starts_with (p ++ b'"' ∷ []) ((92 ∷ rest) ++ b'"' ∷ t) ≡ text_eq p (92 ∷ rest)
unfolding strip_prefix contains_char text_eq
escape_begins [] rest t k = refl
escape_begins (b ∷ p) rest t k = ground (arith, k)

-- A word and a quotation mark begin an escaped text and the mark after it if the text is the word.
starts_with-escaped :
    (p s t : Text)
    → contains_char b'"' p ≡ false
    → contains_char 92 p ≡ false
    → starts_with (p ++ b'"' ∷ []) (escaped s ++ b'"' ∷ t) ≡ text_eq p (escaped s)
unfolding strip_prefix contains_char text_eq escaped
starts_with-escaped [] [] t h k = refl
starts_with-escaped (b ∷ p) [] t h k = ground (arith, h)
starts_with-escaped [] (c ∷ s) t h k = elim (escape-EscapeForm c) [
  | mark e ↦ rw e (escape_begins [] (b'"' ∷ escaped s) t k)
  | other x e q ↦ rw e (escape_begins [] (x ++ escaped s) t k)
  | itself e q b ↦ rw e (ground (arith, q))
]
starts_with-escaped (a ∷ p) (c ∷ s) t h k =
    let rest = starts_with-escaped p s t (ground (arith, h)) (ground (arith, k)) in
    elim (escape-EscapeForm c) [
      | mark e ↦ rw e (escape_begins (a ∷ p) (b'"' ∷ escaped s) t k)
      | other x e q ↦ rw e (escape_begins (a ∷ p) (x ++ escaped s) t k)
      | itself e q b ↦ rw e (ground (arith, rest))
    ]

quoted_word :
    (s t : Text)
    → starts_with (text "\"unit\"") (b'"' ∷ escaped s ++ b'"' ∷ t)
      ≡ text_eq (text "unit") (escaped s)
unfolding strip_prefix contains_char
quoted_word s t = starts_with-escaped (text "unit") s t refl refl

split_once-quoted :
    (s t : Text) → contains_char b'"' s ≡ false → split_once b'"' (s ++ b'"' ∷ t) ≡ some (s, t)
unfolding split_once contains_char
split_once-quoted [] t h = refl
split_once-quoted (c ∷ s) t h = ground (arith, h, split_once-quoted s t)

-- Where no `"unit"` begins, the scan passes over a character.
names_from-step :
    (c : ℕ) (s : Text)
    → starts_with (text "\"unit\"") (c ∷ s) ≡ false
    → names_from 0 (c ∷ s) ≡ names_from 0 s
unfolding names_from
names_from-step c s h = rw (h, names_from) refl

unquoted : (c : ℕ) (s : Text) → (b'"' == c) ≡ false → starts_with (text "\"unit\"") (c ∷ s) ≡ false
unfolding strip_prefix
unquoted c s h = rw (h, starts_with) refl

quoted_otherwise :
    (d : ℕ) (t : Text) → (b'u' == d) ≡ false → starts_with (text "\"unit\"") (b'"' ∷ d ∷ t) ≡ false
unfolding strip_prefix
quoted_otherwise d t h = rw (h, starts_with) refl

-- The scan passes over what has no quotation mark.
names_from-plain :
    (s t : Text) → contains_char b'"' s ≡ false → names_from 0 (s ++ t) ≡ names_from 0 t
unfolding contains_char
names_from-plain [] t h = refl
names_from-plain (c ∷ s) t h =
    names_from-step c (s ++ t) (unquoted c (s ++ t) (ground (arith, h)))
    ∙ names_from-plain s t (ground (arith, h))

-- Where no value in quotation marks follows, no name is read.
name_after-none :
    (d : ℕ) (t : Text)
    → (d == 32 || d == 9 || d == b':' || d == b'"') ≡ false
    → name_after (d ∷ t) ≡ []
unfolding name_after skip_separators strip_prefix
name_after-none d t k =
    let no_separator : (d == 32 || d == 9 || d == b':') ≡ false = ground (arith, k) in
    let no_quote : (b'"' == d) ≡ false = ground (arith, k) in rw no_separator (rw no_quote refl)

names_from-word :
    (t : Text) → names_from 0 (b'"' ∷ text "unit" ++ b'"' ∷ t) ≡ name_after t ++ names_from 0 t
unfolding names_from strip_prefix
names_from-word t = refl

-- It passes over an escaped text and the quotation mark after it, and over a quoted value, even
-- the value `unit`.
module _ (t : Text) (d : ℕ) (k : (d == 32 || d == 9 || d == b':' || d == b'"') ≡ false)
    (no_u : (b'u' == d) ≡ false) where
  names_from-quoted :
      (s : Text)
      → names_from 0 (escaped s ++ b'"' ∷ d ∷ t) ≡ names_from 0 (d ∷ t)
      → names_from 0 (b'"' ∷ escaped s ++ b'"' ∷ d ∷ t) ≡ names_from 0 (d ∷ t)
  names_from-quoted s inner = elim (Bool-cases (text_eq (text "unit") (escaped s))) [
    | inl e ↦
        let word : text "unit" ≡ escaped s = text_eq→≡ (text "unit") (escaped s) e in
        subst (λ x. names_from 0 (b'"' ∷ x ++ b'"' ∷ d ∷ t) ≡ names_from 0 (d ∷ t)) word
          (names_from-word (d ∷ t) ∙ ap (λ ns. ns ++ names_from 0 (d ∷ t)) (name_after-none d t k))
    | inr e ↦ names_from-step b'"' (escaped s ++ b'"' ∷ d ∷ t) (quoted_word s (d ∷ t) ∙ e) ∙ inner
  ]

  names_from-escaped : (s : Text) → names_from 0 (escaped s ++ b'"' ∷ d ∷ t) ≡ names_from 0 (d ∷ t)
  unfolding escaped
  names_from-escaped [] = names_from-step b'"' (d ∷ t) (quoted_otherwise d t no_u)
  names_from-escaped (c ∷ s) =
      let rest = escaped s ++ b'"' ∷ d ∷ t in
      let ih = names_from-escaped s in
      elim (escape-EscapeForm c) [
        | itself e q b ↦ rw e (names_from-step c rest (unquoted c rest q) ∙ ih)
        | mark e ↦ rw e (
            names_from-step 92 (b'"' ∷ rest) (unquoted 92 (b'"' ∷ rest) refl)
            ∙ names_from-quoted s ih)
        | other x e q ↦
            rw (e, append_assoc x (escaped s) (b'"' ∷ d ∷ t))
              (names_from-step 92 (x ++ rest) (unquoted 92 (x ++ rest) refl)
                ∙ names_from-plain x rest q
                ∙ ih)
      ]

  names_from-value :
      (s : Text) → names_from 0 (b'"' ∷ escaped s ++ b'"' ∷ d ∷ t) ≡ names_from 0 (d ∷ t)
  names_from-value s = names_from-quoted s (names_from-escaped s)

unit_key :
    (t : Text)
    → names_from 0 (text "{\"unit\":\"" ++ t)
      ≡ name_after (text ":\"" ++ t) ++ names_from 0 (b'"' ∷ t)
unfolding names_from strip_prefix
unit_key t = refl

name_after-value :
    (s t : Text) → contains_char b'"' s ≡ false → name_after (text ":\"" ++ s ++ b'"' ∷ t) ≡ s ∷ []
unfolding name_after skip_separators strip_prefix
name_after-value s t h = ap one_name (split_once-quoted s t h)

other_keys :
    (t : Text)
    → names_from 0 (
        text ",\"load\":\"loaded\",\"active\":\"failed\",\"sub\":\"failed\",\"description\":\""
        ++ t)
      ≡ names_from 0 (b'"' ∷ t)
unfolding names_from strip_prefix
other_keys t = refl

-- The names are read as they are printed.
names_from-entry :
    (u : FailedUnit) (rest : Text)
    → contains_char b'"' u.unit ≡ false
    → names_from 0 (entry_json u rest) ≡ escaped u.unit ∷ names_from 0 rest
unfolding entry_json
names_from-entry u rest p =
    let name = escaped u.unit in
    let described = escaped u.description ++ b'"' ∷ b'}' ∷ rest in
    let keys =
      text "\"load\":\"loaded\",\"active\":\"failed\",\"sub\":\"failed\",\"description\":\"" in
    let after_name = keys ++ described in
    unit_key (name ++ b'"' ∷ b',' ∷ after_name)
    ∙ ap (λ ns. ns ++ names_from 0 (b'"' ∷ name ++ b'"' ∷ b',' ∷ after_name))
        (name_after-value name (b',' ∷ after_name) (escaped-quote u.unit p))
    ∙ ap (λ ns. name ∷ ns)
        (names_from-value after_name b',' refl refl u.unit
          ∙ other_keys described
          ∙ names_from-value rest b'}' refl refl u.description
          ∙ names_from-step b'}' rest (unquoted b'}' rest refl))

abbrev pub NoQuote : FailedUnit → Type 0
NoQuote u = contains_char b'"' u.unit ≡ false

names_from-more :
    (us : List FailedUnit)
    → All NoQuote us
    → names_from 0 (more_json us) ≡ map (λ (u : FailedUnit). escaped u.unit) us
unfolding more_json names_from strip_prefix
names_from-more [] p = refl
names_from-more (u ∷ us) p =
    names_from-step b',' (entry_json u (more_json us))
      (unquoted b',' (entry_json u (more_json us)) refl)
    ∙ names_from-entry u (more_json us) p.0
    ∙ ap (λ ns. escaped u.unit ∷ ns) (names_from-more us p.1)

pub names_from-units_json :
    (u : FailedUnit) (us : List FailedUnit)
    → All NoQuote (u ∷ us)
    → names_from 0 (units_json u us) ≡ map (λ (v : FailedUnit). escaped v.unit) (u ∷ us)
unfolding units_json
names_from-units_json u us p =
    names_from-step b'[' (entry_json u (more_json us))
      (unquoted b'[' (entry_json u (more_json us)) refl)
    ∙ names_from-entry u (more_json us) p.0
    ∙ ap (λ ns. escaped u.unit ∷ ns) (names_from-more us p.1)
