-- ===== src/Watchdog/Listing/Escapes.antt =====
-- Strings in JSON, as RFC 8259 has them: what is written between the quotation marks.
use wintermute_platform.Prelude.{
  ℕ, ◌+◌, ◌/◌, ◌%◌, ◌≤◌, false, [], ◌∷◌, ◌++◌, Text, text, ltb, if◌then◌else◌, contains_char, ◌==◌,
  All, Bool-cases, ◌≡◌, refl, inl, inr, arith,
}
use wintermute_platform.Install.Rewriting.{contains_char-append}

abbrev pub hex_digit : ℕ → ℕ
hex_digit n = if ltb n 10 then 48 + n else 87 + n

-- What stands for a character: the quotation mark, the backslash and the control characters have
-- escapes, and every other stands for itself.
unfoldable pub escape : ℕ → Text
escape c =
    if c == b'"'
    then text "\\\""
    else if c == 92
    then text "\\\\"
    else if c == 8
    then text "\\b"
    else if c == 9
    then text "\\t"
    else if c == 10
    then text "\\n"
    else if c == 12
    then text "\\f"
    else if c == 13
    then text "\\r"
    else if ltb c 32
    then text "\\u00" ++ hex_digit (c / 16) ∷ hex_digit (c % 16) ∷ []
    else c ∷ []

unfoldable pub escaped : Text → Text
escaped [] = []
escaped (c ∷ s) = escape c ++ escaped s

-- The forms of an escape.
pub data EscapeForm (c : ℕ) : Type 0 where
  itself : escape c ≡ c ∷ [] → (b'"' == c) ≡ false → (92 == c) ≡ false → EscapeForm c
  mark : escape c ≡ text "\\\"" → EscapeForm c
  other : (t : Text) → escape c ≡ 92 ∷ t → contains_char b'"' t ≡ false → EscapeForm c

pub escape-EscapeForm : (c : ℕ) → EscapeForm c
unfolding escape contains_char
escape-EscapeForm c = elim (Bool-cases (c == b'"')) [
  | inl e ↦ mark (rw (e, escape) refl)
  | inr e1 ↦ elim (Bool-cases (c == 92)) [
    | inl e ↦ other (text "\\") (rw (e1, e, escape) refl) refl
    | inr e2 ↦ elim (Bool-cases (c == 8)) [
      | inl e ↦ other (text "b") (rw (e1, e2, e, escape) refl) refl
      | inr e3 ↦ elim (Bool-cases (c == 9)) [
        | inl e ↦ other (text "t") (rw (e1, e2, e3, e, escape) refl) refl
        | inr e4 ↦ elim (Bool-cases (c == 10)) [
          | inl e ↦ other (text "n") (rw (e1, e2, e3, e4, e, escape) refl) refl
          | inr e5 ↦ elim (Bool-cases (c == 12)) [
            | inl e ↦ other (text "f") (rw (e1, e2, e3, e4, e5, e, escape) refl) refl
            | inr e6 ↦ elim (Bool-cases (c == 13)) [
              | inl e ↦ other (text "r") (rw (e1, e2, e3, e4, e5, e6, e, escape) refl) refl
              | inr e7 ↦ elim (Bool-cases (ltb c 32)) [
                | inl e ↦
                    other (text "u00" ++ hex_digit (c / 16) ∷ hex_digit (c % 16) ∷ [])
                      (rw (e1, e2, e3, e4, e5, e6, e7, e, escape) refl) (ground arith)
                | inr e ↦
                    itself (rw (e1, e2, e3, e4, e5, e6, e7, e, escape) refl) (ground (arith, e1))
                      (ground (arith, e2))
              ]
            ]
          ]
        ]
      ]
    ]
  ]
]

-- No end of a line is left, and no quotation mark where there was none.
escape-feed : (c : ℕ) → contains_char 10 (escape c) ≡ false
unfolding escape contains_char
escape-feed c = ground arith

escape-return : (c : ℕ) → contains_char 13 (escape c) ≡ false
unfolding escape contains_char
escape-return c = ground arith

escape-quote : (c : ℕ) → (c == b'"') ≡ false → contains_char b'"' (escape c) ≡ false
unfolding escape contains_char
escape-quote c h = ground (arith, h)

pub escaped-feed : (s : Text) → contains_char 10 (escaped s) ≡ false
unfolding escaped contains_char
escaped-feed [] = refl
escaped-feed (c ∷ s) =
    contains_char-append 10 (escape c) (escaped s) (escape-feed c) (escaped-feed s)

pub escaped-return : (s : Text) → contains_char 13 (escaped s) ≡ false
unfolding escaped contains_char
escaped-return [] = refl
escaped-return (c ∷ s) =
    contains_char-append 13 (escape c) (escaped s) (escape-return c) (escaped-return s)

pub escaped-quote :
    (s : Text) → contains_char b'"' s ≡ false → contains_char b'"' (escaped s) ≡ false
unfolding escaped contains_char
escaped-quote [] h = refl
escaped-quote (c ∷ s) h =
    contains_char-append b'"' (escape c) (escaped s) (escape-quote c (ground (arith, h)))
      (escaped-quote s (ground (arith, h)))

-- A text that JSON writes as it is: no quotation mark, no backslash and no control character.
pub record IsBare (s : Text) : Type 0 where
  pub quote : contains_char b'"' s ≡ false
  pub backslash : contains_char 92 s ≡ false
  pub printable : All (λ c. 32 ≤ c) s

pub escaped-bare : (s : Text) → IsBare s → escaped s ≡ s
unfolding escaped escape contains_char
escaped-bare [] b = refl
escaped-bare (c ∷ s) b =
    let rest = escaped-bare s (record {
      quote = ground (arith, b.quote);
      backslash = ground (arith, b.backslash);
      printable = b.printable.1;
    }) in
    ground (arith, rest, b.quote, b.backslash, b.printable.0)
