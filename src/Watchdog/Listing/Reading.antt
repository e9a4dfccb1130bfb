-- ===== src/Watchdog/Listing/Reading.antt =====
-- The JSON listing as the production backend of src/watchdog.rs takes it from systemctl.
use wintermute_platform.Watchdog.{done}
use wintermute_platform.Install.Rewriting.{contains_char-append}
use mathlib.Core.List.{append-nil}
use wintermute_platform.Prelude.{
  true, All-map, ℕ, false, List, [], ◌∷◌, ◌++◌, map, Text, text, lines, contains_char, onto_first,
  ◌==◌, All, ◌≡◌, refl, ap, ◌∙◌, arith,
}
use wintermute_platform.Watchdog.Systemctl.{
  finished, Launcher, names_in, parse_failed_json, list_failed_units_real, names_from,
}
use wintermute_platform.Watchdog.Listing.{
  FailedUnit, NoQuote, entry_json, more_json, units_json, names_from-units_json,
}
use wintermute_platform.Watchdog.Listing.Escapes.{
  escaped, escaped-feed, escaped-return, IsBare, escaped-bare,
}

-- A text of one line.
lines-line :
    (s : Text)
    → contains_char 10 s ≡ false
    → contains_char 13 s ≡ false
    → lines (s ++ 10 ∷ []) ≡ s ∷ []
unfolding lines contains_char
lines-line [] f r = refl
lines-line (c ∷ s) f r =
    let other : (c == 10) ≡ false = ground (arith, f) in
    let no_return : (c == 13) ≡ false = ground (arith, r) in
    rw (other, no_return, lines)
      (ap (onto_first c) (lines-line s (ground (arith, f)) (ground (arith, r))))

-- The listing has no character that stands neither in its punctuation nor in an escaped text.
module _ (c : ℕ) (outside : (s : Text) → contains_char c (escaped s) ≡ false)
    (head : contains_char c (text "{\"unit\":\"") ≡ false)
    (keys : contains_char c
        (text "\",\"load\":\"loaded\",\"active\":\"failed\",\"sub\":\"failed\",\"description\":\"")
      ≡ false)
    (marks : contains_char c (text "\"}[],") ≡ false) where
  outside-entry_json :
      (u : FailedUnit) (rest : Text)
      → contains_char c rest ≡ false
      → contains_char c (entry_json u rest) ≡ false
  unfolding entry_json contains_char
  outside-entry_json u rest r = contains_char-append c (text "{\"unit\":\"") _ head (
      contains_char-append c (escaped u.unit) _ (outside u.unit) (
        contains_char-append c
          (text
            "\",\"load\":\"loaded\",\"active\":\"failed\",\"sub\":\"failed\",\"description\":\"")
          _ keys
          (contains_char-append c (escaped u.description) _ (outside u.description)
            (ground (arith, marks, r)))))

  outside-more_json : (us : List FailedUnit) → contains_char c (more_json us) ≡ false
  unfolding more_json contains_char
  outside-more_json [] = ground (arith, marks)
  outside-more_json (u ∷ us) =
      let rest = outside-entry_json u (more_json us) (outside-more_json us) in
      ground (arith, marks, rest)

  outside-units_json :
      (u : FailedUnit) (us : List FailedUnit) → contains_char c (units_json u us) ≡ false
  unfolding units_json contains_char
  outside-units_json u us =
      let rest = outside-entry_json u (more_json us) (outside-more_json us) in
      ground (arith, marks, rest)

-- The arguments of the listing.
abbrev pub json_args : List Text
json_args =
    text "--user"
    ∷ text "--state=failed"
    ∷ text "--no-legend"
    ∷ text "--plain"
    ∷ text "-o"
    ∷ text "json"
    ∷ []

-- A listing is one line.
lines-units_json :
    (u : FailedUnit) (us : List FailedUnit)
    → lines (units_json u us ++ 10 ∷ []) ≡ units_json u us ∷ []
unfolding contains_char
lines-units_json u us =
    lines-line (units_json u us) (outside-units_json 10 escaped-feed refl refl refl u us)
      (outside-units_json 13 escaped-return refl refl refl u us)

-- Names with no quotation mark are read as the listing writes them, escapes and all.
pub list_failed_units_real-escaped :
    {W : Type 0} (systemctl : Launcher W) (w w' : W) (code : Text) (u : FailedUnit)
    (us : List FailedUnit)
    → All NoQuote (u ∷ us)
    → systemctl json_args w
      ≡ (finished (record { success = true; code = code; stdout = units_json u us ++ 10 ∷ [] }), w')
    → list_failed_units_real systemctl w
      ≡ (done (map (λ (v : FailedUnit). escaped v.unit) (u ∷ us)), w')
unfolding list_failed_units_real parse_failed_json names_in
list_failed_units_real-escaped systemctl w w' code u us p h =
    let names : names_in (lines (units_json u us ++ 10 ∷ []))
        ≡ escaped u.unit ∷ map (λ (v : FailedUnit). escaped v.unit) us =
      rw (lines-units_json u us)
        (append-nil (names_from 0 (units_json u us)) ∙ names_from-units_json u us p) in
    rw (h, names, list_failed_units_real, parse_failed_json)
      (ap (λ r. (done (map (λ (v : FailedUnit). escaped v.unit) (u ∷ us)), r.1)) h)

abbrev pub BareName : FailedUnit → Type 0
BareName u = IsBare u.unit

map-escaped :
    (us : List FailedUnit)
    → All BareName us
    → map (λ (v : FailedUnit). escaped v.unit) us ≡ map (λ (v : FailedUnit). v.unit) us
map-escaped [] p = refl
map-escaped (u ∷ us) p = rw (escaped-bare u.unit p.0, map-escaped us p.1) refl

-- If systemctl answers with success, and prints a listing of failed units, one or more, in the JSON
-- form of `units_json`, the production backend reads the names of these units in their order, and
-- makes no further call. The descriptions are any text, and are written with JSON's escapes. The
-- names are those that JSON writes as they are: no name has a quotation mark, a backslash or a
-- control character.
pub list_failed_units_real-units_json :
    {W : Type 0} (systemctl : Launcher W) (w w' : W) (code : Text) (u : FailedUnit)
    (us : List FailedUnit)
    → All BareName (u ∷ us)
    → systemctl json_args w
      ≡ (finished (record { success = true; code = code; stdout = units_json u us ++ 10 ∷ [] }), w')
    → list_failed_units_real systemctl w ≡ (done (map (λ (v : FailedUnit). v.unit) (u ∷ us)), w')
list_failed_units_real-units_json systemctl w w' code u us p h =
    list_failed_units_real-escaped systemctl w w' code u us
      (All-map BareName NoQuote (λ v q. q.quote) (u ∷ us) p) h
    ∙ ap (λ ns. (done ns, w')) (map-escaped (u ∷ us) p)
