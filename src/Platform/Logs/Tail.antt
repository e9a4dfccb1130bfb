-- ===== src/Platform/Logs/Tail.antt =====
-- What the tail of a log is of its lines.
use wintermute_platform.Prelude.{
  sym, ℕ, zero, suc, ◌-◌, min, List, [], ◌∷◌, ◌++◌, Option, Text, lines, length, drop, length-drop,
  ltb, ◌==◌, Bool-cases, ok, FileRead, contents, ◌≡◌, refl, ap, ◌∙◌, inl, inr, arith,
}
use wintermute_platform.Platform.Logs.{
  last_lines, tail_of, child_log_path_with, tail_child_log_with,
}
use mathlib.Core.List.{append-nil}

-- The list that is dropped.
drop-suffix : (n : ℕ) (xs : List Text) → (before : List Text) × (xs ≡ before ++ drop n xs)
drop-suffix zero xs = ([], refl)
drop-suffix (suc n) [] = ([], refl)
drop-suffix (suc n) (x ∷ xs) = let (before, e) = drop-suffix n xs in (x ∷ before, ap (λ r. x ∷ r) e)

-- The last `tail` of the lines, or all of them if they are fewer.
pub record IsTailOf (tail : ℕ) (all ls : List Text) : Type 0 where
  pub before : List Text
  pub suffix : all ≡ before ++ ls
  pub count : length ls ≡ min tail (length all)

last_lines-IsTailOf : (tail : ℕ) (all : List Text) → IsTailOf tail all (last_lines tail all)
unfolding last_lines
last_lines-IsTailOf tail all = elim (Bool-cases (ltb tail (length all))) [
  | inl e ↦
      let (before, suffix) = drop-suffix (length all - tail) all in
      rw (e, last_lines)
        (record {
          before = before;
          suffix = suffix;
          count = ground (arith, e, length-drop (length all - tail) all);
        })
  | inr e ↦ rw (e, last_lines) (record { before = []; suffix = refl; count = ground (arith, e) })
]

tail_of-IsTailOf :
    (tail : ℕ) (file : Text)
    → (ls : List Text) × (tail_of tail (contents file) ≡ ok ls) × IsTailOf tail (lines file) ls
unfolding tail_of
tail_of-IsTailOf tail file = elim (Bool-cases (tail == 0)) [
  | inl e ↦ (
    [],
    rw (e, tail_of) refl,
    record {
      before = lines file;
      suffix = sym (append-nil (lines file));
      count = ground (arith, e);
    },
  )
  | inr e ↦
      (last_lines tail (lines file), rw (e, tail_of) refl, last_lines-IsTailOf tail (lines file))
]

-- The tail of a child's log that can be read is a final part of the log's lines: as many as are
-- asked for, or all of them if they are fewer.
pub tail_child_log_with-IsTailOf :
    (read : Text → FileRead) (home : Option Text) (child : Text) (tail : ℕ) (file : Text)
    → read (child_log_path_with home child) ≡ contents file
    → (ls : List Text) × (tail_child_log_with read home child tail ≡ ok ls)
      × IsTailOf tail (lines file) ls
unfolding tail_child_log_with
tail_child_log_with-IsTailOf read home child tail file h =
    let (ls, e, t) = tail_of-IsTailOf tail file in (ls, ap (tail_of tail) h ∙ e, t)
