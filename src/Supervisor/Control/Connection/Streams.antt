-- ===== src/Supervisor/Control/Connection/Streams.antt =====
-- What a connection does to the view, and when it ends.
use mathlib.Core.List.{append-nil, append_assoc}
use wintermute_platform.Prelude.{
  ℕ, zero, suc, List, [], ◌∷◌, ◌++◌, Option, some, Text, false, is_empty, Bool-cases, All, length,
  Result, Result-cases, ok, err, ◌≡◌, refl, sym, ap, ◌∙◌, inl, inr,
}
use wintermute_platform.Protocol.{SupervisorView}
use wintermute_platform.Supervisor.Control.{LogHost, Codec, handle_line, handle_conn}
use wintermute_platform.Supervisor.Control.Connection.{
  Stream, Round, closed, answered, send, handle_round, handle_stream, lines_answered,
}

module _ {S : Type 0} (host : LogHost) (codec : Codec) (stream : Stream S) where
  -- What a round leaves of the view.
  abbrev left_by : Round → SupervisorView → SupervisorView
  left_by (closed q) view = view
  left_by (answered line q) view = (handle_line host codec line view).1

  handle_round-left_by :
      (s : S) (view : SupervisorView)
      → (handle_round host codec stream s view).2
        ≡ left_by (handle_round host codec stream s view).0 view
  unfolding handle_round
  handle_round-left_by s view = elim (Result-cases (stream.read_line s).0) [
    | inr (e, q) ↦ rw (q, handle_round) refl
    | inl (line, q) ↦ elim (Bool-cases (is_empty line)) [
      | inl z ↦ rw (q, z, handle_round) refl
      | inr z ↦ rw (q, z, handle_round) refl
    ]
  ]

  -- What the loop does with a round.
  abbrev goes_on : ℕ → Round × S × SupervisorView → Option (Result (Unit {0})) × S × SupervisorView
  goes_on rounds x = elim x.0 [
    | closed q ↦ (some q, x.1, x.2)
    | answered line q ↦ elim q [
      | err e ↦ (some (err e), x.1, x.2)
      | ok _ ↦ handle_stream host codec stream rounds x.1 x.2
    ]
  ]

  abbrev lines_of : ℕ → Round × S × SupervisorView → List Text
  lines_of rounds x = elim x.0 [
    | closed q ↦ []
    | answered line q ↦ elim q [
      | err e ↦ line ∷ []
      | ok _ ↦ line ∷ lines_answered host codec stream rounds x.1 x.2
    ]
  ]

  goes_on-handle_conn :
      (rounds : ℕ) (view : SupervisorView)
      → ((s : S) (view : SupervisorView)
          → (handle_stream host codec stream rounds s view).2
            ≡ (handle_conn host codec (lines_answered host codec stream rounds s view) view).1)
      → (x : Round × S × SupervisorView) → x.2 ≡ left_by x.0 view
      → (goes_on rounds x).2 ≡ (handle_conn host codec (lines_of rounds x) view).1
  unfolding handle_conn
  goes_on-handle_conn rounds view same (closed q, s, after) h = h
  goes_on-handle_conn rounds view same (answered line (err e), s, after) h = h
  goes_on-handle_conn rounds view same (answered line (ok _), s, after) h =
      same s after
      ∙ ap (λ v. (handle_conn host codec (lines_answered host codec stream rounds s after) v).1) h

  -- Whatever the stream answers, errors of reading and writing included, and however many rounds a
  -- connection goes on, it leaves the view that `handle_conn` leaves after the lines which it
  -- answered.
  pub handle_stream-handle_conn :
      (rounds : ℕ) (s : S) (view : SupervisorView)
      → (handle_stream host codec stream rounds s view).2
        ≡ (handle_conn host codec (lines_answered host codec stream rounds s view) view).1
  unfolding handle_stream lines_answered handle_conn
  handle_stream-handle_conn zero s view = refl
  handle_stream-handle_conn (suc rounds) s view =
      goes_on-handle_conn rounds view (handle_stream-handle_conn rounds)
        (handle_round host codec stream s view) (handle_round-left_by s view)

-- A stream that gives lines one after the other, and keeps what is written.
pub record Lines : Type 0 where
  pub later : List Text
  pub written : List Text

abbrev next_line : List Text → Text
next_line [] = []
next_line (line ∷ lines) = line

abbrev rest_lines : List Text → List Text
rest_lines [] = []
rest_lines (line ∷ lines) = lines

abbrev pub line_stream : Stream Lines
line_stream = record {
  read_line = λ s. (ok (next_line s.later), record s { later = rest_lines s.later });
  write_all = λ bytes s. (ok tt, record s { written = s.written ++ bytes ∷ [] });
  flush = λ s. (ok tt, s);
}

module _ (host : LogHost) (codec : Codec) where
  -- A round that reads a line.
  handle_round-line :
      (line : Text) (read written : List Text) (view : SupervisorView)
      → is_empty line ≡ false
      → handle_round host codec line_stream (record { later = line ∷ read; written = written }) view
        ≡ (
          answered line (ok tt),
          record {
            later = read;
            written =
                written ++ (codec.to_json (handle_line host codec line view).0 ++ 10 ∷ []) ∷ [];
          },
          (handle_line host codec line view).1,
        )
  unfolding handle_round send
  handle_round-line line read written view h = rw (h, handle_round) refl

  -- On a stream that gives these lines and takes every answer, a connection ends, after one round
  -- more than there are lines: with no error, every line read, the answers of `handle_conn` written
  -- in its order, and the view that `handle_conn` leaves.
  pub handle_stream-ends :
      (read : List Text) (written : List Text) (view : SupervisorView)
      → All (λ line. is_empty line ≡ false) read
      → handle_stream host codec line_stream
          (suc (length read))
          (record { later = read; written = written })
          view
        ≡ (
          some (ok tt),
          record { later = []; written = written ++ (handle_conn host codec read view).0 },
          (handle_conn host codec read view).1,
        )
  unfolding handle_stream handle_round send handle_conn
  handle_stream-ends [] written view h =
      ap (λ w. (some (ok tt), record { later = []; written = w }, view)) (sym (append-nil written))
  handle_stream-ends (line ∷ read) written view h =
      let answer = codec.to_json (handle_line host codec line view).0 ++ 10 ∷ [] in
      let after = (handle_line host codec line view).1 in
      ap (goes_on host codec line_stream (suc (length read)))
        (handle_round-line line read written view h.0)
      ∙ handle_stream-ends read (written ++ answer ∷ []) after h.1
      ∙ ap
          (λ w. (
            some (ok tt),
            record { later = []; written = w },
            (handle_conn host codec read after).1,
          ))
          (append_assoc written (answer ∷ []) (handle_conn host codec read after).0)
