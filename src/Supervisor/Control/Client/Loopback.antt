-- ===== src/Supervisor/Control/Client/Loopback.antt =====
-- A client's round trip through the supervisor's own connection handler.
use wintermute_platform.Prelude.{
  ℕ, List, [], ◌∷◌, ◌++◌, Text, All, ◌==◌, ◌||◌, onto_first, if◌then◌else◌, Bool, false, Result, ok,
  ◌≡◌, refl, ap, ◌∙◌, arith,
}
use wintermute_platform.Protocol.{Request, Response, SupervisorView}
use wintermute_platform.Supervisor.Control.{
  LogHost, Codec, dispatch, handle_line, handle_conn, trim_newlines,
}
use wintermute_platform.Supervisor.Control.Client.{
  Wire, ClientCodec, client_roundtrip, read_response,
}

-- The lines that `read_line` gives one after the other.
unfoldable pub read_lines : Text → List Text
read_lines [] = []
read_lines (c ∷ s) =
    let rest = read_lines s in if c == 10 then (c ∷ []) ∷ rest else onto_first c rest

-- A connection to the supervisor: the view, what the client has sent, and what it has to read.
pub record Loop : Type 0 where
  pub view : SupervisorView
  pub sent : Text
  pub replies : List Text

abbrev first_reply : List Text → Text
first_reply [] = []
first_reply (line ∷ later) = line

abbrev later_replies : List Text → List Text
later_replies [] = []
later_replies (line ∷ later) = later

-- The supervisor answers when the client has shut its half down.
abbrev pub answered : LogHost → Codec → Loop → Loop
unfolding handle_conn
answered host codec l =
    let (written, view) = handle_conn host codec (read_lines l.sent) l.view in
    record { view = view; sent = []; replies = written }

abbrev pub loop_wire : LogHost → Codec → Wire Loop
loop_wire host codec = record {
  connect = λ path l. (ok tt, record l { sent = []; replies = [] });
  write_all = λ bytes l. (ok tt, record l { sent = l.sent ++ bytes });
  flush = λ l. (ok tt, l);
  shutdown = λ l. (ok tt, answered host codec l);
  read_line = λ l. (ok (first_reply l.replies), record l { replies = later_replies l.replies });
}

abbrev ends_line : ℕ → Bool
ends_line c = c == 10 || c == 13

-- A text without line ends, as the compact JSON printer writes it.
abbrev pub IsOneLine : Text → Type 0
IsOneLine s = All (λ c. (c == 10 || c == 13) ≡ false) s

trim_newlines-line : (s : Text) → IsOneLine s → trim_newlines (s ++ 10 ∷ []) ≡ s
unfolding trim_newlines
trim_newlines-line [] h = refl
trim_newlines-line (c ∷ s) h = ground (arith, h.0, trim_newlines-line s h.1)

read_lines-line : (s : Text) → IsOneLine s → read_lines (s ++ 10 ∷ []) ≡ (s ++ 10 ∷ []) ∷ []
unfolding read_lines
read_lines-line [] h = refl
read_lines-line (c ∷ s) h = ground (arith, h.0, read_lines-line s h.1)

module _ (host : LogHost) (codec : Codec) (client : ClientCodec) where
  handle_line-request :
      (s : Text) (req : Request) (view : SupervisorView)
      → IsOneLine s
      → codec.from_json s ≡ ok req
      → handle_line host codec (s ++ 10 ∷ []) view ≡ dispatch host req view
  unfolding handle_line
  handle_line-request s req view h parses =
      let line = ap codec.from_json (trim_newlines-line s h) ∙ parses in rw (line, handle_line) refl

  answered-request :
      (s : Text) (req : Request) (l : Loop)
      → IsOneLine s
      → codec.from_json s ≡ ok req
      → l.sent ≡ s ++ 10 ∷ []
      → answered host codec l ≡ record {
        view = (dispatch host req l.view).1;
        sent = [];
        replies = (codec.to_json (dispatch host req l.view).0 ++ 10 ∷ []) ∷ [];
      }
  unfolding handle_conn
  answered-request s req l h parses sent =
      let lines = ap read_lines sent ∙ read_lines-line s h in
      let line = handle_line-request s req l.view h parses in rw (lines, handle_conn, line) refl

  read_response-line :
      (t : Text) (resp : Response)
      → IsOneLine t
      → client.from_json t ≡ ok resp
      → read_response client (t ++ 10 ∷ []) ≡ ok resp
  unfolding read_response
  read_response-line [] resp h reads = rw (reads, read_response, trim_newlines) refl
  read_response-line (c ∷ t) resp h reads =
      let line = trim_newlines-line (c ∷ t) h in rw (line, reads, read_response) refl

  abbrev finished : Loop → Result Response × Loop
  finished l =
      (read_response client (first_reply l.replies), record l { replies = later_replies l.replies })

  client_roundtrip-answered :
      (path s : Text) (req : Request) (l : Loop)
      → client.to_json req ≡ ok s
      → client_roundtrip (loop_wire host codec) client path req l
        ≡ finished
            (answered host codec (record { view = l.view; sent = s ++ 10 ∷ []; replies = [] }))
  unfolding client_roundtrip
  client_roundtrip-answered path s req l prints = rw (prints, client_roundtrip) refl

  -- The codecs print each on one line, and what the client prints of the request, and the
  -- supervisor of its response, is read back. Then the round trip answers what `dispatch` answers,
  -- and leaves the view that `dispatch` leaves.
  pub client_roundtrip-dispatch :
      (path s : Text) (req : Request) (l : Loop)
      → client.to_json req ≡ ok s
      → IsOneLine s
      → codec.from_json s ≡ ok req
      → IsOneLine (codec.to_json (dispatch host req l.view).0)
      → client.from_json (codec.to_json (dispatch host req l.view).0)
        ≡ ok (dispatch host req l.view).0
      → ((client_roundtrip (loop_wire host codec) client path req l).0
          ≡ ok (dispatch host req l.view).0)
        × ((client_roundtrip (loop_wire host codec) client path req l).1.view
            ≡ (dispatch host req l.view).1)
  client_roundtrip-dispatch path s req l prints h parses h' reads =
      let same =
        client_roundtrip-answered path s req l prints
        ∙ ap finished (
            answered-request s req (record { view = l.view; sent = s ++ 10 ∷ []; replies = [] }) h
              parses refl) in
      rw same (read_response-line _ _ h' reads, refl)
