-- ===== src/Supervisor/Control/Requests.antt =====
-- What requests do to the view, and what a connection answers.
use wintermute_platform.Prelude.{
  Bool, true, false, List, [], ◌∷◌, Text, Result, Result-cases, ok, err, length, ◌≡◌, refl, ◌∙◌, ap,
  inl, inr, arith,
}
use wintermute_platform.Protocol.{Request, SupervisorView}
use wintermute_platform.Supervisor.Control.{
  LogHost, Codec, dispatch, handle_line, handle_conn, trim_newlines,
}

-- What a request sets `muted` to.
abbrev pub muted_by : Request → Bool → Bool
muted_by Request.mute b = true
muted_by Request.unmute b = false
muted_by _ b = b

abbrev pub with_muted : Bool → SupervisorView → SupervisorView
with_muted b view = record view { muted = b }

-- A request leaves all of the view but `muted`.
pub dispatch-muted_by :
    (host : LogHost) (req : Request) (view : SupervisorView)
    → (dispatch host req view).1 ≡ with_muted (muted_by req view.muted) view
unfolding dispatch
dispatch-muted_by host Request.status view = refl
dispatch-muted_by host Request.mute view = refl
dispatch-muted_by host Request.unmute view = refl
dispatch-muted_by host (Request.restart _) view = refl
dispatch-muted_by host (Request.logs _ _) view = refl
dispatch-muted_by host (Request.say _) view = refl

-- The requests that a list of lines holds; lines that do not parse are none.
abbrev pub if_request : Result Request → (Request → Bool → Bool) → Bool → Bool
if_request (ok req) f b = f req b
if_request (err e) f b = b

module _ (host : LogHost) (codec : Codec) where
  abbrev pub muted_after : List Text → Bool → Bool
  unfolding trim_newlines
  muted_after [] b = b
  muted_after (line ∷ later) b =
      muted_after later (if_request (codec.from_json (trim_newlines line)) muted_by b)

  handle_line-muted :
      (line : Text) (view : SupervisorView)
      → (handle_line host codec line view).1
        ≡ with_muted (if_request (codec.from_json (trim_newlines line)) muted_by view.muted) view
  unfolding handle_line
  handle_line-muted line view = elim (Result-cases (codec.from_json (trim_newlines line))) [
    | inl (req, e) ↦ rw (e, handle_line) (dispatch-muted_by host req view)
    | inr (m, e) ↦ rw (e, handle_line) refl
  ]

  -- A connection changes nothing of the view but `muted`, which ends as the last line that holds a
  -- mute or an unmute request leaves it; a line that does not parse changes nothing.
  pub handle_conn-muted_after :
      (read : List Text) (view : SupervisorView)
      → (handle_conn host codec read view).1 ≡ with_muted (muted_after read view.muted) view
  unfolding handle_conn
  handle_conn-muted_after [] view = refl
  handle_conn-muted_after (line ∷ later) view =
      handle_conn-muted_after later _
      ∙ ap (λ v. with_muted (muted_after later v.muted) v) (handle_line-muted line view)

  -- A connection writes one response for each line that it reads.
  pub length-handle_conn :
      (read : List Text) (view : SupervisorView)
      → length (handle_conn host codec read view).0 ≡ length read
  unfolding handle_conn
  length-handle_conn [] view = refl
  length-handle_conn (line ∷ later) view =
      omega (arith, length-handle_conn later (handle_line host codec line view).1)
