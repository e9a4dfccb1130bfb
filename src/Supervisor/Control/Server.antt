-- ===== src/Supervisor/Control/Server.antt =====
-- src/supervisor.rs: `serve`, which binds the control socket and accepts connections. The socket and
-- the file system are arguments; each accepted connection is handled by its own task (`handle_conn`).
use wintermute_platform.Prelude.{
  List, [], ◌∷◌, ◌++◌, Option, none, some, Text, text, ◌==◌, if◌then◌else◌, Result, ok, err, Error,
}
use wintermute_platform.Supervisor.Control.Io.{Io, ◌>>=◌, in_context}

-- `std::fs::remove_file`: the file is gone, `ErrorKind::NotFound`, or another error.
pub data Removal : Type 0 where
  removed absent : Removal
  failed : Error → Removal

pub record SocketHost (W : Type 0) : Type 0 where
  pub create_dir_all : Text → W → Result (Unit {0}) × W
  pub remove_file : Text → W → Removal × W
  pub bind : Text → W → Result (Unit {0}) × W

-- `Path::parent`, of a path with no `.` component, no doubled `/` and none at its end but the root's.
before_slash : Text → Option Text
before_slash [] = none
before_slash (c ∷ s) =
    let later = before_slash s in
    elim later [ some dir ↦ some (c ∷ dir) | none ↦ if c == b'/' then some [] else none ]

unfoldable pub parent : Text → Option Text
unfolding before_slash
parent [] = none
parent (c ∷ []) = if c == b'/' then none else some []
parent (c ∷ d ∷ s) = elim (before_slash (c ∷ d ∷ s)) [
  | none ↦ some []
  | some dir ↦ elim dir [ [] ↦ some (text "/") | e ∷ rest ↦ some (e ∷ rest) ]
]

abbrev pub unless_absent : Removal → Result (Unit {0})
unless_absent removed = ok tt
unless_absent absent = ok tt
unless_absent (failed e) = err e

-- What `serve` has come to: the connections that it accepted, and its error, if it has returned.
pub record Served (C : Type 0) : Type 0 where
  pub connections : List C
  pub ended : Option Error

-- The loop over the results of `accept`.
unfoldable pub accept_all : {C : Type 0} → List (Result C) → Served C
accept_all [] = record { connections = []; ended = none }
accept_all (err e ∷ later) = record {
  connections = [];
  ended = some (text "accept on init.sock" ∷ e);
}
accept_all (ok c ∷ later) =
    let rest = accept_all later in record rest { connections = c ∷ rest.connections }

module _ {W : Type 0} (host : SocketHost W) where
  pub make_parent : Option Text → Io W (Unit {0})
  make_parent none w = (ok tt, w)
  make_parent (some dir) w = in_context (text "create_dir_all " ++ dir) (host.create_dir_all dir) w

  pub remove_stale : Text → Io W (Unit {0})
  remove_stale path w = let (r, w') = host.remove_file path w in (unless_absent r, w')

  unfoldable pub bind_socket : Text → Io W (Unit {0})
  unfolding make_parent remove_stale parent
  bind_socket path = do
    _ ← make_parent (parent path)
    _ ← in_context (text "remove stale socket " ++ path) (remove_stale path)
    in_context (text "bind " ++ path) (host.bind path)

  -- `serve`, when `accept` has given these results.
  unfoldable pub serve : {C : Type 0} → Text → List (Result C) → W → Served C × W
  unfolding bind_socket accept_all
  serve path accepts w =
      let (r, w') = bind_socket path w in
      (
        elim r [ err e ↦ record { connections = []; ended = some e } | ok _ ↦ accept_all accepts ],
        w',
      )
