-- ===== src/Spawn.antt =====
-- src/spawn.rs: the launcher interface and its production implementation. A launcher acts on a
-- world `W`, which a call may read and change.
pub mod Pevent
mod Examples
use wintermute_platform.Prelude.{
  ℕ, Bool, true, false, List, [], ◌∷◌, ◌++◌, Option, none, some, Text, text, text_eq, show, trim,
  Error, Result, ok, err, with_context,
}
use wintermute_platform.Platform.{ChildSpec}

pub record StartedChild : Type 0 where
  pub id : Text
  pub child_pid : ℕ
  pub supervisor_pid : ℕ

pub record Spawner (W : Type 0) : Type 0 where
  pub start : ChildSpec → W → Result StartedChild × W
  pub still_running : ℕ → W → Result Bool × W

-- What the code reads of `std::process::Output`: stdout as UTF-8 or the decoding error, stderr lossily.
pub record Output : Type 0 where
  pub success : Bool
  pub status : Text
  pub stdout : Result Text
  pub stderr : Text

pub record PeventRunReply : Type 0 where
  pub id : Text
  pub child_pid : ℕ
  pub supervisor_pid : ℕ

pub data Stat : Type 0 where
  found absent : Stat
  unreadable : Error → Stat

-- The system under `PeventSpawner`: processes, `/proc`, `serde_json::from_str` and `{:?}`.
pub record PeventHost (W : Type 0) : Type 0 where
  pub output : Text → List Text → W → Result Output × W
  pub metadata : Text → W → Stat
  pub parse_reply : Text → Result PeventRunReply
  pub debug : Text → Text

abbrev pub binary_name : Option Text → Text
binary_name none = text "pevent"
binary_name (some binary) = binary

infixl 5 ◌>>=◌
abbrev ◌>>=◌ : {A B : Type 0} → Result A → (A → Result B) → Result B
ok a >>= f = f a
err e >>= f = err e

abbrev ensure : Bool → Text → Result (Unit {0})
ensure true message = ok tt
ensure false message = err (message ∷ [])

module _ {W : Type 0} (host : PeventHost W) (binary : Option Text) where
  unfoldable pub run_args : ChildSpec → List Text
  run_args spec = text "run" ∷ text "--id" ∷ spec.name ∷ text "--" ∷ spec.exec ∷ spec.args

  -- What `start` makes of the output of `pevent run`.
  unfoldable pub read_reply : ChildSpec → Output → Result StartedChild
  unfolding trim text_eq
  read_reply spec out = do
    _ ←
        ensure out.success
          (text "pevent run failed (status " ++ out.status ++ text "): " ++ trim out.stderr)
    raw ← with_context (text "pevent stdout was not utf-8") out.stdout
    let stdout = trim raw
    reply ←
        with_context (text "parse pevent reply: " ++ host.debug stdout) (host.parse_reply stdout)
    _ ← ensure (text_eq reply.id spec.name) (
        text "pevent echoed id "
        ++ host.debug reply.id
        ++ text ", expected "
        ++ host.debug spec.name)
    ok (record {
      id = reply.id;
      child_pid = reply.child_pid;
      supervisor_pid = reply.supervisor_pid;
    })

  unfoldable pub pevent_start : ChildSpec → W → Result StartedChild × W
  unfolding run_args read_reply
  pevent_start spec w =
      let bin = binary_name binary in
      let (r, w') = host.output bin (run_args spec) w in
      (
        (do
          out ←
              with_context (text "invoke `" ++ bin ++ text " run --id " ++ spec.name ++ text "`") r
          read_reply spec out),
        w',
      )

  pub pevent_still_running : ℕ → W → Result Bool × W
  unfolding show
  pevent_still_running pid w =
      let path = text "/proc/" ++ show pid in
      (
        elim (host.metadata path w) [
          | found ↦ ok true
          | absent ↦ ok false
          | unreadable e ↦ err ((text "stat " ++ path) ∷ e)
        ],
        w,
      )

  abbrev pub pevent_spawner : Spawner W
  pevent_spawner = record { start = pevent_start; still_running = pevent_still_running }
