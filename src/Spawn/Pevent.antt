-- ===== src/Spawn/Pevent.antt =====
-- src/spawn.rs, `PeventSpawner::start`: what a reported success rests on.
use wintermute_platform.Prelude.{
  text_eq_iff, ap, ◌↔◌, true, Option, Text, text_eq, text_eq→≡, trim, ok, Result-cases, Bool-cases,
  ◌≡◌, inl, inr, arith,
}
use wintermute_platform.Platform.{ChildSpec}
use wintermute_platform.Spawn.{
  StartedChild, Output, PeventRunReply, PeventHost, binary_name, run_args, read_reply, pevent_start,
}

-- The launcher exited with success, its output is text, and the reply in it is for this child.
pub record IsReplyTo {W : Type 0} (host : PeventHost W) (spec : ChildSpec) (out : Output)
    (started : StartedChild) : Type 0 where
  pub success : out.success ≡ true
  pub raw : Text
  pub decoded : out.stdout ≡ ok raw
  pub reply : PeventRunReply
  pub parsed : host.parse_reply (trim raw) ≡ ok reply
  pub echoed : reply.id ≡ spec.name
  pub reported :
      record { id = reply.id; child_pid = reply.child_pid; supervisor_pid = reply.supervisor_pid }
      ≡ started

module _ {W : Type 0} (host : PeventHost W) (binary : Option Text) where
  read_reply-IsReplyTo :
      (spec : ChildSpec) (out : Output) (started : StartedChild)
      → read_reply host binary spec out ≡ ok started
      → IsReplyTo host spec out started
  unfolding read_reply
  read_reply-IsReplyTo spec out started h = elim (Bool-cases out.success) [
    | inr s ↦ absurd (ground (arith, h, s))
    | inl s ↦ elim (Result-cases out.stdout) [
      | inr (e, d) ↦ absurd (ground (arith, h, s, d))
      | inl (raw, d) ↦ elim (Result-cases (host.parse_reply (trim raw))) [
        | inr (e, p) ↦ absurd (ground (arith, h, s, d, p))
        | inl (reply, p) ↦ elim (Bool-cases (text_eq reply.id spec.name)) [
          | inr n ↦ absurd (ground (arith, h, s, d, p, n))
          | inl n ↦ record {
            success = s;
            raw = raw;
            decoded = d;
            reply = reply;
            parsed = p;
            echoed = text_eq→≡ reply.id spec.name n;
            reported = ground (arith, h, s, d, p, n);
          }
        ]
      ]
    ]
  ]

  IsReplyTo-read_reply :
      (spec : ChildSpec) (out : Output) (started : StartedChild)
      → IsReplyTo host spec out started
      → read_reply host binary spec out ≡ ok started
  unfolding read_reply
  IsReplyTo-read_reply spec out started r =
      let same = (text_eq_iff r.reply.id spec.name).1 r.echoed in
      rw (r.success, r.decoded, r.parsed, same) (ap ok r.reported)

  pevent_start-ok :
      (spec : ChildSpec) (w : W) (started : StartedChild)
      → (pevent_start host binary spec w).0 ≡ ok started
      → (out : Output) × ((host.output (binary_name binary) (run_args host binary spec) w).0
          ≡ ok out)
        × IsReplyTo host spec out started
  unfolding pevent_start
  pevent_start-ok spec w started h =
      elim (Result-cases (host.output (binary_name binary) (run_args host binary spec) w).0) [
        | inr (e, q) ↦ absurd (ground (arith, h, q))
        | inl (out, q) ↦ (out, q, read_reply-IsReplyTo spec out started (rw (q, pevent_start) at h))
      ]

  -- The launcher reports a start as a success exactly when `pevent run` confirmed it: it ran and
  -- exited with success, its output is a reply that carries the child's own name, and the PIDs are
  -- those of that reply.
  pub pevent_start-IsReplyTo :
      (spec : ChildSpec) (w : W) (started : StartedChild)
      → ((pevent_start host binary spec w).0 ≡ ok started) ↔ (
          (out : Output) × ((host.output (binary_name binary) (run_args host binary spec) w).0
            ≡ ok out)
          × IsReplyTo host spec out started)
  unfolding pevent_start
  pevent_start-IsReplyTo spec w started = (
    pevent_start-ok spec w started,
    λ (out, ran, r). rw (ran, pevent_start) (IsReplyTo-read_reply spec out started r),
  )
