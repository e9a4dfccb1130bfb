-- ===== src/WmdInit/Exits.antt =====
-- src/bin/wmd_init.rs: the exit code of the daemon.
use wintermute_platform.Prelude.{
  Bool-cases, List, [], ◌∷◌, Text, text, text_eq, text_eq_iff, All, Result-cases, ok, FileRead,
  contents, not_found, failed, ◌≡◌, ◌↔◌, ◌⊎◌, inl, inr, refl, arith, true,
}
use wintermute_platform.Platform.{bootstrap_env_path}
use wintermute_platform.Platform.Env.{load_optional}
use wintermute_platform.Ready.{or_path}
use wintermute_platform.Spawn.{Spawner}
use wintermute_platform.Supervisor.Tasks.{Turn}
use wintermute_platform.WmdInit.{
  CliArgs, default_cli, parse_args, parse_cli, skip_program, InitHost, run, run_loaded, shut_down,
  exit_of, main,
}

abbrev IsSpawnFlag : Text → Type 0
IsSpawnFlag a = a ≡ text "--spawn"

-- The bootstrap file as the daemon finds it.
abbrev pub bootstrap : {W : Type 0} → InitHost W → FileRead
bootstrap host = host.read (or_path bootstrap_env_path host.bootstrap_override)

-- There is no bootstrap file, or it is read and SIGTERM can be handled.
abbrev pub CanRun : {W : Type 0} → InitHost W → Type 0
CanRun host =
    (bootstrap host ≡ not_found)
    ⊎ ((file : Text) × (bootstrap host ≡ contents file) × (host.term_signal ≡ ok tt))

FileRead-cases :
    (r : FileRead)
    → (r ≡ not_found) ⊎ (((s : Text) × (r ≡ contents s)) ⊎ ((e : Text) × (r ≡ failed e)))
FileRead-cases not_found = inl refl
FileRead-cases (contents s) = inr (inl (s, refl))
FileRead-cases (failed e) = inr (inr (e, refl))

parse_args-All :
    (args : List Text) (cli : CliArgs)
    → ((cli' : CliArgs) × (parse_args args cli ≡ ok cli')) ↔ All IsSpawnFlag args
unfolding parse_args
parse_args-All [] cli = (λ h. tt, λ h. (cli, refl))
parse_args-All (a ∷ args) cli = elim (Bool-cases (text_eq a (text "--spawn"))) [
  | inl e ↦
      let rest = parse_args-All args (record cli { spawn = true }) in
      (
        λ (cli', q).
            ((text_eq_iff a (text "--spawn")).0 e, rest.0 (cli', (rw (e, parse_args) at q))),
        λ h. rw (e, parse_args) (rest.1 h.1),
      )
  | inr e ↦ (
    λ (cli', q). absurd (ground (arith, e, q)),
    λ h. absurd (ground (arith, e, (text_eq_iff a (text "--spawn")).1 h.0)),
  )
]

module _ {W : Type 0} (spawner : Spawner W) (host : InitHost W) where
  run-CanRun :
      (cli : CliArgs) (turns : List Turn) (w : W)
      → (exit_of (run spawner host cli turns w) ≡ 0) ↔ CanRun host
  unfolding run run_loaded load_optional shut_down
  run-CanRun cli turns w = elim (FileRead-cases (bootstrap host)) [
    | inl q ↦ (λ h. inl q, λ h. rw (q, run, load_optional, run_loaded) refl)
    | inr (inr (e, q)) ↦ (
      λ h. absurd (ground (arith, h, q)),
      λ h. elim h [
        | inl r ↦ absurd (ground (arith, q, r))
        | inr r ↦ absurd (ground (arith, q, r.1))
      ],
    )
    | inr (inl (file, q)) ↦ elim (Result-cases host.term_signal) [
      | inl (u, r) ↦
          (λ h. inr (file, q, r), λ h. rw (q, r, run, load_optional, run_loaded, shut_down) refl)
      | inr (e, r) ↦ (
        λ h. absurd (ground (arith, h, q, r)),
        λ h. elim h [
          | inl k ↦ absurd (ground (arith, q, k))
          | inr k ↦ absurd (ground (arith, r, k.2))
        ],
      )
    ]
  ]

  -- The daemon exits with 0 exactly when every argument is `--spawn` and either there is no
  -- bootstrap file, or it is read and the handler of SIGTERM can be registered, whatever happens to
  -- the children and on the socket.
  pub main-CanRun :
      (args : List Text) (turns : List Turn) (w : W)
      → (main spawner host args turns w ≡ 0)
        ↔ (All (λ a. a ≡ text "--spawn") (skip_program args) × CanRun host)
  unfolding main parse_cli
  main-CanRun args turns w = elim (Result-cases (parse_cli args)) [
    | inl (cli, q) ↦
        let flags = (parse_args-All (skip_program args) default_cli).0 (cli, q) in
        let exit = run-CanRun cli turns w in
        (λ h. (flags, exit.0 (rw (q, main) at h)), λ h. rw (q, main) (exit.1 h.1))
    | inr (e, q) ↦ (
      λ h. absurd (ground (arith, h, q)),
      λ h.
          let (cli, r) = (parse_args-All (skip_program args) default_cli).1 h.0 in
          absurd (ground (arith, q, r)),
    )
  ]
