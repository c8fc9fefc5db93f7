-- ===== src/Daemon/Main/Starting.antt =====
-- The start of the daemon (src/daemon/main.cpp) when nothing fails.
use yakut_native.Base.{
  ℕ, ◌<◌, ◌≡◌, ◌∙◌, ap, refl, List, [], ◌++◌, true, false, none, some, arith, ltb, ◌==◌,
  if◌then◌else◌, ◌⊎◌, inl, inr, Bool-cases, Option, Text, find, erase, find-erase,
}
use yakut_native.Posix.{Outcome}
use yakut_native.Daemon.Config.{Root, make, save}
use yakut_native.Daemon.Engine.{init}
use yakut_native.Daemon.Main.Serving.{find-open_sinks, rest-open_sinks, open_sinks-keeps}
use yakut_native.Daemon.Process.{
  File, log_sink, pipe_write, dev_null, pid_file, Kernel, IsPosix, Process, exits, goes_on, emit,
}
use yakut_native.Daemon.Daemonize.{init_complete, exit_success, daemonize}
use yakut_native.Daemon.Daemonize.Tables.{HasStdio}
use yakut_native.Daemon.Daemonize.Descriptors.{successful, IsDaemon, daemonize_isolates}
use yakut_native.Daemon.Main.{
  open_sinks, setup_logging, World, loaded, has_dev_flag, config_path, default_path, serve, main,
  run_engine, load_config, channel,
}

-- What the daemonization left open: the standard files, and the lock.
abbrev pub held : ℕ → ℕ → Option File
held lock n = if ltb n 3 then some dev_null else if n == lock then some pid_file else none

-- The end of a daemon that served until a signal: nothing but the null device, its lock and the sinks of its
-- loggers is open, and the configuration was saved.
pub record Served {T : Type 0} (world : World T) (root : Root) (before p : Process) : Type 0 where
  pub lock : ℕ
  pub descriptors :
      (n : ℕ)
      → (find n p.fds ≡ held lock n) ⊎ ((held lock n ≡ none) × (find n p.fds ≡ some log_sink))
  pub serves : p.serves ≡ true
  pub reports : p.piped ≡ init_complete
  pub final :
      p.final
      ≡ some (save world.save_time world.save_writing (init world.engine (make root)).config)

module _ (k : Kernel) (posix : IsPosix k) {T : Type 0} (world : World T) where
  serve-Served :
      (root : Root) (args : List Text) (fd : ℕ) (p q : Process)
      → IsDaemon p fd q
      → p.piped ≡ []
      → world.load (config_path (default_path true) args) ≡ loaded root
      → world.logging_throws ≡ none
      → world.init_throws ≡ false
      → (init world.engine (make root)).message ≡ none
      → world.run_throws ≡ false
      → (r : Process) × (serve k world fd true args q ≡ exits exit_success r)
        × Served world root p r
  unfolding serve load_config run_engine setup_logging
  serve-Served root args fd p q d silent load logging no_throw starts no_end = (
    record o {
      piped = o.piped ++ k.write init_complete;
      fds = erase fd o.fds;
      serves = true;
      final = some (save world.save_time world.save_writing (init world.engine (make root)).config);
    },
    rw load (rw logging (rw no_throw (rw starts (rw reported (rw no_end refl))))),
    record {
      lock = d.lock;
      descriptors = left_open;
      serves = refl;
      reports =
          rw (ap (λ (u : Process). u.piped) rest, d.piped, silent)
            (posix.is_atomic init_complete (omega arith));
      final = refl;
    },
  )
    where
      o : Process
      o = open_sinks k world.sinks q

      rest : o ≡ record q { fds = o.fds }
      rest = rest-open_sinks k posix world.sinks q

      there : find fd o.fds ≡ some pipe_write
      there =
          open_sinks-keeps k posix world.sinks fd pipe_write q
            (d.descriptors fd ∙ ground (arith, d.is_above))

      left_open :
          (n : ℕ)
          → (find n (erase fd o.fds) ≡ held d.lock n)
            ⊎ ((held d.lock n ≡ none) × (find n (erase fd o.fds) ≡ some log_sink))
      left_open n = elim (Bool-cases (fd == n)) [
        | inl own ↦ inl (ground (arith, find-erase n fd o.fds, own, d.is_above))
        | inr other ↦ elim (find-open_sinks k posix world.sinks n q) [
          | inl kept ↦ inl (ground (arith, find-erase n fd o.fds, other, kept, d.descriptors n))
          | inr (missing, sink) ↦ inr (
            ground (arith, other, missing, d.descriptors n),
            ground (arith, find-erase n fd o.fds, other, sink),
          )
        ]
      ]

      reported :
          emit (k.write init_complete) (find fd o.fds) o
          ≡ record o { piped = o.piped ++ k.write init_complete }
      reported = unfold emit in rw there refl

  main-daemonize :
      (args : List Text) (p q : Process) (fd : ℕ)
      → has_dev_flag args ≡ false
      → daemonize k world.calls p ≡ goes_on fd q
      → main k world args p ≡ serve k world fd true args q
  unfolding main channel
  main-daemonize args p q fd dev e = rw dev (rw e refl)

  pub main-Served :
      (limit : ℕ) (read : Outcome Text) (root : Root) (args : List Text) (p : Process)
      → world.calls ≡ successful limit read
      → HasStdio p.fds
      → ((n : ℕ) → limit < n → find n p.fds ≡ none)
      → p.piped ≡ []
      → has_dev_flag args ≡ false
      → world.load (config_path (default_path true) args) ≡ loaded root
      → world.logging_throws ≡ none
      → world.init_throws ≡ false
      → (init world.engine (make root)).message ≡ none
      → world.run_throws ≡ false
      → (q : Process) × (main k world args p ≡ exits exit_success q) × Served world root p q
  main-Served limit read root args p calls stdio covers silent dev load logging no_throw starts
        no_end =
      let (fd, d, e, is_daemon) = daemonize_isolates k posix limit read p stdio covers in
      let served =
        serve-Served root args fd p d is_daemon silent load logging no_throw starts no_end in
      (
        served.0,
        main-daemonize args p d fd dev ((ap (λ c. daemonize k c p) calls) ∙ e) ∙ served.1,
        served.2,
      )
