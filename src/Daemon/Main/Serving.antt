-- ===== src/Daemon/Main/Serving.antt =====
-- What the rest of `main` (src/daemon/main.cpp) leaves in the pipe to the original process.
use mathlib.Core.Path.{subst}
use yakut_native.Base.{
  Bool-cases, ℕ, zero, suc, ◌≡◌, ◌⊎◌, ◌∙◌, refl, ap, inl, inr, List, [], ◌∷◌, ◌++◌, Bool, true,
  false, Option, none, some, arith, Text, codes, take, erase, assign, find, find-assign, ◌==◌,
}
use yakut_native.Daemon.Config.{Config}
use yakut_native.Daemon.Engine.{Message, init}
use yakut_native.Daemon.Process.{
  pipe_write, File, log_sink, Kernel, IsPosix, Process, write_string, Ensures, Ensures-bind,
}
use yakut_native.Daemon.Main.Reporting.{
  NotYet, FailedStart, Reported, Ready, emit-Ready, two_texts-Reported,
}
use yakut_native.Daemon.Daemonize.{init_complete, exit_failure, step_14}
use yakut_native.Daemon.Main.{
  World, Loading, loaded, refused, refused_unknown, load_config, open_sinks, setup_logging, notify,
  run_loop, on_init, run_engine, serve, on_loading, fail_with, config_path, default_path,
  message_text,
}

abbrev pub Never {ℓ} : {A : Type ℓ} → A → Process → Type 0
Never _ p = ⊥

module _ (k : Kernel) (posix : IsPosix k) where
  -- One message of any length.
  pub long_text :
      (msg : Text) (p : Process)
      → ((rest : Text) × (msg ≡ b'F' ∷ rest))
      → NotYet p
      → FailedStart (record p { piped = p.piped ++ k.write msg })
  long_text msg p (rest, starts) (silent, idle) =
      (idle, rw silent (written (posix.is_prefix msg).0 (posix.is_prefix msg).1))
    where
      written :
          (n : ℕ)
          → k.write msg ≡ take n msg
          → (k.write msg ≡ []) ⊎ ((more : Text) × (k.write msg ≡ b'F' ∷ more))
      written zero e = inl e
      written (suc n) e = inr (take n rest, e ∙ ap (take (suc n)) starts)

  pub fail_with-Reported :
      (w : ℕ) (msg : Text) (p : Process)
      → ((rest : Text) × (msg ≡ b'F' ∷ rest))
      → Ready w p
      → Ensures Reported (λ _ q. Ready w q) (fail_with k w msg p)
  unfolding fail_with write_string
  fail_with-Reported w msg p starts r =
      rw (emit-Ready k posix w (k.write msg) p r.1) (inl (long_text msg p starts r.0))

  pub on_loading-Reported :
      (w : ℕ) (path : Text) (answer : Loading) (p : Process)
      → Ready w p
      → Ensures Reported (λ _ q. Ready w q) (on_loading k w path answer p)
  unfolding on_loading
  on_loading-Reported w path (loaded root) p r = r
  on_loading-Reported w path (refused what) p r = fail_with-Reported w _ p (_, refl) r
  on_loading-Reported w path refused_unknown p r = fail_with-Reported w _ p (_, refl) r

  -- A descriptor is as it was, or was not open and is one of the sinks'.
  pub find-open_sinks :
      (n fd : ℕ) (p : Process)
      → let fds = (open_sinks k n p).fds in
        (find fd fds ≡ find fd p.fds) ⊎ ((find fd p.fds ≡ none) × (find fd fds ≡ some log_sink))
  unfolding open_sinks
  find-open_sinks zero fd p = inl refl
  find-open_sinks (suc n) fd p = elim (Bool-cases (k.new_fd p.fds == fd)) [
    | inl same ↦
        let fresh : find fd p.fds ≡ none = ground (arith, same, posix.is_new p.fds) in
        let opened : find fd q.fds ≡ some log_sink =
          ground (arith, same, find-assign fd (k.new_fd p.fds) log_sink p.fds) in
        elim (find-open_sinks n fd q) [
          | inl kept ↦ inr (fresh, kept ∙ opened)
          | inr (missing, later) ↦ inr (fresh, later)
        ]
    | inr other ↦
        subst
          (λ (file : Option File).
            let fds = (open_sinks k n q).fds in
            (find fd fds ≡ file) ⊎ ((file ≡ none) × (find fd fds ≡ some log_sink)))
          (ground (arith, other, find-assign fd (k.new_fd p.fds) log_sink p.fds))
          (find-open_sinks n fd q)
  ]
    where
      q : Process
      q = record p { fds = assign (k.new_fd p.fds) log_sink p.fds }

  -- What is open stays.
  pub open_sinks-keeps :
      (n fd : ℕ) (f : File) (p : Process)
      → find fd p.fds ≡ some f
      → find fd (open_sinks k n p).fds ≡ some f
  open_sinks-keeps n fd f p there = elim (find-open_sinks n fd p) [
    | inl kept ↦ kept ∙ there
    | inr (missing, later) ↦ absurd (ground (arith, missing, there))
  ]

  pub rest-open_sinks :
      (n : ℕ) (p : Process) → open_sinks k n p ≡ record p { fds = (open_sinks k n p).fds }
  unfolding open_sinks
  rest-open_sinks zero p = refl
  rest-open_sinks (suc n) p =
      rest-open_sinks n (record p { fds = assign (k.new_fd p.fds) log_sink p.fds })

  open_sinks-Ready : (n w : ℕ) (p : Process) → Ready w p → Ready w (open_sinks k n p)
  open_sinks-Ready n w p r =
      let rest = rest-open_sinks n p in
      (
        (ap (λ (q : Process). q.piped) rest ∙ r.0.0, ap (λ (q : Process). q.serves) rest ∙ r.0.1),
        open_sinks-keeps n w pipe_write p r.1,
        r.2,
      )

  pub setup_logging-Reported :
      (sinks : ℕ) (what : Option Text) (w : ℕ) (p : Process)
      → Ready w p
      → Ensures Reported (λ _ q. Ready w q) (setup_logging k sinks what w p)
  unfolding setup_logging write_string
  setup_logging-Reported sinks none w p r = open_sinks-Ready sinks w p r
  setup_logging-Reported sinks (some what) w p r =
      two_texts-Reported k posix exit_failure w (codes "Failed to setup logging: ") (k.write what)
        (open_sinks k sinks p) (omega arith, (_, refl)) (open_sinks-Ready sinks w p r)

  module _ {T : Type 0} (world : World T) where
    pub run_loop-Reported :
        (c : Config) (throws : Bool) (p : Process)
        → (p.serves ≡ true) × (p.piped ≡ init_complete)
        → Ensures Reported Never (run_loop k world c throws p)
    unfolding run_loop
    run_loop-Reported c true p h = inr h
    run_loop-Reported c false p h = inr h

    pub on_init-Reported :
        (w : ℕ) (c : Config) (message : Option Message) (p : Process)
        → Ready w p
        → Ensures Reported Never (on_init k world w true c message p)
    unfolding on_init write_string
    on_init-Reported w c (some message) p r =
        two_texts-Reported k posix exit_failure w (codes "Failed to init engine: ")
          (k.write (message_text message)) p (omega arith, (_, refl)) r
    on_init-Reported w c none p r =
        unfold notify step_14 in
        rw (emit-Ready k posix w (k.write init_complete) p r.1) (
          run_loop-Reported c world.run_throws
            (record p {
              piped = p.piped ++ k.write init_complete;
              fds = erase w p.fds;
              serves = true;
            })
            (refl, rw (r.0.0, posix.is_atomic init_complete (omega arith)) refl))

    pub run_engine-Reported :
        (w : ℕ) (throws : Bool) (c : Config) (p : Process)
        → Ready w p
        → Ensures Reported Never (run_engine k world w true throws c p)
    unfolding run_engine
    run_engine-Reported w true c p r = inl (r.0.1, inl r.0.0)
    run_engine-Reported w false c p r =
        let outcome = init world.engine c in on_init-Reported w outcome.config outcome.message p r

    pub serve-Reported :
        (w : ℕ) (args : List Text) (p : Process)
        → Ready w p
        → Ensures Reported Never (serve k world w true args p)
    unfolding serve load_config
    serve-Reported w args p r =
        Ensures-bind Reported (λ _ q. Ready w q) Never (load_config k world.load w true args p) _
          (on_loading-Reported w (config_path (default_path true) args) _ p r)
          λ c q s.
            Ensures-bind Reported (λ _ o. Ready w o) Never
              (setup_logging k world.sinks world.logging_throws w q) _
              (setup_logging-Reported world.sinks world.logging_throws w q s)
              λ _ o ready. run_engine-Reported w world.init_throws c o ready
