-- ===== src/Daemon/Main/Report.antt =====
-- What the original process learns of the start of the daemon (src/daemon/main.cpp).
use mathlib.Core.Path.{subst}
use yakut_native.Base.{
  ℕ, zero, suc, ◌+◌, ◌-◌, ◌≤◌, ◌<◌, ◌≡◌, ◌⊎◌, ◌↔◌, ◌∙◌, refl, sym, ap, inl, inr, List, [], ◌∷◌,
  Bool, true, false, Option, none, some, arith, ◌==◌, if◌then◌else◌, Bool-cases, Text, same, c_str,
  length, take, find, erase, assign, find-erase,
}
use yakut_native.Posix.{Outcome, returned, failed}
use yakut_native.Daemon.Process.{
  Fds, pipe_read, pipe_write, Kernel, IsPosix, Process, Run, exits, goes_on, continue, status_of,
  process_of, Ensures, Ensures-bind,
}
use yakut_native.Daemon.Daemonize.Tables.{HasStdio, HasStdio-close_all, new_ends}
use yakut_native.Daemon.Main.Reporting.{NotYet, Reported, Ready, background-Reported}
use yakut_native.Daemon.Main.Serving.{Never, serve-Reported}
use yakut_native.Daemon.Daemonize.{
  Ends, init_complete, exit_success, exit_failure, close_all, setup_signal_handlers, open_pipe,
  step_01, step_05, step_15, background, on_side, daemonize,
}
use yakut_native.Daemon.Main.{World, has_dev_flag, serve, channel, main}

take-all : (n : ℕ) (text : Text) → length text ≤ n → take n text ≡ text
take-all zero [] h = refl
take-all zero (c ∷ text) h = absurd (omega arith)
take-all (suc n) [] h = refl
take-all (suc n) (c ∷ text) h = ap (◌∷◌ c) (take-all n text (omega arith))

-- What a read of the pipe gives: its first bytes, and, since a write of at most 512 bytes is not split and no
-- message is shorter, at least as many as `init_complete` has.
abbrev pub IsRead : Text → Text → Type 0
IsRead piped bytes = (n : ℕ) × (length init_complete ≤ n) × (bytes ≡ take n piped)

-- The original process takes the report for success exactly if the other one serves.
reads_report :
    (status : ℕ) (q : Process) (bytes : Text)
    → Reported status q
    → IsRead q.piped bytes
    → same (c_str bytes) init_complete ≡ q.serves
unfolding c_str
reads_report status q bytes (inr (serves, done)) (n, long, e) =
    rw (e, done, serves) (rw (take-all n init_complete long) refl)
reads_report status q bytes (inl (idle, inl silent)) (zero, long, e) = absurd (omega arith)
reads_report status q bytes (inl (idle, inl silent)) (suc n, long, e) = rw (e, silent, idle) refl
reads_report status q bytes (inl (idle, inr (rest, starts))) (zero, long, e) = absurd (omega arith)
reads_report status q bytes (inl (idle, inr (rest, starts))) (suc n, long, e) =
    rw (e, starts, idle) refl

is_success :
    (b : Bool) → (some (if b then exit_success else exit_failure) ≡ some exit_success) ↔ (b ≡ true)
is_success true = ((λ _. refl), (λ _. refl))
is_success false = ((λ s. absurd (ground (arith, s))), (λ s. absurd (ground (arith, s))))

-- The two processes of the first fork: what their calls return.
abbrev pub as_child : {T : Type 0} → World T → World T
as_child world = record world { calls = record world.calls { first_fork = returned 0 } }

abbrev pub as_original : {T : Type 0} → World T → ℕ → Text → World T
as_original world pid bytes = record world {
  calls = record world.calls { first_fork = returned (suc pid); read = returned bytes };
}

module _ (k : Kernel) (posix : IsPosix k) where
  -- The pipe is there: its ends are two descriptors that are not the standard ones.
  abbrev Forking : Ends → Process → Type 0
  Forking ends p =
      NotYet p
      × (find ends.write_end p.fds ≡ some pipe_write)
      × (2 < ends.write_end)
      × ((ends.read_end == ends.write_end) ≡ false)

  step_01-cases :
      (limit : Outcome ℕ) (pipe : Option ℕ) (p : Process)
      → HasStdio p.fds
      → NotYet p
      → ((q : Process) × (step_01 k limit pipe p ≡ exits exit_failure q) × NotYet q)
        ⊎ ((ends : Ends) × (q : Process) × (step_01 k limit pipe p ≡ goes_on ends q)
            × Forking ends q)
  unfolding step_01 open_pipe
  step_01-cases (failed errno) pipe p h q = inl (p, refl, q)
  step_01-cases (returned limit) (some errno) p h q = inl (_, refl, q)
  step_01-cases (returned limit) none p h q = inr (_, _, refl, (q, opened.0, opened.1, opened.2))
    where
      fds : Fds
      fds = close_all (limit + 1 - 3) 3 p.fds

      r : ℕ
      r = k.new_fd fds

      w : ℕ
      w = k.new_fd (assign r pipe_read fds)

      opened :
          (find w (assign w pipe_write (assign r pipe_read fds)) ≡ some pipe_write)
          × (2 < w)
          × ((r == w) ≡ false)
      opened = new_ends k posix fds (HasStdio-close_all (limit + 1 - 3) p.fds h)

  -- The process that serves, or would: its run, from the pipe on.
  forked-Reported :
      {T : Type 0} (world : World T) (ends : Ends) (args : List Text) (p : Process)
      → Forking ends p
      → Ensures Reported Never (
          continue
            (continue (step_05 k (returned 0) ends p) (on_side k world.calls))
            (λ fd. serve k world fd true args))
  unfolding step_05 on_side
  forked-Reported world ends args p f =
      Ensures-bind Reported (λ fd q. (fd ≡ ends.write_end) × Ready ends.write_end q) Never
        (background k world.calls ends.write_end (record p { fds = erase ends.read_end p.fds })) _
        (background-Reported k posix world.calls ends.write_end _
          (f.0, rw (find-erase ends.write_end ends.read_end p.fds) (rw f.3 f.1), f.2))
        λ fd q h.
          subst (λ w. Ensures Reported Never (serve k world w true args q)) (sym h.0)
            (serve-Reported k posix world ends.write_end args q h.1)

  -- How `main` goes on after the first step, in a daemon.
  main-continue :
      {T : Type 0} (world : World T) (args : List Text) (p : Process)
      → has_dev_flag args ≡ false
      → main k world args p
        ≡ continue
            (continue (step_01 k world.calls.getrlimit world.calls.pipe p) λ ends q.
              continue
                (step_05 k world.calls.first_fork ends (record q { handles_signals = true }))
                (on_side k world.calls))
            (λ fd. serve k world fd true args)
  unfolding main channel daemonize setup_signal_handlers
  main-continue world args p dev = rw dev refl

  original_status :
      {T : Type 0} (world : World T) (pid : ℕ) (bytes : Text) (ends : Ends) (args : List Text)
      (p : Process)
      → status_of (
          continue
            (continue
              (step_05 k (returned (suc pid)) ends p)
              (on_side k (as_original world pid bytes).calls))
            (λ fd. serve k (as_original world pid bytes) fd true args))
        ≡ some (if same (c_str bytes) init_complete then exit_success else exit_failure)
  unfolding step_05 on_side
  original_status world pid bytes ends args p =
      elim (Bool-cases (same (c_str bytes) init_complete)) [
        | inl e ↦ rw (e, step_15) refl
        | inr e ↦ rw (e, step_15) refl
      ]

  reads_run :
      (run : Run (Unit {0})) (bytes : Text)
      → Ensures Reported Never run
      → IsRead (process_of run).piped bytes
      → same (c_str bytes) init_complete ≡ (process_of run).serves
  reads_run (exits status q) bytes h read = reads_report status q bytes h read
  reads_run (goes_on u q) bytes h read = absurd h

  -- The original process exits with success exactly if the child, or the child's child, went on to its run loop:
  -- for any outcomes of the calls, the configuration, the logging and the engine, if the standard files are open,
  -- and the read of the pipe succeeds.
  pub main_reports :
      {T : Type 0} (world : World T) (args : List Text) (pid : ℕ) (bytes : Text) (p : Process)
      → has_dev_flag args ≡ false
      → HasStdio p.fds
      → NotYet p
      → let daemon = process_of (main k (as_child world) args p) in
        IsRead daemon.piped bytes
        → (status_of (main k (as_original world pid bytes) args p) ≡ some exit_success)
          ↔ (daemon.serves ≡ true)
  main_reports world args pid bytes p dev h q read =
      elim (step_01-cases world.calls.getrlimit world.calls.pipe p h q) [
        | inl (p', e, q') ↦ rw (main-continue (as_child world) args p dev) (
            rw (main-continue (as_original world pid bytes) args p dev)
              (rw e ((λ s. absurd (ground (arith, s))), (λ s. absurd (ground (arith, s, q'.1))))))
        | inr (ends, p', e, f) ↦
            let run =
              continue
                (continue (step_05 k (returned 0) ends (record p' { handles_signals = true }))
                  (on_side k (as_child world).calls))
                (λ fd. serve k (as_child world) fd true args) in
            let same_run : main k (as_child world) args p ≡ run =
              main-continue (as_child world) args p dev ∙ (rw e refl) in
            let taken =
              reads_run run bytes
                (forked-Reported (as_child world) ends args (record p' { handles_signals = true })
                  f)
                (subst (λ r. IsRead (process_of r).piped bytes) same_run read) in
            rw same_run (
              rw (main-continue (as_original world pid bytes) args p dev) (
                rw e (
                  rw
                    (original_status world pid bytes ends args
                      (record p' { handles_signals = true }))
                    (rw taken (is_success _)))))
      ]
