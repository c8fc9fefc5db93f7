-- ===== src/Daemon/Main/Reporting.antt =====
-- What the steps of `daemonize` (src/daemon/main.cpp) leave in the pipe to the original process.
use mathlib.Core.Path.{subst}
use yakut_native.Base.{
  ℕ, zero, suc, ◌≤◌, ◌<◌, ◌≡◌, ◌⊎◌, refl, sym, inl, inr, [], ◌∷◌, ◌++◌, true, false, Option, none,
  some, arith, Text, codes, length, find, assign, find-assign,
}
use yakut_native.Posix.{Outcome, returned, failed}
use yakut_native.Daemon.Process.{
  pipe_write, dev_null, pid_file, Kernel, IsPosix, Process, Run, M, continue, ◌>>◌, emit,
  write_string, Ensures, Ensures-bind,
}
use yakut_native.Daemon.Daemonize.Tables.{find-redirect, new_fd-ne}
use yakut_native.Daemon.Daemonize.{
  Calls, init_complete, exit_failure, exit_with_failure, checked, step_06, step_07_08, open_file,
  step_09, step_10, step_11, step_12, background,
}

-- Nothing was reported.
abbrev pub NotYet : Process → Type 0
NotYet p = (p.piped ≡ []) × (p.serves ≡ false)

-- A process that does not serve has reported nothing, or a text that starts with the letter of its messages.
abbrev pub FailedStart : Process → Type 0
FailedStart p = (p.serves ≡ false) × ((p.piped ≡ []) ⊎ ((rest : Text) × (p.piped ≡ b'F' ∷ rest)))

abbrev pub Reported : ℕ → Process → Type 0
Reported status p = FailedStart p ⊎ ((p.serves ≡ true) × (p.piped ≡ init_complete))

-- The process can report through the descriptor.
abbrev pub Ready : ℕ → Process → Type 0
Ready w p = NotYet p × (find w p.fds ≡ some pipe_write) × (2 < w)

-- A short message of the program.
abbrev pub IsMessage : Text → Type 0
IsMessage text = (length text ≤ 512) × ((rest : Text) × (text ≡ b'F' ∷ rest))

module _ (k : Kernel) (posix : IsPosix k) where
  -- What a write through the descriptor adds.
  pub emit-Ready :
      (w : ℕ) (text : Text) (p : Process)
      → find w p.fds ≡ some pipe_write
      → emit text (find w p.fds) p ≡ record p { piped = p.piped ++ text }
  unfolding emit
  emit-Ready w text p h = rw h refl

  -- A message and what follows it.
  pub reported_text :
      (msg more : Text) (p : Process)
      → IsMessage msg
      → NotYet p
      → FailedStart (record p { piped = (p.piped ++ k.write msg) ++ more })
  reported_text msg more p (short, (rest, starts)) (silent, idle) =
      (idle, inr (rest ++ more, rw (silent, posix.is_atomic msg short, starts) refl))

  pub two_texts-Reported :
      (status w : ℕ) (msg more : Text) (p : Process)
      → IsMessage msg
      → Ready w p
      → let q = emit (k.write msg) (find w p.fds) p in Reported status (emit more (find w q.fds) q)
  two_texts-Reported status w msg more p m r = rw (emit-Ready w (k.write msg) p r.1) (
      rw (emit-Ready w more (record p { piped = p.piped ++ k.write msg }) r.1)
        (inl (reported_text msg more p m r.0)))

  module _ {ℓ} {A : Type ℓ} (Q : A → Process → Type 0) (w : ℕ) where
    pub exit_with_failure-Reported :
        (msg : Text) (errno : ℕ) (p : Process)
        → IsMessage msg
        → Ready w p
        → Ensures Reported Q (exit_with_failure k w msg errno p)
    unfolding exit_with_failure write_string
    exit_with_failure-Reported msg errno p m r =
        two_texts-Reported exit_failure w msg (k.write (k.strerror errno)) p m r

  -- A step that may fail: it reports, or leaves the process as it is.
  pub checked-Reported :
      (w : ℕ) (msg : Text) (failure : Option ℕ) (p : Process)
      → IsMessage msg
      → Ready w p
      → Ensures Reported (λ _ q. q ≡ p) (checked k w msg failure p)
  unfolding checked
  checked-Reported w msg none p m r = refl
  checked-Reported w msg (some errno) p m r =
      exit_with_failure-Reported {A = Unit {0}} (λ _ q. q ≡ p) w msg errno p m r

  -- A step after a call that may fail.
  pub then-Reported {ℓ} :
      {A : Type ℓ} (Q : A → Process → Type 0) (w : ℕ) (msg : Text) (failure : Option ℕ)
      (p : Process) (f : M A)
      → IsMessage msg
      → Ready w p
      → Ensures Reported Q (f p)
      → Ensures Reported Q ((checked k w msg failure >> f) p)
  then-Reported Q w msg failure p f m r h =
      Ensures-bind Reported (λ _ q. q ≡ p) Q (checked k w msg failure p) (λ _. f)
        (checked-Reported w msg failure p m r)
        (λ _ q e. subst (λ s. Ensures Reported Q (f s)) (sym e) h)

  abbrev pub Onward : ℕ → Unit {0} → Process → Type 0
  Onward w _ p = Ready w p

  pub checked-Ready :
      (w : ℕ) (msg : Text) (failure : Option ℕ) (p : Process)
      → IsMessage msg
      → Ready w p
      → Ensures Reported (Onward w) (checked k w msg failure p)
  unfolding checked
  checked-Ready w msg none p m r = r
  checked-Ready w msg (some errno) p m r =
      exit_with_failure-Reported {A = Unit {0}} (Onward w) w msg errno p m r

  pub step_06-Reported :
      (setsid : Option ℕ) (w : ℕ) (p : Process)
      → Ready w p
      → Ensures Reported (Onward w) (step_06 k setsid w p)
  unfolding step_06
  step_06-Reported setsid w p r =
      then-Reported (Onward w) w (codes "Failed to setsid: ") setsid p _ (omega arith, (_, refl)) r
        r

  pub step_07_08-Reported :
      (fork : Outcome ℕ) (w : ℕ) (p : Process)
      → Ready w p
      → Ensures Reported (Onward w) (step_07_08 k fork w p)
  unfolding step_07_08
  step_07_08-Reported (failed errno) w p r =
      exit_with_failure-Reported (Onward w) w (codes "Failed to fork: ") errno p
        (omega arith, (_, refl)) r
  step_07_08-Reported (returned zero) w p r = r
  step_07_08-Reported (returned (suc pid)) w p r = inl (r.0.1, inl r.0.0)

  pub step_09-Reported :
      (opens : Option ℕ) (w : ℕ) (p : Process)
      → Ready w p
      → Ensures Reported (Onward w) (step_09 k opens w p)
  unfolding step_09 open_file
  step_09-Reported opens w p r =
      then-Reported (Onward w) w (codes "Failed to open(/dev/null): ") opens p _
        (omega arith, (_, refl)) r
        (
          r.0,
          find-redirect w _ pipe_write _
              (rw (find-assign w (k.new_fd p.fds) dev_null p.fds)
                (rw (new_fd-ne k posix w pipe_write p.fds r.1) r.1))
              (new_fd-ne k posix w pipe_write p.fds r.1) r.2,
          r.2,
        )

  pub step_11-Reported :
      (chdir : Option ℕ) (w : ℕ) (p : Process)
      → Ready w p
      → Ensures Reported (Onward w) (step_11 k chdir w p)
  unfolding step_11
  step_11-Reported chdir w p r =
      then-Reported (Onward w) w (codes "Failed to chdir(/): ") chdir p _ (omega arith, (_, refl)) r
        r

  pub step_12-Reported :
      (c : Calls) (w : ℕ) (p : Process) → Ready w p → Ensures Reported (Onward w) (step_12 k c w p)
  unfolding step_12 open_file
  step_12-Reported c w p r =
      then-Reported (Onward w) w (codes "Failed to create on PID file: ") c.open_pid_file p _
        (omega arith, (_, refl)) r
        (then-Reported (Onward w) w (codes "Failed to lock PID file: ") c.lockf q _
          (omega arith, (_, refl)) s
          (then-Reported (Onward w) w (codes "Failed to ftruncate PID file: ") c.ftruncate q _
            (omega arith, (_, refl)) s
            (checked-Ready w (codes "Failed to write to PID file: ") c.write_pid q
              (omega arith, (_, refl)) s)))
    where
      q : Process
      q = record p { fds = assign (k.new_fd p.fds) pid_file p.fds }

      s : Ready w q
      s = (
        r.0,
        rw (find-assign w (k.new_fd p.fds) pid_file p.fds)
            (rw (new_fd-ne k posix w pipe_write p.fds r.1) r.1),
        r.2,
      )

  -- A child of the first fork comes to the end of its steps with the pipe untouched, or has reported.
  pub background-Reported :
      (c : Calls) (w : ℕ) (p : Process)
      → Ready w p
      → Ensures Reported (λ fd q. (fd ≡ w) × Ready w q) (background k c w p)
  unfolding background step_10
  background-Reported c w p r =
      onward (step_06 k c.setsid w p) _ (step_06-Reported c.setsid w p r) λ p₁ r₁.
        onward (step_07_08 k c.second_fork w p₁) _ (step_07_08-Reported c.second_fork w p₁ r₁)
          λ p₂ r₂.
            onward (step_09 k c.open_dev_null w p₂) _ (step_09-Reported c.open_dev_null w p₂ r₂)
              λ p₃ r₃.
                onward (step_11 k c.chdir w (record p₃ { umask = 0 })) _
                  (step_11-Reported c.chdir w (record p₃ { umask = 0 }) r₃)
                  λ p₄ r₄.
                    onward (step_12 k c w p₄) _ (step_12-Reported c w p₄ r₄) λ p₅ r₅. (refl, r₅)
    where
      onward :
          (m : Run (Unit {0})) (f : Unit {0} → M ℕ)
          → Ensures Reported (Onward w) m
          → ((q : Process) → Ready w q → Ensures Reported (λ fd o. (fd ≡ w) × Ready w o) (f tt q))
          → Ensures Reported (λ fd o. (fd ≡ w) × Ready w o) (continue m f)
      onward m f h g =
          Ensures-bind Reported (Onward w) (λ fd o. (fd ≡ w) × Ready w o) m f h (λ _. g)
