-- ===== src/Daemon/Daemonize.antt =====
-- `daemonize` of src/daemon/main.cpp, and its steps.
--
-- Each process runs the same code; `Calls` holds what its system calls return: `none` is success, `some` an
-- `errno`. A fork returns 0 in the process that it makes. An entry of pipe_fds that is -1 is left out.
pub mod Tables
pub mod Descriptors
use yakut_native.Base.{
  ℕ, zero, suc, ◌+◌, ◌-◌, List, [], ◌∷◌, Bool, true, false, Option, none, some, ltb, ◌==◌,
  if◌then◌else◌, Text, codes, same, c_str, find, erase, assign,
}
use yakut_native.Posix.{Outcome, returned, failed}
use yakut_native.Daemon.Process.{
  Fds, File, goes_on, pipe_read, pipe_write, dev_null, pid_file, Kernel, Process, M, ◌>>=◌, ◌>>◌,
  pure, exit, change, write_string,
}

abbrev pub init_complete : Text
init_complete = codes "init_complete"

abbrev pub exit_success : ℕ
exit_success = 0

abbrev pub exit_failure : ℕ
exit_failure = 1

pub record Calls : Type 0 where
  -- The soft limit of RLIMIT_NOFILE, below 2 ^ 31 - 1: at more, the loop's `int` overflows.
  pub getrlimit : Outcome ℕ
  pub pipe : Option ℕ
  pub first_fork : Outcome ℕ
  pub setsid : Option ℕ
  pub second_fork : Outcome ℕ
  pub open_dev_null : Option ℕ
  pub chdir : Option ℕ
  pub open_pid_file : Option ℕ
  pub lockf : Option ℕ
  pub ftruncate : Option ℕ
  -- `::write` of the process identifier, as a whole or not.
  pub write_pid : Option ℕ
  -- What `::read` takes from the pipe in the original process.
  pub read : Outcome Text

-- `::close(fd)` for `n` descriptors from `fd` on.
unfoldable pub close_all : ℕ → ℕ → Fds → Fds
close_all zero fd fds = fds
close_all (suc n) fd fds = close_all n (suc fd) (erase fd fds)

abbrev pub close : ℕ → M (Unit {0})
close fd = change λ p. record p { fds = erase fd p.fds }

-- `::dup2(fd, target)`.
unfoldable pub dup2 : ℕ → ℕ → Fds → Fds
dup2 fd target fds = elim (find fd fds) [ none ↦ fds | some file ↦ assign target file fds ]

-- The tables of step_09_redirect_stdio_to_devnull.
unfoldable pub redirect : ℕ → Fds → Fds
unfolding dup2
redirect fd fds =
    let fds' = dup2 fd 2 (dup2 fd 1 (dup2 fd 0 fds)) in if ltb 2 fd then erase fd fds' else fds'

unfoldable pub setup_signal_handlers : M (Unit {0})
setup_signal_handlers = change λ p. record p { handles_signals = true }

-- The ends of a pipe.
pub record Ends : Type 0 where
  pub read_end : ℕ
  pub write_end : ℕ

-- On which side of the first fork a process is, with the end that it has left.
pub data Side : Type 0 where
  child parent : ℕ → Side

module _ (k : Kernel) where
  unfoldable pub exit_with_failure {ℓ} : {A : Type ℓ} → ℕ → Text → ℕ → M A
  unfolding write_string
  exit_with_failure fd msg errno = do
    write_string k fd msg
    write_string k fd (k.strerror errno)
    exit exit_failure

  -- A call that may fail.
  unfoldable pub checked : ℕ → Text → Option ℕ → M (Unit {0})
  unfolding exit_with_failure
  checked fd msg none = pure tt
  checked fd msg (some errno) = exit_with_failure fd msg errno

  -- `::pipe`, when it succeeds.
  unfoldable pub open_pipe : M Ends
  open_pipe p =
      let r = k.new_fd p.fds in
      let w = k.new_fd (assign r pipe_read p.fds) in
      goes_on (record { read_end = r; write_end = w })
        (record p { fds = assign w pipe_write (assign r pipe_read p.fds) })

  unfoldable pub make_pipe : Option ℕ → M Ends
  unfolding open_pipe
  make_pipe none = open_pipe
  make_pipe (some errno) = exit exit_failure

  -- step_01_close_all_file_descriptors: from 3 on, up to the limit and with it.
  unfoldable pub step_01 : Outcome ℕ → Option ℕ → M Ends
  unfolding make_pipe
  step_01 (failed errno) pipe = exit exit_failure
  step_01 (returned limit) pipe = do
    change (λ p. record p { fds = close_all (limit + 1 - 3) 3 p.fds })
    make_pipe pipe

  -- step_05_fork_to_background.
  unfoldable pub step_05 : Outcome ℕ → Ends → M Side
  step_05 (failed errno) ends = exit exit_failure
  step_05 (returned zero) ends = do close ends.read_end; pure (child ends.write_end)
  step_05 (returned (suc pid)) ends = do close ends.write_end; pure (parent ends.read_end)

  -- step_06_create_new_session.
  unfoldable pub step_06 : Option ℕ → ℕ → M (Unit {0})
  unfolding checked
  step_06 setsid fd = do
    checked fd (codes "Failed to setsid: ") setsid
    change λ p. record p { leads_session = true }

  -- step_07_08_fork_and_exit_again: the process that forks exits, and its child leads no session.
  unfoldable pub step_07_08 : Outcome ℕ → ℕ → M (Unit {0})
  unfolding exit_with_failure
  step_07_08 (failed errno) fd = exit_with_failure fd (codes "Failed to fork: ") errno
  step_07_08 (returned zero) fd = change λ p. record p { leads_session = false }
  step_07_08 (returned (suc pid)) fd = do close fd; exit exit_success

  -- `::open` of a file, when it succeeds.
  unfoldable pub open_file : File → M ℕ
  open_file file p =
      goes_on (k.new_fd p.fds) (record p { fds = assign (k.new_fd p.fds) file p.fds })

  -- step_09_redirect_stdio_to_devnull.
  unfoldable pub step_09 : Option ℕ → ℕ → M (Unit {0})
  unfolding checked open_file redirect
  step_09 opens fd = do
    checked fd (codes "Failed to open(/dev/null): ") opens
    null ← open_file dev_null
    change λ p. record p { fds = redirect null p.fds }

  -- step_10_reset_umask.
  unfoldable pub step_10 : M (Unit {0})
  step_10 = change λ p. record p { umask = 0 }

  -- step_11_change_curr_dir.
  unfoldable pub step_11 : Option ℕ → ℕ → M (Unit {0})
  unfolding checked
  step_11 chdir fd = do
    checked fd (codes "Failed to chdir(/): ") chdir
    change λ p. record p { directory = codes "/" }

  -- step_12_create_pid_file: the file stays open.
  unfoldable pub step_12 : Calls → ℕ → M (Unit {0})
  unfolding checked open_file
  step_12 c fd = do
    checked fd (codes "Failed to create on PID file: ") c.open_pid_file
    _ ← open_file pid_file
    checked fd (codes "Failed to lock PID file: ") c.lockf
    checked fd (codes "Failed to ftruncate PID file: ") c.ftruncate
    checked fd (codes "Failed to write to PID file: ") c.write_pid

  -- step_14_notify_init_complete.
  unfoldable pub step_14 : ℕ → M (Unit {0})
  unfolding write_string
  step_14 fd = do write_string k fd init_complete; close fd

  -- step_15_exit_org_process: success is what the daemon wrote.
  unfoldable pub step_15 : Outcome Text → ℕ → M ℕ
  step_15 (failed errno) fd = exit exit_failure
  step_15 (returned bytes) fd =
      if same (c_str bytes) init_complete
      then (do close fd; exit exit_success)
      else exit exit_failure

  -- The steps of a child of the first fork, with the descriptor to report to.
  unfoldable pub background : Calls → ℕ → M ℕ
  unfolding step_06 step_07_08 step_09 step_10 step_11 step_12
  background c fd = do
    step_06 c.setsid fd
    step_07_08 c.second_fork fd
    step_09 c.open_dev_null fd
    step_10
    step_11 c.chdir fd
    step_12 c fd
    pure fd

  unfoldable pub on_side : Calls → Side → M ℕ
  unfolding background step_15
  on_side c (child fd) = background c fd
  on_side c (parent fd) = step_15 c.read fd

  -- Steps 4 and 13 are empty in the source.
  unfoldable pub daemonize : Calls → M ℕ
  unfolding step_01 setup_signal_handlers step_05 on_side
  daemonize c = do
    ends ← step_01 c.getrlimit c.pipe
    setup_signal_handlers
    side ← step_05 c.first_fork ends
    on_side c side
