-- ===== src/Daemon/Daemonize/Descriptors.antt =====
-- What `daemonize` (src/daemon/main.cpp) makes of a process when its calls succeed.
use yakut_native.Base.{
  ℕ, ◌+◌, ◌-◌, ◌≤◌, ◌<◌, ◌≡◌, ◌≢◌, refl, true, false, none, some, arith, ltb, ◌==◌, ==_refl,
  if◌then◌else◌, Text, codes, find, erase, assign, find-erase, find-assign, contains-find,
}
use yakut_native.Posix.{Outcome, returned}
use yakut_native.Daemon.Process.{
  Fds, File, pipe_read, pipe_write, dev_null, pid_file, Kernel, IsPosix, Process, goes_on,
}
use yakut_native.Daemon.Daemonize.{Calls, close_all, dup2, redirect, daemonize}
use yakut_native.Daemon.Daemonize.Tables.{
  HasStdio, find-close_all, above_stdio, HasStdio-close_all, new_fd-ne, new_ends,
}

-- Every call of a process that becomes the daemon succeeds.
abbrev pub successful : ℕ → Outcome Text → Calls
successful limit read = record {
  getrlimit = returned limit;
  pipe = none;
  first_fork = returned 0;
  setsid = none;
  second_fork = returned 0;
  open_dev_null = none;
  chdir = none;
  open_pid_file = none;
  lockf = none;
  ftruncate = none;
  write_pid = none;
  read = read;
}

-- Nothing that the process inherited is open but on the null device, and it can report through `fd`.
pub record IsDaemon (before : Process) (fd : ℕ) (p : Process) : Type 0 where
  pub lock : ℕ
  pub descriptors :
      (n : ℕ)
      → find n p.fds ≡ (
          if ltb n 3
          then some dev_null
          else if n == lock
          then some pid_file
          else if n == fd
          then some pipe_write
          else none)
  pub is_above : (2 < fd) × (2 < lock) × (fd ≢ lock)
  pub umask : p.umask ≡ 0
  pub directory : p.directory ≡ codes "/"
  pub no_session : p.leads_session ≡ false
  pub handles_signals : p.handles_signals ≡ true
  pub piped : p.piped ≡ before.piped
  pub serves : p.serves ≡ before.serves

dup2-open :
    (fd target : ℕ) (file : File) (fds : Fds)
    → find fd fds ≡ some file
    → dup2 fd target fds ≡ assign target file fds
unfolding dup2
dup2-open fd target file fds h = rw (h, dup2) refl

assign-above :
    (fd target : ℕ) (file other : File) (fds : Fds)
    → find fd fds ≡ some file
    → 2 < fd
    → target ≤ 2
    → find fd (assign target other fds) ≡ some file
assign-above fd target file other fds h high low =
    ground (arith, find-assign fd target other fds, h)

find-redirect_all :
    (n fd : ℕ) (file : File) (fds : Fds)
    → find fd fds ≡ some file
    → 2 < fd
    → find n (redirect fd fds)
      ≡ (if ltb n 3 then some file else if n == fd then none else find n fds)
unfolding redirect
find-redirect_all n fd file fds h high = rw (dup2-open fd 0 file fds h) (
    rw (dup2-open fd 1 file fds₁ h₁) (
      rw (dup2-open fd 2 file fds₂ h₂) (
        ground (
          arith,
          find-erase n fd (assign 2 file fds₂),
          find-assign n 2 file fds₂,
          find-assign n 1 file fds₁,
          find-assign n 0 file fds,
        ))))
  where
    fds₁ : Fds
    fds₁ = assign 0 file fds

    h₁ : find fd fds₁ ≡ some file
    h₁ = assign-above fd 0 file file fds h high (omega arith)

    fds₂ : Fds
    fds₂ = assign 1 file fds₁

    h₂ : find fd fds₂ ≡ some file
    h₂ = assign-above fd 1 file file fds₁ h₁ high (omega arith)

module _ (k : Kernel) (posix : IsPosix k) (limit : ℕ) (read : Outcome Text) (p : Process)
    (stdio : HasStdio p.fds) (covers : (n : ℕ) → limit < n → find n p.fds ≡ none) where
  fds₀ : Fds
  fds₀ = close_all (limit + 1 - 3) 3 p.fds

  stdio₀ : HasStdio fds₀
  unfolding fds₀
  stdio₀ = HasStdio-close_all (limit + 1 - 3) p.fds stdio

  r : ℕ
  r = k.new_fd fds₀

  w : ℕ
  unfolding r
  w = k.new_fd (assign r pipe_read fds₀)

  r_above : 2 < r
  unfolding r
  r_above = above_stdio fds₀ r stdio₀ (posix.is_new fds₀)

  ends : (2 < w) × ((r == w) ≡ false)
  unfolding w r
  ends = let e = new_ends k posix fds₀ stdio₀ in (e.1, e.2)

  -- The table of the child of the first fork.
  fds₁ : Fds
  fds₁ = erase r (assign w pipe_write (assign r pipe_read fds₀))

  find-fds₁ : (n : ℕ) → 2 < n → find n fds₁ ≡ (if n == w then some pipe_write else none)
  unfolding fds₁ fds₀
  find-fds₁ n high = ground (
    arith,
    find-erase n r (assign w pipe_write (assign r pipe_read fds₀)),
    find-assign n w pipe_write (assign r pipe_read fds₀),
    find-assign n r pipe_read fds₀,
    find-close_all n (limit + 1 - 3) 3 p.fds,
    covers n,
    ends.1,
  )

  stdio₁ : HasStdio fds₁
  unfolding fds₁
  stdio₁ n low = ground (
    arith,
    contains-find n fds₁,
    contains-find n fds₀,
    find-erase n r (assign w pipe_write (assign r pipe_read fds₀)),
    find-assign n w pipe_write (assign r pipe_read fds₀),
    find-assign n r pipe_read fds₀,
    stdio₀ n low,
    r_above,
  )

  null : ℕ
  null = k.new_fd fds₁

  null_above : 2 < null
  unfolding null
  null_above = above_stdio fds₁ null stdio₁ (posix.is_new fds₁)

  -- After step 9.
  fds₂ : Fds
  fds₂ = redirect null (assign null dev_null fds₁)

  null-ne : (null == w) ≡ false
  unfolding null
  null-ne = new_fd-ne k posix w pipe_write fds₁ (rw (find-fds₁ w ends.0) (rw (==_refl w) refl))

  find-fds₂ :
      (n : ℕ)
      → find n fds₂ ≡ (if ltb n 3 then some dev_null else if n == w then some pipe_write else none)
  unfolding fds₂
  find-fds₂ n = ground (
    arith,
    find-redirect_all n null dev_null (assign null dev_null fds₁)
        (rw (find-assign null null dev_null fds₁) (rw (==_refl null) refl)) null_above,
    find-assign n null dev_null fds₁,
    find-fds₁ n,
    null-ne,
  )

  stdio₂ : HasStdio fds₂
  stdio₂ n low = ground (arith, contains-find n fds₂, find-fds₂ n, low)

  lock : ℕ
  lock = k.new_fd fds₂

  lock_above : 2 < lock
  unfolding lock
  lock_above = above_stdio fds₂ lock stdio₂ (posix.is_new fds₂)

  lock-ne : (lock == w) ≡ false
  unfolding lock
  lock-ne = new_fd-ne k posix w pipe_write fds₂ (ground (arith, find-fds₂ w, ends.0))

  find-fds₃ :
      (n : ℕ)
      → find n (assign lock pid_file fds₂) ≡ (
          if ltb n 3
          then some dev_null
          else if n == lock
          then some pid_file
          else if n == w
          then some pipe_write
          else none)
  find-fds₃ n = ground (arith, find-assign n lock pid_file fds₂, find-fds₂ n, lock_above, lock-ne)

  -- If the calls succeed, and the limit covers what is open, the process that becomes the daemon goes on with its
  -- three standard descriptors on /dev/null, the pipe to the original process and the file with its identifier, and
  -- with no other open; in the root directory, with the mask 0, leading no session, its handlers set, and nothing
  -- reported.
  pub daemonize_isolates :
      (fd : ℕ) × (q : Process) × (daemonize k (successful limit read) p ≡ goes_on fd q)
      × IsDaemon p fd q
  unfolding daemonize fds₀ r w fds₁ null fds₂ lock
  daemonize_isolates = (
    w,
    _,
    refl,
    record {
      lock = lock;
      descriptors = find-fds₃;
      is_above = (ends.0, lock_above, ground (arith, lock-ne));
      umask = refl;
      directory = refl;
      no_session = refl;
      handles_signals = refl;
      piped = refl;
      serves = refl;
    },
  )
