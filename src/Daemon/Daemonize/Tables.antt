-- ===== src/Daemon/Daemonize/Tables.antt =====
-- The tables of descriptors that the steps of `daemonize` (src/daemon/main.cpp) make.
use yakut_native.Base.{
  ℕ, zero, suc, ◌+◌, ◌<◌, ◌≡◌, refl, inl, inr, true, false, ◌&&◌, none, some, arith, ltb, leb,
  ltb→lt, ◌==◌, if◌then◌else◌, Bool-cases, Option-cases, find, contains, erase, assign, find-erase,
  find-assign, contains-find, ==_iff, ==_refl,
}
use yakut_native.Daemon.Process.{Fds, File, pipe_read, pipe_write, Kernel, IsPosix}
use yakut_native.Daemon.Daemonize.{close_all, dup2, redirect}

-- Standard input, output and error are open.
abbrev pub HasStdio : Fds → Type 0
HasStdio fds = (n : ℕ) → n < 3 → contains n fds ≡ true

pub find-close_all :
    (j n fd : ℕ) (fds : Fds)
    → find j (close_all n fd fds) ≡ (if leb fd j && ltb j (fd + n) then none else find j fds)
unfolding close_all
find-close_all j zero fd fds = ground arith
find-close_all j (suc n) fd fds =
    ground (arith, find-close_all j n (suc fd) (erase fd fds), find-erase j fd fds)

pub find-dup2 :
    (w fd target : ℕ) (fds : Fds) → (target == w) ≡ false → find w (dup2 fd target fds) ≡ find w fds
unfolding dup2
find-dup2 w fd target fds ne = elim (Option-cases (find fd fds)) [
  | inl e ↦ rw (e, dup2) refl
  | inr (file, e) ↦ rw (e, dup2) (ground (arith, find-assign w target file fds, ne))
]

pub find-redirect :
    (w null : ℕ) (file : File) (fds : Fds)
    → find w fds ≡ some file
    → (null == w) ≡ false
    → 2 < w
    → find w (redirect null fds) ≡ some file
unfolding redirect
find-redirect w null file fds h ne high = ground (
  arith,
  find-erase w null (dup2 null 2 (dup2 null 1 (dup2 null 0 fds))),
  find-dup2 w null 2 (dup2 null 1 (dup2 null 0 fds)),
  find-dup2 w null 1 (dup2 null 0 fds),
  find-dup2 w null 0 fds,
  h,
)

pub above_stdio : (fds : Fds) (n : ℕ) → HasStdio fds → find n fds ≡ none → 2 < n
above_stdio fds n h none_there = elim (Bool-cases (ltb n 3)) [
  | inl e ↦ absurd (ground (arith, contains-find n fds, h n (ltb→lt n 3 e), none_there))
  | inr e ↦ ground (arith, e)
]

pub HasStdio-close_all : (n : ℕ) (fds : Fds) → HasStdio fds → HasStdio (close_all n 3 fds)
HasStdio-close_all n fds h j low = ground (
  arith,
  contains-find j (close_all n 3 fds),
  find-close_all j n 3 fds,
  contains-find j fds,
  h j low,
)

pub HasStdio-assign :
    (fd : ℕ) (file : File) (fds : Fds) → HasStdio fds → HasStdio (assign fd file fds)
HasStdio-assign fd file fds h j low = ground (
  arith,
  contains-find j (assign fd file fds),
  find-assign j fd file fds,
  contains-find j fds,
  h j low,
)

module _ (k : Kernel) (posix : IsPosix k) where
  -- A new descriptor is another one than an open one.
  pub new_fd-ne :
      (w : ℕ) (file : File) (fds : Fds) → find w fds ≡ some file → (k.new_fd fds == w) ≡ false
  new_fd-ne w file fds h = elim (Bool-cases (k.new_fd fds == w)) [
    | inl e ↦ absurd (ground (arith, posix.is_new fds, h, ==_iff (k.new_fd fds) w, e))
    | inr e ↦ e
  ]

  pub new_ends :
      (fds : Fds)
      → HasStdio fds
      → let r = k.new_fd fds in
        let w = k.new_fd (assign r pipe_read fds) in
        (find w (assign w pipe_write (assign r pipe_read fds)) ≡ some pipe_write)
        × (2 < w)
        × ((r == w) ≡ false)
  new_ends fds h = (
    rw (find-assign w w pipe_write fds') (rw (==_refl w) refl),
    above_stdio fds' w (HasStdio-assign r pipe_read fds h) (posix.is_new fds'),
    ground (
      arith,
      new_fd-ne r pipe_read fds' (rw (find-assign r r pipe_read fds) (rw (==_refl r) refl)),
    ),
  )
    where
      r : ℕ
      r = k.new_fd fds

      fds' : Fds
      fds' = assign r pipe_read fds

      w : ℕ
      w = k.new_fd fds'
