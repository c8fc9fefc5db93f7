-- ===== src/Daemon/Process.antt =====
-- A process of the daemon, as src/daemon/main.cpp and `writeString` of src/daemon/setup_logging.hpp act on it.
--
-- `fds` is the table of open descriptors. `piped` is what was written to the pipe that leads to the original
-- process; what goes to other files is left out. `Kernel` stands for the system: the descriptor that a
-- call gives, what `::write` takes of a text, and the texts of `strerror`.
use yakut_native.Base.{ℕ, ◌≤◌, ◌≡◌, ◌++◌, Bool, Option, none, some, Map, find, Text, length, take}
use yakut_native.Daemon.Config.{Config}

pub data File : Type 0 where
  inherited : ℕ → File
  pipe_read pipe_write dev_null pid_file log_sink : File

abbrev pub Fds : Type 0
Fds = Map File

pub record Kernel : Type 0 where
  pub new_fd : Fds → ℕ
  pub write : Text → Text
  pub strerror : ℕ → Text

-- POSIX: a new descriptor was not open; a write takes the first bytes of a text, and
-- a pipe takes a text of up to 512 bytes (_POSIX_PIPE_BUF) as a whole.
pub record IsPosix (k : Kernel) : Type 0 where
  pub is_new : (fds : Fds) → find (k.new_fd fds) fds ≡ none
  pub is_prefix : (text : Text) → (n : ℕ) × (k.write text ≡ take n text)
  pub is_atomic : (text : Text) → length text ≤ 512 → k.write text ≡ text

pub record Process : Type 0 where
  pub fds : Fds
  pub piped : Text
  -- SIGINT and SIGTERM end the run loop.
  pub handles_signals : Bool
  pub leads_session : Bool
  pub umask : ℕ
  pub directory : Text
  -- The engine is initialized and its run loop was entered.
  pub serves : Bool
  -- The configuration at the end.
  pub final : Option Config

-- What a part of the program comes to: it calls `::exit`, or goes on.
pub data Run {ℓ} (A : Type ℓ) : Type ℓ where
  exits : ℕ → Process → Run A
  goes_on : A → Process → Run A

abbrev pub M {ℓ} : Type ℓ → Type ℓ
M A = Process → Run A

abbrev pub continue {ℓ κ} : {A : Type ℓ} {B : Type κ} → Run A → (A → M B) → Run B
continue (exits status p) f = exits status p
continue (goes_on a p) f = f a p

infixl 5 ◌>>=◌ ◌>>◌
abbrev pub ◌>>=◌ {ℓ κ} : {A : Type ℓ} {B : Type κ} → M A → (A → M B) → M B
◌>>=◌ m f p = continue (m p) f

abbrev pub ◌>>◌ {ℓ} : {B : Type ℓ} → M (Unit {0}) → M B → M B
m >> n = m >>= λ _. n

abbrev pub pure {ℓ} : {A : Type ℓ} → A → M A
pure a p = goes_on a p

-- `::exit(status)`, and `return` in `main`.
abbrev pub exit {ℓ} : {A : Type ℓ} → ℕ → M A
exit status p = exits status p

abbrev pub change : (Process → Process) → M (Unit {0})
change f p = goes_on tt (f p)

-- What comes of a text that is written to a file.
unfoldable pub emit : Text → Option File → Process → Process
emit text (some pipe_write) p = record p { piped = p.piped ++ text }
emit text file p = p

module _ (k : Kernel) where
  -- `writeString`, whose result is not used.
  unfoldable pub write_string : ℕ → Text → M (Unit {0})
  unfolding emit
  write_string fd text p = goes_on tt (emit (k.write text) (find fd p.fds) p)

abbrev pub status_of {ℓ} : {A : Type ℓ} → Run A → Option ℕ
status_of (exits status p) = some status
status_of (goes_on a p) = none

abbrev pub process_of {ℓ} : {A : Type ℓ} → Run A → Process
process_of (exits status p) = p
process_of (goes_on a p) = p

-- What holds of the process that exits, and what of a result and of the process that goes on.
abbrev pub Ensures {ℓ} :
    {A : Type ℓ} → (ℕ → Process → Type 0) → (A → Process → Type 0) → Run A → Type 0
Ensures E Q (exits status p) = E status p
Ensures E Q (goes_on a p) = Q a p

pub Ensures-bind {ℓ κ} :
    {A : Type ℓ} {B : Type κ} (E : ℕ → Process → Type 0) (Q : A → Process → Type 0)
    (R : B → Process → Type 0) (m : Run A) (f : A → M B)
    → Ensures E Q m
    → ((a : A) (p : Process) → Q a p → Ensures E R (f a p))
    → Ensures E R (continue m f)
Ensures-bind E Q R (exits status p) f h g = h
Ensures-bind E Q R (goes_on a p) f h g = g a p h
