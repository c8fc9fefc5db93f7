-- ===== src/Io/OwnFd.antt =====
-- `OwnFd` of src/common/io/io.hpp and io.cpp: the owner of a file descriptor.
--
-- `fds` is fd_ of each object that lives, by its address, and `closed` lists the arguments of
-- `::close`, latest first. What `::close` returns is only logged.
pub mod Conservation
use yakut_native.Base.{
  ℕ, ◌≡◌, List, [], ◌∷◌, Bool, true, false, Option, none, some, ℤ, pos, negsuc, if◌then◌else◌, Map,
  find, contains, erase, assign,
}

pub record Store : Type 0 where
  pub fds : Map ℤ
  pub closed : List ℕ

abbrev pub no_objects : Store
no_objects = record { fds = []; closed = [] }

abbrev pub no_fd : ℤ
no_fd = negsuc 0

-- `if (fd_ >= 0) ::close(fd_)`.
unfoldable pub close : ℤ → List ℕ → List ℕ
close (pos n) closed = n ∷ closed
close (negsuc n) closed = closed

-- fd_ of an object.
abbrev pub fd_of : Option ℤ → ℤ
fd_of none = no_fd
fd_of (some fd) = fd

unfoldable pub get : ℕ → Store → ℤ
get this s = fd_of (find this s.fds)

-- `fd_ = value`.
unfoldable pub set : ℕ → ℤ → Store → Store
set this value s = record s { fds = assign this value s.fds }

-- `OwnFd{fd}`, and `OwnFd{}`.
unfoldable pub construct : ℕ → ℤ → Store → Store
unfolding set
construct this fd s = set this fd s

unfoldable pub default_construct : ℕ → Store → Store
unfolding construct
default_construct this s = construct this no_fd s

-- `std::exchange(other.fd_, -1)` as the new fd_ of `this`.
unfoldable pub exchange : ℕ → ℕ → Store → Store
unfolding set get
exchange this other s = set this (get other s) (set other no_fd s)

unfoldable pub move_construct : ℕ → ℕ → Store → Store
unfolding exchange
move_construct this other s = exchange this other s

unfoldable pub reset : ℕ → Store → Store
unfolding close get set
reset this s = set this no_fd (record s { closed = close (get this s) s.closed })

unfoldable pub destroy : ℕ → Store → Store
unfolding reset
destroy this s = let s' = reset this s in record s' { fds = erase this s'.fds }

-- The two assignments; `old` is the local object that takes over what `this` had.
unfoldable pub move_assign : ℕ → ℕ → ℕ → Store → Store
unfolding move_construct exchange destroy
move_assign old this other s = destroy old (exchange this other (move_construct old this s))

unfoldable pub null_assign : ℕ → ℕ → Store → Store
unfolding move_construct destroy
null_assign old this s = destroy old (move_construct old this s)

pub data Operation : Type 0 where
  constructs : ℕ → ℤ → Operation
  default_constructs : ℕ → Operation
  move_constructs : ℕ → ℕ → Operation
  resets : ℕ → Operation
  destroys : ℕ → Operation
  move_assigns : ℕ → ℕ → ℕ → Operation
  null_assigns : ℕ → ℕ → Operation

unfoldable pub perform : Operation → Store → Store
unfolding construct default_construct move_construct reset destroy move_assign null_assign
perform (constructs this fd) s = construct this fd s
perform (default_constructs this) s = default_construct this s
perform (move_constructs this other) s = move_construct this other s
perform (resets this) s = reset this s
perform (destroys this) s = destroy this s
perform (move_assigns old this other) s = move_assign old this other s
perform (null_assigns old this) s = null_assign old this s

-- A program makes objects where none lives, and uses objects that live.
abbrev pub IsProper : Operation → Store → Type 0
IsProper (constructs this fd) s = find this s.fds ≡ none
IsProper (default_constructs this) s = find this s.fds ≡ none
IsProper (move_constructs this other) s = (find this s.fds ≡ none) × (contains other s.fds ≡ true)
IsProper (resets this) s = contains this s.fds ≡ true
IsProper (destroys this) s = contains this s.fds ≡ true
IsProper (move_assigns old this other) s =
    (find old s.fds ≡ none) × (contains this s.fds ≡ true) × (contains other s.fds ≡ true)
IsProper (null_assigns old this) s = (find old s.fds ≡ none) × (contains this s.fds ≡ true)

unfoldable pub run : List Operation → Store → Store
unfolding perform
run [] s = s
run (o ∷ os) s = run os (perform o s)

abbrev pub AllProper : List Operation → Store → Type 0
AllProper [] s = Unit
AllProper (o ∷ os) s = IsProper o s × AllProper os (perform o s)
