-- ===== src/Io/OwnFd/Conservation.antt =====
-- The descriptors that the `OwnFd` objects of a program (src/common/io/io.hpp) hold and have closed.
use yakut_native.Base.{
  ℕ, ◌+◌, ◌≡◌, ◌≢◌, refl, ap, ◌∙◌, List, [], ◌∷◌, Bool, true, false, Option, none, some, ℤ, pos,
  negsuc, if◌then◌else◌, ◌==◌, ==_ne, ==_refl, Map, find, contains, contains-find, erase, assign,
  find-assign, Distinct, Distinct-assign, Distinct-erase, arith,
}
use yakut_native.Io.OwnFd.{
  Store, no_objects, no_fd, fd_of, close, get, set, construct, default_construct, exchange,
  move_construct, reset, destroy, move_assign, null_assign, Operation, constructs,
  default_constructs, move_constructs, resets, destroys, move_assigns, null_assigns, perform,
  IsProper, run, AllProper,
}

-- How often `n` is the descriptor that a value stands for, that objects hold, or that was closed.
abbrev pub weight : ℕ → ℤ → ℕ
weight n (pos m) = if m == n then 1 else 0
weight n (negsuc m) = 0

abbrev pub held : ℕ → Map ℤ → ℕ
held n [] = 0
held n ((k, fd) ∷ fds) = weight n fd + held n fds

abbrev pub count : ℕ → List ℕ → ℕ
count n [] = 0
count n (m ∷ ms) = (if m == n then 1 else 0) + count n ms

-- How often it was given to an object that was made of it.
abbrev pub given : ℕ → List Operation → ℕ
given n [] = 0
given n (constructs this fd ∷ os) = weight n fd + given n os
given n (o ∷ os) = given n os

held-assign :
    (n k : ℕ) (v : ℤ) (m : Map ℤ)
    → held n (assign k v m) + weight n (fd_of (find k m)) ≡ held n m + weight n v
unfolding assign find
held-assign n k v [] = omega arith
held-assign n k v ((j, w) ∷ m) = ground (arith, held-assign n k v m)

held-absent : (n k : ℕ) (m : Map ℤ) → find k m ≡ none → held n (erase k m) ≡ held n m
unfolding erase find
held-absent n k [] e = refl
held-absent n k ((j, w) ∷ m) e = ground (arith, held-absent n k m, e)

held-erase :
    (n k : ℕ) (m : Map ℤ) → Distinct m → held n (erase k m) + weight n (fd_of (find k m)) ≡ held n m
unfolding erase find
held-erase n k [] d = refl
held-erase n k ((j, w) ∷ m) d = ground (arith, held-erase n k m d.1, held-absent n k m, d.0)

-- All that objects hold or have closed.
abbrev total : ℕ → Store → ℕ
total n s = held n s.fds + count n s.closed

set-total :
    (n k : ℕ) (v : ℤ) (s : Store)
    → total n (set k v s) + weight n (get k s) ≡ total n s + weight n v
unfolding set get
set-total n k v s = omega (arith, held-assign n k v s.fds)

get-set : (j k : ℕ) (v : ℤ) (s : Store) → get j (set k v s) ≡ (if k == j then v else get j s)
unfolding set get
get-set j k v s = rw (find-assign j k v s.fds) (if_fd_of (k == j) v (find j s.fds))
  where
    if_fd_of :
        (b : Bool) (v : ℤ) (o : Option ℤ)
        → fd_of (if b then some v else o) ≡ (if b then v else fd_of o)
    if_fd_of true v o = refl
    if_fd_of false v o = refl

either_none : (b : Bool) (v : ℤ) → v ≡ no_fd → (if b then no_fd else v) ≡ no_fd
either_none true v e = refl
either_none false v e = e

get-set_none :
    (this other : ℕ) (s : Store) → get this s ≡ no_fd → get this (set other no_fd s) ≡ no_fd
get-set_none this other s e =
    get-set this other no_fd s ∙ either_none (other == this) (get this s) e

-- An object that holds nothing takes over what another one holds, and the other one has nothing left.
exchange-total :
    (n this other : ℕ) (s : Store)
    → get this s ≡ no_fd
    → total n (exchange this other s) ≡ total n s
unfolding exchange
exchange-total n this other s e = omega (
  arith,
  set-total n this (get other s) (set other no_fd s),
  set-total n other no_fd s,
  ap (weight n) (get-set_none this other s e),
)

get-exchange_other :
    (this other : ℕ) (s : Store) → this ≢ other → get other (exchange this other s) ≡ no_fd
unfolding exchange
get-exchange_other this other s d =
    get-set other this (get other s) (set other no_fd s)
    ∙ rw (==_ne this other d) (get-set other other no_fd s ∙ rw (==_refl other) refl)

close-count : (n : ℕ) (v : ℤ) (ms : List ℕ) → count n (close v ms) ≡ weight n v + count n ms
unfolding close
close-count n (pos m) ms = refl
close-count n (negsuc m) ms = omega arith

reset-total : (n this : ℕ) (s : Store) → total n (reset this s) ≡ total n s
unfolding reset set get
reset-total n this s =
    omega (arith, held-assign n this no_fd s.fds, close-count n (get this s) s.closed)

get-reset : (this : ℕ) (s : Store) → get this (reset this s) ≡ no_fd
unfolding reset get
get-reset this s =
    get-set this this no_fd (record s { closed = close (get this s) s.closed })
    ∙ rw (==_refl this) refl

destroy-total : (n this : ℕ) (s : Store) → Distinct s.fds → total n (destroy this s) ≡ total n s
unfolding destroy reset set get
destroy-total n this s d = omega (
  arith,
  reset-total n this s,
  held-erase n this (assign this no_fd s.fds) (Distinct-assign this no_fd s.fds d),
  ap (weight n) (get-reset this s),
)

-- Each address has one object.
set-Distinct : (this : ℕ) (v : ℤ) (s : Store) → Distinct s.fds → Distinct (set this v s).fds
unfolding set
set-Distinct this v s d = Distinct-assign this v s.fds d

exchange-Distinct :
    (this other : ℕ) (s : Store) → Distinct s.fds → Distinct (exchange this other s).fds
unfolding exchange
exchange-Distinct this other s d =
    set-Distinct this (get other s) (set other no_fd s) (set-Distinct other no_fd s d)

destroy-Distinct : (this : ℕ) (s : Store) → Distinct s.fds → Distinct (destroy this s).fds
unfolding destroy reset set
destroy-Distinct this s d =
    Distinct-erase this (assign this no_fd s.fds) (Distinct-assign this no_fd s.fds d)

fresh : (this : ℕ) (s : Store) → find this s.fds ≡ none → get this s ≡ no_fd
unfolding get
fresh this s e = ap fd_of e

apart :
    (this other : ℕ) (s : Store)
    → find this s.fds ≡ none
    → contains other s.fds ≡ true
    → this ≢ other
apart this other s e c same = ground (arith, contains-find other s.fds, e, c, same)

perform-Distinct : (o : Operation) (s : Store) → Distinct s.fds → Distinct (perform o s).fds
unfolding perform construct default_construct move_construct move_assign null_assign reset
perform-Distinct (constructs this fd) s d = set-Distinct this fd s d
perform-Distinct (default_constructs this) s d = set-Distinct this no_fd s d
perform-Distinct (move_constructs this other) s d = exchange-Distinct this other s d
perform-Distinct (resets this) s d =
    set-Distinct this no_fd (record s { closed = close (get this s) s.closed }) d
perform-Distinct (destroys this) s d = destroy-Distinct this s d
perform-Distinct (move_assigns old this other) s d =
    destroy-Distinct old (exchange this other (exchange old this s))
      (exchange-Distinct this other (exchange old this s) (exchange-Distinct old this s d))
perform-Distinct (null_assigns old this) s d =
    destroy-Distinct old (exchange old this s) (exchange-Distinct old this s d)

perform-total :
    (n : ℕ) (o : Operation) (s : Store)
    → Distinct s.fds
    → IsProper o s
    → total n (perform o s) ≡ total n s + given n (o ∷ [])
unfolding perform construct default_construct move_construct move_assign null_assign
perform-total n (constructs this fd) s d p =
    omega (arith, set-total n this fd s, ap (weight n) (fresh this s p))
perform-total n (default_constructs this) s d p =
    omega (arith, set-total n this no_fd s, ap (weight n) (fresh this s p))
perform-total n (move_constructs this other) s d p =
    omega (arith, exchange-total n this other s (fresh this s p.0))
perform-total n (resets this) s d p = omega (arith, reset-total n this s)
perform-total n (destroys this) s d p = omega (arith, destroy-total n this s d)
perform-total n (move_assigns old this other) s d p = omega (
  arith,
  exchange-total n old this s (fresh old s p.0),
  exchange-total n this other (exchange old this s)
      (get-exchange_other old this s (apart old this s p.0 p.1)),
  destroy-total n old (exchange this other (exchange old this s))
      (exchange-Distinct this other (exchange old this s) (exchange-Distinct old this s d)),
)
perform-total n (null_assigns old this) s d p = omega (
  arith,
  exchange-total n old this s (fresh old s p.0),
  destroy-total n old (exchange old this s) (exchange-Distinct old this s d),
)

given-cons :
    (n : ℕ) (o : Operation) (os : List Operation) → given n (o ∷ os) ≡ given n (o ∷ []) + given n os
given-cons n (constructs this fd) os = omega arith
given-cons n (default_constructs this) os = omega arith
given-cons n (move_constructs this other) os = omega arith
given-cons n (resets this) os = omega arith
given-cons n (destroys this) os = omega arith
given-cons n (move_assigns old this other) os = omega arith
given-cons n (null_assigns old this) os = omega arith

run-total :
    (n : ℕ) (os : List Operation) (s : Store)
    → Distinct s.fds
    → AllProper os s
    → total n (run os s) ≡ total n s + given n os
unfolding run
run-total n [] s d p = omega arith
run-total n (o ∷ os) s d p = omega (
  arith,
  run-total n os (perform o s) (perform-Distinct o s d) p.1,
  perform-total n o s d p.0,
  given-cons n o os,
)

-- After any sequence of operations that makes objects where none lives and uses objects that live,
-- the objects hold a descriptor and `::close` was called on it together as often as it was handed to an
-- object. A descriptor that was handed over once is thus closed at most once, and exactly once when
-- no object holds it any more.
pub run-Conserved :
    (n : ℕ) (os : List Operation)
    → AllProper os no_objects
    → held n (run os no_objects).fds + count n (run os no_objects).closed ≡ given n os
run-Conserved n os p = omega (arith, run-total n os no_objects tt p)
