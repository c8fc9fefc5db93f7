-- ===== src/Posix.antt =====
-- include/ocvsmd/platform/posix_utils.hpp and the `errno` values (Linux) that the code names.
-- A system call is the list of the outcomes that its successive attempts have.
use yakut_native.Base.{
  ℕ, ◌≡◌, refl, List, [], ◌∷◌, ◌++◌, Option, none, some, arith, ◌==◌, if◌then◌else◌, ℤ, pos,
  is_zero,
}

abbrev pub eintr : ℕ
eintr = 4

abbrev pub eagain : ℕ
eagain = 11

abbrev pub einval : ℕ
einval = 22

abbrev pub econnreset : ℕ
econnreset = 104

abbrev pub enotconn : ℕ
enotconn = 107

abbrev pub eshutdown : ℕ
eshutdown = 108

abbrev pub einprogress : ℕ
einprogress = 115

abbrev pub ecanceled : ℕ
ecanceled = 125

-- One attempt: a result that is not negative, or -1 with `errno` set.
pub data Outcome {ℓ} (A : Type ℓ) : Type ℓ where
  returned : A → Outcome A
  failed : ℕ → Outcome A

-- `posixSyscallError`: the loop repeats the call as long as a signal interrupts it. `none` says
-- that the attempts listed were all interrupted, so that the loop goes on.
unfoldable pub posix_syscall {ℓ} : {A : Type ℓ} → List (Outcome A) → Option (Outcome A)
posix_syscall [] = none
posix_syscall (returned a ∷ more) = some (returned a)
posix_syscall (failed e ∷ more) = if e == eintr then posix_syscall more else some (failed e)

abbrev pub Interrupted {ℓ} : {A : Type ℓ} → List (Outcome A) → Type 0
Interrupted [] = Unit
Interrupted (returned a ∷ more) = ⊥
Interrupted (failed e ∷ more) = (e ≡ eintr) × Interrupted more

-- The loop is left at the first attempt that no signal interrupted, with that attempt's outcome.
pub posix_syscall-append {ℓ} :
    {A : Type ℓ} (first rest : List (Outcome A))
    → Interrupted first
    → posix_syscall (first ++ rest) ≡ posix_syscall rest
unfolding posix_syscall
posix_syscall-append [] rest h = refl
posix_syscall-append (returned a ∷ first) rest h = elim h [ ]
posix_syscall-append (failed e ∷ first) rest h = ground (arith, posix_syscall-append first rest h.1)

-- The result of `posixSyscallError`.
unfoldable pub posix_syscall_error {ℓ} : {A : Type ℓ} → List (Outcome A) → Option ℤ
posix_syscall_error attempts = elim (posix_syscall attempts) [
  | none ↦ none
  | some (returned a) ↦ some (pos 0)
  | some (failed err) ↦ some (pos err)
]

-- The next step of a sequence that stops at the first error.
unfoldable pub unless_error : Option ℤ → Option ℤ → Option ℤ
unless_error none rest = none
unless_error (some err) rest = if is_zero err then rest else some err
