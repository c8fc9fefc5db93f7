-- ===== src/Io/SocketAddress/Splitting.antt =====
-- What `SocketAddress::extractFamilyHostAndPort` (src/common/io/socket_address.cpp) makes of a text whose
-- brackets and colons are known.
use yakut_native.Base.{
  ℕ, suc, ◌+◌, ◌-◌, ◌≡◌, refl, ap, ◌≢◌, ◌⊎◌, inl, inr, [], ◌∷◌, ◌++◌, Option, none, some, ◌==◌,
  ==_ne, Option-cases, if◌then◌else◌, length, take, drop, take-append, arith, Text, find_first,
  Lacks, find_first-Lacks, find_last-Lacks, find_first-append, find_last-append,
}
use mathlib.Core.Path.{subst}
use yakut_native.Io.SocketAddress.{
  Family, inet4, inet6, split_bracketed, split_plain, split_host_port,
}

-- The text does not start with a bracket.
abbrev pub Plain : Text → Type 0
Plain [] = Unit
Plain (c ∷ s) = c ≢ b'['

-- The byte is not the first one.
find_first-later :
    (d c : ℕ) (s : Text)
    → c ≢ d
    → (find_first d (c ∷ s) ≡ none) ⊎ ((i : ℕ) × (find_first d (c ∷ s) ≡ some (suc i)))
unfolding find_first
find_first-later d c s p = elim (Option-cases (find_first d s)) [
  | inl missing ↦ inl (rw (==_ne c d p, missing) refl)
  | inr (i, found) ↦ inr (i, rw (==_ne c d p, found) refl)
]

pub split_host_port-Plain : (s : Text) → Plain s → split_host_port s ≡ some (split_plain s)
unfolding split_host_port
split_host_port-Plain [] p = unfold find_first in refl
split_host_port-Plain (c ∷ s) p = elim (find_first-later b'[' c s p) [
  | inl missing ↦ rw (split_host_port, missing) refl
  | inr (i, found) ↦ rw (split_host_port, found, ==_ne (suc i) 0 (λ e. omega (arith, e))) refl
]

pub split_host_port-bracket : (s : Text) → split_host_port (b'[' ∷ s) ≡ split_bracketed (b'[' ∷ s)
unfolding split_host_port find_first
split_host_port-bracket s = refl

add_one : (n : ℕ) → n + 1 ≡ suc n
add_one n = omega arith

-- The text after a byte whose place was found.
drop-found : (c : ℕ) (s t : Text) → drop (length s + 1) (s ++ c ∷ t) ≡ t
drop-found c s t = rw (add_one (length s)) (go s)
  where
    go : (r : Text) → drop (suc (length r)) (r ++ c ∷ t) ≡ t
    go [] = refl
    go (d ∷ r) = go r

-- A plain text, by its colons.
pub split_plain-none : (s : Text) → Lacks b':' s → split_plain s ≡ (inet4, s, [])
unfolding split_plain
split_plain-none s l = rw (split_plain, find_first-Lacks b':' s l) refl

pub split_plain-single :
    (host port : Text)
    → Lacks b':' host
    → Lacks b':' port
    → split_plain (host ++ b':' ∷ port) ≡ (inet4, host, port)
unfolding split_plain
split_plain-single host port l m =
    rw
      (
        split_plain,
        find_first-append b':' host port l,
        drop-found b':' host port,
        find_first-Lacks b':' port m,
        drop-found b':' host port,
        take-append host (b':' ∷ port),
      )
      refl

pub split_plain-several :
    (a b c : Text)
    → Lacks b':' a
    → Lacks b':' b
    → split_plain (a ++ b':' ∷ (b ++ b':' ∷ c)) ≡ (inet6, a ++ b':' ∷ (b ++ b':' ∷ c), [])
unfolding split_plain
split_plain-several a b c l m =
    rw
      (
        split_plain,
        find_first-append b':' a (b ++ b':' ∷ c) l,
        drop-found b':' a (b ++ b':' ∷ c),
        find_first-append b':' b c m,
      )
      refl

-- A bracketed text, by its last closing bracket.
pub split_bracketed-none : (s : Text) → Lacks b']' s → split_bracketed s ≡ none
unfolding split_bracketed
split_bracketed-none s l = rw (split_bracketed, find_last-Lacks b']' s l) refl

-- What stands after the closing bracket.
unfoldable pub after_bracket : Text → Text → Option (Family × Text × Text)
after_bracket host [] = some (inet6, host, [])
after_bracket host (c ∷ port) = if c == b':' then some (inet6, host, port) else none

take-host :
    (host rest : Text)
    → take (length (b'[' ∷ host) - 1) (drop 1 (b'[' ∷ host ++ b']' ∷ rest)) ≡ host
take-host host rest =
    subst (λ n. take n (host ++ b']' ∷ rest) ≡ host) {x = length host} (omega arith)
      (take-append host (b']' ∷ rest))

pub split_bracketed-found :
    (host rest : Text)
    → Lacks b']' rest
    → split_bracketed (b'[' ∷ host ++ b']' ∷ rest) ≡ after_bracket host rest
unfolding split_bracketed after_bracket
split_bracketed-found host rest l =
    rw
      (
        split_bracketed,
        find_last-append b']' (b'[' ∷ host) rest l,
        drop-found b']' (b'[' ∷ host) rest,
      )
      (ap (λ h. after_bracket h rest) (take-host host rest))
