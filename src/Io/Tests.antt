-- ===== src/Io/Tests.antt =====
-- Socket addresses (src/common/io/socket_address.cpp) and descriptors (src/common/io/io.hpp) on concrete
-- inputs, with a small C library that knows the addresses of the local host.
use mathlib.Core.Path.{subst}
use yakut_native.Base.{
  ℕ, zero, suc, ◌+◌, ◌-◌, ◌*◌, ◌/◌, ◌%◌, ◌<◌, ◌≡◌, ◌≢◌, refl, sym, ap, ◌∙◌, ◌↔◌, inl, inr, List, [],
  ◌∷◌, ◌++◌, true, false, ◌&&◌, none, some, pos, ltb, leb, if◌then◌else◌, Bool-cases, if_intro,
  arith, Text, codes, find, contains, assign, erase, find_first, find_last, c_str, same, same-eq,
  same_refl,
}
use yakut_native.Posix.{returned, failed, eintr, posix_syscall, posix_syscall_error}
use yakut_native.Io.SocketAddress.{
  Libc, Family, inet4, inet6, converted, no_address, inet, empty, success, parse, to_string,
  split_host_port, tcp_prefix,
}
use yakut_native.Io.SocketAddress.Grammar.{Denotes, split_host_port-Denotes}
use yakut_native.Io.SocketAddress.Roundtrip.{
  IsPosix, Within, numeric, inet_address, parse-to_string,
}
use yakut_native.Io.SocketAddress.Calls.{Attempt, AcceptResult, accept}
use yakut_native.Io.SocketAddress.Calls.Accepting.{Accepts, accept-Accepts}
use yakut_native.Io.OwnFd.{
  Operation, constructs, default_constructs, move_constructs, move_assigns, destroys, no_objects,
  run,
}
use yakut_native.Io.OwnFd.Conservation.{held, count, given, run-Conserved}

-- A number of at most `suc k` digits, before `rest`.
abbrev digit : ℕ → ℕ
digit n = b'0' + n % 10

unfoldable show : ℕ → ℕ → Text → Text
show zero n rest = digit n ∷ rest
show (suc k) n rest =
    let more = show k (n / 10) (digit n ∷ rest) in if ltb n 10 then digit n ∷ rest else more

abbrev limit : ℕ → ℕ
limit zero = 10
limit (suc k) = 10 * limit k

unfoldable read : ℕ → Text → ℕ × Text
read value [] = (value, [])
read value (c ∷ s) =
    let rest = read (value * 10 + (c - b'0')) s in
    if leb b'0' c && leb c b'9' then rest else (value, c ∷ s)

read-digit : (v n m : ℕ) (s : Text) → v * 10 + n % 10 ≡ m → read v (digit n ∷ s) ≡ read m s
unfolding read
read-digit v n m s e = rw (low, high) (ap (λ k. read k s) (omega (arith, e)))
  where
    low : leb b'0' (digit n) ≡ true
    low = ground arith

    high : leb (digit n) b'9' ≡ true
    high = ground arith

read-show : (k n : ℕ) (s : Text) → n < limit k → read 0 (show k n s) ≡ read n s
unfolding show
read-show zero n s h = read-digit 0 n n s (omega (arith, h))
read-show (suc k) n s h = elim (Bool-cases (ltb n 10)) [
  | inl small ↦ rw small (read-digit 0 n n s (ground (arith, small)))
  | inr large ↦ rw large (
      read-show k (n / 10) (digit n ∷ s) (omega (arith, h))
      ∙ read-digit (n / 10) n n s (omega arith))
]

show-Within : (k n : ℕ) (s : Text) → Within b'0' b'9' s → Within b'0' b'9' (show k n s)
unfolding show
show-Within zero n s w = (omega arith, omega arith, w)
show-Within (suc k) n s w =
    if_intro (Within b'0' b'9') (ltb n 10) (digit n ∷ s) (show k (n / 10) (digit n ∷ s))
      (λ _. (omega arith, omega arith, w))
      (λ _. show-Within k (n / 10) (digit n ∷ s) (omega arith, omega arith, w))

show-some : (k n : ℕ) (s : Text) → show k n s ≢ []
unfolding show
show-some zero n s e = absurd (ground (arith, e))
show-some (suc k) n s e = elim (Bool-cases (ltb n 10)) [
  | inl small ↦ ground (arith, e, small)
  | inr large ↦ show-some k (n / 10) (digit n ∷ s) (ground (arith, e, large))
]

abbrev loopback : Family → Text
loopback inet4 = 127 ∷ 0 ∷ 0 ∷ 1 ∷ []
loopback inet6 = 0 ∷ 0 ∷ 0 ∷ 0 ∷ 0 ∷ 0 ∷ 0 ∷ 0 ∷ 0 ∷ 0 ∷ 0 ∷ 0 ∷ 0 ∷ 0 ∷ 0 ∷ 1 ∷ []

abbrev loopback_name : Family → Text
loopback_name inet4 = codes "127.0.0.1"
loopback_name inet6 = codes "::1"

abbrev local_libc : Libc
local_libc = record {
  pton = λ family host.
      if same host (loopback_name family) then converted (loopback family) else no_address;
  ntop = λ family address.
      if same address (loopback family) then some (loopback_name family) else none;
  strtoull = read 0;
  decimal = λ n. show 20 n [];
}

-- What `ntop` prints is the name.
ntop-name :
    (family : Family) (address host : Text)
    → local_libc.ntop family address ≡ some host
    → (address ≡ loopback family) × (host ≡ loopback_name family)
ntop-name family address host e = elim (Bool-cases (same address (loopback family))) [
  | inl known ↦ (same-eq address (loopback family) known, ground (arith, e, known))
  | inr unknown ↦ absurd (ground (arith, e, unknown))
]

local_libc-IsPosix : IsPosix local_libc
unfolding read
local_libc-IsPosix = record {
  pton-ntop = λ family address host e.
      subst (λ h. local_libc.pton family h ≡ converted address)
        (sym (ntop-name family address host e).1)
        (rw (same_refl (loopback_name family))
          (ap converted (sym (ntop-name family address host e).0)));
  ntop-inet4 = λ address host e.
      subst (Within b'.' b'9') (sym (ntop-name inet4 address host e).1) (ground arith);
  ntop-inet6 = λ address host e.
      subst (Within b'.' b'f') (sym (ntop-name inet6 address host e).1) (ground arith);
  decimal-digits = λ n. show-Within 20 n [] tt;
  decimal-some = λ n. show-some 20 n [];
  strtoull-decimal = λ n h. read-show 20 n [] (omega (arith, h));
}

tcp_bracketed :
    parse local_libc (codes "tcp://[::1]:9875") 0
    ≡ success (inet_address inet6 9875 (loopback inet6))
unfolding parse show read find_first find_last c_str
tcp_bracketed = refl

tcp_hint :
    parse local_libc (codes "tcp://127.0.0.1") 7 ≡ success (inet_address inet4 7 (loopback inet4))
unfolding parse show read find_first find_last c_str
tcp_hint = refl

split_host_port-Denotes_example :
    (split_host_port (codes "[::1]:9875") ≡ some (inet6, codes "::1", codes "9875"))
    ↔ Denotes (codes "[::1]:9875") inet6 (codes "::1") (codes "9875")
split_host_port-Denotes_example =
    split_host_port-Denotes (codes "[::1]:9875") inet6 (codes "::1") (codes "9875")

parse-to_string_example :
    parse local_libc
      (tcp_prefix ++ to_string local_libc (inet_address inet6 9875 (loopback inet6)))
      0
    ≡ success (inet_address inet6 9875 (loopback inet6))
parse-to_string_example =
    parse-to_string local_libc local_libc-IsPosix (inet_address inet6 9875 (loopback inet6)) 0
      (numeric inet6 9875 (loopback inet6) (codes "::1") refl (omega arith))

-- An interrupted call, and then a client.
abbrev attempts : List Attempt
attempts =
    record { outcome = failed eintr; nonblock = []; nodelay = [] }
    ∷ record {
      outcome = returned (record { fd = 7; peer = inet inet4 5000 (loopback inet4); len = 16 });
      nonblock = returned 0 ∷ [];
      nodelay = returned 0 ∷ [];
    }
    ∷ []

abbrev accepted : AcceptResult
accepted = record {
  client = some 7;
  address = record {
    is_wildcard = false;
    addr_len = 16;
    storage = inet inet4 5000 (loopback inet4);
  };
  closed = [];
}

accept_second : accept attempts empty ≡ some accepted
unfolding accept empty posix_syscall posix_syscall_error
accept_second = refl

accept-Accepts_example : (accept attempts empty ≡ some accepted) ↔ Accepts attempts empty accepted
accept-Accepts_example = accept-Accepts attempts empty accepted

-- The descriptor 7 is moved from the object 0 over the object 1, which had 8, and both objects go.
abbrev program : List Operation
program =
    constructs 0 (pos 7)
    ∷ constructs 1 (pos 8)
    ∷ move_assigns 9 1 0
    ∷ default_constructs 2
    ∷ move_constructs 3 1
    ∷ destroys 0
    ∷ destroys 3
    ∷ []

closed_once : (run program no_objects).closed ≡ 7 ∷ 8 ∷ []
unfolding run find erase assign
closed_once = refl

run-Conserved_example :
    held 7 (run program no_objects).fds + count 7 (run program no_objects).closed ≡ given 7 program
run-Conserved_example = run-Conserved 7 program (
    unfold run find contains assign erase in
    (refl, (refl, ((refl, refl, refl), (refl, ((refl, refl), (refl, (refl, tt))))))))
