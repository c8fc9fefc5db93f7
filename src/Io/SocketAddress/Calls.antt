-- ===== src/Io/SocketAddress/Calls.antt =====
-- The system calls of `SocketAddress` (src/common/io/socket_address.cpp): `socket`, `bind`, `connect` and
-- `accept`.
--
-- A call is given by the outcomes of its attempts, and `none` says that they end while a loop still
-- runs. `closed` is what the `OwnFd` objects of a function close as it returns.
pub mod Accepting
use yakut_native.Base.{
  ℕ, List, [], ◌∷◌, Bool, true, false, ◌&&◌, ◌||◌, Option, none, some, ℤ, pos, is_zero, ◌==◌,
  if◌then◌else◌,
}
use yakut_native.Posix.{
  Outcome, returned, failed, posix_syscall, posix_syscall_error, unless_error, eintr, einprogress,
}
use yakut_native.Io.SocketAddress.{Storage, SocketAddress, sizeof_storage, is_any_inet}

abbrev eproto : ℕ
eproto = 71

abbrev enetdown : ℕ
enetdown = 100

abbrev enetunreach : ℕ
enetunreach = 101

abbrev econnaborted : ℕ
econnaborted = 103

abbrev etimedout : ℕ
etimedout = 110

abbrev ehostdown : ℕ
ehostdown = 112

abbrev ehostunreach : ℕ
ehostunreach = 113

-- `SocketResult`: a descriptor or an errno; and what was closed.
pub data SocketResult : Type 0 where
  made : ℕ → SocketResult
  refused : ℤ → SocketResult

-- `configureNoDelay`, for a socket that may have one; its error is only logged.
unfoldable pub configure_no_delay : Bool → List (Outcome ℕ) → Option ℤ
configure_no_delay false attempts = some (pos 0)
configure_no_delay true attempts = posix_syscall_error attempts

-- The calls on a new descriptor: `fcntl(O_NONBLOCK)`, and then `configureNoDelay`.
unfoldable pub configure :
    Bool → ℕ → List (Outcome ℕ) → List (Outcome ℕ) → Option (SocketResult × List ℕ)
unfolding configure_no_delay
configure no_delay fd nonblock nodelay = elim (posix_syscall_error nonblock) [
  | none ↦ none
  | some err ↦
      if is_zero err
      then elim (configure_no_delay no_delay nodelay) [
        | none ↦ none
        | some ignored ↦ some (made fd, [])
      ]
      else some (refused err, fd ∷ [])
]

unfoldable pub socket :
    SocketAddress
    → Bool
    → List (Outcome ℕ)
    → List (Outcome ℕ)
    → List (Outcome ℕ)
    → Option (SocketResult × List ℕ)
unfolding configure
socket a is_stream socket_attempts nonblock nodelay = elim (posix_syscall socket_attempts) [
  | none ↦ none
  | some (failed err) ↦ some (refused (pos err), [])
  | some (returned fd) ↦ configure (is_stream && is_any_inet a) fd nonblock nodelay
]

-- The arguments are the attempts to set IPV6_V6ONLY, which only a wildcard does, and those of `::bind`.
unfoldable pub bind : SocketAddress → List (Outcome ℕ) → List (Outcome ℕ) → Option ℤ
bind a v6only attempts =
    if a.is_wildcard
    then unless_error (posix_syscall_error v6only) (posix_syscall_error attempts)
    else posix_syscall_error attempts

-- A connection that is under way is no error.
unfoldable pub connect_result : ℤ → ℤ
connect_result (pos err) = if err == einprogress then pos 0 else pos err
connect_result err = err

unfoldable pub connect : List (Outcome ℕ) → Option ℤ
unfolding connect_result
connect attempts = elim (posix_syscall_error attempts) [
  | none ↦ none
  | some err ↦ some (connect_result err)
]

-- What `::accept` returns: the descriptor, and what it writes to its arguments.
pub record Accepted : Type 0 where
  pub fd : ℕ
  pub peer : Storage
  pub len : ℕ

-- One pass of the loop of `SocketAddress::accept`.
pub record Attempt : Type 0 where
  pub outcome : Outcome Accepted
  pub nonblock : List (Outcome ℕ)
  pub nodelay : List (Outcome ℕ)

-- The errors after which the loop tries again.
abbrev pub is_transient : ℕ → Bool
is_transient err =
    err == eintr
    || (err == enetdown
        || (err == etimedout
            || (err == ehostdown
                || (err == enetunreach
                    || (err == econnaborted || (err == ehostunreach || err == eproto))))))

-- The client's descriptor, the address, and what was closed.
pub record AcceptResult : Type 0 where
  pub client : Option ℕ
  pub address : SocketAddress
  pub closed : List ℕ

unfoldable pub client_of : SocketResult → Option ℕ
client_of (made fd) = some fd
client_of (refused err) = none

unfoldable pub peer_address : Accepted → SocketAddress → SocketAddress
peer_address c a = record a { addr_len = c.len; storage = c.peer }

-- A descriptor that `::accept` returned.
unfoldable pub take_client : Attempt → SocketAddress → Accepted → Option AcceptResult
unfolding configure client_of peer_address
take_client t a c = elim (configure (is_any_inet (peer_address c a)) c.fd t.nonblock t.nodelay) [
  | none ↦ none
  | some (result, closed) ↦
      some (record { client = client_of result; address = peer_address c a; closed = closed })
]

-- The length before the call, which a failed call leaves.
unfoldable pub without_client : SocketAddress → AcceptResult
without_client a = record {
  client = none;
  address = record a { addr_len = sizeof_storage };
  closed = [];
}

-- What the loop does with the outcome of `::accept`; `again` is what its next passes do.
unfoldable pub after_attempt :
    Attempt → SocketAddress → Option AcceptResult → Outcome Accepted → Option AcceptResult
unfolding take_client without_client
after_attempt t a again (returned c) = take_client t a c
after_attempt t a again (failed err) = if is_transient err then again else some (without_client a)

unfoldable pub accept : List Attempt → SocketAddress → Option AcceptResult
unfolding after_attempt
accept [] a = none
accept (t ∷ ts) a = after_attempt t a (accept ts (record a { addr_len = sizeof_storage })) t.outcome
