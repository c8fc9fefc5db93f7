-- ===== src/Io/SocketAddress/Calls/Accepting.antt =====
-- How the loop of `SocketAddress::accept` (src/common/io/socket_address.cpp) ends.
use mathlib.Core.Path.{subst}
use yakut_native.Base.{
  ℕ, ◌≡◌, ◌↔◌, refl, ap, ◌∙◌, inl, inr, List, [], ◌∷◌, ◌++◌, true, false, Option, none, some, ℤ,
  is_zero, Bool-cases, Option-cases, if_intro,
}
use yakut_native.Posix.{Outcome, returned, failed, posix_syscall_error}
use yakut_native.Io.SocketAddress.{SocketAddress, sizeof_storage, is_any_inet}
use yakut_native.Io.SocketAddress.Calls.{
  Accepted, Attempt, AcceptResult, configure_no_delay, configure, client_of, peer_address,
  take_client, without_client, is_transient, accept, after_attempt,
}

-- Attempts that the loop passes over.
abbrev pub Transient : List Attempt → Type 0
Transient [] = Unit
Transient (t ∷ ts) =
    ((err : ℕ) × (t.outcome ≡ failed err) × (is_transient err ≡ true)) × Transient ts

-- After attempts with transient errors: a client that was set up; a client whose descriptor could not be
-- made non-blocking, and is closed; or an error that is not transient, as if no client waits.
pub data Accepts (ts : List Attempt) (a : SocketAddress) : AcceptResult → Type 0 where
  took :
      (passed : List Attempt) (t : Attempt) (rest : List Attempt) (c : Accepted) (err ignored : ℤ)
      → ts ≡ passed ++ t ∷ rest
      → Transient passed
      → t.outcome ≡ returned c
      → posix_syscall_error t.nonblock ≡ some err
      → is_zero err ≡ true
      → configure_no_delay (is_any_inet (peer_address c a)) t.nodelay ≡ some ignored
      → Accepts ts a (record { client = some c.fd; address = peer_address c a; closed = [] })
  dropped :
      (passed : List Attempt) (t : Attempt) (rest : List Attempt) (c : Accepted) (err : ℤ)
      → ts ≡ passed ++ t ∷ rest
      → Transient passed
      → t.outcome ≡ returned c
      → posix_syscall_error t.nonblock ≡ some err
      → is_zero err ≡ false
      → Accepts ts a (record { client = none; address = peer_address c a; closed = c.fd ∷ [] })
  gave_up :
      (passed : List Attempt) (t : Attempt) (rest : List Attempt) (err : ℕ)
      → ts ≡ passed ++ t ∷ rest
      → Transient passed
      → t.outcome ≡ failed err
      → is_transient err ≡ false
      → Accepts ts a
          (record { client = none; address = record a { addr_len = sizeof_storage }; closed = [] })

abbrev Ends : List Attempt → SocketAddress → Option AcceptResult → Type 0
Ends ts a none = Unit
Ends ts a (some r) = Accepts ts a r

pass :
    (t : Attempt) (ts : List Attempt) (a : SocketAddress) (r : AcceptResult) (err : ℕ)
    → t.outcome ≡ failed err
    → is_transient err ≡ true
    → Accepts ts (record a { addr_len = sizeof_storage }) r
    → Accepts (t ∷ ts) a r
unfolding peer_address
pass u ts a r e o i (took passed t rest c err ignored split p oc s z n) =
    took (u ∷ passed) t rest c err ignored (ap (◌∷◌ u) split) ((e, o, i), p) oc s z n
pass u ts a r e o i (dropped passed t rest c err split p oc s z) =
    dropped (u ∷ passed) t rest c err (ap (◌∷◌ u) split) ((e, o, i), p) oc s z
pass u ts a r e o i (gave_up passed t rest err split p oc z) =
    gave_up (u ∷ passed) t rest err (ap (◌∷◌ u) split) ((e, o, i), p) oc z

pass_Ends :
    (t : Attempt) (ts : List Attempt) (a : SocketAddress) (o : Option AcceptResult) (err : ℕ)
    → t.outcome ≡ failed err
    → is_transient err ≡ true
    → Ends ts (record a { addr_len = sizeof_storage }) o
    → Ends (t ∷ ts) a o
pass_Ends t ts a none err e i h = tt
pass_Ends t ts a (some r) err e i h = pass t ts a r err e i h

take_client-Ends :
    (t : Attempt) (ts : List Attempt) (a : SocketAddress) (c : Accepted)
    → t.outcome ≡ returned c
    → Ends (t ∷ ts) a (take_client t a c)
unfolding take_client configure
take_client-Ends t ts a c o = elim (Option-cases (posix_syscall_error t.nonblock)) [
  | inl runs ↦ rw (take_client, configure, runs) tt
  | inr (err, set) ↦ elim (Bool-cases (is_zero err)) [
    | inr bad ↦ rw (take_client, configure, set, bad) (dropped [] t ts c err refl tt o set bad)
    | inl okay ↦
        elim (Option-cases (configure_no_delay (is_any_inet (peer_address c a)) t.nodelay)) [
          | inl runs ↦ rw (take_client, configure, set, okay, runs) tt
          | inr (ignored, done) ↦
              rw (take_client, configure, set, okay, done)
                (took [] t ts c err ignored refl tt o set okay done)
        ]
  ]
]

after_attempt-Ends :
    (t : Attempt) (ts : List Attempt) (a : SocketAddress) (again : Option AcceptResult)
    (o : Outcome Accepted)
    → t.outcome ≡ o
    → Ends ts (record a { addr_len = sizeof_storage }) again
    → Ends (t ∷ ts) a (after_attempt t a again o)
unfolding after_attempt without_client
after_attempt-Ends t ts a again (returned c) e h = take_client-Ends t ts a c e
after_attempt-Ends t ts a again (failed err) e h =
    if_intro (Ends (t ∷ ts) a) (is_transient err) again (some (without_client a))
      (λ i. pass_Ends t ts a again err e i h) (λ last. gave_up [] t ts err refl tt e last)

accept-Ends : (ts : List Attempt) (a : SocketAddress) → Ends ts a (accept ts a)
unfolding accept
accept-Ends [] a = tt
accept-Ends (t ∷ ts) a =
    after_attempt-Ends t ts a (accept ts (record a { addr_len = sizeof_storage })) t.outcome refl
      (accept-Ends ts (record a { addr_len = sizeof_storage }))

-- The length is set again before each call.
accept-addr_len :
    (ts : List Attempt) (a : SocketAddress)
    → accept ts (record a { addr_len = sizeof_storage }) ≡ accept ts a
unfolding accept after_attempt take_client peer_address without_client
accept-addr_len [] a = refl
accept-addr_len (t ∷ ts) a = refl

accept-Transient :
    (passed ts : List Attempt) (a : SocketAddress)
    → Transient passed
    → accept (passed ++ ts) a ≡ accept ts a
unfolding accept after_attempt
accept-Transient [] ts a h = refl
accept-Transient (t ∷ passed) ts a ((err, o, again), h) =
    ap (after_attempt t a (accept (passed ++ ts) (record a { addr_len = sizeof_storage }))) o
    ∙ rw (after_attempt, again)
        (accept-Transient passed ts (record a { addr_len = sizeof_storage }) h
          ∙ accept-addr_len ts a)

Accepts-accept :
    (ts : List Attempt) (a : SocketAddress) (r : AcceptResult)
    → Accepts ts a r
    → accept ts a ≡ some r
unfolding accept after_attempt take_client configure client_of without_client
Accepts-accept ts a r (took passed t rest c err ignored split p o set okay done) =
    ap (λ us. accept us a) split
    ∙ accept-Transient passed (t ∷ rest) a p
    ∙ rw (accept, o, after_attempt, take_client, configure, set, okay, done) refl
Accepts-accept ts a r (dropped passed t rest c err split p o set bad) =
    ap (λ us. accept us a) split
    ∙ accept-Transient passed (t ∷ rest) a p
    ∙ rw (accept, o, after_attempt, take_client, configure, set, bad) refl
Accepts-accept ts a r (gave_up passed t rest err split p o last) =
    ap (λ us. accept us a) split
    ∙ accept-Transient passed (t ∷ rest) a p
    ∙ rw (accept, o, after_attempt, last) refl

-- The loop of `accept` returns exactly what `Accepts` says: it passes over transient errors, and ends
-- with a client, its address and nothing closed; without a client, when the descriptor could not be
-- made non-blocking and is closed; or without a client at the first other error. It returns as soon
-- as an attempt has no transient error and the calls on the new descriptor end.
pub accept-Accepts :
    (ts : List Attempt) (a : SocketAddress) (r : AcceptResult)
    → (accept ts a ≡ some r) ↔ Accepts ts a r
accept-Accepts ts a r = (λ e. subst (Ends ts a) e (accept-Ends ts a), Accepts-accept ts a r)
