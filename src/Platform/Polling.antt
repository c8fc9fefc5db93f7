-- ===== src/Platform/Polling.antt =====
-- `pollAwaitableResourcesFor` of the executors for epoll and for kqueue
-- (include/ocvsmd/platform/linux/epoll_single_threaded_executor.hpp,
-- include/ocvsmd/platform/bsd/kqueue_single_threaded_executor.hpp).
--
-- A timeout is a number of nanoseconds. The system call is an argument, a function of the timeout that it is
-- given; its events have the address that the entry of their descriptor has.
use yakut_native.Base.{
  ℕ, ◌-◌, ◌*◌, ◌/◌, ◌^◌, ◌≤◌, ◌<◌, ◌≡◌, inl, inr, List, [], ◌∷◌, map, Option, none, some, ℤ, pos,
  negsuc, ltb, ◌==◌, if◌then◌else◌, Bool-cases, if_intro, Map, find, arith,
}
use yakut_native.Posix.{Outcome, returned, failed}
use yakut_native.Platform.Executor.{
  Entry, Epoll, IsEpoll, Node, Executor, Operation, AllProper, init, run,
}
use yakut_native.Platform.Executor.Counting.{waiting_node}
use yakut_native.Platform.Executor.Nodes.{Inv}
use yakut_native.Platform.Executor.Registry.{run-Inv, init-Inv}

pub data PollResult : Type 0 where
  -- Nothing to report, after a sleep of this time, or after the call.
  slept : ℤ → PollResult
  idle : PollResult
  argument_error : PollResult
  platform_error : ℕ → PollResult
  -- The nodes that are scheduled for now, in this order.
  scheduled : List ℕ → PollResult

abbrev pub int_max : ℕ
int_max = 2 ^ 31 - 1

abbrev pub long_max : ℕ
long_max = 2 ^ 63 - 1

abbrev min : ℕ → ℕ → ℕ
min a b = if ltb b a then b else a

-- `std::max(0, std::min(duration_cast<milliseconds>(timeout).count(), INT_MAX))`.
unfoldable pub clamped_ms : ℤ → ℕ
clamped_ms (pos ns) = min (ns / 1000000) int_max
clamped_ms (negsuc n) = 0

-- clamped_timeout_ms
unfoldable pub epoll_timeout : Option ℤ → ℤ
unfolding clamped_ms
epoll_timeout none = negsuc 0
epoll_timeout (some timeout) = pos (clamped_ms timeout)

-- timeout_spec, whose tv_sec is zero; `none` is the null pointer.
pub record Timespec : Type 0 where
  pub tv_sec : ℕ
  pub tv_nsec : ℕ

unfoldable pub clamped_ns : ℤ → ℕ
clamped_ns (pos ns) = min ns long_max
clamped_ns (negsuc n) = 0

unfoldable pub kqueue_timeout : Option ℤ → Option Timespec
unfolding clamped_ns
kqueue_timeout none = none
kqueue_timeout (some timeout) = some (record { tv_sec = 0; tv_nsec = clamped_ns timeout })

abbrev node_of : Entry → ℕ
node_of x = x.node

-- What follows the call, in both executors.
unfoldable pub schedule_events : Outcome (List Entry) → PollResult
schedule_events (failed err) = platform_error err
schedule_events (returned []) = idle
schedule_events (returned (x ∷ xs)) = scheduled (map node_of (x ∷ xs))

-- `total` is total_awaitables_, and `timeout_of` makes the timeout of the call.
unfoldable pub poll_with {ℓ} :
    {A : Type ℓ} → (Option ℤ → A) → ℕ → Option ℤ → (A → Outcome (List Entry)) → PollResult
unfolding schedule_events
poll_with timeout_of total timeout wait =
    if total == 0
    then (elim timeout [ none ↦ argument_error | some t ↦ slept t ])
    else schedule_events (wait (timeout_of timeout))

unfoldable pub epoll_poll : ℕ → Option ℤ → (ℤ → Outcome (List Entry)) → PollResult
unfolding poll_with epoll_timeout
epoll_poll total timeout wait = poll_with epoll_timeout total timeout wait

unfoldable pub kqueue_poll : ℕ → Option ℤ → (Option Timespec → Outcome (List Entry)) → PollResult
unfolding poll_with kqueue_timeout
kqueue_poll total timeout wait = poll_with kqueue_timeout total timeout wait

-- The timeout that `epoll_wait` is given fits an `int`, and is at most what was asked for.
pub clamped_ms-bounds :
    (ns : ℕ) → (clamped_ms (pos ns) ≤ int_max) × (clamped_ms (pos ns) * 1000000 ≤ ns)
unfolding clamped_ms
clamped_ms-bounds ns = elim (Bool-cases (ltb int_max (ns / 1000000))) [
  | inl long ↦ rw long (omega arith, ground (arith, long))
  | inr short ↦ rw short (ground (arith, short), omega arith)
]

-- tv_nsec of a `timespec` is less than a second.
abbrev pub IsTimespec : Timespec → Type 0
IsTimespec t = t.tv_nsec < 1000000000

abbrev pub IsTimespecIfAny : Option Timespec → Type 0
IsTimespecIfAny none = Unit
IsTimespecIfAny (some t) = IsTimespec t

-- The timeout that `kevent` is given for a second or more is no `timespec`.
pub kqueue_timeout-not_timespec :
    (ns : ℕ) → 1000000000 ≤ ns → IsTimespecIfAny (kqueue_timeout (some (pos ns))) → ⊥
unfolding kqueue_timeout clamped_ns
kqueue_timeout-not_timespec ns long h = ground (arith, long, h)

-- The events are of descriptors of the interest list.
abbrev pub Reported : {T : Type 0} → Epoll T → T → List Entry → Type 0
Reported e t [] = Unit
Reported e t (x ∷ xs) = ((fd : ℕ) × (e.lookup fd t ≡ some x)) × Reported e t xs

abbrev pub OutcomeReported : {T : Type 0} → Epoll T → T → Outcome (List Entry) → Type 0
OutcomeReported e t (failed err) = Unit
OutcomeReported e t (returned xs) = Reported e t xs

abbrev pub Live : Map Node → List ℕ → Type 0
Live nodes [] = Unit
Live nodes (id ∷ ids) =
    ((fd : ℕ) × (events : ℕ) × (find id nodes ≡ some (waiting_node fd events))) × Live nodes ids

-- The nodes that a poll schedules live.
abbrev pub Sound : Map Node → PollResult → Type 0
Sound nodes (scheduled ids) = Live nodes ids
Sound nodes other = Unit

module _ {T : Type 0} (e : Epoll T) (documented : IsEpoll e) where
  Reported-Live :
      (s : Executor T) (xs : List Entry)
      → Inv e documented s
      → Reported e s.interest xs
      → Live s.nodes (map node_of xs)
  Reported-Live s [] v r = tt
  Reported-Live s (x ∷ xs) v ((fd, there), r) =
      ((fd, x.events, v.entry-node fd x there), Reported-Live s xs v r)

  schedule_events-Sound :
      (s : Executor T) (o : Outcome (List Entry))
      → Inv e documented s
      → OutcomeReported e s.interest o
      → Sound s.nodes (schedule_events o)
  unfolding schedule_events
  schedule_events-Sound s (failed err) v r = tt
  schedule_events-Sound s (returned []) v r = tt
  schedule_events-Sound s (returned (x ∷ xs)) v r = Reported-Live s (x ∷ xs) v r

  without_awaitables-Sound :
      (nodes : Map Node) (timeout : Option ℤ)
      → Sound nodes (elim timeout [ none ↦ argument_error | some t ↦ slept t ])
  without_awaitables-Sound nodes none = tt
  without_awaitables-Sound nodes (some t) = tt

  -- After any proper sequence of registrations, moves and drops: what a poll schedules, if
  -- `epoll_wait` reports entries of the interest list, are nodes that live and wait for a descriptor,
  -- never one that was moved from or dropped.
  pub epoll_poll-Sound :
      (os : List Operation) (timeout : Option ℤ) (wait : ℤ → Outcome (List Entry))
      → AllProper e os (init e)
      → ((t : ℤ) → OutcomeReported e (run e os (init e)).interest (wait t))
      → Sound (run e os (init e)).nodes (epoll_poll (run e os (init e)).total timeout wait)
  unfolding epoll_poll poll_with
  epoll_poll-Sound os timeout wait p r =
      if_intro (Sound (run e os (init e)).nodes) ((run e os (init e)).total == 0)
        (elim timeout [ none ↦ argument_error | some t ↦ slept t ])
        (schedule_events (wait (epoll_timeout timeout)))
        (λ _. without_awaitables-Sound (run e os (init e)).nodes timeout)
        (λ _.
          schedule_events-Sound (run e os (init e)) (wait (epoll_timeout timeout))
            (run-Inv e documented os (init e) p (init-Inv e documented))
            (r (epoll_timeout timeout)))
