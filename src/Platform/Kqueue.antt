-- ===== src/Platform/Kqueue.antt =====
-- The awaitable nodes of `KqueueSingleThreadedExecutor`
-- (include/ocvsmd/platform/bsd/kqueue_single_threaded_executor.hpp), with the types of those of the epoll
-- executor.
--
-- The kernel's queue of events is the argument `Kqueue`: an event has the key of a descriptor and a filter, and
-- the node's address with it. Numbers of `std::uint32_t` stand for the negative constants.

pub mod Nodes
pub mod Registry
use Prim.Native.Nat.{bit_or}
use yakut_native.Base.{
  ℕ, ◌+◌, ◌-◌, ◌%◌, ◌^◌, ◌≡◌, refl, List, [], ◌∷◌, Bool, true, false, ◌||◌, ◌&&◌, Option, none,
  some, ℤ, pos, negsuc, ◌==◌, if◌then◌else◌, Map, find, contains, erase, assign,
}
use yakut_native.Platform.Executor.{
  Node, Executor, Trigger, readable, writable, fd_of, Operation, registers, moves, drops, has_fd,
}

pub record Kqueue (T : Type 0) : Type 0 where
  pub created : T
  -- EV_ADD and EV_DELETE, of a descriptor and a filter.
  pub ev_add : ℕ → ℕ → ℕ → T → T
  pub ev_delete : ℕ → ℕ → T → T
  pub lookup : ℕ → ℕ → T → Option ℕ

-- What kqueue(2) documents: an event that is added again has its parameters replaced, a deletion takes the event
-- of its key away, and no call changes another event.
pub record IsKqueue {T : Type 0} (q : Kqueue T) : Type 0 where
  pub lookup-created : (fd filter : ℕ) → q.lookup fd filter q.created ≡ none
  pub lookup-add :
      (j g fd filter node : ℕ) (t : T)
      → q.lookup j g (q.ev_add fd filter node t)
        ≡ (if fd == j && filter == g then some node else q.lookup j g t)
  pub lookup-delete :
      (j g fd filter : ℕ) (t : T)
      → q.lookup j g (q.ev_delete fd filter t)
        ≡ (if fd == j && filter == g then none else q.lookup j g t)

-- -1, -2 and -4.
abbrev pub evfilt_read : ℕ
evfilt_read = 2 ^ 32 - 1

abbrev pub evfilt_write : ℕ
evfilt_write = 2 ^ 32 - 2

abbrev pub evfilt_vnode : ℕ
evfilt_vnode = 2 ^ 32 - 4

-- `events | EVFILT_VNODE`.
unfoldable pub with_vnode : ℕ → ℕ
with_vnode events = bit_or events evfilt_vnode

-- The field `short filter` that `EV_SET` gives to an event.
unfoldable pub filter_of : ℕ → ℕ
filter_of events = events % 2 ^ 16

unfoldable pub filter_of_trigger : Trigger → ℕ
filter_of_trigger (readable fd) = evfilt_read
filter_of_trigger (writable fd) = evfilt_write

-- `std::size_t`.
abbrev size_t : ℕ → ℕ
size_t n = n % 2 ^ 64

module _ {T : Type 0} (q : Kqueue T) where
  unfoldable pub init : Executor T
  init = record { nodes = []; total = 0; interest = q.created }

  -- `AwaitableNode{executor, function}`.
  unfoldable pub construct : ℕ → Executor T → Executor T
  construct this s = record s { nodes = assign this (record { fd = negsuc 0; events = 0 }) s.nodes }

  -- With events_ given.
  unfoldable pub wait_for : ℕ → ℕ → ℕ → Executor T → Executor T
  wait_for this fd events s = record {
    nodes = assign this (record { fd = pos fd; events = events }) s.nodes;
    total = size_t (s.total + 1);
    interest = q.ev_add fd (filter_of events) this s.interest;
  }

  unfoldable pub setup : ℕ → ℕ → ℕ → Executor T → Executor T
  unfolding wait_for with_vnode
  setup this fd events s = wait_for this fd (with_vnode events) s

  -- The move constructor, of a node that is there: the event is deleted and added again.
  unfoldable pub take_over : ℕ → ℕ → Node → Executor T → Executor T
  take_over this other node s = record s {
    nodes = assign this node (assign other (record { fd = negsuc 0; events = 0 }) s.nodes);
    interest = elim node.fd [
      | pos fd ↦
          q.ev_add fd (filter_of node.events) this
            (q.ev_delete fd (filter_of node.events) s.interest)
      | negsuc n ↦ s.interest
    ];
  }

  unfoldable pub move_construct : ℕ → ℕ → Executor T → Executor T
  unfolding take_over
  move_construct this other s = elim (find other s.nodes) [
    | none ↦ s
    | some node ↦ take_over this other node s
  ]

  -- The destructor, of a node with this fd_ and events_.
  unfoldable pub leave : ℤ → ℕ → Executor T → Executor T
  leave (negsuc n) events s = s
  leave (pos fd) events s = record s {
    total = size_t (s.total + (2 ^ 64 - 1));
    interest = q.ev_delete fd (filter_of events) s.interest;
  }

  unfoldable pub destroy : ℕ → Executor T → Executor T
  unfolding leave
  destroy this s = elim (find this s.nodes) [
    | none ↦ s
    | some node ↦ let s' = leave node.fd node.events s in record s' { nodes = erase this s'.nodes }
  ]

  -- `registerAwaitableCallback`: a local node, which is moved into the result at `this`.
  unfoldable pub register_awaitable_callback : ℕ → ℕ → Trigger → Executor T → Executor T
  unfolding construct setup move_construct destroy
  register_awaitable_callback local this trigger s = destroy local (
      move_construct this local
        (setup local (fd_of trigger) (filter_of_trigger trigger) (construct local s)))

  unfoldable pub perform : Operation → Executor T → Executor T
  unfolding register_awaitable_callback move_construct destroy
  perform (registers local this trigger) s = register_awaitable_callback local this trigger s
  perform (moves this other) s = move_construct this other s
  perform (drops this) s = destroy this s

  unfoldable pub run : List Operation → Executor T → Executor T
  unfolding perform
  run [] s = s
  run (o ∷ os) s = run os (perform o s)

-- The key of an event that a node, if there is one, waits for.
abbrev pub waits_for : ℕ → ℕ → Option Node → Bool
waits_for fd filter none = false
waits_for fd filter (some node) = has_fd fd node.fd && (filter_of node.events == filter)

abbrev pub watched_for : ℕ → ℕ → Map Node → Bool
watched_for fd filter [] = false
watched_for fd filter ((id, node) ∷ nodes) =
    waits_for fd filter (some node) || watched_for fd filter nodes

-- Objects are made where none lives, and those that live are used; no other node waits for an event that is
-- registered. (Two nodes may wait for one descriptor, with different filters.)
abbrev pub IsProper : Operation → Map Node → Type 0
IsProper (registers local this trigger) nodes =
    (find local nodes ≡ none)
    × (find this nodes ≡ none)
    × ((local == this) ≡ false)
    × (watched_for (fd_of trigger) (filter_of (with_vnode (filter_of_trigger trigger))) nodes
        ≡ false)
IsProper (moves this other) nodes = (find this nodes ≡ none) × (contains other nodes ≡ true)
IsProper (drops this) nodes = contains this nodes ≡ true

abbrev pub AllProper : {T : Type 0} → Kqueue T → List Operation → Executor T → Type 0
AllProper q [] s = Unit
AllProper q (o ∷ os) s = IsProper o s.nodes × AllProper q os (perform q o s)

-- EVFILT_VNODE has all its bits in the other two filters, so it adds nothing to them.
pub with_vnode-filter :
    (trigger : Trigger) → with_vnode (filter_of_trigger trigger) ≡ filter_of_trigger trigger
unfolding with_vnode filter_of_trigger
with_vnode-filter (readable fd) = refl
with_vnode-filter (writable fd) = refl
