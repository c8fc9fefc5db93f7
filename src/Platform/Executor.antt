-- ===== src/Platform/Executor.antt =====
-- The awaitable nodes of `EpollSingleThreadedExecutor`
-- (include/ocvsmd/platform/linux/epoll_single_threaded_executor.hpp).
--
-- `nodes` is the objects that live, by their address, each with its fd_ and events_. The kernel's
-- interest list is the argument `Epoll`; an entry of it has the events and the node's address.
pub mod Counting
pub mod Nodes
pub mod Registry
use yakut_native.Base.{
  ℕ, ◌+◌, ◌-◌, ◌%◌, ◌^◌, ◌≡◌, List, [], ◌∷◌, Bool, true, false, ◌||◌, Option, none, some, ℤ, pos,
  negsuc, ◌==◌, if◌then◌else◌, Map, find, contains, erase, assign, is_some,
}

pub record Entry : Type 0 where
  pub events : ℕ
  pub node : ℕ

-- `epoll_ctl` on an interest list of type `T`, and what the list has for a descriptor.
pub record Epoll (T : Type 0) : Type 0 where
  pub created : T
  pub ctl_add : ℕ → Entry → T → T
  pub ctl_mod : ℕ → Entry → T → T
  pub ctl_del : ℕ → T → T
  pub lookup : ℕ → T → Option Entry

-- What epoll_ctl(2) documents: EPOLL_CTL_ADD changes nothing for a descriptor that is there,
-- EPOLL_CTL_MOD changes nothing for one that is not, and no call changes what another descriptor has.
pub record IsEpoll {T : Type 0} (e : Epoll T) : Type 0 where
  pub lookup-created : (fd : ℕ) → e.lookup fd e.created ≡ none
  pub lookup-add :
      (j fd : ℕ) (x : Entry) (t : T)
      → e.lookup j (e.ctl_add fd x t) ≡ (
          if fd == j
          then (if is_some (e.lookup j t) then e.lookup j t else some x)
          else e.lookup j t)
  pub lookup-mod :
      (j fd : ℕ) (x : Entry) (t : T)
      → e.lookup j (e.ctl_mod fd x t)
        ≡ (if fd == j then (if is_some (e.lookup j t) then some x else none) else e.lookup j t)
  pub lookup-del :
      (j fd : ℕ) (t : T) → e.lookup j (e.ctl_del fd t) ≡ (if fd == j then none else e.lookup j t)

-- fd_ of a node is -1, or a descriptor.
pub record Node : Type 0 where
  pub fd : ℤ
  pub events : ℕ

pub record Executor (T : Type 0) : Type 0 where
  pub nodes : Map Node
  -- total_awaitables_
  pub total : ℕ
  -- epollfd_
  pub interest : T

abbrev pub epollin : ℕ
epollin = 1

abbrev pub epollout : ℕ
epollout = 4

pub data Trigger : Type 0 where
  readable writable : ℕ → Trigger

abbrev pub fd_of : Trigger → ℕ
fd_of (readable fd) = fd
fd_of (writable fd) = fd

abbrev pub events_of : Trigger → ℕ
events_of (readable fd) = epollin
events_of (writable fd) = epollout

-- `std::size_t`.
abbrev size_t : ℕ → ℕ
size_t n = n % 2 ^ 64

module _ {T : Type 0} (e : Epoll T) where
  unfoldable pub init : Executor T
  init = record { nodes = []; total = 0; interest = e.created }

  -- `AwaitableNode{executor, function}`.
  unfoldable pub construct : ℕ → Executor T → Executor T
  construct this s = record s { nodes = assign this (record { fd = negsuc 0; events = 0 }) s.nodes }

  unfoldable pub setup : ℕ → ℕ → ℕ → Executor T → Executor T
  setup this fd events s = record {
    nodes = assign this (record { fd = pos fd; events = events }) s.nodes;
    total = size_t (s.total + 1);
    interest = e.ctl_add fd (record { events = events; node = this }) s.interest;
  }

  -- The move constructor, of a node that is there.
  unfoldable pub take_over : ℕ → ℕ → Node → Executor T → Executor T
  take_over this other node s = record s {
    nodes = assign this node (assign other (record { fd = negsuc 0; events = 0 }) s.nodes);
    interest = elim node.fd [
      | pos fd ↦ e.ctl_mod fd (record { events = node.events; node = this }) s.interest
      | negsuc n ↦ s.interest
    ];
  }

  unfoldable pub move_construct : ℕ → ℕ → Executor T → Executor T
  unfolding take_over
  move_construct this other s = elim (find other s.nodes) [
    | none ↦ s
    | some node ↦ take_over this other node s
  ]

  -- The destructor, of a node with this fd_.
  unfoldable pub leave : ℤ → Executor T → Executor T
  leave (negsuc n) s = s
  leave (pos fd) s = record s {
    total = size_t (s.total + (2 ^ 64 - 1));
    interest = e.ctl_del fd s.interest;
  }

  unfoldable pub destroy : ℕ → Executor T → Executor T
  unfolding leave
  destroy this s = elim (find this s.nodes) [
    | none ↦ s
    | some node ↦ let s' = leave node.fd s in record s' { nodes = erase this s'.nodes }
  ]

  -- `registerAwaitableCallback`: a local node, which is moved into the result at `this`.
  unfoldable pub register_awaitable_callback : ℕ → ℕ → Trigger → Executor T → Executor T
  unfolding construct setup move_construct destroy
  register_awaitable_callback local this trigger s = destroy local (
      move_construct this local
        (setup local (fd_of trigger) (events_of trigger) (construct local s)))

-- What a program does with callbacks: it registers, moves and drops them.
pub data Operation : Type 0 where
  registers : ℕ → ℕ → Trigger → Operation
  moves : ℕ → ℕ → Operation
  drops : ℕ → Operation

-- A node that lives waits for the descriptor.
abbrev pub has_fd : ℕ → ℤ → Bool
has_fd fd (pos n) = n == fd
has_fd fd (negsuc n) = false

abbrev pub watched : ℕ → Map Node → Bool
watched fd [] = false
watched fd ((id, node) ∷ nodes) = has_fd fd node.fd || watched fd nodes

-- Objects are made where none lives, and those that live are used; no other node waits for a descriptor
-- that is registered.
abbrev pub IsProper : Operation → Map Node → Type 0
IsProper (registers local this trigger) nodes =
    (find local nodes ≡ none)
    × (find this nodes ≡ none)
    × ((local == this) ≡ false)
    × (watched (fd_of trigger) nodes ≡ false)
IsProper (moves this other) nodes = (find this nodes ≡ none) × (contains other nodes ≡ true)
IsProper (drops this) nodes = contains this nodes ≡ true

module _ {T : Type 0} (e : Epoll T) where
  unfoldable pub perform : Operation → Executor T → Executor T
  unfolding register_awaitable_callback move_construct destroy
  perform (registers local this trigger) s = register_awaitable_callback e local this trigger s
  perform (moves this other) s = move_construct e this other s
  perform (drops this) s = destroy e this s

  unfoldable pub run : List Operation → Executor T → Executor T
  unfolding perform
  run [] s = s
  run (o ∷ os) s = run os (perform o s)

  abbrev pub AllProper : List Operation → Executor T → Type 0
  AllProper [] s = Unit
  AllProper (o ∷ os) s = IsProper o s.nodes × AllProper os (perform o s)
