-- ===== src/Daemon/Engine.antt =====
-- `Engine` of src/daemon/engine/engine.cpp: the start of the daemon, its identifier, and its run loop.
--
-- What the objects of libcyphal and the router of the daemon answer is the argument `Environment`. `Step` lists
-- what was done, in order.
pub mod Startup
use yakut_native.Base.{
  ℕ, ◌*◌, List, [], ◌∷◌, ◌++◌, Bool, true, false, Option, none, some, ℤ, pos, negsuc, is_zero, ltb,
  if◌then◌else◌, Text,
}
use yakut_native.Io.SocketAddress.{Libc, SocketAddress, ParseResult, success, failure, parse}
use yakut_native.Daemon.Config.{
  Config, UniqueId, Writing, save, get_cyphal_app_node_id, get_cyphal_app_unique_id,
  set_cyphal_app_unique_id, get_cyphal_transport_interfaces, get_ipc_connections,
}

pub record Environment (T : Type 0) : Type 0 where
  -- UdpTransportBag::make and CanTransportBag::make, of the interfaces.
  pub make_udp : List Text → Option T
  pub make_can : List Text → Option T
  -- Node::make succeeds.
  pub makes_node : Bool
  pub libc : Libc
  -- ipc_router_->start()
  pub router_start : ℤ
  -- The random identifier, the time and the way of a save.
  pub random : UniqueId
  pub now : ℕ
  pub writing : Writing

pub data Step (T : Type 0) : Type 0 where
  chooses_transport : T → Step T
  sets_local_node_id : ℕ → Step T
  makes_presentation : Step T
  makes_node : Step T
  populates_info : UniqueId → Step T
  makes_pipe : SocketAddress → Step T
  registers_services : Step T
  starts_router : Step T

-- The messages of `init`.
pub data Message : Type 0 where
  no_transport no_node no_ipc_connections bad_ipc_connection router_not_started : Message

-- `getUniqueId`.
unfoldable pub get_unique_id : UniqueId → ℕ → Writing → Config → UniqueId × Config
unfolding set_cyphal_app_unique_id save
get_unique_id random now writing c = elim (get_cyphal_app_unique_id c) [
  | some id ↦ (id, c)
  | none ↦ (random, save now writing (set_cyphal_app_unique_id random c))
]

-- The outcome of `init`: a message if it failed, what was done, and the configuration.
pub record InitOutcome (T : Type 0) : Type 0 where
  pub message : Option Message
  pub steps : List (Step T)
  pub config : Config

module _ {T : Type 0} (e : Environment T) where
  -- First UDP, then, only if there is none, CAN.
  unfoldable pub or_can : List Text → Option T → Option T
  or_can ifaces none = e.make_can ifaces
  or_can ifaces (some transport) = some transport

  unfoldable pub choose_transport : List Text → Option T
  unfolding or_can
  choose_transport ifaces = or_can ifaces (e.make_udp ifaces)

  unfoldable pub node_id_steps : Option ℕ → List (Step T)
  node_id_steps none = []
  node_id_steps (some id) = sets_local_node_id id ∷ []

  -- The end of `init`, after the steps that are given.
  unfoldable pub start_router : List (Step T) → Config → InitOutcome T
  start_router steps c = record {
    message = if is_zero e.router_start then none else some router_not_started;
    steps = steps ++ registers_services ∷ starts_router ∷ [];
    config = c;
  }

  unfoldable pub with_address : List (Step T) → Config → ParseResult → InitOutcome T
  unfolding start_router
  with_address steps c (failure err) = record {
    message = some bad_ipc_connection;
    steps = steps;
    config = c;
  }
  with_address steps c (success address) = start_router (steps ++ makes_pipe address ∷ []) c

  -- The IPC router is brought up on the first connection.
  unfoldable pub with_connections : List (Step T) → Config → List Text → InitOutcome T
  unfolding with_address
  with_connections steps c [] = record {
    message = some no_ipc_connections;
    steps = steps;
    config = c;
  }
  with_connections steps c (connection ∷ others) = with_address steps c (parse e.libc connection 0)

  unfoldable pub with_node : List (Step T) → Config → Bool → InitOutcome T
  unfolding with_connections
  with_node steps c false = record { message = some no_node; steps = steps; config = c }
  with_node steps c true =
      let id = get_unique_id e.random e.now e.writing c in
      with_connections (steps ++ makes_node ∷ populates_info id.0 ∷ []) id.1
        (get_ipc_connections id.1)

  unfoldable pub with_transport : Config → Option T → InitOutcome T
  unfolding with_node node_id_steps
  with_transport c none = record { message = some no_transport; steps = []; config = c }
  with_transport c (some transport) =
      with_node
        (chooses_transport transport ∷ node_id_steps (get_cyphal_app_node_id c)
          ++ makes_presentation ∷ [])
        c e.makes_node

  unfoldable pub init : Config → InitOutcome T
  unfolding with_transport choose_transport
  init c = with_transport c (choose_transport (get_cyphal_transport_interfaces c))

-- One second, in nanoseconds.
abbrev pub one_second : ℕ
one_second = 1000000000

-- The timeout of a pass of `runWhile`, of the time until the next callback.
unfoldable pub poll_timeout : Option ℤ → ℤ
poll_timeout none = pos one_second
poll_timeout (some (pos ns)) = if ltb ns one_second then pos ns else pos one_second
poll_timeout (some (negsuc n)) = negsuc n

-- The timeouts of the passes of the loop, as long as its predicate holds.
unfoldable pub run_while : List (Option ℤ) → List ℤ
unfolding poll_timeout
run_while [] = []
run_while (next ∷ passes) = poll_timeout next ∷ run_while passes
