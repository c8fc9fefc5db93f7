-- ===== src/Ipc/Pipe/SocketServer.antt =====
-- `SocketServer` of src/common/ipc/pipe/socket_server.cpp: the clients of the daemon's socket.
--
-- `world` is whatever the event handler changes (the router, in the daemon), and `events` lists what
-- the handler was called with, latest first. As in Framing, a system call is given by the outcomes of
-- its attempts, and `none` says that its retry loop still runs.
pub mod Status
pub mod Protocol
use yakut_native.Base.{
  ℕ, ◌+◌, List, [], ◌∷◌, Bool, true, false, Option, none, some, ℤ, pos, is_zero, Map, find,
  contains, erase, assign, insert, if◌then◌else◌,
}
use yakut_native.Posix.{Outcome, posix_syscall_error, unless_error}
use yakut_native.Ipc.Types.{Payload, u64, invalid}
use yakut_native.Ipc.Server.{PipeEvent, pipe_connected, pipe_disconnected, pipe_message}
use yakut_native.Ipc.Pipe.Framing.{ReadState, initial, receive_message}
use yakut_native.Ipc.Pipe.Framing

pub record SocketServer {ℓ} (W : Type ℓ) : Type ℓ where
  -- client_id_to_context_
  pub contexts : Map ReadState
  -- unique_client_id_counter_
  pub counter : ℕ
  -- accept_callback_
  pub accepting : Bool
  pub events : List PipeEvent
  pub world : W

abbrev pub Handler {ℓ} : Type ℓ → Type ℓ
Handler W = PipeEvent → W → W × ℤ

unfoldable pub init {ℓ} : {W : Type ℓ} → W → SocketServer W
init w = record { contexts = []; counter = 0; accepting = false; events = []; world = w }

-- The outcomes of the calls that make the listening socket: of `SocketAddress::socket` and
-- `SocketAddress::bind` their results, 0 for success.
pub record Setup : Type 0 where
  pub socket : ℤ
  pub set_reuse : List (Outcome ℕ)
  pub bind : ℤ
  pub listen : List (Outcome ℕ)

unfoldable pub make_socket_handle : Setup → Option ℤ
unfolding unless_error
make_socket_handle c =
    unless_error (some c.socket) (unless_error (posix_syscall_error c.set_reuse) (some c.bind))

unfoldable pub start {ℓ} : {W : Type ℓ} → Setup → SocketServer W → Option (SocketServer W × ℤ)
start c s = elim (unless_error (make_socket_handle c) (posix_syscall_error c.listen)) [
  | none ↦ none
  | some err ↦ if is_zero err then some (record s { accepting = true }, pos 0) else some (s, err)
]

-- A call of the event handler.
unfoldable pub event {ℓ} :
    {W : Type ℓ} → Handler W → PipeEvent → SocketServer W → SocketServer W × ℤ
event h e s = (record s { events = e ∷ s.events; world = (h e s.world).0 }, (h e s.world).1)

unfoldable pub send {ℓ} :
    {W : Type ℓ}
    → ℕ
    → List Payload
    → List (List (Outcome ℕ))
    → SocketServer W
    → Option (List Payload × ℤ)
send id payloads calls s = elim (find id s.contexts) [
  | none ↦ some ([], invalid)
  | some context ↦ Framing.send payloads calls
]

-- `handleAccept`, of a connection that was accepted or not.
unfoldable pub handle_accept {ℓ} : {W : Type ℓ} → Handler W → Bool → SocketServer W → SocketServer W
unfolding event
handle_accept h false s = s
handle_accept h true s =
    let id = u64 (s.counter + 1) in
    (event h (pipe_connected id)
      (record s { counter = id; contexts = insert id initial s.contexts })).0

-- `handleClientRequest`. Its callback is a part of the context, and goes with it.
unfoldable pub handle_client_request {ℓ} :
    {W : Type ℓ}
    → Handler W
    → ℕ
    → List (Outcome Payload)
    → List (Outcome Payload)
    → SocketServer W
    → Option (SocketServer W)
unfolding event
handle_client_request h id header_attempts payload_attempts s = elim (find id s.contexts) [
  | none ↦ some s
  | some state ↦
      elim (receive_message (λ payload. event h (pipe_message id payload)) state s header_attempts
        payload_attempts) [
          | none ↦ none
          | some (state', s', err) ↦ some (
              if is_zero err
              then record s' { contexts = assign id state' s'.contexts }
              else (event h (pipe_disconnected id)
                  (record s' { contexts = erase id s'.contexts })).0)
        ]
]

-- What the executor calls, one call after the other, for as long as each ends.
pub data Call : Type 0 where
  accepts : Bool → Call
  reads : ℕ → List (Outcome Payload) → List (Outcome Payload) → Call

unfoldable pub perform {ℓ} :
    {W : Type ℓ} → Handler W → Call → SocketServer W → Option (SocketServer W)
perform h (accepts success) s = some (handle_accept h success s)
perform h (reads id header_attempts payload_attempts) s =
    handle_client_request h id header_attempts payload_attempts s

unfoldable pub run {ℓ} : {W : Type ℓ} → Handler W → List Call → SocketServer W → SocketServer W
run h [] s = s
run h (c ∷ cs) s = elim (perform h c s) [ none ↦ s | some t ↦ run h cs t ]
