-- ===== src/Ipc/Pipe/SocketClient.antt =====
-- `SocketClient` of src/common/ipc/pipe/socket_client.cpp: the client's end of the socket, as a state
-- machine on the calls of the executor. World, events and system calls are as for the server's end.
pub mod Protocol
use yakut_native.Base.{
  ℕ, List, [], ◌∷◌, Bool, true, false, not, ◌&&◌, Option, none, some, ℤ, pos, negsuc, is_zero,
  if◌then◌else◌, ◌==◌,
}
use yakut_native.Posix.{Outcome, returned, failed, posix_syscall, einprogress}
use yakut_native.Ipc.Types.{Payload}
use yakut_native.Ipc.Client.{PipeEvent, pipe_connected, pipe_disconnected, pipe_message}
use yakut_native.Ipc.Pipe.Framing.{ReadState, ReadPhase, header, initial, receive_message}

-- What `socket_callback_` waits for: nothing, the end of `connect`, or data.
pub data Callback : Type 0 where
  absent connecting receiving : Callback

pub record SocketClient {ℓ} (W : Type ℓ) : Type ℓ where
  -- socket_callback_
  pub callback : Callback
  -- Whether state_.fd is open.
  pub is_open : Bool
  pub state : ReadState
  pub events : List PipeEvent
  pub world : W

abbrev pub Handler {ℓ} : Type ℓ → Type ℓ
Handler W = PipeEvent → W → W × ℤ

unfoldable pub init {ℓ} : {W : Type ℓ} → W → SocketClient W
init w = record { callback = absent; is_open = false; state = initial; events = []; world = w }

-- An error of `connect` other than that it goes on in the background.
unfoldable pub is_failure : ℤ → Bool
is_failure (pos n) = not (n == 0) && not (n == einprogress)
is_failure (negsuc n) = true

-- The results of `SocketAddress::socket` and `SocketAddress::connect`, 0 for success.
unfoldable pub make_socket_handle {ℓ} : {W : Type ℓ} → ℤ → ℤ → SocketClient W → SocketClient W × ℤ
unfolding is_failure
make_socket_handle socket_err connect_err s =
    if is_zero socket_err
    then if is_failure connect_err then (s, connect_err) else (record s { is_open = true }, pos 0)
    else (s, socket_err)

unfoldable pub start {ℓ} : {W : Type ℓ} → ℤ → ℤ → SocketClient W → SocketClient W × ℤ
unfolding make_socket_handle
start socket_err connect_err s =
    let (s', err) = make_socket_handle socket_err connect_err s in
    if is_zero err then (record s' { callback = connecting }, pos 0) else (s', err)

-- A call of the event handler.
unfoldable pub event {ℓ} :
    {W : Type ℓ} → Handler W → PipeEvent → SocketClient W → SocketClient W × ℤ
event h e s = (record s { events = e ∷ s.events; world = (h e s.world).0 }, (h e s.world).1)

unfoldable pub handle_disconnect {ℓ} : {W : Type ℓ} → Handler W → SocketClient W → SocketClient W
unfolding event
handle_disconnect h s =
    (event h pipe_disconnected (record s {
      callback = absent;
      is_open = false;
      state = record { read_msg_size = s.state.read_msg_size; read_phase = header };
    })).0

-- The socket's own error, or the one of the query for it.
unfoldable pub so_error : Outcome ℕ → ℕ
so_error (returned err) = err
so_error (failed err) = err

unfoldable pub handle_connect {ℓ} :
    {W : Type ℓ} → Handler W → List (Outcome ℕ) → SocketClient W → Option (SocketClient W)
unfolding event handle_disconnect
handle_connect h query s = elim (posix_syscall query) [
  | none ↦ none
  | some outcome ↦ some (
      if so_error outcome == 0
      then (event h pipe_connected (record s {
        callback = receiving;
        state = record { read_msg_size = s.state.read_msg_size; read_phase = header };
      })).0
      else handle_disconnect h s)
]

unfoldable pub handle_receive {ℓ} :
    {W : Type ℓ}
    → Handler W
    → List (Outcome Payload)
    → List (Outcome Payload)
    → SocketClient W
    → Option (SocketClient W)
unfolding event handle_disconnect
handle_receive h header_attempts payload_attempts s =
    elim (receive_message (λ payload. event h (pipe_message payload)) s.state s header_attempts
      payload_attempts) [
        | none ↦ none
        | some (state', s', err) ↦ some (
            if is_zero err
            then record s' { state = state' }
            else handle_disconnect h (record s' { state = state' }))
      ]

-- What its owner and the executor call: `start`, of a client without a socket, and the callback that
-- is registered.
pub data Call : Type 0 where
  starts : ℤ → ℤ → Call
  becomes_writable : List (Outcome ℕ) → Call
  becomes_readable : List (Outcome Payload) → List (Outcome Payload) → Call

unfoldable pub perform {ℓ} :
    {W : Type ℓ} → Handler W → Call → SocketClient W → Option (SocketClient W)
unfolding start
perform h (starts socket_err connect_err) s =
    some (if s.is_open then s else (start socket_err connect_err s).0)
perform h (becomes_writable query) s = elim s.callback [
  | absent ↦ some s
  | connecting ↦ handle_connect h query s
  | receiving ↦ some s
]
perform h (becomes_readable header_attempts payload_attempts) s = elim s.callback [
  | absent ↦ some s
  | connecting ↦ some s
  | receiving ↦ handle_receive h header_attempts payload_attempts s
]

unfoldable pub run {ℓ} : {W : Type ℓ} → Handler W → List Call → SocketClient W → SocketClient W
run h [] s = s
run h (c ∷ cs) s = elim (perform h c s) [ none ↦ s | some t ↦ run h cs t ]
