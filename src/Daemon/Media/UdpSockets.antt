-- ===== src/Daemon/Media/UdpSockets.antt =====
-- `UdpTxSocket` and `UdpRxSocket` of src/daemon/engine/platform/udp/udp_sockets.hpp. The results of the
-- vendored driver's calls are arguments; `closed` is what a function closes.
use yakut_native.Base.{
  ℕ, ◌+◌, List, [], ◌∷◌, Bool, true, false, ℤ, pos, negsuc, ◌==◌, if◌then◌else◌,
}
use yakut_native.Posix.{Outcome, returned, failed}

pub data MakeSocketResult : Type 0 where
  made : ℕ → MakeSocketResult
  socket_error : ℕ → MakeSocketResult
  memory_error : MakeSocketResult

-- Both `make`, of the outcome of `udpTxInit` or `udpRxInit`, and whether there is memory for the object.
unfoldable pub make_tx : Outcome ℕ → Bool → MakeSocketResult × List ℕ
make_tx (failed err) allocated = (socket_error err, [])
make_tx (returned handle) true = (made handle, [])
make_tx (returned handle) false = (memory_error, handle ∷ [])

unfoldable pub make_rx : Outcome ℕ → Bool → MakeSocketResult × List ℕ
make_rx (failed err) allocated = (socket_error err, [])
make_rx (returned handle) true = (made handle, [])
make_rx (returned handle) false = (memory_error, handle ∷ [])

pub data SendResult : Type 0 where
  sent : Bool → SendResult
  send_error : ℕ → SendResult

unfoldable pub send : ℤ → SendResult
send (negsuc n) = send_error (n + 1)
send (pos n) = sent (n == 1)

pub data ReceiveResult : Type 0 where
  received : ℕ → ℕ → ReceiveResult
  nothing_received : ReceiveResult
  no_memory : ReceiveResult
  receive_error : ℕ → ReceiveResult

-- The size of the message, and whether there is memory for it.
unfoldable pub take_message : ℕ → ℕ → Bool → ReceiveResult
take_message now size true = received now size
take_message now size false = no_memory

unfoldable pub receive : ℕ → ℤ → ℕ → Bool → ReceiveResult
unfolding take_message
receive now (negsuc n) size allocated = receive_error (n + 1)
receive now (pos n) size allocated =
    if n == 0 then nothing_received else take_message now size allocated
