-- ===== src/Ipc/Pipe/SocketServer/Status.antt =====
-- The life of a client of a server pipe, as an automaton on the events that its users see
-- (`ServerPipe::Event` of src/common/ipc/pipe/server_pipe.hpp): connected, then messages, then at most
-- one disconnection, and nothing more.
use yakut_native.Base.{ℕ, List, [], ◌∷◌, ◌&&◌, contains, ltb, leb, ◌==◌, if◌then◌else◌}
use yakut_native.Ipc.Server.{PipeEvent, pipe_connected, pipe_disconnected, pipe_message}
use yakut_native.Ipc.Pipe.SocketServer.{SocketServer}

pub data Status : Type 0 where
  unheard opened closed broken : Status

abbrev pub connects : Status → Status
connects unheard = opened
connects other = broken

abbrev pub says : Status → Status
says opened = opened
says other = broken

abbrev pub leaves : Status → Status
leaves opened = closed
leaves other = broken

-- The status of a client after events, which are listed latest first.
abbrev pub status : ℕ → List PipeEvent → Status
status j [] = unheard
status j (pipe_connected i ∷ es) = if i == j then connects (status j es) else status j es
status j (pipe_message i p ∷ es) = if i == j then says (status j es) else status j es
status j (pipe_disconnected i ∷ es) = if i == j then leaves (status j es) else status j es

-- What the server's state says of a client.
abbrev pub known {ℓ} : {W : Type ℓ} → SocketServer W → ℕ → Status
known s j =
    if contains j s.contexts then opened else if ltb 0 j && leb j s.counter then closed else unheard
