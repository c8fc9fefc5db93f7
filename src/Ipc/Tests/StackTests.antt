-- ===== src/Ipc/Tests/StackTests.antt =====
-- The router on the socket server (src/common/ipc/server_router.cpp,
-- src/common/ipc/pipe/socket_server.cpp) at work on two clients.
use yakut_native.Base.{
  ℕ, ◌≡◌, refl, List, [], ◌∷◌, true, some, pos, take, drop, find, contains, arith,
}
use yakut_native.Posix.{Outcome, returned, failed, eintr, posix_syscall}
use yakut_native.Ipc.Types.{Payload, joined}
use yakut_native.Ipc.Client
use yakut_native.Ipc.Session.{next_message}
use yakut_native.Ipc.Session.OverSockets.{Accepts, socket_send-Arrived}
use yakut_native.Ipc.Pipe.Framing.Roundtrip.{AllSucceed, sent_header, idle}
use yakut_native.Ipc.Server
use yakut_native.Ipc.Pipe.Framing.{initial, total_size, header_bytes}
use yakut_native.Ipc.Pipe.Framing
use yakut_native.Ipc.Pipe.SocketServer.{SocketServer, handle_client_request}
use yakut_native.Ipc.ServerStack.{router_handler, SameIfAny, handle_client_request_same}
use yakut_native.Ipc.Tests.{
  server, server_env, server_env-Keeps, server_env-Spares, server-Inv, server_env-IsQuiet,
  client_env, client, client_gateway, wire-IsStandard,
}

abbrev sockets : SocketServer Server.Server
sockets = record {
  contexts = (1, initial) ∷ (2, initial) ∷ [];
  counter = 2;
  accepting = true;
  events = [];
  world = server;
}

handle_client_request_same_example :
    SameIfAny 2 sockets
      (handle_client_request (router_handler server_env) 1 (returned (1 ∷ 2 ∷ []) ∷ []) [] sockets)
handle_client_request_same_example =
    handle_client_request_same server_env server_env-Keeps 2 (server_env-Spares 2) 1
      (returned (1 ∷ 2 ∷ []) ∷ []) [] sockets (λ same. ground arith) server-Inv

server_env-Accepts : Accepts server_env
server_env-Accepts = record { invoke_zero = λ handler event s. refl }

-- The fragments of the second message of channel 0, the second one after an interruption.
abbrev fragments : List Payload
fragments = (2 ∷ 0 ∷ 1 ∷ 5 ∷ 2 ∷ []) ∷ (8 ∷ 9 ∷ []) ∷ []

abbrev send_calls : List (List (Outcome ℕ))
send_calls = (returned 8 ∷ []) ∷ (failed eintr ∷ returned 5 ∷ []) ∷ (returned 2 ∷ []) ∷ []

all_sent : AllSucceed (header_bytes (sent_header fragments) ∷ fragments) send_calls
unfolding header_bytes total_size posix_syscall
all_sent = (refl, (refl, (refl, tt)))

socket_send-Arrived_example :
    (written : List Payload) × (t : SocketServer Server.Server) × ((Client.gateway_send client_env 0
        5
        (8 ∷ 9 ∷ [])
        client).0.trace
      ≡ Client.sent fragments ∷ [])
    × (Framing.send fragments send_calls ≡ some (written, pos 0))
    × (handle_client_request
          (router_handler server_env)
          1
          (failed eintr ∷ returned (take 8 (joined written)) ∷ [])
          (returned (drop 8 (joined written)) ∷ [])
          sockets
        ≡ some t)
    × Server.Dispatch.Arrived
        (Server.Dispatch.destination server 1 (next_message client_gateway 5 (8 ∷ 9 ∷ [])))
        1
        0
        1
        (8 ∷ 9 ∷ [])
        server
        t.world
    × (find 1 t.contexts ≡ some (idle (total_size fragments)))
socket_send-Arrived_example =
    socket_send-Arrived client_env server_env 0 5 1 0 (8 ∷ 9 ∷ []) (2 ∷ 0 ∷ 1 ∷ 5 ∷ 2 ∷ []) client
      client_gateway sockets send_calls (failed eintr ∷ []) [] wire-IsStandard refl
      server_env-IsQuiet server_env-Accepts server-Inv (unfold find in refl)
      (unfold Client.is_connected in refl)
      (unfold Client.is_registered_gateway contains find in refl) refl (unfold find initial in refl)
      all_sent (refl, tt) tt (unfold total_size in omega arith) (unfold total_size in omega arith)
