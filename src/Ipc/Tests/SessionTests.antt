-- ===== src/Ipc/Tests/SessionTests.antt =====
-- Tests of the theorems on the two routers of src/common/ipc together.
use yakut_native.Base.{
  find-assign, ◌+◌, ℕ, Option, none, some, ◌≡◌, refl, List, [], ◌∷◌, true, find, arith, contains,
}
use yakut_native.Ipc.Types.{joined, Payload, message}
use yakut_native.Ipc.Server
use yakut_native.Ipc.Client
use yakut_native.Ipc.Channel
use yakut_native.Ipc.Session
use yakut_native.Ipc.Session.{server_send-delivered, handshake_connects}
use yakut_native.Ipc.Session.Passing.{Passes, Opened}
use yakut_native.Ipc.Session.Ordering.{sends-Opened}
use yakut_native.Ipc.Tests.{
  adopting_env, wire-IsStandard, server_env, client_env, client_env-IsQuiet, gateway, server,
  client_gateway, client, client-Inv, unlinked, unlinked-Inv,
}

linked : Client.is_connected client ≡ true
linked = unfold Client.is_connected in refl

registered_here : Client.is_registered_gateway client 0 ≡ true
registered_here = unfold Client.is_registered_gateway contains find in refl

-- A client whose channel 9 has sent nothing yet.
abbrev fresh_gateway : Client.Gateway
fresh_gateway = record client_gateway { tag = 9; next_sequence = 0 }

abbrev fresh : Client.Client
fresh = record client { gateways = (9, 0) ∷ []; heap = (0, fresh_gateway) ∷ [] }

minds : (tag : ℕ) → Server.Attending.Minds adopting_env 1 tag 1
minds tag = record { invoke_minds = λ handler sequence payload s g found own held. (held, refl) }

adopts :
    (tag factory : ℕ) (payload : Payload)
    → Server.Attending.Adopts adopting_env 1 tag 1 factory payload
adopts tag factory payload s (there, g, found, shared) = rw found (
  (
    there,
    record g { refs = g.refs + 1; event_handler = some 4 },
    rw (find-assign 1 1 (record g { refs = g.refs + 1; event_handler = some 4 }) s.heap) refl,
    omega arith,
  ),
  refl,
)

-- Its two messages open a channel of the service 5 at the server, and go to it.
sends-Opened_example :
    Passes client_env adopting_env 0 5 1
      (Opened 1 6 9 (8 ∷ 9 ∷ []) ((7 ∷ []) ∷ []) server)
      ((8 ∷ 9 ∷ []) ∷ (7 ∷ []) ∷ [])
      fresh
      server
sends-Opened_example =
    sends-Opened client_env adopting_env 0 5 1 wire-IsStandard refl (λ before fragments. refl) 6
      (8 ∷ 9 ∷ []) ((7 ∷ []) ∷ []) fresh fresh_gateway server (adopts 9 6 (8 ∷ 9 ∷ [])) (minds 9)
      (unfold find in refl) refl (unfold Client.is_connected in refl)
      (unfold Client.is_registered_gateway contains find in refl)
      (
        ((2 ∷ 9 ∷ 0 ∷ 5 ∷ 2 ∷ [], refl, omega arith)),
        ((2 ∷ 9 ∷ 1 ∷ 5 ∷ 1 ∷ [], refl, omega arith), tt),
      )
      (unfold Server.registered find in refl) (unfold Server.is_connected contains in refl)
      (unfold find in refl)

-- The first message of the server's gateway reaches the client's.
server_send-delivered_example :
    (fragments : List Payload) × ((Server.gateway_send server_env 0 5 (8 ∷ 9 ∷ []) server).0.trace
      ≡ Server.sent 1 fragments ∷ [])
    × Client.Quiet.IsNotified 0
        (message 0 (8 ∷ 9 ∷ []))
        client
        (Client.handle_pipe_event client_env (Client.pipe_message (joined fragments)) client).0
server_send-delivered_example =
    server_send-delivered server_env client_env 0 5 0 (8 ∷ 9 ∷ []) (2 ∷ 0 ∷ 0 ∷ 5 ∷ 2 ∷ []) server
      gateway client wire-IsStandard refl client_env-IsQuiet client-Inv (unfold find in refl)
      (unfold Server.is_connected contains in refl)
      (unfold Server.is_registered_gateway find contains in refl) (unfold find in refl) refl
      (omega arith)

handshake_connects_example :
    let t =
      (Server.handle_pipe_event server_env
        (Server.pipe_message 2 (joined ((1 ∷ 0 ∷ 1 ∷ 0 ∷ 0 ∷ []) ∷ [])))
        server).0 in
    let d =
      (Client.handle_pipe_event client_env
        (Client.pipe_message (joined ((1 ∷ 0 ∷ 1 ∷ 0 ∷ 0 ∷ []) ∷ [])))
        unlinked).0 in
    ((Client.handle_pipe_event client_env Client.pipe_connected unlinked).0.trace
      ≡ Client.sent ((1 ∷ 0 ∷ 1 ∷ 0 ∷ 0 ∷ []) ∷ []) ∷ [])
    × (t.trace ≡ Server.sent 2 ((1 ∷ 0 ∷ 1 ∷ 0 ∷ 0 ∷ []) ∷ []) ∷ [])
    × (Server.is_connected t 2 ≡ true)
    × (d.linked ≡ true)
handshake_connects_example =
    handshake_connects client_env server_env 2 (1 ∷ 0 ∷ 1 ∷ 0 ∷ 0 ∷ []) (1 ∷ 0 ∷ 1 ∷ 0 ∷ 0 ∷ [])
      unlinked server wire-IsStandard wire-IsStandard refl client_env-IsQuiet unlinked-Inv refl refl
      refl refl

-- A channel of single numbers, each one byte.
abbrev write : ℕ → Option Payload
write n = some (n ∷ [])

abbrev read : Payload → Option ℕ
read [] = none
read (n ∷ rest) = some n

-- The handler and the factory collect what they are given.
abbrev collect : Channel.ChannelEvent ℕ → List ℕ → List ℕ
collect Channel.opened w = w
collect (Channel.input n) w = n ∷ w
collect (Channel.ended err) w = w

abbrev collect_first : ℕ → List ℕ → List ℕ
collect_first n w = n ∷ w
