-- ===== src/Ipc/Tests/ServerTests.antt =====
-- Tests of src/common/ipc/server_router.cpp's model and of the theorems on it.
use yakut_native.Base.{
  ℕ, ◌≡◌, refl, [], ◌∷◌, ◌++◌, List, none, false, pos, find, arith, contains, ◌&&◌, ◌==◌,
  if◌then◌else◌,
}
use yakut_native.Ipc.ErrorCode
use yakut_native.Ipc.Types.{Payload, ChannelMsg, completed}
use yakut_native.Ipc.Wire
use yakut_native.Ipc.Server
use yakut_native.Ipc.Tests.{
  adopting_env, adopting_env-Keeps, adopting_env-Spares, wire, server_env, server_env-Keeps,
  server_env-IsQuiet, gateway, server, server-Inv,
}

-- A client connects, opens a channel for service 5, sends more, ends it and goes away.
abbrev story : List Server.Call
story =
    Server.registers 5 6
    ∷ Server.receives (Server.pipe_connected 1)
    ∷ Server.receives (Server.pipe_message 1 (1 ∷ 0 ∷ 1 ∷ 0 ∷ 0 ∷ []))
    ∷ Server.receives (Server.pipe_message 1 (2 ∷ 0 ∷ 0 ∷ 5 ∷ 2 ∷ 8 ∷ 9 ∷ []))
    ∷ Server.sends 0 5 (3 ∷ [])
    ∷ Server.receives (Server.pipe_disconnected 1)
    ∷ Server.releases 0
    ∷ []

run-init-Inv_example : Server.Invariant.Inv (Server.run server_env story Server.init)
run-init-Inv_example = Server.Reachable.run-init-Inv server_env server_env-Keeps story

-- Two clients are connected, each with a channel.
abbrev crowd : Server.Server
crowd =
    Server.run adopting_env
      (Server.registers 5 6
        ∷ Server.receives (Server.pipe_message 1 (1 ∷ 0 ∷ 1 ∷ 0 ∷ 0 ∷ []))
        ∷ Server.receives (Server.pipe_message 2 (1 ∷ 0 ∷ 1 ∷ 0 ∷ 0 ∷ []))
        ∷ Server.receives (Server.pipe_message 1 (2 ∷ 0 ∷ 0 ∷ 5 ∷ 2 ∷ 8 ∷ 9 ∷ []))
        ∷ Server.receives (Server.pipe_message 2 (2 ∷ 0 ∷ 0 ∷ 5 ∷ 2 ∷ 8 ∷ 9 ∷ []))
        ∷ [])
      Server.init

handle_pipe_event_same_example :
    Server.Isolation.IsSameFor 2 crowd
      (Server.handle_pipe_event adopting_env (Server.pipe_disconnected 1) crowd).0
handle_pipe_event_same_example =
    Server.Noninterference.handle_pipe_event_same 2 adopting_env (Server.pipe_disconnected 1) crowd
      (adopting_env-Spares 2) (λ same. ground arith)
      (Server.Reachable.run-init-Inv adopting_env adopting_env-Keeps _)

-- The first message on tag 3, for the service with a factory, and its two bytes of payload.
abbrev opening : ChannelMsg
opening = record { tag = 3; sequence = 0; service_id = 5; payload_size = 2 }

abbrev opening_bytes : Payload
opening_bytes = 2 ∷ 3 ∷ 0 ∷ 5 ∷ 2 ∷ 8 ∷ 9 ∷ []

opens : Server.Dispatch.destination server 1 opening ≡ Server.Dispatch.to_factory 6
opens =
    unfold Server.Dispatch.destination Server.registered Server.is_connected find contains in refl

handle_route_channel_msg-Arrived_example :
    Server.Dispatch.Arrived
      (Server.Dispatch.destination server 1 opening)
      1
      3
      0
      (Wire.cut_routing wire opening_bytes opening)
      server
      (Server.handle_route_channel_msg server_env 1 opening opening_bytes server).0
handle_route_channel_msg-Arrived_example =
    Server.Dispatch.handle_route_channel_msg-Arrived server_env server_env-IsQuiet 1 opening server
      opening_bytes server-Inv

handle_disconnected_completes_example :
    let t = (Server.handle_disconnected server_env 1 server).0 in
    (t.trace ≡ Server.delivered 0 (completed ErrorCode.disconnected) ∷ [])
    × (Server.is_connected t 1 ≡ false)
    × ((tag : ℕ) → Server.registered t.clients 1 tag ≡ none)
    × ((service : ℕ) (payload : Payload)
        → Server.gateway_send server_env 0 service payload t ≡ (t, ErrorCode.not_connected))
handle_disconnected_completes_example =
    Server.Disconnection.handle_disconnected_completes server_env server_env-IsQuiet 1 ((0, 0) ∷ [])
      server 0 gateway server-Inv (unfold find in refl) (unfold find in refl) refl

handle_route_channel_end_completes_example :
    let t = (Server.handle_route_channel_end server_env 1 0 (pos 9) server).0 in
    (t.trace ≡ Server.delivered 0 (completed (pos 9)) ∷ [])
    × ((c u : ℕ)
        → Server.registered t.clients c u
          ≡ (if 1 == c && 0 == u then none else Server.registered server.clients c u))
    × ((service : ℕ) (payload : Payload)
        → Server.gateway_send server_env 0 service payload t ≡ (t, ErrorCode.shutdown))
    × ((m : ChannelMsg) (payload : Payload)
        → Server.handle_route_channel_msg server_env 1 (Server.Completion.later_on 0 m) payload t
          ≡ (t, pos 0))
handle_route_channel_end_completes_example =
    Server.Completion.handle_route_channel_end_completes server_env 1 0 0 (pos 9) server
      server_env-IsQuiet server-Inv (unfold Server.registered find in refl)

complete-release_example :
    let t = Server.release server_env 0 (Server.gateway_complete 0 (pos 9) server) in
    (find 0 t.heap ≡ none)
    × ((c tag : ℕ)
        → Server.registered t.clients c tag
          ≡ (if 1 == c && 0 == tag then none else Server.registered server.clients c tag))
    × (t.trace
        ≡ (if Server.is_registered_gateway server 1 0
            then Server.sent 1 ((3 ∷ 0 ∷ 0 ∷ 9 ∷ []) ∷ []) ∷ []
            else [])
          ++ [])
complete-release_example =
    Server.Completion.complete-release server_env 0 (pos 9) server gateway (unfold find in refl)
      refl
