-- ===== src/Ipc/Session/OverSockets.antt =====
-- A message of a client gateway (src/common/ipc/client_router.cpp) on its whole way: through the framing of
-- src/common/ipc/pipe/socket_base.cpp, as bytes on a stream socket, into src/common/ipc/pipe/socket_server.cpp
-- and the router behind it (src/common/ipc/server_router.cpp).
use mathlib.Core.Path.{subst}
use yakut_native.Base.{
  ℕ, ◌<◌, ◌≤◌, ◌^◌, ◌≡◌, refl, sym, ap, ◌∙◌, List, [], ◌∷◌, ◌++◌, true, some, arith, ℤ, pos, Map,
  inl, inr, find, assign, find-assign, ==_refl, append-nil, length, length-append, take, drop,
  Option-cases, Bool-cases, ◌==◌,
}
use yakut_native.Posix.{Outcome, returned, Interrupted}
use yakut_native.Ipc.Types.{joined, Payload, Event, ChannelMsg, channel_msg}
use yakut_native.Ipc.Wire.{Wire, IsStandard}
use yakut_native.Ipc.Client
use yakut_native.Ipc.Server
use yakut_native.Ipc.Server.Dispatch.{destination, Arrived}
use yakut_native.Ipc.Pipe.Framing.{total_size, msg_max_size, header_bytes, receive_message}
use yakut_native.Ipc.Pipe.Framing
use yakut_native.Ipc.Pipe.Framing.Roundtrip.{AllSucceed, sent_header, idle, send-receive_message}
use yakut_native.Ipc.Pipe.SocketServer.{SocketServer, handle_client_request, event}
use yakut_native.Ipc.ServerStack.{router_handler}
use yakut_native.Ipc.Session.{next_message, client_send-Arrived}

-- Event handlers that answer 0.
pub record Accepts (e : Server.Env) : Type 0 where
  pub invoke_zero :
      (handler : ℕ) (event : Event) (s : Server.Server) → (e.invoke handler event s).1 ≡ pos 0

module _ (e : Server.Env) (a : Accepts e) where
  gateway_event-zero :
      (id : ℕ) (event : Event) (s : Server.Server) → (Server.gateway_event e id event s).1 ≡ pos 0
  unfolding Server.gateway_event
  gateway_event-zero id event s = elim (Option-cases (find id s.heap)) [
    | inl gone ↦ rw (gone, Server.gateway_event) refl
    | inr (g, found) ↦ elim (Option-cases g.event_handler) [
      | inl nobody ↦ rw (found, Server.gateway_event, nobody) refl
      | inr (h, there) ↦ rw (found, Server.gateway_event, there) (a.invoke_zero h event _)
    ]
  ]

  open_channel-zero :
      (client : ℕ) (gateways : Map ℕ) (m : ChannelMsg) (payload : Payload) (s : Server.Server)
      → (Server.open_channel e client gateways m payload s).1 ≡ pos 0
  unfolding Server.open_channel
  open_channel-zero client gateways m payload s = elim (Bool-cases (m.sequence == 0)) [
    | inr later ↦ rw (later, Server.open_channel) refl
    | inl first ↦ elim (Option-cases (find m.service_id s.factories)) [
      | inl unknown ↦ rw (first, Server.open_channel, unknown) refl
      | inr (factory, known) ↦ rw (first, Server.open_channel, known) refl
    ]
  ]

  handle_route_channel_msg-zero :
      (client : ℕ) (m : ChannelMsg) (payload : Payload) (s : Server.Server)
      → (Server.handle_route_channel_msg e client m payload s).1 ≡ pos 0
  unfolding Server.handle_route_channel_msg
  handle_route_channel_msg-zero client m payload s = elim (Option-cases (find client s.clients)) [
    | inl absent ↦ rw (absent, Server.handle_route_channel_msg) refl
    | inr (gateways, present) ↦ elim (Option-cases (find m.tag gateways)) [
      | inl free ↦
          rw (present, Server.handle_route_channel_msg, free)
            (open_channel-zero client gateways m _ s)
      | inr (id, taken) ↦ elim (Option-cases (Server.lock id s)) [
        | inl dead ↦
            rw (present, Server.handle_route_channel_msg, taken, dead)
              (open_channel-zero client gateways m _ s)
        | inr (s', live) ↦
            rw (present, Server.handle_route_channel_msg, taken, live) (gateway_event-zero id _ s')
      ]
    ]
  ]

  -- A channel message that is read back is accepted.
  message-zero :
      (peer : ℕ) (m : ChannelMsg) (prefix payload : Payload) (s : Server.Server)
      → IsStandard e.wire
      → e.wire.serialize (channel_msg m) ≡ some prefix
      → (Server.handle_pipe_event e (Server.pipe_message peer (prefix ++ payload)) s).1 ≡ pos 0
  unfolding Server.handle_pipe_event Server.handle_route
  message-zero peer m prefix payload s std out =
      rw (std.reads_back (channel_msg m) prefix payload out, Server.handle_pipe_event)
        (handle_route_channel_msg-zero peer m (prefix ++ payload) s)

-- The read of one message whose handler answers 0.
module _ {W : Type 0} (h : Server.PipeEvent → W → W × ℤ) where
  reads_message :
      (id n : ℕ) (ss : SocketServer W) (first late : List (Outcome Payload)) (size : ℕ)
      (bytes : Payload)
      → find id ss.contexts ≡ some (idle n)
      → receive_message (λ payload. event h (Server.pipe_message id payload)) (idle n) ss first late
        ≡ some (
          idle size,
          (event h (Server.pipe_message id bytes) ss).0,
          (event h (Server.pipe_message id bytes) ss).1,
        )
      → (h (Server.pipe_message id bytes) ss.world).1 ≡ pos 0
      → handle_client_request h id first late ss
        ≡ some (record ss {
          contexts = assign id (idle size) ss.contexts;
          events = Server.pipe_message id bytes ∷ ss.events;
          world = (h (Server.pipe_message id bytes) ss.world).0;
        })
  unfolding handle_client_request event
  reads_message id n ss first late size bytes here result zero =
      rw (here, handle_client_request) (rw (result, zero) refl)

-- A message on its whole way. What a registered gateway of a connected client router sends goes to the pipe as
-- two fragments; if every call of `::send` takes its whole fragment, and the server's two calls of `::recv` give
-- the bytes that were written, whatever interruptions there are, and the message has at least one byte and at most
-- `msg_max_size`: the server router delivers exactly the payload under the gateway's tag and sequence number,
-- to the destination that its table names, and the client stays connected and its socket ready for the next
-- header, provided that event handlers only keep what they are given and answer 0.
pub socket_send-Arrived :
    (ec : Client.Env) (es : Server.Env) (id service peer n : ℕ) (payload prefix : Payload)
    (c : Client.Client) (g : Client.Gateway) (ss : SocketServer Server.Server)
    (calls : List (List (Outcome ℕ))) (before between : List (Outcome Payload))
    → IsStandard es.wire
    → ec.wire ≡ es.wire
    → Server.Quiet.IsQuiet es
    → Accepts es
    → Server.Invariant.Inv ss.world
    → find id c.heap ≡ some g
    → Client.is_connected c ≡ true
    → Client.is_registered_gateway c g.tag ≡ true
    → ec.wire.serialize (channel_msg (next_message g service payload)) ≡ some prefix
    → find peer ss.contexts ≡ some (idle n)
    → AllSucceed (header_bytes (sent_header (prefix ∷ payload ∷ [])) ∷ prefix ∷ payload ∷ []) calls
    → Interrupted before
    → Interrupted between
    → 0 < total_size (prefix ∷ payload ∷ [])
    → total_size (prefix ∷ payload ∷ []) ≤ msg_max_size
    → (written : List Payload) × (t : SocketServer Server.Server) × ((Client.gateway_send ec id
          service payload c).0.trace
        ≡ Client.sent (prefix ∷ payload ∷ []) ∷ c.trace)
      × (Framing.send (prefix ∷ payload ∷ []) calls ≡ some (written, pos 0))
      × (handle_client_request
            (router_handler es)
            peer
            (before ++ returned (take 8 (joined written)) ∷ [])
            (between ++ returned (drop 8 (joined written)) ∷ [])
            ss
          ≡ some t)
      × Arrived
          (destination ss.world peer (next_message g service payload))
          peer
          g.tag
          g.next_sequence
          payload
          ss.world
          t.world
      × (find peer t.contexts ≡ some (idle (total_size (prefix ∷ payload ∷ []))))
unfolding router_handler Server.handle_pipe_event
socket_send-Arrived ec es id service peer n payload prefix c g ss calls before between std same
      quiet accepts v found on here out ready ok i j some_bytes fits =
    let (fragments, first, fate) =
      client_send-Arrived ec es id service peer payload prefix c g ss.world std same quiet v found
        on here out short in
    let (written, sends, receives) =
      send-receive_message (λ bytes. event (router_handler es) (Server.pipe_message peer bytes)) n
        ss (prefix ∷ payload ∷ []) calls before between ok i j some_bytes fits in
    (
      written,
      _,
      as_sent,
      sends,
      reads_message (router_handler es) peer n ss
          (before ++ returned (take 8 (joined written)) ∷ [])
          (between ++ returned (drop 8 (joined written)) ∷ []) (total_size (prefix ∷ payload ∷ []))
          (joined (prefix ∷ payload ∷ [])) ready receives zero,
      subst
          (λ fs.
            Arrived (destination ss.world peer m) peer g.tag g.next_sequence payload ss.world
              (Server.handle_pipe_event es (Server.pipe_message peer (joined fs)) ss.world).0)
          (same_fragments fragments first) fate,
      rw (find-assign peer peer (idle (total_size (prefix ∷ payload ∷ []))) ss.contexts)
          (rw (==_refl peer) refl),
    )
  where
    short : length (prefix ++ payload) < 2 ^ 64
    short = unfold total_size in omega (arith, length-append {0} prefix payload, fits)

    m : ChannelMsg
    m = next_message g service payload

    framed :
        Client.Sending.frame ec.wire g.tag service g.next_sequence payload
        ≡ Client.sent (prefix ∷ payload ∷ []) ∷ []
    framed = ground arith

    as_sent :
        (Client.gateway_send ec id service payload c).0.trace
        ≡ Client.sent (prefix ∷ payload ∷ []) ∷ c.trace
    as_sent =
        (Client.Sending.gateway_send_step ec id service payload c g found on here).3
        ∙ ap (λ fs. fs ++ c.trace) framed

    same_fragments :
        (fragments : List Payload)
        → (Client.gateway_send ec id service payload c).0.trace ≡ Client.sent fragments ∷ c.trace
        → fragments ≡ prefix ∷ payload ∷ []
    same_fragments fragments first = cc (as_sent)

    zero :
        (router_handler es (Server.pipe_message peer (joined (prefix ∷ payload ∷ []))) ss.world).1
        ≡ pos 0
    zero =
        unfold router_handler in
        rw (append-nil payload) (
          message-zero es accepts peer m prefix payload ss.world std
            (ap (λ (w : Wire). w.serialize (channel_msg m)) (sym same) ∙ out))
