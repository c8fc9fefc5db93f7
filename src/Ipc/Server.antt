-- ===== src/Ipc/Server.antt =====
-- `ServerRouterImpl` of src/common/ipc/server_router.cpp: the state, and what the gateways and the
-- pipe do with it. The children hold the proofs.
--
-- A gateway is an object on a heap, named by the number of its creation and kept alive by counted
-- references (`std::shared_ptr`); the router's own pointers to it are weak. The code of others runs
-- through `Env`: the pipe's result codes, the event handlers and the channel factories, which may
-- call back into the router in any way. `trace` lists what the router did to others, latest first.
pub mod Registrations
pub mod Invariant
pub mod Steps
pub mod Reachable
pub mod Isolation
pub mod Unseen
pub mod Noninterference
pub mod Quiet
pub mod Sending
pub mod Connection
pub mod Disconnection
pub mod Completion
pub mod Dispatch
pub mod Attending
use yakut_native.Base.{
  ℕ, ◌+◌, ◌-◌, List, [], ◌∷◌, Bool, false, ◌&&◌, Option, none, some, ℤ, pos, is_zero, Map, find,
  contains, erase, assign, insert, leb, ◌==◌, if◌then◌else◌, length,
}
use yakut_native.Ipc.ErrorCode
use yakut_native.Ipc.Types.{
  Payload, u64, Event, connected, message, completed, ChannelMsg, Route, empty, connect,
  channel_msg, channel_end, Version, invalid,
}
use yakut_native.Ipc.Wire.{Wire, try_perform_on_serialized, cut_routing}

pub record Gateway : Type 0 where
  pub client_id : ℕ
  pub tag : ℕ
  pub next_sequence : ℕ
  pub event_handler : Option ℕ
  pub completion_error_code : ℤ
  pub refs : ℕ

pub data Effect : Type 0 where
  -- The fragments of a message, handed to the pipe for a client.
  sent : ℕ → List Payload → Effect
  -- `Gateway::event` of a gateway.
  delivered : ℕ → Event → Effect
  -- A call of a channel factory for a new gateway.
  opened : ℕ → ℕ → Payload → Effect

pub record Server : Type 0 where
  -- client_id_to_map_of_gateways_
  pub clients : Map (Map ℕ)
  -- service_id_to_channel_factory_
  pub factories : Map ℕ
  pub heap : Map Gateway
  pub next_gateway : ℕ
  pub trace : List Effect

pub record Env : Type 0 where
  pub wire : Wire
  pub version : Version
  pub send_result : List Effect → ℕ → List Payload → ℤ
  pub invoke : ℕ → Event → Server → Server × ℤ
  pub construct : ℕ → ℕ → Payload → Server → Server

unfoldable pub init : Server
init = record { clients = []; factories = []; heap = []; next_gateway = 0; trace = [] }

unfoldable pub register_channel_factory : ℕ → ℕ → Server → Server
register_channel_factory service factory s = record s {
  factories = assign service factory s.factories;
}

unfoldable pub is_connected : Server → ℕ → Bool
is_connected s client = contains client s.clients

unfoldable pub is_registered_gateway : Server → ℕ → ℕ → Bool
is_registered_gateway s client tag = elim (find client s.clients) [
  | none ↦ false
  | some gateways ↦ contains tag gateways
]

-- The weak pointer under an endpoint, by the two lookups that precede each use.
unfoldable pub registered : Map (Map ℕ) → ℕ → ℕ → Option ℕ
registered clients client tag = elim (find client clients) [
  | none ↦ none
  | some gateways ↦ find tag gateways
]

unfoldable pub pipe_send : Env → ℕ → List Payload → Server → Server × ℤ
pipe_send e client fragments s =
    (record s { trace = sent client fragments ∷ s.trace }, e.send_result s.trace client fragments)

-- `weak_ptr::lock`.
unfoldable pub lock : ℕ → Server → Option Server
lock id s = elim (find id s.heap) [
  | none ↦ none
  | some g ↦ some (record s { heap = assign id (record g { refs = g.refs + 1 }) s.heap })
]

unfoldable pub on_gateway_disposal : Env → ℕ → ℕ → ℤ → Server → Server
unfolding is_connected pipe_send
on_gateway_disposal e client tag completion_err s = elim (find client s.clients) [
  | none ↦ s
  | some gateways ↦
      let was_registered = contains tag gateways in
      let s' = record s { clients = assign client (erase tag gateways) s.clients } in
      if was_registered && is_connected s' client
      then (try_perform_on_serialized e.wire (channel_end tag completion_err)
          (λ payload. pipe_send e client (payload ∷ [])) s').0
      else s'
]

-- The end of one `shared_ptr`: the last one runs `~GatewayImpl`.
unfoldable pub release : Env → ℕ → Server → Server
unfolding on_gateway_disposal
release e id s = elim (find id s.heap) [
  | none ↦ s
  | some g ↦
      if leb g.refs 1
      then on_gateway_disposal e g.client_id g.tag g.completion_error_code
          (record s { heap = erase id s.heap })
      else record s { heap = assign id (record g { refs = g.refs - 1 }) s.heap }
]

deliver : Env → Option ℕ → Event → Server → Server × ℤ
deliver e none event s = (s, pos 0)
deliver e (some handler) event s = e.invoke handler event s

-- `GatewayImpl::event`. (An id with no object on the heap names no gateway.)
unfoldable pub gateway_event : Env → ℕ → Event → Server → Server × ℤ
unfolding deliver
gateway_event e id event s = elim (find id s.heap) [
  | none ↦ (s, pos 0)
  | some g ↦ deliver e g.event_handler event (record s { trace = delivered id event ∷ s.trace })
]

unfoldable pub find_and_act_on_registered_gateway :
    Env → ℕ → ℕ → (ℕ → Server → Server × ℤ) → Server → Server × ℤ
unfolding registered lock
find_and_act_on_registered_gateway e client tag action s = elim (registered s.clients client tag) [
  | none ↦ (s, pos 0)
  | some id ↦ elim (lock id s) [
    | none ↦ (s, pos 0)
    | some s' ↦ let (s'', err) = action id s' in (release e id s'', err)
  ]
]

unfoldable pub on_gateway_subscription : Env → ℕ → ℕ → Server → Server
on_gateway_subscription e client tag s =
    if is_connected s client
    then (find_and_act_on_registered_gateway e client tag (λ id. gateway_event e id connected) s).0
    else s

-- `GatewayImpl::send`.
unfoldable pub gateway_send : Env → ℕ → ℕ → Payload → Server → Server × ℤ
unfolding is_connected is_registered_gateway pipe_send
gateway_send e id service_id payload s = elim (find id s.heap) [
  | none ↦ (s, pos 0)
  | some g ↦
      let m : ChannelMsg = record {
        tag = g.tag;
        sequence = g.next_sequence;
        service_id = service_id;
        payload_size = length payload;
      } in
      let s' : Server = record s {
        heap = assign id (record g { next_sequence = u64 (g.next_sequence + 1) }) s.heap;
      } in
      if is_connected s g.client_id
      then if is_registered_gateway s g.client_id g.tag
        then try_perform_on_serialized e.wire (channel_msg m)
            (λ prefix. pipe_send e g.client_id (prefix ∷ payload ∷ [])) s'
        else (s, ErrorCode.shutdown)
      else (s, ErrorCode.not_connected)
]

-- `GatewayImpl::complete`.
unfoldable pub gateway_complete : ℕ → ℤ → Server → Server
gateway_complete id error_code s = elim (find id s.heap) [
  | none ↦ s
  | some g ↦ record s { heap = assign id (record g { completion_error_code = error_code }) s.heap }
]

-- `GatewayImpl::subscribe`.
unfoldable pub gateway_subscribe : Env → ℕ → Option ℕ → Server → Server
gateway_subscribe e id event_handler s = elim (find id s.heap) [
  | none ↦ s
  | some g ↦
      on_gateway_subscription e g.client_id g.tag
        (record s { heap = assign id (record g { event_handler = event_handler }) s.heap })
]

notify : Env → ℕ → Event → Server → Server
notify e id event s = elim (lock id s) [
  | none ↦ s
  | some s' ↦ release e id (gateway_event e id event s').0
]

-- The loop over the gateways of a client that is gone.
unfoldable pub notify_all : Env → Event → Map ℕ → Server → Server
unfolding notify
notify_all e event [] s = s
notify_all e event ((tag, id) ∷ rest) s = notify_all e event rest (notify e id event s)

-- `handlePipeEvent(Disconnected)`.
unfoldable pub handle_disconnected : Env → ℕ → Server → Server × ℤ
handle_disconnected e client s = elim (find client s.clients) [
  | none ↦ (s, pos 0)
  | some gateways ↦ (
    notify_all e (completed ErrorCode.disconnected) gateways
        (record s { clients = erase client s.clients }),
    pos 0,
  )
]

unfoldable pub handle_route_connect : Env → ℕ → Server → Server × ℤ
unfolding pipe_send
handle_route_connect e client s =
    let (s', err) =
      try_perform_on_serialized e.wire (connect e.version.major e.version.minor (pos 0))
        (λ payload. pipe_send e client (payload ∷ [])) s in
    if is_zero err then (record s' { clients = insert client [] s'.clients }, err) else (s', err)

unfoldable pub new_gateway : ℕ → ℕ → Gateway
new_gateway client tag = record {
  client_id = client;
  tag = tag;
  next_sequence = 0;
  event_handler = none;
  completion_error_code = pos 0;
  refs = 2;
}

-- A new gateway with the local reference and the one that the factory is given by value.
unfoldable pub create_gateway : ℕ → ℕ → Map ℕ → Server → Server
unfolding new_gateway
create_gateway client tag gateways s = record s {
  clients = assign client (assign tag s.next_gateway gateways) s.clients;
  heap = assign s.next_gateway (new_gateway client tag) s.heap;
  next_gateway = s.next_gateway + 1;
}

-- The part of `handleRouteChannelMsg` for a message that no gateway takes.
unfoldable pub open_channel : Env → ℕ → Map ℕ → ChannelMsg → Payload → Server → Server × ℤ
open_channel e client gateways m payload s =
    if m.sequence == 0
    then elim (find m.service_id s.factories) [
      | none ↦ (s, pos 0)
      | some factory ↦
          let s' : Server = create_gateway client m.tag gateways s in
          (
            release e s.next_gateway (
                e.construct factory s.next_gateway payload
                  (record s' { trace = opened factory s.next_gateway payload ∷ s'.trace })),
            pos 0,
          )
    ]
    else (s, pos 0)

unfoldable pub handle_route_channel_msg : Env → ℕ → ChannelMsg → Payload → Server → Server × ℤ
unfolding lock
handle_route_channel_msg e client m payload s =
    let real_payload = cut_routing e.wire payload m in
    elim (find client s.clients) [
      | none ↦ (s, pos 0)
      | some gateways ↦ elim (find m.tag gateways) [
        | none ↦ open_channel e client gateways m real_payload s
        | some id ↦ elim (lock id s) [
          | none ↦ open_channel e client gateways m real_payload s
          | some s' ↦
              let (s'', err) = gateway_event e id (message m.sequence real_payload) s' in
              (release e id s'', err)
        ]
      ]
    ]

unfoldable pub handle_route_channel_end : Env → ℕ → ℕ → ℤ → Server → Server × ℤ
handle_route_channel_end e client tag error_code s = elim (find client s.clients) [
  | none ↦ (s, pos 0)
  | some gateways ↦
      find_and_act_on_registered_gateway e client tag
        (λ id s'.
          gateway_event e id (completed error_code)
            (record s' { clients = assign client (erase tag gateways) s'.clients }))
        s
]

unfoldable pub handle_route : Env → ℕ → Payload → Route → Server → Server × ℤ
handle_route e client payload empty s = (s, invalid)
handle_route e client payload (connect _ _ _) s = handle_route_connect e client s
handle_route e client payload (channel_msg m) s = handle_route_channel_msg e client m payload s
handle_route e client payload (channel_end tag error_code) s =
    handle_route_channel_end e client tag error_code s

-- `ServerPipe::Event::Var`.
pub data PipeEvent : Type 0 where
  pipe_connected pipe_disconnected : ℕ → PipeEvent
  pipe_message : ℕ → Payload → PipeEvent

unfoldable pub handle_pipe_event : Env → PipeEvent → Server → Server × ℤ
handle_pipe_event e (pipe_connected client) s = (s, pos 0)
handle_pipe_event e (pipe_disconnected client) s = handle_disconnected e client s
handle_pipe_event e (pipe_message client payload) s = elim (e.wire.deserialize payload) [
  | none ↦ (s, invalid)
  | some route ↦ handle_route e client payload route s
]

-- What the world does with the router: pipe events, and calls of the owners of gateways. `copies` and
-- `releases` are the copy and the end of a `shared_ptr` to a gateway.
pub data Call : Type 0 where
  registers : ℕ → ℕ → Call
  receives : PipeEvent → Call
  sends : ℕ → ℕ → Payload → Call
  completes : ℕ → ℤ → Call
  subscribes : ℕ → Option ℕ → Call
  copies releases : ℕ → Call

locked : Server → Option Server → Server
locked s none = s
locked s (some s') = s'

unfoldable pub perform : Env → Call → Server → Server
unfolding locked
perform e (registers service factory) s = register_channel_factory service factory s
perform e (receives event) s = (handle_pipe_event e event s).0
perform e (sends id service payload) s = (gateway_send e id service payload s).0
perform e (completes id error_code) s = gateway_complete id error_code s
perform e (subscribes id event_handler) s = gateway_subscribe e id event_handler s
perform e (copies id) s = locked s (lock id s)
perform e (releases id) s = release e id s

unfoldable pub run : Env → List Call → Server → Server
run e [] s = s
run e (c ∷ cs) s = run e cs (perform e c s)
