-- ===== src/Ipc/Client.antt =====
-- `ClientRouterImpl` of src/common/ipc/client_router.cpp: the state, and what the gateways and the
-- pipe do with it. The children hold the proofs. Gateways, references, callbacks and the trace are
-- modelled as for the server's router.
pub mod Invariant
pub mod Steps
pub mod Reachable
pub mod Quiet
pub mod Handshake
pub mod Disconnection
pub mod Completion
pub mod Sending
use yakut_native.Base.{
  ℕ, ◌+◌, ◌-◌, List, [], ◌∷◌, Bool, true, false, ◌&&◌, Option, none, some, ℤ, pos, Map, find,
  contains, erase, assign, leb, ltb, if◌then◌else◌, length,
}
use yakut_native.Ipc.ErrorCode
use yakut_native.Ipc.Types.{
  Payload, u64, Event, connected, message, completed, ChannelMsg, Route, empty, connect,
  channel_msg, channel_end, Version, invalid,
}
use yakut_native.Ipc.Wire.{Wire, try_perform_on_serialized, cut_routing}

pub record Gateway : Type 0 where
  pub tag : ℕ
  pub next_sequence : ℕ
  pub event_handler : Option ℕ
  pub completion_error_code : ℤ
  pub refs : ℕ

pub data Effect : Type 0 where
  sent : List Payload → Effect
  delivered : ℕ → Event → Effect

pub record Client : Type 0 where
  pub next_tag : ℕ
  -- is_connected_
  pub linked : Bool
  -- map_of_gateways_
  pub gateways : Map ℕ
  pub heap : Map Gateway
  pub next_gateway : ℕ
  pub trace : List Effect

pub record Env : Type 0 where
  pub wire : Wire
  pub version : Version
  pub send_result : List Effect → List Payload → ℤ
  pub invoke : ℕ → Event → Client → Client × ℤ

unfoldable pub init : Client
init = record {
  next_tag = 0;
  linked = false;
  gateways = [];
  heap = [];
  next_gateway = 0;
  trace = [];
}

unfoldable pub new_gateway : ℕ → Gateway
new_gateway tag = record {
  tag = tag;
  next_sequence = 0;
  event_handler = none;
  completion_error_code = pos 0;
  refs = 1;
}

-- The new gateway's id is the `next_gateway` of before; the caller has the one reference.
unfoldable pub make_gateway : Client → Client
make_gateway s = record s {
  next_tag = u64 (s.next_tag + 1);
  gateways = assign s.next_tag s.next_gateway s.gateways;
  heap = assign s.next_gateway (new_gateway s.next_tag) s.heap;
  next_gateway = s.next_gateway + 1;
}

unfoldable pub is_connected : Client → Bool
is_connected s = s.linked

unfoldable pub is_registered_gateway : Client → ℕ → Bool
is_registered_gateway s tag = contains tag s.gateways

unfoldable pub pipe_send : Env → List Payload → Client → Client × ℤ
pipe_send e fragments s =
    (record s { trace = sent fragments ∷ s.trace }, e.send_result s.trace fragments)

unfoldable pub lock : ℕ → Client → Option Client
lock id s = elim (find id s.heap) [
  | none ↦ none
  | some g ↦ some (record s { heap = assign id (record g { refs = g.refs + 1 }) s.heap })
]

unfoldable pub on_gateway_disposal : Env → ℕ → Bool → ℤ → Client → Client
unfolding is_connected pipe_send
on_gateway_disposal e tag send_ch_end completion_err s =
    let was_registered = contains tag s.gateways in
    let s' = record s { gateways = erase tag s.gateways } in
    if was_registered && send_ch_end && is_connected s'
    then (try_perform_on_serialized e.wire (channel_end tag completion_err)
        (λ payload. pipe_send e (payload ∷ [])) s').0
    else s'

-- The end of one `shared_ptr`: the last one runs `~GatewayImpl`.
unfoldable pub release : Env → ℕ → Client → Client
unfolding on_gateway_disposal
release e id s = elim (find id s.heap) [
  | none ↦ s
  | some g ↦
      if leb g.refs 1
      then on_gateway_disposal e g.tag (ltb 0 g.next_sequence) g.completion_error_code
          (record s { heap = erase id s.heap })
      else record s { heap = assign id (record g { refs = g.refs - 1 }) s.heap }
]

deliver : Env → Option ℕ → Event → Client → Client × ℤ
deliver e none event s = (s, pos 0)
deliver e (some handler) event s = e.invoke handler event s

unfoldable pub gateway_event : Env → ℕ → Event → Client → Client × ℤ
unfolding deliver
gateway_event e id event s = elim (find id s.heap) [
  | none ↦ (s, pos 0)
  | some g ↦ deliver e g.event_handler event (record s { trace = delivered id event ∷ s.trace })
]

unfoldable pub find_and_act_on_registered_gateway :
    Env → ℕ → (ℕ → Client → Client × ℤ) → Client → Client × ℤ
unfolding lock
find_and_act_on_registered_gateway e tag action s = elim (find tag s.gateways) [
  | none ↦ (s, pos 0)
  | some id ↦ elim (lock id s) [
    | none ↦ (s, pos 0)
    | some s' ↦ let (s'', err) = action id s' in (release e id s'', err)
  ]
]

-- `forEachRegisteredGateway`: first all gateways that live are locked,
unfoldable pub lock_all : Map ℕ → Client → List ℕ × Client
unfolding lock
lock_all [] s = ([], s)
lock_all ((tag, id) ∷ rest) s = elim (lock id s) [
  | none ↦ lock_all rest s
  | some s' ↦ let (ids, s'') = lock_all rest s' in (id ∷ ids, s'')
]

-- then each has its event,
unfoldable pub event_each : Env → Event → List ℕ → Client → Client
event_each e event [] s = s
event_each e event (id ∷ ids) s = event_each e event ids (gateway_event e id event s).0

-- and last the local vector lets go of them.
unfoldable pub release_each : Env → List ℕ → Client → Client
release_each e [] s = s
release_each e (id ∷ ids) s = release_each e ids (release e id s)

unfoldable pub for_each_registered_gateway : Env → Event → Client → Client
unfolding lock_all event_each release_each
for_each_registered_gateway e event s =
    let (ids, s') = lock_all s.gateways s in release_each e ids (event_each e event ids s')

unfoldable pub on_gateway_subscription : Env → ℕ → Client → Client
on_gateway_subscription e tag s =
    if s.linked
    then (find_and_act_on_registered_gateway e tag (λ id. gateway_event e id connected) s).0
    else s

unfoldable pub gateway_send : Env → ℕ → ℕ → Payload → Client → Client × ℤ
unfolding is_connected is_registered_gateway pipe_send
gateway_send e id service_id payload s = elim (find id s.heap) [
  | none ↦ (s, pos 0)
  | some g ↦
      let m : ChannelMsg = record {
        tag = g.tag;
        sequence = g.next_sequence;
        service_id = service_id;
        payload_size = length payload;
      } in
      let s' : Client = record s {
        heap = assign id (record g { next_sequence = u64 (g.next_sequence + 1) }) s.heap;
      } in
      if is_connected s
      then if is_registered_gateway s g.tag
        then try_perform_on_serialized e.wire (channel_msg m)
            (λ prefix. pipe_send e (prefix ∷ payload ∷ [])) s'
        else (s, ErrorCode.shutdown)
      else (s, ErrorCode.not_connected)
]

unfoldable pub gateway_complete : ℕ → ℤ → Client → Client
gateway_complete id error_code s = elim (find id s.heap) [
  | none ↦ s
  | some g ↦ record s { heap = assign id (record g { completion_error_code = error_code }) s.heap }
]

unfoldable pub gateway_subscribe : Env → ℕ → Option ℕ → Client → Client
gateway_subscribe e id event_handler s = elim (find id s.heap) [
  | none ↦ s
  | some g ↦
      on_gateway_subscription e g.tag
        (record s { heap = assign id (record g { event_handler = event_handler }) s.heap })
]

notify : Env → ℕ → Event → Client → Client
notify e id event s = elim (lock id s) [
  | none ↦ s
  | some s' ↦ release e id (gateway_event e id event s').0
]

unfoldable pub notify_all : Env → Event → Map ℕ → Client → Client
unfolding notify
notify_all e event [] s = s
notify_all e event ((tag, id) ∷ rest) s = notify_all e event rest (notify e id event s)

-- `handlePipeEvent(Connected)`. The error code of the message stands at its default, 0.
unfoldable pub handle_connected : Env → Client → Client × ℤ
unfolding pipe_send
handle_connected e s =
    try_perform_on_serialized e.wire (connect e.version.major e.version.minor (pos 0))
      (λ payload. pipe_send e (payload ∷ [])) s

-- `handlePipeEvent(Disconnected)`.
unfoldable pub handle_disconnected : Env → Client → Client × ℤ
handle_disconnected e s =
    if s.linked
    then (
      notify_all e (completed ErrorCode.disconnected) s.gateways
          (record s { linked = false; gateways = [] }),
      pos 0,
    )
    else (s, pos 0)

unfoldable pub handle_route_connect : Env → Client → Client × ℤ
handle_route_connect e s =
    if s.linked
    then (s, pos 0)
    else (for_each_registered_gateway e connected (record s { linked = true }), pos 0)

unfoldable pub handle_route_channel_msg : Env → ChannelMsg → Payload → Client → Client × ℤ
unfolding lock
handle_route_channel_msg e m payload s =
    let real_payload = cut_routing e.wire payload m in
    elim (find m.tag s.gateways) [
      | none ↦ (s, pos 0)
      | some id ↦ elim (lock id s) [
        | none ↦ (s, pos 0)
        | some s' ↦
            let (s'', err) = gateway_event e id (message m.sequence real_payload) s' in
            (release e id s'', err)
      ]
    ]

unfoldable pub handle_route_channel_end : Env → ℕ → ℤ → Client → Client × ℤ
handle_route_channel_end e tag error_code s =
    find_and_act_on_registered_gateway e tag
      (λ id s'.
        gateway_event e id (completed error_code) (record s' { gateways = erase tag s'.gateways }))
      s

unfoldable pub handle_route : Env → Payload → Route → Client → Client × ℤ
handle_route e payload empty s = (s, invalid)
handle_route e payload (connect _ _ _) s = handle_route_connect e s
handle_route e payload (channel_msg m) s = handle_route_channel_msg e m payload s
handle_route e payload (channel_end tag error_code) s = handle_route_channel_end e tag error_code s

-- `ClientPipe::Event::Var`.
pub data PipeEvent : Type 0 where
  pipe_connected pipe_disconnected : PipeEvent
  pipe_message : Payload → PipeEvent

unfoldable pub handle_pipe_event : Env → PipeEvent → Client → Client × ℤ
handle_pipe_event e pipe_connected s = handle_connected e s
handle_pipe_event e pipe_disconnected s = handle_disconnected e s
handle_pipe_event e (pipe_message payload) s = elim (e.wire.deserialize payload) [
  | none ↦ (s, invalid)
  | some route ↦ handle_route e payload route s
]

-- What the world does with the router: pipe events, new gateways, and calls of their owners.
pub data Call : Type 0 where
  makes : Call
  receives : PipeEvent → Call
  sends : ℕ → ℕ → Payload → Call
  completes : ℕ → ℤ → Call
  subscribes : ℕ → Option ℕ → Call
  copies releases : ℕ → Call

locked : Client → Option Client → Client
locked s none = s
locked s (some s') = s'

unfoldable pub perform : Env → Call → Client → Client
unfolding locked
perform e makes s = make_gateway s
perform e (receives event) s = (handle_pipe_event e event s).0
perform e (sends id service payload) s = (gateway_send e id service payload s).0
perform e (completes id error_code) s = gateway_complete id error_code s
perform e (subscribes id event_handler) s = gateway_subscribe e id event_handler s
perform e (copies id) s = locked s (lock id s)
perform e (releases id) s = release e id s

unfoldable pub run : Env → List Call → Client → Client
run e [] s = s
run e (c ∷ cs) s = run e cs (perform e c s)
