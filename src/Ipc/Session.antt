-- ===== src/Ipc/Session.antt =====
-- The two routers together: what src/common/ipc/client_router.cpp hands to its pipe, as
-- src/common/ipc/server_router.cpp takes it from its own, and back. The fragments of a message arrive
-- as one payload (see Pipe).
pub mod Passing
pub mod Ordering
pub mod Typed
pub mod OverSockets
use mathlib.Core.Path.{subst}
use yakut_native.Base.{
  ℕ, ◌+◌, ◌<◌, ◌^◌, ◌≡◌, refl, sym, ap, ◌∙◌, List, [], ◌∷◌, ◌++◌, true, false, some, arith, pos,
  find, append-nil, length, ==_refl, insert, find-insert, contains-find,
}
use yakut_native.Ipc.Types.{joined, Payload, u64, ChannelMsg, channel_msg, connect, message}
use yakut_native.Ipc.Wire.{Wire, IsStandard, cut_routing, cut_routing-append}
use yakut_native.Ipc.Client
use yakut_native.Ipc.Server
use yakut_native.Ipc.Server.Dispatch.{destination, Arrived, handle_route_channel_msg-Arrived}

-- The message that a client gateway sends next.
abbrev pub next_message : Client.Gateway → ℕ → Payload → ChannelMsg
next_message g service payload = record {
  tag = g.tag;
  sequence = g.next_sequence;
  service_id = service;
  payload_size = length payload;
}

-- The message that a server gateway sends next.
abbrev pub next_server_message : Server.Gateway → ℕ → Payload → ChannelMsg
next_server_message g service payload = record {
  tag = g.tag;
  sequence = g.next_sequence;
  service_id = service;
  payload_size = length payload;
}

-- What a registered gateway of a connected client router hands to its pipe, and how the server router takes
-- it: as a message of the channel, with its payload after the prefix.
pub client_send-taken :
    (ec : Client.Env) (es : Server.Env) (id service peer : ℕ) (payload prefix : Payload)
    (c : Client.Client) (g : Client.Gateway) (s : Server.Server)
    → IsStandard es.wire
    → ec.wire ≡ es.wire
    → find id c.heap ≡ some g
    → Client.is_connected c ≡ true
    → Client.is_registered_gateway c g.tag ≡ true
    → ec.wire.serialize (channel_msg (next_message g service payload)) ≡ some prefix
    → length (prefix ++ payload) < 2 ^ 64
    → let m = next_message g service payload in
      let bytes = joined (prefix ∷ payload ∷ []) in
      ((Client.gateway_send ec id service payload c).0.trace
        ≡ Client.sent (prefix ∷ payload ∷ []) ∷ c.trace)
      × (Server.handle_pipe_event es (Server.pipe_message peer bytes) s
          ≡ Server.handle_route_channel_msg es peer m bytes s)
      × (cut_routing es.wire bytes m ≡ payload)
client_send-taken ec es id service peer payload prefix c g s std same found on here out fits = (
  step.3 ∙ ap (λ fs. fs ++ c.trace) framed,
  subst
      (λ (bytes : Payload).
        Server.handle_pipe_event es (Server.pipe_message peer bytes) s
        ≡ Server.handle_route_channel_msg es peer m bytes s)
      (sym whole) taken,
  ap (λ (bytes : Payload). cut_routing es.wire bytes m) whole
      ∙ cut_routing-append es.wire prefix payload m std refl fits,
)
  where
    m : ChannelMsg
    m = next_message g service payload

    step :
        let t = (Client.gateway_send ec id service payload c).0 in
        (t.gateways ≡ c.gateways)
        × (t.linked ≡ c.linked)
        × (find id t.heap ≡ some (record g { next_sequence = u64 (g.next_sequence + 1) }))
        × (t.trace ≡ Client.Sending.frame ec.wire g.tag service g.next_sequence payload ++ c.trace)
    step = Client.Sending.gateway_send_step ec id service payload c g found on here

    framed :
        Client.Sending.frame ec.wire g.tag service g.next_sequence payload
        ≡ Client.sent (prefix ∷ payload ∷ []) ∷ []
    framed = ground arith

    whole : joined (prefix ∷ payload ∷ []) ≡ prefix ++ payload
    whole = ap (◌++◌ prefix) (append-nil payload)

    out' : es.wire.serialize (channel_msg m) ≡ some prefix
    out' = ap (λ (w : Wire). w.serialize (channel_msg m)) (sym same) ∙ out

    taken :
        Server.handle_pipe_event es (Server.pipe_message peer (prefix ++ payload)) s
        ≡ Server.handle_route_channel_msg es peer m (prefix ++ payload) s
    taken =
        unfold Server.handle_pipe_event Server.handle_route in
        rw (std.reads_back (channel_msg m) prefix payload out', Server.handle_pipe_event) refl

-- What a registered gateway of a connected client router sends in one message, the server router
-- delivers under the gateway's tag and sequence number, with exactly the payload that was sent, to the
-- destination that its table names.
pub client_send-Arrived :
    (ec : Client.Env) (es : Server.Env) (id service peer : ℕ) (payload prefix : Payload)
    (c : Client.Client) (g : Client.Gateway) (s : Server.Server)
    → IsStandard es.wire
    → ec.wire ≡ es.wire
    → Server.Quiet.IsQuiet es
    → Server.Invariant.Inv s
    → find id c.heap ≡ some g
    → Client.is_connected c ≡ true
    → Client.is_registered_gateway c g.tag ≡ true
    → ec.wire.serialize (channel_msg (next_message g service payload)) ≡ some prefix
    → length (prefix ++ payload) < 2 ^ 64
    → (fragments : List Payload) × ((Client.gateway_send ec id service payload c).0.trace
        ≡ Client.sent fragments ∷ c.trace)
      × Arrived
          (destination s peer (next_message g service payload))
          peer
          g.tag
          g.next_sequence
          payload
          s
          (Server.handle_pipe_event es (Server.pipe_message peer (joined fragments)) s).0
client_send-Arrived ec es id service peer payload prefix c g s std same quiet v found on here out
      fits =
    let (first, taken, cut) =
      client_send-taken ec es id service peer payload prefix c g s std same found on here out
        fits in
    let m = next_message g service payload in
    let bytes = joined (prefix ∷ payload ∷ []) in
    (
      prefix ∷ payload ∷ [],
      first,
      rw taken (
          subst
            (λ (p : Payload).
              Arrived (destination s peer m) peer m.tag m.sequence p s
                (Server.handle_route_channel_msg es peer m bytes s).0)
            cut (handle_route_channel_msg-Arrived es quiet peer m s bytes v)),
    )

-- What a registered gateway of a connected client sends in one message from the server, the client
-- router that receives it delivers, as its only effect, to the gateway that is registered under the
-- tag, with the sender's sequence number and exactly the payload that was sent.
pub server_send-delivered :
    (es : Server.Env) (ec : Client.Env) (id service target : ℕ) (payload prefix : Payload)
    (s : Server.Server) (g : Server.Gateway) (c : Client.Client)
    → IsStandard ec.wire
    → es.wire ≡ ec.wire
    → Client.Quiet.IsQuiet ec
    → Client.Invariant.Inv c
    → find id s.heap ≡ some g
    → Server.is_connected s g.client_id ≡ true
    → Server.is_registered_gateway s g.client_id g.tag ≡ true
    → find g.tag c.gateways ≡ some target
    → es.wire.serialize (channel_msg (next_server_message g service payload)) ≡ some prefix
    → length (prefix ++ payload) < 2 ^ 64
    → (fragments : List Payload) × ((Server.gateway_send es id service payload s).0.trace
        ≡ Server.sent g.client_id fragments ∷ s.trace)
      × Client.Quiet.IsNotified target
          (message g.next_sequence payload)
          c
          (Client.handle_pipe_event ec (Client.pipe_message (joined fragments)) c).0
server_send-delivered es ec id service target payload prefix s g c std same quiet v found on here
      there out fits =
    (
      prefix ∷ payload ∷ [],
      step.2 ∙ ap (λ fs. fs ++ s.trace) framed,
      subst Reached (sym whole) reached,
    )
  where
    m : ChannelMsg
    m = next_server_message g service payload

    step :
        let t = (Server.gateway_send es id service payload s).0 in
        (t.clients ≡ s.clients)
        × (find id t.heap ≡ some (record g { next_sequence = u64 (g.next_sequence + 1) }))
        × (t.trace
            ≡ Server.Sending.frame es.wire g.client_id g.tag service g.next_sequence payload
              ++ s.trace)
    step = Server.Sending.gateway_send_step es id service payload s g found on here

    framed :
        Server.Sending.frame es.wire g.client_id g.tag service g.next_sequence payload
        ≡ Server.sent g.client_id (prefix ∷ payload ∷ []) ∷ []
    framed = ground arith

    Reached : Payload → Type 0
    Reached bytes =
        Client.Quiet.IsNotified target (message g.next_sequence payload) c
          (Client.handle_pipe_event ec (Client.pipe_message bytes) c).0

    whole : joined (prefix ∷ payload ∷ []) ≡ prefix ++ payload
    whole = ap (◌++◌ prefix) (append-nil payload)

    out' : ec.wire.serialize (channel_msg m) ≡ some prefix
    out' = ap (λ (w : Wire). w.serialize (channel_msg m)) (sym same) ∙ out

    taken :
        Client.handle_pipe_event ec (Client.pipe_message (prefix ++ payload)) c
        ≡ Client.handle_route_channel_msg ec m (prefix ++ payload) c
    taken =
        unfold Client.handle_pipe_event Client.handle_route in
        rw (std.reads_back (channel_msg m) prefix payload out', Client.handle_pipe_event) refl

    reached : Reached (prefix ++ payload)
    reached = rw taken (
        subst
          (λ p.
            Client.Quiet.IsNotified target (message g.next_sequence p) c
              (Client.handle_route_channel_msg ec m (prefix ++ payload) c).0)
          (cut_routing-append ec.wire prefix payload m std refl fits)
          (Client.Quiet.handle_route_channel_msg_delivers ec quiet m (prefix ++ payload) target c v
            there))

-- The handshake: a client whose pipe comes up asks the server router to connect; a server that can
-- answer takes the client as connected and answers it alone; and the answer links the client.
pub handshake_connects :
    (ec : Client.Env) (es : Server.Env) (peer : ℕ) (request response : Payload) (c : Client.Client)
    (s : Server.Server)
    → IsStandard es.wire
    → IsStandard ec.wire
    → ec.wire ≡ es.wire
    → Client.Quiet.IsQuiet ec
    → Client.Invariant.Inv c
    → c.linked ≡ false
    → ec.wire.serialize (connect ec.version.major ec.version.minor (pos 0)) ≡ some request
    → es.wire.serialize (connect es.version.major es.version.minor (pos 0)) ≡ some response
    → es.send_result s.trace peer (response ∷ []) ≡ pos 0
    → let t =
        (Server.handle_pipe_event es (Server.pipe_message peer (joined (request ∷ []))) s).0 in
      let d = (Client.handle_pipe_event ec (Client.pipe_message (joined (response ∷ []))) c).0 in
      ((Client.handle_pipe_event ec Client.pipe_connected c).0.trace
        ≡ Client.sent (request ∷ []) ∷ c.trace)
      × (t.trace ≡ Server.sent peer (response ∷ []) ∷ s.trace)
      × (Server.is_connected t peer ≡ true)
      × (d.linked ≡ true)
handshake_connects ec es peer request response c s stds stdc same quiet v away asks answers okay = (
  started,
  rw asked answer.0,
  rw asked answer.1,
  rw answered (Client.Handshake.handle_route_connect_once ec quiet c v away).0,
)
  where
    started :
        (Client.handle_pipe_event ec Client.pipe_connected c).0.trace
        ≡ Client.sent (request ∷ []) ∷ c.trace
    started = unfold Client.handle_pipe_event Client.handle_connected in ground arith

    answer :
        let t = (Server.handle_route_connect es peer s).0 in
        (t.trace ≡ Server.sent peer (response ∷ []) ∷ s.trace) × (Server.is_connected t peer ≡ true)
    answer =
        unfold Server.handle_route_connect Server.is_connected in
        (
          ground arith,
          ground (
            arith,
            find-insert peer peer [] s.clients,
            contains-find peer (insert peer [] s.clients),
            contains-find peer s.clients,
            ==_refl peer,
          ),
        )

    asked :
        Server.handle_pipe_event es (Server.pipe_message peer (joined (request ∷ []))) s
        ≡ Server.handle_route_connect es peer s
    asked =
        unfold Server.handle_pipe_event Server.handle_route in
        rw
          (
            stds.reads_back (connect ec.version.major ec.version.minor (pos 0)) request [] (
                ap (λ (w : Wire). w.serialize (connect ec.version.major ec.version.minor (pos 0)))
                  (sym same)
                ∙ asks),
            Server.handle_pipe_event,
          )
          refl

    answered :
        Client.handle_pipe_event ec (Client.pipe_message (joined (response ∷ []))) c
        ≡ Client.handle_route_connect ec c
    answered =
        unfold Client.handle_pipe_event Client.handle_route in
        rw
          (
            stdc.reads_back (connect es.version.major es.version.minor (pos 0)) response [] (
                ap (λ (w : Wire). w.serialize (connect es.version.major es.version.minor (pos 0)))
                  same
                ∙ answers),
            Client.handle_pipe_event,
          )
          refl
