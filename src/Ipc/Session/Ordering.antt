-- ===== src/Ipc/Session/Ordering.antt =====
-- A channel from its first message on: what src/common/ipc/client_router.cpp sends, message by message, as
-- src/common/ipc/server_router.cpp takes it from its pipe.
use mathlib.Core.Path.{subst}
use yakut_native.Base.{
  ℤ, ℕ, ◌+◌, ◌<◌, ◌^◌, ◌≡◌, refl, sym, ap, ◌∙◌, List, [], ◌∷◌, ◌++◌, true, none, some, find,
  append_assoc, length,
}
use yakut_native.Ipc.Types.{joined, Payload, u64, channel_msg, message}
use yakut_native.Ipc.Wire.{IsStandard}
use yakut_native.Ipc.Client
use yakut_native.Ipc.Server
use yakut_native.Ipc.Server.Attending.{
  channel_events, IsHeld, Minds, Adopts, Has, handle_route_channel_msg-Has, open_channel-Has,
  free_in,
}
use yakut_native.Ipc.Session.{next_message, client_send-taken}
use yakut_native.Ipc.Session.Passing.{
  sent_bytes, Takes, sent_bytes-append, receptions, deliveries, AreSerialized, Opened, Delivered,
  Passes,
}

second : (g : Client.Gateway) → g.next_sequence ≡ 0 → u64 (g.next_sequence + 1) ≡ 1
second g start = ap (λ n. u64 (n + 1)) start

module _ (ec : Client.Env) (es : Server.Env) (id service peer : ℕ) (std : IsStandard es.wire)
    (same : ec.wire ≡ es.wire) (takes : Takes ec) where
  abbrev received : List Payload → Server.Server → Server.Server
  received fragments s =
      (Server.handle_pipe_event es (Server.pipe_message peer (joined fragments)) s).0

  -- One message, and then the others.
  Passes-cons :
      (P : Server.Server → Type 0) (p : Payload) (ps : List Payload) (c : Client.Client)
      (s : Server.Server) (fragments : List Payload)
      → (Client.gateway_send ec id service p c).0.trace ≡ Client.sent fragments ∷ c.trace
      → Passes ec es id service peer P ps
          (Client.gateway_send ec id service p c).0
          (received fragments s)
      → Passes ec es id service peer P (p ∷ ps) c s
  unfolding Client.Sending.send_run Server.run Server.perform
  Passes-cons P p ps c s fragments first (effects, others, after) = (
    effects ++ Client.sent fragments ∷ [],
    others
        ∙ ap (◌++◌ effects) first
        ∙ sym (append_assoc effects (Client.sent fragments ∷ []) c.trace),
    rw (sent_bytes-append ec c.trace effects fragments takes) (
        subst
          (λ (before : List Client.Effect).
            P (
              Server.run es (receptions peer (sent_bytes ec before effects))
                (received fragments s)))
          first after),
  )

  -- The sender can send again.
  still :
      (p : Payload) (c : Client.Client) (g : Client.Gateway)
      → find id c.heap ≡ some g
      → Client.is_connected c ≡ true
      → Client.is_registered_gateway c g.tag ≡ true
      → let c' = (Client.gateway_send ec id service p c).0 in
        (find id c'.heap ≡ some (record g { next_sequence = u64 (g.next_sequence + 1) }))
        × (Client.is_connected c' ≡ true)
        × (Client.is_registered_gateway c' g.tag ≡ true)
  still p c g found on here =
      let step = Client.Sending.gateway_send_step ec id service p c g found on here in
      (
        step.2,
        unfold Client.is_connected in (step.1 ∙ on),
        unfold Client.is_registered_gateway in rw (step.0, Client.is_registered_gateway) here,
      )

  -- One message for a gateway that is there.
  delivers :
      (target : ℕ) (p prefix : Payload) (c : Client.Client) (g : Client.Gateway) (s : Server.Server)
      → Minds es peer g.tag target
      → find id c.heap ≡ some g
      → Client.is_connected c ≡ true
      → Client.is_registered_gateway c g.tag ≡ true
      → ec.wire.serialize (channel_msg (next_message g service p)) ≡ some prefix
      → length (prefix ++ p) < 2 ^ 64
      → IsHeld 0 peer g.tag target s
      → ((Client.gateway_send ec id service p c).0.trace ≡ Client.sent (prefix ∷ p ∷ []) ∷ c.trace)
        × Has es peer g.tag target 0
            (Server.delivered target (message g.next_sequence p) ∷ channel_events target s.trace)
            (received (prefix ∷ p ∷ []) s)
  delivers target p prefix c g s minds found on here out short held =
      let (first, taken, cut) =
        client_send-taken ec es id service peer p prefix c g s std same found on here out short in
      let m = next_message g service p in
      let bytes = joined (prefix ∷ p ∷ []) in
      (
        first,
        subst
            (λ (r : Server.Server × ℤ).
              Has es peer g.tag target 0
                (Server.delivered target (message g.next_sequence p)
                  ∷ channel_events target s.trace)
                r.0)
            (sym taken)
            (subst
              (λ (q : Payload).
                Has es peer g.tag target 0
                  (Server.delivered target (message g.next_sequence q)
                    ∷ channel_events target s.trace)
                  (Server.handle_route_channel_msg es peer m bytes s).0)
              cut (handle_route_channel_msg-Has es peer target m bytes s minds held)),
      )

  -- The first message.
  opens :
      (factory : ℕ) (p prefix : Payload) (c : Client.Client) (g : Client.Gateway)
      (s : Server.Server)
      → Adopts es peer g.tag s.next_gateway factory p
      → find id c.heap ≡ some g
      → g.next_sequence ≡ 0
      → Client.is_connected c ≡ true
      → Client.is_registered_gateway c g.tag ≡ true
      → ec.wire.serialize (channel_msg (next_message g service p)) ≡ some prefix
      → length (prefix ++ p) < 2 ^ 64
      → Server.registered s.clients peer g.tag ≡ none
      → Server.is_connected s peer ≡ true
      → find service s.factories ≡ some factory
      → ((Client.gateway_send ec id service p c).0.trace ≡ Client.sent (prefix ∷ p ∷ []) ∷ c.trace)
        × Has es peer g.tag s.next_gateway 0
            (Server.opened factory s.next_gateway p ∷ channel_events s.next_gateway s.trace)
            (received (prefix ∷ p ∷ []) s)
  opens factory p prefix c g s adopts found start on here out short free linked known =
      let (first, taken, cut) =
        client_send-taken ec es id service peer p prefix c g s std same found on here out short in
      let m = next_message g service p in
      let bytes = joined (prefix ∷ p ∷ []) in
      let (gateways, present, unused) = free_in s peer g.tag free linked in
      (
        first,
        subst
            (λ (r : Server.Server × ℤ).
              Has es peer g.tag s.next_gateway 0
                (Server.opened factory s.next_gateway p ∷ channel_events s.next_gateway s.trace)
                r.0)
            (sym taken)
            (subst
              (λ (q : Payload).
                Adopts es peer g.tag s.next_gateway factory q
                → Has es peer g.tag s.next_gateway 0
                    (Server.opened factory s.next_gateway q ∷ channel_events s.next_gateway s.trace)
                    (Server.handle_route_channel_msg es peer m bytes s).0)
              cut (open_channel-Has es peer gateways m bytes factory s present unused start known)
              adopts),
      )

  -- To a gateway that is there.
  pub sends-Delivered :
      (target : ℕ) (ps : List Payload) (c : Client.Client) (g : Client.Gateway) (s : Server.Server)
      → Minds es peer g.tag target
      → find id c.heap ≡ some g
      → Client.is_connected c ≡ true
      → Client.is_registered_gateway c g.tag ≡ true
      → AreSerialized ec.wire g.tag service g.next_sequence ps
      → IsHeld 0 peer g.tag target s
      → Passes ec es id service peer (Delivered peer g.tag target g.next_sequence ps s) ps c s
  unfolding Client.Sending.send_run Server.run sent_bytes
  sends-Delivered target [] c g s minds found on here fits held = ([], refl, (held.0, refl))
  sends-Delivered target (p ∷ ps) c g s minds found on here ((prefix, out, short), fits) held =
      let (first, told) = delivers target p prefix c g s minds found on here out short held in
      let (effects, others, (there, events)) =
        sends-Delivered target ps (Client.gateway_send ec id service p c).0
          (record g { next_sequence = u64 (g.next_sequence + 1) }) (received (prefix ∷ p ∷ []) s)
          minds (still p c g found on here).0 (still p c g found on here).1
          (still p c g found on here).2 fits told.0 in
      Passes-cons (Delivered peer g.tag target g.next_sequence (p ∷ ps) s) p ps c s
        (prefix ∷ p ∷ []) first
        (
          effects,
          others,
          (
            there,
            events
                ∙ ap (◌++◌ (deliveries target (u64 (g.next_sequence + 1)) ps)) told.1
                ∙ sym (
                    append_assoc (deliveries target (u64 (g.next_sequence + 1)) ps)
                      (Server.delivered target (message g.next_sequence p) ∷ [])
                      (channel_events target s.trace)),
          ),
        )

  -- A channel, from its first message on. What a connected client router sends of a registered gateway that has
  -- sent nothing yet, in any number of messages, each of which can be serialized and has fewer than 2 ^ 64 bytes, if
  -- the pipe takes every message and the server's pipe gives them in order: the first message opens a channel with
  -- its payload, if the server has the client as connected, knows the service, and has the tag free, and each
  -- further payload is delivered once to the new gateway, in the order of the sends and numbered from 1 on
  -- (modulo 2 ^ 64); the gateway is given no other message, and is registered at the end. This holds if the
  -- factory, given the new gateway with the first payload in any state, keeps it registered and referred to, and
  -- gives it no message, and so does, for every message in any state, the event handler that the gateway has;
  -- apart from that they may do anything.
  pub sends-Opened :
      (factory : ℕ) (p : Payload) (ps : List Payload) (c : Client.Client) (g : Client.Gateway)
      (s : Server.Server)
      → Adopts es peer g.tag s.next_gateway factory p
      → Minds es peer g.tag s.next_gateway
      → find id c.heap ≡ some g
      → g.next_sequence ≡ 0
      → Client.is_connected c ≡ true
      → Client.is_registered_gateway c g.tag ≡ true
      → AreSerialized ec.wire g.tag service g.next_sequence (p ∷ ps)
      → Server.registered s.clients peer g.tag ≡ none
      → Server.is_connected s peer ≡ true
      → find service s.factories ≡ some factory
      → Passes ec es id service peer (Opened peer factory g.tag p ps s) (p ∷ ps) c s
  sends-Opened factory p ps c g s adopts minds found start on here ((prefix, out, short), fits) free
        linked known =
      let (first, made) =
        opens factory p prefix c g s adopts found start on here out short free linked known in
      let (effects, others, (there, events)) =
        sends-Delivered s.next_gateway ps (Client.gateway_send ec id service p c).0
          (record g { next_sequence = u64 (g.next_sequence + 1) }) (received (prefix ∷ p ∷ []) s)
          minds (still p c g found on here).0 (still p c g found on here).1
          (still p c g found on here).2 fits made.0 in
      Passes-cons (Opened peer factory g.tag p ps s) p ps c s (prefix ∷ p ∷ []) first (
        effects,
        others,
        (
          there,
          events
              ∙ ap
                  (λ n.
                    deliveries s.next_gateway n ps
                    ++ channel_events s.next_gateway (received (prefix ∷ p ∷ []) s).trace)
                  (second g start)
              ∙ ap (◌++◌ (deliveries s.next_gateway 1 ps)) made.1,
        ),
      )
