-- ===== src/Ipc/Server/Reachable.antt =====
-- The invariant after any history of calls on the router of src/common/ipc/server_router.cpp.
use yakut_native.Base.{
  Distinct-erase, Distinct-assign, assign, erase, ℕ, ◌+◌, ◌≡◌, refl, inl, inr, List, [], ◌∷◌, some,
  arith, ℤ, Map, find, find-assign, ◌==◌, Option-cases, Bool-cases,
}
use yakut_native.Ipc.Types.{
  Payload, u64, Route, empty, connect, channel_msg, channel_end, ChannelMsg,
}
use yakut_native.Ipc.Server.{
  Server, Env, registered, new_gateway, register_channel_factory, is_connected,
  is_registered_gateway, locked, lock, gateway_send, gateway_complete, create_gateway, open_channel,
  handle_route_channel_msg, handle_route_channel_end, handle_route, handle_pipe_event, PipeEvent,
  pipe_connected, pipe_disconnected, pipe_message, Call, registers, receives, sends, completes,
  subscribes, copies, releases, perform, run, init,
}
use yakut_native.Ipc.Server.Registrations.{AreDistinct-assign, erase-registered, assign-registered}
use yakut_native.Ipc.Server.Invariant.{
  Inv, fewer-Inv, traced-Inv, update-Inv, lock-Inv, release-Inv,
}
use yakut_native.Ipc.Server.Steps.{
  Keeps, gateway_event-Inv, find_and_act-Inv, gateway_subscribe-Inv, handle_disconnected-Inv,
  handle_route_connect-Inv,
}

pub init-Inv : Inv init
unfolding init find registered
init-Inv = record {
  distinct = λ c gs h. ground arith;
  alive = λ c t id h. ground arith;
  owned = λ id. refl;
}

pub create_gateway-Inv :
    (client tag : ℕ) (gateways : Map ℕ) (s : Server)
    → find client s.clients ≡ some gateways
    → Inv s
    → Inv (create_gateway client tag gateways s)
unfolding create_gateway
create_gateway-Inv client tag gateways s e v = record {
  distinct =
      AreDistinct-assign client (assign tag s.next_gateway gateways) s.clients
        (Distinct-assign tag s.next_gateway gateways (v.distinct client gateways e)) v.distinct;
  alive = λ c t i h. ground (
    arith,
    assign-registered s.clients gateways client tag s.next_gateway c t e,
    find-assign i s.next_gateway (new_gateway client tag) s.heap,
    v.alive c t i,
    v.owned i,
  );
  owned =
      λ i. ground (arith, find-assign i s.next_gateway (new_gateway client tag) s.heap, v.owned i);
}

gateway_complete-Inv : (id : ℕ) (err : ℤ) (s : Server) → Inv s → Inv (gateway_complete id err s)
unfolding gateway_complete
gateway_complete-Inv id err s v = elim (Option-cases (find id s.heap)) [
  | inl gone ↦ rw (gone, gateway_complete) v
  | inr (g, found) ↦
      rw (found, gateway_complete)
        (update-Inv s id g _ found refl refl (ground (arith, v.owned id)) v)
]

module _ (e : Env) where
  gateway_send-Inv :
      (id service : ℕ) (payload : Payload) (s : Server)
      → Inv s
      → Inv (gateway_send e id service payload s).0
  unfolding gateway_send
  gateway_send-Inv id service payload s v = elim (Option-cases (find id s.heap)) [
    | inl gone ↦ rw (gone, gateway_send) v
    | inr (g, found) ↦ elim (Bool-cases (is_connected s g.client_id)) [
      | inr away ↦ rw (found, gateway_send, away) v
      | inl here ↦ elim (Bool-cases (is_registered_gateway s g.client_id g.tag)) [
        | inr ended ↦ rw (found, gateway_send, here, ended) v
        | inl live ↦
            rw (found, gateway_send, here, live)
              (traced-Inv _ _ (ground arith) (ground arith) (ground arith) (
                update-Inv s id g (record g { next_sequence = u64 (g.next_sequence + 1) }) found
                  refl refl (ground (arith, v.owned id)) v))
      ]
    ]
  ]

module _ (e : Env) (k : Keeps e) where
  open_channel-Inv :
      (client : ℕ) (gateways : Map ℕ) (m : ChannelMsg) (payload : Payload) (s : Server)
      → find client s.clients ≡ some gateways
      → Inv s
      → Inv (open_channel e client gateways m payload s).0
  unfolding open_channel
  open_channel-Inv client gateways m payload s present v = elim (Bool-cases (m.sequence == 0)) [
    | inr later ↦ rw (later, open_channel) v
    | inl first ↦ elim (Option-cases (find m.service_id s.factories)) [
      | inl unknown ↦ rw (first, open_channel, unknown) v
      | inr (factory, known) ↦
          rw (first, open_channel, known)
            (release-Inv e s.next_gateway _ (
              k.construct_Inv factory s.next_gateway payload _ (
                traced-Inv (create_gateway client m.tag gateways s) _ refl refl refl
                  (create_gateway-Inv client m.tag gateways s present v))))
    ]
  ]

  handle_route_channel_msg-Inv :
      (client : ℕ) (m : ChannelMsg) (payload : Payload) (s : Server)
      → Inv s
      → Inv (handle_route_channel_msg e client m payload s).0
  unfolding handle_route_channel_msg
  handle_route_channel_msg-Inv client m payload s v = elim (Option-cases (find client s.clients)) [
    | inl absent ↦ rw (absent, handle_route_channel_msg) v
    | inr (gateways, present) ↦ elim (Option-cases (find m.tag gateways)) [
      | inl free ↦
          rw (present, handle_route_channel_msg, free)
            (open_channel-Inv client gateways m _ s present v)
      | inr (id, taken) ↦ elim (Option-cases (lock id s)) [
        | inl dead ↦
            rw (present, handle_route_channel_msg, taken, dead)
              (open_channel-Inv client gateways m _ s present v)
        | inr (t, live) ↦
            rw (present, handle_route_channel_msg, taken, live)
              (release-Inv e id _ (gateway_event-Inv e k id _ t (lock-Inv id s t live v)))
      ]
    ]
  ]

  handle_route_channel_end-Inv :
      (client tag : ℕ) (err : ℤ) (s : Server)
      → Inv s
      → Inv (handle_route_channel_end e client tag err s).0
  unfolding handle_route_channel_end
  handle_route_channel_end-Inv client tag err s v = elim (Option-cases (find client s.clients)) [
    | inl absent ↦ rw (absent, handle_route_channel_end) v
    | inr (gateways, present) ↦
        rw (present, handle_route_channel_end)
          (find_and_act-Inv e k client tag _ s
            (λ id t _ live w. gateway_event-Inv e k id _ _ (
              fewer-Inv t _ refl refl
                (λ c u i h. ground (
                  arith,
                  erase-registered t.clients gateways client tag c u
                      (locked_clients id t live present),
                ))
                (AreDistinct-assign client (erase tag gateways) t.clients
                  (Distinct-erase tag gateways (v.distinct client gateways present)) w.distinct)
                w))
            v)
  ]
    where
      locked_clients :
          {gateways : Map ℕ} (id : ℕ) (t : Server)
          → lock id s ≡ some t
          → find client s.clients ≡ some gateways
          → find client t.clients ≡ some gateways
      locked_clients id t live present = unfold lock in ground arith

  handle_route-Inv :
      (client : ℕ) (payload : Payload) (route : Route) (s : Server)
      → Inv s
      → Inv (handle_route e client payload route s).0
  unfolding handle_route
  handle_route-Inv client payload empty s v = v
  handle_route-Inv client payload (connect _ _ _) s v = handle_route_connect-Inv e k client s v
  handle_route-Inv client payload (channel_msg m) s v =
      handle_route_channel_msg-Inv client m payload s v
  handle_route-Inv client payload (channel_end tag err) s v =
      handle_route_channel_end-Inv client tag err s v

  pub handle_pipe_event-Inv :
      (event : PipeEvent) (s : Server) → Inv s → Inv (handle_pipe_event e event s).0
  unfolding handle_pipe_event
  handle_pipe_event-Inv (pipe_connected client) s v = v
  handle_pipe_event-Inv (pipe_disconnected client) s v = handle_disconnected-Inv e k client s v
  handle_pipe_event-Inv (pipe_message client payload) s v =
      elim (Option-cases (e.wire.deserialize payload)) [
        | inl bad ↦ rw (bad, handle_pipe_event) v
        | inr (route, good) ↦
            rw (good, handle_pipe_event) (handle_route-Inv client payload route s v)
      ]

  pub perform-Inv : (c : Call) (s : Server) → Inv s → Inv (perform e c s)
  unfolding perform
  perform-Inv (registers service factory) s v =
      unfold register_channel_factory in traced-Inv s _ refl refl refl v
  perform-Inv (receives event) s v = handle_pipe_event-Inv event s v
  perform-Inv (sends id service payload) s v = gateway_send-Inv e id service payload s v
  perform-Inv (completes id err) s v = gateway_complete-Inv id err s v
  perform-Inv (subscribes id handler) s v = gateway_subscribe-Inv e k id handler s v
  perform-Inv (copies id) s v = elim (Option-cases (lock id s)) [
    | inl dead ↦ rw (dead, locked) v
    | inr (t, live) ↦ rw (live, locked) (lock-Inv id s t live v)
  ]
  perform-Inv (releases id) s v = release-Inv e id s v

  run-Inv : (cs : List Call) (s : Server) → Inv s → Inv (run e cs s)
  unfolding run
  run-Inv [] s v = v
  run-Inv (c ∷ cs) s v = run-Inv cs (perform e c s) (perform-Inv c s v)

  -- Whatever calls a server router has had, from its beginning on, provided that the event handlers and
  -- channel factories keep the invariant: every registered gateway lives and stands under its own
  -- client and tag, each tag of a client once, and every live gateway has an owner.
  pub run-init-Inv : (cs : List Call) → Inv (run e cs init)
  run-init-Inv cs = run-Inv cs init init-Inv
