-- ===== src/Ipc/Server/Noninterference.antt =====
-- The pipe events of one client leave the others alone (src/common/ipc/server_router.cpp).
use yakut_native.Base.{
  ==_refl, ℕ, ◌≢◌, refl, ◌∙◌, inl, inr, [], ◌∷◌, arith, ℤ, Map, find, erase, find-erase,
  find-assign, find-insert, ◌==◌, Option-cases, Bool-cases, AllValues-of_find,
}
use yakut_native.Ipc.Types.{Payload, Route, empty, connect, channel_msg, channel_end, ChannelMsg}
use yakut_native.Ipc.Server.{
  new_gateway, Server, Env, opened, registered, lock, find_and_act_on_registered_gateway,
  create_gateway, open_channel, handle_disconnected, handle_route_connect, handle_route_channel_msg,
  handle_route_channel_end, handle_route, handle_pipe_event, PipeEvent, pipe_connected,
  pipe_disconnected, pipe_message,
}
use yakut_native.Ipc.Server.Invariant.{Inv}
use yakut_native.Ipc.Server.Isolation.{
  lock_same, IsSameFor, IsSameFor-refl, IsSameFor-trans, Spares, release_same,
}
use yakut_native.Ipc.Server.Unseen.{
  foreign, foreign_entry, no_object_yet, opened_same, gateway_event_same, under_lock_same,
  notify_all_same,
}

module _ (c : ℕ) (e : Env) (k : Spares c e) where
  handle_disconnected_same :
      (client : ℕ) (s : Server)
      → client ≢ c
      → Inv s
      → IsSameFor c s (handle_disconnected e client s).0
  unfolding handle_disconnected
  handle_disconnected_same client s other v = elim (Option-cases (find client s.clients)) [
    | inl absent ↦ rw (absent, handle_disconnected) (IsSameFor-refl c s)
    | inr (gateways, present) ↦
        rw (present, handle_disconnected)
          (IsSameFor-trans
            (record {
              gateways = ground (arith, find-erase c client s.clients);
              objects = λ i. refl;
              messages = refl;
            })
            (notify_all_same c e k _ gateways _ (
              AllValues-of_find _ gateways (v.distinct client gateways present)
                (λ tag id h. foreign_entry c client tag id s gateways other v present h))))
  ]

  handle_route_connect_same :
      (client : ℕ) (s : Server) → client ≢ c → IsSameFor c s (handle_route_connect e client s).0
  unfolding handle_route_connect
  handle_route_connect_same client s other = record {
    gateways = ground (arith, find-insert c client [] s.clients);
    objects = λ i. ground arith;
    messages = ground arith;
  }

  open_channel_same :
      (client : ℕ) (gateways : Map ℕ) (m : ChannelMsg) (payload : Payload) (s : Server)
      → client ≢ c
      → Inv s
      → IsSameFor c s (open_channel e client gateways m payload s).0
  unfolding open_channel
  open_channel_same client gateways m payload s other v = elim (Bool-cases (m.sequence == 0)) [
    | inr later ↦ rw (later, open_channel) (IsSameFor-refl c s)
    | inl first ↦ elim (Option-cases (find m.service_id s.factories)) [
      | inl unknown ↦ rw (first, open_channel, unknown) (IsSameFor-refl c s)
      | inr (factory, known) ↦
          rw (first, open_channel, known)
            (IsSameFor-trans (created factory) (
              IsSameFor-trans (made factory) (
                release_same c e s.next_gateway _ (
                  (made factory).objects s.next_gateway
                  ∙ (created factory).objects s.next_gateway
                  ∙ no_object_yet c s v))))
    ]
  ]
    where
      created :
          (factory : ℕ)
          → let t = create_gateway client m.tag gateways s in
            IsSameFor c s (record t { trace = opened factory s.next_gateway payload ∷ t.trace })
      created factory = opened_same c client m.tag factory gateways payload s other v

      made :
          (factory : ℕ)
          → let t = create_gateway client m.tag gateways s in
            let u = record t { trace = opened factory s.next_gateway payload ∷ t.trace } in
            IsSameFor c u (e.construct factory s.next_gateway payload u)
      made factory =
          k.construct_same factory s.next_gateway payload _ (new_gateway client m.tag)
            (unfold create_gateway in
              ground (
                arith,
                find-assign s.next_gateway s.next_gateway (new_gateway client m.tag) s.heap,
                ==_refl s.next_gateway,
              ))
            (unfold new_gateway in other)

  handle_route_channel_msg_same :
      (client : ℕ) (m : ChannelMsg) (payload : Payload) (s : Server)
      → client ≢ c
      → Inv s
      → IsSameFor c s (handle_route_channel_msg e client m payload s).0
  unfolding handle_route_channel_msg
  handle_route_channel_msg_same client m payload s other v =
      elim (Option-cases (find client s.clients)) [
        | inl absent ↦ rw (absent, handle_route_channel_msg) (IsSameFor-refl c s)
        | inr (gateways, present) ↦ elim (Option-cases (find m.tag gateways)) [
          | inl free ↦
              rw (present, handle_route_channel_msg, free)
                (open_channel_same client gateways m _ s other v)
          | inr (id, taken) ↦ elim (Option-cases (lock id s)) [
            | inl dead ↦
                rw (present, handle_route_channel_msg, taken, dead)
                  (open_channel_same client gateways m _ s other v)
            | inr (t, live) ↦
                rw (present, handle_route_channel_msg, taken, live)
                  (under_lock_same c e k id s t _
                    (foreign_entry c client m.tag id s gateways other v present taken) live
                    (gateway_event_same c e k id _ t (
                      (lock_same c id s t
                          (foreign_entry c client m.tag id s gateways other v present taken)
                          live).objects
                        id
                      ∙ foreign_entry c client m.tag id s gateways other v present taken)))
          ]
        ]
      ]

  handle_route_channel_end_same :
      (client tag : ℕ) (err : ℤ) (s : Server)
      → client ≢ c
      → Inv s
      → IsSameFor c s (handle_route_channel_end e client tag err s).0
  unfolding handle_route_channel_end find_and_act_on_registered_gateway
  handle_route_channel_end_same client tag err s other v =
      elim (Option-cases (find client s.clients)) [
        | inl absent ↦ rw (absent, handle_route_channel_end) (IsSameFor-refl c s)
        | inr (gateways, present) ↦ elim (Option-cases (registered s.clients client tag)) [
          | inl free ↦
              rw (present, handle_route_channel_end, free, find_and_act_on_registered_gateway)
                (IsSameFor-refl c s)
          | inr (id, taken) ↦ elim (Option-cases (lock id s)) [
            | inl dead ↦
                rw
                  (
                    present, handle_route_channel_end, taken, find_and_act_on_registered_gateway,
                    dead,
                  )
                  (IsSameFor-refl c s)
            | inr (t, live) ↦
                rw
                  (
                    present, handle_route_channel_end, taken, find_and_act_on_registered_gateway,
                    live,
                  )
                  (under_lock_same c e k id s t _ (foreign c client tag id s other v taken) live (
                    IsSameFor-trans
                      (record {
                        gateways =
                            ground (arith, find-assign c client (erase tag gateways) t.clients);
                        objects = λ i. refl;
                        messages = refl;
                      })
                      (gateway_event_same c e k id _ _ (
                        (lock_same c id s t (foreign c client tag id s other v taken) live).objects
                          id
                        ∙ foreign c client tag id s other v taken))))
          ]
        ]
      ]

  handle_route_same :
      (client : ℕ) (payload : Payload) (route : Route) (s : Server)
      → client ≢ c
      → Inv s
      → IsSameFor c s (handle_route e client payload route s).0
  unfolding handle_route
  handle_route_same client payload empty s other v = IsSameFor-refl c s
  handle_route_same client payload (connect _ _ _) s other v =
      handle_route_connect_same client s other
  handle_route_same client payload (channel_msg m) s other v =
      handle_route_channel_msg_same client m payload s other v
  handle_route_same client payload (channel_end tag err) s other v =
      handle_route_channel_end_same client tag err s other v

-- The client that a pipe event comes from.
abbrev pub source : PipeEvent → ℕ
source (pipe_connected client) = client
source (pipe_disconnected client) = client
source (pipe_message client payload) = client

-- In a state with the router's invariant, whatever a client sends, and when it goes away, every other client
-- keeps its connection, its registered gateways and their state, and is sent nothing, provided that the
-- event handlers of other clients' gateways, and the channel factories that are given another client's
-- gateway, do nothing, in any state, that this client would see.
pub handle_pipe_event_same :
    (c : ℕ) (e : Env) (event : PipeEvent) (s : Server)
    → Spares c e
    → source event ≢ c
    → Inv s
    → IsSameFor c s (handle_pipe_event e event s).0
unfolding handle_pipe_event
handle_pipe_event_same c e (pipe_connected client) s k other v = IsSameFor-refl c s
handle_pipe_event_same c e (pipe_disconnected client) s k other v =
    handle_disconnected_same c e k client s other v
handle_pipe_event_same c e (pipe_message client payload) s k other v =
    elim (Option-cases (e.wire.deserialize payload)) [
      | inl bad ↦ rw (bad, handle_pipe_event) (IsSameFor-refl c s)
      | inr (route, good) ↦
          rw (good, handle_pipe_event) (handle_route_same c e k client payload route s other v)
    ]
