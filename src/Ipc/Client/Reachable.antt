-- ===== src/Ipc/Client/Reachable.antt =====
-- The invariant after any history of calls on the router of src/common/ipc/client_router.cpp.
use yakut_native.Base.{
  if_intro, ℕ, ◌≡◌, ◌<◌, ◌^◌, refl, inl, inr, List, [], ◌∷◌, true, false, some, arith, ℤ, find,
  find-erase, Option-cases, Distinct-erase,
}
use yakut_native.Ipc.ErrorCode
use yakut_native.Ipc.Types.{
  Payload, completed, connected, Route, empty, connect, channel_msg, channel_end, ChannelMsg,
}
use yakut_native.Ipc.Client.{
  Client, Gateway, Env, lock, locked, lock_all, for_each_registered_gateway, handle_connected,
  handle_disconnected, handle_route_connect, handle_route_channel_msg, handle_route_channel_end,
  handle_route, handle_pipe_event, PipeEvent, pipe_connected, pipe_disconnected, pipe_message, Call,
  makes, receives, sends, completes, subscribes, copies, releases, perform, run, init,
}
use yakut_native.Ipc.Client.Invariant.{
  Inv, fewer-Inv, same-Inv, lock-Inv, release-Inv, make_gateway-Inv,
}
use yakut_native.Ipc.Client.Steps.{
  Keeps, gateway_complete-Inv, lock_all-Inv, release_each-Inv, gateway_send-Inv, gateway_event-Inv,
  event_each-Inv, find_and_act-Inv, gateway_subscribe-Inv, notify_all-Inv,
}

pub init-Inv : Inv init
unfolding init find
init-Inv = record {
  distinct = tt;
  alive = λ t id h. ground arith;
  owned = λ id. refl;
  counted = refl;
}

module _ (e : Env) (k : Keeps e) where
  handle_disconnected-Inv : (s : Client) → Inv s → Inv (handle_disconnected e s).0
  unfolding handle_disconnected
  handle_disconnected-Inv s v =
      if_intro (λ (r : Client × ℤ). Inv r.0) s.linked _ _
        (λ _.
          notify_all-Inv e k (completed ErrorCode.disconnected) s.gateways
            (record s { linked = false; gateways = [] })
            (fewer-Inv s (record s { linked = false; gateways = [] }) refl refl refl
              (λ t id h. unfold find in ground arith) tt v))
        (λ _. v)

  handle_route_connect-Inv : (s : Client) → Inv s → Inv (handle_route_connect e s).0
  unfolding handle_route_connect for_each_registered_gateway
  handle_route_connect-Inv s v =
      if_intro (λ (r : Client × ℤ). Inv r.0) s.linked _ _ (λ _. v)
        (λ _. release_each-Inv e (lock_all s.gateways (record s { linked = true })).0 _ (
          event_each-Inv e k connected (lock_all s.gateways (record s { linked = true })).0 _ (
            lock_all-Inv s.gateways (record s { linked = true })
              (same-Inv s _ refl refl refl refl v))))

  handle_route_channel_msg-Inv :
      (m : ChannelMsg) (payload : Payload) (s : Client)
      → Inv s
      → Inv (handle_route_channel_msg e m payload s).0
  unfolding handle_route_channel_msg
  handle_route_channel_msg-Inv m payload s v = elim (Option-cases (find m.tag s.gateways)) [
    | inl free ↦ rw (free, handle_route_channel_msg) v
    | inr (id, taken) ↦ elim (Option-cases (lock id s)) [
      | inl dead ↦ rw (taken, handle_route_channel_msg, dead) v
      | inr (t, live) ↦
          rw (taken, handle_route_channel_msg, live)
            (release-Inv e id _ (gateway_event-Inv e k id _ t (lock-Inv id s t live v)))
    ]
  ]

  handle_route_channel_end-Inv :
      (tag : ℕ) (err : ℤ) (s : Client) → Inv s → Inv (handle_route_channel_end e tag err s).0
  unfolding handle_route_channel_end
  handle_route_channel_end-Inv tag err s v =
      find_and_act-Inv e k tag _ s
        (λ id t w. gateway_event-Inv e k id _ _ (
          fewer-Inv t _ refl refl refl (λ u i h. ground (arith, find-erase u tag t.gateways))
            (Distinct-erase tag t.gateways w.distinct) w))
        v

  handle_route-Inv :
      (payload : Payload) (route : Route) (s : Client)
      → Inv s
      → Inv (handle_route e payload route s).0
  unfolding handle_route
  handle_route-Inv payload empty s v = v
  handle_route-Inv payload (connect _ _ _) s v = handle_route_connect-Inv s v
  handle_route-Inv payload (channel_msg m) s v = handle_route_channel_msg-Inv m payload s v
  handle_route-Inv payload (channel_end tag err) s v = handle_route_channel_end-Inv tag err s v

  handle_pipe_event-Inv :
      (event : PipeEvent) (s : Client) → Inv s → Inv (handle_pipe_event e event s).0
  unfolding handle_pipe_event handle_connected
  handle_pipe_event-Inv pipe_connected s v =
      same-Inv s _ (ground arith) (ground arith) (ground arith) (ground arith) v
  handle_pipe_event-Inv pipe_disconnected s v = handle_disconnected-Inv s v
  handle_pipe_event-Inv (pipe_message payload) s v =
      elim (Option-cases (e.wire.deserialize payload)) [
        | inl bad ↦ rw (bad, handle_pipe_event) v
        | inr (route, good) ↦ rw (good, handle_pipe_event) (handle_route-Inv payload route s v)
      ]

  perform-Inv : (c : Call) (s : Client) → Inv s → Inv (perform e c s)
  unfolding perform
  perform-Inv makes s v = make_gateway-Inv s v
  perform-Inv (receives event) s v = handle_pipe_event-Inv event s v
  perform-Inv (sends id service payload) s v = gateway_send-Inv e id service payload s v
  perform-Inv (completes id err) s v = gateway_complete-Inv id err s v
  perform-Inv (subscribes id handler) s v = gateway_subscribe-Inv e k id handler s v
  perform-Inv (copies id) s v = elim (Option-cases (lock id s)) [
    | inl dead ↦ rw (dead, locked) v
    | inr (t, live) ↦ rw (live, locked) (lock-Inv id s t live v)
  ]
  perform-Inv (releases id) s v = release-Inv e id s v

  run-Inv : (cs : List Call) (s : Client) → Inv s → Inv (run e cs s)
  unfolding run
  run-Inv [] s v = v
  run-Inv (c ∷ cs) s v = run-Inv cs (perform e c s) (perform-Inv c s v)

  -- Whatever calls a client router has had, from its beginning on, provided that the event handlers
  -- keep the invariant: every registered gateway lives and stands under its own tag, each tag once,
  -- every live gateway has an owner, and its tag counts, modulo 2 ^ 64, the gateways made before it.
  pub client_run-init-Inv : (cs : List Call) → Inv (run e cs init)
  client_run-init-Inv cs = run-Inv cs init init-Inv

  -- Until 2 ^ 64 gateways have been made, no two live gateways share a tag.
  pub tags_distinct :
      (cs : List Call) (i j : ℕ) (g h : Gateway)
      → (run e cs init).next_gateway < 2 ^ 64
      → find i (run e cs init).heap ≡ some g
      → find j (run e cs init).heap ≡ some h
      → g.tag ≡ h.tag
      → i ≡ j
  tags_distinct cs i j g h few fi fj same =
      ground (arith, (client_run-init-Inv cs).owned i, (client_run-init-Inv cs).owned j)
