-- ===== src/Ipc/Server/Steps.antt =====
-- The operations of src/common/ipc/server_router.cpp keep the invariant, whatever the event handlers
-- and channel factories do with the router, as long as that keeps it too.
use yakut_native.Base.{
  insert, ◌⊎◌, find-erase, ℕ, ◌≡◌, refl, inl, inr, [], ◌∷◌, Option, none, some, arith, ℤ, Map, find,
  Option-cases, Bool-cases,
}
use yakut_native.Ipc.Types.{Payload, Event, connected}
use yakut_native.Ipc.Server.{
  Server, Env, is_connected, deliver, registered, lock, gateway_event, gateway_subscribe,
  find_and_act_on_registered_gateway, on_gateway_subscription, notify, notify_all,
  handle_disconnected, handle_route_connect,
}
use yakut_native.Ipc.Server.Registrations.{AreDistinct-insert, registered-erase, registered-insert}
use yakut_native.Ipc.Server.Invariant.{
  Inv, fewer-Inv, traced-Inv, update-Inv, lock-Inv, release-Inv,
}

-- The code behind the callbacks reaches the router through its operations, which keep the invariant.
pub record Keeps (e : Env) : Type 0 where
  pub invoke_Inv :
      (handler : ℕ) (event : Event) (s : Server) → Inv s → Inv (e.invoke handler event s).0
  pub construct_Inv :
      (factory id : ℕ) (payload : Payload) (s : Server)
      → Inv s
      → Inv (e.construct factory id payload s)

module _ (e : Env) (k : Keeps e) where
  deliver-Inv :
      (handler : Option ℕ) (event : Event) (s : Server) → Inv s → Inv (deliver e handler event s).0
  unfolding deliver
  deliver-Inv none event s v = v
  deliver-Inv (some handler) event s v = k.invoke_Inv handler event s v

  pub gateway_event-Inv :
      (id : ℕ) (event : Event) (s : Server) → Inv s → Inv (gateway_event e id event s).0
  unfolding gateway_event
  gateway_event-Inv id event s v = elim (Option-cases (find id s.heap)) [
    | inl gone ↦ rw (gone, gateway_event) v
    | inr (g, found) ↦
        rw (found, gateway_event)
          (deliver-Inv g.event_handler event _ (traced-Inv s _ refl refl refl v))
  ]

  pub find_and_act-Inv :
      (client tag : ℕ) (action : ℕ → Server → Server × ℤ) (s : Server)
      → ((id : ℕ) (t : Server)
          → registered s.clients client tag ≡ some id
          → lock id s ≡ some t
          → Inv t
          → Inv (action id t).0)
      → Inv s
      → Inv (find_and_act_on_registered_gateway e client tag action s).0
  unfolding find_and_act_on_registered_gateway
  find_and_act-Inv client tag action s keep v =
      elim (Option-cases (registered s.clients client tag)) [
        | inl absent ↦ rw (absent, find_and_act_on_registered_gateway) v
        | inr (id, present) ↦ elim (Option-cases (lock id s)) [
          | inl dead ↦ rw (present, find_and_act_on_registered_gateway, dead) v
          | inr (t, live) ↦
              rw (present, find_and_act_on_registered_gateway, live)
                (release-Inv e id _ (keep id t present live (lock-Inv id s t live v)))
        ]
      ]

  on_gateway_subscription-Inv :
      (client tag : ℕ) (s : Server) → Inv s → Inv (on_gateway_subscription e client tag s)
  unfolding on_gateway_subscription
  on_gateway_subscription-Inv client tag s v = elim (Bool-cases (is_connected s client)) [
    | inl c ↦
        rw (c, on_gateway_subscription)
          (find_and_act-Inv client tag _ s (λ id t _ _ w. gateway_event-Inv id connected t w) v)
    | inr d ↦ rw (d, on_gateway_subscription) v
  ]

  pub gateway_subscribe-Inv :
      (id : ℕ) (handler : Option ℕ) (s : Server) → Inv s → Inv (gateway_subscribe e id handler s)
  unfolding gateway_subscribe
  gateway_subscribe-Inv id handler s v = elim (Option-cases (find id s.heap)) [
    | inl gone ↦ rw (gone, gateway_subscribe) v
    | inr (g, found) ↦
        rw (found, gateway_subscribe)
          (on_gateway_subscription-Inv g.client_id g.tag _
            (update-Inv s id g _ found refl refl (ground (arith, v.owned id)) v))
  ]

  notify-Inv : (id : ℕ) (event : Event) (s : Server) → Inv s → Inv (notify e id event s)
  unfolding notify
  notify-Inv id event s v = elim (Option-cases (lock id s)) [
    | inl dead ↦ rw (dead, notify) v
    | inr (t, live) ↦
        rw (live, notify)
          (release-Inv e id _ (gateway_event-Inv id event t (lock-Inv id s t live v)))
  ]

  notify_all-Inv :
      (event : Event) (gateways : Map ℕ) (s : Server) → Inv s → Inv (notify_all e event gateways s)
  unfolding notify_all
  notify_all-Inv event [] s v = v
  notify_all-Inv event ((tag, id) ∷ rest) s v =
      notify_all-Inv event rest (notify e id event s) (notify-Inv id event s v)

  pub handle_disconnected-Inv :
      (client : ℕ) (s : Server) → Inv s → Inv (handle_disconnected e client s).0
  unfolding handle_disconnected
  handle_disconnected-Inv client s v = elim (Option-cases (find client s.clients)) [
    | inl absent ↦ rw (absent, handle_disconnected) v
    | inr (gateways, present) ↦
        rw (present, handle_disconnected)
          (notify_all-Inv _ gateways _ (
            fewer-Inv s _ refl refl
              (λ c t id h. ground (arith, registered-erase s.clients client c t))
              (λ c gs h. v.distinct c gs (ground (arith, find-erase c client s.clients))) v))
  ]

  pub handle_route_connect-Inv :
      (client : ℕ) (s : Server) → Inv s → Inv (handle_route_connect e client s).0
  unfolding handle_route_connect
  handle_route_connect-Inv client s v =
      fewer-Inv s _ (ground arith) (ground arith)
        (λ c t id h. ground (arith, registered-insert s.clients client c t))
        (elim (one_of refl) [
          | inl grown ↦ rw grown (AreDistinct-insert client s.clients v.distinct)
          | inr kept ↦ rw kept v.distinct
        ])
        v
    where
      one_of :
          {t : Server}
          → t ≡ (handle_route_connect e client s).0
          → (t.clients ≡ insert client [] s.clients) ⊎ (t.clients ≡ s.clients)
      one_of h = ground arith
