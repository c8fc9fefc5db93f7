-- ===== src/Ipc/Server/Unseen.antt =====
-- What the router does with the gateways of one client, as another client sees it
-- (src/common/ipc/server_router.cpp).
use yakut_native.Base.{
  ℕ, ◌≡◌, ◌≢◌, refl, ◌∙◌, inl, inr, [], ◌∷◌, Option, none, some, arith, Map, find, assign,
  find-assign, Option-cases, AllValues, AllValues-map,
}
use yakut_native.Ipc.Types.{Payload, Event}
use yakut_native.Ipc.Server.{
  Gateway, Server, Env, opened, registered, lock, release, gateway_event, deliver, notify,
  notify_all, new_gateway, create_gateway,
}
use yakut_native.Ipc.Server.Invariant.{Inv}
use yakut_native.Ipc.Server.Isolation.{
  of_client, IsSameFor, IsSameFor-refl, IsSameFor-trans, Spares, lock_same, release_same,
}

-- A gateway that is registered for another client.
pub foreign :
    (c client tag id : ℕ) (s : Server)
    → client ≢ c
    → Inv s
    → registered s.clients client tag ≡ some id
    → of_client c (find id s.heap) ≡ none
foreign c client tag id s other v h = ground (arith, v.alive client tag id h)

pub foreign_entry :
    (c client tag id : ℕ) (s : Server) (gateways : Map ℕ)
    → client ≢ c
    → Inv s
    → find client s.clients ≡ some gateways
    → find tag gateways ≡ some id
    → of_client c (find id s.heap) ≡ none
foreign_entry c client tag id s gateways other v present h =
    foreign c client tag id s other v (unfold registered in ground arith)

pub no_object_yet : (c : ℕ) (s : Server) → Inv s → of_client c (find s.next_gateway s.heap) ≡ none
no_object_yet c s v = ground (arith, v.owned s.next_gateway)

-- The state in which the factory of a new gateway is called.
pub opened_same :
    (c client tag factory : ℕ) (gateways : Map ℕ) (payload : Payload) (s : Server)
    → client ≢ c
    → Inv s
    → let t = create_gateway client tag gateways s in
      IsSameFor c s (record t { trace = opened factory s.next_gateway payload ∷ t.trace })
unfolding create_gateway
opened_same c client tag factory gateways payload s other v = record {
  gateways = ground (arith, find-assign c client (assign tag s.next_gateway gateways) s.clients);
  objects = λ i.
      ground
        (arith, no_object_yet c s v, find-assign i s.next_gateway (new_gateway client tag) s.heap);
  messages = refl;
}

module _ (c : ℕ) (e : Env) (k : Spares c e) where
  deliver_same :
      (id : ℕ) (g : Gateway) (handler : Option ℕ) (event : Event) (s : Server)
      → find id s.heap ≡ some g
      → g.client_id ≢ c
      → g.event_handler ≡ handler
      → IsSameFor c s (deliver e handler event s).0
  unfolding deliver
  deliver_same id g none event s found other held = IsSameFor-refl c s
  deliver_same id g (some handler) event s found other held =
      k.invoke_same id handler event s g found other held

  pub gateway_event_same :
      (id : ℕ) (event : Event) (s : Server)
      → of_client c (find id s.heap) ≡ none
      → IsSameFor c s (gateway_event e id event s).0
  unfolding gateway_event
  gateway_event_same id event s foreign_one = elim (Option-cases (find id s.heap)) [
    | inl gone ↦ rw (gone, gateway_event) (IsSameFor-refl c s)
    | inr (g, found) ↦
        rw (found, gateway_event)
          (IsSameFor-trans (record { gateways = refl; objects = λ i. refl; messages = refl })
            (deliver_same id g g.event_handler event _ found (λ own. ground arith) refl))
  ]

  -- What runs under a lock of another client's gateway.
  pub under_lock_same :
      (id : ℕ) (s t u : Server)
      → of_client c (find id s.heap) ≡ none
      → lock id s ≡ some t
      → IsSameFor c t u
      → IsSameFor c s (release e id u)
  under_lock_same id s t u other live act = IsSameFor-trans (lock_same c id s t other live) (
      IsSameFor-trans act (
        release_same c e id u
          (act.objects id ∙ (lock_same c id s t other live).objects id ∙ other)))

  notify_same :
      (id : ℕ) (event : Event) (s : Server)
      → of_client c (find id s.heap) ≡ none
      → IsSameFor c s (notify e id event s)
  unfolding notify
  notify_same id event s other = elim (Option-cases (lock id s)) [
    | inl dead ↦ rw (dead, notify) (IsSameFor-refl c s)
    | inr (t, live) ↦
        rw (live, notify)
          (under_lock_same id s t _ other live
            (gateway_event_same id event t ((lock_same c id s t other live).objects id ∙ other)))
  ]

  pub notify_all_same :
      (event : Event) (gateways : Map ℕ) (s : Server)
      → AllValues (λ id. of_client c (find id s.heap) ≡ none) gateways
      → IsSameFor c s (notify_all e event gateways s)
  unfolding notify_all
  notify_all_same event [] s others = IsSameFor-refl c s
  notify_all_same event ((tag, id) ∷ rest) s others =
      let first : IsSameFor c s (notify e id event s) = notify_same id event s others.0 in
      IsSameFor-trans first (
        notify_all_same event rest (notify e id event s)
          (AllValues-map rest (λ i none_yet. first.objects i ∙ none_yet) others.1))
