-- ===== src/Ipc/Client/Steps.antt =====
-- What the gateways of src/common/ipc/client_router.cpp do keeps the invariant, whatever the event
-- handlers do with the router, as long as that keeps it too.
use yakut_native.Base.{
  if_intro, contains, ℕ, ◌+◌, refl, inl, inr, List, [], ◌∷◌, Option, none, some, arith, ℤ, Map,
  find, Option-cases,
}
use yakut_native.Ipc.Types.{Payload, u64, Event, connected}
use yakut_native.Ipc.Client.{
  Client, Env, lock, release, deliver, gateway_event, gateway_send, gateway_complete,
  gateway_subscribe, on_gateway_subscription, find_and_act_on_registered_gateway, lock_all,
  event_each, release_each, notify, notify_all,
}
use yakut_native.Ipc.Client.Invariant.{Inv, same-Inv, update-Inv, lock-Inv, release-Inv}

-- The code behind the callbacks reaches the router through its operations, which keep the invariant.
pub record Keeps (e : Env) : Type 0 where
  pub invoke_Inv :
      (handler : ℕ) (event : Event) (s : Client) → Inv s → Inv (e.invoke handler event s).0

pub gateway_complete-Inv : (id : ℕ) (err : ℤ) (s : Client) → Inv s → Inv (gateway_complete id err s)
unfolding gateway_complete
gateway_complete-Inv id err s v = elim (Option-cases (find id s.heap)) [
  | inl gone ↦ rw (gone, gateway_complete) v
  | inr (g, found) ↦
      rw (found, gateway_complete) (update-Inv s id g _ found refl (ground (arith, v.owned id)) v)
]

pub lock_all-Inv : (gateways : Map ℕ) (s : Client) → Inv s → Inv (lock_all gateways s).1
unfolding lock_all
lock_all-Inv [] s v = v
lock_all-Inv ((tag, id) ∷ rest) s v = elim (Option-cases (lock id s)) [
  | inl dead ↦ rw (dead, lock_all) (lock_all-Inv rest s v)
  | inr (t, live) ↦ rw (live, lock_all) (lock_all-Inv rest t (lock-Inv id s t live v))
]

pub release_each-Inv : (e : Env) (ids : List ℕ) (s : Client) → Inv s → Inv (release_each e ids s)
unfolding release_each
release_each-Inv e [] s v = v
release_each-Inv e (id ∷ ids) s v = release_each-Inv e ids (release e id s) (release-Inv e id s v)

pub gateway_send-Inv :
    (e : Env) (id service : ℕ) (payload : Payload) (s : Client)
    → Inv s
    → Inv (gateway_send e id service payload s).0
unfolding gateway_send
gateway_send-Inv e id service payload s v = elim (Option-cases (find id s.heap)) [
  | inl gone ↦ rw (gone, gateway_send) v
  | inr (g, found) ↦
      rw (found, gateway_send)
        (if_intro (λ (r : Client × ℤ). Inv r.0) s.linked _ _
          (λ _.
            if_intro (λ (r : Client × ℤ). Inv r.0) (contains g.tag s.gateways) _ _
              (λ _. same-Inv _ _ (ground arith) (ground arith) (ground arith) (ground arith) (
                update-Inv s id g (record g { next_sequence = u64 (g.next_sequence + 1) }) found
                  refl (ground (arith, v.owned id)) v))
              (λ _. v))
          (λ _. v))
]

module _ (e : Env) (k : Keeps e) where
  deliver-Inv :
      (handler : Option ℕ) (event : Event) (s : Client) → Inv s → Inv (deliver e handler event s).0
  unfolding deliver
  deliver-Inv none event s v = v
  deliver-Inv (some handler) event s v = k.invoke_Inv handler event s v

  pub gateway_event-Inv :
      (id : ℕ) (event : Event) (s : Client) → Inv s → Inv (gateway_event e id event s).0
  unfolding gateway_event
  gateway_event-Inv id event s v = elim (Option-cases (find id s.heap)) [
    | inl gone ↦ rw (gone, gateway_event) v
    | inr (g, found) ↦
        rw (found, gateway_event)
          (deliver-Inv g.event_handler event _ (same-Inv s _ refl refl refl refl v))
  ]

  pub event_each-Inv :
      (event : Event) (ids : List ℕ) (s : Client) → Inv s → Inv (event_each e event ids s)
  unfolding event_each
  event_each-Inv event [] s v = v
  event_each-Inv event (id ∷ ids) s v =
      event_each-Inv event ids (gateway_event e id event s).0 (gateway_event-Inv id event s v)

  pub find_and_act-Inv :
      (tag : ℕ) (action : ℕ → Client → Client × ℤ) (s : Client)
      → ((id : ℕ) (t : Client) → Inv t → Inv (action id t).0)
      → Inv s
      → Inv (find_and_act_on_registered_gateway e tag action s).0
  unfolding find_and_act_on_registered_gateway
  find_and_act-Inv tag action s keep v = elim (Option-cases (find tag s.gateways)) [
    | inl absent ↦ rw (absent, find_and_act_on_registered_gateway) v
    | inr (id, present) ↦ elim (Option-cases (lock id s)) [
      | inl dead ↦ rw (present, find_and_act_on_registered_gateway, dead) v
      | inr (t, live) ↦
          rw (present, find_and_act_on_registered_gateway, live)
            (release-Inv e id _ (keep id t (lock-Inv id s t live v)))
    ]
  ]

  pub on_gateway_subscription-Inv :
      (tag : ℕ) (s : Client) → Inv s → Inv (on_gateway_subscription e tag s)
  unfolding on_gateway_subscription
  on_gateway_subscription-Inv tag s v =
      if_intro Inv s.linked _ _
        (λ _.
          find_and_act-Inv tag (λ id. gateway_event e id connected) s
            (λ id t w. gateway_event-Inv id connected t w) v)
        (λ _. v)

  pub gateway_subscribe-Inv :
      (id : ℕ) (handler : Option ℕ) (s : Client) → Inv s → Inv (gateway_subscribe e id handler s)
  unfolding gateway_subscribe
  gateway_subscribe-Inv id handler s v = elim (Option-cases (find id s.heap)) [
    | inl gone ↦ rw (gone, gateway_subscribe) v
    | inr (g, found) ↦
        rw (found, gateway_subscribe)
          (on_gateway_subscription-Inv g.tag _
            (update-Inv s id g _ found refl (ground (arith, v.owned id)) v))
  ]

  notify-Inv : (id : ℕ) (event : Event) (s : Client) → Inv s → Inv (notify e id event s)
  unfolding notify
  notify-Inv id event s v = elim (Option-cases (lock id s)) [
    | inl dead ↦ rw (dead, notify) v
    | inr (t, live) ↦
        rw (live, notify)
          (release-Inv e id _ (gateway_event-Inv id event t (lock-Inv id s t live v)))
  ]

  pub notify_all-Inv :
      (event : Event) (gateways : Map ℕ) (s : Client) → Inv s → Inv (notify_all e event gateways s)
  unfolding notify_all
  notify_all-Inv event [] s v = v
  notify_all-Inv event ((tag, id) ∷ rest) s v =
      notify_all-Inv event rest (notify e id event s) (notify-Inv id event s v)
