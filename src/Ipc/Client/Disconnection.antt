-- ===== src/Ipc/Client/Disconnection.antt =====
-- The end of the client's connection (`handlePipeEvent(Disconnected)` of
-- src/common/ipc/client_router.cpp).
use mathlib.Core.Path.{subst}
use yakut_native.Base.{
  ℕ, ◌≡◌, refl, sym, ap, ◌∙◌, inl, inr, [], ◌∷◌, ◌++◌, true, false, some, ℤ, pos, Map, find,
  Option-cases, if_intro, AllValues, AllValues-map, append_assoc,
}
use yakut_native.Ipc.ErrorCode
use yakut_native.Ipc.Types.{Payload, Event, completed}
use yakut_native.Ipc.Client.{
  Gateway, Client, Env, delivered, lock, is_connected, gateway_send, handle_disconnected, notify,
  notify_all,
}
use yakut_native.Ipc.Client.Invariant.{Inv}
use yakut_native.Ipc.Client.Quiet.{IsQuiet, IsNotified, locked_event_quiet, IsLive, all-IsLive}
use yakut_native.Ipc.Client.Handshake.{deliveries, values}
use yakut_native.Ipc.Client.Sending.{gateway_send-not_connected}

-- Before the server has answered, the loss of the pipe is told to no gateway and changes nothing.
pub handle_disconnected_unlinked :
    (e : Env) (s : Client) → s.linked ≡ false → handle_disconnected e s ≡ (s, pos 0)
unfolding handle_disconnected
handle_disconnected_unlinked e s away =
    if_intro (λ (r : Client × ℤ). r ≡ (s, pos 0)) s.linked _ _ (λ on. cc) (λ _. refl)

module _ (e : Env) (q : IsQuiet e) where
  notify_quiet :
      (id : ℕ) (event : Event) (s : Client)
      → IsLive (find id s.heap)
      → IsNotified id event s (notify e id event s)
  unfolding notify lock
  notify_quiet id event s live = elim (Option-cases (find id s.heap)) [
    | inl gone ↦ absurd (rw gone at live)
    | inr (g, found) ↦
        rw (found, notify) (locked_event_quiet e q id event s g found (rw found at live))
  ]

  notify_all_quiet :
      (event : Event) (gateways : Map ℕ) (s : Client)
      → AllValues (λ id. IsLive (find id s.heap)) gateways
      → let t = notify_all e event gateways s in
        (t.trace ≡ deliveries event (values gateways) ++ s.trace)
        × (t.gateways ≡ s.gateways)
        × (t.linked ≡ s.linked)
        × ((i : ℕ) → find i t.heap ≡ find i s.heap)
  unfolding notify_all
  notify_all_quiet event [] s live = (refl, refl, refl, λ i. refl)
  notify_all_quiet event ((tag, id) ∷ rest) s live =
      let n : IsNotified id event s (notify e id event s) = notify_quiet id event s live.0 in
      let (traced, same, linked, objects) =
        notify_all_quiet event rest (notify e id event s)
          (AllValues-map rest (λ i here. subst IsLive (sym (n.objects i)) here) live.1) in
      (
        traced
            ∙ ap (◌++◌ (deliveries event (values rest))) n.trace
            ∙ sym (append_assoc (deliveries event (values rest)) (delivered id event ∷ []) s.trace),
        same ∙ n.gateways,
        linked ∙ n.linked,
        λ i. objects i ∙ n.objects i,
      )

  -- When a linked client loses the pipe, each registered gateway is told so, in one event and with no
  -- other effect; no gateway is registered any more, and in the state that this leaves, what a
  -- gateway sends is refused with `NotConnected` and changes nothing.
  pub client_disconnected_completes :
      (s : Client) (id : ℕ) (g : Gateway)
      → Inv s
      → s.linked ≡ true
      → find id s.heap ≡ some g
      → let t = (handle_disconnected e s).0 in
        (t.trace ≡ deliveries (completed ErrorCode.disconnected) (values s.gateways) ++ s.trace)
        × (t.linked ≡ false)
        × (t.gateways ≡ [])
        × ((service : ℕ) (payload : Payload)
            → gateway_send e id service payload t ≡ (t, ErrorCode.not_connected))
  client_disconnected_completes s id g v on found = rw first (
    told.0,
    told.2,
    told.1,
    λ service payload.
        gateway_send-not_connected e id service payload t g (told.3 id ∙ found)
          (unfold is_connected in told.2),
  )
    where
      s' : Client
      s' = record s { linked = false; gateways = [] }

      t : Client
      t = notify_all e (completed ErrorCode.disconnected) s.gateways s'

      first : handle_disconnected e s ≡ (t, pos 0)
      first =
          unfold handle_disconnected in
          if_intro (λ (r : Client × ℤ). r ≡ (t, pos 0)) s.linked _ _ (λ _. refl) (λ off. cc)

      told :
          (t.trace ≡ deliveries (completed ErrorCode.disconnected) (values s.gateways) ++ s.trace)
          × (t.gateways ≡ [])
          × (t.linked ≡ false)
          × ((i : ℕ) → find i t.heap ≡ find i s.heap)
      told = notify_all_quiet (completed ErrorCode.disconnected) s.gateways s' (all-IsLive s v)
