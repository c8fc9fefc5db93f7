-- ===== src/Ipc/Server/Disconnection.antt =====
-- The end of a connection (`handlePipeEvent(Disconnected)` of src/common/ipc/server_router.cpp).
use mathlib.Core.Path.{subst}
use yakut_native.Base.{
  ℕ, ◌<◌, ◌≡◌, refl, sym, ap, ◌∙◌, inl, inr, List, [], ◌∷◌, ◌++◌, false, Option, none, some, arith,
  Map, find, erase, find-erase, contains-find, Option-cases, append_assoc, ==_refl, AllValues,
  AllValues-map, AllValues-of_find,
}
use yakut_native.Ipc.ErrorCode
use yakut_native.Ipc.Types.{Payload, Event, completed}
use yakut_native.Ipc.Server.{
  Gateway, Server, Env, Effect, delivered, is_connected, registered, gateway_send, lock, notify,
  notify_all, handle_disconnected,
}
use yakut_native.Ipc.Server.Registrations.{registered-erase}
use yakut_native.Ipc.Server.Invariant.{Inv}
use yakut_native.Ipc.Server.Sending.{gateway_send-not_connected}
use yakut_native.Ipc.Server.Quiet.{IsQuiet, IsNotified, locked_event_quiet, live_gateway}

-- One event to each gateway of a list, latest first.
abbrev pub deliveries : Event → Map ℕ → List Effect
deliveries event [] = []
deliveries event ((tag, id) ∷ rest) = deliveries event rest ++ delivered id event ∷ []

abbrev IsLive : Option Gateway → Type 0
IsLive none = ⊥
IsLive (some g) = 0 < g.refs

module _ (e : Env) (q : IsQuiet e) where
  notify_quiet :
      (id : ℕ) (event : Event) (s : Server)
      → IsLive (find id s.heap)
      → IsNotified id event s (notify e id event s)
  unfolding notify
  notify_quiet id event s live = elim (Option-cases (find id s.heap)) [
    | inl gone ↦ absurd (rw gone at live)
    | inr (g, found) ↦
        unfold lock in
        rw (found, notify) (locked_event_quiet e q id event s g found (rw found at live))
  ]

  notify_all_quiet :
      (event : Event) (gateways : Map ℕ) (s : Server)
      → AllValues (λ id. IsLive (find id s.heap)) gateways
      → let t = notify_all e event gateways s in
        (t.trace ≡ deliveries event gateways ++ s.trace)
        × (t.clients ≡ s.clients)
        × ((i : ℕ) → find i t.heap ≡ find i s.heap)
  unfolding notify_all
  notify_all_quiet event [] s live = (refl, refl, λ i. refl)
  notify_all_quiet event ((tag, id) ∷ rest) s live =
      let n : IsNotified id event s (notify e id event s) = notify_quiet id event s live.0 in
      let (traced, same, objects) =
        notify_all_quiet event rest (notify e id event s)
          (AllValues-map rest (λ i here. subst IsLive (sym (n.objects i)) here) live.1) in
      (
        traced
            ∙ ap (◌++◌ (deliveries event rest)) n.trace
            ∙ sym (append_assoc (deliveries event rest) (delivered id event ∷ []) s.trace),
        same ∙ n.clients,
        λ i. objects i ∙ n.objects i,
      )

  -- When a client goes away, each of its registered gateways is told so, in one event and with no
  -- other effect; the client is no longer connected, none of its gateways is registered, and in the state
  -- that this leaves, what any gateway of it sends is refused with `NotConnected` and changes nothing.
  pub handle_disconnected_completes :
      (client : ℕ) (gateways : Map ℕ) (s : Server) (id : ℕ) (g : Gateway)
      → Inv s
      → find client s.clients ≡ some gateways
      → find id s.heap ≡ some g
      → g.client_id ≡ client
      → let t = (handle_disconnected e client s).0 in
        (t.trace ≡ deliveries (completed ErrorCode.disconnected) gateways ++ s.trace)
        × (is_connected t client ≡ false)
        × ((tag : ℕ) → registered t.clients client tag ≡ none)
        × ((service : ℕ) (payload : Payload)
            → gateway_send e id service payload t ≡ (t, ErrorCode.not_connected))
  unfolding handle_disconnected
  handle_disconnected_completes client gateways s id g v present found own =
      rw (present, handle_disconnected)
        (
          loop.0,
          away,
          unregistered,
          λ service payload.
              gateway_send-not_connected e id service payload t g (loop.2 id ∙ found) (rw own away),
        )
    where
      s' : Server
      s' = record s { clients = erase client s.clients }

      t : Server
      t = notify_all e (completed ErrorCode.disconnected) gateways s'

      loop :
          (t.trace ≡ deliveries (completed ErrorCode.disconnected) gateways ++ s.trace)
          × (t.clients ≡ erase client s.clients)
          × ((i : ℕ) → find i t.heap ≡ find i s.heap)
      loop = notify_all_quiet (completed ErrorCode.disconnected) gateways s' (
          AllValues-of_find _ gateways (v.distinct client gateways present) (λ tag id h.
            let (g, found, owned, _, _) =
              live_gateway client tag id s v (unfold registered in ground arith) in
            subst IsLive (sym found) owned))

      away : is_connected t client ≡ false
      away =
          unfold is_connected in
          rw (loop.1, contains-find) (ground (arith, find-erase client client s.clients))

      unregistered : (tag : ℕ) → registered t.clients client tag ≡ none
      unregistered tag = rw (loop.1, registered-erase s.clients client client tag, ==_refl client)
