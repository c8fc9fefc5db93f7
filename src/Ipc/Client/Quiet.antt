-- ===== src/Ipc/Client/Quiet.antt =====
-- Event handlers that only keep what they are given, so that what the router of
-- src/common/ipc/client_router.cpp does itself can be stated exactly.
use mathlib.Core.Path.{subst}
use yakut_native.Base.{
  sym, AllValues, AllValues-of_find, ℕ, ◌+◌, ◌-◌, ◌<◌, ◌≡◌, refl, inl, inr, ◌∷◌, false, Option,
  none, some, arith, Map, find, assign, find-assign, leb, Option-cases,
}
use yakut_native.Ipc.Types.{Event, Payload, ChannelMsg, message}
use yakut_native.Ipc.Wire.{cut_routing}
use yakut_native.Ipc.Client.{
  Gateway, Client, Env, delivered, release, gateway_event, deliver, lock, handle_route_channel_msg,
}
use yakut_native.Ipc.Client.Invariant.{Inv}

pub record IsQuiet (e : Env) : Type 0 where
  pub invoke_quiet : (handler : ℕ) (event : Event) (s : Client) → (e.invoke handler event s).0 ≡ s

-- The state after one event, which is the only effect.
pub record IsNotified (id : ℕ) (event : Event) (s t : Client) : Type 0 where
  pub gateways : t.gateways ≡ s.gateways
  pub linked : t.linked ≡ s.linked
  pub objects : (i : ℕ) → find i t.heap ≡ find i s.heap
  pub trace : t.trace ≡ delivered id event ∷ s.trace

module _ (e : Env) (q : IsQuiet e) where
  deliver_quiet :
      (handler : Option ℕ) (event : Event) (s : Client) → (deliver e handler event s).0 ≡ s
  unfolding deliver
  deliver_quiet none event s = refl
  deliver_quiet (some handler) event s = q.invoke_quiet handler event s

  pub gateway_event_quiet :
      (id : ℕ) (event : Event) (s : Client) (g : Gateway)
      → find id s.heap ≡ some g
      → (gateway_event e id event s).0 ≡ record s { trace = delivered id event ∷ s.trace }
  unfolding gateway_event
  gateway_event_quiet id event s g found =
      rw (found, gateway_event) (deliver_quiet g.event_handler event _)

  -- The end of a reference that is not the last.
  pub release_shared :
      (id : ℕ) (s : Client) (g : Gateway)
      → find id s.heap ≡ some g
      → 1 < g.refs
      → release e id s ≡ record s { heap = assign id (record g { refs = g.refs - 1 }) s.heap }
  unfolding release
  release_shared id s g found shared = rw (found, release) (rw more refl)
    where
      more : leb g.refs 1 ≡ false
      more = ground arith

  -- An event under a lock, and the end of the lock.
  pub locked_event_quiet :
      (id : ℕ) (event : Event) (s : Client) (g : Gateway)
      → find id s.heap ≡ some g
      → 0 < g.refs
      → IsNotified id event s (
          release e id
            (gateway_event e id event
              (record s { heap = assign id (record g { refs = g.refs + 1 }) s.heap })).0)
  locked_event_quiet id event s g found owned =
      rw (gateway_event_quiet id event (record s { heap = heap }) g' here) (
        rw
          (release_shared id (record s { heap = heap; trace = delivered id event ∷ s.trace }) g'
            here (omega arith))
          (record {
            gateways = refl;
            linked = refl;
            objects = λ i. ground (
              arith,
              find-assign i id (record g' { refs = g'.refs - 1 }) heap,
              find-assign i id g' s.heap,
            );
            trace = refl;
          }))
    where
      g' : Gateway
      g' = record g { refs = g.refs + 1 }

      heap : Map Gateway
      heap = assign id g' s.heap

      here : find id heap ≡ some g'
      here = ground (arith, find-assign id id g' s.heap)

-- The object of a registered gateway.
pub live_gateway :
    (tag id : ℕ) (s : Client)
    → Inv s
    → find tag s.gateways ≡ some id
    → (g : Gateway) × (find id s.heap ≡ some g) × (0 < g.refs) × (g.tag ≡ tag)
live_gateway tag id s v h = elim (Option-cases (find id s.heap)) [
  | inl gone ↦ absurd (ground (arith, v.alive tag id h))
  | inr (g, found) ↦ (g, found, ground (arith, v.owned id), ground (arith, v.alive tag id h))
]

abbrev pub IsLive : Option Gateway → Type 0
IsLive none = ⊥
IsLive (some g) = 0 < g.refs

pub all-IsLive : (s : Client) → Inv s → AllValues (λ id. IsLive (find id s.heap)) s.gateways
all-IsLive s v = AllValues-of_find _ s.gateways v.distinct (λ tag id h.
    let (g, found, owned, _) = live_gateway tag id s v h in subst IsLive (sym found) owned)

-- A channel message reaches the gateway that is registered under its tag, without its routing prefix.
pub handle_route_channel_msg_delivers :
    (e : Env) (q : IsQuiet e) (m : ChannelMsg) (payload : Payload) (id : ℕ) (s : Client)
    → Inv s
    → find m.tag s.gateways ≡ some id
    → IsNotified id
        (message m.sequence (cut_routing e.wire payload m))
        s
        (handle_route_channel_msg e m payload s).0
unfolding handle_route_channel_msg lock
handle_route_channel_msg_delivers e q m payload id s v taken =
    let (g, found, owned, _) = live_gateway m.tag id s v taken in
    rw (taken, handle_route_channel_msg, found)
      (locked_event_quiet e q id (message m.sequence (cut_routing e.wire payload m)) s g found
        owned)
