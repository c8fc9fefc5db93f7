-- ===== src/Ipc/Server/Attending.antt =====
-- A channel whose handler and factory keep it (src/common/ipc/server_router.cpp): what its gateway is given.
use yakut_native.Base.{
  ℕ, ◌+◌, ◌-◌, ◌<◌, ◌≡◌, refl, ◌∙◌, inl, inr, List, [], ◌∷◌, true, false, Option, none, some, arith,
  Map, find, assign, find-assign, contains-find, leb, Option-cases, ◌==◌, ==_refl, if◌then◌else◌,
}
use yakut_native.Ipc.Types.{Payload, connected, message, completed, ChannelMsg}
use yakut_native.Ipc.Wire.{cut_routing}
use yakut_native.Ipc.Server.{
  Gateway, Server, Env, Effect, sent, delivered, opened, is_connected, registered, lock, release,
  deliver, gateway_event, new_gateway, create_gateway, open_channel, handle_route_channel_msg,
}

-- The opening and the messages of one gateway, latest first.
abbrev pub channel_events : ℕ → List Effect → List Effect
channel_events id [] = []
channel_events id (sent client fragments ∷ es) = channel_events id es
channel_events id (delivered i connected ∷ es) = channel_events id es
channel_events id (delivered i (completed err) ∷ es) = channel_events id es
channel_events id (delivered i (message sequence p) ∷ es) =
    let rest = channel_events id es in
    if i == id then delivered i (message sequence p) ∷ rest else rest
channel_events id (opened factory i p ∷ es) =
    let rest = channel_events id es in if i == id then opened factory i p ∷ rest else rest

-- The gateway is registered, with more than so many references.
abbrev pub IsHeld : ℕ → ℕ → ℕ → ℕ → Server → Type 0
IsHeld least peer tag id s =
    (registered s.clients peer tag ≡ some id)
    × (g : Gateway) × (find id s.heap ≡ some g)
    × (least < g.refs)

-- The handler of the gateway, when it is given a message, keeps the gateway registered and referred to, beside the
-- reference of the caller, and gives it no message itself.
pub record Minds (e : Env) (peer tag id : ℕ) : Type 0 where
  pub invoke_minds :
      (handler sequence : ℕ) (payload : Payload) (s : Server) (g : Gateway)
      → find id s.heap ≡ some g
      → g.event_handler ≡ some handler
      → IsHeld 1 peer tag id s
      → let t = (e.invoke handler (message sequence payload) s).0 in
        IsHeld 1 peer tag id t × (channel_events id t.trace ≡ channel_events id s.trace)

-- So does a factory that is given the gateway with this payload.
abbrev pub Adopts : Env → ℕ → ℕ → ℕ → ℕ → Payload → Type 0
Adopts e peer tag id factory payload =
    (s : Server)
    → IsHeld 1 peer tag id s
    → let t = e.construct factory id payload s in
      IsHeld 1 peer tag id t × (channel_events id t.trace ≡ channel_events id s.trace)

pub registered_in :
    (s : Server) (client tag id : ℕ)
    → registered s.clients client tag ≡ some id
    → (gateways : Map ℕ) × (find client s.clients ≡ some gateways) × (find tag gateways ≡ some id)
unfolding registered
registered_in s client tag id h = elim (Option-cases (find client s.clients)) [
  | inl absent ↦ absurd (ground arith)
  | inr (gateways, present) ↦ (gateways, present, ground arith)
]

pub free_in :
    (s : Server) (client tag : ℕ)
    → registered s.clients client tag ≡ none
    → is_connected s client ≡ true
    → (gateways : Map ℕ) × (find client s.clients ≡ some gateways) × (find tag gateways ≡ none)
unfolding registered is_connected
free_in s client tag h linked = elim (Option-cases (find client s.clients)) [
  | inl absent ↦ absurd (ground (arith, contains-find client s.clients))
  | inr (gateways, present) ↦ (gateways, present, ground arith)
]

module _ (e : Env) (peer tag id : ℕ) where
  -- What is so after the gateway had these events.
  abbrev pub Has : ℕ → List Effect → Server → Type 0
  Has least effects t = IsHeld least peer tag id t × (channel_events id t.trace ≡ effects)

  -- The end of the caller's reference.
  release-Has :
      (effects : List Effect) (s : Server) → Has 1 effects s → Has 0 effects (release e id s)
  unfolding release
  release-Has effects s ((there, g, found, shared), same) =
      rw (found, release)
        (rw more (
          (
            there,
            record g { refs = g.refs - 1 },
            rw (find-assign id id (record g { refs = g.refs - 1 }) s.heap, ==_refl id) refl,
            omega arith,
          ),
          same,
        ))
    where
      more : leb g.refs 1 ≡ false
      more = ground arith

  deliver-Has :
      (sequence : ℕ) (payload : Payload) (s : Server) (g : Gateway) (handler : Option ℕ)
      → Minds e peer tag id
      → find id s.heap ≡ some g
      → g.event_handler ≡ handler
      → IsHeld 1 peer tag id s
      → Has 1 (channel_events id s.trace) (deliver e handler (message sequence payload) s).0
  unfolding deliver
  deliver-Has sequence payload s g none minds found own held = (held, refl)
  deliver-Has sequence payload s g (some handler) minds found own held =
      minds.invoke_minds handler sequence payload s g found own held

  gateway_event-Has :
      (sequence : ℕ) (payload : Payload) (s : Server)
      → Minds e peer tag id
      → IsHeld 1 peer tag id s
      → Has 1
          (delivered id (message sequence payload) ∷ channel_events id s.trace)
          (gateway_event e id (message sequence payload) s).0
  unfolding gateway_event
  gateway_event-Has sequence payload s minds (there, g, found, shared) =
      rw (found, gateway_event) (told.0, told.1 ∙ (rw (==_refl id) refl))
    where
      told :
          let u : Server = record s { trace = delivered id (message sequence payload) ∷ s.trace } in
          Has 1
            (channel_events id u.trace)
            (deliver e g.event_handler (message sequence payload) u).0
      told =
          deliver-Has sequence payload
            (record s { trace = delivered id (message sequence payload) ∷ s.trace }) g
            g.event_handler minds found refl (there, g, found, shared)

-- A message for the gateway.
pub handle_route_channel_msg-Has :
    (e : Env) (peer id : ℕ) (m : ChannelMsg) (bytes : Payload) (s : Server)
    → Minds e peer m.tag id
    → IsHeld 0 peer m.tag id s
    → Has e peer m.tag id 0
        (delivered id (message m.sequence (cut_routing e.wire bytes m)) ∷ channel_events id s.trace)
        (handle_route_channel_msg e peer m bytes s).0
unfolding handle_route_channel_msg lock
handle_route_channel_msg-Has e peer id m bytes s minds (there, g, found, owned) =
    let (gateways, present, taken) = registered_in s peer m.tag id there in
    rw (present, handle_route_channel_msg, taken, found)
      (release-Has e peer m.tag id _ _ (
        gateway_event-Has e peer m.tag id m.sequence (cut_routing e.wire bytes m)
          (record s { heap = assign id g' s.heap }) minds
          (there, g', rw (find-assign id id g' s.heap, ==_refl id) refl, omega arith)))
  where
    g' : Gateway
    g' = record g { refs = g.refs + 1 }

-- The first message, which opens the channel.
pub open_channel-Has :
    (e : Env) (peer : ℕ) (gateways : Map ℕ) (m : ChannelMsg) (bytes : Payload) (factory : ℕ)
    (s : Server)
    → find peer s.clients ≡ some gateways
    → find m.tag gateways ≡ none
    → m.sequence ≡ 0
    → find m.service_id s.factories ≡ some factory
    → Adopts e peer m.tag s.next_gateway factory (cut_routing e.wire bytes m)
    → Has e peer m.tag s.next_gateway 0
        (opened factory s.next_gateway (cut_routing e.wire bytes m)
          ∷ channel_events s.next_gateway s.trace)
        (handle_route_channel_msg e peer m bytes s).0
unfolding handle_route_channel_msg open_channel cut_routing create_gateway
open_channel-Has e peer gateways m bytes factory s present free first known adopts =
    rw (present, handle_route_channel_msg, free)
      (rw (first, open_channel, known)
        (release-Has e peer m.tag s.next_gateway _ _
          (let u = adopts made made_held in (u.0, u.1 ∙ (rw (==_refl s.next_gateway) refl)))))
  where
    made : Server
    made =
        let t = create_gateway peer m.tag gateways s in
        record t { trace = opened factory s.next_gateway (cut_routing e.wire bytes m) ∷ t.trace }

    made_held : IsHeld 1 peer m.tag s.next_gateway made
    made_held =
        unfold create_gateway new_gateway registered in
        (
          ground (
            arith,
            find-assign peer peer (assign m.tag s.next_gateway gateways) s.clients,
            find-assign m.tag m.tag s.next_gateway gateways,
            ==_refl peer,
            ==_refl m.tag,
          ),
          new_gateway peer m.tag,
          rw
              (
                find-assign s.next_gateway s.next_gateway (new_gateway peer m.tag) s.heap,
                ==_refl s.next_gateway,
              )
              refl,
          omega arith,
        )
