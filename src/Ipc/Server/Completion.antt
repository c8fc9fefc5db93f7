-- ===== src/Ipc/Server/Completion.antt =====
-- How a channel ends, from either side (src/common/ipc/server_router.cpp).
use mathlib.Core.Path.{subst}
use yakut_native.Base.{
  ℕ, ◌+◌, ◌<◌, ◌≡◌, refl, sym, ◌∙◌, inl, inr, List, [], ◌∷◌, ◌++◌, true, false, ◌&&◌, none, some,
  arith, ℤ, pos, Map, find, assign, erase, find-assign, find-erase, contains-find, is_some,
  Option-cases, ◌==◌, ==_refl, ==_ne, if◌then◌else◌, leb,
}
use yakut_native.Ipc.ErrorCode
use yakut_native.Ipc.Types.{Payload, completed, ChannelMsg, channel_end}
use yakut_native.Ipc.Wire.{Wire}
use yakut_native.Ipc.Server.{
  Gateway, Server, Env, Effect, sent, delivered, is_connected, is_registered_gateway, registered,
  gateway_send, gateway_event, release, lock, handle_route_channel_end, handle_route_channel_msg,
  open_channel, find_and_act_on_registered_gateway, gateway_complete, on_gateway_disposal,
}
use yakut_native.Ipc.Server.Registrations.{erase-registered}
use yakut_native.Ipc.Server.Invariant.{Inv, disposal-registered}
use yakut_native.Ipc.Server.Quiet.{IsQuiet, IsNotified, locked_event_quiet, live_gateway}
use yakut_native.Ipc.Server.Sending.{gateway_send-shutdown}

pub is_registered-registered :
    (s : Server) (client tag : ℕ)
    → is_registered_gateway s client tag ≡ is_some (registered s.clients client tag)
unfolding is_registered_gateway registered
is_registered-registered s client tag = elim (Option-cases (find client s.clients)) [
  | inl absent ↦ rw (absent, is_registered_gateway, registered)
  | inr (gateways, present) ↦
      rw (present, is_registered_gateway, registered) (contains-find tag gateways)
]

gateways_of_registered :
    (s : Server) (client tag id : ℕ)
    → registered s.clients client tag ≡ some id
    → (gateways : Map ℕ) × (find client s.clients ≡ some gateways)
unfolding registered
gateways_of_registered s client tag id h = elim (Option-cases (find client s.clients)) [
  | inl absent ↦ absurd (ground arith)
  | inr (gateways, present) ↦ (gateways, present)
]

-- The message that announces the end of a channel to its client, if it can be serialized.
abbrev pub end_frame : Wire → ℕ → ℕ → ℤ → List Effect
end_frame w client tag err = elim (w.serialize (channel_end tag err)) [
  | none ↦ []
  | some bytes ↦ sent client (bytes ∷ []) ∷ []
]

disposal_frame :
    (e : Env) (client tag : ℕ) (err : ℤ) (s : Server)
    → ((on_gateway_disposal e client tag err s).heap ≡ s.heap)
      × ((on_gateway_disposal e client tag err s).trace
          ≡ (if is_registered_gateway s client tag then end_frame e.wire client tag err else [])
            ++ s.trace)
unfolding on_gateway_disposal is_registered_gateway
disposal_frame e client tag err s = (
  ground arith,
  elim (Option-cases (find client s.clients)) [
    | inl absent ↦ ground arith
    | inr (gateways, present) ↦ ground (
      arith,
      contains-find client (assign client (erase tag gateways) s.clients),
      find-assign client client (erase tag gateways) s.clients,
    )
  ],
)

-- When the owner of a channel completes it with an error code and lets go of it, the gateway is gone,
-- no gateway is registered under its endpoint any more, all other registrations stay, and the client
-- is sent this error code, if a gateway was registered under the endpoint, and nothing otherwise.
pub complete-release :
    (e : Env) (id : ℕ) (err : ℤ) (s : Server) (g : Gateway)
    → find id s.heap ≡ some g
    → g.refs ≡ 1
    → let t = release e id (gateway_complete id err s) in
      (find id t.heap ≡ none)
      × ((c tag : ℕ)
          → registered t.clients c tag
            ≡ (if g.client_id == c && g.tag == tag then none else registered s.clients c tag))
      × (t.trace
          ≡ (if is_registered_gateway s g.client_id g.tag
              then end_frame e.wire g.client_id g.tag err
              else [])
            ++ s.trace)
complete-release e id err s g found last = rw ends (
  rw (frame.0, find-erase id id heap, ==_refl id),
  disposal-registered e g.client_id g.tag err s',
  frame.1,
)
  where
    g' : Gateway
    g' = record g { completion_error_code = err }

    heap : Map Gateway
    heap = assign id g' s.heap

    s' : Server
    s' = record s { heap = erase id heap }

    completed_one : gateway_complete id err s ≡ record s { heap = heap }
    completed_one = unfold gateway_complete in rw (found, gateway_complete)

    here : find id heap ≡ some g'
    here = rw (find-assign id id g' s.heap, ==_refl id)

    one : leb g.refs 1 ≡ true
    one = rw last

    ends : release e id (gateway_complete id err s) ≡ on_gateway_disposal e g.client_id g.tag err s'
    ends = rw completed_one (unfold release in rw (here, release) (rw one refl))

    frame :
        ((on_gateway_disposal e g.client_id g.tag err s').heap ≡ erase id heap)
        × ((on_gateway_disposal e g.client_id g.tag err s').trace
            ≡ (if is_registered_gateway s g.client_id g.tag
                then end_frame e.wire g.client_id g.tag err
                else [])
              ++ s.trace)
    frame = unfold is_registered_gateway in disposal_frame e g.client_id g.tag err s'

-- A message on a tag that is not the first of a sequence.
abbrev pub later_on : ℕ → ChannelMsg → ChannelMsg
later_on tag m = record m { tag = tag; sequence = m.sequence + 1 }

-- What is so right after a client has ended the channel of a gateway.
abbrev IsEnded : Env → ℕ → ℕ → ℕ → ℤ → Server → Server → Type 0
IsEnded e client tag id err s t =
    (t.trace ≡ delivered id (completed err) ∷ s.trace)
    × ((c u : ℕ)
        → registered t.clients c u
          ≡ (if client == c && tag == u then none else registered s.clients c u))
    × ((service : ℕ) (payload : Payload)
        → gateway_send e id service payload t ≡ (t, ErrorCode.shutdown))
    × ((m : ChannelMsg) (payload : Payload)
        → handle_route_channel_msg e client (later_on tag m) payload t ≡ (t, pos 0))

after_end :
    (e : Env) (client tag id : ℕ) (err : ℤ) (s : Server)
    → IsQuiet e
    → registered s.clients client tag ≡ some id
    → (gateways : Map ℕ) → find client s.clients ≡ some gateways
    → (g : Gateway) → find id s.heap ≡ some g
    → 0 < g.refs
    → g.client_id ≡ client
    → g.tag ≡ tag
    → IsEnded e client tag id err s (handle_route_channel_end e client tag err s).0
after_end e client tag id err s q h gateways present g found owned own same =
    rw ends (n.trace, others, refused, ignored)
  where
    s' : Server
    s' = record s { clients = assign client (erase tag gateways) s.clients }

    u : Server
    u =
        release e id
          (gateway_event e id (completed err)
            (record s' { heap = assign id (record g { refs = g.refs + 1 }) s.heap })).0

    n : IsNotified id (completed err) s' u
    n = locked_event_quiet e q id (completed err) s' g found owned

    ends : (handle_route_channel_end e client tag err s).0 ≡ u
    ends =
        unfold handle_route_channel_end find_and_act_on_registered_gateway lock in
        rw (present, handle_route_channel_end, h, find_and_act_on_registered_gateway, found)

    others :
        (c t : ℕ)
        → registered u.clients c t
          ≡ (if client == c && tag == t then none else registered s.clients c t)
    others c t = rw (n.clients, erase-registered s.clients gateways client tag c t present)

    still : find client u.clients ≡ some (erase tag gateways)
    still = rw (n.clients, find-assign client client (erase tag gateways) s.clients, ==_refl client)

    linked : is_connected u client ≡ true
    linked = unfold is_connected in rw (contains-find, still)

    gone : is_registered_gateway u client tag ≡ false
    gone = rw (is_registered-registered, others client tag, ==_refl client, ==_refl tag)

    refused :
        (service : ℕ) (payload : Payload)
        → gateway_send e id service payload u ≡ (u, ErrorCode.shutdown)
    refused service payload =
        gateway_send-shutdown e id service payload u g (n.objects id ∙ found)
          (subst (λ c. is_connected u c ≡ true) (sym own) linked)
          (subst (λ c. is_registered_gateway u c g.tag ≡ false) (sym own)
            (subst (λ t. is_registered_gateway u client t ≡ false) (sym same) gone))

    ignored :
        (m : ChannelMsg) (payload : Payload)
        → handle_route_channel_msg e client (later_on tag m) payload u ≡ (u, pos 0)
    ignored m payload =
        unfold handle_route_channel_msg open_channel in
        rw (
          still,
          handle_route_channel_msg,
          find-erase tag tag gateways,
          ==_refl tag,
          ==_ne (m.sequence + 1) 0 (omega arith),
        )

-- When a client ends a channel, its gateway is told the client's error code, in one event and with no
-- other effect, and is no longer registered, while all other registrations stay. In the state
-- that this leaves, what the gateway sends is refused
-- with `Shutdown`, and a message of the client on this tag that is not the first of a sequence is ignored;
-- neither changes anything.
pub handle_route_channel_end_completes :
    (e : Env) (client tag id : ℕ) (err : ℤ) (s : Server)
    → IsQuiet e
    → Inv s
    → registered s.clients client tag ≡ some id
    → let t = (handle_route_channel_end e client tag err s).0 in
      (t.trace ≡ delivered id (completed err) ∷ s.trace)
      × ((c u : ℕ)
          → registered t.clients c u
            ≡ (if client == c && tag == u then none else registered s.clients c u))
      × ((service : ℕ) (payload : Payload)
          → gateway_send e id service payload t ≡ (t, ErrorCode.shutdown))
      × ((m : ChannelMsg) (payload : Payload)
          → handle_route_channel_msg e client (later_on tag m) payload t ≡ (t, pos 0))
handle_route_channel_end_completes e client tag id err s q v h =
    let (gateways, present) = gateways_of_registered s client tag id h in
    let (g, found, owned, own, same) = live_gateway client tag id s v h in
    after_end e client tag id err s q h gateways present g found owned own same
