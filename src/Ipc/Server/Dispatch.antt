-- ===== src/Ipc/Server/Dispatch.antt =====
-- Where a channel message of a client goes (`handleRouteChannelMsg` of
-- src/common/ipc/server_router.cpp), against a table of the three cases.
use mathlib.Core.Path.{subst}
use yakut_native.Base.{
  ℕ, ◌-◌, ◌≡◌, refl, sym, inl, inr, ◌∷◌, true, ◌&&◌, none, some, arith, Map, find, assign,
  find-assign, contains-find, Option-cases, Bool-cases, ◌==◌, ==_refl, if◌then◌else◌,
}
use yakut_native.Ipc.Types.{Payload, message, ChannelMsg}
use yakut_native.Ipc.Wire.{cut_routing}
use yakut_native.Ipc.Server.{
  Gateway, Server, Env, opened, is_connected, registered, lock, handle_route_channel_msg,
  open_channel, create_gateway, new_gateway,
}
use yakut_native.Ipc.Server.Registrations.{assign-registered}
use yakut_native.Ipc.Server.Invariant.{Inv}
use yakut_native.Ipc.Server.Quiet.{
  IsQuiet, IsNotified, locked_event_quiet, live_gateway, release_shared,
}

pub data Destination : Type 0 where
  nowhere : Destination
  to_gateway : ℕ → Destination
  to_factory : ℕ → Destination

-- A registered gateway takes its messages; otherwise the first message of a sequence, from a connected
-- client and for a known service, opens a channel.
unfoldable pub destination : Server → ℕ → ChannelMsg → Destination
destination s client m = elim (registered s.clients client m.tag) [
  | some id ↦ to_gateway id
  | none ↦
      if is_connected s client && m.sequence == 0
      then elim (find m.service_id s.factories) [ none ↦ nowhere | some f ↦ to_factory f ]
      else nowhere
]

-- What has become of a message with a payload.
abbrev pub Arrived : Destination → ℕ → ℕ → ℕ → Payload → Server → Server → Type 0
Arrived nowhere client tag sequence payload s t = t ≡ s
Arrived (to_gateway id) client tag sequence payload s t =
    IsNotified id (message sequence payload) s t
Arrived (to_factory f) client tag sequence payload s t =
    (t.trace ≡ opened f s.next_gateway payload ∷ s.trace)
    × ((c u : ℕ)
        → registered t.clients c u
          ≡ (if client == c && tag == u then some s.next_gateway else registered s.clients c u))
    × ((i : ℕ)
        → find i t.heap ≡ (
            if s.next_gateway == i
            then some (record (new_gateway client tag) { refs = 1 })
            else find i s.heap))

module _ (e : Env) (q : IsQuiet e) (client : ℕ) (m : ChannelMsg) (s : Server) where
  opened_one :
      (factory : ℕ) (gateways : Map ℕ) (real : Payload)
      → find client s.clients ≡ some gateways
      → (m.sequence == 0) ≡ true
      → find m.service_id s.factories ≡ some factory
      → Arrived
          (to_factory factory)
          client
          m.tag
          m.sequence
          real
          s
          (open_channel e client gateways m real s).0
  unfolding create_gateway
  opened_one factory gateways real present first known = rw ends (
    refl,
    λ c u. assign-registered s.clients gateways client m.tag s.next_gateway c u present,
    λ i.
        ground
          (arith, find-assign i s.next_gateway shared heap, find-assign i s.next_gateway g s.heap),
  )
    where
      g : Gateway
      g = new_gateway client m.tag

      shared : Gateway
      shared = record g { refs = g.refs - 1 }

      heap : Map Gateway
      heap = assign s.next_gateway g s.heap

      t : Server
      t = record (create_gateway client m.tag gateways s) {
        trace = opened factory s.next_gateway real ∷ s.trace;
      }

      here : find s.next_gateway heap ≡ some g
      here = rw (find-assign s.next_gateway s.next_gateway g s.heap, ==_refl s.next_gateway)

      ends :
          (open_channel e client gateways m real s).0
          ≡ record t { heap = assign s.next_gateway shared heap }
      ends =
          unfold open_channel in
          rw (first, open_channel, known)
            (rw (q.construct_quiet factory s.next_gateway real t)
              (release_shared e q s.next_gateway t g here (unfold new_gateway in omega arith)))

  arrives :
      (d : Destination) (real : Payload) (t : Server)
      → destination s client m ≡ d
      → Arrived d client m.tag m.sequence real s t
      → Arrived (destination s client m) client m.tag m.sequence real s t
  arrives d real t there fate =
      subst (λ d. Arrived d client m.tag m.sequence real s t) (sym there) fate

  opens :
      (gateways : Map ℕ) (real : Payload)
      → find client s.clients ≡ some gateways
      → find m.tag gateways ≡ none
      → Arrived
          (destination s client m)
          client
          m.tag
          m.sequence
          real
          s
          (open_channel e client gateways m real s).0
  opens gateways real present free = elim (Bool-cases (m.sequence == 0)) [
    | inr later ↦
        arrives nowhere real _ (unfold destination registered is_connected in ground arith)
          (unfold open_channel in rw (later, open_channel) refl)
    | inl first ↦ elim (Option-cases (find m.service_id s.factories)) [
      | inl unknown ↦
          arrives nowhere real _ (unfold destination registered is_connected in ground arith)
            (unfold open_channel in rw (first, open_channel, unknown) refl)
      | inr (factory, known) ↦
          arrives (to_factory factory) real _
            (unfold destination registered is_connected in
              ground (arith, contains-find client s.clients))
            (opened_one factory gateways real present first known)
    ]
  ]

  -- A channel message has exactly one of three fates, as the table `destination` says: it is delivered,
  -- once and without its routing prefix, to the gateway that is registered under its tag; it opens a
  -- channel, with a new gateway registered under its tag and kept by the factory alone; or it changes
  -- nothing.
  pub handle_route_channel_msg-Arrived :
      (payload : Payload)
      → Inv s
      → Arrived
          (destination s client m)
          client
          m.tag
          m.sequence
          (cut_routing e.wire payload m)
          s
          (handle_route_channel_msg e client m payload s).0
  handle_route_channel_msg-Arrived payload v = elim (Option-cases (find client s.clients)) [
    | inl absent ↦
        arrives nowhere (cut_routing e.wire payload m) _
          (unfold destination registered is_connected in
            ground (arith, contains-find client s.clients))
          (unfold handle_route_channel_msg in rw (absent, handle_route_channel_msg) refl)
    | inr (gateways, present) ↦ elim (Option-cases (find m.tag gateways)) [
      | inl free ↦
          unfold handle_route_channel_msg in
          rw (present, handle_route_channel_msg, free)
            (opens gateways (cut_routing e.wire payload m) present free)
      | inr (id, taken) ↦
          let there : registered s.clients client m.tag ≡ some id =
            unfold registered in ground arith in
          let (g, found, owned, _, _) = live_gateway client m.tag id s v there in
          arrives (to_gateway id) (cut_routing e.wire payload m) _
            (unfold destination in rw (there, destination))
            (unfold handle_route_channel_msg lock in
              rw (present, handle_route_channel_msg, taken, found)
                (locked_event_quiet e q id (message m.sequence (cut_routing e.wire payload m)) s g
                  found owned))
    ]
  ]
