-- ===== src/Ipc/Server/Quiet.antt =====
-- Event handlers and channel factories that only keep what they are given, so that what the router of
-- src/common/ipc/server_router.cpp does itself can be stated exactly.
use yakut_native.Base.{
  ℕ, ◌+◌, ◌-◌, ◌<◌, ◌≡◌, refl, inl, inr, ◌∷◌, false, Option, none, some, arith, Map, find, assign,
  find-assign, leb, Option-cases,
}
use yakut_native.Ipc.Types.{Payload, Event}
use yakut_native.Ipc.Server.{
  Gateway, Server, Env, delivered, registered, release, gateway_event, deliver,
}
use yakut_native.Ipc.Server.Invariant.{Inv}

pub record IsQuiet (e : Env) : Type 0 where
  pub invoke_quiet : (handler : ℕ) (event : Event) (s : Server) → (e.invoke handler event s).0 ≡ s
  pub construct_quiet :
      (factory id : ℕ) (payload : Payload) (s : Server) → e.construct factory id payload s ≡ s

-- The state after one event, which is the only effect.
pub record IsNotified (id : ℕ) (event : Event) (s t : Server) : Type 0 where
  pub clients : t.clients ≡ s.clients
  pub factories : t.factories ≡ s.factories
  pub objects : (i : ℕ) → find i t.heap ≡ find i s.heap
  pub trace : t.trace ≡ delivered id event ∷ s.trace

module _ (e : Env) (q : IsQuiet e) where
  deliver_quiet :
      (handler : Option ℕ) (event : Event) (s : Server) → (deliver e handler event s).0 ≡ s
  unfolding deliver
  deliver_quiet none event s = refl
  deliver_quiet (some handler) event s = q.invoke_quiet handler event s

  pub gateway_event_quiet :
      (id : ℕ) (event : Event) (s : Server) (g : Gateway)
      → find id s.heap ≡ some g
      → (gateway_event e id event s).0 ≡ record s { trace = delivered id event ∷ s.trace }
  unfolding gateway_event
  gateway_event_quiet id event s g found =
      rw (found, gateway_event) (deliver_quiet g.event_handler event _)

  -- The end of a reference that is not the last.
  pub release_shared :
      (id : ℕ) (s : Server) (g : Gateway)
      → find id s.heap ≡ some g
      → 1 < g.refs
      → release e id s ≡ record s { heap = assign id (record g { refs = g.refs - 1 }) s.heap }
  unfolding release
  release_shared id s g found shared = rw (found, release) (rw more refl)
    where
      more : leb g.refs 1 ≡ false
      more = ground arith

  -- An event under a lock, and the end of the lock.
  pub locked_event_quiet :
      (id : ℕ) (event : Event) (s : Server) (g : Gateway)
      → find id s.heap ≡ some g
      → 0 < g.refs
      → IsNotified id event s (
          release e id
            (gateway_event e id event
              (record s { heap = assign id (record g { refs = g.refs + 1 }) s.heap })).0)
  locked_event_quiet id event s g found owned =
      rw (gateway_event_quiet id event (record s { heap = heap }) g' here) (
        rw
          (release_shared id (record s { heap = heap; trace = delivered id event ∷ s.trace }) g'
            here (omega arith))
          (record {
            clients = refl;
            factories = refl;
            objects = λ i. ground (
              arith,
              find-assign i id (record g' { refs = g'.refs - 1 }) heap,
              find-assign i id g' s.heap,
            );
            trace = refl;
          }))
    where
      g' : Gateway
      g' = record g { refs = g.refs + 1 }

      heap : Map Gateway
      heap = assign id g' s.heap

      here : find id heap ≡ some g'
      here = ground (arith, find-assign id id g' s.heap)

-- The object of a registered gateway.
pub live_gateway :
    (client tag id : ℕ) (s : Server)
    → Inv s
    → registered s.clients client tag ≡ some id
    → (g : Gateway) × (find id s.heap ≡ some g)
      × (0 < g.refs)
      × (g.client_id ≡ client)
      × (g.tag ≡ tag)
live_gateway client tag id s v h = elim (Option-cases (find id s.heap)) [
  | inl gone ↦ absurd (ground (arith, v.alive client tag id h))
  | inr (g, found) ↦ (
    g,
    found,
    ground (arith, v.owned id),
    ground (arith, v.alive client tag id h),
    ground (arith, v.alive client tag id h),
  )
]
