-- ===== src/Ipc/Server/Isolation.antt =====
-- What one client does leaves the others alone (src/common/ipc/server_router.cpp).
use yakut_native.Base.{
  leb, ◌-◌, ℕ, ◌+◌, ◌≡◌, ◌≢◌, refl, ◌∙◌, inl, inr, List, [], ◌∷◌, Option, none, some, arith, ℤ,
  find, erase, find-erase, find-assign, ◌==◌, if◌then◌else◌, Option-cases, Bool-cases,
}
use yakut_native.Ipc.Types.{Payload, Event}
use yakut_native.Ipc.Server.{
  Gateway, Server, Env, Effect, sent, delivered, opened, lock, release, on_gateway_disposal,
}

-- The object under an id, if it is a gateway of the client.
abbrev pub of_client : ℕ → Option Gateway → Option Gateway
of_client c none = none
of_client c (some g) = if g.client_id == c then some g else none

-- The messages that were handed to the pipe for a client, latest first.
abbrev pub sent_to : ℕ → List Effect → List (List Payload)
sent_to c [] = []
sent_to c (sent d fragments ∷ es) = if d == c then fragments ∷ sent_to c es else sent_to c es
sent_to c (delivered id event ∷ es) = sent_to c es
sent_to c (opened factory id payload ∷ es) = sent_to c es

-- A client sees no difference: its connection and registrations, its gateways, its messages.
pub record IsSameFor (c : ℕ) (s t : Server) : Type 0 where
  pub gateways : find c t.clients ≡ find c s.clients
  pub objects : (id : ℕ) → of_client c (find id t.heap) ≡ of_client c (find id s.heap)
  pub messages : sent_to c t.trace ≡ sent_to c s.trace

pub IsSameFor-refl : (c : ℕ) (s : Server) → IsSameFor c s s
IsSameFor-refl c s = record { gateways = refl; objects = λ id. refl; messages = refl }

pub IsSameFor-trans : {c : ℕ} {s t u : Server} → IsSameFor c s t → IsSameFor c t u → IsSameFor c s u
IsSameFor-trans a b = record {
  gateways = b.gateways ∙ a.gateways;
  objects = λ id. b.objects id ∙ a.objects id;
  messages = b.messages ∙ a.messages;
}

-- What the event handlers of other clients' gateways do when they are told of an event, and what the channel
-- factories do when they are given another client's gateway, a client does not see.
pub record Spares (c : ℕ) (e : Env) : Type 0 where
  pub invoke_same :
      (id handler : ℕ) (event : Event) (s : Server) (g : Gateway)
      → find id s.heap ≡ some g
      → g.client_id ≢ c
      → g.event_handler ≡ some handler
      → IsSameFor c s (e.invoke handler event s).0
  pub construct_same :
      (factory id : ℕ) (payload : Payload) (s : Server) (g : Gateway)
      → find id s.heap ≡ some g
      → g.client_id ≢ c
      → IsSameFor c s (e.construct factory id payload s)

module _ (c : ℕ) where
  pub lock_same :
      (id : ℕ) (s t : Server)
      → of_client c (find id s.heap) ≡ none
      → lock id s ≡ some t
      → IsSameFor c s t
  unfolding lock
  lock_same id s t foreign h = elim (Option-cases (find id s.heap)) [
    | inl gone ↦ ground arith
    | inr (g, found) ↦ record {
      gateways = ground arith;
      objects = λ i. ground (arith, find-assign i id (record g { refs = g.refs + 1 }) s.heap);
      messages = ground arith;
    }
  ]

  disposal_same :
      (e : Env) (client tag : ℕ) (err : ℤ) (s : Server)
      → client ≢ c
      → IsSameFor c s (on_gateway_disposal e client tag err s)
  unfolding on_gateway_disposal
  disposal_same e client tag err s other = elim (Option-cases (find client s.clients)) [
    | inl absent ↦ rw (absent, on_gateway_disposal) (IsSameFor-refl c s)
    | inr (gws, present) ↦ record {
      gateways = ground (arith, find-assign c client (erase tag gws) s.clients);
      objects = λ i. ground arith;
      messages = ground arith;
    }
  ]

  pub release_same :
      (e : Env) (id : ℕ) (s : Server)
      → of_client c (find id s.heap) ≡ none
      → IsSameFor c s (release e id s)
  unfolding release
  release_same e id s foreign = elim (Option-cases (find id s.heap)) [
    | inl gone ↦ rw (gone, release) (IsSameFor-refl c s)
    | inr (g, found) ↦
        rw (found, release)
          (elim (Bool-cases (leb g.refs 1)) [
            | inl last ↦ rw last (
                IsSameFor-trans
                  (record {
                    gateways = refl;
                    objects = λ i. ground (arith, find-erase i id s.heap);
                    messages = refl;
                  })
                  (disposal_same e g.client_id g.tag _ _ (λ same. ground arith)))
            | inr kept ↦ rw kept (record {
              gateways = refl;
              objects =
                  λ i. ground (arith, find-assign i id (record g { refs = g.refs - 1 }) s.heap);
              messages = refl;
            })
          ])
  ]
