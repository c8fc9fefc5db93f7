-- ===== src/Ipc/Server/Invariant.antt =====
-- What holds of the server router's weak pointers (src/common/ipc/server_router.cpp) between any two
-- of its operations.
use mathlib.Core.Path.{subst}
use yakut_native.Base.{
  Distinct-erase, ℕ, ◌+◌, ◌<◌, ◌≡◌, refl, ◌∙◌, inl, inr, Bool, true, false, ◌&&◌, Option, none,
  some, arith, ℤ, Map, find, erase, assign, find-erase, find-assign, ltb, leb, ◌==◌, if◌then◌else◌,
  Option-cases, Bool-cases,
}
use yakut_native.Ipc.Server.Registrations.{erase-registered, AreDistinct, AreDistinct-assign}
use yakut_native.Ipc.Server.{Gateway, Server, Env, registered, lock, release, on_gateway_disposal}

-- The object that an id names has the endpoint under which it is looked up.
abbrev pub has_endpoint : Option Gateway → ℕ → ℕ → Bool
has_endpoint none client tag = false
has_endpoint (some g) client tag = g.client_id == client && g.tag == tag

-- An object is older than the next one and has an owner.
abbrev pub is_owned : ℕ → ℕ → Option Gateway → Bool
is_owned next id none = true
is_owned next id (some g) = ltb id next && ltb 0 g.refs

pub record Inv (s : Server) : Type 0 where
  pub distinct : AreDistinct s.clients
  -- No weak pointer dangles, and each stands under the endpoint of its gateway.
  pub alive :
      (client tag id : ℕ)
      → registered s.clients client tag ≡ some id
      → has_endpoint (find id s.heap) client tag ≡ true
  pub owned : (id : ℕ) → is_owned s.next_gateway id (find id s.heap) ≡ true

-- Registrations that only go away.
pub fewer-Inv :
    (s t : Server)
    → t.heap ≡ s.heap
    → t.next_gateway ≡ s.next_gateway
    → ((c tag id : ℕ) → registered t.clients c tag ≡ some id → registered s.clients c tag ≡ some id)
    → AreDistinct t.clients
    → Inv s
    → Inv t
fewer-Inv s t same next fewer distinct v = record {
  distinct = distinct;
  alive = λ c tag id h. rw same (v.alive c tag id (fewer c tag id h));
  owned = λ id. rw (same, next) (v.owned id);
}

-- A gateway that changes, but for its endpoint.
pub update-Inv :
    (s : Server) (id : ℕ) (g g' : Gateway)
    → find id s.heap ≡ some g
    → g'.client_id ≡ g.client_id
    → g'.tag ≡ g.tag
    → 0 < g'.refs
    → Inv s
    → Inv (record s { heap = assign id g' s.heap })
update-Inv s id g g' e hc ht hr v = record {
  distinct = v.distinct;
  alive = λ c tag i h. ground (arith, find-assign i id g' s.heap, v.alive c tag i h);
  owned = λ i. ground (arith, find-assign i id g' s.heap, v.owned i, v.owned id);
}

-- `Inv` reads neither the trace nor the factories.
pub traced-Inv :
    (s t : Server)
    → t.heap ≡ s.heap
    → t.next_gateway ≡ s.next_gateway
    → t.clients ≡ s.clients
    → Inv s
    → Inv t
traced-Inv s t heap next clients v =
    fewer-Inv s t heap next (λ c tag id h. rw clients at h) (rw clients v.distinct) v

-- What is left of `Inv` while the last reference to an object goes away.
record Dying (client tag : ℕ) (s : Server) : Type 0 where
  distinct : AreDistinct s.clients
  alive :
      (c t id : ℕ)
      → registered s.clients c t ≡ some id
      → (client == c && tag == t) ≡ false
      → has_endpoint (find id s.heap) c t ≡ true
  owned : (id : ℕ) → is_owned s.next_gateway id (find id s.heap) ≡ true

disposal_frame :
    (e : Env) (client tag : ℕ) (err : ℤ) (s : Server)
    → ((on_gateway_disposal e client tag err s).heap ≡ s.heap)
      × ((on_gateway_disposal e client tag err s).next_gateway ≡ s.next_gateway)
unfolding on_gateway_disposal
disposal_frame e client tag err s = (ground arith, ground arith)

-- A gateway that goes away takes the registration under its endpoint along, and no other.
pub disposal-registered :
    (e : Env) (client tag : ℕ) (err : ℤ) (s : Server) (c t : ℕ)
    → registered (on_gateway_disposal e client tag err s).clients c t
      ≡ (if client == c && tag == t then none else registered s.clients c t)
disposal-registered e client tag err s c t = elim (Option-cases (find client s.clients)) [
  | inl e ↦ unfold on_gateway_disposal registered in ground arith
  | inr (gateways, found) ↦
      clients gateways found ∙ erase-registered s.clients gateways client tag c t found
]
  where
    clients :
        (gateways : Map ℕ)
        → find client s.clients ≡ some gateways
        → registered (on_gateway_disposal e client tag err s).clients c t
          ≡ registered (assign client (erase tag gateways) s.clients) c t
    clients gateways found = unfold on_gateway_disposal in ground arith

disposal-AreDistinct :
    (e : Env) (client tag : ℕ) (err : ℤ) (s : Server)
    → AreDistinct s.clients
    → AreDistinct (on_gateway_disposal e client tag err s).clients
disposal-AreDistinct e client tag err s d = elim (Option-cases (find client s.clients)) [
  | inl absent ↦ subst AreDistinct (unchanged absent) d
  | inr (gateways, present) ↦ subst AreDistinct (changed gateways present) (
      AreDistinct-assign client (erase tag gateways) s.clients
        (Distinct-erase tag gateways (d client gateways present)) d)
]
  where
    unchanged :
        find client s.clients ≡ none → s.clients ≡ (on_gateway_disposal e client tag err s).clients
    unchanged absent = unfold on_gateway_disposal in ground arith

    changed :
        (gateways : Map ℕ)
        → find client s.clients ≡ some gateways
        → assign client (erase tag gateways) s.clients
          ≡ (on_gateway_disposal e client tag err s).clients
    changed gateways present = unfold on_gateway_disposal in ground arith

on_gateway_disposal-Inv :
    (e : Env) (client tag : ℕ) (err : ℤ) (s : Server)
    → Dying client tag s
    → Inv (on_gateway_disposal e client tag err s)
on_gateway_disposal-Inv e client tag err s d = record {
  distinct = disposal-AreDistinct e client tag err s d.distinct;
  alive = λ c t id h.
      rw frame.0 (ground (arith, d.alive c t id, disposal-registered e client tag err s c t));
  owned = λ id. rw (frame.0, frame.1) (d.owned id);
}
  where
    frame :
        ((on_gateway_disposal e client tag err s).heap ≡ s.heap)
        × ((on_gateway_disposal e client tag err s).next_gateway ≡ s.next_gateway)
    frame = disposal_frame e client tag err s

pub lock-Inv : (id : ℕ) (s t : Server) → lock id s ≡ some t → Inv s → Inv t
unfolding lock
lock-Inv id s t h v = elim (Option-cases (find id s.heap)) [
  | inl e ↦ ground arith
  | inr (g, e) ↦ rw (← some_eq g e) (update-Inv s id g _ e refl refl (ground arith) v)
]
  where
    some_eq :
        (g : Gateway)
        → find id s.heap ≡ some g
        → record s { heap = assign id (record g { refs = g.refs + 1 }) s.heap } ≡ t
    some_eq g e = ground arith

pub release-Inv : (e : Env) (id : ℕ) (s : Server) → Inv s → Inv (release e id s)
unfolding release
release-Inv e id s v = elim (Option-cases (find id s.heap)) [
  | inl gone ↦ rw (gone, release) v
  | inr (g, found) ↦
      rw (found, release)
        (elim (Bool-cases (leb g.refs 1)) [
          | inl last ↦ rw last (on_gateway_disposal-Inv e g.client_id g.tag _ _ (dying g found))
          | inr kept ↦ rw kept (update-Inv s id g _ found refl refl (ground arith) v)
        ])
]
  where
    dying :
        (g : Gateway)
        → find id s.heap ≡ some g
        → Dying g.client_id g.tag (record s { heap = erase id s.heap })
    dying g found = record {
      distinct = v.distinct;
      alive = λ c t i h other. ground (arith, find-erase i id s.heap, v.alive c t i h);
      owned = λ i. ground (arith, find-erase i id s.heap, v.owned i);
    }
