-- ===== src/Ipc/Server/Registrations.antt =====
-- The two-level map of registered gateways (client_id_to_map_of_gateways_ of
-- src/common/ipc/server_router.cpp) under the updates that the router makes.
use mathlib.Core.Path.{subst}
use yakut_native.Base.{
  contains, ◌||◌, not, Distinct, ℕ, ◌≡◌, inl, inr, [], ◌&&◌, none, some, arith, Map, find, erase,
  assign, insert, find-erase, find-assign, find-insert, contains-find, ◌==◌, if◌then◌else◌,
  Bool-cases,
}
use yakut_native.Ipc.Server.{registered}

pub registered-assign :
    (clients : Map (Map ℕ)) (gateways : Map ℕ) (client c t : ℕ)
    → registered (assign client gateways clients) c t
      ≡ (if client == c then find t gateways else registered clients c t)
unfolding registered
registered-assign clients gateways client c t =
    ground (arith, find-assign c client gateways clients)

pub registered-erase :
    (clients : Map (Map ℕ)) (client c t : ℕ)
    → registered (erase client clients) c t ≡ (if client == c then none else registered clients c t)
unfolding registered
registered-erase clients client c t = ground (arith, find-erase c client clients)

-- A client that connects anew keeps its gateways, and otherwise has none.
pub registered-insert :
    (clients : Map (Map ℕ)) (client c t : ℕ)
    → registered (insert client [] clients) c t ≡ registered clients c t
unfolding registered find
registered-insert clients client c t =
    ground (arith, find-insert c client [] clients, contains-find client clients)

pub erase-registered :
    (clients : Map (Map ℕ)) (gateways : Map ℕ) (client tag c t : ℕ)
    → find client clients ≡ some gateways
    → registered (assign client (erase tag gateways) clients) c t
      ≡ (if client == c && tag == t then none else registered clients c t)
unfolding registered
erase-registered clients gateways client tag c t e =
    ground (arith, find-assign c client (erase tag gateways) clients, find-erase t tag gateways)

pub assign-registered :
    (clients : Map (Map ℕ)) (gateways : Map ℕ) (client tag id c t : ℕ)
    → find client clients ≡ some gateways
    → registered (assign client (assign tag id gateways) clients) c t
      ≡ (if client == c && tag == t then some id else registered clients c t)
unfolding registered
assign-registered clients gateways client tag id c t e =
    ground
      (arith, find-assign c client (assign tag id gateways) clients, find-assign t tag id gateways)

-- Each map of gateways holds a tag once.
abbrev pub AreDistinct : Map (Map ℕ) → Type 0
AreDistinct clients =
    (client : ℕ) (gateways : Map ℕ) → find client clients ≡ some gateways → Distinct gateways

pub AreDistinct-assign :
    (client : ℕ) (gateways : Map ℕ) (clients : Map (Map ℕ))
    → Distinct gateways
    → AreDistinct clients
    → AreDistinct (assign client gateways clients)
AreDistinct-assign client gateways clients new old c gs e = elim (Bool-cases (client == c)) [
  | inl same ↦ subst Distinct (ground (arith, find-assign c client gateways clients)) new
  | inr other ↦ old c gs (ground (arith, find-assign c client gateways clients))
]

pub AreDistinct-insert :
    (client : ℕ) (clients : Map (Map ℕ))
    → AreDistinct clients
    → AreDistinct (insert client [] clients)
AreDistinct-insert client clients old c gs e =
    elim (Bool-cases (contains client clients || not (client == c))) [
      | inl kept ↦ old c gs (ground (arith, find-insert c client [] clients))
      | inr new ↦ subst Distinct {x = []} (ground (arith, find-insert c client [] clients)) tt
    ]
