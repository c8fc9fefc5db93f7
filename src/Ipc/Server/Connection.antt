-- ===== src/Ipc/Server/Connection.antt =====
-- The handshake of a client (`handleRouteConnect` of src/common/ipc/server_router.cpp).
use yakut_native.Base.{
  ℕ, ◌≡◌, [], ◌∷◌, ◌&&◌, ◌||◌, none, some, arith, pos, is_zero, insert, find-insert, contains-find,
  ◌==◌,
}
use yakut_native.Ipc.Types.{connect}
use yakut_native.Ipc.Server.{Server, Env, sent, is_connected, registered, handle_route_connect}
use yakut_native.Ipc.Server.Registrations.{registered-insert}

-- A client is connected from the moment on at which the response to its request went out without an
-- error; the response goes to that client alone, and no registration changes.
pub handle_route_connect-is_connected :
    (e : Env) (client : ℕ) (s : Server)
    → let (t, err) = handle_route_connect e client s in
      ((c : ℕ) → is_connected t c ≡ (is_connected s c || (client == c && is_zero err)))
      × ((c tag : ℕ) → registered t.clients c tag ≡ registered s.clients c tag)
      × (t.trace ≡ elim (e.wire.serialize (connect e.version.major e.version.minor (pos 0))) [
        | none ↦ s.trace
        | some bytes ↦ sent client (bytes ∷ []) ∷ s.trace
      ])
unfolding handle_route_connect is_connected
handle_route_connect-is_connected e client s = (
  λ c. ground (
    arith,
    find-insert c client [] s.clients,
    contains-find c (insert client [] s.clients),
    contains-find c s.clients,
    contains-find client s.clients,
  ),
  λ c tag. ground (arith, registered-insert s.clients client c tag),
  ground arith,
)
