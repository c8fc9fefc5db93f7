-- ===== src/Ipc/Tests/ClientTests.antt =====
-- Tests of src/common/ipc/client_router.cpp's model and of the theorems on it.
use yakut_native.Base.{ℕ, ◌≡◌, refl, [], ◌∷◌, List, false, find}
use yakut_native.Ipc.ErrorCode
use yakut_native.Ipc.Types.{Payload, completed}
use yakut_native.Ipc.Client
use yakut_native.Ipc.Tests.{
  client_env, client_env-Keeps, client_env-IsQuiet, client_gateway, client, client-Inv,
}

-- Two channels; the server answers, one of them sends, and the pipe breaks.
abbrev story : List Client.Call
story =
    Client.makes
    ∷ Client.makes
    ∷ Client.receives Client.pipe_connected
    ∷ Client.receives (Client.pipe_message (1 ∷ 0 ∷ 1 ∷ 0 ∷ 0 ∷ []))
    ∷ Client.sends 0 5 (8 ∷ 9 ∷ [])
    ∷ Client.receives Client.pipe_disconnected
    ∷ Client.releases 0
    ∷ []

client_run-init-Inv_example : Client.Invariant.Inv (Client.run client_env story Client.init)
client_run-init-Inv_example = Client.Reachable.client_run-init-Inv client_env client_env-Keeps story

client_disconnected_completes_example :
    let t = (Client.handle_disconnected client_env client).0 in
    (t.trace ≡ Client.delivered 0 (completed ErrorCode.disconnected) ∷ [])
    × (t.linked ≡ false)
    × (t.gateways ≡ [])
    × ((service : ℕ) (payload : Payload)
        → Client.gateway_send client_env 0 service payload t ≡ (t, ErrorCode.not_connected))
client_disconnected_completes_example =
    Client.Disconnection.client_disconnected_completes client_env client_env-IsQuiet client 0
      client_gateway client-Inv refl (unfold find in refl)
