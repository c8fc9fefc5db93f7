-- ===== src/Ipc/Session/Typed.antt =====
-- Channels of values (src/common/ipc/channel.hpp) over the two routers: what a client sends with
-- `Channel::send`, as the channel at the server hands it to its event handler.
use yakut_native.Base.{ℕ, ◌≡◌, List, [], ◌∷◌, Option, some}
use yakut_native.Ipc.Types.{Payload}
use yakut_native.Ipc.Client
use yakut_native.Ipc.Server
use yakut_native.Ipc.Channel
use yakut_native.Ipc.Channel.{ChannelEvent, input}

module _ {I : Type 0} {W : Type 0} (serialize : I → Option Payload)
    (deserialize : Payload → Option I) (handler : ChannelEvent I → W → W)
    (new_channel : I → W → W) where
  -- The values are sent one after the other.
  unfoldable pub send_values : Client.Env → ℕ → ℕ → List I → Client.Client → Client.Client
  send_values e id service [] c = c
  send_values e id service (v ∷ vs) c =
      send_values e id service vs (Channel.send serialize (Client.gateway_send e id service) v c).0

  -- The events of a gateway, latest first, as its channel hands them on.
  unfoldable pub handled : List Server.Effect → W → W
  handled [] w = w
  handled (Server.sent client fragments ∷ es) w = handled es w
  handled (Server.delivered id event ∷ es) w =
      (Channel.adapter deserialize handler event (handled es w)).0
  handled (Server.opened factory id p ∷ es) w =
      Channel.factory deserialize new_channel p (handled es w)

  -- The handler is given these values.
  unfoldable pub inputs : List I → W → W
  inputs [] w = w
  inputs (v ∷ vs) w = inputs vs (handler (input v) w)

  -- The payloads of the values, which read back.
  abbrev pub AreCoded : List I → List Payload → Type 0
  AreCoded [] [] = Unit
  AreCoded (v ∷ vs) (p ∷ ps) = (serialize v ≡ some p) × (deserialize p ≡ some v) × AreCoded vs ps
  AreCoded [] (p ∷ ps) = ⊥
  AreCoded (v ∷ vs) [] = ⊥
