-- ===== src/Ipc/Channel.antt =====
-- `Channel` of src/common/ipc/channel.hpp, and the making of channels in server_router.hpp: messages of
-- types on the gateways of either router. The generated serializers of a message type are arguments;
-- `W` is the state that event handlers change.
use yakut_native.Base.{Option, none, some, ℤ, pos}
use yakut_native.Ipc.Types.{Payload, Event, connected, message, completed, invalid}

-- `Channel::EventVar`.
pub data ChannelEvent {ℓ} (I : Type ℓ) : Type ℓ where
  opened : ChannelEvent I
  input : I → ChannelEvent I
  ended : ℤ → ChannelEvent I

-- `Channel::send`, over the `send` of its gateway. (The buffer is on the stack or on the heap.)
unfoldable pub send {ℓ κ} :
    {O : Type ℓ} {W : Type κ} → (O → Option Payload) → (Payload → W → W × ℤ) → O → W → W × ℤ
send serialize gateway_send output w = elim (serialize output) [
  | none ↦ (w, invalid)
  | some payload ↦ gateway_send payload w
]

-- `Channel::Adapter`, the event handler that `Channel::subscribe` gives the gateway.
unfoldable pub adapter {ℓ κ} :
    {I : Type ℓ} {W : Type κ} → (Payload → Option I) → (ChannelEvent I → W → W) → Event → W → W × ℤ
adapter deserialize handler connected w = (handler opened w, pos 0)
adapter deserialize handler (message sequence payload) w = elim (deserialize payload) [
  | none ↦ (w, invalid)
  | some i ↦ (handler (input i) w, pos 0)
]
adapter deserialize handler (completed err) w = (handler (ended err) w, pos 0)

-- The channel factory of `ServerRouter::registerChannel`.
unfoldable pub factory {ℓ κ} :
    {I : Type ℓ} {W : Type κ} → (Payload → Option I) → (I → W → W) → Payload → W → W
factory deserialize new_channel_handler payload w = elim (deserialize payload) [
  | none ↦ w
  | some i ↦ new_channel_handler i w
]
