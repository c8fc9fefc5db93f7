-- ===== src/Ipc/Session/Passing.antt =====
-- What passes from the client router (src/common/ipc/client_router.cpp) to the server router
-- (src/common/ipc/server_router.cpp) over a pipe, and what it leaves there.
use yakut_native.Base.{
  is_zero, if◌then◌else◌, ℕ, ◌+◌, ◌<◌, ◌^◌, ◌≡◌, refl, ap, List, [], ◌∷◌, ◌++◌, true, some, length,
}
use yakut_native.Ipc.Types.{joined, Payload, u64, channel_msg, message}
use yakut_native.Ipc.Wire.{Wire}
use yakut_native.Ipc.Client
use yakut_native.Ipc.Server
use yakut_native.Ipc.Server.Attending.{channel_events}

-- The bytes of the messages that the pipe of the client took without error, earliest first: of the effects
-- that followed others.
unfoldable pub sent_bytes : Client.Env → List Client.Effect → List Client.Effect → List Payload
sent_bytes e before [] = []
sent_bytes e before (Client.sent fragments ∷ effects) =
    let rest = sent_bytes e before effects in
    if is_zero (e.send_result (effects ++ before) fragments)
    then rest ++ joined fragments ∷ []
    else rest
sent_bytes e before (Client.delivered id event ∷ effects) = sent_bytes e before effects

-- The pipe of the client takes every message.
abbrev pub Takes : Client.Env → Type 0
Takes e =
    (before : List Client.Effect) (fragments : List Payload)
    → is_zero (e.send_result before fragments) ≡ true

pub sent_bytes-append :
    (e : Client.Env) (before effects : List Client.Effect) (fragments : List Payload)
    → Takes e
    → sent_bytes e before (effects ++ Client.sent fragments ∷ [])
      ≡ joined fragments ∷ sent_bytes e (Client.sent fragments ∷ before) effects
unfolding sent_bytes
sent_bytes-append e before [] fragments takes = rw (takes before fragments) refl
sent_bytes-append e before (Client.sent f ∷ effects) fragments takes =
    rw (takes ((effects ++ Client.sent fragments ∷ []) ++ before) f) (
      rw (takes (effects ++ Client.sent fragments ∷ before) f)
        (ap (λ bs. bs ++ joined f ∷ []) (sent_bytes-append e before effects fragments takes)))
sent_bytes-append e before (Client.delivered id event ∷ effects) fragments takes =
    sent_bytes-append e before effects fragments takes

-- The server's pipe gives these messages of a client, one after the other.
abbrev pub receptions : ℕ → List Payload → List Server.Call
receptions peer [] = []
receptions peer (bytes ∷ rest) =
    Server.receives (Server.pipe_message peer bytes) ∷ receptions peer rest

-- The deliveries of payloads numbered from `sequence` on, latest first.
abbrev pub deliveries : ℕ → ℕ → List Payload → List Server.Effect
deliveries target sequence [] = []
deliveries target sequence (p ∷ ps) =
    deliveries target (u64 (sequence + 1)) ps ++ Server.delivered target (message sequence p) ∷ []

-- Each payload has a prefix, under its number.
abbrev pub AreSerialized : Wire → ℕ → ℕ → ℕ → List Payload → Type 0
AreSerialized w tag service sequence [] = Unit
AreSerialized w tag service sequence (p ∷ ps) =
    ((prefix : Payload) × (w.serialize (
          channel_msg (record {
            tag = tag;
            sequence = sequence;
            service_id = service;
            payload_size = length p;
          }))
        ≡ some prefix)
      × (length (prefix ++ p) < 2 ^ 64))
    × AreSerialized w tag service (u64 (sequence + 1)) ps

-- The gateway of the channel was given the opening and the messages, and nothing else, and is registered.
abbrev pub Opened : ℕ → ℕ → ℕ → Payload → List Payload → Server.Server → Server.Server → Type 0
Opened peer factory tag p ps s t =
    (Server.registered t.clients peer tag ≡ some s.next_gateway)
    × (channel_events s.next_gateway t.trace
        ≡ deliveries s.next_gateway 1 ps
          ++ Server.opened factory s.next_gateway p ∷ channel_events s.next_gateway s.trace)

abbrev pub Delivered : ℕ → ℕ → ℕ → ℕ → List Payload → Server.Server → Server.Server → Type 0
Delivered peer tag target sequence ps s t =
    (Server.registered t.clients peer tag ≡ some target)
    × (channel_events target t.trace
        ≡ deliveries target sequence ps ++ channel_events target s.trace)

module _ (ec : Client.Env) (es : Server.Env) (id service peer : ℕ) where
  -- What the client puts on the pipe for these payloads leaves the server that takes it in such a state.
  abbrev pub Passes :
      (Server.Server → Type 0) → List Payload → Client.Client → Server.Server → Type 0
  Passes P ps c s =
      (effects : List Client.Effect) × ((Client.Sending.send_run ec id service ps c).trace
        ≡ effects ++ c.trace)
      × P (Server.run es (receptions peer (sent_bytes ec c.trace effects)) s)
