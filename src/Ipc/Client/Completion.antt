-- ===== src/Ipc/Client/Completion.antt =====
-- How a channel ends, from either side (src/common/ipc/client_router.cpp).
use yakut_native.Base.{
  ℕ, ◌≡◌, refl, List, [], ◌∷◌, ◌++◌, Bool, true, ◌&&◌, none, some, arith, ℤ, pos, Map, find, assign,
  erase, find-assign, find-erase, ◌==◌, ==_refl, if◌then◌else◌, leb, ltb,
}
use yakut_native.Ipc.ErrorCode
use yakut_native.Ipc.Types.{Payload, completed, ChannelMsg, channel_end}
use yakut_native.Ipc.Wire.{Wire}
use yakut_native.Ipc.Client.{
  Gateway, Client, Env, Effect, sent, delivered, is_connected, is_registered_gateway, gateway_send,
  release, handle_route_channel_msg, gateway_complete, on_gateway_disposal,
}

-- The message that announces the end of a channel to the server, if it can be serialized.
abbrev pub end_frame : Wire → ℕ → ℤ → List Effect
end_frame w tag err = elim (w.serialize (channel_end tag err)) [
  | none ↦ []
  | some bytes ↦ sent (bytes ∷ []) ∷ []
]

disposal_frame :
    (e : Env) (tag : ℕ) (used : Bool) (err : ℤ) (s : Client)
    → let t = on_gateway_disposal e tag used err s in
      (t.heap ≡ s.heap)
      × (t.gateways ≡ erase tag s.gateways)
      × (t.trace
          ≡ (if is_registered_gateway s tag && used && is_connected s
              then end_frame e.wire tag err
              else [])
            ++ s.trace)
unfolding on_gateway_disposal is_registered_gateway
disposal_frame e tag used err s = (ground arith, ground arith, ground arith)

-- When the owner of a channel completes it with an error code and lets go of it, the gateway is gone
-- and its tag is free, while all other tags stay as they were. The server is sent this error code if
-- the gateway was registered, had sent something and is connected, and nothing otherwise.
pub client_complete-release :
    (e : Env) (id : ℕ) (err : ℤ) (s : Client) (g : Gateway)
    → find id s.heap ≡ some g
    → g.refs ≡ 1
    → let t = release e id (gateway_complete id err s) in
      (find id t.heap ≡ none)
      × ((tag : ℕ) → find tag t.gateways ≡ (if g.tag == tag then none else find tag s.gateways))
      × (t.trace
          ≡ (if is_registered_gateway s g.tag && ltb 0 g.next_sequence && is_connected s
              then end_frame e.wire g.tag err
              else [])
            ++ s.trace)
client_complete-release e id err s g found last = rw ends (
  rw (frame.0, find-erase id id heap, ==_refl id),
  λ tag. rw (frame.1, find-erase tag g.tag s.gateways),
  frame.2,
)
  where
    g' : Gateway
    g' = record g { completion_error_code = err }

    heap : Map Gateway
    heap = assign id g' s.heap

    s' : Client
    s' = record s { heap = erase id heap }

    t' : Client
    t' = on_gateway_disposal e g.tag (ltb 0 g.next_sequence) err s'

    completed_one : gateway_complete id err s ≡ record s { heap = heap }
    completed_one = unfold gateway_complete in rw (found, gateway_complete)

    here : find id heap ≡ some g'
    here = rw (find-assign id id g' s.heap, ==_refl id)

    last_one : leb g.refs 1 ≡ true
    last_one = rw last

    ends : release e id (gateway_complete id err s) ≡ t'
    ends = rw completed_one (unfold release in rw (here, release) (rw last_one refl))

    frame :
        (t'.heap ≡ erase id heap)
        × (t'.gateways ≡ erase g.tag s.gateways)
        × (t'.trace
            ≡ (if is_registered_gateway s g.tag && ltb 0 g.next_sequence && is_connected s
                then end_frame e.wire g.tag err
                else [])
              ++ s.trace)
    frame =
        unfold is_registered_gateway is_connected in
        disposal_frame e g.tag (ltb 0 g.next_sequence) err s'

-- What is so once the server has ended the channel of a gateway.
abbrev pub IsEnded : Env → ℕ → ℕ → ℤ → Client → Client → Type 0
IsEnded e tag id err s t =
    (t.trace ≡ delivered id (completed err) ∷ s.trace)
    × ((u : ℕ) → find u t.gateways ≡ (if tag == u then none else find u s.gateways))
    × ((service : ℕ) (payload : Payload)
        → gateway_send e id service payload t
          ≡ (t, if is_connected s then ErrorCode.shutdown else ErrorCode.not_connected))
    × ((m : ChannelMsg) (payload : Payload)
        → handle_route_channel_msg e (record m { tag = tag }) payload t ≡ (t, pos 0))
