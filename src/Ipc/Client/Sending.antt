-- ===== src/Ipc/Client/Sending.antt =====
-- The messages that a client gateway sends (`GatewayImpl::send` of src/common/ipc/client_router.cpp).
use yakut_native.Base.{
  ℕ, ◌+◌, ◌≡◌, refl, sym, ap, ◌∙◌, List, [], ◌∷◌, ◌++◌, true, false, none, some, arith, find,
  find-assign, length, append_assoc,
}
use yakut_native.Ipc.ErrorCode
use yakut_native.Ipc.Types.{Payload, u64, channel_msg}
use yakut_native.Ipc.Wire.{Wire}
use yakut_native.Ipc.Client.{
  Gateway, Client, Env, Effect, sent, is_connected, is_registered_gateway, gateway_send,
}

-- Payloads sent one after the other.
unfoldable pub send_run : Env → ℕ → ℕ → List Payload → Client → Client
send_run e id service [] s = s
send_run e id service (p ∷ ps) s = send_run e id service ps (gateway_send e id service p s).0

-- One message on the pipe, if it can be serialized.
abbrev pub frame : Wire → ℕ → ℕ → ℕ → Payload → List Effect
frame w tag service sequence payload =
    elim (w.serialize (
      channel_msg (record {
        tag = tag;
        sequence = sequence;
        service_id = service;
        payload_size = length payload;
      }))) [ none ↦ [] | some prefix ↦ sent (prefix ∷ payload ∷ []) ∷ [] ]

-- Messages numbered from `sequence` on, latest first.
abbrev pub frames : Wire → ℕ → ℕ → ℕ → List Payload → List Effect
frames w tag service sequence [] = []
frames w tag service sequence (p ∷ ps) =
    frames w tag service (u64 (sequence + 1)) ps ++ frame w tag service sequence p

module _ (e : Env) (id service : ℕ) where
  pub gateway_send-not_connected :
      (p : Payload) (s : Client) (g : Gateway)
      → find id s.heap ≡ some g
      → is_connected s ≡ false
      → gateway_send e id service p s ≡ (s, ErrorCode.not_connected)
  unfolding gateway_send
  gateway_send-not_connected p s g found away = rw (found, gateway_send, away)

  pub gateway_send-shutdown :
      (p : Payload) (s : Client) (g : Gateway)
      → find id s.heap ≡ some g
      → is_connected s ≡ true
      → is_registered_gateway s g.tag ≡ false
      → gateway_send e id service p s ≡ (s, ErrorCode.shutdown)
  unfolding gateway_send
  gateway_send-shutdown p s g found c r = rw (found, gateway_send, c, r)

  pub gateway_send_step :
      (p : Payload) (s : Client) (g : Gateway)
      → find id s.heap ≡ some g
      → is_connected s ≡ true
      → is_registered_gateway s g.tag ≡ true
      → let t = (gateway_send e id service p s).0 in
        (t.gateways ≡ s.gateways)
        × (t.linked ≡ s.linked)
        × (find id t.heap ≡ some (record g { next_sequence = u64 (g.next_sequence + 1) }))
        × (t.trace ≡ frame e.wire g.tag service g.next_sequence p ++ s.trace)
  unfolding gateway_send
  gateway_send_step p s g found c r =
      rw (found, gateway_send, c, r)
        (ground arith, ground arith, ground (arith, find-assign id id g' s.heap), ground arith)
    where
      g' : Gateway
      g' = record g { next_sequence = u64 (g.next_sequence + 1) }

  -- The payloads that a registered gateway of a connected client sends go out in order, each in one
  -- message that carries the endpoint's tag, the payload's size and the next sequence number modulo
  -- 2 ^ 64; a payload whose prefix cannot be serialized goes out in no message and uses up its number.
  pub client_send_run-frames :
      (ps : List Payload) (s : Client) (g : Gateway)
      → find id s.heap ≡ some g
      → is_connected s ≡ true
      → is_registered_gateway s g.tag ≡ true
      → (send_run e id service ps s).trace
        ≡ frames e.wire g.tag service g.next_sequence ps ++ s.trace
  unfolding send_run
  client_send_run-frames [] s g found c r = refl
  client_send_run-frames (p ∷ ps) s g found c r =
      client_send_run-frames ps t (record g { next_sequence = u64 (g.next_sequence + 1) }) step.2
        (unfold is_connected in (step.1 ∙ c))
        (unfold is_registered_gateway in rw (step.0, is_registered_gateway) r)
      ∙ ap (◌++◌ (frames e.wire g.tag service (u64 (g.next_sequence + 1)) ps)) step.3
      ∙ sym (
          append_assoc (frames e.wire g.tag service (u64 (g.next_sequence + 1)) ps)
            (frame e.wire g.tag service g.next_sequence p) s.trace)
    where
      t : Client
      t = (gateway_send e id service p s).0

      step :
          (t.gateways ≡ s.gateways)
          × (t.linked ≡ s.linked)
          × (find id t.heap ≡ some (record g { next_sequence = u64 (g.next_sequence + 1) }))
          × (t.trace ≡ frame e.wire g.tag service g.next_sequence p ++ s.trace)
      step = gateway_send_step p s g found c r
