-- ===== src/Ipc/Wire.antt =====
-- src/common/dsdl_helpers.hpp over the serialization that Nunavut generates from the DSDL files,
-- and the cut that takes the routing prefix off a message.
use yakut_native.Base.{
  ℕ, ◌+◌, ◌-◌, ◌^◌, ◌≤◌, ◌<◌, ◌≡◌, ap, ◌++◌, Option, none, some, arith, length, drop, drop-append,
  length-append, ℤ, ◌∙◌,
}
use yakut_native.Ipc.Types.{Payload, u64, Route, ChannelMsg, invalid}

-- The generated `serialize` and `deserialize` of `Route_0_1`, and `subspan` of CETL's span.
pub record Wire : Type 0 where
  pub serialize : Route → Option Payload
  pub deserialize : Payload → Option Route
  pub subspan : Payload → ℕ → Payload

-- What their documentation says: a serialized message reads back, also with bytes behind it
-- (DSDL's implicit truncation), and `subspan` is defined up to the end of the span.
pub record IsStandard (w : Wire) : Type 0 where
  pub reads_back :
      (r : Route) (bytes rest : Payload)
      → w.serialize r ≡ some bytes
      → w.deserialize (bytes ++ rest) ≡ some r
  pub subspan_drop : (p : Payload) (n : ℕ) → n ≤ length p → w.subspan p n ≡ drop n p

-- `tryPerformOnSerialized` over a state that the action may change.
abbrev pub try_perform_on_serialized {ℓ} :
    {S : Type ℓ} → Wire → Route → (Payload → S → S × ℤ) → S → S × ℤ
try_perform_on_serialized w r action s = elim (w.serialize r) [
  | none ↦ (s, invalid)
  | some bytes ↦ action bytes s
]

-- `payload.size() - route_ch_msg.payload_size`, in `std::size_t`.
unfoldable pub cut_offset : Payload → ChannelMsg → ℕ
cut_offset payload m = u64 (length payload + 2 ^ 64 - m.payload_size)

-- `payload.subspan(payload.size() - route_ch_msg.payload_size)`.
unfoldable pub cut_routing : Wire → Payload → ChannelMsg → Payload
unfolding cut_offset
cut_routing w payload m = w.subspan payload (cut_offset payload m)

-- The payload behind a routing prefix is what the cut leaves, if the size in the message is right.
pub cut_routing-append :
    (w : Wire) (prefix payload : Payload) (m : ChannelMsg)
    → IsStandard w
    → m.payload_size ≡ length payload
    → length (prefix ++ payload) < 2 ^ 64
    → cut_routing w (prefix ++ payload) m ≡ payload
unfolding cut_routing
cut_routing-append w prefix payload m std size fits =
    ap (w.subspan (prefix ++ payload)) offset
    ∙ std.subspan_drop (prefix ++ payload) (length prefix)
        (omega (arith, length-append prefix payload))
    ∙ drop-append prefix payload
  where
    offset : cut_offset (prefix ++ payload) m ≡ length prefix
    offset = omega (arith, length-append prefix payload, size, fits)
