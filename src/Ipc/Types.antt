-- ===== src/Ipc/Types.antt =====
-- src/common/ipc/ipc_types.hpp (payloads), gateway.hpp (events) and the DSDL types of
-- src/common/dsdl/ocvsmd/common/ipc. Payloads are lists of bytes, and `uint64` values are numbers
-- below 2 ^ 64.
use yakut_native.Base.{ℕ, ◌%◌, ◌^◌, List, [], ◌∷◌, ◌++◌, ℤ, pos}
use yakut_native.Posix.{einval}

abbrev pub Payload : Type 0
Payload = List ℕ

-- The bytes of several payloads, one after the other.
abbrev pub joined : List Payload → Payload
joined [] = []
joined (p ∷ ps) = p ++ joined ps

-- Arithmetic of `std::uint64_t` and `std::size_t`.
abbrev pub u64 : ℕ → ℕ
u64 n = n % 2 ^ 64

abbrev pub invalid : ℤ
invalid = pos einval

-- `Gateway::Event::Var`.
pub data Event : Type 0 where
  connected : Event
  message : ℕ → Payload → Event
  completed : ℤ → Event

-- `RouteChannelMsg_0_1`.
pub record ChannelMsg : Type 0 where
  pub tag : ℕ
  pub sequence : ℕ
  pub service_id : ℕ
  pub payload_size : ℕ

-- `Route_0_1`: the union of the messages between the routers.
pub data Route : Type 0 where
  empty : Route
  connect : (major minor : ℕ) → (error_code : ℤ) → Route
  channel_msg : ChannelMsg → Route
  channel_end : (tag : ℕ) → (error_code : ℤ) → Route

-- `VERSION_MAJOR` and `VERSION_MINOR`, given by the build.
pub record Version : Type 0 where
  pub major : ℕ
  pub minor : ℕ
