-- ===== src/Ipc/Pipe/Framing.antt =====
-- `SocketBase` of src/common/ipc/pipe/socket_base.cpp: a message on a stream socket is a header, with
-- a signature and a size, and the bytes of its fragments.
--
-- A call of `::send` or `::recv` is given by the outcomes of its attempts, as in Posix. `none` says
-- that the outcomes listed end while the retry loop still runs. The header is laid out as on a
-- little-endian machine.
pub mod Roundtrip
pub mod Limits
pub mod Actions
use yakut_native.Base.{
  ℕ, ◌+◌, ◌*◌, ◌/◌, ◌%◌, ◌^◌, List, [], ◌∷◌, Bool, true, false, not, ◌&&◌, ◌||◌, Option, none, some,
  ℤ, pos, negsuc, ltb, leb, ◌==◌, if◌then◌else◌, length,
}
use yakut_native.Posix.{Outcome, returned, failed, posix_syscall, eagain, einval}
use yakut_native.Ipc.Types.{Payload, invalid}

abbrev pub msg_signature : ℕ
msg_signature = 1398162255

abbrev pub msg_max_size : ℕ
msg_max_size = 2 ^ 20

-- `static_cast<std::uint32_t>`.
abbrev pub u32 : ℕ → ℕ
u32 n = n % 2 ^ 32

pub record MsgHeader : Type 0 where
  pub signature : ℕ
  pub size : ℕ

-- The bytes of a `std::uint32_t`, and back.
unfoldable pub store32 : ℕ → Payload → Payload
store32 n rest = n % 256 ∷ n / 256 % 256 ∷ n / 65536 % 256 ∷ n / 16777216 % 256 ∷ rest

unfoldable pub load32 : ℕ → ℕ → ℕ → ℕ → ℕ
load32 a b c d = a + 256 * b + 65536 * c + 16777216 * d

-- The object representation of a header, and what a full read of one leaves in it.
unfoldable pub header_bytes : MsgHeader → Payload
unfolding store32
header_bytes h = store32 h.signature (store32 h.size [])

unfoldable pub read_header : Payload → Option MsgHeader
read_header (a ∷ b ∷ c ∷ d ∷ e ∷ f ∷ g ∷ h ∷ []) =
    some (record { signature = load32 a b c d; size = load32 e f g h })
read_header other = none

unfoldable pub total_size : List Payload → ℕ
total_size [] = 0
total_size (p ∷ ps) = length p + total_size ps

-- The two loops of `SocketBase::send`: what was handed to `::send`, and the result.
unfoldable pub send_fragments : List Payload → List (List (Outcome ℕ)) → Option (List Payload × ℤ)
send_fragments [] calls = some ([], pos 0)
send_fragments (p ∷ ps) [] = none
send_fragments (p ∷ ps) (attempts ∷ calls) =
    let rest = send_fragments ps calls in
    elim (posix_syscall attempts) [
      | none ↦ none
      | some (failed err) ↦ some (p ∷ [], pos err)
      | some (returned n) ↦ elim rest [
        | none ↦ none
        | some (written, err) ↦ some (p ∷ written, err)
      ]
    ]

unfoldable pub send : List Payload → List (List (Outcome ℕ)) → Option (List Payload × ℤ)
unfolding send_fragments
send payloads calls =
    send_fragments
      (header_bytes (record { signature = msg_signature; size = u32 (total_size payloads) })
        ∷ payloads)
      calls

pub data ReadPhase : Type 0 where
  header payload : ReadPhase

-- `SocketBase::State`, less its descriptor.
pub record ReadState : Type 0 where
  pub read_msg_size : ℕ
  pub read_phase : ReadPhase

unfoldable pub initial : ReadState
initial = record { read_msg_size = 0; read_phase = header }

-- The test of a header that was read.
unfoldable pub is_valid : MsgHeader → Bool
is_valid h = h.signature == msg_signature && (not (h.size == 0) && not (ltb msg_max_size h.size))

-- What the read of a header leads to: a result, or the state in which the payload is read. (A result
-- of 0 bytes is the end of the stream, -1.)
unfoldable pub take_header : ReadState → Outcome Payload → ReadState × Option ℤ
unfolding is_valid read_header
take_header s (failed err) = if err == eagain then (s, some (pos 0)) else (s, some (pos err))
take_header s (returned []) = (s, some (negsuc 0))
take_header s (returned (b ∷ bytes)) = elim (read_header (b ∷ bytes)) [
  | none ↦ (s, some invalid)
  | some h ↦
      if is_valid h
      then (record { read_msg_size = h.size; read_phase = payload }, none)
      else (s, some invalid)
]

-- `read_and_act`, over the world that the action changes.
unfoldable pub take_payload {ℓ} :
    {W : Type ℓ} → (Payload → W → W × ℤ) → ReadState → W → Outcome Payload → ReadState × W × ℤ
take_payload act s w (failed err) = if err == eagain then (s, w, pos 0) else (s, w, pos err)
take_payload act s w (returned bytes) =
    if length bytes == s.read_msg_size
    then (record s { read_phase = header }, (act bytes w).0, (act bytes w).1)
    else (s, w, invalid)

unfoldable pub receive_payload {ℓ} :
    {W : Type ℓ}
    → (Payload → W → W × ℤ)
    → ReadState
    → W
    → List (Outcome Payload)
    → Option (ReadState × W × ℤ)
unfolding take_payload
receive_payload act s w attempts = elim (posix_syscall attempts) [
  | none ↦ none
  | some outcome ↦ some (take_payload act s w outcome)
]

unfoldable pub received {ℓ} :
    {W : Type ℓ}
    → (Payload → W → W × ℤ)
    → W
    → List (Outcome Payload)
    → ReadState × Option ℤ
    → Option (ReadState × W × ℤ)
unfolding receive_payload
received act w attempts (s, none) = receive_payload act s w attempts
received act w attempts (s, some result) = some (s, w, result)

-- `SocketBase::receiveMessage`; the attempts are those of the two calls of `::recv`.
unfoldable pub receive_message {ℓ} :
    {W : Type ℓ}
    → (Payload → W → W × ℤ)
    → ReadState
    → W
    → List (Outcome Payload)
    → List (Outcome Payload)
    → Option (ReadState × W × ℤ)
unfolding take_header received
receive_message act s w header_attempts payload_attempts = elim s.read_phase [
  | payload ↦ receive_payload act s w payload_attempts
  | header ↦ elim (posix_syscall header_attempts) [
    | none ↦ none
    | some outcome ↦ received act w payload_attempts (take_header s outcome)
  ]
]
