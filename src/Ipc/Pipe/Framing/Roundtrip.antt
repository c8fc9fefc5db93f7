-- ===== src/Ipc/Pipe/Framing/Roundtrip.antt =====
-- What `SocketBase::send` writes, `SocketBase::receiveMessage` reads (src/common/ipc/pipe/socket_base.cpp).
use yakut_native.Base.{
  ℕ, ◌+◌, ◌/◌, ◌%◌, if◌then◌else◌, ◌≤◌, ◌<◌, ◌≡◌, refl, ap, ◌∙◌, List, [], ◌∷◌, ◌++◌, true, none,
  some, ℤ, pos, arith, length, take, drop, length-append, ◌^◌, ==_refl,
}
use yakut_native.Posix.{Outcome, returned, posix_syscall, posix_syscall-append, Interrupted}
use yakut_native.Ipc.Types.{Payload, joined, invalid}
use yakut_native.Ipc.Pipe.Framing.{
  msg_signature, msg_max_size, u32, MsgHeader, load32, header_bytes, store32, read_header,
  total_size, send_fragments, send, header, payload, ReadState, is_valid, take_header, take_payload,
  receive_payload, received, receive_message,
}

-- Each call of `::send` takes the whole fragment, after any number of interruptions.
abbrev pub AllSucceed : List Payload → List (List (Outcome ℕ)) → Type 0
AllSucceed [] calls = Unit
AllSucceed (p ∷ ps) [] = ⊥
AllSucceed (p ∷ ps) (attempts ∷ calls) =
    (posix_syscall attempts ≡ some (returned (length p))) × AllSucceed ps calls

pub length-joined : (ps : List Payload) → length (joined ps) ≡ total_size ps
unfolding total_size
length-joined [] = refl
length-joined (p ∷ ps) =
    length-append p (joined ps) ∙ ap (λ (n : ℕ). length p + n) (length-joined ps)

pub send_fragments-AllSucceed :
    (ps : List Payload) (calls : List (List (Outcome ℕ)))
    → AllSucceed ps calls
    → send_fragments ps calls ≡ some (ps, pos 0)
unfolding send_fragments
send_fragments-AllSucceed [] calls h = refl
send_fragments-AllSucceed (p ∷ ps) [] h = elim h [ ]
send_fragments-AllSucceed (p ∷ ps) (attempts ∷ calls) h =
    rw (h.0, send_fragments, send_fragments-AllSucceed ps calls h.1) refl

load-store :
    (n : ℕ)
    → n < 2 ^ 32
    → load32 (n % 256) (n / 256 % 256) (n / 65536 % 256) (n / 16777216 % 256) ≡ n
unfolding load32
load-store n fits = omega arith

-- A header that is written reads back.
pub read_header-header_bytes :
    (h : MsgHeader) → h.signature < 2 ^ 32 → h.size < 2 ^ 32 → read_header (header_bytes h) ≡ some h
unfolding read_header header_bytes store32
read_header-header_bytes h a b = rw (load-store h.signature a, load-store h.size b) refl

-- The call of `::recv` that gives bytes, after any number of interruptions.
pub posix_syscall-returned :
    (before : List (Outcome Payload)) (bytes : Payload)
    → Interrupted before
    → posix_syscall (before ++ returned bytes ∷ []) ≡ some (returned bytes)
posix_syscall-returned before bytes i =
    posix_syscall-append before (returned bytes ∷ []) i ∙ unfold posix_syscall in refl

take_header-header_bytes :
    (s : ReadState) (h : MsgHeader)
    → h.signature < 2 ^ 32
    → h.size < 2 ^ 32
    → take_header s (returned (header_bytes h)) ≡ (
        if is_valid h
        then (record { read_msg_size = h.size; read_phase = payload }, none)
        else (s, some invalid))
unfolding take_header header_bytes store32 read_header
take_header-header_bytes s h a b =
    rw (load-store h.signature a, take_header, load-store h.size b) refl

-- A state in the header phase.
abbrev pub idle : ℕ → ReadState
idle n = record { read_msg_size = n; read_phase = header }

-- The state after a header has been read in the header phase, and the payload's turn.
pub receive_message-header {ℓ} :
    {W : Type ℓ} (act : Payload → W → W × ℤ) (n : ℕ) (w : W) (h : MsgHeader)
    (before between : List (Outcome Payload))
    → Interrupted before
    → h.signature < 2 ^ 32
    → h.size < 2 ^ 32
    → receive_message act (idle n) w (before ++ returned (header_bytes h) ∷ []) between
      ≡ received act w between (
          if is_valid h
          then (record { read_msg_size = h.size; read_phase = payload }, none)
          else (idle n, some invalid))
unfolding receive_message
receive_message-header act n w h before between i a b =
    rw
      (
        posix_syscall-returned before (header_bytes h) i,
        receive_message,
        take_header-header_bytes (idle n) h a b,
      )
      refl

-- The header that `send` writes.
abbrev pub sent_header : List Payload → MsgHeader
sent_header payloads = record { signature = msg_signature; size = u32 (total_size payloads) }

-- What one side sends, if every call of `::send` takes its whole fragment, is a header of 8 bytes and
-- then the bytes of the payloads; and the other side, if its two calls of `::recv` give these bytes
-- and these are at least one and at most `msg_max_size`, runs its action once, on exactly the bytes of
-- the payloads, whatever interruptions there are, and is ready for the next header.
pub send-receive_message {ℓ} :
    {W : Type ℓ} (act : Payload → W → W × ℤ) (n : ℕ) (w : W) (payloads : List Payload)
    (calls : List (List (Outcome ℕ))) (before between : List (Outcome Payload))
    → AllSucceed (header_bytes (sent_header payloads) ∷ payloads) calls
    → Interrupted before
    → Interrupted between
    → 0 < total_size payloads
    → total_size payloads ≤ msg_max_size
    → (written : List Payload) × (send payloads calls ≡ some (written, pos 0))
      × (receive_message act
            (idle n)
            w
            (before ++ returned (take 8 (joined written)) ∷ [])
            (between ++ returned (drop 8 (joined written)) ∷ [])
          ≡ some (
            idle (total_size payloads),
            (act (joined payloads) w).0,
            (act (joined payloads) w).1,
          ))
send-receive_message act n w payloads calls before between ok i j some_bytes fits = (
  header_bytes (sent_header payloads) ∷ payloads,
  unfold send in send_fragments-AllSucceed _ calls ok,
  rw
      (
        taken,
        dropped,
        receive_message-header act n w (sent_header payloads) before
            (between ++ returned (joined payloads) ∷ []) i (omega arith) (omega arith),
        valid,
        size,
      )
      after,
)
  where
    written : List Payload
    written = header_bytes (sent_header payloads) ∷ payloads

    dropped : drop 8 (joined written) ≡ joined payloads
    dropped = unfold header_bytes store32 in refl

    taken : take 8 (joined written) ≡ header_bytes (sent_header payloads)
    taken = unfold header_bytes store32 in refl

    size : u32 (total_size payloads) ≡ total_size payloads
    size = omega arith

    valid : is_valid (sent_header payloads) ≡ true
    valid = unfold is_valid in ground arith

    after :
        received act w
          (between ++ returned (joined payloads) ∷ [])
          (record { read_msg_size = total_size payloads; read_phase = payload }, none)
        ≡ some
            (idle (total_size payloads), (act (joined payloads) w).0, (act (joined payloads) w).1)
    after =
        unfold received receive_payload take_payload in
        rw
          (
            posix_syscall-returned between (joined payloads) j,
            receive_payload,
            length-joined payloads,
            ==_refl (total_size payloads),
          )
          refl
