-- ===== src/Ipc/Pipe/Framing/Limits.antt =====
-- The phases of a read and the sizes that pass (`SocketBase::receiveMessage` of
-- src/common/ipc/pipe/socket_base.cpp).
use yakut_native.Base.{
  ℕ, ◌≤◌, ◌<◌, ◌^◌, ◌≡◌, refl, List, [], ◌∷◌, ◌++◌, Bool, true, false, ◌&&◌, Option, none, some, ℤ,
  pos, arith, take, ltb, leb, inl, inr, Option-cases, Bool-cases, ◌==◌,
}
use yakut_native.Posix.{Outcome, returned, failed, posix_syscall, Interrupted, eagain}
use yakut_native.Ipc.Types.{Payload, joined, invalid}
use yakut_native.Ipc.Pipe.Framing.{
  msg_max_size, u32, MsgHeader, header_bytes, store32, read_header, total_size, send, ReadPhase,
  header, payload, ReadState, is_valid, take_header, take_payload, receive_payload, received,
  receive_message,
}
use yakut_native.Ipc.Pipe.Framing.Roundtrip.{
  AllSucceed, sent_header, idle, receive_message-header, send_fragments-AllSucceed,
}

-- A payload is awaited only with a size that was admitted.
abbrev pub is_bounded : ReadState → Bool
is_bounded s = elim s.read_phase [
  | header ↦ true
  | payload ↦ ltb 0 s.read_msg_size && leb s.read_msg_size msg_max_size
]

-- A read that stopped in the payload phase, taken up again.
abbrev pub continued {ℓ} :
    {W : Type ℓ}
    → (Payload → W → W × ℤ)
    → List (Outcome Payload)
    → Option (ReadState × W × ℤ)
    → Option (ReadState × W × ℤ)
continued act late none = none
continued act late (some (s, w, err)) = elim s.read_phase [
  | header ↦ some (s, w, err)
  | payload ↦ receive_message act s w [] late
]

module _ {ℓ} {W : Type ℓ} (act : Payload → W → W × ℤ) (w : W) where
  take_header_resumes :
      (n : ℕ) (late : List (Outcome Payload)) (o : Outcome Payload)
      → continued act late (received act w (failed eagain ∷ []) (take_header (idle n) o))
        ≡ received act w late (take_header (idle n) o)
  unfolding take_header receive_message received receive_payload take_payload posix_syscall
  take_header_resumes n late (failed err) = elim (Bool-cases (err == eagain)) [
    | inl e ↦ rw (e, take_header) refl
    | inr e ↦ rw (e, take_header) refl
  ]
  take_header_resumes n late (returned []) = refl
  take_header_resumes n late (returned (b ∷ bytes)) =
      elim (Option-cases (read_header (b ∷ bytes))) [
        | inl e ↦ rw (e, take_header) refl
        | inr (h, e) ↦ elim (Bool-cases (is_valid h)) [
          | inl v ↦ rw (e, take_header, v) refl
          | inr v ↦ rw (e, take_header, v) refl
        ]
      ]

  phase_resumes :
      (n : ℕ) (phase : ReadPhase) (first late : List (Outcome Payload))
      → let s : ReadState = record { read_msg_size = n; read_phase = phase } in
        continued act late (receive_message act s w first (failed eagain ∷ []))
        ≡ receive_message act s w first late
  unfolding receive_message
  phase_resumes n payload first late = unfold receive_payload take_payload posix_syscall in refl
  phase_resumes n header first late = elim (Option-cases (posix_syscall first)) [
    | inl e ↦ rw (e, receive_message) refl
    | inr (o, e) ↦ rw (e, receive_message) (take_header_resumes n late o)
  ]

  -- A read whose payload is not there yet, and is taken up again later, ends as if the payload had been
  -- there at once: in both phases, and for every outcome of either call.
  pub receive_message_resumes :
      (s : ReadState) (first late : List (Outcome Payload))
      → continued act late (receive_message act s w first (failed eagain ∷ []))
        ≡ receive_message act s w first late
  receive_message_resumes s first late = phase_resumes s.read_msg_size s.read_phase first late

admitted : (h : MsgHeader) → is_valid h ≡ true → (0 < h.size) × (h.size ≤ msg_max_size)
unfolding is_valid
admitted h v = (ground arith, ground arith)

abbrev pub is_bounded_result {ℓ} : {W : Type ℓ} → Option (ReadState × W × ℤ) → Bool
is_bounded_result none = true
is_bounded_result (some (t, w, err)) = is_bounded t

module _ {ℓ} {W : Type ℓ} (act : Payload → W → W × ℤ) (w : W) where
  receive_payload-is_bounded :
      (n : ℕ) (late : List (Outcome Payload))
      → 0 < n
      → n ≤ msg_max_size
      → is_bounded_result
          (receive_payload act (record { read_msg_size = n; read_phase = payload }) w late)
        ≡ true
  unfolding receive_payload
  receive_payload-is_bounded n late some_bytes fits = elim (Option-cases (posix_syscall late)) [
    | inl e ↦ rw (e, receive_payload) refl
    | inr (failed err, e) ↦ rw (e, receive_payload) (unfold take_payload in ground arith)
    | inr (returned bytes, e) ↦ rw (e, receive_payload) (unfold take_payload in ground arith)
  ]

  received-is_bounded :
      (n : ℕ) (late : List (Outcome Payload)) (o : Outcome Payload)
      → is_bounded_result (received act w late (take_header (idle n) o)) ≡ true
  unfolding take_header received is_valid
  received-is_bounded n late (failed err) = ground arith
  received-is_bounded n late (returned []) = refl
  received-is_bounded n late (returned (b ∷ bytes)) =
      elim (Option-cases (read_header (b ∷ bytes))) [
        | inl e ↦ rw (e, take_header) refl
        | inr (h, e) ↦ elim (Bool-cases (is_valid h)) [
          | inl v ↦
              rw (e, take_header, v)
                (receive_payload-is_bounded h.size late (admitted h v).0 (admitted h v).1)
          | inr v ↦ rw (e, take_header, v) refl
        ]
      ]

  phase-is_bounded :
      (n : ℕ) (phase : ReadPhase) (first late : List (Outcome Payload))
      → let s : ReadState = record { read_msg_size = n; read_phase = phase } in
        is_bounded s ≡ true → is_bounded_result (receive_message act s w first late) ≡ true
  unfolding receive_message
  phase-is_bounded n payload first late b =
      receive_payload-is_bounded n late (ground arith) (ground arith)
  phase-is_bounded n header first late b = elim (Option-cases (posix_syscall first)) [
    | inl e ↦ rw (e, receive_message) refl
    | inr (o, e) ↦ rw (e, receive_message) (received-is_bounded n late o)
  ]

  -- Whatever the other end sends, a read that began with an admitted size, or none, leaves one: a payload
  -- is awaited, and a buffer made for it, only with a size of at least 1 and at most `msg_max_size`.
  pub receive_message-is_bounded :
      (s : ReadState) (first late : List (Outcome Payload))
      → is_bounded s ≡ true
      → is_bounded_result (receive_message act s w first late) ≡ true
  receive_message-is_bounded s first late b =
      phase-is_bounded s.read_msg_size s.read_phase first late b

-- A message whose fragments are empty, or have more bytes than `msg_max_size` (and fewer than 2 ^ 32),
-- is sent without an error, and the other side takes its header for an invalid one: nothing is
-- acted on, and the result is `EINVAL`.
pub send-refused {ℓ} :
    {W : Type ℓ} (act : Payload → W → W × ℤ) (n : ℕ) (w : W) (payloads : List Payload)
    (calls : List (List (Outcome ℕ))) (before late : List (Outcome Payload))
    → AllSucceed (header_bytes (sent_header payloads) ∷ payloads) calls
    → Interrupted before
    → (ltb 0 (total_size payloads) && leb (total_size payloads) msg_max_size) ≡ false
    → total_size payloads < 2 ^ 32
    → (written : List Payload) × (send payloads calls ≡ some (written, pos 0))
      × (receive_message act (idle n) w (before ++ returned (take 8 (joined written)) ∷ []) late
          ≡ some (idle n, w, invalid))
send-refused act n w payloads calls before late ok i odd fits = (
  written,
  unfold send in send_fragments-AllSucceed _ calls ok,
  rw
      (
        taken,
        receive_message-header act n w (sent_header payloads) before late i (omega arith)
            (omega arith),
        refused,
      )
      (unfold received in refl),
)
  where
    written : List Payload
    written = header_bytes (sent_header payloads) ∷ payloads

    taken : take 8 (joined written) ≡ header_bytes (sent_header payloads)
    taken = unfold header_bytes store32 in refl

    size : u32 (total_size payloads) ≡ total_size payloads
    size = omega arith

    refused : is_valid (sent_header payloads) ≡ false
    refused = unfold is_valid in ground arith
