-- ===== src/Ipc/Pipe/Framing/Actions.antt =====
-- What `SocketBase::receiveMessage` of src/common/ipc/pipe/socket_base.cpp does with its action: it runs
-- it at most once.
use yakut_native.Base.{
  ℕ, List, Option, none, some, ℤ, inl, inr, Option-cases, Bool-cases, length, ◌==◌,
}
use yakut_native.Posix.{Outcome, returned, failed, posix_syscall, eagain}
use yakut_native.Ipc.Types.{Payload}
use yakut_native.Ipc.Pipe.Framing.{
  ReadPhase, header, payload, ReadState, take_header, take_payload, receive_payload, received,
  receive_message,
}

-- A property of the world that a read leaves.
abbrev pub Leaves {ℓ κ} : {W : Type ℓ} → (W → Type κ) → Option (ReadState × W × ℤ) → Type κ
Leaves P none = Unit
Leaves P (some (s, w, err)) = P w

module _ {ℓ κ} {W : Type ℓ} (P : W → Type κ) (act : Payload → W → W × ℤ) (w : W) (before : P w)
    (after : (p : Payload) → P (act p w).0) where
  receive_payload-Leaves :
      (s : ReadState) (late : List (Outcome Payload)) → Leaves P (receive_payload act s w late)
  unfolding receive_payload take_payload
  receive_payload-Leaves s late = elim (Option-cases (posix_syscall late)) [
    | inl e ↦ rw (e, receive_payload) tt
    | inr (failed err, e) ↦ elim (Bool-cases (err == eagain)) [
      | inl b ↦ rw (e, receive_payload, b) before
      | inr b ↦ rw (e, receive_payload, b) before
    ]
    | inr (returned bytes, e) ↦ elim (Bool-cases (length bytes == s.read_msg_size)) [
      | inl b ↦ rw (e, receive_payload, b) (after bytes)
      | inr b ↦ rw (e, receive_payload, b) before
    ]
  ]

  received-Leaves :
      (late : List (Outcome Payload)) (r : ReadState × Option ℤ) → Leaves P (received act w late r)
  unfolding received
  received-Leaves late (s, none) = receive_payload-Leaves s late
  received-Leaves late (s, some result) = before

  phase-Leaves :
      (n : ℕ) (phase : ReadPhase) (first late : List (Outcome Payload))
      → Leaves P
          (receive_message act (record { read_msg_size = n; read_phase = phase }) w first late)
  unfolding receive_message
  phase-Leaves n payload first late = receive_payload-Leaves _ late
  phase-Leaves n header first late = elim (Option-cases (posix_syscall first)) [
    | inl e ↦ rw (e, receive_message) tt
    | inr (o, e) ↦ rw (e, receive_message) (received-Leaves late (take_header _ o))
  ]

  pub receive_message-Leaves :
      (s : ReadState) (first late : List (Outcome Payload))
      → Leaves P (receive_message act s w first late)
  receive_message-Leaves s first late = phase-Leaves s.read_msg_size s.read_phase first late
