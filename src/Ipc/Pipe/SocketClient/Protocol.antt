-- ===== src/Ipc/Pipe/SocketClient/Protocol.antt =====
-- The events of `SocketClient` (src/common/ipc/pipe/socket_client.cpp): its users see connections, each
-- with its messages and then its disconnection, and between these a disconnection for each attempt
-- that fails.
use mathlib.Core.Path.{subst}
use yakut_native.Base.{
  ◌⊎◌, ℕ, ◌≡◌, ◌≢◌, refl, sym, ap, ◌∙◌, pos, negsuc, List, [], ◌∷◌, Bool, true, false, Option, none,
  some, ℤ, is_zero, inl, inr, arith, Option-cases, Bool-cases, if_intro, ◌==◌,
}
use yakut_native.Posix.{Outcome, posix_syscall}
use yakut_native.Ipc.Types.{Payload}
use yakut_native.Ipc.Client.{PipeEvent, pipe_connected, pipe_disconnected, pipe_message}
use yakut_native.Ipc.Pipe.Framing.{receive_message}
use yakut_native.Ipc.Pipe.Framing.Actions.{Leaves, receive_message-Leaves}
use yakut_native.Ipc.Pipe.SocketClient.{
  SocketClient, Handler, Callback, absent, connecting, receiving, init, start, make_socket_handle,
  event, handle_disconnect, is_failure, so_error, handle_connect, handle_receive, Call, starts,
  becomes_writable, becomes_readable, perform, run,
}

pub data Link : Type 0 where
  down up wrong : Link

abbrev pub connects : Link → Link
connects down = up
connects other = wrong

abbrev pub says : Link → Link
says up = up
says other = wrong

-- A disconnection ends a connection, or an attempt at one.
abbrev pub leaves : Link → Link
leaves up = down
leaves down = down
leaves wrong = wrong

-- The link after events, which are listed latest first.
abbrev pub link : List PipeEvent → Link
link [] = down
link (pipe_connected ∷ es) = connects (link es)
link (pipe_message p ∷ es) = says (link es)
link (pipe_disconnected ∷ es) = leaves (link es)

-- What the callback says of the link and of the socket.
abbrev pub link_of : Callback → Link
link_of absent = down
link_of connecting = down
link_of receiving = up

abbrev pub has_socket : Callback → Bool
has_socket absent = false
has_socket connecting = true
has_socket receiving = true

abbrev pub Agrees {ℓ} : {W : Type ℓ} → SocketClient W → Type 0
Agrees s = (link s.events ≡ link_of s.callback) × (s.is_open ≡ has_socket s.callback)

-- What a call leaves, if it ends.
abbrev AgreesAfter {ℓ} : {W : Type ℓ} → Option (SocketClient W) → Type 0
AgreesAfter none = Unit
AgreesAfter (some t) = Agrees t

no_socket : (c : Callback) → has_socket c ≡ false → link_of c ≡ down
no_socket absent e = refl
no_socket connecting e = refl
no_socket receiving e = ground arith

failure_not_zero : (err : ℤ) → is_failure err ≡ true → is_zero err ≡ false
unfolding is_failure
failure_not_zero (pos n) e = ground arith
failure_not_zero (negsuc n) e = ground arith

Callback-cases : (c : Callback) → (c ≡ absent) ⊎ ((c ≡ connecting) ⊎ (c ≡ receiving))
Callback-cases absent = inl refl
Callback-cases connecting = inr (inl refl)
Callback-cases receiving = inr (inr refl)

module _ {ℓ} {W : Type ℓ} (h : Handler W) where
  start-Agrees :
      (socket_err connect_err : ℤ) (s : SocketClient W)
      → s.is_open ≡ false
      → Agrees s
      → Agrees (start socket_err connect_err s).0
  unfolding start make_socket_handle
  start-Agrees socket_err connect_err s away v = elim (Bool-cases (is_zero socket_err)) [
    | inr broken ↦ rw (broken, make_socket_handle, broken) v
    | inl made ↦ elim (Bool-cases (is_failure connect_err)) [
      | inl failed ↦ rw (made, failed, failure_not_zero connect_err failed) v
      | inr okay ↦ rw (made, okay) (v.0 ∙ no_socket s.callback (sym v.1 ∙ away), refl)
    ]
  ]

  handle_disconnect-Agrees :
      (s : SocketClient W) → link s.events ≢ wrong → Agrees (handle_disconnect h s)
  unfolding handle_disconnect event
  handle_disconnect-Agrees s fine = (ground arith, refl)

  handle_connect-Agrees :
      (query : List (Outcome ℕ)) (s : SocketClient W)
      → s.callback ≡ connecting
      → Agrees s
      → AgreesAfter (handle_connect h query s)
  unfolding handle_connect
  handle_connect-Agrees query s waits v = elim (Option-cases (posix_syscall query)) [
    | inl e ↦ rw (e, handle_connect) tt
    | inr (outcome, e) ↦
        rw (e, handle_connect)
          (if_intro Agrees (so_error outcome == 0) _ _
            (λ _. unfold event in (ground (arith, is_down), opened))
            (λ _. handle_disconnect-Agrees s (λ w. ground (arith, is_down))))
  ]
    where
      is_down : link s.events ≡ down
      is_down = v.0 ∙ ap link_of waits

      opened : s.is_open ≡ true
      opened = v.1 ∙ ap has_socket waits

  -- What messages leave.
  Linked : SocketClient W → Type 0
  Linked t = (link t.events ≡ up) × (t.is_open ≡ true) × (t.callback ≡ receiving)

  event-Linked :
      (p : Payload) (s : SocketClient W) → Linked s → Linked (event h (pipe_message p) s).0
  unfolding Linked event
  event-Linked p s v = (ground arith, v.1, v.2)

  handle_receive-Agrees :
      (first late : List (Outcome Payload)) (s : SocketClient W)
      → s.callback ≡ receiving
      → Agrees s
      → AgreesAfter (handle_receive h first late s)
  unfolding handle_receive
  handle_receive-Agrees first late s waits v =
      elim (Option-cases (receive_message (λ p. event h (pipe_message p)) s.state s first late)) [
        | inl e ↦ rw (e, handle_receive) tt
        | inr ((state, u, err), e) ↦
            let l : Linked u = subst (Leaves Linked) e (
              receive_message-Leaves Linked (λ p. event h (pipe_message p)) s here
                (λ p. event-Linked p s here) s.state first late) in
            rw (e, handle_receive)
              (if_intro Agrees (is_zero err) _ _
                (λ _. unfold Linked in (l.0 ∙ sym (ap link_of l.2), l.1 ∙ sym (ap has_socket l.2)))
                (λ _.
                  handle_disconnect-Agrees (record u { state = state })
                    (λ w. unfold Linked in ground (arith, l.0))))
      ]
    where
      here : Linked s
      here = unfold Linked in (v.0 ∙ ap link_of waits, v.1 ∙ ap has_socket waits, waits)

  perform-Agrees : (c : Call) (s : SocketClient W) → Agrees s → AgreesAfter (perform h c s)
  unfolding perform
  perform-Agrees (starts socket_err connect_err) s v =
      if_intro Agrees s.is_open _ _ (λ _. v) (λ away. start-Agrees socket_err connect_err s away v)
  perform-Agrees (becomes_writable query) s v = elim (Callback-cases s.callback) [
    | inl e ↦ rw (e, perform) v
    | inr (inl e) ↦ rw (e, perform) (handle_connect-Agrees query s e v)
    | inr (inr e) ↦ rw (e, perform) v
  ]
  perform-Agrees (becomes_readable first late) s v = elim (Callback-cases s.callback) [
    | inl e ↦ rw (e, perform) v
    | inr (inl e) ↦ rw (e, perform) v
    | inr (inr e) ↦ rw (e, perform) (handle_receive-Agrees first late s e v)
  ]

  run-Agrees : (cs : List Call) (s : SocketClient W) → Agrees s → Agrees (run h cs s)
  unfolding run
  run-Agrees [] s v = v
  run-Agrees (c ∷ cs) s v = elim (Option-cases (perform h c s)) [
    | inl e ↦ rw (e, run) v
    | inr (t, e) ↦ rw (e, run) (run-Agrees cs t (subst AgreesAfter e (perform-Agrees c s v)))
  ]

  -- Whatever its owner and the executor call, from the beginning on, and whatever the event handler
  -- answers: a connection is told only to a client that is not connected, and a message only to one
  -- that is; the client waits for data exactly while it is connected, and it has a socket exactly while
  -- it waits for something.
  pub run-init-Agrees : (cs : List Call) (w : W) → Agrees (run h cs (init w))
  run-init-Agrees cs w = run-Agrees cs (init w) (unfold init in (refl, refl))
