-- ===== src/Ipc/Pipe/SocketServer/Protocol.antt =====
-- The events of `SocketServer` (src/common/ipc/pipe/socket_server.cpp) follow the automaton of Status.
use mathlib.Core.Path.{subst}
use yakut_native.Base.{
  ℕ, ◌+◌, ◌<◌, ◌≤◌, ◌^◌, ◌≡◌, refl, sym, ◌∙◌, List, [], ◌∷◌, Bool, true, false, ◌&&◌, Option, none,
  some, inl, inr, arith, Option-cases, Bool-cases, find, contains, erase, assign, insert,
  find-erase, find-assign, find-insert, contains-find, ltb, leb, ◌==◌, if◌then◌else◌, is_zero,
  length, ==_refl, ==_iff,
}
use yakut_native.Posix.{Outcome}
use yakut_native.Ipc.Types.{Payload, u64}
use yakut_native.Ipc.Server.{pipe_connected, pipe_disconnected, pipe_message}
use yakut_native.Ipc.Pipe.Framing.{ReadState, initial, receive_message}
use yakut_native.Ipc.Pipe.Framing.Actions.{Leaves, receive_message-Leaves}
use yakut_native.Ipc.Pipe.SocketServer.Status.{unheard, opened, closed, status, known}
use yakut_native.Ipc.Pipe.SocketServer.{
  SocketServer, Handler, init, event, handle_accept, handle_client_request, Call, accepts, reads,
  perform, run,
}

pub record Inv {ℓ} {W : Type ℓ} (s : SocketServer W) : Type ℓ where
  pub tracked : (j : ℕ) → status j s.events ≡ known s j
  pub counted : (j : ℕ) → contains j s.contexts ≡ true → (0 < j) × (j ≤ s.counter)

module _ {ℓ} {W : Type ℓ} (h : Handler W) where
  handle_accept-Inv :
      (ok : Bool) (s : SocketServer W) → s.counter + 1 < 2 ^ 64 → Inv s → Inv (handle_accept h ok s)
  unfolding handle_accept event
  handle_accept-Inv false s few v = v
  handle_accept-Inv true s few v = record { tracked = tracked; counted = counted }
    where
      id : ℕ
      id = u64 (s.counter + 1)

      next : id ≡ s.counter + 1
      next = omega arith

      fresh : contains id s.contexts ≡ false
      fresh = elim (Bool-cases (contains id s.contexts)) [
        | inl there ↦ let (a, b) = v.counted id there in ground arith
        | inr gone ↦ gone
      ]

      unheard_before : status id s.events ≡ unheard
      unheard_before = v.tracked id ∙ ground (arith, fresh, next)

      holds :
          (j : ℕ)
          → contains j (insert id initial s.contexts)
            ≡ (if id == j then true else contains j s.contexts)
      holds j = ground (
        arith,
        find-insert j id initial s.contexts,
        contains-find j (insert id initial s.contexts),
        contains-find j s.contexts,
      )

      tracked :
          (j : ℕ)
          → status j (pipe_connected id ∷ s.events) ≡ (
              if contains j (insert id initial s.contexts)
              then opened
              else if ltb 0 j && leb j id
              then closed
              else unheard)
      tracked j = elim (Bool-cases (id == j)) [
        | inl same ↦
            subst
              (λ (k : ℕ). status k (pipe_connected id ∷ s.events) ≡ (
                if contains k (insert id initial s.contexts)
                then opened
                else if ltb 0 k && leb k id
                then closed
                else unheard))
              {x = id} (ground arith) (ground (arith, holds id, unheard_before, ==_refl id, next))
        | inr other ↦ ground (arith, holds j, v.tracked j, next)
      ]

      counted : (j : ℕ) → contains j (insert id initial s.contexts) ≡ true → (0 < j) × (j ≤ id)
      counted j there = elim (Bool-cases (id == j)) [
        | inl same ↦ (ground (arith, next), ground arith)
        | inr other ↦
            let (a, b) = v.counted j (ground (arith, holds j)) in (a, ground (arith, next))
      ]

  -- What a message of a client leaves: only the events are longer, and no status is another.
  Told : SocketServer W → SocketServer W → Type 0
  Told s t =
      (t.contexts ≡ s.contexts)
      × (t.counter ≡ s.counter)
      × ((j : ℕ) → status j t.events ≡ status j s.events)

  event-Told :
      (id : ℕ) (s : SocketServer W) (p : Payload)
      → status id s.events ≡ opened
      → Told s (event h (pipe_message id p) s).0
  unfolding Told event
  event-Told id s p here = (
    refl,
    refl,
    λ j. elim (Bool-cases (id == j)) [
      | inl same ↦
          subst (λ (k : ℕ). status k (pipe_message id p ∷ s.events) ≡ status k s.events) {x = id}
            (ground arith) (ground (arith, ==_refl id))
      | inr other ↦ ground arith
    ],
  )

  kept-Inv :
      (id : ℕ) (r state : ReadState) (s t : SocketServer W)
      → Inv s
      → find id s.contexts ≡ some r
      → Told s t
      → Inv (record t { contexts = assign id state t.contexts })
  unfolding Told
  kept-Inv id r state s t v found told = record {
    tracked = λ j. told.2 j ∙ v.tracked j ∙ same j;
    counted = λ j there. rw told.1 (v.counted j (sym (holds j) ∙ there));
  }
    where
      holds : (j : ℕ) → contains j (assign id state t.contexts) ≡ contains j s.contexts
      holds j = rw told.0 (
          ground (
            arith,
            contains-find j (assign id state s.contexts),
            contains-find j s.contexts,
            find-assign j id state s.contexts,
            ==_iff id j,
          ))

      same : (j : ℕ) → known s j ≡ known (record t { contexts = assign id state t.contexts }) j
      same j = rw (holds j, told.1) refl

  dropped-Inv :
      (id : ℕ) (r : ReadState) (s t : SocketServer W)
      → Inv s
      → find id s.contexts ≡ some r
      → Told s t
      → Inv (event h (pipe_disconnected id) (record t { contexts = erase id t.contexts })).0
  unfolding Told event
  dropped-Inv id r s t v found told = record { tracked = tracked; counted = counted }
    where
      here : contains id s.contexts ≡ true
      here = rw (contains-find id s.contexts, found)

      holds :
          (j : ℕ)
          → contains j (erase id t.contexts) ≡ (if id == j then false else contains j s.contexts)
      holds j = rw told.0 (
          ground (
            arith,
            contains-find j (erase id s.contexts),
            contains-find j s.contexts,
            find-erase j id s.contexts,
          ))

      was_opened : status id s.events ≡ opened
      was_opened = v.tracked id ∙ ground (arith, here)

      bounds : (0 < id) × (id ≤ s.counter)
      bounds = v.counted id here

      tracked :
          (j : ℕ)
          → status j (pipe_disconnected id ∷ t.events) ≡ (
              if contains j (erase id t.contexts)
              then opened
              else if ltb 0 j && leb j t.counter
              then closed
              else unheard)
      tracked j = elim (Bool-cases (id == j)) [
        | inl same ↦
            subst
              (λ (k : ℕ). status k (pipe_disconnected id ∷ t.events) ≡ (
                if contains k (erase id t.contexts)
                then opened
                else if ltb 0 k && leb k t.counter
                then closed
                else unheard))
              {x = id} (ground arith)
              (rw told.1
                (ground (arith, holds id, told.2 id, was_opened, ==_refl id, bounds.0, bounds.1)))
        | inr other ↦ rw told.1 (ground (arith, holds j, told.2 j, v.tracked j))
      ]

      counted : (j : ℕ) → contains j (erase id t.contexts) ≡ true → (0 < j) × (j ≤ t.counter)
      counted j there = rw told.1 (v.counted j (ground (arith, holds j)))

  -- What a call leaves, if it ends.
  Good : SocketServer W → Option (SocketServer W) → Type ℓ
  Good s none = Unit
  Good s (some t) = Inv t × (t.counter ≤ s.counter + 1)

  handle_client_request-Good :
      (id : ℕ) (first late : List (Outcome Payload)) (s : SocketServer W)
      → Inv s
      → Good s (handle_client_request h id first late s)
  unfolding handle_client_request Good
  handle_client_request-Good id first late s v = elim (Option-cases (find id s.contexts)) [
    | inl gone ↦ rw (gone, handle_client_request) (v, omega arith)
    | inr (r, found) ↦
        elim (Option-cases (receive_message (λ p. event h (pipe_message id p)) r s first late)) [
          | inl e ↦ rw (found, handle_client_request, e) tt
          | inr ((state, u, err), e) ↦
              let told : Told s u = subst (Leaves (Told s)) e (
                receive_message-Leaves (Told s) (λ p. event h (pipe_message id p)) s
                  (unfold Told in (refl, refl, λ j. refl))
                  (λ p.
                    event-Told id s p (v.tracked id ∙ ground (arith, contains-find id s.contexts)))
                  r first late) in
              let few : u.counter ≤ s.counter + 1 = unfold Told in omega (arith, told.1) in
              elim (Bool-cases (is_zero err)) [
                | inl z ↦
                    rw (found, handle_client_request, e, z)
                      (kept-Inv id r state s u v found told, few)
                | inr z ↦
                    rw (found, handle_client_request, e, z) (dropped-Inv id r s u v found told, few)
              ]
        ]
  ]

  perform-Good :
      (c : Call) (s : SocketServer W) → s.counter + 1 < 2 ^ 64 → Inv s → Good s (perform h c s)
  unfolding perform Good
  perform-Good (accepts ok) s few v = (handle_accept-Inv ok s few v, counts ok)
    where
      counts : (b : Bool) → (handle_accept h b s).counter ≤ s.counter + 1
      counts false = unfold handle_accept in omega arith
      counts true = unfold handle_accept event in omega arith
  perform-Good (reads id first late) s few v = handle_client_request-Good id first late s v

  run-Inv :
      (cs : List Call) (s : SocketServer W)
      → s.counter + length cs < 2 ^ 64
      → Inv s
      → Inv (run h cs s)
  unfolding run
  run-Inv [] s few v = v
  run-Inv (c ∷ cs) s few v = elim (Option-cases (perform h c s)) [
    | inl e ↦ rw (e, run) v
    | inr (t, e) ↦
        let good : Inv t × (t.counter ≤ s.counter + 1) =
          unfold Good in subst (Good s) e (perform-Good c s (omega arith) v) in
        rw (e, run) (run-Inv cs t (omega (arith, good.1)) good.0)
  ]

  -- Whatever connections come and whatever is read on them, in fewer than 2 ^ 64 calls from the
  -- beginning on and whatever the event handler answers: the events of each client are one connection,
  -- then messages, and at most one disconnection, after which no more come; a client has a context
  -- exactly while it is connected, and no client's id is used again.
  pub run-status :
      (cs : List Call) (w : W) (j : ℕ)
      → length cs < 2 ^ 64
      → status j (run h cs (init w)).events ≡ known (run h cs (init w)) j
  run-status cs w j few = (run-Inv cs (init w) (unfold init in omega arith) start).tracked j
    where
      start : Inv (init w)
      start =
          unfold init contains in
          record { tracked = λ j. ground arith; counted = λ j there. ground arith }
