-- ===== src/Ipc/ServerStack.antt =====
-- The server router (src/common/ipc/server_router.cpp) on the socket server
-- (src/common/ipc/pipe/socket_server.cpp), as the daemon puts them together: the pipe's event handler is the
-- router's.
use yakut_native.Base.{
  ℕ, ◌≡◌, ◌≢◌, refl, ◌∙◌, find-assign, find-erase, ==_ne, List, Option, none, some, ℤ, inl, inr,
  is_zero, find, erase, assign, Option-cases, if_intro, if◌then◌else◌,
}
use yakut_native.Posix.{Outcome}
use yakut_native.Ipc.Types.{Payload}
use yakut_native.Ipc.Server.{
  Server, Env, PipeEvent, pipe_message, pipe_disconnected, handle_pipe_event,
}
use yakut_native.Ipc.Server.Invariant.{Inv}
use yakut_native.Ipc.Server.Steps.{Keeps}
use yakut_native.Ipc.Server.Isolation.{Spares, IsSameFor, IsSameFor-refl, IsSameFor-trans}
use yakut_native.Ipc.Server.Noninterference.{source, handle_pipe_event_same}
use yakut_native.Ipc.Server.Reachable.{handle_pipe_event-Inv}
use yakut_native.Ipc.Pipe.Framing.{ReadState, receive_message}
use yakut_native.Ipc.Pipe.Framing.Actions.{Leaves, receive_message-Leaves}
use yakut_native.Ipc.Pipe.SocketServer.{SocketServer, Handler, event, handle_client_request}

-- The handler that the router gives to its pipe.
unfoldable pub router_handler : Env → Handler Server
router_handler e pipe_event s = handle_pipe_event e pipe_event s

-- What another client has, in the router and on its socket, is the same.
abbrev pub Same : ℕ → SocketServer Server → SocketServer Server → Type 0
Same c s t = Inv t.world × IsSameFor c s.world t.world × (find c t.contexts ≡ find c s.contexts)

abbrev pub SameIfAny : ℕ → SocketServer Server → Option (SocketServer Server) → Type 0
SameIfAny c s none = Unit
SameIfAny c s (some t) = Same c s t

module _ (e : Env) (k : Keeps e) (c : ℕ) (spares : Spares c e) where
  event-Same :
      (v : PipeEvent) (s t : SocketServer Server)
      → source v ≢ c
      → Same c s t
      → Same c s (event (router_handler e) v t).0
  unfolding event router_handler
  event-Same v s t other same = (
    handle_pipe_event-Inv e k v t.world same.0,
    IsSameFor-trans same.1 (handle_pipe_event_same c e v t.world spares other same.0),
    same.2,
  )

  result-Same :
      (id : ℕ) (s : SocketServer Server) (r : Option (ReadState × SocketServer Server × ℤ))
      → id ≢ c
      → Leaves (Same c s) r
      → SameIfAny c s (elim r [
        | none ↦ none
        | some (state', s', err) ↦ some (
            if is_zero err
            then record s' { contexts = assign id state' s'.contexts }
            else (event
                (router_handler e)
                (pipe_disconnected id)
                (record s' { contexts = erase id s'.contexts })).0)
      ])
  result-Same id s none other same = tt
  result-Same id s (some (state', s', err)) other same =
      if_intro (Same c s) (is_zero err) (record s' { contexts = assign id state' s'.contexts })
        (event (router_handler e) (pipe_disconnected id)
          (record s' { contexts = erase id s'.contexts })).0
        (λ _. (same.0, same.1, find-assign c id state' s'.contexts ∙ rw (==_ne id c other) same.2))
        (λ _.
          event-Same (pipe_disconnected id) s (record s' { contexts = erase id s'.contexts }) other
            (same.0, same.1, find-erase c id s'.contexts ∙ rw (==_ne id c other) same.2))

  -- Whatever a read of one client's socket brings, in whatever state of the daemon that keeps the
  -- router's invariant: the invariant holds after it, and another client keeps its socket's state, its
  -- connection, its gateways and their state, and is sent nothing, provided that the event handlers
  -- and channel factories keep the invariant, and that the handlers of other clients' gateways, and the
  -- factories that are given another client's gateway, do nothing, in any state, that the client would see.
  pub handle_client_request_same :
      (id : ℕ) (first late : List (Outcome Payload)) (s : SocketServer Server)
      → id ≢ c
      → Inv s.world
      → SameIfAny c s (handle_client_request (router_handler e) id first late s)
  unfolding handle_client_request
  handle_client_request_same id first late s other v = elim (Option-cases (find id s.contexts)) [
    | inl gone ↦ rw (handle_client_request, gone) start
    | inr (state, there) ↦
        rw (handle_client_request, there)
          (result-Same id s
            (receive_message (λ payload. event (router_handler e) (pipe_message id payload)) state s
              first late)
            other
            (receive_message-Leaves (Same c s)
              (λ payload. event (router_handler e) (pipe_message id payload)) s start
              (λ payload. event-Same (pipe_message id payload) s s other start) state first late))
  ]
    where
      start : Same c s s
      start = (v, IsSameFor-refl c s.world, refl)
