-- ===== src/Ipc/Tests/PipeTests.antt =====
-- Tests of the theorems on src/common/ipc/pipe.
use yakut_native.Base.{
  ℕ, ◌≡◌, ◌<◌, refl, List, [], ◌∷◌, ◌++◌, true, some, ℤ, pos, arith, take, drop,
}
use yakut_native.Posix.{Outcome, returned, failed, posix_syscall, eagain}
use yakut_native.Ipc.Types.{Payload, joined, invalid}
use yakut_native.Ipc.Server.{PipeEvent}
use yakut_native.Ipc.Pipe.Framing
use yakut_native.Ipc.Pipe.SocketServer
use yakut_native.Ipc.Pipe.SocketClient
use yakut_native.Ipc.Client

-- An action that keeps what it is given.
abbrev keep : Payload → Payload → Payload × ℤ
keep p w = (p, pos 0)

abbrev fragments : List Payload
fragments = (8 ∷ []) ∷ (9 ∷ 7 ∷ []) ∷ []

-- The header at once; the first fragment after a signal; the second at once.
abbrev calls : List (List (Outcome ℕ))
calls = (returned 8 ∷ []) ∷ (failed 4 ∷ returned 1 ∷ []) ∷ (returned 2 ∷ []) ∷ []

calls_succeed :
    Framing.Roundtrip.AllSucceed
      (Framing.header_bytes (Framing.Roundtrip.sent_header fragments) ∷ fragments)
      calls
calls_succeed =
    unfold posix_syscall Framing.header_bytes Framing.store32 in (refl, (refl, (refl, tt)))

some_bytes : 0 < Framing.total_size fragments
some_bytes = unfold Framing.total_size in omega arith

abbrev interrupted : List (Outcome Payload)
interrupted = failed 4 ∷ []

send-receive_message_example :
    (written : List Payload) × (Framing.send fragments calls ≡ some (written, pos 0))
    × (Framing.receive_message keep
          (Framing.Roundtrip.idle 0)
          []
          (interrupted ++ returned (take 8 (joined written)) ∷ [])
          ([] ++ returned (drop 8 (joined written)) ∷ [])
        ≡ some (
          Framing.Roundtrip.idle (Framing.total_size fragments),
          (keep (joined fragments) []).0,
          (keep (joined fragments) []).1,
        ))
send-receive_message_example =
    Framing.Roundtrip.send-receive_message keep 0 [] fragments calls interrupted [] calls_succeed
      (refl, tt) tt some_bytes (unfold Framing.total_size in omega arith)

abbrev late : List (Outcome Payload)
late = returned (8 ∷ 9 ∷ []) ∷ []

abbrev first : List (Outcome Payload)
first = returned (79 ∷ 67 ∷ 86 ∷ 83 ∷ 2 ∷ 0 ∷ 0 ∷ 0 ∷ []) ∷ []

receive_message_resumes_example :
    Framing.Limits.continued keep late
      (Framing.receive_message keep Framing.initial [] first (failed eagain ∷ []))
    ≡ Framing.receive_message keep Framing.initial [] first late
receive_message_resumes_example =
    Framing.Limits.receive_message_resumes keep [] Framing.initial first late

receive_message-is_bounded_example :
    Framing.Limits.is_bounded_result
      (Framing.receive_message keep (Framing.Roundtrip.idle 0) [] first (failed eagain ∷ []))
    ≡ true
receive_message-is_bounded_example =
    Framing.Limits.receive_message-is_bounded keep [] (Framing.Roundtrip.idle 0) first
      (failed eagain ∷ []) refl

send-refused_example :
    (written : List Payload) × (Framing.send [] ((returned 8 ∷ []) ∷ []) ≡ some (written, pos 0))
    × (Framing.receive_message keep
          (Framing.Roundtrip.idle 0)
          []
          (interrupted ++ returned (take 8 (joined written)) ∷ [])
          late
        ≡ some (Framing.Roundtrip.idle 0, [], invalid))
send-refused_example =
    Framing.Limits.send-refused keep 0 [] [] ((returned 8 ∷ []) ∷ []) interrupted late
      (unfold posix_syscall Framing.header_bytes Framing.store32 in (refl, tt)) (refl, tt)
      (unfold Framing.total_size in refl) (unfold Framing.total_size in omega arith)

-- A handler that refuses every message.
abbrev refuses : PipeEvent → ℕ → ℕ × ℤ
refuses e w = (w, invalid)

abbrev connections : List SocketServer.Call
connections =
    SocketServer.accepts true
    ∷ SocketServer.accepts true
    ∷ SocketServer.reads 1 first late
    ∷ SocketServer.reads 1 first late
    ∷ []

run-status_example :
    SocketServer.Status.status 1 (SocketServer.run refuses connections (SocketServer.init 0)).events
    ≡ SocketServer.Status.known (SocketServer.run refuses connections (SocketServer.init 0)) 1
run-status_example = SocketServer.Protocol.run-status refuses connections 0 1 (omega arith)

-- A connection that comes up, has a message refused, and is tried again.
abbrev attempts : List SocketClient.Call
attempts =
    SocketClient.starts (pos 0) (pos 115)
    ∷ SocketClient.becomes_writable (returned 0 ∷ [])
    ∷ SocketClient.becomes_readable first late
    ∷ SocketClient.starts (pos 0) (pos 0)
    ∷ SocketClient.becomes_writable (returned 111 ∷ [])
    ∷ []

abbrev client_refuses : Client.PipeEvent → ℕ → ℕ × ℤ
client_refuses e w = (w, invalid)

run-init-Agrees_example :
    SocketClient.Protocol.Agrees (SocketClient.run client_refuses attempts (SocketClient.init 0))
run-init-Agrees_example = SocketClient.Protocol.run-init-Agrees client_refuses attempts 0
