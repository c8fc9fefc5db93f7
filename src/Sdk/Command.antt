-- ===== src/Sdk/Command.antt =====
-- A command from the daemon to its client: `ExecCmdServiceImpl` of
-- src/daemon/engine/svc/node/exec_cmd_service.cpp and `ExecCmdClientImpl` of
-- src/sdk/svc/node/exec_cmd_client.cpp, joined by one channel.
pub mod Isolation
pub mod Results
pub mod Concurrent
pub mod Report
use yakut_native.Base.{
  ℤ, is_zero, ◌&&◌, ℕ, ◌≡◌, refl, sym, ap, ◌∙◌, List, [], ◌∷◌, ◌++◌, Option, none, some, false, pos,
  arith, ◌==◌, ==_refl, Map, find, assign, find-assign, append_assoc, if◌then◌else◌,
}
use yakut_native.Daemon.ExecCmdService.{
  Answer, Cyphal, Effect, started, responded, completed, Ops, Service, is_empty, unique, call_each,
  start, serve,
}
use yakut_native.Daemon.ExecCmdService.Answers.{
  respond_all, responses, Exhausts, respond_all_completes,
}
use yakut_native.Sdk.ExecCmdClient
use yakut_native.Sdk.ExecCmdClient.{
  ExecCmdClient, success, handle_event, handle_all, inputs, handle_all_reports,
}

-- The error codes of a channel's messages from the daemon to the client: of `channel_.send` of a response,
-- by the node and its answer, and of the message that announces the end. What gives an error is lost; the rest
-- the client gets in order.
pub record Link : Type 0 where
  pub send : ℕ → Answer → ℤ
  pub end : ℤ → ℤ

-- What the client of a channel is told when the machine of its request does something.
unfoldable pub hear : Link → ℕ → Effect → ExecCmdClient → ExecCmdClient
hear link id (started k) s = s
hear link id (responded k node answer) s =
    if k == id && is_zero (link.send node answer)
    then handle_event (ExecCmdClient.input node answer) s
    else s
hear link id (completed k err) s =
    if k == id && is_zero (link.end err) then handle_event (ExecCmdClient.completed err) s else s

-- Of a trace, latest first.
unfoldable pub heard : Link → ℕ → List Effect → ExecCmdClient → ExecCmdClient
heard link id [] s = s
heard link id (e ∷ es) s = hear link id e (heard link id es s)

-- The answers among the results of nodes, as far as the responses with them could be sent.
unfoldable pub answers : Link → List (ℕ × Option Answer) → Map Answer
answers link [] = []
answers link ((node, none) ∷ rs) = answers link rs
answers link ((node, some answer) ∷ rs) =
    let rest = answers link rs in
    if is_zero (link.send node answer) then (node, answer) ∷ rest else rest
