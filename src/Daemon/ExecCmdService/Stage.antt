-- ===== src/Daemon/ExecCmdService/Stage.antt =====
-- The life of a request of `ExecCmdServiceImpl` (src/daemon/engine/svc/node/exec_cmd_service.cpp), as an
-- automaton on what its machine does: started, then responses, then one completion.
use yakut_native.Base.{ℕ, List, [], ◌∷◌, contains, ltb, ◌==◌, if◌then◌else◌}
use yakut_native.Daemon.ExecCmdService.{Effect, started, responded, completed, Service}

pub data Stage : Type 0 where
  unborn waiting over broken : Stage

abbrev pub starts : Stage → Stage
starts unborn = waiting
starts other = broken

abbrev pub answers : Stage → Stage
answers waiting = waiting
answers other = broken

abbrev pub ends : Stage → Stage
ends waiting = over
ends other = broken

-- The stage of a request after effects, which are listed latest first.
abbrev pub stage : ℕ → List Effect → Stage
stage j [] = unborn
stage j (started i ∷ es) = if i == j then starts (stage j es) else stage j es
stage j (responded i node answer ∷ es) = if i == j then answers (stage j es) else stage j es
stage j (completed i err ∷ es) = if i == j then ends (stage j es) else stage j es

-- What the service's state says of a request.
abbrev pub expected : Service → ℕ → Stage
expected s j = if contains j s.fsms then waiting else if ltb j s.next_fsm_id then over else unborn
