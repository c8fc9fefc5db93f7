-- ===== src/Daemon/Tests.antt =====
-- Tests of the theorems on src/daemon/engine.
use yakut_native.Base.{
  ℕ, ◌≡◌, ◌==◌, false, refl, List, [], ◌∷◌, true, Option, none, some, pos, arith, find, contains,
  erase,
}
use yakut_native.Daemon.ExecCmdService
use yakut_native.Daemon.ExecCmdService.{Answer, Cyphal, Ops, Service}

-- A network on which node 9 has no client.
abbrev network : Cyphal
network = record {
  make_client = λ node. elim (node == 9) [ true ↦ some (pos 12) | false ↦ none ];
  request = λ node. none;
}

abbrev answer : Answer
answer = record { status = 0; output = [] }

abbrev requests : List ExecCmdService.Call
requests =
    ExecCmdService.serves (4 ∷ 5 ∷ 4 ∷ [])
    ∷ ExecCmdService.serves (9 ∷ [])
    ∷ ExecCmdService.responds 0 5 (some answer)
    ∷ ExecCmdService.completes 0
    ∷ ExecCmdService.responds 0 4 none
    ∷ []

run-stage_example :
    ExecCmdService.Stage.stage 0 (ExecCmdService.run network requests ExecCmdService.init).trace
    ≡ ExecCmdService.Stage.expected (ExecCmdService.run network requests ExecCmdService.init) 0
run-stage_example = ExecCmdService.Life.run-stage network requests 0 (omega arith)

abbrev pending : Ops
pending = (4, true) ∷ (5, true) ∷ []

abbrev service : Service
service = record {
  next_fsm_id = 1;
  fsms = (0, pending) ∷ [];
  trace = ExecCmdService.started 0 ∷ [];
}

abbrev results : List (ℕ × Option Answer)
results = (5, some answer) ∷ (4, none) ∷ []

results-Exhausts : ExecCmdService.Answers.Exhausts results pending
results-Exhausts = unfold contains erase ExecCmdService.is_empty in (refl, (refl, refl))

respond_all_completes_example :
    let t = ExecCmdService.Answers.respond_all 0 results service in
    (find 0 t.fsms ≡ none)
    × (t.trace
        ≡ ExecCmdService.completed 0 (pos 0)
          ∷ ExecCmdService.responded 0 5 answer
          ∷ ExecCmdService.started 0
          ∷ [])
respond_all_completes_example =
    ExecCmdService.Answers.respond_all_completes 0 results pending service (unfold find in refl)
      (unfold ExecCmdService.is_empty in refl) results-Exhausts
