-- ===== src/Sdk/Tests.antt =====
-- Tests of the theorems on src/sdk.
use yakut_native.Base.{
  ◌==◌, if◌then◌else◌, ℕ, ◌≡◌, refl, [], ◌∷◌, List, none, some, true, false, pos, arith, find,
  contains, erase, assign, insert, Map,
}
use yakut_native.Daemon.ExecCmdService
use yakut_native.Daemon.ExecCmdService.{Answer}
use yakut_native.Sdk.ExecCmdClient
use yakut_native.Sdk.Command

abbrev good : Answer
good = record { status = 0; output = [] }

abbrev bad : Answer
bad = record { status = 1; output = [] }

-- Node 5 responds twice.
abbrev responses : Map Answer
responses = (5, good) ∷ (4, bad) ∷ (5, bad) ∷ []

abbrev fresh : ExecCmdClient.ExecCmdClient
fresh = record { node_id_to_response = []; results = [] }

handle_all_reports_example :
    (m : Map Answer) × ((n : ℕ) → find n m ≡ find n responses)
    × ((ExecCmdClient.handle_event (ExecCmdClient.completed (pos 0)) (
          ExecCmdClient.handle_all
            (ExecCmdClient.inputs responses)
            (ExecCmdClient.handle_event (ExecCmdClient.connected (pos 0)) fresh))).results
        ≡ ExecCmdClient.success m ∷ [])
handle_all_reports_example = ExecCmdClient.handle_all_reports responses fresh (pos 0) refl

-- Every node can be called.
abbrev reachable : ExecCmdService.Cyphal
reachable = record { make_client = λ node. none; request = λ node. none }

abbrev operations : ExecCmdService.Ops
operations = (5, true) ∷ (4, true) ∷ (6, true) ∷ []

operations_of :
    ExecCmdService.call_each reachable (ExecCmdService.unique (5 ∷ 4 ∷ 6 ∷ [])) []
    ≡ (operations, pos 0)
unfolding ExecCmdService.call_each ExecCmdService.unique assign insert
operations_of = refl

abbrev before : List ExecCmdService.Call
before = ExecCmdService.serves (3 ∷ []) ∷ []

-- Nodes 5 and 6 answer, and node 4 fails, among calls for other requests.
abbrev after : List ExecCmdService.Call
after =
    ExecCmdService.responds 0 3 (some bad)
    ∷ ExecCmdService.responds 1 5 (some good)
    ∷ ExecCmdService.serves (5 ∷ [])
    ∷ ExecCmdService.responds 2 5 (some bad)
    ∷ ExecCmdService.responds 1 6 (some good)
    ∷ ExecCmdService.responds 1 4 none
    ∷ []

-- The response of node 6 cannot be sent.
abbrev link : Command.Link
link = record { send = λ node response. if node == 6 then pos 5 else pos 0; end = λ err. pos 0 }

abbrev state : ExecCmdService.Service
state = ExecCmdService.run reachable before ExecCmdService.init

every_result :
    ExecCmdService.Answers.Exhausts (Command.Results.results_for state.next_fsm_id after) operations
unfolding ExecCmdService.run ExecCmdService.perform ExecCmdService.serve ExecCmdService.start
    ExecCmdService.init ExecCmdService.call_each ExecCmdService.unique assign insert contains erase
    ExecCmdService.is_empty Command.Results.results_for
every_result = (refl, (refl, (refl, refl)))

not_cancelled : Command.Results.cancels state.next_fsm_id after ≡ false
unfolding Command.Results.cancels
not_cancelled = refl

run_reports_example :
    let t =
      ExecCmdService.run reachable after (ExecCmdService.serve reachable (5 ∷ 4 ∷ 6 ∷ []) state) in
    let id = state.next_fsm_id in
    (m : Map Answer) × ((k : ℕ)
      → find k m ≡ find k (Command.answers link (Command.Results.results_for id after)))
    × (find id t.fsms ≡ none)
    × ((Command.heard link id t.trace
          (ExecCmdClient.handle_event (ExecCmdClient.connected (pos 0)) fresh)).results
        ≡ ExecCmdClient.success m ∷ [])
run_reports_example =
    Command.Report.run_reports reachable link before after 5 (4 ∷ 6 ∷ []) operations fresh
      (omega arith) operations_of (unfold ExecCmdService.is_empty in refl) every_result
      not_cancelled refl refl
