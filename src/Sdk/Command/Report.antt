-- ===== src/Sdk/Command/Report.antt =====
-- A command from its request at the daemon to the result in the SDK: `ExecCmdServiceImpl` of
-- src/daemon/engine/svc/node/exec_cmd_service.cpp and the `ExecCmdClientImpl` of
-- src/sdk/svc/node/exec_cmd_client.cpp that made the request.
use yakut_native.Base.{
  true, is_zero, ℕ, ◌+◌, ◌<◌, ◌≤◌, ◌^◌, ◌≡◌, ◌≢◌, refl, ap, ◌∙◌, List, [], ◌∷◌, false, none, some,
  pos, inl, inr, arith, ◌==◌, ==_refl, Bool-cases, Map, find, contains, assign, find-assign, length,
}
use yakut_native.Daemon.ExecCmdService.{
  Answer, Cyphal, Effect, Ops, Service, init, is_empty, unique, call_each, start, serve, Call, run,
  started, responded, completed,
}
use yakut_native.Daemon.ExecCmdService.Stage.{
  Stage, unborn, waiting, over, broken, starts, ends, stage, expected,
}
use yakut_native.Daemon.ExecCmdService.Stage
use yakut_native.Daemon.ExecCmdService.Answers.{Exhausts}
use yakut_native.Daemon.ExecCmdService.Steps.{Inv}
use yakut_native.Daemon.ExecCmdService.Life.{next_fsm_id-serve, next_fsm_id-run, run-Inv, init-Inv}
use yakut_native.Sdk.ExecCmdClient
use yakut_native.Sdk.ExecCmdClient.{
  ExecCmdClient, success, handle_event, handle_all, inputs, handle_all_reports,
}
use yakut_native.Sdk.Command.{Link, hear, heard, answers}
use yakut_native.Sdk.Command.Results.{results_for, cancels}
use yakut_native.Sdk.Command.Concurrent.{Ends, run_ends}

starts_born : (x : Stage) → starts x ≢ unborn
starts_born unborn h = ground (arith, h)
starts_born waiting h = ground (arith, h)
starts_born over h = ground (arith, h)
starts_born broken h = ground (arith, h)

answers_born : (x : Stage) → Stage.answers x ≢ unborn
answers_born unborn h = ground (arith, h)
answers_born waiting h = ground (arith, h)
answers_born over h = ground (arith, h)
answers_born broken h = ground (arith, h)

ends_born : (x : Stage) → ends x ≢ unborn
ends_born unborn h = ground (arith, h)
ends_born waiting h = ground (arith, h)
ends_born over h = ground (arith, h)
ends_born broken h = ground (arith, h)

-- Of a request that was not made, nothing is heard.
heard-unborn :
    (link : Link) (id : ℕ) (es : List Effect) (s : ExecCmdClient)
    → stage id es ≡ unborn
    → heard link id es s ≡ s
unfolding heard hear
heard-unborn link id [] s quiet = refl
heard-unborn link id (started k ∷ es) s quiet = elim (Bool-cases (k == id)) [
  | inl same ↦ absurd (starts_born (stage id es) (ground (arith, same, quiet)))
  | inr other ↦ heard-unborn link id es s (ground (arith, other, quiet))
]
heard-unborn link id (responded k node answer ∷ es) s quiet = elim (Bool-cases (k == id)) [
  | inl same ↦ absurd (answers_born (stage id es) (ground (arith, same, quiet)))
  | inr other ↦ rw other (heard-unborn link id es s (ground (arith, other, quiet)))
]
heard-unborn link id (completed k err ∷ es) s quiet = elim (Bool-cases (k == id)) [
  | inl same ↦ absurd (ends_born (stage id es) (ground (arith, same, quiet)))
  | inr other ↦ rw other (heard-unborn link id es s (ground (arith, other, quiet)))
]

-- The next id is of no request so far.
unborn_next : (s : Service) → Inv s → stage s.next_fsm_id s.trace ≡ unborn
unborn_next s v = v.tracked s.next_fsm_id ∙ ground (arith, free)
  where
    free : contains s.next_fsm_id s.fsms ≡ false
    free = elim (Bool-cases (contains s.next_fsm_id s.fsms)) [
      | inl there ↦ absurd (omega (arith, v.counted s.next_fsm_id there))
      | inr none_yet ↦ none_yet
    ]

-- A request that the daemon gets after whatever it did before, whose nodes can all be called, each of
-- which answers or fails once, in any order and among any calls for other requests, while the client
-- keeps its channel, in fewer than 2 ^ 64 calls altogether; where each response may fail to be sent (by its
-- node and answer), the end of the channel can be sent, and what is sent reaches the client in order: the
-- receiver of the client is called once, with success, and with the answer of every node that answered and
-- whose response could be sent, and nothing for the other nodes; and nothing is left of the request at
-- the daemon.
pub run_reports :
    (c : Cyphal) (link : Link) (before after : List Call) (n : ℕ) (ns : List ℕ) (ops : Ops)
    (client : ExecCmdClient)
    → length before + (length after + 1) < 2 ^ 64
    → call_each c (unique (n ∷ ns)) [] ≡ (ops, pos 0)
    → is_empty ops ≡ false
    → let s = run c before init in
      let id = s.next_fsm_id in
      Exhausts (results_for id after) ops
      → cancels id after ≡ false
      → client.node_id_to_response ≡ []
      → is_zero (link.end (pos 0)) ≡ true
      → let t = run c after (serve c (n ∷ ns) s) in
        (m : Map Answer) × ((k : ℕ) → find k m ≡ find k (answers link (results_for id after)))
        × (find id t.fsms ≡ none)
        × ((heard link id t.trace (handle_event (ExecCmdClient.connected (pos 0)) client)).results
            ≡ success m ∷ client.results)
run_reports c link before after n ns ops client few called more exhausts stays fresh ends_well = (
  reported.0,
  reported.1,
  ends.0,
  ap (λ (u : ExecCmdClient). u.results)
        (ends.1
          ∙ ap
              (λ (u : ExecCmdClient).
                handle_event (ExecCmdClient.completed (pos 0))
                  (handle_all (inputs (answers link (results_for id after))) u))
              silent)
      ∙ reported.2,
)
  where
    s : Service
    s = run c before init

    id : ℕ
    id = s.next_fsm_id

    served : Service
    served = serve c (n ∷ ns) s

    connected_client : ExecCmdClient
    connected_client = handle_event (ExecCmdClient.connected (pos 0)) client

    few_before : id ≤ length before
    few_before = unfold init in omega (arith, next_fsm_id-run c before init)

    v : Inv s
    v = run-Inv c before init (unfold init in omega (arith, few)) init-Inv

    found : find id served.fsms ≡ some ops
    found =
        unfold serve start in
        rw called (ground (arith, find-assign id id ops (assign id [] s.fsms), ==_refl id))

    next : served.next_fsm_id ≡ id + 1
    next = next_fsm_id-serve c (n ∷ ns) s ∙ omega (arith, few, few_before)

    silent : heard link id served.trace connected_client ≡ connected_client
    silent =
        unfold serve start heard hear in
        rw called (heard-unborn link id s.trace connected_client (unborn_next s v))

    ends :
        Ends c link ends_well id connected_client (results_for id after) served (run c after served)
    ends =
        run_ends c link ends_well id connected_client after ops served found more exhausts stays
          (omega (arith, next)) (omega (arith, next, few, few_before))

    reported :
        (m : Map Answer) × ((k : ℕ) → find k m ≡ find k (answers link (results_for id after)))
        × ((handle_event
              (ExecCmdClient.completed (pos 0))
              (handle_all (inputs (answers link (results_for id after))) connected_client)).results
            ≡ success m ∷ client.results)
    reported = handle_all_reports (answers link (results_for id after)) client (pos 0) fresh
