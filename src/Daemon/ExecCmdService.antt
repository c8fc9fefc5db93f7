-- ===== src/Daemon/ExecCmdService.antt =====
-- `ExecCmdServiceImpl` of src/daemon/engine/svc/node/exec_cmd_service.cpp: one state machine for each
-- request, which calls every node of the request and passes on what they answer.
--
-- The Cyphal presentation layer is the argument `Cyphal`: the error codes of making a client and of
-- sending a request, if these fail. `trace` lists what a machine does with its channel, latest first.
-- Its end destroys the machine and its channel with it.
pub mod Stage
pub mod Steps
pub mod Life
pub mod Answers
use yakut_native.Base.{
  ℕ, ◌+◌, List, [], ◌∷◌, Bool, true, false, Option, none, some, ℤ, pos, is_zero, Map, find,
  contains, erase, assign, insert, if◌then◌else◌,
}
use yakut_native.Posix.{ecanceled}
use yakut_native.Ipc.Types.{Payload, u64}

-- `uavcan::node::ExecuteCommand_1_3::Response`.
pub record Answer : Type 0 where
  pub status : ℕ
  pub output : Payload

pub record Cyphal : Type 0 where
  pub make_client : ℕ → Option ℤ
  pub request : ℕ → Option ℤ

pub data Effect : Type 0 where
  started : ℕ → Effect
  responded : ℕ → ℕ → Answer → Effect
  completed : ℕ → ℤ → Effect

-- node_id_to_op_, by the node's id. (Its client and promise have no state here.)
abbrev pub Ops : Type 0
Ops = Map Bool

pub record Service : Type 0 where
  pub next_fsm_id : ℕ
  pub fsms : Map Ops
  pub trace : List Effect

unfoldable pub init : Service
init = record { next_fsm_id = 0; fsms = []; trace = [] }

unfoldable pub complete : ℕ → ℤ → Service → Service
complete id err s = record s { fsms = erase id s.fsms; trace = completed id err ∷ s.trace }

unfoldable pub make_cyphal_svc_call_for : Cyphal → ℕ → Ops → Ops × ℤ
make_cyphal_svc_call_for c node ops = elim (c.make_client node) [
  | some err ↦ (ops, err)
  | none ↦ elim (c.request node) [ some err ↦ (ops, err) | none ↦ (insert node true ops, pos 0) ]
]

-- The set of the nodes of a request.
unfoldable pub unique : List ℕ → Map Bool
unique [] = []
unique (n ∷ ns) = assign n true (unique ns)

-- The loop of `Fsm::start`, up to the first error.
unfoldable pub call_each : Cyphal → Map Bool → Ops → Ops × ℤ
unfolding make_cyphal_svc_call_for
call_each c [] ops = (ops, pos 0)
call_each c ((node, b) ∷ nodes) ops =
    let rest = call_each c nodes (make_cyphal_svc_call_for c node ops).0 in
    if is_zero (make_cyphal_svc_call_for c node ops).1
    then rest
    else make_cyphal_svc_call_for c node ops

-- `Fsm::start`, of a machine that is registered with no operations.
unfoldable pub start : Cyphal → ℕ → List ℕ → Service → Service
unfolding complete call_each
start c id [] s = complete id (pos 0) s
start c id (n ∷ ns) s =
    let (ops, err) = call_each c (unique (n ∷ ns)) [] in
    if is_zero err then record s { fsms = assign id ops s.fsms } else complete id err s

-- `operator()`.
unfoldable pub serve : Cyphal → List ℕ → Service → Service
unfolding start
serve c node_ids s =
    let id = s.next_fsm_id in
    start c id node_ids (record s {
      next_fsm_id = u64 (id + 1);
      fsms = assign id [] s.fsms;
      trace = started id ∷ s.trace;
    })

unfoldable pub respond : ℕ → ℕ → Option Answer → Service → Service
respond id node none s = s
respond id node (some answer) s = record s { trace = responded id node answer ∷ s.trace }

unfoldable pub is_empty {ℓ} : {V : Type ℓ} → Map V → Bool
is_empty [] = true
is_empty (b ∷ m) = false

-- The operation of a node is over; the last one ends the machine.
unfoldable pub release_op : ℕ → ℕ → Ops → Service → Service
unfolding complete is_empty
release_op id node ops s =
    if is_empty (erase node ops)
    then complete id (pos 0) s
    else record s { fsms = assign id (erase node ops) s.fsms }

-- The callback of the promise of a node, which goes with the machine and with the operation.
unfoldable pub on_response : ℕ → ℕ → Option Answer → Service → Service
unfolding release_op respond
on_response id node result s = elim (find id s.fsms) [
  | none ↦ s
  | some ops ↦ if contains node ops then release_op id node ops (respond id node result s) else s
]

-- `handleEvent(Completed)`; the other two events are ignored.
unfoldable pub on_completed : ℕ → Service → Service
unfolding complete
on_completed id s = elim (find id s.fsms) [ none ↦ s | some ops ↦ complete id (pos ecanceled) s ]

pub data Call : Type 0 where
  serves : List ℕ → Call
  responds : ℕ → ℕ → Option Answer → Call
  completes : ℕ → Call

unfoldable pub perform : Cyphal → Call → Service → Service
perform c (serves node_ids) s = serve c node_ids s
perform c (responds id node result) s = on_response id node result s
perform c (completes id) s = on_completed id s

unfoldable pub run : Cyphal → List Call → Service → Service
run c [] s = s
run c (x ∷ xs) s = run c xs (perform c x s)
