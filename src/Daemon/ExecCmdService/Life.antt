-- ===== src/Daemon/ExecCmdService/Life.antt =====
-- The requests of `ExecCmdServiceImpl` (src/daemon/engine/svc/node/exec_cmd_service.cpp) follow the
-- automaton of Stage.
use mathlib.Core.Path.{subst}
use yakut_native.Base.{
  ℕ, ◌+◌, ◌<◌, ◌≤◌, ◌^◌, ◌≡◌, refl, ◌∙◌, List, [], ◌∷◌, true, false, Option, none, some, pos,
  is_zero, inl, inr, arith, Bool-cases, contains, assign, find-assign, contains-find, ltb, ◌==◌,
  ==_refl, if◌then◌else◌, length, if_intro,
}
use yakut_native.Ipc.Types.{u64}
use yakut_native.Daemon.ExecCmdService.Stage.{unborn, waiting, over, stage, expected}
use yakut_native.Daemon.ExecCmdService.{
  Answer, Cyphal, started, Service, init, complete, call_each, unique, start, serve, respond,
  release_op, on_response, on_completed, Call, serves, responds, completes, perform, run,
}
use yakut_native.Daemon.ExecCmdService.Steps.{
  Inv, complete-Inv, assign-Inv, on_response-Inv, on_completed-Inv,
}

pub init-Inv : Inv init
unfolding init contains
init-Inv = record { tracked = λ j. ground arith; counted = λ j there. ground arith }

module _ (c : Cyphal) where
  start-Inv :
      (id : ℕ) (nodes : List ℕ) (s : Service)
      → contains id s.fsms ≡ true
      → Inv s
      → Inv (start c id nodes s)
  unfolding start
  start-Inv id [] s here v = complete-Inv id (pos 0) s here v
  start-Inv id (n ∷ ns) s here v =
      if_intro Inv (is_zero (call_each c (unique (n ∷ ns)) []).1) _ _
        (λ _. assign-Inv id _ s here v) (λ _. complete-Inv id _ s here v)

  -- A new machine.
  born : Service → Service
  born s = record s {
    next_fsm_id = u64 (s.next_fsm_id + 1);
    fsms = assign s.next_fsm_id [] s.fsms;
    trace = started s.next_fsm_id ∷ s.trace;
  }

  born-Inv : (s : Service) → s.next_fsm_id + 1 < 2 ^ 64 → Inv s → Inv (born s)
  unfolding born
  born-Inv s few v = record { tracked = tracked; counted = counted }
    where
      id : ℕ
      id = s.next_fsm_id

      next : u64 (id + 1) ≡ id + 1
      next = omega arith

      fresh : contains id s.fsms ≡ false
      fresh = elim (Bool-cases (contains id s.fsms)) [
        | inl there ↦ ground (arith, v.counted id there)
        | inr gone ↦ gone
      ]

      holds :
          (j : ℕ) → contains j (assign id [] s.fsms) ≡ (if id == j then true else contains j s.fsms)
      holds j = ground (
        arith,
        contains-find j (assign id [] s.fsms),
        contains-find j s.fsms,
        find-assign j id [] s.fsms,
      )

      was : stage id s.trace ≡ unborn
      was = v.tracked id ∙ ground (arith, fresh)

      Holds : ℕ → Type 0
      Holds k = stage k (started id ∷ s.trace) ≡ (
          if contains k (assign id [] s.fsms)
          then waiting
          else if ltb k (u64 (id + 1))
          then over
          else unborn)

      tracked : (j : ℕ) → Holds j
      tracked j = elim (Bool-cases (id == j)) [
        | inl same ↦ subst Holds {x = id} (ground arith) (ground (arith, holds id, was, ==_refl id))
        | inr other ↦ ground (arith, holds j, v.tracked j, next)
      ]

      counted : (j : ℕ) → contains j (assign id [] s.fsms) ≡ true → j < u64 (id + 1)
      counted j there = elim (Bool-cases (id == j)) [
        | inl same ↦ ground (arith, next)
        | inr other ↦ let a = v.counted j (ground (arith, holds j)) in ground (arith, next)
      ]

  serve-Inv :
      (nodes : List ℕ) (s : Service) → s.next_fsm_id + 1 < 2 ^ 64 → Inv s → Inv (serve c nodes s)
  unfolding serve
  serve-Inv nodes s few v =
      start-Inv s.next_fsm_id nodes _
        (ground (
          arith,
          contains-find s.next_fsm_id (assign s.next_fsm_id [] s.fsms),
          ==_refl s.next_fsm_id,
          find-assign s.next_fsm_id s.next_fsm_id [] s.fsms,
        ))
        (unfold born in born-Inv s few v)

  next_fsm_id-start :
      (id : ℕ) (nodes : List ℕ) (s : Service) → (start c id nodes s).next_fsm_id ≡ s.next_fsm_id
  unfolding start complete
  next_fsm_id-start id [] s = refl
  next_fsm_id-start id (n ∷ ns) s = ground arith

  next_fsm_id-respond :
      (id node : ℕ) (result : Option Answer) (s : Service)
      → (respond id node result s).next_fsm_id ≡ s.next_fsm_id
  unfolding respond
  next_fsm_id-respond id node none s = refl
  next_fsm_id-respond id node (some answer) s = refl

  pub next_fsm_id-serve :
      (nodes : List ℕ) (s : Service) → (serve c nodes s).next_fsm_id ≡ u64 (s.next_fsm_id + 1)
  next_fsm_id-serve nodes s = unfold serve born in next_fsm_id-start s.next_fsm_id nodes (born s)

  pub next_fsm_id-perform :
      (x : Call) (s : Service) → (perform c x s).next_fsm_id ≤ s.next_fsm_id + 1
  unfolding perform
  next_fsm_id-perform (serves nodes) s = rw (next_fsm_id-serve nodes s) (omega arith)
  next_fsm_id-perform (responds id node result) s =
      unfold on_response release_op complete in ground (arith, next_fsm_id-respond id node result s)
  next_fsm_id-perform (completes id) s = unfold on_completed complete in ground arith

  -- Ids grow, as long as they do not wrap.
  pub next_fsm_id-perform_grows :
      (x : Call) (s : Service)
      → s.next_fsm_id + 1 < 2 ^ 64
      → s.next_fsm_id ≤ (perform c x s).next_fsm_id
  unfolding perform
  next_fsm_id-perform_grows (serves nodes) s few = rw (next_fsm_id-serve nodes s) (omega arith)
  next_fsm_id-perform_grows (responds id node result) s few =
      unfold on_response release_op complete in ground (arith, next_fsm_id-respond id node result s)
  next_fsm_id-perform_grows (completes id) s few = unfold on_completed complete in ground arith

  perform-Inv : (x : Call) (s : Service) → s.next_fsm_id + 1 < 2 ^ 64 → Inv s → Inv (perform c x s)
  unfolding perform
  perform-Inv (serves nodes) s few v = serve-Inv nodes s few v
  perform-Inv (responds id node result) s few v = on_response-Inv id node result s v
  perform-Inv (completes id) s few v = on_completed-Inv id s v

  pub next_fsm_id-run :
      (xs : List Call) (s : Service) → (run c xs s).next_fsm_id ≤ s.next_fsm_id + length xs
  unfolding run
  next_fsm_id-run [] s = omega arith
  next_fsm_id-run (x ∷ xs) s =
      omega (arith, next_fsm_id-run xs (perform c x s), next_fsm_id-perform x s)

  pub run-Inv :
      (xs : List Call) (s : Service) → s.next_fsm_id + length xs < 2 ^ 64 → Inv s → Inv (run c xs s)
  unfolding run
  run-Inv [] s few v = v
  run-Inv (x ∷ xs) s few v =
      run-Inv xs (perform c x s) (omega (arith, next_fsm_id-perform x s))
        (perform-Inv x s (omega arith) v)

  -- Whatever is requested, answered and ended, in fewer than 2 ^ 64 calls from the beginning on: each
  -- request is started once, then passes on answers, and is completed at most once, after which
  -- nothing of it is sent; and the service holds a machine for it exactly from its start to its
  -- completion.
  pub run-stage :
      (xs : List Call) (j : ℕ)
      → length xs < 2 ^ 64
      → stage j (run c xs init).trace ≡ expected (run c xs init) j
  run-stage xs j few = (run-Inv xs init (unfold init in omega arith) init-Inv).tracked j
