-- ===== src/Sdk/Command/Results.antt =====
-- What the calls of `ExecCmdServiceImpl` (src/daemon/engine/svc/node/exec_cmd_service.cpp) are for one
-- request, and what its client hears of them.
use mathlib.Core.Path.{subst}
use yakut_native.Base.{
  is_zero, ℕ, ◌+◌, ◌<◌, ◌^◌, ◌≡◌, refl, sym, ap, List, [], ◌∷◌, Bool, true, false, Option, none,
  some, pos, inl, inr, arith, ◌==◌, ==_refl, Bool-cases, find, contains, erase, assign, find-erase,
  find-assign, if◌then◌else◌, length,
}
use yakut_native.Daemon.ExecCmdService.{
  Answer, Cyphal, Ops, Service, complete, respond, is_empty, release_op, on_response, Call, serves,
  responds, completes, perform, run,
}
use yakut_native.Daemon.ExecCmdService.Life.{next_fsm_id-perform, next_fsm_id-perform_grows}
use yakut_native.Sdk.ExecCmdClient
use yakut_native.Sdk.ExecCmdClient.{
  ExecCmdClient, success, handle_event, handle_all, inputs, handle_all_reports,
}
use yakut_native.Sdk.Command.{Link, hear, heard, answers}
use yakut_native.Sdk.Command.Isolation.{concerns, IsSameFor, IsSameFor-trans, perform_same}

-- The results of the nodes of one request, among the calls of the service.
unfoldable pub results_for : ℕ → List Call → List (ℕ × Option Answer)
results_for id [] = []
results_for id (serves nodes ∷ xs) = results_for id xs
results_for id (responds k node result ∷ xs) =
    let rest = results_for id xs in if k == id then (node, result) ∷ rest else rest
results_for id (completes k ∷ xs) = results_for id xs

-- Whether the client of the request ends its channel.
unfoldable pub cancels : ℕ → List Call → Bool
cancels id [] = false
cancels id (serves nodes ∷ xs) = cancels id xs
cancels id (responds k node result ∷ xs) = cancels id xs
cancels id (completes k ∷ xs) = let rest = cancels id xs in if k == id then true else rest

pub results-own :
    (id k node : ℕ) (result : Option Answer) (xs : List Call)
    → (k == id) ≡ true
    → results_for id (responds k node result ∷ xs) ≡ (node, result) ∷ results_for id xs
unfolding results_for
results-own id k node result xs same = rw same refl

pub results-other :
    (id k node : ℕ) (result : Option Answer) (xs : List Call)
    → (k == id) ≡ false
    → results_for id (responds k node result ∷ xs) ≡ results_for id xs
unfolding results_for
results-other id k node result xs other = rw other refl

-- A result changes what the client has collected.
unfoldable pub told : Link → ℕ → Option Answer → ExecCmdClient → ExecCmdClient
told link node result s = handle_all (inputs (answers link ((node, result) ∷ []))) s

pub told-all :
    (link : Link) (node : ℕ) (result : Option Answer) (rs : List (ℕ × Option Answer))
    (s : ExecCmdClient)
    → handle_all (inputs (answers link ((node, result) ∷ rs))) s
      ≡ handle_all (inputs (answers link rs)) (told link node result s)
unfolding told answers handle_all
told-all link node none rs s = refl
told-all link node (some answer) rs s = elim (Bool-cases (is_zero (link.send node answer))) [
  | inl passed ↦ rw passed refl
  | inr lost ↦ rw lost refl
]

module _ (c : Cyphal) (link : Link) (ends_well : is_zero (link.end (pos 0)) ≡ true) (id : ℕ)
    (client : ExecCmdClient) where
  heard-respond :
      (node : ℕ) (result : Option Answer) (s : Service)
      → heard link id (respond id node result s).trace client
        ≡ told link node result (heard link id s.trace client)
  unfolding respond heard told answers handle_all
  heard-respond node none s = refl
  heard-respond node (some answer) s = elim (Bool-cases (is_zero (link.send node answer))) [
    | inl passed ↦ unfold hear in rw (==_refl id, passed) refl
    | inr lost ↦ unfold hear in rw (==_refl id, lost) refl
  ]

  -- A result that is not the last one.
  pub goes_on :
      (node : ℕ) (result : Option Answer) (ops : Ops) (s : Service)
      → find id s.fsms ≡ some ops
      → contains node ops ≡ true
      → is_empty (erase node ops) ≡ false
      → let t = perform c (responds id node result) s in
        (find id t.fsms ≡ some (erase node ops))
        × (heard link id t.trace client ≡ told link node result (heard link id s.trace client))
  unfolding perform
  goes_on node result ops s found here more =
      subst
        (λ (t : Service).
          (find id t.fsms ≡ some (erase node ops))
          × (heard link id t.trace client ≡ told link node result (heard link id s.trace client)))
        (sym reached)
        (
          ground (arith, find-assign id id (erase node ops) u.fsms, ==_refl id),
          heard-respond node result s,
        )
    where
      u : Service
      u = respond id node result s

      reached : on_response id node result s ≡ record u { fsms = assign id (erase node ops) u.fsms }
      reached = unfold on_response release_op in rw (found, on_response, here, more) refl

  -- The last one.
  pub finishes :
      (node : ℕ) (result : Option Answer) (ops : Ops) (s : Service)
      → find id s.fsms ≡ some ops
      → contains node ops ≡ true
      → is_empty (erase node ops) ≡ true
      → let t = perform c (responds id node result) s in
        (find id t.fsms ≡ none)
        × (heard link id t.trace client
            ≡ handle_event
                (ExecCmdClient.completed (pos 0))
                (told link node result (heard link id s.trace client)))
  unfolding perform
  finishes node result ops s found here ends =
      subst
        (λ (t : Service).
          (find id t.fsms ≡ none)
          × (heard link id t.trace client
              ≡ handle_event (ExecCmdClient.completed (pos 0))
                  (told link node result (heard link id s.trace client))))
        (sym reached)
        (
          unfold complete in ground (arith, find-erase id id u.fsms, ==_refl id),
          unfold complete heard hear in
              rw (==_refl id, ends_well)
                (ap (handle_event (ExecCmdClient.completed (pos 0))) (heard-respond node result s)),
        )
    where
      u : Service
      u = respond id node result s

      reached : on_response id node result s ≡ complete id (pos 0) u
      reached = unfold on_response release_op in rw (found, on_response, here, ends) refl

  -- A call that leaves the results of the request and its channel alone does not concern it.
  pub unconcerned :
      (x : Call) (xs : List Call)
      → results_for id (x ∷ xs) ≡ []
      → cancels id (x ∷ xs) ≡ false
      → (concerns id x ≡ false) × (results_for id xs ≡ []) × (cancels id xs ≡ false)
  unfolding results_for cancels concerns
  unconcerned (serves nodes) xs none_left stays = (refl, none_left, stays)
  unconcerned (responds k node result) xs none_left stays = elim (Bool-cases (k == id)) [
    | inl same ↦ absurd (ground (arith, same, none_left))
    | inr other ↦ (other, ground (arith, other, none_left), stays)
  ]
  unconcerned (completes k) xs none_left stays = elim (Bool-cases (k == id)) [
    | inl same ↦ absurd (ground (arith, same, stays))
    | inr other ↦ (other, none_left, ground (arith, other, stays))
  ]

  pub run_same :
      (xs : List Call) (s : Service)
      → results_for id xs ≡ []
      → cancels id xs ≡ false
      → id < s.next_fsm_id
      → s.next_fsm_id + length xs < 2 ^ 64
      → IsSameFor link id client s (run c xs s)
  unfolding run
  run_same [] s none_left stays known few = record { machine = refl; told = refl }
  run_same (x ∷ xs) s none_left stays known few =
      let u = unconcerned x xs none_left stays in
      IsSameFor-trans link id client s (perform c x s) _
        (perform_same link id client c x s u.0 known)
        (run_same xs (perform c x s) u.1 u.2
          (omega (arith, next_fsm_id-perform_grows c x s (omega arith)))
          (omega (arith, next_fsm_id-perform c x s)))
