-- ===== src/Sdk/Command/Concurrent.antt =====
-- One request among others: `ExecCmdServiceImpl` of src/daemon/engine/svc/node/exec_cmd_service.cpp and
-- the `ExecCmdClientImpl` of src/sdk/svc/node/exec_cmd_client.cpp that made the request.
use mathlib.Core.Path.{subst}
use yakut_native.Base.{
  is_zero, ℕ, ◌+◌, ◌<◌, ◌^◌, ◌≡◌, refl, sym, ap, ◌∙◌, List, [], ◌∷◌, true, false, Option, none,
  some, pos, inl, inr, arith, ◌==◌, ==_iff, Bool-cases, find, contains, erase, length,
}
use yakut_native.Daemon.ExecCmdService.{
  Answer, Cyphal, Ops, Service, is_empty, Call, serves, responds, completes, perform, run,
}
use yakut_native.Daemon.ExecCmdService.Answers.{Exhausts, last}
use yakut_native.Daemon.ExecCmdService.Life.{next_fsm_id-perform, next_fsm_id-perform_grows}
use yakut_native.Sdk.ExecCmdClient
use yakut_native.Sdk.ExecCmdClient.{
  ExecCmdClient, success, handle_event, handle_all, inputs, handle_all_reports,
}
use yakut_native.Sdk.Command.{Link, heard, answers}
use yakut_native.Sdk.Command.Isolation.{concerns, IsSameFor, perform_same}
use yakut_native.Sdk.Command.Results.{
  results_for, cancels, told, told-all, goes_on, finishes, run_same, results-own, results-other,
}

module _ (c : Cyphal) (link : Link) (ends_well : is_zero (link.end (pos 0)) ≡ true) (id : ℕ)
    (client : ExecCmdClient) where
  -- The machine of the request is gone, and its client was told the results and then the end.
  abbrev pub Ends : List (ℕ × Option Answer) → Service → Service → Type 0
  Ends rs s t =
      (find id t.fsms ≡ none)
      × (heard link id t.trace client
          ≡ handle_event (ExecCmdClient.completed (pos 0))
              (handle_all (inputs (answers link rs)) (heard link id s.trace client)))

  -- After a call about another request, when what remains is as it should be.
  unrelated :
      (x : Call) (xs : List Call) (rs : List (ℕ × Option Answer)) (ops : Ops) (s : Service)
      → concerns id x ≡ false
      → find id s.fsms ≡ some ops
      → id < s.next_fsm_id
      → s.next_fsm_id + (length xs + 1) < 2 ^ 64
      → let t = perform c x s in
        (find id t.fsms ≡ some ops
          → id < t.next_fsm_id
          → t.next_fsm_id + length xs < 2 ^ 64
          → Ends rs t (run c xs t))
        → Ends rs s (run c xs t)
  unrelated x xs rs ops s other found known few remaining = (
    ends.0,
    ends.1
        ∙ ap
            (λ (u : ExecCmdClient).
              handle_event (ExecCmdClient.completed (pos 0))
                (handle_all (inputs (answers link rs)) u))
            v.told,
  )
    where
      t : Service
      t = perform c x s

      v : IsSameFor link id client s t
      v = perform_same link id client c x s other known

      ends : Ends rs t (run c xs t)
      ends =
          remaining (v.machine ∙ found)
            (omega (arith, next_fsm_id-perform_grows c x s (omega arith)))
            (omega (arith, next_fsm_id-perform c x s))

  -- After a result of the request, when what remains is as it should be.
  answered :
      (node : ℕ) (result : Option Answer) (xs : List Call) (ops : Ops) (s : Service)
      → find id s.fsms ≡ some ops
      → contains node ops ≡ true
      → Exhausts (results_for id xs) (erase node ops)
      → cancels id xs ≡ false
      → let t = perform c (responds id node result) s in
        (id < t.next_fsm_id)
        → t.next_fsm_id + length xs < 2 ^ 64
        → (find id t.fsms ≡ some (erase node ops)
            → is_empty (erase node ops) ≡ false
            → Ends (results_for id xs) t (run c xs t))
        → Ends ((node, result) ∷ results_for id xs) s (run c xs t)
  answered node result xs ops s found here exhausts stays known few remaining =
      elim (Bool-cases (is_empty (erase node ops))) [
        | inl empty ↦
            let fin = finishes c link ends_well id client node result ops s found here empty in
            let none_left : rest ≡ [] = last rest (erase node ops) empty exhausts in
            let v = run_same c link ends_well id client xs t none_left stays known few in
            (
              v.machine ∙ fin.0,
              v.told ∙ fin.1 ∙ ap (handle_event (ExecCmdClient.completed (pos 0))) (all none_left),
            )
        | inr more ↦
            let on = goes_on c link ends_well id client node result ops s found here more in
            let ends = remaining on.0 more in
            (
              ends.0,
              ends.1
                  ∙ ap (λ (u : ExecCmdClient). handle_event (ExecCmdClient.completed (pos 0)) u)
                      (ap (handle_all (inputs (answers link rest))) on.1
                        ∙ sym (told-all link node result rest before)),
            )
      ]
    where
      t : Service
      t = perform c (responds id node result) s

      rest : List (ℕ × Option Answer)
      rest = results_for id xs

      before : ExecCmdClient
      before = heard link id s.trace client

      all :
          rest ≡ []
          → told link node result before
            ≡ handle_all (inputs (answers link ((node, result) ∷ rest))) before
      all none_left =
          subst
            (λ (rs : List (ℕ × Option Answer)).
              told link node result before
              ≡ handle_all (inputs (answers link ((node, result) ∷ rs))) before)
            (sym none_left) (unfold told in refl)

  -- What a request comes to, when the calls have every result of it and do not end its channel.
  pub run_ends :
      (xs : List Call) (ops : Ops) (s : Service)
      → find id s.fsms ≡ some ops
      → is_empty ops ≡ false
      → Exhausts (results_for id xs) ops
      → cancels id xs ≡ false
      → id < s.next_fsm_id
      → s.next_fsm_id + length xs < 2 ^ 64
      → Ends (results_for id xs) s (run c xs s)
  unfolding results_for cancels run concerns
  run_ends [] ops s found more exhausts stays known few = absurd (ground (arith, more, exhausts))
  run_ends (serves nodes ∷ xs) ops s found more exhausts stays known few =
      unrelated (serves nodes) xs (results_for id xs) ops s refl found known (omega arith)
        (λ f k r. run_ends xs ops (perform c (serves nodes) s) f more exhausts stays k r)
  run_ends (responds k node result ∷ xs) ops s found more exhausts stays known few =
      elim (Bool-cases (k == id)) [
        | inl same ↦
            let own = results-own id k node result xs same in
            let e = subst (λ (rs : List (ℕ × Option Answer)). Exhausts rs ops) own exhausts in
            subst
              (λ (rs : List (ℕ × Option Answer)).
                Ends rs s (run c xs (perform c (responds k node result) s)))
              (sym own)
              (subst
                (λ (j : ℕ).
                  Ends ((node, result) ∷ results_for id xs) s
                    (run c xs (perform c (responds j node result) s)))
                (sym ((==_iff k id).0 same))
                (answered node result xs ops s found e.0 e.1 stays
                  (omega
                    (arith, next_fsm_id-perform_grows c (responds id node result) s (omega arith)))
                  (omega (arith, next_fsm_id-perform c (responds id node result) s))
                  (λ f m.
                    run_ends xs (erase node ops) (perform c (responds id node result) s) f m e.1
                      stays
                      (omega (
                        arith,
                        next_fsm_id-perform_grows c (responds id node result) s (omega arith),
                      ))
                      (omega (arith, next_fsm_id-perform c (responds id node result) s)))))
        | inr other ↦
            let theirs = results-other id k node result xs other in
            subst
              (λ (rs : List (ℕ × Option Answer)).
                Ends rs s (run c xs (perform c (responds k node result) s)))
              (sym theirs)
              (unrelated (responds k node result) xs (results_for id xs) ops s other found known
                (omega arith)
                (λ f j r.
                  run_ends xs ops (perform c (responds k node result) s) f more
                    (subst (λ (rs : List (ℕ × Option Answer)). Exhausts rs ops) theirs exhausts)
                    stays j r))
      ]
  run_ends (completes k ∷ xs) ops s found more exhausts stays known few =
      elim (Bool-cases (k == id)) [
        | inl same ↦ absurd (ground (arith, same, stays))
        | inr other ↦
            unrelated (completes k) xs (results_for id xs) ops s other found known (omega arith)
              (λ f j r.
                run_ends xs ops (perform c (completes k) s) f more exhausts
                  (ground (arith, other, stays)) j r)
      ]
