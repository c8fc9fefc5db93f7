-- ===== src/Daemon/ExecCmdService/Answers.antt =====
-- The answers of the nodes of one request (`ExecCmdServiceImpl` of
-- src/daemon/engine/svc/node/exec_cmd_service.cpp).
use mathlib.Core.Path.{subst}
use yakut_native.Base.{
  ℕ, ◌≡◌, refl, sym, ap, ◌∙◌, List, [], ◌∷◌, ◌++◌, true, false, Option, none, some, pos, inl, inr,
  arith, append_assoc, Bool-cases, find, contains, erase, assign, find-erase, find-assign, ==_refl,
}
use yakut_native.Daemon.ExecCmdService.{
  Answer, Effect, responded, completed, Ops, Service, complete, respond, is_empty, release_op,
  on_response,
}

-- The answers, or failures, of nodes, one after the other.
unfoldable pub respond_all : ℕ → List (ℕ × Option Answer) → Service → Service
respond_all id [] s = s
respond_all id ((node, result) ∷ rs) s = respond_all id rs (on_response id node result s)

-- One result for each operation, in some order.
abbrev pub Exhausts : List (ℕ × Option Answer) → Ops → Type 0
Exhausts [] ops = is_empty ops ≡ true
Exhausts ((node, result) ∷ rs) ops = (contains node ops ≡ true) × Exhausts rs (erase node ops)

-- What is passed on, latest first.
abbrev pub responses : ℕ → List (ℕ × Option Answer) → List Effect
responses id [] = []
responses id ((node, none) ∷ rs) = responses id rs
responses id ((node, some answer) ∷ rs) = responses id rs ++ responded id node answer ∷ []

trace-respond :
    (id node : ℕ) (result : Option Answer) (rs : List (ℕ × Option Answer)) (s : Service)
    → responses id rs ++ (respond id node result s).trace
      ≡ responses id ((node, result) ∷ rs) ++ s.trace
unfolding respond
trace-respond id node none rs s = refl
trace-respond id node (some answer) rs s =
    sym (append_assoc (responses id rs) (responded id node answer ∷ []) s.trace)

-- After the last operation there are no results.
pub last :
    (rs : List (ℕ × Option Answer)) (ops : Ops) → is_empty ops ≡ true → Exhausts rs ops → rs ≡ []
last [] ops e x = refl
last ((node, result) ∷ rs) [] e x = unfold contains in ground arith
last ((node, result) ∷ rs) (op ∷ ops) e x = unfold is_empty in ground arith

-- When every operation of a machine has had its one result, in whatever order, the machine is gone: it
-- has passed on every answer, in the order of their arrival and no failure, and has then completed
-- the channel with success.
pub respond_all_completes :
    (id : ℕ) (rs : List (ℕ × Option Answer)) (ops : Ops) (s : Service)
    → find id s.fsms ≡ some ops
    → is_empty ops ≡ false
    → Exhausts rs ops
    → let t = respond_all id rs s in
      (find id t.fsms ≡ none) × (t.trace ≡ completed id (pos 0) ∷ responses id rs ++ s.trace)
unfolding respond_all
respond_all_completes id [] ops s found more done = ground arith
respond_all_completes id ((node, result) ∷ rs) ops s found more done =
    elim (Bool-cases (is_empty (erase node ops))) [
      | inl e ↦
          subst (λ (xs : List (ℕ × Option Answer)). Ends xs (on_response id node result s)) {x = []}
            (sym (last rs (erase node ops) e done.1))
            (subst (Ends []) (sym (first ∙ finishes e)) (
              unfold complete in ground (arith, find-erase id id u.fsms, ==_refl id),
              unfold complete in
                  ap (λ (es : List Effect). completed id (pos 0) ∷ es)
                    (trace-respond id node result [] s),
            ))
      | inr e ↦
          let rest =
            respond_all_completes id rs (erase node ops) (waits (erase node ops))
              (ground (arith, find-assign id id (erase node ops) u.fsms, ==_refl id)) e done.1 in
          subst (Ends rs) (sym (first ∙ goes_on e)) (
            rest.0,
            rest.1
                ∙ ap (λ (es : List Effect). completed id (pos 0) ∷ es)
                    (trace-respond id node result rs s),
          )
    ]
  where
    u : Service
    u = respond id node result s

    waits : Ops → Service
    waits left = record u { fsms = assign id left u.fsms }

    Ends : List (ℕ × Option Answer) → Service → Type 0
    Ends xs v =
        (find id (respond_all id xs v).fsms ≡ none)
        × ((respond_all id xs v).trace
            ≡ completed id (pos 0) ∷ responses id ((node, result) ∷ xs) ++ s.trace)

    first : on_response id node result s ≡ release_op id node ops u
    first = unfold on_response in rw (found, on_response, done.0) refl

    finishes : is_empty (erase node ops) ≡ true → release_op id node ops u ≡ complete id (pos 0) u
    finishes e = unfold release_op in rw (e, release_op) refl

    goes_on : is_empty (erase node ops) ≡ false → release_op id node ops u ≡ waits (erase node ops)
    goes_on e = unfold release_op in rw (e, release_op) refl
