-- ===== src/Daemon/ExecCmdService/Steps.antt =====
-- What one step of a state machine of `ExecCmdServiceImpl`
-- (src/daemon/engine/svc/node/exec_cmd_service.cpp) does to its place in the automaton of Stage.
use mathlib.Core.Path.{subst}
use yakut_native.Base.{
  ℕ, ◌<◌, ◌≡◌, refl, sym, ◌∙◌, ◌∷◌, true, false, Option, none, some, ℤ, pos, inl, inr, arith,
  Option-cases, Bool-cases, find, contains, erase, assign, find-erase, find-assign, contains-find,
  ltb, ◌==◌, ==_refl, ==_iff, if◌then◌else◌, if_intro,
}
use yakut_native.Daemon.ExecCmdService.Stage.{unborn, waiting, over, stage, expected}
use yakut_native.Daemon.ExecCmdService.{
  Answer, responded, completed, Ops, Service, complete, respond, is_empty, release_op, on_response,
  on_completed,
}

pub record Inv (s : Service) : Type 0 where
  pub tracked : (j : ℕ) → stage j s.trace ≡ expected s j
  pub counted : (j : ℕ) → contains j s.fsms ≡ true → j < s.next_fsm_id

pub complete-Inv :
    (id : ℕ) (err : ℤ) (s : Service) → contains id s.fsms ≡ true → Inv s → Inv (complete id err s)
unfolding complete
complete-Inv id err s here v = record {
  tracked = tracked;
  counted = λ j there. v.counted j (ground (arith, holds j));
}
  where
    holds : (j : ℕ) → contains j (erase id s.fsms) ≡ (if id == j then false else contains j s.fsms)
    holds j =
        ground
          (arith, contains-find j (erase id s.fsms), contains-find j s.fsms, find-erase j id s.fsms)

    was : stage id s.trace ≡ waiting
    was = v.tracked id ∙ ground (arith, here)

    Holds : ℕ → Type 0
    Holds k = stage k (completed id err ∷ s.trace) ≡ (
        if contains k (erase id s.fsms)
        then waiting
        else if ltb k s.next_fsm_id
        then over
        else unborn)

    tracked : (j : ℕ) → Holds j
    tracked j = elim (Bool-cases (id == j)) [
      | inl same ↦
          subst Holds {x = id} (ground arith)
            (ground (arith, holds id, was, v.counted id here, ==_refl id))
      | inr other ↦ ground (arith, holds j, v.tracked j)
    ]

-- A machine that waits on, with other operations.
pub assign-Inv :
    (id : ℕ) (ops : Ops) (s : Service)
    → contains id s.fsms ≡ true
    → Inv s
    → Inv (record s { fsms = assign id ops s.fsms })
assign-Inv id ops s here v = record {
  tracked = λ j. v.tracked j ∙ ground (arith, holds j);
  counted = λ j there. v.counted j (sym (holds j) ∙ there);
}
  where
    holds : (j : ℕ) → contains j (assign id ops s.fsms) ≡ contains j s.fsms
    holds j = ground (
      arith,
      contains-find j (assign id ops s.fsms),
      contains-find j s.fsms,
      contains-find id s.fsms,
      find-assign j id ops s.fsms,
      ==_iff id j,
    )

pub respond-Inv :
    (id node : ℕ) (result : Option Answer) (s : Service)
    → contains id s.fsms ≡ true
    → Inv s
    → Inv (respond id node result s)
unfolding respond
respond-Inv id node none s here v = v
respond-Inv id node (some answer) s here v = record { tracked = tracked; counted = v.counted }
  where
    was : stage id s.trace ≡ waiting
    was = v.tracked id ∙ ground (arith, here)

    tracked : (j : ℕ) → stage j (responded id node answer ∷ s.trace) ≡ expected s j
    tracked j = elim (Bool-cases (id == j)) [
      | inl same ↦
          subst (λ k. stage k (responded id node answer ∷ s.trace) ≡ expected s k) {x = id}
            (ground arith) (ground (arith, here, was, ==_refl id))
      | inr other ↦ ground (arith, v.tracked j)
    ]

fsms-respond :
    (id node : ℕ) (result : Option Answer) (s : Service) → (respond id node result s).fsms ≡ s.fsms
unfolding respond
fsms-respond id node none s = refl
fsms-respond id node (some answer) s = refl

fsms-respond_here :
    (id node : ℕ) (result : Option Answer) (s : Service)
    → contains id s.fsms ≡ true
    → contains id (respond id node result s).fsms ≡ true
fsms-respond_here id node result s here = rw (fsms-respond id node result s) here

release_op-Inv :
    (id node : ℕ) (ops : Ops) (s : Service)
    → contains id s.fsms ≡ true
    → Inv s
    → Inv (release_op id node ops s)
unfolding release_op
release_op-Inv id node ops s here v =
    if_intro Inv (is_empty (erase node ops)) _ _ (λ _. complete-Inv id (pos 0) s here v)
      (λ _. assign-Inv id (erase node ops) s here v)

pub on_response-Inv :
    (id node : ℕ) (result : Option Answer) (s : Service)
    → Inv s
    → Inv (on_response id node result s)
unfolding on_response
on_response-Inv id node result s v = elim (Option-cases (find id s.fsms)) [
  | inl gone ↦ rw (gone, on_response) v
  | inr (ops, found) ↦
      let here : contains id s.fsms ≡ true = rw (contains-find id s.fsms, found) refl in
      rw (found, on_response)
        (if_intro Inv (contains node ops) _ _
          (λ _.
            release_op-Inv id node ops (respond id node result s)
              (fsms-respond_here id node result s here) (respond-Inv id node result s here v))
          (λ _. v))
]

pub on_completed-Inv : (id : ℕ) (s : Service) → Inv s → Inv (on_completed id s)
unfolding on_completed
on_completed-Inv id s v = elim (Option-cases (find id s.fsms)) [
  | inl gone ↦ rw (gone, on_completed) v
  | inr (ops, found) ↦
      rw (found, on_completed) (complete-Inv id _ s (rw (contains-find id s.fsms, found) refl) v)
]
