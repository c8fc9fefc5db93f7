-- ===== src/Sdk/Command/Isolation.antt =====
-- What `ExecCmdServiceImpl` (src/daemon/engine/svc/node/exec_cmd_service.cpp) does for other requests, as
-- the client of one request hears it.
use yakut_native.Base.{
  is_zero, ℕ, ◌<◌, ◌≡◌, refl, ◌∙◌, List, [], ◌∷◌, Bool, false, Option, none, some, ℤ, pos, inl, inr,
  arith, ◌==◌, is_zero, Option-cases, find, contains, erase, assign, find-erase, find-assign,
  if_intro,
}
use yakut_native.Daemon.ExecCmdService.{
  Answer, Cyphal, Ops, Service, complete, call_each, unique, start, serve, respond, is_empty,
  release_op, on_response, on_completed, Call, serves, responds, completes, perform,
}
use yakut_native.Sdk.ExecCmdClient.{ExecCmdClient}
use yakut_native.Sdk.Command.{Link, hear, heard}

-- A call that is about the machine of a request.
unfoldable pub concerns : ℕ → Call → Bool
concerns id (serves nodes) = false
concerns id (responds k node result) = k == id
concerns id (completes k) = k == id

module _ (link : Link) (id : ℕ) (client : ExecCmdClient) where
  -- The machine of the request stays, and its client has heard the same.
  pub record IsSameFor (s t : Service) : Type 0 where
    pub machine : find id t.fsms ≡ find id s.fsms
    pub told : heard link id t.trace client ≡ heard link id s.trace client

  pub IsSameFor-trans : (s t u : Service) → IsSameFor s t → IsSameFor t u → IsSameFor s u
  IsSameFor-trans s t u v w = record { machine = w.machine ∙ v.machine; told = w.told ∙ v.told }

  same : (s : Service) → IsSameFor s s
  same s = record { machine = refl; told = refl }

  complete_same :
      (k : ℕ) (err : ℤ) (s : Service) → (k == id) ≡ false → IsSameFor s (complete k err s)
  unfolding complete heard hear
  complete_same k err s other = record {
    machine = ground (arith, find-erase id k s.fsms, other);
    told = rw other refl;
  }

  assign_same :
      (k : ℕ) (ops : Ops) (s : Service)
      → (k == id) ≡ false
      → IsSameFor s (record s { fsms = assign k ops s.fsms })
  assign_same k ops s other = record {
    machine = ground (arith, find-assign id k ops s.fsms, other);
    told = refl;
  }

  respond_same :
      (k node : ℕ) (result : Option Answer) (s : Service)
      → (k == id) ≡ false
      → IsSameFor s (respond k node result s)
  unfolding respond heard hear
  respond_same k node none s other = same s
  respond_same k node (some answer) s other = record { machine = refl; told = rw other refl }

  release_op_same :
      (k node : ℕ) (ops : Ops) (s : Service)
      → (k == id) ≡ false
      → IsSameFor s (release_op k node ops s)
  unfolding release_op
  release_op_same k node ops s other =
      if_intro (IsSameFor s) (is_empty (erase node ops)) _ _ (λ _. complete_same k (pos 0) s other)
        (λ _. assign_same k (erase node ops) s other)

  on_response_same :
      (k node : ℕ) (result : Option Answer) (s : Service)
      → (k == id) ≡ false
      → IsSameFor s (on_response k node result s)
  unfolding on_response
  on_response_same k node result s other = elim (Option-cases (find k s.fsms)) [
    | inl gone ↦ rw (gone, on_response) (same s)
    | inr (ops, found) ↦
        rw (found, on_response)
          (if_intro (IsSameFor s) (contains node ops) _ _
            (λ _.
              IsSameFor-trans s (respond k node result s) _ (respond_same k node result s other)
                (release_op_same k node ops (respond k node result s) other))
            (λ _. same s))
  ]

  on_completed_same : (k : ℕ) (s : Service) → (k == id) ≡ false → IsSameFor s (on_completed k s)
  unfolding on_completed
  on_completed_same k s other = elim (Option-cases (find k s.fsms)) [
    | inl gone ↦ rw (gone, on_completed) (same s)
    | inr (ops, found) ↦ rw (found, on_completed) (complete_same k _ s other)
  ]

  start_same :
      (c : Cyphal) (k : ℕ) (nodes : List ℕ) (s : Service)
      → (k == id) ≡ false
      → IsSameFor s (start c k nodes s)
  unfolding start
  start_same c k [] s other = complete_same k (pos 0) s other
  start_same c k (n ∷ ns) s other =
      if_intro (IsSameFor s) (is_zero (call_each c (unique (n ∷ ns)) []).1) _ _
        (λ _. assign_same k _ s other) (λ _. complete_same k _ s other)

  serve_same :
      (c : Cyphal) (nodes : List ℕ) (s : Service)
      → id < s.next_fsm_id
      → IsSameFor s (serve c nodes s)
  unfolding serve heard hear
  serve_same c nodes s known =
      IsSameFor-trans s _ _
        (record { machine = ground (arith, find-assign id s.next_fsm_id [] s.fsms); told = refl })
        (start_same c s.next_fsm_id nodes _ (ground arith))

  pub perform_same :
      (c : Cyphal) (x : Call) (s : Service)
      → concerns id x ≡ false
      → id < s.next_fsm_id
      → IsSameFor s (perform c x s)
  unfolding perform concerns
  perform_same c (serves nodes) s other known = serve_same c nodes s known
  perform_same c (responds k node result) s other known = on_response_same k node result s other
  perform_same c (completes k) s other known = on_completed_same k s other
