-- ===== src/Platform/Kqueue/Registry.antt =====
-- What the kernel's queue has for the nodes of the kqueue executor that live
-- (include/ocvsmd/platform/bsd/kqueue_single_threaded_executor.hpp).
use yakut_native.Base.{
  ℕ, ◌%◌, ◌^◌, ◌≡◌, ◌↔◌, refl, ap, inl, inr, List, [], ◌∷◌, true, false, none, some, ℤ, pos, negsuc,
  ==_refl, Option-cases, find, erase, find-assign, find-erase, Distinct-erase, arith,
}
use yakut_native.Platform.Executor.{Executor, Trigger, fd_of, Operation, registers, moves, drops}
use yakut_native.Platform.Executor.Counting.{
  waiting_node, idle_node, waiting, weight, waiting-erase,
}
use yakut_native.Platform.Kqueue.{
  Kqueue, IsKqueue, filter_of, with_vnode, filter_of_trigger, init, construct, wait_for, setup,
  move_construct, leave, destroy, register_awaitable_callback, perform, run, waits_for, watched_for,
  IsProper, AllProper,
}
use yakut_native.Platform.Kqueue.Nodes.{
  Inv, watched_for-find, waits_own, construct-Inv, wait_for-Inv, move_construct-Inv,
}

module _ {T : Type 0} (q : Kqueue T) (documented : IsKqueue q) where
  -- A node goes, with its event.
  remove-Inv :
      (this : ℕ) (fd : ℤ) (events : ℕ) (s : Executor T)
      → find this s.nodes ≡ some (record { fd = fd; events = events })
      → Inv q documented s
      → Inv q documented
          (record (leave q fd events s) { nodes = erase this (leave q fd events s).nodes })
  unfolding leave
  remove-Inv this (pos fd) events s there v = record {
    distinct = Distinct-erase this s.nodes v.distinct;
    event-node = λ j g id h. ground (
      arith,
      find-erase id this s.nodes,
      documented.lookup-delete j g fd (filter_of events) s.interest,
      v.event-node j g id,
      h,
      there,
    );
    node-event = λ j g id h. ground (
      arith,
      find-erase id this s.nodes,
      documented.lookup-delete j g fd (filter_of events) s.interest,
      v.node-event j g id,
      v.node-event fd (filter_of events) this (rw there (waits_own fd events)),
      h,
    );
    counted = omega (arith, v.counted, waiting-erase this s.nodes v.distinct, ap weight there);
  }
  remove-Inv this (negsuc n) events s there v = record {
    distinct = Distinct-erase this s.nodes v.distinct;
    event-node =
        λ j g id h. ground (arith, find-erase id this s.nodes, v.event-node j g id h, there);
    node-event = λ j g id h. v.node-event j g id (ground (arith, find-erase id this s.nodes, h));
    counted = omega (arith, v.counted, waiting-erase this s.nodes v.distinct, ap weight there);
  }

  destroy-Inv :
      (this : ℕ) (s : Executor T) → Inv q documented s → Inv q documented (destroy q this s)
  unfolding destroy
  destroy-Inv this s v = elim (Option-cases (find this s.nodes)) [
    | inl missing ↦ rw (destroy, missing) v
    | inr (node, there) ↦ rw (destroy, there) (remove-Inv this node.fd node.events s there v)
  ]

  unwatched :
      (fd filter : ℕ) (s : Executor T)
      → Inv q documented s
      → watched_for fd filter s.nodes ≡ false
      → q.lookup fd filter s.interest ≡ none
  unwatched fd filter s v u = elim (Option-cases (q.lookup fd filter s.interest)) [
    | inl missing ↦ missing
    | inr (id, there) ↦
        absurd (
          ground
            (arith, watched_for-find fd filter id s.nodes (v.event-node fd filter id there), u))
  ]

  init-Inv : Inv q documented (init q)
  unfolding init find
  init-Inv = record {
    distinct = tt;
    event-node = λ fd f id h. absurd (ground (arith, documented.lookup-created fd f, h));
    node-event = λ fd f id h. absurd (ground (arith, h));
    counted = refl;
  }

  register-Inv :
      (local this : ℕ) (trigger : Trigger) (s : Executor T)
      → IsProper (registers local this trigger) s.nodes
      → Inv q documented s
      → Inv q documented (register_awaitable_callback q local this trigger s)
  unfolding register_awaitable_callback construct setup wait_for
  register-Inv local this trigger s (fresh, fresh', other, free) v =
      destroy-Inv local (move_construct q this local prepared) (
        move_construct-Inv q documented this local prepared absent (
          wait_for-Inv q documented local (fd_of trigger) events made idle
            (unwatched (fd_of trigger) (filter_of events) s v free)
            (construct-Inv q documented local s fresh v)))
    where
      events : ℕ
      events = with_vnode (filter_of_trigger trigger)

      made : Executor T
      made = construct q local s

      prepared : Executor T
      prepared = setup q local (fd_of trigger) (filter_of_trigger trigger) made

      idle : find local made.nodes ≡ some idle_node
      idle = ground (arith, find-assign local local idle_node s.nodes, ==_refl local)

      absent : find this prepared.nodes ≡ none
      absent = ground (
        arith,
        find-assign this local (waiting_node (fd_of trigger) events) made.nodes,
        find-assign this local idle_node s.nodes,
        fresh',
        other,
      )

  perform-Inv :
      (o : Operation) (s : Executor T)
      → IsProper o s.nodes
      → Inv q documented s
      → Inv q documented (perform q o s)
  unfolding perform
  perform-Inv (registers local this trigger) s p v = register-Inv local this trigger s p v
  perform-Inv (moves this other) s p v = move_construct-Inv q documented this other s p.0 v
  perform-Inv (drops this) s p v = destroy-Inv this s v

  run-Inv :
      (os : List Operation) (s : Executor T)
      → AllProper q os s
      → Inv q documented s
      → Inv q documented (run q os s)
  unfolding run
  run-Inv [] s p v = v
  run-Inv (o ∷ os) s p v = run-Inv os (perform q o s) p.1 (perform-Inv o s p.0 v)

  -- However callbacks are registered, moved and dropped on the kqueue executor, if no two of them wait for one
  -- descriptor with one filter and `kevent` does what it documents: the queue has for a descriptor and a
  -- filter exactly the address of the node that lives and waits for them, and total_awaitables_ counts the
  -- nodes that wait (modulo 2 ^ 64).
  pub run-Queues :
      (os : List Operation)
      → AllProper q os (init q)
      → ((fd filter id : ℕ)
          → (q.lookup fd filter (run q os (init q)).interest ≡ some id)
            ↔ (waits_for fd filter (find id (run q os (init q)).nodes) ≡ true))
        × ((run q os (init q)).total ≡ waiting (run q os (init q)).nodes % 2 ^ 64)
  run-Queues os p = (λ fd f id. (v.event-node fd f id, v.node-event fd f id), v.counted)
    where
      v : Inv q documented (run q os (init q))
      v = run-Inv os (init q) p init-Inv
