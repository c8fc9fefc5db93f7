-- ===== src/Platform/Executor/Registry.antt =====
-- What the interest list of the epoll executor
-- (include/ocvsmd/platform/linux/epoll_single_threaded_executor.hpp) has for the nodes that live.
use yakut_native.Base.{
  ℕ, ◌%◌, ◌^◌, ◌≡◌, ◌↔◌, refl, ap, inl, inr, List, [], ◌∷◌, false, none, some, ℤ, pos, negsuc,
  ==_refl, Option-cases, find, erase, find-assign, find-erase, Distinct-erase, arith,
}
use yakut_native.Platform.Executor.{
  Epoll, IsEpoll, Executor, Trigger, fd_of, events_of, init, construct, setup, move_construct,
  leave, destroy, register_awaitable_callback, Operation, registers, moves, drops, watched,
  IsProper, perform, run, AllProper,
}
use yakut_native.Platform.Executor.Counting.{
  waiting_node, idle_node, waiting, weight, waiting-erase, watched-find,
}
use yakut_native.Platform.Executor.Nodes.{Inv, construct-Inv, setup-Inv, move_construct-Inv}

module _ {T : Type 0} (e : Epoll T) (documented : IsEpoll e) where
  -- A node goes, with its entry.
  remove-Inv :
      (this : ℕ) (fd : ℤ) (events : ℕ) (s : Executor T)
      → find this s.nodes ≡ some (record { fd = fd; events = events })
      → Inv e documented s
      → Inv e documented (record (leave e fd s) { nodes = erase this (leave e fd s).nodes })
  unfolding leave
  remove-Inv this (pos fd) events s there v = record {
    distinct = Distinct-erase this s.nodes v.distinct;
    entry-node = λ j x h. ground (
      arith,
      find-erase x.node this s.nodes,
      documented.lookup-del j fd s.interest,
      v.entry-node j x,
      h,
      there,
    );
    node-entry = λ j id evs h. ground (
      arith,
      find-erase id this s.nodes,
      documented.lookup-del j fd s.interest,
      v.node-entry j id evs,
      v.node-entry fd this events there,
      h,
    );
    counted = omega (arith, v.counted, waiting-erase this s.nodes v.distinct, ap weight there);
  }
  remove-Inv this (negsuc n) events s there v = record {
    distinct = Distinct-erase this s.nodes v.distinct;
    entry-node = λ j x h. ground (arith, find-erase x.node this s.nodes, v.entry-node j x h, there);
    node-entry =
        λ j id evs h. v.node-entry j id evs (ground (arith, find-erase id this s.nodes, h));
    counted = omega (arith, v.counted, waiting-erase this s.nodes v.distinct, ap weight there);
  }

  destroy-Inv :
      (this : ℕ) (s : Executor T) → Inv e documented s → Inv e documented (destroy e this s)
  unfolding destroy
  destroy-Inv this s v = elim (Option-cases (find this s.nodes)) [
    | inl missing ↦ rw (destroy, missing) v
    | inr (node, there) ↦ rw (destroy, there) (remove-Inv this node.fd node.events s there v)
  ]

  unwatched :
      (fd : ℕ) (s : Executor T)
      → Inv e documented s
      → watched fd s.nodes ≡ false
      → e.lookup fd s.interest ≡ none
  unwatched fd s v u = elim (Option-cases (e.lookup fd s.interest)) [
    | inl missing ↦ missing
    | inr (x, there) ↦
        ground (arith, watched-find fd x.node x.events s.nodes (v.entry-node fd x there), u)
  ]

  pub init-Inv : Inv e documented (init e)
  unfolding init find
  init-Inv = record {
    distinct = tt;
    entry-node = λ fd x h. absurd (ground (arith, documented.lookup-created fd, h));
    node-entry = λ fd id events h. absurd (ground (arith, h));
    counted = refl;
  }

  register-Inv :
      (local this : ℕ) (trigger : Trigger) (s : Executor T)
      → IsProper (registers local this trigger) s.nodes
      → Inv e documented s
      → Inv e documented (register_awaitable_callback e local this trigger s)
  unfolding register_awaitable_callback construct setup
  register-Inv local this trigger s (fresh, fresh', other, free) v =
      destroy-Inv local (move_construct e this local prepared) (
        move_construct-Inv e documented this local prepared absent (
          setup-Inv e documented local (fd_of trigger) (events_of trigger) made idle
            (unwatched (fd_of trigger) s v free) (construct-Inv e documented local s fresh v)))
    where
      made : Executor T
      made = construct e local s

      prepared : Executor T
      prepared = setup e local (fd_of trigger) (events_of trigger) made

      idle : find local made.nodes ≡ some idle_node
      idle = ground (arith, find-assign local local idle_node s.nodes, ==_refl local)

      absent : find this prepared.nodes ≡ none
      absent = ground (
        arith,
        find-assign this local (waiting_node (fd_of trigger) (events_of trigger)) made.nodes,
        find-assign this local idle_node s.nodes,
        fresh',
        other,
      )

  perform-Inv :
      (o : Operation) (s : Executor T)
      → IsProper o s.nodes
      → Inv e documented s
      → Inv e documented (perform e o s)
  unfolding perform
  perform-Inv (registers local this trigger) s p v = register-Inv local this trigger s p v
  perform-Inv (moves this other) s p v = move_construct-Inv e documented this other s p.0 v
  perform-Inv (drops this) s p v = destroy-Inv this s v

  pub run-Inv :
      (os : List Operation) (s : Executor T)
      → AllProper e os s
      → Inv e documented s
      → Inv e documented (run e os s)
  unfolding run
  run-Inv [] s p v = v
  run-Inv (o ∷ os) s p v = run-Inv os (perform e o s) p.1 (perform-Inv o s p.0 v)

  -- However callbacks are registered, moved and dropped, if no two of them wait for one descriptor and
  -- `epoll_ctl` does what it documents: the interest list has for a descriptor exactly the
  -- events and the address of the node that lives and waits for it, and total_awaitables_ counts the
  -- nodes that wait (modulo 2 ^ 64).
  pub run-Watches :
      (os : List Operation)
      → AllProper e os (init e)
      → ((fd id events : ℕ)
          → (e.lookup fd (run e os (init e)).interest
              ≡ some (record { events = events; node = id }))
            ↔ (find id (run e os (init e)).nodes ≡ some (waiting_node fd events)))
        × ((run e os (init e)).total ≡ waiting (run e os (init e)).nodes % 2 ^ 64)
  run-Watches os p = (
    λ fd id events.
        (v.entry-node fd (record { events = events; node = id }), v.node-entry fd id events),
    v.counted,
  )
    where
      v : Inv e documented (run e os (init e))
      v = run-Inv os (init e) p init-Inv
