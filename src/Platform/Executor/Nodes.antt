-- ===== src/Platform/Executor/Nodes.antt =====
-- How the nodes of the epoll executor come to wait, and move
-- (include/ocvsmd/platform/linux/epoll_single_threaded_executor.hpp).
use yakut_native.Base.{
  ℕ, ◌%◌, ◌^◌, ◌≡◌, ap, inl, inr, none, some, ℤ, pos, negsuc, Option-cases, Map, find, assign,
  find-assign, Distinct, Distinct-assign, arith,
}
use yakut_native.Platform.Executor.{
  Entry, Epoll, IsEpoll, Node, Executor, construct, setup, take_over, move_construct,
}
use yakut_native.Platform.Executor.Counting.{
  waiting_node, idle_node, waiting, weight, waiting-assign, absent-other,
}

module _ {T : Type 0} (e : Epoll T) (documented : IsEpoll e) where
  -- A descriptor's entry names the node that waits for it, every waiting node has its entry, and
  -- total_awaitables_ counts them.
  pub record Inv (s : Executor T) : Type 0 where
    pub distinct : Distinct s.nodes
    pub entry-node :
        (fd : ℕ) (x : Entry)
        → e.lookup fd s.interest ≡ some x
        → find x.node s.nodes ≡ some (waiting_node fd x.events)
    pub node-entry :
        (fd id events : ℕ)
        → find id s.nodes ≡ some (waiting_node fd events)
        → e.lookup fd s.interest ≡ some (record { events = events; node = id })
    pub counted : s.total ≡ waiting s.nodes % 2 ^ 64

  pub construct-Inv :
      (this : ℕ) (s : Executor T) → find this s.nodes ≡ none → Inv s → Inv (construct e this s)
  unfolding construct
  construct-Inv this s fresh v = record {
    distinct = Distinct-assign this idle_node s.nodes v.distinct;
    entry-node = λ fd x h.
        ground (arith, find-assign x.node this idle_node s.nodes, v.entry-node fd x h, fresh);
    node-entry = λ fd id events h.
        v.node-entry fd id events (ground (arith, find-assign id this idle_node s.nodes, h));
    counted = omega (arith, v.counted, waiting-assign this idle_node s.nodes, ap weight fresh);
  }

  pub setup-Inv :
      (this fd events : ℕ) (s : Executor T)
      → find this s.nodes ≡ some idle_node
      → e.lookup fd s.interest ≡ none
      → Inv s
      → Inv (setup e this fd events s)
  unfolding setup
  setup-Inv this fd events s idle free v = record {
    distinct = Distinct-assign this (waiting_node fd events) s.nodes v.distinct;
    entry-node = λ j x h. ground (
      arith,
      find-assign x.node this (waiting_node fd events) s.nodes,
      documented.lookup-add j fd (record { events = events; node = this }) s.interest,
      v.entry-node j x,
      h,
      free,
      idle,
    );
    node-entry = λ j id evs h. ground (
      arith,
      find-assign id this (waiting_node fd events) s.nodes,
      documented.lookup-add j fd (record { events = events; node = this }) s.interest,
      v.node-entry j id evs,
      h,
      free,
      idle,
    );
    counted =
        omega
          (arith, v.counted, waiting-assign this (waiting_node fd events) s.nodes, ap weight idle);
  }

  take_over-Inv :
      (this other : ℕ) (fd : ℤ) (events : ℕ) (s : Executor T)
      → find this s.nodes ≡ none
      → find other s.nodes ≡ some (record { fd = fd; events = events })
      → Inv s
      → Inv (take_over e this other (record { fd = fd; events = events }) s)
  unfolding take_over
  take_over-Inv this other (pos fd) events s fresh there v = record {
    distinct =
        Distinct-assign this (waiting_node fd events) m
          (Distinct-assign other idle_node s.nodes v.distinct);
    entry-node = λ j x h. ground (
      arith,
      find-assign x.node this (waiting_node fd events) m,
      find-assign x.node other idle_node s.nodes,
      documented.lookup-mod j fd (record { events = events; node = this }) s.interest,
      v.entry-node j x,
      v.node-entry fd other events,
      h,
      fresh,
      there,
    );
    node-entry = λ j id evs h. ground (
      arith,
      find-assign id this (waiting_node fd events) m,
      find-assign id other idle_node s.nodes,
      documented.lookup-mod j fd (record { events = events; node = this }) s.interest,
      v.node-entry j id evs,
      v.node-entry fd other events,
      h,
      fresh,
      there,
    );
    counted = omega (
      arith,
      v.counted,
      waiting-assign this (waiting_node fd events) m,
      waiting-assign other idle_node s.nodes,
      ap weight there,
      ap weight (absent-other this other (waiting_node fd events) s fresh there),
    );
  }
    where
      m : Map Node
      m = assign other idle_node s.nodes
  take_over-Inv this other (negsuc n) events s fresh there v = record {
    distinct = Distinct-assign this node m (Distinct-assign other idle_node s.nodes v.distinct);
    entry-node = λ j x h. ground (
      arith,
      find-assign x.node this node m,
      find-assign x.node other idle_node s.nodes,
      v.entry-node j x,
      h,
      fresh,
      there,
    );
    node-entry = λ j id evs h. v.node-entry j id evs (
        ground (
          arith,
          find-assign id this node m,
          find-assign id other idle_node s.nodes,
          h,
          fresh,
          there,
        ));
    counted = omega (
      arith,
      v.counted,
      waiting-assign this node m,
      waiting-assign other idle_node s.nodes,
      ap weight there,
      ap weight (absent-other this other node s fresh there),
    );
  }
    where
      node : Node
      node = record { fd = negsuc n; events = events }

      m : Map Node
      m = assign other idle_node s.nodes

  pub move_construct-Inv :
      (this other : ℕ) (s : Executor T)
      → find this s.nodes ≡ none
      → Inv s
      → Inv (move_construct e this other s)
  unfolding move_construct
  move_construct-Inv this other s fresh v = elim (Option-cases (find other s.nodes)) [
    | inl missing ↦ rw (move_construct, missing) v
    | inr (node, there) ↦
        rw (move_construct, there) (take_over-Inv this other node.fd node.events s fresh there v)
  ]
