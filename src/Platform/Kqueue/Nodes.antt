-- ===== src/Platform/Kqueue/Nodes.antt =====
-- How the nodes of the kqueue executor come to wait, and move
-- (include/ocvsmd/platform/bsd/kqueue_single_threaded_executor.hpp).
use yakut_native.Base.{
  ℕ, ◌%◌, ◌^◌, ◌≡◌, refl, ap, inl, inr, [], ◌∷◌, Bool, true, false, ◌||◌, none, some, ℤ, pos,
  negsuc, ◌==◌, ==_refl, Bool-cases, Option-cases, Map, find, assign, find-assign, Distinct,
  Distinct-assign, arith,
}
use yakut_native.Platform.Executor.{Node, Executor}
use yakut_native.Platform.Executor.Counting.{
  waiting_node, idle_node, waiting, weight, waiting-assign, absent-other,
}
use yakut_native.Platform.Kqueue.{
  Kqueue, IsKqueue, filter_of, construct, wait_for, take_over, move_construct, waits_for,
  watched_for,
}

pub or-right : (b : Bool) → b || true ≡ true
or-right true = refl
or-right false = refl

pub watched_for-find :
    (fd filter id : ℕ) (m : Map Node)
    → waits_for fd filter (find id m) ≡ true
    → watched_for fd filter m ≡ true
unfolding find
watched_for-find fd filter id [] h = absurd (ground (arith, h))
watched_for-find fd filter id ((j, node) ∷ m) h = elim (Bool-cases (j == id)) [
  | inl same ↦ rw (held same) refl
  | inr other ↦
      rw (watched_for-find fd filter id m (later other))
        (or-right (waits_for fd filter (some node)))
]
  where
    held : (j == id) ≡ true → waits_for fd filter (some node) ≡ true
    held same = ground (arith, h, same)

    later : (j == id) ≡ false → waits_for fd filter (find id m) ≡ true
    later other = ground (arith, h, other)

pub waits_own :
    (fd events : ℕ) → waits_for fd (filter_of events) (some (waiting_node fd events)) ≡ true
waits_own fd events = rw (==_refl fd, ==_refl (filter_of events)) refl

module _ {T : Type 0} (q : Kqueue T) (documented : IsKqueue q) where
  -- An event of the queue names a node that waits for it, every waiting node has its event, and
  -- total_awaitables_ counts them.
  pub record Inv (s : Executor T) : Type 0 where
    pub distinct : Distinct s.nodes
    pub event-node :
        (fd filter id : ℕ)
        → q.lookup fd filter s.interest ≡ some id
        → waits_for fd filter (find id s.nodes) ≡ true
    pub node-event :
        (fd filter id : ℕ)
        → waits_for fd filter (find id s.nodes) ≡ true
        → q.lookup fd filter s.interest ≡ some id
    pub counted : s.total ≡ waiting s.nodes % 2 ^ 64

  pub construct-Inv :
      (this : ℕ) (s : Executor T) → find this s.nodes ≡ none → Inv s → Inv (construct q this s)
  unfolding construct
  construct-Inv this s fresh v = record {
    distinct = Distinct-assign this idle_node s.nodes v.distinct;
    event-node = λ fd f id h.
        ground (arith, find-assign id this idle_node s.nodes, v.event-node fd f id h, fresh);
    node-event = λ fd f id h.
        v.node-event fd f id (ground (arith, find-assign id this idle_node s.nodes, h));
    counted = omega (arith, v.counted, waiting-assign this idle_node s.nodes, ap weight fresh);
  }

  pub wait_for-Inv :
      (this fd events : ℕ) (s : Executor T)
      → find this s.nodes ≡ some idle_node
      → q.lookup fd (filter_of events) s.interest ≡ none
      → Inv s
      → Inv (wait_for q this fd events s)
  unfolding wait_for
  wait_for-Inv this fd events s idle free v = record {
    distinct = Distinct-assign this (waiting_node fd events) s.nodes v.distinct;
    event-node = λ j g id h. ground (
      arith,
      find-assign id this (waiting_node fd events) s.nodes,
      documented.lookup-add j g fd (filter_of events) this s.interest,
      v.event-node j g id,
      h,
      free,
      idle,
    );
    node-event = λ j g id h. ground (
      arith,
      find-assign id this (waiting_node fd events) s.nodes,
      documented.lookup-add j g fd (filter_of events) this s.interest,
      v.node-event j g id,
      h,
      free,
      idle,
    );
    counted =
        omega
          (arith, v.counted, waiting-assign this (waiting_node fd events) s.nodes, ap weight idle);
  }

  take_over-Inv :
      (this other : ℕ) (fd : ℤ) (events : ℕ) (s : Executor T)
      → find this s.nodes ≡ none
      → find other s.nodes ≡ some (record { fd = fd; events = events })
      → Inv s
      → Inv (take_over q this other (record { fd = fd; events = events }) s)
  unfolding take_over
  take_over-Inv this other (pos fd) events s fresh there v = record {
    distinct =
        Distinct-assign this (waiting_node fd events) m
          (Distinct-assign other idle_node s.nodes v.distinct);
    event-node = λ j g id h. ground (
      arith,
      find-assign id this (waiting_node fd events) m,
      find-assign id other idle_node s.nodes,
      documented.lookup-add j g fd (filter_of events) this
          (q.ev_delete fd (filter_of events) s.interest),
      documented.lookup-delete j g fd (filter_of events) s.interest,
      v.event-node j g id,
      h,
      fresh,
      there,
    );
    node-event = λ j g id h. ground (
      arith,
      find-assign id this (waiting_node fd events) m,
      find-assign id other idle_node s.nodes,
      documented.lookup-add j g fd (filter_of events) this
          (q.ev_delete fd (filter_of events) s.interest),
      documented.lookup-delete j g fd (filter_of events) s.interest,
      v.node-event j g id,
      own,
      h,
      fresh,
      there,
    );
    counted = omega (
      arith,
      v.counted,
      waiting-assign this (waiting_node fd events) m,
      waiting-assign other idle_node s.nodes,
      ap weight there,
      ap weight (absent-other this other (waiting_node fd events) s fresh there),
    );
  }
    where
      m : Map Node
      m = assign other idle_node s.nodes

      own : q.lookup fd (filter_of events) s.interest ≡ some other
      own = v.node-event fd (filter_of events) other (rw there (waits_own fd events))
  take_over-Inv this other (negsuc n) events s fresh there v = record {
    distinct = Distinct-assign this node m (Distinct-assign other idle_node s.nodes v.distinct);
    event-node = λ j g id h. ground (
      arith,
      find-assign id this node m,
      find-assign id other idle_node s.nodes,
      v.event-node j g id h,
      fresh,
      there,
    );
    node-event = λ j g id h. v.node-event j g id (
        ground (
          arith,
          find-assign id this node m,
          find-assign id other idle_node s.nodes,
          h,
          fresh,
          there,
        ));
    counted = omega (
      arith,
      v.counted,
      waiting-assign this node m,
      waiting-assign other idle_node s.nodes,
      ap weight there,
      ap weight (absent-other this other node s fresh there),
    );
  }
    where
      node : Node
      node = record { fd = negsuc n; events = events }

      m : Map Node
      m = assign other idle_node s.nodes

  pub move_construct-Inv :
      (this other : ℕ) (s : Executor T)
      → find this s.nodes ≡ none
      → Inv s
      → Inv (move_construct q this other s)
  unfolding move_construct
  move_construct-Inv this other s fresh v = elim (Option-cases (find other s.nodes)) [
    | inl missing ↦ rw (move_construct, missing) v
    | inr (node, there) ↦
        rw (move_construct, there) (take_over-Inv this other node.fd node.events s fresh there v)
  ]
