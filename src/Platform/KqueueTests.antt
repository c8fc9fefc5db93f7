-- ===== src/Platform/KqueueTests.antt =====
-- The kqueue executor (include/ocvsmd/platform/bsd/kqueue_single_threaded_executor.hpp) on a concrete queue, a list
-- of events, with two callbacks for one descriptor.
use yakut_native.Base.{
  ℕ, ◌%◌, ◌^◌, ◌≡◌, ◌↔◌, refl, List, [], ◌∷◌, true, ◌&&◌, Option, none, some, ◌==◌, if◌then◌else◌,
  find, contains, erase, assign, arith,
}
use yakut_native.Platform.Executor.{Operation, registers, moves, drops, readable, writable}
use yakut_native.Platform.Executor.Counting.{waiting}
use yakut_native.Platform.Kqueue.{
  Kqueue, IsKqueue, filter_of, with_vnode, filter_of_trigger, init, run, waits_for, AllProper,
}
use yakut_native.Platform.Kqueue.Registry.{run-Queues}

abbrev Events : Type 0
Events = List (ℕ × ℕ × ℕ)

look : ℕ → ℕ → Events → Option ℕ
look j g [] = none
look j g ((fd, filter, node) ∷ t) = if fd == j && filter == g then some node else look j g t

delete : ℕ → ℕ → Events → Events
delete j g [] = []
delete j g ((fd, filter, node) ∷ t) =
    if fd == j && filter == g then delete j g t else (fd, filter, node) ∷ delete j g t

look-delete :
    (j g fd filter : ℕ) (t : Events)
    → look j g (delete fd filter t) ≡ (if fd == j && filter == g then none else look j g t)
unfolding look delete
look-delete j g fd filter [] = ground arith
look-delete j g fd filter ((i, f, node) ∷ t) = ground (arith, look-delete j g fd filter t)

abbrev list_kqueue : Kqueue Events
list_kqueue = record {
  created = [];
  ev_add = λ fd filter node t. (fd, filter, node) ∷ delete fd filter t;
  ev_delete = delete;
  lookup = look;
}

list_kqueue-IsKqueue : IsKqueue list_kqueue
unfolding look
list_kqueue-IsKqueue = record {
  lookup-created = λ fd filter. refl;
  lookup-add = λ j g fd filter node t. ground (arith, look-delete j g fd filter t);
  lookup-delete = look-delete;
}

-- Two callbacks for the descriptor 5; the first one is moved from address 1 to 3, and the old object goes.
abbrev operations : List Operation
operations = registers 0 1 (readable 5) ∷ registers 0 2 (writable 5) ∷ moves 3 1 ∷ drops 1 ∷ []

first_at_three : look 5 65535 (run list_kqueue operations (init list_kqueue)).interest ≡ some 3
unfolding run init find erase assign look delete filter_of with_vnode filter_of_trigger
first_at_three = refl

operations-AllProper : AllProper list_kqueue operations (init list_kqueue)
unfolding run init find contains erase assign filter_of with_vnode filter_of_trigger
operations-AllProper =
    ((refl, refl, refl, refl), ((refl, refl, refl, refl), ((refl, refl), (refl, tt))))

run-Queues_example :
    ((fd filter id : ℕ)
      → (look fd filter (run list_kqueue operations (init list_kqueue)).interest ≡ some id) ↔ (
          waits_for fd filter (find id (run list_kqueue operations (init list_kqueue)).nodes)
          ≡ true))
    × ((run list_kqueue operations (init list_kqueue)).total
        ≡ waiting (run list_kqueue operations (init list_kqueue)).nodes % 2 ^ 64)
run-Queues_example = run-Queues list_kqueue list_kqueue-IsKqueue operations operations-AllProper
