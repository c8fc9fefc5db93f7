-- ===== src/Platform/Tests.antt =====
-- The epoll executor (include/ocvsmd/platform/linux/epoll_single_threaded_executor.hpp) on a concrete
-- interest list, an association list, with two callbacks.
use yakut_native.Base.{
  ℕ, ◌%◌, ◌^◌, ◌≡◌, ◌↔◌, refl, List, [], ◌∷◌, some, ℤ, pos, if◌then◌else◌, Map, find, contains,
  erase, assign, find-erase, find-assign, is_some, arith,
}
use yakut_native.Posix.{Outcome, returned}
use yakut_native.Platform.Executor.{
  Entry, Epoll, IsEpoll, Operation, registers, moves, drops, readable, writable, init, run,
  AllProper,
}
use yakut_native.Platform.Executor.Counting.{waiting_node, waiting}
use yakut_native.Platform.Executor.Registry.{run-Watches}
use yakut_native.Platform.Polling.{Sound, epoll_poll, epoll_poll-Sound}

-- Whether there is an entry decides what a call does.
unfoldable add : ℕ → Entry → Map Entry → Map Entry
add fd x t = if is_some (find fd t) then t else assign fd x t

unfoldable modify : ℕ → Entry → Map Entry → Map Entry
modify fd x t = if is_some (find fd t) then assign fd x t else t

abbrev list_epoll : Epoll (Map Entry)
list_epoll = record {
  created = [];
  ctl_add = add;
  ctl_mod = modify;
  ctl_del = erase;
  lookup = find;
}

list_epoll-IsEpoll : IsEpoll list_epoll
unfolding add modify find
list_epoll-IsEpoll = record {
  lookup-created = λ fd. refl;
  lookup-add = λ j fd x t. ground (arith, find-assign j fd x t);
  lookup-mod = λ j fd x t. ground (arith, find-assign j fd x t);
  lookup-del = λ j fd t. find-erase j fd t;
}

-- Two callbacks; the first one is moved from address 1 to 3, and the old object goes.
abbrev operations : List Operation
operations = registers 0 1 (readable 5) ∷ registers 0 2 (writable 6) ∷ moves 3 1 ∷ drops 1 ∷ []

first_at_three :
    find 5 (run list_epoll operations (init list_epoll)).interest
    ≡ some (record { events = 1; node = 3 })
unfolding run init find erase assign add modify
first_at_three = refl

operations-AllProper : AllProper list_epoll operations (init list_epoll)
unfolding run init find contains erase assign
operations-AllProper =
    ((refl, refl, refl, refl), ((refl, refl, refl, refl), ((refl, refl), (refl, tt))))

run-Watches_example :
    ((fd id events : ℕ)
      → (find fd (run list_epoll operations (init list_epoll)).interest
          ≡ some (record { events = events; node = id }))
        ↔ (find id (run list_epoll operations (init list_epoll)).nodes
            ≡ some (waiting_node fd events)))
    × ((run list_epoll operations (init list_epoll)).total
        ≡ waiting (run list_epoll operations (init list_epoll)).nodes % 2 ^ 64)
run-Watches_example = run-Watches list_epoll list_epoll-IsEpoll operations operations-AllProper

-- A poll that reports the descriptor 5, for any timeout.
abbrev ready : ℤ → Outcome (List Entry)
ready t = returned (record { events = 1; node = 3 } ∷ [])

epoll_poll-Sound_example :
    Sound
      (run list_epoll operations (init list_epoll)).nodes
      (epoll_poll (run list_epoll operations (init list_epoll)).total (some (pos 1000000000)) ready)
epoll_poll-Sound_example =
    epoll_poll-Sound list_epoll list_epoll-IsEpoll operations (some (pos 1000000000)) ready
      operations-AllProper (λ t. ((5, first_at_three), tt))
