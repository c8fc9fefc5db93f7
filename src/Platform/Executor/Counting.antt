-- ===== src/Platform/Executor/Counting.antt =====
-- How many nodes of the epoll executor wait
-- (include/ocvsmd/platform/linux/epoll_single_threaded_executor.hpp), and whether one waits for a descriptor.
use yakut_native.Base.{
  ℕ, ◌+◌, ◌≡◌, refl, ap, ◌∙◌, inl, inr, [], ◌∷◌, Bool, true, false, ◌||◌, Option, none, some, ℤ,
  pos, negsuc, ◌==◌, ==_refl, Bool-cases, Map, find, erase, assign, find-assign, Distinct, arith,
}
use yakut_native.Platform.Executor.{Node, Executor, has_fd, watched}

abbrev pub waiting_node : ℕ → ℕ → Node
waiting_node fd events = record { fd = pos fd; events = events }

abbrev pub idle_node : Node
idle_node = record { fd = negsuc 0; events = 0 }

abbrev pub waits : ℤ → ℕ
waits (pos fd) = 1
waits (negsuc n) = 0

-- The nodes that wait for a descriptor.
abbrev pub waiting : Map Node → ℕ
waiting [] = 0
waiting ((id, node) ∷ nodes) = waits node.fd + waiting nodes

abbrev pub weight : Option Node → ℕ
weight none = 0
weight (some node) = waits node.fd

pub waiting-assign :
    (k : ℕ) (v : Node) (m : Map Node)
    → waiting (assign k v m) + weight (find k m) ≡ waiting m + waits v.fd
unfolding assign find
waiting-assign k v [] = omega arith
waiting-assign k v ((j, w) ∷ m) = ground (arith, waiting-assign k v m)

waiting-absent : (k : ℕ) (m : Map Node) → find k m ≡ none → waiting (erase k m) ≡ waiting m
unfolding erase find
waiting-absent k [] e = refl
waiting-absent k ((j, w) ∷ m) e = ground (arith, waiting-absent k m, e)

pub waiting-erase :
    (k : ℕ) (m : Map Node) → Distinct m → waiting (erase k m) + weight (find k m) ≡ waiting m
unfolding erase find
waiting-erase k [] d = refl
waiting-erase k ((j, w) ∷ m) d = ground (arith, waiting-erase k m d.1, waiting-absent k m, d.0)

pub absent-other :
    {T : Type 0} (this other : ℕ) (node : Node) (s : Executor T)
    → find this s.nodes ≡ none
    → find other s.nodes ≡ some node
    → find this (assign other idle_node s.nodes) ≡ none
absent-other this other node s fresh there =
    ground (arith, find-assign this other idle_node s.nodes, fresh, there)

has_fd_self : (fd : ℕ) (v : ℤ) → v ≡ pos fd → has_fd fd v ≡ true
has_fd_self fd v h = ap (has_fd fd) h ∙ ==_refl fd

or-right : (b : Bool) → b || true ≡ true
or-right true = refl
or-right false = refl

pub watched-find :
    (fd id events : ℕ) (m : Map Node)
    → find id m ≡ some (waiting_node fd events)
    → watched fd m ≡ true
unfolding find
watched-find fd id events [] h = absurd (ground (arith, h))
watched-find fd id events ((j, node) ∷ m) h = elim (Bool-cases (j == id)) [
  | inl same ↦ rw (has_fd_self fd node.fd (held same)) refl
  | inr other ↦ rw (watched-find fd id events m (later other)) (or-right (has_fd fd node.fd))
]
  where
    held : (j == id) ≡ true → node.fd ≡ pos fd
    held same = ground (arith, h, same)

    later : (j == id) ≡ false → find id m ≡ some (waiting_node fd events)
    later other = ground (arith, h, other)
