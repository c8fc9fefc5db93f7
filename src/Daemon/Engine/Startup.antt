-- ===== src/Daemon/Engine/Startup.antt =====
-- The identifier of the node over restarts of the daemon (src/daemon/engine/engine.cpp).
use yakut_native.Base.{
  append-nil, ℕ, ◌≡◌, refl, ap, ◌∙◌, List, [], ◌∷◌, ◌++◌, Bool, true, false, Option, none, some,
  inl, inr, arith, Text, Option-cases, ◌⊎◌,
}
use yakut_native.Io.SocketAddress.{ParseResult, success, failure, parse}
use yakut_native.Daemon.Config.{
  Config, Root, UniqueId, Writing, written, make, save, write, get_cyphal_app_unique_id,
  set_cyphal_app_unique_id, get_cyphal_app_node_id, get_cyphal_transport_interfaces,
  get_ipc_connections,
}
use yakut_native.Daemon.Engine.{
  Environment, Step, chooses_transport, sets_local_node_id, makes_presentation, makes_node,
  populates_info, makes_pipe, registers_services, starts_router, InitOutcome, get_unique_id,
  choose_transport, node_id_steps, start_router, with_address, with_connections, with_node,
  with_transport, init,
}

get_unique_id-known :
    (random : UniqueId) (now : ℕ) (writing : Writing) (c : Config) (id : UniqueId)
    → c.root.unique_id ≡ some id
    → get_unique_id random now writing c ≡ (id, c)
unfolding get_unique_id get_cyphal_app_unique_id
get_unique_id-known random now writing c id known = rw known refl

-- The identifier is in the file.
get_unique_id-saved :
    (random : UniqueId) (now : ℕ) (writing : Writing) (root : Root)
    → writing ≡ written
    → let (id, c) = get_unique_id random now writing (make root) in c.file.unique_id ≡ some id
unfolding make
get_unique_id-saved random now writing root writes = elim (Option-cases root.unique_id) [
  | inl missing ↦
      unfold get_unique_id get_cyphal_app_unique_id set_cyphal_app_unique_id save write in
      rw missing (rw writes refl)
  | inr (id, known) ↦ rw (get_unique_id-known random now writing (make root) id known) known
]

module _ {T : Type 0} where
  -- The identifiers that the node was given.
  unfoldable pub identities : List (Step T) → List UniqueId
  identities [] = []
  identities (populates_info id ∷ steps) = id ∷ identities steps
  identities (chooses_transport transport ∷ steps) = identities steps
  identities (sets_local_node_id id ∷ steps) = identities steps
  identities (makes_presentation ∷ steps) = identities steps
  identities (makes_node ∷ steps) = identities steps
  identities (makes_pipe address ∷ steps) = identities steps
  identities (registers_services ∷ steps) = identities steps
  identities (starts_router ∷ steps) = identities steps

  identities-append : (a b : List (Step T)) → identities (a ++ b) ≡ identities a ++ identities b
  unfolding identities
  identities-append [] b = refl
  identities-append (populates_info id ∷ a) b = ap (◌∷◌ id) (identities-append a b)
  identities-append (chooses_transport transport ∷ a) b = identities-append a b
  identities-append (sets_local_node_id id ∷ a) b = identities-append a b
  identities-append (makes_presentation ∷ a) b = identities-append a b
  identities-append (makes_node ∷ a) b = identities-append a b
  identities-append (makes_pipe address ∷ a) b = identities-append a b
  identities-append (registers_services ∷ a) b = identities-append a b
  identities-append (starts_router ∷ a) b = identities-append a b

  node_id_steps-identities :
      (e : Environment T) (id : Option ℕ) → identities (node_id_steps e id) ≡ []
  unfolding identities node_id_steps
  node_id_steps-identities e none = refl
  node_id_steps-identities e (some id) = refl

  -- An outcome that adds no identifier to those of the steps, and keeps the configuration.
  abbrev Adds : List (Step T) → Config → InitOutcome T → Type 0
  Adds steps c o = (identities o.steps ≡ identities steps) × (o.config ≡ c)

  with_address-Adds :
      (e : Environment T) (steps : List (Step T)) (c : Config) (address : ParseResult)
      → Adds steps c (with_address e steps c address)
  unfolding with_address start_router identities
  with_address-Adds e steps c (failure err) = (refl, refl)
  with_address-Adds e steps c (success address) = (
    identities-append (steps ++ makes_pipe address ∷ []) (registers_services ∷ starts_router ∷ [])
        ∙ append-nil _
        ∙ identities-append steps (makes_pipe address ∷ [])
        ∙ append-nil _,
    refl,
  )

  with_connections-Adds :
      (e : Environment T) (steps : List (Step T)) (c : Config) (connections : List Text)
      → Adds steps c (with_connections e steps c connections)
  unfolding with_connections
  with_connections-Adds e steps c [] = (refl, refl)
  with_connections-Adds e steps c (connection ∷ others) =
      with_address-Adds e steps c (parse e.libc connection 0)

  -- A start either gives the node no identifier and keeps the configuration, or gives it the one of
  -- `getUniqueId`, with the configuration that this leaves.
  Starts : Environment T → Config → InitOutcome T → Type 0
  Starts e c o =
      let (id, c') = get_unique_id e.random e.now e.writing c in
      ((identities o.steps ≡ []) × (o.config ≡ c))
      ⊎ ((identities o.steps ≡ id ∷ []) × (o.config ≡ c'))

  with_node-Starts :
      (e : Environment T) (steps : List (Step T)) (c : Config) (made : Bool)
      → identities steps ≡ []
      → Starts e c (with_node e steps c made)
  unfolding Starts with_node identities
  with_node-Starts e steps c false none_yet = inl (none_yet, refl)
  with_node-Starts e steps c true none_yet =
      let id = get_unique_id e.random e.now e.writing c in
      let a =
        with_connections-Adds e (steps ++ makes_node ∷ populates_info id.0 ∷ []) id.1
          (get_ipc_connections id.1) in
      inr (
        a.0
            ∙ identities-append steps (makes_node ∷ populates_info id.0 ∷ [])
            ∙ ap (λ (ids : List UniqueId). ids ++ id.0 ∷ []) none_yet,
        a.1,
      )

  init-Starts : (e : Environment T) (c : Config) → Starts e c (init e c)
  unfolding Starts init with_transport identities
  init-Starts e c = elim (Option-cases (choose_transport e (get_cyphal_transport_interfaces c))) [
    | inl missing ↦ rw missing (inl (refl, refl))
    | inr (transport, chosen) ↦ rw chosen (
        with_node-Starts e
          (chooses_transport transport ∷ node_id_steps e (get_cyphal_app_node_id c)
            ++ makes_presentation ∷ [])
          c e.makes_node
          (identities-append (node_id_steps e (get_cyphal_app_node_id c)) (makes_presentation ∷ [])
            ∙ append-nil _
            ∙ node_id_steps-identities e (get_cyphal_app_node_id c)))
  ]

  -- Once the configuration has an identifier, a start keeps the configuration.
  init-known :
      (e : Environment T) (c : Config) (id : UniqueId)
      → c.root.unique_id ≡ some id
      → ((init e c).config ≡ c)
        × ((identities (init e c).steps ≡ []) ⊎ (identities (init e c).steps ≡ id ∷ []))
  unfolding Starts get_unique_id get_cyphal_app_unique_id
  init-known e c id known = elim (init-Starts e c) [
    | inl (idle, kept) ↦ (kept, inl idle)
    | inr (given, left) ↦
        let same = get_unique_id-known e.random e.now e.writing c id known in
        (
          left ∙ ap (λ (g : UniqueId × Config). g.1) same,
          inr (given ∙ ap (λ (g : UniqueId × Config). g.0 ∷ []) same),
        )
  ]

  -- What the file of the configuration has after one start after another, each of which reads it.
  unfoldable pub file_after : List (Environment T) → Root → Root
  file_after [] file = file
  file_after (e ∷ es) file = file_after es (init e (make file)).config.file

  file_after-known :
      (es : List (Environment T)) (file : Root) (id : UniqueId)
      → file.unique_id ≡ some id
      → (file_after es file).unique_id ≡ some id
  unfolding file_after make
  file_after-known [] file id known = known
  file_after-known (e ∷ es) file id known =
      file_after-known es (init e (make file)).config.file id
        (ap (λ (c : Config). c.file.unique_id) (init-known e (make file) id known).0 ∙ known)

  -- The node keeps its unique identifier over restarts. When a start of the engine gave the node an
  -- identifier, the configured one or a random one, and a save of the configuration is written, then after
  -- any further starts from the saved file, with any outcomes and any other random values, a start that gives
  -- the node an identifier gives it the same one.
  pub init-keeps_identity :
      (e : Environment T) (root : Root) (es : List (Environment T)) (e' : Environment T)
      (id : UniqueId)
      → e.writing ≡ written
      → identities (init e (make root)).steps ≡ id ∷ []
      → let again = init e' (make (file_after es (init e (make root)).config.file)) in
        (identities again.steps ≡ []) ⊎ (identities again.steps ≡ id ∷ [])
  unfolding Starts
  init-keeps_identity e root es e' id writes first =
      (init-known e' (make (file_after es file)) id
        (unfold make in file_after-known es file id saved)).1
    where
      file : Root
      file = (init e (make root)).config.file

      saved : file.unique_id ≡ some id
      saved = elim (init-Starts e (make root)) [
        | inl (idle, kept) ↦ absurd (ground (arith, first, idle))
        | inr (given, left) ↦
            ap (λ (c : Config). c.file.unique_id) left
            ∙ get_unique_id-saved e.random e.now e.writing root writes
            ∙ ground (arith, given, first)
      ]
