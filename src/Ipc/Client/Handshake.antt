-- ===== src/Ipc/Client/Handshake.antt =====
-- The connection of the client (`handleRouteConnect` and `handlePipeEvent(Disconnected)` of
-- src/common/ipc/client_router.cpp): what the gateways are told of it.
use mathlib.Core.Path.{subst}
use yakut_native.Base.{
  ℕ, suc, ◌+◌, ◌-◌, ◌<◌, ◌≡◌, refl, sym, ap, ◌∙◌, inl, inr, List, [], ◌∷◌, ◌++◌, true, false,
  Option, none, some, arith, ℤ, pos, Map, find, assign, find-assign, Option-cases, ◌==◌,
  if◌then◌else◌, if_intro, AllValues, append_assoc,
}
use yakut_native.Ipc.Types.{Event, connected}
use yakut_native.Ipc.Client.{
  Gateway, Client, Env, Effect, delivered, lock_all, event_each, release_each,
  for_each_registered_gateway, handle_route_connect,
}
use yakut_native.Ipc.Client.Invariant.{Inv}
use yakut_native.Ipc.Client.Quiet.{IsQuiet, gateway_event_quiet, release_shared, IsLive, all-IsLive}

-- One event to each gateway of a list, latest first.
abbrev pub deliveries : Event → List ℕ → List Effect
deliveries event [] = []
deliveries event (id ∷ rest) = deliveries event rest ++ delivered id event ∷ []

abbrev pub values : Map ℕ → List ℕ
values [] = []
values ((tag, id) ∷ rest) = id ∷ values rest

abbrev occurrences : ℕ → List ℕ → ℕ
occurrences i [] = 0
occurrences i (id ∷ ids) = if id == i then suc (occurrences i ids) else occurrences i ids

-- An object with more references to it.
abbrev lent : ℕ → Option Gateway → Option Gateway
lent n none = none
lent n (some g) = some (record g { refs = g.refs + n })

-- The state with a reference more for each id of a list.
record IsLent (ids : List ℕ) (s t : Client) : Type 0 where
  gateways : t.gateways ≡ s.gateways
  linked : t.linked ≡ s.linked
  objects : (i : ℕ) → find i t.heap ≡ lent (occurrences i ids) (find i s.heap)

-- Each id of a list names a live object.
abbrev AllLive : Map Gateway → List ℕ → Type 0
AllLive heap [] = Unit
AllLive heap (id ∷ ids) = IsLive (find id heap) × AllLive heap ids

AllLive-values :
    (heap : Map Gateway) (m : Map ℕ)
    → AllValues (λ id. IsLive (find id heap)) m
    → AllLive heap (values m)
AllLive-values heap [] live = tt
AllLive-values heap ((tag, id) ∷ rest) live = (live.0, AllLive-values heap rest live.1)

lent_zero : (o : Option Gateway) → o ≡ lent 0 o
lent_zero none = refl
lent_zero (some g) = ground arith

IsLive-lent : (n : ℕ) (o : Option Gateway) → IsLive o → IsLive (lent n o)
IsLive-lent n none live = live
IsLive-lent n (some g) live = omega arith

AllLive-lent :
    (ids ids' : List ℕ) (s t : Client) → IsLent ids' s t → AllLive s.heap ids → AllLive t.heap ids
AllLive-lent [] ids' s t l live = tt
AllLive-lent (id ∷ ids) ids' s t l live = (
  subst IsLive (sym (l.objects id)) (IsLive-lent _ (find id s.heap) live.0),
  AllLive-lent ids ids' s t l live.1,
)

lock_all-IsLent :
    (m : Map ℕ) (s : Client)
    → AllLive s.heap (values m)
    → ((lock_all m s).0 ≡ values m)
      × IsLent (values m) s (lock_all m s).1
      × ((lock_all m s).1.trace ≡ s.trace)
unfolding lock_all
lock_all-IsLent [] s live = (
  refl,
  record { gateways = refl; linked = refl; objects = λ i. lent_zero (find i s.heap) },
  refl,
)
lock_all-IsLent ((tag, id) ∷ rest) s live = elim (Option-cases (find id s.heap)) [
  | inl gone ↦ absurd (rw gone at live.0)
  | inr (g, found) ↦
      let t = record s { heap = assign id (record g { refs = g.refs + 1 }) s.heap } in
      let one = locked_one g found in
      let (ids, l, traced) =
        lock_all-IsLent rest t (AllLive-lent (values rest) (id ∷ []) s t one live.1) in
      rw (found, lock_all)
        (
          ap (◌∷◌ id) ids,
          record {
            gateways = l.gateways;
            linked = l.linked;
            objects = λ i. l.objects i ∙ ground (arith, one.objects i);
          },
          traced,
        )
]
  where
    locked_one :
        (g : Gateway)
        → find id s.heap ≡ some g
        → IsLent (id ∷ []) s (record s { heap = assign id (record g { refs = g.refs + 1 }) s.heap })
    locked_one g found = record {
      gateways = refl;
      linked = refl;
      objects = λ i. ground (
        arith,
        find-assign i id (record g { refs = g.refs + 1 }) s.heap,
        lent_zero (find i s.heap),
      );
    }

-- The vector of locks lets go of what it locked, and of nothing else.
release_each-IsLent :
    (e : Env) (q : IsQuiet e) (ids : List ℕ) (s t : Client)
    → IsLent ids s t
    → AllLive s.heap ids
    → let u = release_each e ids t in
      (u.gateways ≡ s.gateways)
      × (u.linked ≡ s.linked)
      × (u.trace ≡ t.trace)
      × ((i : ℕ) → find i u.heap ≡ find i s.heap)
unfolding release_each
release_each-IsLent e q [] s t l live =
    (l.gateways, l.linked, refl, λ i. l.objects i ∙ sym (lent_zero (find i s.heap)))
release_each-IsLent e q (id ∷ ids) s t l live = elim (Option-cases (find id s.heap)) [
  | inl gone ↦ absurd (rw gone at live.0)
  | inr (g, found) ↦
      let g' : Gateway = record g { refs = g.refs + suc (occurrences id ids) } in
      let here : find id t.heap ≡ some g' = ground (arith, l.objects id) in
      let t' : Client = record t { heap = assign id (record g' { refs = g'.refs - 1 }) t.heap } in
      let fewer : IsLent ids s t' = record {
        gateways = l.gateways;
        linked = l.linked;
        objects = λ i.
            ground (arith, l.objects i, find-assign i id (record g' { refs = g'.refs - 1 }) t.heap);
      } in
      rw (release_shared e q id t g' here (shared g found), release_each)
        (release_each-IsLent e q ids s t' fewer live.1)
]
  where
    shared : (g : Gateway) → find id s.heap ≡ some g → 1 < g.refs + suc (occurrences id ids)
    shared g found = let owned : IsLive (some g) = rw found at live.0 in omega arith

-- Events alone change nothing but the trace.
event_each_quiet :
    (e : Env) (q : IsQuiet e) (event : Event) (ids : List ℕ) (s : Client)
    → AllLive s.heap ids
    → event_each e event ids s ≡ record s { trace = deliveries event ids ++ s.trace }
unfolding event_each
event_each_quiet e q event [] s live = refl
event_each_quiet e q event (id ∷ ids) s live = elim (Option-cases (find id s.heap)) [
  | inl gone ↦ absurd (rw gone at live.0)
  | inr (g, found) ↦
      let t : Client = record s { trace = delivered id event ∷ s.trace } in
      rw (gateway_event_quiet e q id event s g found) (
        event_each_quiet e q event ids t live.1
        ∙ ap (λ (es : List Effect). record s { trace = es })
            (sym (append_assoc (deliveries event ids) (delivered id event ∷ []) s.trace)))
]

module _ (e : Env) (q : IsQuiet e) where
  for_each_quiet :
      (event : Event) (s : Client)
      → AllLive s.heap (values s.gateways)
      → let t = for_each_registered_gateway e event s in
        (t.gateways ≡ s.gateways)
        × (t.linked ≡ s.linked)
        × (t.trace ≡ deliveries event (values s.gateways) ++ s.trace)
        × ((i : ℕ) → find i t.heap ≡ find i s.heap)
  unfolding for_each_registered_gateway
  for_each_quiet event s live =
      let (ids, l, traced) = lock_all-IsLent s.gateways s live in
      let u : Client = (lock_all s.gateways s).1 in
      let live' = AllLive-lent (values s.gateways) (values s.gateways) s u l live in
      let told : Client = record u { trace = deliveries event (values s.gateways) ++ u.trace } in
      let l' : IsLent (values s.gateways) s told = record {
        gateways = l.gateways;
        linked = l.linked;
        objects = l.objects;
      } in
      let (gateways, linked, trace, objects) =
        release_each-IsLent e q (values s.gateways) s told l' live in
      rw (ids, for_each_registered_gateway)
        (rw (event_each_quiet e q event (values s.gateways) u live') (
          gateways,
          linked,
          trace ∙ ap (◌++◌ (deliveries event (values s.gateways))) traced,
          objects,
        ))

  -- The server's first answer links the client, and tells each registered gateway so in one event, with
  -- no other effect; any further answer changes nothing.
  pub handle_route_connect_once :
      (s : Client)
      → Inv s
      → s.linked ≡ false
      → let t = (handle_route_connect e s).0 in
        (t.linked ≡ true)
        × (t.gateways ≡ s.gateways)
        × (t.trace ≡ deliveries connected (values s.gateways) ++ s.trace)
        × ((i : ℕ) → find i t.heap ≡ find i s.heap)
        × (handle_route_connect e t ≡ (t, pos 0))
  handle_route_connect_once s v away = rw first (told.1, told.0, told.2, told.3, again)
    where
      t : Client
      t = for_each_registered_gateway e connected (record s { linked = true })

      first : handle_route_connect e s ≡ (t, pos 0)
      first =
          unfold handle_route_connect in
          if_intro (λ (r : Client × ℤ). r ≡ (t, pos 0)) s.linked _ _ (λ on. cc) (λ _. refl)

      told :
          (t.gateways ≡ s.gateways)
          × (t.linked ≡ true)
          × (t.trace ≡ deliveries connected (values s.gateways) ++ s.trace)
          × ((i : ℕ) → find i t.heap ≡ find i s.heap)
      told =
          for_each_quiet connected (record s { linked = true })
            (AllLive-values s.heap s.gateways (all-IsLive s v))

      again : handle_route_connect e t ≡ (t, pos 0)
      again =
          unfold handle_route_connect in
          if_intro (λ (r : Client × ℤ). r ≡ (t, pos 0)) t.linked _ _ (λ _. refl) (λ off. cc told.1)
