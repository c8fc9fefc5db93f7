-- ===== src/Ipc/Client/Invariant.antt =====
-- What holds of the client router's weak pointers and tags (src/common/ipc/client_router.cpp) between
-- any two of its operations.
use yakut_native.Base.{
  ℕ, ◌+◌, ◌<◌, ◌≡◌, refl, inl, inr, Bool, true, false, ◌&&◌, Option, none, some, arith, ℤ, find,
  erase, assign, find-erase, find-assign, ltb, leb, ◌==◌, Option-cases, Bool-cases, Distinct,
  Distinct-erase, Distinct-assign,
}
use yakut_native.Ipc.Types.{u64}
use yakut_native.Ipc.Client.{
  Gateway, Client, Env, lock, release, on_gateway_disposal, make_gateway, new_gateway,
}

abbrev pub has_tag : Option Gateway → ℕ → Bool
has_tag none tag = false
has_tag (some g) tag = g.tag == tag

-- An object is older than the next one, has an owner, and its tag counts the gateways made before.
abbrev pub is_owned : ℕ → ℕ → Option Gateway → Bool
is_owned next id none = true
is_owned next id (some g) = ltb id next && (ltb 0 g.refs && g.tag == u64 id)

pub record Inv (s : Client) : Type 0 where
  pub distinct : Distinct s.gateways
  -- No weak pointer dangles, and each stands under the tag of its gateway.
  pub alive : (tag id : ℕ) → find tag s.gateways ≡ some id → has_tag (find id s.heap) tag ≡ true
  pub owned : (id : ℕ) → is_owned s.next_gateway id (find id s.heap) ≡ true
  pub counted : s.next_tag ≡ u64 s.next_gateway

-- Registrations that only go away.
pub fewer-Inv :
    (s t : Client)
    → t.heap ≡ s.heap
    → t.next_gateway ≡ s.next_gateway
    → t.next_tag ≡ s.next_tag
    → ((tag id : ℕ) → find tag t.gateways ≡ some id → find tag s.gateways ≡ some id)
    → Distinct t.gateways
    → Inv s
    → Inv t
fewer-Inv s t same next tags fewer distinct v = record {
  distinct = distinct;
  alive = λ tag id h. rw same (v.alive tag id (fewer tag id h));
  owned = λ id. rw (same, next) (v.owned id);
  counted = rw (next, tags) v.counted;
}

pub same-Inv :
    (s t : Client)
    → t.heap ≡ s.heap
    → t.next_gateway ≡ s.next_gateway
    → t.next_tag ≡ s.next_tag
    → t.gateways ≡ s.gateways
    → Inv s
    → Inv t
same-Inv s t same next tags gateways v =
    fewer-Inv s t same next tags (λ tag id h. rw gateways at h) (rw gateways v.distinct) v

pub update-Inv :
    (s : Client) (id : ℕ) (g g' : Gateway)
    → find id s.heap ≡ some g
    → g'.tag ≡ g.tag
    → 0 < g'.refs
    → Inv s
    → Inv (record s { heap = assign id g' s.heap })
update-Inv s id g g' e ht hr v = record {
  distinct = v.distinct;
  alive = λ tag i h. ground (arith, find-assign i id g' s.heap, v.alive tag i h);
  owned = λ i. ground (arith, find-assign i id g' s.heap, v.owned i, v.owned id);
  counted = v.counted;
}

pub make_gateway-Inv : (s : Client) → Inv s → Inv (make_gateway s)
unfolding make_gateway new_gateway
make_gateway-Inv s v = record {
  distinct = Distinct-assign s.next_tag s.next_gateway s.gateways v.distinct;
  alive = λ tag i h. ground (
    arith,
    find-assign tag s.next_tag s.next_gateway s.gateways,
    find-assign i s.next_gateway (new_gateway s.next_tag) s.heap,
    v.alive tag i,
    v.owned i,
  );
  owned = λ i.
      ground
        (arith, find-assign i s.next_gateway (new_gateway s.next_tag) s.heap, v.owned i, v.counted);
  counted = omega (arith, v.counted);
}

disposal_frame :
    (e : Env) (tag : ℕ) (used : Bool) (err : ℤ) (s : Client)
    → let t = on_gateway_disposal e tag used err s in
      (t.heap ≡ s.heap)
      × (t.next_gateway ≡ s.next_gateway)
      × (t.next_tag ≡ s.next_tag)
      × (t.gateways ≡ erase tag s.gateways)
unfolding on_gateway_disposal
disposal_frame e tag used err s = (ground arith, ground arith, ground arith, ground arith)

pub lock-Inv : (id : ℕ) (s t : Client) → lock id s ≡ some t → Inv s → Inv t
unfolding lock
lock-Inv id s t h v = elim (Option-cases (find id s.heap)) [
  | inl e ↦ ground arith
  | inr (g, e) ↦ rw (← some_eq g e) (update-Inv s id g _ e refl (ground arith) v)
]
  where
    some_eq :
        (g : Gateway)
        → find id s.heap ≡ some g
        → record s { heap = assign id (record g { refs = g.refs + 1 }) s.heap } ≡ t
    some_eq g e = ground arith

pub release-Inv : (e : Env) (id : ℕ) (s : Client) → Inv s → Inv (release e id s)
unfolding release
release-Inv e id s v = elim (Option-cases (find id s.heap)) [
  | inl gone ↦ rw (gone, release) v
  | inr (g, found) ↦
      rw (found, release)
        (elim (Bool-cases (leb g.refs 1)) [
          | inl last ↦ rw last (disposed g found)
          | inr kept ↦ rw kept (update-Inv s id g _ found refl (ground arith) v)
        ])
]
  where
    disposed :
        (g : Gateway)
        → find id s.heap ≡ some g
        → Inv (
            on_gateway_disposal e g.tag
              (ltb 0 g.next_sequence)
              g.completion_error_code
              (record s { heap = erase id s.heap }))
    disposed g found =
        let f =
          disposal_frame e g.tag (ltb 0 g.next_sequence) g.completion_error_code
            (record s { heap = erase id s.heap }) in
        record {
          distinct = rw f.3 (Distinct-erase g.tag s.gateways v.distinct);
          alive = λ tag i h. rw f.0 (
              ground (
                arith,
                rw f.3 at h,
                find-erase tag g.tag s.gateways,
                find-erase i id s.heap,
                v.alive tag i,
              ));
          owned = λ i. rw (f.0, f.1) (ground (arith, find-erase i id s.heap, v.owned i));
          counted = rw (f.1, f.2) v.counted;
        }
