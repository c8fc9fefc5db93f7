-- ===== src/Daemon/Transport.antt =====
-- `CanTransportBag::make` and `UdpTransportBag::make` of src/daemon/engine/cyphal/can_transport_bag.hpp and
-- src/daemon/engine/cyphal/udp_transport_bag.hpp: the transport over the interfaces that the configuration
-- names.
--
-- `make_transport` is libcyphal's `makeTransport` of the media, `none` for a failure.
pub mod CanSockets
use yakut_native.Base.{
  ℕ, suc, ◌+◌, ◌≡◌, refl, sym, ap, ◌∙◌, inl, inr, List, [], ◌∷◌, ◌++◌, append_assoc, Bool, true,
  false, Option, none, some, ◌==◌, if◌then◌else◌, Bool-cases, Option-cases, length, take, drop,
  Text, codes, starts_with, ==_ne, ==_refl, arith,
}
use mathlib.Core.Path.{subst}
use yakut_native.Posix.{Outcome}
use yakut_native.Daemon.Media.{max_media, cons_first, fields, nonempty}
use yakut_native.Daemon.Media.Can.{CanMedia, Sockets}
use yakut_native.Daemon.Media.Can
use yakut_native.Daemon.Media.Udp.{UdpMediaCollection, in_use, count, Uses, three, parse-Uses}
use yakut_native.Daemon.Media.Udp

abbrev pub can_prefix : Text
can_prefix = codes "socketcan:"

abbrev pub udp_prefix : Text
udp_prefix = codes "udp://"

-- The loop that joins the interfaces with this prefix, each with a comma after it.
unfoldable pub join_ifaces : Text → List Text → Text
join_ifaces prefix [] = []
join_ifaces prefix (iface ∷ ifaces) =
    let rest = join_ifaces prefix ifaces in
    if starts_with prefix iface then drop (length prefix) iface ++ b',' ∷ rest else rest

-- The bag, if its transport was made.
unfoldable pub with_transport : {T A : Type 0} → A → Option T → Option (T × A)
with_transport media none = none
with_transport media (some transport) = some (transport, media)

module _ {T : Type 0} where
  -- A bag has a transport and its media; `none` inside is the null pointer, outside it says that the
  -- media were not parsed.
  unfoldable pub udp_bag :
      (List Text → Option T) → UdpMediaCollection → Option (T × UdpMediaCollection)
  unfolding with_transport
  udp_bag make_transport m =
      if count m.ifaces == 0
      then none
      else with_transport m (make_transport (in_use m.ifaces m.addresses))

  unfoldable pub udp_made :
      (List Text → Option T) → Option UdpMediaCollection → Option (Option (T × UdpMediaCollection))
  unfolding udp_bag
  udp_made make_transport none = none
  udp_made make_transport (some m) = some (udp_bag make_transport m)

  unfoldable pub udp_make :
      (List Text → Option T) → List Text → Option (Option (T × UdpMediaCollection))
  unfolding udp_made join_ifaces
  udp_make make_transport ifaces =
      udp_made make_transport (Udp.parse (join_ifaces udp_prefix ifaces) Udp.init)

  -- Without a transport, the bag goes, and its media with it.
  unfoldable pub can_result :
      List CanMedia → Sockets → Option T → Option (T × List CanMedia) × Sockets
  can_result media w none = (none, Can.reset media w)
  can_result media w (some transport) = (some (transport, media), w)

  unfoldable pub can_bag :
      (List CanMedia → Option T)
      → (List CanMedia × Sockets) × ℕ
      → Option (T × List CanMedia) × Sockets
  unfolding can_result
  can_bag make_transport ((media, w), index) =
      if index == 0 then (none, Can.reset media w) else can_result media w (make_transport media)

  unfoldable pub can_made :
      (List CanMedia → Option T)
      → Option ((List CanMedia × Sockets) × ℕ)
      → Option (Option (T × List CanMedia) × Sockets)
  unfolding can_bag
  can_made make_transport none = none
  can_made make_transport (some r) = some (can_bag make_transport r)

  unfoldable pub can_make :
      (List CanMedia → Option T)
      → (ℕ → Text → Outcome ℕ)
      → List Text
      → Sockets
      → Option (Option (T × List CanMedia) × Sockets)
  unfolding can_made join_ifaces
  can_make make_transport opens ifaces w =
      can_made make_transport (Can.parse opens (join_ifaces can_prefix ifaces) [] w)

-- The interfaces with a prefix, less the prefix, each cut at its commas.
abbrev pub named : Text → List Text → List Text
named prefix [] = []
named prefix (iface ∷ ifaces) =
    if starts_with prefix iface
    then nonempty (fields (drop (length prefix) iface)) ++ named prefix ifaces
    else named prefix ifaces

cons_first-append :
    (c : ℕ) (fs gs : List Text)
    → (f : Text) × (rest : List Text) × (fs ≡ f ∷ rest)
    → cons_first c (fs ++ gs) ≡ cons_first c fs ++ gs
cons_first-append c fs gs (f, rest, e) =
    subst (λ hs. cons_first c (hs ++ gs) ≡ cons_first c hs ++ gs) (sym e) refl

-- There is a first field, which goes on with what stands before it.
fields-some : (s : Text) → (f : Text) × (fs : List Text) × (fields s ≡ f ∷ fs)
fields-some [] = ([], [], refl)
fields-some (c ∷ s) = elim (Bool-cases (c == b',')) [
  | inl comma ↦ rw comma ([], fields s, refl)
  | inr other ↦
      rw other (c ∷ (fields-some s).0, (fields-some s).1, ap (cons_first c) (fields-some s).2)
]

fields-append : (a b : Text) → fields (a ++ b',' ∷ b) ≡ fields a ++ fields b
fields-append [] b = refl
fields-append (c ∷ a) b = elim (Bool-cases (c == b',')) [
  | inl comma ↦ rw comma (ap (◌∷◌ []) (fields-append a b))
  | inr other ↦ rw other (
      ap (cons_first c) (fields-append a b)
      ∙ cons_first-append c (fields a) (fields b) (fields-some a))
]

nonempty-append : (fs gs : List Text) → nonempty (fs ++ gs) ≡ nonempty fs ++ nonempty gs
nonempty-append [] gs = refl
nonempty-append ([] ∷ fs) gs = nonempty-append fs gs
nonempty-append ((c ∷ f) ∷ fs) gs = ap (◌∷◌ (c ∷ f)) (nonempty-append fs gs)

join_ifaces-named :
    (prefix : Text) (ifaces : List Text)
    → nonempty (fields (join_ifaces prefix ifaces)) ≡ named prefix ifaces
unfolding join_ifaces
join_ifaces-named prefix [] = refl
join_ifaces-named prefix (iface ∷ ifaces) = elim (Bool-cases (starts_with prefix iface)) [
  | inr other ↦ rw other (join_ifaces-named prefix ifaces)
  | inl this ↦ rw this (
      ap nonempty (fields-append (drop (length prefix) iface) (join_ifaces prefix ifaces))
      ∙ nonempty-append (fields (drop (length prefix) iface)) (fields (join_ifaces prefix ifaces))
      ∙ ap (λ gs. nonempty (fields (drop (length prefix) iface)) ++ gs)
          (join_ifaces-named prefix ifaces))
]

-- What a bag should be: no bag without an interface, else the transport over them, if it can be made.
abbrev pub expected : {T : Type 0} → (List Text → Option T) → List Text → Option T
expected make_transport [] = none
expected make_transport (f ∷ fs) = make_transport (f ∷ fs)

abbrev pub transport_of : {T A : Type 0} → Option (T × A) → Option T
transport_of none = none
transport_of (some (transport, m)) = some transport

transport_of-with_transport :
    {T A : Type 0} (media : A) (o : Option T) → transport_of (with_transport media o) ≡ o
unfolding with_transport
transport_of-with_transport media none = refl
transport_of-with_transport media (some transport) = refl

module _ {T : Type 0} (make_transport : List Text → Option T) where
  abbrev chosen_bag : Bool → UdpMediaCollection → Option T
  chosen_bag b m =
      transport_of
        (if b then none else with_transport m (make_transport (in_use m.ifaces m.addresses)))

  udp_bag-expected :
      (m : UdpMediaCollection) (chosen : List Text)
      → in_use m.ifaces m.addresses ≡ chosen
      → count m.ifaces ≡ length chosen
      → transport_of (udp_bag make_transport m) ≡ expected make_transport chosen
  unfolding udp_bag
  udp_bag-expected m [] e c = ap (λ b. chosen_bag b m) {y = true} (ground (arith, c))
  udp_bag-expected m (f ∷ fs) e c =
      ap (λ b. chosen_bag b m) (positive (length fs) c)
      ∙ transport_of-with_transport m (make_transport (in_use m.ifaces m.addresses))
      ∙ ap make_transport e
    where
      positive : (k : ℕ) → count m.ifaces ≡ suc k → (count m.ifaces == 0) ≡ false
      positive k h = ==_ne (count m.ifaces) 0 (λ z. omega (arith, z, h))

  -- Of the interfaces that are configured, those that start with "udp://", cut at their commas, name the
  -- media: the transport is made over the first three that are not empty, in their order, and there
  -- is no bag if there is none, or if the transport is not made.
  pub udp_make-expected :
      (ifaces : List Text)
      → (bag : Option (T × UdpMediaCollection)) × (udp_make make_transport ifaces ≡ some bag)
        × (transport_of bag ≡ expected make_transport (take max_media (named udp_prefix ifaces)))
  unfolding udp_make udp_made Udp.init
  udp_make-expected ifaces =
      go (parse-Uses (join_ifaces udp_prefix ifaces) [] [] [] (none ∷ none ∷ none ∷ []))
    where
      go :
          Uses
            (take max_media (nonempty (fields (join_ifaces udp_prefix ifaces))))
            (Udp.parse (join_ifaces udp_prefix ifaces) Udp.init)
          → (bag : Option (T × UdpMediaCollection)) × (udp_make make_transport ifaces ≡ some bag)
            × (transport_of bag
                ≡ expected make_transport (take max_media (named udp_prefix ifaces)))
      go (m, parsed, uses, counted) = (
        udp_bag make_transport m,
        ap (udp_made make_transport) parsed,
        udp_bag-expected m _ uses counted
            ∙ ap (λ fs. expected make_transport (take max_media fs))
                (join_ifaces-named udp_prefix ifaces),
      )
