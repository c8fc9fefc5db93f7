-- ===== src/Daemon/Media/Udp.antt =====
-- `UdpMediaCollection` of src/daemon/engine/platform/udp/udp_media.hpp: the addresses of its media, and the
-- pointers to those in use.
use yakut_native.Base.{
  ℕ, zero, suc, ◌≡◌, refl, sym, ap, ◌∙◌, List, [], ◌∷◌, Bool, true, Option, none, some, ltb,
  if◌then◌else◌, take, length, Text,
}
use mathlib.Core.Path.{subst}
use yakut_native.Daemon.Media.{
  max_media, visit, visit_all, for_each_field, for_each_field-fields, fields, nonempty,
  visit_all-nonempty, visit_all-full,
}

-- media_array_ has three elements; media_ifaces_ has their indices, or null.
pub record UdpMediaCollection : Type 0 where
  pub addresses : List Text
  pub ifaces : List (Option ℕ)

unfoldable pub init : UdpMediaCollection
init = record { addresses = [] ∷ [] ∷ [] ∷ []; ifaces = none ∷ none ∷ none ∷ [] }

-- `media_array_[index].setAddress(iface_address)`.
unfoldable pub set_address : ℕ → Text → List Text → List Text
set_address index address [] = []
set_address zero address (a ∷ others) = address ∷ others
set_address (suc index) address (a ∷ others) = a ∷ set_address index address others

unfoldable pub advance : ℕ → Text → List Text → List Text × Bool
unfolding set_address
advance index address addresses = (set_address index address addresses, true)

abbrev pointer : ℕ → ℕ → Option ℕ
pointer count i = if ltb i count then some i else none

-- The last loop of `parse`.
unfoldable pub pointers : ℕ → List (Option ℕ)
pointers count = pointer count 0 ∷ pointer count 1 ∷ pointer count 2 ∷ []

unfoldable pub parsed : Option (List Text × ℕ) → Option UdpMediaCollection
unfolding pointers
parsed none = none
parsed (some (addresses, count)) = some (record { addresses = addresses; ifaces = pointers count })

unfoldable pub parse : Text → UdpMediaCollection → Option UdpMediaCollection
unfolding parsed advance
parse text m = parsed (for_each_field advance text m.addresses)

unfoldable pub count : List (Option ℕ) → ℕ
count [] = 0
count (none ∷ ifaces) = count ifaces
count (some i ∷ ifaces) = suc (count ifaces)

-- The addresses behind the pointers of `span`.
unfoldable pub at : ℕ → List Text → Text
at i [] = []
at zero (a ∷ others) = a
at (suc i) (a ∷ others) = at i others

unfoldable pub in_use : List (Option ℕ) → List Text → List Text
unfolding at
in_use [] addresses = []
in_use (none ∷ ifaces) addresses = in_use ifaces addresses
in_use (some i ∷ ifaces) addresses = at i addresses ∷ in_use ifaces addresses

-- What the collection uses after a parse that gave this.
abbrev pub Uses : List Text → Option UdpMediaCollection → Type 0
Uses chosen o =
    (m : UdpMediaCollection) × (o ≡ some m)
    × (in_use m.ifaces m.addresses ≡ chosen)
    × (count m.ifaces ≡ length chosen)

abbrev Full : List Text → Type 0
Full [] = Unit
Full ([] ∷ fs) = ⊥
Full ((c ∷ f) ∷ fs) = Full fs

nonempty-Full : (fs : List Text) → Full (nonempty fs)
nonempty-Full [] = tt
nonempty-Full ([] ∷ fs) = nonempty-Full fs
nonempty-Full ((c ∷ f) ∷ fs) = nonempty-Full fs

abbrev pub three : Text → Text → Text → List Text
three a b c = a ∷ b ∷ c ∷ []

chosen-Uses :
    (fs : List Text) (a b c : Text)
    → Full fs
    → Uses (take max_media fs) (parsed (some (visit_all advance fs (three a b c, 0))))
unfolding parsed pointers advance set_address count in_use at visit
chosen-Uses [] a b c h = (record { addresses = three a b c; ifaces = pointers 0 }, refl, refl, refl)
chosen-Uses ((d ∷ f) ∷ []) a b c h =
    (record { addresses = three (d ∷ f) b c; ifaces = pointers 1 }, refl, refl, refl)
chosen-Uses ((d ∷ f) ∷ (e ∷ g) ∷ []) a b c h =
    (record { addresses = three (d ∷ f) (e ∷ g) c; ifaces = pointers 2 }, refl, refl, refl)
chosen-Uses ((d ∷ f) ∷ (e ∷ g) ∷ (i ∷ j) ∷ fs) a b c h = (
  record { addresses = three (d ∷ f) (e ∷ g) (i ∷ j); ifaces = pointers 3 },
  ap (λ s. parsed (some s)) (visit_all-full advance fs (three (d ∷ f) (e ∷ g) (i ∷ j), 3) refl),
  refl,
  refl,
)
chosen-Uses ([] ∷ fs) a b c h = absurd h
chosen-Uses ((d ∷ f) ∷ [] ∷ fs) a b c h = absurd h
chosen-Uses ((d ∷ f) ∷ (e ∷ g) ∷ [] ∷ fs) a b c h = absurd h

-- A parse ends, whatever the text, and the collection then uses the first three texts between commas
-- that are not empty, in their order.
pub parse-Uses :
    (text a b c : Text) (ifaces : List (Option ℕ))
    → Uses
        (take max_media (nonempty (fields text)))
        (parse text (record { addresses = three a b c; ifaces = ifaces }))
unfolding parse
parse-Uses text a b c ifaces =
    subst (Uses (take max_media (nonempty (fields text))))
      (sym (
        ap parsed (
          for_each_field-fields advance text (three a b c)
          ∙ ap some (visit_all-nonempty advance (fields text) (three a b c, 0)))))
      (chosen-Uses (nonempty (fields text)) a b c (nonempty-Full (fields text)))
