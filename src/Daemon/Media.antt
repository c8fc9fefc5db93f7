-- ===== src/Daemon/Media.antt =====
-- The lists of interfaces that `CanMediaCollection::parse` and `UdpMediaCollection::parse` read
-- (src/daemon/engine/platform/can/can_media.hpp, src/daemon/engine/platform/udp/udp_media.hpp): both have the
-- same loop over the places of the commas.
--
-- The loop is recursion on fuel; `walk-fields` shows that the text's length and two are enough.
pub mod Can
pub mod Udp
pub mod UdpSockets
use yakut_native.Base.{
  ℕ, zero, suc, ◌+◌, ◌-◌, ◌≤◌, ◌<◌, ◌≡◌, refl, sym, ap, ◌∙◌, inl, inr, List, [], ◌∷◌, ◌++◌, Bool,
  true, false, Option, none, some, leb, ◌==◌, ==_refl, ==_ne, if◌then◌else◌, Bool-cases, length,
  take, drop, drop-append, take-append, length-append, arith, Text, find_first, Lacks,
  find_first-append, find_first-cases,
}
use mathlib.Core.Path.{subst}

-- MaxCanMedia and MaxUdpMedia.
abbrev pub max_media : ℕ
max_media = 3

-- `curr` after a comma was found, or not: std::max(next + 1, next).
unfoldable pub next_curr : ℕ → Option ℕ → Option ℕ
next_curr curr none = none
next_curr curr (some offset) = some (curr + offset + 1)

-- `substr(curr, next - curr)`.
unfoldable pub field : Text → Option ℕ → Text
field rest none = rest
field rest (some offset) = take offset rest

-- What a pass of the loop does with a field that is not empty: `act` has the index, and says whether
-- the index is advanced.
unfoldable pub visit : {W : Type 0} → (ℕ → Text → W → W × Bool) → Text → W × ℕ → W × ℕ
visit act [] (w, index) = (w, index)
visit act (c ∷ address) (w, index) =
    ((act index (c ∷ address) w).0, if (act index (c ∷ address) w).1 then index + 1 else index)

unfoldable pub walk :
    {W : Type 0} → (ℕ → Text → W → W × Bool) → ℕ → Text → Option ℕ → W × ℕ → Option (W × ℕ)
unfolding visit next_curr field
walk act zero text curr s = none
walk act (suc fuel) text none s = some s
walk act (suc fuel) text (some curr) s =
    let found = find_first b',' (drop curr text) in
    let more =
      walk act fuel text (next_curr curr found) (visit act (field (drop curr text) found) s) in
    if leb max_media s.1 then some s else more

-- The loop with enough fuel.
unfoldable pub for_each_field : {W : Type 0} → (ℕ → Text → W → W × Bool) → Text → W → Option (W × ℕ)
unfolding walk
for_each_field act text w = walk act (length text + 2) text (some 0) (w, 0)

-- The texts between commas.
abbrev pub cons_first : ℕ → List Text → List Text
cons_first c [] = (c ∷ []) ∷ []
cons_first c (f ∷ fs) = (c ∷ f) ∷ fs

abbrev pub fields : Text → List Text
fields [] = [] ∷ []
fields (c ∷ s) = if c == b',' then [] ∷ fields s else cons_first c (fields s)

-- A loop over them, as long as there is room.
abbrev pub visit_all : {W : Type 0} → (ℕ → Text → W → W × Bool) → List Text → W × ℕ → W × ℕ
visit_all act [] s = s
visit_all act (f ∷ fs) s = if leb max_media s.1 then s else visit_all act fs (visit act f s)

fields-Lacks : (s : Text) → Lacks b',' s → fields s ≡ s ∷ []
fields-Lacks [] l = refl
fields-Lacks (c ∷ s) l = rw (==_ne c b',' l.0, fields-Lacks s l.1) refl

fields-comma : (a b : Text) → Lacks b',' a → fields (a ++ b',' ∷ b) ≡ a ∷ fields b
fields-comma [] b l = refl
fields-comma (c ∷ a) b l = rw (==_ne c b',' l.0, fields-comma a b l.1) refl

drop-nil : (n : ℕ) → drop {A = ℕ} n [] ≡ []
drop-nil zero = refl
drop-nil (suc n) = refl

drop-drop : (m n : ℕ) (s : Text) → drop n (drop m s) ≡ drop (m + n) s
drop-drop zero n s = subst (λ k. drop n s ≡ drop k s) {x = n} (omega arith) refl
drop-drop (suc m) n [] = drop-nil n ∙ sym (drop-nil (suc m + n))
drop-drop (suc m) n (c ∷ s) =
    subst (λ k. drop n (drop m s) ≡ drop k (c ∷ s)) {x = suc (m + n)} (omega arith)
      (drop-drop m n s)

-- What stands after a comma.
after-comma :
    (text a b : Text) (curr : ℕ)
    → drop curr text ≡ a ++ b',' ∷ b
    → drop (curr + length a + 1) text ≡ b
after-comma text a b curr e =
    subst (λ k. drop k text ≡ b) {x = curr + suc (length a)} (omega arith)
      (sym (drop-drop curr (suc (length a)) text) ∙ ap (drop (suc (length a))) e ∙ skip a)
  where
    skip : (p : Text) → drop (suc (length p)) (p ++ b',' ∷ b) ≡ b
    skip [] = refl
    skip (c ∷ p) = skip p

-- The next pass, by what a search for a comma finds.
abbrev step :
    {W : Type 0} → (ℕ → Text → W → W × Bool) → ℕ → Text → ℕ → W × ℕ → Option ℕ → Option (W × ℕ)
step act fuel text curr s found =
    if leb max_media s.1
    then some s
    else walk act fuel text (next_curr curr found) (visit act (field (drop curr text) found) s)

module _ {W : Type 0} (act : ℕ → Text → W → W × Bool) where
  walk-step :
      (fuel : ℕ) (text : Text) (curr : ℕ) (s : W × ℕ)
      → walk act (suc fuel) text (some curr) s
        ≡ step act fuel text curr s (find_first b',' (drop curr text))
  unfolding walk
  walk-step fuel text curr s = refl

  last-step :
      (fuel : ℕ) (text : Text) (curr : ℕ) (s : W × ℕ)
      → step act (suc fuel) text curr s none ≡ some (visit_all act (drop curr text ∷ []) s)
  unfolding walk next_curr field
  last-step fuel text curr s = elim (Bool-cases (leb max_media s.1)) [
    | inl full ↦ rw full refl
    | inr room ↦ rw room refl
  ]

  walk-fields :
      (fuel : ℕ) (text : Text) (curr : ℕ) (s : W × ℕ)
      → length (drop curr text) + 2 ≤ fuel
      → walk act fuel text (some curr) s ≡ some (visit_all act (fields (drop curr text)) s)
  unfolding next_curr field
  walk-fields zero text curr s h = absurd (omega (arith, h))
  walk-fields (suc zero) text curr s h = absurd (omega (arith, h))
  walk-fields (suc (suc fuel)) text curr s h =
      walk-step (suc fuel) text curr s ∙ elim (find_first-cases b',' (drop curr text)) [
        | inl (missing, lacks) ↦
            ap (step act (suc fuel) text curr s) missing
            ∙ last-step fuel text curr s
            ∙ ap (λ fs. some (visit_all act fs s)) (sym (fields-Lacks (drop curr text) lacks))
        | inr (a, b, split, lacks) ↦
            ap (step act (suc fuel) text curr s)
              (ap (find_first b',') split ∙ find_first-append b',' a b lacks)
            ∙ after a b split
                (λ w. walk-fields (suc fuel) text (curr + length a + 1) w (rest a b split))
            ∙ ap (λ fs. some (visit_all act fs s)) (sym (ap fields split ∙ fields-comma a b lacks))
      ]
    where
      rest :
          (a b : Text)
          → drop curr text ≡ a ++ b',' ∷ b
          → length (drop (curr + length a + 1) text) + 2 ≤ suc fuel
      rest a b split = omega (
        arith,
        h,
        ap length split,
        length-append a (b',' ∷ b),
        ap length (after-comma text a b curr split),
      )

      after :
          (a b : Text)
          → drop curr text ≡ a ++ b',' ∷ b
          → ((w : W × ℕ)
              → walk act (suc fuel) text (some (curr + length a + 1)) w
                ≡ some (visit_all act (fields (drop (curr + length a + 1) text)) w))
          → step act (suc fuel) text curr s (some (length a))
            ≡ some (visit_all act (a ∷ fields b) s)
      after a b split more = elim (Bool-cases (leb max_media s.1)) [
        | inl full ↦ rw full refl
        | inr room ↦ rw room (
            ap (λ f. walk act (suc fuel) text (some (curr + length a + 1)) (visit act f s))
              (ap (take (length a)) split ∙ take-append a (b',' ∷ b))
            ∙ more (visit act a s)
            ∙ ap (λ t. some (visit_all act (fields t) (visit act a s)))
                (after-comma text a b curr split))
      ]

  -- With its fuel the loop ends, and it has gone over the texts between commas.
  pub for_each_field-fields :
      (text : Text) (w : W) → for_each_field act text w ≡ some (visit_all act (fields text) (w, 0))
  unfolding for_each_field
  for_each_field-fields text w = walk-fields (length text + 2) text 0 (w, 0) (omega arith)

abbrev pub nonempty : List Text → List Text
nonempty [] = []
nonempty ([] ∷ fs) = nonempty fs
nonempty ((c ∷ f) ∷ fs) = (c ∷ f) ∷ nonempty fs

pub visit_all-full :
    {W : Type 0} (act : ℕ → Text → W → W × Bool) (fs : List Text) (s : W × ℕ)
    → leb max_media s.1 ≡ true
    → visit_all act fs s ≡ s
visit_all-full act [] s full = refl
visit_all-full act (f ∷ fs) s full = rw full refl

-- Empty fields count for nothing.
pub visit_all-nonempty :
    {W : Type 0} (act : ℕ → Text → W → W × Bool) (fs : List Text) (s : W × ℕ)
    → visit_all act fs s ≡ visit_all act (nonempty fs) s
unfolding visit
visit_all-nonempty act [] s = refl
visit_all-nonempty act ([] ∷ fs) s = elim (Bool-cases (leb max_media s.1)) [
  | inl full ↦ rw full (sym (visit_all-full act (nonempty fs) s full))
  | inr room ↦ rw room (visit_all-nonempty act fs s)
]
visit_all-nonempty act ((c ∷ f) ∷ fs) s = elim (Bool-cases (leb max_media s.1)) [
  | inl full ↦ rw full refl
  | inr room ↦ rw room (visit_all-nonempty act fs (visit act (c ∷ f) s))
]
