-- ===== src/Base/Maps.antt =====
-- `std::unordered_map` with integer keys, as an association list. The order of the list stands for
-- the unspecified order of iteration.
use Prim.Native.Nat.{ℕ}
use mathlib.Core.Path.{◌≡◌, refl}
use mathlib.Core.Bool.{Bool, true, false}
use mathlib.Core.Option.{Option, none, some}
use mathlib.Core.List.{List, [], ◌∷◌}
use native.Mathlib.Omega.{arith}
use mathlib.Core.Logic.{inl, inr}
use yakut_native.Base.Tests.{◌==◌, if◌then◌else◌, Bool-cases, ==_iff}

abbrev pub Map {ℓ} : Type ℓ → Type ℓ
Map V = List (ℕ × V)

module _ {ℓ} {V : Type ℓ} where
  unfoldable pub find : ℕ → Map V → Option V
  find k [] = none
  find k ((j, v) ∷ m) = if j == k then some v else find k m

  unfoldable pub contains : ℕ → Map V → Bool
  contains k [] = false
  contains k ((j, v) ∷ m) = if j == k then true else contains k m

  -- `m.erase(k)`.
  unfoldable pub erase : ℕ → Map V → Map V
  erase k [] = []
  erase k ((j, v) ∷ m) = if j == k then erase k m else (j, v) ∷ erase k m

  -- `m[k] = v`.
  unfoldable pub assign : ℕ → V → Map V → Map V
  assign k v [] = (k, v) ∷ []
  assign k v ((j, w) ∷ m) = if j == k then (k, v) ∷ m else (j, w) ∷ assign k v m

  -- `m.insert({k, v})` and `m.emplace(k, v)`: a key that is there keeps its value.
  unfoldable pub insert : ℕ → V → Map V → Map V
  unfolding contains
  insert k v m = if contains k m then m else (k, v) ∷ m

  pub find-erase : (j k : ℕ) (m : Map V) → find j (erase k m) ≡ (if k == j then none else find j m)
  unfolding find erase
  find-erase j k [] = ground arith
  find-erase j k ((i, v) ∷ m) = ground (arith, find-erase j k m)

  pub find-assign :
      (j k : ℕ) (v : V) (m : Map V) → find j (assign k v m) ≡ (if k == j then some v else find j m)
  unfolding find assign
  find-assign j k v [] = refl
  find-assign j k v ((i, w) ∷ m) = ground (arith, find-assign j k v m)

  abbrev pub is_some : Option V → Bool
  is_some none = false
  is_some (some v) = true

  pub contains-find : (k : ℕ) (m : Map V) → contains k m ≡ is_some (find k m)
  unfolding find contains
  contains-find k [] = refl
  contains-find k ((j, v) ∷ m) = ground (arith, contains-find k m)

  pub find-insert :
      (j k : ℕ) (v : V) (m : Map V)
      → find j (insert k v m)
        ≡ (if contains k m then find j m else if k == j then some v else find j m)
  unfolding find insert
  find-insert j k v m = ground arith

  -- `unordered_map` holds a key once.
  abbrev pub Distinct : Map V → Type ℓ
  Distinct [] = Unit
  Distinct ((k, v) ∷ m) = (find k m ≡ none) × Distinct m

  pub Distinct-erase : (k : ℕ) (m : Map V) → Distinct m → Distinct (erase k m)
  unfolding erase
  Distinct-erase k [] d = tt
  Distinct-erase k ((j, v) ∷ m) d = elim (Bool-cases (j == k)) [
    | inl same ↦ rw same (Distinct-erase k m d.1)
    | inr other ↦ rw other (ground (arith, find-erase j k m, d.0), Distinct-erase k m d.1)
  ]

  pub Distinct-assign : (k : ℕ) (v : V) (m : Map V) → Distinct m → Distinct (assign k v m)
  unfolding assign find
  Distinct-assign k v [] d = (refl, tt)
  Distinct-assign k v ((j, w) ∷ m) d = elim (Bool-cases (j == k)) [
    | inl same ↦ rw same (ground (arith, d.0), d.1)
    | inr other ↦ rw other (ground (arith, find-assign j k v m, d.0), Distinct-assign k v m d.1)
  ]

  -- What holds of each entry.
  abbrev pub AllValues {κ} : (V → Type κ) → Map V → Type κ
  AllValues P [] = Unit
  AllValues P ((k, v) ∷ m) = P v × AllValues P m

  pub AllValues-map {κ μ} :
      {P : V → Type κ} {Q : V → Type μ} (m : Map V)
      → ((v : V) → P v → Q v)
      → AllValues P m
      → AllValues Q m
  AllValues-map [] f a = tt
  AllValues-map ((k, v) ∷ m) f a = (f v a.0, AllValues-map m f a.1)

  pub AllValues-of_find {κ} :
      (P : V → Type κ) (m : Map V)
      → Distinct m
      → ((k : ℕ) (v : V) → find k m ≡ some v → P v)
      → AllValues P m
  unfolding find
  AllValues-of_find P [] d f = tt
  AllValues-of_find P ((k, v) ∷ m) d f =
      (f k v (ground arith), AllValues-of_find P m d.1 (λ j w h. f j w (later j w h)))
    where
      later : (j : ℕ) (w : V) → find j m ≡ some w → find j ((k, v) ∷ m) ≡ some w
      later j w h = elim (Bool-cases (k == j)) [
        | inl same ↦ ground (arith, d.0, ==_iff k j)
        | inr other ↦ ground arith
      ]

-- A law for each operation, for `simp` and `rw`.
pub ruleset map_laws = (find-erase, find-assign, find-insert, contains-find)
