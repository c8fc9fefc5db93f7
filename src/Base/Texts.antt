-- ===== src/Base/Texts.antt =====
-- `std::string` as the list of its bytes.
use Prim.Native.Char.{code}
use Prim.Native.String.{String}
use Prim.Native.Nat.{ℕ, zero, suc, ◌≤◌, ◌<◌}
use mathlib.Core.Path.{◌≡◌, refl, ap, ◌∙◌}
use mathlib.Core.Logic.{◌≢◌, ◌⊎◌, inl, inr}
use mathlib.Core.Bool.{Bool, true, false, ◌&&◌}
use mathlib.Core.Option.{Option, none, some}
use mathlib.Core.List.{List, [], ◌∷◌, ◌++◌}
use native.Mathlib.Omega.{arith}
use yakut_native.Base.Tests.{◌==◌, ==_iff, ==_refl, if◌then◌else◌, Bool-cases}
use yakut_native.Base.Lists.{length, take, length-append, length-take}

abbrev pub Text : Type 0
Text = List ℕ

-- A literal of the source.
abbrev pub codes : String → Text
codes String.[] = []
codes (String.◌∷◌ c s) = code c ∷ codes s

-- `s.compare(0, prefix.size(), prefix) == 0`.
abbrev pub starts_with : Text → Text → Bool
starts_with [] s = true
starts_with (p ∷ ps) [] = false
starts_with (p ∷ ps) (c ∷ s) = (c == p) && starts_with ps s

abbrev pub same : Text → Text → Bool
same [] [] = true
same [] (c ∷ s) = false
same (b ∷ r) [] = false
same (b ∷ r) (c ∷ s) = (b == c) && same r s

-- `find_first_of` and `find_last_of` of one character; `none` is `npos`.
unfoldable pub find_first : ℕ → Text → Option ℕ
find_first c [] = none
find_first c (b ∷ s) =
    let later = find_first c s in
    if b == c then some 0 else elim later [ none ↦ none | some i ↦ some (suc i) ]

unfoldable pub find_last : ℕ → Text → Option ℕ
find_last c [] = none
find_last c (b ∷ s) = elim (find_last c s) [
  | some i ↦ some (suc i)
  | none ↦ if b == c then some 0 else none
]

-- `c_str()`: what comes before the first NUL.
unfoldable pub c_str : Text → Text
c_str [] = []
c_str (c ∷ s) = let rest = c_str s in if c == 0 then [] else c ∷ rest

abbrev pub zeros : ℕ → Text
zeros zero = []
zeros (suc n) = 0 ∷ zeros n

-- An array of `n` zero bytes after `s` was copied to its start.
unfoldable pub pad : ℕ → Text → Text
pad n s = take n (s ++ zeros n)

-- The text has no such byte.
abbrev pub Lacks : ℕ → Text → Type 0
Lacks c [] = Unit
Lacks c (b ∷ s) = (b ≢ c) × Lacks c s

pub starts_with-append : (p s : Text) → starts_with p (p ++ s) ≡ true
starts_with-append [] s = refl
starts_with-append (c ∷ p) s = rw (==_refl c) (starts_with-append p s)

pub same_refl : (s : Text) → same s s ≡ true
same_refl [] = refl
same_refl (c ∷ s) = rw (==_refl c) (same_refl s)

pub find_first-Lacks : (c : ℕ) (s : Text) → Lacks c s → find_first c s ≡ none
unfolding find_first
find_first-Lacks c [] l = refl
find_first-Lacks c (b ∷ s) l = ground (arith, find_first-Lacks c s l.1, l.0)

pub find_last-Lacks : (c : ℕ) (s : Text) → Lacks c s → find_last c s ≡ none
unfolding find_last
find_last-Lacks c [] l = refl
find_last-Lacks c (b ∷ s) l = ground (arith, find_last-Lacks c s l.1, l.0)

pub find_first-append :
    (c : ℕ) (s t : Text) → Lacks c s → find_first c (s ++ c ∷ t) ≡ some (length s)
unfolding find_first
find_first-append c [] t l = ground (arith, ==_refl c)
find_first-append c (b ∷ s) t l = ground (arith, find_first-append c s t l.1, l.0)

pub find_last-append : (c : ℕ) (s t : Text) → Lacks c t → find_last c (s ++ c ∷ t) ≡ some (length s)
unfolding find_last
find_last-append c [] t l = ground (arith, find_last-Lacks c t l, ==_refl c)
find_last-append c (b ∷ s) t l = ground (arith, find_last-append c s t l)

-- What a search tells of the text: that the byte is missing, or the text around its place.
pub find_first-cases :
    (c : ℕ) (s : Text)
    → ((find_first c s ≡ none) × Lacks c s)
      ⊎ ((a : Text) × (b : Text) × (s ≡ a ++ c ∷ b) × Lacks c a)
unfolding find_first
find_first-cases c [] = inl (refl, tt)
find_first-cases c (d ∷ s) = elim (Bool-cases (d == c)) [
  | inl found ↦ inr ([], s, ap (λ e. e ∷ s) ((==_iff d c).0 found), tt)
  | inr other ↦ elim (find_first-cases c s) [
    | inl (missing, lacks) ↦ inl (rw (other, missing) refl, (ground arith, lacks))
    | inr (a, b, split, lacks) ↦ inr (d ∷ a, b, ap (◌∷◌ d) split, (ground arith, lacks))
  ]
]

pub find_last-cases :
    (c : ℕ) (s : Text)
    → ((find_last c s ≡ none) × Lacks c s)
      ⊎ ((a : Text) × (b : Text) × (s ≡ a ++ c ∷ b) × Lacks c b)
unfolding find_last
find_last-cases c [] = inl (refl, tt)
find_last-cases c (d ∷ s) = elim (find_last-cases c s) [
  | inr (a, b, split, lacks) ↦ inr (d ∷ a, b, ap (◌∷◌ d) split, lacks)
  | inl (missing, lacks) ↦ elim (Bool-cases (d == c)) [
    | inl found ↦ inr ([], s, ap (λ e. e ∷ s) ((==_iff d c).0 found), lacks)
    | inr other ↦ inl (rw (missing, other) refl, (ground arith, lacks))
  ]
]

pub c_str-Lacks : (s : Text) → Lacks 0 s → c_str s ≡ s
unfolding c_str
c_str-Lacks [] l = refl
c_str-Lacks (c ∷ s) l = ground (arith, c_str-Lacks s l.1, l.0)

pub length-c_str : (s : Text) → length (c_str s) ≤ length s
unfolding c_str
length-c_str [] = omega arith
length-c_str (c ∷ s) = elim (Bool-cases (c == 0)) [
  | inl e ↦ rw e (omega arith)
  | inr e ↦ rw e (omega (arith, length-c_str s))
]

pub length-zeros : (n : ℕ) → length (zeros n) ≡ n
length-zeros zero = refl
length-zeros (suc n) = ap suc (length-zeros n)

pub length-pad : (n : ℕ) (s : Text) → length (pad n s) ≡ n
unfolding pad
length-pad n s =
    length-take n (s ++ zeros n) (omega (arith, length-append s (zeros n), length-zeros n))

pub take-take : {A : Type 0} (k n : ℕ) (xs : List A) → k ≤ n → take k (take n xs) ≡ take k xs
take-take zero n xs h = refl
take-take (suc k) zero xs h = absurd (omega arith)
take-take (suc k) (suc n) [] h = refl
take-take (suc k) (suc n) (x ∷ xs) h = ap (◌∷◌ x) (take-take k n xs (omega arith))

take-zeros : (n : ℕ) (s : Text) → take (suc (length s)) (s ++ zeros (suc n)) ≡ s ++ 0 ∷ []
take-zeros n [] = refl
take-zeros n (c ∷ s) = ap (◌∷◌ c) (take-zeros n s)

-- An array holds the text and, after it, a NUL.
pub take-pad : (n : ℕ) (s : Text) → length s < n → take (suc (length s)) (pad n s) ≡ s ++ 0 ∷ []
unfolding pad
take-pad zero s h = absurd (omega arith)
take-pad (suc n) s h =
    take-take (suc (length s)) (suc n) (s ++ zeros (suc n)) (omega arith) ∙ take-zeros n s

pub same-eq : (s t : Text) → same s t ≡ true → s ≡ t
same-eq [] [] e = refl
same-eq [] (c ∷ t) e = absurd (ground (arith, e))
same-eq (b ∷ s) [] e = absurd (ground (arith, e))
same-eq (b ∷ s) (c ∷ t) e = elim (Bool-cases (b == c)) [
  | inl first ↦ ap (λ d. d ∷ s) ((==_iff b c).0 first) ∙ ap (◌∷◌ c) (same-eq s t (rest first))
  | inr other ↦ absurd (ground (arith, e, other))
]
  where
    rest : (b == c) ≡ true → same s t ≡ true
    rest first = ground (arith, e, first)
