-- ===== src/Io/SocketAddress/Grammar.antt =====
-- The host and port syntax of `SocketAddress::extractFamilyHostAndPort`
-- (src/common/io/socket_address.cpp), as a grammar.
use yakut_native.Base.{
  ◌≡◌, refl, sym, ap, ◌∙◌, ◌≢◌, ◌↔◌, inl, inr, [], ◌∷◌, ◌++◌, Option, none, some, ◌==◌, ==_iff,
  Bool-cases, arith, Text, Lacks, find_first-cases, find_last-cases,
}
use mathlib.Core.Path.{subst}
use yakut_native.Io.SocketAddress.{
  Family, inet4, inet6, split_bracketed, split_plain, split_host_port,
}
use yakut_native.Io.SocketAddress.Splitting.{
  Plain, after_bracket, split_host_port-Plain, split_host_port-bracket, split_plain-none,
  split_plain-single, split_plain-several, split_bracketed-none, split_bracketed-found,
}

-- What a text after "tcp://" says: a plain host has no colon and stands for IPv4, alone or with a
-- port after a colon; text with two colons is an IPv6 host; text in brackets is an IPv6 host, alone
-- or with a port. A bracketed host ends at the last closing bracket.
pub data Denotes (str : Text) : Family → Text → Text → Type 0 where
  host4 : Plain str → Lacks b':' str → Denotes str inet4 str []
  host4_port :
      (host port : Text)
      → Plain str
      → str ≡ host ++ b':' ∷ port
      → Lacks b':' host
      → Lacks b':' port
      → Denotes str inet4 host port
  host6 :
      (a b c : Text)
      → Plain str
      → Lacks b':' a
      → Lacks b':' b
      → str ≡ a ++ b':' ∷ (b ++ b':' ∷ c)
      → Denotes str inet6 str []
  bracketed : (host : Text) → str ≡ b'[' ∷ host ++ b']' ∷ [] → Denotes str inet6 host []
  bracketed_port :
      (host port : Text)
      → str ≡ b'[' ∷ host ++ b']' ∷ b':' ∷ port
      → Lacks b']' port
      → Denotes str inet6 host port

-- What the function finds is what the grammar says.
abbrev Means : Text → Option (Family × Text × Text) → Type 0
Means str none = Unit
Means str (some (family, host, port)) = Denotes str family host port

split_plain-Means : (s : Text) → Plain s → Means s (some (split_plain s))
split_plain-Means s p = elim (find_first-cases b':' s) [
  | inl (missing, lacks) ↦
      subst (λ r. Means s (some r)) (sym (split_plain-none s lacks)) (host4 p lacks)
  | inr (a, b, first, lacks) ↦ elim (find_first-cases b':' b) [
    | inl (missing, lacks') ↦
        subst (λ r. Means s (some r))
          (sym (ap split_plain first ∙ split_plain-single a b lacks lacks'))
          (host4_port a b p first lacks lacks')
    | inr (c, d, second, lacks') ↦
        several a c d (first ∙ ap (λ t. a ++ b':' ∷ t) second) lacks lacks'
  ]
]
  where
    several :
        (a c d : Text)
        → s ≡ a ++ b':' ∷ (c ++ b':' ∷ d)
        → Lacks b':' a
        → Lacks b':' c
        → Means s (some (split_plain s))
    several a c d e l m =
        subst (λ r. Means s (some r))
          (sym
            (ap split_plain e ∙ split_plain-several a c d l m ∙ ap (λ t. (inet6, t, [])) (sym e)))
          (host6 a c d p l m e)

after_bracket-Means :
    (s host rest : Text)
    → s ≡ b'[' ∷ host ++ b']' ∷ rest
    → Lacks b']' rest
    → Means s (after_bracket host rest)
unfolding after_bracket
after_bracket-Means s host [] e l = bracketed host e
after_bracket-Means s host (c ∷ port) e l = elim (Bool-cases (c == b':')) [
  | inr other ↦ rw (after_bracket, other) tt
  | inl colon ↦
      rw (after_bracket, colon)
        (bracketed_port host port
          (subst (λ d. s ≡ b'[' ∷ host ++ b']' ∷ d ∷ port) {x = c} ((==_iff c b':').0 colon) e) l.1)
]

split_bracketed-Means : (s t : Text) → s ≡ b'[' ∷ t → Means s (split_bracketed (b'[' ∷ t))
split_bracketed-Means s t e = elim (find_last-cases b']' t) [
  | inl (missing, lacks) ↦
      subst (Means s) (sym (split_bracketed-none (b'[' ∷ t) (λ c. omega (arith, c), lacks))) tt
  | inr (host, rest, split, lacks) ↦
      subst (Means s)
        (sym (ap (λ r. split_bracketed (b'[' ∷ r)) split ∙ split_bracketed-found host rest lacks))
        (after_bracket-Means s host rest (e ∙ ap (◌∷◌ b'[') split) lacks)
]

split_host_port-Means : (s : Text) → Means s (split_host_port s)
split_host_port-Means [] =
    subst (Means []) (sym (split_host_port-Plain [] tt)) (split_plain-Means [] tt)
split_host_port-Means (c ∷ s) = elim (Bool-cases (c == b'[')) [
  | inl bracket ↦
      subst (λ d. Means (d ∷ s) (split_host_port (d ∷ s))) {x = b'['}
        (sym ((==_iff c b'[').0 bracket))
        (subst (Means (b'[' ∷ s)) (sym (split_host_port-bracket s))
          (split_bracketed-Means (b'[' ∷ s) s refl))
  | inr other ↦ plain (λ e. ground (arith, e, other))
]
  where
    plain : c ≢ b'[' → Means (c ∷ s) (split_host_port (c ∷ s))
    plain p =
        subst (Means (c ∷ s)) (sym (split_host_port-Plain (c ∷ s) p)) (split_plain-Means (c ∷ s) p)

Denotes-split :
    (s : Text) (family : Family) (host port : Text)
    → Denotes s family host port
    → split_host_port s ≡ some (family, host, port)
unfolding after_bracket
Denotes-split s f h p (host4 plain lacks) =
    split_host_port-Plain s plain ∙ ap some (split_plain-none s lacks)
Denotes-split s f h p (host4_port host port plain e lacks lacks') =
    split_host_port-Plain s plain
    ∙ ap some (ap split_plain e ∙ split_plain-single host port lacks lacks')
Denotes-split s f h p (host6 a b c plain lacks lacks' e) =
    split_host_port-Plain s plain
    ∙ ap some (
        ap split_plain e
        ∙ split_plain-several a b c lacks lacks'
        ∙ ap (λ t. (inet6, t, [])) (sym e))
Denotes-split s f h p (bracketed host e) =
    ap split_host_port e
    ∙ split_host_port-bracket (host ++ b']' ∷ [])
    ∙ split_bracketed-found host [] tt
Denotes-split s f h p (bracketed_port host port e lacks) =
    ap split_host_port e
    ∙ split_host_port-bracket (host ++ b']' ∷ b':' ∷ port)
    ∙ split_bracketed-found host (b':' ∷ port) (λ c. omega (arith, c), lacks)

-- The code that looks for brackets and colons reads a text as a family, a host and the text of a port
-- exactly if the grammar does: it accepts no other text, and no text has two readings.
pub split_host_port-Denotes :
    (s : Text) (family : Family) (host port : Text)
    → (split_host_port s ≡ some (family, host, port)) ↔ Denotes s family host port
split_host_port-Denotes s family host port =
    (λ e. subst (Means s) e (split_host_port-Means s), Denotes-split s family host port)
