-- ===== src/Io/SocketAddress/Bounds.antt =====
-- The sizes in what `SocketAddress::parse` (src/common/io/socket_address.cpp) makes.
use yakut_native.Base.{
  ℕ, ◌+◌, ◌-◌, ◌≤◌, ◌<◌, ◌≡◌, refl, inl, inr, [], ◌∷◌, Option, none, some, ltb, if_intro, same,
  codes, starts_with, Bool-cases, Option-cases, length, drop, arith, Text, c_str, length-pad,
}
use mathlib.Core.Path.{subst}
use yakut_native.Posix.{einval}
use yakut_native.Io.SocketAddress.{
  Libc, Family, Storage, unspecified, inet, unix, ParseResult, success, failure, sizeof_inet,
  offset_path, sizeof_path, max_port, try_parse_as_unix_domain, try_parse_as_abstract_unix_domain,
  try_parse_as_wildcard, parse_port, with_port, extract_family_host_and_port, split_host_port,
  convert, try_parse_as_tcp_address, first_of, parse, tcp_address, unix_address, abstract_address,
  port_value, inet_result, unix_prefix, abstract_prefix, tcp_prefix, Conversion, converted,
  no_address, refused,
}

-- The length and the port suit the family; a path fills its array.
abbrev pub FitsIn : ℕ → Storage → Type 0
FitsIn len unspecified = ⊥
FitsIn len (inet family port address) = (len ≡ sizeof_inet family) × (port ≤ max_port)
FitsIn len (unix path) =
    (length path ≡ sizeof_path) × (offset_path < len) × (len ≤ offset_path + sizeof_path)

abbrev pub Fits : ParseResult → Type 0
Fits (failure err) = Unit
Fits (success a) = FitsIn a.addr_len a.storage

abbrev FitsIfAny : Option ParseResult → Type 0
FitsIfAny none = Unit
FitsIfAny (some r) = Fits r

unix_address-Fits : (path : Text) → Fits (unix_address path)
unfolding unix_address
unix_address-Fits path = elim (Bool-cases (ltb sizeof_path (length path + 1))) [
  | inl long ↦ rw long tt
  | inr short ↦ rw short (length-pad sizeof_path (c_str path), ground arith, ground (arith, short))
]

abstract_address-Fits : (path : Text) → Fits (abstract_address path)
unfolding abstract_address
abstract_address-Fits path = elim (Bool-cases (ltb (sizeof_path - 1) (length path + 1))) [
  | inl long ↦ rw long tt
  | inr short ↦ rw short (length-pad sizeof_path (0 ∷ path), ground arith, ground (arith, short))
]

try_parse_as_unix_domain-Fits : (s : Text) → FitsIfAny (try_parse_as_unix_domain s)
unfolding try_parse_as_unix_domain
try_parse_as_unix_domain-Fits s =
    if_intro FitsIfAny (starts_with unix_prefix s) (some (unix_address (drop 5 s))) none
      (λ _. unix_address-Fits (drop 5 s)) (λ _. tt)

try_parse_as_abstract_unix_domain-Fits :
    (s : Text) → FitsIfAny (try_parse_as_abstract_unix_domain s)
unfolding try_parse_as_abstract_unix_domain
try_parse_as_abstract_unix_domain-Fits s =
    if_intro FitsIfAny (starts_with abstract_prefix s) (some (abstract_address (drop 14 s))) none
      (λ _. abstract_address-Fits (drop 14 s)) (λ _. tt)

-- A port, if there is one.
abbrev PortFits : Option ℕ → Type 0
PortFits none = Unit
PortFits (some port) = port ≤ max_port

port_value-Fits : (value : ℕ) (rest : Text) → PortFits (port_value value rest)
unfolding port_value
port_value-Fits value (c ∷ rest) = tt
port_value-Fits value [] = elim (Bool-cases (ltb max_port value)) [
  | inl large ↦ rw large tt
  | inr small ↦ rw small (ground (arith, small))
]

inet_result-Fits :
    (family : Family) (port : ℕ) (c : Conversion)
    → port ≤ max_port
    → Fits (inet_result family port c)
unfolding inet_result
inet_result-Fits family port (converted address) h = (refl, h)
inet_result-Fits family port no_address h = tt
inet_result-Fits family port (refused err) h = tt

first_of-Fits :
    (r : Option ParseResult) (q : ParseResult) → FitsIfAny r → Fits q → Fits (first_of r q)
unfolding first_of
first_of-Fits none q f g = g
first_of-Fits (some r) q f g = f

module _ (libc : Libc) where
  parse_port-Fits : (t : Text) (hint : ℕ) → hint ≤ max_port → PortFits (parse_port libc t hint)
  unfolding parse_port
  parse_port-Fits [] hint h = h
  parse_port-Fits (c ∷ t) hint h =
      port_value-Fits (libc.strtoull (c_str (c ∷ t))).0 (libc.strtoull (c_str (c ∷ t))).1

  convert-Fits :
      (family : Family) (host : Text) (port : ℕ)
      → port ≤ max_port
      → Fits (convert libc (family, host, port))
  unfolding convert try_parse_as_wildcard
  convert-Fits family host port h = elim (Bool-cases (same host (codes "*"))) [
    | inl any ↦ rw (convert, any) (refl, h)
    | inr other ↦
        rw (convert, other) (inet_result-Fits family port (libc.pton family (c_str host)) h)
  ]

  with_port-Fits :
      (hint : ℕ) (family : Family) (host t : Text)
      → hint ≤ max_port
      → Fits (tcp_address libc (with_port libc hint (family, host, t)))
  unfolding with_port tcp_address
  with_port-Fits hint family host t h = elim (Option-cases (parse_port libc t hint)) [
    | inl missing ↦ rw (with_port, missing) tt
    | inr (port, found) ↦
        rw (with_port, found)
          (convert-Fits family host port (subst PortFits found (parse_port-Fits t hint h)))
  ]

  extract-Fits :
      (hint : ℕ) (s : Text)
      → hint ≤ max_port
      → Fits (tcp_address libc (extract_family_host_and_port libc s hint))
  unfolding extract_family_host_and_port tcp_address
  extract-Fits hint s h = elim (Option-cases (split_host_port s)) [
    | inl missing ↦ rw (extract_family_host_and_port, missing) tt
    | inr ((family, host, t), found) ↦
        rw (extract_family_host_and_port, found) (with_port-Fits hint family host t h)
  ]

  try_parse_as_tcp_address-Fits :
      (s : Text) (hint : ℕ) → hint ≤ max_port → FitsIfAny (try_parse_as_tcp_address libc s hint)
  unfolding try_parse_as_tcp_address
  try_parse_as_tcp_address-Fits s hint h =
      if_intro FitsIfAny (starts_with tcp_prefix s)
        (some (tcp_address libc (extract_family_host_and_port libc (drop 6 s) hint))) none
        (λ _. extract-Fits hint (drop 6 s) h) (λ _. tt)

  -- Whatever the text, and whatever `inet_pton` and `strtoull` return, if the hint is a port: an address
  -- that is parsed has a length that its family allows and a port of 16 bits, and a path fills
  -- sun_path and no more.
  pub parse-Fits : (s : Text) (hint : ℕ) → hint ≤ max_port → Fits (parse libc s hint)
  unfolding parse
  parse-Fits s hint h =
      first_of-Fits (try_parse_as_unix_domain s) _ (try_parse_as_unix_domain-Fits s) (
        first_of-Fits (try_parse_as_abstract_unix_domain s) _
          (try_parse_as_abstract_unix_domain-Fits s)
          (first_of-Fits (try_parse_as_tcp_address libc s hint) (failure einval)
            (try_parse_as_tcp_address-Fits s hint h) tt))
