-- ===== src/Io/SocketAddress/Roundtrip.antt =====
-- `SocketAddress::toString` and `SocketAddress::parse` of src/common/io/socket_address.cpp, one after
-- the other.
use mathlib.Core.Path.{subst}
use yakut_native.Base.{
  ℕ, ◌≤◌, ◌<◌, ◌≡◌, ◌≢◌, refl, sym, ap, ◌∙◌, [], ◌∷◌, ◌++◌, true, false, some, ==_ne, arith, Text,
  codes, same, pad, Lacks, c_str-Lacks,
}
use yakut_native.Io.SocketAddress.{
  Libc, Family, inet4, inet6, converted, inet, SocketAddress, success, sizeof_inet, max_port,
  tcp_prefix, try_parse_as_unix_domain, try_parse_as_abstract_unix_domain, try_parse_as_wildcard,
  port_value, parse_port, with_port, extract_family_host_and_port, inet_result, convert,
  tcp_address, try_parse_as_tcp_address, first_of, parse, print_inet, print_storage, get_port,
  to_string,
}
use yakut_native.Io.SocketAddress.Splitting.{Plain}
use yakut_native.Io.SocketAddress.Grammar.{
  Denotes, host4_port, bracketed_port, split_host_port-Denotes,
}

abbrev pub Within : ℕ → ℕ → Text → Type 0
Within lo hi [] = Unit
Within lo hi (c ∷ s) = (lo ≤ c) × (c ≤ hi) × Within lo hi s

-- What POSIX and fmt document: an address in text form is read back; it consists of digits and dots,
-- or of hexadecimal digits, colons and dots; and a number is printed in decimal digits, which
-- `strtoull` reads to their end.
pub record IsPosix (libc : Libc) : Type 0 where
  pub pton-ntop :
      (family : Family) (address host : Text)
      → libc.ntop family address ≡ some host
      → libc.pton family host ≡ converted address
  pub ntop-inet4 :
      (address host : Text) → libc.ntop inet4 address ≡ some host → Within b'.' b'9' host
  pub ntop-inet6 :
      (address host : Text) → libc.ntop inet6 address ≡ some host → Within b'.' b'f' host
  pub decimal-digits : (n : ℕ) → Within b'0' b'9' (libc.decimal n)
  pub decimal-some : (n : ℕ) → libc.decimal n ≢ []
  pub strtoull-decimal : (n : ℕ) → n ≤ max_port → libc.strtoull (libc.decimal n) ≡ (n, [])

Within-Lacks : (lo hi c : ℕ) (s : Text) → (c < lo) → Within lo hi s → Lacks c s
Within-Lacks lo hi c [] h w = tt
Within-Lacks lo hi c (d ∷ s) h w = (λ e. omega (arith, e, h, w.0), Within-Lacks lo hi c s h w.2)

Within-Lacks_above : (lo hi c : ℕ) (s : Text) → (hi < c) → Within lo hi s → Lacks c s
Within-Lacks_above lo hi c [] h w = tt
Within-Lacks_above lo hi c (d ∷ s) h w =
    (λ e. omega (arith, e, h, w.1), Within-Lacks_above lo hi c s h w.2)

Within-Plain : (hi : ℕ) (s t : Text) → hi < b'[' → Within b'.' hi s → Plain (s ++ b':' ∷ t)
Within-Plain hi [] t h w = λ e. omega (arith, e)
Within-Plain hi (c ∷ s) t h w = λ e. omega (arith, e, h, w.1)

Within-not_star : (hi : ℕ) (s : Text) → Within b'.' hi s → same s (codes "*") ≡ false
Within-not_star hi [] w = refl
Within-not_star hi (c ∷ s) w = rw (==_ne c b'*' (λ e. omega (arith, e, w.0))) refl

-- The address that "tcp://" makes of its parts.
abbrev pub inet_address : Family → ℕ → Text → SocketAddress
inet_address family port address = record {
  is_wildcard = false;
  addr_len = sizeof_inet family;
  storage = inet family port address;
}

abbrev pub wildcard_address : ℕ → SocketAddress
wildcard_address port = record {
  is_wildcard = true;
  addr_len = sizeof_inet inet6;
  storage = inet inet6 port (pad 16 []);
}

in_range : (port : ℕ) → port ≤ max_port → port_value port [] ≡ some port
unfolding port_value
in_range port h = ground arith

-- The addresses that come from "tcp://" and can be printed: those that `inet_ntop` prints, and "*".
pub data Shown (libc : Libc) : SocketAddress → Type 0 where
  numeric :
      (family : Family) (port : ℕ) (address host : Text)
      → libc.ntop family address ≡ some host
      → port ≤ max_port
      → Shown libc (inet_address family port address)
  wildcard : (port : ℕ) → port ≤ max_port → Shown libc (wildcard_address port)

module _ (libc : Libc) where
  parse-Denotes :
      (s : Text) (family : Family) (host text : Text) (hint port : ℕ)
      → Denotes s family host text
      → parse_port libc text hint ≡ some port
      → parse libc (tcp_prefix ++ s) hint ≡ convert libc (family, host, port)
  unfolding parse try_parse_as_unix_domain try_parse_as_abstract_unix_domain
      try_parse_as_tcp_address first_of extract_family_host_and_port with_port tcp_address
  parse-Denotes s family host text hint port d e =
      rw (extract_family_host_and_port, (split_host_port-Denotes s family host text).1 d)
        (rw (with_port, e) refl)

  module _ (posix : IsPosix libc) where
    parse_port-decimal :
        (port hint : ℕ) → port ≤ max_port → parse_port libc (libc.decimal port) hint ≡ some port
    unfolding parse_port
    parse_port-decimal port hint h = go (libc.decimal port) refl
      where
        go : (t : Text) → libc.decimal port ≡ t → parse_port libc t hint ≡ some port
        go [] e = absurd (posix.decimal-some port e)
        go (c ∷ t) e =
            subst (λ r. port_value r.0 r.1 ≡ some port)
              (sym (
                ap libc.strtoull (
                  c_str-Lacks (c ∷ t) (
                    subst (Lacks 0) e (
                      Within-Lacks b'0' b'9' 0 (libc.decimal port) (omega arith)
                        (posix.decimal-digits port)))
                  ∙ sym e)
                ∙ posix.strtoull-decimal port h))
              (in_range port h)

    convert-ntop :
        (family : Family) (address host : Text) (port hi : ℕ)
        → libc.ntop family address ≡ some host
        → Within b'.' hi host
        → convert libc (family, host, port) ≡ success (inet_address family port address)
    unfolding convert try_parse_as_wildcard inet_result
    convert-ntop family address host port hi e w =
        rw
          (
            convert,
            Within-not_star hi host w,
            c_str-Lacks host (Within-Lacks b'.' hi 0 host (omega arith) w),
            posix.pton-ntop family address host e,
          )
          refl

    to_string-numeric :
        (family : Family) (port : ℕ) (address host : Text)
        → libc.ntop family address ≡ some host
        → to_string libc (inet_address family port address) ≡ print_inet libc family host port
    unfolding to_string print_storage
    to_string-numeric family port address host e = rw (print_storage, e) refl

    parse-print_inet :
        (family : Family) (port hint : ℕ) (address host : Text)
        → libc.ntop family address ≡ some host
        → port ≤ max_port
        → parse libc (tcp_prefix ++ print_inet libc family host port) hint
          ≡ success (inet_address family port address)
    unfolding print_inet
    parse-print_inet inet4 port hint address host e h =
        parse-Denotes (host ++ b':' ∷ libc.decimal port) inet4 host (libc.decimal port) hint port
          (host4_port host (libc.decimal port)
            (Within-Plain b'9' host (libc.decimal port) (omega arith) within) refl
            (Within-Lacks_above b'.' b'9' b':' host (omega arith) within)
            (Within-Lacks_above b'0' b'9' b':' (libc.decimal port) (omega arith)
              (posix.decimal-digits port)))
          (parse_port-decimal port hint h)
        ∙ convert-ntop inet4 address host port b'9' e within
      where
        within : Within b'.' b'9' host
        within = posix.ntop-inet4 address host e
    parse-print_inet inet6 port hint address host e h =
        parse-Denotes (b'[' ∷ host ++ (b']' ∷ b':' ∷ libc.decimal port)) inet6 host
          (libc.decimal port) hint port
          (bracketed_port host (libc.decimal port) refl (
            Within-Lacks_above b'0' b'9' b']' (libc.decimal port) (omega arith)
              (posix.decimal-digits port)))
          (parse_port-decimal port hint h)
        ∙ convert-ntop inet6 address host port b'f' e (posix.ntop-inet6 address host e)

    parse-wildcard :
        (port hint : ℕ)
        → port ≤ max_port
        → parse libc (tcp_prefix ++ (codes "*:" ++ libc.decimal port)) hint
          ≡ success (wildcard_address port)
    unfolding convert try_parse_as_wildcard
    parse-wildcard port hint h =
        parse-Denotes (codes "*:" ++ libc.decimal port) inet4 (codes "*") (libc.decimal port) hint
          port
          (host4_port (codes "*") (libc.decimal port) (λ e. omega (arith, e)) refl
            (λ e. omega (arith, e), tt)
            (Within-Lacks_above b'0' b'9' b':' (libc.decimal port) (omega arith)
              (posix.decimal-digits port)))
          (parse_port-decimal port hint h)

    -- The text of an address that `toString` prints, after "tcp://", is parsed as the same address,
    -- whatever the port hint, if the C library and fmt do what they document: numeric IPv4 and
    -- IPv6 addresses with a port of 16 bits, and the wildcard.
    pub parse-to_string :
        (a : SocketAddress) (hint : ℕ)
        → Shown libc a
        → parse libc (tcp_prefix ++ to_string libc a) hint ≡ success a
    unfolding to_string get_port
    parse-to_string a hint (numeric family port address host e h) =
        ap (λ t. parse libc (tcp_prefix ++ t) hint) (to_string-numeric family port address host e)
        ∙ parse-print_inet family port hint address host e h
    parse-to_string a hint (wildcard port h) = parse-wildcard port hint h
