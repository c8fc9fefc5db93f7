-- ===== src/Io/SocketAddress.antt =====
-- `SocketAddress` of src/common/io/socket_address.cpp and socket_address.hpp.
--
-- `Storage` is what addr_storage_ holds, by its family: the ports are in the host's byte order (`htons`
-- and `ntohs` cancel), and the inet addresses are the bytes of `in_addr` and `in6_addr`. The functions
-- of the C library and of fmt are the argument `Libc`.
pub mod Splitting
pub mod Grammar
pub mod Bounds
pub mod Roundtrip
pub mod UnixPaths
pub mod Calls
mod Types
mod HostPort
unfoldable pub use Types.*
unfoldable pub use HostPort.*
use yakut_native.Base.{
  ℕ, suc, ◌+◌, ◌-◌, ◌^◌, List, [], ◌∷◌, ◌++◌, Bool, true, false, ◌&&◌, Option, none, some, ltb, leb,
  ◌==◌, if◌then◌else◌, length, take, drop, Text, codes, starts_with, same, find_first, find_last,
  c_str, pad,
}
use yakut_native.Posix.{einval}

unfoldable pub empty : SocketAddress
empty = record { is_wildcard = false; addr_len = 0; storage = unspecified }

abbrev pub is_unix : SocketAddress → Bool
is_unix a = elim a.storage [ unix path ↦ true | _ ↦ false ]

abbrev pub is_any_inet : SocketAddress → Bool
is_any_inet a = elim a.storage [ inet family port address ↦ true | _ ↦ false ]

unfoldable pub get_port : SocketAddress → ℕ
get_port a = elim a.storage [ inet family port address ↦ port | _ ↦ 0 ]

-- `getUnixPrefixAndPath` of a sockaddr_un that holds `path`; a socket that `accept` returned has
-- the length that the system gave it.
unfoldable pub prefix_and_path : ℕ → Text → Text × Text
prefix_and_path len [] = (unix_prefix, [])
prefix_and_path len (c ∷ path) =
    let path_len = len - offset_path in
    if path_len == 0
    then (unix_prefix, [])
    else (if c == 0
        then (abstract_prefix, take (path_len - 1) path)
        else (unix_prefix, take path_len (c ∷ path)))

-- AF_INET, AF_INET6, AF_UNIX and AF_UNSPEC of Linux.
abbrev pub family_number : Storage → ℕ
family_number unspecified = 0
family_number (unix path) = 1
family_number (inet inet4 port address) = 2
family_number (inet inet6 port address) = 10

module _ (libc : Libc) where
  -- sa_family, as the message prints it.
  abbrev unknown : ℕ → Text
  unknown family = codes "<unknown>(family=" ++ libc.decimal family ++ codes ")"

  unfoldable pub print_inet : Family → Text → ℕ → Text
  print_inet inet4 host port = host ++ (codes ":" ++ libc.decimal port)
  print_inet inet6 host port = codes "[" ++ (host ++ (codes "]:" ++ libc.decimal port))

  unfoldable pub print_storage : ℕ → Storage → Text
  unfolding print_inet prefix_and_path
  print_storage len unspecified = unknown 0
  print_storage len (unix path) = (prefix_and_path len path).0 ++ (prefix_and_path len path).1
  print_storage len (inet family port address) = elim (libc.ntop family address) [
    | some host ↦ print_inet family host port
    | none ↦ unknown (family_number (inet family port address))
  ]

  unfoldable pub to_string : SocketAddress → Text
  unfolding print_storage get_port
  to_string a =
      if a.is_wildcard
      then codes "*:" ++ libc.decimal (get_port a)
      else print_storage a.addr_len a.storage

-- What the attempts make of the path after their prefix.
unfoldable pub unix_address : Text → ParseResult
unix_address path =
    if ltb sizeof_path (length path + 1)
    then failure einval
    else success (record {
      is_wildcard = false;
      addr_len = offset_path + length path + 1;
      storage = unix (pad sizeof_path (c_str path));
    })

unfoldable pub abstract_address : Text → ParseResult
abstract_address path =
    if ltb (sizeof_path - 1) (length path + 1)
    then failure einval
    else success (record {
      is_wildcard = false;
      addr_len = offset_path + length path + 1;
      storage = unix (pad sizeof_path (0 ∷ path));
    })

unfoldable pub try_parse_as_unix_domain : Text → Option ParseResult
unfolding unix_address
try_parse_as_unix_domain conn_str =
    if starts_with unix_prefix conn_str
    then some (unix_address (drop (length unix_prefix) conn_str))
    else none

unfoldable pub try_parse_as_abstract_unix_domain : Text → Option ParseResult
unfolding abstract_address
try_parse_as_abstract_unix_domain conn_str =
    if starts_with abstract_prefix conn_str
    then some (abstract_address (drop (length abstract_prefix) conn_str))
    else none

unfoldable pub try_parse_as_wildcard : Text → ℕ → Option SocketAddress
try_parse_as_wildcard host port =
    if same host (codes "*")
    then some (record {
      is_wildcard = true;
      addr_len = sizeof_inet inet6;
      storage = inet inet6 port (pad 16 []);
    })
    else none

-- What `inet_pton` returned for the host.
unfoldable pub inet_result : Family → ℕ → Conversion → ParseResult
inet_result family port (converted address) = success (record {
  is_wildcard = false;
  addr_len = sizeof_inet family;
  storage = inet family port address;
})
inet_result family port no_address = failure einval
inet_result family port (refused err) = failure err

-- The first of the attempts that knows the prefix.
unfoldable pub first_of : Option ParseResult → ParseResult → ParseResult
first_of none others = others
first_of (some result) others = result

module _ (libc : Libc) where
  -- The address of a host and a port, by `inet_pton`.
  unfoldable pub convert : Family × Text × ℕ → ParseResult
  unfolding try_parse_as_wildcard inet_result
  convert (family, host, port) = elim (try_parse_as_wildcard host port) [
    | some result ↦ success result
    | none ↦ inet_result family port (libc.pton family (c_str host))
  ]

  unfoldable pub tcp_address : Option (Family × Text × ℕ) → ParseResult
  unfolding convert
  tcp_address none = failure einval
  tcp_address (some parts) = convert parts

  unfoldable pub try_parse_as_tcp_address : Text → ℕ → Option ParseResult
  unfolding extract_family_host_and_port tcp_address
  try_parse_as_tcp_address conn_str hint =
      if starts_with tcp_prefix conn_str
      then some
          (tcp_address (extract_family_host_and_port libc (drop (length tcp_prefix) conn_str) hint))
      else none

  unfoldable pub parse : Text → ℕ → ParseResult
  unfolding try_parse_as_unix_domain try_parse_as_abstract_unix_domain try_parse_as_tcp_address
      first_of
  parse conn_str hint = first_of (try_parse_as_unix_domain conn_str) (
      first_of (try_parse_as_abstract_unix_domain conn_str)
        (first_of (try_parse_as_tcp_address conn_str hint) (failure einval)))
