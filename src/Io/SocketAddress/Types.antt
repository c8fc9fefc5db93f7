-- ===== src/Io/SocketAddress/Types.antt =====
-- The data of `SocketAddress` (src/common/io/socket_address.hpp), with the sizes and prefixes that
-- src/common/io/socket_address.cpp uses.
use yakut_native.Base.{ℕ, Bool, Option, Text, codes}

-- What `inet_pton` returns: 1, 0, or -1 with `errno`.
pub data Conversion : Type 0 where
  converted : Text → Conversion
  no_address : Conversion
  refused : ℕ → Conversion

pub data Family : Type 0 where
  inet4 inet6 : Family

pub record Libc : Type 0 where
  -- inet_pton, and inet_ntop, which may refuse.
  pub pton : Family → Text → Conversion
  pub ntop : Family → Text → Option Text
  -- The value that strtoull reads in base 0, and the text that its `end_ptr` points to.
  pub strtoull : Text → ℕ × Text
  -- fmt's "{}" of a number.
  pub decimal : ℕ → Text

pub data Storage : Type 0 where
  unspecified : Storage
  inet : Family → ℕ → Text → Storage
  unix : Text → Storage

pub record SocketAddress : Type 0 where
  pub is_wildcard : Bool
  pub addr_len : ℕ
  pub storage : Storage

-- `SocketAddress` or an errno.
pub data ParseResult : Type 0 where
  success : SocketAddress → ParseResult
  failure : ℕ → ParseResult

-- sizeof(sockaddr_in), sizeof(sockaddr_in6), offsetof(sockaddr_un, sun_path), sizeof(sun_path) and
-- sizeof(sockaddr_storage), on Linux.
abbrev pub sizeof_inet : Family → ℕ
sizeof_inet inet4 = 16
sizeof_inet inet6 = 28

abbrev pub offset_path : ℕ
offset_path = 2

abbrev pub sizeof_path : ℕ
sizeof_path = 108

abbrev pub sizeof_storage : ℕ
sizeof_storage = 128

abbrev pub max_port : ℕ
max_port = 65535

abbrev pub unix_prefix : Text
unix_prefix = codes "unix:"

abbrev pub abstract_prefix : Text
abstract_prefix = codes "unix-abstract:"

abbrev pub tcp_prefix : Text
tcp_prefix = codes "tcp://"
