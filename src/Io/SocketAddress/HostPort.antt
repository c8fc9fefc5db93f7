-- ===== src/Io/SocketAddress/HostPort.antt =====
-- `SocketAddress::extractFamilyHostAndPort` of src/common/io/socket_address.cpp.
use yakut_native.Base.{
  ℕ, ◌+◌, ◌-◌, [], ◌∷◌, Option, none, some, ltb, ◌==◌, if◌then◌else◌, take, drop, Text, find_first,
  find_last, c_str,
}
use yakut_native.Io.SocketAddress.Types.{Family, inet4, inet6, Libc, max_port}

-- The first half of `extractFamilyHostAndPort`: the family, the host and port_part. `none` stands
-- for AF_UNSPEC.
unfoldable pub split_bracketed : Text → Option (Family × Text × Text)
split_bracketed str = elim (find_last b']' str) [
  | none ↦ none
  | some end ↦
      let host = take (end - 1) (drop 1 str) in
      elim (drop (end + 1) str) [
        | [] ↦ some (inet6, host, [])
        | c ∷ port_part ↦ if c == b':' then some (inet6, host, port_part) else none
      ]
]

unfoldable pub split_plain : Text → Family × Text × Text
split_plain str = elim (find_first b':' str) [
  | none ↦ (inet4, str, [])
  | some colon ↦ elim (find_first b':' (drop (colon + 1) str)) [
    | none ↦ (inet4, take colon str, drop (colon + 1) str)
    | some second ↦ (inet6, str, [])
  ]
]

unfoldable pub split_host_port : Text → Option (Family × Text × Text)
unfolding split_bracketed split_plain
split_host_port str = elim (find_first b'[' str) [
  | none ↦ some (split_plain str)
  | some start ↦ if start == 0 then split_bracketed str else some (split_plain str)
]

-- What `strtoull` read is the port if it read the whole text and the value is small enough.
unfoldable pub port_value : ℕ → Text → Option ℕ
port_value value [] = if ltb max_port value then none else some value
port_value value (c ∷ rest) = none

module _ (libc : Libc) where
  -- Its second half: the port, where `port_part` names one.
  unfoldable pub parse_port : Text → ℕ → Option ℕ
  unfolding port_value
  parse_port [] hint = some hint
  parse_port (c ∷ port_part) hint =
      let read = libc.strtoull (c_str (c ∷ port_part)) in port_value read.0 read.1

  unfoldable pub with_port : ℕ → Family × Text × Text → Option (Family × Text × ℕ)
  unfolding parse_port
  with_port hint (family, host, port_part) = elim (parse_port port_part hint) [
    | none ↦ none
    | some port ↦ some (family, host, port)
  ]

  unfoldable pub extract_family_host_and_port : Text → ℕ → Option (Family × Text × ℕ)
  unfolding split_host_port with_port
  extract_family_host_and_port str hint = elim (split_host_port str) [
    | none ↦ none
    | some parts ↦ with_port hint parts
  ]
