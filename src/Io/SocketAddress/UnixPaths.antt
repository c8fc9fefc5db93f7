-- ===== src/Io/SocketAddress/UnixPaths.antt =====
-- The paths of Unix domain sockets in src/common/io/socket_address.cpp, as they are parsed and printed.
use yakut_native.Base.{
  ℕ, suc, ◌+◌, ◌-◌, ◌<◌, ◌≡◌, ◌≢◌, refl, ap, ◌∙◌, [], ◌∷◌, ◌++◌, true, false, ltb, ◌==◌, ==_ne,
  length, take, take-append, take-take, zeros, arith, Text, pad, Lacks, c_str-Lacks, take-pad,
}
use yakut_native.Io.SocketAddress.{
  Libc, unix, SocketAddress, success, is_unix, offset_path, sizeof_path, unix_prefix,
  abstract_prefix, unix_address, abstract_address, try_parse_as_unix_domain,
  try_parse_as_abstract_unix_domain, first_of, parse, print_storage, prefix_and_path, to_string,
}

-- A connection string with a path that fits, and what is printed of its address: the path of a file
-- with the NUL that ends it, or a name in the abstract namespace, which may have NUL characters.
pub data Local : Text → Text → Type 0 where
  file :
      (path : Text)
      → path ≢ []
      → Lacks 0 path
      → length path < sizeof_path
      → Local (unix_prefix ++ path) (unix_prefix ++ (path ++ 0 ∷ []))
  in_abstract :
      (path : Text)
      → length path < sizeof_path - 1
      → Local (abstract_prefix ++ path) (abstract_prefix ++ path)

abbrev local_address : ℕ → Text → SocketAddress
local_address len path = record {
  is_wildcard = false;
  addr_len = offset_path + len + 1;
  storage = unix path;
}

unix_address-file :
    (path : Text)
    → Lacks 0 path
    → length path < sizeof_path
    → unix_address path ≡ success (local_address (length path) (pad sizeof_path path))
unfolding unix_address
unix_address-file path l h = rw (c_str-Lacks path l, fits) refl
  where
    fits : ltb sizeof_path (length path + 1) ≡ false
    fits = ground arith

abstract_address-in_abstract :
    (path : Text)
    → length path < sizeof_path - 1
    → abstract_address path ≡ success (local_address (length path) (pad sizeof_path (0 ∷ path)))
unfolding abstract_address
abstract_address-in_abstract path h = rw fits refl
  where
    fits : ltb (sizeof_path - 1) (length path + 1) ≡ false
    fits = ground arith

path_len : (k : ℕ) → offset_path + k + 1 - offset_path ≡ suc k
path_len k = omega arith

not_empty : (k : ℕ) → (suc k == 0) ≡ false
not_empty k = ground arith

less_one : (k : ℕ) → suc k - 1 ≡ k
less_one k = omega arith

-- What is printed of an array that starts with a path.
print-file :
    (k c : ℕ) (path t : Text)
    → c ≢ 0
    → take (suc k) (c ∷ path) ≡ t
    → prefix_and_path (offset_path + k + 1) (c ∷ path) ≡ (unix_prefix, t)
unfolding prefix_and_path
print-file k c path t n e = rw (path_len k, not_empty k, ==_ne c 0 n) (ap (λ u. (unix_prefix, u)) e)

print-in_abstract :
    (k : ℕ) (path t : Text)
    → take k path ≡ t
    → prefix_and_path (offset_path + k + 1) (0 ∷ path) ≡ (abstract_prefix, t)
unfolding prefix_and_path
print-in_abstract k path t e =
    rw (path_len k, not_empty k, less_one k) (ap (λ u. (abstract_prefix, u)) e)

module _ (libc : Libc) where
  parse-file : (path : Text) (hint : ℕ) → parse libc (unix_prefix ++ path) hint ≡ unix_address path
  unfolding parse try_parse_as_unix_domain first_of
  parse-file path hint = refl

  parse-in_abstract :
      (path : Text) (hint : ℕ) → parse libc (abstract_prefix ++ path) hint ≡ abstract_address path
  unfolding parse try_parse_as_unix_domain try_parse_as_abstract_unix_domain first_of
  parse-in_abstract path hint = refl

  to_string-local :
      (len : ℕ) (path prefix t : Text)
      → prefix_and_path (offset_path + len + 1) path ≡ (prefix, t)
      → to_string libc (local_address len path) ≡ prefix ++ t
  unfolding to_string print_storage
  to_string-local len path prefix t e = ap (λ p. p.0 ++ p.1) e

  file-shown :
      (path : Text)
      → path ≢ []
      → Lacks 0 path
      → length path < sizeof_path
      → prefix_and_path (offset_path + length path + 1) (pad sizeof_path path)
        ≡ (unix_prefix, path ++ 0 ∷ [])
  unfolding pad
  file-shown [] n l h = absurd (n refl)
  file-shown (c ∷ path) n l h =
      print-file (suc (length path)) c (take 107 (path ++ zeros 108)) (c ∷ path ++ 0 ∷ []) l.0
        (take-pad sizeof_path (c ∷ path) h)

  in_abstract-shown :
      (path : Text)
      → length path < sizeof_path - 1
      → prefix_and_path (offset_path + length path + 1) (pad sizeof_path (0 ∷ path))
        ≡ (abstract_prefix, path)
  unfolding pad
  in_abstract-shown path h = print-in_abstract (length path) (take 107 (path ++ zeros 108)) path (
      take-take (length path) 107 (path ++ zeros 108) (omega (arith, h))
      ∙ take-append path (zeros 108))

  -- A Unix domain path that fits is parsed, whatever the port hint. A name in the abstract namespace is
  -- printed as it was written; the path of a file is printed with the NUL that ends it.
  pub to_string-Local :
      (s shown : Text) (hint : ℕ)
      → Local s shown
      → (a : SocketAddress) × (parse libc s hint ≡ success a)
        × (is_unix a ≡ true)
        × (to_string libc a ≡ shown)
  to_string-Local s shown hint (file path n l h) = (
    local_address (length path) (pad sizeof_path path),
    parse-file path hint ∙ unix_address-file path l h,
    refl,
    to_string-local (length path) (pad sizeof_path path) unix_prefix (path ++ 0 ∷ [])
        (file-shown path n l h),
  )
  to_string-Local s shown hint (in_abstract path h) = (
    local_address (length path) (pad sizeof_path (0 ∷ path)),
    parse-in_abstract path hint ∙ abstract_address-in_abstract path h,
    refl,
    to_string-local (length path) (pad sizeof_path (0 ∷ path)) abstract_prefix path
        (in_abstract-shown path h),
  )
