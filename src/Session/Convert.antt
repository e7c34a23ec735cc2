-- ===== src/Session/Convert.antt =====
-- clash-lib/src/session.rs: the other conversions of `SocksAddr`: from a byte slice, from a host and
-- a port, from a text, and `clone`.
use clash_rs.Prelude.{
  ℕ, ◌+◌, Option, none, some, List, [], ◌∷◌, ltb, ◌==◌, if◌then◌else◌, length, get_elem?, ◌++◌, any,
}
use clash_rs.Prelude.Text.{Text, codes, split_on}
use clash_rs.Prelude.Words.{from_be}
use clash_rs.Prelude.Outcome.{Outcome, ok, err, panic, ◌>>=◌, or_panic, ok_or}
use clash_rs.Session.Buffer.{IoError, other, insuff_bytes, domain_too_long, slice, is_utf8}
use clash_rs.Session.{
  IpAddr, v4, v6, SocketAddr, SocksAddr, domain, socks_ip, type_v4, type_v6, type_domain,
}

unfoldable pub index : ℕ → Text → Outcome IoError ℕ
index i buf = or_panic (get_elem? buf i)

unfoldable pub slice_ip : ℕ → (ℕ → IpAddr) → Text → Outcome IoError SocksAddr
slice_ip n family buf = if ltb (length buf) (1 + n + 2) then err insuff_bytes else (do
  a ← slice 1 (1 + n) buf
  p ← slice (1 + n) (1 + n + 2) buf
  ok (socks_ip (family (from_be a)) (from_be p)))

-- The check asks for `1 + domain_len + 2` bytes, the reads go up to `domain_len + 4`.
unfoldable pub slice_domain : Text → Outcome IoError SocksAddr
unfolding index
slice_domain buf = do
  domain_len ← index 1 buf
  if ltb (length buf) (1 + domain_len + 2) then err insuff_bytes else (do
    d ← slice 2 (domain_len + 2) buf
    if is_utf8 d
        then (do p ← slice (domain_len + 2) (domain_len + 4) buf; ok (domain d (from_be p)))
        else err other)

-- `TryFrom<&[u8]>`
unfoldable pub try_from : Text → Outcome IoError SocksAddr
unfolding slice_ip slice_domain
try_from [] = err insuff_bytes
try_from (atyp ∷ rest) =
    let buf = atyp ∷ rest in
    if atyp == type_v4
    then slice_ip 4 v4 buf
    else if atyp == type_v6
    then slice_ip 16 v6 buf
    else if atyp == type_domain
    then slice_domain buf
    else err other

module _ (parse_ip : Text → Option IpAddr) where
  -- `SocksAddr::ip`
  unfoldable pub ip_of : SocksAddr → Option IpAddr
  ip_of (SocksAddr.ip a) = some a.ip
  ip_of (domain d p) = parse_ip d

  -- `TryFrom<(String, u16)>`
  unfoldable pub try_from_host : Text → ℕ → Outcome IoError SocksAddr
  try_from_host host port = elim (parse_ip host) [
    | some a ↦ ok (socks_ip a port)
    | none ↦ if ltb 0xff (length host) then err domain_too_long else ok (domain host port)
  ]

  -- `Clone`, whose `unwrap` panics on an error
  unfoldable pub clone : SocksAddr → Outcome IoError SocksAddr
  unfolding try_from_host
  clone (SocksAddr.ip a) = ok (SocksAddr.ip a)
  clone (domain d p) = elim (try_from_host d p) [ ok a ↦ ok a | err e ↦ panic | panic ↦ panic ]

-- `FromStr`: `parse_socket` and `parse_port` are `SocketAddr::from_str` and `parse::<u16>`.
module _ (parse_socket : Text → Option SocketAddr) (parse_port : Text → Option ℕ) where
  from_tokens : List Text → Outcome IoError SocksAddr
  from_tokens (host ∷ port ∷ []) = do p ← ok_or other (parse_port port); ok (domain host p)
  from_tokens tokens = err other

  unfoldable pub from_str : Text → Outcome IoError SocksAddr
  unfolding from_tokens
  from_str text =
      let s = if any (λ c. c == b':') text then text else text ++ codes ":80" in
      elim (parse_socket s) [ some a ↦ ok (SocksAddr.ip a) | none ↦ from_tokens (split_on b':' s) ]
