-- ===== src/Session.antt =====
-- clash-lib/src/session.rs: the destination address of a session and its SOCKS5 encoding.
--
-- An IP address is the number of its bytes, the highest first, with its family. A `String` is the
-- list of its bytes. A stream is the list of the bytes to come; a read past its end is the error
-- `unexpected_eof`. The constructor `panic` of `Outcome` stands where the source would index or
-- read past the end of a buffer. `parse_ip` is `str::parse::<IpAddr>`, a parameter.
pub mod Buffer
pub mod Convert
pub mod State
pub mod Codec
pub mod Panics
mod Examples
use clash_rs.Prelude.{
  ℕ, zero, suc, ◌+◌, ◌%◌, ◌<◌, ◌^◌, ◌≡◌, Bool, true, false, Option, none, some, List, [], ◌∷◌, ◌++◌,
  ltb, ◌==◌, if◌then◌else◌, length, or_else,
}
use clash_rs.Prelude.Text.{Text}
use clash_rs.Prelude.Words.{be_bytes}
use clash_rs.Prelude.Outcome.{Outcome, ok, err, panic, ◌>>=◌}
use clash_rs.Session.Buffer.{
  IoError, other, unexpected_eof, invalid_domain, invalid_atyp, insuff_bytes, read_u8, read_be,
  read_exact, get_u8, get_be, copy_bytes, slice, is_utf8,
}

pub data IpAddr : Type 0 where
  v4 : ℕ → IpAddr
  v6 : ℕ → IpAddr

pub record SocketAddr : Type 0 where
  pub ip : IpAddr
  pub port : ℕ

pub data SocksAddr : Type 0 where
  ip : SocketAddr → SocksAddr
  domain : Text → ℕ → SocksAddr

-- `SocksAddrType`
abbrev pub type_v4 : ℕ
type_v4 = 1

abbrev pub type_domain : ℕ
type_domain = 3

abbrev pub type_v6 : ℕ
type_v6 = 4

abbrev pub socks_ip : IpAddr → ℕ → SocksAddr
socks_ip a p = SocksAddr.ip (record { ip = a; port = p })

abbrev pub any_ipv4 : SocksAddr
any_ipv4 = socks_ip (v4 0) 0

abbrev pub any_ipv6 : SocksAddr
any_ipv6 = socks_ip (v6 0) 0

abbrev pub write_ip : IpAddr → ℕ → Text
write_ip (v4 a) p = type_v4 ∷ (be_bytes 4 a ++ be_bytes 2 p)
write_ip (v6 a) p = type_v6 ∷ (be_bytes 16 a ++ be_bytes 2 p)

-- The bytes that `write_buf` appends; the length of a domain is cast to a byte.
unfoldable pub write_buf : SocksAddr → Text
write_buf (SocksAddr.ip a) = write_ip a.ip a.port
write_buf (domain d p) = type_domain ∷ (length d % 256) ∷ (d ++ be_bytes 2 p)

abbrev pub ip_size : IpAddr → ℕ
ip_size (v4 a) = 7
ip_size (v6 a) = 19

unfoldable pub size : SocksAddr → ℕ
size (SocksAddr.ip a) = ip_size a.ip
size (domain d p) = 4 + length d

abbrev pub is_domain : SocksAddr → Bool
is_domain (SocksAddr.ip a) = false
is_domain (domain d p) = true

abbrev pub domain_of : SocksAddr → Option Text
domain_of (SocksAddr.ip a) = none
domain_of (domain d p) = some d

abbrev pub port_of : SocksAddr → ℕ
port_of (SocksAddr.ip a) = a.port
port_of (domain d p) = p

abbrev pub try_into_socket_addr : SocksAddr → Option SocketAddr
try_into_socket_addr (SocksAddr.ip a) = some a
try_into_socket_addr (domain d p) = none

-- The length of the read is compared with the length asked for, as in the source.
read_domain : Text → Outcome IoError (SocksAddr × Text)
read_domain s = do
  (len, s) ← read_u8 s
  (buf, s) ← read_exact len s
  if length buf == len
      then (if is_utf8 buf
          then (do (p, s) ← read_be 2 s; ok (domain buf p, s))
          else err invalid_domain)
      else err other

read_ip : ℕ → (ℕ → IpAddr) → Text → Outcome IoError (SocksAddr × Text)
read_ip n family s = do (a, s) ← read_be n s; (p, s) ← read_be 2 s; ok (socks_ip (family a) p, s)

-- From a stream: the address and what is left of the stream.
unfoldable pub read_from : Text → Outcome IoError (SocksAddr × Text)
unfolding read_domain read_ip
read_from s = do
  (atyp, s) ← read_u8 s
  if atyp == type_v4
      then read_ip 4 v4 s
      else if atyp == type_v6
      then read_ip 16 v6 s
      else if atyp == type_domain
      then read_domain s
      else err invalid_atyp

peek_ip : ℕ → (ℕ → IpAddr) → Text → Outcome IoError SocksAddr
peek_ip n family cur =
    if ltb (length cur) (n + 2)
    then err other
    else (do (a, cur) ← get_be n cur; (p, cur) ← get_be 2 cur; ok (socks_ip (family a) p))

-- `cur.get_u16()` comes after a check of the domain's bytes only.
peek_domain : Text → Outcome IoError SocksAddr
peek_domain cur = do
  (len, cur) ← get_u8 cur
  if ltb (length cur) len then err other else (do
    (buf, cur) ← copy_bytes len cur
    (p, cur) ← get_be 2 cur
    if is_utf8 buf then ok (domain buf p) else err invalid_domain)

-- `peek_read`, on a cursor at the start of the buffer.
unfoldable pub peek_read : Text → Outcome IoError SocksAddr
unfolding peek_ip peek_domain
peek_read buf = if ltb (length buf) 2 then err other else (do
  (atyp, cur) ← get_u8 buf
  if atyp == type_v4
      then peek_ip 4 v4 cur
      else if atyp == type_v6
      then peek_ip 16 v6 cur
      else if atyp == type_domain
      then peek_domain cur
      else err invalid_atyp)
