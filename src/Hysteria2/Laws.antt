-- ===== src/Hysteria2/Laws.antt =====
-- clash-lib/src/proxy/hysteria2/codec.rs: what the codec relies on of `quinn-proto` and of the
-- standard library's texts of ports and socket addresses.
use clash_rs.Prelude.{ℕ, ◌<◌, ◌^◌, ◌≡◌, true, false, some, none, ◌++◌, length}
use clash_rs.Prelude.Text.{Text, codes}
use clash_rs.Session.{SocketAddr, SocksAddr, domain}
use clash_rs.Session.Codec.{IpFits}
use clash_rs.Session.Buffer.{is_utf8}
use clash_rs.Hysteria2.{Codecs, var_size, to_string}
use clash_rs.Hysteria2.Slots.{mem}

abbrev pub IsSocket : SocketAddr → Type 0
IsSocket a = IpFits a.ip × (a.port < 2 ^ 16)

-- A number below 2⁶² is read back with what follows it, and its encoding has the size that
-- `var_size` tells. A port is printed without a colon and read back. A socket address is printed as
-- its host, a colon and its port, and read back.
pub record Laws (codecs : Codecs) : Type 0 where
  pub decode_var-encode_var :
      (n : ℕ) (rest : Text)
      → n < 2 ^ 62
      → codecs.decode_var (codecs.encode_var n ++ rest) ≡ some (n, rest)
  pub length-encode_var :
      (n size : ℕ) → var_size n ≡ some size → length (codecs.encode_var n) ≡ size
  pub parse_port-print_port :
      (p : ℕ) → p < 2 ^ 16 → codecs.parse_port (codecs.print_port p) ≡ some p
  pub port_without_colon : (p : ℕ) → mem b':' (codecs.print_port p) ≡ false
  pub port_is_utf8 : (p : ℕ) → is_utf8 (codecs.print_port p) ≡ true
  pub socket_host : SocketAddr → Text
  pub print_socket-host :
      (a : SocketAddr)
      → codecs.print_socket a ≡ socket_host a ++ (codes ":" ++ codecs.print_port a.port)
  pub socket_is_utf8 : (a : SocketAddr) → is_utf8 (codecs.print_socket a) ≡ true
  pub parse_socket-print_socket :
      (a : SocketAddr) → IsSocket a → codecs.parse_socket (codecs.print_socket a) ≡ some a

-- The addresses that have a text of their own: a domain that is a text and, with its port, not the
-- text of a socket address.
abbrev pub IsAddress : Codecs → SocksAddr → Type 0
IsAddress codecs (SocksAddr.ip a) = IsSocket a
IsAddress codecs (domain d p) =
    (is_utf8 d ≡ true) × (p < 2 ^ 16) × (codecs.parse_socket (to_string codecs (domain d p)) ≡ none)
