-- ===== src/Hysteria2/Packet.antt =====
-- clash-lib/src/proxy/hysteria2/codec.rs: `HysUdpPacket::decode` reads what the fragments write.
use clash_rs.Prelude.{
  ℕ, ◌+◌, ◌<◌, ◌^◌, ◌%◌, ◌≡◌, refl, ◌==◌, ==_iff, ltb, false, some, none, [], ◌∷◌, ◌++◌,
  append_assoc, length, arith,
}
use native.Mathlib.Nat.{mod-eq_of_lt}
use clash_rs.Prelude.Text.{Text, codes}
use clash_rs.Prelude.Words.{be_bytes}
use clash_rs.Prelude.Outcome.{ok}
use clash_rs.Session.{SocketAddr, SocksAddr, domain}
use clash_rs.Session.Buffer.{is_utf8, is_utf8-append}
use clash_rs.Session.Codec.{get_be-be_bytes, copy_bytes-append}
use clash_rs.Hysteria2.{
  Codecs, HysUdpPacket, Iter, rsplit_once, to_string, to_socksaddr, decode, header,
}
use clash_rs.Hysteria2.Laws.{Laws, IsAddress}
use clash_rs.Hysteria2.Slots.{mem}

rsplit_once-none : (sep : ℕ) (p : Text) → mem sep p ≡ false → rsplit_once sep p ≡ none
rsplit_once-none sep [] h = refl
rsplit_once-none sep (c ∷ p) h =
    let (differ, rest) : ((c == sep) ≡ false) × (mem sep p ≡ false) = ground arith in
    rw (rsplit_once-none sep p rest, differ)

pub rsplit_once-append :
    (sep : ℕ) (h p : Text) → mem sep p ≡ false → rsplit_once sep (h ++ (sep ∷ p)) ≡ some (h, p)
rsplit_once-append sep [] p none_in = rw (rsplit_once-none sep p none_in, (==_iff sep sep).1 refl)
rsplit_once-append sep (c ∷ h) p none_in = rw (rsplit_once-append sep h p none_in)

module _ (codecs : Codecs) (laws : Laws codecs) where
  rsplit_once-text :
      (h : Text) (p : ℕ)
      → p < 2 ^ 16
      → rsplit_once b':' (h ++ (codes ":" ++ codecs.print_port p)) ≡ some (h, codecs.print_port p)
  rsplit_once-text h p fits =
      rsplit_once-append b':' h (codecs.print_port p) (laws.port_without_colon p)

  socket_text :
      (a : SocketAddr)
      → a.port < 2 ^ 16
      → rsplit_once b':' (codecs.print_socket a)
        ≡ some (laws.socket_host a, codecs.print_port a.port)
  socket_text a fits =
      rw (laws.print_socket-host a) (rsplit_once-text (laws.socket_host a) a.port fits)

  -- `to_socksaddr` reads back the text of an address.
  pub to_socksaddr-to_string :
      (a : SocksAddr) → IsAddress codecs a → to_socksaddr codecs (to_string codecs a) ≡ ok a
  unfolding to_socksaddr is_utf8
  to_socksaddr-to_string (SocksAddr.ip a) (ip, port) = rw (
    laws.socket_is_utf8 a,
    socket_text a port,
    laws.parse_port-print_port a.port port,
    laws.parse_socket-print_socket a (ip, port),
  )
  to_socksaddr-to_string (domain d p) (utf8, port, no_socket) = rw (
    is_utf8-append d (codes ":" ++ codecs.print_port p) utf8
        (is_utf8-append (codes ":") (codecs.print_port p) refl (laws.port_is_utf8 p)),
    rsplit_once-text d p port,
    laws.parse_port-print_port p port,
    no_socket,
  )

  -- The packet that a datagram of the fragments carries.
  abbrev pub packet : Iter → SocksAddr → ℕ → Text → HysUdpPacket
  packet it a frag_id payload = record {
    session_id = it.session_id;
    pkt_id = it.pkt_id;
    frag_id = frag_id;
    frag_count = it.frag_total;
    addr = a;
    payload = payload;
  }

  header_long :
      (it : Iter) (i : ℕ) (s : Text)
      → ltb (length (header codecs it i ++ s)) (4 + 2 + 1 + 1) ≡ false
  header_long it i s = ground arith

  -- `decode` reads from a header and the payload behind it the packet that they were made of.
  pub decode-header :
      (it : Iter) (a : SocksAddr) (i : ℕ) (s : Text)
      → it.addr ≡ to_string codecs a
      → IsAddress codecs a
      → length it.addr < 2 ^ 32
      → it.session_id < 256 ^ 4
      → it.pkt_id < 256 ^ 2
      → decode codecs (header codecs it i ++ s) ≡ ok (packet it a i s)
  unfolding decode
  decode-header it a i s text address short session pkt = rw (
    header_long it i s,
    append_assoc (be_bytes 4 it.session_id)
        (be_bytes 2 it.pkt_id
          ++ (i ∷ it.frag_total ∷ (codecs.encode_var (length it.addr % 2 ^ 32) ++ it.addr)))
        s,
    get_be-be_bytes 4 it.session_id
        ((be_bytes 2 it.pkt_id
            ++ (i ∷ it.frag_total ∷ (codecs.encode_var (length it.addr % 2 ^ 32) ++ it.addr)))
          ++ s)
        session,
    append_assoc (be_bytes 2 it.pkt_id)
        (i ∷ it.frag_total ∷ (codecs.encode_var (length it.addr % 2 ^ 32) ++ it.addr)) s,
    get_be-be_bytes 2 it.pkt_id
        (i ∷ it.frag_total ∷ ((codecs.encode_var (length it.addr % 2 ^ 32) ++ it.addr) ++ s)) pkt,
    append_assoc (codecs.encode_var (length it.addr % 2 ^ 32)) it.addr s,
    mod-eq_of_lt short,
    laws.decode_var-encode_var (length it.addr) (it.addr ++ s) (omega arith),
    copy_bytes-append it.addr s (length it.addr) refl,
    text,
    to_socksaddr-to_string a address,
  )
