-- ===== src/Trojan/Examples.antt =====
-- clash-lib/src/proxy/trojan: two packets over a stream, and one that is sent in two attempts.
use clash_rs.Prelude.{
  Option, none, some, false, List, [], ◌∷◌, ◌++◌, ◌≡◌, refl, length, take, replicate,
  length-replicate, arith,
}
use clash_rs.Prelude.Text.{Text, codes}
use clash_rs.Prelude.Outcome.{ok}
use clash_rs.Session.{IpAddr, v4, SocksAddr, socks_ip, write_buf}
use clash_rs.Session.Buffer.{is_utf8}
use clash_rs.Streams.{UdpPacket, wrote, blocked, done, drain}
use clash_rs.Trojan.{Sink, frame, poll_flush, atyp}
use clash_rs.Trojan.Sends.{
  AllClean, Attempt, idle, busy, flush_all, repeats, send_all, flush_all-repeats,
}
use clash_rs.Trojan.Receives.{IsSendable, recv_all, recv_all-send_all_clean}
use clash_rs.Trojan.Header.{
  header, handshake, encode_hex, handshake-header, handshake-authenticated,
}

abbrev no_ip : Text → Option IpAddr
no_ip d = none

abbrev client : SocksAddr
client = socks_ip (v4 1) 1000

abbrev ping : UdpPacket
ping = record {
  payload = codes "ping";
  src_addr = client;
  dst_addr = SocksAddr.domain (codes "a.io") 53;
}

abbrev pong : UdpPacket
pong = record { payload = codes "pong"; src_addr = client; dst_addr = socks_ip (v4 8) 53 }

-- One call takes all the bytes.
abbrev at_once : List Attempt
at_once = ((wrote 100 ∷ []), done) ∷ []

-- The first attempt gives five bytes to the stream below.
abbrev in_two : List Attempt
in_two = ((wrote 5 ∷ (blocked ∷ [])), done) ∷ (((wrote 100 ∷ []), done) ∷ [])

abbrev sent : Sink
sent = idle (frame ping ++ frame pong)

send_all_runs : send_all ((ping, at_once) ∷ ((pong, at_once) ∷ [])) (idle []) ≡ some sent
unfolding send_all flush_all poll_flush drain frame write_buf
send_all_runs = refl

ping-IsSendable : IsSendable no_ip ping
unfolding is_utf8
ping-IsSendable = record {
  encodable = (omega arith, refl, omega arith);
  plain = refl;
  short = omega arith;
}

pong-IsSendable : IsSendable no_ip pong
pong-IsSendable = record { encodable = (omega arith, omega arith); plain = tt; short = omega arith }

sent-AllClean : AllClean ((ping, at_once) ∷ ((pong, at_once) ∷ []))
unfolding repeats drain frame write_buf
sent-AllClean = (refl, (refl, tt))

recv_all-send_all_clean_example :
    recv_all no_ip client 2
      (record { state = atyp; input = record { avail = sent.wire ++ []; later = [] } })
    ≡ (
      record ping { src_addr = client } ∷ (record pong { src_addr = client } ∷ []),
      record { state = atyp; input = record { avail = []; later = [] } },
    )
recv_all-send_all_clean_example =
    recv_all-send_all_clean no_ip client [] ((ping, at_once) ∷ ((pong, at_once) ∷ [])) sent []
      (ping-IsSendable, (pong-IsSendable, tt)) sent-AllClean send_all_runs

flushed_twice :
    flush_all in_two (busy [] none ping) ≡ (done, idle (take 5 (frame ping) ++ frame ping))
unfolding flush_all poll_flush drain frame write_buf
flushed_twice = refl

flush_all-repeats_example :
    idle (take 5 (frame ping) ++ frame ping)
    ≡ idle ([] ++ (repeats (frame ping) in_two ++ frame ping))
flush_all-repeats_example =
    flush_all-repeats in_two [] none ping (idle (take 5 (frame ping) ++ frame ping)) flushed_twice

-- A digest of the right length.
abbrev digest : Text → Text
digest s = replicate 28 (length s)

handshake-header_example :
    handshake digest (codes "secret") (header digest (codes "secret") false client ++ codes "GET")
    ≡ ok (client, codes "GET")
handshake-header_example =
    handshake-header digest (λ s. length-replicate 28 (length s)) (codes "secret") false client
      (codes "GET") (omega arith, omega arith)

handshake-authenticated_example :
    take 56 (header digest (codes "secret") false client ++ codes "GET")
    ≡ encode_hex (digest (codes "secret"))
handshake-authenticated_example =
    handshake-authenticated digest (codes "secret")
      (header digest (codes "secret") false client ++ codes "GET") client (codes "GET")
      handshake-header_example
