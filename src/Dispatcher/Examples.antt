-- ===== src/Dispatcher/Examples.antt =====
-- clash-lib/src/app/dispatcher/dispatcher_impl.rs: two packets of one client.
use clash_rs.Prelude.{true, none, ◌≡◌, refl}
use clash_rs.Prelude.Text.{codes}
use clash_rs.Session.{SocketAddr, SocksAddr, v4, socks_ip}
use clash_rs.Session.State.{Session, udp}
use clash_rs.Streams.{UdpPacket}
use clash_rs.Dispatcher.Datagrams.{HandleMap, new, insert, clean, forward}

abbrev client : SocketAddr
client = record { ip = v4 1; port = 5000 }

abbrev sess_to : SocksAddr → Session
sess_to dest = record {
  id = 1;
  network = udp;
  source = client;
  destination = dest;
  resolved_ip = none;
  so_mark = none;
  iface = none;
  asn = none;
}

abbrev packet_to : SocksAddr → UdpPacket
packet_to dest = record { payload = codes "ping"; src_addr = SocksAddr.ip client; dst_addr = dest }

abbrev first_server : SocksAddr
first_server = socks_ip (v4 8) 53

abbrev other_server : SocksAddr
other_server = socks_ip (v4 9) 53

abbrev opened : HandleMap
opened =
    forward (codes "DIRECT") client first_server (sess_to first_server) (packet_to first_server)
      true 5 new

-- The cleaner keeps a session for ten seconds.
cleaned : clean 15 opened (codes "DIRECT") client ≡ none
unfolding clean forward insert new
cleaned = refl
