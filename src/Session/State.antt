-- ===== src/Session/State.antt =====
-- clash-lib/src/session.rs: the session that the router matches.
--
-- The inbound type, the traffic statistics and the start time are left out: the router reads none.
use clash_rs.Prelude.{ℕ, Option}
use clash_rs.Prelude.Text.{Text}
use clash_rs.Session.{IpAddr, SocketAddr, SocksAddr}

pub data Network : Type 0 where
  tcp udp : Network

pub record Session : Type 0 where
  pub id : ℕ
  pub network : Network
  pub source : SocketAddr
  pub destination : SocksAddr
  pub resolved_ip : Option IpAddr
  pub so_mark : Option ℕ
  pub iface : Option Text
  pub asn : Option Text
