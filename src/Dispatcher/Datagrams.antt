-- ===== src/Dispatcher/Datagrams.antt =====
-- clash-lib/src/app/dispatcher/dispatcher_impl.rs: `dispatch_datagram` and its map of UDP sessions.
--
-- The map is a function from its keys. A session stands for the two tasks and the channel: it has
-- what the tasks captured, and the packets that the channel was given. `now` is the time in
-- seconds; `duration_since` is 0 for a later time. The connection of a handler (`connected`) and
-- the choice of a group's proxy (`active_proxy`) are parameters.
use clash_rs.Prelude.{
  ℕ, ◌==◌, ◌-◌, ltb, Bool, ◌&&◌, Option, none, some, List, [], ◌∷◌, ◌++◌, if◌then◌else◌,
}
use clash_rs.Prelude.Text.{Text, text_eq}
use clash_rs.Prelude.Map.{Map}
use clash_rs.Prelude.Outcome.{Outcome, ok, err, panic, or_panic, ◌>>=◌}
use clash_rs.Session.{IpAddr, SocketAddr, SocksAddr, try_into_socket_addr}
use clash_rs.Session.State.{Session}
use clash_rs.Streams.{UdpPacket}
use clash_rs.FakeIp.{Store}
use clash_rs.FakeIp.Laws.{ip_eq}
use clash_rs.Dns.Enhanced.{State}
use clash_rs.Router.{Env, Mmdb, Rule}
use clash_rs.Dispatcher.{RunMode, Unresolved, lookup_destination, choose, outbound_or_direct}

pub record OutboundHandle : Type 0 where
  pub sess : Session
  pub orig_dest : SocksAddr
  pub sent : List UdpPacket
  pub last : ℕ

abbrev pub HandleMap : Type 0
HandleMap = Text → SocketAddr → Option OutboundHandle

abbrev pub key_eq : Text → SocketAddr → Text → SocketAddr → Bool
key_eq name src name' src' = text_eq name name' && (ip_eq src.ip src'.ip && src.port == src'.port)

unfoldable pub new : HandleMap
new name src = none

unfoldable pub insert : HandleMap → Text → SocketAddr → OutboundHandle → HandleMap
insert m name src s name' src' = if key_eq name src name' src' then some s else m name' src'

abbrev pub retained : ℕ → Option OutboundHandle → Option OutboundHandle
retained now none = none
retained now (some s) = if ltb (now - s.last) 10 then some s else none

-- A tick of the cleaner.
unfoldable pub clean : ℕ → HandleMap → HandleMap
clean now m name src = retained now (m name src)

-- `get_outbound_sender_mut` and the `send` to what it returns, or a new session.
unfoldable pub forward :
    Text → SocketAddr → SocksAddr → Session → UdpPacket → Bool → ℕ → HandleMap → HandleMap
unfolding insert
forward name src orig_dest sess packet connected now m = elim (m name src) [
  | some s ↦ insert m name src (record s { sent = s.sent ++ packet ∷ []; last = now })
  | none ↦
      if connected
      then insert m name src
          (record { sess = sess; orig_dest = orig_dest; sent = packet ∷ []; last = now })
      else m
]

-- What a packet from the remote becomes on its way back.
abbrev pub translate : OutboundHandle → UdpPacket → UdpPacket
translate s packet = record packet { src_addr = s.orig_dest; dst_addr = SocksAddr.ip s.sess.source }

module _ {Handler : Type 0} (env : Env) (handlers : Map Handler)
    (active_proxy : Handler → Text → Text) (asn_mmdb : Option Mmdb) (rules : List (Rule env)) where
  unfoldable pub forward_to :
      RunMode
      → Session
      → UdpPacket
      → (Handler → Session → Bool)
      → ℕ
      → SocksAddr
      → HandleMap
      → Outcome Unresolved HandleMap
  forward_to mode sess packet connected now dest m = do
    src ← or_panic (try_into_socket_addr packet.src_addr)
    let (name, matched, sess') =
        choose env asn_mmdb rules mode (record sess { source = src; destination = dest })
    h ← outbound_or_direct handlers name
    ok (
        forward (active_proxy h name) src packet.dst_addr sess' (record packet { dst_addr = dest })
          (connected h sess') now m)

module _ {Client Stats S L Handler : Type 0} (pool : Store S) (cached_for : IpAddr → Option Text)
    (env : Env) (handlers : Map Handler) (active_proxy : Handler → Text → Text)
    (asn_mmdb : Option Mmdb) (rules : List (Rule env)) where
  -- One round of the loop over the local packets; an unknown fake address is skipped.
  unfoldable pub dispatch_packet :
      RunMode
      → Session
      → UdpPacket
      → (Handler → Session → Bool)
      → ℕ
      → HandleMap
      → State Client Stats S L
      → Outcome Unresolved HandleMap × State Client Stats S L
  unfolding forward_to lookup_destination
  dispatch_packet mode sess packet connected now m st =
      let (dest, st') = lookup_destination pool cached_for env.parse_ip packet.dst_addr st in
      (
        elim dest [
          | ok a ↦
              forward_to env handlers active_proxy asn_mmdb rules mode sess packet connected now a m
          | err e ↦ ok m
          | panic ↦ panic
        ],
        st',
      )
