-- ===== src/Hysteria2/Connection.antt =====
-- clash-lib/src/proxy/hysteria2/{mod.rs, datagram.rs}: the UDP sessions of a connection.
--
-- `sessions` is the map that the connection's tasks share, as a function on session ids. A packet that
-- is handed to a session's channel is a result of `recv_packet`, and the datagrams that go out are
-- results of `send_packet`: the channel and the QUIC connection are not part of the model. Whether
-- the connection's `send_datagram` takes the datagram of that number is a parameter.
pub mod Reassembly
use clash_rs.Prelude.{
  ℕ, suc, ◌+◌, ◌%◌, Bool, ◌-◌, ◌^◌, ◌==◌, Option, none, some, List, [], ◌∷◌, ◌++◌, if◌then◌else◌,
  or_else,
}
use clash_rs.Prelude.Text.{Text}
use clash_rs.Prelude.Outcome.{Outcome, ok, err, panic, ◌>>=◌, ok_or}
use clash_rs.Session.{SocksAddr}
use clash_rs.Session.Buffer.{IoError, other}
use clash_rs.Streams.{UdpPacket}
use clash_rs.Hysteria2.{
  Codecs, HysUdpPacket, Defragger, default_defragger, decode, feed, new, collect,
}

pub record UdpSession : Type 0 where
  pub local_addr : SocksAddr
  pub defragger : Defragger

abbrev pub Sessions : Type 0
Sessions = ℕ → Option UdpSession

abbrev pub insert : Sessions → ℕ → UdpSession → Sessions
insert sessions id session j = if id == j then some session else sessions j

-- `HysteriaDatagramOutbound::new`: the session that it enters.
abbrev pub open_session : Sessions → ℕ → SocksAddr → Sessions
open_session sessions id local_addr =
    insert sessions id (record { local_addr = local_addr; defragger = default_defragger })

-- `Result::unwrap`
abbrev pub unwrap {ℓ κ} : {E : Type ℓ} {A : Type κ} → Outcome E A → Outcome E A
unwrap (ok a) = ok a
unwrap (err e) = panic
unwrap panic = panic

abbrev pub incoming : UdpSession → Option HysUdpPacket → Option UdpPacket
incoming session none = none
incoming session (some p) =
    some (record { payload = p.payload; src_addr = p.addr; dst_addr = session.local_addr })

-- The session with the defragger that `feed` leaves, and what it hands to the channel.
abbrev pub fed :
    Sessions
    → ℕ
    → UdpSession
    → Defragger × Outcome IoError (Option HysUdpPacket)
    → Outcome IoError (Sessions × Option UdpPacket)
fed sessions id session (d, r) = do
  p ← r
  ok (insert sessions id (record session { defragger = d }), incoming session p)

abbrev pub recv_for :
    Sessions → HysUdpPacket → Option UdpSession → Outcome IoError (Sessions × Option UdpPacket)
recv_for sessions pkt none = ok (sessions, none)
recv_for sessions pkt (some session) =
    fed sessions pkt.session_id session (feed session.defragger pkt)

-- The loop over the fragments, from the one of that number on; it ends at the first that is refused.
abbrev pub send_datagrams : (ℕ → Text → Bool) → ℕ → List Text → Outcome IoError (List Text)
send_datagrams send_datagram i [] = ok []
send_datagrams send_datagram i (frag ∷ frags) =
    let rest = send_datagrams send_datagram (suc i) frags in
    if send_datagram i frag then (do sent ← rest; ok (frag ∷ sent)) else err other

module _ (codecs : Codecs) where
  unfoldable pub recv_packet : Sessions → Text → Outcome IoError (Sessions × Option UdpPacket)
  recv_packet sessions pkt = do
    pkt ← unwrap (decode codecs pkt)
    recv_for sessions pkt (sessions pkt.session_id)

  -- The datagrams of one payload. The iterator ends after `frag_total` rounds, which are fewer than
  -- 2⁸. `max_datagram_size` is what the QUIC connection tells.
  unfoldable pub send_packet :
      (ℕ → Text → Bool)
      → Option ℕ
      → Option ℕ
      → Text
      → SocksAddr
      → ℕ
      → ℕ
      → Outcome IoError (List Text)
  send_packet send_datagram udp_mtu max_datagram_size pkt addr session_id pkt_id = do
    max_frag_size ← ok_or other (or_else udp_mtu max_datagram_size)
    fragments ← new codecs session_id pkt_id addr max_frag_size pkt
    send_datagrams send_datagram 0 (collect codecs (2 ^ 8) fragments)

  -- The receiving task on datagrams that come one after the other: what the channels get.
  abbrev pub recv_all : Sessions → List Text → Outcome IoError (List (Option UdpPacket))
  recv_all sessions [] = ok []
  recv_all sessions (pkt ∷ pkts) = do
    (sessions, p) ← recv_packet sessions pkt
    ps ← recv_all sessions pkts
    ok (p ∷ ps)
