-- ===== src/Trojan.antt =====
-- clash-lib/src/proxy/trojan/datagram.rs: UDP packets over a trojan stream.
--
-- `wire` is what the stream below has taken. `parse_ip` is `str::parse::<IpAddr>`. The buffer of
-- the reader is not part of the state: each read fills it from its start.
pub mod Sends
pub mod Receives
pub mod Header
mod Examples
use clash_rs.Prelude.{
  ℕ, ◌+◌, ◌%◌, ◌^◌, Bool, true, false, Option, none, some, List, [], ◌∷◌, ◌++◌, length, ◌==◌,
  if◌then◌else◌, unwrap_or,
}
use clash_rs.Prelude.Text.{Text, text_eq}
use clash_rs.Prelude.Words.{be_bytes, from_be}
use clash_rs.Prelude.Outcome.{ok, err, panic}
use clash_rs.Session.{IpAddr, SocksAddr, socks_ip, write_buf, type_v4, type_v6, type_domain}
use clash_rs.Session.Buffer.{is_utf8}
use clash_rs.Session.Convert.{try_from_host}
use clash_rs.Streams.{
  UdpPacket, Accept, Polled, pending, done, broken, drain, Input, Got, got, eof, wait, read,
}

abbrev pub crlf : Text
crlf = 13 ∷ 10 ∷ []

-- The bytes of a packet.
unfoldable pub frame : UdpPacket → Text
frame p = write_buf p.dst_addr ++ (be_bytes 2 (length p.payload % 2 ^ 16) ++ (crlf ++ p.payload))

pub record Sink : Type 0 where
  pub wire : Text
  pub written : Option ℕ
  pub flushed : Bool
  pub pkt : Option UdpPacket

abbrev pub start_send : UdpPacket → Sink → Sink
start_send item s = record s { pkt = some item; flushed = false }

-- The `poll_flush` of the stream below, behind the loop.
abbrev flush_inner : Polled → Sink → Polled × Sink
flush_inner pending s = (pending, s)
flush_inner broken s = (broken, s)
flush_inner done s = (done, record s { flushed = true; written = none; pkt = none })

abbrev pub after_drain : Polled → Polled × Text → Sink → Polled × Sink
after_drain flush (r, out) s =
    let s' = record s {
      wire = s.wire ++ out;
      written = some (unwrap_or 0 s.written + length out);
    } in
    elim r [ pending ↦ (pending, s') | broken ↦ (broken, s') | done ↦ flush_inner flush s' ]

-- The packet is encoded again in each call. Without a packet there is an error.
unfoldable pub poll_flush : List Accept → Polled → Sink → Polled × Sink
poll_flush script flush s =
    if s.flushed
    then (done, s)
    else elim s.pkt [ none ↦ (broken, s) | some p ↦ after_drain flush (drain script (frame p)) s ]

unfoldable pub poll_ready : List Accept → Polled → Sink → Polled × Sink
poll_ready script flush s = if s.flushed then (done, s) else poll_flush script flush s

pub data Addr : Type 0 where
  ip : IpAddr → Addr
  domain : Text → Addr

pub data ReadState : Type 0 where
  atyp : ReadState
  addr : ℕ → ReadState
  port : Addr → ReadState
  data_len : SocksAddr → ReadState
  payload : SocksAddr → ℕ → ReadState

pub record Reader : Type 0 where
  pub state : ReadState
  pub input : Input

-- `Poll<Option<UdpPacket>>`
pub data Next : Type 0 where
  waiting closed : Next
  item : UdpPacket → Next

-- `ready!` and the errors of a read in a state
abbrev pub on_read : ReadState → Got × Input → (Text → Input → Next × Reader) → Next × Reader
on_read st (got bs, i) k = k bs i
on_read st (eof, i) k = (closed, record { state = st; input = i })
on_read st (wait, i) k = (waiting, record { state = st; input = i })

module _ (parse_ip : Text → Option IpAddr) (remote_addr : SocksAddr) where
  unfoldable pub from_data : SocksAddr → ℕ → Input → Next × Reader
  from_data a len i = on_read (payload a len) (read len i) (λ bs i. (
    item (record { payload = bs; src_addr = remote_addr; dst_addr = a }),
    record { state = atyp; input = i },
  ))

  unfoldable pub from_data_len : SocksAddr → Input → Next × Reader
  from_data_len a i = on_read (data_len a) (read 2 i) (λ len i.
      on_read (data_len a) (read 2 i) (λ mark i.
        if text_eq mark crlf
        then from_data a (from_be len) i
        else (closed, record { state = data_len a; input = i })))

  unfoldable pub to_addr : Addr → ℕ → Option SocksAddr
  to_addr (ip a) p = some (socks_ip a p)
  to_addr (domain d) p = elim (try_from_host parse_ip d p) [
    | ok a ↦ some a
    | err e ↦ none
    | panic ↦ none
  ]

  abbrev with_addr : ReadState → Input → Option SocksAddr → Next × Reader
  with_addr st i none = (closed, record { state = st; input = i })
  with_addr st i (some a) = from_data_len a i

  unfoldable pub from_port : Addr → Input → Next × Reader
  from_port a i =
      on_read (port a) (read 2 i) (λ bs i. with_addr (port a) i (to_addr a (from_be bs)))

  from_domain : ℕ → Input → Next × Reader
  from_domain t i = on_read (addr t) (read 1 i) (λ len i.
      on_read (addr t) (read (from_be len) i) (λ d i.
        if is_utf8 d
        then from_port (domain d) i
        else (closed, record { state = addr t; input = i })))

  unfoldable pub from_addr : ℕ → Input → Next × Reader
  unfolding from_domain
  from_addr t i =
      if t == type_v4
      then on_read (addr t) (read 4 i) (λ bs i. from_port (ip (IpAddr.v4 (from_be bs))) i)
      else if t == type_v6
      then on_read (addr t) (read 16 i) (λ bs i. from_port (ip (IpAddr.v6 (from_be bs))) i)
      else if t == type_domain
      then from_domain t i
      else (closed, record { state = addr t; input = i })

  unfoldable pub from_atyp : Input → Next × Reader
  from_atyp i = on_read atyp (read 1 i) (λ bs i. from_addr (from_be bs) i)

  -- The `loop`: each state leads to the next one, and the last one returns.
  unfoldable pub poll_next : Reader → Next × Reader
  poll_next r = elim r.state [
    | atyp ↦ from_atyp r.input
    | addr t ↦ from_addr t r.input
    | port a ↦ from_port a r.input
    | data_len a ↦ from_data_len a r.input
    | payload a len ↦ from_data a len r.input
  ]
