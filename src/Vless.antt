-- ===== src/Vless.antt =====
-- clash-lib/src/proxy/vless/datagram.rs: UDP packets over a VLESS stream.
--
-- `wire` is what the stream below has taken. A poll that reads skips empty packets in a loop,
-- which has fuel: `none` stands for its end.
pub mod Sends
pub mod Receives
pub mod Pieces
pub mod Stream
mod Examples
use clash_rs.Prelude.{
  ℕ, zero, suc, ◌+◌, ◌-◌, ◌%◌, ◌^◌, min, Bool, true, false, Option, none, some, is_some, List, [],
  ◌∷◌, ◌++◌, length, take, drop, ◌==◌, ltb, if◌then◌else◌,
}
use clash_rs.Prelude.Text.{Text}
use clash_rs.Prelude.Words.{be_bytes, from_be}
use clash_rs.Prelude.Outcome.{Outcome, ok, err, panic, ◌>>=◌}
use clash_rs.Session.{SocksAddr}
use clash_rs.Streams.{
  UdpPacket, Accept, wrote, blocked, failed, Polled, pending, done, broken, Input, Got, got, eof,
  wait, read_some,
}

abbrev pub max_packet_length : ℕ
max_packet_length = 8192

pub data SendError : Type 0 where
  would_block packet_too_large : SendError

pub record Sink : Type 0 where
  pub wire : Text
  pub write_buf : Text
  pub pending_packet : Option UdpPacket
  pub flushed : Bool

abbrev pub write_packet : Text → Sink → Outcome SendError Sink
write_packet bytes s =
    if ltb max_packet_length (length bytes)
    then err packet_too_large
    else ok (record s { write_buf = be_bytes 2 (length bytes % 2 ^ 16) ++ bytes })

unfoldable pub start_send : UdpPacket → Sink → Outcome SendError Sink
start_send item s =
    let total_len = length item.payload in
    if is_some s.pending_packet then err would_block else if total_len == 0 then ok s else (do
      s ←
          write_packet
            (take (if ltb max_packet_length total_len then max_packet_length else total_len)
              item.payload)
            s
      ok (record s { pending_packet = some item; flushed = false }))

-- `while !write_buf.is_empty()`, with a call of `poll_write` for each element of the script.
unfoldable pub write_loop : List Accept → Sink → Polled × Sink
write_loop [] s = elim s.write_buf [ [] ↦ (done, s) | b ∷ bs ↦ (pending, s) ]
write_loop (blocked ∷ script) s = elim s.write_buf [ [] ↦ (done, s) | b ∷ bs ↦ (pending, s) ]
write_loop (failed ∷ script) s = elim s.write_buf [ [] ↦ (done, s) | b ∷ bs ↦ (broken, s) ]
write_loop (wrote zero ∷ script) s = elim s.write_buf [ [] ↦ (done, s) | b ∷ bs ↦ (broken, s) ]
write_loop (wrote (suc n) ∷ script) s =
    let rest = write_loop script (record s {
      wire = s.wire ++ take (suc n) s.write_buf;
      write_buf = drop (suc n) s.write_buf;
    }) in
    elim s.write_buf [ [] ↦ (done, s) | b ∷ bs ↦ rest ]

abbrev pub is_flushed : Sink → Sink
is_flushed s = record s { flushed = true; pending_packet = none }

-- The `poll_flush` of the stream below, behind the loop.
abbrev pub flush_inner : Polled → Polled × Sink → Polled × Sink
flush_inner flush (pending, s) = (pending, s)
flush_inner flush (broken, s) = (broken, s)
flush_inner pending (done, s) = (pending, s)
flush_inner broken (done, s) = (broken, s)
flush_inner done (done, s) = (done, is_flushed s)

unfoldable pub poll_flush : List Accept → Polled → Sink → Polled × Sink
unfolding write_loop
poll_flush script flush s = if s.flushed then (done, s) else elim s.write_buf [
  | [] ↦ (done, is_flushed s)
  | b ∷ bs ↦ flush_inner flush (write_loop script s)
]

pub record Reader : Type 0 where
  pub remaining_bytes : ℕ
  pub input : Input

-- `Poll<Option<UdpPacket>>`
pub data Next : Type 0 where
  waiting closed : Next
  item : UdpPacket → Next

module _ (remote_addr : SocksAddr) where
  abbrev on_bytes : ℕ → Text → Input → Next × Reader
  on_bytes n [] i = (closed, record { remaining_bytes = n; input = i })
  on_bytes n (b ∷ bs) i = (
    item (record { payload = b ∷ bs; src_addr = remote_addr; dst_addr = remote_addr }),
    record { remaining_bytes = n - length (b ∷ bs); input = i },
  )

  abbrev on_data : ℕ → Got × Input → Next × Reader
  on_data n (got bs, i) = on_bytes n bs i
  on_data n (wait, i) = (waiting, record { remaining_bytes = n; input = i })
  on_data n (eof, i) = (closed, record { remaining_bytes = n; input = i })

  -- The bytes of a packet, when some of them are still to come.
  unfoldable pub read_data : ℕ → Input → Next × Reader
  read_data n i = on_data n (read_some (min n 65536) i)

  -- What the bytes of a length header lead to: the end, a next header, or the packet.
  abbrev pub on_header : Text → Input → Option (Next × Reader) → Option (Next × Reader)
  on_header header i skip =
      let n = from_be header in
      if ltb (length header) 2
      then some (closed, record { remaining_bytes = 0; input = i })
      else if n == 0
      then skip
      else if ltb max_packet_length n
      then some (closed, record { remaining_bytes = 0; input = i })
      else some (read_data n i)

  abbrev with_header : Got × Input → (Input → Option (Next × Reader)) → Option (Next × Reader)
  with_header (got bs, i) k = on_header bs i (k i)
  with_header (wait, i) k = some (waiting, record { remaining_bytes = 0; input = i })
  with_header (eof, i) k = some (closed, record { remaining_bytes = 0; input = i })

  unfoldable pub read_header : ℕ → Input → Option (Next × Reader)
  unfolding read_data
  read_header zero i = none
  read_header (suc fuel) i = with_header (read_some 2 i) (λ i'. read_header fuel i')

  unfoldable pub poll_next : ℕ → Reader → Option (Next × Reader)
  unfolding read_data
  poll_next fuel r =
      if r.remaining_bytes == 0
      then read_header fuel r.input
      else some (read_data r.remaining_bytes r.input)
