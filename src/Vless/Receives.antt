-- ===== src/Vless/Receives.antt =====
-- clash-lib/src/proxy/vless/datagram.rs: what the reader makes of the bytes of packets.
use clash_rs.Prelude.{
  take-all, ℕ, zero, suc, ◌+◌, ◌-◌, ◌%◌, ◌/◌, ◌*◌, ◌^◌, ◌≤◌, ◌==◌, min, false, Bool-cases, Option,
  none, some, List, [], ◌∷◌, ◌++◌, ◌≡◌, inl, inr, refl, sym, ap, ◌∙◌, append-nil, append_assoc,
  length, take, take-append, drop-append, length-take, arith, ltb, if◌then◌else◌,
}
use clash_rs.Prelude.Text.{Text}
use clash_rs.Prelude.Words.{be_bytes}
use clash_rs.Prelude.Outcome.{Outcome, ok, err, panic}
use clash_rs.Session.{SocksAddr}
use clash_rs.Streams.{UdpPacket, Polled, pending, done, broken, Input, read_some}
use clash_rs.Vless.{
  SendError, Sink, start_send, Reader, Next, item, waiting, closed, read_data, read_header,
  poll_next,
}
use clash_rs.Vless.Sends.{Attempt, idle, IsValid, all_bytes, flush_all, flush_all-Flushed}

-- The part of a payload that is sent.
abbrev pub clip : UdpPacket → Text
clip p = take 8192 p.payload

abbrev pub frame : Text → Text
frame bytes = be_bytes 2 (length bytes % 2 ^ 16) ++ bytes

abbrev pub loaded : Text → UdpPacket → Sink
loaded w p = record {
  wire = w;
  write_buf = frame (clip p);
  pending_packet = some p;
  flushed = false;
}

abbrev pub started : Text → UdpPacket → Sink
started w p = if length p.payload == 0 then idle w else loaded w p

ltb-take : (n : ℕ) (xs : Text) → ltb n (length (take n xs)) ≡ false
ltb-take n xs = ground (arith, length-take n xs)

-- An idle sink takes every packet, and nothing of an empty one.
start_send-idle : (p : UdpPacket) (w : Text) → start_send p (idle w) ≡ ok (started w p)
unfolding start_send
start_send-idle p w = elim (Bool-cases (length p.payload == 0)) [
  | inl empty ↦ rw empty refl
  | inr more ↦ elim (Bool-cases (ltb 8192 (length p.payload))) [
    | inl long ↦ rw (more, long, ltb-take 8192 p.payload) refl
    | inr short ↦
        let all : take (length p.payload) p.payload ≡ p.payload =
          take-all (length p.payload) p.payload (omega arith) in
        let clipped : take 8192 p.payload ≡ p.payload =
          take-all 8192 p.payload (ground (arith, short)) in
        rw (more, short, all, short, clipped) refl
  ]
]

abbrev pub bytes_of : List (UdpPacket × List Attempt) → Text
bytes_of [] = []
bytes_of ((p, attempts) ∷ ps) =
    (if length p.payload == 0 then [] else frame (clip p)) ++ bytes_of ps

-- The packets that are not empty, with the part of the payload that is sent.
abbrev pub received : SocksAddr → List (UdpPacket × List Attempt) → List UdpPacket
received remote [] = []
received remote ((p, attempts) ∷ ps) =
    if length p.payload == 0
    then received remote ps
    else record { payload = clip p; src_addr = remote; dst_addr = remote } ∷ received remote ps

module _ (remote : SocksAddr) (later : List Text) (fuel : ℕ) where
  abbrev input : Text → Input
  input bytes = record { avail = bytes; later = later }

  abbrev got_item : Text → Text → Option (Next × Reader)
  got_item bytes rest = some (
    item (record { payload = bytes; src_addr = remote; dst_addr = remote }),
    record { remaining_bytes = 0; input = input rest },
  )

  -- A packet of at most 8192 bytes that has come whole is returned whole.
  pub poll_next-frame :
      (b : ℕ) (bs rest : Text)
      → length (b ∷ bs) ≤ 8192
      → poll_next remote
          (suc fuel)
          (record { remaining_bytes = 0; input = input (frame (b ∷ bs) ++ rest) })
        ≡ got_item (b ∷ bs) rest
  unfolding poll_next read_header read_some read_data
  poll_next-frame b bs rest h =
      let value : (0 + suc (length bs) % 65536 / 256 % 256) * 256 + suc (length bs) % 65536 % 256
          ≡ suc (length bs) =
        omega arith in
      let small : ltb 8192 (suc (length bs)) ≡ false = ground arith in
      let whole : min (suc (length bs)) 65536 ≡ suc (length bs) = omega arith in
      let rest_of : suc (length bs) - suc (length bs) ≡ 0 = omega arith in
      let more : (suc (length bs) == 0) ≡ false = ground arith in
      rw (value, small, whole, take-append bs rest, drop-append bs rest, rest_of, more) refl

  poll_next-clip :
      (payload rest : Text)
      → (length payload == 0) ≡ false
      → poll_next remote
          (suc fuel)
          (record { remaining_bytes = 0; input = input (frame (take 8192 payload) ++ rest) })
        ≡ got_item (take 8192 payload) rest
  poll_next-clip [] rest h = absurd (ground (arith, h))
  poll_next-clip (x ∷ xs) rest h =
      poll_next-frame x (take 8191 xs) rest (omega (arith, length-take 8191 xs))

  abbrev next_then :
      Option (Next × Reader) → (Reader → List UdpPacket × Reader) → List UdpPacket × Reader
  next_then none k = ([], record { remaining_bytes = 0; input = input [] })
  next_then (some (waiting, r)) k = ([], r)
  next_then (some (closed, r)) k = ([], r)
  next_then (some (item p, r)) k = let (ps, t) = k r in (p ∷ ps, t)

  -- Polls as long as there is a packet, at most `n` times.
  unfoldable pub recv_all : ℕ → Reader → List UdpPacket × Reader
  recv_all zero r = ([], r)
  recv_all (suc n) r = next_then (poll_next remote (suc fuel) r) (λ r'. recv_all n r')

  pub recv_all-bytes_of :
      (ps : List (UdpPacket × List Attempt)) (rest : Text)
      → recv_all
          (length (received remote ps))
          (record { remaining_bytes = 0; input = input (bytes_of ps ++ rest) })
        ≡ (received remote ps, record { remaining_bytes = 0; input = input rest })
  unfolding recv_all
  recv_all-bytes_of [] rest = refl
  recv_all-bytes_of ((p, attempts) ∷ ps) rest = elim (Bool-cases (length p.payload == 0)) [
    | inl empty ↦ rw empty (recv_all-bytes_of ps rest)
    | inr more ↦ rw (
      more,
      append_assoc (frame (clip p)) (bytes_of ps) rest,
      poll_next-clip p.payload (bytes_of ps ++ rest) more,
      recv_all-bytes_of ps rest,
    )
  ]

abbrev sent_then : Polled × Sink → (Sink → Option Sink) → Option Sink
sent_then (pending, s) k = none
sent_then (done, s) k = k s
sent_then (broken, s) k = none

abbrev start_then : Outcome SendError Sink → (Sink → Option Sink) → Option Sink
start_then (ok s) k = k s
start_then (err e) k = none
start_then panic k = none

-- Each packet is sent by `start_send` and the attempts to flush it.
unfoldable pub send_all : List (UdpPacket × List Attempt) → Sink → Option Sink
send_all [] s = some s
send_all ((p, attempts) ∷ rest) s =
    start_then (start_send p s) (λ s'. sent_then (flush_all attempts s') (λ t. send_all rest t))

sent_then-some :
    (r : Polled × Sink) (k : Sink → Option Sink) (t : Sink)
    → sent_then r k ≡ some t
    → (r.0 ≡ done) × (k r.1 ≡ some t)
sent_then-some (pending, s) k t h = absurd (ground (arith, h))
sent_then-some (done, s) k t h = (refl, h)
sent_then-some (broken, s) k t h = absurd (ground (arith, h))

some-eq : {a b : Sink} → some a ≡ some b → a ≡ b
some-eq e = cc

started_lem :
    (p : UdpPacket) (w : Text)
    → IsValid (started w p)
      × (all_bytes (started w p) ≡ w ++ (if length p.payload == 0 then [] else frame (clip p)))
started_lem p w = elim (Bool-cases (length p.payload == 0)) [
  | inl empty ↦ (rw empty (record { emptied = λ h. (refl, refl) }), rw empty refl)
  | inr more ↦ (rw more (record { emptied = λ h. absurd (ground (arith, h)) }), rw more refl)
]

send_all-bytes_of :
    (ps : List (UdpPacket × List Attempt)) (w : Text) (t : Sink)
    → send_all ps (idle w) ≡ some t
    → t ≡ idle (w ++ bytes_of ps)
unfolding send_all
send_all-bytes_of [] w t h = rw (append-nil w) (sym (some-eq h))
send_all-bytes_of ((p, attempts) ∷ rest) w t h =
    let (valid, bytes) = started_lem p w in
    let now = if length p.payload == 0 then [] else frame (clip p) in
    let flushing = flush_all attempts (started w p) in
    let (good, later) =
      sent_then-some flushing (λ s'. send_all rest s') t
        (sym (
            ap (λ r. start_then r (λ s'. sent_then (flush_all attempts s') (λ u. send_all rest u)))
              (start_send-idle p w))
          ∙ h) in
    let (kept, still, ready) = flush_all-Flushed attempts (started w p) valid in
    let sent : flushing.1 ≡ idle (w ++ now) = ready good ∙ ap idle bytes in
    send_all-bytes_of rest (w ++ now) t (rw (← sent) later)
    ∙ ap idle (append_assoc w now (bytes_of rest))

-- Packets that a sink takes, and whose bytes have all arrived when the reader at the other end is
-- polled, come out of it in order, whatever the pending attempts gave to the stream below: all but the
-- empty ones, each with the first 8192 bytes of its payload and the remote address as both its
-- addresses. The bytes behind them are left.
pub recv_all-send_all :
    (remote : SocksAddr) (later : List Text) (fuel : ℕ) (ps : List (UdpPacket × List Attempt))
    (t : Sink) (rest : Text)
    → send_all ps (idle []) ≡ some t
    → recv_all remote later fuel
        (length (received remote ps))
        (record { remaining_bytes = 0; input = record { avail = t.wire ++ rest; later = later } })
      ≡ (
        received remote ps,
        record { remaining_bytes = 0; input = record { avail = rest; later = later } },
      )
recv_all-send_all remote later fuel ps t rest sent =
    rw (ap (λ s. s.wire) (send_all-bytes_of ps [] t sent))
      (recv_all-bytes_of remote later fuel ps rest)
