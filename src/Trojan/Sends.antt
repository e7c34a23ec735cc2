-- ===== src/Trojan/Sends.antt =====
-- clash-lib/src/proxy/trojan/datagram.rs: what reaches the stream below when a packet is sent.
use clash_rs.Prelude.{
  append-nil, ℕ, ◌+◌, true, false, Option, none, some, List, [], ◌∷◌, ◌++◌, ◌≡◌, ◌⊎◌, inl, inr,
  refl, sym, ap, ◌∙◌, append_assoc, length, unwrap_or, arith,
}
use clash_rs.Prelude.Text.{Text}
use clash_rs.Streams.{UdpPacket, Accept, Polled, pending, done, broken, drain, drain-done}
use clash_rs.Trojan.{start_send, Sink, frame, poll_flush, after_drain}

abbrev pub Attempt : Type 0
Attempt = List Accept × Polled

-- A sink that holds a packet, and one that does not.
abbrev pub busy : Text → Option ℕ → UdpPacket → Sink
busy wire written p = record { wire = wire; written = written; flushed = false; pkt = some p }

abbrev pub idle : Text → Sink
idle wire = record { wire = wire; written = none; flushed = true; pkt = none }

abbrev again : Polled × Sink → (Sink → Polled × Sink) → Polled × Sink
again (pending, s) k = k s
again (done, s) k = (done, s)
again (broken, s) k = (broken, s)

-- The task polls the sink until it is ready.
unfoldable pub flush_all : List Attempt → Sink → Polled × Sink
flush_all [] s = (pending, s)
flush_all ((script, flush) ∷ rest) s = again (poll_flush script flush s) (λ s'. flush_all rest s')

-- How an attempt to write a packet ends: the loop, and then the stream's own flush.
abbrev pub verdict : Polled → Polled → Polled
verdict done flush = flush
verdict pending flush = pending
verdict broken flush = broken

-- The bytes that pending attempts gave to the stream below.
abbrev pub repeats_if : Polled → Text → Text → Text
repeats_if pending out rest = out ++ rest
repeats_if done out rest = []
repeats_if broken out rest = []

unfoldable pub repeats : Text → List Attempt → Text
repeats bytes [] = []
repeats bytes ((script, flush) ∷ rest) =
    repeats_if (verdict (drain script bytes).0 flush) (drain script bytes).1 (repeats bytes rest)

module _ (w : Text) (wr : Option ℕ) (p : UdpPacket) (out : Text) where
  after_drain-pending :
      (r flush : Polled)
      → verdict r flush ≡ pending
      → after_drain flush (r, out) (busy w wr p)
        ≡ (pending, busy (w ++ out) (some (unwrap_or 0 wr + length out)) p)
  after_drain-pending done pending h = refl
  after_drain-pending done done h = absurd (ground (arith, h))
  after_drain-pending done broken h = absurd (ground (arith, h))
  after_drain-pending pending flush h = refl
  after_drain-pending broken flush h = absurd (ground (arith, h))

  after_drain-done :
      (r flush : Polled)
      → verdict r flush ≡ done
      → (r ≡ done) × (after_drain flush (r, out) (busy w wr p) ≡ (done, idle (w ++ out)))
  after_drain-done done done h = (refl, refl)
  after_drain-done done pending h = absurd (ground (arith, h))
  after_drain-done done broken h = absurd (ground (arith, h))
  after_drain-done pending flush h = absurd (ground (arith, h))
  after_drain-done broken flush h = absurd (ground (arith, h))

  after_drain-broken :
      (r flush : Polled)
      → verdict r flush ≡ broken
      → (after_drain flush (r, out) (busy w wr p)).0 ≡ broken
  after_drain-broken done broken h = refl
  after_drain-broken done pending h = absurd (ground (arith, h))
  after_drain-broken done done h = absurd (ground (arith, h))
  after_drain-broken pending flush h = absurd (ground (arith, h))
  after_drain-broken broken flush h = refl

Polled-cases : (r : Polled) → (r ≡ pending) ⊎ ((r ≡ done) ⊎ (r ≡ broken))
Polled-cases pending = inl refl
Polled-cases done = inr (inl refl)
Polled-cases broken = inr (inr refl)

again_broken :
    (r : Polled × Sink) (k : Sink → Polled × Sink) → r.0 ≡ broken → (again r k).0 ≡ broken
again_broken (broken, s) k h = refl
again_broken (pending, s) k h = absurd (ground (arith, h))
again_broken (done, s) k h = absurd (ground (arith, h))

-- When a packet is sent at last, the stream has the bytes of the pending attempts in front of
-- those of the packet.
pub flush_all-repeats :
    (attempts : List Attempt) (w : Text) (wr : Option ℕ) (p : UdpPacket) (s : Sink)
    → flush_all attempts (busy w wr p) ≡ (done, s)
    → s ≡ idle (w ++ (repeats (frame p) attempts ++ frame p))
unfolding flush_all repeats poll_flush
flush_all-repeats [] w wr p s h = absurd (ground (arith, h))
flush_all-repeats ((script, flush) ∷ rest) w wr p s h =
    let bytes = frame p in
    let out = (drain script bytes).1 in
    elim (Polled-cases (verdict (drain script bytes).0 flush)) [
      | inl waits ↦
          let now = after_drain-pending w wr p out (drain script bytes).0 flush waits in
          let later =
            flush_all-repeats rest (w ++ out) (some (unwrap_or 0 wr + length out)) p s
              (sym (ap (λ r. again r (λ s'. flush_all rest s')) now) ∙ h) in
          rw waits (
            later
            ∙ ap idle (
                append_assoc w out (repeats bytes rest ++ bytes)
                ∙ ap (λ t. w ++ t) (sym (append_assoc out (repeats bytes rest) bytes))))
      | inr (inl good) ↦
          let (all, now) = after_drain-done w wr p out (drain script bytes).0 flush good in
          let same = sym (ap (λ r. again r (λ s'. flush_all rest s')) now) ∙ h in
          rw (good, ← drain-done script bytes all) (sym (ap (λ r. r.1) same))
      | inr (inr bad) ↦
          let fails =
            again_broken (after_drain flush (drain script bytes) (busy w wr p))
              (λ s'. flush_all rest s')
              (after_drain-broken w wr p out (drain script bytes).0 flush bad) in
          absurd (ground (arith, fails, h))
    ]

abbrev sent_then : Polled × Sink → (Sink → Option Sink) → Option Sink
sent_then (pending, s) k = none
sent_then (done, s) k = k s
sent_then (broken, s) k = none

-- Each packet is sent by `start_send` and the attempts to flush it.
unfoldable pub send_all : List (UdpPacket × List Attempt) → Sink → Option Sink
send_all [] s = some s
send_all ((p, attempts) ∷ rest) s =
    sent_then (flush_all attempts (start_send p s)) (λ s'. send_all rest s')

abbrev pub bytes_of : List (UdpPacket × List Attempt) → Text
bytes_of [] = []
bytes_of ((p, attempts) ∷ rest) = (repeats (frame p) attempts ++ frame p) ++ bytes_of rest

sent_then-some :
    (r : Polled × Sink) (k : Sink → Option Sink) (t : Sink)
    → sent_then r k ≡ some t
    → (r ≡ (done, r.1)) × (k r.1 ≡ some t)
sent_then-some (pending, s) k t h = absurd (ground (arith, h))
sent_then-some (done, s) k t h = (refl, h)
sent_then-some (broken, s) k t h = absurd (ground (arith, h))

-- The stream below has the bytes of every packet in order, each behind those of the attempts that
-- were pending.
pub send_all-bytes_of :
    (ps : List (UdpPacket × List Attempt)) (w : Text) (t : Sink)
    → send_all ps (idle w) ≡ some t
    → t ≡ idle (w ++ bytes_of ps)
unfolding send_all
send_all-bytes_of [] w t h = rw (append-nil w) (sym (some-eq h))
  where
    some-eq : {a b : Sink} → some a ≡ some b → a ≡ b
    some-eq e = cc
send_all-bytes_of ((p, attempts) ∷ rest) w t h =
    let r = flush_all attempts (busy w none p) in
    let (good, later) = sent_then-some r (λ s'. send_all rest s') t h in
    let sent = flush_all-repeats attempts w none p r.1 good in
    let now = repeats (frame p) attempts ++ frame p in
    send_all-bytes_of rest (w ++ now) t (rw (← sent) later)
    ∙ ap idle (append_assoc w now (bytes_of rest))

-- No attempt that was pending gave a byte to the stream below.
abbrev pub AllClean : List (UdpPacket × List Attempt) → Type 0
AllClean [] = Unit
AllClean ((p, attempts) ∷ rest) = (repeats (frame p) attempts ≡ []) × AllClean rest
