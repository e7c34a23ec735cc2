-- ===== src/Vless/Sends.antt =====
-- clash-lib/src/proxy/vless/datagram.rs: what reaches the stream below when a packet is sent.
use clash_rs.Prelude.{
  zero, suc, Bool, true, false, Option, none, List, [], ◌∷◌, ◌++◌, ◌≡◌, refl, sym, ap, ◌∙◌,
  append-nil, append_assoc, take, drop, take-append-drop, arith,
}
use clash_rs.Prelude.Text.{Text}
use clash_rs.Streams.{UdpPacket, Accept, wrote, blocked, failed, Polled, pending, done, broken}
use clash_rs.Vless.{Sink, write_loop, flush_inner, poll_flush}

abbrev pub Attempt : Type 0
Attempt = List Accept × Polled

-- What is on the stream below and what is still to be written.
abbrev pub all_bytes : Sink → Text
all_bytes s = s.wire ++ s.write_buf

module _ (pkt : Option UdpPacket) (f : Bool) where
  abbrev sink : Text → Text → Sink
  sink w b = record { wire = w; write_buf = b; pending_packet = pkt; flushed = f }

  -- Every byte is in one of the two, once and in order; the loop ends well on an empty buffer.
  write_loop-all_bytes :
      (script : List Accept) (w b : Text)
      → (all_bytes (write_loop script (sink w b)).1 ≡ w ++ b)
        × ((write_loop script (sink w b)).1.flushed ≡ f)
        × ((write_loop script (sink w b)).0 ≡ done
            → (write_loop script (sink w b)).1.write_buf ≡ [])
  unfolding write_loop
  write_loop-all_bytes [] w [] = (refl, refl, λ h. refl)
  write_loop-all_bytes (blocked ∷ script) w [] = (refl, refl, λ h. refl)
  write_loop-all_bytes (failed ∷ script) w [] = (refl, refl, λ h. refl)
  write_loop-all_bytes (wrote zero ∷ script) w [] = (refl, refl, λ h. refl)
  write_loop-all_bytes (wrote (suc n) ∷ script) w [] = (refl, refl, λ h. refl)
  write_loop-all_bytes [] w (b ∷ bs) = (refl, refl, λ h. absurd (ground (arith, h)))
  write_loop-all_bytes (blocked ∷ script) w (b ∷ bs) = (refl, refl, λ h. absurd (ground (arith, h)))
  write_loop-all_bytes (failed ∷ script) w (b ∷ bs) = (refl, refl, λ h. absurd (ground (arith, h)))
  write_loop-all_bytes (wrote zero ∷ script) w (b ∷ bs) =
      (refl, refl, λ h. absurd (ground (arith, h)))
  write_loop-all_bytes (wrote (suc n) ∷ script) w (b ∷ bs) =
      let (kept, pkt_kept, ends) =
        write_loop-all_bytes script (w ++ take (suc n) (b ∷ bs)) (drop (suc n) (b ∷ bs)) in
      (
        kept
            ∙ (append_assoc w (take (suc n) (b ∷ bs)) (drop (suc n) (b ∷ bs))
                ∙ ap (λ t. w ++ t) (take-append-drop (suc n) (b ∷ bs))),
        pkt_kept,
        ends,
      )

abbrev pub idle : Text → Sink
idle w = record { wire = w; write_buf = []; pending_packet = none; flushed = true }

-- A flushed sink holds nothing.
pub record IsValid (s : Sink) : Type 0 where
  pub emptied : s.flushed ≡ true → (s.write_buf ≡ []) × (s.pending_packet ≡ none)

-- What a poll keeps, and what it means that it is ready.
record Flushed (s t : Sink) (r : Polled) : Type 0 where
  kept : all_bytes t ≡ all_bytes s
  valid : IsValid t
  ready : r ≡ done → t ≡ idle (all_bytes s)

flush_inner-Flushed :
    (s : Sink) (flush r : Polled) (t : Sink)
    → s.flushed ≡ false
    → t.flushed ≡ false
    → all_bytes t ≡ all_bytes s
    → (r ≡ done → t.write_buf ≡ [])
    → Flushed s (flush_inner flush (r, t)).1 (flush_inner flush (r, t)).0
flush_inner-Flushed s flush pending t f f' kept ends = record {
  kept = kept;
  valid = record { emptied = λ h. absurd (ground (arith, f', h)) };
  ready = λ h. absurd (ground (arith, h));
}
flush_inner-Flushed s flush broken t f f' kept ends = record {
  kept = kept;
  valid = record { emptied = λ h. absurd (ground (arith, f', h)) };
  ready = λ h. absurd (ground (arith, h));
}
flush_inner-Flushed s pending done t f f' kept ends = record {
  kept = kept;
  valid = record { emptied = λ h. absurd (ground (arith, f', h)) };
  ready = λ h. absurd (ground (arith, h));
}
flush_inner-Flushed s broken done t f f' kept ends = record {
  kept = kept;
  valid = record { emptied = λ h. absurd (ground (arith, f', h)) };
  ready = λ h. absurd (ground (arith, h));
}
flush_inner-Flushed s done done t f f' kept ends =
    let empty = ends refl in
    let whole : t.wire ≡ all_bytes s =
      sym (append-nil t.wire) ∙ (ap (λ b. t.wire ++ b) (sym empty) ∙ kept) in
    record {
      kept = kept;
      valid = record { emptied = λ h. (empty, refl) };
      ready = λ h. ground (arith, empty, whole);
    }

module _ (script : List Accept) (flush : Polled) (w : Text) (pkt : Option UdpPacket) where
  by_state :
      (f : Bool) (b : Text)
      → IsValid (sink pkt f w b)
      → Flushed
          (sink pkt f w b)
          (poll_flush script flush (sink pkt f w b)).1
          (poll_flush script flush (sink pkt f w b)).0
  unfolding poll_flush
  by_state true b v =
      let (empty, no_packet) = v.emptied refl in
      record { kept = refl; valid = v; ready = λ h. rw (empty, no_packet, append-nil w) refl }
  by_state false [] v = record {
    kept = refl;
    valid = record { emptied = λ h. (refl, refl) };
    ready = λ h. rw (append-nil w) refl;
  }
  by_state false (b ∷ bs) v =
      let (kept, same, ends) = write_loop-all_bytes pkt false script w (b ∷ bs) in
      let r = write_loop script (sink pkt false w (b ∷ bs)) in
      flush_inner-Flushed (sink pkt false w (b ∷ bs)) flush r.0 r.1 refl same kept ends

-- A poll loses no byte and repeats none; when it is ready, all of them are on the stream below.
poll_flush-Flushed :
    (script : List Accept) (flush : Polled) (s : Sink)
    → IsValid s
    → Flushed s (poll_flush script flush s).1 (poll_flush script flush s).0
poll_flush-Flushed script flush s v =
    by_state script flush s.wire s.pending_packet s.flushed s.write_buf v

abbrev again : Polled × Sink → (Sink → Polled × Sink) → Polled × Sink
again (pending, s) k = k s
again (done, s) k = (done, s)
again (broken, s) k = (broken, s)

-- The task polls the sink until it is ready.
unfoldable pub flush_all : List Attempt → Sink → Polled × Sink
flush_all [] s = (pending, s)
flush_all ((script, flush) ∷ rest) s = again (poll_flush script flush s) (λ s'. flush_all rest s')

again-Flushed :
    (s : Sink) (r : Polled × Sink) (k : Sink → Polled × Sink)
    → Flushed s r.1 r.0
    → ((t : Sink) → all_bytes t ≡ all_bytes s → IsValid t → Flushed s (k t).1 (k t).0)
    → Flushed s (again r k).1 (again r k).0
again-Flushed s (pending, t) k h later = later t h.kept h.valid
again-Flushed s (done, t) k h later = h
again-Flushed s (broken, t) k h later = h

-- However the attempts to flush a valid sink go, no byte is lost, repeated or reordered, and when
-- one is ready, all of them are on the stream below and the sink holds nothing.
pub flush_all-Flushed :
    (attempts : List Attempt) (s : Sink)
    → IsValid s
    → (all_bytes (flush_all attempts s).1 ≡ all_bytes s)
      × IsValid (flush_all attempts s).1
      × ((flush_all attempts s).0 ≡ done → (flush_all attempts s).1 ≡ idle (all_bytes s))
unfolding flush_all
flush_all-Flushed attempts s v =
    let h = by_attempts attempts s s refl v in (h.kept, h.valid, h.ready)
  where
    by_attempts :
        (attempts : List Attempt) (s t : Sink)
        → all_bytes t ≡ all_bytes s
        → IsValid t
        → Flushed s (flush_all attempts t).1 (flush_all attempts t).0
    by_attempts [] s t kept v = record {
      kept = kept;
      valid = v;
      ready = λ h. absurd (ground (arith, h));
    }
    by_attempts ((script, flush) ∷ rest) s t kept v =
        let now = poll_flush-Flushed script flush t v in
        again-Flushed s (poll_flush script flush t) (λ s'. flush_all rest s')
          (record {
            kept = now.kept ∙ kept;
            valid = now.valid;
            ready = λ h. now.ready h ∙ ap idle kept;
          })
          (λ u same valid. by_attempts rest s u same valid)
