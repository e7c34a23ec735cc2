-- ===== src/Trojan/Receives.antt =====
-- clash-lib/src/proxy/trojan/datagram.rs: what the reader makes of the bytes of packets.
use clash_rs.Trojan.Sends.{send_all-bytes_of, idle, send_all, bytes_of, AllClean, Attempt}
use clash_rs.Prelude.{
  ◌∙◌, ap, map, leb, zero, suc, drop, take, ◌≤◌, suc, [], ◌∷◌, arith, false, ltb, true, some, ℕ,
  ◌<◌, ◌^◌, ◌%◌, Option, none, List, ◌++◌, ◌≡◌, refl, append_assoc, length,
}
use clash_rs.Prelude.Text.{Text}
use clash_rs.Prelude.Words.{from_be, be_bytes, length-be_bytes, from_be-be_bytes}
use clash_rs.Session.{socks_ip, write_ip, write_buf, IpAddr, SocksAddr}
use clash_rs.Session.Codec.{IpFits, IsEncodable}
use clash_rs.Streams.{read, UdpPacket, Input, read-append}
use clash_rs.Session.{v4, v6}
use clash_rs.Session.Convert.{try_from_host}
use clash_rs.Trojan.{
  Sink, closed, waiting, payload, frame, poll_next, is_utf8, try_from_host, to_addr, from_addr,
  Addr, from_atyp, from_port, crlf, Reader, Next, item, from_data, from_data_len, atyp,
}
use native.Mathlib.Nat.{mod-eq_of_lt}

-- A domain that is no address, as `SocksAddr` keeps it.
abbrev pub IsPlain : (Text → Option IpAddr) → SocksAddr → Type 0
IsPlain parse_ip (SocksAddr.ip a) = Unit
IsPlain parse_ip (SocksAddr.domain d p) = parse_ip d ≡ none

pub record IsSendable (parse_ip : Text → Option IpAddr) (p : UdpPacket) : Type 0 where
  pub encodable : IsEncodable p.dst_addr
  pub plain : IsPlain parse_ip p.dst_addr
  pub short : length p.payload < 2 ^ 16

abbrev pub received : SocksAddr → List UdpPacket → List UdpPacket
received remote [] = []
received remote (p ∷ ps) = record p { src_addr = remote } ∷ received remote ps

abbrev pub frames : List UdpPacket → Text
frames [] = []
frames (p ∷ ps) = frame p ++ frames ps

abbrev pub AllSendable : (Text → Option IpAddr) → List UdpPacket → Type 0
AllSendable parse_ip [] = Unit
AllSendable parse_ip (p ∷ ps) = IsSendable parse_ip p × AllSendable parse_ip ps

module _ (parse_ip : Text → Option IpAddr) (remote : SocksAddr) where
  abbrev next_then : Next × Reader → (Reader → List UdpPacket × Reader) → List UdpPacket × Reader
  next_then (waiting, r) k = ([], r)
  next_then (closed, r) k = ([], r)
  next_then (item p, r) k = let (ps, t) = k r in (p ∷ ps, t)

  -- Polls as long as there is a packet, at most `n` times.
  unfoldable pub recv_all : ℕ → Reader → List UdpPacket × Reader
  recv_all zero r = ([], r)
  recv_all (suc n) r = next_then (poll_next parse_ip remote r) (λ r'. recv_all n r')

module _ (parse_ip : Text → Option IpAddr) (remote : SocksAddr) (later : List Text) where
  abbrev input : Text → Input
  input bytes = record { avail = bytes; later = later }

  abbrev got_item : SocksAddr → Text → Text → Next × Reader
  got_item a data_bytes rest = (
    item (record { payload = data_bytes; src_addr = remote; dst_addr = a }),
    record { state = atyp; input = input rest },
  )

  abbrev body : Text → Text
  body bytes = be_bytes 2 (length bytes % 2 ^ 16) ++ (crlf ++ bytes)

  from_data_len-body :
      (a : SocksAddr) (bytes rest : Text)
      → length bytes < 2 ^ 16
      → from_data_len parse_ip remote a (input (body bytes ++ rest)) ≡ got_item a bytes rest
  unfolding from_data_len from_data
  from_data_len-body a bytes rest short = rw (
    mod-eq_of_lt short,
    append_assoc (be_bytes 2 (length bytes)) (crlf ++ bytes) rest,
    read-append (be_bytes 2 (length bytes)) (crlf ++ (bytes ++ rest)) later 2
        (length-be_bytes 2 (length bytes)),
    read-append crlf (bytes ++ rest) later 2 refl,
    from_be-be_bytes 2 (length bytes) short,
    read-append bytes rest later (length bytes) refl,
  )

  from_port-body :
      (a : Addr) (p : ℕ) (sa : SocksAddr) (bytes rest : Text)
      → p < 256 ^ 2
      → to_addr parse_ip remote a p ≡ some sa
      → length bytes < 2 ^ 16
      → from_port parse_ip remote a (input (be_bytes 2 p ++ (body bytes ++ rest)))
        ≡ got_item sa bytes rest
  unfolding from_port
  from_port-body a p sa bytes rest fits same short =
      rw
        (
          read-append (be_bytes 2 p) (body bytes ++ rest) later 2 (length-be_bytes 2 p),
          from_be-be_bytes 2 p fits,
          same,
        )
        (from_data_len-body sa bytes rest short)

  from_atyp-ip :
      (i : IpAddr) (p : ℕ) (bytes rest : Text)
      → IpFits i
      → p < 256 ^ 2
      → length bytes < 2 ^ 16
      → from_atyp parse_ip remote (input (write_ip i p ++ (body bytes ++ rest)))
        ≡ got_item (socks_ip i p) bytes rest
  unfolding from_atyp from_addr to_addr
  from_atyp-ip (v4 x) p bytes rest fits port short =
      rw
        (
          read-append (1 ∷ []) ((be_bytes 4 x ++ be_bytes 2 p) ++ (body bytes ++ rest)) later 1
              refl,
          append_assoc (be_bytes 4 x) (be_bytes 2 p) (body bytes ++ rest),
          read-append (be_bytes 4 x) (be_bytes 2 p ++ (body bytes ++ rest)) later 4
              (length-be_bytes 4 x),
          from_be-be_bytes 4 x fits,
        )
        (from_port-body (Addr.ip (v4 x)) p (socks_ip (v4 x) p) bytes rest port refl short)
  from_atyp-ip (v6 x) p bytes rest fits port short =
      rw
        (
          read-append (4 ∷ []) ((be_bytes 16 x ++ be_bytes 2 p) ++ (body bytes ++ rest)) later 1
              refl,
          append_assoc (be_bytes 16 x) (be_bytes 2 p) (body bytes ++ rest),
          read-append (be_bytes 16 x) (be_bytes 2 p ++ (body bytes ++ rest)) later 16
              (length-be_bytes 16 x),
          from_be-be_bytes 16 x fits,
        )
        (from_port-body (Addr.ip (v6 x)) p (socks_ip (v6 x) p) bytes rest port refl short)

  from_atyp-domain :
      (d : Text) (p : ℕ) (bytes rest : Text)
      → length d < 256
      → is_utf8 d ≡ true
      → parse_ip d ≡ none
      → p < 256 ^ 2
      → length bytes < 2 ^ 16
      → from_atyp parse_ip remote (input (write_buf (SocksAddr.domain d p) ++ (body bytes ++ rest)))
        ≡ got_item (SocksAddr.domain d p) bytes rest
  unfolding from_atyp from_addr to_addr write_buf try_from_host
  from_atyp-domain d p bytes rest len utf8 plain port short =
      let fits : ltb 0xff (length d) ≡ false = ground arith in
      rw
        (
          mod-eq_of_lt len,
          read-append (3 ∷ []) ((length d ∷ (d ++ be_bytes 2 p)) ++ (body bytes ++ rest)) later 1
              refl,
          read-append (length d ∷ []) ((d ++ be_bytes 2 p) ++ (body bytes ++ rest)) later 1 refl,
          append_assoc d (be_bytes 2 p) (body bytes ++ rest),
          read-append d (be_bytes 2 p ++ (body bytes ++ rest)) later (from_be (length d ∷ []))
              (omega arith),
          utf8,
        )
        (from_port-body (Addr.domain d) p (SocksAddr.domain d p) bytes rest port
          (ground (arith, plain, fits)) short)

  -- The reader returns an encodable packet that begins the bytes that have come, with the remote
  -- address as its source, and leaves what is behind it.
  poll_next-frame :
      (p : UdpPacket) (rest : Text)
      → IsSendable parse_ip p
      → poll_next parse_ip remote (record { state = atyp; input = input (frame p ++ rest) })
        ≡ got_item p.dst_addr p.payload rest
  unfolding poll_next frame write_buf
  poll_next-frame p rest h =
      rw (append_assoc (write_buf p.dst_addr) (body p.payload) rest)
        (by_address p.dst_addr h.encodable h.plain)
    where
      by_address :
          (a : SocksAddr)
          → IsEncodable a
          → IsPlain parse_ip a
          → from_atyp parse_ip remote (input (write_buf a ++ (body p.payload ++ rest)))
            ≡ got_item a p.payload rest
      by_address (SocksAddr.ip a) (fits, port) plain =
          from_atyp-ip a.ip a.port p.payload rest fits port h.short
      by_address (SocksAddr.domain d n) (len, utf8, port) plain =
          from_atyp-domain d n p.payload rest len utf8 plain port h.short

  pub recv_all-frames :
      (ps : List UdpPacket) (rest : Text)
      → AllSendable parse_ip ps
      → recv_all parse_ip remote
          (length ps)
          (record { state = atyp; input = input (frames ps ++ rest) })
        ≡ (received remote ps, record { state = atyp; input = input rest })
  unfolding recv_all
  recv_all-frames [] rest h = refl
  recv_all-frames (p ∷ ps) rest (h, hs) = rw (
    append_assoc (frame p) (frames ps) rest,
    poll_next-frame p (frames ps ++ rest) h,
    recv_all-frames ps rest hs,
  )

  -- The bytes of a payload that have come before the rest of it are lost: the next poll fills the
  -- packet from the later ones alone.
  pub poll_next-lost :
      (a : SocksAddr) (len : ℕ) (early c : Text)
      → length early < len
      → len ≤ length c
      → let r : Reader = record {
        state = payload a len;
        input = record { avail = early; later = c ∷ later };
      } in
        ((poll_next parse_ip remote r).0 ≡ waiting)
        × (poll_next parse_ip remote (poll_next parse_ip remote r).1
            ≡ got_item a (take len c) (drop len c))
  unfolding poll_next from_data read
  poll_next-lost a len early c few enough =
      let no : leb len (length early) ≡ false = ground arith in
      let all : leb len (length c) ≡ true = ground arith in (rw (no) refl, rw (no, all) refl)

bytes_of-clean :
    (ps : List (UdpPacket × List Attempt)) → AllClean ps → bytes_of ps ≡ frames (map (λ x. x.0) ps)
bytes_of-clean [] h = refl
bytes_of-clean ((p, attempts) ∷ rest) (h, hs) = rw (h, bytes_of-clean rest hs)

-- Encodable packets whose pending attempts gave nothing to the stream below, and whose bytes have all
-- arrived when the reader at the other end is polled, come out of it as they were sent, in order, with
-- the remote address as their source, and the bytes behind them are left.
pub recv_all-send_all_clean :
    (parse_ip : Text → Option IpAddr) (remote : SocksAddr) (later : List Text)
    (ps : List (UdpPacket × List Attempt)) (t : Sink) (rest : Text)
    → AllSendable parse_ip (map (λ x. x.0) ps)
    → AllClean ps
    → send_all ps (idle []) ≡ some t
    → recv_all parse_ip remote
        (length (map (λ x. x.0) ps))
        (record { state = atyp; input = record { avail = t.wire ++ rest; later = later } })
      ≡ (
        received remote (map (λ x. x.0) ps),
        record { state = atyp; input = record { avail = rest; later = later } },
      )
recv_all-send_all_clean parse_ip remote later ps t rest sendable clean sent =
    let wire : t.wire ≡ frames (map (λ x. x.0) ps) =
      ap (λ s. s.wire) (send_all-bytes_of ps [] t sent) ∙ bytes_of-clean ps clean in
    rw wire (recv_all-frames parse_ip remote later (map (λ x. x.0) ps) rest sendable)
