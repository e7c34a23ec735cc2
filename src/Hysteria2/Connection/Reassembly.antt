-- ===== src/Hysteria2/Connection/Reassembly.antt =====
-- clash-lib/src/proxy/hysteria2/{codec.rs, mod.rs}: from `send_packet` to `recv_packet`.
use native.Mathlib.Nat.{mod-eq_of_lt, zero-mul}
use clash_rs.Prelude.{
  ℕ, zero, suc, ◌+◌, ◌-◌, ◌*◌, ◌%◌, ◌^◌, ◌≤◌, ◌<◌, ◌==◌, ==_iff, leb, Bool, Bool-cases, inl, inr,
  true, false, ◌&&◌, Option, none, some, List, [], ◌∷◌, ◌++◌, ◌≡◌, refl, sym, ap, ◌∙◌,
  if◌then◌else◌, length, get_or, replicate, map, min, length-append, length-take, arith,
}
use clash_rs.Prelude.Text.{Text}
use clash_rs.Prelude.Outcome.{Outcome, ok-injective, ok, err, panic, ◌>>=◌}
use clash_rs.Session.Buffer.{IoError}
use clash_rs.Session.{SocksAddr}
use clash_rs.RingBuffer.Slices.{take-all}
use clash_rs.Hysteria2.{
  drop, Codecs, HysUdpPacket, Iter, Defragger, var_size, to_string, fixed_size_of, fragments_of,
  div_ceil, decode, feed, new, collect,
}
use clash_rs.Hysteria2.Laws.{Laws, IsAddress}
use clash_rs.Hysteria2.Packet.{packet, decode-header}
use clash_rs.Hysteria2.Slots.{mem, payloads}
use clash_rs.Hysteria2.Fragments.{
  chunk_size, chunk, chunks, datagram, datagrams, collect-at, chunks-drop, div_ceil-bounds,
}
use clash_rs.Hysteria2.Defrag.{outcomes, IsFresh, all_below, fragment, whole, feed-fragments}
use clash_rs.Hysteria2.Connection.{
  UdpSession, Sessions, incoming, recv_packet, send_datagrams, send_packet, recv_all,
}

get_or-datagrams :
    (codecs : Codecs) (it : Iter) (i j c k : ℕ)
    → i < c
    → j + i ≡ k
    → get_or (datagrams codecs it j c) i [] ≡ datagram codecs it k
get_or-datagrams codecs it i j zero k h e = absurd (omega arith)
get_or-datagrams codecs it zero j (suc c) k h e = let same : j ≡ k = omega arith in rw same refl
get_or-datagrams codecs it (suc i) j (suc c) k h e =
    get_or-datagrams codecs it i (suc j) c k (omega arith) (omega arith)

length-datagrams : (codecs : Codecs) (it : Iter) (j c : ℕ) → length (datagrams codecs it j c) ≡ c
length-datagrams codecs it j zero = refl
length-datagrams codecs it j (suc c) = ap suc (length-datagrams codecs it (suc j) c)

abbrev pub picked : List Text → List ℕ → List Text
picked ds is = map (λ i. get_or ds i []) is

if_same {ℓ} : {A : Type ℓ} {x : A} (y : A) (i : ℕ) → (if i == i then x else y) ≡ x
if_same y i = rw ((==_iff i i).1 refl)

abbrev pub all_within : ℕ → List Text → Bool
all_within n [] = true
all_within n (d ∷ ds) = leb (length d) n && all_within n ds

-- A loop that succeeds has sent every datagram.
send_datagrams-ok :
    (send_datagram : ℕ → Text → Bool) (i : ℕ) (ds es : List Text)
    → send_datagrams send_datagram i ds ≡ ok es
    → ds ≡ es
send_datagrams-ok send_datagram i [] es h = ok-injective h
send_datagrams-ok send_datagram i (d ∷ ds) es h = elim (Bool-cases (send_datagram i d)) [
  | inl taken ↦
      rest_ok (send_datagrams send_datagram (suc i) ds) es
        (send_datagrams-ok send_datagram (suc i) ds) (sym (if_taken taken) ∙ h)
  | inr refused ↦ absurd (ground (arith, refused, h))
]
  where
    if_taken :
        send_datagram i d ≡ true
        → send_datagrams send_datagram i (d ∷ ds)
          ≡ (do sent ← send_datagrams send_datagram (suc i) ds; ok (d ∷ sent))
    if_taken taken = rw taken refl

    rest_ok :
        (o : Outcome IoError (List Text)) (es : List Text)
        → ((fs : List Text) → o ≡ ok fs → ds ≡ fs)
        → (do sent ← o; ok (d ∷ sent)) ≡ ok es
        → d ∷ ds ≡ es
    rest_ok (ok fs) es same e = ap (λ t. d ∷ t) (same fs refl) ∙ ok-injective e
    rest_ok (err x) es same e = absurd (ground (arith, e))
    rest_ok panic es same e = absurd (ground (arith, e))

send_datagrams-within :
    (n : ℕ) (send_datagram : ℕ → Text → Bool)
    → ((i : ℕ) (d : Text) → length d ≤ n → send_datagram i d ≡ true)
    → (i : ℕ) (ds : List Text) → all_within n ds ≡ true
    → send_datagrams send_datagram i ds ≡ ok ds
send_datagrams-within n send_datagram takes i [] h = refl
send_datagrams-within n send_datagram takes i (d ∷ ds) h =
    let short : length d ≤ n = ground (arith, h) in
    let rest : all_within n ds ≡ true = ground (arith, h) in
    rw (takes i d short, send_datagrams-within n send_datagram takes (suc i) ds rest) refl

all_below-append :
    (n last : ℕ) (is : List ℕ)
    → all_below n is ≡ true
    → last < n
    → all_below n (is ++ (last ∷ [])) ≡ true
all_below-append n last [] below h = ground arith
all_below-append n last (i ∷ is) below h =
    let rest : all_below n is ≡ true = ground arith in
    ground (arith, all_below-append n last is rest h)

map-replicate {ℓ κ} :
    {A : Type ℓ} {B : Type κ} (f : A → B) (n : ℕ) (x y : A)
    → map f (replicate n x ++ (y ∷ [])) ≡ replicate n (f x) ++ (f y ∷ [])
map-replicate f zero x y = refl
map-replicate f (suc n) x y = ap (λ ys. f x ∷ ys) (map-replicate f n x y)

-- A task that gets the packets that the defragger of a session gets hands on what it returns.
recv_all-outcomes :
    (codecs : Codecs) (base : HysUdpPacket) (n : ℕ) (pieces : ℕ → Text) (ds : List Text)
    (session : UdpSession)
    → ((i : ℕ) → i < n → decode codecs (get_or ds i []) ≡ ok (fragment base n pieces i))
    → (rs : List (Option HysUdpPacket)) (is : List ℕ) (sessions : Sessions) (d : Defragger)
    → sessions base.session_id ≡ some (record session { defragger = d })
    → all_below n is ≡ true
    → outcomes d (map (fragment base n pieces) is) ≡ map ok rs
    → recv_all codecs sessions (picked ds is) ≡ ok (map (incoming session) rs)
unfolding recv_packet
recv_all-outcomes codecs base n pieces ds session decodes [] [] sessions d known below e = refl
recv_all-outcomes codecs base n pieces ds session decodes (r ∷ rs) [] sessions d known below e =
    absurd (ground arith)
recv_all-outcomes codecs base n pieces ds session decodes [] (i ∷ is) sessions d known below e =
    absurd (ground arith)
recv_all-outcomes codecs base n pieces ds session decodes (r ∷ rs) (i ∷ is) sessions d known below
      e =
    let (i_below, is_below) : (i < n) × (all_below n is ≡ true) = ground arith in
    let p = fragment base n pieces i in
    let now : (feed d p).1 ≡ ok r = cc in
    let later : outcomes (feed d p).0 (map (fragment base n pieces) is) ≡ map ok rs = cc in
    rw (
      decodes i i_below,
      known,
      now,
      recv_all-outcomes codecs base n pieces ds session decodes rs is _ (feed d p).0
          (if_same (sessions base.session_id) base.session_id) is_below later,
    )

payloads-chunks :
    (base : HysUdpPacket) (n : ℕ) (it : Iter) (j c : ℕ)
    → payloads (fragment base n (chunk it)) j c ≡ chunks it j c
payloads-chunks base n it j zero = refl
payloads-chunks base n it j (suc c) =
    ap (λ t. chunk it j ++ t) (payloads-chunks base n it (suc j) c)

module _ (codecs : Codecs) (laws : Laws codecs) (a : SocksAddr) (session_id pkt_id mtu size : ℕ)
    (payload : Text) (address : IsAddress codecs a) (short : length (to_string codecs a) < 2 ^ 32)
    (known_size : var_size (length (to_string codecs a)) ≡ some size)
    (room : fixed_size_of (to_string codecs a) size < mtu)
    (fits : length payload ≤ 255 * (mtu - fixed_size_of (to_string codecs a) size)) where
  abbrev iter : Iter
  iter = fragments_of session_id pkt_id (to_string codecs a) mtu payload size

  quotient_fits : div_ceil (length payload) (mtu - fixed_size_of (to_string codecs a) size) < 256
  quotient_fits =
      (div_ceil-bounds (length payload) (mtu - fixed_size_of (to_string codecs a) size)
        (omega arith) fits).0

  -- The cast to a byte loses nothing.
  total : (iter.frag_total < 256) × (length payload ≤ iter.frag_total * chunk_size iter)
  total = rw (mod-eq_of_lt quotient_fits) (
      div_ceil-bounds (length payload) (mtu - fixed_size_of (to_string codecs a) size) (omega arith)
        fits)

  send_packet-datagrams :
      (send_datagram : ℕ → Text → Bool) (max_datagram_size : Option ℕ)
      → send_packet codecs send_datagram (some mtu) max_datagram_size payload a session_id pkt_id
        ≡ send_datagrams send_datagram 0 (datagrams codecs iter 0 iter.frag_total)
  unfolding send_packet new
  send_packet-datagrams send_datagram max_datagram_size =
      let enough : leb mtu (fixed_size_of (to_string codecs a) size) ≡ false = ground arith in
      let start : 0 ≡ min (0 * chunk_size iter) (length payload) =
        omega (arith, zero-mul (chunk_size iter)) in
      let collected : collect codecs (2 ^ 8) iter ≡ datagrams codecs iter 0 iter.frag_total =
        ap (λ s. collect codecs (2 ^ 8) (record iter { next_frag_start = s })) start
        ∙ collect-at codecs iter (2 ^ 8) 0 iter.frag_total (omega arith) (omega (arith, total.0)) in
      rw (mod-eq_of_lt short, known_size, enough) (ap (send_datagrams send_datagram 0) collected)

  whole_payload : chunks iter 0 iter.frag_total ≡ payload
  whole_payload =
      chunks-drop codecs iter 0 iter.frag_total
      ∙ rw (zero-mul (chunk_size iter))
          (take-all (iter.frag_total * chunk_size iter) payload total.1)

  length-datagram : (j : ℕ) → length (datagram codecs iter j) ≤ mtu
  length-datagram j =
      let addr = to_string codecs a in
      let field = codecs.encode_var (length addr % 2 ^ 32) in
      let var : length field ≡ size =
        rw (mod-eq_of_lt short) (laws.length-encode_var (length addr) size known_size) in
      let width : chunk_size iter ≡ mtu - fixed_size_of addr size = refl in
      omega (
        arith,
        var,
        width,
        length-append (field ++ addr) (chunk iter j),
        length-append field addr,
        length-take (chunk_size iter) (drop (j * chunk_size iter) payload),
      )

  datagrams_within : (j c : ℕ) → all_within mtu (datagrams codecs iter j c) ≡ true
  datagrams_within j zero = refl
  datagrams_within j (suc c) = ground (arith, length-datagram j, datagrams_within (suc j) c)

  -- When the codecs have their laws, the address has a text of its own, the MTU is longer than the
  -- header, the payload needs at most 255 datagrams, and the connection takes every datagram that is
  -- not longer than the MTU: `send_packet` succeeds, no datagram is longer than the MTU, and there are
  -- as many as the payload needs.
  pub send_packet_fits :
      (send_datagram : ℕ → Text → Bool) (max_datagram_size : Option ℕ)
      → ((i : ℕ) (d : Text) → length d ≤ mtu → send_datagram i d ≡ true)
      → (ds : List Text) × (send_packet codecs send_datagram
            (some mtu)
            max_datagram_size
            payload
            a
            session_id
            pkt_id
          ≡ ok ds)
        × (all_within mtu ds ≡ true)
        × (length ds ≡ div_ceil (length payload) (mtu - fixed_size_of (to_string codecs a) size))
  send_packet_fits send_datagram max_datagram_size takes = (
    datagrams codecs iter 0 iter.frag_total,
    send_packet-datagrams send_datagram max_datagram_size
        ∙ send_datagrams-within mtu send_datagram takes 0 (datagrams codecs iter 0 iter.frag_total)
            (datagrams_within 0 iter.frag_total),
    datagrams_within 0 iter.frag_total,
    length-datagrams codecs iter 0 iter.frag_total ∙ mod-eq_of_lt quotient_fits,
  )

  recv_all-datagrams :
      (sessions : Sessions) (session : UdpSession) (is : List ℕ) (last : ℕ)
      → session_id < 256 ^ 4
      → pkt_id < 256 ^ 2
      → sessions session_id ≡ some session
      → IsFresh session.defragger pkt_id iter.frag_total
      → all_below iter.frag_total is ≡ true
      → last < iter.frag_total
      → mem last is ≡ false
      → ((j : ℕ) → j < iter.frag_total → mem j (last ∷ is) ≡ true)
      → recv_all codecs sessions
          (picked (datagrams codecs iter 0 iter.frag_total) (is ++ (last ∷ [])))
        ≡ ok (
            replicate (length is) none
            ++ (some (record { payload = payload; src_addr = a; dst_addr = session.local_addr })
                ∷ []))
  recv_all-datagrams sessions session is last hs hp known fresh below h absent all =
      let n = iter.frag_total in
      let base = packet codecs laws iter a 0 [] in
      let done = whole base n (chunk iter) in
      let decodes : (i : ℕ)
          → i < n
          → decode codecs (get_or (datagrams codecs iter 0 n) i [])
            ≡ ok (fragment base n (chunk iter) i) =
        λ i b.
          rw (get_or-datagrams codecs iter i 0 n i b (omega arith))
            (decode-header codecs laws iter a i (chunk iter i) refl address short hs hp) in
      let handed : map (incoming session) (replicate (length is) none ++ (some done ∷ []))
          ≡ replicate (length is) none
            ++ (some (record { payload = payload; src_addr = a; dst_addr = session.local_addr })
                ∷ []) =
        map-replicate (incoming session) (length is) none (some done)
        ∙ ap
            (λ t.
              replicate (length is) none
              ++ (some (record { payload = t; src_addr = a; dst_addr = session.local_addr }) ∷ []))
            (payloads-chunks base n iter 0 n ∙ whole_payload) in
      recv_all-outcomes codecs base n (chunk iter) (datagrams codecs iter 0 n) session decodes
        (replicate (length is) none ++ (some done ∷ [])) (is ++ (last ∷ [])) sessions
        session.defragger known (all_below-append n last is below h)
        (feed-fragments base n (chunk iter) session.defragger is last total.0 fresh below h absent
            all
          ∙ sym (map-replicate ok (length is) none (some done)))
      ∙ ap ok handed

  -- When the codecs have their laws, the address has a text of its own, the MTU is longer than the
  -- header, and the payload needs at most 255 datagrams, let `send_packet` succeed, and let its
  -- datagrams be received in any
  -- order, some of them more than once, the last missing one at the end, by a connection whose
  -- session holds nothing of the packet. Each but the last hands nothing on; the last one hands on
  -- the whole payload, from the address that it was sent to.
  pub recv_all-send_packet :
      (send_datagram : ℕ → Text → Bool) (max_datagram_size : Option ℕ) (ds : List Text)
      (sessions : Sessions) (session : UdpSession) (is : List ℕ) (last : ℕ)
      → session_id < 256 ^ 4
      → pkt_id < 256 ^ 2
      → send_packet codecs send_datagram (some mtu) max_datagram_size payload a session_id pkt_id
        ≡ ok ds
      → sessions session_id ≡ some session
      → IsFresh session.defragger pkt_id (length ds)
      → all_below (length ds) is ≡ true
      → last < length ds
      → mem last is ≡ false
      → ((j : ℕ) → j < length ds → mem j (last ∷ is) ≡ true)
      → recv_all codecs sessions (picked ds (is ++ (last ∷ [])))
        ≡ ok (
            replicate (length is) none
            ++ (some (record { payload = payload; src_addr = a; dst_addr = session.local_addr })
                ∷ []))
  recv_all-send_packet send_datagram max_datagram_size ds sessions session is last hs hp sent known
        fresh below h absent all =
      let same : datagrams codecs iter 0 iter.frag_total ≡ ds =
        send_datagrams-ok send_datagram 0 (datagrams codecs iter 0 iter.frag_total) ds
          (sym (send_packet-datagrams send_datagram max_datagram_size) ∙ sent) in
      let len : length ds ≡ iter.frag_total =
        rw (← same) (length-datagrams codecs iter 0 iter.frag_total) in
      rw (← same) (
        recv_all-datagrams sessions session is last hs hp known (rw⁻¹ len fresh) (rw⁻¹ len below)
          (rw⁻¹ len h) absent (λ j b. all j (rw len b)))
