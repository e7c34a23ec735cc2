-- ===== src/Hysteria2/Examples.antt =====
-- clash-lib/src/proxy/hysteria2: runs at concrete inputs.
use clash_rs.Prelude.{ℕ, Bool, leb, ◌<◌, true, ◌≡◌, refl, none, some, List, [], ◌∷◌, length, arith}
use clash_rs.Prelude.Text.{Text, codes}
use clash_rs.Prelude.Outcome.{ok, err}
use clash_rs.Session.{SocksAddr, domain}
use clash_rs.Session.Buffer.{is_utf8, IoError, other}
use clash_rs.Hysteria2.Tcp.{Hy2TcpResp}
use clash_rs.Hysteria2.Salamander.{recv, encrypt, recv-encrypt}
use clash_rs.Hysteria2.Laws.{IsAddress}
use clash_rs.Hysteria2.{default_defragger, new, to_string, collect, fragments_of}
use clash_rs.Hysteria2.Slots.{mem}
use clash_rs.Hysteria2.Unary.{unary, unary-Laws}
use clash_rs.Hysteria2.Connection.{open_session, send_packet, recv_all}
use clash_rs.Hysteria2.Connection.Reassembly.{
  picked, all_within, send_packet_fits, recv_all-send_packet,
}

abbrev site : SocksAddr
site = domain (codes "a.b") 3

-- Seven bytes of address, one of its length and eight before it: two bytes are left for the payload.
abbrev hello : List Text
hello = collect unary 3 (fragments_of 7 9 (to_string unary site) 18 (codes "hello") 1)

site-IsAddress : IsAddress unary site
unfolding is_utf8
site-IsAddress = (refl, omega arith, refl)

abbrev takes_all : ℕ → Text → Bool
takes_all i d = true

-- The connection does not take more than twelve bytes: the first datagram is refused.
hello_refused :
    send_packet unary (λ i d. leb (length d) 12) (some 18) none (codes "hello") site 7 9 ≡ err other
unfolding send_packet new collect
hello_refused = refl

hello_sent : send_packet unary takes_all (some 18) none (codes "hello") site 7 9 ≡ ok hello
unfolding send_packet new collect
hello_sent = refl

hello_covered : (j : ℕ) → j < 3 → mem j (1 ∷ 2 ∷ 2 ∷ 0 ∷ []) ≡ true
hello_covered j h = ground arith

send_packet_fits_example :
    (ds : List Text) × (send_packet unary takes_all (some 18) none (codes "hello") site 7 9 ≡ ok ds)
    × (all_within 18 ds ≡ true)
    × (length ds ≡ 3)
send_packet_fits_example =
    send_packet_fits unary unary-Laws site 7 9 18 1 (codes "hello") site-IsAddress (omega arith)
      refl (omega arith) (omega arith) takes_all none (λ i d h. refl)

-- The third datagram comes twice and first, the second one last.
recv_all-send_packet_example :
    recv_all unary (open_session (λ j. none) 7 site) (picked hello (2 ∷ 2 ∷ 0 ∷ 1 ∷ []))
    ≡ ok (
        none
        ∷ none
        ∷ none
        ∷ some (record { payload = codes "hello"; src_addr = site; dst_addr = site })
        ∷ [])
unfolding collect
recv_all-send_packet_example =
    recv_all-send_packet unary unary-Laws site 7 9 18 1 (codes "hello") site-IsAddress (omega arith)
      refl (omega arith) (omega arith) takes_all none hello (open_session (λ j. none) 7 site)
      (record { local_addr = site; defragger = default_defragger }) (2 ∷ 2 ∷ 0 ∷ []) 1 (omega arith)
      (omega arith) hello_sent refl refl refl (omega arith) refl hello_covered

abbrev response_ok : Hy2TcpResp
response_ok = record { status = 0; msg = codes "abc" }

-- A hash that does not depend on the salt.
abbrev fixed_hash : Text → Text
fixed_hash s = 1 ∷ 2 ∷ 255 ∷ []

recv-encrypt_example :
    recv fixed_hash
      (codes "key")
      {E = IoError}
      (encrypt fixed_hash (codes "key") (codes "12345678") (codes "hhh"))
    ≡ ok (codes "hhh")
recv-encrypt_example =
    recv-encrypt fixed_hash (codes "key") (codes "12345678") (codes "hhh") (λ s. refl) refl refl
      (omega arith)
