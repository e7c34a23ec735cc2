-- ===== src/Vless/Stream/Examples.antt =====
-- clash-lib/src/proxy/vless/stream.rs: a stream that takes its request in two attempts.
use clash_rs.Prelude.{true, false, List, [], ◌∷◌, ◌++◌, ◌≡◌, ◌⊎◌, refl, arith}
use clash_rs.Prelude.Text.{Text, codes}
use clash_rs.Session.{socks_ip, v4}
use clash_rs.Streams.{wrote, blocked, write_all}
use clash_rs.Vless.Stream.{
  VlessStream, read_pending, read_failed, invalid_version, write_to_buf_vmess,
  build_handshake_header, send_handshake_with_data, poll_write, poll_read,
}
use clash_rs.Vless.Stream.Requests.{Call, poll_all, repeats, sent, unsent, poll_all-unsent}
use clash_rs.Vless.Stream.Responses.{
  read_all, waiting, opened, read_all-response, poll_read-late_info,
}
use clash_rs.Vless.Stream.Format.{build_handshake_header_injective}

abbrev id : Text
id = codes "0123456789abcdef"

abbrev stream : VlessStream
stream = record {
  wire = [];
  input = record { avail = []; later = [] };
  handshake_done = false;
  handshake_sent = false;
  response_received = false;
  uuid = id;
  destination = socks_ip (v4 8) 53;
  is_udp = true;
}

-- The first attempt is blocked behind two bytes; then the request goes out, and two more bytes.
abbrev calls : List Call
calls =
    ((wrote 2 ∷ (blocked ∷ [])), codes "ab")
    ∷ (((wrote 100 ∷ []), codes "ab") ∷ (((wrote 2 ∷ []), codes "cde") ∷ []))

begins_twice : poll_all calls (unsent stream []) ≡ (
  codes "abcd",
  sent stream ((0 ∷ (b'0' ∷ [])) ++ (build_handshake_header stream ++ codes "abcd")),
)
unfolding poll_all poll_write send_handshake_with_data write_all write_to_buf_vmess
begins_twice = refl

poll_all-unsent_example :
    (poll_all calls (unsent stream [])
      ≡ ([], unsent stream ([] ++ repeats (build_handshake_header stream) calls)))
    ⊎ ((acc : Text) × (poll_all calls (unsent stream []) ≡ (
      acc,
      sent stream (
          []
          ++ (repeats (build_handshake_header stream) calls
              ++ (build_handshake_header stream ++ acc))),
    )))
poll_all-unsent_example = poll_all-unsent stream calls []

read_all-response_example :
    read_all (4 ∷ (4 ∷ [])) (waiting stream (0 ∷ (2 ∷ (codes "xy" ++ codes "data"))) [])
    ≡ read_all (4 ∷ (4 ∷ [])) (opened stream (codes "data") [])
read_all-response_example = read_all-response stream (codes "xy") (codes "data") [] 4 (4 ∷ [])

poll_read-late_info_example :
    ((poll_read 4 (waiting stream (0 ∷ (2 ∷ [])) ((7 ∷ (9 ∷ [])) ∷ []))).0 ≡ read_pending)
    × ((poll_read 4 (poll_read 4 (waiting stream (0 ∷ (2 ∷ [])) ((7 ∷ (9 ∷ [])) ∷ []))).1).0
        ≡ read_failed invalid_version)
poll_read-late_info_example = poll_read-late_info stream 7 9 [] [] 1 4 (omega arith)

build_handshake_header_injective_example :
    (id ≡ id)
    × (true ≡ true)
    × (stream.destination ≡ stream.destination)
    × (codes "data" ≡ codes "data")
build_handshake_header_injective_example =
    build_handshake_header_injective stream stream (codes "data") (codes "data") refl refl
      (omega arith, omega arith) (omega arith, omega arith) refl
