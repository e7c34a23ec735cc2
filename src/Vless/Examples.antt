-- ===== src/Vless/Examples.antt =====
-- clash-lib/src/proxy/vless/datagram.rs: packets over a stream that takes them in pieces.
use clash_rs.Prelude.{some, List, [], ◌∷◌, ◌++◌, ◌≡◌, refl, length, arith}
use clash_rs.Prelude.Text.{Text, codes}
use clash_rs.Prelude.Words.{be_bytes}
use clash_rs.Session.{v4, SocksAddr, socks_ip}
use clash_rs.Streams.{UdpPacket, wrote, blocked, pending, done}
use clash_rs.Vless.{Reader, item, waiting, start_send, write_loop, poll_flush, poll_next}
use clash_rs.Vless.Sends.{Attempt, idle, IsValid, all_bytes, flush_all, flush_all-Flushed}
use clash_rs.Vless.Receives.{frame, loaded, received, recv_all, send_all, recv_all-send_all}
use clash_rs.Vless.Pieces.{poll_next-pieces}

abbrev server : SocksAddr
server = socks_ip (v4 8) 53

abbrev packet : Text → UdpPacket
packet bytes = record { payload = bytes; src_addr = socks_ip (v4 1) 1000; dst_addr = server }

-- The first attempt gives three bytes to the stream below, and the second one is not flushed.
abbrev in_pieces : List Attempt
in_pieces = ((wrote 3 ∷ (blocked ∷ [])), done) ∷ (((wrote 100 ∷ []), pending) ∷ (([], done) ∷ []))

abbrev packets : List (UdpPacket × List Attempt)
packets =
    (packet (codes "ping"), in_pieces)
    ∷ ((packet [], in_pieces) ∷ ((packet (codes "pong"), in_pieces) ∷ []))

send_all_runs :
    send_all packets (idle []) ≡ some (idle (frame (codes "ping") ++ frame (codes "pong")))
unfolding send_all start_send flush_all poll_flush write_loop
send_all_runs = refl

recv_all-send_all_example :
    recv_all server [] 0 (length (received server packets)) (record {
      remaining_bytes = 0;
      input = record {
        avail = (frame (codes "ping") ++ frame (codes "pong")) ++ codes "rest";
        later = [];
      };
    })
    ≡ (
      received server packets,
      record { remaining_bytes = 0; input = record { avail = codes "rest"; later = [] } },
    )
recv_all-send_all_example =
    recv_all-send_all server [] 0 packets (idle (frame (codes "ping") ++ frame (codes "pong")))
      (codes "rest") send_all_runs

flush_all-Flushed_example :
    (all_bytes (flush_all in_pieces (loaded [] (packet (codes "ping")))).1 ≡ frame (codes "ping"))
    × IsValid (flush_all in_pieces (loaded [] (packet (codes "ping")))).1
    × ((flush_all in_pieces (loaded [] (packet (codes "ping")))).0 ≡ done
        → (flush_all in_pieces (loaded [] (packet (codes "ping")))).1 ≡ idle (frame (codes "ping")))
flush_all-Flushed_example =
    flush_all-Flushed in_pieces (loaded [] (packet (codes "ping")))
      (record { emptied = λ h. absurd (ground (arith, h)) })

poll_next-pieces_example :
    (r s : Reader) × (poll_next server 1 (record {
      remaining_bytes = 0;
      input = record { avail = be_bytes 2 4 ++ codes "pi"; later = codes "ng" ∷ [] };
    })
      ≡ some (item (record { payload = codes "pi"; src_addr = server; dst_addr = server }), r))
    × (poll_next server 1 r ≡ some (waiting, s))
    × (poll_next server 1 s
        ≡ some (
          item (record { payload = codes "ng"; src_addr = server; dst_addr = server }),
          record { remaining_bytes = 0; input = record { avail = []; later = [] } },
        ))
poll_next-pieces_example =
    poll_next-pieces server [] 0 b'p' b'n' (codes "i") (codes "g") (omega arith)
